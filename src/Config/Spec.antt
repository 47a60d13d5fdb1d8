-- ===== src/Config/Spec.antt =====
-- What `conf_option_handler` is for: the change that one line of the configuration makes.
use afs_cs.Base.{
  ℕ, ℤ, pos, minus_one, to_u32, ◌≡◌, ◌⊎◌, Bool, true, false, Option, none, some, List, [], ◌∷◌,
  ◌++◌, Str, str_eq, if◌then◌else◌,
}
use afs_cs.Queue.{ErrinjType, ErrinjConf, OwnedStr, zeroed}
use afs_cs.System.{Env}
use afs_cs.System.Accounts.{IsRefused}
use afs_cs.Config.{
  find_type, put_type, key_path_regexp, key_op_regexp, key_probability, key_duration, Env,
}
use afs_cs.Config.Atoi.{atoi}
use afs_cs.Config.Names.{section_name}

-- A copy of the value, or NULL where memory can be refused.
abbrev pub IsCopy : Env → Str → Option OwnedStr → Type 0
IsCopy E value p = ((p ≡ none) × IsRefused E) ⊎ ((o : OwnedStr) × (p ≡ some o) × (o.text ≡ value))

-- `e'` is `e` with the option of the key set. The flag says whether the key is known.
pub data Applied (E : Env) (key value : Str) (e : ErrinjConf) : Bool → ErrinjConf → Type 0 where
  path_regexp_set :
      {p : Option OwnedStr}
      → str_eq key key_path_regexp ≡ true
      → IsCopy E value p
      → Applied E key value e true (record e { path_regexp = p })
  op_regexp_set :
      {p : Option OwnedStr}
      → str_eq key key_op_regexp ≡ true
      → IsCopy E value p
      → Applied E key value e true (record e { op_regexp = p })
  probability_set :
      str_eq key key_probability ≡ true
      → Applied E key value e true (record e { probability = to_u32 (atoi value) })
  duration_set :
      str_eq key key_duration ≡ true
      → Applied E key value e true (record e { duration = to_u32 (atoi value) })
  unknown :
      str_eq key key_path_regexp ≡ false
      → str_eq key key_op_regexp ≡ false
      → str_eq key key_probability ≡ false
      → str_eq key key_duration ≡ false
      → Applied E key value e false e

-- The result of the handler and the queue after it.
pub data Handled (E : Env) (section key value : Str) (q : List ErrinjConf)
    : ℤ → List ErrinjConf → Type 0 where
  -- No type has the name of the section.
  unsupported :
      ((t : ErrinjType) → str_eq (section_name t) section ≡ false)
      → Handled E section key value q minus_one q
  -- The section is new, and there is no memory for it, which needs a refused request.
  exhausted :
      (t : ErrinjType)
      → section ≡ section_name t
      → find_type t q ≡ none
      → IsRefused E
      → Handled E section key value q minus_one q
  -- The section is known, and its entry changes.
  updated :
      (t : ErrinjType) {e e' : ErrinjConf} {known : Bool}
      → section ≡ section_name t
      → find_type t q ≡ some e
      → Applied E key value e known e'
      → Handled E section key value q (if known then pos 1 else pos 0) (put_type t e' q)
  -- The section is new, and gets an entry behind the others.
  added :
      (t : ErrinjType) (b : ℕ) {e' : ErrinjConf} {known : Bool}
      → section ≡ section_name t
      → find_type t q ≡ none
      → Applied E key value (zeroed b t) known e'
      → Handled E section key value q (if known then pos 1 else pos 0) (q ++ e' ∷ [])
