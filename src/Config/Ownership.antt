-- ===== src/Config/Ownership.antt =====
-- The blocks that a queue of error injections holds, and how they change with its entries.
use mathlib.Core.Option.{some-injective}
use afs_cs.Base.{
  ◌≤◌, ap, ℕ, ◌+◌, ◌≡◌, inl, inr, true, Option, none, some, List, [], ◌∷◌, ◌++◌, arith, ◌==◌,
  Bool-cases,
}
use afs_cs.Queue.{ErrinjType, ErrinjConf, ErrInjQ, type_eq}
use afs_cs.System.Accounts.{bit, held_str}
use afs_cs.Config.{find_type, put_type}

-- The blocks of an entry, of the entries of a queue, and of a queue.
abbrev pub held_conf : ErrinjConf → ℕ → ℕ
held_conf e a = bit (e.block == a) + held_str e.path_regexp a + held_str e.op_regexp a

abbrev pub held_entries : List ErrinjConf → ℕ → ℕ
held_entries [] a = 0
held_entries (e ∷ q) a = held_conf e a + held_entries q a

abbrev pub held_queue : Option ErrInjQ → ℕ → ℕ
held_queue none a = 0
held_queue (some q) a = bit (q.block == a) + held_entries q.entries a

pub held_entries-append :
    (q r : List ErrinjConf) (a : ℕ) → held_entries (q ++ r) a ≡ held_entries q a + held_entries r a
held_entries-append [] r a = omega arith
held_entries-append (e ∷ q) r a = omega (arith, held_entries-append q r a)

pub held_entries-put_type :
    (t : ErrinjType) (q : List ErrinjConf) (e e' : ErrinjConf) (a : ℕ)
    → find_type t q ≡ some e
    → held_entries (put_type t e' q) a + held_conf e a ≡ held_entries q a + held_conf e' a
unfolding find_type put_type
held_entries-put_type t [] e e' a found = cc
held_entries-put_type t (np ∷ q) e e' a found = elim (Bool-cases (type_eq np.kind t)) [
  | inl same ↦ rw same (
      let e-np : np ≡ e = some-injective np e (rw same at found) in
      omega (arith, ap (λ x. held_conf x a) e-np))
  | inr other ↦ rw other (omega (arith, held_entries-put_type t q e e' a (rw other at found)))
]

pub held_conf-le-held_entries :
    (t : ErrinjType) (q : List ErrinjConf) (e : ErrinjConf) (a : ℕ)
    → find_type t q ≡ some e
    → held_conf e a ≤ held_entries q a
unfolding find_type
held_conf-le-held_entries t [] e a found = cc
held_conf-le-held_entries t (np ∷ q) e a found = elim (Bool-cases (type_eq np.kind t)) [
  | inl same ↦ omega (arith, ap (λ x. held_conf x a) (some-injective np e (rw same at found)))
  | inr other ↦ omega (arith, held_conf-le-held_entries t q e a (rw other at found))
]

pub put_type-append :
    (t : ErrinjType) (q : List ErrinjConf) (e e' : ErrinjConf)
    → find_type t q ≡ none
    → type_eq e.kind t ≡ true
    → put_type t e' (q ++ e ∷ []) ≡ q ++ e' ∷ []
unfolding find_type put_type
put_type-append t [] e e' missing same = rw same
put_type-append t (np ∷ q) e e' missing same = elim (Bool-cases (type_eq np.kind t)) [
  | inl hit ↦ cc (rw hit at missing)
  | inr other ↦ rw (other, put_type-append t q e e' (rw other at missing) same)
]

pub type_eq_refl : (t : ErrinjType) → type_eq t t ≡ true
type_eq_refl t = ground arith
