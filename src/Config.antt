-- ===== src/Config.antt =====
-- The configuration of error injections, from unreliablefs/unreliablefs_errinj.c:
-- `errinj_type_by_name`, `conf_option_handler`, `config_init` and `config_delete`. A queue is
-- passed in and returned where C updates it through a pointer.
pub mod Atoi
pub mod Names
pub mod Spec
pub mod Distinct
pub mod Ownership
pub mod Handler
pub mod Lifecycle
pub mod File
use afs_cs.Base.{
  ℕ, zero, suc, ◌+◌, ℤ, pos, negsuc, minus_one, ◌==ℤ◌, is_negative, to_u32, Bool, true, false, List,
  [], ◌∷◌, ◌++◌, Option, none, some, Str, codes, str_eq, ◌==◌, ◌&&◌, if◌then◌else◌,
}
use afs_cs.Base.Run.{M, pure, undefined, ◌>>=◌, ◌>>◌}
use afs_cs.Queue.{
  ErrinjType, errinj_errno, errinj_kill_caller, errinj_noop, errinj_slowdown, type_eq, errinj_name,
  OwnedStr, ErrinjConf, ErrInjQ, zeroed,
}
use afs_cs.System.{Env, State, IniItem, pair, malformed}
use afs_cs.System.Kernel.{sys_access}
use afs_cs.System.Memory.{sys, malloc, strdup, free, free_str}
use Atoi.{atoi}

-- The loop of `errinj_type_by_name` from index `i`: the last match wins.
unfoldable pub type_loop : List Str → Str → ℕ → ℤ → ℤ
type_loop [] name i idx = idx
type_loop (n ∷ names) name i idx =
    type_loop names name (i + 1) (if str_eq n name then pos i else idx)

unfoldable pub errinj_type_by_name : Str → ℤ
unfolding type_loop
errinj_type_by_name name = type_loop errinj_name name 0 minus_one

-- The cast of an index to the enumeration.
unfoldable pub to_errinj_type : ℤ → Option ErrinjType
to_errinj_type (pos zero) = some errinj_errno
to_errinj_type (pos (suc zero)) = some errinj_kill_caller
to_errinj_type (pos (suc (suc zero))) = some errinj_noop
to_errinj_type (pos (suc (suc (suc zero)))) = some errinj_slowdown
to_errinj_type (pos (suc (suc (suc (suc _))))) = none
to_errinj_type (negsuc _) = none

-- `TAILQ_FOREACH` to the first entry of the type.
unfoldable pub find_type : ErrinjType → List ErrinjConf → Option ErrinjConf
find_type t [] = none
find_type t (np ∷ q) = if type_eq np.kind t then some np else find_type t q

-- The queue after that entry was updated in place.
unfoldable pub put_type : ErrinjType → ErrinjConf → List ErrinjConf → List ErrinjConf
put_type t e [] = []
put_type t e (np ∷ q) = if type_eq np.kind t then e ∷ q else np ∷ put_type t e q

abbrev pub key_path_regexp : Str
key_path_regexp = codes "path_regexp"

abbrev pub key_op_regexp : Str
key_op_regexp = codes "op_regexp"

abbrev pub key_probability : Str
key_probability = codes "probability"

abbrev pub key_duration : Str
key_duration = codes "duration"

module _ (E : Env) where
  -- The chain of comparisons of the key; false is "unknown option".
  unfoldable pub set_option : Str → Str → ErrinjConf → M (State E) (Bool × ErrinjConf)
  set_option key value err =
      if str_eq key key_path_regexp
      then (do
        free_str E err.path_regexp
        p ← strdup E value
        pure (true, record err { path_regexp = p }))
      else if str_eq key key_op_regexp
      then (do
        free_str E err.op_regexp
        p ← strdup E value
        pure (true, record err { op_regexp = p }))
      else if str_eq key key_probability
      then pure (true, record err { probability = to_u32 (atoi value) })
      else if str_eq key key_duration
      then pure (true, record err { duration = to_u32 (atoi value) })
      else pure (false, err)

  -- What follows in the handler once `err` is an entry of the queue `q`.
  unfoldable pub update_entry :
      ErrinjType → Str → Str → ErrinjConf → List ErrinjConf → M (State E) (ℤ × List ErrinjConf)
  update_entry t key value err q = do
    (known, err') ← set_option key value err
    pure (if known then pos 1 else pos 0, put_type t err' q)

  -- The handler with the new entry that `calloc` made, or with NULL.
  unfoldable pub add_entry :
      ErrinjType → List ErrinjConf → Str → Str → Option ℕ → M (State E) (ℤ × List ErrinjConf)
  add_entry t q key value none = pure (minus_one, q)
  add_entry t q key value (some b) = update_entry t key value (zeroed b t) (q ++ zeroed b t ∷ [])

  -- The handler after the search for an entry of the type.
  unfoldable pub handle_found :
      ErrinjType
      → List ErrinjConf
      → Str
      → Str
      → Option ErrinjConf
      → M (State E) (ℤ × List ErrinjConf)
  handle_found t q key value none = do p ← malloc E; add_entry t q key value p
  handle_found t q key value (some err) = update_entry t key value err q

  -- The handler after the cast of the index that the section's name has.
  unfoldable pub handle_type :
      Option ErrinjType → List ErrinjConf → Str → Str → M (State E) (ℤ × List ErrinjConf)
  handle_type none q key value = undefined
  handle_type (some t) q key value = handle_found t q key value (find_type t q)

  unfoldable pub conf_option_handler :
      List ErrinjConf → Str → Str → Str → M (State E) (ℤ × List ErrinjConf)
  conf_option_handler q section key value =
      let cur_type = errinj_type_by_name section in
      if cur_type ==ℤ minus_one
      then pure (minus_one, q)
      else handle_type (to_errinj_type cur_type) q key value

  -- The parser's loop: every pair goes to the handler, and the result is the first line with an
  -- error or whose handler returned 0.
  unfoldable pub ini_lines : List IniItem → ℕ → List ErrinjConf → M (State E) (ℕ × List ErrinjConf)
  ini_lines [] error q = pure (error, q)
  ini_lines (malformed n ∷ lines) error q = ini_lines lines (if error == 0 then n else error) q
  ini_lines (pair n section key value ∷ lines) error q = do
    (rc, q') ← conf_option_handler q section key value
    ini_lines lines (if rc ==ℤ pos 0 && error == 0 then n else error) q'

  -- The parser with what it found, or with a file that does not open.
  unfoldable pub ini_found :
      Option (List IniItem) → List ErrinjConf → M (State E) (ℤ × List ErrinjConf)
  ini_found none q = pure (minus_one, q)
  ini_found (some lines) q = do (error, q') ← ini_lines lines 0 q; pure (pos error, q')

  -- `ini_parse(conf_path, conf_option_handler, errors)`
  unfoldable pub ini_parse : Str → List ErrinjConf → M (State E) (ℤ × List ErrinjConf)
  ini_parse conf_path q s =
      let (found, w) = E.ini_file conf_path s.world in ini_found found q (record s { world = w })

  -- What follows `TAILQ_INIT` in `config_init`.
  unfoldable pub load_config : Str → ℕ → M (State E) (Option ErrInjQ)
  load_config conf_path head = do
    r ← sys E (sys_access conf_path 0)
    if r.value ==ℤ pos 0
        then (do
          (rc, q) ← ini_parse conf_path []
          pure (if is_negative rc then none else some (record { block = head; entries = q })))
        else pure (some (record { block = head; entries = [] }))

  -- `config_init` after `calloc`.
  unfoldable pub init_queue : Str → Option ℕ → M (State E) (Option ErrInjQ)
  init_queue conf_path none = pure none
  init_queue conf_path (some head) = load_config conf_path head

  unfoldable pub config_init : Str → M (State E) (Option ErrInjQ)
  config_init conf_path = do p ← malloc E; init_queue conf_path p

  unfoldable pub delete_entries : List ErrinjConf → M (State E) (Unit {0})
  delete_entries [] = pure tt
  delete_entries (err ∷ q) = do
    free_str E err.path_regexp
    free_str E err.op_regexp
    free E err.block
    delete_entries q

  unfoldable pub config_delete : Option ErrInjQ → M (State E) (Unit {0})
  config_delete none = pure tt
  config_delete (some errors) = do delete_entries errors.entries; free E errors.block
