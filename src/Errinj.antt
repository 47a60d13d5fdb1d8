-- ===== src/Errinj.antt =====
-- The injection of faults, from unreliablefs/unreliablefs_errinj.c: `error_inject` and what it
-- calls. The messages that it prints are left out.
pub mod Table
pub mod Cases
pub mod Frame
pub mod Total
pub mod Quiet
pub mod Delay
pub mod Random
pub mod Reload
pub mod Overrun
pub mod Reread
pub mod Masked
pub mod Platforms
pub mod Unfilled
use afs_cs.Base.{
  ℕ, suc, ◌+◌, ◌-◌, ◌%◌, ℤ, pos, neg, minus_one, ◌==ℤ◌, Bool, true, false, ◌&&◌, List, [], ◌∷◌,
  Option, none, some, Str, str_eq, leb, if◌then◌else◌, length, get_elem?,
}
use afs_cs.Base.Run.{M, pure, undefined, ◌>>=◌, ◌>>◌}
use afs_cs.Errno.{Errno, ErrnoArray}
use afs_cs.Build.{FuseOp, op_name}
use afs_cs.Queue.{
  ErrinjType, errinj_errno, errinj_kill_caller, errinj_noop, errinj_slowdown, OwnedStr, ErrinjConf,
  ErrInjQ,
}
use afs_cs.System.{Env, State}
use afs_cs.System.Kernel.{sys_kill, sys_nanosleep}
use afs_cs.System.Memory.{sys, rand}
use afs_cs.Config.{config_init, config_delete}
use Table.{errno_case}

-- `MIN_PROBABLITY`, `MAX_PROBABLITY`, the value of `-ERRNO_NOOP`, and `SIGKILL`.
abbrev pub min_probability : ℕ
min_probability = 0

abbrev pub max_probability : ℕ
max_probability = 100

abbrev pub noop_result : ℤ
noop_result = pos 999

abbrev pub sigkill : ℕ
sigkill = 9

module _ (E : Env) where
  unfoldable pub rand_range : ℕ → ℕ → M (State E) ℕ
  unfolding rand
  rand_range min_n max_n = do n ← rand E; pure (n % (max_n - min_n + 1) + min_n)

  -- `arr[i]` as an `int`; a read past the end is undefined.
  unfoldable pub element : Option Errno → M (State E) ℤ
  element none = undefined
  element (some e) = pure (pos (E.errno_code e))

  -- `RANDOM_ELEMENT(arr)`
  unfoldable pub random_element : List Errno → M (State E) ℤ
  random_element arr = do i ← rand_range 0 (length arr); element (get_elem? arr i)

  -- The case of `op_random_errno`, or its default.
  unfoldable pub random_case : Option ErrnoArray → M (State E) ℤ
  random_case none = pure minus_one
  random_case (some arr) = random_element (E.build.errno_array arr)

  unfoldable pub op_random_errno : FuseOp → M (State E) ℤ
  op_random_errno op_n = random_case (errno_case E.build op_n)

  -- 0 is a match, also for an expression that is NULL.
  unfoldable pub is_regex_matched : Option OwnedStr → Str → ℤ
  is_regex_matched none string = pos 0
  is_regex_matched (some regex) string =
      let rc = E.regcomp regex.text in if rc ==ℤ pos 0 then E.regexec regex.text string else rc

  abbrev pub matched : Option OwnedStr → Str → Bool
  matched regexp string = is_regex_matched regexp string ==ℤ pos 0

  -- The tests of the path and of the operation's name.
  unfoldable pub matches_both : ErrinjConf → Str → Option Str → M (State E) Bool
  matches_both err path none = undefined
  matches_both err path (some name) =
      pure (matched err.path_regexp path && matched err.op_regexp name)

  -- The three tests that an injection passes before it is triggered.
  unfoldable pub is_selected : ErrinjConf → Str → FuseOp → M (State E) Bool
  is_selected err path operation = do
    p ← rand_range min_probability max_probability
    if leb p err.probability then matches_both err path (op_name E.build operation) else pure false

  -- `kill`, where there is a context.
  unfoldable pub kill_caller : Option ℕ → M (State E) (Unit {0})
  kill_caller none = pure tt
  kill_caller (some pid) = do _ ← sys E (sys_kill pid sigkill); pure tt

  -- The `switch` on the type: what becomes of `rc`.
  unfoldable pub trigger : ErrinjType → ℕ → FuseOp → ℤ → M (State E) ℤ
  trigger errinj_noop duration operation rc = pure noop_result
  trigger errinj_kill_caller duration operation rc =
      λ s. (do kill_caller (E.context_pid s.world); pure rc) s
  trigger errinj_errno duration operation rc = do e ← op_random_errno operation; pure (neg e)
  trigger errinj_slowdown duration operation rc = do _ ← sys E (sys_nanosleep duration); pure rc

  -- One round of the loop over the injections.
  unfoldable pub inject_one : ErrinjConf → Str → FuseOp → ℤ → M (State E) ℤ
  inject_one err path operation rc = do
    hit ← is_selected err path operation
    if hit then trigger err.kind err.duration operation rc else pure rc

  unfoldable pub inject_all : List ErrinjConf → Str → FuseOp → ℤ → M (State E) ℤ
  inject_all [] path operation rc = pure rc
  inject_all (err ∷ errors) path operation rc = do
    rc' ← inject_one err path operation rc
    inject_all errors path operation rc'

  -- The mutex of `conf`. A thread that locks it twice never comes back.
  unfoldable pub lock : M (State E) (Unit {0})
  lock s =
      if s.conf.locked
      then none
      else some (tt, record s { conf = record (s.conf) { locked = true } })

  unfoldable pub unlock : M (State E) (Unit {0})
  unlock s = some (tt, record s { conf = record (s.conf) { locked = false } })

  unfoldable pub set_errors : Option ErrInjQ → M (State E) (Unit {0})
  set_errors q s = some (tt, record s { conf = record (s.conf) { errors = q } })

  -- `config_delete(conf.errors); conf.errors = config_init(path);`
  unfoldable pub reload : Str → M (State E) (Unit {0})
  reload path s = (do config_delete E s.conf.errors; q ← config_init E path; set_errors q) s

  -- `TAILQ_FOREACH`, where there is a queue.
  unfoldable pub inject_configured : Option ErrInjQ → Str → FuseOp → M (State E) ℤ
  inject_configured none path operation = pure (pos 0)
  inject_configured (some q) path operation = inject_all q.entries path operation (pos 0)

  -- What `error_inject` does between locking and unlocking.
  unfoldable pub inject_locked : Str → FuseOp → M (State E) ℤ
  inject_locked path operation s =
      if str_eq path s.conf.config_path
      then (do reload path; pure (pos 0)) s
      else inject_configured s.conf.errors path operation s

  unfoldable pub error_inject : Str → FuseOp → M (State E) ℤ
  error_inject path operation = do lock; rc ← inject_locked path operation; unlock; pure rc
