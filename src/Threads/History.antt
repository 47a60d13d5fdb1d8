-- ===== src/Threads/History.antt =====
-- The calls of `error_inject` of unreliablefs/unreliablefs_errinj.c by several threads as a
-- sequence of calls, one after the other.
pub mod Steps
use mathlib.Core.List.{Mem, mem-cons_self, mem-cons_of_mem}
use afs_cs.Base.{
  ℕ, ◌<◌, ℤ, ◌≡◌, ◌≢◌, refl, sym, ap, ◌∙◌, false, List, [], ◌∷◌, some, Str, ◌==◌, ==_iff,
  Bool-cases, inl, inr, arith,
}
use afs_cs.Build.{FuseOp}
use afs_cs.System.{Env, State}
use afs_cs.System.Accounts.{bit}
use afs_cs.Errinj.{lock, unlock, error_inject}
use afs_cs.Threads.{
  Phase, waiting, holding, looping, settled, returned, Move, acquire, release, System,
}
use afs_cs.Threads.Family.{update, update_same, update_apart, weight-le-total}
use afs_cs.Threads.Invariant.{inside, IsOrderly, acquired, released}
use afs_cs.Threads.Safety.{excluded}
use afs_cs.Threads.Alone.{remaining, remaining-waiting, remaining-returned, Move-remaining}

pub record ServedCall : Type 0 where
  pub thread : ℕ
  pub path : Str
  pub op : FuseOp
  pub rc : ℤ

-- Calls of the function, each for a thread, the latest one first, with the state after them. Between two calls the
-- kernel, `errno` and the random numbers may change.
pub data Sequence (E : Env) (s : State E) : List ServedCall → State E → Type 0 where
  no_call : Sequence E s [] s
  then_call :
      {calls : List ServedCall} {t u : State E} {thread : ℕ} {path : Str} {op : FuseOp} {rc : ℤ}
      → Sequence E s calls t
      → error_inject E path op t ≡ some (rc, u)
      → Sequence E s (record { thread = thread; path = path; op = op; rc = rc } ∷ calls) u
  then_outside :
      {calls : List ServedCall} {t : State E} (w : E.World) (errno : ℕ) (g : E.Rng)
      → Sequence E s calls t
      → Sequence E s calls (record t { world = w; errno = errno; rng = g })

-- The operation of a thread that is inside.
abbrev pub IsFor : FuseOp → Phase → Type 0
IsFor op (holding path op') = op' ≡ op
IsFor op (looping path op' rest rc) = op' ≡ op
IsFor op (settled op' rc) = op' ≡ op
IsFor op _ = Unit

-- How the state comes from the one after the last call: it is that one, or a further call is on its
-- way, and what is left of it comes to the same as the whole call.
pub data Now {E : Env} (n : ℕ) (t : State E) (y : System E) : Type 0 where
  between_calls : y.shared.conf.locked ≡ false → y.shared ≡ t → Now n t y
  in_call :
      (k : ℕ) (p : Phase) (path : Str) (op : FuseOp)
      → k < n
      → y.phase k ≡ p
      → inside p ≡ 1
      → IsFor op p
      → remaining E p y.shared ≡ error_inject E path op t
      → Now n t y

-- The result of each thread is that of a call for it in a sequence of calls.
pub record IsExplained {E : Env} (n : ℕ) (s : State E) (y : System E) : Type 0 where
  pub calls : List ServedCall
  pub after : State E
  pub sequence : Sequence E s calls after
  pub now : Now n after y
  pub results :
      (i : ℕ) (op : FuseOp) (rc : ℤ)
      → y.phase i ≡ returned op rc
      → (path : Str) × Mem (record { thread = i; path = path; op = op; rc = rc }) calls
