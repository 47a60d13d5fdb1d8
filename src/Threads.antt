-- ===== src/Threads.antt =====
-- Several threads of FUSE in `error_inject` of unreliablefs/unreliablefs_errinj.c, one step after
-- the other in any order. The global `conf` and its mutex are shared, as are the heap and the
-- random numbers. What the threads do outside of `error_inject`, and other processes, may change
-- the kernel, `errno` and the random numbers at any time.
pub mod Family
pub mod Invariant
pub mod Safety
pub mod Exclusion
pub mod Progress
pub mod Termination
pub mod Alone
pub mod History
pub mod Serial
use afs_cs.Base.{
  ℕ, suc, ◌<◌, ℤ, pos, ◌≡◌, Bool, true, false, List, [], ◌∷◌, Option, none, some, Str, str_eq,
}
use afs_cs.Build.{FuseOp}
use afs_cs.Build.Names.{IsEnabled}
use afs_cs.Queue.{ErrinjConf, first_entries}
use afs_cs.System.{Env, State}
use afs_cs.Errinj.{lock, unlock, reload, inject_one}
use Family.{update}

-- Where a thread stands.
pub data Phase : Type 0 where
  idle : Phase
  -- At `pthread_mutex_lock`.
  waiting : Str → FuseOp → Phase
  -- At `strcmp(path, conf.config_path)`.
  holding : Str → FuseOp → Phase
  -- At the head of `TAILQ_FOREACH`, with the entries from `err` on, and `rc`.
  looping : Str → FuseOp → List ErrinjConf → ℤ → Phase
  -- At `cleanup:`.
  settled : FuseOp → ℤ → Phase
  -- Behind `return rc;`.
  returned : FuseOp → ℤ → Phase

module _ (E : Env) where
  -- A step of the code: the state and the thread before it, and after it.
  pub data Move : State E → Phase → State E → Phase → Type 0 where
    acquire :
        {path : Str} {op : FuseOp} {s t : State E}
        → lock E s ≡ some (tt, t)
        → Move s (waiting path op) t (holding path op)
    read_again :
        {path : Str} {op : FuseOp} {s t : State E}
        → str_eq path s.conf.config_path ≡ true
        → reload E path s ≡ some (tt, t)
        → Move s (holding path op) t (settled op (pos 0))
    begin :
        {path : Str} {op : FuseOp} {s : State E}
        → str_eq path s.conf.config_path ≡ false
        → Move s (holding path op) s (looping path op (first_entries s.conf.errors) (pos 0))
    round :
        {path : Str} {op : FuseOp} {err : ErrinjConf} {rest : List ErrinjConf} {rc rc' : ℤ}
        {s t : State E}
        → inject_one E err path op rc s ≡ some (rc', t)
        → Move s (looping path op (err ∷ rest) rc) t (looping path op rest rc')
    end_loop :
        {path : Str} {op : FuseOp} {rc : ℤ} {s : State E}
        → Move s (looping path op [] rc) s (settled op rc)
    release :
        {op : FuseOp} {rc : ℤ} {s t : State E}
        → unlock E s ≡ some (tt, t)
        → Move s (settled op rc) t (returned op rc)

  -- The process with its threads, of which those below `n` are in use.
  pub record System : Type 0 where
    pub shared : State E
    pub phase : ℕ → Phase

  -- A step of a thread of the code.
  pub data Step (n : ℕ) (y : System) : System → Type 0 where
    step :
        (i : ℕ) {t : State E} {p : Phase}
        → i < n
        → Move y.shared (y.phase i) t p
        → Step n y (record { shared = t; phase = update y.phase i p })

  -- What comes from outside: a call of `error_inject`, the use of its result, and changes of the
  -- kernel, of `errno` and of the random numbers.
  pub data Event (n : ℕ) (y : System) : System → Type 0 where
    call :
        (i : ℕ) (path : Str) (op : FuseOp)
        → i < n
        → y.phase i ≡ idle
        → IsEnabled E.build op
        → Event n y (record y { phase = update y.phase i (waiting path op) })
    use_result :
        (i : ℕ) {op : FuseOp} {rc : ℤ}
        → i < n
        → y.phase i ≡ returned op rc
        → Event n y (record y { phase = update y.phase i idle })
    outside :
        (w : E.World) (errno : ℕ) (g : E.Rng)
        → Event n y (record y { shared = record (y.shared) { world = w; errno = errno; rng = g } })

  -- What the process comes to, in any order of steps, from a state with all threads idle.
  pub data Reach (n : ℕ) (s : State E) : System → Type 0 where
    start : Reach n s (record { shared = s; phase = λ _. idle })
    by_step : {y z : System} → Reach n s y → Step n y z → Reach n s z
    by_event : {y z : System} → Reach n s y → Event n y z → Reach n s z
