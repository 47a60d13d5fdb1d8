-- ===== src/Tests/Interleaved.antt =====
-- Two threads on the small kernel, and the theorems about threads at concrete inputs.
use afs_cs.Base.{
  ℕ, ◌+◌, ◌*◌, ◌≤◌, ◌<◌, ℤ, pos, ◌≡◌, refl, true, List, [], ◌∷◌, Str, arith, str_eq, ◌⊎◌,
}
use afs_cs.Build.{FuseOp, op_mkdir}
use afs_cs.Queue.{ErrinjConf}
use afs_cs.System.{State}
use afs_cs.Config.Ownership.{held_entries}
use afs_cs.Errinj.{lock}
use afs_cs.Errinj.Frame.{Outcome}
use afs_cs.Threads.{
  idle, waiting, holding, looping, returned, acquire, begin, System, Step, step, call, Reach,
}
use afs_cs.Threads.Family.{update, total}
use afs_cs.Threads.Invariant.{inside}
use afs_cs.Threads.Exclusion.{Reach-exclusive}
use afs_cs.Threads.Progress.{Reach-progress, Overrunning}
use afs_cs.Threads.Termination.{
  Trace, trace_start, trace_step, trace_event, Reach-of_Trace, Trace-steps, steps_left,
}
use afs_cs.Tests.Kernel.{toy, configured, noop_mkdir}
use afs_cs.Tests.Setup.{directory, mkdir_on, configured-IsSafe}

-- The first thread has the mutex, the second one waits for it.
abbrev locked_state : State toy
locked_state = record configured { conf = record (configured.conf) { locked = true } }

abbrev two_threads : System toy
two_threads = record {
  shared = locked_state;
  phase =
      update
        (update
          (update (update (λ _. idle) 0 (waiting directory op_mkdir)) 0
            (holding directory op_mkdir))
          0 (looping directory op_mkdir (noop_mkdir ∷ []) (pos 0)))
        1 (waiting directory op_mkdir);
}

two_threads-Trace : Trace toy 2 configured 2 2 two_threads
unfolding lock str_eq
two_threads-Trace =
    trace_event
      (trace_step
        (trace_step
          (trace_event trace_start (call 0 directory op_mkdir (omega arith) refl mkdir_on))
          (step 0 (omega arith) (acquire refl)))
        (step 0 (omega arith) (begin refl)))
      (call 1 directory op_mkdir (omega arith) refl mkdir_on)

two_threads-Reach : Reach toy 2 configured two_threads
two_threads-Reach = Reach-of_Trace toy 2 two_threads-Trace

Reach-exclusive_example :
    ((i j : ℕ)
      → i < 2
      → j < 2
      → inside (two_threads.phase i) ≡ 1
      → inside (two_threads.phase j) ≡ 1
      → i ≡ j)
    × ((i : ℕ) (path : Str) (op : FuseOp) (rest : List ErrinjConf) (rc : ℤ) (a : ℕ)
        → two_threads.phase i ≡ looping path op rest rc
        → 1 ≤ held_entries rest a
        → two_threads.shared.heap.live a ≡ true)
    × ((i : ℕ) (op : FuseOp) (rc : ℤ) → two_threads.phase i ≡ returned op rc → Outcome toy op rc)
Reach-exclusive_example = Reach-exclusive toy configured-IsSafe refl two_threads-Reach

Reach-progress_example :
    ((z : System toy) × Step toy 2 two_threads z)
    ⊎ ((k : ℕ) × (k < 2) × Overrunning toy two_threads.shared (two_threads.phase k))
Reach-progress_example =
    Reach-progress toy (λ _. 0) 1 configured-IsSafe refl two_threads-Reach (omega arith) refl

Trace-steps_example : 2 + total steps_left 2 two_threads.phase ≤ 8 * 2
Trace-steps_example = Trace-steps toy 2 (λ _. 0) configured-IsSafe refl two_threads-Trace
