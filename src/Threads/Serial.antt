-- ===== src/Threads/Serial.antt =====
-- Threads in `error_inject` of unreliablefs/unreliablefs_errinj.c, where nothing else changes the
-- kernel, `errno` or the random numbers while one of them has the mutex: what they do is what some
-- sequence of calls does.
use afs_cs.Base.{ℕ, ◌≡◌, Bool, false}
use afs_cs.System.{Env, State}
use afs_cs.Threads.{idle, System, Step, Event, call, use_result, outside}

module _ (E : Env) (n : ℕ) where
  -- A change from outside while a thread has the mutex.
  abbrev pub disturbs : {y z : System E} → Event E n y z → Bool
  disturbs (call i path op h is_idle on) = false
  disturbs (use_result i h is_returned) = false
  disturbs {y = y} (outside w errno g) = y.shared.conf.locked

  -- What the process comes to if nothing disturbs a thread that has the mutex.
  pub data Undisturbed (s : State E) : System E → Type 0 where
    from_start : Undisturbed s (record { shared = s; phase = λ _. idle })
    step_taken : {y z : System E} → Undisturbed s y → Step E n y z → Undisturbed s z
    event_seen :
        {y z : System E}
        → Undisturbed s y
        → (e : Event E n y z) → disturbs e ≡ false
        → Undisturbed s z
