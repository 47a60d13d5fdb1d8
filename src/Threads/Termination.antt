-- ===== src/Threads/Termination.antt =====
-- How many steps the calls of `error_inject` of unreliablefs/unreliablefs_errinj.c take, with
-- several threads.
use afs_cs.Base.{
  ℕ, suc, ◌+◌, ◌*◌, ◌≤◌, ◌≡◌, refl, ap, false, ◌∷◌, Option, none, some, arith, length,
}
use afs_cs.Queue.{first_entries, ErrInjQ}
use afs_cs.System.{Env, State}
use afs_cs.Config.Distinct.{IsDistinctQueue, length-le_of_IsDistinct}
use afs_cs.Errinj.Total.{IsSafe}
use afs_cs.Threads.{
  Phase, idle, waiting, holding, looping, settled, returned, Move, acquire, read_again, begin,
  round, end_loop, release, System, Step, step, Event, call, use_result, outside, Reach, start,
  by_step, by_event,
}
use afs_cs.Threads.Family.{total, total_changed, total-zero}
use afs_cs.Threads.Safety.{Reach-IsOrderly}

-- The steps that a thread can still take until it returns.
abbrev pub steps_left : Phase → ℕ
steps_left idle = 0
steps_left (waiting path op) = 8
steps_left (holding path op) = 7
steps_left (looping path op rest rc) = 2 + length rest
steps_left (settled op rc) = 1
steps_left (returned op rc) = 0

first_entries-le :
    (errors : Option ErrInjQ) → IsDistinctQueue errors → length (first_entries errors) ≤ 4
first_entries-le none d = omega arith
first_entries-le (some q) d = length-le_of_IsDistinct q.entries d

module _ (E : Env) (n : ℕ) where
  abbrev pub is_call : {y z : System E} → Event E n y z → ℕ
  is_call (call i path op h is_idle on) = 1
  is_call (use_result i h is_returned) = 0
  is_call (outside w errno g) = 0

  -- An order of events, with the number of steps of the code and the number of calls.
  pub data Trace (s : State E) : ℕ → ℕ → System E → Type 0 where
    trace_start : Trace s 0 0 (record { shared = s; phase = λ _. idle })
    trace_step : {k c : ℕ} {y z : System E} → Trace s k c y → Step E n y z → Trace s (suc k) c z
    trace_event :
        {k c : ℕ} {y z : System E}
        → Trace s k c y
        → (e : Event E n y z) → Trace s k (c + is_call e) z

  pub Reach-of_Trace : {s : State E} {k c : ℕ} {y : System E} → Trace s k c y → Reach E n s y
  Reach-of_Trace trace_start = start
  Reach-of_Trace (trace_step before taken) = by_step (Reach-of_Trace before) taken
  Reach-of_Trace (trace_event before happened) = by_event (Reach-of_Trace before) happened

  Move-steps_left :
      (s t : State E) (p q : Phase)
      → Move E s p t q
      → IsDistinctQueue s.conf.errors
      → steps_left q + 1 ≤ steps_left p
  Move-steps_left s t (waiting path op) _ (acquire got) d = omega arith
  Move-steps_left s t (holding path op) _ (read_again own reloaded) d = omega arith
  Move-steps_left s t _ _ (begin other) d = omega (arith, first_entries-le s.conf.errors d)
  Move-steps_left s t (looping path op (err ∷ rest) rc) _ (round injected) d = omega arith
  Move-steps_left s t _ _ end_loop d = omega arith
  Move-steps_left s t (settled op rc) _ (release freed) d = omega arith

  Step-total :
      (y z : System E)
      → Step E n y z
      → IsDistinctQueue y.shared.conf.errors
      → total steps_left n z.phase + 1 ≤ total steps_left n y.phase
  Step-total y z (step i {t} {p = q} h move) d = omega (
    arith,
    total_changed steps_left n y.phase i q h,
    Move-steps_left y.shared t (y.phase i) q move d,
  )

  Event-total :
      (y z : System E) (e : Event E n y z)
      → total steps_left n z.phase ≤ total steps_left n y.phase + 8 * is_call e
  Event-total y z (call i path op h is_idle on) =
      omega (arith, total_changed steps_left n y.phase i (waiting path op) h, ap steps_left is_idle)
  Event-total y z (use_result i h is_returned) =
      omega (arith, total_changed steps_left n y.phase i idle h, ap steps_left is_returned)
  Event-total y z (outside w errno g) = omega arith

  -- From a state with a free mutex and a configuration in order, in any order of the steps of any
  -- number of threads, the steps of `error_inject` taken so far and those that the calls on their
  -- way can still take are together at most eight for each call.
  pub Trace-steps :
      (least : ℕ → ℕ) {s : State E} {k c : ℕ} {y : System E}
      → IsSafe least s
      → s.conf.locked ≡ false
      → Trace s k c y
      → k + total steps_left n y.phase ≤ 8 * c
  Trace-steps least safe free trace_start =
      omega (arith, total-zero steps_left n (λ _. idle) (λ _. refl))
  Trace-steps least safe free (trace_step {y = y} {z = z} before taken) =
      let orderly = Reach-IsOrderly E least n safe free (Reach-of_Trace before) in
      omega (arith, Trace-steps least safe free before, Step-total y z taken orderly.safe.distinct)
  Trace-steps least safe free (trace_event {y = y} {z = z} before happened) =
      omega (arith, Trace-steps least safe free before, Event-total y z happened)
