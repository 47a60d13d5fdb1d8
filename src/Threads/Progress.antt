-- ===== src/Threads/Progress.antt =====
-- No deadlock of threads in `error_inject` of unreliablefs/unreliablefs_errinj.c.
use afs_cs.Base.{
  ◌⊎◌, ℕ, ◌≤◌, ◌<◌, pos, ◌≡◌, refl, ap, Bool, true, false, [], ◌∷◌, some, str_eq, arith, Bool-cases,
  inl, inr,
}
use afs_cs.Base.Run.{Ends-cases, Ensures-exists}
use afs_cs.System.{Env, State}
use afs_cs.System.Accounts.{bit}
use afs_cs.Errinj.{lock, unlock}
use afs_cs.Errinj.Frame.{OverrunsOne, inject_one-Outcome}
use afs_cs.Errinj.Total.{IsSafe, reload-IsSafe}
use afs_cs.Threads.{
  Phase, idle, waiting, holding, looping, settled, returned, Move, acquire, read_again, begin,
  round, end_loop, release, System, Step, step, Reach,
}
use afs_cs.Threads.Family.{weight-le-total, exists_of_total}
use afs_cs.Threads.Invariant.{inside, IsInPlace}
use afs_cs.Threads.Safety.{Reach-IsOrderly}

-- The call of the thread is on its way.
abbrev pub is_under_way : Phase → Bool
is_under_way idle = false
is_under_way (returned op rc) = false
is_under_way _ = true

-- The next round of the thread's loop reads behind the end of an array of errors.
abbrev pub Overrunning : (E : Env) → State E → Phase → Type 0
Overrunning E s (looping path op (err ∷ rest) rc) = OverrunsOne E err path op s
Overrunning E s _ = ⊥

lock_free :
    {E : Env} (s : State E)
    → s.conf.locked ≡ false
    → lock E s ≡ some (tt {0}, record s { conf = record (s.conf) { locked = true } })
unfolding lock
lock_free s free = rw free refl

module _ (E : Env) (least : ℕ → ℕ) where
  -- A thread that has the mutex can go on, or its next round reads behind the end of an array.
  inside-Move :
      (s : State E) (p : Phase)
      → IsSafe least s
      → IsInPlace E s.conf.errors p
      → 1 ≤ inside p
      → ((t : State E) × (q : Phase) × Move E s p t q) ⊎ Overrunning E s p
  unfolding unlock
  inside-Move s (holding path op) safe on h = elim (Bool-cases (str_eq path s.conf.config_path)) [
    | inl own ↦
        let (u, t, reloaded, _) = Ensures-exists (reload-IsSafe E path s safe) in
        inl (t, settled op (pos 0), read_again own reloaded)
    | inr other ↦ inl (s, _, begin other)
  ]
  inside-Move s (looping path op [] rc) safe ok h = inl (s, settled op rc, end_loop)
  inside-Move s (looping path op (err ∷ rest) rc) safe (on, o, _) h =
      elim (Ends-cases (inject_one-Outcome E op on err path rc s o)) [
        | inl (rc', t, injected, _) ↦ inl (t, looping path op rest rc', round injected)
        | inr over ↦ inr over
      ]
  inside-Move s (settled op rc) safe ok h = inl (_, returned op rc, release refl)
  inside-Move s _ safe ok h = absurd (omega (arith, h))

  under_way-Move :
      (s : State E) (p : Phase)
      → s.conf.locked ≡ false
      → inside p ≡ 0
      → is_under_way p ≡ true
      → (t : State E) × (q : Phase) × Move E s p t q
  under_way-Move s (waiting path op) free out h = (_, holding path op, acquire (lock_free s free))
  under_way-Move s idle free out h = cc
  under_way-Move s (returned op rc) free out h = cc
  under_way-Move s _ free out h = absurd (omega (arith, out))

  -- Let any number of threads be in `error_inject`, in any order of their steps, from a state with
  -- a free mutex and a configuration in order. While a thread has called `error_inject` and not
  -- returned, some thread can take a step of it, or a thread is at an injection of the type "errno"
  -- that is selected and whose random number leads behind the end of the array.
  pub Reach-progress :
      {n : ℕ} {s : State E} {y : System E} (i : ℕ)
      → IsSafe least s
      → s.conf.locked ≡ false
      → Reach E n s y
      → i < n
      → is_under_way (y.phase i) ≡ true
      → ((z : System E) × Step E n y z) ⊎ ((k : ℕ) × (k < n) × Overrunning E y.shared (y.phase k))
  Reach-progress {n} {y = y} i safe free reached h under_way =
      let orderly = Reach-IsOrderly E least n safe free reached in
      elim (Bool-cases y.shared.conf.locked) [
        | inl full ↦
            let (k, below, has) =
              exists_of_total inside n y.phase (omega (arith, orderly.mutex, ap bit full)) in
            elim (inside-Move y.shared (y.phase k) orderly.safe (orderly.in_place k) has) [
              | inl (t, q, move) ↦ inl (_, step k below move)
              | inr over ↦ inr (k, below, over)
            ]
        | inr unlocked ↦
            let (t, q, move) =
              under_way-Move y.shared (y.phase i) unlocked
                (omega
                  (arith, orderly.mutex, ap bit unlocked, weight-le-total inside n y.phase i h))
                under_way in
            inl (_, step i h move)
      ]
