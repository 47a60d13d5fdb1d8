-- ===== src/Threads/Safety.antt =====
-- Mutual exclusion and the memory that threads of `error_inject` of
-- unreliablefs/unreliablefs_errinj.c read, in every order of their steps.
use native.Mathlib.Decide.{dec_lt}
use afs_cs.Base.{
  ℕ, ◌≤◌, ◌<◌, ◌≡◌, ◌≢◌, refl, sym, ap, ◌∙◌, inl, inr, false, ◌==◌, ==_iff, Bool-cases, arith,
}
use afs_cs.System.{Env, State}
use afs_cs.Errinj.Total.{IsSafe, IsSafe-SameData}
use afs_cs.System.Accounts.{bit-le}
use afs_cs.Threads.{
  Phase, idle, waiting, System, Step, step, Event, call, use_result, outside, Reach, start, by_step,
  by_event,
}
use afs_cs.Threads.Family.{
  update, update_other, total_changed, total-zero, weight-le-total, weights-le-total,
}
use afs_cs.Threads.Invariant.{inside, IsInPlace, IsInPlace-outside, IsOrderly, Moved, Move-Moved}

-- The threads that a step leaves alone.
update-unused :
    (n : ℕ) (f : ℕ → Phase) (i : ℕ) (p : Phase)
    → i < n
    → ((j : ℕ) → n ≤ j → f j ≡ idle)
    → (j : ℕ) → n ≤ j
    → update f i p j ≡ idle
update-unused n f i p h unused j le = elim (Bool-cases (i == j)) [
  | inl same ↦ absurd (omega (arith, (==_iff i j).0 same))
  | inr other ↦ update_other f i j p other ∙ unused j le
]

-- Where one thread is inside, any other one is not.
pub excluded :
    {E : Env} {least : ℕ → ℕ} {n : ℕ} {y : System E} (i j : ℕ)
    → IsOrderly least n y
    → i < n
    → inside (y.phase i) ≡ 1
    → i ≢ j
    → inside (y.phase j) ≡ 0
excluded {n = n} {y = y} i j orderly h alone ne = elim (dec_lt j n) [
  | yes below ↦ omega (
    arith,
    alone,
    orderly.mutex,
    bit-le y.shared.conf.locked,
    weights-le-total inside n y.phase i j h below ne,
  )
  | no above ↦ ap inside (orderly.unused j (omega arith))
]

module _ (E : Env) (least : ℕ → ℕ) (n : ℕ) where
  -- What a thread relies on is not disturbed by a step of another one.
  undisturbed :
      (y : System E) (i : ℕ) (t : State E) (q : Phase)
      → i < n
      → IsOrderly least n y
      → Moved least y.shared (y.phase i) t q
      → (j : ℕ) → IsInPlace E t.conf.errors (update y.phase i q j)
  undisturbed y i t q h orderly moved j = elim (Bool-cases (i == j)) [
    | inl same ↦ rw same moved.in_place
    | inr other ↦ rw other (elim moved.errors [
      | inl kept ↦ rw kept (orderly.in_place j)
      | inr alone ↦
          IsInPlace-outside E y.shared.conf.errors t.conf.errors (y.phase j)
            (excluded i j orderly h alone λ e. cc (other, (==_iff i j).1 e)) (orderly.in_place j)
    ])
  ]

  Step-IsOrderly : {y z : System E} → Step E n y z → IsOrderly least n y → IsOrderly least n z
  Step-IsOrderly {y} (step i {t} {p = q} h move) orderly =
      let moved =
        Move-Moved E least y.shared t (y.phase i) q move orderly.safe (orderly.in_place i)
          (rw (sym orderly.mutex) (weight-le-total inside n y.phase i h)) in
      record {
        safe = moved.safe;
        mutex = omega (arith, moved.balance, orderly.mutex, total_changed inside n y.phase i q h);
        in_place = undisturbed y i t q h orderly moved;
        unused = update-unused n y.phase i q h orderly.unused;
      }

  call-IsOrderly :
      (y : System E) (i : ℕ) (p : Phase)
      → i < n
      → inside (y.phase i) ≡ inside p
      → IsInPlace E y.shared.conf.errors p
      → IsOrderly least n y
      → IsOrderly least n (record y { phase = update y.phase i p })
  call-IsOrderly y i p h same in_place orderly = record {
    safe = orderly.safe;
    mutex = omega (arith, same, orderly.mutex, total_changed inside n y.phase i p h);
    in_place = λ j. elim (Bool-cases (i == j)) [
      | inl here ↦ rw here in_place
      | inr other ↦ rw other (orderly.in_place j)
    ];
    unused = update-unused n y.phase i p h orderly.unused;
  }

  Event-IsOrderly : {y z : System E} → Event E n y z → IsOrderly least n y → IsOrderly least n z
  Event-IsOrderly {y} (call i path op h is_idle on) orderly =
      call-IsOrderly y i (waiting path op) h (ap inside is_idle) on orderly
  Event-IsOrderly {y} (use_result i h is_returned) orderly =
      call-IsOrderly y i idle h (ap inside is_returned) tt orderly
  Event-IsOrderly (outside w errno g) orderly = record {
    safe = IsSafe-SameData (record { conf = refl; heap = refl }) orderly.safe;
    mutex = orderly.mutex;
    in_place = orderly.in_place;
    unused = orderly.unused;
  }

  -- The invariant holds in every state that the threads come to.
  pub Reach-IsOrderly :
      {s : State E} {y : System E}
      → IsSafe least s
      → s.conf.locked ≡ false
      → Reach E n s y
      → IsOrderly least n y
  Reach-IsOrderly safe free start = record {
    safe = safe;
    mutex = rw free (total-zero inside n (λ _. idle) (λ _. refl));
    in_place = λ _. tt;
    unused = λ _ _. refl;
  }
  Reach-IsOrderly safe free (by_step before taken) =
      Step-IsOrderly taken (Reach-IsOrderly safe free before)
  Reach-IsOrderly safe free (by_event before happened) =
      Event-IsOrderly happened (Reach-IsOrderly safe free before)
