-- ===== src/Threads/Invariant.antt =====
-- What holds of threads in `error_inject` of unreliablefs/unreliablefs_errinj.c, whatever the order
-- of their steps is.
use afs_cs.Base.{
  ℕ, ◌+◌, ◌≤◌, ℤ, pos, ◌≡◌, refl, sym, ap, ◌∙◌, ◌⊎◌, inl, inr, true, false, List, [], ◌∷◌, ◌++◌,
  Option, some, Bool-cases, arith, Str,
}
use mathlib.Core.List.{append_assoc}
use afs_cs.Build.{FuseOp}
use afs_cs.Base.Run.{some_pair-eq, Ensures-some, Ends-some}
use afs_cs.Build.Names.{IsEnabled}
use afs_cs.Queue.{first_entries, ErrinjConf, ErrInjQ}
use afs_cs.System.{Env, State}
use afs_cs.System.Accounts.{bit, bit-le}
use afs_cs.Errinj.{lock, unlock, reload, inject_one}
use afs_cs.Errinj.Frame.{SameData-of_Paused, Outcome, inject_one-Outcome}
use afs_cs.Errinj.Total.{IsSafe, IsSafe-locked, IsSafe-SameData, reload-IsSafe}
use afs_cs.Threads.{
  Phase, idle, waiting, holding, looping, settled, returned, Move, acquire, read_again, begin,
  round, end_loop, release, System,
}
use afs_cs.Threads.Family.{total}

-- Whether a thread is between `pthread_mutex_lock` and `pthread_mutex_unlock`.
abbrev pub inside : Phase → ℕ
inside idle = 0
inside (waiting path op) = 0
inside (holding path op) = 1
inside (looping path op rest rc) = 1
inside (settled op rc) = 1
inside (returned op rc) = 0

-- What a thread relies on: the build has the operation, the result is one of those that the
-- operation may have, and the entries that it is still to see are the last ones of the queue.
abbrev pub IsInPlace : (E : Env) → Option ErrInjQ → Phase → Type 0
IsInPlace E errors idle = Unit
IsInPlace E errors (waiting path op) = IsEnabled E.build op
IsInPlace E errors (holding path op) = IsEnabled E.build op
IsInPlace E errors (looping path op rest rc) =
    IsEnabled E.build op
    × Outcome E op rc
    × ((seen : List ErrinjConf) × (first_entries errors ≡ seen ++ rest))
IsInPlace E errors (settled op rc) = Outcome E op rc
IsInPlace E errors (returned op rc) = Outcome E op rc

pub IsInPlace-outside :
    (E : Env) (errors errors' : Option ErrInjQ) (p : Phase)
    → inside p ≡ 0
    → IsInPlace E errors p
    → IsInPlace E errors' p
IsInPlace-outside E errors errors' idle h k = tt
IsInPlace-outside E errors errors' (waiting path op) h k = k
IsInPlace-outside E errors errors' (returned op rc) h k = k
IsInPlace-outside E errors errors' _ h k = absurd (omega (arith, h))

pub inside-le : (p : Phase) → inside p ≤ 1
inside-le (looping path op rest rc) = omega arith
inside-le _ = omega arith

-- The memory of the configuration is in order, the mutex is locked exactly if one thread is inside,
-- which is never more than one, and every thread has what it relies on.
pub record IsOrderly {E : Env} (least : ℕ → ℕ) (n : ℕ) (y : System E) : Type 0 where
  pub safe : IsSafe least y.shared
  pub mutex : total inside n y.phase ≡ bit y.shared.conf.locked
  pub in_place : (i : ℕ) → IsInPlace E y.shared.conf.errors (y.phase i)
  pub unused : (i : ℕ) → n ≤ i → y.phase i ≡ idle

-- What a step of one thread does.
pub record Moved {E : Env} (least : ℕ → ℕ) (s : State E) (p : Phase) (t : State E) (q : Phase)
    : Type 0 where
  pub safe : IsSafe least t
  pub in_place : IsInPlace E t.conf.errors q
  pub errors : (t.conf.errors ≡ s.conf.errors) ⊎ (inside p ≡ 1)
  pub balance : inside q + bit s.conf.locked ≡ inside p + bit t.conf.locked

pub acquired :
    {E : Env} (s t : State E)
    → lock E s ≡ some (tt {0}, t)
    → (s.conf.locked ≡ false) × (record s { conf = record (s.conf) { locked = true } } ≡ t)
unfolding lock
acquired s t h = elim (Bool-cases s.conf.locked) [
  | inl full ↦ let k : _ = rw full at h in cc
  | inr free ↦ (free, (some_pair-eq (rw free at h)).1)
]

pub released :
    {E : Env} (s t : State E)
    → unlock E s ≡ some (tt, t)
    → record s { conf = record (s.conf) { locked = false } } ≡ t
unfolding unlock
released s t h = (some_pair-eq h).1

module _ (E : Env) (least : ℕ → ℕ) where
  acquire-Moved :
      (path : Str) (op : FuseOp) (s : State E)
      → s.conf.locked ≡ false
      → IsSafe least s
      → IsEnabled E.build op
      → Moved least s
          (waiting path op)
          (record s { conf = record (s.conf) { locked = true } })
          (holding path op)
  acquire-Moved path op s free safe on = record {
    safe = IsSafe-locked true safe;
    in_place = on;
    errors = inl refl;
    balance = rw free refl;
  }

  release-Moved :
      (op : FuseOp) (rc : ℤ) (s : State E)
      → 1 ≤ bit s.conf.locked
      → IsSafe least s
      → Outcome E op rc
      → Moved least s
          (settled op rc)
          (record s { conf = record (s.conf) { locked = false } })
          (returned op rc)
  release-Moved op rc s full safe o = record {
    safe = IsSafe-locked false safe;
    in_place = o;
    errors = inl refl;
    balance = omega (arith, full, bit-le s.conf.locked);
  }

  read_again-Moved :
      (path : Str) (op : FuseOp) (s t : State E)
      → reload E path s ≡ some (tt, t)
      → IsSafe least s
      → Moved least s (holding path op) t (settled op (pos 0))
  read_again-Moved path op s t reloaded safe =
      let (safe', same, lock) = Ensures-some (reload-IsSafe E path s safe) reloaded in
      record { safe = safe'; in_place = inl refl; errors = inr refl; balance = rw lock refl }

  round-Moved :
      (path : Str) (op : FuseOp) (err : ErrinjConf) (rest : List ErrinjConf) (rc rc' : ℤ)
      (s t : State E)
      → inject_one E err path op rc s ≡ some (rc', t)
      → IsSafe least s
      → IsInPlace E s.conf.errors (looping path op (err ∷ rest) rc)
      → Moved least s (looping path op (err ∷ rest) rc) t (looping path op rest rc')
  round-Moved path op err rest rc rc' s t injected safe (on, o, (seen, split)) =
      let (o', f) = Ends-some (inject_one-Outcome E op on err path rc s o) injected in
      record {
        safe = IsSafe-SameData (SameData-of_Paused f) safe;
        in_place = (
          on,
          o',
          (seen ++ (err ∷ []), rw f.conf (split ∙ sym (append_assoc seen (err ∷ []) rest))),
        );
        errors = inl (ap (λ c. c.errors) f.conf);
        balance = rw f.conf refl;
      }

  pub Move-Moved :
      (s t : State E) (p q : Phase)
      → Move E s p t q
      → IsSafe least s
      → IsInPlace E s.conf.errors p
      → inside p ≤ bit s.conf.locked
      → Moved least s p t q
  Move-Moved s t (waiting path op) _ (acquire got) safe ok le =
      let (free, e) = acquired s t got in rw (sym e) (acquire-Moved path op s free safe ok)
  Move-Moved s t (holding path op) _ (read_again own reloaded) safe ok le =
      read_again-Moved path op s t reloaded safe
  Move-Moved s t _ _ (begin other) safe ok le = record {
    safe = safe;
    in_place = (ok, inl refl, ([], refl));
    errors = inl refl;
    balance = refl;
  }
  Move-Moved s t (looping path op (err ∷ rest) rc) (looping _ _ _ rc') (round injected) safe ok le =
      round-Moved path op err rest rc rc' s t injected safe ok
  Move-Moved s t _ _ end_loop safe (on, o, split) le = record {
    safe = safe;
    in_place = o;
    errors = inl refl;
    balance = refl;
  }
  Move-Moved s t (settled op rc) _ (release freed) safe ok le =
      rw (sym (released s t freed)) (release-Moved op rc s le safe ok)
