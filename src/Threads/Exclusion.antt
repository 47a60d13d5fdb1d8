-- ===== src/Threads/Exclusion.antt =====
-- What the mutex of unreliablefs/unreliablefs_errinj.c is for: no two threads are in the
-- configuration at a time, and none reads an entry that was freed.
use afs_cs.Base.{
  ℕ, ◌≤◌, ◌<◌, ℤ, ◌≡◌, ap, false, true, List, ◌++◌, Option, none, some, Str, arith, ◌==◌, ==_iff,
  Bool-cases, inl, inr,
}
use afs_cs.Build.{FuseOp}
use afs_cs.Queue.{first_entries, ErrinjConf, ErrInjQ}
use afs_cs.System.{Env, State}
use afs_cs.System.Accounts.{bit}
use afs_cs.Config.Ownership.{held_entries, held_queue, held_entries-append}
use afs_cs.Errinj.Frame.{Outcome}
use afs_cs.Errinj.Total.{IsSafe}
use afs_cs.Threads.{looping, returned, System, Reach}
use afs_cs.Threads.Invariant.{inside}
use afs_cs.Threads.Safety.{excluded, Reach-IsOrderly}

held_first_entries-le :
    (errors : Option ErrInjQ) (a : ℕ) → held_entries (first_entries errors) a ≤ held_queue errors a
held_first_entries-le none a = omega arith
held_first_entries-le (some q) a = omega arith

module _ (E : Env) {least : ℕ → ℕ} {n : ℕ} {s : State E} {y : System E} (safe : IsSafe least s)
    (free : s.conf.locked ≡ false) (reached : Reach E n s y) where
  rest-live :
      (rest : List ErrinjConf) (a : ℕ)
      → (seen : List ErrinjConf) × (first_entries y.shared.conf.errors ≡ seen ++ rest)
      → 1 ≤ held_entries rest a
      → y.shared.heap.live a ≡ true
  rest-live rest a (seen, split) held =
      let orderly = Reach-IsOrderly E least n safe free reached in
      elim (Bool-cases (y.shared.heap.live a)) [
        | inl alive ↦ alive
        | inr dead ↦ absurd (
            omega (
              arith,
              held,
              held_entries-append seen rest a,
              ap (λ l. held_entries l a) split,
              held_first_entries-le y.shared.conf.errors a,
              orderly.safe.accounts.exact a,
              ap bit dead,
            ))
      ]

  -- Let any number of threads be in `error_inject`, in any order of their steps, from a state with
  -- a free mutex and a configuration in order. Then no two of them are between locking and
  -- unlocking the mutex, every block of the entries that the loop of a thread has still to visit is
  -- allocated, and the result of each thread that has returned is 0, that for "no operation", or a
  -- negated error of the operation's array.
  pub Reach-exclusive :
      ((i j : ℕ) → i < n → j < n → inside (y.phase i) ≡ 1 → inside (y.phase j) ≡ 1 → i ≡ j)
      × ((i : ℕ) (path : Str) (op : FuseOp) (rest : List ErrinjConf) (rc : ℤ) (a : ℕ)
          → y.phase i ≡ looping path op rest rc
          → 1 ≤ held_entries rest a
          → y.shared.heap.live a ≡ true)
      × ((i : ℕ) (op : FuseOp) (rc : ℤ) → y.phase i ≡ returned op rc → Outcome E op rc)
  Reach-exclusive =
      let orderly = Reach-IsOrderly E least n safe free reached in
      (
        λ i j h k here there. elim (Bool-cases (i == j)) [
          | inl same ↦ (==_iff i j).0 same
          | inr other ↦
              absurd (
                omega (arith, there, excluded i j orderly h here λ e. cc (other, (==_iff i j).1 e)))
        ],
        λ i path op rest rc a at_loop held.
            let (on, o, split) = (rw at_loop at (orderly.in_place i)) in
            rest-live rest a split held,
        λ i op rc is_returned. rw is_returned at (orderly.in_place i),
      )
