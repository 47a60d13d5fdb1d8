-- ===== src/Errinj/Frame.antt =====
-- What the injections can change: the random numbers, the kernel and `errno`, but neither the
-- configuration nor the heap.
use native.Mathlib.Nat.{mod-lt, sub-zero, add-zero}
use afs_cs.Base.{
  false, Bool, if◌then◌else◌, ap, ℕ, ◌+◌, ◌≤◌, ◌<◌, ◌%◌, ℤ, pos, neg, ◌≡◌, refl, arith, Option,
  none, some, length, get_elem?, get_elem?-lt, Bool, get_elem?-length, true,
}
use afs_cs.Base.Run.{
  pure, Ensures, ensures, Ensures-bind, Ensures-if, Ends, ended, broke, Ends-bind, Ends-mono,
  Ensures-then,
}
use afs_cs.Errno.{Errno, ErrnoArray}
use afs_cs.Build.{FuseOp}
use afs_cs.Build.Names.{IsEnabled, op_name-eq-spelled}
use afs_cs.Queue.{
  ErrinjType, errinj_errno, errinj_kill_caller, errinj_noop, errinj_slowdown, ErrinjConf,
}
use afs_cs.System.{Env, State}
use afs_cs.System.Memory.{sys, rand}
use afs_cs.System.Kernel.{sys_kill, sys_nanosleep}
use afs_cs.Errinj.{
  sigkill, rand_range, element, random_element, random_case, op_random_errno, is_selected,
  matches_both, kill_caller, trigger, inject_one, inject_all, min_probability, max_probability,
  noop_result,
}
use afs_cs.Errinj.Table.{errno_case}
use afs_cs.Errinj.Cases.{errno_case_of_enabled}
use afs_cs.Base.{Str, ◌⊎◌, inl, inr, leb, List, [], ◌∷◌}

-- Neither the configuration nor the heap differs.
pub record SameData {E : Env} (s t : State E) : Type 0 where
  pub conf : t.conf ≡ s.conf
  pub heap : t.heap ≡ s.heap

pub SameData-refl : {E : Env} (s : State E) → SameData s s
SameData-refl s = record { conf = refl; heap = refl }

pub SameData-trans : {E : Env} {s t u : State E} → SameData s t → SameData t u → SameData s u
SameData-trans p q = record { conf = cc (p.conf, q.conf); heap = cc (p.heap, q.heap) }

-- What becomes of the kernel where injections let the thread sleep and kill the caller, and nothing
-- else is asked of it.
pub data Delays (E : Env) (w : E.World) : E.World → Type 0 where
  still : Delays E w w
  slept :
      {u : E.World} (duration : ℕ) → Delays E w u → Delays E w (E.call (sys_nanosleep duration) u).1
  killed :
      {u : E.World} (pid : ℕ)
      → E.context_pid u ≡ some pid
      → Delays E w u
      → Delays E w (E.call (sys_kill pid sigkill) u).1

pub Delays-trans : {E : Env} {u v w : E.World} → Delays E u v → Delays E v w → Delays E u w
Delays-trans p still = p
Delays-trans p (slept duration q) = slept duration (Delays-trans p q)
Delays-trans p (killed pid is q) = killed pid is (Delays-trans p q)

-- Neither the configuration nor the heap differs, and the kernel was asked for nothing but delays
-- and signals to the caller.
pub record Paused {E : Env} (s t : State E) : Type 0 where
  pub conf : t.conf ≡ s.conf
  pub heap : t.heap ≡ s.heap
  pub world : Delays E s.world t.world

pub Paused-refl : {E : Env} (s : State E) → Paused s s
Paused-refl s = record { conf = refl; heap = refl; world = still }

pub Paused-trans : {E : Env} {s t u : State E} → Paused s t → Paused t u → Paused s u
Paused-trans p q = record {
  conf = cc (p.conf, q.conf);
  heap = cc (p.heap, q.heap);
  world = Delays-trans p.world q.world;
}

pub SameData-of_Paused : {E : Env} {s t : State E} → Paused s t → SameData s t
SameData-of_Paused f = record { conf = f.conf; heap = f.heap }

-- A random error for the operation, drawn in this state, is read behind the end of its array.
abbrev pub Overrun : (E : Env) → FuseOp → State E → Type 0
Overrun E op s =
    (arr : ErrnoArray) × (errno_case E.build op ≡ some arr)
    × ((E.rand s.rng).0 % (length (E.build.errno_array arr) + 1) ≡ length (E.build.errno_array arr))

-- The round of the loop for this injection selects it, and the error that it then draws is read
-- behind the end of the array.
abbrev pub OverrunsOne : (E : Env) → ErrinjConf → Str → FuseOp → State E → Type 0
OverrunsOne E err path op s =
    (err.kind ≡ errinj_errno)
    × ((t : State E) × (is_selected E err path op s ≡ some (true, t)) × Overrun E op t)

-- This happens in a round that the loop comes to.
abbrev pub OverrunsAll : (E : Env) → List ErrinjConf → Str → FuseOp → ℤ → State E → Type 0
OverrunsAll E [] path op rc s = ⊥
OverrunsAll E (err ∷ errors) path op rc s =
    OverrunsOne E err path op s
    ⊎ ((rc' : ℤ) × (t : State E) × (inject_one E err path op rc s ≡ some (rc', t))
        × OverrunsAll E errors path op rc' t)

-- A negated error from the array of the operation.
abbrev pub IsErrnoOf : (E : Env) → FuseOp → ℤ → Type 0
IsErrnoOf E op rc =
    (arr : ErrnoArray) × (i : ℕ) × (e : Errno) × (errno_case E.build op ≡ some arr)
    × (get_elem? (E.build.errno_array arr) i ≡ some e)
    × (rc ≡ neg (pos (E.errno_code e)))

-- A number that is at most `n` is `n` or below it.
pub last_or_below : (i n : ℕ) → i < n + 1 → (i ≡ n) ⊎ (i < n)
last_or_below i n h = ground arith

module _ (E : Env) where
  -- If the bounds are in order, `rand_range` returns a number from one to the other, both included,
  -- and changes neither the configuration nor the heap.
  pub rand_range_bounds :
      (lo hi : ℕ) (s : State E)
      → lo ≤ hi
      → Ensures (λ n t. (lo ≤ n) × (n ≤ hi) × Paused s t) (rand_range E lo hi s)
  unfolding rand_range rand
  rand_range_bounds lo hi s h =
      ensures
        (omega arith, grind (arith, mod-lt), record { conf = refl; heap = refl; world = still })

  -- An error of the array.
  abbrev Drawn : ErrnoArray → ℤ → Type 0
  Drawn arr rc =
      (i : ℕ) × (e : Errno) × (get_elem? (E.build.errno_array arr) i ≡ some e)
      × (rc ≡ pos (E.errno_code e))

  random_element-Ends :
      (arr : ErrnoArray) (s : State E)
      → Ends
          ((E.rand s.rng).0 % (length (E.build.errno_array arr) + 1)
            ≡ length (E.build.errno_array arr))
          (λ rc t. Drawn arr rc × Paused s t)
          (random_element E (E.build.errno_array arr) s)
  unfolding random_element rand_range rand element
  random_element-Ends arr s =
      elim (last_or_below ((E.rand s.rng).0 % (length (E.build.errno_array arr) + 1))
        (length (E.build.errno_array arr)) (mod-lt _ (omega arith))) [
          | inl at_end ↦
              rw (sub-zero, add-zero, at_end, get_elem?-length (E.build.errno_array arr))
                (broke refl)
          | inr below ↦
              let (e, found) = get_elem?-lt _ _ below in
              rw (sub-zero, add-zero, found)
                (ended ((_, e, found, refl), record { conf = refl; heap = refl; world = still }))
        ]

  op_random_errno-Drawn :
      (op : FuseOp) (arr : ErrnoArray) (s : State E)
      → errno_case E.build op ≡ some arr
      → Ends (Overrun E op s) (λ rc t. Drawn arr rc × Paused s t) (op_random_errno E op s)
  unfolding op_random_errno random_case
  op_random_errno-Drawn op arr s case =
      rw case (Ends-mono (random_element-Ends arr s) (λ at_end. (arr, refl, at_end)) (λ _ _ p. p))

  pub op_random_errno-Ends :
      (op : FuseOp) (s : State E)
      → IsEnabled E.build op
      → Ends
          (Overrun E op s)
          (λ rc t. IsErrnoOf E op (neg rc) × Paused s t)
          (op_random_errno E op s)
  op_random_errno-Ends op s on =
      let (arr, case) = errno_case_of_enabled E.build op on in
      Ends-mono (op_random_errno-Drawn op arr s case) (λ x. x)
        λ rc t ((i, e, found, same), frame). ((arr, i, e, case, found, ap neg same), frame)

  pub is_selected-Ensures :
      (err : ErrinjConf) (path : Str) (op : FuseOp) (s : State E)
      → IsEnabled E.build op
      → Ensures (λ _ t. Paused s t) (is_selected E err path op s)
  unfolding is_selected matches_both
  is_selected-Ensures err path op s on =
      Ensures-bind (rand_range_bounds min_probability max_probability s (omega arith))
        λ p t (_, _, frame).
          Ensures-if (leb p err.probability) _ _ t
            (rw (op_name-eq-spelled E.build op on) (ensures frame)) (ensures frame)

  pub kill_caller-Ensures :
      (pid : Option ℕ) (s : State E)
      → E.context_pid s.world ≡ pid
      → Ensures (λ _ t. Paused s t) (kill_caller E pid s)
  unfolding kill_caller sys
  kill_caller-Ensures none s is = ensures (Paused-refl s)
  kill_caller-Ensures (some pid) s is =
      ensures (record { conf = refl; heap = refl; world = killed pid is still })

-- What the injections may make of the result.
abbrev pub Outcome : (E : Env) → FuseOp → ℤ → Type 0
Outcome E op rc = (rc ≡ pos 0) ⊎ ((rc ≡ noop_result) ⊎ IsErrnoOf E op rc)

module _ (E : Env) (op : FuseOp) (on : IsEnabled E.build op) where
  trigger-Outcome :
      (kind : ErrinjType) (duration : ℕ) (rc : ℤ) (s : State E)
      → Outcome E op rc
      → Ends
          ((kind ≡ errinj_errno) × Overrun E op s)
          (λ rc' t. Outcome E op rc' × Paused s t)
          (trigger E kind duration op rc s)
  unfolding trigger sys
  trigger-Outcome errinj_noop duration rc s o = ended (inr (inl refl), Paused-refl s)
  trigger-Outcome errinj_kill_caller duration rc s o =
      Ensures-then (kill_caller-Ensures E (E.context_pid s.world) s refl)
        λ _ t _ frame. ended (o, frame)
  trigger-Outcome errinj_errno duration rc s o =
      Ends-bind (op_random_errno-Ends E op s on) (λ over. (refl, over))
        λ e t _ (is, frame). ended (inr (inr is), frame)
  trigger-Outcome errinj_slowdown duration rc s o =
      ended (o, record { conf = refl; heap = refl; world = slept duration still })

  -- What follows the tests of a round.
  hit-Outcome :
      (err : ErrinjConf) (path : Str) (rc : ℤ) (s t : State E) (hit : Bool)
      → is_selected E err path op s ≡ some (hit, t)
      → Paused s t
      → Outcome E op rc
      → Ends
          (OverrunsOne E err path op s)
          (λ rc' u. Outcome E op rc' × Paused s u)
          ((if hit then trigger E err.kind err.duration op rc else pure rc) t)
  hit-Outcome err path rc s t true selected f o =
      Ends-mono (trigger-Outcome err.kind err.duration rc t o)
        (λ (kind, over). (kind, (t, selected, over))) λ rc' u (o', f'). (o', Paused-trans f f')
  hit-Outcome err path rc s t false selected f o = ended (o, f)

  -- A round of the loop leaves configuration and heap alone and gives a result that the operation
  -- may have, or it reads behind the end of an array.
  pub inject_one-Outcome :
      (err : ErrinjConf) (path : Str) (rc : ℤ) (s : State E)
      → Outcome E op rc
      → Ends
          (OverrunsOne E err path op s)
          (λ rc' t. Outcome E op rc' × Paused s t)
          (inject_one E err path op rc s)
  unfolding inject_one
  inject_one-Outcome err path rc s o =
      Ensures-then (is_selected-Ensures E err path op s on)
        λ hit t selected f. hit-Outcome err path rc s t hit selected f o

  pub inject_all-Outcome :
      (errors : List ErrinjConf) (path : Str) (rc : ℤ) (s : State E)
      → Outcome E op rc
      → Ends
          (OverrunsAll E errors path op rc s)
          (λ rc' t. Outcome E op rc' × Paused s t)
          (inject_all E errors path op rc s)
  unfolding inject_all
  inject_all-Outcome [] path rc s o = ended (o, Paused-refl s)
  inject_all-Outcome (err ∷ errors) path rc s o =
      Ends-bind (inject_one-Outcome err path rc s o) inl λ rc' u ran (o', f').
        Ends-mono (inject_all-Outcome errors path rc' u o') (λ over. inr (rc', u, ran, over))
          λ r v (o'', f''). (o'', Paused-trans f' f'')
