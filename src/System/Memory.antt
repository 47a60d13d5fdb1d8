-- ===== src/System/Memory.antt =====
-- Commands of the process: a system call, and the C library's allocation and random numbers.
use mathlib.Core.Option.{get_or}
use afs_cs.Base.{ℕ, ◌+◌, Bool, true, false, Option, none, some, Str, ◌==◌, if◌then◌else◌}
use afs_cs.Base.Run.{M, pure, ◌>>=◌}
use afs_cs.Queue.{OwnedStr}
use afs_cs.System.{Env, State}
use afs_cs.System.Kernel.{Call, Reply}

abbrev pub update : (ℕ → Bool) → ℕ → Bool → ℕ → Bool
update f p v q = if p == q then v else f q

module _ (E : Env) where
  -- A system call, and `errno` after it.
  unfoldable pub sys : Call → M (State E) Reply
  sys c s =
      let (r, w) = E.call c s.world in
      some (r, record s { errno = get_or r.errno s.errno; world = w })

  -- `-errno`
  abbrev pub get_errno : M (State E) ℕ
  get_errno s = some (s.errno, s)

  -- `malloc`, `calloc` and `strdup`: a new block, or NULL.
  unfoldable pub malloc : M (State E) (Option ℕ)
  malloc s =
      let p = s.heap.next in
      if E.grant p
      then some
          (some p, record s { heap = record { live = update s.heap.live p true; next = p + 1 } })
      else some (none, record s { heap = record { live = s.heap.live; next = p + 1 } })

  unfoldable pub strdup : Str → M (State E) (Option OwnedStr)
  unfolding malloc
  strdup text = do
    p ← malloc
    pure (elim p [ none ↦ none | some b ↦ some (record { block = b; text = text }) ])

  -- `free`, of a block that is allocated.
  unfoldable pub free : ℕ → M (State E) (Unit {0})
  free p s =
      if s.heap.live p
      then some
          (tt, record s { heap = record { live = update s.heap.live p false; next = s.heap.next } })
      else none

  -- `if (p) free(p)`
  unfoldable pub free_str : Option OwnedStr → M (State E) (Unit {0})
  unfolding free
  free_str none = pure tt
  free_str (some o) = free o.block

  unfoldable pub rand : M (State E) ℕ
  rand s = let (n, g) = E.rand s.rng in some (n, record s { rng = g })
