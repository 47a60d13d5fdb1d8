-- ===== src/Errinj/Overrun.antt =====
-- The choice of a random error in unreliablefs/unreliablefs_errinj.c, at the end of the array.
use native.Mathlib.Nat.{mod-lt, sub-zero, add-zero}
use afs_cs.Base.{
  ℕ, ◌+◌, ◌<◌, ◌%◌, ◌≡◌, ◌≢◌, refl, ◌↔◌, inl, inr, arith, none, some, length, get_elem?-lt,
  get_elem?-length,
}
use afs_cs.Errno.{ErrnoArray}
use afs_cs.Build.{FuseOp}
use afs_cs.System.{Env, State}
use afs_cs.System.Memory.{rand}
use afs_cs.Errinj.{rand_range, element, random_element, random_case, op_random_errno}
use afs_cs.Errinj.Frame.{last_or_below}
use afs_cs.Errinj.Table.{errno_case}

module _ (E : Env) (op : FuseOp) (arr : ErrnoArray) (s : State E) where
  abbrev drawn : ℕ
  drawn = (E.rand s.rng).0 % (length (E.build.errno_array arr) + 1)

  op_random_errno-outside :
      errno_case E.build op ≡ some arr
      → drawn ≡ length (E.build.errno_array arr)
      → op_random_errno E op s ≡ none
  unfolding op_random_errno random_case random_element rand_range rand element
  op_random_errno-outside case at_end =
      rw (case, sub-zero, add-zero, at_end, get_elem?-length (E.build.errno_array arr)) refl

  op_random_errno-inside :
      errno_case E.build op ≡ some arr
      → drawn < length (E.build.errno_array arr)
      → op_random_errno E op s ≢ none
  unfolding op_random_errno random_case random_element rand_range rand element
  op_random_errno-inside case below =
      let (e, found) = get_elem?-lt _ _ below in rw (case, sub-zero, add-zero, found) λ h. cc

  -- An operation with a case in the `switch` reads past the end of its array exactly when the
  -- random number, modulo the array's size plus one, is the array's size.
  pub op_random_errno-eq-none :
      errno_case E.build op ≡ some arr
      → ((op_random_errno E op s ≡ none) ↔ (
          (E.rand s.rng).0 % (length (E.build.errno_array arr) + 1)
          ≡ length (E.build.errno_array arr)))
  op_random_errno-eq-none case = (
    λ undefined_read. elim (last_or_below drawn _ (mod-lt _ (omega arith))) [
      | inl at_end ↦ at_end
      | inr below ↦ elim (op_random_errno-inside case below undefined_read) [ ]
    ],
    op_random_errno-outside case,
  )
