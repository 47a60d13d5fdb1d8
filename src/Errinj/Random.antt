-- ===== src/Errinj/Random.antt =====
-- One injection of a random error that is sure to be selected.
use native.Mathlib.Nat.{mod-lt, sub-zero, add-zero}
use afs_cs.Base.{
  ◌+◌, ◌<◌, some, length, ℤ, pos, neg, ◌%◌, ◌≡◌, refl, true, [], ◌∷◌, Str, leb, le→leb, arith,
  get_elem?-lt, some, length,
}
use afs_cs.Base.Run.{Ensures, ensures, Ensures-bind}
use afs_cs.Build.{FuseOp}
use afs_cs.Build.Names.{IsEnabled}
use afs_cs.Queue.{ErrinjConf, errinj_errno}
use afs_cs.System.{Env, State}
use afs_cs.System.Memory.{rand}
use afs_cs.Errinj.{
  rand_range, element, random_element, random_case, op_random_errno, trigger, inject_one,
  inject_all, ErrnoArray, errno_case,
}
use afs_cs.Errno.{ErrnoArray}
use afs_cs.Errinj.Table.{errno_case}
use afs_cs.Errinj.Cases.{errno_case_of_enabled}
use afs_cs.Errinj.Frame.{IsErrnoOf}
use afs_cs.Errinj.Quiet.{IsSure, is_selected_lem, OnlyRng, OnlyRng-trans}

-- A random error of the operation, drawn with this generator, stays within the array.
abbrev pub IsInside : (E : Env) → FuseOp → E.Rng → Type 0
IsInside E op g =
    (arr : ErrnoArray)
    → errno_case E.build op ≡ some arr
    → (E.rand g).0 % (length (E.build.errno_array arr) + 1) < length (E.build.errno_array arr)

module _ (E : Env) (path : Str) (op : FuseOp) (on : IsEnabled E.build op) where
  op_random_errno-IsErrnoOf :
      (s : State E)
      → IsInside E op s.rng
      → Ensures (λ rc t. IsErrnoOf E op (neg rc) × OnlyRng s t) (op_random_errno E op s)
  unfolding op_random_errno random_case random_element rand_range rand element
  op_random_errno-IsErrnoOf s inside =
      let (arr, case) = errno_case_of_enabled E.build op on in
      let (e, found) = get_elem?-lt _ _ (inside arr case) in
      rw (case, sub-zero, add-zero, found)
        (ensures (
          (arr, _, e, refl, found, refl),
          record { conf = refl; errno = refl; heap = refl; world = refl },
        ))

  inject_one-errno :
      (err : ErrinjConf) (rc : ℤ) (s : State E)
      → IsInside E op (E.rand s.rng).1
      → err.kind ≡ errinj_errno
      → IsSure E path op err
      → Ensures (λ rc' t. IsErrnoOf E op rc' × OnlyRng s t) (inject_one E err path op rc s)
  unfolding inject_one trigger
  inject_one-errno err rc s inside kind sure =
      let hits : leb ((E.rand s.rng).0 % 101) err.probability ≡ true =
        le→leb _ _ (grind (arith, mod-lt)) in
      let drawn : State E = record s { rng = (E.rand s.rng).1 } in
      let moved : OnlyRng s drawn = record {
        conf = refl;
        errno = refl;
        heap = refl;
        world = refl;
      } in
      rw (is_selected_lem E err path op s on, hits, sure.0, kind)
        (Ensures-bind (op_random_errno-IsErrnoOf drawn inside)
          λ e t (is, f). ensures (is, OnlyRng-trans moved f))

  pub inject_all-errno :
      (err : ErrinjConf) (s : State E)
      → IsInside E op (E.rand s.rng).1
      → err.kind ≡ errinj_errno
      → IsSure E path op err
      → Ensures
          (λ rc t. IsErrnoOf E op rc × OnlyRng s t)
          (inject_all E (err ∷ []) path op (pos 0) s)
  unfolding inject_all
  inject_all-errno err s inside kind sure =
      Ensures-bind (inject_one-errno err (pos 0) s inside kind sure) λ rc t (is, f). ensures (is, f)
