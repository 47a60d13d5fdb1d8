-- ===== src/Ops/Failing.antt =====
-- Requests under an injection of random errors.
use afs_cs.Base.{
  ℕ, zero, suc, ℤ, pos, neg, ◌==ℤ◌, ◌≡◌, ◌≢◌, refl, ◌∙◌, false, some, [], ◌∷◌, str_eq,
  if◌then◌else◌,
}
use afs_cs.Base.Run.{Ensures-exists}
use afs_cs.Errno.{Errno}
use afs_cs.Build.Names.{IsEnabled}
use afs_cs.Queue.{ErrinjConf, ErrInjQ, errinj_errno}
use afs_cs.System.{Env, State}
use afs_cs.Errinj.{noop_result}
use afs_cs.Errinj.Frame.{IsErrnoOf}
use afs_cs.Errinj.Quiet.{IsSure, OnlyRng, error_inject-of_inject_all}
use afs_cs.Errinj.Random.{IsInside, inject_all-errno}
use afs_cs.Ops.Requests.{Request, path_of, op_of}
use afs_cs.Ops.Dispatch.{dispatch}
use afs_cs.Ops.Passthrough.{early}
use afs_cs.Ops.Injected.{dispatch_settled}

neg-is_settled :
    (n : ℕ)
    → n ≢ 0
    → (neg (pos n) ≢ pos 0)
      × ((if neg (pos n) ==ℤ noop_result then pos 0 else neg (pos n)) ≡ neg (pos n))
neg-is_settled zero positive = elim (positive refl) [ ]
neg-is_settled (suc n) positive = ((λ e. cc), refl)

module _ (E : Env) (positive : (e : Errno) → E.errno_code e ≢ 0) where
  -- Let the numbers of errors not be 0, the path not be that of the configuration file, the mutex
  -- be free, the build keep the operation, the one injection be of the type "errno" and match the
  -- path and the operation with a probability of 100 or more, and the second random number from
  -- here on not lead behind the end of the operation's array. Then the request returns a negated
  -- error of that array, with buffers and handles as they were, and only random numbers were drawn:
  -- the kernel is not called.
  pub dispatch_failing :
      (r : Request E) (s : State E) (q : ErrInjQ) (err : ErrinjConf)
      → IsInside E (op_of r) (E.rand s.rng).1
      → IsEnabled E.build (op_of r)
      → str_eq (path_of r) s.conf.config_path ≡ false
      → s.conf.locked ≡ false
      → s.conf.errors ≡ some q
      → q.entries ≡ err ∷ []
      → err.kind ≡ errinj_errno
      → IsSure E (path_of r) (op_of r) err
      → (rc : ℤ) × (t : State E) × IsErrnoOf E (op_of r) rc
        × OnlyRng s t
        × (dispatch E r s ≡ some (early E r rc, t))
  dispatch_failing r s q err inside on other free configured entries kind sure =
      let (rc, t, runs, ((arr, i, e, case, found, negated), f)) = Ensures-exists (
        error_inject-of_inject_all E {P = IsErrnoOf E (op_of r)} (path_of r) (op_of r) s q other
          configured free
          (λ t same.
            rw entries
              (inject_all-errno E (path_of r) (op_of r) on err t (rw same inside) kind sure))) in
      let (nonzero, settled) = neg-is_settled (E.errno_code e) (positive e) in
      (
        rc,
        t,
        (arr, i, e, case, found, negated),
        f,
        dispatch_settled E r s t rc runs (rw negated nonzero) ∙ rw (negated, settled),
      )
