-- ===== src/Ops/EndToEnd.antt =====
-- What a configuration means for the requests of the kernel.
use afs_cs.Base.{pos, ◌≡◌, false, none, some, str_eq, ◌∷◌, List, All}
use afs_cs.Base.Run.{Ensures-exists}
use afs_cs.Build.Names.{IsEnabled}
use afs_cs.Queue.{ErrinjConf, ErrInjQ}
use afs_cs.System.{Env, State}
use afs_cs.Errinj.{noop_result}
use afs_cs.Errinj.Quiet.{
  OnlyRng, IsUnmatched, IsSure, IsNoop, error_inject_unconfigured, error_inject-of_inject_all,
  inject_all-unmatched, inject_all-sure,
}
use afs_cs.Ops.Requests.{Request, path_of, op_of}
use afs_cs.Ops.Dispatch.{dispatch}
use afs_cs.Ops.Passthrough.{passthrough, early}
use afs_cs.Ops.Injected.{dispatch_settled, dispatch_passed}

module _ (E : Env) (r : Request E) (s : State E)
    (other : str_eq (path_of r) s.conf.config_path ≡ false) (free : s.conf.locked ≡ false) where
  -- Without a configuration, with a free mutex and off the path of the configuration file, a
  -- request is what the underlying file system makes of it.
  pub dispatch_unconfigured : s.conf.errors ≡ none → dispatch E r s ≡ passthrough E r s
  dispatch_unconfigured off =
      dispatch_passed E r s s (error_inject_unconfigured E (path_of r) (op_of r) s other off free)

  module _ (q : ErrInjQ) (configured : s.conf.errors ≡ some q)
      (on : IsEnabled E.build (op_of r)) where
    -- Let the path not be that of the configuration file, the mutex be free, the build keep the
    -- operation, and no injection match both the path and the operation. Then the request is what
    -- the underlying file system makes of it, from a state in which only random numbers were drawn.
    pub dispatch_unmatched :
        All (IsUnmatched E (path_of r) (op_of r)) q.entries
        → (t : State E) × OnlyRng s t × (dispatch E r s ≡ passthrough E r t)
    dispatch_unmatched miss =
        let (rc, t, runs, (zero', f)) = Ensures-exists (
          error_inject-of_inject_all E {P = λ rc. rc ≡ pos 0} (path_of r) (op_of r) s q other
            configured free
            (λ t _. inject_all-unmatched E (path_of r) (op_of r) on q.entries (pos 0) t miss)) in
        (t, f, dispatch_passed E r s t (rw zero' at runs))

    -- Let the path not be that of the configuration file, the mutex be free, the build keep the
    -- operation, all injections be of the type "no operation", and the first one match the path and
    -- the operation with a probability of 100 or more. Then the request returns 0 with buffers and
    -- handles as they were, and only random numbers were drawn: the kernel is not called.
    pub dispatch_noop :
        (err : ErrinjConf) (errors : List ErrinjConf)
        → q.entries ≡ err ∷ errors
        → IsSure E (path_of r) (op_of r) err
        → All IsNoop (err ∷ errors)
        → (t : State E) × OnlyRng s t × (dispatch E r s ≡ some (early E r (pos 0), t))
    dispatch_noop err errors entries sure noops =
        let (rc, t, runs, (noop, f)) = Ensures-exists (
          error_inject-of_inject_all E {P = λ rc. rc ≡ noop_result} (path_of r) (op_of r) s q other
            configured free
            (λ t _.
              rw entries (inject_all-sure E (path_of r) (op_of r) on err errors t sure noops))) in
        (t, f, dispatch_settled E r s t noop_result (rw noop at runs) (λ e. cc))
