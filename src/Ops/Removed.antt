-- ===== src/Ops/Removed.antt =====
-- What follows when the configuration file is gone.
use afs_cs.Base.{ℕ, pos, ◌≡◌, ◌≢◌, true, false, str_eq}
use afs_cs.Base.Run.{Ensures, Ensures-mono, Ensures-exists}
use afs_cs.System.{Env, State}
use afs_cs.System.Kernel.{sys_access}
use afs_cs.Errinj.Total.{IsSafe}
use afs_cs.Errinj.Reload.{IsAsked, error_inject-missing, error_inject-of_IsQuiet}
use afs_cs.Ops.Requests.{Request, path_of, op_of}
use afs_cs.Ops.Dispatch.{dispatch}
use afs_cs.Ops.Passthrough.{passthrough}
use afs_cs.Ops.Answers.{IsDefined, passthrough-Keeps}
use afs_cs.Ops.Injected.{dispatch_passed}

module _ (E : Env) where
  -- Let the mutex be free, the configuration be in order, the request's path be that of the
  -- configuration file, and the kernel not find that file. Then this request is what the underlying
  -- file system makes of it, from a state whose kernel was asked at most whether the file is there.
  -- If the request is defined, it leaves the configuration of that state alone; from every state
  -- that has this configuration, every request for another path is what the underlying file system
  -- makes of it.
  pub dispatch_removed :
      {least : ℕ → ℕ} (r : Request E) (s : State E)
      → IsSafe least s
      → s.conf.locked ≡ false
      → str_eq (path_of r) s.conf.config_path ≡ true
      → (E.call (sys_access (path_of r) 0) s.world).0.value ≢ pos 0
      → (t : State E) × IsAsked E (path_of r) s t
        × (dispatch E r s ≡ passthrough E r t)
        × (IsDefined r → Ensures (λ _ u. u.conf ≡ t.conf) (dispatch E r s))
        × ((r' : Request E) (u : State E)
            → u.conf ≡ t.conf
            → str_eq (path_of r') s.conf.config_path ≡ false
            → dispatch E r' u ≡ passthrough E r' u)
  dispatch_removed r s safe free own missing =
      let (rc, t, runs, (zero', quiet, free', same, asked)) =
        Ensures-exists (error_inject-missing E (path_of r) (op_of r) s safe free own missing) in
      let served : dispatch E r s ≡ passthrough E r t =
        dispatch_passed E r s t (rw zero' at runs) in
      (
        t,
        asked,
        served,
        λ defined. rw served (Ensures-mono (passthrough-Keeps E r defined t) λ _ u (_, f). f.conf),
        λ r' u kept other. dispatch_passed E r' u u (
            error_inject-of_IsQuiet E (path_of r') (op_of r') u (rw (kept, same) other)
              (rw kept quiet) (rw kept free')),
      )
