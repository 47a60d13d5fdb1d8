-- ===== src/Ops/Delayed.antt =====
-- Requests under injections that leave the result alone.
use afs_cs.Base.{◌≡◌, false, some, All, str_eq}
use afs_cs.Base.Run.{Ensures-exists}
use afs_cs.Build.Names.{IsEnabled}
use afs_cs.Queue.{ErrInjQ}
use afs_cs.System.{Env, State}
use afs_cs.Errinj.Frame.{Paused}
use afs_cs.Errinj.Delay.{IsDelay, error_inject-delay}
use afs_cs.Ops.Requests.{Request, path_of, op_of}
use afs_cs.Ops.Dispatch.{dispatch}
use afs_cs.Ops.Passthrough.{passthrough}
use afs_cs.Ops.Injected.{dispatch_passed}

-- Let the path not be that of the configuration file, the mutex be free, the build keep the
-- operation, and all injections be of the types "slowdown" and "kill caller". Then the request is
-- what the underlying file system makes of it, from a state with the same configuration and heap,
-- whose kernel was asked for nothing but delays and signals to the caller.
pub dispatch_delayed :
    (E : Env) (r : Request E) (s : State E) (q : ErrInjQ)
    → IsEnabled E.build (op_of r)
    → str_eq (path_of r) s.conf.config_path ≡ false
    → s.conf.errors ≡ some q
    → s.conf.locked ≡ false
    → All IsDelay q.entries
    → (t : State E) × Paused s t × (dispatch E r s ≡ passthrough E r t)
dispatch_delayed E r s q on other configured free delays =
    let (rc, t, runs, (zero', f)) =
      Ensures-exists
        (error_inject-delay E (path_of r) (op_of r) s q on other configured free delays) in
    (t, f, dispatch_passed E r s t (rw zero' at runs))
