-- ===== src/Ops/Masked.antt =====
-- Requests under a queue in which "no operation" has the last word.
use afs_cs.Base.{pos, ◌⊎◌, inr, ◌≡◌, false, inl, some, List, ◌∷◌, ◌++◌, All, str_eq}
use afs_cs.Base.Run.{Ends-cases}
use afs_cs.Build.Names.{IsEnabled}
use afs_cs.Queue.{ErrinjConf, ErrInjQ}
use afs_cs.System.{Env, State}
use afs_cs.Errinj.{noop_result}
use afs_cs.Errinj.Frame.{Paused}
use afs_cs.Errinj.Total.{Overruns}
use afs_cs.Errinj.Quiet.{IsSure, IsNoop}
use afs_cs.Errinj.Masked.{IsHarmless, error_inject-masked}
use afs_cs.Ops.Requests.{Request, path_of, op_of}
use afs_cs.Ops.Dispatch.{dispatch}
use afs_cs.Ops.Passthrough.{early}
use afs_cs.Ops.Injected.{dispatch_settled}

-- Let the path not be that of the configuration file, the mutex be free, the build keep the
-- operation, and an injection of the type "no operation" match the path and the operation with a
-- probability of 100 or more, where each one behind it is of another type than "errno" or does not
-- match. Then the request returns 0 with buffers and handles as they were, whatever injections
-- stand before it; configuration and heap are as they were, and the kernel was asked for nothing
-- but delays and signals to the caller. The one exception is that an injection of the type "errno"
-- is selected and its random number leads behind the end of the array.
pub dispatch_masked :
    (E : Env) (r : Request E) (s : State E) (q : ErrInjQ) (before : List ErrinjConf)
    (noop : ErrinjConf) (after : List ErrinjConf)
    → IsEnabled E.build (op_of r)
    → str_eq (path_of r) s.conf.config_path ≡ false
    → s.conf.errors ≡ some q
    → s.conf.locked ≡ false
    → q.entries ≡ before ++ (noop ∷ after)
    → IsNoop noop
    → IsSure E (path_of r) (op_of r) noop
    → All (IsHarmless E (path_of r) (op_of r)) after
    → ((t : State E) × Paused s t × (dispatch E r s ≡ some (early E r (pos 0), t)))
      ⊎ Overruns E (path_of r) (op_of r) s
dispatch_masked E r s q before noop after on other configured free entries is_noop sure harmless =
    elim (Ends-cases (
      error_inject-masked E (path_of r) (op_of r) on s q before noop after other configured free
        entries is_noop sure harmless)) [
          | inl (rc, t, runs, (settled, f)) ↦
              inl (t, f, dispatch_settled E r s t noop_result (rw settled at runs) (λ e. cc))
          | inr over ↦ inr over
        ]
