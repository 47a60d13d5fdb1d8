-- ===== src/Tests/Requests.antt =====
-- The theorems about requests and whole runs at concrete inputs.
use afs_cs.Errno.{errno_access}
use afs_cs.Errno.Linux.{errno_linux}
use afs_cs.Base.{
  ℤ, pos, ◌≡◌, refl, false, [], ◌∷◌, ◌++◌, some, arith, codes, str_eq, inl, if◌then◌else◌, ◌⊎◌,
  ◌==ℤ◌, none,
}
use afs_cs.Base.Run.{Ensures, Ends}
use afs_cs.Build.{op_mkdir}
use afs_cs.Build.Names.{spelled}
use afs_cs.Queue.{errinj_errno}
use afs_cs.System.{State}
use afs_cs.Errinj.{is_regex_matched, error_inject, noop_result}
use afs_cs.Errinj.Frame.{Paused}
use afs_cs.Errinj.Quiet.{OnlyRng}
use afs_cs.Ops.Requests.{Request, path_of, op_of}
use afs_cs.Ops.Dispatch.{dispatch}
use afs_cs.Ops.Passthrough.{passthrough, early}
use afs_cs.Ops.Injected.{dispatch_lem}
use afs_cs.Ops.EndToEnd.{dispatch_unconfigured, dispatch_unmatched, dispatch_noop}
use afs_cs.Errinj.Total.{Overruns}
use afs_cs.Errinj.Random.{IsInside}
use afs_cs.Errinj.Reload.{IsAsked}
use afs_cs.Ops.Total.{OverrunsIn, IsReady, Answers, serve, dispatch_total, serve_total}
use afs_cs.Ops.Answers.{IsAnswer, IsDefined}
use afs_cs.Mount.{exit_failure, default_conf_name, build_config_path}
use afs_cs.Mount.Path.{build_config_path_lem}
use afs_cs.Mount.Args.{
  found_seed, found_key, key_help, exited, parse_opts, default_options, after_proc,
  unreliablefs_opt_proc,
}
use afs_cs.Errinj.Total.{SameSettings}
use afs_cs.Ops.Removed.{dispatch_removed}
use afs_cs.Ops.Delayed.{dispatch_delayed}
use afs_cs.Ops.Masked.{dispatch_masked}
use afs_cs.Ops.Failing.{dispatch_failing}
use afs_cs.Errinj.Frame.{IsErrnoOf}
use afs_cs.Queue.{errinj_slowdown}
use afs_cs.Tests.Kernel.{
  toy, with_type, removed, toy_positive, configured, unconfigured, noop_mkdir, toy_queue,
  config_path,
}
use afs_cs.Tests.Setup.{
  directory, mkdir_request, rmdir_request, mkdir_on, rmdir_on, configured-IsReady,
  mkdir_request-IsServed, rmdir_request-IsServed, errno_mkdir, slow_mkdir, errno_then_noop,
  requests, removed-IsSafe, config_request,
}

dispatch_lem_example :
    ((rc : ℤ) (t : State toy)
      → error_inject toy directory op_mkdir configured ≡ some (rc, t)
      → dispatch toy mkdir_request configured ≡ (
          if rc ==ℤ noop_result
          then some (early toy mkdir_request (pos 0), t)
          else (if rc ==ℤ pos 0
              then passthrough toy mkdir_request t
              else some (early toy mkdir_request rc, t))))
    × (error_inject toy directory op_mkdir configured ≡ none
        → dispatch toy mkdir_request configured ≡ none)
unfolding path_of op_of
dispatch_lem_example = dispatch_lem toy mkdir_request configured

dispatch_noop_example :
    (t : State toy) × OnlyRng configured t
    × (dispatch toy mkdir_request configured ≡ some (early toy mkdir_request (pos 0), t))
unfolding is_regex_matched str_eq path_of op_of spelled
dispatch_noop_example =
    dispatch_noop toy mkdir_request configured refl refl toy_queue refl mkdir_on noop_mkdir [] refl
      (refl, omega arith) (refl, tt)

dispatch_unmatched_example :
    (t : State toy) × OnlyRng configured t
    × (dispatch toy rmdir_request configured ≡ passthrough toy rmdir_request t)
unfolding str_eq path_of op_of is_regex_matched spelled
dispatch_unmatched_example =
    dispatch_unmatched toy rmdir_request configured refl refl toy_queue refl rmdir_on (refl, tt)

dispatch_unconfigured_example :
    dispatch toy rmdir_request unconfigured ≡ passthrough toy rmdir_request unconfigured
unfolding str_eq path_of
dispatch_unconfigured_example = dispatch_unconfigured toy rmdir_request unconfigured refl refl refl

dispatch_total_example :
    Ends
      (Overruns toy directory op_mkdir configured)
      (λ resp t. IsAnswer mkdir_request resp.ret × IsReady (λ _. 0) t × SameSettings configured t)
      (dispatch toy mkdir_request configured)
unfolding path_of op_of
dispatch_total_example =
    dispatch_total toy mkdir_request configured mkdir_request-IsServed configured-IsReady

serve_total_example :
    Ends
      (OverrunsIn toy requests configured)
      (λ answers t. Answers toy requests answers × IsReady (λ _. 0) t × SameSettings configured t)
      (serve toy requests configured)
serve_total_example =
    serve_total toy requests configured (mkdir_request-IsServed, (rmdir_request-IsServed, tt))
      configured-IsReady

build_config_path_lem_example :
    build_config_path (codes "/srv") ≡ codes "/srv" ++ codes "/" ++ default_conf_name
build_config_path_lem_example = build_config_path_lem (codes "/srv")

dispatch_removed_example :
    (t : State toy) × IsAsked toy (path_of config_request) removed t
    × (dispatch toy config_request removed ≡ passthrough toy config_request t)
    × (IsDefined config_request
        → Ensures (λ _ u. u.conf ≡ t.conf) (dispatch toy config_request removed))
    × ((r' : Request toy) (u : State toy)
        → u.conf ≡ t.conf
        → str_eq (path_of r') config_path ≡ false
        → dispatch toy r' u ≡ passthrough toy r' u)
unfolding path_of str_eq
dispatch_removed_example =
    dispatch_removed toy config_request removed removed-IsSafe refl refl (λ e. cc)

dispatch_delayed_example :
    (t : State toy) × Paused (with_type errinj_slowdown) t
    × (dispatch toy mkdir_request (with_type errinj_slowdown) ≡ passthrough toy mkdir_request t)
unfolding path_of op_of str_eq
dispatch_delayed_example =
    dispatch_delayed toy mkdir_request (with_type errinj_slowdown)
      (record toy_queue { entries = record noop_mkdir { kind = errinj_slowdown } ∷ [] }) mkdir_on
      refl refl refl (inl refl, tt)

-- The generator of the kernel stands still at 0.
mkdir_draws-IsInside : IsInside toy op_mkdir 0
unfolding errno_linux
mkdir_draws-IsInside errno_access h = omega arith
mkdir_draws-IsInside _ h = omega arith

dispatch_failing_example :
    (rc : ℤ) × (t : State toy) × IsErrnoOf toy op_mkdir rc
    × OnlyRng (with_type errinj_errno) t
    × (dispatch toy mkdir_request (with_type errinj_errno) ≡ some (early toy mkdir_request rc, t))
unfolding path_of op_of str_eq is_regex_matched spelled
dispatch_failing_example =
    dispatch_failing toy toy_positive mkdir_request (with_type errinj_errno)
      (record toy_queue { entries = record noop_mkdir { kind = errinj_errno } ∷ [] })
      (record noop_mkdir { kind = errinj_errno }) mkdir_draws-IsInside mkdir_on refl refl refl refl
      refl (refl, omega arith)

-- Help is asked for behind a seed.
help_ends :
    parse_opts (found_seed 3 ∷ found_key key_help ∷ []) (default_options 0) ≡ exited exit_failure
unfolding parse_opts after_proc unreliablefs_opt_proc
help_ends = refl

dispatch_masked_example :
    ((t : State toy) × Paused errno_then_noop t
      × (dispatch toy mkdir_request errno_then_noop ≡ some (early toy mkdir_request (pos 0), t)))
    ⊎ Overruns toy directory op_mkdir errno_then_noop
unfolding path_of op_of str_eq is_regex_matched spelled
dispatch_masked_example =
    dispatch_masked toy mkdir_request errno_then_noop
      (record toy_queue { entries = errno_mkdir ∷ noop_mkdir ∷ slow_mkdir ∷ [] }) (errno_mkdir ∷ [])
      noop_mkdir (slow_mkdir ∷ []) mkdir_on refl refl refl refl refl (refl, omega arith)
      (inl (λ e. cc), tt)
