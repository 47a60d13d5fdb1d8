-- ===== src/Mount.antt =====
-- The start and the end of the program: `main` and `is_dir` of unreliablefs/unreliablefs.c. What
-- FUSE finds in the command line is an argument, as are the requests that it serves and the result
-- of `fuse_main`.
pub mod Args
pub mod Asked
pub mod Path
pub mod Run
use afs_cs.Base.{
  ℕ, ◌+◌, ◌-◌, ℤ, pos, ◌==ℤ◌, Bool, false, ◌&&◌, List, [], ◌∷◌, ◌++◌, Option, none, some, Str,
  codes, ltb, length, take, if◌then◌else◌,
}
use afs_cs.Base.Run.{M, pure, undefined, ◌>>=◌, ◌>>◌}
use afs_cs.Queue.{OwnedStr}
use afs_cs.System.{Env, State}
use afs_cs.System.Kernel.{sys_stat}
use afs_cs.System.Memory.{sys, malloc, strdup, free}
use afs_cs.Config.{config_init, config_delete}
use afs_cs.Errinj.{set_errors}
use afs_cs.Ops.Requests.{Request, Response}
use afs_cs.Ops.Total.{serve}
use Args.{FoundOpt, Options, ParsedOpts, exited, parsed, parse_opts, default_options}

-- `DEFAULT_CONF_NAME`, `PATH_MAX`, `EXIT_FAILURE`, and the text before the directory in the option.
abbrev pub default_conf_name : Str
default_conf_name = codes "unreliablefs.conf"

abbrev pub path_max : ℕ
path_max = 4096

abbrev pub exit_failure : ℤ
exit_failure = pos 1

abbrev pub subdir_prefix : Str
subdir_prefix = codes "-omodules=subdir,subdir="

-- `snprintf(conf.config_path, sz, "%s/%s", conf.basedir, DEFAULT_CONF_NAME)`: at most `sz - 1`
-- bytes of the text.
unfoldable pub build_config_path : Str → Str
build_config_path basedir =
    let sz = length default_conf_name + length basedir + 2 in
    take (sz - 1) (basedir ++ codes "/" ++ default_conf_name)

module _ (E : Env) where
  -- `memset`, the options, and `srand`.
  unfoldable pub configure : Options → M (State E) (Unit {0})
  configure options s = some (
    tt,
    record s {
      conf = record {
        errors = none;
        basedir = options.basedir;
        config_path = [];
        seed = options.seed;
        debug = 0;
        locked = false;
      };
      rng = E.srand options.seed;
    },
  )

  unfoldable pub is_dir : Str → M (State E) Bool
  unfolding sys
  is_dir path = do r ← sys E (sys_stat path); pure (r.value ==ℤ pos 0 && E.is_dir_mode r.stored)

  -- `sprintf` into `subdir_option`, which has `PATH_MAX` bytes.
  unfoldable pub subdir_option : Str → M (State E) (Unit {0})
  subdir_option basedir =
      if ltb (length subdir_prefix + length basedir) path_max then pure tt else undefined

  -- `realpath(conf.basedir, NULL)`: a new string, or NULL.
  unfoldable pub resolved : Option Str → M (State E) (Option OwnedStr)
  resolved none = pure none
  resolved (some path) = strdup E path

  unfoldable pub set_basedir : Str → M (State E) (Unit {0})
  set_basedir path s = some (tt, record s { conf = record (s.conf) { basedir = path } })

  unfoldable pub set_config_path : Str → M (State E) (Unit {0})
  set_config_path path s = some (tt, record s { conf = record (s.conf) { config_path = path } })

  -- The end: `config_delete(conf.errors)` and `free(conf.config_path)`.
  unfoldable pub cleanup : ℕ → M (State E) (Unit {0})
  cleanup block s = (do config_delete E s.conf.errors; free E block) s

  -- `fuse_main` and what follows.
  unfoldable pub run : ℕ → List (Request E) → ℤ → M (State E) (ℤ × List (Response E))
  run block requests ret = do answers ← serve E requests; cleanup block; pure (ret, answers)

  -- `pthread_mutex_init`, which a failure makes the last step.
  unfoldable pub init_mutex : ℕ → List (Request E) → ℤ → M (State E) (ℤ × List (Response E))
  init_mutex block requests ret s =
      if E.mutex_init s.world ==ℤ pos 0
      then run block requests ret s
      else some ((exit_failure, []), s)

  -- From the second `malloc` on.
  unfoldable pub with_config_path :
      Str → Option ℕ → List (Request E) → ℤ → M (State E) (ℤ × List (Response E))
  with_config_path basedir none requests ret = pure (exit_failure, [])
  with_config_path basedir (some block) requests ret = do
    set_config_path (build_config_path basedir)
    errors ← config_init E (build_config_path basedir)
    set_errors E errors
    init_mutex block requests ret

  -- From `realpath` on.
  unfoldable pub with_real_path :
      Option OwnedStr → List (Request E) → ℤ → M (State E) (ℤ × List (Response E))
  with_real_path none requests ret = pure (exit_failure, [])
  with_real_path (some real_path) requests ret = do
    set_basedir real_path.text
    p ← malloc E
    with_config_path real_path.text p requests ret

  -- Once `basedir` is known for a directory.
  unfoldable pub with_dir : Str → List (Request E) → ℤ → M (State E) (ℤ × List (Response E))
  with_dir basedir requests ret s =
      (do
        subdir_option basedir
        real_path ← resolved (E.realpath basedir s.world)
        with_real_path real_path requests ret)
        s

  -- `main` from `srand` on.
  unfoldable pub mount : Options → List (Request E) → ℤ → M (State E) (ℤ × List (Response E))
  mount options requests ret = do
    configure options
    is_directory ← is_dir options.basedir
    if is_directory then with_dir options.basedir requests ret else pure (exit_failure, [])

  unfoldable pub mount_parsed :
      ParsedOpts → List (Request E) → ℤ → M (State E) (ℤ × List (Response E))
  mount_parsed (exited code) requests ret = pure (code, [])
  mount_parsed (parsed options) requests ret = mount options requests ret

  -- The time, the arguments, the requests that FUSE serves, and the result of `fuse_main`.
  unfoldable pub main :
      ℕ → List FoundOpt → List (Request E) → ℤ → M (State E) (ℤ × List (Response E))
  main now args requests ret = mount_parsed (parse_opts args (default_options now)) requests ret
