-- ===== src/Mount/Args.antt =====
-- The options of the command line: `unreliablefs_opts` and `unreliablefs_opt_proc` of
-- unreliablefs/unreliablefs.c. What `fuse_opt_parse` finds in the arguments, by the entries of
-- `unreliablefs_opts`, is an argument.
use afs_cs.Base.{ℕ, ◌%◌, ◌^◌, ℤ, pos, List, [], ◌∷◌, Str, codes}

-- `KEY_HELP`, `KEY_VERSION`, `KEY_DEBUG`, and the keys of FUSE for other arguments.
pub data OptKey : Type 0 where
  key_help key_version key_debug fuse_opt_key_opt fuse_opt_key_nonopt : OptKey

-- What `fuse_opt_parse` makes of an argument: the number of `-seed=%u`, the text of `-basedir=%s`,
-- one with a key, one that is discarded, or one at which it gives up, such as a seed that is no
-- number.
pub data FoundOpt : Type 0 where
  found_seed : ℕ → FoundOpt
  found_basedir : Str → FoundOpt
  found_key : OptKey → FoundOpt
  found_discarded found_wrong : FoundOpt

-- `conf.seed` and `conf.basedir`.
pub record Options : Type 0 where
  pub seed : ℕ
  pub basedir : Str

-- The end of the program, with the arguments that `fuse_opt_add_arg` appended for a call of
-- `fuse_main` before it, or the result.
pub data OptProc : Type 0 where
  exits : List Str → ℤ → OptProc
  returns : ℤ → OptProc

unfoldable pub unreliablefs_opt_proc : OptKey → OptProc
unreliablefs_opt_proc key_help = exits [] (pos 1)
unreliablefs_opt_proc key_version = exits (codes "--version" ∷ []) (pos 1)
unreliablefs_opt_proc _ = returns (pos 1)

-- The settings after `fuse_opt_parse`, whose result `main` does not look at, unless the program has
-- ended.
pub data ParsedOpts : Type 0 where
  exited : ℤ → ParsedOpts
  parsed : Options → ParsedOpts

-- A result of 1 keeps the argument for FUSE.
unfoldable pub after_proc : OptProc → ParsedOpts → ParsedOpts
after_proc (exits arguments code) rest = exited code
after_proc (returns _) rest = rest

unfoldable pub parse_opts : List FoundOpt → Options → ParsedOpts
unfolding unreliablefs_opt_proc after_proc
parse_opts [] options = parsed options
parse_opts (found_seed n ∷ args) options = parse_opts args (record options { seed = n % 2 ^ 32 })
parse_opts (found_basedir dir ∷ args) options = parse_opts args (record options { basedir = dir })
parse_opts (found_key key ∷ args) options =
    after_proc (unreliablefs_opt_proc key) (parse_opts args options)
parse_opts (found_discarded ∷ args) options = parse_opts args options
parse_opts (found_wrong ∷ args) options = parsed options

-- `conf.seed = time(0); conf.basedir = "/";`
unfoldable pub default_options : ℕ → Options
default_options now = record { seed = now % 2 ^ 32; basedir = codes "/" }
