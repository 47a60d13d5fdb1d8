-- ===== src/Mount/Asked.antt =====
-- What the options of unreliablefs/unreliablefs.c come to.
use afs_cs.Base.{
  ◌%◌, ◌^◌, ℕ, ℤ, ◌≡◌, refl, ap, ◌∙◌, Bool, true, false, List, [], ◌∷◌, some, Str, if◌then◌else◌,
}
use afs_cs.System.{Env, State}
use afs_cs.Ops.Requests.{Request}
use afs_cs.Mount.Args.{
  FoundOpt, found_seed, found_basedir, found_key, found_discarded, found_wrong, key_help,
  key_version, key_debug, fuse_opt_key_opt, fuse_opt_key_nonopt, Options, exited, parsed,
  unreliablefs_opt_proc, after_proc, parse_opts, default_options,
}
use afs_cs.Mount.{exit_failure, mount_parsed, main}

-- Help or the version is asked for, before an argument at which the parsing gives up.
abbrev pub asks : List FoundOpt → Bool
asks [] = false
asks (found_key key_help ∷ args) = true
asks (found_key key_version ∷ args) = true
asks (found_wrong ∷ args) = false
asks (_ ∷ args) = asks args

-- The last setting of each kind, up to there.
abbrev pub last_seed : List FoundOpt → ℕ → ℕ
last_seed [] seed = seed
last_seed (found_seed n ∷ args) seed = last_seed args (n % 2 ^ 32)
last_seed (found_wrong ∷ args) seed = seed
last_seed (_ ∷ args) seed = last_seed args seed

abbrev pub last_basedir : List FoundOpt → Str → Str
last_basedir [] basedir = basedir
last_basedir (found_basedir dir ∷ args) basedir = last_basedir args dir
last_basedir (found_wrong ∷ args) basedir = basedir
last_basedir (_ ∷ args) basedir = last_basedir args basedir

pub parse_opts_lem :
    (args : List FoundOpt) (options : Options)
    → parse_opts args options ≡ (
        if asks args
        then exited exit_failure
        else parsed (record {
          seed = last_seed args options.seed;
          basedir = last_basedir args options.basedir;
        }))
unfolding parse_opts after_proc unreliablefs_opt_proc
parse_opts_lem [] options = refl
parse_opts_lem (found_seed n ∷ args) options =
    parse_opts_lem args (record options { seed = n % 2 ^ 32 })
parse_opts_lem (found_basedir dir ∷ args) options =
    parse_opts_lem args (record options { basedir = dir })
parse_opts_lem (found_key key_help ∷ args) options = refl
parse_opts_lem (found_key key_version ∷ args) options = refl
parse_opts_lem (found_key key_debug ∷ args) options = parse_opts_lem args options
parse_opts_lem (found_key fuse_opt_key_opt ∷ args) options = parse_opts_lem args options
parse_opts_lem (found_key fuse_opt_key_nonopt ∷ args) options = parse_opts_lem args options
parse_opts_lem (found_discarded ∷ args) options = parse_opts_lem args options
parse_opts_lem (found_wrong ∷ args) options = refl

-- A program that is asked for help or its version ends and leaves the state alone.
pub main-asked :
    (E : Env) (now : ℕ) (args : List FoundOpt) (requests : List (Request E)) (ret : ℤ) (s : State E)
    → asks args ≡ true
    → main E now args requests ret s ≡ some ((exit_failure, []), s)
unfolding main mount_parsed
main-asked E now args requests ret s asked =
    let p : parse_opts args (default_options now) ≡ exited exit_failure =
      parse_opts_lem args (default_options now) ∙ rw asked refl in
    ap (λ o. mount_parsed E o requests ret s) p
