-- ===== src/Tests/Setup.antt =====
-- States, requests and facts about them that the tests share.
use afs_cs.Base.{ℕ, ◌≡◌, refl, true, ◌==◌, List, [], ◌∷◌, some, arith, Str, codes, str_eq}
use afs_cs.Build.{op_mkdir, op_rmdir, fuse_op, op_name}
use afs_cs.Build.Names.{IsEnabled}
use afs_cs.Queue.{ErrinjConf, errinj_errno, errinj_slowdown}
use afs_cs.System.{State}
use afs_cs.System.Memory.{rand}
use afs_cs.System.Accounts.{bit, Accounts}
use afs_cs.Config.Ownership.{held_entries, held_queue}
use afs_cs.Config.Distinct.{IsDistinct}
use afs_cs.Errinj.{
  rand_range, is_regex_matched, matches_both, is_selected, trigger, inject_one, inject_all, lock,
  unlock, inject_configured, inject_locked, error_inject, noop_result,
}
use afs_cs.Errinj.Total.{IsSafe}
use afs_cs.Ops.{FileInfo}
use afs_cs.Ops.Requests.{Request, fuse_mkdir, fuse_rmdir, op_of}
use afs_cs.Ops.Total.{IsReady, IsServed}
use afs_cs.Mount.Args.{FoundOpt, found_seed, found_basedir, found_key, fuse_opt_key_nonopt}
use afs_cs.Ops.Requests.{fuse_getattr}
use afs_cs.Tests.Kernel.{
  toy, removed, toy_conf, noop_mkdir, toy_build, toy_seeded, configured, unconfigured, toy_queue,
  idle, config_path,
}

abbrev pub directory : Str
directory = codes "/d"

abbrev pub mkdir_request : Request toy
mkdir_request = fuse_mkdir directory 0

abbrev pub rmdir_request : Request toy
rmdir_request = fuse_rmdir directory

pub mkdir_on : IsEnabled toy_build op_mkdir
unfolding fuse_op
mkdir_on = refl

pub rmdir_on : IsEnabled toy_build op_rmdir
unfolding fuse_op
rmdir_on = refl

pub queue-Accounts : Accounts (λ _. 0) configured.heap (held_queue configured.conf.errors)
queue-Accounts = record { exact = λ a. ground arith; fresh = λ a h. ground arith }

pub entries-Accounts : Accounts (λ a. bit (0 == a)) configured.heap (held_entries toy_queue.entries)
entries-Accounts = record { exact = λ a. ground arith; fresh = λ a h. ground arith }

pub empty-Accounts : Accounts (λ _. 0) unconfigured.heap (λ _. 0)
empty-Accounts = record { exact = λ a. refl; fresh = λ a h. refl }

pub queue-IsDistinct : IsDistinct toy_queue.entries
queue-IsDistinct t = ground arith

pub configured-IsSafe : IsSafe (λ _. 0) configured
configured-IsSafe = record {
  base = λ _. 0;
  grows = λ a. omega arith;
  accounts = queue-Accounts;
  distinct = queue-IsDistinct;
}

-- The injection settles `mkdir`, and the random number is the only thing that moved.
abbrev pub after_draw : State toy
after_draw = record configured { rng = 1 }

pub noop_settles : error_inject toy directory op_mkdir configured ≡ some (noop_result, after_draw)
unfolding error_inject lock unlock inject_locked inject_configured inject_all inject_one trigger
    is_selected rand_range rand matches_both is_regex_matched op_name fuse_op str_eq
noop_settles = refl

-- A state whose generator gives 11, the number of errors in `errno_access`.
abbrev pub seeded : State (toy_seeded 11)
seeded = record { conf = configured.conf; errno = 0; heap = configured.heap; rng = 0; world = idle }

pub configured-IsReady : IsReady (λ _. 0) configured
configured-IsReady = record { safe = configured-IsSafe; free = refl }

pub mkdir_request-IsServed : IsServed toy mkdir_request
unfolding op_of
mkdir_request-IsServed = (mkdir_on, tt)

pub rmdir_request-IsServed : IsServed toy rmdir_request
unfolding op_of
rmdir_request-IsServed = (rmdir_on, tt)

abbrev pub requests : List (Request toy)
requests = mkdir_request ∷ rmdir_request ∷ []

abbrev pub root_args : List FoundOpt
root_args = found_key fuse_opt_key_nonopt ∷ found_seed 3 ∷ found_basedir (codes "/") ∷ []

abbrev pub closed_file : FileInfo
closed_file = record { flags = 2; fh = 0 }

pub removed-IsSafe : IsSafe (λ _. 0) removed
removed-IsSafe = record {
  base = λ _. 0;
  grows = λ a. omega arith;
  accounts = queue-Accounts;
  distinct = queue-IsDistinct;
}

abbrev pub config_request : Request toy
config_request = fuse_getattr config_path (0 ∷ [])

-- An injection of errors before one of "no operation", and a slowdown behind it.
abbrev pub errno_mkdir : ErrinjConf
errno_mkdir = record noop_mkdir { kind = errinj_errno }

abbrev pub slow_mkdir : ErrinjConf
slow_mkdir = record noop_mkdir { kind = errinj_slowdown }

abbrev pub errno_then_noop : State toy
errno_then_noop = record configured {
  conf =
      toy_conf (some (record toy_queue { entries = errno_mkdir ∷ noop_mkdir ∷ slow_mkdir ∷ [] }));
}

pub toy_grants : (p : ℕ) → toy.grant p ≡ true
toy_grants p = refl
