-- ===== src/Mount/Run.antt =====
-- A run of the program from its start to its end.
use afs_cs.Base.{false, ℕ, ◌+◌, ◌≤◌, ◌<◌, ℤ, ◌≡◌, ◌⊎◌, false, Option, List, [], length}
use afs_cs.System.{Env, State}
use afs_cs.System.Accounts.{Accounts}
use afs_cs.Config.Ownership.{held_queue}
use afs_cs.Ops.Requests.{Request, Response}
use afs_cs.Ops.Total.{Answers, OverrunsIn}
use afs_cs.Mount.Args.{FoundOpt, found_basedir, ParsedOpts, exited, parsed}
use afs_cs.Mount.{path_max, exit_failure, subdir_prefix, run}

-- The directory of `-basedir` fits into the buffer of the option.
abbrev pub IsShortOpt : FoundOpt → Type 0
IsShortOpt (found_basedir dir) = length subdir_prefix + length dir < path_max
IsShortOpt _ = Unit

abbrev IsShort : ParsedOpts → Type 0
IsShort (exited code) = code ≡ exit_failure
IsShort (parsed options) = length subdir_prefix + length options.basedir < path_max

-- No block of the queue that `conf` still points to is allocated, and every block that `base` counts
-- still is.
abbrev pub IsCleaned : {E : Env} → (ℕ → ℕ) → State E → Type 0
IsCleaned base t =
    ((a : ℕ) → 1 ≤ held_queue t.conf.errors a → t.heap.live a ≡ false)
    × ((base' : ℕ → ℕ) × ((a : ℕ) → base a ≤ base' a) × Accounts base' t.heap (λ _. 0))

-- How a run ends: before FUSE starts, or with an answer for each request and the configuration
-- freed.
abbrev pub Ended :
    (E : Env) → (ℕ → ℕ) → List (Request E) → ℤ → ℤ × List (Response E) → State E → Type 0
Ended E base requests ret (code, answers) t =
    ((code ≡ exit_failure) × (answers ≡ []))
    ⊎ ((code ≡ ret) × Answers E requests answers × IsCleaned base t)

-- The program with the requests comes, whatever these are, to `fuse_main` in one and the same
-- state, and there a request reads behind the end of an array of errors.
abbrev pub Comes :
    (E : Env)
    → List (Request E)
    → ℤ
    → (List (Request E) → Option ((ℤ × List (Response E)) × State E))
    → Type 0
Comes E requests ret program =
    (block : ℕ) × (t : State E) × ((rs : List (Request E)) → program rs ≡ run E block rs ret t)
    × OverrunsIn E requests t
