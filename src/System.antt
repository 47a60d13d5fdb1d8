-- ===== src/System.antt =====
-- What the program runs on: the kernel, the C library's state and the FUSE library, as parameters,
-- and the state of the process.
pub mod Kernel
pub mod Memory
pub mod Linux
pub mod Accounts
use afs_cs.Base.{ℕ, ℤ, Bool, List, Option, Str}
use afs_cs.Errno.{Errno}
use afs_cs.Build.{Build}
use afs_cs.Queue.{ErrInjQ}
use Kernel.{Call, Reply, Dirent}

-- What conf.c hands over for one line of a configuration file: a pair for the handler, or a line
-- with an error.
pub data IniItem : Type 0 where
  pair : ℕ → Str → Str → Str → IniItem
  malformed : ℕ → IniItem

-- Everything outside the program. `World` is the kernel's state and `Rng` that of `rand`.
pub record Env : Type 1 where
  pub build : Build
  pub errno_code : Errno → ℕ
  pub World : Type 0
  pub Rng : Type 0
  -- A system call.
  pub call : Call → World → Reply × World
  -- What `readdir` returns on an open directory, one entry after the other, before NULL.
  pub dir_entries : ℤ → World → List Dirent
  -- `fuse_get_context()->pid`, if there is a context.
  pub context_pid : World → Option ℕ
  -- `rand`, and the generator that `srand` makes of a seed.
  pub rand : Rng → ℕ × Rng
  pub srand : ℕ → Rng
  -- Whether the n-th request for memory is granted.
  pub grant : ℕ → Bool
  -- `regcomp` with REG_ICASE | REG_EXTENDED, and `regexec` of such an expression on a string.
  pub regcomp : Str → ℤ
  pub regexec : Str → Str → ℤ
  -- What `ini_parse` finds in a file, or none if it cannot open it.
  pub ini_file : Str → World → Option (List IniItem) × World
  -- `S_ISDIR` of the `st_mode` in what `stat` stored.
  pub is_dir_mode : List ℕ → Bool
  -- The path that `realpath` finds, or none.
  pub realpath : Str → World → Option Str
  -- `pthread_mutex_init`
  pub mutex_init : World → ℤ
  -- The buffer of a directory listing and the `fuse_fill_dir_t` that adds an entry to it, from
  -- its name, `st_ino` and `st_mode`.
  pub DirBuf : Type 0
  pub filler : DirBuf → Str → ℕ → ℕ → ℤ × DirBuf

-- The heap: which blocks are allocated, and the number of the next request.
pub record Heap : Type 0 where
  pub live : ℕ → Bool
  pub next : ℕ

-- `struct unreliablefs_config`; `locked` is the state of its mutex.
pub record UnreliablefsConfig : Type 0 where
  pub errors : Option ErrInjQ
  pub basedir : Str
  pub config_path : Str
  pub seed : ℕ
  pub debug : ℕ
  pub locked : Bool

-- The process: the global `conf`, `errno`, the heap, the generator, and the kernel.
pub record State (E : Env) : Type 0 where
  pub conf : UnreliablefsConfig
  pub errno : ℕ
  pub heap : Heap
  pub rng : E.Rng
  pub world : E.World
