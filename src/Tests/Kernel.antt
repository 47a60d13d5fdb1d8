-- ===== src/Tests/Kernel.antt =====
-- A small kernel and C library for the tests: one file and one directory that can be open, a
-- regular expression is a string to be equal to, and one configuration file.
use afs_cs.Base.{
  ◌≢◌, ℕ, suc, ◌+◌, ℤ, pos, minus_one, Bool, true, false, ◌&&◌, ◌||◌, ◌==ℤ◌, ◌==◌, List, [], ◌∷◌,
  Option, none, some, Str, codes, str_eq, if◌then◌else◌, ◌≡◌, refl, arith, ==ℤ_iff,
}
use afs_cs.Errno.{Errno, eacces}
use afs_cs.Errno.Linux.{errno_linux}
use afs_cs.Build.{Build}
use afs_cs.Queue.{ErrinjType, errinj_noop, OwnedStr, ErrinjConf, ErrInjQ}
use afs_cs.System.{Env, IniItem, pair, malformed, Heap, UnreliablefsConfig, State}
use afs_cs.System.Kernel.{
  Call, Reply, sys_open, sys_open_mode, sys_dup, sys_close, sys_opendir, sys_closedir, sys_readlink,
  sys_mkdir, sys_access, sys_pread,
}
use afs_cs.System.Linux.{IsLinux, is_indirect, files_after, dirs_after}

-- Whether the file, as descriptor 3, and the directory, as stream 5, are open, whether the
-- configuration file is there, and the number of calls so far.
pub record ToyWorld : Type 0 where
  pub file : Bool
  pub dir : Bool
  pub config : Bool
  pub calls : ℕ

abbrev pub done : ℕ → List ℕ → Reply
done n bytes = record { value = pos n; errno = none; stored = bytes }

abbrev pub refused : ℤ → ℕ → Reply
refused v e = record { value = v; errno = some e; stored = [] }

abbrev set_file : Bool → ToyWorld → ToyWorld
set_file b w = record { file = b; dir = w.dir; config = w.config; calls = w.calls + 1 }

abbrev set_dir : Bool → ToyWorld → ToyWorld
set_dir b w = record { file = w.file; dir = b; config = w.config; calls = w.calls + 1 }

abbrev counted : ToyWorld → ToyWorld
counted w = record { file = w.file; dir = w.dir; config = w.config; calls = w.calls + 1 }

abbrev pub toy_call : Call → ToyWorld → Reply × ToyWorld
toy_call (sys_open _ _) w =
    if w.file then (refused minus_one 24, counted w) else (done 3 [], set_file true w)
toy_call (sys_close fd) w =
    if fd ==ℤ pos 3 && w.file
    then (done 0 [], set_file false w)
    else (refused minus_one 9, counted w)
toy_call (sys_open_mode _ _ _) w = (refused minus_one 13, counted w)
toy_call (sys_dup _) w = (refused minus_one 24, counted w)
toy_call (sys_opendir _) w =
    if w.dir then (refused (pos 0) 24, counted w) else (done 5 [], set_dir true w)
toy_call (sys_closedir dp) w =
    if dp ==ℤ pos 5 && w.dir then (done 0 [], set_dir false w) else (refused minus_one 9, counted w)
toy_call (sys_access _ _) w =
    if w.config then (done 0 [], counted w) else (refused minus_one 2, counted w)
toy_call (sys_readlink _ _) w = (done 3 (codes "abc"), counted w)
toy_call (sys_pread _ _ _) w = (done 2 (codes "hi"), counted w)
toy_call (sys_mkdir _ _) w = (refused minus_one 17, counted w)
toy_call _ w = (done 0 [], counted w)

abbrev pub toy_build : Build
toy_build = record {
  have_xattr = true;
  openbsd = false;
  apple = false;
  have_flock = true;
  have_fallocate = true;
  have_utimensat = true;
  errno_array = errno_linux;
}

abbrev pub config_path : Str
config_path = codes "/unreliablefs.conf"

abbrev pub toy_ini : List IniItem
toy_ini =
    pair 1 (codes "errinj_noop") (codes "op_regexp") (codes "mkdir")
    ∷ pair 2 (codes "errinj_noop") (codes "probability") (codes "100")
    ∷ malformed 3
    ∷ []

-- `EACCES` and all others.
abbrev toy_code : Errno → ℕ
toy_code eacces = 13
toy_code _ = 5

-- The generator is at a fixed number.
abbrev pub toy : Env
toy = record {
  build = toy_build;
  errno_code = toy_code;
  World = ToyWorld;
  Rng = ℕ;
  call = toy_call;
  dir_entries = λ _ _. [];
  context_pid = λ _. some 77;
  rand = λ g. (0, suc g);
  srand = λ seed. seed;
  grant = λ _. true;
  regcomp = λ _. pos 0;
  regexec = λ pattern text. if str_eq pattern text then pos 0 else pos 1;
  ini_file = λ path w. (if str_eq path config_path then some toy_ini else none, w);
  is_dir_mode = λ _. true;
  realpath = λ path _. some [];
  mutex_init = λ _. pos 0;
  DirBuf = List Str;
  filler = λ buf name _ _. (pos 0, name ∷ buf);
}

-- The same with a generator that gives one number.
abbrev pub toy_seeded : ℕ → Env
toy_seeded n = record toy { rand = λ g. (n, suc g) }

abbrev pub idle : ToyWorld
idle = record { file = false; dir = false; config = true; calls = 0 }

abbrev pub regexp : ℕ → Str → OwnedStr
regexp p text = record { block = p; text = text }

-- An injection of "no operation" into `mkdir`, in block 1 with its expression in block 2.
abbrev pub noop_mkdir : ErrinjConf
noop_mkdir = record {
  block = 1;
  err_injection_name = none;
  op_regexp = some (regexp 2 (codes "mkdir"));
  path_regexp = none;
  errno_regexp = none;
  probability = 100;
  duration = 0;
  kind = errinj_noop;
}

abbrev pub toy_queue : ErrInjQ
toy_queue = record { block = 0; entries = noop_mkdir ∷ [] }

abbrev pub three_blocks : Heap
three_blocks = record { live = λ a. a == 0 || a == 1 || a == 2; next = 3 }

abbrev pub toy_conf : Option ErrInjQ → UnreliablefsConfig
toy_conf q = record {
  errors = q;
  basedir = codes "/";
  config_path = config_path;
  seed = 1;
  debug = 0;
  locked = false;
}

abbrev pub configured : State toy
configured = record {
  conf = toy_conf (some toy_queue);
  errno = 0;
  heap = three_blocks;
  rng = 0;
  world = idle;
}

abbrev pub unconfigured : State toy
unconfigured = record configured {
  conf = toy_conf none;
  heap = record { live = λ _. false; next = 0 };
}

-- The state with one injection into `mkdir`, of another type.
abbrev pub with_type : ErrinjType → State toy
with_type t = record configured {
  conf = toy_conf (some (record toy_queue { entries = record noop_mkdir { kind = t } ∷ [] }));
}

-- The configuration was read, and its file is gone.
abbrev pub removed : State toy
removed = record configured { world = record idle { config = false } }

pub toy_positive : (e : Errno) → toy.errno_code e ≢ 0
toy_positive eacces = λ h. cc
toy_positive _ = λ h. cc

abbrev toy_files : ToyWorld → ℤ → Bool
toy_files w x = w.file && x ==ℤ pos 3

abbrev toy_dirs : ToyWorld → ℤ → Bool
toy_dirs w x = w.dir && x ==ℤ pos 5

toy_files-call :
    (c : Call) (w : ToyWorld) (x : ℤ)
    → is_indirect c ≡ false
    → toy_files (toy_call c w).1 x ≡ files_after c (toy_call c w).0.value (toy_files w) x
toy_files-call (sys_close fd) w x direct = ground (arith, ==ℤ_iff fd (pos 3), ==ℤ_iff x fd)
toy_files-call (sys_open path flags) w x direct = ground arith
toy_files-call _ w x direct = ground arith

toy_dirs-call :
    (c : Call) (w : ToyWorld) (x : ℤ)
    → toy_dirs (toy_call c w).1 x ≡ dirs_after c (toy_call c w).0.value (toy_dirs w) x
toy_dirs-call (sys_closedir dp) w x = ground (arith, ==ℤ_iff dp (pos 5), ==ℤ_iff x dp)
toy_dirs-call (sys_opendir path) w x = ground arith
toy_dirs-call _ w x = ground arith

toy_sets_errno :
    (c : Call) (w : ToyWorld)
    → (toy_call c w).0.value ≡ minus_one
    → (e : ℕ) × ((toy_call c w).0.errno ≡ some (suc e))
toy_sets_errno (sys_open path flags) w failed = (23, ground arith)
toy_sets_errno (sys_open_mode path flags mode) w failed = (12, refl)
toy_sets_errno (sys_dup fd) w failed = (23, refl)
toy_sets_errno (sys_close fd) w failed = (8, ground arith)
toy_sets_errno (sys_opendir path) w failed = (0, ground arith)
toy_sets_errno (sys_closedir dp) w failed = (8, ground arith)
toy_sets_errno (sys_access path mode) w failed = (1, ground arith)
toy_sets_errno (sys_mkdir path mode) w failed = (16, refl)
toy_sets_errno _ w failed = (0, ground arith)

-- The kernel keeps to what the operations rely on.
pub toy-IsLinux : IsLinux toy
toy-IsLinux = record {
  files = λ w x. w.file && x ==ℤ pos 3;
  dirs = λ w x. w.dir && x ==ℤ pos 5;
  files_call = toy_files-call;
  dirs_call = toy_dirs-call;
  open_fresh = λ path flags w ok. ground (arith, ok);
  opendir_fresh = λ path w ok. ground (arith, ok);
  sets_errno = toy_sets_errno;
}
