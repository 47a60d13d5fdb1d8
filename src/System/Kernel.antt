-- ===== src/System/Kernel.antt =====
-- The system calls that the program makes, with their arguments, and what they return.
use afs_cs.Base.{ℕ, ℤ, List, Option, Str}

pub data Call : Type 0 where
  sys_lstat sys_stat : Str → Call
  sys_readlink : Str → ℕ → Call
  sys_mknod : Str → ℕ → ℕ → Call
  sys_mkdir : Str → ℕ → Call
  sys_unlink sys_rmdir : Str → Call
  sys_symlink sys_rename sys_link : Str → Str → Call
  sys_chmod : Str → ℕ → Call
  sys_chown : Str → ℕ → ℕ → Call
  sys_truncate : Str → ℤ → Call
  sys_open : Str → ℕ → Call
  sys_open_mode : Str → ℕ → ℕ → Call
  sys_pread : ℤ → ℕ → ℤ → Call
  sys_pwrite : ℤ → List ℕ → ℤ → Call
  sys_close sys_dup sys_fsync sys_fdatasync sys_fstat : ℤ → Call
  sys_statvfs : Str → Call
  sys_setxattr : Str → Str → List ℕ → ℕ → Call
  sys_getxattr : Str → Str → ℕ → Call
  sys_listxattr : Str → ℕ → Call
  sys_removexattr : Str → Str → Call
  -- The calls of macOS: with a position, and with options.
  sys_setxattr_at : Str → Str → List ℕ → ℕ → ℕ → Call
  sys_getxattr_at : Str → Str → ℕ → ℕ → ℕ → Call
  sys_listxattr_with : Str → ℕ → ℕ → Call
  sys_removexattr_with : Str → Str → ℕ → Call
  sys_opendir : Str → Call
  sys_closedir sys_dirfd : ℤ → Call
  sys_access : Str → ℕ → Call
  sys_fcntl : ℤ → ℕ → List ℕ → Call
  sys_ioctl : ℤ → ℕ → List ℕ → Call
  sys_flock : ℤ → ℕ → Call
  sys_fallocate : ℤ → ℕ → ℤ → ℤ → Call
  sys_utimensat : ℤ → Str → List ℕ → ℕ → Call
  sys_kill : ℕ → ℕ → Call
  sys_nanosleep : ℕ → Call

-- `value` is the result, or the pointer as a number; `stored` is what the call leaves in the
-- buffer that it was given; `errno` is set by a call that fails.
pub record Reply : Type 0 where
  pub value : ℤ
  pub errno : Option ℕ
  pub stored : List ℕ

-- `struct dirent`
pub record Dirent : Type 0 where
  pub d_ino : ℕ
  pub d_name : Str
  pub d_type : ℕ
