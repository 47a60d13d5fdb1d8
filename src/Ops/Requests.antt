-- ===== src/Ops/Requests.antt =====
-- The requests that FUSE hands to the table `unreliable_ops` of unreliablefs/unreliablefs.c, and
-- what comes back.
use afs_cs.Base.{ℕ, ℤ, List, [], Option, none, some, Str}
use afs_cs.Base.Run.{M, pure, ◌>>=◌}
use afs_cs.Build.{
  FuseOp, op_getattr, op_readlink, op_mknod, op_mkdir, op_unlink, op_rmdir, op_symlink, op_rename,
  op_link, op_chmod, op_chown, op_truncate, op_open, op_read, op_write, op_statfs, op_flush,
  op_release, op_fsync, op_setxattr, op_getxattr, op_listxattr, op_removexattr, op_opendir,
  op_readdir, op_releasedir, op_fsyncdir, op_access, op_creat, op_ftruncate, op_fgetattr, op_lock,
  op_ioctl, op_flock, op_fallocate, op_utimens,
}
use afs_cs.System.{Env, State}
use afs_cs.Ops.{FileInfo}

-- One constructor for each entry of the table, with the arguments of the operation.
pub data Request (E : Env) : Type 0 where
  fuse_getattr : Str → List ℕ → Request E
  fuse_readlink : Str → List ℕ → ℕ → Request E
  fuse_mknod : Str → ℕ → ℕ → Request E
  fuse_mkdir : Str → ℕ → Request E
  fuse_unlink : Str → Request E
  fuse_rmdir : Str → Request E
  fuse_symlink : Str → Str → Request E
  fuse_rename : Str → Str → Request E
  fuse_link : Str → Str → Request E
  fuse_chmod : Str → ℕ → Request E
  fuse_chown : Str → ℕ → ℕ → Request E
  fuse_truncate : Str → ℤ → Request E
  fuse_open : Str → FileInfo → Request E
  fuse_read : Str → List ℕ → ℕ → ℤ → Option FileInfo → Request E
  fuse_write : Str → List ℕ → ℤ → Option FileInfo → Request E
  fuse_statfs : Str → List ℕ → Request E
  fuse_flush : Str → FileInfo → Request E
  fuse_release : Str → FileInfo → Request E
  fuse_fsync : Str → ℕ → FileInfo → Request E
  fuse_setxattr : Str → Str → List ℕ → ℕ → Request E
  fuse_getxattr : Str → Str → List ℕ → ℕ → Request E
  fuse_listxattr : Str → List ℕ → ℕ → Request E
  fuse_removexattr : Str → Str → Request E
  fuse_opendir : Str → FileInfo → Request E
  fuse_readdir : Str → E.DirBuf → Request E
  fuse_releasedir : Str → FileInfo → Request E
  fuse_fsyncdir : Str → ℕ → FileInfo → Request E
  fuse_access : Str → ℕ → Request E
  fuse_create : Str → ℕ → FileInfo → Request E
  fuse_ftruncate : Str → ℤ → FileInfo → Request E
  fuse_fgetattr : Str → List ℕ → FileInfo → Request E
  fuse_lock : Str → FileInfo → ℕ → List ℕ → Request E
  fuse_ioctl : Str → ℕ → List ℕ → FileInfo → Request E
  fuse_flock : Str → FileInfo → ℕ → Request E
  fuse_fallocate : Str → ℕ → ℤ → ℤ → Option FileInfo → Request E
  fuse_utimens : Str → List ℕ → Request E

-- The result, and the buffer, the file handle and the listing, where the operation has one.
pub record Response (E : Env) : Type 0 where
  pub ret : ℤ
  pub buf : List ℕ
  pub info : Option FileInfo
  pub listing : Option E.DirBuf

module _ (E : Env) where
  abbrev pub just_ret : ℤ → Response E
  just_ret r = record { ret = r; buf = []; info = none; listing = none }

  abbrev pub with_buf : ℤ × List ℕ → Response E
  with_buf (r, b) = record { ret = r; buf = b; info = none; listing = none }

  abbrev pub with_info : ℤ × FileInfo → Response E
  with_info (r, fi) = record { ret = r; buf = []; info = some fi; listing = none }

  abbrev pub with_listing : ℤ × E.DirBuf → Response E
  with_listing (r, l) = record { ret = r; buf = []; info = none; listing = some l }

  abbrev pub respond : {A : Type 0} → (A → Response E) → M (State E) A → M (State E) (Response E)
  respond f m = do a ← m; pure (f a)

-- The path that the operation shows to the fault injection.
module _ {E : Env} where
  unfoldable pub path_of : Request E → Str
  path_of (fuse_getattr path _) = path
  path_of (fuse_readlink path _ _) = path
  path_of (fuse_mknod path _ _) = path
  path_of (fuse_mkdir path _) = path
  path_of (fuse_unlink path) = path
  path_of (fuse_rmdir path) = path
  path_of (fuse_symlink target _) = target
  path_of (fuse_rename oldpath _) = oldpath
  path_of (fuse_link oldpath _) = oldpath
  path_of (fuse_chmod path _) = path
  path_of (fuse_chown path _ _) = path
  path_of (fuse_truncate path _) = path
  path_of (fuse_open path _) = path
  path_of (fuse_read path _ _ _ _) = path
  path_of (fuse_write path _ _ _) = path
  path_of (fuse_statfs path _) = path
  path_of (fuse_flush path _) = path
  path_of (fuse_release path _) = path
  path_of (fuse_fsync path _ _) = path
  path_of (fuse_setxattr path _ _ _) = path
  path_of (fuse_getxattr path _ _ _) = path
  path_of (fuse_listxattr path _ _) = path
  path_of (fuse_removexattr path _) = path
  path_of (fuse_opendir path _) = path
  path_of (fuse_readdir path _) = path
  path_of (fuse_releasedir path _) = path
  path_of (fuse_fsyncdir path _ _) = path
  path_of (fuse_access path _) = path
  path_of (fuse_create path _ _) = path
  path_of (fuse_ftruncate path _ _) = path
  path_of (fuse_fgetattr path _ _) = path
  path_of (fuse_lock path _ _ _) = path
  path_of (fuse_ioctl path _ _ _) = path
  path_of (fuse_flock path _ _) = path
  path_of (fuse_fallocate path _ _ _ _) = path
  path_of (fuse_utimens path _) = path

  -- The operation under which the fault injection knows the request.
  unfoldable pub op_of : Request E → FuseOp
  op_of (fuse_getattr _ _) = op_getattr
  op_of (fuse_readlink _ _ _) = op_readlink
  op_of (fuse_mknod _ _ _) = op_mknod
  op_of (fuse_mkdir _ _) = op_mkdir
  op_of (fuse_unlink _) = op_unlink
  op_of (fuse_rmdir _) = op_rmdir
  op_of (fuse_symlink _ _) = op_symlink
  op_of (fuse_rename _ _) = op_rename
  op_of (fuse_link _ _) = op_link
  op_of (fuse_chmod _ _) = op_chmod
  op_of (fuse_chown _ _ _) = op_chown
  op_of (fuse_truncate _ _) = op_truncate
  op_of (fuse_open _ _) = op_open
  op_of (fuse_read _ _ _ _ _) = op_read
  op_of (fuse_write _ _ _ _) = op_write
  op_of (fuse_statfs _ _) = op_statfs
  op_of (fuse_flush _ _) = op_flush
  op_of (fuse_release _ _) = op_release
  op_of (fuse_fsync _ _ _) = op_fsync
  op_of (fuse_setxattr _ _ _ _) = op_setxattr
  op_of (fuse_getxattr _ _ _ _) = op_getxattr
  op_of (fuse_listxattr _ _ _) = op_listxattr
  op_of (fuse_removexattr _ _) = op_removexattr
  op_of (fuse_opendir _ _) = op_opendir
  op_of (fuse_readdir _ _) = op_readdir
  op_of (fuse_releasedir _ _) = op_releasedir
  op_of (fuse_fsyncdir _ _ _) = op_fsyncdir
  op_of (fuse_access _ _) = op_access
  op_of (fuse_create _ _ _) = op_creat
  op_of (fuse_ftruncate _ _ _) = op_ftruncate
  op_of (fuse_fgetattr _ _ _) = op_fgetattr
  op_of (fuse_lock _ _ _ _) = op_lock
  op_of (fuse_ioctl _ _ _ _) = op_ioctl
  op_of (fuse_flock _ _ _) = op_flock
  op_of (fuse_fallocate _ _ _ _ _) = op_fallocate
  op_of (fuse_utimens _ _) = op_utimens
