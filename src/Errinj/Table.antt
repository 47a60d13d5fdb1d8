-- ===== src/Errinj/Table.antt =====
-- The `switch` of `op_random_errno` in unreliablefs/unreliablefs_errinj.c: the array from which
-- each operation draws its errors. An operation that the build leaves out has no case.
use afs_cs.Base.{Option, none, some, if◌then◌else◌}
use afs_cs.Errno.{
  ErrnoArray, errno_access, errno_chmod, errno_close, errno_creat, errno_fallocate, errno_fcntl,
  errno_flock, errno_fsync, errno_ftruncate, errno_getxattr, errno_ioctl, errno_link,
  errno_listxattr, errno_lstat, errno_mkdir, errno_mknod, errno_opendir, errno_read, errno_readdir,
  errno_readlink, errno_removexattr, errno_rename, errno_rmdir, errno_setxattr, errno_statfs,
  errno_symlink, errno_truncate, errno_unlink, errno_utimensat, errno_write,
}
use afs_cs.Build.{
  Build, FuseOp, op_lstat, op_getattr, op_readlink, op_mknod, op_mkdir, op_unlink, op_rmdir,
  op_symlink, op_rename, op_link, op_chmod, op_chown, op_truncate, op_open, op_read, op_write,
  op_statfs, op_flush, op_release, op_fsync, op_setxattr, op_getxattr, op_listxattr, op_removexattr,
  op_opendir, op_readdir, op_releasedir, op_fsyncdir, op_access, op_creat, op_ftruncate,
  op_fgetattr, op_lock, op_ioctl, op_flock, op_fallocate, op_utimens,
}

unfoldable pub errno_case : Build → FuseOp → Option ErrnoArray
errno_case b op_lstat = some errno_lstat
errno_case b op_getattr = some errno_lstat
errno_case b op_readlink = some errno_readlink
errno_case b op_mknod = some errno_mknod
errno_case b op_mkdir = some errno_mkdir
errno_case b op_unlink = some errno_unlink
errno_case b op_rmdir = some errno_rmdir
errno_case b op_symlink = some errno_symlink
errno_case b op_rename = some errno_rename
errno_case b op_link = some errno_link
errno_case b op_chmod = some errno_chmod
errno_case b op_chown = some errno_chmod
errno_case b op_truncate = some errno_truncate
errno_case b op_open = some errno_creat
errno_case b op_read = some errno_read
errno_case b op_write = some errno_write
errno_case b op_statfs = some errno_statfs
errno_case b op_flush = some errno_close
errno_case b op_release = some errno_close
errno_case b op_fsync = some errno_fsync
errno_case b op_setxattr = if b.have_xattr then some errno_setxattr else none
errno_case b op_getxattr = if b.have_xattr then some errno_getxattr else none
errno_case b op_listxattr = if b.have_xattr then some errno_listxattr else none
errno_case b op_removexattr = if b.have_xattr then some errno_removexattr else none
errno_case b op_opendir = some errno_opendir
errno_case b op_readdir = some errno_readdir
errno_case b op_releasedir = some errno_close
errno_case b op_fsyncdir = some errno_fsync
errno_case b op_access = some errno_access
errno_case b op_creat = some errno_creat
errno_case b op_ftruncate = some errno_ftruncate
errno_case b op_fgetattr = some errno_lstat
errno_case b op_lock = some errno_fcntl
errno_case b op_ioctl = if b.openbsd then none else some errno_ioctl
errno_case b op_flock = if b.have_flock then some errno_flock else none
errno_case b op_fallocate = if b.have_fallocate then some errno_fallocate else none
errno_case b op_utimens = if b.have_utimensat then some errno_utimensat else none
