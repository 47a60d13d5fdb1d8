-- ===== src/Ops/Passthrough.antt =====
-- What each operation is without fault injection: the system calls that it passes on. And what a
-- request is answered if fault injection settles it.
use afs_cs.Base.{ℤ, pos}
use afs_cs.Base.Run.{M}
use afs_cs.System.{Env, State}
use afs_cs.System.Kernel.{
  sys_access, sys_chmod, sys_chown, sys_close, sys_closedir, sys_fcntl, sys_flock, sys_fstat,
  sys_ioctl, sys_link, sys_mkdir, sys_mknod, sys_open, sys_open_mode, sys_rename, sys_rmdir,
  sys_statvfs, sys_symlink, sys_truncate, sys_unlink, sys_utimensat,
}
use afs_cs.Ops.{status, status_negative, filled}
use afs_cs.Ops.Paths.{lstat_body, readlink_body, at_symlink_nofollow}
use afs_cs.Ops.Files.{
  open_into, read_body, write_body, flush_body, fallocate_body, descriptor, sync_call,
}
use afs_cs.Ops.Xattrs.{setxattr_call, getxattr_call, listxattr_call, removexattr_call}
use afs_cs.Ops.Dirs.{opendir_body, readdir_body, fsyncdir_body}
use afs_cs.Ops.Requests.{
  Request, Response, respond, just_ret, with_buf, with_info, with_listing, fuse_getattr,
  fuse_readlink, fuse_mknod, fuse_mkdir, fuse_unlink, fuse_rmdir, fuse_symlink, fuse_rename,
  fuse_link, fuse_chmod, fuse_chown, fuse_truncate, fuse_open, fuse_read, fuse_write, fuse_statfs,
  fuse_flush, fuse_release, fuse_fsync, fuse_setxattr, fuse_getxattr, fuse_listxattr,
  fuse_removexattr, fuse_opendir, fuse_readdir, fuse_releasedir, fuse_fsyncdir, fuse_access,
  fuse_create, fuse_ftruncate, fuse_fgetattr, fuse_lock, fuse_ioctl, fuse_flock, fuse_fallocate,
  fuse_utimens,
}

module _ (E : Env) where
  -- The request on the underlying file system.
  unfoldable pub passthrough : Request E → M (State E) (Response E)
  passthrough (fuse_getattr path buf) = respond E (with_buf E) (lstat_body E path buf)
  passthrough (fuse_readlink path buf bufsiz) =
      respond E (with_buf E) (readlink_body E path buf bufsiz)
  passthrough (fuse_mknod path mode dev) =
      respond E (just_ret E) (status E (sys_mknod path mode dev))
  passthrough (fuse_mkdir path mode) = respond E (just_ret E) (status E (sys_mkdir path mode))
  passthrough (fuse_unlink path) = respond E (just_ret E) (status E (sys_unlink path))
  passthrough (fuse_rmdir path) = respond E (just_ret E) (status E (sys_rmdir path))
  passthrough (fuse_symlink target linkpath) =
      respond E (just_ret E) (status E (sys_symlink target linkpath))
  passthrough (fuse_rename oldpath newpath) =
      respond E (just_ret E) (status E (sys_rename oldpath newpath))
  passthrough (fuse_link oldpath newpath) =
      respond E (just_ret E) (status_negative E (sys_link oldpath newpath))
  passthrough (fuse_chmod path mode) =
      respond E (just_ret E) (status_negative E (sys_chmod path mode))
  passthrough (fuse_chown path owner group) =
      respond E (just_ret E) (status E (sys_chown path owner group))
  passthrough (fuse_truncate path len) = respond E (just_ret E) (status E (sys_truncate path len))
  passthrough (fuse_open path fi) =
      respond E (with_info E) (open_into E fi (sys_open path fi.flags))
  passthrough (fuse_read path buf size offset fi) =
      respond E (with_buf E) (read_body E path buf size offset fi)
  passthrough (fuse_write path buf offset fi) =
      respond E (just_ret E) (write_body E path buf offset fi)
  passthrough (fuse_statfs path buf) =
      respond E (with_buf E) (filled E (λ _. pos 0) buf (sys_statvfs path))
  passthrough (fuse_flush _ fi) = respond E (just_ret E) (flush_body E fi)
  passthrough (fuse_release _ fi) = respond E (just_ret E) (status E (sys_close (descriptor fi)))
  passthrough (fuse_fsync _ datasync fi) =
      respond E (just_ret E) (status E (sync_call datasync (descriptor fi)))
  passthrough (fuse_setxattr path name value flags) =
      respond E (just_ret E) (status E (setxattr_call E path name value flags))
  passthrough (fuse_getxattr path name value size) =
      respond E (with_buf E) (filled E (λ _. pos 0) value (getxattr_call E path name size))
  passthrough (fuse_listxattr path list size) =
      respond E (with_buf E) (filled E (λ n. n) list (listxattr_call E path size))
  passthrough (fuse_removexattr path name) =
      respond E (just_ret E) (status E (removexattr_call E path name))
  passthrough (fuse_opendir path fi) = respond E (with_info E) (opendir_body E path fi)
  passthrough (fuse_readdir path dirbuf) = respond E (with_listing E) (readdir_body E path dirbuf)
  passthrough (fuse_releasedir _ fi) = respond E (just_ret E) (status E (sys_closedir (pos fi.fh)))
  passthrough (fuse_fsyncdir path datasync _) =
      respond E (just_ret E) (fsyncdir_body E path datasync)
  passthrough (fuse_access path mode) = respond E (just_ret E) (status E (sys_access path mode))
  passthrough (fuse_create path mode fi) =
      respond E (with_info E) (open_into E fi (sys_open_mode path fi.flags mode))
  passthrough (fuse_ftruncate path len _) =
      respond E (just_ret E) (status E (sys_truncate path len))
  passthrough (fuse_fgetattr _ buf fi) =
      respond E (with_buf E) (filled E (λ _. pos 0) buf (sys_fstat (descriptor fi)))
  passthrough (fuse_lock _ fi cmd fl) =
      respond E (with_buf E) (filled E (λ _. pos 0) fl (sys_fcntl (descriptor fi) cmd fl))
  passthrough (fuse_ioctl _ cmd arg fi) =
      respond E (with_buf E) (filled E (λ n. n) arg (sys_ioctl (descriptor fi) cmd arg))
  passthrough (fuse_flock _ fi op) =
      respond E (just_ret E) (status E (sys_flock (descriptor fi) op))
  passthrough (fuse_fallocate path mode offset len fi) =
      respond E (just_ret E) (fallocate_body E path mode offset len fi)
  passthrough (fuse_utimens path ts) =
      respond E (just_ret E) (status E (sys_utimensat (pos 0) path ts at_symlink_nofollow))

  -- The answer `ret` with every buffer and handle as it was handed over.
  unfoldable pub early : Request E → ℤ → Response E
  early (fuse_getattr _ buf) ret = with_buf E (ret, buf)
  early (fuse_readlink _ buf _) ret = with_buf E (ret, buf)
  early (fuse_mknod _ _ _) ret = just_ret E ret
  early (fuse_mkdir _ _) ret = just_ret E ret
  early (fuse_unlink _) ret = just_ret E ret
  early (fuse_rmdir _) ret = just_ret E ret
  early (fuse_symlink _ _) ret = just_ret E ret
  early (fuse_rename _ _) ret = just_ret E ret
  early (fuse_link _ _) ret = just_ret E ret
  early (fuse_chmod _ _) ret = just_ret E ret
  early (fuse_chown _ _ _) ret = just_ret E ret
  early (fuse_truncate _ _) ret = just_ret E ret
  early (fuse_open _ fi) ret = with_info E (ret, fi)
  early (fuse_read _ buf _ _ _) ret = with_buf E (ret, buf)
  early (fuse_write _ _ _ _) ret = just_ret E ret
  early (fuse_statfs _ buf) ret = with_buf E (ret, buf)
  early (fuse_flush _ _) ret = just_ret E ret
  early (fuse_release _ _) ret = just_ret E ret
  early (fuse_fsync _ _ _) ret = just_ret E ret
  early (fuse_setxattr _ _ _ _) ret = just_ret E ret
  early (fuse_getxattr _ _ value _) ret = with_buf E (ret, value)
  early (fuse_listxattr _ list _) ret = with_buf E (ret, list)
  early (fuse_removexattr _ _) ret = just_ret E ret
  early (fuse_opendir _ fi) ret = with_info E (ret, fi)
  early (fuse_readdir _ dirbuf) ret = with_listing E (ret, dirbuf)
  early (fuse_releasedir _ _) ret = just_ret E ret
  early (fuse_fsyncdir _ _ _) ret = just_ret E ret
  early (fuse_access _ _) ret = just_ret E ret
  early (fuse_create _ _ fi) ret = with_info E (ret, fi)
  early (fuse_ftruncate _ _ _) ret = just_ret E ret
  early (fuse_fgetattr _ buf _) ret = with_buf E (ret, buf)
  early (fuse_lock _ _ _ fl) ret = with_buf E (ret, fl)
  early (fuse_ioctl _ _ arg _) ret = with_buf E (ret, arg)
  early (fuse_flock _ _ _) ret = just_ret E ret
  early (fuse_fallocate _ _ _ _ _) ret = just_ret E ret
  early (fuse_utimens _ _) ret = just_ret E ret
