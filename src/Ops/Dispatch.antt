-- ===== src/Ops/Dispatch.antt =====
-- The table `unreliable_ops` of unreliablefs/unreliablefs.c: the operation that serves each request
-- of the kernel.
use afs_cs.Base.Run.{M}
use afs_cs.System.{Env, State}
use afs_cs.Ops.Paths.{
  unreliable_getattr, unreliable_readlink, unreliable_mknod, unreliable_mkdir, unreliable_unlink,
  unreliable_rmdir, unreliable_symlink, unreliable_rename, unreliable_link, unreliable_chmod,
  unreliable_chown, unreliable_truncate, unreliable_statfs, unreliable_access, unreliable_utimens,
}
use afs_cs.Ops.Files.{
  unreliable_open, unreliable_create, unreliable_read, unreliable_write, unreliable_flush,
  unreliable_release, unreliable_fsync, unreliable_ftruncate, unreliable_fgetattr, unreliable_lock,
  unreliable_ioctl, unreliable_flock, unreliable_fallocate,
}
use afs_cs.Ops.Xattrs.{
  unreliable_setxattr, unreliable_getxattr, unreliable_listxattr, unreliable_removexattr,
}
use afs_cs.Ops.Dirs.{
  unreliable_opendir, unreliable_readdir, unreliable_releasedir, unreliable_fsyncdir,
}
use afs_cs.Ops.Requests.{
  Request, Response, respond, just_ret, with_buf, with_info, with_listing, fuse_getattr,
  fuse_readlink, fuse_mknod, fuse_mkdir, fuse_unlink, fuse_rmdir, fuse_symlink, fuse_rename,
  fuse_link, fuse_chmod, fuse_chown, fuse_truncate, fuse_open, fuse_read, fuse_write, fuse_statfs,
  fuse_flush, fuse_release, fuse_fsync, fuse_setxattr, fuse_getxattr, fuse_listxattr,
  fuse_removexattr, fuse_opendir, fuse_readdir, fuse_releasedir, fuse_fsyncdir, fuse_access,
  fuse_create, fuse_ftruncate, fuse_fgetattr, fuse_lock, fuse_ioctl, fuse_flock, fuse_fallocate,
  fuse_utimens,
}

module _ (E : Env) where
  unfoldable pub dispatch : Request E → M (State E) (Response E)
  unfolding unreliable_getattr unreliable_readlink unreliable_mknod unreliable_mkdir
      unreliable_unlink unreliable_rmdir unreliable_symlink unreliable_rename unreliable_link
      unreliable_chmod unreliable_chown unreliable_truncate unreliable_open unreliable_read
      unreliable_write unreliable_statfs unreliable_flush unreliable_release unreliable_fsync
      unreliable_setxattr unreliable_getxattr unreliable_listxattr unreliable_removexattr
      unreliable_opendir unreliable_readdir unreliable_releasedir unreliable_fsyncdir
      unreliable_access unreliable_create unreliable_ftruncate unreliable_fgetattr unreliable_lock
      unreliable_ioctl unreliable_flock unreliable_fallocate unreliable_utimens
  dispatch (fuse_getattr path buf) = respond E (with_buf E) (unreliable_getattr E path buf)
  dispatch (fuse_readlink path buf bufsiz) =
      respond E (with_buf E) (unreliable_readlink E path buf bufsiz)
  dispatch (fuse_mknod path mode dev) = respond E (just_ret E) (unreliable_mknod E path mode dev)
  dispatch (fuse_mkdir path mode) = respond E (just_ret E) (unreliable_mkdir E path mode)
  dispatch (fuse_unlink path) = respond E (just_ret E) (unreliable_unlink E path)
  dispatch (fuse_rmdir path) = respond E (just_ret E) (unreliable_rmdir E path)
  dispatch (fuse_symlink target linkpath) =
      respond E (just_ret E) (unreliable_symlink E target linkpath)
  dispatch (fuse_rename oldpath newpath) =
      respond E (just_ret E) (unreliable_rename E oldpath newpath)
  dispatch (fuse_link oldpath newpath) = respond E (just_ret E) (unreliable_link E oldpath newpath)
  dispatch (fuse_chmod path mode) = respond E (just_ret E) (unreliable_chmod E path mode)
  dispatch (fuse_chown path owner group) =
      respond E (just_ret E) (unreliable_chown E path owner group)
  dispatch (fuse_truncate path len) = respond E (just_ret E) (unreliable_truncate E path len)
  dispatch (fuse_open path fi) = respond E (with_info E) (unreliable_open E path fi)
  dispatch (fuse_read path buf size offset fi) =
      respond E (with_buf E) (unreliable_read E path buf size offset fi)
  dispatch (fuse_write path buf offset fi) =
      respond E (just_ret E) (unreliable_write E path buf offset fi)
  dispatch (fuse_statfs path buf) = respond E (with_buf E) (unreliable_statfs E path buf)
  dispatch (fuse_flush path fi) = respond E (just_ret E) (unreliable_flush E path fi)
  dispatch (fuse_release path fi) = respond E (just_ret E) (unreliable_release E path fi)
  dispatch (fuse_fsync path datasync fi) =
      respond E (just_ret E) (unreliable_fsync E path datasync fi)
  dispatch (fuse_setxattr path name value flags) =
      respond E (just_ret E) (unreliable_setxattr E path name value flags)
  dispatch (fuse_getxattr path name value size) =
      respond E (with_buf E) (unreliable_getxattr E path name value size)
  dispatch (fuse_listxattr path list size) =
      respond E (with_buf E) (unreliable_listxattr E path list size)
  dispatch (fuse_removexattr path name) =
      respond E (just_ret E) (unreliable_removexattr E path name)
  dispatch (fuse_opendir path fi) = respond E (with_info E) (unreliable_opendir E path fi)
  dispatch (fuse_readdir path dirbuf) =
      respond E (with_listing E) (unreliable_readdir E path dirbuf)
  dispatch (fuse_releasedir path fi) = respond E (just_ret E) (unreliable_releasedir E path fi)
  dispatch (fuse_fsyncdir path datasync fi) =
      respond E (just_ret E) (unreliable_fsyncdir E path datasync fi)
  dispatch (fuse_access path mode) = respond E (just_ret E) (unreliable_access E path mode)
  dispatch (fuse_create path mode fi) = respond E (with_info E) (unreliable_create E path mode fi)
  dispatch (fuse_ftruncate path len fi) =
      respond E (just_ret E) (unreliable_ftruncate E path len fi)
  dispatch (fuse_fgetattr path buf fi) = respond E (with_buf E) (unreliable_fgetattr E path buf fi)
  dispatch (fuse_lock path fi cmd fl) = respond E (with_buf E) (unreliable_lock E path fi cmd fl)
  dispatch (fuse_ioctl path cmd arg fi) =
      respond E (with_buf E) (unreliable_ioctl E path cmd arg fi)
  dispatch (fuse_flock path fi op) = respond E (just_ret E) (unreliable_flock E path fi op)
  dispatch (fuse_fallocate path mode offset len fi) =
      respond E (just_ret E) (unreliable_fallocate E path mode offset len fi)
  dispatch (fuse_utimens path ts) = respond E (just_ret E) (unreliable_utimens E path ts)
