-- ===== src/Errno/Linux.antt =====
-- The arrays of unreliablefs/unreliablefs_errno_linux.h, in the order of the file.
use afs_cs.Base.{List, [], ◌∷◌}
use afs_cs.Errno.{
  Errno, e2big, eacces, eagain, ebadf, ebusy, edeadlk, edestaddrreq, edquot, eexist, efault, efbig,
  eintr, einval, eio, eisdir, eloop, emfile, emlink, enametoolong, enfile, enodata, enodev, enoent,
  enolck, enomem, enospc, enosys, enotdir, enotempty, enotsup, enotty, enxio, eopnotsupp, eoverflow,
  eperm, epipe, erange, erofs, espipe, esrch, etxtbsy, ewouldblock, exdev, ErrnoArray, errno_access,
  errno_chmod, errno_creat, errno_ftruncate, errno_link, errno_mkdir, errno_mknod, errno_opendir,
  errno_readdir, errno_read, errno_readlink, errno_rename, errno_rmdir, errno_symlink,
  errno_truncate, errno_unlink, errno_write, errno_lstat, errno_statfs, errno_close,
  errno_utimensat, errno_fsync, errno_setxattr, errno_getxattr, errno_listxattr, errno_removexattr,
  errno_flock, errno_fallocate, errno_ioctl, errno_fcntl,
}

-- `errno_access[]`, `errno_chmod[]` and so on.
abbrev linux_access : List Errno
linux_access =
    eacces ∷ eloop ∷ enametoolong ∷ enoent ∷ enotdir ∷ erofs ∷ efault ∷ einval ∷ eio ∷ enomem
    ∷ etxtbsy ∷ []

abbrev linux_chmod : List Errno
linux_chmod =
    eacces ∷ efault ∷ eio ∷ eloop ∷ enametoolong ∷ enoent ∷ enomem ∷ enotdir ∷ eperm ∷ erofs ∷ []

abbrev linux_creat : List Errno
linux_creat =
    eacces ∷ edquot ∷ eexist ∷ efault ∷ efbig ∷ eintr ∷ einval ∷ eisdir ∷ eloop ∷ emfile
    ∷ enametoolong ∷ enfile ∷ enodev ∷ enoent ∷ enomem ∷ enospc ∷ enotdir ∷ enxio ∷ eopnotsupp
    ∷ eoverflow ∷ eperm ∷ erofs ∷ etxtbsy ∷ ewouldblock ∷ []

abbrev linux_ftruncate : List Errno
linux_ftruncate =
    eacces ∷ ebadf ∷ efault ∷ efbig ∷ eintr ∷ einval ∷ eio ∷ eisdir ∷ eloop ∷ enametoolong ∷ enotdir
    ∷ eperm ∷ erofs ∷ etxtbsy ∷ []

abbrev linux_link : List Errno
linux_link =
    eacces ∷ edquot ∷ eexist ∷ efault ∷ eio ∷ eloop ∷ emlink ∷ enametoolong ∷ enoent ∷ enomem
    ∷ enospc ∷ enotdir ∷ eperm ∷ erofs ∷ exdev ∷ []

abbrev linux_mkdir : List Errno
linux_mkdir =
    eacces ∷ edquot ∷ eexist ∷ efault ∷ einval ∷ eloop ∷ emlink ∷ enametoolong ∷ enoent ∷ enomem
    ∷ enospc ∷ enotdir ∷ eperm ∷ erofs ∷ []

abbrev linux_mknod : List Errno
linux_mknod =
    eacces ∷ edquot ∷ eexist ∷ efault ∷ einval ∷ eloop ∷ enametoolong ∷ enoent ∷ enomem ∷ enospc
    ∷ enotdir ∷ eperm ∷ erofs ∷ []

abbrev linux_opendir : List Errno
linux_opendir = eacces ∷ ebadf ∷ emfile ∷ enoent ∷ enomem ∷ enotdir ∷ []

abbrev linux_readdir : List Errno
linux_readdir = ebadf ∷ []

abbrev linux_read : List Errno
linux_read = eagain ∷ ewouldblock ∷ ebadf ∷ efault ∷ eintr ∷ einval ∷ eio ∷ eisdir ∷ []

abbrev linux_readlink : List Errno
linux_readlink =
    eacces ∷ efault ∷ einval ∷ eio ∷ eloop ∷ enametoolong ∷ enoent ∷ enomem ∷ enotdir ∷ []

abbrev linux_rename : List Errno
linux_rename =
    eacces ∷ ebusy ∷ edquot ∷ eexist ∷ efault ∷ einval ∷ eisdir ∷ eloop ∷ emlink ∷ enametoolong
    ∷ enoent ∷ enomem ∷ enospc ∷ enotdir ∷ enotempty ∷ eperm ∷ erofs ∷ []

abbrev linux_rmdir : List Errno
linux_rmdir =
    eacces ∷ ebusy ∷ efault ∷ einval ∷ eloop ∷ enametoolong ∷ enoent ∷ enomem ∷ enotdir ∷ enotempty
    ∷ eperm ∷ erofs ∷ []

abbrev linux_symlink : List Errno
linux_symlink =
    eacces ∷ edquot ∷ eexist ∷ efault ∷ eio ∷ eloop ∷ enametoolong ∷ enoent ∷ enomem ∷ enospc
    ∷ enotdir ∷ eperm ∷ erofs ∷ []

abbrev linux_truncate : List Errno
linux_truncate =
    eacces ∷ efault ∷ efbig ∷ eintr ∷ einval ∷ eio ∷ eisdir ∷ eloop ∷ enametoolong ∷ enoent
    ∷ enotdir ∷ eperm ∷ erofs ∷ etxtbsy ∷ []

abbrev linux_unlink : List Errno
linux_unlink =
    eacces ∷ ebusy ∷ efault ∷ eio ∷ eisdir ∷ eloop ∷ enametoolong ∷ enoent ∷ enomem ∷ enotdir ∷ []

abbrev linux_write : List Errno
linux_write =
    eagain ∷ ewouldblock ∷ ebadf ∷ edestaddrreq ∷ edquot ∷ efault ∷ efbig ∷ eintr ∷ einval ∷ enospc
    ∷ eperm ∷ epipe ∷ []

abbrev linux_lstat : List Errno
linux_lstat =
    eacces ∷ ebadf ∷ efault ∷ einval ∷ eloop ∷ enametoolong ∷ enoent ∷ enomem ∷ enotdir ∷ eoverflow
    ∷ []

abbrev linux_statfs : List Errno
linux_statfs =
    eacces ∷ efault ∷ eintr ∷ eio ∷ eloop ∷ enametoolong ∷ enoent ∷ enomem ∷ enosys ∷ enotdir
    ∷ eoverflow ∷ []

abbrev linux_close : List Errno
linux_close = ebadf ∷ edquot ∷ eintr ∷ eio ∷ enospc ∷ []

abbrev linux_utimensat : List Errno
linux_utimensat =
    eacces ∷ ebadf ∷ efault ∷ einval ∷ eloop ∷ enametoolong ∷ enoent ∷ enotdir ∷ eperm ∷ erofs
    ∷ esrch ∷ []

abbrev linux_fsync : List Errno
linux_fsync = ebadf ∷ edquot ∷ einval ∷ eio ∷ enospc ∷ erofs ∷ []

abbrev linux_setxattr : List Errno
linux_setxattr =
    edquot ∷ eexist ∷ enodata ∷ enospc ∷ enotsup ∷ eperm ∷ erange ∷ eacces ∷ ebadf ∷ efault ∷ eloop
    ∷ enametoolong ∷ enoent ∷ enomem ∷ enotdir ∷ eoverflow ∷ []

abbrev linux_getxattr : List Errno
linux_getxattr =
    e2big ∷ enodata ∷ enotsup ∷ erange ∷ eacces ∷ ebadf ∷ efault ∷ eloop ∷ enametoolong ∷ enoent
    ∷ enomem ∷ enotdir ∷ eoverflow ∷ []

abbrev linux_listxattr : List Errno
linux_listxattr =
    e2big ∷ enotsup ∷ erange ∷ eacces ∷ ebadf ∷ efault ∷ eloop ∷ enametoolong ∷ enoent ∷ enomem
    ∷ enotdir ∷ eoverflow ∷ []

abbrev linux_removexattr : List Errno
linux_removexattr =
    enodata ∷ enotsup ∷ eacces ∷ ebadf ∷ efault ∷ eloop ∷ enametoolong ∷ enoent ∷ enomem ∷ enotdir
    ∷ eoverflow ∷ []

abbrev linux_flock : List Errno
linux_flock = ebadf ∷ eintr ∷ einval ∷ enolck ∷ ewouldblock ∷ []

abbrev linux_fallocate : List Errno
linux_fallocate =
    ebadf ∷ efbig ∷ eintr ∷ einval ∷ eio ∷ enodev ∷ enospc ∷ enosys ∷ eopnotsupp ∷ eperm ∷ espipe
    ∷ etxtbsy ∷ []

abbrev linux_ioctl : List Errno
linux_ioctl = ebadf ∷ efault ∷ einval ∷ enotty ∷ []

abbrev linux_fcntl : List Errno
linux_fcntl =
    eacces ∷ eagain ∷ ebadf ∷ ebusy ∷ edeadlk ∷ efault ∷ eintr ∷ einval ∷ emfile ∷ enolck ∷ enotdir
    ∷ eperm ∷ []

-- The array that the header defines under each name.
unfoldable pub errno_linux : ErrnoArray → List Errno
errno_linux errno_access = linux_access
errno_linux errno_chmod = linux_chmod
errno_linux errno_creat = linux_creat
errno_linux errno_ftruncate = linux_ftruncate
errno_linux errno_link = linux_link
errno_linux errno_mkdir = linux_mkdir
errno_linux errno_mknod = linux_mknod
errno_linux errno_opendir = linux_opendir
errno_linux errno_readdir = linux_readdir
errno_linux errno_read = linux_read
errno_linux errno_readlink = linux_readlink
errno_linux errno_rename = linux_rename
errno_linux errno_rmdir = linux_rmdir
errno_linux errno_symlink = linux_symlink
errno_linux errno_truncate = linux_truncate
errno_linux errno_unlink = linux_unlink
errno_linux errno_write = linux_write
errno_linux errno_lstat = linux_lstat
errno_linux errno_statfs = linux_statfs
errno_linux errno_close = linux_close
errno_linux errno_utimensat = linux_utimensat
errno_linux errno_fsync = linux_fsync
errno_linux errno_setxattr = linux_setxattr
errno_linux errno_getxattr = linux_getxattr
errno_linux errno_listxattr = linux_listxattr
errno_linux errno_removexattr = linux_removexattr
errno_linux errno_flock = linux_flock
errno_linux errno_fallocate = linux_fallocate
errno_linux errno_ioctl = linux_ioctl
errno_linux errno_fcntl = linux_fcntl
