-- ===== src/Errno/Macosx.antt =====
-- The arrays of unreliablefs/unreliablefs_errno_macosx.h, in the order of the file.
use afs_cs.Base.{List, [], ◌∷◌, Option, none, some}
use afs_cs.Errno.{
  Errno, e2big, eacces, eagain, ebadf, ebusy, econnreset, edeadlk, edquot, eexist, efault, efbig,
  eintr, einval, eio, eisdir, eloop, emfile, emlink, enametoolong, enetdown, enetunreach, enfile,
  enoattr, enobufs, enoent, enolck, enomem, enospc, enotconn, enotdir, enotempty, enotsup, enotty,
  enxio, eopnotsupp, eoverflow, eperm, epipe, erange, erofs, esrch, etimedout, etxtbsy, ewouldblock,
  exdev, ErrnoArray, errno_access, errno_chmod, errno_creat, errno_ftruncate, errno_link,
  errno_mkdir, errno_mknod, errno_opendir, errno_readdir, errno_read, errno_readlink, errno_rename,
  errno_rmdir, errno_symlink, errno_truncate, errno_unlink, errno_write, errno_lstat, errno_statfs,
  errno_close, errno_utimensat, errno_fsync, errno_setxattr, errno_getxattr, errno_listxattr,
  errno_removexattr, errno_flock, errno_ioctl, errno_fcntl,
}

abbrev macosx_access : List Errno
macosx_access =
    eacces ∷ efault ∷ einval ∷ eio ∷ eloop ∷ enametoolong ∷ enoent ∷ enotdir ∷ erofs ∷ etxtbsy ∷ []

abbrev macosx_chmod : List Errno
macosx_chmod =
    eacces ∷ efault ∷ eintr ∷ eio ∷ eloop ∷ enametoolong ∷ enoent ∷ enotdir ∷ eperm ∷ erofs ∷ []

abbrev macosx_creat : List Errno
macosx_creat =
    eacces ∷ eagain ∷ edquot ∷ eexist ∷ efault ∷ eintr ∷ einval ∷ eio ∷ eisdir ∷ eloop ∷ emfile
    ∷ enametoolong ∷ enfile ∷ enoent ∷ enospc ∷ enotdir ∷ enxio ∷ eopnotsupp ∷ eoverflow ∷ erofs
    ∷ etxtbsy ∷ []

abbrev macosx_ftruncate : List Errno
macosx_ftruncate = ebadf ∷ efbig ∷ eintr ∷ einval ∷ eio ∷ erofs ∷ []

abbrev macosx_link : List Errno
macosx_link =
    eacces ∷ edquot ∷ eexist ∷ efault ∷ eio ∷ eloop ∷ emlink ∷ enametoolong ∷ enoent ∷ enospc
    ∷ enotdir ∷ eperm ∷ erofs ∷ exdev ∷ []

abbrev macosx_mkdir : List Errno
macosx_mkdir =
    eacces ∷ edquot ∷ eexist ∷ efault ∷ eio ∷ eloop ∷ emlink ∷ enametoolong ∷ enoent ∷ enospc
    ∷ enotdir ∷ erofs ∷ []

abbrev macosx_mknod : List Errno
macosx_mknod =
    eacces ∷ edquot ∷ eexist ∷ efault ∷ einval ∷ eio ∷ eloop ∷ enametoolong ∷ enoent ∷ enospc
    ∷ enotdir ∷ eperm ∷ erofs ∷ []

abbrev macosx_opendir : List Errno
macosx_opendir = []

abbrev macosx_readdir : List Errno
macosx_readdir = []

abbrev macosx_read : List Errno
macosx_read =
    eagain ∷ ebadf ∷ econnreset ∷ efault ∷ eintr ∷ einval ∷ eio ∷ eisdir ∷ enobufs ∷ enomem
    ∷ enotconn ∷ enxio ∷ etimedout ∷ []

abbrev macosx_readlink : List Errno
macosx_readlink = eacces ∷ efault ∷ einval ∷ eio ∷ eloop ∷ enametoolong ∷ enoent ∷ enotdir ∷ []

abbrev macosx_rename : List Errno
macosx_rename =
    eacces ∷ edquot ∷ efault ∷ einval ∷ eio ∷ eisdir ∷ eloop ∷ enametoolong ∷ enoent ∷ enospc
    ∷ enotdir ∷ enotempty ∷ eperm ∷ erofs ∷ exdev ∷ []

abbrev macosx_rmdir : List Errno
macosx_rmdir =
    eacces ∷ ebusy ∷ efault ∷ eio ∷ eloop ∷ enametoolong ∷ enoent ∷ enotdir ∷ enotempty ∷ eperm
    ∷ erofs ∷ []

abbrev macosx_symlink : List Errno
macosx_symlink =
    eacces ∷ edquot ∷ eexist ∷ efault ∷ eio ∷ eloop ∷ enametoolong ∷ enoent ∷ enospc ∷ enotdir
    ∷ erofs ∷ []

abbrev macosx_truncate : List Errno
macosx_truncate =
    eacces ∷ efault ∷ efbig ∷ eintr ∷ einval ∷ eio ∷ eisdir ∷ eloop ∷ enametoolong ∷ enoent
    ∷ enotdir ∷ erofs ∷ etxtbsy ∷ []

abbrev macosx_unlink : List Errno
macosx_unlink =
    eacces ∷ ebusy ∷ efault ∷ eio ∷ eloop ∷ enametoolong ∷ enoent ∷ enotdir ∷ eperm ∷ erofs ∷ []

abbrev macosx_write : List Errno
macosx_write =
    eagain ∷ ebadf ∷ econnreset ∷ edquot ∷ efault ∷ efbig ∷ eintr ∷ einval ∷ eio ∷ enetdown
    ∷ enetunreach ∷ enospc ∷ enxio ∷ epipe ∷ ewouldblock ∷ []

abbrev macosx_lstat : List Errno
macosx_lstat = eacces ∷ efault ∷ eio ∷ eloop ∷ enametoolong ∷ enoent ∷ enotdir ∷ eoverflow ∷ []

abbrev macosx_statfs : List Errno
macosx_statfs = eacces ∷ efault ∷ eio ∷ eloop ∷ enametoolong ∷ enoent ∷ enotdir ∷ []

abbrev macosx_close : List Errno
macosx_close = ebadf ∷ eintr ∷ eio ∷ []

abbrev macosx_utimensat : List Errno
macosx_utimensat =
    eacces ∷ ebadf ∷ efault ∷ einval ∷ eio ∷ eloop ∷ enametoolong ∷ enoent ∷ enotdir ∷ eperm ∷ erofs
    ∷ esrch ∷ []

abbrev macosx_fsync : List Errno
macosx_fsync = ebadf ∷ eintr ∷ einval ∷ eio ∷ []

abbrev macosx_setxattr : List Errno
macosx_setxattr =
    e2big ∷ eacces ∷ eexist ∷ efault ∷ einval ∷ eio ∷ eloop ∷ enametoolong ∷ enoattr ∷ enospc
    ∷ enotdir ∷ enotsup ∷ eperm ∷ erange ∷ erofs ∷ []

abbrev macosx_getxattr : List Errno
macosx_getxattr =
    eacces ∷ efault ∷ einval ∷ eio ∷ eisdir ∷ eloop ∷ enametoolong ∷ enoattr ∷ enotdir ∷ enotsup
    ∷ eperm ∷ erange ∷ []

abbrev macosx_listxattr : List Errno
macosx_listxattr =
    eacces ∷ efault ∷ einval ∷ eio ∷ eloop ∷ enametoolong ∷ enotdir ∷ enotsup ∷ eperm ∷ erange ∷ []

abbrev macosx_removexattr : List Errno
macosx_removexattr =
    eacces ∷ efault ∷ einval ∷ eio ∷ eloop ∷ enametoolong ∷ enoattr ∷ enotdir ∷ enotsup ∷ eperm
    ∷ erofs ∷ []

abbrev macosx_flock : List Errno
macosx_flock = ebadf ∷ einval ∷ enotsup ∷ ewouldblock ∷ []

abbrev macosx_ioctl : List Errno
macosx_ioctl = ebadf ∷ einval ∷ enotty ∷ []

abbrev macosx_fcntl : List Errno
macosx_fcntl = eacces ∷ ebadf ∷ edeadlk ∷ eintr ∷ einval ∷ emfile ∷ enolck ∷ eoverflow ∷ esrch ∷ []

-- The array that the header defines under each name, if it does.
unfoldable pub errno_macosx : ErrnoArray → Option (List Errno)
errno_macosx errno_access = some macosx_access
errno_macosx errno_chmod = some macosx_chmod
errno_macosx errno_creat = some macosx_creat
errno_macosx errno_ftruncate = some macosx_ftruncate
errno_macosx errno_link = some macosx_link
errno_macosx errno_mkdir = some macosx_mkdir
errno_macosx errno_mknod = some macosx_mknod
errno_macosx errno_opendir = some macosx_opendir
errno_macosx errno_readdir = some macosx_readdir
errno_macosx errno_read = some macosx_read
errno_macosx errno_readlink = some macosx_readlink
errno_macosx errno_rename = some macosx_rename
errno_macosx errno_rmdir = some macosx_rmdir
errno_macosx errno_symlink = some macosx_symlink
errno_macosx errno_truncate = some macosx_truncate
errno_macosx errno_unlink = some macosx_unlink
errno_macosx errno_write = some macosx_write
errno_macosx errno_lstat = some macosx_lstat
errno_macosx errno_statfs = some macosx_statfs
errno_macosx errno_close = some macosx_close
errno_macosx errno_utimensat = some macosx_utimensat
errno_macosx errno_fsync = some macosx_fsync
errno_macosx errno_setxattr = some macosx_setxattr
errno_macosx errno_getxattr = some macosx_getxattr
errno_macosx errno_listxattr = some macosx_listxattr
errno_macosx errno_removexattr = some macosx_removexattr
errno_macosx errno_flock = some macosx_flock
errno_macosx errno_ioctl = some macosx_ioctl
errno_macosx errno_fcntl = some macosx_fcntl
errno_macosx _ = none
