-- ===== src/Errno/Openbsd.antt =====
-- The arrays of unreliablefs/unreliablefs_errno_openbsd.h, in the order of the file.
use afs_cs.Base.{List, [], ◌∷◌, Option, none, some}
use afs_cs.Errno.{
  Errno, eacces, eagain, ebadf, ebusy, edeadlk, edestaddrreq, edquot, eexist, efault, efbig, eintr,
  einval, eio, eisdir, eloop, emfile, emlink, enametoolong, enetdown, enfile, enoent, enolck,
  enomem, enospc, enotconn, enotdir, enotempty, enxio, eopnotsupp, eoverflow, eperm, epipe, erofs,
  esrch, etxtbsy, ewouldblock, exdev, ErrnoArray, errno_access, errno_chmod, errno_creat,
  errno_ftruncate, errno_link, errno_mkdir, errno_mknod, errno_opendir, errno_readdir, errno_read,
  errno_readlink, errno_rename, errno_rmdir, errno_symlink, errno_truncate, errno_unlink,
  errno_write, errno_lstat, errno_statfs, errno_close, errno_utimensat, errno_fsync, errno_flock,
  errno_fcntl,
}

abbrev openbsd_access : List Errno
openbsd_access =
    eacces ∷ efault ∷ einval ∷ eio ∷ eloop ∷ enametoolong ∷ enoent ∷ enotdir ∷ eperm ∷ erofs
    ∷ etxtbsy ∷ []

abbrev openbsd_chmod : List Errno
openbsd_chmod =
    eacces ∷ efault ∷ einval ∷ eio ∷ eloop ∷ enametoolong ∷ enoent ∷ enotdir ∷ eperm ∷ erofs ∷ []

abbrev openbsd_creat : List Errno
openbsd_creat =
    eacces ∷ ebusy ∷ edquot ∷ eexist ∷ efault ∷ eintr ∷ einval ∷ eio ∷ eisdir ∷ eloop ∷ emfile
    ∷ enametoolong ∷ enfile ∷ enoent ∷ enospc ∷ enotdir ∷ enxio ∷ eopnotsupp ∷ eperm ∷ erofs
    ∷ etxtbsy ∷ ewouldblock ∷ []

abbrev openbsd_ftruncate : List Errno
openbsd_ftruncate = ebadf ∷ efbig ∷ einval ∷ eio ∷ []

abbrev openbsd_link : List Errno
openbsd_link =
    eacces ∷ edquot ∷ eexist ∷ efault ∷ eio ∷ eloop ∷ emlink ∷ enametoolong ∷ enoent ∷ enospc
    ∷ enotdir ∷ eopnotsupp ∷ eperm ∷ erofs ∷ exdev ∷ []

abbrev openbsd_mkdir : List Errno
openbsd_mkdir =
    eacces ∷ edquot ∷ eexist ∷ efault ∷ eio ∷ eloop ∷ enametoolong ∷ enoent ∷ enospc ∷ enotdir
    ∷ erofs ∷ []

abbrev openbsd_mknod : List Errno
openbsd_mknod =
    eacces ∷ edquot ∷ eexist ∷ efault ∷ einval ∷ eio ∷ eloop ∷ enametoolong ∷ enoent ∷ enospc
    ∷ enotdir ∷ eperm ∷ erofs ∷ []

abbrev openbsd_opendir : List Errno
openbsd_opendir =
    enotdir ∷ eagain ∷ ebadf ∷ edeadlk ∷ eintr ∷ einval ∷ emfile ∷ enolck ∷ eoverflow ∷ esrch
    ∷ ebadf ∷ efault ∷ eio ∷ eacces ∷ ebusy ∷ edquot ∷ eexist ∷ efault ∷ eintr ∷ einval ∷ eio
    ∷ eisdir ∷ eloop ∷ emfile ∷ enametoolong ∷ enfile ∷ enoent ∷ enospc ∷ enotdir ∷ enxio
    ∷ eopnotsupp ∷ eperm ∷ erofs ∷ etxtbsy ∷ ewouldblock ∷ enomem ∷ []

abbrev openbsd_readdir : List Errno
openbsd_readdir = ebadf ∷ efault ∷ einval ∷ eio ∷ []

abbrev openbsd_read : List Errno
openbsd_read = eagain ∷ ebadf ∷ efault ∷ eintr ∷ einval ∷ eio ∷ eisdir ∷ enotconn ∷ []

abbrev openbsd_readlink : List Errno
openbsd_readlink = eacces ∷ efault ∷ einval ∷ eio ∷ eloop ∷ enametoolong ∷ enoent ∷ enotdir ∷ []

abbrev openbsd_rename : List Errno
openbsd_rename =
    eacces ∷ edquot ∷ efault ∷ einval ∷ eio ∷ eisdir ∷ eloop ∷ emlink ∷ enametoolong ∷ enoent
    ∷ enospc ∷ enotdir ∷ enotempty ∷ eperm ∷ erofs ∷ exdev ∷ []

abbrev openbsd_rmdir : List Errno
openbsd_rmdir =
    eacces ∷ ebusy ∷ efault ∷ einval ∷ eio ∷ eloop ∷ enametoolong ∷ enoent ∷ enotdir ∷ enotempty
    ∷ eperm ∷ erofs ∷ []

abbrev openbsd_symlink : List Errno
openbsd_symlink =
    eacces ∷ edquot ∷ eexist ∷ efault ∷ eio ∷ eloop ∷ enametoolong ∷ enoent ∷ enospc ∷ enotdir
    ∷ erofs ∷ []

abbrev openbsd_truncate : List Errno
openbsd_truncate =
    eacces ∷ efault ∷ efbig ∷ einval ∷ eio ∷ eisdir ∷ eloop ∷ enametoolong ∷ enoent ∷ enotdir
    ∷ erofs ∷ etxtbsy ∷ []

abbrev openbsd_unlink : List Errno
openbsd_unlink =
    eacces ∷ ebusy ∷ efault ∷ eio ∷ eloop ∷ enametoolong ∷ enoent ∷ enotdir ∷ eperm ∷ erofs ∷ []

abbrev openbsd_write : List Errno
openbsd_write =
    eagain ∷ ebadf ∷ edestaddrreq ∷ edquot ∷ efault ∷ efbig ∷ eintr ∷ einval ∷ eio ∷ enetdown
    ∷ enospc ∷ epipe ∷ []

abbrev openbsd_lstat : List Errno
openbsd_lstat = eacces ∷ efault ∷ eio ∷ eloop ∷ enametoolong ∷ enoent ∷ enotdir ∷ []

abbrev openbsd_statfs : List Errno
openbsd_statfs = eacces ∷ efault ∷ eio ∷ eloop ∷ enametoolong ∷ enoent ∷ enotdir ∷ []

abbrev openbsd_close : List Errno
openbsd_close = ebadf ∷ eintr ∷ eio ∷ []

abbrev openbsd_utimensat : List Errno
openbsd_utimensat =
    eacces ∷ ebadf ∷ efault ∷ einval ∷ eio ∷ eloop ∷ enametoolong ∷ enoent ∷ enotdir ∷ eperm ∷ erofs
    ∷ []

abbrev openbsd_fsync : List Errno
openbsd_fsync = ebadf ∷ einval ∷ eio ∷ []

abbrev openbsd_flock : List Errno
openbsd_flock = ebadf ∷ einval ∷ eopnotsupp ∷ ewouldblock ∷ []

abbrev openbsd_fcntl : List Errno
openbsd_fcntl = eagain ∷ ebadf ∷ edeadlk ∷ eintr ∷ einval ∷ emfile ∷ enolck ∷ eoverflow ∷ esrch ∷ []

-- The array that the header defines under each name, if it does.
unfoldable pub errno_openbsd : ErrnoArray → Option (List Errno)
errno_openbsd errno_access = some openbsd_access
errno_openbsd errno_chmod = some openbsd_chmod
errno_openbsd errno_creat = some openbsd_creat
errno_openbsd errno_ftruncate = some openbsd_ftruncate
errno_openbsd errno_link = some openbsd_link
errno_openbsd errno_mkdir = some openbsd_mkdir
errno_openbsd errno_mknod = some openbsd_mknod
errno_openbsd errno_opendir = some openbsd_opendir
errno_openbsd errno_readdir = some openbsd_readdir
errno_openbsd errno_read = some openbsd_read
errno_openbsd errno_readlink = some openbsd_readlink
errno_openbsd errno_rename = some openbsd_rename
errno_openbsd errno_rmdir = some openbsd_rmdir
errno_openbsd errno_symlink = some openbsd_symlink
errno_openbsd errno_truncate = some openbsd_truncate
errno_openbsd errno_unlink = some openbsd_unlink
errno_openbsd errno_write = some openbsd_write
errno_openbsd errno_lstat = some openbsd_lstat
errno_openbsd errno_statfs = some openbsd_statfs
errno_openbsd errno_close = some openbsd_close
errno_openbsd errno_utimensat = some openbsd_utimensat
errno_openbsd errno_fsync = some openbsd_fsync
errno_openbsd errno_flock = some openbsd_flock
errno_openbsd errno_fcntl = some openbsd_fcntl
errno_openbsd _ = none
