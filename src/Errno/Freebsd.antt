-- ===== src/Errno/Freebsd.antt =====
-- The arrays of unreliablefs/unreliablefs_errno_freebsd.h, in the order of the file.
-- `v12` says whether `__FreeBSD__` is 12 or more.
use afs_cs.Base.{Bool, ◌++◌, if◌then◌else◌, List, [], ◌∷◌, Option, none, some}
use afs_cs.Errno.{
  Errno, eacces, eagain, ebadf, ebusy, ecapmode, econnreset, edeadlk, edquot, eexist, efault, efbig,
  eftype, eintegrity, eintr, einval, eio, eisdir, eloop, emfile, emlink, enametoolong, enfile,
  enoent, enolck, enospc, enotcapable, enotdir, enotempty, enotty, enxio, eopnotsupp, eoverflow,
  eperm, epipe, erofs, esrch, etxtbsy, ewouldblock, exdev, ErrnoArray, errno_access, errno_chmod,
  errno_creat, errno_ftruncate, errno_link, errno_mkdir, errno_mknod, errno_opendir, errno_readdir,
  errno_read, errno_readlink, errno_rename, errno_rmdir, errno_symlink, errno_truncate,
  errno_unlink, errno_write, errno_lstat, errno_statfs, errno_close, errno_utimensat, errno_fsync,
  errno_flock, errno_ioctl, errno_fcntl,
}

abbrev freebsd_access : Bool → List Errno
freebsd_access v12 =
    eacces
    ∷ efault
    ∷ ((if v12 then eintegrity ∷ [] else [])
        ++ (einval ∷ eio ∷ eloop ∷ enametoolong ∷ enoent ∷ enotdir ∷ erofs ∷ etxtbsy ∷ []))

abbrev freebsd_chmod : Bool → List Errno
freebsd_chmod v12 =
    eacces
    ∷ efault
    ∷ eftype
    ∷ ((if v12 then eintegrity ∷ [] else [])
        ++ (eio ∷ eloop ∷ enametoolong ∷ enoent ∷ enotdir ∷ eperm ∷ eperm ∷ erofs ∷ []))

abbrev freebsd_creat : Bool → List Errno
freebsd_creat v12 =
    eacces
    ∷ ebadf
    ∷ ecapmode
    ∷ edquot
    ∷ eexist
    ∷ efault
    ∷ ((if v12 then eintegrity ∷ [] else [])
        ++ (eintr ∷ einval ∷ eio ∷ eisdir ∷ eloop ∷ emfile ∷ emlink ∷ enametoolong ∷ enfile ∷ enoent
            ∷ enospc ∷ enotcapable ∷ enotdir ∷ enxio ∷ eopnotsupp ∷ eperm ∷ erofs ∷ etxtbsy
            ∷ ewouldblock ∷ []))

abbrev freebsd_ftruncate : Bool → List Errno
freebsd_ftruncate v12 =
    eacces
    ∷ ebadf
    ∷ efault
    ∷ efbig
    ∷ ((if v12 then eintegrity ∷ [] else [])
        ++ (einval ∷ eio ∷ eisdir ∷ eloop ∷ enametoolong ∷ enoent ∷ enotdir ∷ eperm ∷ erofs
            ∷ etxtbsy ∷ []))

abbrev freebsd_link : Bool → List Errno
freebsd_link v12 =
    eacces
    ∷ ebadf
    ∷ edquot
    ∷ eexist
    ∷ efault
    ∷ ((if v12 then eintegrity ∷ [] else [])
        ++ (einval ∷ eio ∷ eloop ∷ emlink ∷ enametoolong ∷ enoent ∷ enospc ∷ enotdir ∷ eopnotsupp
            ∷ eperm ∷ erofs ∷ exdev ∷ []))

abbrev freebsd_mkdir : Bool → List Errno
freebsd_mkdir v12 =
    eacces
    ∷ ebadf
    ∷ edquot
    ∷ eexist
    ∷ efault
    ∷ ((if v12 then eintegrity ∷ [] else [])
        ++ (eio ∷ eloop ∷ emlink ∷ enametoolong ∷ enoent ∷ enospc ∷ enotdir ∷ eperm ∷ erofs ∷ []))

abbrev freebsd_mknod : Bool → List Errno
freebsd_mknod v12 =
    eacces
    ∷ ebadf
    ∷ edquot
    ∷ eexist
    ∷ efault
    ∷ ((if v12 then eintegrity ∷ [] else [])
        ++ (einval ∷ eio ∷ eloop ∷ enametoolong ∷ enoent ∷ enospc ∷ enotdir ∷ eperm ∷ erofs ∷ []))

abbrev freebsd_opendir : Bool → List Errno
freebsd_opendir v12 = eacces ∷ eloop ∷ enametoolong ∷ enoent ∷ enotdir ∷ []

abbrev freebsd_readdir : Bool → List Errno
freebsd_readdir v12 =
    ebadf ∷ efault ∷ ((if v12 then eintegrity ∷ [] else []) ++ (einval ∷ eio ∷ []))

abbrev freebsd_read : Bool → List Errno
freebsd_read v12 =
    eagain
    ∷ ebadf
    ∷ ebusy
    ∷ econnreset
    ∷ efault
    ∷ ((if v12 then eintegrity ∷ [] else [])
        ++ (eintr ∷ einval ∷ eio ∷ eisdir ∷ eopnotsupp ∷ eoverflow ∷ []))

abbrev freebsd_readlink : Bool → List Errno
freebsd_readlink v12 =
    eacces
    ∷ efault
    ∷ ((if v12 then eintegrity ∷ [] else [])
        ++ (einval ∷ eio ∷ eloop ∷ enametoolong ∷ enoent ∷ enotdir ∷ []))

abbrev freebsd_rename : Bool → List Errno
freebsd_rename v12 =
    eacces
    ∷ ecapmode
    ∷ edquot
    ∷ efault
    ∷ ((if v12 then eintegrity ∷ [] else [])
        ++ (einval ∷ eio ∷ eisdir ∷ eloop ∷ enametoolong ∷ enoent ∷ enospc ∷ enotdir ∷ enotempty
            ∷ eperm ∷ erofs ∷ exdev ∷ []))

abbrev freebsd_rmdir : Bool → List Errno
freebsd_rmdir v12 =
    eacces
    ∷ ebusy
    ∷ efault
    ∷ ((if v12 then eintegrity ∷ [] else [])
        ++ (einval ∷ eio ∷ eloop ∷ enametoolong ∷ enoent ∷ enotdir ∷ enotempty ∷ eperm ∷ erofs
            ∷ []))

abbrev freebsd_symlink : Bool → List Errno
freebsd_symlink v12 =
    eacces
    ∷ edquot
    ∷ eexist
    ∷ efault
    ∷ ((if v12 then eintegrity ∷ [] else [])
        ++ (eio ∷ eloop ∷ enametoolong ∷ enoent ∷ enospc ∷ enotdir ∷ eperm ∷ erofs ∷ []))

abbrev freebsd_truncate : Bool → List Errno
freebsd_truncate v12 =
    eacces
    ∷ efault
    ∷ efbig
    ∷ ((if v12 then eintegrity ∷ [] else [])
        ++ (einval ∷ eio ∷ eisdir ∷ eloop ∷ enametoolong ∷ enoent ∷ enotdir ∷ eperm ∷ erofs
            ∷ etxtbsy ∷ []))

abbrev freebsd_unlink : Bool → List Errno
freebsd_unlink v12 =
    eacces
    ∷ efault
    ∷ ((if v12 then eintegrity ∷ [] else [])
        ++ (eio ∷ eisdir ∷ eloop ∷ enametoolong ∷ enoent ∷ enospc ∷ enotdir ∷ eperm ∷ erofs ∷ []))

abbrev freebsd_write : Bool → List Errno
freebsd_write v12 =
    eagain
    ∷ ebadf
    ∷ edquot
    ∷ efault
    ∷ efbig
    ∷ ((if v12 then eintegrity ∷ [] else [])
        ++ (eintr ∷ einval ∷ eio ∷ enospc ∷ epipe ∷ erofs ∷ []))

abbrev freebsd_lstat : Bool → List Errno
freebsd_lstat v12 =
    eacces
    ∷ efault
    ∷ ((if v12 then eintegrity ∷ [] else [])
        ++ (eio ∷ eloop ∷ enametoolong ∷ enoent ∷ enotdir ∷ eoverflow ∷ []))

abbrev freebsd_statfs : Bool → List Errno
freebsd_statfs v12 =
    eacces
    ∷ efault
    ∷ ((if v12 then eintegrity ∷ [] else [])
        ++ (eio ∷ eloop ∷ enametoolong ∷ enoent ∷ enotdir ∷ []))

abbrev freebsd_close : Bool → List Errno
freebsd_close v12 = ebadf ∷ eintr ∷ enospc ∷ econnreset ∷ []

abbrev freebsd_utimensat : Bool → List Errno
freebsd_utimensat v12 =
    eacces
    ∷ ebadf
    ∷ efault
    ∷ ((if v12 then eintegrity ∷ [] else [])
        ++ (einval ∷ eio ∷ eloop ∷ enametoolong ∷ enoent ∷ enotdir ∷ eperm ∷ erofs ∷ esrch ∷ []))

abbrev freebsd_fsync : Bool → List Errno
freebsd_fsync v12 = ebadf ∷ ((if v12 then eintegrity ∷ [] else []) ++ (einval ∷ eio ∷ []))

abbrev freebsd_flock : Bool → List Errno
freebsd_flock v12 = ebadf ∷ einval ∷ enolck ∷ eopnotsupp ∷ ewouldblock ∷ []

abbrev freebsd_ioctl : Bool → List Errno
freebsd_ioctl v12 = ebadf ∷ efault ∷ einval ∷ enotty ∷ []

abbrev freebsd_fcntl : Bool → List Errno
freebsd_fcntl v12 =
    eagain ∷ ebadf ∷ edeadlk ∷ eintr ∷ einval ∷ emfile ∷ enolck ∷ enotty ∷ eopnotsupp ∷ eoverflow
    ∷ eperm ∷ esrch ∷ []

-- The array that the header defines under each name, if it does.
unfoldable pub errno_freebsd : Bool → ErrnoArray → Option (List Errno)
errno_freebsd v12 errno_access = some (freebsd_access v12)
errno_freebsd v12 errno_chmod = some (freebsd_chmod v12)
errno_freebsd v12 errno_creat = some (freebsd_creat v12)
errno_freebsd v12 errno_ftruncate = some (freebsd_ftruncate v12)
errno_freebsd v12 errno_link = some (freebsd_link v12)
errno_freebsd v12 errno_mkdir = some (freebsd_mkdir v12)
errno_freebsd v12 errno_mknod = some (freebsd_mknod v12)
errno_freebsd v12 errno_opendir = some (freebsd_opendir v12)
errno_freebsd v12 errno_readdir = some (freebsd_readdir v12)
errno_freebsd v12 errno_read = some (freebsd_read v12)
errno_freebsd v12 errno_readlink = some (freebsd_readlink v12)
errno_freebsd v12 errno_rename = some (freebsd_rename v12)
errno_freebsd v12 errno_rmdir = some (freebsd_rmdir v12)
errno_freebsd v12 errno_symlink = some (freebsd_symlink v12)
errno_freebsd v12 errno_truncate = some (freebsd_truncate v12)
errno_freebsd v12 errno_unlink = some (freebsd_unlink v12)
errno_freebsd v12 errno_write = some (freebsd_write v12)
errno_freebsd v12 errno_lstat = some (freebsd_lstat v12)
errno_freebsd v12 errno_statfs = some (freebsd_statfs v12)
errno_freebsd v12 errno_close = some (freebsd_close v12)
errno_freebsd v12 errno_utimensat = some (freebsd_utimensat v12)
errno_freebsd v12 errno_fsync = some (freebsd_fsync v12)
errno_freebsd v12 errno_flock = some (freebsd_flock v12)
errno_freebsd v12 errno_ioctl = some (freebsd_ioctl v12)
errno_freebsd v12 errno_fcntl = some (freebsd_fcntl v12)
errno_freebsd v12 _ = none
