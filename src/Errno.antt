-- ===== src/Errno.antt =====
-- The error numbers, by the names of <errno.h>, and the names of the arrays that
-- unreliablefs/unreliablefs_errno_linux.h and its siblings for other systems define.
pub mod Linux
pub mod Freebsd
pub mod Openbsd
pub mod Macosx
pub mod Header
pub mod Provided

pub data Errno : Type 0 where
  e2big eacces eagain ebadf ebusy edeadlk edestaddrreq edquot eexist efault efbig eintr einval eio
        eisdir eloop emfile emlink enametoolong enfile enodata enodev enoent enolck enomem enospc
        enosys enotdir enotempty enotsup enotty enxio eopnotsupp eoverflow eperm epipe erange erofs
        espipe esrch etxtbsy ewouldblock exdev ecapmode econnreset eftype eintegrity enetdown
        enetunreach enoattr enobufs enotcapable enotconn etimedout :
      Errno

-- `errno_access` and so on.
pub data ErrnoArray : Type 0 where
  errno_access errno_chmod errno_creat errno_ftruncate errno_link errno_mkdir errno_mknod
        errno_opendir errno_readdir errno_read errno_readlink errno_rename errno_rmdir errno_symlink
        errno_truncate errno_unlink errno_write errno_lstat errno_statfs errno_close errno_utimensat
        errno_fsync errno_setxattr errno_getxattr errno_listxattr errno_removexattr errno_flock
        errno_fallocate errno_ioctl errno_fcntl :
      ErrnoArray
