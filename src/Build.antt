-- ===== src/Build.antt =====
-- The compile-time configuration, and the operations of unreliablefs/unreliablefs_ops.h with the
-- table of their names in unreliablefs/unreliablefs_ops.c.
pub mod Names
use afs_cs.Base.{
  ℕ, suc, Bool, List, [], ◌∷◌, ◌++◌, Str, codes, ◌==◌, if◌then◌else◌, Option, get_elem?,
}
use afs_cs.Errno.{Errno, ErrnoArray}

-- The macros that unreliablefs/CMakeLists.txt and the compiler define, and the errno arrays of the
-- header for the system.
pub record Build : Type 0 where
  pub have_xattr : Bool
  pub openbsd : Bool
  pub apple : Bool
  pub have_flock : Bool
  pub have_fallocate : Bool
  pub have_utimensat : Bool
  pub errno_array : ErrnoArray → List Errno

-- `fuse_op`
pub data FuseOp : Type 0 where
  op_getattr op_readlink op_mknod op_mkdir op_unlink op_rmdir op_symlink op_rename : FuseOp
  op_link op_chmod op_chown op_truncate op_open op_read op_write op_statfs : FuseOp
  op_flush op_release op_fsync op_setxattr op_getxattr op_listxattr op_removexattr : FuseOp
  op_opendir op_readdir op_releasedir op_fsyncdir op_access op_creat op_ftruncate : FuseOp
  op_fgetattr op_lock op_ioctl op_flock op_fallocate op_utimens op_lstat : FuseOp

-- The enumerators in order, as the preprocessor leaves them.
unfoldable pub fuse_op : Build → List FuseOp
fuse_op b =
    op_getattr
    ∷ op_readlink
    ∷ op_mknod
    ∷ op_mkdir
    ∷ op_unlink
    ∷ op_rmdir
    ∷ op_symlink
    ∷ op_rename
    ∷ op_link
    ∷ op_chmod
    ∷ op_chown
    ∷ op_truncate
    ∷ op_open
    ∷ op_read
    ∷ op_write
    ∷ op_statfs
    ∷ op_flush
    ∷ op_release
    ∷ op_fsync
    ∷ ((if b.have_xattr then op_setxattr ∷ op_getxattr ∷ op_listxattr ∷ op_removexattr ∷ [] else [])
        ++ (op_opendir
            ∷ op_readdir
            ∷ op_releasedir
            ∷ op_fsyncdir
            ∷ op_access
            ∷ op_creat
            ∷ op_ftruncate
            ∷ op_fgetattr
            ∷ op_lock
            ∷ ((if b.openbsd then [] else op_ioctl ∷ [])
                ++ ((if b.have_flock then op_flock ∷ [] else [])
                    ++ ((if b.have_fallocate then op_fallocate ∷ [] else [])
                        ++ ((if b.have_utimensat then op_utimens ∷ [] else [])
                            ++ (op_lstat ∷ [])))))))

-- `fuse_op_name[]`
unfoldable pub fuse_op_name : Build → List Str
fuse_op_name b =
    codes "getattr"
    ∷ codes "readlink"
    ∷ codes "mknod"
    ∷ codes "mkdir"
    ∷ codes "unlink"
    ∷ codes "rmdir"
    ∷ codes "symlink"
    ∷ codes "rename"
    ∷ codes "link"
    ∷ codes "chmod"
    ∷ codes "chown"
    ∷ codes "truncate"
    ∷ codes "open"
    ∷ codes "read"
    ∷ codes "write"
    ∷ codes "statfs"
    ∷ codes "flush"
    ∷ codes "release"
    ∷ codes "fsync"
    ∷ ((if b.have_xattr
          then codes "setxattr" ∷ codes "getxattr" ∷ codes "listxattr" ∷ codes "removexattr" ∷ []
          else [])
        ++ (codes "opendir"
            ∷ codes "readdir"
            ∷ codes "releasedir"
            ∷ codes "fsyncdir"
            ∷ codes "access"
            ∷ codes "creat"
            ∷ codes "ftruncate"
            ∷ codes "fgetattr"
            ∷ codes "lock"
            ∷ ((if b.openbsd then [] else codes "ioctl" ∷ [])
                ++ ((if b.have_flock then codes "flock" ∷ [] else [])
                    ++ ((if b.have_fallocate then codes "fallocate" ∷ [] else [])
                        ++ ((if b.have_utimensat then codes "utimens" ∷ [] else [])
                            ++ (codes "lstat" ∷ [])))))))

-- A number for each operation, to compare two of them.
abbrev pub op_tag : FuseOp → ℕ
op_tag op_getattr = 0
op_tag op_readlink = 1
op_tag op_mknod = 2
op_tag op_mkdir = 3
op_tag op_unlink = 4
op_tag op_rmdir = 5
op_tag op_symlink = 6
op_tag op_rename = 7
op_tag op_link = 8
op_tag op_chmod = 9
op_tag op_chown = 10
op_tag op_truncate = 11
op_tag op_open = 12
op_tag op_read = 13
op_tag op_write = 14
op_tag op_statfs = 15
op_tag op_flush = 16
op_tag op_release = 17
op_tag op_fsync = 18
op_tag op_setxattr = 19
op_tag op_getxattr = 20
op_tag op_listxattr = 21
op_tag op_removexattr = 22
op_tag op_opendir = 23
op_tag op_readdir = 24
op_tag op_releasedir = 25
op_tag op_fsyncdir = 26
op_tag op_access = 27
op_tag op_creat = 28
op_tag op_ftruncate = 29
op_tag op_fgetattr = 30
op_tag op_lock = 31
op_tag op_ioctl = 32
op_tag op_flock = 33
op_tag op_fallocate = 34
op_tag op_utimens = 35
op_tag op_lstat = 36

-- The place of an operation among the enumerators, which is its value in C.
unfoldable pub index_of : FuseOp → List FuseOp → ℕ
index_of op [] = 0
index_of op (x ∷ xs) = if op_tag x == op_tag op then 0 else suc (index_of op xs)

-- `fuse_op_name[operation]`
unfoldable pub op_name : Build → FuseOp → Option Str
unfolding fuse_op fuse_op_name index_of
op_name b op = get_elem? (fuse_op_name b) (index_of op (fuse_op b))
