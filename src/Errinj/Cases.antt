-- ===== src/Errinj/Cases.antt =====
-- `op_random_errno` has a case for every operation of the build, and the array of each case has an
-- element, in the build with the arrays of unreliablefs/unreliablefs_errno_linux.h.
use afs_cs.Base.{◌≡◌, refl, some, arith}
use afs_cs.Errno.{
  ErrnoArray, errno_setxattr, errno_getxattr, errno_listxattr, errno_removexattr, errno_ioctl,
  errno_flock, errno_fallocate, errno_utimensat,
}
use afs_cs.Build.{
  Build, FuseOp, op_getattr, op_setxattr, op_getxattr, op_listxattr, op_removexattr, op_ioctl,
  op_flock, op_fallocate, op_utimens, fuse_op,
}
use afs_cs.Build.Names.{IsEnabled, enabled}
use afs_cs.Errinj.Table.{errno_case}

-- `op_random_errno` has a case, with an array of errors, for every operation that the build keeps.
pub errno_case_of_enabled :
    (b : Build) (op : FuseOp) → IsEnabled b op → (arr : ErrnoArray) × (errno_case b op ≡ some arr)
unfolding errno_case fuse_op
errno_case_of_enabled b op_getattr h = (_, refl)
errno_case_of_enabled b op_setxattr h =
    (errno_setxattr, let k : _ = simp enabled at h in ground arith)
errno_case_of_enabled b op_getxattr h =
    (errno_getxattr, let k : _ = simp enabled at h in ground arith)
errno_case_of_enabled b op_listxattr h =
    (errno_listxattr, let k : _ = simp enabled at h in ground arith)
errno_case_of_enabled b op_removexattr h =
    (errno_removexattr, let k : _ = simp enabled at h in ground arith)
errno_case_of_enabled b op_ioctl h = (errno_ioctl, let k : _ = simp enabled at h in ground arith)
errno_case_of_enabled b op_flock h = (errno_flock, let k : _ = simp enabled at h in ground arith)
errno_case_of_enabled b op_fallocate h =
    (errno_fallocate, let k : _ = simp enabled at h in ground arith)
errno_case_of_enabled b op_utimens h =
    (errno_utimensat, let k : _ = simp enabled at h in ground arith)
errno_case_of_enabled b _ h = (_, refl)
