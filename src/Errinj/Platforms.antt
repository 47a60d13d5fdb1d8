-- ===== src/Errinj/Platforms.antt =====
-- The arrays of errors on every system that unreliablefs/unreliablefs_errinj.h supports, against
-- the operations that a build has there.
use afs_cs.Base.{◌≡◌, refl, sym, ◌∙◌, true, false, List, some, arith, ◌==◌}
use afs_cs.Errno.{
  Errno, ErrnoArray, errno_setxattr, errno_getxattr, errno_listxattr, errno_removexattr,
  errno_ioctl, errno_fallocate, errno_flock, errno_utimensat,
}
use afs_cs.Errno.Header.{Platform, errno_header}
use afs_cs.Build.{
  Build, FuseOp, fuse_op, op_tag, op_setxattr, op_getxattr, op_listxattr, op_removexattr, op_ioctl,
  op_fallocate, op_opendir, op_readdir, op_flock, op_utimens,
}
use afs_cs.Build.Names.{IsEnabled, enabled}
use afs_cs.Errinj.Table.{errno_case}
use afs_cs.Errno.Provided.{
  is_empty, has_setxattr, has_fallocate, is_openbsd, is_macosx, is_unfilled, Provides,
  common-Provides, opendir-Provides, readdir-Provides, xattr-Provides, fallocate-Provides,
  ioctl-Provides, filled,
}

-- A build for a system: the macros of OpenBSD and macOS, what the build files find in the C
-- library, and the arrays of the header.
pub record Fits (sys : Platform) (b : Build) : Type 0 where
  pub openbsd_only : b.openbsd ≡ is_openbsd sys
  pub apple_only : b.apple ≡ is_macosx sys
  pub xattr_found : b.have_xattr ≡ true → has_setxattr sys ≡ true
  pub fallocate_found : b.have_fallocate ≡ true → has_fallocate sys ≡ true
  pub arrays :
      (arr : ErrnoArray) (es : List Errno) → errno_header sys arr ≡ some es → b.errno_array arr ≡ es

-- The header's array for the operation's case.
abbrev pub Supplies : Platform → Build → FuseOp → Type 0
Supplies sys b op =
    (arr : ErrnoArray) × (es : List Errno) × (errno_case b op ≡ some arr)
    × (errno_header sys arr ≡ some es)
    × (b.errno_array arr ≡ es)
    × (is_empty es ≡ is_unfilled sys op)

module _ (sys : Platform) (b : Build) (fits : Fits sys b) where
  supply :
      (op : FuseOp) (arr : ErrnoArray)
      → errno_case b op ≡ some arr
      → Provides sys arr (is_unfilled sys op)
      → Supplies sys b op
  supply op arr case (es, header, empty) = (arr, es, case, header, fits.arrays arr es header, empty)

  supply_filled :
      (op : FuseOp) (arr : ErrnoArray)
      → (op_tag op == 23) ≡ false
      → (op_tag op == 24) ≡ false
      → errno_case b op ≡ some arr
      → Provides sys arr false
      → Supplies sys b op
  supply_filled op arr h k case provided = supply op arr case (rw (filled sys op h k) provided)

-- In a build that fits one of the supported systems, every operation that the build keeps has a
-- case in `op_random_errno`; the header of the system has the array of that case, and it is empty
-- only for `opendir` and `readdir` on macOS.
pub errno_case-Supplies :
    (sys : Platform) (b : Build) (op : FuseOp) → Fits sys b → IsEnabled b op → Supplies sys b op
unfolding errno_case fuse_op
errno_case-Supplies sys b op_setxattr fits h =
    let k : _ = simp enabled at h in
    supply_filled sys b fits op_setxattr errno_setxattr refl refl (ground arith)
      (xattr-Provides errno_setxattr sys refl (fits.xattr_found (ground arith)))
errno_case-Supplies sys b op_getxattr fits h =
    let k : _ = simp enabled at h in
    supply_filled sys b fits op_getxattr errno_getxattr refl refl (ground arith)
      (xattr-Provides errno_getxattr sys refl (fits.xattr_found (ground arith)))
errno_case-Supplies sys b op_listxattr fits h =
    let k : _ = simp enabled at h in
    supply_filled sys b fits op_listxattr errno_listxattr refl refl (ground arith)
      (xattr-Provides errno_listxattr sys refl (fits.xattr_found (ground arith)))
errno_case-Supplies sys b op_removexattr fits h =
    let k : _ = simp enabled at h in
    supply_filled sys b fits op_removexattr errno_removexattr refl refl (ground arith)
      (xattr-Provides errno_removexattr sys refl (fits.xattr_found (ground arith)))
errno_case-Supplies sys b op_ioctl fits h =
    let k : _ = simp enabled at h in
    supply_filled sys b fits op_ioctl errno_ioctl refl refl (ground arith)
      (ioctl-Provides sys (sym fits.openbsd_only ∙ ground arith))
errno_case-Supplies sys b op_flock fits h =
    let k : _ = simp enabled at h in
    supply_filled sys b fits op_flock errno_flock refl refl (ground arith)
      (common-Provides errno_flock sys refl)
errno_case-Supplies sys b op_fallocate fits h =
    let k : _ = simp enabled at h in
    supply_filled sys b fits op_fallocate errno_fallocate refl refl (ground arith)
      (fallocate-Provides sys (fits.fallocate_found (ground arith)))
errno_case-Supplies sys b op_utimens fits h =
    let k : _ = simp enabled at h in
    supply_filled sys b fits op_utimens errno_utimensat refl refl (ground arith)
      (common-Provides errno_utimensat sys refl)
errno_case-Supplies sys b op_opendir fits h =
    supply sys b fits op_opendir _ refl (opendir-Provides sys)
errno_case-Supplies sys b op_readdir fits h =
    supply sys b fits op_readdir _ refl (readdir-Provides sys)
errno_case-Supplies sys b op fits h =
    supply_filled sys b fits op _ refl refl refl (common-Provides _ sys refl)
