-- ===== src/Errno/Provided.antt =====
-- Which arrays the header of each system fills, from unreliablefs/unreliablefs_errno_*.h.
use afs_cs.Base.{◌≡◌, refl, Bool, true, false, List, [], ◌∷◌, some, ◌==◌}
use afs_cs.Errno.{
  Errno, ErrnoArray, errno_setxattr, errno_getxattr, errno_listxattr, errno_removexattr,
  errno_ioctl, errno_fallocate, errno_opendir, errno_readdir,
}
use afs_cs.Errno.Header.{Platform, linux, freebsd, openbsd, macosx, errno_header}
use afs_cs.Errno.Linux.{errno_linux}
use afs_cs.Errno.Freebsd.{errno_freebsd}
use afs_cs.Errno.Openbsd.{errno_openbsd}
use afs_cs.Errno.Macosx.{errno_macosx}
use afs_cs.Build.{FuseOp, op_tag, op_opendir, op_readdir}

abbrev pub is_empty : List Errno → Bool
is_empty [] = true
is_empty (e ∷ es) = false

-- The calls for extended attributes of the C library have the names that the build looks for on
-- Linux and macOS only, and `fallocate` is a call of Linux.
unfoldable pub has_setxattr : Platform → Bool
has_setxattr linux = true
has_setxattr macosx = true
has_setxattr _ = false

unfoldable pub has_fallocate : Platform → Bool
has_fallocate linux = true
has_fallocate _ = false

unfoldable pub is_openbsd : Platform → Bool
is_openbsd openbsd = true
is_openbsd _ = false

abbrev pub is_macosx : Platform → Bool
is_macosx macosx = true
is_macosx _ = false

-- The operations whose array the header leaves empty, with a remark that it is still to be done.
unfoldable pub is_unfilled : Platform → FuseOp → Bool
is_unfilled macosx op_opendir = true
is_unfilled macosx op_readdir = true
is_unfilled _ _ = false

-- The header defines the array, and whether it is empty.
abbrev pub Provides : Platform → ErrnoArray → Bool → Type 0
Provides sys arr empty =
    (es : List Errno) × (errno_header sys arr ≡ some es) × (is_empty es ≡ empty)

-- The arrays that every header has, and none leaves empty.
abbrev is_common : ErrnoArray → Bool
is_common errno_setxattr = false
is_common errno_getxattr = false
is_common errno_listxattr = false
is_common errno_removexattr = false
is_common errno_ioctl = false
is_common errno_fallocate = false
is_common errno_opendir = false
is_common errno_readdir = false
is_common _ = true

pub common-Provides :
    (arr : ErrnoArray) (sys : Platform) → is_common arr ≡ true → Provides sys arr false
unfolding errno_header errno_linux errno_freebsd errno_openbsd errno_macosx
common-Provides errno_setxattr sys h = cc
common-Provides errno_getxattr sys h = cc
common-Provides errno_listxattr sys h = cc
common-Provides errno_removexattr sys h = cc
common-Provides errno_ioctl sys h = cc
common-Provides errno_fallocate sys h = cc
common-Provides errno_opendir sys h = cc
common-Provides errno_readdir sys h = cc
common-Provides _ linux h = (_, refl, refl)
common-Provides _ (freebsd true) h = (_, refl, refl)
common-Provides _ (freebsd false) h = (_, refl, refl)
common-Provides _ openbsd h = (_, refl, refl)
common-Provides _ macosx h = (_, refl, refl)

pub opendir-Provides : (sys : Platform) → Provides sys errno_opendir (is_unfilled sys op_opendir)
unfolding errno_header errno_linux errno_freebsd errno_openbsd errno_macosx is_unfilled
opendir-Provides (freebsd true) = (_, refl, refl)
opendir-Provides (freebsd false) = (_, refl, refl)
opendir-Provides _ = (_, refl, refl)

pub readdir-Provides : (sys : Platform) → Provides sys errno_readdir (is_unfilled sys op_readdir)
unfolding errno_header errno_linux errno_freebsd errno_openbsd errno_macosx is_unfilled
readdir-Provides (freebsd true) = (_, refl, refl)
readdir-Provides (freebsd false) = (_, refl, refl)
readdir-Provides _ = (_, refl, refl)

-- The arrays for extended attributes.
abbrev is_xattr : ErrnoArray → Bool
is_xattr errno_setxattr = true
is_xattr errno_getxattr = true
is_xattr errno_listxattr = true
is_xattr errno_removexattr = true
is_xattr _ = false

pub xattr-Provides :
    (arr : ErrnoArray) (sys : Platform)
    → is_xattr arr ≡ true
    → has_setxattr sys ≡ true
    → Provides sys arr false
unfolding has_setxattr errno_header errno_linux errno_macosx
xattr-Provides errno_setxattr linux x h = (_, refl, refl)
xattr-Provides errno_getxattr linux x h = (_, refl, refl)
xattr-Provides errno_listxattr linux x h = (_, refl, refl)
xattr-Provides errno_removexattr linux x h = (_, refl, refl)
xattr-Provides errno_setxattr macosx x h = (_, refl, refl)
xattr-Provides errno_getxattr macosx x h = (_, refl, refl)
xattr-Provides errno_listxattr macosx x h = (_, refl, refl)
xattr-Provides errno_removexattr macosx x h = (_, refl, refl)
xattr-Provides _ _ x h = cc

pub fallocate-Provides :
    (sys : Platform) → has_fallocate sys ≡ true → Provides sys errno_fallocate false
unfolding has_fallocate errno_header errno_linux
fallocate-Provides linux h = (_, refl, refl)
fallocate-Provides _ h = cc

pub ioctl-Provides : (sys : Platform) → is_openbsd sys ≡ false → Provides sys errno_ioctl false
unfolding is_openbsd errno_header errno_linux errno_freebsd errno_macosx
ioctl-Provides openbsd h = cc
ioctl-Provides (freebsd true) h = (_, refl, refl)
ioctl-Provides (freebsd false) h = (_, refl, refl)
ioctl-Provides _ h = (_, refl, refl)

pub filled :
    (sys : Platform) (op : FuseOp)
    → (op_tag op == 23) ≡ false
    → (op_tag op == 24) ≡ false
    → is_unfilled sys op ≡ false
unfolding is_unfilled
filled linux op h k = refl
filled macosx op_opendir h k = cc
filled macosx op_readdir h k = cc
filled macosx _ h k = refl
filled _ op h k = refl
