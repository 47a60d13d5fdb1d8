-- ===== src/Tests/Platforms.antt =====
-- Builds for FreeBSD and macOS, and the theorems about the arrays of errors on them.
use afs_cs.Base.{◌≡◌, refl, ap, Bool, true, false, List, [], Option, none, some}
use afs_cs.Errno.{Errno}
use afs_cs.Errno.Header.{Platform, freebsd, macosx, errno_header}
use afs_cs.Build.{Build, op_utimens, op_opendir, fuse_op}
use afs_cs.Build.Names.{IsEnabled}
use afs_cs.System.{Env, State}
use afs_cs.Errinj.{op_random_errno}
use afs_cs.Errinj.Platforms.{Fits, Supplies, errno_case-Supplies}
use afs_cs.Errno.Provided.{has_setxattr, is_openbsd, is_macosx, is_unfilled}
use afs_cs.Errinj.Unfilled.{op_random_errno-macosx}
use afs_cs.Tests.Kernel.{toy, unconfigured}

abbrev or_none : Option (List Errno) → List Errno
or_none none = []
or_none (some es) = es

-- A build without the calls that the system lacks.
abbrev build_on : Platform → Bool → Build
build_on sys xattr = record {
  have_xattr = xattr;
  openbsd = false;
  apple = is_macosx sys;
  have_flock = true;
  have_fallocate = false;
  have_utimensat = true;
  errno_array = λ arr. or_none (errno_header sys arr);
}

freebsd-Fits : Fits (freebsd true) (build_on (freebsd true) false)
unfolding is_openbsd
freebsd-Fits = record {
  openbsd_only = refl;
  apple_only = refl;
  xattr_found = λ h. cc;
  fallocate_found = λ h. cc;
  arrays = λ arr es h. ap or_none h;
}

macosx-Fits : Fits macosx (build_on macosx true)
unfolding is_openbsd has_setxattr
macosx-Fits = record {
  openbsd_only = refl;
  apple_only = refl;
  xattr_found = λ h. refl;
  fallocate_found = λ h. cc;
  arrays = λ arr es h. ap or_none h;
}

utimens_on : IsEnabled (build_on (freebsd true) false) op_utimens
unfolding fuse_op
utimens_on = refl

opendir_unfilled : is_unfilled macosx op_opendir ≡ true
unfolding is_unfilled
opendir_unfilled = refl

errno_case-Supplies_example : Supplies (freebsd true) (build_on (freebsd true) false) op_utimens
errno_case-Supplies_example =
    errno_case-Supplies (freebsd true) (build_on (freebsd true) false) op_utimens freebsd-Fits
      utimens_on

abbrev toy_macosx : Env
toy_macosx = record toy { build = build_on macosx true }

abbrev unconfigured_macosx : State toy_macosx
unconfigured_macosx = record {
  conf = unconfigured.conf;
  errno = unconfigured.errno;
  heap = unconfigured.heap;
  rng = unconfigured.rng;
  world = unconfigured.world;
}

op_random_errno-macosx_example : op_random_errno toy_macosx op_opendir unconfigured_macosx ≡ none
op_random_errno-macosx_example =
    op_random_errno-macosx toy_macosx op_opendir unconfigured_macosx macosx-Fits opendir_unfilled
