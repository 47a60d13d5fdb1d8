-- ===== src/Errinj/Unfilled.antt =====
-- The draw of an error in unreliablefs/unreliablefs_errinj.c from an array that is left empty, as
-- unreliablefs/unreliablefs_errno_macosx.h does for directories.
use afs_cs.Base.{◌≡◌, refl, true, none}
use afs_cs.Errno.{errno_opendir, errno_readdir}
use afs_cs.Errno.Header.{macosx, errno_header}
use afs_cs.Errno.Macosx.{errno_macosx}
use afs_cs.Build.{FuseOp, op_opendir, op_readdir}
use afs_cs.System.{Env, State}
use afs_cs.System.Memory.{rand}
use afs_cs.Errinj.{rand_range, element, random_element, random_case, op_random_errno}
use afs_cs.Errinj.Table.{errno_case}
use afs_cs.Errinj.Platforms.{Fits}
use afs_cs.Errno.Provided.{is_unfilled}

-- In a build that fits macOS, `op_random_errno` for `opendir` and `readdir` reads behind the end of
-- the array, whatever the random number is.
pub op_random_errno-macosx :
    (E : Env) (op : FuseOp) (s : State E)
    → Fits macosx E.build
    → is_unfilled macosx op ≡ true
    → op_random_errno E op s ≡ none
unfolding op_random_errno random_case random_element rand_range rand element errno_case is_unfilled
    errno_header errno_macosx
op_random_errno-macosx E op_opendir s fits h = rw (fits.arrays errno_opendir _ refl) refl
op_random_errno-macosx E op_readdir s fits h = rw (fits.arrays errno_readdir _ refl) refl
op_random_errno-macosx E _ s fits h = cc
