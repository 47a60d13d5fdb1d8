-- ===== src/Errno/Header.antt =====
-- The choice of a header of errors in unreliablefs/unreliablefs_errinj.h.
use afs_cs.Base.{Bool, List, Option, some}
use afs_cs.Errno.{Errno, ErrnoArray}
use afs_cs.Errno.Linux.{errno_linux}
use afs_cs.Errno.Freebsd.{errno_freebsd}
use afs_cs.Errno.Openbsd.{errno_openbsd}
use afs_cs.Errno.Macosx.{errno_macosx}

-- The systems that are supported. For FreeBSD, whether it is version 12 or later.
pub data Platform : Type 0 where
  linux : Platform
  freebsd : Bool → Platform
  openbsd macosx : Platform

-- An array of the header that is included, or none where the header does not define it.
unfoldable pub errno_header : Platform → ErrnoArray → Option (List Errno)
errno_header linux arr = some (errno_linux arr)
errno_header (freebsd v12) arr = errno_freebsd v12 arr
errno_header openbsd arr = errno_openbsd arr
errno_header macosx arr = errno_macosx arr
