-- ===== src/Ops/Xattrs.antt =====
-- The operations of unreliablefs/unreliablefs_ops.c on extended attributes, in the form of macOS
-- and in that of other systems.
use afs_cs.Base.{ℕ, ℤ, pos, List, Str, if◌then◌else◌}
use afs_cs.Base.Run.{M}
use afs_cs.Build.{op_setxattr, op_getxattr, op_listxattr, op_removexattr}
use afs_cs.System.{Env, State}
use afs_cs.System.Kernel.{
  Call, sys_setxattr, sys_getxattr, sys_listxattr, sys_removexattr, sys_setxattr_at,
  sys_getxattr_at, sys_listxattr_with, sys_removexattr_with,
}
use afs_cs.Ops.{guarded, status, filled}

-- `XATTR_NOFOLLOW` of macOS.
abbrev pub xattr_nofollow : ℕ
xattr_nofollow = 1

module _ (E : Env) where
  -- The calls on each side of `#ifdef __APPLE__`.
  unfoldable pub setxattr_call : Str → Str → List ℕ → ℕ → Call
  setxattr_call path name value flags =
      if E.build.apple
      then sys_setxattr_at path name value 0 flags
      else sys_setxattr path name value flags

  unfoldable pub getxattr_call : Str → Str → ℕ → Call
  getxattr_call path name size =
      if E.build.apple
      then sys_getxattr_at path name size 0 xattr_nofollow
      else sys_getxattr path name size

  unfoldable pub listxattr_call : Str → ℕ → Call
  listxattr_call path size =
      if E.build.apple then sys_listxattr_with path size xattr_nofollow else sys_listxattr path size

  unfoldable pub removexattr_call : Str → Str → Call
  removexattr_call path name =
      if E.build.apple
      then sys_removexattr_with path name xattr_nofollow
      else sys_removexattr path name

  -- `value` holds the `size` bytes of the attribute.
  unfoldable pub unreliable_setxattr : Str → Str → List ℕ → ℕ → M (State E) ℤ
  unfolding guarded status setxattr_call
  unreliable_setxattr path name value flags =
      guarded E path op_setxattr (λ r. r) (status E (setxattr_call path name value flags))

  -- The size that `getxattr` returns is dropped.
  unfoldable pub unreliable_getxattr : Str → Str → List ℕ → ℕ → M (State E) (ℤ × List ℕ)
  unfolding guarded filled getxattr_call
  unreliable_getxattr path name value size =
      guarded E path op_getxattr (λ r. (r, value))
        (filled E (λ _. pos 0) value (getxattr_call path name size))

  unfoldable pub unreliable_listxattr : Str → List ℕ → ℕ → M (State E) (ℤ × List ℕ)
  unfolding guarded filled listxattr_call
  unreliable_listxattr path list size =
      guarded E path op_listxattr (λ r. (r, list))
        (filled E (λ n. n) list (listxattr_call path size))

  unfoldable pub unreliable_removexattr : Str → Str → M (State E) ℤ
  unfolding guarded status removexattr_call
  unreliable_removexattr path name =
      guarded E path op_removexattr (λ r. r) (status E (removexattr_call path name))
