-- ===== src/Ops/Paths.antt =====
-- The operations of unreliablefs/unreliablefs_ops.c that take a path and make one system call.
use afs_cs.Base.{
  ℕ, ℤ, pos, negsuc, minus_one, ◌==ℤ◌, List, Str, ltb, if◌then◌else◌, length, set, replicate,
}
use afs_cs.Base.Run.{M, pure, undefined, ◌>>=◌}
use afs_cs.Build.{
  op_lstat, op_getattr, op_readlink, op_mknod, op_mkdir, op_unlink, op_rmdir, op_symlink, op_rename,
  op_link, op_chmod, op_chown, op_truncate, op_statfs, op_access, op_utimens,
}
use afs_cs.System.{Env, State}
use afs_cs.System.Kernel.{
  sys_lstat, sys_readlink, sys_mknod, sys_mkdir, sys_unlink, sys_rmdir, sys_symlink, sys_rename,
  sys_link, sys_chmod, sys_chown, sys_truncate, sys_statvfs, sys_access, sys_utimensat,
}
use afs_cs.System.Memory.{sys}
use afs_cs.Ops.{overwrite, guarded, negated_errno, status, status_negative, filled}

-- `AT_SYMLINK_NOFOLLOW`
abbrev pub at_symlink_nofollow : ℕ
at_symlink_nofollow = 0x100

module _ (E : Env) where
  -- The body of `unreliable_lstat` and `unreliable_getattr`: `buf` is cleared, then filled.
  unfoldable pub lstat_body : Str → List ℕ → M (State E) (ℤ × List ℕ)
  unfolding filled
  lstat_body path buf = filled E (λ _. pos 0) (replicate (length buf) 0) (sys_lstat path)

  unfoldable pub unreliable_lstat : Str → List ℕ → M (State E) (ℤ × List ℕ)
  unfolding guarded lstat_body
  unreliable_lstat path buf = guarded E path op_lstat (λ r. (r, buf)) (lstat_body path buf)

  unfoldable pub unreliable_getattr : Str → List ℕ → M (State E) (ℤ × List ℕ)
  unfolding guarded lstat_body
  unreliable_getattr path buf = guarded E path op_getattr (λ r. (r, buf)) (lstat_body path buf)

  -- `buf[ret] = 0`, in a buffer of as many bytes as `buf` has.
  unfoldable pub terminate : List ℕ → ℤ → M (State E) (ℤ × List ℕ)
  terminate buf (pos n) = if ltb n (length buf) then pure (pos 0, set buf n 0) else undefined
  terminate buf (negsuc _) = undefined

  unfoldable pub readlink_body : Str → List ℕ → ℕ → M (State E) (ℤ × List ℕ)
  unfolding sys negated_errno overwrite terminate
  readlink_body path buf bufsiz = do
    r ← sys E (sys_readlink path bufsiz)
    if r.value ==ℤ minus_one
        then (do e ← negated_errno E; pure (e, buf))
        else terminate (overwrite buf r.stored) r.value

  unfoldable pub unreliable_readlink : Str → List ℕ → ℕ → M (State E) (ℤ × List ℕ)
  unfolding guarded readlink_body
  unreliable_readlink path buf bufsiz =
      guarded E path op_readlink (λ r. (r, buf)) (readlink_body path buf bufsiz)

  unfoldable pub unreliable_mknod : Str → ℕ → ℕ → M (State E) ℤ
  unfolding guarded status
  unreliable_mknod path mode dev =
      guarded E path op_mknod (λ r. r) (status E (sys_mknod path mode dev))

  unfoldable pub unreliable_mkdir : Str → ℕ → M (State E) ℤ
  unfolding guarded status
  unreliable_mkdir path mode = guarded E path op_mkdir (λ r. r) (status E (sys_mkdir path mode))

  unfoldable pub unreliable_unlink : Str → M (State E) ℤ
  unfolding guarded status
  unreliable_unlink path = guarded E path op_unlink (λ r. r) (status E (sys_unlink path))

  unfoldable pub unreliable_rmdir : Str → M (State E) ℤ
  unfolding guarded status
  unreliable_rmdir path = guarded E path op_rmdir (λ r. r) (status E (sys_rmdir path))

  unfoldable pub unreliable_symlink : Str → Str → M (State E) ℤ
  unfolding guarded status
  unreliable_symlink target linkpath =
      guarded E target op_symlink (λ r. r) (status E (sys_symlink target linkpath))

  unfoldable pub unreliable_rename : Str → Str → M (State E) ℤ
  unfolding guarded status
  unreliable_rename oldpath newpath =
      guarded E oldpath op_rename (λ r. r) (status E (sys_rename oldpath newpath))

  unfoldable pub unreliable_link : Str → Str → M (State E) ℤ
  unfolding guarded status_negative
  unreliable_link oldpath newpath =
      guarded E oldpath op_link (λ r. r) (status_negative E (sys_link oldpath newpath))

  unfoldable pub unreliable_chmod : Str → ℕ → M (State E) ℤ
  unfolding guarded status_negative
  unreliable_chmod path mode =
      guarded E path op_chmod (λ r. r) (status_negative E (sys_chmod path mode))

  unfoldable pub unreliable_chown : Str → ℕ → ℕ → M (State E) ℤ
  unfolding guarded status
  unreliable_chown path owner group =
      guarded E path op_chown (λ r. r) (status E (sys_chown path owner group))

  unfoldable pub unreliable_truncate : Str → ℤ → M (State E) ℤ
  unfolding guarded status
  unreliable_truncate path len =
      guarded E path op_truncate (λ r. r) (status E (sys_truncate path len))

  unfoldable pub unreliable_statfs : Str → List ℕ → M (State E) (ℤ × List ℕ)
  unfolding guarded filled
  unreliable_statfs path buf =
      guarded E path op_statfs (λ r. (r, buf)) (filled E (λ _. pos 0) buf (sys_statvfs path))

  unfoldable pub unreliable_access : Str → ℕ → M (State E) ℤ
  unfolding guarded status
  unreliable_access path mode = guarded E path op_access (λ r. r) (status E (sys_access path mode))

  unfoldable pub unreliable_utimens : Str → List ℕ → M (State E) ℤ
  unfolding guarded status
  unreliable_utimens path ts =
      guarded E path op_utimens (λ r. r)
        (status E (sys_utimensat (pos 0) path ts at_symlink_nofollow))
