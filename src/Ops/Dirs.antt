-- ===== src/Ops/Dirs.antt =====
-- The operations of unreliablefs/unreliablefs_ops.c on directories. A `DIR *` is a number, 0 for
-- NULL.
use afs_cs.Base.{ℕ, ◌*◌, ◌^◌, ℤ, pos, minus_one, ◌==ℤ◌, to_u64, List, [], ◌∷◌, Str, if◌then◌else◌}
use afs_cs.Base.Run.{M, pure, ◌>>=◌}
use afs_cs.Build.{op_opendir, op_readdir, op_releasedir, op_fsyncdir}
use afs_cs.System.{Env, State}
use afs_cs.System.Kernel.{sys_opendir, sys_closedir, sys_dirfd, Dirent}
use afs_cs.System.Memory.{sys}
use afs_cs.Ops.{FileInfo, guarded, negated_errno, status}
use afs_cs.Ops.Files.{sync_call}

module _ (E : Env) where
  unfoldable pub opendir_body : Str → FileInfo → M (State E) (ℤ × FileInfo)
  unfolding sys negated_errno
  opendir_body path fi = do
    r ← sys E (sys_opendir path)
    if r.value ==ℤ pos 0
        then (do e ← negated_errno E; pure (e, fi))
        else pure (pos 0, record fi { fh = to_u64 r.value })

  unfoldable pub unreliable_opendir : Str → FileInfo → M (State E) (ℤ × FileInfo)
  unfolding guarded opendir_body
  unreliable_opendir path fi = guarded E path op_opendir (λ r. (r, fi)) (opendir_body path fi)

  -- The loop over the entries, which a filler that returns non-zero ends.
  unfoldable pub fill_loop : List Dirent → E.DirBuf → E.DirBuf
  fill_loop [] buf = buf
  fill_loop (de ∷ entries) buf =
      let (full, buf') = E.filler buf de.d_name de.d_ino (de.d_type * 2 ^ 12) in
      let rest = fill_loop entries buf' in if full ==ℤ pos 0 then rest else buf'

  unfoldable pub readdir_body : Str → E.DirBuf → M (State E) (ℤ × E.DirBuf)
  unfolding sys negated_errno fill_loop
  readdir_body path buf = do
    r ← sys E (sys_opendir path)
    if r.value ==ℤ pos 0 then (do e ← negated_errno E; pure (e, buf)) else (λ s.
        (do
          _ ← sys E (sys_closedir r.value)
          pure (pos 0, fill_loop (E.dir_entries r.value s.world) buf))
          s)

  unfoldable pub unreliable_readdir : Str → E.DirBuf → M (State E) (ℤ × E.DirBuf)
  unfolding guarded readdir_body
  unreliable_readdir path buf = guarded E path op_readdir (λ r. (r, buf)) (readdir_body path buf)

  unfoldable pub unreliable_releasedir : Str → FileInfo → M (State E) ℤ
  unfolding guarded status
  unreliable_releasedir path fi =
      guarded E path op_releasedir (λ r. r) (status E (sys_closedir (pos fi.fh)))

  -- The directory is closed only where the call succeeded.
  unfoldable pub fsyncdir_body : Str → ℕ → M (State E) ℤ
  unfolding sys negated_errno
  fsyncdir_body path datasync = do
    dir ← sys E (sys_opendir path)
    if dir.value ==ℤ pos 0 then negated_errno E else (do
      fd ← sys E (sys_dirfd dir.value)
      r ← sys E (sync_call datasync fd.value)
      if r.value ==ℤ minus_one
          then negated_errno E
          else (do _ ← sys E (sys_closedir dir.value); pure (pos 0)))

  unfoldable pub unreliable_fsyncdir : Str → ℕ → FileInfo → M (State E) ℤ
  unfolding guarded fsyncdir_body
  unreliable_fsyncdir path datasync fi =
      guarded E path op_fsyncdir (λ r. r) (fsyncdir_body path datasync)
