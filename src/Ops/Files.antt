-- ===== src/Ops/Files.antt =====
-- The operations of unreliablefs/unreliablefs_ops.c on open files.
use afs_cs.Base.{
  ℕ, ℤ, pos, neg, minus_one, ◌==ℤ◌, to_int, to_u64, List, Option, none, some, Str, ◌==◌,
  if◌then◌else◌,
}
use afs_cs.Base.Run.{M, pure, undefined, ◌>>=◌, ◌>>◌}
use afs_cs.Errno.{eopnotsupp}
use afs_cs.Build.{
  op_open, op_read, op_write, op_flush, op_release, op_fsync, op_creat, op_ftruncate, op_fgetattr,
  op_lock, op_ioctl, op_flock, op_fallocate,
}
use afs_cs.System.{Env, State}
use afs_cs.System.Kernel.{
  Call, sys_open, sys_open_mode, sys_pread, sys_pwrite, sys_close, sys_dup, sys_fsync,
  sys_fdatasync, sys_truncate, sys_fstat, sys_fcntl, sys_ioctl, sys_flock, sys_fallocate,
}
use afs_cs.System.Memory.{sys}
use afs_cs.Ops.{FileInfo, guarded, negated_errno, status, filled}

-- `O_RDONLY` and `O_WRONLY`
abbrev pub o_rdonly : ℕ
o_rdonly = 0

abbrev pub o_wronly : ℕ
o_wronly = 1

-- The descriptor in `fi->fh`.
abbrev pub descriptor : FileInfo → ℤ
descriptor fi = to_int fi.fh

-- The call that `datasync` chooses, for a file and for a directory.
abbrev pub sync_call : ℕ → ℤ → Call
sync_call datasync fd = if datasync == 0 then sys_fsync fd else sys_fdatasync fd

module _ (E : Env) where
  -- `ret = open(…); if (ret == -1) return -errno; fi->fh = ret; return 0;`
  unfoldable pub open_into : FileInfo → Call → M (State E) (ℤ × FileInfo)
  unfolding sys negated_errno
  open_into fi c = do
    r ← sys E c
    if r.value ==ℤ minus_one
        then (do e ← negated_errno E; pure (e, fi))
        else pure (pos 0, record fi { fh = to_u64 r.value })

  unfoldable pub unreliable_open : Str → FileInfo → M (State E) (ℤ × FileInfo)
  unfolding guarded open_into
  unreliable_open path fi =
      guarded E path op_open (λ r. (r, fi)) (open_into fi (sys_open path fi.flags))

  unfoldable pub unreliable_create : Str → ℕ → FileInfo → M (State E) (ℤ × FileInfo)
  unfolding guarded open_into
  unreliable_create path mode fi =
      guarded E path op_creat (λ r. (r, fi)) (open_into fi (sys_open_mode path fi.flags mode))

  -- `fd = open(path, flags)` if `fi` is NULL, else `fd = fi->fh`.
  unfoldable pub acquire : Str → ℕ → Option FileInfo → M (State E) ℤ
  unfolding sys
  acquire path flags none = do r ← sys E (sys_open path flags); pure r.value
  acquire path flags (some fi) = pure (descriptor fi)

  -- `if (fi == NULL) close(fd);`
  unfoldable pub give_up : ℤ → Option FileInfo → M (State E) (Unit {0})
  unfolding sys
  give_up fd none = do _ ← sys E (sys_close fd); pure tt
  give_up fd (some fi) = pure tt

  -- The transfer and the close that follows it, whether or not the transfer fails.
  unfoldable pub transfer : ℤ → Option FileInfo → List ℕ → Call → M (State E) (ℤ × List ℕ)
  unfolding filled give_up
  transfer fd fi buf c = do r ← filled E (λ n. n) buf c; give_up fd fi; pure r

  unfoldable pub read_body : Str → List ℕ → ℕ → ℤ → Option FileInfo → M (State E) (ℤ × List ℕ)
  unfolding acquire negated_errno transfer
  read_body path buf size offset fi = do
    fd ← acquire path o_rdonly fi
    if fd ==ℤ minus_one
        then (do e ← negated_errno E; pure (e, buf))
        else transfer fd fi buf (sys_pread fd size offset)

  unfoldable pub unreliable_read : Str → List ℕ → ℕ → ℤ → Option FileInfo → M (State E) (ℤ × List ℕ)
  unfolding guarded read_body
  unreliable_read path buf size offset fi =
      guarded E path op_read (λ r. (r, buf)) (read_body path buf size offset fi)

  -- `buf` holds the `size` bytes to write.
  unfoldable pub write_body : Str → List ℕ → ℤ → Option FileInfo → M (State E) ℤ
  unfolding acquire negated_errno transfer
  write_body path buf offset fi = do
    fd ← acquire path o_wronly fi
    if fd ==ℤ minus_one
        then negated_errno E
        else (do (ret, _) ← transfer fd fi buf (sys_pwrite fd buf offset); pure ret)

  unfoldable pub unreliable_write : Str → List ℕ → ℤ → Option FileInfo → M (State E) ℤ
  unfolding guarded write_body
  unreliable_write path buf offset fi =
      guarded E path op_write (λ r. r) (write_body path buf offset fi)

  -- `close(dup(fi->fh))`
  unfoldable pub flush_body : FileInfo → M (State E) ℤ
  unfolding sys status
  flush_body fi = do d ← sys E (sys_dup (descriptor fi)); status E (sys_close d.value)

  unfoldable pub unreliable_flush : Str → FileInfo → M (State E) ℤ
  unfolding guarded flush_body
  unreliable_flush path fi = guarded E path op_flush (λ r. r) (flush_body fi)

  unfoldable pub unreliable_release : Str → FileInfo → M (State E) ℤ
  unfolding guarded status
  unreliable_release path fi =
      guarded E path op_release (λ r. r) (status E (sys_close (descriptor fi)))

  unfoldable pub unreliable_fsync : Str → ℕ → FileInfo → M (State E) ℤ
  unfolding guarded status
  unreliable_fsync path datasync fi =
      guarded E path op_fsync (λ r. r) (status E (sync_call datasync (descriptor fi)))

  -- `truncate` by the path; the open file plays no part.
  unfoldable pub unreliable_ftruncate : Str → ℤ → FileInfo → M (State E) ℤ
  unfolding guarded status
  unreliable_ftruncate path len fi =
      guarded E path op_ftruncate (λ r. r) (status E (sys_truncate path len))

  unfoldable pub unreliable_fgetattr : Str → List ℕ → FileInfo → M (State E) (ℤ × List ℕ)
  unfolding guarded filled
  unreliable_fgetattr path buf fi =
      guarded E path op_fgetattr (λ r. (r, buf))
        (filled E (λ _. pos 0) buf (sys_fstat (descriptor fi)))

  -- `fl` is the `struct flock`, which the call may fill.
  unfoldable pub unreliable_lock : Str → FileInfo → ℕ → List ℕ → M (State E) (ℤ × List ℕ)
  unfolding guarded filled
  unreliable_lock path fi cmd fl =
      guarded E path op_lock (λ r. (r, fl))
        (filled E (λ _. pos 0) fl (sys_fcntl (descriptor fi) cmd fl))

  unfoldable pub unreliable_ioctl : Str → ℕ → List ℕ → FileInfo → M (State E) (ℤ × List ℕ)
  unfolding guarded filled
  unreliable_ioctl path cmd arg fi =
      guarded E path op_ioctl (λ r. (r, arg))
        (filled E (λ n. n) arg (sys_ioctl (descriptor fi) cmd arg))

  unfoldable pub unreliable_flock : Str → FileInfo → ℕ → M (State E) ℤ
  unfolding guarded status
  unreliable_flock path fi op =
      guarded E path op_flock (λ r. r) (status E (sys_flock (descriptor fi) op))

  -- `fallocate((int) fi->fh, …)`, which reads through `fi` also where it is NULL.
  unfoldable pub fallocate_call : Option FileInfo → ℤ → ℤ → M (State E) ℤ
  unfolding status
  fallocate_call none offset len = undefined
  fallocate_call (some fi) offset len = status E (sys_fallocate (descriptor fi) 0 offset len)

  unfoldable pub fallocate_body : Str → ℕ → ℤ → ℤ → Option FileInfo → M (State E) ℤ
  unfolding acquire negated_errno fallocate_call
  fallocate_body path mode offset len fi =
      if mode == 0
      then (do
        fd ← acquire path o_wronly fi
        if fd ==ℤ minus_one then negated_errno E else fallocate_call fi offset len)
      else pure (neg (pos (E.errno_code eopnotsupp)))

  unfoldable pub unreliable_fallocate : Str → ℕ → ℤ → ℤ → Option FileInfo → M (State E) ℤ
  unfolding guarded fallocate_body
  unreliable_fallocate path mode offset len fi =
      guarded E path op_fallocate (λ r. r) (fallocate_body path mode offset len fi)
