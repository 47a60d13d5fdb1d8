-- ===== src/Ops.antt =====
-- What the operations of unreliablefs/unreliablefs_ops.c share: the call of `error_inject` at
-- their head, and the ways in which they turn the result of a system call into theirs.
pub mod Paths
pub mod Files
pub mod Xattrs
pub mod Dirs
pub mod Requests
pub mod Dispatch
pub mod Passthrough
pub mod Keeps
pub mod Answers
pub mod Injected
pub mod Descriptors
pub mod Handles
pub mod Overflow
pub mod EndToEnd
pub mod Total
pub mod Removed
pub mod Failing
pub mod Delayed
pub mod Masked
use afs_cs.Base.{
  ℕ, ℤ, pos, negsuc, neg, minus_one, ◌==ℤ◌, is_negative, List, [], ◌∷◌, Str, if◌then◌else◌,
}
use afs_cs.Base.Run.{M, pure, ◌>>=◌}
use afs_cs.Build.{FuseOp}
use afs_cs.System.{Env, State}
use afs_cs.System.Kernel.{Call}
use afs_cs.System.Memory.{sys, get_errno}
use afs_cs.Errinj.{error_inject, noop_result}

-- `struct fuse_file_info`, as far as it is used.
pub record FileInfo : Type 0 where
  pub flags : ℕ
  pub fh : ℕ

-- A buffer after `bytes` were written from its start.
unfoldable pub overwrite : List ℕ → List ℕ → List ℕ
overwrite buf [] = buf
overwrite [] (b ∷ bytes) = []
overwrite (_ ∷ buf) (b ∷ bytes) = b ∷ overwrite buf bytes

module _ (E : Env) where
  -- The first lines of every operation. `early` is what it returns, from its result, when the
  -- injection settles it.
  unfoldable pub guarded : {A : Type 0} → Str → FuseOp → (ℤ → A) → M (State E) A → M (State E) A
  guarded path operation early body = do
    ret ← error_inject E path operation
    if ret ==ℤ noop_result
        then pure (early (pos 0))
        else (if ret ==ℤ pos 0 then body else pure (early ret))

  -- `-errno`
  unfoldable pub negated_errno : M (State E) ℤ
  negated_errno = do e ← get_errno E; pure (neg (pos e))

  -- `ret = call; if (ret == -1) return -errno; return 0;`
  unfoldable pub status : Call → M (State E) ℤ
  unfolding sys negated_errno
  status c = do r ← sys E c; if r.value ==ℤ minus_one then negated_errno else pure (pos 0)

  -- The same with the test `ret < 0`.
  unfoldable pub status_negative : Call → M (State E) ℤ
  unfolding sys negated_errno
  status_negative c = do r ← sys E c; if is_negative r.value then negated_errno else pure (pos 0)

  -- `if (ret == -1) return -errno; return ret;`, and a buffer that the call fills.
  unfoldable pub filled : (ℤ → ℤ) → List ℕ → Call → M (State E) (ℤ × List ℕ)
  unfolding sys negated_errno overwrite
  filled result buf c = do
    r ← sys E c
    if r.value ==ℤ minus_one
        then (do e ← negated_errno; pure (e, buf))
        else pure (result r.value, overwrite buf r.stored)
