-- ===== src/Ops/Answers.antt =====
-- What the operations answer without faults: a number that FUSE takes for a result, and the
-- configuration and the heap as they were.
use afs_cs.Base.{
  ℕ, ◌<◌, ℤ, pos, minus_one, ltb, ◌≡◌, refl, ◌⊎◌, inl, inr, true, List, none, some, Str, length,
  arith,
}
use afs_cs.Base.Run.{M, Ensures, ensures}
use afs_cs.System.{Env, State}
use afs_cs.System.Kernel.{sys_readlink}
use afs_cs.System.Memory.{sys}
use afs_cs.Errinj.Frame.{SameData}
use afs_cs.Ops.{negated_errno}
use afs_cs.Ops.Paths.{readlink_body, terminate}
use afs_cs.Ops.Requests.{
  Request, Response, respond, just_ret, with_buf, with_info, with_listing, fuse_getattr,
  fuse_readlink, fuse_link, fuse_chmod, fuse_open, fuse_read, fuse_write, fuse_statfs, fuse_flush,
  fuse_getxattr, fuse_listxattr, fuse_opendir, fuse_readdir, fuse_fsyncdir, fuse_create,
  fuse_fgetattr, fuse_lock, fuse_ioctl, fuse_fallocate,
}
use afs_cs.Ops.Overflow.{length-overwrite}
use afs_cs.Ops.Passthrough.{passthrough}
use afs_cs.Ops.Keeps.{
  IsStatus, IsStatus-neg, Keeps, Reported, Keeps-bind, pure-Keeps, status-Keeps,
  status_negative-Keeps, filled-Keeps, filled-Any, lstat_body-Keeps, open_into-Keeps,
  opendir_body-Keeps, readdir_body-Keeps, fsyncdir_body-Keeps, read_body-Keeps, write_body-Keeps,
  flush_body-Keeps, fallocate_body-Keeps,
}

module _ {E : Env} where
  -- What a request may be answered. Four operations return a size.
  abbrev pub IsAnswer : Request E → ℤ → Type 0
  IsAnswer (fuse_read _ _ _ _ _) ret = Unit
  IsAnswer (fuse_write _ _ _ _) ret = Unit
  IsAnswer (fuse_listxattr _ _ _) ret = Unit
  IsAnswer (fuse_ioctl _ _ _ _) ret = Unit
  IsAnswer _ ret = IsStatus ret

  -- The two cases in which an operation is undefined are left out: a link that fills the buffer,
  -- and `fallocate` without an open file.
  abbrev pub IsDefined : Request E → Type 0
  IsDefined (fuse_readlink path buf bufsiz) =
      (w : E.World)
      → ((E.call (sys_readlink path bufsiz) w).0.value ≡ minus_one)
        ⊎ ((n : ℕ) × ((E.call (sys_readlink path bufsiz) w).0.value ≡ pos n) × (n < length buf))
  IsDefined (fuse_fallocate _ _ _ _ none) = ⊥
  IsDefined _ = Unit

module _ (E : Env) where
  readlink_body-Keeps :
      (path : Str) (buf : List ℕ) (bufsiz : ℕ)
      → IsDefined {E = E} (fuse_readlink path buf bufsiz)
      → Keeps E (Reported E) (readlink_body E path buf bufsiz)
  unfolding readlink_body sys terminate negated_errno
  readlink_body-Keeps path buf bufsiz fits s = elim (fits s.world) [
    | inl failed ↦ rw failed (ensures (IsStatus-neg _, record { conf = refl; heap = refl }))
    | inr (n, value, short) ↦
        let inside : ltb n (length buf) ≡ true = ground arith in
        rw (value, length-overwrite, inside)
          (ensures (inl refl, record { conf = refl; heap = refl }))
  ]

  respond-Keeps :
      {A : Type 0} {P : A → Type 0} (Q : ℤ → Type 0) (g : A → Response E) (m : M (State E) A)
      → ((a : A) → P a → Q (g a).ret)
      → Keeps E P m
      → Keeps E (λ resp. Q resp.ret) (respond E g m)
  respond-Keeps Q g m is keeps = Keeps-bind E _ _ keeps λ a p. pure-Keeps E (g a) (is a p)

  just-Keeps :
      (m : M (State E) ℤ)
      → Keeps E IsStatus m
      → Keeps E (λ resp. IsStatus resp.ret) (respond E (just_ret E) m)
  just-Keeps m = respond-Keeps IsStatus (just_ret E) m λ a p. p

  -- Without faults every request is answered, and configuration and heap stay as they are.
  pub passthrough-Keeps :
      (r : Request E)
      → IsDefined r
      → (s : State E) → Ensures (λ resp t. IsAnswer r resp.ret × SameData s t) (passthrough E r s)
  unfolding passthrough
  passthrough-Keeps (fuse_getattr path buf) d =
      respond-Keeps IsStatus (with_buf E) _ (λ _ p. p) (lstat_body-Keeps E path buf)
  passthrough-Keeps (fuse_readlink path buf bufsiz) d =
      respond-Keeps IsStatus (with_buf E) _ (λ _ p. p) (readlink_body-Keeps path buf bufsiz d)
  passthrough-Keeps (fuse_link oldpath newpath) d = just-Keeps _ (status_negative-Keeps E _)
  passthrough-Keeps (fuse_chmod path mode) d = just-Keeps _ (status_negative-Keeps E _)
  passthrough-Keeps (fuse_open path fi) d =
      respond-Keeps IsStatus (with_info E) _ (λ _ p. p) (open_into-Keeps E fi _)
  passthrough-Keeps (fuse_create path mode fi) d =
      respond-Keeps IsStatus (with_info E) _ (λ _ p. p) (open_into-Keeps E fi _)
  passthrough-Keeps (fuse_read path buf size offset fi) d =
      respond-Keeps (λ _. Unit) (with_buf E) _ (λ _ p. p)
        (read_body-Keeps E path buf size offset fi)
  passthrough-Keeps (fuse_write path buf offset fi) d =
      respond-Keeps (λ _. Unit) (just_ret E) _ (λ _ p. p) (write_body-Keeps E path buf offset fi)
  passthrough-Keeps (fuse_statfs path buf) d =
      respond-Keeps IsStatus (with_buf E) _ (λ _ p. p) (filled-Keeps E buf _)
  passthrough-Keeps (fuse_flush path fi) d = just-Keeps _ (flush_body-Keeps E fi)
  passthrough-Keeps (fuse_getxattr path name value size) d =
      respond-Keeps IsStatus (with_buf E) _ (λ _ p. p) (filled-Keeps E value _)
  passthrough-Keeps (fuse_listxattr path list size) d =
      respond-Keeps (λ _. Unit) (with_buf E) _ (λ _ p. p) (filled-Any E _ list _)
  passthrough-Keeps (fuse_opendir path fi) d =
      respond-Keeps IsStatus (with_info E) _ (λ _ p. p) (opendir_body-Keeps E path fi)
  passthrough-Keeps (fuse_readdir path dirbuf) d =
      respond-Keeps IsStatus (with_listing E) _ (λ _ p. p) (readdir_body-Keeps E path dirbuf)
  passthrough-Keeps (fuse_fsyncdir path datasync fi) d =
      just-Keeps _ (fsyncdir_body-Keeps E path datasync)
  passthrough-Keeps (fuse_fgetattr path buf fi) d =
      respond-Keeps IsStatus (with_buf E) _ (λ _ p. p) (filled-Keeps E buf _)
  passthrough-Keeps (fuse_lock path fi cmd fl) d =
      respond-Keeps IsStatus (with_buf E) _ (λ _ p. p) (filled-Keeps E fl _)
  passthrough-Keeps (fuse_ioctl path cmd arg fi) d =
      respond-Keeps (λ _. Unit) (with_buf E) _ (λ _ p. p) (filled-Any E _ arg _)
  passthrough-Keeps (fuse_fallocate path mode offset len none) d = elim d [ ]
  passthrough-Keeps (fuse_fallocate path mode offset len (some fi)) d =
      just-Keeps _ (fallocate_body-Keeps E path mode offset len fi)
  passthrough-Keeps _ d = just-Keeps _ (status-Keeps E _)
