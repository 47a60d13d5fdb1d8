-- ===== src/Ops/Keeps.antt =====
-- Commands of unreliablefs/unreliablefs_ops.c that leave the configuration and the heap as they
-- were, and whose result is a status.
use afs_cs.Base.{
  ℕ, zero, suc, ℤ, pos, neg, minus_one, to_u64, ◌==ℤ◌, is_negative, ◌≡◌, refl, ◌⊎◌, inl, inr, Bool,
  true, List, Option, none, some, Str, ◌==◌, if◌then◌else◌,
}
use afs_cs.Base.Run.{M, pure, ◌>>=◌, Ensures, ensures, Ensures-bind, Ensures-mono, Ensures-if}
use afs_cs.Errno.{eopnotsupp}
use afs_cs.System.{Env, State}
use afs_cs.System.Kernel.{
  Call, sys_open, sys_opendir, sys_pread, sys_fallocate, sys_pwrite, sys_dup, sys_close,
  sys_closedir, sys_dirfd,
}
use afs_cs.System.Memory.{sys}
use afs_cs.Errinj.Frame.{SameData, SameData-refl, SameData-trans}
use afs_cs.Ops.{FileInfo, negated_errno, status, status_negative, filled, overwrite}
use afs_cs.Ops.Paths.{lstat_body}
use afs_cs.Ops.Files.{
  open_into, acquire, give_up, transfer, read_body, write_body, flush_body, fallocate_body,
  fallocate_call, descriptor, sync_call, o_rdonly, o_wronly,
}
use afs_cs.Ops.Dirs.{opendir_body, readdir_body, fsyncdir_body, fill_loop}

-- 0, or a negative number for an error.
abbrev pub IsStatus : ℤ → Type 0
IsStatus ret = (ret ≡ pos 0) ⊎ (is_negative ret ≡ true)

pub IsStatus-neg : (n : ℕ) → IsStatus (neg (pos n))
IsStatus-neg zero = inl refl
IsStatus-neg (suc n) = inr refl

module _ (E : Env) where
  -- A command that leaves the data alone, and what its result is.
  abbrev pub Keeps : {A : Type 0} → (A → Type 0) → M (State E) A → Type 0
  Keeps P m = (s : State E) → Ensures (λ a t. P a × SameData s t) (m s)

  abbrev pub Any : {A : Type 0} → A → Type 0
  Any _ = Unit

  -- The first part of a pair is a status.
  abbrev pub Reported : {A : Type 0} → ℤ × A → Type 0
  Reported (r, _) = IsStatus r

  pub Keeps-bind :
      {A B : Type 0} {P : A → Type 0} {Q : B → Type 0} (m : M (State E) A) (f : A → M (State E) B)
      → Keeps P m
      → ((a : A) → P a → Keeps Q (f a))
      → (s : State E) → Ensures (λ b t. Q b × SameData s t) ((m >>= f) s)
  Keeps-bind m f first next s =
      Ensures-bind (first s)
        λ a t (p, k). Ensures-mono (next a p t) λ b u (q, k'). (q, SameData-trans k k')

  pub sys-Keeps : (c : Call) → Keeps Any (sys E c)
  unfolding sys
  sys-Keeps c s = ensures (tt, record { conf = refl; heap = refl })

  pub negated_errno-Keeps : Keeps IsStatus (negated_errno E)
  unfolding negated_errno
  negated_errno-Keeps s = ensures (IsStatus-neg s.errno, SameData-refl s)

  pub if-Keeps :
      {A : Type 0} {P : A → Type 0} (b : Bool) (m n : M (State E) A)
      → Keeps P m
      → Keeps P n
      → Keeps P (if b then m else n)
  if-Keeps {P} b m n p q s = Ensures-if {P = λ a t. P a × SameData s t} b m n s (p s) (q s)

  pub pure-Keeps : {A : Type 0} {P : A → Type 0} (a : A) → P a → Keeps P (pure a)
  pure-Keeps a p s = ensures (p, SameData-refl s)

  pub status-Keeps : (c : Call) → Keeps IsStatus (status E c)
  unfolding status
  status-Keeps c = Keeps-bind _ _ (sys-Keeps c) λ r _.
      if-Keeps (r.value ==ℤ minus_one) _ _ negated_errno-Keeps (pure-Keeps (pos 0) (inl refl))

  pub status_negative-Keeps : (c : Call) → Keeps IsStatus (status_negative E c)
  unfolding status_negative
  status_negative-Keeps c =
      Keeps-bind _ _ (sys-Keeps c) λ r _.
        if-Keeps (is_negative r.value) _ _ negated_errno-Keeps (pure-Keeps (pos 0) (inl refl))

  -- `-errno` beside a buffer or a handle that stays.
  pub failure-Keeps : {A : Type 0} (a : A) → Keeps Reported (do e ← negated_errno E; pure (e, a))
  failure-Keeps a = Keeps-bind _ _ negated_errno-Keeps λ e is. pure-Keeps (e, a) is

  pub filled-Keeps : (buf : List ℕ) (c : Call) → Keeps Reported (filled E (λ _. pos 0) buf c)
  unfolding filled
  filled-Keeps buf c = Keeps-bind _ _ (sys-Keeps c) λ r _.
      if-Keeps (r.value ==ℤ minus_one) _ _ (failure-Keeps buf)
        (pure-Keeps (pos 0, overwrite buf r.stored) (inl refl))

  pub filled-Any : (f : ℤ → ℤ) (buf : List ℕ) (c : Call) → Keeps Any (filled E f buf c)
  unfolding filled
  filled-Any f buf c = Keeps-bind _ _ (sys-Keeps c) λ r _.
      if-Keeps (r.value ==ℤ minus_one) _ _
        (Keeps-bind _ _ negated_errno-Keeps λ e _. pure-Keeps (e, buf) tt)
        (pure-Keeps (f r.value, overwrite buf r.stored) tt)

  pub lstat_body-Keeps : (path : Str) (buf : List ℕ) → Keeps Reported (lstat_body E path buf)
  unfolding lstat_body
  lstat_body-Keeps path buf = filled-Keeps _ _

  pub open_into-Keeps : (fi : FileInfo) (c : Call) → Keeps Reported (open_into E fi c)
  unfolding open_into
  open_into-Keeps fi c = Keeps-bind _ _ (sys-Keeps c) λ r _.
      if-Keeps (r.value ==ℤ minus_one) _ _ (failure-Keeps fi)
        (pure-Keeps (pos 0, record fi { fh = to_u64 r.value }) (inl refl))

  pub opendir_body-Keeps : (path : Str) (fi : FileInfo) → Keeps Reported (opendir_body E path fi)
  unfolding opendir_body
  opendir_body-Keeps path fi = Keeps-bind _ _ (sys-Keeps (sys_opendir path)) λ r _.
      if-Keeps (r.value ==ℤ pos 0) _ _ (failure-Keeps fi)
        (pure-Keeps (pos 0, record fi { fh = to_u64 r.value }) (inl refl))

  pub readdir_body-Keeps : (path : Str) (buf : E.DirBuf) → Keeps Reported (readdir_body E path buf)
  unfolding readdir_body
  readdir_body-Keeps path buf = Keeps-bind _ _ (sys-Keeps (sys_opendir path)) λ r _.
      if-Keeps (r.value ==ℤ pos 0) _ _ (failure-Keeps buf) λ s.
        Keeps-bind _ _ (sys-Keeps (sys_closedir r.value))
          (λ _ _. pure-Keeps (pos 0, fill_loop E (E.dir_entries r.value s.world) buf) (inl refl)) s

  pub fsyncdir_body-Keeps :
      (path : Str) (datasync : ℕ) → Keeps IsStatus (fsyncdir_body E path datasync)
  unfolding fsyncdir_body
  fsyncdir_body-Keeps path datasync = Keeps-bind _ _ (sys-Keeps (sys_opendir path)) λ dir _.
      if-Keeps (dir.value ==ℤ pos 0) _ _ negated_errno-Keeps (
        Keeps-bind _ _ (sys-Keeps (sys_dirfd dir.value)) λ fd _.
          Keeps-bind _ _ (sys-Keeps (sync_call datasync fd.value)) λ r _.
            if-Keeps (r.value ==ℤ minus_one) _ _ negated_errno-Keeps (
              Keeps-bind _ _ (sys-Keeps (sys_closedir dir.value))
                λ _ _. pure-Keeps (pos 0) (inl refl)))

  pub acquire-Keeps :
      (path : Str) (flags : ℕ) (fi : Option FileInfo) → Keeps Any (acquire E path flags fi)
  unfolding acquire
  acquire-Keeps path flags none =
      Keeps-bind _ _ (sys-Keeps (sys_open path flags)) λ r _. pure-Keeps r.value tt
  acquire-Keeps path flags (some fi) = pure-Keeps (descriptor fi) tt

  pub give_up-Keeps : (fd : ℤ) (fi : Option FileInfo) → Keeps Any (give_up E fd fi)
  unfolding give_up
  give_up-Keeps fd none = Keeps-bind _ _ (sys-Keeps (sys_close fd)) λ _ _. pure-Keeps tt tt
  give_up-Keeps fd (some fi) = pure-Keeps tt tt

  pub transfer-Keeps :
      (fd : ℤ) (fi : Option FileInfo) (buf : List ℕ) (c : Call) → Keeps Any (transfer E fd fi buf c)
  unfolding transfer
  transfer-Keeps fd fi buf c =
      Keeps-bind _ _ (filled-Any (λ n. n) buf c)
        λ r _. Keeps-bind _ _ (give_up-Keeps fd fi) λ _ _. pure-Keeps r tt

  pub read_body-Keeps :
      (path : Str) (buf : List ℕ) (size : ℕ) (offset : ℤ) (fi : Option FileInfo)
      → Keeps Any (read_body E path buf size offset fi)
  unfolding read_body
  read_body-Keeps path buf size offset fi = Keeps-bind _ _ (acquire-Keeps path o_rdonly fi) λ fd _.
      if-Keeps (fd ==ℤ minus_one) _ _
        (Keeps-bind _ _ negated_errno-Keeps λ e _. pure-Keeps (e, buf) tt)
        (transfer-Keeps fd fi buf (sys_pread fd size offset))

  pub write_body-Keeps :
      (path : Str) (buf : List ℕ) (offset : ℤ) (fi : Option FileInfo)
      → Keeps Any (write_body E path buf offset fi)
  unfolding write_body
  write_body-Keeps path buf offset fi = Keeps-bind _ _ (acquire-Keeps path o_wronly fi) λ fd _.
      if-Keeps (fd ==ℤ minus_one) _ _
        (λ s. Ensures-mono (negated_errno-Keeps s) λ _ t (_, k). (tt, k))
        (Keeps-bind _ _ (transfer-Keeps fd fi buf (sys_pwrite fd buf offset))
          λ (ret, _) _. pure-Keeps ret tt)

  pub flush_body-Keeps : (fi : FileInfo) → Keeps IsStatus (flush_body E fi)
  unfolding flush_body
  flush_body-Keeps fi =
      Keeps-bind _ _ (sys-Keeps (sys_dup (descriptor fi))) λ d _. status-Keeps (sys_close d.value)

  pub fallocate_body-Keeps :
      (path : Str) (mode : ℕ) (offset len : ℤ) (fi : FileInfo)
      → Keeps IsStatus (fallocate_body E path mode offset len (some fi))
  unfolding fallocate_body fallocate_call
  fallocate_body-Keeps path mode offset len fi =
      if-Keeps (mode == 0) _ _
        (Keeps-bind _ _ (acquire-Keeps path o_wronly (some fi)) λ fd _.
          if-Keeps (fd ==ℤ minus_one) _ _ negated_errno-Keeps
            (status-Keeps (sys_fallocate (descriptor fi) 0 offset len)))
        (pure-Keeps _ (IsStatus-neg (E.errno_code eopnotsupp)))
