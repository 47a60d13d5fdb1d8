-- ===== src/Ops/Descriptors.antt =====
-- The open descriptors of the process across the operations that open files for themselves.
use mathlib.Core.Option.{get_or}
use afs_cs.Base.{
  ◌||◌, ◌&&◌, not, ◌==◌, ℕ, ℤ, pos, minus_one, neg, ◌≡◌, ◌≢◌, refl, Bool, true, false, List, Option,
  none, some, Str, ◌==ℤ◌, is_negative, Bool-cases, inl, inr, ==ℤ_iff, ==ℤ_false, ne_of_==ℤ_false,
  sym, ◌∙◌,
}
use afs_cs.Base.Run.{Ensures, ensures, Ensures-bind, Ensures-if}
use afs_cs.System.{Env, State}
use afs_cs.System.Kernel.{
  Call, Reply, sys_open, sys_close, sys_opendir, sys_closedir, sys_dirfd, sys_pread, sys_pwrite,
  sys_fsync, sys_fdatasync,
}
use afs_cs.System.Memory.{sys}
use afs_cs.System.Linux.{IsLinux}
use afs_cs.Ops.{FileInfo, negated_errno, filled}
use afs_cs.Ops.Files.{
  acquire, give_up, descriptor, transfer, read_body, write_body, sync_call, o_rdonly, o_wronly,
}
use afs_cs.Ops.Dirs.{fsyncdir_body}

pub toggled : (x v : ℤ) (o : ℤ → Bool) → o v ≡ false → (not (x ==ℤ v) && (x ==ℤ v || o x)) ≡ o x
toggled x v o fresh = elim (Bool-cases (x ==ℤ v)) [
  | inl same ↦ rw same (rw ((==ℤ_iff x v).0 same) (sym fresh))
  | inr other ↦ rw other
]

guard_true : (c d : Bool) {b r : Bool} → b ≡ true → r ≡ (c || d) → r ≡ ((b && c) || d)
guard_true c d holds is = rw holds is

module _ (E : Env) where
  -- A transfer is one system call.
  filled-world :
      (f : ℤ → ℤ) (buf : List ℕ) (c : Call) (s : State E)
      → Ensures (λ _ t. t.world ≡ (E.call c s.world).1) (filled E f buf c s)
  unfolding filled sys negated_errno
  filled-world f buf c s =
      Ensures-if {P = λ _ t. t.world ≡ (E.call c s.world).1}
        ((E.call c s.world).0.value ==ℤ minus_one) _ _ _ (ensures refl) (ensures refl)

module _ (E : Env) (P : IsLinux E) where
  open P use {files, files_call, open_fresh}

  pub files-open :
      (path : Str) (flags : ℕ) (w : E.World) (x : ℤ)
      → (E.call (sys_open path flags) w).0.value ≢ minus_one
      → files (E.call (sys_open path flags) w).1 x
        ≡ (x ==ℤ (E.call (sys_open path flags) w).0.value || files w x)
  files-open path flags w x ok = files_call (sys_open path flags) w x refl ∙ rw (==ℤ_false _ _ ok)

  files-close :
      (fd : ℤ) (w : E.World) (x : ℤ)
      → files (E.call (sys_close fd) w).1 x ≡ (not (x ==ℤ fd) && files w x)
  files-close fd w x = files_call (sys_close fd) w x refl

  -- Opening, a transfer and closing leave the descriptors as they were.
  pub open_close :
      (path : Str) (flags : ℕ) (w w₂ : E.World) (x : ℤ)
      → (E.call (sys_open path flags) w).0.value ≢ minus_one
      → ((y : ℤ) → files w₂ y ≡ files (E.call (sys_open path flags) w).1 y)
      → files (E.call (sys_close (E.call (sys_open path flags) w).0.value) w₂).1 x ≡ files w x
  open_close path flags w w₂ x ok same =
      let fd = (E.call (sys_open path flags) w).0.value in
      let at : (y : ℤ) → files w₂ y ≡ (y ==ℤ fd || files w y) =
        λ y. same y ∙ files-open path flags w y ok in
      files-close fd w₂ x ∙ (rw (at x) (toggled x fd (files w) (open_fresh path flags w ok)))

  -- The body of `read`.
  read_descriptors :
      (path : Str) (buf : List ℕ) (size : ℕ) (offset : ℤ) (fi : Option FileInfo) (s : State E)
      → Ensures
          (λ _ t. (x : ℤ) → files t.world x ≡ files s.world x)
          (read_body E path buf size offset fi s)
  unfolding read_body acquire give_up transfer sys negated_errno
  read_descriptors path buf size offset none s =
      elim (Bool-cases ((E.call (sys_open path o_rdonly) s.world).0.value ==ℤ minus_one)) [
        | inl failed ↦
            rw failed (ensures λ x. files_call (sys_open path o_rdonly) s.world x refl ∙ rw failed)
        | inr ok ↦ rw ok (
            Ensures-bind (filled-world E (λ n. n) buf (sys_pread _ size offset) _) λ _ t same.
              ensures λ x.
                open_close path o_rdonly s.world t.world x (ne_of_==ℤ_false _ _ ok)
                  λ y. rw same (files_call _ _ y refl))
      ]
  read_descriptors path buf size offset (some fi) s =
      Ensures-if {P = λ _ t. (x : ℤ) → files t.world x ≡ files s.world x}
        (descriptor fi ==ℤ minus_one) (λ t. some ((neg (pos t.errno), buf), t)) _ s
        (ensures λ x. refl)
        (Ensures-bind (filled-world E (λ n. n) buf (sys_pread (descriptor fi) size offset) s)
          λ _ t same. ensures λ x. rw same (files_call _ _ x refl))

  -- The body of `write`.
  write_descriptors :
      (path : Str) (buf : List ℕ) (offset : ℤ) (fi : Option FileInfo) (s : State E)
      → Ensures
          (λ _ t. (x : ℤ) → files t.world x ≡ files s.world x)
          (write_body E path buf offset fi s)
  unfolding write_body acquire give_up transfer sys negated_errno
  write_descriptors path buf offset none s =
      elim (Bool-cases ((E.call (sys_open path o_wronly) s.world).0.value ==ℤ minus_one)) [
        | inl failed ↦
            rw failed (ensures λ x. files_call (sys_open path o_wronly) s.world x refl ∙ rw failed)
        | inr ok ↦ rw ok (
            Ensures-bind {P = λ _ t. (x : ℤ) → files t.world x ≡ files s.world x}
              (Ensures-bind (filled-world E (λ n. n) buf (sys_pwrite _ buf offset) _) λ _ t same.
                ensures λ x.
                  open_close path o_wronly s.world t.world x (ne_of_==ℤ_false _ _ ok)
                    λ y. rw same (files_call _ _ y refl))
              λ r t balanced. ensures balanced)
      ]
  write_descriptors path buf offset (some fi) s =
      Ensures-if {P = λ _ t. (x : ℤ) → files t.world x ≡ files s.world x}
        (descriptor fi ==ℤ minus_one) (λ t. some (neg (pos t.errno), t)) _ s (ensures λ x. refl)
        (Ensures-bind {P = λ _ t. (x : ℤ) → files t.world x ≡ files s.world x}
          (Ensures-bind (filled-world E (λ n. n) buf (sys_pwrite (descriptor fi) buf offset) s)
            λ _ t same. ensures λ x. rw same (files_call _ _ x refl))
          λ r t balanced. ensures balanced)

module _ (E : Env) (P : IsLinux E) where
  open P use {files}

  -- On Linux, the bodies of `read` and `write` leave the open descriptors as they were: where they
  -- open the file for themselves, they close it, whether the transfer succeeds or not.
  pub transfer_descriptors :
      (path : Str) (buf : List ℕ) (size : ℕ) (offset : ℤ) (fi : Option FileInfo) (s : State E)
      → Ensures
          (λ _ t. (x : ℤ) → files t.world x ≡ files s.world x)
          (read_body E path buf size offset fi s)
        × Ensures
            (λ _ t. (x : ℤ) → files t.world x ≡ files s.world x)
            (write_body E path buf offset fi s)
  transfer_descriptors path buf size offset fi s =
      (read_descriptors E P path buf size offset fi s, write_descriptors E P path buf offset fi s)

module _ (E : Env) (P : IsLinux E) where
  open P use {dirs, dirs_call, opendir_fresh, sets_errno}

  -- The failing call of `fsyncdir` returns a negative number.
  negated_negative :
      (c : Call) (w : E.World) (n : ℕ)
      → (E.call c w).0.value ≡ minus_one
      → is_negative (neg (pos (get_or (E.call c w).0.errno n))) ≡ true
  negated_negative c w n failed = let (e, set) = sets_errno c w failed in rw set

  dirs-sync_call :
      (datasync : ℕ) (fd : ℤ) (w : E.World) (x : ℤ)
      → dirs (E.call (sync_call datasync fd) w).1 x ≡ dirs w x
  dirs-sync_call datasync fd w x = elim (Bool-cases (datasync == 0)) [
    | inl zero_given ↦ rw zero_given (dirs_call (sys_fsync fd) w x)
    | inr other ↦ rw other (dirs_call (sys_fdatasync fd) w x)
  ]

  dirs-opendir :
      (path : Str) (w : E.World) (x : ℤ)
      → (E.call (sys_opendir path) w).0.value ≢ pos 0
      → dirs (E.call (sys_opendir path) w).1 x
        ≡ (x ==ℤ (E.call (sys_opendir path) w).0.value || dirs w x)
  dirs-opendir path w x ok = dirs_call (sys_opendir path) w x ∙ rw (==ℤ_false _ _ ok)

  dirs-closedir :
      (dp : ℤ) (w : E.World) (x : ℤ)
      → dirs (E.call (sys_closedir dp) w).1 x ≡ (not (x ==ℤ dp) && dirs w x)
  dirs-closedir dp w x = dirs_call (sys_closedir dp) w x

  -- What `fsyncdir` calls before it closes the directory leaves the streams as `opendir` left them.
  dirs-synced :
      (path : Str) (datasync : ℕ) (w : E.World)
      → (E.call (sys_opendir path) w).0.value ≢ pos 0
      → let dir = E.call (sys_opendir path) w in
        let fd = E.call (sys_dirfd dir.0.value) dir.1 in
        (x : ℤ)
        → dirs (E.call (sync_call datasync fd.0.value) fd.1).1 x ≡ (x ==ℤ dir.0.value || dirs w x)
  dirs-synced path datasync w ok x =
      dirs-sync_call datasync _ _ x ∙ dirs_call (sys_dirfd _) _ x ∙ dirs-opendir path w x ok

  -- On Linux, the body of `fsyncdir`, if it could open the directory, leaves open the streams that
  -- were open, and in addition the one that it opened exactly if its result is below 0.
  pub fsyncdir_descriptors :
      (path : Str) (datasync : ℕ) (s : State E)
      → (E.call (sys_opendir path) s.world).0.value ≢ pos 0
      → Ensures
          (λ ret t.
            (x : ℤ)
            → dirs t.world x ≡ (
                (is_negative ret && x ==ℤ (E.call (sys_opendir path) s.world).0.value)
                || dirs s.world x))
          (fsyncdir_body E path datasync s)
  unfolding fsyncdir_body sys negated_errno
  fsyncdir_descriptors path datasync s is_open =
      rw (==ℤ_false _ _ is_open) (elim (Bool-cases (synced ==ℤ minus_one)) [
        | inl failed ↦
            rw failed
              (ensures λ x. guard_true _ _ (negated_negative _ _ _ ((==ℤ_iff _ _).0 failed)) (at x))
        | inr ok ↦ rw ok (ensures closed)
      ])
    where
      dp : ℤ
      dp = (E.call (sys_opendir path) s.world).0.value

      fd : Reply × E.World
      fd = E.call (sys_dirfd dp) (E.call (sys_opendir path) s.world).1

      synced : ℤ
      synced = (E.call (sync_call datasync fd.0.value) fd.1).0.value

      at :
          (x : ℤ)
          → dirs (E.call (sync_call datasync fd.0.value) fd.1).1 x ≡ (x ==ℤ dp || dirs s.world x)
      at = dirs-synced path datasync s.world is_open

      closed :
          (x : ℤ)
          → dirs (E.call (sys_closedir dp) (E.call (sync_call datasync fd.0.value) fd.1).1).1 x
            ≡ dirs s.world x
      closed x =
          dirs-closedir dp _ x
          ∙ (rw (at x) (toggled x dp (dirs s.world) (opendir_fresh path s.world is_open)))
