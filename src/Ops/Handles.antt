-- ===== src/Ops/Handles.antt =====
-- Descriptors that are kept in `fi->fh` between the operations of
-- unreliablefs/unreliablefs_ops.c, as an unsigned number of 64 bits.
use afs_cs.Base.{
  none, false, str_eq, ℕ, ◌^◌, ◌<◌, ◌≡◌, ◌≢◌, refl, ◌∙◌, arith, ℤ, pos, negsuc, minus_one,
  ==ℤ_false, ◌==ℤ◌, ◌||◌, Str, to_int, to_u64,
}
use afs_cs.Base.Run.{M, ◌>>=◌, Ensures, ensures, Ensures-if}
use afs_cs.System.{Env, State}
use afs_cs.System.Kernel.{sys_open, sys_close, sys_opendir, sys_closedir}
use afs_cs.System.Memory.{sys}
use afs_cs.Build.{FuseOp, op_open, op_release, op_opendir, op_releasedir}
use afs_cs.Errinj.Quiet.{error_inject_unconfigured}
use afs_cs.Ops.{guarded, FileInfo, negated_errno, status}
use afs_cs.Ops.Files.{open_into, descriptor, unreliable_open, unreliable_release}
use afs_cs.Ops.Dirs.{opendir_body, unreliable_opendir, unreliable_releasedir}
use afs_cs.System.Linux.{IsLinux}
use afs_cs.Ops.Descriptors.{open_close, toggled}

-- The numbers that an `int` of 32 bits has.
abbrev pub IsInt : ℤ → Type 0
IsInt (pos n) = n < 2 ^ 31
IsInt (negsuc n) = n < 2 ^ 31

-- A number that an `int` of 32 bits has is the same after its conversion to an unsigned number of
-- 64 bits and back.
pub to_int-to_u64 : (v : ℤ) → IsInt v → to_int (to_u64 v) ≡ v
to_int-to_u64 (pos n) h = ground arith
to_int-to_u64 (negsuc n) h = ground arith

-- The injections are off, the mutex is free, and the path is not that of the configuration file.
pub record IsOff {E : Env} (path : Str) (s : State E) : Type 0 where
  pub other : str_eq path s.conf.config_path ≡ false
  pub errors : s.conf.errors ≡ none
  pub free : s.conf.locked ≡ false

guarded-IsOff :
    {A : Type 0} (E : Env) (path : Str) (op : FuseOp) (early : ℤ → A) (body : M (State E) A)
    (s : State E)
    → IsOff path s
    → guarded E path op early body s ≡ body s
unfolding guarded
guarded-IsOff E path op early body s off =
    rw (error_inject_unconfigured E path op s off.other off.errors off.free) refl

module _ (E : Env) {Q : ℤ → State E → Type 0} (path : Str) (fi : FileInfo) (t : State E)
    (off : IsOff path t) where
  release-IsOff :
      Ensures Q (status E (sys_close (descriptor fi)) t)
      → Ensures Q (unreliable_release E path fi t)
  unfolding unreliable_release
  release-IsOff runs =
      rw (guarded-IsOff E path op_release (λ r. r) (status E (sys_close (descriptor fi))) t off)
        runs

  releasedir-IsOff :
      Ensures Q (status E (sys_closedir (pos fi.fh)) t)
      → Ensures Q (unreliable_releasedir E path fi t)
  unfolding unreliable_releasedir
  releasedir-IsOff runs =
      rw (guarded-IsOff E path op_releasedir (λ r. r) (status E (sys_closedir (pos fi.fh))) t off)
        runs

-- Only the configuration counts.
moved-IsOff : {E : Env} {path : Str} {s t : State E} → t.conf ≡ s.conf → IsOff path s → IsOff path t
moved-IsOff same off = record {
  other = rw same off.other;
  errors = rw same off.errors;
  free = rw same off.free;
}

module _ (E : Env) (P : IsLinux E) where
  open P use {files}

  -- `close` of the descriptor that `open` returned undoes it.
  close-open :
      (path : Str) (flags : ℕ) (w : E.World) (t : State E) (fd : ℤ)
      → (E.call (sys_open path flags) w).0.value ≢ minus_one
      → t.world ≡ (E.call (sys_open path flags) w).1
      → fd ≡ (E.call (sys_open path flags) w).0.value
      → Ensures (λ _ u. (x : ℤ) → files u.world x ≡ files w x) (status E (sys_close fd) t)
  unfolding status sys negated_errno
  close-open path flags w t fd ok same is =
      let restored : (x : ℤ) → files (E.call (sys_close fd) t.world).1 x ≡ files w x =
        λ x. rw is (open_close E P path flags w t.world x ok (λ y. rw same)) in
      Ensures-if {P = λ _ u. (x : ℤ) → files u.world x ≡ files w x}
        ((E.call (sys_close fd) t.world).0.value ==ℤ minus_one) _ _ _ (ensures restored)
        (ensures restored)

  -- On Linux, let the injections be off, the path not be that of the configuration file, and `open`
  -- return a descriptor that an `int` has. Then `unreliable_release`, with the handle that
  -- `unreliable_open` left, leaves the descriptors open that were open before.
  pub release-of_open :
      (path : Str) (fi : FileInfo) (s : State E)
      → IsOff path s
      → (E.call (sys_open path fi.flags) s.world).0.value ≢ minus_one
      → IsInt (E.call (sys_open path fi.flags) s.world).0.value
      → Ensures
          (λ _ u. (x : ℤ) → files u.world x ≡ files s.world x)
          ((do (_, fi') ← unreliable_open E path fi; unreliable_release E path fi') s)
  unfolding unreliable_open open_into sys
  release-of_open path fi s off ok small =
      rw
        (
          guarded-IsOff E path op_open (λ r. (r, fi)) (open_into E fi (sys_open path fi.flags)) s
              off,
          ==ℤ_false _ _ ok,
        )
        (release-IsOff E path _ _ (moved-IsOff refl off)
          (close-open path fi.flags s.world _ _ ok refl (to_int-to_u64 _ small)))

module _ (E : Env) (P : IsLinux E) where
  open P use {dirs}

  dirs-opendir :
      (path : Str) (w : E.World) (x : ℤ)
      → (E.call (sys_opendir path) w).0.value ≢ pos 0
      → dirs (E.call (sys_opendir path) w).1 x
        ≡ (x ==ℤ (E.call (sys_opendir path) w).0.value || dirs w x)
  dirs-opendir path w x ok = P.dirs_call (sys_opendir path) w x ∙ rw (==ℤ_false _ _ ok)

  -- `closedir` of the stream that `opendir` returned undoes it.
  closedir-opendir :
      (path : Str) (w : E.World) (t : State E) (dp : ℤ)
      → (E.call (sys_opendir path) w).0.value ≢ pos 0
      → t.world ≡ (E.call (sys_opendir path) w).1
      → dp ≡ (E.call (sys_opendir path) w).0.value
      → Ensures (λ _ u. (x : ℤ) → dirs u.world x ≡ dirs w x) (status E (sys_closedir dp) t)
  unfolding status sys negated_errno
  closedir-opendir path w t dp ok same is =
      let at : (x : ℤ) → dirs t.world x ≡ (x ==ℤ dp || dirs w x) =
        λ x. rw (same, is) (dirs-opendir path w x ok) in
      let restored : (x : ℤ) → dirs (E.call (sys_closedir dp) t.world).1 x ≡ dirs w x = λ x.
        P.dirs_call (sys_closedir dp) t.world x
        ∙ rw (at x) (toggled x dp (dirs w) (rw is (P.opendir_fresh path w ok))) in
      Ensures-if {P = λ _ u. (x : ℤ) → dirs u.world x ≡ dirs w x}
        ((E.call (sys_closedir dp) t.world).0.value ==ℤ minus_one) _ _ _ (ensures restored)
        (ensures restored)

  -- On Linux, let the injections be off, the path not be that of the configuration file, and
  -- `opendir` return a pointer of 64 bits that is not NULL. Then `unreliable_releasedir`, with the
  -- handle that `unreliable_opendir` left, leaves the directory streams open that were open before.
  pub releasedir-of_opendir :
      (path : Str) (fi : FileInfo) (p : ℕ) (s : State E)
      → IsOff path s
      → (E.call (sys_opendir path) s.world).0.value ≡ pos p
      → p ≢ 0
      → p < 2 ^ 64
      → Ensures
          (λ _ u. (x : ℤ) → dirs u.world x ≡ dirs s.world x)
          ((do (_, fi') ← unreliable_opendir E path fi; unreliable_releasedir E path fi') s)
  unfolding unreliable_opendir opendir_body sys
  releasedir-of_opendir path fi p s off is positive small =
      let ok : (E.call (sys_opendir path) s.world).0.value ≢ pos 0 = λ e. positive cc in
      rw
        (
          guarded-IsOff E path op_opendir (λ r. (r, fi)) (opendir_body E path fi) s off,
          ==ℤ_false _ _ ok,
        )
        (releasedir-IsOff E path _ _ (moved-IsOff refl off)
          (closedir-opendir path s.world _ (pos _) ok refl (rw is (ground arith))))
