-- ===== src/Tests/Calls.antt =====
-- The theorems about system calls, descriptors and buffers at concrete inputs.
use afs_cs.Base.{
  ◌+◌, ◌%◌, ℤ, pos, ◌≡◌, refl, ◌||◌, ◌&&◌, ◌==ℤ◌, [], ◌∷◌, ◌++◌, drop, none, arith, length, codes,
  ◌↔◌, is_negative, str_eq,
}
use afs_cs.Base.Run.{Ensures}
use afs_cs.Errno.{errno_access}
use afs_cs.Errno.Linux.{errno_linux}
use afs_cs.Build.{op_access}
use afs_cs.System.Kernel.{sys_opendir, sys_readlink}
use afs_cs.Errinj.{op_random_errno}
use afs_cs.Errinj.Table.{errno_case}
use afs_cs.Errinj.Overrun.{op_random_errno-eq-none}
use afs_cs.Ops.Paths.{readlink_body}
use afs_cs.Ops.Files.{unreliable_open, unreliable_release, read_body, write_body}
use afs_cs.Ops.Dirs.{unreliable_opendir, unreliable_releasedir, fsyncdir_body}
use afs_cs.Ops.Descriptors.{transfer_descriptors, fsyncdir_descriptors}
use afs_cs.Ops.Handles.{IsOff, release-of_open, releasedir-of_opendir}
use afs_cs.Ops.Files.{unreliable_open, unreliable_release}
use afs_cs.Base.Run.{◌>>=◌}
use afs_cs.Ops.Overflow.{readlink_terminated, readlink_overflow}
use afs_cs.Tests.Kernel.{toy, toy_call, toy_seeded, configured, idle, toy-IsLinux, unconfigured}
use afs_cs.Tests.Setup.{directory, seeded, closed_file}

transfer_descriptors_example :
    Ensures
      (λ _ t. (x : ℤ) → toy-IsLinux.files t.world x ≡ toy-IsLinux.files configured.world x)
      (read_body toy directory (0 ∷ 0 ∷ []) 2 (pos 0) none configured)
    × Ensures
        (λ _ t. (x : ℤ) → toy-IsLinux.files t.world x ≡ toy-IsLinux.files configured.world x)
        (write_body toy directory (0 ∷ 0 ∷ []) (pos 0) none configured)
transfer_descriptors_example =
    transfer_descriptors toy toy-IsLinux directory (0 ∷ 0 ∷ []) 2 (pos 0) none configured

unconfigured-IsOff : IsOff directory unconfigured
unfolding str_eq
unconfigured-IsOff = record { other = refl; errors = refl; free = refl }

releasedir-of_opendir_example :
    Ensures
      (λ _ u. (x : ℤ) → toy-IsLinux.dirs u.world x ≡ toy-IsLinux.dirs unconfigured.world x)
      ((do
        (_, fi') ← unreliable_opendir toy directory closed_file
        unreliable_releasedir toy directory fi')
        unconfigured)
releasedir-of_opendir_example =
    releasedir-of_opendir toy toy-IsLinux directory closed_file 5 unconfigured unconfigured-IsOff
      refl (λ e. cc) (omega arith)

fsyncdir_descriptors_example :
    Ensures
      (λ ret t.
        (x : ℤ)
        → toy-IsLinux.dirs t.world x ≡ (
            (is_negative ret && x ==ℤ (toy_call (sys_opendir directory) idle).0.value)
            || toy-IsLinux.dirs configured.world x))
      (fsyncdir_body toy directory 0 configured)
fsyncdir_descriptors_example = fsyncdir_descriptors toy toy-IsLinux directory 0 configured (λ e. cc)

op_random_errno-eq-none_example :
    (op_random_errno (toy_seeded 11) op_access seeded ≡ none)
    ↔ (11 % (length (errno_linux errno_access) + 1) ≡ length (errno_linux errno_access))
unfolding errno_case
op_random_errno-eq-none_example =
    op_random_errno-eq-none (toy_seeded 11) op_access errno_access seeded refl

readlink_terminated_example :
    Ensures
      (λ (ret, buf') t.
        (ret ≡ pos 0)
        × (buf' ≡ codes "abc" ++ 0 ∷ drop 4 (codes "zzzzzz"))
        × (t.world ≡ (toy_call (sys_readlink directory 6) idle).1))
      (readlink_body toy directory (codes "zzzzzz") 6 configured)
readlink_terminated_example =
    readlink_terminated toy directory (codes "zzzzzz") configured (codes "abc") refl refl
      (omega arith)

readlink_overflow_example : readlink_body toy directory (codes "zz") 2 configured ≡ none
readlink_overflow_example =
    readlink_overflow toy directory (codes "zz") configured 3 refl (omega arith)

release-of_open_example :
    Ensures
      (λ _ u. (x : ℤ) → toy-IsLinux.files u.world x ≡ toy-IsLinux.files unconfigured.world x)
      ((do
        (_, fi') ← unreliable_open toy directory closed_file
        unreliable_release toy directory fi')
        unconfigured)
release-of_open_example =
    release-of_open toy toy-IsLinux directory closed_file unconfigured unconfigured-IsOff (λ e. cc)
      (omega arith)
