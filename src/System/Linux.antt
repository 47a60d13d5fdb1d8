-- ===== src/System/Linux.antt =====
-- What Linux documents of the calls that open and close files and directories: POSIX, and that
-- `close` and `closedir` release what they are given also where they fail.
use afs_cs.Base.{
  ◌||◌, ◌&&◌, not, ℕ, suc, ℤ, pos, minus_one, ◌≡◌, ◌≢◌, Bool, true, false, some, Str, ◌==ℤ◌,
  if◌then◌else◌,
}
use afs_cs.System.{Env}
use afs_cs.System.Kernel.{
  Call, sys_open, sys_open_mode, sys_dup, sys_close, sys_opendir, sys_closedir, sys_fcntl,
  sys_ioctl,
}

-- Which descriptors are open after a call that is not one of `is_indirect` below, from its result
-- and those open before.
abbrev pub files_after : Call → ℤ → (ℤ → Bool) → ℤ → Bool
files_after (sys_open _ _) v o x = if v ==ℤ minus_one then o x else x ==ℤ v || o x
files_after (sys_open_mode _ _ _) v o x = if v ==ℤ minus_one then o x else x ==ℤ v || o x
files_after (sys_dup _) v o x = if v ==ℤ minus_one then o x else x ==ℤ v || o x
files_after (sys_close fd) v o x = not (x ==ℤ fd) && o x
files_after _ v o x = o x

-- Likewise for directory streams.
abbrev pub dirs_after : Call → ℤ → (ℤ → Bool) → ℤ → Bool
dirs_after (sys_opendir _) v o x = if v ==ℤ pos 0 then o x else x ==ℤ v || o x
dirs_after (sys_closedir dp) v o x = not (x ==ℤ dp) && o x
dirs_after _ v o x = o x

-- The calls that may open or close descriptors without being given or returning them plainly: a
-- directory stream has a descriptor of its own, `fcntl` can duplicate one, `ioctl` is up to a device.
abbrev pub is_indirect : Call → Bool
is_indirect (sys_opendir _) = true
is_indirect (sys_closedir _) = true
is_indirect (sys_fcntl _ _ _) = true
is_indirect (sys_ioctl _ _ _) = true
is_indirect _ = false

-- What Linux says of descriptors, of directory streams and of `errno`.
pub record IsLinux (E : Env) : Type 0 where
  pub files : E.World → ℤ → Bool
  pub dirs : E.World → ℤ → Bool
  pub files_call :
      (c : Call) (w : E.World) (x : ℤ)
      → is_indirect c ≡ false
      → files (E.call c w).1 x ≡ files_after c (E.call c w).0.value (files w) x
  pub dirs_call :
      (c : Call) (w : E.World) (x : ℤ)
      → dirs (E.call c w).1 x ≡ dirs_after c (E.call c w).0.value (dirs w) x
  -- What is opened was not open.
  pub open_fresh :
      (path : Str) (flags : ℕ) (w : E.World)
      → (E.call (sys_open path flags) w).0.value ≢ minus_one
      → files w (E.call (sys_open path flags) w).0.value ≡ false
  pub opendir_fresh :
      (path : Str) (w : E.World)
      → (E.call (sys_opendir path) w).0.value ≢ pos 0
      → dirs w (E.call (sys_opendir path) w).0.value ≡ false
  -- A call that fails sets `errno`, to a positive number.
  pub sets_errno :
      (c : Call) (w : E.World)
      → (E.call c w).0.value ≡ minus_one
      → (e : ℕ) × ((E.call c w).0.errno ≡ some (suc e))
