-- ===== src/Errinj/Reread.antt =====
-- The configuration file has changed: `error_inject` of unreliablefs/unreliablefs_errinj.c on its
-- path.
use afs_cs.Base.{ℕ, pos, ◌≡◌, refl, ap, ◌∙◌, true, false, some, List, [], Str, str_eq}
use afs_cs.Base.Run.{Ensures, ensures, Ensures-bind, Ensures-and}
use afs_cs.Build.{FuseOp}
use afs_cs.Queue.{ErrinjConf}
use afs_cs.System.{Env, State, IniItem}
use afs_cs.System.Kernel.{sys_access}
use afs_cs.Config.Lifecycle.{config_delete-Accounts, config_init-Accounts}
use afs_cs.Config.File.{Read, config_init-Read}
use afs_cs.Errinj.{lock, unlock, set_errors, reload, inject_locked, error_inject}
use afs_cs.Errinj.Total.{IsSafe, IsSafe-locked}

module _ (E : Env) (grants : (p : ℕ) → E.grant p ≡ true) where
  -- The queue is what the lines of the file make of an empty one.
  abbrev pub IsReadFrom : List IniItem → State E → State E → Type 0
  IsReadFrom lines s t =
      ((block : ℕ) × (entries : List ErrinjConf) × (t.conf.errors
          ≡ some (record { block = block; entries = entries }))
        × Read E lines [] entries)
      × (t.conf.config_path ≡ s.conf.config_path)
      × (t.conf.locked ≡ s.conf.locked)

  reload-IsReadFrom :
      {least : ℕ → ℕ} (path : Str) (lines : List IniItem) (s : State E)
      → IsSafe least s
      → (E.call (sys_access path 0) s.world).0.value ≡ pos 0
      → (E.ini_file path (E.call (sys_access path 0) s.world).1).0 ≡ some lines
      → Ensures (λ _ t. IsReadFrom lines s t) (reload E path s)
  unfolding reload set_errors
  reload-IsReadFrom path lines s safe readable found =
      Ensures-bind (config_delete-Accounts E s.conf.errors s safe.accounts) λ _ t (acc, f).
        Ensures-bind
          (Ensures-and
            (config_init-Read E path lines t acc (grants _) (rw f.world readable)
              (rw f.world found))
            (config_init-Accounts E path t acc))
          λ q u ((entries, is, read), (_, k)). ensures (
            (t.heap.next, entries, is, read),
            ap (λ c. c.config_path) (k.conf ∙ f.conf),
            ap (λ c. c.locked) (k.conf ∙ f.conf),
          )

  -- Let memory be granted, the mutex be free, the configuration be in order, the path be that of
  -- the configuration file, and that file be there and have certain lines. Then `error_inject`
  -- returns 0, and the new queue is what the pairs of the lines make of an empty one, one after the
  -- other; the mutex is free, and the path of the file is as it was.
  pub error_inject-Read :
      {least : ℕ → ℕ} (path : Str) (op : FuseOp) (lines : List IniItem) (s : State E)
      → IsSafe least s
      → s.conf.locked ≡ false
      → str_eq path s.conf.config_path ≡ true
      → (E.call (sys_access path 0) s.world).0.value ≡ pos 0
      → (E.ini_file path (E.call (sys_access path 0) s.world).1).0 ≡ some lines
      → Ensures (λ rc t. (rc ≡ pos 0) × IsReadFrom lines s t) (error_inject E path op s)
  unfolding error_inject lock unlock inject_locked
  error_inject-Read path op lines s safe free own readable found =
      rw (free, own)
        (Ensures-bind
          {P = λ rc t.
            (rc ≡ pos 0)
            × IsReadFrom lines (record s { conf = record (s.conf) { locked = true } }) t}
          (Ensures-bind
            (reload-IsReadFrom path lines (record s { conf = record (s.conf) { locked = true } })
              (IsSafe-locked true safe) readable found)
            λ _ t read. ensures (refl, read))
          λ rc t (zero', (read, same, _)). ensures (zero', (read, same, refl)))
