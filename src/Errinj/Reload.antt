-- ===== src/Errinj/Reload.antt =====
-- The configuration file is gone: `error_inject` of unreliablefs/unreliablefs_errinj.c on its path.
use afs_cs.Base.{
  ℕ, pos, ◌≡◌, ◌≢◌, refl, ap, ◌∙◌, ◌⊎◌, inl, inr, true, false, Bool-cases, Option, none, some, [],
  Str, str_eq, arith, ==ℤ_false,
}
use afs_cs.Base.Run.{Ensures, ensures, Ensures-bind}
use afs_cs.Build.{FuseOp}
use afs_cs.Queue.{ErrInjQ}
use afs_cs.System.{Env, State}
use afs_cs.System.Kernel.{sys_access}
use afs_cs.System.Memory.{sys, malloc}
use afs_cs.Config.{load_config, init_queue, config_init}
use afs_cs.Config.Lifecycle.{config_delete-Accounts}
use afs_cs.Errinj.{
  inject_all, lock, unlock, set_errors, reload, inject_configured, inject_locked, error_inject,
}
use afs_cs.Errinj.Total.{IsSafe, IsSafe-locked}

-- No injection is configured.
abbrev pub IsQuiet : Option ErrInjQ → Type 0
IsQuiet errors = (errors ≡ none) ⊎ ((b : ℕ) × (errors ≡ some (record { block = b; entries = [] })))

module _ (E : Env) where
  -- The kernel was asked at most whether the file is there.
  abbrev pub IsAsked : Str → State E → State E → Type 0
  IsAsked path s t = (t.world ≡ s.world) ⊎ (t.world ≡ (E.call (sys_access path 0) s.world).1)

  config_init-missing :
      (path : Str) (s : State E)
      → (E.call (sys_access path 0) s.world).0.value ≢ pos 0
      → Ensures (λ q u. IsQuiet q × (u.conf ≡ s.conf) × IsAsked path s u) (config_init E path s)
  unfolding config_init malloc init_queue load_config sys
  config_init-missing path s missing = elim (Bool-cases (E.grant s.heap.next)) [
    | inl granted ↦ rw (granted, ==ℤ_false _ _ missing) (ensures (inr (_, refl), refl, inr refl))
    | inr refused ↦ rw refused (ensures (inl refl, refl, inl refl))
  ]

  reload-missing :
      {least : ℕ → ℕ} (path : Str) (s : State E)
      → IsSafe least s
      → (E.call (sys_access path 0) s.world).0.value ≢ pos 0
      → Ensures
          (λ _ t.
            IsQuiet t.conf.errors × (t.conf.config_path ≡ s.conf.config_path) × IsAsked path s t)
          (reload E path s)
  unfolding reload set_errors
  reload-missing path s safe missing =
      Ensures-bind (config_delete-Accounts E s.conf.errors s safe.accounts) λ _ t (_, f).
        Ensures-bind (config_init-missing path t (rw f.world missing)) λ q u (quiet, same, asked).
          ensures (quiet, ap (λ c. c.config_path) (same ∙ f.conf), rw f.world at asked)

  pub error_inject-missing :
      {least : ℕ → ℕ} (path : Str) (op : FuseOp) (s : State E)
      → IsSafe least s
      → s.conf.locked ≡ false
      → str_eq path s.conf.config_path ≡ true
      → (E.call (sys_access path 0) s.world).0.value ≢ pos 0
      → Ensures
          (λ rc t.
            (rc ≡ pos 0)
            × IsQuiet t.conf.errors
            × (t.conf.locked ≡ false)
            × (t.conf.config_path ≡ s.conf.config_path)
            × IsAsked path s t)
          (error_inject E path op s)
  unfolding error_inject lock unlock inject_locked
  error_inject-missing path op s safe free own missing =
      rw (free, own)
        (Ensures-bind
          {P = λ rc t.
            (rc ≡ pos 0)
            × IsQuiet t.conf.errors
            × (t.conf.config_path ≡ s.conf.config_path)
            × IsAsked path s t}
          (Ensures-bind
            (reload-missing path (record s { conf = record (s.conf) { locked = true } })
              (IsSafe-locked true safe) missing)
            λ _ t (quiet, same, asked). ensures (refl, quiet, same, asked))
          λ rc t (zero', quiet, same, asked). ensures (zero', quiet, refl, same, asked))

  pub error_inject-of_IsQuiet :
      (path : Str) (op : FuseOp) (s : State E)
      → str_eq path s.conf.config_path ≡ false
      → IsQuiet s.conf.errors
      → s.conf.locked ≡ false
      → error_inject E path op s ≡ some (pos 0, s)
  unfolding error_inject lock unlock inject_locked inject_configured inject_all
  error_inject-of_IsQuiet path op s other (inl off) free = ground arith
  error_inject-of_IsQuiet path op s other (inr (b, off)) free = ground arith
