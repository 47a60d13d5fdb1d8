-- ===== src/Errinj/Delay.antt =====
-- Injections that leave the result alone: `errinj_slowdown` and `errinj_kill_caller`.
use afs_cs.Base.{
  ℤ, pos, ◌≡◌, refl, ap, ◌∙◌, ◌⊎◌, inl, inr, false, some, List, [], ◌∷◌, All, Str, str_eq,
}
use afs_cs.Base.Run.{Ensures, ensures, Ensures-bind, Ensures-mono, Ensures-if}
use afs_cs.Build.{FuseOp}
use afs_cs.Build.Names.{IsEnabled}
use afs_cs.Queue.{ErrinjConf, ErrInjQ, errinj_kill_caller, errinj_slowdown}
use afs_cs.System.{Env, State, UnreliablefsConfig}
use afs_cs.System.Memory.{sys}
use afs_cs.Errinj.{
  trigger, inject_one, inject_all, lock, unlock, inject_configured, inject_locked, error_inject,
}
use afs_cs.Errinj.Frame.{
  slept, still, Paused, Paused-refl, Paused-trans, is_selected-Ensures, kill_caller-Ensures,
}

abbrev pub IsDelay : ErrinjConf → Type 0
IsDelay err = (err.kind ≡ errinj_slowdown) ⊎ (err.kind ≡ errinj_kill_caller)

module _ (E : Env) (path : Str) (op : FuseOp) (on : IsEnabled E.build op) where
  trigger-delay :
      (err : ErrinjConf) (rc : ℤ) (s : State E)
      → IsDelay err
      → Ensures (λ rc' t. (rc' ≡ rc) × Paused s t) (trigger E err.kind err.duration op rc s)
  unfolding trigger sys
  trigger-delay err rc s (inl slow) =
      rw slow
        (ensures (refl, record { conf = refl; heap = refl; world = slept err.duration still }))
  trigger-delay err rc s (inr kills) = rw kills (
      Ensures-bind (kill_caller-Ensures E (E.context_pid s.world) s refl)
        λ _ t f. ensures (refl, f))

  inject_all-delay :
      (errors : List ErrinjConf) (rc : ℤ) (s : State E)
      → All IsDelay errors
      → Ensures (λ rc' t. (rc' ≡ rc) × Paused s t) (inject_all E errors path op rc s)
  unfolding inject_all inject_one
  inject_all-delay [] rc s delays = ensures (refl, Paused-refl s)
  inject_all-delay (err ∷ errors) rc s (delay, delays) =
      Ensures-bind
        (Ensures-bind (is_selected-Ensures E err path op s on) λ hit t f.
          Ensures-if {P = λ rc' u. (rc' ≡ rc) × Paused s u} hit _ _ t
            (Ensures-mono (trigger-delay err rc t delay)
              λ rc' u (same, f'). (same, Paused-trans f f'))
            (ensures (refl, f)))
        λ rc' t (same, f).
          Ensures-mono (inject_all-delay errors rc' t delays)
            λ rc'' u (same', f'). (same' ∙ same, Paused-trans f f')

abbrev unlocked : UnreliablefsConfig → UnreliablefsConfig
unlocked c = record c { locked = false }

module _ (E : Env) (path : Str) (op : FuseOp) (s : State E) (q : ErrInjQ) where
  -- `error_inject` off the path of the configuration file, from a state with a free mutex.
  pub error_inject-of_Paused :
      {P : ℤ → Type 0}
      → str_eq path s.conf.config_path ≡ false
      → s.conf.errors ≡ some q
      → s.conf.locked ≡ false
      → ((t : State E)
          → Ensures (λ rc u. P rc × Paused t u) (inject_all E q.entries path op (pos 0) t))
      → Ensures (λ rc t. P rc × Paused s t) (error_inject E path op s)
  unfolding error_inject lock unlock inject_locked inject_configured
  error_inject-of_Paused other configured free runs =
      rw (free, other, configured)
        (Ensures-bind (runs _) λ rc t (p, f).
          ensures (p, record { conf = ap unlocked f.conf; heap = f.heap; world = f.world }))

  pub error_inject-delay :
      IsEnabled E.build op
      → str_eq path s.conf.config_path ≡ false
      → s.conf.errors ≡ some q
      → s.conf.locked ≡ false
      → All IsDelay q.entries
      → Ensures (λ rc t. (rc ≡ pos 0) × Paused s t) (error_inject E path op s)
  error_inject-delay on other configured free delays =
      error_inject-of_Paused {P = λ rc. rc ≡ pos 0} other configured free
        λ t. inject_all-delay E path op on q.entries (pos 0) t delays
