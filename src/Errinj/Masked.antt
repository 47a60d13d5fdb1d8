-- ===== src/Errinj/Masked.antt =====
-- An injection of "no operation" behind others in unreliablefs/unreliablefs_errinj.c.
use afs_cs.Base.{
  pos, ap, false, some, str_eq, ℕ, ℤ, ◌≡◌, ◌≢◌, refl, ◌⊎◌, inl, inr, List, [], ◌∷◌, ◌++◌, All, Str,
}
use afs_cs.Base.Run.{
  Ends, ended, Ends-bind, Ends-mono, Ends-of_Ensures, Ensures, ensures, Ensures-bind, Ensures-mono,
  Ensures-if,
}
use afs_cs.Build.{FuseOp}
use afs_cs.Build.Names.{IsEnabled}
use afs_cs.Queue.{
  ErrInjQ, ErrinjType, errinj_errno, errinj_noop, errinj_slowdown, errinj_kill_caller, ErrinjConf,
}
use afs_cs.System.{UnreliablefsConfig, Env, State}
use afs_cs.System.Memory.{sys}
use afs_cs.Errinj.Total.{Overruns}
use afs_cs.Errinj.{
  lock, unlock, inject_locked, inject_configured, error_inject, trigger, inject_one, inject_all,
  noop_result,
}
use afs_cs.Errinj.Frame.{
  slept, still, OverrunsAll, Outcome, Paused, Paused-refl, Paused-trans, is_selected-Ensures,
  kill_caller-Ensures, inject_one-Outcome,
}
use afs_cs.Errinj.Quiet.{
  OnlyRng, IsUnmatched, IsSure, IsNoop, inject_one-sure, inject_one-unmatched,
}

-- The injection is not of the type "errno", or does not apply to the path and the operation.
abbrev pub IsHarmless : (E : Env) → Str → FuseOp → ErrinjConf → Type 0
IsHarmless E path op err = (err.kind ≢ errinj_errno) ⊎ IsUnmatched E path op err

abbrev unlocked : UnreliablefsConfig → UnreliablefsConfig
unlocked c = record c { locked = false }

Paused-of_OnlyRng : {E : Env} {s t : State E} → OnlyRng s t → Paused s t
Paused-of_OnlyRng {s = s} f = record { conf = f.conf; heap = f.heap; world = rw f.world still }

module _ (E : Env) (path : Str) (op : FuseOp) (on : IsEnabled E.build op) where
  trigger-kept :
      (kind : ErrinjType) (duration : ℕ) (s : State E)
      → kind ≢ errinj_errno
      → Ensures (λ rc t. (rc ≡ noop_result) × Paused s t) (trigger E kind duration op noop_result s)
  unfolding trigger sys
  trigger-kept errinj_noop duration s no_errno = ensures (refl, Paused-refl s)
  trigger-kept errinj_kill_caller duration s no_errno =
      Ensures-bind (kill_caller-Ensures E (E.context_pid s.world) s refl) λ _ t f. ensures (refl, f)
  trigger-kept errinj_slowdown duration s no_errno =
      ensures (refl, record { conf = refl; heap = refl; world = slept duration still })
  trigger-kept errinj_errno duration s no_errno = elim (no_errno refl) [ ]

  inject_one-kept :
      (err : ErrinjConf) (s : State E)
      → IsHarmless E path op err
      → Ensures (λ rc t. (rc ≡ noop_result) × Paused s t) (inject_one E err path op noop_result s)
  unfolding inject_one
  inject_one-kept err s (inl no_errno) =
      Ensures-bind (is_selected-Ensures E err path op s on) λ hit t f.
        Ensures-if {P = λ rc u. (rc ≡ noop_result) × Paused s u} hit _ _ t
          (Ensures-mono (trigger-kept err.kind err.duration t no_errno)
            λ rc u (same, f'). (same, Paused-trans f f'))
          (ensures (refl, f))
  inject_one-kept err s (inr miss) =
      Ensures-mono (inject_one-unmatched E path op on err noop_result s miss)
        λ rc t (same, f). (same, Paused-of_OnlyRng f)

  inject_all-kept :
      (errors : List ErrinjConf) (rc : ℤ) (s : State E)
      → rc ≡ noop_result
      → All (IsHarmless E path op) errors
      → Ensures (λ rc' t. (rc' ≡ noop_result) × Paused s t) (inject_all E errors path op rc s)
  unfolding inject_all
  inject_all-kept [] rc s is harmless = ensures (is, Paused-refl s)
  inject_all-kept (err ∷ errors) rc s is (here, rest) = rw is (
      Ensures-bind (inject_one-kept err s here) λ rc' t (same, f).
        Ensures-mono (inject_all-kept errors rc' t same rest)
          λ rc'' u (same', f'). (same', Paused-trans f f'))

  -- Whatever stands before it, a sure "no operation" settles the result if only harmless
  -- injections follow.
  inject_all-masked :
      (before : List ErrinjConf) (noop : ErrinjConf) (after : List ErrinjConf) (rc : ℤ)
      (s : State E)
      → Outcome E op rc
      → IsNoop noop
      → IsSure E path op noop
      → All (IsHarmless E path op) after
      → Ends
          (OverrunsAll E (before ++ (noop ∷ after)) path op rc s)
          (λ rc' t. (rc' ≡ noop_result) × Paused s t)
          (inject_all E (before ++ (noop ∷ after)) path op rc s)
  unfolding inject_all
  inject_all-masked [] noop after rc s o is_noop sure harmless = Ends-of_Ensures (
      Ensures-bind (inject_one-sure E path op on noop rc s is_noop sure) λ rc' t (same, f).
        Ensures-mono (inject_all-kept after rc' t same harmless)
          λ rc'' u (same', f'). (same', Paused-trans (Paused-of_OnlyRng f) f'))
  inject_all-masked (err ∷ before) noop after rc s o is_noop sure harmless =
      Ends-bind (inject_one-Outcome E op on err path rc s o) inl λ rc' t ran (o', f).
        Ends-mono (inject_all-masked before noop after rc' t o' is_noop sure harmless)
          (λ over. inr (rc', t, ran, over)) λ rc'' u (same', f'). (same', Paused-trans f f')

  pub error_inject-masked :
      (s : State E) (q : ErrInjQ) (before : List ErrinjConf) (noop : ErrinjConf)
      (after : List ErrinjConf)
      → str_eq path s.conf.config_path ≡ false
      → s.conf.errors ≡ some q
      → s.conf.locked ≡ false
      → q.entries ≡ before ++ (noop ∷ after)
      → IsNoop noop
      → IsSure E path op noop
      → All (IsHarmless E path op) after
      → Ends
          (Overruns E path op s)
          (λ rc t. (rc ≡ noop_result) × Paused s t)
          (error_inject E path op s)
  unfolding error_inject lock unlock inject_locked inject_configured
  error_inject-masked s q before noop after other configured free entries is_noop sure harmless =
      rw (free, other, configured, entries)
        (Ends-bind (inject_all-masked before noop after (pos 0) _ (inl refl) is_noop sure harmless)
          (λ x. x)
          λ rc t _ (is, f).
            ended (is, record { conf = ap unlocked f.conf; heap = f.heap; world = f.world }))
