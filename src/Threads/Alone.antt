-- ===== src/Threads/Alone.antt =====
-- The steps of one thread that is alone against `error_inject` of
-- unreliablefs/unreliablefs_errinj.c as a whole.
use afs_cs.Base.{
  ℤ, pos, ◌≡◌, refl, sym, ◌∙◌, ◌↔◌, List, [], ◌∷◌, Option, none, some, Str, str_eq, Bool-cases,
  Option-cases, inl, inr,
}
use afs_cs.Base.Run.{M, pure, undefined, ◌>>=◌, ◌>>◌, some_pair-eq}
use afs_cs.Build.{FuseOp}
use afs_cs.Queue.{first_entries, ErrinjConf, ErrInjQ}
use afs_cs.System.{Env, State}
use afs_cs.Errinj.{
  lock, unlock, reload, inject_one, inject_all, inject_configured, inject_locked, error_inject,
}
use afs_cs.Threads.{
  Phase, idle, waiting, holding, looping, settled, returned, Move, acquire, read_again, begin,
  round, end_loop, release,
}

module _ (E : Env) where
  -- Steps of one thread, none of another between them.
  pub data Moves : State E → Phase → State E → Phase → Type 0 where
    no_move : {s : State E} {p : Phase} → Moves s p s p
    then_moves : {s t u : State E} {p q r : Phase} → Move E s p t q → Moves t q u r → Moves s p u r

  -- What is left of `error_inject`.
  pub remaining : Phase → M (State E) ℤ
  remaining idle = undefined
  remaining (waiting path op) = error_inject E path op
  remaining (holding path op) = do rc ← inject_locked E path op; unlock E; pure rc
  remaining (looping path op rest rc) = do rc' ← inject_all E rest path op rc; unlock E; pure rc'
  remaining (settled op rc) = do unlock E; pure rc
  remaining (returned op rc) = pure rc

  pub remaining-waiting :
      (path : Str) (op : FuseOp) (s : State E)
      → remaining (waiting path op) s ≡ error_inject E path op s
  unfolding remaining
  remaining-waiting path op s = refl

  pub remaining-returned :
      (op : FuseOp) (rc : ℤ) (s : State E) → remaining (returned op rc) s ≡ some (rc, s)
  unfolding remaining
  remaining-returned op rc s = refl

  inject_configured-inject_all :
      (errors : Option ErrInjQ) (path : Str) (op : FuseOp) (s : State E)
      → inject_configured E errors path op s ≡ inject_all E (first_entries errors) path op (pos 0) s
  unfolding inject_configured inject_all
  inject_configured-inject_all none path op s = refl
  inject_configured-inject_all (some q) path op s = refl

  pub Move-remaining :
      (s t : State E) (p q : Phase) → Move E s p t q → remaining p s ≡ remaining q t
  unfolding remaining error_inject inject_locked inject_all
  Move-remaining s t (waiting path op) _ (acquire got) = rw got refl
  Move-remaining s t (holding path op) _ (read_again own reloaded) = rw (own, reloaded) refl
  Move-remaining s t (holding path op) _ (begin other) =
      rw (other, inject_configured-inject_all s.conf.errors path op s) refl
  Move-remaining s t (looping path op (err ∷ rest) rc) _ (round injected) = rw injected refl
  Move-remaining s t (looping path op [] rc) _ end_loop = refl
  Move-remaining s t (settled op rc) _ (release freed) = rw freed refl
  Move-remaining s t idle q move = elim move [ ]
  Move-remaining s t (returned _ _) q move = elim move [ ]

  Moves-remaining : {s t : State E} {p q : Phase} → Moves s p t q → remaining p s ≡ remaining q t
  Moves-remaining no_move = refl
  Moves-remaining (then_moves move moves) = Move-remaining _ _ _ _ move ∙ Moves-remaining moves

  -- A phase whose rest is defined goes on to the end.
  abbrev Ends : FuseOp → Phase → Type 0
  Ends op p = (s t : State E) (rc : ℤ) → remaining p s ≡ some (rc, t) → Moves s p t (returned op rc)

  settled-Ends : (op : FuseOp) (rc : ℤ) → Ends op (settled op rc)
  unfolding remaining unlock
  settled-Ends op rc s t rc' h =
      let (a, b) = some_pair-eq h in rw (sym a, sym b) (then_moves (release refl) no_move)

  looping-Ends :
      (path : Str) (op : FuseOp) (rest : List ErrinjConf) (rc : ℤ)
      → Ends op (looping path op rest rc)
  unfolding remaining inject_all
  looping-Ends path op [] rc s t rc' h = then_moves end_loop (settled-Ends op rc s t rc' h)
  looping-Ends path op (err ∷ rest) rc s t rc' h =
      elim (Option-cases (inject_one E err path op rc s)) [
        | inl undefined_round ↦ let k : _ = rw undefined_round at h in cc
        | inr ((rc'', u), injected) ↦
            then_moves (round injected) (looping-Ends path op rest rc'' u t rc' (rw injected at h))
      ]

  holding-Ends : (path : Str) (op : FuseOp) → Ends op (holding path op)
  unfolding remaining inject_locked
  holding-Ends path op s t rc h = elim (Bool-cases (str_eq path s.conf.config_path)) [
    | inl own ↦ elim (Option-cases (reload E path s)) [
      | inl undefined_read ↦ let k : _ = rw (own, undefined_read) at h in cc
      | inr ((_, u), reloaded) ↦
          then_moves (read_again own reloaded)
            (settled-Ends op (pos 0) u t rc (rw (own, reloaded) at h))
    ]
    | inr other ↦ then_moves (begin other) (
        looping-Ends path op (first_entries s.conf.errors) (pos 0) s t rc
          (rw (other, inject_configured-inject_all s.conf.errors path op s) at h))
  ]

  waiting-Ends : (path : Str) (op : FuseOp) → Ends op (waiting path op)
  unfolding remaining error_inject
  waiting-Ends path op s t rc h = elim (Option-cases (lock E s)) [
    | inl held ↦ let k : _ = rw held at h in cc
    | inr ((_, u), got) ↦ then_moves (acquire got) (holding-Ends path op u t rc (rw got at h))
  ]

  -- The steps of one thread, with none of another between them, lead from the call of
  -- `error_inject` to a result and a state exactly if the function as a whole returns that result
  -- in that state.
  pub Moves-error_inject :
      (path : Str) (op : FuseOp) (s t : State E) (rc : ℤ)
      → Moves s (waiting path op) t (returned op rc) ↔ (error_inject E path op s ≡ some (rc, t))
  unfolding remaining
  Moves-error_inject path op s t rc = (Moves-remaining, waiting-Ends path op s t rc)
