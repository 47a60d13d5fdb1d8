-- ===== src/Errinj/Quiet.antt =====
-- When the fault injection stays out of the way.
use mathlib.Core.Bool.{and-false}
use native.Mathlib.Nat.{mod-lt}
use afs_cs.Base.{
  ◌≤◌, le→leb, ◌%◌, ap, ℤ, pos, ◌≡◌, refl, ◌∙◌, true, false, none, some, arith, Str, str_eq, List,
  [], ◌∷◌, leb, ◌&&◌, All,
}
use afs_cs.Base.Run.{Ensures, ensures, Ensures-bind, Ensures-mono, Ensures-if}
use afs_cs.Build.{FuseOp}
use afs_cs.Build.Names.{IsEnabled, spelled, op_name-eq-spelled}
use afs_cs.Queue.{ErrInjQ, ErrinjConf, errinj_noop}
use afs_cs.System.{Env, State, UnreliablefsConfig}
use afs_cs.System.Memory.{rand}
use afs_cs.Errinj.{
  rand_range, matched, matches_both, is_selected, trigger, inject_one, inject_all, lock, unlock,
  inject_configured, inject_locked, error_inject, noop_result,
}

module _ (E : Env) where
  -- Off the path of the configuration file, and with no configuration, nothing happens at all.
  pub error_inject_unconfigured :
      (path : Str) (op : FuseOp) (s : State E)
      → str_eq path s.conf.config_path ≡ false
      → s.conf.errors ≡ none
      → s.conf.locked ≡ false
      → error_inject E path op s ≡ some (pos 0, s)
  unfolding error_inject lock unlock inject_locked inject_configured
  error_inject_unconfigured path op s other off free = ground arith

  -- If the build keeps the operation, an injection is selected exactly when the drawn number modulo
  -- 101 is at most its probability and both of its expressions match, the one for paths the path
  -- and the one for operations the name of the operation; only the generator moves.
  pub is_selected_lem :
      (err : ErrinjConf) (path : Str) (op : FuseOp) (s : State E)
      → IsEnabled E.build op
      → is_selected E err path op s
        ≡ some (
          leb ((E.rand s.rng).0 % 101) err.probability
              && (matched E err.path_regexp path && matched E err.op_regexp (spelled op)),
          record s { rng = (E.rand s.rng).1 },
        )
  unfolding is_selected rand_range rand matches_both
  is_selected_lem err path op s on = ground (arith, op_name-eq-spelled E.build op on)

-- Only the random numbers have moved on.
pub record OnlyRng {E : Env} (s t : State E) : Type 0 where
  pub conf : t.conf ≡ s.conf
  pub errno : t.errno ≡ s.errno
  pub heap : t.heap ≡ s.heap
  pub world : t.world ≡ s.world

OnlyRng-refl : {E : Env} (s : State E) → OnlyRng s s
OnlyRng-refl s = record { conf = refl; errno = refl; heap = refl; world = refl }

pub OnlyRng-trans : {E : Env} {s t u : State E} → OnlyRng s t → OnlyRng t u → OnlyRng s u
OnlyRng-trans p q = record {
  conf = cc (p.conf, q.conf);
  errno = cc (p.errno, q.errno);
  heap = cc (p.heap, q.heap);
  world = cc (p.world, q.world);
}

-- The injection does not apply to the path and the operation.
abbrev pub IsUnmatched : (E : Env) → Str → FuseOp → ErrinjConf → Type 0
IsUnmatched E path op err =
    (matched E err.path_regexp path && matched E err.op_regexp (spelled op)) ≡ false

-- The injection applies to the path and the operation, with a probability of 100 or more.
abbrev pub IsSure : (E : Env) → Str → FuseOp → ErrinjConf → Type 0
IsSure E path op err =
    ((matched E err.path_regexp path && matched E err.op_regexp (spelled op)) ≡ true)
    × (100 ≤ err.probability)

abbrev pub IsNoop : ErrinjConf → Type 0
IsNoop err = err.kind ≡ errinj_noop

module _ (E : Env) (path : Str) (op : FuseOp) (on : IsEnabled E.build op) where
  pub inject_one-unmatched :
      (err : ErrinjConf) (rc : ℤ) (s : State E)
      → IsUnmatched E path op err
      → Ensures (λ rc' t. (rc' ≡ rc) × OnlyRng s t) (inject_one E err path op rc s)
  unfolding inject_one
  inject_one-unmatched err rc s miss =
      rw (is_selected_lem E err path op s on, miss, and-false)
        (ensures (refl, record { conf = refl; errno = refl; heap = refl; world = refl }))

  pub inject_one-sure :
      (err : ErrinjConf) (rc : ℤ) (s : State E)
      → IsNoop err
      → IsSure E path op err
      → Ensures (λ rc' t. (rc' ≡ noop_result) × OnlyRng s t) (inject_one E err path op rc s)
  unfolding inject_one trigger
  inject_one-sure err rc s noop sure =
      let hits : leb ((E.rand s.rng).0 % 101) err.probability ≡ true =
        le→leb _ _ (grind (arith, mod-lt)) in
      rw (is_selected_lem E err path op s on, hits, sure.0, noop)
        (ensures (refl, record { conf = refl; errno = refl; heap = refl; world = refl }))

  inject_one-noop :
      (err : ErrinjConf) (s : State E)
      → IsNoop err
      → Ensures
          (λ rc' t. (rc' ≡ noop_result) × OnlyRng s t)
          (inject_one E err path op noop_result s)
  unfolding inject_one trigger
  inject_one-noop err s noop = rw (is_selected_lem E err path op s on) (
      Ensures-if {P = λ rc' t. (rc' ≡ noop_result) × OnlyRng s t} _
        (trigger E err.kind err.duration op noop_result) (λ t. some (noop_result, t))
        (record s { rng = (E.rand s.rng).1 })
        (rw noop (ensures (refl, record { conf = refl; errno = refl; heap = refl; world = refl })))
        (ensures (refl, record { conf = refl; errno = refl; heap = refl; world = refl })))

  pub inject_all-unmatched :
      (errors : List ErrinjConf) (rc : ℤ) (s : State E)
      → All (IsUnmatched E path op) errors
      → Ensures (λ rc' t. (rc' ≡ rc) × OnlyRng s t) (inject_all E errors path op rc s)
  unfolding inject_all
  inject_all-unmatched [] rc s miss = ensures (refl, OnlyRng-refl s)
  inject_all-unmatched (err ∷ errors) rc s miss =
      Ensures-bind (inject_one-unmatched err rc s miss.0) λ rc' t (same, f).
        Ensures-mono (inject_all-unmatched errors rc' t miss.1)
          λ rc'' u (same', f'). (same' ∙ same, OnlyRng-trans f f')

  inject_all-noop :
      (errors : List ErrinjConf) (rc : ℤ) (s : State E)
      → rc ≡ noop_result
      → All IsNoop errors
      → Ensures (λ rc' t. (rc' ≡ noop_result) × OnlyRng s t) (inject_all E errors path op rc s)
  unfolding inject_all
  inject_all-noop [] rc s is noops = ensures (is, OnlyRng-refl s)
  inject_all-noop (err ∷ errors) rc s is noops = rw is (
      Ensures-bind (inject_one-noop err s noops.0) λ rc' t (same, f).
        Ensures-mono (inject_all-noop errors rc' t same noops.1)
          λ rc'' u (same', f'). (same', OnlyRng-trans f f'))

  pub inject_all-sure :
      (err : ErrinjConf) (errors : List ErrinjConf) (s : State E)
      → IsSure E path op err
      → All IsNoop (err ∷ errors)
      → Ensures
          (λ rc' t. (rc' ≡ noop_result) × OnlyRng s t)
          (inject_all E (err ∷ errors) path op (pos 0) s)
  unfolding inject_all
  inject_all-sure err errors s sure noops =
      Ensures-bind (inject_one-sure err (pos 0) s noops.0 sure) λ rc t (same, f).
        Ensures-mono (inject_all-noop errors rc t same noops.1)
          λ rc' u (same', f'). (same', OnlyRng-trans f f')

abbrev unlocked : UnreliablefsConfig → UnreliablefsConfig
unlocked c = record c { locked = false }

-- `error_inject` off the path of the configuration file, from a state with a free mutex.
module _ (E : Env) {P : ℤ → Type 0} (path : Str) (op : FuseOp) (s : State E) (q : ErrInjQ) where
  pub error_inject-of_inject_all :
      str_eq path s.conf.config_path ≡ false
      → s.conf.errors ≡ some q
      → s.conf.locked ≡ false
      → ((t : State E)
          → t.rng ≡ s.rng
          → Ensures (λ rc u. P rc × OnlyRng t u) (inject_all E q.entries path op (pos 0) t))
      → Ensures (λ rc t. P rc × OnlyRng s t) (error_inject E path op s)
  unfolding error_inject lock unlock inject_locked inject_configured
  error_inject-of_inject_all other configured free runs =
      rw (free, other, configured)
        (Ensures-bind (runs _ refl) λ rc t (p, f). ensures (
          p,
          record { conf = ap unlocked f.conf; errno = f.errno; heap = f.heap; world = f.world },
        ))
