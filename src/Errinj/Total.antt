-- ===== src/Errinj/Total.antt =====
-- `error_inject` as a whole: it returns, gives the mutex back and keeps the memory of the
-- configuration in order.
use afs_cs.Base.{
  ◌==◌, ap, ◌+◌, ◌≤◌, ℕ, ℤ, pos, ◌≡◌, refl, inl, inr, false, true, Bool, Option, none, some, arith,
  Str, str_eq,
}
use afs_cs.Base.Run.{
  Ends, ended, Ends-bind, Ends-mono, Ends-test, Ends-of_Ensures, Ensures, ensures, Ensures-bind,
}
use afs_cs.Build.{FuseOp}
use afs_cs.Build.Names.{IsEnabled}
use afs_cs.Queue.{ErrInjQ, first_entries}
use afs_cs.System.{Env, State}
use afs_cs.System.Accounts.{Accounts, Accounts-move, bit}
use afs_cs.Config.Distinct.{IsDistinctQueue}
use afs_cs.Config.Ownership.{held_queue}
use afs_cs.Config.Lifecycle.{Loaded, config_init-Accounts, config_delete-Accounts}
use afs_cs.Errinj.{lock, unlock, set_errors, reload, inject_configured, inject_locked, error_inject}
use afs_cs.Errinj.Frame.{
  OverrunsAll, SameData-of_Paused, Outcome, SameData, SameData-refl, inject_all-Outcome,
}

-- Every block of the configuration is allocated and held once, where `base` counts all other
-- holders, which include those that `least` counts, and there is at most one injection of each type.
pub record IsSafe {E : Env} (least : ℕ → ℕ) (s : State E) : Type 0 where
  pub base : ℕ → ℕ
  pub grows : (a : ℕ) → least a ≤ base a
  pub accounts : Accounts base s.heap (held_queue s.conf.errors)
  pub distinct : IsDistinctQueue s.conf.errors

pub IsSafe-of_Loaded :
    {E : Env} {least : ℕ → ℕ} (base : ℕ → ℕ) (q : Option ErrInjQ) (t : State E)
    → ((a : ℕ) → least a ≤ base a)
    → t.conf.errors ≡ q
    → Loaded base q t.heap
    → IsSafe least t
IsSafe-of_Loaded base none t grows e (inl acc) = record {
  base = base;
  grows = grows;
  accounts = rw e acc;
  distinct = rw e tt;
}
IsSafe-of_Loaded base none t grows e (inr (b, acc)) = record {
  base = λ a. base a + bit (b == a);
  grows = λ a. omega (arith, grows a);
  accounts = rw e (Accounts-move acc (λ a. omega arith));
  distinct = rw e tt;
}
IsSafe-of_Loaded base (some q) t grows e (acc, d) = record {
  base = base;
  grows = grows;
  accounts = rw e acc;
  distinct = rw e d;
}

-- The configuration apart from the queue and the mutex.
pub record SameSettings {E : Env} (s t : State E) : Type 0 where
  pub basedir : t.conf.basedir ≡ s.conf.basedir
  pub config_path : t.conf.config_path ≡ s.conf.config_path
  pub seed : t.conf.seed ≡ s.conf.seed
  pub debug : t.conf.debug ≡ s.conf.debug

pub IsSafe-SameData :
    {E : Env} {least : ℕ → ℕ} {s t : State E} → SameData s t → IsSafe least s → IsSafe least t
IsSafe-SameData f safe = record {
  base = safe.base;
  grows = safe.grows;
  accounts = rw (f.conf, f.heap) safe.accounts;
  distinct = rw f.conf safe.distinct;
}

-- The mutex is no part of it.
pub IsSafe-locked :
    {E : Env} {least : ℕ → ℕ} {s : State E} (b : Bool)
    → IsSafe least s
    → IsSafe least (record s { conf = record (s.conf) { locked = b } })
IsSafe-locked b safe = record {
  base = safe.base;
  grows = safe.grows;
  accounts = safe.accounts;
  distinct = safe.distinct;
}

SameSettings-conf : {E : Env} {s t : State E} → t.conf ≡ s.conf → SameSettings s t
SameSettings-conf same = record {
  basedir = ap (λ c. c.basedir) same;
  config_path = ap (λ c. c.config_path) same;
  seed = ap (λ c. c.seed) same;
  debug = ap (λ c. c.debug) same;
}

SameSettings-errors :
    {E : Env} {s t : State E} (q : Option ErrInjQ)
    → SameSettings s t
    → SameSettings s (record t { conf = record (t.conf) { errors = q } })
SameSettings-errors q k = record {
  basedir = k.basedir;
  config_path = k.config_path;
  seed = k.seed;
  debug = k.debug;
}

module _ (E : Env) where
  pub reload-IsSafe :
      {least : ℕ → ℕ} (path : Str) (s : State E)
      → IsSafe least s
      → Ensures
          (λ _ t. IsSafe least t × SameSettings s t × (t.conf.locked ≡ s.conf.locked))
          (reload E path s)
  unfolding reload set_errors
  reload-IsSafe path s safe =
      Ensures-bind (config_delete-Accounts E s.conf.errors s safe.accounts) λ _ t (acc, f).
        Ensures-bind (config_init-Accounts E path t acc) λ q u (loaded, k).
          let same : u.conf ≡ s.conf = cc (f.conf, k.conf) in
          ensures (
            IsSafe-of_Loaded _ q _ safe.grows refl loaded,
            SameSettings-errors {t = u} q (SameSettings-conf same),
            ap (λ c. c.locked) same,
          )

-- The call reads behind the end of an array of errors, in a round that its loop comes to with the
-- mutex locked.
abbrev pub Overruns : (E : Env) → Str → FuseOp → State E → Type 0
Overruns E path op s =
    OverrunsAll E (first_entries s.conf.errors) path op (pos 0)
      (record s { conf = record (s.conf) { locked = true } })

-- What holds after a call that returns `rc`.
pub record Injected {E : Env} (least : ℕ → ℕ) (op : FuseOp) (s : State E) (rc : ℤ) (t : State E)
    : Type 0 where
  pub outcome : Outcome E op rc
  pub safe : IsSafe least t
  pub unlocked : t.conf.locked ≡ false
  pub settings : SameSettings s t

module _ (E : Env) (op : FuseOp) (on : IsEnabled E.build op) where
  inject_configured-Outcome :
      (errors : Option ErrInjQ) (path : Str) (s : State E)
      → Ends
          (OverrunsAll E (first_entries errors) path op (pos 0) s)
          (λ rc t. Outcome E op rc × SameData s t)
          (inject_configured E errors path op s)
  unfolding inject_configured
  inject_configured-Outcome none path s = ended (inl refl, SameData-refl s)
  inject_configured-Outcome (some q) path s =
      Ends-mono (inject_all-Outcome E op on q.entries path (pos 0) s (inl refl)) (λ x. x)
        λ rc t (o, f). (o, SameData-of_Paused f)

  inject_locked-Injected :
      {least : ℕ → ℕ} (path : Str) (s : State E)
      → IsSafe least s
      → Ends
          (OverrunsAll E (first_entries s.conf.errors) path op (pos 0) s)
          (λ rc t.
            Outcome E op rc × IsSafe least t × SameSettings s t × (t.conf.locked ≡ s.conf.locked))
          (inject_locked E path op s)
  unfolding inject_locked
  inject_locked-Injected {least} path s safe =
      Ends-test
        {P = λ rc t.
          Outcome E op rc × IsSafe least t × SameSettings s t × (t.conf.locked ≡ s.conf.locked)}
        (str_eq path s.conf.config_path)
        (Ends-of_Ensures (
          Ensures-bind (reload-IsSafe E path s safe)
            λ _ t (safe', same, lock). ensures (inl refl, safe', same, lock)))
        (Ends-mono (inject_configured-Outcome s.conf.errors path s) (λ x. x)
          λ rc t (o, f).
            (o, IsSafe-SameData f safe, SameSettings-conf f.conf, ap (λ c. c.locked) f.conf))

  -- Let the build keep the operation, the mutex be free, each block of the configuration be
  -- allocated and held once, and the configuration have at most one injection of each type. Then
  -- `error_inject` returns, whatever the path and the configuration are: 0, the result for "no
  -- operation", or a negated error of the operation's array; the mutex is free again, what was
  -- required of the configuration holds of the new one, no block that others hold was freed, and
  -- the settings of the mount are as they were. The one exception is a call in which the loop comes
  -- to an injection of the type "errno" that is selected and whose random number leads behind the
  -- end of the operation's array.
  pub error_inject_total :
      {least : ℕ → ℕ} (path : Str) (s : State E)
      → IsSafe least s
      → s.conf.locked ≡ false
      → Ends (Overruns E path op s) (λ rc t. Injected least op s rc t) (error_inject E path op s)
  unfolding error_inject lock unlock
  error_inject_total path s safe free = rw free (
      Ends-bind (inject_locked-Injected path _ (IsSafe-locked true safe)) (λ x. x)
        λ rc t _ (o, safe', same, _). ended (record {
          outcome = o;
          safe = IsSafe-locked false safe';
          unlocked = refl;
          settings = record {
            basedir = same.basedir;
            config_path = same.config_path;
            seed = same.seed;
            debug = same.debug;
          };
        }))
