-- ===== src/Ops/Total.antt =====
-- The operations as a whole, with the injections before them.
use afs_cs.Base.{
  some, ◌⊎◌, inl, inr, ℕ, ℤ, pos, ◌==ℤ◌, ◌≡◌, refl, ap, ◌∙◌, false, List, [], ◌∷◌, All,
  if◌then◌else◌,
}
use afs_cs.Base.Run.{
  Ends, ended, Ends-bind, Ends-of_Ensures, M, pure, ◌>>=◌, Ensures, ensures, Ensures-mono,
  Ensures-if,
}
use afs_cs.Build.Names.{IsEnabled}
use afs_cs.System.{Env, State}
use afs_cs.Errinj.{noop_result}
use afs_cs.Errinj.Frame.{SameData}
use afs_cs.Errinj.Total.{IsSafe, IsSafe-SameData, SameSettings, error_inject_total, Overruns}
use afs_cs.Ops.{guarded}
use afs_cs.Ops.Requests.{
  Request, Response, path_of, op_of, fuse_getattr, fuse_read, fuse_write, fuse_listxattr,
  fuse_ioctl,
}
use afs_cs.Ops.Dispatch.{dispatch}
use afs_cs.Ops.Passthrough.{passthrough, early}
use afs_cs.Ops.Keeps.{IsStatus, IsStatus-neg}
use afs_cs.Ops.Answers.{IsAnswer, IsDefined, passthrough-Keeps}
use afs_cs.Ops.Injected.{dispatch-guarded}

-- Between two requests: the configuration is in order and the mutex free.
pub record IsReady {E : Env} (least : ℕ → ℕ) (s : State E) : Type 0 where
  pub safe : IsSafe least s
  pub free : s.conf.locked ≡ false

-- The build has the operation of the request, and the operation is defined.
abbrev pub IsServed : (E : Env) → Request E → Type 0
IsServed E r = IsEnabled E.build (op_of r) × IsDefined r

pub SameSettings-trans :
    {E : Env} {s t u : State E} → SameSettings s t → SameSettings t u → SameSettings s u
SameSettings-trans p q = record {
  basedir = q.basedir ∙ p.basedir;
  config_path = q.config_path ∙ p.config_path;
  seed = q.seed ∙ p.seed;
  debug = q.debug ∙ p.debug;
}

SameSettings-SameData :
    {E : Env} {s t u : State E} → SameSettings s t → SameData t u → SameSettings s u
SameSettings-SameData k f = record {
  basedir = ap (λ c. c.basedir) f.conf ∙ k.basedir;
  config_path = ap (λ c. c.config_path) f.conf ∙ k.config_path;
  seed = ap (λ c. c.seed) f.conf ∙ k.seed;
  debug = ap (λ c. c.debug) f.conf ∙ k.debug;
}

module _ (E : Env) where
  early-ret : (r : Request E) (v : ℤ) → (early E r v).ret ≡ v
  unfolding early
  early-ret (fuse_getattr path buf) v = refl
  early-ret _ v = refl

  IsAnswer-of_IsStatus : (r : Request E) (v : ℤ) → IsStatus v → IsAnswer r v
  IsAnswer-of_IsStatus (fuse_read _ _ _ _ _) v is = tt
  IsAnswer-of_IsStatus (fuse_write _ _ _ _) v is = tt
  IsAnswer-of_IsStatus (fuse_listxattr _ _ _) v is = tt
  IsAnswer-of_IsStatus (fuse_ioctl _ _ _ _) v is = tt
  IsAnswer-of_IsStatus _ v is = is

  early-IsAnswer : (r : Request E) (v : ℤ) → IsStatus v → IsAnswer r (early E r v).ret
  early-IsAnswer r v is = rw (early-ret r v) (IsAnswer-of_IsStatus r v is)

  -- What follows an injection whose result is a status.
  answered-status :
      {least : ℕ → ℕ} (r : Request E) (rc : ℤ) (s t : State E)
      → IsDefined r
      → IsReady least t
      → SameSettings s t
      → IsStatus rc
      → Ensures
          (λ resp u. IsAnswer r resp.ret × IsReady least u × SameSettings s u)
          ((if rc ==ℤ noop_result
              then pure (early E r (pos 0))
              else (if rc ==ℤ pos 0 then passthrough E r else pure (early E r rc)))
            t)
  answered-status {least} r rc s t defined ready same is =
      Ensures-if {P = λ resp u. IsAnswer r resp.ret × IsReady least u × SameSettings s u}
        (rc ==ℤ noop_result) (pure (early E r (pos 0))) _ t
        (ensures (early-IsAnswer r (pos 0) (inl refl), ready, same))
        (Ensures-if {P = λ resp u. IsAnswer r resp.ret × IsReady least u × SameSettings s u}
          (rc ==ℤ pos 0) (passthrough E r) (pure (early E r rc)) t
          (Ensures-mono (passthrough-Keeps E r defined t) λ resp u (answer, f). (
            answer,
            record {
              safe = IsSafe-SameData f ready.safe;
              free = ap (λ c. c.locked) f.conf ∙ ready.free;
            },
            SameSettings-SameData same f,
          ))
          (ensures (early-IsAnswer r rc is, ready, same)))

module _ (E : Env) where
  -- The requests that FUSE hands over, one after the other.
  unfoldable pub serve : List (Request E) → M (State E) (List (Response E))
  serve [] = pure []
  serve (r ∷ rs) = do a ← dispatch E r; answers ← serve rs; pure (a ∷ answers)

  -- An answer for each request.
  abbrev pub Answers : List (Request E) → List (Response E) → Type 0
  Answers [] [] = Unit
  Answers (r ∷ rs) (a ∷ answers) = IsAnswer r a.ret × Answers rs answers
  Answers _ _ = ⊥

-- A request of the sequence that is served reads behind the end of an array of errors.
abbrev pub OverrunsIn : (E : Env) → List (Request E) → State E → Type 0
OverrunsIn E [] s = ⊥
OverrunsIn E (r ∷ rs) s =
    Overruns E (path_of r) (op_of r) s
    ⊎ ((a : Response E) × (t : State E) × (dispatch E r s ≡ some (a, t)) × OverrunsIn E rs t)

module _ (E : Env) where
  -- In a state with a free mutex and a configuration in order, a request that the build has and
  -- that is defined is answered: with 0, a negative number, or anything where the operation returns
  -- a size. The state after it is such a state again, with the settings of the mount as they were
  -- and no block freed that others hold. The one exception is a request for which an injection of
  -- the type "errno" is selected and its random number leads behind the end of the array.
  pub dispatch_total :
      {least : ℕ → ℕ} (r : Request E) (s : State E)
      → IsServed E r
      → IsReady least s
      → Ends
          (Overruns E (path_of r) (op_of r) s)
          (λ resp t. IsAnswer r resp.ret × IsReady least t × SameSettings s t)
          (dispatch E r s)
  unfolding guarded
  dispatch_total {least} r s (on, defined) ready = rw (dispatch-guarded E r s) (
      Ends-bind (error_inject_total E (op_of r) on (path_of r) s ready.safe ready.free) (λ x. x)
        λ rc t _ injected.
          let ready' : IsReady least t = record {
            safe = injected.safe;
            free = injected.unlocked;
          } in
          Ends-of_Ensures (elim injected.outcome [
            | inl zero ↦ answered-status E r rc s t defined ready' injected.settings (inl zero)
            | inr (inl noop) ↦
                rw noop (ensures (early-IsAnswer E r (pos 0) (inl refl), ready', injected.settings))
            | inr (inr (arr, i, e, case, found, negated)) ↦
                answered-status E r rc s t defined ready' injected.settings
                  (rw negated (IsStatus-neg (E.errno_code e)))
          ]))

  -- From a state with a free mutex and a configuration in order, any sequence of requests that the
  -- build has and that are defined is answered, one by one. The state at the end is such a state
  -- again, with the settings of the mount as they were and no block freed that others hold. The one
  -- exception is a sequence that comes to a request for which an injection of the type "errno" is
  -- selected and its random number leads behind the end of the array.
  pub serve_total :
      {least : ℕ → ℕ} (rs : List (Request E)) (s : State E)
      → All (IsServed E) rs
      → IsReady least s
      → Ends
          (OverrunsIn E rs s)
          (λ answers t. Answers E rs answers × IsReady least t × SameSettings s t)
          (serve E rs s)
  unfolding serve
  serve_total [] s served ready =
      ended (tt, ready, record { basedir = refl; config_path = refl; seed = refl; debug = refl })
  serve_total (r ∷ rs) s (served, rest) ready =
      Ends-bind (dispatch_total r s served ready) inl λ a t ran (answer, ready', same).
        Ends-bind (serve_total rs t rest ready') (λ over. inr (a, t, ran, over))
          λ _ u _ (answers, ready'', same').
            ended ((answer, answers), ready'', SameSettings-trans same same')
