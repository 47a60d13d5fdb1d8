-- ===== src/Ops/Injected.antt =====
-- Every operation of the table asks the fault injection first, and what follows from that.
use afs_cs.Base.{none, refl, ◌∙◌, ==ℤ_iff, ℤ, pos, ◌≡◌, ◌≢◌, some, arith, ◌==ℤ◌, if◌then◌else◌, Str}
use afs_cs.Base.Run.{M}
use afs_cs.System.{Env, State}
use afs_cs.Errinj.{error_inject, noop_result}
use afs_cs.Ops.{guarded}
use afs_cs.Build.{FuseOp}
use afs_cs.Ops.Requests.{Request, Response, respond, path_of, op_of, fuse_getattr}
use afs_cs.Ops.Dispatch.{dispatch}
use afs_cs.Ops.Passthrough.{passthrough, early}

module _ (E : Env) where
  respond-guarded :
      {A : Type 0} (path : Str) (op : FuseOp) (f : ℤ → A) (body : M (State E) A)
      (g : A → Response E) (s : State E)
      → respond E g (guarded E path op f body) s
        ≡ guarded E path op (λ r. g (f r)) (respond E g body) s
  unfolding guarded
  respond-guarded path op f body g s = ground arith

  -- Every request, in every state, is served as follows: `error_inject` is called with the
  -- request's path and operation; the underlying file system serves the request exactly where that
  -- returns 0, the answer is 0 for "no operation", and any other result is the answer; in these two
  -- cases buffers and handles come back as they were.
  pub dispatch-guarded :
      (r : Request E) (s : State E)
      → dispatch E r s ≡ guarded E (path_of r) (op_of r) (early E r) (passthrough E r) s
  unfolding dispatch path_of op_of early passthrough
  dispatch-guarded (fuse_getattr path buf) s = ground arith
  dispatch-guarded _ s = ground arith

  -- Where `error_inject` returns something other than 0, the request is answered with 0 if that is
  -- the result for "no operation" and else with that result. Buffers and handles come back as they
  -- were, and nothing happens after the injection.
  pub dispatch_settled :
      (r : Request E) (s t : State E) (rc : ℤ)
      → error_inject E (path_of r) (op_of r) s ≡ some (rc, t)
      → rc ≢ pos 0
      → dispatch E r s ≡ some (early E r (if rc ==ℤ noop_result then pos 0 else rc), t)
  unfolding guarded
  dispatch_settled r s t rc injected settles =
      dispatch-guarded r s ∙ ground (arith, ==ℤ_iff rc (pos 0), ==ℤ_iff rc noop_result)

  -- Any other request is what the underlying file system makes of it, from the state that the
  -- injection leaves.
  pub dispatch_passed :
      (r : Request E) (s t : State E)
      → error_inject E (path_of r) (op_of r) s ≡ some (pos 0, t)
      → dispatch E r s ≡ passthrough E r t
  unfolding guarded
  dispatch_passed r s t injected = dispatch-guarded r s ∙ rw injected

  -- Every request, in every state, is the injection at the request's path and operation, and then:
  -- the answer 0 for the result "no operation", what the underlying file system makes of the
  -- request, from the state that the injection leaves, for the result 0, and any other result as
  -- the answer; buffers and handles come back as they were in the first and the last case. If the
  -- injection is undefined, so is the request.
  pub dispatch_lem :
      (r : Request E) (s : State E)
      → ((rc : ℤ) (t : State E)
          → error_inject E (path_of r) (op_of r) s ≡ some (rc, t)
          → dispatch E r s ≡ (
              if rc ==ℤ noop_result
              then some (early E r (pos 0), t)
              else (if rc ==ℤ pos 0 then passthrough E r t else some (early E r rc, t))))
        × (error_inject E (path_of r) (op_of r) s ≡ none → dispatch E r s ≡ none)
  unfolding guarded
  dispatch_lem r s = (
    (λ rc t injected. dispatch-guarded r s ∙ ground (arith, injected)),
    (λ injected. dispatch-guarded r s ∙ rw injected refl),
  )
