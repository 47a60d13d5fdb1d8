-- ===== src/Threads/History/Steps.antt =====
-- One step of the threads in unreliablefs/unreliablefs_errinj.c and the sequence of calls that
-- explains the state.
use mathlib.Core.List.{Mem, mem-cons_self, mem-cons_of_mem}
use afs_cs.Base.{
  ℕ, ◌<◌, ℤ, ◌≡◌, ◌≢◌, refl, sym, ap, ◌∙◌, false, List, ◌∷◌, some, Str, ◌==◌, ==_iff, Bool-cases,
  inl, inr, arith,
}
use afs_cs.Build.{FuseOp}
use afs_cs.System.{Env, State}
use afs_cs.System.Accounts.{bit}
use afs_cs.Errinj.{lock, unlock, error_inject}
use afs_cs.Threads.{Phase, waiting, holding, settled, returned, Move, acquire, release, System}
use afs_cs.Threads.Family.{update, update_same, update_apart, weight-le-total}
use afs_cs.Threads.Invariant.{inside, IsOrderly, acquired, released}
use afs_cs.Threads.Safety.{excluded}
use afs_cs.Threads.Alone.{remaining-waiting, remaining-returned, Move-remaining}
use afs_cs.Threads.History.{
  ServedCall, then_call, then_outside, IsFor, between_calls, in_call, IsExplained,
}

returned-injective :
    (op op' : FuseOp) (rc rc' : ℤ) → returned op rc ≡ returned op' rc' → (op ≡ op') × (rc ≡ rc')
returned-injective op op' rc rc' e = (cc, cc)

-- While the mutex is free, no thread is inside.
no_call_of_free :
    {E : Env} {least : ℕ → ℕ} {n : ℕ} {y : System E} (k : ℕ) (p : Phase)
    → IsOrderly least n y
    → y.shared.conf.locked ≡ false
    → k < n
    → y.phase k ≡ p
    → inside p ≡ 1
    → ⊥
no_call_of_free {n = n} {y = y} k p orderly free below at_k has = absurd (
    omega (
      arith,
      orderly.mutex,
      ap bit free,
      has,
      ap inside at_k,
      weight-le-total inside n y.phase k below,
    ))

abbrev changed : (E : Env) → E.World → ℕ → E.Rng → State E → State E
changed E w errno g t = record t { world = w; errno = errno; rng = g }

pub outside-Explained :
    (E : Env) (least : ℕ → ℕ) (n : ℕ) (s : State E) (y : System E) (w : E.World) (errno : ℕ)
    (g : E.Rng)
    → IsOrderly least n y
    → y.shared.conf.locked ≡ false
    → IsExplained n s y
    → IsExplained n s
        (record y { shared = record (y.shared) { world = w; errno = errno; rng = g } })
outside-Explained E least n s y w errno g orderly free explained = record {
  calls = explained.calls;
  after = record (explained.after) { world = w; errno = errno; rng = g };
  sequence = then_outside w errno g explained.sequence;
  now = elim explained.now [
    | between_calls _ same ↦ between_calls free (ap (changed E w errno g) same)
    | in_call k p path op below at_k has for rest ↦
        elim (no_call_of_free k p orderly free below at_k has) [ ]
  ];
  results = explained.results;
}

module _ (E : Env) (least : ℕ → ℕ) (n : ℕ) (s : State E) (y : System E)
    (orderly : IsOrderly least n y) (i : ℕ) (h : i < n) where
  -- The thread that is inside is the one of the call on its way.
  only_inside : (k : ℕ) → inside (y.phase i) ≡ 1 → inside (y.phase k) ≡ 1 → i ≡ k
  only_inside k here there = elim (Bool-cases (i == k)) [
    | inl same ↦ (==_iff i k).0 same
    | inr other ↦
        absurd (omega (arith, there, excluded i k orderly h here λ e. cc (other, (==_iff i k).1 e)))
  ]

  not_inside : y.shared.conf.locked ≡ false → inside (y.phase i) ≡ 0
  not_inside free = omega (arith, orderly.mutex, ap bit free, weight-le-total inside n y.phase i h)

  results-changed :
      (calls : List ServedCall) (q : Phase)
      → ((j : ℕ) (op : FuseOp) (rc : ℤ)
          → y.phase j ≡ returned op rc
          → (path : Str) × Mem (record { thread = j; path = path; op = op; rc = rc }) calls)
      → ((op : FuseOp) (rc : ℤ)
          → q ≡ returned op rc
          → (path : Str) × Mem (record { thread = i; path = path; op = op; rc = rc }) calls)
      → (j : ℕ) (op : FuseOp) (rc : ℤ) → update y.phase i q j ≡ returned op rc
      → (path : Str) × Mem (record { thread = j; path = path; op = op; rc = rc }) calls
  results-changed calls q before new j op rc e = elim (Bool-cases (i == j)) [
    | inl same ↦ rw⁻¹ ((==_iff i j).0 same) (new op rc (rw same at e))
    | inr other ↦ before j op rc (rw other at e)
  ]

  -- A thread outside goes on to another place outside.
  pub stays_outside :
      (q : Phase)
      → inside (y.phase i) ≡ 0
      → ((op : FuseOp) (rc : ℤ) → q ≢ returned op rc)
      → IsExplained n s y
      → IsExplained n s (record y { phase = update y.phase i q })
  stays_outside q out not_returned explained =
      let apart : (k : ℕ) (p : Phase) → y.phase k ≡ p → inside p ≡ 1 → i ≢ k = λ k p at_k has e.
        absurd (omega (arith, out, has, ap inside at_k, ap (λ j. inside (y.phase j)) e)) in
      record {
        calls = explained.calls;
        after = explained.after;
        sequence = explained.sequence;
        now = elim explained.now [
          | between_calls free same ↦ between_calls free same
          | in_call k p path op below at_k has for rest ↦
              in_call k p path op below (update_apart y.phase i k q (apart k p at_k has) ∙ at_k) has
                for rest
        ];
        results =
            results-changed explained.calls q explained.results
              λ op rc e. elim (not_returned op rc e) [ ];
      }

  pub acquired-Explained :
      (path : Str) (op : FuseOp) (t : State E)
      → y.phase i ≡ waiting path op
      → lock E y.shared ≡ some (tt, t)
      → IsExplained n s y
      → IsExplained n s (record { shared = t; phase = update y.phase i (holding path op) })
  acquired-Explained path op t at_lock got explained = record {
    calls = explained.calls;
    after = explained.after;
    sequence = explained.sequence;
    now = elim explained.now [
      | between_calls free same ↦
          in_call i (holding path op) path op h (update_same y.phase i (holding path op)) refl refl
            (sym (Move-remaining E y.shared t (waiting path op) (holding path op) (acquire got))
              ∙ remaining-waiting E path op y.shared
              ∙ ap (error_inject E path op) same)
      | in_call k p path' op' below at_k has for rest ↦
          elim (no_call_of_free k p orderly (acquired y.shared t got).0 below at_k has) [ ]
    ];
    results = results-changed explained.calls (holding path op) explained.results λ op' rc e. cc;
  }

  -- A step between locking and unlocking.
  pub inner-Explained :
      (p q : Phase) (t : State E)
      → y.phase i ≡ p
      → inside p ≡ 1
      → inside q ≡ 1
      → ((op : FuseOp) → IsFor op p → IsFor op q)
      → ((op : FuseOp) (rc : ℤ) → q ≢ returned op rc)
      → Move E y.shared p t q
      → IsExplained n s y
      → IsExplained n s (record { shared = t; phase = update y.phase i q })
  inner-Explained p q t at_p has_p has_q keeps not_returned move explained = record {
    calls = explained.calls;
    after = explained.after;
    sequence = explained.sequence;
    now = elim explained.now [
      | between_calls free same ↦ absurd (omega (arith, not_inside free, has_p, ap inside at_p))
      | in_call k p' path op below at_k has for rest ↦
          let here : i ≡ k = only_inside k (ap inside at_p ∙ has_p) (ap inside at_k ∙ has) in
          let e : p' ≡ p = sym at_k ∙ ap y.phase (sym here) ∙ at_p in
          in_call i q path op h (update_same y.phase i q) has_q (keeps op (rw e at for))
            (sym (Move-remaining E y.shared t p q move) ∙ (rw e at rest))
    ];
    results =
        results-changed explained.calls q explained.results
          λ op rc e. elim (not_returned op rc e) [ ];
  }

  pub released-Explained :
      (op : FuseOp) (rc : ℤ) (t : State E)
      → y.phase i ≡ settled op rc
      → unlock E y.shared ≡ some (tt, t)
      → IsExplained n s y
      → IsExplained n s (record { shared = t; phase = update y.phase i (returned op rc) })
  released-Explained op rc t at_end freed explained = elim explained.now [
    | between_calls free same ↦ absurd (omega (arith, not_inside free, ap inside at_end))
    | in_call k p path op' below at_k has for rest ↦
        let here : i ≡ k = only_inside k (ap inside at_end) (ap inside at_k ∙ has) in
        let e : p ≡ settled op rc = sym at_k ∙ ap y.phase (sym here) ∙ at_end in
        let ran : error_inject E path op' explained.after ≡ some (rc, t) =
          sym (rw e at rest)
          ∙ Move-remaining E y.shared t (settled op rc) (returned op rc) (release freed)
          ∙ remaining-returned E op rc t in
        record {
          calls = record { thread = i; path = path; op = op'; rc = rc } ∷ explained.calls;
          after = t;
          sequence = then_call explained.sequence ran;
          now = between_calls (rw (sym (released y.shared t freed)) refl) refl;
          results =
              results-changed
                (record { thread = i; path = path; op = op'; rc = rc } ∷ explained.calls)
                (returned op rc)
                (λ j op'' rc' e'.
                  let (path', member) = explained.results j op'' rc' e' in
                  (path', mem-cons_of_mem _ member))
                (λ op'' rc' e'.
                  let (same_op, same_rc) = returned-injective op op'' rc rc' e' in
                  (path, rw (sym same_op ∙ (rw e at for), sym same_rc) mem-cons_self));
        }
  ]
