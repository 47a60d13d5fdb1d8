-- ===== src/Config/Distinct.antt =====
-- A queue has at most one injection of each type, so that a section of the configuration stands for
-- one injection.
use afs_cs.Base.{
  ℕ, ◌+◌, ◌≤◌, ℤ, ◌≡◌, refl, Bool, Option, some, none, List, [], ◌∷◌, ◌++◌, arith, Bool-cases, inl,
  inr, length, Str, ap, sym, ◌∙◌,
}
use mathlib.Core.Option.{some-injective}
use afs_cs.Queue.{
  ErrinjType, errinj_errno, errinj_kill_caller, errinj_noop, errinj_slowdown, ErrinjConf, ErrInjQ,
  type_eq,
}
use afs_cs.System.Accounts.{bit}
use afs_cs.System.{Env}
use afs_cs.Config.{find_type, put_type}
use afs_cs.Config.Spec.{
  Applied, path_regexp_set, op_regexp_set, probability_set, duration_set, unknown, Handled,
  unsupported, exhausted, updated, added,
}

abbrev pub count_type : ErrinjType → List ErrinjConf → ℕ
count_type t [] = 0
count_type t (e ∷ q) = bit (type_eq e.kind t) + count_type t q

abbrev pub IsDistinct : List ErrinjConf → Type 0
IsDistinct q = (t : ErrinjType) → count_type t q ≤ 1

-- The same of the queue of a configuration, if it has one.
abbrev pub IsDistinctQueue : Option ErrInjQ → Type 0
IsDistinctQueue none = Unit
IsDistinctQueue (some q) = IsDistinct q.entries

Applied-kind :
    {E : Env} {key value : Str} {e e' : ErrinjConf} {known : Bool}
    → Applied E key value e known e'
    → e'.kind ≡ e.kind
Applied-kind (path_regexp_set h c) = refl
Applied-kind (op_regexp_set h c) = refl
Applied-kind (probability_set h) = refl
Applied-kind (duration_set h) = refl
Applied-kind (unknown a b c d) = refl

count_type-append :
    (t : ErrinjType) (q r : List ErrinjConf)
    → count_type t (q ++ r) ≡ count_type t q + count_type t r
count_type-append t [] r = omega arith
count_type-append t (e ∷ q) r = omega (arith, count_type-append t q r)

count_type-put_type :
    (t u : ErrinjType) (q : List ErrinjConf) {e : ErrinjConf} (e' : ErrinjConf)
    → find_type t q ≡ some e
    → e'.kind ≡ e.kind
    → count_type u (put_type t e' q) ≡ count_type u q
unfolding find_type put_type
count_type-put_type t u [] e' found same = cc
count_type-put_type t u (np ∷ q) {e} e' found same = elim (Bool-cases (type_eq np.kind t)) [
  | inl hit ↦ rw hit (
      ap (λ k. bit (type_eq k u) + count_type u q)
        (same ∙ ap (λ x. x.kind) (sym (some-injective np e (rw hit at found)))))
  | inr other ↦ rw other (
      ap (λ n. bit (type_eq np.kind u) + n) (count_type-put_type t u q e' (rw other at found) same))
]

count_type-eq-zero :
    (t : ErrinjType) (q : List ErrinjConf) → find_type t q ≡ none → count_type t q ≡ 0
unfolding find_type
count_type-eq-zero t [] missing = refl
count_type-eq-zero t (np ∷ q) missing = elim (Bool-cases (type_eq np.kind t)) [
  | inl hit ↦ cc (rw hit at missing)
  | inr other ↦ rw other (omega (arith, count_type-eq-zero t q (rw other at missing)))
]

-- The change that a line asks for keeps the types distinct.
pub Handled-IsDistinct :
    {E : Env} {section key value : Str} {q : List ErrinjConf} {rc : ℤ} {q' : List ErrinjConf}
    → Handled E section key value q rc q'
    → IsDistinct q
    → IsDistinct q'
Handled-IsDistinct (unsupported h) d u = d u
Handled-IsDistinct (exhausted t n h refused) d u = d u
Handled-IsDistinct {q} (updated t {e'} n found a) d u =
    rw (count_type-put_type t u q e' found (Applied-kind a)) (d u)
Handled-IsDistinct {q} (added t b {e'} n missing a) d u =
    ground
      (arith, count_type-append u q (e' ∷ []), count_type-eq-zero t q missing, d u, Applied-kind a)

count_all :
    (q : List ErrinjConf)
    → length q
      ≡ count_type errinj_errno q
        + count_type errinj_kill_caller q
        + count_type errinj_noop q
        + count_type errinj_slowdown q
count_all [] = omega arith
count_all (e ∷ q) = ground (arith, count_all q)

-- A queue with at most one injection of each type has at most four injections.
pub length-le_of_IsDistinct : (q : List ErrinjConf) → IsDistinct q → length q ≤ 4
length-le_of_IsDistinct q d =
    omega
      (arith, count_all q, d errinj_errno, d errinj_kill_caller, d errinj_noop, d errinj_slowdown)
