-- ===== src/Base/Run.antt =====
-- Stateful code: a command takes the state and returns a value with the new state. `none` is
-- undefined behaviour in C, such as a read past the end of an array or a bad `free`.
use mathlib.Core.Path.{◌≡◌, refl}
use mathlib.Core.Bool.{Bool, true, false}
use afs_cs.Base.Tests.{if◌then◌else◌}
use mathlib.Core.Option.{Option, none, some}
use mathlib.Core.Logic.{◌⊎◌, inl, inr}

abbrev pub M : Type 0 → Type 0 → Type 0
M S A = S → Option (A × S)

module _ {S : Type 0} where
  abbrev pub pure : {A : Type 0} → A → M S A
  pure a s = some (a, s)

  abbrev pub undefined : {A : Type 0} → M S A
  undefined _ = none

  -- What a command does next, after it returned.
  abbrev pub and_then : {A B : Type 0} → Option (A × S) → (A → M S B) → Option (B × S)
  and_then none f = none
  and_then (some (a, t)) f = f a t

  and_then-eq-some :
      {A B : Type 0} (o : Option (A × S)) (f : A → M S B) {r : B × S}
      → and_then o f ≡ some r
      → (a : A) × (t : S) × (o ≡ some (a, t)) × (f a t ≡ some r)
  and_then-eq-some none f h = cc
  and_then-eq-some (some (a, t)) f h = (a, t, refl, h)

  infixl 5 ◌>>=◌ ◌>>◌
  abbrev pub ◌>>=◌ : {A B : Type 0} → M S A → (A → M S B) → M S B
  ◌>>=◌ m f s = and_then (m s) f

  abbrev pub ◌>>◌ : {B : Type 0} → M S (Unit {0}) → M S B → M S B
  m >> k = m >>= λ _. k

  -- Inversion of a defined run.
  pub >>=-eq-some :
      {A B : Type 0} (m : M S A) (f : A → M S B) (s : S) {r : B × S}
      → and_then (m s) f ≡ some r
      → (a : A) × (t : S) × (m s ≡ some (a, t)) × (f a t ≡ some r)
  >>=-eq-some m f s h = and_then-eq-some (m s) f h

-- The value and the state of a run are determined.
pub some_pair-eq :
    {A S : Type 0} {a b : A} {s t : S}
    → ◌≡◌ {A = Option (A × S)} (some (a, s)) (some (b, t))
    → (a ≡ b) × (s ≡ t)
some_pair-eq h = (cc, cc)

-- A run that is defined, and a postcondition of it.
pub data Ensures {S A : Type 0} (P : A → S → Type 0) : Option (A × S) → Type 0 where
  ensures : {a : A} {s : S} → P a s → Ensures P (some (a, s))

module _ {S A : Type 0} {P : A → S → Type 0} where
  pub Ensures-bind :
      {B : Type 0} {Q : B → S → Type 0} {o : Option (A × S)} {f : A → M S B}
      → Ensures P o
      → ((a : A) (t : S) → P a t → Ensures Q (f a t))
      → Ensures Q (and_then o f)
  Ensures-bind (ensures p) next = next _ _ p

  pub Ensures-mono :
      {Q : A → S → Type 0} {o : Option (A × S)}
      → Ensures P o
      → ((a : A) (t : S) → P a t → Q a t)
      → Ensures Q o
  Ensures-mono (ensures p) weaken = ensures (weaken _ _ p)

  Ensures-get : {a : A} {s : S} → Ensures P (some (a, s)) → P a s
  Ensures-get (ensures p) = p

  pub Ensures-some : {a : A} {s : S} {o : Option (A × S)} → Ensures P o → o ≡ some (a, s) → P a s
  Ensures-some p e = Ensures-get (rw e at p)

  -- Both branches of a test.
  pub Ensures-if :
      (b : Bool) (m n : M S A) (s : S)
      → Ensures P (m s)
      → Ensures P (n s)
      → Ensures P ((if b then m else n) s)
  Ensures-if true m n s p q = p
  Ensures-if false m n s p q = q

  pub Ensures-test :
      (b : Bool) {o o' : Option (A × S)}
      → Ensures P o
      → Ensures P o'
      → Ensures P (if b then o else o')
  Ensures-test true p q = p
  Ensures-test false p q = q

  -- The result and the state of a run.
  pub Ensures-exists :
      {o : Option (A × S)} → Ensures P o → (a : A) × (t : S) × (o ≡ some (a, t)) × P a t
  Ensures-exists (ensures {a} {s} p) = (a, s, refl, p)

-- Two postconditions of one run.
pub Ensures-and :
    {S A : Type 0} {P Q : A → S → Type 0} {o : Option (A × S)}
    → Ensures P o
    → Ensures Q o
    → Ensures (λ a t. P a t × Q a t) o
Ensures-and (ensures p) q = ensures (p, Ensures-get q)

-- A run that is defined with a postcondition, or undefined with the cause `D`.
pub data Ends {S A : Type 0} (D : Type 0) (P : A → S → Type 0) : Option (A × S) → Type 0 where
  ended : {a : A} {s : S} → P a s → Ends D P (some (a, s))
  broke : D → Ends D P none

module _ {S A : Type 0} {D : Type 0} {P : A → S → Type 0} where
  pub Ends-of_Ensures : {o : Option (A × S)} → Ensures P o → Ends D P o
  Ends-of_Ensures (ensures p) = ended p

  pub Ends-bind :
      {B : Type 0} {D' : Type 0} {Q : B → S → Type 0} {o : Option (A × S)} {f : A → M S B}
      → Ends D P o
      → (D → D')
      → ((a : A) (t : S) → o ≡ some (a, t) → P a t → Ends D' Q (f a t))
      → Ends D' Q (and_then o f)
  Ends-bind (ended p) cause next = next _ _ refl p
  Ends-bind (broke x) cause next = broke (cause x)

  pub Ends-mono :
      {D' : Type 0} {Q : A → S → Type 0} {o : Option (A × S)}
      → Ends D P o
      → (D → D')
      → ((a : A) (t : S) → P a t → Q a t)
      → Ends D' Q o
  Ends-mono (ended p) cause weaken = ended (weaken _ _ p)
  Ends-mono (broke x) cause weaken = broke (cause x)

  Ends-get : {a : A} {s : S} → Ends D P (some (a, s)) → P a s
  Ends-get (ended p) = p

  pub Ends-some : {a : A} {s : S} {o : Option (A × S)} → Ends D P o → o ≡ some (a, s) → P a s
  Ends-some p e = Ends-get (rw e at p)

  pub Ends-cases :
      {o : Option (A × S)} → Ends D P o → ((a : A) × (t : S) × (o ≡ some (a, t)) × P a t) ⊎ D
  Ends-cases (ended {a} {s} p) = inl (a, s, refl, p)
  Ends-cases (broke x) = inr x

  pub Ends-test :
      (b : Bool) {o o' : Option (A × S)} → Ends D P o → Ends D P o' → Ends D P (if b then o else o')
  Ends-test true p q = p
  Ends-test false p q = q

-- What follows a run that is defined.
pub Ensures-then :
    {S A B : Type 0} {D : Type 0} {P : A → S → Type 0} {Q : B → S → Type 0} {o : Option (A × S)}
    {f : A → M S B}
    → Ensures P o
    → ((a : A) (t : S) → o ≡ some (a, t) → P a t → Ends D Q (f a t))
    → Ends D Q (and_then o f)
Ensures-then (ensures p) next = next _ _ refl p
