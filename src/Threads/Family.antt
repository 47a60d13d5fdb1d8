-- ===== src/Threads/Family.antt =====
-- One thing for each thread, by its number: a change at one thread, and sums over the threads.
use native.Mathlib.Decide.{dec_lt}
use afs_cs.Base.{
  ℕ, zero, suc, ◌+◌, ◌*◌, ◌≤◌, ◌<◌, ◌≡◌, refl, ◌≢◌, inl, inr, ◌==◌, if◌then◌else◌, arith, ==_iff,
  Bool-cases, false,
}

abbrev pub update {ℓ} : {A : Type ℓ} → (ℕ → A) → ℕ → A → ℕ → A
update f i a j = if i == j then a else f j

pub update_same {ℓ} : {A : Type ℓ} (f : ℕ → A) (i : ℕ) (a : A) → update f i a i ≡ a
update_same f i a = rw ((==_iff i i).1 refl) refl

pub update_other {ℓ} :
    {A : Type ℓ} (f : ℕ → A) (i j : ℕ) (a : A) → (i == j) ≡ false → update f i a j ≡ f j
update_other f i j a other = rw other refl

pub update_apart {ℓ} : {A : Type ℓ} (f : ℕ → A) (i j : ℕ) (a : A) → i ≢ j → update f i a j ≡ f j
update_apart f i j a apart = elim (Bool-cases (i == j)) [
  | inl same ↦ elim (apart ((==_iff i j).0 same)) [ ]
  | inr other ↦ update_other f i j a other
]

module _ {A : Type 0} (weight : A → ℕ) where
  -- The sum over the threads below a number.
  abbrev pub total : ℕ → (ℕ → A) → ℕ
  total zero f = 0
  total (suc n) f = total n f + weight (f n)

  total_above : (n : ℕ) (f : ℕ → A) (i : ℕ) (a : A) → n ≤ i → total n (update f i a) ≡ total n f
  total_above zero f i a h = refl
  total_above (suc n) f i a h = ground (arith, total_above n f i a)

  pub total_changed :
      (n : ℕ) (f : ℕ → A) (i : ℕ) (a : A)
      → i < n
      → weight (f i) + total n (update f i a) ≡ weight a + total n f
  total_changed zero f i a h = elim h [ ]
  total_changed (suc n) f i a h = elim (Bool-cases (i == n)) [
    | inl last ↦ ground (arith, total_above n f i a)
    | inr below ↦ ground (arith, total_changed n f i a)
  ]

  pub total-zero : (n : ℕ) (f : ℕ → A) → ((i : ℕ) → weight (f i) ≡ 0) → total n f ≡ 0
  total-zero zero f none = refl
  total-zero (suc n) f none = omega (arith, none n, total-zero n f none)

  pub total-le : (b n : ℕ) (f : ℕ → A) → ((i : ℕ) → weight (f i) ≤ b) → total n f ≤ n * b
  total-le b zero f small = omega arith
  total-le b (suc n) f small = grind (arith, small n, total-le b n f small)

  -- A thread counts in the sum.
  pub weight-le-total : (n : ℕ) (f : ℕ → A) (i : ℕ) → i < n → weight (f i) ≤ total n f
  weight-le-total zero f i h = elim h [ ]
  weight-le-total (suc n) f i h = elim (Bool-cases (i == n)) [
    | inl last ↦ ground (arith, (==_iff i n).0 last)
    | inr below ↦ ground (arith, weight-le-total n f i)
  ]

  -- Two threads count apart.
  pub weights-le-total :
      (n : ℕ) (f : ℕ → A) (i j : ℕ)
      → i < n
      → j < n
      → i ≢ j
      → weight (f i) + weight (f j) ≤ total n f
  weights-le-total zero f i j h k ne = elim h [ ]
  weights-le-total (suc n) f i j h k ne = elim (Bool-cases (i == n)) [
    | inl here ↦ elim (Bool-cases (j == n)) [
      | inl there ↦ elim (ne (omega (arith, (==_iff i n).0 here, (==_iff j n).0 there))) [ ]
      | inr below ↦ ground (arith, (==_iff i n).0 here, weight-le-total n f j)
    ]
    | inr below ↦ elim (Bool-cases (j == n)) [
      | inl there ↦ ground (arith, (==_iff j n).0 there, weight-le-total n f i)
      | inr below' ↦ ground (arith, weights-le-total n f i j)
    ]
  ]

  -- A sum that is not zero has a thread that counts.
  pub exists_of_total : (n : ℕ) (f : ℕ → A) → 1 ≤ total n f → (i : ℕ) × (i < n) × (1 ≤ weight (f i))
  exists_of_total zero f h = absurd (omega (arith, h))
  exists_of_total (suc n) f h = elim (dec_lt 0 (weight (f n))) [
    | yes counts ↦ (n, omega arith, counts)
    | no zero_here ↦
        let (i, below, has) = exists_of_total n f (omega arith) in (i, omega arith, has)
  ]
