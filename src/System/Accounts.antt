-- ===== src/System/Accounts.antt =====
-- Bookkeeping of the heap: who holds each block. `base` counts the holders of a block that are
-- left out of view, `own` those in view, and together they hold each live block once.
use afs_cs.Base.{
  ◌⊎◌, ℕ, ◌+◌, ◌≤◌, ◌≡◌, refl, Bool, true, false, Option, none, some, arith, ◌==◌, Bool-cases, Str,
  inl, inr,
}
use afs_cs.Base.Run.{Ensures, ensures, Ensures-bind, Ensures-and}
use afs_cs.Queue.{OwnedStr}
use afs_cs.System.{Env, Heap, State}
use afs_cs.System.Memory.{malloc, strdup, free, free_str}

abbrev pub bit : Bool → ℕ
bit true = 1
bit false = 0

pub bit-le : (b : Bool) → bit b ≤ 1
bit-le b = ground arith

pub record Accounts (base : ℕ → ℕ) (h : Heap) (own : ℕ → ℕ) : Type 0 where
  pub exact : (a : ℕ) → bit (h.live a) ≡ base a + own a
  pub fresh : (a : ℕ) → h.next ≤ a → h.live a ≡ false

pub Accounts-move :
    {base base' own own' : ℕ → ℕ} {h : Heap}
    → Accounts base h own
    → ((a : ℕ) → base' a + own' a ≡ base a + own a)
    → Accounts base' h own'
Accounts-move acc same = record {
  exact = λ a. omega (arith, acc.exact a, same a);
  fresh = acc.fresh;
}

-- The holders of a string.
abbrev pub held_str : Option OwnedStr → ℕ → ℕ
held_str none a = 0
held_str (some o) a = bit (o.block == a)

-- Nothing but the heap differs.
pub record HeapOnly {E : Env} (s t : State E) : Type 0 where
  pub conf : t.conf ≡ s.conf
  pub errno : t.errno ≡ s.errno
  pub rng : t.rng ≡ s.rng
  pub world : t.world ≡ s.world

pub HeapOnly-refl : {E : Env} (s : State E) → HeapOnly s s
HeapOnly-refl s = record { conf = refl; errno = refl; rng = refl; world = refl }

pub HeapOnly-trans : {E : Env} {s t u : State E} → HeapOnly s t → HeapOnly t u → HeapOnly s u
HeapOnly-trans p q = record {
  conf = cc (p.conf, q.conf);
  errno = cc (p.errno, q.errno);
  rng = cc (p.rng, q.rng);
  world = cc (p.world, q.world);
}

-- The configuration, the lock and the random numbers stay.
pub record KeepsConf {E : Env} (s t : State E) : Type 0 where
  pub conf : t.conf ≡ s.conf
  pub rng : t.rng ≡ s.rng

-- The new block, if there is one, and everything held before.
abbrev pub held_new : Option ℕ → (ℕ → ℕ) → ℕ → ℕ
held_new none own a = own a
held_new (some b) own a = own a + bit (b == a)

-- Some request for memory is refused.
abbrev pub IsRefused : Env → Type 0
IsRefused E = (p : ℕ) × (E.grant p ≡ false)

module _ (E : Env) where
  -- Where there is no block, the request was refused.
  pub malloc-IsRefused : (s : State E) → Ensures (λ p t. p ≡ none → IsRefused E) (malloc E s)
  unfolding malloc
  malloc-IsRefused s = elim (Bool-cases (E.grant s.heap.next)) [
    | inl granted ↦ rw granted (ensures λ h. cc)
    | inr refused ↦ rw refused (ensures λ _. (s.heap.next, refused))
  ]

module _ (E : Env) {base : ℕ → ℕ} where
  pub malloc-Accounts :
      (s : State E) {own : ℕ → ℕ}
      → Accounts base s.heap own
      → Ensures (λ p t. Accounts base t.heap (held_new p own) × HeapOnly s t) (malloc E s)
  unfolding malloc
  malloc-Accounts s acc = elim (Bool-cases (E.grant s.heap.next)) [
    | inl granted ↦ rw granted (
        ensures (
          record {
            exact = λ a. ground (arith, acc.exact a, acc.fresh a);
            fresh = λ a h. ground (arith, acc.fresh a);
          },
          record { conf = refl; errno = refl; rng = refl; world = refl },
        ))
    | inr refused ↦ rw refused (
        ensures (
          record { exact = acc.exact; fresh = λ a h. acc.fresh a (omega arith) },
          record { conf = refl; errno = refl; rng = refl; world = refl },
        ))
  ]

  pub free-Accounts :
      (s : State E) (p : ℕ) {own own' : ℕ → ℕ}
      → Accounts base s.heap own
      → ((a : ℕ) → own a ≡ own' a + bit (p == a))
      → Ensures (λ _ t. Accounts base t.heap own' × HeapOnly s t) (free E p s)
  unfolding free
  free-Accounts s p acc split =
      let live : s.heap.live p ≡ true = ground (arith, acc.exact p, split p) in
      rw live (
        ensures (
          record {
            exact = λ a. ground (arith, acc.exact a, split a, acc.exact p, split p);
            fresh = λ a h. ground (arith, acc.fresh a);
          },
          record { conf = refl; errno = refl; rng = refl; world = refl },
        ))

  pub free_str-Accounts :
      (s : State E) (p : Option OwnedStr) {own own' : ℕ → ℕ}
      → Accounts base s.heap own
      → ((a : ℕ) → own a ≡ own' a + held_str p a)
      → Ensures (λ _ t. Accounts base t.heap own' × HeapOnly s t) (free_str E p s)
  unfolding free_str
  free_str-Accounts s none acc split =
      ensures (Accounts-move acc (λ a. omega (arith, split a)), HeapOnly-refl s)
  free_str-Accounts s (some o) acc split = free-Accounts s o.block acc split

  pub strdup-Accounts :
      (s : State E) (text : Str) {own : ℕ → ℕ}
      → Accounts base s.heap own
      → Ensures
          (λ p t.
            Accounts base t.heap (λ a. own a + held_str p a)
            × (((p ≡ none) × IsRefused E) ⊎ ((o : OwnedStr) × (p ≡ some o) × (o.text ≡ text)))
            × HeapOnly s t)
          (strdup E text s)
  unfolding strdup
  strdup-Accounts s text acc =
      Ensures-bind (Ensures-and (malloc-Accounts s acc) (malloc-IsRefused E s))
        λ p t ((acc', frame), why).
          ensures (Accounts-move acc' (λ a. ground arith), is_copy p why, frame)
    where
      is_copy :
          (p : Option ℕ)
          → (p ≡ none → IsRefused E)
          → let c : Option OwnedStr = elim p [
            | none ↦ none
            | some b ↦ some (record { block = b; text = text })
          ] in
            ((c ≡ none) × IsRefused E) ⊎ ((o : OwnedStr) × (c ≡ some o) × (o.text ≡ text))
      is_copy none why = inl (refl, why refl)
      is_copy (some b) why = inr (_, refl, refl)
