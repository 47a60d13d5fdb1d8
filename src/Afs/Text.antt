-- ===== src/Afs/Text.antt =====
-- Strings of C++ as unreliablefs/unreliable_afs_server.cc and unreliablefs/unreliable_afs_client.cc
-- use them: `find`, `operator[]`, `substr` and `c_str`.
use mathlib.Core.Option
use afs_cs.Base.{
  ℕ, zero, suc, ◌≤◌, ◌≡◌, refl, ap, sym, ◌∙◌, Bool, true, false, ◌&&◌, [], ◌∷◌, ◌++◌, Option, none,
  some, Str, ◌==◌, if◌then◌else◌, length, arith, Bool-cases, inl, inr,
}

unfoldable pub starts_with : Str → Str → Bool
starts_with [] s = true
starts_with (a ∷ p) [] = false
starts_with (a ∷ p) (b ∷ s) = a == b && starts_with p s

-- The first position, or `npos`.
unfoldable pub find : Str → Str → Option ℕ
unfolding starts_with
find sub [] = if starts_with sub [] then some 0 else none
find sub (c ∷ s) =
    let rest = Option.map suc (find sub s) in if starts_with sub (c ∷ s) then some 0 else rest

-- `s[i]`, which is 0 at the end.
unfoldable pub char_at : Str → ℕ → ℕ
char_at [] i = 0
char_at (c ∷ s) zero = c
char_at (c ∷ s) (suc i) = char_at s i

-- What a function of C reads of the string.
unfoldable pub c_str : Str → Str
c_str [] = []
c_str (c ∷ s) = let rest = c_str s in if c == 0 then [] else c ∷ rest

starts_with-append : (p s : Str) → starts_with p (p ++ s) ≡ true
unfolding starts_with
starts_with-append [] s = refl
starts_with-append (a ∷ p) s = ground (arith, starts_with-append p s)

starts_with-split : (p s : Str) → starts_with p s ≡ true → (post : Str) × (s ≡ p ++ post)
unfolding starts_with
starts_with-split [] s h = (s, refl)
starts_with-split (a ∷ p) [] h = cc
starts_with-split (a ∷ p) (b ∷ s) h =
    let (post, e) = starts_with-split p s (ground arith) in (post, ground arith)

find_here : (sub s : Str) → starts_with sub s ≡ true → find sub s ≡ some 0
unfolding find
find_here sub [] h = rw h refl
find_here sub (c ∷ s) h = rw h refl

find_later :
    (sub : Str) (c : ℕ) (s : Str)
    → starts_with sub (c ∷ s) ≡ false
    → find sub (c ∷ s) ≡ Option.map suc (find sub s)
unfolding find
find_later sub c s h = rw h refl

-- An occurrence of one string in another.
abbrev pub Occurs : Str → Str → Str → Str → Type 0
Occurs sub s pre post = s ≡ pre ++ (sub ++ post)

map-suc-some :
    (o : Option ℕ) (i : ℕ) → Option.map suc o ≡ some i → (j : ℕ) × (o ≡ some j) × (suc j ≡ i)
map-suc-some none i h = cc
map-suc-some (some j) i h = (j, refl, cc)

-- What is found is an occurrence.
pub find-Occurs :
    (sub s : Str) (i : ℕ)
    → find sub s ≡ some i
    → (pre : Str) × (post : Str) × Occurs sub s pre post × (length pre ≡ i)
unfolding find
find-Occurs sub [] i h = elim (Bool-cases (starts_with sub [])) [
  | inl hit ↦
      let (post, e) = starts_with-split sub [] hit in ([], post, e, cc (find_here sub [] hit))
  | inr miss ↦ let k : some i ≡ none = sym h ∙ rw miss refl in cc
]
find-Occurs sub (c ∷ s) i h = elim (Bool-cases (starts_with sub (c ∷ s))) [
  | inl hit ↦
      let (post, e) = starts_with-split sub (c ∷ s) hit in
      ([], post, e, cc (find_here sub (c ∷ s) hit))
  | inr miss ↦
      let (j, found, e) = map-suc-some (find sub s) i (sym (find_later sub c s miss) ∙ h) in
      let (pre, post, here, n) = find-Occurs sub s j found in
      (c ∷ pre, post, ap (λ l. c ∷ l) here, omega arith)
]

-- The first occurrence is found.
pub find_first :
    (sub pre post : Str) → (i : ℕ) × (find sub (pre ++ (sub ++ post)) ≡ some i) × (i ≤ length pre)
find_first sub [] post = (0, find_here sub (sub ++ post) (starts_with-append sub post), omega arith)
find_first sub (c ∷ pre) post = elim (Bool-cases (starts_with sub (c ∷ (pre ++ (sub ++ post))))) [
  | inl hit ↦ (0, find_here sub _ hit, omega arith)
  | inr miss ↦
      let (i, found, le) = find_first sub pre post in
      (suc i, find_later sub c _ miss ∙ rw found refl, omega arith)
]
