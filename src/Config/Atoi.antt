-- ===== src/Config/Atoi.antt =====
-- `atoi`, as glibc implements it: `(int) strtol(s, NULL, 10)` with a 64-bit `long`.
use afs_cs.Base.{
  ℕ, ◌+◌, ◌-◌, ◌*◌, ◌^◌, ℤ, pos, to_int, Bool, [], ◌∷◌, Str, leb, ◌==◌, ◌||◌, ◌&&◌, if◌then◌else◌,
}

unfoldable pub is_space : ℕ → Bool
is_space c = c == 32 || leb 9 c && leb c 13

unfoldable pub is_digit : ℕ → Bool
is_digit c = leb b'0' c && leb c b'9'

-- The digits from the front of the string, onto what was read before.
unfoldable pub read_digits : Str → ℕ → ℕ
unfolding is_digit
read_digits [] acc = acc
read_digits (c ∷ s) acc =
    let rest = read_digits s (acc * 10 + (c - b'0')) in if is_digit c then rest else acc

unfoldable pub skip_space : Str → Str
unfolding is_space
skip_space [] = []
skip_space (c ∷ s) = let rest = skip_space s in if is_space c then rest else c ∷ s

-- A `long` clamped to its range and cut to 32 bits.
abbrev positive : ℕ → ℤ
positive n = to_int (if leb n (2 ^ 63 - 1) then n else 2 ^ 63 - 1)

abbrev negative : ℕ → ℤ
negative n = to_int (2 ^ 64 - (if leb n (2 ^ 63) then n else 2 ^ 63))

abbrev signed : Str → ℤ
signed [] = pos 0
signed (c ∷ s) =
    if c == b'-'
    then negative (read_digits s 0)
    else if c == b'+'
    then positive (read_digits s 0)
    else positive (read_digits (c ∷ s) 0)

unfoldable pub atoi : Str → ℤ
unfolding read_digits skip_space
atoi s = signed (skip_space s)
