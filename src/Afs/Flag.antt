-- ===== src/Afs/Flag.antt =====
-- The reading of the argument in unreliablefs/unreliable_afs_server.cc and
-- unreliablefs/unreliable_afs_client.cc against a description of it by occurrences of the flag.
use mathlib.Core.List.{append_assoc}
use afs_cs.Base.{
  ℕ, suc, ◌+◌, ◌≤◌, ◌≡◌, refl, sym, ap, ◌∙◌, List, [], ◌∷◌, ◌++◌, none, some, Str, ◌==◌,
  if◌then◌else◌, length, length-append, drop, arith, Option-cases, inl, inr,
}
use afs_cs.Afs.Text.{find, char_at, Occurs, find-Occurs, find_first}
use afs_cs.Afs.Argument.{
  Argument, accepted, only_correct_syntax, only_acceptable, after_flag, flag_value, argument,
}

-- The value, if what follows the flag starts with `=`.
unfoldable pub value_in : Str → Argument
value_in [] = only_correct_syntax
value_in (c ∷ value) = if c == 61 then accepted value else only_correct_syntax

-- What the argument says, by the first occurrence of the flag at any place of it.
pub data Reads (arg_str arg_val : Str) : Argument → Type 0 where
  first_occurrence :
      (pre post : Str)
      → Occurs arg_str arg_val pre post
      → ((pre' post' : Str) → Occurs arg_str arg_val pre' post' → length pre ≤ length pre')
      → Reads arg_str arg_val (value_in post)
  no_occurrence :
      ((pre post : Str) → ¬ Occurs arg_str arg_val pre post) → Reads arg_str arg_val only_acceptable

char_at-append : (xs ys : Str) → char_at (xs ++ ys) (length xs) ≡ char_at ys 0
unfolding char_at
char_at-append [] ys = refl
char_at-append (x ∷ xs) ys = char_at-append xs ys

drop-append : (xs ys : Str) → drop (length xs + 1) (xs ++ ys) ≡ drop 1 ys
drop-append [] ys = refl
drop-append (x ∷ xs) ys =
    let step : suc (length xs) + 1 ≡ suc (length xs + 1) = omega arith in
    rw step (drop-append xs ys)

value_in_lem :
    (post : Str)
    → (if char_at post 0 == 61 then accepted (drop 1 post) else only_correct_syntax) ≡ value_in post
unfolding char_at value_in
value_in_lem [] = refl
value_in_lem (c ∷ value) = refl

after_flag-value_in :
    (arg_str pre post : Str)
    → after_flag arg_str (pre ++ (arg_str ++ post)) (some (length pre)) ≡ value_in post
unfolding after_flag
after_flag-value_in arg_str pre post =
    rw
      (
        sym (append_assoc pre arg_str post),
        sym (length-append pre arg_str),
        char_at-append (pre ++ arg_str) post,
        drop-append (pre ++ arg_str) post,
      )
      (value_in_lem post)

flag_value_at :
    (arg_str arg_val pre post : Str)
    → find arg_str arg_val ≡ some (length pre)
    → Occurs arg_str arg_val pre post
    → flag_value arg_str arg_val ≡ value_in post
unfolding flag_value
flag_value_at arg_str arg_val pre post found here =
    ap (after_flag arg_str arg_val) found
    ∙ ap (λ s. after_flag arg_str s (some (length pre))) here
    ∙ after_flag-value_in arg_str pre post

flag_value_missing :
    (arg_str arg_val : Str)
    → find arg_str arg_val ≡ none
    → flag_value arg_str arg_val ≡ only_acceptable
unfolding flag_value after_flag
flag_value_missing arg_str arg_val missing = ap (after_flag arg_str arg_val) missing

-- The position that is found is that of some occurrence, and no other is before it.
find-least :
    (arg_str arg_val pre post : Str) (i : ℕ)
    → find arg_str arg_val ≡ some i
    → Occurs arg_str arg_val pre post
    → i ≤ length pre
find-least arg_str arg_val pre post i found here =
    let (j, first, le) = find_first arg_str pre post in
    let k : some i ≡ some j = sym found ∙ ap (find arg_str) here ∙ first in ground (arith, k)

-- The argument is refused as not acceptable exactly if the flag does not occur in it. Else what
-- follows the first occurrence of the flag, which may be anywhere, counts: behind an equals sign it
-- is the value, and without one the syntax is refused.
pub flag_value-Reads : (arg_str arg_val : Str) → Reads arg_str arg_val (flag_value arg_str arg_val)
flag_value-Reads arg_str arg_val = elim (Option-cases (find arg_str arg_val)) [
  | inl missing ↦ rw (flag_value_missing arg_str arg_val missing) (
      no_occurrence λ pre post here.
        let (i, found, le) = find_first arg_str pre post in
        cc (missing, ap (find arg_str) here ∙ found))
  | inr (i, found) ↦
      let (pre, post, here, n) = find-Occurs arg_str arg_val i found in
      rw (flag_value_at arg_str arg_val pre post (found ∙ ap some (sym n)) here) (
        first_occurrence pre post here
          λ pre' post' there. rw n (find-least arg_str arg_val pre' post' i found there))
]

-- An argument that is the flag and a value, as the messages ask for it.
pub argument-append :
    (arg_str default value : Str) (rest : List Str)
    → argument arg_str default ((arg_str ++ (61 ∷ value)) ∷ rest) ≡ accepted value
unfolding argument value_in
argument-append arg_str default value rest =
    let (i, found, le) = find_first arg_str [] (61 ∷ value) in
    flag_value_at arg_str (arg_str ++ (61 ∷ value)) [] (61 ∷ value) (found ∙ ap some (omega arith))
      refl
