-- ===== src/Afs/Argument.antt =====
-- The argument of the command line, which the `main` functions of
-- unreliablefs/unreliable_afs_server.cc and unreliablefs/unreliable_afs_client.cc read alike.
use afs_cs.Base.{ℕ, ◌+◌, List, [], ◌∷◌, Option, none, some, Str, ◌==◌, if◌then◌else◌, length, drop}
use afs_cs.Afs.Text.{find, char_at}

-- The value, or one of the two messages.
pub data Argument : Type 0 where
  accepted : Str → Argument
  only_correct_syntax : Argument
  only_acceptable : Argument

-- What follows the flag that is found at a position.
unfoldable pub after_flag : Str → Str → Option ℕ → Argument
unfolding char_at
after_flag arg_str arg_val none = only_acceptable
after_flag arg_str arg_val (some at) =
    let start_pos = at + length arg_str in
    if char_at arg_val start_pos == 61
    then accepted (drop (start_pos + 1) arg_val)
    else only_correct_syntax

unfoldable pub flag_value : Str → Str → Argument
unfolding find after_flag
flag_value arg_str arg_val = after_flag arg_str arg_val (find arg_str arg_val)

-- The arguments after the program's name: the first counts.
unfoldable pub argument : Str → Str → List Str → Argument
unfolding flag_value
argument arg_str default [] = accepted default
argument arg_str default (arg_val ∷ _) = flag_value arg_str arg_val
