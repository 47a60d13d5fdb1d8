-- ===== src/Afs/Client.antt =====
-- The client of unreliablefs/unreliable_afs_client.cc. A channel of gRPC is a parameter: what the
-- stub's call does with the state `S` of the other side.
use afs_cs.Base.{ℤ, pos, minus_one, List, Str, codes}
use afs_cs.Base.Run.{M, pure, ◌>>=◌}
use afs_cs.Afs.{MkdirRequest, MkdirReply, Status, status_ok, status_error}
use afs_cs.Afs.Argument.{Argument, accepted, only_correct_syntax, only_acceptable, argument}

abbrev pub Stub : Type 0 → Type 0
Stub S = MkdirRequest → M S (Status × MkdirReply)

-- The line that `main` prints before it returns 0.
pub data ClientRun : Type 0 where
  received : ℤ → ClientRun
  refused_syntax refused_argument : ClientRun

-- `status.ok() ? reply.err() : -1`
unfoldable pub mkdir_result : Status × MkdirReply → ℤ
mkdir_result (status_ok, reply) = reply.err
mkdir_result (status_error code, reply) = minus_one

module _ {S : Type 0} where
  -- `GreeterClient::Mkdir`
  unfoldable pub client_mkdir : Stub S → Str → ℤ → M S ℤ
  unfolding mkdir_result
  client_mkdir stub path mode = do
    answer ← stub (record { path = path; mode = mode })
    pure (mkdir_result answer)

  unfoldable pub client_start : (Str → Stub S) → Argument → M S ClientRun
  unfolding client_mkdir
  client_start channel (accepted target_str) = do
    res ← client_mkdir (channel target_str) (codes "/world") (pos 511)
    pure (received res)
  client_start channel only_correct_syntax = pure refused_syntax
  client_start channel only_acceptable = pure refused_argument

  -- `main`, on the arguments after the program's name.
  unfoldable pub client_main : (Str → Stub S) → List Str → M S ClientRun
  unfolding client_start argument
  client_main channel argv =
      client_start channel (argument (codes "--target") (codes "localhost:50051") argv)
