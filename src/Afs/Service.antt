-- ===== src/Afs/Service.antt =====
-- The server of unreliablefs/unreliable_afs_server.cc. The requests that gRPC hands to the service
-- until it is shut down are an argument.
use mathlib.Core.Option.{get_or}
use afs_cs.Base.{
  pos, neg, minus_one, ◌==ℤ◌, to_u32, List, [], ◌∷◌, ◌++◌, Str, codes, some, if◌then◌else◌,
}
use afs_cs.Base.Run.{M, pure, ◌>>=◌, ◌>>◌}
use afs_cs.System.{Env}
use afs_cs.System.Kernel.{Call, Reply, sys_mkdir}
use afs_cs.Afs.{MkdirRequest, MkdirReply, Status, status_ok, Server}
use afs_cs.Afs.Text.{c_str}
use afs_cs.Afs.Argument.{Argument, accepted, only_correct_syntax, only_acceptable, argument}

-- The lines that `main` prints before it returns 0, or what the service answered.
pub data ServerRun : Type 0 where
  served : List (Status × MkdirReply) → ServerRun
  refused_syntax refused_argument : ServerRun

module _ (E : Env) where
  unfoldable pub server_sys : Call → M (Server E) Reply
  server_sys c t =
      let (r, w) = E.call c t.world in
      some (r, record t { errno = get_or r.errno t.errno; world = w })

  -- `reply->set_err(-errno)`
  unfoldable pub reply_errno : M (Server E) (Status × MkdirReply)
  reply_errno t = some ((status_ok, record { err = neg (pos t.errno) }), t)

  -- `UnreliableAFSServiceImpl::Mkdir`
  unfoldable pub service_mkdir : MkdirRequest → M (Server E) (Status × MkdirReply)
  unfolding server_sys reply_errno c_str
  service_mkdir request t =
      let path = t.server_base_directory ++ request.path in
      (do
        r ← server_sys (sys_mkdir (c_str path) (to_u32 request.mode))
        if r.value ==ℤ minus_one then reply_errno else pure (status_ok, record { err = r.value }))
        t

  unfoldable pub serve_all : List MkdirRequest → M (Server E) (List (Status × MkdirReply))
  unfolding service_mkdir
  serve_all [] = pure []
  serve_all (request ∷ requests) = do
    answer ← service_mkdir request
    answers ← serve_all requests
    pure (answer ∷ answers)

  unfoldable pub set_base_directory : Str → M (Server E) (Unit {0})
  set_base_directory base t = some (tt, record t { server_base_directory = base })

  -- `RunServer`
  unfoldable pub run_server : Str → List MkdirRequest → M (Server E) ServerRun
  unfolding serve_all set_base_directory
  run_server base_path_str requests = do
    set_base_directory base_path_str
    answers ← serve_all requests
    pure (served answers)

  unfoldable pub server_start : Argument → List MkdirRequest → M (Server E) ServerRun
  unfolding run_server
  server_start (accepted base_path_str) requests = run_server base_path_str requests
  server_start only_correct_syntax requests = pure refused_syntax
  server_start only_acceptable requests = pure refused_argument

  -- `main`, on the arguments after the program's name.
  unfoldable pub server_main : List Str → List MkdirRequest → M (Server E) ServerRun
  unfolding server_start argument
  server_main argv requests =
      server_start (argument (codes "--base") (codes "/tmp/uafs") argv) requests
