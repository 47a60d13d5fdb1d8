-- ===== src/Afs.antt =====
-- The AFS client and server: the messages of unreliablefs/protos/unreliable_afs.proto, and the
-- state of the server of unreliablefs/unreliable_afs_server.cc.
pub mod Text
pub mod Argument
pub mod Flag
pub mod Service
pub mod Mkdir
pub mod Calls
pub mod Client
use afs_cs.Base.{ℕ, ℤ, Str}
use afs_cs.System.{Env}

pub record MkdirRequest : Type 0 where
  pub path : Str
  pub mode : ℤ

pub record MkdirReply : Type 0 where
  pub err : ℤ

-- `grpc::Status`: OK, or the code of an error.
pub data Status : Type 0 where
  status_ok : Status
  status_error : ℕ → Status

-- The server's process: its global, `errno`, and the kernel.
pub record Server (E : Env) : Type 0 where
  pub server_base_directory : Str
  pub errno : ℕ
  pub world : E.World
