-- ===== src/Tests/Remote.antt =====
-- The AFS client and server on the small kernel, and the theorems about them at concrete inputs.
use afs_cs.Base.{
  ℤ, pos, minus_one, ◌≡◌, refl, inr, List, [], ◌∷◌, ◌++◌, map, some, Str, str_eq, codes, neg,
}
use afs_cs.System.{State}
use afs_cs.Ops.Requests.{just_ret}
use afs_cs.Ops.Total.{serve}
use afs_cs.Afs.{MkdirRequest, Server, status_ok, Status, MkdirReply}
use afs_cs.Afs.Text.{c_str}
use afs_cs.Afs.Argument.{flag_value, accepted, only_correct_syntax, only_acceptable}
use afs_cs.Afs.Flag.{Reads, flag_value-Reads}
use afs_cs.Afs.Service.{service_mkdir, server_main, served}
use afs_cs.Afs.Client.{Stub, client_main, received}
use afs_cs.Afs.Mkdir.{IsMkdir, Same, as_fuse, answer_of, server_main-serve}
use afs_cs.Afs.Calls.{IsDelivery, IsResult, client_main-IsResult}
use afs_cs.Tests.Kernel.{toy, unconfigured, idle}

abbrev mkdir_d : MkdirRequest
mkdir_d = record { path = codes "/d"; mode = pos 511 }

abbrev mkdir_e : MkdirRequest
mkdir_e = record { path = codes "/e"; mode = minus_one }

abbrev server : Server toy
server = record { server_base_directory = codes "/tmp/uafs"; errno = 0; world = idle }

server-Same : Same toy unconfigured server
server-Same = record { world = refl; errno = refl }

-- The flag is found inside of the argument as well, and what follows it must be `=`.
flag_inside : flag_value (codes "--base") (codes "x--base=/a") ≡ accepted (codes "/a")
unfolding flag_value
flag_inside = refl

flag_alone : flag_value (codes "--base") (codes "--base") ≡ only_correct_syntax
unfolding flag_value
flag_alone = refl

flag_missing : flag_value (codes "--base") (codes "/a") ≡ only_acceptable
unfolding flag_value
flag_missing = refl

toy-IsMkdir : IsMkdir toy
toy-IsMkdir path mode w = inr refl

-- A channel that loses nothing.
abbrev channel : Str → Stub (Server toy)
channel target = service_mkdir toy

channel-IsDelivery : (target : Str) → IsDelivery toy (channel target)
unfolding service_mkdir
channel-IsDelivery target request t answer t' back ok = back

flag_value-Reads_example :
    Reads (codes "--base") (codes "x--base=/a") (flag_value (codes "--base") (codes "x--base=/a"))
flag_value-Reads_example = flag_value-Reads (codes "--base") (codes "x--base=/a")

server_main-serve_example :
    (errs : List ℤ) × (u : State toy) × (t' : Server toy) × (serve toy
        (map (as_fuse toy (codes "/a")) (mkdir_d ∷ mkdir_e ∷ []))
        unconfigured
      ≡ some (map (just_ret toy) errs, u))
    × (server_main toy
          ((codes "--base" ++ codes "=" ++ codes "/a") ∷ [])
          (mkdir_d ∷ mkdir_e ∷ [])
          server
        ≡ some (served (map (answer_of toy) errs), t'))
    × Same toy u t'
unfolding str_eq c_str
server_main-serve_example =
    server_main-serve toy (codes "/a") [] (mkdir_d ∷ mkdir_e ∷ []) unconfigured server toy-IsMkdir
      server-Same refl refl (refl, (refl, tt))

-- The kernel of the server refuses, as the directory is there.
abbrev refused_mkdir : Status × MkdirReply
refused_mkdir = (status_ok, record { err = neg (pos 17) })

abbrev server_after : Server toy
server_after = record server { errno = 17; world = record idle { calls = 1 } }

client_main-IsResult_example :
    (res : ℤ) × (client_main channel
        ((codes "--target" ++ codes "=" ++ codes "localhost:50051") ∷ [])
        server
      ≡ some (received res, server_after))
    × IsResult toy unconfigured server
        (record { path = codes "/world"; mode = pos 511 })
        status_ok
        res
        server_after
unfolding service_mkdir
client_main-IsResult_example =
    client_main-IsResult toy channel (codes "localhost:50051") [] unconfigured server refused_mkdir
      server_after (channel-IsDelivery (codes "localhost:50051")) toy-IsMkdir server-Same refl
