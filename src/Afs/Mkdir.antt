-- ===== src/Afs/Mkdir.antt =====
-- The server of unreliablefs/unreliable_afs_server.cc against the operation `unreliable_mkdir` of
-- unreliablefs/unreliablefs_ops.c.
use mathlib.Core.Option.{get_or}
use afs_cs.Base.{
  ℕ, ℤ, pos, neg, minus_one, to_u32, ◌≡◌, refl, ap, ◌∙◌, ◌⊎◌, inl, inr, false, List, [], ◌∷◌, ◌++◌,
  map, none, some, Str, str_eq, All, codes,
}
use afs_cs.System.{Env, State}
use afs_cs.System.Kernel.{Call, sys_mkdir}
use afs_cs.System.Memory.{sys}
use afs_cs.Ops.{status, negated_errno}
use afs_cs.Ops.Requests.{Request, just_ret, fuse_mkdir, path_of}
use afs_cs.Ops.Dispatch.{dispatch}
use afs_cs.Ops.Passthrough.{passthrough}
use afs_cs.Ops.EndToEnd.{dispatch_unconfigured}
use afs_cs.Ops.Total.{serve}
use afs_cs.Afs.{MkdirRequest, MkdirReply, Status, status_ok, Server}
use afs_cs.Afs.Text.{c_str}
use afs_cs.Afs.Flag.{argument-append}
use afs_cs.Afs.Service.{
  server_sys, reply_errno, service_mkdir, serve_all, set_base_directory, run_server, server_start,
  server_main, served,
}

module _ (E : Env) where
  -- `mkdir` of the kernel returns 0 or -1.
  abbrev pub IsMkdir : Type 0
  IsMkdir =
      (path : Str) (mode : ℕ) (w : E.World)
      → ((E.call (sys_mkdir path mode) w).0.value ≡ pos 0)
        ⊎ ((E.call (sys_mkdir path mode) w).0.value ≡ minus_one)

  -- The request to FUSE for the directory that the server makes.
  abbrev pub as_fuse : Str → MkdirRequest → Request E
  as_fuse base request = fuse_mkdir (c_str (base ++ request.path)) (to_u32 request.mode)

  abbrev pub answer_of : ℤ → Status × MkdirReply
  answer_of err = (status_ok, record { err = err })

  -- The two processes see the same kernel and have the same `errno`.
  pub record Same (s : State E) (t : Server E) : Type 0 where
    pub world : s.world ≡ t.world
    pub errno : s.errno ≡ t.errno

  -- What a request to the server does is what FUSE's does.
  pub record Agrees (s : State E) (t : Server E) (u : State E) (t' : Server E) : Type 0 where
    pub same : Same u t'
    pub conf : u.conf ≡ s.conf
    pub base : t'.server_base_directory ≡ t.server_base_directory

  -- The states after a call of the kernel.
  abbrev fuse_after : Call → State E → State E
  fuse_after c s =
      let (r, w) = E.call c s.world in record s { errno = get_or r.errno s.errno; world = w }

  abbrev server_after : Call → Server E → Server E
  server_after c t =
      let (r, w) = E.call c t.world in record t { errno = get_or r.errno t.errno; world = w }

  after-Same :
      (c : Call) (s : State E) (t : Server E) → Same s t → Same (fuse_after c s) (server_after c t)
  after-Same c s t same = record {
    world = ap (λ w. (E.call c w).1) same.world;
    errno = rw (same.world, same.errno) refl;
  }

  pub service_mkdir-passthrough :
      (request : MkdirRequest) (s : State E) (t : Server E)
      → IsMkdir
      → Same s t
      → (v : ℤ) × (u : State E) × (t' : Server E) × Agrees s t u t'
        × (passthrough E (as_fuse t.server_base_directory request) s ≡ some (just_ret E v, u))
        × (service_mkdir E request t ≡ some (answer_of v, t'))
  unfolding passthrough status sys negated_errno service_mkdir server_sys reply_errno
  service_mkdir-passthrough request s t kernel same =
      let path = c_str (t.server_base_directory ++ request.path) in
      let c = sys_mkdir path (to_u32 request.mode) in
      let agrees : Agrees s t (fuse_after c s) (server_after c t) = record {
        same = after-Same c s t same;
        conf = refl;
        base = refl;
      } in
      elim (kernel path (to_u32 request.mode) t.world) [
        | inl made ↦ (
          pos 0,
          fuse_after c s,
          server_after c t,
          agrees,
          rw (same.world, made) refl,
          rw made refl,
        )
        | inr failed ↦ (
          neg (pos (server_after c t).errno),
          fuse_after c s,
          server_after c t,
          agrees,
          rw (same.world, same.errno, failed) refl,
          rw failed refl,
        )
      ]

  -- No request to FUSE names the configuration file.
  abbrev pub IsOff : Str → Str → List MkdirRequest → Type 0
  IsOff base config_path requests =
      All (λ request. str_eq (c_str (base ++ request.path)) config_path ≡ false) requests

  serve_all-serve :
      (requests : List MkdirRequest) (s : State E) (t : Server E)
      → IsMkdir
      → Same s t
      → s.conf.errors ≡ none
      → s.conf.locked ≡ false
      → IsOff t.server_base_directory s.conf.config_path requests
      → (errs : List ℤ) × (u : State E) × (t' : Server E) × Agrees s t u t'
        × (serve E (map (as_fuse t.server_base_directory) requests) s
            ≡ some (map (just_ret E) errs, u))
        × (serve_all E requests t ≡ some (map answer_of errs, t'))
  unfolding serve serve_all path_of
  serve_all-serve [] s t kernel same off free other =
      ([], s, t, record { same = same; conf = refl; base = refl }, refl, refl)
  serve_all-serve (request ∷ requests) s t kernel same off free (here, rest) =
      let (v, u, t', agrees, passed, made) = service_mkdir-passthrough request s t kernel same in
      let asked : dispatch E (as_fuse t.server_base_directory request) s ≡ some (just_ret E v, u) =
        dispatch_unconfigured E (as_fuse t.server_base_directory request) s here free off
        ∙ passed in
      let (errs, u', t'', agrees', served_all, made_all) =
        serve_all-serve requests u t' kernel agrees.same (rw agrees.conf off) (rw agrees.conf free)
          (rw (agrees.conf, agrees.base) rest) in
      (
        v ∷ errs,
        u',
        t'',
        record {
          same = agrees'.same;
          conf = agrees'.conf ∙ agrees.conf;
          base = agrees'.base ∙ agrees.base;
        },
        rw (asked, (rw agrees.base at served_all)) refl,
        rw (made, made_all) refl,
      )

  -- The server that is given a directory serves it.
  server_main-run_server :
      (dir : Str) (argv : List Str) (requests : List MkdirRequest) (t : Server E)
      → server_main E ((codes "--base" ++ codes "=" ++ dir) ∷ argv) requests t
        ≡ run_server E dir requests t
  unfolding server_main server_start
  server_main-run_server dir argv requests t =
      ap (λ a. server_start E a requests t)
        (argument-append (codes "--base") (codes "/tmp/uafs") dir argv)

  run_server-serve_all :
      (dir : Str) (requests : List MkdirRequest) (t t' : Server E)
      (answers : List (Status × MkdirReply))
      → serve_all E requests (record t { server_base_directory = dir }) ≡ some (answers, t')
      → run_server E dir requests t ≡ some (served answers, t')
  unfolding run_server set_base_directory
  run_server-serve_all dir requests t t' answers ran = rw ran refl

  -- Let `mkdir` of the kernel return 0 or -1, and the server, started with `--base=` and a
  -- directory, and the FUSE file system, without a configuration and with a free mutex, have the
  -- same kernel and `errno`. For any requests whose directories below that one are not the
  -- configuration file, the server answers each with status OK and the result that the FUSE file
  -- system's `mkdir` has for the same directory and mode, one after the other, and leaves the
  -- kernel and `errno` as that does.
  pub server_main-serve :
      (dir : Str) (argv : List Str) (requests : List MkdirRequest) (s : State E) (t : Server E)
      → IsMkdir
      → Same s t
      → s.conf.errors ≡ none
      → s.conf.locked ≡ false
      → IsOff dir s.conf.config_path requests
      → (errs : List ℤ) × (u : State E) × (t' : Server E) × (serve E (map (as_fuse dir) requests) s
          ≡ some (map (just_ret E) errs, u))
        × (server_main E ((codes "--base" ++ codes "=" ++ dir) ∷ argv) requests t
            ≡ some (served (map answer_of errs), t'))
        × Same u t'
  server_main-serve dir argv requests s t kernel same off free other =
      let started : Server E = record t { server_base_directory = dir } in
      let (errs, u, t', agrees, served_all, made_all) =
        serve_all-serve requests s started kernel
          (record { world = same.world; errno = same.errno }) off free other in
      (
        errs,
        u,
        t',
        served_all,
        server_main-run_server dir argv requests t
            ∙ run_server-serve_all dir requests t t' (map answer_of errs) made_all,
        agrees.same,
      )
