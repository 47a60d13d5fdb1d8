-- ===== src/Afs/Calls.antt =====
-- The client of unreliablefs/unreliable_afs_client.cc, with a channel to the server of
-- unreliablefs/unreliable_afs_server.cc.
use afs_cs.Base.{◌≢◌, ℤ, pos, minus_one, ◌≡◌, refl, sym, ap, ◌∙◌, List, ◌∷◌, ◌++◌, some, Str, codes}
use afs_cs.Base.Run.{some_pair-eq}
use afs_cs.System.{Env, State}
use afs_cs.Ops.Requests.{just_ret}
use afs_cs.Ops.Passthrough.{passthrough}
use afs_cs.Afs.{MkdirRequest, MkdirReply, Status, status_ok, status_error, Server}
use afs_cs.Afs.Argument.{accepted}
use afs_cs.Afs.Flag.{argument-append}
use afs_cs.Afs.Service.{service_mkdir}
use afs_cs.Afs.Client.{Stub, mkdir_result, client_mkdir, client_start, client_main, received}
use afs_cs.Afs.Mkdir.{IsMkdir, Same, as_fuse, service_mkdir-passthrough}

module _ (E : Env) where
  -- The status of a call that comes back is OK only where the service has run once and its answer
  -- has arrived.
  abbrev pub IsDelivery : Stub (Server E) → Type 0
  IsDelivery stub =
      (request : MkdirRequest) (t : Server E) (answer : Status × MkdirReply) (t' : Server E)
      → stub request t ≡ some (answer, t')
      → answer.0 ≡ status_ok
      → service_mkdir E request t ≡ some (answer, t')

  -- What a call of the client comes to: with status OK the answer that FUSE would have for the
  -- directory, with the kernel in the state that FUSE would leave, and else -1.
  abbrev pub IsResult : State E → Server E → MkdirRequest → Status → ℤ → Server E → Type 0
  IsResult s t request status res t' =
      (status ≡ status_ok
        → (u : State E) × (passthrough E (as_fuse E t.server_base_directory request) s
            ≡ some (just_ret E res, u))
          × Same E u t')
      × (status ≢ status_ok → res ≡ minus_one)

  answered :
      (request : MkdirRequest) (s : State E) (t : Server E) (reply : MkdirReply) (t' : Server E)
      → IsMkdir E
      → Same E s t
      → service_mkdir E request t ≡ some ((status_ok, reply), t')
      → IsResult s t request status_ok reply.err t'
  answered request s t reply t' kernel same ran =
      let (v, u, t'', agrees, passed, made) = service_mkdir-passthrough E request s t kernel same in
      let (a, w) = some_pair-eq (sym ran ∙ made) in
      (
        (λ _. (u, rw (ap (λ x. x.1.err) a) passed, rw w agrees.same)),
        (λ fails. elim (fails refl) [ ]),
      )

  result :
      (request : MkdirRequest) (s : State E) (t : Server E) (answer : Status × MkdirReply)
      (t' : Server E)
      → IsMkdir E
      → Same E s t
      → (answer.0 ≡ status_ok → service_mkdir E request t ≡ some (answer, t'))
      → IsResult s t request answer.0 (mkdir_result answer) t'
  unfolding mkdir_result
  result request s t (status_ok, reply) t' kernel same ok =
      answered request s t reply t' kernel same (ok refl)
  result request s t (status_error code, reply) t' kernel same ok = ((λ h. cc), (λ _. refl))

  client_main-client_start :
      (channel : Str → Stub (Server E)) (target : Str) (argv : List Str) (t : Server E)
      → client_main channel ((codes "--target" ++ codes "=" ++ target) ∷ argv) t
        ≡ client_start channel (accepted target) t
  unfolding client_main
  client_main-client_start channel target argv t =
      ap (λ a. client_start channel a t)
        (argument-append (codes "--target") (codes "localhost:50051") target argv)

  -- Let `mkdir` of the kernel return 0 or -1, the status of a call over the channel be OK only if
  -- the service has run and this is its answer, and the client, started with `--target=` and the
  -- target, have its call come back. Then the client reports one number. If the status is OK, this
  -- is what the FUSE file system's `mkdir` without injections has for the directory `/world` below
  -- that of the server, with the kernel and `errno` in the state that it would leave; if the status
  -- is another one, it is -1.
  pub client_main-IsResult :
      (channel : Str → Stub (Server E)) (target : Str) (argv : List Str) (s : State E)
      (t : Server E) (answer : Status × MkdirReply) (t' : Server E)
      → IsDelivery (channel target)
      → IsMkdir E
      → Same E s t
      → channel target (record { path = codes "/world"; mode = pos 511 }) t ≡ some (answer, t')
      → (res : ℤ) × (client_main channel ((codes "--target" ++ codes "=" ++ target) ∷ argv) t
          ≡ some (received res, t'))
        × IsResult s t (record { path = codes "/world"; mode = pos 511 }) answer.0 res t'
  unfolding client_start client_mkdir
  client_main-IsResult channel target argv s t answer t' delivery kernel same back = (
    mkdir_result answer,
    client_main-client_start channel target argv t ∙ rw back refl,
    result _ s t answer t' kernel same (delivery _ t answer t' back),
  )
