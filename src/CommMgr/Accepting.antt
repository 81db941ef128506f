-- ===== src/CommMgr/Accepting.antt =====
-- How connections of src/CCommMgr.cpp come about, and how a server goes: `onAccept`, `connect`,
-- `onConnect` and `rmSrv`. What the system does is an argument.
use lce.Prelude.{
  leb, ℕ, ◌+◌, ◌%◌, ◌^◌, Bool, true, false, List, [], ◌∷◌, Option, none, some, ltb, if◌then◌else◌,
}
use lce.Prelude.Memory.{Memory}
use lce.CommMgr.{
  srv_tcp, srv_udp, conn_tcp, on_connect, on_error, socket_error, max_clients, shut, World, Manager,
  Outcome, ok, fault, ◌>>=◌, deref, set_at, put_client, put_log, is_close, close,
}
use lce.CommMgr.Output.{notify}

-- what a call of `accept` gives: a socket, `EAGAIN` or `EINTR`, or another error
pub data Accept : Type 0 where
  accepts : ℕ → Accept
  no_more refused_accept : Accept

-- what a call of `connect` of the system gives
pub data Connect : Type 0 where
  succeeds in_progress refused : Connect

abbrev watch_read : Manager → ℕ → Manager
watch_read m fd = record m { reads = set_at m.reads fd true }

-- `slots` is the size of `m_vecClients`, `dwMaxClient * 1.2` in single precision. An index from there on
-- is out of range, which the code does not look at.
module _ (world : World) (fresh : ℕ → Memory ℕ) (slots : ℕ) where
  -- `onAccept` for a socket that was accepted
  unfoldable pub accept_one : ℕ → Manager → ℕ → Bool → ℕ → Outcome (Unit {0})
  accept_one max_client m srv processor fd =
      if ltb max_client m.client_num
      then (notify world fresh m processor (on_error 0 max_clients) >>= λ m1 _.
          ok (put_log m1 (shut fd)) tt)
      else (if leb slots fd
          then fault
          else (notify world fresh
                (record (put_client m fd (record (m.clients fd) { srv_id = srv; fd = fd })) {
                  client_num = (m.client_num + 1) % 2 ^ 32;
                })
                processor (on_connect fd true)
              >>= λ m1 _.
                  if is_close m1 fd
                  then ok m1 tt
                  else (if world.adds_event m1.log fd
                      then ok (watch_read m1 fd) tt
                      else (notify world fresh m1 processor (on_error fd socket_error) >>= λ m2 _.
                          ok (put_log m2 (shut fd)) tt))))

  -- `onAccept`; the list is what the calls of `accept` give.
  unfoldable pub on_accept : ℕ → Manager → ℕ → Bool → List Accept → Outcome (Unit {0})
  on_accept max_client m srv processor [] = ok m tt
  on_accept max_client m srv processor (no_more ∷ l) = ok m tt
  on_accept max_client m srv processor (refused_accept ∷ l) =
      notify world fresh m processor (on_error 0 socket_error)
  on_accept max_client m srv processor (accepts fd ∷ l) =
      accept_one max_client m srv processor fd >>= λ m1 _. on_accept max_client m1 srv processor l

  -- `connect` with the socket that `CreateTcpSock` gives; no result is -1.
  unfoldable pub connect : Manager → ℕ → Option ℕ → Connect → Outcome (Option ℕ)
  connect m srv sock result = elim (m.servers srv) [
    | none ↦ ok m none
    | some server ↦ elim server.kind [
      | srv_tcp ↦ ok m none
      | srv_udp ↦ ok m none
      | conn_tcp ↦ elim sock [
        | none ↦ ok m none
        | some fd ↦
            if leb slots fd
            then fault
            else (let m1 = put_client m fd (record (m.clients fd) { srv_id = srv; fd = fd }) in
                elim result [
                  | succeeds ↦
                      notify world fresh m1 server.processor (on_connect fd true) >>= λ m2 _.
                      if is_close m2 fd then ok m2 none else ok m2 (some fd)
                  | in_progress ↦
                      if world.adds_event m1.log fd
                      then ok (record m1 { writes = set_at m1.writes fd true }) (some fd)
                      else (close m1 fd >>= λ m2 _. ok m2 none)
                  | refused ↦ close m1 fd >>= λ m2 _. ok m2 none
                ])
      ]
    ]
  ]

module _ (world : World) (fresh : ℕ → Memory ℕ) where
  -- `onConnect`; `fine` says that `getsockopt` gives no error.
  unfoldable pub on_connected : Manager → ℕ → Bool → Outcome (Unit {0})
  on_connected m fd fine =
      if is_close m fd
      then ok m tt
      else (let m1 = record m { writes = set_at m.writes fd false } in
          deref (m1.servers (m1.clients fd).srv_id) (λ server.
            if fine
            then (notify world fresh m1 server.processor (on_connect fd true) >>= λ m2 _.
                if is_close m2 fd
                then ok m2 tt
                else (if world.adds_event m2.log (m2.clients fd).fd
                    then ok (watch_read m2 (m2.clients fd).fd) tt
                    else notify world fresh m2 server.processor (on_error fd socket_error)))
            else (notify world fresh m1 server.processor (on_connect fd false) >>= λ m2 _.
                close m2 fd)))

-- `rmSrv`
unfoldable pub rm_srv : Manager → ℕ → Outcome Bool
rm_srv m srv = elim (m.servers srv) [
  | none ↦ ok m false
  | some server ↦
      let m1 : Manager =
        if ltb 0 server.listen_fd
        then put_log
            (record m {
              reads = set_at m.reads server.listen_fd false;
              writes = set_at m.writes server.listen_fd false;
            })
            (shut server.listen_fd)
        else m in
      ok (record m1 { servers = set_at m1.servers srv none }) true
]
