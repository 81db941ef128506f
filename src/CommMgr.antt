-- ===== src/CommMgr.antt =====
-- `CCommMgr` of src/CCommMgr.cpp: the connections of a server, their buffers, and the handlers that the
-- event loop calls. The system and the processor of the application are a `World`: what they do next is
-- any function of the log, which has everything that happened before in order. A processor calls
-- `write` and `close` from its callbacks. `m_vecClients` and `m_vecServers` are functions of the index;
-- `none` is `NULL`. `fault` is a use of `NULL`, `aborted` a failed `assert` of a buffer,
-- `endless` a loop that outlives its fuel. Times, addresses and messages are left out.
pub mod Output
pub mod Reading
pub mod Sound
pub mod Quiet
pub mod Writes
pub mod Stream
pub mod Callbacks
pub mod Flush
pub mod Cuts
pub mod Round
pub mod Loop
pub mod Received
pub mod Receive
pub mod Frames
pub mod Talk
pub mod Conversation
pub mod Accepting
pub mod Opened
pub mod Limit
pub mod Connected
pub mod Datagram
pub mod Emptied
pub mod Datagrams
use lce.Prelude.{
  ℕ, zero, suc, ◌+◌, ◌-◌, ◌%◌, ◌^◌, Bool, true, false, not, ◌&&◌, ◌||◌, List, [], ◌∷◌, ◌++◌, Option,
  none, some, length, take, drop, ltb, leb, ◌==◌, if◌then◌else◌,
}
use lce.Prelude.Memory.{Memory, load, store}
use lce.SocketBuf.{SocketBuf}
use lce.SocketBuf
use lce.PackageFilter.{Code, whole, incomplete, invalid, Verdict}

-- `SRV_TCP`, `SRV_UDP` and `CONN_TCP`
pub data Kind : Type 0 where
  srv_tcp srv_udp conn_tcp : Kind

-- a `CPackageFilter`, by its `isWholePkg`
abbrev pub Filter : Type 0
Filter = Memory ℕ → ℕ → Verdict

-- `StServerInfo`; `listen_fd` is its `iFd`, and `processor` says that there is one.
pub record Server : Type 0 where
  pub kind : Kind
  pub listen_fd : ℕ
  pub processor : Bool
  pub filter : Option Filter
  pub init_recv : ℕ
  pub max_recv : ℕ
  pub init_send : ℕ
  pub max_send : ℕ

-- `StClientInfo`; `fd` is 0 while the connection is closed.
pub record Client : Type 0 where
  pub srv_id : ℕ
  pub fd : ℕ
  pub need_close : Bool
  pub recv_buf : Option SocketBuf
  pub send_buf : Option SocketBuf

-- the codes of `onError`
pub data Error : Type 0 where
  no_buffer pkg_filter invalid_package socket_error not_ready max_clients : Error

-- a call of the processor, with the connection of its session
pub data Callback : Type 0 where
  on_read : ℕ → List ℕ → Callback
  on_close : ℕ → Callback
  on_connect : ℕ → Bool → Callback
  on_error : ℕ → Error → Callback

-- what happened: a callback, bytes that the system took for a connection or gave for it, a connection
-- that was closed
pub data Entry : Type 0 where
  called : Callback → Entry
  sent received : ℕ → List ℕ → Entry
  shut : ℕ → Entry

-- what a processor asks for: `write(stSession, ..)`, with the session's connection and server, and `close`
pub data Request : Type 0 where
  write_request : (fd srv : ℕ) → List ℕ → Bool → Request
  close_request : ℕ → Request

-- `send`: `sends n` takes `n + 1` bytes; `again` is `EAGAIN` or `EINTR`.
pub data Sending : Type 0 where
  sends : ℕ → Sending
  again broken : Sending

-- `recv`: no bytes are the end of the stream; `peer_reset` is the error 104.
pub data Receiving : Type 0 where
  receives : List ℕ → Receiving
  peer_reset wait_more fails : Receiving

pub record World : Type 0 where
  pub requests : List Entry → Callback → List Request
  pub send : List Entry → ℕ → List ℕ → Sending
  pub adds_event : List Entry → ℕ → Bool

-- `reads` and `writes` are the events that `m_oCEvent` waits for.
pub record Manager : Type 0 where
  pub clients : ℕ → Client
  pub servers : ℕ → Option Server
  pub client_num : ℕ
  pub reads : ℕ → Bool
  pub writes : ℕ → Bool
  pub log : List Entry

pub data Outcome {ℓ} (A : Type ℓ) : Type ℓ where
  ok : Manager → A → Outcome A
  fault : Outcome A
  aborted : Outcome A
  endless : Outcome A

infixl 5 ◌>>=◌
abbrev pub ◌>>=◌ {ℓ κ} :
    {A : Type ℓ} {B : Type κ} → Outcome A → (Manager → A → Outcome B) → Outcome B
ok m a >>= f = f m a
fault >>= f = fault
aborted >>= f = aborted
endless >>= f = endless

-- an operation of a buffer, and what goes on with it
abbrev pub then_buf : {A B : Type 0} → SocketBuf.Outcome A → (SocketBuf → A → Outcome B) → Outcome B
then_buf (SocketBuf.ok s a) f = f s a
then_buf SocketBuf.aborted f = aborted
then_buf SocketBuf.endless f = endless

-- `*p` of a pointer that may be `NULL`
abbrev pub deref : {A B : Type 0} → Option A → (A → Outcome B) → Outcome B
deref none f = fault
deref (some a) f = f a

unfoldable pub set_at : {A : Type 0} → (ℕ → A) → ℕ → A → ℕ → A
set_at f i a j = if j == i then a else f j

abbrev pub put_client : Manager → ℕ → Client → Manager
put_client m fd c = record m { clients = set_at m.clients fd c }

abbrev pub put_log : Manager → Entry → Manager
put_log m e = record m { log = m.log ++ (e ∷ []) }

-- `isClose(iFd)`
abbrev pub is_close : Manager → ℕ → Bool
is_close m fd = (m.clients fd).fd == 0

-- the part of `close` for a TCP connection
unfoldable pub shut_client : Manager → ℕ → Manager
shut_client m fd = record m {
  clients =
      set_at m.clients fd (record (m.clients fd) { fd = 0; recv_buf = none; send_buf = none });
  reads = set_at m.reads fd false;
  writes = set_at m.writes fd false;
  log = m.log ++ (shut fd ∷ []);
}

-- `close(iFd)`
unfoldable pub close : Manager → ℕ → Outcome (Unit {0})
close m fd =
    if is_close m fd
    then ok m tt
    else deref (m.servers (m.clients fd).srv_id) (λ server. elim server.kind [
      | srv_tcp ↦
          ok (shut_client (record m { client_num = (m.client_num + (2 ^ 32 - 1)) % 2 ^ 32 }) fd) tt
      | conn_tcp ↦ ok (shut_client m fd) tt
      | srv_udp ↦ ok m tt
    ])
