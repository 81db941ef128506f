-- ===== src/Examples/Comm.antt =====
-- Runs of the connection manager.
use lce.Prelude.{
  ℕ, ◌<◌, ◌≡◌, ◌⊎◌, refl, sym, ap, true, false, List, [], ◌∷◌, ◌++◌, Option, none, some, length,
  length-take, take, map, arith,
}
use lce.Prelude.Memory.{Memory, load, store, put}
use lce.Prelude.Words.{be_bytes, be_from}
use lce.SocketBuf.{
  SocketBuf, init, get_size, get_free_size, add_filled, add_free_buf, remove_data, resize,
  resize_moved, move_data, add_data, make_room, inc_buf,
}
use lce.SocketBuf.Contents.{Holds}
use lce.SocketBuf.Append.{appended, appended-Holds}
use lce.SocketBuf.Consume.{init-Holds}
use lce.PackageFilter.{is_whole_marked}
use lce.PackageFilter.Framing.{frame}
use lce.CommMgr.{
  srv_tcp, srv_udp, Server, Entry, Callback, on_read, on_close, on_connect, on_error, Request,
  write_request, Sending, sends, again, Receiving, receives, World, Manager, Outcome, ok, fault,
  aborted, endless, set_at,
}
use lce.CommMgr.Output.{
  watch_write, keep_bytes, queue_rest, send_now, write, do_requests, notify, on_write,
}
use lce.CommMgr.Reading.{cut_packages, take_received, receive, on_tcp_read}
use lce.CommMgr.Sound.{packages, arrived, Sizes, Sound}
use lce.CommMgr.Quiet.{taken, Known, Fair}
use lce.CommMgr.Writes.{Writing}
use lce.CommMgr.Stream.{write-Writing}
use lce.CommMgr.Flush.{Flushing, on_write_lem}
use lce.CommMgr.Received.{Bounded, Received}
use lce.CommMgr.Receive.{on_tcp_read_lem}
use lce.CommMgr.Frames.{frames, AllFit, marked-Honest}
use lce.CommMgr.Talk.{Talk, start, reading, Talked}
use lce.CommMgr.Conversation.{talk_lem, talk_all}
use lce.CommMgr.Accepting.{accepts, no_more, on_accept}
use lce.CommMgr.Limit.{Plain, Accepted, on_accept_lem}
use lce.CommMgr.Emptied.{Datagram}

abbrev blank : ℕ → Memory ℕ
blank n i = 0

-- The processor sends every package back; the system takes one byte at a time.
abbrev echoes : List Entry → Callback → List Request
echoes l (on_read fd bs) = write_request fd 0 bs false ∷ []
echoes l (on_close fd) = []
echoes l (on_connect fd b) = []
echoes l (on_error fd e) = []

abbrev takes_one : List Entry → ℕ → List ℕ → Sending
takes_one l fd [] = again
takes_one l fd (b ∷ bs) = sends 0

abbrev echo : World
echo = record { requests = echoes; send = takes_one; adds_event = λ l fd. true }

abbrev tcp_server : Server
tcp_server = record {
  kind = srv_tcp;
  listen_fd = 3;
  processor = true;
  filter = some (is_whole_marked 2);
  init_recv = 8;
  max_recv = 16;
  init_send = 4;
  max_send = 16;
}

abbrev connected : Manager
connected = record {
  clients =
      λ fd. record { srv_id = 0; fd = 5; need_close = false; recv_buf = none; send_buf = none };
  servers = λ i. some tcp_server;
  client_num = 1;
  reads = λ fd. true;
  writes = λ fd. false;
  log = [];
}

tcp_server-Sizes : Sizes tcp_server
tcp_server-Sizes = record {
  recv_pos = omega arith;
  recv_le = omega arith;
  send_pos = omega arith;
  send_le = omega arith;
}

some_same : (a b : Server) → some a ≡ some b → a ≡ b
some_same a b e = ap (or_else a) e
  where
    or_else : Server → Option Server → Server
    or_else c none = c
    or_else c (some s) = s

connected-Sound : Sound connected
connected-Sound = record {
  sizes = λ i server e. rw (sym (some_same tcp_server server e)) tcp_server-Sizes;
  well = λ fd. record { opened = λ ne. (tcp_server, refl); recv_holds = tt; send_holds = tt };
}

takes_one-lt :
    (l : List Entry) (fd : ℕ) (bs : List ℕ) (n : ℕ) → takes_one l fd bs ≡ sends n → n < length bs
takes_one-lt l fd [] n e = absurd (ground arith)
takes_one-lt l fd (b ∷ bs) n e = ground arith

echoes-Known : (l : List Entry) (c : Callback) → Known connected.servers (echoes l c)
echoes-Known l (on_read fd bs) = ((tcp_server, refl), tt)
echoes-Known l (on_close fd) = tt
echoes-Known l (on_connect fd b) = tt
echoes-Known l (on_error fd e) = tt

echo-Fair : Fair echo connected.servers
echo-Fair = record { takes = takes_one-lt; names = echoes-Known }

-- `recv` of bytes that have arrived
abbrev queued : List ℕ → ℕ → Receiving
queued bs n = receives (take n bs)

receives_same : (bs cs : List ℕ) → receives bs ≡ receives cs → bs ≡ cs
receives_same bs cs e = ap (bytes_of bs) e
  where
    bytes_of : List ℕ → Receiving → List ℕ
    bytes_of d (receives k) = k
    bytes_of d _ = d

queued-Bounded : (bs : List ℕ) → Bounded (queued bs)
queued-Bounded bs n cs e =
    omega (arith, length-take n bs, ap length (receives_same (take n bs) cs e))

on_tcp_read_lem_example :
    Received [] connected.servers 5
      (is_whole_marked 2)
      []
      (queued (2 ∷ 0 ∷ 5 ∷ 65 ∷ 3 ∷ []))
      (on_tcp_read echo blank connected 5 (queued (2 ∷ 0 ∷ 5 ∷ 65 ∷ 3 ∷ [])))
on_tcp_read_lem_example =
    on_tcp_read_lem echo blank 5 (is_whole_marked 2) tcp_server []
      (queued (2 ∷ 0 ∷ 5 ∷ 65 ∷ 3 ∷ [])) echo-Fair connected-Sound (marked-Honest 2)
      (λ e. absurd (omega (arith, e))) refl refl refl refl
      (queued-Bounded (2 ∷ 0 ∷ 5 ∷ 65 ∷ 3 ∷ []))

write-Writing_example :
    Writing connected 5 [] (7 ∷ 8 ∷ 9 ∷ []) (write echo blank connected 5 0 (7 ∷ 8 ∷ 9 ∷ []) true)
write-Writing_example =
    write-Writing echo blank 5 0 (7 ∷ 8 ∷ 9 ∷ []) true tcp_server echo-Fair connected-Sound refl
      (record { left = []; holds = refl; stream = refl })

abbrev pending : SocketBuf
pending = appended (init blank 4 16) (7 ∷ 8 ∷ [])

pending-Holds : Holds pending (7 ∷ 8 ∷ [])
unfolding init
pending-Holds =
    appended-Holds [] (7 ∷ 8 ∷ []) (init-Holds blank 4 16 (omega arith) (omega arith)) (omega arith)

abbrev sending : Manager
sending = record connected {
  clients = λ fd. record {
    srv_id = 0;
    fd = 5;
    need_close = true;
    recv_buf = none;
    send_buf = some pending;
  };
}

sending-Sound : Sound sending
sending-Sound = record {
  sizes = connected-Sound.sizes;
  well = λ fd. record {
    opened = λ ne. (tcp_server, refl);
    recv_holds = tt;
    send_holds = (7 ∷ 8 ∷ [], pending-Holds);
  };
}

on_write_lem_example :
    Flushing sending 5 (7 ∷ 8 ∷ []) (7 ∷ 8 ∷ []) (sends 0) (on_write echo blank sending 5)
on_write_lem_example =
    on_write_lem echo blank 5 (7 ∷ 8 ∷ []) (7 ∷ 8 ∷ []) pending echo-Fair sending-Sound
      (λ e. absurd (omega (arith, e))) refl refl pending-Holds (omega arith) refl

abbrev after_of : Outcome (Unit {0}) → Manager
after_of (ok m u) = m
after_of fault = connected
after_of aborted = connected
after_of endless = connected

-- the first two bytes of a frame, and then the rest
abbrev halfway : Manager
halfway = after_of (on_tcp_read echo blank connected 5 (queued (2 ∷ 0 ∷ [])))

abbrev answered : Manager
answered = after_of (on_tcp_read echo blank halfway 5 (queued (5 ∷ 65 ∷ 3 ∷ [])))

answered_run :
    (on_tcp_read echo blank connected 5 (queued (2 ∷ 0 ∷ [])) ≡ ok halfway tt)
    × (arrived 5 halfway.log ≡ 2 ∷ 0 ∷ [])
    × (on_tcp_read echo blank halfway 5 (queued (5 ∷ 65 ∷ 3 ∷ [])) ≡ ok answered tt)
    × (arrived 5 answered.log ≡ arrived 5 halfway.log ++ (5 ∷ 65 ∷ 3 ∷ []))
    × (packages 5 answered.log ≡ (2 ∷ 0 ∷ 5 ∷ 65 ∷ 3 ∷ []) ∷ [])
    × (taken 5 answered.log ≡ 2 ∷ [])
    × (halfway.servers (halfway.clients 5).srv_id ≡ some tcp_server)
unfolding on_tcp_read receive take_received cut_packages notify do_requests write send_now
    queue_rest keep_bytes watch_write set_at init get_size get_free_size add_filled add_free_buf
    remove_data resize resize_moved move_data add_data make_room inc_buf is_whole_marked load store
    put be_bytes be_from
answered_run = (refl, refl, refl, refl, refl, refl, refl)

talk : Talk echo blank 5 2 connected ((2 ∷ 0 ∷ []) ++ (5 ∷ 65 ∷ 3 ∷ [])) answered
talk =
    let (first, gives, second, gives', _, _, known) = answered_run in
    reading (2 ∷ 0 ∷ []) halfway (5 ∷ 65 ∷ 3 ∷ []) answered tcp_server (queued (5 ∷ 65 ∷ 3 ∷ []))
      (reading [] connected (2 ∷ 0 ∷ []) halfway tcp_server (queued (2 ∷ 0 ∷ [])) start refl refl
        refl (queued-Bounded (2 ∷ 0 ∷ [])) first gives)
      known refl refl (queued-Bounded (5 ∷ 65 ∷ 3 ∷ [])) second gives'

talk_frames : (2 ∷ 0 ∷ []) ++ (5 ∷ 65 ∷ 3 ∷ []) ≡ frames 2 ((65 ∷ []) ∷ [])
unfolding be_bytes
talk_frames = refl

framed_talk : Talk echo blank 5 2 connected (frames 2 ((65 ∷ []) ∷ [])) answered
framed_talk = rw (sym talk_frames) talk

payloads : AllFit 2 ((65 ∷ []) ∷ [])
payloads = ((omega arith, omega arith), tt)

talk_lem_example : Talked echo blank 5 2 connected answered ((65 ∷ []) ∷ []) []
talk_lem_example =
    talk_lem echo blank ((65 ∷ []) ∷ []) [] echo-Fair connected-Sound refl payloads talk talk_frames

talk_all_example :
    ((answered.clients 5).fd ≡ 0)
    ⊎ (packages 5 answered.log ≡ packages 5 connected.log ++ map (frame 2) ((65 ∷ []) ∷ []))
talk_all_example =
    talk_all echo blank ((65 ∷ []) ∷ []) echo-Fair connected-Sound refl payloads framed_talk

-- a processor that asks for nothing
abbrev silent : World
silent = record echo { requests = λ l c. [] }

silent-Plain : Plain silent blank 12 1
silent-Plain = record { asks = λ l c. refl; watches = λ l fd. refl }

-- One connection is counted, with a maximum of 1: one more is opened, and two are refused.
on_accept_lem_example :
    (m' : Manager) × (on_accept silent blank 12 1 connected 0 true
        (accepts 6 ∷ accepts 7 ∷ accepts 8 ∷ no_more ∷ [])
      ≡ ok m' tt)
    × Accepted connected 0 true (6 ∷ []) (7 ∷ 8 ∷ []) m'
on_accept_lem_example =
    on_accept_lem silent blank 12 1 {m = connected} 0 true (6 ∷ 7 ∷ 8 ∷ []) [] silent-Plain
      (omega arith) (omega arith)
      (
        λ e. omega arith,
        omega arith,
        (λ e. omega arith, omega arith, (λ e. omega arith, omega arith, tt)),
      )

-- a server for datagrams
abbrev udp_server : Server
udp_server = record tcp_server { kind = srv_udp }

abbrev bound : Manager
bound = record connected {
  clients =
      λ fd. record { srv_id = 0; fd = 0; need_close = false; recv_buf = none; send_buf = none };
  servers = λ i. some udp_server;
}
