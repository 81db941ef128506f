-- ===== src/CommMgr/Receive.antt =====
-- `onTcpRead` of a `CCommMgr`: what it reads, and what the processor is given.
use lce.Prelude.{
  ℕ, ◌+◌, ◌≤◌, ◌≡◌, ◌≢◌, refl, ap, true, List, [], ◌∷◌, ◌++◌, Option, none, some, length, ◌==◌,
  eq→==, ne→==, if◌then◌else◌, arith,
}
use native.Mathlib.Decide.{ℕ_discrete}
use lce.Prelude.Memory.{Memory}
use lce.SocketBuf.{SocketBuf, get_size, get_free_size, add_filled, add_free_buf, init}
use lce.SocketBuf
use lce.SocketBuf.Contents.{Holds}
use lce.SocketBuf.Consume.{init-Holds}
use lce.SocketBuf.Append.{add_free_buf_lem, add_filled_lem, grown}
use lce.CommMgr.{
  Filter, Server, Client, on_error, no_buffer, socket_error, not_ready, Receiving, receives,
  peer_reset, wait_more, fails, World, Manager, Outcome, then_buf, received, put_client, put_log,
}
use lce.CommMgr.Output.{close_error}
use lce.CommMgr.Reading.{take_received, receive, on_tcp_read}
use lce.CommMgr.Sound.{set_at_here, Sizes, Sound, put_client-Sound}
use lce.CommMgr.Quiet.{Fair}
use lce.CommMgr.Writes.{Contains, get_size_lem}
use lce.CommMgr.Callbacks.{notify-Quiet}
use lce.CommMgr.Cuts.{Honest}
use lce.CommMgr.Round.{Recv}
use lce.CommMgr.Loop.{cut_packages_lem}
use lce.CommMgr.Received.{
  Received, Bounded, idle, close_error-Quiet, close_notified-Quiet, filtered,
}

module _ (world : World) (fresh : ℕ → Memory ℕ) where
  take_received_lem :
      {m : Manager} (fd : ℕ) (f : Filter) (server : Server) (s : SocketBuf) (d bs : List ℕ)
      (room : ℕ) (recv : ℕ → Receiving)
      → Fair world m.servers
      → Sound m
      → Honest f
      → server.processor ≡ true
      → server.filter ≡ some f
      → Holds s d
      → length bs ≤ get_free_size s
      → recv room ≡ receives bs
      → Received m.log m.servers fd f d recv (take_received world fresh m fd server s bs)
  unfolding take_received
  take_received_lem {m} fd f server s d bs room recv fair h honest listens uses holds le at =
      let (s', filled, holds') = add_filled_lem d bs holds le in
      let c' : Client = record (m.clients fd) { recv_buf = some s' } in
      let put : Sound (put_client m fd c') = put_client-Sound fd c' h (record {
        opened = (h.well fd).opened;
        recv_holds = (d ++ bs, holds');
        send_holds = (h.well fd).send_holds;
      }) in
      let h' : Sound (put_log (put_client m fd c') (received fd bs)) = record {
        sizes = put.sizes;
        well = put.well;
      } in
      let r : Recv (put_log (put_client m fd c') (received fd bs)) fd (d ++ bs) = record {
        buffer = s';
        is = ap (λ c. c.recv_buf) (set_at_here m.clients fd c');
        holds = holds';
      } in
      rw (filled, uses, listens, get_size_lem holds', take_received)
        (filtered world fresh {m = put_log (put_client m fd c') (received fd bs)} m.log fd f d bs
          server.processor room recv fair refl at
          (cut_packages_lem world fresh (length (d ++ bs) + 1) fd f (d ++ bs) 0 fair honest h' r
            (omega arith)))

  receive_lem :
      {m : Manager} (fd : ℕ) (f : Filter) (server : Server) (s : SocketBuf) (d : List ℕ)
      (recv : ℕ → Receiving)
      → Fair world m.servers
      → Sound m
      → Honest f
      → server.processor ≡ true
      → server.filter ≡ some f
      → (m.clients fd).recv_buf ≡ some s
      → Holds s d
      → Bounded recv
      → (x : Receiving) → recv (get_free_size s) ≡ x
      → Received m.log m.servers fd f d recv (receive world fresh m fd server s x)
  unfolding receive
  receive_lem {m} fd f server s d recv fair h honest listens uses buffer holds bounded x e = go x e
    where
      now : Contains (m.clients fd).recv_buf d
      now = rw buffer holds

      go :
          (x : Receiving)
          → recv (get_free_size s) ≡ x
          → Received m.log m.servers fd f d recv (receive world fresh m fd server s x)
      go (receives []) e =
          idle fd f d recv (close_notified-Quiet world fresh fd server.processor fair h) now
      go (receives (b ∷ bs)) e =
          take_received_lem fd f server s d (b ∷ bs) (get_free_size s) recv fair h honest listens
            uses holds (bounded (get_free_size s) (b ∷ bs) e) e
      go peer_reset e =
          idle fd f d recv (close_notified-Quiet world fresh fd server.processor fair h) now
      go wait_more e =
          idle fd f d recv
            (notify-Quiet world fresh server.processor (on_error fd not_ready) fair h (λ g. refl))
            now
      go fails e =
          idle fd f d recv (close_error-Quiet world fresh fd server.processor socket_error fair h)
            now

  -- `onTcpRead` once the buffer is there and was given room
  roomy_lem :
      {m : Manager} (fd : ℕ) (f : Filter) (server : Server) (s : SocketBuf) (d : List ℕ)
      (recv : ℕ → Receiving)
      → Fair world m.servers
      → Sound m
      → Honest f
      → server.processor ≡ true
      → server.filter ≡ some f
      → Holds s d
      → Bounded recv
      → Received m.log m.servers fd f d recv (
          let m1 = put_client m fd (record (m.clients fd) { recv_buf = some s }) in
          if get_free_size s == 0
          then close_error world fresh m1 fd server.processor no_buffer
          else receive world fresh m1 fd server s (recv (get_free_size s)))
  roomy_lem {m} fd f server s d recv fair h honest listens uses holds bounded =
      elim (ℕ_discrete (get_free_size s) 0) [
        | yes z ↦ rw (eq→== (get_free_size s) 0 z) (
            idle {m = m1} fd f d recv
              (close_error-Quiet world fresh fd server.processor no_buffer fair h1) (rw here holds))
        | no ne ↦ rw (ne→== (get_free_size s) 0 ne) (
            receive_lem {m = m1} fd f server s d recv fair h1 honest listens uses here holds bounded
              (recv (get_free_size s)) refl)
      ]
    where
      c1 : Client
      c1 = record (m.clients fd) { recv_buf = some s }

      m1 : Manager
      m1 = put_client m fd c1

      here : (m1.clients fd).recv_buf ≡ some s
      here = ap (λ c. c.recv_buf) (set_at_here m.clients fd c1)

      h1 : Sound m1
      h1 = put_client-Sound fd c1 h (record {
        opened = (h.well fd).opened;
        recv_holds = (d, holds);
        send_holds = (h.well fd).send_holds;
      })

  -- On a manager in use, with a fair system and processor, a read event of an open connection whose
  -- server has a processor and an honest filter always returns, if `recv` gives at most what there is
  -- room for. What the connection's buffer held and what is received are the packages that the
  -- processor is given, cut by the filter one after the other, and the rest, which stays in the buffer
  -- unless the connection was closed.
  pub on_tcp_read_lem :
      {m : Manager} (fd : ℕ) (f : Filter) (server : Server) (d : List ℕ) (recv : ℕ → Receiving)
      → Fair world m.servers
      → Sound m
      → Honest f
      → (m.clients fd).fd ≢ 0
      → m.servers (m.clients fd).srv_id ≡ some server
      → server.processor ≡ true
      → server.filter ≡ some f
      → Contains (m.clients fd).recv_buf d
      → Bounded recv
      → Received m.log m.servers fd f d recv (on_tcp_read world fresh m fd recv)
  unfolding on_tcp_read
  on_tcp_read_lem {m} fd f server d recv fair h honest opened known listens uses holds bounded =
      rw (ne→== (m.clients fd).fd 0 opened, known, on_tcp_read) (go (m.clients fd).recv_buf holds)
    where
      size : Sizes server
      size = h.sizes (m.clients fd).srv_id server known

      then_receive : SocketBuf → Outcome (Unit {0})
      then_receive s1 =
          let m1 = put_client m fd (record (m.clients fd) { recv_buf = some s1 }) in
          if get_free_size s1 == 0
          then close_error world fresh m1 fd server.processor no_buffer
          else receive world fresh m1 fd server s1 (recv (get_free_size s1))

      in_use :
          (s0 : SocketBuf)
          → Holds s0 d
          → Received m.log m.servers fd f d recv (
              then_buf
                (if get_free_size s0 == 0 then add_free_buf fresh s0 else SocketBuf.ok s0 tt)
                (λ s1 _. then_receive s1))
      in_use s0 holds0 = elim (ℕ_discrete (get_free_size s0) 0) [
        | yes z ↦
            let (e, holds1) = add_free_buf_lem fresh d holds0 in
            rw (eq→== (get_free_size s0) 0 z, e)
              (roomy_lem fd f server (grown fresh s0) d recv fair h honest listens uses holds1
                bounded)
        | no ne ↦
            rw (ne→== (get_free_size s0) 0 ne)
              (roomy_lem fd f server s0 d recv fair h honest listens uses holds0 bounded)
      ]

      go :
          (x : Option SocketBuf)
          → Contains x d
          → Received m.log m.servers fd f d recv (
              let s0 : SocketBuf = elim x [
                | some s ↦ s
                | none ↦ init fresh server.init_recv server.max_recv
              ] in
              then_buf
                (if get_free_size s0 == 0 then add_free_buf fresh s0 else SocketBuf.ok s0 tt)
                (λ s1 _. then_receive s1))
      go none empty =
          in_use (init fresh server.init_recv server.max_recv) (
            rw empty (init-Holds fresh server.init_recv server.max_recv size.recv_pos size.recv_le))
      go (some s) holds = in_use s holds
