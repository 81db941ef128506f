-- ===== src/CommMgr/Datagram.antt =====
-- `onUdpRead` of src/CCommMgr.cpp.
use lce.Prelude.{ℕ, List, ◌∷◌, none, some, length, ◌==◌, if◌then◌else◌}
use lce.Prelude.Memory.{Memory, load, store}
use lce.SocketBuf.{SocketBuf}
use lce.SocketBuf
use lce.PackageFilter.{whole, incomplete, invalid}
use lce.CommMgr.{
  Server, on_read, on_error, no_buffer, invalid_package, socket_error, received, Receiving,
  receives, World, Manager, Outcome, ok, ◌>>=◌, then_buf, deref, put_client, put_log,
}
use lce.CommMgr.Output.{notify}
use lce.CommMgr.Reading.{data_of, or_before}

module _ (world : World) (fresh : ℕ → Memory ℕ) where
  -- `pSocketRecvBuf->reset()`
  unfoldable pub reset_recv : Manager → ℕ → Outcome (Unit {0})
  reset_recv m fd = deref (m.clients fd).recv_buf (λ s.
      then_buf (SocketBuf.reset fresh s)
        (λ s' _. ok (put_client m fd (record (m.clients fd) { recv_buf = some s' })) tt))

  -- `onUdpRead` once a datagram has been received into the buffer
  unfoldable pub take_datagram : Manager → ℕ → Server → SocketBuf → List ℕ → Outcome (Unit {0})
  take_datagram m fd server s bs =
      then_buf (SocketBuf.add_filled (record s { bytes = store s.bytes s.end_pos bs }) (length bs))
        (λ s1 _.
          let m1 =
            put_log (put_client m fd (record (m.clients fd) { recv_buf = some s1 }))
              (received fd bs) in
          deref server.filter (λ filter.
            let v = filter (data_of s1) (SocketBuf.get_size s1) in
            elim v.code [
              | whole ↦
                  notify world fresh m1 server.processor
                    (on_read fd (load (data_of s1) 0 (or_before v.pkg_len 0)))
                  >>= λ m2 _. reset_recv m2 fd
              | incomplete ↦ reset_recv m1 fd >>= λ m2 _.
                  notify world fresh m2 server.processor (on_error fd invalid_package)
              | invalid ↦ reset_recv m1 fd >>= λ m2 _.
                  notify world fresh m2 server.processor (on_error fd invalid_package)
            ]))

  -- `onUdpRead`, from `recvfrom` on
  unfoldable pub receive_datagram :
      Manager → ℕ → Server → SocketBuf → Receiving → Outcome (Unit {0})
  receive_datagram m fd server s (receives (b ∷ bs)) = take_datagram m fd server s (b ∷ bs)
  receive_datagram m fd server s _ =
      reset_recv m fd >>= λ m1 _. notify world fresh m1 server.processor (on_error fd socket_error)

  -- `onUdpRead` for the server `srv`
  unfoldable pub on_udp_read : Manager → ℕ → ℕ → Server → (ℕ → Receiving) → Outcome (Unit {0})
  on_udp_read m fd srv server recv =
      let s0 : SocketBuf = elim (m.clients fd).recv_buf [
        | some s ↦ s
        | none ↦ SocketBuf.init fresh server.init_recv server.max_recv
      ] in
      then_buf
        (if SocketBuf.get_free_size s0 == 0
          then SocketBuf.add_free_buf fresh s0
          else SocketBuf.ok s0 tt)
        (λ s1 _.
          let m1 = put_client m fd (record (m.clients fd) { srv_id = srv; recv_buf = some s1 }) in
          if SocketBuf.get_free_size s1 == 0
          then (reset_recv m1 fd >>= λ m2 _.
              notify world fresh m2 server.processor (on_error fd no_buffer))
          else receive_datagram m1 fd server s1 (recv (SocketBuf.get_free_size s1)))
