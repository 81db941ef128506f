-- ===== src/CommMgr/Reading.antt =====
-- `onTcpRead` of src/CCommMgr.cpp.
use lce.Prelude.{
  ℕ, zero, suc, ◌+◌, Bool, true, false, List, [], ◌∷◌, Option, none, some, length, ◌==◌,
  if◌then◌else◌,
}
use lce.Prelude.Memory.{Memory, load, store}
use lce.SocketBuf.{SocketBuf}
use lce.SocketBuf
use lce.PackageFilter.{Code, whole, incomplete, invalid}
use lce.CommMgr.{
  Filter, Server, Manager, World, no_buffer, pkg_filter, invalid_package, socket_error, not_ready,
  on_read, on_error, Receiving, receives, peer_reset, wait_more, fails, Outcome, ok, endless, ◌>>=◌,
  then_buf, deref, received, put_client, put_log, is_close,
}
use lce.CommMgr.Output.{notify, close_error, close_notified}

-- the bytes from `getData()` on
abbrev pub data_of : SocketBuf → Memory ℕ
data_of s i = s.bytes (s.begin_pos + i)

abbrev pub or_before : Option ℕ → ℕ → ℕ
or_before none len = len
or_before (some new) len = new

module _ (world : World) (fresh : ℕ → Memory ℕ) where
  -- the loop over the packages that are whole, on fuel; `len` is `iPkgLen`.
  unfoldable pub cut_packages : ℕ → Manager → ℕ → Bool → Filter → ℕ → Outcome Code
  cut_packages zero m fd processor filter len = endless
  cut_packages (suc fuel) m fd processor filter len = deref (m.clients fd).recv_buf (λ s.
      let v = filter (data_of s) (SocketBuf.get_size s) in
      let n = or_before v.pkg_len len in
      elim v.code [
        | whole ↦ notify world fresh m processor (on_read fd (load (data_of s) 0 n)) >>= λ m1 _.
            elim (is_close m1 fd) [
              | true ↦ ok m1 whole
              | false ↦ deref (m1.clients fd).recv_buf (λ s1.
                  then_buf (SocketBuf.remove_data fresh s1 n) (λ s2 _.
                    cut_packages fuel
                      (put_client m1 fd (record (m1.clients fd) { recv_buf = some s2 })) fd
                      processor filter n))
            ]
        | incomplete ↦ ok m incomplete
        | invalid ↦ ok m invalid
      ])

  -- `onTcpRead` once bytes have been received into the buffer
  unfoldable pub take_received : Manager → ℕ → Server → SocketBuf → List ℕ → Outcome (Unit {0})
  take_received m fd server s bs =
      then_buf (SocketBuf.add_filled (record s { bytes = store s.bytes s.end_pos bs }) (length bs))
        (λ s1 _.
          let m1 =
            put_log (put_client m fd (record (m.clients fd) { recv_buf = some s1 }))
              (received fd bs) in
          elim server.filter [
            | none ↦ close_error world fresh m1 fd server.processor pkg_filter
            | some filter ↦
                cut_packages (SocketBuf.get_size s1 + 1) m1 fd server.processor filter 0
                >>= λ m2 code. elim code [
                  | whole ↦ ok m2 tt
                  | incomplete ↦ ok m2 tt
                  | invalid ↦ close_error world fresh m2 fd server.processor invalid_package
                ]
          ])

  -- `onTcpRead`, from `recv` on
  unfoldable pub receive : Manager → ℕ → Server → SocketBuf → Receiving → Outcome (Unit {0})
  receive m fd server s (receives []) = close_notified world fresh m fd server.processor
  receive m fd server s (receives (b ∷ bs)) = take_received m fd server s (b ∷ bs)
  receive m fd server s peer_reset = close_notified world fresh m fd server.processor
  receive m fd server s wait_more = notify world fresh m server.processor (on_error fd not_ready)
  receive m fd server s fails = close_error world fresh m fd server.processor socket_error

  -- `onTcpRead`; `recv n` is what `recv` gives for a room of `n` bytes.
  unfoldable pub on_tcp_read : Manager → ℕ → (ℕ → Receiving) → Outcome (Unit {0})
  on_tcp_read m fd recv =
      if is_close m fd
      then ok m tt
      else deref (m.servers (m.clients fd).srv_id) (λ server.
        let s0 : SocketBuf = elim (m.clients fd).recv_buf [
          | some s ↦ s
          | none ↦ SocketBuf.init fresh server.init_recv server.max_recv
        ] in
        then_buf
          (if SocketBuf.get_free_size s0 == 0
            then SocketBuf.add_free_buf fresh s0
            else SocketBuf.ok s0 tt)
          (λ s1 _.
            let m1 = put_client m fd (record (m.clients fd) { recv_buf = some s1 }) in
            if SocketBuf.get_free_size s1 == 0
            then close_error world fresh m1 fd server.processor no_buffer
            else receive m1 fd server s1 (recv (SocketBuf.get_free_size s1))))
