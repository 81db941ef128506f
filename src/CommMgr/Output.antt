-- ===== src/CommMgr/Output.antt =====
-- What a `CCommMgr` sends, and what a processor asks for in its callbacks: `write` and `onWrite` of
-- src/CCommMgr.cpp.
use lce.Prelude.{
  ℕ, ◌+◌, ◌-◌, Bool, true, false, List, [], ◌∷◌, none, some, length, take, drop, ltb, ◌==◌,
  if◌then◌else◌,
}
use lce.Prelude.Memory.{Memory}
use lce.SocketBuf.{SocketBuf}
use lce.SocketBuf
use lce.CommMgr.{
  Error, Callback, Request, World, Manager, Outcome, ◌>>=◌, then_buf, deref, set_at, put_client,
  put_log, is_close, close, socket_error, on_close, on_error, called, sent, write_request,
  close_request, sends, again, broken, ok,
}

module _ (world : World) (fresh : ℕ → Memory ℕ) where
  -- `addFdEvent(iFd, EV_WRITE, ..)` and the result of `write`
  unfoldable pub watch_write : Manager → ℕ → Outcome Bool
  watch_write m fd =
      if world.adds_event m.log fd
      then ok (record m { writes = set_at m.writes fd true }) true
      else ok m false

  -- `addData` to the send buffer, and waiting for room to send
  unfoldable pub keep_bytes : Manager → ℕ → List ℕ → SocketBuf → Outcome Bool
  keep_bytes m fd bs s = then_buf (SocketBuf.add_data fresh s bs) (λ s' added.
      let m' = put_client m fd (record (m.clients fd) { send_buf = some s' }) in
      if added then watch_write m' fd else ok m' false)

  -- Bytes that were not taken go to the send buffer, which is made if there is none.
  unfoldable pub queue_rest : Manager → ℕ → ℕ → List ℕ → Outcome Bool
  queue_rest m fd srv bs = elim (m.clients fd).send_buf [
    | some s ↦ keep_bytes m fd bs s
    | none ↦
        deref (m.servers srv)
          (λ server. keep_bytes m fd bs (SocketBuf.init fresh server.init_send server.max_send))
  ]

  -- all bytes are taken
  unfoldable pub all_sent : Manager → ℕ → Bool → Outcome Bool
  all_sent m fd closes =
      if closes
      then (close m fd >>= λ m' _. ok m' true)
      else ok (record m { writes = set_at m.writes fd false }) true

  -- `write` with nothing in the send buffer
  unfoldable pub send_now : Manager → ℕ → ℕ → List ℕ → Bool → Outcome Bool
  send_now m fd srv bs closes = elim (world.send m.log fd bs) [
    | sends n ↦
        let m' = put_log m (sent fd (take (n + 1) bs)) in
        if ltb (n + 1) (length bs)
        then queue_rest m' fd srv (drop (n + 1) bs)
        else all_sent m' fd closes
    | again ↦ queue_rest m fd srv bs
    | broken ↦ ok m false
  ]

  -- `write` with bytes in the send buffer: they are sent first.
  unfoldable pub send_behind : Manager → ℕ → ℕ → SocketBuf → List ℕ → Bool → Outcome Bool
  send_behind m fd srv s bs closes = elim (world.send m.log fd (SocketBuf.get_data s)) [
    | sends n ↦ then_buf (SocketBuf.remove_data fresh s (n + 1)) (λ s' _.
        let m' =
          put_log (put_client m fd (record (m.clients fd) { send_buf = some s' }))
            (sent fd (take (n + 1) (SocketBuf.get_data s))) in
        if ltb 0 (SocketBuf.get_size s - (n + 1))
        then queue_rest m' fd srv bs
        else send_now m' fd srv bs closes)
    | again ↦ queue_rest m fd srv bs
    | broken ↦ ok m false
  ]

  -- `write(stSession, pszData, iSize, bClose)`; `false` is -1.
  unfoldable pub write : Manager → ℕ → ℕ → List ℕ → Bool → Outcome Bool
  write m fd srv bs closes =
      if is_close m fd
      then ok m false
      else (let m1 = put_client m fd (record (m.clients fd) { need_close = closes }) in
          elim (m1.clients fd).send_buf [
            | none ↦ send_now m1 fd srv bs closes
            | some s ↦
                if SocketBuf.get_size s == 0
                then send_now m1 fd srv bs closes
                else send_behind m1 fd srv s bs closes
          ])

  unfoldable pub do_requests : Manager → List Request → Outcome (Unit {0})
  do_requests m [] = ok m tt
  do_requests m (write_request fd srv bs closes ∷ rs) =
      write m fd srv bs closes >>= λ m' _. do_requests m' rs
  do_requests m (close_request fd ∷ rs) = close m fd >>= λ m' _. do_requests m' rs

  -- a call of the processor, if there is one
  unfoldable pub notify : Manager → Bool → Callback → Outcome (Unit {0})
  notify m processor c =
      if processor then do_requests (put_log m (called c)) (world.requests m.log c) else ok m tt

  -- the end of `write(iFd)`; `left` is `iSendBufSize`.
  unfoldable pub finish_write : Manager → ℕ → ℕ → Outcome Bool
  finish_write m fd left =
      if left == 0
      then (if (m.clients fd).need_close
          then (close m (m.clients fd).fd >>= λ m' _. ok m' true)
          else ok (record m { writes = set_at m.writes fd false }) true)
      else ok m true

  -- `write(iFd)`
  unfoldable pub flush : Manager → ℕ → Outcome Bool
  flush m fd = deref (m.servers (m.clients fd).srv_id) (λ server.
      deref (m.clients fd).send_buf (λ s.
        if ltb 0 (SocketBuf.get_size s)
        then elim (world.send m.log fd (SocketBuf.get_data s)) [
          | sends n ↦ then_buf (SocketBuf.remove_data fresh s (n + 1)) (λ s' _.
              finish_write
                (put_log (put_client m fd (record (m.clients fd) { send_buf = some s' }))
                  (sent fd (take (n + 1) (SocketBuf.get_data s))))
                fd (SocketBuf.get_size s - (n + 1)))
          | again ↦ finish_write m fd (SocketBuf.get_size s)
          | broken ↦ close m fd >>= λ m' _.
              notify m' server.processor (on_error fd socket_error) >>= λ m2 _. ok m2 false
        ]
        else finish_write m fd 0))

  -- `onWrite`
  unfoldable pub on_write : Manager → ℕ → Outcome Bool
  on_write m fd = if is_close m fd then ok m true else flush m fd

  -- `close` and `onError`, and the other way round `onClose` and `close`
  abbrev pub close_error : Manager → ℕ → Bool → Error → Outcome (Unit {0})
  close_error m fd processor e = close m fd >>= λ m' _. notify m' processor (on_error fd e)

  abbrev pub close_notified : Manager → ℕ → Bool → Outcome (Unit {0})
  close_notified m fd processor = notify m processor (on_close fd) >>= λ m' _. close m' fd
