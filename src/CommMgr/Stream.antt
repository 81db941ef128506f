-- ===== src/CommMgr/Stream.antt =====
-- The calls of a `CCommMgr` that send: `write` and `onWrite`, and what a processor asks for.
use lce.Prelude.{
  ℕ, zero, suc, ◌+◌, ◌-◌, ◌≤◌, ◌≡◌, refl, sym, ap, ◌∙◌, inl, inr, Bool, List, [], ◌∷◌, ◌++◌,
  append-nil, append_assoc, Option, none, some, length, take, drop, take-append-drop, ◌==◌, eq→==,
  ne→==, lt→ltb, le→ltb, if◌then◌else◌, arith,
}
use native.Mathlib.Decide.{ℕ_discrete, dec_lt}
use lce.Prelude.Memory.{Memory}
use lce.SocketBuf.{SocketBuf, get_data, get_size, remove_data}
use lce.SocketBuf
use lce.SocketBuf.Contents.{Holds}
use lce.SocketBuf.Consume.{remove_data_lem}
use lce.CommMgr.{Server, Client, sent, sends, World, Manager, put_client, put_log}
use lce.CommMgr.Output.{send_now, send_behind, write}
use lce.CommMgr.Sound.{set_at_here, Sound, Calm, Calm-refl, Calm-trans, put_client-Calm}
use lce.CommMgr.Quiet.{taken, Fair, Sending-cases}
use lce.CommMgr.Writes.{
  Contains, Sends, Writing, refuses, behind, put_send-Calm, put_send-Sends, nil_of_length,
  get_data_lem, get_size_lem, sent-Calm, taken-sent, queue_rest_lem, all_sent_lem,
}

drop_all : {A : Type 0} (n : ℕ) (bs : List A) → length bs ≤ n → drop n bs ≡ []
drop_all zero [] le = refl
drop_all (suc n) [] le = refl
drop_all zero (b ∷ bs) le = absurd (omega arith)
drop_all (suc n) (b ∷ bs) le = drop_all n bs (omega arith)

-- Bytes that were taken from the front of a send buffer.
pub sent_part :
    (m : Manager) (fd : ℕ) (d : List ℕ) (n : ℕ)
    → taken fd (m.log ++ (sent fd (take (n + 1) d) ∷ [])) ++ drop (n + 1) d ≡ taken fd m.log ++ d
sent_part m fd d n =
    ap (λ k. k ++ drop (n + 1) d) (taken-sent fd m.log (take (n + 1) d))
    ∙ append_assoc (taken fd m.log) (take (n + 1) d) (drop (n + 1) d)
    ∙ ap (λ k. taken fd m.log ++ k) (take-append-drop (n + 1) d)

pub part_fits :
    {world : World} (m : Manager) {fd n : ℕ} {s : SocketBuf} {d : List ℕ}
    → Fair world m.servers
    → Holds s d
    → world.send m.log fd (get_data s) ≡ sends n
    → n + 1 ≤ length d
part_fits {world} m {fd} {n} {s} {d} fair holds q =
    omega (arith, fair.takes m.log fd (get_data s) n q, ap length (get_data_lem holds))

module _ (world : World) (fresh : ℕ → Memory ℕ) where
  send_now_lem :
      {m : Manager} {fd srv : ℕ} {l : List ℕ} (bs : List ℕ) (closes : Bool) (server : Server)
      → Fair world m.servers
      → Sound m
      → m.servers srv ≡ some server
      → Contains (m.clients fd).send_buf []
      → taken fd m.log ≡ l
      → Writing m fd l bs (send_now world fresh m fd srv bs closes)
  unfolding send_now
  send_now_lem {m} {fd} {srv} {l} bs closes server fair h known empty e =
      elim (Sending-cases (world.send m.log fd bs)) [
        | inl (n, q) ↦ elim (dec_lt (n + 1) (length bs)) [
          | yes lt ↦
              rw (q, lt→ltb (n + 1) (length bs) lt, send_now)
                (behind (take (n + 1) bs) (logged n) (halves n) (
                  queue_rest_lem world fresh server (logged n).sound known
                    (now n (drop (n + 1) bs))))
          | no ge ↦
              rw (q, le→ltb (n + 1) (length bs) (omega arith), send_now)
                (behind (take (n + 1) bs) (logged n)
                  (halves n ∙ ap (λ k. take (n + 1) bs ++ k) (drop_all (n + 1) bs (omega arith)))
                  (all_sent_lem world fresh closes (logged n).sound empty (log_taken n)))
        ]
        | inr (inl q) ↦ rw (q, send_now) (queue_rest_lem world fresh server h known waits)
        | inr (inr q) ↦ rw (q, send_now) (refuses bs (Calm-refl h) waits refl)
      ]
    where
      waits : Sends m fd l
      waits = record { left = []; holds = empty; stream = append-nil (taken fd m.log) ∙ e }

      logged : (n : ℕ) → Calm m (put_log m (sent fd (take (n + 1) bs)))
      logged n = sent-Calm fd (take (n + 1) bs) h

      halves : (n : ℕ) → bs ≡ take (n + 1) bs ++ drop (n + 1) bs
      halves n = sym (take-append-drop (n + 1) bs)

      log_taken :
          (n : ℕ) → taken fd (m.log ++ (sent fd (take (n + 1) bs) ∷ [])) ≡ l ++ take (n + 1) bs
      log_taken n = taken-sent fd m.log (take (n + 1) bs) ∙ ap (λ k. k ++ take (n + 1) bs) e

      now :
          (n : ℕ) (ps : List ℕ)
          → Sends (put_log m (sent fd (take (n + 1) bs))) fd (l ++ take (n + 1) bs)
      now n ps = record { left = []; holds = empty; stream = append-nil _ ∙ log_taken n }

  -- `send` takes a part of the buffer.
  send_part_lem :
      {m : Manager} {fd srv : ℕ} {l : List ℕ} {s s' : SocketBuf} (d bs : List ℕ) (closes : Bool)
      (server : Server) (n : ℕ)
      → Fair world m.servers
      → Sound m
      → m.servers srv ≡ some server
      → Holds s d
      → taken fd m.log ++ d ≡ l
      → world.send m.log fd (get_data s) ≡ sends n
      → remove_data fresh s (n + 1) ≡ SocketBuf.ok s' tt
      → Holds s' (drop (n + 1) d)
      → Writing m fd l bs (send_behind world fresh m fd srv s bs closes)
  unfolding send_behind
  send_part_lem {m} {fd} {srv} {l} {s} {s'} d bs closes server n fair h known holds e q removed
        holds' =
      elim (dec_lt (n + 1) (length d)) [
        | yes lt ↦
            rw
              (
                q,
                removed,
                get_data_lem holds,
                get_size_lem holds,
                lt→ltb 0 (length d - (n + 1)) (omega arith),
                send_behind,
              )
              (behind [] calm refl
                (queue_rest_lem world fresh server calm.sound known (rw (append-nil l) go)))
        | no ge ↦
            let gone : drop (n + 1) d ≡ [] = drop_all (n + 1) d (omega arith) in
            rw
              (
                q,
                removed,
                get_data_lem holds,
                get_size_lem holds,
                le→ltb 0 (length d - (n + 1)) (omega arith),
                send_behind,
              )
              (behind [] calm refl (
                send_now_lem bs closes server fair calm.sound known
                  (rw (set_at_here m.clients fd (record (m.clients fd) { send_buf = some s' }))
                    (rw gone at holds'))
                  (sym (append-nil _)
                    ∙ ap (λ k. taken fd (m.log ++ (sent fd (take (n + 1) d) ∷ [])) ++ k) (sym gone)
                    ∙ stream
                    ∙ sym (append-nil l))))
      ]
    where
      put : Calm m (put_client m fd (record (m.clients fd) { send_buf = some s' }))
      put = put_send-Calm fd (drop (n + 1) d) h holds'

      calm : Calm m (
          put_log
            (put_client m fd (record (m.clients fd) { send_buf = some s' }))
            (sent fd (take (n + 1) d)))
      calm = Calm-trans put (sent-Calm fd (take (n + 1) d) put.sound)

      stream : taken fd (m.log ++ (sent fd (take (n + 1) d) ∷ [])) ++ drop (n + 1) d ≡ l
      stream = sent_part m fd d n ∙ e

      go :
          Sends
            (put_log
              (put_client m fd (record (m.clients fd) { send_buf = some s' }))
              (sent fd (take (n + 1) d)))
            fd
            l
      go =
          put_send-Sends m fd (drop (n + 1) d) (m.log ++ (sent fd (take (n + 1) d) ∷ [])) m.writes
            holds' stream

  send_behind_lem :
      {m : Manager} {fd srv : ℕ} {l : List ℕ} (s : SocketBuf) (d bs : List ℕ) (closes : Bool)
      (server : Server)
      → Fair world m.servers
      → Sound m
      → m.servers srv ≡ some server
      → Holds s d
      → Sends m fd l
      → taken fd m.log ++ d ≡ l
      → Writing m fd l bs (send_behind world fresh m fd srv s bs closes)
  unfolding send_behind
  send_behind_lem {m} {fd} {srv} {l} s d bs closes server fair h known holds waits e =
      elim (Sending-cases (world.send m.log fd (get_data s))) [
        | inl (n, q) ↦
            let (s', removed, holds', _) =
              remove_data_lem fresh d (n + 1) holds (part_fits m fair holds q) in
            send_part_lem d bs closes server n fair h known holds e q removed holds'
        | inr (inl q) ↦ rw (q, send_behind) (queue_rest_lem world fresh server h known waits)
        | inr (inr q) ↦ rw (q, send_behind) (refuses bs (Calm-refl h) waits refl)
      ]

  -- On a manager in use, with a system that takes at most what it is given, `write` for a known
  -- server always returns. It adds a first part of the bytes to the connection's stream, which is what
  -- the system took followed by what waits in the send buffer, and all of them if it succeeds.
  pub write-Writing :
      {m : Manager} {l : List ℕ} (fd srv : ℕ) (bs : List ℕ) (closes : Bool) (server : Server)
      → Fair world m.servers
      → Sound m
      → m.servers srv ≡ some server
      → Sends m fd l
      → Writing m fd l bs (write world fresh m fd srv bs closes)
  unfolding write
  write-Writing {m} {l} fd srv bs closes server fair h known waits =
      elim (ℕ_discrete (m.clients fd).fd 0) [
        | yes z ↦ rw (eq→== (m.clients fd).fd 0 z, write) (refuses bs (Calm-refl h) waits refl)
        | no ne ↦
            rw (ne→== (m.clients fd).fd 0 ne, write)
              (behind [] calm refl (chosen (m1.clients fd).send_buf refl))
      ]
    where
      c1 : Client
      c1 = record (m.clients fd) { need_close = closes }

      m1 : Manager
      m1 = put_client m fd c1

      calm : Calm m m1
      calm =
          put_client-Calm fd c1 h
            (record {
              opened = (h.well fd).opened;
              recv_holds = (h.well fd).recv_holds;
              send_holds = (h.well fd).send_holds;
            })
            refl (inr (refl, refl))

      waits1 : Sends m1 fd (l ++ [])
      waits1 = record {
        left = waits.left;
        holds = rw (set_at_here m.clients fd c1) waits.holds;
        stream = waits.stream ∙ sym (append-nil l);
      }

      no_data : waits.left ≡ [] → taken fd m1.log ≡ l ++ []
      no_data e = sym (append-nil _) ∙ ap (λ k. taken fd m.log ++ k) (sym e) ∙ waits1.stream

      chosen :
          (x : Option SocketBuf)
          → (m1.clients fd).send_buf ≡ x
          → Writing m1 fd (l ++ []) bs (elim x [
            | none ↦ send_now world fresh m1 fd srv bs closes
            | some s ↦
                if get_size s == 0
                then send_now world fresh m1 fd srv bs closes
                else send_behind world fresh m1 fd srv s bs closes
          ])
      chosen none e =
          let none_left : waits.left ≡ [] = rw e at waits1.holds in
          send_now_lem bs closes server fair calm.sound known (rw e refl) (no_data none_left)
      chosen (some s) e =
          let holds : Holds s waits.left = rw e at waits1.holds in
          elim (ℕ_discrete (get_size s) 0) [
            | yes z ↦
                let none_left : waits.left ≡ [] =
                  nil_of_length waits.left (sym (get_size_lem holds) ∙ z) in
                rw (eq→== (get_size s) 0 z) (
                  send_now_lem bs closes server fair calm.sound known (rw none_left at waits1.holds)
                    (no_data none_left))
            | no ne ↦ rw (ne→== (get_size s) 0 ne) (
                send_behind_lem s waits.left bs closes server fair calm.sound known holds waits1
                  waits1.stream)
          ]
