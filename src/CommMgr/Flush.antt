-- ===== src/CommMgr/Flush.antt =====
-- `onWrite` of a `CCommMgr`.
use lce.Prelude.{
  ℕ, ◌+◌, ◌-◌, ◌≤◌, ◌<◌, ◌≡◌, ◌≢◌, refl, sym, ap, ap₂, ◌∙◌, inl, inr, Bool, true, false, List, [],
  ◌++◌, append-nil, some, length, take, drop, length-drop, eq→==, ne→==, lt→ltb, arith, Bool-cases,
}
use native.Mathlib.Decide.{ℕ_discrete}
use lce.Prelude.Memory.{Memory}
use lce.SocketBuf.{SocketBuf, get_data, get_size, remove_data}
use lce.SocketBuf
use lce.SocketBuf.Contents.{Holds}
use lce.SocketBuf.Consume.{remove_data_lem}
use lce.CommMgr.{
  Server, Client, sent, on_error, socket_error, Sending, sends, again, broken, World, Manager,
  Outcome, ok, set_at, put_client, put_log,
}
use lce.CommMgr.Output.{finish_write, flush, on_write}
use lce.CommMgr.Sound.{set_at_here, Sound, Calm, Calm-refl, Calm-trans, writes-Calm}
use lce.CommMgr.Quiet.{taken, Fair, close_lem}
use lce.CommMgr.Writes.{
  Contains, Sends, put_send-Calm, nil_of_length, get_data_lem, get_size_lem, sent-Calm, taken-sent,
  Closing-Sends,
}
use lce.CommMgr.Stream.{sent_part, part_fits}
use lce.CommMgr.Callbacks.{Fair-Calm, notify-Quiet}

abbrev pub Effect : Manager → ℕ → List ℕ → List ℕ → Manager → Bool → Sending → Type 0
Effect m fd d l after result (sends n) =
    (result ≡ true) × Sends after fd l × (taken fd after.log ≡ taken fd m.log ++ take (n + 1) d)
Effect m fd d l after result again =
    (result ≡ true) × Sends after fd l × (taken fd after.log ≡ taken fd m.log)
Effect m fd d l after result broken = result ≡ false

-- What `onWrite` does to the stream `l` of a connection whose send buffer holds `d`, by what the
-- system does with these bytes.
pub record Flushing (m : Manager) (fd : ℕ) (d l : List ℕ) (x : Sending) (o : Outcome Bool)
    : Type 0 where
  pub after : Manager
  pub result : Bool
  pub returns : o ≡ ok after result
  pub calm : Calm m after
  pub effect : Effect m fd d l after result x

module _ (world : World) (fresh : ℕ → Memory ℕ) where
  -- The end of `write(iFd)`
  record Finishing (m : Manager) (fd : ℕ) (l : List ℕ) (o : Outcome Bool) : Type 0 where
    after : Manager
    returns : o ≡ ok after true
    calm : Calm m after
    streams : Sends after fd l
    same_taken : taken fd after.log ≡ taken fd m.log

  finish_write_lem :
      {m : Manager} (fd : ℕ) {l : List ℕ} (n : ℕ) (d : List ℕ)
      → Sound m
      → (m.clients fd).fd ≡ fd
      → Contains (m.clients fd).send_buf d
      → taken fd m.log ++ d ≡ l
      → n ≡ length d
      → Finishing m fd l (finish_write world fresh m fd n)
  unfolding finish_write
  finish_write_lem {m} fd {l} n d h here holds stream e = elim (ℕ_discrete n 0) [
    | no ne ↦ record {
      after = m;
      returns = rw (ne→== n 0 ne, finish_write) refl;
      calm = Calm-refl h;
      streams = record { left = d; holds = holds; stream = stream };
      same_taken = refl;
    }
    | yes z ↦ elim (Bool-cases (m.clients fd).need_close) [
      | inl closes ↦
          let c = close_lem fd h in
          let gone : d ≡ [] = nil_of_length d (sym e ∙ z) in
          record {
            after = c.after;
            returns = rw (eq→== n 0 z, closes, here, finish_write) (rw c.returns refl);
            calm = c.calm;
            streams = rw (sym (append-nil l)) (
                Closing-Sends c (rw gone at holds)
                  (sym (append-nil _) ∙ ap (λ k. taken fd m.log ++ k) (sym gone) ∙ stream));
            same_taken = c.same_taken;
          }
      | inr keeps ↦ record {
        after = record m { writes = set_at m.writes fd false };
        returns = rw (eq→== n 0 z, keeps, finish_write) refl;
        calm = writes-Calm (set_at m.writes fd false) h;
        streams = record { left = d; holds = holds; stream = stream };
        same_taken = refl;
      }
    ]
  ]

  -- `send` takes a part of the buffer.
  flush_part_lem :
      {m : Manager} (fd : ℕ) {l : List ℕ} (d : List ℕ) (s s' : SocketBuf) (server : Server) (n : ℕ)
      → Sound m
      → m.servers (m.clients fd).srv_id ≡ some server
      → (m.clients fd).fd ≡ fd
      → (m.clients fd).send_buf ≡ some s
      → Holds s d
      → taken fd m.log ++ d ≡ l
      → n + 1 ≤ length d
      → world.send m.log fd d ≡ sends n
      → remove_data fresh s (n + 1) ≡ SocketBuf.ok s' tt
      → Holds s' (drop (n + 1) d)
      → Flushing m fd d l (sends n) (flush world fresh m fd)
  unfolding flush
  flush_part_lem {m} fd {l} d s s' server n h known here buffer holds e fits q removed holds' =
      record {
        after = f.after;
        result = true;
        returns =
            rw
              (
                known,
                buffer,
                get_data_lem holds,
                get_size_lem holds,
                lt→ltb 0 (length d) (omega arith),
                q,
                removed,
                flush,
              )
              (ap₂
                  (λ k j.
                    finish_write world fresh
                      (put_log (put_client m fd c') (sent fd (take (n + 1) k))) fd (j - (n + 1)))
                  (get_data_lem holds) (get_size_lem holds)
                ∙ f.returns);
        calm = Calm-trans put (Calm-trans (sent-Calm fd (take (n + 1) d) put.sound) f.calm);
        effect = (refl, f.streams, f.same_taken ∙ taken-sent fd m.log (take (n + 1) d));
      }
    where
      c' : Client
      c' = record (m.clients fd) { send_buf = some s' }

      put : Calm m (put_client m fd c')
      put = put_send-Calm fd (drop (n + 1) d) h holds'

      m2 : Manager
      m2 = put_log (put_client m fd c') (sent fd (take (n + 1) d))

      f : Finishing m2 fd l (finish_write world fresh m2 fd (length d - (n + 1)))
      f =
          finish_write_lem fd (length d - (n + 1)) (drop (n + 1) d)
            (sent-Calm fd (take (n + 1) d) put.sound).sound
            (ap (λ c. c.fd) (set_at_here m.clients fd c') ∙ here)
            (rw (set_at_here m.clients fd c') holds') (sent_part m fd d n ∙ e)
            (sym (length-drop (n + 1) d))

  -- On a manager in use, with a fair system and processor, the write event of an open connection with
  -- data in its send buffer always returns. What the system takes leaves the front of the buffer, and the
  -- connection's stream stays the same; when the system takes nothing for now, nothing is lost either.
  -- Only a broken connection gives -1.
  pub on_write_lem :
      {m : Manager} (fd : ℕ) (l d : List ℕ) (s : SocketBuf)
      → Fair world m.servers
      → Sound m
      → (m.clients fd).fd ≢ 0
      → (m.clients fd).fd ≡ fd
      → (m.clients fd).send_buf ≡ some s
      → Holds s d
      → 0 < length d
      → taken fd m.log ++ d ≡ l
      → Flushing m fd d l (world.send m.log fd d) (on_write world fresh m fd)
  unfolding on_write flush
  on_write_lem {m} fd l d s fair h opened here buffer holds pos e =
      rw (ne→== (m.clients fd).fd 0 opened, on_write)
        (go ((h.well fd).opened opened).0 ((h.well fd).opened opened).1 (world.send m.log fd d)
          refl)
    where
      by_data : world.send m.log fd (get_data s) ≡ world.send m.log fd d
      by_data = ap (world.send m.log fd) (get_data_lem holds)

      go :
          (server : Server)
          → m.servers (m.clients fd).srv_id ≡ some server
          → (x : Sending) → world.send m.log fd d ≡ x
          → Flushing m fd d l x (flush world fresh m fd)
      go server known (sends n) q =
          let (s', removed, holds', _) =
            remove_data_lem fresh d (n + 1) holds (part_fits m fair holds (by_data ∙ q)) in
          flush_part_lem fd d s s' server n h known here buffer holds e
            (part_fits m fair holds (by_data ∙ q)) q removed holds'
      go server known again q =
          let f = finish_write_lem fd (length d) d h here (rw buffer holds) e refl in
          record {
            after = f.after;
            result = true;
            returns =
                rw
                  (
                    known,
                    buffer,
                    get_data_lem holds,
                    get_size_lem holds,
                    lt→ltb 0 (length d) pos,
                    q,
                    flush,
                  )
                  (ap (finish_write world fresh m fd) (get_size_lem holds) ∙ f.returns);
            calm = f.calm;
            effect = (refl, f.streams, f.same_taken);
          }
      go server known broken q =
          let c = close_lem fd h in
          let r =
            notify-Quiet world fresh server.processor (on_error fd socket_error)
              (Fair-Calm c.calm fair) c.calm.sound (λ f. refl) in
          record {
            after = r.after;
            result = false;
            returns =
                rw
                  (
                    known,
                    buffer,
                    get_data_lem holds,
                    get_size_lem holds,
                    lt→ltb 0 (length d) pos,
                    q,
                    flush,
                  )
                  (rw (c.returns, r.returns) refl);
            calm = Calm-trans c.calm r.calm;
            effect = refl;
          }
