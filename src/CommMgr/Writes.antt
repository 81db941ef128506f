-- ===== src/CommMgr/Writes.antt =====
-- `write` of a `CCommMgr` and the byte stream of a connection.
use lce.Prelude.{
  ℕ, ◌≡◌, refl, sym, ap, ◌∙◌, inl, inr, Bool, true, false, List, [], ◌∷◌, ◌++◌, append-nil,
  append_assoc, Option, none, some, length, if◌then◌else◌, arith, Bool-cases, Option-cases,
}
use lce.Prelude.Memory.{Memory}
use lce.SocketBuf.{SocketBuf, get_data, get_size, add_data, remove_data, init}
use lce.SocketBuf
use lce.SocketBuf.Contents.{Holds, length-Holds}
use lce.SocketBuf.Append.{Adds, add_data_lem}
use lce.SocketBuf.Consume.{init-Holds}
use lce.CommMgr.{
  Server, Entry, sent, World, Manager, Outcome, ok, then_buf, set_at, put_client, put_log,
}
use lce.CommMgr.Output.{watch_write, keep_bytes, queue_rest, all_sent}
use lce.CommMgr.Sound.{set_at_here, Sound, Calm, Calm-trans, put_client-Calm, log-Calm, writes-Calm}
use lce.CommMgr.Quiet.{taken, taken-append, Closing, close_lem}

abbrev pub Contains : Option SocketBuf → List ℕ → Type 0
Contains none l = l ≡ []
Contains (some s) l = Holds s l

-- The stream of a connection so far: what the system took of it, then what waits in the send buffer.
pub record Sends (m : Manager) (fd : ℕ) (l : List ℕ) : Type 0 where
  pub left : List ℕ
  pub holds : Contains (m.clients fd).send_buf left
  pub stream : taken fd m.log ++ left ≡ l

-- An operation that returns and adds a first part of the bytes to a stream: all of them if its
-- result is true.
pub record Writing (m : Manager) (fd : ℕ) (l bs : List ℕ) (o : Outcome Bool) : Type 0 where
  pub after : Manager
  pub result : Bool
  pub returns : o ≡ ok after result
  pub calm : Calm m after
  pub accepted : List ℕ
  pub rest : List ℕ
  pub split : bs ≡ accepted ++ rest
  pub streams : Sends after fd (l ++ accepted)
  pub all : result ≡ true → rest ≡ []

pub refuses :
    {m : Manager} {fd : ℕ} {l : List ℕ} (bs : List ℕ) {o : Outcome Bool} {m' : Manager}
    → Calm m m'
    → Sends m' fd l
    → o ≡ ok m' false
    → Writing m fd l bs o
refuses {l = l} bs {m' = m'} calm h e = record {
  after = m';
  result = false;
  returns = e;
  calm = calm;
  accepted = [];
  rest = bs;
  split = refl;
  streams = rw (append-nil l) h;
  all = λ q. absurd (ground arith);
}

pub accepts :
    {m : Manager} {fd : ℕ} {l bs : List ℕ} {o : Outcome Bool} (b : Bool) {m' : Manager}
    → Calm m m'
    → Sends m' fd (l ++ bs)
    → o ≡ ok m' b
    → Writing m fd l bs o
accepts {bs = bs} b {m' = m'} calm h e = record {
  after = m';
  result = b;
  returns = e;
  calm = calm;
  accepted = bs;
  rest = [];
  split = sym (append-nil bs);
  streams = h;
  all = λ q. refl;
}

-- A first part was added before.
pub behind :
    {m m' : Manager} {fd : ℕ} {l bs : List ℕ} (p : List ℕ) {ps : List ℕ} {o : Outcome Bool}
    → Calm m m'
    → bs ≡ p ++ ps
    → Writing m' fd (l ++ p) ps o
    → Writing m fd l bs o
behind {fd = fd} {l = l} p calm e w = record {
  after = w.after;
  result = w.result;
  returns = w.returns;
  calm = Calm-trans calm w.calm;
  accepted = p ++ w.accepted;
  rest = w.rest;
  split = e ∙ ap (λ k. p ++ k) w.split ∙ sym (append_assoc p w.accepted w.rest);
  streams = rw (sym (append_assoc l p w.accepted)) w.streams;
  all = w.all;
}

-- A connection gets another send buffer.
pub put_send-Calm :
    {m : Manager} (fd : ℕ) {s : SocketBuf} (d : List ℕ)
    → Sound m
    → Holds s d
    → Calm m (put_client m fd (record (m.clients fd) { send_buf = some s }))
put_send-Calm {m} fd {s} d h holds =
    put_client-Calm fd (record (m.clients fd) { send_buf = some s }) h
      (record {
        opened = (h.well fd).opened;
        recv_holds = (h.well fd).recv_holds;
        send_holds = (d, holds);
      })
      refl (inr (refl, refl))

pub put_send-Sends :
    (m : Manager) (fd : ℕ) {s : SocketBuf} {l : List ℕ} (d : List ℕ) (log : List Entry)
    (writes : ℕ → Bool)
    → Holds s d
    → taken fd log ++ d ≡ l
    → Sends
        (record (put_client m fd (record (m.clients fd) { send_buf = some s })) {
          log = log;
          writes = writes;
        })
        fd
        l
put_send-Sends m fd {s} d log writes holds e = record {
  left = d;
  holds = rw (set_at_here m.clients fd (record (m.clients fd) { send_buf = some s })) holds;
  stream = e;
}

pub nil_of_length : (d : List ℕ) → length d ≡ 0 → d ≡ []
nil_of_length [] e = refl
nil_of_length (x ∷ d) e = absurd (omega arith)

pub get_data_lem : {s : SocketBuf} {d : List ℕ} → Holds s d → get_data s ≡ d
unfolding get_data
get_data_lem h = h.contents

pub get_size_lem : {s : SocketBuf} {d : List ℕ} → Holds s d → get_size s ≡ length d
unfolding get_size
get_size_lem {d = d} h = sym (length-Holds d h)

-- The system takes bytes.
pub sent-Calm : {m : Manager} (fd : ℕ) (bs : List ℕ) → Sound m → Calm m (put_log m (sent fd bs))
sent-Calm {m} fd bs h =
    log-Calm (sent fd bs) m.client_num m.reads m.writes (λ f. refl) (λ f. refl) h

pub taken-sent :
    (fd : ℕ) (l : List Entry) (bs : List ℕ) → taken fd (l ++ (sent fd bs ∷ [])) ≡ taken fd l ++ bs
taken-sent fd l bs =
    taken-append fd l (sent fd bs ∷ []) ∙ ap (λ k. taken fd l ++ k) (ground (arith, append-nil bs))

-- A connection that is closed with nothing waiting keeps its stream.
pub Closing-Sends :
    {m : Manager} {fd : ℕ} {l : List ℕ} (c : Closing m fd)
    → Contains (m.clients fd).send_buf []
    → taken fd m.log ≡ l
    → Sends c.after fd (l ++ [])
Closing-Sends c empty e = record {
  left = [];
  holds = elim c.send_buf [ inl q ↦ rw q refl | inr q ↦ rw q empty ];
  stream = ap (λ k. k ++ []) (c.same_taken ∙ e);
}

module _ (world : World) (fresh : ℕ → Memory ℕ) where
  watch_write_lem :
      {m m' : Manager} {fd : ℕ} {l bs : List ℕ}
      → Calm m m'
      → Sends m' fd (l ++ bs)
      → Writing m fd l bs (watch_write world fresh m' fd)
  unfolding watch_write
  watch_write_lem {m} {m'} {fd} calm h = elim (Bool-cases (world.adds_event m'.log fd)) [
    | inl e ↦
        accepts true (Calm-trans calm (writes-Calm (set_at m'.writes fd true) calm.sound))
          (record { left = h.left; holds = h.holds; stream = h.stream }) (rw e refl)
    | inr e ↦ accepts false calm h (rw e refl)
  ]

  keep_bytes_lem :
      {m : Manager} {fd : ℕ} {l bs : List ℕ} {s : SocketBuf} (d : List ℕ)
      → Sound m
      → Holds s d
      → taken fd m.log ++ d ≡ l
      → Writing m fd l bs (keep_bytes world fresh m fd bs s)
  unfolding keep_bytes
  keep_bytes_lem {m} {fd} {l} {bs} {s} d h holds e =
      kept (add_data fresh s bs) (add_data_lem fresh d bs holds)
    where
      kept :
          (o : SocketBuf.Outcome Bool)
          → Adds fresh s d bs o
          → Writing m fd l bs (
              then_buf o (λ s' added.
                let m' = put_client m fd (record (m.clients fd) { send_buf = some s' }) in
                if added then watch_write world fresh m' fd else ok m' false))
      kept (SocketBuf.ok s' true) (le, holds') =
          watch_write_lem (put_send-Calm fd (d ++ bs) h holds') (
            put_send-Sends m fd (d ++ bs) m.log m.writes holds'
              (sym (append_assoc (taken fd m.log) d bs) ∙ ap (λ k. k ++ bs) e))
      kept (SocketBuf.ok s' false) (gt, same) =
          let holds' : Holds s' d = rw same holds in
          refuses bs (put_send-Calm fd d h holds') (put_send-Sends m fd d m.log m.writes holds' e)
            refl
      kept SocketBuf.aborted bad = absurd bad
      kept SocketBuf.endless bad = absurd bad

  pub queue_rest_lem :
      {m : Manager} {fd srv : ℕ} {l bs : List ℕ} (server : Server)
      → Sound m
      → m.servers srv ≡ some server
      → Sends m fd l
      → Writing m fd l bs (queue_rest world fresh m fd srv bs)
  unfolding queue_rest
  queue_rest_lem {m} {fd} {srv} {l} {bs} server h known sends_l =
      elim (Option-cases (m.clients fd).send_buf) [
        | inl e ↦
            let empty : sends_l.left ≡ [] = rw e at sends_l.holds in
            let size = h.sizes srv server known in
            rw (e, known, queue_rest)
              (keep_bytes_lem [] h
                (init-Holds fresh server.init_send server.max_send size.send_pos size.send_le)
                (ap (λ k. taken fd m.log ++ k) (sym empty) ∙ sends_l.stream))
        | inr (s, e) ↦
            rw (e, queue_rest)
              (keep_bytes_lem sends_l.left h (rw e at sends_l.holds) sends_l.stream)
      ]

  pub all_sent_lem :
      {m : Manager} {fd : ℕ} {l : List ℕ} (closes : Bool)
      → Sound m
      → Contains (m.clients fd).send_buf []
      → taken fd m.log ≡ l
      → Writing m fd l [] (all_sent world fresh m fd closes)
  unfolding all_sent
  all_sent_lem {m} {fd} {l} false h empty e =
      accepts true (writes-Calm (set_at m.writes fd false) h)
        (record { left = []; holds = empty; stream = ap (λ k. k ++ []) e }) refl
  all_sent_lem {m} {fd} {l} true h empty e =
      let c = close_lem fd h in accepts true c.calm (Closing-Sends c empty e) (rw c.returns refl)
