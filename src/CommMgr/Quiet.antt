-- ===== src/CommMgr/Quiet.antt =====
-- What the operations of a `CCommMgr` may rely on, and closing a connection.
use lce.Prelude.{
  ℕ, ◌+◌, ◌-◌, ◌%◌, ◌^◌, ◌<◌, ◌≡◌, ◌≢◌, refl, ap, ◌∙◌, ◌⊎◌, inl, inr, false, List, [], ◌∷◌, ◌++◌,
  append-nil, append_assoc, Option, none, some, length, ◌==◌, eq→==, ne→==, if◌then◌else◌, arith,
}
use native.Mathlib.Decide.{ℕ_discrete}
use lce.CommMgr.{
  Kind, srv_tcp, srv_udp, conn_tcp, Server, Client, Callback, Entry, called, sent, received, shut,
  Request, write_request, close_request, Sending, sends, again, broken, World, Manager, Outcome, ok,
  ◌>>=◌, set_at, put_client, shut_client, close,
}
use lce.CommMgr.Sound.{
  set_at_here, Sound, Calm, Calm-refl, Calm-trans, Quiet, put_client-Calm, log-Calm,
}

-- the bytes that the system took for a connection
abbrev pub taken : ℕ → List Entry → List ℕ
taken fd [] = []
taken fd (sent f bs ∷ l) = let rest = taken fd l in if f == fd then bs ++ rest else rest
taken fd (called c ∷ l) = taken fd l
taken fd (received f bs ∷ l) = taken fd l
taken fd (shut f ∷ l) = taken fd l

pub taken-append : (fd : ℕ) (l k : List Entry) → taken fd (l ++ k) ≡ taken fd l ++ taken fd k
taken-append fd [] k = refl
taken-append fd (sent f bs ∷ l) k =
    ground (arith, taken-append fd l k, append_assoc bs (taken fd l) (taken fd k))
taken-append fd (called c ∷ l) k = taken-append fd l k
taken-append fd (received f bs ∷ l) k = taken-append fd l k
taken-append fd (shut f ∷ l) k = taken-append fd l k

-- the servers that requests name
abbrev pub Known : (ℕ → Option Server) → List Request → Type 0
Known servers [] = Unit {0}
Known servers (write_request fd srv bs closes ∷ rs) =
    ((server : Server) × (servers srv ≡ some server)) × Known servers rs
Known servers (close_request fd ∷ rs) = Known servers rs

-- A fair system and processor: `send` takes at most what it is given, and the processor names servers
-- that are there.
pub record Fair (world : World) (servers : ℕ → Option Server) : Type 0 where
  pub takes :
      (l : List Entry) (fd : ℕ) (bs : List ℕ) (n : ℕ) → world.send l fd bs ≡ sends n → n < length bs
  pub names : (l : List Entry) (c : Callback) → Known servers (world.requests l c)

pub Sending-cases : (x : Sending) → ((n : ℕ) × (x ≡ sends n)) ⊎ ((x ≡ again) ⊎ (x ≡ broken))
Sending-cases (sends n) = inl (n, refl)
Sending-cases again = inr (inl refl)
Sending-cases broken = inr (inr refl)

pub quiet :
    {A : Type 0} {m m' : Manager} {o : Outcome A} (a : A) → Calm m m' → o ≡ ok m' a → Quiet m o
quiet {m' = m'} a calm e = record { after = m'; result = a; returns = e; calm = calm }

-- One operation after another.
pub Quiet-then :
    {A B : Type 0} {m : Manager} {o : Outcome A} {f : Manager → A → Outcome B}
    → Quiet m o
    → ((m' : Manager) (a : A) → Calm m m' → Quiet m' (f m' a))
    → Quiet m (o >>= f)
Quiet-then {f = f} q next =
    let r = next q.after q.result q.calm in
    record {
      after = r.after;
      result = r.result;
      returns = rw q.returns r.returns;
      calm = Calm-trans q.calm r.calm;
    }

-- Closing a connection: it drops the buffers, or it changes no connection.
pub record Closing (m : Manager) (fd : ℕ) : Type 0 where
  pub after : Manager
  pub returns : close m fd ≡ ok after tt
  pub calm : Calm m after
  pub same_taken : taken fd after.log ≡ taken fd m.log
  pub send_buf :
      ((after.clients fd).send_buf ≡ none) ⊎ ((after.clients fd).send_buf ≡ (m.clients fd).send_buf)

unchanged_Closing : {m : Manager} (fd : ℕ) → Sound m → close m fd ≡ ok m tt → Closing m fd
unchanged_Closing {m} fd h e = record {
  after = m;
  returns = e;
  calm = Calm-refl h;
  same_taken = refl;
  send_buf = inr refl;
}

shut_Closing :
    {m : Manager} (fd n : ℕ)
    → Sound m
    → (m.clients fd).fd ≢ 0
    → close m fd ≡ ok (shut_client (record m { client_num = n }) fd) tt
    → Closing m fd
unfolding shut_client
shut_Closing {m} fd n h ne e = record {
  after = shut_client (record m { client_num = n }) fd;
  returns = e;
  calm = Calm-trans put (
      log-Calm {m = put_client m fd closed} (shut fd) n (set_at m.reads fd false)
        (set_at m.writes fd false) (λ f. refl) (λ f. refl) put.sound);
  same_taken = taken-append fd m.log (shut fd ∷ []) ∙ append-nil (taken fd m.log);
  send_buf = inl (ap (λ c. c.send_buf) (set_at_here m.clients fd closed));
}
  where
    closed : Client
    closed = record (m.clients fd) { fd = 0; recv_buf = none; send_buf = none }

    put : Calm m (put_client m fd closed)
    put =
        put_client-Calm fd closed h
          (record { opened = λ ne. absurd (ne refl); recv_holds = tt; send_holds = tt }) refl
          (inl (refl, ne))

-- On a manager in use, closing a connection returns, whatever the connection's kind.
pub close_lem : {m : Manager} (fd : ℕ) → Sound m → Closing m fd
unfolding close
close_lem {m} fd h = elim (ℕ_discrete (m.clients fd).fd 0) [
  | yes z ↦ unchanged_Closing fd h (rw (eq→== (m.clients fd).fd 0 z) refl)
  | no ne ↦ open_case ne ((h.well fd).opened ne)
]
  where
    by_kind :
        (server : Server) (k : Kind)
        → server.kind ≡ k
        → (m.clients fd).fd ≢ 0
        → m.servers (m.clients fd).srv_id ≡ some server
        → Closing m fd
    by_kind server srv_tcp q ne e =
        shut_Closing fd ((m.client_num + (2 ^ 32 - 1)) % 2 ^ 32) h ne
          (rw (ne→== (m.clients fd).fd 0 ne, e, q) refl)
    by_kind server conn_tcp q ne e =
        shut_Closing fd m.client_num h ne (rw (ne→== (m.clients fd).fd 0 ne, e, q) refl)
    by_kind server srv_udp q ne e =
        unchanged_Closing fd h (rw (ne→== (m.clients fd).fd 0 ne, e, q) refl)

    open_case :
        (m.clients fd).fd ≢ 0
        → (server : Server) × (m.servers (m.clients fd).srv_id ≡ some server)
        → Closing m fd
    open_case ne (server, e) = by_kind server server.kind refl ne e
