-- ===== src/CommMgr/Sound.antt =====
-- Managers in use, and what an operation leaves of a connection's receiving side.
use lce.Prelude.{
  ℕ, ◌≤◌, ◌<◌, ◌≡◌, ◌≢◌, refl, sym, ap, ◌∙◌, ◌⊎◌, inl, inr, Bool, List, [], ◌∷◌, ◌++◌, append-nil,
  append_assoc, Option, none, some, ◌==◌, if◌then◌else◌, arith,
}
use native.Mathlib.Decide.{ℕ_discrete}
use lce.SocketBuf.{SocketBuf}
use lce.SocketBuf.Contents.{Holds}
use lce.CommMgr.{
  Server, Client, on_read, on_close, on_connect, on_error, Entry, called, sent, received, shut,
  Manager, Outcome, ok, set_at, put_client,
}

-- the packages that the processor was given from a connection
abbrev pub packages : ℕ → List Entry → List (List ℕ)
packages fd [] = []
packages fd (called (on_read f bs) ∷ l) =
    let rest = packages fd l in if f == fd then bs ∷ rest else rest
packages fd (_ ∷ l) = packages fd l

pub packages-append :
    (fd : ℕ) (l k : List Entry) → packages fd (l ++ k) ≡ packages fd l ++ packages fd k
packages-append fd [] k = refl
packages-append fd (called (on_read f bs) ∷ l) k = ground (arith, packages-append fd l k)
packages-append fd (called (on_close f) ∷ l) k = packages-append fd l k
packages-append fd (called (on_connect f b) ∷ l) k = packages-append fd l k
packages-append fd (called (on_error f e) ∷ l) k = packages-append fd l k
packages-append fd (sent f bs ∷ l) k = packages-append fd l k
packages-append fd (received f bs ∷ l) k = packages-append fd l k
packages-append fd (shut f ∷ l) k = packages-append fd l k

pub set_at_here : {A : Type 0} (f : ℕ → A) (i : ℕ) (a : A) → set_at f i a i ≡ a
unfolding set_at
set_at_here f i a = ground arith

pub set_at_other : {A : Type 0} (f : ℕ → A) (i : ℕ) (a : A) (j : ℕ) → j ≢ i → set_at f i a j ≡ f j
unfolding set_at
set_at_other f i a j ne = ground arith

abbrev pub BufferHolds : Option SocketBuf → Type 0
BufferHolds none = Unit {0}
BufferHolds (some s) = (d : List ℕ) × Holds s d

-- the bytes that the system gave for a connection
abbrev pub arrived : ℕ → List Entry → List ℕ
arrived fd [] = []
arrived fd (received f bs ∷ l) = let rest = arrived fd l in if f == fd then bs ++ rest else rest
arrived fd (_ ∷ l) = arrived fd l

pub arrived-append :
    (fd : ℕ) (l k : List Entry) → arrived fd (l ++ k) ≡ arrived fd l ++ arrived fd k
arrived-append fd [] k = refl
arrived-append fd (called c ∷ l) k = arrived-append fd l k
arrived-append fd (sent f bs ∷ l) k = arrived-append fd l k
arrived-append fd (received f bs ∷ l) k =
    ground (arith, arrived-append fd l k, append_assoc bs (arrived fd l) (arrived fd k))
arrived-append fd (shut f ∷ l) k = arrived-append fd l k

-- A connection in use: its server is there while it is open, and its buffers are in use.
pub record Well (servers : ℕ → Option Server) (c : Client) : Type 0 where
  pub opened : c.fd ≢ 0 → (server : Server) × (servers c.srv_id ≡ some server)
  pub recv_holds : BufferHolds c.recv_buf
  pub send_holds : BufferHolds c.send_buf

-- the sizes of buffers that a server asks for
pub record Sizes (server : Server) : Type 0 where
  pub recv_pos : 0 < server.init_recv
  pub recv_le : server.init_recv ≤ server.max_recv
  pub send_pos : 0 < server.init_send
  pub send_le : server.init_send ≤ server.max_send

pub record Sound (m : Manager) : Type 0 where
  pub sizes : (i : ℕ) (server : Server) → m.servers i ≡ some server → Sizes server
  pub well : (fd : ℕ) → Well m.servers (m.clients fd)

-- What may happen to the receiving side of a connection while it is not read from: nothing, or
-- the connection is closed.
pub record Keeps (fd : ℕ) (m m' : Manager) : Type 0 where
  pub same_servers : m'.servers ≡ m.servers
  pub same_packages : packages fd m'.log ≡ packages fd m.log
  pub same_arrived : arrived fd m'.log ≡ arrived fd m.log
  pub same_srv : (m'.clients fd).srv_id ≡ (m.clients fd).srv_id
  pub stays_closed : (m.clients fd).fd ≡ 0 → (m'.clients fd).fd ≡ 0
  pub closed_recv : (m.clients fd).fd ≡ 0 → (m'.clients fd).recv_buf ≡ (m.clients fd).recv_buf
  pub recv : ((m'.clients fd).fd ≡ 0) ⊎ ((m'.clients fd).recv_buf ≡ (m.clients fd).recv_buf)

pub Keeps-refl : {fd : ℕ} {m : Manager} → Keeps fd m m
Keeps-refl = record {
  same_servers = refl;
  same_packages = refl;
  same_arrived = refl;
  same_srv = refl;
  stays_closed = λ e. e;
  closed_recv = λ e. refl;
  recv = inr refl;
}

pub Keeps-trans : {fd : ℕ} {a b c : Manager} → Keeps fd a b → Keeps fd b c → Keeps fd a c
Keeps-trans h k = record {
  same_servers = k.same_servers ∙ h.same_servers;
  same_packages = k.same_packages ∙ h.same_packages;
  same_arrived = k.same_arrived ∙ h.same_arrived;
  same_srv = k.same_srv ∙ h.same_srv;
  stays_closed = λ e. k.stays_closed (h.stays_closed e);
  closed_recv = λ e. k.closed_recv (h.stays_closed e) ∙ h.closed_recv e;
  recv = elim k.recv [
    | inl e ↦ inl e
    | inr same ↦ elim h.recv [ inl e ↦ inl (k.stays_closed e) | inr same' ↦ inr (same ∙ same') ]
  ];
}

-- What may happen to a manager while it reads from no connection.
pub record Calm (m m' : Manager) : Type 0 where
  pub sound : Sound m'
  pub keeps : (fd : ℕ) → Keeps fd m m'

pub Calm-refl : {m : Manager} → Sound m → Calm m m
Calm-refl h = record { sound = h; keeps = λ fd. Keeps-refl }

pub Calm-trans : {a b c : Manager} → Calm a b → Calm b c → Calm a c
Calm-trans h k = record { sound = k.sound; keeps = λ fd. Keeps-trans (h.keeps fd) (k.keeps fd) }

-- An operation that returns, and leaves every connection's receiving side alone.
pub record Quiet {A : Type 0} (m : Manager) (o : Outcome A) : Type 0 where
  pub after : Manager
  pub result : A
  pub returns : o ≡ ok after result
  pub calm : Calm m after

-- A connection gets another state.
pub put_client-Sound :
    {m : Manager} (fd : ℕ) (c : Client) → Sound m → Well m.servers c → Sound (put_client m fd c)
put_client-Sound {m} fd c h w = record {
  sizes = h.sizes;
  well = λ f. elim (ℕ_discrete f fd) [
    | yes e ↦ rw (e, set_at_here m.clients fd c) w
    | no ne ↦ rw (set_at_other m.clients fd c f ne) (h.well f)
  ];
}

-- A connection is closed, or gets another state that has the same receiving side.
pub put_client-Calm :
    {m : Manager} (fd : ℕ) (c : Client)
    → Sound m
    → Well m.servers c
    → c.srv_id ≡ (m.clients fd).srv_id
    → ((c.fd ≡ 0) × ((m.clients fd).fd ≢ 0))
      ⊎ (c.fd ≡ (m.clients fd).fd) × (c.recv_buf ≡ (m.clients fd).recv_buf)
    → Calm m (put_client m fd c)
put_client-Calm {m} fd c h w same_srv same = record {
  sound = put_client-Sound fd c h w;
  keeps = λ f. elim (ℕ_discrete f fd) [
    | yes e ↦
        let here : set_at m.clients fd c f ≡ c =
          ap (set_at m.clients fd c) e ∙ set_at_here m.clients fd c in
        let back : m.clients fd ≡ m.clients f = ap m.clients (sym e) in
        record {
          same_servers = refl;
          same_packages = refl;
          same_arrived = refl;
          same_srv = ap (λ d. d.srv_id) here ∙ same_srv ∙ ap (λ d. d.srv_id) back;
          stays_closed = λ z. ap (λ d. d.fd) here ∙ elim same [
            | inl (closed, _) ↦ closed
            | inr (same_fd, _) ↦ same_fd ∙ ap (λ d. d.fd) back ∙ z
          ];
          closed_recv = λ z. elim same [
            | inl (_, opened) ↦ absurd (opened (ap (λ d. d.fd) back ∙ z))
            | inr (_, same_recv) ↦ ap (λ d. d.recv_buf) here ∙ same_recv ∙ ap (λ d. d.recv_buf) back
          ];
          recv = elim same [
            | inl (closed, _) ↦ inl (ap (λ d. d.fd) here ∙ closed)
            | inr (_, same_recv) ↦
                inr (ap (λ d. d.recv_buf) here ∙ same_recv ∙ ap (λ d. d.recv_buf) back)
          ];
        }
    | no ne ↦
        let other = set_at_other m.clients fd c f ne in
        record {
          same_servers = refl;
          same_packages = refl;
          same_arrived = refl;
          same_srv = ap (λ d. d.srv_id) other;
          stays_closed = λ z. ap (λ d. d.fd) other ∙ z;
          closed_recv = λ z. ap (λ d. d.recv_buf) other;
          recv = inr (ap (λ d. d.recv_buf) other);
        }
  ];
}

-- Events and counts change, and an entry that is no package and no bytes received is added to the log.
pub log-Calm :
    {m : Manager} (e : Entry) (n : ℕ) (reads writes : ℕ → Bool)
    → ((fd : ℕ) → packages fd (e ∷ []) ≡ [])
    → ((fd : ℕ) → arrived fd (e ∷ []) ≡ [])
    → Sound m
    → Calm m (record m { client_num = n; reads = reads; writes = writes; log = m.log ++ (e ∷ []) })
log-Calm {m} e n reads writes none_read none_received h = record {
  sound = record { sizes = h.sizes; well = h.well };
  keeps = λ fd. record {
    same_servers = refl;
    same_arrived =
        arrived-append fd m.log (e ∷ [])
        ∙ ap (λ k. arrived fd m.log ++ k) (none_received fd)
        ∙ append-nil (arrived fd m.log);
    same_packages =
        packages-append fd m.log (e ∷ [])
        ∙ ap (λ k. packages fd m.log ++ k) (none_read fd)
        ∙ append-nil (packages fd m.log);
    same_srv = refl;
    stays_closed = λ z. z;
    closed_recv = λ z. refl;
    recv = inr refl;
  };
}

pub writes-Calm : {m : Manager} (w : ℕ → Bool) → Sound m → Calm m (record m { writes = w })
writes-Calm w h = record {
  sound = record { sizes = h.sizes; well = h.well };
  keeps = λ fd. record {
    same_servers = refl;
    same_packages = refl;
    same_arrived = refl;
    same_srv = refl;
    stays_closed = λ z. z;
    closed_recv = λ z. refl;
    recv = inr refl;
  };
}
