-- ===== src/CommMgr/Opened.antt =====
-- Connections that come about leave the manager in use; a server that goes does not.
use lce.Prelude.{
  ℕ, ◌+◌, ◌%◌, ◌^◌, ◌≡◌, ◌≢◌, refl, ◌∙◌, inl, inr, Bool, true, List, [], ◌∷◌, none, some, ltb, ◌<◌,
  lt→leb, eq→==, ne→==, Bool-cases,
}
use native.Mathlib.Decide.{ℕ_discrete}
use lce.Prelude.Memory.{Memory}
use lce.CommMgr.{
  Server, Client, on_connect, on_error, socket_error, max_clients, Receiving, World, Manager,
  Outcome, ok, fault, ◌>>=◌, put_client,
}
use lce.CommMgr.Reading.{on_tcp_read}
use lce.CommMgr.Accepting.{Accept, accepts, no_more, refused_accept, accept_one, on_accept, rm_srv}
use lce.CommMgr.Sound.{Sound, Quiet, put_client-Sound, set_at_here}
use lce.CommMgr.Quiet.{Fair}
use lce.CommMgr.Callbacks.{notify-Quiet}

-- An operation that returns and leaves the manager in use, with the same servers.
pub record Stays {A : Type 0} (m : Manager) (o : Outcome A) : Type 0 where
  pub after : Manager
  pub result : A
  pub returns : o ≡ ok after result
  pub sound : Sound after
  pub same_servers : after.servers ≡ m.servers

pub Stays-Quiet : {A : Type 0} {m : Manager} {o : Outcome A} → Quiet m o → Stays m o
Stays-Quiet q = record {
  after = q.after;
  result = q.result;
  returns = q.returns;
  sound = q.calm.sound;
  same_servers = (q.calm.keeps 0).same_servers;
}

pub Stays-at :
    {A : Type 0} {m m' : Manager} {o : Outcome A} (a : A)
    → Sound m'
    → m'.servers ≡ m.servers
    → o ≡ ok m' a
    → Stays m o
Stays-at {m' = m'} a h e r = record {
  after = m';
  result = a;
  returns = r;
  sound = h;
  same_servers = e;
}

pub Stays-then :
    {A B : Type 0} {m : Manager} {o : Outcome A} {f : Manager → A → Outcome B}
    → Stays m o
    → ((m' : Manager) (a : A) → Sound m' → m'.servers ≡ m.servers → Stays m' (f m' a))
    → Stays m (o >>= f)
Stays-then {f = f} q next =
    let r = next q.after q.result q.sound q.same_servers in
    record {
      after = r.after;
      result = r.result;
      returns = rw q.returns r.returns;
      sound = r.sound;
      same_servers = r.same_servers ∙ q.same_servers;
    }

module _ (world : World) (fresh : ℕ → Memory ℕ) (slots : ℕ) where
  accept_one-Stays :
      (max_client : ℕ) {m : Manager} (srv : ℕ) (processor : Bool) (fd : ℕ) (server : Server)
      → Fair world m.servers
      → Sound m
      → m.servers srv ≡ some server
      → fd < slots
      → Stays m (accept_one world fresh slots max_client m srv processor fd)
  unfolding accept_one
  accept_one-Stays max_client {m} srv processor fd server fair h known fits =
      elim (Bool-cases (ltb max_client m.client_num)) [
        | inl full ↦
            rw (full, accept_one)
              (Stays-then
                (Stays-Quiet
                  (notify-Quiet world fresh processor (on_error 0 max_clients) fair h (λ g. refl)))
                (λ m1 u h1 e1. Stays-at tt (record { sizes = h1.sizes; well = h1.well }) refl refl))
        | inr room ↦
            rw (room, lt→leb slots fd fits, accept_one)
              (Stays-then
                (told (
                  Stays-Quiet (
                    notify-Quiet world fresh {m = m0} processor (on_connect fd true) fair m0-Sound
                      (λ g. refl))))
                (λ m1 u h1 e1. elim (ℕ_discrete (m1.clients fd).fd 0) [
                  | yes z ↦ rw (eq→== (m1.clients fd).fd 0 z) (Stays-at tt h1 refl refl)
                  | no ne ↦ elim (Bool-cases (world.adds_event m1.log fd)) [
                    | inl adds ↦
                        rw (ne→== (m1.clients fd).fd 0 ne, adds)
                          (Stays-at tt (record { sizes = h1.sizes; well = h1.well }) refl refl)
                    | inr fails ↦
                        rw (ne→== (m1.clients fd).fd 0 ne, fails)
                          (Stays-then
                            (Stays-Quiet (
                              notify-Quiet world fresh processor (on_error fd socket_error)
                                (rw e1 fair) h1 (λ g. refl)))
                            (λ m2 u h2 e2.
                              Stays-at tt (record { sizes = h2.sizes; well = h2.well }) refl refl))
                  ]
                ]))
      ]
    where
      c : Client
      c = record (m.clients fd) { srv_id = srv; fd = fd }

      m0 : Manager
      m0 = record (put_client m fd c) { client_num = (m.client_num + 1) % 2 ^ 32 }

      put : Sound (put_client m fd c)
      put = put_client-Sound fd c h (record {
        opened = λ ne. (server, known);
        recv_holds = (h.well fd).recv_holds;
        send_holds = (h.well fd).send_holds;
      })

      m0-Sound : Sound m0
      m0-Sound = record { sizes = put.sizes; well = put.well }

      told : {o : Outcome (Unit {0})} → Stays m0 o → Stays m o
      told q = record {
        after = q.after;
        result = q.result;
        returns = q.returns;
        sound = q.sound;
        same_servers = q.same_servers;
      }

  -- the sockets are indices of `m_vecClients`
  abbrev pub InSlots : List Accept → Type 0
  InSlots [] = Unit {0}
  InSlots (accepts fd ∷ l) = (fd < slots) × InSlots l
  InSlots (no_more ∷ l) = InSlots l
  InSlots (refused_accept ∷ l) = InSlots l

  -- On a manager in use, with a fair system and processor, `onAccept` of a known server returns and leaves
  -- a manager in use, whatever sockets within the slots are accepted, also more than are allowed, and
  -- whatever the processor does with them.
  pub on_accept-Stays :
      (max_client : ℕ) {m : Manager} (srv : ℕ) (processor : Bool) (l : List Accept)
      (server : Server)
      → Fair world m.servers
      → Sound m
      → m.servers srv ≡ some server
      → InSlots l
      → Stays m (on_accept world fresh slots max_client m srv processor l)
  unfolding on_accept
  on_accept-Stays max_client srv processor [] server fair h known fits = Stays-at tt h refl refl
  on_accept-Stays max_client srv processor (no_more ∷ l) server fair h known fits =
      Stays-at tt h refl refl
  on_accept-Stays max_client srv processor (refused_accept ∷ l) server fair h known fits =
      Stays-Quiet (notify-Quiet world fresh processor (on_error 0 socket_error) fair h (λ g. refl))
  on_accept-Stays max_client srv processor (accepts fd ∷ l) server fair h known fits =
      Stays-then (accept_one-Stays max_client srv processor fd server fair h known fits.0)
        (λ m1 u h1 e1.
          on_accept-Stays max_client srv processor l server (rw e1 fair) h1 (rw e1 known) fits.1)

  gone_read :
      (m : Manager) (fd : ℕ) (recv : ℕ → Receiving)
      → (m.clients fd).fd ≢ 0
      → m.servers (m.clients fd).srv_id ≡ none
      → on_tcp_read world fresh m fd recv ≡ fault
  unfolding on_tcp_read
  gone_read m fd recv opened gone = rw (ne→== (m.clients fd).fd 0 opened, gone, on_tcp_read) refl

  -- After `rmSrv` of the server of an open connection, the next read event of this connection uses the
  -- server that is gone.
  pub on_tcp_read-rm_srv :
      (m : Manager) (fd : ℕ) (server : Server) (recv : ℕ → Receiving)
      → (m.clients fd).fd ≢ 0
      → m.servers (m.clients fd).srv_id ≡ some server
      → (rm_srv m (m.clients fd).srv_id >>= λ m' _. on_tcp_read world fresh m' fd recv) ≡ fault
  unfolding rm_srv
  on_tcp_read-rm_srv m fd server recv opened known = elim (Bool-cases (ltb 0 server.listen_fd)) [
    | inl b ↦
        rw (known, b, rm_srv)
          (gone_read _ fd recv opened (set_at_here m.servers (m.clients fd).srv_id none))
    | inr b ↦
        rw (known, b, rm_srv)
          (gone_read _ fd recv opened (set_at_here m.servers (m.clients fd).srv_id none))
  ]
