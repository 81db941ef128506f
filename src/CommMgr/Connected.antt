-- ===== src/CommMgr/Connected.antt =====
-- `connect` and `onConnect` leave a `CCommMgr` in use.
use lce.Prelude.{
  ℕ, ◌≡◌, refl, inl, inr, Bool, true, false, Option, none, some, eq→==, ne→==, lt→leb, ◌<◌,
  if◌then◌else◌, Bool-cases, Option-cases,
}
use native.Mathlib.Decide.{ℕ_discrete}
use lce.Prelude.Memory.{Memory}
use lce.CommMgr.{
  Kind, srv_tcp, srv_udp, conn_tcp, Server, Client, on_connect, on_error, socket_error, World,
  Manager, Outcome, ok, ◌>>=◌, set_at, put_client, is_close, close,
}
use lce.CommMgr.Output.{notify}
use lce.CommMgr.Accepting.{Connect, succeeds, in_progress, refused, connect, on_connected}
use lce.CommMgr.Sound.{Sound, put_client-Sound}
use lce.CommMgr.Quiet.{Fair, close_lem, quiet}
use lce.CommMgr.Callbacks.{notify-Quiet}
use lce.CommMgr.Opened.{Stays, Stays-Quiet, Stays-at, Stays-then}

module _ (world : World) (fresh : ℕ → Memory ℕ) (slots : ℕ) where
  close-Stays :
      {m : Manager} {A : Type 0} (fd : ℕ) (a : A)
      → Sound m
      → Stays m (close m fd >>= λ m' _. ok m' a)
  close-Stays fd a h =
      let c = close_lem fd h in
      Stays-then (Stays-Quiet (quiet tt c.calm c.returns)) (λ m1 u h1 e1. Stays-at a h1 refl refl)

  -- A connection that `connect` of the system finishes later, or fails, leaves a manager in use.
  pub on_connected-Stays :
      {m : Manager} (fd : ℕ) (fine : Bool)
      → Fair world m.servers
      → Sound m
      → Stays m (on_connected world fresh m fd fine)
  unfolding on_connected
  on_connected-Stays {m} fd fine fair h = elim (ℕ_discrete (m.clients fd).fd 0) [
    | yes z ↦ rw (eq→== (m.clients fd).fd 0 z, on_connected) (Stays-at tt h refl refl)
    | no ne ↦
        rw (ne→== (m.clients fd).fd 0 ne, ((h.well fd).opened ne).1, on_connected)
          (by_result fine ((h.well fd).opened ne).0)
  ]
    where
      m1 : Manager
      m1 = record m { writes = set_at m.writes fd false }

      m1-Sound : Sound m1
      m1-Sound = record { sizes = h.sizes; well = h.well }

      same : {o : Outcome (Unit {0})} → Stays m1 o → Stays m o
      same q = record {
        after = q.after;
        result = q.result;
        returns = q.returns;
        sound = q.sound;
        same_servers = q.same_servers;
      }

      watched :
          (server : Server) (m2 : Manager)
          → Sound m2
          → m2.servers ≡ m.servers
          → Stays m2 (
              if is_close m2 fd
              then ok m2 tt
              else (if world.adds_event m2.log (m2.clients fd).fd
                  then ok (record m2 { reads = set_at m2.reads (m2.clients fd).fd true }) tt
                  else notify world fresh m2 server.processor (on_error fd socket_error)))
      watched server m2 h2 e2 = elim (ℕ_discrete (m2.clients fd).fd 0) [
        | yes z ↦ rw (eq→== (m2.clients fd).fd 0 z) (Stays-at tt h2 refl refl)
        | no ne ↦ elim (Bool-cases (world.adds_event m2.log (m2.clients fd).fd)) [
          | inl adds ↦
              rw (ne→== (m2.clients fd).fd 0 ne, adds)
                (Stays-at tt (record { sizes = h2.sizes; well = h2.well }) refl refl)
          | inr fails ↦
              rw (ne→== (m2.clients fd).fd 0 ne, fails)
                (Stays-Quiet (
                  notify-Quiet world fresh server.processor (on_error fd socket_error) (rw e2 fair)
                    h2 (λ g. refl)))
        ]
      ]

      by_result :
          (b : Bool) (server : Server)
          → Stays m (
              if b
              then (notify world fresh m1 server.processor (on_connect fd true) >>= λ m2 _.
                  if is_close m2 fd
                  then ok m2 tt
                  else (if world.adds_event m2.log (m2.clients fd).fd
                      then ok (record m2 { reads = set_at m2.reads (m2.clients fd).fd true }) tt
                      else notify world fresh m2 server.processor (on_error fd socket_error)))
              else (notify world fresh m1 server.processor (on_connect fd false) >>= λ m2 _.
                  close m2 fd))
      by_result true server =
          Stays-then
            (same (
              Stays-Quiet (
                notify-Quiet world fresh {m = m1} server.processor (on_connect fd true) fair
                  m1-Sound (λ g. refl))))
            (λ m2 u h2 e2. watched server m2 h2 e2)
      by_result false server =
          Stays-then
            (same (
              Stays-Quiet (
                notify-Quiet world fresh {m = m1} server.processor (on_connect fd false) fair
                  m1-Sound (λ g. refl))))
            (λ m2 u h2 e2. let c = close_lem fd h2 in Stays-Quiet (quiet tt c.calm c.returns))

  -- the result of `connect` of the system, for the socket `fd`
  connect_result :
      {m : Manager} (srv : ℕ) (server : Server) (fd : ℕ) (x : Connect)
      → Fair world m.servers
      → Sound m
      → m.servers srv ≡ some server
      → server.kind ≡ conn_tcp
      → fd < slots
      → Stays m (connect world fresh slots m srv (some fd) x)
  unfolding connect
  connect_result {m} srv server fd x fair h known kind fits =
      rw (known, kind, lt→leb slots fd fits, connect) (same (go x))
    where
      c : Client
      c = record (m.clients fd) { srv_id = srv; fd = fd }

      m1 : Manager
      m1 = put_client m fd c

      h1 : Sound m1
      h1 = put_client-Sound fd c h (record {
        opened = λ ne. (server, known);
        recv_holds = (h.well fd).recv_holds;
        send_holds = (h.well fd).send_holds;
      })

      same : {o : Outcome (Option ℕ)} → Stays m1 o → Stays m o
      same q = record {
        after = q.after;
        result = q.result;
        returns = q.returns;
        sound = q.sound;
        same_servers = q.same_servers;
      }

      go :
          (x : Connect)
          → Stays m1 (elim x [
            | succeeds ↦ notify world fresh m1 server.processor (on_connect fd true) >>= λ m2 _.
                if is_close m2 fd then ok m2 none else ok m2 (some fd)
            | in_progress ↦
                if world.adds_event m1.log fd
                then ok (record m1 { writes = set_at m1.writes fd true }) (some fd)
                else (close m1 fd >>= λ m2 _. ok m2 none)
            | refused ↦ close m1 fd >>= λ m2 _. ok m2 none
          ])
      go succeeds =
          Stays-then
            (Stays-Quiet (
              notify-Quiet world fresh {m = m1} server.processor (on_connect fd true) fair h1
                (λ g. refl)))
            (λ m2 u h2 e2. elim (ℕ_discrete (m2.clients fd).fd 0) [
              | yes z ↦ rw (eq→== (m2.clients fd).fd 0 z) (Stays-at none h2 refl refl)
              | no ne ↦ rw (ne→== (m2.clients fd).fd 0 ne) (Stays-at (some fd) h2 refl refl)
            ])
      go in_progress = elim (Bool-cases (world.adds_event m1.log fd)) [
        | inl adds ↦
            rw adds (Stays-at (some fd) (record { sizes = h1.sizes; well = h1.well }) refl refl)
        | inr fails ↦ rw fails (close-Stays fd none h1)
      ]
      go refused = close-Stays fd none h1

  -- `connect` always returns and leaves a manager in use: for an unknown server, one of another kind,
  -- without a socket, and for every result of the system, where the socket is within the slots.
  pub connect-Stays :
      {m : Manager} (srv : ℕ) (sock : Option ℕ) (x : Connect)
      → Fair world m.servers
      → Sound m
      → ((fd : ℕ) → sock ≡ some fd → fd < slots)
      → Stays m (connect world fresh slots m srv sock x)
  unfolding connect
  connect-Stays {m} srv sock x fair h fits = elim (Option-cases (m.servers srv)) [
    | inl unknown ↦ rw (unknown, connect) (Stays-at none h refl refl)
    | inr (server, known) ↦ by_kind server known server.kind refl sock fits
  ]
    where
      by_kind :
          (server : Server)
          → m.servers srv ≡ some server
          → (k : Kind) → server.kind ≡ k
          → (sock : Option ℕ) → ((fd : ℕ) → sock ≡ some fd → fd < slots)
          → Stays m (connect world fresh slots m srv sock x)
      by_kind server known srv_tcp q sock fits = rw (known, q, connect) (Stays-at none h refl refl)
      by_kind server known srv_udp q sock fits = rw (known, q, connect) (Stays-at none h refl refl)
      by_kind server known conn_tcp q none fits = rw (known, q, connect) (Stays-at none h refl refl)
      by_kind server known conn_tcp q (some fd) fits =
          connect_result srv server fd x fair h known q (fits fd refl)
