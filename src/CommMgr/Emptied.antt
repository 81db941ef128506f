-- ===== src/CommMgr/Emptied.antt =====
-- Emptying the receive buffer of a `CCommMgr`'s server for datagrams.
use lce.Prelude.{
  ℕ, ◌≡◌, ◌≢◌, refl, sym, ap, ◌∙◌, ◌⊎◌, Bool, true, List, [], ◌∷◌, ◌++◌, append-nil, Option, some,
  take, arith,
}
use lce.Prelude.Memory.{Memory}
use lce.SocketBuf.{SocketBuf}
use lce.SocketBuf.Consume.{reset_lem}
use lce.PackageFilter.{whole}
use lce.CommMgr.{
  Filter, Server, Entry, Error, called, Callback, on_read, on_error, Receiving, receives, World,
  Manager, Outcome, ok, ◌>>=◌, put_client, put_log,
}
use lce.CommMgr.Output.{notify, do_requests}
use lce.CommMgr.Datagram.{reset_recv}
use lce.CommMgr.Sound.{
  packages, packages-append, arrived, arrived-append, set_at_here, Sound, Quiet, put_client-Sound,
}
use lce.CommMgr.Quiet.{Fair}
use lce.CommMgr.Writes.{Contains}
use lce.CommMgr.Callbacks.{do_requests-Quiet, notify-Quiet}
use lce.CommMgr.Cuts.{Says}
use lce.CommMgr.Round.{Recv}

-- An operation that ends with an empty receive buffer, and gave packages to the processor.
pub record Emptied (log : List Entry) (servers : ℕ → Option Server) (fd : ℕ) (new : List (List ℕ))
    (o : Outcome (Unit {0})) : Type 0 where
  pub after : Manager
  pub returns : o ≡ ok after tt
  pub sound : Sound after
  pub same_servers : after.servers ≡ servers
  pub delivered : packages fd after.log ≡ packages fd log ++ new
  pub same_arrived : arrived fd after.log ≡ arrived fd log
  pub emptied : Contains (after.clients fd).recv_buf []

-- What the filter makes of a datagram `got`: nothing was received, or no package was found, or one.
pub data Verdicts (f : Filter) : List ℕ → List (List ℕ) → Type 0 where
  nothing : Verdicts f [] []
  no_package : (got : List ℕ) (s : Says f got) → s.verdict.code ≢ whole → Verdicts f got []
  one_package :
      (got : List ℕ) (n : ℕ) (s : Says f got)
      → s.verdict.code ≡ whole
      → s.verdict.pkg_len ≡ some n
      → Verdicts f got (take n got ∷ [])

-- What a read event of a server for datagrams does.
pub record Datagram (log : List Entry) (servers : ℕ → Option Server) (fd : ℕ) (f : Filter)
    (recv : ℕ → Receiving) (o : Outcome (Unit {0})) : Type 0 where
  pub after : Manager
  pub returns : o ≡ ok after tt
  pub sound : Sound after
  pub same_servers : after.servers ≡ servers
  pub got : List ℕ
  pub arrives : arrived fd after.log ≡ arrived fd log ++ got
  pub source : (got ≡ []) ⊎ (room : ℕ) × (recv room ≡ receives got)
  pub new : List (List ℕ)
  pub delivered : packages fd after.log ≡ packages fd log ++ new
  pub verdict : Verdicts f got new
  pub emptied : Contains (after.clients fd).recv_buf []

module _ (world : World) (fresh : ℕ → Memory ℕ) where
  -- `reset` of the receive buffer
  record Resets (m : Manager) (fd : ℕ) : Type 0 where
    buffer : SocketBuf
    returns :
        reset_recv world fresh m fd
        ≡ ok (put_client m fd (record (m.clients fd) { recv_buf = some buffer })) tt
    sound : Sound (put_client m fd (record (m.clients fd) { recv_buf = some buffer }))
    emptied : Recv (put_client m fd (record (m.clients fd) { recv_buf = some buffer })) fd []
    same_fd :
        ((put_client m fd (record (m.clients fd) { recv_buf = some buffer })).clients fd).fd
        ≡ (m.clients fd).fd

  reset_recv_lem : {m : Manager} (fd : ℕ) (d : List ℕ) → Sound m → Recv m fd d → Resets m fd
  unfolding reset_recv
  reset_recv_lem {m} fd d h r =
      let (s', e, holds, _) = reset_lem fresh d r.holds in
      let here = set_at_here m.clients fd (record (m.clients fd) { recv_buf = some s' }) in
      record {
        buffer = s';
        returns = rw (r.is, e, reset_recv) refl;
        sound =
            put_client-Sound fd (record (m.clients fd) { recv_buf = some s' }) h
              (record {
                opened = (h.well fd).opened;
                recv_holds = ([], holds);
                send_holds = (h.well fd).send_holds;
              });
        emptied = record { buffer = s'; is = ap (λ c. c.recv_buf) here; holds = holds };
        same_fd = ap (λ c. c.fd) here;
      }

  -- `reset` and then `onError`
  pub reset_error :
      {m : Manager} (fd : ℕ) (d : List ℕ) (processor : Bool) (e : Error)
      → Fair world m.servers
      → Sound m
      → (m.clients fd).fd ≡ 0
      → Recv m fd d
      → Emptied m.log m.servers fd []
          (reset_recv world fresh m fd >>= λ m1 _. notify world fresh m1 processor (on_error fd e))
  reset_error {m} fd d processor e fair h closed r =
      let t = reset_recv_lem fd d h r in
      let q = notify-Quiet world fresh processor (on_error fd e) fair t.sound (λ g. refl) in
      record {
        after = q.after;
        returns = rw t.returns q.returns;
        sound = q.calm.sound;
        same_servers = (q.calm.keeps fd).same_servers;
        delivered = (q.calm.keeps fd).same_packages ∙ sym (append-nil (packages fd m.log));
        same_arrived = (q.calm.keeps fd).same_arrived;
        emptied =
            rw ((q.calm.keeps fd).closed_recv (t.same_fd ∙ closed), t.emptied.is) t.emptied.holds;
      }

  -- `onRead` and then `reset`
  pub read_reset :
      {m : Manager} (fd : ℕ) (d pkg : List ℕ)
      → Fair world m.servers
      → Sound m
      → (m.clients fd).fd ≡ 0
      → Recv m fd d
      → Emptied m.log m.servers fd
          (pkg ∷ [])
          (notify world fresh m true (on_read fd pkg) >>= λ m1 _. reset_recv world fresh m1 fd)
  unfolding notify
  read_reset {m} fd d pkg fair h closed r = record {
    after = put_client q.after fd (record (q.after.clients fd) { recv_buf = some t.buffer });
    returns = rw (q.returns, notify) t.returns;
    sound = t.sound;
    same_servers = (q.calm.keeps fd).same_servers;
    delivered =
        (q.calm.keeps fd).same_packages
        ∙ packages-append fd m.log (called c ∷ [])
        ∙ ap (λ k. packages fd m.log ++ k) (ground arith);
    same_arrived =
        (q.calm.keeps fd).same_arrived
        ∙ arrived-append fd m.log (called c ∷ [])
        ∙ append-nil (arrived fd m.log);
    emptied = rw t.emptied.is t.emptied.holds;
  }
    where
      c : Callback
      c = on_read fd pkg

      m0 : Manager
      m0 = put_log m (called c)

      q : Quiet m0 (do_requests world fresh m0 (world.requests m.log c))
      q =
          do_requests-Quiet world fresh {m = m0} (world.requests m.log c) fair
            (record { sizes = h.sizes; well = h.well }) (fair.names m.log c)

      t : Resets q.after fd
      t = reset_recv_lem fd d q.calm.sound (record {
        buffer = r.buffer;
        is = (q.calm.keeps fd).closed_recv closed ∙ r.is;
        holds = r.holds;
      })
