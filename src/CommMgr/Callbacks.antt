-- ===== src/CommMgr/Callbacks.antt =====
-- What a processor asks for in a callback of a `CCommMgr`.
use lce.Prelude.{ℕ, ◌≡◌, refl, Bool, true, false, List, [], ◌∷◌, ◌++◌, Option, none, some}
use lce.Prelude.Memory.{Memory}
use lce.SocketBuf.{SocketBuf}
use lce.CommMgr.{called, Callback, World, Manager, put_log, Request, write_request, close_request}
use lce.CommMgr.Output.{do_requests, notify}
use lce.CommMgr.Sound.{packages, Sound, BufferHolds, Calm, Calm-refl, Calm-trans, Quiet, log-Calm}
use lce.CommMgr.Quiet.{taken, Fair, Known, close_lem, quiet, Quiet-then}
use lce.CommMgr.Writes.{Sends}
use lce.CommMgr.Stream.{write-Writing}

-- On a manager in use every connection has a stream.
pub stream_of : {m : Manager} (fd : ℕ) → Sound m → (l : List ℕ) × Sends m fd l
stream_of {m} fd h = go (m.clients fd).send_buf refl (h.well fd).send_holds
  where
    go :
        (x : Option SocketBuf)
        → (m.clients fd).send_buf ≡ x
        → BufferHolds x
        → (l : List ℕ) × Sends m fd l
    go none e u = (taken fd m.log ++ [], record { left = []; holds = rw e refl; stream = refl })
    go (some s) e (d, holds) =
        (taken fd m.log ++ d, record { left = d; holds = rw e holds; stream = refl })

-- what is fair for the servers of a manager is fair while they stay.
pub Fair-Calm :
    {world : World} {m m' : Manager} → Calm m m' → Fair world m.servers → Fair world m'.servers
Fair-Calm calm fair = rw (calm.keeps 0).same_servers fair

pub Known-Calm :
    {m m' : Manager} (rs : List Request) → Calm m m' → Known m.servers rs → Known m'.servers rs
Known-Calm rs calm known = rw (calm.keeps 0).same_servers known

module _ (world : World) (fresh : ℕ → Memory ℕ) where
  pub do_requests-Quiet :
      {m : Manager} (rs : List Request)
      → Fair world m.servers
      → Sound m
      → Known m.servers rs
      → Quiet m (do_requests world fresh m rs)
  unfolding do_requests
  do_requests-Quiet [] fair h known = quiet tt (Calm-refl h) refl
  do_requests-Quiet {m} (write_request fd srv bs closes ∷ rs) fair h ((server, e), known) =
      let w = write-Writing world fresh fd srv bs closes server fair h e (stream_of fd h).1 in
      Quiet-then (quiet w.result w.calm w.returns) (λ m' a calm.
        do_requests-Quiet rs (Fair-Calm calm fair) calm.sound (Known-Calm rs calm known))
  do_requests-Quiet {m} (close_request fd ∷ rs) fair h known =
      let c = close_lem fd h in
      Quiet-then (quiet tt c.calm c.returns) (λ m' a calm.
        do_requests-Quiet rs (Fair-Calm calm fair) calm.sound (Known-Calm rs calm known))

  -- A callback other than `onRead` leaves the receiving sides alone.
  pub notify-Quiet :
      {m : Manager} (processor : Bool) (c : Callback)
      → Fair world m.servers
      → Sound m
      → ((fd : ℕ) → packages fd (called c ∷ []) ≡ [])
      → Quiet m (notify world fresh m processor c)
  unfolding notify
  notify-Quiet false c fair h none_read = quiet tt (Calm-refl h) refl
  notify-Quiet {m} true c fair h none_read =
      let calm = log-Calm (called c) m.client_num m.reads m.writes none_read (λ f. refl) h in
      let q =
        do_requests-Quiet {m = put_log m (called c)} (world.requests m.log c) fair calm.sound
          (fair.names m.log c) in
      quiet q.result (Calm-trans calm q.calm) q.returns
