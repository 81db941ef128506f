-- ===== src/CommMgr/Received.antt =====
-- What a read event of a `CCommMgr` does, and the bytes that are received in it.
use lce.Prelude.{
  ℕ, ◌+◌, ◌≤◌, ◌≡◌, ◌≢◌, refl, sym, ap, ◌∙◌, ◌⊎◌, inl, inr, Bool, true, List, [], ◌∷◌, ◌++◌,
  append-nil, Option, length, arith,
}
use lce.Prelude.Memory.{Memory}
use lce.PackageFilter.{Code, whole, incomplete, invalid}
use lce.CommMgr.{
  Filter, Server, Entry, Error, on_error, on_close, invalid_package, Receiving, receives, World,
  Manager, Outcome, ok, ◌>>=◌, received,
}
use lce.CommMgr.Output.{close_error, close_notified}
use lce.CommMgr.Reading.{cut_packages}
use lce.CommMgr.Sound.{packages, packages-append, arrived, arrived-append, Sound, Calm-refl, Quiet}
use lce.CommMgr.Quiet.{Fair, close_lem, quiet, Quiet-then}
use lce.CommMgr.Writes.{Contains}
use lce.CommMgr.Callbacks.{Fair-Calm, notify-Quiet}
use lce.CommMgr.Cuts.{Says, Cuts, done}
use lce.CommMgr.Round.{Cutting}

-- `recv` gives at most what there is room for.
abbrev pub Bounded : (ℕ → Receiving) → Type 0
Bounded recv = (n : ℕ) (bs : List ℕ) → recv n ≡ receives bs → length bs ≤ n

-- What a read event of a connection does, whose receive buffer holds `d`: `got` is received, `new` is
-- given to the processor, and `rest` stays in the buffer, unless the connection is closed.
pub record Received (log : List Entry) (servers : ℕ → Option Server) (fd : ℕ) (f : Filter)
    (d : List ℕ) (recv : ℕ → Receiving) (o : Outcome (Unit {0})) : Type 0 where
  pub after : Manager
  pub returns : o ≡ ok after tt
  pub sound : Sound after
  pub same_servers : after.servers ≡ servers
  pub got : List ℕ
  pub arrives : arrived fd after.log ≡ arrived fd log ++ got
  pub new : List (List ℕ)
  pub rest : List ℕ
  pub source : (got ≡ []) ⊎ (room : ℕ) × (recv room ≡ receives got)
  pub delivered : packages fd after.log ≡ packages fd log ++ new
  pub cuts : Cuts f (d ++ got) new rest
  pub state :
      ((after.clients fd).fd ≡ 0)
      ⊎ Contains (after.clients fd).recv_buf rest
        × ((new ≡ []) × (rest ≡ d) ⊎ (s : Says f rest) × (s.verdict.code ≢ whole))

-- Nothing is received.
pub idle :
    {m : Manager} (fd : ℕ) (f : Filter) (d : List ℕ) (recv : ℕ → Receiving) {o : Outcome (Unit {0})}
    → Quiet m o
    → Contains (m.clients fd).recv_buf d
    → Received m.log m.servers fd f d recv o
idle {m} fd f d recv q holds = record {
  after = q.after;
  returns = q.returns;
  sound = q.calm.sound;
  same_servers = (q.calm.keeps fd).same_servers;
  got = [];
  arrives = (q.calm.keeps fd).same_arrived ∙ sym (append-nil (arrived fd m.log));
  source = inl refl;
  new = [];
  rest = d;
  delivered = (q.calm.keeps fd).same_packages ∙ sym (append-nil (packages fd m.log));
  cuts = rw (append-nil d) (done d);
  state = elim (q.calm.keeps fd).recv [
    | inl z ↦ inl z
    | inr e ↦ inr (rw e holds, inl (refl, refl))
  ];
}

module _ (world : World) (fresh : ℕ → Memory ℕ) where
  pub close_error-Quiet :
      {m : Manager} (fd : ℕ) (processor : Bool) (e : Error)
      → Fair world m.servers
      → Sound m
      → Quiet m (close_error world fresh m fd processor e)
  close_error-Quiet fd processor e fair h =
      let c = close_lem fd h in
      Quiet-then (quiet tt c.calm c.returns) (λ m' a calm.
        notify-Quiet world fresh processor (on_error fd e) (Fair-Calm calm fair) calm.sound
          (λ g. refl))

  pub close_notified-Quiet :
      {m : Manager} (fd : ℕ) (processor : Bool)
      → Fair world m.servers
      → Sound m
      → Quiet m (close_notified world fresh m fd processor)
  close_notified-Quiet fd processor fair h =
      Quiet-then (notify-Quiet world fresh processor (on_close fd) fair h (λ g. refl))
        (λ m' a calm. let c = close_lem fd calm.sound in quiet tt c.calm c.returns)

  -- The bytes that were received go through the filter.
  pub filtered :
      {m : Manager} (log : List Entry) (fd : ℕ) (f : Filter) (d bs : List ℕ) (processor : Bool)
      (room : ℕ) (recv : ℕ → Receiving)
      → Fair world m.servers
      → m.log ≡ log ++ (received fd bs ∷ [])
      → recv room ≡ receives bs
      → (c : Cutting m fd f
          (d ++ bs)
          (cut_packages world fresh (length (d ++ bs) + 1) m fd true f 0))
      → Received log m.servers fd f d recv (
          cut_packages world fresh (length (d ++ bs) + 1) m fd true f 0 >>= λ m2 code. elim code [
            | whole ↦ ok m2 tt
            | incomplete ↦ ok m2 tt
            | invalid ↦ close_error world fresh m2 fd processor invalid_package
          ])
  filtered {m} log fd f d bs processor room recv fair same at c = rw c.returns (go c.code refl)
    where
      none_given : packages fd m.log ≡ packages fd log
      none_given =
          ap (packages fd) same
          ∙ packages-append fd log (received fd bs ∷ [])
          ∙ append-nil (packages fd log)

      given : arrived fd m.log ≡ arrived fd log ++ bs
      given =
          ap (arrived fd) same
          ∙ arrived-append fd log (received fd bs ∷ [])
          ∙ ap (λ k. arrived fd log ++ k) (ground (arith, append-nil bs))

      q : Quiet c.after (close_error world fresh c.after fd processor invalid_package)
      q = close_error-Quiet fd processor invalid_package (rw c.same_servers fair) c.sound

      ended : {o : Outcome (Unit {0})} → Quiet c.after o → Received log m.servers fd f d recv o
      ended q = record {
        after = q.after;
        returns = q.returns;
        sound = q.calm.sound;
        same_servers = (q.calm.keeps fd).same_servers ∙ c.same_servers;
        got = bs;
        source = inr (room, at);
        new = c.new;
        rest = c.rest;
        delivered = (q.calm.keeps fd).same_packages ∙ c.delivered ∙ ap (λ k. k ++ c.new) none_given;
        arrives = (q.calm.keeps fd).same_arrived ∙ c.same_arrived ∙ given;
        cuts = c.cuts;
        state = elim (q.calm.keeps fd).recv [
          | inl z ↦ inl z
          | inr e ↦ elim c.state [
            | inl z ↦ inl ((q.calm.keeps fd).stays_closed z)
            | inr (r, s, same, ne) ↦ inr (rw (e, r.is) r.holds, inr (s, λ w. ne (sym same ∙ w)))
          ]
        ];
      }

      go :
          (code : Code)
          → c.code ≡ code
          → Received log m.servers fd f d recv (elim code [
            | whole ↦ ok c.after tt
            | incomplete ↦ ok c.after tt
            | invalid ↦ close_error world fresh c.after fd processor invalid_package
          ])
      go whole e = ended (quiet tt (Calm-refl c.sound) refl)
      go incomplete e = ended (quiet tt (Calm-refl c.sound) refl)
      go invalid e = ended q
