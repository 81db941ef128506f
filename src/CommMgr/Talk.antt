-- ===== src/CommMgr/Talk.antt =====
-- The life of a connection of a `CCommMgr` that speaks in frames.
use lce.Prelude.{
  ℕ, ◌≡◌, refl, ap, ◌∙◌, ◌⊎◌, inl, inr, Bool, true, List, [], ◌∷◌, ◌++◌, some, length, map, eq→==,
  arith,
}
use lce.Prelude.Memory.{Memory}
use lce.PackageFilter.{is_whole_marked}
use lce.PackageFilter.Framing.{frame}
use lce.CommMgr.{Server, Receiving, World, Manager, Outcome, ok, fault, aborted, endless, close}
use lce.CommMgr.Output.{write}
use lce.CommMgr.Reading.{on_tcp_read}
use lce.CommMgr.Sound.{packages, arrived, Sound, Calm}
use lce.CommMgr.Writes.{Contains}
use lce.CommMgr.Received.{Bounded}
use lce.CommMgr.Frames.{frames, AllFit, Waits}

after_of : {A : Type 0} → Manager → Outcome A → Manager
after_of m (ok m' a) = m'
after_of m fault = m
after_of m aborted = m
after_of m endless = m

pub same_after : {A : Type 0} {m m' : Manager} {a b : A} → ok m a ≡ ok m' b → m ≡ m'
unfolding after_of
same_after {m = m} e = ap (after_of m) e

pub map_nil : {A B : Type 0} (f : A → B) (xs : List A) → [] ≡ map f xs → xs ≡ []
map_nil f [] e = refl
map_nil f (x ∷ xs) e = absurd (omega (arith, ap length e))

pub map-append :
    {A B : Type 0} (f : A → B) (xs ys : List A) → map f (xs ++ ys) ≡ map f xs ++ map f ys
map-append f [] ys = refl
map-append f (x ∷ xs) ys = ap (◌∷◌ (f x)) (map-append f xs ys)

module _ (world : World) (fresh : ℕ → Memory ℕ) where
  -- `Talk fd width m bs m'`: from `m` on, the connection is read from, with the bytes `bs` received in
  -- all, and the application calls `write` and `close` for any connection; `m'` is what is left. The
  -- connection's server has a processor and a marked filter whenever it is read from.
  pub data Talk (fd width : ℕ) (m : Manager) : List ℕ → Manager → Type 0 where
    start : Talk fd width m [] m
    writing :
        (bs : List ℕ) (m1 m2 : Manager) (g srv : ℕ) (out : List ℕ) (closes : Bool) (server : Server)
        (b : Bool)
        → Talk fd width m bs m1
        → m1.servers srv ≡ some server
        → write world fresh m1 g srv out closes ≡ ok m2 b
        → Talk fd width m bs m2
    closing :
        (bs : List ℕ) (m1 m2 : Manager) (g : ℕ)
        → Talk fd width m bs m1
        → close m1 g ≡ ok m2 tt
        → Talk fd width m bs m2
    reading :
        (bs : List ℕ) (m1 : Manager) (got : List ℕ) (m2 : Manager) (server : Server)
        (recv : ℕ → Receiving)
        → Talk fd width m bs m1
        → m1.servers (m1.clients fd).srv_id ≡ some server
        → server.processor ≡ true
        → server.filter ≡ some (is_whole_marked width)
        → Bounded recv
        → on_tcp_read world fresh m1 fd recv ≡ ok m2 tt
        → arrived fd m2.log ≡ arrived fd m1.log ++ got
        → Talk fd width m (bs ++ got) m2

  -- What a connection has delivered of the payloads `ps`, while `tail` is still to come.
  pub record Talked (fd width : ℕ) (m m' : Manager) (ps : List (List ℕ)) (tail : List ℕ)
      : Type 0 where
    pub sound : Sound m'
    pub same_servers : m'.servers ≡ m.servers
    pub qs : List (List ℕ)
    pub rs : List (List ℕ)
    pub parts : ps ≡ qs ++ rs
    pub delivered : packages fd m'.log ≡ packages fd m.log ++ map (frame width) qs
    pub state :
        ((m'.clients fd).fd ≡ 0)
        ⊎ (rest : List ℕ) × Contains (m'.clients fd).recv_buf rest
          × (rest ++ tail ≡ frames width rs)
          × AllFit width rs
          × Waits width rest rs

  pub Calm-Talked :
      {fd width : ℕ} {m m1 m2 : Manager} {ps : List (List ℕ)} {tail : List ℕ}
      → Calm m1 m2
      → Talked fd width m m1 ps tail
      → Talked fd width m m2 ps tail
  Calm-Talked {fd} calm t = record {
    sound = calm.sound;
    same_servers = (calm.keeps fd).same_servers ∙ t.same_servers;
    qs = t.qs;
    rs = t.rs;
    parts = t.parts;
    delivered = (calm.keeps fd).same_packages ∙ t.delivered;
    state = elim t.state [
      | inl z ↦ inl ((calm.keeps fd).stays_closed z)
      | inr (rest, holds, left, fit, waits) ↦ elim (calm.keeps fd).recv [
        | inl z ↦ inl z
        | inr e ↦ inr (rest, rw e holds, left, fit, waits)
      ]
    ];
  }

  pub closed_read :
      (m1 : Manager) (fd : ℕ) (recv : ℕ → Receiving)
      → (m1.clients fd).fd ≡ 0
      → on_tcp_read world fresh m1 fd recv ≡ ok m1 tt
  unfolding on_tcp_read
  closed_read m1 fd recv z = rw (eq→== (m1.clients fd).fd 0 z, on_tcp_read) refl
