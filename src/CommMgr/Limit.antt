-- ===== src/CommMgr/Limit.antt =====
-- How many connections `onAccept` of a `CCommMgr` opens, and what it does with the others.
use lce.Prelude.{
  ℕ, zero, suc, ◌+◌, ◌-◌, ◌%◌, ◌^◌, ◌≤◌, ◌<◌, ◌≡◌, ◌≢◌, refl, sym, ap, ◌∙◌, inl, inr, Bool, true,
  false, ◌||◌, List, [], ◌∷◌, ◌++◌, append-nil, append_assoc, length, take, drop, map, lt→ltb,
  le→ltb, lt→leb, ◌==◌, ==→eq, ne→==, if◌then◌else◌, arith, Bool-cases,
}
use lce.Prelude.Memory.{Memory}
use lce.CommMgr.{
  Client, Entry, Callback, called, shut, on_connect, on_error, max_clients, World, Manager, ok,
  set_at, put_client,
}
use lce.CommMgr.Sound.{set_at_here}
use lce.CommMgr.Output.{notify, do_requests}
use lce.CommMgr.Accepting.{Accept, accepts, no_more, accept_one, on_accept}

abbrev pub member : ℕ → List ℕ → Bool
member q [] = false
member q (x ∷ xs) = (q == x) || member q xs

-- a callback, if there is a processor
abbrev pub told : Bool → Callback → List Entry
told true c = called c ∷ []
told false c = []

abbrev pub welcomes : Bool → List ℕ → List Entry
welcomes p [] = []
welcomes p (fd ∷ fds) = told p (on_connect fd true) ++ welcomes p fds

abbrev pub refusals : Bool → List ℕ → List Entry
refusals p [] = []
refusals p (fd ∷ fds) = told p (on_error 0 max_clients) ++ (shut fd ∷ refusals p fds)

-- the connections once these sockets are open for a server
abbrev pub with_opened : ℕ → List ℕ → (ℕ → Client) → ℕ → Client
with_opened srv fds clients q =
    if member q fds then record (clients q) { srv_id = srv; fd = q } else clients q

-- These sockets have been opened for a server, and those refused; all else is as it was.
pub record Accepted (m : Manager) (srv : ℕ) (p : Bool) (opened refused : List ℕ) (m' : Manager)
    : Type 0 where
  pub clients : (q : ℕ) → m'.clients q ≡ with_opened srv opened m.clients q
  pub reads : (q : ℕ) → m'.reads q ≡ (member q opened || m.reads q)
  pub writes : m'.writes ≡ m.writes
  pub servers : m'.servers ≡ m.servers
  pub counted : m'.client_num ≡ m.client_num + length opened
  pub log : m'.log ≡ m.log ++ (welcomes p opened ++ refusals p refused)

with_opened_here :
    (srv : ℕ) (fds : List ℕ) (clients : ℕ → Client) (fd q : ℕ)
    → with_opened srv fds (set_at clients fd (record (clients fd) { srv_id = srv; fd = fd })) q
      ≡ with_opened srv (fd ∷ fds) clients q
unfolding set_at
with_opened_here srv fds clients fd q = elim (Bool-cases (q == fd)) [
  | inl t ↦
      rw (t, ==→eq q fd t) (same (member fd fds) (record (clients fd) { srv_id = srv; fd = fd }))
  | inr f ↦ rw f refl
]
  where
    same : (b : Bool) (c : Client) → (if b then c else c) ≡ c
    same true c = refl
    same false c = refl

Accepted-none : (m : Manager) (srv : ℕ) (p : Bool) → Accepted m srv p [] [] m
Accepted-none m srv p = record {
  clients = λ q. refl;
  reads = λ q. refl;
  writes = refl;
  servers = refl;
  counted = omega arith;
  log = sym (append-nil m.log);
}

Accepted-refuse :
    (m : Manager) (srv : ℕ) (p : Bool) (fd : ℕ) (fds : List ℕ) (m' : Manager)
    → Accepted
        (record m { log = (m.log ++ told p (on_error 0 max_clients)) ++ (shut fd ∷ []) })
        srv
        p
        []
        fds
        m'
    → Accepted m srv p [] (fd ∷ fds) m'
Accepted-refuse m srv p fd fds m' a = record {
  clients = a.clients;
  reads = a.reads;
  writes = a.writes;
  servers = a.servers;
  counted = a.counted;
  log =
      a.log
      ∙ append_assoc (m.log ++ told p (on_error 0 max_clients)) (shut fd ∷ []) (refusals p fds)
      ∙ append_assoc m.log (told p (on_error 0 max_clients)) (shut fd ∷ refusals p fds);
}

Accepted-open :
    (m : Manager) (srv : ℕ) (p : Bool) (fd : ℕ) (opened refused : List ℕ) (m' : Manager)
    → Accepted
        (record m {
          clients = set_at m.clients fd (record (m.clients fd) { srv_id = srv; fd = fd });
          client_num = m.client_num + 1;
          reads = set_at m.reads fd true;
          log = m.log ++ told p (on_connect fd true);
        })
        srv
        p
        opened
        refused
        m'
    → Accepted m srv p (fd ∷ opened) refused m'
unfolding set_at
Accepted-open m srv p fd opened refused m' a = record {
  clients = λ q. a.clients q ∙ with_opened_here srv opened m.clients fd q;
  reads = λ q. a.reads q ∙ read_too q;
  writes = a.writes;
  servers = a.servers;
  counted = a.counted ∙ omega arith;
  log =
      a.log
      ∙ append_assoc m.log (told p (on_connect fd true)) (welcomes p opened ++ refusals p refused)
      ∙ ap (λ l. m.log ++ l)
          (sym
            (append_assoc (told p (on_connect fd true)) (welcomes p opened) (refusals p refused)));
}
  where
    read_too :
        (q : ℕ)
        → (member q opened || (if q == fd then true else m.reads q))
          ≡ (((q == fd) || member q opened) || m.reads q)
    read_too q = ground arith

module _ (world : World) (fresh : ℕ → Memory ℕ) (slots max_client : ℕ) where
  -- sockets that `m_vecClients` has a place for
  abbrev pub Sockets : List ℕ → Type 0
  Sockets [] = Unit {0}
  Sockets (fd ∷ fds) = (fd ≢ 0) × (fd < slots) × Sockets fds

  -- a processor that asks for nothing, and events that the system can watch
  pub record Plain : Type 0 where
    pub asks : (l : List Entry) (c : Callback) → world.requests l c ≡ []
    pub watches : (l : List Entry) (fd : ℕ) → world.adds_event l fd ≡ true

  told-notify :
      (m : Manager) (p : Bool) (c : Callback)
      → Plain
      → notify world fresh m p c ≡ ok (record m { log = m.log ++ told p c }) tt
  unfolding notify do_requests
  told-notify m true c plain = rw (plain.asks m.log c) refl
  told-notify m false c plain = rw (append-nil m.log) refl

  refuse_one :
      (m : Manager) (srv : ℕ) (p : Bool) (fd : ℕ)
      → Plain
      → m.client_num ≡ max_client + 1
      → accept_one world fresh slots max_client m srv p fd
        ≡ ok (record m { log = (m.log ++ told p (on_error 0 max_clients)) ++ (shut fd ∷ []) }) tt
  unfolding accept_one
  refuse_one m srv p fd plain full =
      rw
        (
          lt→ltb max_client m.client_num (omega arith),
          told-notify m p (on_error 0 max_clients) plain,
        )
        refl

  open_one :
      (m : Manager) (srv : ℕ) (p : Bool) (fd : ℕ)
      → Plain
      → m.client_num ≤ max_client
      → max_client + 1 < 2 ^ 32
      → fd ≢ 0
      → fd < slots
      → accept_one world fresh slots max_client m srv p fd
        ≡ ok
            (record m {
              clients = set_at m.clients fd (record (m.clients fd) { srv_id = srv; fd = fd });
              client_num = m.client_num + 1;
              reads = set_at m.reads fd true;
              log = m.log ++ told p (on_connect fd true);
            })
            tt
  unfolding accept_one
  open_one m srv p fd plain room bound ne lt =
      rw
        (
          le→ltb max_client m.client_num room,
          lt→leb slots fd lt,
          wraps,
          told-notify m0 p (on_connect fd true) plain,
          set_at_here m.clients fd c,
          ne→== fd 0 ne,
          plain.watches (m.log ++ told p (on_connect fd true)) fd,
        )
        refl
    where
      c : Client
      c = record (m.clients fd) { srv_id = srv; fd = fd }

      m0 : Manager
      m0 = record (put_client m fd c) { client_num = m.client_num + 1 }

      wraps : (m.client_num + 1) % 2 ^ 32 ≡ m.client_num + 1
      wraps = omega arith

  accepted :
      (fds : List ℕ) (k : ℕ) (m : Manager) (srv : ℕ) (p : Bool) (more : List Accept)
      → Plain
      → m.client_num + k ≡ max_client + 1
      → max_client + 1 < 2 ^ 32
      → Sockets fds
      → (m' : Manager) × (on_accept world fresh slots max_client m srv p
            (map accepts fds ++ no_more ∷ more)
          ≡ ok m' tt)
        × Accepted m srv p (take k fds) (drop k fds) m'
  unfolding on_accept
  accepted [] zero m srv p more plain sum bound fits = (m, refl, Accepted-none m srv p)
  accepted [] (suc k) m srv p more plain sum bound fits = (m, refl, Accepted-none m srv p)
  accepted (fd ∷ fds) zero m srv p more plain sum bound fits =
      let m1 : Manager = record m {
        log = (m.log ++ told p (on_error 0 max_clients)) ++ (shut fd ∷ []);
      } in
      let (m', e, a) = accepted fds zero m1 srv p more plain sum bound fits.2 in
      (
        m',
        rw (refuse_one m srv p fd plain (omega (arith, sum))) e,
        Accepted-refuse m srv p fd fds m' a,
      )
  accepted (fd ∷ fds) (suc k) m srv p more plain sum bound fits =
      let m1 : Manager = record m {
        clients = set_at m.clients fd (record (m.clients fd) { srv_id = srv; fd = fd });
        client_num = m.client_num + 1;
        reads = set_at m.reads fd true;
        log = m.log ++ told p (on_connect fd true);
      } in
      let (m', e, a) = accepted fds k m1 srv p more plain (omega (arith, sum)) bound fits.2 in
      (
        m',
        rw (open_one m srv p fd plain (omega (arith, sum)) bound fits.0 fits.1) e,
        Accepted-open m srv p fd (take k fds) (drop k fds) m' a,
      )

  -- Where the processor, if there is one, asks for nothing, every event can be watched, the maximum is below
  -- 2^32 - 1 and no more than one connection above it is counted: of the sockets accepted up to the
  -- first `EAGAIN`, all of them not 0 and indices of `m_vecClients`, `onAccept` opens the first ones
  -- for the server, until the maximum and one more are counted, watches them for bytes and tells the
  -- processor; the others it closes, after an error to the processor. It changes no other connection
  -- and no other event.
  pub on_accept_lem :
      {m : Manager} (srv : ℕ) (p : Bool) (fds : List ℕ) (more : List Accept)
      → Plain
      → m.client_num ≤ max_client + 1
      → max_client + 1 < 2 ^ 32
      → Sockets fds
      → (m' : Manager) × (on_accept world fresh slots max_client m srv p
            (map accepts fds ++ no_more ∷ more)
          ≡ ok m' tt)
        × Accepted m srv p
            (take (max_client + 1 - m.client_num) fds)
            (drop (max_client + 1 - m.client_num) fds)
            m'
  on_accept_lem {m} srv p fds more plain le bound fits =
      accepted fds (max_client + 1 - m.client_num) m srv p more plain (omega arith) bound fits
