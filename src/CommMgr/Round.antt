-- ===== src/CommMgr/Round.antt =====
-- One round of the loop of `onTcpRead` over the packages in a receive buffer.
use lce.Prelude.{
  ℕ, zero, suc, ◌+◌, ◌≤◌, ◌≡◌, ◌≢◌, refl, sym, ap, ap₂, ◌∙◌, ◌⊎◌, inl, inr, Bool, true, false, List,
  [], ◌∷◌, ◌++◌, append-nil, some, length, take, drop, eq→==, ne→==, arith,
}
use native.Mathlib.Decide.{ℕ_discrete}
use lce.Prelude.Memory.{Memory, load, take-load}
use lce.SocketBuf.{SocketBuf, get_size, remove_data}
use lce.SocketBuf
use lce.SocketBuf.Contents.{Holds}
use lce.SocketBuf.Consume.{remove_data_lem}
use lce.PackageFilter.{Code, whole}
use lce.CommMgr.{
  Filter, called, Callback, on_read, World, Manager, Outcome, ok, put_client, put_log, is_close,
  deref, then_buf, ◌>>=◌,
}
use lce.CommMgr.Output.{notify, do_requests}
use lce.CommMgr.Reading.{data_of, or_before, cut_packages}
use lce.CommMgr.Sound.{
  packages, packages-append, arrived, arrived-append, set_at_here, Sound, Quiet, put_client-Sound,
}
use lce.CommMgr.Quiet.{Fair}
use lce.CommMgr.Writes.{get_size_lem}
use lce.CommMgr.Callbacks.{do_requests-Quiet}
use lce.CommMgr.Cuts.{Says, Cuts}

load_shift : (m : Memory ℕ) (b i n : ℕ) → load (λ j. m (b + j)) i n ≡ load m (b + i) n
unfolding load
load_shift m b i zero = refl
load_shift m b i (suc n) = ap (◌∷◌ (m (b + i))) (
    load_shift m b (i + 1) n ∙ ap (λ k. load m k n) {x = b + (i + 1)} {y = b + i + 1} (omega arith))

pub data_of_lem : {s : SocketBuf} {d : List ℕ} → Holds s d → load (data_of s) 0 (length d) ≡ d
unfolding get_size
data_of_lem {s} {d} h =
    load_shift s.bytes s.begin_pos 0 (length d)
    ∙ ap₂ (load s.bytes) (omega arith) (sym (get_size_lem h))
    ∙ h.contents

-- the receive buffer of a connection, with its data
pub record Recv (m : Manager) (fd : ℕ) (d : List ℕ) : Type 0 where
  pub buffer : SocketBuf
  pub is : (m.clients fd).recv_buf ≡ some buffer
  pub holds : Holds buffer d

-- What the loop leaves: the connection is closed, or its buffer holds what the filter does not cut.
pub record Cutting (m : Manager) (fd : ℕ) (f : Filter) (d : List ℕ) (o : Outcome Code)
    : Type 0 where
  pub after : Manager
  pub code : Code
  pub returns : o ≡ ok after code
  pub sound : Sound after
  pub same_servers : after.servers ≡ m.servers
  pub new : List (List ℕ)
  pub rest : List ℕ
  pub delivered : packages fd after.log ≡ packages fd m.log ++ new
  pub same_arrived : arrived fd after.log ≡ arrived fd m.log
  pub cuts : Cuts f d new rest
  pub state :
      ((after.clients fd).fd ≡ 0)
      ⊎ Recv after fd rest × (s : Says f rest) × (s.verdict.code ≡ code) × (code ≢ whole)

module _ (world : World) (fresh : ℕ → Memory ℕ) where
  -- One round, by what the processor leaves.
  -- the loop after a package was delivered
  abbrev go_on : ℕ → Manager → ℕ → Filter → ℕ → Bool → Outcome Code
  go_on fuel m1 fd f n true = ok m1 whole
  go_on fuel m1 fd f n false = deref (m1.clients fd).recv_buf (λ s1.
      then_buf (remove_data fresh s1 n) (λ s2 _.
        cut_packages world fresh fuel
          (put_client m1 fd (record (m1.clients fd) { recv_buf = some s2 })) fd true f n))

  round_step :
      (fuel : ℕ) (m m1 : Manager) (fd : ℕ) (f : Filter) (len n : ℕ) (s : SocketBuf)
      → (m.clients fd).recv_buf ≡ some s
      → (f (data_of s) (get_size s)).code ≡ whole
      → (f (data_of s) (get_size s)).pkg_len ≡ some n
      → notify world fresh m true (on_read fd (load (data_of s) 0 n)) ≡ ok m1 tt
      → cut_packages world fresh (suc fuel) m fd true f len ≡ go_on fuel m1 fd f n (is_close m1 fd)
  unfolding cut_packages
  round_step fuel m m1 fd f len n s e found at_len told =
      rw (e, found, cut_packages)
        (ap
            (λ o.
              notify world fresh m true (on_read fd (load (data_of s) 0 (or_before o len)))
              >>= λ m2 _. go_on fuel m2 fd f (or_before o len) (is_close m2 fd))
            at_len
          ∙ ap (λ r. r >>= λ m2 _. go_on fuel m2 fd f n (is_close m2 fd)) told)

  round_closed :
      (fuel : ℕ) (m m1 : Manager) (fd : ℕ) (f : Filter) (len n : ℕ) (s : SocketBuf)
      → (m.clients fd).recv_buf ≡ some s
      → (f (data_of s) (get_size s)).code ≡ whole
      → (f (data_of s) (get_size s)).pkg_len ≡ some n
      → notify world fresh m true (on_read fd (load (data_of s) 0 n)) ≡ ok m1 tt
      → (m1.clients fd).fd ≡ 0
      → cut_packages world fresh (suc fuel) m fd true f len ≡ ok m1 whole
  round_closed fuel m m1 fd f len n s e found at_len told z =
      round_step fuel m m1 fd f len n s e found at_len told
      ∙ ap (go_on fuel m1 fd f n) (eq→== (m1.clients fd).fd 0 z)

  round_open :
      (fuel : ℕ) (m m1 : Manager) (fd : ℕ) (f : Filter) (len n : ℕ) (s : SocketBuf)
      → (m.clients fd).recv_buf ≡ some s
      → (f (data_of s) (get_size s)).code ≡ whole
      → (f (data_of s) (get_size s)).pkg_len ≡ some n
      → notify world fresh m true (on_read fd (load (data_of s) 0 n)) ≡ ok m1 tt
      → (m1.clients fd).fd ≢ 0
      → (s1 s2 : SocketBuf) → (m1.clients fd).recv_buf ≡ some s1
      → remove_data fresh s1 n ≡ SocketBuf.ok s2 tt
      → cut_packages world fresh (suc fuel) m fd true f len
        ≡ cut_packages world fresh fuel
            (put_client m1 fd (record (m1.clients fd) { recv_buf = some s2 }))
            fd
            true
            f
            n
  round_open fuel m m1 fd f len n s e found at_len told ne s1 s2 buffer removed =
      round_step fuel m m1 fd f len n s e found at_len told
      ∙ ap (go_on fuel m1 fd f n) (ne→== (m1.clients fd).fd 0 ne)
      ∙ rw (buffer, removed) refl

  -- One round: the processor is given the package, and if the connection stays open the package
  -- leaves the buffer.
  pub record Round (fuel : ℕ) (m : Manager) (fd : ℕ) (f : Filter) (d : List ℕ) (len n : ℕ)
      : Type 0 where
    pub next : Manager
    pub sound : Sound next
    pub same_servers : next.servers ≡ m.servers
    pub delivered : packages fd next.log ≡ packages fd m.log ++ (take n d ∷ [])
    pub same_arrived : arrived fd next.log ≡ arrived fd m.log
    pub goes :
        ((next.clients fd).fd ≡ 0)
          × (cut_packages world fresh (suc fuel) m fd true f len ≡ ok next whole)
        ⊎ Recv next fd (drop n d)
          × (cut_packages world fresh (suc fuel) m fd true f len
              ≡ cut_packages world fresh fuel next fd true f n)

  pub round_lem :
      (fuel : ℕ) {m : Manager} (fd : ℕ) (f : Filter) (d : List ℕ) (len n : ℕ)
      → Fair world m.servers
      → Sound m
      → (r : Recv m fd d) → (f (data_of r.buffer) (get_size r.buffer)).code ≡ whole
      → (f (data_of r.buffer) (get_size r.buffer)).pkg_len ≡ some n
      → n ≤ length d
      → Round fuel m fd f d len n
  unfolding cut_packages notify
  round_lem fuel {m} fd f d len n fair h r found at_len le =
      elim (ℕ_discrete (m1.clients fd).fd 0) [
        | yes z ↦ record {
          next = m1;
          sound = q.calm.sound;
          same_servers = (q.calm.keeps fd).same_servers;
          delivered = given;
          same_arrived = none_given;
          goes = inl (z, round_closed fuel m m1 fd f len n r.buffer r.is found at_len q.returns z);
        }
        | no ne ↦
            let (s', removed, holds', _) = remove_data_lem fresh d n r.holds le in
            record {
              next = put_client m1 fd (record (m1.clients fd) { recv_buf = some s' });
              sound =
                  put_client-Sound fd (record (m1.clients fd) { recv_buf = some s' }) q.calm.sound
                    (record {
                      opened = (q.calm.sound.well fd).opened;
                      recv_holds = (drop n d, holds');
                      send_holds = (q.calm.sound.well fd).send_holds;
                    });
              same_servers = (q.calm.keeps fd).same_servers;
              delivered = given;
              same_arrived = none_given;
              goes = inr (
                record {
                  buffer = s';
                  is =
                      ap (λ c. c.recv_buf)
                        (set_at_here m1.clients fd (record (m1.clients fd) { recv_buf = some s' }));
                  holds = holds';
                },
                round_open fuel m m1 fd f len n r.buffer r.is found at_len q.returns ne r.buffer s'
                    (same_buffer ne) removed,
              );
            }
      ]
    where
      c : Callback
      c = on_read fd (load (data_of r.buffer) 0 n)

      m0 : Manager
      m0 = put_log m (called c)

      m0-Sound : Sound m0
      m0-Sound = record { sizes = h.sizes; well = h.well }

      q : Quiet m0 (do_requests world fresh m0 (world.requests m.log c))
      q =
          do_requests-Quiet world fresh {m = m0} (world.requests m.log c) fair m0-Sound
            (fair.names m.log c)

      m1 : Manager
      m1 = q.after

      front : load (data_of r.buffer) 0 n ≡ take n d
      front =
          sym (take-load (data_of r.buffer) 0 (length d) n le) ∙ ap (take n) (data_of_lem r.holds)

      given : packages fd m1.log ≡ packages fd m.log ++ (take n d ∷ [])
      given =
          (q.calm.keeps fd).same_packages
          ∙ packages-append fd m.log (called c ∷ [])
          ∙ ap (λ k. packages fd m.log ++ k) (ground (arith, front))

      none_given : arrived fd m1.log ≡ arrived fd m.log
      none_given =
          (q.calm.keeps fd).same_arrived
          ∙ arrived-append fd m.log (called c ∷ [])
          ∙ append-nil (arrived fd m.log)

      same_buffer : (m1.clients fd).fd ≢ 0 → (m1.clients fd).recv_buf ≡ some r.buffer
      same_buffer ne = elim (q.calm.keeps fd).recv [ inl z ↦ absurd (ne z) | inr e ↦ e ∙ r.is ]
