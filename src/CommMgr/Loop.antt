-- ===== src/CommMgr/Loop.antt =====
-- The loop of `onTcpRead` over the packages in a receive buffer.
use lce.Prelude.{
  ℕ, zero, suc, ◌<◌, ◌≡◌, ◌≢◌, refl, sym, ap, ◌∙◌, inl, inr, true, List, [], ◌∷◌, ◌++◌, append-nil,
  append_assoc, some, length, length-drop, take, drop, arith,
}
use lce.Prelude.Memory.{Memory}
use lce.SocketBuf.{get_size}
use lce.PackageFilter.{Code, whole, incomplete, invalid}
use lce.CommMgr.{Filter, World, Manager, ok}
use lce.CommMgr.Reading.{data_of, cut_packages}
use lce.CommMgr.Sound.{packages, Sound}
use lce.CommMgr.Quiet.{Fair}
use lce.CommMgr.Writes.{get_size_lem}
use lce.CommMgr.Cuts.{Says, done, cut, Honest}
use lce.CommMgr.Round.{data_of_lem, Recv, Cutting, Round, round_lem}

module _ (world : World) (fresh : ℕ → Memory ℕ) where
  abbrev says_of : {m : Manager} {fd : ℕ} {d : List ℕ} (f : Filter) (r : Recv m fd d) → Says f d
  says_of f r = record {
    mem = data_of r.buffer;
    stands = data_of_lem r.holds;
    verdict = f (data_of r.buffer) (get_size r.buffer);
    says = ap (f (data_of r.buffer)) (sym (get_size_lem r.holds));
  }

  -- The filter cuts nothing.
  stop :
      (fuel : ℕ) {m : Manager} (fd : ℕ) (f : Filter) (d : List ℕ) (len : ℕ) (code : Code)
      → Sound m
      → (r : Recv m fd d) → (f (data_of r.buffer) (get_size r.buffer)).code ≡ code
      → code ≢ whole
      → cut_packages world fresh (suc fuel) m fd true f len ≡ ok m code
      → Cutting m fd f d (cut_packages world fresh (suc fuel) m fd true f len)
  stop fuel {m} fd f d len code h r e ne returns = record {
    after = m;
    code = code;
    returns = returns;
    sound = h;
    same_servers = refl;
    new = [];
    rest = d;
    delivered = sym (append-nil (packages fd m.log));
    same_arrived = refl;
    cuts = done d;
    state = inr (r, says_of f r, e, ne);
  }

  -- One round, and then the rest of the loop.
  more :
      (fuel : ℕ) {m : Manager} (fd : ℕ) (f : Filter) (d : List ℕ) (len n : ℕ)
      → (r : Recv m fd d) → (f (data_of r.buffer) (get_size r.buffer)).code ≡ whole
      → (f (data_of r.buffer) (get_size r.buffer)).pkg_len ≡ some n
      → (t : Round world fresh fuel m fd f d len n)
      → (Recv t.next fd (drop n d)
          → Cutting t.next fd f (drop n d) (cut_packages world fresh fuel t.next fd true f n))
      → Cutting m fd f d (cut_packages world fresh (suc fuel) m fd true f len)
  more fuel {m} fd f d len n r found at_len t next = elim t.goes [
    | inl (z, e) ↦ record {
      after = t.next;
      code = whole;
      returns = e;
      sound = t.sound;
      same_servers = t.same_servers;
      new = take n d ∷ [];
      rest = drop n d;
      delivered = t.delivered;
      same_arrived = t.same_arrived;
      cuts = cut d n [] (drop n d) (says_of f r) found at_len (done (drop n d));
      state = inl z;
    }
    | inr (held, e) ↦
        let c = next held in
        record {
          after = c.after;
          code = c.code;
          returns = e ∙ c.returns;
          sound = c.sound;
          same_servers = c.same_servers ∙ t.same_servers;
          new = take n d ∷ c.new;
          rest = c.rest;
          delivered =
              c.delivered
              ∙ ap (λ k. k ++ c.new) t.delivered
              ∙ append_assoc (packages fd m.log) (take n d ∷ []) c.new;
          same_arrived = c.same_arrived ∙ t.same_arrived;
          cuts = cut d n c.new c.rest (says_of f r) found at_len c.cuts;
          state = c.state;
        }
  ]

  -- With an honest filter and enough fuel the loop always returns. The processor is given what the
  -- filter cuts, and the rest stays in the buffer, unless the connection was closed.
  pub cut_packages_lem :
      (fuel : ℕ) {m : Manager} (fd : ℕ) (f : Filter) (d : List ℕ) (len : ℕ)
      → Fair world m.servers
      → Honest f
      → Sound m
      → Recv m fd d
      → length d < fuel
      → Cutting m fd f d (cut_packages world fresh fuel m fd true f len)
  unfolding cut_packages
  cut_packages_lem zero fd f d len fair honest h r lt = absurd (omega arith)
  cut_packages_lem (suc fuel) {m} fd f d len fair honest h r lt =
      go
        (λ m' k fair' h' r' lt'.
          cut_packages_lem fuel {m = m'} fd f (drop k d) k fair' honest h' r' lt')
        (f (data_of r.buffer) (get_size r.buffer)).code refl
    where
      Goal : Type 0
      Goal = Cutting m fd f d (cut_packages world fresh (suc fuel) m fd true f len)

      go :
          ((m' : Manager) (k : ℕ)
            → Fair world m'.servers
            → Sound m'
            → Recv m' fd (drop k d)
            → length (drop k d) < fuel
            → Cutting m' fd f (drop k d) (cut_packages world fresh fuel m' fd true f k))
          → (c : Code) → (f (data_of r.buffer) (get_size r.buffer)).code ≡ c
          → Goal
      go again incomplete e =
          stop fuel fd f d len incomplete h r e (λ q. absurd (ground (arith, q)))
            (rw (r.is, e, cut_packages) refl)
      go again invalid e =
          stop fuel fd f d len invalid h r e (λ q. absurd (ground (arith, q)))
            (rw (r.is, e, cut_packages) refl)
      go again whole e =
          let (n, at_len, pos, le) = honest.finds (data_of r.buffer) (get_size r.buffer) e in
          let t =
            round_lem world fresh fuel fd f d len n fair h r e at_len
              (omega (arith, get_size_lem r.holds)) in
          more fuel fd f d len n r e at_len t (λ held.
            again t.next n (rw t.same_servers fair) t.sound held
              (omega (arith, length-drop n d, get_size_lem r.holds)))
