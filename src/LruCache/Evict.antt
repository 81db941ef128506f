-- ===== src/LruCache/Evict.antt =====
-- The loops of `CLruCache`: making room, and giving all nodes back.
use lce.Prelude.{
  ℕ, zero, suc, ◌-◌, ◌≤◌, ◌<◌, ◌≡◌, ◌≢◌, refl, sym, ap, ◌∙◌, [], ◌∷◌, ◌++◌, append-nil, length,
  length-append, take, take-append_le, take_of_length-le, none, ne→==, if◌then◌else◌, arith,
}
use lce.LruCache.{
  Ptr, null, Heap, Cache, Outcome, ok, ◌>>=◌, erase, write, read, free, evict, free_from,
  remove_from_list_tail,
}
use lce.LruCache.Recency.{Entry}
use lce.LruCache.Chain.{
  Cells, node_of, first, final, has, Distinct, Linked, final-append, Linked-write,
}
use lce.LruCache.Links.{Listed, node_at, read_lem, free_lem}
use lce.LruCache.Unlinks.{remove_tail_lem}
use lce.LruCache.Holds.{Holds, erased-Holds}

module _ {V : Type 0} where
  -- A list of at least two cells has a last one.
  pub record Last (xs : Cells V) : Type 0 where
    pub l : Ptr
    pub d : Entry V
    pub front : Cells V
    pub p : Ptr
    pub e : Entry V
    pub is : xs ≡ (l, d) ∷ (front ++ (p, e) ∷ [])

  Last-cons : (q r : Ptr) (a b : Entry V) (xs : Cells V) → Last ((q, a) ∷ (r, b) ∷ xs)
  Last-cons q r a b [] = record { l = q; d = a; front = []; p = r; e = b; is = refl }
  Last-cons q r a b ((s, c) ∷ xs) =
      let rest = Last-cons r s b c xs in
      record {
        l = q;
        d = a;
        front = (rest.l, rest.d) ∷ rest.front;
        p = rest.p;
        e = rest.e;
        is = ap (λ t. (q, a) ∷ t) rest.is;
      }

  pub Last-of : (xs : Cells V) → 1 < length xs → Last xs
  Last-of [] lt = absurd (omega arith)
  Last-of ((q, a) ∷ []) lt = absurd (omega arith)
  Last-of ((q, a) ∷ (r, b) ∷ xs) lt = Last-cons q r a b xs

  -- What the loop leaves.
  pub record Evicts (c : Cache V) (xs : Cells V) (o : Outcome V (Unit {0})) : Type 0 where
    pub after : Cache V
    pub returns : o ≡ ok after tt
    pub holds : Holds after xs
    pub same_max : after.max_size ≡ c.max_size

  evict_step :
      (n : ℕ) (c : Cache V)
      → c.tail ≢ null
      → evict (suc n) c ≡ (
          read c c.tail >>= λ c1 node.
          remove_from_list_tail (record c1 { entries = erase c1.entries node.key }) >>= λ c2 _.
          evict n c2)
  unfolding evict
  evict_step n c ne = rw (ne→== c.tail null ne, evict)

  free_from_step :
      (n : ℕ) (c : Cache V) (p : Ptr)
      → p ≢ null
      → free_from (suc n) c p
        ≡ (read c p >>= λ c1 node. free c1 p >>= λ c2 _. free_from n c2 node.next)
  unfolding free_from
  free_from_step n c p ne = rw (ne→== p null ne, free_from)

  -- A round gives back the node that was used longest ago, with its entry in the hash map.
  round_lem :
      {c : Cache V} (n : ℕ) (l : Ptr) (d : Entry V) (xs : Cells V) (p : Ptr) (e : Entry V)
      → Holds c ((l, d) ∷ (xs ++ (p, e) ∷ []))
      → (c' : Cache V) × (evict (suc n) c ≡ evict n c')
        × Holds c' ((l, d) ∷ xs)
        × (c'.max_size ≡ c.max_size)
  round_lem {c} n l d xs p e h =
      let at = node_at ((l, d) ∷ xs) p e [] h.listed in
      let tail_is : c.tail ≡ p = h.listed.tail_is ∙ final-append l xs ((p, e) ∷ []) in
      let c1 : Cache V = record c { tail = p; entries = erase c.entries e.key } in
      let listed : Listed c1 ((l, d) ∷ (xs ++ (p, e) ∷ [])) = record {
        head_is = h.listed.head_is;
        tail_is = sym (final-append l xs ((p, e) ∷ []));
        linked = h.listed.linked;
        apart = h.listed.apart;
        sized = h.listed.sized;
      } in
      let r = remove_tail_lem {c = c1} l d xs p e listed in
      let full : Holds r.after ((l, d) ∷ (xs ++ [])) =
        erased-Holds {c = c} {c' = r.after} ((l, d) ∷ xs) p e [] h (rw (append-nil xs) r.listed)
          r.same_entries r.same_max (λ q o. r.spared q (rw (append-nil xs) at o)) in
      (
        r.after,
        ap (λ k. evict (suc n) (record c { tail = k })) tail_is
            ∙ rw (
              evict_step n (record c { tail = p }) at.0,
              read_lem (record c { tail = p }) p (node_of e null (final l xs)) at.0 at.1,
              r.returns,
            ),
        rw (append-nil xs) at full,
        r.same_max,
      )

  take_front :
      (n : ℕ) (front : Cells V) (x : Ptr × Entry V)
      → n ≤ length front
      → take (length (front ++ x ∷ []) - suc n) (front ++ x ∷ []) ≡ take (length front - n) front
  take_front n front x le =
      ap (λ k. take k (front ++ x ∷ [])) (omega (arith, length-append front (x ∷ [])))
      ∙ take-append_le (length front - n) front (x ∷ []) (omega arith)

  pub evict_lem :
      {c : Cache V} (n : ℕ) (xs : Cells V)
      → Holds c xs
      → n < length xs
      → Evicts c (take (length xs - n) xs) (evict n c)
  evict_lem {c} zero xs h lt = record {
    after = c;
    returns = unfold evict in refl;
    holds = rw (take_of_length-le (length xs - 0) xs (omega arith)) h;
    same_max = refl;
  }
  evict_lem {c} (suc n) xs h lt =
      let v = Last-of xs (omega arith) in
      let (c', step, held, max) = round_lem n v.l v.d v.front v.p v.e (rw (sym v.is) h) in
      let short : n < length ((v.l, v.d) ∷ v.front) =
        omega (arith, ap length v.is, length-append v.front ((v.p, v.e) ∷ [])) in
      let r = evict_lem {c = c'} n ((v.l, v.d) ∷ v.front) held short in
      record {
        after = r.after;
        returns = step ∙ r.returns;
        holds =
            rw
              (ap (λ t. take (length t - suc n) t) v.is
                ∙ take_front n ((v.l, v.d) ∷ v.front) (v.p, v.e) (omega arith))
              r.holds;
        same_max = r.same_max ∙ max;
      }

  -- `clearList` gives back every node of the chain and no other.
  pub free_from_lem :
      (c : Cache V) (n : ℕ) (start : Ptr) (xs : Cells V)
      → Linked c.heap start xs null
      → Distinct xs
      → length xs < n
      → (g : Heap V) × (free_from n c (first xs null) ≡ ok (record c { heap = g }) tt)
        × ((q : Ptr) → g q ≡ (if has q xs then none else c.heap q))
  unfolding free_from
  free_from_lem c zero start xs l d lt = absurd (omega arith)
  free_from_lem c (suc n) start [] l d lt = (c.heap, refl, λ q. refl)
  free_from_lem c (suc n) start ((p, e) ∷ xs) l d lt =
      let (g, step, is) =
        free_from_lem (record c { heap = write c.heap p none }) n p xs
          (Linked-write c.heap p none p xs null l.2 d.0) d.1 (omega arith) in
      (
        g,
        rw (
          free_from_step n c p l.0,
          read_lem c p (node_of e (first xs null) start) l.0 l.1,
          free_lem c p (node_of e (first xs null) start) l.0 l.1,
          step,
        ),
        λ q. is q ∙ gone q,
      )
    where
      gone :
          (q : Ptr)
          → (if has q xs then none else write c.heap p none q)
            ≡ (if has q ((p, e) ∷ xs) then none else c.heap q)
      gone q = unfold write in ground arith
