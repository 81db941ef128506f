-- ===== src/LruCache/Holds.antt =====
-- A `CLruCache` in use: its list, its hash map and its heap agree.
use lce.Prelude.{
  ℕ, suc, ◌≤◌, ◌≡◌, refl, sym, ap, ◌∙◌, inl, inr, true, false, [], ◌∷◌, ◌++◌, length, length-append,
  none, some, ◌==◌, ==→eq, eq→==, if◌then◌else◌, arith, Bool-cases,
}
use lce.LruCache.{
  Ptr, null, Heap, Cache, ◌>>=◌, erase, insert, write, cache_remove_num, add_to_list_head,
  remove_from_list,
}
use lce.LruCache.Recency.{Entry}
use lce.LruCache.Chain.{
  Cells, node_of, first, final, has, Distinct, Linked, has-append, first-append, final-append,
  Linked-split, Linked-join, write_here, Linked-write,
}
use lce.LruCache.Links.{Listed, Relisted, Distinct-split, node_at, add_lem}
use lce.LruCache.Unlinks.{remove_lem}
use lce.LruCache.Keys.{place, DistinctKeys, place_rest, place_here, place_front, DistinctKeys-rest}

module _ {V : Type 0} where
  -- `live`: no node outside the list is allocated, so that none is lost.
  pub record Holds (c : Cache V) (xs : Cells V) : Type 0 where
    pub listed : Listed c xs
    pub finds : (k : ℕ) → c.entries.find k ≡ place k xs
    pub keys : DistinctKeys xs
    pub counted : c.entries.count ≡ length xs
    pub room : cache_remove_num ≤ c.max_size
    pub live : (q : Ptr) → has q xs ≡ false → c.heap q ≡ none

  length-middle :
      (xs : Cells V) (p : Ptr) (e : Entry V) (ys : Cells V)
      → length (xs ++ (p, e) ∷ ys) ≡ suc (length (xs ++ ys))
  length-middle xs p e ys = omega (arith, length-append xs ((p, e) ∷ ys), length-append xs ys)

  -- A list operation that gives a node back, once the hash map has lost its key.
  pub erased-Holds :
      {c c' : Cache V} (xs : Cells V) (p : Ptr) (e : Entry V) (ys : Cells V)
      → Holds c (xs ++ (p, e) ∷ ys)
      → Listed c' (xs ++ ys)
      → c'.entries ≡ erase c.entries e.key
      → c'.max_size ≡ c.max_size
      → ((q : Ptr) → has q (xs ++ ys) ≡ false → c'.heap q ≡ write c.heap p none q)
      → Holds c' (xs ++ ys)
  unfolding erase write
  erased-Holds {c} {c'} xs p e ys h listed entries max spared = record {
    listed = listed;
    finds = λ k.
        ap (λ m. m.find k) entries
        ∙ ap (λ o. if k == e.key then none else o) (h.finds k)
        ∙ sym (place_rest xs p e ys k h.keys);
    keys = DistinctKeys-rest xs p e ys h.keys;
    counted =
        ap (λ m. m.count) entries
        ∙ rw (h.finds e.key, place_here xs p e ys h.keys)
            (omega (arith, h.counted, length-middle xs p e ys));
    room = rw max h.room;
    live = λ q out. spared q out ∙ gone q out;
  }
    where
      gone : (q : Ptr) → has q (xs ++ ys) ≡ false → write c.heap p none q ≡ none
      gone q out = ground (arith, h.live q, has-append q xs ys, has-append q xs ((p, e) ∷ ys))

  -- The data of a node in the list are overwritten.
  abbrev pub overwritten : (c : Cache V) → Cells V → Ptr → Entry V → Cells V → Cache V
  overwritten c xs p new ys = record c {
    heap = write c.heap p (some (node_of new (first ys null) (final null xs)));
  }

  Distinct-entry :
      (xs : Cells V) (p : Ptr) (e new : Entry V) (ys : Cells V)
      → Distinct (xs ++ (p, e) ∷ ys)
      → Distinct (xs ++ (p, new) ∷ ys)
  Distinct-entry [] p e new ys d = d
  Distinct-entry ((q, f) ∷ xs) p e new ys d = (
    ground (arith, d.0, has-append q xs ((p, e) ∷ ys), has-append q xs ((p, new) ∷ ys)),
    Distinct-entry xs p e new ys d.1,
  )

  pub overwritten-Listed :
      {c : Cache V} (xs : Cells V) (p : Ptr) (e new : Entry V) (ys : Cells V)
      → Listed c (xs ++ (p, e) ∷ ys)
      → Listed (overwritten c xs p new ys) (xs ++ (p, new) ∷ ys)
  overwritten-Listed {c} xs p e new ys h = record {
    head_is =
        h.head_is ∙ first-append xs ((p, e) ∷ ys) null ∙ sym (first-append xs ((p, new) ∷ ys) null);
    tail_is =
        h.tail_is ∙ final-append null xs ((p, e) ∷ ys) ∙ sym (final-append null xs ((p, new) ∷ ys));
    linked =
        Linked-join (write c.heap p _) null xs ((p, new) ∷ ys) null
          (Linked-write c.heap p _ null xs p parts.0 (ground (arith, d.1, has-append p xs ys)))
          (
            parts.1.0,
            write_here c.heap p _,
            Linked-write c.heap p _ p ys null parts.1.2 (ground (arith, d.1, has-append p xs ys)),
          );
    apart = Distinct-entry xs p e new ys h.apart;
    sized = omega (arith, h.sized, length-middle xs p e ys, length-middle xs p new ys);
  }
    where
      parts : Linked c.heap null xs p × Linked c.heap (final null xs) ((p, e) ∷ ys) null
      parts = Linked-split c.heap null xs ((p, e) ∷ ys) null h.linked

      d :
          Distinct (xs ++ ys)
          × (has p (xs ++ ys) ≡ false)
          × Distinct xs
          × Distinct ys
          × ((q : Ptr) → has q xs ≡ true → has q ys ≡ false)
      d = Distinct-split xs p e ys h.apart

  -- A node goes to the front: `removeFromList` and `addToListHead`.
  pub touch_lem :
      {c : Cache V} (xs : Cells V) (p : Ptr) (e : Entry V) (ys : Cells V)
      → Listed c (xs ++ (p, e) ∷ ys)
      → Relisted c
          ((p, e) ∷ (xs ++ ys))
          c.heap
          (remove_from_list c p false >>= λ c1 _. add_to_list_head c1 p)
  touch_lem {c} xs p e ys h =
      let r = remove_lem xs p e ys h in
      let out : has p (xs ++ ys) ≡ false = (Distinct-split xs p e ys h.apart).1 in
      let at = node_at xs p e ys h in
      let a =
        add_lem {c = r.after} (xs ++ ys) p e (first ys null) (final null xs) r.listed out at.0
          (r.spared p out ∙ at.1) in
      record {
        after = a.after;
        returns = rw r.returns a.returns;
        listed = a.listed;
        same_entries = a.same_entries ∙ r.same_entries;
        same_max = a.same_max ∙ r.same_max;
        spared = λ q o. a.spared q o ∙ r.spared q (ground arith);
      }

  -- The cache after a node has gone to the front, with new data or the old.
  pub touched-Holds :
      {c c' : Cache V} (xs : Cells V) (p : Ptr) (e new : Entry V) (ys : Cells V)
      → Holds c (xs ++ (p, e) ∷ ys)
      → new.key ≡ e.key
      → Listed c' ((p, new) ∷ (xs ++ ys))
      → c'.entries ≡ c.entries
      → c'.max_size ≡ c.max_size
      → ((q : Ptr) → has q ((p, new) ∷ (xs ++ ys)) ≡ false → c'.heap q ≡ c.heap q)
      → Holds c' ((p, new) ∷ (xs ++ ys))
  touched-Holds {c} {c'} xs p e new ys h same_key listed entries max spared = record {
    listed = listed;
    finds =
        λ k. ap (λ m. m.find k) entries ∙ h.finds k ∙ place_front xs p e new ys k h.keys same_key;
    keys = (
      ap (λ j. place j (xs ++ ys)) same_key
          ∙ place_rest xs p e ys e.key h.keys
          ∙ rw (eq→== e.key e.key refl),
      DistinctKeys-rest xs p e ys h.keys,
    );
    counted = ap (λ m. m.count) entries ∙ h.counted ∙ length-middle xs p e ys;
    room = rw max h.room;
    live = λ q out. spared q out ∙ h.live q (elsewhere q out);
  }
    where
      elsewhere :
          (q : Ptr) → has q ((p, new) ∷ (xs ++ ys)) ≡ false → has q (xs ++ (p, e) ∷ ys) ≡ false
      elsewhere q out = ground (arith, has-append q xs ys, has-append q xs ((p, e) ∷ ys))

  -- A node at a new address goes to the front, and its key into the hash map.
  pub inserted-Holds :
      {c c' : Cache V} (xs : Cells V) (p : Ptr) (e : Entry V)
      → Holds c xs
      → place e.key xs ≡ none
      → Listed c' ((p, e) ∷ xs)
      → c'.entries ≡ insert c.entries e.key p
      → c'.max_size ≡ c.max_size
      → ((q : Ptr) → has q ((p, e) ∷ xs) ≡ false → c'.heap q ≡ c.heap q)
      → Holds c' ((p, e) ∷ xs)
  unfolding insert
  inserted-Holds {c} {c'} xs p e h new listed entries max spared = record {
    listed = listed;
    finds = λ k. ap (λ m. m.find k) entries ∙ ground (arith, h.finds k);
    keys = (new, h.keys);
    counted = ap (λ m. m.count) entries ∙ rw (h.finds e.key, new) (ap suc h.counted);
    room = rw max h.room;
    live = λ q out. spared q out ∙ h.live q (ground arith);
  }

  -- The address of a node in the list is in use.
  pub Linked-has :
      (h : Heap V) (start : Ptr) (xs : Cells V) (stop q : Ptr)
      → Linked h start xs stop
      → h q ≡ none
      → has q xs ≡ false
  Linked-has h start [] stop q l e = refl
  Linked-has h start ((p, d) ∷ xs) stop q l e = elim (Bool-cases (q == p)) [
    | inl t ↦ absurd (clash t)
    | inr f ↦ ground (arith, f, Linked-has h p xs stop q l.2 e)
  ]
    where
      clash : (q == p) ≡ true → ⊥
      clash t = let i = sym (ap h (==→eq q p t) ∙ l.1) ∙ e in cc
