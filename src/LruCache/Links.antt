-- ===== src/LruCache/Links.antt =====
-- The list operations of `CLruCache` on the chain of its nodes.
use lce.Prelude.{
  ◌+◌, ◌≡◌, ◌≢◌, refl, sym, ap, ◌∙◌, true, false, [], ◌∷◌, ◌++◌, length, none, some, eq→==, ne→==,
  arith,
}
use lce.LruCache.{
  Ptr, null, Node, Heap, Cache, Outcome, ok, write, read, modify, free, add_to_list_head,
}
use lce.LruCache.Recency.{Entry}
use lce.LruCache.Chain.{
  Cells, node_of, first, final, has, Distinct, Linked, has-append, Linked-split, write_other,
  write_here, Linked-write, Linked-first,
}

module _ {V : Type 0} where
  -- The list of the cache is made of these cells.
  pub record Listed (c : Cache V) (xs : Cells V) : Type 0 where
    pub head_is : c.head ≡ first xs null
    pub tail_is : c.tail ≡ final null xs
    pub linked : Linked c.heap null xs null
    pub apart : Distinct xs
    pub sized : c.list_size ≡ length xs

  -- What a list operation leaves: the new cells, and outside them the heap given.
  pub record Relisted (c : Cache V) (xs : Cells V) (g : Heap V) (o : Outcome V (Unit {0}))
      : Type 0 where
    pub after : Cache V
    pub returns : o ≡ ok after tt
    pub listed : Listed after xs
    pub same_entries : after.entries ≡ c.entries
    pub same_max : after.max_size ≡ c.max_size
    pub spared : (q : Ptr) → has q xs ≡ false → after.heap q ≡ g q

  pub read_lem :
      (c : Cache V) (p : Ptr) (n : Node V) → p ≢ null → c.heap p ≡ some n → read c p ≡ ok c n
  unfolding read
  read_lem c p n ne e = rw (ne→== p null ne, e)

  pub modify_lem :
      (c : Cache V) (p : Ptr) (n : Node V) (f : Node V → Node V)
      → p ≢ null
      → c.heap p ≡ some n
      → modify c p f ≡ ok (record c { heap = write c.heap p (some (f n)) }) tt
  unfolding modify
  modify_lem c p n f ne e = rw (read_lem c p n ne e)

  pub free_lem :
      (c : Cache V) (p : Ptr) (n : Node V)
      → p ≢ null
      → c.heap p ≡ some n
      → free c p ≡ ok (record c { heap = write c.heap p none }) tt
  unfolding free
  free_lem c p n ne e = rw (read_lem c p n ne e)

  pub Distinct-split :
      (xs : Cells V) (p : Ptr) (e : Entry V) (ys : Cells V)
      → Distinct (xs ++ (p, e) ∷ ys)
      → Distinct (xs ++ ys)
        × (has p (xs ++ ys) ≡ false)
        × Distinct xs
        × Distinct ys
        × ((q : Ptr) → has q xs ≡ true → has q ys ≡ false)
  Distinct-split [] p e ys d = (d.1, d.0, tt, d.1, λ q i. cc)
  Distinct-split ((r, f) ∷ xs) p e ys d =
      let (both, out, one, two, disjoint) = Distinct-split xs p e ys d.1 in
      let r_out = has-append r xs ((p, e) ∷ ys) in
      let r_both = has-append r xs ys in
      (
        (ground (arith, d.0), both),
        ground (arith, d.0),
        (ground (arith, d.0), one),
        two,
        λ q i. ground (arith, d.0, disjoint q),
      )

  -- `addToListHead` of a node outside the list
  pub add_lem :
      {c : Cache V} (xs : Cells V) (p : Ptr) (e : Entry V) (next prev : Ptr)
      → Listed c xs
      → has p xs ≡ false
      → p ≢ null
      → c.heap p ≡ some (node_of e next prev)
      → Relisted c ((p, e) ∷ xs) c.heap (add_to_list_head c p)
  unfolding add_to_list_head
  add_lem {c} [] p e next prev h out ne is = record {
    after = record c {
      heap = write c.heap p (some (node_of e null null));
      head = p;
      tail = p;
      list_size = c.list_size + 1;
    };
    returns = rw (
      eq→== c.head null h.head_is,
      modify_lem c p (node_of e next prev) (λ n. record n { next = null; prev = null }) ne is,
    );
    listed = record {
      head_is = refl;
      tail_is = refl;
      linked = (ne, write_here c.heap p _, tt);
      apart = (refl, tt);
      sized = omega (arith, h.sized);
    };
    same_entries = refl;
    same_max = refl;
    spared = λ q o. write_other c.heap p _ q (ground arith);
  }
  add_lem {c} ((r, f) ∷ xs) p e next prev h out ne is = record {
    after = record c {
      heap = write h1 r (some (node_of f (first xs null) p));
      head = p;
      list_size = c.list_size + 1;
    };
    returns =
        ap (λ k. add_to_list_head (record c { head = k }) p) h.head_is
        ∙ rw (
          ne→== r null h.linked.0,
          modify_lem (record c { head = r }) p (node_of e next prev)
              (λ n. record n { next = r; prev = null }) ne is,
          modify_lem (record c { head = r; heap = h1 }) r (node_of f (first xs null) null)
              (λ n. record n { prev = p }) h.linked.0 here,
        );
    listed = record {
      head_is = refl;
      tail_is = h.tail_is;
      linked = (
        ne,
        write_other h1 r _ p p_ne ∙ write_here c.heap p _,
        Linked-first h1 null p r f xs null
            (Linked-write c.heap p _ null ((r, f) ∷ xs) null h.linked out) h.apart.0,
      );
      apart = (out, h.apart);
      sized = omega (arith, h.sized);
    };
    same_entries = refl;
    same_max = refl;
    spared = λ q o. write_other h1 r _ q (ground arith) ∙ write_other c.heap p _ q (ground arith);
  }
    where
      h1 : Heap V
      h1 = write c.heap p (some (node_of e r null))

      p_ne : p ≢ r
      p_ne = ground arith

      here : h1 r ≡ some (node_of f (first xs null) null)
      here = write_other c.heap p _ r (λ i. p_ne (sym i)) ∙ h.linked.1

  -- The node of a cell in the middle of the chain.
  pub node_at :
      {c : Cache V} (xs : Cells V) (p : Ptr) (e : Entry V) (ys : Cells V)
      → Listed c (xs ++ (p, e) ∷ ys)
      → (p ≢ null) × (c.heap p ≡ some (node_of e (first ys null) (final null xs)))
  node_at {c} xs p e ys h =
      let l = (Linked-split c.heap null xs ((p, e) ∷ ys) null h.linked).1 in (l.0, l.1)
