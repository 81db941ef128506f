-- ===== src/LruCache/Unlinks.antt =====
-- Taking a node of a `CLruCache` out of its chain.
use lce.Prelude.{
  suc, ◌-◌, ◌≡◌, ◌≢◌, refl, sym, ap, ◌∙◌, true, false, [], ◌∷◌, ◌++◌, append-nil, length,
  length-append, none, some, ne→==, arith,
}
use lce.LruCache.{
  Ptr, null, Heap, Cache, ok, write, drop_tail, remove_from_list_tail, unlink, remove_from_list,
}
use lce.LruCache.Recency.{Entry}
use lce.LruCache.Chain.{
  Cells, node_of, first, final, has, Distinct, Linked, has-append, final-append, Linked-split,
  Linked-join, write_other, Linked-write, Linked-first, Ending, Linked-Ending, has-final,
}
use lce.LruCache.Links.{Listed, Relisted, Distinct-split, read_lem, modify_lem, free_lem, node_at}

module _ {V : Type 0} where
  -- `removeFromList` takes a node out of the list and leaves the node itself alone.
  unlink_lem :
      {c : Cache V} (xs : Cells V) (p : Ptr) (e : Entry V) (ys : Cells V)
      → Listed c (xs ++ (p, e) ∷ ys)
      → (c' : Cache V) × (unlink c (node_of e (first ys null) (final null xs)) ≡ ok c' tt)
        × (c'.head ≡ first (xs ++ ys) null)
        × (c'.tail ≡ final null (xs ++ ys))
        × Linked c'.heap null (xs ++ ys) null
        × (c'.list_size ≡ c.list_size)
        × (c'.entries ≡ c.entries)
        × (c'.max_size ≡ c.max_size)
        × ((q : Ptr) → has q (xs ++ ys) ≡ false → c'.heap q ≡ c.heap q)
  unfolding unlink
  unlink_lem {c} [] p e [] h =
      (record c { head = null; tail = null }, refl, refl, refl, tt, refl, refl, refl, λ q o. refl)
  unlink_lem {c} [] p e ((r, f) ∷ ys) h = (
    record c { head = r; heap = write c.heap r (some (node_of f (first ys null) null)) },
    rw (
      ne→== r null h.linked.2.0,
      modify_lem (record c { head = r }) r (node_of f (first ys null) p)
          (λ m. record m { prev = null }) h.linked.2.0 h.linked.2.1,
    ),
    refl,
    h.tail_is,
    Linked-first c.heap p null r f ys null h.linked.2 h.apart.1.0,
    refl,
    refl,
    refl,
    λ q o. write_other c.heap r _ q (ground arith),
  )
  unlink_lem {c} ((l, d) ∷ xs) p e [] h = (
    record c {
      tail = final l xs;
      heap = write c.heap (final l xs) (some (node_of ending.last null ending.before));
    },
    rw (
      ne→== (final l xs) null ending.not_null,
      modify_lem (record c { tail = final l xs }) (final l xs) (node_of ending.last p ending.before)
          (λ m. record m { next = null }) ending.not_null ending.holds,
    ),
    h.head_is,
    ap (final l) (sym (append-nil xs)),
    rw (append-nil xs) ending.relinked,
    refl,
    refl,
    refl,
    λ q o. write_other c.heap (final l xs) _ q (λ i. outside q i o),
  )
    where
      parts : Linked c.heap null ((l, d) ∷ xs) p × Linked c.heap (final l xs) ((p, e) ∷ []) null
      parts = Linked-split c.heap null ((l, d) ∷ xs) ((p, e) ∷ []) null h.linked

      distinct : Distinct ((l, d) ∷ xs)
      distinct = (Distinct-split ((l, d) ∷ xs) p e [] h.apart).2

      ending : Ending c.heap null ((l, d) ∷ xs) p null
      ending = Linked-Ending c.heap null l d xs p null parts.0 distinct

      outside : (q : Ptr) → q ≡ final l xs → has q ((l, d) ∷ (xs ++ [])) ≡ false → ⊥
      outside q i o = ground (arith, append-nil xs, has-final l d xs)
  unlink_lem {c} ((l, d) ∷ xs) p e ((r, f) ∷ ys) h = (
    record c { heap = h2 },
    rw (
      ne→== r null parts.1.2.0,
      ne→== (final l xs) null ending.not_null,
      modify_lem c r (node_of f (first ys null) p) (λ m. record m { prev = final l xs }) parts.1.2.0
          parts.1.2.1,
      modify_lem (record c { heap = h1 }) (final l xs) (node_of ending.last p ending.before)
          (λ m. record m { next = r }) ending.not_null ending.holds,
    ),
    h.head_is,
    h.tail_is ∙ final-append l xs ((p, e) ∷ (r, f) ∷ ys) ∙ sym (final-append l xs ((r, f) ∷ ys)),
    Linked-join h2 null ((l, d) ∷ xs) ((r, f) ∷ ys) null ending.relinked (
        Linked-write h1 (final l xs) _ (final l xs) ((r, f) ∷ ys) null
          (Linked-first c.heap p (final l xs) r f ys null parts.1.2 distinct.3.0)
          (distinct.4 (final l xs) (has-final l d xs))),
    refl,
    refl,
    refl,
    λ q o.
        write_other h1 (final l xs) _ q (λ i. not_left q i o)
        ∙ write_other c.heap r _ q (λ i. not_right q i o),
  )
    where
      parts :
          Linked c.heap null ((l, d) ∷ xs) p
          × Linked c.heap (final l xs) ((p, e) ∷ (r, f) ∷ ys) null
      parts = Linked-split c.heap null ((l, d) ∷ xs) ((p, e) ∷ (r, f) ∷ ys) null h.linked

      distinct :
          Distinct (((l, d) ∷ xs) ++ (r, f) ∷ ys)
          × (has p (((l, d) ∷ xs) ++ (r, f) ∷ ys) ≡ false)
          × Distinct ((l, d) ∷ xs)
          × Distinct ((r, f) ∷ ys)
          × ((q : Ptr) → has q ((l, d) ∷ xs) ≡ true → has q ((r, f) ∷ ys) ≡ false)
      distinct = Distinct-split ((l, d) ∷ xs) p e ((r, f) ∷ ys) h.apart

      h1 : Heap V
      h1 = write c.heap r (some (node_of f (first ys null) (final l xs)))

      r_out : has r ((l, d) ∷ xs) ≡ false
      r_out = ground (arith, distinct.4 r)

      ending : Ending h1 null ((l, d) ∷ xs) p r
      ending =
          Linked-Ending h1 null l d xs p r
            (Linked-write c.heap r _ null ((l, d) ∷ xs) p parts.0 r_out) distinct.2

      h2 : Heap V
      h2 = write h1 (final l xs) (some (node_of ending.last r ending.before))

      not_left : (q : Ptr) → q ≡ final l xs → has q ((l, d) ∷ (xs ++ (r, f) ∷ ys)) ≡ false → ⊥
      not_left q i o = ground (arith, has-append q xs ((r, f) ∷ ys), has-final l d xs)

      not_right : (q : Ptr) → q ≡ r → has q ((l, d) ∷ (xs ++ (r, f) ∷ ys)) ≡ false → ⊥
      not_right q i o = ground (arith, has-append q xs ((r, f) ∷ ys))

  length-middle :
      (xs : Cells V) (p : Ptr) (e : Entry V) (ys : Cells V)
      → length (xs ++ (p, e) ∷ ys) ≡ suc (length (xs ++ ys))
  length-middle xs p e ys = omega (arith, length-append xs ((p, e) ∷ ys), length-append xs ys)

  -- `removeFromList(node, false)`: the list goes on without the node.
  pub remove_lem :
      {c : Cache V} (xs : Cells V) (p : Ptr) (e : Entry V) (ys : Cells V)
      → Listed c (xs ++ (p, e) ∷ ys)
      → Relisted c (xs ++ ys) c.heap (remove_from_list c p false)
  unfolding remove_from_list
  remove_lem {c} xs p e ys h =
      let (ne, is) = node_at xs p e ys h in
      let (c', u, head', tail', linked', size', entries', max', spared') = unlink_lem xs p e ys h in
      record {
        after = record c' { list_size = c'.list_size - 1 };
        returns = rw (read_lem c p (node_of e (first ys null) (final null xs)) ne is, u);
        listed = record {
          head_is = head';
          tail_is = tail';
          linked = linked';
          apart = (Distinct-split xs p e ys h.apart).0;
          sized = omega (arith, size', h.sized, length-middle xs p e ys);
        };
        same_entries = entries';
        same_max = max';
        spared = spared';
      }

  -- `removeFromList(node, true)`: the node is given back as well.
  pub delete_lem :
      {c : Cache V} (xs : Cells V) (p : Ptr) (e : Entry V) (ys : Cells V)
      → Listed c (xs ++ (p, e) ∷ ys)
      → Relisted c (xs ++ ys) (write c.heap p none) (remove_from_list c p true)
  unfolding remove_from_list
  delete_lem {c} xs p e ys h =
      let (ne, is) = node_at xs p e ys h in
      let (c', u, head', tail', linked', size', entries', max', spared') = unlink_lem xs p e ys h in
      let out : has p (xs ++ ys) ≡ false = (Distinct-split xs p e ys h.apart).1 in
      record {
        after = record c' { list_size = c'.list_size - 1; heap = write c'.heap p none };
        returns = rw (
          read_lem c p (node_of e (first ys null) (final null xs)) ne is,
          u,
          free_lem (record c' { list_size = c'.list_size - 1 }) p
              (node_of e (first ys null) (final null xs)) ne (spared' p out ∙ is),
        );
        listed = record {
          head_is = head';
          tail_is = tail';
          linked = Linked-write c'.heap p none null (xs ++ ys) null linked' out;
          apart = (Distinct-split xs p e ys h.apart).0;
          sized = omega (arith, size', h.sized, length-middle xs p e ys);
        };
        same_entries = entries';
        same_max = max';
        spared = λ q o. write_same c'.heap c.heap p q (spared' q o);
      }
    where
      write_same : (h g : Heap V) (p q : Ptr) → h q ≡ g q → write h p none q ≡ write g p none q
      write_same h g p q i = unfold write in ground (arith, i)

  -- `removeFromListTail` of a list with at least two nodes gives the last one back.
  pub remove_tail_lem :
      {c : Cache V} (l : Ptr) (d : Entry V) (xs : Cells V) (p : Ptr) (e : Entry V)
      → Listed c ((l, d) ∷ (xs ++ (p, e) ∷ []))
      → Relisted c ((l, d) ∷ xs) (write c.heap p none) (remove_from_list_tail c)
  unfolding remove_from_list_tail drop_tail
  remove_tail_lem {c} l d xs p e h = record {
    after = record c { tail = final l xs; list_size = c.list_size - 1; heap = write h1 p none };
    returns =
        ap (λ k. remove_from_list_tail (record c { tail = k })) tail_is
        ∙ rw (
          ne→== p null at.0,
          read_lem (record c { tail = p }) p (node_of e null (final l xs)) at.0 at.1,
          ne→== (final l xs) null ending.not_null,
          modify_lem (record c { tail = final l xs }) (final l xs)
              (node_of ending.last p ending.before) (λ m. record m { next = null }) ending.not_null
              ending.holds,
          free_lem (record c { tail = final l xs; list_size = c.list_size - 1; heap = h1 }) p
              (node_of e null (final l xs)) at.0
              (write_other c.heap (final l xs) _ p (λ i. apart i) ∙ at.1),
        );
    listed = record {
      head_is = h.head_is;
      tail_is = refl;
      linked = Linked-write h1 p none null ((l, d) ∷ xs) null ending.relinked p_out;
      apart = distinct.2;
      sized = omega (arith, h.sized, length-append xs ((p, e) ∷ []));
    };
    same_entries = refl;
    same_max = refl;
    spared = λ q o. write_through q o;
  }
    where
      at : (p ≢ null) × (c.heap p ≡ some (node_of e null (final l xs)))
      at = node_at ((l, d) ∷ xs) p e [] h

      parts : Linked c.heap null ((l, d) ∷ xs) p × Linked c.heap (final l xs) ((p, e) ∷ []) null
      parts = Linked-split c.heap null ((l, d) ∷ xs) ((p, e) ∷ []) null h.linked

      distinct :
          Distinct ((l, d) ∷ (xs ++ []))
          × (has p ((l, d) ∷ (xs ++ [])) ≡ false)
          × Distinct ((l, d) ∷ xs)
          × Unit {0}
          × ((q : Ptr) → has q ((l, d) ∷ xs) ≡ true → false ≡ false)
      distinct = Distinct-split ((l, d) ∷ xs) p e [] h.apart

      p_out : has p ((l, d) ∷ xs) ≡ false
      p_out = rw (sym (append-nil xs)) distinct.1

      ending : Ending c.heap null ((l, d) ∷ xs) p null
      ending = Linked-Ending c.heap null l d xs p null parts.0 distinct.2

      h1 : Heap V
      h1 = write c.heap (final l xs) (some (node_of ending.last null ending.before))

      apart : p ≡ final l xs → ⊥
      apart i = ground (arith, has-final l d xs, p_out)

      tail_is : c.tail ≡ p
      tail_is = h.tail_is ∙ final-append l xs ((p, e) ∷ [])

      write_through :
          (q : Ptr) → has q ((l, d) ∷ xs) ≡ false → write h1 p none q ≡ write c.heap p none q
      write_through q o =
          unfold write in
          ground (
            arith,
            write_other c.heap (final l xs) (some (node_of ending.last null ending.before)) q,
            has-final l d xs,
          )
