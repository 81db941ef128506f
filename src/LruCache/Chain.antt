-- ===== src/LruCache/Chain.antt =====
-- Doubly linked chains of nodes in the heap.
use lce.Prelude.{
  ◌≡◌, ◌≢◌, refl, sym, ◌∙◌, Bool, true, false, ◌||◌, List, [], ◌∷◌, ◌++◌, Option, some, ◌==◌, arith,
}
use lce.LruCache.{Ptr, null, Node, Heap, write}
use lce.LruCache.Recency.{Entry}

abbrev pub Cells : Type 0 → Type 0
Cells V = List (Ptr × Entry V)

module _ {V : Type 0} where
  abbrev pub node_of : Entry V → Ptr → Ptr → Node V
  node_of e next prev = record {
    ctime = e.ctime;
    expire = e.expire;
    key = e.key;
    value = e.value;
    next = next;
    prev = prev;
  }

  abbrev pub first : Cells V → Ptr → Ptr
  first [] stop = stop
  first ((p, e) ∷ xs) stop = p

  abbrev pub final : Ptr → Cells V → Ptr
  final start [] = start
  final start ((p, e) ∷ xs) = final p xs

  abbrev pub has : Ptr → Cells V → Bool
  has q [] = false
  has q ((p, e) ∷ xs) = (q == p) || has q xs

  abbrev pub Distinct : Cells V → Type 0
  Distinct [] = Unit {0}
  Distinct ((p, e) ∷ xs) = (has p xs ≡ false) × Distinct xs

  -- The nodes of these cells hold their entries and lead to each other in both directions, from
  -- `start` before the first to `stop` behind the last.
  abbrev pub Linked : Heap V → Ptr → Cells V → Ptr → Type 0
  Linked h start [] stop = Unit {0}
  Linked h start ((p, e) ∷ xs) stop =
      (p ≢ null) × (h p ≡ some (node_of e (first xs stop) start)) × Linked h p xs stop

  pub has-append : (q : Ptr) (xs ys : Cells V) → has q (xs ++ ys) ≡ (has q xs || has q ys)
  has-append q [] ys = refl
  has-append q ((p, e) ∷ xs) ys = ground (arith, has-append q xs ys)

  pub first-append :
      (xs ys : Cells V) (stop : Ptr) → first (xs ++ ys) stop ≡ first xs (first ys stop)
  first-append [] ys stop = refl
  first-append ((p, e) ∷ xs) ys stop = refl

  pub final-append :
      (start : Ptr) (xs ys : Cells V) → final start (xs ++ ys) ≡ final (final start xs) ys
  final-append start [] ys = refl
  final-append start ((p, e) ∷ xs) ys = final-append p xs ys

  pub Linked-split :
      (h : Heap V) (start : Ptr) (xs ys : Cells V) (stop : Ptr)
      → Linked h start (xs ++ ys) stop
      → Linked h start xs (first ys stop) × Linked h (final start xs) ys stop
  Linked-split h start [] ys stop l = (tt, l)
  Linked-split h start ((p, e) ∷ xs) ys stop l =
      let (a, b) = Linked-split h p xs ys stop l.2 in
      ((l.0, rw (sym (first-append xs ys stop)) l.1, a), b)

  pub Linked-join :
      (h : Heap V) (start : Ptr) (xs ys : Cells V) (stop : Ptr)
      → Linked h start xs (first ys stop)
      → Linked h (final start xs) ys stop
      → Linked h start (xs ++ ys) stop
  Linked-join h start [] ys stop l m = m
  Linked-join h start ((p, e) ∷ xs) ys stop l m =
      (l.0, rw (first-append xs ys stop) l.1, Linked-join h p xs ys stop l.2 m)

  -- A chain survives every change outside its own nodes.
  pub Linked-frame :
      (h g : Heap V) (start : Ptr) (xs : Cells V) (stop : Ptr)
      → Linked h start xs stop
      → ((q : Ptr) → has q xs ≡ true → g q ≡ h q)
      → Linked g start xs stop
  Linked-frame h g start [] stop l same = tt
  Linked-frame h g start ((p, e) ∷ xs) stop l same = (
    l.0,
    same p (ground arith) ∙ l.1,
    Linked-frame h g p xs stop l.2 (λ q i. same q (ground arith)),
  )

  pub write_other :
      (h : Heap V) (p : Ptr) (n : Option (Node V)) (q : Ptr) → q ≢ p → write h p n q ≡ h q
  unfolding write
  write_other h p n q ne = ground arith

  pub write_here : (h : Heap V) (p : Ptr) (n : Option (Node V)) → write h p n p ≡ n
  unfolding write
  write_here h p n = ground arith

  pub Linked-write :
      (h : Heap V) (p : Ptr) (n : Option (Node V)) (start : Ptr) (xs : Cells V) (stop : Ptr)
      → Linked h start xs stop
      → has p xs ≡ false
      → Linked (write h p n) start xs stop
  Linked-write h p n start xs stop l out =
      Linked-frame h (write h p n) start xs stop l
        (λ q i. write_other h p n q (λ e. absurd_has q e i))
    where
      absurd_has : (q : Ptr) → q ≡ p → has q xs ≡ true → ⊥
      absurd_has q e i = cc

  -- the first node of a chain with another node before it
  pub Linked-first :
      (h : Heap V) (start new p : Ptr) (e : Entry V) (xs : Cells V) (stop : Ptr)
      → Linked h start ((p, e) ∷ xs) stop
      → has p xs ≡ false
      → Linked (write h p (some (node_of e (first xs stop) new))) new ((p, e) ∷ xs) stop
  Linked-first h start new p e xs stop l out = (
    l.0,
    write_here h p _,
    Linked-write h p (some (node_of e (first xs stop) new)) p xs stop l.2 out,
  )

  pub has-final : (p : Ptr) (e : Entry V) (xs : Cells V) → has (final p xs) ((p, e) ∷ xs) ≡ true
  has-final p e [] = ground arith
  has-final p e ((q, d) ∷ xs) = ground (arith, has-final q d xs)

  -- The last node of a chain that is not empty, and the chain with another node behind it.
  pub record Ending (h : Heap V) (start : Ptr) (xs : Cells V) (stop new : Ptr) : Type 0 where
    pub last : Entry V
    pub before : Ptr
    pub not_null : final start xs ≢ null
    pub holds : h (final start xs) ≡ some (node_of last stop before)
    pub relinked : Linked (write h (final start xs) (some (node_of last new before))) start xs new

  pub Linked-Ending :
      (h : Heap V) (start p : Ptr) (e : Entry V) (xs : Cells V) (stop new : Ptr)
      → Linked h start ((p, e) ∷ xs) stop
      → Distinct ((p, e) ∷ xs)
      → Ending h start ((p, e) ∷ xs) stop new
  Linked-Ending h start p e [] stop new l d = record {
    last = e;
    before = start;
    not_null = l.0;
    holds = l.1;
    relinked = (l.0, write_here h p _, tt);
  }
  Linked-Ending h start p e ((q, f) ∷ xs) stop new l d =
      let r = Linked-Ending h p q f xs stop new l.2 d.1 in
      record {
        last = r.last;
        before = r.before;
        not_null = r.not_null;
        holds = r.holds;
        relinked = (
          l.0,
          write_other h (final q xs) _ p (λ i. apart i (has-final q f xs)) ∙ l.1,
          r.relinked,
        );
      }
    where
      apart : p ≡ final q xs → has (final q xs) ((q, f) ∷ xs) ≡ true → ⊥
      apart i t = cc
