-- ===== src/LruCache/Serve.antt =====
-- Any run of the operations of a `CLruCache`, from its constructor on.
use lce.Prelude.{
  ℕ, ◌+◌, ◌-◌, ◌≤◌, ◌<◌, ◌≡◌, refl, sym, ap, ◌∙◌, inl, inr, Bool, true, List, [], ◌∷◌, length,
  length-take, Option, some, arith, Option-cases,
}
use lce.LruCache.{
  Ptr, Cache, Outcome, ok, ◌>>=◌, build, make_room, set, get, del, clear, get_size,
  cache_remove_num,
}
use lce.LruCache.Recency.{Entry, lookup, without, shrunk, set_spec, get_spec}
use lce.LruCache.Keys.{length-entries_of}
use lce.LruCache.Calls.{Caches, Leaves, Goes, Unused, build-Caches, clear_lem}
use lce.LruCache.Refine.{set_lem, get_lem, del_lem}

-- A call of the cache; `now` and `fresh` are what `time(0)` and `new SNode` give during the call.
pub data Call (V : Type 0) : Type 0 where
  set_call : (k : ℕ) (v : V) (expire now : ℕ) (fresh : Ptr) → Call V
  get_call : (k now : ℕ) → Call V
  del_call : (k : ℕ) → Call V
  clear_call : Call V

pub data Reply (V : Type 0) : Type 0 where
  done : Bool → Reply V
  found : Option V → Reply V

module _ {V : Type 0} where
  abbrev pub perform : Cache V → Call V → Outcome V (Reply V)
  perform c (set_call k v expire now fresh) = set c k v expire now fresh >>= λ c b. ok c (done b)
  perform c (get_call k now) = get c k now >>= λ c v. ok c (found v)
  perform c (del_call k) = del c k >>= λ c b. ok c (done b)
  perform c clear_call = clear c >>= λ c _. ok c (done true)

  abbrev pub run : Cache V → List (Call V) → Outcome V (List (Reply V))
  run c [] = ok c []
  run c (x ∷ xs) = perform c x >>= λ c r. run c xs >>= λ c rs. ok c (r ∷ rs)

  -- the same on the entries, the one used last in front
  abbrev pub perform_spec : ℕ → List (Entry V) → Call V → List (Entry V) × Reply V
  perform_spec limit es (set_call k v expire now fresh) =
      (set_spec limit es k v expire now, done true)
  perform_spec limit es (get_call k now) = ((get_spec es k now).0, found (get_spec es k now).1)
  perform_spec limit es (del_call k) = (without k es, done true)
  perform_spec limit es clear_call = ([], done true)

  abbrev pub run_spec : ℕ → List (Entry V) → List (Call V) → List (Entry V) × List (Reply V)
  run_spec limit es [] = (es, [])
  run_spec limit es (x ∷ xs) =
      let (es1, r) = perform_spec limit es x in
      let (es2, rs) = run_spec limit es1 xs in (es2, r ∷ rs)

  -- If `set` calls `new`, then after it has given back the nodes that it evicts; `new` gives an address
  -- that is not `NULL` and not in use at that moment, which may be that of a node given back before.
  abbrev pub Fresh : Cache V → Call V → Type 0
  Fresh c (set_call k v expire now fresh) =
      Goes (make_room c) (λ c1. Unused (c1.entries.find k) c1 fresh)
  Fresh c _ = Unit {0}

  abbrev pub Allocates : Cache V → List (Call V) → Type 0
  Allocates c [] = Unit {0}
  Allocates c (x ∷ xs) = Fresh c x × Goes (perform c x) (λ c1. Allocates c1 xs)

  then_reply :
      {A : Type 0} {c : Cache V} {o : Outcome V A} {es : List (Entry V)} {a : A} (f : A → Reply V)
      → Leaves c o es a
      → Leaves c (o >>= λ c b. ok c (f b)) es (f a)
  then_reply f l = record {
    after = l.after;
    returns = rw l.returns refl;
    caches = l.caches;
    same_max = l.same_max;
  }

  pub perform_lem :
      {c : Cache V} (es : List (Entry V)) (x : Call V)
      → Caches c es
      → Fresh c x
      → Leaves c (perform c x) (perform_spec c.max_size es x).0 (perform_spec c.max_size es x).1
  perform_lem {c} es (set_call k v expire now fresh) h new =
      then_reply done (rw (sym h.are) (set_lem h.cells k v expire now fresh h.holds new))
  perform_lem es (get_call k now) h new =
      then_reply found (rw (sym h.are) (get_lem h.cells k now h.holds))
  perform_lem es (del_call k) h new = then_reply done (rw (sym h.are) (del_lem h.cells k h.holds))
  perform_lem es clear_call h new = then_reply (λ _. done true) (clear_lem h.cells h.holds)

  run_lem :
      {c : Cache V} (es : List (Entry V)) (xs : List (Call V))
      → Caches c es
      → Allocates c xs
      → Leaves c (run c xs) (run_spec c.max_size es xs).0 (run_spec c.max_size es xs).1
  run_lem {c} es [] h new = record { after = c; returns = refl; caches = h; same_max = refl }
  run_lem {c} es (x ∷ xs) h new =
      let l = perform_lem es x h new.0 in
      let goes : Allocates l.after xs = rw l.returns at new.1 in
      let r = run_lem {c = l.after} (perform_spec c.max_size es x).0 xs l.caches goes in
      rw l.same_max at (continued x xs l r)
    where
      continued :
          {es1 es2 : List (Entry V)} {a : Reply V} {rs : List (Reply V)} (x : Call V)
          (xs : List (Call V)) (l : Leaves c (perform c x) es1 a)
          → Leaves l.after (run l.after xs) es2 rs
          → Leaves c (run c (x ∷ xs)) es2 (a ∷ rs)
      continued x xs l r = record {
        after = r.after;
        returns = rw (l.returns, r.returns) refl;
        caches = r.caches;
        same_max = r.same_max ∙ l.same_max;
      }

  -- From its constructor on, and as long as `new`, where `set` calls it, gives an address that is not in use
  -- at that moment, which may be that of a node just evicted, every run of the operations comes to an end without a use of an address that holds no node, every call returns what
  -- it returns on a list of entries in the order of their last use, and the cache holds those entries
  -- in the end. The limit is 10000, whatever the constructor was asked for.
  pub serve_in_order :
      (n : ℕ) (xs : List (Call V))
      → Allocates (build n) xs
      → Leaves (build n) (run (build n) xs) (run_spec 10000 [] xs).0 (run_spec 10000 [] xs).1
  unfolding build
  serve_in_order n xs new = let (empty, max) = build-Caches n in rw max at (run_lem [] xs empty new)

  length-without : (k : ℕ) (es : List (Entry V)) → length (without k es) ≤ length es
  length-without k [] = omega arith
  length-without k (e ∷ es) = ground (arith, length-without k es)

  length-shrunk :
      (limit : ℕ) (es : List (Entry V)) → length es ≤ limit + 1 → length (shrunk limit es) ≤ limit
  length-shrunk limit es le = ground (arith, length-take (length es - cache_remove_num) es)

  -- A key that is found goes away.
  lookup-length :
      (k : ℕ) (es : List (Entry V)) (e : Entry V)
      → lookup k es ≡ some e
      → length (without k es) < length es
  lookup-length k [] e i = absurd (cc)
  lookup-length k (f ∷ es) e i = ground (arith, i, length-without k es, lookup-length k es e)

  length-get_spec : (es : List (Entry V)) (k now : ℕ) → length (get_spec es k now).0 ≤ length es
  length-get_spec es k now = elim (Option-cases (lookup k es)) [
    | inl e ↦ rw (get_spec, e) (omega arith)
    | inr (f, e) ↦ rw (get_spec, e) (ground (arith, lookup-length k es f e))
  ]

  length-perform_spec :
      (limit : ℕ) (es : List (Entry V)) (x : Call V)
      → length es ≤ limit + 1
      → length (perform_spec limit es x).0 ≤ limit + 1
  length-perform_spec limit es (set_call k v expire now fresh) le =
      omega (arith, length-without k (shrunk limit es), length-shrunk limit es le)
  length-perform_spec limit es (get_call k now) le = omega (arith, length-get_spec es k now)
  length-perform_spec limit es (del_call k) le = omega (arith, length-without k es)
  length-perform_spec limit es clear_call le = omega arith

  length-run_spec :
      (limit : ℕ) (es : List (Entry V)) (xs : List (Call V))
      → length es ≤ limit + 1
      → length (run_spec limit es xs).0 ≤ limit + 1
  length-run_spec limit es [] le = le
  length-run_spec limit es (x ∷ xs) le =
      length-run_spec limit (perform_spec limit es x).0 xs (length-perform_spec limit es x le)

  Caches-count :
      {c : Cache V} {es : List (Entry V)}
      → Caches c es
      → (c.entries.count ≡ length es) × (c.list_size ≡ length es)
  Caches-count h =
      let n = sym (length-entries_of h.cells) ∙ ap length h.are in
      (h.holds.counted ∙ n, h.holds.listed.sized ∙ n)

  -- After every run from the constructor on, in which `new`, where `set` calls it, gives an address that is
  -- not in use at that moment, which may be that of a node just evicted, `getSize` is the number of the nodes of the list, `m_dwSize`,
  -- and at most 10001: one more than the limit, which `set` looks at before it adds.
  pub serve_bound :
      (n : ℕ) (xs : List (Call V)) (c : Cache V) (rs : List (Reply V))
      → Allocates (build n) xs
      → run (build n) xs ≡ ok c rs
      → (get_size c ≡ c.list_size) × (get_size c ≤ 10001)
  unfolding get_size
  serve_bound n xs c rs new e =
      let l = serve_in_order n xs new in
      let same : l.after ≡ c = cc in
      let counts = Caches-count (rw same at l.caches) in
      (counts.0 ∙ sym counts.1, omega (arith, counts.0, length-run_spec 10000 [] xs (omega arith)))
