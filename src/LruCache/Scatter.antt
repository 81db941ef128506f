-- ===== src/LruCache/Scatter.antt =====
-- Any run of the operations of a `CLruCacheV2`, from its constructor on.
use lce.Prelude.{
  ℕ, ◌<◌, ◌≡◌, refl, sym, ap, ◌∙◌, inl, inr, true, false, List, [], ◌∷◌, Option, none, some, ◌==◌,
  ==→eq, if◌then◌else◌, arith, Bool-cases,
}
use lce.LruCache.Recency.{Entry}
use lce.LruCache.Calls.{Caches}
use lce.LruCache.Serve.{
  Call, set_call, get_call, del_call, clear_call, Reply, perform_spec, run_spec, Fresh,
}
use lce.LruCache.Shards.{
  cache_lock_num, index, Shards, build_shards, on_shard, perform_sharded, reaches, reached,
  run_sharded,
}
use lce.LruCache.Spread.{Sharded, build-Sharded, Sharded-cong, on_shard_lem, clear_shards_lem}

module _ {V : Type 0} (hash : ℕ → ℕ) where
  -- the shard that answers a call
  abbrev pub owner : Call V → ℕ
  owner (set_call k v expire now fresh) = index hash k
  owner (get_call k now) = index hash k
  owner (del_call k) = index hash k
  owner clear_call = 0

  -- A call on the entries of every shard: what each shard that it reaches does, and the owner's reply.
  abbrev pub scatter : (ℕ → List (Entry V)) → Call V → (ℕ → List (Entry V)) × Reply V
  scatter es x = (
    λ j. if reaches hash j x then (perform_spec 10000 (es j) x).0 else es j,
    (perform_spec 10000 (es (owner x)) x).1,
  )

  abbrev pub scatter_all :
      (ℕ → List (Entry V)) → List (Call V) → (ℕ → List (Entry V)) × List (Reply V)
  scatter_all es [] = (es, [])
  scatter_all es (x ∷ xs) =
      let (fs, rs) = scatter_all (scatter es x).0 xs in (fs, (scatter es x).1 ∷ rs)

  abbrev pub GoesOn : {A : Type 0} → Option (Shards V × A) → (Shards V → Type 0) → Type 0
  GoesOn none P = Unit {0}
  GoesOn (some t) P = P t.0

  abbrev pub AllocatesAll : Shards V → List (Call V) → Type 0
  AllocatesAll s [] = Unit {0}
  AllocatesAll s (x ∷ xs) =
      Fresh (s.shard (owner x)) x × GoesOn (perform_sharded hash s x) (λ t. AllocatesAll t xs)

  one_shard :
      {s : Shards V} {es : ℕ → List (Entry V)} (k : ℕ) (x : Call V)
      → ((j : ℕ) → reaches hash j x ≡ (j == index hash k))
      → owner x ≡ index hash k
      → Sharded s es
      → Fresh (s.shard (index hash k)) x
      → (t : Shards V) × (on_shard s (index hash k) x ≡ some (t, (scatter es x).1))
        × Sharded t (scatter es x).0
  one_shard {s} {es} k x reach own h new =
      let (t, e, held, others) = on_shard_lem (index hash k) x (omega arith) h new in
      (
        t,
        e ∙ ap (λ i. some (t, (perform_spec 10000 (es i) x).1)) (sym own),
        Sharded-cong (λ j lt. same j) held,
      )
    where
      same :
          (j : ℕ)
          → (if j == index hash k then (perform_spec 10000 (es (index hash k)) x).0 else es j)
            ≡ (if reaches hash j x then (perform_spec 10000 (es j) x).0 else es j)
      same j = elim (Bool-cases (j == index hash k)) [
        | inl t ↦
            rw (t, reach j ∙ t)
              (ap (λ i. (perform_spec 10000 (es i) x).0) (sym (==→eq j (index hash k) t)))
        | inr f ↦ rw (f, reach j ∙ f) refl
      ]

  perform_sharded_lem :
      {s : Shards V} {es : ℕ → List (Entry V)} (x : Call V)
      → Sharded s es
      → Fresh (s.shard (owner x)) x
      → (t : Shards V) × (perform_sharded hash s x ≡ some (t, (scatter es x).1))
        × Sharded t (scatter es x).0
  unfolding perform_sharded
  perform_sharded_lem (set_call k v expire now fresh) h new =
      one_shard k (set_call k v expire now fresh) (λ j. refl) refl h new
  perform_sharded_lem (get_call k now) h new = one_shard k (get_call k now) (λ j. refl) refl h new
  perform_sharded_lem (del_call k) h new = one_shard k (del_call k) (λ j. refl) refl h new
  perform_sharded_lem {s} {es} clear_call h new =
      let (t, e, held) = clear_shards_lem cache_lock_num (omega arith) h in
      (t, rw (perform_sharded, e) refl, Sharded-cong (λ i lt. ground arith) held)

  run_sharded_lem :
      {s : Shards V} {es : ℕ → List (Entry V)} (xs : List (Call V))
      → Sharded s es
      → AllocatesAll s xs
      → (t : Shards V) × (run_sharded hash s xs ≡ some (t, (scatter_all es xs).1))
        × Sharded t (scatter_all es xs).0
  unfolding run_sharded
  run_sharded_lem {s} [] h new = (s, refl, h)
  run_sharded_lem {s} {es} (x ∷ xs) h new =
      let (t, e, held) = perform_sharded_lem x h new.0 in
      let goes : AllocatesAll t xs = rw e at new.1 in
      let (u, e', held') = run_sharded_lem {s = t} {es = (scatter es x).0} xs held goes in
      (u, rw (run_sharded, e, e') refl, held')

  -- A shard takes part in the calls that reach it and in no other.
  scatter-reached :
      (es : ℕ → List (Entry V)) (xs : List (Call V)) (i : ℕ)
      → (scatter_all es xs).0 i ≡ (run_spec 10000 (es i) (reached hash i xs)).0
  scatter-reached es [] i = refl
  scatter-reached es (x ∷ xs) i = elim (Bool-cases (reaches hash i x)) [
    | inl t ↦ rw t (
        scatter-reached (scatter es x).0 xs i
        ∙ ap (λ l. (run_spec 10000 l (reached hash i xs)).0)
            (now_true (perform_spec 10000 (es i) x).0 (es i) t))
    | inr f ↦ rw f (
        scatter-reached (scatter es x).0 xs i
        ∙ ap (λ l. (run_spec 10000 l (reached hash i xs)).0)
            (now_false (perform_spec 10000 (es i) x).0 (es i) f))
  ]
    where
      now_true :
          (a b : List (Entry V)) → reaches hash i x ≡ true → (if reaches hash i x then a else b) ≡ a
      now_true a b t = rw t refl

      now_false :
          (a b : List (Entry V))
          → reaches hash i x ≡ false
          → (if reaches hash i x then a else b) ≡ b
      now_false a b f = rw f refl

  -- From the constructor of a `CLruCacheV2` on, with any hash and as long as `new`, where `set` calls
  -- it, gives an address that is not in use in the shard at that moment, which may be that of a node
  -- just evicted, every run ends without a fault. Every call returns what the shard that owns its key
  -- returns, and each of the 32 shards holds what a single cache holds after those calls alone that
  -- reach the shard: the calls on its keys, and every `clear`.
  pub scatter_refines :
      (n : ℕ) (xs : List (Call V))
      → AllocatesAll (build_shards n) xs
      → (t : Shards V) × (run_sharded hash (build_shards n) xs
          ≡ some (t, (scatter_all (λ i. []) xs).1))
        × ((i : ℕ) → i < 32 → Caches (t.shard i) (run_spec 10000 [] (reached hash i xs)).0)
  scatter_refines n xs new =
      let (t, e, held) = run_sharded_lem xs (build-Sharded n) new in
      (t, e, λ i lt. rw (sym (scatter-reached (λ j. []) xs i)) (held.caches i lt))
