-- ===== src/LruCache/Spread.antt =====
-- The shards of a `CLruCacheV2` are caches on their own.
use lce.Prelude.{
  ℕ, zero, suc, ◌+◌, ◌-◌, ◌%◌, ◌/◌, ◌≤◌, ◌<◌, ◌≡◌, ◌≢◌, refl, sym, ◌∙◌, inl, inr, List, [], some,
  ltb, ◌==◌, ne→==, if◌then◌else◌, arith, Bool-cases,
}
use lce.LruCache.Recency.{Entry}
use lce.LruCache.Calls.{Caches, Leaves, build-Caches}
use lce.LruCache.Serve.{Call, clear_call, perform, perform_spec, Fresh, perform_lem}
use lce.LruCache.Shards.{cache_lock_num, Shards, build_shards, on_shard, clear_shards}

module _ {V : Type 0} where
  -- What a shard holds: the entries of a single cache that gets the calls which reach it.
  pub record Sharded (s : Shards V) (es : ℕ → List (Entry V)) : Type 0 where
    pub caches : (i : ℕ) → i < cache_lock_num → Caches (s.shard i) (es i)
    pub limits : (i : ℕ) → i < cache_lock_num → (s.shard i).max_size ≡ 10000

  pub build-Sharded : (n : ℕ) → Sharded (build_shards n) (λ i. [])
  unfolding build_shards
  build-Sharded n = record {
    caches = λ i lt. elim (Bool-cases (i == cache_lock_num - 1)) [
      | inl t ↦ rw t (build-Caches (n / cache_lock_num + n % cache_lock_num)).0
      | inr f ↦ rw f (build-Caches (n / cache_lock_num)).0
    ];
    limits = λ i lt. elim (Bool-cases (i == cache_lock_num - 1)) [
      | inl t ↦ rw t (build-Caches {V = V} (n / cache_lock_num + n % cache_lock_num)).1
      | inr f ↦ rw f (build-Caches {V = V} (n / cache_lock_num)).1
    ];
  }

  -- A shard alone changes, to what a single cache would hold.
  pub on_shard_lem :
      {s : Shards V} {es : ℕ → List (Entry V)} (i : ℕ) (x : Call V)
      → i < cache_lock_num
      → Sharded s es
      → Fresh (s.shard i) x
      → (t : Shards V) × (on_shard s i x ≡ some (t, (perform_spec 10000 (es i) x).1))
        × Sharded t (λ j. if j == i then (perform_spec 10000 (es i) x).0 else es j)
        × ((j : ℕ) → j ≢ i → t.shard j ≡ s.shard j)
  unfolding on_shard
  on_shard_lem {s} {es} i x lt h new =
      let l = perform_lem (es i) x (h.caches i lt) new in
      let l' : Leaves (s.shard i) (perform (s.shard i) x) (perform_spec 10000 (es i) x).0
          (perform_spec 10000 (es i) x).1 =
        rw (sym (h.limits i lt)) l in
      (
        record s { shard = λ j. if j == i then l'.after else s.shard j },
        rw l'.returns refl,
        record {
          caches = λ j le. elim (Bool-cases (j == i)) [
            | inl t ↦ rw t l'.caches
            | inr f ↦ rw f (h.caches j le)
          ];
          limits = λ j le. elim (Bool-cases (j == i)) [
            | inl t ↦ rw t (l'.same_max ∙ h.limits i lt)
            | inr f ↦ rw f (h.limits j le)
          ];
        },
        λ j ne. rw (ne→== j i ne) refl,
      )

  pub Sharded-cong :
      {s : Shards V} {es fs : ℕ → List (Entry V)}
      → ((i : ℕ) → i < cache_lock_num → es i ≡ fs i)
      → Sharded s es
      → Sharded s fs
  Sharded-cong same h = record {
    caches = λ i lt. rw (sym (same i lt)) (h.caches i lt);
    limits = h.limits;
  }

  pub clear_shards_lem :
      {s : Shards V} {es : ℕ → List (Entry V)} (n : ℕ)
      → n ≤ cache_lock_num
      → Sharded s es
      → (t : Shards V) × (clear_shards n s ≡ some t) × Sharded t (λ j. if ltb j n then [] else es j)
  unfolding clear_shards
  clear_shards_lem {s} {es} zero le h = (s, refl, Sharded-cong (λ i lt. ground arith) h)
  clear_shards_lem {s} {es} (suc n) le h =
      let (t, e, held) = clear_shards_lem n (omega arith) h in
      let (u, e', held', others) = on_shard_lem n clear_call (omega arith) held tt in
      (u, rw (e, e') refl, Sharded-cong (λ i lt. both i) held')
    where
      both :
          (i : ℕ)
          → (if i == n then [] else (if ltb i n then [] else es i))
            ≡ (if ltb i (suc n) then [] else es i)
      both i = ground arith
