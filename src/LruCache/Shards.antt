-- ===== src/LruCache/Shards.antt =====
-- `CLruCacheV2` of include/CLruCache.h: 32 caches, each with its own lock, and a key belongs to one of
-- them by its hash. `hash` is the library's `Hash` of the key.
use lce.Prelude.{
  ℕ, zero, suc, ◌+◌, ◌-◌, ◌%◌, ◌/◌, Bool, true, List, [], ◌∷◌, Option, none, some, ◌==◌,
  if◌then◌else◌,
}
use lce.LruCache.{Cache, Outcome, ok, build, get_size}
use lce.LruCache.Serve.{Call, set_call, get_call, del_call, clear_call, Reply, done, perform}

abbrev pub cache_lock_num : ℕ
cache_lock_num = 32

-- `Hash(tKey) % CACHE_LOCK_NUM`
abbrev pub index : (ℕ → ℕ) → ℕ → ℕ
index hash k = hash k % cache_lock_num

pub record Shards (V : Type 0) : Type 0 where
  pub shard : ℕ → Cache V
  pub max_size : ℕ

module _ {V : Type 0} where
  -- `none`: an operation of a shard faults or does not end.
  abbrev finished : {A B : Type 0} → Outcome V A → (Cache V → A → B) → Option B
  finished (ok c a) f = some (f c a)
  finished _ f = none

  unfoldable pub build_shards : ℕ → Shards V
  build_shards n = record {
    shard = λ i.
        if i == cache_lock_num - 1
        then build (n / cache_lock_num + n % cache_lock_num)
        else build (n / cache_lock_num);
    max_size = n;
  }

  -- `set`, `get` and `del`: the call goes to one shard.
  unfoldable pub on_shard : Shards V → ℕ → Call V → Option (Shards V × Reply V)
  on_shard s i x =
      finished (perform (s.shard i) x)
        (λ c r. (record s { shard = λ j. if j == i then c else s.shard j }, r))

  -- the loop of `clear` over the first shards
  unfoldable pub clear_shards : ℕ → Shards V → Option (Shards V)
  clear_shards zero s = some s
  clear_shards (suc n) s = elim (clear_shards n s) [
    | none ↦ none
    | some t ↦ elim (on_shard t n clear_call) [ none ↦ none | some u ↦ some u.0 ]
  ]

  -- the loop of `getSize`
  unfoldable pub size_of_shards : ℕ → Shards V → ℕ
  size_of_shards zero s = 0
  size_of_shards (suc n) s = size_of_shards n s + get_size (s.shard n)

  module _ (hash : ℕ → ℕ) where
    unfoldable pub perform_sharded : Shards V → Call V → Option (Shards V × Reply V)
    perform_sharded s (set_call k v expire now fresh) =
        on_shard s (index hash k) (set_call k v expire now fresh)
    perform_sharded s (get_call k now) = on_shard s (index hash k) (get_call k now)
    perform_sharded s (del_call k) = on_shard s (index hash k) (del_call k)
    perform_sharded s clear_call = elim (clear_shards cache_lock_num s) [
      | none ↦ none
      | some t ↦ some (t, done true)
    ]

    -- the shards that a call reaches
    abbrev pub reaches : ℕ → Call V → Bool
    reaches i (set_call k v expire now fresh) = i == index hash k
    reaches i (get_call k now) = i == index hash k
    reaches i (del_call k) = i == index hash k
    reaches i clear_call = true

    abbrev pub reached : ℕ → List (Call V) → List (Call V)
    reached i [] = []
    reached i (x ∷ xs) = let rest = reached i xs in if reaches i x then x ∷ rest else rest

    unfoldable pub run_sharded : Shards V → List (Call V) → Option (Shards V × List (Reply V))
    run_sharded s [] = some (s, [])
    run_sharded s (x ∷ xs) = elim (perform_sharded s x) [
      | none ↦ none
      | some t ↦ elim (run_sharded t.0 xs) [ none ↦ none | some u ↦ some (u.0, t.1 ∷ u.1) ]
    ]
