-- ===== src/LruCache/Recency.antt =====
-- What a client of `CLruCache` may rely on: the entries in the order of their last use, the newest
-- first.
use lce.Prelude.{
  ℕ, ◌-◌, ◌+◌, ◌%◌, ◌^◌, Bool, not, ◌&&◌, List, [], ◌∷◌, length, take, Option, none, some, ltb,
  ◌==◌, if◌then◌else◌,
}
use lce.LruCache.{cache_remove_num}

pub record Entry (V : Type 0) : Type 0 where
  pub key : ℕ
  pub ctime : ℕ
  pub expire : ℕ
  pub value : V

module _ {V : Type 0} where
  abbrev pub lookup : ℕ → List (Entry V) → Option (Entry V)
  lookup k [] = none
  lookup k (e ∷ es) = if e.key == k then some e else lookup k es

  abbrev pub without : ℕ → List (Entry V) → List (Entry V)
  without k [] = []
  without k (e ∷ es) = let rest = without k es in if e.key == k then rest else e ∷ rest

  -- An entry has expired if it has a lifetime, and more than that has passed, modulo 2^32.
  abbrev pub expired : ℕ → Entry V → Bool
  expired now e = not (e.expire == 0) && ltb e.expire ((now + 2 ^ 32 - e.ctime) % 2 ^ 32)

  -- More than `limit` entries: the fifty that were used longest ago go.
  abbrev pub shrunk : ℕ → List (Entry V) → List (Entry V)
  shrunk limit es = if ltb limit (length es) then take (length es - cache_remove_num) es else es

  abbrev pub set_spec : ℕ → List (Entry V) → ℕ → V → ℕ → ℕ → List (Entry V)
  set_spec limit es k v expire now =
      record { key = k; ctime = now; expire = expire; value = v } ∷ without k (shrunk limit es)

  abbrev pub get_spec : List (Entry V) → ℕ → ℕ → List (Entry V) × Option V
  get_spec es k now = elim (lookup k es) [
    | none ↦ (es, none)
    | some e ↦ if expired now e then (without k es, none) else (e ∷ without k es, some e.value)
  ]
