-- ===== src/LruCache/Refine.antt =====
-- A `CLruCache` is its list of entries in the order of their last use.
use lce.Prelude.{
  ℕ, ◌-◌, ◌≤◌, ◌<◌, ◌≡◌, ◌≢◌, refl, sym, ap, ◌∙◌, inl, inr, true, false, List, ◌∷◌, ◌++◌, length,
  take, none, some, ltb, ltb→lt, if◌then◌else◌, arith, Bool-cases, Option-cases,
}
use lce.LruCache.{
  Ptr, null, Cache, ok, cache_remove_num, set_old, make_room, set_new, set, get, del,
}
use lce.LruCache.Recency.{Entry, lookup, without, expired, shrunk, set_spec, get_spec}
use lce.LruCache.Chain.{Cells, has}
use lce.LruCache.Keys.{
  entries_of, place, length-entries_of, entries_of-take, place-none, place-some, entries_rest,
}
use lce.LruCache.Holds.{Holds}
use lce.LruCache.Evict.{Evicts, evict_lem}
use lce.LruCache.Calls.{
  Leaves, Becomes, Becomes-Leaves, Goes, Unused, del_hit, get-expired, get_hit, set_old_lem,
  set_new_lem,
}

module _ {V : Type 0} where
  -- The three operations on a key: it has a node or none.
  pub del_lem :
      {c : Cache V} (xs : Cells V) (k : ℕ)
      → Holds c xs
      → Leaves c (del c k) (without k (entries_of xs)) true
  unfolding del
  del_lem {c} xs k h = elim (Option-cases (place k xs)) [
    | inl new ↦ record {
      after = c;
      returns = rw (h.finds k ∙ new, del) refl;
      caches = record { cells = xs; holds = h; are = sym (place-none k xs new).1 };
      same_max = refl;
    }
    | inr (p, old) ↦
        let s = place-some k p xs old in
        let held : Holds c (s.before ++ (p, s.entry) ∷ s.behind) = rw (sym s.is) h in
        rw (s.is, sym s.key, (entries_rest s.before p s.entry s.behind held.keys).1)
          (del_hit s.before p s.entry s.behind held)
  ]

  get_found :
      (es : List (Entry V)) (k now : ℕ) (e : Entry V) (rest : List (Entry V))
      → lookup k es ≡ some e
      → without k es ≡ rest
      → get_spec es k now ≡ (if expired now e then (rest, none) else (e ∷ rest, some e.value))
  get_found es k now e rest found is = rw (get_spec, found, is) refl

  get_present :
      {c : Cache V} (xs : Cells V) (p : Ptr) (e : Entry V) (ys : Cells V) (now : ℕ)
      → Holds c (xs ++ (p, e) ∷ ys)
      → Leaves c
          (get c e.key now)
          (get_spec (entries_of (xs ++ (p, e) ∷ ys)) e.key now).0
          (get_spec (entries_of (xs ++ (p, e) ∷ ys)) e.key now).1
  get_present xs p e ys now h =
      let (found, rest) = entries_rest xs p e ys h.keys in
      rw (get_found (entries_of (xs ++ (p, e) ∷ ys)) e.key now e (entries_of (xs ++ ys)) found rest)
        (elim (Bool-cases (expired now e)) [
          | inl t ↦ rw t (get-expired xs p e ys now h t)
          | inr f ↦ rw f (get_hit xs p e ys now h f)
        ])

  pub get_lem :
      {c : Cache V} (xs : Cells V) (k now : ℕ)
      → Holds c xs
      → Leaves c (get c k now) (get_spec (entries_of xs) k now).0 (get_spec (entries_of xs) k now).1
  unfolding get
  get_lem {c} xs k now h = elim (Option-cases (place k xs)) [
    | inl new ↦ record {
      after = c;
      returns = rw (h.finds k ∙ new, get, get_spec, (place-none k xs new).0) refl;
      caches = record { cells = xs; holds = h; are = rw (get_spec, (place-none k xs new).0) refl };
      same_max = refl;
    }
    | inr (p, old) ↦
        let s = place-some k p xs old in
        let held : Holds c (s.before ++ (p, s.entry) ∷ s.behind) = rw (sym s.is) h in
        rw (s.is, sym s.key) (get_present s.before p s.entry s.behind now held)
  ]

  -- `set` behind its loop
  keep_lem :
      {c : Cache V} (xs : Cells V) (k : ℕ) (v : V) (expire now : ℕ) (fresh : Ptr)
      → Holds c xs
      → Unused (c.entries.find k) c fresh
      → Leaves c
          (elim (c.entries.find k) [
            | none ↦ set_new c k v expire now fresh
            | some p ↦ set_old c p v expire now
          ])
          (record { key = k; ctime = now; expire = expire; value = v } ∷ without k (entries_of xs))
          true
  keep_lem {c} xs k v expire now fresh h unused = elim (Option-cases (place k xs)) [
    | inl new ↦
        let (ne, free) : (fresh ≢ null) × (c.heap fresh ≡ none) = rw (h.finds k ∙ new) at unused in
        rw (h.finds k ∙ new, (place-none k xs new).1)
          (Becomes-Leaves (set_new_lem xs k v expire now fresh h new ne free))
    | inr (p, old) ↦
        let s = place-some k p xs old in
        let held : Holds c (s.before ++ (p, s.entry) ∷ s.behind) = rw (sym s.is) h in
        rw
          (h.finds k ∙ old, s.is, sym s.key, (entries_rest s.before p s.entry s.behind held.keys).1)
          (set_old_lem s.before p s.entry s.behind v expire now held)
  ]

  -- the cells that the loop of `set` leaves
  abbrev pub shrunk_cells : ℕ → Cells V → Cells V
  shrunk_cells limit xs =
      if ltb limit (length xs) then take (length xs - cache_remove_num) xs else xs

  entries_of-shrunk_cells :
      (limit : ℕ) (xs : Cells V) → entries_of (shrunk_cells limit xs) ≡ shrunk limit (entries_of xs)
  entries_of-shrunk_cells limit xs = elim (Bool-cases (ltb limit (length xs))) [
    | inl t ↦ rw (length-entries_of xs, t) (entries_of-take (length xs - cache_remove_num) xs)
    | inr f ↦ rw (length-entries_of xs, f) refl
  ]

  pub make_room_lem :
      {c : Cache V} (xs : Cells V)
      → Holds c xs
      → Evicts c (shrunk_cells c.max_size xs) (make_room c)
  unfolding make_room
  make_room_lem {c} xs h = elim (Bool-cases (ltb c.max_size (length xs))) [
    | inl t ↦
        rw (ap (ltb c.max_size) h.counted ∙ t, t)
          (evict_lem cache_remove_num xs h (le_lt h.room (ltb→lt c.max_size (length xs) t)))
    | inr f ↦
        rw (ap (ltb c.max_size) h.counted ∙ f, f)
          (record { after = c; returns = refl; holds = h; same_max = refl })
  ]
    where
      le_lt : {a b d : ℕ} → a ≤ b → b < d → a < d
      le_lt i j = omega arith

  pub set_lem :
      {c : Cache V} (xs : Cells V) (k : ℕ) (v : V) (expire now : ℕ) (fresh : Ptr)
      → Holds c xs
      → Goes (make_room c) (λ c1. Unused (c1.entries.find k) c1 fresh)
      → Leaves c
          (set c k v expire now fresh)
          (set_spec c.max_size (entries_of xs) k v expire now)
          true
  unfolding set
  set_lem {c} xs k v expire now fresh h new =
      let r = make_room_lem xs h in
      let unused : Unused (r.after.entries.find k) r.after fresh = rw r.returns at new in
      let kept = keep_lem (shrunk_cells c.max_size xs) k v expire now fresh r.holds unused in
      record {
        after = kept.after;
        returns = rw r.returns kept.returns;
        caches = record {
          cells = kept.caches.cells;
          holds = kept.caches.holds;
          are =
              kept.caches.are
              ∙ ap
                  (λ es. record { key = k; ctime = now; expire = expire; value = v } ∷ without k es)
                  (entries_of-shrunk_cells c.max_size xs);
        };
        same_max = kept.same_max ∙ r.same_max;
      }

  -- A key that no remaining node has gets a node of its own, in front of those that remain.
  pub set-new_key :
      {c : Cache V} (xs : Cells V) (k : ℕ) (v : V) (expire now : ℕ) (fresh : Ptr)
      → Holds c xs
      → place k (shrunk_cells c.max_size xs) ≡ none
      → fresh ≢ null
      → has fresh (shrunk_cells c.max_size xs) ≡ false
      → Goes (make_room c) (λ c1. Unused (c1.entries.find k) c1 fresh)
        × Becomes c
            (set c k v expire now fresh)
            ((fresh, record { key = k; ctime = now; expire = expire; value = v })
              ∷ shrunk_cells c.max_size xs)
            true
  unfolding set
  set-new_key {c} xs k v expire now fresh h new ne out =
      let r = make_room_lem xs h in
      let at : r.after.entries.find k ≡ none = r.holds.finds k ∙ new in
      let unused : r.after.heap fresh ≡ none = r.holds.live fresh out in
      let b = set_new_lem (shrunk_cells c.max_size xs) k v expire now fresh r.holds new ne unused in
      let behind : elim (r.after.entries.find k) [
        | none ↦ set_new r.after k v expire now fresh
        | some p ↦ set_old r.after p v expire now
      ]
          ≡ ok b.after true =
        rw at b.returns in
      (
        rw (r.returns, at) (ne, unused),
        record {
          after = b.after;
          returns = rw r.returns behind;
          holds = b.holds;
          same_max = b.same_max ∙ r.same_max;
        },
      )
