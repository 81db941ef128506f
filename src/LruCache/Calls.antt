-- ===== src/LruCache/Calls.antt =====
-- The operations of `CLruCache` on a key that has a node, on a new key, and on all keys.
use lce.Prelude.{
  ℕ, suc, ◌+◌, ◌≡◌, ◌≢◌, refl, sym, ap, ap₂, ◌∙◌, true, false, List, [], ◌∷◌, ◌++◌, length, Option,
  none, some, if◌then◌else◌, arith,
}
use lce.LruCache.{
  Ptr, null, HashMap, Cache, Outcome, ok, fault, endless, ◌>>=◌, erase, insert, no_entries, write,
  build, read, set_old, set_new, get, del, clear_list, clear, add_to_list_head, remove_from_list,
}
use lce.LruCache.Recency.{Entry, expired}
use lce.LruCache.Chain.{Cells, node_of, first, final, has, write_other, write_here, Linked-write}
use lce.LruCache.Links.{Listed, node_at, read_lem, modify_lem, add_lem}
use lce.LruCache.Unlinks.{delete_lem}
use lce.LruCache.Keys.{entries_of, place, place_here}
use lce.LruCache.Holds.{
  Holds, erased-Holds, overwritten, overwritten-Listed, touch_lem, touched-Holds, inserted-Holds,
  Linked-has,
}
use lce.LruCache.Evict.{free_from_lem}

module _ {V : Type 0} where
  -- The cache is in order and holds these entries, the one used last in front.
  pub record Caches (c : Cache V) (es : List (Entry V)) : Type 0 where
    pub cells : Cells V
    pub holds : Holds c cells
    pub are : entries_of cells ≡ es

  -- An operation ends, returns this, and leaves these entries.
  pub record Leaves {A : Type 0} (c : Cache V) (o : Outcome V A) (es : List (Entry V)) (a : A)
      : Type 0 where
    pub after : Cache V
    pub returns : o ≡ ok after a
    pub caches : Caches after es
    pub same_max : after.max_size ≡ c.max_size

  -- An operation ends, returns this, and leaves these cells.
  pub record Becomes {A : Type 0} (c : Cache V) (o : Outcome V A) (xs : Cells V) (a : A)
      : Type 0 where
    pub after : Cache V
    pub returns : o ≡ ok after a
    pub holds : Holds after xs
    pub same_max : after.max_size ≡ c.max_size

  pub Becomes-Leaves :
      {A : Type 0} {c : Cache V} {o : Outcome V A} {xs : Cells V} {a : A}
      → Becomes c o xs a
      → Leaves c o (entries_of xs) a
  Becomes-Leaves {xs} b = record {
    after = b.after;
    returns = b.returns;
    caches = record { cells = xs; holds = b.holds; are = refl };
    same_max = b.same_max;
  }

  -- What an operation does to the cache after another.
  abbrev pub Goes : {A : Type 0} → Outcome V A → (Cache V → Type 0) → Type 0
  Goes (ok c a) P = P c
  Goes _ P = Unit {0}

  -- The address that `set` gets for a key, if it asks `new` for one: not `NULL` and not that of a
  -- node.
  abbrev pub Unused : Option Ptr → Cache V → Ptr → Type 0
  Unused none c fresh = (fresh ≢ null) × (c.heap fresh ≡ none)
  Unused (some p) c fresh = Unit {0}

  pub build-Holds : (n : ℕ) → Holds {V = V} (build n) []
  unfolding build
  build-Holds n = record {
    listed = record { head_is = refl; tail_is = refl; linked = tt; apart = tt; sized = refl };
    finds = λ k. refl;
    keys = tt;
    counted = refl;
    room = omega arith;
    live = λ q o. refl;
  }

  -- A new cache is empty, and allows 10000 entries, whatever was asked for.
  pub build-Caches : (n : ℕ) → Caches (build n) [] × ((build {V = V} n).max_size ≡ 10000)
  unfolding build
  build-Caches n = (record { cells = []; holds = build-Holds n; are = refl }, refl)

  -- what comes after a node has gone to the front
  touched_by :
      {A : Type 0} (c : Cache V) (p : Ptr) {c' : Cache V}
      → (remove_from_list c p false >>= λ c1 _. add_to_list_head c1 p) ≡ ok c' tt
      → (f : Cache V → Unit {0} → Outcome V A)
      → (remove_from_list c p false >>= λ c1 _. add_to_list_head c1 p >>= f) ≡ f c' tt
  touched_by c p e f =
      sym (assoc (remove_from_list c p false) (λ c1 _. add_to_list_head c1 p) f)
      ∙ ap (λ o. o >>= f) e
    where
      assoc :
          {A B D : Type 0} (o : Outcome V A) (f : Cache V → A → Outcome V B)
          (g : Cache V → B → Outcome V D)
          → ((o >>= f) >>= g) ≡ (o >>= λ c a. f c a >>= g)
      assoc (ok c a) f g = refl
      assoc fault f g = refl
      assoc endless f g = refl

  -- The hash map is no part of the list.
  pub Listed-entries :
      {c : Cache V} (m : HashMap) (xs : Cells V)
      → Listed c xs
      → Listed (record c { entries = m }) xs
  Listed-entries m xs h = record {
    head_is = h.head_is;
    tail_is = h.tail_is;
    linked = h.linked;
    apart = h.apart;
    sized = h.sized;
  }

  -- `clear` gives every node back.
  pub clear_lem : {c : Cache V} (xs : Cells V) → Holds c xs → Leaves c (clear c) [] tt
  unfolding clear clear_list
  clear_lem {c} xs h =
      let (g, step, is) =
        free_from_lem
          (record c { entries = no_entries; list_size = length xs; head = first xs null })
          (suc (length xs)) null xs h.listed.linked h.listed.apart (omega arith) in
      record {
        after = record {
          entries = no_entries;
          max_size = c.max_size;
          list_size = 0;
          head = null;
          tail = null;
          heap = g;
        };
        returns =
            ap₂ (λ n p. clear (record c { list_size = n; head = p })) h.listed.sized
              h.listed.head_is
            ∙ rw (one_more (length xs), step);
        caches = record {
          cells = [];
          holds = record {
            listed = record {
              head_is = refl;
              tail_is = refl;
              linked = tt;
              apart = tt;
              sized = refl;
            };
            finds = λ k. refl;
            keys = tt;
            counted = refl;
            room = h.room;
            live = λ q o. is q ∙ unused q;
          };
          are = refl;
        };
        same_max = refl;
      }
    where
      unused : (q : Ptr) → (if has q xs then none else c.heap q) ≡ none
      unused q = ground (arith, h.live q)

      one_more : (n : ℕ) → n + 1 ≡ suc n
      one_more n = omega arith

  pub del_hit :
      {c : Cache V} (xs : Cells V) (p : Ptr) (e : Entry V) (ys : Cells V)
      → Holds c (xs ++ (p, e) ∷ ys)
      → Leaves c (del c e.key) (entries_of (xs ++ ys)) true
  unfolding del
  del_hit {c} xs p e ys h =
      let r = delete_lem xs p e ys h.listed in
      record {
        after = record r.after { entries = erase r.after.entries e.key };
        returns = rw (h.finds e.key ∙ place_here xs p e ys h.keys, del) (rw r.returns refl);
        caches = record {
          cells = xs ++ ys;
          holds =
              erased-Holds {c = c} {c' = record r.after { entries = erase r.after.entries e.key }}
                xs p e ys h (Listed-entries (erase r.after.entries e.key) (xs ++ ys) r.listed)
                (ap (λ m. erase m e.key) r.same_entries) r.same_max r.spared;
          are = refl;
        };
        same_max = r.same_max;
      }

  pub get-expired :
      {c : Cache V} (xs : Cells V) (p : Ptr) (e : Entry V) (ys : Cells V) (now : ℕ)
      → Holds c (xs ++ (p, e) ∷ ys)
      → expired now e ≡ true
      → Leaves c (get c e.key now) (entries_of (xs ++ ys)) none
  unfolding get
  get-expired {c} xs p e ys now h old =
      let (ne, is) = node_at xs p e ys h.listed in
      let r = delete_lem xs p e ys h.listed in
      record {
        after = record r.after { entries = erase r.after.entries e.key };
        returns =
            rw (h.finds e.key ∙ place_here xs p e ys h.keys, get)
              (rw (read_lem c p (node_of e (first ys null) (final null xs)) ne is, old, r.returns)
                refl);
        caches = record {
          cells = xs ++ ys;
          holds =
              erased-Holds {c = c} {c' = record r.after { entries = erase r.after.entries e.key }}
                xs p e ys h (Listed-entries (erase r.after.entries e.key) (xs ++ ys) r.listed)
                (ap (λ m. erase m e.key) r.same_entries) r.same_max r.spared;
          are = refl;
        };
        same_max = r.same_max;
      }

  pub get_hit :
      {c : Cache V} (xs : Cells V) (p : Ptr) (e : Entry V) (ys : Cells V) (now : ℕ)
      → Holds c (xs ++ (p, e) ∷ ys)
      → expired now e ≡ false
      → Leaves c (get c e.key now) (e ∷ entries_of (xs ++ ys)) (some e.value)
  unfolding get
  get_hit {c} xs p e ys now h fresh =
      let (ne, is) = node_at xs p e ys h.listed in
      let r = touch_lem xs p e ys h.listed in
      let (_, is2) = node_at [] p e (xs ++ ys) r.listed in
      record {
        after = r.after;
        returns =
            rw (h.finds e.key ∙ place_here xs p e ys h.keys, get)
              (rw (read_lem c p (node_of e (first ys null) (final null xs)) ne is, fresh)
                (touched_by c p r.returns (λ c2 _. read c2 p >>= λ c3 m. ok c3 (some m.value))
                  ∙ rw (read_lem r.after p (node_of e (first (xs ++ ys) null) null) ne is2) refl));
        caches = record {
          cells = (p, e) ∷ (xs ++ ys);
          holds = touched-Holds xs p e e ys h refl r.listed r.same_entries r.same_max r.spared;
          are = refl;
        };
        same_max = r.same_max;
      }

  pub set_old_lem :
      {c : Cache V} (xs : Cells V) (p : Ptr) (e : Entry V) (ys : Cells V) (v : V) (expire now : ℕ)
      → Holds c (xs ++ (p, e) ∷ ys)
      → Leaves c
          (set_old c p v expire now)
          (record { key = e.key; ctime = now; expire = expire; value = v } ∷ entries_of (xs ++ ys))
          true
  unfolding set_old
  set_old_lem {c} xs p e ys v expire now h =
      let new : Entry V = record { key = e.key; ctime = now; expire = expire; value = v } in
      let (ne, is) = node_at xs p e ys h.listed in
      let r = touch_lem xs p new ys (overwritten-Listed xs p e new ys h.listed) in
      record {
        after = r.after;
        returns =
            rw
              (modify_lem c p (node_of e (first ys null) (final null xs))
                (λ n. record n { ctime = now; expire = expire; value = v }) ne is)
              (touched_by (overwritten c xs p new ys) p r.returns (λ c3 _. ok c3 true));
        caches = record {
          cells = (p, new) ∷ (xs ++ ys);
          holds =
              touched-Holds xs p e new ys h refl r.listed r.same_entries r.same_max
                (λ q o. r.spared q o ∙ write_other c.heap p _ q (ground arith));
          are = refl;
        };
        same_max = r.same_max;
      }

  pub set_new_lem :
      {c : Cache V} (xs : Cells V) (k : ℕ) (v : V) (expire now : ℕ) (fresh : Ptr)
      → Holds c xs
      → place k xs ≡ none
      → fresh ≢ null
      → c.heap fresh ≡ none
      → Becomes c
          (set_new c k v expire now fresh)
          ((fresh, record { key = k; ctime = now; expire = expire; value = v }) ∷ xs)
          true
  unfolding set_new
  set_new_lem {c} xs k v expire now fresh h new ne unused =
      let e : Entry V = record { key = k; ctime = now; expire = expire; value = v } in
      let out : has fresh xs ≡ false =
        Linked-has c.heap null xs null fresh h.listed.linked unused in
      let c1 : Cache V = record c { heap = write c.heap fresh (some (node_of e null null)) } in
      let listed : Listed c1 xs = record {
        head_is = h.listed.head_is;
        tail_is = h.listed.tail_is;
        linked = Linked-write c.heap fresh _ null xs null h.listed.linked out;
        apart = h.listed.apart;
        sized = h.listed.sized;
      } in
      let r = add_lem {c = c1} xs fresh e null null listed out ne (write_here c.heap fresh _) in
      record {
        after = record r.after { entries = insert r.after.entries k fresh };
        returns = rw r.returns refl;
        holds =
            inserted-Holds {c = c}
              {c' = record r.after { entries = insert r.after.entries k fresh }} xs fresh e h new
              (Listed-entries (insert r.after.entries k fresh) ((fresh, e) ∷ xs) r.listed)
              (ap (λ m. insert m k fresh) r.same_entries) r.same_max
              (λ q o. r.spared q o ∙ write_other c.heap fresh _ q (ground arith));
        same_max = r.same_max;
      }
