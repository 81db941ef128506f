-- ===== src/LruCache/Keys.antt =====
-- The keys of the cells, which the hash map of a `CLruCache` leads to.
use lce.Prelude.{
  ℕ, zero, suc, ◌≡◌, refl, sym, ap, ◌∙◌, inl, inr, true, false, List, [], ◌∷◌, ◌++◌, length, take,
  Option, none, some, ◌==◌, ==→eq, eq→==, ne→==, if◌then◌else◌, arith, Bool-cases,
}
use native.Mathlib.Decide.{ℕ_discrete}
use lce.LruCache.{Ptr}
use lce.LruCache.Recency.{Entry, lookup, without}
use lce.LruCache.Chain.{Cells}

module _ {V : Type 0} where
  abbrev pub entries_of : Cells V → List (Entry V)
  entries_of [] = []
  entries_of ((p, e) ∷ xs) = e ∷ entries_of xs

  -- the node with that key
  abbrev pub place : ℕ → Cells V → Option Ptr
  place k [] = none
  place k ((p, e) ∷ xs) = if e.key == k then some p else place k xs

  abbrev pub DistinctKeys : Cells V → Type 0
  DistinctKeys [] = Unit {0}
  DistinctKeys ((p, e) ∷ xs) = (place e.key xs ≡ none) × DistinctKeys xs

  pub length-entries_of : (xs : Cells V) → length (entries_of xs) ≡ length xs
  length-entries_of [] = refl
  length-entries_of ((p, e) ∷ xs) = ap suc (length-entries_of xs)

  pub entries_of-take : (n : ℕ) (xs : Cells V) → entries_of (take n xs) ≡ take n (entries_of xs)
  entries_of-take zero xs = refl
  entries_of-take (suc n) [] = refl
  entries_of-take (suc n) ((p, e) ∷ xs) = ap (λ l. e ∷ l) (entries_of-take n xs)

  -- A key that has no node.
  pub place-none :
      (k : ℕ) (xs : Cells V)
      → place k xs ≡ none
      → (lookup k (entries_of xs) ≡ none) × (without k (entries_of xs) ≡ entries_of xs)
  place-none k [] e = (refl, refl)
  place-none k ((p, d) ∷ xs) e = elim (Bool-cases (d.key == k)) [
    | inl t ↦ absurd (hit t)
    | inr f ↦ let (a, b) = place-none k xs (miss f) in (rw f a, rw f (ap (λ l. d ∷ l) b))
  ]
    where
      hit : (d.key == k) ≡ true → ⊥
      hit t = ground (arith, t, e)

      miss : (d.key == k) ≡ false → place k xs ≡ none
      miss f = ground (arith, f, e)

  -- A key that has a node splits the cells at it.
  pub record Split (k : ℕ) (p : Ptr) (xs : Cells V) : Type 0 where
    pub before : Cells V
    pub entry : Entry V
    pub behind : Cells V
    pub is : xs ≡ before ++ (p, entry) ∷ behind
    pub key : entry.key ≡ k

  pub place-some : (k : ℕ) (p : Ptr) (xs : Cells V) → place k xs ≡ some p → Split k p xs
  place-some k p [] e = absurd (cc)
  place-some k p ((q, d) ∷ xs) e = elim (Bool-cases (d.key == k)) [
    | inl t ↦ record {
      before = [];
      entry = d;
      behind = xs;
      is = ap (λ r. (r, d) ∷ xs) (here t);
      key = ==→eq d.key k t;
    }
    | inr f ↦
        let r = place-some k p xs (miss f) in
        record {
          before = (q, d) ∷ r.before;
          entry = r.entry;
          behind = r.behind;
          is = ap (λ l. (q, d) ∷ l) r.is;
          key = r.key;
        }
  ]
    where
      here : (d.key == k) ≡ true → q ≡ p
      here t = ground (arith, t, e)

      miss : (d.key == k) ≡ false → place k xs ≡ some p
      miss f = ground (arith, f, e)

  pub place_here :
      (xs : Cells V) (p : Ptr) (e : Entry V) (ys : Cells V)
      → DistinctKeys (xs ++ (p, e) ∷ ys)
      → place e.key (xs ++ (p, e) ∷ ys) ≡ some p
  place_here [] p e ys d = ground arith
  place_here ((q, f) ∷ xs) p e ys d = ground (arith, place_here xs p e ys d.1)

  -- What the other cells have, once one is taken out.
  pub place_rest :
      (xs : Cells V) (p : Ptr) (e : Entry V) (ys : Cells V) (j : ℕ)
      → DistinctKeys (xs ++ (p, e) ∷ ys)
      → place j (xs ++ ys) ≡ (if j == e.key then none else place j (xs ++ (p, e) ∷ ys))
  place_rest [] p e ys j d = elim (Bool-cases (j == e.key)) [
    | inl t ↦ rw t (ap (λ i. place i ys) (==→eq j e.key t) ∙ d.0)
    | inr f ↦ ground (arith, f)
  ]
  place_rest ((q, f) ∷ xs) p e ys j d =
      ground (
        arith,
        place_rest xs p e ys j d.1,
        place_rest xs p e ys f.key d.1,
        place_here xs p e ys d.1,
      )

  -- The node may as well stand in front.
  pub place_front :
      (xs : Cells V) (p : Ptr) (e new : Entry V) (ys : Cells V) (k : ℕ)
      → DistinctKeys (xs ++ (p, e) ∷ ys)
      → new.key ≡ e.key
      → place k (xs ++ (p, e) ∷ ys) ≡ place k ((p, new) ∷ (xs ++ ys))
  place_front xs p e new ys k d same = elim (ℕ_discrete e.key k) [
    | yes i ↦
        rw (eq→== new.key k (same ∙ i))
          (ap (λ j. place j (xs ++ (p, e) ∷ ys)) (sym i) ∙ place_here xs p e ys d)
    | no n ↦
        rw (ne→== new.key k (λ i. n (sym same ∙ i)))
          (sym (place_rest xs p e ys k d ∙ rw (ne→== k e.key (λ i. n (sym i)))))
  ]

  pub DistinctKeys-rest :
      (xs : Cells V) (p : Ptr) (e : Entry V) (ys : Cells V)
      → DistinctKeys (xs ++ (p, e) ∷ ys)
      → DistinctKeys (xs ++ ys)
  DistinctKeys-rest [] p e ys d = d.1
  DistinctKeys-rest ((q, f) ∷ xs) p e ys d =
      (ground (arith, place_rest xs p e ys f.key d.1, d.0), DistinctKeys-rest xs p e ys d.1)

  pub entries_rest :
      (xs : Cells V) (p : Ptr) (e : Entry V) (ys : Cells V)
      → DistinctKeys (xs ++ (p, e) ∷ ys)
      → (lookup e.key (entries_of (xs ++ (p, e) ∷ ys)) ≡ some e)
        × (without e.key (entries_of (xs ++ (p, e) ∷ ys)) ≡ entries_of (xs ++ ys))
  entries_rest [] p e ys d =
      (rw (eq→== e.key e.key refl), rw (eq→== e.key e.key refl) (place-none e.key ys d.0).1)
  entries_rest ((q, f) ∷ xs) p e ys d =
      let (a, b) = entries_rest xs p e ys d.1 in (rw other a, rw other (ap (λ l. f ∷ l) b))
    where
      other : (f.key == e.key) ≡ false
      other = ground (arith, d.0, place_here xs p e ys d.1)
