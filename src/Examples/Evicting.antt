-- ===== src/Examples/Evicting.antt =====
-- A `CLruCache` that is filled above its limit and then evicts. `new` gives the address of a node
-- that the same `set` has given back.
use lce.Prelude.{
  ℕ, zero, suc, ◌+◌, ◌-◌, ◌≤◌, ◌<◌, ◌≡◌, refl, sym, ap, ◌∙◌, List, [], ◌∷◌, length, take, some,
  none, false, le→ltb, lt→ltb, arith,
}
use lce.LruCache.{Cache, Outcome, ok, fault, endless, build, get_size}
use lce.LruCache.Chain.{Cells, has}
use lce.LruCache.Keys.{place}
use lce.LruCache.Holds.{Holds}
use lce.LruCache.Calls.{Leaves, Goes, Caches, build-Holds}
use lce.LruCache.Refine.{shrunk_cells, set-new_key}
use lce.LruCache.Shards.{Shards, build_shards, on_shard, perform_sharded, reached, run_sharded}
use lce.LruCache.Scatter.{scatter_all, GoesOn, AllocatesAll, scatter_refines}
use lce.LruCache.Serve.{
  Call, set_call, get_call, del_call, clear_call, Reply, Allocates, perform, run, run_spec,
  serve_in_order, serve_bound,
}

-- `set` of the keys after `i`, in order; `new` gives the address that has the key's number.
unfoldable fill_from : ℕ → ℕ → List (Call ℕ) → List (Call ℕ)
fill_from i zero rest = rest
fill_from i (suc n) rest = set_call (suc i) 7 0 100 (suc i) ∷ fill_from (suc i) n rest

-- the cells after that
unfoldable down : ℕ → Cells ℕ
down zero = []
down (suc i) = (suc i, record { key = suc i; ctime = 100; expire = 0; value = 7 }) ∷ down i

length-down : (i : ℕ) → length (down i) ≡ i
unfolding down
length-down zero = refl
length-down (suc i) = ap suc (length-down i)

-- What is left once the last ones are gone has no low address and no new key.
has-take-down : (q m i : ℕ) → q + m ≤ i → has q (take m (down i)) ≡ false
unfolding down
has-take-down q zero i le = refl
has-take-down q (suc m) zero le = refl
has-take-down q (suc m) (suc i) le = ground (arith, has-take-down q m i)

place-take-down : (k m i : ℕ) → i < k → place k (take m (down i)) ≡ none
unfolding down
place-take-down k zero i lt = refl
place-take-down k (suc m) zero lt = refl
place-take-down k (suc m) (suc i) lt = ground (arith, place-take-down k m i)

has-down : (q i : ℕ) → i < q → has q (down i) ≡ false
unfolding down
has-down q zero lt = refl
has-down q (suc i) lt = ground (arith, has-down q i)

place-down : (k i : ℕ) → i < k → place k (down i) ≡ none
unfolding down
place-down k zero lt = refl
place-down k (suc i) lt = ground (arith, place-down k i)

shrunk_cells-down : (i : ℕ) → i ≤ 10000 → shrunk_cells 10000 (down i) ≡ down i
shrunk_cells-down i le = rw (le→ltb 10000 (length (down i)) (omega (arith, length-down i))) refl

fill_from-Allocates :
    {c : Cache ℕ} (i n : ℕ) (rest : List (Call ℕ))
    → i + n ≤ 10001
    → Holds c (down i)
    → c.max_size ≡ 10000
    → ((c' : Cache ℕ) → Holds c' (down (i + n)) → c'.max_size ≡ 10000 → Allocates c' rest)
    → Allocates c (fill_from i n rest)
unfolding fill_from
fill_from-Allocates i zero rest le h max next =
    let same : i ≡ i + 0 = omega arith in next _ (rw same at h) max
fill_from-Allocates {c} i (suc n) rest le h max next =
    let same : shrunk_cells c.max_size (down i) ≡ down i =
      rw (max, shrunk_cells-down i (omega arith)) refl in
    let (fresh, b) =
      set-new_key (down i) (suc i) 7 0 100 (suc i) h
        (rw (same, place-down (suc i) i (omega arith)) refl) (λ e. omega arith)
        (rw (same, has-down (suc i) i (omega arith)) refl) in
    let held : Holds b.after (down (suc i)) = unfold down in rw (sym same) b.holds in
    let more : (c' : Cache ℕ)
        → Holds c' (down (suc i + n))
        → c'.max_size ≡ 10000
        → Allocates c' rest =
      λ c' h' max'.
        let same : suc i + n ≡ i + suc n = omega arith in next c' (rw same at h') max' in
    (
      fresh,
      rw b.returns (
          fill_from-Allocates {c = b.after} (suc i) n rest (omega arith) held (b.same_max ∙ max)
            more),
    )

Goes-each : {A : Type 0} (o : Outcome ℕ A) (P : Cache ℕ → Type 0) → ((c : Cache ℕ) → P c) → Goes o P
Goes-each (ok c a) P f = f c
Goes-each fault P f = tt
Goes-each endless P f = tt

last-Allocates : (c : Cache ℕ) → Allocates c (get_call 1 201 ∷ [])
last-Allocates c = (tt, Goes-each (perform c (get_call 1 201)) (λ c'. Unit {0}) (λ c'. tt))

gets-Allocates : (c : Cache ℕ) → Allocates c (get_call 20000 201 ∷ get_call 1 201 ∷ [])
gets-Allocates c = (
  tt,
  Goes-each (perform c (get_call 20000 201)) (λ c'. Allocates c' (get_call 1 201 ∷ []))
      last-Allocates,
)

full_down : shrunk_cells 10000 (down 10001) ≡ take 9951 (down 10001)
full_down =
    let n : length (down 10001) ≡ 10001 = length-down 10001 in
    rw (lt→ltb 10000 (length (down 10001)) (omega (arith, n)))
      (ap (λ k. take (k - 50) (down 10001)) n)

-- After 10001 keys `set` evicts, and gets the address of key 1, which is among those that go.
abbrev evicting_calls : List (Call ℕ)
evicting_calls =
    fill_from 0 10001 (set_call 20000 8 0 200 1 ∷ get_call 20000 201 ∷ get_call 1 201 ∷ [])

evicts-Allocates :
    (c : Cache ℕ)
    → Holds c (down 10001)
    → c.max_size ≡ 10000
    → Allocates c (set_call 20000 8 0 200 1 ∷ get_call 20000 201 ∷ get_call 1 201 ∷ [])
evicts-Allocates c h max =
    let same : shrunk_cells c.max_size (down 10001) ≡ take 9951 (down 10001) = rw max full_down in
    let (fresh, b) =
      set-new_key (down 10001) 20000 8 0 200 1 h
        (rw (same, place-take-down 20000 9951 10001 (omega arith)) refl) (λ e. omega arith)
        (rw (same, has-take-down 1 9951 10001 (omega arith)) refl) in
    (fresh, rw b.returns (gets-Allocates b.after))

evicting_calls-Allocates : (n : ℕ) → Allocates (build n) evicting_calls
unfolding build
evicting_calls-Allocates n =
    fill_from-Allocates 0 10001
      (set_call 20000 8 0 200 1 ∷ get_call 20000 201 ∷ get_call 1 201 ∷ []) (omega arith)
      (unfold down in build-Holds n) refl evicts-Allocates

serve_in_order_example :
    Leaves
      (build 5)
      (run (build 5) evicting_calls)
      (run_spec 10000 [] evicting_calls).0
      (run_spec 10000 [] evicting_calls).1
serve_in_order_example = serve_in_order 5 evicting_calls (evicting_calls-Allocates 5)

abbrev last_cache : Cache ℕ
last_cache = (serve_in_order 5 evicting_calls (evicting_calls-Allocates 5)).after

serve_bound_example : (get_size last_cache ≡ last_cache.list_size) × (get_size last_cache ≤ 10001)
serve_bound_example =
    serve_bound 5 evicting_calls last_cache (run_spec 10000 [] evicting_calls).1
      (evicting_calls-Allocates 5)
      (serve_in_order 5 evicting_calls (evicting_calls-Allocates 5)).returns

-- With a hash that sends every key to the first shard, the run is one of that shard.
abbrev one_shard : ℕ → ℕ
one_shard k = 0

-- no `clear`
abbrev OnKeys : List (Call ℕ) → Type 0
OnKeys [] = Unit {0}
OnKeys (clear_call ∷ xs) = ⊥
OnKeys (x ∷ xs) = OnKeys xs

fill_from-OnKeys : (i n : ℕ) (rest : List (Call ℕ)) → OnKeys rest → OnKeys (fill_from i n rest)
unfolding fill_from
fill_from-OnKeys i zero rest h = h
fill_from-OnKeys i (suc n) rest h = fill_from-OnKeys (suc i) n rest h

on_shard-GoesOn :
    (s : Shards ℕ) (x : Call ℕ) (P : Cache ℕ → Type 0) (Q : Shards ℕ → Type 0)
    → Goes (perform (s.shard 0) x) P
    → ((t : Shards ℕ) → P (t.shard 0) → Q t)
    → GoesOn one_shard (on_shard s 0 x) Q
unfolding on_shard
on_shard-GoesOn s x P Q g next = gone (perform (s.shard 0) x) refl g
  where
    gone :
        (o : Outcome ℕ (Reply ℕ))
        → perform (s.shard 0) x ≡ o
        → Goes o P
        → GoesOn one_shard (on_shard s 0 x) Q
    gone (ok c r) e g = rw e (next _ g)
    gone fault e g = rw e tt
    gone endless e g = rw e tt

AllocatesAll-one_shard :
    (xs : List (Call ℕ)) (s : Shards ℕ)
    → OnKeys xs
    → Allocates (s.shard 0) xs
    → AllocatesAll one_shard s xs
unfolding perform_sharded
AllocatesAll-one_shard [] s keys h = tt
AllocatesAll-one_shard (set_call k v expire now fresh ∷ xs) s keys h = (
  h.0,
  on_shard-GoesOn s (set_call k v expire now fresh) (λ c. Allocates c xs)
      (λ t. AllocatesAll one_shard t xs) h.1 (λ t a. AllocatesAll-one_shard xs t keys a),
)
AllocatesAll-one_shard (get_call k now ∷ xs) s keys h = (
  tt,
  on_shard-GoesOn s (get_call k now) (λ c. Allocates c xs) (λ t. AllocatesAll one_shard t xs) h.1
      (λ t a. AllocatesAll-one_shard xs t keys a),
)
AllocatesAll-one_shard (del_call k ∷ xs) s keys h = (
  tt,
  on_shard-GoesOn s (del_call k) (λ c. Allocates c xs) (λ t. AllocatesAll one_shard t xs) h.1
      (λ t a. AllocatesAll-one_shard xs t keys a),
)
AllocatesAll-one_shard (clear_call ∷ xs) s keys h = elim keys [ ]

sharded_calls-Allocates : AllocatesAll one_shard (build_shards 640) evicting_calls
unfolding build_shards
sharded_calls-Allocates =
    AllocatesAll-one_shard evicting_calls (build_shards 640)
      (fill_from-OnKeys 0 10001
        (set_call 20000 8 0 200 1 ∷ get_call 20000 201 ∷ get_call 1 201 ∷ []) tt)
      (evicting_calls-Allocates 20)

scatter_refines_example :
    (t : Shards ℕ) × (run_sharded one_shard (build_shards 640) evicting_calls
      ≡ some (t, (scatter_all one_shard (λ i. []) evicting_calls).1))
    × ((i : ℕ)
        → i < 32
        → Caches (t.shard i) (run_spec 10000 [] (reached one_shard i evicting_calls)).0)
scatter_refines_example = scatter_refines one_shard 640 evicting_calls sharded_calls-Allocates
