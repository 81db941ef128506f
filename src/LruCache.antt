-- ===== src/LruCache.antt =====
-- `CLruCache` of include/CLruCache.h: a hash map from keys to the nodes of a doubly linked list, the
-- node used last in front. Nodes live in a heap; address 0 is `NULL`. `TKey` is a type with a
-- decidable equality and stands here as the natural numbers; the hash map is its function from keys
-- to nodes, with the number of its entries. The time and the address that `new` gives are arguments of
-- the operations that ask for them. An operation holds the lock from its beginning to its end, so
-- that the lock is left out. `fault` is a use of an address that holds no node; `endless` is a
-- loop that outlives its fuel. `list_size` is `m_dwSize`, which nothing reads.
pub mod Recency
pub mod Chain
pub mod Links
pub mod Unlinks
pub mod Keys
pub mod Holds
pub mod Evict
pub mod Calls
pub mod Refine
pub mod Serve
pub mod Shards
pub mod Spread
pub mod Scatter
use lce.Prelude.{
  ℕ, zero, suc, ◌+◌, ◌-◌, ◌%◌, ◌^◌, Bool, true, false, not, ◌&&◌, Option, none, some, ltb, ◌==◌,
  if◌then◌else◌,
}

abbrev pub Ptr : Type 0
Ptr = ℕ

abbrev pub null : Ptr
null = 0

-- `SNode`
pub record Node (V : Type 0) : Type 0 where
  pub ctime : ℕ
  pub expire : ℕ
  pub key : ℕ
  pub value : V
  pub next : Ptr
  pub prev : Ptr

abbrev pub Heap : Type 0 → Type 0
Heap V = Ptr → Option (Node V)

-- `m_mapCache`
pub record HashMap : Type 0 where
  pub find : ℕ → Option Ptr
  pub count : ℕ

pub record Cache (V : Type 0) : Type 0 where
  pub entries : HashMap
  pub max_size : ℕ
  pub list_size : ℕ
  pub head : Ptr
  pub tail : Ptr
  pub heap : Heap V

pub data Outcome (V A : Type 0) : Type 0 where
  ok : Cache V → A → Outcome V A
  fault : Outcome V A
  endless : Outcome V A

-- `erase`, `operator[]` and `clear` of the hash map
unfoldable pub erase : HashMap → ℕ → HashMap
erase m k = record {
  find = λ j. if j == k then none else m.find j;
  count = elim (m.find k) [ none ↦ m.count | some p ↦ m.count - 1 ];
}

unfoldable pub insert : HashMap → ℕ → Ptr → HashMap
insert m k p = record {
  find = λ j. if j == k then some p else m.find j;
  count = elim (m.find k) [ none ↦ suc m.count | some q ↦ m.count ];
}

abbrev pub no_entries : HashMap
no_entries = record { find = λ j. none; count = 0 }

-- `CACHE_REMOVE_NUM`
abbrev pub cache_remove_num : ℕ
cache_remove_num = 50

module _ {V : Type 0} where
  infixl 5 ◌>>=◌
  abbrev pub ◌>>=◌ : {A B : Type 0} → Outcome V A → (Cache V → A → Outcome V B) → Outcome V B
  ok c a >>= f = f c a
  fault >>= f = fault
  endless >>= f = endless

  unfoldable pub write : Heap V → Ptr → Option (Node V) → Heap V
  write h p n q = if q == p then n else h q

  -- the constructor, which takes no notice of its argument
  unfoldable pub build : ℕ → Cache V
  build n = record {
    entries = no_entries;
    max_size = 10000;
    list_size = 0;
    head = null;
    tail = null;
    heap = λ p. none;
  }

  -- `*p`
  unfoldable pub read : Cache V → Ptr → Outcome V (Node V)
  read c p = if p == null then fault else elim (c.heap p) [ none ↦ fault | some n ↦ ok c n ]

  -- assignments to the fields of `*p`
  unfoldable pub modify : Cache V → Ptr → (Node V → Node V) → Outcome V (Unit {0})
  modify c p f = read c p >>= λ c1 n. ok (record c1 { heap = write c1.heap p (some (f n)) }) tt

  -- `delete p`
  unfoldable pub free : Cache V → Ptr → Outcome V (Unit {0})
  free c p = read c p >>= λ c1 n. ok (record c1 { heap = write c1.heap p none }) tt

  unfoldable pub add_to_list_head : Cache V → Ptr → Outcome V (Unit {0})
  add_to_list_head c p =
      if c.head == null
      then (modify c p (λ n. record n { next = null; prev = null }) >>= λ c1 _.
          ok (record c1 { head = p; tail = p; list_size = c1.list_size + 1 }) tt)
      else (modify c p (λ n. record n { next = c.head; prev = null }) >>= λ c1 _.
          modify c1 c1.head (λ n. record n { prev = p }) >>= λ c2 _.
          ok (record c2 { head = p; list_size = c2.list_size + 1 }) tt)

  -- `removeFromListTail`, behind its test for an empty list: `pstTail = pstTail->prev`, the end of
  -- the list there, and `delete`
  unfoldable pub drop_tail : Cache V → Ptr → Outcome V (Unit {0})
  drop_tail c prev =
      let c1 = record c { tail = prev } in
      (if prev == null then ok c1 tt else modify c1 prev (λ n. record n { next = null }))
      >>= λ c2 _. free (record c2 { list_size = c2.list_size - 1 }) c.tail

  unfoldable pub remove_from_list_tail : Cache V → Outcome V (Unit {0})
  remove_from_list_tail c =
      if c.tail == null then ok c tt else (read c c.tail >>= λ c1 n. drop_tail c1 n.prev)

  -- the four branches of `removeFromList`
  unfoldable pub unlink : Cache V → Node V → Outcome V (Unit {0})
  unlink c n =
      if n.next == null && n.prev == null
      then ok (record c { head = null; tail = null }) tt
      else (if not (n.next == null) && n.prev == null
          then modify (record c { head = n.next }) n.next (λ m. record m { prev = null })
          else (if n.next == null && not (n.prev == null)
              then modify (record c { tail = n.prev }) n.prev (λ m. record m { next = null })
              else (modify c n.next (λ m. record m { prev = n.prev }) >>= λ c1 _.
                  modify c1 n.prev (λ m. record m { next = n.next }))))

  -- `removeFromList(node, bDelete)`
  unfoldable pub remove_from_list : Cache V → Ptr → Bool → Outcome V (Unit {0})
  remove_from_list c p delete = read c p >>= λ c0 n. unlink c0 n >>= λ c1 _.
      if delete
      then free (record c1 { list_size = c1.list_size - 1 }) p
      else ok (record c1 { list_size = c1.list_size - 1 }) tt

  -- the loop of `set` that makes room, which takes at most so many rounds
  unfoldable pub evict : ℕ → Cache V → Outcome V (Unit {0})
  evict zero c = ok c tt
  evict (suc n) c = elim (c.tail == null) [
    | true ↦ ok c tt
    | false ↦ read c c.tail >>= λ c1 node.
        remove_from_list_tail (record c1 { entries = erase c1.entries node.key }) >>= λ c2 _.
        evict n c2
  ]

  -- what `set` does first: above the limit, it gives back up to `CACHE_REMOVE_NUM` nodes
  unfoldable pub make_room : Cache V → Outcome V (Unit {0})
  make_room c = if ltb c.max_size c.entries.count then evict cache_remove_num c else ok c tt

  -- `set` of a key that has a node, and of one that has none
  unfoldable pub set_old : Cache V → Ptr → V → ℕ → ℕ → Outcome V Bool
  set_old c p v expire now =
      modify c p (λ n. record n { ctime = now; expire = expire; value = v }) >>= λ c1 _.
      remove_from_list c1 p false >>= λ c2 _. add_to_list_head c2 p >>= λ c3 _. ok c3 true

  -- The links of the new node are written before they are read.
  unfoldable pub set_new : Cache V → ℕ → V → ℕ → ℕ → Ptr → Outcome V Bool
  set_new c k v expire now fresh =
      let n : Node V = record {
        ctime = now;
        expire = expire;
        key = k;
        value = v;
        next = null;
        prev = null;
      } in
      add_to_list_head (record c { heap = write c.heap fresh (some n) }) fresh >>= λ c1 _.
      ok (record c1 { entries = insert c1.entries k fresh }) true

  -- `set(tKey, tValue, dwExpireTime)`; `now` is `time(0)`, and `fresh` what `new SNode` gives.
  unfoldable pub set : Cache V → ℕ → V → ℕ → ℕ → Ptr → Outcome V Bool
  set c k v expire now fresh = make_room c >>= λ c1 _. elim (c1.entries.find k) [
    | none ↦ set_new c1 k v expire now fresh
    | some p ↦ set_old c1 p v expire now
  ]

  abbrev pub is_expired : ℕ → Node V → Bool
  is_expired now n = not (n.expire == 0) && ltb n.expire ((now + 2 ^ 32 - n.ctime) % 2 ^ 32)

  -- `get(tKey, tValue)`; `none` is `false`.
  unfoldable pub get : Cache V → ℕ → ℕ → Outcome V (Option V)
  get c k now = elim (c.entries.find k) [
    | none ↦ ok c none
    | some p ↦ read c p >>= λ c0 n.
        if is_expired now n
        then (remove_from_list c0 p true >>= λ c1 _.
            ok (record c1 { entries = erase c1.entries k }) none)
        else (remove_from_list c0 p false >>= λ c1 _.
            add_to_list_head c1 p >>= λ c2 _. read c2 p >>= λ c3 m. ok c3 (some m.value))
  ]

  unfoldable pub del : Cache V → ℕ → Outcome V Bool
  del c k = elim (c.entries.find k) [
    | none ↦ ok c true
    | some p ↦
        remove_from_list c p true >>= λ c1 _. ok (record c1 { entries = erase c1.entries k }) true
  ]

  -- `clearList`; the loop runs on fuel.
  unfoldable pub free_from : ℕ → Cache V → Ptr → Outcome V (Unit {0})
  free_from zero c p = endless
  free_from (suc n) c p = elim (p == null) [
    | true ↦ ok c tt
    | false ↦ read c p >>= λ c1 node. free c1 p >>= λ c2 _. free_from n c2 node.next
  ]

  unfoldable pub clear_list : Cache V → Outcome V (Unit {0})
  clear_list c = free_from (c.list_size + 1) c c.head >>= λ c1 _.
      ok (record c1 { head = null; tail = null; list_size = 0 }) tt

  unfoldable pub clear : Cache V → Outcome V (Unit {0})
  clear c = clear_list (record c { entries = no_entries })

  -- `getSize` and `getMaxSize`
  unfoldable pub get_size : Cache V → ℕ
  get_size c = c.entries.count
