-- ===== src/BufferQueue/Client.antt =====
-- What a client of `CBufferQueue` sees: a fresh queue, whole runs of calls, `full`, `size`, and
-- which bytes are written.
use lce.Prelude.{
  ℕ, ◌+◌, ◌-◌, ◌^◌, ◌≤◌, ◌<◌, ◌≡◌, refl, sym, ap, ◌∙◌, List, [], ◌∷◌, length, true, false, Option,
  none, some, inl, inr, arith, lt→leb,
}
use mathlib.Core.Option
use native.Mathlib.Nat.{mod-eq_of_lt}
use lce.Prelude.Memory.{Memory}
use lce.Prelude.Cyclic.{window, ring_store_outside}
use lce.Prelude.Words.{sub_size}
use lce.BufferQueue.{
  BufferQueue, Outcome, ok, throws, aborted, mark_len, reserve_len, sizeof_header, create, attach,
  push, pop, full, size, empty,
}
use lce.BufferQueue.Frames.{frames, frame, Holds, end-cases}
use lce.BufferQueue.Spec.{
  Reply, done, failed, enqueue, dequeue, Matches, Event, pushed, popped, Call, push_call, pop_call,
  run_spec,
}
use lce.BufferQueue.Push.{push_refines, push-cases}
use lce.BufferQueue.Pop.{pop_refines}

-- `create` in a buffer of `n` bytes, more than the header, a mark and the reserve, and at most
-- 2^32, makes an empty queue.
pub create-Holds :
    (q : BufferQueue) (n : ℕ)
    → sizeof_header + mark_len + reserve_len < n
    → n ≤ 2 ^ 32
    → Matches (n - sizeof_header) (create q n) ([], done tt)
unfolding create
create-Holds q n lt small = rw (lt→leb n (sizeof_header + mark_len + reserve_len) lt) (
  record {
    small = omega arith;
    large = omega arith;
    reserve = refl;
    begin_in = omega arith;
    end_at = sym (mod-eq_of_lt {n = 0 + 0} {m = sub_size n sizeof_header} (omega arith));
    fits = omega arith;
    framed = nothing q.bytes (sub_size n sizeof_header);
    counted = refl;
    nonempty = tt;
  },
  omega arith,
  refl,
)
  where
    nothing : (m : Memory ℕ) (s : ℕ) → window m s 0 0 ≡ frames []
    nothing m s = unfold window frames in refl

-- `attach` to a buffer of the right size that holds messages succeeds and changes nothing.
pub attach_lem :
    {q : BufferQueue} (ms : List (List ℕ)) (n : ℕ)
    → Holds q ms
    → n ≡ q.buf_size + sizeof_header
    → attach q n ≡ ok q tt
unfolding attach
attach_lem {q} ms n h e =
    ground (arith, h.small, h.large, h.reserve, h.begin_in, h.fits, end-cases ms h)

-- On a queue that holds messages, `full` says of a message of fewer than 2^63 bytes whether the
-- specification refuses it, and no assertion fails.
pub full_lem :
    {q : BufferQueue} (ms : List (List ℕ)) (m : List ℕ)
    → Holds q ms
    → length m < 2 ^ 63
    → full q (length m)
      ≡ some (elim (enqueue q.buf_size ms m).1 [ done _ ↦ false | failed _ ↦ true ])
unfolding full enqueue
full_lem {q} ms m h word = ground (arith, h.small, h.begin_in, h.fits, end-cases ms h)

-- `size` of a queue that holds messages counts them, and does not change the queue.
pub size_lem :
    {q : BufferQueue} (ms : List (List ℕ))
    → Holds q ms
    → ((size q).1 ≡ length ms) × ((size q).0 ≡ q)
unfolding size empty
size_lem {q} ms h = ground (arith, h.counted, h.fits, end-cases ms h)

ok-injective : {x y : BufferQueue} → ◌≡◌ {A = Outcome (Unit {0})} (ok x tt) (ok y tt) → x ≡ y
ok-injective p = cc

-- A `push` of fewer than 2^63 bytes that succeeds on a queue that holds messages leaves every byte
-- at or past the end of the buffer as it was.
pub push_in_bounds :
    {q q' : BufferQueue} (ms : List (List ℕ)) (m : List ℕ) (j : ℕ)
    → Holds q ms
    → length m < 2 ^ 63
    → push q m ≡ ok q' tt
    → q.buf_size ≤ j
    → q'.bytes j ≡ q.bytes j
push_in_bounds {q} {q'} ms m j h word e le = elim (push-cases ms m h word) [
  | inl same ↦ ap (λ r. r.bytes j) (ok-injective (sym e ∙ same))
  | inr (inl refused) ↦ absurd (cc (sym e ∙ refused))
  | inr (inr more) ↦
      ap (λ r. r.bytes j) (ok-injective (sym e ∙ more))
      ∙ ring_store_outside q.bytes q.buf_size q.end (frame m) j (end-lt' ms h) le
]
  where
    end-lt' : (ms : List (List ℕ)) → Holds q ms → q.end < q.buf_size
    end-lt' ms h = omega (arith, h.fits, end-cases ms h, h.begin_in)

-- What a call shows, and then what the calls after it show; `none` if an assertion fails.
abbrev pub follow :
    {A : Type 0}
    → (Reply A → Event)
    → Outcome A
    → (BufferQueue → Option (List Event))
    → Option (List Event)
follow tag (ok q a) k = Option.map (λ es. tag (done a) ∷ es) (k q)
follow tag (throws e q) k = Option.map (λ es. tag (failed e) ∷ es) (k q)
follow tag aborted k = none

-- The calls of a client, one after another.
unfoldable pub run : BufferQueue → List Call → Option (List Event)
run q [] = some []
run q (push_call m ∷ cs) = follow pushed (push q m) (λ q'. run q' cs)
run q (pop_call n ∷ cs) = follow popped (pop q n) (λ q'. run q' cs)

abbrev pub AreWords : List Call → Type 0
AreWords [] = Unit {0}
AreWords (push_call m ∷ cs) = (length m < 2 ^ 63) × AreWords cs
AreWords (pop_call n ∷ cs) = AreWords cs

follow-Matches :
    {A : Type 0} (tag : Reply A → Event) (s : ℕ) (o : Outcome A) (ms : List (List ℕ)) (r : Reply A)
    (k : BufferQueue → Option (List Event)) (es : List Event)
    → Matches s o (ms, r)
    → ((q : BufferQueue) → Holds q ms → q.buf_size ≡ s → k q ≡ some es)
    → follow tag o k ≡ some (tag r ∷ es)
follow-Matches tag s (ok q a) ms (done b) k es h rest = rw (rest q h.0 h.1, h.2)
follow-Matches tag s (ok q a) ms (failed d) k es h rest = elim h [ ]
follow-Matches tag s (throws e q) ms (done b) k es h rest = elim h [ ]
follow-Matches tag s (throws e q) ms (failed d) k es h rest = rw (rest q h.0 h.1, h.2)
follow-Matches tag s aborted ms r k es h rest = elim h [ ]

-- On a queue that holds messages, every run of calls whose messages are shorter than 2^63 bytes
-- gives what the bounded FIFO of those messages gives, call by call, and no assertion fails.
pub run_refines :
    (cs : List Call) {q : BufferQueue} (ms : List (List ℕ))
    → Holds q ms
    → AreWords cs
    → run q cs ≡ some (run_spec q.buf_size ms cs)
unfolding run run_spec
run_refines [] ms h w = refl
run_refines (push_call m ∷ cs) {q} ms h w =
    let (ms', r) = enqueue q.buf_size ms m in
    follow-Matches pushed q.buf_size (push q m) ms' r (λ q'. run q' cs) (run_spec q.buf_size ms' cs)
      (push_refines ms m h w.0)
      (λ q' h' e. run_refines cs ms' h' w.1 ∙ ap (λ s. some (run_spec s ms' cs)) e)
run_refines (pop_call n ∷ cs) {q} ms h w =
    let (ms', r) = dequeue ms n in
    follow-Matches popped q.buf_size (pop q n) ms' r (λ q'. run q' cs) (run_spec q.buf_size ms' cs)
      (pop_refines ms n h)
      (λ q' h' e. run_refines cs ms' h' w ∙ ap (λ s. some (run_spec s ms' cs)) e)
