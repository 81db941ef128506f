-- ===== src/BufferQueue/Spec.antt =====
-- What a client may rely on: a bounded FIFO of messages. A message takes its length and a mark, and
-- the reserve is always kept free.
use lce.Prelude.{
  ℕ, ◌+◌, List, [], ◌∷◌, ◌++◌, Option, none, some, length, ltb, ◌==◌, if◌then◌else◌, ◌≡◌,
}
use lce.BufferQueue.{Error, full_queue, too_long, Outcome, ok, throws}
use lce.BufferQueue.{mark_len, reserve_len}
use lce.BufferQueue.Frames.{used, Holds}

pub data Reply {ℓ} (A : Type ℓ) : Type ℓ where
  done : A → Reply A
  failed : Error → Reply A

-- An empty message is not stored. One that does not fit is refused, and nothing changes.
unfoldable pub enqueue : ℕ → List (List ℕ) → List ℕ → List (List ℕ) × Reply (Unit {0})
enqueue size ms m =
    if length m == 0
    then (ms, done tt)
    else (if ltb size (used ms + (mark_len + length m) + reserve_len)
        then (ms, failed full_queue)
        else (ms ++ m ∷ [], done tt))

-- The oldest message goes out, and is lost if the caller's buffer cannot take it.
unfoldable pub dequeue : List (List ℕ) → ℕ → List (List ℕ) × Reply (Option (List ℕ))
dequeue [] n = ([], done none)
dequeue (m ∷ ms) n = if ltb n (length m) then (ms, failed too_long) else (ms, done (some m))

-- The outcome of the code agrees with the specification's, the queue left holds its messages, and
-- its buffer has the size given.
abbrev pub Matches : {A : Type 0} → ℕ → Outcome A → List (List ℕ) × Reply A → Type 0
Matches s (ok q a) (ms, done b) = Holds q ms × (q.buf_size ≡ s) × (a ≡ b)
Matches s (throws e q) (ms, failed d) = Holds q ms × (q.buf_size ≡ s) × (e ≡ d)
Matches s _ _ = ⊥

-- What a client sees of a call.
pub data Event : Type 0 where
  pushed : Reply (Unit {0}) → Event
  popped : Reply (Option (List ℕ)) → Event

pub data Call : Type 0 where
  push_call : List ℕ → Call
  pop_call : ℕ → Call

unfoldable pub run_spec : ℕ → List (List ℕ) → List Call → List Event
run_spec size ms [] = []
run_spec size ms (push_call m ∷ cs) =
    let (ms', r) = enqueue size ms m in pushed r ∷ run_spec size ms' cs
run_spec size ms (pop_call n ∷ cs) = let (ms', r) = dequeue ms n in popped r ∷ run_spec size ms' cs
