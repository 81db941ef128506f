-- ===== src/Examples/Rings.antt =====
-- A `CCircleQueue` of three slots, a `CBlockQueue` of two and a `CLogBuffer` of four bytes.
use lce.Prelude.{ℕ, ◌-◌, ◌≡◌, refl, List, [], ◌∷◌, true, false, some, arith, if◌then◌else◌, ltb}
use lce.Prelude.Memory.{Memory}
use lce.Prelude.Cyclic.{window}
use lce.CircleQueue.{start}
use lce.CircleQueue.Refine.{
  RingCall, enque_call, deque_call, serve, serve_spec, start-Queued, serve_refines,
}
use lce.BlockQueue.{BlockQueue}
use lce.BlockQueue.Steps.{Waiting}
use lce.BlockQueue.Schedule.{Turn, push_turn, pop_turn, schedule, schedule_spec, schedule_refines}
use lce.LogBuffer.{LogBuffer, blank, allocate, write}
use lce.LogBuffer.Collect.{Collected, collect, allocate-Collected, write_lem}

abbrev nothing : Memory ℕ
nothing = λ i. 0

abbrev ring_calls : List (RingCall ℕ)
ring_calls =
    enque_call 5
    ∷ enque_call 6
    ∷ enque_call 7
    ∷ deque_call
    ∷ enque_call 8
    ∷ deque_call
    ∷ deque_call
    ∷ deque_call
    ∷ []

serve_refines_example :
    serve (start nothing 2) ring_calls ≡ serve_spec ((start nothing 2).size - 1) [] ring_calls
serve_refines_example =
    serve_refines ring_calls {q = start nothing 2} [] (start-Queued nothing 2 (omega arith)).0

abbrev one_slot : BlockQueue ℕ
one_slot = record { max_size = 2; size = 1; front = some 0; back = some 1; slots = λ i. 9 }

one_slot-Waiting : Waiting one_slot (9 ∷ [])
one_slot-Waiting = record {
  positive = omega arith;
  counted = refl;
  fits = omega arith;
  back_at = omega arith;
  contents = unfold window in refl;
}

abbrev four : LogBuffer
four = record { max_size = 4; size = 0; stored = some nothing; is_full = false }

four-Collected : Collected four []
four-Collected = unfold allocate blank in allocate-Collected nothing 4 (omega arith)

write_lem_example :
    Collected (write four (7 ∷ 8 ∷ [])).0 (collect 4 ([], false) (7 ∷ 8 ∷ [])).0
    × ((write four (7 ∷ 8 ∷ [])).0.is_full ≡ (collect 4 ([], false) (7 ∷ 8 ∷ [])).1)
    × ((write four (7 ∷ 8 ∷ [])).0.max_size ≡ 4)
    × ((write four (7 ∷ 8 ∷ [])).1 ≡ (if ltb 4 2 then false else true))
write_lem_example = write_lem {b = four} [] (7 ∷ 8 ∷ []) four-Collected (omega arith)

abbrev turns : List (Turn ℕ)
turns =
    push_turn 4
    ∷ push_turn 5
    ∷ pop_turn
    ∷ push_turn 5
    ∷ pop_turn
    ∷ pop_turn
    ∷ pop_turn
    ∷ push_turn 6
    ∷ []

schedule_refines_example : schedule one_slot turns ≡ some (schedule_spec 2 (9 ∷ []) turns)
schedule_refines_example = schedule_refines turns {q = one_slot} (9 ∷ []) 2 one_slot-Waiting refl
