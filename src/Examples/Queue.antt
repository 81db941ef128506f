-- ===== src/Examples/Queue.antt =====
-- A `CBufferQueue` of 60 bytes in use.
use lce.Prelude.{ℕ, ◌≡◌, refl, List, [], ◌∷◌, some, arith}
use lce.Prelude.Cyclic.{window}
use lce.BufferQueue.{BufferQueue, push, pop}
use lce.BufferQueue.Frames.{Holds, frames}
use lce.BufferQueue.Spec.{Matches, enqueue, dequeue, run_spec, push_call, pop_call, Call}
use lce.BufferQueue.Push.{after_push, push_ok, after_push-Holds, push_refines}
use lce.BufferQueue.Pop.{pop_refines}
use lce.BufferQueue.Client.{push_in_bounds, run, run_refines}
use lce.BufferQueue.TwoPart.{push2, pop2}
use lce.BufferQueue.TwoPart.Push.{push2_lem}
use lce.BufferQueue.TwoPart.Pop.{pop2_lem, cut}

abbrev none_yet : BufferQueue
none_yet = record { buf_size = 60; reserved = 8; begin = 50; end = 50; num = 0; bytes = λ i. 0 }

none_yet-Holds : Holds none_yet []
none_yet-Holds = record {
  small = omega arith;
  large = omega arith;
  reserve = refl;
  begin_in = omega arith;
  end_at = omega arith;
  fits = omega arith;
  framed = unfold window frames in refl;
  counted = refl;
  nonempty = tt;
}

abbrev hello : List ℕ
hello = 104 ∷ 101 ∷ 108 ∷ 108 ∷ 111 ∷ []

-- A mark that is split at the end of the buffer.
abbrev one : BufferQueue
one = after_push none_yet hello

one-Holds : Holds one (hello ∷ [])
one-Holds = after_push-Holds [] hello none_yet-Holds (omega arith) (omega arith)

abbrev calls : List Call
calls = push_call hello ∷ push_call [] ∷ pop_call 3 ∷ pop_call 9 ∷ push_call hello ∷ pop_call 5 ∷ []

run_refines_example : run one calls ≡ some (run_spec 60 (hello ∷ []) calls)
run_refines_example =
    run_refines calls {q = one} (hello ∷ []) one-Holds
      (omega arith, (omega arith, (omega arith, tt)))

push_refines_example : Matches 60 (push one (7 ∷ [])) (enqueue 60 (hello ∷ []) (7 ∷ []))
push_refines_example = push_refines {q = one} (hello ∷ []) (7 ∷ []) one-Holds (omega arith)

pop_refines_example : Matches 60 (pop one 16) (dequeue (hello ∷ []) 16)
pop_refines_example = pop_refines {q = one} (hello ∷ []) 16 one-Holds

push2_lem_example : push2 one (1 ∷ 2 ∷ []) (3 ∷ []) ≡ push one (1 ∷ 2 ∷ 3 ∷ [])
push2_lem_example = push2_lem {q = one} (hello ∷ []) (1 ∷ 2 ∷ []) (3 ∷ []) one-Holds (omega arith)

pop2_lem_example : pop2 one 2 10 ≡ cut 2 (pop one 12)
pop2_lem_example = pop2_lem {q = one} (hello ∷ []) 2 10 one-Holds (omega arith)

push_in_bounds_example : (after_push one (7 ∷ [])).bytes 61 ≡ one.bytes 61
push_in_bounds_example =
    push_in_bounds {q = one} {q' = after_push one (7 ∷ [])} (hello ∷ []) (7 ∷ []) 61 one-Holds
      (omega arith) (push_ok (hello ∷ []) (7 ∷ []) one-Holds (omega arith) (omega arith))
      (omega arith)
