-- ===== src/Examples/Filter.antt =====
-- A frame of three bytes with a length of two bytes, and what arrives of it.
use lce.Prelude.{
  ℕ, ◌+◌, ◌≤◌, ◌≡◌, refl, List, [], ◌∷◌, length, take, some, arith, ◌==◌, ltb, if◌then◌else◌,
}
use lce.Prelude.Memory.{Memory, load, store, load-store}
use lce.Prelude.Words.{be_bytes, be_value, be_from}
use lce.PackageFilter.{whole, incomplete, is_whole_marked}
use lce.PackageFilter.Framing.{
  frame, length-frame, whole_of_frame, incomplete_of_prefix, whole_sound,
}

abbrev payload : List ℕ
payload = 1 ∷ 2 ∷ 3 ∷ []

abbrev received : Memory ℕ
received = store (λ i. 0) 0 (frame 2 payload)

arrived : load received 0 (length (frame 2 payload)) ≡ frame 2 payload
arrived = load-store (λ i. 0) 0 (frame 2 payload)

whole_of_frame_example :
    (is_whole_marked 2 received 9
      ≡ record { code = whole; real_pkg_len = some 3; pkg_len = some (length (frame 2 payload)) })
    × (load received 3 3 ≡ payload)
whole_of_frame_example =
    whole_of_frame 2 received payload 9 (omega arith) (omega arith) arrived
      (omega (arith, length-frame 2 payload))

abbrev part : Memory ℕ
part = λ i. if i == 0 then 2 else (if i == 1 then 0 else 7)

incomplete_of_prefix_example : (is_whole_marked 2 part 2).code ≡ incomplete
incomplete_of_prefix_example =
    incomplete_of_prefix 2 part payload 2 (omega arith) (omega arith)
      (omega (arith, length-frame 2 payload)) beginning
  where
    beginning : load part 0 2 ≡ take 2 (frame 2 payload)
    beginning = unfold load be_bytes in refl

abbrev small : Memory ℕ
small = λ i. if i == 0 then 2 else (if i == 1 then 0 else (if i == 2 then 5 else 3))

whole_sound_example :
    (5 ≤ 7) × (1 + 4 ≡ 5) × (be_value (load small 1 2) ≡ 5) × (small 0 ≡ 2) × (small 4 ≡ 3)
whole_sound_example = whole_sound 2 small 7 1 5 run
  where
    run :
        is_whole_marked 2 small 7 ≡ record { code = whole; real_pkg_len = some 1; pkg_len = some 5 }
    run = unfold is_whole_marked load be_from in refl

abbrev beyond : Memory ℕ
beyond = λ i. if ltb i 7 then small i else 9
