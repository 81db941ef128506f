-- ===== src/Examples/Socket.antt =====
-- A `CSocketBuf` of four bytes that may grow to sixteen.
use lce.Prelude.{ℕ, ◌≡◌, List, [], ◌∷◌, ◌++◌, ◌⊎◌, ◌<◌, length, arith}
use lce.Prelude.Memory.{Memory}
use lce.SocketBuf.{SocketBuf, ok, init, add_data, remove_data}
use lce.SocketBuf.Contents.{Holds}
use lce.SocketBuf.Append.{appended, appended-Holds, Adds, add_data_lem}
use lce.SocketBuf.Consume.{init-Holds, remove_data_lem}

abbrev fresh : ℕ → Memory ℕ
fresh n = λ i. 7

abbrev start : SocketBuf
start = record {
  buf_size = 4;
  begin_pos = 0;
  end_pos = 0;
  allow_max = 16;
  init_size = 4;
  bytes = fresh 4;
}

start-Holds : Holds start []
start-Holds = unfold init in init-Holds fresh 4 16 (omega arith) (omega arith)

abbrev abc : List ℕ
abc = 97 ∷ 98 ∷ 99 ∷ []

abbrev three : SocketBuf
three = appended start abc

three-Holds : Holds three abc
three-Holds = appended-Holds [] abc start-Holds (omega arith)

add_data_lem_example : Adds fresh three abc (abc ++ abc) (add_data fresh three (abc ++ abc))
add_data_lem_example = add_data_lem fresh {s = three} abc (abc ++ abc) three-Holds

init-Holds_example : Holds (init fresh 4 16) []
init-Holds_example = init-Holds fresh 4 16 (omega arith) (omega arith)

remove_data_lem_example :
    (s' : SocketBuf) × (remove_data fresh three 2 ≡ ok s' tt)
    × Holds s' (99 ∷ [])
    × ((2 ≡ length abc) × (s'.buf_size ≡ 4) ⊎ (2 < 3) × (s'.buf_size ≡ 4))
remove_data_lem_example = remove_data_lem fresh {s = three} abc 2 three-Holds (omega arith)
