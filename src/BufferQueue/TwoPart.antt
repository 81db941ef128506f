-- ===== src/BufferQueue/TwoPart.antt =====
-- The two-buffer `push` and `pop` of `CBufferQueue`: a message is taken from, or handed out to, two
-- buffers in turn.
pub mod Push
pub mod Pop
use lce.Prelude.{
  ℕ, ◌+◌, ◌-◌, ◌%◌, ◌^◌, Bool, true, false, List, [], ◌++◌, Option, none, some, length, take, drop,
  ltb, leb, ◌==◌, if◌then◌else◌,
}
use lce.Prelude.Memory.{Memory, store, load}
use lce.Prelude.Words.{add_size, sub_size}
use lce.BufferQueue.{
  BufferQueue, Outcome, ok, throws, aborted, ◌>>=◌, assert, Error, too_long, mark_len, reserve_len,
  get_len, set_len, check_room, pushed, pushed_round, locate, locate_asserts,
}

-- `len1 + len2` is a sum of two `unsigned`s.
abbrev pub sum_len : List ℕ → List ℕ → ℕ
sum_len buffer1 buffer2 = (length buffer1 + length buffer2) % 2 ^ 32

-- The second layout of `place2`, in which the mark fits before the end of the buffer and the
-- message does not: one of its two parts is split.
unfoldable pub place2_round : BufferQueue → List ℕ → List ℕ → Memory ℕ
place2_round q buffer1 buffer2 =
    let len1 = length buffer1 in
    let m = store q.bytes q.end (set_len (sum_len buffer1 buffer2)) in
    let at = add_size q.end mark_len in
    let k = sub_size (sub_size q.buf_size q.end) mark_len in
    if ltb q.buf_size (add_size at len1)
    then store (store (store m at (take k buffer1)) 0 (drop k buffer1)) (sub_size len1 k) buffer2
    else (let k2 = sub_size k len1 in
        store (store (store m at buffer1) (add_size at len1) (take k2 buffer2)) 0 (drop k2 buffer2))

unfoldable pub place2 : BufferQueue → List ℕ → List ℕ → Outcome (Unit {0})
place2 q buffer1 buffer2 =
    let len = sum_len buffer1 buffer2 in
    let len1 = length buffer1 in
    let mark = set_len len in
    let s = q.buf_size in
    let e = q.end in
    if ltb s (add_size e mark_len)
    then (let k = sub_size s e in
        let over = sub_size (add_size e mark_len) s in
        pushed_round q
          (store (store (store (store q.bytes e (take k mark)) 0 (drop k mark)) over buffer1)
            (add_size over len1) buffer2)
          (sub_size (add_size (add_size len e) mark_len) s))
    else (if ltb s (add_size (add_size e mark_len) len)
        then pushed_round q (place2_round q buffer1 buffer2)
            (sub_size len (sub_size (sub_size s e) mark_len))
        else pushed q
            (store (store (store q.bytes e mark) (add_size e mark_len) buffer1)
              (add_size (add_size e mark_len) len1) buffer2)
            (add_size (add_size e mark_len) len % s))

unfoldable pub push2 : BufferQueue → List ℕ → List ℕ → Outcome (Unit {0})
push2 q buffer1 buffer2 =
    let len = sum_len buffer1 buffer2 in
    if len == 0 then ok q tt else (check_room q len >>= λ q0 _. place2 q0 buffer1 buffer2)

-- `tmp_num = iNum; if (tmp_num > 0) iNum = tmp_num - 1;`, where `tmp_num` has 64 bits here
abbrev pub count_down2 : ℕ → ℕ
count_down2 num = if ltb 0 num then num - 1 else num

abbrev pub finish2 :
    BufferQueue → ℕ → ℕ → ℕ → Bool → List ℕ × List ℕ → Outcome (Option (List ℕ × List ℕ))
finish2 q buffersize len new_begin check out =
    let q' = record q { begin = new_begin; num = count_down2 q.num } in
    if ltb buffersize len then throws too_long q' else assert check (ok q' (some out))

-- Contents that do not wrap, from index `from` on: the first buffer takes all, or is filled.
abbrev pub deal : Memory ℕ → ℕ → ℕ → ℕ → List ℕ × List ℕ
deal m from len n1 =
    if ltb len n1
    then (load m from len, [])
    else (load m from n1, load m (add_size from n1) (sub_size len n1))

-- Contents that wrap after `k` bytes: the wrap falls past the message's end in the first buffer,
-- in the first buffer, or in the second.
abbrev pub deal_round : Memory ℕ → ℕ → ℕ → ℕ → ℕ → ℕ → List ℕ × List ℕ
deal_round m s from to len n1 =
    let k = sub_size s from in
    if ltb len n1
    then (load m from k ++ load m 0 to, [])
    else (if ltb k n1
        then (
          load m from k ++ load m 0 (sub_size n1 k),
          load m (sub_size (add_size from n1) s) (sub_size len n1),
        )
        else (
          load m from n1,
          load m (add_size from n1) (sub_size k n1) ++ load m 0 (sub_size len k),
        ))

-- `pop(buffer1, buffersize1, buffer2, buffersize2)`: what is written to the two buffers, as many
-- bytes as their new sizes.
unfoldable pub pop2_straight : BufferQueue → ℕ → ℕ → Outcome (Option (List ℕ × List ℕ))
pop2_straight q n1 n2 = assert (ltb (add_size q.begin mark_len) q.end) (
    let len = get_len (load q.bytes q.begin mark_len) in
    assert (leb (add_size (add_size q.begin mark_len) len) q.end) (
      finish2 q (add_size n1 n2) len (add_size q.begin (add_size len mark_len)) true
        (deal q.bytes (add_size q.begin mark_len) len n1)))

unfoldable pub pop2_round : BufferQueue → ℕ → ℕ → Outcome (Option (List ℕ × List ℕ))
pop2_round q n1 n2 = assert (leb (add_size q.end reserve_len) q.begin) (
    assert (ltb q.begin q.buf_size) (
      assert (locate_asserts q) (
        let (len, from, to) = locate q in
        if ltb from to
        then finish2 q (add_size n1 n2) len to (sub_size to from == len) (deal q.bytes from len n1)
        else finish2 q (add_size n1 n2) len to (sub_size q.buf_size (sub_size from to) == len)
            (deal_round q.bytes q.buf_size from to len n1))))

unfoldable pub pop2 : BufferQueue → ℕ → ℕ → Outcome (Option (List ℕ × List ℕ))
pop2 q n1 n2 =
    if q.begin == q.end
    then ok (record q { num = 0 }) none
    else (if ltb q.begin q.end then pop2_straight q n1 n2 else pop2_round q n1 n2)
