-- ===== src/BufferQueue.antt =====
-- `CBufferQueue` of include/CBufferQueue.h: a queue of byte messages in a fixed, possibly shared,
-- buffer. A message is stored as an 8-byte length mark and its bytes, and both may go round the
-- end of the buffer. `_header` is the record's first five fields and `_data` its `bytes`; a pointer
-- into `_data` is an index. An `assert` that fails is `aborted`; a `runtime_error` is `throws`, with
-- the state that it leaves.
pub mod Frames
pub mod Spec
pub mod Push
pub mod Pop
pub mod Client
pub mod TwoPart
use lce.Prelude.{
  ℕ, ◌+◌, ◌-◌, ◌%◌, ◌^◌, Bool, true, false, not, List, ◌++◌, Option, none, some, length, take, drop,
  ltb, leb, ◌==◌, if◌then◌else◌,
}
use lce.Prelude.Memory.{Memory, store, load}
use lce.Prelude.Words.{add_size, sub_size, le_bytes, le_value}

-- `ulMarkLen`, `ulReserveLen`, and `sizeof(Header)`
abbrev pub mark_len : ℕ
mark_len = 8

abbrev pub reserve_len : ℕ
reserve_len = 8

abbrev pub sizeof_header : ℕ
sizeof_header = 40

pub record BufferQueue : Type 0 where
  pub buf_size : ℕ
  pub reserved : ℕ
  pub begin : ℕ
  pub end : ℕ
  pub num : ℕ
  pub bytes : Memory ℕ

pub data Error : Type 0 where
  too_small wrong_size wrong_reserve wrong_begin wrong_end full_queue too_long : Error

pub data Outcome {ℓ} (A : Type ℓ) : Type ℓ where
  ok : BufferQueue → A → Outcome A
  throws : Error → BufferQueue → Outcome A
  aborted : Outcome A

infixl 5 ◌>>=◌
abbrev pub ◌>>=◌ {ℓ κ} :
    {A : Type ℓ} {B : Type κ} → Outcome A → (BufferQueue → A → Outcome B) → Outcome B
ok q a >>= f = f q a
throws e q >>= f = throws e q
aborted >>= f = aborted

-- `assert(c)`, then the rest
abbrev pub assert {ℓ} : {A : Type ℓ} → Bool → Outcome A → Outcome A
assert true r = r
assert false r = aborted

unfoldable pub get_len : List ℕ → ℕ
get_len = le_value

unfoldable pub set_len : ℕ → List ℕ
set_len = le_bytes mark_len

-- The queue argument is what the buffer holds; `size` is the parameter `iBufSize`.
unfoldable pub attach : BufferQueue → ℕ → Outcome (Unit {0})
attach q size =
    if leb size (sizeof_header + mark_len + reserve_len)
    then throws too_small q
    else (if not (q.buf_size == sub_size size sizeof_header)
        then throws wrong_size q
        else (if not (q.reserved == reserve_len)
            then throws wrong_reserve q
            else (if leb q.buf_size q.begin
                then throws wrong_begin q
                else (if ltb (sub_size size sizeof_header) q.end
                    then throws wrong_end q
                    else ok q tt))))

unfoldable pub create : BufferQueue → ℕ → Outcome (Unit {0})
create q size =
    if leb size (sizeof_header + mark_len + reserve_len)
    then throws too_small q
    else ok
        (record {
          buf_size = sub_size size sizeof_header;
          reserved = reserve_len;
          begin = 0;
          end = 0;
          num = 0;
          bytes = q.bytes;
        })
        tt

-- The opening of both `push`es: is there room for `len` bytes, their mark and the reserve?
unfoldable pub check_room : BufferQueue → ℕ → Outcome (Unit {0})
check_room q len =
    if q.end == q.begin
    then (let q0 = record q { num = 0 } in
        if ltb q.buf_size (add_size (add_size mark_len len) reserve_len)
        then throws full_queue q0
        else ok q0 tt)
    else (if ltb q.begin q.end
        then assert (ltb (add_size q.begin mark_len) q.end) (
            if ltb (add_size (sub_size q.buf_size q.end) q.begin)
              (add_size (add_size mark_len len) reserve_len)
            then throws full_queue q
            else ok q tt)
        else assert (leb (add_size q.end reserve_len) q.begin) (
            if ltb (sub_size q.begin q.end) (add_size (add_size mark_len len) reserve_len)
            then throws full_queue q
            else ok q tt))

-- The end of a push: the new bytes and end, the assertion of the branches that wrap, the count.
abbrev pub pushed : BufferQueue → Memory ℕ → ℕ → Outcome (Unit {0})
pushed q bytes end = ok (record q { bytes = bytes; end = end; num = add_size q.num 1 }) tt

abbrev pub pushed_round : BufferQueue → Memory ℕ → ℕ → Outcome (Unit {0})
pushed_round q bytes end = assert (leb (add_size end reserve_len) q.begin) (pushed q bytes end)

-- the three layouts of `push(buffer, len)`: the mark is split, the bytes are split, neither is
unfoldable pub place : BufferQueue → List ℕ → Outcome (Unit {0})
place q buffer =
    let len = length buffer in
    let mark = set_len len in
    let s = q.buf_size in
    let e = q.end in
    if ltb s (add_size e mark_len)
    then (let k = sub_size s e in
        let over = sub_size (add_size e mark_len) s in
        pushed_round q (store (store (store q.bytes e (take k mark)) 0 (drop k mark)) over buffer)
          (sub_size (add_size (add_size len e) mark_len) s))
    else (if ltb s (add_size (add_size e mark_len) len)
        then (let k = sub_size (sub_size s e) mark_len in
            pushed_round q
              (store (store (store q.bytes e mark) (add_size e mark_len) (take k buffer)) 0
                (drop k buffer))
              (sub_size len k))
        else pushed q (store (store q.bytes e mark) (add_size e mark_len) buffer)
            (add_size (add_size e mark_len) len % s))

unfoldable pub push : BufferQueue → List ℕ → Outcome (Unit {0})
push q buffer =
    if length buffer == 0
    then ok q tt
    else (check_room q (length buffer) >>= λ q0 _. place q0 buffer)

-- `tmp_num = iNum; if (tmp_num > 0) iNum = tmp_num - 1;`, where `tmp_num` has 32 bits
abbrev pub count_down : ℕ → ℕ
count_down num = if ltb 0 (num % 2 ^ 32) then num % 2 ^ 32 - 1 else num

-- The message at the front of a queue whose contents wrap: its length, the index of its first
-- byte, and the index just past it.
unfoldable pub locate : BufferQueue → ℕ × ℕ × ℕ
locate q =
    if ltb s (add_size b mark_len)
    then (let over = sub_size (add_size b mark_len) s in
        let len = get_len (load m b (sub_size s b) ++ load m 0 over) in
        (len, over, add_size over len))
    else (let len = get_len (load m b mark_len) in
        let from = add_size b mark_len in
        (
          len,
          (if from == s then 0 else from),
          (if ltb (add_size from len) s then add_size from len else sub_size (add_size from len) s),
        ))
  where
    s : ℕ
    s = q.buf_size

    b : ℕ
    b = q.begin

    m : Memory ℕ
    m = q.bytes

-- The assertions of `locate`'s branches that go round: `assert(new_begin <= iEnd)`.
unfoldable pub locate_asserts : BufferQueue → Bool
locate_asserts q =
    let (len, from, to) = locate q in
    if ltb q.buf_size (add_size q.begin mark_len)
    then leb to q.end
    else (if ltb (add_size (add_size q.begin mark_len) len) q.buf_size then true else leb to q.end)

-- The end of a pop: a message longer than the caller's buffer is dropped and reported; any other is
-- handed out, after the last assertion `check`.
abbrev pub finish : BufferQueue → ℕ → ℕ → ℕ → Bool → List ℕ → Outcome (Option (List ℕ))
finish q buffersize len new_begin check out =
    let q' = record q { begin = new_begin; num = count_down q.num } in
    if ltb buffersize len then throws too_long q' else assert check (ok q' (some out))

-- `pop(buffer, buffersize)`: the bytes written to `buffer`, as many as the new `buffersize`, or
-- `none` for `false`. First the branch in which the contents do not wrap.
unfoldable pub pop_straight : BufferQueue → ℕ → Outcome (Option (List ℕ))
pop_straight q buffersize = assert (ltb (add_size q.begin mark_len) q.end) (
    let len = get_len (load q.bytes q.begin mark_len) in
    assert (leb (add_size (add_size q.begin mark_len) len) q.end) (
      finish q buffersize len (add_size q.begin (add_size len mark_len)) true
        (load q.bytes (add_size q.begin mark_len) len)))

unfoldable pub pop_round : BufferQueue → ℕ → Outcome (Option (List ℕ))
pop_round q buffersize = assert (leb (add_size q.end reserve_len) q.begin) (
    assert (ltb q.begin q.buf_size) (
      assert (locate_asserts q) (
        let (len, from, to) = locate q in
        if ltb from to
        then finish q buffersize len to (sub_size to from == len) (load q.bytes from len)
        else finish q buffersize len to (sub_size q.buf_size (sub_size from to) == len)
            (load q.bytes from (sub_size q.buf_size from) ++ load q.bytes 0 to))))

unfoldable pub pop : BufferQueue → ℕ → Outcome (Option (List ℕ))
pop q buffersize =
    if q.begin == q.end
    then ok (record q { num = 0 }) none
    else (if ltb q.begin q.end then pop_straight q buffersize else pop_round q buffersize)

unfoldable pub empty : BufferQueue → Bool
empty q = q.begin == q.end

-- `full(len)`: `none` for a failed assertion
unfoldable pub full : BufferQueue → ℕ → Option Bool
full q len =
    let need = add_size (add_size len mark_len) reserve_len in
    if len == 0
    then some false
    else (if q.end == q.begin
        then some (ltb q.buf_size need)
        else (if ltb q.begin q.end
            then (if ltb (add_size q.begin mark_len) q.end
                then some (ltb (add_size (sub_size q.buf_size q.end) q.begin) need)
                else none)
            else (if leb (add_size q.end reserve_len) q.begin
                then some (ltb (sub_size q.begin q.end) need)
                else none)))

-- `size()` resets the count of an empty queue.
unfoldable pub size : BufferQueue → BufferQueue × ℕ
size q = if empty q then (record q { num = 0 }, 0) else (q, q.num)
