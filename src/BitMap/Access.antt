-- ===== src/BitMap/Access.antt =====
-- A bitmap is an array of small numbers.
use lce.Prelude.{
  ℕ, zero, suc, ◌/◌, ◌%◌, ◌^◌, ◌≤◌, ◌<◌, ◌≡◌, ◌≢◌, refl, sym, ap, ◌∙◌, true, List, [], ◌∷◌, none,
  some, length, replicate, le→ltb, ◌==◌, eq→==, ne→==, if◌then◌else◌, arith,
}
use native.Mathlib.Decide.{ℕ_discrete}
use lce.BitMap.{
  Width, one_bit, two_bits, four_bits, bits, per_byte, BitMap, byte_at, put_byte, data_size, init,
  field, with_field, get, set, clear, get_8, set_8,
}
use lce.BitMap.Fields.{field-with_field, with_field-byte, field-zero}

abbrev pub AreBytes : List ℕ → Type 0
AreBytes [] = Unit {0}
AreBytes (b ∷ bs) = (b < 256) × AreBytes bs

-- A bitmap of `n` fields has the memory for them.
pub record Fields (w : Width) (n : ℕ) (m : BitMap) : Type 0 where
  pub indices : m.max_index ≡ n
  pub sized : length m.bytes ≡ data_size w n
  pub are_bytes : AreBytes m.bytes

byte_at-some :
    (i : ℕ) (bs : List ℕ)
    → AreBytes bs
    → i < length bs
    → (b : ℕ) × (byte_at i bs ≡ some b) × (b < 256)
byte_at-some i [] are lt = absurd (omega arith)
byte_at-some zero (b ∷ bs) are lt = (b, refl, are.0)
byte_at-some (suc i) (b ∷ bs) are lt = byte_at-some i bs are.1 (omega arith)

byte_at-none : (i : ℕ) (bs : List ℕ) → length bs ≤ i → byte_at i bs ≡ none
byte_at-none i [] le = refl
byte_at-none zero (b ∷ bs) le = absurd (omega arith)
byte_at-none (suc i) (b ∷ bs) le = byte_at-none i bs (omega arith)

byte_at-put_byte :
    (i k b : ℕ) (bs : List ℕ)
    → k < length bs
    → byte_at i (put_byte k b bs) ≡ (if i == k then some b else byte_at i bs)
byte_at-put_byte i k b [] lt = absurd (omega arith)
byte_at-put_byte zero zero b (c ∷ bs) lt = refl
byte_at-put_byte zero (suc k) b (c ∷ bs) lt = ground arith
byte_at-put_byte (suc i) zero b (c ∷ bs) lt = ground arith
byte_at-put_byte (suc i) (suc k) b (c ∷ bs) lt =
    byte_at-put_byte i k b bs (omega arith) ∙ ground arith

length-put_byte : (k b : ℕ) (bs : List ℕ) → length (put_byte k b bs) ≡ length bs
length-put_byte k b [] = refl
length-put_byte zero b (c ∷ bs) = refl
length-put_byte (suc k) b (c ∷ bs) = ap suc (length-put_byte k b bs)

put_byte-AreBytes : (k b : ℕ) (bs : List ℕ) → b < 256 → AreBytes bs → AreBytes (put_byte k b bs)
put_byte-AreBytes k b [] lt are = tt
put_byte-AreBytes zero b (c ∷ bs) lt are = (lt, are.1)
put_byte-AreBytes (suc k) b (c ∷ bs) lt are = (are.0, put_byte-AreBytes k b bs lt are.1)

length-zeros : (k : ℕ) → length {A = ℕ} (replicate k 0) ≡ k
length-zeros zero = refl
length-zeros (suc k) = ap suc (length-zeros k)

zeros-AreBytes : (k : ℕ) → AreBytes (replicate k 0)
zeros-AreBytes zero = tt
zeros-AreBytes (suc k) = (omega arith, zeros-AreBytes k)

byte_at-zeros : (i k : ℕ) → i < k → byte_at i (replicate k 0) ≡ some 0
byte_at-zeros i zero lt = absurd (omega arith)
byte_at-zeros zero (suc k) lt = refl
byte_at-zeros (suc i) (suc k) lt = byte_at-zeros i k (omega arith)

in_memory : (w : Width) (n i : ℕ) → i < n → i / per_byte w < data_size w n
in_memory one_bit n i lt = omega arith
in_memory two_bits n i lt = omega arith
in_memory four_bits n i lt = omega arith

in_byte : (w : Width) (i : ℕ) → i % per_byte w < per_byte w
in_byte one_bit i = omega arith
in_byte two_bits i = omega arith
in_byte four_bits i = omega arith

same_place :
    (w : Width) (i j : ℕ)
    → i / per_byte w ≡ j / per_byte w
    → i % per_byte w ≡ j % per_byte w
    → i ≡ j
same_place one_bit i j a b = omega arith
same_place two_bits i j a b = omega arith
same_place four_bits i j a b = omega arith

get_byte :
    (w : Width) (m : BitMap) (j b : ℕ)
    → j ≤ m.max_index
    → byte_at (j / per_byte w) m.bytes ≡ some b
    → get w m j ≡ some (field w b (j % per_byte w))
unfolding get
get_byte w m j b le e = rw (le→ltb m.max_index j le, e, get) refl

module _ {w : Width} {n : ℕ} {m : BitMap} (h : Fields w n m) where
  -- `get` of an index below the size
  get_lem :
      (i : ℕ)
      → i < n
      → (b : ℕ) × (byte_at (i / per_byte w) m.bytes ≡ some b)
        × (b < 256)
        × (get w m i ≡ some (field w b (i % per_byte w)))
  get_lem i lt =
      let (b, e, small) =
        byte_at-some (i / per_byte w) m.bytes h.are_bytes (rw h.sized (in_memory w n i lt)) in
      (b, e, small, get_byte w m i b (omega (arith, h.indices, lt)) e)

  -- `set` of an index below the size succeeds without leaving the memory, and leaves a bitmap of the same
  -- size: `get` gives the new value at the index, if the field can hold it, and the old values at all
  -- other indices.
  pub get-set :
      (i v : ℕ)
      → i < n
      → v < 2 ^ bits w
      → (m' : BitMap) × (set w m i v ≡ some (m', true))
        × Fields w n m'
        × ((j : ℕ) → j < n → get w m' j ≡ (if j == i then some v else get w m j))
  unfolding set
  get-set i v lt small =
      let (b, e, byte, got) = get_lem i lt in
      (
        record m { bytes = put_byte (i / per_byte w) (with_field w b (i % per_byte w) v) m.bytes },
        rw (le→ltb m.max_index i (omega (arith, h.indices, lt)), e, set) refl,
        record {
          indices = h.indices;
          sized = length-put_byte (i / per_byte w) _ m.bytes ∙ h.sized;
          are_bytes =
              put_byte-AreBytes (i / per_byte w) _ m.bytes (with_field-byte w b (i % per_byte w) v)
                h.are_bytes;
        },
        λ j below. other j below b e byte,
      )
    where
      new : ℕ → List ℕ
      new b = put_byte (i / per_byte w) (with_field w b (i % per_byte w) v) m.bytes

      other :
          (j : ℕ)
          → j < n
          → (b : ℕ) → byte_at (i / per_byte w) m.bytes ≡ some b
          → b < 256
          → get w (record m { bytes = new b }) j ≡ (if j == i then some v else get w m j)
      other j below b e byte =
          let (d, is_d, byte_d, got) = get_lem j below in
          let there =
            byte_at-put_byte (j / per_byte w) (i / per_byte w) (with_field w b (i % per_byte w) v)
              m.bytes (rw h.sized (in_memory w n i lt)) in
          let le : j ≤ m.max_index = omega (arith, h.indices, below) in
          elim (ℕ_discrete (j / per_byte w) (i / per_byte w)) [
            | yes s ↦
                get_byte w (record m { bytes = new b }) j (with_field w b (i % per_byte w) v) le
                  (there ∙ rw (eq→== (j / per_byte w) (i / per_byte w) s) refl)
                ∙ ap some (
                    field-with_field w b (i % per_byte w) v (j % per_byte w) byte (in_byte w i)
                      small (in_byte w j))
                ∙ elim (ℕ_discrete (j % per_byte w) (i % per_byte w)) [
                  | yes q ↦
                      rw
                        (
                          eq→== (j % per_byte w) (i % per_byte w) q,
                          eq→== j i (same_place w j i s q),
                        )
                        refl
                  | no a ↦
                      rw
                        (
                          ne→== (j % per_byte w) (i % per_byte w) a,
                          ne→== j i (λ i_is. a (ap (λ k. k % per_byte w) i_is)),
                        )
                        (sym (get_byte w m j b le (ap (λ k. byte_at k m.bytes) s ∙ e)))
                ]
            | no a ↦
                get_byte w (record m { bytes = new b }) j d le
                  (there ∙ rw (ne→== (j / per_byte w) (i / per_byte w) a) is_d)
                ∙ sym got
                ∙ rw (ne→== j i (λ i_is. a (ap (λ k. k / per_byte w) i_is))) refl
          ]

  -- The index behind the last one is accepted as well. Where the size is a multiple of 8, `get` of it
  -- reads behind the memory of the bitmap, and `set` writes there.
  pub set_at_size : (v : ℕ) → n % 8 ≡ 0 → (get w m n ≡ none) × (set w m n v ≡ none)
  unfolding get set
  set_at_size v even =
      let out = byte_at-none (n / per_byte w) m.bytes (rw h.sized (at_end w n even)) in
      let accepted = le→ltb m.max_index n (omega (arith, h.indices)) in
      (rw (accepted, out, get) refl, rw (accepted, out, set) refl)
    where
      at_end : (w : Width) (n : ℕ) → n % 8 ≡ 0 → data_size w n ≤ n / per_byte w
      at_end one_bit n even = omega arith
      at_end two_bits n even = omega arith
      at_end four_bits n even = omega arith

  -- `clear` leaves a bitmap of the same size, in which every field is 0.
  pub get-clear : Fields w n (clear m) × ((j : ℕ) → j < n → get w (clear m) j ≡ some 0)
  unfolding clear
  get-clear = (cleared, λ j below. zero_field j below)
    where
      cleared : Fields w n (record m { bytes = replicate (length m.bytes) 0 })
      cleared = record {
        indices = h.indices;
        sized = length-zeros (length m.bytes) ∙ h.sized;
        are_bytes = zeros-AreBytes (length m.bytes);
      }

      zero_field :
          (j : ℕ) → j < n → get w (record m { bytes = replicate (length m.bytes) 0 }) j ≡ some 0
      zero_field j below =
          get_byte w (record m { bytes = replicate (length m.bytes) 0 }) j 0
            (omega (arith, h.indices, below))
            (byte_at-zeros (j / per_byte w) (length m.bytes) (rw h.sized (in_memory w n j below)))
          ∙ ap some (field-zero w (j % per_byte w) (in_byte w j))

-- `init` of a segment that is new, for a size above 0, makes a bitmap of that size, whatever bytes the
-- segment has.
pub init-Fields :
    (w : Width) (n : ℕ) (fresh : ℕ → List ℕ)
    → 0 < n
    → ((k : ℕ) → (length (fresh k) ≡ k) × AreBytes (fresh k))
    → (m : BitMap) × (init w n fresh ≡ some m) × Fields w n m
unfolding init
init-Fields w n fresh pos law = (
  record { max_index = n; bytes = fresh (data_size w n) },
  rw (ne→== (data_size w n) 0 (some_data w n pos)) refl,
  record { indices = refl; sized = (law (data_size w n)).0; are_bytes = (law (data_size w n)).1 },
)
  where
    some_data : (w : Width) (n : ℕ) → 0 < n → data_size w n ≢ 0
    some_data one_bit n pos = omega arith
    some_data two_bits n pos = omega arith
    some_data four_bits n pos = omega arith

-- The same for a field of eight bits.
pub get_8-set_8 :
    (m : BitMap) (i v : ℕ)
    → AreBytes m.bytes
    → length m.bytes ≡ m.max_index
    → i < m.max_index
    → (m' : BitMap) × (set_8 m i v ≡ some (m', true))
      × ((j : ℕ) → j < m.max_index → get_8 m' j ≡ (if j == i then some v else get_8 m j))
unfolding get_8 set_8
get_8-set_8 m i v are sized lt =
    let (b, e, byte) = byte_at-some i m.bytes are (omega (arith, sized)) in
    (
      record m { bytes = put_byte i v m.bytes },
      rw (le→ltb m.max_index i (omega arith), e, set_8) refl,
      λ j below.
          rw (le→ltb m.max_index j (omega arith))
            (byte_at-put_byte j i v m.bytes (omega (arith, sized))),
    )
