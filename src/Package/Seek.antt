-- ===== src/Package/Seek.antt =====
-- `seek` from the current position, which looks at the offset alone.
use lce.Prelude.{
  ℕ, ◌+◌, ◌-◌, ◌^◌, ◌≤◌, ◌<◌, ◌≡◌, ap, ◌∙◌, length, true, arith, le→leb, lt→leb, lt→ltb, leb, none,
}
use lce.Prelude.Words.{add_size, sub_size, int_of, le_signed}
use lce.Package.{Package, fault, bytes_at, room, cursor, fetch, get_word, seek_cur}

int_of_small : (w : ℕ) → w < 2 ^ 31 → int_of w ≡ w
int_of_small w lt = ground arith

le_signed_small : (a b : ℕ) → a < 2 ^ 32 → b < 2 ^ 32 → le_signed a b ≡ leb a b
le_signed_small a b p q = ground arith

-- From a position inside the package, `seek` with `S_CUR` accepts an offset that is smaller than the
-- body also where it leads past the end, and `>>` then passes its check and fetches a word from
-- outside the bytes. Package and positions stay below 2^31.
pub get_word-seek_cur :
    (head : ℕ) (p : Package) (off n : ℕ)
    → length p.bytes < 2 ^ 31
    → head + p.pos ≤ length p.bytes
    → head + off < length p.bytes
    → length p.bytes < head + (p.pos + off)
    → p.pos + off < 2 ^ 31
    → 0 < n
    → n < 2 ^ 31
    → ((seek_cur head p off).1 ≡ true) × (get_word head n (seek_cur head p off).0 ≡ fault)
get_word-seek_cur head p off n small inside low past int pos short =
    (ap (λ r. r.1) sought, ap (λ r. get_word head n r.0) sought ∙ stray)
  where
    beyond : Package
    beyond = record p { pos = p.pos + off }

    body : int_of (sub_size (length p.bytes) head) ≡ length p.bytes - head
    body = ap int_of (omega arith) ∙ int_of_small (length p.bytes - head) (omega arith)

    place : int_of (add_size p.pos off) ≡ p.pos + off
    place = ap int_of (omega arith) ∙ int_of_small (p.pos + off) (omega arith)

    sought : seek_cur head p off ≡ (beyond, true)
    sought =
        unfold seek_cur in
        rw (
          body,
          place,
          le_signed_small (length p.bytes - head) off (omega arith) (omega arith),
          le_signed_small 0 (p.pos + off) (omega arith) (omega arith),
          lt→leb (length p.bytes - head) off (omega arith),
          le→leb 0 (p.pos + off) (omega arith),
        )

    free : n ≤ room head beyond
    free = omega arith

    outside : bytes_at p.bytes (cursor head beyond) n ≡ none
    outside = unfold bytes_at in rw (lt→ltb (length p.bytes) (cursor head beyond + n) (omega arith))

    stray : get_word head n beyond ≡ fault
    stray = unfold get_word in rw (le→leb n (room head beyond) free, outside, fetch)
