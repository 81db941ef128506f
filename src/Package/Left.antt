-- ===== src/Package/Left.antt =====
-- What a `CPackage` has left to read, and a read that finds enough.
use lce.Prelude.{
  ℕ, ◌+◌, ◌^◌, ◌≤◌, ◌<◌, ◌≡◌, sym, ap, ◌∙◌, List, length, length-drop, take, drop, drop-drop, some,
  le→ltb, arith,
}
use lce.Prelude.Words.{add_size}
use lce.Package.{Package, ok, bytes_at, room, cursor, advance, fetch}

-- The position stands inside the package, and these bytes are behind it.
pub record Left (head : ℕ) (p : Package) (rest : List ℕ) : Type 0 where
  pub small : length p.bytes < 2 ^ 31
  pub inside : head + p.pos ≤ length p.bytes
  pub behind : drop (head + p.pos) p.bytes ≡ rest

module _ {head : ℕ} {p : Package} (rest : List ℕ) (h : Left head p rest) where
  pub length-Left : head + p.pos + length rest ≡ length p.bytes
  length-Left =
      omega (arith, sym (ap length h.behind) ∙ length-drop (head + p.pos) p.bytes, h.inside)

  pub room_lem : room head p ≡ length rest
  room_lem = omega (arith, length-Left, h.small)

  pub cursor_lem : cursor head p ≡ head + p.pos
  cursor_lem = omega (arith, length-Left, h.small)

  pub advance-Left : (n : ℕ) → n ≤ length rest → Left head (advance head p n) (drop n rest)
  advance-Left n le = record {
    small = h.small;
    inside = omega (arith, length-Left, moved);
    behind =
        ap (λ i. drop i p.bytes) {x = head + (advance head p n).pos} {y = head + p.pos + n}
          (omega (arith, moved))
        ∙ sym (drop-drop n (head + p.pos) p.bytes)
        ∙ ap (drop n) h.behind;
  }
    where
      moved : add_size p.pos n ≡ p.pos + n
      moved = omega (arith, length-Left, h.small)

  pub fetch_lem :
      {A : Type 0} (n : ℕ) (f : List ℕ → A)
      → n ≤ length rest
      → fetch head p n f ≡ ok (advance head p n) (f (take n rest))
  fetch_lem n f le = rw (found, fetch)
    where
      found : bytes_at p.bytes (cursor head p) n ≡ some (take n rest)
      found =
          unfold bytes_at in
          rw (
            cursor_lem,
            le→ltb (length p.bytes) (head + p.pos + n) (omega (arith, length-Left)),
            h.behind,
          )
