-- ===== src/Utf8/RoundTrip.antt =====
-- Each character is read back from what is written for it: src/utf8.c.
use yaz.Prelude.{
  ℕ, ◌+◌, ◌/◌, ◌^◌, ◌≤◌, ◌<◌, ◌≡◌, [], ◌∷◌, ◌++◌, Bytes, none, some, length, leb, if◌then◌else◌,
  arith, inl, inr, Bool-cases, true, ap, ◌∙◌,
}
use yaz.Utf8.{char, tail, yaz_read_utf8_char, yaz_write_utf8_char}

-- The octets of a character below 2^31.
abbrev pub utf8_octets : ℕ → Bytes
utf8_octets x =
    if leb x 0x7f
    then x ∷ []
    else if leb x 0x7ff
    then (x / 64 + 0xc0) ∷ tail x 0 ∷ []
    else if leb x 0xffff
    then (x / 64 ^ 2 + 0xe0) ∷ tail x 1 ∷ tail x 0 ∷ []
    else if leb x 0x1fffff
    then (x / 64 ^ 3 + 0xf0) ∷ tail x 2 ∷ tail x 1 ∷ tail x 0 ∷ []
    else if leb x 0x3ffffff
    then (x / 64 ^ 4 + 0xf8) ∷ tail x 3 ∷ tail x 2 ∷ tail x 1 ∷ tail x 0 ∷ []
    else (x / 64 ^ 5 + 0xfc) ∷ tail x 4 ∷ tail x 3 ∷ tail x 2 ∷ tail x 1 ∷ tail x 0 ∷ []

-- They are written exactly if there is room for them.
pub write_utf8_lem :
    (x left : ℕ)
    → x < 2 ^ 31
    → yaz_write_utf8_char x left
      ≡ (if leb (length (utf8_octets x)) left then some (utf8_octets x) else none)
unfolding yaz_write_utf8_char
write_utf8_lem x left h = ground arith

read_one : (x : ℕ) (rest : Bytes) → x ≤ 0x7f → yaz_read_utf8_char (x ∷ rest) ≡ char x 1
unfolding yaz_read_utf8_char
read_one x rest h = ground arith

read_two :
    (x : ℕ) (rest : Bytes)
    → 0x80 ≤ x
    → x ≤ 0x7ff
    → yaz_read_utf8_char ((x / 64 + 0xc0) ∷ tail x 0 ∷ rest) ≡ char x 2
unfolding yaz_read_utf8_char
read_two x rest h k = ground arith

read_three :
    (x : ℕ) (rest : Bytes)
    → 0x800 ≤ x
    → x ≤ 0xffff
    → yaz_read_utf8_char ((x / 64 ^ 2 + 0xe0) ∷ tail x 1 ∷ tail x 0 ∷ rest) ≡ char x 3
unfolding yaz_read_utf8_char
read_three x rest h k = ground arith

read_four :
    (x : ℕ) (rest : Bytes)
    → 0x10000 ≤ x
    → x ≤ 0x1fffff
    → yaz_read_utf8_char ((x / 64 ^ 3 + 0xf0) ∷ tail x 2 ∷ tail x 1 ∷ tail x 0 ∷ rest) ≡ char x 4
unfolding yaz_read_utf8_char
read_four x rest h k = ground arith

read_five :
    (x : ℕ) (rest : Bytes)
    → 0x200000 ≤ x
    → x ≤ 0x3ffffff
    → yaz_read_utf8_char ((x / 64 ^ 4 + 0xf8) ∷ tail x 3 ∷ tail x 2 ∷ tail x 1 ∷ tail x 0 ∷ rest)
      ≡ char x 5
unfolding yaz_read_utf8_char
read_five x rest h k = ground arith

read_six :
    (x : ℕ) (rest : Bytes)
    → 0x4000000 ≤ x
    → x < 2 ^ 31
    → yaz_read_utf8_char
        ((x / 64 ^ 5 + 0xfc) ∷ tail x 4 ∷ tail x 3 ∷ tail x 2 ∷ tail x 1 ∷ tail x 0 ∷ rest)
      ≡ char x 6
unfolding yaz_read_utf8_char
read_six x rest h k = ground arith

-- Reading the octets of a character below 2^31 gives the character and their number, whatever follows.
pub read-utf8_octets :
    (x : ℕ) (rest : Bytes)
    → x < 2 ^ 31
    → yaz_read_utf8_char (utf8_octets x ++ rest) ≡ char x (length (utf8_octets x))
read-utf8_octets x rest h = elim (Bool-cases (leb x 0x7f)) [
  | inl e ↦ rw e (read_one x rest (ground arith))
  | inr e1 ↦ rw e1 (elim (Bool-cases (leb x 0x7ff)) [
    | inl e ↦ rw e (read_two x rest (ground arith) (ground arith))
    | inr e2 ↦ rw e2 (elim (Bool-cases (leb x 0xffff)) [
      | inl e ↦ rw e (read_three x rest (ground arith) (ground arith))
      | inr e3 ↦ rw e3 (elim (Bool-cases (leb x 0x1fffff)) [
        | inl e ↦ rw e (read_four x rest (ground arith) (ground arith))
        | inr e4 ↦ rw e4 (elim (Bool-cases (leb x 0x3ffffff)) [
          | inl e ↦ rw e (read_five x rest (ground arith) (ground arith))
          | inr e5 ↦ rw e5 (read_six x rest (ground arith) h)
        ])
      ])
    ])
  ])
]

-- A character below 2^31 is written where there is room for its octets, and reading these gives the
-- character and their number back, whatever follows.
pub utf8_round_trip :
    (x left : ℕ) (rest : Bytes)
    → x < 2 ^ 31
    → length (utf8_octets x) ≤ left
    → (yaz_write_utf8_char x left ≡ some (utf8_octets x))
      × (yaz_read_utf8_char (utf8_octets x ++ rest) ≡ char x (length (utf8_octets x)))
utf8_round_trip x left rest h room = (written, read-utf8_octets x rest h)
  where
    enough : leb (length (utf8_octets x)) left ≡ true
    enough = ground arith

    written : yaz_write_utf8_char x left ≡ some (utf8_octets x)
    written = write_utf8_lem x left h ∙ ap (λ b. if b then some (utf8_octets x) else none) enough
