-- ===== src/Base64.antt =====
-- Base64: src/base64.c. A string is the list of its bytes, which are not 0; a byte of the input is
-- `(unsigned char)`.
pub mod RoundTrip
use yaz.Prelude.{
  ℕ, zero, suc, ◌+◌, ◌-◌, ◌*◌, ◌/◌, ◌%◌, Bool, true, false, [], ◌∷◌, ◌++◌, Bytes, List, Option,
  none, some, length, ltb, leb, ◌==◌, ◌&&◌, ◌||◌, within, if◌then◌else◌,
}

-- The character of `encoding` for six bits.
unfoldable pub encoding : ℕ → ℕ
encoding n =
    if ltb n 26
    then n + b'A'
    else if ltb n 52
    then n - 26 + b'a'
    else if ltb n 62
    then n - 52 + b'0'
    else if n == 62
    then b'+'
    else b'/'

-- Four characters for the 24 bits of `n`.
abbrev pub sixes : ℕ → ℕ × ℕ × ℕ × ℕ
sixes n = (
  encoding (n / 262144 % 64),
  encoding (n / 4096 % 64),
  encoding (n / 64 % 64),
  encoding (n % 64),
)

unfoldable pub yaz_base64encode : Bytes → Bytes
yaz_base64encode [] = []
yaz_base64encode (a ∷ []) = let (w, x, y, z) = sixes (a * 65536) in w ∷ x ∷ b'=' ∷ b'=' ∷ []
yaz_base64encode (a ∷ b ∷ []) =
    let (w, x, y, z) = sixes (a * 65536 + b * 256) in w ∷ x ∷ y ∷ b'=' ∷ []
yaz_base64encode (a ∷ b ∷ c ∷ cs) =
    let (w, x, y, z) = sixes (a * 65536 + b * 256 + c) in w ∷ x ∷ y ∷ z ∷ yaz_base64encode cs

-- The place of a character in `map`. `strchr` finds no byte but 0 beside these, and there is none.
unfoldable pub map_index : ℕ → Option ℕ
map_index c =
    if within b'A' b'Z' c
    then some (c - b'A')
    else if within b'a' b'z' c
    then some (c - b'a' + 26)
    else if within b'0' b'9' c
    then some (c - b'0' + 52)
    else if c == b'+'
    then some 62
    else if c == b'/'
    then some 63
    else none

-- Carriage return, newline, tab, form feed and space.
abbrev pub is_blank : ℕ → Bool
is_blank c = c == 13 || c == 10 || c == 9 || c == 12 || c == 32

unfoldable pub skip_blanks : Bytes → Bytes
skip_blanks [] = []
skip_blanks (c ∷ cs) = let rest = skip_blanks cs in if is_blank c then rest else c ∷ cs

-- What `next_char` returns: -2 at an equals sign, -1, or six bits.
pub data Six : Type 0 where
  padding : Six
  bad : Six
  six : ℕ → Bytes → Six

unfoldable pub six_of : Option ℕ → Bytes → Six
six_of none cs = bad
six_of (some n) cs = six n cs

unfoldable pub read_char : Bytes → Six
read_char [] = bad
read_char (c ∷ cs) = if c == b'=' then padding else six_of (map_index c) cs

unfoldable pub next_char : Bytes → Six
unfolding read_char six_of map_index skip_blanks
next_char cs = read_char (skip_blanks cs)

-- A byte put before what the rest of the loop writes.
unfoldable pub emit : ℕ → Option Bytes → Option Bytes
emit b none = none
emit b (some out) = some (b ∷ out)

-- The body of the loop behind its third, second and first character.
unfoldable pub fourth_six : (Bytes → Option Bytes) → ℕ → Six → Option Bytes
unfolding emit
fourth_six again i2 padding = some []
fourth_six again i2 bad = none
fourth_six again i2 (six i3 cs) = emit ((i2 * 64 + i3) % 256) (again cs)

unfoldable pub third_six : (Bytes → Option Bytes) → ℕ → Six → Option Bytes
unfolding fourth_six next_char
third_six again i1 padding = some []
third_six again i1 bad = none
third_six again i1 (six i2 cs) =
    emit ((i1 * 16 + i2 / 4) % 256) (fourth_six again i2 (next_char cs))

unfoldable pub second_six : (Bytes → Option Bytes) → ℕ → Six → Option Bytes
unfolding third_six
second_six again i0 padding = none
second_six again i0 bad = none
second_six again i0 (six i1 cs) = emit (i0 * 4 + i1 / 16) (third_six again i1 (next_char cs))

unfoldable pub first_six : (Bytes → Option Bytes) → Six → Option Bytes
unfolding second_six
first_six again padding = none
first_six again bad = none
first_six again (six i0 cs) = second_six again i0 (next_char cs)

-- `while (len >= 4)`: each round that goes on takes four bytes at least.
unfoldable pub base64_loop : ℕ → Bytes → Option Bytes
unfolding first_six
base64_loop zero cs = some []
base64_loop (suc fuel) cs =
    let round = first_six (base64_loop fuel) (next_char cs) in
    if leb 4 (length cs) then round else some []

-- The bytes written before the terminator, and `none` where it returns -1.
unfoldable pub yaz_base64decode : Bytes → Option Bytes
unfolding base64_loop
yaz_base64decode cs = base64_loop (length cs) cs
