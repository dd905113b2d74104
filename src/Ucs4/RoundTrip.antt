-- ===== src/Ucs4/RoundTrip.antt =====
-- What src/ucs4.c writes it reads again, in either byte order.
use yaz.Prelude.{ℕ, ◌≤◌, ◌<◌, ◌≡◌, ◌++◌, Bytes, Option, none, some, arith}
use yaz.Ucs4.{from_int, read_ucs4, read_ucs4le, write_ucs4, write_ucs4le}

-- What the reader makes of the output with any bytes behind it.
abbrev pub read_back : (Bytes → ℕ × ℕ) → Option Bytes → Bytes → Option (ℕ × ℕ)
read_back read none rest = none
read_back read (some out) rest = some (read (out ++ rest))

-- A character below 2^31 that is written where four bytes are left is read again, in either byte order.
pub read_ucs4-write_ucs4 :
    (x left : ℕ) (rest : Bytes)
    → x < 2147483648
    → 4 ≤ left
    → (read_back read_ucs4 (write_ucs4 x left) rest ≡ some (x, 4))
      × (read_back read_ucs4le (write_ucs4le x left) rest ≡ some (x, 4))
unfolding write_ucs4 write_ucs4le read_ucs4 read_ucs4le from_int
read_ucs4-write_ucs4 x left rest h f = (ground arith, ground arith)
