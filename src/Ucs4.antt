-- ===== src/Ucs4.antt =====
-- UCS4 in both byte orders: src/ucs4.c. `inbytesleft` is the length of the input, and the output is
-- the list of the bytes written.
pub mod RoundTrip
use yaz.Prelude.{
  ℕ, zero, suc, ◌+◌, ◌-◌, ◌*◌, ◌/◌, ◌%◌, Bool, true, false, [], ◌∷◌, ◌++◌, Bytes, Option, none,
  some, length, ltb, leb, ◌==◌, if◌then◌else◌,
}

-- `inp[0] << 24` is an `int`, which sign extends to the 64 bits of `unsigned long`.
unfoldable pub from_int : ℕ → ℕ
from_int x = if ltb x 2147483648 then x else x + 18446744069414584320

-- The character and the number of bytes read: none where the input is incomplete.
unfoldable pub read_ucs4 : Bytes → ℕ × ℕ
unfolding from_int
read_ucs4 (a ∷ b ∷ c ∷ d ∷ inp) = (from_int (a * 16777216 + b * 65536 + c * 256 + d), 4)
read_ucs4 _ = (0, 0)

unfoldable pub read_ucs4le : Bytes → ℕ × ℕ
unfolding from_int
read_ucs4le (a ∷ b ∷ c ∷ d ∷ inp) = (from_int (d * 16777216 + c * 65536 + b * 256 + a), 4)
read_ucs4le _ = (0, 0)

-- What is written, given `*outbytesleft`: `none` stands for -1 with YAZ_ICONV_E2BIG.
unfoldable pub write_ucs4 : ℕ → ℕ → Option Bytes
write_ucs4 x outbytesleft =
    if leb 4 outbytesleft
    then some ((x / 16777216 % 256) ∷ (x / 65536 % 256) ∷ (x / 256 % 256) ∷ (x % 256) ∷ [])
    else none

unfoldable pub write_ucs4le : ℕ → ℕ → Option Bytes
write_ucs4le x outbytesleft =
    if leb 4 outbytesleft
    then some ((x % 256) ∷ (x / 256 % 256) ∷ (x / 65536 % 256) ∷ (x / 16777216 % 256) ∷ [])
    else none
