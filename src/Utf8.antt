-- ===== src/Utf8.antt =====
-- UTF-8: src/utf8.c, the scheme of up to six octets for 31-bit values. A mask of low ones is `%`, a
-- shift is `/` or `*`, and `|` on disjoint bits is `+`.
pub mod RoundTrip
pub mod Octets
pub mod Canonical
pub mod Check
pub mod Bom
use yaz.Prelude.{
  ℕ, zero, suc, ◌+◌, ◌*◌, ◌/◌, ◌%◌, ◌^◌, Bool, true, false, not, ◌&&◌, ◌||◌, [], ◌∷◌, Bytes, Option,
  none, some, length, get_or, drop, leb, ltb, ◌==◌, if◌then◌else◌,
}

-- `YAZ_ICONV_EILSEQ` and `YAZ_ICONV_EINVAL`.
pub data Error : Type 0 where
  eilseq einval : Error

-- What `yaz_read_UTF8_char` reports: the character and `*no_read`, or the error, with `*no_read` 0.
pub data Read : Type 0 where
  char : ℕ → ℕ → Read
  error : Error → Read

-- `(b & 0xc0) == 0x80`
abbrev pub is_tail : ℕ → Bool
is_tail b = b / 64 == 2

-- The value of a sequence of `n` octets, if the tails are right and it is not below `least`.
abbrev pub accept : Bool → ℕ → ℕ → ℕ → Read
accept tails least n x =
    if tails then (if leb least x then char x n else error eilseq) else error eilseq

-- The list is `inp` up to `inbytesleft`, which is not 0 at any call.
unfoldable pub yaz_read_utf8_char : Bytes → Read
yaz_read_utf8_char bs =
    let b = get_or bs 0 0 in
    let b1 = get_or bs 1 0 in
    let b2 = get_or bs 2 0 in
    let b3 = get_or bs 3 0 in
    let b4 = get_or bs 4 0 in
    let b5 = get_or bs 5 0 in
    let left = length bs in
    if leb b 0x7f
    then char b 1
    else if leb b 0xbf || leb 0xfe b
    then error eilseq
    else if leb b 0xdf && leb 2 left
    then accept (is_tail b1) 0x80 2 (b % 32 * 64 + b1 % 64)
    else if leb b 0xef && leb 3 left
    then accept (is_tail b1 && is_tail b2) 0x800 3 (b % 16 * 64 ^ 2 + b1 % 64 * 64 + b2 % 64)
    else if leb b 0xf7 && leb 4 left
    then accept (is_tail b1 && is_tail b2 && is_tail b3) 0x10000 4
        (b % 8 * 64 ^ 3 + b1 % 64 * 64 ^ 2 + b2 % 64 * 64 + b3 % 64)
    else if leb b 0xfb && leb 5 left
    then accept (is_tail b1 && is_tail b2 && is_tail b3 && is_tail b4) 0x200000 5
        (b % 4 * 64 ^ 4 + b1 % 64 * 64 ^ 3 + b2 % 64 * 64 ^ 2 + b3 % 64 * 64 + b4 % 64)
    else if leb b 0xfd && leb 6 left
    then accept (is_tail b1 && is_tail b2 && is_tail b3 && is_tail b4 && is_tail b5) 0x4000000 6 (
        b % 2 * 64 ^ 5
        + b1 % 64 * 64 ^ 4
        + b2 % 64 * 64 ^ 3
        + b3 % 64 * 64 ^ 2
        + b4 % 64 * 64
        + b5 % 64)
    else error einval

-- `((x >> 6 * k) & 0x3f) | 0x80`
abbrev pub tail : ℕ → ℕ → ℕ
tail x k = x / 64 ^ k % 64 + 0x80

-- The octets written for `x` with `left` bytes of room, or `none` for `YAZ_ICONV_E2BIG`. The first
-- octet of the longest form is cut to a byte, so that bits from 32 on are lost.
unfoldable pub yaz_write_utf8_char : ℕ → ℕ → Option Bytes
yaz_write_utf8_char x left =
    if leb x 0x7f && leb 1 left
    then some (x ∷ [])
    else if leb x 0x7ff && leb 2 left
    then some ((x / 64 + 0xc0) ∷ tail x 0 ∷ [])
    else if leb x 0xffff && leb 3 left
    then some ((x / 64 ^ 2 + 0xe0) ∷ tail x 1 ∷ tail x 0 ∷ [])
    else if leb x 0x1fffff && leb 4 left
    then some ((x / 64 ^ 3 + 0xf0) ∷ tail x 2 ∷ tail x 1 ∷ tail x 0 ∷ [])
    else if leb x 0x3ffffff && leb 5 left
    then some ((x / 64 ^ 4 + 0xf8) ∷ tail x 3 ∷ tail x 2 ∷ tail x 1 ∷ tail x 0 ∷ [])
    else if leb 6 left
    then some ((x / 64 ^ 5 % 4 + 0xfc) ∷ tail x 4 ∷ tail x 3 ∷ tail x 2 ∷ tail x 1 ∷ tail x 0 ∷ [])
    else none

-- The loop of `yaz_utf8_check` over the bytes of the string. Each round takes one byte at least, so
-- the length of the string is enough fuel.
unfoldable pub utf8_check_loop : ℕ → Bytes → Bool
utf8_check_loop fuel [] = true
utf8_check_loop zero (b ∷ bs) = false
utf8_check_loop (suc fuel) (b ∷ bs) = elim (yaz_read_utf8_char (b ∷ bs)) [
  | error _ ↦ false
  | char x n ↦ utf8_check_loop fuel (drop n (b ∷ bs))
]

unfoldable pub yaz_utf8_check : Bytes → Bool
yaz_utf8_check str = utf8_check_loop (length str) str

-- `*no_read` of `init_utf8`, or `none` for -1 with `YAZ_ICONV_EINVAL`. The test is the source's: the
-- second byte is to differ from 0xbb.
unfoldable pub init_utf8 : Bytes → Option ℕ
init_utf8 inp =
    if not (get_or inp 0 0 == 0xef)
    then some 0
    else if ltb (length inp) 3
    then none
    else if not (get_or inp 1 0 == 0xbb) && get_or inp 2 0 == 0xbf
    then some 3
    else some 0
