-- ===== src/Ber/Integer.antt =====
-- INTEGER contents: src/ber_int.c. A value is the bit pattern of the 64-bit `Odr_int`.
pub mod RoundTrip
use yaz.Prelude.{
  ℕ, zero, suc, ◌+◌, ◌-◌, ◌*◌, ◌/◌, ◌%◌, ◌^◌, Bool, true, false, ◌&&◌, ◌||◌, [], ◌∷◌, Bytes, Option,
  none, some, length, drop, leb, ltb, ◌==◌, if◌then◌else◌,
}
use yaz.Prelude.Int.{ℤ, pos, negsuc}
use yaz.Odr.{
  Odr, Direction, decode, encode, print, invalid, odr_write, odr_seterror, on_ok, oproto, oother,
}
use yaz.Ber.Length.{DecLen, minus_one, minus_two, read, ber_enclen, ber_declen}

-- `for (i = sizeof(uval); i > 0; ) { tmp[--i] = uval; uval >>= 8; }` with `i` rounds left.
unfoldable pub fill_tmp : ℕ → ℕ → Bytes → Bytes
fill_tmp zero uval tmp = tmp
fill_tmp (suc i) uval tmp = fill_tmp i (uval / 256) (uval % 256 ∷ tmp)

-- Whether `tmp[i]` only repeats the sign that `tmp[i + 1]` shows.
abbrev pub is_redundant : ℕ → ℕ → Bool
is_redundant a b = a == 0 && ltb b 128 || a == 0xff && leb 128 b

-- `tmp + i` for the `i` where the second loop ends.
unfoldable pub skip_sign : Bytes → Bytes
skip_sign [] = []
skip_sign (a ∷ []) = a ∷ []
skip_sign (a ∷ b ∷ bs) =
    let rest = skip_sign (b ∷ bs) in if is_redundant a b then rest else a ∷ b ∷ bs

-- `ber_enclen(...) != 1`, and then the write: `false` stands for -1.
unfoldable pub write_contents : Bytes → Odr × ℤ → Odr × Bool
write_contents cs (o, pos (suc zero)) = odr_write cs o
write_contents cs (o, r) = (o, false)

unfoldable pub ber_encinteger : ℕ → Odr → Odr × Bool
unfolding write_contents
ber_encinteger val o =
    let cs = skip_sign (fill_tmp 8 val []) in
    write_contents cs (ber_enclen (pos (length cs)) 1 true o)

-- `(uval << 8) + b`
abbrev pub shift_add : ℕ → ℕ → ℕ
shift_add uval b = (uval * 256 + b) % 2 ^ 64

-- `for (i = 0; i < len; i++) uval = (uval << 8) + b[i];` The octets do not run out: `len + res <= max`.
unfoldable pub shift_octets : ℕ → ℕ → Bytes → ℕ
shift_octets zero uval bs = uval
shift_octets (suc n) uval [] = uval
shift_octets (suc n) uval (b ∷ bs) = shift_octets n (shift_add uval b) bs

-- `uval = (uval << 8) + 0xFF`, repeated.
unfoldable pub sign_fill : ℕ → ℕ → ℕ
sign_fill zero uval = uval
sign_fill (suc n) uval = sign_fill n (shift_add uval 0xff)

-- `*b`, which is read for `len == 0` too. `past` is the byte behind the end of the buffer.
abbrev pub head_or : ℕ → Bytes → ℕ
head_or past [] = past
head_or past (b ∷ bs) = b

-- The value and the octets consumed, once the length is known.
unfoldable pub decinteger_value : ℕ → Bytes → ℕ → ℕ → ℕ × ℕ
unfolding shift_octets sign_fill
decinteger_value past bs len res =
    let fill = if leb 128 (head_or past bs) then sign_fill (8 - len) 0 else 0 in
    (shift_octets len fill bs, res + len)

decinteger_with : ℕ → Bytes → DecLen → Option (ℕ × ℕ)
decinteger_with past bs (read (pos len) res) =
    if ltb (length bs) (len + res) || ltb 8 len
    then none
    else some (decinteger_value past (drop res bs) len res)
decinteger_with past bs _ = none

-- `none` stands for -1.
unfoldable pub ber_decinteger : ℕ → Bytes → Option (ℕ × ℕ)
unfolding decinteger_with
ber_decinteger past bs = decinteger_with past bs (ber_declen bs)

-- `*val` and the success of `ber_integer`; `none` stands for 0.
abbrev decoded : Odr → Option (ℕ × ℕ) → Odr × Option ℕ
decoded o none = (odr_seterror oproto 50 o, none)
decoded o (some (val, res)) = (record o { bp = drop res o.bp }, some val)

abbrev encoded : ℕ → Odr × Bool → Odr × Option ℕ
encoded val (o, true) = (o, some val)
encoded val (o, false) = (o, none)

integer_in : Direction → ℕ → ℕ → Odr → Odr × Option ℕ
integer_in decode past val o = decoded o (ber_decinteger past o.bp)
integer_in encode past val o = encoded val (ber_encinteger val o)
integer_in print past val o = (o, some val)
integer_in invalid past val o = (odr_seterror oother 51 o, none)

unfoldable pub ber_integer : ℕ → ℕ → Odr → Odr × Option ℕ
unfolding integer_in
ber_integer past val o = integer_in o.direction past val o
