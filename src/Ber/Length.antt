-- ===== src/Ber/Length.antt =====
-- Length octets: src/ber_len.c.
pub mod Encode
pub mod RoundTrip
use Prim.Native.Nat.{bit_or}
use yaz.Prelude.{
  ℕ, zero, suc, ◌+◌, ◌-◌, ◌*◌, ◌%◌, Bool, true, false, not, ◌&&◌, ◌||◌, [], ◌∷◌, Bytes, length, leb,
  ltb, ◌==◌, if◌then◌else◌,
}
use yaz.Prelude.Int.{ℤ, pos, negsuc}
use yaz.Prelude.Digits.{push_digits}
use yaz.Odr.{Odr, odr_putc, odr_seek, seek_set, seek_end, on_ok}

-- `while (n--) odr_putc(o, octs[n])`: the list is the array from its last used cell down.
unfoldable pub put_octets : Bytes → Odr → Odr × Bool
put_octets [] o = (o, true)
put_octets (c ∷ cs) o = on_ok (odr_putc c o) false (put_octets cs)

-- `while (n < --lenlen) odr_putc(o, 0)`, with the number of rounds counted ahead.
unfoldable pub pad_octets : ℕ → Odr → Odr × Bool
pad_octets zero o = (o, true)
pad_octets (suc k) o = on_ok (odr_putc 0 o) false (pad_octets k)

-- The length of the octets goes to the position that was left for it.
unfoldable pub enclen_patch : ℕ → Odr → Odr × ℤ
enclen_patch lenpos o =
    let back = (odr_seek seek_set lenpos o).0 in
    on_ok (odr_putc (bit_or (o.pos - lenpos - 1) 0x80 % 256) back) (pos 0)
      λ p. let last = (odr_seek seek_end 0 p).0 in (last, pos (last.pos - lenpos))

-- The definite long form, once the octets of `len` are known.
unfoldable pub enclen_long : Bytes → ℕ → Bool → Odr → Odr × ℤ
enclen_long octs lenlen exact o =
    let lenpos = o.pos in
    let padding = if exact then lenlen - 1 - length octs else 0 in
    if leb lenlen (length octs)
    then (o, negsuc 0)
    else on_ok (odr_putc 0 o) (pos 0) λ o1.
      on_ok (pad_octets padding o1) (pos 0)
        λ o2. on_ok (put_octets octs o2) (pos 0) (enclen_patch lenpos)

-- The result is 0 for the indefinite form, 1 for the short form, the number of octets for the long
-- form, and -1 where the octets do not fit `lenlen`. `len` is an `int`, so four octets hold it.
unfoldable pub ber_enclen : ℤ → ℕ → Bool → Odr → Odr × ℤ
ber_enclen (negsuc _) lenlen exact o = on_ok (odr_putc 0x80 o) (pos 0) λ p. (p, pos 0)
ber_enclen (pos len) lenlen exact o =
    if leb len 127 && (lenlen == 1 || not exact)
    then on_ok (odr_putc len o) (pos 0) (λ p. (p, pos 1))
    else if lenlen == 1
    then on_ok (odr_putc 0x80 o) (pos 0) (λ p. (p, pos 0))
    else enclen_long (push_digits 256 4 len []) lenlen exact o

-- The results of `ber_declen`: -1, -2, or the octets consumed with `*len` (-1 for indefinite).
pub data DecLen : Type 0 where
  minus_one minus_two : DecLen
  read : ℤ → ℕ → DecLen

-- `while (--n >= 0) { *len <<= 8; *len |= *(b++); }`. The bytes do not run out: `n < max`.
unfoldable pub shift_in : ℕ → ℕ → Bytes → ℕ
shift_in zero len bs = len
shift_in (suc n) len [] = len
shift_in (suc n) len (b ∷ bs) = shift_in n (len * 256 + b) bs

-- `max` is the length of the list.
unfoldable pub ber_declen : Bytes → DecLen
unfolding shift_in
ber_declen [] = minus_one
ber_declen (b ∷ bs) =
    let n = b % 128 in
    if b == 0x80
    then read (negsuc 0) 1
    else if ltb b 0x80
    then read (pos b) 1
    else if b == 0xff
    then minus_two
    else if leb (length (b ∷ bs)) n
    then minus_one
    else if ltb 3 n
    then minus_two
    else read (pos (shift_in n 0 bs)) (n + 1)
