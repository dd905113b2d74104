-- ===== src/Ber/Tag.antt =====
-- Identifier octets: `ber_enctag` and `ber_dectag` of src/ber_tag.c.
pub mod RoundTrip
use yaz.Prelude.{
  ℕ, zero, suc, ◌+◌, ◌*◌, ◌/◌, ◌%◌, ◌^◌, Bool, true, false, [], ◌∷◌, Bytes, Option, none, some, leb,
  ltb, if◌then◌else◌,
}
use yaz.Prelude.Int.{ℤ, pos, negsuc}
use yaz.Prelude.Digits.{push_digits}
use yaz.Odr.{Odr, odr_putc, on_ok}
use yaz.Ber.Length.{put_octets}

-- `octs[n] | ((n > 0) << 7)` for each octet from the last down: all but the lowest group get bit 8.
unfoldable pub flag_more : Bytes → Bytes
flag_more [] = []
flag_more (x ∷ []) = x ∷ []
flag_more (x ∷ y ∷ ys) = (x + 128) ∷ flag_more (y ∷ ys)

-- The groups of seven bits of a non-negative `int`, which has five of them at most.
abbrev pub groups : ℕ → Bytes
groups v = push_digits 128 5 v []

-- `(zclass << 6) & 0xC0 | (cons << 5) & 0x20`; the bits are disjoint, so `|` is `+`.
abbrev pub class_bits : ℕ → Bool → ℕ
class_bits zclass constructed = zclass % 4 * 64 + (if constructed then 32 else 0)

-- The array `octs` has `sizeof(int)` cells. From 2^28 on a tag has a fifth group, which C stores behind
-- the array; what that does is undefined, and such a tag is refused here.
unfoldable pub ber_enctag : ℕ → ℕ → Bool → Odr → Odr × ℤ
ber_enctag zclass tag constructed o =
    let b = class_bits zclass constructed in
    if leb tag 30
    then on_ok (odr_putc (b + tag % 32) o) (negsuc 0) (λ p. (p, pos 1))
    else if ltb 0xfff_ffff tag
    then (o, negsuc 0)
    else on_ok (odr_putc (b + 31) o) (negsuc 0)
        λ p. on_ok (put_octets (flag_more (groups tag)) p) (negsuc 0) (λ q. (q, pos 0))

-- What `ber_dectag` stores, and the number of octets that it returns. `tag` is the bit pattern of the
-- `int`.
pub record DecTag : Type 0 where
  pub zclass : ℕ
  pub tag : ℕ
  pub constructed : Bool
  pub len : ℕ

-- `do { if (l >= max) return -1; *tag <<= 7; *tag |= b[l] & 0X7F; } while (b[l++] & 0X80);`
unfoldable pub dectag_loop : DecTag → Bytes → Option DecTag
dectag_loop t [] = none
dectag_loop t (b ∷ bs) =
    let t' = record t { tag = (t.tag * 128 + b % 128) % 2 ^ 32; len = t.len + 1 } in
    let more = dectag_loop t' bs in if leb 128 b then more else some t'

-- `max` is the length of the list.
unfoldable pub ber_dectag : Bytes → Option DecTag
unfolding dectag_loop
ber_dectag [] = none
ber_dectag (b ∷ bs) =
    let t : DecTag = record {
      zclass = b / 64;
      tag = b % 32;
      constructed = leb 1 (b / 32 % 2);
      len = 1;
    } in
    if leb (b % 32) 30 then some t else dectag_loop (record t { tag = 0 }) bs
