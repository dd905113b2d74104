-- ===== src/Ber/Simple.antt =====
-- BOOLEAN and NULL contents: src/ber_bool.c and src/ber_null.c.
pub mod RoundTrip
use yaz.Prelude.{
  ℕ, zero, suc, ◌%◌, Bool, true, false, not, ◌||◌, [], ◌∷◌, Bytes, Option, none, some, length, drop,
  ltb, ◌==◌, if◌then◌else◌,
}
use yaz.Prelude.Int.{ℤ, pos, negsuc}
use yaz.Odr.{
  Odr, Direction, decode, encode, print, invalid, odr_putc, odr_seterror, on_ok, oproto, oother,
}
use yaz.Ber.Length.{DecLen, minus_one, minus_two, read, ber_enclen, ber_declen}

-- `*o->op->bp++`, with the byte `past` behind the end of the buffer where nothing is left.
take_byte : ℕ → Odr → Odr × ℕ
take_byte past o = elim o.bp [ [] ↦ (o, past) | b ∷ bs ↦ (record o { bp = bs }, b) ]

-- The results are `*val` where the function returns 1, and `none` where it returns 0.
stored : Odr × ℕ → Odr × Option ℕ
stored (o, b) = (o, some b)

decode_boolean : ℕ → Odr → DecLen → Odr × Option ℕ
unfolding take_byte stored
decode_boolean past o (read (pos (suc zero)) res) =
    let p = record o { bp = drop res o.bp } in
    if ltb (length p.bp) 1 then (odr_seterror oproto 10 p, none) else stored (take_byte past p)
decode_boolean past o (read len res) =
    (odr_seterror oproto 10 (record o { bp = drop res o.bp }), none)
decode_boolean past o _ = (odr_seterror oproto 9 o, none)

-- `ber_enclen(o, 1, 1, 1) != 1`, and then the contents octet, `*val` cut to a byte.
encode_boolean : ℕ → Odr × ℤ → Odr × Option ℕ
encode_boolean val (o, pos (suc zero)) = on_ok (odr_putc (val % 256) o) none (λ p. (p, some val))
encode_boolean val (o, r) = (o, none)

boolean_in : Direction → ℕ → ℕ → Odr → Odr × Option ℕ
unfolding decode_boolean encode_boolean
boolean_in encode past val o = encode_boolean val (ber_enclen (pos 1) 1 true o)
boolean_in decode past val o = decode_boolean past o (ber_declen o.bp)
boolean_in print past val o = (o, some val)
boolean_in invalid past val o = (odr_seterror oother 11 o, none)

unfoldable pub ber_boolean : ℕ → ℕ → Odr → Odr × Option ℕ
unfolding boolean_in
ber_boolean past val o = boolean_in o.direction past val o

-- `*(o->op->bp++) != 0X00`
null_byte : Odr × ℕ → Odr × Bool
null_byte (o, b) = if b == 0 then (o, true) else (odr_seterror oproto 12 o, false)

null_in : Direction → Odr → Odr × Bool
unfolding null_byte take_byte
null_in encode o = on_ok (odr_putc 0 o) false (λ p. (p, true))
null_in decode o =
    if ltb (length o.bp) 1 then (odr_seterror oproto 39 o, false) else null_byte (take_byte 0 o)
null_in print o = (o, true)
null_in invalid o = (odr_seterror oother 13 o, false)

unfoldable pub ber_null : Odr → Odr × Bool
unfolding null_in
ber_null o = null_in o.direction o
