-- ===== src/Ber/Oid.antt =====
-- OBJECT IDENTIFIER contents: src/ber_oid.c. An `Odr_oid` is a `short`, so an arc is a 16-bit pattern;
-- a list of arcs stands for the array up to its terminator, -1.
pub mod Arcs
pub mod RoundTrip
use yaz.Prelude.{
  ℕ, zero, suc, ◌+◌, ◌-◌, ◌*◌, ◌/◌, ◌%◌, ◌^◌, Bool, true, false, ◌&&◌, ◌||◌, [], ◌∷◌, ◌++◌, Bytes,
  List, length, take, drop, leb, ltb, ◌==◌, if◌then◌else◌,
}
use yaz.Prelude.Int.{ℤ, pos, negsuc}
use yaz.Odr.{
  Odr, Direction, decode, encode, odr_putc, odr_seek, seek_set, seek_end, odr_seterror, on_ok,
  oproto, odata, oother,
}
use yaz.Ber.Length.{DecLen, minus_one, minus_two, read, ber_enclen, ber_declen, put_octets}
use yaz.Ber.Tag.{flag_more, groups}

-- `p[i] < 0` for a `short`.
abbrev pub is_negative : ℕ → Bool
is_negative arc = leb (2 ^ 15) arc

-- The first two arcs from one number: `p[0] = id / 40`, clipped to 2, and `p[1] = id - p[0] * 40`.
unfoldable pub first_arcs : ℕ → List ℕ
first_arcs id =
    let q = id / 40 % 2 ^ 16 in
    let p0 = if is_negative q then q else if ltb 2 q then 2 else q in
    p0 ∷ (id + 2 ^ 16 * 40 - p0 * 40) % 2 ^ 16 ∷ []

-- `p[pos++] = id`, or the two arcs where `pos` is 0.
unfoldable pub store_arc : ℕ → List ℕ → List ℕ
unfolding first_arcs
store_arc id [] = first_arcs id
store_arc id (a ∷ p) = (a ∷ p) ++ id % 2 ^ 16 ∷ []

-- The arcs, or the error and its number with the contents octets that are left.
pub data OidRead : Type 0 where
  failed : ℕ → ℕ → Bytes → OidRead
  arcs : List ℕ → OidRead

-- The two nested loops over the contents octets. The flag says whether the inner loop is at work, on
-- the bit pattern `id`.
unfoldable pub read_arcs : ℕ → Bool → ℕ → List ℕ → Bytes → OidRead
unfolding store_arc
read_arcs max_oid_size true id p [] = failed oproto 21 []
read_arcs max_oid_size false id p [] = arcs p
read_arcs max_oid_size inside id p (c ∷ cs) =
    let id' = (id * 128 + c % 128) % 2 ^ 32 in
    let p' = store_arc id' p in
    let inner = read_arcs max_oid_size true id' p cs in
    let outer = read_arcs max_oid_size false 0 p' cs in
    if leb 128 c
    then inner
    else if leb (2 ^ 31) id'
    then failed odata 23 cs
    else if leb max_oid_size (length p')
    then failed oproto 55 cs
    else outer

-- `pos < 2 || p[0] < 0 || p[1] < 0`
unfoldable pub check_arcs : OidRead → OidRead
check_arcs (arcs (a ∷ b ∷ p)) =
    if is_negative a || is_negative b then failed odata 23 [] else arcs (a ∷ b ∷ p)
check_arcs (arcs p) = failed odata 23 []
check_arcs (failed error id cs) = failed error id cs

-- What `ber_oidc` returns, with the array that it read or was given. `overruns` is no value of C: a
-- negative arc shifts right for ever, and the loop writes past the end of `octs`.
pub data OidResult : Type 0 where
  zero_returned overruns : OidResult
  one_returned : List ℕ → OidResult

unfoldable pub finish_oid : Odr → Bytes → OidRead → Odr × OidResult
finish_oid o after (failed error id cs) =
    (odr_seterror error id (record o { bp = cs ++ after }), zero_returned)
finish_oid o after (arcs p) = (record o { bp = after }, one_returned p)

unfoldable pub decode_oid : ℕ → Odr → DecLen → Odr × OidResult
decode_oid max_oid_size o (read (pos len) res) =
    let bp = drop res o.bp in
    if ltb (length bp) len
    then (odr_seterror oproto 20 (record o { bp = bp }), zero_returned)
    else finish_oid o (drop len bp) (check_arcs (read_arcs max_oid_size false 0 [] (take len bp)))
decode_oid max_oid_size o (read (negsuc _) res) = (odr_seterror oproto 19 o, zero_returned)
decode_oid max_oid_size o _ = (odr_seterror oproto 18 o, zero_returned)

-- The numbers that the loop `for (pos = 1; p[pos] != -1; pos++)` writes, from the first two arcs on.
abbrev pub numbers : ℕ → ℕ → List ℕ → List ℕ
numbers a b p = (a * 40 + b) ∷ p

any_negative : List ℕ → Bool
any_negative [] = false
any_negative (a ∷ p) = is_negative a || any_negative p

-- All the octets of the loop.
unfoldable pub oid_octets : List ℕ → Bytes
unfolding flag_more
oid_octets [] = []
oid_octets (id ∷ ids) = flag_more (groups id) ++ oid_octets ids

put_numbers : List ℕ → Odr → Odr × Bool
put_numbers [] o = (o, true)
put_numbers (id ∷ ids) o = on_ok (put_octets (flag_more (groups id)) o) false (put_numbers ids)

-- `ber_enclen(...) != 1`, and the move to the end.
close_oid : List ℕ → Odr × ℤ → Odr × OidResult
close_oid p (o, pos (suc zero)) = ((odr_seek seek_end 0 o).0, one_returned p)
close_oid p (o, r) = (odr_seterror oother 52 o, zero_returned)

patch_oid : ℕ → List ℕ → Odr → Odr × OidResult
unfolding close_oid
patch_oid lenp p o =
    close_oid p (ber_enclen (pos (o.pos - lenp - 1)) 1 true (odr_seek seek_set lenp o).0)

-- A missing arc is the terminator, and negative.
unfoldable pub encode_oid : List ℕ → Odr → Odr × OidResult
unfolding put_numbers patch_oid any_negative
encode_oid (a ∷ b ∷ p) o = on_ok (odr_putc 0 o) zero_returned λ q.
    if is_negative a || is_negative b
    then (odr_seterror odata 23 q, zero_returned)
    else if any_negative p
    then (q, overruns)
    else on_ok (put_numbers (numbers a b p) q) zero_returned (patch_oid o.pos (a ∷ b ∷ p))
encode_oid p o = on_ok (odr_putc 0 o) zero_returned λ q. (odr_seterror odata 23 q, zero_returned)

oid_in : Direction → ℕ → List ℕ → Odr → Odr × OidResult
oid_in decode max_oid_size p o = decode_oid max_oid_size o (ber_declen o.bp)
oid_in encode max_oid_size p o = encode_oid p o
oid_in _ max_oid_size p o = (odr_seterror oother 22 o, zero_returned)

unfoldable pub ber_oidc : ℕ → List ℕ → Odr → Odr × OidResult
unfolding oid_in
ber_oidc max_oid_size p o = oid_in o.direction max_oid_size p o
