-- ===== src/Ber/Simple/RoundTrip.antt =====
-- What `ber_boolean` and `ber_null` write and read: src/ber_bool.c and src/ber_null.c.
use yaz.Prelude.{
  ℕ, ◌+◌, ◌^◌, ◌<◌, zero, suc, ◌%◌, ◌≡◌, ◌∙◌, ap, refl, true, false, [], ◌∷◌, ◌++◌, Bytes, none,
  some, inl, arith,
}
use yaz.Prelude.Int.{ℤ, pos, negsuc}
use yaz.Odr.{Odr, decode, encode, odr_putc, on_ok}
use yaz.Odr.Buffer.{HasRoom}
use yaz.Odr.Appends.{AtEnd, Appends, Appends-trans, Appends-pos, putc_then-Appends}
use yaz.Ber.Length.{ber_enclen, ber_declen}
use yaz.Ber.Length.RoundTrip.{ber_enclen-Appends}
use yaz.Ber.Simple.{boolean_in, encode_boolean, ber_boolean, null_in, ber_null}

encode_boolean-one :
    (val : ℕ) (m : Odr × ℤ)
    → m.1 ≡ pos 1
    → encode_boolean val m ≡ on_ok (odr_putc (val % 256) m.0) none (λ p. (p, some val))
unfolding encode_boolean
encode_boolean-one val (o, pos zero) h = ground arith
encode_boolean-one val (o, pos (suc zero)) h = refl
encode_boolean-one val (o, pos (suc (suc n))) h = ground arith
encode_boolean-one val (o, negsuc n) h = cc

encode_boolean-Appends :
    (val : ℕ) (o : Odr)
    → AtEnd o
    → o.pos + 2 < 2 ^ 30
    → Appends (some val) (1 ∷ val % 256 ∷ []) o (encode_boolean val (ber_enclen (pos 1) 1 true o))
encode_boolean-Appends val o e h =
    let m = ber_enclen (pos 1) 1 true o in
    let w : Appends (pos 1) (1 ∷ []) o m =
      ber_enclen-Appends 1 1 true o e (omega arith) (inl (refl, omega arith)) in
    rw (encode_boolean-one val m w.result) (
      Appends-trans (pos 1) (some val) (1 ∷ []) (val % 256 ∷ []) o m _ w (
        putc_then-Appends (val % 256) none (some val) m.0 w.at_end
          (omega (arith, Appends-pos (pos 1) (1 ∷ []) o m e w))))

-- `ber_boolean` on an encoding stream that stands at its end and may grow, with room below 2^30,
-- appends a length octet and the low byte of the value; on a decoding stream that stands before these
-- octets it reads that byte and stops behind it.
pub ber_boolean_round_trip :
    (past val before : ℕ) (rest : Bytes) (o d : Odr)
    → AtEnd o
    → HasRoom 2 o
    → o.direction ≡ encode
    → d.direction ≡ decode
    → let bs = 1 ∷ val % 256 ∷ [] in
      Appends (some val) bs o (ber_boolean past val o)
      × (ber_boolean past before (record d { bp = bs ++ rest })
          ≡ (record d { bp = rest }, some (val % 256)))
ber_boolean_round_trip past val before rest o d e room enc dec =
    let bs = 1 ∷ val % 256 ∷ [] in
    let writing : ber_boolean past val o ≡ encode_boolean val (ber_enclen (pos 1) 1 true o) =
      unfold ber_boolean in ap (λ x. boolean_in x past val o) enc in
    let d' = record d { bp = bs ++ rest } in
    let reading : ber_boolean past before d' ≡ boolean_in decode past before d' =
      unfold ber_boolean in ap (λ x. boolean_in x past before d') dec in
    (
      rw writing (encode_boolean-Appends val o e room.2),
      reading ∙ (unfold ber_boolean ber_declen in ground arith),
    )

-- `ber_null` on an encoding stream that stands at its end and may grow, with room below 2^30,
-- appends one octet; on a decoding stream that stands before this octet it succeeds and stops
-- behind it.
pub ber_null_round_trip :
    (rest : Bytes) (o d : Odr)
    → AtEnd o
    → HasRoom 1 o
    → o.direction ≡ encode
    → d.direction ≡ decode
    → Appends true (0 ∷ []) o (ber_null o)
      × (ber_null (record d { bp = 0 ∷ rest }) ≡ (record d { bp = rest }, true))
ber_null_round_trip rest o d e room enc dec =
    let writing : ber_null o ≡ null_in encode o = unfold ber_null in ap (λ x. null_in x o) enc in
    let d' = record d { bp = 0 ∷ rest } in
    let reading : ber_null d' ≡ null_in decode d' = unfold ber_null in ap (λ x. null_in x d') dec in
    (
      rw writing (unfold ber_null in putc_then-Appends 0 false true o e (omega (arith, room.2))),
      reading ∙ (unfold ber_null in ground arith),
    )
