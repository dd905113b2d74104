-- ===== src/Uri/Component.antt =====
-- Decoding a component undoes its encoding: src/uri.c.
use yaz.Prelude.{
  ℕ, zero, suc, ◌*◌, ◌/◌, ◌%◌, ◌≤◌, ◌<◌, ◌≡◌, ◌∙◌, ap, refl, [], ◌∷◌, ◌++◌, Bytes, some, All,
  IsByte, length, length-append, drop, drop-append, arith,
}
use yaz.Uri.{
  hex_digit, upper_hex, is_unreserved, encode_uri_char, yaz_encode_uri_component, decode_uri_char,
  decode_loop, yaz_decode_uri_component,
}

hex_digit-upper_hex : (d : ℕ) → d < 16 → hex_digit (upper_hex d) ≡ some d
unfolding hex_digit
hex_digit-upper_hex d h = ground arith

pub length-encode_uri_char :
    (c : ℕ) → (1 ≤ length (encode_uri_char c)) × (length (encode_uri_char c) ≤ 3)
unfolding encode_uri_char
length-encode_uri_char c = ground arith

-- The three bytes for each byte that `yaz_array_to_uri` counts on.
pub length-encode_uri_component :
    (uri : Bytes) → length (yaz_encode_uri_component uri) ≤ length uri * 3
unfolding yaz_encode_uri_component
length-encode_uri_component [] = omega arith
length-encode_uri_component (c ∷ uri) = omega (
  arith,
  length-encode_uri_component uri,
  length-encode_uri_char c,
  length-append (encode_uri_char c) (yaz_encode_uri_component uri),
)

-- With the encoding of a byte in front, and at least as many bytes as that has, the byte is decoded.
pub decode-encode_uri_char :
    (c len : ℕ) (rest : Bytes)
    → c < 256
    → length (encode_uri_char c) ≤ len
    → decode_uri_char (encode_uri_char c ++ rest) len ≡ (c, length (encode_uri_char c))
unfolding encode_uri_char decode_uri_char is_unreserved
decode-encode_uri_char c len rest h enough =
    ground (arith, hex_digit-upper_hex (c / 16), hex_digit-upper_hex (c % 16))

-- One round of the loop.
decode_round :
    (fuel c : ℕ) (rest : Bytes)
    → c < 256
    → decode_loop (suc fuel) (encode_uri_char c ++ rest) ≡ c ∷ decode_loop fuel rest
decode_round fuel c rest h =
    go (encode_uri_char c) (length-encode_uri_char c).0 (λ len. decode-encode_uri_char c len rest h)
  where
    go :
        (cs : Bytes)
        → 1 ≤ length cs
        → ((len : ℕ) → length cs ≤ len → decode_uri_char (cs ++ rest) len ≡ (c, length cs))
        → decode_loop (suc fuel) (cs ++ rest) ≡ c ∷ decode_loop fuel rest
    go [] n e = absurd (omega arith)
    go (d ∷ cs) n e =
        unfold decode_loop in
        ap (λ r. (r.0) ∷ decode_loop fuel (drop (r.1) (d ∷ cs ++ rest)))
          (e (length (d ∷ cs ++ rest)) (omega (arith, length-append cs rest)))
        ∙ ap (λ xs. c ∷ decode_loop fuel xs) (drop-append cs rest)

decode_loop-encode :
    (fuel : ℕ) (uri : Bytes)
    → All IsByte uri
    → length (yaz_encode_uri_component uri) ≤ fuel
    → decode_loop fuel (yaz_encode_uri_component uri) ≡ uri
unfolding yaz_encode_uri_component
decode_loop-encode zero [] h f = unfold decode_loop in refl
decode_loop-encode (suc fuel) [] h f = unfold decode_loop in refl
decode_loop-encode zero (c ∷ uri) h f = absurd (
    omega (
      arith,
      length-append (encode_uri_char c) (yaz_encode_uri_component uri),
      length-encode_uri_char c,
    ))
decode_loop-encode (suc fuel) (c ∷ uri) h f =
    decode_round fuel c (yaz_encode_uri_component uri) h.0
    ∙ ap (◌∷◌ c) (
        decode_loop-encode fuel uri h.1 (
          omega (
            arith,
            length-append (encode_uri_char c) (yaz_encode_uri_component uri),
            length-encode_uri_char c,
          )))

-- Every string of bytes is decoded from its URI encoding.
pub decode-encode_uri_component :
    (uri : Bytes) → All IsByte uri → yaz_decode_uri_component (yaz_encode_uri_component uri) ≡ uri
unfolding yaz_decode_uri_component
decode-encode_uri_component uri h =
    decode_loop-encode (length (yaz_encode_uri_component uri)) uri h (omega arith)
