-- ===== src/Uri/Query.antt =====
-- `yaz_uri_to_array` reads back what `yaz_array_to_uri` wrote: src/uri.c.
use yaz.Prelude.{
  ℕ, zero, suc, ◌+◌, ◌≤◌, ◌<◌, ◌≡◌, ◌≢◌, ◌∙◌, ap, refl, true, false, [], ◌∷◌, ◌++◌, append_assoc,
  Bytes, List, some, All, All-append, IsByte, length, length-append, drop, drop-append, ◌==◌, arith,
}
use yaz.Uri.{
  is_unreserved, encode_uri_char, yaz_encode_uri_component, decode_uri_char, Pair, array_size,
  pair_text, more_pairs, yaz_array_to_uri, count_names, decode_value,
}
use yaz.Uri.Component.{length-encode_uri_char, length-encode_uri_component, decode-encode_uri_char}

more_pairs_fits : (ps : List Pair) → length (more_pairs ps) + 1 ≤ array_size ps
unfolding more_pairs array_size
more_pairs_fits [] = omega arith
more_pairs_fits (p ∷ ps) = omega (
  arith,
  more_pairs_fits ps,
  length-append (pair_text p) (more_pairs ps),
  length-append p.name (b'=' ∷ yaz_encode_uri_component p.value),
  length-encode_uri_component p.value,
)

-- What `yaz_array_to_uri` writes fits the size that it computes, its terminator included.
pub yaz_array_to_uri_fits : (ps : List Pair) → length (yaz_array_to_uri ps) + 1 ≤ array_size ps
unfolding yaz_array_to_uri array_size
yaz_array_to_uri_fits [] = omega arith
yaz_array_to_uri_fits (p ∷ ps) = omega (
  arith,
  more_pairs_fits ps,
  length-append (pair_text p) (more_pairs ps),
  length-append p.name (b'=' ∷ yaz_encode_uri_component p.value),
  length-encode_uri_component p.value,
)

-- A character that a name may hold.
abbrev pub IsSane : ℕ → Type 0
IsSane c = (b' ' < c) × (c < 127) × (c ≢ b'=') × (c ≢ b'&') × (c ≢ b'?')

-- Names of sane characters, and values of bytes.
abbrev pub IsSanePair : Pair → Type 0
IsSanePair p = All IsSane p.name × All IsByte p.value

abbrev pub NotAmpersand : ℕ → Type 0
NotAmpersand c = (c == b'&') ≡ false

encode_uri_char-NotAmpersand : (c : ℕ) → c < 256 → All NotAmpersand (encode_uri_char c)
unfolding encode_uri_char is_unreserved
encode_uri_char-NotAmpersand c h = ground arith

pub encode_uri_component-NotAmpersand :
    (v : Bytes) → All IsByte v → All NotAmpersand (yaz_encode_uri_component v)
unfolding yaz_encode_uri_component
encode_uri_component-NotAmpersand [] h = tt
encode_uri_component-NotAmpersand (c ∷ v) h =
    All-append NotAmpersand (encode_uri_char c) (yaz_encode_uri_component v)
      (encode_uri_char-NotAmpersand c h.0) (encode_uri_component-NotAmpersand v h.1)

-- Outside a name only ampersands count.
pub count_outside :
    (cs rest : Bytes) (k : ℕ)
    → All NotAmpersand cs
    → count_names false (cs ++ rest) k ≡ count_names false rest k
unfolding count_names
count_outside [] rest k h = refl
count_outside (c ∷ cs) rest k h = ground (arith, count_outside cs rest k h.1)

count_name :
    (name rest : Bytes) (k : ℕ)
    → All IsSane name
    → count_names true (name ++ b'=' ∷ rest) k ≡ count_names false rest k
unfolding count_names
count_name [] rest k h = refl
count_name (c ∷ name) rest k h = ground (arith, count_name name rest k h.1)

pub sane-NotAmpersand : (name : Bytes) → All IsSane name → All NotAmpersand name
sane-NotAmpersand [] h = tt
sane-NotAmpersand (c ∷ name) h = (ground (arith, h.0), sane-NotAmpersand name h.1)

pub count_pairs :
    (ps : List Pair) (k : ℕ)
    → All IsSanePair ps
    → count_names false (more_pairs ps) k ≡ some (k + length ps)
unfolding more_pairs
count_pairs [] k h = unfold count_names in ap some (omega arith)
count_pairs (p ∷ ps) k h =
    let value = yaz_encode_uri_component p.value in
    let start : count_names false (b'&' ∷ (pair_text p ++ more_pairs ps)) k
        ≡ count_names true (pair_text p ++ more_pairs ps) (k + 1) =
      unfold count_names in refl in
    start
    ∙ ap (λ xs. count_names true xs (k + 1)) (append_assoc p.name (b'=' ∷ value) (more_pairs ps))
    ∙ count_name p.name (value ++ more_pairs ps) (k + 1) (h.0).0
    ∙ count_outside value (more_pairs ps) (k + 1)
        (encode_uri_component-NotAmpersand p.value (h.0).1)
    ∙ count_pairs ps (k + 1) h.1
    ∙ ap some (omega arith)

-- A value ends at an ampersand or at the end.
abbrev pub Stops : Bytes → Type 0
Stops [] = Unit
Stops (c ∷ cs) = c ≡ b'&'

decode_value-Stops : (fuel : ℕ) (rest : Bytes) → Stops rest → decode_value fuel rest ≡ ([], rest)
unfolding decode_value
decode_value-Stops zero rest h = refl
decode_value-Stops (suc fuel) [] h = refl
decode_value-Stops (suc fuel) (c ∷ rest) h = ground arith

abbrev cons_value : ℕ → Bytes × Bytes → Bytes × Bytes
cons_value c (v, rest) = (c ∷ v, rest)

value_round :
    (fuel c : ℕ) (rest : Bytes)
    → c < 256
    → decode_value (suc fuel) (encode_uri_char c ++ rest) ≡ cons_value c (decode_value fuel rest)
value_round fuel c rest h =
    go (encode_uri_char c) (length-encode_uri_char c).0 (encode_uri_char-NotAmpersand c h)
      (decode-encode_uri_char c 3 rest h (length-encode_uri_char c).1)
  where
    go :
        (cs : Bytes)
        → 1 ≤ length cs
        → All NotAmpersand cs
        → decode_uri_char (cs ++ rest) 3 ≡ (c, length cs)
        → decode_value (suc fuel) (cs ++ rest) ≡ cons_value c (decode_value fuel rest)
    go [] n a e = absurd (omega arith)
    go (d ∷ cs) n a e =
        unfold decode_value in
        rw (a.0) (
          ap (λ r. cons_value (r.0) (decode_value fuel (drop (r.1) (d ∷ cs ++ rest)))) e
          ∙ ap (λ xs. cons_value c (decode_value fuel xs)) (drop-append cs rest))

pub decode_value-encode :
    (fuel : ℕ) (v rest : Bytes)
    → All IsByte v
    → length (yaz_encode_uri_component v) ≤ fuel
    → Stops rest
    → decode_value fuel (yaz_encode_uri_component v ++ rest) ≡ (v, rest)
unfolding yaz_encode_uri_component
decode_value-encode fuel [] rest h f s = decode_value-Stops fuel rest s
decode_value-encode zero (c ∷ v) rest h f s = absurd (
    omega (
      arith,
      length-append (encode_uri_char c) (yaz_encode_uri_component v),
      length-encode_uri_char c,
    ))
decode_value-encode (suc fuel) (c ∷ v) rest h f s =
    ap (decode_value (suc fuel))
      (append_assoc (encode_uri_char c) (yaz_encode_uri_component v) rest)
    ∙ value_round fuel c (yaz_encode_uri_component v ++ rest) h.0
    ∙ ap (cons_value c) (
        decode_value-encode fuel v rest h.1
          (omega (
            arith,
            length-append (encode_uri_char c) (yaz_encode_uri_component v),
            length-encode_uri_char c,
          ))
          s)
