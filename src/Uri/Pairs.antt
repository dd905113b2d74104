-- ===== src/Uri/Pairs.antt =====
-- Names and values around an equals sign, and what `yaz_array_to_uri` wrote as pairs: src/uri.c.
use yaz.Prelude.{
  ℕ, zero, suc, ◌+◌, ◌≤◌, ◌≡◌, ◌∙◌, ap, refl, sym, false, [], ◌∷◌, ◌++◌, append_assoc, Bytes, List,
  some, All, IsByte, length, length-append, arith,
}
use yaz.Uri.{
  yaz_encode_uri_component, Pair, pair_text, more_pairs, yaz_array_to_uri, name_of, after_name,
  count_names, skip_ampersands, value_of, read_pair, read_pairs, without_mark, read_counted,
  read_path, yaz_uri_to_array,
}
use yaz.Uri.Query.{
  IsSane, IsSanePair, Stops, decode_value-encode, sane-NotAmpersand,
  encode_uri_component-NotAmpersand, count_outside, count_pairs,
}

skip_name :
    (name rest : Bytes)
    → All IsSane name
    → skip_ampersands (name ++ b'=' ∷ rest) ≡ name ++ b'=' ∷ rest
unfolding skip_ampersands
skip_name [] rest h = refl
skip_name (c ∷ name) rest h = ground (arith, h.0)

name_of-name : (name rest : Bytes) → All IsSane name → name_of (name ++ b'=' ∷ rest) ≡ name
unfolding name_of
name_of-name [] rest h = refl
name_of-name (c ∷ name) rest h = ground (arith, h.0, name_of-name name rest h.1)

after_name-name :
    (name rest : Bytes) → All IsSane name → after_name (name ++ b'=' ∷ rest) ≡ b'=' ∷ rest
unfolding after_name
after_name-name [] rest h = refl
after_name-name (c ∷ name) rest h = ground (arith, h.0, after_name-name name rest h.1)

value_of-encode :
    (v rest : Bytes)
    → All IsByte v
    → Stops rest
    → value_of (b'=' ∷ (yaz_encode_uri_component v ++ rest)) ≡ (v, rest)
unfolding value_of
value_of-encode v rest h s =
    decode_value-encode (length (yaz_encode_uri_component v ++ rest)) v rest h
      (omega (arith, length-append (yaz_encode_uri_component v) rest)) s

-- One round of the loop.
read_round :
    (fuel : ℕ) (path text name value rest : Bytes)
    → skip_ampersands path ≡ text
    → 1 ≤ length text
    → name_of text ≡ name
    → value_of (after_name text) ≡ (value, rest)
    → read_pairs (suc fuel) path ≡ record { name = name; value = value } ∷ read_pairs fuel rest
read_round fuel path [] name value rest s n e f = absurd (omega arith)
read_round fuel path (c ∷ cs) name value rest s n e f =
    unfold read_pairs in
    ap (read_pair (read_pairs fuel)) s
    ∙ unfold read_pair in
      (ap
          (λ m.
            record { name = m; value = (value_of (after_name (c ∷ cs))).0 }
            ∷ read_pairs fuel ((value_of (after_name (c ∷ cs))).1))
          e
        ∙ ap (λ r. record { name = name; value = r.0 } ∷ read_pairs fuel (r.1)) f)

read_one :
    (fuel : ℕ) (path : Bytes) (p : Pair) (rest : Bytes)
    → skip_ampersands path ≡ skip_ampersands (pair_text p ++ rest)
    → IsSanePair p
    → Stops rest
    → read_pairs (suc fuel) path ≡ p ∷ read_pairs fuel rest
read_one fuel path p rest s h stops =
    let tail = yaz_encode_uri_component p.value ++ rest in
    read_round fuel path (p.name ++ b'=' ∷ tail) p.name p.value rest
      (s
        ∙ ap skip_ampersands (append_assoc p.name (b'=' ∷ yaz_encode_uri_component p.value) rest)
        ∙ skip_name p.name tail h.0)
      (omega (arith, length-append p.name (b'=' ∷ tail))) (name_of-name p.name tail h.0)
      (ap value_of (after_name-name p.name tail h.0) ∙ value_of-encode p.value rest h.1 stops)

more_pairs-Stops : (ps : List Pair) → Stops (more_pairs ps)
unfolding more_pairs
more_pairs-Stops [] = tt
more_pairs-Stops (p ∷ ps) = refl

skip_one : (cs : Bytes) → skip_ampersands (b'&' ∷ cs) ≡ skip_ampersands cs
unfolding skip_ampersands
skip_one cs = refl

read_pairs-nil : (fuel : ℕ) → read_pairs fuel [] ≡ []
unfolding read_pairs skip_ampersands
read_pairs-nil zero = refl
read_pairs-nil (suc fuel) = refl

read_more :
    (fuel : ℕ) (ps : List Pair)
    → All IsSanePair ps
    → length (more_pairs ps) ≤ fuel
    → read_pairs fuel (more_pairs ps) ≡ ps
unfolding more_pairs
read_more fuel [] h f = read_pairs-nil fuel
read_more zero (p ∷ ps) h f = absurd (omega arith)
read_more (suc fuel) (p ∷ ps) h f =
    read_one fuel (b'&' ∷ (pair_text p ++ more_pairs ps)) p (more_pairs ps)
      (skip_one (pair_text p ++ more_pairs ps)) h.0 (more_pairs-Stops ps)
    ∙ ap (◌∷◌ p)
        (read_more fuel ps h.1 (omega (arith, length-append (pair_text p) (more_pairs ps))))

read_array :
    (fuel : ℕ) (p : Pair) (ps : List Pair)
    → All IsSanePair (p ∷ ps)
    → length (pair_text p ++ more_pairs ps) ≤ fuel
    → read_pairs fuel (pair_text p ++ more_pairs ps) ≡ p ∷ ps
read_array zero p ps h f = absurd (
    omega (
      arith,
      length-append (pair_text p) (more_pairs ps),
      length-append p.name (b'=' ∷ yaz_encode_uri_component p.value),
    ))
read_array (suc fuel) p ps h f =
    read_one fuel (pair_text p ++ more_pairs ps) p (more_pairs ps) refl h.0 (more_pairs-Stops ps)
    ∙ ap (◌∷◌ p) (
        read_more fuel ps h.1 (
          omega (
            arith,
            length-append (pair_text p) (more_pairs ps),
            length-append p.name (b'=' ∷ yaz_encode_uri_component p.value),
          )))

-- The first name stands behind no ampersand, and is not counted.
count_array :
    (p : Pair) (ps : List Pair)
    → All IsSanePair (p ∷ ps)
    → count_names false (pair_text p ++ more_pairs ps) 2 ≡ some (2 + length ps)
count_array p ps h =
    let value = yaz_encode_uri_component p.value in
    ap (λ xs. count_names false xs 2) (append_assoc p.name (b'=' ∷ value) (more_pairs ps))
    ∙ count_outside p.name (b'=' ∷ (value ++ more_pairs ps)) 2 (sane-NotAmpersand p.name (h.0).0)
    ∙ count_equals (value ++ more_pairs ps)
    ∙ count_outside value (more_pairs ps) 2 (encode_uri_component-NotAmpersand p.value (h.0).1)
    ∙ count_pairs ps 2 h.1
  where
    count_equals : (rest : Bytes) → count_names false (b'=' ∷ rest) 2 ≡ count_names false rest 2
    count_equals rest = unfold count_names in refl

without_mark-name :
    (name rest : Bytes) → All IsSane name → without_mark (name ++ b'=' ∷ rest) ≡ name ++ b'=' ∷ rest
without_mark-name [] rest h = refl
without_mark-name (c ∷ name) rest h = ground (arith, h.0)

array_of :
    (text : Bytes) (n : ℕ) (ps : List Pair)
    → 1 ≤ length text
    → without_mark text ≡ text
    → count_names false text 2 ≡ some n
    → read_pairs (length text) text ≡ ps
    → yaz_uri_to_array text ≡ some ps
array_of [] n ps l w c r = absurd (omega arith)
array_of (x ∷ text) n ps l w c r =
    unfold yaz_uri_to_array read_path read_counted in
    ap read_path w ∙ ap (λ k. read_counted k (x ∷ text)) c ∙ ap some r

-- A list of one pair or more, with values of any bytes, and with names of characters between the
-- space and 127 that are not one of "=&?", is read back from the text written for it.
pub uri_to_array-array_to_uri :
    (p : Pair) (ps : List Pair)
    → All IsSanePair (p ∷ ps)
    → yaz_uri_to_array (yaz_array_to_uri (p ∷ ps)) ≡ some (p ∷ ps)
unfolding yaz_array_to_uri
uri_to_array-array_to_uri p ps h =
    array_of (pair_text p ++ more_pairs ps) (2 + length ps) (p ∷ ps)
      (omega (
        arith,
        length-append (pair_text p) (more_pairs ps),
        length-append p.name (b'=' ∷ yaz_encode_uri_component p.value),
      ))
      (ap without_mark
          (append_assoc p.name (b'=' ∷ yaz_encode_uri_component p.value) (more_pairs ps))
        ∙ without_mark-name p.name (yaz_encode_uri_component p.value ++ more_pairs ps) (h.0).0
        ∙ sym (append_assoc p.name (b'=' ∷ yaz_encode_uri_component p.value) (more_pairs ps)))
      (count_array p ps h) (read_array (length (pair_text p ++ more_pairs ps)) p ps h (omega arith))
