-- ===== src/Tests/Streams.antt =====
-- The theorems on BER streams at concrete inputs: src/ber_len.c, src/ber_tag.c, src/ber_int.c,
-- src/ber_oid.c, src/ber_bool.c, src/ber_null.c and src/ber_any.c.
use yaz.Prelude.{
  ℕ, ◌<◌, ◌^◌, ◌≤◌, ◌≡◌, refl, ap, inl, inr, true, false, [], ◌∷◌, ◌++◌, some, length, arith,
}
use yaz.Prelude.Int.{pos}
use yaz.Prelude.Digits.{push_digits}
use yaz.Odr.{Odr, encode, decode}
use yaz.Odr.Buffer.{HasRoom}
use yaz.Odr.Appends.{AtEnd, Appends}
use yaz.Ber.Length.{ber_enclen, read, shift_in, ber_declen}
use yaz.Ber.Length.RoundTrip.{length_octets, ber_length_round_trip}
use yaz.Ber.Tag.{flag_more, ber_enctag, ber_dectag}
use yaz.Ber.Tag.RoundTrip.{tag_octets, tag_read, ber_tag_round_trip}
use yaz.Ber.Integer.{ber_integer}
use yaz.Ber.Integer.RoundTrip.{integer_octets, ber_integer_round_trip}
use yaz.Ber.Oid.{oid_octets, numbers, one_returned, ber_oidc}
use yaz.Ber.Oid.RoundTrip.{oid_encoding, ber_oidc_round_trip}
use yaz.Ber.Any.{
  incomplete, total, complete_ber_n, complete_children, complete_contents, complete_tagged,
  complete_element,
}
use yaz.Ber.Any.Bounds.{complete_ber_n_bounds}
use yaz.Ber.Any.Prefix.{is_final, complete_ber_n-append, complete_ber_n_prefix}

abbrev pub output : Odr
output = record {
  direction = encode;
  error = 0;
  error_id = 0;
  can_grow = true;
  buf = [];
  pos = 0;
  top = 0;
  size = 0;
  bp = [];
}

abbrev input : Odr
input = record output { direction = decode }

pub output-AtEnd : AtEnd output
output-AtEnd = record { grows = refl; at_top = refl; written = omega arith }

pub output-HasRoom : (n : ℕ) → n < 2 ^ 30 → HasRoom n output
output-HasRoom n h = (omega arith, omega arith, omega arith)

ber_length_round_trip_example :
    Appends
      (pos (length (length_octets 300 4 false)))
      (length_octets 300 4 false)
      output
      (ber_enclen (pos 300) 4 false output)
    × (ber_declen (length_octets 300 4 false ++ 7 ∷ [])
        ≡ read (pos 300) (length (length_octets 300 4 false)))
ber_length_round_trip_example =
    ber_length_round_trip 300 4 false (7 ∷ []) output output-AtEnd (output-HasRoom _ octets)
      (inr (omega arith, omega arith, omega arith, inl refl))
  where
    octets : length (length_octets 300 4 false) < 2 ^ 30
    octets = unfold push_digits in omega arith

ber_tag_round_trip_example :
    Appends (pos 0) (tag_octets 2 300 true) output (ber_enctag 2 300 true output)
    × (ber_dectag (tag_octets 2 300 true ++ 1 ∷ []) ≡ some (tag_read 2 300 true))
ber_tag_round_trip_example =
    ber_tag_round_trip 2 300 true (1 ∷ []) output output-AtEnd
      (output-HasRoom (length (tag_octets 2 300 true)) octets) (omega arith) (omega arith)
  where
    octets : length (tag_octets 2 300 true) < 2 ^ 30
    octets = unfold push_digits flag_more in omega arith

ber_integer_round_trip_example :
    Appends
      (some 70000)
      (length (integer_octets 70000) ∷ integer_octets 70000)
      output
      (ber_integer 0 70000 output)
    × (length (length (integer_octets 70000) ∷ integer_octets 70000) ≤ 9)
    × (ber_integer 0 1
          (record input { bp = (length (integer_octets 70000) ∷ integer_octets 70000) ++ 5 ∷ [] })
        ≡ (record input { bp = 5 ∷ [] }, some 70000))
ber_integer_round_trip_example =
    ber_integer_round_trip 70000 0 1 (5 ∷ []) output input (omega arith) output-AtEnd
      (output-HasRoom 9 (omega arith)) refl refl

ber_oidc_round_trip_example :
    Appends
      (one_returned (1 ∷ 2 ∷ 840 ∷ []))
      (oid_encoding 1 2 (840 ∷ []))
      output
      (ber_oidc 20 (1 ∷ 2 ∷ 840 ∷ []) output)
    × (ber_oidc 20 [] (record input { bp = oid_encoding 1 2 (840 ∷ []) ++ 5 ∷ [] })
        ≡ (record input { bp = 5 ∷ [] }, one_returned (1 ∷ 2 ∷ 840 ∷ [])))
ber_oidc_round_trip_example =
    ber_oidc_round_trip 20 1 2 (840 ∷ []) [] (5 ∷ []) output input
      (record {
        root = omega arith;
        second = inr (omega arith);
        second_fits = omega arith;
        rest_fit = (omega arith, tt);
      })
      (omega arith) short output-AtEnd (output-HasRoom 128 (omega arith)) refl refl
  where
    short : length (oid_octets (numbers 1 2 (840 ∷ []))) ≤ 127
    short = unfold oid_octets push_digits in omega arith

-- A sequence that holds one integer, and a byte behind it.
complete_sequence : complete_ber_n 1001 (48 ∷ 3 ∷ 2 ∷ 1 ∷ 5 ∷ 9 ∷ []) ≡ total 5
unfolding complete_ber_n complete_element complete_tagged complete_contents complete_children
    ber_dectag ber_declen shift_in
complete_sequence = refl

complete_integer : complete_ber_n 1001 (2 ∷ 1 ∷ 5 ∷ []) ≡ total 3
unfolding complete_ber_n complete_element complete_tagged complete_contents complete_children
    ber_dectag ber_declen shift_in
complete_integer = refl

complete_ber_n_bounds_example : (2 ≤ 5) × (5 ≤ 6)
complete_ber_n_bounds_example =
    complete_ber_n_bounds 1001 (48 ∷ 3 ∷ 2 ∷ 1 ∷ 5 ∷ 9 ∷ []) {n = 5} complete_sequence

complete_ber_n-append_example :
    complete_ber_n 1001 ((2 ∷ 1 ∷ 5 ∷ []) ++ 9 ∷ []) ≡ complete_ber_n 1001 (2 ∷ 1 ∷ 5 ∷ [])
complete_ber_n-append_example =
    complete_ber_n-append 1001 (2 ∷ 1 ∷ 5 ∷ []) (9 ∷ []) (ap is_final complete_integer)

complete_ber_n_prefix_example : complete_ber_n 1001 (2 ∷ 1 ∷ []) ≡ incomplete
complete_ber_n_prefix_example =
    complete_ber_n_prefix 1001 (2 ∷ 1 ∷ []) (5 ∷ []) (omega arith) complete_integer
