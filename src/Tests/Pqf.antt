-- ===== src/Tests/Pqf.antt =====
-- Runs of the models of src/pquery.c and src/querytowrbuf.c.
use yaz.Prelude.{
  ◌↔◌, ℕ, suc, ◌+◌, ◌-◌, ◌*◌, ◌≡◌, ◌≢◌, ◌≤◌, ap, refl, true, false, List, [], ◌∷◌, Bytes, Option,
  none, some, length, codes, if◌then◌else◌, arith, inl, inr,
}
use yaz.Prelude.Digits.{push_digits}
use yaz.Prelude.Int.{ℤ, pos, negsuc}
use yaz.Wrbuf.{wrbuf_alloc, wrbuf_chop_right, wrbuf_putc, wrbuf_write}
use yaz.Pqf.{
  Library, Oid, Attribute, numeric, complex, item_string, general, character_string, term_general,
  op_or, op_prox, complex_structure, attributes_plus_term, result_set_id, RpnQuery, known_unit,
}
use yaz.Pqf.State.{
  Parser, at_end, and_token, attrset_token, no_error, extra, bad_integer, done, failed, out_of_fuel,
  is_digit, peek, yaz_pqf_create, yaz_pqf_error,
}
use yaz.Pqf.Lexer.{same_bytes, lex, is_short_attr}
use yaz.Pqf.Attributes.{get_attribute_list}
use yaz.Pqf.Parser.{yaz_pqf_parse}
use yaz.Pqf.Scan.{yaz_pqf_scan, FacetField, parse_facet}
use yaz.Pqf.Writer.{yaz_rpnquery_to_wrbuf}
use yaz.Pqf.Elements.{IsDecimal, IsNamed}
use yaz.Pqf.Structures.{mirrored, IsWritable}
use yaz.Pqf.RoundTrip.{yaz_pqf_parse-rpnquery_to_wrbuf}
use yaz.Pqf.Completes.{IsComplete}
use yaz.Pqf.Halts.{yaz_pqf_parse-IsComplete}
use yaz.Pqf.Finishes.{yaz_pqf_parse_scan_end}
use yaz.Pqf.Agrees.{yaz_pqf_scan-parse}
use yaz.Pqf.Errors.{yaz_pqf_parse-error}
use yaz.Pqf.Chosen.{HasDistinctTypes, IsLastGiven, get_attribute_list-latest}
use yaz.Pqf.Bounds.{parse_facet-bounds}

abbrev bib_1 : Oid
bib_1 = 1 ∷ 2 ∷ 840 ∷ 10003 ∷ 3 ∷ 1 ∷ []

unfoldable shift : Bytes → Bytes
shift [] = []
shift (d ∷ ds) = (d + 48) ∷ shift ds

unfoldable print_decimal : ℤ → Bytes
unfolding push_digits shift
print_decimal (pos n) = shift (push_digits 10 20 n [])
print_decimal (negsuc n) = b'-' ∷ shift (push_digits 10 20 (suc n) [])

unfoldable read_decimal : ℕ → Bytes → ℕ
read_decimal n [] = n
read_decimal n (c ∷ cs) =
    let rest = read_decimal (n * 10 + (c - 48)) cs in if is_digit c then rest else n

unfoldable read_int : Bytes → ℤ
unfolding read_decimal
read_int cs = pos (read_decimal 0 cs)

unfoldable known_set : Bytes → Option Oid
unfolding same_bytes
known_set name = if same_bytes name (codes "Bib-1") then some bib_1 else none

abbrev lib : Library
unfolding print_decimal read_int known_set
lib = record {
  string_to_oid = known_set;
  oid_to_string = λ o. some (codes "Bib-1");
  attset_bib_1 = bib_1;
  odr_atoi = read_int;
  atoi = read_int;
  print_int = print_decimal;
  scan_hex = read_decimal 0;
  scan_octal = read_decimal 0;
}

-- Digits are read up to the first other character.
read_decimal-stop : (n : ℕ) (rest : Bytes) → is_digit (peek rest) ≡ false → read_decimal n rest ≡ n
unfolding read_decimal
read_decimal-stop n [] h = refl
read_decimal-stop n (c ∷ cs) h = rw h refl

one-IsDecimal : IsDecimal lib (pos 1)
unfolding lib
one-IsDecimal = record {
  lead = b'1';
  more = [];
  printed = refl;
  digits = refl;
  read = λ rest h. ap pos (read_decimal-stop 1 rest h);
}

two-IsDecimal : IsDecimal lib (pos 2)
unfolding lib
two-IsDecimal = record {
  lead = b'2';
  more = [];
  printed = refl;
  digits = refl;
  read = λ rest h. ap pos (read_decimal-stop 2 rest h);
}

four-IsDecimal : IsDecimal lib (pos 4)
unfolding lib
four-IsDecimal = record {
  lead = b'4';
  more = [];
  printed = refl;
  digits = refl;
  read = λ rest h. ap pos (read_decimal-stop 4 rest h);
}

bib_1-IsNamed : IsNamed lib bib_1
unfolding lib
bib_1-IsNamed = record {
  lead = b'B';
  more = codes "ib-1";
  named = refl;
  found = refl;
  word = (refl, (refl, (refl, (refl, (refl, tt)))));
  start = refl;
  fits_buffer = omega arith;
  no_equals = (refl, (refl, (refl, (refl, (refl, tt)))));
}

abbrev title : Attribute
title = record {
  attribute_set = none;
  attribute_type = pos 1;
  value = complex (item_string (codes "ti") ∷ []);
}

abbrev word_structure : Attribute
word_structure = record { attribute_set = none; attribute_type = pos 4; value = numeric (pos 2) }

-- "a b" with two attributes before the set "def" or the string "@x".
abbrev query : RpnQuery
query = record {
  attribute_set_id = bib_1;
  structure =
      complex_structure
        (op_prox (record {
          exclusion = none;
          distance = pos 4;
          ordered = true;
          relation_type = pos 2;
          which = known_unit;
          unit = pos 2;
        }))
        (attributes_plus_term (title ∷ word_structure ∷ []) (general (codes "a b")))
        (complex_structure op_or (result_set_id (codes "def"))
          (attributes_plus_term [] (character_string (codes "@x"))));
}

query_text :
    (yaz_rpnquery_to_wrbuf lib query wrbuf_alloc).buf
    ≡ codes
        "@attrset Bib-1 @prox n 4 1 2 k 2 @attr 1=ti @attr 4=2 \"a b\" @or @set def @term string \\@x"
unfolding yaz_rpnquery_to_wrbuf wrbuf_alloc lib wrbuf_chop_right wrbuf_putc wrbuf_write
query_text = refl

query-IsWritable : IsWritable lib term_general query.structure
unfolding is_short_attr
query-IsWritable = (
  record { distance = four-IsDecimal; relation_type = two-IsDecimal; unit = two-IsDecimal },
  (
    omega arith,
    (
      record { type = one-IsDecimal; value = (refl, (refl, (refl, tt))); set = refl },
      (record { type = four-IsDecimal; value = two-IsDecimal; set = refl }, tt),
    ),
    (refl, (refl, (refl, (refl, tt))), inr refl),
  ),
  (tt, ((refl, (refl, (refl, tt))), refl, refl), (omega arith, tt, ((refl, (refl, tt)), inl refl))),
)

yaz_pqf_parse-rpnquery_to_wrbuf_example :
    (q : Parser) × (yaz_pqf_parse lib yaz_pqf_create
        (yaz_rpnquery_to_wrbuf lib query wrbuf_alloc).buf
      ≡ done (record query { structure = mirrored query.structure }) q)
unfolding wrbuf_alloc
yaz_pqf_parse-rpnquery_to_wrbuf_example =
    yaz_pqf_parse-rpnquery_to_wrbuf lib query yaz_pqf_create wrbuf_alloc bib_1-IsNamed
      query-IsWritable refl

abbrev open_text : Bytes
open_text = codes "@and @term x @prox"

yaz_pqf_parse_scan_end_example :
    (yaz_pqf_parse lib yaz_pqf_create open_text ≢ out_of_fuel)
    × ((yaz_pqf_scan lib yaz_pqf_create open_text).1 ≢ out_of_fuel)
yaz_pqf_parse_scan_end_example = yaz_pqf_parse_scan_end lib yaz_pqf_create open_text

abbrev simple_text : Bytes
simple_text = codes "@attr 1=4 @attr 1=2 utah"

abbrev simple_list : List Attribute
simple_list = record { attribute_set = none; attribute_type = pos 1; value = numeric (pos 2) } ∷ []

abbrev simple_query : RpnQuery
simple_query = record {
  attribute_set_id = bib_1;
  structure = attributes_plus_term simple_list (general (codes "utah"));
}

-- Behind the text.
abbrev simple_end : Parser
simple_end = record {
  query_buf = simple_text;
  query_ptr = [];
  lex_buf = codes "utah";
  lex_len = 4;
  query_look = at_end;
  term_type = term_general;
  error = no_error;
}

simple_text-parsed : yaz_pqf_parse lib yaz_pqf_create simple_text ≡ done simple_query simple_end
unfolding yaz_pqf_parse lib
simple_text-parsed = refl

yaz_pqf_parse-IsComplete_example : IsComplete simple_query.structure
yaz_pqf_parse-IsComplete_example =
    yaz_pqf_parse-IsComplete lib yaz_pqf_create simple_end simple_text simple_query
      simple_text-parsed

yaz_pqf_scan-parse_example :
    yaz_pqf_scan lib yaz_pqf_create simple_text
    ≡ (some bib_1, done (some simple_list, general (codes "utah")) simple_end)
yaz_pqf_scan-parse_example =
    yaz_pqf_scan-parse lib yaz_pqf_create simple_end simple_text bib_1 simple_list
      (general (codes "utah")) simple_text-parsed

abbrev wrong_text : Bytes
wrong_text = codes "@and a @attrset b"

abbrev wrong_end : Parser
wrong_end = record {
  query_buf = wrong_text;
  query_ptr = codes "b";
  lex_buf = codes "@attrset b";
  lex_len = 8;
  query_look = attrset_token;
  term_type = term_general;
  error = extra;
}

wrong_text-parsed : yaz_pqf_parse lib yaz_pqf_create wrong_text ≡ failed wrong_end
unfolding yaz_pqf_parse lib
wrong_text-parsed = refl

yaz_pqf_parse-error_example : (yaz_pqf_error wrong_end).0 ≢ no_error
yaz_pqf_parse-error_example =
    yaz_pqf_parse-error lib yaz_pqf_create wrong_end wrong_text wrong_text-parsed

abbrev given : List Attribute
given = word_structure ∷ title ∷ word_structure ∷ []

get_attribute_list-latest_example :
    HasDistinctTypes (get_attribute_list given)
    × ((t : ℤ) (a : Attribute) → IsLastGiven t a (get_attribute_list given) ↔ IsLastGiven t a given)
get_attribute_list-latest_example = get_attribute_list-latest given

abbrev facet : FacetField
facet = record { attributes = simple_list; terms = general (codes "utah") ∷ [] }

facet-parsed : parse_facet lib simple_text ≡ some facet
unfolding parse_facet lib
facet-parsed = refl

parse_facet-bounds_example : (length facet.terms ≤ 10) × HasDistinctTypes facet.attributes
parse_facet-bounds_example = parse_facet-bounds lib simple_text facet facet-parsed

-- `compare_term` leaves the last character of a keyword out: this is read as `@and`.
keyword_prefix :
    (lex (record yaz_pqf_create { query_ptr = codes "@anx a b" })).query_look ≡ and_token
unfolding lex
keyword_prefix = refl

-- The attributes are a null pointer, and no error is returned.
scan_without_attributes : yaz_pqf_scan lib yaz_pqf_create (codes "@attr x=4") ≡ (
  some bib_1,
  done
      (none, general (codes "x=4"))
      (record yaz_pqf_create {
        query_buf = codes "@attr x=4";
        lex_buf = codes "x=4";
        lex_len = 3;
        error = bad_integer;
      }),
)
unfolding yaz_pqf_scan lib
scan_without_attributes = refl
