-- ===== src/Pqf/Writer.antt =====
-- Queries to text: src/querytowrbuf.c.
use yaz.Prelude.{
  ℕ, Bool, true, false, not, ◌||◌, List, [], ◌∷◌, Bytes, Option, none, some, ◌==◌, if◌then◌else◌,
  codes,
}
use yaz.Wrbuf.{Wrbuf, wrbuf_putc, wrbuf_write, wrbuf_chop_right}
use yaz.Pqf.{
  Library, Attribute, AttributeValue, numeric, complex, StringOrNumeric, item_string, item_numeric,
  Term, general, character_string, number, null, other, Proximity, UnitKind, known_unit,
  private_unit, Operator, op_and, op_or, op_and_not, op_prox, RpnStructure, complex_structure,
  attributes_plus_term, result_set_id, unset, RpnQuery,
}
use yaz.Pqf.State.{peek}

-- `strchr(" \"{", term[i])`, which also finds the zero at the end.
abbrev pub needs_quotes : ℕ → Bool
needs_quotes c = c == b' ' || c == b'"' || c == b'{' || c == 0

abbrev pub any_needs_quotes : Bytes → Bool
any_needs_quotes [] = false
any_needs_quotes (c ∷ cs) = needs_quotes c || any_needs_quotes cs

-- The loops over the term, without and with quotes around.
unfoldable pub put_plain : Bytes → Wrbuf → Wrbuf
put_plain [] b = b
put_plain (c ∷ cs) b = put_plain cs (wrbuf_putc c (if c == b'\\' then wrbuf_putc b'\\' b else b))

unfoldable pub put_quoted : Bytes → Wrbuf → Wrbuf
put_quoted [] b = b
put_quoted (c ∷ cs) b =
    put_quoted cs (wrbuf_putc c (if c == b'"' || c == b'\\' then wrbuf_putc b'\\' b else b))

abbrev pub is_plain : Bytes → Bool
is_plain [] = false
is_plain (c ∷ cs) = not (any_needs_quotes (c ∷ cs))

unfoldable pub yaz_encode_pqf_term : Bytes → Wrbuf → Wrbuf
unfolding put_plain put_quoted
yaz_encode_pqf_term term b = wrbuf_putc b' ' (
    if is_plain term
    then put_plain term (if peek term == b'@' then wrbuf_putc b'\\' b else b)
    else wrbuf_putc b'"' (put_quoted term (wrbuf_putc b'"' b)))

module _ (lib : Library) where
  abbrev pub put_item : StringOrNumeric → Wrbuf → Wrbuf
  put_item (item_string s) b = wrbuf_write s b
  put_item (item_numeric n) b = wrbuf_write (lib.print_int n) b

  -- The items behind the first.
  unfoldable pub put_more_items : List StringOrNumeric → Wrbuf → Wrbuf
  put_more_items [] b = b
  put_more_items (i ∷ is) b = put_more_items is (put_item i (wrbuf_write (codes ",") b))

  unfoldable pub put_value : AttributeValue → Wrbuf → Wrbuf
  unfolding put_more_items
  put_value (numeric n) b = wrbuf_write (lib.print_int n) b
  put_value (complex []) b = b
  put_value (complex (i ∷ is)) b = put_more_items is (put_item i b)

  abbrev pub put_set_name : Option Bytes → Wrbuf → Wrbuf
  put_set_name none b = b
  put_set_name (some name) b = wrbuf_write (codes " ") (wrbuf_write name b)

  abbrev pub put_set : Option (List ℕ) → Wrbuf → Wrbuf
  put_set none b = b
  put_set (some set) b = put_set_name (lib.oid_to_string set) b

  unfoldable pub yaz_attribute_element_to_wrbuf : Attribute → Wrbuf → Wrbuf
  unfolding put_value
  yaz_attribute_element_to_wrbuf a b =
      let named = put_set a.attribute_set (wrbuf_write (codes "@attr ") b) in
      let typed = wrbuf_write (codes "=") (wrbuf_write (lib.print_int a.attribute_type) named) in
      wrbuf_write (codes " ") (put_value a.value typed)

  unfoldable pub yaz_attributes_to_wrbuf : List Attribute → Wrbuf → Wrbuf
  unfolding yaz_attribute_element_to_wrbuf
  yaz_attributes_to_wrbuf [] b = b
  yaz_attributes_to_wrbuf (a ∷ more) b =
      yaz_attributes_to_wrbuf more (yaz_attribute_element_to_wrbuf a b)

  -- The `switch` of `yaz_apt_to_wrbuf`.
  unfoldable pub put_term : Term → Wrbuf → Wrbuf
  unfolding yaz_encode_pqf_term
  put_term (general t) b = yaz_encode_pqf_term t b
  put_term (character_string t) b = yaz_encode_pqf_term t (wrbuf_write (codes "@term string ") b)
  put_term (number n) b =
      wrbuf_write (codes " ")
        (wrbuf_write (lib.print_int n) (wrbuf_write (codes "@term numeric ") b))
  put_term null b = wrbuf_write (codes "@term null x") b
  put_term (other which) b =
      wrbuf_write (codes " ")
        (wrbuf_write (lib.print_int which) (wrbuf_write (codes "@term null unknown") b))

  unfoldable pub yaz_apt_to_wrbuf : List Attribute → Term → Wrbuf → Wrbuf
  unfolding yaz_attributes_to_wrbuf put_term
  yaz_apt_to_wrbuf attributes term b = put_term term (yaz_attributes_to_wrbuf attributes b)

  abbrev pub exclusion_char : Option Bool → ℕ
  exclusion_char none = b'n'
  exclusion_char (some true) = b'1'
  exclusion_char (some false) = b'0'

  abbrev pub ordered_char : Bool → ℕ
  ordered_char true = b'1'
  ordered_char false = b'0'

  abbrev pub unit_char : UnitKind → ℕ
  unit_char known_unit = b'k'
  unit_char private_unit = b'p'

  unfoldable pub put_proximity : Proximity → Wrbuf → Wrbuf
  put_proximity x b =
      let first = wrbuf_write (codes " ") (wrbuf_putc (exclusion_char x.exclusion) b) in
      let second = wrbuf_write (codes " ") (wrbuf_write (lib.print_int x.distance) first) in
      let third = wrbuf_write (codes " ") (wrbuf_write (ordered_char x.ordered ∷ []) second) in
      let fourth = wrbuf_write (codes " ") (wrbuf_write (lib.print_int x.relation_type) third) in
      let fifth = wrbuf_write (codes " ") (wrbuf_putc (unit_char x.which) fourth) in
      wrbuf_write (codes " ") (wrbuf_write (lib.print_int x.unit) fifth)

  abbrev pub complex_op_name : Operator → Bytes
  complex_op_name op_and = codes "and"
  complex_op_name op_or = codes "or"
  complex_op_name op_and_not = codes "not"
  complex_op_name (op_prox x) = codes "prox"

  abbrev pub put_operator : Operator → Wrbuf → Wrbuf
  put_operator (op_prox x) b = put_proximity x b
  put_operator _ b = b

  unfoldable pub yaz_rpnstructure_to_wrbuf : RpnStructure → Wrbuf → Wrbuf
  unfolding yaz_apt_to_wrbuf put_proximity yaz_encode_pqf_term
  yaz_rpnstructure_to_wrbuf (complex_structure op s1 s2) b =
      let named =
        wrbuf_write (codes " ") (wrbuf_write (complex_op_name op) (wrbuf_write (codes "@") b)) in
      yaz_rpnstructure_to_wrbuf s2 (yaz_rpnstructure_to_wrbuf s1 (put_operator op named))
  yaz_rpnstructure_to_wrbuf (attributes_plus_term attributes term) b =
      yaz_apt_to_wrbuf attributes term b
  yaz_rpnstructure_to_wrbuf (result_set_id id) b =
      yaz_encode_pqf_term id (wrbuf_write (codes "@set ") b)
  yaz_rpnstructure_to_wrbuf unset b = wrbuf_write (codes "(unknown structure)") b

  abbrev pub put_attrset : Option Bytes → Wrbuf → Wrbuf
  put_attrset none b = b
  put_attrset (some name) b =
      wrbuf_write (codes " ") (wrbuf_write name (wrbuf_write (codes "@attrset ") b))

  unfoldable pub yaz_rpnquery_to_wrbuf : RpnQuery → Wrbuf → Wrbuf
  unfolding yaz_rpnstructure_to_wrbuf
  yaz_rpnquery_to_wrbuf rpn b = wrbuf_chop_right (
      yaz_rpnstructure_to_wrbuf rpn.structure
        (put_attrset (lib.oid_to_string rpn.attribute_set_id) b))
