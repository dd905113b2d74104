-- ===== src/Pqf/Bounds.antt =====
-- The buffers that src/pquery.c allocates by the length of a token hold what is written into them.
use yaz.Prelude.{
  ℕ, zero, suc, ◌+◌, ◌≤◌, ◌≡◌, Bool-cases, inl, inr, some, subst, List, [], ◌∷◌, ◌++◌, Bytes,
  length, length-append, ltb, ◌==◌, if◌then◌else◌, arith,
}
use yaz.Pqf.{Library, Oid, Attribute, Term}
use yaz.Pqf.State.{
  Parser, Look, at_end, and_token, or_token, not_token, attr_token, set_token, attrset_token,
  prox_token, term_token, text_token, Outcome, done, failed, out_of_fuel, and_then,
  pqf_parser_begin, yaz_pqf_create,
}
use yaz.Pqf.Lexer.{lex, escape_out, escape_taken, escape_loop, escape_string}
use yaz.Pqf.Attributes.{rpn_term_value, get_attribute_list}
use yaz.Pqf.Parser.{top_set}
use yaz.Pqf.Chosen.{HasDistinctTypes, get_attribute_list-HasDistinctTypes}
use yaz.Pqf.Scan.{
  FacetField, facet_terms, facet_field, parse_facet, scan_attributes, scan_behind,
  p_query_scan_attributes_mk,
}

length-escape_out : (lib : Library) (cs : Bytes) → length (escape_out lib cs) ≤ 1
unfolding escape_out
length-escape_out lib [] = omega arith
length-escape_out lib (c ∷ cs) = ground arith

length-escape_loop :
    (lib : Library) (skip : ℕ) (cs : Bytes) → length (escape_loop lib skip cs) ≤ length cs
unfolding escape_loop
length-escape_loop lib skip [] = omega arith
length-escape_loop lib (suc skip) (c ∷ cs) = omega (arith, length-escape_loop lib skip cs)
length-escape_loop lib zero (c ∷ cs) = elim (Bool-cases (c == b'\\')) [
  | inl e ↦
      let rest = escape_loop lib (escape_taken cs) cs in
      rw e (
        omega (
          arith,
          length-append (escape_out lib cs) rest,
          length-escape_out lib cs,
          length-escape_loop lib (escape_taken cs) cs,
        ))
  | inr e ↦ rw e (omega (arith, length-escape_loop lib 0 cs))
]

-- `escape_string` writes no more characters than the token has, for which `lex_len + 1` are allocated.
pub length-escape_string :
    (lib : Library) (text : Bytes) → length (escape_string lib text) ≤ length text
unfolding escape_string
length-escape_string lib text = length-escape_loop lib 0 text

length-facet_terms :
    (fuel : ℕ) (lib : Library) (terms : List Term) (p : Parser)
    → length terms ≤ 10
    → length (facet_terms fuel lib terms p) ≤ 10
unfolding facet_terms
length-facet_terms zero lib terms p h = h
length-facet_terms (suc fuel) lib terms p h =
    let t = rpn_term_value lib p in
    let kept = if ltb (length terms) 10 then terms ++ t ∷ [] else terms in
    let few : length kept ≤ 10 = ground (arith, length-append terms (t ∷ [])) in
    at_look p.query_look (facet_terms fuel lib kept (lex p))
      (length-facet_terms fuel lib kept (lex p) few)
  where
    at_look :
        (l : Look) (rest : List Term)
        → length rest ≤ 10
        → length (elim l [ text_token ↦ rest | _ ↦ terms ]) ≤ 10
    at_look at_end rest k = h
    at_look and_token rest k = h
    at_look or_token rest k = h
    at_look not_token rest k = h
    at_look attr_token rest k = h
    at_look set_token rest k = h
    at_look attrset_token rest k = h
    at_look prox_token rest k = h
    at_look term_token rest k = h
    at_look text_token rest k = k

-- The attributes come from `get_attributeList`.
Listed : Outcome (List Attribute) → Type 0
Listed (done list q) = HasDistinctTypes list
Listed _ = Unit

scan_behind-Listed :
    (lib : Library) (fuel : ℕ) (o : Outcome Oid) → Listed (scan_behind lib fuel o).1
unfolding Listed scan_behind
scan_behind-Listed lib fuel (done set q) = scanned (scan_attributes fuel lib [] q)
  where
    scanned :
        (o : Outcome (List Attribute))
        → Listed (and_then o λ attrs r. done (get_attribute_list attrs) r)
    scanned (done attrs r) = get_attribute_list-HasDistinctTypes attrs
    scanned (failed r) = tt
    scanned out_of_fuel = tt
scan_behind-Listed lib fuel (failed q) = tt
scan_behind-Listed lib fuel out_of_fuel = tt

facet_field-bounds :
    (lib : Library) (fuel : ℕ) (o : Outcome (List Attribute)) (f : FacetField)
    → Listed o
    → facet_field lib fuel o ≡ some f
    → (length f.terms ≤ 10) × HasDistinctTypes f.attributes
unfolding facet_field Listed
facet_field-bounds lib fuel (done list q) f h e =
    let made : record { attributes = list; terms = facet_terms fuel lib [] q } ≡ f = cc e in
    subst (λ g. (length g.terms ≤ 10) × HasDistinctTypes g.attributes) made
      (length-facet_terms fuel lib [] q (omega arith), h)
facet_field-bounds lib fuel (failed q) f h e = absurd (cc e)
facet_field-bounds lib fuel out_of_fuel f h e = absurd (cc e)

-- A facet that is read has at most the ten terms for which `terms` is allocated, and a list of
-- attributes in which no type stands twice.
pub parse_facet-bounds :
    (lib : Library) (facet : Bytes) (f : FacetField)
    → parse_facet lib facet ≡ some f
    → (length f.terms ≤ 10) × HasDistinctTypes f.attributes
unfolding parse_facet p_query_scan_attributes_mk
parse_facet-bounds lib facet f e =
    let p = pqf_parser_begin facet yaz_pqf_create in
    let fuel = length facet + 2 in
    facet_field-bounds lib fuel (scan_behind lib fuel (top_set lib p)).1 f
      (scan_behind-Listed lib fuel (top_set lib p)) e
