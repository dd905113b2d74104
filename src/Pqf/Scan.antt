-- ===== src/Pqf/Scan.antt =====
-- The terms of scan requests and the attribute lists of facets: the remaining entries of src/pquery.c.
use yaz.Prelude.{
  ℕ, zero, suc, ◌+◌, List, [], ◌∷◌, ◌++◌, Bytes, Option, none, some, length, ltb, if◌then◌else◌,
}
use yaz.Pqf.{Library, Oid, Attribute, Term}
use yaz.Pqf.State.{
  Parser, Look, at_end, attr_token, term_token, text_token, Outcome, done, failed, out_of_fuel,
  and_then, fail, missing, extra, pqf_parser_begin, yaz_pqf_create,
}
use yaz.Pqf.Lexer.{lex}
use yaz.Pqf.Attributes.{get_attribute_list, rpn_term_value}
use yaz.Pqf.Parser.{one_attribute, rpn_term_type, top_set}

-- The loop of `p_query_scan_attributes_mk`; `again` goes round.
unfoldable pub scan_step :
    Library
    → (List Attribute → Parser → Outcome (List Attribute))
    → Look
    → List Attribute
    → Parser
    → Outcome (List Attribute)
unfolding one_attribute rpn_term_type lex
scan_step lib again attr_token attrs p = and_then (one_attribute lib attrs p) λ more q. again more q
scan_step lib again term_token attrs p = again attrs (rpn_term_type (lex p))
scan_step lib again _ attrs p = done attrs p

unfoldable pub scan_attributes : ℕ → Library → List Attribute → Parser → Outcome (List Attribute)
unfolding scan_step
scan_attributes zero lib attrs p = out_of_fuel
scan_attributes (suc fuel) lib attrs p =
    scan_step lib (λ more q. scan_attributes fuel lib more q) p.query_look attrs p

-- `*attributeSetP`, which is `none` where nothing is stored there, and the attributes.
unfoldable pub scan_behind : Library → ℕ → Outcome Oid → Option Oid × Outcome (List Attribute)
unfolding scan_attributes get_attribute_list
scan_behind lib fuel (done set q) = (
  some set,
  and_then (scan_attributes fuel lib [] q) λ attrs r. done (get_attribute_list attrs) r,
)
scan_behind lib fuel (failed q) = (none, failed q)
scan_behind lib fuel out_of_fuel = (none, out_of_fuel)

unfoldable pub p_query_scan_attributes_mk : Library → Parser → Option Oid × Outcome (List Attribute)
unfolding scan_behind top_set
p_query_scan_attributes_mk lib p = scan_behind lib (length p.query_ptr + 2) (top_set lib p)

-- The term behind the attributes; they are a null pointer, here `none`, where they could not be read.
unfoldable pub scan_term :
    Library → Option (List Attribute) → Parser → Outcome (Option (List Attribute) × Term)
unfolding rpn_term_value lex
scan_term lib attributes p = elim (p.query_look) [
  | at_end ↦ fail missing p
  | _ ↦
      let q = lex p in
      elim (q.query_look) [ at_end ↦ done (attributes, rpn_term_value lib p) q | _ ↦ fail extra q ]
]

unfoldable pub scan_both :
    Library
    → Option Oid × Outcome (List Attribute)
    → Option Oid × Outcome (Option (List Attribute) × Term)
unfolding scan_term
scan_both lib (set, done list q) = (set, scan_term lib (some list) q)
scan_both lib (set, failed q) = (set, scan_term lib none q)
scan_both lib (set, out_of_fuel) = (set, out_of_fuel)

unfoldable pub p_query_scan_mk :
    Library → Parser → Option Oid × Outcome (Option (List Attribute) × Term)
unfolding p_query_scan_attributes_mk scan_both
p_query_scan_mk lib p = scan_both lib (p_query_scan_attributes_mk lib p)

unfoldable pub yaz_pqf_scan :
    Library → Parser → Bytes → Option Oid × Outcome (Option (List Attribute) × Term)
unfolding p_query_scan_mk
yaz_pqf_scan lib p qbuf = p_query_scan_mk lib (pqf_parser_begin qbuf p)

unfoldable pub yaz_pqf_scan_attribute_list :
    Library → Parser → Bytes → Option Oid × Outcome (List Attribute)
unfolding p_query_scan_attributes_mk
yaz_pqf_scan_attribute_list lib p qbuf = p_query_scan_attributes_mk lib (pqf_parser_begin qbuf p)

-- `Z_FacetField`
pub record FacetField : Type 0 where
  pub attributes : List Attribute
  pub terms : List Term

-- The loop over the terms of a facet, of which ten are kept.
unfoldable pub facet_terms : ℕ → Library → List Term → Parser → List Term
unfolding rpn_term_value lex
facet_terms zero lib terms p = terms
facet_terms (suc fuel) lib terms p =
    let kept = if ltb (length terms) 10 then terms ++ rpn_term_value lib p ∷ [] else terms in
    let rest = facet_terms fuel lib kept (lex p) in
    elim (p.query_look) [ text_token ↦ rest | _ ↦ terms ]

unfoldable pub facet_field : Library → ℕ → Outcome (List Attribute) → Option FacetField
unfolding facet_terms
facet_field lib fuel (done list q) =
    some (record { attributes = list; terms = facet_terms fuel lib [] q })
facet_field lib fuel _ = none

unfoldable pub parse_facet : Library → Bytes → Option FacetField
unfolding facet_field p_query_scan_attributes_mk
parse_facet lib facet =
    let (set, o) = p_query_scan_attributes_mk lib (pqf_parser_begin facet yaz_pqf_create) in
    facet_field lib (length facet + 2) o
