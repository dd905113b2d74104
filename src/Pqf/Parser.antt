-- ===== src/Pqf/Parser.antt =====
-- The queries of src/pquery.c.
use yaz.Prelude.{
  ℕ, zero, suc, ◌+◌, Bool, true, false, ◌||◌, List, [], Bytes, Option, none, some, length, leb,
  ◌==◌, if◌then◌else◌, codes,
}
use yaz.Prelude.Int.{ℤ, pos}
use yaz.Pqf.{
  Library, Oid, Attribute, Proximity, UnitKind, known_unit, private_unit, Operator, op_and, op_or,
  op_and_not, op_prox, RpnStructure, complex_structure, attributes_plus_term, result_set_id, unset,
  RpnQuery, TermType, term_general, term_numeric, term_string, term_oid, term_date_time, term_null,
}
use yaz.Pqf.State.{
  Parser, Look, at_end, and_token, or_token, not_token, attr_token, set_token, attrset_token,
  prox_token, term_token, text_token, Error, missing, attset, too_many, internal, proximity,
  bad_integer, extra, Outcome, done, out_of_fuel, and_then, fail, is_digit, peek, pqf_parser_begin,
  yaz_pqf_create,
}
use yaz.Pqf.Lexer.{lex, compare_term}
use yaz.Pqf.Attributes.{
  next_token, token_text, p_query_parse_attr, get_attribute_list, rpn_term_value,
  query_oid_getvalbyname, same_int,
}

abbrev pub max_attr : ℕ
max_attr = 512

-- The cases of `rpn_simple`: a term, and what follows `@set`.
unfoldable pub simple_term : Library → List Attribute → Parser → Outcome RpnStructure
unfolding get_attribute_list rpn_term_value lex
simple_term lib attrs p =
    done (attributes_plus_term (get_attribute_list attrs) (rpn_term_value lib p)) (lex p)

unfoldable pub simple_set : Parser → Outcome RpnStructure
unfolding lex
simple_set p = and_then (next_token p) λ _ q. done (result_set_id (token_text q)) (lex q)

-- A field of `rpn_proximity`: the next token, and what its text from there on says.
unfoldable pub proximity_field {ℓ} : {A : Type ℓ} → (Bytes → Option A) → Error → Parser → Outcome A
unfolding lex
proximity_field field e p =
    and_then (next_token p) λ _ q. elim (field q.lex_buf) [ none ↦ fail e q | some a ↦ done a q ]

abbrev pub exclusion_field : Bytes → Option (Option Bool)
exclusion_field cs =
    let c = peek cs in
    if c == b'1'
    then some (some true)
    else if c == b'0'
    then some (some false)
    else if c == b'v' || c == b'n'
    then some none
    else none

abbrev pub ordered_field : Bytes → Option Bool
ordered_field cs =
    if peek cs == b'1' then some true else if peek cs == b'0' then some false else none

abbrev pub number_field : Library → Bytes → Option ℤ
number_field lib cs = if is_digit (peek cs) then some (lib.odr_atoi cs) else none

-- `Z_ProximityOperator_known` is 1 and `Z_ProximityOperator_private` is 2.
abbrev pub unit_field : Library → Bytes → Option UnitKind
unit_field lib cs =
    if peek cs == b'k'
    then some known_unit
    else if peek cs == b'p'
    then some private_unit
    else if same_int (lib.atoi cs) (pos 1)
    then some known_unit
    else if same_int (lib.atoi cs) (pos 2)
    then some private_unit
    else none

unfoldable pub rpn_proximity : Library → Parser → Outcome Proximity
unfolding proximity_field
rpn_proximity lib p = and_then (proximity_field exclusion_field proximity p) λ exclusion p1.
    and_then (proximity_field (number_field lib) bad_integer p1) λ distance p2.
      and_then (proximity_field ordered_field proximity p2) λ ordered p3.
        and_then (proximity_field (number_field lib) bad_integer p3) λ relation_type p4.
          and_then (proximity_field (unit_field lib) proximity p4) λ which p5.
            and_then (proximity_field (number_field lib) bad_integer p5) λ unit p6.
              done
                (record {
                  exclusion = exclusion;
                  distance = distance;
                  ordered = ordered;
                  relation_type = relation_type;
                  which = which;
                  unit = unit;
                })
                p6

unfoldable pub complex_operator : Library → Look → Parser → Outcome Operator
unfolding rpn_proximity
complex_operator lib and_token p = done op_and p
complex_operator lib or_token p = done op_or p
complex_operator lib not_token p = done op_and_not p
complex_operator lib prox_token p = and_then (rpn_proximity lib p) λ x q. done (op_prox x) q
complex_operator lib _ p = fail internal p

-- `again` is `rpn_structure` for the parts.
unfoldable pub rpn_complex :
    Library → (Parser → Outcome RpnStructure) → Parser → Outcome RpnStructure
unfolding complex_operator lex
rpn_complex lib again p = and_then (complex_operator lib p.query_look p) λ op q.
    and_then (again (lex q))
      λ s1 q1. and_then (again q1) λ s2 q2. done (complex_structure op s1 s2) q2

abbrev pub set_term_type : TermType → Parser → Parser
set_term_type t p = record p { term_type = t }

abbrev pub named_term_type : Parser → Parser
named_term_type p =
    if compare_term p (codes "general") 0
    then set_term_type term_general p
    else if compare_term p (codes "numeric") 0
    then set_term_type term_numeric p
    else if compare_term p (codes "string") 0
    then set_term_type term_string p
    else if compare_term p (codes "oid") 0
    then set_term_type term_oid p
    else if compare_term p (codes "datetime") 0
    then set_term_type term_date_time p
    else if compare_term p (codes "null") 0
    then set_term_type term_null p
    else p

unfoldable pub rpn_term_type : Parser → Parser
unfolding compare_term lex
rpn_term_type p = elim (p.query_look) [ at_end ↦ p | _ ↦ lex (named_term_type p) ]

-- One attribute of the list behind `@attr`.
unfoldable pub one_attribute : Library → List Attribute → Parser → Outcome (List Attribute)
unfolding p_query_parse_attr lex
one_attribute lib attrs p = and_then (next_token p) λ _ q.
    if leb max_attr (length attrs)
    then fail too_many q
    else and_then (p_query_parse_attr lib attrs q) λ more r. done more (lex r)

unfoldable pub structure_at :
    Library
    → (List Attribute → Parser → Outcome RpnStructure)
    → Look
    → List Attribute
    → Parser
    → Outcome RpnStructure
unfolding rpn_complex simple_term simple_set one_attribute rpn_term_type lex
structure_at lib again and_token attrs p = rpn_complex lib (again attrs) p
structure_at lib again or_token attrs p = rpn_complex lib (again attrs) p
structure_at lib again not_token attrs p = rpn_complex lib (again attrs) p
structure_at lib again prox_token attrs p = rpn_complex lib (again attrs) p
structure_at lib again text_token attrs p = simple_term lib attrs p
structure_at lib again set_token attrs p = simple_set p
structure_at lib again attr_token attrs p =
    and_then (one_attribute lib attrs p) λ more q. again more q
structure_at lib again term_token attrs p = again attrs (rpn_term_type (lex p))
structure_at lib again attrset_token attrs p = done unset p
structure_at lib again at_end attrs p = fail missing p

unfoldable pub rpn_structure : ℕ → Library → List Attribute → Parser → Outcome RpnStructure
unfolding structure_at
rpn_structure zero lib attrs p = out_of_fuel
rpn_structure (suc fuel) lib attrs p =
    structure_at lib (λ more q. rpn_structure fuel lib more q) p.query_look attrs p

-- The first token, and the attribute set that `@attrset` names there. The set of Bib-1 is never a null
-- pointer, so that the second test of `p_query_rpn_mk` does not fail.
unfoldable pub top_set : Library → Parser → Outcome Oid
unfolding lex query_oid_getvalbyname
top_set lib p =
    let q = lex p in
    elim (q.query_look) [
      | attrset_token ↦ elim (query_oid_getvalbyname lib (lex q)) [
        | none ↦ fail attset (lex q)
        | some set ↦ done set (lex (lex q))
      ]
      | _ ↦ done (lib.attset_bib_1) q
    ]

-- Nothing may follow the query.
unfoldable pub query_end : Oid → RpnStructure → Parser → Outcome RpnQuery
query_end set s p = elim (p.query_look) [
  | at_end ↦ done (record { attribute_set_id = set; structure = s }) p
  | _ ↦ fail extra p
]

-- Each structure begins with a token of its own, so that the length of the text is enough fuel.
unfoldable pub p_query_rpn_mk : Library → Parser → Outcome RpnQuery
unfolding top_set rpn_structure query_end
p_query_rpn_mk lib p =
    and_then (top_set lib p)
      λ set q. and_then (rpn_structure (length p.query_ptr + 2) lib [] q) λ s r. query_end set s r

unfoldable pub yaz_pqf_parse : Library → Parser → Bytes → Outcome RpnQuery
unfolding p_query_rpn_mk
yaz_pqf_parse lib p qbuf = p_query_rpn_mk lib (pqf_parser_begin qbuf p)

unfoldable pub p_query_rpn : Library → Bytes → Outcome RpnQuery
unfolding p_query_rpn_mk
p_query_rpn lib qbuf = p_query_rpn_mk lib (pqf_parser_begin qbuf yaz_pqf_create)
