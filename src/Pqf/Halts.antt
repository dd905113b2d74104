-- ===== src/Pqf/Halts.antt =====
-- The parser of src/pquery.c ends on every text, and every query it returns is complete.
use yaz.Prelude.{
  ◌+◌, ◌≤◌, ◌≡◌, ◌≢◌, ◌⊎◌, inl, inr, [], Bytes, Option, none, some, length, arith, subst,
}
use yaz.Pqf.{Library, Oid, RpnStructure, RpnQuery}
use yaz.Pqf.State.{
  Parser, Look, at_end, and_token, or_token, not_token, attr_token, set_token, attrset_token,
  prox_token, term_token, text_token, done, out_of_fuel, fail, attset, extra, pqf_parser_begin,
}
use yaz.Pqf.Lexer.{lex}
use yaz.Pqf.Attributes.{query_oid_getvalbyname}
use yaz.Pqf.Parser.{rpn_structure, top_set, query_end, p_query_rpn_mk, yaz_pqf_parse}
use yaz.Pqf.Progress.{left_of, Yields, Yields-and_then, lex-left, length-lex}
use yaz.Pqf.Completes.{IsComplete, Made, rpn_structure-Made}

module _ (lib : Library) where
  pub top_set-Yields : (p : Parser) → Yields (λ _ q. left_of q ≤ length p.query_ptr) (top_set lib p)
  unfolding top_set
  top_set-Yields p = looked (lex p).query_look
    where
      named :
          (o : Option Oid)
          → Yields {A = Oid}
              (λ _ q. left_of q ≤ length p.query_ptr)
              (elim o [
                | none ↦ fail attset (lex (lex p))
                | some set ↦ done set (lex (lex (lex p)))
              ])
      named none = tt
      named (some set) = omega (arith, lex-left (lex (lex p)), length-lex (lex p), length-lex p)

      looked :
          (l : Look)
          → Yields {A = Oid}
              (λ _ q. left_of q ≤ length p.query_ptr)
              (elim l [
                | attrset_token ↦ elim (query_oid_getvalbyname lib (lex (lex p))) [
                  | none ↦ fail attset (lex (lex p))
                  | some set ↦ done set (lex (lex (lex p)))
                ]
                | _ ↦ done (lib.attset_bib_1) (lex p)
              ])
      looked attrset_token = named (query_oid_getvalbyname lib (lex (lex p)))
      looked at_end = lex-left p
      looked and_token = lex-left p
      looked or_token = lex-left p
      looked not_token = lex-left p
      looked attr_token = lex-left p
      looked set_token = lex-left p
      looked prox_token = lex-left p
      looked term_token = lex-left p
      looked text_token = lex-left p

  -- A query that is returned.
  abbrev Returned : RpnQuery → Parser → Type 0
  Returned rpn q = IsComplete rpn.structure

  query_end-Returned :
      (set : Oid) (s : RpnStructure) (q : Parser)
      → IsComplete s ⊎ (q.query_look ≡ attrset_token)
      → Yields Returned (query_end set s q)
  unfolding query_end
  query_end-Returned set s q (inr e) = rw e tt
  query_end-Returned set s q (inl c) = looked q.query_look
    where
      looked :
          (l : Look)
          → Yields {A = RpnQuery} Returned (elim l [
            | at_end ↦ done (record { attribute_set_id = set; structure = s }) q
            | _ ↦ fail extra q
          ])
      looked at_end = c
      looked and_token = tt
      looked or_token = tt
      looked not_token = tt
      looked attr_token = tt
      looked set_token = tt
      looked attrset_token = tt
      looked prox_token = tt
      looked term_token = tt
      looked text_token = tt

  yaz_pqf_parse-Returned : (p : Parser) (qbuf : Bytes) → Yields Returned (yaz_pqf_parse lib p qbuf)
  unfolding yaz_pqf_parse p_query_rpn_mk
  yaz_pqf_parse-Returned p qbuf =
      let start = pqf_parser_begin qbuf p in
      Yields-and_then (λ _ q. left_of q ≤ length qbuf) Returned (top_set lib start) _
        (top_set-Yields start)
        λ set q l.
          Yields-and_then (Made q) Returned (rpn_structure (length qbuf + 2) lib [] q) _
            (rpn_structure-Made lib (length qbuf + 2) [] q (omega (arith, l)) (omega arith))
            λ s r m. query_end-Returned set s r m.0

  -- `yaz_pqf_parse` returns a query or a null pointer.
  pub yaz_pqf_parse_ends : (p : Parser) (qbuf : Bytes) → yaz_pqf_parse lib p qbuf ≢ out_of_fuel
  yaz_pqf_parse_ends p qbuf e = subst (Yields Returned) e (yaz_pqf_parse-Returned p qbuf)

  -- In a query that the parser returns every node has been written, although `rpn_structure` returns an
  -- unwritten node for an `@attrset` within a query, and every list of attributes has at most 512
  -- elements, which the arrays hold, and no type twice.
  pub yaz_pqf_parse-IsComplete :
      (p q : Parser) (qbuf : Bytes) (rpn : RpnQuery)
      → yaz_pqf_parse lib p qbuf ≡ done rpn q
      → IsComplete rpn.structure
  yaz_pqf_parse-IsComplete p q qbuf rpn e =
      subst (Yields Returned) e (yaz_pqf_parse-Returned p qbuf)
