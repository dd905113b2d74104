-- ===== src/Pqf/Finishes.antt =====
-- The loops of src/pquery.c for scan terms and facets end.
use yaz.Prelude.{
  ℕ, zero, suc, ◌+◌, ◌<◌, ◌≤◌, ◌≡◌, ◌≢◌, refl, sym, ◌∙◌, inl, inr, List, [], ◌∷◌, ◌++◌, Bytes,
  Option, some, none, length, ltb, if◌then◌else◌, arith,
}
use yaz.Pqf.{Library, Oid, Attribute, Term}
use yaz.Pqf.State.{
  Parser, Look, at_end, and_token, or_token, not_token, attr_token, set_token, attrset_token,
  prox_token, term_token, text_token, Outcome, done, failed, out_of_fuel, fail, extra, missing,
  pqf_parser_begin,
}
use yaz.Pqf.Lexer.{lex}
use yaz.Pqf.Attributes.{rpn_term_value}
use yaz.Pqf.Parser.{yaz_pqf_parse, one_attribute, rpn_term_type, top_set}
use yaz.Pqf.Scan.{
  scan_step, scan_attributes, scan_behind, p_query_scan_attributes_mk, scan_term, scan_both,
  p_query_scan_mk, yaz_pqf_scan, facet_terms,
}
use yaz.Pqf.Progress.{left_of, Yields, Yields-and_then, Yields-imp, lex-lt, look-cases}
use yaz.Pqf.Advances.{Grows, one_attribute-Grows}
use yaz.Pqf.Completes.{left_of-rpn_term_type}
use yaz.Pqf.Halts.{top_set-Yields, yaz_pqf_parse_ends}

module _ (lib : Library) where
  -- There is an outcome within the fuel, with no more left than before.
  abbrev Stops : ℕ → Outcome (List Attribute) → Type 0
  Stops n o = Yields (λ _ q. left_of q ≤ n) o

  scan_step-Stops :
      (l : Look) (again : List Attribute → Parser → Outcome (List Attribute))
      (attrs : List Attribute) (p : Parser)
      → p.query_look ≡ l
      → ((more : List Attribute) (q : Parser)
          → left_of q < left_of p
          → Stops (left_of q) (again more q))
      → Stops (left_of p) (scan_step lib again l attrs p)
  unfolding scan_step
  scan_step-Stops attr_token again attrs p e k =
      Yields-and_then (Grows lib attrs p) (λ _ q. left_of q ≤ left_of p) (one_attribute lib attrs p)
        _ (one_attribute-Grows lib attrs p (rw e (omega arith)))
        λ more q g.
          Yields-imp (λ _ r. left_of r ≤ left_of q) (λ _ r. left_of r ≤ left_of p) (again more q)
            (k more q g.2) λ _ r h. omega (arith, h, g.2)
  scan_step-Stops term_token again attrs p e k =
      let q = rpn_term_type (lex p) in
      let less : left_of q < left_of p =
        omega (arith, left_of-rpn_term_type lib (lex p), lex-lt p (rw e (omega arith))) in
      Yields-imp (λ _ r. left_of r ≤ left_of q) (λ _ r. left_of r ≤ left_of p) (again attrs q)
        (k attrs q less) λ _ r h. omega (arith, h, less)
  scan_step-Stops at_end again attrs p e k = omega arith
  scan_step-Stops and_token again attrs p e k = omega arith
  scan_step-Stops or_token again attrs p e k = omega arith
  scan_step-Stops not_token again attrs p e k = omega arith
  scan_step-Stops set_token again attrs p e k = omega arith
  scan_step-Stops attrset_token again attrs p e k = omega arith
  scan_step-Stops prox_token again attrs p e k = omega arith
  scan_step-Stops text_token again attrs p e k = omega arith

  scan_attributes-Stops :
      (fuel : ℕ) (attrs : List Attribute) (p : Parser)
      → left_of p < fuel
      → Stops (left_of p) (scan_attributes fuel lib attrs p)
  unfolding scan_attributes
  scan_attributes-Stops zero attrs p h = absurd (omega arith)
  scan_attributes-Stops (suc fuel) attrs p h =
      scan_step-Stops p.query_look (λ more q. scan_attributes fuel lib more q) attrs p refl
        λ more q less. scan_attributes-Stops fuel more q (omega (arith, h, less))

  scan_behind-Stops :
      (n : ℕ) (o : Outcome Oid)
      → Yields (λ _ q. left_of q ≤ n) o
      → Stops n (scan_behind lib (n + 2) o).1
  unfolding scan_behind
  scan_behind-Stops n (done set q) h =
      Yields-and_then (λ _ r. left_of r ≤ left_of q) (λ _ r. left_of r ≤ n)
        (scan_attributes (n + 2) lib [] q) _ (scan_attributes-Stops (n + 2) [] q (omega (arith, h)))
        λ _ r k. omega (arith, h, k)
  scan_behind-Stops n (failed q) h = tt
  scan_behind-Stops n out_of_fuel h = h

  scan_term_ends :
      (attributes : Option (List Attribute)) (p : Parser) → scan_term lib attributes p ≢ out_of_fuel
  unfolding scan_term
  scan_term_ends attributes p e =
      let q = lex p in
      let ended : Outcome (Option (List Attribute) × Term) =
        done (attributes, rpn_term_value lib p) q in
      let behind : Outcome (Option (List Attribute) × Term) = elim (q.query_look) [
        | at_end ↦ ended
        | _ ↦ fail extra q
      ] in
      elim (look-cases p.query_look 0 (fail missing p) behind) [
        | inl a ↦ cc (sym a ∙ e)
        | inr a ↦ elim (look-cases q.query_look 0 ended (fail extra q)) [
          | inl b ↦ cc (sym b ∙ sym (a.0) ∙ e)
          | inr b ↦ cc (sym (b.0) ∙ sym (a.0) ∙ e)
        ]
      ]

  scan_both_ends :
      (n : ℕ) (set : Option Oid) (o : Outcome (List Attribute))
      → Stops n o
      → (scan_both lib (set, o)).1 ≢ out_of_fuel
  unfolding scan_both
  scan_both_ends n set (done list q) h = scan_term_ends (some list) q
  scan_both_ends n set (failed q) h = scan_term_ends none q
  scan_both_ends n set out_of_fuel h = absurd h

  -- `yaz_pqf_scan` returns a term or a null pointer.
  yaz_pqf_scan_ends : (p : Parser) (qbuf : Bytes) → (yaz_pqf_scan lib p qbuf).1 ≢ out_of_fuel
  unfolding yaz_pqf_scan p_query_scan_mk p_query_scan_attributes_mk
  yaz_pqf_scan_ends p qbuf =
      let start = pqf_parser_begin qbuf p in
      let n = length qbuf in
      let o = scan_behind lib (n + 2) (top_set lib start) in
      scan_both_ends n o.0 o.1 (scan_behind-Stops n (top_set lib start) (top_set-Yields lib start))

  -- More fuel than there are characters left changes nothing in the terms of a facet.
  pub facet_terms-enough :
      (fuel : ℕ) (terms : List Term) (p : Parser)
      → left_of p < fuel
      → facet_terms (suc fuel) lib terms p ≡ facet_terms fuel lib terms p
  unfolding facet_terms
  facet_terms-enough zero terms p h = absurd (omega arith)
  facet_terms-enough (suc fuel) terms p h =
      at_look p.query_look (λ e.
        facet_terms-enough fuel kept (lex p) (omega (arith, h, lex-lt p (rw e (omega arith)))))
    where
      kept : List Term
      kept = if ltb (length terms) 10 then terms ++ rpn_term_value lib p ∷ [] else terms

      more : List Term
      more = facet_terms (suc fuel) lib kept (lex p)

      rest : List Term
      rest = facet_terms fuel lib kept (lex p)

      at_look :
          (l : Look)
          → (l ≡ text_token → more ≡ rest)
          → (elim l [ text_token ↦ more | _ ↦ terms ]) ≡ (elim l [ text_token ↦ rest | _ ↦ terms ])
      at_look text_token k = k refl
      at_look at_end k = refl
      at_look and_token k = refl
      at_look or_token k = refl
      at_look not_token k = refl
      at_look attr_token k = refl
      at_look set_token k = refl
      at_look attrset_token k = refl
      at_look prox_token k = refl
      at_look term_token k = refl

  -- On every text, whatever state the parser is in, `yaz_pqf_parse` returns a query or a null pointer and
  -- `yaz_pqf_scan` a term or a null pointer: their rounds end within the fuel, which is the length of
  -- the text and two.
  pub yaz_pqf_parse_scan_end :
      (p : Parser) (qbuf : Bytes)
      → (yaz_pqf_parse lib p qbuf ≢ out_of_fuel) × ((yaz_pqf_scan lib p qbuf).1 ≢ out_of_fuel)
  yaz_pqf_parse_scan_end p qbuf = (yaz_pqf_parse_ends lib p qbuf, yaz_pqf_scan_ends p qbuf)
