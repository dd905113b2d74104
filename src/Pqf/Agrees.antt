-- ===== src/Pqf/Agrees.antt =====
-- `yaz_pqf_scan` of src/pquery.c against `yaz_pqf_parse`.
use yaz.Prelude.{ℕ, zero, suc, ◌+◌, ◌≡◌, ◌∙◌, ap, sym, refl, List, [], Bytes, Option, some, length}
use yaz.Pqf.{Library, Oid, Attribute, Term, RpnStructure, attributes_plus_term, RpnQuery}
use yaz.Pqf.State.{
  Parser, Look, at_end, and_token, or_token, not_token, attr_token, set_token, attrset_token,
  prox_token, term_token, text_token, Outcome, done, failed, out_of_fuel, and_then, fail, missing,
  extra, pqf_parser_begin,
}
use yaz.Pqf.Lexer.{lex}
use yaz.Pqf.Attributes.{next_token, get_attribute_list, rpn_term_value}
use yaz.Pqf.Parser.{
  rpn_structure, structure_at, rpn_complex, complex_operator, simple_term, simple_set,
  one_attribute, rpn_term_type, top_set, query_end, p_query_rpn_mk, yaz_pqf_parse,
}
use yaz.Pqf.Scan.{
  scan_step, scan_attributes, scan_behind, p_query_scan_attributes_mk, scan_term, scan_both,
  p_query_scan_mk, yaz_pqf_scan,
}

-- What has been done before the result.
record Steps {ℓ κ} {A : Type ℓ} {B : Type κ} (o : Outcome A) (f : A → Parser → Outcome B) (b : B)
    (q : Parser) : Type (ℓ ⊔ κ) where
  pub value : A
  pub state : Parser
  pub first : o ≡ done value state
  pub second : f value state ≡ done b q

and_then-Steps {ℓ κ} :
    {A : Type ℓ} {B : Type κ} (o : Outcome A) (f : A → Parser → Outcome B) (b : B) (q : Parser)
    → and_then o f ≡ done b q
    → Steps o f b q
and_then-Steps (done a p) f b q h = record { value = a; state = p; first = refl; second = h }
and_then-Steps (failed p) f b q h = absurd (cc h)
and_then-Steps out_of_fuel f b q h = absurd (cc h)

module _ (lib : Library) where
  -- The loop stops at the term that the structure consists of.
  record ScanRead (list : List Attribute) (t : Term) (q : Parser) (o : Outcome (List Attribute))
      : Type 0 where
    pub attrs : List Attribute
    pub state : Parser
    pub reads : o ≡ done attrs state
    pub chosen : get_attribute_list attrs ≡ list
    pub term : rpn_term_value lib state ≡ t
    pub looks : state.query_look ≡ text_token
    pub next : lex state ≡ q

  complex-not_term :
      (again : Parser → Outcome RpnStructure) (list : List Attribute) (t : Term) (p q : Parser)
      → rpn_complex lib again p ≡ done (attributes_plus_term list t) q
      → ⊥
  unfolding rpn_complex
  complex-not_term again list t p q h =
      let s = and_then-Steps (complex_operator lib p.query_look p) _ _ q h in
      let s1 = and_then-Steps (again (lex s.state)) _ _ q s.second in
      let s2 = and_then-Steps (again s1.state) _ _ q s1.second in cc (s2.second)

  structure_at-ScanRead :
      (l : Look) (again : List Attribute → Parser → Outcome RpnStructure)
      (scan : List Attribute → Parser → Outcome (List Attribute)) (attrs list : List Attribute)
      (t : Term) (p q : Parser)
      → p.query_look ≡ l
      → ((more : List Attribute) (r : Parser)
          → again more r ≡ done (attributes_plus_term list t) q
          → ScanRead list t q (scan more r))
      → structure_at lib again l attrs p ≡ done (attributes_plus_term list t) q
      → ScanRead list t q (scan_step lib scan l attrs p)
  unfolding structure_at scan_step simple_term simple_set
  structure_at-ScanRead at_end again scan attrs list t p q e k h = absurd (cc h)
  structure_at-ScanRead and_token again scan attrs list t p q e k h =
      absurd (complex-not_term (again attrs) list t p q h)
  structure_at-ScanRead or_token again scan attrs list t p q e k h =
      absurd (complex-not_term (again attrs) list t p q h)
  structure_at-ScanRead not_token again scan attrs list t p q e k h =
      absurd (complex-not_term (again attrs) list t p q h)
  structure_at-ScanRead prox_token again scan attrs list t p q e k h =
      absurd (complex-not_term (again attrs) list t p q h)
  structure_at-ScanRead attr_token again scan attrs list t p q e k h =
      let s = and_then-Steps (one_attribute lib attrs p) _ _ q h in
      rw (s.first) (k s.value s.state s.second)
  structure_at-ScanRead set_token again scan attrs list t p q e k h =
      let s = and_then-Steps (next_token p) _ _ q h in absurd (cc (s.second))
  structure_at-ScanRead attrset_token again scan attrs list t p q e k h = absurd (cc h)
  structure_at-ScanRead term_token again scan attrs list t p q e k h =
      k attrs (rpn_term_type (lex p)) h
  structure_at-ScanRead text_token again scan attrs list t p q e k h = record {
    attrs = attrs;
    state = p;
    reads = refl;
    chosen = cc h;
    term = cc h;
    looks = e;
    next = cc h;
  }

  rpn_structure-ScanRead :
      (fuel : ℕ) (attrs list : List Attribute) (t : Term) (p q : Parser)
      → rpn_structure fuel lib attrs p ≡ done (attributes_plus_term list t) q
      → ScanRead list t q (scan_attributes fuel lib attrs p)
  unfolding rpn_structure scan_attributes
  rpn_structure-ScanRead zero attrs list t p q h = absurd (cc h)
  rpn_structure-ScanRead (suc fuel) attrs list t p q h =
      structure_at-ScanRead p.query_look _ (λ more r. scan_attributes fuel lib more r) attrs list t
        p q refl (λ more r. rpn_structure-ScanRead fuel more list t r q) h

  -- The structure that is followed by the end of the text.
  query_end-done :
      (set : Oid) (s : RpnStructure) (r q : Parser) (rpn : RpnQuery)
      → query_end set s r ≡ done rpn q
      → (r.query_look ≡ at_end) × (rpn ≡ record { attribute_set_id = set; structure = s }) × (r ≡ q)
  unfolding query_end
  query_end-done set s r q rpn h = looked r.query_look refl h
    where
      looked :
          (l : Look)
          → r.query_look ≡ l
          → elim l [
            | at_end ↦ done (record { attribute_set_id = set; structure = s }) r
            | _ ↦ fail extra r
          ]
            ≡ done rpn q
          → (r.query_look ≡ at_end)
            × (rpn ≡ record { attribute_set_id = set; structure = s })
            × (r ≡ q)
      looked at_end e h = (e, cc h, cc h)
      looked and_token e h = absurd (cc h)
      looked or_token e h = absurd (cc h)
      looked not_token e h = absurd (cc h)
      looked attr_token e h = absurd (cc h)
      looked set_token e h = absurd (cc h)
      looked attrset_token e h = absurd (cc h)
      looked prox_token e h = absurd (cc h)
      looked term_token e h = absurd (cc h)
      looked text_token e h = absurd (cc h)

  scan_term-last :
      (list : List Attribute) (t : Term) (q r : Parser)
      → q.query_look ≡ text_token
      → lex q ≡ r
      → r.query_look ≡ at_end
      → rpn_term_value lib q ≡ t
      → scan_term lib (some list) q ≡ done (some list, t) r
  unfolding scan_term
  scan_term-last list t q r looks next ended term =
      let behind : Parser → Outcome (Option (List Attribute) × Term) = λ u. elim (u.query_look) [
        | at_end ↦ done (some list, rpn_term_value lib q) u
        | _ ↦ fail extra u
      ] in
      ap (λ l. elim l [ at_end ↦ fail missing q | _ ↦ behind (lex q) ]) looks
      ∙ ap behind next
      ∙ ap (λ l. elim l [ at_end ↦ done (some list, rpn_term_value lib q) r | _ ↦ fail extra r ])
          ended
      ∙ ap (λ u. done (some list, u) r) term

  -- If the parser returns for a text a query that is one term with attributes, then `yaz_pqf_scan` stores
  -- for the same text and parser the query's attribute set, and returns the attributes and the term and
  -- leaves the parser in the same state.
  pub yaz_pqf_scan-parse :
      (p q : Parser) (qbuf : Bytes) (set : Oid) (list : List Attribute) (t : Term)
      → yaz_pqf_parse lib p qbuf
        ≡ done (record { attribute_set_id = set; structure = attributes_plus_term list t }) q
      → yaz_pqf_scan lib p qbuf ≡ (some set, done (some list, t) q)
  unfolding yaz_pqf_parse p_query_rpn_mk yaz_pqf_scan p_query_scan_mk p_query_scan_attributes_mk
      scan_behind scan_both
  yaz_pqf_scan-parse p q qbuf set list t h =
      let start = pqf_parser_begin qbuf p in
      let fuel = length qbuf + 2 in
      let s = and_then-Steps (top_set lib start) _ _ q h in
      let s1 = and_then-Steps (rpn_structure fuel lib [] s.state) _ _ q s.second in
      let (ended, made, same) = query_end-done s.value s1.value s1.state q _ s1.second in
      let structure : s1.value ≡ attributes_plus_term list t = sym (ap (λ r. r.structure) made) in
      let set_read : s.value ≡ set = sym (ap (λ r. r.attribute_set_id) made) in
      let r =
        rpn_structure-ScanRead fuel [] list t s.state s1.state
          (s1.first ∙ ap (λ u. done u s1.state) structure) in
      ap (λ o. scan_both lib (scan_behind lib fuel o)) s.first
      ∙ ap
          (λ o.
            scan_both lib (some s.value, and_then o λ attrs u. done (get_attribute_list attrs) u))
          r.reads
      ∙ ap (λ l. (some s.value, scan_term lib (some l) r.state)) r.chosen
      ∙ ap (λ o. (some s.value, o))
          (scan_term-last list t r.state s1.state r.looks r.next ended r.term)
      ∙ ap (λ u. (some u, done (some list, t) s1.state)) set_read
      ∙ ap (λ u. (some set, done (some list, t) u)) same
