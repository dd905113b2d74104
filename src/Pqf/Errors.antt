-- ===== src/Pqf/Errors.antt =====
-- Where the parser of src/pquery.c returns a null pointer, `li->error` says why.
use yaz.Prelude.{
  ℕ, zero, suc, ◌+◌, ◌≡◌, ◌≢◌, subst, inl, inr, Bool-cases, List, [], Bytes, Option, none, some,
  length, leb,
}
use yaz.Pqf.{Library, Oid, Attribute, RpnStructure, RpnQuery}
use yaz.Pqf.State.{
  Parser, Look, at_end, and_token, or_token, not_token, attr_token, set_token, attrset_token,
  prox_token, term_token, text_token, Error, no_error, missing, attset, extra, proximity,
  bad_integer, Outcome, done, failed, out_of_fuel, and_then, fail, pqf_parser_begin, is_digit, peek,
  yaz_pqf_error,
}
use yaz.Pqf.Lexer.{lex}
use yaz.Pqf.Attributes.{
  next_token, query_oid_getvalbyname, parse_type, type_at, type_behind_set, p_query_parse_attr,
  find_char, is_set_name, inherited_set,
}
use yaz.Pqf.Parser.{
  rpn_structure, structure_at, rpn_complex, complex_operator, proximity_field, rpn_proximity,
  simple_term, simple_set, one_attribute, max_attr, rpn_term_type, top_set, query_end,
  p_query_rpn_mk, yaz_pqf_parse,
}
use yaz.Pqf.Progress.{look-cases}

-- A null pointer comes with an error.
abbrev pub Explains {ℓ} : {A : Type ℓ} → Outcome A → Type 0
Explains (done a p) = Unit
Explains (failed p) = p.error ≡ no_error → ⊥
Explains out_of_fuel = Unit

Explains-and_then {ℓ κ} :
    {A : Type ℓ} {B : Type κ} (o : Outcome A) (f : A → Parser → Outcome B)
    → Explains o
    → ((a : A) (p : Parser) → Explains (f a p))
    → Explains (and_then o f)
Explains-and_then (done a p) f h k = k a p
Explains-and_then (failed p) f h k = h
Explains-and_then out_of_fuel f h k = tt

next_token-Explains : (p : Parser) → Explains (next_token p)
next_token-Explains p =
    let q = lex p in
    elim (look-cases q.query_look 0 (fail {A = Unit} missing q) (done tt q)) [
      | inl e ↦ rw e (λ h. cc h)
      | inr e ↦ rw (e.0) tt
    ]

module _ (lib : Library) where
  field-Explains :
      {A : Type 0} (field : Bytes → Option A) (e : Error) (p : Parser)
      → (e ≡ no_error → ⊥)
      → Explains (proximity_field field e p)
  unfolding proximity_field
  field-Explains {A = A} field e p n =
      Explains-and_then (next_token p) _ (next_token-Explains p) λ _ q. found (field q.lex_buf) q
    where
      found :
          (o : Option A) (q : Parser)
          → Explains {A = A} (elim o [ none ↦ fail e q | some a ↦ done a q ])
      found none q = n
      found (some a) q = tt

  rpn_proximity-Explains : (p : Parser) → Explains (rpn_proximity lib p)
  unfolding rpn_proximity
  rpn_proximity-Explains p =
      Explains-and_then _ _ (field-Explains _ proximity p (λ h. cc h)) λ _ p1.
        Explains-and_then _ _ (field-Explains _ bad_integer p1 (λ h. cc h)) λ _ p2.
          Explains-and_then _ _ (field-Explains _ proximity p2 (λ h. cc h)) λ _ p3.
            Explains-and_then _ _ (field-Explains _ bad_integer p3 (λ h. cc h)) λ _ p4.
              Explains-and_then _ _ (field-Explains _ proximity p4 (λ h. cc h)) λ _ p5.
                Explains-and_then _ _ (field-Explains _ bad_integer p5 (λ h. cc h)) λ _ p6. tt

  type_at-Explains :
      (attrs : List Attribute) (set : Option Oid) (at : Option ℕ) (p : Parser)
      → Explains (type_at lib attrs set at p)
  unfolding parse_type
  type_at-Explains attrs set none p = λ h. cc h
  type_at-Explains attrs set (some i) p = elim (Bool-cases (is_digit (peek p.lex_buf))) [
    | inl e ↦ rw e tt
    | inr e ↦ rw e (λ h. cc h)
  ]

  parse_attr-Explains :
      (attrs : List Attribute) (p : Parser) → Explains (p_query_parse_attr lib attrs p)
  unfolding p_query_parse_attr
  parse_attr-Explains attrs p =
      elim (Bool-cases (is_set_name (find_char b'=' p.lex_buf) p.lex_len)) [
        | inl e ↦ rw e (behind (query_oid_getvalbyname lib p))
        | inr e ↦ rw e (type_at-Explains attrs (inherited_set attrs) (find_char b'=' p.lex_buf) p)
      ]
    where
      behind : (set : Option Oid) → Explains (type_behind_set lib attrs set p)
      behind none = λ h. cc h
      behind (some set) =
          Explains-and_then (next_token p) _ (next_token-Explains p)
            λ _ q. type_at-Explains attrs (some set) (find_char b'=' q.lex_buf) q

  one_attribute-Explains :
      (attrs : List Attribute) (p : Parser) → Explains (one_attribute lib attrs p)
  unfolding one_attribute
  one_attribute-Explains attrs p = Explains-and_then (next_token p) _ (next_token-Explains p) λ _ q.
      elim (Bool-cases (leb max_attr (length attrs))) [
        | inl e ↦ rw e (λ h. cc h)
        | inr e ↦ rw e (
            Explains-and_then (p_query_parse_attr lib attrs q) _ (parse_attr-Explains attrs q)
              λ _ r. tt)
      ]

  complex_operator-Explains : (l : Look) (p : Parser) → Explains (complex_operator lib l p)
  unfolding complex_operator
  complex_operator-Explains and_token p = tt
  complex_operator-Explains or_token p = tt
  complex_operator-Explains not_token p = tt
  complex_operator-Explains prox_token p =
      Explains-and_then (rpn_proximity lib p) _ (rpn_proximity-Explains p) λ _ q. tt
  complex_operator-Explains at_end p = λ h. cc h
  complex_operator-Explains attr_token p = λ h. cc h
  complex_operator-Explains set_token p = λ h. cc h
  complex_operator-Explains attrset_token p = λ h. cc h
  complex_operator-Explains term_token p = λ h. cc h
  complex_operator-Explains text_token p = λ h. cc h

  rpn_complex-Explains :
      (again : Parser → Outcome RpnStructure) (p : Parser)
      → ((q : Parser) → Explains (again q))
      → Explains (rpn_complex lib again p)
  unfolding rpn_complex
  rpn_complex-Explains again p k =
      Explains-and_then (complex_operator lib p.query_look p) _
        (complex_operator-Explains p.query_look p)
        λ op q.
          Explains-and_then (again (lex q)) _ (k (lex q))
            λ s1 q1. Explains-and_then (again q1) _ (k q1) λ s2 q2. tt

  rpn_structure-Explains :
      (fuel : ℕ) (attrs : List Attribute) (p : Parser) → Explains (rpn_structure fuel lib attrs p)
  unfolding rpn_structure structure_at simple_term simple_set
  rpn_structure-Explains zero attrs p = tt
  rpn_structure-Explains (suc fuel) attrs p = at_look p.query_look (rpn_structure-Explains fuel)
    where
      again : List Attribute → Parser → Outcome RpnStructure
      again more q = rpn_structure fuel lib more q

      at_look :
          (l : Look)
          → ((more : List Attribute) (q : Parser) → Explains (again more q))
          → Explains (structure_at lib again l attrs p)
      at_look and_token k = rpn_complex-Explains (again attrs) p (k attrs)
      at_look or_token k = rpn_complex-Explains (again attrs) p (k attrs)
      at_look not_token k = rpn_complex-Explains (again attrs) p (k attrs)
      at_look prox_token k = rpn_complex-Explains (again attrs) p (k attrs)
      at_look attr_token k =
          Explains-and_then (one_attribute lib attrs p) _ (one_attribute-Explains attrs p) k
      at_look set_token k = Explains-and_then (next_token p) _ (next_token-Explains p) λ _ q. tt
      at_look term_token k = k attrs (rpn_term_type (lex p))
      at_look text_token k = tt
      at_look attrset_token k = tt
      at_look at_end k = λ h. cc h

  top_set-Explains : (p : Parser) → Explains (top_set lib p)
  unfolding top_set
  top_set-Explains p = looked (lex p).query_look
    where
      named :
          (o : Option Oid)
          → Explains {A = Oid} (elim o [
            | none ↦ fail attset (lex (lex p))
            | some set ↦ done set (lex (lex (lex p)))
          ])
      named none = λ h. cc h
      named (some set) = tt

      looked :
          (l : Look)
          → Explains {A = Oid} (elim l [
            | attrset_token ↦ elim (query_oid_getvalbyname lib (lex (lex p))) [
              | none ↦ fail attset (lex (lex p))
              | some set ↦ done set (lex (lex (lex p)))
            ]
            | _ ↦ done (lib.attset_bib_1) (lex p)
          ])
      looked at_end = tt
      looked and_token = tt
      looked or_token = tt
      looked not_token = tt
      looked attr_token = tt
      looked set_token = tt
      looked attrset_token = named (query_oid_getvalbyname lib (lex (lex p)))
      looked prox_token = tt
      looked term_token = tt
      looked text_token = tt

  query_end-Explains : (set : Oid) (s : RpnStructure) (p : Parser) → Explains (query_end set s p)
  unfolding query_end
  query_end-Explains set s p =
      let rpn : RpnQuery = record { attribute_set_id = set; structure = s } in
      elim (look-cases p.query_look 0 (done rpn p) (fail extra p)) [
        | inl e ↦ rw e tt
        | inr e ↦ rw (e.0) (λ h. cc h)
      ]

  -- Whatever state the parser is in and whatever the text, where it returns a null pointer
  -- `yaz_pqf_error` reports a code other than `YAZ_PQF_ERROR_NONE`.
  pub yaz_pqf_parse-error :
      (p q : Parser) (qbuf : Bytes)
      → yaz_pqf_parse lib p qbuf ≡ failed q
      → (yaz_pqf_error q).0 ≢ no_error
  unfolding yaz_pqf_parse p_query_rpn_mk yaz_pqf_error
  yaz_pqf_parse-error p q qbuf e = subst Explains e explained
    where
      start : Parser
      start = pqf_parser_begin qbuf p

      explained : Explains (p_query_rpn_mk lib start)
      explained = Explains-and_then (top_set lib start) _ (top_set-Explains start) λ set r.
          Explains-and_then (rpn_structure (length qbuf + 2) lib [] r) _
            (rpn_structure-Explains (length qbuf + 2) [] r) λ s u. query_end-Explains set s u
