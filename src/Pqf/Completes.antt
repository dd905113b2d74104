-- ===== src/Pqf/Completes.antt =====
-- What `rpn_structure` of src/pquery.c returns for every state and fuel enough.
use yaz.Prelude.{ℕ, zero, suc, ◌<◌, ◌≤◌, ◌≡◌, ◌⊎◌, refl, inl, inr, List, length, arith}
use yaz.Pqf.{
  Library, Attribute, Operator, RpnStructure, complex_structure, attributes_plus_term,
  result_set_id, unset,
}
use yaz.Pqf.State.{
  Parser, Look, at_end, and_token, or_token, not_token, attr_token, set_token, attrset_token,
  prox_token, term_token, text_token, Outcome,
}
use yaz.Pqf.Lexer.{lex}
use yaz.Pqf.Attributes.{next_token}
use yaz.Pqf.Parser.{
  rpn_structure, structure_at, rpn_complex, complex_operator, rpn_proximity, simple_term,
  simple_set, one_attribute, rpn_term_type, named_term_type, max_attr,
}
use yaz.Pqf.Chosen.{
  HasDistinctTypes, get_attribute_list-HasDistinctTypes, length-get_attribute_list,
}
use yaz.Pqf.Progress.{
  left_of, Yields, Yields-and_then, Yields-imp, lex-lt, look-cases, next_token-Moves, Moves,
}
use yaz.Pqf.Advances.{rpn_proximity-Moves, Grows, one_attribute-Grows}

-- Every node has been written, and no list of attributes has more than 512 or a type twice.
abbrev pub IsComplete : RpnStructure → Type 0
IsComplete (complex_structure op s1 s2) = IsComplete s1 × IsComplete s2
IsComplete (attributes_plus_term list t) = (length list ≤ max_attr) × HasDistinctTypes list
IsComplete (result_set_id id) = Unit
IsComplete unset = ⊥

-- A structure that is not complete is left at an `@attrset`, which nothing takes.
abbrev pub Made : Parser → RpnStructure → Parser → Type 0
Made p s q =
    (IsComplete s ⊎ (q.query_look ≡ attrset_token))
    × (p.query_look ≡ attrset_token → q.query_look ≡ attrset_token)
    × (left_of q ≤ left_of p)

module _ (lib : Library) where
  complex_operator-Keeps :
      (l : Look) (p : Parser)
      → 0 < left_of p
      → Yields (λ _ q. (0 < left_of q) × (left_of q ≤ left_of p)) (complex_operator lib l p)
  unfolding complex_operator
  complex_operator-Keeps at_end p h = tt
  complex_operator-Keeps and_token p h = (h, omega arith)
  complex_operator-Keeps or_token p h = (h, omega arith)
  complex_operator-Keeps not_token p h = (h, omega arith)
  complex_operator-Keeps attr_token p h = tt
  complex_operator-Keeps set_token p h = tt
  complex_operator-Keeps attrset_token p h = tt
  complex_operator-Keeps prox_token p h =
      Yields-and_then (λ _ q. Moves p q) (λ _ q. (0 < left_of q) × (left_of q ≤ left_of p))
        (rpn_proximity lib p) _ (rpn_proximity-Moves lib p h) λ x q m. (m.0, omega (arith, m.1))
  complex_operator-Keeps term_token p h = tt
  complex_operator-Keeps text_token p h = tt

  -- What holds of the parts, which stand behind the token.
  abbrev Again : (List Attribute → Parser → Outcome RpnStructure) → Parser → Type 0
  Again again p =
      (attrs : List Attribute) (q : Parser)
      → length attrs ≤ max_attr
      → left_of q < left_of p
      → Yields (Made q) (again attrs q)

  abbrev NotAttrset : Parser → Type 0
  NotAttrset p = p.query_look ≡ attrset_token → ⊥

  joined :
      (op : Operator) (s1 s2 : RpnStructure) (p q1 q2 : Parser)
      → NotAttrset p
      → IsComplete s1 ⊎ (q1.query_look ≡ attrset_token)
      → Made q1 s2 q2
      → left_of q1 ≤ left_of p
      → Made p (complex_structure op s1 s2) q2
  joined op s1 s2 p q1 q2 n (inr e) m l = (inr (m.1 e), λ h. absurd (n h), omega (arith, m.2, l))
  joined op s1 s2 p q1 q2 n (inl c) m l =
      (elim (m.0) [ inl d ↦ inl (c, d) | inr e ↦ inr e ], λ h. absurd (n h), omega (arith, m.2, l))

  rpn_complex-Made :
      (again : List Attribute → Parser → Outcome RpnStructure) (attrs : List Attribute) (p : Parser)
      → Again again p
      → length attrs ≤ max_attr
      → 0 < left_of p
      → NotAttrset p
      → Yields (Made p) (rpn_complex lib (again attrs) p)
  unfolding rpn_complex
  rpn_complex-Made again attrs p k few h n =
      Yields-and_then (λ _ q. (0 < left_of q) × (left_of q ≤ left_of p)) (Made p)
        (complex_operator lib p.query_look p) _ (complex_operator-Keeps p.query_look p h)
        λ op q m.
          let less : left_of (lex q) < left_of p = omega (arith, m.1, lex-lt q m.0) in
          Yields-and_then (Made (lex q)) (Made p) (again attrs (lex q)) _ (k attrs (lex q) few less)
            λ s1 q1 m1.
              let less1 : left_of q1 < left_of p = omega (arith, m1.2, less) in
              Yields-and_then (Made q1) (Made p) (again attrs q1) _ (k attrs q1 few less1)
                λ s2 q2 m2. joined op s1 s2 p q1 q2 n m1.0 m2 (omega (arith, less1))

  left_of-named : (p : Parser) → left_of (named_term_type p) ≡ left_of p
  left_of-named p = ground arith

  pub left_of-rpn_term_type : (p : Parser) → left_of (rpn_term_type p) ≤ left_of p
  unfolding rpn_term_type
  left_of-rpn_term_type p =
      let q = named_term_type p in
      elim (look-cases p.query_look (length p.query_ptr) p (lex q)) [
        | inl e ↦ rw e (omega arith)
        | inr e ↦
            rw (e.0)
              (omega (arith, left_of-named p, lex-lt q (omega (arith, left_of-named p, e.1))))
      ]

  structure_at-Made :
      (l : Look) (again : List Attribute → Parser → Outcome RpnStructure) (attrs : List Attribute)
      (p : Parser)
      → p.query_look ≡ l
      → Again again p
      → length attrs ≤ max_attr
      → Yields (Made p) (structure_at lib again l attrs p)
  unfolding structure_at simple_term simple_set
  structure_at-Made at_end again attrs p e k few = tt
  structure_at-Made and_token again attrs p e k few =
      rpn_complex-Made again attrs p k few (rw e (omega arith)) (λ h. cc (e, h))
  structure_at-Made or_token again attrs p e k few =
      rpn_complex-Made again attrs p k few (rw e (omega arith)) (λ h. cc (e, h))
  structure_at-Made not_token again attrs p e k few =
      rpn_complex-Made again attrs p k few (rw e (omega arith)) (λ h. cc (e, h))
  structure_at-Made prox_token again attrs p e k few =
      rpn_complex-Made again attrs p k few (rw e (omega arith)) (λ h. cc (e, h))
  structure_at-Made attr_token again attrs p e k few =
      Yields-and_then (Grows lib attrs p) (Made p) (one_attribute lib attrs p) _
        (one_attribute-Grows lib attrs p (rw e (omega arith)))
        λ more q g.
          Yields-imp (Made q) (Made p) (again more q) (k more q g.1 g.2)
            λ s r m. (m.0, (λ h. absurd (cc (e, h))), omega (arith, m.2, g.2))
  structure_at-Made set_token again attrs p e k few =
      Yields-and_then (λ _ q. Moves p q) (Made p) (next_token p) _
        (next_token-Moves p (rw e (omega arith)))
        λ _ q m. (inl tt, (λ h. absurd (cc (e, h))), omega (arith, m.1, lex-lt q m.0))
  structure_at-Made attrset_token again attrs p e k few = (inr e, (λ h. h), omega arith)
  structure_at-Made term_token again attrs p e k few =
      let q = rpn_term_type (lex p) in
      let less : left_of q < left_of p =
        omega (arith, left_of-rpn_term_type (lex p), lex-lt p (rw e (omega arith))) in
      Yields-imp (Made q) (Made p) (again attrs q) (k attrs q few less)
        λ s r m. (m.0, (λ h. absurd (cc (e, h))), omega (arith, m.2, less))
  structure_at-Made text_token again attrs p e k few = (
    inl (omega (arith, length-get_attribute_list attrs), get_attribute_list-HasDistinctTypes attrs),
    (λ h. absurd (cc (e, h))),
    omega (arith, lex-lt p (rw e (omega arith))),
  )

  pub rpn_structure-Made :
      (fuel : ℕ) (attrs : List Attribute) (p : Parser)
      → left_of p < fuel
      → length attrs ≤ max_attr
      → Yields (Made p) (rpn_structure fuel lib attrs p)
  unfolding rpn_structure
  rpn_structure-Made zero attrs p h few = absurd (omega arith)
  rpn_structure-Made (suc fuel) attrs p h few =
      structure_at-Made p.query_look (λ more q. rpn_structure fuel lib more q) attrs p refl
        (λ more q short less. rpn_structure-Made fuel more q (omega (arith, h, less)) short) few
