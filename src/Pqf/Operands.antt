-- ===== src/Pqf/Operands.antt =====
-- A term that src/querytowrbuf.c writes is read back as an operand by `rpn_structure` of src/pquery.c.
use yaz.Prelude.{
  ℕ, zero, suc, ◌-◌, ◌≤◌, ◌≡◌, ◌∙◌, ap, sym, subst, refl, List, [], ◌∷◌, ◌++◌, Bytes, length, codes,
  arith,
}
use yaz.Prelude.Int.{ℤ}
use yaz.Pqf.{
  Library, TermType, term_numeric, term_string, Attribute, Term, general, character_string, number,
  null, other, RpnStructure, attributes_plus_term,
}
use yaz.Pqf.State.{Parser, text_token, Outcome, done}
use yaz.Pqf.Lexer.{lex, skip_spaces, token_from, compare_term, escape_string}
use yaz.Pqf.Attributes.{token_text, c_string, get_attribute_list, z_term_create, rpn_term_value}
use yaz.Pqf.Parser.{rpn_structure, structure_at, simple_term, rpn_term_type}
use yaz.Pqf.Text.{term_word, term_text}
use yaz.Pqf.Tokens.{at, IsTail, lex-word}
use yaz.Pqf.Terms.{TermToken, Token-TermToken, term_word-TermToken}
use yaz.Pqf.Elements.{escape_loop-word, c_string-word}
use yaz.Pqf.Structures.{IsText, term_type_after, IsPrinted, IsWritableTerm, StructureRead}

module _ (lib : Library) where
  token-StructureRead :
      (fuel : ℕ) (attrs : List Attribute) (t tail : Bytes) (ty : TermType) (p q : Parser)
      → TermToken lib t tail p q
      → p.term_type ≡ ty
      → StructureRead lib
          (attributes_plus_term (get_attribute_list attrs) (z_term_create lib ty t))
          ty
          tail
          (rpn_structure (suc fuel) lib attrs q)
  unfolding rpn_structure structure_at simple_term rpn_term_value
  token-StructureRead fuel attrs t tail ty p q k e =
      let again : List Attribute → Parser → Outcome RpnStructure =
        λ more r. rpn_structure fuel lib more r in
      let type = k.term_type ∙ e in
      record {
        state = q;
        reads =
            ap (λ l. structure_at lib again l attrs q) k.looks
            ∙ ap (λ n. done (attributes_plus_term (get_attribute_list attrs) n) (lex q))
                (ap (λ u. z_term_create lib u (escape_string lib (token_text q))) type
                  ∙ ap (z_term_create lib ty) k.value)
            ∙ ap (done (attributes_plus_term (get_attribute_list attrs) (z_term_create lib ty t)))
                k.next;
        term_type = type;
      }

  printed-TermToken :
      (z : ℤ) (tail : Bytes) (p : Parser) (n : IsPrinted lib z)
      → IsTail tail
      → TermToken lib (n.lead ∷ n.more) tail p (lex (at p (lib.print_int z ++ tail)))
  printed-TermToken z tail p n t =
      let w = n.lead ∷ n.more in
      subst (λ xs. TermToken lib w tail p (lex (at p (xs ++ tail)))) (sym n.printed)
        (Token-TermToken lib w w tail tail p (lex (at p (w ++ tail)))
          (lex-word n.lead n.more tail p n.word n.start t) (escape_loop-word lib w n.word))

  c_string-text : (t : Bytes) → IsText t → c_string t ≡ t
  unfolding c_string
  c_string-text [] h = refl
  c_string-text (c ∷ cs) h = rw h.0 (ap (◌∷◌ c) (c_string-text cs h.1))

  -- The parser behind the name of a type.
  abbrev behind_type : Parser → TermType → Bytes → Bytes → Parser
  behind_type p ty name rest = record p {
    term_type = ty;
    lex_buf = name ++ rest;
    lex_len = length name - 1;
    query_look = text_token;
  }

  abbrev Reads : List Attribute → Term → TermType → Bytes → ℕ → Parser → Type 0
  Reads attrs t ty tail fuel q =
      StructureRead lib (attributes_plus_term (get_attribute_list attrs) t) ty tail
        (rpn_structure fuel lib attrs q)

  pub term-StructureRead :
      (t : Term) (fuel : ℕ) (attrs : List Attribute) (ty : TermType) (tail : Bytes) (p : Parser)
      → IsWritableTerm lib ty t
      → p.term_type ≡ ty
      → IsTail tail
      → 2 ≤ fuel
      → StructureRead lib
          (attributes_plus_term (get_attribute_list attrs) t)
          (term_type_after ty t)
          tail
          (rpn_structure fuel lib attrs (lex (at p (term_text lib t ++ tail))))
  unfolding rpn_structure structure_at rpn_term_type compare_term lex skip_spaces token_from
      z_term_create
  term-StructureRead t zero attrs ty tail p w e k f = absurd (omega arith)
  term-StructureRead t (suc zero) attrs ty tail p w e k f = absurd (omega arith)
  term-StructureRead (general t) (suc (suc fuel)) attrs ty tail p w e k f =
      let q = lex (at p (term_word t ++ tail)) in
      let r =
        token-StructureRead (suc fuel) attrs t tail ty p q (term_word-TermToken lib t tail p w.2 k)
          e in
      subst (λ n. Reads attrs n ty tail (suc (suc fuel)) q) (ap (λ u. z_term_create lib u t) w.0) r
  term-StructureRead (character_string t) (suc (suc fuel)) attrs ty tail p w e k f =
      let q = behind_type p term_string (codes "string ") (term_word t ++ tail) in
      let r =
        token-StructureRead fuel attrs t tail term_string q (lex (at q (term_word t ++ tail)))
          (term_word-TermToken lib t tail q w.1 k) refl in
      subst (λ n. Reads attrs n term_string tail (suc fuel) (lex (at q (term_word t ++ tail))))
        (ap character_string (c_string-text t w.0)) r
  term-StructureRead (number z) (suc (suc fuel)) attrs ty tail p n e k f =
      let w = n.lead ∷ n.more in
      let q = behind_type p term_numeric (codes "numeric ") (lib.print_int z ++ tail) in
      let r =
        token-StructureRead fuel attrs w tail term_numeric q (lex (at q (lib.print_int z ++ tail)))
          (printed-TermToken z tail q n k) refl in
      subst (λ m. Reads attrs m term_numeric tail (suc fuel) (lex (at q (lib.print_int z ++ tail))))
        (ap (λ xs. number (lib.odr_atoi xs)) (c_string-word lib w n.word) ∙ ap number n.read) r
  term-StructureRead null (suc (suc fuel)) attrs ty tail p w e k f = absurd w
  term-StructureRead (other _) (suc (suc fuel)) attrs ty tail p w e k f = absurd w
