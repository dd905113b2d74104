-- ===== src/Pqf/Composed.antt =====
-- The structures that `yaz_rpnstructure_to_wrbuf` of src/querytowrbuf.c writes are read back by
-- `rpn_structure` of src/pquery.c.
use yaz.Prelude.{
  ℕ, zero, suc, ◌+◌, ◌<◌, ◌≤◌, ◌≡◌, ◌∙◌, ap, sym, subst, refl, false, List, [], ◌∷◌, ◌++◌,
  append_assoc, Bytes, length, length-append, All, ◌==◌, codes, arith,
}
use yaz.Pqf.{
  Library, TermType, Attribute, Term, general, character_string, number, null, other, RpnStructure,
  complex_structure, attributes_plus_term, result_set_id, unset,
}
use yaz.Pqf.State.{Parser, Outcome, done, and_then}
use yaz.Pqf.Lexer.{lex, skip_spaces, token_from}
use yaz.Pqf.Attributes.{token_text, inherited_set}
use yaz.Pqf.Parser.{rpn_structure, structure_at, simple_set, max_attr}
use yaz.Pqf.Text.{
  escape_where, is_backslash, term_word, term_text, attributes_text, operator_text, structure_text,
  set_text, type_word,
}
use yaz.Pqf.Tokens.{at, IsTail, Token-text, IsWordChar, lex-word, lex-tail}
use yaz.Pqf.Named.{next_token-text, one_attribute-AttributeRead}
use yaz.Pqf.Operators.{structure_at-operator}
use yaz.Pqf.Structures.{
  IsWord, stacked, mirrored, type_after, IsWritableTerm, AreWritable, IsWritable, StructureRead,
}
use yaz.Pqf.Structures.{
  IsWord, stacked, mirrored, type_after, IsWritableTerm, AreWritable, IsWritable, StructureRead,
}
use yaz.Pqf.Operands.{term-StructureRead}

module _ (lib : Library) where
  -- The attributes of a list are read one after the other, and the word behind them is next.
  record AttributesRead (list : List Attribute) (attrs : List Attribute) (word : Bytes)
      (ty : TermType) (fuel : ℕ) (o : Outcome RpnStructure) : Type 0 where
    pub state : Parser
    pub fuel_left : ℕ
    pub reads : o ≡ rpn_structure fuel_left lib (stacked list attrs) (lex (at state word))
    pub enough : fuel ≤ fuel_left + length (attributes_text lib list)
    pub term_type : state.term_type ≡ ty

  attributes-AttributesRead :
      (list attrs : List Attribute) (fuel : ℕ) (word : Bytes) (ty : TermType) (p : Parser)
      → AreWritable lib (inherited_set attrs) list
      → length list + length attrs ≤ max_attr
      → length (attributes_text lib list) ≤ fuel
      → p.term_type ≡ ty
      → AttributesRead list attrs word ty fuel
          (rpn_structure fuel lib attrs (lex (at p (attributes_text lib list ++ word))))
  unfolding rpn_structure structure_at lex skip_spaces token_from
  attributes-AttributesRead [] attrs fuel word ty p w few f e = record {
    state = p;
    fuel_left = fuel;
    reads = refl;
    enough = omega arith;
    term_type = e;
  }
  attributes-AttributesRead (a ∷ more) attrs zero word ty p w few f e = absurd (omega arith)
  attributes-AttributesRead (a ∷ more) attrs (suc fuel) word ty p w few f e =
      let tail = attributes_text lib more in
      let set = set_text lib a.attribute_set in
      let typed = type_word lib a in
      let shorter : length (attributes_text lib (a ∷ more))
          ≡ 6 + (length set + (length typed + suc (length tail))) =
        omega
          (arith, length-append set (typed ++ b' ' ∷ tail), length-append typed (b' ' ∷ tail)) in
      let text : attributes_text lib (a ∷ more) ++ word
          ≡ codes "@attr " ++ (set ++ (typed ++ b' ' ∷ (tail ++ word))) =
        simp (append_assoc) in
      let q = lex (at p (codes "@attr " ++ (set ++ (typed ++ b' ' ∷ (tail ++ word))))) in
      let (r, read, kept) =
        one_attribute-AttributeRead lib attrs a (tail ++ word) q w.0 (omega arith) refl in
      let rest =
        attributes-AttributesRead more (a ∷ attrs) fuel word ty r w.1 (omega arith) (omega arith)
          (kept ∙ e) in
      record {
        state = rest.state;
        fuel_left = rest.fuel_left;
        reads =
            ap (λ xs. rpn_structure (suc fuel) lib attrs (lex (at p xs))) text
            ∙ ap (λ o. and_then o λ l s. rpn_structure fuel lib l s) read
            ∙ rest.reads;
        enough = omega (arith, rest.enough);
        term_type = rest.term_type;
      }

  escape_where-word : (w : Bytes) → All IsWordChar w → escape_where is_backslash w ≡ w
  escape_where-word [] h = refl
  escape_where-word (c ∷ cs) h =
      let other : (c == b'\\') ≡ false = ground arith in
      rw other (ap (◌∷◌ c) (escape_where-word cs h.1))

  term_word-IsWord : (w : Bytes) → IsWord w → term_word w ≡ w
  term_word-IsWord [] h = absurd h
  term_word-IsWord (c ∷ cs) h =
      let other : (c == b'@') ≡ false = ground (arith, h.1) in
      rw h.2 (rw other (escape_where-word (c ∷ cs) h.0))

  set-StructureRead :
      (fuel : ℕ) (id : Bytes) (attrs : List Attribute) (ty : TermType) (tail : Bytes) (p : Parser)
      → IsWord id
      → p.term_type ≡ ty
      → IsTail tail
      → StructureRead lib
          (result_set_id id)
          ty
          tail
          (rpn_structure (suc fuel) lib attrs (lex (at p (codes "@set " ++ (id ++ tail)))))
  unfolding rpn_structure structure_at simple_set lex skip_spaces token_from
  set-StructureRead fuel [] attrs ty tail p w e t = absurd w
  set-StructureRead fuel (c ∷ cs) attrs ty tail p w e t =
      let id = c ∷ cs in
      let q0 = lex (at p (codes "@set " ++ (id ++ tail))) in
      let q = lex (at q0 (id ++ tail)) in
      let k = lex-word c cs tail q0 w.0 w.1 t in
      record {
        state = q;
        reads =
            ap (λ o. and_then o λ _ r. done (result_set_id (token_text r)) (lex r))
              (next_token-text q0 q refl k.looks)
            ∙ ap (λ n. done (result_set_id n) (lex q)) (Token-text id tail tail q0 q k)
            ∙ ap (done (result_set_id id)) k.next;
        term_type = k.term_type ∙ e;
      }

  term_word_pos : (t : Bytes) → 1 ≤ length (term_word t)
  term_word_pos [] = omega arith
  term_word_pos (c ∷ cs) = ground arith

  term_text-length :
      (ty : TermType) (t : Term) → IsWritableTerm lib ty t → 1 ≤ length (term_text lib t)
  term_text-length ty (general t) w = term_word_pos t
  term_text-length ty (character_string t) w = omega arith
  term_text-length ty (number z) w = omega arith
  term_text-length ty null w = absurd w
  term_text-length ty (other which) w = absurd w

  pub structure_text-StructureRead :
      (s : RpnStructure) (fuel : ℕ) (ty : TermType) (tail : Bytes) (p : Parser)
      → IsWritable lib ty s
      → p.term_type ≡ ty
      → IsTail tail
      → length (structure_text lib s) < fuel
      → StructureRead lib
          (mirrored s)
          (type_after ty s)
          tail
          (rpn_structure fuel lib [] (lex (at p (structure_text lib s ++ tail))))
  unfolding rpn_structure
  structure_text-StructureRead s zero ty tail p w e t f = absurd (omega arith)
  structure_text-StructureRead unset (suc fuel) ty tail p w e t f = absurd w
  structure_text-StructureRead (result_set_id id) (suc fuel) ty tail p w e t f =
      subst
        (λ xs.
          StructureRead lib (result_set_id id) ty tail
            (rpn_structure (suc fuel) lib [] (lex (at p (codes "@set " ++ (xs ++ tail))))))
        (sym (term_word-IsWord id w)) (set-StructureRead fuel id [] ty tail p w e t)
  structure_text-StructureRead (attributes_plus_term list term) (suc fuel) ty tail p w e t f =
      let as_text = attributes_text lib list in
      let read =
        attributes-AttributesRead list [] (suc fuel) (term_text lib term ++ tail) ty p w.1
          (omega (arith, w.0)) (omega (arith, length-append as_text (term_text lib term))) e in
      let r =
        term-StructureRead lib term read.fuel_left (stacked list []) ty tail read.state w.2
          read.term_type t
          (omega (
            arith,
            read.enough,
            length-append as_text (term_text lib term),
            term_text-length ty term w.2,
          )) in
      record {
        state = r.state;
        reads =
            ap (λ xs. rpn_structure (suc fuel) lib [] (lex (at p xs)))
              (append_assoc as_text (term_text lib term) tail)
            ∙ read.reads
            ∙ r.reads;
        term_type = r.term_type;
      }
  structure_text-StructureRead (complex_structure op s1 s2) (suc fuel) ty tail p w e t f =
      let op_text = operator_text lib op in
      let t1 = structure_text lib s1 in
      let t2 = structure_text lib s2 in
      let text : structure_text lib (complex_structure op s1 s2) ++ tail
          ≡ op_text ++ (t1 ++ b' ' ∷ (t2 ++ tail)) =
        simp (append_assoc) in
      let again : List Attribute → Parser → Outcome RpnStructure =
        λ more r. rpn_structure fuel lib more r in
      let (q, read, kept) =
        structure_at-operator lib op again [] (t1 ++ b' ' ∷ (t2 ++ tail)) p w.0 in
      let total = length-append op_text (t1 ++ b' ' ∷ t2) in
      let parts = length-append t1 (b' ' ∷ t2) in
      let r1 =
        structure_text-StructureRead s1 fuel ty (b' ' ∷ (t2 ++ tail)) q w.1 (kept ∙ e) refl
          (omega (arith, total, parts)) in
      let r2 =
        structure_text-StructureRead s2 fuel (type_after ty s1) tail r1.state w.2 r1.term_type t
          (omega (arith, total, parts)) in
      record {
        state = r2.state;
        reads =
            ap (λ xs. rpn_structure (suc fuel) lib [] (lex (at p xs))) text
            ∙ read
            ∙ ap
                (λ o.
                  and_then o
                    λ s q1. and_then (again [] q1) λ s' q2. done (complex_structure op s s') q2)
                (r1.reads
                  ∙ ap (done (mirrored s1)) (sym (lex-tail (b' ' ∷ (t2 ++ tail)) r1.state refl)))
            ∙ ap (λ o. and_then o λ s' q2. done (complex_structure op (mirrored s1) s') q2)
                r2.reads;
        term_type = r2.term_type;
      }
