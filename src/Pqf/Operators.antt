-- ===== src/Pqf/Operators.antt =====
-- An operator that src/querytowrbuf.c writes is read back by `rpn_complex` of src/pquery.c.
use yaz.Prelude.{
  ℕ, ◌≡◌, ◌∙◌, ap, sym, refl, Bool, true, false, List, [], ◌∷◌, ◌++◌, append_assoc, Bytes, Option,
  none, some, All, codes, arith,
}
use yaz.Prelude.Int.{ℤ}
use yaz.Pqf.{
  Library, Attribute, Proximity, UnitKind, known_unit, private_unit, Operator, op_and, op_or,
  op_and_not, op_prox, RpnStructure, complex_structure,
}
use yaz.Pqf.State.{Parser, Error, proximity, bad_integer, Outcome, done, and_then, fail, is_digit}
use yaz.Pqf.Lexer.{lex, skip_spaces, token_from}
use yaz.Pqf.Parser.{
  proximity_field, exclusion_field, ordered_field, number_field, unit_field, rpn_proximity,
  complex_operator, rpn_complex, structure_at,
}
use yaz.Pqf.Writer.{exclusion_char, ordered_char, unit_char}
use yaz.Pqf.Text.{operator_text, proximity_text}
use yaz.Pqf.Tokens.{at, IsWordChar, is_word_start, lex-word, lex-tail}
use yaz.Pqf.Elements.{IsDecimal, digits-IsWordChar}
use yaz.Pqf.Named.{next_token-text}

-- The field has been read, and the rest is next.
record FieldRead {ℓ} {A : Type ℓ} (a : A) (rest : Bytes) (p : Parser) (o : Outcome A) : Type ℓ where
  pub state : Parser
  pub reads : o ≡ done a state
  pub next : lex state ≡ lex (at state rest)
  pub term_type : state.term_type ≡ p.term_type

word-FieldRead {ℓ} :
    {A : Type ℓ} (field : Bytes → Option A) (e : Error) (a : A) (c : ℕ) (cs rest : Bytes)
    (p : Parser)
    → All IsWordChar (c ∷ cs)
    → is_word_start c ≡ true
    → field (c ∷ cs ++ b' ' ∷ rest) ≡ some a
    → lex p ≡ lex (at p (c ∷ cs ++ b' ' ∷ rest))
    → FieldRead a rest p (proximity_field field e p)
unfolding proximity_field
word-FieldRead field e a c cs rest p h s f l =
    let q = lex (at p (c ∷ cs ++ b' ' ∷ rest)) in
    let k = lex-word c cs (b' ' ∷ rest) p h s refl in
    record {
      state = q;
      reads =
          ap (λ o. and_then o λ _ r. elim (field r.lex_buf) [ none ↦ fail e r | some x ↦ done x r ])
            (next_token-text p q l k.looks)
          ∙ ap (λ o. elim o [ none ↦ fail e q | some x ↦ done x q ]) (ap field k.buffer ∙ f);
      next = k.next ∙ sym (lex-tail (b' ' ∷ rest) q refl);
      term_type = k.term_type;
    }

module _ (lib : Library) where
  number-FieldRead :
      (z : ℤ) (rest : Bytes) (p : Parser)
      → IsDecimal lib z
      → lex p ≡ lex (at p (lib.print_int z ++ b' ' ∷ rest))
      → FieldRead z rest p (proximity_field (number_field lib) bad_integer p)
  number-FieldRead z rest p d l =
      let begins : is_digit d.lead ≡ true = ground (arith, d.digits) in
      word-FieldRead (number_field lib) bad_integer z d.lead d.more rest p
        (digits-IsWordChar lib (d.lead ∷ d.more) d.digits) (ground (arith, d.digits))
        (rw begins (ap some (d.read (b' ' ∷ rest) refl)))
        (l ∙ ap (λ xs. lex (at p (xs ++ b' ' ∷ rest))) d.printed)

  exclusion-FieldRead :
      (x : Option Bool) (rest : Bytes) (p : Parser)
      → lex p ≡ lex (at p (exclusion_char lib x ∷ b' ' ∷ rest))
      → FieldRead x rest p (proximity_field exclusion_field proximity p)
  exclusion-FieldRead none rest p l =
      word-FieldRead exclusion_field proximity none b'n' [] rest p (refl, tt) refl refl l
  exclusion-FieldRead (some true) rest p l =
      word-FieldRead exclusion_field proximity (some true) b'1' [] rest p (refl, tt) refl refl l
  exclusion-FieldRead (some false) rest p l =
      word-FieldRead exclusion_field proximity (some false) b'0' [] rest p (refl, tt) refl refl l

  ordered-FieldRead :
      (x : Bool) (rest : Bytes) (p : Parser)
      → lex p ≡ lex (at p (ordered_char lib x ∷ b' ' ∷ rest))
      → FieldRead x rest p (proximity_field ordered_field proximity p)
  ordered-FieldRead true rest p l =
      word-FieldRead ordered_field proximity true b'1' [] rest p (refl, tt) refl refl l
  ordered-FieldRead false rest p l =
      word-FieldRead ordered_field proximity false b'0' [] rest p (refl, tt) refl refl l

  unit-FieldRead :
      (x : UnitKind) (rest : Bytes) (p : Parser)
      → lex p ≡ lex (at p (unit_char lib x ∷ b' ' ∷ rest))
      → FieldRead x rest p (proximity_field (unit_field lib) proximity p)
  unit-FieldRead known_unit rest p l =
      word-FieldRead (unit_field lib) proximity known_unit b'k' [] rest p (refl, tt) refl refl l
  unit-FieldRead private_unit rest p l =
      word-FieldRead (unit_field lib) proximity private_unit b'p' [] rest p (refl, tt) refl refl l

  pub record IsWritableProximity (x : Proximity) : Type 0 where
    pub distance : IsDecimal lib x.distance
    pub relation_type : IsDecimal lib x.relation_type
    pub unit : IsDecimal lib x.unit

  abbrev pub IsWritableOperator : Operator → Type 0
  IsWritableOperator (op_prox x) = IsWritableProximity x
  IsWritableOperator _ = Unit

  rpn_proximity-FieldRead :
      (x : Proximity) (rest : Bytes) (p : Parser)
      → IsWritableProximity x
      → lex p ≡ lex (at p (proximity_text lib x ++ rest))
      → FieldRead x rest p (rpn_proximity lib p)
  unfolding rpn_proximity
  rpn_proximity-FieldRead x rest p w l =
      let t6 = lib.print_int x.unit ++ b' ' ∷ rest in
      let t5 = unit_char lib x.which ∷ b' ' ∷ t6 in
      let t4 = lib.print_int x.relation_type ++ b' ' ∷ t5 in
      let t3 = ordered_char lib x.ordered ∷ b' ' ∷ t4 in
      let t2 = lib.print_int x.distance ++ b' ' ∷ t3 in
      let text : proximity_text lib x ++ rest ≡ exclusion_char lib x.exclusion ∷ b' ' ∷ t2 =
        simp (append_assoc) in
      let f1 = exclusion-FieldRead x.exclusion t2 p (l ∙ ap (λ xs. lex (at p xs)) text) in
      let f2 = number-FieldRead x.distance t3 f1.state w.distance f1.next in
      let f3 = ordered-FieldRead x.ordered t4 f2.state f2.next in
      let f4 = number-FieldRead x.relation_type t5 f3.state w.relation_type f3.next in
      let f5 = unit-FieldRead x.which t6 f4.state f4.next in
      let f6 = number-FieldRead x.unit rest f5.state w.unit f5.next in
      record {
        state = f6.state;
        reads = rw (f1.reads, f2.reads, f3.reads, f4.reads, f5.reads, f6.reads) refl;
        next = f6.next;
        term_type =
            f6.term_type ∙ f5.term_type ∙ f4.term_type ∙ f3.term_type ∙ f2.term_type ∙ f1.term_type;
      }

  -- The two operands that follow an operator.
  abbrev pub operands :
      Operator
      → (List Attribute → Parser → Outcome RpnStructure)
      → List Attribute
      → Parser
      → Outcome RpnStructure
  operands op again attrs p =
      and_then (again attrs p)
        λ s1 q1. and_then (again attrs q1) λ s2 q2. done (complex_structure op s1 s2) q2

  pub structure_at-operator :
      (op : Operator) (again : List Attribute → Parser → Outcome RpnStructure)
      (attrs : List Attribute) (rest : Bytes) (p : Parser)
      → IsWritableOperator op
      → (q : Parser) × (let r = lex (at p (operator_text lib op ++ rest)) in
          structure_at lib again r.query_look attrs r ≡ operands op again attrs (lex (at q rest)))
        × (q.term_type ≡ p.term_type)
  unfolding structure_at rpn_complex complex_operator lex skip_spaces token_from
  structure_at-operator op_and again attrs rest p w =
      (lex (at p (codes "@and " ++ rest)), refl, refl)
  structure_at-operator op_or again attrs rest p w = (lex (at p (codes "@or " ++ rest)), refl, refl)
  structure_at-operator op_and_not again attrs rest p w =
      (lex (at p (codes "@not " ++ rest)), refl, refl)
  structure_at-operator (op_prox x) again attrs rest p w =
      let text = proximity_text lib x ++ rest in
      let q = lex (at p (codes "@prox " ++ text)) in
      let f = rpn_proximity-FieldRead x rest q w refl in
      (
        f.state,
        ap
              (λ o.
                and_then (and_then o λ y r. done (op_prox y) r)
                  λ op r. operands op again attrs (lex r))
              f.reads
            ∙ ap (operands (op_prox x) again attrs) f.next,
        f.term_type,
      )
