-- ===== src/Pqf/Structures.antt =====
-- Which structures that src/querytowrbuf.c writes are read back by src/pquery.c, and as what.
use yaz.Prelude.{ℕ, ◌≤◌, ◌≡◌, true, false, List, [], ◌∷◌, Bytes, Option, none, length, All, ◌==◌}
use yaz.Prelude.Int.{ℤ}
use yaz.Pqf.{
  Library, Oid, TermType, term_general, term_numeric, term_string, term_null, Attribute, Term,
  general, character_string, number, null, other, RpnStructure, complex_structure,
  attributes_plus_term, result_set_id, unset,
}
use yaz.Pqf.State.{Parser, Outcome, done}
use yaz.Pqf.Lexer.{lex}
use yaz.Pqf.Attributes.{get_attribute_list}
use yaz.Pqf.Parser.{max_attr}
use yaz.Pqf.Writer.{any_needs_quotes}
use yaz.Pqf.Tokens.{at, IsWordChar, is_word_start}
use yaz.Pqf.Terms.{IsReadable}
use yaz.Pqf.Elements.{IsWritableAttribute}
use yaz.Pqf.Operators.{IsWritableOperator}

abbrev pub IsText : Bytes → Type 0
IsText t = All (λ c. (c == 0) ≡ false) t

-- A word that needs no quotes.
abbrev pub IsWord : Bytes → Type 0
IsWord [] = ⊥
IsWord (c ∷ cs) =
    All IsWordChar (c ∷ cs) × (is_word_start c ≡ true) × (any_needs_quotes (c ∷ cs) ≡ false)

-- What `rpn_structure` has read, the latest first.
abbrev pub stacked : List Attribute → List Attribute → List Attribute
stacked [] attrs = attrs
stacked (a ∷ more) attrs = stacked more (a ∷ attrs)

-- The structure as it is read back: `get_attributeList` turns the attributes around, and of several
-- with one type it keeps the last.
abbrev pub mirrored : RpnStructure → RpnStructure
mirrored (complex_structure op s1 s2) = complex_structure op (mirrored s1) (mirrored s2)
mirrored (attributes_plus_term attributes t) =
    attributes_plus_term (get_attribute_list (stacked attributes [])) t
mirrored (result_set_id id) = result_set_id id
mirrored unset = unset

-- The type of the terms behind this one: `@term` holds for the rest of the query.
abbrev pub term_type_after : TermType → Term → TermType
term_type_after ty (character_string t) = term_string
term_type_after ty (number z) = term_numeric
term_type_after ty (general t) = ty
term_type_after ty null = term_null
term_type_after ty (other which) = term_null

abbrev pub type_after : TermType → RpnStructure → TermType
type_after ty (complex_structure op s1 s2) = type_after (type_after ty s1) s2
type_after ty (attributes_plus_term attributes t) = term_type_after ty t
type_after ty (result_set_id id) = ty
type_after ty unset = ty

module _ (lib : Library) where
  -- A number that is printed as one word and read back from it; it may be negative.
  pub record IsPrinted (z : ℤ) : Type 0 where
    pub lead : ℕ
    pub more : Bytes
    pub printed : lib.print_int z ≡ lead ∷ more
    pub word : All IsWordChar (lead ∷ more)
    pub start : is_word_start lead ≡ true
    pub read : lib.odr_atoi (lead ∷ more) ≡ z

  -- A general term needs a type that no `@term` has changed.
  abbrev pub IsWritableTerm : TermType → Term → Type 0
  IsWritableTerm ty (general t) = (ty ≡ term_general) × IsText t × IsReadable t
  IsWritableTerm ty (character_string t) = IsText t × IsReadable t
  IsWritableTerm ty (number z) = IsPrinted z
  IsWritableTerm ty _ = ⊥

  abbrev pub AreWritable : Option Oid → List Attribute → Type 0
  AreWritable before [] = Unit
  AreWritable before (a ∷ more) =
      IsWritableAttribute lib before a × AreWritable a.attribute_set more

  abbrev pub IsWritable : TermType → RpnStructure → Type 0
  IsWritable ty (complex_structure op s1 s2) =
      IsWritableOperator lib op × IsWritable ty s1 × IsWritable (type_after ty s1) s2
  IsWritable ty (attributes_plus_term attributes t) =
      (length attributes ≤ max_attr) × AreWritable none attributes × IsWritableTerm ty t
  IsWritable ty (result_set_id id) = IsWord id
  IsWritable ty unset = ⊥

  -- The structure has been read, and the tail is next.
  pub record StructureRead (s : RpnStructure) (ty : TermType) (tail : Bytes)
      (o : Outcome RpnStructure) : Type 0 where
    pub state : Parser
    pub reads : o ≡ done s (lex (at state tail))
    pub term_type : state.term_type ≡ ty
