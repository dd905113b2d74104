-- ===== src/Pqf/Endings.antt =====
-- The one space at the end of what src/querytowrbuf.c writes is what `wrbuf_chop_right` takes away.
use yaz.Prelude.{
  ℕ, ◌≡◌, ◌∙◌, ap, sym, subst, refl, Bool-cases, inl, inr, false, [], ◌∷◌, ◌++◌, append_assoc,
  Bytes, All, ◌==◌, codes, arith,
}
use yaz.Wrbuf.{Wrbuf, wrbuf_chop_right}
use yaz.Wrbuf.Growth.{trim, trim_space, trim_other, wrbuf_chop_right-buf}
use yaz.Pqf.{
  Library, TermType, Term, general, character_string, number, null, other, RpnStructure,
  complex_structure, attributes_plus_term, result_set_id, unset,
}
use yaz.Pqf.Writer.{any_needs_quotes}
use yaz.Pqf.Text.{
  escape_where, is_backslash, is_quoted, term_word, term_text, attributes_text, operator_text,
  structure_text,
}
use yaz.Pqf.Tokens.{IsWordChar}
use yaz.Pqf.Structures.{IsWritableTerm, IsWritable, type_after}

-- The last character is no space.
record EndsInWord (text : Bytes) : Type 0 where
  pub before : Bytes
  pub last : ℕ
  pub splits : text ≡ before ++ last ∷ []
  pub no_space : (last == b' ') ≡ false

prefix-EndsInWord : (xs text : Bytes) → EndsInWord text → EndsInWord (xs ++ text)
prefix-EndsInWord xs text e = record {
  before = xs ++ e.before;
  last = e.last;
  splits = ap (λ t. xs ++ t) e.splits ∙ sym (append_assoc xs e.before (e.last ∷ []));
  no_space = e.no_space;
}

cons-EndsInWord :
    (c : ℕ) (cs : Bytes) → All (λ d. (d == b' ') ≡ false) (c ∷ cs) → EndsInWord (c ∷ cs)
cons-EndsInWord c [] h = record { before = []; last = c; splits = refl; no_space = h.0 }
cons-EndsInWord c (d ∷ cs) h = prefix-EndsInWord (c ∷ []) (d ∷ cs) (cons-EndsInWord d cs h.1)

escape_where-no_space :
    (t : Bytes)
    → any_needs_quotes t ≡ false
    → All (λ d. (d == b' ') ≡ false) (escape_where is_backslash t)
escape_where-no_space [] h = tt
escape_where-no_space (c ∷ cs) h = elim (Bool-cases (is_backslash c)) [
  | inl e ↦ rw e (refl, (ground arith, escape_where-no_space cs (ground arith)))
  | inr e ↦ rw e (ground arith, escape_where-no_space cs (ground arith))
]

escape_where-EndsInWord :
    (c : ℕ) (cs : Bytes)
    → any_needs_quotes (c ∷ cs) ≡ false
    → EndsInWord (escape_where is_backslash (c ∷ cs))
escape_where-EndsInWord c cs h = elim (Bool-cases (is_backslash c)) [
  | inl e ↦ rw e (
      cons-EndsInWord b'\\' (c ∷ escape_where is_backslash cs)
        (refl, (ground arith, escape_where-no_space cs (ground arith))))
  | inr e ↦ rw e (
      cons-EndsInWord c (escape_where is_backslash cs)
        (ground arith, escape_where-no_space cs (ground arith)))
]

term_word-EndsInWord : (t : Bytes) → EndsInWord (term_word t)
term_word-EndsInWord [] = cons-EndsInWord b'"' (b'"' ∷ []) (refl, (refl, tt))
term_word-EndsInWord (c ∷ cs) = elim (Bool-cases (any_needs_quotes (c ∷ cs))) [
  | inl e ↦ rw e (
      prefix-EndsInWord (b'"' ∷ escape_where is_quoted (c ∷ cs)) (b'"' ∷ [])
        (cons-EndsInWord b'"' [] (refl, tt)))
  | inr e ↦ elim (Bool-cases (c == b'@')) [
    | inl f ↦
        rw (e, f)
          (prefix-EndsInWord (b'\\' ∷ []) (escape_where is_backslash (c ∷ cs))
            (escape_where-EndsInWord c cs e))
    | inr f ↦ rw (e, f) (escape_where-EndsInWord c cs e)
  ]
]

module _ (lib : Library) where
  word-no_space : (w : Bytes) → All IsWordChar w → All (λ d. (d == b' ') ≡ false) w
  word-no_space [] h = tt
  word-no_space (c ∷ cs) h = (ground arith, word-no_space cs h.1)

  term_text-EndsInWord :
      (ty : TermType) (t : Term) → IsWritableTerm lib ty t → EndsInWord (term_text lib t)
  term_text-EndsInWord ty (general t) w = term_word-EndsInWord t
  term_text-EndsInWord ty (character_string t) w =
      prefix-EndsInWord (codes "@term string ") (term_word t) (term_word-EndsInWord t)
  term_text-EndsInWord ty (number z) n =
      prefix-EndsInWord (codes "@term numeric ") (lib.print_int z) (
        subst EndsInWord (sym n.printed)
          (cons-EndsInWord n.lead n.more (word-no_space (n.lead ∷ n.more) n.word)))
  term_text-EndsInWord ty null w = absurd w
  term_text-EndsInWord ty (other which) w = absurd w

  structure_text-EndsInWord :
      (ty : TermType) (s : RpnStructure) → IsWritable lib ty s → EndsInWord (structure_text lib s)
  structure_text-EndsInWord ty (complex_structure op s1 s2) w =
      prefix-EndsInWord (operator_text lib op)
        (structure_text lib s1 ++ b' ' ∷ structure_text lib s2)
        (prefix-EndsInWord (structure_text lib s1) (b' ' ∷ structure_text lib s2) (
          prefix-EndsInWord (b' ' ∷ []) (structure_text lib s2)
            (structure_text-EndsInWord (type_after ty s1) s2 w.2)))
  structure_text-EndsInWord ty (attributes_plus_term attributes t) w =
      prefix-EndsInWord (attributes_text lib attributes) (term_text lib t)
        (term_text-EndsInWord ty t w.2)
  structure_text-EndsInWord ty (result_set_id id) w =
      prefix-EndsInWord (codes "@set ") (term_word id) (term_word-EndsInWord id)
  structure_text-EndsInWord ty unset w = absurd w

  pub chop-structure_text :
      (ty : TermType) (s : RpnStructure) (xs : Bytes) (b : Wrbuf)
      → IsWritable lib ty s
      → b.buf ≡ xs ++ (structure_text lib s ++ b' ' ∷ [])
      → (wrbuf_chop_right b).buf ≡ xs ++ structure_text lib s
  chop-structure_text ty s xs b w h =
      let text = structure_text lib s in
      let e = prefix-EndsInWord xs text (structure_text-EndsInWord ty s w) in
      wrbuf_chop_right-buf b
      ∙ ap trim (h ∙ sym (append_assoc xs text (b' ' ∷ [])))
      ∙ trim_space (xs ++ text)
      ∙ ap trim e.splits
      ∙ trim_other e.before e.last e.no_space
      ∙ sym e.splits
