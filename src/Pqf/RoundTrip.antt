-- ===== src/Pqf/RoundTrip.antt =====
-- A query that `yaz_rpnquery_to_wrbuf` of src/querytowrbuf.c writes is read back by `yaz_pqf_parse` of
-- src/pquery.c.
use yaz.Prelude.{
  ◌+◌, ◌<◌, ◌≡◌, ◌≢◌, ◌∙◌, ap, sym, refl, [], ◌∷◌, ◌++◌, append_assoc, append-nil, Bytes, some,
  none, length, length-append, codes, arith,
}
use yaz.Wrbuf.{Wrbuf}
use yaz.Pqf.{
  Library, Oid, TermType, Term, general, character_string, number, null, other, RpnStructure,
  complex_structure, attributes_plus_term, result_set_id, unset, RpnQuery,
}
use yaz.Pqf.State.{Parser, done, and_then, fail, attset, pqf_parser_begin}
use yaz.Pqf.Lexer.{lex, skip_spaces, token_from}
use yaz.Pqf.Parser.{rpn_structure, top_set, query_end, p_query_rpn_mk, yaz_pqf_parse}
use yaz.Pqf.Writer.{put_attrset, yaz_rpnstructure_to_wrbuf, yaz_rpnquery_to_wrbuf}
use yaz.Pqf.Text.{appends, structure_text, HasText, yaz_rpnstructure_to_wrbuf-buf}
use yaz.Pqf.Tokens.{at, Token-text, lex-word, lex-tail}
use yaz.Pqf.Elements.{IsNamed}
use yaz.Pqf.Named.{query_oid-name}
use yaz.Pqf.Structures.{mirrored, IsWritableTerm, IsWritable, type_after}
use yaz.Pqf.Composed.{structure_text-StructureRead}
use yaz.Pqf.Endings.{chop-structure_text}

module _ (lib : Library) where
  term-not_null : (ty : TermType) (t : Term) → IsWritableTerm lib ty t → t ≢ null
  term-not_null ty (general t) w = λ e. absurd (cc e)
  term-not_null ty (character_string t) w = λ e. absurd (cc e)
  term-not_null ty (number z) w = λ e. absurd (cc e)
  term-not_null ty null w = absurd w
  term-not_null ty (other which) w = absurd w

  IsWritable-HasText : (ty : TermType) (s : RpnStructure) → IsWritable lib ty s → HasText lib s
  IsWritable-HasText ty (complex_structure op s1 s2) w =
      (IsWritable-HasText ty s1 w.1, IsWritable-HasText (type_after ty s1) s2 w.2)
  IsWritable-HasText ty (attributes_plus_term attributes t) w = term-not_null ty t w.2
  IsWritable-HasText ty (result_set_id id) w = tt
  IsWritable-HasText ty unset w = absurd w

  -- The text of a query whose attribute set has this name.
  abbrev query_text : Bytes → RpnStructure → Bytes
  query_text name s = codes "@attrset " ++ (name ++ b' ' ∷ structure_text lib s)

  yaz_rpnquery_to_wrbuf-buf :
      (ty : TermType) (rpn : RpnQuery) (b : Wrbuf) (n : IsNamed lib rpn.attribute_set_id)
      → IsWritable lib ty rpn.structure
      → b.buf ≡ []
      → (yaz_rpnquery_to_wrbuf lib rpn b).buf ≡ query_text (n.lead ∷ n.more) rpn.structure
  unfolding yaz_rpnquery_to_wrbuf
  yaz_rpnquery_to_wrbuf-buf ty rpn b n w empty =
      let name = n.lead ∷ n.more in
      let text = structure_text lib rpn.structure in
      let b1 = put_attrset lib (lib.oid_to_string rpn.attribute_set_id) b in
      let begun : b1.buf ≡ codes "@attrset " ++ (name ++ b' ' ∷ []) =
        ap (λ o. (put_attrset lib o b).buf) n.named
        ∙ (simp appends)
        ∙ ap (λ xs. xs ++ (codes "@attrset " ++ (name ++ b' ' ∷ []))) empty in
      let written =
        yaz_rpnstructure_to_wrbuf-buf lib rpn.structure b1 (IsWritable-HasText ty rpn.structure w)
        ∙ ap (λ xs. xs ++ (text ++ b' ' ∷ [])) begun in
      chop-structure_text lib ty rpn.structure (codes "@attrset " ++ (name ++ b' ' ∷ []))
        (yaz_rpnstructure_to_wrbuf lib rpn.structure b1) w written
      ∙ simp (append_assoc)

  -- The name of the attribute set is read, and the text behind it is next.
  top_set-named :
      (set : Oid) (n : IsNamed lib set) (text : Bytes) (p : Parser)
      → (q : Parser) × (top_set lib (at p (codes "@attrset " ++ (n.lead ∷ n.more ++ b' ' ∷ text)))
          ≡ done set (lex (at q text)))
        × (q.term_type ≡ p.term_type)
  unfolding top_set lex skip_spaces token_from
  top_set-named set n text p =
      let name = n.lead ∷ n.more in
      let q = lex (at p (codes "@attrset " ++ (name ++ b' ' ∷ text))) in
      let r = lex (at q (name ++ b' ' ∷ text)) in
      let k = lex-word n.lead n.more (b' ' ∷ text) q n.word n.start refl in
      let found =
        query_oid-name lib set r n (Token-text name (b' ' ∷ text) (b' ' ∷ text) q r k) k.size in
      (
        r,
        ap (λ o. elim o [ none ↦ fail attset r | some s ↦ done s (lex r) ]) found
            ∙ ap (done set) (k.next ∙ sym (lex-tail (b' ' ∷ text) r refl)),
        k.term_type,
      )

  -- A query whose attribute set has a name, and whose structure is writable for the type of terms that
  -- the parser starts with, is written into an empty buffer and then parsed: the parser returns the
  -- query with the attributes of each term as `get_attributeList` takes them from the last to the first.
  pub yaz_pqf_parse-rpnquery_to_wrbuf :
      (rpn : RpnQuery) (p : Parser) (b : Wrbuf)
      → IsNamed lib rpn.attribute_set_id
      → IsWritable lib p.term_type rpn.structure
      → b.buf ≡ []
      → (q : Parser) × (yaz_pqf_parse lib p (yaz_rpnquery_to_wrbuf lib rpn b).buf
          ≡ done (record rpn { structure = mirrored rpn.structure }) q)
  unfolding yaz_pqf_parse p_query_rpn_mk query_end lex skip_spaces
  yaz_pqf_parse-rpnquery_to_wrbuf rpn p b n w empty =
      let name = n.lead ∷ n.more in
      let s = rpn.structure in
      let text = structure_text lib s in
      let total = query_text name s in
      let p1 = pqf_parser_begin total p in
      let (q, top, kept) = top_set-named rpn.attribute_set_id n text p1 in
      let fuel = length total + 2 in
      let long : length text < fuel = omega (arith, length-append name (b' ' ∷ text)) in
      let r = structure_text-StructureRead lib s fuel p.term_type [] q w kept tt long in
      let whole : lex (at q (text ++ [])) ≡ lex (at q text) =
        ap (λ xs. lex (at q xs)) (append-nil text) in
      (
        lex (at r.state []),
        ap (yaz_pqf_parse lib p) (yaz_rpnquery_to_wrbuf-buf p.term_type rpn b n w empty)
            ∙ ap
                (λ o.
                  and_then o
                    λ set u. and_then (rpn_structure fuel lib [] u) λ t v. query_end set t v)
                top
            ∙ ap (λ o. and_then o λ t v. query_end rpn.attribute_set_id t v)
                (ap (rpn_structure fuel lib []) (sym whole) ∙ r.reads),
      )
