-- ===== src/Pqf/Named.antt =====
-- An attribute behind `@attr`, with the name of its set or without, is read back.
use yaz.Prelude.{
  ◌<◌, ◌≡◌, ◌∙◌, ap, sym, subst, refl, true, false, List, [], ◌∷◌, ◌++◌, append_assoc, Bytes,
  Option, none, some, length, leb, if◌then◌else◌, arith,
}
use yaz.Pqf.{Library, Oid, Attribute}
use yaz.Pqf.State.{Parser, at_end, text_token, Outcome, done, and_then, fail, missing, too_many}
use yaz.Pqf.Lexer.{lex}
use yaz.Pqf.Attributes.{
  token_text, find_char, query_oid_getvalbyname, inherited_set, next_token, is_set_name, type_at,
  type_behind_set, p_query_parse_attr,
}
use yaz.Pqf.Parser.{one_attribute, max_attr}
use yaz.Pqf.Text.{set_text, set_name_text, type_word}
use yaz.Pqf.Tokens.{at, Token-text, lex-word, lex-tail}
use yaz.Pqf.Elements.{IsNamed, IsKept, IsWritableAttribute, find_char-name}
use yaz.Pqf.Values.{type_at-word, type_word-Token, type_word-is_set_name}

-- There is a token, which is no keyword.
pub next_token-text :
    (p q : Parser) → lex p ≡ q → q.query_look ≡ text_token → next_token p ≡ done tt q
next_token-text p q e h =
    ap (λ r. elim (r.query_look) [ at_end ↦ fail missing r | _ ↦ done tt r ]) e
    ∙ ap (λ l. elim l [ at_end ↦ fail missing q | _ ↦ done tt q ]) h

module _ (lib : Library) where
  -- The attribute has been read, and the tail is next.
  pub record AttributeRead (attrs : List Attribute) (a : Attribute) (tail : Bytes) (p : Parser)
      (o : Outcome (List Attribute)) : Type 0 where
    pub state : Parser
    pub reads : o ≡ done (a ∷ attrs) state
    pub next : lex state ≡ lex (at state tail)
    pub term_type : state.term_type ≡ p.term_type

  pub query_oid-name :
      (set : Oid) (q : Parser) (n : IsNamed lib set)
      → token_text q ≡ n.lead ∷ n.more
      → q.lex_len ≡ length (n.lead ∷ n.more)
      → query_oid_getvalbyname lib q ≡ some set
  unfolding query_oid_getvalbyname
  query_oid-name set q n text size =
      let short : leb 31 q.lex_len ≡ false = ground (arith, size, n.fits_buffer) in
      rw short (ap lib.string_to_oid text ∙ n.found)

  typed-AttributeRead :
      (attrs : List Attribute) (a : Attribute) (tail : Bytes) (p q : Parser)
      → IsWritableAttribute lib (inherited_set attrs) a
      → q.term_type ≡ p.term_type
      → AttributeRead attrs a (b' ' ∷ tail) p (
          let r = lex (at q (type_word lib a ++ b' ' ∷ tail)) in
          type_at lib attrs a.attribute_set (find_char b'=' r.lex_buf) r)
  typed-AttributeRead attrs a tail p q w e =
      let k = type_word-Token lib a (b' ' ∷ tail) q w.type w.value refl in
      let r = lex (at q (type_word lib a ++ b' ' ∷ tail)) in
      record {
        state = r;
        reads = type_at-word lib attrs a (b' ' ∷ tail) q r w.type w.value refl k;
        next = k.next;
        term_type = k.term_type ∙ e;
      }

  -- The set of the attribute, as the text says it.
  SetRead : Option Oid → List Attribute → Attribute → Bytes → Parser → Type 0
  SetRead set attrs a tail p =
      let q = lex (at p (set_text lib set ++ (type_word lib a ++ b' ' ∷ tail))) in
      AttributeRead attrs a (b' ' ∷ tail) p (p_query_parse_attr lib attrs q)
      × (q.query_look ≡ text_token)

  set-SetRead :
      (set : Option Oid) (attrs : List Attribute) (a : Attribute) (tail : Bytes) (p : Parser)
      → a.attribute_set ≡ set
      → IsKept lib (inherited_set attrs) set
      → IsWritableAttribute lib (inherited_set attrs) a
      → SetRead set attrs a tail p
  unfolding p_query_parse_attr SetRead
  set-SetRead none attrs a tail p e kept w =
      let q = lex (at p (type_word lib a ++ b' ' ∷ tail)) in
      let k = type_word-Token lib a (b' ' ∷ tail) p w.type w.value refl in
      let same : type_at lib attrs a.attribute_set (find_char b'=' q.lex_buf) q
          ≡ p_query_parse_attr lib attrs q =
        rw (type_word-is_set_name lib a (b' ' ∷ tail) p q w.type k)
          (ap (λ s. type_at lib attrs s (find_char b'=' q.lex_buf) q) (e ∙ sym kept)) in
      (
        subst (AttributeRead attrs a (b' ' ∷ tail) p) same
            (typed-AttributeRead attrs a tail p p w refl),
        k.looks,
      )
  set-SetRead (some set) attrs a tail p e n w =
      let name = n.lead ∷ n.more in
      let typed = type_word lib a ++ b' ' ∷ tail in
      let text : name ++ b' ' ∷ typed ≡ set_text lib (some set) ++ typed =
        sym (append_assoc name (b' ' ∷ []) typed)
        ∙ ap (λ o. set_name_text lib o ++ typed) (sym n.named) in
      let q = lex (at p (name ++ b' ' ∷ typed)) in
      let k = lex-word n.lead n.more (b' ' ∷ typed) p n.word n.start refl in
      let r = lex (at q typed) in
      let behind : lex q ≡ r = k.next ∙ sym (lex-tail (b' ' ∷ typed) q refl) in
      let looks = (type_word-Token lib a (b' ' ∷ tail) q w.type w.value refl).looks in
      let named : is_set_name (find_char b'=' q.lex_buf) q.lex_len ≡ true =
        ap (λ b. is_set_name (find_char b'=' b) q.lex_len) k.buffer
        ∙ ap (is_set_name (find_char b'=' (name ++ b' ' ∷ typed))) k.size
        ∙ find_char-name lib name typed n.no_equals in
      let same : type_at lib attrs a.attribute_set (find_char b'=' r.lex_buf) r
          ≡ p_query_parse_attr lib attrs q =
        ap (λ s. type_at lib attrs s (find_char b'=' r.lex_buf) r) e
        ∙ sym (
            ap
              (λ b.
                if b
                then type_behind_set lib attrs (query_oid_getvalbyname lib q) q
                else type_at lib attrs (inherited_set attrs) (find_char b'=' q.lex_buf) q)
              named
            ∙ ap (λ o. type_behind_set lib attrs o q)
                (query_oid-name set q n (Token-text name (b' ' ∷ typed) (b' ' ∷ typed) p q k)
                  k.size)
            ∙ ap (λ o. and_then o λ _ s. type_at lib attrs (some set) (find_char b'=' s.lex_buf) s)
                (next_token-text q r behind looks)) in
      subst
        (λ xs.
          AttributeRead attrs a (b' ' ∷ tail) p (p_query_parse_attr lib attrs (lex (at p xs)))
          × ((lex (at p xs)).query_look ≡ text_token))
        text
        (
          subst (AttributeRead attrs a (b' ' ∷ tail) p) same
              (typed-AttributeRead attrs a tail p q w k.term_type),
          k.looks,
        )

  -- One attribute of the list, in front of which `@attr` has been read.
  pub one_attribute-AttributeRead :
      (attrs : List Attribute) (a : Attribute) (tail : Bytes) (p : Parser)
      → IsWritableAttribute lib (inherited_set attrs) a
      → length attrs < max_attr
      → lex p ≡ lex (at p (set_text lib a.attribute_set ++ (type_word lib a ++ b' ' ∷ tail)))
      → (q : Parser) × (one_attribute lib attrs p ≡ done (a ∷ attrs) (lex (at q tail)))
        × (q.term_type ≡ p.term_type)
  unfolding one_attribute SetRead
  one_attribute-AttributeRead attrs a tail p w few e =
      let q = lex (at p (set_text lib a.attribute_set ++ (type_word lib a ++ b' ' ∷ tail))) in
      let (read, looks) = set-SetRead a.attribute_set attrs a tail p refl w.set w in
      let room : leb max_attr (length attrs) ≡ false = ground arith in
      let r = read.state in
      (
        r,
        ap
              (λ o. and_then o λ _ s.
                if leb max_attr (length attrs)
                then fail too_many s
                else and_then (p_query_parse_attr lib attrs s) λ more t. done more (lex t))
              (next_token-text p q e looks)
            ∙ ap
                (λ d.
                  if d
                  then fail too_many q
                  else and_then (p_query_parse_attr lib attrs q) λ more t. done more (lex t))
                room
            ∙ ap (λ o. and_then o λ more t. done more (lex t)) read.reads
            ∙ ap (done (a ∷ attrs)) (read.next ∙ sym (lex-tail (b' ' ∷ tail) r refl)),
        read.term_type,
      )
