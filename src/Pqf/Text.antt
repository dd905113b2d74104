-- ===== src/Pqf/Text.antt =====
-- What src/querytowrbuf.c appends to its buffer, as texts without the space at their end.
use yaz.Prelude.{
  ℕ, ◌≡◌, ◌≢◌, ◌∙◌, ap, sym, refl, Bool, true, false, not, ◌&&◌, ◌||◌, List, [], ◌∷◌, ◌++◌,
  append_assoc, append-nil, Bytes, Option, none, some, ◌==◌, if◌then◌else◌, codes, arith,
  Bool-cases, inl, inr,
}
use yaz.Wrbuf.{Wrbuf, wrbuf_putc, wrbuf_write}
use yaz.Wrbuf.Growth.{wrbuf_putc-buf, wrbuf_write-buf}
use yaz.Pqf.{
  Library, Oid, Attribute, AttributeValue, numeric, complex, StringOrNumeric, item_string,
  item_numeric, Term, general, character_string, number, null, other, Proximity, Operator, op_and,
  op_or, op_and_not, op_prox, RpnStructure, complex_structure, attributes_plus_term, result_set_id,
  unset,
}
use yaz.Pqf.State.{peek}
use yaz.Pqf.Writer.{
  put_plain, put_quoted, is_plain, yaz_encode_pqf_term, put_item, put_more_items, put_value,
  put_set_name, put_set, yaz_attribute_element_to_wrbuf, yaz_attributes_to_wrbuf, put_term,
  yaz_apt_to_wrbuf, exclusion_char, ordered_char, unit_char, put_proximity, complex_op_name,
  put_operator, yaz_rpnstructure_to_wrbuf,
}

-- The text with a backslash before the characters of the test.
abbrev pub escape_where : (ℕ → Bool) → Bytes → Bytes
escape_where test [] = []
escape_where test (c ∷ cs) =
    let rest = escape_where test cs in if test c then b'\\' ∷ c ∷ rest else c ∷ rest

abbrev pub is_backslash : ℕ → Bool
is_backslash c = c == b'\\'

abbrev pub is_quoted : ℕ → Bool
is_quoted c = c == b'"' || c == b'\\'

-- The token of a term without quotes.
abbrev pub plain_word : Bytes → Bytes
plain_word t =
    let word = escape_where is_backslash t in if peek t == b'@' then b'\\' ∷ word else word

abbrev pub term_word : Bytes → Bytes
term_word t = if is_plain t then plain_word t else b'"' ∷ (escape_where is_quoted t ++ b'"' ∷ [])

pub ruleset appends = (wrbuf_putc-buf, wrbuf_write-buf, append_assoc, append-nil)

-- One character, with what follows it.
escape_putc-buf :
    (escaped : Bool) (c : ℕ) (rest : Bytes) (b : Wrbuf)
    → (wrbuf_putc c (if escaped then wrbuf_putc b'\\' b else b)).buf ++ rest
      ≡ b.buf ++ (if escaped then b'\\' ∷ c ∷ rest else c ∷ rest)
escape_putc-buf true c rest b = simp appends
escape_putc-buf false c rest b = simp appends

put_plain-buf : (t : Bytes) (b : Wrbuf) → (put_plain t b).buf ≡ b.buf ++ escape_where is_backslash t
unfolding put_plain
put_plain-buf [] b = sym (append-nil b.buf)
put_plain-buf (c ∷ cs) b =
    put_plain-buf cs (wrbuf_putc c (if is_backslash c then wrbuf_putc b'\\' b else b))
    ∙ escape_putc-buf (is_backslash c) c (escape_where is_backslash cs) b

put_quoted-buf : (t : Bytes) (b : Wrbuf) → (put_quoted t b).buf ≡ b.buf ++ escape_where is_quoted t
unfolding put_quoted
put_quoted-buf [] b = sym (append-nil b.buf)
put_quoted-buf (c ∷ cs) b =
    put_quoted-buf cs (wrbuf_putc c (if is_quoted c then wrbuf_putc b'\\' b else b))
    ∙ escape_putc-buf (is_quoted c) c (escape_where is_quoted cs) b

pub yaz_encode_pqf_term-buf :
    (t : Bytes) (b : Wrbuf) → (yaz_encode_pqf_term t b).buf ≡ b.buf ++ (term_word t ++ b' ' ∷ [])
unfolding yaz_encode_pqf_term
yaz_encode_pqf_term-buf t b = elim (Bool-cases (is_plain t)) [
  | inl e ↦ elim (Bool-cases (peek t == b'@')) [
    | inl f ↦ rw (e, f) (simp (appends, put_plain-buf t (wrbuf_putc b'\\' b)))
    | inr f ↦ rw (e, f) (simp (appends, put_plain-buf t b))
  ]
  | inr e ↦ rw e (simp (appends, put_quoted-buf t (wrbuf_putc b'"' b)))
]

module _ (lib : Library) where
  abbrev pub item_text : StringOrNumeric → Bytes
  item_text (item_string s) = s
  item_text (item_numeric n) = lib.print_int n

  abbrev pub more_items_text : List StringOrNumeric → Bytes
  more_items_text [] = []
  more_items_text (i ∷ more) = b',' ∷ item_text i ++ more_items_text more

  abbrev pub value_text : AttributeValue → Bytes
  value_text (numeric n) = lib.print_int n
  value_text (complex []) = []
  value_text (complex (i ∷ more)) = item_text i ++ more_items_text more

  abbrev pub set_name_text : Option Bytes → Bytes
  set_name_text none = []
  set_name_text (some name) = name ++ b' ' ∷ []

  abbrev pub set_text : Option Oid → Bytes
  set_text none = []
  set_text (some set) = set_name_text (lib.oid_to_string set)

  -- The token behind `@attr` and the name of the set.
  abbrev pub type_word : Attribute → Bytes
  type_word a = lib.print_int a.attribute_type ++ b'=' ∷ value_text a.value

  -- The spaces at the ends are part of the texts of attributes, and not of that of a term.
  abbrev pub attributes_text : List Attribute → Bytes
  attributes_text [] = []
  attributes_text (a ∷ more) =
      codes "@attr " ++ (set_text a.attribute_set ++ (type_word a ++ b' ' ∷ attributes_text more))

  abbrev pub term_text : Term → Bytes
  term_text (general t) = term_word t
  term_text (character_string t) = codes "@term string " ++ term_word t
  term_text (number n) = codes "@term numeric " ++ lib.print_int n
  term_text null = codes "@term null x"
  term_text (other which) = codes "@term null unknown" ++ lib.print_int which

  abbrev pub proximity_text : Proximity → Bytes
  proximity_text x =
      exclusion_char lib x.exclusion ∷ b' ' ∷ lib.print_int x.distance
      ++ b' ' ∷ ordered_char lib x.ordered ∷ b' ' ∷ lib.print_int x.relation_type
      ++ b' ' ∷ unit_char lib x.which ∷ b' ' ∷ lib.print_int x.unit
      ++ b' ' ∷ []

  abbrev pub operator_text : Operator → Bytes
  operator_text op_and = codes "@and "
  operator_text op_or = codes "@or "
  operator_text op_and_not = codes "@not "
  operator_text (op_prox x) = codes "@prox " ++ proximity_text x

  put_item-buf : (i : StringOrNumeric) (b : Wrbuf) → (put_item lib i b).buf ≡ b.buf ++ item_text i
  put_item-buf (item_string s) b = wrbuf_write-buf s b
  put_item-buf (item_numeric n) b = wrbuf_write-buf (lib.print_int n) b

  put_more_items-buf :
      (more : List StringOrNumeric) (b : Wrbuf)
      → (put_more_items lib more b).buf ≡ b.buf ++ more_items_text more
  unfolding put_more_items
  put_more_items-buf [] b = sym (append-nil b.buf)
  put_more_items-buf (i ∷ more) b =
      put_more_items-buf more (put_item lib i (wrbuf_write (codes ",") b))
      ∙ simp (appends, put_item-buf i (wrbuf_write (codes ",") b))

  put_value-buf : (v : AttributeValue) (b : Wrbuf) → (put_value lib v b).buf ≡ b.buf ++ value_text v
  unfolding put_value
  put_value-buf (numeric n) b = wrbuf_write-buf (lib.print_int n) b
  put_value-buf (complex []) b = sym (append-nil b.buf)
  put_value-buf (complex (i ∷ more)) b =
      put_more_items-buf more (put_item lib i b) ∙ simp (appends, put_item-buf i b)

  put_set-buf : (set : Option Oid) (b : Wrbuf) → (put_set lib set b).buf ≡ b.buf ++ set_text set
  put_set-buf none b = sym (append-nil b.buf)
  put_set-buf (some set) b = named (lib.oid_to_string set)
    where
      named : (name : Option Bytes) → (put_set_name lib name b).buf ≡ b.buf ++ set_name_text name
      named none = sym (append-nil b.buf)
      named (some name) = simp appends

  yaz_attributes_to_wrbuf-buf :
      (attributes : List Attribute) (b : Wrbuf)
      → (yaz_attributes_to_wrbuf lib attributes b).buf ≡ b.buf ++ attributes_text attributes
  unfolding yaz_attributes_to_wrbuf
  yaz_attributes_to_wrbuf-buf [] b = sym (append-nil b.buf)
  yaz_attributes_to_wrbuf-buf (a ∷ more) b =
      yaz_attributes_to_wrbuf-buf more (yaz_attribute_element_to_wrbuf lib a b)
      ∙ ap (λ xs. xs ++ attributes_text more) one
      ∙ simp (append_assoc)
    where
      one :
          (yaz_attribute_element_to_wrbuf lib a b).buf
          ≡ b.buf ++ (codes "@attr " ++ (set_text a.attribute_set ++ (type_word a ++ b' ' ∷ [])))
      one =
          let b1 = put_set lib a.attribute_set (wrbuf_write (codes "@attr ") b) in
          let b2 = wrbuf_write (codes "=") (wrbuf_write (lib.print_int a.attribute_type) b1) in
          unfold yaz_attribute_element_to_wrbuf in
          simp (
            appends,
            put_set-buf a.attribute_set (wrbuf_write (codes "@attr ") b),
            put_value-buf a.value b2,
          )

  put_term-buf :
      (t : Term) (b : Wrbuf)
      → t ≢ null
      → (put_term lib t b).buf ≡ b.buf ++ (term_text t ++ b' ' ∷ [])
  unfolding put_term
  put_term-buf (general t) b h = yaz_encode_pqf_term-buf t b
  put_term-buf (character_string t) b h =
      yaz_encode_pqf_term-buf t (wrbuf_write (codes "@term string ") b) ∙ simp appends
  put_term-buf (number n) b h = simp appends
  put_term-buf null b h = absurd (h refl)
  put_term-buf (other which) b h = simp appends

  put_operator-buf :
      (op : Operator) (b : Wrbuf)
      → (put_operator lib op (
          wrbuf_write
            (codes " ")
            (wrbuf_write (complex_op_name lib op) (wrbuf_write (codes "@") b)))).buf
        ≡ b.buf ++ operator_text op
  unfolding put_proximity
  put_operator-buf op_and b = simp appends
  put_operator-buf op_or b = simp appends
  put_operator-buf op_and_not b = simp appends
  put_operator-buf (op_prox x) b = simp appends

  -- The text of a structure without null terms, less the space at its end.
  abbrev pub structure_text : RpnStructure → Bytes
  structure_text (complex_structure op s1 s2) =
      operator_text op ++ (structure_text s1 ++ b' ' ∷ structure_text s2)
  structure_text (attributes_plus_term attributes t) = attributes_text attributes ++ term_text t
  structure_text (result_set_id id) = codes "@set " ++ term_word id
  structure_text unset = codes "(unknown structure)"

  abbrev pub HasText : RpnStructure → Type 0
  HasText (complex_structure op s1 s2) = HasText s1 × HasText s2
  HasText (attributes_plus_term attributes t) = t ≢ null
  HasText (result_set_id id) = Unit
  HasText unset = ⊥

  pub yaz_rpnstructure_to_wrbuf-buf :
      (s : RpnStructure) (b : Wrbuf)
      → HasText s
      → (yaz_rpnstructure_to_wrbuf lib s b).buf ≡ b.buf ++ (structure_text s ++ b' ' ∷ [])
  unfolding yaz_rpnstructure_to_wrbuf
  yaz_rpnstructure_to_wrbuf-buf (complex_structure op s1 s2) b h =
      let named =
        wrbuf_write (codes " ")
          (wrbuf_write (complex_op_name lib op) (wrbuf_write (codes "@") b)) in
      let begun = put_operator lib op named in
      yaz_rpnstructure_to_wrbuf-buf s2 (yaz_rpnstructure_to_wrbuf lib s1 begun) h.1
      ∙ ap (λ xs. xs ++ (structure_text s2 ++ b' ' ∷ []))
          (yaz_rpnstructure_to_wrbuf-buf s1 begun h.0
            ∙ ap (λ xs. xs ++ (structure_text s1 ++ b' ' ∷ [])) (put_operator-buf op b))
      ∙ simp (append_assoc)
  yaz_rpnstructure_to_wrbuf-buf (attributes_plus_term attributes t) b h =
      unfold yaz_apt_to_wrbuf in
      put_term-buf t (yaz_attributes_to_wrbuf lib attributes b) h
      ∙ ap (λ xs. xs ++ (term_text t ++ b' ' ∷ [])) (yaz_attributes_to_wrbuf-buf attributes b)
      ∙ simp (append_assoc)
  yaz_rpnstructure_to_wrbuf-buf (result_set_id id) b h =
      yaz_encode_pqf_term-buf id (wrbuf_write (codes "@set ") b) ∙ simp appends
  yaz_rpnstructure_to_wrbuf-buf unset b h = absurd h
