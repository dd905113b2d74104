-- ===== src/Pqf/Advances.antt =====
-- What the parts of src/pquery.c that read several tokens take of the text.
use yaz.Prelude.{
  ℕ, suc, ◌<◌, ◌≤◌, ◌≡◌, refl, List, Bytes, Option, none, some, length, leb, arith, Bool-cases, inl,
  inr,
}
use yaz.Pqf.{Library, Oid, Attribute}
use yaz.Pqf.State.{
  Parser, Error, Outcome, fail, proximity, bad_integer, done, and_then, is_digit, peek,
}
use yaz.Pqf.Attributes.{
  next_token, parse_type, type_at, type_behind_set, p_query_parse_attr, find_char, is_set_name,
  inherited_set, query_oid_getvalbyname,
}
use yaz.Pqf.Parser.{proximity_field, rpn_proximity, one_attribute, max_attr}
use yaz.Pqf.Progress.{left_of, Yields, Yields-and_then, Yields-imp, lex-lt, Moves, next_token-Moves}

module _ (lib : Library) where
  field-Moves {ℓ} :
      {A : Type ℓ} (field : Bytes → Option A) (e : Error) (p : Parser)
      → 0 < left_of p
      → Yields (λ _ q. Moves p q) (proximity_field field e p)
  unfolding proximity_field
  field-Moves {A = A} field e p h =
      Yields-and_then (λ _ q. Moves p q) (λ _ q. Moves p q) (next_token p) _ (next_token-Moves p h)
        λ _ q m. found (field q.lex_buf) q m
    where
      found :
          (o : Option A) (q : Parser)
          → Moves p q
          → Yields {A = A} (λ _ r. Moves p r) (elim o [ none ↦ fail e q | some a ↦ done a q ])
      found none q m = tt
      found (some a) q m = m

  -- A field that is read on the way from `p`, and what follows it.
  field-then {ℓ κ} :
      {A : Type ℓ} {B : Type κ} (p p1 : Parser) (field : Bytes → Option A) (e : Error)
      (f : A → Parser → Outcome B)
      → 0 < left_of p1
      → left_of p1 ≤ left_of p
      → ((a : A) (q : Parser)
          → 0 < left_of q
          → left_of q < left_of p
          → Yields (λ _ r. Moves p r) (f a q))
      → Yields (λ _ r. Moves p r) (and_then (proximity_field field e p1) f)
  field-then p p1 field e f h l k =
      Yields-and_then (λ _ q. Moves p1 q) (λ _ r. Moves p r) (proximity_field field e p1) f
        (field-Moves field e p1 h) λ a q m. k a q m.0 (omega (arith, m.1))

  pub rpn_proximity-Moves :
      (p : Parser) → 0 < left_of p → Yields (λ _ q. Moves p q) (rpn_proximity lib p)
  unfolding rpn_proximity
  rpn_proximity-Moves p h = field-then p p _ proximity _ h (omega arith) λ _ p1 h1 l1.
      field-then p p1 _ bad_integer _ h1 (omega (arith, l1)) λ _ p2 h2 l2.
        field-then p p2 _ proximity _ h2 (omega (arith, l2)) λ _ p3 h3 l3.
          field-then p p3 _ bad_integer _ h3 (omega (arith, l3)) λ _ p4 h4 l4.
            field-then p p4 _ proximity _ h4 (omega (arith, l4)) λ _ p5 h5 l5.
              field-then p p5 _ bad_integer _ h5 (omega (arith, l5)) λ _ p6 h6 l6. (h6, l6)

  -- One more attribute, of the token or of the one behind it.
  abbrev Adds : List Attribute → Parser → List Attribute → Parser → Type 0
  Adds attrs p more q =
      (length more ≡ suc (length attrs)) × (0 < left_of q) × (left_of q ≤ left_of p)

  type_at-Adds :
      (attrs : List Attribute) (set : Option Oid) (at : Option ℕ) (p : Parser)
      → 0 < left_of p
      → Yields (Adds attrs p) (type_at lib attrs set at p)
  unfolding parse_type
  type_at-Adds attrs set none p h = tt
  type_at-Adds attrs set (some i) p h = elim (Bool-cases (is_digit (peek p.lex_buf))) [
    | inl e ↦ rw e (refl, h, omega arith)
    | inr e ↦ rw e tt
  ]

  parse_attr-Adds :
      (attrs : List Attribute) (p : Parser)
      → 0 < left_of p
      → Yields (Adds attrs p) (p_query_parse_attr lib attrs p)
  unfolding p_query_parse_attr
  parse_attr-Adds attrs p h = elim (Bool-cases (is_set_name (find_char b'=' p.lex_buf) p.lex_len)) [
    | inl e ↦ rw e (behind (query_oid_getvalbyname lib p))
    | inr e ↦ rw e (type_at-Adds attrs (inherited_set attrs) (find_char b'=' p.lex_buf) p h)
  ]
    where
      behind : (set : Option Oid) → Yields (Adds attrs p) (type_behind_set lib attrs set p)
      behind none = tt
      behind (some set) =
          Yields-and_then (λ _ q. Moves p q) (Adds attrs p) (next_token p) _ (next_token-Moves p h)
            λ _ q m.
              let at = find_char b'=' q.lex_buf in
              Yields-imp (Adds attrs q) (Adds attrs p) (type_at lib attrs (some set) at q)
                (type_at-Adds attrs (some set) at q m.0)
                λ more r a. (a.0, a.1, omega (arith, a.2, m.1))

  -- One attribute behind `@attr`, and the token behind it: there are never more than 512.
  abbrev pub Grows : List Attribute → Parser → List Attribute → Parser → Type 0
  Grows attrs p more q =
      (length more ≡ suc (length attrs)) × (length more ≤ max_attr) × (left_of q < left_of p)

  pub one_attribute-Grows :
      (attrs : List Attribute) (p : Parser)
      → 0 < left_of p
      → Yields (Grows attrs p) (one_attribute lib attrs p)
  unfolding one_attribute
  one_attribute-Grows attrs p h =
      Yields-and_then (λ _ q. Moves p q) (Grows attrs p) (next_token p) _ (next_token-Moves p h)
        λ _ q m. elim (Bool-cases (leb max_attr (length attrs))) [
          | inl e ↦ rw e tt
          | inr e ↦ rw e (
              Yields-and_then (Adds attrs q) (Grows attrs p) (p_query_parse_attr lib attrs q) _
                (parse_attr-Adds attrs q m.0)
                λ more r a. (a.0, ground (arith, a.0), omega (arith, a.2, m.1, lex-lt r a.1)))
        ]
