-- ===== src/Pqf/Chosen.antt =====
-- Which attributes `get_attributeList` of src/pquery.c keeps.
use yaz.Prelude.{
  ◌≤◌, ◌≡◌, ◌≢◌, ◌↔◌, ◌∙◌, All, ap, sym, refl, Bool, Bool-cases, ◌⊎◌, inl, inr, true, false, not,
  List, [], ◌∷◌, Option, none, some, length, if◌then◌else◌, arith,
}
use yaz.Prelude.Int.{ℤ, pos, negsuc}
use yaz.Pqf.{Attribute}
use yaz.Pqf.Attributes.{same_int, has_type, pick_attributes, get_attribute_list}

-- No type occurs twice.
abbrev pub HasDistinctTypes : List Attribute → Type 0
HasDistinctTypes [] = Unit
HasDistinctTypes (a ∷ more) =
    All (λ b. a.attribute_type ≢ b.attribute_type) more × HasDistinctTypes more

-- The attribute is the latest of its type in a list whose latest is in front.
abbrev pub IsLastGiven : ℤ → Attribute → List Attribute → Type 0
IsLastGiven t a [] = ⊥
IsLastGiven t a (b ∷ before) =
    ((b.attribute_type ≡ t) × (b ≡ a)) ⊎ ((b.attribute_type ≢ t) × IsLastGiven t a before)

-- The first attribute of the type.
abbrev first_of : ℤ → List Attribute → Option Attribute
first_of t [] = none
first_of t (a ∷ more) =
    let rest = first_of t more in if same_int a.attribute_type t then some a else rest

same_int-eq : (x y : ℤ) → same_int x y ≡ true → x ≡ y
same_int-eq (pos m) (pos n) h = ap pos (ground arith)
same_int-eq (pos m) (negsuc n) h = absurd (cc h)
same_int-eq (negsuc m) (pos n) h = absurd (cc h)
same_int-eq (negsuc m) (negsuc n) h = ap negsuc (ground arith)

-- A type that does not occur later is another than one that does.
other_type :
    (a : Attribute) (t : ℤ) (later : List Attribute) (b : Bool)
    → has_type a.attribute_type later ≡ b
    → has_type t later ≡ not b
    → same_int a.attribute_type t ≡ false
other_type a t later b h k = elim (Bool-cases (same_int a.attribute_type t)) [
  | inr e ↦ e
  | inl e ↦
      absurd (differ b (sym h ∙ ap (λ u. has_type u later) (same_int-eq a.attribute_type t e) ∙ k))
]
  where
    differ : (b : Bool) → b ≡ not b → ⊥
    differ true h = cc h
    differ false h = cc h

has_type-pick :
    (t : ℤ) (later attrs : List Attribute)
    → has_type t later ≡ true
    → has_type t (pick_attributes later attrs) ≡ false
unfolding pick_attributes has_type
has_type-pick t later [] h = refl
has_type-pick t later (a ∷ before) h =
    let seen : has_type t (a ∷ later) ≡ true = ground (arith, h) in
    let ih = has_type-pick t (a ∷ later) before seen in
    elim (Bool-cases (has_type a.attribute_type later)) [
      | inl e ↦ rw e ih
      | inr e ↦ rw e (rw (other_type a t later false e h) ih)
    ]

same_int_self : (x : ℤ) → same_int x x ≡ true
same_int_self (pos m) = ground arith
same_int_self (negsuc m) = ground arith

same_int-ne : (x y : ℤ) → same_int x y ≡ false → x ≢ y
same_int-ne x y f e = cc (sym f ∙ ap (λ u. same_int u y) e ∙ same_int_self y)

has_type-All :
    (t : ℤ) (attrs : List Attribute)
    → has_type t attrs ≡ false
    → All (λ b. t ≢ b.attribute_type) attrs
unfolding has_type
has_type-All t [] h = tt
has_type-All t (b ∷ attrs) h = elim (Bool-cases (same_int b.attribute_type t)) [
  | inl e ↦ absurd (ground arith)
  | inr f ↦ (λ e. same_int-ne b.attribute_type t f (sym e), has_type-All t attrs (ground arith))
]

first_of_iff :
    (t : ℤ) (a : Attribute) (attrs : List Attribute)
    → (first_of t attrs ≡ some a) ↔ IsLastGiven t a attrs
first_of_iff t a [] = (λ e. cc e, λ e. absurd e)
first_of_iff t a (b ∷ before) = elim (Bool-cases (same_int b.attribute_type t)) [
  | inl e ↦ rw e (
    λ q. inl (same_int-eq b.attribute_type t e, cc q),
    λ l. elim l [ inl m ↦ ap some m.1 | inr m ↦ absurd (m.0 (same_int-eq b.attribute_type t e)) ],
  )
  | inr f ↦ rw f (
    λ q. inr (same_int-ne b.attribute_type t f, (first_of_iff t a before).0 q),
    λ l. elim l [
      | inl m ↦ absurd (same_int-ne b.attribute_type t f m.0)
      | inr m ↦ (first_of_iff t a before).1 m.1
    ],
  )
]

pick-HasDistinctTypes :
    (later attrs : List Attribute) → HasDistinctTypes (pick_attributes later attrs)
unfolding pick_attributes has_type
pick-HasDistinctTypes later [] = tt
pick-HasDistinctTypes later (a ∷ before) =
    let rest = pick-HasDistinctTypes (a ∷ later) before in
    elim (Bool-cases (has_type a.attribute_type later)) [
      | inl e ↦ rw e rest
      | inr e ↦ rw e (
        has_type-All a.attribute_type (pick_attributes (a ∷ later) before) (
            has_type-pick a.attribute_type (a ∷ later) before
              (ground (arith, same_int_self a.attribute_type))),
        rest,
      )
    ]

length-pick : (later attrs : List Attribute) → length (pick_attributes later attrs) ≤ length attrs
unfolding pick_attributes
length-pick later [] = omega arith
length-pick later (a ∷ before) = ground (arith, length-pick (a ∷ later) before)

first_of-pick :
    (t : ℤ) (later attrs : List Attribute)
    → first_of t (pick_attributes later attrs)
      ≡ (if has_type t later then none else first_of t attrs)
unfolding pick_attributes has_type
first_of-pick t later [] = ground arith
first_of-pick t later (a ∷ before) =
    let ih = first_of-pick t (a ∷ later) before in
    elim (Bool-cases (has_type a.attribute_type later)) [
      | inl e ↦ elim (Bool-cases (has_type t later)) [
        | inl f ↦ ground (arith, ih, e, f)
        | inr f ↦ ground (arith, ih, e, f, other_type a t later true e f)
      ]
      | inr e ↦ elim (Bool-cases (has_type t later)) [
        | inl f ↦ ground (arith, ih, e, f, other_type a t later false e f)
        | inr f ↦ elim (Bool-cases (same_int a.attribute_type t)) [
          | inl g ↦ ground (arith, ih, e, f, g)
          | inr g ↦ ground (arith, ih, e, f, g)
        ]
      ]
    ]

pub length-get_attribute_list :
    (attrs : List Attribute) → length (get_attribute_list attrs) ≤ length attrs
unfolding get_attribute_list
length-get_attribute_list attrs = length-pick [] attrs

pub get_attribute_list-HasDistinctTypes :
    (attrs : List Attribute) → HasDistinctTypes (get_attribute_list attrs)
unfolding get_attribute_list
get_attribute_list-HasDistinctTypes attrs = pick-HasDistinctTypes [] attrs

-- Whatever attributes have been given, the latest first, no two attributes of the list that
-- `get_attributeList` makes of them have the same type, and an attribute is the latest of its type
-- in that list exactly where it is the latest that was given of the type.
pub get_attribute_list-latest :
    (attrs : List Attribute)
    → HasDistinctTypes (get_attribute_list attrs)
      × ((t : ℤ) (a : Attribute)
          → IsLastGiven t a (get_attribute_list attrs) ↔ IsLastGiven t a attrs)
unfolding get_attribute_list has_type
get_attribute_list-latest attrs = (
  pick-HasDistinctTypes [] attrs,
  λ t a.
      let kept = first_of_iff t a (pick_attributes [] attrs) in
      let given = first_of_iff t a attrs in
      let same = first_of-pick t [] attrs in
      (λ l. given.0 (sym same ∙ kept.1 l), λ l. kept.0 (same ∙ given.1 l)),
)
