-- ===== src/Pqf/Progress.antt =====
-- Every token of src/pquery.c takes at least one character of the text.
use yaz.Prelude.{
  ℕ, suc, ◌-◌, ◌<◌, ◌≤◌, ◌≡◌, ◌⊎◌, refl, Bool, true, false, not, ◌&&◌, [], ◌∷◌, Bytes, Option, none,
  some, length, drop, length-drop, leb, ◌==◌, if◌then◌else◌, arith, Bool-cases, inl, inr,
}
use yaz.Pqf.State.{
  Parser, Look, at_end, and_token, or_token, not_token, attr_token, set_token, attrset_token,
  prox_token, term_token, text_token, Outcome, fail, missing, done, failed, out_of_fuel, and_then,
  peek,
}
use yaz.Pqf.Lexer.{
  lex, skip_spaces, token_end, token_from, token_start, is_short_attr, right_separator, word_token,
  keyword,
}
use yaz.Pqf.Attributes.{next_token}

-- What is left of the text: the token that is looked at, and the characters behind it.
abbrev pub left : Look → ℕ → ℕ
left at_end n = 0
left _ n = suc n

abbrev pub left_of : Parser → ℕ
left_of p = left p.query_look (length p.query_ptr)

-- The result of an outcome satisfies the predicate, and the fuel is not used up.
abbrev pub Yields {ℓ} : {A : Type ℓ} → (A → Parser → Type 0) → Outcome A → Type 0
Yields P (done a p) = P a p
Yields P (failed p) = Unit
Yields P out_of_fuel = ⊥

pub Yields-and_then {ℓ κ} :
    {A : Type ℓ} {B : Type κ} (P : A → Parser → Type 0) (Q : B → Parser → Type 0) (o : Outcome A)
    (f : A → Parser → Outcome B)
    → Yields P o
    → ((a : A) (p : Parser) → P a p → Yields Q (f a p))
    → Yields Q (and_then o f)
Yields-and_then P Q (done a p) f h k = k a p h
Yields-and_then P Q (failed p) f h k = tt
Yields-and_then P Q out_of_fuel f h k = absurd h

pub Yields-imp {ℓ} :
    {A : Type ℓ} (P : A → Parser → Type 0) (Q : A → Parser → Type 0) (o : Outcome A)
    → Yields P o
    → ((a : A) (p : Parser) → P a p → Q a p)
    → Yields Q o
Yields-imp P Q (done a p) h k = k a p h
Yields-imp P Q (failed p) h k = tt
Yields-imp P Q out_of_fuel h k = absurd h

left_pos : (l : Look) (n : ℕ) → 0 < left l n → left l n ≡ suc n
left_pos at_end n h = absurd (omega arith)
left_pos and_token n h = refl
left_pos or_token n h = refl
left_pos not_token n h = refl
left_pos attr_token n h = refl
left_pos set_token n h = refl
left_pos attrset_token n h = refl
left_pos prox_token n h = refl
left_pos term_token n h = refl
left_pos text_token n h = refl

left_le : (l : Look) (n : ℕ) → left l n ≤ suc n
left_le at_end n = omega arith
left_le and_token n = omega arith
left_le or_token n = omega arith
left_le not_token n = omega arith
left_le attr_token n = omega arith
left_le set_token n = omega arith
left_le attrset_token n = omega arith
left_le prox_token n = omega arith
left_le term_token n = omega arith
left_le text_token n = omega arith

length-skip_spaces : (cs : Bytes) → length (skip_spaces cs) ≤ length cs
unfolding skip_spaces
length-skip_spaces [] = omega arith
length-skip_spaces (c ∷ cs) = ground (arith, length-skip_spaces cs)

length-token_end :
    (sep : ℕ) (escaped : Bool) (text : Bytes)
    → length (drop 1 (token_end sep escaped text).1) ≤ length text - 1
unfolding token_end
length-token_end sep escaped [] = omega arith
length-token_end sep escaped (c ∷ cs) =
    let next = not escaped && c == b'\\' in
    elim (Bool-cases (not escaped && c == sep)) [
      | inl e ↦ rw e (omega arith)
      | inr e ↦ rw e (omega (arith, length-token_end sep next cs))
    ]

length-word_token :
    (sep : ℕ) (text : Bytes) (r : ℕ × Bytes) (p : Parser)
    → length (word_token sep text r p).query_ptr ≡ length (drop 1 r.1)
length-word_token sep text r p = either (sep == b' ' && (leb 1 r.0 && peek text == b'@'))
  where
    q : Parser
    q = record p { lex_buf = text; lex_len = r.0; query_ptr = drop 1 r.1 }

    either :
        (b : Bool)
        → length
            (if b
              then record q { query_look = keyword q }
              else record q { query_look = text_token }).query_ptr
          ≡ length (drop 1 r.1)
    either true = refl
    either false = refl

length-token_from :
    (sep : ℕ) (text : Bytes) (p : Parser)
    → length (token_from sep text p).query_ptr ≤ length text - 1
unfolding token_from
length-token_from sep text p = elim (Bool-cases (is_short_attr text)) [
  | inl e ↦ rw e (omega (arith, length-drop 1 text))
  | inr e ↦ rw e (
      omega (
        arith,
        length-word_token sep text (token_end sep false text) p,
        length-token_end sep false text,
      ))
]

-- `lex` goes on in the text, and past a character if there is a token.
lex-bounds :
    (p : Parser)
    → (left_of (lex p) ≤ length p.query_ptr) × (length (lex p).query_ptr ≤ length p.query_ptr)
unfolding lex
lex-bounds p = started (skip_spaces p.query_ptr) (length-skip_spaces p.query_ptr)
  where
    Bounded : Parser → Type 0
    Bounded q = (left_of q ≤ length p.query_ptr) × (length q.query_ptr ≤ length p.query_ptr)

    started : (cs : Bytes) → length cs ≤ length p.query_ptr → Bounded (token_start cs p)
    started [] h = (omega arith, omega arith)
    started (c ∷ cs) h = at_separator (right_separator c)
      where
        token-Bounded :
            (sep : ℕ) (text : Bytes)
            → length text - 1 < length p.query_ptr
            → Bounded (token_from sep text p)
        token-Bounded sep text k =
            let q = token_from sep text p in
            let shorter = length-token_from sep text p in
            (
              omega (arith, k, left_le q.query_look (length q.query_ptr), shorter),
              omega (arith, k, shorter),
            )

        at_separator :
            (o : Option ℕ)
            → Bounded (elim o [ none ↦ token_from b' ' (c ∷ cs) p | some r ↦ token_from r cs p ])
        at_separator none = token-Bounded b' ' (c ∷ cs) (omega (arith, h))
        at_separator (some r) = token-Bounded r cs (omega (arith, h))

pub lex-left : (p : Parser) → left_of (lex p) ≤ length p.query_ptr
lex-left p = (lex-bounds p).0

pub length-lex : (p : Parser) → length (lex p).query_ptr ≤ length p.query_ptr
length-lex p = (lex-bounds p).1

-- From a token, `lex` takes some of what is left.
pub lex-lt : (p : Parser) → 0 < left_of p → left_of (lex p) < left_of p
lex-lt p h = omega (arith, lex-left p, left_pos p.query_look (length p.query_ptr) h)

-- There is a token, and less is left.
abbrev pub Moves : Parser → Parser → Type 0
Moves p q = (0 < left_of q) × (left_of q < left_of p)

-- A test for the end of the text.
pub look-cases :
    {A : Type 0} (l : Look) (n : ℕ) (x y : A)
    → ((elim l [ at_end ↦ x | _ ↦ y ]) ≡ x)
      ⊎ (((elim l [ at_end ↦ x | _ ↦ y ]) ≡ y) × (0 < left l n))
look-cases at_end n x y = inl refl
look-cases and_token n x y = inr (refl, omega arith)
look-cases or_token n x y = inr (refl, omega arith)
look-cases not_token n x y = inr (refl, omega arith)
look-cases attr_token n x y = inr (refl, omega arith)
look-cases set_token n x y = inr (refl, omega arith)
look-cases attrset_token n x y = inr (refl, omega arith)
look-cases prox_token n x y = inr (refl, omega arith)
look-cases term_token n x y = inr (refl, omega arith)
look-cases text_token n x y = inr (refl, omega arith)

pub next_token-Moves : (p : Parser) → 0 < left_of p → Yields (λ _ q. Moves p q) (next_token p)
next_token-Moves p h =
    let q = lex p in
    elim (look-cases q.query_look (length q.query_ptr) (fail missing q) (done tt q)) [
      | inl e ↦ rw e tt
      | inr e ↦ rw (e.0) (e.1, lex-lt p h)
    ]
