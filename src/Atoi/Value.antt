-- ===== src/Atoi/Value.antt =====
-- What the loop of src/atoin.c computes: the value of the longest prefix of digits, where it fits.
use yaz.Prelude.{
  ℕ, suc, ◌^◌, ◌+◌, ◌-◌, ◌*◌, ◌/◌, ◌≤◌, ◌<◌, ◌≡◌, ◌∙◌, ◌⊎◌, ap, sym, refl, within, Bool-cases, inl,
  inr, [], ◌∷◌, List, Bytes, Option, none, some, length, All, ltb, if◌then◌else◌, arith,
}
use yaz.Atoi.{
  ulong_max, digit_of, step_digit, after_step, atoul_loop, yaz_atoul, narrow, yaz_atoi, whole,
  atoi_n_check, value_or_zero, atoi_n,
}
use native.Mathlib.Nat.{div-lt_iff_lt-mul}
use yaz.Prelude.Digits.{value, le-value}

-- The character stands for the digit: 0 to 9, and then the letters, of either case, from 10 to 35.
abbrev pub StandsFor : ℕ → ℕ → Type 0
StandsFor c d =
    ((d < 10) × (c ≡ b'0' + d))
    ⊎ ((10 ≤ d) × (d < 36) × (c + 10 ≡ b'A' + d))
    ⊎ ((10 ≤ d) × (d < 36) × (c + 10 ≡ b'a' + d))

-- The text begins with characters that stand for these digits of the base, and no digit of the base
-- follows them.
abbrev pub BeginsWith : ℕ → Bytes → List ℕ → Type 0
BeginsWith base [] [] = Unit
BeginsWith base [] (d ∷ ds) = ⊥
BeginsWith base (c ∷ cs) [] = (d : ℕ) → d < base → ¬ StandsFor c d
BeginsWith base (c ∷ cs) (d ∷ ds) = (d < base) × StandsFor c d × BeginsWith base cs ds

-- A digit of the base, put before the digits that follow.
abbrev cons_digit : ℕ → Option ℕ → List ℕ → List ℕ
cons_digit base none ds = []
cons_digit base (some d) ds = if ltb d base then d ∷ ds else []

-- The digits at the front of a text.
abbrev digits : ℕ → Bytes → List ℕ
digits base [] = []
digits base (c ∷ cs) = cons_digit base (digit_of c) (digits base cs)

-- The count of digits and their value, where that fits an `unsigned long`.
abbrev pub fitting : ℕ → ℕ → ℕ → List ℕ → Option (ℕ × ℕ)
fitting base i val ds =
    if ltb (value base val ds) (2 ^ 64) then some (i + length ds, value base val ds) else none

overflow_iff :
    (base val d : ℕ)
    → 0 < base
    → d ≤ ulong_max
    → ltb ((ulong_max - d) / base) val ≡ ltb ulong_max (val * base + d)
overflow_iff base val d b h = ground (arith, (div-lt_iff_lt-mul {x = ulong_max - d} {y = val} b))

atoul_loop_lem :
    (base : ℕ) (cs : Bytes) (i val : ℕ)
    → 0 < base
    → base ≤ 36
    → val ≤ ulong_max
    → atoul_loop base cs i val ≡ fitting base i val (digits base cs)
unfolding atoul_loop
atoul_loop_lem base [] i val b k h = ground arith
atoul_loop_lem base (c ∷ cs) i val b k h =
    go (digit_of c) (λ v. atoul_loop_lem base cs (suc i) v b k)
  where
    go :
        (d : Option ℕ)
        → ((v : ℕ)
            → v ≤ ulong_max
            → atoul_loop base cs (suc i) v ≡ fitting base (suc i) v (digits base cs))
        → after_step (λ v. atoul_loop base cs (suc i) v) i val (step_digit base val d)
          ≡ fitting base i val (cons_digit base d (digits base cs))
    go none again = unfold after_step step_digit in ground arith
    go (some d) again =
        unfold after_step step_digit in
        ground (
          arith,
          overflow_iff base val d b,
          le-value base (val * base + d) (digits base cs) b,
          again (val * base + d),
        )

digit_of-StandsFor : (c d : ℕ) → StandsFor c d → digit_of c ≡ some d
unfolding digit_of
digit_of-StandsFor c d (inl h) = ground arith
digit_of-StandsFor c d (inr (inl h)) = ground arith
digit_of-StandsFor c d (inr (inr h)) = ground arith

StandsFor-digit_of : (c d : ℕ) → digit_of c ≡ some d → StandsFor c d
unfolding digit_of
StandsFor-digit_of c d h = elim (Bool-cases (within b'0' b'9' c)) [
  | inl e ↦ inl (ground arith)
  | inr e ↦ elim (Bool-cases (within b'A' b'Z' c)) [
    | inl f ↦ inr (inl (ground arith))
    | inr f ↦ elim (Bool-cases (within b'a' b'z' c)) [
      | inl g ↦ inr (inr (ground arith))
      | inr g ↦ absurd (ground arith)
    ]
  ]
]

digits-BeginsWith : (base : ℕ) (cs : Bytes) → BeginsWith base cs (digits base cs)
digits-BeginsWith base [] = tt
digits-BeginsWith base (c ∷ cs) = go (digit_of c) refl (digits-BeginsWith base cs)
  where
    go :
        (x : Option ℕ)
        → digit_of c ≡ x
        → BeginsWith base cs (digits base cs)
        → BeginsWith base (c ∷ cs) (cons_digit base x (digits base cs))
    go none e more = λ d k s. cc (sym e ∙ digit_of-StandsFor c d s)
    go (some d) e more = elim (Bool-cases (ltb d base)) [
      | inl l ↦ rw l (ground arith, StandsFor-digit_of c d e, more)
      | inr g ↦ rw g (λ f k s.
          let same : some d ≡ some f = sym e ∙ digit_of-StandsFor c f s in absurd (ground arith))
    ]

-- `yaz_atoul` for a base from 2 to 36 reads the digits of the base at the front of the text: 0 to 9
-- and letters of either case, up to the first character that is no digit of it. It reports their
-- number and their value, and fails exactly where that value exceeds an `unsigned long`.
pub yaz_atoul_lem :
    (base : ℕ) (ptr : Bytes)
    → 2 ≤ base
    → base ≤ 36
    → (ds : List ℕ) × BeginsWith base ptr ds × (yaz_atoul base ptr ≡ fitting base 0 0 ds)
unfolding yaz_atoul
yaz_atoul_lem base ptr b k =
    let e : yaz_atoul base ptr ≡ atoul_loop base ptr 0 0 = ground arith in
    (
      digits base ptr,
      digits-BeginsWith base ptr,
      e ∙ atoul_loop_lem base ptr 0 0 (omega arith) k (omega arith),
    )

abbrev pub IsDecimal : ℕ → Type 0
IsDecimal c = (b'0' ≤ c) × (c ≤ b'9')

-- The value of decimal digits, behind those of value `v`.
abbrev pub decimal : ℕ → Bytes → ℕ
decimal v [] = v
decimal v (c ∷ cs) = decimal (v * 10 + (c - b'0')) cs

digits_ten :
    (v : ℕ) (cs : Bytes)
    → All IsDecimal cs
    → (length (digits 10 cs) ≡ length cs) × (value 10 v (digits 10 cs) ≡ decimal v cs)
unfolding digit_of
digits_ten v [] h = (refl, refl)
digits_ten v (c ∷ cs) h = ground (arith, digits_ten (v * 10 + (c - b'0')) cs h.1)

-- For a text of decimal digits only, `atoi_n` is its value where that exceeds no `int`, and else
-- 0.
pub atoi_n_lem :
    (buf : Bytes)
    → All IsDecimal buf
    → atoi_n buf ≡ (if ltb (decimal 0 buf) (2 ^ 31) then decimal 0 buf else 0)
unfolding atoi_n atoi_n_check yaz_atoi yaz_atoul narrow whole value_or_zero
atoi_n_lem buf h =
    ap (λ r. value_or_zero (whole (length buf) (narrow r)))
      (atoul_loop_lem 10 buf 0 0 (omega arith) (omega arith) (omega arith))
    ∙ ground (arith, digits_ten 0 buf h)
