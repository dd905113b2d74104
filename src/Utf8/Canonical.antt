-- ===== src/Utf8/Canonical.antt =====
-- The reader accepts no other octets for a character than those that are written for it: src/utf8.c.
use yaz.Prelude.{
  ℕ, ◌+◌, ◌*◌, ◌%◌, ◌^◌, ◌≤◌, ◌<◌, ◌≡◌, ◌∙◌, ap, sym, Bool, true, ◌&&◌, ◌||◌, ◌⊎◌, inl, inr,
  Bool-cases, [], ◌∷◌, Bytes, take, length, get_or, leb, arith,
}
use yaz.Utf8.{char, is_tail, yaz_read_utf8_char}
use yaz.Utf8.RoundTrip.{utf8_octets}
use yaz.Utf8.Octets.{octets_two, octets_three, octets_four, octets_five, octets_six, take_step}

-- A sequence of `n` octets with a first octet between `lo` and `hi` was accepted as `y`.
record Sequence (bs : Bytes) (lo hi n least y x m : ℕ) (tails : Bool) : Type 0 where
  above : lo ≤ get_or bs 0 0
  below : get_or bs 0 0 ≤ hi
  enough : n ≤ length bs
  tails_right : tails ≡ true
  not_short : least ≤ y
  is_value : x ≡ y
  is_count : m ≡ n

module _ (bs : Bytes) where
  abbrev b : ℕ → ℕ
  b i = get_or bs i 0

  abbrev IsTwo : ℕ → ℕ → Type 0
  IsTwo x m = Sequence bs 0xc0 0xdf 2 0x80 (b 0 % 32 * 64 + b 1 % 64) x m (is_tail (b 1))

  abbrev IsThree : ℕ → ℕ → Type 0
  IsThree x m =
      Sequence bs 0xe0 0xef 3 0x800 (b 0 % 16 * 64 ^ 2 + b 1 % 64 * 64 + b 2 % 64) x m
        (is_tail (b 1) && is_tail (b 2))

  abbrev IsFour : ℕ → ℕ → Type 0
  IsFour x m =
      Sequence bs 0xf0 0xf7 4 0x10000
        (b 0 % 8 * 64 ^ 3 + b 1 % 64 * 64 ^ 2 + b 2 % 64 * 64 + b 3 % 64) x m
        (is_tail (b 1) && is_tail (b 2) && is_tail (b 3))

  abbrev IsFive : ℕ → ℕ → Type 0
  IsFive x m =
      Sequence bs 0xf8 0xfb 5 0x200000
        (b 0 % 4 * 64 ^ 4 + b 1 % 64 * 64 ^ 3 + b 2 % 64 * 64 ^ 2 + b 3 % 64 * 64 + b 4 % 64) x m
        (is_tail (b 1) && is_tail (b 2) && is_tail (b 3) && is_tail (b 4))

  abbrev IsSix : ℕ → ℕ → Type 0
  IsSix x m =
      Sequence bs 0xfc 0xfd 6 0x4000000
        (b 0 % 2 * 64 ^ 5
          + b 1 % 64 * 64 ^ 4
          + b 2 % 64 * 64 ^ 3
          + b 3 % 64 * 64 ^ 2
          + b 4 % 64 * 64
          + b 5 % 64)
        x m (is_tail (b 1) && is_tail (b 2) && is_tail (b 3) && is_tail (b 4) && is_tail (b 5))

  -- Which branch answered.
  read_cases :
      (x m : ℕ)
      → yaz_read_utf8_char bs ≡ char x m
      → ((b 0 ≤ 0x7f) × (x ≡ b 0) × (m ≡ 1))
        ⊎ (IsTwo x m ⊎ (IsThree x m ⊎ (IsFour x m ⊎ (IsFive x m ⊎ IsSix x m))))
  unfolding yaz_read_utf8_char
  read_cases x m h = elim (Bool-cases (leb (b 0) 0x7f)) [
    | inl e ↦ inl (ground arith)
    | inr e1 ↦ elim (Bool-cases (leb (b 0) 0xbf || leb 0xfe (b 0))) [
      | inl e ↦ ground arith
      | inr e2 ↦ elim (Bool-cases (leb (b 0) 0xdf && leb 2 (length bs))) [
        | inl e ↦ inr (inl (ground arith))
        | inr e3 ↦ elim (Bool-cases (leb (b 0) 0xef && leb 3 (length bs))) [
          | inl e ↦ inr (inr (inl (ground arith)))
          | inr e4 ↦ elim (Bool-cases (leb (b 0) 0xf7 && leb 4 (length bs))) [
            | inl e ↦ inr (inr (inr (inl (ground arith))))
            | inr e5 ↦ elim (Bool-cases (leb (b 0) 0xfb && leb 5 (length bs))) [
              | inl e ↦ inr (inr (inr (inr (inl (ground arith)))))
              | inr e6 ↦ elim (Bool-cases (leb (b 0) 0xfd && leb 6 (length bs))) [
                | inl e ↦ inr (inr (inr (inr (inr (ground arith)))))
                | inr e7 ↦ ground arith
              ]
            ]
          ]
        ]
      ]
    ]
  ]

-- What was read is the octets of a character below 2^31, all of them in the input.
abbrev pub Spells : Bytes → ℕ → ℕ → Type 0
Spells bs x m =
    (take m bs ≡ utf8_octets x) × (x < 2 ^ 31) × (m ≡ length (utf8_octets x)) × (m ≤ length bs)

module _ (bs : Bytes) (x m : ℕ) where
  Spells-two : IsTwo bs x m → Spells bs x m
  Spells-two s =
      let octets =
        octets_two (get_or bs 0 0) (get_or bs 1 0) x s.above s.below s.tails_right
          (omega (arith, s.not_short, s.is_value)) s.is_value in
      let listed : take 2 bs ≡ utf8_octets x =
        (take_step 0 1 bs (omega (arith, s.enough))
          ∙ ap (◌∷◌ (get_or bs 0 0)) (take_step 1 0 bs (omega (arith, s.enough))))
        ∙ sym octets in
      (
        ap (λ n. take n bs) s.is_count ∙ listed,
        omega (arith, s.is_value, s.above, s.below),
        s.is_count ∙ ap length (sym octets),
        omega (arith, s.is_count, s.enough),
      )

  Spells-three : IsThree bs x m → Spells bs x m
  Spells-three s =
      let octets =
        octets_three (get_or bs 0 0) (get_or bs 1 0) (get_or bs 2 0) x s.above s.below s.tails_right
          (omega (arith, s.not_short, s.is_value)) s.is_value in
      let listed : take 3 bs ≡ utf8_octets x =
        (take_step 0 2 bs (omega (arith, s.enough))
          ∙ ap (◌∷◌ (get_or bs 0 0)) (
              take_step 1 1 bs (omega (arith, s.enough))
              ∙ ap (◌∷◌ (get_or bs 1 0)) (take_step 2 0 bs (omega (arith, s.enough)))))
        ∙ sym octets in
      (
        ap (λ n. take n bs) s.is_count ∙ listed,
        omega (arith, s.is_value, s.above, s.below),
        s.is_count ∙ ap length (sym octets),
        omega (arith, s.is_count, s.enough),
      )

  Spells-four : IsFour bs x m → Spells bs x m
  Spells-four s =
      let octets =
        octets_four (get_or bs 0 0) (get_or bs 1 0) (get_or bs 2 0) (get_or bs 3 0) x s.above
          s.below s.tails_right (omega (arith, s.not_short, s.is_value)) s.is_value in
      let listed : take 4 bs ≡ utf8_octets x =
        (take_step 0 3 bs (omega (arith, s.enough))
          ∙ ap (◌∷◌ (get_or bs 0 0)) (
              take_step 1 2 bs (omega (arith, s.enough))
              ∙ ap (◌∷◌ (get_or bs 1 0)) (
                  take_step 2 1 bs (omega (arith, s.enough))
                  ∙ ap (◌∷◌ (get_or bs 2 0)) (take_step 3 0 bs (omega (arith, s.enough))))))
        ∙ sym octets in
      (
        ap (λ n. take n bs) s.is_count ∙ listed,
        omega (arith, s.is_value, s.above, s.below),
        s.is_count ∙ ap length (sym octets),
        omega (arith, s.is_count, s.enough),
      )

  Spells-five : IsFive bs x m → Spells bs x m
  Spells-five s =
      let octets =
        octets_five (get_or bs 0 0) (get_or bs 1 0) (get_or bs 2 0) (get_or bs 3 0) (get_or bs 4 0)
          x s.above s.below s.tails_right (omega (arith, s.not_short, s.is_value)) s.is_value in
      let listed : take 5 bs ≡ utf8_octets x =
        (take_step 0 4 bs (omega (arith, s.enough))
          ∙ ap (◌∷◌ (get_or bs 0 0)) (
              take_step 1 3 bs (omega (arith, s.enough))
              ∙ ap (◌∷◌ (get_or bs 1 0)) (
                  take_step 2 2 bs (omega (arith, s.enough))
                  ∙ ap (◌∷◌ (get_or bs 2 0)) (
                      take_step 3 1 bs (omega (arith, s.enough))
                      ∙ ap (◌∷◌ (get_or bs 3 0)) (take_step 4 0 bs (omega (arith, s.enough)))))))
        ∙ sym octets in
      (
        ap (λ n. take n bs) s.is_count ∙ listed,
        omega (arith, s.is_value, s.above, s.below),
        s.is_count ∙ ap length (sym octets),
        omega (arith, s.is_count, s.enough),
      )

  Spells-six : IsSix bs x m → Spells bs x m
  Spells-six s =
      let octets =
        octets_six (get_or bs 0 0) (get_or bs 1 0) (get_or bs 2 0) (get_or bs 3 0) (get_or bs 4 0)
          (get_or bs 5 0) x s.above s.below s.tails_right (omega (arith, s.not_short, s.is_value))
          s.is_value in
      let listed : take 6 bs ≡ utf8_octets x =
        (take_step 0 5 bs (omega (arith, s.enough))
          ∙ ap (◌∷◌ (get_or bs 0 0)) (
              take_step 1 4 bs (omega (arith, s.enough))
              ∙ ap (◌∷◌ (get_or bs 1 0)) (
                  take_step 2 3 bs (omega (arith, s.enough))
                  ∙ ap (◌∷◌ (get_or bs 2 0)) (
                      take_step 3 2 bs (omega (arith, s.enough))
                      ∙ ap (◌∷◌ (get_or bs 3 0)) (
                          take_step 4 1 bs (omega (arith, s.enough))
                          ∙ ap (◌∷◌ (get_or bs 4 0))
                              (take_step 5 0 bs (omega (arith, s.enough))))))))
        ∙ sym octets in
      (
        ap (λ n. take n bs) s.is_count ∙ listed,
        omega (arith, s.is_value, s.above, s.below),
        s.is_count ∙ ap length (sym octets),
        omega (arith, s.is_count, s.enough),
      )

-- Whatever `yaz_read_UTF8_char` accepts of an input that is not empty is the octets of a character
-- below 2^31, and these lie within the input: no longer form of a character is read.
pub yaz_read_utf8_char_canonical :
    (bs : Bytes) (x m : ℕ)
    → 0 < length bs
    → yaz_read_utf8_char bs ≡ char x m
    → (take m bs ≡ utf8_octets x) × (x < 2 ^ 31) × (m ≡ length (utf8_octets x)) × (m ≤ length bs)
yaz_read_utf8_char_canonical bs x m some_byte h = elim (read_cases bs x m h) [
  | inl (small, same, one) ↦
      let listed : take 1 bs ≡ get_or bs 0 0 ∷ [] = take_step 0 0 bs some_byte in
      let octet : utf8_octets x ≡ x ∷ [] = ground arith in
      (
        ap (λ n. take n bs) one ∙ listed ∙ ap (λ c. c ∷ []) (sym same) ∙ sym octet,
        omega arith,
        one ∙ ap length (sym octet),
        omega arith,
      )
  | inr (inl s) ↦ Spells-two bs x m s
  | inr (inr (inl s)) ↦ Spells-three bs x m s
  | inr (inr (inr (inl s))) ↦ Spells-four bs x m s
  | inr (inr (inr (inr (inl s)))) ↦ Spells-five bs x m s
  | inr (inr (inr (inr (inr s)))) ↦ Spells-six bs x m s
]
