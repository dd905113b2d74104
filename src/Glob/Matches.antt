-- ===== src/Glob/Matches.antt =====
-- What a glob means, and that the matcher of src/match_glob.c decides it.
use yaz.Prelude.{
  ℕ, ◌≡◌, ◌≢◌, ◌↔◌, ◌∙◌, ap, refl, sym, subst, Bool, true, false, ◌⊎◌, [], ◌∷◌, ◌++◌, Bytes, ◌==◌,
  ==_iff, Bool-cases, inl, inr, arith,
}
use yaz.Glob.{any_suffix, fits, yaz_match_glob2}

module _ (tolower : ℕ → ℕ) where
  -- A character of the glob, not a star, stands for one of the text.
  abbrev pub StandsFor : Bool → ℕ → ℕ → Type 0
  StandsFor false g t = (g ≡ b'?') ⊎ (g ≡ t)
  StandsFor true g t = (g ≡ b'?') ⊎ (tolower g ≡ tolower t)

  fits-StandsFor :
      (case_insensitive : Bool) (g t : ℕ)
      → fits tolower case_insensitive g t ≡ true
      → StandsFor case_insensitive g t
  unfolding fits
  fits-StandsFor false g t h = elim (Bool-cases (g == b'?')) [
    | inl e ↦ inl (ground arith)
    | inr e ↦ inr (ground arith)
  ]
  fits-StandsFor true g t h = elim (Bool-cases (g == b'?')) [
    | inl e ↦ inl (ground arith)
    | inr e ↦ inr ((==_iff (tolower g) (tolower t)).0 (rw e at h))
  ]

  StandsFor-fits :
      (case_insensitive : Bool) (g t : ℕ)
      → StandsFor case_insensitive g t
      → fits tolower case_insensitive g t ≡ true
  unfolding fits
  StandsFor-fits false g t (inl e) = ground arith
  StandsFor-fits false g t (inr e) = ground arith
  StandsFor-fits true g t (inl e) = ground arith
  StandsFor-fits true g t (inr e) = ground arith

module _ (tolower : ℕ → ℕ) (ci : Bool) where
  -- The texts of a glob: a star stands for any string, a question mark for any character, and every
  -- other character for itself, or for one with the same lower case where case is ignored.
  pub data Matches : Bytes → Bytes → Type 0 where
    empty : Matches [] []
    star :
        (glob pre text all : Bytes)
        → all ≡ pre ++ text
        → Matches glob text
        → Matches (b'*' ∷ glob) all
    char :
        (g t : ℕ) (glob text : Bytes)
        → g ≢ b'*'
        → StandsFor tolower ci g t
        → Matches glob text
        → Matches (g ∷ glob) (t ∷ text)

  any_suffix-true :
      (f : Bytes → Bool) (pre text : Bytes) → f text ≡ true → any_suffix f (pre ++ text) ≡ true
  unfolding any_suffix
  any_suffix-true f [] [] h = rw h refl
  any_suffix-true f [] (c ∷ text) h = rw h refl
  any_suffix-true f (p ∷ pre) text h = ground (arith, any_suffix-true f pre text h)

  any_suffix_found :
      (f : Bytes → Bool) (text : Bytes)
      → any_suffix f text ≡ true
      → (pre : Bytes) × (suffix : Bytes) × (text ≡ pre ++ suffix) × (f suffix ≡ true)
  unfolding any_suffix
  any_suffix_found f [] h = elim (Bool-cases (f [])) [
    | inl e ↦ ([], [], refl, e)
    | inr e ↦ absurd (ground arith)
  ]
  any_suffix_found f (c ∷ text) h = elim (Bool-cases (f (c ∷ text))) [
    | inl e ↦ ([], c ∷ text, refl, e)
    | inr e ↦
        let (pre, suffix, q, r) = any_suffix_found f text (ground arith) in
        (c ∷ pre, suffix, ap (◌∷◌ c) q, r)
  ]

  Matches-sound :
      (glob text : Bytes) → yaz_match_glob2 tolower glob text ci ≡ true → Matches glob text
  unfolding yaz_match_glob2
  Matches-sound [] [] h = empty
  Matches-sound [] (t ∷ text) h = absurd (ground arith)
  Matches-sound (g ∷ glob) [] h = elim (Bool-cases (g == b'*')) [
    | inl e ↦
        let (pre, suffix, q, r) =
          any_suffix_found (λ xs. yaz_match_glob2 tolower glob xs ci) [] (ground arith) in
        subst (λ c. Matches (c ∷ glob) []) (sym ((==_iff g b'*').0 e))
          (star glob pre suffix [] q (Matches-sound glob suffix r))
    | inr e ↦ absurd (ground arith)
  ]
  Matches-sound (g ∷ glob) (t ∷ text) h = elim (Bool-cases (g == b'*')) [
    | inl e ↦
        let (pre, suffix, q, r) =
          any_suffix_found (λ xs. yaz_match_glob2 tolower glob xs ci) (t ∷ text) (ground arith) in
        subst (λ c. Matches (c ∷ glob) (t ∷ text)) (sym ((==_iff g b'*').0 e))
          (star glob pre suffix (t ∷ text) q (Matches-sound glob suffix r))
    | inr e ↦
        char g t glob text (ground arith) (fits-StandsFor tolower ci g t (ground arith))
          (Matches-sound glob text (ground arith))
  ]

  star_found :
      (glob pre text all : Bytes)
      → all ≡ pre ++ text
      → yaz_match_glob2 tolower glob text ci ≡ true
      → yaz_match_glob2 tolower (b'*' ∷ glob) all ci ≡ true
  unfolding yaz_match_glob2
  star_found glob pre text [] q h =
      ap (any_suffix (λ xs. yaz_match_glob2 tolower glob xs ci)) q
      ∙ any_suffix-true (λ xs. yaz_match_glob2 tolower glob xs ci) pre text h
  star_found glob pre text (c ∷ all) q h =
      ap (any_suffix (λ xs. yaz_match_glob2 tolower glob xs ci)) q
      ∙ any_suffix-true (λ xs. yaz_match_glob2 tolower glob xs ci) pre text h

  Matches-complete :
      (glob text : Bytes) → Matches glob text → yaz_match_glob2 tolower glob text ci ≡ true
  unfolding yaz_match_glob2
  Matches-complete _ _ empty = refl
  Matches-complete _ _ (star glob pre text all q m) =
      star_found glob pre text all q (Matches-complete glob text m)
  Matches-complete _ _ (char g t glob text n f m) =
      ground (arith, StandsFor-fits tolower ci g t f, Matches-complete glob text m)

  -- The matcher accepts exactly the texts of the glob, with and without regard to case, for any
  -- `tolower`.
  pub yaz_match_glob2_iff :
      (glob text : Bytes) → (yaz_match_glob2 tolower glob text ci ≡ true) ↔ Matches glob text
  yaz_match_glob2_iff glob text = (Matches-sound glob text, Matches-complete glob text)
