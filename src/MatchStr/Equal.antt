-- ===== src/MatchStr/Equal.antt =====
-- When the comparisons of src/matchstr.c report equality.
use yaz.Prelude.Int.{pos}
use yaz.Prelude.{
  ℕ, suc, ◌+◌, ◌-◌, ◌≤◌, ◌<◌, ◌⊎◌, within, ◌≡◌, ◌↔◌, ◌∙◌, ◌≢◌, ap, refl, sym, true, false, [], ◌∷◌,
  Bytes, some, All, get_or, drop, length, ◌==◌, if◌then◌else◌, Bool-cases, ==_iff, inl, inr, arith,
}
use yaz.MatchStr.{
  fold_case, difference, yaz_strncasecmp, yaz_strcasecmp, match_folded, match_loop, yaz_matchstr,
}

-- The same character, or a capital letter and its small one.
abbrev pub IsSameLetter : ℕ → ℕ → Type 0
IsSameLetter a b =
    (a ≡ b)
    ⊎ ((b'A' ≤ a) × (a ≤ b'Z') × (b ≡ a - b'A' + b'a'))
    ⊎ ((b'A' ≤ b) × (b ≤ b'Z') × (a ≡ b - b'A' + b'a'))

-- Strings of one length that are equal but for the case of letters.
abbrev pub IsSameText : Bytes → Bytes → Type 0
IsSameText [] [] = Unit
IsSameText [] (b ∷ s2) = ⊥
IsSameText (a ∷ s1) [] = ⊥
IsSameText (a ∷ s1) (b ∷ s2) = IsSameLetter a b × IsSameText s1 s2

fold_case-IsSameLetter : (a b : ℕ) → fold_case a ≡ fold_case b → IsSameLetter a b
unfolding fold_case
fold_case-IsSameLetter a b h = elim (Bool-cases (within b'A' b'Z' a)) [
  | inl e ↦ elim (Bool-cases (within b'A' b'Z' b)) [
    | inl f ↦ inl (ground arith)
    | inr f ↦ inr (inl (ground arith))
  ]
  | inr e ↦ elim (Bool-cases (within b'A' b'Z' b)) [
    | inl f ↦ inr (inr (ground arith))
    | inr f ↦ inl (ground arith)
  ]
]

IsSameLetter-fold_case : (a b : ℕ) → IsSameLetter a b → fold_case a ≡ fold_case b
unfolding fold_case
IsSameLetter-fold_case a b (inl e) = ap fold_case e
IsSameLetter-fold_case a b (inr (inl e)) = ground arith
IsSameLetter-fold_case a b (inr (inr e)) = ground arith

-- A string with its upper case letters put in lower case.
abbrev lower : Bytes → Bytes
lower [] = []
lower (c ∷ cs) = fold_case c ∷ lower cs

abbrev pub IsChar : ℕ → Type 0
IsChar c = 0 < c

cons-inj : (a b : ℕ) (xs ys : Bytes) → a ∷ xs ≡ b ∷ ys → (a ≡ b) × (xs ≡ ys)
cons-inj a b xs ys e = (ap (λ zs. get_or zs 0 0) e, ap (drop 1) e)

no_nil : (b : ℕ) (ys : Bytes) → [] ≢ b ∷ ys
no_nil b ys e = absurd (omega (arith, ap length e))

fold_case_pos : (c : ℕ) → 0 < c → 0 < fold_case c
unfolding fold_case
fold_case_pos c h = ground arith

lower_iff : (s1 s2 : Bytes) → (lower s1 ≡ lower s2) ↔ IsSameText s1 s2
lower_iff [] [] = (λ e. tt, λ e. refl)
lower_iff [] (b ∷ s2) = (no_nil (fold_case b) (lower s2), λ e. absurd e)
lower_iff (a ∷ s1) [] = (λ e. no_nil (fold_case a) (lower s1) (sym e), λ e. absurd e)
lower_iff (a ∷ s1) (b ∷ s2) = (
  λ e.
      let (p, q) = cons-inj (fold_case a) (fold_case b) (lower s1) (lower s2) e in
      (fold_case-IsSameLetter a b p, (lower_iff s1 s2).0 q),
  λ h.
      ap (λ c. c ∷ lower s1) (IsSameLetter-fold_case a b h.0)
      ∙ ap (◌∷◌ (fold_case b)) ((lower_iff s1 s2).1 h.1),
)

strncasecmp_sound :
    (s1 s2 : Bytes)
    → All IsChar s1
    → All IsChar s2
    → yaz_strncasecmp s1 s2 (suc (length s1)) ≡ some (pos 0)
    → lower s1 ≡ lower s2
unfolding yaz_strncasecmp difference
strncasecmp_sound [] [] h k e = refl
strncasecmp_sound [] (b ∷ s2) h k e = absurd (ground (arith, fold_case_pos b k.0))
strncasecmp_sound (a ∷ s1) [] h k e = absurd (ground (arith, fold_case_pos a h.0))
strncasecmp_sound (a ∷ s1) (b ∷ s2) h k e = elim (Bool-cases (fold_case a == fold_case b)) [
  | inl t ↦
      ap (λ c. c ∷ lower s1) ((==_iff (fold_case a) (fold_case b)).0 t)
      ∙ ap (◌∷◌ (fold_case b)) (strncasecmp_sound s1 s2 h.1 k.1 (ground arith))
  | inr f ↦ absurd (ground arith)
]

strncasecmp_complete :
    (s1 s2 : Bytes) → lower s1 ≡ lower s2 → yaz_strncasecmp s1 s2 (suc (length s1)) ≡ some (pos 0)
unfolding yaz_strncasecmp
strncasecmp_complete [] [] e = refl
strncasecmp_complete [] (b ∷ s2) e = absurd (no_nil (fold_case b) (lower s2) e)
strncasecmp_complete (a ∷ s1) [] e = absurd (no_nil (fold_case a) (lower s1) (sym e))
strncasecmp_complete (a ∷ s1) (b ∷ s2) e =
    let (p, q) = cons-inj (fold_case a) (fold_case b) (lower s1) (lower s2) e in
    ground (arith, strncasecmp_complete s1 s2 q)

-- `yaz_strcasecmp` of two strings is 0 exactly where they are equal but for the case of letters.
pub yaz_strcasecmp_iff :
    (s1 s2 : Bytes)
    → All IsChar s1
    → All IsChar s2
    → (yaz_strcasecmp s1 s2 ≡ some (pos 0)) ↔ IsSameText s1 s2
unfolding yaz_strcasecmp
yaz_strcasecmp_iff s1 s2 h k =
    let n : length s1 + 1 ≡ suc (length s1) = omega arith in
    rw n (
      λ e. (lower_iff s1 s2).0 (strncasecmp_sound s1 s2 h k e),
      λ e. strncasecmp_complete s1 s2 ((lower_iff s1 s2).1 e),
    )

-- A character that `yaz_matchstr` takes literally.
abbrev pub IsPlain : ℕ → Type 0
IsPlain c = (c ≢ b'-') × (c ≢ b'.') × (c ≢ b'?')

match_round :
    (fuel a b : ℕ) (s1 s2 : Bytes)
    → IsPlain a
    → IsPlain b
    → match_loop (suc fuel) (a ∷ s1) (b ∷ s2)
      ≡ (if fold_case a == fold_case b then match_loop fuel s1 s2 else true)
unfolding match_loop match_folded
match_round fuel a b s1 s2 h k = ground arith

matchstr_sound :
    (s1 s2 : Bytes)
    → All IsPlain s1
    → All IsPlain s2
    → match_loop (length s1) s1 s2 ≡ false
    → lower s1 ≡ lower s2
matchstr_sound [] [] h k e = refl
matchstr_sound [] (b ∷ s2) h k e = absurd (unfold match_loop in ground arith)
matchstr_sound (a ∷ s1) [] h k e = absurd (unfold match_loop in ground arith)
matchstr_sound (a ∷ s1) (b ∷ s2) h k e = elim (Bool-cases (fold_case a == fold_case b)) [
  | inl t ↦
      ap (λ c. c ∷ lower s1) ((==_iff (fold_case a) (fold_case b)).0 t)
      ∙ ap (◌∷◌ (fold_case b))
          (matchstr_sound s1 s2 h.1 k.1 (ground (arith, match_round (length s1) a b s1 s2 h.0 k.0)))
  | inr f ↦ absurd (ground (arith, match_round (length s1) a b s1 s2 h.0 k.0))
]

matchstr_complete :
    (s1 s2 : Bytes)
    → All IsPlain s1
    → All IsPlain s2
    → lower s1 ≡ lower s2
    → match_loop (length s1) s1 s2 ≡ false
matchstr_complete [] [] h k e = unfold match_loop in refl
matchstr_complete [] (b ∷ s2) h k e = absurd (no_nil (fold_case b) (lower s2) e)
matchstr_complete (a ∷ s1) [] h k e = absurd (no_nil (fold_case a) (lower s1) (sym e))
matchstr_complete (a ∷ s1) (b ∷ s2) h k e =
    let (p, q) = cons-inj (fold_case a) (fold_case b) (lower s1) (lower s2) e in
    ground (arith, matchstr_complete s1 s2 h.1 k.1 q, match_round (length s1) a b s1 s2 h.0 k.0)

-- For two strings without hyphens, periods and question marks, `yaz_matchstr` reports a match
-- exactly where they are equal but for the case of letters.
pub yaz_matchstr_iff :
    (s1 s2 : Bytes)
    → All IsPlain s1
    → All IsPlain s2
    → (yaz_matchstr s1 s2 ≡ false) ↔ IsSameText s1 s2
unfolding yaz_matchstr
yaz_matchstr_iff s1 s2 h k = (
  λ e. (lower_iff s1 s2).0 (matchstr_sound s1 s2 h k e),
  λ e. matchstr_complete s1 s2 h k ((lower_iff s1 s2).1 e),
)
