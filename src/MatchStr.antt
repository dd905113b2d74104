-- ===== src/MatchStr.antt =====
-- String comparison: src/matchstr.c. A string is the list of its characters, which are not 0 and
-- below 256; reading past its end gives the terminator.
pub mod Equal
use yaz.Prelude.Int.{ℤ, pos, negsuc}
use yaz.Prelude.{
  ℕ, zero, suc, ◌+◌, ◌-◌, Bool, true, false, [], ◌∷◌, Bytes, Option, none, some, length, ltb, leb,
  ◌==◌, ◌||◌, within, if◌then◌else◌,
}

-- `yaz_tolower` of an upper case letter, and every other character as it is.
unfoldable pub fold_case : ℕ → ℕ
fold_case c = if within b'A' b'Z' c then c + 32 else c

-- `c1 - c2`
unfoldable pub difference : ℕ → ℕ → ℤ
difference a b = if leb b a then pos (a - b) else negsuc (b - a - 1)

-- `none` where it reads behind the terminators of both strings.
unfoldable pub yaz_strncasecmp : Bytes → Bytes → ℕ → Option ℤ
unfolding difference fold_case
yaz_strncasecmp s1 s2 zero = some (pos 0)
yaz_strncasecmp [] [] (suc zero) = some (pos 0)
yaz_strncasecmp [] [] (suc (suc n)) = none
yaz_strncasecmp (a ∷ s1) [] (suc n) = some (difference (fold_case a) 0)
yaz_strncasecmp [] (b ∷ s2) (suc n) = some (difference 0 (fold_case b))
yaz_strncasecmp (a ∷ s1) (b ∷ s2) (suc n) =
    let rest = yaz_strncasecmp s1 s2 n in
    if fold_case a == fold_case b then rest else some (difference (fold_case a) (fold_case b))

unfoldable pub yaz_strcasecmp : Bytes → Bytes → Option ℤ
unfolding yaz_strncasecmp
yaz_strcasecmp s1 s2 = yaz_strncasecmp s1 s2 (length s1 + 1)

-- `*s1 || *s2`
abbrev pub remains : Bytes → Bytes → Bool
remains [] [] = false
remains _ _ = true

abbrev pub skip_dash : Bytes → Bytes
skip_dash [] = []
skip_dash (c ∷ cs) = if c == b'-' then cs else c ∷ cs

-- The body of the loop behind the dashes.
unfoldable pub match_folded : (Bytes → Bytes → Bool) → Bytes → Bytes → Bool
unfolding fold_case
match_folded again [] s2 = remains [] s2
match_folded again (a ∷ s1) [] = true
match_folded again (a ∷ s1) (b ∷ s2) =
    let rest = again s1 s2 in if b == b'.' || fold_case a == fold_case b then rest else true

-- Each round that goes on takes a character of `s1` at least.
unfoldable pub match_loop : ℕ → Bytes → Bytes → Bool
unfolding match_folded
match_loop zero s1 s2 = remains s1 s2
match_loop (suc fuel) [] s2 = remains [] s2
match_loop (suc fuel) (a ∷ s1) [] = true
match_loop (suc fuel) (a ∷ s1) (b ∷ s2) =
    let rest = match_folded (match_loop fuel) (skip_dash (a ∷ s1)) (skip_dash (b ∷ s2)) in
    if b == b'?' then false else rest

-- `false` for a match.
unfoldable pub yaz_matchstr : Bytes → Bytes → Bool
unfolding match_loop
yaz_matchstr s1 s2 = match_loop (length s1) s1 s2
