-- ===== src/Glob.antt =====
-- Glob patterns: src/match_glob.c. A string is the list of its characters, which are not 0; `tolower`
-- is the C library's and a parameter.
pub mod Matches
use yaz.Prelude.{ℕ, Bool, true, false, [], ◌∷◌, Bytes, ◌==◌, if◌then◌else◌}

-- The do-while loop of the star: the text, and every suffix of it down to the empty one.
unfoldable pub any_suffix : (Bytes → Bool) → Bytes → Bool
any_suffix f [] = if f [] then true else false
any_suffix f (c ∷ text) = let rest = any_suffix f text in if f (c ∷ text) then true else rest

module _ (tolower : ℕ → ℕ) where
  -- The comparison of one character of the glob, which is no star, with one of the text.
  unfoldable pub fits : Bool → ℕ → ℕ → Bool
  fits case_insensitive g t =
      if g == b'?' then true else if case_insensitive then tolower g == tolower t else g == t

  unfoldable pub yaz_match_glob2 : Bytes → Bytes → Bool → Bool
  unfolding any_suffix
  yaz_match_glob2 [] [] ci = true
  yaz_match_glob2 [] (t ∷ text) ci = false
  yaz_match_glob2 (g ∷ glob) [] ci =
      let star = any_suffix (λ xs. yaz_match_glob2 glob xs ci) [] in
      if g == b'*' then star else false
  yaz_match_glob2 (g ∷ glob) (t ∷ text) ci =
      let star = any_suffix (λ xs. yaz_match_glob2 glob xs ci) (t ∷ text) in
      let next = yaz_match_glob2 glob text ci in
      if g == b'*' then star else if fits ci g t then next else false

  unfoldable pub yaz_match_glob : Bytes → Bytes → Bool
  yaz_match_glob glob text = yaz_match_glob2 glob text false
