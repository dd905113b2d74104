-- ===== src/Json/Blank.antt =====
-- White space before a token: `look_ch` of src/json.c passes it.
use yaz.Prelude.{ℕ, ◌≡◌, refl, true, [], ◌∷◌, ◌++◌, Bytes, All, Bool-cases, inl, inr}
use yaz.Json.State.{is_space, skip_space}

abbrev pub IsSpace : ℕ → Type 0
IsSpace c = is_space c ≡ true

abbrev pub IsBlank : Bytes → Type 0
IsBlank cs = All IsSpace cs

pub skip_space-append : (ws cs : Bytes) → IsBlank ws → skip_space (ws ++ cs) ≡ skip_space cs
unfolding skip_space
skip_space-append [] cs h = refl
skip_space-append (w ∷ ws) cs h = rw h.0 (skip_space-append ws cs h.1)

pub skip_space_self : (cs : Bytes) → skip_space (skip_space cs) ≡ skip_space cs
unfolding skip_space
skip_space_self [] = refl
skip_space_self (c ∷ cs) = elim (Bool-cases (is_space c)) [
  | inl e ↦ rw e (skip_space_self cs)
  | inr e ↦ rw (e, skip_space) (rw e refl)
]
