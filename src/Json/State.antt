-- ===== src/Json/State.antt =====
-- The state of the parser of src/json.c, what it returns, and its look at the next character.
use yaz.Prelude.{
  ℕ, Bool, ◌||◌, [], ◌∷◌, Bytes, Option, some, get_or, drop, ◌==◌, within, if◌then◌else◌,
}

-- The texts of `err_msg`.
pub data Message : Type 0 where
  string_expected invalid_character missing_quote bad_number bad_token : Message
  bracket_expected brace_expected expecting_bracket missing_colon missing_brace too_much_nesting
        extra_characters :
      Message

-- `struct json_parser_s`: `cp` is the text from there on. `max_level` and the substitutions do not
-- change during a parse.
pub record Parser : Type 0 where
  pub cp : Bytes
  pub err_msg : Option Message
  pub parse_level : ℕ

abbrev pub max_level : ℕ
max_level = 1000

-- A result and the parser behind it, or a null pointer. Nesting that goes beyond the fuel has no
-- counterpart in the program.
pub data Outcome {ℓ} (A : Type ℓ) : Type ℓ where
  done : A → Parser → Outcome A
  failed : Parser → Outcome A
  out_of_fuel : Outcome A

-- A null pointer is returned at once.
abbrev pub and_then {ℓ κ} :
    {A : Type ℓ} {B : Type κ} → Outcome A → (A → Parser → Outcome B) → Outcome B
and_then (done a p) f = f a p
and_then (failed p) f = failed p
and_then out_of_fuel f = out_of_fuel

abbrev pub error {ℓ} : {A : Type ℓ} → Message → Parser → Outcome A
error m p = failed (record p { err_msg = some m })

abbrev pub is_space : ℕ → Bool
is_space c = c == b' ' || c == 9 || c == 13 || c == 10

abbrev pub is_digit : ℕ → Bool
is_digit c = within b'0' b'9' c

unfoldable pub skip_space : Bytes → Bytes
skip_space [] = []
skip_space (c ∷ cs) = let rest = skip_space cs in if is_space c then rest else c ∷ cs

-- `*cp`, with 0 at the end.
abbrev pub peek : Bytes → ℕ
peek cs = get_or cs 0 0

abbrev pub look_ch : Parser → Parser
look_ch p = record p { cp = skip_space p.cp }

abbrev pub move_ch : Parser → Parser
move_ch p = record p { cp = drop 1 p.cp }
