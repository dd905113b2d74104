-- ===== src/Json/Scan.antt =====
-- The scanning of strings, numbers, words and substitutions in src/json.c.
use yaz.Prelude.{
  ℕ, zero, suc, ◌+◌, ◌-◌, ◌*◌, ◌%◌, ◌^◌, Bool, true, false, ◌&&◌, ◌||◌, not, [], ◌∷◌, ◌++◌, Bytes,
  List, Option, none, some, length, get_or, drop, ltb, ◌==◌, within, codes, bind, if◌then◌else◌,
}
use yaz.Utf8.{yaz_write_utf8_char}
use yaz.Json.{Node, number, true_node, false_node, null_node}
use yaz.Json.State.{
  Parser, Outcome, error, is_digit, invalid_character, missing_quote, bad_number, bad_token, done,
  failed,
}

-- The escapes of one letter; `none` goes on to `u`, or to the default.
abbrev pub letter_escape : ℕ → Option ℕ
letter_escape c =
    if c == b'"'
    then some b'"'
    else if c == b'\\'
    then some b'\\'
    else if c == b'/'
    then some b'/'
    else if c == b'b'
    then some 8
    else if c == b'f'
    then some 12
    else if c == b'n'
    then some 10
    else if c == b'r'
    then some 13
    else if c == b't'
    then some 9
    else none

-- `p[0][i] > 0` for a signed char.
abbrev pub is_positive : ℕ → Bool
is_positive c = ltb 0 c && ltb c 128

-- The bytes that `json_one_char` writes to `out`, and the text behind; `none` where it returns 0.
unfoldable pub unicode_out : Option Bytes → Bytes → Option (Bytes × Bytes)
unicode_out none cs = none
unicode_out (some out) cs = some (out, drop 4 cs)

unfoldable pub unicode_scanned : ℕ × ℕ → Bytes → Option (Bytes × Bytes)
unfolding unicode_out
unicode_scanned (code, no_read) cs =
    if no_read == 4 then unicode_out (yaz_write_utf8_char code 6) cs else none

unfoldable pub escape_of : Option ℕ → (ℕ × ℕ) → ℕ → Bytes → Option (Bytes × Bytes)
unfolding unicode_scanned
escape_of (some d) scanned c cs = some (d ∷ [], cs)
escape_of none scanned c cs =
    if c == b'u'
      && (is_positive (get_or cs 0 0)
          && (is_positive (get_or cs 1 0)
              && (is_positive (get_or cs 2 0) && is_positive (get_or cs 3 0))))
    then unicode_scanned scanned cs
    else none

-- What follows the closing quote, with the characters read before it.
pub data Body : Type 0 where
  ended : Bytes → Bytes → Body
  invalid missing : Body

unfoldable pub put_before : Bytes → Body → Body
put_before out (ended s rest) = ended (out ++ s) rest
put_before out invalid = invalid
put_before out missing = missing

unfoldable pub string_round : (Bytes → Body) → Option (Bytes × Bytes) → Body
unfolding put_before
string_round again none = invalid
string_round again (some (out, cs)) = put_before out (again cs)

unfoldable pub string_read : Parser → Body → Outcome Bytes
string_read p (ended s rest) = done s (record p { cp = rest })
string_read p invalid = error invalid_character p
string_read p missing = error missing_quote p

unfoldable pub skip_digits : Bytes → Bytes
skip_digits [] = []
skip_digits (c ∷ cs) = let rest = skip_digits cs in if is_digit c then rest else c ∷ cs

-- One digit and more, or `none`.
unfoldable pub digits_end : Bytes → Option Bytes
unfolding skip_digits
digits_end [] = none
digits_end (c ∷ cs) = if is_digit c then some (skip_digits cs) else none

unfoldable pub whole_end : Bytes → Option Bytes
unfolding digits_end
whole_end [] = none
whole_end (c ∷ cs) = if c == b'0' then some cs else digits_end (c ∷ cs)

unfoldable pub fraction_end : Bytes → Option Bytes
unfolding digits_end
fraction_end [] = some []
fraction_end (c ∷ cs) = if c == b'.' then digits_end cs else some (c ∷ cs)

abbrev pub skip_exponent_sign : Bytes → Bytes
skip_exponent_sign [] = []
skip_exponent_sign (c ∷ cs) = if c == b'+' || c == b'-' then cs else c ∷ cs

unfoldable pub exponent_end : Bytes → Option Bytes
unfolding digits_end
exponent_end [] = some []
exponent_end (c ∷ cs) =
    if c == b'e' || c == b'E' then digits_end (skip_exponent_sign cs) else some (c ∷ cs)

abbrev pub skip_minus : Bytes → Bytes
skip_minus [] = []
skip_minus (c ∷ cs) = if c == b'-' then cs else c ∷ cs

-- Where the number of the grammar ends, or `none` for "bad number".
unfoldable pub number_end : Bytes → Option Bytes
unfolding whole_end fraction_end exponent_end
number_end cs = bind (whole_end (skip_minus cs)) λ ds. bind (fraction_end ds) exponent_end

-- `endptr` must be past `p->cp` and equal to `cp`.
unfoldable pub number_read : Parser → Option Bytes → ℕ × ℕ → Outcome Node
number_read p none scanned = error bad_number p
number_read p (some rest) (v, used) =
    if used == 0 || not (used + length rest == length p.cp)
    then error bad_number p
    else done (number v) (record p { cp = rest })

-- Up to `n` letters, and the text behind.
unfoldable pub take_word : ℕ → Bytes → Bytes × Bytes
take_word zero cs = ([], cs)
take_word (suc n) [] = ([], [])
take_word (suc n) (c ∷ cs) =
    let (tok, rest) = take_word n cs in if within b'a' b'z' c then (c ∷ tok, rest) else ([], c ∷ cs)

-- `!strcmp(s, t)`
unfoldable pub same_text : Bytes → Bytes → Bool
same_text [] [] = true
same_text [] (d ∷ ds) = false
same_text (c ∷ cs) [] = false
same_text (c ∷ cs) (d ∷ ds) = let rest = same_text cs ds in if c == d then rest else false

unfoldable pub word_read : Parser → Bytes × Bytes → Outcome Node
unfolding same_text
word_read p (tok, rest) =
    let p' = record p { cp = rest } in
    if same_text tok (codes "true")
    then done true_node p'
    else if same_text tok (codes "false")
    then done false_node p'
    else if same_text tok (codes "null")
    then done null_node p'
    else error bad_token p'

-- The digits behind a percent sign. The `int` wraps here, as its bit pattern; C leaves the overflow
-- undefined.
unfoldable pub read_index : ℕ → Bytes → ℕ × Bytes
read_index idx [] = (idx, [])
read_index idx (c ∷ cs) =
    let more = read_index ((idx * 10 + (c - b'0')) % 2 ^ 32) cs in
    if is_digit c then more else (idx, c ∷ cs)

-- The list of `json_subst_info`; the node may be null.
abbrev pub Subst : Type 0
Subst = List (ℕ × Option Node)

-- `json_parser_subst`
unfoldable pub json_parser_subst : ℕ → Option Node → Subst → Subst
json_parser_subst idx n [] = (idx, n) ∷ []
json_parser_subst idx n ((i, m) ∷ sb) =
    let rest = json_parser_subst idx n sb in if i == idx then (i, n) ∷ sb else (i, m) ∷ rest

unfoldable pub find_subst : ℕ → Subst → Option (Option Node)
find_subst idx [] = none
find_subst idx ((i, n) ∷ sb) = let rest = find_subst idx sb in if i == idx then some n else rest

unfoldable pub subst_read : Parser → Option (Option Node) → Outcome Node
subst_read p none = error bad_token p
subst_read p (some none) = failed p
subst_read p (some (some n)) = done n p
