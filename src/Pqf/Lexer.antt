-- ===== src/Pqf/Lexer.antt =====
-- The tokens of src/pquery.c, and the escapes within them.
use yaz.Prelude.{
  ℕ, zero, suc, ◌+◌, ◌-◌, Bool, true, false, not, ◌&&◌, ◌||◌, [], ◌∷◌, ◌++◌, Bytes, Option, none,
  some, length, take, drop, ltb, leb, ◌==◌, within, if◌then◌else◌, codes,
}
use yaz.Pqf.{Library}
use yaz.Pqf.State.{
  Parser, Look, at_end, and_token, or_token, not_token, attr_token, set_token, attrset_token,
  prox_token, term_token, text_token, is_digit, peek,
}

-- `!memcmp(a, b, n)` on the `n` bytes of both.
unfoldable pub same_bytes : Bytes → Bytes → Bool
same_bytes [] [] = true
same_bytes [] (d ∷ ds) = false
same_bytes (c ∷ cs) [] = false
same_bytes (c ∷ cs) (d ∷ ds) = c == d && same_bytes cs ds

unfoldable pub compare_term : Parser → Bytes → ℕ → Bool
unfolding same_bytes
compare_term p src off =
    p.lex_len == length src + off
    && same_bytes (take (length src - off) (drop off p.lex_buf)) (take (length src - off) src)

unfoldable pub skip_spaces : Bytes → Bytes
skip_spaces [] = []
skip_spaces (c ∷ cs) = let rest = skip_spaces cs in if c == b' ' then rest else c ∷ cs

-- `right_sep[sep_match - left_sep]`, where `strchr` finds the character in `left_sep`.
abbrev pub right_separator : ℕ → Option ℕ
right_separator c = if c == b'{' then some b'}' else if c == b'"' then some b'"' else none

-- The loop that ends a token at `sep_char`: how many characters it takes, and the text behind them. A
-- character behind a backslash is taken whatever it is, as `escaped` says.
unfoldable pub token_end : ℕ → Bool → Bytes → ℕ × Bytes
token_end sep escaped [] = (0, [])
token_end sep escaped (c ∷ cs) =
    let rest = token_end sep (not escaped && c == b'\\') cs in
    if not escaped && c == sep then (0, c ∷ cs) else (suc rest.0, rest.1)

-- `**qptr == li->escape_char && yaz_isdigit((*qptr)[1])`
unfoldable pub is_short_attr : Bytes → Bool
is_short_attr [] = false
is_short_attr (c ∷ []) = false
is_short_attr (c ∷ d ∷ cs) = c == b'@' && is_digit d

-- The chain of `compare_term` on a token that begins with the escape character.
unfoldable pub keyword : Parser → Look
unfolding compare_term
keyword p =
    if compare_term p (codes "and") 1
    then and_token
    else if compare_term p (codes "or") 1
    then or_token
    else if compare_term p (codes "not") 1
    then not_token
    else if compare_term p (codes "attr") 1
    then attr_token
    else if compare_term p (codes "set") 1
    then set_token
    else if compare_term p (codes "attrset") 1
    then attrset_token
    else if compare_term p (codes "prox") 1
    then prox_token
    else if compare_term p (codes "term") 1
    then term_token
    else text_token

abbrev pub word_token : ℕ → Bytes → ℕ × Bytes → Parser → Parser
word_token sep text (n, rest) p =
    let q = record p { lex_buf = text; lex_len = n; query_ptr = drop 1 rest } in
    if sep == b' ' && (leb 1 n && peek text == b'@')
    then record q { query_look = keyword q }
    else record q { query_look = text_token }

-- The token whose text begins here and ends at the separator.
unfoldable pub token_from : ℕ → Bytes → Parser → Parser
unfolding is_short_attr token_end keyword
token_from sep text p =
    if is_short_attr text
    then record p { lex_buf = text; lex_len = 1; query_ptr = drop 1 text; query_look = attr_token }
    else word_token sep text (token_end sep false text) p

abbrev pub token_start : Bytes → Parser → Parser
token_start [] p = record p { query_ptr = []; query_look = at_end }
token_start (c ∷ cs) p = elim (right_separator c) [
  | none ↦ token_from b' ' (c ∷ cs) p
  | some r ↦ token_from r cs p
]

-- `lex` with `query_token`.
unfoldable pub lex : Parser → Parser
unfolding skip_spaces token_from
lex p = token_start (skip_spaces p.query_ptr) p

abbrev pub is_octal_start : ℕ → Bool
is_octal_start c = within b'0' b'3' c

-- The `switch` of `escape_string` on what follows a backslash: what it puts out, and how many
-- characters it reads.
unfoldable pub escape_out : Library → Bytes → Bytes
escape_out lib [] = b'\\' ∷ []
escape_out lib (c ∷ cs) =
    if c == b't'
    then 9 ∷ []
    else if c == b'n'
    then 10 ∷ []
    else if c == b'r'
    then 13 ∷ []
    else if c == b'f'
    then 12 ∷ []
    else if c == b'x'
    then (if ltb 1 (length cs) then lib.scan_hex (take 2 cs) ∷ [] else [])
    else if is_octal_start c
    then (if ltb 1 (length cs) then lib.scan_octal (c ∷ take 2 cs) ∷ [] else [])
    else c ∷ []

unfoldable pub escape_taken : Bytes → ℕ
escape_taken [] = 0
escape_taken (c ∷ cs) = if (c == b'x' || is_octal_start c) && ltb 1 (length cs) then 3 else 1

-- The loop over the `len` characters at `in`; `skip` counts those that an escape has already read.
unfoldable pub escape_loop : Library → ℕ → Bytes → Bytes
unfolding escape_out escape_taken
escape_loop lib skip [] = []
escape_loop lib (suc skip) (c ∷ cs) = escape_loop lib skip cs
escape_loop lib zero (c ∷ cs) =
    let escape = c == b'\\' in
    let rest = escape_loop lib (if escape then escape_taken cs else 0) cs in
    if escape then escape_out lib cs ++ rest else c ∷ rest

unfoldable pub escape_string : Library → Bytes → Bytes
unfolding escape_loop
escape_string lib text = escape_loop lib 0 text
