-- ===== src/Json/Strings.antt =====
-- A string that `wrbuf_json_write` of src/wrbuf.c escapes is read back by `json_parse_string`.
use yaz.Prelude.{
  ℕ, zero, suc, ◌/◌, ◌%◌, ◌≤◌, ◌<◌, ◌≡◌, ◌∙◌, ap, sym, refl, false, ◌&&◌, [], ◌∷◌, ◌++◌,
  append_assoc, append-nil, Bytes, none, some, length, length-append, get_or, All, ltb, ◌==◌,
  if◌then◌else◌, arith,
}
use yaz.Utf8.{yaz_write_utf8_char}
use yaz.Wrbuf.{Wrbuf, lower_hex, json_control, json_putc, wrbuf_json_write, wrbuf_putc}
use yaz.Wrbuf.Growth.{wrbuf_putc-buf, wrbuf_write-buf}
use yaz.Json.{Library}
use yaz.Json.Scan.{unicode_out, unicode_scanned, escape_of, ended, put_before, string_round}
use yaz.Json.Parser.{json_one_char, string_body}

-- The text for one character.
abbrev pub json_char : ℕ → Bytes
json_char c =
    if ltb 0 c && ltb c 32
    then b'\\' ∷ json_control c
    else if c == b'"'
    then b'\\' ∷ b'"' ∷ []
    else if c == b'\\'
    then b'\\' ∷ b'\\' ∷ []
    else c ∷ []

abbrev pub json_text : Bytes → Bytes
json_text [] = []
json_text (c ∷ cs) = json_char c ++ json_text cs

json_putc-buf : (c : ℕ) (b : Wrbuf) → (json_putc c b).buf ≡ b.buf ++ json_char c
unfolding json_putc
json_putc-buf c b = ground (
  arith,
  wrbuf_write-buf (json_control c) (wrbuf_putc b'\\' b),
  wrbuf_putc-buf b'\\' b,
  wrbuf_putc-buf b'"' (wrbuf_putc b'\\' b),
  wrbuf_putc-buf b'\\' (wrbuf_putc b'\\' b),
  wrbuf_putc-buf c b,
  append_assoc b.buf (b'\\' ∷ []) (json_control c),
  append_assoc b.buf (b'\\' ∷ []) (b'"' ∷ []),
  append_assoc b.buf (b'\\' ∷ []) (b'\\' ∷ []),
)

pub wrbuf_json_write-buf :
    (s : Bytes) (b : Wrbuf) → (wrbuf_json_write s b).buf ≡ b.buf ++ json_text s
unfolding wrbuf_json_write
wrbuf_json_write-buf [] b = sym (append-nil b.buf)
wrbuf_json_write-buf (c ∷ cs) b =
    wrbuf_json_write-buf cs (json_putc c b)
    ∙ ap (λ xs. xs ++ json_text cs) (json_putc-buf c b)
    ∙ append_assoc b.buf (json_char c) (json_text cs)

-- The characters of a C string.
abbrev pub IsChar : ℕ → Type 0
IsChar c = (0 < c) × (c < 256)

-- The four digits of `%04x`.
abbrev pub hex4 : ℕ → Bytes
hex4 code =
    lower_hex (code / 4096 % 16)
    ∷ lower_hex (code / 256 % 16)
    ∷ lower_hex (code / 16 % 16)
    ∷ lower_hex (code % 16)
    ∷ []

-- `sscanf` with "%4x%n" reads four hexadecimal digits and counts them.
abbrev pub ScansHex : Library → Type 0
ScansHex lib =
    (code : ℕ) (rest : Bytes) → code < 65536 → lib.scan_hex4 (hex4 code ++ rest) ≡ (code, 4)

hex4-small : (c : ℕ) → c < 32 → hex4 c ≡ b'0' ∷ b'0' ∷ lower_hex (c / 16) ∷ lower_hex (c % 16) ∷ []
hex4-small c h = ground arith

write_small : (c : ℕ) → c < 32 → yaz_write_utf8_char c 6 ≡ some (c ∷ [])
unfolding yaz_write_utf8_char
write_small c h = ground arith

escape_of-unicode :
    (lib : Library) (c : ℕ) (rest : Bytes)
    → ScansHex lib
    → c < 32
    → let cs = b'0' ∷ b'0' ∷ lower_hex (c / 16) ∷ lower_hex (c % 16) ∷ rest in
      escape_of none (lib.scan_hex4 cs) b'u' cs ≡ some (c ∷ [], rest)
escape_of-unicode lib c rest scans h =
    let cs = b'0' ∷ b'0' ∷ lower_hex (c / 16) ∷ lower_hex (c % 16) ∷ rest in
    let scanned : lib.scan_hex4 cs ≡ (c, 4) =
      ap (λ xs. lib.scan_hex4 (xs ++ rest)) (sym (hex4-small c h)) ∙ scans c rest (omega arith) in
    rw scanned (
      digits_positive
      ∙ ap (λ out. unicode_out out cs) (write_small c h)
      ∙ unfold unicode_out in refl)
  where
    digits_positive :
        let cs = b'0' ∷ b'0' ∷ lower_hex (c / 16) ∷ lower_hex (c % 16) ∷ rest in
        escape_of none (c, 4) b'u' cs ≡ unicode_out (yaz_write_utf8_char c 6) cs
    digits_positive = unfold escape_of unicode_scanned in ground arith

one_char-control :
    (lib : Library) (c : ℕ) (rest : Bytes)
    → ScansHex lib
    → c < 32
    → json_one_char lib (b'\\' ∷ (json_control c ++ rest)) ≡ some (c ∷ [], rest)
unfolding json_one_char
one_char-control lib c rest scans h = ground (arith, escape_of-unicode lib c rest scans h)

one_char-json_char :
    (lib : Library) (c : ℕ) (rest : Bytes)
    → ScansHex lib
    → IsChar c
    → json_one_char lib (json_char c ++ rest) ≡ some (c ∷ [], rest)
unfolding json_one_char escape_of
one_char-json_char lib c [] scans h = ground (arith, one_char-control lib c [] scans)
one_char-json_char lib c (d ∷ rest) scans h =
    ground (arith, one_char-control lib c (d ∷ rest) scans)

json_char_start :
    (c : ℕ) → IsChar c → (1 ≤ length (json_char c)) × ((get_or (json_char c) 0 0 == b'"') ≡ false)
json_char_start c h = (ground arith, ground arith)

body_round :
    (lib : Library) (fuel c : ℕ) (rest : Bytes)
    → ScansHex lib
    → IsChar c
    → string_body lib (suc fuel) (json_char c ++ rest)
      ≡ put_before (c ∷ []) (string_body lib fuel rest)
body_round lib fuel c rest scans h =
    go (json_char c) (json_char_start c h).0 (json_char_start c h).1
      (one_char-json_char lib c rest scans h)
  where
    go :
        (cs : Bytes)
        → 1 ≤ length cs
        → (get_or cs 0 0 == b'"') ≡ false
        → json_one_char lib (cs ++ rest) ≡ some (c ∷ [], rest)
        → string_body lib (suc fuel) (cs ++ rest) ≡ put_before (c ∷ []) (string_body lib fuel rest)
    go [] n q e = absurd (omega arith)
    go (d ∷ ds) n q e =
        unfold string_body string_round in rw q (ap (string_round (string_body lib fuel)) e)

-- The text of a string, with the closing quote behind it.
pub string_body-json_text :
    (lib : Library) (fuel : ℕ) (s rest : Bytes)
    → ScansHex lib
    → All IsChar s
    → length (json_text s) < fuel
    → string_body lib fuel (json_text s ++ b'"' ∷ rest) ≡ ended s rest
string_body-json_text lib zero s rest scans h f = absurd (omega arith)
string_body-json_text lib (suc fuel) [] rest scans h f = unfold string_body in refl
string_body-json_text lib (suc fuel) (c ∷ s) rest scans h f =
    ap (string_body lib (suc fuel)) (append_assoc (json_char c) (json_text s) (b'"' ∷ rest))
    ∙ body_round lib fuel c (json_text s ++ b'"' ∷ rest) scans h.0
    ∙ ap (put_before (c ∷ [])) (
        string_body-json_text lib fuel s rest scans h.1
          (omega (arith, length-append (json_char c) (json_text s), json_char_start c h.0)))
    ∙ unfold put_before in refl
