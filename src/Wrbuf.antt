-- ===== src/Wrbuf.antt =====
-- The growing buffer WRBUF: src/wrbuf.c and the macro `wrbuf_putc` of src/yaz/wrbuf.h.
pub mod Growth
pub mod Escape
use yaz.Prelude.{
  ℕ, zero, suc, ◌+◌, ◌-◌, ◌/◌, ◌%◌, Bool, true, false, not, ◌&&◌, ◌||◌, [], ◌∷◌, ◌++◌, Bytes,
  length, take, drop, leb, ltb, ◌==◌, if◌then◌else◌, within, codes,
}

-- `buf` holds the bytes below `pos`, which is its length. `size + 1` bytes are allocated.
pub record Wrbuf : Type 0 where
  pub buf : Bytes
  pub size : ℕ

unfoldable pub wrbuf_grow : ℕ → Wrbuf → Wrbuf
wrbuf_grow minsize b =
    let start = if b.size == 0 then 1024 else b.size in
    let togrow = if ltb start minsize then minsize else start in record b { size = b.size + togrow }

unfoldable pub wrbuf_alloc : Wrbuf
unfolding wrbuf_grow
wrbuf_alloc = wrbuf_grow 1 (record { buf = []; size = 0 })

unfoldable pub wrbuf_rewind : Wrbuf → Wrbuf
wrbuf_rewind b = record b { buf = [] }

abbrev append_bytes : Bytes → Wrbuf → Wrbuf
append_bytes cs b = record b { buf = b.buf ++ cs }

unfoldable pub wrbuf_putc : ℕ → Wrbuf → Wrbuf
unfolding wrbuf_grow
wrbuf_putc c b = append_bytes (c ∷ []) (if leb b.size (length b.buf) then wrbuf_grow 1 b else b)

unfoldable pub wrbuf_write : Bytes → Wrbuf → Wrbuf
unfolding wrbuf_grow
wrbuf_write [] b = b
wrbuf_write (c ∷ cs) b =
    let n = length (c ∷ cs) in
    append_bytes (c ∷ cs) (if leb b.size (length b.buf + n) then wrbuf_grow n b else b)

-- `memmove` of the bytes from `pos` on, and the copy before them.
unfoldable pub wrbuf_insert : ℕ → Bytes → Wrbuf → Wrbuf
unfolding wrbuf_grow
wrbuf_insert pos [] b = b
wrbuf_insert pos (c ∷ cs) b =
    let n = length (c ∷ cs) in
    let grown = if leb b.size (length b.buf + n) then wrbuf_grow n b else b in
    if ltb (length b.buf) pos
    then b
    else record grown { buf = take pos b.buf ++ ((c ∷ cs) ++ drop pos b.buf) }

unfoldable pub wrbuf_puts_replace_char : ℕ → ℕ → Bytes → Wrbuf → Wrbuf
wrbuf_puts_replace_char from to [] b = b
wrbuf_puts_replace_char from to (c ∷ cs) b =
    wrbuf_puts_replace_char from to cs (wrbuf_putc (if c == from then to else c) b)

-- The spaces at the end, counted from the last byte; the list is the buffer reversed.
unfoldable pub strip_spaces : Bytes → Bytes
strip_spaces [] = []
strip_spaces (c ∷ cs) = let rest = strip_spaces cs in if c == b' ' then rest else c ∷ cs

unfoldable pub reverse_onto : Bytes → Bytes → Bytes
reverse_onto [] out = out
reverse_onto (c ∷ cs) out = reverse_onto cs (c ∷ out)

unfoldable pub wrbuf_chop_right : Wrbuf → Wrbuf
unfolding strip_spaces reverse_onto
wrbuf_chop_right b = record b { buf = reverse_onto (strip_spaces (reverse_onto b.buf [])) [] }

unfoldable pub wrbuf_cut_right : ℕ → Wrbuf → Wrbuf
wrbuf_cut_right no_to_remove b =
    let n = if ltb (length b.buf) no_to_remove then length b.buf else no_to_remove in
    record b { buf = take (length b.buf - n) b.buf }

-- A control character that XML 1.0 does not allow; a byte from 128 on is negative as a `char`.
unfoldable pub is_dropped : ℕ → Bool
is_dropped c = leb c 31 && not (c == 9) && not (c == 10) && not (c == 13)

-- The `switch` of `wrbuf_xmlputs_n`.
unfoldable pub xml_putc : ℕ → Wrbuf → Wrbuf
xml_putc c b =
    if c == b'<'
    then wrbuf_write (codes "&lt;") b
    else if c == b'>'
    then wrbuf_write (codes "&gt;") b
    else if c == b'&'
    then wrbuf_write (codes "&amp;") b
    else if c == b'"'
    then wrbuf_write (codes "&quot;") b
    else if c == 39
    then wrbuf_write (codes "&apos;") b
    else wrbuf_putc c b

unfoldable pub wrbuf_xmlputs_n : Bytes → Wrbuf → Wrbuf
wrbuf_xmlputs_n [] b = b
wrbuf_xmlputs_n (c ∷ cs) b = wrbuf_xmlputs_n cs (if is_dropped c then b else xml_putc c b)

unfoldable pub wrbuf_xml_strip : Bytes → Wrbuf → Wrbuf
wrbuf_xml_strip [] b = b
wrbuf_xml_strip (c ∷ cs) b = wrbuf_xml_strip cs (if is_dropped c then b else wrbuf_putc c b)

-- A digit of `%02X`, and of `%04x` for a byte below 32.
abbrev pub upper_hex : ℕ → ℕ
upper_hex d = if ltb d 10 then d + b'0' else d - 10 + b'A'

abbrev pub lower_hex : ℕ → ℕ
lower_hex d = if ltb d 10 then d + b'0' else d - 10 + b'a'

unfoldable pub wrbuf_write_escaped : Bytes → Wrbuf → Wrbuf
wrbuf_write_escaped [] b = b
wrbuf_write_escaped (c ∷ cs) b = wrbuf_write_escaped cs (
    if ltb c b' ' || ltb 126 c
    then wrbuf_write (b'\\' ∷ b'x' ∷ upper_hex (c / 16) ∷ upper_hex (c % 16) ∷ []) b
    else wrbuf_putc c b)

-- The `switch` of `wrbuf_json_write`, for a control character.
abbrev pub json_control : ℕ → Bytes
json_control c =
    if c == 8
    then b'b' ∷ []
    else if c == 12
    then b'f' ∷ []
    else if c == 10
    then b'n' ∷ []
    else if c == 13
    then b'r' ∷ []
    else if c == 9
    then b't' ∷ []
    else b'u' ∷ b'0' ∷ b'0' ∷ lower_hex (c / 16) ∷ lower_hex (c % 16) ∷ []

unfoldable pub json_putc : ℕ → Wrbuf → Wrbuf
json_putc c b =
    if ltb 0 c && ltb c 32
    then wrbuf_write (json_control c) (wrbuf_putc b'\\' b)
    else if c == b'"'
    then wrbuf_putc b'"' (wrbuf_putc b'\\' b)
    else if c == b'\\'
    then wrbuf_putc b'\\' (wrbuf_putc b'\\' b)
    else wrbuf_putc c b

unfoldable pub wrbuf_json_write : Bytes → Wrbuf → Wrbuf
wrbuf_json_write [] b = b
wrbuf_json_write (c ∷ cs) b = wrbuf_json_write cs (json_putc c b)
