-- ===== src/Wrbuf/Escape.antt =====
-- The escaped text that `wrbuf_xmlputs_n` of src/wrbuf.c writes.
use yaz.Prelude.{
  ℕ, zero, suc, ◌≤◌, ◌<◌, ◌≡◌, ◌≢◌, ◌∙◌, ap, sym, refl, [], ◌∷◌, ◌++◌, append_assoc, append-nil,
  Bytes, length, length-append, All, All-append, Option, none, some, codes, inl, inr, Bool, not,
  leb, ◌||◌, true, Bool-cases, ◌==◌, if◌then◌else◌, arith,
}
use yaz.Wrbuf.{Wrbuf, is_dropped, xml_putc, wrbuf_xmlputs_n}
use yaz.Wrbuf.Growth.{wrbuf_putc-buf, wrbuf_write-buf}

-- The text for one character.
abbrev pub xml_char : ℕ → Bytes
xml_char c =
    if c == b'<'
    then codes "&lt;"
    else if c == b'>'
    then codes "&gt;"
    else if c == b'&'
    then codes "&amp;"
    else if c == b'"'
    then codes "&quot;"
    else if c == 39
    then codes "&apos;"
    else c ∷ []

-- A byte of a character that XML 1.0 allows: tab, line feed, carriage return, or any from the space on.
abbrev pub is_allowed : ℕ → Bool
is_allowed c = leb 32 c || c == 9 || c == 10 || c == 13

is_dropped_lem : (c : ℕ) → is_dropped c ≡ not (is_allowed c)
unfolding is_dropped
is_dropped_lem c = ground arith

abbrev pub xml_text : Bytes → Bytes
xml_text [] = []
xml_text (c ∷ cs) = (if is_allowed c then xml_char c else []) ++ xml_text cs

-- The characters that XML allows.
abbrev pub kept : Bytes → Bytes
kept [] = []
kept (c ∷ cs) = (if is_allowed c then c ∷ [] else []) ++ kept cs

xml_putc-buf : (c : ℕ) (b : Wrbuf) → (xml_putc c b).buf ≡ b.buf ++ xml_char c
unfolding xml_putc
xml_putc-buf c b = ground (
  arith,
  wrbuf_write-buf (codes "&lt;") b,
  wrbuf_write-buf (codes "&gt;") b,
  wrbuf_write-buf (codes "&amp;") b,
  wrbuf_write-buf (codes "&quot;") b,
  wrbuf_write-buf (codes "&apos;") b,
  wrbuf_putc-buf c b,
)

wrbuf_xmlputs_n-buf : (cs : Bytes) (b : Wrbuf) → (wrbuf_xmlputs_n cs b).buf ≡ b.buf ++ xml_text cs
unfolding wrbuf_xmlputs_n
wrbuf_xmlputs_n-buf [] b = sym (append-nil b.buf)
wrbuf_xmlputs_n-buf (c ∷ cs) b =
    wrbuf_xmlputs_n-buf cs (if is_dropped c then b else xml_putc c b)
    ∙ ground
        (arith, is_dropped_lem c, xml_putc-buf c b, append_assoc b.buf (xml_char c) (xml_text cs))

-- A reader of the five entities: an ampersand that begins none of them stands for itself.
abbrev pub after : Bytes → Bytes → Option Bytes
after [] cs = some cs
after (p ∷ ps) [] = none
after (p ∷ ps) (c ∷ cs) = if c == p then after ps cs else none

abbrev pub entity : Bytes → Option (ℕ × Bytes)
entity cs = elim (after (codes "lt;") cs) [
  | some rest ↦ some (b'<', rest)
  | none ↦ elim (after (codes "gt;") cs) [
    | some rest ↦ some (b'>', rest)
    | none ↦ elim (after (codes "amp;") cs) [
      | some rest ↦ some (b'&', rest)
      | none ↦ elim (after (codes "quot;") cs) [
        | some rest ↦ some (b'"', rest)
        | none ↦ elim (after (codes "apos;") cs) [ some rest ↦ some (39, rest) | none ↦ none ]
      ]
    ]
  ]
]

-- Each round takes a character at least, so the length of the text is enough fuel.
unfoldable pub unescape : ℕ → Bytes → Bytes
unescape zero cs = []
unescape (suc fuel) [] = []
unescape (suc fuel) (c ∷ cs) =
    let plain : Bytes = c ∷ unescape fuel cs in
    let escaped : Bytes = elim (entity cs) [
      | some (d, rest) ↦ d ∷ unescape fuel rest
      | none ↦ c ∷ unescape fuel cs
    ] in
    if c == b'&' then escaped else plain

unescape_char :
    (fuel c : ℕ) (rest : Bytes) → unescape (suc fuel) (xml_char c ++ rest) ≡ c ∷ unescape fuel rest
unfolding unescape
unescape_char fuel c rest = ground arith

xml_char-ne-nil : (c : ℕ) → 0 < length (xml_char c)
xml_char-ne-nil c = ground arith

unescape-xml_text :
    (fuel : ℕ) (cs : Bytes) → length (xml_text cs) ≤ fuel → unescape fuel (xml_text cs) ≡ kept cs
unescape-xml_text zero [] h = unfold unescape in refl
unescape-xml_text (suc fuel) [] h = unfold unescape in refl
unescape-xml_text zero (c ∷ cs) h = elim (Bool-cases (is_allowed c)) [
  | inr e ↦ rw e (unescape-xml_text zero cs (rw e at h))
  | inl e ↦
      absurd (omega (arith, rw e at h, length-append (xml_char c) (xml_text cs), xml_char-ne-nil c))
]
unescape-xml_text (suc fuel) (c ∷ cs) h = elim (Bool-cases (is_allowed c)) [
  | inr e ↦ rw e (unescape-xml_text (suc fuel) cs (rw e at h))
  | inl e ↦ rw e (
      unescape_char fuel c (xml_text cs)
      ∙ ap (◌∷◌ c) (
          unescape-xml_text fuel cs (
            omega (arith, rw e at h, length-append (xml_char c) (xml_text cs), xml_char-ne-nil c))))
]

-- No character of the text is one that XML reserves, except for the ampersands of the entities.
abbrev pub IsXmlSafe : ℕ → Type 0
IsXmlSafe c = (c ≢ b'<') × (c ≢ b'>') × (c ≢ b'"') × (c ≢ 39) × (is_allowed c ≡ true)

xml_char-IsXmlSafe : (c : ℕ) → is_allowed c ≡ true → All IsXmlSafe (xml_char c)
xml_char-IsXmlSafe c h = ground arith

xml_text-IsXmlSafe : (cs : Bytes) → All IsXmlSafe (xml_text cs)
xml_text-IsXmlSafe [] = tt
xml_text-IsXmlSafe (c ∷ cs) = elim (Bool-cases (is_allowed c)) [
  | inr e ↦ rw e (xml_text-IsXmlSafe cs)
  | inl e ↦ rw e (
      All-append IsXmlSafe (xml_char c) (xml_text cs) (xml_char-IsXmlSafe c e)
        (xml_text-IsXmlSafe cs))
]

-- `wrbuf_xmlputs_n` appends a text that holds no `<`, `>`, quote or forbidden control character, and
-- that reads back, its entities replaced, as the characters given without the forbidden ones.
pub wrbuf_xmlputs_n_lem :
    (cs : Bytes) (b : Wrbuf)
    → (text : Bytes) × ((wrbuf_xmlputs_n cs b).buf ≡ b.buf ++ text)
      × All IsXmlSafe text
      × (unescape (length text) text ≡ kept cs)
wrbuf_xmlputs_n_lem cs b = (
  xml_text cs,
  wrbuf_xmlputs_n-buf cs b,
  xml_text-IsXmlSafe cs,
  unescape-xml_text (length (xml_text cs)) cs (omega arith),
)
