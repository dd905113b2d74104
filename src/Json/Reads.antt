-- ===== src/Json/Reads.antt =====
-- What the parser of src/json.c makes of the texts of strings, numbers and words.
use Prim.Native.Nat.{max}
use yaz.Prelude.{
  ℕ, zero, suc, ◌+◌, ◌≤◌, ◌<◌, ◌≡◌, ◌⊎◌, ◌∙◌, ap, refl, true, not, [], ◌∷◌, ◌++◌, append_assoc,
  Bytes, length, length-append, drop, All, ◌==◌, if◌then◌else◌, arith, codes,
}
use yaz.Json.{
  Library, Node, object, array, string, number, true_node, false_node, null_node, Members,
  no_members, member, Elements, no_elements, element,
}
use yaz.Json.State.{
  Parser, Outcome, done, error, is_digit, skip_space, peek, max_level, string_expected,
}
use yaz.Json.Scan.{Subst, take_word, word_read, string_read}
use yaz.Json.Parser.{
  string_body, json_parse_string, json_parse_number, string_node, value_at, json_parse_value,
}
use yaz.Json.Strings.{json_text, IsChar, ScansHex, string_body-json_text}
use yaz.Json.Numbers.{IsExact, Stops, json_parse_number-print, print_lg-start}

-- The levels of objects and arrays in a tree.
unfoldable mutual
  pub depth : Node → ℕ
  depth (object ms) = suc (depth_members ms)
  depth (array ns) = suc (depth_elements ns)
  depth (string s) = 0
  depth (number v) = 0
  depth true_node = 0
  depth false_node = 0
  depth null_node = 0

  pub depth_members : Members → ℕ
  depth_members no_members = 0
  depth_members (member s n ms) = max (depth n) (depth_members ms)

  pub depth_elements : Elements → ℕ
  depth_elements no_elements = 0
  depth_elements (element n ns) = max (depth n) (depth_elements ns)

-- The text of a string in its quotes.
abbrev pub quoted : Bytes → Bytes
quoted s = b'"' ∷ (json_text s ++ b'"' ∷ [])

module _ (lib : Library) (sb : Subst) where
  -- In front of the text, and any white space before it, the parser reads the node and stops behind it.
  abbrev pub ReadsValue : Node → Bytes → Type 0
  ReadsValue n text =
      (fuel : ℕ) (p : Parser) (rest : Bytes)
      → depth n < fuel
      → p.parse_level + depth n ≤ max_level
      → Stops rest
      → skip_space p.cp ≡ skip_space (text ++ rest)
      → json_parse_value lib sb fuel p ≡ done n (record p { cp = rest })

  pub value_here :
      (fuel : ℕ) (p : Parser) (cs : Bytes)
      → skip_space p.cp ≡ cs
      → json_parse_value lib sb (suc fuel) p
        ≡ value_at lib sb (json_parse_value lib sb fuel) (record p { cp = cs })
  unfolding json_parse_value
  value_here fuel p cs e =
      ap (λ xs. value_at lib sb (json_parse_value lib sb fuel) (record p { cp = xs })) e

  stop_word : (n : ℕ) (rest : Bytes) → Stops rest → take_word n rest ≡ ([], rest)
  unfolding take_word
  stop_word zero rest s = refl
  stop_word (suc n) [] s = refl
  stop_word (suc n) (c ∷ cs) s = ground arith

  -- A word of letters of which the first is not blank and begins nothing else.
  word_reads :
      (n : Node) (word : Bytes)
      → ((rest : Bytes) → skip_space (word ++ rest) ≡ word ++ rest)
      → ((rest : Bytes) (value : Parser → Outcome Node) (p : Parser)
          → Stops rest
          → value_at lib sb value (record p { cp = word ++ rest })
            ≡ done n (record p { cp = rest }))
      → ReadsValue n word
  word_reads n word blank reads zero p rest d l s e = absurd (omega arith)
  word_reads n word blank reads (suc fuel) p rest d l s e =
      value_here fuel p (word ++ rest) (e ∙ blank rest)
      ∙ reads rest (json_parse_value lib sb fuel) p s

  pub true_node-ReadsValue : ReadsValue true_node (codes "true")
  true_node-ReadsValue =
      word_reads true_node (codes "true") (λ rest. unfold skip_space in refl) read
    where
      read :
          (rest : Bytes) (value : Parser → Outcome Node) (p : Parser)
          → Stops rest
          → value_at lib sb value (record p { cp = codes "true" ++ rest })
            ≡ done true_node (record p { cp = rest })
      read rest value p s =
          unfold value_at word_read take_word in
          ap
            (λ r.
              word_read (record p { cp = codes "true" ++ rest })
                (b't' ∷ b'r' ∷ b'u' ∷ b'e' ∷ r.0, r.1))
            (stop_word 3 rest s)

  pub false_node-ReadsValue : ReadsValue false_node (codes "false")
  false_node-ReadsValue =
      word_reads false_node (codes "false") (λ rest. unfold skip_space in refl) read
    where
      read :
          (rest : Bytes) (value : Parser → Outcome Node) (p : Parser)
          → Stops rest
          → value_at lib sb value (record p { cp = codes "false" ++ rest })
            ≡ done false_node (record p { cp = rest })
      read rest value p s =
          unfold value_at word_read take_word in
          ap
            (λ r.
              word_read (record p { cp = codes "false" ++ rest })
                (b'f' ∷ b'a' ∷ b'l' ∷ b's' ∷ b'e' ∷ r.0, r.1))
            (stop_word 2 rest s)

  pub null_node-ReadsValue : ReadsValue null_node (codes "null")
  null_node-ReadsValue =
      word_reads null_node (codes "null") (λ rest. unfold skip_space in refl) read
    where
      read :
          (rest : Bytes) (value : Parser → Outcome Node) (p : Parser)
          → Stops rest
          → value_at lib sb value (record p { cp = codes "null" ++ rest })
            ≡ done null_node (record p { cp = rest })
      read rest value p s =
          unfold value_at word_read take_word in
          ap
            (λ r.
              word_read (record p { cp = codes "null" ++ rest })
                (b'n' ∷ b'u' ∷ b'l' ∷ b'l' ∷ r.0, r.1))
            (stop_word 3 rest s)

  abbrev pub StartsNumber : Bytes → Type 0
  StartsNumber text = (is_digit (peek text) ≡ true) ⊎ (peek text ≡ b'-')

  pub number_not_blank :
      (text rest : Bytes) → StartsNumber text → skip_space (text ++ rest) ≡ text ++ rest
  unfolding skip_space
  number_not_blank [] rest h = absurd (ground arith)
  number_not_blank (c ∷ cs) rest h = ground arith

  number_at :
      (text rest : Bytes) (value : Parser → Outcome Node) (p : Parser)
      → StartsNumber text
      → value_at lib sb value (record p { cp = text ++ rest })
        ≡ json_parse_number lib (record p { cp = text ++ rest })
  unfolding value_at
  number_at [] rest value p h = absurd (ground arith)
  number_at (c ∷ cs) rest value p h = ground arith

  pub number-ReadsValue : (v : ℕ) → IsExact lib v → ReadsValue (number v) (lib.print_lg v)
  number-ReadsValue v x zero p rest d l s e = absurd (omega arith)
  number-ReadsValue v x (suc fuel) p rest d l s e =
      let text = lib.print_lg v in
      let start = print_lg-start lib v x in
      value_here fuel p (text ++ rest) (e ∙ number_not_blank text rest start)
      ∙ number_at text rest (json_parse_value lib sb fuel) p start
      ∙ json_parse_number-print lib v rest (record p { cp = text ++ rest }) x s refl

  pub json_parse_string-quoted :
      (s rest : Bytes) (p : Parser)
      → ScansHex lib
      → All IsChar s
      → skip_space p.cp ≡ skip_space (quoted s ++ rest)
      → json_parse_string lib p ≡ done s (record p { cp = rest })
  json_parse_string-quoted s rest p scans h e =
      let cs = json_text s ++ b'"' ∷ rest in
      let text : skip_space (quoted s ++ rest) ≡ b'"' ∷ cs =
        unfold skip_space in ap (◌∷◌ b'"') (append_assoc (json_text s) (b'"' ∷ []) rest) in
      unfold json_parse_string string_read in
      ap
        (λ xs.
          if not (peek xs == b'"')
          then error string_expected (record p { cp = xs })
          else string_read (record p { cp = drop 1 xs })
              (string_body lib (length (drop 1 xs)) (drop 1 xs)))
        (e ∙ text)
      ∙ ap (string_read (record p { cp = cs })) (
          string_body-json_text lib (length cs) s rest scans h
            (omega (arith, length-append (json_text s) (b'"' ∷ rest))))

  pub string-ReadsValue :
      (s : Bytes) → ScansHex lib → All IsChar s → ReadsValue (string s) (quoted s)
  string-ReadsValue s scans h zero p rest d l st e = absurd (omega arith)
  string-ReadsValue s scans h (suc fuel) p rest d l st e =
      value_here fuel p (b'"' ∷ ((json_text s ++ b'"' ∷ []) ++ rest))
        (e ∙ unfold skip_space in refl)
      ∙ unfold value_at in
        ap string_node (
          json_parse_string-quoted s rest
            (record p { cp = b'"' ∷ ((json_text s ++ b'"' ∷ []) ++ rest) }) scans h refl)
