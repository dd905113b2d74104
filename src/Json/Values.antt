-- ===== src/Json/Values.antt =====
-- The texts of the values without children, and of the name of a member, in what the writer of
-- src/json.c appends.
use yaz.Prelude.{
  ℕ, ◌≡◌, ◌∙◌, ap, refl, false, [], ◌∷◌, ◌++◌, append_assoc, Bytes, Option, All, ◌==◌, arith, codes,
}
use yaz.Wrbuf.{Wrbuf, wrbuf_write, wrbuf_json_write}
use yaz.Wrbuf.Growth.{wrbuf_write-buf}
use yaz.Json.{
  Library, Node, object, array, string, number, true_node, false_node, null_node, Members,
  no_members, member, Elements, no_elements, element,
}
use yaz.Json.State.{skip_space, peek}
use yaz.Json.Scan.{Subst}
use yaz.Json.Writer.{if_pretty}
use yaz.Json.Blank.{IsBlank}
use yaz.Json.Strings.{json_text, IsChar, ScansHex, wrbuf_json_write-buf}
use yaz.Json.Numbers.{IsExact, print_lg-start}
use yaz.Json.Reads.{
  number_not_blank, StartsNumber, quoted, true_node-ReadsValue, false_node-ReadsValue,
  null_node-ReadsValue, number-ReadsValue, string-ReadsValue,
}
use yaz.Json.Brackets.{IsValue}
use yaz.Json.Pairs.{member_text}
use yaz.Json.Layout.{joined, if_pretty-IsBlank}

-- The strings are C strings, and the numbers are read back from what is printed.
unfoldable mutual
  pub IsPrintable : Library → Node → Type 0
  IsPrintable lib (object ms) = ArePrintableMembers lib ms
  IsPrintable lib (array ns) = ArePrintableElements lib ns
  IsPrintable lib (string s) = All IsChar s
  IsPrintable lib (number v) = IsExact lib v
  IsPrintable lib true_node = Unit
  IsPrintable lib false_node = Unit
  IsPrintable lib null_node = Unit

  pub ArePrintableMembers : Library → Members → Type 0
  ArePrintableMembers lib no_members = Unit
  ArePrintableMembers lib (member s n ms) =
      All IsChar s × (IsPrintable lib n × ArePrintableMembers lib ms)

  pub ArePrintableElements : Library → Elements → Type 0
  ArePrintableElements lib no_elements = Unit
  ArePrintableElements lib (element n ns) = IsPrintable lib n × ArePrintableElements lib ns

-- The quotes and the string between them.
pub quote_write-buf :
    (s : Bytes) (b : Wrbuf)
    → (wrbuf_write (codes "\"") (wrbuf_json_write s (wrbuf_write (codes "\"") b))).buf
      ≡ b.buf ++ quoted s
quote_write-buf s b =
    let opened = wrbuf_write (codes "\"") b in
    let filled = wrbuf_json_write s opened in
    joined _ (b'"' ∷ []) (json_text s ++ b'"' ∷ []) (wrbuf_write-buf (codes "\"") b) (
      joined _ (json_text s) (b'"' ∷ []) (wrbuf_json_write-buf s opened)
        (wrbuf_write-buf (codes "\"") filled))

-- The name of a member, the colon, and white space.
pub name_write :
    (s : Bytes) (i : Option ℕ) (b : Wrbuf)
    → let named = wrbuf_write (codes "\"") (wrbuf_json_write s (wrbuf_write (codes "\"") b)) in
      let before = if_pretty i (wrbuf_write (codes " ")) (wrbuf_write (codes ":") named) in
      (sp : Bytes) × (before.buf ≡ b.buf ++ (quoted s ++ b':' ∷ sp)) × IsBlank sp
name_write s i b =
    let named = wrbuf_write (codes "\"") (wrbuf_json_write s (wrbuf_write (codes "\"") b)) in
    let colon = wrbuf_write (codes ":") named in
    let (sp, e, h) =
      if_pretty-IsBlank i (wrbuf_write (codes " ")) colon
        (b' ' ∷ [], wrbuf_write-buf (codes " ") colon, (refl, tt)) in
    (
      sp,
      joined _ (quoted s) (b':' ∷ sp) (quote_write-buf s b)
          (joined _ (b':' ∷ []) sp (wrbuf_write-buf (codes ":") named) e),
      h,
    )

-- The name and the value of a member.
pub pair_joined :
    {c d : Bytes} (b s sp text : Bytes)
    → c ≡ b ++ (quoted s ++ b':' ∷ sp)
    → d ≡ c ++ text
    → d ≡ b ++ member_text s sp text
pair_joined b s sp text e f =
    joined _ (quoted s ++ b':' ∷ sp) text e f
    ∙ ap (λ xs. b ++ xs) (append_assoc (quoted s) (b':' ∷ sp) text)

module _ (lib : Library) (sb : Subst) (scans : ScansHex lib) where
  pub true_node-IsValue : IsValue lib sb true_node (codes "true")
  true_node-IsValue = record {
    reads = true_node-ReadsValue lib sb;
    opens = λ rest. unfold skip_space in refl;
  }

  pub false_node-IsValue : IsValue lib sb false_node (codes "false")
  false_node-IsValue = record {
    reads = false_node-ReadsValue lib sb;
    opens = λ rest. unfold skip_space in refl;
  }

  pub null_node-IsValue : IsValue lib sb null_node (codes "null")
  null_node-IsValue = record {
    reads = null_node-ReadsValue lib sb;
    opens = λ rest. unfold skip_space in refl;
  }

  pub string-IsValue : (s : Bytes) → All IsChar s → IsValue lib sb (string s) (quoted s)
  string-IsValue s h = record {
    reads = string-ReadsValue lib sb s scans h;
    opens = λ rest. unfold skip_space in refl;
  }

  pub number_opens :
      (text rest : Bytes) → StartsNumber lib sb text → (peek (text ++ rest) == b']') ≡ false
  number_opens [] rest h = absurd (ground arith)
  number_opens (c ∷ cs) rest h = ground arith

  pub number-IsValue : (v : ℕ) → IsExact lib v → IsValue lib sb (number v) (lib.print_lg v)
  number-IsValue v x = record {
    reads = number-ReadsValue lib sb v x;
    opens = λ rest.
        ap (λ xs. peek xs == b']')
          (number_not_blank lib sb (lib.print_lg v) rest (print_lg-start lib v x))
        ∙ number_opens (lib.print_lg v) rest (print_lg-start lib v x);
  }
