-- ===== src/Json/RoundTrip.antt =====
-- What the writer of src/json.c appends is read back by its parser, in both layouts.
use yaz.Prelude.{
  ℕ, suc, ◌≤◌, ◌≡◌, ◌∙◌, ap, sym, refl, [], ◌∷◌, ◌++◌, append-nil, Bytes, Option, none, some,
  All-append, arith, codes,
}
use yaz.Wrbuf.{wrbuf_alloc, Wrbuf, wrbuf_write, wrbuf_json_write}
use yaz.Wrbuf.Growth.{wrbuf_write-buf}
use yaz.Json.{
  Library, Node, object, array, string, number, true_node, false_node, null_node, Members,
  no_members, member, Elements, no_elements, element,
}
use yaz.Json.State.{Parser, done, skip_space, max_level}
use yaz.Json.Scan.{Subst}
use yaz.Json.Parser.{json_parser_parse, parse_end}
use yaz.Json.Writer.{
  json_indent, sub_indent, if_pretty, newline, write_node, write_more_members, write_more_elements,
  json_write_wrbuf, json_write_wrbuf_pretty,
}
use yaz.Json.Strings.{ScansHex}
use yaz.Json.Reads.{depth, quoted}
use yaz.Json.Brackets.{
  IsValue, AreMoreElements, no_elements-AreMoreElements, element-AreMoreElements,
}
use yaz.Json.Arrays.{bracketed, array-IsValue, empty_array-IsValue}
use yaz.Json.Pairs.{member_text, AreMoreMembers, no_members-AreMoreMembers, member-AreMoreMembers}
use yaz.Json.Objects.{braced, object-IsValue, empty_object-IsValue}
use yaz.Json.Layout.{
  Appended, joined, json_indent-IsBlank, if_pretty-IsBlank, newline-IsBlank, then-IsBlank,
}
use yaz.Json.Values.{
  IsPrintable, ArePrintableMembers, ArePrintableElements, true_node-IsValue, false_node-IsValue,
  null_node-IsValue, string-IsValue, number-IsValue, quote_write-buf, name_write, pair_joined,
}

module _ (lib : Library) (sb : Subst) (scans : ScansHex lib) where
  mutual
    unfolding write_node IsPrintable

    pub write_node-IsValue :
        (n : Node) (i : Option ℕ) (b : Wrbuf)
        → IsPrintable lib n
        → Appended (IsValue lib sb n) b (write_node lib n i b)
    write_node-IsValue (object no_members) i b h =
        let (ws, e, w) = json_indent-IsBlank i b in
        let start = json_indent i b in
        (
          braced ws (b'}' ∷ []),
          joined _ ws (b'{' ∷ b'}' ∷ []) e (
              joined _ (b'{' ∷ []) (b'}' ∷ []) (wrbuf_write-buf (codes "{") start)
                (wrbuf_write-buf (codes "}") (wrbuf_write (codes "{") start))),
          empty_object-IsValue lib sb scans ws w,
        )
    write_node-IsValue (object (member s n ms)) i b h =
        let start = json_indent i b in
        let (ws, e1, w) = json_indent-IsBlank i b in
        let opened = wrbuf_write (codes "{") start in
        let sub = sub_indent i in
        let begun = if_pretty i (λ x. json_indent sub (newline x)) opened in
        let (first, e2, g) =
          if_pretty-IsBlank i (λ x. json_indent sub (newline x)) opened
            (then-IsBlank opened (newline opened) (json_indent sub (newline opened))
              (newline-IsBlank opened) (json_indent-IsBlank sub (newline opened))) in
        let started = if_pretty sub (json_indent sub) begun in
        let (second, e3, k) =
          if_pretty-IsBlank sub (json_indent sub) begun (json_indent-IsBlank sub begun) in
        let named =
          wrbuf_write (codes "\"") (wrbuf_json_write s (wrbuf_write (codes "\"") started)) in
        let before = if_pretty sub (wrbuf_write (codes " ")) (wrbuf_write (codes ":") named) in
        let (sp, e4, l) = name_write s sub started in
        let (text, e5, v) = write_node-IsValue n sub before h.1.0 in
        let (more, e6, m) =
          write_more_members-AreMoreMembers ms sub (write_node lib n sub before) h.1.1 in
        let filled = write_more_members lib ms sub (write_node lib n sub before) in
        let closing = if_pretty i (λ x. json_indent i (newline x)) filled in
        let (after, e7, a) =
          if_pretty-IsBlank i (λ x. json_indent i (newline x)) filled
            (then-IsBlank filled (newline filled) (json_indent i (newline filled))
              (newline-IsBlank filled) (json_indent-IsBlank i (newline filled))) in
        let pair = member_text s sp text in
        (
          braced ws ((first ++ second) ++ (pair ++ (more ++ (after ++ b'}' ∷ [])))),
          joined _ ws (b'{' ∷ ((first ++ second) ++ (pair ++ (more ++ (after ++ b'}' ∷ []))))) e1 (
              joined _ (b'{' ∷ []) ((first ++ second) ++ (pair ++ (more ++ (after ++ b'}' ∷ []))))
                (wrbuf_write-buf (codes "{") start)
                (joined _ (first ++ second) (pair ++ (more ++ (after ++ b'}' ∷ [])))
                  (joined _ first second e2 e3)
                  (joined _ pair (more ++ (after ++ b'}' ∷ [])) (pair_joined _ s sp text e4 e5) (
                    joined _ more (after ++ b'}' ∷ []) e6
                      (joined _ after (b'}' ∷ []) e7 (wrbuf_write-buf (codes "}") closing)))))),
          object-IsValue lib sb scans s n ms ws (first ++ second) sp text more after h.0 w
              (All-append _ first second g k) l a v m,
        )
    write_node-IsValue (array no_elements) i b h =
        let (ws, e, w) = json_indent-IsBlank i b in
        let start = json_indent i b in
        (
          bracketed ws (b']' ∷ []),
          joined _ ws (b'[' ∷ b']' ∷ []) e (
              joined _ (b'[' ∷ []) (b']' ∷ []) (wrbuf_write-buf (codes "[") start)
                (wrbuf_write-buf (codes "]") (wrbuf_write (codes "[") start))),
          empty_array-IsValue lib sb ws w,
        )
    write_node-IsValue (array (element n ns)) i b h =
        let start = json_indent i b in
        let (ws, e1, w) = json_indent-IsBlank i b in
        let opened = wrbuf_write (codes "[") start in
        let sub = sub_indent i in
        let begun = if_pretty i newline opened in
        let (before, e2, g) = if_pretty-IsBlank i newline opened (newline-IsBlank opened) in
        let (text, e3, v) = write_node-IsValue n sub begun h.0 in
        let (more, e4, m) =
          write_more_elements-AreMoreElements ns sub (write_node lib n sub begun) h.1 in
        let filled = write_more_elements lib ns sub (write_node lib n sub begun) in
        let closing = if_pretty i (λ x. json_indent i (newline x)) filled in
        let (after, e5, a) =
          if_pretty-IsBlank i (λ x. json_indent i (newline x)) filled
            (then-IsBlank filled (newline filled) (json_indent i (newline filled))
              (newline-IsBlank filled) (json_indent-IsBlank i (newline filled))) in
        (
          bracketed ws (before ++ (text ++ (more ++ (after ++ b']' ∷ [])))),
          joined _ ws (b'[' ∷ (before ++ (text ++ (more ++ (after ++ b']' ∷ []))))) e1 (
              joined _ (b'[' ∷ []) (before ++ (text ++ (more ++ (after ++ b']' ∷ []))))
                (wrbuf_write-buf (codes "[") start)
                (joined _ before (text ++ (more ++ (after ++ b']' ∷ []))) e2 (
                  joined _ text (more ++ (after ++ b']' ∷ [])) e3 (
                    joined _ more (after ++ b']' ∷ []) e4
                      (joined _ after (b']' ∷ []) e5 (wrbuf_write-buf (codes "]") closing)))))),
          array-IsValue lib sb n ns ws before text more after w g a v m,
        )
    write_node-IsValue (string s) i b h =
        (quoted s, quote_write-buf s b, string-IsValue lib sb scans s h)
    write_node-IsValue (number v) i b h =
        (lib.print_lg v, wrbuf_write-buf (lib.print_lg v) b, number-IsValue lib sb scans v h)
    write_node-IsValue true_node i b h =
        (codes "true", wrbuf_write-buf (codes "true") b, true_node-IsValue lib sb scans)
    write_node-IsValue false_node i b h =
        (codes "false", wrbuf_write-buf (codes "false") b, false_node-IsValue lib sb scans)
    write_node-IsValue null_node i b h =
        (codes "null", wrbuf_write-buf (codes "null") b, null_node-IsValue lib sb scans)

    write_more_members-AreMoreMembers :
        (ms : Members) (i : Option ℕ) (b : Wrbuf)
        → ArePrintableMembers lib ms
        → Appended (AreMoreMembers lib sb scans ms) b (write_more_members lib ms i b)
    write_more_members-AreMoreMembers no_members i b h =
        ([], sym (append-nil b.buf), no_members-AreMoreMembers lib sb scans)
    write_more_members-AreMoreMembers (member s n ms) i b h =
        let comma = wrbuf_write (codes ",") b in
        let next = if_pretty i newline comma in
        let (first, e1, g) = if_pretty-IsBlank i newline comma (newline-IsBlank comma) in
        let started = if_pretty i (json_indent i) next in
        let (second, e2, k) =
          if_pretty-IsBlank i (json_indent i) next (json_indent-IsBlank i next) in
        let named =
          wrbuf_write (codes "\"") (wrbuf_json_write s (wrbuf_write (codes "\"") started)) in
        let before = if_pretty i (wrbuf_write (codes " ")) (wrbuf_write (codes ":") named) in
        let (sp, e3, l) = name_write s i started in
        let (text, e4, v) = write_node-IsValue n i before h.1.0 in
        let (more, e5, m) =
          write_more_members-AreMoreMembers ms i (write_node lib n i before) h.1.1 in
        let pair = member_text s sp text in
        (
          b',' ∷ ((first ++ second) ++ (pair ++ more)),
          joined _ (b',' ∷ []) ((first ++ second) ++ (pair ++ more)) (wrbuf_write-buf (codes ",") b)
              (joined _ (first ++ second) (pair ++ more) (joined _ first second e1 e2)
                (joined _ pair more (pair_joined _ s sp text e3 e4) e5)),
          member-AreMoreMembers lib sb scans s n ms (first ++ second) sp text more h.0
              (All-append _ first second g k) l v m,
        )

    write_more_elements-AreMoreElements :
        (ns : Elements) (i : Option ℕ) (b : Wrbuf)
        → ArePrintableElements lib ns
        → Appended (AreMoreElements lib sb ns) b (write_more_elements lib ns i b)
    write_more_elements-AreMoreElements no_elements i b h =
        ([], sym (append-nil b.buf), no_elements-AreMoreElements lib sb)
    write_more_elements-AreMoreElements (element n ns) i b h =
        let comma = wrbuf_write (codes ",") b in
        let next = if_pretty i newline comma in
        let (before, e1, g) = if_pretty-IsBlank i newline comma (newline-IsBlank comma) in
        let (text, e2, v) = write_node-IsValue n i next h.0 in
        let (more, e3, m) =
          write_more_elements-AreMoreElements ns i (write_node lib n i next) h.1 in
        (
          b',' ∷ (before ++ (text ++ more)),
          joined _ (b',' ∷ []) (before ++ (text ++ more)) (wrbuf_write-buf (codes ",") b)
              (joined _ before (text ++ more) e1 (joined _ text more e2 e3)),
          element-AreMoreElements lib sb n ns before text more g v m,
        )

  read_whole :
      (n : Node) (text : Bytes)
      → depth n ≤ max_level
      → IsValue lib sb n text
      → json_parser_parse lib sb text ≡ done n (record { cp = []; err_msg = none; parse_level = 0 })
  read_whole n text d v =
      let start : Parser = record { cp = text; err_msg = none; parse_level = 0 } in
      unfold json_parser_parse in
      ap (parse_end lib) (
        v.reads (suc max_level) start [] (omega arith) (omega arith) refl
          (ap skip_space (sym (append-nil text))))
      ∙ unfold parse_end skip_space in refl

-- A tree whose strings are C strings, whose numbers are read back from what `%lg` prints, and that has
-- at most 1000 levels: `json_parser_parse` reads what `json_write_wrbuf` writes into an empty buffer
-- as the same tree, without a message and to the end of the text. `sscanf` is taken to read four
-- hexadecimal digits.
pub json_parser_parse-write_wrbuf :
    (lib : Library) (sb : Subst) (n : Node)
    → ScansHex lib
    → IsPrintable lib n
    → depth n ≤ max_level
    → json_parser_parse lib sb (json_write_wrbuf lib n wrbuf_alloc).buf
      ≡ done n (record { cp = []; err_msg = none; parse_level = 0 })
unfolding json_write_wrbuf wrbuf_alloc
json_parser_parse-write_wrbuf lib sb n scans h d =
    let (text, e, v) = write_node-IsValue lib sb scans n none wrbuf_alloc h in
    ap (json_parser_parse lib sb) e ∙ read_whole lib sb scans n text d v

-- The same of `json_write_wrbuf_pretty`, which puts each member and element on a line of its own.
pub json_parser_parse-pretty :
    (lib : Library) (sb : Subst) (n : Node)
    → ScansHex lib
    → IsPrintable lib n
    → depth n ≤ max_level
    → json_parser_parse lib sb (json_write_wrbuf_pretty lib n wrbuf_alloc).buf
      ≡ done n (record { cp = []; err_msg = none; parse_level = 0 })
unfolding json_write_wrbuf_pretty wrbuf_alloc
json_parser_parse-pretty lib sb n scans h d =
    let (text, e, v) = write_node-IsValue lib sb scans n (some 0) wrbuf_alloc h in
    ap (json_parser_parse lib sb) e ∙ read_whole lib sb scans n text d v
