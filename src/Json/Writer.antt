-- ===== src/Json/Writer.antt =====
-- The writer of src/json.c. `none` for an indent stands for -1, which means no white space.
use yaz.Prelude.{
  ℕ, zero, suc, ◌+◌, Bool, true, [], ◌∷◌, Bytes, Option, none, some, ◌==◌, codes, if◌then◌else◌,
}
use yaz.Wrbuf.{Wrbuf, wrbuf_putc, wrbuf_write, wrbuf_json_write}
use yaz.Json.{
  Library, Node, object, array, string, number, true_node, false_node, null_node, Members,
  no_members, member, Elements, no_elements, element,
}

-- `l == 0 || wrbuf_buf(result)[l-1] == '\n'`
unfoldable pub at_line_start : Bytes → Bool
at_line_start [] = true
at_line_start (c ∷ []) = c == 10
at_line_start (c ∷ d ∷ cs) = at_line_start (d ∷ cs)

unfoldable pub put_spaces : ℕ → Wrbuf → Wrbuf
put_spaces zero b = b
put_spaces (suc n) b = put_spaces n (wrbuf_putc b' ' b)

unfoldable pub json_indent : Option ℕ → Wrbuf → Wrbuf
unfolding put_spaces at_line_start
json_indent none b = b
json_indent (some n) b = let put = put_spaces n b in if at_line_start b.buf then put else b

abbrev pub sub_indent : Option ℕ → Option ℕ
sub_indent none = none
sub_indent (some n) = some (n + 2)

-- What is written only where `indent >= 0`.
abbrev pub if_pretty : Option ℕ → (Wrbuf → Wrbuf) → Wrbuf → Wrbuf
if_pretty none f b = b
if_pretty (some n) f b = f b

abbrev pub newline : Wrbuf → Wrbuf
newline b = wrbuf_write (codes "\n") b

module _ (lib : Library) where
  -- `json_write_wrbuf_r`, by the type of the node; the two others are its case of `json_node_list`,
  -- with the pairs of an object or the elements of an array.
  unfoldable mutual
    pub write_node : Node → Option ℕ → Wrbuf → Wrbuf
    write_node (object no_members) indent b =
        wrbuf_write (codes "}") (wrbuf_write (codes "{") (json_indent indent b))
    write_node (object (member s n ms)) indent b =
        let opened = wrbuf_write (codes "{") (json_indent indent b) in
        let begun = if_pretty indent (λ w. json_indent (sub_indent indent) (newline w)) opened in
        let filled = write_members (member s n ms) (sub_indent indent) begun in
        wrbuf_write (codes "}") (if_pretty indent (λ w. json_indent indent (newline w)) filled)
    write_node (array no_elements) indent b =
        wrbuf_write (codes "]") (wrbuf_write (codes "[") (json_indent indent b))
    write_node (array (element n ns)) indent b =
        let opened = wrbuf_write (codes "[") (json_indent indent b) in
        let begun = if_pretty indent newline opened in
        let filled = write_elements (element n ns) (sub_indent indent) begun in
        wrbuf_write (codes "]") (if_pretty indent (λ w. json_indent indent (newline w)) filled)
    write_node (string s) indent b =
        wrbuf_write (codes "\"") (wrbuf_json_write s (wrbuf_write (codes "\"") b))
    write_node (number v) indent b = wrbuf_write (lib.print_lg v) b
    write_node true_node indent b = wrbuf_write (codes "true") b
    write_node false_node indent b = wrbuf_write (codes "false") b
    write_node null_node indent b = wrbuf_write (codes "null") b

    pub write_members : Members → Option ℕ → Wrbuf → Wrbuf
    write_members no_members indent b = b
    write_members (member s n ms) indent b =
        let started = if_pretty indent (json_indent indent) b in
        let named =
          wrbuf_write (codes "\"") (wrbuf_json_write s (wrbuf_write (codes "\"") started)) in
        let before = if_pretty indent (wrbuf_write (codes " ")) (wrbuf_write (codes ":") named) in
        write_more_members ms indent (write_node n indent before)

    -- The comma, and the rest of the chain.
    pub write_more_members : Members → Option ℕ → Wrbuf → Wrbuf
    write_more_members no_members indent b = b
    write_more_members (member s n ms) indent b =
        let next = if_pretty indent newline (wrbuf_write (codes ",") b) in
        let started = if_pretty indent (json_indent indent) next in
        let named =
          wrbuf_write (codes "\"") (wrbuf_json_write s (wrbuf_write (codes "\"") started)) in
        let before = if_pretty indent (wrbuf_write (codes " ")) (wrbuf_write (codes ":") named) in
        write_more_members ms indent (write_node n indent before)

    pub write_elements : Elements → Option ℕ → Wrbuf → Wrbuf
    write_elements no_elements indent b = b
    write_elements (element n ns) indent b = write_more_elements ns indent (write_node n indent b)

    pub write_more_elements : Elements → Option ℕ → Wrbuf → Wrbuf
    write_more_elements no_elements indent b = b
    write_more_elements (element n ns) indent b =
        write_more_elements ns indent
          (write_node n indent (if_pretty indent newline (wrbuf_write (codes ",") b)))

  unfoldable pub json_write_wrbuf : Node → Wrbuf → Wrbuf
  unfolding write_node
  json_write_wrbuf node result = write_node node none result

  unfoldable pub json_write_wrbuf_pretty : Node → Wrbuf → Wrbuf
  unfolding write_node
  json_write_wrbuf_pretty node result = write_node node (some 0) result
