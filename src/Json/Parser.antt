-- ===== src/Json/Parser.antt =====
-- The parser of src/json.c, by recursive descent.
use yaz.Prelude.{
  ℕ, zero, suc, ◌+◌, ◌-◌, Bool, ◌&&◌, ◌||◌, not, [], ◌∷◌, Bytes, Option, none, some, length, drop,
  ltb, leb, ◌==◌, if◌then◌else◌,
}
use yaz.Json.{
  Library, Node, object, array, string, Members, no_members, member, Elements, no_elements, element,
}
use yaz.Json.State.{
  Parser, max_level, Outcome, and_then, error, is_digit, peek, look_ch, move_ch, string_expected,
  bracket_expected, brace_expected, expecting_bracket, missing_colon, missing_brace,
  too_much_nesting, extra_characters, done, failed, out_of_fuel,
}
use yaz.Json.Scan.{
  letter_escape, escape_of, Body, string_round, string_read, number_end, number_read, take_word,
  word_read, read_index, Subst, find_subst, subst_read, ended, missing,
}

abbrev pub leave_level : Parser → Parser
leave_level p = record p { parse_level = p.parse_level - 1 }

-- Behind the elements, which may have failed: the array is then empty, and the message stays.
unfoldable pub array_end : Elements → Parser → Outcome Node
array_end ns p =
    let q = look_ch p in
    if peek q.cp == b']'
    then done (array ns) (move_ch q)
    else elim q.err_msg [ none ↦ error expecting_bracket q | some m ↦ failed q ]

unfoldable pub array_close : Outcome Elements → Outcome Node
unfolding array_end
array_close (done ns p) = array_end ns (leave_level p)
array_close (failed p) = array_end no_elements (leave_level p)
array_close out_of_fuel = out_of_fuel

unfoldable pub object_end : Members → Parser → Outcome Node
object_end ms p =
    let q = look_ch p in
    if not (peek q.cp == b'}') then error missing_brace q else done (object ms) (move_ch q)

unfoldable pub object_close : Outcome Members → Outcome Node
unfolding object_end
object_close (done ms p) = object_end ms (leave_level p)
object_close (failed p) = failed (leave_level p)
object_close out_of_fuel = out_of_fuel

abbrev pub subst_value : Subst → Parser → ℕ × Bytes → Outcome Node
subst_value sb p (idx, rest) = subst_read (record p { cp = rest }) (find_subst idx sb)

abbrev pub string_node : Outcome Bytes → Outcome Node
string_node (done s p) = done (string s) p
string_node (failed p) = failed p
string_node out_of_fuel = out_of_fuel

-- `strchr("0123456789-", c)`, which also finds the terminator.
abbrev pub starts_number : ℕ → Bool
starts_number c = is_digit c || c == b'-' || c == 0

module _ (lib : Library) where
  -- The bytes written to `out`, and the text behind the character.
  unfoldable pub json_one_char : Bytes → Option (Bytes × Bytes)
  unfolding escape_of
  json_one_char [] = none
  json_one_char (c ∷ []) = if ltb 0 c && leb c 31 then none else some (c ∷ [], [])
  json_one_char (c ∷ d ∷ cs) =
      if c == b'\\'
      then escape_of (letter_escape d) (lib.scan_hex4 cs) d cs
      else if ltb 0 c && leb c 31
      then none
      else some (c ∷ [], d ∷ cs)

  -- The loop up to the closing quote. Each round takes a byte at least, so the length is enough fuel.
  unfoldable pub string_body : ℕ → Bytes → Body
  unfolding string_round json_one_char
  string_body zero cs = missing
  string_body (suc fuel) [] = missing
  string_body (suc fuel) (c ∷ cs) =
      let round = string_round (string_body fuel) (json_one_char (c ∷ cs)) in
      if c == b'"' then ended [] cs else round

  unfoldable pub json_parse_string : Parser → Outcome Bytes
  unfolding string_read string_body
  json_parse_string p =
      let q = look_ch p in
      let r = move_ch q in
      if not (peek q.cp == b'"')
      then error string_expected q
      else string_read r (string_body (length r.cp) r.cp)

  unfoldable pub json_parse_number : Parser → Outcome Node
  unfolding number_read number_end
  json_parse_number p = number_read p (number_end p.cp) (lib.strtod p.cp)

  -- The operations on values, with `value` for `json_parse_value`.
  module _ (value : Parser → Outcome Node) where
    -- `while (look_ch(p) == ',')` in `json_parse_elements`. Each round takes a comma.
    unfoldable pub elements_loop : ℕ → Parser → Outcome Elements
    elements_loop zero p = out_of_fuel
    elements_loop (suc fuel) p =
        let q = look_ch p in
        let round =
          and_then (value (move_ch q))
            λ n r. and_then (elements_loop fuel r) λ ns s. done (element n ns) s in
        if peek q.cp == b',' then round else done no_elements q

    unfoldable pub json_parse_elements : Parser → Outcome Elements
    unfolding elements_loop
    json_parse_elements p =
        and_then (value p)
          λ n q. and_then (elements_loop (suc (length q.cp)) q) λ ns r. done (element n ns) r

    unfoldable pub json_parse_array : Parser → Outcome Node
    unfolding array_close json_parse_elements
    json_parse_array p =
        let q = move_ch (look_ch p) in
        let r = look_ch (record q { parse_level = q.parse_level + 1 }) in
        let filled = array_close (json_parse_elements r) in
        if not (peek (look_ch p).cp == b'[')
        then error bracket_expected (look_ch p)
        else if leb max_level q.parse_level
        then error too_much_nesting q
        else if peek r.cp == b']'
        then array_end no_elements (leave_level r)
        else filled

    -- Behind the name of a pair.
    unfoldable pub pair_value : Bytes → Parser → Outcome (Bytes × Node)
    pair_value s p =
        let q = look_ch p in
        if not (peek q.cp == b':')
        then error missing_colon q
        else and_then (value (move_ch q)) λ n r. done (s, n) r

    unfoldable pub json_parse_pair : Parser → Outcome (Bytes × Node)
    unfolding pair_value json_parse_string
    json_parse_pair p = and_then (json_parse_string p) pair_value

    unfoldable pub members_loop : ℕ → Parser → Outcome Members
    members_loop zero p = out_of_fuel
    members_loop (suc fuel) p =
        let q = look_ch p in
        let round =
          and_then (json_parse_pair (move_ch q))
            λ (s, n) r. and_then (members_loop fuel r) λ ms t. done (member s n ms) t in
        if peek q.cp == b',' then round else done no_members q

    unfoldable pub json_parse_members : Parser → Outcome Members
    unfolding members_loop json_parse_pair
    json_parse_members p =
        and_then (json_parse_pair p)
          λ (s, n) q. and_then (members_loop (suc (length q.cp)) q) λ ms r. done (member s n ms) r

    unfoldable pub json_parse_object : Parser → Outcome Node
    unfolding object_close json_parse_members
    json_parse_object p =
        let q = look_ch (move_ch (look_ch p)) in
        let filled =
          object_close (json_parse_members (record q { parse_level = q.parse_level + 1 })) in
        if not (peek (look_ch p).cp == b'{')
        then error brace_expected (look_ch p)
        else if peek q.cp == b'}'
        then object_end no_members q
        else if leb max_level q.parse_level
        then error too_much_nesting q
        else filled

  -- The choice by the next character; `value` reads the values inside.
  unfoldable pub value_at : Subst → (Parser → Outcome Node) → Parser → Outcome Node
  unfolding json_parse_string json_parse_number json_parse_object json_parse_array subst_read
      find_subst read_index word_read take_word
  value_at sb value q =
      let c = peek q.cp in
      if c == b'"'
      then string_node (json_parse_string q)
      else if starts_number c
      then json_parse_number q
      else if c == b'{'
      then json_parse_object value q
      else if c == b'['
      then json_parse_array value q
      else if c == b'%'
      then subst_value sb q (read_index 0 (drop 1 q.cp))
      else word_read q (take_word 7 q.cp)

  -- The fuel counts the levels of nesting left; `max_level` bounds it.
  unfoldable pub json_parse_value : Subst → ℕ → Parser → Outcome Node
  unfolding value_at
  json_parse_value sb zero p = out_of_fuel
  json_parse_value sb (suc fuel) p = value_at sb (json_parse_value sb fuel) (look_ch p)

  -- Behind the value: what is left must be blank.
  unfoldable pub parse_end : Outcome Node → Outcome Node
  parse_end (done n p) =
      let q = look_ch p in
      let over = if peek q.cp == 0 then done n q else error extra_characters q in
      elim p.err_msg [ none ↦ over | some m ↦ failed p ]
  parse_end (failed p) = failed p
  parse_end out_of_fuel = out_of_fuel

  unfoldable pub json_parser_parse : Subst → Bytes → Outcome Node
  unfolding parse_end json_parse_value
  json_parser_parse sb json_str = parse_end (
      json_parse_value sb (suc max_level)
        (record { cp = json_str; err_msg = none; parse_level = 0 }))
