-- ===== src/Json/Halts.antt =====
-- The parser of src/json.c leaves the nesting level as it finds it, and ends.
use yaz.Prelude.{
  ℕ, zero, suc, ◌+◌, ◌≤◌, ◌<◌, ◌≡◌, ◌≢◌, refl, not, Bytes, none, length, length-drop, drop, leb,
  ◌==◌, if◌then◌else◌, arith, inl, inr, Bool-cases,
}
use yaz.Json.{Library, Node, Elements, no_elements, Members, no_members}
use yaz.Json.State.{
  Parser, Outcome, done, failed, out_of_fuel, error, peek, look_ch, move_ch, max_level,
  too_much_nesting,
}
use yaz.Json.Scan.{Subst, take_word, read_index}
use yaz.Json.Parser.{
  leave_level, array_end, array_close, object_end, object_close, string_node, json_parse_string,
  json_parse_elements, json_parse_array, json_parse_members, json_parse_object, value_at,
  json_parse_value, parse_end, json_parser_parse,
}
use yaz.Json.Forward.{
  Step, Keeps, Keeps-trans, look_ch-Step, move_ch-Step, json_parse_string-Keeps,
  json_parse_number-Keeps, take_word_le, word_read-Keeps, read_index_le, subst_value-Keeps,
}
use yaz.Json.Loops.{json_parse_elements-Keeps, json_parse_members-Keeps}

module _ (lib : Library) where
  array_end-Keeps : (ns : Elements) (p : Parser) → Keeps p (array_end ns p)
  unfolding array_end
  array_end-Keeps ns p = let q = look_ch p in ground (arith, look_ch-Step p, move_ch-Step q)

  object_end-Keeps : (ms : Members) (p : Parser) → Keeps p (object_end ms p)
  unfolding object_end
  object_end-Keeps ms p = let q = look_ch p in ground (arith, look_ch-Step p, move_ch-Step q)

  array_close-Keeps :
      (p : Parser) (o : Outcome Elements)
      → Keeps (record p { parse_level = p.parse_level + 1 }) o
      → Keeps p (array_close o)
  unfolding array_close
  array_close-Keeps p (done ns q) k =
      Keeps-trans p (leave_level q) _ (k.0, omega (arith, k.1)) (array_end-Keeps ns (leave_level q))
  array_close-Keeps p (failed q) k =
      Keeps-trans p (leave_level q) _ (k.0, omega (arith, k.1))
        (array_end-Keeps no_elements (leave_level q))
  array_close-Keeps p out_of_fuel k = k

  object_close-Keeps :
      (p : Parser) (o : Outcome Members)
      → Keeps (record p { parse_level = p.parse_level + 1 }) o
      → Keeps p (object_close o)
  unfolding object_close
  object_close-Keeps p (done ms q) k =
      Keeps-trans p (leave_level q) _ (k.0, omega (arith, k.1))
        (object_end-Keeps ms (leave_level q))
  object_close-Keeps p (failed q) k = (k.0, omega (arith, k.1))
  object_close-Keeps p out_of_fuel k = k

  -- One level further down, the values are read.
  abbrev ReadsInside : (Parser → Outcome Node) → ℕ → Type 0
  ReadsInside value level =
      level < max_level → (p : Parser) → p.parse_level ≡ level + 1 → Keeps p (value p)

  json_parse_array-Keeps :
      (value : Parser → Outcome Node) (p : Parser)
      → ReadsInside value p.parse_level
      → Keeps p (json_parse_array lib value p)
  unfolding json_parse_array
  json_parse_array-Keeps value p inside =
      let q = move_ch (look_ch p) in
      let r = look_ch (record q { parse_level = q.parse_level + 1 }) in
      let to_q : Step p q =
        (omega (arith, (look_ch-Step p).0, (move_ch-Step (look_ch p)).0), refl) in
      let to_r : length r.cp ≤ length q.cp =
        (look_ch-Step (record q { parse_level = q.parse_level + 1 })).0 in
      let filled : Keeps p (
          if leb max_level q.parse_level
          then error too_much_nesting q
          else if peek r.cp == b']'
          then array_end no_elements (leave_level r)
          else array_close (json_parse_elements lib value r)) =
        elim (Bool-cases (leb max_level q.parse_level)) [
          | inl e ↦ rw e to_q
          | inr e ↦ elim (Bool-cases (peek r.cp == b']')) [
            | inl f ↦
                rw (e, f)
                  (Keeps-trans p (leave_level r) _ (omega (arith, to_q.0), omega arith)
                    (array_end-Keeps no_elements (leave_level r)))
            | inr f ↦
                rw (e, f)
                  (Keeps-trans p q _ to_q (
                    array_close-Keeps q _ (
                      Keeps-trans (record q { parse_level = q.parse_level + 1 }) r _ (to_r, refl)
                        (json_parse_elements-Keeps lib value r.parse_level (inside (ground arith)) r
                          refl))))
          ]
        ] in
      elim (Bool-cases (not (peek (look_ch p).cp == b'['))) [
        | inl g ↦ rw g (look_ch-Step p)
        | inr g ↦ rw g filled
      ]

  json_parse_object-Keeps :
      (value : Parser → Outcome Node) (p : Parser)
      → ReadsInside value p.parse_level
      → Keeps p (json_parse_object lib value p)
  unfolding json_parse_object
  json_parse_object-Keeps value p inside =
      let m = move_ch (look_ch p) in
      let q = look_ch m in
      let r = record q { parse_level = q.parse_level + 1 } in
      let to_q : Step p q = (
        omega (arith, (look_ch-Step p).0, (move_ch-Step (look_ch p)).0, (look_ch-Step m).0),
        refl,
      ) in
      let filled : Keeps p (
          if peek q.cp == b'}'
          then object_end no_members q
          else if leb max_level q.parse_level
          then error too_much_nesting q
          else object_close (json_parse_members lib value r)) =
        elim (Bool-cases (peek q.cp == b'}')) [
          | inl f ↦ rw f (Keeps-trans p q _ to_q (object_end-Keeps no_members q))
          | inr f ↦ elim (Bool-cases (leb max_level q.parse_level)) [
            | inl e ↦ rw (f, e) to_q
            | inr e ↦
                rw (f, e)
                  (Keeps-trans p q _ to_q (
                    object_close-Keeps q _ (
                      json_parse_members-Keeps lib value r.parse_level (inside (ground arith)) r
                        refl)))
          ]
        ] in
      elim (Bool-cases (not (peek (look_ch p).cp == b'{'))) [
        | inl g ↦ rw g (look_ch-Step p)
        | inr g ↦ rw g filled
      ]

  string_node-Keeps : (p : Parser) (o : Outcome Bytes) → Keeps p o → Keeps p (string_node o)
  string_node-Keeps p (done s q) k = k
  string_node-Keeps p (failed q) k = k
  string_node-Keeps p out_of_fuel k = k

  value_at-Keeps :
      (sb : Subst) (value : Parser → Outcome Node) (p : Parser)
      → ReadsInside value p.parse_level
      → Keeps p (value_at lib sb value p)
  unfolding value_at
  value_at-Keeps sb value p inside = ground (
    arith,
    string_node-Keeps p (json_parse_string lib p) (json_parse_string-Keeps lib p),
    json_parse_number-Keeps lib p,
    json_parse_object-Keeps value p inside,
    json_parse_array-Keeps value p inside,
    subst_value-Keeps lib sb p (read_index 0 (drop 1 p.cp))
        (omega (arith, read_index_le lib 0 (drop 1 p.cp), length-drop 1 p.cp)),
    word_read-Keeps lib p (take_word 7 p.cp) (take_word_le lib 7 p.cp),
  )

  -- At any nesting level up to the limit, with fuel for the levels left: `json_parse_value` returns a
  -- value or an error, and either way it has not moved back in the text and has left the nesting level
  -- as it was.
  pub json_parse_value-Keeps :
      (sb : Subst) (fuel : ℕ) (p : Parser)
      → p.parse_level ≤ max_level
      → max_level < fuel + p.parse_level
      → Keeps p (json_parse_value lib sb fuel p)
  unfolding json_parse_value
  json_parse_value-Keeps sb zero p l f = absurd (omega arith)
  json_parse_value-Keeps sb (suc fuel) p l f = Keeps-trans p (look_ch p) _ (look_ch-Step p) (
      value_at-Keeps sb (json_parse_value lib sb fuel) (look_ch p)
        λ below q e. json_parse_value-Keeps sb fuel q (omega arith) (omega arith))

  parse_end-Keeps : (p : Parser) (o : Outcome Node) → Keeps p o → Keeps p (parse_end lib o)
  unfolding parse_end
  parse_end-Keeps p (done n q) k = ground (arith, look_ch-Step q)
  parse_end-Keeps p (failed q) k = k
  parse_end-Keeps p out_of_fuel k = k

  Keeps-ends : (p : Parser) (o : Outcome Node) → Keeps p o → o ≢ out_of_fuel
  Keeps-ends p (done n q) k e = ground arith
  Keeps-ends p (failed q) k e = ground arith
  Keeps-ends p out_of_fuel k e = k

-- On every text, whatever the C library's scanning returns, `json_parser_parse` returns a tree or an
-- error: the nesting stays within the limit of 1000 levels, and the loops over elements and members end.
pub json_parser_parse_ends :
    (lib : Library) (sb : Subst) (text : Bytes) → json_parser_parse lib sb text ≢ out_of_fuel
unfolding json_parser_parse
json_parser_parse_ends lib sb text =
    let start : Parser = record { cp = text; err_msg = none; parse_level = 0 } in
    let value = json_parse_value lib sb (suc max_level) start in
    Keeps-ends lib start (parse_end lib value) (
      parse_end-Keeps lib start value
        (json_parse_value-Keeps lib sb (suc max_level) start (omega arith) (omega arith)))
