-- ===== src/Tests/Json.antt =====
-- Runs of the parser and the writer of src/json.c.
use yaz.Prelude.{
  ℕ, ◌+◌, ◌-◌, ◌*◌, ◌/◌, ◌%◌, ◌≤◌, ◌<◌, ◌≡◌, ◌≢◌, ap, refl, false, [], ◌∷◌, Bytes, none, some, leb,
  if◌then◌else◌, arith, codes, inl, inr,
}
use yaz.Wrbuf.{lower_hex, wrbuf_alloc, wrbuf_write}
use yaz.Json.{
  Library, Node, object, array, string, number, true_node, null_node, no_members, member,
  no_elements, element, Elements,
}
use yaz.Json.State.{Parser, max_level, done, failed, invalid_character, out_of_fuel, skip_space}
use yaz.Json.Parser.{json_parse_value, json_parser_parse}
use yaz.Json.Writer.{json_indent, json_write_wrbuf, json_write_wrbuf_pretty}
use yaz.Json.Strings.{ScansHex}
use yaz.Json.Numbers.{IsExact}
use yaz.Json.Reads.{depth}
use yaz.Json.Values.{IsPrintable}
use yaz.Json.Forward.{Keeps}
use yaz.Json.RoundTrip.{json_parser_parse-write_wrbuf, json_parser_parse-pretty}
use yaz.Json.Halts.{json_parse_value-Keeps, json_parser_parse_ends}

abbrev unhex : ℕ → ℕ
unhex c = if leb c b'9' then c - b'0' else c + 10 - b'a'

abbrev scan_four : Bytes → ℕ × ℕ
scan_four (a ∷ b ∷ c ∷ d ∷ cs) = (unhex a * 4096 + unhex b * 256 + unhex c * 16 + unhex d, 4)
scan_four cs = (0, 0)

abbrev scan_digit : Bytes → ℕ × ℕ
scan_digit [] = (0, 0)
scan_digit (c ∷ cs) = (c - b'0', 1)

-- A library for numbers of one digit.
abbrev digits : Library
digits = record { scan_hex4 = scan_four; strtod = scan_digit; print_lg = λ v. (v + b'0') ∷ [] }

unhex-lower_hex : (d : ℕ) → d < 16 → unhex (lower_hex d) ≡ d
unhex-lower_hex d h = ground arith

digits-ScansHex : ScansHex digits
digits-ScansHex code rest h =
    let a = unhex-lower_hex (code / 4096 % 16) (omega arith) in
    let b = unhex-lower_hex (code / 256 % 16) (omega arith) in
    let c = unhex-lower_hex (code / 16 % 16) (omega arith) in
    let d = unhex-lower_hex (code % 16) (omega arith) in
    ap (λ n. (n, 4)) (omega (arith, a, b, c, d))

seven-IsExact : IsExact digits 7
seven-IsExact = record {
  decimal = record {
    minus = false;
    lead = b'7';
    more = [];
    fraction = [];
    exponent_sign = b'+';
    exponent = [];
  };
  shape = record {
    lead_digit = refl;
    leading = inr refl;
    more_digits = tt;
    fraction_digits = tt;
    exponent_digits = tt;
    signed = inl refl;
  };
  printed = refl;
  read_back = λ rest s. refl;
}

-- An object with an array, an empty object, and a name with a line feed and a quote.
abbrev sample : Node
sample = object (
    member (b'a' ∷ 10 ∷ b'"' ∷ [])
      (array
        (element (number 7) (element true_node (element (string (1 ∷ b'x' ∷ [])) no_elements))))
      (member (b'b' ∷ []) (object no_members) (member [] null_node no_members)))

sample-IsPrintable : IsPrintable digits sample
unfolding IsPrintable
sample-IsPrintable = (
  ((omega arith, omega arith), ((omega arith, omega arith), ((omega arith, omega arith), tt))),
  (
    (seven-IsExact, (tt, (((omega arith, omega arith), ((omega arith, omega arith), tt)), tt))),
    (((omega arith, omega arith), tt), (tt, (tt, (tt, tt)))),
  ),
)

sample-depth : depth sample ≤ max_level
unfolding depth
sample-depth = omega arith

json_parser_parse-write_wrbuf_example :
    json_parser_parse digits [] (json_write_wrbuf digits sample wrbuf_alloc).buf
    ≡ done sample (record { cp = []; err_msg = none; parse_level = 0 })
json_parser_parse-write_wrbuf_example =
    json_parser_parse-write_wrbuf digits [] sample digits-ScansHex sample-IsPrintable sample-depth

json_parser_parse-pretty_example :
    json_parser_parse digits [] (json_write_wrbuf_pretty digits sample wrbuf_alloc).buf
    ≡ done sample (record { cp = []; err_msg = none; parse_level = 0 })
json_parser_parse-pretty_example =
    json_parser_parse-pretty digits [] sample digits-ScansHex sample-IsPrintable sample-depth

json_parser_parse_ends_example : json_parser_parse digits [] (codes "[[1,{}") ≢ out_of_fuel
json_parser_parse_ends_example = json_parser_parse_ends digits [] (codes "[[1,{}")

abbrev deep : Parser
deep = record { cp = codes "[2]]"; err_msg = none; parse_level = 999 }

json_parse_value-Keeps_example : Keeps deep (json_parse_value digits [] 2 deep)
json_parse_value-Keeps_example = json_parse_value-Keeps digits [] 2 deep (omega arith) (omega arith)

-- The written text, and that of the layout with lines.
written :
    (json_write_wrbuf digits
      (array (element (number 7) (element true_node no_elements)))
      wrbuf_alloc).buf
    ≡ codes "[7,true]"
unfolding json_write_wrbuf wrbuf_alloc wrbuf_write json_indent
written = refl

-- An escape that `json_one_char` refuses.
refused_escape :
    json_parser_parse digits [] (codes "\"\\x\"")
    ≡ failed (record { cp = codes "\\x\""; err_msg = some invalid_character; parse_level = 0 })
unfolding json_parser_parse skip_space
refused_escape = refl

abbrev pair : Elements
pair = element (number 1) (element null_node no_elements)
