-- ===== src/Pqf/Attributes.antt =====
-- The attributes and terms of src/pquery.c. The arrays `attr_list`, `attr_clist` and `attr_set` below
-- `num_attr` are a list with the latest attribute first.
use yaz.Prelude.{
  ℕ, suc, Bool, true, false, not, ◌&&◌, ◌||◌, List, [], ◌∷◌, Bytes, Option, none, some, take, drop,
  leb, ltb, ◌==◌, if◌then◌else◌, bind,
}
use yaz.Prelude.Int.{ℤ, pos, negsuc}
use yaz.Pqf.{
  Library, Oid, Attribute, AttributeValue, numeric, complex, item_string, Term, general,
  character_string, number, null, TermType, term_general, term_numeric, term_string, term_oid,
  term_date_time, term_null,
}
use yaz.Pqf.State.{
  Parser, at_end, Outcome, done, and_then, fail, is_digit, peek, missing, attset, bad_attr,
  bad_integer,
}
use yaz.Pqf.Lexer.{lex, escape_string}

-- A `char *` of bytes that are followed by a zero: it ends at the first zero.
unfoldable pub c_string : Bytes → Bytes
c_string [] = []
c_string (c ∷ cs) = let rest = c_string cs in if c == 0 then [] else c ∷ rest

-- The index that `strchr` finds.
unfoldable pub find_char : ℕ → Bytes → Option ℕ
find_char want [] = none
find_char want (c ∷ cs) =
    let rest = find_char want cs in if c == want then some 0 else bind rest λ i. some (suc i)

abbrev pub all_digits : Bytes → Bool
all_digits [] = true
all_digits (c ∷ cs) = is_digit c && all_digits cs

abbrev pub token_text : Parser → Bytes
token_text p = take p.lex_len p.lex_buf

unfoldable pub query_oid_getvalbyname : Library → Parser → Option Oid
query_oid_getvalbyname lib p = if leb 31 p.lex_len then none else lib.string_to_oid (token_text p)

abbrev pub inherited_set : List Attribute → Option Oid
inherited_set [] = none
inherited_set (a ∷ before) = a.attribute_set

-- The next token, which has to be there: `if (!lex(li))`.
abbrev pub next_token : Parser → Outcome (Unit {0})
next_token p = let q = lex p in elim (q.query_look) [ at_end ↦ fail missing q | _ ↦ done tt q ]

-- The loop over the value, from the index behind the '='.
unfoldable pub attr_value : Library → ℕ → Parser → AttributeValue
unfolding c_string
attr_value lib start p =
    let value = drop start (token_text p) in
    if all_digits value
    then numeric (lib.odr_atoi (drop start p.lex_buf))
    else complex (item_string (c_string (escape_string lib value)) ∷ [])

-- The attribute whose '=' stands at the index.
unfoldable pub parse_type :
    Library → List Attribute → Option Oid → ℕ → Parser → Outcome (List Attribute)
unfolding attr_value
parse_type lib attrs set i p =
    if not (is_digit (peek p.lex_buf))
    then fail bad_integer p
    else done
        (record {
          attribute_set = set;
          attribute_type = lib.odr_atoi p.lex_buf;
          value = attr_value lib (suc i) p;
        }
          ∷ attrs)
        p

-- Whether the '=' that `strchr` finds lies behind the token, so that it is the name of a set.
abbrev pub is_set_name : Option ℕ → ℕ → Bool
is_set_name none n = true
is_set_name (some i) n = ltb n i

abbrev pub type_at :
    Library → List Attribute → Option Oid → Option ℕ → Parser → Outcome (List Attribute)
type_at lib attrs set none p = fail bad_attr p
type_at lib attrs set (some i) p = parse_type lib attrs set i p

abbrev pub type_behind_set :
    Library → List Attribute → Option Oid → Parser → Outcome (List Attribute)
type_behind_set lib attrs none p = fail attset p
type_behind_set lib attrs (some set) p =
    and_then (next_token p) λ _ q. type_at lib attrs (some set) (find_char b'=' q.lex_buf) q

unfoldable pub p_query_parse_attr : Library → List Attribute → Parser → Outcome (List Attribute)
unfolding find_char query_oid_getvalbyname parse_type
p_query_parse_attr lib attrs p =
    let at = find_char b'=' p.lex_buf in
    if is_set_name at p.lex_len
    then type_behind_set lib attrs (query_oid_getvalbyname lib p) p
    else type_at lib attrs (inherited_set attrs) at p

abbrev pub same_int : ℤ → ℤ → Bool
same_int (pos m) (pos n) = m == n
same_int (negsuc m) (negsuc n) = m == n
same_int (pos m) (negsuc n) = false
same_int (negsuc m) (pos n) = false

-- Whether an attribute of the type is among the list: the loop over `j`.
unfoldable pub has_type : ℤ → List Attribute → Bool
has_type t [] = false
has_type t (a ∷ before) = same_int a.attribute_type t || has_type t before

-- The loop over `i`, downwards: an attribute with a later one of its type is left out.
unfoldable pub pick_attributes : List Attribute → List Attribute → List Attribute
unfolding has_type
pick_attributes later [] = []
pick_attributes later (a ∷ before) =
    let rest = pick_attributes (a ∷ later) before in
    if has_type a.attribute_type later then rest else a ∷ rest

unfoldable pub get_attribute_list : List Attribute → List Attribute
unfolding pick_attributes
get_attribute_list attrs = pick_attributes [] attrs

unfoldable pub zget_attribute_list_use_string : Bytes → List Attribute
unfolding get_attribute_list
zget_attribute_list_use_string name = get_attribute_list (
    record { attribute_set = none; attribute_type = pos 1; value = complex (item_string name ∷ []) }
    ∷ [])

unfoldable pub z_term_create : Library → TermType → Bytes → Term
unfolding c_string
z_term_create lib term_general buf = general buf
z_term_create lib term_string buf = character_string (c_string buf)
z_term_create lib term_numeric buf = number (lib.odr_atoi (c_string buf))
z_term_create lib term_null buf = null
z_term_create lib term_oid buf = null
z_term_create lib term_date_time buf = null

-- The term of the token.
unfoldable pub rpn_term_value : Library → Parser → Term
unfolding z_term_create escape_string
rpn_term_value lib p = z_term_create lib p.term_type (escape_string lib (token_text p))
