-- ===== src/Uri.antt =====
-- URI encoding and query strings: src/uri.c. A string is the list of its bytes, which are not 0.
pub mod Component
pub mod Query
pub mod Pairs
use yaz.Prelude.{
  ℕ, zero, suc, ◌+◌, ◌-◌, ◌*◌, ◌/◌, ◌%◌, Bool, true, false, not, ◌&&◌, ◌||◌, [], ◌∷◌, ◌++◌, Bytes,
  List, Option, none, some, length, get_or, drop, leb, ltb, ◌==◌, within, if◌then◌else◌,
}

-- `none` stands for -1.
unfoldable pub hex_digit : ℕ → Option ℕ
hex_digit ch =
    if within b'0' b'9' ch
    then some (ch - b'0')
    else if within b'a' b'f' ch
    then some (ch - b'a' + 10)
    else if within b'A' b'F' ch
    then some (ch - b'A' + 10)
    else none

-- A digit of `%02X`.
abbrev pub upper_hex : ℕ → ℕ
upper_hex d = if ltb d 10 then d + b'0' else d - 10 + b'A'

-- Letters, digits and the characters of "-._~".
unfoldable pub is_unreserved : ℕ → Bool
is_unreserved ch =
    within b'A' b'Z' ch
    || within b'a' b'z' ch
    || within b'0' b'9' ch
    || ch == b'-'
    || ch == b'.'
    || ch == b'_'
    || ch == b'~'

unfoldable pub encode_uri_char : ℕ → Bytes
encode_uri_char ch =
    if is_unreserved ch then ch ∷ [] else b'%' ∷ upper_hex (ch / 16) ∷ upper_hex (ch % 16) ∷ []

unfoldable pub yaz_encode_uri_component : Bytes → Bytes
yaz_encode_uri_component [] = []
yaz_encode_uri_component (c ∷ uri) = encode_uri_char c ++ yaz_encode_uri_component uri

-- The two digits behind a percent sign.
unfoldable pub hex_pair : Option ℕ → Option ℕ → ℕ → ℕ × ℕ
hex_pair (some d1) (some d2) ch = (d1 * 16 + d2, 3)
hex_pair _ _ ch = (ch, 1)

-- The character, and how many bytes it took. The list is the memory from `path` on: what lies behind
-- the end of a string reads as its terminator.
unfoldable pub decode_uri_char : Bytes → ℕ → ℕ × ℕ
unfolding hex_pair
decode_uri_char path len =
    let c = get_or path 0 0 in
    if c == b'+'
    then (b' ', 1)
    else if c == b'%' && leb 3 len
    then hex_pair (hex_digit (get_or path 1 0)) (hex_digit (get_or path 2 0)) c
    else (c, 1)

-- `while (len)`: each round takes a byte at least, so the length is enough fuel.
unfoldable pub decode_loop : ℕ → Bytes → Bytes
decode_loop zero uri = []
decode_loop (suc fuel) [] = []
decode_loop (suc fuel) (c ∷ uri) =
    let (ch, sz) = decode_uri_char (c ∷ uri) (length (c ∷ uri)) in
    ch ∷ decode_loop fuel (drop sz (c ∷ uri))

unfoldable pub yaz_decode_uri_component : Bytes → Bytes
yaz_decode_uri_component uri = decode_loop (length uri) uri

-- A name and a value.
pub record Pair : Type 0 where
  pub name : Bytes
  pub value : Bytes

-- The size that `yaz_array_to_uri` allocates.
unfoldable pub array_size : List Pair → ℕ
array_size [] = 1
array_size (p ∷ ps) = length p.name + 3 + length p.value * 3 + array_size ps

abbrev pub pair_text : Pair → Bytes
pair_text p = p.name ++ b'=' ∷ yaz_encode_uri_component p.value

-- The loop from its second round on.
unfoldable pub more_pairs : List Pair → Bytes
more_pairs [] = []
more_pairs (p ∷ ps) = b'&' ∷ (pair_text p ++ more_pairs ps)

-- The bytes before the terminator.
unfoldable pub yaz_array_to_uri : List Pair → Bytes
yaz_array_to_uri [] = []
yaz_array_to_uri (p ∷ ps) = pair_text p ++ more_pairs ps

-- `*cp && *cp != '=' && *cp != '&'`
abbrev pub ends_name : ℕ → Bool
ends_name c = c == b'=' || c == b'&'

unfoldable pub name_of : Bytes → Bytes
name_of [] = []
name_of (c ∷ cs) = let rest = name_of cs in if ends_name c then [] else c ∷ rest

unfoldable pub after_name : Bytes → Bytes
after_name [] = []
after_name (c ∷ cs) = let rest = after_name cs in if ends_name c then c ∷ cs else rest

-- The first loop over the string: `no`, or `none` where a name behind an ampersand has a character
-- that is not sane. The flag says whether `cp` is within such a name.
unfoldable pub count_names : Bool → Bytes → ℕ → Option ℕ
count_names inside [] count = some count
count_names inside (c ∷ cs) count =
    let start = count_names true cs (count + 1) in
    let skip = count_names false cs count in
    let stay = count_names true cs count in
    if c == b'&'
    then start
    else if not inside || c == b'='
    then skip
    else if leb c b' ' || leb 127 c
    then none
    else stay

-- The decoded value up to an ampersand or the end, and what follows it. Fuel as above.
unfoldable pub decode_value : ℕ → Bytes → Bytes × Bytes
decode_value zero path = ([], path)
decode_value (suc fuel) [] = ([], [])
decode_value (suc fuel) (c ∷ path) =
    let stop : Bytes × Bytes = ([], c ∷ path) in
    let go : Bytes × Bytes =
      let (ch, l) = decode_uri_char (c ∷ path) 3 in
      let (value, rest) = decode_value fuel (drop l (c ∷ path)) in (ch ∷ value, rest) in
    if c == b'&' then stop else go

-- `while (*path == '&') path++;`
unfoldable pub skip_ampersands : Bytes → Bytes
skip_ampersands [] = []
skip_ampersands (c ∷ cs) = let rest = skip_ampersands cs in if c == b'&' then rest else c ∷ cs

-- Behind a name: the value if there is an equals sign, and the rest of the string.
unfoldable pub value_of : Bytes → Bytes × Bytes
unfolding decode_value
value_of [] = ([], [])
value_of (c ∷ path) = if c == b'=' then decode_value (length path) path else ([], c ∷ path)

-- The body of the loop over the pairs, behind the ampersands.
unfoldable pub read_pair : (Bytes → List Pair) → Bytes → List Pair
unfolding value_of name_of after_name
read_pair again [] = []
read_pair again (c ∷ cs) =
    let (value, rest) = value_of (after_name (c ∷ cs)) in
    record { name = name_of (c ∷ cs); value = value } ∷ again rest

-- The loop over the pairs. Each round takes a byte at least.
unfoldable pub read_pairs : ℕ → Bytes → List Pair
unfolding read_pair skip_ampersands
read_pairs zero path = []
read_pairs (suc fuel) path = read_pair (read_pairs fuel) (skip_ampersands path)

abbrev pub without_mark : Bytes → Bytes
without_mark [] = []
without_mark (c ∷ cs) = if c == b'?' then cs else c ∷ cs

-- What follows the first loop.
unfoldable pub read_counted : Option ℕ → Bytes → Option (List Pair)
unfolding read_pairs
read_counted none path = none
read_counted (some n) path = some (read_pairs (length path) path)

unfoldable pub read_path : Bytes → Option (List Pair)
unfolding read_counted count_names
read_path [] = none
read_path (c ∷ cs) = read_counted (count_names false (c ∷ cs) 2) (c ∷ cs)

-- `none` where the function returns 0 with `*name` null.
unfoldable pub yaz_uri_to_array : Bytes → Option (List Pair)
unfolding read_path
yaz_uri_to_array path = read_path (without_mark path)
