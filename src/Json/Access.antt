-- ===== src/Json/Access.antt =====
-- The accessors of JSON trees: the functions behind the writer in src/json.c.
use yaz.Prelude.{ℕ, zero, suc, ◌+◌, ◌-◌, ◌≡◌, Bytes, Option, none, some, ltb, if◌then◌else◌, arith}
use yaz.Prelude.Int.{ℤ, pos, negsuc}
use yaz.Json.{Node, object, array, Members, no_members, member, Elements, no_elements, element}
use yaz.Json.Scan.{same_text}

unfoldable pub find_member : Bytes → Members → Option Node
unfolding same_text
find_member name no_members = none
find_member name (member s n ms) =
    let rest = find_member name ms in if same_text name s then some n else rest

-- A null pointer is `none`.
unfoldable pub json_get_object : Option Node → Bytes → Option Node
unfolding find_member
json_get_object (some (object ms)) name = find_member name ms
json_get_object _ name = none

abbrev pub first_element : Elements → Option Node
first_element no_elements = none
first_element (element n ns) = some n

-- `if (--idx < 0) return n->u.link[0];`
unfoldable pub nth_element : ℕ → Elements → Option Node
nth_element i no_elements = none
nth_element zero (element n ns) = some n
nth_element (suc i) (element n ns) = nth_element i ns

-- A negative index gives the first element.
unfoldable pub json_get_elem : Option Node → ℤ → Option Node
unfolding nth_element
json_get_elem (some (array ns)) (pos i) = nth_element i ns
json_get_elem (some (array ns)) (negsuc i) = first_element ns
json_get_elem _ idx = none

unfoldable pub count_elements : Elements → ℕ
count_elements no_elements = 0
count_elements (element n ns) = suc (count_elements ns)

unfoldable pub count_members : Members → ℕ
count_members no_members = 0
count_members (member s n ms) = suc (count_members ms)

unfoldable pub json_count_children : Option Node → ℕ
unfolding count_elements count_members
json_count_children (some (array ns)) = count_elements ns
json_count_children (some (object ms)) = count_members ms
json_count_children _ = 0

-- The chain behind the last element.
unfoldable pub append_elements : Elements → Elements → Elements
append_elements no_elements ms = ms
append_elements (element n ns) ms = element n (append_elements ns ms)

-- The destination behind a call that returns 0, which takes the source, a node of its own; `none`
-- for -1.
unfoldable pub json_append_array : Option Node → Option Node → Option Node
unfolding append_elements
json_append_array (some (array ns)) (some (array ms)) = some (array (append_elements ns ms))
json_append_array _ _ = none

nth_element-append :
    (i : ℕ) (ns ms : Elements)
    → nth_element i (append_elements ns ms) ≡ (
        if ltb i (count_elements ns)
        then nth_element i ns
        else nth_element (i - count_elements ns) ms)
unfolding nth_element append_elements count_elements
nth_element-append i no_elements ms = ground arith
nth_element-append zero (element n ns) ms = ground arith
nth_element-append (suc i) (element n ns) ms = ground (arith, nth_element-append i ns ms)

count-append :
    (ns ms : Elements)
    → count_elements (append_elements ns ms) ≡ count_elements ns + count_elements ms
unfolding append_elements count_elements
count-append no_elements ms = omega arith
count-append (element n ns) ms = omega (arith, count-append ns ms)

-- Behind `json_append_array` of two arrays, the first has the children of both: as many as both
-- together, the elements of the first at their places, and those of the second behind them.
pub json_get_elem-append_array :
    (ns ms : Elements) (i : ℕ)
    → let dst = some (array ns) in
      let src = some (array ms) in
      let both = json_append_array dst src in
      (json_count_children both ≡ json_count_children dst + json_count_children src)
      × (json_get_elem both (pos i) ≡ (
          if ltb i (json_count_children dst)
          then json_get_elem dst (pos i)
          else json_get_elem src (pos (i - json_count_children dst))))
unfolding json_append_array json_get_elem json_count_children
json_get_elem-append_array ns ms i = (count-append ns ms, nth_element-append i ns ms)
