-- ===== src/Json.antt =====
-- JSON trees: src/json.c and src/yaz/json.h. A tree owns its nodes, so that it is a value. A `double`
-- is the number of its 64 bits.
pub mod State
pub mod Scan
pub mod Parser
pub mod Writer
pub mod Access
pub mod Strings
pub mod Numbers
pub mod Blank
pub mod Reads
pub mod Brackets
pub mod Arrays
pub mod Pairs
pub mod Objects
pub mod Layout
pub mod Values
pub mod RoundTrip
pub mod Forward
pub mod Loops
pub mod Halts
use yaz.Prelude.{ℕ, zero, suc, ◌+◌, Bool, true, false, Bytes, Option, none, some, []}

-- The operations of the C library, on the bytes from the argument on: `sscanf(s, "%4x%n", ...)` with
-- the code and `no_read`, which is 0 for a failure; `strtod` with the value and the number of bytes up
-- to `endptr`; and what `%lg` prints.
pub record Library : Type 0 where
  pub scan_hex4 : Bytes → ℕ × ℕ
  pub strtod : Bytes → ℕ × ℕ
  pub print_lg : ℕ → Bytes

-- The children of an object are the chain of `json_node_list` nodes with their `json_node_pair`s, those
-- of an array the chain with the elements; the end of a chain is the null `link[1]`, and an empty
-- object or array has a null `link[0]`.
mutual
  pub data Node : Type 0 where
    object : Members → Node
    array : Elements → Node
    string : Bytes → Node
    number : ℕ → Node
    true_node false_node null_node : Node

  pub data Members : Type 0 where
    no_members : Members
    member : Bytes → Node → Members → Members

  pub data Elements : Type 0 where
    no_elements : Elements
    element : Node → Elements → Elements
