-- ===== src/Pqf.antt =====
-- The prefix query format: src/pquery.c, which reads it, and src/querytowrbuf.c, which writes it, on
-- the queries of Z39.50. A query owns its nodes, so that it is a value; bytes stand for characters.
pub mod State
pub mod Lexer
pub mod Attributes
pub mod Parser
pub mod Scan
pub mod Writer
pub mod Text
pub mod Tokens
pub mod Terms
pub mod Elements
pub mod Values
pub mod Named
pub mod Operators
pub mod Structures
pub mod Operands
pub mod Composed
pub mod Endings
pub mod RoundTrip
pub mod Progress
pub mod Advances
pub mod Completes
pub mod Halts
pub mod Chosen
pub mod Agrees
pub mod Finishes
pub mod Errors
pub mod Bounds
use yaz.Prelude.{ℕ, Bool, List, Bytes, Option}
use yaz.Prelude.Int.{ℤ}

abbrev pub Oid : Type 0
Oid = List ℕ

-- The look-ups of src/oid_db.c on its generated table, for attribute sets: `yaz_string_to_oid_odr` and
-- `yaz_oid_to_string_buf`; the object identifier of Bib-1; and of the C library `strtoll` and
-- `atoi` without their end pointer, what `%lld` and `%d` print, and the byte that `sscanf` with `%x`
-- and with `%o` leaves in a `char` whose number was 0.
pub record Library : Type 0 where
  pub string_to_oid : Bytes → Option Oid
  pub oid_to_string : Oid → Option Bytes
  pub attset_bib_1 : Oid
  pub odr_atoi : Bytes → ℤ
  pub atoi : Bytes → ℤ
  pub print_int : ℤ → Bytes
  pub scan_hex : Bytes → ℕ
  pub scan_octal : Bytes → ℕ

-- `Z_StringOrNumeric`, and the value of an attribute.
pub data StringOrNumeric : Type 0 where
  item_string : Bytes → StringOrNumeric
  item_numeric : ℤ → StringOrNumeric

pub data AttributeValue : Type 0 where
  numeric : ℤ → AttributeValue
  complex : List StringOrNumeric → AttributeValue

-- `Z_AttributeElement`
pub record Attribute : Type 0 where
  pub attribute_set : Option Oid
  pub attribute_type : ℤ
  pub value : AttributeValue

-- The values of `Z_Term_...` that `li->term_type` takes.
pub data TermType : Type 0 where
  term_general term_numeric term_string term_oid term_date_time term_null : TermType

-- `Z_Term`; `other` stands for the remaining kinds, with the number in `which`.
pub data Term : Type 0 where
  general : Bytes → Term
  character_string : Bytes → Term
  number : ℤ → Term
  null : Term
  other : ℤ → Term

-- `Z_ProximityOperator`: the unit is known or private.
pub data UnitKind : Type 0 where
  known_unit private_unit : UnitKind

pub record Proximity : Type 0 where
  pub exclusion : Option Bool
  pub distance : ℤ
  pub ordered : Bool
  pub relation_type : ℤ
  pub which : UnitKind
  pub unit : ℤ

pub data Operator : Type 0 where
  op_and op_or op_and_not : Operator
  op_prox : Proximity → Operator

-- `Z_RPNStructure` with `Z_Complex`, `Z_Operand` and `Z_AttributesPlusTerm`. An `unset` structure is
-- memory whose `which` nothing has written.
pub data RpnStructure : Type 0 where
  complex_structure : Operator → RpnStructure → RpnStructure → RpnStructure
  attributes_plus_term : List Attribute → Term → RpnStructure
  result_set_id : Bytes → RpnStructure
  unset : RpnStructure

-- `Z_RPNQuery`
pub record RpnQuery : Type 0 where
  pub attribute_set_id : Oid
  pub structure : RpnStructure
