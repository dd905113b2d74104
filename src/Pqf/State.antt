-- ===== src/Pqf/State.antt =====
-- The state of the parser of src/pquery.c, and what its functions return.
use yaz.Prelude.{ℕ, Bool, [], Bytes, get_or, within, length, ◌-◌}
use yaz.Pqf.{TermType, term_general}

-- What `query_token` returns: 0, 'a', 'o', 'n', 'l', 's', 'r', 'p', 'y' and 't'.
pub data Look : Type 0 where
  at_end and_token or_token not_token attr_token set_token attrset_token prox_token term_token
        text_token :
      Look

-- The codes `YAZ_PQF_ERROR_...`
pub data Error : Type 0 where
  no_error extra missing attset too_many bad_attr internal proximity bad_integer : Error

-- `struct yaz_pqf_parser`: the pointers are the text from there to the end of the query. The
-- separators and the escape character are constant.
pub record Parser : Type 0 where
  pub query_buf : Bytes
  pub query_ptr : Bytes
  pub lex_buf : Bytes
  pub lex_len : ℕ
  pub query_look : Look
  pub term_type : TermType
  pub error : Error

abbrev pub yaz_pqf_create : Parser
yaz_pqf_create = record {
  query_buf = [];
  query_ptr = [];
  lex_buf = [];
  lex_len = 0;
  query_look = at_end;
  term_type = term_general;
  error = no_error;
}

abbrev pub pqf_parser_begin : Bytes → Parser → Parser
pqf_parser_begin buf p = record p { query_buf = buf; query_ptr = buf; lex_buf = [] }

-- A result and the parser behind it, or a null pointer. Running out of fuel has no counterpart in the
-- program.
pub data Outcome {ℓ} (A : Type ℓ) : Type ℓ where
  done : A → Parser → Outcome A
  failed : Parser → Outcome A
  out_of_fuel : Outcome A

-- A null pointer is returned at once.
abbrev pub and_then {ℓ κ} :
    {A : Type ℓ} {B : Type κ} → Outcome A → (A → Parser → Outcome B) → Outcome B
and_then (done a p) f = f a p
and_then (failed p) f = failed p
and_then out_of_fuel f = out_of_fuel

abbrev pub fail {ℓ} : {A : Type ℓ} → Error → Parser → Outcome A
fail e p = failed (record p { error = e })

abbrev pub is_digit : ℕ → Bool
is_digit c = within b'0' b'9' c

-- `*cp`, with 0 at the end.
abbrev pub peek : Bytes → ℕ
peek cs = get_or cs 0 0

-- The code and the offset that `yaz_pqf_error` reports.
unfoldable pub yaz_pqf_error : Parser → Error × ℕ
yaz_pqf_error p = (p.error, length p.query_buf - length p.query_ptr)
