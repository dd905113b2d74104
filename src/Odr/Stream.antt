-- ===== src/Odr/Stream.antt =====
-- The decoding and nesting state of an ODR stream, behind its buffers: `struct odr_constack` and
-- `struct Odr_private` of src/odr-priv.h.
use yaz.Prelude.{ℕ, Bool, [], ◌∷◌, List, Bytes, Option, if◌then◌else◌}
use yaz.Prelude.Int.{ℤ}
use yaz.Ber.Tag.{DecTag}
use yaz.Odr.{Odr, odr_seterror, orequired}

-- `struct odr_constack`. `base` is the number of input bytes left at the start of the contents.
pub record Constack : Type 0 where
  pub base : ℕ
  pub base_offset : ℕ
  pub len : ℤ
  pub len_offset : ℕ
  pub lenlen : ℕ

-- `t_class` and `t_tag` are an implicit tag, if `t_class` is not negative. `held` is what `odr_ber_tag`
-- keeps of a tag that was read and not yet taken, if `lclass` is not negative; after an error it is not
-- read again. `stack` has the top first, and its length is `stack_depth`. `input` is the whole buffer
-- of a decoding stream.
pub record Stream : Type 0 where
  pub odr : Odr
  pub input : Bytes
  pub implicit : Option (ℕ × ℕ)
  pub held : Option DecTag
  pub lenlen : ℕ
  pub stack : List Constack

abbrev pub fail_with : ℕ → ℕ → Stream → Stream
fail_with error id s = record s { odr = odr_seterror error id s.odr }

-- `if (!opt) odr_seterror(o, OREQUIRED, id)`
abbrev pub odr_missing : Bool → ℕ → Stream → Stream
odr_missing opt id s = if opt then s else fail_with orequired id s

-- `ODR_STACK_POP`
abbrev pub pop_rest : List Constack → List Constack
pop_rest [] = []
pop_rest (c ∷ cs) = cs

abbrev pub stack_pop : Stream → Stream
stack_pop s = record s { stack = pop_rest s.stack }
