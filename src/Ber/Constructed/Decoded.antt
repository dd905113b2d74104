-- ===== src/Ber/Constructed/Decoded.antt =====
-- What `odr_constructed_begin` and `odr_constructed_end` of src/odr_cons.c read round a body.
use yaz.Prelude.{◌≡◌, true, false, List, Bytes}
use yaz.Odr.Stream.{Constack, Stream}
use yaz.Ber.Tagged.{odr_constructed_more}
use yaz.Ber.Constructed.{odr_constructed_end}

-- Behind the body: no more of it is left, and the end is taken.
pub record IsOutside (rest : Bytes) (stack : List Constack) (t : Stream) : Type 0 where
  pub no_more : odr_constructed_more t ≡ false
  pub result : (odr_constructed_end t).1 ≡ true
  pub left : (odr_constructed_end t).0.odr.bp ≡ rest
  pub popped : (odr_constructed_end t).0.stack ≡ stack
  pub no_error : (odr_constructed_end t).0.odr.error ≡ 0
