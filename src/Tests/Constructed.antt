-- ===== src/Tests/Constructed.antt =====
-- Constructed types of src/odr_cons.c on streams.
use yaz.Prelude.{length, ◌≡◌, refl, true, false, [], ◌∷◌, ◌++◌, none, arith}
use yaz.Odr.{decode, odr_grow_block, odr_putc, odr_write, on_ok}
use yaz.Ber.Tag.{ber_enctag}
use yaz.Odr.Buffer.{HasRoom}
use yaz.Odr.Appends.{Appends, odr_write-Appends, Appends-with}
use yaz.Odr.Stream.{Stream}
use yaz.Ber.Constructed.{odr_constructed_begin, odr_constructed_end}
use yaz.Ber.Constructed.Octets.{constructed_octets}
use yaz.Ber.Constructed.Begun.{IsOpen, contents_size, odr_constructed_begin-HasBegun}
use yaz.Ber.Constructed.Encoded.{HasEnded, odr_constructed_end-octets}
use yaz.Tests.Streams.{output, output-HasRoom}

abbrev writer : Stream
writer = record { odr = output; input = []; implicit = none; held = none; lenlen = 1; stack = [] }

writer-IsOpen : IsOpen [] writer
writer-IsOpen = record {
  encodes = refl;
  no_error = refl;
  no_implicit = refl;
  short_length = refl;
  behind = record { grows = refl; at_top = refl; written = omega arith };
  wrote = refl;
  shallow = refl;
}

abbrev begun : Stream
begun = (odr_constructed_begin 2 3 true writer).0

-- Behind a body of three bytes.
abbrev filled : Stream
filled = record begun { odr = (odr_write (1 ∷ 2 ∷ 3 ∷ []) begun.odr).0 }

filled-Appends : Appends true (1 ∷ 2 ∷ 3 ∷ []) begun.odr (filled.odr, true)
filled-Appends =
    let b =
      odr_constructed_begin-HasBegun 2 3 [] writer writer-IsOpen (omega arith) (omega arith) in
    Appends-with true true (1 ∷ 2 ∷ 3 ∷ []) begun.odr (odr_write (1 ∷ 2 ∷ 3 ∷ []) begun.odr) (
      odr_write-Appends (1 ∷ 2 ∷ 3 ∷ []) begun.odr b.at_end
        (ground (arith, contents_size begun.odr b.at_end, b.wrote)))

filled-HasRoom : HasRoom 2 filled.odr
unfolding odr_constructed_begin ber_enctag odr_putc odr_write odr_grow_block on_ok
filled-HasRoom = (omega arith, omega arith, omega arith)

odr_constructed_end-octets_example :
    ((odr_constructed_begin 2 3 true writer).1 ≡ true)
    × HasEnded [] (constructed_octets 2 3 (1 ∷ 2 ∷ 3 ∷ [])) [] (odr_constructed_end filled)
odr_constructed_end-octets_example =
    odr_constructed_end-octets 2 3 [] (1 ∷ 2 ∷ 3 ∷ []) writer filled writer-IsOpen (omega arith)
      (omega arith)
      (output-HasRoom (length (constructed_octets 2 3 (1 ∷ 2 ∷ 3 ∷ []))) (omega arith))
      filled-HasRoom refl filled-Appends

abbrev reader : Stream
reader = record {
  odr = record output { direction = decode };
  input = constructed_octets 1 4 (5 ∷ 6 ∷ []) ++ 9 ∷ [];
  implicit = none;
  held = none;
  lenlen = 1;
  stack = [];
}

abbrev entered : Stream
entered = (odr_constructed_begin 1 4 false reader).0

abbrev passed : Stream
passed = record entered { odr = record entered.odr { bp = 9 ∷ [] } }
