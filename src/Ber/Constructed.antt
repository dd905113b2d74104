-- ===== src/Ber/Constructed.antt =====
-- Constructed types: src/odr_cons.c.
pub mod Octets
pub mod Patch
pub mod Begun
pub mod Encoded
pub mod Entered
pub mod Decoded
use yaz.Prelude.{
  ℕ, zero, suc, ◌+◌, ◌-◌, Bool, true, false, not, ◌&&◌, [], ◌∷◌, List, Bytes, Option, none, some,
  length, drop, get_or, leb, ltb, ◌==◌, if◌then◌else◌,
}
use yaz.Prelude.Int.{ℤ, pos, negsuc}
use yaz.Odr.{
  Odr, Direction, decode, encode, print, invalid, odr_seterror, odr_putc, odr_write, odr_seek,
  seek_set, seek_end, on_ok, oproto, oother,
}
use yaz.Odr.Stream.{Constack, Stream, fail_with, odr_missing, stack_pop}
use yaz.Ber.Tag.{DecTag, ber_enctag, ber_dectag}
use yaz.Ber.Length.{DecLen, minus_one, minus_two, read, ber_enclen, ber_declen}
use yaz.Ber.Tagged.{
  TagFound, refused, absent, found, more_in, more_on, odr_constructed_more, start_over, tag_written,
  tag_match, tag_read_as, tag_held, is_empty, tag_in, ber_tag,
}

abbrev pub odr_setlenlen : ℕ → Stream → Stream
odr_setlenlen len s = record s { lenlen = len }

-- `ODR_MAX_STACK`; entries are kept for reuse, so one is odr_missing only beyond the deepest nesting so
-- far.
abbrev pub odr_max_stack : ℕ
odr_max_stack = 2000

abbrev pub zero_bytes : ℕ → Bytes
zero_bytes zero = []
zero_bytes (suc n) = 0 ∷ zero_bytes n

abbrev pub push : Constack → Stream → Stream
push c s = record s { stack = c ∷ s.stack }

-- The room for the length is written, and the contents begin behind it.
abbrev pub room_written : ℕ → ℕ → Stream → Odr × Bool → Stream × Bool
room_written lenlen offset s (o, true) = (
  push
      (record {
        base = length o.bp;
        base_offset = o.pos;
        len = pos 0;
        len_offset = offset;
        lenlen = lenlen;
      })
      (record s { odr = o }),
  true,
)
room_written lenlen offset s (o, false) = (record s { odr = o }, false)

abbrev pub length_read : Stream → DecLen → Stream × Bool
length_read s minus_one = (fail_with oother 31 s, false)
length_read s minus_two = (fail_with oother 31 s, false)
length_read s (read len n) =
    let bp = drop n s.odr.bp in
    let t = record s { odr = record s.odr { bp = bp } } in
    let over = elim len as (λ x. Bool) [ pos k ↦ ltb (length bp) k | negsuc _ ↦ false ] in
    if over then (fail_with oother 32 t, false) else (
      push
          (record {
            base = length bp;
            base_offset = s.odr.pos;
            len = len;
            len_offset = s.odr.pos;
            lenlen = n;
          })
          t,
      true,
    )

abbrev pub begin_in : Direction → ℕ → Stream → Stream × Bool
begin_in encode lenlen s = room_written lenlen s.odr.pos s (odr_write (zero_bytes lenlen) s.odr)
begin_in decode lenlen s = length_read s (ber_declen s.odr.bp)
begin_in print lenlen s = (
  push
      (record {
        base = length s.odr.bp;
        base_offset = s.odr.pos;
        len = pos 0;
        len_offset = s.odr.pos;
        lenlen = lenlen;
      })
      s,
  true,
)
begin_in invalid lenlen s = (fail_with oother 33 s, false)

abbrev ostack : ℕ
ostack = 9

abbrev pub begin_tagged : ℕ → Stream × TagFound → Stream × Bool
begin_tagged lenlen (s, refused) = (s, false)
begin_tagged lenlen (s, absent) = (s, false)
begin_tagged lenlen (s, found constructed) =
    if not constructed
    then (s, false)
    else if leb odr_max_stack (length s.stack)
    then (fail_with ostack 30 s, false)
    else begin_in s.odr.direction lenlen s

abbrev pub asked : ℕ → ℕ → Option (ℕ × ℕ) → ℕ × ℕ
asked zclass tag none = (zclass, tag)
asked zclass tag (some t) = t

-- An implicit tag stands in for the type's own.
unfoldable pub odr_constructed_begin : ℕ → ℕ → Bool → Stream → Stream × Bool
unfolding ber_tag
odr_constructed_begin zclass tag present s =
    let (c, t) = asked zclass tag s.implicit in
    if not (s.odr.error == 0)
    then (s, false)
    else begin_tagged s.lenlen (ber_tag c t present true true (record s { lenlen = 1 }))

abbrev olenov : ℕ
olenov = 11

abbrev oconlen : ℕ
oconlen = 10

-- Only a complete encoding takes the entry off the stack.
abbrev pub closed : Stream → Odr × Bool → Stream × Bool
closed s (o, true) = (stack_pop (record s { odr = o }), true)
closed s (o, false) = (record s { odr = o }, false)

-- `odr_putc(o, 0) < 0 || odr_putc(o, 0) < 0`
abbrev pub put_end : Odr → Odr × Bool
put_end o = on_ok (odr_putc 0 o) false λ p. on_ok (odr_putc 0 p) false λ q. (q, true)

-- Behind the length octets; 0 is the indefinite form, which ends with two zero octets.
abbrev pub end_written : Stream → Odr × ℤ → Stream × Bool
end_written s (o, negsuc _) = (fail_with olenov 37 (record s { odr = o }), false)
end_written s (o, pos n) =
    let last = (odr_seek seek_end 0 o).0 in
    if n == 0 then closed s (put_end last) else closed s (last, true)

-- By the length in the entry, the input left at the start of the contents, and the input left.
abbrev pub end_read : ℤ → ℕ → Bytes → Stream → Stream × Bool
end_read (pos n) base bp s =
    if not (base - length bp == n) then (fail_with oconlen 36 s, false) else (stack_pop s, true)
end_read (negsuc _) base bp s =
    if get_or bp 0 0 == 0 && get_or bp 1 0 == 0
    then (stack_pop (record s { odr = record s.odr { bp = drop 2 bp } }), true)
    else (
      fail_with oother 35
          (record s { odr = record s.odr { bp = drop (if get_or bp 0 0 == 0 then 2 else 1) bp } }),
      false,
    )

abbrev pub end_in : Direction → Constack → Stream → Stream × Bool
end_in decode c s = end_read c.len c.base s.odr.bp s
end_in encode c s = end_written s (
    ber_enclen (pos (s.odr.pos - c.base_offset)) c.lenlen true
      (odr_seek seek_set c.len_offset s.odr).0)
end_in print c s = (stack_pop s, true)
end_in invalid c s = (fail_with oother 38 s, false)

abbrev pub end_on : List Constack → Stream → Stream × Bool
end_on [] s = (fail_with oother 34 s, false)
end_on (c ∷ cs) s = end_in s.odr.direction c s

unfoldable pub odr_constructed_end : Stream → Stream × Bool
odr_constructed_end s = if not (s.odr.error == 0) then (s, false) else end_on s.stack s
