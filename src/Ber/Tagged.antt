-- ===== src/Ber/Tagged.antt =====
-- Tags in every direction, `ber_tag` of src/ber_tag.c, and `odr_constructed_more` of src/odr_cons.c.
use yaz.Prelude.{
  ℕ, ◌-◌, Bool, true, false, not, ◌&&◌, [], ◌∷◌, List, Bytes, Option, none, some, length, drop,
  get_or, ltb, ◌==◌, if◌then◌else◌,
}
use yaz.Prelude.Int.{ℤ, pos, negsuc}
use yaz.Odr.{Odr, Direction, decode, encode, print, invalid, oproto, oother}
use yaz.Odr.Stream.{Constack, Stream, fail_with, odr_missing}
use yaz.Ber.Tag.{DecTag, ber_enctag, ber_dectag}

-- The results of `ber_tag`: -1, 0, or 1 with `*constructed`.
pub data TagFound : Type 0 where
  refused absent : TagFound
  found : Bool → TagFound

-- `bp - base < len`, or no end of contents here.
abbrev pub more_in : ℤ → ℕ → Bytes → Bool
more_in (pos n) base bp = ltb (base - length bp) n
more_in (negsuc _) base bp = not (get_or bp 0 0 == 0 && get_or bp 1 0 == 0)

abbrev pub more_on : List Constack → Bytes → Bool
more_on [] bp = false
more_on (c ∷ cs) bp = more_in c.len c.base bp

-- At the end of the buffer the code reads what lies behind it; the bytes are taken as 0.
unfoldable pub odr_constructed_more : Stream → Bool
odr_constructed_more s = if not (s.odr.error == 0) then false else more_on s.stack s.odr.bp

-- Outside all constructed types a stream starts over.
abbrev pub start_over : List Constack → Stream → Stream
start_over [] s = record s { odr = record s.odr { pos = 0; top = 0; bp = s.input }; held = none }
start_over (c ∷ cs) s = s

abbrev pub tag_written : Bool → Stream → Odr × ℤ → Stream × TagFound
tag_written constructed s (o, pos _) = (record s { odr = o }, found constructed)
tag_written constructed s (o, negsuc _) = (record s { odr = o }, refused)

-- A tag that was read, against the one asked for.
abbrev pub tag_match : ℕ → ℕ → Bool → DecTag → Stream → Stream × TagFound
tag_match zclass tag opt t s =
    if zclass == t.zclass && tag == t.tag
    then (
      record s { odr = record s.odr { bp = drop t.len s.odr.bp }; held = none },
      found t.constructed,
    )
    else (odr_missing opt 27 (record s { held = some t }), absent)

abbrev pub tag_read_as : ℕ → ℕ → Bool → Stream → Option DecTag → Stream × TagFound
tag_read_as zclass tag opt s none = (fail_with oproto 26 s, absent)
tag_read_as zclass tag opt s (some t) = tag_match zclass tag opt t s

abbrev pub tag_held : ℕ → ℕ → Bool → Stream → Option DecTag → Stream × TagFound
tag_held zclass tag opt s none = tag_read_as zclass tag opt s (ber_dectag s.odr.bp)
tag_held zclass tag opt s (some t) = tag_match zclass tag opt t s

abbrev pub is_empty : List Constack → Bool
is_empty [] = true
is_empty (c ∷ cs) = false

abbrev pub tag_in : Direction → ℕ → ℕ → Bool → Bool → Bool → Stream → Stream × TagFound
tag_in encode zclass tag present constructed opt s =
    if not present
    then (odr_missing opt 24 s, absent)
    else tag_written constructed s (ber_enctag zclass tag constructed s.odr)
tag_in decode zclass tag present constructed opt s =
    if not (is_empty s.stack) && not (odr_constructed_more s)
    then (odr_missing opt 25 s, absent)
    else tag_held zclass tag opt s s.held
tag_in print zclass tag present constructed opt s =
    if present then (s, found constructed) else (odr_missing opt 28 s, absent)
tag_in invalid zclass tag present constructed opt s = (fail_with oother 29 s, absent)

-- `present` tells that `*p` is not null.
unfoldable pub ber_tag : ℕ → ℕ → Bool → Bool → Bool → Stream → Stream × TagFound
unfolding odr_constructed_more
ber_tag zclass tag present constructed opt s =
    tag_in s.odr.direction zclass tag present constructed opt
      (start_over s.stack (record s { implicit = none }))
