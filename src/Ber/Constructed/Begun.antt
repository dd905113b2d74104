-- ===== src/Ber/Constructed/Begun.antt =====
-- What `odr_constructed_begin` of src/odr_cons.c writes.
use yaz.Prelude.{
  ℕ, ◌+◌, ◌^◌, ◌<◌, ◌≡◌, ◌∙◌, ap, sym, refl, subst, Bool, true, false, not, [], ◌∷◌, ◌++◌, List,
  Bytes, Option, none, length, length-append, length-take, leb, ◌==◌, if◌then◌else◌, arith,
}
use yaz.Prelude.Int.{ℤ, pos, negsuc}
use yaz.Odr.{Odr, Direction, encode, odr_write}
use yaz.Odr.Appends.{contents, AtEnd, Appends-pos, odr_write-Appends}
use yaz.Odr.Stream.{Constack, Stream, fail_with}
use yaz.Ber.Tag.{ber_enctag}
use yaz.Ber.Tag.RoundTrip.{tag_octets, ber_enctag-Appends}
use yaz.Ber.Tagged.{found, tag_in, tag_written, start_over}
use yaz.Ber.Constructed.{
  begin_tagged, begin_in, room_written, odr_constructed_begin, odr_max_stack, ostack, asked,
}

-- The entry for a type that began behind `pre`, which ends with the identifier.
pub record IsEntry (pre : Bytes) (c : Constack) : Type 0 where
  pub short_length : c.lenlen ≡ 1
  pub length_at : c.len_offset ≡ length pre
  pub contents_at : c.base_offset ≡ length pre + 1

-- In front of the contents: the identifier and a byte for the length are written.
pub record HasBegun (pre : Bytes) (stack : List Constack) (r : Stream × Bool) : Type 0 where
  pub result : r.1 ≡ true
  pub wrote : contents r.0.odr ≡ pre ++ 0 ∷ []
  pub at_end : AtEnd r.0.odr
  pub encodes : r.0.odr.direction ≡ encode
  pub no_error : r.0.odr.error ≡ 0
  pub entry : Constack
  pub is_entry : IsEntry pre entry
  pub pushed : r.0.stack ≡ entry ∷ stack

pub tag_written-found :
    (u : Stream) (w : Odr × ℤ) (k : ℕ)
    → w.1 ≡ pos k
    → tag_written true u w ≡ (record u { odr = w.0 }, found true)
tag_written-found u (o, pos n) k e = refl
tag_written-found u (o, negsuc n) k e = absurd (ground arith)

pub room_written-begun :
    (u : Stream) (offset : ℕ) (w : Odr × Bool)
    → w.1 ≡ true
    → room_written 1 offset u w ≡ (
      record u {
        odr = w.0;
        stack =
            record {
              base = length w.0.bp;
              base_offset = w.0.pos;
              len = pos 0;
              len_offset = offset;
              lenlen = 1;
            }
            ∷ u.stack;
      },
      true,
    )
room_written-begun u offset (o, true) e = refl
room_written-begun u offset (o, false) e = absurd (ground arith)

pub contents_size : (o : Odr) → AtEnd o → length (contents o) ≡ o.pos
contents_size o e = omega (arith, length-take o.top o.buf, e.at_top, e.written)

pub begin_tagged-HasBegun :
    (zclass tag : ℕ) (u : Stream)
    → u.odr.direction ≡ encode
    → u.odr.error ≡ 0
    → AtEnd u.odr
    → leb odr_max_stack (length u.stack) ≡ false
    → u.odr.pos + length (tag_octets zclass tag true) + 1 < 2 ^ 30
    → tag < 2 ^ 28
    → HasBegun
        (contents u.odr ++ tag_octets zclass tag true)
        u.stack
        (begin_tagged 1 (tag_in encode zclass tag true true true u))
begin_tagged-HasBegun zclass tag u d n e r m i =
    let w = ber_enctag zclass tag true u.odr in
    let octets = tag_octets zclass tag true in
    let t = ber_enctag-Appends zclass tag true u.odr e (omega arith) i in
    let here = Appends-pos _ octets u.odr w e t in
    let v = odr_write (0 ∷ []) w.0 in
    let z = odr_write-Appends (0 ∷ []) w.0 t.at_end (omega (arith, here, m)) in
    let there = Appends-pos _ (0 ∷ []) w.0 v t.at_end z in
    let offset : length (contents u.odr ++ octets) ≡ w.0.pos =
      omega (arith, length-append (contents u.odr) octets, contents_size u.odr e, here) in
    let entry : Constack = record {
      base = length v.0.bp;
      base_offset = v.0.pos;
      len = pos 0;
      len_offset = w.0.pos;
      lenlen = 1;
    } in
    let all : begin_tagged 1 (tag_in encode zclass tag true true true u)
        ≡ (record u { odr = v.0; stack = entry ∷ u.stack }, true) =
      ap (begin_tagged 1) (tag_written-found u w _ t.result)
      ∙ ap
          (λ b.
            if b
            then (fail_with ostack 30 (record u { odr = w.0 }), false)
            else begin_in w.0.direction 1 (record u { odr = w.0 }))
          r
      ∙ ap (λ x. begin_in x 1 (record u { odr = w.0 })) (t.direction ∙ d)
      ∙ room_written-begun (record u { odr = w.0 }) w.0.pos v z.result in
    rw all (record {
      result = refl;
      wrote = z.appended ∙ ap (λ xs. xs ++ 0 ∷ []) t.appended;
      at_end = z.at_end;
      encodes = z.direction ∙ t.direction ∙ d;
      no_error = z.error ∙ t.error ∙ n;
      entry = entry;
      is_entry = record {
        short_length = refl;
        length_at = sym offset;
        contents_at = omega (arith, offset, there);
      };
      pushed = refl;
    })

-- A stream that can begin a constructed type, with the length in one octet, and that has written `pre`;
-- outside all other types it starts over.
pub record IsOpen (pre : Bytes) (s : Stream) : Type 0 where
  pub encodes : s.odr.direction ≡ encode
  pub no_error : s.odr.error ≡ 0
  pub no_implicit : s.implicit ≡ none
  pub short_length : s.lenlen ≡ 1
  pub behind : AtEnd (start_over s.stack s).odr
  pub wrote : contents (start_over s.stack s).odr ≡ pre
  pub shallow : leb odr_max_stack (length s.stack) ≡ false

pub begun_at :
    (zclass tag : ℕ) (u : Stream) (pre : Bytes) (st : List Constack)
    → u.odr.direction ≡ encode
    → u.odr.error ≡ 0
    → AtEnd u.odr
    → contents u.odr ≡ pre
    → u.stack ≡ st
    → leb odr_max_stack (length st) ≡ false
    → length pre + length (tag_octets zclass tag true) + 1 < 2 ^ 30
    → tag < 2 ^ 28
    → HasBegun
        (pre ++ tag_octets zclass tag true)
        st
        (begin_tagged 1 (tag_in encode zclass tag true true true u))
begun_at zclass tag u pre st d n e h k r m i =
    let octets = tag_octets zclass tag true in
    let res = begin_tagged 1 (tag_in encode zclass tag true true true u) in
    let begun : HasBegun (contents u.odr ++ octets) u.stack res =
      begin_tagged-HasBegun zclass tag u d n e (ap (λ x. leb odr_max_stack (length x)) k ∙ r)
        (omega (arith, contents_size u.odr e, ap length h, m)) i in
    subst (λ x. HasBegun (pre ++ octets) x res) k
      (subst (λ p. HasBegun (p ++ octets) u.stack res) h begun)

pub started :
    (zclass tag : ℕ) (st : List Constack) (s : Stream) (pre : Bytes)
    → s.stack ≡ st
    → s.odr.direction ≡ encode
    → s.odr.error ≡ 0
    → leb odr_max_stack (length st) ≡ false
    → AtEnd (start_over st s).odr
    → contents (start_over st s).odr ≡ pre
    → length pre + length (tag_octets zclass tag true) + 1 < 2 ^ 30
    → tag < 2 ^ 28
    → HasBegun (pre ++ tag_octets zclass tag true) st (
        begin_tagged 1 (
          tag_in encode zclass tag true true true
            (start_over st (record s { implicit = none; lenlen = 1 }))))
started zclass tag [] s pre k d n r e h m i =
    begun_at zclass tag (start_over [] (record s { implicit = none; lenlen = 1 })) pre [] d n e h k
      r m i
started zclass tag (c ∷ cs) s pre k d n r e h m i =
    begun_at zclass tag (record s { implicit = none; lenlen = 1 }) pre (c ∷ cs) d n e h k r m i

-- For a tag below 2^28, at a depth below 2000, on a stream that encodes without an error and has
-- room for its length in one octet: `odr_constructed_begin` succeeds, appends the identifier and
-- one byte, and puts an entry for the contents on the stack.
pub odr_constructed_begin-HasBegun :
    (zclass tag : ℕ) (pre : Bytes) (s : Stream)
    → IsOpen pre s
    → length pre + length (tag_octets zclass tag true) + 1 < 2 ^ 30
    → tag < 2 ^ 28
    → HasBegun (pre ++ tag_octets zclass tag true) s.stack (odr_constructed_begin zclass tag true s)
unfolding odr_constructed_begin
odr_constructed_begin-HasBegun zclass tag pre s h m i =
    let u = start_over s.stack (record s { implicit = none; lenlen = 1 }) in
    let begun : Option (ℕ × ℕ) → ℕ → ℕ → Direction → Stream × Bool = λ i e l d.
      if not (e == 0)
      then (s, false)
      else begin_tagged l
          (tag_in d (asked zclass tag i).0 (asked zclass tag i).1 true true true u) in
    let same : odr_constructed_begin zclass tag true s ≡ begun none 0 1 encode =
      ap (λ i. begun i s.odr.error s.lenlen s.odr.direction) (h.no_implicit)
      ∙ ap (λ e. begun none e s.lenlen s.odr.direction) (h.no_error)
      ∙ ap (λ l. begun none 0 l s.odr.direction) (h.short_length)
      ∙ ap (begun none 0 1) (h.encodes) in
    subst (HasBegun (pre ++ tag_octets zclass tag true) s.stack) (sym same) (
      started zclass tag s.stack s pre refl (h.encodes) (h.no_error) (h.shallow) (h.behind)
        (h.wrote) m i)
