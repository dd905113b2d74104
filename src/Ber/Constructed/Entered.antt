-- ===== src/Ber/Constructed/Entered.antt =====
-- What `odr_constructed_begin` of src/odr_cons.c reads.
use yaz.Prelude.{
  ℕ, ◌+◌, ◌≤◌, ◌<◌, ◌^◌, ◌≡◌, ◌∙◌, ap, sym, refl, subst, Bool, true, false, not, ◌&&◌, [], ◌∷◌,
  ◌++◌, append_assoc, List, Bytes, Option, none, some, length, length-append, drop, drop-append,
  leb, ltb, ◌==◌, if◌then◌else◌, arith,
}
use yaz.Prelude.Int.{ℤ, pos, negsuc}
use yaz.Odr.{Direction, decode}
use yaz.Odr.Stream.{Constack, Stream, fail_with, odr_missing}
use yaz.Ber.Tag.{ber_dectag}
use yaz.Ber.Tag.RoundTrip.{tag_octets, tag_read, ber_dectag-tag_octets}
use yaz.Ber.Length.{read, ber_declen}
use yaz.Ber.Tagged.{
  found, absent, tag_in, tag_held, tag_read_as, start_over, is_empty, odr_constructed_more,
}
use yaz.Ber.Constructed.{
  begin_tagged, begin_in, length_read, odr_constructed_begin, odr_max_stack, ostack, asked,
}
use yaz.Ber.Constructed.Octets.{end_octets, constructed_octets}

-- What is read as the length of a body.
abbrev pub length_of : Bytes → ℤ
length_of body = if leb (length body) 127 then pos (length body) else negsuc 0

-- The stream in front of the contents.
abbrev inside : ℤ → Bytes → Stream → Stream
inside len xs s = record s {
  odr = record s.odr { bp = xs };
  stack =
      record {
        base = length xs;
        base_offset = s.odr.pos;
        len = len;
        len_offset = s.odr.pos;
        lenlen = 1;
      }
      ∷ s.stack;
}

abbrev at_input : Bytes → Stream → Stream
at_input bp s = record s { odr = record s.odr { bp = bp } }

pub declen_short : (n : ℕ) (bs : Bytes) → leb n 127 ≡ true → ber_declen (n ∷ bs) ≡ read (pos n) 1
unfolding ber_declen
declen_short n bs h = ground arith

pub length_read-inside :
    (b : Bool) (n : ℕ) (xs : Bytes) (s : Stream)
    → leb n 127 ≡ b
    → n ≤ length xs
    → let bp = (if b then n else 0x80) ∷ xs in
      length_read (at_input bp s) (ber_declen bp)
      ≡ (inside (if b then pos n else negsuc 0) xs s, true)
length_read-inside true n xs s h k =
    let fits : ltb (length xs) n ≡ false = ground arith in
    ap (length_read (at_input (n ∷ xs) s)) (declen_short n xs h) ∙ rw fits refl
length_read-inside false n xs s h k = unfold ber_declen in refl

-- In front of an element of that identifier and body, at a stream that decodes.
pub record IsAt (text : Bytes) (s : Stream) : Type 0 where
  pub decodes : s.odr.direction ≡ decode
  pub no_error : s.odr.error ≡ 0
  pub no_implicit : s.implicit ≡ none
  pub nothing_held : s.held ≡ none
  pub input_left : (start_over s.stack s).odr.bp ≡ text
  pub more_left :
      (not (is_empty s.stack)
        && not (odr_constructed_more (record s { implicit = none; lenlen = 1 })))
      ≡ false
  pub shallow : leb odr_max_stack (length s.stack) ≡ false

pub tagged_inside :
    (zclass tag l : ℕ) (present : Bool) (body rest : Bytes) (u : Stream)
    → zclass < 4
    → tag < 2 ^ 31
    → u.odr.direction ≡ decode
    → u.held ≡ none
    → (not (is_empty u.stack) && not (odr_constructed_more u)) ≡ false
    → leb odr_max_stack (length u.stack) ≡ false
    → u.odr.bp ≡ constructed_octets zclass tag body ++ rest
    → begin_tagged l (tag_in decode zclass tag present true true u) ≡ (
      inside (length_of body) (body ++ (end_octets body ++ rest)) (record u { held = none }),
      true,
    )
tagged_inside zclass tag l present body rest u c t d n m r e =
    let xs = body ++ (end_octets body ++ rest) in
    let octets = tag_octets zclass tag true in
    let lead = if leb (length body) 127 then length body else 0x80 in
    let tail = lead ∷ xs in
    let here : u.odr.bp ≡ octets ++ tail =
      e
      ∙ append_assoc octets (lead ∷ (body ++ end_octets body)) rest
      ∙ ap (λ y. octets ++ lead ∷ y) (append_assoc body (end_octets body) rest) in
    let v = record u { held = none } in
    let k = length octets in
    let got = tag_read zclass tag true in
    let same : (zclass == zclass && tag == tag) ≡ true = ground arith in
    ap
      (λ b.
        begin_tagged l
          (if b then (odr_missing true 25 u, absent) else tag_held zclass tag true u u.held))
      m
    ∙ ap (λ x. begin_tagged l (tag_held zclass tag true u x)) n
    ∙ ap (λ x. begin_tagged l (tag_read_as zclass tag true u x))
        (ap ber_dectag here ∙ ber_dectag-tag_octets zclass tag true tail c t)
    ∙ ap
        (λ b. begin_tagged l (
          if b
          then (at_input (drop k u.odr.bp) v, found true)
          else (odr_missing true 27 (record u { held = some got }), absent)))
        same
    ∙ ap (λ x. begin_tagged l (at_input x v, found true))
        (ap (drop k) here ∙ drop-append octets tail)
    ∙ ap
        (λ b.
          if b
          then (fail_with ostack 30 (at_input tail v), false)
          else begin_in u.odr.direction l (at_input tail v))
        r
    ∙ ap (λ x. begin_in x l (at_input tail v)) d
    ∙ length_read-inside (leb (length body) 127) (length body) xs v refl
        (omega (arith, length-append body (end_octets body ++ rest)))

-- In front of the body, with an entry for it on the stack.
pub record IsInside (body rest : Bytes) (stack : List Constack) (r : Stream × Bool) : Type 0 where
  pub result : r.1 ≡ true
  pub left : r.0.odr.bp ≡ body ++ (end_octets body ++ rest)
  pub decodes : r.0.odr.direction ≡ decode
  pub no_error : r.0.odr.error ≡ 0
  pub entry : Constack
  pub entry_len : entry.len ≡ length_of body
  pub entry_base : entry.base ≡ length body + length (end_octets body ++ rest)
  pub pushed : r.0.stack ≡ entry ∷ stack

pub started-IsInside :
    (zclass tag l : ℕ) (present : Bool) (body rest : Bytes) (u : Stream) (st : List Constack)
    → zclass < 4
    → tag < 2 ^ 31
    → u.odr.direction ≡ decode
    → u.odr.error ≡ 0
    → u.held ≡ none
    → (not (is_empty u.stack) && not (odr_constructed_more u)) ≡ false
    → leb odr_max_stack (length st) ≡ false
    → u.odr.bp ≡ constructed_octets zclass tag body ++ rest
    → u.stack ≡ st
    → IsInside body rest st (begin_tagged l (tag_in decode zclass tag present true true u))
started-IsInside zclass tag l present body rest u st c t d n h m r e k =
    let xs = body ++ (end_octets body ++ rest) in
    let entry : Constack = record {
      base = length xs;
      base_offset = u.odr.pos;
      len = length_of body;
      len_offset = u.odr.pos;
      lenlen = 1;
    } in
    let read =
      tagged_inside zclass tag l present body rest u c t d h m
        (ap (λ x. leb odr_max_stack (length x)) k ∙ r) e in
    subst (IsInside body rest st) (sym read) (record {
      result = refl;
      left = refl;
      decodes = d;
      no_error = n;
      entry = entry;
      entry_len = refl;
      entry_base = length-append body (end_octets body ++ rest);
      pushed = ap (λ x. entry ∷ x) k;
    })

pub any-IsInside :
    (zclass tag l : ℕ) (present : Bool) (body rest : Bytes) (s : Stream) (st : List Constack)
    → zclass < 4
    → tag < 2 ^ 31
    → s.odr.direction ≡ decode
    → s.odr.error ≡ 0
    → s.held ≡ none
    → (not (is_empty s.stack)
        && not (odr_constructed_more (record s { implicit = none; lenlen = 1 })))
      ≡ false
    → leb odr_max_stack (length st) ≡ false
    → (start_over st s).odr.bp ≡ constructed_octets zclass tag body ++ rest
    → s.stack ≡ st
    → IsInside body rest st (
        begin_tagged l (
          tag_in decode zclass tag present true true
            (start_over st (record s { implicit = none; lenlen = 1 }))))
any-IsInside zclass tag l present body rest s [] c t d n h m r e k =
    let u = start_over [] (record s { implicit = none; lenlen = 1 }) in
    started-IsInside zclass tag l present body rest u [] c t d n refl
      (ap (λ x. not (is_empty x) && not (odr_constructed_more u)) k) r e k
any-IsInside zclass tag l present body rest s (x ∷ st) c t d n h m r e k =
    started-IsInside zclass tag l present body rest (record s { implicit = none; lenlen = 1 })
      (x ∷ st) c t d n h m r e k

pub odr_constructed_begin-IsInside :
    (zclass tag : ℕ) (present : Bool) (body rest : Bytes) (s : Stream)
    → zclass < 4
    → tag < 2 ^ 31
    → IsAt (constructed_octets zclass tag body ++ rest) s
    → IsInside body rest s.stack (odr_constructed_begin zclass tag present s)
unfolding odr_constructed_begin
odr_constructed_begin-IsInside zclass tag present body rest s c t h =
    let u = start_over s.stack (record s { implicit = none; lenlen = 1 }) in
    let begun : Option (ℕ × ℕ) → ℕ → Direction → Stream × Bool = λ i e d.
      if not (e == 0)
      then (s, false)
      else begin_tagged s.lenlen
          (tag_in d (asked zclass tag i).0 (asked zclass tag i).1 present true true u) in
    let same : odr_constructed_begin zclass tag present s ≡ begun none 0 decode =
      ap (λ i. begun i s.odr.error s.odr.direction) (h.no_implicit)
      ∙ ap (λ e. begun none e s.odr.direction) (h.no_error)
      ∙ ap (begun none 0) (h.decodes) in
    subst (IsInside body rest s.stack) (sym same) (
      any-IsInside zclass tag s.lenlen present body rest s s.stack c t (h.decodes) (h.no_error)
        (h.nothing_held) (h.more_left) (h.shallow) (h.input_left) refl)
