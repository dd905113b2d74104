-- ===== src/Ber/Constructed/Encoded.antt =====
-- What `odr_constructed_begin` and `odr_constructed_end` of src/odr_cons.c write round a body.
use yaz.Prelude.{
  ℕ, ◌+◌, ◌-◌, ◌^◌, ◌<◌, ◌≡◌, ◌∙◌, ap, sym, refl, subst, Bool, true, false, not, [], ◌∷◌, ◌++◌,
  append_assoc, append-nil, List, Bytes, length, length-append, leb, ◌==◌, if◌then◌else◌, arith,
  inl, inr, Bool-cases,
}
use yaz.Prelude.Int.{pos}
use yaz.Odr.{Odr, encode, odr_seek, seek_set, seek_end, on_ok}
use yaz.Odr.Buffer.{HasRoom, on_ok-true}
use yaz.Odr.Appends.{Returns-Appends, contents, AtEnd, Appends}
use yaz.Odr.Stream.{Constack, Stream, pop_rest, stack_pop}
use yaz.Ber.Tag.RoundTrip.{tag_octets}
use yaz.Ber.Tagged.{start_over}
use yaz.Ber.Length.{put_octets, ber_enclen}
use yaz.Ber.Length.Encode.{put_octets-Puts}
use yaz.Ber.Constructed.{
  closed, put_end, end_written, odr_constructed_begin, odr_constructed_end, end_on, end_in,
}
use yaz.Ber.Constructed.Octets.{end_octets, constructed_octets}
use yaz.Ber.Constructed.Patch.{Patched, patch}
use yaz.Ber.Constructed.Begun.{IsEntry, IsOpen, contents_size, odr_constructed_begin-HasBegun}

-- The type is complete: `octets` follow `pre`, and the entry is off the stack.
pub record HasEnded (pre octets : Bytes) (stack : List Constack) (r : Stream × Bool) : Type 0 where
  pub result : r.1 ≡ true
  pub wrote : contents r.0.odr ≡ pre ++ octets
  pub at_end : AtEnd r.0.odr
  pub encodes : r.0.odr.direction ≡ encode
  pub no_error : r.0.odr.error ≡ 0
  pub popped : r.0.stack ≡ stack

closed-true :
    (s : Stream) (v : Odr × Bool)
    → v.1 ≡ true
    → closed s v ≡ (stack_pop (record s { odr = v.0 }), true)
closed-true s (o, true) e = refl
closed-true s (o, false) e = absurd (ground arith)

put_end-Appends : (o : Odr) → AtEnd o → o.pos + 2 < 2 ^ 30 → Appends true (0 ∷ 0 ∷ []) o (put_end o)
put_end-Appends o e b =
    let same : put_octets (0 ∷ 0 ∷ []) o ≡ put_end o = unfold put_octets in refl in
    subst (Appends true (0 ∷ 0 ∷ []) o) same (
      Returns-Appends true (0 ∷ 0 ∷ []) o (put_octets (0 ∷ 0 ∷ []) o) e
        (put_octets-Puts (0 ∷ 0 ∷ []) o e.grows (omega (arith, e.at_top)) b))

-- The short form, and the indefinite form.
end_short :
    (pre cs : Bytes) (s : Stream) (st : List Constack) (put : Odr × Bool)
    → Patched (length cs) pre cs s.odr put
    → pop_rest s.stack ≡ st
    → s.odr.direction ≡ encode
    → s.odr.error ≡ 0
    → HasEnded pre (length cs ∷ cs) st (end_written s (on_ok put (pos 0) λ p. (p, pos 1)))
end_short pre cs s st put w k d n = rw (on_ok-true put (pos 0) (λ p. (p, pos 1)) (w.ok)) (record {
  result = refl;
  wrote = w.patched;
  at_end = w.at_end;
  encodes = w.direction ∙ d;
  no_error = w.error ∙ n;
  popped = k;
})

end_indefinite :
    (pre cs : Bytes) (s : Stream) (st : List Constack) (put : Odr × Bool)
    → Patched 0x80 pre cs s.odr put
    → s.odr.pos + 2 < 2 ^ 30
    → pop_rest s.stack ≡ st
    → s.odr.direction ≡ encode
    → s.odr.error ≡ 0
    → HasEnded pre
        (0x80 ∷ (cs ++ 0 ∷ 0 ∷ []))
        st
        (end_written s (on_ok put (pos 0) λ p. (p, pos 0)))
end_indefinite pre cs s st put w b k d n =
    let last = (odr_seek seek_end 0 put.0).0 in
    let v = put_end-Appends last (w.at_end) (omega (arith, w.pos)) in
    rw (on_ok-true put (pos 0) (λ p. (p, pos 0)) (w.ok), closed-true s (put_end last) (v.result))
      (record {
        result = refl;
        wrote =
            v.appended
            ∙ ap (λ xs. xs ++ 0 ∷ 0 ∷ []) (w.patched)
            ∙ append_assoc pre (0x80 ∷ cs) (0 ∷ 0 ∷ []);
        at_end = v.at_end;
        encodes = v.direction ∙ w.direction ∙ d;
        no_error = v.error ∙ w.error ∙ n;
        popped = k;
      })

end_lengths :
    (pre cs : Bytes) (s : Stream) (st : List Constack)
    → AtEnd s.odr
    → s.odr.pos + 2 < 2 ^ 30
    → contents s.odr ≡ pre ++ 0 ∷ cs
    → pop_rest s.stack ≡ st
    → s.odr.direction ≡ encode
    → s.odr.error ≡ 0
    → HasEnded pre ((if leb (length cs) 127 then length cs else 0x80) ∷ (cs ++ end_octets cs)) st (
        end_written s
          (ber_enclen (pos (length cs)) 1 true (odr_seek seek_set (length pre) s.odr).0))
unfolding ber_enclen
end_lengths pre cs s st e b h k d n = elim (Bool-cases (leb (length cs) 127)) [
  | inl short ↦
      rw (short, append-nil)
        (end_short pre cs s st _ (patch (length cs) pre cs s.odr e (omega arith) h) k d n)
  | inr long ↦
      rw long (end_indefinite pre cs s st _ (patch 0x80 pre cs s.odr e (omega arith) h) b k d n)
]

odr_constructed_end-HasEnded :
    (pre cs : Bytes) (s : Stream) (c : Constack) (st : List Constack)
    → s.stack ≡ c ∷ st
    → IsEntry pre c
    → AtEnd s.odr
    → s.odr.pos + 2 < 2 ^ 30
    → contents s.odr ≡ pre ++ 0 ∷ cs
    → s.odr.direction ≡ encode
    → s.odr.error ≡ 0
    → HasEnded pre
        ((if leb (length cs) 127 then length cs else 0x80) ∷ (cs ++ end_octets cs))
        st
        (odr_constructed_end s)
unfolding odr_constructed_end
odr_constructed_end-HasEnded pre cs s c st k i e b h d n =
    let size : s.odr.pos - c.base_offset ≡ length cs =
      omega
        (arith, i.contents_at, contents_size s.odr e, ap length h, length-append pre (0 ∷ cs)) in
    let same : odr_constructed_end s
        ≡ end_written s
            (ber_enclen (pos (length cs)) 1 true (odr_seek seek_set (length pre) s.odr).0) =
      ap (λ x. if not (x == 0) then (s, false) else end_on s.stack s) n
      ∙ ap (λ x. end_on x s) k
      ∙ ap (λ x. end_in x c s) d
      ∙ ap
          (λ x.
            end_written s
              (ber_enclen (pos x) c.lenlen true (odr_seek seek_set c.len_offset s.odr).0))
          size
      ∙ ap
          (λ x.
            end_written s
              (ber_enclen (pos (length cs)) x true (odr_seek seek_set c.len_offset s.odr).0))
          (i.short_length)
      ∙ ap (λ x. end_written s (ber_enclen (pos (length cs)) 1 true (odr_seek seek_set x s.odr).0))
          (i.length_at) in
    subst (HasEnded pre _ st) (sym same) (end_lengths pre cs s st e b h (ap pop_rest k) d n)

-- For a class below 4 and a tag below 2^28, on an encoding stream without an error, below 2000 open
-- types, with one octet for the length and room below 2^30 for what is appended: between
-- `odr_constructed_begin` and `odr_constructed_end` a body appends its bytes and leaves the stack as it
-- finds it. Then both succeed, and what is appended is the identifier, the length and the body for a
-- body of at most 127 bytes, and the identifier, the octet 0x80, the body and two zero octets for a
-- longer one; the stack is as before.
pub odr_constructed_end-octets :
    (zclass tag : ℕ) (pre body : Bytes) (s t : Stream)
    → IsOpen pre s
    → zclass < 4
    → tag < 2 ^ 28
    → HasRoom (length (constructed_octets zclass tag body)) (start_over s.stack s).odr
    → HasRoom 2 t.odr
    → t.stack ≡ (odr_constructed_begin zclass tag true s).0.stack
    → Appends true body (odr_constructed_begin zclass tag true s).0.odr (t.odr, true)
    → ((odr_constructed_begin zclass tag true s).1 ≡ true)
      × HasEnded pre (constructed_octets zclass tag body) s.stack (odr_constructed_end t)
odr_constructed_end-octets zclass tag pre body s t h _ i room more k a =
    let octets = tag_octets zclass tag true in
    let u = (start_over s.stack s).odr in
    let m : length pre + length octets + 1 < 2 ^ 30 =
      omega (arith, room.2, ap length h.wrote, contents_size u h.behind, length-append octets _) in
    let b = odr_constructed_begin-HasBegun zclass tag pre s h m i in
    let e =
      odr_constructed_end-HasEnded (pre ++ octets) body t b.entry s.stack (k ∙ b.pushed) b.is_entry
        a.at_end more.2
        (a.appended ∙ ap (λ xs. xs ++ body) b.wrote ∙ append_assoc (pre ++ octets) (0 ∷ []) body)
        (a.direction ∙ b.encodes) (a.error ∙ b.no_error) in
    (
      b.result,
      record {
        result = e.result;
        wrote = e.wrote ∙ append_assoc pre octets _;
        at_end = e.at_end;
        encodes = e.encodes;
        no_error = e.no_error;
        popped = e.popped;
      },
    )
