-- ===== src/Ber/Oid/RoundTrip.antt =====
-- `ber_oidc` reads back the identifiers that it wrote: src/ber_oid.c.
use yaz.Prelude.{
  ℕ, suc, ◌+◌, ◌-◌, ◌^◌, ◌≤◌, ◌<◌, ◌≡◌, refl, ap, ◌∙◌, Bool, true, false, ◌||◌, [], ◌∷◌, ◌++◌,
  Bytes, List, length, length-append, take-append, drop-append, ltb, All, arith,
}
use yaz.Prelude.Int.{pos}
use yaz.Odr.{Odr, decode, encode, odr_putc, odr_seek, seek_set, on_ok}
use yaz.Odr.Appends.{AtEnd, Appends, Returns-Appends, patch_first}
use yaz.Odr.Buffer.{
  HasRoom, Returns, Returns-nil, Returns-trans, then_Returns, on_ok-true, odr_putc-Puts, Puts,
}
use yaz.Ber.Length.Encode.{put_octets-Puts}
use yaz.Ber.Length.{read, ber_enclen, ber_declen}
use yaz.Ber.Tag.{flag_more, groups}
use yaz.Ber.Oid.{
  is_negative, arcs, read_arcs, check_arcs, zero_returned, one_returned, finish_oid, decode_oid,
  numbers, oid_octets, any_negative, put_numbers, patch_oid, encode_oid, oid_in, ber_oidc,
}
use yaz.Ber.Oid.Arcs.{IsOid, read_arcs-oid_octets}

put_numbers-Puts :
    (ids : List ℕ) (o : Odr)
    → o.can_grow ≡ true
    → o.pos ≤ o.top
    → o.pos + length (oid_octets ids) < 2 ^ 30
    → Puts (oid_octets ids) o (put_numbers ids o)
unfolding put_numbers oid_octets
put_numbers-Puts [] o g h n = let e : o.pos + 0 ≡ o.pos = omega arith in rw e (Returns-nil true o h)
put_numbers-Puts (id ∷ ids) o g h n =
    let cs = flag_more (groups id) in
    let l = length-append cs (oid_octets ids) in
    then_Returns false true (put_numbers ids) cs (oid_octets ids) _ o _ g
      (put_octets-Puts cs o g h (omega (arith, l)))
      λ q gq pq tq.
        let to : o.pos + length (cs ++ oid_octets ids) ≡ q.pos + length (oid_octets ids) =
          omega (arith, pq, l) in
        rw to (put_numbers-Puts ids q gq (omega arith) (omega (arith, l)))

-- The length octet takes the place of the dummy.
patch_oid-Returns :
    (p : List ℕ) (body : Bytes) (o : Odr) (m : Odr × Bool)
    → o.can_grow ≡ true
    → length body ≤ 127
    → Puts (0 ∷ body) o m
    → (m.0).top < 2 ^ 30
    → Returns (one_returned p) (m.0).top (length body ∷ body) o (patch_oid o.pos p m.0)
unfolding patch_oid
patch_oid-Returns p body o m g h w n =
    let size : (m.0).pos - o.pos - 1 ≡ length body = omega (arith, w.pos) in
    let back = (odr_seek seek_set o.pos m.0).0 in
    let put = odr_putc (length body) back in
    let patched = patch_first (one_returned p) (length body) 0 body o m g w n in
    let short : ber_enclen (pos (length body)) 1 true back ≡ on_ok put (pos 0) (λ q. (q, pos 1)) =
      unfold ber_enclen in ground arith in
    rw (size, short, on_ok-true put (pos 0) (λ q. (q, pos 1)) patched.0) patched.1

any_negative_none : (p : List ℕ) → All (λ arc. arc < 2 ^ 15) p → any_negative p ≡ false
unfolding any_negative
any_negative_none [] h = refl
any_negative_none (a ∷ p) h = ground (arith, any_negative_none p h.1)

-- The contents octets of an identifier, and the length octet before them.
abbrev pub oid_encoding : ℕ → ℕ → List ℕ → Bytes
oid_encoding a b p = let body = oid_octets (numbers a b p) in length body ∷ body

encode_oid_runs :
    (a b : ℕ) (p : List ℕ) (o : Odr)
    → IsOid a b p
    → (odr_putc 0 o).1 ≡ true
    → (put_numbers (numbers a b p) (odr_putc 0 o).0).1 ≡ true
    → encode_oid (a ∷ b ∷ p) o
      ≡ patch_oid o.pos (a ∷ b ∷ p) (put_numbers (numbers a b p) (odr_putc 0 o).0).0
unfolding encode_oid
encode_oid_runs a b p o v h0 h1 =
    let m0 = odr_putc 0 o in
    let m1 = put_numbers (numbers a b p) m0.0 in
    let signs : (is_negative a || is_negative b) ≡ false = ground (arith, v.root, v.second_fits) in
    on_ok-true m0 zero_returned _ h0
    ∙ rw (signs, any_negative_none p v.rest_fit)
        (on_ok-true m1 zero_returned (patch_oid o.pos (a ∷ b ∷ p)) h1)

pub encode_oid-Appends :
    (a b : ℕ) (p : List ℕ) (o : Odr)
    → AtEnd o
    → o.pos + 128 < 2 ^ 30
    → IsOid a b p
    → length (oid_octets (numbers a b p)) ≤ 127
    → Appends (one_returned (a ∷ b ∷ p)) (oid_encoding a b p) o (encode_oid (a ∷ b ∷ p) o)
encode_oid-Appends a b p o e n v h =
    let body = oid_octets (numbers a b p) in
    let m0 = odr_putc 0 o in
    let w0 = odr_putc-Puts 0 o e.grows (omega arith) in
    let m1 = put_numbers (numbers a b p) m0.0 in
    let w1 =
      put_numbers-Puts (numbers a b p) m0.0 (w0.can_grow ∙ e.grows) (omega (arith, w0.pos, w0.top))
        (omega (arith, w0.pos)) in
    let to : (m0.0).pos + length body ≡ o.pos + suc (length body) = omega (arith, w0.pos) in
    let all = rw to at (Returns-trans true (0 ∷ []) body _ o m0 m1 w0 w1) in
    let end : (m1.0).top ≡ o.pos + suc (length body) = omega (arith, all.top, e.at_top) in
    Returns-Appends (one_returned (a ∷ b ∷ p)) (length body ∷ body) o _ e (
      rw (encode_oid_runs a b p o v w0.result w1.result)
        (rw end at (patch_oid-Returns (a ∷ b ∷ p) body o m1 e.grows h all (omega (arith, end)))))

decode_body :
    (max_size : ℕ) (body rest : Bytes) (p : List ℕ) (o : Odr)
    → check_arcs (read_arcs max_size false 0 [] body) ≡ arcs p
    → decode_oid max_size
        (record o { bp = length body ∷ body ++ rest })
        (read (pos (length body)) 1)
      ≡ (record o { bp = rest }, one_returned p)
unfolding decode_oid finish_oid
decode_body max_size body rest p o h =
    let enough : ltb (length (body ++ rest)) (length body) ≡ false =
      ground (arith, length-append body rest) in
    rw (enough, take-append body rest, drop-append body rest, h)

-- Reading the encoding of an identifier gives its arcs, and stops behind it.
decode_oid_lem :
    (max_size a b : ℕ) (p : List ℕ) (rest : Bytes) (o : Odr)
    → IsOid a b p
    → length (a ∷ b ∷ p) < max_size
    → length (oid_octets (numbers a b p)) ≤ 127
    → decode_oid max_size
        (record o { bp = oid_encoding a b p ++ rest })
        (ber_declen (oid_encoding a b p ++ rest))
      ≡ (record o { bp = rest }, one_returned (a ∷ b ∷ p))
decode_oid_lem max_size a b p rest o v room h =
    let body = oid_octets (numbers a b p) in
    let short : ber_declen (oid_encoding a b p ++ rest) ≡ read (pos (length body)) 1 =
      unfold ber_declen in ground arith in
    rw short
      (decode_body max_size body rest (a ∷ b ∷ p) o (read_arcs-oid_octets max_size a b p v room))

-- For an identifier that X.690 allows, with arcs below 2^15 and at most 127 contents octets,
-- `ber_oidc` on an encoding stream that stands at its end and may grow, with 128 bytes of room
-- below 2^30, appends a length octet and the contents; on a decoding stream with room for the arcs
-- and the terminator that stands before these octets it reads the same arcs back and stops behind
-- them.
pub ber_oidc_round_trip :
    (max_size a b : ℕ) (p q : List ℕ) (rest : Bytes) (o d : Odr)
    → IsOid a b p
    → length (a ∷ b ∷ p) < max_size
    → length (oid_octets (numbers a b p)) ≤ 127
    → AtEnd o
    → HasRoom 128 o
    → o.direction ≡ encode
    → d.direction ≡ decode
    → let bs = oid_encoding a b p in
      Appends (one_returned (a ∷ b ∷ p)) bs o (ber_oidc max_size (a ∷ b ∷ p) o)
      × (ber_oidc max_size q (record d { bp = bs ++ rest })
          ≡ (record d { bp = rest }, one_returned (a ∷ b ∷ p)))
ber_oidc_round_trip max_size a b p q rest o d v fits h e room enc dec =
    let bs = oid_encoding a b p in
    let writing : ber_oidc max_size (a ∷ b ∷ p) o ≡ encode_oid (a ∷ b ∷ p) o =
      unfold ber_oidc in ap (λ x. oid_in x max_size (a ∷ b ∷ p) o) enc in
    let d' = record d { bp = bs ++ rest } in
    let reading : ber_oidc max_size q d' ≡ decode_oid max_size d' (ber_declen (bs ++ rest)) =
      unfold ber_oidc in ap (λ x. oid_in x max_size q d') dec in
    (
      rw writing (encode_oid-Appends a b p o e room.2 v h),
      reading ∙ decode_oid_lem max_size a b p rest d v fits h,
    )
