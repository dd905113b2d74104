-- ===== src/Ber/Tag/RoundTrip.antt =====
-- `ber_dectag` reads back what `ber_enctag` wrote: src/ber_tag.c.
use yaz.Prelude.{
  ℕ, suc, ◌+◌, ◌*◌, ◌%◌, ◌^◌, ◌≤◌, ◌<◌, ◌≡◌, refl, Bool, [], ◌∷◌, ◌++◌, Bytes, some, false, leb,
  ltb, if◌then◌else◌, length, All, arith, inl, inr, Bool-cases,
}
use yaz.Prelude.Int.{pos, negsuc}
use yaz.Prelude.Digits.{value, le-value, value-push_digits, All-push_digits, push_digits-length_lt}
use yaz.Odr.{Odr, odr_putc, on_ok}
use yaz.Odr.Appends.{AtEnd, Appends, Returns-Appends, putc_then-Appends}
use yaz.Odr.Buffer.{HasRoom, then_Returns, odr_putc-Puts}
use yaz.Ber.Length.{put_octets}
use yaz.Ber.Length.Encode.{put_then-Returns}
use yaz.Ber.Tag.{flag_more, groups, class_bits, ber_enctag, DecTag, dectag_loop, ber_dectag}

-- The octets that stand for a tag.
abbrev pub tag_octets : ℕ → ℕ → Bool → Bytes
tag_octets zclass tag constructed =
    let b = class_bits zclass constructed in
    if leb tag 30 then (b + tag % 32) ∷ [] else (b + 31) ∷ flag_more (groups tag)

pub length-flag_more : (ds : Bytes) → length (flag_more ds) ≡ length ds
unfolding flag_more
length-flag_more [] = refl
length-flag_more (x ∷ []) = refl
length-flag_more (x ∷ y ∷ ys) = omega (arith, length-flag_more (y ∷ ys))

-- Reading flagged groups spells their number, and stops behind the last of them.
dectag_loop-flag_more :
    (t : DecTag) (d : ℕ) (ds rest : Bytes)
    → All (λ x. x < 128) (d ∷ ds)
    → value 128 t.tag (d ∷ ds) < 2 ^ 32
    → dectag_loop t (flag_more (d ∷ ds) ++ rest)
      ≡ some (record t { tag = value 128 t.tag (d ∷ ds); len = t.len + length (d ∷ ds) })
unfolding dectag_loop flag_more
dectag_loop-flag_more t d [] rest h fits = ground arith
dectag_loop-flag_more t d (e ∷ ds) rest h fits = ground (
  arith,
  le-value 128 (t.tag * 128 + d) (e ∷ ds),
  dectag_loop-flag_more (record t { tag = t.tag * 128 + d; len = t.len + 1 }) e ds rest h.1,
)

groups_read :
    (t : DecTag) (v : ℕ) (rest : Bytes)
    → t.tag ≡ 0
    → v < 2 ^ 31
    → dectag_loop t (flag_more (groups v) ++ rest)
      ≡ some (record t { tag = v; len = t.len + length (flag_more (groups v)) })
groups_read t v rest z h =
    go (groups v) (push_digits-length_lt 128 4 v []) (All-push_digits 128 5 v [] (omega arith) tt)
      (rw z (value-push_digits 128 5 v [] (omega arith) (omega arith)))
  where
    go :
        (ds : Bytes)
        → 0 < length ds
        → All (λ x. x < 128) ds
        → value 128 t.tag ds ≡ v
        → dectag_loop t (flag_more ds ++ rest)
          ≡ some (record t { tag = v; len = t.len + length (flag_more ds) })
    go [] n a e = absurd (omega arith)
    go (d ∷ ds) n a e =
        rw (length-flag_more, ← e) (dectag_loop-flag_more t d ds rest a (omega arith))

-- What a decoder must find.
abbrev pub tag_read : ℕ → ℕ → Bool → DecTag
tag_read zclass tag constructed = record {
  zclass = zclass;
  tag = tag;
  constructed = constructed;
  len = length (tag_octets zclass tag constructed);
}

pub ber_dectag-tag_octets :
    (zclass tag : ℕ) (constructed : Bool) (rest : Bytes)
    → zclass < 4
    → tag < 2 ^ 31
    → ber_dectag (tag_octets zclass tag constructed ++ rest)
      ≡ some (tag_read zclass tag constructed)
unfolding ber_dectag
ber_dectag-tag_octets zclass tag constructed rest hc ht = elim (Bool-cases (leb tag 30)) [
  | inl short ↦ rw short (ground arith)
  | inr long ↦ rw long (
      ground (
        arith,
        groups_read (record { zclass = zclass; tag = 0; constructed = constructed; len = 1 }) tag
            rest refl ht,
      ))
]

pub ber_enctag-Appends :
    (zclass tag : ℕ) (constructed : Bool) (o : Odr)
    → AtEnd o
    → o.pos + length (tag_octets zclass tag constructed) < 2 ^ 30
    → tag < 2 ^ 28
    → Appends
        (pos (if leb tag 30 then 1 else 0))
        (tag_octets zclass tag constructed)
        o
        (ber_enctag zclass tag constructed o)
unfolding ber_enctag
ber_enctag-Appends zclass tag constructed o e room t = elim (Bool-cases (leb tag 30)) [
  | inl short ↦ rw short (
      putc_then-Appends (class_bits zclass constructed + tag % 32) (negsuc 0) (pos 1) o e
        (omega arith))
  | inr long ↦
      let b = class_bits zclass constructed + 31 in
      let cs = flag_more (groups tag) in
      let held : ltb 0xfff_ffff tag ≡ false = ground arith in
      rw (long, held)
        (Returns-Appends _ _ o _ e (
          then_Returns _ _ (λ p. on_ok (put_octets cs p) (negsuc 0) (λ q. (q, pos 0))) (b ∷ []) cs _
            o (odr_putc b o) e.grows (odr_putc-Puts b o e.grows (omega arith))
            λ p gp pp tp.
              let at : p.pos ≤ p.top = omega arith in
              let to : o.pos + suc (length cs) ≡ p.pos + length cs = omega arith in
              rw to
                (put_then-Returns cs (negsuc 0) (pos 0) p gp at (omega (arith, rw long at room)))))
]

-- For a class below 4 and a tag below 2^28, `ber_enctag` at the end of a stream that may grow, with
-- room for the octets below 2^30, appends them, and `ber_dectag` reads the class, the tag, the
-- constructed flag and the number of octets back from them, whatever follows. The result of
-- `ber_enctag` is 1 for a tag to 30, and 0 beyond it.
pub ber_tag_round_trip :
    (zclass tag : ℕ) (constructed : Bool) (rest : Bytes) (o : Odr)
    → AtEnd o
    → HasRoom (length (tag_octets zclass tag constructed)) o
    → zclass < 4
    → tag < 2 ^ 28
    → let bs = tag_octets zclass tag constructed in
      Appends (pos (if leb tag 30 then 1 else 0)) bs o (ber_enctag zclass tag constructed o)
      × (ber_dectag (bs ++ rest) ≡ some (tag_read zclass tag constructed))
ber_tag_round_trip zclass tag constructed rest o e room c t = (
  ber_enctag-Appends zclass tag constructed o e room.2 t,
  ber_dectag-tag_octets zclass tag constructed rest c (omega arith),
)
