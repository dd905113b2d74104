-- ===== src/Ber/Length/Encode.antt =====
-- What `ber_enclen` of src/ber_len.c writes, in plain arithmetic.
use Prim.Native.Nat.{bit_or, max}
use yaz.Prelude.{
  ℕ, zero, suc, ◌+◌, ◌-◌, ◌%◌, ◌^◌, ◌≤◌, ◌<◌, ◌≡◌, refl, ap, ◌∙◌, Bool, true, false, [], ◌∷◌, ◌++◌,
  Bytes, length, length-append, leb, ◌==◌, ==_iff, holds_below, holds_below-at, if◌then◌else◌,
  arith,
}
use yaz.Prelude.Int.{pos}
use mathlib.Core.Path.{subst₂}
use yaz.Odr.{Odr, odr_putc, odr_seek, seek_set, seek_end, on_ok}
use yaz.Odr.Appends.{patch_first}
use yaz.Odr.Buffer.{
  Returns, Puts, Returns-trans, Returns-nil, odr_putc-Puts, on_ok-true, then_Returns,
  finish_Returns,
}
use yaz.Ber.Length.{put_octets, pad_octets, enclen_patch, enclen_long}

abbrev pub zeros : ℕ → Bytes
zeros zero = []
zeros (suc k) = 0 ∷ zeros k

pub length-zeros : (k : ℕ) → length (zeros k) ≡ k
length-zeros zero = refl
length-zeros (suc k) = ap suc (length-zeros k)

high_bit_table : holds_below (λ m. bit_or m 0x80 % 256 == m + 128) 128 ≡ true
unfolding holds_below
high_bit_table = refl

high_bit : (m : ℕ) → m < 128 → bit_or m 0x80 % 256 ≡ m + 128
high_bit m h = (==_iff _ _).0 (holds_below-at _ 128 m h high_bit_table)

pub put_octets-Puts :
    (cs : Bytes) (o : Odr)
    → o.can_grow ≡ true
    → o.pos ≤ o.top
    → o.pos + length cs < 2 ^ 30
    → Puts cs o (put_octets cs o)
unfolding put_octets
put_octets-Puts [] o g h b = let e : o.pos + 0 ≡ o.pos = omega arith in rw e (Returns-nil true o h)
put_octets-Puts (c ∷ cs) o g h b =
    then_Returns false true (put_octets cs) (c ∷ []) cs _ o _ g (odr_putc-Puts c o g (omega arith))
      λ q gq eq et.
        let e : o.pos + suc (length cs) ≡ q.pos + length cs = omega arith in
        rw e (put_octets-Puts cs q gq (omega arith) (omega arith))

-- Octets, and then the result.
pub put_then-Returns {ℓ} :
    {A : Type ℓ} (cs : Bytes) (fail r : A) (o : Odr)
    → o.can_grow ≡ true
    → o.pos ≤ o.top
    → o.pos + length cs < 2 ^ 30
    → Returns r (o.pos + length cs) cs o (on_ok (put_octets cs o) fail (λ p. (p, r)))
put_then-Returns cs fail r o g h b =
    finish_Returns fail r cs o (put_octets cs o) g (put_octets-Puts cs o g h b)

pad_octets-Puts :
    (k : ℕ) (o : Odr)
    → o.can_grow ≡ true
    → o.pos ≤ o.top
    → o.pos + length (zeros k) < 2 ^ 30
    → Puts (zeros k) o (pad_octets k o)
unfolding pad_octets
pad_octets-Puts zero o g h b =
    let e : o.pos + 0 ≡ o.pos = omega arith in rw e (Returns-nil true o h)
pad_octets-Puts (suc k) o g h b =
    then_Returns false true (pad_octets k) (0 ∷ []) (zeros k) _ o _ g
      (odr_putc-Puts 0 o g (omega arith))
      λ q gq eq et.
        let e : o.pos + suc (length (zeros k)) ≡ q.pos + length (zeros k) = omega arith in
        rw e (pad_octets-Puts k q gq (omega arith) (omega arith))

-- The length of the octets replaces the byte at `o.pos`, and the position moves to the top.
enclen_patch-Returns :
    (cs : Bytes) (o : Odr) (m : Odr × Bool)
    → o.can_grow ≡ true
    → length cs < 128
    → Puts (0 ∷ cs) o m
    → (m.0).top < 2 ^ 30
    → Returns
        (pos ((m.0).top - o.pos))
        (m.0).top
        ((length cs + 128) ∷ cs)
        o
        (enclen_patch o.pos m.0)
unfolding enclen_patch
enclen_patch-Returns cs o m g h w b =
    let q = m.0 in
    let c = bit_or (q.pos - o.pos - 1) 0x80 % 256 in
    let n : q.pos - o.pos - 1 ≡ length cs = omega (arith, w.pos) in
    let octet : c ≡ length cs + 128 = rw n (high_bit (length cs) h) in
    let back = (odr_seek seek_set o.pos q).0 in
    let last = (odr_seek seek_end 0 (odr_putc c back).0).0 in
    let patched = patch_first (pos (last.pos - o.pos)) c 0 cs o m g w b in
    let end : last.pos ≡ q.top = (patched.1).pos in
    rw (on_ok-true (odr_putc c back) (pos 0) _ patched.0) (
      subst₂ (λ x z. Returns (pos (x - o.pos)) q.top (z ∷ cs) o (last, pos (last.pos - o.pos))) end
        octet patched.1)

-- The octets behind the first one of the long form.
abbrev pub long_octets : Bytes → ℕ → Bool → Bytes
long_octets octs lenlen exact = zeros (if exact then lenlen - 1 - length octs else 0) ++ octs

long_steps :
    (octs : Bytes) (k : ℕ) (o : Odr)
    → o.can_grow ≡ true
    → o.pos ≤ o.top
    → length (zeros k ++ octs) < 128
    → max o.top (o.pos + suc (length (zeros k ++ octs))) < 2 ^ 30
    → let end = max o.top (o.pos + suc (length (zeros k ++ octs))) in
      Returns (pos (end - o.pos)) end ((length (zeros k ++ octs) + 128) ∷ (zeros k ++ octs)) o (
        on_ok (odr_putc 0 o) (pos 0) λ o1.
          on_ok
            (pad_octets k o1)
            (pos 0)
            λ o2. on_ok (put_octets octs o2) (pos 0) (enclen_patch o.pos))
long_steps octs k o g h n b =
    let l = length-append (zeros k) octs in
    let m1 = odr_putc 0 o in
    let w1 = odr_putc-Puts 0 o g (omega arith) in
    let m2 = pad_octets k m1.0 in
    let w2 =
      pad_octets-Puts k m1.0 (w1.can_grow ∙ g) (omega (arith, w1.pos, w1.top))
        (omega (arith, w1.pos, l)) in
    let m3 = put_octets octs m2.0 in
    let w3 =
      put_octets-Puts octs m2.0 (w2.can_grow ∙ w1.can_grow ∙ g) (omega (arith, w2.pos, w2.top))
        (omega (arith, w1.pos, w2.pos, l)) in
    let e : (m2.0).pos + length octs ≡ o.pos + suc (length (zeros k ++ octs)) =
      omega (arith, w1.pos, w2.pos, l) in
    let all = rw e at (
      Returns-trans true (0 ∷ []) (zeros k ++ octs) _ o m1 m3 w1
        (Returns-trans true (zeros k) octs _ m1.0 m2 m3 w2 w3)) in
    rw
      (
        on_ok-true m1 (pos 0)
            (λ o1.
              on_ok (pad_octets k o1) (pos 0)
                λ o2. on_ok (put_octets octs o2) (pos 0) (enclen_patch o.pos))
            w1.result,
        on_ok-true m2 (pos 0) (λ o2. on_ok (put_octets octs o2) (pos 0) (enclen_patch o.pos))
            w2.result,
        on_ok-true m3 (pos 0) (enclen_patch o.pos) w3.result,
        ← all.top,
      )
      (enclen_patch-Returns (zeros k ++ octs) o m3 g n all (omega (arith, all.top)))

pub enclen_long-Returns :
    (octs : Bytes) (lenlen : ℕ) (exact : Bool) (o : Odr)
    → o.can_grow ≡ true
    → o.pos ≤ o.top
    → length octs < lenlen
    → length (long_octets octs lenlen exact) < 128
    → max o.top (o.pos + suc (length (long_octets octs lenlen exact))) < 2 ^ 30
    → let cs = long_octets octs lenlen exact in
      let end = max o.top (o.pos + suc (length cs)) in
      Returns (pos (end - o.pos)) end ((length cs + 128) ∷ cs) o (enclen_long octs lenlen exact o)
unfolding enclen_long
enclen_long-Returns octs lenlen exact o g at h n b =
    let fits : leb lenlen (length octs) ≡ false = ground arith in
    rw fits (long_steps octs (if exact then lenlen - 1 - length octs else 0) o g at n b)
