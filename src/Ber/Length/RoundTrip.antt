-- ===== src/Ber/Length/RoundTrip.antt =====
-- `ber_declen` reads back what `ber_enclen` wrote: src/ber_len.c.
use Prim.Native.Nat.{max}
use yaz.Prelude.{
  ℕ, zero, suc, ◌+◌, ◌-◌, ◌*◌, ◌^◌, ◌≤◌, ◌<◌, ◌≡◌, refl, ap, ◌∙◌, ◌⊎◌, inl, inr, Bool, false, not,
  ◌&&◌, ◌||◌, [], ◌∷◌, ◌++◌, Bytes, length, length-append, leb, ◌==◌, if◌then◌else◌, arith,
  Bool-cases,
}
use yaz.Prelude.Int.{pos}
use yaz.Prelude.Digits.{
  value, push_digits, value-push_digits, length-push_digits, length-push_digits_le,
  push_digits-length_lt, push_digits-length_le,
}
use yaz.Odr.{Odr}
use yaz.Odr.Buffer.{HasRoom}
use yaz.Odr.Appends.{AtEnd, Appends, Returns-Appends, putc_then-Appends}
use yaz.Ber.Length.{ber_enclen, read, minus_two, shift_in, ber_declen}
use yaz.Ber.Length.Encode.{zeros, length-zeros, long_octets, enclen_long-Returns}

-- Whether `ber_enclen` takes the definite short form.
abbrev is_short : ℕ → ℕ → Bool → Bool
is_short len lenlen exact = leb len 127 && (lenlen == 1 || not exact)

-- The octets of a definite length: one, or a count and the big-endian number, padded if `exact`.
abbrev pub length_octets : ℕ → ℕ → Bool → Bytes
length_octets len lenlen exact =
    let cs = long_octets (push_digits 256 4 len []) lenlen exact in
    if is_short len lenlen exact then len ∷ [] else (length cs + 128) ∷ cs

-- The lengths that both sides handle: one octet for a short form, or at most three octets behind the
-- count, since `ber_declen` refuses more.
abbrev pub FitsLength : ℕ → ℕ → Bool → Type 0
FitsLength len lenlen exact =
    ((lenlen ≡ 1) × (len ≤ 127))
    ⊎ ((2 ≤ lenlen)
        × (len < 256 ^ (lenlen - 1))
        × (len < 2 ^ 24)
        × ((exact ≡ false) ⊎ (lenlen ≤ 4)))

value-zeros : (k : ℕ) (cs : Bytes) → value 256 0 (zeros k ++ cs) ≡ value 256 0 cs
value-zeros zero cs = refl
value-zeros (suc k) cs = value-zeros k cs

shift_in-append :
    (cs : Bytes) (len : ℕ) (rest : Bytes) → shift_in (length cs) len (cs ++ rest) ≡ value 256 len cs
unfolding shift_in
shift_in-append [] len rest = refl
shift_in-append (c ∷ cs) len rest = shift_in-append cs (len * 256 + c) rest

-- What the long form holds fits the three octets that the decoder accepts.
record LongFits (len lenlen : ℕ) (exact : Bool) : Type 0 where
  octets : length (push_digits 256 4 len []) < lenlen
  some_octet : 0 < length (long_octets (push_digits 256 4 len []) lenlen exact)
  few : length (long_octets (push_digits 256 4 len []) lenlen exact) ≤ 3
  exactly : value 256 0 (long_octets (push_digits 256 4 len []) lenlen exact) ≡ len

length-long_octets :
    (octs : Bytes) (lenlen : ℕ) (exact : Bool)
    → length (long_octets octs lenlen exact)
      ≡ (if exact then lenlen - 1 - length octs else 0) + length octs
length-long_octets octs lenlen exact =
    let k = if exact then lenlen - 1 - length octs else 0 in
    length-append (zeros k) octs ∙ ap (λ n. n + length octs) (length-zeros k)

LongFits_lem :
    (len lenlen : ℕ) (exact : Bool)
    → 2 ≤ lenlen
    → len < 256 ^ (lenlen - 1)
    → len < 2 ^ 24
    → (exact ≡ false) ⊎ (lenlen ≤ 4)
    → LongFits len lenlen exact
LongFits_lem len zero exact h fits small few = absurd (omega arith)
LongFits_lem len (suc zero) exact h fits small few = absurd (omega arith)
LongFits_lem len (suc (suc k)) exact h fits small few =
    let octs = push_digits 256 4 len [] in
    let here : suc (suc k) - 1 ≡ suc k = omega arith in
    let below : length octs ≤ suc k + 0 =
      length-push_digits_le 256 4 k len [] (omega arith) (rw here at fits) in
    let three : length octs ≤ 3 + 0 =
      length-push_digits_le 256 4 2 len [] (omega arith) (omega arith) in
    let some_digit : 0 < length octs = push_digits-length_lt 256 3 len [] in
    let n = length-long_octets octs (suc (suc k)) exact in
    record {
      octets = omega arith;
      some_octet = ground (arith, n);
      few = ground (arith, n);
      exactly =
          value-zeros (if exact then suc (suc k) - 1 - length octs else 0) octs
          ∙ value-push_digits 256 4 len [] (omega arith) (omega arith);
    }

declen_long :
    (cs rest : Bytes)
    → 0 < length cs
    → length cs ≤ 3
    → ber_declen ((length cs + 128) ∷ (cs ++ rest)) ≡ read (pos (value 256 0 cs)) (suc (length cs))
unfolding ber_declen
declen_long cs rest h few = ground (arith, shift_in-append cs 0 rest, length-append cs rest)

long_form :
    (len lenlen : ℕ) (exact : Bool)
    → is_short len lenlen exact ≡ false
    → FitsLength len lenlen exact
    → LongFits len lenlen exact × ((lenlen == 1) ≡ false)
long_form len lenlen exact long (inl (one, small)) = ground arith
long_form len lenlen exact long (inr (two, fits, small, few)) =
    (LongFits_lem len lenlen exact two fits small few, ground arith)

-- `ber_enclen` appends the octets of the length and returns their number.
pub ber_enclen-Appends :
    (len lenlen : ℕ) (exact : Bool) (o : Odr)
    → AtEnd o
    → o.pos + length (length_octets len lenlen exact) < 2 ^ 30
    → FitsLength len lenlen exact
    → let bs = length_octets len lenlen exact in
      Appends (pos (length bs)) bs o (ber_enclen (pos len) lenlen exact o)
unfolding ber_enclen
ber_enclen-Appends len lenlen exact o e b h = elim (Bool-cases (is_short len lenlen exact)) [
  | inl short ↦ rw short (putc_then-Appends len (pos 0) (pos 1) o e (omega arith))
  | inr long ↦
      let (f, many) = long_form len lenlen exact long h in
      let octs = push_digits 256 4 len [] in
      let n = length (long_octets octs lenlen exact) in
      let w =
        enclen_long-Returns octs lenlen exact o e.grows (omega (arith, e.at_top)) f.octets
          (omega (arith, f.few)) (omega (arith, e.at_top, rw long at b)) in
      let end : max o.top (o.pos + suc n) ≡ o.pos + suc n = omega (arith, e.at_top) in
      let count : o.pos + suc n - o.pos ≡ suc n = omega arith in
      rw (long, many) (Returns-Appends _ _ o _ e (rw (end, count) at w))
]

-- Reading the octets of a length gives it back, with their number, whatever follows.
pub ber_declen-length_octets :
    (len lenlen : ℕ) (exact : Bool) (rest : Bytes)
    → FitsLength len lenlen exact
    → let bs = length_octets len lenlen exact in
      ber_declen (bs ++ rest) ≡ read (pos len) (length bs)
ber_declen-length_octets len lenlen exact rest h = elim (Bool-cases (is_short len lenlen exact)) [
  | inl short ↦ rw short (unfold ber_declen in ground arith)
  | inr long ↦
      let f = (long_form len lenlen exact long h).0 in
      let cs = long_octets (push_digits 256 4 len []) lenlen exact in
      rw long (
        declen_long cs rest f.some_octet f.few ∙ ap (λ n. read (pos n) (suc (length cs))) f.exactly)
]

-- For a length that its octets can hold and that the decoder accepts (one octet below 128 if one is
-- reserved, else less than 2^24, with at most four octets reserved if the form is exact),
-- `ber_enclen` at the end of a stream that may grow, with room for the octets below 2^30, appends
-- octets and returns their number, and `ber_declen` reads the length and that number back from
-- them, whatever follows.
pub ber_length_round_trip :
    (len lenlen : ℕ) (exact : Bool) (rest : Bytes) (o : Odr)
    → AtEnd o
    → HasRoom (length (length_octets len lenlen exact)) o
    → FitsLength len lenlen exact
    → let bs = length_octets len lenlen exact in
      Appends (pos (length bs)) bs o (ber_enclen (pos len) lenlen exact o)
      × (ber_declen (bs ++ rest) ≡ read (pos len) (length bs))
ber_length_round_trip len lenlen exact rest o e room h = (
  ber_enclen-Appends len lenlen exact o e room.2 h,
  ber_declen-length_octets len lenlen exact rest h,
)

-- A length from 2^24 on is written in four octets behind the count, which `ber_declen` refuses with -2.
pub ber_declen-refuses_long :
    (len lenlen : ℕ) (rest : Bytes)
    → 2 ^ 24 ≤ len
    → ber_declen (length_octets len lenlen false ++ rest) ≡ minus_two
ber_declen-refuses_long len lenlen rest h =
    let octs = push_digits 256 4 len [] in
    let four : 4 + 0 ≤ length octs =
      push_digits-length_le 256 4 3 len [] (omega arith) (omega arith) (omega arith) in
    let short : is_short len lenlen false ≡ false = ground arith in
    let n : length (long_octets octs lenlen false) ≡ 0 + length octs =
      length-long_octets octs lenlen false in
    rw short (
      unfold ber_declen in
      ground (
        arith,
        length-push_digits 256 4 len [],
        length-append (long_octets octs lenlen false) rest,
      ))
