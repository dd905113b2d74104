-- ===== src/Ber/Integer/RoundTrip.antt =====
-- `ber_decinteger` reads back what `ber_encinteger` wrote: src/ber_int.c.
use yaz.Prelude.{
  ℕ, zero, suc, ◌+◌, ◌-◌, ◌*◌, ◌/◌, ◌%◌, ◌^◌, ◌≤◌, ◌<◌, ◌≡◌, ◌∙◌, ap, refl, Bool, true, false, [],
  ◌∷◌, ◌++◌, Bytes, some, length, length-append, drop-append, leb, ◌==◌, if◌then◌else◌, arith, inl,
  inr, Bool-cases, holds_below, holds_below-at, ==_iff, sym, All, IsByte,
}
use native.Mathlib.Nat.{pow-suc}
use yaz.Prelude.Digits.{value, le-value}
use yaz.Prelude.Int.{ℤ, pos, negsuc}
use yaz.Odr.{Odr, decode, encode, odr_write}
use yaz.Odr.Buffer.{HasRoom}
use yaz.Odr.Appends.{AtEnd, Appends, Appends-trans, Appends-with, Appends-pos, odr_write-Appends}
use yaz.Ber.Length.{read, ber_enclen, ber_declen}
use yaz.Ber.Length.RoundTrip.{length_octets, ber_enclen-Appends}
use yaz.Ber.Integer.{
  fill_tmp, is_redundant, skip_sign, write_contents, ber_encinteger, shift_octets, sign_fill,
  decinteger_value, ber_decinteger, encoded, decoded, integer_in, ber_integer,
}

-- The octets that a `k`-byte number has, highest first.
value-fill_tmp :
    (k v : ℕ) (tmp : Bytes) → v < 256 ^ k → value 256 0 (fill_tmp k v tmp) ≡ value 256 v tmp
unfolding fill_tmp
value-fill_tmp zero v tmp h = let e : v ≡ 0 = omega arith in rw e
value-fill_tmp (suc k) v tmp h =
    let e : v / 256 * 256 + v % 256 ≡ v = omega arith in
    value-fill_tmp k (v / 256) (v % 256 ∷ tmp) (omega (arith, pow-suc 256 k))
    ∙ ap (λ n. value 256 n tmp) e

length-fill_tmp : (k v : ℕ) (tmp : Bytes) → length (fill_tmp k v tmp) ≡ k + length tmp
unfolding fill_tmp
length-fill_tmp zero v tmp = omega arith
length-fill_tmp (suc k) v tmp = omega (arith, length-fill_tmp k (v / 256) (v % 256 ∷ tmp))

fill_tmp-IsByte : (k v : ℕ) (tmp : Bytes) → All IsByte tmp → All IsByte (fill_tmp k v tmp)
unfolding fill_tmp
fill_tmp-IsByte zero v tmp h = h
fill_tmp-IsByte (suc k) v tmp h = fill_tmp-IsByte k (v / 256) (v % 256 ∷ tmp) (omega arith, h)

-- `0xff`, `n` times.
abbrev ones : ℕ → ℕ
ones zero = 0
ones (suc n) = ones n * 256 + 255

abbrev sign_of : ℕ → ℕ → ℕ
sign_of c n = if leb 128 c then ones n else 0

-- The number that contents octets stand for, with the sign carried over 64 bits.
abbrev pub extended : Bytes → ℕ
extended [] = 0
extended (c ∷ cs) = value 256 (sign_of c (8 - length (c ∷ cs))) (c ∷ cs)

extended-skip_sign : (cs : Bytes) → length cs ≤ 8 → extended (skip_sign cs) ≡ extended cs
unfolding skip_sign
extended-skip_sign [] h = refl
extended-skip_sign (a ∷ []) h = refl
extended-skip_sign (a ∷ b ∷ bs) h = elim (Bool-cases (is_redundant a b)) [
  | inl skip ↦
      let more : 8 - suc (length bs) ≡ suc (8 - suc (suc (length bs))) = omega arith in
      let more_ones = ap ones more in
      let same : sign_of a (8 - suc (suc (length bs))) * 256 + a ≡ sign_of b (8 - suc (length bs)) =
        ground arith in
      rw skip (
        extended-skip_sign (b ∷ bs) (omega arith) ∙ ap (λ n. value 256 (n * 256 + b) bs) (sym same))
  | inr keep ↦ rw keep
]

length-skip_sign :
    (c : ℕ) (cs : Bytes)
    → (1 ≤ length (skip_sign (c ∷ cs))) × (length (skip_sign (c ∷ cs)) ≤ length (c ∷ cs))
unfolding skip_sign
length-skip_sign a [] = omega arith
length-skip_sign a (b ∷ bs) = ground (arith, length-skip_sign b bs)

shift_octets-value :
    (cs rest : Bytes) (u : ℕ)
    → value 256 u cs < 2 ^ 64
    → shift_octets (length cs) u (cs ++ rest) ≡ value 256 u cs
unfolding shift_octets
shift_octets-value [] rest u h = refl
shift_octets-value (c ∷ cs) rest u h =
    ground (arith, shift_octets-value cs rest (u * 256 + c), le-value 256 (u * 256 + c) cs)

sign_fill_table : holds_below (λ n. sign_fill n 0 == ones n) 9 ≡ true
unfolding holds_below sign_fill
sign_fill_table = refl

sign_fill-ones : (n : ℕ) → n < 9 → sign_fill n 0 ≡ ones n
sign_fill-ones n h = (==_iff _ _).0 (holds_below-at _ 9 n h sign_fill_table)

decinteger_value-extended :
    (past c : ℕ) (cs rest : Bytes)
    → length (c ∷ cs) ≤ 8
    → extended (c ∷ cs) < 2 ^ 64
    → decinteger_value past (c ∷ cs ++ rest) (length (c ∷ cs)) 1
      ≡ (extended (c ∷ cs), 1 + length (c ∷ cs))
unfolding decinteger_value
decinteger_value-extended past c cs rest h fits = ground (
  arith,
  sign_fill-ones (8 - length (c ∷ cs)) (omega arith),
  shift_octets-value (c ∷ cs) rest (sign_of c (8 - length (c ∷ cs))) fits,
)

-- The contents octets of a value.
abbrev pub integer_octets : ℕ → Bytes
integer_octets val = skip_sign (fill_tmp 8 val [])

write_contents-one :
    (cs : Bytes) (m : Odr × ℤ) → m.1 ≡ pos 1 → write_contents cs m ≡ odr_write cs m.0
unfolding write_contents
write_contents-one cs (o, pos zero) h = ground arith
write_contents-one cs (o, pos (suc zero)) h = refl
write_contents-one cs (o, pos (suc (suc n))) h = ground arith
write_contents-one cs (o, negsuc n) h = cc

integer_octets-length :
    (val : ℕ) → (1 ≤ length (integer_octets val)) × (length (integer_octets val) ≤ 8)
integer_octets-length val = go (fill_tmp 8 val []) (length-fill_tmp 8 val [])
  where
    go :
        (tmp : Bytes)
        → length tmp ≡ 8 + 0
        → (1 ≤ length (skip_sign tmp)) × (length (skip_sign tmp) ≤ 8)
    go [] e = absurd (omega arith)
    go (c ∷ cs) e = omega (arith, length-skip_sign c cs)

-- `ber_encinteger` appends the number of contents octets and the octets.
pub ber_encinteger-Appends :
    (val : ℕ) (o : Odr)
    → AtEnd o
    → o.pos + 9 < 2 ^ 30
    → let cs = integer_octets val in Appends true (length cs ∷ cs) o (ber_encinteger val o)
unfolding ber_encinteger
ber_encinteger-Appends val o e h =
    let cs = integer_octets val in
    let n = integer_octets-length val in
    let m = ber_enclen (pos (length cs)) 1 true o in
    let one : length_octets (length cs) 1 true ≡ length cs ∷ [] = ground arith in
    let w = rw one at (
      ber_enclen-Appends (length cs) 1 true o e (omega (arith, ap length one))
        (inl (refl, omega arith))) in
    rw (write_contents-one cs m w.result) (
      Appends-trans (pos 1) true (length cs ∷ []) cs o m (odr_write cs m.0) w (
        odr_write-Appends cs m.0 w.at_end
          (omega (arith, Appends-pos (pos 1) (length cs ∷ []) o m e w))))

decinteger_steps :
    (past val : ℕ) (cs rest : Bytes)
    → 1 ≤ length cs
    → length cs ≤ 8
    → extended cs ≡ val
    → val < 2 ^ 64
    → ber_decinteger past (length cs ∷ (cs ++ rest)) ≡ some (val, 1 + length cs)
unfolding ber_decinteger
decinteger_steps past val [] rest lo hi e h = absurd (omega arith)
decinteger_steps past val (c ∷ cs) rest lo hi e h =
    let n = suc (length cs) in
    let short : ber_declen (n ∷ (c ∷ cs ++ rest)) ≡ read (pos n) 1 =
      unfold ber_declen in ground arith in
    rw short
      (ground (arith, length-append (c ∷ cs) rest, decinteger_value-extended past c cs rest hi))

extended_eight : (cs : Bytes) → length cs ≡ 8 + 0 → extended cs ≡ value 256 0 cs
extended_eight [] h = refl
extended_eight (c ∷ cs) h =
    let full : 8 - suc (length cs) ≡ 0 = omega arith in
    let none_left : sign_of c (8 - suc (length cs)) ≡ 0 = rw full (ground arith) in
    ap (λ n. value 256 (n * 256 + c) cs) none_left

pub ber_decinteger-integer_octets :
    (past val : ℕ) (rest : Bytes)
    → val < 2 ^ 64
    → let cs = integer_octets val in
      ber_decinteger past (length cs ∷ (cs ++ rest)) ≡ some (val, 1 + length cs)
ber_decinteger-integer_octets past val rest h =
    let n = integer_octets-length val in
    let tmp = fill_tmp 8 val [] in
    let whole : extended tmp ≡ val =
      extended_eight tmp (length-fill_tmp 8 val []) ∙ value-fill_tmp 8 val [] h in
    decinteger_steps past val (integer_octets val) rest n.0 n.1
      (extended-skip_sign tmp (omega (arith, length-fill_tmp 8 val [])) ∙ whole) h

encoded-true : (val : ℕ) (m : Odr × Bool) → m.1 ≡ true → encoded val m ≡ (m.0, some val)
encoded-true val (o, true) h = refl
encoded-true val (o, false) h = cc

integer_encode :
    (past val : ℕ) (o : Odr)
    → o.direction ≡ encode
    → ber_integer past val o ≡ encoded val (ber_encinteger val o)
unfolding ber_integer
integer_encode past val o e = ap (λ x. integer_in x past val o) e

integer_decode :
    (past val : ℕ) (o : Odr)
    → o.direction ≡ decode
    → ber_integer past val o ≡ decoded o (ber_decinteger past o.bp)
unfolding ber_integer
integer_decode past val o e = ap (λ x. integer_in x past val o) e

-- For every 64-bit value, `ber_integer` on an encoding stream that stands at its end and may grow,
-- with nine bytes of room below 2^30, appends a length octet and one to eight contents octets; on a
-- decoding stream that stands before these octets it reads the value and stops behind them.
pub ber_integer_round_trip :
    (val past before : ℕ) (rest : Bytes) (o d : Odr)
    → val < 2 ^ 64
    → AtEnd o
    → HasRoom 9 o
    → o.direction ≡ encode
    → d.direction ≡ decode
    → let bs = length (integer_octets val) ∷ integer_octets val in
      Appends (some val) bs o (ber_integer past val o)
      × (length bs ≤ 9)
      × (ber_integer past before (record d { bp = bs ++ rest })
          ≡ (record d { bp = rest }, some val))
ber_integer_round_trip val past before rest o d h e room enc dec =
    let cs = integer_octets val in
    let w = ber_encinteger-Appends val o e room.2 in
    let size : 1 + length cs ≡ suc (length cs) = omega arith in
    (
      rw (integer_encode past val o enc ∙ encoded-true val (ber_encinteger val o) w.result)
          (Appends-with true (some val) (length cs ∷ cs) o (ber_encinteger val o) w),
      omega (arith, integer_octets-length val),
      integer_decode past before (record d { bp = length cs ∷ cs ++ rest }) dec
          ∙ rw (ber_decinteger-integer_octets past val rest h, size, drop-append cs rest),
    )
