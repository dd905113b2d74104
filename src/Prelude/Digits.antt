-- ===== src/Prelude/Digits.antt =====
-- The loop `do { octs[n++] = v & (base - 1); v >>= k; } while (v);` for base 2^k, which the encoders
-- of lengths, tags and object identifiers share, and what reading its digits back gives.
use Prim.Native.Nat.{ℕ, zero, suc, ◌+◌, ◌*◌, ◌/◌, ◌%◌, ◌^◌, ◌≤◌, ◌<◌}
use Prim.Native.Nat.pow
use mathlib.Core.Path.{◌≡◌}
use mathlib.Core.Logic.{inl, inr}
use mathlib.Core.List.{List, [], ◌∷◌}
use native.Mathlib.Omega.{arith}
use native.Mathlib.Decide.{dec_lt}
use native.Mathlib.Nat.{div-lt_iff_lt-mul, div-add-mod, mod-lt, pow-suc}
use yaz.Prelude.Tests.{◌==◌, if◌then◌else◌, Bool-cases}
use yaz.Prelude.Lists.{All, length}

-- The array as a stack: its head is `octs[n - 1]`, and its length is `n`. The fuel bounds the rounds:
-- a 32-bit value has at most four base-256 digits and five base-128 digits.
unfoldable pub push_digits : ℕ → ℕ → ℕ → List ℕ → List ℕ
push_digits base zero v octs = octs
push_digits base (suc fuel) v octs =
    let rest = push_digits base fuel (v / base) (v % base ∷ octs) in
    if v / base == 0 then v % base ∷ octs else rest

-- The number that digits spell behind `v`, highest first.
abbrev pub value : ℕ → ℕ → List ℕ → ℕ
value base v [] = v
value base v (d ∷ ds) = value base (v * base + d) ds

pub le-value : (base v : ℕ) (ds : List ℕ) → 0 < base → v ≤ value base v ds
le-value base v [] b = omega arith
le-value base v (d ∷ ds) b = grind (arith, le-value base (v * base + d) ds b)

quotient_fits : (base v p : ℕ) → 0 < base → v < p * base → v / base < p
quotient_fits base v p b h = (div-lt_iff_lt-mul b).1 h

-- With enough fuel for the digits of `v` the loop writes `v`.
pub value-push_digits :
    (base fuel v : ℕ) (octs : List ℕ)
    → 0 < base
    → v < base ^ fuel
    → value base 0 (push_digits base fuel v octs) ≡ value base v octs
unfolding push_digits
value-push_digits base zero v octs b h = let e : v ≡ 0 = omega (arith, pow.zero base) in rw e
value-push_digits base (suc fuel) v octs b h = ground (
  arith,
  div-add-mod v base,
  value-push_digits base fuel (v / base) (v % base ∷ octs) b,
  quotient_fits base v (base ^ fuel) b,
  pow-suc base fuel,
)

pub length-push_digits :
    (base fuel v : ℕ) (octs : List ℕ) → length (push_digits base fuel v octs) ≤ fuel + length octs
unfolding push_digits
length-push_digits base zero v octs = omega arith
length-push_digits base (suc fuel) v octs =
    ground (arith, length-push_digits base fuel (v / base) (v % base ∷ octs))

-- `k` digits are enough for a value below `base ^ k`, however much fuel there is.
pub length-push_digits_le :
    (base fuel k v : ℕ) (octs : List ℕ)
    → 0 < base
    → v < base ^ suc k
    → length (push_digits base fuel v octs) ≤ suc k + length octs
unfolding push_digits
length-push_digits_le base zero k v octs b h = omega arith
length-push_digits_le base (suc fuel) zero v octs b h =
    ground (arith, quotient_fits base v 1 b, pow-suc base 0, pow.zero base)
length-push_digits_le base (suc fuel) (suc k) v octs b h = ground (
  arith,
  quotient_fits base v (base ^ suc k) b,
  pow-suc base (suc k),
  length-push_digits_le base fuel k (v / base) (v % base ∷ octs) b,
)

pub push_digits-length_lt :
    (base fuel v : ℕ) (octs : List ℕ) → length octs < length (push_digits base (suc fuel) v octs)
unfolding push_digits
push_digits-length_lt base zero v octs = ground arith
push_digits-length_lt base (suc fuel) v octs =
    ground (arith, push_digits-length_lt base fuel (v / base) (v % base ∷ octs))

pub All-push_digits :
    (base fuel v : ℕ) (octs : List ℕ)
    → 0 < base
    → All (λ d. d < base) octs
    → All (λ d. d < base) (push_digits base fuel v octs)
unfolding push_digits
All-push_digits base zero v octs b h = h
All-push_digits base (suc fuel) v octs b h = elim (Bool-cases (v / base == 0)) [
  | inl e ↦ rw e (mod-lt v b, h)
  | inr e ↦ rw e (All-push_digits base fuel (v / base) (v % base ∷ octs) b (mod-lt v b, h))
]

pow_pos : (base k : ℕ) → 0 < base → 0 < base ^ k
pow_pos base zero b = omega (arith, pow.zero base)
pow_pos base (suc k) b = grind (arith, pow-suc base k, pow_pos base k b)

power_le_quotient : (base k v : ℕ) → 0 < base → base ^ suc k ≤ v → base ^ k ≤ v / base
power_le_quotient base k v b h = elim (dec_lt (v / base) (base ^ k)) [
  | yes lt ↦ absurd (omega (arith, pow-suc base k, (div-lt_iff_lt-mul {y = base ^ k} b).0 lt))
  | no ge ↦ omega arith
]

-- A value of at least `base ^ k` has more than `k` digits.
pub push_digits-length_le :
    (base fuel k v : ℕ) (octs : List ℕ)
    → 0 < base
    → base ^ k ≤ v
    → k < fuel
    → suc k + length octs ≤ length (push_digits base fuel v octs)
unfolding push_digits
push_digits-length_le base zero k v octs b h f = absurd (omega arith)
push_digits-length_le base (suc fuel) zero v octs b h f =
    omega (arith, push_digits-length_lt base fuel v octs)
push_digits-length_le base (suc fuel) (suc k) v octs b h f = ground (
  arith,
  power_le_quotient base k v b h,
  pow_pos base k b,
  push_digits-length_le base fuel k (v / base) (v % base ∷ octs) b,
)
