-- ===== src/Atoi.antt =====
-- Numbers from text: src/atoin.c. The list of bytes holds the `len` characters at `ptr`. An `unsigned
-- long` has 64 bits, and `none` stands for -1.
pub mod Value
use yaz.Prelude.{
  ℕ, zero, suc, ◌+◌, ◌-◌, ◌*◌, ◌/◌, Bool, true, false, [], ◌∷◌, Bytes, Option, none, some, length,
  ltb, leb, ◌==◌, ◌||◌, within, if◌then◌else◌,
}

abbrev pub ulong_max : ℕ
ulong_max = 18446744073709551615

abbrev pub int_max : ℕ
int_max = 2147483647

-- `none` where the loop breaks.
unfoldable pub digit_of : ℕ → Option ℕ
digit_of c =
    if within b'0' b'9' c
    then some (c - b'0')
    else if within b'A' b'Z' c
    then some (c - 55)
    else if within b'a' b'z' c
    then some (c - 87)
    else none

-- One character: the loop breaks, reports an overflow, or goes on with the new value.
pub data Step : Type 0 where
  stop : Step
  overflow : Step
  next : ℕ → Step

unfoldable pub step_digit : ℕ → ℕ → Option ℕ → Step
step_digit base val none = stop
step_digit base val (some digit) =
    if leb base digit
    then stop
    else if ltb ((ulong_max - digit) / base) val
    then overflow
    else next (val * base + digit)

-- Behind a step: the index and the value, where the loop ends.
unfoldable pub after_step : (ℕ → Option (ℕ × ℕ)) → ℕ → ℕ → Step → Option (ℕ × ℕ)
after_step again i val stop = some (i, val)
after_step again i val overflow = none
after_step again i val (next v) = again v

unfoldable pub atoul_loop : ℕ → Bytes → ℕ → ℕ → Option (ℕ × ℕ)
unfolding after_step step_digit
atoul_loop base [] i val = some (i, val)
atoul_loop base (c ∷ cs) i val =
    after_step (λ v. atoul_loop base cs (suc i) v) i val (step_digit base val (digit_of c))

-- The number of characters read, and `*val`.
unfoldable pub yaz_atoul : ℕ → Bytes → Option (ℕ × ℕ)
unfolding atoul_loop
yaz_atoul base ptr = if ltb base 2 || ltb 36 base then none else atoul_loop base ptr 0 0

unfoldable pub narrow : Option (ℕ × ℕ) → Option (ℕ × ℕ)
narrow none = none
narrow (some (ret, uval)) = if ltb int_max uval then none else some (ret, uval)

unfoldable pub yaz_atoi : ℕ → Bytes → Option (ℕ × ℕ)
unfolding narrow yaz_atoul
yaz_atoi base ptr = narrow (yaz_atoul base ptr)

-- `none` where it returns 0.
unfoldable pub whole : ℕ → Option (ℕ × ℕ) → Option ℕ
whole size none = none
whole size (some (ret, val)) = if ret == size then some val else none

unfoldable pub atoi_n_check : Bytes → Option ℕ
unfolding whole yaz_atoi
atoi_n_check buf = whole (length buf) (yaz_atoi 10 buf)

unfoldable pub value_or_zero : Option ℕ → ℕ
value_or_zero none = 0
value_or_zero (some val) = val

unfoldable pub atoi_n : Bytes → ℕ
unfolding value_or_zero atoi_n_check
atoi_n buf = value_or_zero (atoi_n_check buf)
