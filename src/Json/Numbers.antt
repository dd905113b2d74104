-- ===== src/Json/Numbers.antt =====
-- A number that `%lg` prints is scanned to its end by `json_parse_number` of src/json.c.
use yaz.Prelude.{
  ℕ, ◌+◌, ◌<◌, ◌≡◌, ◌≢◌, ◌⊎◌, ◌∙◌, ap, refl, Bool, true, false, ◌||◌, [], ◌∷◌, ◌++◌, append_assoc,
  Bytes, some, length, length-append, All, ◌==◌, if◌then◌else◌, arith, inl, inr, Bool-cases, bind,
}
use yaz.Json.{Library, number}
use yaz.Json.State.{Parser, done, peek, is_digit, is_space}
use yaz.Json.Scan.{
  skip_digits, digits_end, whole_end, fraction_end, exponent_end, skip_minus, number_end,
  number_read,
}
use yaz.Json.Parser.{json_parse_number}

abbrev pub IsDigit : ℕ → Type 0
IsDigit c = is_digit c ≡ true

-- The parts of what `%lg` prints for a finite number: a sign, the digits before the point, those behind
-- it if there are any, and the sign and the digits of the exponent if there are any.
pub record Decimal : Type 0 where
  pub minus : Bool
  pub lead : ℕ
  pub more : Bytes
  pub fraction : Bytes
  pub exponent_sign : ℕ
  pub exponent : Bytes

abbrev pub fraction_text : Bytes → Bytes
fraction_text [] = []
fraction_text (d ∷ ds) = b'.' ∷ d ∷ ds

abbrev pub exponent_text : ℕ → Bytes → Bytes
exponent_text sign [] = []
exponent_text sign (d ∷ ds) = b'e' ∷ sign ∷ d ∷ ds

abbrev pub sign_text : Bool → Bytes
sign_text minus = if minus then b'-' ∷ [] else []

abbrev pub decimal_text : Decimal → Bytes
decimal_text d =
    sign_text d.minus
    ++ (d.lead ∷ (d.more ++ (fraction_text d.fraction ++ exponent_text d.exponent_sign d.exponent)))

-- No zero stands before another digit.
pub record IsDecimal (d : Decimal) : Type 0 where
  pub lead_digit : IsDigit d.lead
  pub leading : (d.lead ≢ b'0') ⊎ (d.more ≡ [])
  pub more_digits : All IsDigit d.more
  pub fraction_digits : All IsDigit d.fraction
  pub exponent_digits : All IsDigit d.exponent
  pub signed : (d.exponent_sign ≡ b'+') ⊎ (d.exponent_sign ≡ b'-')

-- What may follow a value in the texts of the writer: the end, white space, a comma, or a closing
-- bracket or brace.
abbrev pub is_stop : ℕ → Bool
is_stop c = c == 0 || is_space c || c == b',' || c == b']' || c == b'}'

abbrev pub Stops : Bytes → Type 0
Stops rest = is_stop (peek rest) ≡ true

-- A number that is read back from what `%lg` prints of it.
pub record IsExact (lib : Library) (v : ℕ) : Type 0 where
  pub decimal : Decimal
  pub shape : IsDecimal decimal
  pub printed : lib.print_lg v ≡ decimal_text decimal
  pub read_back :
      (rest : Bytes)
      → Stops rest
      → lib.strtod (decimal_text decimal ++ rest) ≡ (v, length (decimal_text decimal))

skip_digits-append :
    (ds rest : Bytes)
    → All IsDigit ds
    → is_digit (peek rest) ≡ false
    → skip_digits (ds ++ rest) ≡ rest
unfolding skip_digits
skip_digits-append [] [] h s = refl
skip_digits-append [] (c ∷ rest) h s = rw s
skip_digits-append (d ∷ ds) rest h s = rw h.0 (skip_digits-append ds rest h.1 s)

digits_end-append :
    (d : ℕ) (ds rest : Bytes)
    → IsDigit d
    → All IsDigit ds
    → is_digit (peek rest) ≡ false
    → digits_end (d ∷ ds ++ rest) ≡ some rest
unfolding digits_end
digits_end-append d ds rest h k s = rw h (ap some (skip_digits-append ds rest k s))

exponent_end-text :
    (sign : ℕ) (ds rest : Bytes)
    → (sign ≡ b'+') ⊎ (sign ≡ b'-')
    → All IsDigit ds
    → Stops rest
    → exponent_end (exponent_text sign ds ++ rest) ≡ some rest
unfolding exponent_end
exponent_end-text sign [] [] g h s = refl
exponent_end-text sign [] (c ∷ rest) g h s = ground arith
exponent_end-text sign (d ∷ ds) rest g h s = ground (arith, digits_end-append d ds rest h.0 h.1)

-- What begins behind the digits before the point, and behind the fraction.
exponent_start :
    (sign : ℕ) (ds rest : Bytes)
    → Stops rest
    → (is_digit (peek (exponent_text sign ds ++ rest)) ≡ false)
      × ((peek (exponent_text sign ds ++ rest) == b'.') ≡ false)
exponent_start sign [] rest s = (ground arith, ground arith)
exponent_start sign (d ∷ ds) rest s = (refl, refl)

fraction_end-text :
    (ds rest : Bytes)
    → All IsDigit ds
    → is_digit (peek rest) ≡ false
    → (peek rest == b'.') ≡ false
    → fraction_end (fraction_text ds ++ rest) ≡ some rest
unfolding fraction_end
fraction_end-text [] [] h s t = refl
fraction_end-text [] (c ∷ rest) h s t = rw t
fraction_end-text (d ∷ ds) rest h s t = digits_end-append d ds rest h.0 h.1 s

fraction_start :
    (ds rest : Bytes)
    → is_digit (peek rest) ≡ false
    → is_digit (peek (fraction_text ds ++ rest)) ≡ false
fraction_start [] rest s = s
fraction_start (d ∷ ds) rest s = refl

whole_end-text :
    (d : ℕ) (ds rest : Bytes)
    → IsDigit d
    → (d ≢ b'0') ⊎ (ds ≡ [])
    → All IsDigit ds
    → is_digit (peek rest) ≡ false
    → whole_end (d ∷ ds ++ rest) ≡ some rest
unfolding whole_end
whole_end-text d [] rest h l k s = ground (arith, digits_end-append d [] rest h k s)
whole_end-text d (e ∷ ds) rest h l k s = ground (arith, digits_end-append d (e ∷ ds) rest h k s)

skip_minus-text :
    (minus : Bool) (d : ℕ) (cs : Bytes)
    → IsDigit d
    → skip_minus (sign_text minus ++ d ∷ cs) ≡ d ∷ cs
skip_minus-text true d cs h = refl
skip_minus-text false d cs h = ground arith

number_end-decimal :
    (d : Decimal) (rest : Bytes)
    → IsDecimal d
    → Stops rest
    → number_end (decimal_text d ++ rest) ≡ some rest
unfolding number_end
number_end-decimal d rest h s =
    let expo = exponent_text d.exponent_sign d.exponent in
    let frac = fraction_text d.fraction in
    let (e, f) = exponent_start d.exponent_sign d.exponent rest s in
    let text : decimal_text d ++ rest
        ≡ sign_text d.minus ++ d.lead ∷ (d.more ++ (frac ++ (expo ++ rest))) =
      simp (append_assoc) in
    ap (λ cs. bind (whole_end (skip_minus cs)) λ ds. bind (fraction_end ds) exponent_end) text
    ∙ ap (λ cs. bind (whole_end cs) λ ds. bind (fraction_end ds) exponent_end)
        (skip_minus-text d.minus d.lead (d.more ++ (frac ++ (expo ++ rest))) h.lead_digit)
    ∙ ap (λ o. bind o λ ds. bind (fraction_end ds) exponent_end)
        (whole_end-text d.lead d.more (frac ++ (expo ++ rest)) h.lead_digit h.leading h.more_digits
          (fraction_start d.fraction (expo ++ rest) e))
    ∙ ap (λ o. bind o exponent_end)
        (fraction_end-text d.fraction (expo ++ rest) h.fraction_digits e f)
    ∙ exponent_end-text d.exponent_sign d.exponent rest h.signed h.exponent_digits s

decimal_text_pos : (d : Decimal) → 0 < length (decimal_text d)
decimal_text_pos d = omega (
  arith,
  length-append (sign_text d.minus)
      (d.lead ∷ (d.more ++ (fraction_text d.fraction ++ exponent_text d.exponent_sign d.exponent))),
)

-- The parser in front of the printed number and what follows it.
pub json_parse_number-print :
    (lib : Library) (v : ℕ) (rest : Bytes) (p : Parser)
    → IsExact lib v
    → Stops rest
    → p.cp ≡ lib.print_lg v ++ rest
    → json_parse_number lib p ≡ done (number v) (record p { cp = rest })
unfolding json_parse_number
json_parse_number-print lib v rest p x s here =
    let text = decimal_text x.decimal in
    let cp : p.cp ≡ text ++ rest = here ∙ ap (λ t. t ++ rest) x.printed in
    ap (λ cs. number_read p (number_end cs) (lib.strtod cs)) cp
    ∙ ap (λ e. number_read p e (lib.strtod (text ++ rest)))
        (number_end-decimal x.decimal rest x.shape s)
    ∙ ap (number_read p (some rest)) (x.read_back rest s)
    ∙ used (length text) (decimal_text_pos x.decimal) (ap length cp ∙ length-append text rest)
  where
    used :
        (n : ℕ)
        → 0 < n
        → length p.cp ≡ n + length rest
        → number_read p (some rest) (v, n) ≡ done (number v) (record p { cp = rest })
    used n pos total = unfold number_read in ground arith

-- A printed number begins with a digit or a minus sign.
pub print_lg-start :
    (lib : Library) (v : ℕ)
    → IsExact lib v
    → (is_digit (peek (lib.print_lg v)) ≡ true) ⊎ (peek (lib.print_lg v) ≡ b'-')
print_lg-start lib v x = rw (x.printed) (begins x.decimal x.shape)
  where
    begins :
        (d : Decimal)
        → IsDecimal d
        → (is_digit (peek (decimal_text d)) ≡ true) ⊎ (peek (decimal_text d) ≡ b'-')
    begins d h = elim (Bool-cases d.minus) [
      | inl e ↦ rw e (inr refl)
      | inr e ↦ rw e (inl (h.lead_digit))
    ]
