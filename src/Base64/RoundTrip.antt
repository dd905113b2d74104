-- ===== src/Base64/RoundTrip.antt =====
-- Decoding undoes encoding: src/base64.c.
use yaz.Prelude.{
  ℕ, zero, suc, ◌+◌, ◌*◌, ◌/◌, ◌%◌, ◌≤◌, ◌<◌, ◌≡◌, ◌∙◌, ap, refl, false, [], ◌∷◌, Bytes, some,
  length, All, IsByte, ◌==◌, arith,
}
use yaz.Base64.{
  encoding, yaz_base64encode, map_index, skip_blanks, padding, six, six_of, read_char, next_char,
  emit, fourth_six, third_six, second_six, first_six, base64_loop, yaz_base64decode,
}

map_index-encoding : (n : ℕ) → n < 64 → map_index (encoding n) ≡ some n
unfolding map_index encoding
map_index-encoding n h = ground arith

encoding-next : (n : ℕ) (cs : Bytes) → n < 64 → skip_blanks (encoding n ∷ cs) ≡ encoding n ∷ cs
unfolding encoding skip_blanks
encoding-next n cs h = ground arith

encoding_no_pad : (n : ℕ) → n < 64 → (encoding n == b'=') ≡ false
unfolding encoding
encoding_no_pad n h = ground arith

next_char-encoding : (n : ℕ) (cs : Bytes) → n < 64 → next_char (encoding n ∷ cs) ≡ six n cs
unfolding next_char
next_char-encoding n cs h =
    ap read_char (encoding-next n cs h)
    ∙ unfold read_char six_of in rw (encoding_no_pad n h) (rw (map_index-encoding n h) refl)

next_char-pad : (cs : Bytes) → next_char (b'=' ∷ cs) ≡ padding
unfolding next_char read_char skip_blanks
next_char-pad cs = refl

loop_round :
    (fuel : ℕ) (cs : Bytes)
    → 4 ≤ length cs
    → base64_loop (suc fuel) cs ≡ first_six (base64_loop fuel) (next_char cs)
unfolding base64_loop
loop_round fuel cs h = ground arith

-- One round over four characters.
round_four :
    (fuel i j k l : ℕ) (cs : Bytes)
    → i < 64
    → j < 64
    → k < 64
    → l < 64
    → base64_loop (suc fuel) (encoding i ∷ encoding j ∷ encoding k ∷ encoding l ∷ cs)
      ≡ emit
          (i * 4 + j / 16)
          (emit ((j * 16 + k / 4) % 256) (emit ((k * 64 + l) % 256) (base64_loop fuel cs)))
round_four fuel i j k l cs hi hj hk hl =
    let again = base64_loop fuel in
    loop_round fuel (encoding i ∷ encoding j ∷ encoding k ∷ encoding l ∷ cs) (omega arith)
    ∙ ap (first_six again) (next_char-encoding i (encoding j ∷ encoding k ∷ encoding l ∷ cs) hi)
    ∙ unfold first_six second_six third_six fourth_six in
      ap (second_six again i) (next_char-encoding j (encoding k ∷ encoding l ∷ cs) hj)
      ∙ ap (λ r. emit (i * 4 + j / 16) (third_six again j r))
          (next_char-encoding k (encoding l ∷ cs) hk)
      ∙ ap (λ r. emit (i * 4 + j / 16) (emit ((j * 16 + k / 4) % 256) (fourth_six again k r)))
          (next_char-encoding l cs hl)

round_three :
    (fuel i j k : ℕ)
    → i < 64
    → j < 64
    → k < 64
    → base64_loop (suc fuel) (encoding i ∷ encoding j ∷ encoding k ∷ b'=' ∷ [])
      ≡ some ((i * 4 + j / 16) ∷ ((j * 16 + k / 4) % 256) ∷ [])
round_three fuel i j k hi hj hk =
    let again = base64_loop fuel in
    loop_round fuel (encoding i ∷ encoding j ∷ encoding k ∷ b'=' ∷ []) (omega arith)
    ∙ ap (first_six again) (next_char-encoding i (encoding j ∷ encoding k ∷ b'=' ∷ []) hi)
    ∙ unfold first_six second_six third_six fourth_six emit in
      ap (second_six again i) (next_char-encoding j (encoding k ∷ b'=' ∷ []) hj)
      ∙ ap (λ r. emit (i * 4 + j / 16) (third_six again j r)) (next_char-encoding k (b'=' ∷ []) hk)
      ∙ ap (λ r. emit (i * 4 + j / 16) (emit ((j * 16 + k / 4) % 256) (fourth_six again k r)))
          (next_char-pad [])

round_two :
    (fuel i j : ℕ)
    → i < 64
    → j < 64
    → base64_loop (suc fuel) (encoding i ∷ encoding j ∷ b'=' ∷ b'=' ∷ [])
      ≡ some ((i * 4 + j / 16) ∷ [])
round_two fuel i j hi hj =
    let again = base64_loop fuel in
    loop_round fuel (encoding i ∷ encoding j ∷ b'=' ∷ b'=' ∷ []) (omega arith)
    ∙ ap (first_six again) (next_char-encoding i (encoding j ∷ b'=' ∷ b'=' ∷ []) hi)
    ∙ unfold first_six second_six third_six emit in
      ap (second_six again i) (next_char-encoding j (b'=' ∷ b'=' ∷ []) hj)
      ∙ ap (λ r. emit (i * 4 + j / 16) (third_six again j r)) (next_char-pad (b'=' ∷ []))

-- The four parts of 24 bits spell the three bytes again.
pieces :
    (a b c : ℕ)
    → a < 256
    → b < 256
    → c < 256
    → (((a * 65536 + b * 256 + c) / 262144 % 64) * 4 + ((a * 65536 + b * 256 + c) / 4096 % 64) / 16
        ≡ a)
      × ((((a * 65536 + b * 256 + c) / 4096 % 64) * 16 + ((a * 65536 + b * 256 + c) / 64 % 64) / 4)
            % 256
          ≡ b)
      × ((((a * 65536 + b * 256 + c) / 64 % 64) * 64 + (a * 65536 + b * 256 + c) % 64) % 256 ≡ c)
pieces a b c ha hb hc = (omega arith, omega arith, omega arith)

decode_loop-encode :
    (fuel : ℕ) (cs : Bytes)
    → All IsByte cs
    → length (yaz_base64encode cs) ≤ fuel
    → base64_loop fuel (yaz_base64encode cs) ≡ some cs
unfolding yaz_base64encode
decode_loop-encode zero [] h f = unfold base64_loop in refl
decode_loop-encode (suc fuel) [] h f = unfold base64_loop in refl
decode_loop-encode zero (a ∷ []) h f = absurd (omega arith)
decode_loop-encode zero (a ∷ b ∷ []) h f = absurd (omega arith)
decode_loop-encode zero (a ∷ b ∷ c ∷ cs) h f = absurd (omega arith)
decode_loop-encode (suc fuel) (a ∷ []) h f =
    round_two fuel (a * 65536 / 262144 % 64) (a * 65536 / 4096 % 64) (omega arith) (omega arith)
    ∙ ap (λ x. some (x ∷ [])) (omega arith)
decode_loop-encode (suc fuel) (a ∷ b ∷ []) h f =
    let n = a * 65536 + b * 256 in
    round_three fuel (n / 262144 % 64) (n / 4096 % 64) (n / 64 % 64) (omega arith) (omega arith)
      (omega arith)
    ∙ ap (λ x. some (x ∷ ((n / 4096 % 64 * 16 + n / 64 % 64 / 4) % 256) ∷ [])) (omega arith)
    ∙ ap (λ x. some (a ∷ x ∷ [])) (omega arith)
decode_loop-encode (suc fuel) (a ∷ b ∷ c ∷ cs) h f =
    let n = a * 65536 + b * 256 + c in
    let (p, q, r) = pieces a b c h.0 (h.1).0 ((h.1).1).0 in
    round_four fuel (n / 262144 % 64) (n / 4096 % 64) (n / 64 % 64) (n % 64) (yaz_base64encode cs)
      (omega arith) (omega arith) (omega arith) (omega arith)
    ∙ ap
        (λ o. emit (n / 262144 % 64 * 4 + n / 4096 % 64 / 16) (
          emit ((n / 4096 % 64 * 16 + n / 64 % 64 / 4) % 256)
            (emit ((n / 64 % 64 * 64 + n % 64) % 256) o)))
        (decode_loop-encode fuel cs ((h.1).1).1 (omega arith))
    ∙ unfold emit in
      ap
        (λ x. some (
          x
          ∷ ((n / 4096 % 64 * 16 + n / 64 % 64 / 4) % 256)
          ∷ ((n / 64 % 64 * 64 + n % 64) % 256)
          ∷ cs))
        p
      ∙ ap (λ x. some (a ∷ x ∷ ((n / 64 % 64 * 64 + n % 64) % 256) ∷ cs)) q
      ∙ ap (λ x. some (a ∷ b ∷ x ∷ cs)) r

-- Every string of bytes is decoded from its base64 encoding.
pub base64decode-base64encode :
    (cs : Bytes) → All IsByte cs → yaz_base64decode (yaz_base64encode cs) ≡ some cs
unfolding yaz_base64decode
base64decode-base64encode cs h =
    decode_loop-encode (length (yaz_base64encode cs)) cs h (omega arith)
