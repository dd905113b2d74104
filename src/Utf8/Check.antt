-- ===== src/Utf8/Check.antt =====
-- `yaz_utf8_check` of src/utf8.c decides whether a string is UTF-8.
use yaz.Prelude.{
  ℕ, zero, suc, ◌^◌, ◌≤◌, ◌<◌, ◌≡◌, ◌∙◌, ◌↔◌, ap, refl, sym, true, false, [], ◌∷◌, ◌++◌, Bytes,
  List, All, length, length-append, drop, take-append-drop, drop-append, arith,
}
use yaz.Utf8.{Read, char, error, yaz_read_utf8_char, utf8_check_loop, yaz_utf8_check}
use yaz.Utf8.RoundTrip.{utf8_octets, read-utf8_octets}
use yaz.Utf8.Canonical.{yaz_read_utf8_char_canonical}

-- The octets of a sequence of characters.
abbrev pub encode_all : List ℕ → Bytes
encode_all [] = []
encode_all (x ∷ xs) = utf8_octets x ++ encode_all xs

-- A string is UTF-8 if it is the octets of characters below 2^31.
abbrev pub IsUtf8 : Bytes → Type 0
IsUtf8 str = (xs : List ℕ) × (str ≡ encode_all xs) × All (λ x. x < 2 ^ 31) xs

extend :
    (b x n : ℕ) (bs : Bytes)
    → yaz_read_utf8_char (b ∷ bs) ≡ char x n
    → IsUtf8 (drop n (b ∷ bs))
    → IsUtf8 (b ∷ bs)
extend b x n bs e (xs, spelled, small) =
    let (same, below, count, enough) = yaz_read_utf8_char_canonical (b ∷ bs) x n (omega arith) e in
    (
      x ∷ xs,
      sym (take-append-drop n (b ∷ bs))
          ∙ ap (λ ys. ys ++ drop n (b ∷ bs)) same
          ∙ ap (λ ys. utf8_octets x ++ ys) spelled,
      (below, small),
    )

check_sound : (fuel : ℕ) (bs : Bytes) → utf8_check_loop fuel bs ≡ true → IsUtf8 bs
unfolding utf8_check_loop
check_sound fuel [] h = ([], refl, tt)
check_sound zero (b ∷ bs) h = cc
check_sound (suc fuel) (b ∷ bs) h = go (check_sound fuel) (yaz_read_utf8_char (b ∷ bs)) refl h
  where
    go :
        ((cs : Bytes) → utf8_check_loop fuel cs ≡ true → IsUtf8 cs)
        → (r : Read) → yaz_read_utf8_char (b ∷ bs) ≡ r
        → (elim r [ error _ ↦ false | char x n ↦ utf8_check_loop fuel (drop n (b ∷ bs)) ]) ≡ true
        → IsUtf8 (b ∷ bs)
    go ih (error _) e h = cc
    go ih (char x n) e h = extend b x n bs e (ih (drop n (b ∷ bs)) h)

utf8_octets-ne-nil : (x : ℕ) → 0 < length (utf8_octets x)
utf8_octets-ne-nil x = ground arith

check_char :
    (fuel b x n : ℕ) (bs : Bytes)
    → yaz_read_utf8_char (b ∷ bs) ≡ char x n
    → utf8_check_loop (suc fuel) (b ∷ bs) ≡ utf8_check_loop fuel (drop n (b ∷ bs))
unfolding utf8_check_loop
check_char fuel b x n bs e = ground arith

check_step :
    (fuel x : ℕ) (rest : Bytes)
    → x < 2 ^ 31
    → utf8_check_loop (suc fuel) (utf8_octets x ++ rest) ≡ utf8_check_loop fuel rest
check_step fuel x rest h = go (utf8_octets x) (utf8_octets-ne-nil x) (read-utf8_octets x rest h)
  where
    go :
        (cs : Bytes)
        → 0 < length cs
        → yaz_read_utf8_char (cs ++ rest) ≡ char x (length cs)
        → utf8_check_loop (suc fuel) (cs ++ rest) ≡ utf8_check_loop fuel rest
    go [] n e = absurd (omega arith)
    go (c ∷ cs) n e =
        check_char fuel c x (suc (length cs)) (cs ++ rest) e
        ∙ ap (utf8_check_loop fuel) (drop-append cs rest)

check_complete :
    (fuel : ℕ) (xs : List ℕ)
    → All (λ x. x < 2 ^ 31) xs
    → length (encode_all xs) ≤ fuel
    → utf8_check_loop fuel (encode_all xs) ≡ true
check_complete fuel [] h f = unfold utf8_check_loop in refl
check_complete zero (x ∷ xs) h f =
    absurd (omega (arith, length-append (utf8_octets x) (encode_all xs), utf8_octets-ne-nil x))
check_complete (suc fuel) (x ∷ xs) h f =
    check_step fuel x (encode_all xs) h.0
    ∙ check_complete fuel xs h.1
        (omega (arith, length-append (utf8_octets x) (encode_all xs), utf8_octets-ne-nil x))

-- `yaz_utf8_check` accepts a string exactly if it is a sequence of characters below 2^31, each in
-- its one encoding.
pub yaz_utf8_check_iff : (str : Bytes) → (yaz_utf8_check str ≡ true) ↔ IsUtf8 str
unfolding yaz_utf8_check
yaz_utf8_check_iff str = (
  check_sound (length str) str,
  λ (u : IsUtf8 str). rw u.1 (check_complete (length (encode_all u.0)) u.0 u.2 (omega arith)),
)
