-- ===== src/Utf8/Octets.antt =====
-- The octets of src/utf8.c by their lead byte and the six bits of each that follows.
use yaz.Prelude.{
  ℕ, zero, suc, ◌+◌, ◌*◌, ◌%◌, ◌^◌, ◌≤◌, ◌<◌, ◌≡◌, refl, true, ◌&&◌, [], ◌∷◌, Bytes, take, drop,
  length, get_or, arith,
}
use yaz.Utf8.{is_tail}
use yaz.Utf8.RoundTrip.{utf8_octets}

pub octets_two :
    (c0 c1 x : ℕ)
    → 0xc0 ≤ c0
    → c0 ≤ 0xdf
    → (is_tail c1) ≡ true
    → 0x80 ≤ x
    → x ≡ c0 % 32 * 64 + c1 % 64
    → utf8_octets x ≡ c0 ∷ c1 ∷ []
octets_two c0 c1 x lo hi t least e = ground arith

pub octets_three :
    (c0 c1 c2 x : ℕ)
    → 0xe0 ≤ c0
    → c0 ≤ 0xef
    → (is_tail c1 && is_tail c2) ≡ true
    → 0x800 ≤ x
    → x ≡ c0 % 16 * 64 ^ 2 + c1 % 64 * 64 + c2 % 64
    → utf8_octets x ≡ c0 ∷ c1 ∷ c2 ∷ []
octets_three c0 c1 c2 x lo hi t least e = ground arith

pub octets_four :
    (c0 c1 c2 c3 x : ℕ)
    → 0xf0 ≤ c0
    → c0 ≤ 0xf7
    → (is_tail c1 && is_tail c2 && is_tail c3) ≡ true
    → 0x10000 ≤ x
    → x ≡ c0 % 8 * 64 ^ 3 + c1 % 64 * 64 ^ 2 + c2 % 64 * 64 + c3 % 64
    → utf8_octets x ≡ c0 ∷ c1 ∷ c2 ∷ c3 ∷ []
octets_four c0 c1 c2 c3 x lo hi t least e = ground arith

pub octets_five :
    (c0 c1 c2 c3 c4 x : ℕ)
    → 0xf8 ≤ c0
    → c0 ≤ 0xfb
    → (is_tail c1 && is_tail c2 && is_tail c3 && is_tail c4) ≡ true
    → 0x200000 ≤ x
    → x ≡ c0 % 4 * 64 ^ 4 + c1 % 64 * 64 ^ 3 + c2 % 64 * 64 ^ 2 + c3 % 64 * 64 + c4 % 64
    → utf8_octets x ≡ c0 ∷ c1 ∷ c2 ∷ c3 ∷ c4 ∷ []
octets_five c0 c1 c2 c3 c4 x lo hi t least e = ground arith

pub octets_six :
    (c0 c1 c2 c3 c4 c5 x : ℕ)
    → 0xfc ≤ c0
    → c0 ≤ 0xfd
    → (is_tail c1 && is_tail c2 && is_tail c3 && is_tail c4 && is_tail c5) ≡ true
    → 0x4000000 ≤ x
    → x
      ≡ c0 % 2 * 64 ^ 5
        + c1 % 64 * 64 ^ 4
        + c2 % 64 * 64 ^ 3
        + c3 % 64 * 64 ^ 2
        + c4 % 64 * 64
        + c5 % 64
    → utf8_octets x ≡ c0 ∷ c1 ∷ c2 ∷ c3 ∷ c4 ∷ c5 ∷ []
octets_six c0 c1 c2 c3 c4 c5 x lo hi t least e = ground arith

pub take_step :
    (i k : ℕ) (bs : Bytes)
    → i < length bs
    → take (suc k) (drop i bs) ≡ get_or bs i 0 ∷ take k (drop (suc i) bs)
take_step i k [] h = absurd (omega arith)
take_step zero k (c ∷ bs) h = refl
take_step (suc i) k (c ∷ bs) h = take_step i k bs (omega arith)
