-- ===== src/Ber/Any.antt =====
-- Complete elements of any type: src/ber_any.c.
pub mod Bounds
pub mod Prefix
use yaz.Prelude.{
  ℕ, zero, suc, ◌+◌, ◌-◌, ◌≡◌, ◌⊎◌, inl, inr, refl, Bool, true, false, not, ◌&&◌, [], ◌∷◌, Bytes,
  Option, none, some, length, take, drop, ltb, ◌==◌, if◌then◌else◌,
}
use yaz.Prelude.Int.{ℤ, pos, negsuc}
use yaz.Odr.{Odr, Direction, decode, encode, odr_write, odr_seterror, oproto, oother}
use yaz.Ber.Length.{DecLen, minus_one, minus_two, read, ber_declen}
use yaz.Ber.Tag.{DecTag, ber_dectag}

-- The result of `completeBER_n`: -1, 0, or the size of the element.
pub data Complete : Type 0 where
  bad incomplete : Complete
  total : ℕ → Complete

-- The loop over the children of an element of indefinite length, for one call of the function `f` on
-- each. `consumed` is `b - buf`. The fuel is the number of bytes left, and each child takes some, so
-- it runs out only where fewer than two bytes are left; the answer is then 0 as well.
unfoldable pub complete_children : (Bytes → Complete) → ℕ → Bytes → ℕ → Complete
complete_children f zero bs consumed = incomplete
complete_children f (suc fuel) [] consumed = incomplete
complete_children f (suc fuel) (a ∷ []) consumed = incomplete
complete_children f (suc fuel) (a ∷ b ∷ bs) consumed = elim (a == 0 && b == 0) [
  | true ↦ total (consumed + 2)
  | false ↦ elim (f (a ∷ b ∷ bs)) [
    | bad ↦ bad
    | incomplete ↦ incomplete
    | total n ↦ complete_children f fuel (drop n (a ∷ b ∷ bs)) (consumed + n)
  ]
]

-- Behind the length octets; `consumed` counts the octets before `bs`.
unfoldable pub complete_contents : (Bytes → Complete) → Bool → ℕ → Bytes → DecLen → Complete
complete_contents f constructed consumed bs minus_two = bad
complete_contents f constructed consumed bs minus_one = incomplete
complete_contents f constructed consumed bs (read (pos ll) res) =
    let rest = drop res bs in
    if ltb (length rest) ll then incomplete else total (ll + (consumed + res))
complete_contents f constructed consumed bs (read (negsuc _) res) =
    let rest = drop res bs in
    if not constructed then bad else complete_children f (length rest) rest (consumed + res)

-- Behind the identifier octets.
unfoldable pub complete_tagged : (Bytes → Complete) → Bytes → Option DecTag → Complete
complete_tagged f bs none = incomplete
complete_tagged f bs (some t) =
    let rest = drop t.len bs in
    if ltb (length bs) t.len
    then bad
    else complete_contents f t.constructed t.len rest (ber_declen rest)

-- Two bytes at least are needed, and 0 0 begins no element.
unfoldable pub complete_element : (Bytes → Complete) → Bytes → Complete
complete_element f [] = incomplete
complete_element f (a ∷ []) = incomplete
complete_element f (a ∷ b ∷ bs) =
    if a == 0 && b == 0 then bad else complete_tagged f (a ∷ b ∷ bs) (ber_dectag (a ∷ b ∷ bs))

-- `completeBER_n(buf, len, level)`, with `left` for 1001 - `level`.
unfoldable pub complete_ber_n : ℕ → Bytes → Complete
complete_ber_n zero bs = bad
complete_ber_n (suc left) bs = complete_element (complete_ber_n left) bs

-- `completeBER`: an error counts as complete, so that the caller meets it when it decodes.
unfoldable pub complete_ber : Bytes → ℕ
complete_ber bs = elim (complete_ber_n 1001 bs) [ bad ↦ length bs | incomplete ↦ 0 | total n ↦ n ]

decode_any : Odr → Complete → Odr × Option Bytes
decode_any o (total n) = (record o { bp = drop n o.bp }, some (take n o.bp))
decode_any o _ = (odr_seterror oproto 2 o, none)

encode_any : Bytes → Odr × Bool → Odr × Option Bytes
encode_any buf (o, true) = (o, some buf)
encode_any buf (o, false) = (o, none)

any_in : Direction → Bytes → Odr → Odr × Option Bytes
any_in decode buf o = decode_any o (complete_ber_n 1001 o.bp)
any_in encode buf o = encode_any buf (odr_write buf o)
any_in _ buf o = (odr_seterror oother 3 o, none)

-- `(*p)->buf` with its length; `none` stands for 0.
unfoldable pub ber_any : Bytes → Odr → Odr × Option Bytes
unfolding any_in decode_any encode_any
ber_any buf o = any_in o.direction buf o

pub Complete-cases : (c : Complete) → (c ≡ bad) ⊎ ((c ≡ incomplete) ⊎ ((n : ℕ) × (c ≡ total n)))
Complete-cases bad = inl refl
Complete-cases incomplete = inr (inl refl)
Complete-cases (total n) = inr (inr (n, refl))
