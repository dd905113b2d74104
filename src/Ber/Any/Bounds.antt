-- ===== src/Ber/Any/Bounds.antt =====
-- The size that `completeBER_n` reports lies within the bytes it was given: src/ber_any.c.
use yaz.Prelude.{
  ℕ, zero, suc, ◌+◌, ◌*◌, ◌/◌, ◌%◌, ◌^◌, ◌≤◌, ◌<◌, ◌≡◌, refl, Bool, ◌&&◌, [], ◌∷◌, Bytes, Option,
  none, some, length, drop, length-drop, leb, ◌==◌, arith, inl, inr, Bool-cases,
}
use yaz.Prelude.Int.{ℤ, pos, negsuc}
use yaz.Ber.Length.{DecLen, minus_one, minus_two, read, ber_declen}
use yaz.Ber.Tag.{DecTag, dectag_loop, ber_dectag}
use yaz.Ber.Any.{
  Complete-cases, Complete, total, complete_children, complete_contents, complete_tagged,
  complete_element, complete_ber_n,
}

dectag_loop_bounds :
    (bs : Bytes) (t : DecTag) {u : DecTag}
    → dectag_loop t bs ≡ some u
    → (t.len < u.len)
      × (u.len ≤ t.len + length bs)
      × (u.zclass ≡ t.zclass)
      × (u.constructed ≡ t.constructed)
unfolding dectag_loop
dectag_loop_bounds [] t h = cc
dectag_loop_bounds (b ∷ bs) t {u} h =
    let t' : DecTag = record t { tag = (t.tag * 128 + b % 128) % 2 ^ 32; len = t.len + 1 } in
    ground (arith, dectag_loop_bounds bs t' {u = u})

-- The identifier octets that are reported lie within the input.
pub ber_dectag_bounds :
    (bs : Bytes) {t : DecTag} → ber_dectag bs ≡ some t → (1 ≤ t.len) × (t.len ≤ length bs)
unfolding ber_dectag
ber_dectag_bounds [] h = cc
ber_dectag_bounds (b ∷ bs) {t} h =
    let start : DecTag = record {
      zclass = b / 64;
      tag = 0;
      constructed = leb 1 (b / 32 % 2);
      len = 1;
    } in
    ground (arith, dectag_loop_bounds bs start {u = t})

-- The length octets that are reported lie within the input.
pub ber_declen_bounds :
    (bs : Bytes) {l : ℤ} {n : ℕ} → ber_declen bs ≡ read l n → (1 ≤ n) × (n ≤ length bs)
unfolding ber_declen
ber_declen_bounds [] h = ground arith
ber_declen_bounds (b ∷ bs) h = ground arith

-- A function that reports sizes within its input.
abbrev pub Within : (Bytes → Complete) → Type 0
Within f = (bs : Bytes) (n : ℕ) → f bs ≡ total n → (2 ≤ n) × (n ≤ length bs)

complete_children_bounds :
    (f : Bytes → Complete) (fuel : ℕ) (bs : Bytes) (consumed n : ℕ)
    → Within f
    → complete_children f fuel bs consumed ≡ total n
    → (consumed + 2 ≤ n) × (n ≤ consumed + length bs)
unfolding complete_children
complete_children_bounds f zero bs consumed n w h = cc
complete_children_bounds f (suc fuel) [] consumed n w h = cc
complete_children_bounds f (suc fuel) (a ∷ []) consumed n w h = cc
complete_children_bounds f (suc fuel) (a ∷ b ∷ bs) consumed n w h =
    elim (Bool-cases (a == 0 && b == 0)) [
      | inl marker ↦ ground arith
      | inr other ↦ elim (Complete-cases (f (a ∷ b ∷ bs))) [
        | inl e ↦ ground arith
        | inr (inl e) ↦ ground arith
        | inr (inr (m, e)) ↦
            let rest = drop m (a ∷ b ∷ bs) in
            ground (
              arith,
              w (a ∷ b ∷ bs) m e,
              complete_children_bounds f fuel rest (consumed + m) n w,
              length-drop m (a ∷ b ∷ bs),
            )
      ]
    ]

module _ (f : Bytes → Complete) (w : Within f) where
  contents_bounds :
      (constructed : Bool) (consumed : ℕ) (bs : Bytes) (n : ℕ) (d : DecLen)
      → ber_declen bs ≡ d
      → complete_contents f constructed consumed bs d ≡ total n
      → (consumed + 1 ≤ n) × (n ≤ consumed + length bs)
  unfolding complete_contents
  contents_bounds constructed consumed bs n minus_two e h = cc
  contents_bounds constructed consumed bs n minus_one e h = cc
  contents_bounds constructed consumed bs n (read (pos ll) res) e h =
      ground (arith, ber_declen_bounds bs e, length-drop res bs)
  contents_bounds constructed consumed bs n (read (negsuc l) res) e h =
      let rest = drop res bs in
      ground (
        arith,
        ber_declen_bounds bs e,
        length-drop res bs,
        complete_children_bounds f (length rest) rest (consumed + res) n w,
      )

  tagged_bounds :
      (bs : Bytes) (n : ℕ) (t : Option DecTag)
      → ber_dectag bs ≡ t
      → complete_tagged f bs t ≡ total n
      → (2 ≤ n) × (n ≤ length bs)
  unfolding complete_tagged
  tagged_bounds bs n none e h = cc
  tagged_bounds bs n (some t) e h =
      let rest = drop t.len bs in
      ground (
        arith,
        ber_dectag_bounds bs e,
        length-drop t.len bs,
        contents_bounds t.constructed t.len rest n (ber_declen rest) refl,
      )

  complete_element_bounds : Within (complete_element f)
  unfolding complete_element
  complete_element_bounds [] n h = cc
  complete_element_bounds (a ∷ []) n h = cc
  complete_element_bounds (a ∷ b ∷ bs) n h =
      ground (arith, tagged_bounds (a ∷ b ∷ bs) n (ber_dectag (a ∷ b ∷ bs)) refl)

-- A size that `completeBER_n` reports, at any level, is at least two octets and at most the length of
-- the input: no caller goes beyond the bytes it has.
pub complete_ber_n_bounds :
    (left : ℕ) (bs : Bytes) {n : ℕ} → complete_ber_n left bs ≡ total n → (2 ≤ n) × (n ≤ length bs)
unfolding complete_ber_n
complete_ber_n_bounds zero bs h = cc
complete_ber_n_bounds (suc left) bs {n} h =
    complete_element_bounds (complete_ber_n left) (λ cs m. complete_ber_n_bounds left cs {n = m}) bs
      n h
