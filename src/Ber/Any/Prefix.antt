-- ===== src/Ber/Any/Prefix.antt =====
-- More input does not change an answer of `completeBER_n` that is not "incomplete": src/ber_any.c.
use yaz.Prelude.{
  ℕ, zero, suc, ◌+◌, ◌*◌, ◌/◌, ◌%◌, ◌^◌, ◌≤◌, ◌<◌, ◌≡◌, ◌≢◌, refl, sym, Bool, true, false, ◌&&◌, [],
  ◌∷◌, ◌++◌, Bytes, Option, none, some, length, length-append, drop, drop-append_le, leb, ◌==◌,
  arith, inl, inr, Bool-cases,
}
use yaz.Prelude.Int.{pos, negsuc}
use yaz.Ber.Length.{DecLen, minus_one, minus_two, read, shift_in, ber_declen}
use yaz.Ber.Tag.{DecTag, dectag_loop, ber_dectag}
use yaz.Ber.Any.{
  Complete, Complete-cases, bad, incomplete, total, complete_children, complete_contents,
  complete_tagged, complete_element, complete_ber_n,
}
use yaz.Ber.Any.Bounds.{Within, ber_dectag_bounds, ber_declen_bounds, complete_ber_n_bounds}

dectag_loop-append :
    (bs more : Bytes) (t : DecTag) {u : DecTag}
    → dectag_loop t bs ≡ some u
    → dectag_loop t (bs ++ more) ≡ some u
unfolding dectag_loop
dectag_loop-append [] more t h = cc
dectag_loop-append (b ∷ bs) more t {u} h =
    let t' : DecTag = record t { tag = (t.tag * 128 + b % 128) % 2 ^ 32; len = t.len + 1 } in
    ground (arith, dectag_loop-append bs more t' {u = u})

ber_dectag-append :
    (bs more : Bytes) {t : DecTag} → ber_dectag bs ≡ some t → ber_dectag (bs ++ more) ≡ some t
unfolding ber_dectag
ber_dectag-append [] more h = cc
ber_dectag-append (b ∷ bs) more {t} h =
    let start : DecTag = record {
      zclass = b / 64;
      tag = 0;
      constructed = leb 1 (b / 32 % 2);
      len = 1;
    } in
    ground (arith, dectag_loop-append bs more start {u = t})

shift_in-append_le :
    (n len : ℕ) (bs more : Bytes) → n ≤ length bs → shift_in n len (bs ++ more) ≡ shift_in n len bs
unfolding shift_in
shift_in-append_le zero len bs more h = refl
shift_in-append_le (suc n) len [] more h = absurd (omega arith)
shift_in-append_le (suc n) len (b ∷ bs) more h =
    shift_in-append_le n (len * 256 + b) bs more (omega arith)

ber_declen-append :
    (bs more : Bytes) (d : DecLen) → ber_declen bs ≡ d → d ≢ minus_one → ber_declen (bs ++ more) ≡ d
unfolding ber_declen
ber_declen-append [] more d h k = absurd (k (sym h))
ber_declen-append (b ∷ bs) more d h k =
    ground (arith, length-append bs more, shift_in-append_le (b % 128) 0 bs more)

-- Every answer but "incomplete".
abbrev pub is_final : Complete → Bool
is_final bad = true
is_final incomplete = false
is_final (total n) = true

abbrev Stable : (Bytes → Complete) → Type 0
Stable f = (bs more : Bytes) → is_final (f bs) ≡ true → f (bs ++ more) ≡ f bs

children-Stable :
    (f : Bytes → Complete) (fuel fuel' : ℕ) (bs more : Bytes) (consumed : ℕ)
    → Within f
    → Stable f
    → fuel ≤ fuel'
    → is_final (complete_children f fuel bs consumed) ≡ true
    → complete_children f fuel' (bs ++ more) consumed ≡ complete_children f fuel bs consumed
unfolding complete_children
children-Stable f zero fuel' bs more consumed w s le h = cc
children-Stable f (suc fuel) fuel' [] more consumed w s le h = cc
children-Stable f (suc fuel) fuel' (a ∷ []) more consumed w s le h = cc
children-Stable f (suc fuel) zero (a ∷ b ∷ bs) more consumed w s le h = absurd (omega arith)
children-Stable f (suc fuel) (suc fuel') (a ∷ b ∷ bs) more consumed w s le h =
    elim (Bool-cases (a == 0 && b == 0)) [
      | inl marker ↦ ground arith
      | inr other ↦ elim (Complete-cases (f (a ∷ b ∷ bs))) [
        | inl e ↦ ground (arith, s (a ∷ b ∷ bs) more)
        | inr (inl e) ↦ ground arith
        | inr (inr (m, e)) ↦
            let rest = drop m (a ∷ b ∷ bs) in
            ground (
              arith,
              s (a ∷ b ∷ bs) more,
              (w (a ∷ b ∷ bs) m e).1,
              drop-append_le m (a ∷ b ∷ bs) more,
              children-Stable f fuel fuel' rest more (consumed + m) w s,
            )
      ]
    ]

module _ (f : Bytes → Complete) (w : Within f) (s : Stable f) where
  contents_stable :
      (constructed : Bool) (consumed : ℕ) (bs more : Bytes) (d : DecLen)
      → ber_declen bs ≡ d
      → is_final (complete_contents f constructed consumed bs d) ≡ true
      → complete_contents f constructed consumed (bs ++ more) d
        ≡ complete_contents f constructed consumed bs d
  unfolding complete_contents
  contents_stable constructed consumed bs more minus_two e h = refl
  contents_stable constructed consumed bs more minus_one e h = refl
  contents_stable constructed consumed bs more (read (pos ll) res) e h = ground (
    arith,
    (ber_declen_bounds bs e).1,
    drop-append_le res bs more,
    length-append (drop res bs) more,
  )
  contents_stable constructed consumed bs more (read (negsuc l) res) e h =
      let rest = drop res bs in
      ground (
        arith,
        (ber_declen_bounds bs e).1,
        drop-append_le res bs more,
        length-append rest more,
        children-Stable f (length rest) (length (rest ++ more)) rest more (consumed + res) w s,
      )

  declen_stable :
      (constructed : Bool) (consumed : ℕ) (bs more : Bytes) (d : DecLen)
      → ber_declen bs ≡ d
      → is_final (complete_contents f constructed consumed bs d) ≡ true
      → complete_contents f constructed consumed (bs ++ more) (ber_declen (bs ++ more))
        ≡ complete_contents f constructed consumed bs d
  declen_stable constructed consumed bs more minus_one e h = unfold complete_contents in cc
  declen_stable constructed consumed bs more minus_two e h =
      rw (ber_declen-append bs more minus_two e (cc))
        (contents_stable constructed consumed bs more minus_two e h)
  declen_stable constructed consumed bs more (read l n) e h =
      rw (ber_declen-append bs more (read l n) e (cc))
        (contents_stable constructed consumed bs more (read l n) e h)

  tagged_stable :
      (bs more : Bytes) (t : Option DecTag)
      → ber_dectag bs ≡ t
      → is_final (complete_tagged f bs t) ≡ true
      → complete_tagged f (bs ++ more) t ≡ complete_tagged f bs t
  unfolding complete_tagged
  tagged_stable bs more none e h = refl
  tagged_stable bs more (some t) e h =
      let rest = drop t.len bs in
      ground (
        arith,
        (ber_dectag_bounds bs e).1,
        length-append bs more,
        drop-append_le t.len bs more,
        declen_stable t.constructed t.len rest more (ber_declen rest) refl,
      )

  dectag_stable :
      (bs more : Bytes) (t : Option DecTag)
      → ber_dectag bs ≡ t
      → is_final (complete_tagged f bs t) ≡ true
      → complete_tagged f (bs ++ more) (ber_dectag (bs ++ more)) ≡ complete_tagged f bs t
  dectag_stable bs more none e h = unfold complete_tagged in cc
  dectag_stable bs more (some t) e h =
      rw (ber_dectag-append bs more {t = t} e) (tagged_stable bs more (some t) e h)

  element-Stable : Stable (complete_element f)
  unfolding complete_element
  element-Stable [] more h = cc
  element-Stable (a ∷ []) more h = cc
  element-Stable (a ∷ b ∷ bs) more h =
      ground (arith, dectag_stable (a ∷ b ∷ bs) more (ber_dectag (a ∷ b ∷ bs)) refl)

-- Once `completeBER_n` has called some input complete or bad, it gives the same answer with any
-- further bytes behind it.
pub complete_ber_n-append :
    (left : ℕ) (bs more : Bytes)
    → is_final (complete_ber_n left bs) ≡ true
    → complete_ber_n left (bs ++ more) ≡ complete_ber_n left bs
unfolding complete_ber_n
complete_ber_n-append zero bs more h = refl
complete_ber_n-append (suc left) bs more h =
    element-Stable (complete_ber_n left) (λ cs m. complete_ber_n_bounds left cs {n = m})
      (complete_ber_n-append left) bs more h

-- A proper prefix of what is one complete element is reported as incomplete: a reader that waits for
-- the rest of a packet neither stops early nor fails.
pub complete_ber_n_prefix :
    (left : ℕ) (front back : Bytes)
    → 0 < length back
    → complete_ber_n left (front ++ back) ≡ total (length (front ++ back))
    → complete_ber_n left front ≡ incomplete
complete_ber_n_prefix left front back pos_back h =
    elim (Complete-cases (complete_ber_n left front)) [
      | inl e ↦ ground (arith, complete_ber_n-append left front back)
      | inr (inl e) ↦ e
      | inr (inr (m, e)) ↦ ground (
        arith,
        complete_ber_n-append left front back,
        complete_ber_n_bounds left front e,
        length-append front back,
      )
    ]
