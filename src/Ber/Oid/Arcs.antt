-- ===== src/Ber/Oid/Arcs.antt =====
-- The arcs that `ber_oidc` of src/ber_oid.c reads from the octets of an identifier.
use yaz.Prelude.{
  ℕ, ◌+◌, ◌*◌, ◌%◌, ◌^◌, ◌≤◌, ◌<◌, ◌≡◌, sym, ap, ◌∙◌, ◌⊎◌, Bool, true, false, [], ◌∷◌, ◌++◌,
  append-nil, append_assoc, Bytes, List, length, length-append, All, arith,
}
use yaz.Prelude.Digits.{value, le-value, value-push_digits, All-push_digits, push_digits-length_lt}
use yaz.Ber.Tag.{flag_more, groups}
use yaz.Ber.Oid.{first_arcs, store_arc, arcs, read_arcs, check_arcs, numbers, oid_octets}

-- An identifier that X.690 allows, with arcs that a `short` holds.
pub record IsOid (a b : ℕ) (p : List ℕ) : Type 0 where
  pub root : a ≤ 2
  pub second : (a ≡ 2) ⊎ (b < 40)
  pub second_fits : b < 2 ^ 15
  pub rest_fit : All (λ arc. arc < 2 ^ 15) p

pub read_number :
    (max_size : ℕ) (inside : Bool) (v : ℕ) (p : List ℕ) (d : ℕ) (ds rest : Bytes)
    → All (λ x. x < 128) (d ∷ ds)
    → value 128 v (d ∷ ds) < 2 ^ 31
    → length (store_arc (value 128 v (d ∷ ds)) p) < max_size
    → read_arcs max_size inside v p (flag_more (d ∷ ds) ++ rest)
      ≡ read_arcs max_size false 0 (store_arc (value 128 v (d ∷ ds)) p) rest
unfolding read_arcs flag_more
read_number max_size true v p d [] rest h fits room = ground arith
read_number max_size false v p d [] rest h fits room = ground arith
read_number max_size true v p d (e ∷ ds) rest h fits room = ground (
  arith,
  le-value 128 (v * 128 + d) (e ∷ ds),
  read_number max_size true (v * 128 + d) p e ds rest h.1,
)
read_number max_size false v p d (e ∷ ds) rest h fits room = ground (
  arith,
  le-value 128 (v * 128 + d) (e ∷ ds),
  read_number max_size true (v * 128 + d) p e ds rest h.1,
)

pub read_groups :
    (max_size id : ℕ) (p : List ℕ) (rest : Bytes)
    → id < 2 ^ 31
    → length (store_arc id p) < max_size
    → read_arcs max_size false 0 p (flag_more (groups id) ++ rest)
      ≡ read_arcs max_size false 0 (store_arc id p) rest
read_groups max_size id p rest h room =
    go (groups id) (push_digits-length_lt 128 4 id [])
      (All-push_digits 128 5 id [] (omega arith) tt)
      (value-push_digits 128 5 id [] (omega arith) (omega arith))
  where
    go :
        (ds : Bytes)
        → 0 < length ds
        → All (λ x. x < 128) ds
        → value 128 0 ds ≡ id
        → read_arcs max_size false 0 p (flag_more ds ++ rest)
          ≡ read_arcs max_size false 0 (store_arc id p) rest
    go [] n a e = absurd (omega arith)
    go (d ∷ ds) n a e =
        read_number max_size false 0 p d ds rest a (omega arith) (rw e room)
        ∙ ap (λ v. read_arcs max_size false 0 (store_arc v p) rest) e

pub read_rest :
    (max_size a : ℕ) (p ids : List ℕ)
    → All (λ arc. arc < 2 ^ 15) ids
    → length (a ∷ p) + length ids < max_size
    → read_arcs max_size false 0 (a ∷ p) (oid_octets ids) ≡ arcs (a ∷ p ++ ids)
unfolding oid_octets
read_rest max_size a p [] h room = unfold read_arcs in ap arcs (sym (append-nil (a ∷ p)))
read_rest max_size a p (id ∷ ids) h room =
    let one = length-append p (id ∷ []) in
    let whole : id % 2 ^ 16 ≡ id = omega arith in
    let stored : store_arc id (a ∷ p) ≡ a ∷ p ++ id ∷ [] =
      unfold store_arc in ap (λ x. a ∷ p ++ x ∷ []) whole in
    read_groups max_size id (a ∷ p) (oid_octets ids) (omega arith) (rw stored (omega arith))
    ∙ ap (λ xs. read_arcs max_size false 0 xs (oid_octets ids)) stored
    ∙ read_rest max_size a (p ++ id ∷ []) ids h.1 (omega arith)
    ∙ ap (λ xs. arcs (a ∷ xs)) (append_assoc p (id ∷ []) ids)

pub first_arcs_lem :
    (a b : ℕ) → a ≤ 2 → (a ≡ 2) ⊎ (b < 40) → b < 2 ^ 15 → first_arcs (a * 40 + b) ≡ a ∷ b ∷ []
unfolding first_arcs
first_arcs_lem a b h k l = ground arith

-- The octets of an identifier spell its arcs.
pub read_arcs-oid_octets :
    (max_size a b : ℕ) (p : List ℕ)
    → IsOid a b p
    → length (a ∷ b ∷ p) < max_size
    → check_arcs (read_arcs max_size false 0 [] (oid_octets (numbers a b p))) ≡ arcs (a ∷ b ∷ p)
read_arcs-oid_octets max_size a b p v room =
    let two = first_arcs_lem a b v.root v.second v.second_fits in
    let stored : store_arc (a * 40 + b) [] ≡ a ∷ b ∷ [] = unfold store_arc in two in
    let read_all : read_arcs max_size false 0 [] (oid_octets (numbers a b p)) ≡ arcs (a ∷ b ∷ p) =
      unfold oid_octets in
      read_groups max_size (a * 40 + b) [] (oid_octets p) (omega (arith, v.root, v.second_fits))
        (rw stored (omega arith))
      ∙ ap (λ xs. read_arcs max_size false 0 xs (oid_octets p)) stored
      ∙ read_rest max_size a (b ∷ []) p v.rest_fit (omega arith) in
    rw read_all (unfold check_arcs in ground (arith, v.root, v.second_fits))
