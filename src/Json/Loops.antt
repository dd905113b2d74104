-- ===== src/Json/Loops.antt =====
-- The loops of the parser of src/json.c between brackets go forward, and end.
use yaz.Prelude.{
  ℕ, zero, suc, ◌<◌, ◌≡◌, refl, not, Bytes, length, ◌==◌, arith, inl, inr, Bool-cases,
}
use yaz.Json.{Library, Node}
use yaz.Json.State.{Parser, Outcome, peek, look_ch, move_ch}
use yaz.Json.Parser.{
  json_parse_string, elements_loop, json_parse_elements, pair_value, json_parse_pair, members_loop,
  json_parse_members,
}
use yaz.Json.Forward.{
  Keeps, Keeps-trans, and_then-Keeps, look_ch-Step, move_ch-Step, take_one, json_parse_string-Keeps,
}

module _ (lib : Library) where
  module _ (value : Parser → Outcome Node) (level : ℕ)
      (inner : (p : Parser) → p.parse_level ≡ level → Keeps p (value p)) where
    pub elements_loop-Keeps :
        (k : ℕ) (p : Parser)
        → length p.cp < k
        → p.parse_level ≡ level
        → Keeps p (elements_loop lib value k p)
    unfolding elements_loop
    elements_loop-Keeps zero p s l = absurd (omega arith)
    elements_loop-Keeps (suc k) p s l =
        let q = look_ch p in
        let next = move_ch q in
        elim (Bool-cases (peek q.cp == b',')) [
          | inl e ↦ rw e (
              Keeps-trans p next _ (omega (arith, (look_ch-Step p).0, (move_ch-Step q).0), refl)
                (and_then-Keeps next (value next) _ (inner next l) λ n r h.
                  and_then-Keeps r (elements_loop lib value k r) _
                    (elements_loop-Keeps k r
                      (omega (arith, take_one q.cp 43 e, (look_ch-Step p).0, h.0))
                      (omega (arith, h.1, l)))
                    λ ns t g. (omega arith, refl)))
          | inr e ↦ rw e (look_ch-Step p)
        ]

    pub json_parse_elements-Keeps :
        (p : Parser) → p.parse_level ≡ level → Keeps p (json_parse_elements lib value p)
    unfolding json_parse_elements
    json_parse_elements-Keeps p l = and_then-Keeps p (value p) _ (inner p l) λ n q h.
        and_then-Keeps q (elements_loop lib value (suc (length q.cp)) q) _
          (elements_loop-Keeps (suc (length q.cp)) q (omega arith) (omega (arith, h.1, l)))
          λ ns t g. (omega arith, refl)

    pub pair_value-Keeps :
        (s : Bytes) (p : Parser) → p.parse_level ≡ level → Keeps p (pair_value lib value s p)
    unfolding pair_value
    pair_value-Keeps s p l =
        let q = look_ch p in
        let next = move_ch q in
        elim (Bool-cases (not (peek q.cp == b':'))) [
          | inl e ↦ rw e (look_ch-Step p)
          | inr e ↦ rw e (
              Keeps-trans p next _ (omega (arith, (look_ch-Step p).0, (move_ch-Step q).0), refl)
                (and_then-Keeps next (value next) _ (inner next l) λ n r h. (omega arith, refl)))
        ]

    pub json_parse_pair-Keeps :
        (p : Parser) → p.parse_level ≡ level → Keeps p (json_parse_pair lib value p)
    unfolding json_parse_pair
    json_parse_pair-Keeps p l =
        and_then-Keeps p (json_parse_string lib p) _ (json_parse_string-Keeps lib p)
          λ s q h. pair_value-Keeps s q (omega (arith, h.1, l))

    pub members_loop-Keeps :
        (k : ℕ) (p : Parser)
        → length p.cp < k
        → p.parse_level ≡ level
        → Keeps p (members_loop lib value k p)
    unfolding members_loop
    members_loop-Keeps zero p s l = absurd (omega arith)
    members_loop-Keeps (suc k) p s l =
        let q = look_ch p in
        let next = move_ch q in
        elim (Bool-cases (peek q.cp == b',')) [
          | inl e ↦ rw e (
              Keeps-trans p next _ (omega (arith, (look_ch-Step p).0, (move_ch-Step q).0), refl)
                (and_then-Keeps next (json_parse_pair lib value next) _
                  (json_parse_pair-Keeps next l)
                  λ (s', n) r h.
                    and_then-Keeps r (members_loop lib value k r) _
                      (members_loop-Keeps k r
                        (omega (arith, take_one q.cp 43 e, (look_ch-Step p).0, h.0))
                        (omega (arith, h.1, l)))
                      λ ms t g. (omega arith, refl)))
          | inr e ↦ rw e (look_ch-Step p)
        ]

    pub json_parse_members-Keeps :
        (p : Parser) → p.parse_level ≡ level → Keeps p (json_parse_members lib value p)
    unfolding json_parse_members
    json_parse_members-Keeps p l =
        and_then-Keeps p (json_parse_pair lib value p) _ (json_parse_pair-Keeps p l) λ (s, n) q h.
          and_then-Keeps q (members_loop lib value (suc (length q.cp)) q) _
            (members_loop-Keeps (suc (length q.cp)) q (omega arith) (omega (arith, h.1, l)))
            λ ms t g. (omega arith, refl)
