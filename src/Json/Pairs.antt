-- ===== src/Json/Pairs.antt =====
-- The text of the members of an object, as the parser of src/json.c reads them.
use Prim.Native.Nat.{max}
use yaz.Prelude.{
  ℕ, zero, suc, ◌+◌, ◌≤◌, ◌<◌, ◌≡◌, ◌∙◌, ap, sym, refl, [], ◌∷◌, ◌++◌, append_assoc, Bytes, length,
  length-append, All, arith,
}
use yaz.Json.{Library, Node, Members, no_members, member}
use yaz.Json.State.{Parser, done, and_then, skip_space, max_level}
use yaz.Json.Scan.{Subst}
use yaz.Json.Parser.{
  pair_value, json_parse_pair, members_loop, json_parse_members, json_parse_value,
}
use yaz.Json.Blank.{IsBlank, skip_space-append}
use yaz.Json.Strings.{IsChar, ScansHex}
use yaz.Json.Numbers.{Stops}
use yaz.Json.Reads.{depth, depth_members, quoted, json_parse_string-quoted}
use yaz.Json.Brackets.{Closes, KeepsStop, nil-KeepsStop, comma-KeepsStop, IsValue}

-- The name of a pair, a colon, white space, and the value.
abbrev pub member_text : Bytes → Bytes → Bytes → Bytes
member_text s ws text = quoted s ++ b':' ∷ (ws ++ text)

pub member_text_here :
    (s ws text rest : Bytes)
    → skip_space (member_text s ws text ++ rest) ≡ member_text s ws text ++ rest
unfolding skip_space
member_text_here s ws text rest = refl

module _ (lib : Library) (sb : Subst) (scans : ScansHex lib) where
  pub pair_read :
      (fuel : ℕ) (s : Bytes) (n : Node) (ws text : Bytes) (p : Parser) (rest : Bytes)
      → All IsChar s
      → IsBlank ws
      → IsValue lib sb n text
      → depth n < fuel
      → p.parse_level + depth n ≤ max_level
      → Stops rest
      → skip_space p.cp ≡ member_text s ws text ++ rest
      → json_parse_pair lib (json_parse_value lib sb fuel) p ≡ done (s, n) (record p { cp = rest })
  pair_read fuel s n ws text p rest h b v d l st e =
      let value = json_parse_value lib sb fuel in
      let tail = b':' ∷ ((ws ++ text) ++ rest) in
      let front : member_text s ws text ++ rest ≡ quoted s ++ tail =
        append_assoc (quoted s) (b':' ∷ (ws ++ text)) rest in
      let start : skip_space (quoted s ++ tail) ≡ quoted s ++ tail = unfold skip_space in refl in
      let inner : skip_space ((ws ++ text) ++ rest) ≡ skip_space (text ++ rest) =
        ap skip_space (append_assoc ws text rest) ∙ skip_space-append ws (text ++ rest) b in
      unfold json_parse_pair in
      ap (λ o. and_then o (pair_value lib value))
        (json_parse_string-quoted lib sb s tail p scans h (e ∙ front ∙ sym start))
      ∙ unfold pair_value skip_space in
        ap (λ o. and_then o λ x r. done (s, x) r)
          (v.reads fuel (record p { cp = (ws ++ text) ++ rest }) rest d l st inner)

  -- The commas and members from there to the end of the chain.
  pub record AreMoreMembers (ms : Members) (text : Bytes) : Type 0 where
    pub keeps : KeepsStop text
    pub reads :
        (fuel k : ℕ) (p : Parser) (rest : Bytes)
        → depth_members ms < fuel
        → p.parse_level + depth_members ms ≤ max_level
        → Closes rest
        → length (text ++ rest) < k
        → members_loop lib (json_parse_value lib sb fuel) k (record p { cp = text ++ rest })
          ≡ done ms (record p { cp = skip_space rest })

  pub no_members-AreMoreMembers : AreMoreMembers no_members []
  no_members-AreMoreMembers = record { keeps = nil-KeepsStop; reads = over }
    where
      over :
          (fuel k : ℕ) (p : Parser) (rest : Bytes)
          → depth_members no_members < fuel
          → p.parse_level + depth_members no_members ≤ max_level
          → Closes rest
          → length rest < k
          → members_loop lib (json_parse_value lib sb fuel) k (record p { cp = rest })
            ≡ done no_members (record p { cp = skip_space rest })
      over fuel zero p rest d l c n = absurd (omega arith)
      over fuel (suc k) p rest d l c n = unfold members_loop in rw (c.no_comma) refl

  pub member-AreMoreMembers :
      (s : Bytes) (n : Node) (ms : Members) (before ws text more : Bytes)
      → All IsChar s
      → IsBlank before
      → IsBlank ws
      → IsValue lib sb n text
      → AreMoreMembers ms more
      → AreMoreMembers (member s n ms) (b',' ∷ (before ++ (member_text s ws text ++ more)))
  member-AreMoreMembers s n ms before ws text more h b w v m = record {
    keeps = comma-KeepsStop (before ++ (member_text s ws text ++ more));
    reads = round;
  }
    where
      round :
          (fuel k : ℕ) (p : Parser) (rest : Bytes)
          → depth_members (member s n ms) < fuel
          → p.parse_level + depth_members (member s n ms) ≤ max_level
          → Closes rest
          → suc (length ((before ++ (member_text s ws text ++ more)) ++ rest)) < k
          → members_loop lib
              (json_parse_value lib sb fuel)
              k
              (record p { cp = b',' ∷ ((before ++ (member_text s ws text ++ more)) ++ rest) })
            ≡ done (member s n ms) (record p { cp = skip_space rest })
      round fuel zero p rest d l c e = absurd (omega arith)
      round fuel (suc k) p rest d l c e =
          let value = json_parse_value lib sb fuel in
          let pair = member_text s ws text in
          let inner : (before ++ (pair ++ more)) ++ rest ≡ before ++ (pair ++ (more ++ rest)) =
            append_assoc before (pair ++ more) rest
            ∙ ap (λ xs. before ++ xs) (append_assoc pair more rest) in
          unfold members_loop skip_space depth in
          ap
            (λ o.
              and_then o
                λ (t, x) r. and_then (members_loop lib value k r) λ xs u. done (member t x xs) u)
            (pair_read fuel s n ws text (record p { cp = (before ++ (pair ++ more)) ++ rest })
              (more ++ rest) h w v (unfold depth in omega arith) (unfold depth in omega arith)
              (m.keeps rest c.stops)
              (ap skip_space inner
                ∙ skip_space-append before (pair ++ (more ++ rest)) b
                ∙ member_text_here s ws text (more ++ rest)))
          ∙ ap (λ o. and_then o λ xs u. done (member s n xs) u)
              (m.reads fuel k p rest (omega arith) (omega arith) c (
                omega (
                  arith,
                  length-append more rest,
                  length-append pair (more ++ rest),
                  length-append before (pair ++ (more ++ rest)),
                  ap length inner,
                )))

  pub members_read :
      (fuel : ℕ) (s : Bytes) (n : Node) (ms : Members) (ws text more : Bytes) (p : Parser)
      (rest : Bytes)
      → All IsChar s
      → IsBlank ws
      → IsValue lib sb n text
      → AreMoreMembers ms more
      → max (depth n) (depth_members ms) < fuel
      → p.parse_level + max (depth n) (depth_members ms) ≤ max_level
      → Closes rest
      → skip_space p.cp ≡ member_text s ws text ++ (more ++ rest)
      → json_parse_members lib (json_parse_value lib sb fuel) p
        ≡ done (member s n ms) (record p { cp = skip_space rest })
  members_read fuel s n ms ws text more p rest h w v m d l c e =
      let value = json_parse_value lib sb fuel in
      unfold json_parse_members in
      ap
        (λ o. and_then o λ (t, x) q.
          and_then (members_loop lib value (suc (length q.cp)) q) λ xs r. done (member t x xs) r)
        (pair_read fuel s n ws text p (more ++ rest) h w v (omega arith) (omega arith)
          (m.keeps rest c.stops) e)
      ∙ ap (λ o. and_then o λ xs r. done (member s n xs) r)
          (m.reads fuel (suc (length (more ++ rest))) p rest (omega arith) (omega arith) c
            (omega arith))
