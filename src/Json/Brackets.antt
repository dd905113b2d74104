-- ===== src/Json/Brackets.antt =====
-- The chains of elements and members between brackets, as the parser of src/json.c reads them.
use yaz.Prelude.{
  ℕ, zero, suc, ◌+◌, ◌≤◌, ◌<◌, ◌≡◌, ◌∙◌, ap, refl, false, [], ◌∷◌, ◌++◌, append_assoc, Bytes,
  length, length-append, ◌==◌, arith,
}
use yaz.Json.{Library, Node, Elements, no_elements, element}
use yaz.Json.State.{Parser, done, and_then, skip_space, peek, max_level}
use yaz.Json.Scan.{Subst}
use yaz.Json.Parser.{elements_loop, json_parse_value}
use yaz.Json.Blank.{IsBlank, skip_space-append}
use yaz.Json.Numbers.{Stops}
use yaz.Json.Reads.{depth, depth_elements, ReadsValue}

-- A place where the chain ends, behind white space.
pub record Closes (rest : Bytes) : Type 0 where
  pub stops : Stops rest
  pub no_comma : (peek (skip_space rest) == b',') ≡ false

-- A text that keeps the text before it from going on.
abbrev pub KeepsStop : Bytes → Type 0
KeepsStop text = (rest : Bytes) → Stops rest → Stops (text ++ rest)

pub nil-KeepsStop : KeepsStop []
nil-KeepsStop rest s = s

pub comma-KeepsStop : (text : Bytes) → KeepsStop (b',' ∷ text)
comma-KeepsStop text rest s = refl

blank-KeepsStop : (ws : Bytes) → IsBlank ws → KeepsStop ws
blank-KeepsStop [] h rest s = s
blank-KeepsStop (w ∷ ws) h rest s = ground (arith, h.0)

-- Before a closing bracket or brace.
pub bracket-Closes : (ws rest : Bytes) → IsBlank ws → Closes (ws ++ b']' ∷ rest)
bracket-Closes ws rest h = record {
  stops = blank-KeepsStop ws h (b']' ∷ rest) refl;
  no_comma = rw (skip_space-append ws (b']' ∷ rest) h) (unfold skip_space in refl);
}

pub brace-Closes : (ws rest : Bytes) → IsBlank ws → Closes (ws ++ b'}' ∷ rest)
brace-Closes ws rest h = record {
  stops = blank-KeepsStop ws h (b'}' ∷ rest) refl;
  no_comma = rw (skip_space-append ws (b'}' ∷ rest) h) (unfold skip_space in refl);
}

module _ (lib : Library) (sb : Subst) where
  -- The text of a value does not begin with the bracket that closes an array.
  pub record IsValue (n : Node) (text : Bytes) : Type 0 where
    pub reads : ReadsValue lib sb n text
    pub opens : (rest : Bytes) → (peek (skip_space (text ++ rest)) == b']') ≡ false

  -- The commas and elements from there to the end of the chain.
  pub record AreMoreElements (ns : Elements) (text : Bytes) : Type 0 where
    pub keeps : KeepsStop text
    pub reads :
        (fuel k : ℕ) (p : Parser) (rest : Bytes)
        → depth_elements ns < fuel
        → p.parse_level + depth_elements ns ≤ max_level
        → Closes rest
        → length (text ++ rest) < k
        → elements_loop lib (json_parse_value lib sb fuel) k (record p { cp = text ++ rest })
          ≡ done ns (record p { cp = skip_space rest })

  pub no_elements-AreMoreElements : AreMoreElements no_elements []
  no_elements-AreMoreElements = record { keeps = nil-KeepsStop; reads = over }
    where
      over :
          (fuel k : ℕ) (p : Parser) (rest : Bytes)
          → depth_elements no_elements < fuel
          → p.parse_level + depth_elements no_elements ≤ max_level
          → Closes rest
          → length rest < k
          → elements_loop lib (json_parse_value lib sb fuel) k (record p { cp = rest })
            ≡ done no_elements (record p { cp = skip_space rest })
      over fuel zero p rest d l c n = absurd (omega arith)
      over fuel (suc k) p rest d l c n = unfold elements_loop in rw (c.no_comma) refl

  pub element-AreMoreElements :
      (n : Node) (ns : Elements) (ws text more : Bytes)
      → IsBlank ws
      → IsValue n text
      → AreMoreElements ns more
      → AreMoreElements (element n ns) (b',' ∷ (ws ++ (text ++ more)))
  element-AreMoreElements n ns ws text more b v m = record {
    keeps = comma-KeepsStop (ws ++ (text ++ more));
    reads = round;
  }
    where
      round :
          (fuel k : ℕ) (p : Parser) (rest : Bytes)
          → depth_elements (element n ns) < fuel
          → p.parse_level + depth_elements (element n ns) ≤ max_level
          → Closes rest
          → suc (length ((ws ++ (text ++ more)) ++ rest)) < k
          → elements_loop lib
              (json_parse_value lib sb fuel)
              k
              (record p { cp = b',' ∷ ((ws ++ (text ++ more)) ++ rest) })
            ≡ done (element n ns) (record p { cp = skip_space rest })
      round fuel zero p rest d l c s = absurd (omega arith)
      round fuel (suc k) p rest d l c s =
          let value = json_parse_value lib sb fuel in
          let inner : (ws ++ (text ++ more)) ++ rest ≡ ws ++ (text ++ (more ++ rest)) =
            simp (append_assoc) in
          unfold elements_loop skip_space depth in
          ap
            (λ o.
              and_then o
                λ x r. and_then (elements_loop lib value k r) λ xs t. done (element x xs) t)
            (v.reads fuel (record p { cp = (ws ++ (text ++ more)) ++ rest }) (more ++ rest)
              (unfold depth in omega arith) (unfold depth in omega arith) (m.keeps rest c.stops)
              (ap skip_space inner ∙ skip_space-append ws (text ++ (more ++ rest)) b))
          ∙ ap (λ o. and_then o λ xs t. done (element n xs) t)
              (m.reads fuel k p rest (omega arith) (omega arith) c (
                omega (
                  arith,
                  length-append more rest,
                  length-append text (more ++ rest),
                  length-append ws (text ++ (more ++ rest)),
                  ap length inner,
                )))
