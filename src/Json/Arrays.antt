-- ===== src/Json/Arrays.antt =====
-- The text of an array, as the parser of src/json.c reads it.
use Prim.Native.Nat.{max}
use yaz.Prelude.{
  ℕ, zero, suc, ◌+◌, ◌≤◌, ◌<◌, ◌≡◌, ◌∙◌, ap, refl, false, [], ◌∷◌, ◌++◌, append_assoc, Bytes, none,
  some, length, drop, leb, ◌==◌, if◌then◌else◌, arith,
}
use yaz.Json.{Library, Node, array, Elements, no_elements, element}
use yaz.Json.State.{
  Parser, Outcome, done, failed, and_then, error, expecting_bracket, skip_space, peek, max_level,
}
use yaz.Json.Scan.{Subst}
use yaz.Json.Parser.{
  elements_loop, json_parse_elements, array_end, array_close, json_parse_array, value_at,
  json_parse_value, leave_level,
}
use yaz.Json.Blank.{IsBlank, skip_space-append, skip_space_self}
use yaz.Json.Reads.{depth, depth_elements, ReadsValue, value_here}
use yaz.Json.Brackets.{Closes, bracket-Closes, IsValue, AreMoreElements}

-- The text with white space before the opening bracket.
abbrev pub bracketed : Bytes → Bytes → Bytes
bracketed ws inside = ws ++ b'[' ∷ inside

bracketed_here :
    (ws inside rest : Bytes)
    → IsBlank ws
    → skip_space (bracketed ws inside ++ rest) ≡ b'[' ∷ (inside ++ rest)
bracketed_here ws inside rest h =
    ap skip_space (append_assoc ws (b'[' ∷ inside) rest)
    ∙ skip_space-append ws (b'[' ∷ (inside ++ rest)) h
    ∙ unfold skip_space in refl

bracketed_opens :
    (ws inside rest : Bytes)
    → IsBlank ws
    → (peek (skip_space (bracketed ws inside ++ rest)) == b']') ≡ false
bracketed_opens ws inside rest h = ap (λ xs. peek xs == b']') (bracketed_here ws inside rest h)

-- Behind the elements.
array_end-bracket :
    (ns : Elements) (ws rest : Bytes) (p : Parser)
    → IsBlank ws
    → skip_space p.cp ≡ skip_space (ws ++ b']' ∷ rest)
    → array_end ns p ≡ done (array ns) (record p { cp = rest })
array_end-bracket ns ws rest p h e =
    let closing : skip_space (ws ++ b']' ∷ rest) ≡ b']' ∷ rest =
      skip_space-append ws (b']' ∷ rest) h ∙ unfold skip_space in refl in
    unfold array_end in
    ap
      (λ xs.
        if peek xs == b']' then done (array ns) (record p { cp = drop 1 xs }) else elim p.err_msg [
          | none ↦ error expecting_bracket (record p { cp = xs })
          | some m ↦ failed (record p { cp = xs })
        ])
      (e ∙ closing)

module _ (lib : Library) (sb : Subst) where
  elements_read :
      (fuel : ℕ) (n : Node) (ns : Elements) (text more : Bytes) (p : Parser) (rest : Bytes)
      → IsValue lib sb n text
      → AreMoreElements lib sb ns more
      → max (depth n) (depth_elements ns) < fuel
      → p.parse_level + max (depth n) (depth_elements ns) ≤ max_level
      → Closes rest
      → skip_space p.cp ≡ skip_space (text ++ (more ++ rest))
      → json_parse_elements lib (json_parse_value lib sb fuel) p
        ≡ done (element n ns) (record p { cp = skip_space rest })
  elements_read fuel n ns text more p rest v m d l c e =
      let value = json_parse_value lib sb fuel in
      unfold json_parse_elements in
      ap
        (λ o. and_then o λ x q.
          and_then (elements_loop lib value (suc (length q.cp)) q) λ xs r. done (element x xs) r)
        (v.reads fuel p (more ++ rest) (omega arith) (omega arith) (m.keeps rest c.stops) e)
      ∙ ap (λ o. and_then o λ xs r. done (element n xs) r)
          (m.reads fuel (suc (length (more ++ rest))) p rest (omega arith) (omega arith) c
            (omega arith))

  array_at :
      (value : Parser → Outcome Node) (p : Parser) (inside : Bytes)
      → p.parse_level < max_level
      → (peek (skip_space inside) == b']') ≡ false
      → value_at lib sb value (record p { cp = b'[' ∷ inside })
        ≡ array_close (
            json_parse_elements lib value
              (record p { cp = skip_space inside; parse_level = p.parse_level + 1 }))
  array_at value p inside l o =
      unfold value_at json_parse_array skip_space in
      let room : leb max_level p.parse_level ≡ false = ground arith in rw (room, o) refl

  pub array-IsValue :
      (n : Node) (ns : Elements) (ws before text more after : Bytes)
      → IsBlank ws
      → IsBlank before
      → IsBlank after
      → IsValue lib sb n text
      → AreMoreElements lib sb ns more
      → IsValue lib sb
          (array (element n ns))
          (bracketed ws (before ++ (text ++ (more ++ (after ++ b']' ∷ [])))))
  array-IsValue n ns ws before text more after w b a v m = record {
    reads = reads;
    opens = λ rest. bracketed_opens ws (before ++ (text ++ (more ++ (after ++ b']' ∷ [])))) rest w;
  }
    where
      reads :
          ReadsValue lib sb
            (array (element n ns))
            (bracketed ws (before ++ (text ++ (more ++ (after ++ b']' ∷ [])))))
      reads zero p rest d l s e = absurd (omega arith)
      reads (suc fuel) p rest d l s e =
          let value = json_parse_value lib sb fuel in
          let back = after ++ b']' ∷ rest in
          let inside : (before ++ (text ++ (more ++ (after ++ b']' ∷ [])))) ++ rest
              ≡ before ++ (text ++ (more ++ back)) =
            simp (append_assoc) in
          let here : skip_space (before ++ (text ++ (more ++ back)))
              ≡ skip_space (text ++ (more ++ back)) =
            skip_space-append before (text ++ (more ++ back)) b in
          let q : Parser = record p {
            cp = skip_space (before ++ (text ++ (more ++ back)));
            parse_level = p.parse_level + 1;
          } in
          value_here lib sb fuel p
            (b'[' ∷ ((before ++ (text ++ (more ++ (after ++ b']' ∷ [])))) ++ rest))
            (e ∙ bracketed_here ws (before ++ (text ++ (more ++ (after ++ b']' ∷ [])))) rest w)
          ∙ ap (λ xs. value_at lib sb value (record p { cp = b'[' ∷ xs })) inside
          ∙ array_at value p (before ++ (text ++ (more ++ back))) (unfold depth in omega arith)
              (ap (λ xs. peek xs == b']') here ∙ v.opens (more ++ back))
          ∙ ap array_close (
              elements_read fuel n ns text more q back v m (unfold depth in omega arith)
                (unfold depth in omega arith) (bracket-Closes after rest a)
                (skip_space_self (before ++ (text ++ (more ++ back))) ∙ here))
          ∙ unfold array_close in
            (array_end-bracket (element n ns) after rest
                (leave_level (record q { cp = skip_space back })) a (skip_space_self back)
              ∙ ap (λ k. done (array (element n ns)) (record p { cp = rest; parse_level = k }))
                  (omega arith))

  pub empty_array-IsValue :
      (ws : Bytes) → IsBlank ws → IsValue lib sb (array no_elements) (bracketed ws (b']' ∷ []))
  empty_array-IsValue ws w = record {
    reads = reads;
    opens = λ rest. bracketed_opens ws (b']' ∷ []) rest w;
  }
    where
      reads : ReadsValue lib sb (array no_elements) (bracketed ws (b']' ∷ []))
      reads zero p rest d l s e = absurd (omega arith)
      reads (suc fuel) p rest d l s e =
          value_here lib sb fuel p (b'[' ∷ b']' ∷ rest) (e ∙ bracketed_here ws (b']' ∷ []) rest w)
          ∙ unfold value_at json_parse_array array_end skip_space in
            let room : leb max_level p.parse_level ≡ false = unfold depth in ground arith in
            rw room (
              ap (λ k. done (array no_elements) (record p { cp = rest; parse_level = k }))
                (omega arith))
