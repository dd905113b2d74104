-- ===== src/Json/Objects.antt =====
-- The text of an object, as the parser of src/json.c reads it.
use yaz.Prelude.{
  zero, suc, ◌+◌, ◌<◌, ◌≡◌, ◌∙◌, ap, refl, false, not, [], ◌∷◌, ◌++◌, append_assoc, Bytes, drop,
  All, leb, ◌==◌, if◌then◌else◌, arith,
}
use yaz.Json.{Library, Node, object, Members, no_members, member}
use yaz.Json.State.{Parser, Outcome, done, error, skip_space, peek, max_level, missing_brace}
use yaz.Json.Scan.{Subst}
use yaz.Json.Parser.{
  json_parse_members, object_end, object_close, json_parse_object, value_at, json_parse_value,
  leave_level,
}
use yaz.Json.Blank.{IsBlank, skip_space-append, skip_space_self}
use yaz.Json.Strings.{IsChar, ScansHex}
use yaz.Json.Reads.{depth, ReadsValue, value_here}
use yaz.Json.Brackets.{brace-Closes, IsValue}
use yaz.Json.Pairs.{member_text, member_text_here, AreMoreMembers, members_read}

-- The text with white space before the opening brace.
abbrev pub braced : Bytes → Bytes → Bytes
braced ws inside = ws ++ b'{' ∷ inside

braced_here :
    (ws inside rest : Bytes)
    → IsBlank ws
    → skip_space (braced ws inside ++ rest) ≡ b'{' ∷ (inside ++ rest)
braced_here ws inside rest h =
    ap skip_space (append_assoc ws (b'{' ∷ inside) rest)
    ∙ skip_space-append ws (b'{' ∷ (inside ++ rest)) h
    ∙ unfold skip_space in refl

braced_opens :
    (ws inside rest : Bytes)
    → IsBlank ws
    → (peek (skip_space (braced ws inside ++ rest)) == b']') ≡ false
braced_opens ws inside rest h = ap (λ xs. peek xs == b']') (braced_here ws inside rest h)

-- Behind the members.
object_end-brace :
    (ms : Members) (ws rest : Bytes) (p : Parser)
    → IsBlank ws
    → skip_space p.cp ≡ skip_space (ws ++ b'}' ∷ rest)
    → object_end ms p ≡ done (object ms) (record p { cp = rest })
object_end-brace ms ws rest p h e =
    let closing : skip_space (ws ++ b'}' ∷ rest) ≡ b'}' ∷ rest =
      skip_space-append ws (b'}' ∷ rest) h ∙ unfold skip_space in refl in
    unfold object_end in
    ap
      (λ xs.
        if not (peek xs == b'}')
        then error missing_brace (record p { cp = xs })
        else done (object ms) (record p { cp = drop 1 xs }))
      (e ∙ closing)

module _ (lib : Library) (sb : Subst) (scans : ScansHex lib) where
  object_at :
      (value : Parser → Outcome Node) (p : Parser) (inside : Bytes)
      → p.parse_level < max_level
      → (peek (skip_space inside) == b'}') ≡ false
      → value_at lib sb value (record p { cp = b'{' ∷ inside })
        ≡ object_close (
            json_parse_members lib value
              (record p { cp = skip_space inside; parse_level = p.parse_level + 1 }))
  object_at value p inside l o =
      unfold value_at json_parse_object skip_space in
      let room : leb max_level p.parse_level ≡ false = ground arith in rw (room, o) refl

  pub object-IsValue :
      (s : Bytes) (n : Node) (ms : Members) (ws before sp text more after : Bytes)
      → All IsChar s
      → IsBlank ws
      → IsBlank before
      → IsBlank sp
      → IsBlank after
      → IsValue lib sb n text
      → AreMoreMembers lib sb scans ms more
      → IsValue lib sb
          (object (member s n ms))
          (braced ws (before ++ (member_text s sp text ++ (more ++ (after ++ b'}' ∷ [])))))
  object-IsValue s n ms ws before sp text more after h w b k a v m = record {
    reads = reads;
    opens = λ rest.
        braced_opens ws (before ++ (member_text s sp text ++ (more ++ (after ++ b'}' ∷ [])))) rest
          w;
  }
    where
      reads :
          ReadsValue lib sb
            (object (member s n ms))
            (braced ws (before ++ (member_text s sp text ++ (more ++ (after ++ b'}' ∷ [])))))
      reads zero p rest d l st e = absurd (omega arith)
      reads (suc fuel) p rest d l st e =
          let value = json_parse_value lib sb fuel in
          let back = after ++ b'}' ∷ rest in
          let pair = member_text s sp text in
          let inside : (before ++ (pair ++ (more ++ (after ++ b'}' ∷ [])))) ++ rest
              ≡ before ++ (pair ++ (more ++ back)) =
            append_assoc before (pair ++ (more ++ (after ++ b'}' ∷ []))) rest
            ∙ ap (λ xs. before ++ xs)
                (append_assoc pair (more ++ (after ++ b'}' ∷ [])) rest
                  ∙ ap (λ xs. pair ++ xs)
                      (append_assoc more (after ++ b'}' ∷ []) rest
                        ∙ ap (λ xs. more ++ xs) (append_assoc after (b'}' ∷ []) rest))) in
          let here : skip_space (before ++ (pair ++ (more ++ back))) ≡ pair ++ (more ++ back) =
            skip_space-append before (pair ++ (more ++ back)) b
            ∙ member_text_here s sp text (more ++ back) in
          let q : Parser = record p {
            cp = skip_space (before ++ (pair ++ (more ++ back)));
            parse_level = p.parse_level + 1;
          } in
          value_here lib sb fuel p
            (b'{' ∷ ((before ++ (pair ++ (more ++ (after ++ b'}' ∷ [])))) ++ rest))
            (e ∙ braced_here ws (before ++ (pair ++ (more ++ (after ++ b'}' ∷ [])))) rest w)
          ∙ ap (λ xs. value_at lib sb value (record p { cp = b'{' ∷ xs })) inside
          ∙ object_at value p (before ++ (pair ++ (more ++ back))) (unfold depth in omega arith)
              (ap (λ xs. peek xs == b'}') here)
          ∙ ap object_close (
              members_read lib sb scans fuel s n ms sp text more q back h k v m
                (unfold depth in omega arith) (unfold depth in omega arith)
                (brace-Closes after rest a)
                (skip_space_self (before ++ (pair ++ (more ++ back))) ∙ here))
          ∙ unfold object_close in
            (object_end-brace (member s n ms) after rest
                (leave_level (record q { cp = skip_space back })) a (skip_space_self back)
              ∙ ap (λ i. done (object (member s n ms)) (record p { cp = rest; parse_level = i }))
                  (omega arith))

  pub empty_object-IsValue :
      (ws : Bytes) → IsBlank ws → IsValue lib sb (object no_members) (braced ws (b'}' ∷ []))
  empty_object-IsValue ws w = record {
    reads = reads;
    opens = λ rest. braced_opens ws (b'}' ∷ []) rest w;
  }
    where
      reads : ReadsValue lib sb (object no_members) (braced ws (b'}' ∷ []))
      reads zero p rest d l s e = absurd (omega arith)
      reads (suc fuel) p rest d l s e =
          value_here lib sb fuel p (b'{' ∷ b'}' ∷ rest) (e ∙ braced_here ws (b'}' ∷ []) rest w)
          ∙ unfold value_at json_parse_object object_end skip_space in refl
