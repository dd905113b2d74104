-- ===== src/Pqf/Terms.antt =====
-- The term that `yaz_encode_pqf_term` of src/querytowrbuf.c writes is one token of src/pquery.c, whose
-- escapes give the term back.
use yaz.Prelude.{
  ℕ, suc, ◌≡◌, ◌⊎◌, inl, inr, ◌∙◌, ap, sym, subst, refl, Bool, Bool-cases, true, false, not, ◌&&◌,
  ◌||◌, [], ◌∷◌, ◌++◌, append_assoc, Bytes, length, All, ◌==◌, arith,
}
use yaz.Pqf.{Library}
use yaz.Pqf.State.{Parser, text_token}
use yaz.Pqf.Lexer.{
  lex, token_end, is_short_attr, escape_loop, escape_string, escape_out, escape_taken,
}
use yaz.Pqf.Attributes.{token_text}
use yaz.Pqf.Writer.{is_plain, any_needs_quotes}
use yaz.Pqf.Text.{escape_where, is_backslash, is_quoted, plain_word, term_word}
use yaz.Pqf.Tokens.{
  at, IsTail, Token, Token-text, token_end-tail, lex-ended, lex-quoted, is_word_start,
}

-- A character that is escaped, or ends no token at the separator.
abbrev is_kept : (ℕ → Bool) → ℕ → ℕ → Bool
is_kept test sep c = test c || (not (c == sep) && not (c == b'\\'))

token_end-escape_where :
    (test : ℕ → Bool) (sep : ℕ) (t ending : Bytes)
    → (sep == b'\\') ≡ false
    → All (λ c. is_kept test sep c ≡ true) t
    → token_end sep false ending ≡ (0, ending)
    → token_end sep false (escape_where test t ++ ending) ≡ (length (escape_where test t), ending)
unfolding token_end
token_end-escape_where test sep [] ending s h e = e
token_end-escape_where test sep (c ∷ cs) ending s h e =
    let ih = token_end-escape_where test sep cs ending s h.1 e in
    elim (Bool-cases (test c)) [ inl x ↦ ground (arith, ih, x) | inr x ↦ ground (arith, ih, x) ]

-- The characters that the writer escapes stand for themselves behind a backslash.
abbrev is_self : ℕ → Bool
is_self c = c == b'\\' || c == b'"' || c == b'@'

escape_loop_self :
    (lib : Library) (c : ℕ) (cs : Bytes)
    → is_self c ≡ true
    → escape_loop lib 0 (b'\\' ∷ c ∷ cs) ≡ c ∷ escape_loop lib 0 cs
unfolding escape_loop escape_out escape_taken
escape_loop_self lib c cs h = ground arith

escape_loop-escape_where :
    (lib : Library) (test : ℕ → Bool) (t : Bytes)
    → All (λ c. is_kept test b'\\' c ≡ true) t
    → ((c : ℕ) → test c ≡ true → is_self c ≡ true)
    → escape_loop lib 0 (escape_where test t) ≡ t
unfolding escape_loop
escape_loop-escape_where lib test [] h s = refl
escape_loop-escape_where lib test (c ∷ cs) h s =
    let ih = escape_loop-escape_where lib test cs h.1 s in
    elim (Bool-cases (test c)) [
      | inl x ↦ rw x (escape_loop_self lib c (escape_where test cs) (s c x) ∙ ap (◌∷◌ c) ih)
      | inr x ↦
          let other : (c == b'\\') ≡ false = ground (arith, x) in rw x (rw other (ap (◌∷◌ c) ih))
    ]

-- `q` has read the term from `p`.
pub record TermToken (lib : Library) (t tail : Bytes) (p q : Parser) : Type 0 where
  pub looks : q.query_look ≡ text_token
  pub value : escape_string lib (token_text q) ≡ t
  pub term_type : q.term_type ≡ p.term_type
  pub next : lex q ≡ lex (at q tail)

pub Token-TermToken :
    (lib : Library) (t w ending tail : Bytes) (p q : Parser)
    → Token text_token w ending tail p q
    → escape_loop lib 0 w ≡ t
    → TermToken lib t tail p q
unfolding escape_string
Token-TermToken lib t w ending tail p q k e = record {
  looks = k.looks;
  value = ap (escape_loop lib 0) (Token-text w ending tail p q k) ∙ e;
  term_type = k.term_type;
  next = k.next;
}

plain-is_kept :
    (t : Bytes) → any_needs_quotes t ≡ false → All (λ c. is_kept is_backslash b' ' c ≡ true) t
plain-is_kept [] h = tt
plain-is_kept (c ∷ cs) h = (ground arith, plain-is_kept cs (ground arith))

any-is_kept_backslash : (t : Bytes) → All (λ c. is_kept is_backslash b'\\' c ≡ true) t
any-is_kept_backslash [] = tt
any-is_kept_backslash (c ∷ cs) = (ground arith, any-is_kept_backslash cs)

any-is_kept_quoted :
    (sep : ℕ)
    → (sep ≡ b'\\') ⊎ (sep ≡ b'"')
    → (t : Bytes) → All (λ c. is_kept is_quoted sep c ≡ true) t
any-is_kept_quoted sep s [] = tt
any-is_kept_quoted sep s (c ∷ cs) = (ground arith, any-is_kept_quoted sep s cs)

is_short_attr-quoted :
    (t tail : Bytes)
    → is_short_attr t ≡ false
    → is_short_attr (escape_where is_quoted t ++ b'"' ∷ tail) ≡ false
unfolding is_short_attr
is_short_attr-quoted [] [] h = refl
is_short_attr-quoted [] (d ∷ tail) h = refl
is_short_attr-quoted (c ∷ []) tail h = ground arith
is_short_attr-quoted (c ∷ d ∷ cs) tail h = ground arith

quoted-TermToken :
    (lib : Library) (t tail : Bytes) (p : Parser)
    → is_short_attr t ≡ false
    → TermToken lib t tail p (lex (at p (b'"' ∷ escape_where is_quoted t ++ b'"' ∷ tail)))
unfolding token_end
quoted-TermToken lib t tail p short =
    let w = escape_where is_quoted t in
    Token-TermToken lib t w (b'"' ∷ tail) tail p (lex (at p (b'"' ∷ w ++ b'"' ∷ tail)))
      (lex-quoted w tail p (is_short_attr-quoted t tail short) (
        token_end-escape_where is_quoted b'"' t (b'"' ∷ tail) refl
          (any-is_kept_quoted b'"' (inr refl) t) refl))
      (escape_loop-escape_where lib is_quoted t (any-is_kept_quoted b'\\' (inl refl) t)
        λ c e. ground arith)

word-TermToken :
    (lib : Library) (t : Bytes) (d : ℕ) (ds tail : Bytes) (p : Parser)
    → (d == b' ') ≡ false
    → is_word_start d ≡ true
    → token_end b' ' false (d ∷ ds ++ tail) ≡ (length (d ∷ ds), tail)
    → escape_loop lib 0 (d ∷ ds) ≡ t
    → IsTail tail
    → TermToken lib t tail p (lex (at p (d ∷ ds ++ tail)))
word-TermToken lib t d ds tail p space start e v k =
    Token-TermToken lib t (d ∷ ds) tail tail p (lex (at p (d ∷ ds ++ tail)))
      (lex-ended d ds tail p space start e k) v

plain-token_end :
    (t tail : Bytes)
    → any_needs_quotes t ≡ false
    → IsTail tail
    → token_end b' ' false (escape_where is_backslash t ++ tail)
      ≡ (length (escape_where is_backslash t), tail)
plain-token_end t tail h k =
    token_end-escape_where is_backslash b' ' t tail refl (plain-is_kept t h)
      (token_end-tail false tail k)

plain-escape_loop :
    (lib : Library) (t : Bytes) → escape_loop lib 0 (escape_where is_backslash t) ≡ t
plain-escape_loop lib t =
    escape_loop-escape_where lib is_backslash t (any-is_kept_backslash t) λ c e. ground arith

at-TermToken :
    (lib : Library) (cs tail : Bytes) (p : Parser)
    → any_needs_quotes cs ≡ false
    → IsTail tail
    → TermToken lib (b'@' ∷ cs) tail p (lex (at p (plain_word (b'@' ∷ cs) ++ tail)))
unfolding token_end
at-TermToken lib cs tail p h t =
    let w = escape_where is_backslash cs in
    word-TermToken lib (b'@' ∷ cs) b'\\' (b'@' ∷ w) tail p refl refl
      (ap (λ r. (suc (suc r.0), r.1)) (plain-token_end cs tail h t))
      (escape_loop_self lib b'@' w refl ∙ ap (◌∷◌ b'@') (plain-escape_loop lib cs)) t

plain-TermToken :
    (lib : Library) (c : ℕ) (cs tail : Bytes) (p : Parser)
    → any_needs_quotes (c ∷ cs) ≡ false
    → IsTail tail
    → TermToken lib (c ∷ cs) tail p (lex (at p (plain_word (c ∷ cs) ++ tail)))
plain-TermToken lib c cs tail p h t = elim (Bool-cases (c == b'@')) [
  | inl e ↦
      let same : b'@' ≡ c = ground arith in
      subst (λ d. TermToken lib (d ∷ cs) tail p (lex (at p (plain_word (d ∷ cs) ++ tail)))) same
        (at-TermToken lib cs tail p (ground arith) t)
  | inr e ↦
      let ends = plain-token_end (c ∷ cs) tail h t in
      let value = plain-escape_loop lib (c ∷ cs) in
      rw e (first (Bool-cases (c == b'\\')) e ends value)
]
  where
    w : Bytes
    w = escape_where is_backslash cs

    first :
        ((c == b'\\') ≡ true) ⊎ ((c == b'\\') ≡ false)
        → (c == b'@') ≡ false
        → token_end b' ' false (escape_where is_backslash (c ∷ cs) ++ tail)
          ≡ (length (escape_where is_backslash (c ∷ cs)), tail)
        → escape_loop lib 0 (escape_where is_backslash (c ∷ cs)) ≡ c ∷ cs
        → TermToken lib (c ∷ cs) tail p (lex (at p (escape_where is_backslash (c ∷ cs) ++ tail)))
    first (inl b) e =
        rw b λ ends value. word-TermToken lib (c ∷ cs) b'\\' (c ∷ w) tail p refl refl ends value t
    first (inr b) e = rw b λ ends value.
        word-TermToken lib (c ∷ cs) c w tail p (ground arith) (ground arith) ends value t

-- The quotes of a term that begins with '@' and a digit do not keep it from being read as an attribute.
abbrev pub IsReadable : Bytes → Type 0
IsReadable t = (is_plain t ≡ true) ⊎ (is_short_attr t ≡ false)

pub term_word-TermToken :
    (lib : Library) (t tail : Bytes) (p : Parser)
    → IsReadable t
    → IsTail tail
    → TermToken lib t tail p (lex (at p (term_word t ++ tail)))
unfolding is_short_attr
term_word-TermToken lib [] tail p r k = quoted-TermToken lib [] tail p refl
term_word-TermToken lib (c ∷ cs) tail p r k = elim (Bool-cases (any_needs_quotes (c ∷ cs))) [
  | inr e ↦ rw e (plain-TermToken lib c cs tail p e k)
  | inl e ↦
      let t = c ∷ cs in
      let w = escape_where is_quoted t in
      let short : is_short_attr t ≡ false = elim r [
        | inl plain ↦ absurd (ground arith)
        | inr s ↦ s
      ] in
      let joined : b'"' ∷ (w ++ b'"' ∷ tail) ≡ (b'"' ∷ (w ++ b'"' ∷ [])) ++ tail =
        ap (◌∷◌ b'"') (sym (append_assoc w (b'"' ∷ []) tail)) in
      rw e (
        subst (λ xs. TermToken lib t tail p (lex (at p xs))) joined
          (quoted-TermToken lib t tail p short))
]
