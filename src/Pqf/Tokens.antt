-- ===== src/Pqf/Tokens.antt =====
-- What `lex` of src/pquery.c makes of a word that a space, the end of the text or a quote ends.
use yaz.Prelude.{
  ℕ, suc, ◌≡◌, ◌∙◌, ap, sym, refl, Bool, true, false, not, ◌&&◌, [], ◌∷◌, ◌++◌, Bytes, length, take,
  drop, take-append, All, Option, none, some, subst, leb, ◌==◌, if◌then◌else◌, arith,
}
use yaz.Pqf.State.{Parser, Look, attr_token, text_token}
use yaz.Pqf.Lexer.{
  lex, skip_spaces, token_end, token_from, is_short_attr, keyword, word_token, token_start,
}
use yaz.Pqf.Attributes.{token_text}

-- The parser in front of the text.
abbrev pub at : Parser → Bytes → Parser
at p text = record p { query_ptr = text }

-- A word ends at a space or with the text.
abbrev pub IsTail : Bytes → Type 0
IsTail [] = Unit
IsTail (c ∷ cs) = c ≡ b' '

-- The parser `q` has read the word from `p`, and the tail is next.
pub record Token (look : Look) (word ending tail : Bytes) (p q : Parser) : Type 0 where
  pub looks : q.query_look ≡ look
  pub buffer : q.lex_buf ≡ word ++ ending
  pub size : q.lex_len ≡ length word
  pub term_type : q.term_type ≡ p.term_type
  pub next : lex q ≡ lex (at q tail)

pub Token-text :
    {look : Look} (word ending tail : Bytes) (p q : Parser)
    → Token look word ending tail p q
    → token_text q ≡ word
Token-text word ending tail p q t =
    ap (λ n. take n q.lex_buf) t.size ∙ ap (take (length word)) t.buffer ∙ take-append word ending

-- A character that ends no word and escapes nothing.
abbrev pub is_word_char : ℕ → Bool
is_word_char c = not (c == b' ') && (not (c == b'\\') && not (c == 0))

abbrev pub IsWordChar : ℕ → Type 0
IsWordChar c = is_word_char c ≡ true

-- The first character of a word without quotes.
abbrev pub is_word_start : ℕ → Bool
is_word_start c = not (c == b'{') && (not (c == b'"') && not (c == b'@'))

pub token_end-tail :
    (escaped : Bool) (tail : Bytes) → IsTail tail → token_end b' ' false tail ≡ (0, tail)
unfolding token_end
token_end-tail escaped [] t = refl
token_end-tail escaped (c ∷ cs) t = rw t refl

token_end-word :
    (w tail : Bytes)
    → All IsWordChar w
    → IsTail tail
    → token_end b' ' false (w ++ tail) ≡ (length w, tail)
unfolding token_end
token_end-word [] tail h t = token_end-tail false tail t
token_end-word (c ∷ cs) tail h t = ground (arith, token_end-word cs tail h.1 t)

-- The old text does not matter.
token_start-at : (cs a b : Bytes) (q : Parser) → token_start cs (at q a) ≡ token_start cs (at q b)
unfolding token_from
token_start-at [] a b q = refl
token_start-at (c ∷ cs) a b q = refl

-- `lex` skips the space that ends a word, if it has not been taken.
pub lex-tail :
    (tail : Bytes) (q : Parser) → IsTail tail → lex (at q (drop 1 tail)) ≡ lex (at q tail)
unfolding lex skip_spaces
lex-tail [] q t = refl
lex-tail (c ∷ cs) q t = rw t (token_start-at (skip_spaces cs) cs (b' ' ∷ cs) q)

-- The first token of a text that begins with no space and no separator.
pub lex-start :
    (c : ℕ) (cs : Bytes) (p : Parser)
    → (c == b' ') ≡ false
    → (c == b'{') ≡ false
    → (c == b'"') ≡ false
    → lex (at p (c ∷ cs)) ≡ token_from b' ' (c ∷ cs) (at p (c ∷ cs))
unfolding lex skip_spaces
lex-start c cs p s b q =
    ap (λ xs. token_start xs (at p (c ∷ cs))) (ap (λ t. if t then skip_spaces cs else c ∷ cs) s)
    ∙ ap {A = Option ℕ}
        (λ o. elim o [
          | none ↦ token_from b' ' (c ∷ cs) (at p (c ∷ cs))
          | some r ↦ token_from r cs (at p (c ∷ cs))
        ])
        (ap (λ t. if t then some b'}' else if c == b'"' then some b'"' else none) b
          ∙ ap (λ t. if t then some b'"' else none) q)

pub is_short_attr-other :
    (c : ℕ) (cs : Bytes) → (c == b'@') ≡ false → is_short_attr (c ∷ cs) ≡ false
unfolding is_short_attr
is_short_attr-other c [] h = refl
is_short_attr-other c (d ∷ cs) h = rw h

word_token-plain :
    (c : ℕ) (cs tail : Bytes) (p : Parser)
    → (c == b'@') ≡ false
    → token_end b' ' false (c ∷ cs ++ tail) ≡ (length (c ∷ cs), tail)
    → token_from b' ' (c ∷ cs ++ tail) p ≡ record p {
      lex_buf = c ∷ cs ++ tail;
      lex_len = suc (length cs);
      query_ptr = drop 1 tail;
      query_look = text_token;
    }
unfolding token_from
word_token-plain c cs tail p h e =
    let text = c ∷ cs ++ tail in
    ap
      (λ t.
        if t
        then record p {
          lex_buf = text;
          lex_len = 1;
          query_ptr = drop 1 text;
          query_look = attr_token;
        }
        else word_token b' ' text (token_end b' ' false text) p)
      (is_short_attr-other c (cs ++ tail) h)
    ∙ ap (λ r. word_token b' ' text r p) e
    ∙ started (leb 1 (suc (length cs)))
  where
    q : Parser
    q = record p { lex_buf = c ∷ cs ++ tail; lex_len = suc (length cs); query_ptr = drop 1 tail }

    started :
        (long : Bool)
        → (if long && c == b'@'
            then record q { query_look = keyword q }
            else record q { query_look = text_token })
          ≡ record q { query_look = text_token }
    started true = rw h refl
    started false = refl

-- A word without quotes that is no keyword, if the loop ends it at its tail.
pub lex-ended :
    (c : ℕ) (cs tail : Bytes) (p : Parser)
    → (c == b' ') ≡ false
    → is_word_start c ≡ true
    → token_end b' ' false (c ∷ cs ++ tail) ≡ (length (c ∷ cs), tail)
    → IsTail tail
    → Token text_token (c ∷ cs) tail tail p (lex (at p (c ∷ cs ++ tail)))
lex-ended c cs tail p space h e t =
    let text = c ∷ cs ++ tail in
    let q = record p {
      lex_buf = text;
      lex_len = suc (length cs);
      query_ptr = drop 1 tail;
      query_look = text_token;
    } in
    let not_at : (c == b'@') ≡ false = ground arith in
    let read : lex (at p text) ≡ q =
      lex-start c (cs ++ tail) p space (ground arith) (ground arith)
      ∙ word_token-plain c cs tail (at p text) not_at e in
    subst (Token text_token (c ∷ cs) tail tail p) (sym read) (record {
      looks = refl;
      buffer = refl;
      size = refl;
      term_type = refl;
      next = lex-tail tail q t;
    })

pub lex-word :
    (c : ℕ) (cs tail : Bytes) (p : Parser)
    → All IsWordChar (c ∷ cs)
    → is_word_start c ≡ true
    → IsTail tail
    → Token text_token (c ∷ cs) tail tail p (lex (at p (c ∷ cs ++ tail)))
lex-word c cs tail p h s t =
    lex-ended c cs tail p (ground arith) s (token_end-word (c ∷ cs) tail h t) t

-- A text in quotes, if the loop ends it at the closing quote.
pub lex-quoted :
    (w tail : Bytes) (p : Parser)
    → is_short_attr (w ++ b'"' ∷ tail) ≡ false
    → token_end b'"' false (w ++ b'"' ∷ tail) ≡ (length w, b'"' ∷ tail)
    → Token text_token w (b'"' ∷ tail) tail p (lex (at p (b'"' ∷ w ++ b'"' ∷ tail)))
lex-quoted w tail p short e =
    let text = w ++ b'"' ∷ tail in
    let q = record p {
      lex_buf = text;
      lex_len = length w;
      query_ptr = tail;
      query_look = text_token;
    } in
    let read : lex (at p (b'"' ∷ text)) ≡ q =
      unfold lex skip_spaces token_from in
      ap
        (λ t.
          if t
          then record p {
            lex_buf = text;
            lex_len = 1;
            query_ptr = drop 1 text;
            query_look = attr_token;
          }
          else word_token b'"' text (token_end b'"' false text) p)
        short
      ∙ ap (λ r. word_token b'"' text r p) e in
    subst (Token text_token w (b'"' ∷ tail) tail p) (sym read)
      (record { looks = refl; buffer = refl; size = refl; term_type = refl; next = refl })
