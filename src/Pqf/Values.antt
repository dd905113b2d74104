-- ===== src/Pqf/Values.antt =====
-- The value and the type of an attribute that src/querytowrbuf.c writes are read back by
-- `p_query_parse_attr` of src/pquery.c.
use yaz.Prelude.{
  suc, ◌≡◌, ◌∙◌, ap, sym, subst, refl, true, false, not, List, [], ◌∷◌, ◌++◌, append_assoc, Bytes,
  some, length, length-append, drop, append-nil, All, All-append, if◌then◌else◌, arith,
}
use yaz.Pqf.{Library, Attribute, AttributeValue, numeric, complex, item_string}
use yaz.Pqf.State.{Parser, text_token, peek, is_digit, done, fail, bad_integer}
use yaz.Pqf.Lexer.{lex, escape_string}
use yaz.Pqf.Attributes.{
  token_text, c_string, find_char, all_digits, attr_value, parse_type, is_set_name, type_at,
}
use yaz.Pqf.Text.{value_text, type_word}
use yaz.Pqf.Tokens.{at, IsTail, Token, Token-text, IsWordChar, lex-word}
use yaz.Pqf.Elements.{
  IsDecimal, IsWritableValue, digits-IsWordChar, escape_loop-word, c_string-word, value-IsWordChar,
  find_char-digits, drop-behind, IsTail-digit,
}

module _ (lib : Library) where
  -- The loop over a value, in front of which the text before it stands.
  pub attr_value-text :
      (ds tail : Bytes) (v : AttributeValue) (q : Parser)
      → IsWritableValue lib v
      → IsTail tail
      → q.lex_buf ≡ (ds ++ b'=' ∷ value_text lib v) ++ tail
      → token_text q ≡ ds ++ b'=' ∷ value_text lib v
      → attr_value lib (suc (length ds)) q ≡ v
  unfolding attr_value escape_string
  attr_value-text ds tail (numeric n) q h t buffer word =
      let start = suc (length ds) in
      let text : drop start (token_text q) ≡ h.lead ∷ h.more =
        ap (drop start) word ∙ drop-behind lib ds b'=' (lib.print_int n) ∙ h.printed in
      let behind : drop start q.lex_buf ≡ h.lead ∷ h.more ++ tail =
        ap (drop start) (buffer ∙ append_assoc ds (b'=' ∷ lib.print_int n) tail)
        ∙ drop-behind lib ds b'=' (lib.print_int n ++ tail)
        ∙ ap (λ xs. xs ++ tail) h.printed in
      ap
        (λ value.
          if all_digits value
          then numeric (lib.odr_atoi (drop start q.lex_buf))
          else complex (item_string (c_string (escape_string lib value)) ∷ []))
        text
      ∙ ap
          (λ d.
            if d
            then numeric (lib.odr_atoi (drop start q.lex_buf))
            else complex (item_string (c_string (escape_string lib (h.lead ∷ h.more))) ∷ []))
          h.digits
      ∙ ap (λ xs. numeric (lib.odr_atoi xs)) behind
      ∙ ap numeric (h.read tail (IsTail-digit lib tail t))
  attr_value-text ds tail (complex []) q h t buffer word = absurd h
  attr_value-text ds tail (complex (item_string s ∷ [])) q h t buffer word =
      let start = suc (length ds) in
      let text : drop start (token_text q) ≡ s =
        ap (drop start) word ∙ drop-behind lib ds b'=' (s ++ []) ∙ append-nil s in
      ap
        (λ value.
          if all_digits value
          then numeric (lib.odr_atoi (drop start q.lex_buf))
          else complex (item_string (c_string (escape_string lib value)) ∷ []))
        text
      ∙ ap
          (λ d.
            if d
            then numeric (lib.odr_atoi (drop start q.lex_buf))
            else complex (item_string (c_string (escape_string lib s)) ∷ []))
          h.0
      ∙ ap (λ xs. complex (item_string xs ∷ []))
          (ap c_string (escape_loop-word lib s h.1) ∙ c_string-word lib s h.1)
  attr_value-text ds tail (complex (_ ∷ _)) q h t buffer word = absurd h

  -- The token behind `@attr` and the name of the set.
  pub type_at-word :
      (attrs : List Attribute) (a : Attribute) (tail : Bytes) (p q : Parser)
      → IsDecimal lib a.attribute_type
      → IsWritableValue lib a.value
      → IsTail tail
      → Token text_token (type_word lib a) tail tail p q
      → type_at lib attrs a.attribute_set (find_char b'=' q.lex_buf) q ≡ done (a ∷ attrs) q
  unfolding parse_type
  type_at-word attrs a tail p q ty value t k =
      let ds = lib.print_int a.attribute_type in
      let behind = value_text lib a.value ++ tail in
      let buffer : q.lex_buf ≡ ds ++ b'=' ∷ behind =
        k.buffer ∙ append_assoc ds (b'=' ∷ value_text lib a.value) tail in
      let leading : q.lex_buf ≡ ty.lead ∷ ty.more ++ b'=' ∷ behind =
        buffer ∙ ap (λ xs. xs ++ b'=' ∷ behind) ty.printed in
      let begins : is_digit (peek q.lex_buf) ≡ true =
        ap (λ xs. is_digit (peek xs)) leading ∙ ground (arith, ty.digits) in
      let type : lib.odr_atoi q.lex_buf ≡ a.attribute_type =
        ap lib.odr_atoi leading ∙ ty.read (b'=' ∷ behind) refl in
      let found : find_char b'=' q.lex_buf ≡ some (length ds) =
        ap (find_char b'=') buffer
        ∙ find_char-digits lib ds behind (ap all_digits ty.printed ∙ ty.digits) in
      ap (λ o. type_at lib attrs a.attribute_set o q) found
      ∙ ap
          (λ d.
            if not d
            then fail bad_integer q
            else done
                (record {
                  attribute_set = a.attribute_set;
                  attribute_type = lib.odr_atoi q.lex_buf;
                  value = attr_value lib (suc (length ds)) q;
                }
                  ∷ attrs)
                q)
          begins
      ∙ ap
          (λ z.
            done
              (record {
                attribute_set = a.attribute_set;
                attribute_type = z;
                value = attr_value lib (suc (length ds)) q;
              }
                ∷ attrs)
              q)
          type
      ∙ ap
          (λ v.
            done
              (record {
                attribute_set = a.attribute_set;
                attribute_type = a.attribute_type;
                value = v;
              }
                ∷ attrs)
              q)
          (attr_value-text ds tail a.value q value t k.buffer
            (Token-text (type_word lib a) tail tail p q k))

  pub type_word-Token :
      (a : Attribute) (tail : Bytes) (p : Parser)
      → IsDecimal lib a.attribute_type
      → IsWritableValue lib a.value
      → IsTail tail
      → Token text_token (type_word lib a) tail tail p (lex (at p (type_word lib a ++ tail)))
  type_word-Token a tail p ty value t =
      let word : type_word lib a ≡ ty.lead ∷ (ty.more ++ b'=' ∷ value_text lib a.value) =
        ap (λ xs. xs ++ b'=' ∷ value_text lib a.value) ty.printed in
      let h : All IsWordChar (ty.lead ∷ (ty.more ++ b'=' ∷ value_text lib a.value)) =
        All-append IsWordChar (ty.lead ∷ ty.more) (b'=' ∷ value_text lib a.value)
          (digits-IsWordChar lib (ty.lead ∷ ty.more) ty.digits)
          (refl, value-IsWordChar lib a.value value) in
      subst (λ w. Token text_token w tail tail p (lex (at p (w ++ tail)))) (sym word)
        (lex-word ty.lead (ty.more ++ b'=' ∷ value_text lib a.value) tail p h
          (ground (arith, ty.digits)) t)

  -- The '=' stands within the token.
  pub type_word-is_set_name :
      (a : Attribute) (tail : Bytes) (p q : Parser)
      → IsDecimal lib a.attribute_type
      → Token text_token (type_word lib a) tail tail p q
      → is_set_name (find_char b'=' q.lex_buf) q.lex_len ≡ false
  type_word-is_set_name a tail p q ty k =
      let ds = lib.print_int a.attribute_type in
      let value = value_text lib a.value in
      let found : find_char b'=' q.lex_buf ≡ some (length ds) =
        ap (find_char b'=') (k.buffer ∙ append_assoc ds (b'=' ∷ value) tail)
        ∙ find_char-digits lib ds (value ++ tail) (ap all_digits ty.printed ∙ ty.digits) in
      rw found (ground (arith, k.size, length-append ds (b'=' ∷ value)))
