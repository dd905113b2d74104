-- ===== src/Pqf/Elements.antt =====
-- An attribute that src/querytowrbuf.c writes is read back by `p_query_parse_attr` of src/pquery.c.
use yaz.Prelude.{
  ℕ, suc, ◌<◌, ◌≡◌, ◌∙◌, ap, sym, subst, refl, true, false, [], ◌∷◌, ◌++◌, Bytes, Option, none,
  some, length, drop, All, All-append, ◌==◌, arith, bind,
}
use yaz.Prelude.Int.{ℤ}
use yaz.Pqf.{Library, Oid, Attribute, AttributeValue, numeric, complex, item_string}
use yaz.Pqf.State.{peek, is_digit}
use yaz.Pqf.Lexer.{escape_loop}
use yaz.Pqf.Attributes.{c_string, find_char, all_digits, is_set_name}
use yaz.Pqf.Text.{value_text}
use yaz.Pqf.Tokens.{IsTail, IsWordChar, is_word_start}

module _ (lib : Library) where
  -- A number that is printed in digits and read back from them.
  pub record IsDecimal (z : ℤ) : Type 0 where
    pub lead : ℕ
    pub more : Bytes
    pub printed : lib.print_int z ≡ lead ∷ more
    pub digits : all_digits (lead ∷ more) ≡ true
    pub read :
        (rest : Bytes) → is_digit (peek rest) ≡ false → lib.odr_atoi (lead ∷ more ++ rest) ≡ z

  -- An attribute set whose name is read back, and fits `buf` of `query_oid_getvalbyname`.
  pub record IsNamed (set : Oid) : Type 0 where
    pub lead : ℕ
    pub more : Bytes
    pub named : lib.oid_to_string set ≡ some (lead ∷ more)
    pub found : lib.string_to_oid (lead ∷ more) ≡ some set
    pub word : All IsWordChar (lead ∷ more)
    pub start : is_word_start lead ≡ true
    pub fits_buffer : length (lead ∷ more) < 31
    pub no_equals : All (λ c. (c == b'=') ≡ false) (lead ∷ more)

  -- A number in digits, or one string that is a word and no number.
  abbrev pub IsWritableValue : AttributeValue → Type 0
  IsWritableValue (numeric n) = IsDecimal n
  IsWritableValue (complex (item_string s ∷ [])) = (all_digits s ≡ false) × All IsWordChar s
  IsWritableValue (complex more) = ⊥

  -- An attribute without a set gets that of the attribute before it.
  abbrev pub IsKept : Option Oid → Option Oid → Type 0
  IsKept before none = before ≡ none
  IsKept before (some set) = IsNamed set

  pub record IsWritableAttribute (before : Option Oid) (a : Attribute) : Type 0 where
    pub type : IsDecimal a.attribute_type
    pub value : IsWritableValue a.value
    pub set : IsKept before a.attribute_set

  pub digits-IsWordChar : (ds : Bytes) → all_digits ds ≡ true → All IsWordChar ds
  digits-IsWordChar [] h = tt
  digits-IsWordChar (d ∷ ds) h = (ground arith, digits-IsWordChar ds (ground arith))

  pub escape_loop-word : (s : Bytes) → All IsWordChar s → escape_loop lib 0 s ≡ s
  unfolding escape_loop
  escape_loop-word [] h = refl
  escape_loop-word (c ∷ cs) h =
      let other : (c == b'\\') ≡ false = ground arith in
      rw other (ap (◌∷◌ c) (escape_loop-word cs h.1))

  pub c_string-word : (s : Bytes) → All IsWordChar s → c_string s ≡ s
  unfolding c_string
  c_string-word [] h = refl
  c_string-word (c ∷ cs) h =
      let other : (c == 0) ≡ false = ground arith in rw other (ap (◌∷◌ c) (c_string-word cs h.1))

  pub value-IsWordChar :
      (v : AttributeValue) → IsWritableValue v → All IsWordChar (value_text lib v)
  value-IsWordChar (numeric n) h =
      subst (All IsWordChar) (sym h.printed) (digits-IsWordChar (h.lead ∷ h.more) h.digits)
  value-IsWordChar (complex []) h = absurd h
  value-IsWordChar (complex (item_string s ∷ [])) h = All-append IsWordChar s [] h.1 tt
  value-IsWordChar (complex (_ ∷ _)) h = absurd h

  pub find_char-digits :
      (ds rest : Bytes)
      → all_digits ds ≡ true
      → find_char b'=' (ds ++ b'=' ∷ rest) ≡ some (length ds)
  unfolding find_char
  find_char-digits [] rest h = refl
  find_char-digits (d ∷ ds) rest h =
      let other : (d == b'=') ≡ false = ground arith in
      rw (other, find_char-digits ds rest (ground arith)) refl

  is_set_name-suc :
      (o : Option ℕ) (n : ℕ) → is_set_name (bind o λ i. some (suc i)) (suc n) ≡ is_set_name o n
  is_set_name-suc none n = refl
  is_set_name-suc (some i) n = ground arith

  -- A '=' behind the token does not count.
  pub find_char-name :
      (name rest : Bytes)
      → All (λ c. (c == b'=') ≡ false) name
      → is_set_name (find_char b'=' (name ++ b' ' ∷ rest)) (length name) ≡ true
  unfolding find_char
  find_char-name [] rest h = behind (find_char b'=' rest)
    where
      behind : (o : Option ℕ) → is_set_name (bind o λ i. some (suc i)) 0 ≡ true
      behind none = refl
      behind (some i) = ground arith
  find_char-name (c ∷ cs) rest h = rw h.0 (
      is_set_name-suc (find_char b'=' (cs ++ b' ' ∷ rest)) (length cs) ∙ find_char-name cs rest h.1)

  pub drop-behind :
      (ds : Bytes) (c : ℕ) (rest : Bytes) → drop (suc (length ds)) (ds ++ c ∷ rest) ≡ rest
  drop-behind [] c rest = refl
  drop-behind (d ∷ ds) c rest = drop-behind ds c rest

  pub IsTail-digit : (tail : Bytes) → IsTail tail → is_digit (peek tail) ≡ false
  IsTail-digit [] t = refl
  IsTail-digit (c ∷ cs) t = rw t refl
