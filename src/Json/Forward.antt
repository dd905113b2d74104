-- ===== src/Json/Forward.antt =====
-- The scanning of src/json.c goes forward only and leaves the nesting level as it finds it.
use yaz.Prelude.{
  ◌%◌, ◌^◌, ℕ, zero, suc, ◌+◌, ◌-◌, ◌*◌, ◌≤◌, ◌<◌, ◌≡◌, refl, true, [], ◌∷◌, Bytes, Option, none,
  some, length, length-drop, drop, ◌==◌, arith,
}
use yaz.Utf8.{yaz_write_utf8_char}
use yaz.Json.{Library, Node}
use yaz.Json.State.{
  Parser, Outcome, done, failed, out_of_fuel, and_then, skip_space, peek, look_ch, move_ch,
}
use yaz.Json.Scan.{
  Subst, letter_escape, unicode_out, unicode_scanned, escape_of, Body, ended, invalid, missing,
  put_before, string_round, string_read, number_end, number_read, take_word, word_read, read_index,
  find_subst, subst_read,
}
use yaz.Json.Parser.{subst_value, json_one_char, string_body, json_parse_string, json_parse_number}

-- From the first parser to the second.
abbrev pub Step : Parser → Parser → Type 0
Step p q = (length q.cp ≤ length p.cp) × (q.parse_level ≡ p.parse_level)

-- The result is there, and its parser is behind the one before.
abbrev pub Keeps {ℓ} : {A : Type ℓ} → Parser → Outcome A → Type 0
Keeps p (done a q) = Step p q
Keeps p (failed q) = Step p q
Keeps p out_of_fuel = ⊥

pub Keeps-trans {ℓ} : {A : Type ℓ} (p q : Parser) (o : Outcome A) → Step p q → Keeps q o → Keeps p o
Keeps-trans p q (done a r) s k = (omega arith, omega arith)
Keeps-trans p q (failed r) s k = (omega arith, omega arith)
Keeps-trans p q out_of_fuel s k = k

pub and_then-Keeps {ℓ κ} :
    {A : Type ℓ} {B : Type κ} (p : Parser) (o : Outcome A) (f : A → Parser → Outcome B)
    → Keeps p o
    → ((a : A) (q : Parser) → Step p q → Keeps q (f a q))
    → Keeps p (and_then o f)
and_then-Keeps p (done a q) f k h = Keeps-trans p q (f a q) k (h a q k)
and_then-Keeps p (failed q) f k h = k
and_then-Keeps p out_of_fuel f k h = k

pub length-skip_space : (cs : Bytes) → length (skip_space cs) ≤ length cs
unfolding skip_space
length-skip_space [] = omega arith
length-skip_space (c ∷ cs) = ground (arith, length-skip_space cs)

pub look_ch-Step : (p : Parser) → Step p (look_ch p)
look_ch-Step p = (length-skip_space p.cp, refl)

pub move_ch-Step : (p : Parser) → Step p (move_ch p)
move_ch-Step p = (omega (arith, length-drop 1 p.cp), refl)

-- A character other than the terminator is there to be taken.
pub take_one : (cs : Bytes) (c : ℕ) → (peek cs == suc c) ≡ true → length (drop 1 cs) < length cs
take_one [] c h = absurd (ground arith)
take_one (d ∷ cs) c h = omega arith

abbrev pub RestFits : Bytes → Option (Bytes × Bytes) → Type 0
RestFits cs none = Unit
RestFits cs (some (out, rest)) = length rest ≤ length cs

abbrev pub BodyFits : Bytes → Body → Type 0
BodyFits cs (ended s rest) = length rest ≤ length cs
BodyFits cs invalid = Unit
BodyFits cs missing = Unit

pub unicode_out-RestFits : (out : Option Bytes) (cs : Bytes) → RestFits cs (unicode_out out cs)
unfolding unicode_out
unicode_out-RestFits none cs = tt
unicode_out-RestFits (some out) cs = omega (arith, length-drop 4 cs)

pub escape_of-RestFits :
    (l : Option ℕ) (scanned : ℕ × ℕ) (c : ℕ) (cs : Bytes) → RestFits cs (escape_of l scanned c cs)
unfolding escape_of unicode_scanned
escape_of-RestFits (some d) scanned c cs = omega arith
escape_of-RestFits none (code, no_read) c cs =
    ground (arith, unicode_out-RestFits (yaz_write_utf8_char code 6) cs)

module _ (lib : Library) where
  pub json_one_char-RestFits : (c : ℕ) (cs : Bytes) → RestFits cs (json_one_char lib (c ∷ cs))
  unfolding json_one_char
  json_one_char-RestFits c [] = ground arith
  json_one_char-RestFits c (d ∷ cs) =
      ground
        (arith, RestFits_more d cs _ (escape_of-RestFits (letter_escape d) (lib.scan_hex4 cs) d cs))
    where
      RestFits_more :
          (d : ℕ) (cs : Bytes) (r : Option (Bytes × Bytes)) → RestFits cs r → RestFits (d ∷ cs) r
      RestFits_more d cs none h = tt
      RestFits_more d cs (some (out, rest)) h = omega arith

  pub put_before-BodyFits :
      (cs out rest : Bytes) (b : Body)
      → length rest ≤ length cs
      → BodyFits rest b
      → BodyFits cs (put_before out b)
  unfolding put_before
  put_before-BodyFits cs out rest (ended s r) h k = omega arith
  put_before-BodyFits cs out rest invalid h k = tt
  put_before-BodyFits cs out rest missing h k = tt

  pub string_round-BodyFits :
      (c : ℕ) (cs : Bytes) (again : Bytes → Body) (r : Option (Bytes × Bytes))
      → RestFits cs r
      → ((rest : Bytes) → BodyFits rest (again rest))
      → BodyFits (c ∷ cs) (string_round again r)
  unfolding string_round
  string_round-BodyFits c cs again none h k = tt
  string_round-BodyFits c cs again (some (out, rest)) h k =
      put_before-BodyFits (c ∷ cs) out rest (again rest) (omega arith) (k rest)

  pub string_body-BodyFits : (fuel : ℕ) (cs : Bytes) → BodyFits cs (string_body lib fuel cs)
  unfolding string_body
  string_body-BodyFits zero cs = tt
  string_body-BodyFits (suc fuel) [] = tt
  string_body-BodyFits (suc fuel) (c ∷ cs) = ground (
    arith,
    string_round-BodyFits c cs (string_body lib fuel) (json_one_char lib (c ∷ cs))
        (json_one_char-RestFits c cs) (string_body-BodyFits fuel),
  )

  pub string_read-Keeps : (p : Parser) (b : Body) → BodyFits p.cp b → Keeps p (string_read p b)
  unfolding string_read
  string_read-Keeps p (ended s rest) h = (h, refl)
  string_read-Keeps p invalid h = (omega arith, refl)
  string_read-Keeps p missing h = (omega arith, refl)

  pub json_parse_string-Keeps : (p : Parser) → Keeps p (json_parse_string lib p)
  unfolding json_parse_string
  json_parse_string-Keeps p =
      let q = look_ch p in
      let r = move_ch q in
      let body = string_body lib (length r.cp) r.cp in
      let read : Keeps p (string_read r body) =
        Keeps-trans p r _ (omega (arith, (look_ch-Step p).0, (move_ch-Step q).0), refl)
          (string_read-Keeps r body (string_body-BodyFits (length r.cp) r.cp)) in
      ground (arith, look_ch-Step p, read)

  pub number_read-Keeps :
      (p : Parser) (e : Option Bytes) (scanned : ℕ × ℕ) → Keeps p (number_read p e scanned)
  unfolding number_read
  number_read-Keeps p none scanned = (omega arith, refl)
  number_read-Keeps p (some rest) (v, used) = ground arith

  pub json_parse_number-Keeps : (p : Parser) → Keeps p (json_parse_number lib p)
  unfolding json_parse_number
  json_parse_number-Keeps p = number_read-Keeps p (number_end p.cp) (lib.strtod p.cp)

  pub take_word_le : (n : ℕ) (cs : Bytes) → length ((take_word n cs).1) ≤ length cs
  unfolding take_word
  take_word_le zero cs = omega arith
  take_word_le (suc n) [] = omega arith
  take_word_le (suc n) (c ∷ cs) = ground (arith, take_word_le n cs)

  pub word_read-Keeps :
      (p : Parser) (r : Bytes × Bytes) → length r.1 ≤ length p.cp → Keeps p (word_read p r)
  unfolding word_read
  word_read-Keeps p (tok, rest) h = ground arith

  pub read_index_le : (idx : ℕ) (cs : Bytes) → length ((read_index idx cs).1) ≤ length cs
  unfolding read_index
  read_index_le idx [] = omega arith
  read_index_le idx (c ∷ cs) = ground (arith, read_index_le ((idx * 10 + (c - b'0')) % 2 ^ 32) cs)

  pub subst_read-Keeps : (p : Parser) (o : Option (Option Node)) → Keeps p (subst_read p o)
  unfolding subst_read
  subst_read-Keeps p none = (omega arith, refl)
  subst_read-Keeps p (some none) = (omega arith, refl)
  subst_read-Keeps p (some (some n)) = (omega arith, refl)

  pub subst_value-Keeps :
      (sb : Subst) (p : Parser) (r : ℕ × Bytes)
      → length r.1 ≤ length p.cp
      → Keeps p (subst_value sb p r)
  subst_value-Keeps sb p (idx, rest) h =
      Keeps-trans p (record p { cp = rest }) _ (h, refl)
        (subst_read-Keeps (record p { cp = rest }) (find_subst idx sb))
