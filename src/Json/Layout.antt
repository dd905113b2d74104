-- ===== src/Json/Layout.antt =====
-- The white space that the writer of src/json.c appends: the indents and the lines.
use yaz.Prelude.{
  ℕ, zero, suc, ◌≡◌, ◌∙◌, ap, sym, refl, [], ◌∷◌, ◌++◌, append_assoc, append-nil, Bytes, Option,
  none, some, All-append, inl, inr, Bool-cases, codes,
}
use yaz.Wrbuf.{Wrbuf, wrbuf_putc}
use yaz.Wrbuf.Growth.{wrbuf_putc-buf, wrbuf_write-buf}
use yaz.Json.Writer.{at_line_start, put_spaces, json_indent, if_pretty, newline}
use yaz.Json.Blank.{IsBlank}

-- What a call appends to a buffer.
abbrev pub Appended : (Bytes → Type 0) → Wrbuf → Wrbuf → Type 0
Appended P b c = (text : Bytes) × (c.buf ≡ b.buf ++ text) × P text

pub put_spaces-IsBlank : (n : ℕ) (b : Wrbuf) → Appended IsBlank b (put_spaces n b)
unfolding put_spaces
put_spaces-IsBlank zero b = ([], sym (append-nil b.buf), tt)
put_spaces-IsBlank (suc n) b =
    let (ws, e, h) = put_spaces-IsBlank n (wrbuf_putc b' ' b) in
    (
      b' ' ∷ ws,
      e ∙ ap (λ xs. xs ++ ws) (wrbuf_putc-buf b' ' b) ∙ append_assoc b.buf (b' ' ∷ []) ws,
      (refl, h),
    )

pub json_indent-IsBlank : (i : Option ℕ) (b : Wrbuf) → Appended IsBlank b (json_indent i b)
unfolding json_indent
json_indent-IsBlank none b = ([], sym (append-nil b.buf), tt)
json_indent-IsBlank (some n) b = elim (Bool-cases (at_line_start b.buf)) [
  | inl e ↦ rw e (put_spaces-IsBlank n b)
  | inr e ↦ rw e ([], sym (append-nil b.buf), tt)
]

-- A text of white space, written only in the layout with lines.
pub if_pretty-IsBlank :
    (i : Option ℕ) (f : Wrbuf → Wrbuf) (b : Wrbuf)
    → Appended IsBlank b (f b)
    → Appended IsBlank b (if_pretty i f b)
if_pretty-IsBlank none f b h = ([], sym (append-nil b.buf), tt)
if_pretty-IsBlank (some n) f b h = h

pub newline-IsBlank : (b : Wrbuf) → Appended IsBlank b (newline b)
newline-IsBlank b = (10 ∷ [], wrbuf_write-buf (codes "\n") b, (refl, tt))

pub then-IsBlank :
    (b c d : Wrbuf) → Appended IsBlank b c → Appended IsBlank c d → Appended IsBlank b d
then-IsBlank b c d (xs, e, h) (ys, f, k) =
    (xs ++ ys, f ∙ ap (λ zs. zs ++ ys) e ∙ append_assoc b.buf xs ys, All-append _ xs ys h k)

-- What is appended in two steps.
abbrev pub joined :
    {c d : Bytes} (b xs ys : Bytes) → c ≡ b ++ xs → d ≡ c ++ ys → d ≡ b ++ (xs ++ ys)
joined b xs ys e f = f ∙ ap (λ zs. zs ++ ys) e ∙ append_assoc b xs ys
