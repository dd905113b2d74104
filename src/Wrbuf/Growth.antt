-- ===== src/Wrbuf/Growth.antt =====
-- The buffer of src/wrbuf.c as the list of its bytes, and that no write passes the allocated size.
use yaz.Prelude.{
  ℕ, suc, ◌-◌, ◌≤◌, ◌<◌, ◌≡◌, ◌∙◌, ap, sym, refl, inl, inr, Bool-cases, List, false, [], ◌∷◌, ◌++◌,
  append-nil, Bytes, length, length-append, take, drop, take-append-drop, length-take, length-drop,
  leb, ltb, ◌==◌, if◌then◌else◌, arith,
}
use yaz.Wrbuf.{
  Wrbuf, wrbuf_alloc, wrbuf_rewind, wrbuf_putc, wrbuf_write, wrbuf_insert, wrbuf_chop_right,
  wrbuf_cut_right, strip_spaces, reverse_onto,
}

-- The bytes lie within the allocated ones, with room for the terminator of `wrbuf_cstr`.
pub record IsSafe (b : Wrbuf) : Type 0 where
  pub within : length b.buf ≤ b.size
  pub allocated : 0 < b.size

pub wrbuf_alloc-IsSafe : IsSafe wrbuf_alloc
unfolding wrbuf_alloc
wrbuf_alloc-IsSafe = omega arith

pub wrbuf_putc-buf : (c : ℕ) (b : Wrbuf) → (wrbuf_putc c b).buf ≡ b.buf ++ c ∷ []
unfolding wrbuf_putc
wrbuf_putc-buf c b = ground arith

pub wrbuf_putc-IsSafe : (c : ℕ) (b : Wrbuf) → IsSafe b → IsSafe (wrbuf_putc c b)
unfolding wrbuf_putc
wrbuf_putc-IsSafe c b s = ground (arith, length-append b.buf (c ∷ []))

pub wrbuf_write-buf : (cs : Bytes) (b : Wrbuf) → (wrbuf_write cs b).buf ≡ b.buf ++ cs
unfolding wrbuf_write
wrbuf_write-buf [] b = ground (arith, append-nil b.buf)
wrbuf_write-buf (c ∷ cs) b = ground arith

pub wrbuf_write-IsSafe : (cs : Bytes) (b : Wrbuf) → IsSafe b → IsSafe (wrbuf_write cs b)
unfolding wrbuf_write
wrbuf_write-IsSafe [] b s = s
wrbuf_write-IsSafe (c ∷ cs) b s = ground (arith, length-append b.buf (c ∷ cs))

wrbuf_insert-IsSafe : (pos : ℕ) (cs : Bytes) (b : Wrbuf) → IsSafe b → IsSafe (wrbuf_insert pos cs b)
unfolding wrbuf_insert
wrbuf_insert-IsSafe pos [] b s = s
wrbuf_insert-IsSafe pos (c ∷ cs) b s = ground (
  arith,
  length-append (take pos b.buf) (c ∷ cs ++ drop pos b.buf),
  length-append cs (drop pos b.buf),
  length-take pos b.buf,
  length-drop pos b.buf,
)

-- The list without the spaces at its end.
abbrev pub trim : Bytes → Bytes
trim [] = []
trim (c ∷ cs) = elim (trim cs) [ [] ↦ if c == b' ' then [] else c ∷ [] | d ∷ ds ↦ c ∷ d ∷ ds ]

pub trim_space : (cs : Bytes) → trim (cs ++ b' ' ∷ []) ≡ trim cs
trim_space [] = refl
trim_space (c ∷ cs) =
    ap (λ r. elim r [ [] ↦ if c == b' ' then [] else c ∷ [] | d ∷ ds ↦ c ∷ d ∷ ds ]) (trim_space cs)

pub trim_other : (cs : Bytes) (c : ℕ) → (c == b' ') ≡ false → trim (cs ++ c ∷ []) ≡ cs ++ c ∷ []
trim_other [] c h = rw h
trim_other (d ∷ []) c h = rw (h, trim)
trim_other (d ∷ e ∷ cs) c h =
    ap (λ r. elim r [ [] ↦ if d == b' ' then [] else d ∷ [] | x ∷ xs ↦ d ∷ x ∷ xs ])
      (trim_other (e ∷ cs) c h)

reverse_onto-append : (cs xs ys : Bytes) → reverse_onto cs (xs ++ ys) ≡ reverse_onto cs xs ++ ys
unfolding reverse_onto
reverse_onto-append [] xs ys = refl
reverse_onto-append (c ∷ cs) xs ys = reverse_onto-append cs (c ∷ xs) ys

reverse_strip : (cs : Bytes) → reverse_onto (strip_spaces cs) [] ≡ trim (reverse_onto cs [])
unfolding strip_spaces reverse_onto
reverse_strip [] = refl
reverse_strip (c ∷ cs) = elim (Bool-cases (c == b' ')) [
  | inl e ↦
      let space : c ≡ b' ' = ground arith in
      rw e (
        reverse_strip cs
        ∙ rw (reverse_onto-append cs [] (c ∷ []), space) (sym (trim_space (reverse_onto cs []))))
  | inr e ↦ rw (e, reverse_onto-append cs [] (c ∷ [])) (sym (trim_other (reverse_onto cs []) c e))
]

chop_onto :
    (cs acc : Bytes)
    → reverse_onto (strip_spaces (reverse_onto cs acc)) [] ≡ trim (reverse_onto acc cs)
unfolding reverse_onto
chop_onto [] acc = reverse_strip acc
chop_onto (c ∷ cs) acc = chop_onto cs (c ∷ acc)

pub wrbuf_chop_right-buf : (b : Wrbuf) → (wrbuf_chop_right b).buf ≡ trim b.buf
unfolding wrbuf_chop_right
wrbuf_chop_right-buf b = chop_onto b.buf []

length-trim : (cs : Bytes) → length (trim cs) ≤ length cs
length-trim [] = omega arith
length-trim (c ∷ cs) = go (trim cs) (length-trim cs)
  where
    go :
        (r : Bytes)
        → length r ≤ length cs
        → length (elim r [ [] ↦ if c == b' ' then [] else c ∷ [] | d ∷ ds ↦ c ∷ d ∷ ds ])
          ≤ suc (length cs)
    go [] h = ground arith
    go (d ∷ ds) h = omega arith

-- The calls that change a buffer.
pub data Op : Type 0 where
  putc : ℕ → Op
  write : Bytes → Op
  insert : ℕ → Bytes → Op
  cut_right : ℕ → Op
  chop_right : Op
  rewind : Op

abbrev pub apply : Op → Wrbuf → Wrbuf
apply (putc c) b = wrbuf_putc c b
apply (write cs) b = wrbuf_write cs b
apply (insert pos cs) b = wrbuf_insert pos cs b
apply (cut_right n) b = wrbuf_cut_right n b
apply chop_right b = wrbuf_chop_right b
apply rewind b = wrbuf_rewind b

-- What each call does to the text.
abbrev pub edit : Op → Bytes → Bytes
edit (putc c) xs = xs ++ c ∷ []
edit (write cs) xs = xs ++ cs
edit (insert pos cs) xs = if leb pos (length xs) then take pos xs ++ (cs ++ drop pos xs) else xs
edit (cut_right n) xs = take (length xs - n) xs
edit chop_right xs = trim xs
edit rewind xs = []

abbrev pub run : List Op → Wrbuf → Wrbuf
run [] b = b
run (op ∷ ops) b = run ops (apply op b)

abbrev pub edit_all : List Op → Bytes → Bytes
edit_all [] xs = xs
edit_all (op ∷ ops) xs = edit_all ops (edit op xs)

insert_buf :
    (pos : ℕ) (cs : Bytes) (b : Wrbuf)
    → (wrbuf_insert pos cs b).buf
      ≡ (if leb pos (length b.buf) then take pos b.buf ++ (cs ++ drop pos b.buf) else b.buf)
unfolding wrbuf_insert
insert_buf pos [] b = ground (arith, take-append-drop pos b.buf)
insert_buf pos (c ∷ cs) b = ground arith

cut_all : (k n : ℕ) → k - (if ltb k n then k else n) ≡ k - n
cut_all k n = ground arith

apply-buf : (op : Op) (b : Wrbuf) → (apply op b).buf ≡ edit op b.buf
apply-buf (putc c) b = wrbuf_putc-buf c b
apply-buf (write cs) b = wrbuf_write-buf cs b
apply-buf (insert pos cs) b = insert_buf pos cs b
apply-buf (cut_right n) b =
    unfold wrbuf_cut_right in ap (λ k. take k b.buf) (cut_all (length b.buf) n)
apply-buf chop_right b = wrbuf_chop_right-buf b
apply-buf rewind b = unfold wrbuf_rewind in refl

apply-IsSafe : (op : Op) (b : Wrbuf) → IsSafe b → IsSafe (apply op b)
apply-IsSafe (putc c) b s = wrbuf_putc-IsSafe c b s
apply-IsSafe (write cs) b s = wrbuf_write-IsSafe cs b s
apply-IsSafe (insert pos cs) b s = wrbuf_insert-IsSafe pos cs b s
apply-IsSafe (cut_right n) b s =
    unfold wrbuf_cut_right in
    omega (
      arith,
      length-take (length b.buf - (if ltb (length b.buf) n then length b.buf else n)) b.buf,
      s.within,
      s.allocated,
    )
apply-IsSafe chop_right b s = record {
  within =
      rw (wrbuf_chop_right-buf b)
        (unfold wrbuf_chop_right in omega (arith, length-trim b.buf, s.within));
  allocated = unfold wrbuf_chop_right in s.allocated;
}
apply-IsSafe rewind b s = unfold wrbuf_rewind in omega arith

run_lem :
    (ops : List Op) (b : Wrbuf)
    → IsSafe b
    → ((run ops b).buf ≡ edit_all ops b.buf) × IsSafe (run ops b)
run_lem [] b s = (refl, s)
run_lem (op ∷ ops) b s =
    let (same, safe) = run_lem ops (apply op b) (apply-IsSafe op b s) in
    (same ∙ ap (edit_all ops) (apply-buf op b), safe)

-- After any sequence of calls that append, insert, cut, chop or rewind, on a fresh buffer, its
-- bytes are those that the calls make of the empty text, and they lie within the allocated size.
pub wrbuf_refines_text :
    (ops : List Op) → ((run ops wrbuf_alloc).buf ≡ edit_all ops []) × IsSafe (run ops wrbuf_alloc)
unfolding wrbuf_alloc
wrbuf_refines_text ops = run_lem ops wrbuf_alloc wrbuf_alloc-IsSafe
