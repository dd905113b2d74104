-- ===== src/Nmem/Chunks.antt =====
-- The chunks that src/nmem.c hands out lie in live blocks and never overlap, and its counters tell
-- what is allocated.
use yaz.Prelude.{
  ℕ, ◌+◌, ◌-◌, ◌%◌, ◌^◌, ◌≤◌, ◌<◌, ◌≡◌, ◌≢◌, ◌∙◌, ◌⊎◌, inl, inr, refl, sym, [], ◌∷◌, List, All,
  arith,
}
use yaz.Nmem.{Block, align_up}
use native.Mathlib.Nat.{div-add-mod, mod-lt}

-- A chunk in use: where it is and how many bytes it has.
pub record Chunk : Type 0 where
  pub block : ℕ
  pub offset : ℕ
  pub extent : ℕ

-- Two chunks share no byte.
abbrev pub Apart : Chunk → Chunk → Type 0
Apart c d =
    (c.block ≢ d.block) ⊎ (c.offset + c.extent ≤ d.offset) ⊎ (d.offset + d.extent ≤ c.offset)

abbrev pub AllApart : List Chunk → Type 0
AllApart [] = Unit
AllApart (c ∷ cs) = All (Apart c) cs × AllApart cs

-- The chunk's block is one of these.
abbrev pub Owned : Chunk → List Block → Type 0
Owned c [] = ⊥
Owned c (p ∷ ps) = (c.block ≡ p.id) ⊎ Owned c ps

-- The chunk is in another block, or within the bytes of this one and below its top.
abbrev pub Below : Chunk → Block → Type 0
Below c p = (c.block ≢ p.id) ⊎ ((c.offset + c.extent ≤ p.size) × (c.offset + c.extent ≤ p.top))

abbrev pub Distinct : List Block → Type 0
Distinct [] = Unit
Distinct (p ∷ ps) = All (λ q. p.id ≢ q.id) ps × Distinct ps

abbrev pub IsHeldBy : List Block → Chunk → Type 0
IsHeldBy ps c = Owned c ps × All (Below c) ps

-- The blocks are distinct and older than the next, and every chunk lies in one of them and apart from
-- the other chunks.
abbrev pub AreHeld : ℕ → List Block → List Chunk → Type 0
AreHeld fresh ps cs = Distinct ps × All (λ p. p.id < fresh) ps × All (IsHeldBy ps) cs × AllApart cs

module _ (nmem_align : ℕ) (positive : 0 < nmem_align) where
  pub align_up_bounds :
      (size : ℕ)
      → size + nmem_align ≤ 2 ^ 64
      → (size ≤ align_up nmem_align size) × (align_up nmem_align size ≤ size + nmem_align)
  align_up_bounds size h =
      let fits : (size + (nmem_align - 1)) % 2 ^ 64 ≡ size + (nmem_align - 1) = omega arith in
      let n = size + (nmem_align - 1) in
      rw fits (
        omega (arith, div-add-mod n nmem_align, mod-lt n positive),
        omega (arith, div-add-mod n nmem_align, mod-lt n positive),
      )

Below-others :
    (c : Chunk) (i : ℕ) (ps : List Block) → c.block ≡ i → All (λ q. i ≢ q.id) ps → All (Below c) ps
Below-others c i [] e h = tt
Below-others c i (q ∷ ps) e h = (inl (λ same. h.0 (sym e ∙ same)), Below-others c i ps e h.1)

Owned-lt :
    (c : Chunk) (fresh : ℕ) (ps : List Block)
    → Owned c ps
    → All (λ p. p.id < fresh) ps
    → c.block < fresh
Owned-lt c fresh [] o h = absurd o
Owned-lt c fresh (p ∷ ps) (inl e) h = omega (arith, h.0)
Owned-lt c fresh (p ∷ ps) (inr o) h = Owned-lt c fresh ps o h.1

older : (fresh : ℕ) (ps : List Block) → All (λ p. p.id < fresh) ps → All (λ p. p.id < fresh + 1) ps
older fresh [] h = tt
older fresh (p ∷ ps) h = (omega (arith, h.0), older fresh ps h.1)

fresh_distinct :
    (fresh : ℕ) (ps : List Block) → All (λ p. p.id < fresh) ps → All (λ q. fresh ≢ q.id) ps
fresh_distinct fresh [] h = tt
fresh_distinct fresh (p ∷ ps) h = ((λ e. absurd (omega (arith, h.0))), fresh_distinct fresh ps h.1)

-- A new block in front holds no chunk.
held_behind :
    (fresh size : ℕ) (ps : List Block) (cs : List Chunk)
    → All (λ p. p.id < fresh) ps
    → All (IsHeldBy ps) cs
    → All (IsHeldBy (record { id = fresh; size = size; top = 0 } ∷ ps)) cs
held_behind fresh size ps [] o h = tt
held_behind fresh size ps (c ∷ cs) o h = (
  (inr (h.0).0, (inl (λ e. absurd (omega (arith, Owned-lt c fresh ps (h.0).0 o))), (h.0).1)),
  held_behind fresh size ps cs o h.1,
)

pub get_block-AreHeld :
    (fresh size : ℕ) (ps : List Block) (cs : List Chunk)
    → AreHeld fresh ps cs
    → AreHeld (fresh + 1) (record { id = fresh; size = size; top = 0 } ∷ ps) cs
get_block-AreHeld fresh size ps cs (d, o, h, a) = (
  (fresh_distinct fresh ps o, d),
  (omega arith, older fresh ps o),
  held_behind fresh size ps cs o h,
  a,
)

held_below_top :
    (p : Block) (ps : List Block) (cs : List Chunk) (more : ℕ)
    → All (IsHeldBy (p ∷ ps)) cs
    → All (IsHeldBy (record p { top = p.top + more } ∷ ps)) cs
held_below_top p ps [] more h = tt
held_below_top p ps (c ∷ cs) more h =
    (((h.0).0, (raise ((h.0).1).0, ((h.0).1).1)), held_below_top p ps cs more h.1)
  where
    raise : Below c p → Below c (record p { top = p.top + more })
    raise (inl n) = inl n
    raise (inr b) = inr (b.0, omega arith)

Apart-from_top :
    (p : Block) (ps : List Block) (cs : List Chunk) (size : ℕ)
    → All (IsHeldBy (p ∷ ps)) cs
    → All (Apart (record { block = p.id; offset = p.top; extent = size })) cs
Apart-from_top p ps [] size h = tt
Apart-from_top p ps (c ∷ cs) size h = (apart ((h.0).1).0, Apart-from_top p ps cs size h.1)
  where
    apart : Below c p → Apart (record { block = p.id; offset = p.top; extent = size }) c
    apart (inl n) = inl (λ e. n (sym e))
    apart (inr b) = inr (inr b.1)

-- A chunk at the top of the first block.
pub take_chunk-AreHeld :
    (fresh : ℕ) (p : Block) (ps : List Block) (cs : List Chunk) (size more : ℕ)
    → AreHeld fresh (p ∷ ps) cs
    → size + p.top ≤ p.size
    → size ≤ more
    → AreHeld fresh
        (record p { top = p.top + more } ∷ ps)
        (record { block = p.id; offset = p.top; extent = size } ∷ cs)
take_chunk-AreHeld fresh p ps cs size more (d, o, h, a) fits le = (
  d,
  o,
  (
    (
      inl refl,
      (
        inr (omega arith, omega arith),
        Below-others (record { block = p.id; offset = p.top; extent = size }) p.id ps refl d.0,
      ),
    ),
    held_below_top p ps cs more h,
  ),
  (Apart-from_top p ps cs size h, a),
)
