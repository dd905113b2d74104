-- ===== src/Nmem/Runs.antt =====
-- Any sequence of calls on one handle of src/nmem.c.
use yaz.Prelude.{
  ℕ, ◌+◌, ◌%◌, ◌^◌, All, ◌≤◌, ◌<◌, ◌≡◌, ◌∙◌, sym, subst, refl, Bool, true, false, [], ◌∷◌, List,
  length, ltb, if◌then◌else◌, arith,
}
use yaz.Nmem.{
  Block, Nmem, Globals, Pointer, free_block, block_size, get_block, free_blocks, nmem_reset,
  nmem_create, nmem_destroy, align_up, take_chunk, malloc_in, nmem_malloc,
}
use yaz.Nmem.Chunks.{Chunk, AreHeld, align_up_bounds, take_chunk-AreHeld, get_block-AreHeld}

block_size_le : (size : ℕ) → size ≤ block_size size
unfolding block_size
block_size_le size = ground arith

-- The handle, the counters, and the chunks handed out since the last reset.
pub record State : Type 0 where
  pub memory : Nmem
  pub globals : Globals
  pub chunks : List Chunk

pub data Call : Type 0 where
  malloc : ℕ → Call
  reset : Call

abbrev pub hand_out : ℕ → List Chunk → Pointer × Nmem × Globals → State
hand_out size cs (r, n, g) = record {
  memory = n;
  globals = g;
  chunks = record { block = r.block; offset = r.offset; extent = size } ∷ cs;
}

abbrev pub forget : Nmem × Globals → State
forget (n, g) = record { memory = n; globals = g; chunks = [] }

abbrev pub call : ℕ → Call → State → State
call a (malloc size) s = hand_out size s.chunks (nmem_malloc a s.memory size s.globals)
call a reset s = forget (nmem_reset s.memory s.globals)

abbrev pub calls : ℕ → List Call → State → State
calls a [] s = s
calls a (c ∷ cs) s = calls a cs (call a c s)

abbrev pub created : Globals → State
created g = forget (nmem_create g)

abbrev pub IsSound : State → Type 0
IsSound s = AreHeld s.globals.fresh s.memory.blocks s.chunks

-- The block's size and top are far from the end of a `size_t`.
abbrev IsSmall : ℕ → Block → Type 0
IsSmall a p = (p.size ≤ 2 ^ 62) × (p.top ≤ p.size + a)

abbrev IsWell : ℕ → State → Type 0
IsWell a s = IsSound s × All (IsSmall a) s.memory.blocks

-- No request exceeds 2^62 bytes.
abbrev pub IsModest : Call → Type 0
IsModest (malloc size) = size ≤ 2 ^ 62
IsModest reset = Unit

-- The blocks of other handles count `k` and have `b` bytes; the counters count those and these.
abbrev pub sizes : List Block → ℕ
sizes [] = 0
sizes (p ∷ ps) = p.size + sizes ps

abbrev pub Counts : ℕ → ℕ → ℕ → State → Type 0
Counts h k b s =
    (s.globals.no_nmem_handles ≡ h)
    × (s.globals.no_nmem_blocks ≡ k + length s.memory.blocks)
    × (s.globals.nmem_allocated ≡ b + sizes s.memory.blocks)

either :
    {A : Type 0} (P : A → Type 0) (b : Bool) {x y : A}
    → (b ≡ true → P x)
    → (b ≡ false → P y)
    → P (if b then x else y)
either P true f g = f refl
either P false f g = g refl

module _ (a : ℕ) (positive : 0 < a) where
  -- The first block's top has been raised to `top` for a chunk.
  abbrev IsTaken : ℕ → ℕ → Block → List Block → List Chunk → ℕ → Type 0
  IsTaken fresh size p ps cs top =
      AreHeld fresh (record p { top = top } ∷ ps)
        (record { block = p.id; offset = p.top; extent = size } ∷ cs)
      × All (IsSmall a) (record p { top = top } ∷ ps)

  -- A new chunk of the first block, whose top does not wrap.
  take_chunk-IsSound :
      (fresh size : ℕ) (p : Block) (ps : List Block) (cs : List Chunk)
      → IsSmall a p
      → All (IsSmall a) ps
      → size ≤ 2 ^ 62
      → size + p.top ≤ p.size
      → a ≤ 2 ^ 32
      → AreHeld fresh (p ∷ ps) cs
      → IsTaken fresh size p ps cs ((p.top + align_up a size) % 2 ^ 64)
  take_chunk-IsSound fresh size p ps cs s t m fits k h =
      let up = align_up_bounds a positive size (omega arith) in
      let same : (p.top + align_up a size) % 2 ^ 64 ≡ p.top + align_up a size =
        omega (arith, up, s) in
      subst (IsTaken fresh size p ps cs) (sym same) (
        take_chunk-AreHeld fresh p ps cs size (align_up a size) h fits up.0,
        ((s.0, omega (arith, up, s)), t),
      )

  malloc_in-IsSound :
      (size total : ℕ) (ps : List Block) (g : Globals) (cs : List Chunk)
      → a ≤ 2 ^ 32
      → size ≤ 2 ^ 62
      → All (IsSmall a) ps
      → AreHeld g.fresh ps cs
      → IsWell a (hand_out size cs (malloc_in a size total ps g))
  unfolding malloc_in take_chunk get_block block_size
  malloc_in-IsSound size total [] g cs k m t h =
      take_chunk-IsSound (g.fresh + 1) size
        (record { id = g.fresh; size = block_size size; top = 0 }) [] cs (ground arith, omega arith)
        tt m (omega (arith, block_size_le size)) k
        (get_block-AreHeld g.fresh (block_size size) [] cs h)
  malloc_in-IsSound size total (p ∷ ps) g cs k m t h =
      either (λ r. IsWell a (hand_out size cs r)) (ltb p.size ((size + p.top) % 2 ^ 64))
        (λ e.
          take_chunk-IsSound (g.fresh + 1) size
            (record { id = g.fresh; size = block_size size; top = 0 }) (p ∷ ps) cs
            (ground arith, omega arith) t m (omega (arith, block_size_le size)) k
            (get_block-AreHeld g.fresh (block_size size) (p ∷ ps) cs h))
        (λ e. take_chunk-IsSound g.fresh size p ps cs t.0 t.1 m (ground (arith, t.0)) k h)

  call-IsWell :
      (c : Call) (s : State) → a ≤ 2 ^ 32 → IsModest c → IsWell a s → IsWell a (call a c s)
  unfolding nmem_malloc nmem_reset
  call-IsWell (malloc size) s k m h =
      malloc_in-IsSound size s.memory.total s.memory.blocks s.globals s.chunks k m h.1 h.0
  call-IsWell reset s k m h = ((tt, tt, tt, tt), tt)

  -- With a positive alignment up to 2^32, from a new handle on and after any calls of `nmem_malloc`,
  -- for at most 2^62 bytes each, and of `nmem_reset`, the chunks handed out since the last reset lie
  -- in distinct blocks of the handle, within their bytes, and no two of them overlap.
  pub calls-IsSound :
      (cs : List Call) (g : Globals)
      → a ≤ 2 ^ 32
      → All IsModest cs
      → IsSound (calls a cs (created g))
  unfolding nmem_create
  calls-IsSound cs g k m = (go cs (created g) m ((tt, tt, tt, tt), tt)).0
    where
      go : (cs : List Call) (s : State) → All IsModest cs → IsWell a s → IsWell a (calls a cs s)
      go [] s m h = h
      go (c ∷ cs) s m h = go cs (call a c s) m.1 (call-IsWell c s k m.0 h)

  malloc_in-Counts :
      (h k b size total : ℕ) (ps : List Block) (g : Globals) (cs : List Chunk)
      → (g.no_nmem_handles ≡ h)
        × (g.no_nmem_blocks ≡ k + length ps)
        × (g.nmem_allocated ≡ b + sizes ps)
      → Counts h k b (hand_out size cs (malloc_in a size total ps g))
  unfolding malloc_in take_chunk get_block
  malloc_in-Counts h k b size total [] g cs c = (c.0, omega arith, omega arith)
  malloc_in-Counts h k b size total (p ∷ ps) g cs c =
      either (λ r. Counts h k b (hand_out size cs r)) (ltb p.size ((size + p.top) % 2 ^ 64))
        (λ e. (c.0, omega arith, omega arith)) (λ e. c)

  free_blocks_lem :
      (k b : ℕ) (ps : List Block) (g : Globals)
      → g.no_nmem_blocks ≡ k + length ps
      → g.nmem_allocated ≡ b + sizes ps
      → ((free_blocks ps g).no_nmem_handles ≡ g.no_nmem_handles)
        × ((free_blocks ps g).no_nmem_blocks ≡ k)
        × ((free_blocks ps g).nmem_allocated ≡ b)
  unfolding free_blocks free_block
  free_blocks_lem k b [] g n m = (refl, omega arith, omega arith)
  free_blocks_lem k b (p ∷ ps) g n m =
      free_blocks_lem k b ps (free_block p g) (omega arith) (omega arith)

  call-Counts : (h k b : ℕ) (c : Call) (s : State) → Counts h k b s → Counts h k b (call a c s)
  unfolding nmem_malloc nmem_reset
  call-Counts h k b (malloc size) s c =
      malloc_in-Counts h k b size s.memory.total s.memory.blocks s.globals s.chunks c
  call-Counts h k b reset s c =
      let (e, f, g) = free_blocks_lem k b s.memory.blocks s.globals c.1 c.2 in
      (e ∙ c.0, omega arith, omega arith)

  -- With a positive alignment, a handle that is created, used by any calls of `nmem_malloc` and
  -- `nmem_reset` and destroyed leaves the counters of handles, blocks and bytes as they were.
  pub destroy-calls :
      (cs : List Call) (g : Globals)
      → (let s = calls a cs (created g) in
          let g1 = nmem_destroy s.memory s.globals in
          (g1.no_nmem_handles ≡ g.no_nmem_handles)
          × (g1.no_nmem_blocks ≡ g.no_nmem_blocks)
          × (g1.nmem_allocated ≡ g.nmem_allocated))
  unfolding nmem_create nmem_destroy
  destroy-calls cs g =
      let (n, m, o) = go cs (created g) (refl, omega arith, omega arith) in
      let s = calls a cs (created g) in
      let (x, y, z) =
        free_blocks_lem g.no_nmem_blocks g.nmem_allocated s.memory.blocks s.globals m o in
      (omega arith, y, z)
    where
      go :
          (cs : List Call) (s : State)
          → Counts (g.no_nmem_handles + 1) g.no_nmem_blocks g.nmem_allocated s
          → Counts (g.no_nmem_handles + 1) g.no_nmem_blocks g.nmem_allocated (calls a cs s)
      go [] s h = h
      go (c ∷ cs) s h =
          go cs (call a c s)
            (call-Counts (g.no_nmem_handles + 1) g.no_nmem_blocks g.nmem_allocated c s h)
