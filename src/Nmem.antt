-- ===== src/Nmem.antt =====
-- Nibble memory: src/nmem.c. A block of the heap is named by a number that no other block has; the
-- chunk that `nmem_malloc` returns is the block and the offset in it. The locks, the log and the
-- buffers' bytes are left out. A `size_t` has 64 bits; the counters are exact. NMEM_ALIGN is what the
-- platform's `offsetof` gives, and a parameter.
pub mod Chunks
pub mod Runs
use yaz.Prelude.{
  ℕ, zero, suc, ◌+◌, ◌-◌, ◌*◌, ◌/◌, ◌%◌, ◌^◌, Bool, true, false, [], ◌∷◌, List, ltb, if◌then◌else◌,
}

-- `struct nmem_block`
pub record Block : Type 0 where
  pub id : ℕ
  pub size : ℕ
  pub top : ℕ

-- `struct nmem_control`; the list is the chain of `blocks`.
pub record Nmem : Type 0 where
  pub total : ℕ
  pub blocks : List Block

-- The static counters, and the name for the next block.
pub record Globals : Type 0 where
  pub no_nmem_handles : ℕ
  pub no_nmem_blocks : ℕ
  pub nmem_allocated : ℕ
  pub fresh : ℕ

abbrev pub nmem_chunk : ℕ
nmem_chunk = 4096

unfoldable pub free_block : Block → Globals → Globals
free_block p g = record g {
  no_nmem_blocks = g.no_nmem_blocks - 1;
  nmem_allocated = g.nmem_allocated - p.size;
}

unfoldable pub block_size : ℕ → ℕ
block_size size = if ltb nmem_chunk size then size else nmem_chunk

unfoldable pub get_block : ℕ → Globals → Block × Globals
unfolding block_size
get_block size g = (
  record { id = g.fresh; size = block_size size; top = 0 },
  record g {
    no_nmem_blocks = g.no_nmem_blocks + 1;
    nmem_allocated = g.nmem_allocated + block_size size;
    fresh = g.fresh + 1;
  },
)

-- The loop of `nmem_reset`.
unfoldable pub free_blocks : List Block → Globals → Globals
unfolding free_block
free_blocks [] g = g
free_blocks (p ∷ ps) g = free_blocks ps (free_block p g)

unfoldable pub nmem_reset : Nmem → Globals → Nmem × Globals
unfolding free_blocks
nmem_reset n g = (record { total = 0; blocks = [] }, free_blocks n.blocks g)

unfoldable pub nmem_create : Globals → Nmem × Globals
nmem_create g =
    (record { total = 0; blocks = [] }, record g { no_nmem_handles = g.no_nmem_handles + 1 })

unfoldable pub nmem_destroy : Nmem → Globals → Globals
unfolding free_blocks
nmem_destroy n g =
    let g1 = free_blocks n.blocks g in record g1 { no_nmem_handles = g1.no_nmem_handles - 1 }

-- The loop of `nmem_transfer`: each block goes in front of the destination's.
unfoldable pub move_blocks : List Block → List Block → List Block
move_blocks [] dst = dst
move_blocks (t ∷ src) dst = move_blocks src (t ∷ dst)

-- The destination and the source.
unfoldable pub nmem_transfer : Nmem → Nmem → Nmem × Nmem
unfolding move_blocks
nmem_transfer dst src = (
  record { total = (dst.total + src.total) % 2 ^ 64; blocks = move_blocks src.blocks dst.blocks },
  record { total = 0; blocks = [] },
)

unfoldable pub nmem_total : Nmem → ℕ
nmem_total n = n.total

-- What `nmem_malloc` returns: a pointer into a block.
pub record Pointer : Type 0 where
  pub block : ℕ
  pub offset : ℕ

module _ (nmem_align : ℕ) where
  -- `(size + (NMEM_ALIGN - 1)) & ~(NMEM_ALIGN - 1)`, for a power of two
  abbrev pub align_up : ℕ → ℕ
  align_up size = (size + (nmem_align - 1)) % 2 ^ 64 / nmem_align * nmem_align

  -- A chunk at the top of the first block.
  unfoldable pub take_chunk : ℕ → ℕ → Block → List Block → Globals → Pointer × Nmem × Globals
  take_chunk size total p ps g = (
    record { block = p.id; offset = p.top },
    record {
      total = (total + size) % 2 ^ 64;
      blocks = record p { top = (p.top + align_up size) % 2 ^ 64 } ∷ ps;
    },
    g,
  )

  unfoldable pub malloc_in : ℕ → ℕ → List Block → Globals → Pointer × Nmem × Globals
  unfolding take_chunk get_block
  malloc_in size total [] g = let (p, g1) = get_block size g in take_chunk size total p [] g1
  malloc_in size total (p ∷ ps) g =
      let new : Pointer × Nmem × Globals =
        let (q, g1) = get_block size g in take_chunk size total q (p ∷ ps) g1 in
      if ltb p.size ((size + p.top) % 2 ^ 64) then new else take_chunk size total p ps g

  unfoldable pub nmem_malloc : Nmem → ℕ → Globals → Pointer × Nmem × Globals
  unfolding malloc_in
  nmem_malloc n size g = malloc_in size n.total n.blocks g
