-- ===== src/Utf8/Bom.antt =====
-- The byte order mark at the start of the input: `init_utf8` of src/utf8.c.
use yaz.Prelude.{ℕ, ◌≡◌, ◌≢◌, ◌∷◌, Bytes, some, arith}
use yaz.Utf8.{init_utf8}

-- `init_utf8` skips none of the bytes EF BB BF, the byte order mark, and it skips three bytes EF, x, BF
-- with any other x between.
pub init_utf8_inverted :
    (x : ℕ) (rest : Bytes)
    → x ≢ 0xbb
    → (init_utf8 (0xef ∷ 0xbb ∷ 0xbf ∷ rest) ≡ some 0)
      × (init_utf8 (0xef ∷ x ∷ 0xbf ∷ rest) ≡ some 3)
unfolding init_utf8
init_utf8_inverted x rest h = (ground arith, ground arith)
