-- ===== src/Ber/Constructed/Patch.antt =====
-- The byte that `odr_constructed_end` of src/odr_cons.c puts into the room left for a length.
use yaz.Prelude.{
  ℕ, zero, suc, ◌+◌, ◌^◌, ◌≤◌, ◌<◌, ◌≡◌, ◌∙◌, ap, refl, Bool, true, [], ◌∷◌, ◌++◌, Bytes, length,
  length-append, take, length-take, arith,
}
use yaz.Odr.{Odr, poke, odr_putc, odr_seek, seek_set, seek_end}
use yaz.Odr.Buffer.{odr_putc-Puts, odr_seek-Moves, length-poke_all}
use yaz.Odr.Appends.{contents, AtEnd}

pub take-poke_inside :
    (i c n : ℕ) (xs : Bytes) → i < n → n ≤ length xs → take n (poke i c xs) ≡ poke i c (take n xs)
take-poke_inside i c zero xs h k = absurd (omega arith)
take-poke_inside i c (suc n) [] h k = absurd (omega arith)
take-poke_inside zero c (suc n) (x ∷ xs) h k = refl
take-poke_inside (suc i) c (suc n) (x ∷ xs) h k =
    ap (◌∷◌ x) (take-poke_inside i c n xs (omega arith) (omega arith))

pub poke-append : (pre cs : Bytes) (c d : ℕ) → poke (length pre) c (pre ++ d ∷ cs) ≡ pre ++ c ∷ cs
poke-append [] cs c d = refl
poke-append (x ∷ pre) cs c d = ap (◌∷◌ x) (poke-append pre cs c d)

-- The stream behind the byte that went back into the room left for it.
pub record Patched (c : ℕ) (pre cs : Bytes) (o : Odr) (put : Odr × Bool) : Type 0 where
  pub ok : put.1 ≡ true
  pub patched : contents ((odr_seek seek_end 0 put.0).0) ≡ pre ++ c ∷ cs
  pub at_end : AtEnd ((odr_seek seek_end 0 put.0).0)
  pub error : (odr_seek seek_end 0 put.0).0.error ≡ o.error
  pub pos : (odr_seek seek_end 0 put.0).0.pos ≡ o.pos
  pub direction : (odr_seek seek_end 0 put.0).0.direction ≡ o.direction

pub patch :
    (c : ℕ) (pre cs : Bytes) (o : Odr)
    → AtEnd o
    → o.pos < 2 ^ 30
    → contents o ≡ pre ++ 0 ∷ cs
    → Patched c pre cs o (odr_putc c (odr_seek seek_set (length pre) o).0)
patch c pre cs o e b h =
    let back = (odr_seek seek_set (length pre) o).0 in
    let size : o.top ≡ length pre + suc (length cs) =
      omega (arith, ap length h, length-append pre (0 ∷ cs), length-take o.top o.buf, e.written) in
    let inside : length pre < 2 ^ 30 = omega (arith, size, e.at_top) in
    let there = odr_seek-Moves seek_set (length pre) o e.grows inside in
    let put = odr_putc-Puts c back (there.can_grow ∙ e.grows) (rw there.pos inside) in
    let p = (odr_putc c back).0 in
    let final =
      odr_seek-Moves seek_end 0 p (put.can_grow ∙ there.can_grow ∙ e.grows)
        (omega (arith, put.top, there.top, there.pos, size, e.at_top)) in
    let last = (odr_seek seek_end 0 p).0 in
    let top : last.top ≡ o.top = omega (arith, final.top, put.top, there.top, there.pos, size) in
    let buf : last.buf ≡ poke (length pre) c o.buf =
      final.buf ∙ put.buf ∙ rw (there.pos, there.buf) refl in
    record {
      ok = put.result;
      patched =
          rw (top, buf)
            (take-poke_inside (length pre) c o.top o.buf (omega (arith, size)) e.written)
          ∙ ap (poke (length pre) c) h
          ∙ poke-append pre cs c 0;
      at_end = record {
        grows = final.can_grow ∙ put.can_grow ∙ there.can_grow ∙ e.grows;
        at_top = omega (arith, final.pos, final.top);
        written = rw buf (
            omega (
              arith,
              top,
              e.written,
              size,
              length-poke_all (c ∷ []) (length pre) o.buf (omega (arith, size, e.written)),
            ));
      };
      error = final.error ∙ put.error ∙ there.error;
      pos = omega (arith, final.pos, final.top, top, e.at_top);
      direction = final.direction ∙ put.direction ∙ there.direction;
    }
