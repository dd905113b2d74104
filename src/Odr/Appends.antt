-- ===== src/Odr/Appends.antt =====
-- What the encoders append to the output of src/odr_mem.c.
use yaz.Prelude.{
  ℕ, ◌+◌, ◌^◌, ◌<◌, ◌≤◌, ◌≡◌, refl, ap, ◌∙◌, arith, Bool, true, [], ◌∷◌, ◌++◌, Bytes, take, length,
  length-append, length-take, append_assoc,
}
use yaz.Odr.{Odr, odr_putc, odr_write, odr_seek, seek_set, seek_end, on_ok}
use yaz.Odr.Buffer.{
  poke-poke_all_first, length-poke_all, take-poke_all, Returns, Puts, odr_putc-Puts, odr_write-Puts,
  odr_seek-Moves, finish_Returns,
}

-- What has been written so far.
abbrev pub contents : Odr → Bytes
contents o = take o.top o.buf

-- The stream stands behind all that it has written, and its buffer may grow.
pub record AtEnd (o : Odr) : Type 0 where
  pub grows : o.can_grow ≡ true
  pub at_top : o.pos ≡ o.top
  pub written : o.top ≤ length o.buf

-- `res` returned `r`, appended `cs`, and changed nothing else that a caller sees.
pub record Appends {ℓ} {A : Type ℓ} (r : A) (cs : Bytes) (o : Odr) (res : Odr × A) : Type ℓ where
  pub result : res.1 ≡ r
  pub appended : contents res.0 ≡ contents o ++ cs
  pub at_end : AtEnd res.0
  pub bp : res.0.bp ≡ o.bp
  pub direction : res.0.direction ≡ o.direction
  pub error : res.0.error ≡ o.error
  pub error_id : res.0.error_id ≡ o.error_id

pub Returns-Appends {ℓ} :
    {A : Type ℓ} (r : A) (cs : Bytes) (o : Odr) (res : Odr × A)
    → AtEnd o
    → Returns r (o.pos + length cs) cs o res
    → Appends r cs o res
Returns-Appends r cs o res e w = record {
  result = w.result;
  appended =
      let top : res.0.top ≡ o.top + length cs = omega (arith, w.top, e.at_top) in
      rw (top, w.buf, e.at_top) (take-poke_all cs o.top o.buf e.written);
  at_end = record {
    grows = w.can_grow ∙ e.grows;
    at_top = omega (arith, w.pos, w.top, e.at_top);
    written = rw w.buf (
        omega (
          arith,
          w.top,
          e.at_top,
          e.written,
          length-poke_all cs o.pos o.buf (omega (arith, e.at_top, e.written)),
        ));
  };
  bp = w.bp;
  direction = w.direction;
  error = w.error;
  error_id = w.error_id;
}

-- One byte, and then the result.
pub putc_then-Appends {ℓ} :
    {A : Type ℓ} (c : ℕ) (fail r : A) (o : Odr)
    → AtEnd o
    → o.pos < 2 ^ 30
    → Appends r (c ∷ []) o (on_ok (odr_putc c o) fail (λ p. (p, r)))
putc_then-Appends c fail r o e h =
    Returns-Appends r (c ∷ []) o (on_ok (odr_putc c o) fail (λ p. (p, r))) e
      (finish_Returns fail r (c ∷ []) o (odr_putc c o) e.grows (odr_putc-Puts c o e.grows h))

pub Appends-trans {ℓ κ} :
    {A : Type ℓ} {B : Type κ} (q : A) (r : B) (cs ds : Bytes) (o : Odr) (m : Odr × A)
    (res : Odr × B)
    → Appends q cs o m
    → Appends r ds m.0 res
    → Appends r (cs ++ ds) o res
Appends-trans q r cs ds o m res w v = record {
  result = v.result;
  appended = v.appended ∙ ap (λ xs. xs ++ ds) w.appended ∙ append_assoc (contents o) cs ds;
  at_end = v.at_end;
  bp = v.bp ∙ w.bp;
  direction = v.direction ∙ w.direction;
  error = v.error ∙ w.error;
  error_id = v.error_id ∙ w.error_id;
}

pub odr_write-Appends :
    (cs : Bytes) (o : Odr)
    → AtEnd o
    → o.pos + length cs < 2 ^ 30
    → Appends true cs o (odr_write cs o)
odr_write-Appends cs o e h =
    Returns-Appends true cs o (odr_write cs o) e (odr_write-Puts cs o e.grows h)

-- How far the position moved.
pub Appends-pos {ℓ} :
    {A : Type ℓ} (r : A) (cs : Bytes) (o : Odr) (res : Odr × A)
    → AtEnd o
    → Appends r cs o res
    → (res.0).pos ≡ o.pos + length cs
Appends-pos r cs o res e w = omega (
  arith,
  ap length w.appended,
  length-append (contents o) cs,
  length-take o.top o.buf,
  length-take (res.0).top (res.0).buf,
  e.at_top,
  e.written,
  w.at_end.at_top,
  w.at_end.written,
)

-- The same effect with another result.
pub Appends-with {ℓ κ} :
    {A : Type ℓ} {B : Type κ} (q : A) (r : B) (cs : Bytes) (o : Odr) (m : Odr × A)
    → Appends q cs o m
    → Appends r cs o (m.0, r)
Appends-with q r cs o m w = record {
  result = refl;
  appended = w.appended;
  at_end = w.at_end;
  bp = w.bp;
  direction = w.direction;
  error = w.error;
  error_id = w.error_id;
}

-- Going back to the first byte of what was written, storing `c` there, and moving to the end.
pub patch_first {ℓ} :
    {A : Type ℓ} (r : A) (c d : ℕ) (cs : Bytes) (o : Odr) (m : Odr × Bool)
    → o.can_grow ≡ true
    → Puts (d ∷ cs) o m
    → (m.0).top < 2 ^ 30
    → let put = odr_putc c (odr_seek seek_set o.pos m.0).0 in
      (put.1 ≡ true) × Returns r (m.0).top (c ∷ cs) o ((odr_seek seek_end 0 put.0).0, r)
patch_first r c d cs o m g w h =
    let q = m.0 in
    let there = odr_seek-Moves seek_set o.pos q (w.can_grow ∙ g) (omega (arith, w.top)) in
    let back = (odr_seek seek_set o.pos q).0 in
    let put =
      odr_putc-Puts c back (there.can_grow ∙ w.can_grow ∙ g) (omega (arith, there.pos, w.top)) in
    let p = (odr_putc c back).0 in
    let final =
      odr_seek-Moves seek_end 0 p (put.can_grow ∙ there.can_grow ∙ w.can_grow ∙ g)
        (omega (arith, put.top, there.top, there.pos, w.top)) in
    (
      put.result,
      record {
        result = refl;
        pos = omega (arith, final.pos, put.top, there.top, there.pos, w.top);
        buf =
            final.buf
            ∙ put.buf
            ∙ rw (there.pos, there.buf, w.buf) (poke-poke_all_first o.pos c d cs o.buf);
        top = omega (arith, final.top, put.top, there.top, there.pos, w.top);
        can_grow = final.can_grow ∙ put.can_grow ∙ there.can_grow ∙ w.can_grow;
        bp = final.bp ∙ put.bp ∙ there.bp ∙ w.bp;
        direction = final.direction ∙ put.direction ∙ there.direction ∙ w.direction;
        error = final.error ∙ put.error ∙ there.error ∙ w.error;
        error_id = final.error_id ∙ put.error_id ∙ there.error_id ∙ w.error_id;
      },
    )
