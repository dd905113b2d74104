-- ===== src/Odr/Buffer.antt =====
-- The output buffer of src/odr_mem.c as the list of the bytes written to it.
use Prim.Native.Nat.{max}
use yaz.Prelude.{
  ℕ, zero, suc, ◌+◌, ◌^◌, ◌≤◌, ◌<◌, ◌≡◌, refl, ap, ◌∙◌, arith, Bool, true, false, [], ◌∷◌, ◌++◌,
  Bytes, take, length, length-append, append-nil, append_assoc,
}
use mathlib.Core.Path.{subst}
use yaz.Odr.{
  Odr, poke, poke_all, int_max, odr_grow_block, odr_seterror, odr_putc, odr_write, odr_seek, Whence,
  target, on_ok,
}

poke_same : (i c d : ℕ) (xs : Bytes) → poke i c (poke i d xs) ≡ poke i c xs
poke_same zero c d [] = refl
poke_same zero c d (x ∷ xs) = refl
poke_same (suc i) c d [] = ap (◌∷◌ 0) (poke_same i c d [])
poke_same (suc i) c d (x ∷ xs) = ap (◌∷◌ x) (poke_same i c d xs)

poke_comm : (i j c d : ℕ) (xs : Bytes) → i < j → poke i c (poke j d xs) ≡ poke j d (poke i c xs)
poke_comm i zero c d xs h = absurd (omega arith)
poke_comm zero (suc j) c d [] h = refl
poke_comm zero (suc j) c d (x ∷ xs) h = refl
poke_comm (suc i) (suc j) c d [] h = ap (◌∷◌ 0) (poke_comm i j c d [] (omega arith))
poke_comm (suc i) (suc j) c d (x ∷ xs) h = ap (◌∷◌ x) (poke_comm i j c d xs (omega arith))

poke-poke_all :
    (cs : Bytes) (i j c : ℕ) (xs : Bytes)
    → i < j
    → poke i c (poke_all j cs xs) ≡ poke_all j cs (poke i c xs)
poke-poke_all [] i j c xs h = refl
poke-poke_all (d ∷ cs) i j c xs h =
    poke-poke_all cs i (suc j) c (poke j d xs) (omega arith)
    ∙ ap (poke_all (suc j) cs) (poke_comm i j c d xs h)

-- A store over the first byte of what was just written.
pub poke-poke_all_first :
    (i c d : ℕ) (cs xs : Bytes) → poke i c (poke_all i (d ∷ cs) xs) ≡ poke_all i (c ∷ cs) xs
poke-poke_all_first i c d cs xs =
    poke-poke_all cs i (suc i) c (poke i d xs) (omega arith)
    ∙ ap (poke_all (suc i) cs) (poke_same i c d xs)

poke_all-append :
    (cs ds : Bytes) (i : ℕ) (xs : Bytes)
    → poke_all i (cs ++ ds) xs ≡ poke_all (i + length cs) ds (poke_all i cs xs)
poke_all-append [] ds i xs = let e : i + 0 ≡ i = omega arith in rw e
poke_all-append (c ∷ cs) ds i xs =
    let e : suc i + length cs ≡ i + suc (length cs) = omega arith in
    poke_all-append cs ds (suc i) (poke i c xs) ∙ rw e

take-poke :
    (i c : ℕ) (xs : Bytes) → i ≤ length xs → take (suc i) (poke i c xs) ≡ take i xs ++ c ∷ []
take-poke zero c [] h = refl
take-poke zero c (x ∷ xs) h = refl
take-poke (suc i) c [] h = absurd (omega arith)
take-poke (suc i) c (x ∷ xs) h = ap (◌∷◌ x) (take-poke i c xs (omega arith))

length-poke : (i c : ℕ) (xs : Bytes) → length (poke i c xs) ≡ max (suc i) (length xs)
length-poke zero c [] = omega arith
length-poke zero c (x ∷ xs) = omega arith
length-poke (suc i) c [] = omega (arith, length-poke i c [])
length-poke (suc i) c (x ∷ xs) = omega (arith, length-poke i c xs)

pub length-poke_all :
    (cs : Bytes) (i : ℕ) (xs : Bytes)
    → i ≤ length xs
    → length (poke_all i cs xs) ≡ max (i + length cs) (length xs)
length-poke_all [] i xs h = omega arith
length-poke_all (c ∷ cs) i xs h = omega (
  arith,
  length-poke i c xs,
  length-poke_all cs (suc i) (poke i c xs) (omega (arith, length-poke i c xs)),
)

-- What stands below the position stays, and the written bytes follow it.
pub take-poke_all :
    (cs : Bytes) (i : ℕ) (xs : Bytes)
    → i ≤ length xs
    → take (i + length cs) (poke_all i cs xs) ≡ take i xs ++ cs
take-poke_all [] i xs h = let e : i + 0 ≡ i = omega arith in rw (e, append-nil)
take-poke_all (c ∷ cs) i xs h =
    let e : i + suc (length cs) ≡ suc i + length cs = omega arith in
    rw e (
      take-poke_all cs (suc i) (poke i c xs) (omega (arith, length-poke i c xs))
      ∙ ap (λ ys. ys ++ cs) (take-poke i c xs h)
      ∙ append_assoc (take i xs) (c ∷ []) cs)

-- `res` returned `r`, and wrote `cs` at the position of `o`; the position is then `p`.
pub record Returns {ℓ} {A : Type ℓ} (r : A) (p : ℕ) (cs : Bytes) (o : Odr) (res : Odr × A)
    : Type ℓ where
  pub result : res.1 ≡ r
  pub pos : res.0.pos ≡ p
  pub buf : res.0.buf ≡ poke_all o.pos cs o.buf
  pub top : res.0.top ≡ max o.top (o.pos + length cs)
  pub can_grow : res.0.can_grow ≡ o.can_grow
  pub bp : res.0.bp ≡ o.bp
  pub direction : res.0.direction ≡ o.direction
  pub error : res.0.error ≡ o.error
  pub error_id : res.0.error_id ≡ o.error_id

-- A write that succeeds leaves the position behind the bytes.
abbrev pub Puts : Bytes → Odr → Odr × Bool → Type 0
Puts cs o res = Returns true (o.pos + length cs) cs o res

pub odr_putc-Puts :
    (c : ℕ) (o : Odr) → o.can_grow ≡ true → o.pos < 2 ^ 30 → Puts (c ∷ []) o (odr_putc c o)
unfolding odr_putc odr_grow_block
odr_putc-Puts c o g h = ground arith

pub odr_write-Puts :
    (cs : Bytes) (o : Odr)
    → o.can_grow ≡ true
    → o.pos + length cs < 2 ^ 30
    → Puts cs o (odr_write cs o)
unfolding odr_write odr_grow_block
odr_write-Puts cs o g h = ground arith

-- The position lies in the buffer, and the position behind `n` more bytes is below 2^30. A buffer grows
-- only to hold its last position, and to at most twice that or 1024 bytes, so that its size stays an
-- `int`.
abbrev pub HasRoom : ℕ → Odr → Type 0
HasRoom n o = (o.pos ≤ o.size) × (o.size ≤ int_max) × (o.pos + n < 2 ^ 30)

odr_putc-HasRoom : (c n : ℕ) (o : Odr) → HasRoom (1 + n) o → HasRoom n (odr_putc c o).0
unfolding odr_putc odr_grow_block
odr_putc-HasRoom c n o h = ground arith

odr_write-HasRoom :
    (cs : Bytes) (n : ℕ) (o : Odr) → HasRoom (length cs + n) o → HasRoom n (odr_write cs o).0
unfolding odr_write odr_grow_block odr_seterror
odr_write-HasRoom cs n o h = ground arith

odr_seek-HasRoom :
    (w : Whence) (offset n : ℕ) (o : Odr)
    → HasRoom 0 o
    → target w offset o + n < 2 ^ 30
    → HasRoom n (odr_seek w offset o).0
unfolding odr_seek odr_grow_block odr_seterror
odr_seek-HasRoom w offset n o h k = ground arith

pub on_ok-true {ℓ} :
    {A : Type ℓ} (m : Odr × Bool) (r : A) (k : Odr → Odr × A) → m.1 ≡ true → on_ok m r k ≡ k m.0
unfolding on_ok
on_ok-true (o, true) r k h = refl
on_ok-true (o, false) r k h = cc

-- A write, and what is done behind it.
pub Returns-trans {ℓ} :
    {A : Type ℓ} (r : A) (cs ds : Bytes) (p : ℕ) (o : Odr) (m : Odr × Bool) (res : Odr × A)
    → Puts cs o m
    → Returns r p ds m.0 res
    → Returns r p (cs ++ ds) o res
Returns-trans r cs ds p o m res w v = record {
  result = v.result;
  pos = v.pos;
  buf = v.buf ∙ rw (w.pos, w.buf, poke_all-append);
  top = omega (arith, v.top, w.top, w.pos, length-append cs ds);
  can_grow = v.can_grow ∙ w.can_grow;
  bp = v.bp ∙ w.bp;
  direction = v.direction ∙ w.direction;
  error = v.error ∙ w.error;
  error_id = v.error_id ∙ w.error_id;
}

pub on_ok-Returns {ℓ} :
    {A : Type ℓ} (fail r : A) (k : Odr → Odr × A) (cs ds : Bytes) (p : ℕ) (o : Odr) (m : Odr × Bool)
    → Puts cs o m
    → Returns r p ds m.0 (k m.0)
    → Returns r p (cs ++ ds) o (on_ok m fail k)
on_ok-Returns fail r k cs ds p o m w v =
    rw (on_ok-true m fail k w.result) (Returns-trans r cs ds p o m (k m.0) w v)

-- Nothing is written.
pub Returns-nil {ℓ} : {A : Type ℓ} (r : A) (o : Odr) → o.pos ≤ o.top → Returns r o.pos [] o (o, r)
Returns-nil r o h = ground arith

-- `odr_seek` in a buffer that may grow moves the position and changes nothing else but the size.
pub record Moves (to : ℕ) (o p : Odr) : Type 0 where
  pub pos : p.pos ≡ to
  pub buf : p.buf ≡ o.buf
  pub top : p.top ≡ o.top
  pub can_grow : p.can_grow ≡ o.can_grow
  pub bp : p.bp ≡ o.bp
  pub direction : p.direction ≡ o.direction
  pub error : p.error ≡ o.error
  pub error_id : p.error_id ≡ o.error_id

pub odr_seek-Moves :
    (w : Whence) (offset : ℕ) (o : Odr)
    → o.can_grow ≡ true
    → target w offset o < 2 ^ 30
    → Moves (target w offset o) o (odr_seek w offset o).0
unfolding odr_seek odr_grow_block
odr_seek-Moves w offset o g h = ground arith

-- The same, where all that the later writes need of the stream between is its position and its top.
pub then_Returns {ℓ} :
    {A : Type ℓ} (fail r : A) (k : Odr → Odr × A) (cs ds : Bytes) (p : ℕ) (o : Odr) (m : Odr × Bool)
    → o.can_grow ≡ true
    → Puts cs o m
    → ((q : Odr)
        → q.can_grow ≡ true
        → q.pos ≡ o.pos + length cs
        → q.top ≡ max o.top (o.pos + length cs)
        → Returns r p ds q (k q))
    → Returns r p (cs ++ ds) o (on_ok m fail k)
then_Returns fail r k cs ds p o m g w next =
    on_ok-Returns fail r k cs ds p o m w (next m.0 (w.can_grow ∙ g) w.pos w.top)

-- One write, and then the result.
pub finish_Returns {ℓ} :
    {A : Type ℓ} (fail r : A) (cs : Bytes) (o : Odr) (m : Odr × Bool)
    → o.can_grow ≡ true
    → Puts cs o m
    → Returns r (o.pos + length cs) cs o (on_ok m fail (λ p. (p, r)))
finish_Returns fail r cs o m g w =
    let res = on_ok m fail (λ p. (p, r)) in
    subst (λ z. Returns r (o.pos + length cs) z o res) (append-nil cs)
      (then_Returns fail r (λ p. (p, r)) cs [] (o.pos + length cs) o m g w
        λ q gq pq tq. rw (← pq) (Returns-nil r q (omega arith)))
