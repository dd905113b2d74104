-- ===== src/Odr.antt =====
-- The state of an ODR stream, and the output buffer that the encoders write: src/odr_mem.c,
-- `odr_seterror` of src/odr.c and the macros of src/odr-priv.h.
pub mod Buffer
pub mod Appends
pub mod Stream
use yaz.Prelude.{
  ℕ, zero, suc, ◌+◌, ◌-◌, ◌&&◌, ◌≤◌, ◌<◌, ◌≡◌, Bool, true, false, List, [], ◌∷◌, Bytes, length, ltb,
  leb, ◌==◌, ◌||◌, if◌then◌else◌,
}

-- `o->direction`; `invalid` is any value that the switches send to their default.
pub data Direction : Type 0 where
  decode encode print invalid : Direction

-- The error codes `OSPACE`, `OREQUIRED`, `OOTHER`, `OPROTO` and `ODATA` of yaz/odr.h.
abbrev pub ospace : ℕ
ospace = 3

abbrev pub orequired : ℕ
orequired = 4

abbrev pub oother : ℕ
oother = 6

abbrev pub oproto : ℕ
oproto = 7

abbrev pub odata : ℕ
odata = 8

-- `buf` holds the bytes of the buffer that have been written, and `size` the bytes allocated.
-- `bp` is the input from the decoding position up to the end of the buffer, so that its length is
-- `odr_max(o)`.
pub record Odr : Type 0 where
  pub direction : Direction
  pub error : ℕ
  pub error_id : ℕ
  pub can_grow : Bool
  pub buf : Bytes
  pub pos : ℕ
  pub top : ℕ
  pub size : ℕ
  pub bp : Bytes

unfoldable pub odr_seterror : ℕ → ℕ → Odr → Odr
odr_seterror error id o = record o { error = error; error_id = id }

-- `INT_MAX`.
abbrev pub int_max : ℕ
int_max = 2147483647

-- Where `b->op->size += togrow` overflows its `int`, C leaves the result undefined, and a negative size
-- is more than `xrealloc` can give, so that it aborts: the call is refused here. A caller with `HasRoom`
-- of Odr/Buffer.antt never comes to it.
unfoldable pub odr_grow_block : ℕ → Odr → Odr × Bool
odr_grow_block min_bytes o =
    let start = if o.size == 0 then 1024 else o.size in
    let togrow = if ltb start min_bytes then min_bytes else start in
    if o.can_grow && leb (o.size + togrow) int_max
    then (record o { size = o.size + togrow }, true)
    else (o, false)

-- A store at `buf[i]`. The bytes between the end of what was written and `i` are uninitialised in C;
-- they read as 0 here. No encoder leaves such a gap.
abbrev pub poke : ℕ → ℕ → Bytes → Bytes
poke zero c [] = c ∷ []
poke zero c (x ∷ xs) = c ∷ xs
poke (suc i) c [] = 0 ∷ poke i c []
poke (suc i) c (x ∷ xs) = x ∷ poke i c xs

-- `memcpy(buf + i, cs, n)`
abbrev pub poke_all : ℕ → Bytes → Bytes → Bytes
poke_all i [] xs = xs
poke_all i (c ∷ cs) xs = poke_all (suc i) cs (poke i c xs)

-- `op->buf[op->pos++] = c`, and the update of `top` behind it.
abbrev store : ℕ → Odr → Odr
store c o = record o {
  buf = poke o.pos c o.buf;
  pos = o.pos + 1;
  top = if ltb o.top (o.pos + 1) then o.pos + 1 else o.top;
}

-- What a write does once `odr_grow_block` has answered: `k` on success, the error code otherwise.
grown : (Odr → Odr) → (Odr → Odr) → Odr × Bool → Odr × Bool
grown k fail (o, true) = (k o, true)
grown k fail (o, false) = (fail o, false)

-- The macro `odr_putc`: `false` stands for -1.
unfoldable pub odr_putc : ℕ → Odr → Odr × Bool
unfolding grown odr_grow_block
odr_putc c o =
    let slow = grown (store c) (λ p. record p { error = ospace }) (odr_grow_block 1 o) in
    if ltb o.pos o.size then (store c o, true) else slow

abbrev store_all : Bytes → Odr → Odr
store_all cs o = record o {
  buf = poke_all o.pos cs o.buf;
  pos = o.pos + length cs;
  top = if ltb o.top (o.pos + length cs) then o.pos + length cs else o.top;
}

-- `odr_write(o, buf, bytes)` with `bytes` the length of the list, so that it is not negative.
unfoldable pub odr_write : Bytes → Odr → Odr × Bool
unfolding grown odr_grow_block odr_seterror
odr_write cs o =
    let full = odr_seterror ospace 40 in
    let grow = grown (store_all cs) full (odr_grow_block (length cs) o) in
    if ltb (int_max - length cs) o.pos || ltb int_max (length cs)
    then (full o, false)
    else if leb o.size (o.pos + length cs)
    then grow
    else (store_all cs o, true)

pub data Whence : Type 0 where
  seek_set seek_cur seek_end : Whence

-- The position that `whence` and `offset` name.
abbrev pub target : Whence → ℕ → Odr → ℕ
target seek_set offset o = offset
target seek_cur offset o = offset + o.pos
target seek_end offset o = offset + o.top

unfoldable pub odr_seek : Whence → ℕ → Odr → Odr × Bool
unfolding grown odr_grow_block odr_seterror
odr_seek whence offset o =
    let to = target whence offset o in
    let move = λ (p : Odr). record p { pos = to } in
    let grow = grown move (odr_seterror ospace 41) (odr_grow_block (to - o.size) o) in
    if ltb o.size to then grow else (move o, true)

-- `if (f(o) < 0) return r;` in front of `k`.
unfoldable pub on_ok {ℓ} : {A : Type ℓ} → Odr × Bool → A → (Odr → Odr × A) → Odr × A
on_ok (o, true) r k = k o
on_ok (o, false) r k = (o, r)
