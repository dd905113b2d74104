-- ===== src/Requestq/Chain.antt =====
-- What the `next` pointers of src/requestq.c lead through, and how a chain grows at its end.
use yaz.Prelude.{
  ◌≡◌, ◌∙◌, ap, sym, refl, subst, Bool, true, false, ◌||◌, [], ◌∷◌, ◌++◌, List, Option, some, ◌==◌,
  bind, arith,
}
use yaz.Requestq.{Ptr, Request, Cells, Store, load, write, set_next}

abbrev pub has : Ptr → List Ptr → Bool
has a [] = false
has a (p ∷ ps) = (a == p) || has a ps

-- The last of a list, or 0.
abbrev pub last_or_0 : List Ptr → Ptr
last_or_0 [] = 0
last_or_0 (p ∷ []) = p
last_or_0 (p ∷ q ∷ ps) = last_or_0 (q ∷ ps)

-- A request that is not the null pointer.
pub record Holds (h : Cells) (p : Ptr) (c : Request) : Type 0 where
  pub not_null : (p == 0) ≡ false
  pub there : h p ≡ some c

-- From a pointer, through different requests, to the null pointer.
pub data Chain (h : Cells) : Ptr → List Ptr → Type 0 where
  stop : Chain h 0 []
  link :
      {p : Ptr} {ps : List Ptr} (c : Request)
      → Holds h p c
      → has p ps ≡ false
      → Chain h c.next ps
      → Chain h p (p ∷ ps)

pub load-Holds : {h : Cells} {p : Ptr} {c : Request} → Holds h p c → load h p ≡ some c
unfolding load
load-Holds e = rw (e.not_null, e.there)

pub frame :
    {h g : Cells} {p : Ptr} {ps : List Ptr}
    → Chain h p ps
    → ((a : Ptr) → has a ps ≡ true → g a ≡ h a)
    → Chain g p ps
frame stop same = stop
frame (link {p} c e out s) same =
    link c (record { not_null = e.not_null; there = same p (ground arith) ∙ e.there }) out
      (frame s λ a i. same a (ground arith))

pub write-same : (h : Cells) (p : Ptr) (c : Option Request) → write h p c p ≡ c
unfolding write
write-same h p c = ground arith

pub write-other :
    (h : Cells) (p a : Ptr) (c : Option Request) → (a == p) ≡ false → write h p c a ≡ h a
unfolding write
write-other h p a c e = rw e

pub apart : (a b : Ptr) (ps : List Ptr) → has b ps ≡ true → has a ps ≡ false → (b == a) ≡ false
apart a b [] i out = absurd (ground arith)
apart a b (p ∷ ps) i out = ground (arith, apart a b ps)

pub frame-write :
    {h : Cells} {p : Ptr} {ps : List Ptr} (a : Ptr) (c : Option Request)
    → Chain h p ps
    → has a ps ≡ false
    → Chain (write h a c) p ps
frame-write a c s out = frame s λ b i. write-other _ a b c (apart a b _ i out)

pub has-append : (a : Ptr) (ps qs : List Ptr) → has a (ps ++ qs) ≡ (has a ps || has a qs)
has-append a [] qs = refl
has-append a (p ∷ ps) qs = ground (arith, has-append a ps qs)

pub last-has : (p : Ptr) (ps : List Ptr) → has (last_or_0 (p ∷ ps)) (p ∷ ps) ≡ true
last-has p [] = ground arith
last-has p (q ∷ ps) = ground (arith, last-has q ps)

pub last_or_0-append : (ps : List Ptr) (r : Ptr) → last_or_0 (ps ++ r ∷ []) ≡ r
last_or_0-append [] r = refl
last_or_0-append (p ∷ []) r = refl
last_or_0-append (p ∷ q ∷ ps) r = last_or_0-append (q ∷ ps) r

Holds-write :
    {h : Cells} {p : Ptr} {c : Request} (a : Ptr) (d : Option Request)
    → Holds h p c
    → (p == a) ≡ false
    → Holds (write h a d) p c
Holds-write {h} {p} a d e n = record {
  not_null = e.not_null;
  there = write-other h a p d n ∙ e.there;
}

-- A request without a successor, behind the last one.
pub extend :
    {h : Cells} {p : Ptr} (q : Ptr) (ps : List Ptr) (r : Ptr) (c d : Request)
    → Chain h p (q ∷ ps)
    → Holds h r c
    → c.next ≡ 0
    → has r (q ∷ ps) ≡ false
    → Holds h (last_or_0 (q ∷ ps)) d
    → Chain (write h (last_or_0 (q ∷ ps)) (some (record d { next = r }))) p ((q ∷ ps) ++ r ∷ [])
extend {h} q [] r c d (link {p} c' e out s) k z new l =
    let g = write h p (some (record d { next = r })) in
    link (record d { next = r })
      (record { not_null = e.not_null; there = write-same h p (some (record d { next = r })) })
      (ground arith)
      (link c (Holds-write _ (some (record d { next = r })) k (ground arith)) refl
        (subst (λ x. Chain g x []) (sym z) stop))
extend {h} q (q' ∷ ps) r c d (link {p} c' e out s) k z new l =
    let last = last_or_0 (q' ∷ ps) in
    link c'
      (Holds-write _ (some (record d { next = r })) e
        (ground (arith, apart p last (q' ∷ ps) (last-has q' ps) out)))
      (ground (arith, has-append p (q' ∷ ps) (r ∷ []))) (extend q' ps r c d s k z (ground arith) l)

pub last-Holds :
    {h : Cells} {p : Ptr} (q : Ptr) (ps : List Ptr)
    → Chain h p (q ∷ ps)
    → (d : Request) × Holds h (last_or_0 (q ∷ ps)) d
last-Holds q [] (link c e out s) = (c, e)
last-Holds q (q' ∷ ps) (link c e out s) = last-Holds q' ps s

pub set_next-Holds :
    {p : Ptr} {d : Request} (r : Ptr) (s : Store)
    → Holds s.cells p d
    → set_next p r s ≡ some (record s { cells = write s.cells p (some (record d { next = r })) })
unfolding set_next
set_next-Holds {p} {d} r s e =
    ap (λ o. bind o λ c. some (record s { cells = write s.cells p (some (record c { next = r })) }))
      (load-Holds e)

pub empty_null : {h : Cells} {p : Ptr} → Chain h p [] → p ≡ 0
empty_null stop = refl

-- What a chain with a first request says.
pub record First (h : Cells) (p q : Ptr) (ps : List Ptr) : Type 0 where
  pub cell : Request
  pub here : p ≡ q
  pub held : Holds h p cell
  pub once : has q ps ≡ false
  pub rest : Chain h cell.next ps

pub unlink : {h : Cells} {p q : Ptr} {ps : List Ptr} → Chain h p (q ∷ ps) → First h p q ps
unlink (link c e out s) = record { cell = c; here = refl; held = e; once = out; rest = s }
