-- ===== src/Requestq/Queue.antt =====
-- The two lists that a request queue of src/requestq.c stands for.
use yaz.Prelude.{◌≡◌, true, false, [], ◌∷◌, List, Option, none, some, length, bind}
use yaz.Requestq.{Ptr, Store, RequestQ}
use yaz.Requestq.Chain.{has, last_or_0, Chain}

-- The queue holds the waiting requests in their order, and its free list the idle ones.
pub record IsQueue (s : Store) (q : RequestQ) (waiting idle : List Ptr) : Type 0 where
  pub queued : Chain s.cells q.head waiting
  pub at_end : q.tail ≡ last_or_0 waiting
  pub counted : q.num ≡ length waiting
  pub spare : Chain s.cells q.list idle
  pub disjoint : (a : Ptr) → has a waiting ≡ true → has a idle ≡ false

-- There is a result, and it has the property.
abbrev pub Yields {ℓ} : {A : Type ℓ} → Option A → (A → Type 0) → Type 0
Yields none P = ⊥
Yields (some a) P = P a

-- The first of a list, or 0.
abbrev pub first_or_0 : List Ptr → Ptr
first_or_0 [] = 0
first_or_0 (p ∷ ps) = p

pub bind-Yields {ℓ κ} :
    {A : Type ℓ} {B : Type κ} (P : A → Type 0) (Q : B → Type 0) (o : Option A) (f : A → Option B)
    → Yields o P
    → ((a : A) → P a → Yields (f a) Q)
    → Yields (bind o f) Q
bind-Yields P Q none f h k = h
bind-Yields P Q (some a) f h k = k a h

pub mono {ℓ} :
    {A : Type ℓ} (P Q : A → Type 0) (o : Option A) → Yields o P → ((a : A) → P a → Q a) → Yields o Q
mono P Q none h k = h
mono P Q (some a) h k = k a h
