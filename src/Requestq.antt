-- ===== src/Requestq.antt =====
-- The request queues of the server: src/requestq.c, `struct request` and `struct request_q` of
-- src/session.h, and the loop of src/seshigh.c that discards what waits. Requests stand in a store under
-- their addresses; an operation is `none` where the code would follow a pointer to no request.
pub mod Chain
pub mod Queue
pub mod Fifo
pub mod Freelist
use yaz.Prelude.{
  ℕ, zero, suc, ◌+◌, ◌-◌, Bool, true, false, not, [], ◌∷◌, List, Option, none, some, ◌==◌,
  if◌then◌else◌, bind,
}

abbrev pub Ptr : Type 0
Ptr = ℕ

-- `request_state`
pub data RequestState : Type 0 where
  request_idle request_pending : RequestState

-- `struct request`; the pointers to what other parts own are addresses.
pub record Request : Type 0 where
  pub state : RequestState
  pub gdu_request : Ptr
  pub apdu_request : Ptr
  pub request_mem : Ptr
  pub size_response : ℕ
  pub len_response : ℕ
  pub response : Ptr
  pub client_data : Ptr
  pub next : Ptr
  pub q : Ptr

-- `struct request_q`
pub record RequestQ : Type 0 where
  pub head : Ptr
  pub tail : Ptr
  pub list : Ptr
  pub num : ℕ

abbrev pub Cells : Type 0
Cells = Ptr → Option Request

-- The requests, and what was handed to `nmem_destroy` and to `xfree` as a response, latest first.
pub record Store : Type 0 where
  pub cells : Cells
  pub destroyed : List Ptr
  pub freed : List Ptr

unfoldable pub load : Cells → Ptr → Option Request
load h p = if p == 0 then none else h p

unfoldable pub write : Cells → Ptr → Option Request → Cells
write h p c a = if a == p then c else h a

-- `p->next = n`
unfoldable pub set_next : Ptr → Ptr → Store → Option Store
unfolding load write
set_next p n s =
    bind (load s.cells p)
      λ c. some (record s { cells = write s.cells p (some (record c { next = n })) })

unfoldable pub request_enq : RequestQ → Ptr → Store → Option (Store × RequestQ)
unfolding set_next
request_enq q r s =
    if q.tail == 0
    then some (s, record q { head = r; tail = r; num = q.num + 1 })
    else bind (set_next q.tail r s) λ t. some (t, record q { tail = r; num = q.num + 1 })

abbrev pub request_head : RequestQ → Ptr
request_head q = q.head

-- The head is taken off; 0 for an empty queue. `num` is an `int`, and stops at 0 here.
unfoldable pub request_deq : RequestQ → Store → Option (Ptr × RequestQ)
unfolding load
request_deq q s =
    let taken = bind (load s.cells q.head) λ c. some (
      q.head,
      record q { head = c.next; tail = if c.next == 0 then 0 else q.tail; num = q.num - 1 },
    ) in
    if q.head == 0 then some (0, q) else taken

unfoldable pub request_initq : RequestQ
request_initq = record { head = 0; tail = 0; list = 0; num = 0 }

-- What `request_get` leaves in a request.
abbrev pub reset_request : Ptr → Request → Request
reset_request q c = record c {
  q = q;
  gdu_request = 0;
  apdu_request = 0;
  request_mem = 0;
  len_response = 0;
  client_data = 0;
  state = request_idle;
  next = 0;
}

-- A new request; the fields that the code leaves as `xmalloc` gives them are overwritten at once.
abbrev pub new_request : Ptr → Request
new_request q = record {
  state = request_idle;
  gdu_request = 0;
  apdu_request = 0;
  request_mem = 0;
  size_response = 0;
  len_response = 0;
  response = 0;
  client_data = 0;
  next = 0;
  q = q;
}

abbrev put_request : Ptr → Request → Store → Store
unfolding write
put_request p c s = record s { cells = write s.cells p (some c) }

-- `owner` is the address of the queue, and `fresh` what `xmalloc` would return.
unfoldable pub request_get : Ptr → Ptr → RequestQ → Store → Option (Ptr × (Store × RequestQ))
unfolding load write
request_get owner fresh q s =
    let reused = bind (load s.cells q.list) λ c.
      some (q.list, (put_request q.list (reset_request owner c) s, record q { list = c.next })) in
    if q.list == 0 then some (fresh, (put_request fresh (new_request owner) s, q)) else reused

-- `q` is the queue that the request names.
unfoldable pub request_release : Ptr → RequestQ → Store → Option (Store × RequestQ)
unfolding load write
request_release r q s = bind (load s.cells r) λ c. some (
  record (put_request r (record c { next = q.list }) s) {
    destroyed = if c.request_mem == 0 then s.destroyed else c.request_mem ∷ s.destroyed;
  },
  record q { list = r },
)

-- The loop of `request_delq` from a request of the free list on. The fuel counts the requests left.
unfoldable pub free_requests : ℕ → Ptr → Store → Option Store
unfolding load write
free_requests zero r s = if r == 0 then some s else none
free_requests (suc fuel) r s =
    let more = bind (load s.cells r) λ c.
      free_requests fuel c.next
        (record s { cells = write s.cells r none; freed = c.response ∷ s.freed }) in
    if r == 0 then some s else more

unfoldable pub request_delq : ℕ → RequestQ → Store → Option Store
unfolding free_requests
request_delq fuel q s = free_requests fuel q.list s

-- `while (request_deq(q));`, with which `do_close_req` discards what waits, and the requests that it
-- takes off, in their order. The fuel counts the rounds.
unfoldable pub purge : ℕ → RequestQ → Store → Option (List Ptr × RequestQ)
unfolding request_deq
purge zero q s = none
purge (suc fuel) q s = bind (request_deq q s) λ (p, r).
    let more = bind (purge fuel r s) λ (ps, t). some (p ∷ ps, t) in
    if p == 0 then some ([], r) else more
