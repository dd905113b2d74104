-- ===== src/Requestq/Freelist.antt =====
-- The free list of a queue of src/requestq.c: where requests come from and go to.
use yaz.Prelude.{
  ℕ, zero, suc, ◌≤◌, ◌≡◌, ◌∙◌, ap, sym, refl, true, false, [], ◌∷◌, List, none, some, length, drop,
  ◌==◌, if◌then◌else◌, bind, arith,
}
use yaz.Requestq.{
  Ptr, Request, request_idle, Cells, Store, RequestQ, write, reset_request, new_request,
  request_enq, request_deq, request_get, request_release, free_requests, request_delq,
}
use yaz.Requestq.Chain.{has, Holds, Chain, link, frame-write, empty_null, unlink, write-same}
use yaz.Requestq.Queue.{IsQueue, Yields, first_or_0, mono}

-- A request that can be enqueued: it is there, has no successor, and names its queue.
pub record IsReady (s : Store) (p owner : Ptr) : Type 0 where
  pub cell : Request
  pub held : Holds s.cells p cell
  pub no_next : cell.next ≡ 0
  pub idle : cell.state ≡ request_idle
  pub no_memory : cell.request_mem ≡ 0
  pub named : cell.q ≡ owner

-- `xmalloc` gives an address that no request of the queue has: `request_get` succeeds. It gives the
-- first idle request if there is one, which is then idle no longer, and else that address; the request
-- is ready to be enqueued and the queue does not hold it, and the same requests wait.
pub request_get-IsReady :
    (s : Store) (q : RequestQ) (ws idle : List Ptr) (owner fresh : Ptr)
    → IsQueue s q ws idle
    → (fresh == 0) ≡ false
    → has fresh ws ≡ false
    → Yields (request_get owner fresh q s) λ (p, (t, q')).
      (p ≡ (if first_or_0 idle == 0 then fresh else first_or_0 idle))
      × (IsQueue t q' ws (drop 1 idle) × (IsReady t p owner × (has p ws ≡ false)))
unfolding request_get
request_get-IsReady s q ws [] owner fresh i nonzero new =
    let null : (q.list == 0) ≡ true = ap (λ p. p == 0) (empty_null i.spare) in
    rw null (
      refl,
      (
        record {
          queued = frame-write fresh (some (new_request owner)) i.queued new;
          at_end = i.at_end;
          counted = i.counted;
          spare = frame-write fresh (some (new_request owner)) i.spare refl;
          disjoint = λ a e. refl;
        },
        (
          record {
            cell = new_request owner;
            held = record {
              not_null = nonzero;
              there = write-same s.cells fresh (some (new_request owner));
            };
            no_next = refl;
            idle = refl;
            no_memory = refl;
            named = refl;
          },
          new,
        ),
      ),
    )
request_get-IsReady s q ws (p ∷ idle) owner fresh i nonzero new =
    let f = unlink i.spare in
    let c = reset_request owner f.cell in
    let waits : has q.list ws ≡ false = ground (arith, f.here, i.disjoint q.list) in
    rw (f.held.not_null, f.held.there)
      (
        rw (ap (λ x. x == 0) (sym (f.here)) ∙ f.held.not_null) (f.here),
        (
          record {
            queued = frame-write q.list (some c) i.queued waits;
            at_end = i.at_end;
            counted = i.counted;
            spare = frame-write q.list (some c) f.rest (ap (λ x. has x idle) (f.here) ∙ f.once);
            disjoint = λ a e. ground (arith, i.disjoint a);
          },
          (
            record {
              cell = c;
              held = record {
                not_null = f.held.not_null;
                there = write-same s.cells q.list (some c);
              };
              no_next = refl;
              idle = refl;
              no_memory = refl;
              named = refl;
            },
            waits,
          ),
        ),
      )

-- A request that is in neither list: `request_release` succeeds and puts it in front of the idle ones.
-- The same requests wait, and its memory, if it has any, is destroyed.
pub request_release-IsQueue :
    (s : Store) (q : RequestQ) (ws idle : List Ptr) (r : Ptr) (c : Request)
    → IsQueue s q ws idle
    → Holds s.cells r c
    → has r ws ≡ false
    → has r idle ≡ false
    → Yields (request_release r q s) λ (t, q').
      IsQueue t q' ws (r ∷ idle)
      × (t.destroyed ≡ (if c.request_mem == 0 then s.destroyed else c.request_mem ∷ s.destroyed))
unfolding request_release
request_release-IsQueue s q ws idle r c i h new out =
    let d = some (record c { next = q.list }) in
    rw (h.not_null, h.there)
      (
        record {
          queued = frame-write r d i.queued new;
          at_end = i.at_end;
          counted = i.counted;
          spare =
              link (record c { next = q.list })
                (record { not_null = h.not_null; there = write-same s.cells r d }) out
                (frame-write r d i.spare out);
          disjoint = λ a e. ground (arith, i.disjoint a);
        },
        refl,
      )

freed_or_kept :
    (h : Cells) (p x : Ptr) (xs : List Ptr) (a : Ptr)
    → p ≡ x
    → (if has a xs then none else write h p none a) ≡ (if has a (x ∷ xs) then none else h a)
unfolding write
freed_or_kept h p x xs a e = ground (arith, e)

free_requests-Chain :
    (fuel : ℕ) (s : Store) (p : Ptr) (ps : List Ptr)
    → Chain s.cells p ps
    → length ps ≤ fuel
    → Yields
        (free_requests fuel p s)
        λ t. (a : Ptr) → t.cells a ≡ (if has a ps then none else s.cells a)
unfolding free_requests
free_requests-Chain zero s p [] c f = rw (ap (λ x. x == 0) (empty_null c)) (λ a. refl)
free_requests-Chain (suc fuel) s p [] c f = rw (ap (λ x. x == 0) (empty_null c)) (λ a. refl)
free_requests-Chain zero s p (x ∷ xs) c f = absurd (omega arith)
free_requests-Chain (suc fuel) s p (x ∷ xs) c f =
    let u = unlink c in
    let t : Store = record s { cells = write s.cells p none; freed = u.cell.response ∷ s.freed } in
    rw (u.held.not_null, u.held.there)
      (mono _ _ (free_requests fuel u.cell.next t)
        (free_requests-Chain fuel t u.cell.next xs
          (frame-write p none u.rest (ap (λ y. has y xs) (u.here) ∙ u.once)) (omega arith))
        λ v k a. k a ∙ freed_or_kept s.cells p x xs a (u.here))

-- With a round for each idle request: `request_delq` succeeds, and gives back the idle requests and no
-- other.
pub request_delq-frees :
    (s : Store) (q : RequestQ) (ws idle : List Ptr) (fuel : ℕ)
    → IsQueue s q ws idle
    → length idle ≤ fuel
    → Yields
        (request_delq fuel q s)
        λ t. (a : Ptr) → t.cells a ≡ (if has a idle then none else s.cells a)
unfolding request_delq
request_delq-frees s q ws idle fuel i f = free_requests-Chain fuel s q.list idle i.spare f

-- A request with a successor, as `request_deq` leaves one that others waited behind: enqueued alone and
-- taken off again, it leaves that successor as the head of a queue that counts no request.
pub request_deq-stale :
    (s : Store) (q : RequestQ) (idle : List Ptr) (r : Ptr) (c : Request)
    → IsQueue s q [] idle
    → Holds s.cells r c
    → (c.next == 0) ≡ false
    → Yields
        (bind (request_enq q r s) λ (t, q'). request_deq q' t)
        λ (p, q'). (p ≡ r) × ((q'.head ≡ c.next) × ((q'.tail ≡ r) × (q'.num ≡ 0)))
unfolding request_enq request_deq
request_deq-stale s q idle r c i h stale =
    rw (i.at_end, h.not_null, h.there, stale) (refl, (refl, (refl, omega (arith, i.counted))))
