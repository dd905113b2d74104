-- ===== src/Requestq/Fifo.antt =====
-- The queue of src/requestq.c yields its requests in the order in which they came.
use yaz.Prelude.{
  ℕ, zero, suc, ◌+◌, ◌<◌, ◌≡◌, ◌∙◌, ap, sym, refl, subst, true, false, [], ◌∷◌, ◌++◌, List, some,
  length, length-append, drop, ◌==◌, if◌then◌else◌, bind, arith,
}
use yaz.Requestq.{Ptr, Cells, Request, Store, RequestQ, request_enq, request_deq, purge}
use yaz.Requestq.Chain.{
  has, last_or_0, Holds, Chain, stop, link, extend, frame-write, has-append, last_or_0-append,
  last-has, last-Holds, empty_null, unlink,
}
use yaz.Requestq.Queue.{IsQueue, Yields, first_or_0, bind-Yields, mono}

-- A request that the queue does not hold and that has no successor: `request_enq` succeeds and puts it
-- behind those that wait. The free list stays.
pub request_enq-IsQueue :
    (s : Store) (q : RequestQ) (ws idle : List Ptr) (r : Ptr) (c : Request)
    → IsQueue s q ws idle
    → Holds s.cells r c
    → c.next ≡ 0
    → has r ws ≡ false
    → has r idle ≡ false
    → Yields (request_enq q r s) λ (t, q'). IsQueue t q' (ws ++ r ∷ []) idle
unfolding request_enq
request_enq-IsQueue s q [] idle r c i h z new out = rw (i.at_end) (record {
  queued = link c h refl (subst (λ x. Chain s.cells x []) (sym z) stop);
  at_end = refl;
  counted = omega (arith, i.counted);
  spare = i.spare;
  disjoint = λ a e. ground arith;
})
request_enq-IsQueue s q (w ∷ ws) idle r c i h z new out =
    let last = last_or_0 (w ∷ ws) in
    let (d, l) = last-Holds w ws i.queued in
    rw (i.at_end, l.not_null, l.there)
      (record {
        queued = extend w ws r c d i.queued h z new l;
        at_end = sym (last_or_0-append (w ∷ ws) r);
        counted = omega (arith, i.counted, length-append ws (r ∷ []));
        spare =
            frame-write last (some (record d { next = r })) i.spare
              (i.disjoint last (last-has w ws));
        disjoint = λ a e. ground (arith, has-append a (w ∷ ws) (r ∷ []), i.disjoint a);
      })

tail_after :
    (h : Cells) (n w : Ptr) (ws : List Ptr)
    → Chain h n ws
    → (if n == 0 then 0 else last_or_0 (w ∷ ws)) ≡ last_or_0 ws
tail_after h n w [] c = rw (empty_null c) refl
tail_after h n w (x ∷ xs) c = rw ((unlink c).held.not_null) refl

-- `request_deq` succeeds. It gives the request that has waited longest, which then no longer waits, or
-- 0 and no change if none waits.
pub request_deq-IsQueue :
    (s : Store) (q : RequestQ) (ws idle : List Ptr)
    → IsQueue s q ws idle
    → Yields (request_deq q s) λ (p, q'). (p ≡ first_or_0 ws) × IsQueue s q' (drop 1 ws) idle
unfolding request_deq
request_deq-IsQueue s q [] idle i =
    let null : (q.head == 0) ≡ true = ap (λ p. p == 0) (empty_null i.queued) in rw null (refl, i)
request_deq-IsQueue s q (w ∷ ws) idle i =
    let f = unlink i.queued in
    rw (f.held.not_null, f.held.there)
      (
        f.here,
        record {
          queued = f.rest;
          at_end =
              ap (λ t. if f.cell.next == 0 then 0 else t) (i.at_end)
              ∙ tail_after s.cells f.cell.next w ws f.rest;
          counted = omega (arith, i.counted);
          spare = i.spare;
          disjoint = λ a e. i.disjoint a (ground arith);
        },
      )

-- With a round for each waiting request and one more, the loop that empties a queue ends, and has taken
-- the waiting requests off in their order; none waits then, and the free list stays.
pub purge-IsQueue :
    (s : Store) (fuel : ℕ) (q : RequestQ) (ws idle : List Ptr)
    → IsQueue s q ws idle
    → length ws < fuel
    → Yields (purge fuel q s) λ (ps, q'). (ps ≡ ws) × IsQueue s q' [] idle
unfolding purge
purge-IsQueue s zero q ws idle i f = absurd (omega arith)
purge-IsQueue s (suc fuel) q [] idle i f =
    bind-Yields _ _ (request_deq q s) _ (request_deq-IsQueue s q [] idle i)
      λ (p, q') (e, j). rw (ap (λ x. x == 0) e) (refl, j)
purge-IsQueue s (suc fuel) q (w ∷ ws) idle i f =
    bind-Yields _ _ (request_deq q s) _ (request_deq-IsQueue s q (w ∷ ws) idle i) λ (p, q') (e, j).
      let g = unlink i.queued in
      rw (ap (λ x. x == 0) (e ∙ sym (g.here)) ∙ g.held.not_null) (
        bind-Yields _ _ (purge fuel q' s) _ (purge-IsQueue s fuel q' ws idle j (omega arith))
          λ (ps, t) (h, k). (ap (◌∷◌ p) h ∙ ap (λ x. x ∷ ws) e, k))

-- A request that the queue does not hold and that has no successor is enqueued. The loop of
-- `do_close_req` that discards the waiting requests then ends: it has taken off those that waited
-- before, in their order, and this request behind them, and leaves a queue with no head and count 0.
pub purge-request_enq :
    (s : Store) (q : RequestQ) (ws idle : List Ptr) (r : Ptr) (c : Request)
    → IsQueue s q ws idle
    → Holds s.cells r c
    → c.next ≡ 0
    → has r ws ≡ false
    → has r idle ≡ false
    → Yields
        (bind (request_enq q r s) λ (t, q'). purge (length ws + 2) q' t)
        λ (ps, q'). (ps ≡ ws ++ r ∷ []) × ((q'.head ≡ 0) × (q'.num ≡ 0))
purge-request_enq s q ws idle r c i h z new out =
    bind-Yields _ _ (request_enq q r s) _ (request_enq-IsQueue s q ws idle r c i h z new out)
      λ (t, q') j.
        mono _ _ (purge (length ws + 2) q' t)
          (purge-IsQueue t (length ws + 2) q' (ws ++ r ∷ []) idle j
            (omega (arith, length-append ws (r ∷ []))))
          λ (ps, u) (e, k). (e, (empty_null k.queued, k.counted))
