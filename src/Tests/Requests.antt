-- ===== src/Tests/Requests.antt =====
-- Runs of the request queues of src/requestq.c.
use yaz.Prelude.{◌≡◌, refl, false, [], ◌∷◌, none, some, ◌==◌, if◌then◌else◌, bind, arith}
use yaz.Requestq.{Cells, Store, RequestQ, new_request, request_enq, request_deq, request_get, purge}
use yaz.Requestq.Chain.{has, stop, link}
use yaz.Requestq.Queue.{IsQueue, Yields}
use yaz.Requestq.Fifo.{request_enq-IsQueue, request_deq-IsQueue, purge-request_enq}
use yaz.Requestq.Freelist.{IsReady, request_get-IsReady, request_deq-stale}

-- Four requests: 1 waits in front of 2, 3 is idle, and 4 is new. The queue is at 90.
abbrev requests : Cells
requests a =
    if a == 1
    then some (record (new_request 90) { next = 2 })
    else if a == 2
    then some (new_request 90)
    else if a == 3
    then some (new_request 90)
    else if a == 4
    then some (new_request 90)
    else none

abbrev heap : Store
heap = record { cells = requests; destroyed = []; freed = [] }

abbrev busy : RequestQ
busy = record { head = 1; tail = 2; list = 3; num = 2 }

busy-IsQueue : IsQueue heap busy (1 ∷ 2 ∷ []) (3 ∷ [])
busy-IsQueue = record {
  queued =
      link (record (new_request 90) { next = 2 }) (record { not_null = refl; there = refl }) refl
        (link (new_request 90) (record { not_null = refl; there = refl }) refl stop);
  at_end = refl;
  counted = refl;
  spare = link (new_request 90) (record { not_null = refl; there = refl }) refl stop;
  disjoint = λ a e. ground arith;
}

abbrev quiet : RequestQ
quiet = record { head = 0; tail = 0; list = 3; num = 0 }

quiet-IsQueue : IsQueue heap quiet [] (3 ∷ [])
quiet-IsQueue = record {
  queued = stop;
  at_end = refl;
  counted = refl;
  spare = link (new_request 90) (record { not_null = refl; there = refl }) refl stop;
  disjoint = λ a e. ground arith;
}

request_enq-IsQueue_example :
    Yields (request_enq busy 4 heap) λ (t, q). IsQueue t q (1 ∷ 2 ∷ 4 ∷ []) (3 ∷ [])
request_enq-IsQueue_example =
    request_enq-IsQueue heap busy (1 ∷ 2 ∷ []) (3 ∷ []) 4 (new_request 90) busy-IsQueue
      (record { not_null = refl; there = refl }) refl refl refl

request_deq-IsQueue_example :
    Yields (request_deq busy heap) λ (p, q). (p ≡ 1) × IsQueue heap q (2 ∷ []) (3 ∷ [])
request_deq-IsQueue_example = request_deq-IsQueue heap busy (1 ∷ 2 ∷ []) (3 ∷ []) busy-IsQueue

purge-request_enq_example :
    Yields
      (bind (request_enq busy 4 heap) λ (t, q). purge 4 q t)
      λ (ps, q). (ps ≡ 1 ∷ 2 ∷ 4 ∷ []) × ((q.head ≡ 0) × (q.num ≡ 0))
purge-request_enq_example =
    purge-request_enq heap busy (1 ∷ 2 ∷ []) (3 ∷ []) 4 (new_request 90) busy-IsQueue
      (record { not_null = refl; there = refl }) refl refl refl

request_get-IsReady_example : Yields (request_get 90 5 busy heap) λ (p, (t, q)).
    (p ≡ 3) × (IsQueue t q (1 ∷ 2 ∷ []) [] × (IsReady t p 90 × (has p (1 ∷ 2 ∷ []) ≡ false)))
request_get-IsReady_example =
    request_get-IsReady heap busy (1 ∷ 2 ∷ []) (3 ∷ []) 90 5 busy-IsQueue refl refl

-- The request 1 still names 2 as its successor.
request_deq-stale_example :
    Yields
      (bind (request_enq quiet 1 heap) λ (t, q). request_deq q t)
      λ (p, q). (p ≡ 1) × ((q.head ≡ 2) × ((q.tail ≡ 1) × (q.num ≡ 0)))
request_deq-stale_example =
    request_deq-stale heap quiet (3 ∷ []) 1 (record (new_request 90) { next = 2 }) quiet-IsQueue
      (record { not_null = refl; there = refl }) refl
