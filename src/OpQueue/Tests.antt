-- ===== src/OpQueue/Tests.antt =====
-- A run of the queue, and its theorems at queues that meet their hypotheses.
use coio.Base.{ℕ, ◌≡◌, refl, ◌≢◌, ◌↔◌, Bool, true, none, some, List, [], ◌∷◌, arith}
use coio.Links.{Field, store, Pointer}
use coio.OpQueue.{OpQueue, enqueue, bulk_enqueue, dequeue, refill_front, take_front}
use coio.Links.Reverse.{reverse_loop}
use coio.OpQueue.Fifo.{Queues, Dequeues, enqueue-Queues, bulk_enqueue-Queues, dequeue-Dequeues}

abbrev unlinked : Field
unlinked = λ x. none

-- Operation 1 is at the front; 3 came in behind 2.
abbrev waiting : OpQueue
waiting = record { next = store unlinked 3 (some 2); incoming = some 3; front = some 1 }

waiting-Queues : Queues waiting (1 ∷ 2 ∷ 3 ∷ [])
waiting-Queues = record {
  fronts = 1 ∷ [];
  incomings = 3 ∷ 2 ∷ [];
  holds = record {
    fronts = (refl, refl);
    incomings = (refl, (refl, refl));
    distinct_fronts = omega arith;
    distinct_incomings = omega arith;
    apart = omega arith;
  };
  same = refl;
}

-- The second `dequeue` refills the front.
drained :
    (o : Pointer) × (q : OpQueue) × (dequeue 9 (record waiting { front = none }) ≡ some (o, q))
    × (o ≡ some 2)
    × (q.front ≡ some 3)
unfolding dequeue refill_front reverse_loop take_front
drained = (_, _, refl, refl, refl)

enqueue-Queues_test : (r : OpQueue) × (enqueue 1 4 waiting ≡ some r) × Queues r (1 ∷ 2 ∷ 3 ∷ 4 ∷ [])
enqueue-Queues_test =
    enqueue-Queues 1 4 [] waiting-Queues refl (omega arith) (omega arith) (omega arith)

bulk_enqueue-Queues_test :
    (r : OpQueue) × (b : Bool) × (bulk_enqueue (4 ∷ 5 ∷ []) waiting ≡ some (r, b))
    × Queues r (1 ∷ 2 ∷ 3 ∷ 4 ∷ 5 ∷ [])
    × ((b ≡ true) ↔ ◌≢◌ {A = List ℕ} (4 ∷ 5 ∷ []) [])
bulk_enqueue-Queues_test =
    bulk_enqueue-Queues (4 ∷ 5 ∷ []) waiting-Queues (refl, (refl, tt)) (omega arith) (omega arith)

dequeue-Dequeues_example : Dequeues 3 waiting (1 ∷ 2 ∷ 3 ∷ [])
dequeue-Dequeues_example = dequeue-Dequeues 3 waiting-Queues (omega arith)
