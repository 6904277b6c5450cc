-- ===== src/TimeLoop/Tests.antt =====
-- A loop with two timers, one of them due, and an operation in the queue.

use coio.Base.{
  ◌↔◌, ◌<◌, ℕ, ◌+◌, ◌-◌, ◌*◌, ◌≡◌, refl, true, false, none, some, [], ◌∷◌, arith, if◌then◌else◌,
  ◌==◌,
}
use coio.TimeLoop.Sleeping.{Cancels, cancel_sleep-Cancels, start_sleep-Settled}
use coio.TimeLoop.Polling.{Polled, do_one-Polled}
use coio.TimeLoop.Passing.{Settled, Passes, publish_due-Passes}
use coio.TimerQueue.Shape.{Heap, nil, node, count}
use coio.Links.Reverse.{reverse_loop}
use coio.IntrusiveList.{push_back, release}
use coio.OpQueue.{empty_queue, enqueue, dequeue, refill_front, take_front}
use coio.OperationPhase.{Phase, armed}
use coio.TimerQueue.{
  TimerQueue, take_ready, pop_root, merge_children, pair_up, meld_pair, detach, behind_pair,
  fold_stack, fold_up, clear_links,
}
use coio.TimeLoop.{
  TimeLoop, Wakeup, immediately_post, publish, publish_pending, push_all, publish_due, consume,
  do_one, start_sleep, cancel_sleep,
}
use coio.Links.{Field, store}

abbrev deadline : ℕ → ℕ
deadline op = 10 * op

abbrev unlinked : Field
unlinked = λ x. none

-- Timer 2 is below timer 1.
abbrev timers : TimerQueue
timers = record {
  links = record {
    prev = store unlinked 2 (some 1);
    child = store unlinked 1 (some 2);
    sibling = unlinked;
  };
  root = some 1;
}

abbrev heap : Heap
heap = node 1 (node 2 nil nil) nil

abbrev phases : ℕ → Phase
phases op = armed

abbrev empty_loop : TimeLoop
empty_loop = record {
  queue = empty_queue unlinked;
  timers = timers;
  phases = phases;
  canceled = λ z. false;
  work_count = 3;
}

empty_loop-Settled : Settled deadline empty_loop [] heap
empty_loop-Settled = record {
  queues = record {
    fronts = [];
    incomings = [];
    holds = record {
      fronts = refl;
      incomings = refl;
      distinct_fronts = tt;
      distinct_incomings = tt;
      apart = tt;
    };
    same = refl;
  };
  holds = record {
    linked = (refl, refl, (refl, refl, refl, refl), refl);
    alone = tt;
    ordered = omega arith;
    distinct = λ z. ground arith;
    unlinked = λ z g. ground arith;
  };
  unlinked = λ z g. refl;
  apart = λ z g. tt;
  pending = λ z g e. absurd (cc e);
}

-- The completion only says that the work is finished.
abbrev finish : ℕ → TimeLoop → TimeLoop
finish op l = record l { work_count = l.work_count - 1 }

abbrev at_time : ℕ → Wakeup
at_time now = record { sleep = λ earliest l. l; meanwhile = λ l. l; now = now; afterwards = λ l. l }

-- At 15 the first timer is run, and at 25 the second.
polled_twice :
    (l m : TimeLoop) × (do_one deadline finish 9 false (at_time 15 ∷ []) empty_loop
      ≡ some (true, l))
    × (do_one deadline finish 9 false (at_time 15 ∷ []) l ≡ some (false, m))
    × (m.work_count ≡ 2)
    × (m.timers.root ≡ some 2)
unfolding do_one consume publish_due publish_pending publish immediately_post push_all push_back
    release enqueue dequeue refill_front take_front reverse_loop take_ready pop_root merge_children
    pair_up meld_pair detach behind_pair fold_stack fold_up clear_links coio.OpQueue.publish
polled_twice = (_, _, refl, refl, refl, refl)

-- Another thread posts 7 behind the publishing of the timers, which the second look at the queue finds.
posted_meanwhile :
    (l : TimeLoop) × (do_one deadline finish 9 false
        (record (at_time 5) {
          afterwards = λ n. elim (immediately_post 7 n) [ none ↦ n | some m ↦ m ];
        }
          ∷ [])
        empty_loop
      ≡ some (true, l))
unfolding do_one consume publish_due publish_pending publish immediately_post push_all push_back
    release enqueue dequeue refill_front take_front reverse_loop take_ready pop_root merge_children
    pair_up meld_pair detach behind_pair fold_stack fold_up clear_links coio.OpQueue.publish
posted_meanwhile = (_, refl)

do_one-Polled_example :
    Polled deadline finish 9 15 empty_loop heap
      (do_one deadline finish 9 false (at_time 15 ∷ []) empty_loop)
      []
do_one-Polled_example =
    do_one-Polled deadline finish 9 (at_time 15) [] empty_loop [] heap empty_loop-Settled
      (omega arith) (λ m. refl) (λ m. refl)

publish_due-Passes_test :
    Passes deadline 15 empty_loop [] heap (publish_due deadline finish 9 15 empty_loop)
publish_due-Passes_test =
    publish_due-Passes deadline finish 9 15 empty_loop [] heap empty_loop-Settled (omega arith)

cancel_sleep-Cancels_example :
    Cancels deadline finish 9 2 empty_loop [] heap (cancel_sleep deadline finish 9 2 empty_loop)
cancel_sleep-Cancels_example =
    cancel_sleep-Cancels deadline finish 9 2 empty_loop [] heap empty_loop-Settled (λ g. refl)
      (omega arith)

start_sleep-Settled_test :
    (u : Heap) × Settled deadline (start_sleep deadline finish 9 5 empty_loop).0 [] u
    × ((z : ℕ) → count z u ≡ (if 5 == z then 1 else 0) + count z heap)
    × (((start_sleep deadline finish 9 5 empty_loop).1 ≡ true)
        ↔ ((z : ℕ) → 0 < count z heap → deadline 5 < deadline z))
start_sleep-Settled_test =
    start_sleep-Settled deadline finish 9 5 empty_loop [] heap empty_loop-Settled refl refl tt
      (λ e. absurd (cc e))
