-- ===== src/TimeLoop.antt =====
-- include/coio/execution_context.h: the loop of `time_loop` on its operation queue and its timer queue. The
-- operations of both are nodes with one `next_`. `finish` is what the completion of an operation does,
-- and a `Wakeup` what the other threads do in a round of `do_one`, and its time: `sleep` while the consumer
-- sleeps on `sema_` and up to its taking of the timers, `meanwhile` the same in a round that does not
-- sleep, and `afterwards` between its publishing of the timers and its next look at the queue. What
-- other threads do inside of one of the consumer's operations is not modelled. `wakeup_consumer` does nothing when the consumer calls it, which
-- publishes what is ready; a call from another thread ends a sleep, and is part of a `Wakeup`.
pub mod Publishing
pub mod Passing
pub mod Polling
pub mod Sleeping
pub mod Waking
mod Tests
use coio.Base.{
  ℕ, zero, suc, ◌+◌, ◌-◌, ◌*◌, ◌/◌, ◌%◌, ◌^◌, ◌≤◌, ◌<◌, min, max, ◌≡◌, refl, sym, ap, ◌∙◌, subst,
  ◌≢◌, ◌↔◌, ◌⊎◌, inl, inr, Bool, true, false, ◌&&◌, ◌||◌, not, Option, none, some, List, [], ◌∷◌,
  ◌++◌, map, reverse, arith, dec_lt, dec_le, ℕ_discrete, if◌then◌else◌, ltb, leb, ◌==◌, Bool-cases,
  Option-cases, length, get_elem?, set, take, drop, slice, overwrite, add_size, sub_size, mul_size,
  size_mod, length-append, length-take, length-drop,
}
use coio.IntrusiveList.{IntrusiveList, push_back, release}
use coio.OpQueue.{OpQueue, enqueue, dequeue}
use coio.OperationPhase.{Phase, starting, armed, cancel_deferred, completed}
use coio.TimerQueue.{TimerQueue, take_ready, earliest, add, remove}
use coio.Links.{Pointer, Field, store}

pub record TimeLoop : Type 0 where
  pub queue : OpQueue
  pub timers : TimerQueue
  pub phases : ℕ → Phase
  pub canceled : ℕ → Bool
  pub work_count : ℕ

pub record Wakeup : Type 0 where
  pub sleep : Option ℕ → TimeLoop → TimeLoop
  pub meanwhile : TimeLoop → TimeLoop
  pub now : ℕ
  pub afterwards : TimeLoop → TimeLoop

abbrev pub set_links : Field → TimeLoop → TimeLoop
set_links next l = record l { queue = record l.queue { next = next } }

-- `node::immediately_post`; `none` is the failed assertion.
unfoldable pub immediately_post : ℕ → TimeLoop → Option TimeLoop
immediately_post op l = elim (l.queue.next op) [
  | some _ ↦ none
  | none ↦ elim (enqueue 1 op l.queue) [ none ↦ none | some q ↦ some (record l { queue = q }) ]
]

abbrev pub mark_completed : ℕ → TimeLoop → TimeLoop
mark_completed op l = record l { phases = λ z. if op == z then completed else l.phases z }

-- `node::publish`; `none` is the failed assertion.
unfoldable pub publish : ℕ → TimeLoop → Option TimeLoop
publish op l = elim (l.phases op) [
  | starting ↦ some (mark_completed op l)
  | armed ↦ immediately_post op (mark_completed op l)
  | cancel_deferred ↦ some (mark_completed op l)
  | completed ↦ none
]

unfoldable pub publish_pending : ℕ → Pointer → TimeLoop → Option TimeLoop
publish_pending zero op l = none
publish_pending (suc fuel) none l = some l
publish_pending (suc fuel) (some op) l =
    elim (publish op (set_links (store l.queue.next op none) l)) [
      | none ↦ none
      | some m ↦ publish_pending fuel (l.queue.next op) m
    ]

-- The `push_back` of every operation that `take_ready_timers` takes.
unfoldable pub push_all : List ℕ → IntrusiveList → IntrusiveList
push_all [] list = list
push_all (op ∷ ops) list = push_all ops (push_back op list)

-- `ready_time_ops`, with the links of the nodes.
abbrev pub new_list : Field → IntrusiveList
new_list next = record { next = next; head = none; tail = none }

module _ (deadline : ℕ → ℕ) (finish : ℕ → TimeLoop → TimeLoop) (fuel : ℕ) where
  -- The due timers are taken into the list, released and published.
  unfoldable pub publish_due : ℕ → TimeLoop → Option TimeLoop
  publish_due now l = elim (take_ready deadline (suc fuel) fuel now l.timers) [
    | none ↦ none
    | some (left, taken) ↦
        let (head, list) = release (push_all taken (new_list l.queue.next)) in
        publish_pending (suc fuel) head (set_links list.next (record l { timers = left }))
  ]

  -- `do_start` of the sleep of `sleep_sender`, and whether it calls `wakeup_consumer`.
  unfoldable pub start_sleep : ℕ → TimeLoop → TimeLoop × Bool
  start_sleep op l =
      let (timers, is_first) = add deadline op l.timers in (record l { timers = timers }, is_first)

  -- Its `do_cancel`: an operation that still is in the timer queue is withdrawn and published.
  unfoldable pub cancel_sleep : ℕ → TimeLoop → Option TimeLoop
  cancel_sleep op l = elim (remove deadline fuel op l.timers) [
    | none ↦ none
    | some (left, true) ↦
        publish op
          (record l { timers = left; canceled = λ z. if op == z then true else l.canceled z })
    | some (left, false) ↦ some (record l { timers = left })
  ]

  unfoldable pub consume : TimeLoop → Option (Bool × TimeLoop)
  consume l = elim (dequeue fuel l.queue) [
    | none ↦ none
    | some (none, q) ↦ some (false, record l { queue = q })
    | some (some op, q) ↦ some (true, finish op (record l { queue = q }))
  ]

  -- `do_one`, with a wakeup for every round.
  unfoldable pub do_one : Bool → List Wakeup → TimeLoop → Option (Bool × TimeLoop)
  do_one infinite [] l = none
  do_one infinite (w ∷ ws) l = if l.work_count == 0 then some (false, l) else elim (consume l) [
    | none ↦ none
    | some (true, m) ↦ some (true, m)
    | some (false, m) ↦
        elim (publish_due w.now
          (if infinite then w.sleep (earliest deadline m.timers) m else w.meanwhile m)) [
            | none ↦ none
            | some n ↦
                if infinite then do_one infinite ws (w.afterwards n) else consume (w.afterwards n)
          ]
  ]
