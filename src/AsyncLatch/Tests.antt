-- ===== src/AsyncLatch/Tests.antt =====
-- A waiter that is woken by the last arrival, step by step.
use coio.Base.{ℕ, ◌≡◌, refl, ◌≢◌, Bool, false, [], arith, ◌==◌}
use coio.AtomicStack.Laws.{nodes}
use coio.AsyncLatch.{
  Latch, init, Reach, start, later, Step, pick, last, arrive, pop, resume, leave, push, resumed,
  queued,
}
use coio.AsyncLatch.Safety.{resumed_at_zero, none_left_waiting, notifies}

-- Thread 1 waits, the others count down.
abbrev waits : ℕ → Bool
waits i = i == 1

abbrev Run : Type 0
Run = (l : Latch) × Reach 1 waits l

abbrev then_step : (r : Run) {m : Latch} → Step r.0 m → Run
then_step r {m} s = (m, later r.1 s)

-- Thread 1 queues up.
abbrev waiting : Run
waiting =
    then_step (then_step (init 1 waits, start) (pick 1 (arrive 0 (omega arith))))
      (pick 1 (push (omega arith)))

-- Thread 0 counts down, takes the stack and completes thread 1.
abbrev woken : Run
woken =
    then_step
      (then_step (then_step (then_step waiting (pick 0 (last 1 refl))) (pick 0 pop))
        (pick 0 (resume 1)))
      (pick 0 leave)

woken_result : (woken.0.waiter 1 ≡ resumed) × (woken.0.counter ≡ 0) × (woken.0.waiting ≡ nodes [])
woken_result = (refl, refl, refl)

resumed_at_zero_example : woken.0.counter ≡ 0
resumed_at_zero_example = resumed_at_zero (omega arith) woken.1 1 refl

quiet : (j : ℕ) → notifies (woken.0.pc j) ≡ false
quiet j = ground arith

none_left_waiting_example : woken.0.waiter 1 ≢ queued
none_left_waiting_example = none_left_waiting (omega arith) woken.1 refl quiet 1
