-- ===== src/AsyncMutex/Tests.antt =====
-- Two waiters that are served in the order they came, step by step.
use coio.Base.{ℕ, ◌≡◌, refl, true, none, some, List, [], ◌∷◌, arith, if◌then◌else◌, ◌==◌}
use coio.Links.{Field, Pointer, Chain, In}
use coio.AsyncMutex.{
  Mutex, locked, idle, waiting, owner, completing, new_mutex, goto, Move, begin, lock, link,
  enqueue, load_none, unlock_fails, exchange, store_head, complete, Step, pick, Reach, start, later,
}
use coio.AsyncMutex.Invariant.{holds}
use coio.AsyncMutex.Safety.{mutual_exclusion, none_forgotten, holder_moves, queue}
use coio.AsyncMutex.Fifo.{Served, behind, serves_in_order}
use coio.AsyncMutex.Reversal.{unlock_loop, unlock_loop-reverse}

abbrev Run : Type 0
Run = (l : Mutex) × Reach l

abbrev then_step : (r : Run) {m : Mutex} → Step r.0 m → Run
then_step r {m} s = (m, later r.1 s)

-- Thread 0 holds the lock.
abbrev taken : Run
taken = then_step (then_step (new_mutex, start) (pick 0 begin)) (pick 0 (lock refl))

-- Threads 1 and 2 wait for it.
abbrev one_waits : Run
one_waits =
    then_step (then_step (then_step taken (pick 1 begin)) (pick 1 (link refl)))
      (pick 1 (enqueue refl refl))

abbrev two_wait : Run
two_wait =
    then_step (then_step (then_step one_waits (pick 2 begin)) (pick 2 (link refl)))
      (pick 2 (enqueue refl refl))

two_wait_result : two_wait.0.word ≡ locked (2 ∷ 1 ∷ [])
two_wait_result = refl

-- Thread 0 is in `unlock`, about to call the first waiter.
abbrev about_to_complete : Run
about_to_complete =
    then_step
      (then_step
        (then_step (then_step two_wait (pick 0 (load_none refl))) (pick 0 (unlock_fails refl)))
        (pick 0 (exchange refl)))
      (pick 0 store_head)

abbrev last_step : Step about_to_complete.0 (goto (goto about_to_complete.0 0 idle) 1 owner)
last_step = pick 0 complete

abbrev handed : Run
handed = then_step about_to_complete last_step

handed_result : (handed.0.pc 1 ≡ owner) × (handed.0.pc 2 ≡ waiting) × (handed.0.head ≡ 2 ∷ [])
handed_result = (refl, refl, refl)

mutual_exclusion_example : ◌≡◌ {A = ℕ} 1 1
mutual_exclusion_example = mutual_exclusion handed.1 1 1 refl refl

none_forgotten_example :
    (h : ℕ) × (stack : List ℕ) × (holds (handed.0.pc h) ≡ true)
    × (handed.0.word ≡ locked stack)
    × In 2 (queue handed.0 h stack)
none_forgotten_example = none_forgotten handed.1 2 refl

serves_in_order_example : Served about_to_complete.0 handed.0 (1 ∷ 2 ∷ []) (2 ∷ [])
serves_in_order_example =
    serves_in_order about_to_complete.1 last_step (behind 0 (completing 1) [] refl refl refl refl)
      (behind 1 owner [] refl refl refl refl)

holder_moves_test : (m : Mutex) × Move about_to_complete.0 0 (completing 1) m
holder_moves_test = holder_moves about_to_complete.1 0 refl

-- Waiter 2 is on top of waiter 1.
abbrev two_links : Field
two_links i = if i == 2 then some 1 else none

unlock_loop-reverse_example :
    (links : Field) × (head : Pointer) × (unlock_loop 2 two_links (some 2) none
      ≡ some (links, head))
    × Chain links head (1 ∷ 2 ∷ [])
unlock_loop-reverse_example =
    unlock_loop-reverse 2 two_links (some 2) (2 ∷ 1 ∷ []) (omega arith) (refl, (refl, refl))
      (((λ e. absurd (omega arith)), tt), (tt, tt))
