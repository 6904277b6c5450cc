-- ===== src/AsyncSemaphore/Tests.antt =====
-- One permit and three wait states; the one in the middle is stopped.
use coio.Base.{ℕ, ◌+◌, ◌<◌, ◌≡◌, refl, ◌≢◌, true, false, [], ◌∷◌, arith}
use coio.AsyncSemaphore.{
  Semaphore, new_semaphore, resumed, try_acquire, start, release, unregister, append_waiter, relink,
  detach, release_at, pop_head,
}
use coio.AsyncSemaphore.Unlink.{here, there}
use coio.AsyncSemaphore.Waiting.{Waits}
use coio.AsyncSemaphore.Operations.{
  unregister-Waits, unregister-outside, Releases, Starts, start-Starts,
}
use coio.AsyncSemaphore.Permits.{
  Reach, create, start_completes, start_queues, permits_conserved, oldest_first,
  waits_for_none_left, Reach-Waits,
}

abbrev one : Semaphore
one = (start false 1 (new_semaphore 1)).1

abbrev two : Semaphore
two = (start false 2 one).1

abbrev three : Semaphore
three = (start false 3 two).1

abbrev four : Semaphore
four = (start false 4 three).1

abbrev without_three : Semaphore
without_three = (unregister 3 four).1

apart : (a b : ℕ) → a < b → b ≢ a
apart a b h e = omega arith

waits_four : Reach 1 9 four (2 ∷ 3 ∷ 4 ∷ []) 1 0
unfolding start try_acquire append_waiter
waits_four =
    start_queues 4
      (start_queues 3 (start_queues 2 (start_completes 1 create tt refl) tt refl)
        (apart 2 3 (omega arith), tt) refl)
      (apart 2 4 (omega arith), (apart 3 4 (omega arith), tt)) refl

-- The two that are left are resumed in order.
order :
    ((release 9 without_three).0 ≡ resumed 2)
    × ((release 9 (release 9 without_three).1).0 ≡ resumed 4)
unfolding start try_acquire append_waiter unregister relink detach release release_at pop_head
order = (refl, refl)

permits_conserved_example : four.counter + 1 ≡ 1 + 0
permits_conserved_example = permits_conserved waits_four

waits_for_none_left_example : 1 ≡ 1 + 0
waits_for_none_left_example = waits_for_none_left waits_four (λ e. cc)

oldest_first_example : Releases 9 four (2 ∷ 3 ∷ 4 ∷ []) (release 9 four)
oldest_first_example = oldest_first waits_four

start-Starts_test : Starts 5 four (2 ∷ 3 ∷ 4 ∷ []) (start false 5 four)
start-Starts_test =
    start-Starts 5 four (2 ∷ 3 ∷ 4 ∷ []) (Reach-Waits waits_four)
      (apart 2 5 (omega arith), (apart 3 5 (omega arith), (apart 4 5 (omega arith), tt)))

unregister-Waits_test :
    ((unregister 3 four).0 ≡ true)
    × Waits without_three (2 ∷ 4 ∷ [])
    × (without_three.counter ≡ four.counter)
unregister-Waits_test =
    unregister-Waits four 3 (2 ∷ 3 ∷ 4 ∷ []) (2 ∷ 4 ∷ []) (Reach-Waits waits_four) (there here)

unregister-outside_test : unregister 5 four ≡ (false, four)
unregister-outside_test =
    unregister-outside four 5 (2 ∷ 3 ∷ 4 ∷ []) (Reach-Waits waits_four)
      (apart 2 5 (omega arith), (apart 3 5 (omega arith), (apart 4 5 (omega arith), tt)))
