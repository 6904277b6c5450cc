-- ===== src/TimerQueue/Tests.antt =====
-- A queue with four operations, and the theorems at it.
use coio.Base.{ℕ, ◌*◌, ◌≡◌, refl, true, none, some, [], ◌∷◌, arith}
use coio.TimerQueue.Ready.{Ready, take_ready-Ready, Earliest, earliest-Earliest}
use coio.TimerQueue.Remove.{Removed, remove-Removed}
use coio.TimerQueue.Laws.{Holds, Added, add-Added}
use coio.TimerQueue.Shape.{Heap, nil, node}
use coio.TimerQueue.{
  TimerQueue, clear_links, detach, set_prev, adopt, meld, meld_pair, behind_pair, pair_up, fold_up,
  fold_stack, merge_children, add, pop_root, unlink, rejoin, remove_below, remove, take_ready,
  earliest,
}
use coio.Links.{Field, store}

abbrev deadline : ℕ → ℕ
deadline op = 10 * op

abbrev unlinked : Field
unlinked = λ x. none

-- Operation 1 is the root; below it 4 and 2 are siblings, and 5 is below 4.
abbrev timers : TimerQueue
timers = record {
  links = record {
    prev = store (store (store unlinked 5 (some 4)) 2 (some 4)) 4 (some 1);
    child = store (store unlinked 4 (some 5)) 1 (some 4);
    sibling = store unlinked 4 (some 2);
  };
  root = some 1;
}

abbrev heap : Heap
heap = node 1 (node 4 (node 5 nil nil) (node 2 nil nil)) nil

timers-Holds : Holds deadline timers heap
timers-Holds = record {
  linked = (refl, refl, (refl, refl, (refl, refl, refl, refl), (refl, refl, refl, refl)), refl);
  alone = tt;
  ordered = omega arith;
  distinct = λ z. ground arith;
  unlinked = λ z g. ground arith;
}

abbrev nothing : TimerQueue
nothing = record {
  links = record { prev = unlinked; child = unlinked; sibling = unlinked };
  root = none;
}

-- The second child goes to the front; then the others, in order, but for the last.
removed_then_taken :
    (q r : TimerQueue) × (remove deadline 9 4 timers ≡ some (q, true))
    × (q.root ≡ some 1)
    × (take_ready deadline 9 9 20 q ≡ some (r, 1 ∷ 2 ∷ []))
    × (r.root ≡ some 5)
unfolding remove remove_below unlink set_prev merge_children pair_up meld_pair detach meld adopt
    behind_pair fold_stack fold_up rejoin clear_links take_ready pop_root
removed_then_taken = (_, _, refl, refl, refl, refl)

added_first : (add deadline 0 timers).1 ≡ true
unfolding add meld adopt set_prev clear_links
added_first = refl

add-Added_example : Added deadline 3 heap (add deadline 3 timers)
add-Added_example = add-Added deadline 3 timers heap timers-Holds refl

remove-Removed_example : Removed deadline 4 timers heap (remove deadline 4 4 timers)
remove-Removed_example = remove-Removed deadline 4 4 timers heap timers-Holds (omega arith)

take_ready-Ready_example : Ready deadline 25 0 heap (take_ready deadline 5 4 25 timers)
take_ready-Ready_example =
    take_ready-Ready deadline 5 4 25 0 timers heap timers-Holds (λ z g. omega arith) (omega arith)
      (omega arith)

earliest-Earliest_test : Earliest deadline heap (earliest deadline timers)
earliest-Earliest_test = earliest-Earliest deadline timers heap timers-Holds
