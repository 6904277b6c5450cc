-- ===== src/AtomicStack/Tests.antt =====
-- The theorems of the stack at inputs that meet their hypotheses.
use coio.Base.{ℕ, ◌≡◌, refl, ◌↔◌, true, none, some, List, [], ◌∷◌, arith}
use coio.Links.{store, Chain}
use coio.AtomicStack.{
  AtomicStack, new_stack, push, pop_all, status, empty, not_empty, empty_and_never_pushed, at,
}
use coio.AtomicStack.Laws.{nodes, Shows, linked, push-Shows, pop_all-Shows, status-Shows}

-- 2 was pushed on 1.
abbrev two : AtomicStack
two = record { next = store (λ x. none) 2 (some 1); head = at (some 2) }

two-Shows : Shows two (nodes (2 ∷ 1 ∷ []))
two-Shows = linked (some 2) refl (refl, (refl, refl)) (omega arith)

first_push : (push 4 (new_stack (λ x. none))).0 ≡ empty_and_never_pushed
unfolding push
first_push = refl

push-Shows_test : ((push 5 two).0 ≡ not_empty) × Shows (push 5 two).1 (nodes (5 ∷ 2 ∷ 1 ∷ []))
push-Shows_test = push-Shows 5 two-Shows (omega arith)

pop_all-Shows_test : Chain two.next (pop_all two).0 (2 ∷ 1 ∷ []) × Shows (pop_all two).1 (nodes [])
pop_all-Shows_test = pop_all-Shows two-Shows

status-Shows_example :
    (status two ≡ not_empty) × ((empty two ≡ true) ↔ ◌≡◌ {A = List ℕ} (2 ∷ 1 ∷ []) [])
status-Shows_example = status-Shows two-Shows
