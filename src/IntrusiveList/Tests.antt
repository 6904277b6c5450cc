-- ===== src/IntrusiveList/Tests.antt =====
-- The theorems of the list at inputs that meet their hypotheses.
use coio.Base.{◌≡◌, refl, none, some, [], ◌∷◌, arith}
use coio.Links.{store}
use coio.IntrusiveList.{IntrusiveList, push_back, append, walk}
use coio.IntrusiveList.Laws.{Lists, Pops, push_back-Lists, append-Lists, pop_front-Pops}

-- 1 then 2; 7 is linked to 8.
abbrev two : IntrusiveList
two = record {
  next = store (store (λ x. none) 1 (some 2)) 7 (some 8);
  head = some 1;
  tail = some 2;
}

two-Lists : Lists two (1 ∷ 2 ∷ [])
two-Lists = record { chain = (refl, (refl, refl)); ends = refl; distinct = omega arith }

appended :
    (r : IntrusiveList) × (append 5 7 two ≡ some (2, r)) × (r.tail ≡ some 8) × (r.next 2 ≡ some 7)
unfolding append walk
appended = (_, refl, refl, refl)

push_back-Lists_test : Lists (push_back 5 two) (1 ∷ 2 ∷ 5 ∷ [])
push_back-Lists_test = push_back-Lists 5 (1 ∷ 2 ∷ []) two-Lists (omega arith)

append-Lists_test :
    (r : IntrusiveList) × (append 2 7 two ≡ some (2, r)) × Lists r (1 ∷ 2 ∷ 7 ∷ 8 ∷ [])
append-Lists_test =
    append-Lists 2 7 (8 ∷ []) (1 ∷ 2 ∷ []) two-Lists (refl, refl) (omega arith) (omega arith)
      (omega arith)

pop_front-Pops_test : Pops two (1 ∷ 2 ∷ [])
pop_front-Pops_test = pop_front-Pops (1 ∷ 2 ∷ []) two-Lists
