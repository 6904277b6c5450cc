-- ===== src/InplaceVector/Tests.antt =====
-- A vector of capacity 3, of numbers whose copy throws at 7.
use coio.Base.{
  ℕ, zero, suc, ◌-◌, ◌≡◌, refl, false, Option, none, some, [], ◌∷◌, arith, if◌then◌else◌, ◌==◌,
}
use coio.InplaceVector.Insert.{Inserts, emplace-Inserts}
use coio.InplaceVector.Assign.{Assigns, assign_range-Assigns}
use coio.InplaceVector.Editing.{
  shift_right, shift_appended, emplace, copy_down, erase, assign_range, assign_elements, erase_rest,
}
use coio.Base.Outcome.{done, throws, construction}
use coio.InplaceVector.{
  Vector, put, append_range, push_back, resize, try_emplace_back_n, address_of_back, construct_n,
  commit_or_undo, destroy_n,
}
use coio.InplaceVector.Storage.{Stores, Holds}
use coio.InplaceVector.Laws.{Appends, append_range-Appends}
use coio.InplaceVector.Fill.{push_back-Appends, resize-Appends, replicate}

abbrev copy : ℕ → Option ℕ
copy x = if x == 7 then none else some x

abbrev two : Vector ℕ
two = record { slots = put (put (λ i. none) 0 (some 4)) 1 (some 5); size = 2 }

abbrev three : Vector ℕ
three = record { slots = put two.slots 2 (some 6); size = 3 }

two-Holds : Holds 3 two (4 ∷ 5 ∷ [])
two-Holds = record { size = refl; fits = omega arith; stores = λ i. at_slot i }
  where
    at_slot : Stores two.slots (4 ∷ 5 ∷ [])
    at_slot zero = refl
    at_slot (suc zero) = refl
    at_slot (suc (suc i)) = ground arith

append_range-Appends_test :
    Appends copy 3 two (4 ∷ 5 ∷ []) (6 ∷ 7 ∷ []) (append_range copy 3 false (6 ∷ 7 ∷ []) two)
append_range-Appends_test =
    append_range-Appends copy 3 false (6 ∷ 7 ∷ []) two (4 ∷ 5 ∷ []) two-Holds

push_back-Appends_test : Appends copy 3 two (4 ∷ 5 ∷ []) (6 ∷ []) (push_back copy 3 6 two)
push_back-Appends_test = push_back-Appends copy 3 6 two (4 ∷ 5 ∷ []) two-Holds

resize-Appends_test : Appends copy 3 two (4 ∷ 5 ∷ []) (replicate (3 - 2) 6) (resize copy 3 3 6 two)
resize-Appends_test =
    resize-Appends copy 3 3 6 two (4 ∷ 5 ∷ []) two-Holds (omega arith) (omega arith)

-- A copy of 6 goes to the front.
emplaced :
    (w : Vector ℕ) × (emplace copy 3 0 6 two ≡ done w 0)
    × (w.slots 0 ≡ some 6)
    × (w.slots 2 ≡ some 5)
unfolding emplace shift_appended shift_right push_back try_emplace_back_n address_of_back
    construct_n commit_or_undo
emplaced = (_, refl, refl, refl)

-- The copy of the last element throws, when the one before it was assigned.
abbrev throwing : Vector ℕ
throwing = record { slots = put (put two.slots 2 (some 6)) 3 (some 7); size = 4 }

erase_throws :
    (w : Vector ℕ) × (erase copy 1 2 throwing ≡ throws w construction)
    × (w.slots 1 ≡ some 6)
    × (w.slots 2 ≡ some 6)
    × (w.slots 3 ≡ some 7)
    × (w.size ≡ 4)
unfolding erase copy_down
erase_throws = (_, refl, refl, refl, refl, refl)

emplace-Inserts_test : Inserts copy 3 (4 ∷ []) (5 ∷ []) (6 ∷ []) (emplace copy 3 1 6 two)
emplace-Inserts_test = emplace-Inserts copy 3 6 two (4 ∷ []) (5 ∷ []) two-Holds

assign_range-Assigns_example : Assigns copy 3 (6 ∷ []) (assign_range copy 3 false (6 ∷ []) two)
assign_range-Assigns_example = assign_range-Assigns copy 3 false (6 ∷ []) two (4 ∷ 5 ∷ []) two-Holds

-- The rest is erased, and a copy that throws leaves what was assigned before it.
assigned_shorter :
    (w : Vector ℕ) × (u : Vector ℕ) × (assign_range copy 3 false (6 ∷ []) two ≡ done w 1)
    × (assign_range copy 3 false (6 ∷ 7 ∷ []) two ≡ throws u construction)
    × (u.slots 0 ≡ some 6)
    × (u.slots 1 ≡ some 5)
unfolding assign_range assign_elements erase_rest erase copy_down destroy_n
assigned_shorter = (_, _, refl, refl, refl, refl)
