-- ===== src/InplaceVector/Editing.antt =====
-- The operations of `inplace_vector` inside of it: `erase`, `pop_back`, `clear`, `insert`, `insert_range`
-- and `emplace`. An iterator is an index. An assignment that throws leaves the element as it was.

use coio.Base.{
  ℕ, zero, suc, ◌+◌, ◌-◌, Bool, ◌&&◌, ◌||◌, Option, none, some, List, [], ◌∷◌, if◌then◌else◌, ltb,
  leb, ◌==◌, length,
}
use coio.Base.Outcome.{Outcome, done, throws, undefined, bad_alloc, construction}
use coio.InplaceVector.{Vector, put, destroy_n, append_range, push_back}

-- `std::ranges::reverse` from `lo` up to `hi`.
abbrev pub reverse_range {ℓ} : {A : Type ℓ} → ℕ → ℕ → (ℕ → Option A) → ℕ → Option A
reverse_range lo hi m i = if leb lo i && ltb i hi then m (lo + hi - 1 - i) else m i

-- `shift_right_`
unfoldable pub shift_right {ℓ} : {A : Type ℓ} → ℕ → ℕ → Vector A → Vector A
shift_right start n v =
    if n == 0 || leb v.size (start + n)
    then v
    else let middle = start + (v.size - start - n) in
      record v {
        slots =
            reverse_range start v.size
              (reverse_range middle v.size (reverse_range start middle v.slots));
      }

-- What an insertion does behind its appending, which added `count` elements.
unfoldable pub shift_appended {ℓ} :
    {A : Type ℓ} → ℕ → (Vector A → ℕ) → Outcome {ℓ, 0} (Vector A) Unit → Outcome {ℓ, 0} (Vector A) ℕ
shift_appended index count (done w u) = done (shift_right index (count w) w) index
shift_appended index count (throws w e) = throws w e
shift_appended index count undefined = undefined

module _ {ℓ} {A : Type ℓ} (copy : A → Option A) (N : ℕ) where
  unfoldable pub insert_range : ℕ → Bool → List A → Vector A → Outcome {ℓ, 0} (Vector A) ℕ
  insert_range index sized r v =
      shift_appended index (λ w. w.size - v.size) (append_range copy N sized r v)

  unfoldable pub emplace : ℕ → A → Vector A → Outcome {ℓ, 0} (Vector A) ℕ
  emplace index x v = shift_appended index (λ w. 1) (push_back copy N x v)

module _ {ℓ} {A : Type ℓ} (copy : A → Option A) where
  -- `std::ranges::move` of the `k` elements from `from` on to `to`: `last` is a `const_iterator`, so that an
  -- element is assigned from a constant one, which copies it.
  unfoldable pub copy_down : ℕ → ℕ → ℕ → (ℕ → Option A) → Outcome {ℓ, 0} (ℕ → Option A) Unit
  copy_down zero from to m = done m tt
  copy_down (suc k) from to m = elim (m from) [
    | none ↦ undefined
    | some x ↦ elim (copy x) [
      | none ↦ throws m construction
      | some y ↦ copy_down k (suc from) (suc to) (put m to (some y))
    ]
  ]

  -- `erase(first, last)`
  unfoldable pub erase : ℕ → ℕ → Vector A → Outcome {ℓ, 0} (Vector A) ℕ
  erase index last v =
      if index == last then done v index else elim (copy_down (v.size - last) last index v.slots) [
        | undefined ↦ undefined
        | throws m e ↦ throws (record v { slots = m }) e
        | done m u ↦
            let count = last - index in
            done (record { slots = destroy_n count (v.size - count) m; size = v.size - count })
              index
      ]

  -- `pop_back`, whose assertion fails on an empty vector.
  unfoldable pub pop_back : Vector A → Outcome {ℓ, 0} (Vector A) ℕ
  pop_back v = if v.size == 0 then undefined else erase (v.size - 1) v.size v

  unfoldable pub clear : Vector A → Outcome {ℓ, 0} (Vector A) ℕ
  clear v = erase 0 v.size v

module _ {ℓ} {A : Type ℓ} (copy : A → Option A) (N : ℕ) where
  -- The loop of `assign_range`: the first `old` elements are assigned, which leaves an element as it is
  -- when it throws, and the others are appended. The result is where the loop ends.
  unfoldable pub assign_elements : ℕ → List A → ℕ → Vector A → Outcome {ℓ, 0} (Vector A) ℕ
  assign_elements old [] i v = done v i
  assign_elements old (x ∷ r) i v =
      if ltb i old
      then elim (copy x) [
        | none ↦ throws v construction
        | some y ↦ assign_elements old r (suc i) (record v { slots = put v.slots i (some y) })
      ]
      else elim (push_back copy N x v) [
        | done w u ↦ assign_elements old r (suc i) w
        | throws w e ↦ throws w e
        | undefined ↦ undefined
      ]

  -- `if (i < old_size) erase(cbegin() + i, cend());`
  unfoldable pub erase_rest : ℕ → Outcome {ℓ, 0} (Vector A) ℕ → Outcome {ℓ, 0} (Vector A) ℕ
  erase_rest old (done v i) = if ltb i old then erase copy i v.size v else done v i
  erase_rest old (throws v e) = throws v e
  erase_rest old undefined = undefined

  unfoldable pub assign_range : Bool → List A → Vector A → Outcome {ℓ, 0} (Vector A) ℕ
  assign_range sized r v =
      if sized && ltb N (length r)
      then throws v bad_alloc
      else erase_rest v.size (assign_elements v.size r 0 v)
