-- ===== src/InplaceVector.antt =====
-- include/coio/utils/inplace_vector.h: `inplace_vector` of capacity `N`. A slot of the storage is
-- `some` when an object was constructed there and not destroyed since. The copy constructor of the
-- elements is a parameter, `none` when it throws.
pub mod Storage
pub mod Laws
pub mod Fill
pub mod Editing
pub mod Splice
pub mod Erase
pub mod Insert
pub mod Assign
mod Tests
use coio.Base.{
  ℕ, zero, suc, ◌+◌, ◌-◌, ◌*◌, ◌/◌, ◌%◌, ◌^◌, ◌≤◌, ◌<◌, min, max, ◌≡◌, refl, sym, ap, ◌∙◌, subst,
  ◌≢◌, ◌↔◌, ◌⊎◌, inl, inr, Bool, true, false, ◌&&◌, ◌||◌, not, Option, none, some, List, [], ◌∷◌,
  ◌++◌, map, reverse, arith, dec_lt, dec_le, ℕ_discrete, if◌then◌else◌, ltb, leb, ◌==◌, Bool-cases,
  Option-cases, length, get_elem?, set, take, drop, slice, overwrite, add_size, sub_size, mul_size,
  size_mod, length-append, length-take, length-drop,
}
use coio.Base.Outcome.{
  Fault, Outcome, done, throws, undefined, bad_alloc, out_of_range, construction,
}

pub record Vector {ℓ} (A : Type ℓ) : Type ℓ where
  pub slots : ℕ → Option A
  pub size : ℕ

abbrev pub put {ℓ} : {A : Type ℓ} → (ℕ → Option A) → ℕ → Option A → ℕ → Option A
put m i x j = if i == j then x else m j

-- Where a loop that constructs elements stops: behind the last one, or at an exception.
pub data Built {ℓ} (A : Type ℓ) : Type ℓ where
  built : (ℕ → Option A) → ℕ → Built A
  broke : (ℕ → Option A) → ℕ → Fault → Built A

abbrev pub new_vector {ℓ} : {A : Type ℓ} → Vector A
new_vector = record { slots = λ i. none; size = 0 }

-- `while (n-- > cur_size_) destroy_at(storages_[n])`, which runs `k` times, and `destroy_n`.
unfoldable pub destroy_n {ℓ} : {A : Type ℓ} → ℕ → ℕ → (ℕ → Option A) → ℕ → Option A
destroy_n zero start m = m
destroy_n (suc k) start m = destroy_n k start (put m (start + k) none)

module _ {ℓ} {A : Type ℓ} (copy : A → Option A) (N : ℕ) where
  -- The loop of `append_range`.
  unfoldable pub construct_range : List A → ℕ → (ℕ → Option A) → Built A
  construct_range [] n m = built m n
  construct_range (x ∷ xs) n m = if n == N then broke m n bad_alloc else elim (copy x) [
    | none ↦ broke m n construction
    | some y ↦ construct_range xs (suc n) (put m n (some y))
  ]

  -- The loop of `try_emplace_back_n_`.
  unfoldable pub construct_n : ℕ → A → ℕ → (ℕ → Option A) → Built A
  construct_n zero x n m = built m n
  construct_n (suc k) x n m = elim (copy x) [
    | none ↦ broke m n construction
    | some y ↦ construct_n k x (suc n) (put m n (some y))
  ]

  -- `cur_size_ = n`, or the handler, which destroys what the loop has constructed.
  unfoldable pub commit_or_undo : Vector A → Built A → Outcome {ℓ, 0} (Vector A) Unit
  commit_or_undo v (built m n) = done (record { slots = m; size = n }) tt
  commit_or_undo v (broke m n e) = throws (record v { slots = destroy_n (n - v.size) v.size m }) e

  -- `sized` is whether the range knows its size.
  unfoldable pub append_range : Bool → List A → Vector A → Outcome {ℓ, 0} (Vector A) Unit
  append_range sized r v =
      if sized && ltb N (length r + v.size)
      then throws v bad_alloc
      else commit_or_undo v (construct_range r v.size v.slots)

  -- `addressof(back())`, the index of the last element; there is none to refer to in an empty vector.
  unfoldable pub address_of_back : Vector A → Outcome {ℓ, 0} (Vector A) (Option ℕ)
  address_of_back v = if v.size == 0 then undefined else done v (some (v.size - 1))

  -- Its callers here ask for no more than the capacity leaves and one, so that the sum does not wrap.
  unfoldable pub try_emplace_back_n : ℕ → A → Vector A → Outcome {ℓ, 0} (Vector A) (Option ℕ)
  try_emplace_back_n count x v =
      if ltb N (v.size + count)
      then done v none
      else elim (commit_or_undo v (construct_n count x v.size v.slots)) [
        | done w u ↦ address_of_back w
        | throws w e ↦ throws w e
        | undefined ↦ undefined
      ]

  -- `if (… == nullptr) throw bad_alloc{}`.
  abbrev null_throws : Outcome {ℓ, 0} (Vector A) (Option ℕ) → Outcome {ℓ, 0} (Vector A) Unit
  null_throws (done v none) = throws v bad_alloc
  null_throws (done v (some p)) = done v tt
  null_throws (throws v e) = throws v e
  null_throws undefined = undefined

  unfoldable pub push_back : A → Vector A → Outcome {ℓ, 0} (Vector A) Unit
  push_back x v = null_throws (try_emplace_back_n 1 x v)

  -- `resize(count, value)`.
  unfoldable pub resize : ℕ → A → Vector A → Outcome {ℓ, 0} (Vector A) Unit
  resize count x v =
      if ltb N count
      then throws v bad_alloc
      else if leb v.size count
      then null_throws (try_emplace_back_n (count - v.size) x v)
      else done (record v { slots = destroy_n (v.size - count) count v.slots }) tt

  -- `at`, and the read of the element it refers to.
  unfoldable pub at : ℕ → Vector A → Outcome {ℓ, ℓ} (Vector A) A
  at index v =
      if leb v.size index
      then throws v out_of_range
      else elim (v.slots index) [ none ↦ undefined | some x ↦ done v x ]
