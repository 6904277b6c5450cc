-- ===== src/InplaceVector/Laws.antt =====
-- `append_range` of `inplace_vector` on the elements it holds.
use coio.Base.{
  ℕ, suc, ◌+◌, ◌-◌, ◌≤◌, ◌<◌, ◌≡◌, refl, sym, ap, ◌∙◌, subst, ◌⊎◌, inl, inr, Bool, ◌&&◌, Option,
  none, some, List, [], ◌∷◌, ◌++◌, arith, ltb, ◌==◌, Bool-cases, Option-cases, length,
  length-append,
}
use coio.Base.Outcome.{Fault, Outcome, done, throws, bad_alloc, construction}
use coio.InplaceVector.{
  Vector, put, Built, built, broke, destroy_n, construct_range, commit_or_undo, append_range,
}
use coio.InplaceVector.Storage.{Stores, Holds, put-Stores, destroy_n-Stores}
use mathlib.Core.List.{append-nil, append_assoc}

-- Every element of the list is copied, or the first copy that throws is the end of it.
abbrev pub copies {ℓ} : {A : Type ℓ} → (A → Option A) → List A → Option (List A)
copies copy [] = some []
copies copy (x ∷ xs) = elim (copy x) [
  | none ↦ none
  | some y ↦ elim (copies copy xs) [ none ↦ none | some ys ↦ some (y ∷ ys) ]
]

module _ {ℓ} {A : Type ℓ} (copy : A → Option A) (N : ℕ) where
  -- Where the loop of `append_range` stops behind `xs`.
  pub data Constructs (xs r : List A) (b : Built A) : Type ℓ where
    all :
        (ys : List A) (m : ℕ → Option A)
        → b ≡ built m (length (xs ++ ys))
        → copies copy r ≡ some ys
        → Stores m (xs ++ ys)
        → length (xs ++ ys) ≤ N
        → Constructs xs r b
    fails :
        (ys : List A) (m : ℕ → Option A) (e : Fault)
        → b ≡ broke m (length (xs ++ ys)) e
        → (copies copy r ≡ none) ⊎ (N < length xs + length r)
        → Stores m (xs ++ ys)
        → Constructs xs r b

  -- One more element in front of the rest.
  Constructs-cons :
      (xs r : List A) (x y : A) (b : Built A)
      → copy x ≡ some y
      → Constructs (xs ++ y ∷ []) r b
      → Constructs xs (x ∷ r) b
  Constructs-cons xs r x y b e (all ys m q c s h) =
      let p : xs ++ y ∷ [] ++ ys ≡ xs ++ y ∷ ys = append_assoc xs (y ∷ []) ys in
      all (y ∷ ys) m (q ∙ ap (λ zs. built m (length zs)) p) (rw (e, c, copies) refl)
        (subst (Stores m) p s) (subst (λ zs. length zs ≤ N) p h)
  Constructs-cons xs r x y b e (fails ys m f q c s) =
      let p : xs ++ y ∷ [] ++ ys ≡ xs ++ y ∷ ys = append_assoc xs (y ∷ []) ys in
      fails (y ∷ ys) m f (q ∙ ap (λ zs. broke m (length zs) f) p)
        (elim c [
          | inl n ↦ inl (rw (e, n, copies) refl)
          | inr n ↦ inr (omega (arith, length-append xs (y ∷ [])))
        ])
        (subst (Stores m) p s)

  -- The loop stops at once.
  Constructs-stops :
      (xs r : List A) (m : ℕ → Option A) (e : Fault)
      → (copies copy r ≡ none) ⊎ (N < length xs + length r)
      → Stores m xs
      → Constructs xs r (broke m (length xs) e)
  Constructs-stops xs r m e c s =
      fails [] m e (ap (λ zs. broke m (length zs) e) (sym (append-nil xs))) c
        (subst (Stores m) (sym (append-nil xs)) s)

  pub construct_range-Constructs :
      (r xs : List A) (m : ℕ → Option A)
      → Stores m xs
      → length xs ≤ N
      → Constructs xs r (construct_range copy N r (length xs) m)
  unfolding construct_range
  construct_range-Constructs [] xs m s h =
      all [] m (ap (λ zs. built m (length zs)) (sym (append-nil xs))) refl
        (subst (Stores m) (sym (append-nil xs)) s) (rw (append-nil xs) h)
  construct_range-Constructs (x ∷ r) xs m s h = elim (Bool-cases (length xs == N)) [
    | inl e ↦
        let full : N < length xs + suc (length r) = ground arith in
        rw (e, construct_range) (Constructs-stops xs (x ∷ r) m bad_alloc (inr full) s)
    | inr e ↦ elim (Option-cases (copy x)) [
      | inl c ↦
          let none_left : copies copy (x ∷ r) ≡ none = rw (c, copies) refl in
          rw (e, c, construct_range) (Constructs-stops xs (x ∷ r) m construction (inl none_left) s)
      | inr (y, c) ↦
          let n : length (xs ++ y ∷ []) ≡ suc (length xs) =
            omega (arith, length-append xs (y ∷ [])) in
          let room : length (xs ++ y ∷ []) ≤ N = ground (arith, n, e) in
          rw (e, c, construct_range)
            (Constructs-cons xs r x y
              (construct_range copy N r (suc (length xs)) (put m (length xs) (some y))) c
              (subst
                (λ k.
                  Constructs (xs ++ y ∷ []) r
                    (construct_range copy N r k (put m (length xs) (some y))))
                n
                (construct_range-Constructs r (xs ++ y ∷ []) (put m (length xs) (some y))
                  (put-Stores m xs y s) room)))
    ]
  ]

  -- What a call that appends comes to: everything is appended, or nothing is.
  pub data Appends (v : Vector A) (xs r : List A) (o : Outcome {ℓ, 0} (Vector A) Unit)
      : Type ℓ where
    appended :
        (w : Vector A) (ys : List A)
        → o ≡ done w tt
        → copies copy r ≡ some ys
        → Holds N w (xs ++ ys)
        → Appends v xs r o
    refused :
        (w : Vector A) (e : Fault)
        → o ≡ throws w e
        → (copies copy r ≡ none) ⊎ (N < length xs + length r)
        → Holds N w xs
        → Appends v xs r o

  pub commit_or_undo-Appends :
      (v : Vector A) (xs r : List A) (b : Built A)
      → Holds N v xs
      → Constructs xs r b
      → Appends v xs r (commit_or_undo copy N v b)
  unfolding commit_or_undo
  commit_or_undo-Appends v xs r b w (all ys m q c s h) =
      appended (record { slots = m; size = length (xs ++ ys) }) ys (rw (q, commit_or_undo) refl) c
        (record { size = refl; fits = h; stores = s })
  commit_or_undo-Appends v xs r b w (fails ys m e q c s) =
      refused (record v { slots = destroy_n (length (xs ++ ys) - v.size) v.size m }) e
        (rw (q, commit_or_undo) refl) c
        record {
          size = w.size;
          fits = w.fits;
          stores = rw (w.size, count) (destroy_n-Stores m xs ys s);
        }
    where
      count : length (xs ++ ys) - length xs ≡ length ys
      count = omega (arith, length-append xs ys)

  -- `append_range` appends the copies of all elements, or it throws, since a copy throws or there is
  -- no room for all, and the vector still holds what it held.
  pub append_range-Appends :
      (sized : Bool) (r : List A) (v : Vector A) (xs : List A)
      → Holds N v xs
      → Appends v xs r (append_range copy N sized r v)
  unfolding append_range
  append_range-Appends sized r v xs w = elim (Bool-cases (sized && ltb N (length r + v.size))) [
    | inl e ↦
        let full : N < length xs + length r = ground (arith, w.size) in
        rw (e, append_range) (refused v bad_alloc refl (inr full) w)
    | inr e ↦
        rw (e, append_range)
          (commit_or_undo-Appends v xs r (construct_range copy N r v.size v.slots) w (
            subst (λ n. Constructs xs r (construct_range copy N r n v.slots)) (sym w.size)
              (construct_range-Constructs r xs v.slots w.stores w.fits)))
  ]
