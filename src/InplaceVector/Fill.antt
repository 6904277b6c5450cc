-- ===== src/InplaceVector/Fill.antt =====
-- The operations of `inplace_vector` that construct copies of one element.
use coio.Base.{
  ℕ, zero, suc, ◌+◌, ◌-◌, ◌≤◌, ◌<◌, ◌≡◌, refl, sym, ap, subst, inl, inr, true, false, Option, some,
  List, [], ◌∷◌, arith, ltb, leb, ◌==◌, Bool-cases, Option-cases, length, length-append,
}
use coio.Base.Outcome.{Outcome, done, throws, undefined, bad_alloc}
use coio.InplaceVector.{
  Vector, put, construct_range, construct_n, address_of_back, try_emplace_back_n, null_throws,
  push_back, resize,
}
use coio.InplaceVector.Storage.{Holds}
use coio.InplaceVector.Laws.{
  copies, Appends, appended, refused, Constructs, construct_range-Constructs,
  commit_or_undo-Appends,
}

-- `count` times the same element.
abbrev pub replicate {ℓ} : {A : Type ℓ} → ℕ → A → List A
replicate zero x = []
replicate (suc count) x = x ∷ replicate count x

module _ {ℓ} {A : Type ℓ} (copy : A → Option A) (N : ℕ) where
  -- Within the capacity, the loop of `try_emplace_back_n_` is that of `append_range`.
  construct_n-range :
      (k : ℕ) (x : A) (n : ℕ) (m : ℕ → Option A)
      → n + k ≤ N
      → construct_n copy N k x n m ≡ construct_range copy N (replicate k x) n m
  unfolding construct_n construct_range
  construct_n-range zero x n m h = refl
  construct_n-range (suc k) x n m h = elim (Option-cases (copy x)) [
    | inl c ↦ rw (room, c, construct_n, construct_range) refl
    | inr (y, c) ↦
        rw (room, c, construct_n, construct_range)
          (construct_n-range k x (suc n) (put m n (some y)) (omega arith))
  ]
    where
      room : (n == N) ≡ false
      room = ground arith

  pub length-replicate : (k : ℕ) (x : A) → length (replicate k x) ≡ k
  length-replicate zero x = refl
  length-replicate (suc k) x = ap suc (length-replicate k x)

  pub length-copies : (r ys : List A) → copies copy r ≡ some ys → length ys ≡ length r
  length-copies [] ys e = ground arith
  length-copies (x ∷ r) ys e = elim (Option-cases (copy x)) [
    | inl c ↦ absurd (ground arith)
    | inr (y, c) ↦ elim (Option-cases (copies copy r)) [
      | inl d ↦ absurd (ground arith)
      | inr (zs, d) ↦ ground (arith, length-copies r zs d)
    ]
  ]

  null_throws-back :
      (w : Vector A) → 0 < w.size → null_throws copy N (address_of_back copy N w) ≡ done w tt
  unfolding address_of_back
  null_throws-back w h = rw (positive, address_of_back) refl
    where
      positive : (w.size == 0) ≡ false
      positive = ground arith

  pub try_emplace_back_n-Appends :
      (k : ℕ) (x : A) (v : Vector A) (xs : List A)
      → Holds N v xs
      → 0 < length xs + k
      → Appends copy N v xs (replicate k x) (null_throws copy N (try_emplace_back_n copy N k x v))
  unfolding try_emplace_back_n
  try_emplace_back_n-Appends k x v xs w p = elim (Bool-cases (ltb N (v.size + k))) [
    | inl e ↦
        let full : N < length xs + length (replicate k x) =
          ground (arith, w.size, length-replicate k x) in
        rw (e, try_emplace_back_n) (refused v bad_alloc refl (inr full) w)
    | inr e ↦
        let room : v.size + k ≤ N = ground arith in
        rw (e, try_emplace_back_n, construct_n-range k x v.size v.slots room)
          (finish (
            commit_or_undo-Appends copy N v xs (replicate k x)
              (construct_range copy N (replicate k x) v.size v.slots) w
              (subst
                (λ n.
                  Constructs copy N xs (replicate k x)
                    (construct_range copy N (replicate k x) n v.slots))
                (sym w.size)
                (construct_range-Constructs copy N (replicate k x) xs v.slots w.stores w.fits))))
  ]
    where
      finish :
          {o : Outcome {ℓ, 0} (Vector A) Unit}
          → Appends copy N v xs (replicate k x) o
          → Appends copy N v xs (replicate k x) (
              null_throws copy N (elim o [
                | done w u ↦ address_of_back copy N w
                | throws w e ↦ throws w e
                | undefined ↦ undefined
              ]))
      finish (appended u ys q c h) = rw q (
          appended u ys
            (null_throws-back u (
              omega (
                arith,
                h.size,
                length-append xs ys,
                length-copies (replicate k x) ys c,
                length-replicate k x,
              )))
            c h)
      finish (refused u e q f h) = rw q (refused u e refl f h)

  -- `push_back` of a value appends its copy, or it throws and the vector still holds what it held.
  pub push_back-Appends :
      (x : A) (v : Vector A) (xs : List A)
      → Holds N v xs
      → Appends copy N v xs (x ∷ []) (push_back copy N x v)
  unfolding push_back
  push_back-Appends x v xs w = try_emplace_back_n-Appends 1 x v xs w (omega arith)

  -- `resize(count, value)` of a vector that is not longer appends copies of the value up to `count`, for
  -- a `count` other than 0, or it throws and the vector still holds what it held.
  pub resize-Appends :
      (count : ℕ) (x : A) (v : Vector A) (xs : List A)
      → Holds N v xs
      → length xs ≤ count
      → 0 < count
      → Appends copy N v xs (replicate (count - length xs) x) (resize copy N count x v)
  unfolding resize
  resize-Appends count x v xs w h p = elim (Bool-cases (ltb N count)) [
    | inl e ↦
        let full : N < length xs + length (replicate (count - length xs) x) =
          ground (arith, length-replicate (count - length xs) x) in
        rw (e, resize) (refused v bad_alloc refl (inr full) w)
    | inr e ↦
        rw (e, grows, resize)
          (subst
            (λ k.
              Appends copy N v xs (replicate (count - length xs) x)
                (null_throws copy N (try_emplace_back_n copy N (count - k) x v)))
            (sym w.size) (try_emplace_back_n-Appends (count - length xs) x v xs w (omega arith)))
  ]
    where
      grows : leb v.size count ≡ true
      grows = ground (arith, w.size)
