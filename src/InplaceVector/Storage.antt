-- ===== src/InplaceVector/Storage.antt =====
-- The storage of `inplace_vector` and the elements it holds.
use coio.Base.{
  ℕ, zero, suc, ◌+◌, ◌≤◌, ◌<◌, ◌≡◌, refl, sym, ap, ◌∙◌, ◌≢◌, ◌⊎◌, inl, inr, Option, none, some,
  List, [], ◌∷◌, ◌++◌, arith, dec_lt, ℕ_discrete, length, get_elem?, length-append,
}
use coio.InplaceVector.{Vector, put, destroy_n, new_vector}

-- The slots hold the elements of `xs`, and nothing behind them.
abbrev pub Stores {ℓ} : {A : Type ℓ} → (ℕ → Option A) → List A → Type ℓ
Stores m xs = (i : ℕ) → m i ≡ get_elem? xs i

pub record Holds {ℓ} {A : Type ℓ} (N : ℕ) (v : Vector A) (xs : List A) : Type ℓ where
  pub size : v.size ≡ length xs
  pub fits : length xs ≤ N
  pub stores : Stores v.slots xs

module _ {ℓ} {A : Type ℓ} where
  pub new_vector-Holds : (N : ℕ) → Holds N (new_vector {ℓ} {A = A}) []
  new_vector-Holds N = record { size = refl; fits = omega arith; stores = λ i. refl }

  pub get_elem?-behind : (xs : List A) (i : ℕ) → length xs ≤ i → get_elem? xs i ≡ none
  get_elem?-behind [] i h = refl
  get_elem?-behind (x ∷ xs) zero h = absurd (omega arith)
  get_elem?-behind (x ∷ xs) (suc i) h = get_elem?-behind xs i (omega arith)

  pub get_elem?-inside :
      (xs ys : List A) (i : ℕ) → i < length xs → get_elem? (xs ++ ys) i ≡ get_elem? xs i
  get_elem?-inside [] ys i h = absurd (omega arith)
  get_elem?-inside (x ∷ xs) ys zero h = refl
  get_elem?-inside (x ∷ xs) ys (suc i) h = get_elem?-inside xs ys i (omega arith)

  get_elem?-last : (xs : List A) (y : A) → get_elem? (xs ++ y ∷ []) (length xs) ≡ some y
  get_elem?-last [] y = refl
  get_elem?-last (x ∷ xs) y = get_elem?-last xs y

  get_elem?-not_last :
      (xs : List A) (y : A) (i : ℕ) → length xs ≢ i → get_elem? (xs ++ y ∷ []) i ≡ get_elem? xs i
  get_elem?-not_last [] y zero h = absurd (h refl)
  get_elem?-not_last [] y (suc i) h = refl
  get_elem?-not_last (x ∷ xs) y zero h = refl
  get_elem?-not_last (x ∷ xs) y (suc i) h = get_elem?-not_last xs y i (λ e. h (ap suc e))

  -- An element is constructed behind the last one.
  pub put-Stores :
      (m : ℕ → Option A) (xs : List A) (y : A)
      → Stores m xs
      → Stores (put m (length xs) (some y)) (xs ++ y ∷ [])
  put-Stores m xs y s i = elim (ℕ_discrete (length xs) i) [
    | yes q ↦ ground arith ∙ sym (get_elem?-last xs y) ∙ ap (get_elem? (xs ++ y ∷ [])) q
    | no q ↦ ground arith ∙ s i ∙ sym (get_elem?-not_last xs y i q)
  ]

  pub destroy_n-outside :
      (k start : ℕ) (m : ℕ → Option A) (i : ℕ)
      → (i < start) ⊎ (start + k ≤ i)
      → destroy_n k start m i ≡ m i
  unfolding destroy_n
  destroy_n-outside zero start m i h = refl
  destroy_n-outside (suc k) start m i h =
      destroy_n-outside k start (put m (start + k) none) i
        (elim h [ inl a ↦ inl a | inr a ↦ inr (omega arith) ])
      ∙ ground arith

  pub destroy_n-inside :
      (k start : ℕ) (m : ℕ → Option A) (i : ℕ)
      → start ≤ i
      → i < start + k
      → destroy_n k start m i ≡ none
  unfolding destroy_n
  destroy_n-inside zero start m i h g = absurd (omega arith)
  destroy_n-inside (suc k) start m i h g = elim (ℕ_discrete (start + k) i) [
    | yes q ↦
        destroy_n-outside k start (put m (start + k) none) i (inr (omega arith)) ∙ ground arith
    | no q ↦ destroy_n-inside k start (put m (start + k) none) i h (omega arith)
  ]

  -- The elements behind the first ones are destroyed.
  pub destroy_n-Stores :
      (m : ℕ → Option A) (xs ys : List A)
      → Stores m (xs ++ ys)
      → Stores (destroy_n (length ys) (length xs) m) xs
  destroy_n-Stores m xs ys s i = elim (dec_lt i (length xs)) [
    | yes h ↦
        destroy_n-outside (length ys) (length xs) m i (inl h) ∙ s i ∙ get_elem?-inside xs ys i h
    | no h ↦ elim (dec_lt i (length xs + length ys)) [
      | yes g ↦
          destroy_n-inside (length ys) (length xs) m i (omega arith) g
          ∙ sym (get_elem?-behind xs i (omega arith))
      | no g ↦
          destroy_n-outside (length ys) (length xs) m i (inr (omega arith))
          ∙ s i
          ∙ get_elem?-behind (xs ++ ys) i (omega (arith, length-append xs ys))
          ∙ sym (get_elem?-behind xs i (omega arith))
    ]
  ]
