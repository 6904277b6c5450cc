-- ===== src/Base/Lists.antt =====
-- Lists measured and indexed by native numbers, under the library's names.
use Prim.Native.Nat.{ℕ, zero, suc, ◌+◌, ◌-◌, ◌≤◌, ◌<◌, min}
use Prim.Native.Nat.add
use mathlib.Core.Path.{◌≡◌, refl, ap, sym, ◌∙◌}
use mathlib.Core.Logic.{◌≢◌, ◌⊎◌, inl, inr}
use mathlib.Core.List.{reverse, reverse-cons, List, [], ◌∷◌, ◌++◌, map}
use mathlib.Core.Option.{Option, none, some}
use native.Mathlib.Nat.{sub-zero, zero-sub, suc-sub-suc}
use native.Mathlib.Omega.{arith}
use native.Mathlib.Decide.{dec_le}

module _ {ℓ} {A : Type ℓ} where
  abbrev pub length : List A → ℕ
  length [] = 0
  length (x ∷ xs) = suc (length xs)

  abbrev pub get_elem? : List A → ℕ → Option A
  get_elem? [] i = none
  get_elem? (x ∷ xs) zero = some x
  get_elem? (x ∷ xs) (suc i) = get_elem? xs i

  -- A write out of bounds changes nothing.
  abbrev pub set : List A → ℕ → A → List A
  set [] i v = []
  set (x ∷ xs) zero v = v ∷ xs
  set (x ∷ xs) (suc i) v = x ∷ set xs i v

  pub length-append : (xs ys : List A) → length (xs ++ ys) ≡ length xs + length ys
  length-append [] ys = omega arith
  length-append (x ∷ xs) ys = omega (arith, length-append xs ys)

module _ {ℓ} {A : Type ℓ} where
  pub length-set : (xs : List A) (i : ℕ) (v : A) → length (set xs i v) ≡ length xs
  length-set [] i v = refl
  length-set (x ∷ xs) zero v = refl
  length-set (x ∷ xs) (suc i) v = ap suc (length-set xs i v)

  pub get_elem?-set_self :
      (xs : List A) (i : ℕ) (v : A) → i < length xs → get_elem? (set xs i v) i ≡ some v
  get_elem?-set_self [] i v h = elim h [ ]
  get_elem?-set_self (x ∷ xs) zero v h = refl
  get_elem?-set_self (x ∷ xs) (suc i) v h = get_elem?-set_self xs i v (omega arith)

  pub get_elem?-set_ne :
      (xs : List A) {i j : ℕ} (v : A) → i ≢ j → get_elem? (set xs i v) j ≡ get_elem? xs j
  get_elem?-set_ne [] v h = refl
  get_elem?-set_ne (x ∷ xs) {i = zero} {j = zero} v h = absurd (h refl)
  get_elem?-set_ne (x ∷ xs) {i = zero} {j = suc j} v h = refl
  get_elem?-set_ne (x ∷ xs) {i = suc i} {j = zero} v h = refl
  get_elem?-set_ne (x ∷ xs) {i = suc i} {j = suc j} v h = get_elem?-set_ne xs v (λ e. h (ap suc e))

module _ {ℓ} {A : Type ℓ} where
  abbrev pub get_or : List A → ℕ → A → A
  get_or [] i d = d
  get_or (x ∷ xs) zero d = x
  get_or (x ∷ xs) (suc i) d = get_or xs i d

  abbrev pub take : ℕ → List A → List A
  take zero xs = []
  take (suc n) [] = []
  take (suc n) (x ∷ xs) = x ∷ take n xs

  abbrev pub drop : ℕ → List A → List A
  drop zero xs = xs
  drop (suc n) [] = []
  drop (suc n) (x ∷ xs) = drop n xs

  abbrev pub replicate : ℕ → A → List A
  replicate zero a = []
  replicate (suc n) a = a ∷ replicate n a

  pub take-append-drop : (n : ℕ) (xs : List A) → take n xs ++ drop n xs ≡ xs
  take-append-drop zero xs = refl
  take-append-drop (suc n) [] = refl
  take-append-drop (suc n) (x ∷ xs) = rw (take-append-drop n xs)

  pub length-take : (n : ℕ) (xs : List A) → length (take n xs) ≡ min n (length xs)
  length-take zero xs = omega arith
  length-take (suc n) [] = omega arith
  length-take (suc n) (x ∷ xs) = omega (arith, length-take n xs)

  pub length-drop : (n : ℕ) (xs : List A) → length (drop n xs) ≡ length xs - n
  length-drop zero xs = omega arith
  length-drop (suc n) [] = omega arith
  length-drop (suc n) (x ∷ xs) = omega (arith, length-drop n xs)

  pub length-replicate : (n : ℕ) (a : A) → length (replicate n a) ≡ n
  length-replicate zero a = refl
  length-replicate (suc n) a = ap suc (length-replicate n a)

  pub length-map {κ} : {B : Type κ} (xs : List A) (f : A → B) → length (map f xs) ≡ length xs
  length-map [] f = refl
  length-map (x ∷ xs) f = ap suc (length-map xs f)

  -- The `n` items from index `i` on.
  abbrev pub slice : List A → ℕ → ℕ → List A
  slice xs i n = take n (drop i xs)

  pub slice_cong : (xs : List A) {i j m n : ℕ} → i ≡ j → m ≡ n → slice xs i m ≡ slice xs j n
  slice_cong xs p q = rw (p, q)

  pub length-slice : (xs : List A) (i n : ℕ) → i + n ≤ length xs → length (slice xs i n) ≡ n
  length-slice xs i n h = omega (arith, length-take n (drop i xs), length-drop i xs)

  pub take-append_exact : (n : ℕ) (xs ys : List A) → length xs ≡ n → take n (xs ++ ys) ≡ xs
  take-append_exact zero [] ys h = refl
  take-append_exact zero (x ∷ xs) ys h = absurd (omega arith)
  take-append_exact (suc n) [] ys h = absurd (omega arith)
  take-append_exact (suc n) (x ∷ xs) ys h = rw (take-append_exact n xs ys (omega arith))

  pub drop-append_exact : (n : ℕ) (xs ys : List A) → length xs ≡ n → drop n (xs ++ ys) ≡ ys
  drop-append_exact zero [] ys h = refl
  drop-append_exact zero (x ∷ xs) ys h = absurd (omega arith)
  drop-append_exact (suc n) [] ys h = absurd (omega arith)
  drop-append_exact (suc n) (x ∷ xs) ys h = drop-append_exact n xs ys (omega arith)

  drop-nil : (n : ℕ) → drop n [] ≡ []
  drop-nil zero = refl
  drop-nil (suc n) = refl

  pub drop-drop : (i j : ℕ) (xs : List A) → drop j (drop i xs) ≡ drop (i + j) xs
  drop-drop zero j xs = rw (add.zero j)
  drop-drop (suc i) j [] = rw (drop-nil j, add.suc i j)
  drop-drop (suc i) j (x ∷ xs) = rw (add.suc i j) (drop-drop i j xs)

  pub take-all : (n : ℕ) (xs : List A) → length xs ≤ n → take n xs ≡ xs
  take-all zero [] h = refl
  take-all zero (x ∷ xs) h = absurd (omega arith)
  take-all (suc n) [] h = refl
  take-all (suc n) (x ∷ xs) h = rw (take-all n xs (omega arith))

  pub drop-all : (n : ℕ) (xs : List A) → length xs ≤ n → drop n xs ≡ []
  drop-all zero [] h = refl
  drop-all zero (x ∷ xs) h = absurd (omega arith)
  drop-all (suc n) [] h = refl
  drop-all (suc n) (x ∷ xs) h = drop-all n xs (omega arith)

  pub drop-take : (k n : ℕ) (xs : List A) → drop k (take n xs) ≡ take (n - k) (drop k xs)
  drop-take zero n xs = rw sub-zero
  drop-take (suc k) zero [] = rw zero-sub
  drop-take (suc k) zero (x ∷ xs) = rw zero-sub
  drop-take (suc k) (suc n) [] = sym (take-all (suc n - suc k) [] (omega arith))
  drop-take (suc k) (suc n) (x ∷ xs) = rw suc-sub-suc (drop-take k n xs)

  pub take-append_le : (n : ℕ) (xs ys : List A) → n ≤ length xs → take n (xs ++ ys) ≡ take n xs
  take-append_le zero xs ys h = refl
  take-append_le (suc n) [] ys h = absurd (omega arith)
  take-append_le (suc n) (x ∷ xs) ys h = rw (take-append_le n xs ys (omega arith))

  pub take-append_add : (n : ℕ) (xs ys : List A) → take (length xs + n) (xs ++ ys) ≡ xs ++ take n ys
  take-append_add n [] ys = rw (add.zero n)
  take-append_add n (x ∷ xs) ys = rw (add.suc (length xs) n, take-append_add n xs ys)

  pub drop-append_le :
      (n : ℕ) (xs ys : List A) → n ≤ length xs → drop n (xs ++ ys) ≡ drop n xs ++ ys
  drop-append_le zero xs ys h = refl
  drop-append_le (suc n) [] ys h = absurd (omega arith)
  drop-append_le (suc n) (x ∷ xs) ys h = drop-append_le n xs ys (omega arith)

  pub take-add : (m n : ℕ) (xs : List A) → take (m + n) xs ≡ take m xs ++ take n (drop m xs)
  take-add zero n xs = rw (add.zero n)
  take-add (suc m) n [] = rw (add.suc m n) (sym (take-all n [] (omega arith)))
  take-add (suc m) n (x ∷ xs) = rw (add.suc m n, take-add m n xs)

  pub slice-add :
      (xs : List A) (i m n : ℕ) → slice xs i (m + n) ≡ slice xs i m ++ slice xs (i + m) n
  slice-add xs i m n = rw (take-add m n (drop i xs), drop-drop i m xs)

  pub take-take : (m n : ℕ) (xs : List A) → m ≤ n → take m (take n xs) ≡ take m xs
  take-take zero n xs h = refl
  take-take (suc m) zero xs h = absurd (omega arith)
  take-take (suc m) (suc n) [] h = refl
  take-take (suc m) (suc n) (x ∷ xs) h = rw (take-take m n xs (omega arith))

  -- `ys` written over the items from index `i` on.
  abbrev pub overwrite : ℕ → List A → List A → List A
  overwrite i ys xs = take i xs ++ (ys ++ drop (i + length ys) xs)

  pub length-overwrite :
      (i : ℕ) (ys xs : List A) → i + length ys ≤ length xs → length (overwrite i ys xs) ≡ length xs
  length-overwrite i ys xs h = omega (
    arith,
    length-append (take i xs) (ys ++ drop (i + length ys) xs),
    length-append ys (drop (i + length ys) xs),
    length-take i xs,
    length-drop (i + length ys) xs,
  )

  pub slice-overwrite_self :
      (i : ℕ) (ys xs : List A)
      → i + length ys ≤ length xs
      → slice (overwrite i ys xs) i (length ys) ≡ ys
  slice-overwrite_self i ys xs h =
      rw
        (drop-append_exact i (take i xs) (ys ++ drop (i + length ys) xs)
          (omega (arith, length-take i xs)))
        (take-append_exact (length ys) ys (drop (i + length ys) xs) refl)

  pub slice-overwrite_before :
      (i j n : ℕ) (ys xs : List A)
      → j + n ≤ i
      → i ≤ length xs
      → slice (overwrite i ys xs) j n ≡ slice xs j n
  slice-overwrite_before i j n ys xs h k =
      rw
        (drop-append_le j (take i xs) (ys ++ drop (i + length ys) xs)
          (omega (arith, length-take i xs)))
        (rw
          (
            drop-take j i xs,
            take-append_le n (take (i - j) (drop j xs)) (ys ++ drop (i + length ys) xs)
                (omega (arith, length-take (i - j) (drop j xs), length-drop j xs)),
          )
          (take-take n (i - j) (drop j xs) (omega arith)))

  pub length-reverse : (xs : List A) → length (reverse xs) ≡ length xs
  length-reverse [] = refl
  length-reverse (x ∷ xs) =
      omega (
        arith,
        ap length (reverse-cons x xs),
        length-append (reverse xs) (x ∷ []),
        length-reverse xs,
      )

  pub length-cases : (xs : List A) → (0 < length xs) ⊎ (length xs ≡ 0)
  length-cases [] = inr refl
  length-cases (x ∷ xs) = inl (omega arith)

  -- Dropping from a slice, also past its end.
  pub drop-slice :
      (k i n : ℕ) (xs : List A) → drop k (slice xs i n) ≡ slice xs (i + min k n) (n - min k n)
  drop-slice k i n xs = elim (dec_le k n) [
    | yes h ↦
        rw (drop-take k n (drop i xs), drop-drop i k xs) (slice_cong xs (omega arith) (omega arith))
    | no h ↦
        drop-all k (slice xs i n) (omega (arith, length-take n (drop i xs)))
        ∙ sym (slice_cong xs {m = n - min k n} {n = 0} refl (omega arith))
  ]
