-- ===== src/InplaceVector/Splice.antt =====
-- Elements of lists in a row, and three reversals of a storage.

use coio.Base.{
  ℕ, suc, ◌+◌, ◌-◌, ◌≤◌, ◌<◌, ◌≡◌, refl, sym, ap, ◌∙◌, ◌⊎◌, inl, inr, true, false, ◌&&◌, Option,
  none, List, [], ◌∷◌, ◌++◌, arith, dec_lt, ltb, leb, length, get_elem?, length-append,
}
use coio.InplaceVector.Storage.{Stores, get_elem?-inside, get_elem?-behind}
use coio.InplaceVector.Editing.{reverse_range}

module _ {ℓ} {A : Type ℓ} where
  pub get_elem?-second :
      (xs ys : List A) (i : ℕ) → get_elem? (xs ++ ys) (length xs + i) ≡ get_elem? ys i
  get_elem?-second [] ys i =
      let none_before : length {A = A} [] + i ≡ i = omega arith in ap (get_elem? ys) none_before
  get_elem?-second (x ∷ xs) ys i =
      let one_more : length (x ∷ xs) + i ≡ suc (length xs + i) = omega arith in
      ap (get_elem? (x ∷ xs ++ ys)) one_more ∙ get_elem?-second xs ys i

  reverse_range-at :
      (lo hi : ℕ) (m : ℕ → Option A) (i j : ℕ)
      → lo ≤ i
      → i < hi
      → i + j + 1 ≡ lo + hi
      → reverse_range lo hi m i ≡ m j
  reverse_range-at lo hi m i j h g e =
      let inside : (leb lo i && ltb i hi) ≡ true = ground arith in
      let there : lo + hi - 1 - i ≡ j = omega arith in rw (inside, there) refl

  reverse_range-outside :
      (lo hi : ℕ) (m : ℕ → Option A) (i : ℕ) → (i < lo) ⊎ (hi ≤ i) → reverse_range lo hi m i ≡ m i
  reverse_range-outside lo hi m i h =
      let outside : (leb lo i && ltb i hi) ≡ false = ground (arith, h) in rw outside refl

  module _ (a c y : ℕ) (m : ℕ → Option A) where
    -- The last `y` of `a + c + y` slots, brought behind the first `a`.
    abbrev pub rotated : ℕ → Option A
    rotated =
        reverse_range a (a + c + y) (reverse_range (a + c) (a + c + y) (reverse_range a (a + c) m))

    pub rotated-before : (i : ℕ) → i < a → rotated i ≡ m i
    rotated-before i h =
        reverse_range-outside a (a + c + y)
          (reverse_range (a + c) (a + c + y) (reverse_range a (a + c) m)) i (inl h)
        ∙ reverse_range-outside (a + c) (a + c + y) (reverse_range a (a + c) m) i
            (inl (omega arith))
        ∙ reverse_range-outside a (a + c) m i (inl h)

    pub rotated-first : (d : ℕ) → d < y → rotated (a + d) ≡ m (a + c + d)
    rotated-first d h =
        let j : ℕ = a + c + y - 1 - d in
        reverse_range-at a (a + c + y)
          (reverse_range (a + c) (a + c + y) (reverse_range a (a + c) m)) (a + d) j (omega arith)
          (omega arith) (omega arith)
        ∙ reverse_range-at (a + c) (a + c + y) (reverse_range a (a + c) m) j (a + c + d)
            (omega arith) (omega arith) (omega arith)
        ∙ reverse_range-outside a (a + c) m (a + c + d) (inr (omega arith))

    pub rotated-second : (d : ℕ) → d < c → rotated (a + y + d) ≡ m (a + d)
    rotated-second d h =
        let j : ℕ = a + c - 1 - d in
        reverse_range-at a (a + c + y)
          (reverse_range (a + c) (a + c + y) (reverse_range a (a + c) m)) (a + y + d) j
          (omega arith) (omega arith) (omega arith)
        ∙ reverse_range-outside (a + c) (a + c + y) (reverse_range a (a + c) m) j
            (inl (omega arith))
        ∙ reverse_range-at a (a + c) m j (a + d) (omega arith) (omega arith) (omega arith)

    pub rotated-behind : (i : ℕ) → a + c + y ≤ i → rotated i ≡ m i
    rotated-behind i h =
        reverse_range-outside a (a + c + y)
          (reverse_range (a + c) (a + c + y) (reverse_range a (a + c) m)) i (inr h)
        ∙ reverse_range-outside (a + c) (a + c + y) (reverse_range a (a + c) m) i (inr h)
        ∙ reverse_range-outside a (a + c) m i (inr (omega arith))

  -- Slot by slot: what is in the first list, in the second, in the third, and behind them.
  pub Stores-three :
      (xs ys zs : List A) (m : ℕ → Option A)
      → ((i : ℕ) → i < length xs → m i ≡ get_elem? xs i)
      → ((d : ℕ) → d < length ys → m (length xs + d) ≡ get_elem? ys d)
      → ((d : ℕ) → d < length zs → m (length xs + length ys + d) ≡ get_elem? zs d)
      → ((i : ℕ) → length xs + length ys + length zs ≤ i → m i ≡ none)
      → Stores m (xs ++ (ys ++ zs))
  Stores-three xs ys zs m f g h k i = elim (dec_lt i (length xs)) [
    | yes p ↦ f i p ∙ sym (get_elem?-inside xs (ys ++ zs) i p)
    | no p ↦ elim (dec_lt (i - length xs) (length ys)) [
      | yes q ↦
          let d : ℕ = i - length xs in
          let at_d : i ≡ length xs + d = omega arith in
          ap m at_d
          ∙ g d q
          ∙ sym (get_elem?-inside ys zs d q)
          ∙ sym (get_elem?-second xs (ys ++ zs) d)
          ∙ ap (get_elem? (xs ++ (ys ++ zs))) (sym at_d)
      | no q ↦ elim (dec_lt (i - length xs - length ys) (length zs)) [
        | yes r ↦
            let d : ℕ = i - length xs - length ys in
            let at_d : i ≡ length xs + (length ys + d) = omega arith in
            ap m (omega arith)
            ∙ h d r
            ∙ sym (get_elem?-second ys zs d)
            ∙ sym (get_elem?-second xs (ys ++ zs) (length ys + d))
            ∙ ap (get_elem? (xs ++ (ys ++ zs))) (sym at_d)
        | no r ↦
            k i (omega arith)
            ∙ sym (
                get_elem?-behind (xs ++ (ys ++ zs)) i
                  (omega (arith, length-append xs (ys ++ zs), length-append ys zs)))
      ]
    ]
  ]
