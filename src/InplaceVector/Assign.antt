-- ===== src/InplaceVector/Assign.antt =====
-- `assign_range` replaces the elements; when it throws, the vector still is a vector.

use coio.Base.{
  drop-all, ℕ, zero, suc, ◌+◌, ◌≤◌, ◌<◌, ◌≡◌, refl, sym, ap, ◌∙◌, subst, ◌⊎◌, inl, inr, Bool, true,
  false, ◌&&◌, Option, none, some, List, [], ◌∷◌, ◌++◌, arith, ltb, Bool-cases, Option-cases,
  length, get_elem?, drop, length-append, drop-all,
}
use coio.InplaceVector.Erase.{erase_last}
use mathlib.Core.List.{append-nil, append_assoc}
use coio.InplaceVector.Fill.{push_back-Appends, length-copies}
use coio.InplaceVector.Laws.{Appends, appended, refused, copies}
use coio.InplaceVector.Splice.{get_elem?-second, Stores-three}
use coio.InplaceVector.Storage.{Holds, get_elem?-inside, get_elem?-behind}
use coio.InplaceVector.Editing.{erase, assign_elements, erase_rest, assign_range}
use coio.Base.Outcome.{Outcome, Fault, done, throws, bad_alloc, construction}
use coio.InplaceVector.{Vector, put, push_back}

module _ {ℓ} {A : Type ℓ} where
  -- An element is assigned in the middle.
  put-Holds :
      (N : ℕ) (v : Vector A) (xs zs : List A) (z y : A)
      → Holds N v (xs ++ (z ∷ zs))
      → Holds N (record v { slots = put v.slots (length xs) (some y) }) (xs ++ (y ∷ zs))
  put-Holds N v xs zs z y h = record {
    size = h.size ∙ omega (arith, length-append xs (z ∷ zs), length-append xs (y ∷ zs));
    fits = omega (arith, h.fits, length-append xs (z ∷ zs), length-append xs (y ∷ zs));
    stores =
        Stores-three xs (y ∷ []) zs (put v.slots (length xs) (some y))
          (λ i p. ground arith ∙ h.stores i ∙ get_elem?-inside xs (z ∷ zs) i p)
          (λ d p. at_first d p)
          (λ d p.
            let far : length xs + 1 + d ≡ length xs + suc d = omega arith in
            ground arith
            ∙ h.stores (length xs + 1 + d)
            ∙ ap (get_elem? (xs ++ (z ∷ zs))) far
            ∙ get_elem?-second xs (z ∷ zs) (suc d))
          (λ i p.
            ground arith
            ∙ h.stores i
            ∙ get_elem?-behind (xs ++ (z ∷ zs)) i (omega (arith, length-append xs (z ∷ zs))));
  }
    where
      at_first :
          (d : ℕ) → d < 1 → put v.slots (length xs) (some y) (length xs + d) ≡ get_elem? (y ∷ []) d
      at_first zero p = ground arith
      at_first (suc d) p = absurd (omega arith)

module _ {ℓ} {A : Type ℓ} (copy : A → Option A) (N : ℕ) where
  -- `push_back` of one value, which is copied or not.
  data Pushes (x : A) (xs : List A) (o : Outcome {ℓ, 0} (Vector A) Unit) : Type ℓ where
    pushed :
        (w : Vector A) (y : A)
        → o ≡ done w tt
        → copy x ≡ some y
        → Holds N w (xs ++ y ∷ [])
        → Pushes x xs o
    not_pushed :
        (w : Vector A) (e : Fault)
        → o ≡ throws w e
        → (copy x ≡ none) ⊎ (N < length xs + 1)
        → Holds N w xs
        → Pushes x xs o

  Appends-Pushes :
      (x : A) (v : Vector A) (xs : List A) (o : Outcome {ℓ, 0} (Vector A) Unit)
      → Appends copy N v xs (x ∷ []) o
      → Pushes x xs o
  Appends-Pushes x v xs o (appended w ys q c h) = elim (Option-cases (copy x)) [
    | inl n ↦
        let fails : copies copy (x ∷ []) ≡ none = rw (n, copies) refl in absurd (cc (sym fails ∙ c))
    | inr (y, e) ↦
        let copied : copies copy (x ∷ []) ≡ some (y ∷ []) = rw (e, copies) refl in
        let same : ys ≡ y ∷ [] = ap (λ l. elim l [ none ↦ ys | some zs ↦ zs ]) (sym c ∙ copied) in
        pushed w y q e (subst (λ l. Holds N w (xs ++ l)) same h)
  ]
  Appends-Pushes x v xs o (refused w e q (inl c) h) = elim (Option-cases (copy x)) [
    | inl n ↦ not_pushed w e q (inl n) h
    | inr (y, f) ↦
        let copied : copies copy (x ∷ []) ≡ some (y ∷ []) = rw (f, copies) refl in
        absurd (cc (sym copied ∙ c))
  ]
  Appends-Pushes x v xs o (refused w e q (inr g) h) = not_pushed w e q (inr (omega arith)) h

  -- Where the loop stops, from `ds`, which was assigned, and `zs`, which was not.
  data Assigning (ds zs r : List A) (o : Outcome {ℓ, 0} (Vector A) ℕ) : Type ℓ where
    ended :
        (w : Vector A) (ys : List A)
        → o ≡ done w (length (ds ++ ys))
        → copies copy r ≡ some ys
        → Holds N w (ds ++ ys ++ drop (length r) zs)
        → Assigning ds zs r o
    threw :
        (w : Vector A) (e : Fault) (ws : List A)
        → o ≡ throws w e
        → (copies copy r ≡ none) ⊎ (N < length ds + length r)
        → Holds N w ws
        → Assigning ds zs r o

  same_rest : (n : ℕ) (zs : List A) → drop n (drop 1 zs) ≡ drop (suc n) zs
  same_rest zero [] = refl
  same_rest (suc n) [] = refl
  same_rest n (z ∷ zs) = refl

  Assigning-cons :
      (ds zs r : List A) (x y : A) (o : Outcome {ℓ, 0} (Vector A) ℕ)
      → copy x ≡ some y
      → Assigning (ds ++ y ∷ []) (drop 1 zs) r o
      → Assigning ds zs (x ∷ r) o
  Assigning-cons ds zs r x y o c (ended w ys q k h) =
      let p : ds ++ y ∷ [] ++ ys ≡ ds ++ y ∷ ys = append_assoc ds (y ∷ []) ys in
      ended w (y ∷ ys) (q ∙ ap (λ l. done w (length l)) p) (rw (c, k, copies) refl) (
        subst (λ l. Holds N w (l ++ drop (suc (length r)) zs)) p
          (subst (λ l. Holds N w (ds ++ y ∷ [] ++ ys ++ l)) (same_rest (length r) zs) h))
  Assigning-cons ds zs r x y o c (threw w e ws q k h) =
      threw w e ws q
        (elim k [
          | inl n ↦ inl (rw (c, n, copies) refl)
          | inr n ↦ inr (omega (arith, length-append ds (y ∷ [])))
        ])
        h

  none_copied : (x : A) (r : List A) → copy x ≡ none → copies copy (x ∷ r) ≡ none
  none_copied x r n = rw (n, copies) refl

  assign_elements-Assigning :
      (old : ℕ) (r ds zs : List A) (v : Vector A)
      → Holds N v (ds ++ zs)
      → old ≤ length ds + length zs
      → (0 < length zs → length ds + length zs ≤ old)
      → Assigning ds zs r (assign_elements copy N old r (length ds) v)
  unfolding assign_elements
  assign_elements-Assigning old [] ds zs v h b k =
      let p : ds ≡ ds ++ [] = sym (append-nil ds) in
      ended v [] (ap (λ l. done v (length l)) p) refl (subst (λ l. Holds N v (l ++ zs)) p h)
  assign_elements-Assigning old (x ∷ r) ds (z ∷ zs) v h b k =
      let within : ltb (length ds) old ≡ true = ground (arith, k) in
      elim (Option-cases (copy x)) [
        | inl n ↦
            rw (within, n, assign_elements)
              (threw v construction (ds ++ z ∷ zs) refl (inl (none_copied x r n)) h)
        | inr (y, e) ↦
            let w : Vector A = record v { slots = put v.slots (length ds) (some y) } in
            let n : length (ds ++ y ∷ []) ≡ suc (length ds) =
              omega (arith, length-append ds (y ∷ [])) in
            let rest : Assigning (ds ++ y ∷ []) zs r
                (assign_elements copy N old r (length (ds ++ y ∷ [])) w) =
              assign_elements-Assigning old r (ds ++ y ∷ []) zs w
                (subst (Holds N w) (sym (append_assoc ds (y ∷ []) zs)) (put-Holds N v ds zs z y h))
                (omega (arith, n)) (λ p. omega (arith, n, k)) in
            rw (within, e, assign_elements)
              (Assigning-cons ds (z ∷ zs) r x y (assign_elements copy N old r (suc (length ds)) w) e
                (subst (λ i. Assigning (ds ++ y ∷ []) zs r (assign_elements copy N old r i w)) n
                  rest))
      ]
  assign_elements-Assigning old (x ∷ r) ds [] v h b k =
      let behind : ltb (length ds) old ≡ false = ground (arith, b) in
      let held : Holds N v ds = subst (Holds N v) (append-nil ds) h in
      elim (Appends-Pushes x v ds (push_back copy N x v) (push_back-Appends copy N x v ds held)) [
        | pushed w y q e g ↦
            let n : length (ds ++ y ∷ []) ≡ suc (length ds) =
              omega (arith, length-append ds (y ∷ [])) in
            let rest : Assigning (ds ++ y ∷ []) [] r
                (assign_elements copy N old r (length (ds ++ y ∷ [])) w) =
              assign_elements-Assigning old r (ds ++ y ∷ []) [] w
                (subst (Holds N w) (sym (append-nil (ds ++ y ∷ []))) g) (omega (arith, n))
                (λ p. omega arith) in
            rw (behind, q, assign_elements)
              (Assigning-cons ds [] r x y (assign_elements copy N old r (suc (length ds)) w) e (
                subst (λ i. Assigning (ds ++ y ∷ []) [] r (assign_elements copy N old r i w)) n
                  rest))
        | not_pushed w e q c g ↦
            rw (behind, q, assign_elements)
              (threw w e ds refl
                (elim c [ inl n ↦ inl (none_copied x r n) | inr f ↦ inr (omega arith) ]) g)
      ]

  -- What `assign_range` comes to.
  pub data Assigns (r : List A) (o : Outcome {ℓ, 0} (Vector A) ℕ) : Type ℓ where
    assigned :
        (w : Vector A) (ys : List A)
        → o ≡ done w (length ys)
        → copies copy r ≡ some ys
        → Holds N w ys
        → Assigns r o
    gave_up :
        (w : Vector A) (e : Fault) (ws : List A)
        → o ≡ throws w e
        → (copies copy r ≡ none) ⊎ (N < length r)
        → Holds N w ws
        → Assigns r o

  erase_rest-Assigns :
      (old : ℕ) (zs r : List A) (o : Outcome {ℓ, 0} (Vector A) ℕ)
      → old ≡ length zs
      → Assigning [] zs r o
      → Assigns r (erase_rest copy N old o)
  unfolding erase_rest
  erase_rest-Assigns old zs r o e (threw w f ws q c h) =
      gave_up w f ws (rw (q, erase_rest) refl)
        (elim c [ inl n ↦ inl n | inr g ↦ inr (omega arith) ]) h
  erase_rest-Assigns old zs r o e (ended w ys q c h) =
      let rest : List A = drop (length r) zs in
      let many : length ys ≡ length r = length-copies copy N r ys c in
      elim (Bool-cases (ltb (length ys) old)) [
        | inl b ↦
            let (u, returns, k) = erase_last copy N w ys rest h in
            let all : w.size ≡ length ys + length rest = h.size ∙ length-append ys rest in
            let erased : erase copy (length ys) w.size w ≡ done u (length ys) =
              ap (λ n. erase copy (length ys) n w) all ∙ returns in
            assigned u ys (rw (q, erase_rest, b) erased) c k
        | inr b ↦
            let none_left : rest ≡ [] = drop-all (length r) zs (ground (arith, many, e)) in
            assigned w ys (rw (q, erase_rest, b) refl) c
              (subst (Holds N w) (ap (λ l. ys ++ l) none_left ∙ append-nil ys) h)
      ]

  -- `assign_range` leaves the copies of the elements of the range in the vector, and none of the elements it had;
  -- or it throws, since a copy throws or there is no room for all, and the vector still holds
  -- elements that are all alive, as many as its size says.
  pub assign_range-Assigns :
      (sized : Bool) (r : List A) (v : Vector A) (xs : List A)
      → Holds N v xs
      → Assigns r (assign_range copy N sized r v)
  unfolding assign_range
  assign_range-Assigns sized r v xs h = elim (Bool-cases (sized && ltb N (length r))) [
    | inl e ↦ rw (e, assign_range) (gave_up v bad_alloc xs refl (inr (ground arith)) h)
    | inr e ↦
        rw (e, assign_range)
          (erase_rest-Assigns v.size xs r (assign_elements copy N v.size r 0 v) h.size (
            assign_elements-Assigning v.size r [] xs v h (omega (arith, h.size))
              (λ p. omega (arith, h.size))))
  ]
