-- ===== src/InplaceVector/Insert.antt =====
-- Insertions append and then rotate.

use coio.Base.{
  ℕ, suc, ◌+◌, ◌-◌, ◌<◌, ◌≡◌, refl, sym, ap, ◌∙◌, subst, ◌⊎◌, true, false, ◌||◌, Option, none, some,
  List, [], ◌∷◌, ◌++◌, arith, leb, ◌==◌, length, get_elem?, length-append,
}
use mathlib.Core.List.{append-nil}
use coio.InplaceVector.Fill.{push_back-Appends, length-copies}
use coio.InplaceVector.Laws.{Appends, appended, refused, copies}
use coio.InplaceVector.Splice.{
  get_elem?-second, rotated, rotated-before, rotated-first, rotated-second, rotated-behind,
  Stores-three,
}
use coio.InplaceVector.Storage.{Stores, Holds, get_elem?-inside, get_elem?-behind}
use coio.InplaceVector.Editing.{shift_right, shift_appended, emplace}
use coio.Base.Outcome.{Outcome, Fault, done, throws}
use coio.InplaceVector.{Vector, push_back}

module _ {ℓ} {A : Type ℓ} where
  shift_right-rotated :
      (a c n : ℕ) (v : Vector A)
      → 0 < c
      → 0 < n
      → v.size ≡ a + c + n
      → ((shift_right a n v).size ≡ v.size) × ((shift_right a n v).slots ≡ rotated a c n v.slots)
  unfolding shift_right
  shift_right-rotated a c n v p q e =
      let rotates : (n == 0 || leb v.size (a + n)) ≡ false = ground (arith, e) in
      let middle : a + (v.size - a - n) ≡ a + c = omega (arith, e) in
      (rw (rotates, shift_right) refl, rw (rotates, shift_right, middle, e) refl)

  -- The appended elements `ys` come in front of `zs`.
  shift_right-Holds :
      (N : ℕ) (v : Vector A) (xs zs ys : List A)
      → Holds N v (xs ++ zs ++ ys)
      → Holds N (shift_right (length xs) (length ys) v) (xs ++ (ys ++ zs))
  unfolding shift_right
  shift_right-Holds N v xs zs [] h = subst (Holds N v) (append-nil (xs ++ zs)) h
  shift_right-Holds N v xs [] (y ∷ ys) h =
      let full : (suc (length ys) == 0 || leb v.size (length xs + suc (length ys))) ≡ true =
        ground (arith, h.size, length-append (xs ++ []) (y ∷ ys), length-append xs []) in
      rw (full, shift_right)
        (subst (Holds N v)
          (ap (λ l. l ++ (y ∷ ys)) (append-nil xs) ∙ ap (λ l. xs ++ l) (sym (append-nil (y ∷ ys))))
          h)
  shift_right-Holds N v xs (z ∷ zs) (y ∷ ys) h =
      let a : ℕ = length xs in
      let c : ℕ = suc (length zs) in
      let n : ℕ = suc (length ys) in
      let all : List A = xs ++ (z ∷ zs) ++ (y ∷ ys) in
      let total : length all ≡ a + c + n =
        omega (arith, length-append (xs ++ (z ∷ zs)) (y ∷ ys), length-append xs (z ∷ zs)) in
      let before : List A = xs ++ (z ∷ zs) in
      let size_before : length before ≡ a + c = length-append xs (z ∷ zs) in
      let (same_size, slots) =
        shift_right-rotated a c n v (omega arith) (omega arith) (h.size ∙ total) in
      let at : (i : ℕ) → v.slots i ≡ get_elem? all i = h.stores in
      record {
        size =
            same_size
            ∙ h.size
            ∙ omega (
              arith,
              total,
              length-append xs (y ∷ ys ++ (z ∷ zs)),
              length-append (y ∷ ys) (z ∷ zs),
            );
        fits = omega (
          arith,
          h.fits,
          total,
          length-append xs (y ∷ ys ++ (z ∷ zs)),
          length-append (y ∷ ys) (z ∷ zs),
        );
        stores =
            subst (λ m. Stores m (xs ++ ((y ∷ ys) ++ (z ∷ zs)))) (sym slots)
              (Stores-three xs (y ∷ ys) (z ∷ zs) (rotated a c n v.slots)
                (λ i p.
                  rotated-before a c n v.slots i p
                  ∙ at i
                  ∙ get_elem?-inside before (y ∷ ys) i (omega (arith, size_before))
                  ∙ get_elem?-inside xs (z ∷ zs) i p)
                (λ d p.
                  rotated-first a c n v.slots d p
                  ∙ at (a + c + d)
                  ∙ ap (λ k. get_elem? all (k + d)) (sym size_before)
                  ∙ get_elem?-second before (y ∷ ys) d)
                (λ d p.
                  rotated-second a c n v.slots d p
                  ∙ at (a + d)
                  ∙ get_elem?-inside before (y ∷ ys) (a + d) (omega (arith, size_before))
                  ∙ get_elem?-second xs (z ∷ zs) d)
                (λ i p.
                  rotated-behind a c n v.slots i (omega arith)
                  ∙ at i
                  ∙ get_elem?-behind all i (omega (arith, total))));
      }

module _ {ℓ} {A : Type ℓ} (copy : A → Option A) (N : ℕ) where
  -- What an insertion of `r` between `xs` and `zs` comes to: the copies are there, or nothing changed.
  pub data Inserts (xs zs r : List A) (o : Outcome {ℓ, 0} (Vector A) ℕ) : Type ℓ where
    inserted :
        (w : Vector A) (ys : List A)
        → o ≡ done w (length xs)
        → copies copy r ≡ some ys
        → Holds N w (xs ++ (ys ++ zs))
        → Inserts xs zs r o
    not_inserted :
        (w : Vector A) (e : Fault)
        → o ≡ throws w e
        → (copies copy r ≡ none) ⊎ (N < length (xs ++ zs) + length r)
        → Holds N w (xs ++ zs)
        → Inserts xs zs r o

  shift_appended-Inserts :
      (v : Vector A) (xs zs r : List A) (count : Vector A → ℕ) (o : Outcome {ℓ, 0} (Vector A) Unit)
      → Appends copy N v (xs ++ zs) r o
      → ((w : Vector A) → w.size ≡ length (xs ++ zs) + length r → count w ≡ length r)
      → Inserts xs zs r (shift_appended (length xs) count o)
  unfolding shift_appended
  shift_appended-Inserts v xs zs r count o (appended w ys q c h) k =
      let many : length ys ≡ length r = length-copies copy N r ys c in
      let appends : count w ≡ length ys =
        k w (h.size ∙ omega (arith, length-append (xs ++ zs) ys, many)) ∙ sym many in
      inserted (shift_right (length xs) (length ys) w) ys (rw (q, shift_appended, appends) refl) c
        (shift_right-Holds N w xs zs ys h)
  shift_appended-Inserts v xs zs r count o (refused w e q c h) k =
      not_inserted w e (rw (q, shift_appended) refl) c h

  -- `emplace` of a value puts its copy between `xs` and `zs`, or it throws.
  pub emplace-Inserts :
      (x : A) (v : Vector A) (xs zs : List A)
      → Holds N v (xs ++ zs)
      → Inserts xs zs (x ∷ []) (emplace copy N (length xs) x v)
  unfolding emplace
  emplace-Inserts x v xs zs h =
      shift_appended-Inserts v xs zs (x ∷ []) (λ w. 1) (push_back copy N x v)
        (push_back-Appends copy N x v (xs ++ zs) h) (λ w e. refl)
