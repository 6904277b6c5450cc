-- ===== src/InplaceVector/Erase.antt =====
-- `erase` takes a range of elements out and keeps the others in their order.

use coio.Base.{
  ℕ, zero, suc, ◌+◌, ◌≤◌, ◌<◌, ◌≡◌, refl, sym, ap, ◌∙◌, inl, inr, Option, none, some, List, [], ◌∷◌,
  ◌++◌, arith, length, get_elem?, length-append, take, drop, length-drop, Option-cases, subst, ◌-◌,
  ◌==◌, false, true,
}
use coio.InplaceVector.Splice.{get_elem?-second, Stores-three}
use coio.InplaceVector.Storage.{Stores, get_elem?-inside, get_elem?-behind, Holds, destroy_n-Stores}
use coio.InplaceVector.Laws.{copies}
use coio.InplaceVector.Editing.{copy_down, erase, pop_back, clear}
use coio.Base.Outcome.{Outcome, done, throws, construction}
use coio.InplaceVector.{put, Vector, destroy_n}
use mathlib.Core.List.{append-nil, append_assoc}
use coio.InplaceVector.Fill.{length-copies}

module _ {ℓ} {A : Type ℓ} where
  get_elem?-drop : (xs : List A) (n d : ℕ) → get_elem? (drop n xs) d ≡ get_elem? xs (n + d)
  get_elem?-drop xs zero d = ap (get_elem? xs) (omega arith)
  get_elem?-drop [] (suc n) d = refl
  get_elem?-drop (x ∷ xs) (suc n) d =
      let one_more : suc n + d ≡ suc (n + d) = omega arith in
      get_elem?-drop xs n d ∙ sym (ap (get_elem? (x ∷ xs)) one_more)

  -- The slots from `to` on hold `ps`, and the others what they held in `m`.
  record Written (to : ℕ) (ps : List A) (m after : ℕ → Option A) : Type ℓ where
    below : (i : ℕ) → i < to → after i ≡ m i
    within : (d : ℕ) → d < length ps → after (to + d) ≡ get_elem? ps d
    behind : (i : ℕ) → to + length ps ≤ i → after i ≡ m i

  Written-cons :
      (to : ℕ) (y : A) (ps : List A) (m after : ℕ → Option A)
      → Written (suc to) ps (put m to (some y)) after
      → Written to (y ∷ ps) m after
  Written-cons to y ps m after v = record {
    below = λ i p. v.below i (omega arith) ∙ ground arith;
    within = λ d p. at d p;
    behind = λ i p. v.behind i (omega arith) ∙ ground arith;
  }
    where
      at : (d : ℕ) → d < length (y ∷ ps) → after (to + d) ≡ get_elem? (y ∷ ps) d
      at zero p =
          let first : to + 0 ≡ to = omega arith in
          ap after first ∙ v.below to (omega arith) ∙ ground arith
      at (suc d) p =
          let next : to + suc d ≡ suc to + d = omega arith in
          ap after next ∙ v.within d (omega arith)

  -- When `ps` was written behind `xs`, the elements are these, and those of `rest` that `ps` does not cover.
  Written-Stores :
      (xs ps rest : List A) (m after : ℕ → Option A)
      → Written (length xs) ps m after
      → Stores m (xs ++ rest)
      → length ps ≤ length rest
      → Stores after (xs ++ (ps ++ drop (length ps) rest))
  Written-Stores xs ps rest m after v s f =
      Stores-three xs ps (drop (length ps) rest) after
        (λ i p. v.below i p ∙ s i ∙ get_elem?-inside xs rest i p) (λ d p. v.within d p)
        (λ d p.
          let far : length xs + length ps + d ≡ length xs + (length ps + d) = omega arith in
          v.behind (length xs + length ps + d) (omega arith)
          ∙ s (length xs + length ps + d)
          ∙ ap (get_elem? (xs ++ rest)) far
          ∙ get_elem?-second xs rest (length ps + d)
          ∙ sym (get_elem?-drop rest (length ps) d))
        (λ i p.
          v.behind i (omega arith)
          ∙ s i
          ∙ get_elem?-behind (xs ++ rest) i
              (omega (arith, length-append xs rest, length-drop (length ps) rest)))

module _ {ℓ} {A : Type ℓ} (copy : A → Option A) where
  -- Where the assignments of the elements `zs` to the slots from `to` on stop.
  data Copies (to : ℕ) (zs : List A) (m : ℕ → Option A) (o : Outcome {ℓ, 0} (ℕ → Option A) Unit)
      : Type ℓ where
    copied :
        (after : ℕ → Option A) (ps : List A)
        → o ≡ done after tt
        → copies copy zs ≡ some ps
        → length ps ≡ length zs
        → Written to ps m after
        → Copies to zs m o
    stopped :
        (after : ℕ → Option A) (ps : List A)
        → o ≡ throws after construction
        → copies copy zs ≡ none
        → copies copy (take (length ps) zs) ≡ some ps
        → length ps ≤ length zs
        → Written to ps m after
        → Copies to zs m o

  Copies-cons :
      (to : ℕ) (x y : A) (zs : List A) (m : ℕ → Option A) (o : Outcome {ℓ, 0} (ℕ → Option A) Unit)
      → copy x ≡ some y
      → Copies (suc to) zs (put m to (some y)) o
      → Copies to (x ∷ zs) m o
  Copies-cons to x y zs m o e (copied after ps r c l v) =
      copied after (y ∷ ps) r (rw (e, c, copies) refl) (omega (arith, l))
        (Written-cons to y ps m after v)
  Copies-cons to x y zs m o e (stopped after ps r c t l v) =
      stopped after (y ∷ ps) r (rw (e, c, copies) refl) (rw (e, t, copies) refl) (omega (arith, l))
        (Written-cons to y ps m after v)

  copy_down-Copies :
      (zs : List A) (from to : ℕ) (m : ℕ → Option A)
      → to < from
      → ((d : ℕ) → d < length zs → m (from + d) ≡ get_elem? zs d)
      → Copies to zs m (copy_down copy (length zs) from to m)
  unfolding copy_down
  copy_down-Copies [] from to m h g =
      copied m [] refl refl refl
        (record { below = λ i p. refl; within = λ d p. absurd (omega arith); behind = λ i p. refl })
  copy_down-Copies (x ∷ zs) from to m h g =
      let at_from : from ≡ from + 0 = omega arith in
      let e : m from ≡ some x = ap m at_from ∙ g 0 (omega arith) in
      elim (Option-cases (copy x)) [
        | inl n ↦
            rw (e, n, copy_down)
              (stopped m [] refl (rw (n, copies) refl) refl (omega arith) (record {
                below = λ i p. refl;
                within = λ d p. absurd (omega arith);
                behind = λ i p. refl;
              }))
        | inr (y, c) ↦
            rw (e, c, copy_down)
              (Copies-cons to x y zs m
                (copy_down copy (length zs) (suc from) (suc to) (put m to (some y))) c
                (copy_down-Copies zs (suc from) (suc to) (put m to (some y)) (omega arith) (λ d p.
                  let next : suc from + d ≡ from + suc d = omega arith in
                  let other : put m to (some y) (suc from + d) ≡ m (suc from + d) = ground arith in
                  other ∙ ap m next ∙ g (suc d) (omega arith))))
      ]

  -- What `erase` of `ys` between `xs` and `zs` comes to.
  pub data Erases (N : ℕ) (v : Vector A) (xs ys zs : List A) (o : Outcome {ℓ, 0} (Vector A) ℕ)
      : Type ℓ where
    nothing : ys ≡ [] → o ≡ done v (length xs) → Erases N v xs ys zs o
    erased :
        (w : Vector A) (ps : List A)
        → 0 < length ys
        → o ≡ done w (length xs)
        → copies copy zs ≡ some ps
        → Holds N w (xs ++ ps)
        → Erases N v xs ys zs o
    gave_up :
        (w : Vector A) (ps : List A)
        → 0 < length ys
        → o ≡ throws w construction
        → copies copy zs ≡ none
        → copies copy (take (length ps) zs) ≡ some ps
        → Holds N w (xs ++ (ps ++ drop (length ps) (ys ++ zs)))
        → Erases N v xs ys zs o

  Copies-Erases :
      (N : ℕ) (v : Vector A) (xs ys zs : List A)
      → 0 < length ys
      → Holds N v (xs ++ (ys ++ zs))
      → Copies (length xs) zs v.slots (
          copy_down copy
            (v.size - (length xs + length ys))
            (length xs + length ys)
            (length xs)
            v.slots)
      → Erases N v xs ys zs (erase copy (length xs) (length xs + length ys) v)
  unfolding erase
  Copies-Erases N v xs ys zs g h (copied after ps r c l d) =
      let a : ℕ = length xs in
      let b : ℕ = length ys in
      let apart : (a == a + b) ≡ false = ground arith in
      let rest : List A = drop (length ps) (ys ++ zs) in
      let total : v.size ≡ a + b + length zs =
        h.size ∙ omega (arith, length-append xs (ys ++ zs), length-append ys zs) in
      let count : a + b - a ≡ length rest =
        omega (arith, length-drop (length ps) (ys ++ zs), length-append ys zs, l) in
      let smaller : v.size - (a + b - a) ≡ length (xs ++ ps) =
        omega (arith, total, l, length-append xs ps) in
      let stored : Stores after ((xs ++ ps) ++ rest) =
        subst (Stores after) (sym (append_assoc xs ps rest)) (
          Written-Stores xs ps (ys ++ zs) v.slots after d h.stores
            (omega (arith, l, length-append ys zs))) in
      erased
        (record {
          slots = destroy_n (a + b - a) (v.size - (a + b - a)) after;
          size = v.size - (a + b - a);
        })
        ps g (rw (apart, r, erase) refl) c
        (record {
          size = smaller;
          fits = omega (arith, h.fits, h.size, total, l, length-append xs ps);
          stores = rw (smaller, count) (destroy_n-Stores after (xs ++ ps) rest stored);
        })
  Copies-Erases N v xs ys zs g h (stopped after ps r c t l d) =
      let apart : (length xs == length xs + length ys) ≡ false = ground arith in
      let rest : List A = drop (length ps) (ys ++ zs) in
      let fewer : length ps ≤ length (ys ++ zs) = omega (arith, l, length-append ys zs) in
      let same : length (xs ++ (ps ++ rest)) ≡ length (xs ++ (ys ++ zs)) = omega (
        arith,
        fewer,
        length-append xs (ps ++ rest),
        length-append ps rest,
        length-drop (length ps) (ys ++ zs),
        length-append xs (ys ++ zs),
      ) in
      gave_up (record v { slots = after }) ps g (rw (apart, r, erase) refl) c t
        (record {
          size = h.size ∙ sym same;
          fits = omega (arith, h.fits, same);
          stores = Written-Stores xs ps (ys ++ zs) v.slots after d h.stores fewer;
        })

  pub erase-Erases :
      (N : ℕ) (v : Vector A) (xs ys zs : List A)
      → Holds N v (xs ++ (ys ++ zs))
      → Erases N v xs ys zs (erase copy (length xs) (length xs + length ys) v)
  unfolding erase
  erase-Erases N v xs [] zs h =
      let same : (length xs == length xs + 0) ≡ true = ground arith in
      nothing refl (rw (same, erase) refl)
  erase-Erases N v xs (y ∷ ys) zs h =
      let a : ℕ = length xs in
      let b : ℕ = length (y ∷ ys) in
      let few : v.size - (a + b) ≡ length zs =
        omega (arith, h.size, length-append xs ((y ∷ ys) ++ zs), length-append (y ∷ ys) zs) in
      Copies-Erases N v xs (y ∷ ys) zs (omega arith) h (
        subst (λ k. Copies a zs v.slots (copy_down copy k (a + b) a v.slots)) (sym few)
          (copy_down-Copies zs (a + b) a v.slots (omega arith) (λ d p.
            let far : a + b + d ≡ a + (b + d) = omega arith in
            h.stores (a + b + d)
            ∙ ap (get_elem? (xs ++ ((y ∷ ys) ++ zs))) far
            ∙ get_elem?-second xs ((y ∷ ys) ++ zs) (b + d)
            ∙ get_elem?-second (y ∷ ys) zs d)))

  -- Of the last elements, which moves none, `erase` does not throw.
  pub erase_last :
      (N : ℕ) (v : Vector A) (xs ys : List A)
      → Holds N v (xs ++ ys)
      → (w : Vector A) × (erase copy (length xs) (length xs + length ys) v ≡ done w (length xs))
        × Holds N w xs
  erase_last N v xs ys h =
      elim (erase-Erases N v xs ys [] (subst (λ l. Holds N v (xs ++ l)) (sym (append-nil ys)) h)) [
        | nothing e r ↦ (v, r, subst (Holds N v) (ap (λ l. xs ++ l) e ∙ append-nil xs) h)
        | erased w [] g r c k ↦ (w, r, subst (Holds N w) (append-nil xs) k)
        | erased w (p ∷ ps) g r c k ↦ absurd (omega (arith, length-copies copy N [] (p ∷ ps) c))
        | gave_up w ps g r c t k ↦ absurd (cc c)
      ]

  -- `pop_back` takes the last element away.
  pub pop_back-Holds :
      (N : ℕ) (v : Vector A) (xs : List A) (x : A)
      → Holds N v (xs ++ x ∷ [])
      → (w : Vector A) × (pop_back copy v ≡ done w (length xs)) × Holds N w xs
  unfolding pop_back
  pop_back-Holds N v xs x h =
      let (w, r, k) = erase_last N v xs (x ∷ []) h in
      let last : v.size ≡ length xs + 1 = h.size ∙ length-append xs (x ∷ []) in
      let not_empty : (v.size == 0) ≡ false = ground (arith, last) in
      let before : v.size - 1 ≡ length xs = omega (arith, last) in
      let same : erase copy (v.size - 1) v.size v ≡ erase copy (length xs) (length xs + 1) v =
        ap (λ n. erase copy n v.size v) before ∙ ap (λ n. erase copy (length xs) n v) last in
      let returns : pop_back copy v ≡ erase copy (v.size - 1) v.size v =
        rw (not_empty, pop_back) refl in
      (w, returns ∙ same ∙ r, k)

  -- `clear` leaves no element.
  pub clear-Holds :
      (N : ℕ) (v : Vector A) (xs : List A)
      → Holds N v xs
      → (w : Vector A) × (clear copy v ≡ done w 0) × Holds N w []
  unfolding clear
  clear-Holds N v xs h =
      let (w, r, k) = erase_last N v [] xs h in
      let all : v.size ≡ length {A = A} [] + length xs = h.size ∙ omega arith in
      (w, ap (λ n. erase copy 0 n v) all ∙ r, k)
