-- ===== src/RetainPtr/Safety.antt =====
-- What reference counting promises.

use coio.Base.{
  ℕ, ◌+◌, ◌≤◌, ◌<◌, min, ◌≡◌, refl, ap, ◌∙◌, subst, Bool, true, false, Option, none, some, List,
  arith, length, set, length-set, length-replicate,
}
use coio.RetainPtr.Counting.{holds, owners, owners-set, holds-owners, owners-replicate, pointer-set}
use coio.RetainPtr.{
  World, retain, lose, construct, destroy, pointer, write, swap_in, copy_assign, move_assign, reset,
  reset_to, swap, Step, copies, moves, resets, takes, swaps, Reach, start, later,
}

abbrev pub as_count : Bool → ℕ
as_count true = 1
as_count false = 0

-- Every object is counted as often as variables and the temporary hold it, and was destroyed once if it
-- had an owner and has none.
record Counted (w : World) (temporary : Option ℕ) (size : ℕ) : Type 0 where
  counted : (x : ℕ) → w.count x ≡ owners x w.variables + holds temporary x
  once : (x : ℕ) → w.lost x + min 1 (w.count x) ≡ as_count (w.owned x)
  same_size : length w.variables ≡ size

module _ {n : ℕ} where
  construct-Counted :
      (p : Option ℕ) {w : World}
      → Counted w none n
      → ((x : ℕ) → p ≡ some x → w.lost x ≡ 0)
      → Counted (construct p w) p n
  unfolding construct retain
  construct-Counted none v h = v
  construct-Counted (some x) {w} v h = record {
    counted = λ y. ground (arith, v.counted y, v.counted x);
    once = λ y. ground (arith, v.once y, v.once x, h x refl);
    same_size = v.same_size;
  }

  -- A variable is written, and what was there is the temporary.
  write-Counted :
      (i : ℕ) (p : Option ℕ) {w : World}
      → Counted w p n
      → i < n
      → Counted (write i p w) (pointer w.variables i) n
  write-Counted i p {w} v h = record {
    counted =
        λ x. omega (arith, v.counted x, owners-set x w.variables i p (omega (arith, v.same_size)));
    once = v.once;
    same_size = length-set w.variables i p ∙ v.same_size;
  }

  destroy-Counted : (p : Option ℕ) {w : World} → Counted w p n → Counted (destroy p w) none n
  unfolding destroy lose
  destroy-Counted none v = v
  destroy-Counted (some x) {w} v = record {
    counted = λ y. ground (arith, v.counted y, v.counted x);
    once = λ y. ground (arith, v.once y, v.once x, v.counted x);
    same_size = v.same_size;
  }

  swap_in-Counted :
      (i : ℕ) (p : Option ℕ) {w : World} → Counted w p n → i < n → Counted (swap_in i p w) none n
  unfolding swap_in
  swap_in-Counted i p {w} v h = destroy-Counted (pointer w.variables i) (write-Counted i p v h)

  -- What a variable holds was not destroyed.
  pointer-lost :
      (j x : ℕ) {w : World} → Counted w none n → pointer w.variables j ≡ some x → w.lost x ≡ 0
  pointer-lost j x {w} v h =
      let held : holds (some x) x ≤ owners x w.variables =
        subst (λ p. holds p x ≤ owners x w.variables) h (holds-owners x w.variables j) in
      ground (arith, v.counted x, v.once x, held)

  swap-Counted :
      (i j : ℕ) {w : World} → Counted w none n → i < n → j < n → Counted (swap i j w) none n
  unfolding swap
  swap-Counted i j {w} v h k =
      let p : Option ℕ = pointer w.variables i in
      let q : Option ℕ = pointer w.variables j in
      let between : List (Option ℕ) = set w.variables i q in
      let size : length between ≡ n = length-set w.variables i q ∙ v.same_size in
      record {
        counted = λ x. omega (
          arith,
          v.counted x,
          owners-set x w.variables i q (omega (arith, v.same_size)),
          owners-set x between j p (omega (arith, size)),
          ap (λ o. holds o x) (pointer-set w.variables i j q refl),
        );
        once = v.once;
        same_size = length-set between j p ∙ size;
      }

  Step-Counted : {w u : World} → Counted w none n → Step w u → Counted u none n
  unfolding copy_assign move_assign reset reset_to
  Step-Counted {w} v (copies i j h k) =
      swap_in-Counted i (pointer w.variables j)
        (construct-Counted (pointer w.variables j) v (λ x e. pointer-lost j x v e))
        (omega (arith, v.same_size))
  Step-Counted {w} v (moves i j h k) =
      swap_in-Counted i (pointer w.variables j)
        (write-Counted j none v (omega (arith, v.same_size))) (omega (arith, v.same_size))
  Step-Counted v (resets i h) = swap_in-Counted i none v (omega (arith, v.same_size))
  Step-Counted {w} v (takes i x h l) =
      swap_in-Counted i (some x) (construct-Counted (some x) v (λ y e. cc))
        (omega (arith, v.same_size))
  Step-Counted v (swaps i j h k) =
      swap-Counted i j v (omega (arith, v.same_size)) (omega (arith, v.same_size))

  Reach-Counted : {w : World} → Reach n w → Counted w none n
  Reach-Counted start = record {
    counted = λ x. omega (arith, owners-replicate x n);
    once = λ x. refl;
    same_size = length-replicate n none;
  }
  Reach-Counted (later r s) = Step-Counted (Reach-Counted r) s

-- In every reachable state, the count of an object is the number of variables that hold it; and an
-- object that ever had an owner either has one and was not destroyed, or has none and was destroyed
-- once.
pub destroyed_with_last :
    {n : ℕ} {w : World}
    → Reach n w
    → (x : ℕ)
    → (w.count x ≡ owners x w.variables)
      × (w.lost x + min 1 (owners x w.variables) ≡ as_count (w.owned x))
destroyed_with_last r x =
    let v = Reach-Counted r in (omega (arith, v.counted x), omega (arith, v.counted x, v.once x))
