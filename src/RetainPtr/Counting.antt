-- ===== src/RetainPtr/Counting.antt =====
-- The number of owners of an object, and how writing a variable changes it.

use coio.Base.{
  ℕ, zero, suc, ◌+◌, ◌≤◌, ◌<◌, ◌≡◌, refl, Option, none, some, List, [], ◌∷◌, arith, if◌then◌else◌,
  ◌==◌, length, set, replicate,
}
use coio.RetainPtr.{pointer}

abbrev pub holds : Option ℕ → ℕ → ℕ
holds none x = 0
holds (some y) x = if y == x then 1 else 0

abbrev pub owners : ℕ → List (Option ℕ) → ℕ
owners x [] = 0
owners x (p ∷ ps) = holds p x + owners x ps

pub owners-set :
    (x : ℕ) (ps : List (Option ℕ)) (i : ℕ) (p : Option ℕ)
    → i < length ps
    → owners x (set ps i p) + holds (pointer ps i) x ≡ owners x ps + holds p x
owners-set x [] i p h = absurd (omega arith)
owners-set x (q ∷ ps) zero p h = omega arith
owners-set x (q ∷ ps) (suc i) p h = omega (arith, owners-set x ps i p (omega arith))

pub holds-owners : (x : ℕ) (ps : List (Option ℕ)) (i : ℕ) → holds (pointer ps i) x ≤ owners x ps
holds-owners x [] i = omega arith
holds-owners x (q ∷ ps) zero = omega arith
holds-owners x (q ∷ ps) (suc i) = omega (arith, holds-owners x ps i)

pub owners-replicate : (x n : ℕ) → owners x (replicate n none) ≡ 0
owners-replicate x zero = refl
owners-replicate x (suc n) = omega (arith, owners-replicate x n)

-- Where `j` was copied to `i`, `j` still holds what it held.
pub pointer-set :
    (ps : List (Option ℕ)) (i j : ℕ) (p : Option ℕ) → pointer ps j ≡ p → pointer (set ps i p) j ≡ p
pointer-set [] i j p h = h
pointer-set (q ∷ ps) zero zero p h = refl
pointer-set (q ∷ ps) zero (suc j) p h = h
pointer-set (q ∷ ps) (suc i) zero p h = h
pointer-set (q ∷ ps) (suc i) (suc j) p h = pointer-set ps i j p h
