-- ===== src/RetainPtr.antt =====
-- include/coio/utils/retain_ptr.h: `retain_ptr` and `retain_base`. Objects and pointer variables are
-- numbers; a variable holds an object or null. The temporaries of the assignments are arguments.
pub mod Counting
pub mod Safety
mod Tests
use coio.Base.{
  ℕ, zero, suc, ◌+◌, ◌-◌, ◌*◌, ◌/◌, ◌%◌, ◌^◌, ◌≤◌, ◌<◌, min, max, ◌≡◌, refl, sym, ap, ◌∙◌, subst,
  ◌≢◌, ◌↔◌, ◌⊎◌, inl, inr, Bool, true, false, ◌&&◌, ◌||◌, not, Option, none, some, List, [], ◌∷◌,
  ◌++◌, map, reverse, arith, dec_lt, dec_le, ℕ_discrete, if◌then◌else◌, ltb, leb, ◌==◌, Bool-cases,
  Option-cases, length, get_elem?, set, take, drop, slice, overwrite, add_size, sub_size, mul_size,
  size_mod, length-append, length-take, length-drop, replicate,
}

-- `count`: `ref_count_` of each object; `lost`: how often `do_lose` was called on it; `owned`: whether
-- it ever had an owner, which the code does not record; `variables`: their pointers, `ptr_`.

pub record World : Type 0 where
  pub count : ℕ → ℕ
  pub lost : ℕ → ℕ
  pub owned : ℕ → Bool
  pub variables : List (Option ℕ)

abbrev pub at : ℕ → ℕ → (ℕ → ℕ) → ℕ → ℕ
at x n f y = if x == y then n else f y

unfoldable pub retain : ℕ → World → World
retain x w = record w { count = at x (w.count x + 1) w.count; owned = λ y. (x == y) || w.owned y }

-- `if (ref_count_.fetch_sub(1) == 1) do_lose()`.
unfoldable pub lose : ℕ → World → World
lose x w = record w {
  count = at x (w.count x - 1) w.count;
  lost = if w.count x == 1 then at x (w.lost x + 1) w.lost else w.lost;
}

-- `retain_ptr(ptr)`, and the destructor.
unfoldable pub construct : Option ℕ → World → World
construct none w = w
construct (some x) w = retain x w

unfoldable pub destroy : Option ℕ → World → World
destroy none w = w
destroy (some x) w = lose x w

-- The pointer in a variable, null past the last.
abbrev pub pointer : List (Option ℕ) → ℕ → Option ℕ
pointer [] i = none
pointer (p ∷ ps) zero = p
pointer (p ∷ ps) (suc i) = pointer ps i

abbrev pub write : ℕ → Option ℕ → World → World
write i p w = record w { variables = set w.variables i p }

-- `retain_ptr(…).swap(*this)`: the temporary goes into the variable, and what was there is destroyed.
unfoldable pub swap_in : ℕ → Option ℕ → World → World
swap_in i temporary w = destroy (pointer w.variables i) (write i temporary w)

-- `operator=`. Moving leaves null in the other variable first, also if it is the same.
unfoldable pub copy_assign : ℕ → ℕ → World → World
copy_assign i j w = let other = pointer w.variables j in swap_in i other (construct other w)

unfoldable pub move_assign : ℕ → ℕ → World → World
move_assign i j w = swap_in i (pointer w.variables j) (write j none w)

unfoldable pub reset : ℕ → World → World
reset i w = swap_in i none w

unfoldable pub reset_to : ℕ → Option ℕ → World → World
reset_to i new_ptr w = swap_in i new_ptr (construct new_ptr w)

unfoldable pub swap : ℕ → ℕ → World → World
swap i j w = write j (pointer w.variables i) (write i (pointer w.variables j) w)

-- A program may do these in any order, and give a pointer to an object that was not destroyed.
pub data Step (w : World) : World → Type 0 where
  copies : (i j : ℕ) → i < length w.variables → j < length w.variables → Step w (copy_assign i j w)
  moves : (i j : ℕ) → i < length w.variables → j < length w.variables → Step w (move_assign i j w)
  resets : (i : ℕ) → i < length w.variables → Step w (reset i w)
  takes : (i x : ℕ) → i < length w.variables → w.lost x ≡ 0 → Step w (reset_to i (some x) w)
  swaps : (i j : ℕ) → i < length w.variables → j < length w.variables → Step w (swap i j w)

-- `n` variables that are null, and objects without owners.
abbrev pub empty_world : ℕ → World
empty_world n = record {
  count = λ x. 0;
  lost = λ x. 0;
  owned = λ x. false;
  variables = replicate n none;
}

pub data Reach (n : ℕ) : World → Type 0 where
  start : Reach n (empty_world n)
  later : {w u : World} → Reach n w → Step w u → Reach n u
