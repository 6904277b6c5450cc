-- ===== src/TimerQueue/Shape.antt =====
-- The heap that the links stand for, as a tree: the first child and the next sibling of every operation.

use coio.Base.{ℕ, suc, ◌+◌, ◌≤◌, ◌<◌, ◌≡◌, sym, ◌∙◌, subst, none, some, arith, if◌then◌else◌, ◌==◌}
use coio.TimerQueue.{TimerLinks}
use coio.Links.{Pointer}

pub data Heap : Type 0 where
  nil : Heap
  node : ℕ → Heap → Heap → Heap

-- How often an operation is in the heap.
abbrev pub count : ℕ → Heap → ℕ
count z nil = 0
count z (node x c s) = (if x == z then 1 else 0) + count z c + count z s

-- How many operations a walk along the siblings meets.
abbrev pub spine : Heap → ℕ
spine nil = 0
spine (node x c s) = suc (spine s)

-- How many operations there are.
abbrev pub size : Heap → ℕ
size nil = 0
size (node x c s) = suc (size c + size s)

pub spine-size : (t : Heap) → spine t ≤ size t
spine-size nil = omega arith
spine-size (node x c s) = omega (arith, spine-size s)

-- At most one root.
abbrev pub IsAlone : Heap → Type 0
IsAlone nil = Unit {0}
IsAlone (node x c nil) = Unit {0}
IsAlone (node x c (node y d s)) = ⊥

-- No operation is earlier than its parent, nor than `k`.
abbrev pub Ordered : (ℕ → ℕ) → ℕ → Heap → Type 0
Ordered deadline k nil = Unit {0}
Ordered deadline k (node x c s) =
    (k ≤ deadline x) × Ordered deadline (deadline x) c × Ordered deadline k s

-- The links below `p`, which come from `from`.
abbrev pub Linked : TimerLinks → Pointer → Heap → Pointer → Type 0
Linked l from nil p = p ≡ none
Linked l from (node x c s) p =
    (p ≡ some x)
    × (l.prev x ≡ from)
    × Linked l (some x) c (l.child x)
    × Linked l (some x) s (l.sibling x)

-- The same, but for the `prev` of the first.
abbrev pub Follows : TimerLinks → Heap → Pointer → Type 0
Follows l nil p = p ≡ none
Follows l (node x c s) p =
    (p ≡ some x) × Linked l (some x) c (l.child x) × Linked l (some x) s (l.sibling x)

-- A stack of roots, each without `prev`.
abbrev pub Stacked : TimerLinks → Heap → Pointer → Type 0
Stacked l nil p = p ≡ none
Stacked l (node x c s) p =
    (p ≡ some x) × (l.prev x ≡ none) × Linked l (some x) c (l.child x) × Stacked l s (l.sibling x)

-- The links of this operation are the same.
abbrev pub Same : TimerLinks → TimerLinks → ℕ → Type 0
Same l m z = (m.prev z ≡ l.prev z) × (m.child z ≡ l.child z) × (m.sibling z ≡ l.sibling z)

pub Same-trans : (l m n : TimerLinks) (z : ℕ) → Same l m z → Same m n z → Same l n z
Same-trans l m n z a b = (b.0 ∙ a.0, b.1 ∙ a.1, b.2 ∙ a.2)

-- The links of all operations of a heap are the same.
abbrev pub Kept : TimerLinks → TimerLinks → Heap → Type 0
Kept l m nil = Unit {0}
Kept l m (node x c s) = Same l m x × Kept l m c × Kept l m s

module _ (l m : TimerLinks) where
  pub Kept-of : (t : Heap) → ((z : ℕ) → 0 < count z t → Same l m z) → Kept l m t
  Kept-of nil h = tt
  Kept-of (node x c s) h = (
    h x (ground arith),
    Kept-of c (λ z p. h z (omega arith)),
    Kept-of s (λ z p. h z (omega arith)),
  )

  pub Linked-Kept :
      (t : Heap) (from p : Pointer) → Kept l m t → Linked l from t p → Linked m from t p
  Linked-Kept nil from p k h = h
  Linked-Kept (node x c s) from p k h = (
    h.0,
    k.0.0 ∙ h.1,
    subst (Linked m (some x) c) (sym k.0.1) (Linked-Kept c (some x) (l.child x) k.1 h.2),
    subst (Linked m (some x) s) (sym k.0.2) (Linked-Kept s (some x) (l.sibling x) k.2 h.3),
  )

  pub Stacked-Kept : (t : Heap) (p : Pointer) → Kept l m t → Stacked l t p → Stacked m t p
  Stacked-Kept nil p k h = h
  Stacked-Kept (node x c s) p k h = (
    h.0,
    k.0.0 ∙ h.1,
    subst (Linked m (some x) c) (sym k.0.1) (Linked-Kept c (some x) (l.child x) k.1 h.2),
    subst (Stacked m s) (sym k.0.2) (Stacked-Kept s (l.sibling x) k.2 h.3),
  )

  pub Follows-Kept : (t : Heap) (p : Pointer) → Kept l m t → Follows l t p → Follows m t p
  Follows-Kept nil p k h = h
  Follows-Kept (node x c s) p k h = (
    h.0,
    subst (Linked m (some x) c) (sym k.0.1) (Linked-Kept c (some x) (l.child x) k.1 h.1),
    subst (Linked m (some x) s) (sym k.0.2) (Linked-Kept s (some x) (l.sibling x) k.2 h.2),
  )

pub Ordered-weaken :
    (deadline : ℕ → ℕ) {j k : ℕ} (t : Heap) → j ≤ k → Ordered deadline k t → Ordered deadline j t
Ordered-weaken deadline nil h o = tt
Ordered-weaken deadline (node x c s) h o = (omega arith, o.1, Ordered-weaken deadline s h o.2)

-- Every operation of an ordered heap is `k` or later.
pub Ordered-le :
    (deadline : ℕ → ℕ) {k : ℕ} (t : Heap) (z : ℕ)
    → Ordered deadline k t
    → 0 < count z t
    → k ≤ deadline z
Ordered-le deadline nil z o h = absurd (omega arith)
Ordered-le deadline {k} (node x c s) z o h =
    ground (
      arith,
      o.0,
      Ordered-le deadline {k = deadline x} c z o.1,
      Ordered-le deadline {k = k} s z o.2,
    )
