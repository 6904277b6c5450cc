-- ===== src/TimerQueue/Fold.antt =====
-- The second pass of `merge_children`, and what it comes to.

use coio.Base.{ℕ, zero, suc, ◌+◌, ◌≤◌, ◌<◌, ◌≡◌, refl, ◌≢◌, Option, none, some, arith}
use coio.TimerQueue.Merge.{Paired, pair_up-Paired}
use coio.TimerQueue.Meld.{Melded, meld-Melded}
use coio.TimerQueue.Shape.{
  Heap, nil, node, count, spine, Ordered, Linked, Stacked, Same, Same-trans, Kept-of, Linked-Kept,
  Stacked-Kept, Ordered-weaken, size, IsAlone,
}
use coio.TimerQueue.{TimerLinks, meld, pair_up, fold_up, fold_stack, merge_children}
use coio.Links.{Pointer, store}

-- `links(*next).sibling = nullptr;`
unstacked : ℕ → TimerLinks → TimerLinks
unstacked y l = record l { sibling = store l.sibling y none }

unstacked-Same : (y : ℕ) (l : TimerLinks) (z : ℕ) → y ≢ z → Same l (unstacked y l) z
unfolding unstacked
unstacked-Same y l z p = ground arith

-- The top of a stack, taken off.
unstacked-Linked :
    (y : ℕ) (l : TimerLinks) (d : Heap)
    → l.prev y ≡ none
    → Linked l (some y) d (l.child y)
    → count y d ≡ 0
    → Linked (unstacked y l) none (node y d nil) (some y)
unfolding unstacked
unstacked-Linked y l d e h u = (
  refl,
  e,
  Linked-Kept l (unstacked y l) d (some y) (l.child y)
      (Kept-of l (unstacked y l) d
        (λ z p. unstacked-Same y l z (λ q. absurd (ground (arith, u, q)))))
      h,
  ground arith,
)

spine-pos : (t : Heap) → 0 < size t → 0 < spine t
spine-pos nil h = absurd (omega arith)
spine-pos (node x c s) h = omega arith

module _ (deadline : ℕ → ℕ) where
  record Folded (l : TimerLinks) (s t : Heap) (o : Option (ℕ × TimerLinks)) : Type 0 where
    top : ℕ
    after : TimerLinks
    returns : o ≡ some (top, after)
    melded : Melded deadline l s t top after

  fold_up-Folded :
      (fuel : ℕ) (l : TimerLinks) (x : ℕ) (c t : Heap) (p : Pointer)
      → Linked l none (node x c nil) (some x)
      → Stacked l t p
      → Ordered deadline (deadline x) c
      → Ordered deadline 0 t
      → ((z : ℕ) → count z (node x c nil) + count z t ≤ 1)
      → spine t < fuel
      → Folded l (node x c nil) t (fold_up deadline fuel x p l)
  unfolding fold_up unstacked
  fold_up-Folded zero l x c t p h k o r u f = absurd (omega arith)
  fold_up-Folded (suc fuel) l x c nil p h k o r u f =
      rw (k, fold_up)
        (record {
          top = x;
          after = l;
          returns = refl;
          melded = record {
            below = c;
            linked = h;
            ordered = o;
            members = λ z. omega arith;
            sized = omega arith;
            others = λ z e. (refl, refl, refl);
          };
        })
  fold_up-Folded (suc fuel) l x c (node y d t) p h k o r u f =
      let l' : TimerLinks = unstacked y l in
      let m : TimerLinks = (meld deadline x y l').1 in
      let top : ℕ = (meld deadline x y l').0 in
      let kept_x : Linked l' none (node x c nil) (some x) =
        Linked-Kept l l' (node x c nil) none (some x)
          (Kept-of l l' (node x c nil)
            (λ z g. unstacked-Same y l z (λ e. absurd (ground (arith, u z)))))
          h in
      let v : Melded deadline l' (node x c nil) (node y d nil) top m =
        meld-Melded deadline x y l' c d kept_x
          (unstacked-Linked y l d k.1 k.2 (ground (arith, u y))) o r.1 (λ z. omega (arith, u z)) in
      let outside : (z : ℕ) → count z (node x c nil) + count z (node y d nil) ≡ 0 → Same l m z =
        λ z e.
          Same-trans l l' m z (unstacked-Same y l z (λ g. absurd (ground arith))) (v.others z e) in
      let w : Folded m (node top v.below nil) t (fold_up deadline fuel top (l.sibling y) m) =
        fold_up-Folded fuel m top v.below t (l.sibling y) v.linked
          (Stacked-Kept l m t (l.sibling y) (Kept-of l m t (λ z g. outside z (omega (arith, u z))))
            k.3)
          v.ordered r.2 (λ z. omega (arith, v.members z, u z)) (omega arith) in
      rw (k.0, fold_up)
        (record {
          top = w.top;
          after = w.after;
          returns = w.returns;
          melded = record {
            below = w.melded.below;
            linked = w.melded.linked;
            ordered = w.melded.ordered;
            members = λ z. omega (arith, w.melded.members z, v.members z);
            sized = omega (arith, w.melded.sized, v.sized);
            others = λ z e.
                Same-trans l m w.after z (outside z (omega arith))
                  (w.melded.others z (omega (arith, v.members z)));
          };
        })

  -- One heap of all the children.
  pub record Merged (l : TimerLinks) (s : Heap) (o : Option (Pointer × TimerLinks)) : Type 0 where
    pub root : Pointer
    pub after : TimerLinks
    pub heap : Heap
    pub returns : o ≡ some (root, after)
    pub alone : IsAlone heap
    pub linked : Linked after none heap root
    pub ordered : Ordered deadline 0 heap
    pub members : (z : ℕ) → count z heap ≡ count z s
    pub sized : size heap ≡ size s
    pub others : (z : ℕ) → count z s ≡ 0 → Same l after z

  fold_stack-Merged :
      (fuel : ℕ) (l : TimerLinks) (s stack : Heap) (first : Pointer) (m : TimerLinks)
      → Stacked m stack first
      → Ordered deadline 0 stack
      → ((z : ℕ) → count z stack ≡ count z s)
      → size stack ≡ size s
      → ((z : ℕ) → count z s ≡ 0 → Same l m z)
      → ((z : ℕ) → count z s ≤ 1)
      → 0 < spine stack
      → spine stack ≤ fuel
      → Merged l s (fold_stack deadline fuel (first, m))
  unfolding fold_stack unstacked
  fold_stack-Merged fuel l s nil first m h o e g k u p f = absurd (omega arith)
  fold_stack-Merged fuel l s (node y d t) first m h o e g k u p f =
      let m' : TimerLinks = unstacked y m in
      let w : Folded m' (node y d nil) t (fold_up deadline fuel y (m.sibling y) m') =
        fold_up-Folded fuel m' y d t (m.sibling y)
          (unstacked-Linked y m d h.1 h.2 (ground (arith, e y, u y)))
          (Stacked-Kept m m' t (m.sibling y)
            (Kept-of m m' t (λ z g. unstacked-Same y m z (λ q. absurd (ground (arith, e z, u z)))))
            h.3)
          o.1 o.2 (λ z. omega (arith, e z, u z)) (omega arith) in
      rw (h.0, fold_stack, w.returns)
        (record {
          root = some w.top;
          after = w.after;
          heap = node w.top w.melded.below nil;
          returns = refl;
          alone = tt;
          linked = w.melded.linked;
          ordered = (omega arith, w.melded.ordered, tt);
          members = λ z. omega (arith, w.melded.members z, e z);
          sized = omega (arith, w.melded.sized, g);
          others = λ z i. Same-trans l m w.after z (k z i) (
              Same-trans m m' w.after z (unstacked-Same y m z (λ q. absurd (ground (arith, e z))))
                (w.melded.others z (omega (arith, e z))));
        })

  pub merge_children-Merged :
      (fuel : ℕ) (l : TimerLinks) (s : Heap) (from p : Pointer) (k : ℕ)
      → Linked l from s p
      → Ordered deadline k s
      → ((z : ℕ) → count z s ≤ 1)
      → spine s < fuel
      → Merged l s (merge_children deadline fuel p l)
  unfolding merge_children
  merge_children-Merged fuel l nil from p k h o u f =
      rw (h, merge_children)
        (record {
          root = none;
          after = l;
          heap = nil;
          returns = refl;
          alone = tt;
          linked = refl;
          ordered = tt;
          members = λ z. refl;
          sized = refl;
          others = λ z e. (refl, refl, refl);
        })
  merge_children-Merged fuel l (node x c s) from p k h o u f =
      let w : Paired deadline l (node x c s) nil (pair_up deadline fuel (some x) none l) =
        pair_up-Paired deadline fuel l (node x c s) nil (some x) none (refl, h.2, h.3) refl
          (Ordered-weaken deadline (node x c s) (omega arith) o) tt (λ z. omega (arith, u z)) f in
      rw (h.0, merge_children, w.returns)
        (fold_stack-Merged fuel l (node x c s) w.stack w.first w.after w.stacked w.ordered
          (λ z. omega (arith, w.members z)) (omega (arith, w.sized))
          (λ z e. w.others z (omega arith)) u (spine-pos w.stack (omega (arith, w.sized)))
          (omega (arith, w.short)))
