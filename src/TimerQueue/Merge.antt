-- ===== src/TimerQueue/Merge.antt =====
-- `merge_children` makes one heap of the children: pairs first, and then one after the other.

use coio.Base.{ℕ, zero, suc, ◌+◌, ◌≤◌, ◌<◌, ◌≡◌, refl, sym, subst, ◌≢◌, Option, none, some, arith}
use coio.TimerQueue.Meld.{Melded, meld-Melded}
use coio.TimerQueue.Shape.{
  Heap, nil, node, count, spine, Ordered, Linked, Follows, Stacked, Same, Same-trans, Kept-of,
  Linked-Kept, Stacked-Kept, Follows-Kept, size,
}
use coio.TimerQueue.{TimerLinks, detach, meld, meld_pair, behind_pair, pair_up}
use coio.Links.{Pointer, store}

pub Linked-Follows :
    (l : TimerLinks) (t : Heap) (from p : Pointer) → Linked l from t p → Follows l t p
Linked-Follows l nil from p h = h
Linked-Follows l (node x c s) from p h = (h.0, h.2, h.3)

-- The second child alone, and the children behind it.
abbrev second : Heap → Heap
second nil = nil
second (node b d r) = node b d nil

abbrev behind_second : Heap → Heap
behind_second nil = nil
behind_second (node b d r) = r

count-second : (z : ℕ) (s : Heap) → count z s ≡ count z (second s) + count z (behind_second s)
count-second z nil = refl
count-second z (node b d r) = omega arith

size-second : (s : Heap) → size s ≡ size (second s) + size (behind_second s)
size-second nil = refl
size-second (node b d r) = omega arith

spine-behind : (s : Heap) → spine (behind_second s) ≤ spine s
spine-behind nil = omega arith
spine-behind (node b d r) = omega arith

Ordered-behind :
    (deadline : ℕ → ℕ) (k : ℕ) (s : Heap)
    → Ordered deadline k s
    → Ordered deadline k (behind_second s)
Ordered-behind deadline k nil o = tt
Ordered-behind deadline k (node b d r) o = o.2

pub detach-Same : (a : ℕ) (l : TimerLinks) (z : ℕ) → a ≢ z → Same l (detach a l) z
unfolding detach
detach-Same a l z p = ground arith

detach-Linked :
    (a : ℕ) (l : TimerLinks) (c : Heap)
    → Linked l (some a) c (l.child a)
    → count a c ≡ 0
    → Linked (detach a l) none (node a c nil) (some a)
unfolding detach
detach-Linked a l c h e = (
  refl,
  ground arith,
  Linked-Kept l (detach a l) c (some a) (l.child a)
      (Kept-of l (detach a l) c (λ z p. detach-Same a l z (λ q. absurd (ground (arith, e, q))))) h,
  ground arith,
)

module _ (deadline : ℕ → ℕ) where
  meld_pair-Melded :
      (l : TimerLinks) (a : ℕ) (c s : Heap)
      → Follows l (node a c s) (some a)
      → Ordered deadline 0 (node a c s)
      → ((z : ℕ) → count z (node a c s) ≤ 1)
      → Melded deadline l
          (node a c nil)
          (second s)
          (meld_pair deadline a (l.sibling a) l).0
          (meld_pair deadline a (l.sibling a) l).1
  unfolding meld_pair
  meld_pair-Melded l a c nil h o u =
      rw (h.2, meld_pair)
        (record {
          below = c;
          linked = detach-Linked a l c h.1 (ground (arith, u a));
          ordered = o.1;
          members = λ z. omega arith;
          sized = omega arith;
          others = λ z e. detach-Same a l z (λ q. absurd (ground arith));
        })
  meld_pair-Melded l a c (node b d r) h o u =
      let once : TimerLinks = detach a l in
      let twice : TimerLinks = detach b once in
      let next = h.2 in
      let apart : a ≢ b = λ e. absurd (ground (arith, u b)) in
      let first : Linked twice none (node a c nil) (some a) =
        Linked-Kept once twice (node a c nil) none (some a)
          (Kept-of once twice (node a c nil)
            (λ z p. detach-Same b once z (λ q. absurd (ground (arith, u z)))))
          (detach-Linked a l c h.1 (ground (arith, u a))) in
      let d_kept : Linked once (some b) d (l.child b) =
        Linked-Kept l once d (some b) (l.child b)
          (Kept-of l once d (λ z p. detach-Same a l z (λ q. absurd (ground (arith, u z)))))
          next.2 in
      let child_kept : once.child b ≡ l.child b = (detach-Same a l b apart).1 in
      let other : Linked twice none (node b d nil) (some b) =
        detach-Linked b once d (subst (Linked once (some b) d) (sym child_kept) d_kept)
          (ground (arith, u b)) in
      let v : Melded deadline twice (node a c nil) (node b d nil) (meld deadline a b twice).0
          (meld deadline a b twice).1 =
        meld-Melded deadline a b twice c d first other o.1 o.2.1 (λ z. omega (arith, u z)) in
      rw (next.0, meld_pair)
        (record {
          below = v.below;
          linked = v.linked;
          ordered = v.ordered;
          members = v.members;
          sized = v.sized;
          others = λ z e.
              Same-trans l twice (meld deadline a b twice).1 z
                (Same-trans l once twice z (detach-Same a l z (λ q. absurd (ground arith)))
                  (detach-Same b once z (λ q. absurd (ground arith))))
                (v.others z e);
        })

  behind_pair-Follows :
      (l : TimerLinks) (a : ℕ) (c s : Heap)
      → Follows l (node a c s) (some a)
      → Follows l (behind_second s) (behind_pair (l.sibling a) l)
  unfolding behind_pair
  behind_pair-Follows l a c nil h = rw (h.2, behind_pair) refl
  behind_pair-Follows l a c (node b d r) h =
      rw (h.2.0, behind_pair) (Linked-Follows l r (some b) (l.sibling b) h.2.3)

  -- The stack that the first pass makes of the children `s` and the stack `t`.
  pub record Paired (l : TimerLinks) (s t : Heap) (o : Option (Pointer × TimerLinks)) : Type 0 where
    pub first : Pointer
    pub after : TimerLinks
    pub stack : Heap
    pub returns : o ≡ some (first, after)
    pub stacked : Stacked after stack first
    pub ordered : Ordered deadline 0 stack
    pub members : (z : ℕ) → count z stack ≡ count z s + count z t
    pub sized : size stack ≡ size s + size t
    pub others : (z : ℕ) → count z s + count z t ≡ 0 → Same l after z
    pub short : spine stack ≤ spine s + spine t

  pub pair_up-Paired :
      (fuel : ℕ) (l : TimerLinks) (s t : Heap) (p q : Pointer)
      → Follows l s p
      → Stacked l t q
      → Ordered deadline 0 s
      → Ordered deadline 0 t
      → ((z : ℕ) → count z s + count z t ≤ 1)
      → spine s < fuel
      → Paired l s t (pair_up deadline fuel p q l)
  unfolding pair_up
  pair_up-Paired zero l s t p q h k o r u f = absurd (omega arith)
  pair_up-Paired (suc fuel) l nil t p q h k o r u f =
      rw (h, pair_up)
        (record {
          first = q;
          after = l;
          stack = t;
          returns = refl;
          stacked = k;
          ordered = r;
          members = λ z. omega arith;
          sized = omega arith;
          others = λ z e. (refl, refl, refl);
          short = omega arith;
        })
  pair_up-Paired (suc fuel) l (node a c s) t p q h k o r u f =
      let pair : ℕ × TimerLinks = meld_pair deadline a (l.sibling a) l in
      let top : ℕ = pair.0 in
      let m : TimerLinks = pair.1 in
      let n : TimerLinks = record m { sibling = store m.sibling top q } in
      let left : Heap = behind_second s in
      let v : Melded deadline l (node a c nil) (second s) top m =
        meld_pair-Melded l a c s (refl, h.1, h.2) o (λ z. omega (arith, u z)) in
      let both : (z : ℕ) → count z (node top v.below nil) + count z left ≡ count z (node a c s) =
        λ z. omega (arith, v.members z, count-second z s) in
      let not_top : (z : ℕ) → 0 < count z left + count z t → top ≢ z =
        λ z g e. absurd (ground (arith, both z, u z)) in
      let stored : (z : ℕ) → top ≢ z → Same m n z = λ z e. ground arith in
      let outside : (z : ℕ) → count z (node a c nil) + count z (second s) ≡ 0 → Same l n z = λ z e.
        Same-trans l m n z (v.others z e) (stored z (λ g. absurd (ground (arith, v.members z)))) in
      let kept : (z : ℕ) → 0 < count z left + count z t → Same l n z =
        λ z g. outside z (omega (arith, u z, count-second z s)) in
      let below : Linked n (some top) v.below (m.child top) =
        Linked-Kept m n v.below (some top) (m.child top)
          (Kept-of m n v.below (λ z g. stored z (λ e. absurd (ground (arith, both z, u z)))))
          v.linked.2 in
      let on_top : n.sibling top ≡ q = ground arith in
      let w : Paired n left (node top v.below t)
          (pair_up deadline fuel (behind_pair (l.sibling a) l) (some top) n) =
        pair_up-Paired fuel n left (node top v.below t) (behind_pair (l.sibling a) l) (some top)
          (Follows-Kept l n left (behind_pair (l.sibling a) l)
            (Kept-of l n left (λ z g. kept z (omega arith)))
            (behind_pair-Follows l a c s (refl, h.1, h.2)))
          (
            refl,
            v.linked.1,
            below,
            subst (Stacked n t) (sym on_top)
                (Stacked-Kept l n t q (Kept-of l n t (λ z g. kept z (omega arith))) k),
          )
          (Ordered-behind deadline 0 s o.2) (omega arith, v.ordered, r)
          (λ z. omega (arith, both z, u z)) (omega (arith, spine-behind s)) in
      rw (h.0, pair_up)
        (record {
          first = w.first;
          after = w.after;
          stack = w.stack;
          returns = w.returns;
          stacked = w.stacked;
          ordered = w.ordered;
          members = λ z. omega (arith, w.members z, both z);
          sized = omega (arith, w.sized, v.sized, size-second s);
          others = λ z e.
              Same-trans l n w.after z (outside z (omega (arith, count-second z s)))
                (w.others z (omega (arith, both z)));
          short = omega (arith, w.short, spine-behind s);
        })
