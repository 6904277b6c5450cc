-- ===== src/TimerQueue/Unlink.antt =====
-- `unlink` takes an operation, with what is below it, out of the heap.

use coio.Base.{
  ℕ, suc, ◌+◌, ◌≤◌, ◌<◌, ◌≡◌, refl, sym, ◌∙◌, subst, ◌≢◌, some, arith, dec_lt, ℕ_discrete,
  if◌then◌else◌, ◌==◌,
}
use coio.TimerQueue.Meld.{first-count, reparented}
use coio.TimerQueue.Shape.{
  Heap, nil, node, count, Ordered, Linked, Same, Kept-of, Linked-Kept, size, IsAlone,
}
use coio.TimerQueue.{TimerLinks, set_prev, unlink}
use coio.Links.{Pointer}

module _ (op x : ℕ) (l : TimerLinks) where
  -- What `unlink` leaves alone.
  unlink-Same : (z : ℕ) → x ≢ z → l.sibling op ≢ some z → Same l (unlink op x l) z
  unfolding unlink set_prev
  unlink-Same z p q = ground arith

  -- The operation was the first child of `x`.
  record FirstGone (m : TimerLinks) : Type 0 where
    prev_x : m.prev x ≡ l.prev x
    child_x : m.child x ≡ l.sibling op
    sibling_x : m.sibling x ≡ l.sibling x

  unlink-FirstGone : l.child x ≡ some op → l.sibling op ≢ some x → FirstGone (unlink op x l)
  unfolding unlink set_prev
  unlink-FirstGone p q = ground arith

  -- The operation was the next sibling of `x`.
  record NextGone (m : TimerLinks) : Type 0 where
    prev_x : m.prev x ≡ l.prev x
    child_x : m.child x ≡ l.child x
    sibling_x : m.sibling x ≡ l.sibling op

  unlink-NextGone : l.child x ≢ some op → l.sibling op ≢ some x → NextGone (unlink op x l)
  unfolding unlink set_prev
  unlink-NextGone p q = ground arith

  -- What came behind the operation.
  unlink-after :
      (w : ℕ)
      → l.sibling op ≡ some w
      → x ≢ w
      → ((unlink op x l).prev w ≡ some x)
        × ((unlink op x l).child w ≡ l.child w)
        × ((unlink op x l).sibling w ≡ l.sibling w)
  unfolding unlink set_prev
  unlink-after w e p = ground arith

IsAlone-child : (x : ℕ) (c d s : Heap) → IsAlone (node x c s) → IsAlone (node x d s)
IsAlone-child x c d nil a = a
IsAlone-child x c d (node y e s) a = a

module _ (deadline : ℕ → ℕ) where
  -- The heap without the operation and what is below it, and what is below it, on its own.
  pub record Unlinked (l : TimerLinks) (from : Pointer) (op k : ℕ) (t : Heap) (p : Pointer)
      (m : TimerLinks) : Type 0 where
    pub rest : Heap
    pub under : Heap
    pub linked : Linked m from rest p
    pub below : Linked m (some op) under (m.child op)
    pub ordered : Ordered deadline k rest
    pub ordered_below : Ordered deadline (deadline op) under
    pub members : (z : ℕ) → (if op == z then 1 else 0) + count z rest + count z under ≡ count z t
    pub sized : suc (size rest + size under) ≡ size t
    pub alone : IsAlone t → IsAlone rest
    pub others : (z : ℕ) → count z t ≡ 0 → Same l m z

  first_gone :
      (l : TimerLinks) (from : Pointer) (op x k : ℕ) (c e s : Heap)
      → Linked l from (node x (node op c e) s) (some x)
      → Ordered deadline k (node x (node op c e) s)
      → ((z : ℕ) → count z (node x (node op c e) s) ≤ 1)
      → Unlinked l from op k (node x (node op c e) s) (some x) (unlink op x l)
  first_gone l from op x k c e s h o u =
      let m : TimerLinks = unlink op x l in
      let h_op = h.2 in
      let in_e : (z : ℕ) → l.sibling op ≡ some z → 0 < count z e =
        λ z g. first-count l e (some op) (l.sibling op) z h_op.3 g in
      let v : FirstGone op x l m =
        unlink-FirstGone op x l h_op.0 (λ g. absurd (ground (arith, u x, in_e x g))) in
      let same : (z : ℕ) → x ≢ z → count z e ≡ 0 → Same l m z =
        λ z g i. unlink-Same op x l z g (λ q. absurd (omega (arith, in_e z q))) in
      let child_kept : m.child op ≡ l.child op =
        (same op (λ g. absurd (ground (arith, u x))) (ground (arith, u op))).1 in
      record {
        rest = node x e s;
        under = c;
        linked = (
          refl,
          v.prev_x ∙ h.1,
          subst (Linked m (some x) e) (sym v.child_x) (
              reparented l m op x e (l.sibling op) h_op.3
                (λ z g. unlink-after op x l z g (λ q. absurd (ground (arith, u z, in_e z g))))
                (λ z g i. unlink-Same op x l z (λ q. absurd (ground (arith, u z))) i)
                (λ z. omega (arith, u z))),
          subst (Linked m (some x) s) (sym v.sibling_x) (
              Linked-Kept l m s (some x) (l.sibling x)
                (Kept-of l m s
                  (λ z g. same z (λ q. absurd (ground (arith, u z))) (omega (arith, u z))))
                h.3),
        );
        below = subst (Linked m (some op) c) (sym child_kept) (
            Linked-Kept l m c (some op) (l.child op)
              (Kept-of l m c
                (λ z g. same z (λ q. absurd (ground (arith, u z))) (omega (arith, u z))))
              h_op.2);
        ordered = (o.0, o.1.2, o.2);
        ordered_below = o.1.1;
        members = λ z. omega arith;
        sized = omega arith;
        alone = IsAlone-child x (node op c e) e s;
        others = λ z g. same z (λ q. absurd (ground arith)) (omega arith);
      }

  next_gone :
      (l : TimerLinks) (from : Pointer) (op x k : ℕ) (c d e : Heap)
      → Linked l from (node x d (node op c e)) (some x)
      → Ordered deadline k (node x d (node op c e))
      → ((z : ℕ) → count z (node x d (node op c e)) ≤ 1)
      → Unlinked l from op k (node x d (node op c e)) (some x) (unlink op x l)
  next_gone l from op x k c d e h o u =
      let m : TimerLinks = unlink op x l in
      let h_op = h.3 in
      let in_e : (z : ℕ) → l.sibling op ≡ some z → 0 < count z e =
        λ z g. first-count l e (some op) (l.sibling op) z h_op.3 g in
      let not_first : l.child x ≢ some op =
        λ g. absurd (ground (arith, u op, first-count l d (some x) (l.child x) op h.2 g)) in
      let v : NextGone op x l m =
        unlink-NextGone op x l not_first (λ g. absurd (ground (arith, u x, in_e x g))) in
      let same : (z : ℕ) → x ≢ z → count z e ≡ 0 → Same l m z =
        λ z g i. unlink-Same op x l z g (λ q. absurd (omega (arith, in_e z q))) in
      let child_kept : m.child op ≡ l.child op =
        (same op (λ g. absurd (ground (arith, u x))) (ground (arith, u op))).1 in
      record {
        rest = node x d e;
        under = c;
        linked = (
          refl,
          v.prev_x ∙ h.1,
          subst (Linked m (some x) d) (sym v.child_x) (
              Linked-Kept l m d (some x) (l.child x)
                (Kept-of l m d
                  (λ z g. same z (λ q. absurd (ground (arith, u z))) (omega (arith, u z))))
                h.2),
          subst (Linked m (some x) e) (sym v.sibling_x) (
              reparented l m op x e (l.sibling op) h_op.3
                (λ z g. unlink-after op x l z g (λ q. absurd (ground (arith, u z, in_e z g))))
                (λ z g i. unlink-Same op x l z (λ q. absurd (ground (arith, u z))) i)
                (λ z. omega (arith, u z))),
        );
        below = subst (Linked m (some op) c) (sym child_kept) (
            Linked-Kept l m c (some op) (l.child op)
              (Kept-of l m c
                (λ z g. same z (λ q. absurd (ground (arith, u z))) (omega (arith, u z))))
              h_op.2);
        ordered = (o.0, o.1, o.2.2);
        ordered_below = o.2.1;
        members = λ z. omega arith;
        sized = omega arith;
        alone = λ a. absurd a;
        others = λ z g. same z (λ q. absurd (ground arith)) (omega arith);
      }

  -- The operation is among the descendants of `x`: it is the first child of `x`, or deeper.
  descend_child :
      (l : TimerLinks) (from : Pointer) (op x before k : ℕ) (c s : Heap)
      → Linked l from (node x c s) (some x)
      → Ordered deadline k (node x c s)
      → ((z : ℕ) → count z (node x c s) ≤ 1)
      → 0 < count op c
      → l.prev op ≡ some before
      → (l.child x ≢ some op
          → Unlinked l (some x) op (deadline x) c (l.child x) (unlink op before l))
      → Unlinked l from op k (node x c s) (some x) (unlink op before l)
  descend_child l from op x before k nil s h o u i e deeper = absurd (omega arith)
  descend_child l from op x before k (node y d r) s h o u i e deeper = elim (ℕ_discrete y op) [
    | yes y_op ↦
        let parent : x ≡ before = ground (arith, h.2.1) in
        subst (λ b. Unlinked l from op k (node x (node y d r) s) (some x) (unlink op b l)) parent
          (subst (λ w. Unlinked l from w k (node x (node y d r) s) (some x) (unlink w x l)) y_op
            (first_gone l from y x k d r s h o u))
    | no y_op ↦
        let m : TimerLinks = unlink op before l in
        let v : Unlinked l (some x) op (deadline x) (node y d r) (l.child x) m =
          deeper (λ g. absurd (ground (arith, h.2.0))) in
        let same_x : Same l m x = v.others x (ground (arith, u x)) in
        record {
          rest = node x v.rest s;
          under = v.under;
          linked = (
            refl,
            same_x.0 ∙ h.1,
            subst (Linked m (some x) v.rest) (sym same_x.1) v.linked,
            subst (Linked m (some x) s) (sym same_x.2) (
                Linked-Kept l m s (some x) (l.sibling x)
                  (Kept-of l m s (λ z g. v.others z (omega (arith, u z)))) h.3),
          );
          below = v.below;
          ordered = (o.0, v.ordered, o.2);
          ordered_below = v.ordered_below;
          members = λ z. omega (arith, v.members z);
          sized = omega (arith, v.sized);
          alone = IsAlone-child x (node y d r) v.rest s;
          others = λ z g. v.others z (omega arith);
        }
  ]

  -- It is among those behind `x`.
  descend_next :
      (l : TimerLinks) (from : Pointer) (op x before k : ℕ) (c s : Heap)
      → Linked l from (node x c s) (some x)
      → Ordered deadline k (node x c s)
      → ((z : ℕ) → count z (node x c s) ≤ 1)
      → 0 < count op s
      → l.prev op ≡ some before
      → (l.sibling x ≢ some op → Unlinked l (some x) op k s (l.sibling x) (unlink op before l))
      → Unlinked l from op k (node x c s) (some x) (unlink op before l)
  descend_next l from op x before k c nil h o u i e deeper = absurd (omega arith)
  descend_next l from op x before k c (node y d r) h o u i e deeper = elim (ℕ_discrete y op) [
    | yes y_op ↦
        let parent : x ≡ before = ground (arith, h.3.1) in
        subst (λ b. Unlinked l from op k (node x c (node y d r)) (some x) (unlink op b l)) parent
          (subst (λ w. Unlinked l from w k (node x c (node y d r)) (some x) (unlink w x l)) y_op
            (next_gone l from y x k d c r h o u))
    | no y_op ↦
        let m : TimerLinks = unlink op before l in
        let v : Unlinked l (some x) op k (node y d r) (l.sibling x) m =
          deeper (λ g. absurd (ground (arith, h.3.0))) in
        let same_x : Same l m x = v.others x (ground (arith, u x)) in
        record {
          rest = node x c v.rest;
          under = v.under;
          linked = (
            refl,
            same_x.0 ∙ h.1,
            subst (Linked m (some x) c) (sym same_x.1) (
                Linked-Kept l m c (some x) (l.child x)
                  (Kept-of l m c (λ z g. v.others z (omega (arith, u z)))) h.2),
            subst (Linked m (some x) v.rest) (sym same_x.2) v.linked,
          );
          below = v.below;
          ordered = (o.0, o.1, v.ordered);
          ordered_below = v.ordered_below;
          members = λ z. omega (arith, v.members z);
          sized = omega (arith, v.sized);
          alone = λ a. absurd a;
          others = λ z g. v.others z (omega arith);
        }
  ]

  pub unlink-Unlinked :
      (l : TimerLinks) (from : Pointer) (op before k : ℕ) (t : Heap) (p : Pointer)
      → Linked l from t p
      → Ordered deadline k t
      → ((z : ℕ) → count z t ≤ 1)
      → 0 < count op t
      → p ≢ some op
      → l.prev op ≡ some before
      → Unlinked l from op k t p (unlink op before l)
  unlink-Unlinked l from op before k nil p h o u i n e = absurd (omega arith)
  unlink-Unlinked l from op before k (node x c s) p h o u i n e =
      let in_child = λ (g : 0 < count op c).
        descend_child l from op x before k c s (refl, h.1, h.2, h.3) o u g e
          (λ q.
            unlink-Unlinked l (some x) op before (deadline x) c (l.child x) h.2 o.1
              (λ z. omega (arith, u z)) g q e) in
      let behind = λ (g : 0 < count op s).
        descend_next l from op x before k c s (refl, h.1, h.2, h.3) o u g e
          (λ q.
            unlink-Unlinked l (some x) op before k s (l.sibling x) h.3 o.2 (λ z. omega (arith, u z))
              g q e) in
      subst (λ p'. Unlinked l from op k (node x c s) p' (unlink op before l)) (sym h.0)
        (elim (dec_lt 0 (count op c)) [ yes g ↦ in_child g | no g ↦ behind (ground (arith, h.0)) ])
