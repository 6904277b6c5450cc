-- ===== src/TimerQueue/Laws.antt =====
-- The queue and its operations, over the heap that its links stand for.
use coio.Base.{
  ℕ, suc, ◌+◌, ◌≤◌, ◌<◌, ◌≡◌, refl, ◌∙◌, subst, ◌≢◌, ◌↔◌, Bool, true, Option, none, some, arith,
  ℕ_discrete, if◌then◌else◌, ltb, ◌==◌,
}
use coio.TimerQueue.Fold.{Merged, merge_children-Merged}
use coio.TimerQueue.Meld.{Melded, meld-Melded}
use coio.TimerQueue.Shape.{
  Heap, nil, node, count, Ordered, Linked, Same, Kept-of, Linked-Kept, Ordered-le, size, spine-size,
  IsAlone,
}
use coio.TimerQueue.{TimerLinks, TimerQueue, clear_links, meld, merge_children, add, pop_root}
use coio.Links.{Pointer}

module _ (deadline : ℕ → ℕ) where
  -- The links of the queue are those of an ordered heap with one root, and an operation outside has no `prev`.
  pub record Holds (q : TimerQueue) (t : Heap) : Type 0 where
    pub linked : Linked q.links none t q.root
    pub alone : IsAlone t
    pub ordered : Ordered deadline 0 t
    pub distinct : (z : ℕ) → count z t ≤ 1
    pub unlinked : (z : ℕ) → count z t ≡ 0 → q.links.prev z ≡ none

  pub clear_links-Same : (op : ℕ) (l : TimerLinks) (z : ℕ) → op ≢ z → Same l (clear_links op l) z
  unfolding clear_links
  clear_links-Same op l z p = ground arith

  pub clear_links-prev : (op : ℕ) (l : TimerLinks) → (clear_links op l).prev op ≡ none
  unfolding clear_links
  clear_links-prev op l = ground arith

  clear_links-Linked :
      (op : ℕ) (l : TimerLinks) → Linked (clear_links op l) none (node op nil nil) (some op)
  unfolding clear_links
  clear_links-Linked op l = (refl, ground arith, ground arith, ground arith)

  pub cleared-Linked :
      (op : ℕ) (l : TimerLinks) (t : Heap) (p : Pointer)
      → Linked l none t p
      → count op t ≡ 0
      → Linked (clear_links op l) none t p
  cleared-Linked op l t p h e =
      Linked-Kept l (clear_links op l) t none p
        (Kept-of l (clear_links op l) t
          (λ z g. clear_links-Same op l z (λ q. absurd (ground arith))))
        h

  -- The queue after `add`.
  pub record Added (op : ℕ) (t : Heap) (r : TimerQueue × Bool) : Type 0 where
    pub heap : Heap
    pub holds : Holds r.0 heap
    pub members : (z : ℕ) → count z heap ≡ (if op == z then 1 else 0) + count z t
    pub sized : size heap ≡ suc (size t)
    pub is_earliest : (r.1 ≡ true) ↔ ((z : ℕ) → 0 < count z t → deadline op < deadline z)

  meld-first :
      (a b : ℕ) (l : TimerLinks)
      → ((meld deadline a b l).0 == b) ≡ (if a == b then true else ltb (deadline b) (deadline a))
  unfolding meld
  meld-first a b l = ground arith

  -- `add` of an operation that is not in the queue: the heap gains it and stays ordered, and the
  -- result is whether its deadline is before all others.
  pub add-Added :
      (op : ℕ) (q : TimerQueue) (t : Heap)
      → Holds q t
      → count op t ≡ 0
      → Added op t (add deadline op q)
  unfolding add
  add-Added op q nil h e =
      rw (h.linked, add)
        (record {
          heap = node op nil nil;
          holds = record {
            linked = clear_links-Linked op q.links;
            alone = tt;
            ordered = (omega arith, tt, tt);
            distinct = λ z. ground arith;
            unlinked = λ z g.
                (clear_links-Same op q.links z (λ i. absurd (ground arith))).0 ∙ h.unlinked z refl;
          };
          members = λ z. omega arith;
          sized = refl;
          is_earliest = (λ g z i. absurd (omega arith), λ g. refl);
        })
  add-Added op q (node x c nil) h e =
      let l : TimerLinks = clear_links op q.links in
      let v : Melded deadline l (node x c nil) (node op nil nil) (meld deadline x op l).0
          (meld deadline x op l).1 =
        meld-Melded deadline x op l c nil
          (cleared-Linked op q.links (node x c nil) (some x)
            (refl, h.linked.1, h.linked.2, h.linked.3) e)
          (clear_links-Linked op q.links) h.ordered.1 tt (λ z. ground (arith, h.distinct z)) in
      rw (h.linked.0, add)
        (record {
          heap = node (meld deadline x op l).0 v.below nil;
          holds = record {
            linked = v.linked;
            alone = tt;
            ordered = (omega arith, v.ordered, tt);
            distinct = λ z. ground (arith, v.members z, h.distinct z);
            unlinked = λ z g.
                (v.others z (omega (arith, v.members z))).0
                ∙ (clear_links-Same op q.links z (λ i. absurd (ground (arith, v.members z)))).0
                ∙ h.unlinked z (omega (arith, v.members z));
          };
          members = λ z. omega (arith, v.members z);
          sized = omega (arith, v.sized);
          is_earliest = (
            λ g z i.
                let earlier : deadline op < deadline x = ground (arith, meld-first x op l) in
                omega (
                  arith,
                  Ordered-le deadline {k = deadline x} (node x c nil) z
                      (omega arith, h.ordered.1, tt) i,
                ),
            λ g. ground (arith, meld-first x op l, g x (ground arith)),
          );
        })
  add-Added op q (node x c (node y d s)) h e = absurd h.alone

  -- A queue without its root.
  pub record Popped (top : ℕ) (t : Heap) (o : Option TimerQueue) : Type 0 where
    pub left : TimerQueue
    pub heap : Heap
    pub returns : o ≡ some left
    pub holds : Holds left heap
    pub members : (z : ℕ) → (if top == z then 1 else 0) + count z heap ≡ count z t
    pub sized : suc (size heap) ≡ size t

  pub pop_root-Popped :
      (fuel : ℕ) (q : TimerQueue) (top : ℕ) (c : Heap)
      → Holds q (node top c nil)
      → size c < fuel
      → Popped top (node top c nil) (pop_root deadline fuel top q.links)
  unfolding pop_root
  pop_root-Popped fuel q top c h f =
      let v : Merged deadline q.links c (merge_children deadline fuel (q.links.child top) q.links) =
        merge_children-Merged deadline fuel q.links c (some top) (q.links.child top) (deadline top)
          h.linked.2 h.ordered.1 (λ z. omega (arith, h.distinct z)) (omega (arith, spine-size c)) in
      let gone : count top c ≡ 0 = ground (arith, h.distinct top) in
      rw (v.returns, pop_root)
        (record {
          left = record { links = clear_links top v.after; root = v.root };
          heap = v.heap;
          returns = refl;
          holds = record {
            linked =
                cleared-Linked top v.after v.heap v.root v.linked (omega (arith, v.members top));
            alone = v.alone;
            ordered = v.ordered;
            distinct = λ z. omega (arith, v.members z, h.distinct z);
            unlinked = λ z g. elim (ℕ_discrete top z) [
              | yes i ↦
                  subst (λ w. (clear_links top v.after).prev w ≡ none) i
                    (clear_links-prev top v.after)
              | no i ↦
                  (clear_links-Same top v.after z i).0
                  ∙ (v.others z (omega (arith, v.members z))).0
                  ∙ h.unlinked z (ground (arith, v.members z))
            ];
          };
          members = λ z. omega (arith, v.members z);
          sized = omega (arith, v.sized);
        })
