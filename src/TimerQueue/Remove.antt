-- ===== src/TimerQueue/Remove.antt =====
-- `remove` takes one operation out of the queue, wherever it is.

use coio.Base.{
  ℕ, ◌+◌, ◌≤◌, ◌<◌, ◌≡◌, refl, sym, ◌∙◌, subst, ◌≢◌, ◌↔◌, inl, inr, Bool, true, false, Option, none,
  some, arith, dec_lt, ℕ_discrete, Option-cases,
}
use coio.TimerQueue.Unlink.{Unlinked, unlink-Unlinked}
use coio.TimerQueue.Fold.{Merged, merge_children-Merged}
use coio.TimerQueue.Laws.{
  Holds, Popped, pop_root-Popped, clear_links-Same, cleared-Linked, clear_links-prev,
}
use coio.TimerQueue.Meld.{Melded, meld-Melded}
use coio.TimerQueue.Shape.{
  Heap, nil, node, count, Ordered, Linked, Same, Same-trans, Kept-of, Linked-Kept, size, spine-size,
  IsAlone,
}
use coio.TimerQueue.{
  TimerLinks, TimerQueue, clear_links, meld, merge_children, pop_root, is_pointer, unlink, rejoin,
  remove_below, remove,
}
use coio.Links.{Pointer}

-- An operation below another has a `prev`.
prev-some :
    (l : TimerLinks) (t : Heap) (above z : ℕ) (p : Pointer)
    → Linked l (some above) t p
    → 0 < count z t
    → l.prev z ≢ none
prev-some l nil above z p h g e = absurd (omega arith)
prev-some l (node y d r) above z p h g e =
    ground (arith, h.1, e, prev-some l d y z (l.child y) h.2, prev-some l r y z (l.sibling y) h.3)

module _ (deadline : ℕ → ℕ) where
  -- One heap of the two.
  record Rejoined (op : ℕ) (l : TimerLinks) (s t : Heap) (q : TimerQueue) : Type 0 where
    heap : Heap
    linked : Linked q.links none heap q.root
    alone : IsAlone heap
    ordered : Ordered deadline 0 heap
    members : (z : ℕ) → count z heap ≡ count z s + count z t
    sized : size heap ≡ size s + size t
    cleared : q.links.prev op ≡ none
    others : (z : ℕ) → op ≢ z → count z s + count z t ≡ 0 → Same l q.links z

  rejoin-Rejoined :
      (op x : ℕ) (l : TimerLinks) (c t : Heap) (p : Pointer)
      → Linked l none (node x c nil) (some x)
      → Linked l none t p
      → IsAlone t
      → Ordered deadline (deadline x) c
      → Ordered deadline 0 t
      → ((z : ℕ) → count z (node x c nil) + count z t ≤ 1)
      → count op (node x c nil) + count op t ≡ 0
      → Rejoined op l (node x c nil) t (rejoin deadline op x (p, l))
  unfolding rejoin
  rejoin-Rejoined op x l c nil p h k a o r u e =
      rw (k, rejoin)
        (record {
          heap = node x c nil;
          linked = cleared-Linked deadline op l (node x c nil) (some x) h (omega arith);
          alone = tt;
          ordered = (omega arith, o, tt);
          members = λ z. omega arith;
          sized = omega arith;
          cleared = clear_links-prev deadline op l;
          others = λ z g i. clear_links-Same deadline op l z g;
        })
  rejoin-Rejoined op x l c (node y d nil) p h k a o r u e =
      let v : Melded deadline l (node x c nil) (node y d nil) (meld deadline x y l).0
          (meld deadline x y l).1 =
        meld-Melded deadline x y l c d h (refl, k.1, k.2, k.3) o r.1 u in
      let m : TimerLinks = (meld deadline x y l).1 in
      let top : ℕ = (meld deadline x y l).0 in
      rw (k.0, rejoin)
        (record {
          heap = node top v.below nil;
          linked =
              cleared-Linked deadline op m (node top v.below nil) (some top) v.linked
                (omega (arith, v.members op));
          alone = tt;
          ordered = (omega arith, v.ordered, tt);
          members = v.members;
          sized = v.sized;
          cleared = clear_links-prev deadline op m;
          others = λ z g i.
              Same-trans l m (clear_links op m) z (v.others z i)
                (clear_links-Same deadline op m z g);
        })
  rejoin-Rejoined op x l c (node y d (node w f g)) p h k a o r u e = absurd a

  -- The queue after `remove`, and what it returned.
  pub record Removed (op : ℕ) (q : TimerQueue) (t : Heap) (o : Option (TimerQueue × Bool))
      : Type 0 where
    pub left : TimerQueue
    pub found : Bool
    pub heap : Heap
    pub returns : o ≡ some (left, found)
    pub holds : Holds deadline left heap
    pub was_there : (found ≡ true) ↔ (0 < count op t)
    pub gone : count op heap ≡ 0
    pub members : (z : ℕ) → op ≢ z → count z heap ≡ count z t
    pub absent : count op t ≡ 0 → left ≡ q

  remove_root :
      (fuel op : ℕ) (q : TimerQueue) (c : Heap)
      → Holds deadline q (node op c nil)
      → size c < fuel
      → Removed op q (node op c nil) (remove deadline fuel op q)
  unfolding remove
  remove_root fuel op q c h f =
      let v : Popped deadline op (node op c nil) (pop_root deadline fuel op q.links) =
        pop_root-Popped deadline fuel q op c h f in
      let at_root : is_pointer q.root op ≡ true = rw (h.linked.0, is_pointer) (ground arith) in
      rw (at_root, remove, v.returns)
        (record {
          left = v.left;
          found = true;
          heap = v.heap;
          returns = refl;
          holds = v.holds;
          was_there = (λ g. ground arith, λ g. refl);
          gone = ground (arith, v.members op, h.distinct op);
          members = λ z g. ground (arith, v.members z);
          absent = λ g. absurd (ground arith);
        })

  is_pointer-false : (p : Pointer) (op : ℕ) → p ≢ some op → is_pointer p op ≡ false
  is_pointer-false none op n = refl
  is_pointer-false (some x) op n = ground arith

  remove_absent :
      (fuel op : ℕ) (q : TimerQueue) (t : Heap)
      → Holds deadline q t
      → q.root ≢ some op
      → count op t ≡ 0
      → Removed op q t (remove deadline fuel op q)
  unfolding remove
  remove_absent fuel op q t h n e =
      rw (is_pointer-false q.root op n, remove, h.unlinked op e)
        (record {
          left = q;
          found = false;
          heap = t;
          returns = refl;
          holds = h;
          was_there = (λ g. absurd (ground arith), λ g. absurd (omega arith));
          gone = e;
          members = λ z g. refl;
          absent = λ g. refl;
        })

  -- A heap with one root, which is `x`.
  rejoin_heap :
      (op x : ℕ) (l : TimerLinks) (s t : Heap) (p : Pointer)
      → Linked l none s (some x)
      → IsAlone s
      → Ordered deadline 0 s
      → Linked l none t p
      → IsAlone t
      → Ordered deadline 0 t
      → ((z : ℕ) → count z s + count z t ≤ 1)
      → count op s + count op t ≡ 0
      → Rejoined op l s t (rejoin deadline op x (p, l))
  rejoin_heap op x l nil t p h a o k b r u e = absurd (cc h)
  rejoin_heap op x l (node y c nil) t p h a o k b r u e =
      let same : y ≡ x = ground (arith, h.0) in
      subst (λ w. Rejoined op l (node y c nil) t (rejoin deadline op w (p, l))) same
        (rejoin-Rejoined op y l c t p (refl, h.1, h.2, h.3) k b o.1 r u e)
  rejoin_heap op x l (node y c (node z d g)) t p h a o k b r u e = absurd a

  remove_step :
      (fuel op before x : ℕ) (q : TimerQueue) (merged : Pointer × TimerLinks)
      → q.root ≡ some x
      → x ≢ op
      → q.links.prev op ≡ some before
      → merge_children deadline fuel
          ((unlink op before q.links).child op)
          (unlink op before q.links)
        ≡ some merged
      → remove deadline fuel op q ≡ some (rejoin deadline op x merged, true)
  unfolding remove remove_below
  remove_step fuel op before x q merged h n e m =
      rw
        (
          is_pointer-false q.root op (λ g. absurd (ground (arith, h))),
          remove,
          e,
          h,
          remove_below,
          m,
        )
        refl

  remove_within :
      (fuel op before : ℕ) (q : TimerQueue) (x : ℕ) (c : Heap)
      → Holds deadline q (node x c nil)
      → x ≢ op
      → 0 < count op c
      → q.links.prev op ≡ some before
      → size c < fuel
      → Removed op q (node x c nil) (remove deadline fuel op q)
  remove_within fuel op before q x c h n i e f =
      let l : TimerLinks = q.links in
      let cut : TimerLinks = unlink op before l in
      let v : Unlinked deadline l none op 0 (node x c nil) (some x) cut =
        unlink-Unlinked deadline l none op before 0 (node x c nil) (some x)
          (refl, h.linked.1, h.linked.2, h.linked.3) h.ordered h.distinct (omega arith)
          (λ g. absurd (ground arith)) e in
      let w : Merged deadline cut v.under (merge_children deadline fuel (cut.child op) cut) =
        merge_children-Merged deadline fuel cut v.under (some op) (cut.child op) (deadline op)
          v.below v.ordered_below (λ z. omega (arith, v.members z, h.distinct z))
          (omega (arith, spine-size v.under, v.sized)) in
      let in_rest : (z : ℕ) → 0 < count z v.rest → Same cut w.after z =
        λ z g. w.others z (omega (arith, v.members z, h.distinct z)) in
      let r : Rejoined op w.after v.rest w.heap (rejoin deadline op x (w.root, w.after)) =
        rejoin_heap op x w.after v.rest w.heap w.root
          (Linked-Kept cut w.after v.rest none (some x) (Kept-of cut w.after v.rest in_rest)
            v.linked)
          (v.alone tt) v.ordered w.linked w.alone w.ordered
          (λ z. omega (arith, w.members z, v.members z, h.distinct z))
          (ground (arith, w.members op, v.members op, h.distinct op)) in
      record {
        left = rejoin deadline op x (w.root, w.after);
        found = true;
        heap = r.heap;
        returns = remove_step fuel op before x q (w.root, w.after) h.linked.0 n e w.returns;
        holds = record {
          linked = r.linked;
          alone = r.alone;
          ordered = r.ordered;
          distinct = λ z. omega (arith, r.members z, w.members z, v.members z, h.distinct z);
          unlinked = λ z g. elim (ℕ_discrete op z) [
            | yes j ↦
                subst (λ k. (rejoin deadline op x (w.root, w.after)).links.prev k ≡ none) j
                  r.cleared
            | no j ↦
                (r.others z j (omega (arith, r.members z))).0
                ∙ (w.others z (omega (arith, r.members z, w.members z))).0
                ∙ (v.others z (ground (arith, r.members z, w.members z, v.members z))).0
                ∙ h.unlinked z (ground (arith, r.members z, w.members z, v.members z))
          ];
        };
        was_there = (λ g. omega arith, λ g. refl);
        gone = ground (arith, r.members op, w.members op, v.members op, h.distinct op);
        members = λ z g. ground (arith, r.members z, w.members z, v.members z);
        absent = λ g. absurd (omega arith);
      }

  -- `remove`, with fuel for every operation in the queue: it returns whether the operation was in the queue,
  -- which stays an ordered heap, without that operation, and with all the others; a queue without it is unchanged.
  pub remove-Removed :
      (fuel op : ℕ) (q : TimerQueue) (t : Heap)
      → Holds deadline q t
      → size t ≤ fuel
      → Removed op q t (remove deadline fuel op q)
  remove-Removed fuel op q nil h f =
      remove_absent fuel op q nil h (λ g. absurd (cc (sym h.linked ∙ g))) refl
  remove-Removed fuel op q (node x c nil) h f = elim (ℕ_discrete x op) [
    | yes g ↦
        subst (λ w. Removed w q (node x c nil) (remove deadline fuel w q)) g
          (remove_root fuel x q c h (omega arith))
    | no g ↦ elim (dec_lt 0 (count op c)) [
      | yes i ↦ elim (Option-cases (q.links.prev op)) [
        | inl e ↦ absurd (prev-some q.links c x op (q.links.child x) h.linked.2 i e)
        | inr e ↦ remove_within fuel op e.0 q x c h g i e.1 (omega arith)
      ]
      | no i ↦
          remove_absent fuel op q (node x c nil) h (λ j. absurd (ground (arith, h.linked.0)))
            (ground arith)
    ]
  ]
  remove-Removed fuel op q (node x c (node y d s)) h f = absurd h.alone
