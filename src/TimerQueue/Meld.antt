-- ===== src/TimerQueue/Meld.antt =====
-- `meld` joins two heaps under the earlier of their roots.

use coio.Base.{
  ℕ, ◌+◌, ◌≤◌, ◌<◌, ◌≡◌, refl, sym, ◌∙◌, subst, ◌≢◌, inl, inr, none, some, arith, ltb, Bool-cases,
}
use coio.TimerQueue.Shape.{
  Heap, nil, node, count, Ordered, Linked, Same, Kept-of, Linked-Kept, size,
}
use coio.TimerQueue.{TimerLinks, set_prev, adopt, meld}
use coio.Links.{Pointer}

module _ (a b : ℕ) (l : TimerLinks) where
  -- What `adopt` leaves alone.
  adopt-Same : (z : ℕ) → a ≢ z → b ≢ z → l.child a ≢ some z → Same l (adopt a b l) z
  unfolding adopt set_prev
  adopt-Same z p q r = ground arith

  -- And what it changes.
  record Adopted (m : TimerLinks) : Type 0 where
    prev_a : m.prev a ≡ l.prev a
    child_a : m.child a ≡ some b
    sibling_a : m.sibling a ≡ l.sibling a
    prev_b : m.prev b ≡ some a
    child_b : m.child b ≡ l.child b
    sibling_b : m.sibling b ≡ l.child a

  adopt-Adopted : a ≢ b → l.child a ≢ some a → l.child a ≢ some b → Adopted (adopt a b l)
  unfolding adopt set_prev
  adopt-Adopted p q r = ground arith

  -- The former first child has a new sibling before it.
  adopt-first :
      (w : ℕ)
      → l.child a ≡ some w
      → a ≢ w
      → b ≢ w
      → ((adopt a b l).prev w ≡ some b)
        × ((adopt a b l).child w ≡ l.child w)
        × ((adopt a b l).sibling w ≡ l.sibling w)
  unfolding adopt set_prev
  adopt-first w e p q = ground arith

pub first-count :
    (l : TimerLinks) (t : Heap) (from p : Pointer) (z : ℕ)
    → Linked l from t p
    → p ≡ some z
    → 0 < count z t
first-count l nil from p z h e = absurd (cc (sym h ∙ e))
first-count l (node x c s) from p z h e = ground (arith, h.0)

-- A heap that is given to the first child as its sibling.
pub reparented :
    (l m : TimerLinks) (a b : ℕ) (c : Heap) (p : Pointer)
    → Linked l (some a) c (p)
    → ((z : ℕ)
        → p ≡ some z
        → (m.prev z ≡ some b) × (m.child z ≡ l.child z) × (m.sibling z ≡ l.sibling z))
    → ((z : ℕ) → 0 < count z c → p ≢ some z → Same l m z)
    → ((z : ℕ) → count z c ≤ 1)
    → Linked m (some b) c (p)
reparented l m a b nil p h f k d = h
reparented l m a b (node w e s) p h f k d =
    let at_first = f w h.0 in
    let other : (z : ℕ) → 0 < count z e + count z s → Same l m z =
      λ z g. k z (omega arith) (λ q. absurd (ground (arith, d z, h.0))) in
    (
      h.0,
      at_first.0,
      subst (Linked m (some w) e) (sym at_first.1) (
          Linked-Kept l m e (some w) (l.child w) (Kept-of l m e (λ z g. other z (omega arith)))
            h.2),
      subst (Linked m (some w) s) (sym at_first.2) (
          Linked-Kept l m s (some w) (l.sibling w) (Kept-of l m s (λ z g. other z (omega arith)))
            h.3),
    )

-- `b` is the first child of `a` now, and the first child of `a` its sibling.
adopt-Linked :
    (a b : ℕ) (l : TimerLinks) (c d : Heap)
    → Linked l none (node a c nil) (some a)
    → Linked l none (node b d nil) (some b)
    → ((z : ℕ) → count z (node a c nil) + count z (node b d nil) ≤ 1)
    → Linked (adopt a b l) none (node a (node b d c) nil) (some a)
adopt-Linked a b l c d h k u =
    let m : TimerLinks = adopt a b l in
    let apart : a ≢ b = λ e. absurd (ground (arith, u b)) in
    let not_c : (z : ℕ) → l.child a ≡ some z → 0 < count z c =
      λ z e. first-count l c (some a) (l.child a) z h.2 e in
    let v : Adopted a b l m =
      adopt-Adopted a b l apart (λ e. absurd (ground (arith, u a, not_c a e)))
        (λ e. absurd (ground (arith, u b, not_c b e))) in
    let in_d : (z : ℕ) → 0 < count z d → Same l m z = λ z p.
      adopt-Same a b l z (λ e. absurd (ground (arith, u z))) (λ e. absurd (ground (arith, u z)))
        (λ e. absurd (omega (arith, u z, not_c z e))) in
    let in_c : (z : ℕ) → 0 < count z c → l.child a ≢ some z → Same l m z = λ z p q.
      adopt-Same a b l z (λ e. absurd (ground (arith, u z))) (λ e. absurd (ground (arith, u z)))
        q in
    (
      refl,
      v.prev_a ∙ h.1,
      (
        v.child_a,
        v.prev_b,
        subst (Linked m (some b) d) (sym v.child_b)
            (Linked-Kept l m d (some b) (l.child b) (Kept-of l m d in_d) k.2),
        subst (Linked m (some b) c) (sym v.sibling_b) (
            reparented l m a b c (l.child a) h.2
              (λ z e.
                adopt-first a b l z e (λ q. absurd (ground (arith, u z, not_c z e)))
                  (λ q. absurd (ground (arith, u z, not_c z e))))
              in_c (λ z. omega (arith, u z))),
      ),
      v.sibling_a ∙ h.3,
    )

-- The heap of `top` and what is below it: the operations of both, in order; and no other links changed.
pub record Melded (deadline : ℕ → ℕ) (l : TimerLinks) (s t : Heap) (top : ℕ) (m : TimerLinks)
    : Type 0 where
  pub below : Heap
  pub linked : Linked m none (node top below nil) (some top)
  pub ordered : Ordered deadline (deadline top) below
  pub members : (z : ℕ) → count z (node top below nil) ≡ count z s + count z t
  pub sized : size (node top below nil) ≡ size s + size t
  pub others : (z : ℕ) → count z s + count z t ≡ 0 → Same l m z

pub meld-Melded :
    (deadline : ℕ → ℕ) (a b : ℕ) (l : TimerLinks) (c d : Heap)
    → Linked l none (node a c nil) (some a)
    → Linked l none (node b d nil) (some b)
    → Ordered deadline (deadline a) c
    → Ordered deadline (deadline b) d
    → ((z : ℕ) → count z (node a c nil) + count z (node b d nil) ≤ 1)
    → Melded deadline l
        (node a c nil)
        (node b d nil)
        (meld deadline a b l).0
        (meld deadline a b l).1
unfolding meld
meld-Melded deadline a b l c d h k o q u = elim (Bool-cases (ltb (deadline b) (deadline a))) [
  | inl z ↦ rw z (record {
    below = node a c d;
    linked = adopt-Linked b a l d c k h (λ x. omega (arith, u x));
    ordered = (ground arith, o, q);
    members = λ x. omega arith;
    sized = omega arith;
    others = λ x e.
        adopt-Same b a l x (ground arith) (ground arith)
          (λ f. absurd (omega (arith, e, first-count l d (some b) (l.child b) x k.2 f)));
  })
  | inr z ↦ rw z (record {
    below = node b d c;
    linked = adopt-Linked a b l c d h k u;
    ordered = (ground arith, q, o);
    members = λ x. omega arith;
    sized = omega arith;
    others = λ x e.
        adopt-Same a b l x (ground arith) (ground arith)
          (λ f. absurd (omega (arith, e, first-count l c (some a) (l.child a) x h.2 f)));
  })
]
