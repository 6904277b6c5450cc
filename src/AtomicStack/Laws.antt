-- ===== src/AtomicStack/Laws.antt =====
-- The stack as what its clients see of it: untouched, or a list, latest push first.
use coio.Base.{ℕ, ◌≡◌, refl, sym, ◌∙◌, subst, ◌↔◌, true, none, some, List, [], ◌∷◌}
use coio.Links.{store, Field, Pointer, Chain, Chain-store, Fresh, Distinct, store_self}
use coio.AtomicStack.{
  AtomicStack, StackStatus, empty_and_never_pushed, empty_but_pushed, not_empty, self, at, top_of,
  status_of, push, pop_all, status, empty,
}

pub data Stack : Type 0 where
  untouched : Stack
  nodes : List ℕ → Stack

abbrev pub items : Stack → List ℕ
items untouched = []
items (nodes xs) = xs

abbrev pub seen : Stack → StackStatus
seen untouched = empty_and_never_pushed
seen (nodes []) = empty_but_pushed
seen (nodes (x ∷ xs)) = not_empty

-- The stack shows `v`.
pub data Shows (s : AtomicStack) : Stack → Type 0 where
  fresh : s.head ≡ self → Shows s untouched
  linked :
      (p : Pointer) {xs : List ℕ}
      → s.head ≡ at p
      → Chain s.next p xs
      → Distinct xs
      → Shows s (nodes xs)

seen-Chain :
    (next : Field) (p : Pointer) (xs : List ℕ)
    → Chain next p xs
    → status_of (at p) ≡ seen (nodes xs)
seen-Chain next p [] c = rw c
seen-Chain next p (x ∷ xs) c = rw c.0

-- A push of a node that is not in the stack puts it on top, and returns the status before.
pub push-Shows :
    (object : ℕ) {s : AtomicStack} {v : Stack}
    → Shows s v
    → Fresh object (items v)
    → ((push object s).0 ≡ seen v) × Shows (push object s).1 (nodes (object ∷ items v))
unfolding push
push-Shows object {s} (fresh e) f = (
  rw e,
  linked (some object) refl (refl, store_self s.next object (top_of s.head) ∙ rw e) (tt, tt),
)
push-Shows object {s} (linked p {xs = xs} e c d) f = (
  rw e (seen-Chain s.next p xs c),
  linked (some object) refl
      (
        refl,
        subst (λ q. Chain (store s.next object (top_of s.head)) q xs)
            (sym (store_self s.next object (top_of s.head)))
            (Chain-store s.next object (top_of s.head) (top_of s.head) xs f
              (subst (λ h. Chain s.next (top_of h) xs) (sym e) c)),
      )
      (f, d),
)

-- `pop_all` takes every node, and leaves a stack that is empty but was pushed to.
pub pop_all-Shows :
    {s : AtomicStack} {v : Stack}
    → Shows s v
    → Chain s.next (pop_all s).0 (items v) × Shows (pop_all s).1 (nodes [])
unfolding pop_all
pop_all-Shows {s} (fresh e) = (rw e, linked none refl refl tt)
pop_all-Shows {s} (linked p e c d) = (rw e c, linked none refl refl tt)

-- `status` tells the three states apart, and `empty` is whether there are nodes.
pub status-Shows :
    {s : AtomicStack} {v : Stack}
    → Shows s v
    → (status s ≡ seen v) × ((empty s ≡ true) ↔ (items v ≡ []))
unfolding status empty
status-Shows {s} (fresh e) = (rw e, rw e ((λ _. refl), (λ _. refl)))
status-Shows {s} (linked p {xs = []} e c d) = (rw (e, c), rw (e, c) ((λ _. refl), (λ _. refl)))
status-Shows {s} (linked p {xs = x ∷ xs} e c d) = (rw (e, c.0), rw (e, c.0) ((λ q. cc), (λ q. cc)))
