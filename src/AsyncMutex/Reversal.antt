-- ===== src/AsyncMutex/Reversal.antt =====
-- The loop of `unlock` that turns the waiters it took round, on the `next_` fields of their states.
use coio.Base.{
  ℕ, zero, suc, ◌≤◌, ◌≡◌, refl, ◌∙◌, subst, Option, none, some, List, [], ◌∷◌, reverse, arith,
  length,
}
use coio.Links.{
  Field, Pointer, store, Chain, Distinct, Apart, Chain-store, Apart-cons, store_self, Apart-nil,
}
use coio.Links.Reverse.{rev_onto, rev_onto-eq}
use mathlib.Core.List.{append-nil}

-- `while (current) old_head = exchange(current, exchange(current->next_, old_head))` on fuel.
unfoldable pub unlock_loop : ℕ → Field → Pointer → Pointer → Option (Field × Pointer)
unlock_loop fuel next none old_head = some (next, old_head)
unlock_loop zero next (some current) old_head = none
unlock_loop (suc fuel) next (some current) old_head =
    unlock_loop fuel (store next current old_head) (next current) (some current)

unlock_loop-onto :
    (fuel : ℕ) (next : Field) (current old_head : Pointer) (xs ys : List ℕ)
    → length xs ≤ fuel
    → Chain next current xs
    → Chain next old_head ys
    → Distinct xs
    → Apart xs ys
    → (links : Field) × (head : Pointer) × (unlock_loop fuel next current old_head
        ≡ some (links, head))
      × Chain links head (rev_onto xs ys)
unfolding unlock_loop
unlock_loop-onto fuel next current old_head [] ys h c e d a =
    (next, old_head, rw (c, unlock_loop) refl, e)
unlock_loop-onto zero next current old_head (x ∷ xs) ys h c e d a = absurd (omega arith)
unlock_loop-onto (suc fuel) next current old_head (x ∷ xs) ys h c e d a =
    let (links, head, r, k) =
      unlock_loop-onto fuel (store next x old_head) (next x) (some x) xs (x ∷ ys) (omega arith)
        (Chain-store next x old_head (next x) xs d.0 c.1)
        (refl, rw (store_self next x old_head) (Chain-store next x old_head old_head ys a.0 e)) d.1
        (Apart-cons xs ys x d.0 a.1) in
    (links, head, rw (c.0, unlock_loop) r, k)

-- With as much fuel as there are waiters, the loop ends, and what it leaves is the chain of them in
-- reverse.
pub unlock_loop-reverse :
    (fuel : ℕ) (next : Field) (current : Pointer) (xs : List ℕ)
    → length xs ≤ fuel
    → Chain next current xs
    → Distinct xs
    → (links : Field) × (head : Pointer) × (unlock_loop fuel next current none ≡ some (links, head))
      × Chain links head (reverse xs)
unlock_loop-reverse fuel next current xs h c d =
    let (links, head, r, k) =
      unlock_loop-onto fuel next current none xs [] h c refl d (Apart-nil xs) in
    (links, head, r, subst (Chain links head) (rev_onto-eq xs [] ∙ append-nil (reverse xs)) k)
