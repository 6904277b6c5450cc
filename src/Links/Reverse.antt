-- ===== src/Links/Reverse.antt =====
-- Reversal of a chain in place, the loop that `op_queue::reverse` and `async_mutex::unlock` run.
use coio.Base.{
  ℕ, zero, suc, ◌<◌, ◌≡◌, refl, sym, ◌∙◌, subst, ◌≢◌, Option, none, some, List, [], ◌∷◌, ◌++◌,
  reverse, arith, length,
}
use coio.Links.{
  Field, Pointer, store, Chain, Fresh, Distinct, Apart, Chain-store, Apart-cons, Chain-link,
  store_ne, store_self,
}
use mathlib.Core.List.{append-nil, reverse-cons, append_assoc}

-- The nodes of `xs`, last one first, in front of `ys`.
abbrev pub rev_onto : List ℕ → List ℕ → List ℕ
rev_onto [] ys = ys
rev_onto (x ∷ xs) ys = rev_onto xs (x ∷ ys)

pub rev_onto-eq : (xs ys : List ℕ) → rev_onto xs ys ≡ reverse xs ++ ys
rev_onto-eq [] ys = refl
rev_onto-eq (x ∷ xs) ys =
    rev_onto-eq xs (x ∷ ys) ∙ sym (rw (reverse-cons x xs) (append_assoc (reverse xs) (x ∷ []) ys))

-- `while (true) { next = node->next; node->next = reversed; reversed = node; … }` on fuel.
unfoldable pub reverse_loop : ℕ → Field → ℕ → Pointer → Option (Field × ℕ)
reverse_loop zero next node reversed = none
reverse_loop (suc fuel) next node reversed = elim (next node) [
  | none ↦ some (store next node reversed, node)
  | some following ↦ reverse_loop fuel (store next node reversed) following (some node)
]

-- The loop ends within as much fuel as there are nodes, and turns the chain round in front of `ys`;
-- no other link changes.
pub record Reversed (next : Field) (node : ℕ) (xs ys : List ℕ) (r : Option (Field × ℕ))
    : Type 0 where
  pub links : Field
  pub head : ℕ
  pub result : r ≡ some (links, head)
  pub chain : Chain links (some head) (rev_onto (node ∷ xs) ys)
  pub frame : (j : ℕ) → Fresh j (node ∷ xs) → links j ≡ next j

pub reverse_loop-Reversed :
    (fuel : ℕ) (next : Field) (node : ℕ) (reversed : Pointer) (xs ys : List ℕ)
    → length xs < fuel
    → Chain next (next node) xs
    → Chain next reversed ys
    → Distinct (node ∷ xs)
    → Fresh node ys
    → Apart xs ys
    → Reversed next node xs ys (reverse_loop fuel next node reversed)
unfolding reverse_loop
reverse_loop-Reversed zero next node reversed xs ys h c e d f a = absurd (omega arith)
reverse_loop-Reversed (suc fuel) next node reversed [] ys h c e d f a = record {
  links = store next node reversed;
  head = node;
  result = rw (c, reverse_loop);
  chain =
      (refl, rw (store_self next node reversed) (Chain-store next node reversed reversed ys f e));
  frame = λ j g. store_ne next node j reversed (λ q. g.0 (sym q));
}
reverse_loop-Reversed (suc fuel) next node reversed (x ∷ xs) ys h c e d f a =
    let links : Field = store next node reversed in
    let apart : node ≢ x = d.0.0 in
    let r : Reversed links x xs (node ∷ ys) (reverse_loop fuel links x (some node)) =
      reverse_loop-Reversed fuel links x (some node) xs (node ∷ ys) (omega arith)
        (rw (store_ne next node x reversed apart)
          (Chain-store next node reversed (next x) xs d.0.1 c.1))
        (refl, rw (store_self next node reversed) (Chain-store next node reversed reversed ys f e))
        d.1 ((λ q. apart (sym q)), a.0) (Apart-cons xs ys node d.0.1 a.1) in
    record {
      links = r.links;
      head = r.head;
      result = rw (c.0, reverse_loop) r.result;
      chain = r.chain;
      frame = λ j g. r.frame j g.1 ∙ store_ne next node j reversed (λ q. g.0 (sym q));
    }

pub Fresh-rev_onto : (z : ℕ) (xs ys : List ℕ) → Fresh z xs → Fresh z ys → Fresh z (rev_onto xs ys)
Fresh-rev_onto z [] ys f g = g
Fresh-rev_onto z (x ∷ xs) ys f g = Fresh-rev_onto z xs (x ∷ ys) f.1 (f.0, g)

pub Distinct-rev_onto :
    (xs ys : List ℕ) → Distinct xs → Distinct ys → Apart xs ys → Distinct (rev_onto xs ys)
Distinct-rev_onto [] ys d e a = e
Distinct-rev_onto (x ∷ xs) ys d e a =
    Distinct-rev_onto xs (x ∷ ys) d.1 (a.0, e) (Apart-cons xs ys x d.0 a.1)

pub Apart-rev_onto : (zs xs ys : List ℕ) → Apart zs xs → Apart zs ys → Apart zs (rev_onto xs ys)
Apart-rev_onto [] xs ys a b = tt
Apart-rev_onto (z ∷ zs) xs ys a b =
    (Fresh-rev_onto z xs ys a.0 b.0, Apart-rev_onto zs xs ys a.1 b.1)

pub reverse-rev_onto : (xs ys : List ℕ) → reverse (rev_onto xs ys) ≡ reverse ys ++ xs
reverse-rev_onto [] ys = sym (append-nil (reverse ys))
reverse-rev_onto (x ∷ xs) ys =
    reverse-rev_onto xs (x ∷ ys) ∙ rw (reverse-cons x ys) (append_assoc (reverse ys) (x ∷ []) xs)

-- A reversed chain whose last node is linked to another chain.
pub rev_onto-link :
    (next : Field) (p q : Pointer) (xs ys : List ℕ) (t : ℕ)
    → Chain next p (rev_onto xs (t ∷ []))
    → Fresh t xs
    → Chain next q ys
    → Fresh t ys
    → Chain (store next t q) p (rev_onto xs (t ∷ ys))
rev_onto-link next p q xs ys t c f d g =
    subst (Chain (store next t q) p) (sym (rev_onto-eq xs (t ∷ ys))) (
      Chain-link next p q (reverse xs) ys t (subst (Chain next p) (rev_onto-eq xs (t ∷ [])) c)
        (subst (Fresh t) (rev_onto-eq xs [] ∙ append-nil (reverse xs))
          (Fresh-rev_onto t xs [] f tt))
        d g)
