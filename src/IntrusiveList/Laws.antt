-- ===== src/IntrusiveList/Laws.antt =====
-- The list as the sequence of its objects.
use coio.Base.{
  ℕ, zero, suc, ◌+◌, ◌<◌, ◌≡◌, refl, sym, ap, ◌∙◌, subst, ◌≢◌, none, some, List, [], ◌∷◌, ◌++◌,
  arith, length,
}
use coio.IntrusiveList.{IntrusiveList, push_back, append, pop_front, walk, link_last}
use coio.Links.{
  Field, Pointer, store, Chain, Fresh, Distinct, Apart, Chain-store, Distinct-append, store_ne,
  store_self, Apart-symm,
}

abbrev pub last_node : ℕ → List ℕ → ℕ
last_node x [] = x
last_node x (y ∷ ys) = last_node y ys

abbrev pub last : List ℕ → Pointer
last [] = none
last (x ∷ xs) = some (last_node x xs)

-- The links run through `xs`, and the tail is the last of them.
pub record Lists (l : IntrusiveList) (xs : List ℕ) : Type 0 where
  pub chain : Chain l.next l.head xs
  pub ends : l.tail ≡ last xs
  pub distinct : Distinct xs

Fresh-last_node : (z x : ℕ) (xs : List ℕ) → Fresh z (x ∷ xs) → z ≢ last_node x xs
Fresh-last_node z x [] f = f.0
Fresh-last_node z x (y ∷ ys) f = Fresh-last_node z y ys f.1

Fresh-of-Apart : (x : ℕ) (xs ys : List ℕ) → Apart (x ∷ xs) ys → Fresh (last_node x xs) ys
Fresh-of-Apart x [] ys a = a.0
Fresh-of-Apart x (z ∷ zs) ys a = Fresh-of-Apart z zs ys a.1

last_node-append : (x y : ℕ) (xs ys : List ℕ) → last_node x (xs ++ (y ∷ ys)) ≡ last_node y ys
last_node-append x y [] ys = refl
last_node-append x y (z ∷ zs) ys = last_node-append z y zs ys

-- A chain linked behind the last node of another.
Chain-extend :
    (next : Field) (p q : Pointer) (x : ℕ) (xs ys : List ℕ)
    → Chain next p (x ∷ xs)
    → Distinct (x ∷ xs)
    → Chain next q ys
    → Fresh (last_node x xs) ys
    → Chain (store next (last_node x xs) q) p (x ∷ (xs ++ ys))
Chain-extend next p q x [] ys c d e f =
    (c.0, rw (store_self next x q) (Chain-store next x q q ys f e))
Chain-extend next p q x (z ∷ zs) ys c d e f = (
  c.0,
  rw (store_ne next (last_node z zs) x q (λ r. Fresh-last_node x z zs d.0 (sym r)))
      (Chain-extend next (next x) q z zs ys c.1 d.1 e f),
)

link_last-none :
    (object : ℕ) (l : IntrusiveList)
    → l.tail ≡ none
    → link_last object l ≡ record l { head = some object }
link_last-none object l e = ground arith

link_last-some :
    (object t : ℕ) (l : IntrusiveList)
    → l.tail ≡ some t
    → link_last object l ≡ record l { next = store l.next t (some object) }
link_last-some object t l e = rw e

-- A chain from `object` on, linked behind the list, and its last node made the tail.
linked-Lists :
    (object : ℕ) (ys : List ℕ) {l : IntrusiveList} (xs : List ℕ)
    → Lists l xs
    → Chain l.next (l.next object) ys
    → Distinct (object ∷ ys)
    → Apart xs (object ∷ ys)
    → Lists
        (record (link_last object l) { tail = some (last_node object ys) })
        (xs ++ (object ∷ ys))
linked-Lists object ys {l} [] h c d a =
    subst (λ m. Lists (record m { tail = some (last_node object ys) }) (object ∷ ys))
      (sym (link_last-none object l h.ends))
      (record { chain = (refl, c); ends = refl; distinct = d })
linked-Lists object ys {l} (x ∷ xs) h c d a =
    subst (λ m. Lists (record m { tail = some (last_node object ys) }) (x ∷ (xs ++ (object ∷ ys))))
      (sym (link_last-some object (last_node x xs) l h.ends))
      (record {
        chain =
            Chain-extend l.next l.head (some object) x xs (object ∷ ys) h.chain h.distinct (refl, c)
              (Fresh-of-Apart x xs (object ∷ ys) a);
        ends = ap some (sym (last_node-append x object xs ys));
        distinct = Distinct-append (x ∷ xs) (object ∷ ys) h.distinct d a;
      })

-- `push_back` puts an object that is not in the list behind all others.
pub push_back-Lists :
    (object : ℕ) {l : IntrusiveList} (xs : List ℕ)
    → Lists l xs
    → Fresh object xs
    → Lists (push_back object l) (xs ++ (object ∷ []))
unfolding push_back
push_back-Lists object {l} xs h f =
    linked-Lists object [] xs
      (record {
        chain = Chain-store l.next object none l.head xs f h.chain;
        ends = h.ends;
        distinct = h.distinct;
      })
      (store_self l.next object none) (tt, tt) (Apart-symm (object ∷ []) xs (f, tt))

walk_lem :
    (fuel : ℕ) (next : Field) (node count : ℕ) (ys : List ℕ)
    → length ys < fuel
    → Chain next (next node) ys
    → walk fuel next node count ≡ some (last_node node ys, count + length ys)
unfolding walk
walk_lem zero next node count ys h c = absurd (omega arith)
walk_lem (suc fuel) next node count [] h c = rw (c, walk) (ap (λ n. some (node, n)) (omega arith))
walk_lem (suc fuel) next node count (y ∷ ys) h c =
    rw (c.0, walk)
      (walk_lem fuel next y (count + 1) ys (omega arith) c.1
        ∙ ap (λ n. some (last_node y ys, n)) (omega arith))

link_last-next :
    (object : ℕ) (ys : List ℕ) {l : IntrusiveList} (xs : List ℕ)
    → Lists l xs
    → Chain l.next (l.next object) ys
    → Apart xs (object ∷ ys)
    → Chain (link_last object l).next ((link_last object l).next object) ys
link_last-next object ys {l} [] h c a =
    subst (λ (m : IntrusiveList). Chain m.next (m.next object) ys)
      (sym (link_last-none object l h.ends)) c
link_last-next object ys {l} (x ∷ xs) h c a =
    let f = Fresh-of-Apart x xs (object ∷ ys) a in
    subst (λ (m : IntrusiveList). Chain m.next (m.next object) ys)
      (sym (link_last-some object (last_node x xs) l h.ends))
      (rw (store_ne l.next (last_node x xs) object (some object) f.0)
        (Chain-store l.next (last_node x xs) (some object) (l.next object) ys f.1 c))

-- `append` puts a whole chain behind the list and returns its length, if the fuel exceeds the number
-- of links to follow.
pub append-Lists :
    (fuel object : ℕ) (ys : List ℕ) {l : IntrusiveList} (xs : List ℕ)
    → Lists l xs
    → Chain l.next (l.next object) ys
    → Distinct (object ∷ ys)
    → Apart xs (object ∷ ys)
    → length ys < fuel
    → (r : IntrusiveList) × (append fuel object l ≡ some (length (object ∷ ys), r))
      × Lists r (xs ++ (object ∷ ys))
unfolding append
append-Lists fuel object ys {l} xs h c d a enough = (
  record (link_last object l) { tail = some (last_node object ys) },
  rw
      (
        walk_lem fuel (link_last object l).next object 1 ys enough
            (link_last-next object ys xs h c a),
        append,
      )
      (ap (λ n. some (n, record (link_last object l) { tail = some (last_node object ys) }))
        (omega arith)),
  linked-Lists object ys xs h c d a,
)

-- What `pop_front` returns from a list of `xs`.
pub data Pops (l : IntrusiveList) : List ℕ → Type 0 where
  nothing : pop_front l ≡ (none, l) → Pops l []
  popped :
      (object : ℕ) {xs : List ℕ} (r : IntrusiveList)
      → pop_front l ≡ (some object, r)
      → r.next object ≡ none
      → Lists r xs
      → Pops l (object ∷ xs)

rest-ends :
    (l : IntrusiveList) (x : ℕ) (xs : List ℕ)
    → Chain l.next (l.next x) xs
    → l.tail ≡ some (last_node x xs)
    → (elim (l.next x) [ none ↦ none | some _ ↦ l.tail ]) ≡ last xs
rest-ends l x [] c e = rw c
rest-ends l x (y ∷ ys) c e = rw c.0 e

-- `pop_front` takes the first object out, linked to nothing, or finds the list empty.
pub pop_front-Pops : {l : IntrusiveList} (xs : List ℕ) → Lists l xs → Pops l xs
unfolding pop_front
pop_front-Pops {l} [] h = nothing (ground arith)
pop_front-Pops {l} (x ∷ xs) h =
    popped x
      (record {
        next = store l.next x none;
        head = l.next x;
        tail = elim (l.next x) [ none ↦ none | some _ ↦ l.tail ];
      })
      (rw (h.chain.0, pop_front)) (store_self l.next x none)
      (record {
        chain = Chain-store l.next x none (l.next x) xs h.distinct.0 h.chain.1;
        ends = rest-ends l x xs h.chain.1 h.ends;
        distinct = h.distinct.1;
      })
