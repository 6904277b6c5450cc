-- ===== src/OpQueue/Contents.antt =====
-- The operations that a queue holds, oldest first, and the links that hold them.
use coio.Base.{
  ℕ, ◌≤◌, ◌<◌, ◌≡◌, refl, sym, ◌∙◌, true, Option, none, some, List, [], ◌∷◌, ◌++◌, reverse, arith,
  length,
}
use coio.OpQueue.{OpQueue, publish, enqueue, refill_front, bulk_enqueue, link_ops, publish_linked}
use mathlib.Core.List.{append-nil, reverse-cons}
use coio.Links.Reverse.{
  rev_onto, rev_onto-eq, reverse_loop-Reversed, Distinct-rev_onto, Apart-rev_onto, rev_onto-link,
}
use coio.Links.{
  Field, Pointer, store, Chain, Fresh, Distinct, Apart, Chain-store, Apart-cons, Apart-tail,
  store_ne, store_self, Chain-frame, Apart-nil, Apart-symm,
}

-- The front chain runs through `fs`, the incoming one through `is`, latest first.
pub record Holds (q : OpQueue) (fs is : List ℕ) : Type 0 where
  pub fronts : Chain q.next q.front fs
  pub incomings : Chain q.next q.incoming is
  pub distinct_fronts : Distinct fs
  pub distinct_incomings : Distinct is
  pub apart : Apart fs is

abbrev pub contents : List ℕ → List ℕ → List ℕ
contents fs is = fs ++ reverse is

-- A single operation, or a chain of them from `op` on, comes in behind what is there.
pub enqueue-Holds :
    (fuel op : ℕ) (xs : List ℕ) {q : OpQueue} {fs is : List ℕ}
    → Holds q fs is
    → Chain q.next (q.next op) xs
    → Distinct (op ∷ xs)
    → Apart (op ∷ xs) fs
    → Apart (op ∷ xs) is
    → length xs < fuel
    → (r : OpQueue) × (enqueue fuel op q ≡ some r) × Holds r fs (rev_onto xs (op ∷ is))
unfolding enqueue publish
enqueue-Holds fuel op xs {q} {fs} {is} h c d a b enough =
    let r = reverse_loop-Reversed fuel q.next op none xs [] enough c refl d tt (Apart-nil xs) in
    let kept = Apart-symm (op ∷ xs) fs a in
    let kept' = Apart-symm (op ∷ xs) is b in
    (
      record { next = store r.links op q.incoming; incoming = some r.head; front = q.front },
      rw (r.result, enqueue),
      record {
        fronts =
            Chain-store r.links op q.incoming q.front fs a.0
              (Chain-frame q.next r.links q.front fs (op ∷ xs) r.frame kept h.fronts);
        incomings =
            rev_onto-link r.links (some r.head) q.incoming xs is op r.chain d.0
              (Chain-frame q.next r.links q.incoming is (op ∷ xs) r.frame kept' h.incomings) b.0;
        distinct_fronts = h.distinct_fronts;
        distinct_incomings =
            Distinct-rev_onto xs (op ∷ is) d.1 (b.0, h.distinct_incomings)
              (Apart-cons xs is op d.0 b.1);
        apart =
            Apart-rev_onto fs xs (op ∷ is) (Apart-tail fs xs op kept).1
              (Apart-cons fs is op a.0 h.apart);
      },
    )

-- The front of the queue, refilled if it has run out.
pub refill_front-Holds :
    (fuel : ℕ) {q : OpQueue} (fs is : List ℕ)
    → Holds q fs is
    → length is ≤ fuel
    → (r : OpQueue) × (gs : List ℕ) × (js : List ℕ) × (refill_front fuel q ≡ some r)
      × Holds r gs js
      × (contents gs js ≡ contents fs is)
      × ((gs ≡ []) → js ≡ [])
unfolding refill_front
refill_front-Holds fuel {q} (x ∷ fs) is h enough = (q, x ∷ fs, is, ground arith, h, refl, λ e. cc)
refill_front-Holds fuel {q} [] [] h enough = (q, [], [], ground arith, h, refl, λ e. refl)
refill_front-Holds fuel {q} [] (y ∷ ys) h enough =
    let r =
      reverse_loop-Reversed fuel q.next y none ys [] (omega arith) h.incomings.1 refl
        h.distinct_incomings tt (Apart-nil ys) in
    (
      record { next = r.links; incoming = none; front = some r.head },
      rev_onto ys (y ∷ []),
      [],
      rw (h.fronts, h.incomings.0, r.result, refill_front),
      record {
        fronts = r.chain;
        incomings = refl;
        distinct_fronts =
            Distinct-rev_onto ys (y ∷ []) h.distinct_incomings.1 (tt, tt)
              (Apart-cons ys [] y h.distinct_incomings.0 (Apart-nil ys));
        distinct_incomings = tt;
        apart = Apart-nil (rev_onto ys (y ∷ []));
      },
      append-nil (rev_onto ys (y ∷ [])) ∙ rev_onto-eq ys (y ∷ []) ∙ sym (reverse-cons y ys),
      λ e. refl,
    )

-- The links of other operations stay.
pub refill_front-links :
    (fuel : ℕ) {q r : OpQueue} (fs is : List ℕ)
    → Holds q fs is
    → length is ≤ fuel
    → refill_front fuel q ≡ some r
    → (z : ℕ) → Fresh z is
    → r.next z ≡ q.next z
unfolding refill_front
refill_front-links fuel {q} {r} (x ∷ fs) is h enough e z f = ground (arith, h.fronts.0, e)
refill_front-links fuel {q} {r} [] [] h enough e z f = ground (arith, h.fronts, h.incomings, e)
refill_front-links fuel {q} {r} [] (y ∷ ys) h enough e z f =
    let v =
      reverse_loop-Reversed fuel q.next y none ys [] (omega arith) h.incomings.1 refl
        h.distinct_incomings tt (Apart-nil ys) in
    let refilled : refill_front fuel q
        ≡ some (record { next = v.links; incoming = none; front = some v.head }) =
      rw (h.fronts, h.incomings.0, v.result, refill_front) in
    let same : v.links z ≡ q.next z = v.frame z f in ground (arith, e, refilled, same)

-- The oldest operation is taken out and linked to nothing.
pub Holds-store :
    (x : ℕ) {q : OpQueue} {fs is : List ℕ}
    → Holds q (x ∷ fs) is
    → Holds (record q { front = q.next x; next = store q.next x none }) fs is
Holds-store x {q} {fs} {is} h = record {
  fronts = Chain-store q.next x none (q.next x) fs h.distinct_fronts.0 h.fronts.1;
  incomings = Chain-store q.next x none q.incoming is h.apart.0 h.incomings;
  distinct_fronts = h.distinct_fronts.1;
  distinct_incomings = h.distinct_incomings;
  apart = h.apart.1;
}

-- Each of the operations is linked to nothing.
abbrev pub Idle : Field → List ℕ → Type 0
Idle next [] = Unit {0}
Idle next (x ∷ xs) = (next x ≡ none) × Idle next xs

Idle-store :
    (next : Field) (x : ℕ) (p : Pointer) (xs : List ℕ)
    → Fresh x xs
    → Idle next xs
    → Idle (store next x p) xs
Idle-store next x p [] f i = tt
Idle-store next x p (y ∷ ys) f i = (store_ne next x y p f.0 ∙ i.0, Idle-store next x p ys f.1 i.1)

-- What the loop of `bulk_enqueue` leaves, started with the chain `as`, whose last node is `t`.
record Linked (next : Field) (ops hs : List ℕ) (t : ℕ) (r : Option (Field × Pointer × Pointer))
    : Type 0 where
  links : Field
  head : ℕ
  result : r ≡ some (links, some head, some t)
  chain : Chain links (some head) (rev_onto ops hs)
  frame : (j : ℕ) → Fresh j ops → links j ≡ next j

link_ops-Linked :
    (ops : List ℕ) (next : Field) (head t : ℕ) (hs : List ℕ)
    → Idle next ops
    → Chain next (some head) hs
    → Distinct ops
    → Apart ops hs
    → Linked next ops hs t (link_ops ops next (some head) (some t))
unfolding link_ops
link_ops-Linked [] next head t hs i c d a = record {
  links = next;
  head = head;
  result = refl;
  chain = c;
  frame = λ j f. refl;
}
link_ops-Linked (op ∷ ops) next head t hs i c d a =
    let l : Linked (store next op (some head)) ops (op ∷ hs) t
        (link_ops ops (store next op (some head)) (some op) (some t)) =
      link_ops-Linked ops (store next op (some head)) op t (op ∷ hs)
        (Idle-store next op (some head) ops d.0 i.1)
        (
          refl,
          rw (store_self next op (some head))
              (Chain-store next op (some head) (some head) hs a.0 c),
        )
        d.1 (Apart-cons ops hs op d.0 a.1) in
    record {
      links = l.links;
      head = l.head;
      result = rw (i.0, link_ops) l.result;
      chain = l.chain;
      frame = λ j f. l.frame j f.1 ∙ store_ne next op j (some head) (λ e. f.0 (sym e));
    }

link_ops-first :
    (op : ℕ) (ops : List ℕ) (next : Field) {r : Option (Field × Pointer × Pointer)}
    → next op ≡ none
    → link_ops ops (store next op none) (some op) (some op) ≡ r
    → link_ops (op ∷ ops) next none none ≡ r
unfolding link_ops
link_ops-first op ops next e l = rw (e, link_ops) l

-- A batch comes in behind what is there, in its own order.
pub bulk_enqueue-Holds :
    (op : ℕ) (ops : List ℕ) {q : OpQueue} {fs is : List ℕ}
    → Holds q fs is
    → Idle q.next (op ∷ ops)
    → Distinct (op ∷ ops)
    → Apart (op ∷ ops) fs
    → Apart (op ∷ ops) is
    → (r : OpQueue) × (bulk_enqueue (op ∷ ops) q ≡ some (r, true))
      × Holds r fs (rev_onto ops (op ∷ is))
unfolding bulk_enqueue publish_linked publish
bulk_enqueue-Holds op ops {q} {fs} {is} h i d a b =
    let start : Field = store q.next op none in
    let l : Linked start ops (op ∷ []) op (link_ops ops start (some op) (some op)) =
      link_ops-Linked ops start op op (op ∷ []) (Idle-store q.next op none ops d.0 i.1)
        (refl, store_self q.next op none) d.1 (Apart-cons ops [] op d.0 (Apart-nil ops)) in
    let frame : (j : ℕ) → Fresh j (op ∷ ops) → l.links j ≡ q.next j =
      λ j f. l.frame j f.1 ∙ store_ne q.next op j none (λ e. f.0 (sym e)) in
    let linked = link_ops-first op ops q.next i.0 l.result in
    let kept = Apart-symm (op ∷ ops) fs a in
    let kept' = Apart-symm (op ∷ ops) is b in
    (
      record { next = store l.links op q.incoming; incoming = some l.head; front = q.front },
      rw (linked, bulk_enqueue),
      record {
        fronts =
            Chain-store l.links op q.incoming q.front fs a.0
              (Chain-frame q.next l.links q.front fs (op ∷ ops) frame kept h.fronts);
        incomings =
            rev_onto-link l.links (some l.head) q.incoming ops is op l.chain d.0
              (Chain-frame q.next l.links q.incoming is (op ∷ ops) frame kept' h.incomings) b.0;
        distinct_fronts = h.distinct_fronts;
        distinct_incomings =
            Distinct-rev_onto ops (op ∷ is) d.1 (b.0, h.distinct_incomings)
              (Apart-cons ops is op d.0 b.1);
        apart =
            Apart-rev_onto fs ops (op ∷ is) (Apart-tail fs ops op kept).1
              (Apart-cons fs is op a.0 h.apart);
      },
    )
