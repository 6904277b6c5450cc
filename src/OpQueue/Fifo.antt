-- ===== src/OpQueue/Fifo.antt =====
-- The queue as the list of its operations, oldest first: what goes in comes out in that order.
use coio.Base.{
  ℕ, ◌≤◌, ◌<◌, ◌≡◌, refl, sym, ap, ◌∙◌, subst, ◌≢◌, ◌↔◌, Bool, true, false, none, some, List, [],
  ◌∷◌, ◌++◌, reverse, arith, length, length-append, length-reverse,
}
use coio.OpQueue.Contents.{
  refill_front-links, Holds, contents, Idle, enqueue-Holds, refill_front-Holds, Holds-store,
  bulk_enqueue-Holds,
}
use coio.OpQueue.{
  publish, OpQueue, enqueue, refill_front, take_front, dequeue, bulk_enqueue, link_ops,
  publish_linked,
}
use coio.Links.Reverse.{reverse_loop, rev_onto, rev_onto-eq, Fresh-rev_onto, reverse-rev_onto}
use coio.Links.{
  store, Chain, Fresh, Distinct, Apart, Fresh-append_left, Fresh-append_right, store_self, Field,
  Chain-frame, Apart-symm, store_ne, Pointer,
}
use mathlib.Core.List.{reverse-cons, append_assoc, append-nil, reverse-reverse}

-- The queue holds the operations `cs`, oldest first.
pub record Queues (q : OpQueue) (cs : List ℕ) : Type 0 where
  pub fronts : List ℕ
  pub incomings : List ℕ
  pub holds : Holds q fronts incomings
  pub same : contents fronts incomings ≡ cs

Fresh-of-reverse : (x : ℕ) (is : List ℕ) → Fresh x (reverse is) → Fresh x is
Fresh-of-reverse x is f =
    subst (Fresh x)
      (rev_onto-eq (reverse is) [] ∙ append-nil (reverse (reverse is)) ∙ reverse-reverse is)
      (Fresh-rev_onto x (reverse is) [] f tt)

Apart-contents : (xs fs is : List ℕ) → Apart xs (contents fs is) → Apart xs fs × Apart xs is
Apart-contents [] fs is a = (tt, tt)
Apart-contents (x ∷ xs) fs is a =
    let (b, c) = Apart-contents xs fs is a.1 in
    (
      (Fresh-append_left x fs (reverse is) a.0, b),
      (Fresh-of-reverse x is (Fresh-append_right x fs (reverse is) a.0), c),
    )

-- An operation alone: the links of the others stay.
pub enqueue-links :
    (op : ℕ) (q r : OpQueue)
    → q.next op ≡ none
    → enqueue 1 op q ≡ some r
    → (z : ℕ) → op ≢ z
    → r.next z ≡ q.next z
unfolding enqueue reverse_loop publish
enqueue-links op q r e f z n = ground (arith, e, f)

-- Links of other operations change.
pub Queues-frame :
    (links : Field) (zs : List ℕ) {q : OpQueue} {cs : List ℕ}
    → Queues q cs
    → Apart zs cs
    → ((j : ℕ) → Fresh j zs → links j ≡ q.next j)
    → Queues (record q { next = links }) cs
Queues-frame links zs {q} {cs} h a f =
    let (b, c) = Apart-contents zs h.fronts h.incomings (subst (Apart zs) (sym h.same) a) in
    record {
      fronts = h.fronts;
      incomings = h.incomings;
      holds = record {
        fronts =
            Chain-frame q.next links q.front h.fronts zs f (Apart-symm zs h.fronts b)
              h.holds.fronts;
        incomings =
            Chain-frame q.next links q.incoming h.incomings zs f (Apart-symm zs h.incomings c)
              h.holds.incomings;
        distinct_fronts = h.holds.distinct_fronts;
        distinct_incomings = h.holds.distinct_incomings;
        apart = h.holds.apart;
      };
      same = h.same;
    }

contents-rev_onto :
    (fs xs is : List ℕ) (op : ℕ) → contents fs (rev_onto xs (op ∷ is)) ≡ contents fs is ++ (op ∷ xs)
contents-rev_onto fs xs is op =
    rw (reverse-rev_onto xs (op ∷ is), reverse-cons op is, append_assoc (reverse is) (op ∷ []) xs)
      (sym (append_assoc fs (reverse is) (op ∷ xs)))

-- `enqueue` puts an operation that is linked to nothing and not in the queue behind all others, and
-- one that heads a chain brings the chain along in its order.
pub enqueue-Queues :
    (fuel op : ℕ) (xs : List ℕ) {q : OpQueue} {cs : List ℕ}
    → Queues q cs
    → Chain q.next (q.next op) xs
    → Distinct (op ∷ xs)
    → Apart (op ∷ xs) cs
    → length xs < fuel
    → (r : OpQueue) × (enqueue fuel op q ≡ some r) × Queues r (cs ++ (op ∷ xs))
enqueue-Queues fuel op xs {q} {cs} h c d a enough =
    let (b, b') =
      Apart-contents (op ∷ xs) h.fronts h.incomings (subst (Apart (op ∷ xs)) (sym h.same) a) in
    let (r, e, k) = enqueue-Holds fuel op xs h.holds c d b b' enough in
    (
      r,
      e,
      record {
        fronts = h.fronts;
        incomings = rev_onto xs (op ∷ h.incomings);
        holds = k;
        same = contents-rev_onto h.fronts xs h.incomings op ∙ ap (λ l. l ++ (op ∷ xs)) h.same;
      },
    )

-- `bulk_enqueue` puts operations that are linked to nothing behind all others, in their order, and
-- says whether there were any.
pub bulk_enqueue-Queues :
    (ops : List ℕ) {q : OpQueue} {cs : List ℕ}
    → Queues q cs
    → Idle q.next ops
    → Distinct ops
    → Apart ops cs
    → (r : OpQueue) × (b : Bool) × (bulk_enqueue ops q ≡ some (r, b))
      × Queues r (cs ++ ops)
      × ((b ≡ true) ↔ (ops ≢ []))
unfolding bulk_enqueue link_ops publish_linked
bulk_enqueue-Queues [] {q} {cs} h i d a =
    (q, false, refl, rw (append-nil cs) h, ((λ e. cc), (λ n. absurd (n refl))))
bulk_enqueue-Queues (op ∷ ops) {q} {cs} h i d a =
    let (b, b') =
      Apart-contents (op ∷ ops) h.fronts h.incomings (subst (Apart (op ∷ ops)) (sym h.same) a) in
    let (r, e, k) = bulk_enqueue-Holds op ops h.holds i d b b' in
    (
      r,
      true,
      e,
      record {
        fronts = h.fronts;
        incomings = rev_onto ops (op ∷ h.incomings);
        holds = k;
        same = contents-rev_onto h.fronts ops h.incomings op ∙ ap (λ l. l ++ (op ∷ ops)) h.same;
      },
      ((λ e. λ n. cc), (λ n. refl)),
    )

-- What `dequeue` returns from a queue that holds `cs`.
pub data Dequeues (fuel : ℕ) (q : OpQueue) : List ℕ → Type 0 where
  nothing : (r : OpQueue) → dequeue fuel q ≡ some (none, r) → Queues r [] → Dequeues fuel q []
  oldest :
      (r : OpQueue) (op : ℕ) {cs : List ℕ}
      → dequeue fuel q ≡ some (some op, r)
      → r.next op ≡ none
      → Queues r cs
      → Dequeues fuel q (op ∷ cs)

length-incomings : (fs is : List ℕ) {cs : List ℕ} → contents fs is ≡ cs → length is ≤ length cs
length-incomings fs is {cs} e =
    omega (arith, ap length e, length-append fs (reverse is), length-reverse is)

taken-Dequeues :
    (fuel : ℕ) {q r : OpQueue} (gs js : List ℕ)
    → refill_front fuel q ≡ some r
    → Holds r gs js
    → ((gs ≡ []) → js ≡ [])
    → Dequeues fuel q (contents gs js)
unfolding dequeue take_front
taken-Dequeues fuel {q} {r} [] js e k drained =
    subst (λ l. Dequeues fuel q (reverse l)) (sym (drained refl))
      (nothing r (rw (e, dequeue) (ground arith))
        (record { fronts = []; incomings = js; holds = k; same = ap reverse (drained refl) }))
taken-Dequeues fuel {r = r} (x ∷ gs) js e k drained =
    oldest (record r { front = r.next x; next = store r.next x none }) x
      (rw (e, dequeue, k.fronts.0, take_front)) (store_self r.next x none)
      (record { fronts = gs; incomings = js; holds = Holds-store x k; same = refl })

-- `dequeue` takes the oldest operation out, linked to nothing, or finds that there is none. As much
-- fuel as there are operations is enough.
pub dequeue-Dequeues :
    (fuel : ℕ) {q : OpQueue} {cs : List ℕ} → Queues q cs → length cs ≤ fuel → Dequeues fuel q cs
dequeue-Dequeues fuel {q} {cs} h enough =
    let (r, gs, js, e, k, same, drained) =
      refill_front-Holds fuel h.fronts h.incomings h.holds
        (omega (arith, length-incomings h.fronts h.incomings h.same)) in
    subst (Dequeues fuel q) (same ∙ h.same) (taken-Dequeues fuel gs js e k drained)

take_front-links :
    (r : OpQueue) (gs : List ℕ) (z : ℕ)
    → Chain r.next r.front gs
    → Fresh z gs
    → (take_front r).1.next z ≡ r.next z
unfolding take_front
take_front-links r [] z c f = rw (c, take_front) refl
take_front-links r (x ∷ gs) z c f =
    rw (c.0, take_front) (store_ne r.next x z none (λ e. f.0 (sym e)))

dequeue-first :
    (fuel : ℕ) (q r s : OpQueue) (o : Pointer)
    → refill_front fuel q ≡ some r
    → dequeue fuel q ≡ some (o, s)
    → s ≡ (take_front r).1
unfolding dequeue
dequeue-first fuel q r s o e f =
    let g : dequeue fuel q ≡ some (take_front r) = rw (e, dequeue) refl in
    ap (λ x. elim x [ none ↦ s | some p ↦ p.1 ]) (sym f ∙ g)

-- The links of other operations stay.
pub dequeue-links :
    (fuel : ℕ) {q s : OpQueue} {cs : List ℕ} (o : Pointer)
    → Queues q cs
    → length cs ≤ fuel
    → dequeue fuel q ≡ some (o, s)
    → (z : ℕ) → Fresh z cs
    → s.next z ≡ q.next z
dequeue-links fuel {q} {s} o h enough e z f =
    let few : length h.incomings ≤ fuel =
      omega (arith, length-incomings h.fronts h.incomings h.same) in
    let (r, gs, js, refilled, k, same, drained) =
      refill_front-Holds fuel h.fronts h.incomings h.holds few in
    let in_queue : Fresh z (contents h.fronts h.incomings) = subst (Fresh z) (sym h.same) f in
    ap (λ t. t.next z) (dequeue-first fuel q r s o refilled e)
    ∙ take_front-links r gs z k.fronts
        (Fresh-append_left z gs (reverse js) (subst (Fresh z) (sym same) in_queue))
    ∙ refill_front-links fuel h.fronts h.incomings h.holds few refilled z (
        Fresh-of-reverse z h.incomings
          (Fresh-append_right z h.fronts (reverse h.incomings) in_queue))
