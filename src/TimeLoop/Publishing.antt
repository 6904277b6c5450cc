-- ===== src/TimeLoop/Publishing.antt =====
-- `publish_pending` posts the operations of a chain that are armed, in their order.

use coio.Base.{
  ℕ, zero, suc, ◌<◌, ◌≡◌, refl, sym, ap, ◌∙◌, subst, ◌≢◌, Option, none, some, List, [], ◌∷◌, ◌++◌,
  arith, length, ◌≤◌, length-append,
}
use mathlib.Core.List.{append-nil, append_assoc}
use coio.OpQueue.Fifo.{Queues, enqueue-Queues, Queues-frame, enqueue-links}
use coio.OpQueue.{OpQueue}
use coio.OperationPhase.{Phase, starting, armed, cancel_deferred, completed}
use coio.TimeLoop.{TimeLoop, set_links, immediately_post, mark_completed, publish, publish_pending}
use coio.Links.{
  Pointer, store, Chain, Fresh, Distinct, Apart, Chain-frame, Apart-symm, Fresh-append,
}

-- An operation is posted if it is armed.
abbrev pub posted : Phase → ℕ → List ℕ
posted starting op = []
posted armed op = op ∷ []
posted cancel_deferred op = []
posted completed op = []

abbrev pub all_posted : (ℕ → Phase) → List ℕ → List ℕ
all_posted phases [] = []
all_posted phases (op ∷ ops) = posted (phases op) op ++ all_posted phases ops

length-posted : (p : Phase) (op : ℕ) → length (posted p op) ≤ 1
length-posted starting op = omega arith
length-posted armed op = omega arith
length-posted cancel_deferred op = omega arith
length-posted completed op = omega arith

pub length-all_posted :
    (phases : ℕ → Phase) (ops : List ℕ) → length (all_posted phases ops) ≤ length ops
length-all_posted phases [] = omega arith
length-all_posted phases (op ∷ ops) = omega (
  arith,
  length-append (posted (phases op) op) (all_posted phases ops),
  length-posted (phases op) op,
  length-all_posted phases ops,
)

pub record Published (l : TimeLoop) (cs ops : List ℕ) (o : Option TimeLoop) : Type 0 where
  pub after : TimeLoop
  pub returns : o ≡ some after
  pub queues : Queues after.queue (cs ++ all_posted l.phases ops)
  pub links : (z : ℕ) → Fresh z ops → after.queue.next z ≡ l.queue.next z
  pub phases : (z : ℕ) → Fresh z ops → after.phases z ≡ l.phases z
  pub timers : after.timers ≡ l.timers
  pub canceled : after.canceled ≡ l.canceled
  pub work_count : after.work_count ≡ l.work_count

all_posted-cong :
    (f g : ℕ → Phase) (ops : List ℕ) (op : ℕ)
    → Fresh op ops
    → ((z : ℕ) → op ≢ z → f z ≡ g z)
    → all_posted f ops ≡ all_posted g ops
all_posted-cong f g [] op h k = refl
all_posted-cong f g (x ∷ ops) op h k = rw (k x h.0, all_posted-cong f g ops op h.1 k) refl

immediately_post-Published :
    (op : ℕ) (l : TimeLoop) (cs : List ℕ)
    → Queues l.queue cs
    → Fresh op cs
    → l.queue.next op ≡ none
    → (q : OpQueue) × (immediately_post op l ≡ some (record l { queue = q }))
      × Queues q (cs ++ op ∷ [])
      × ((z : ℕ) → op ≢ z → q.next z ≡ l.queue.next z)
unfolding immediately_post
immediately_post-Published op l cs h a e =
    let (q, f, k) = enqueue-Queues 1 op [] h e (tt, tt) (a, tt) (omega arith) in
    (q, rw (e, immediately_post, f) refl, k, enqueue-links op l.queue q e f)

pub publish-Published :
    (op : ℕ) (l : TimeLoop) (cs : List ℕ) (p : Phase)
    → l.phases op ≡ p
    → p ≢ completed
    → Queues l.queue cs
    → Fresh op cs
    → l.queue.next op ≡ none
    → Published l cs (op ∷ []) (publish op l)
unfolding publish
publish-Published op l cs starting p n h a e =
    rw (p, publish)
      (record {
        after = mark_completed op l;
        returns = refl;
        queues =
            subst (λ x. Queues l.queue (cs ++ (posted x op ++ []))) (sym p)
              (subst (Queues l.queue) (sym (append-nil cs)) h);
        links = λ z g. refl;
        phases = λ z g. ground arith;
        timers = refl;
        canceled = refl;
        work_count = refl;
      })
publish-Published op l cs armed p n h a e =
    let (q, f, k, links) = immediately_post-Published op (mark_completed op l) cs h a e in
    rw (p, publish)
      (record {
        after = record (mark_completed op l) { queue = q };
        returns = f;
        queues = subst (λ x. Queues q (cs ++ (posted x op ++ []))) (sym p) k;
        links = λ z g. links z (λ i. g.0 (sym i));
        phases = λ z g. ground arith;
        timers = refl;
        canceled = refl;
        work_count = refl;
      })
publish-Published op l cs cancel_deferred p n h a e =
    rw (p, publish)
      (record {
        after = mark_completed op l;
        returns = refl;
        queues =
            subst (λ x. Queues l.queue (cs ++ (posted x op ++ []))) (sym p)
              (subst (Queues l.queue) (sym (append-nil cs)) h);
        links = λ z g. refl;
        phases = λ z g. ground arith;
        timers = refl;
        canceled = refl;
        work_count = refl;
      })
publish-Published op l cs completed p n h a e = absurd (n refl)

Apart-append_right : (xs ys zs : List ℕ) → Apart xs ys → Apart xs zs → Apart xs (ys ++ zs)
Apart-append_right [] ys zs a b = tt
Apart-append_right (x ∷ xs) ys zs a b =
    (Fresh-append x ys zs a.0 b.0, Apart-append_right xs ys zs a.1 b.1)

pub Fresh-posted : (z op : ℕ) (p : Phase) → z ≢ op → Fresh z (posted p op)
Fresh-posted z op starting n = tt
Fresh-posted z op armed n = (n, tt)
Fresh-posted z op cancel_deferred n = tt
Fresh-posted z op completed n = tt

Apart-posted : (xs : List ℕ) (op : ℕ) (p : Phase) → Fresh op xs → Apart xs (posted p op)
Apart-posted [] op p f = tt
Apart-posted (x ∷ xs) op p f = (Fresh-posted x op p (λ e. f.0 (sym e)), Apart-posted xs op p f.1)

-- No operation of the list was published.
abbrev pub Pending : (ℕ → Phase) → List ℕ → Type 0
Pending phases [] = Unit {0}
Pending phases (op ∷ ops) = (phases op ≢ completed) × Pending phases ops

Pending-cong :
    (f g : ℕ → Phase) (ops : List ℕ) (op : ℕ)
    → Fresh op ops
    → ((z : ℕ) → op ≢ z → f z ≡ g z)
    → Pending f ops
    → Pending g ops
Pending-cong f g [] op h k p = tt
Pending-cong f g (x ∷ ops) op h k p = ((λ e. p.0 (k x h.0 ∙ e)), Pending-cong f g ops op h.1 k p.1)

pub publish_pending-Published :
    (fuel : ℕ) (ops : List ℕ) (first : Pointer) (l : TimeLoop) (cs : List ℕ)
    → Queues l.queue cs
    → Chain l.queue.next first ops
    → Distinct ops
    → Apart ops cs
    → Pending l.phases ops
    → length ops < fuel
    → Published l cs ops (publish_pending fuel first l)
unfolding publish_pending
publish_pending-Published zero ops first l cs h c d a p f = absurd (omega arith)
publish_pending-Published (suc fuel) [] first l cs h c d a p f =
    rw (c, publish_pending)
      (record {
        after = l;
        returns = refl;
        queues = subst (Queues l.queue) (sym (append-nil cs)) h;
        links = λ z g. refl;
        phases = λ z g. refl;
        timers = refl;
        canceled = refl;
        work_count = refl;
      })
publish_pending-Published (suc fuel) (op ∷ ops) first l cs h c d a p f =
    let m : TimeLoop = set_links (store l.queue.next op none) l in
    let v : Published m cs (op ∷ []) (publish op m) =
      publish-Published op m cs (l.phases op) refl p.0
        (Queues-frame (store l.queue.next op none) (op ∷ []) h (a.0, tt) (λ j g. ground arith)) a.0
        (ground arith) in
    let same_phases : (z : ℕ) → op ≢ z → l.phases z ≡ v.after.phases z =
      λ z g. sym (v.phases z ((λ e. g (sym e)), tt)) in
    let same_links : (z : ℕ) → op ≢ z → v.after.queue.next z ≡ l.queue.next z =
      λ z g. v.links z ((λ e. g (sym e)), tt) ∙ ground arith in
    let one : cs ++ all_posted m.phases (op ∷ []) ≡ cs ++ posted (l.phases op) op =
      ap (λ ys. cs ++ ys) (append-nil (posted (l.phases op) op)) in
    let w : Published v.after (cs ++ posted (l.phases op) op) ops
        (publish_pending fuel (l.queue.next op) v.after) =
      publish_pending-Published fuel ops (l.queue.next op) v.after (cs ++ posted (l.phases op) op)
        (subst (Queues v.after.queue) one v.queues)
        (Chain-frame l.queue.next v.after.queue.next (l.queue.next op) ops (op ∷ [])
          (λ j g. same_links j (λ e. g.0 (sym e))) (Apart-symm (op ∷ []) ops (d.0, tt)) c.1)
        d.1
        (Apart-append_right ops cs (posted (l.phases op) op) a.1
          (Apart-posted ops op (l.phases op) d.0))
        (Pending-cong l.phases v.after.phases ops op d.0 same_phases p.1) (omega arith) in
    rw (c.0, publish_pending, v.returns)
      (record {
        after = w.after;
        returns = w.returns;
        queues =
            subst (Queues w.after.queue)
              (rw (all_posted-cong l.phases v.after.phases ops op d.0 same_phases)
                (append_assoc cs (posted (l.phases op) op) (all_posted v.after.phases ops)))
              w.queues;
        links = λ z g. w.links z g.1 ∙ same_links z (λ e. g.0 (sym e));
        phases = λ z g. w.phases z g.1 ∙ sym (same_phases z (λ e. g.0 (sym e)));
        timers = w.timers ∙ v.timers;
        canceled = w.canceled ∙ v.canceled;
        work_count = w.work_count ∙ v.work_count;
      })
