-- ===== src/TimeLoop/Passing.antt =====
-- A round of the loop: the due timers go into the operation queue, the earlier first.

use coio.Base.{
  ℕ, suc, ◌+◌, ◌≤◌, ◌<◌, ◌≡◌, refl, sym, ◌∙◌, subst, ◌≢◌, Option, none, some, List, [], ◌∷◌, ◌++◌,
  arith, length,
}
use coio.TimerQueue.Shape.{Heap, count, size}
use coio.TimerQueue.Laws.{Holds}
use mathlib.Core.List.{append-nil, append_assoc}
use coio.TimeLoop.Publishing.{
  posted, all_posted, Published, publish_pending-Published, Pending, Fresh-posted,
}
use coio.TimerQueue.Ready.{Ready, take_ready-Ready, occurrences, Ascending}
use coio.IntrusiveList.Laws.{Lists, push_back-Lists, last, last_node}
use coio.OpQueue.Fifo.{Queues, Queues-frame}
use coio.IntrusiveList.{IntrusiveList, push_back, release}
use coio.OperationPhase.{Phase, completed}
use coio.TimerQueue.{TimerQueue, take_ready}
use coio.TimeLoop.{TimeLoop, set_links, publish_pending, push_all, new_list, publish_due}
use coio.Links.{
  Fresh, Distinct, Apart, Apart-tail, Apart-append, Fresh-append, Fresh-append_left,
  Fresh-append_right,
}

last-Fresh : (z t : ℕ) (xs : List ℕ) → last xs ≡ some t → Fresh z xs → t ≢ z
last-Fresh z t [] e f = absurd (cc e)
last-Fresh z t (x ∷ []) e f = λ g. f.0 (ground (arith, e, g))
last-Fresh z t (x ∷ y ∷ xs) e f = last-Fresh z t (y ∷ xs) e f.1

push_back-links :
    (op z : ℕ) (l : IntrusiveList) (xs : List ℕ)
    → l.tail ≡ last xs
    → Fresh z xs
    → op ≢ z
    → (push_back op l).next z ≡ l.next z
unfolding push_back
push_back-links op z l [] e f n = ground (arith, e)
push_back-links op z l (x ∷ xs) e f n =
    let other : last_node x xs ≢ z = last-Fresh z (last_node x xs) (x ∷ xs) refl f in
    ground (arith, e, other)

record Pushed (l : IntrusiveList) (xs ops : List ℕ) (r : IntrusiveList) : Type 0 where
  lists : Lists r (xs ++ ops)
  links : (z : ℕ) → Fresh z (xs ++ ops) → r.next z ≡ l.next z

push_all-Pushed :
    (ops xs : List ℕ) (l : IntrusiveList)
    → Lists l xs
    → Distinct (xs ++ ops)
    → Pushed l xs ops (push_all ops l)
unfolding push_all
push_all-Pushed [] xs l h d = record {
  lists = subst (Lists l) (sym (append-nil xs)) h;
  links = λ z f. refl;
}
push_all-Pushed (op ∷ ops) xs l h d =
    let p : xs ++ op ∷ [] ++ ops ≡ xs ++ op ∷ ops = append_assoc xs (op ∷ []) ops in
    let v : Pushed (push_back op l) (xs ++ op ∷ []) ops (push_all ops (push_back op l)) =
      push_all-Pushed ops (xs ++ op ∷ []) (push_back op l)
        (push_back-Lists op xs h (Apart-tail xs ops op (Apart-append xs (op ∷ ops) d)).0)
        (subst Distinct (sym p) d) in
    record {
      lists = subst (Lists (push_all ops (push_back op l))) p v.lists;
      links = λ z f.
          v.links z (subst (Fresh z) (sym p) f)
          ∙ push_back-links op z l xs h.ends (Fresh-append_left z xs (op ∷ ops) f)
              (λ e. (Fresh-append_right z xs (op ∷ ops) f).0 (sym e));
    }

occurrences-Fresh : (z : ℕ) (xs : List ℕ) → occurrences z xs ≡ 0 → Fresh z xs
occurrences-Fresh z [] e = tt
occurrences-Fresh z (x ∷ xs) e =
    ((λ f. absurd (ground arith)), occurrences-Fresh z xs (omega arith))

occurrences-Distinct : (xs : List ℕ) → ((z : ℕ) → occurrences z xs ≤ 1) → Distinct xs
occurrences-Distinct [] u = tt
occurrences-Distinct (x ∷ xs) u = (
  occurrences-Fresh x xs (ground (arith, u x)),
  occurrences-Distinct xs (λ z. omega (arith, u z)),
)

occurrences-Apart : (xs ys : List ℕ) → ((z : ℕ) → 0 < occurrences z xs → Fresh z ys) → Apart xs ys
occurrences-Apart [] ys h = tt
occurrences-Apart (x ∷ xs) ys h =
    (h x (ground arith), occurrences-Apart xs ys (λ z g. h z (omega arith)))

occurrences-Pending :
    (phases : ℕ → Phase) (xs : List ℕ)
    → ((z : ℕ) → 0 < occurrences z xs → phases z ≢ completed)
    → Pending phases xs
occurrences-Pending phases [] h = tt
occurrences-Pending phases (x ∷ xs) h =
    (h x (ground arith), occurrences-Pending phases xs (λ z g. h z (omega arith)))

-- The queue holds the operations `cs`, the timers are those of the heap, linked to nothing and not
-- published.
pub record Settled (deadline : ℕ → ℕ) (l : TimeLoop) (cs : List ℕ) (t : Heap) : Type 0 where
  pub queues : Queues l.queue cs
  pub holds : Holds deadline l.timers t
  pub unlinked : (z : ℕ) → 0 < count z t → l.queue.next z ≡ none
  pub apart : (z : ℕ) → 0 < count z t → Fresh z cs
  pub pending : (z : ℕ) → 0 < count z t → l.phases z ≢ completed

-- A round at the time `now`: the operations of `taken` were due and were taken, in the order of their
-- deadlines, and the armed ones of them are queued; later ones are left.
pub record Passes (deadline : ℕ → ℕ) (now : ℕ) (l : TimeLoop) (cs : List ℕ) (t : Heap)
    (o : Option TimeLoop) : Type 0 where
  pub after : TimeLoop
  pub taken : List ℕ
  pub left : Heap
  pub returns : o ≡ some after
  pub settled : Settled deadline after (cs ++ all_posted l.phases taken) left
  pub members : (z : ℕ) → occurrences z taken + count z left ≡ count z t
  pub sized : length taken + size left ≡ size t
  pub due : (z : ℕ) → 0 < occurrences z taken → deadline z ≤ now
  pub late : (z : ℕ) → 0 < count z left → now < deadline z
  pub ascending : Ascending deadline 0 taken
  pub work_count : after.work_count ≡ l.work_count

Fresh-all_posted :
    (z : ℕ) (phases : ℕ → Phase) (xs : List ℕ) → Fresh z xs → Fresh z (all_posted phases xs)
Fresh-all_posted z phases [] f = tt
Fresh-all_posted z phases (x ∷ xs) f =
    Fresh-append z (posted (phases x) x) (all_posted phases xs) (Fresh-posted z x (phases x) f.0)
      (Fresh-all_posted z phases xs f.1)

module _ (deadline : ℕ → ℕ) (finish : ℕ → TimeLoop → TimeLoop) (fuel : ℕ) where
  publish_due-returns :
      (now : ℕ) (l after : TimeLoop) (left : TimerQueue) (taken : List ℕ)
      → take_ready deadline (suc fuel) fuel now l.timers ≡ some (left, taken)
      → publish_pending
          (suc fuel)
          (push_all taken (new_list l.queue.next)).head
          (set_links (push_all taken (new_list l.queue.next)).next (record l { timers = left }))
        ≡ some after
      → publish_due deadline finish fuel now l ≡ some after
  unfolding publish_due release
  publish_due-returns now l after left taken e g = rw (e, publish_due) g

  pub publish_due-Passes :
      (now : ℕ) (l : TimeLoop) (cs : List ℕ) (t : Heap)
      → Settled deadline l cs t
      → size t ≤ fuel
      → Passes deadline now l cs t (publish_due deadline finish fuel now l)
  publish_due-Passes now l cs t h f =
      let r : Ready deadline now 0 t (take_ready deadline (suc fuel) fuel now l.timers) =
        take_ready-Ready deadline (suc fuel) fuel now 0 l.timers t h.holds (λ z g. omega arith)
          (omega arith) f in
      let taken : List ℕ = r.taken in
      let once : (z : ℕ) → occurrences z taken ≤ 1 =
        λ z. omega (arith, r.members z, h.holds.distinct z) in
      let distinct : Distinct taken = occurrences-Distinct taken once in
      let in_heap : (z : ℕ) → 0 < occurrences z taken → 0 < count z t =
        λ z g. omega (arith, r.members z) in
      let not_taken : (z : ℕ) → 0 < count z r.heap → Fresh z taken =
        λ z g. occurrences-Fresh z taken (omega (arith, r.members z, h.holds.distinct z)) in
      let start : Lists (new_list l.queue.next) [] = record {
        chain = refl;
        ends = refl;
        distinct = tt;
      } in
      let list : IntrusiveList = push_all taken (new_list l.queue.next) in
      let v : Pushed (new_list l.queue.next) [] taken list =
        push_all-Pushed taken [] (new_list l.queue.next) start distinct in
      let apart : Apart taken cs = occurrences-Apart taken cs (λ z g. h.apart z (in_heap z g)) in
      let m : TimeLoop = set_links list.next (record l { timers = r.left }) in
      let w : Published m cs taken (publish_pending (suc fuel) list.head m) =
        publish_pending-Published (suc fuel) taken list.head m cs
          (Queues-frame list.next taken h.queues apart v.links) v.lists.chain distinct apart
          (occurrences-Pending l.phases taken (λ z g. h.pending z (in_heap z g)))
          (omega (arith, r.sized)) in
      record {
        after = w.after;
        taken = taken;
        left = r.heap;
        returns = publish_due-returns now l w.after r.left taken r.returns w.returns;
        settled = record {
          queues = w.queues;
          holds = subst (λ q. Holds deadline q r.heap) (sym w.timers) r.holds;
          unlinked = λ z g.
              w.links z (not_taken z g)
              ∙ v.links z (not_taken z g)
              ∙ h.unlinked z (omega (arith, r.members z));
          apart = λ z g.
              Fresh-append z cs (all_posted l.phases taken) (h.apart z (omega (arith, r.members z)))
                (Fresh-all_posted z l.phases taken (not_taken z g));
          pending = λ z g e.
              h.pending z (omega (arith, r.members z)) (sym (w.phases z (not_taken z g)) ∙ e);
        };
        members = r.members;
        sized = r.sized;
        due = r.due;
        late = r.late;
        ascending = r.ascending;
        work_count = w.work_count;
      }
