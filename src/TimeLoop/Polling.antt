-- ===== src/TimeLoop/Polling.antt =====
-- One call of `poll_one`, and when `run_one` gives up.

use coio.Base.{
  ℕ, ◌+◌, ◌≤◌, ◌<◌, ◌≡◌, refl, sym, ap, ◌∙◌, inl, inr, Bool, true, false, Option, none, some, List,
  [], ◌∷◌, arith, ◌==◌, Bool-cases, length,
}
use coio.TimeLoop.Passing.{Settled, Passes, publish_due-Passes}
use coio.TimerQueue.Shape.{Heap, count, size}
use coio.TimeLoop.Publishing.{all_posted, length-all_posted}
use coio.TimerQueue.Ready.{occurrences, Ascending}
use coio.OpQueue.Fifo.{Queues, Dequeues, dequeue-Dequeues, nothing, oldest, dequeue-links}
use coio.OpQueue.{OpQueue, dequeue}
use coio.TimeLoop.{TimeLoop, Wakeup, publish_due, consume, do_one}
use coio.Links.{Pointer, Fresh}

module _ (deadline : ℕ → ℕ) (finish : ℕ → TimeLoop → TimeLoop) (fuel : ℕ) where
  -- `consume` finishes the oldest operation of `cs`, or finds that there is none; the timers stay.
  pub data Consumes (l : TimeLoop) (t : Heap) (o : Option (Bool × TimeLoop)) : List ℕ → Type 0 where
    finds_none :
        (m : TimeLoop)
        → o ≡ some (false, m)
        → Settled deadline m [] t
        → m.phases ≡ l.phases
        → m.work_count ≡ l.work_count
        → Consumes l t o []
    finishes :
        (op : ℕ) (cs : List ℕ) (m : TimeLoop)
        → o ≡ some (true, finish op m)
        → Settled deadline m cs t
        → m.queue.next op ≡ none
        → m.work_count ≡ l.work_count
        → Consumes l t o (op ∷ cs)

  consumed-Settled :
      (l : TimeLoop) (cs ds : List ℕ) (t : Heap) (q : OpQueue) (o : Pointer)
      → Settled deadline l cs t
      → length cs ≤ fuel
      → dequeue fuel l.queue ≡ some (o, q)
      → Queues q ds
      → ((z : ℕ) → Fresh z cs → Fresh z ds)
      → Settled deadline (record l { queue = q }) ds t
  consumed-Settled l cs ds t q o h f e k fewer = record {
    queues = k;
    holds = h.holds;
    unlinked = λ z g. dequeue-links fuel o h.queues f e z (h.apart z g) ∙ h.unlinked z g;
    apart = λ z g. fewer z (h.apart z g);
    pending = h.pending;
  }

  dequeued-Consumes :
      (l : TimeLoop) (cs : List ℕ) (t : Heap)
      → Settled deadline l cs t
      → length cs ≤ fuel
      → Dequeues fuel l.queue cs
      → Consumes l t (consume deadline finish fuel l) cs
  unfolding consume
  dequeued-Consumes l _ t h f (nothing r e d) =
      finds_none (record l { queue = r }) (rw (e, consume) refl)
        (consumed-Settled l [] [] t r none h f e d (λ z i. i)) refl refl
  dequeued-Consumes l _ t h f (oldest r op {cs = cs} e i d) =
      finishes op cs (record l { queue = r }) (rw (e, consume) refl)
        (consumed-Settled l (op ∷ cs) cs t r (some op) h f e d (λ z j. j.1)) i refl

  pub consume-Consumes :
      (l : TimeLoop) (cs : List ℕ) (t : Heap)
      → Settled deadline l cs t
      → length cs ≤ fuel
      → Consumes l t (consume deadline finish fuel l) cs
  consume-Consumes l cs t h f = dequeued-Consumes l cs t h f (dequeue-Dequeues fuel h.queues f)

  -- The timers of `t` at the time `now`: those taken are due, in the order of their deadlines, and those
  -- left are later.
  pub record Due (now : ℕ) (t : Heap) (taken : List ℕ) (left : Heap) : Type 0 where
    pub members : (z : ℕ) → occurrences z taken + count z left ≡ count z t
    pub due : (z : ℕ) → 0 < occurrences z taken → deadline z ≤ now
    pub late : (z : ℕ) → 0 < count z left → now < deadline z
    pub ascending : Ascending deadline 0 taken

  -- What one call of `poll_one` does.
  pub data Polled (now : ℕ) (l : TimeLoop) (t : Heap) (o : Option (Bool × TimeLoop))
      : List ℕ → Type 0 where
    no_work : (cs : List ℕ) → l.work_count ≡ 0 → o ≡ some (false, l) → Polled now l t o cs
    ran_queued :
        (op : ℕ) (cs : List ℕ) (m : TimeLoop)
        → o ≡ some (true, finish op m)
        → Settled deadline m cs t
        → m.work_count ≡ l.work_count
        → Polled now l t o (op ∷ cs)
    ran_due :
        (op : ℕ) (ops taken : List ℕ) (left : Heap) (m : TimeLoop)
        → Due now t taken left
        → all_posted l.phases taken ≡ op ∷ ops
        → o ≡ some (true, finish op m)
        → Settled deadline m ops left
        → m.work_count ≡ l.work_count
        → Polled now l t o []
    nothing_ready :
        (taken : List ℕ) (left : Heap) (m : TimeLoop)
        → Due now t taken left
        → all_posted l.phases taken ≡ []
        → o ≡ some (false, m)
        → Settled deadline m [] left
        → m.work_count ≡ l.work_count
        → Polled now l t o []

  -- The second `consume`, behind the timers.
  second_consume :
      (now : ℕ) (l n : TimeLoop) (t left : Heap) (taken cs : List ℕ) (o : Option (Bool × TimeLoop))
      → Due now t taken left
      → all_posted l.phases taken ≡ cs
      → n.work_count ≡ l.work_count
      → Consumes n left o cs
      → Polled now l t o []
  second_consume now l n t left taken _ o d e w (finds_none m r h p k) =
      nothing_ready taken left m d e r h (k ∙ w)
  second_consume now l n t left taken _ o d e w (finishes op cs m r h i k) =
      ran_due op cs taken left m d e r h (k ∙ w)

  by_consume :
      (w : Wakeup) (ws : List Wakeup) (l : TimeLoop) (cs : List ℕ) (t : Heap)
      → length cs + size t ≤ fuel
      → (l.work_count == 0) ≡ false
      → ((m : TimeLoop) → w.meanwhile m ≡ m)
      → ((m : TimeLoop) → w.afterwards m ≡ m)
      → Consumes l t (consume deadline finish fuel l) cs
      → Polled w.now l t (do_one deadline finish fuel false (w ∷ ws) l) cs
  unfolding do_one
  by_consume w ws l _ t f b q a (finishes op cs m r h i k) =
      ran_queued op cs m (rw (b, do_one, r) refl) h k
  by_consume w ws l _ t f b q a (finds_none m r h p k) =
      let v : Passes deadline w.now m [] t (publish_due deadline finish fuel w.now m) =
        publish_due-Passes deadline finish fuel w.now m [] t h (omega arith) in
      let posted : List ℕ = all_posted m.phases v.taken in
      let d : Due w.now t v.taken v.left = record {
        members = v.members;
        due = v.due;
        late = v.late;
        ascending = v.ascending;
      } in
      let second : Consumes v.after v.left (consume deadline finish fuel v.after) posted =
        consume-Consumes v.after posted v.left v.settled
          (omega (arith, length-all_posted m.phases v.taken, v.sized)) in
      rw (b, do_one, r, q m, v.returns, a v.after)
        (second_consume w.now l v.after t v.left v.taken posted
          (consume deadline finish fuel v.after) d (ap (λ f. all_posted f v.taken) (sym p))
          (v.work_count ∙ k) second)

  -- `poll_one`, while no other thread acts during the call, with fuel for every operation of the queue and of the
  -- timers: without work it returns false. With
  -- an operation in the queue it finishes the oldest, and leaves the timers alone. Otherwise it takes
  -- the timers that are due, posts the armed ones of them in the order of their deadlines, and finishes the first
  -- of these; it returns false if there is none.
  pub do_one-Polled :
      (w : Wakeup) (ws : List Wakeup) (l : TimeLoop) (cs : List ℕ) (t : Heap)
      → Settled deadline l cs t
      → length cs + size t ≤ fuel
      → ((m : TimeLoop) → w.meanwhile m ≡ m)
      → ((m : TimeLoop) → w.afterwards m ≡ m)
      → Polled w.now l t (do_one deadline finish fuel false (w ∷ ws) l) cs
  unfolding do_one
  do_one-Polled w ws l cs t h f q a = elim (Bool-cases (l.work_count == 0)) [
    | inl b ↦ no_work cs (ground arith) (rw (b, do_one) refl)
    | inr b ↦ by_consume w ws l cs t f b q a (consume-Consumes l cs t h (omega arith))
  ]
