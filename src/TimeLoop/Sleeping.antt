-- ===== src/TimeLoop/Sleeping.antt =====
-- A timer is started and cancelled while the loop runs.

use coio.Base.{
  ℕ, ◌+◌, ◌≤◌, ◌<◌, ◌≡◌, sym, ap, ◌∙◌, subst, ◌≢◌, inl, inr, true, false, Option, none, some, List,
  [], ◌∷◌, ◌++◌, arith, dec_lt, ℕ_discrete, if◌then◌else◌, ◌==◌, Bool-cases, ◌↔◌,
}
use coio.TimeLoop.Passing.{Settled}
use coio.TimerQueue.Shape.{Heap, count, size}
use coio.TimerQueue.Remove.{Removed, remove-Removed}
use coio.TimerQueue.Laws.{Holds, Added, add-Added}
use coio.TimeLoop.Publishing.{posted, Published, publish-Published}
use coio.OpQueue.Fifo.{Queues}
use coio.OperationPhase.{armed, completed}
use coio.TimerQueue.{add, remove}
use coio.TimeLoop.{TimeLoop, publish, start_sleep, cancel_sleep}
use coio.Links.{Fresh, Fresh-append}

-- What holds of the new operation and of the old ones holds of all.
for_all :
    (op : ℕ) (t u : Heap) (P : ℕ → Type 0)
    → ((z : ℕ) → count z u ≡ (if op == z then 1 else 0) + count z t)
    → P op
    → ((z : ℕ) → 0 < count z t → P z)
    → (z : ℕ) → 0 < count z u
    → P z
for_all op t u P m p h z g = elim (ℕ_discrete op z) [
  | yes i ↦ subst P i p
  | no i ↦ h z (ground (arith, m z))
]

module _ (deadline : ℕ → ℕ) (finish : ℕ → TimeLoop → TimeLoop) (fuel : ℕ) where
  -- `do_start` of a sleep that is in no queue: the timers gain it, and the consumer is woken up if its deadline
  -- is before all others.
  pub start_sleep-Settled :
      (op : ℕ) (l : TimeLoop) (cs : List ℕ) (t : Heap)
      → Settled deadline l cs t
      → count op t ≡ 0
      → l.queue.next op ≡ none
      → Fresh op cs
      → l.phases op ≢ completed
      → (u : Heap) × Settled deadline (start_sleep deadline finish fuel op l).0 cs u
        × ((z : ℕ) → count z u ≡ (if op == z then 1 else 0) + count z t)
        × (((start_sleep deadline finish fuel op l).1 ≡ true)
            ↔ ((z : ℕ) → 0 < count z t → deadline op < deadline z))
  unfolding start_sleep
  start_sleep-Settled op l cs t h e n a p =
      let v : Added deadline op t (add deadline op l.timers) =
        add-Added deadline op l.timers t h.holds e in
      (
        v.heap,
        record {
          queues = h.queues;
          holds = v.holds;
          unlinked = for_all op t v.heap (λ z. l.queue.next z ≡ none) v.members n h.unlinked;
          apart = for_all op t v.heap (λ z. Fresh z cs) v.members a h.apart;
          pending = for_all op t v.heap (λ z. l.phases z ≢ completed) v.members p h.pending;
        },
        v.members,
        v.is_earliest,
      )

  -- What `do_cancel` does: it posts a sleep that is in the timer queue, and otherwise nothing.
  pub data Cancels (op : ℕ) (l : TimeLoop) (cs : List ℕ) (t : Heap) (o : Option TimeLoop)
      : Type 0 where
    withdrawn :
        (m : TimeLoop) (u : Heap)
        → 0 < count op t
        → o ≡ some m
        → Settled deadline m (cs ++ op ∷ []) u
        → count op u ≡ 0
        → ((z : ℕ) → op ≢ z → count z u ≡ count z t)
        → m.canceled op ≡ true
        → Cancels op l cs t o
    too_late : count op t ≡ 0 → o ≡ some l → Cancels op l cs t o

  -- `do_cancel` of a sleep that is armed if it is in the timer queue: it is withdrawn, marked as cancelled and
  -- posted behind the others, and all other timers stay; a sleep that is no longer there is left as it is.
  pub cancel_sleep-Cancels :
      (op : ℕ) (l : TimeLoop) (cs : List ℕ) (t : Heap)
      → Settled deadline l cs t
      → (0 < count op t → l.phases op ≡ armed)
      → size t ≤ fuel
      → Cancels op l cs t (cancel_sleep deadline finish fuel op l)
  unfolding cancel_sleep
  cancel_sleep-Cancels op l cs t h p f =
      let v : Removed deadline op l.timers t (remove deadline fuel op l.timers) =
        remove-Removed deadline fuel op l.timers t h.holds f in
      elim (dec_lt 0 (count op t)) [
        | yes g ↦
            let found : v.found ≡ true = v.was_there.1 g in
            let m : TimeLoop = record l {
              timers = v.left;
              canceled = λ z. if op == z then true else l.canceled z;
            } in
            let returns : remove deadline fuel op l.timers ≡ some (v.left, true) =
              subst (λ b. remove deadline fuel op l.timers ≡ some (v.left, b)) found v.returns in
            let w : Published m cs (op ∷ []) (publish op m) =
              publish-Published op m cs armed (p g) (λ e. absurd (cc e)) h.queues (h.apart op g)
                (h.unlinked op g) in
            let other : (z : ℕ) → 0 < count z v.heap → op ≢ z =
              λ z i e. absurd (ground (arith, v.gone)) in
            let before : (z : ℕ) → 0 < count z v.heap → 0 < count z t =
              λ z i. omega (arith, v.members z (other z i)) in
            let only : (z : ℕ) → 0 < count z v.heap → Fresh z (op ∷ []) =
              λ z i. ((λ e. other z i (sym e)), tt) in
            withdrawn w.after v.heap g (rw (returns, cancel_sleep) w.returns)
              (record {
                queues =
                    subst (λ x. Queues w.after.queue (cs ++ (posted x op ++ []))) (p g) w.queues;
                holds = subst (λ q. Holds deadline q v.heap) (sym w.timers) v.holds;
                unlinked = λ z i. w.links z (only z i) ∙ h.unlinked z (before z i);
                apart = λ z i. Fresh-append z cs (op ∷ []) (h.apart z (before z i)) (only z i);
                pending = λ z i e. h.pending z (before z i) (sym (w.phases z (only z i)) ∙ e);
              })
              v.gone v.members (ap (λ c. c op) w.canceled ∙ ground arith)
        | no g ↦
            let absent : count op t ≡ 0 = ground arith in
            elim (Bool-cases v.found) [
              | inl b ↦ absurd (g (v.was_there.0 b))
              | inr b ↦
                  let returns : remove deadline fuel op l.timers ≡ some (v.left, false) =
                    subst (λ b. remove deadline fuel op l.timers ≡ some (v.left, b)) b v.returns in
                  too_late absent (
                    rw (returns, cancel_sleep)
                      (ap (λ q. some (record l { timers = q })) (v.absent absent)))
            ]
      ]
