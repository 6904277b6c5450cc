-- ===== src/TimerQueue/Ready.antt =====
-- `take_ready_timers` takes the operations whose time has come, the earlier first.

use coio.Base.{
  ℕ, zero, suc, ◌+◌, ◌≤◌, ◌<◌, ◌≡◌, refl, ap, inl, inr, true, false, Option, none, some, List, [],
  ◌∷◌, arith, if◌then◌else◌, leb, ◌==◌, Bool-cases, length,
}
use coio.TimerQueue.Laws.{Holds, Popped, pop_root-Popped}
use coio.TimerQueue.Shape.{Heap, nil, node, count, Ordered-le, size}
use coio.TimerQueue.{TimerQueue, pop_root, take_ready, earliest}

-- How often an operation is in the list.
abbrev pub occurrences : ℕ → List ℕ → ℕ
occurrences z [] = 0
occurrences z (x ∷ xs) = (if x == z then 1 else 0) + occurrences z xs

-- The deadlines are not before `k`, nor one before another in front of it.
abbrev pub Ascending : (ℕ → ℕ) → ℕ → List ℕ → Type 0
Ascending deadline k [] = Unit {0}
Ascending deadline k (x ∷ xs) = (k ≤ deadline x) × Ascending deadline (deadline x) xs

module _ (deadline : ℕ → ℕ) where
  -- What `take_ready` leaves, and what it takes.
  pub record Ready (now k : ℕ) (t : Heap) (o : Option (TimerQueue × List ℕ)) : Type 0 where
    pub left : TimerQueue
    pub taken : List ℕ
    pub heap : Heap
    pub returns : o ≡ some (left, taken)
    pub holds : Holds deadline left heap
    pub members : (z : ℕ) → occurrences z taken + count z heap ≡ count z t
    pub sized : length taken + size heap ≡ size t
    pub due : (z : ℕ) → 0 < occurrences z taken → deadline z ≤ now
    pub late : (z : ℕ) → 0 < count z heap → now < deadline z
    pub ascending : Ascending deadline k taken

  stop :
      (rounds fuel now k : ℕ) (q : TimerQueue) (t : Heap)
      → Holds deadline q t
      → ((z : ℕ) → 0 < count z t → now < deadline z)
      → take_ready deadline (suc rounds) fuel now q ≡ some (q, [])
      → Ready now k t (take_ready deadline (suc rounds) fuel now q)
  stop rounds fuel now k q t h late e = record {
    left = q;
    taken = [];
    heap = t;
    returns = e;
    holds = h;
    members = λ z. omega arith;
    sized = omega arith;
    due = λ z g. absurd (omega arith);
    late = late;
    ascending = tt;
  }

  empty_step :
      (rounds fuel now : ℕ) (q : TimerQueue)
      → q.root ≡ none
      → take_ready deadline (suc rounds) fuel now q ≡ some (q, [])
  unfolding take_ready
  empty_step rounds fuel now q e =
      rw (e, take_ready) (ap (λ r. some (record { links = q.links; root = r }, [])) e)

  late_step :
      (rounds fuel now top : ℕ) (q : TimerQueue)
      → q.root ≡ some top
      → leb (deadline top) now ≡ false
      → take_ready deadline (suc rounds) fuel now q ≡ some (q, [])
  unfolding take_ready
  late_step rounds fuel now top q e g =
      rw (e, take_ready, g) (ap (λ r. some (record { links = q.links; root = r }, [])) e)

  due_step :
      (rounds fuel now top : ℕ) (q popped left : TimerQueue) (taken : List ℕ)
      → q.root ≡ some top
      → leb (deadline top) now ≡ true
      → pop_root deadline fuel top q.links ≡ some popped
      → take_ready deadline rounds fuel now popped ≡ some (left, taken)
      → take_ready deadline (suc rounds) fuel now q ≡ some (left, top ∷ taken)
  unfolding take_ready
  due_step rounds fuel now top q popped left taken e g p r = rw (e, take_ready, g, p, r) refl

  -- `take_ready_timers`, with fuel and rounds for every operation in the queue, whose deadlines are `k` or later:
  -- it returns, takes only operations whose deadline is now or before, in the order of their deadlines, leaves
  -- only later ones, and loses and repeats none; the queue stays an ordered heap.
  pub take_ready-Ready :
      (rounds fuel now k : ℕ) (q : TimerQueue) (t : Heap)
      → Holds deadline q t
      → ((z : ℕ) → 0 < count z t → k ≤ deadline z)
      → size t < rounds
      → size t ≤ fuel
      → Ready now k t (take_ready deadline rounds fuel now q)
  take_ready-Ready zero fuel now k q t h b r f = absurd (omega arith)
  take_ready-Ready (suc rounds) fuel now k q nil h b r f =
      stop rounds fuel now k q nil h (λ z g. absurd (omega arith))
        (empty_step rounds fuel now q h.linked)
  take_ready-Ready (suc rounds) fuel now k q (node top c nil) h b r f =
      let first : (z : ℕ) → 0 < count z (node top c nil) → deadline top ≤ deadline z = λ z g.
        Ordered-le deadline {k = deadline top} (node top c nil) z (omega arith, h.ordered.1, tt)
          g in
      elim (Bool-cases (leb (deadline top) now)) [
        | inl g ↦
            let v : Popped deadline top (node top c nil) (pop_root deadline fuel top q.links) =
              pop_root-Popped deadline fuel q top c h (omega arith) in
            let w : Ready now (deadline top) v.heap (take_ready deadline rounds fuel now v.left) =
              take_ready-Ready rounds fuel now (deadline top) v.left v.heap v.holds
                (λ z i. first z (omega (arith, v.members z))) (omega (arith, v.sized))
                (omega (arith, v.sized)) in
            record {
              left = w.left;
              taken = top ∷ w.taken;
              heap = w.heap;
              returns =
                  due_step rounds fuel now top q v.left w.left w.taken h.linked.0 g v.returns
                    w.returns;
              holds = w.holds;
              members = λ z. omega (arith, w.members z, v.members z);
              sized = omega (arith, w.sized, v.sized);
              due = λ z i. ground (arith, w.due z);
              late = w.late;
              ascending = (b top (ground arith), w.ascending);
            }
        | inr g ↦
            stop rounds fuel now k q (node top c nil) h (λ z i. ground (arith, first z))
              (late_step rounds fuel now top q h.linked.0 g)
      ]
  take_ready-Ready (suc rounds) fuel now k q (node x c (node y d s)) h b r f = absurd h.alone

  -- `earliest` is the least deadline in the queue, and none of an empty one.
  pub data Earliest (t : Heap) : Option ℕ → Type 0 where
    none_there : ((z : ℕ) → count z t ≡ 0) → Earliest t none
    least :
        (top : ℕ)
        → 0 < count top t
        → ((z : ℕ) → 0 < count z t → deadline top ≤ deadline z)
        → Earliest t (some (deadline top))

  pub earliest-Earliest :
      (q : TimerQueue) (t : Heap) → Holds deadline q t → Earliest t (earliest deadline q)
  unfolding earliest
  earliest-Earliest q nil h = rw (h.linked, earliest) (none_there (λ z. refl))
  earliest-Earliest q (node top c nil) h =
      rw (h.linked.0, earliest)
        (least top (ground arith) (λ z g.
          Ordered-le deadline {k = deadline top} (node top c nil) z (omega arith, h.ordered.1, tt)
            g))
  earliest-Earliest q (node x c (node y d s)) h = absurd h.alone
