-- ===== src/AsyncLatch/Safety.antt =====
-- What the latch promises: nobody passes early, and nobody is forgotten.
use coio.Base.{ℕ, ◌<◌, ◌≡◌, subst, ◌≢◌, inl, inr, Bool, true, false, arith}
use coio.Links.{In}
use coio.AsyncLatch.{Latch, Pc, notify, walk, queued, resumed, Reach}
use coio.AsyncLatch.Invariant.{Inv, Reach-Inv}
use coio.AtomicStack.Laws.{items}

-- In every reachable state of a latch with a positive count, a waiter whose receiver was called has
-- found the counter at zero.
pub resumed_at_zero :
    {count : ℕ} {waits : ℕ → Bool} {l : Latch}
    → 0 < count
    → Reach count waits l
    → (i : ℕ) → l.waiter i ≡ resumed
    → l.counter ≡ 0
resumed_at_zero h r i e = (Reach-Inv h r).zero_waiter i e

abbrev pub notifies : Pc → Bool
notifies (notify w) = true
notifies (walk xs w) = true
notifies _ = false

-- No wakeup is lost: once the counter of a latch with a positive count is zero and no thread is in
-- `notify_waiters_`, nobody is left waiting.
pub none_left_waiting :
    {count : ℕ} {waits : ℕ → Bool} {l : Latch}
    → 0 < count
    → Reach count waits l
    → l.counter ≡ 0
    → ((j : ℕ) → notifies (l.pc j) ≡ false)
    → (i : ℕ) → l.waiter i ≢ queued
none_left_waiting {l = l} h r z quiet i e = elim (v.awake z) [
  | inl popped ↦ elim (v.located i e) [
    | inl k ↦ subst (λ s. In i (items s)) popped k
    | inr (j, xs, w, p, k) ↦ ground (arith, quiet j)
  ]
  | inr (j, w, p) ↦ ground (arith, quiet j)
]
  where
    v : Inv l
    v = Reach-Inv h r
