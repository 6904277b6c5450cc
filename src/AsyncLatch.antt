-- ===== src/AsyncLatch.antt =====
-- include/coio/sync_primitives.h: `async_latch`. Each thread runs one operation, `count_down(n)` or
-- the `start` of a wait state; wait state `i` belongs to thread `i`. A step is one access of the
-- counter or of the waiting stack, or the completion of one waiter; the stack is seen through
-- `AtomicStack.Laws`.
pub mod Invariant
pub mod Safety
mod Tests
use coio.Base.{
  ℕ, zero, suc, ◌+◌, ◌-◌, ◌*◌, ◌/◌, ◌%◌, ◌^◌, ◌≤◌, ◌<◌, min, max, ◌≡◌, refl, sym, ap, ◌∙◌, subst,
  ◌≢◌, ◌↔◌, ◌⊎◌, inl, inr, Bool, true, false, ◌&&◌, ◌||◌, not, Option, none, some, List, [], ◌∷◌,
  ◌++◌, map, reverse, arith, dec_lt, dec_le, ℕ_discrete, if◌then◌else◌, ltb, leb, ◌==◌, Bool-cases,
  Option-cases, length, get_elem?, set, take, drop, slice, overwrite, add_size, sub_size, mul_size,
  size_mod, length-append, length-take, length-drop,
}
use coio.AtomicStack.{empty_but_pushed}
use coio.AtomicStack.Laws.{Stack, untouched, nodes, items, seen}

-- `waits` says whether the operation is the `start` of a wait state.
pub data Pc : Type 0 where
  ready : (waits : Bool) → Pc  -- at `count_down`
  notify : (waits : Bool) → Pc  -- at `pop_all` of `notify_waiters_`
  walk : (rest : List ℕ) (waits : Bool) → Pc  -- its loop
  returned : (left : ℕ) → Pc  -- `count_down` has returned to `start`
  stopped : Pc

-- Whether the receiver of a wait state was called.
pub data Waiter : Type 0 where
  outside queued resumed : Waiter

pub record Latch : Type 0 where
  pub counter : ℕ
  pub waiting : Stack
  pub pc : ℕ → Pc
  pub waiter : ℕ → Waiter

abbrev pub update {ℓ} : {A : Type ℓ} → (ℕ → A) → ℕ → A → ℕ → A
update f i a j = if i == j then a else f j

-- Behind `count_down` that was not the last one.
abbrev pub behind : Bool → ℕ → Pc
behind true left = returned left
behind false left = stopped

-- Behind `push`: an empty stack that was pushed to is notified once more.
abbrev pub pushed : Stack → Pc
pushed s = elim (seen s) [ empty_but_pushed ↦ notify false | _ ↦ stopped ]

-- The steps of thread `i`. The assertion `old >= n` of `count_down` is a premise.
pub data Move (l : Latch) (i : ℕ) : Pc → Latch → Type 0 where
  last :
      {w : Bool} (n : ℕ)
      → l.counter ≡ n
      → Move l i (ready w) (record l { counter = 0; pc = update l.pc i (notify w) })
  arrive :
      {w : Bool} (n : ℕ)
      → n < l.counter
      → Move l i
          (ready w)
          (record l { counter = l.counter - n; pc = update l.pc i (behind w (l.counter - n)) })
  pop :
      {w : Bool}
      → Move l i
          (notify w)
          (record l { waiting = nodes []; pc = update l.pc i (walk (items l.waiting) w) })
  resume :
      {w : Bool} (x : ℕ) {xs : List ℕ}
      → Move l i
          (walk (x ∷ xs) w)
          (record l { waiter = update l.waiter x resumed; pc = update l.pc i (walk xs w) })
  leave : {w : Bool} → Move l i (walk [] w) (record l { pc = update l.pc i (behind w 0) })
  pass :
      Move l i
        (returned 0)
        (record l { waiter = update l.waiter i resumed; pc = update l.pc i stopped })
  push :
      {left : ℕ}
      → 0 < left
      → Move l i (returned left) (record l {
        waiting = nodes (i ∷ items l.waiting);
        waiter = update l.waiter i queued;
        pc = update l.pc i (pushed l.waiting);
      })

pub data Step (l m : Latch) : Type 0 where
  pick : (i : ℕ) → Move l i (l.pc i) m → Step l m

-- `async_latch(count)`, with every operation about to begin.
abbrev pub init : ℕ → (ℕ → Bool) → Latch
init count waits = record {
  counter = count;
  waiting = untouched;
  pc = λ i. ready (waits i);
  waiter = λ i. outside;
}

pub data Reach (count : ℕ) (waits : ℕ → Bool) : Latch → Type 0 where
  start : Reach count waits (init count waits)
  later : {l m : Latch} → Reach count waits l → Step l m → Reach count waits m
