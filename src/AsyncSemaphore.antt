-- ===== src/AsyncSemaphore.antt =====
-- include/coio/sync_primitives.h: `async_semaphore`. Each operation holds `mtx_` from its first
-- access of the waiting list to its last, so it is one step; a wait state is a number, with its fields
-- `prev_` and `next_`.
mod Chain
mod Unlink
pub mod Waiting
pub mod Operations
pub mod Permits
mod Tests
use coio.Base.{
  ℕ, zero, suc, ◌+◌, ◌-◌, ◌*◌, ◌/◌, ◌%◌, ◌^◌, ◌≤◌, ◌<◌, min, max, ◌≡◌, refl, sym, ap, ◌∙◌, subst,
  ◌≢◌, ◌↔◌, ◌⊎◌, inl, inr, Bool, true, false, ◌&&◌, ◌||◌, not, Option, none, some, List, [], ◌∷◌,
  ◌++◌, map, reverse, arith, dec_lt, dec_le, ℕ_discrete, if◌then◌else◌, ltb, leb, ◌==◌, Bool-cases,
  Option-cases, length, get_elem?, set, take, drop, slice, overwrite, add_size, sub_size, mul_size,
  size_mod, length-append, length-take, length-drop,
}
use coio.Links.{Field, Pointer, store}

pub record Semaphore : Type 0 where
  pub counter : ℕ
  pub prev : Field
  pub next : Field
  pub head : Pointer  -- `waiting_list_head_`
  pub tail : Pointer  -- `waiting_list_tail_`

-- `async_semaphore(init)`.
abbrev pub new_semaphore : ℕ → Semaphore
new_semaphore permits = record {
  counter = permits;
  prev = λ i. none;
  next = λ i. none;
  head = none;
  tail = none;
}

-- What `start` does: the receiver is told, or the state waits.
pub data Started : Type 0 where
  stopped completed queued : Started

-- What `release` does.
pub data Released : Type 0 where
  resumed : ℕ → Released
  counted terminated : Released

unfoldable pub try_acquire : Semaphore → Bool × Semaphore
try_acquire s = if s.counter == 0 then (false, s) else (true, record s { counter = s.counter - 1 })

-- `this` goes to the end of the waiting list.
unfoldable pub append_waiter : ℕ → Semaphore → Semaphore
append_waiter this s = elim s.tail [
  | none ↦ record s {
    prev = store s.prev this none;
    next = store s.next this none;
    head = some this;
    tail = some this;
  }
  | some last ↦ record s {
    prev = store s.prev this (some last);
    next = store (store s.next this none) last (some this);
    tail = some this;
  }
]

-- `stop` is whether one of the two looks at the stop token finds a request.
unfoldable pub start : Bool → ℕ → Semaphore → Started × Semaphore
start true this s = (stopped, s)
start false this s =
    let (acquired, t) = try_acquire s in
    if acquired then (completed, t) else (queued, append_waiter this t)

-- `state->prev_ = nullptr; state->next_ = nullptr`.
unfoldable pub detach : ℕ → Semaphore → Semaphore
detach x s = record s { prev = store s.prev x none; next = store s.next x none }

unfoldable pub pop_head : ℕ → Semaphore → Semaphore
pop_head x s = elim (s.next x) [
  | none ↦ detach x (record s { head = none; tail = none })
  | some y ↦ detach x (record s { head = some y; prev = store s.prev y none })
]

-- `release`, with what `waiting_list_head_` is.
unfoldable pub release_at : Pointer → (top : ℕ) → Semaphore → Released × Semaphore
release_at (some x) top s = (resumed x, pop_head x s)
release_at none top s =
    if s.counter == top then (terminated, s) else (counted, record s { counter = s.counter + 1 })

unfoldable pub release : (top : ℕ) → Semaphore → Released × Semaphore
release top s = release_at s.head top s

-- The second half of `unregister_`.
unfoldable pub relink : ℕ → Semaphore → Semaphore
relink waiter s = elim (s.next waiter) [
  | some n ↦ detach waiter (record s { prev = store s.prev n (s.prev waiter) })
  | none ↦ detach waiter (record s { tail = s.prev waiter })
]

abbrev points_to : Pointer → ℕ → Bool
points_to p x = elim p [ none ↦ false | some y ↦ y == x ]

unfoldable pub unregister : ℕ → Semaphore → Bool × Semaphore
unregister waiter s = elim (s.prev waiter) [
  | some p ↦ (true, relink waiter (record s { next = store s.next p (s.next waiter) }))
  | none ↦
      if points_to s.head waiter
      then (true, relink waiter (record s { head = s.next waiter }))
      else (false, s)
]
