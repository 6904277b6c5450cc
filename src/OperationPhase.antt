-- ===== src/OperationPhase.antt =====
-- include/coio/execution_context.h: the `operation_phase` of an operation, in `node::publish` and
-- `operation_state`, as the timers use it: the thread that starts the operation, the stop callback
-- that cancels it, and the thread that takes it from the backend when it is ready, one access of
-- shared state a step.
pub mod Invariant
pub mod Safety
mod Tests
use coio.Base.{
  ℕ, zero, suc, ◌+◌, ◌-◌, ◌*◌, ◌/◌, ◌%◌, ◌^◌, ◌≤◌, ◌<◌, min, max, ◌≡◌, refl, sym, ap, ◌∙◌, subst,
  ◌≢◌, ◌↔◌, ◌⊎◌, inl, inr, Bool, true, false, ◌&&◌, ◌||◌, not, Option, none, some, List, [], ◌∷◌,
  ◌++◌, map, reverse, arith, dec_lt, dec_le, ℕ_discrete, if◌then◌else◌, ltb, leb, ◌==◌, Bool-cases,
  Option-cases, length, get_elem?, set, take, drop, slice, overwrite, add_size, sub_size, mul_size,
  size_mod, length-append, length-take, length-drop,
}

pub data Phase : Type 0 where
  starting : Phase
  armed : Phase
  cancel_deferred : Phase
  completed : Phase

-- The thread in `start`.
pub data Starter : Type 0 where
  entered : Starter  -- before `do_start`
  pending : Starter  -- before the exchange of `starting` for `armed`
  done_at_once : Starter  -- before `publish`, since `do_start` completed
  deferred : Starter  -- before `do_cancel`
  withdrawn : Starter  -- in `do_cancel`, before `publish`
  rearming : Starter  -- before the exchange of `cancel_deferred` for `armed`
  posting : Starter  -- before `immediately_post`
  returned : Starter

-- The thread in the stop callback, `request_cancel`.
pub data Canceller : Type 0 where
  unasked : Canceller
  looking : Canceller  -- before the load of `phase_`
  deferring : Canceller  -- before the exchange of `starting` for `cancel_deferred`
  cancelling : Canceller  -- before `do_cancel`
  took_back : Canceller  -- in `do_cancel`, before `publish`
  posts : Canceller  -- in `publish`, before `immediately_post`
  over : Canceller

-- The thread that takes the operation from the backend.
pub data Publisher : Type 0 where
  waits : Publisher
  took : Publisher  -- before `publish`
  posts_it : Publisher  -- in `publish`, before `immediately_post`
  published : Publisher

-- `held`: the backend has the operation; `posted`: how often it was enqueued; `finished`: `finish` has
-- reset the stop callback, and the receiver may destroy the operation.
pub record Operation : Type 0 where
  pub phase : Phase
  pub held : Bool
  pub starter : Starter
  pub canceller : Canceller
  pub publisher : Publisher
  pub posted : ℕ
  pub finished : Bool

abbrev pub running : Canceller → Bool
running unasked = false
running over = false
running _ = true

pub data Move (s : Operation) : Operation → Type 0 where
  -- `do_start`: the backend has the operation from now on, or it is done.
  stays_pending : s.starter ≡ entered → Move s (record s { starter = pending; held = true })
  completes : s.starter ≡ entered → Move s (record s { starter = done_at_once })
  -- `publish` posts too if the phase was `armed`.
  start_publishes :
      s.starter ≡ done_at_once
      → s.phase ≢ armed
      → Move s (record s { starter = posting; phase = completed })
  start_publishes_armed :
      s.starter ≡ done_at_once
      → s.phase ≡ armed
      → Move s (record s { starter = posting; phase = completed; posted = s.posted + 1 })
  arm :
      s.starter ≡ pending
      → s.phase ≡ starting
      → Move s (record s { starter = returned; phase = armed })
  finds_deferred :
      s.starter ≡ pending → s.phase ≡ cancel_deferred → Move s (record s { starter = deferred })
  finds_completed :
      s.starter ≡ pending
      → s.phase ≢ starting
      → s.phase ≢ cancel_deferred
      → Move s (record s { starter = posting })
  start_withdraws :
      s.starter ≡ deferred → s.held ≡ true → Move s (record s { starter = withdrawn; held = false })
  start_too_late : s.starter ≡ deferred → s.held ≡ false → Move s (record s { starter = rearming })
  withdrawn_publishes :
      s.starter ≡ withdrawn
      → s.phase ≢ armed
      → Move s (record s { starter = rearming; phase = completed })
  withdrawn_publishes_armed :
      s.starter ≡ withdrawn
      → s.phase ≡ armed
      → Move s (record s { starter = rearming; phase = completed; posted = s.posted + 1 })
  rearm :
      s.starter ≡ rearming
      → s.phase ≡ cancel_deferred
      → Move s (record s { starter = returned; phase = armed })
  rearm_fails :
      s.starter ≡ rearming → s.phase ≢ cancel_deferred → Move s (record s { starter = posting })
  start_posts :
      s.starter ≡ posting → Move s (record s { starter = returned; posted = s.posted + 1 })
  -- `request_cancel`. A failed exchange looks again.
  request : s.canceller ≡ unasked → s.finished ≡ false → Move s (record s { canceller = looking })
  sees_starting :
      s.canceller ≡ looking → s.phase ≡ starting → Move s (record s { canceller = deferring })
  sees_armed :
      s.canceller ≡ looking → s.phase ≡ armed → Move s (record s { canceller = cancelling })
  sees_other :
      s.canceller ≡ looking
      → s.phase ≢ starting
      → s.phase ≢ armed
      → Move s (record s { canceller = over })
  defer :
      s.canceller ≡ deferring
      → s.phase ≡ starting
      → Move s (record s { canceller = over; phase = cancel_deferred })
  defer_fails : s.canceller ≡ deferring → Move s (record s { canceller = looking })
  withdraws :
      s.canceller ≡ cancelling
      → s.held ≡ true
      → Move s (record s { canceller = took_back; held = false })
  too_late : s.canceller ≡ cancelling → s.held ≡ false → Move s (record s { canceller = over })
  cancel_publishes :
      s.canceller ≡ took_back
      → s.phase ≢ armed
      → Move s (record s { canceller = over; phase = completed })
  cancel_publishes_armed :
      s.canceller ≡ took_back
      → s.phase ≡ armed
      → Move s (record s { canceller = posts; phase = completed })
  cancel_posts : s.canceller ≡ posts → Move s (record s { canceller = over; posted = s.posted + 1 })
  -- The backend.
  becomes_ready :
      s.publisher ≡ waits → s.held ≡ true → Move s (record s { publisher = took; held = false })
  publishes :
      s.publisher ≡ took
      → s.phase ≢ armed
      → Move s (record s { publisher = published; phase = completed })
  publishes_armed :
      s.publisher ≡ took
      → s.phase ≡ armed
      → Move s (record s { publisher = posts_it; phase = completed })
  posts_ready :
      s.publisher ≡ posts_it → Move s (record s { publisher = published; posted = s.posted + 1 })
  -- `finish`, of an operation that was dequeued: the reset of the stop callback waits for one that runs.
  finish :
      0 < s.posted
      → running s.canceller ≡ false
      → s.finished ≡ false
      → Move s (record s { finished = true })

abbrev pub new_operation : Operation
new_operation = record {
  phase = starting;
  held = false;
  starter = entered;
  canceller = unasked;
  publisher = waits;
  posted = 0;
  finished = false;
}

pub data Reach : Operation → Type 0 where
  start : Reach new_operation
  later : {s t : Operation} → Reach s → Move s t → Reach t
