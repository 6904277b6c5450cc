-- ===== src/OperationPhase/Tests.antt =====
-- Runs of an operation.
use coio.Base.{ℕ, ◌≡◌, refl, ◌≢◌, ◌⊎◌, true, false, arith}
use coio.OperationPhase.Safety.{Asserts, Reach-Asserts, InHand, never_lost, finished_is_final}
use coio.OperationPhase.{
  cancel_deferred, completed, returned, unasked, over, waits, published, Operation, Move,
  stays_pending, finds_deferred, finds_completed, start_withdraws, withdrawn_publishes, rearm_fails,
  start_posts, request, sees_starting, defer, becomes_ready, publishes, finish, Reach, start, later,
}

-- Cancelled before `do_start` has returned: `start` withdraws it and posts it.
abbrev cancelled : Operation
cancelled = record {
  phase = completed;
  held = false;
  starter = returned;
  canceller = over;
  publisher = waits;
  posted = 1;
  finished = false;
}

cancelled_run : Reach cancelled
cancelled_run =
    later
      (later
        (later
          (later
            (later
              (later
                (later (later (later start (request refl refl)) (sees_starting refl refl))
                  (stays_pending refl))
                (defer refl refl))
              (finds_deferred refl refl))
            (start_withdraws refl refl))
          (withdrawn_publishes refl (λ e. cc)))
        (rearm_fails refl (λ e. cc)))
      (start_posts refl)

-- Ready while `start` still runs: `start` posts it, while a stop is requested in vain.
abbrev finished_op : Operation
finished_op = record {
  phase = completed;
  held = false;
  starter = returned;
  canceller = unasked;
  publisher = published;
  posted = 1;
  finished = true;
}

finished_run : Reach finished_op
finished_run =
    later
      (later
        (later
          (later (later (later start (stays_pending refl)) (becomes_ready refl refl))
            (publishes refl (λ e. cc)))
          (finds_completed refl (λ e. cc) (λ e. cc)))
        (start_posts refl))
      (finish (omega arith) refl refl)

Reach-Asserts_example : Asserts cancelled
Reach-Asserts_example = Reach-Asserts cancelled_run

never_lost_example : (completed ≢ cancel_deferred) × ((◌≡◌ {A = ℕ} 1 1) ⊎ InHand cancelled)
never_lost_example = never_lost cancelled_run refl

finished_is_final_example : ¬ ((t : Operation) × Move finished_op t)
finished_is_final_example = finished_is_final finished_run refl
