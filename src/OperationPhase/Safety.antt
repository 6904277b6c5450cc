-- ===== src/OperationPhase/Safety.antt =====
-- What an operation promises.
use coio.Base.{◌+◌, ◌≤◌, ◌≡◌, refl, ◌≢◌, ◌⊎◌, inl, inr, true, arith, ℕ_discrete}
use coio.OperationPhase.{
  cancel_deferred, completed, done_at_once, withdrawn, posting, returned, Canceller, unasked,
  looking, deferring, cancelling, took_back, posts, over, Publisher, waits, took, posts_it,
  published, Operation, Move, stays_pending, completes, start_publishes, start_publishes_armed, arm,
  finds_deferred, finds_completed, start_withdraws, start_too_late, withdrawn_publishes,
  withdrawn_publishes_armed, rearm, rearm_fails, start_posts, request, sees_starting, sees_armed,
  sees_other, defer, defer_fails, withdraws, too_late, cancel_publishes, cancel_publishes_armed,
  cancel_posts, becomes_ready, publishes, publishes_armed, posts_ready, finish, Reach,
}
use coio.OperationPhase.Invariant.{
  Inv, Reach-Inv, with_publisher, publisher_posts, with_canceller, canceller_posts, is_held,
}

-- The assertions of `publish` and `immediately_post`, and that it is enqueued once at most.
pub record Asserts (s : Operation) : Type 0 where
  pub at_most_once : s.posted ≤ 1
  pub start_publishes_first : s.starter ≡ done_at_once → s.phase ≢ completed
  pub withdrawn_publishes_first : s.starter ≡ withdrawn → s.phase ≢ completed
  pub cancel_publishes_first : s.canceller ≡ took_back → s.phase ≢ completed
  pub backend_publishes_first : s.publisher ≡ took → s.phase ≢ completed
  pub start_posts_first : s.starter ≡ posting → (s.phase ≡ completed) × (s.posted ≡ 0)
  pub cancel_posts_first : s.canceller ≡ posts → s.posted ≡ 0
  pub backend_posts_first : s.publisher ≡ posts_it → s.posted ≡ 0

-- In every reachable state, an operation was enqueued once at most, and whoever is about to publish or
-- to enqueue it finds that nobody has.
pub Reach-Asserts : {s : Operation} → Reach s → Asserts s
Reach-Asserts {s} r =
    let v : Inv s = Reach-Inv r in
    record {
      at_most_once = ground arith;
      start_publishes_first = λ e. ground arith;
      withdrawn_publishes_first = λ e. ground arith;
      cancel_publishes_first = λ e. ground arith;
      backend_publishes_first = λ e. ground arith;
      start_posts_first = λ e. ground arith;
      cancel_posts_first = λ e. ground arith;
      backend_posts_first = λ e. ground arith;
    }

-- Who has an operation that is not posted yet.
pub data InHand (s : Operation) : Type 0 where
  in_backend : s.held ≡ true → InHand s
  is_taken : s.publisher ≡ took → InHand s
  to_post : s.publisher ≡ posts_it → InHand s
  is_cancelled : s.canceller ≡ took_back → InHand s
  cancel_to_post : s.canceller ≡ posts → InHand s

-- No completion and no cancellation is lost: in every reachable state in which `start` has returned, no
-- cancellation is deferred, and the operation is enqueued, or the backend has it, or a thread is about
-- to publish or to enqueue it.
pub never_lost :
    {s : Operation}
    → Reach s
    → s.starter ≡ returned
    → (s.phase ≢ cancel_deferred) × ((s.posted ≡ 1) ⊎ InHand s)
never_lost {s} r e =
    let v : Inv s = Reach-Inv r in
    let go : (s.posted ≡ 1) ⊎ InHand s = elim (ℕ_discrete (is_held s.held) 1) [
      | yes q ↦ inr (in_backend (ground arith))
      | no q ↦ elim (ℕ_discrete (with_publisher s.publisher + publisher_posts s.publisher) 1) [
        | yes k ↦ inr (by_publisher s.publisher refl k)
        | no k ↦ elim (ℕ_discrete (with_canceller s.canceller + canceller_posts s.canceller) 1) [
          | yes l ↦ inr (by_canceller s.canceller refl l)
          | no l ↦ inl (ground arith)
        ]
      ]
    ] in
    (ground arith, go)
  where
    by_publisher :
        (p : Publisher) → s.publisher ≡ p → with_publisher p + publisher_posts p ≡ 1 → InHand s
    by_publisher took e k = is_taken e
    by_publisher posts_it e k = to_post e
    by_publisher waits e k = absurd (omega arith)
    by_publisher published e k = absurd (omega arith)

    by_canceller :
        (p : Canceller) → s.canceller ≡ p → with_canceller p + canceller_posts p ≡ 1 → InHand s
    by_canceller took_back e k = is_cancelled e
    by_canceller posts e k = cancel_to_post e
    by_canceller unasked e k = absurd (omega arith)
    by_canceller looking e k = absurd (omega arith)
    by_canceller deferring e k = absurd (omega arith)
    by_canceller cancelling e k = absurd (omega arith)
    by_canceller over e k = absurd (omega arith)

-- No thread has a step on it.
final : {s t : Operation} → Inv s → s.finished ≡ true → Move s t → ⊥
final v f (stays_pending e) = ground arith
final v f (completes e) = ground arith
final v f (start_publishes e n) = ground arith
final v f (start_publishes_armed e n) = ground arith
final v f (arm e n) = ground arith
final v f (finds_deferred e n) = ground arith
final v f (finds_completed e n k) = ground arith
final v f (start_withdraws e n) = ground arith
final v f (start_too_late e n) = ground arith
final v f (withdrawn_publishes e n) = ground arith
final v f (withdrawn_publishes_armed e n) = ground arith
final v f (rearm e n) = ground arith
final v f (rearm_fails e n) = ground arith
final v f (start_posts e) = ground arith
final v f (request e n) = ground arith
final v f (sees_starting e n) = ground arith
final v f (sees_armed e n) = ground arith
final v f (sees_other e n k) = ground arith
final v f (defer e n) = ground arith
final v f (defer_fails e) = ground arith
final v f (withdraws e n) = ground arith
final v f (too_late e n) = ground arith
final v f (cancel_publishes e n) = ground arith
final v f (cancel_publishes_armed e n) = ground arith
final v f (cancel_posts e) = ground arith
final v f (becomes_ready e n) = ground arith
final v f (publishes e n) = ground arith
final v f (publishes_armed e n) = ground arith
final v f (posts_ready e) = ground arith
final v f (finish e n k) = ground arith

-- Once `finish` has reset the stop callback, in every reachable state, no thread has a step on the
-- operation, which the receiver may destroy.
pub finished_is_final :
    {s : Operation} → Reach s → s.finished ≡ true → ¬ ((t : Operation) × Move s t)
finished_is_final r f (t, m) = final (Reach-Inv r) f m
