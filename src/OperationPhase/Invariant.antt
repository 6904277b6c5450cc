-- ===== src/OperationPhase/Invariant.antt =====
-- The invariant of an operation: it is in one place at a time, and is posted by whom it falls to.
use coio.Base.{ℕ, ◌+◌, ◌≡◌, refl, Bool, true, false, arith}
use coio.OperationPhase.{
  Phase, starting, armed, cancel_deferred, completed, Starter, entered, done_at_once, deferred,
  withdrawn, rearming, posting, returned, Canceller, cancelling, took_back, posts, Publisher, took,
  posts_it, Operation, running, Move, new_operation, stays_pending, completes, start_publishes,
  start_publishes_armed, arm, finds_deferred, finds_completed, start_withdraws, start_too_late,
  withdrawn_publishes, withdrawn_publishes_armed, rearm, rearm_fails, start_posts, request,
  sees_starting, sees_armed, sees_other, defer, defer_fails, withdraws, too_late, cancel_publishes,
  cancel_publishes_armed, cancel_posts, becomes_ready, publishes, publishes_armed, posts_ready,
  finish, Reach, start, later,
}

-- Whether the operation is in the hands of this thread, is published, or is due.
abbrev pub with_starter : Starter → ℕ
with_starter done_at_once = 1
with_starter withdrawn = 1
with_starter _ = 0

abbrev pub with_canceller : Canceller → ℕ
with_canceller took_back = 1
with_canceller _ = 0

abbrev pub with_publisher : Publisher → ℕ
with_publisher took = 1
with_publisher _ = 0

abbrev pub is_published : Phase → ℕ
is_published completed = 1
is_published _ = 0

abbrev pub is_held : Bool → ℕ
is_held true = 1
is_held false = 0

abbrev pub is_due : Starter → ℕ
is_due entered = 0
is_due _ = 1

-- Whether the thread is about to post. The starter will be, once the operation is published.
abbrev pub starter_posts : Phase → Starter → ℕ
starter_posts completed returned = 0
starter_posts completed _ = 1
starter_posts _ posting = 1
starter_posts _ _ = 0

abbrev pub canceller_posts : Canceller → ℕ
canceller_posts posts = 1
canceller_posts _ = 0

abbrev pub publisher_posts : Publisher → ℕ
publisher_posts posts_it = 1
publisher_posts _ = 0

-- The phases in which the starter stands there.
abbrev pub goes_with : Phase → Starter → Bool
goes_with completed _ = true
goes_with armed returned = true
goes_with armed _ = false
goes_with _ returned = false
goes_with _ posting = false
goes_with starting deferred = false
goes_with starting withdrawn = false
goes_with starting rearming = false
goes_with _ _ = true

-- The canceller acts on an operation that was armed.
abbrev pub acts_in : Phase → Canceller → Bool
acts_in starting cancelling = false
acts_in starting took_back = false
acts_in cancel_deferred cancelling = false
acts_in cancel_deferred took_back = false
acts_in _ _ = true

pub record Inv (s : Operation) : Type 0 where
  pub one_place :
      is_held s.held
        + with_starter s.starter
        + with_canceller s.canceller
        + with_publisher s.publisher
        + is_published s.phase
      ≡ is_due s.starter
  pub one_post :
      s.posted
        + starter_posts s.phase s.starter
        + canceller_posts s.canceller
        + publisher_posts s.publisher
      ≡ is_published s.phase
  pub fits_starter : goes_with s.phase s.starter ≡ true
  pub fits_canceller : acts_in s.phase s.canceller ≡ true
  pub at_rest : s.finished ≡ true → (s.posted ≡ 1) × (running s.canceller ≡ false)

pub new_operation-Inv : Inv new_operation
new_operation-Inv = record {
  one_place = refl;
  one_post = refl;
  fits_starter = refl;
  fits_canceller = refl;
  at_rest = λ e. absurd cc;
}

-- Every step keeps it.
pub Move-Inv : {s t : Operation} → Inv s → Move s t → Inv t
Move-Inv v (stays_pending e) = ground arith
Move-Inv v (completes e) = ground arith
Move-Inv v (start_publishes e n) = ground arith
Move-Inv v (start_publishes_armed e n) = ground arith
Move-Inv v (arm e n) = ground arith
Move-Inv v (finds_deferred e n) = ground arith
Move-Inv v (finds_completed e n k) = ground arith
Move-Inv v (start_withdraws e n) = ground arith
Move-Inv v (start_too_late e n) = ground arith
Move-Inv v (withdrawn_publishes e n) = ground arith
Move-Inv v (withdrawn_publishes_armed e n) = ground arith
Move-Inv v (rearm e n) = ground arith
Move-Inv v (rearm_fails e n) = ground arith
Move-Inv v (start_posts e) = ground arith
Move-Inv v (request e n) = ground arith
Move-Inv v (sees_starting e n) = ground arith
Move-Inv v (sees_armed e n) = ground arith
Move-Inv v (sees_other e n k) = ground arith
Move-Inv v (defer e n) = ground arith
Move-Inv v (defer_fails e) = ground arith
Move-Inv v (withdraws e n) = ground arith
Move-Inv v (too_late e n) = ground arith
Move-Inv v (cancel_publishes e n) = ground arith
Move-Inv v (cancel_publishes_armed e n) = ground arith
Move-Inv v (cancel_posts e) = ground arith
Move-Inv v (becomes_ready e n) = ground arith
Move-Inv v (publishes e n) = ground arith
Move-Inv v (publishes_armed e n) = ground arith
Move-Inv v (posts_ready e) = ground arith
Move-Inv v (finish e n k) = ground arith

pub Reach-Inv : {s : Operation} → Reach s → Inv s
Reach-Inv start = new_operation-Inv
Reach-Inv (later r m) = Move-Inv (Reach-Inv r) m
