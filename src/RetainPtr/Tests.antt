-- ===== src/RetainPtr/Tests.antt =====
-- Counted pointers at work.

use coio.Base.{◌+◌, min, ◌≡◌, refl, some, arith}
use coio.RetainPtr.Safety.{as_count, destroyed_with_last}
use coio.RetainPtr.Counting.{owners}
use coio.RetainPtr.{
  World, retain, lose, construct, destroy, swap_in, copy_assign, move_assign, reset, reset_to,
  copies, moves, resets, takes, empty_world, Reach, start, later,
}

-- An object that two variables held, and that both let go.

abbrev shared : World
shared = copy_assign 1 0 (reset_to 0 (some 7) (empty_world 2))

abbrev released : World
released = reset 1 (move_assign 1 0 shared)

released_run : Reach 2 released
unfolding copy_assign reset_to move_assign swap_in construct retain destroy lose
released_run =
    later
      (later
        (later (later start (takes 0 7 (omega arith) refl))
          (copies 1 0 (omega arith) (omega arith)))
        (moves 1 0 (omega arith) (omega arith)))
      (resets 1 (omega arith))

counts : (shared.count 7 ≡ 2) × ((released.count 7 ≡ 0) × (released.lost 7 ≡ 1))
unfolding copy_assign reset_to move_assign reset swap_in construct retain destroy lose
counts = (refl, (refl, refl))

destroyed_with_last_example :
    (released.count 7 ≡ owners 7 released.variables)
    × (released.lost 7 + min 1 (owners 7 released.variables) ≡ as_count (released.owned 7))
destroyed_with_last_example = destroyed_with_last released_run 7
