-- ===== src/ObjectPool/Tests.antt =====
-- A pool at work.

use coio.Base.{ℕ, ◌≡◌, refl, Bool, true, false, none}
use coio.ObjectPool.Safety.{acquire_unheld}
use coio.ObjectPool.{Pool, acquire, release, mark, Reach, start, acquires, releases}

abbrev empty_pool : Pool
empty_pool = record { next = λ x. none; free_list = none }

-- Object 5 was made and returned.
abbrev returned : Pool
returned = release 5 (acquire 5 empty_pool).1

abbrev nobody : ℕ → Bool
nobody = mark (mark (λ x. false) (acquire 5 empty_pool).0 true) 5 false

returned_run : Reach returned nobody
unfolding acquire
returned_run = releases 5 (acquires 5 start refl) refl

reuses : (acquire 6 returned).0 ≡ 5
unfolding acquire release
reuses = refl

acquire_unheld_example : nobody (acquire 6 returned).0 ≡ false
unfolding acquire
acquire_unheld_example = acquire_unheld 6 returned_run refl
