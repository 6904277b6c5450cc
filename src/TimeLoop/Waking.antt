-- ===== src/TimeLoop/Waking.antt =====
-- `run_one` sleeps until the earliest deadline and then runs that operation.

use coio.Base.{ℕ, ◌≤◌, ◌<◌, ◌≡◌, Bool, true, Option, some, List}
use coio.TimeLoop.Passing.{Settled}
use coio.TimerQueue.Shape.{Heap, count}
use coio.TimerQueue.{earliest}
use coio.TimeLoop.{TimeLoop}

module _ (deadline : ℕ → ℕ) (finish : ℕ → TimeLoop → TimeLoop) (fuel : ℕ) where
  -- The earliest operation `op` of the heap is finished, in a loop that has the rest.
  pub record Wakes (now : ℕ) (l : TimeLoop) (t : Heap) (o : Option (Bool × TimeLoop)) : Type 0 where
    pub op : ℕ
    pub rest : List ℕ
    pub left : Heap
    pub before : TimeLoop
    pub returns : o ≡ some (true, finish op before)
    pub settled : Settled deadline before rest left
    pub due : deadline op ≤ now
    pub earliest : (z : ℕ) → 0 < count z t → deadline op ≤ deadline z
