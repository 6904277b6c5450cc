-- ===== src/Atomutex/Tests.antt =====
-- A thread that sleeps and is woken.
use coio.Base.{ℕ, ◌≡◌, refl, ◌⊎◌, true, false}
use coio.Atomutex.{
  Lock, watching, owner, begin, busy, block, try_ok, clear, notify_one, Step, pick, new_lock, Reach,
  start, later,
}
use coio.Atomutex.Safety.{alert, owns_alone, sleeps_in_care}

abbrev Run : Type 0
Run = (l : Lock) × Reach l

abbrev then_step : (r : Run) {m : Lock} → Step r.0 m → Run
then_step r {m} s = (m, later r.1 s)

-- Thread 0 owns the lock, thread 1 sleeps.
abbrev asleep : Run
asleep =
    then_step
      (then_step (then_step (then_step (new_lock, start) (pick 0 (try_ok refl))) (pick 1 begin))
        (pick 1 (busy refl)))
      (pick 1 (block refl))

-- Thread 0 has unlocked.
abbrev woken : Run
woken = then_step (then_step asleep (pick 0 clear)) (pick 0 (notify_one 1 refl))

woken_result : (woken.0.pc 1 ≡ watching) × (woken.0.flag ≡ false)
woken_result = (refl, refl)

owns_alone_example : ◌≡◌ {A = ℕ} 0 0
owns_alone_example = owns_alone asleep.1 0 0 refl refl

sleeps_in_care_example : (k : ℕ) × ((asleep.0.pc k ≡ owner) ⊎ (alert (asleep.0.pc k) ≡ true))
sleeps_in_care_example = sleeps_in_care asleep.1 1 refl
