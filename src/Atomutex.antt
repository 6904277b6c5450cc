-- ===== src/Atomutex.antt =====
-- include/coio/utils/atomutex.h: `atomutex`. Each thread runs `lock`, `try_lock` and `unlock`, one
-- access of `flag_` a step. A thread that `notify_one` wakes looks at the flag again, as `wait` does;
-- so does one that wakes without it (`spurious`), or as one of several that a `notify_one` wakes.
pub mod Safety
mod Tests
use coio.Base.{
  ℕ, zero, suc, ◌+◌, ◌-◌, ◌*◌, ◌/◌, ◌%◌, ◌^◌, ◌≤◌, ◌<◌, min, max, ◌≡◌, refl, sym, ap, ◌∙◌, subst,
  ◌≢◌, ◌↔◌, ◌⊎◌, inl, inr, Bool, true, false, ◌&&◌, ◌||◌, not, Option, none, some, List, [], ◌∷◌,
  ◌++◌, map, reverse, arith, dec_lt, dec_le, ℕ_discrete, if◌then◌else◌, ltb, leb, ◌==◌, Bool-cases,
  Option-cases, length, get_elem?, set, take, drop, slice, overwrite, add_size, sub_size, mul_size,
  size_mod, length-append, length-take, length-drop,
}

pub data Pc : Type 0 where
  idle : Pc
  testing : Pc  -- `lock`, at `test_and_set`
  watching : Pc  -- at the look of `wait` at the flag
  sleeping : Pc  -- blocked in `wait`
  owner : Pc
  notifying : Pc  -- `unlock`, at `notify_one`

pub record Lock : Type 0 where
  pub flag : Bool
  pub pc : ℕ → Pc

abbrev pub goto : (ℕ → Pc) → ℕ → Pc → ℕ → Pc
goto f i p j = if i == j then p else f j

-- The steps of thread `i`.
pub data Move (l : Lock) (i : ℕ) : Pc → Lock → Type 0 where
  begin : Move l i idle (record l { pc = goto l.pc i testing })
  acquire : l.flag ≡ false → Move l i testing (record { flag = true; pc = goto l.pc i owner })
  busy : l.flag ≡ true → Move l i testing (record l { pc = goto l.pc i watching })
  block : l.flag ≡ true → Move l i watching (record l { pc = goto l.pc i sleeping })
  spurious : Move l i sleeping (record l { pc = goto l.pc i watching })
  changed : l.flag ≡ false → Move l i watching (record l { pc = goto l.pc i testing })
  try_ok : l.flag ≡ false → Move l i idle (record { flag = true; pc = goto l.pc i owner })
  try_busy : l.flag ≡ true → Move l i idle l
  clear : Move l i owner (record { flag = false; pc = goto l.pc i notifying })
  notify_one :
      (x : ℕ)
      → l.pc x ≡ sleeping
      → Move l i notifying (record l { pc = goto (goto l.pc i idle) x watching })
  notify_none :
      ((x : ℕ) → l.pc x ≢ sleeping) → Move l i notifying (record l { pc = goto l.pc i idle })

pub data Step (l m : Lock) : Type 0 where
  pick : (i : ℕ) → Move l i (l.pc i) m → Step l m

abbrev pub new_lock : Lock
new_lock = record { flag = false; pc = λ i. idle }

pub data Reach : Lock → Type 0 where
  start : Reach new_lock
  later : {l m : Lock} → Reach l → Step l m → Reach m
