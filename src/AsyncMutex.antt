-- ===== src/AsyncMutex.antt =====
-- include/coio/sync_primitives.h: `async_mutex`. Each thread runs lock states, `try_lock` and
-- `unlock`, one atomic access a step. The word is `free` for `not_locked`, and otherwise the stack of
-- waiters whose top it points to, none of them for `locked_but_no_waiter`. The lock state of thread
-- `i` is waiter `i`, and a chain of waiters is the list of them.
pub mod Invariant
pub mod Moves
pub mod Reversal
pub mod Fifo
pub mod Safety
mod Tests
use coio.Base.{
  ℕ, zero, suc, ◌+◌, ◌-◌, ◌*◌, ◌/◌, ◌%◌, ◌^◌, ◌≤◌, ◌<◌, min, max, ◌≡◌, refl, sym, ap, ◌∙◌, subst,
  ◌≢◌, ◌↔◌, ◌⊎◌, inl, inr, Bool, true, false, ◌&&◌, ◌||◌, not, Option, none, some, List, [], ◌∷◌,
  ◌++◌, map, reverse, arith, dec_lt, dec_le, ℕ_discrete, if◌then◌else◌, ltb, leb, ◌==◌, Bool-cases,
  Option-cases, length, get_elem?, set, take, drop, slice, overwrite, add_size, sub_size, mul_size,
  size_mod, length-append, length-take, length-drop,
}
use coio.Links.{Pointer, first}

pub data Word : Type 0 where
  free : Word
  locked : List ℕ → Word

pub data Pc : Type 0 where
  idle : Pc
  starting : Pc  -- at the first compare-exchange of `start`
  linked : (old : Pointer) → Pc  -- `next_` is set; at the second one
  waiting : Pc  -- `start` has returned
  trying : Pc  -- `try_lock`
  owner : Pc  -- holds the lock, about to call `unlock`
  releasing : Pc  -- found `head_` null; at the compare-exchange of `unlock`
  exchanging : Pc  -- that failed; at the exchange
  handing : (chain : List ℕ) → Pc  -- `old_head` is the first of the chain; at `head_.store`
  completing : (x : ℕ) → Pc  -- at `complete_`

pub record Mutex : Type 0 where
  pub word : Word
  pub head : List ℕ  -- the chain from `head_`
  pub pc : ℕ → Pc

abbrev pub update {ℓ} : {A : Type ℓ} → (ℕ → A) → ℕ → A → ℕ → A
update f i a j = if i == j then a else f j

abbrev pub goto : Mutex → ℕ → Pc → Mutex
goto l i p = record l { pc = update l.pc i p }

-- The steps of thread `i`. The second compare-exchange of `start` is the weak one: it may fail
-- whatever the word is.
pub data Move (l : Mutex) (i : ℕ) : Pc → Mutex → Type 0 where
  begin : Move l i idle (goto l i starting)
  begin_try : Move l i idle (goto l i trying)
  lock : l.word ≡ free → Move l i starting (goto (record l { word = locked [] }) i owner)
  link : {xs : List ℕ} → l.word ≡ locked xs → Move l i starting (goto l i (linked (first xs)))
  enqueue :
      {old : Pointer} {xs : List ℕ}
      → l.word ≡ locked xs
      → first xs ≡ old
      → Move l i (linked old) (goto (record l { word = locked (i ∷ xs) }) i waiting)
  retry : {old : Pointer} → Move l i (linked old) (goto l i starting)
  try_ok : l.word ≡ free → Move l i trying (goto (record l { word = locked [] }) i owner)
  try_busy : {xs : List ℕ} → l.word ≡ locked xs → Move l i trying (goto l i idle)
  load_some : {x : ℕ} {xs : List ℕ} → l.head ≡ x ∷ xs → Move l i owner (goto l i (handing l.head))
  load_none : l.head ≡ [] → Move l i owner (goto l i releasing)
  unlock : l.word ≡ locked [] → Move l i releasing (goto (record l { word = free }) i idle)
  unlock_fails :
      {x : ℕ} {xs : List ℕ} → l.word ≡ locked (x ∷ xs) → Move l i releasing (goto l i exchanging)
  exchange :
      {xs : List ℕ}
      → l.word ≡ locked xs
      → Move l i exchanging (goto (record l { word = locked [] }) i (handing (reverse xs)))
  store_head :
      {x : ℕ} {xs : List ℕ}
      → Move l i (handing (x ∷ xs)) (goto (record l { head = xs }) i (completing x))
  complete : {x : ℕ} → Move l i (completing x) (goto (goto l i idle) x owner)

pub data Step (l m : Mutex) : Type 0 where
  pick : (i : ℕ) → Move l i (l.pc i) m → Step l m

abbrev pub new_mutex : Mutex
new_mutex = record { word = free; head = []; pc = λ i. idle }

pub data Reach : Mutex → Type 0 where
  start : Reach new_mutex
  later : {l m : Mutex} → Reach l → Step l m → Reach m
