-- ===== src/AtomicStack.antt =====
-- include/coio/detail/atomic_intrusive_stack.h: `atomic_intrusive_stack`. The head is the stack's
-- own address (`self`) until the first push, and otherwise a node or null. A successful
-- compare-exchange and an exchange are each one step.
pub mod Laws
mod Tests
use coio.Base.{
  ℕ, zero, suc, ◌+◌, ◌-◌, ◌*◌, ◌/◌, ◌%◌, ◌^◌, ◌≤◌, ◌<◌, min, max, ◌≡◌, refl, sym, ap, ◌∙◌, subst,
  ◌≢◌, ◌↔◌, ◌⊎◌, inl, inr, Bool, true, false, ◌&&◌, ◌||◌, not, Option, none, some, List, [], ◌∷◌,
  ◌++◌, map, reverse, arith, dec_lt, dec_le, ℕ_discrete, if◌then◌else◌, ltb, leb, ◌==◌, Bool-cases,
  Option-cases, length, get_elem?, set, take, drop, slice, overwrite, add_size, sub_size, mul_size,
  size_mod, length-append, length-take, length-drop,
}
use coio.Links.{Field, Pointer, store}

pub data StackStatus : Type 0 where
  empty_and_never_pushed empty_but_pushed not_empty : StackStatus

pub data Head : Type 0 where
  self : Head
  at : Pointer → Head

pub record AtomicStack : Type 0 where
  pub next : Field
  pub head : Head

abbrev pub new_stack : Field → AtomicStack
new_stack next = record { next = next; head = self }

-- `old_top == this ? nullptr : static_cast<pointer>(old_top)`
abbrev pub top_of : Head → Pointer
top_of self = none
top_of (at p) = p

abbrev pub status_of : Head → StackStatus
status_of self = empty_and_never_pushed
status_of (at none) = empty_but_pushed
status_of (at (some x)) = not_empty

-- Returns the status before the push.
unfoldable pub push : ℕ → AtomicStack → StackStatus × AtomicStack
push object s = (
  status_of s.head,
  record { next = store s.next object (top_of s.head); head = at (some object) },
)

unfoldable pub pop_all : AtomicStack → Pointer × AtomicStack
pop_all s = (top_of s.head, record s { head = at none })

unfoldable pub status : AtomicStack → StackStatus
status s = status_of s.head

unfoldable pub empty : AtomicStack → Bool
unfolding status
empty s = elim (status s) [ not_empty ↦ false | _ ↦ true ]
