-- ===== src/IntrusiveList.antt =====
-- include/coio/detail/intrusive_list.h: `intrusive_list`. The objects are numbers; `next` is the
-- member that `next_` points to, in every object.
pub mod Laws
mod Tests
use coio.Base.{
  ℕ, zero, suc, ◌+◌, ◌-◌, ◌*◌, ◌/◌, ◌%◌, ◌^◌, ◌≤◌, ◌<◌, min, max, ◌≡◌, refl, sym, ap, ◌∙◌, subst,
  ◌≢◌, ◌↔◌, ◌⊎◌, inl, inr, Bool, true, false, ◌&&◌, ◌||◌, not, Option, none, some, List, [], ◌∷◌,
  ◌++◌, map, reverse, arith, dec_lt, dec_le, ℕ_discrete, if◌then◌else◌, ltb, leb, ◌==◌, Bool-cases,
  Option-cases, length, get_elem?, set, take, drop, slice, overwrite, add_size, sub_size, mul_size,
  size_mod, length-append, length-take, length-drop,
}
use coio.Links.{Field, Pointer, store}

pub record IntrusiveList : Type 0 where
  pub next : Field
  pub head : Pointer
  pub tail : Pointer

abbrev pub is_empty : IntrusiveList → Bool
is_empty l = elim l.head [ none ↦ true | some _ ↦ false ]

-- `if (tail_) tail_->next = &object; else head_ = &object;`
abbrev pub link_last : ℕ → IntrusiveList → IntrusiveList
link_last object l = elim l.tail [
  | none ↦ record l { head = some object }
  | some t ↦ record l { next = store l.next t (some object) }
]

unfoldable pub push_back : ℕ → IntrusiveList → IntrusiveList
push_back object l = record (link_last object (record l { next = store l.next object none })) {
  tail = some object;
}

-- The loop of `append`: the last node from `node` on, and the count.
unfoldable pub walk : ℕ → Field → ℕ → ℕ → Option (ℕ × ℕ)
walk zero next node count = none
walk (suc fuel) next node count = elim (next node) [
  | none ↦ some (node, count)
  | some following ↦ walk fuel next following (count + 1)
]

-- A chain of objects that starts at `object`; returns how many they are.
unfoldable pub append : ℕ → ℕ → IntrusiveList → Option (ℕ × IntrusiveList)
append fuel object l = elim (walk fuel (link_last object l).next object 1) [
  | none ↦ none
  | some (last, count) ↦ some (count, record (link_last object l) { tail = some last })
]

unfoldable pub pop_front : IntrusiveList → Pointer × IntrusiveList
pop_front l = elim l.head [
  | none ↦ (none, l)
  | some object ↦ (
    some object,
    record {
      next = store l.next object none;
      head = l.next object;
      tail = elim (l.next object) [ none ↦ none | some _ ↦ l.tail ];
    },
  )
]

unfoldable pub release : IntrusiveList → Pointer × IntrusiveList
release l = (l.head, record l { head = none; tail = none })

unfoldable pub clear : IntrusiveList → IntrusiveList
clear l = record l { head = none; tail = none }
