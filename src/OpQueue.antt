-- ===== src/OpQueue.antt =====
-- include/coio/detail/op_queue.h: `op_queue`, the queue from many producers to one consumer. The
-- operations are numbers and `next` holds the link that `NextAccessor` returns. The exchange of
-- `dequeue` and the successful compare-exchange of `publish` are each one step.
pub mod Contents
pub mod Fifo
mod Tests
use coio.Base.{
  ℕ, zero, suc, ◌+◌, ◌-◌, ◌*◌, ◌/◌, ◌%◌, ◌^◌, ◌≤◌, ◌<◌, min, max, ◌≡◌, refl, sym, ap, ◌∙◌, subst,
  ◌≢◌, ◌↔◌, ◌⊎◌, inl, inr, Bool, true, false, ◌&&◌, ◌||◌, not, Option, none, some, List, [], ◌∷◌,
  ◌++◌, map, reverse, arith, dec_lt, dec_le, ℕ_discrete, if◌then◌else◌, ltb, leb, ◌==◌, Bool-cases,
  Option-cases, length, get_elem?, set, take, drop, slice, overwrite, add_size, sub_size, mul_size,
  size_mod, length-append, length-take, length-drop,
}
use coio.Links.{Field, Pointer, store, first}
use coio.Links.Reverse.{reverse_loop}

pub record OpQueue : Type 0 where
  pub next : Field
  pub incoming : Pointer
  pub front : Pointer

abbrev pub empty_queue : Field → OpQueue
empty_queue next = record { next = next; incoming = none; front = none }

-- The chain from `head` to `tail` is put in front of what is already incoming.
unfoldable pub publish : ℕ → ℕ → OpQueue → OpQueue
publish head tail q = record q { next = store q.next tail q.incoming; incoming = some head }

-- `none` is a reversal that runs out of fuel.
unfoldable pub enqueue : ℕ → ℕ → OpQueue → Option OpQueue
enqueue fuel op q = elim (reverse_loop fuel q.next op none) [
  | none ↦ none
  | some (links, head) ↦ some (publish head op (record q { next = links }))
]

-- The loop of `bulk_enqueue`, with its locals `head` and `tail`; `none` is a failed assertion.
unfoldable pub link_ops : List ℕ → Field → Pointer → Pointer → Option (Field × Pointer × Pointer)
link_ops [] next head tail = some (next, head, tail)
link_ops (op ∷ ops) next head tail = elim (next op) [
  | some _ ↦ none
  | none ↦
      link_ops ops (store next op head) (some op) (elim tail [ none ↦ some op | some t ↦ some t ])
]

-- What `bulk_enqueue` does behind its loop.
unfoldable pub publish_linked : OpQueue → Pointer → Pointer → Option (OpQueue × Bool)
publish_linked q none tail = some (q, false)
publish_linked q (some head) none = none
publish_linked q (some head) (some tail) = some (publish head tail q, true)

unfoldable pub bulk_enqueue : List ℕ → OpQueue → Option (OpQueue × Bool)
bulk_enqueue ops q = elim (link_ops ops q.next none none) [
  | none ↦ none
  | some (links, head, tail) ↦ publish_linked (record q { next = links }) head tail
]

-- The front is refilled from what came in, turned round.
unfoldable pub refill_front : ℕ → OpQueue → Option OpQueue
refill_front fuel q = elim q.front [
  | some op ↦ some q
  | none ↦ elim q.incoming [
    | none ↦ some q
    | some node ↦ elim (reverse_loop fuel q.next node none) [
      | none ↦ none
      | some (links, head) ↦ some (record { next = links; incoming = none; front = some head })
    ]
  ]
]

unfoldable pub take_front : OpQueue → Pointer × OpQueue
take_front q = elim q.front [
  | none ↦ (none, q)
  | some op ↦ (some op, record q { front = q.next op; next = store q.next op none })
]

unfoldable pub dequeue : ℕ → OpQueue → Option (Pointer × OpQueue)
dequeue fuel q = elim (refill_front fuel q) [ none ↦ none | some r ↦ some (take_front r) ]
