-- ===== src/TimerQueue.antt =====
-- include/coio/detail/op_queue.h: `timer_queue`, an intrusive pairing heap. The operations are numbers;
-- a deadline is a number, given by `deadline`. Each call holds `mtx_`.
pub mod Shape
pub mod Meld
pub mod Merge
pub mod Fold
pub mod Unlink
pub mod Laws
pub mod Remove
pub mod Ready
mod Tests
use coio.Base.{
  ℕ, zero, suc, ◌+◌, ◌-◌, ◌*◌, ◌/◌, ◌%◌, ◌^◌, ◌≤◌, ◌<◌, min, max, ◌≡◌, refl, sym, ap, ◌∙◌, subst,
  ◌≢◌, ◌↔◌, ◌⊎◌, inl, inr, Bool, true, false, ◌&&◌, ◌||◌, not, Option, none, some, List, [], ◌∷◌,
  ◌++◌, map, reverse, arith, dec_lt, dec_le, ℕ_discrete, if◌then◌else◌, ltb, leb, ◌==◌, Bool-cases,
  Option-cases, length, get_elem?, set, take, drop, slice, overwrite, add_size, sub_size, mul_size,
  size_mod, length-append, length-take, length-drop,
}
use coio.Links.{Pointer, Field, store}

-- `timer_heap_links` of every operation.
pub record TimerLinks : Type 0 where
  pub prev : Field
  pub child : Field
  pub sibling : Field

pub record TimerQueue : Type 0 where
  pub links : TimerLinks
  pub root : Pointer

-- `links(op) = {}`.
unfoldable pub clear_links : ℕ → TimerLinks → TimerLinks
clear_links op l = record {
  prev = store l.prev op none;
  child = store l.child op none;
  sibling = store l.sibling op none;
}

-- `links(op).prev = nullptr; links(op).sibling = nullptr;`
unfoldable pub detach : ℕ → TimerLinks → TimerLinks
detach op l = record l { prev = store l.prev op none; sibling = store l.sibling op none }

-- `if (p != nullptr) links(*p).prev = op;`
unfoldable pub set_prev : Pointer → ℕ → TimerLinks → TimerLinks
set_prev none op l = l
set_prev (some p) op l = record l { prev = store l.prev p (some op) }

-- The last lines of `meld`: `b` becomes the first child of `a`.
unfoldable pub adopt : ℕ → ℕ → TimerLinks → TimerLinks
adopt a b l =
    let first_child = l.child a in
    let placed = record l {
      prev = store l.prev b (some a);
      sibling = store l.sibling b first_child;
    } in
    let moved = set_prev first_child b placed in
    record moved { child = store moved.child a (some b) }

-- What comes behind the pair.
unfoldable pub behind_pair : Pointer → TimerLinks → Pointer
behind_pair none l = none
behind_pair (some b) l = l.sibling b

-- `p == &op`.
abbrev pub is_pointer : Pointer → ℕ → Bool
is_pointer none op = false
is_pointer (some p) op = p == op

-- `unlink`, of an operation whose `prev` is `before`, its parent or its sibling.
unfoldable pub unlink : ℕ → ℕ → TimerLinks → TimerLinks
unlink op before l =
    let after = l.sibling op in
    set_prev after before (
      if is_pointer (l.child before) op
      then record l { child = store l.child before after }
      else record l { sibling = store l.sibling before after })

module _ (deadline : ℕ → ℕ) where
  unfoldable pub meld : ℕ → ℕ → TimerLinks → ℕ × TimerLinks
  meld a b l = if ltb (deadline b) (deadline a) then (b, adopt b a l) else (a, adopt a b l)

  -- A pair of the first pass of `merge_children`, or the last child alone, detached and melded.
  unfoldable pub meld_pair : ℕ → Pointer → TimerLinks → ℕ × TimerLinks
  meld_pair a none l = (a, detach a l)
  meld_pair a (some b) l = meld a b (detach b (detach a l))

  -- The first pass, on fuel: `merged` is the stack of the pairs that were melded.
  unfoldable pub pair_up : ℕ → Pointer → Pointer → TimerLinks → Option (Pointer × TimerLinks)
  pair_up zero first merged l = none
  pair_up (suc fuel) none merged l = some (merged, l)
  pair_up (suc fuel) (some a) merged l =
      let (top, paired) = meld_pair a (l.sibling a) l in
      pair_up fuel (behind_pair (l.sibling a) l) (some top)
        (record paired { sibling = store paired.sibling top merged })

  -- The second pass.
  unfoldable pub fold_up : ℕ → ℕ → Pointer → TimerLinks → Option (ℕ × TimerLinks)
  fold_up zero result merged l = none
  fold_up (suc fuel) result none l = some (result, l)
  fold_up (suc fuel) result (some next) l =
      let (top, melded) = meld result next (record l { sibling = store l.sibling next none }) in
      fold_up fuel top (l.sibling next) melded

  -- The second pass from the top of the stack on; there is one, since there was a child.
  unfoldable pub fold_stack : ℕ → Pointer × TimerLinks → Option (Pointer × TimerLinks)
  fold_stack fuel (none, l) = none
  fold_stack fuel (some result, l) =
      elim (fold_up fuel result (l.sibling result)
        (record l { sibling = store l.sibling result none })) [
          | none ↦ none
          | some (top, folded) ↦ some (some top, folded)
        ]

  unfoldable pub merge_children : ℕ → Pointer → TimerLinks → Option (Pointer × TimerLinks)
  merge_children fuel none l = some (none, l)
  merge_children fuel (some first) l = elim (pair_up fuel (some first) none l) [
    | none ↦ none
    | some stack ↦ fold_stack fuel stack
  ]

  -- `add`: whether the operation is the earliest now.
  unfoldable pub add : ℕ → TimerQueue → TimerQueue × Bool
  add op q =
      let l = clear_links op q.links in
      elim q.root [
        | none ↦ (record { links = l; root = some op }, true)
        | some root ↦
            let (top, melded) = meld root op l in
            (record { links = melded; root = some top }, top == op)
      ]

  -- `pop_root`, of a queue whose root is `top`.
  unfoldable pub pop_root : ℕ → ℕ → TimerLinks → Option TimerQueue
  pop_root fuel top l = elim (merge_children fuel (l.child top) l) [
    | none ↦ none
    | some (root, merged) ↦ some (record { links = clear_links top merged; root = root })
  ]

  -- The last lines of `remove`: what was below the operation is melded with the root.
  unfoldable pub rejoin : ℕ → ℕ → Pointer × TimerLinks → TimerQueue
  rejoin op root (none, l) = record { links = clear_links op l; root = some root }
  rejoin op root (some subtree, l) =
      let (top, melded) = meld root subtree l in
      record { links = clear_links op melded; root = some top }

  unfoldable pub remove_below : ℕ → ℕ → ℕ → ℕ → TimerLinks → Option (TimerQueue × Bool)
  remove_below fuel op root before l =
      let cut = unlink op before l in
      elim (merge_children fuel (cut.child op) cut) [
        | none ↦ none
        | some merged ↦ some (rejoin op root merged, true)
      ]

  -- `remove`: whether the operation was in the queue. A linked operation in a queue with no root would be
  -- undefined behaviour, `none` like the end of the fuel.
  unfoldable pub remove : ℕ → ℕ → TimerQueue → Option (TimerQueue × Bool)
  remove fuel op q =
      if is_pointer q.root op
      then elim (pop_root fuel op q.links) [ none ↦ none | some popped ↦ some (popped, true) ]
      else elim (q.links.prev op) [
        | none ↦ some (q, false)
        | some before ↦ elim q.root [
          | none ↦ none
          | some root ↦ remove_below fuel op root before q.links
        ]
      ]

  -- `take_ready_timers` at the time `now`, with the operations that it appends to the list.
  unfoldable pub take_ready : ℕ → ℕ → ℕ → TimerQueue → Option (TimerQueue × List ℕ)
  take_ready zero fuel now q = none
  take_ready (suc rounds) fuel now q = elim q.root [
    | none ↦ some (q, [])
    | some top ↦
        if leb (deadline top) now
        then elim (pop_root fuel top q.links) [
          | none ↦ none
          | some popped ↦ elim (take_ready rounds fuel now popped) [
            | none ↦ none
            | some (left, taken) ↦ some (left, top ∷ taken)
          ]
        ]
        else some (q, [])
  ]

  unfoldable pub earliest : TimerQueue → Option ℕ
  earliest q = elim q.root [ none ↦ none | some top ↦ some (deadline top) ]
