-- ===== src/ObjectPool.antt =====
-- include/coio/detail/object_pool.h: `object_pool`. The objects are numbers; `next` is the member that
-- `NextAccessor` reaches. A call holds `lock_` and is one step; a new object is an argument.
pub mod Safety
mod Tests
use coio.Base.{
  ℕ, zero, suc, ◌+◌, ◌-◌, ◌*◌, ◌/◌, ◌%◌, ◌^◌, ◌≤◌, ◌<◌, min, max, ◌≡◌, refl, sym, ap, ◌∙◌, subst,
  ◌≢◌, ◌↔◌, ◌⊎◌, inl, inr, Bool, true, false, ◌&&◌, ◌||◌, not, Option, none, some, List, [], ◌∷◌,
  ◌++◌, map, reverse, arith, dec_lt, dec_le, ℕ_discrete, if◌then◌else◌, ltb, leb, ◌==◌, Bool-cases,
  Option-cases, length, get_elem?, set, take, drop, slice, overwrite, add_size, sub_size, mul_size,
  size_mod, length-append, length-take, length-drop,
}
use coio.Links.{Pointer, Field, store, Chain, Fresh, Distinct, Chain-store}

pub record Pool : Type 0 where
  pub next : Field
  pub free_list : Pointer

-- `acquire()`: the first of the free list, or what `new_object` returns.
unfoldable pub acquire : ℕ → Pool → ℕ × Pool
acquire new_object p = elim p.free_list [
  | none ↦ (new_object, p)
  | some entry ↦ (entry, record p { free_list = p.next entry })
]

unfoldable pub release : ℕ → Pool → Pool
release obj p = record { next = store p.next obj p.free_list; free_list = some obj }

abbrev pub mark : (ℕ → Bool) → ℕ → Bool → ℕ → Bool
mark held x b y = if x == y then b else held y

-- The pool, and the objects that clients hold. A client returns what it holds, and a new object is not
-- one that somebody holds.
pub data Reach : Pool → (ℕ → Bool) → Type 0 where
  start : Reach (record { next = λ x. none; free_list = none }) (λ x. false)
  acquires :
      {p : Pool} {held : ℕ → Bool} (new_object : ℕ)
      → Reach p held
      → held new_object ≡ false
      → Reach (acquire new_object p).1 (mark held (acquire new_object p).0 true)
  releases :
      {p : Pool} {held : ℕ → Bool} (obj : ℕ)
      → Reach p held
      → held obj ≡ true
      → Reach (release obj p) (mark held obj false)
