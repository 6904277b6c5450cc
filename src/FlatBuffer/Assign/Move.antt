-- ===== src/FlatBuffer/Assign/Move.antt =====
-- Moves: the target shows what the source showed, the source nothing.
use coio.Base.{ℕ, ◌≡◌, refl, inl, inr, Bool, true, false, [], arith, ◌==◌, Bool-cases}
use coio.Base.Outcome.{Outcome, done, throws, bad_alloc, ◌>>=◌}
use coio.FlatBuffer.{Allocator, Buffer, contents, size, clear}
use coio.FlatBuffer.Contents.{IsValid, clear-IsValid}
use coio.FlatBuffer.Assign.{move_construct, move_assign, steal_from, stolen}
use coio.FlatBuffer.Assign.Copy.{Shows, refill_lem, empty-Shows}

-- What a move from `other` to `b` comes to.
pub data Moves (other b : Buffer) : Outcome (Buffer × Buffer) ℕ → Type 0 where
  moved :
      {c d : Buffer} {n : ℕ}
      → Shows other c
      → IsValid d
      → contents d ≡ []
      → Moves other b (done (c, d) n)
  no_memory : Moves other b (throws (b, other) bad_alloc)

stolen-IsValid : {other : Buffer} → IsValid other → IsValid (stolen other)
stolen-IsValid v = omega arith

-- The new buffer shows what the old one showed, which is left empty.
pub move_construct-Shows :
    {other : Buffer}
    → IsValid other
    → let (c, d) = move_construct other in Shows other c × IsValid d × (contents d ≡ [])
unfolding move_construct
move_construct-Shows {other} v =
    (record { valid = ground arith; same = refl; same_max = refl }, stolen-IsValid v, refl)

-- Move assignment between two buffers that are well formed: the target shows what the source showed,
-- under its limit, and the source shows nothing; or, where unequal allocators make it copy,
-- `bad_alloc` is thrown and both are as they were.
pub move_assign-Moves :
    (al : Allocator) (propagate : Bool) {other b : Buffer}
    → IsValid other
    → IsValid b
    → Moves other b (move_assign al propagate false other b)
unfolding move_assign steal_from clear
move_assign-Moves al true {other} {b} v w =
    moved (record { valid = ground arith; same = refl; same_max = refl }) (stolen-IsValid v) refl
move_assign-Moves al false {other} {b} v w = elim (Bool-cases (b.alloc == other.alloc)) [
  | inl e ↦ rw e (
      moved (record { valid = ground arith; same = refl; same_max = refl }) (stolen-IsValid v) refl)
  | inr e ↦ elim (Bool-cases (size other == 0)) [
    | inl z ↦
        rw (e, z)
          (moved
            (empty-Shows (record (clear b) { max_size = other.max_size }) v (ground arith)
              (ground arith) refl refl)
            (clear-IsValid v) refl)
    | inr some_bytes ↦ elim (refill_lem al v w (ground arith)) [
      | inl q ↦ rw (e, some_bytes, q, ◌>>=◌) no_memory
      | inr (c, q, shown) ↦ rw (e, some_bytes, q, ◌>>=◌) (moved shown (clear-IsValid v) refl)
    ]
  ]
]
