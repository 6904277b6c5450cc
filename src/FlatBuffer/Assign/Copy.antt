-- ===== src/FlatBuffer/Assign/Copy.antt =====
-- Copies of a buffer: the bytes that the original shows, or `bad_alloc` and no change.
use coio.Base.{
  ℕ, ◌≤◌, ◌<◌, ◌≡◌, refl, ◌∙◌, ◌⊎◌, inl, inr, Bool, false, some, List, ◌++◌, arith, ltb, ◌==◌,
  Bool-cases, length, drop, size_mod, length-drop,
}
use coio.Base.Outcome.{Outcome, done, throws, bad_alloc, >>=-done, >>=-throws, ◌>>=◌}
use coio.FlatBuffer.{Allocator, Buffer, contents, size, bytes_of, destroy, clear, limit}
use coio.FlatBuffer.Contents.{IsValid}
use coio.FlatBuffer.Prepare.{acquire_lem, copy-slice, contents-front, front-IsValid}
use coio.FlatBuffer.Assign.{
  refilled, copy_from, copy_construct, make_room, refill, foreign, adopt, copy_assign,
}

-- `c` is a copy of what `other` shows, under its limit.
pub record Shows (other c : Buffer) : Type 0 where
  pub valid : IsValid c
  pub same : contents c ≡ contents other
  pub same_max : c.max_size ≡ other.max_size

pub data Copies (other before : Buffer) : Outcome Buffer ℕ → Type 0 where
  copied : {c : Buffer} {n : ℕ} → Shows other c → Copies other before (done c n)
  no_memory : Copies other before (throws before bad_alloc)

copy_from-done :
    (other : Buffer) (to : List ℕ) (s : Buffer)
    → IsValid other
    → 0 < size other
    → size other ≤ length to
    → copy_from other to s ≡ done s (contents other ++ drop (size other) to)
copy_from-done other to s v h k = rw (copy-slice to other v h k)

-- A target whose block begins with the bytes of `other`.
module _ {other : Buffer} (v : IsValid other) (to : List ℕ) (capacity : ℕ)
    (fits : length to ≡ capacity) (room : size other ≤ capacity) (word : capacity < size_mod) where
  abbrev filled : List ℕ
  filled = contents other ++ drop (size other) to

  refilled-IsValid :
      (s : Buffer)
      → s.max_size < size_mod
      → IsValid (record (refilled s filled (size other)) { end_ = capacity })
  refilled-IsValid s h =
      let f =
        front-IsValid v (drop (size other) to) (size other) capacity (omega arith) (omega arith)
          (omega (arith, length-drop (size other) to)) (omega arith) in
      record {
        readable = f.readable;
        prepared = f.prepared;
        within = f.within;
        held = f.held;
        word = f.word;
        word_max = h;
      }

  refilled-Shows :
      (s : Buffer)
      → s.max_size ≡ other.max_size
      → Shows other (record (refilled s filled (size other)) { end_ = capacity })
  refilled-Shows s h = record {
    valid = refilled-IsValid s (omega (arith, v.word_max));
    same = contents-front v (drop (size other) to) (size other) capacity;
    same_max = h;
  }

-- An empty buffer shows what an empty one shows.
pub empty-Shows :
    {other : Buffer} (c : Buffer)
    → IsValid other
    → size other ≡ 0
    → IsValid c
    → size c ≡ 0
    → c.max_size ≡ other.max_size
    → Shows other c
empty-Shows {other} c v e w f m = record { valid = w; same = rw (e, f); same_max = m }

-- A buffer copied from a well-formed one shows what that shows, or `bad_alloc` is thrown.
pub copy_construct-Copies :
    (al : Allocator) (select : ℕ → ℕ) {other : Buffer}
    → IsValid other
    → Copies other
        (record (limit other.max_size) { alloc = select other.alloc })
        (copy_construct al select other)
unfolding copy_construct
copy_construct-Copies al select {other} v = elim (Bool-cases (ltb 0 (size other))) [
  | inr e ↦ rw e (
      copied (
        empty-Shows (record (limit other.max_size) { alloc = select other.alloc }) v (ground arith)
          (omega arith) refl refl))
  | inl e ↦
      let start : Buffer = record (limit other.max_size) { alloc = select other.alloc } in
      elim (acquire_lem al (select other.alloc) (size other) start) [
        | inl q ↦ rw (e, q, ◌>>=◌) no_memory
        | inr (fresh, q, l) ↦
            rw (e, q, ◌>>=◌, copy_from-done other fresh start v (ground arith) (omega arith))
              (copied
                (refilled-Shows v fresh (size other) l (omega arith) (omega arith) start refl))
      ]
]

-- A block that holds `len` bytes, the old one or a new one.
make_room_lem :
    (al : Allocator) (len : ℕ) {b : Buffer}
    → IsValid b
    → len < size_mod
    → (make_room al len b ≡ throws b bad_alloc)
      ⊎ ((s : Buffer) × (make_room al len b ≡ done s len)
          × (len ≤ s.end_)
          × (length (bytes_of s.block) ≡ s.end_)
          × (s.end_ < size_mod))
unfolding make_room
make_room_lem al len {b} w h = elim (Bool-cases (ltb b.end_ len)) [
  | inl small ↦ elim (acquire_lem al b.alloc len b) [
    | inl q ↦ inl (rw (small, q, ◌>>=◌))
    | inr (fresh, q, l) ↦ inr (
      record (destroy b) { block = some fresh; end_ = len },
      rw (small, q, ◌>>=◌),
      omega arith,
      l,
      h,
    )
  ]
  | inr large ↦ inr (b, rw large, ground arith, w.held, w.word)
]

-- `refill` shows the bytes of `other`, once the limit is taken over.
pub refill_lem :
    (al : Allocator) {other b : Buffer}
    → IsValid other
    → IsValid b
    → 0 < size other
    → (refill al other b ≡ throws b bad_alloc)
      ⊎ ((c : Buffer) × (refill al other b ≡ done c (size other))
          × Shows other (record c { max_size = other.max_size }))
unfolding refill
refill_lem al {other} {b} v w h = elim (make_room_lem al (size other) w (omega arith)) [
  | inl q ↦ inl (>>=-throws (make_room al (size other)) _ q)
  | inr (s, q, room, held, word) ↦
      let bytes : List ℕ = bytes_of s.block in
      inr (
        refilled s (contents other ++ drop (size other) bytes) (size other),
        >>=-done (make_room al (size other)) _ q
            ∙ >>=-done (copy_from other bytes) _ (copy_from-done other bytes s v h (omega arith)),
        refilled-Shows v bytes s.end_ held room word (record s { max_size = other.max_size }) refl,
      )
]

cleared-Shows :
    (propagate : Bool) {other b : Buffer}
    → IsValid other
    → IsValid b
    → size other ≡ 0
    → Shows other (record (clear (adopt propagate other b)) { max_size = other.max_size })
unfolding clear destroy
cleared-Shows propagate {other} {b} v w e =
    empty-Shows (record (clear (adopt propagate other b)) { max_size = other.max_size }) v e
      (ground arith) (ground arith) refl

-- Between two buffers that are well formed, copy assignment makes the target show what the original
-- shows, under its limit, or throws `bad_alloc` and leaves the target as it was.
pub copy_assign-Copies :
    (al : Allocator) (propagate : Bool) {other b : Buffer}
    → IsValid other
    → IsValid b
    → Copies other b (copy_assign al propagate false other b)
unfolding copy_assign
copy_assign-Copies al propagate {other} {b} v w = elim (Bool-cases (size other == 0)) [
  | inl e ↦ rw e (copied (cleared-Shows propagate v w (ground arith)))
  | inr some_bytes ↦ elim (Bool-cases (foreign propagate b other)) [
    | inl e ↦ elim (acquire_lem al other.alloc (size other) b) [
      | inl q ↦ rw (some_bytes, e, q, ◌>>=◌) no_memory
      | inr (fresh, q, l) ↦
          rw (some_bytes, e, q, ◌>>=◌, copy_from-done other fresh b v (ground arith) (omega arith))
            (copied (
              refilled-Shows v fresh (size other) l (omega arith) (omega arith)
                (record (destroy b) { alloc = other.alloc; max_size = other.max_size }) refl))
    ]
    | inr e ↦ elim (refill_lem al v w (ground arith)) [
      | inl q ↦ rw (some_bytes, e, q, ◌>>=◌) no_memory
      | inr (c, q, shown) ↦ rw (some_bytes, e, q, ◌>>=◌) (copied shown)
    ]
  ]
]
