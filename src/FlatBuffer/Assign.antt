-- ===== src/FlatBuffer/Assign.antt =====
-- Construction and assignment of a buffer from another: copying allocates and copies the readable
-- bytes; moving takes the block over where the allocators allow it.
pub mod Copy
pub mod Move
use coio.Base.{
  ℕ, zero, suc, ◌+◌, ◌-◌, ◌*◌, ◌/◌, ◌%◌, ◌^◌, ◌≤◌, ◌<◌, min, max, ◌≡◌, refl, sym, ap, ◌∙◌, subst,
  ◌≢◌, ◌↔◌, ◌⊎◌, inl, inr, Bool, true, false, ◌&&◌, ◌||◌, not, Option, none, some, List, [], ◌∷◌,
  ◌++◌, map, reverse, arith, dec_lt, dec_le, ℕ_discrete, if◌then◌else◌, ltb, leb, ◌==◌, Bool-cases,
  Option-cases, length, get_elem?, set, take, drop, slice, overwrite, add_size, sub_size, mul_size,
  size_mod, length-append, length-take, length-drop,
}
use coio.Base.Outcome.{Outcome, done, ◌>>=◌, pure}
use coio.FlatBuffer.{
  Allocator, Call, Buffer, limit, size, bytes_of, copy_bytes, defined, acquire, destroy, clear,
}

-- `b` after `n` bytes were put at the front of its block.
abbrev pub refilled : Buffer → List ℕ → ℕ → Buffer
refilled b bytes n = record b { block = some bytes; in_ = 0; out_ = n; last_ = n }

abbrev pub copy_from : Buffer → List ℕ → Call (List ℕ)
copy_from other to = defined (copy_bytes to other.block other.in_ (size other))

-- `select` is `select_on_container_copy_construction`.
unfoldable pub copy_construct : Allocator → (ℕ → ℕ) → Buffer → Outcome Buffer ℕ
copy_construct al select other =
    let start : Buffer = record (limit other.max_size) { alloc = select other.alloc } in
    if ltb 0 (size other)
    then (acquire al (select other.alloc) (size other) >>= λ fresh.
          copy_from other fresh >>= λ filled s.
          done (record (refilled s filled (size other)) { end_ = size other }) (size other))
        start
    else done start 0

-- Both assignments: a larger block if this one is too small, then the bytes of `other`.
unfoldable pub make_room : Allocator → ℕ → Call ℕ
make_room al len b =
    if ltb b.end_ len
    then (acquire al b.alloc len >>= λ fresh s.
          done (record (destroy s) { block = some fresh; end_ = len }) len)
        b
    else done b len

unfoldable pub refill : Allocator → Buffer → Call ℕ
refill al other = make_room al (size other) >>= λ len s.
    (copy_from other (bytes_of s.block) >>= λ filled t. done (refilled t filled len) len) s

abbrev pub foreign : Bool → Buffer → Buffer → Bool
foreign propagate b other = propagate && not (b.alloc == other.alloc)

-- The allocator of an empty copy, with `propagate_on_container_copy_assignment`.
abbrev pub adopt : Bool → Buffer → Buffer → Buffer
adopt propagate other b =
    if foreign propagate b other then record (destroy b) { alloc = other.alloc } else b

abbrev pub limit_of : Buffer → Call ℕ
limit_of other b = done (record b { max_size = other.max_size }) (size other)

-- `same` is the test `this == &other`.
unfoldable pub copy_assign : Allocator → Bool → Bool → Buffer → Call ℕ
copy_assign al propagate same other b =
    if same
    then done b (size other)
    else if size other == 0
    then limit_of other (clear (adopt propagate other b))
    else if foreign propagate b other
    then (acquire al other.alloc (size other) >>= λ fresh. copy_from other fresh >>= λ filled s.
          limit_of other (record (refilled (destroy s) filled (size other)) {
            alloc = other.alloc;
            end_ = size other;
          }))
        b
    else (refill al other >>= λ _. limit_of other) b

-- The members of `other` but its allocator and its limit.
unfoldable pub steal_from : Buffer → Buffer → Buffer
steal_from other b = record b {
  block = other.block;
  in_ = other.in_;
  out_ = other.out_;
  last_ = other.last_;
  end_ = other.end_;
}

-- What `steal_from` leaves of `other`.
abbrev pub stolen : Buffer → Buffer
stolen other = record other { block = none; in_ = 0; out_ = 0; last_ = 0; end_ = 0 }

unfoldable pub move_construct : Buffer → Buffer × Buffer
unfolding steal_from
move_construct other =
    (steal_from other (record (limit other.max_size) { alloc = other.alloc }), stolen other)

abbrev pub with_other : Buffer → Outcome Buffer ℕ → Buffer → Outcome (Buffer × Buffer) ℕ
with_other before (done b n) other = done (b, other) n
with_other before (Outcome.throws b e) other = Outcome.throws (b, before) e
with_other before Outcome.undefined other = Outcome.undefined

unfoldable pub move_assign : Allocator → Bool → Bool → Buffer → Buffer → Outcome (Buffer × Buffer) ℕ
move_assign al propagate same other b =
    if same
    then done (b, b) (size b)
    else if propagate
    then with_other other
        (limit_of other (steal_from other (record (destroy b) { alloc = other.alloc })))
        (stolen other)
    else if b.alloc == other.alloc
    then with_other other (limit_of other (steal_from other (destroy b))) (stolen other)
    else if size other == 0
    then with_other other (limit_of other (clear b)) (clear other)
    else with_other other ((refill al other >>= λ _. limit_of other) b) (clear other)

-- `std::swap` of every member, the allocator only with `propagate_on_container_swap`. Without it
-- the code asserts that the allocators are equal.
unfoldable pub swap : Bool → Buffer → Buffer → Buffer × Buffer
swap propagate b other =
    if propagate
    then (other, b)
    else (record other { alloc = b.alloc }, record b { alloc = other.alloc })
