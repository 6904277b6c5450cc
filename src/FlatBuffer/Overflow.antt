-- ===== src/FlatBuffer/Overflow.antt =====
-- What a limit below the size of the first block leads to: `prepare` compares with the limit only
-- when it has to allocate, and the first block has 512 bytes whatever the limit is.
use coio.Base.{
  none, ℕ, suc, ◌+◌, ◌≤◌, ◌<◌, min, max, ◌≡◌, ap, ◌∙◌, inl, inr, false, ◌&&◌, some, List, arith,
  ltb, leb, ◌==◌, Option-cases, length, add_size, sub_size, mul_size, size_mod, lt→ltb, none,
}
use coio.Base.Outcome.{done, undefined, >>=-done, >>=-undefined}
use coio.FlatBuffer.{
  Allocator, Buffer, size, prepare, grow, grow_fuel, reallocate, acquire, copy_if_any, span_at,
  has_block, copy_bytes, bytes_of,
}
use coio.FlatBuffer.Contents.{IsValid}

grow-limit :
    (fuel start need most : ℕ)
    → start < need
    → most < start
    → need < size_mod
    → grow (suc fuel) start need most ≡ some (min need most)
unfolding grow
grow-limit fuel start need most h k m =
    let small : ltb start (mul_size start 2) && leb (mul_size start 2) most ≡ false =
      ground arith in
    rw (lt→ltb start need h, small)

copy_if_any-overflow :
    (to : List ℕ) (b : Buffer)
    → 0 < size b
    → length to < size b
    → copy_if_any to (size b) b ≡ undefined
copy_if_any-overflow to b h k = elim (Option-cases b.block) [
  | inl e ↦ rw (lt→ltb 0 (size b) h, e)
  | inr (xs, e) ↦ rw (lt→ltb 0 (size b) h, e) (ground arith)
]

copy_bytes-overflow :
    (to : List ℕ) (b : Buffer) → length to < size b → copy_bytes to b.block b.in_ (size b) ≡ none
copy_bytes-overflow to b h = elim (Option-cases b.block) [
  | inl e ↦ rw e
  | inr (xs, e) ↦ rw e (ground arith)
]

reallocate-undefined :
    (al : Allocator) (n new_cap : ℕ) (b : Buffer) {fresh : List ℕ}
    → new_cap < size b
    → al.allocate b.alloc new_cap ≡ some fresh
    → reallocate al new_cap n b ≡ undefined
unfolding reallocate acquire
reallocate-undefined al n new_cap b {fresh} h got =
    let short : length fresh ≡ new_cap = al.length-allocate b.alloc new_cap got in
    let fetched : acquire al b.alloc new_cap b ≡ done b fresh = rw (got, acquire) in
    >>=-done (acquire al b.alloc new_cap) _ fetched
    ∙ >>=-undefined (copy_if_any fresh (size b)) _
        (copy_if_any-overflow fresh b (omega arith) (omega arith))

-- Once the readable bytes of a well-formed buffer exceed the limit, a `prepare` of `n` bytes that does not fit into
-- the block, with more than 512 but less than 2 ^ 64 bytes in all, and for which the allocator has a block
-- of as many bytes as the limit, chooses that capacity; the readable bytes are in the old block, the new one is
-- shorter, the copy of them into it leaves it, and with that the call is undefined.
pub prepare-undefined :
    (al : Allocator) (n : ℕ) {b : Buffer} {fresh : List ℕ}
    → IsValid b
    → b.max_size < size b
    → b.end_ < size b + n
    → 512 < size b + n
    → size b + n < size_mod
    → al.allocate b.alloc b.max_size ≡ some fresh
    → (grow grow_fuel (max b.end_ 512) (add_size (size b) n) b.max_size ≡ some b.max_size)
      × (b.in_ + size b ≤ length (bytes_of b.block))
      × (length fresh < size b)
      × (copy_bytes fresh b.block b.in_ (size b) ≡ none)
      × (prepare al n b ≡ undefined)
unfolding prepare
prepare-undefined al n {b} {fresh} v over h k m got =
    let nonzero : n == 0 ≡ false = ground arith in
    let no_tail : has_block b && leb n (sub_size b.end_ b.out_) ≡ false = ground arith in
    let no_slide : has_block b && leb n (sub_size b.end_ (size b)) ≡ false = ground arith in
    let wrapped : ltb (sub_size b.max_size (size b)) n ≡ false = ground arith in
    let most : grow grow_fuel (max b.end_ 512) (add_size (size b) n) b.max_size ≡ some b.max_size =
      grow-limit 63 (max b.end_ 512) (add_size (size b) n) b.max_size (omega arith) (omega arith)
        (omega arith)
      ∙ ap some (omega arith) in
    let short : length fresh < size b = omega (arith, al.length-allocate b.alloc b.max_size got) in
    (
      most,
      omega arith,
      short,
      copy_bytes-overflow fresh b short,
      rw (nonzero, no_tail, no_slide, wrapped, most)
          (>>=-undefined (reallocate al b.max_size n) (span_at n)
            (reallocate-undefined al n b.max_size b over got)),
    )
