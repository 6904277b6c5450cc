-- ===== src/FlatBuffer.antt =====
-- include/coio/utils/flat_buffer.h: `basic_flat_buffer`. A pointer into the block is the index
-- into it; `data_` is the block itself, or `none` for a null pointer.
pub mod Growth
pub mod Contents
pub mod Prepare
pub mod RoundTrip
mod Tests
pub mod Assign
pub mod Capacity
pub mod Overflow
use coio.Base.{
  ℕ, zero, suc, ◌+◌, ◌≡◌, Bool, true, false, ◌&&◌, Option, none, some, List, [], ◌++◌,
  if◌then◌else◌, ltb, leb, ◌==◌, length, drop, slice, add_size, sub_size, mul_size, min, max,
}
use coio.Base.Outcome.{Outcome, done, throws, undefined, bad_alloc, length_error, ◌>>=◌}

-- `std::allocator_traits`: `alloc` names an allocator, two allocators are `==` if they have one
-- name. A fresh block holds any bytes; `none` is a `std::bad_alloc`.
pub record Allocator : Type 0 where
  pub allocate : ℕ → ℕ → Option (List ℕ)
  pub length-allocate : (a n : ℕ) {bytes : List ℕ} → allocate a n ≡ some bytes → length bytes ≡ n

pub record Buffer : Type 0 where
  pub alloc : ℕ
  pub max_size : ℕ
  pub block : Option (List ℕ)
  pub in_ : ℕ
  pub out_ : ℕ
  pub last_ : ℕ
  pub end_ : ℕ

-- `std::span`: where it starts in the block, and how long it is. `{}` is the empty one.
pub record Span : Type 0 where
  pub offset : ℕ
  pub count : ℕ

abbrev pub no_span : Span
no_span = record { offset = 0; count = 0 }

abbrev pub Call : Type 0 → Type 0
Call A = Buffer → Outcome Buffer A

abbrev pub limit : ℕ → Buffer
limit m = record { alloc = 0; max_size = m; block = none; in_ = 0; out_ = 0; last_ = 0; end_ = 0 }

abbrev pub size : Buffer → ℕ
size b = sub_size b.out_ b.in_

abbrev pub empty : Buffer → Bool
empty b = b.in_ == b.out_

abbrev pub capacity : Buffer → ℕ
capacity b = b.end_

abbrev pub has_block : Buffer → Bool
has_block b = elim b.block [ none ↦ false | some _ ↦ true ]

abbrev pub bytes_of : Option (List ℕ) → List ℕ
bytes_of none = []
bytes_of (some xs) = xs

-- `data()`, as the bytes that the span shows.
abbrev pub contents : Buffer → List ℕ
contents b = slice (bytes_of b.block) b.in_ (size b)

-- `std::memcpy(to, from + i, n)` and `std::memmove`; `none` where it leaves one of the blocks.
abbrev pub copy_bytes : List ℕ → Option (List ℕ) → ℕ → ℕ → Option (List ℕ)
copy_bytes to none i n = none
copy_bytes to (some from) i n =
    if leb (i + n) (length from) && leb n (length to)
    then some (slice from i n ++ drop n to)
    else none

abbrev pub defined : {A : Type 0} → Option A → Call A
defined none b = undefined
defined (some a) b = done b a

unfoldable pub acquire : Allocator → ℕ → ℕ → Call (List ℕ)
acquire al a n b = elim (al.allocate a n) [ none ↦ throws b bad_alloc | some xs ↦ done b xs ]

-- The readable bytes of `from`, copied to the front of a block.
abbrev pub copy_readable : List ℕ → Buffer → ℕ → Call (List ℕ)
copy_readable to from len = defined (copy_bytes to from.block from.in_ len)

abbrev pub copy_if_any : List ℕ → ℕ → Call (List ℕ)
copy_if_any to len b = if ltb 0 len then copy_readable to b len b else done b to

unfoldable pub destroy : Buffer → Buffer
destroy b = record b { block = none; in_ = 0; out_ = 0; last_ = 0; end_ = 0 }

-- The doubling loop of `prepare`, on fuel; `none` means that the fuel ran out.
unfoldable pub grow : ℕ → ℕ → ℕ → ℕ → Option ℕ
grow zero new_cap need most = none
grow (suc fuel) new_cap need most =
    let next = mul_size new_cap 2 in
    let rest = grow fuel next need most in
    if ltb new_cap need
    then if ltb new_cap next && leb next most then rest else some (min need most)
    else some new_cap

abbrev pub grow_fuel : ℕ
grow_fuel = 64

-- The last part of `prepare` and of `reserve`: a new block, with the readable bytes at its front.
unfoldable pub reallocate : Allocator → ℕ → ℕ → Call ℕ
reallocate al new_cap n b =
    (acquire al b.alloc new_cap >>= λ fresh. copy_if_any fresh (size b) >>= λ filled _.
    done
      (record (destroy b) {
        block = some filled;
        in_ = 0;
        out_ = size b;
        last_ = add_size (size b) n;
        end_ = new_cap;
      })
      (size b))
      b

unfoldable pub span_at : ℕ → ℕ → Call Span
span_at n offset b = done b (record { offset = offset; count = n })

-- `std::memmove(data_, data_ + in_, len)` if there is anything to move.
unfoldable pub slide : Buffer → Option (List ℕ)
slide b = if ltb 0 (size b) then copy_bytes (bytes_of b.block) b.block b.in_ (size b) else b.block

unfoldable pub compact : ℕ → Call Span
compact n b =
    (defined (slide b) >>= λ moved _.
    span_at n (size b)
      (record b { block = some moved; in_ = 0; out_ = size b; last_ = add_size (size b) n }))
      b

unfoldable pub prepare : Allocator → ℕ → Call Span
prepare al n b =
    if n == 0
    then done b no_span
    else if has_block b && leb n (sub_size b.end_ b.out_)
    then span_at n b.out_ (record b { last_ = add_size b.out_ n })
    else if has_block b && leb n (sub_size b.end_ (size b))
    then compact n b
    else if ltb (sub_size b.max_size (size b)) n
    then throws b length_error
    else (defined (grow grow_fuel (max b.end_ 512) (add_size (size b) n) b.max_size) >>= λ new_cap.
          reallocate al new_cap n >>= λ offset. span_at n offset)
        b

unfoldable pub commit : ℕ → Buffer → Buffer
commit n b = record b { out_ = add_size b.out_ (min n (sub_size b.last_ b.out_)) }

unfoldable pub consume : ℕ → Buffer → Buffer
consume n b = record b { in_ = add_size b.in_ (min n (size b)) }

unfoldable pub clear : Buffer → Buffer
clear b = record b { in_ = 0; out_ = 0; last_ = 0 }

unfoldable pub reserve : Allocator → ℕ → Call ℕ
unfolding reallocate
reserve al n b =
    if ltb b.max_size n
    then throws b length_error
    else if leb n b.end_
    then done b (size b)
    else reallocate al n 0 b

unfoldable pub shrink_to_fit : Allocator → Call ℕ
shrink_to_fit al b =
    let len = size b in
    if len == 0
    then done (destroy b) 0
    else if (len == b.end_) && (b.in_ == 0)
    then done b len
    else if len == b.end_
    then (defined (slide b) >>= λ moved _.
          done (record b { block = some moved; in_ = 0; out_ = len; last_ = len }) len)
        b
    else (acquire al b.alloc len >>= λ fresh. copy_readable fresh b len >>= λ filled _.
          done (record b { block = some filled; in_ = 0; out_ = len; last_ = len; end_ = len }) len)
        b
