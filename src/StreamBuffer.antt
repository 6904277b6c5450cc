-- ===== src/StreamBuffer.antt =====
-- include/coio/utils/streambuf.h: `basic_streambuf`. The pointers of `std::streambuf` are indices into
-- `buffer_`; `eback()` is always its begin.
pub mod Positions
pub mod Reserve
pub mod Writing
pub mod Dynamic
mod Tests
use coio.Base.{
  ℕ, zero, suc, ◌+◌, ◌-◌, ◌*◌, ◌/◌, ◌%◌, ◌^◌, ◌≤◌, ◌<◌, min, max, ◌≡◌, refl, sym, ap, ◌∙◌, subst,
  ◌≢◌, ◌↔◌, ◌⊎◌, inl, inr, Bool, true, false, ◌&&◌, ◌||◌, not, Option, none, some, List, [], ◌∷◌,
  ◌++◌, map, reverse, arith, dec_lt, dec_le, ℕ_discrete, if◌then◌else◌, ltb, leb, ◌==◌, Bool-cases,
  Option-cases, length, get_elem?, set, take, drop, slice, overwrite, add_size, sub_size, mul_size,
  size_mod, length-append, length-take, length-drop, replicate,
}
use coio.Base.Outcome.{Outcome, done, throws, undefined, Fault, bad_alloc, length_error, ◌>>=◌}

-- `std::vector`: its `resize` throws a `length_error` for a size above `max_size`, and otherwise gives the
-- capacity for the size, or `none` for a `bad_alloc`.
pub record Vector : Type 0 where
  pub max_size : ℕ
  pub resize : ℕ → ℕ → Option ℕ
  pub enough : (capacity n : ℕ) {c : ℕ} → resize capacity n ≡ some c → n ≤ c

pub record StreamBuffer : Type 0 where
  pub max_size : ℕ
  pub buffer : List ℕ
  pub capacity : ℕ
  pub gptr : ℕ
  pub egptr : ℕ
  pub pptr : ℕ
  pub epptr : ℕ

abbrev pub buffer_delta : ℕ
buffer_delta = 128

-- The elements that `resize` adds are 0.
abbrev pub resized : ℕ → List ℕ → List ℕ
resized n xs = take n xs ++ replicate (n - length xs) 0

-- The constructor; `none` if the vector throws.
unfoldable pub streambuf : Vector → ℕ → Option StreamBuffer
streambuf v max_size =
    let pend = min max_size buffer_delta in
    if ltb v.max_size (max pend 1) then none else elim (v.resize 0 (max pend 1)) [
      | none ↦ none
      | some cap ↦ some (record {
        max_size = max_size;
        buffer = resized (max pend 1) [];
        capacity = cap;
        gptr = 0;
        egptr = 0;
        pptr = 0;
        epptr = pend;
      })
    ]

abbrev pub size : StreamBuffer → ℕ
size b = sub_size b.pptr b.gptr

-- `data()`, as the bytes that the span shows.
abbrev pub contents : StreamBuffer → List ℕ
contents b = slice b.buffer b.gptr (size b)

-- `pbump(int(n))` and `gbump(int(n))`: the number is narrowed to 32 bits with a sign. A position before
-- the buffer, which is undefined, is 0 here.
abbrev pub bump : ℕ → ℕ → ℕ
bump position n =
    let low = n % 2 ^ 32 in if ltb low (2 ^ 31) then position + low else position - (2 ^ 32 - low)

-- `std::memmove(&buffer_[0], &buffer_[0] + gnext, pnext)` and `pnext -= gnext`, if `gnext > 0`.
abbrev pub moved : StreamBuffer → List ℕ
moved b =
    if ltb 0 b.gptr then slice b.buffer b.gptr (size b) ++ drop (size b) b.buffer else b.buffer

abbrev pub next_position : StreamBuffer → ℕ
next_position b = if ltb 0 b.gptr then size b else b.pptr

-- The last two lines of `reserve`.
abbrev pub positions : ℕ → ℕ → StreamBuffer → StreamBuffer
positions pnext pend b = record b { gptr = 0; egptr = pnext; pptr = pnext; epptr = pend }

-- An exception leaves what was moved under the old positions.
unfoldable pub reserve : Vector → ℕ → StreamBuffer → Outcome StreamBuffer (Unit {0})
reserve v n b =
    let pnext = next_position b in
    let after = record b { buffer = moved b } in
    let pend = add_size pnext n in
    if leb n (sub_size b.epptr b.pptr)
    then done b tt
    else if ltb (sub_size b.epptr pnext) n
    then if leb n b.max_size && leb pnext (sub_size b.max_size n)
      then (if ltb v.max_size (max pend 1)
          then throws after length_error
          else elim (v.resize b.capacity (max pend 1)) [
            | none ↦ throws after bad_alloc
            | some cap ↦
                done
                  (positions pnext pend
                    (record after { buffer = resized (max pend 1) (moved b); capacity = cap }))
                  tt
          ])
      else throws after length_error
    else done (positions pnext b.epptr after) tt

-- The span starts at the index that is returned, and has `n` bytes.
unfoldable pub prepare : Vector → ℕ → StreamBuffer → Outcome StreamBuffer ℕ
prepare v n b = (reserve v n >>= λ _ c. done c c.pptr) b

unfoldable pub commit : ℕ → StreamBuffer → StreamBuffer
commit n b =
    let put = bump b.pptr (min n (sub_size b.epptr b.pptr)) in record b { pptr = put; egptr = put }

unfoldable pub consume : ℕ → StreamBuffer → StreamBuffer
consume n b =
    let most = if ltb b.pptr (b.gptr + n) then sub_size b.pptr b.gptr else n in
    record b { gptr = bump b.gptr most; egptr = max b.egptr b.pptr }

-- `underflow()`: the byte at `gptr`, or `none` for the end of the file.
unfoldable pub underflow : StreamBuffer → StreamBuffer × Option ℕ
underflow b =
    if ltb b.gptr b.pptr
    then (record b { egptr = b.pptr }, get_elem? b.buffer b.gptr)
    else (b, none)

-- `*pptr() = c; pbump(1); return c;`
abbrev pub put : ℕ → StreamBuffer → Outcome StreamBuffer (Option ℕ)
put c b =
    if ltb b.pptr (length b.buffer)
    then done (record b { buffer = overwrite b.pptr (c ∷ []) b.buffer; pptr = bump b.pptr 1 })
        (some c)
    else undefined

-- `overflow(c)`, in which `none` is the end of the file. `not_eof` returns what is not that, 0 here.
unfoldable pub overflow : Vector → Option ℕ → StreamBuffer → Outcome StreamBuffer (Option ℕ)
overflow v none b = done b (some 0)
overflow v (some c) b =
    let left = sub_size b.max_size (size b) in
    let request = if ltb (size b) b.max_size && ltb left buffer_delta then left else buffer_delta in
    if b.pptr == b.epptr then (reserve v request >>= λ _. put c) b else put c b

-- The bytes that a caller writes to the span.
unfoldable pub store : ℕ → List ℕ → StreamBuffer → StreamBuffer
store offset ys b = record b { buffer = overwrite offset ys b.buffer }
