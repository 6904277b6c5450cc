-- ===== src/StreamBuffer/Writing.antt =====
-- What is written through the span that `prepare` returns, and by `overflow`.

use coio.Base.{
  ℕ, ◌+◌, ◌-◌, ◌^◌, ◌≤◌, ◌<◌, ◌≡◌, refl, sym, ap, ◌∙◌, inl, inr, true, ◌&&◌, Option, some, List, [],
  ◌∷◌, ◌++◌, arith, if◌then◌else◌, ltb, ◌==◌, Bool-cases, length, drop, slice, overwrite, sub_size,
  size_mod, length-overwrite, slice-add, slice-overwrite_before, slice_cong, slice-overwrite_self,
  subst,
}
use coio.StreamBuffer.Reserve.{
  Reserved, ready, too_long, no_memory, reserve-Reserves, reserve-too_long, too_long_vector,
}
use coio.StreamBuffer.Positions.{IsValid, length-contents, contents-commit}
use coio.Base.Outcome.{Outcome, done, throws, bad_alloc, length_error, ◌>>=◌}
use coio.StreamBuffer.{
  Vector, StreamBuffer, buffer_delta, size, contents, moved, reserve, prepare, commit, put,
  overflow, store,
}
use mathlib.Core.Path.{ap₂}

module _ {b : StreamBuffer} (w : IsValid b) (ys : List ℕ)
    (fits : b.pptr + length ys ≤ b.epptr) where
  length-stored : length (overwrite b.pptr ys b.buffer) ≡ length b.buffer
  length-stored = length-overwrite b.pptr ys b.buffer (omega (arith, w.within))

  -- What a reader sees once the end is behind the bytes.
  shown-stored :
      slice (overwrite b.pptr ys b.buffer) b.gptr ((b.pptr - b.gptr) + length ys) ≡ contents b ++ ys
  shown-stored =
      slice-add (overwrite b.pptr ys b.buffer) b.gptr (b.pptr - b.gptr) (length ys)
      ∙ ap₂ ◌++◌
          (slice-overwrite_before b.pptr b.gptr (b.pptr - b.gptr) ys b.buffer
              (omega (arith, w.readable)) (omega (arith, w.prepared, w.within))
            ∙ slice_cong b.buffer refl
                (omega (arith, w.readable, w.prepared, w.capped, w.word_max)))
          (slice_cong (overwrite b.pptr ys b.buffer) (omega (arith, w.readable)) refl
            ∙ slice-overwrite_self b.pptr ys b.buffer (omega (arith, w.within)))

  pub store-IsValid : IsValid (store b.pptr ys b)
  unfolding store
  store-IsValid = record {
    readable = w.readable;
    prepared = w.prepared;
    within = omega (arith, length-stored, w.within);
    capped = w.capped;
    held = omega (arith, length-stored, w.held);
    word_max = w.word_max;
  }

  pub contents-store : contents (store b.pptr ys b) ≡ contents b
  unfolding store
  contents-store =
      slice-overwrite_before b.pptr b.gptr (size b) ys b.buffer
        (omega (arith, w.readable, w.prepared, w.capped, w.word_max))
        (omega (arith, w.prepared, w.within))

  -- In a buffer of less than 2 ^ 31 bytes, what was written to the put area, where it fits, and committed
  -- comes out behind what was readable.
  pub contents-commit-store :
      b.epptr < 2 ^ 31 → contents (commit (length ys) (store b.pptr ys b)) ≡ contents b ++ ys
  unfolding store
  contents-commit-store small =
      contents-commit (length ys) store-IsValid small
      ∙ ap₂ ◌++◌ contents-store (
          slice_cong (overwrite b.pptr ys b.buffer) refl (omega arith)
          ∙ slice-overwrite_self b.pptr ys b.buffer (omega (arith, w.within)))

-- What `prepare` of `n` bytes does.
pub data ShowsRoom (v : Vector) (b : StreamBuffer) (n : ℕ) (o : Outcome StreamBuffer ℕ)
    : Type 0 where
  shows : (c : StreamBuffer) → o ≡ done c c.pptr → Reserved b n c → ShowsRoom v b n o
  beyond_limit :
      (c : StreamBuffer)
      → o ≡ throws c length_error
      → b.max_size < n + length (contents b)
      → ShowsRoom v b n o
  beyond_vector :
      (c : StreamBuffer)
      → o ≡ throws c length_error
      → v.max_size < n + length (contents b)
      → ShowsRoom v b n o
  no_more_memory : (c : StreamBuffer) → o ≡ throws c bad_alloc → ShowsRoom v b n o

-- `prepare` of `n` bytes, a 64-bit number, in a well-formed buffer either returns room for them behind what is
-- shown, which it keeps, and the buffer stays well formed under its limit; or it throws: `length_error` only if the
-- limit or the vector's own `max_size` does not allow `n` more bytes, or `bad_alloc`.
pub prepare-ShowsRoom :
    (v : Vector) (n : ℕ) {b : StreamBuffer}
    → IsValid b
    → n < size_mod
    → ShowsRoom v b n (prepare v n b)
unfolding prepare
prepare-ShowsRoom v n {b} w h = elim (reserve-Reserves v w n h) [
  | ready c e r ↦ shows c (rw (e, ◌>>=◌) refl) r
  | too_long c e l ↦ beyond_limit c (rw (e, ◌>>=◌) refl) l
  | too_long_vector c e l ↦ beyond_vector c (rw (e, ◌>>=◌) refl) l
  | no_memory c e ↦ no_more_memory c (rw (e, ◌>>=◌) refl)
]

-- In a well-formed buffer, of which bytes were consumed, a `prepare` that the limit does not allow throws after it has moved the bytes to the front, and the
-- positions stay: what is shown then begins `gptr` bytes later.
pub prepare-too_long :
    (v : Vector) (n : ℕ) {b : StreamBuffer}
    → IsValid b
    → n < size_mod
    → 0 < b.gptr
    → b.max_size < n + length (contents b)
    → (c : StreamBuffer) × (prepare v n b ≡ throws c length_error)
      × (contents c ≡ slice (contents b ++ drop (size b) b.buffer) b.gptr (size b))
unfolding prepare
prepare-too_long v n {b} w h p l =
    let thrown : reserve v n b ≡ throws (record b { buffer = moved b }) length_error =
      reserve-too_long v n w h l in
    let moves : ltb 0 b.gptr ≡ true = ground arith in
    (record b { buffer = moved b }, rw (thrown, ◌>>=◌) refl, rw moves refl)

-- `overflow` of a byte.
pub data Overflows (v : Vector) (b : StreamBuffer) (c : ℕ) (o : Outcome StreamBuffer (Option ℕ))
    : Type 0 where
  puts :
      (d : StreamBuffer)
      → o ≡ done d (some c)
      → IsValid d
      → contents d ≡ contents b ++ c ∷ []
      → Overflows v b c o
  full :
      (d : StreamBuffer)
      → o ≡ throws d length_error
      → length (contents b) ≡ b.max_size
      → Overflows v b c o
  full_vector :
      (d : StreamBuffer)
      → o ≡ throws d length_error
      → v.max_size < buffer_delta + length (contents b)
      → Overflows v b c o
  no_place : (d : StreamBuffer) → o ≡ throws d bad_alloc → Overflows v b c o

put-Overflows :
    {v : Vector} (c : ℕ) {b : StreamBuffer}
    → IsValid b
    → b.pptr < b.epptr
    → Overflows v b c (put c b)
put-Overflows c {b} w h =
    let inside : ltb b.pptr (length b.buffer) ≡ true = ground arith in
    let same : length (overwrite b.pptr (c ∷ []) b.buffer) ≡ length b.buffer =
      length-stored w (c ∷ []) (omega arith) in
    let valid : IsValid
        (record b { buffer = overwrite b.pptr (c ∷ []) b.buffer; pptr = b.pptr + 1 }) =
      record {
        readable = omega arith;
        prepared = omega arith;
        within = omega (arith, same);
        capped = w.capped;
        held = omega (arith, same);
        word_max = w.word_max;
      } in
    rw inside (
      puts (record b { buffer = overwrite b.pptr (c ∷ []) b.buffer; pptr = b.pptr + 1 }) refl valid
        (slice_cong (overwrite b.pptr (c ∷ []) b.buffer) refl (omega arith)
          ∙ shown-stored w (c ∷ []) (omega arith)))

Overflows-Reserved :
    {v : Vector} {b d : StreamBuffer} {n c : ℕ} {o : Outcome StreamBuffer (Option ℕ)}
    → Reserved b n d
    → Overflows v d c o
    → Overflows v b c o
Overflows-Reserved {c = c} r (puts e q w k) = puts e q w (k ∙ ap (λ xs. xs ++ c ∷ []) r.kept)
Overflows-Reserved r (full e q l) = full e q (sym (ap length r.kept) ∙ l ∙ r.same_max)
Overflows-Reserved {v = v} r (full_vector e q l) =
    full_vector e q (subst (λ k. v.max_size < buffer_delta + k) (ap length r.kept) l)
Overflows-Reserved r (no_place e q) = no_place e q

-- On a well-formed buffer, `overflow` of a byte appends it to what is shown, or throws, a `length_error` only if the limit is
-- reached, or the vector is near its `max_size`.
pub overflow-Overflows :
    (v : Vector) (c : ℕ) {b : StreamBuffer} → IsValid b → Overflows v b c (overflow v (some c) b)
unfolding overflow
overflow-Overflows v c {b} w = elim (Bool-cases (b.pptr == b.epptr)) [
  | inr z ↦ rw z (put-Overflows c w (ground arith))
  | inl z ↦
      let left : ℕ = sub_size b.max_size (size b) in
      let request : ℕ =
        if ltb (size b) b.max_size && ltb left buffer_delta then left else buffer_delta in
      let shown : length (contents b) ≡ size b = length-contents w in
      let positive : 0 < request = ground arith in
      rw z (elim (reserve-Reserves v w request (ground arith)) [
        | ready d e r ↦
            rw (e, ◌>>=◌)
              (Overflows-Reserved r (put-Overflows c r.valid (omega (arith, r.room, positive))))
        | too_long d e l ↦ rw (e, ◌>>=◌) (full d refl (ground (arith, shown)))
        | too_long_vector d e l ↦ rw (e, ◌>>=◌) (full_vector d refl (ground (arith, shown)))
        | no_memory d e ↦ rw (e, ◌>>=◌) (no_place d refl)
      ])
]
