-- ===== src/StreamBuffer/Reserve.antt =====
-- What `reserve`, `prepare` and `overflow` promise.

use coio.Base.{
  ℕ, ◌+◌, ◌-◌, ◌≤◌, ◌<◌, max, ◌≡◌, refl, ◌∙◌, inl, inr, true, false, ◌&&◌, List, arith, ltb, leb,
  Bool-cases, Option-cases, length, take, drop, slice, add_size, sub_size, size_mod, length-append,
  length-take, length-drop, replicate, take-append_le, length-slice, take-append_exact, slice_cong,
  length-replicate, take-take,
}
use coio.StreamBuffer.Positions.{IsValid, length-contents}
use coio.Base.Outcome.{Outcome, done, throws, bad_alloc, length_error}
use coio.StreamBuffer.{
  Vector, StreamBuffer, resized, size, contents, moved, next_position, positions, reserve,
}

-- There is room for `n` more bytes, and what was shown is.

pub record Reserved (b : StreamBuffer) (n : ℕ) (c : StreamBuffer) : Type 0 where
  pub valid : IsValid c
  pub room : c.pptr + n ≤ c.epptr
  pub kept : contents c ≡ contents b
  pub same_max : c.max_size ≡ b.max_size

-- A `length_error` only if the limit or the vector does not allow `n` more bytes.
pub data Reserves (v : Vector) (b : StreamBuffer) (n : ℕ) (o : Outcome StreamBuffer (Unit {0}))
    : Type 0 where
  ready : (c : StreamBuffer) → o ≡ done c tt → Reserved b n c → Reserves v b n o
  too_long :
      (c : StreamBuffer)
      → o ≡ throws c length_error
      → b.max_size < n + length (contents b)
      → Reserves v b n o
  too_long_vector :
      (c : StreamBuffer)
      → o ≡ throws c length_error
      → v.max_size < n + length (contents b)
      → Reserves v b n o
  no_memory : (c : StreamBuffer) → o ≡ throws c bad_alloc → Reserves v b n o

pub length-resized : (n : ℕ) (xs : List ℕ) → length (resized n xs) ≡ n
length-resized n xs = omega (
  arith,
  length-append (take n xs) (replicate (n - length xs) 0),
  length-take n xs,
  length-replicate {A = ℕ} (n - length xs) 0,
)

take-resized : (k n : ℕ) (xs : List ℕ) → k ≤ n → k ≤ length xs → take k (resized n xs) ≡ take k xs
take-resized k n xs h l =
    take-append_le k (take n xs) (replicate (n - length xs) 0) (omega (arith, length-take n xs))
    ∙ take-take k n xs h

module _ {b : StreamBuffer} (w : IsValid b) where
  pub next-eq-size : next_position b ≡ b.pptr - b.gptr
  next-eq-size = ground arith

  pub length-moved : length (moved b) ≡ length b.buffer
  length-moved = elim (Bool-cases (ltb 0 b.gptr)) [
    | inl z ↦ rw z (
        omega (
          arith,
          length-append (slice b.buffer b.gptr (size b)) (drop (size b) b.buffer),
          length-slice b.buffer b.gptr (size b) (omega arith),
          length-drop (size b) b.buffer,
        ))
    | inr z ↦ rw z refl
  ]

  -- What was moved starts with what was shown.
  front-moved : take (next_position b) (moved b) ≡ contents b
  front-moved = elim (Bool-cases (ltb 0 b.gptr)) [
    | inl z ↦ rw z (
        take-append_exact (size b) (slice b.buffer b.gptr (size b)) (drop (size b) b.buffer)
          (length-slice b.buffer b.gptr (size b) (omega arith)))
    | inr z ↦ rw z (slice_cong b.buffer {i = 0} {j = b.gptr} (ground arith) (ground arith))
  ]

  -- A buffer that shows the same, from its begin on.
  shifted-Reserved :
      (xs : List ℕ) (held pend n : ℕ)
      → take (next_position b) xs ≡ contents b
      → next_position b + n ≤ pend
      → pend ≤ length xs
      → length xs ≤ held
      → pend ≤ b.max_size
      → Reserved b n (positions (next_position b) pend (record b { buffer = xs; capacity = held }))
  shifted-Reserved xs held pend n front enough inside fits most = record {
    valid = record {
      readable = omega arith;
      prepared = omega arith;
      within = inside;
      capped = most;
      held = fits;
      word_max = w.word_max;
    };
    room = enough;
    kept =
        slice_cong xs {i = 0} {j = 0} {n = next_position b} refl (omega (arith, w.word_max))
        ∙ front;
    same_max = refl;
  }

module _ (v : Vector) {b : StreamBuffer} (w : IsValid b) where
  -- `reserve` either makes room and keeps what is shown, or throws.
  pub reserve-Reserves : (n : ℕ) → n < size_mod → Reserves v b n (reserve v n b)
  unfolding reserve
  reserve-Reserves n h =
      let next : next_position b ≡ b.pptr - b.gptr = next-eq-size w in
      let same : length (moved b) ≡ length b.buffer = length-moved w in
      let shown : length (contents b) ≡ size b = length-contents w in
      elim (Bool-cases (leb n (sub_size b.epptr b.pptr))) [
        | inl z ↦ rw z (
            ready b refl (record {
              valid = w;
              room = ground (arith, w.prepared, w.capped, w.word_max);
              kept = refl;
              same_max = refl;
            }))
        | inr z ↦ rw z (elim (Bool-cases (ltb (sub_size b.epptr (next_position b)) n)) [
          | inr y ↦
              let enough : next_position b + n ≤ b.epptr = ground (arith, next) in
              rw y (
                ready (positions (next_position b) b.epptr (record b { buffer = moved b })) refl (
                  shifted-Reserved w (moved b) b.capacity b.epptr n (front-moved w) enough
                    (omega (arith, w.within)) (omega (arith, w.held)) w.capped))
          | inl y ↦
              rw y
                (elim (Bool-cases
                  (leb n b.max_size && leb (next_position b) (sub_size b.max_size n))) [
                    | inr x ↦
                        rw x (too_long (record b { buffer = moved b }) refl (ground (arith, next)))
                    | inl x ↦
                        let fits : next_position b + n ≤ b.max_size = ground (arith, next) in
                        let pend : ℕ = add_size (next_position b) n in
                        let end_at : pend ≡ next_position b + n = omega (arith, fits, w.word_max) in
                        let sized : length (resized (max pend 1) (moved b)) ≡ max pend 1 =
                          length-resized (max pend 1) (moved b) in
                        let front : take (next_position b) (resized (max pend 1) (moved b))
                            ≡ contents b =
                          take-resized (next_position b) (max pend 1) (moved b)
                            (omega (arith, end_at))
                            (omega (arith, same, next, w.prepared, w.within))
                          ∙ front-moved w in
                        rw x (elim (Bool-cases (ltb v.max_size (max pend 1))) [
                          | inl t ↦ rw t (
                              too_long_vector (record b { buffer = moved b }) refl
                                (ground (arith, next, shown, end_at)))
                          | inr t ↦ rw t (elim (Option-cases (v.resize b.capacity (max pend 1))) [
                            | inl q ↦ rw q (no_memory (record b { buffer = moved b }) refl)
                            | inr (more, q) ↦ rw q (
                                ready
                                  (positions (next_position b) pend (record b {
                                    buffer = resized (max pend 1) (moved b);
                                    capacity = more;
                                  }))
                                  refl
                                  (shifted-Reserved w (resized (max pend 1) (moved b)) more pend n
                                    front (omega (arith, end_at)) (omega (arith, sized))
                                    (omega (arith, sized, v.enough b.capacity (max pend 1) q))
                                    (omega (arith, end_at, fits))))
                          ])
                        ])
                  ])
        ])
      ]

-- Where the limit does not allow `n` more bytes, `reserve` throws when it has moved the bytes.
pub reserve-too_long :
    (v : Vector) (n : ℕ) {b : StreamBuffer}
    → IsValid b
    → n < size_mod
    → b.max_size < n + length (contents b)
    → reserve v n b ≡ throws (record b { buffer = moved b }) length_error
unfolding reserve
reserve-too_long v n {b} w h l =
    let next : next_position b ≡ b.pptr - b.gptr = next-eq-size w in
    let shown : length (contents b) ≡ size b = length-contents w in
    let no_room : leb n (sub_size b.epptr b.pptr) ≡ false = ground (arith, shown) in
    let too_short : ltb (sub_size b.epptr (next_position b)) n ≡ true =
      ground (arith, shown, next) in
    let not_allowed : (leb n b.max_size && leb (next_position b) (sub_size b.max_size n)) ≡ false =
      ground (arith, shown, next) in
    rw no_room (rw too_short (rw not_allowed refl))
