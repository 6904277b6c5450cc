-- ===== src/FlatBuffer/Prepare.antt =====
-- `prepare` on every branch, and the round trip of prepare, write and commit.
use coio.Base.{
  ℕ, ◌+◌, ◌-◌, ◌≤◌, ◌<◌, ◌≡◌, ◌≢◌, ◌⊎◌, inl, inr, refl, List, ◌++◌, some, arith, length, drop, max,
  size_mod, true, Bool-cases, Option-cases, ltb, leb, ◌==◌, ◌&&◌, length-append, length-drop,
  take-append_exact, ◌∙◌, sym, subst, sub_size, add_size, ap,
}
use coio.Base.Outcome.{Outcome, done, throws, bad_alloc, length_error, >>=-done, >>=-throws, ◌>>=◌}
use coio.FlatBuffer.{
  Allocator, Buffer, Span, contents, bytes_of, has_block, size, prepare, reallocate, grow,
  grow_fuel, copy_bytes, acquire, slide, compact, copy_if_any, span_at, destroy, defined,
}
use coio.FlatBuffer.Growth.{grow_fuel_total}
use coio.FlatBuffer.Contents.{IsValid, length-contents}

-- The buffer's own limit is kept: its capacity is within it, and it leaves room for the first block.
pub record IsBounded (b : Buffer) : Type 0 where
  pub first_block : 512 ≤ b.max_size
  pub capped : b.end_ ≤ b.max_size

-- What `prepare n` promises of each outcome on buffer `b`.
pub record Prepared (b : Buffer) (n : ℕ) (c : Buffer) (s : Span) : Type 0 where
  pub valid : IsValid c
  pub bounded : IsBounded c
  pub kept : contents c ≡ contents b
  pub same_max : c.max_size ≡ b.max_size
  pub count : s.count ≡ n
  pub offset : n ≢ 0 → (s.offset ≡ c.out_) × (c.last_ ≡ c.out_ + n)

pub data Prepares (b : Buffer) (n : ℕ) : Outcome Buffer Span → Type 0 where
  ready : {c : Buffer} {s : Span} → Prepared b n c s → Prepares b n (done c s)
  too_long : b.max_size < size b + n → Prepares b n (throws b length_error)
  no_memory : Prepares b n (throws b bad_alloc)

-- The two copies of the readable bytes to the front of a block stay inside both blocks.
pub copy-slice :
    (to : List ℕ) (b : Buffer)
    → IsValid b
    → 0 < size b
    → size b ≤ length to
    → copy_bytes to b.block b.in_ (size b) ≡ some (contents b ++ drop (size b) to)
copy-slice to b v h k = elim (Option-cases b.block) [
  | inl e ↦ absurd (omega (arith, ap (λ o. length (bytes_of o)) e))
  | inr (xs, e) ↦ let fits : length xs ≡ b.end_ = rw e at v.held in rw e (ground arith)
]

pub slide_lem :
    {b : Buffer} {xs : List ℕ}
    → IsValid b
    → b.block ≡ some xs
    → slide b ≡ some (contents b ++ drop (size b) xs)
unfolding slide
slide_lem {b} {xs} v e = elim (Bool-cases (ltb 0 (size b))) [
  | inl some_bytes ↦
      rw (some_bytes, copy-slice (bytes_of b.block) b v (ground arith) (omega arith)) (rw e)
  | inr no_bytes ↦ let nothing : size b ≡ 0 = ground arith in rw (no_bytes, e, nothing)
]

pub copy_if_any_lem :
    (to : List ℕ) {b : Buffer}
    → IsValid b
    → size b ≤ length to
    → copy_if_any to (size b) b ≡ done b (contents b ++ drop (size b) to)
copy_if_any_lem to {b} v h = elim (Bool-cases (ltb 0 (size b))) [
  | inl some_bytes ↦ rw (some_bytes, copy-slice to b v (ground arith) h)
  | inr no_bytes ↦ let nothing : size b ≡ 0 = ground arith in rw (no_bytes, nothing)
]

-- `b` with its readable bytes moved to the front of a block, before `rest`.
abbrev pub front : Buffer → List ℕ → ℕ → ℕ → Buffer
front b rest last capacity = record b {
  block = some (contents b ++ rest);
  in_ = 0;
  out_ = size b;
  last_ = last;
  end_ = capacity;
}

module _ {b : Buffer} (v : IsValid b) (rest : List ℕ) (last capacity : ℕ) where
  pub contents-front : contents (front b rest last capacity) ≡ contents b
  contents-front =
      take-append_exact (sub_size (size b) 0) (contents b) rest (omega (arith, length-contents v))

  pub front-IsValid :
      size b ≤ last
      → last ≤ capacity
      → size b + length rest ≡ capacity
      → capacity < size_mod
      → IsValid (front b rest last capacity)
  front-IsValid p q r s = omega (arith, length-append (contents b) rest, length-contents v)

compact_lem :
    (n : ℕ) (b : Buffer)
    → IsValid b
    → IsBounded b
    → n < size_mod
    → has_block b && leb n (sub_size b.end_ (size b)) ≡ true
    → Prepares b n (compact n b)
unfolding compact span_at
compact_lem n b v w hn e = elim (Option-cases b.block) [
  | inl q ↦ ground arith
  | inr (xs, q) ↦
      let fits : length xs ≡ b.end_ = rw q at v.held in
      let room : size b + n ≤ b.end_ = ground arith in
      let rest : List ℕ = drop (size b) xs in
      let filled : Prepared b n (front b rest (add_size (size b) n) b.end_)
          (record { offset = size b; count = n }) =
        record {
          valid =
              front-IsValid v rest (add_size (size b) n) b.end_ (omega arith) (omega arith)
                (omega (arith, length-drop (size b) xs)) (omega arith);
          bounded = record { first_block = w.first_block; capped = w.capped };
          kept = contents-front v rest (add_size (size b) n) b.end_;
          same_max = refl;
          count = refl;
          offset = λ _. (refl, omega arith);
        } in
      rw (slide_lem v q) (ready filled)
]

pub acquire_lem :
    (al : Allocator) (a n : ℕ) (b : Buffer)
    → (acquire al a n b ≡ throws b bad_alloc)
      ⊎ ((fresh : List ℕ) × (acquire al a n b ≡ done b fresh) × (length fresh ≡ n))
unfolding acquire
acquire_lem al a n b = elim (Option-cases (al.allocate a n)) [
  | inl e ↦ inl (rw (e, acquire))
  | inr (fresh, e) ↦ inr (fresh, rw (e, acquire), al.length-allocate a n e)
]

-- A reallocation leaves the buffer as it was, or moves the readable bytes to the new block.
pub reallocate_lem :
    (al : Allocator) (new_cap n : ℕ) {b : Buffer}
    → IsValid b
    → size b + n ≤ new_cap
    → new_cap < size_mod
    → (reallocate al new_cap n b ≡ throws b bad_alloc)
      ⊎ ((rest : List ℕ) × (reallocate al new_cap n b
            ≡ done (front b rest (size b + n) new_cap) (size b))
          × IsValid (front b rest (size b + n) new_cap))
unfolding reallocate destroy
reallocate_lem al new_cap n {b} v h m = elim (acquire_lem al b.alloc new_cap b) [
  | inl e ↦ inl (>>=-throws (acquire al b.alloc new_cap) _ e)
  | inr (fresh, e, l) ↦ inr (
    drop (size b) fresh,
    >>=-done (acquire al b.alloc new_cap) _ e
        ∙ >>=-done (copy_if_any fresh (size b)) _ (copy_if_any_lem fresh v (omega arith))
        ∙ ap (λ t. done (front b (drop (size b) fresh) t new_cap) (size b)) (omega arith),
    front-IsValid v (drop (size b) fresh) (size b + n) new_cap (omega arith) (omega arith)
        (omega (arith, length-drop (size b) fresh)) (omega arith),
  )
]

-- The part of `prepare` behind the choice of a capacity.
finish_lem :
    (al : Allocator) (n c : ℕ) {b : Buffer}
    → IsValid b
    → IsBounded b
    → size b + n ≤ c
    → c ≤ b.max_size
    → Prepares b n ((reallocate al c n >>= λ offset. span_at n offset) b)
unfolding span_at
finish_lem al n c {b} v w h within = elim (reallocate_lem al c n v h (omega arith)) [
  | inl q ↦ subst (Prepares b n) (sym (>>=-throws (reallocate al c n) (span_at n) q)) no_memory
  | inr (rest, q, valid) ↦ subst (Prepares b n) (sym (>>=-done (reallocate al c n) (span_at n) q)) (
      ready (record {
        valid = valid;
        bounded = record { first_block = w.first_block; capped = within };
        kept = contents-front v rest (size b + n) c;
        same_max = refl;
        count = refl;
        offset = λ _. (refl, refl);
      }))
]

grown_lem :
    (al : Allocator) (n : ℕ) {b : Buffer}
    → IsValid b
    → IsBounded b
    → size b + n ≤ b.max_size
    → Prepares b n (
        (defined (grow grow_fuel (max b.end_ 512) (add_size (size b) n) b.max_size) >>= λ new_cap.
        reallocate al new_cap n >>= λ offset. span_at n offset)
          b)
grown_lem al n {b} v w h =
    let (c, e, covers, within, keeps) =
      grow_fuel_total (max b.end_ 512) (add_size (size b) n) b.max_size (omega arith) (omega arith)
        (omega arith) (omega arith) in
    rw e (finish_lem al n c v w (omega arith) within)

claim_lem :
    (n : ℕ) (b : Buffer)
    → IsValid b
    → IsBounded b
    → n ≤ b.end_ - b.out_
    → Prepares b n (span_at n b.out_ (record b { last_ = add_size b.out_ n }))
unfolding span_at
claim_lem n b v w h = ready (record {
  valid = omega arith;
  bounded = record { first_block = w.first_block; capped = w.capped };
  kept = refl;
  same_max = refl;
  count = refl;
  offset = λ _. (refl, omega arith);
})

-- From a well-formed buffer whose limit is at least the first block's 512 bytes and not below its
-- capacity, `prepare` shows a span of `n` bytes behind the readable ones, which it keeps, and the
-- buffer stays so; or it throws and changes nothing: `length_error` only if the limit does not
-- allow `n` more bytes, or `bad_alloc`.
pub prepare-Prepares :
    (al : Allocator) (n : ℕ) {b : Buffer}
    → IsValid b
    → IsBounded b
    → n < size_mod
    → Prepares b n (prepare al n b)
unfolding prepare
prepare-Prepares al n {b} v w hn = elim (Bool-cases (n == 0)) [
  | inl e ↦ rw e (
      ready (record {
        valid = v;
        bounded = w;
        kept = refl;
        same_max = refl;
        count = ground arith;
        offset = λ h. absurd (h (ground arith));
      }))
  | inr nz ↦ elim (Bool-cases (has_block b && leb n (sub_size b.end_ b.out_))) [
    | inl e ↦ rw (nz, e) (claim_lem n b v w (ground arith))
    | inr ne ↦ elim (Bool-cases (has_block b && leb n (sub_size b.end_ (size b)))) [
      | inl e ↦ rw (nz, ne, e) (compact_lem n b v w hn e)
      | inr ne' ↦ elim (Bool-cases (ltb (sub_size b.max_size (size b)) n)) [
        | inl e ↦ rw (nz, ne, ne', e) (too_long (ground arith))
        | inr fits ↦ rw (nz, ne, ne', fits) (grown_lem al n v w (ground arith))
      ]
    ]
  ]
]
