-- ===== src/FlatBuffer/Capacity.antt =====
-- `reserve` and `shrink_to_fit`: the readable bytes stay, the capacity follows the request.
use coio.Base.{
  ℕ, ◌+◌, ◌≤◌, ◌<◌, max, ◌≡◌, refl, sym, ap, subst, inl, inr, ◌&&◌, some, List, arith, ltb, leb,
  ◌==◌, Bool-cases, Option-cases, length, drop, length-drop,
}
use coio.Base.Outcome.{Outcome, done, throws, bad_alloc, length_error, ◌>>=◌}
use coio.FlatBuffer.{
  Allocator, Buffer, contents, size, bytes_of, acquire, copy_readable, destroy, reserve,
  shrink_to_fit, reallocate,
}
use coio.FlatBuffer.Contents.{IsValid}
use coio.FlatBuffer.Prepare.{
  front, contents-front, front-IsValid, reallocate_lem, acquire_lem, slide_lem, copy-slice,
}

-- `c` shows the bytes of `b`, in `n` bytes of capacity.
pub record Refitted (b : Buffer) (n : ℕ) (c : Buffer) : Type 0 where
  pub valid : IsValid c
  pub kept : contents c ≡ contents b
  pub same_max : c.max_size ≡ b.max_size
  pub capacity : c.end_ ≡ n

pub data Reserves (b : Buffer) (n : ℕ) : Outcome Buffer ℕ → Type 0 where
  ready :
      {c : Buffer} {k : ℕ} → n ≤ b.max_size → Refitted b (max b.end_ n) c → Reserves b n (done c k)
  too_long : b.max_size < n → Reserves b n (throws b length_error)
  no_memory : b.end_ < n → Reserves b n (throws b bad_alloc)

grown-Reserves :
    (al : Allocator) (n : ℕ) {b : Buffer}
    → IsValid b
    → n ≤ b.max_size
    → b.end_ < n
    → Reserves b n (reallocate al n 0 b)
grown-Reserves al n {b} v h k = elim (reallocate_lem al n 0 v (omega arith) (omega arith)) [
  | inl q ↦ subst (Reserves b n) (sym q) (no_memory k)
  | inr (rest, q, valid) ↦ subst (Reserves b n) (sym q) (
      ready h (record {
        valid = valid;
        kept = contents-front v rest (size b + 0) n;
        same_max = refl;
        capacity = omega arith;
      }))
]

-- `reserve` keeps the readable bytes and the larger of the capacity and the request; it throws
-- `length_error` above the limit, and `bad_alloc` only if it has to grow, with nothing changed.
pub reserve-Reserves :
    (al : Allocator) (n : ℕ) {b : Buffer} → IsValid b → Reserves b n (reserve al n b)
unfolding reserve
reserve-Reserves al n {b} v = elim (Bool-cases (ltb b.max_size n)) [
  | inl e ↦ rw e (too_long (ground arith))
  | inr fits ↦ elim (Bool-cases (leb n b.end_)) [
    | inl e ↦
        rw (fits, e)
          (ready (ground arith)
            (record { valid = v; kept = refl; same_max = refl; capacity = ground arith }))
    | inr grows ↦ rw (fits, grows) (grown-Reserves al n v (ground arith) (ground arith))
  ]
]

pub data Shrinks (b : Buffer) : Outcome Buffer ℕ → Type 0 where
  ready : {c : Buffer} {k : ℕ} → Refitted b (size b) c → Shrinks b (done c k)
  no_memory : Shrinks b (throws b bad_alloc)

empty-Refitted : {b : Buffer} → IsValid b → size b ≡ 0 → Refitted b (size b) (destroy b)
unfolding destroy
empty-Refitted {b} v e = record {
  valid = omega arith;
  kept = rw e;
  same_max = refl;
  capacity = sym e;
}

copied-Shrinks :
    (al : Allocator) {b : Buffer}
    → IsValid b
    → 0 < size b
    → Shrinks b (
        (acquire al b.alloc (size b) >>= λ fresh. copy_readable fresh b (size b) >>= λ filled _.
        done
          (record b { block = some filled; in_ = 0; out_ = size b; last_ = size b; end_ = size b })
          (size b))
          b)
copied-Shrinks al {b} v h = elim (acquire_lem al b.alloc (size b) b) [
  | inl e ↦ rw (e, ◌>>=◌) no_memory
  | inr (fresh, e, l) ↦
      let rest : List ℕ = drop (size b) fresh in
      let shrunk : Refitted b (size b) (front b rest (size b) (size b)) = record {
        valid =
            front-IsValid v rest (size b) (size b) (omega arith) (omega arith)
              (omega (arith, length-drop (size b) fresh)) (omega arith);
        kept = contents-front v rest (size b) (size b);
        same_max = refl;
        capacity = refl;
      } in
      rw (e, ◌>>=◌, copy-slice fresh b v h (omega arith)) (ready shrunk)
]

moved-Refitted :
    {b : Buffer} {xs : List ℕ}
    → IsValid b
    → b.block ≡ some xs
    → size b ≡ b.end_
    → Refitted b (size b) (record (front b (drop (size b) xs) (size b) b.end_) { end_ = b.end_ })
moved-Refitted {b} {xs} v q e =
    let fits : length xs ≡ b.end_ = rw q at v.held in
    record {
      valid =
          front-IsValid v (drop (size b) xs) (size b) b.end_ (omega arith) (omega arith)
            (omega (arith, length-drop (size b) xs)) (omega arith);
      kept = contents-front v (drop (size b) xs) (size b) b.end_;
      same_max = refl;
      capacity = sym e;
    }

-- `shrink_to_fit` keeps the readable bytes in a block of just their number, or throws `bad_alloc`
-- with nothing changed.
pub shrink_to_fit-Shrinks :
    (al : Allocator) {b : Buffer} → IsValid b → Shrinks b (shrink_to_fit al b)
unfolding shrink_to_fit
shrink_to_fit-Shrinks al {b} v = elim (Bool-cases (size b == 0)) [
  | inl e ↦ rw e (ready (empty-Refitted v (ground arith)))
  | inr some_bytes ↦ elim (Bool-cases ((size b == b.end_) && (b.in_ == 0))) [
    | inl e ↦
        rw (some_bytes, e)
          (ready (record { valid = v; kept = refl; same_max = refl; capacity = ground arith }))
    | inr not_exact ↦ elim (Bool-cases (size b == b.end_)) [
      | inl e ↦ elim (Option-cases b.block) [
        | inl q ↦ absurd (ground (arith, ap (λ o. length (bytes_of o)) q))
        | inr (xs, q) ↦
            rw (some_bytes, not_exact, e, slide_lem v q) (ready (moved-Refitted v q (ground arith)))
      ]
      | inr e ↦ rw (some_bytes, not_exact, e) (copied-Shrinks al v (ground arith))
    ]
  ]
]
