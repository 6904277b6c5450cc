-- ===== src/Transfer/Counting.antt =====
-- What `async_read` counts.

use coio.Base.{
  ℕ, zero, suc, ◌-◌, ◌≤◌, ◌<◌, max, ◌≡◌, refl, sym, ◌⊎◌, inl, inr, not, none, some, List, [], ◌++◌,
  arith, ◌==◌, Bool-cases, length, drop, overwrite, length-append, length-drop, take-append_exact,
  drop-all, length-cases, drop-drop, drop-append_exact,
}
use coio.Transfer.Reading.{Delivers, nothing, some_more}
use coio.Transfer.{got, failed, Supplies}
use coio.Transfer.Async.{
  AsyncSource, operation_canceled, Transferring, Completed, completed, advance, transfer,
  async_read, waited, Completion-cases,
}
use mathlib.Core.List.{append_assoc, append-nil}
use mathlib.Core.Path.{ap₂}

-- The operation behind the bytes of `xs`, in front of `rest`.

abbrev between : List ℕ → List ℕ → Transferring
between xs rest = record { accumulated = length xs; buffer = xs ++ rest; remaining = length rest }

advance-between :
    (ys xs rest : List ℕ)
    → length ys ≤ length rest
    → advance ys (between xs rest)
      ≡ (between (xs ++ ys) (drop (length ys) rest), not (length rest - length ys == 0))
unfolding advance
advance-between ys xs rest h =
    rw (at_rest, stored, sym (length-append xs ys), sym (length-drop (length ys) rest)) refl
  where
    at_rest : length (xs ++ rest) - length rest ≡ length xs
    at_rest = omega (arith, length-append xs rest)

    stored : overwrite (length xs) ys (xs ++ rest) ≡ (xs ++ ys) ++ drop (length ys) rest
    stored =
        rw
          (
            take-append_exact (length xs) xs rest refl,
            sym (drop-drop (length xs) (length ys) (xs ++ rest)),
            drop-append_exact (length xs) xs rest refl,
          )
          (sym (append_assoc xs ys (drop (length ys) rest)))

module _ {D : Type 0} (source : AsyncSource D) where
  -- What the operation has counted is what the device delivered, which stands at the front of the
  -- buffer: all that was asked for, or what came before an error.
  pub data Counts (d : D) (size : ℕ) (r : Completed D) : Type 0 where
    all_counted :
        {bytes : List ℕ} {e : D}
        → Delivers (waited source) d bytes e
        → length bytes ≡ size
        → r ≡ completed none size bytes e
        → Counts d size r
    part_counted :
        {bytes : List ℕ} {e f : D} (x n : ℕ) (rest : List ℕ)
        → Delivers (waited source) d bytes e
        → length (bytes ++ rest) ≡ size
        → (0 < length rest) ⊎ (size ≡ 0)
        → waited source n e ≡ failed x f
        → r ≡ completed (some x) (length bytes) (bytes ++ rest) f
        → Counts d size r

module _ {D : Type 0} (source : AsyncSource D) (g : Supplies (waited source)) where
  transfer-Counts :
      (fuel size : ℕ) (d e : D) (xs rest : List ℕ)
      → Delivers (waited source) d xs e
      → length (xs ++ rest) ≡ size
      → (0 < length rest) ⊎ (size ≡ 0)
      → 0 < fuel
      → length rest ≤ fuel
      → Counts source d size (transfer source fuel (between xs rest) e)
  unfolding transfer
  transfer-Counts zero size d e xs rest v h p o q = absurd (omega arith)
  transfer-Counts (suc fuel) size d e xs rest v h p o q =
      elim (Completion-cases (source (length rest) e)) [
        | inl (ys, f, r) ↦
            let got_ys : waited source (length rest) e ≡ got ys f = rw (r, waited) refl in
            let few : length ys ≤ length rest = g.fits (length rest) e got_ys in
            let more : Delivers (waited source) d (xs ++ ys) f =
              some_more (length rest) ys v got_ys in
            let left : length (drop (length ys) rest) ≡ length rest - length ys =
              length-drop (length ys) rest in
            let next : advance ys (between xs rest)
                ≡ (between (xs ++ ys) (drop (length ys) rest), not (length rest - length ys == 0)) =
              advance-between ys xs rest few in
            elim (Bool-cases (length rest - length ys == 0)) [
              | inl z ↦
                  let none_left : length rest ≤ length ys = ground arith in
                  let ends : length (xs ++ ys) ≡ size =
                    omega (arith, length-append xs ys, length-append xs rest) in
                  all_counted more ends (
                    rw (r, transfer, next, z, drop-all (length ys) rest none_left)
                      (ap₂ (λ n zs. completed none n zs f) ends (append-nil (xs ++ ys))))
              | inr z ↦
                  let some_left : 0 < length (drop (length ys) rest) = ground (arith, left) in
                  let some_bytes : 0 < length ys =
                    g.progress (length rest) e got_ys (omega (arith, left)) in
                  rw (r, transfer, next, z)
                    (transfer-Counts fuel size d f (xs ++ ys) (drop (length ys) rest) more
                      (omega (
                        arith,
                        length-append (xs ++ ys) (drop (length ys) rest),
                        length-append xs ys,
                        length-append xs rest,
                      ))
                      (inl some_left) (omega (arith, left)) (omega (arith, left)))
            ]
        | inr (inl (x, f, r)) ↦
            part_counted {f = f} x (length rest) rest v h p (rw (r, waited) refl)
              (rw (r, transfer) refl)
        | inr (inr (f, r)) ↦
            part_counted {f = f} operation_canceled (length rest) rest v h p (rw (r, waited) refl)
              (rw (r, transfer) refl)
      ]

  -- `async_read` from a device that keeps its promises completes without an error and the size of the buffer, which the device delivered, or
  -- with the device's error and how many bytes it delivered before; they stand at the front of the
  -- buffer.
  pub async_read-Counts :
      (buffer : List ℕ) (d : D) → Counts source d (length buffer) (async_read source buffer d)
  unfolding async_read
  async_read-Counts buffer d =
      transfer-Counts (max 1 (length buffer)) (length buffer) d d [] buffer nothing refl
        (length-cases buffer) (omega arith) (omega arith)
