-- ===== src/Transfer/AsyncWrite.antt =====
-- include/coio/asyncio/io.h: `async_write`, on `transfer_bytes_sender`, and what it has written.

use coio.Base.{
  ℕ, zero, suc, ◌+◌, ◌-◌, ◌≤◌, ◌<◌, max, ◌≡◌, refl, sym, ap, ◌∙◌, subst, ◌⊎◌, inl, inr, Bool, not,
  none, some, List, [], ◌++◌, arith, if◌then◌else◌, ◌==◌, Bool-cases, length, take, drop, slice,
  length-append, length-take, length-drop, take-append-drop, slice_cong, length-cases,
  drop-append_exact, drop-all, take-all,
}
use coio.Transfer.Writing.{Takes, nothing, some_more}
use coio.Transfer.{Sink, took, refused, Accepts}
use coio.Transfer.Async.{operation_canceled, Transferring, Completed, completed, exhausted}
use mathlib.Core.List.{append_assoc, append-nil}
use mathlib.Core.Path.{ap₂}

-- How `async_write_some` completes.

pub data WriteCompletion (D : Type 0) : Type 0 where
  written : ℕ → D → WriteCompletion D
  write_error : ℕ → D → WriteCompletion D
  write_stopped : D → WriteCompletion D

abbrev pub AsyncSink : Type 0 → Type 0
AsyncSink D = List ℕ → D → WriteCompletion D

-- `buffer = buffer.subspan(bytes_transferred); return not buffer.empty();`, and
-- `accumulated += bytes_transferred`.
unfoldable pub advance_by : ℕ → Transferring → Transferring × Bool
advance_by n s =
    let remaining = s.remaining - n in
    (record s { accumulated = s.accumulated + n; remaining = remaining }, not (remaining == 0))

module _ {D : Type 0} where
  unfoldable pub transfer_out : AsyncSink D → ℕ → Transferring → D → Completed D
  transfer_out sink zero s d = exhausted
  transfer_out sink (suc fuel) s d =
      elim (sink (slice s.buffer (length s.buffer - s.remaining) s.remaining) d) [
        | written n e ↦
            let (t, again) = advance_by n s in
            let rest = transfer_out sink fuel t e in
            if again then rest else completed none t.accumulated t.buffer e
        | write_error x e ↦ completed (some x) s.accumulated s.buffer e
        | write_stopped e ↦ completed (some operation_canceled) s.accumulated s.buffer e
      ]

  -- `async_write(device, buffer)`. It writes at least once, also an empty buffer.
  unfoldable pub async_write : AsyncSink D → List ℕ → D → Completed D
  async_write sink buffer d =
      transfer_out sink (max 1 (length buffer))
        (record { accumulated = 0; buffer = buffer; remaining = length buffer }) d

  -- The device as a synchronous one.
  abbrev pub waited_out : AsyncSink D → Sink D
  waited_out sink xs d = elim (sink xs d) [
    | written n e ↦ took n e
    | write_error x e ↦ refused x e
    | write_stopped e ↦ refused operation_canceled e
  ]

pub WriteCompletion-cases :
    {D : Type 0} (r : WriteCompletion D)
    → ((n : ℕ) × (e : D) × (r ≡ written n e))
      ⊎ (((x : ℕ) × (e : D) × (r ≡ write_error x e)) ⊎ ((e : D) × (r ≡ write_stopped e)))
WriteCompletion-cases (written n e) = inl (n, e, refl)
WriteCompletion-cases (write_error x e) = inr (inl (x, e, refl))
WriteCompletion-cases (write_stopped e) = inr (inr (e, refl))

module _ {D : Type 0} (sink : AsyncSink D) where
  -- What the operation has counted is what the device took, the front of the buffer: all of it, or what
  -- it took before an error.
  pub data CountsOut (d : D) (buffer : List ℕ) (r : Completed D) : Type 0 where
    all_counted :
        {e : D}
        → Takes (waited_out sink) d buffer e
        → r ≡ completed none (length buffer) buffer e
        → CountsOut d buffer r
    part_counted :
        {e f : D} (x : ℕ) (bytes rest : List ℕ)
        → Takes (waited_out sink) d bytes e
        → bytes ++ rest ≡ buffer
        → (0 < length rest) ⊎ (length buffer ≡ 0)
        → waited_out sink rest e ≡ refused x f
        → r ≡ completed (some x) (length bytes) buffer f
        → CountsOut d buffer r

-- The operation behind the bytes of `xs`, in front of `rest`.
abbrev between : List ℕ → List ℕ → Transferring
between xs rest = record { accumulated = length xs; buffer = xs ++ rest; remaining = length rest }

advance_by-between :
    (n : ℕ) (xs rest : List ℕ)
    → n ≤ length rest
    → advance_by n (between xs rest)
      ≡ (between (xs ++ take n rest) (drop n rest), not (length rest - n == 0))
unfolding advance_by
advance_by-between n xs rest h =
    rw
      (
        append_assoc xs (take n rest) (drop n rest),
        take-append-drop n rest,
        length-append xs (take n rest),
        length-drop n rest,
        taken,
      )
      refl
  where
    taken : length (take n rest) ≡ n
    taken = omega (arith, length-take n rest)

rest-seen :
    (xs rest : List ℕ) → slice (xs ++ rest) (length (xs ++ rest) - length rest) (length rest) ≡ rest
rest-seen xs rest =
    slice_cong (xs ++ rest) {j = length xs} {n = length rest} (omega (arith, length-append xs rest))
      refl
    ∙ ap (take (length rest)) (drop-append_exact (length xs) xs rest refl)
    ∙ take-all (length rest) rest (omega arith)

module _ {D : Type 0} (sink : AsyncSink D) (g : Accepts (waited_out sink)) where
  transfer_out-CountsOut :
      (fuel : ℕ) (buffer : List ℕ) (d e : D) (xs rest : List ℕ)
      → Takes (waited_out sink) d xs e
      → xs ++ rest ≡ buffer
      → (0 < length rest) ⊎ (length buffer ≡ 0)
      → 0 < fuel
      → length rest ≤ fuel
      → CountsOut sink d buffer (transfer_out sink fuel (between xs rest) e)
  unfolding transfer_out
  transfer_out-CountsOut zero buffer d e xs rest v h p o q = absurd (omega arith)
  transfer_out-CountsOut (suc fuel) buffer d e xs rest v h p o q =
      elim (WriteCompletion-cases (sink rest e)) [
        | inl (n, f, r) ↦
            let took_n : waited_out sink rest e ≡ took n f = rw (r, waited_out) refl in
            let few : n ≤ length rest = g.fits rest e took_n in
            let more : Takes (waited_out sink) d (xs ++ take n rest) f =
              some_more n rest v few took_n in
            let left : length (drop n rest) ≡ length rest - n = length-drop n rest in
            let whole : (xs ++ take n rest) ++ drop n rest ≡ buffer =
              append_assoc xs (take n rest) (drop n rest)
              ∙ ap (λ zs. xs ++ zs) (take-append-drop n rest)
              ∙ h in
            elim (Bool-cases (length rest - n == 0)) [
              | inl z ↦
                  let gone : drop n rest ≡ [] = drop-all n rest (ground arith) in
                  let all_taken : xs ++ take n rest ≡ buffer =
                    sym (append-nil (xs ++ take n rest))
                    ∙ subst (λ zs. (xs ++ take n rest) ++ zs ≡ buffer) gone whole in
                  all_counted {e = f} (subst (λ zs. Takes (waited_out sink) d zs f) all_taken more)
                    (rw (rest-seen xs rest, transfer_out, r, advance_by-between n xs rest few, z)
                      (ap₂ (λ k zs. completed none k zs f) (ap length all_taken) whole))
              | inr z ↦
                  let some_left : 0 < length (drop n rest) = ground (arith, left) in
                  let some_bytes : 0 < n = g.progress rest e took_n (omega (arith, left)) in
                  rw (rest-seen xs rest, transfer_out, r, advance_by-between n xs rest few, z)
                    (transfer_out-CountsOut fuel buffer d f (xs ++ take n rest) (drop n rest) more
                      whole (inl some_left) (omega (arith, left)) (omega (arith, left)))
            ]
        | inr (inl (x, f, r)) ↦ part_counted {f = f} x xs rest v h p (rw (r, waited_out) refl) (
            rw (rest-seen xs rest, transfer_out, r)
              (ap (λ zs. completed (some x) (length xs) zs f) h))
        | inr (inr (f, r)) ↦
            part_counted {f = f} operation_canceled xs rest v h p (rw (r, waited_out) refl) (
              rw (rest-seen xs rest, transfer_out, r)
                (ap (λ zs. completed (some operation_canceled) (length xs) zs f) h))
      ]

  -- `async_write` to a device that keeps its promises completes without an error when the device has taken the whole buffer, or with the
  -- device's error and how many bytes of the front of the buffer it took before.
  pub async_write-CountsOut :
      (buffer : List ℕ) (d : D) → CountsOut sink d buffer (async_write sink buffer d)
  unfolding async_write
  async_write-CountsOut buffer d =
      transfer_out-CountsOut (max 1 (length buffer)) buffer d d [] buffer nothing refl
        (length-cases buffer) (omega arith) (omega arith)
