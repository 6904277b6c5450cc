-- ===== src/Transfer/Async.antt =====
-- include/coio/asyncio/io.h: `async_read`, on `transfer_bytes_sender` and `io_sender_factory`, and that
-- it does what `read` does.
use coio.Base.{
  ℕ, zero, suc, ◌+◌, ◌-◌, ◌≤◌, ◌<◌, max, ◌≡◌, refl, subst, ◌⊎◌, inl, inr, Bool, false, not, Option,
  none, some, List, arith, if◌then◌else◌, ◌==◌, Bool-cases, length, overwrite, length-overwrite,
}
use coio.Transfer.{Source, got, failed, Supplies, Ran, full, raised, no_fuel, read_loop, read}

-- How `async_read_some` completes.
pub data Completion (D : Type 0) : Type 0 where
  value : List ℕ → D → Completion D
  error : ℕ → D → Completion D
  stopped : D → Completion D

abbrev pub AsyncSource : Type 0 → Type 0
AsyncSource D = ℕ → D → Completion D

-- `std::errc::operation_canceled`.
abbrev pub operation_canceled : ℕ
operation_canceled = 125

-- `transfer_bytes_state_base`, with what the factory keeps: the bytes of the buffer and how many of them
-- remain.
pub record Transferring : Type 0 where
  pub accumulated : ℕ
  pub buffer : List ℕ
  pub remaining : ℕ

-- `set_value(ec, n)` of the whole operation: `none` is no error.
pub data Completed (D : Type 0) : Type 0 where
  completed : Option ℕ → ℕ → List ℕ → D → Completed D
  exhausted : Completed D

-- `buffer = buffer.subspan(bytes_transferred); return not buffer.empty();`, behind the read that stored
-- `ys` at the front of the span, and `accumulated += bytes_transferred`.
unfoldable pub advance : List ℕ → Transferring → Transferring × Bool
advance ys s =
    let remaining = s.remaining - length ys in
    (
      record {
        accumulated = s.accumulated + length ys;
        buffer = overwrite (length s.buffer - s.remaining) ys s.buffer;
        remaining = remaining;
      },
      not (remaining == 0),
    )

module _ {D : Type 0} where
  -- The operation from one `start` on: the receiver restarts it, or completes.
  unfoldable pub transfer : AsyncSource D → ℕ → Transferring → D → Completed D
  transfer source zero s d = exhausted
  transfer source (suc fuel) s d = elim (source s.remaining d) [
    | value ys e ↦
        let (t, again) = advance ys s in
        let rest = transfer source fuel t e in
        if again then rest else completed none t.accumulated t.buffer e
    | error x e ↦ completed (some x) s.accumulated s.buffer e
    | stopped e ↦ completed (some operation_canceled) s.accumulated s.buffer e
  ]

  -- `async_read(device, buffer)`. It reads at least once, also into an empty buffer.
  unfoldable pub async_read : AsyncSource D → List ℕ → D → Completed D
  async_read source buffer d =
      transfer source (max 1 (length buffer))
        (record { accumulated = 0; buffer = buffer; remaining = length buffer }) d

  -- The device as a synchronous one.
  abbrev pub waited : AsyncSource D → Source D
  waited source n d = elim (source n d) [
    | value ys e ↦ got ys e
    | error x e ↦ failed x e
    | stopped e ↦ failed operation_canceled e
  ]

  -- What the operation completed with, as the result of a call.
  abbrev pub ran_of : Completed D → Ran D
  ran_of (completed none n buffer e) = full buffer e
  ran_of (completed (some x) n buffer e) = raised x buffer e
  ran_of exhausted = no_fuel

pub Completion-cases :
    {D : Type 0} (r : Completion D)
    → ((ys : List ℕ) × (e : D) × (r ≡ value ys e))
      ⊎ (((x : ℕ) × (e : D) × (r ≡ error x e)) ⊎ ((e : D) × (r ≡ stopped e)))
Completion-cases (value ys e) = inl (ys, e, refl)
Completion-cases (error x e) = inr (inl (x, e, refl))
Completion-cases (stopped e) = inr (inr (e, refl))

module _ {D : Type 0} (source : AsyncSource D) (g : Supplies (waited source)) where
  -- From the same place on, the operation and the loop of `read` do the same.
  transfer-read_loop :
      (fuel : ℕ) (s : Transferring) (d : D)
      → s.remaining ≤ length s.buffer
      → ran_of (transfer source fuel s d)
        ≡ read_loop (waited source) fuel (length s.buffer) s.remaining s.buffer d
  unfolding transfer read_loop advance
  transfer-read_loop zero s d h = refl
  transfer-read_loop (suc fuel) s d h = elim (Completion-cases (source s.remaining d)) [
    | inl (ys, e, q) ↦
        let few : length ys ≤ s.remaining =
          g.fits s.remaining d {ys = ys} {e = e} (rw (q, waited) refl) in
        let stored : List ℕ = overwrite (length s.buffer - s.remaining) ys s.buffer in
        let same : length stored ≡ length s.buffer =
          length-overwrite (length s.buffer - s.remaining) ys s.buffer (omega arith) in
        let t : Transferring = record {
          accumulated = s.accumulated + length ys;
          buffer = stored;
          remaining = s.remaining - length ys;
        } in
        let next : ran_of (transfer source fuel t e)
            ≡ read_loop (waited source) fuel (length s.buffer) (s.remaining - length ys) stored e =
          subst
            (λ k.
              ran_of (transfer source fuel t e)
              ≡ read_loop (waited source) fuel k (s.remaining - length ys) stored e)
            same (transfer-read_loop fuel t e (omega arith)) in
        rw (q, transfer, read_loop, advance)
          (elim (Bool-cases (s.remaining - length ys == 0)) [
            | inl z ↦ rw z refl
            | inr z ↦ rw z next
          ])
    | inr (inl (x, e, q)) ↦ rw (q, transfer, read_loop) refl
    | inr (inr (e, q)) ↦ rw (q, transfer, read_loop) refl
  ]

  -- `async_read` into a buffer that is not empty, from a device that keeps its promises, comes to what `read` comes to, and a completion that
  -- cancels the operation to the error `operation_canceled`.
  pub async_read-eq-read :
      (buffer : List ℕ) (d : D)
      → 0 < length buffer
      → ran_of (async_read source buffer d) ≡ read (waited source) buffer d
  unfolding async_read read
  async_read-eq-read buffer d h =
      rw (empty, read, rounds)
        (transfer-read_loop (length buffer)
          (record { accumulated = 0; buffer = buffer; remaining = length buffer }) d (omega arith))
    where
      empty : (length buffer == 0) ≡ false
      empty = ground arith

      rounds : max 1 (length buffer) ≡ length buffer
      rounds = omega arith
