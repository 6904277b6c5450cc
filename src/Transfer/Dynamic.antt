-- ===== src/Transfer/Dynamic.antt =====
-- include/coio/asyncio/io.h: the forms of the transfers on a dynamic buffer. The span that `prepare`
-- returns has the size that was asked for, and is taken for zeros; what a transfer stores is written to
-- its front.
pub mod Reads
pub mod Writes
use coio.Base.{
  ℕ, zero, suc, ◌+◌, ◌-◌, ◌*◌, ◌/◌, ◌%◌, ◌^◌, ◌≤◌, ◌<◌, min, max, ◌≡◌, refl, sym, ap, ◌∙◌, subst,
  ◌≢◌, ◌↔◌, ◌⊎◌, inl, inr, Bool, true, false, ◌&&◌, ◌||◌, not, Option, none, some, List, [], ◌∷◌,
  ◌++◌, map, reverse, arith, dec_lt, dec_le, ℕ_discrete, if◌then◌else◌, ltb, leb, ◌==◌, Bool-cases,
  Option-cases, length, get_elem?, set, take, drop, slice, overwrite, add_size, sub_size, mul_size,
  size_mod, length-append, length-take, length-drop, replicate,
}
use coio.Transfer.AsyncAt.{async_read_at, async_write_at}
use coio.Base.Outcome.{Fault, done, throws, undefined}
use coio.DynamicBuffer.{DynamicBuffer}
use coio.Transfer.AsyncWrite.{AsyncSink, async_write, waited_out, CountsOut, async_write-CountsOut}
use coio.Transfer.{
  Source, Sink, took, refused, Accepts, Ran, full, raised, no_fuel, got, failed, Supplies, read,
  write, advance_read, advance_write, read_at, write_at,
}
use coio.Transfer.Async.{
  Completion, value, error, stopped, AsyncSource, operation_canceled, Completed, completed,
  exhausted, async_read, waited, ran_of,
}

-- What a call on a dynamic buffer returns or throws, or its operation completes with; `unprepared` if
-- `prepare` throws.

pub data Moved (B D : Type 0) : Type 0 where
  returned : ℕ → B → D → Moved B D
  device_threw : ℕ → B → D → Moved B D
  completes : Option ℕ → ℕ → B → D → Moved B D
  unprepared : Fault → B → D → Moved B D
  undefined_behaviour : Moved B D
  out_of_fuel : Moved B D

module _ (B : DynamicBuffer) where
  open B use {Buffer, Room, bytes, prepare, store, commit, consume}

  -- `commit(bytes_transferred); return total;`, behind the transfer into the span.
  abbrev pub committed : {D : Type 0} → ℕ → Buffer → Room → Ran D → Moved Buffer D
  committed total c room (full xs e) = returned total (commit total (store room xs c)) e
  committed total c room (raised x xs e) = device_threw x (store room xs c) e
  committed total c room no_fuel = out_of_fuel

  abbrev pub consumed : {D : Type 0} → Buffer → Ran D → Moved Buffer D
  consumed b (full xs e) = returned (length xs) (consume (length xs) b) e
  consumed b (raised x xs e) = device_threw x b e
  consumed b no_fuel = out_of_fuel

  -- What was transferred is committed or consumed with an error too.
  abbrev pub async_committed : {D : Type 0} → Buffer → Room → Completed D → Moved Buffer D
  async_committed c room (completed ec n xs e) =
      completes ec n (commit n (store room (take n xs) c)) e
  async_committed c room exhausted = out_of_fuel

  abbrev pub async_consumed : {D : Type 0} → Buffer → Completed D → Moved Buffer D
  async_consumed b (completed ec n xs e) = completes ec n (consume n b) e
  async_consumed b exhausted = out_of_fuel

  -- `dyn_buffer.prepare(total)`, and what follows it.
  abbrev pub prepared :
      {D : Type 0} → ℕ → Buffer → D → (Buffer → Room → Moved Buffer D) → Moved Buffer D
  prepared total b d next = elim (prepare total b) [
    | throws c e ↦ unprepared e c d
    | undefined ↦ undefined_behaviour
    | done c room ↦ next c room
  ]

module _ (B : DynamicBuffer) {D : Type 0} where
  open B use {Buffer, bytes}

  unfoldable pub read_dynamic : Source D → ℕ → Buffer → D → Moved Buffer D
  read_dynamic source total b d =
      prepared B total b d (λ c room. committed B total c room (read source (replicate total 0) d))

  unfoldable pub write_dynamic : Sink D → Buffer → D → Moved Buffer D
  write_dynamic sink b d = consumed B b (write sink (bytes b) d)

  unfoldable pub async_read_dynamic : AsyncSource D → ℕ → Buffer → D → Moved Buffer D
  async_read_dynamic source total b d =
      prepared B total b d
        (λ c room. async_committed B c room (async_read source (replicate total 0) d))

  unfoldable pub async_write_dynamic : AsyncSink D → Buffer → D → Moved Buffer D
  async_write_dynamic sink b d = async_consumed B b (async_write sink (bytes b) d)

  -- The forms at an offset, which moves beside the device.
  unfoldable pub read_at_dynamic : (ℕ → Source D) → ℕ → ℕ → Buffer → D → Moved Buffer (ℕ × D)
  read_at_dynamic source offset total b d =
      prepared B total b (offset, d)
        (λ c room. committed B total c room (read_at source offset (replicate total 0) d))

  -- `total` is not used.
  unfoldable pub write_at_dynamic : (ℕ → Sink D) → ℕ → ℕ → Buffer → D → Moved Buffer (ℕ × D)
  write_at_dynamic sink offset total b d = consumed B b (write_at sink offset (bytes b) d)

  unfoldable pub async_read_at_dynamic :
      (ℕ → AsyncSource D) → ℕ → ℕ → Buffer → D → Moved Buffer (ℕ × D)
  async_read_at_dynamic source offset total b d =
      prepared B total b (offset, d)
        (λ c room. async_committed B c room (async_read_at source offset (replicate total 0) d))

  unfoldable pub async_write_at_dynamic : (ℕ → AsyncSink D) → ℕ → Buffer → D → Moved Buffer (ℕ × D)
  async_write_at_dynamic sink offset b d =
      async_consumed B b (async_write_at sink offset (bytes b) d)
