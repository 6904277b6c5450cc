-- ===== src/Transfer/AsyncAt.antt =====
-- include/coio/asyncio/io.h: `async_read_at` and `async_write_at`, which keep the offset of the next
-- call beside the buffer.
use coio.Base.{ℕ, ◌+◌, ◌<◌, ◌≡◌, refl, sym, ap, ◌∙◌, subst, inl, inr, List, length}
use std.Path.{fun_ext}
use coio.Transfer.Reading.{Supplies-advance}
use coio.Transfer.AsyncWrite.{written, write_error, write_stopped, AsyncSink, async_write}
use coio.Transfer.{Supplies, read, advance_read, read_at}
use coio.Transfer.Async.{
  value, error, stopped, AsyncSource, Completed, async_read, waited, ran_of, Completion-cases,
  async_read-eq-read,
}

module _ {D : Type 0} where
  -- `async_read_some_at(offset, remaining)`, and `offset += bytes_transferred` of the continuation.
  abbrev pub advance_async_read : (ℕ → AsyncSource D) → AsyncSource (ℕ × D)
  advance_async_read source n (offset, d) = elim (source offset n d) [
    | value ys e ↦ value ys (offset + length ys, e)
    | error x e ↦ error x (offset, e)
    | stopped e ↦ stopped (offset, e)
  ]

  abbrev pub advance_async_write : (ℕ → AsyncSink D) → AsyncSink (ℕ × D)
  advance_async_write sink xs (offset, d) = elim (sink offset xs d) [
    | written n e ↦ written n (offset + n, e)
    | write_error x e ↦ write_error x (offset, e)
    | write_stopped e ↦ write_stopped (offset, e)
  ]

  unfoldable pub async_read_at : (ℕ → AsyncSource D) → ℕ → List ℕ → D → Completed (ℕ × D)
  async_read_at source offset buffer d = async_read (advance_async_read source) buffer (offset, d)

  unfoldable pub async_write_at : (ℕ → AsyncSink D) → ℕ → List ℕ → D → Completed (ℕ × D)
  async_write_at sink offset buffer d = async_write (advance_async_write sink) buffer (offset, d)

module _ {D : Type 0} (source : ℕ → AsyncSource D) where
  waited-advance :
      (n : ℕ) (p : ℕ × D)
      → waited (advance_async_read source) n p ≡ advance_read (λ o. waited (source o)) n p
  waited-advance n (o, d) = elim (Completion-cases (source o n d)) [
    | inl (ys, e, q) ↦ rw (advance_read, waited, q) refl
    | inr (inl (x, e, q)) ↦ rw (advance_read, waited, q) refl
    | inr (inr (e, q)) ↦ rw (advance_read, waited, q) refl
  ]

  same_source : waited (advance_async_read source) ≡ advance_read (λ o. waited (source o))
  same_source = fun_ext (λ n. fun_ext (λ p. waited-advance n p))

  -- `async_read_at` into a buffer that is not empty comes to what `read_at` comes to, at the same offset.
  pub async_read_at-eq-read_at :
      ((o : ℕ) → Supplies (waited (source o)))
      → (offset : ℕ) (buffer : List ℕ) (d : D) → 0 < length buffer
      → ran_of (async_read_at source offset buffer d)
        ≡ read_at (λ o. waited (source o)) offset buffer d
  unfolding async_read_at read_at
  async_read_at-eq-read_at g offset buffer d h =
      async_read-eq-read (advance_async_read source)
        (subst Supplies (sym same_source) (Supplies-advance (λ o. waited (source o)) g)) buffer
        (offset, d) h
      ∙ ap (λ s. read s buffer (offset, d)) same_source
