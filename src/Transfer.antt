-- ===== src/Transfer.antt =====
-- include/coio/asyncio/io.h: `read`, `write`, `read_at` and `write_at`, which call a device until a
-- whole buffer is transferred. A device is a parameter: a state and one call of `read_some` or
-- `write_some` on it. A byte is a number; an exception carries its error code.
pub mod Reading
pub mod Writing
pub mod Async
pub mod Counting
pub mod AsyncWrite
pub mod AsyncAt
pub mod Dynamic
mod Tests
use coio.Base.{
  ℕ, zero, suc, ◌+◌, ◌-◌, ◌*◌, ◌/◌, ◌%◌, ◌^◌, ◌≤◌, ◌<◌, min, max, ◌≡◌, refl, sym, ap, ◌∙◌, subst,
  ◌≢◌, ◌↔◌, ◌⊎◌, inl, inr, Bool, true, false, ◌&&◌, ◌||◌, not, Option, none, some, List, [], ◌∷◌,
  ◌++◌, map, reverse, arith, dec_lt, dec_le, ℕ_discrete, if◌then◌else◌, ltb, leb, ◌==◌, Bool-cases,
  Option-cases, length, get_elem?, set, take, drop, slice, overwrite, add_size, sub_size, mul_size,
  size_mod, length-append, length-take, length-drop,
}

-- What `read_some` does: it stores bytes at the front of the span, or throws.
pub data Read (D : Type 0) : Type 0 where
  got : List ℕ → D → Read D
  failed : ℕ → D → Read D

-- What `write_some` does: it takes bytes from the front of the span, or throws.
pub data Wrote (D : Type 0) : Type 0 where
  took : ℕ → D → Wrote D
  refused : ℕ → D → Wrote D

-- `device.read_some(buffer)`, of the length of the span, and `device.write_some(buffer)`.
abbrev pub Source : Type 0 → Type 0
Source D = ℕ → D → Read D

abbrev pub Sink : Type 0 → Type 0
Sink D = List ℕ → D → Wrote D

-- What is documented of devices: they move no more than the span holds, and something if it holds
-- anything, since the end of a stream is an error.
pub record Supplies {D : Type 0} (source : Source D) : Type 0 where
  pub fits : (n : ℕ) (d : D) {ys : List ℕ} {e : D} → source n d ≡ got ys e → length ys ≤ n
  pub progress :
      (n : ℕ) (d : D) {ys : List ℕ} {e : D} → source n d ≡ got ys e → 0 < n → 0 < length ys

pub record Accepts {D : Type 0} (sink : Sink D) : Type 0 where
  pub fits : (xs : List ℕ) (d : D) {n : ℕ} {e : D} → sink xs d ≡ took n e → n ≤ length xs
  pub progress :
      (xs : List ℕ) (d : D) {n : ℕ} {e : D} → sink xs d ≡ took n e → 0 < length xs → 0 < n

-- What a transfer comes to, with the bytes of the buffer: `no_fuel` if a loop runs too long.
pub data Ran (D : Type 0) : Type 0 where
  full : List ℕ → D → Ran D
  raised : ℕ → List ℕ → D → Ran D
  no_fuel : Ran D

module _ {D : Type 0} where
  -- `do { remain -= device.read_some(buffer.subspan(total - remain, remain)); } while (remain > 0)`.
  unfoldable pub read_loop : Source D → ℕ → ℕ → ℕ → List ℕ → D → Ran D
  read_loop source zero total remain buffer d = no_fuel
  read_loop source (suc fuel) total remain buffer d = elim (source remain d) [
    | failed e t ↦ raised e buffer t
    | got ys t ↦
        let filled = overwrite (total - remain) ys buffer in
        let left = remain - length ys in
        let rest = read_loop source fuel total left filled t in
        if left == 0 then full filled t else rest
  ]

  -- `read(device, buffer)`. The loop has as many rounds as the buffer has bytes.
  unfoldable pub read : Source D → List ℕ → D → Ran D
  read source buffer d =
      let total = length buffer in
      if total == 0 then full buffer d else read_loop source total total total buffer d

  unfoldable pub write_loop : Sink D → ℕ → ℕ → ℕ → List ℕ → D → Ran D
  write_loop sink zero total remain buffer d = no_fuel
  write_loop sink (suc fuel) total remain buffer d =
      elim (sink (slice buffer (total - remain) remain) d) [
        | refused e t ↦ raised e buffer t
        | took n t ↦
            let rest = write_loop sink fuel total (remain - n) buffer t in
            if remain - n == 0 then full buffer t else rest
      ]

  -- `write(device, buffer)`.
  unfoldable pub write : Sink D → List ℕ → D → Ran D
  write sink buffer d =
      let total = length buffer in
      if total == 0 then full buffer d else write_loop sink total total total buffer d

-- `read_some_at(offset, …); offset += bytes_transferred`: the offset is state of the loop.
module _ {D : Type 0} where
  abbrev pub advance_read : (ℕ → Source D) → Source (ℕ × D)
  advance_read source n (offset, d) = elim (source offset n d) [
    | got ys e ↦ got ys (offset + length ys, e)
    | failed x e ↦ failed x (offset, e)
  ]

  abbrev pub advance_write : (ℕ → Sink D) → Sink (ℕ × D)
  advance_write sink xs (offset, d) = elim (sink offset xs d) [
    | took n e ↦ took n (offset + n, e)
    | refused x e ↦ refused x (offset, e)
  ]

  unfoldable pub read_at : (ℕ → Source D) → ℕ → List ℕ → D → Ran (ℕ × D)
  read_at source offset buffer d = read (advance_read source) buffer (offset, d)

  unfoldable pub write_at : (ℕ → Sink D) → ℕ → List ℕ → D → Ran (ℕ × D)
  write_at sink offset buffer d = write (advance_write sink) buffer (offset, d)
