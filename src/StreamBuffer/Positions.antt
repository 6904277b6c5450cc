-- ===== src/StreamBuffer/Positions.antt =====
-- The positions of a stream buffer that is well formed, and what `commit`, `consume` do to
-- what it shows.

use coio.Base.{
  ℕ, ◌+◌, ◌-◌, ◌^◌, ◌≤◌, ◌<◌, min, ◌≡◌, refl, sym, ◌∙◌, inl, inr, ◌++◌, arith, if◌then◌else◌, ltb,
  Bool-cases, length, drop, slice, sub_size, size_mod, length-slice, slice_cong, slice-add,
  drop-slice,
}
use coio.StreamBuffer.{StreamBuffer, size, contents, bump, commit, consume}
use mathlib.Core.Path.{ap₂}

pub record IsValid (b : StreamBuffer) : Type 0 where
  pub readable : b.gptr ≤ b.pptr
  pub prepared : b.pptr ≤ b.epptr
  pub within : b.epptr ≤ length b.buffer
  pub capped : b.epptr ≤ b.max_size
  pub held : length b.buffer ≤ b.capacity
  pub word_max : b.max_size < size_mod

pub bump_small : (p n : ℕ) → n < 2 ^ 31 → bump p n ≡ p + n
bump_small p n h = ground arith

pub size-eq-sub : {b : StreamBuffer} → IsValid b → size b ≡ b.pptr - b.gptr
size-eq-sub v = omega arith

pub length-contents : {b : StreamBuffer} → IsValid b → length (contents b) ≡ size b
length-contents {b} v = length-slice b.buffer b.gptr (size b) (omega arith)

module _ (n : ℕ) {b : StreamBuffer} (v : IsValid b) (small : b.epptr < 2 ^ 31) where
  put_at : bump b.pptr (min n (sub_size b.epptr b.pptr)) ≡ b.pptr + min n (b.epptr - b.pptr)
  put_at = bump_small b.pptr (min n (sub_size b.epptr b.pptr)) (omega arith) ∙ omega arith

  pub commit-IsValid : IsValid (commit n b)
  unfolding commit
  commit-IsValid = rw put_at (omega arith)

  -- `commit` appends the prepared bytes that it covers to the readable ones.
  pub contents-commit :
      contents (commit n b) ≡ contents b ++ slice b.buffer b.pptr (min n (b.epptr - b.pptr))
  unfolding commit
  contents-commit = rw put_at (
      slice_cong b.buffer refl (omega arith)
      ∙ slice-add b.buffer b.gptr (b.pptr - b.gptr) (min n (b.epptr - b.pptr))
      ∙ ap₂ ◌++◌ (slice_cong b.buffer refl (omega arith)) (slice_cong b.buffer (omega arith) refl))

  taken :
      bump b.gptr (if ltb b.pptr (b.gptr + n) then sub_size b.pptr b.gptr else n)
      ≡ b.gptr + min n (b.pptr - b.gptr)
  taken = elim (Bool-cases (ltb b.pptr (b.gptr + n))) [
    | inl z ↦ rw z (bump_small b.gptr (sub_size b.pptr b.gptr) (omega arith) ∙ ground arith)
    | inr z ↦ rw z (bump_small b.gptr n (ground arith) ∙ ground arith)
  ]

  pub consume-IsValid : IsValid (consume n b)
  unfolding consume
  consume-IsValid = rw taken (omega arith)

  -- `consume` drops readable bytes, as many as there are at most.
  pub contents-consume : contents (consume n b) ≡ drop n (contents b)
  unfolding consume
  contents-consume = rw taken (
      slice_cong b.buffer (omega arith) (omega arith) ∙ sym (drop-slice n b.gptr (size b) b.buffer))
