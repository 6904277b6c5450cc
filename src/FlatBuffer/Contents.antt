-- ===== src/FlatBuffer/Contents.antt =====
-- The readable bytes of a buffer that is well formed, and how `commit`, `consume` and `clear`
-- change them.
use coio.Base.{
  ℕ, ◌-◌, ◌≤◌, ◌<◌, min, ◌≡◌, refl, sym, ◌∙◌, List, ◌++◌, arith, length, drop, slice, size_mod,
  length-slice, slice_cong, slice-add, drop-slice,
}
use coio.FlatBuffer.{Buffer, contents, bytes_of, size, commit, consume, clear}
use mathlib.Core.Path.{ap₂}

-- The order that the layout comment draws, and a block of the length that `end_` says.
pub record IsValid (b : Buffer) : Type 0 where
  pub readable : b.in_ ≤ b.out_
  pub prepared : b.out_ ≤ b.last_
  pub within : b.last_ ≤ b.end_
  pub held : length (bytes_of b.block) ≡ b.end_
  pub word : b.end_ < size_mod
  pub word_max : b.max_size < size_mod

pub size-eq-sub : {b : Buffer} → IsValid b → size b ≡ b.out_ - b.in_
size-eq-sub v = omega arith

pub commit-IsValid : (n : ℕ) {b : Buffer} → IsValid b → IsValid (commit n b)
unfolding commit
commit-IsValid n v = omega arith

pub consume-IsValid : (n : ℕ) {b : Buffer} → IsValid b → IsValid (consume n b)
unfolding consume
consume-IsValid n v = omega arith

pub clear-IsValid : {b : Buffer} → IsValid b → IsValid (clear b)
unfolding clear
clear-IsValid v = omega arith

-- What a reader of `from` up to `to` sees.
pub contents-eq-slice :
    {b : Buffer} → IsValid b → contents b ≡ slice (bytes_of b.block) b.in_ (b.out_ - b.in_)
contents-eq-slice {b} v = rw (size-eq-sub v)

pub length-contents : {b : Buffer} → IsValid b → length (contents b) ≡ size b
length-contents {b} v = length-slice (bytes_of b.block) b.in_ (size b) (omega arith)

-- `commit` appends the prepared bytes that it covers to the readable ones.
pub contents-commit :
    (n : ℕ) {b : Buffer}
    → IsValid b
    → contents (commit n b)
      ≡ contents b ++ slice (bytes_of b.block) b.out_ (min n (b.last_ - b.out_))
unfolding commit
contents-commit n {b} v =
    slice_cong bytes refl (omega arith)
    ∙ slice-add bytes b.in_ (b.out_ - b.in_) (min n (b.last_ - b.out_))
    ∙ ap₂ ◌++◌ (slice_cong bytes refl (omega arith)) (slice_cong bytes (omega arith) refl)
  where
    bytes : List ℕ
    bytes = bytes_of b.block

-- `consume` drops bytes from the front of the readable ones.
pub contents-consume :
    (n : ℕ) {b : Buffer} → IsValid b → contents (consume n b) ≡ drop n (contents b)
unfolding consume
contents-consume n {b} v =
    slice_cong (bytes_of b.block) (omega arith) (omega arith)
    ∙ sym (drop-slice n b.in_ (size b) (bytes_of b.block))
