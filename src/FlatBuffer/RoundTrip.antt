-- ===== src/FlatBuffer/RoundTrip.antt =====
-- Prepare, write through the span, commit: the way that bytes enter the buffer.
use mathlib.Core.Path.{ap₂, subst₂}
use coio.Base.{
  ℕ, ◌+◌, ◌-◌, ◌≤◌, ◌<◌, min, ◌≡◌, sym, ap, ◌∙◌, inl, inr, Option, some, List, ◌++◌, arith,
  Option-cases, length, slice, overwrite, size_mod,
}
use coio.Base.{length-overwrite, slice-overwrite_before, slice-overwrite_self, slice_cong}
use coio.Base.Outcome.{Outcome, done}
use coio.FlatBuffer.{Buffer, Span, Allocator, contents, commit, size, bytes_of, prepare}
use coio.FlatBuffer.Contents.{IsValid, contents-commit}
use coio.FlatBuffer.Prepare.{
  Prepares, ready, too_long, no_memory, Prepared, IsBounded, prepare-Prepares,
}

-- The bytes that a caller writes through a span.
unfoldable pub fill : Span → List ℕ → Buffer → Buffer
fill s ys b = record b {
  block = elim b.block [
    | Option.none ↦ Option.none
    | Option.some xs ↦ some (overwrite s.offset ys xs)
  ];
}

module _ (s : Span) (ys : List ℕ) {b : Buffer} {xs : List ℕ} (v : IsValid b) (e : b.block ≡ some xs)
    (at_out : s.offset ≡ b.out_) (fits : b.out_ + length ys ≤ b.last_) where
  inside : s.offset + length ys ≤ length xs
  inside = omega (arith, v.within, v.held, ap (λ o. length (bytes_of o)) e)

  bytes-fill : bytes_of (fill s ys b).block ≡ overwrite s.offset ys xs
  unfolding fill
  bytes-fill = rw e

  pub fill-IsValid : IsValid (fill s ys b)
  unfolding fill
  fill-IsValid = record {
    readable = v.readable;
    prepared = v.prepared;
    within = v.within;
    held =
        ap length bytes-fill
        ∙ length-overwrite s.offset ys xs inside
        ∙ sym (ap (λ o. length (bytes_of o)) e)
        ∙ v.held;
    word = v.word;
    word_max = v.word_max;
  }

  pub contents-fill : contents (fill s ys b) ≡ contents b
  unfolding fill
  contents-fill =
      ap (λ l. slice l b.in_ (size b)) bytes-fill
      ∙ slice-overwrite_before s.offset b.in_ (size b) ys xs (omega arith) (omega (arith, inside))
      ∙ ap (λ o. slice (bytes_of o) b.in_ (size b)) (sym e)

  -- Bytes written to the prepared span and committed follow the readable ones.
  contents-commit-fill : contents (commit (length ys) (fill s ys b)) ≡ contents b ++ ys
  unfolding fill
  contents-commit-fill =
      contents-commit (length ys) fill-IsValid
      ∙ ap₂ ◌++◌ contents-fill (
          ap (λ l. slice l b.out_ (min (length ys) (b.last_ - b.out_))) bytes-fill
          ∙ slice_cong (overwrite s.offset ys xs) {i = b.out_} {j = s.offset}
              {m = min (length ys) (b.last_ - b.out_)} {n = length ys} (omega arith) (omega arith)
          ∙ slice-overwrite_self s.offset ys xs inside)

pub Prepares-done :
    {b c : Buffer} {n : ℕ} {s : Span} {o : Outcome Buffer Span}
    → Prepares b n o
    → o ≡ done c s
    → Prepared b n c s
Prepares-done {b} {n = n} (ready p) e = subst₂ (Prepared b n) (cc) (cc) p
Prepares-done (too_long h) e = cc
Prepares-done no_memory e = cc

-- In a well-formed buffer whose limit is at least the first block's 512 bytes and not below its capacity, the bytes
-- that are written to the span of a `prepare` that succeeds, of at least one byte and less than 2 ^ 64, and no more
-- bytes than that, and committed come out behind the bytes that were readable.
pub contents-prepare-fill-commit :
    (al : Allocator) (n : ℕ) (ys : List ℕ) {b c : Buffer} {s : Span}
    → IsValid b
    → IsBounded b
    → n < size_mod
    → 0 < n
    → length ys ≤ n
    → prepare al n b ≡ done c s
    → contents (commit (length ys) (fill s ys c)) ≡ contents b ++ ys
contents-prepare-fill-commit al n ys {b} {c} {s} v w hn some_room fits e =
    let p : Prepared b n c s = Prepares-done (prepare-Prepares al n v w hn) e in
    let (at_out, to_last) = p.offset (omega arith) in
    elim (Option-cases c.block) [
      | inl q ↦ absurd (omega (arith, p.valid, ap (λ o. length (bytes_of o)) q))
      | inr (xs, q) ↦
          contents-commit-fill s ys p.valid q at_out (omega arith) ∙ ap (λ l. l ++ ys) p.kept
    ]
