-- ===== src/DynamicBuffer/Flat.antt =====
-- `flat_buffer` as a dynamic buffer.
use coio.Base.{
  ◌∙◌, ℕ, ◌+◌, ◌≤◌, ◌<◌, ◌≡◌, ap, ◌≢◌, inl, inr, List, ◌++◌, arith, Option-cases, length, drop,
  size_mod,
}
use coio.Base.Outcome.{Outcome, done, undefined}
use coio.DynamicBuffer.{DynamicBuffer}
use coio.FlatBuffer.{Buffer, Span, Allocator, contents, prepare, commit, consume, bytes_of}
use coio.FlatBuffer.Contents.{IsValid, commit-IsValid, contents-consume, length-contents}
use coio.FlatBuffer.Prepare.{
  Prepares, ready, too_long, no_memory, Prepared, IsBounded, prepare-Prepares,
}
use coio.FlatBuffer.RoundTrip.{
  contents-fill, fill, contents-prepare-fill-commit, Prepares-done, fill-IsValid,
}

abbrev pub Good : Buffer → Type 0
Good b = IsValid b × IsBounded b

module _ (al : Allocator) where
  pub bounded : (b : Buffer) → Good b → length (contents b) ≤ b.max_size
  bounded b g = omega (arith, length-contents g.0, g.1.capped)

  pub held : (b : Buffer) → Good b → length (contents b) ≤ b.end_
  held b g = omega (arith, length-contents g.0, g.0)

  pub kept :
      (n : ℕ) (b c : Buffer) (s : Span)
      → Good b
      → n + length (contents b) ≤ b.max_size
      → prepare al n b ≡ done c s
      → contents c ≡ contents b
  kept n b c s g h e =
      let p : Prepared b n c s =
        Prepares-done (prepare-Prepares al n g.0 g.1 (omega (arith, g.0.word_max))) e in
      p.kept

  pub defined :
      (n : ℕ) (b : Buffer)
      → Good b
      → n + length (contents b) ≤ b.max_size
      → prepare al n b ≢ undefined
  defined n b g h e = not_undefined (prepare-Prepares al n g.0 g.1 (omega (arith, g.0.word_max))) e
    where
      not_undefined : {o : Outcome Buffer Span} → Prepares b n o → o ≢ undefined
      not_undefined (ready p) q = cc
      not_undefined (too_long p) q = cc
      not_undefined no_memory q = cc

  pub received :
      (n : ℕ) (ys : List ℕ) (b c : Buffer) (s : Span)
      → Good b
      → 0 < n
      → n + length (contents b) ≤ b.max_size
      → length ys ≤ n
      → prepare al n b ≡ done c s
      → (contents (commit (length ys) (fill s ys c)) ≡ contents b ++ ys)
        × Good (commit (length ys) (fill s ys c))
        × ((commit (length ys) (fill s ys c)).max_size ≡ b.max_size)
  unfolding commit fill
  received n ys b c s g p h k e =
      let word : n < size_mod = omega (arith, g.0.word_max) in
      let q : Prepared b n c s = Prepares-done (prepare-Prepares al n g.0 g.1 word) e in
      (
        contents-prepare-fill-commit al n ys g.0 g.1 word p k e,
        (
          commit-IsValid (length ys) (filled q),
          record { first_block = q.bounded.first_block; capped = q.bounded.capped },
        ),
        q.same_max,
      )
    where
      filled : Prepared b n c s → IsValid (fill s ys c)
      filled q =
          let (at_out, to_last) = q.offset (omega arith) in
          elim (Option-cases c.block) [
            | inl r ↦ absurd (omega (arith, q.valid, ap (λ o. length (bytes_of o)) r))
            | inr (xs, r) ↦ fill-IsValid s ys q.valid r at_out (omega arith)
          ]

  pub stored :
      (n : ℕ) (ys : List ℕ) (b c : Buffer) (s : Span)
      → Good b
      → 0 < n
      → n + length (contents b) ≤ b.max_size
      → length ys ≤ n
      → prepare al n b ≡ done c s
      → contents (fill s ys c) ≡ contents b
  stored n ys b c s g p h k e =
      let q : Prepared b n c s =
        Prepares-done (prepare-Prepares al n g.0 g.1 (omega (arith, g.0.word_max))) e in
      let (at_out, to_last) = q.offset (omega arith) in
      elim (Option-cases c.block) [
        | inl r ↦ absurd (omega (arith, q.valid, ap (λ o. length (bytes_of o)) r))
        | inr (xs, r) ↦ contents-fill s ys q.valid r at_out (omega arith) ∙ q.kept
      ]

  pub consumed : (n : ℕ) (b : Buffer) → Good b → contents (consume n b) ≡ drop n (contents b)
  consumed n b g = contents-consume n g.0

  abbrev pub flat_buffer : DynamicBuffer
  flat_buffer = record {
    Buffer = Buffer;
    Room = Span;
    bytes = contents;
    capacity = λ b. b.end_;
    max_size = λ b. b.max_size;
    prepare = prepare al;
    store = fill;
    commit = commit;
    consume = consume;
    IsGood = Good;
    bytes_bounded = bounded;
    bytes_held = held;
    bytes-prepare = kept;
    prepare_defined = defined;
    prepare_store_commit = received;
    bytes-prepare_store = stored;
    bytes-consume = consumed;
  }
