-- ===== src/StreamBuffer/Dynamic.antt =====
-- A stream buffer as a dynamic buffer, if its limit is below 2 ^ 31.

use coio.Base.{ℕ, ◌+◌, ◌^◌, ◌≤◌, ◌<◌, ◌≡◌, sym, ap, ◌∙◌, subst, ◌≢◌, List, ◌++◌, arith, length}
use coio.DynamicBuffer.{DynamicBuffer}
use coio.StreamBuffer.Writing.{
  ShowsRoom, shows, beyond_limit, beyond_vector, no_more_memory, prepare-ShowsRoom, store-IsValid,
  contents-store, contents-commit-store,
}
use coio.StreamBuffer.Reserve.{Reserved}
use coio.StreamBuffer.Positions.{IsValid, length-contents, commit-IsValid, contents-consume}
use coio.Base.Outcome.{Outcome, done, undefined}
use coio.StreamBuffer.{Vector, StreamBuffer, contents, prepare, commit, consume, store}

abbrev pub IsGood : StreamBuffer → Type 0
IsGood b = IsValid b × (b.max_size < 2 ^ 31)

-- What a `prepare` that returns promises.
ShowsRoom-done :
    {v : Vector} {b c : StreamBuffer} {n i : ℕ} {o : Outcome StreamBuffer ℕ}
    → ShowsRoom v b n o
    → o ≡ done c i
    → (i ≡ c.pptr) × Reserved b n c
ShowsRoom-done {b} {c} {n = n} {i = i} (shows d e r) h =
    let same : done d d.pptr ≡ done c i = sym e ∙ h in (cc, subst (Reserved b n) (cc) r)
ShowsRoom-done (beyond_limit d e l) h = absurd cc
ShowsRoom-done (beyond_vector d e l) h = absurd cc
ShowsRoom-done (no_more_memory d e) h = absurd cc

module _ (v : Vector) where
  pub prepared :
      (n : ℕ) (b c : StreamBuffer) (i : ℕ)
      → IsGood b
      → n + length (contents b) ≤ b.max_size
      → prepare v n b ≡ done c i
      → (i ≡ c.pptr) × Reserved b n c
  prepared n b c i g h e =
      ShowsRoom-done (prepare-ShowsRoom v n g.0 (omega (arith, g.0.word_max))) e

  pub bounded : (b : StreamBuffer) → IsGood b → length (contents b) ≤ b.max_size
  bounded b g = omega (arith, length-contents g.0, g.0.readable, g.0.prepared, g.0.capped, g.1)

  pub held : (b : StreamBuffer) → IsGood b → length (contents b) ≤ b.capacity
  held b g = omega (
    arith,
    length-contents g.0,
    g.0.readable,
    g.0.prepared,
    g.0.within,
    g.0.held,
    g.0.capped,
    g.1,
  )

  pub defined :
      (n : ℕ) (b : StreamBuffer)
      → IsGood b
      → n + length (contents b) ≤ b.max_size
      → prepare v n b ≢ undefined
  defined n b g h e = elim (prepare-ShowsRoom v n g.0 (omega (arith, g.0.word_max))) [
    | shows d q r ↦ cc
    | beyond_limit d q l ↦ cc
    | beyond_vector d q l ↦ cc
    | no_more_memory d q ↦ cc
  ]

  pub received :
      (n : ℕ) (ys : List ℕ) (b c : StreamBuffer) (i : ℕ)
      → IsGood b
      → 0 < n
      → n + length (contents b) ≤ b.max_size
      → length ys ≤ n
      → prepare v n b ≡ done c i
      → (contents (commit (length ys) (store i ys c)) ≡ contents b ++ ys)
        × IsGood (commit (length ys) (store i ys c))
        × ((commit (length ys) (store i ys c)).max_size ≡ b.max_size)
  unfolding commit store
  received n ys b c i g p h k e =
      let (at_put, r) = prepared n b c i g h e in
      let fits : c.pptr + length ys ≤ c.epptr = omega (arith, r.room) in
      let small : c.epptr < 2 ^ 31 = omega (arith, r.valid.capped, r.same_max, g.1) in
      rw at_put (
        contents-commit-store r.valid ys fits small ∙ ap (λ xs. xs ++ ys) r.kept,
        (
          commit-IsValid (length ys) (store-IsValid r.valid ys fits) small,
          omega (arith, r.same_max, g.1),
        ),
        r.same_max,
      )

  pub stored :
      (n : ℕ) (ys : List ℕ) (b c : StreamBuffer) (i : ℕ)
      → IsGood b
      → 0 < n
      → n + length (contents b) ≤ b.max_size
      → length ys ≤ n
      → prepare v n b ≡ done c i
      → contents (store i ys c) ≡ contents b
  stored n ys b c i g p h k e =
      let (at_put, r) = prepared n b c i g h e in
      rw at_put (contents-store r.valid ys (omega (arith, r.room)) ∙ r.kept)

  abbrev pub stream_buffer : DynamicBuffer
  stream_buffer = record {
    Buffer = StreamBuffer;
    Room = ℕ;
    bytes = contents;
    capacity = λ b. b.capacity;
    max_size = λ b. b.max_size;
    prepare = prepare v;
    store = store;
    commit = commit;
    consume = consume;
    IsGood = IsGood;
    bytes_bounded = bounded;
    bytes_held = held;
    bytes-prepare = λ n b c i g h e. (prepared n b c i g h e).1.kept;
    prepare_defined = defined;
    prepare_store_commit = received;
    bytes-prepare_store = stored;
    bytes-consume = λ n b g. contents-consume n g.0 (omega (arith, g.0.capped, g.1));
  }
