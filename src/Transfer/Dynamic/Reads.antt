-- ===== src/Transfer/Dynamic/Reads.antt =====
-- What is read into a dynamic buffer.

use coio.Base.{
  ℕ, ◌+◌, ◌≤◌, ◌<◌, ◌≡◌, refl, ◌∙◌, subst, inl, inr, none, some, List, ◌++◌, arith, length, take,
  drop, length-append, length-drop, replicate, length-replicate, take-all, take-append_exact,
}
use coio.Transfer.Counting.{all_counted, part_counted, async_read-Counts}
use coio.ReadUntil.Loop.{Outcome-cases}
use coio.Transfer.Reading.{Delivers, Fills, all, part, read-Fills}
use coio.Base.Outcome.{Fault, done, throws}
use coio.Transfer.Dynamic.{
  Moved, returned, device_threw, completes, unprepared, committed, prepared, read_dynamic,
  async_read_dynamic,
}
use coio.DynamicBuffer.{DynamicBuffer}
use coio.Transfer.AsyncWrite.{all_counted, part_counted}
use coio.Transfer.{Source, Ran, failed, Supplies}
use coio.Transfer.Async.{AsyncSource, waited}

module _ (B : DynamicBuffer) {D : Type 0} where
  open B use {Buffer, bytes, max_size, prepare, IsGood}

  -- What `read` of `total` bytes promises: the device delivers them all, and the buffer shows them behind
  -- what it showed; or the device throws, and the buffer shows none of what was delivered before.
  pub data ReadsInto (source : Source D) (total : ℕ) (b : Buffer) (d : D) (r : Moved Buffer D)
      : Type 0 where
    all_read :
        (xs : List ℕ) (c : Buffer) (e : D)
        → Delivers source d xs e
        → length xs ≡ total
        → r ≡ returned total c e
        → bytes c ≡ bytes b ++ xs
        → ReadsInto source total b d r
    read_lost :
        (x n : ℕ) (xs : List ℕ) (c : Buffer) (e f : D)
        → Delivers source d xs e
        → length xs < total
        → source n e ≡ failed x f
        → r ≡ device_threw x c f
        → bytes c ≡ bytes b
        → ReadsInto source total b d r
    no_room :
        (x : Fault) (c : Buffer)
        → prepare total b ≡ throws c x
        → r ≡ unprepared x c d
        → ReadsInto source total b d r

  -- What `async_read` promises: the buffer shows what the device delivered, in either case.
  pub data AppendsRead (source : AsyncSource D) (total : ℕ) (b : Buffer) (d : D)
      (r : Moved Buffer D) : Type 0 where
    all_appended :
        (xs : List ℕ) (c : Buffer) (e : D)
        → Delivers (waited source) d xs e
        → length xs ≡ total
        → r ≡ completes none total c e
        → bytes c ≡ bytes b ++ xs
        → AppendsRead source total b d r
    part_appended :
        (x n : ℕ) (xs : List ℕ) (c : Buffer) (e f : D)
        → Delivers (waited source) d xs e
        → length xs < total
        → waited source n e ≡ failed x f
        → r ≡ completes (some x) (length xs) c f
        → bytes c ≡ bytes b ++ xs
        → AppendsRead source total b d r
    not_prepared :
        (x : Fault) (c : Buffer)
        → prepare total b ≡ throws c x
        → r ≡ unprepared x c d
        → AppendsRead source total b d r

module _ (B : DynamicBuffer) {D : Type 0} (total : ℕ) (b : B.Buffer) (d : D) (w : B.IsGood b)
    (p : 0 < total) (room_left : total + length (B.bytes b) ≤ B.max_size b) where
  open B use {Buffer, bytes, max_size, prepare, IsGood}

  -- `read` of `total` bytes, at least one, into a good buffer with room for them, from a device that keeps
  -- its promises: the buffer shows them all, or none of what was delivered before the device threw, or
  -- `prepare` throws.
  pub read_dynamic-ReadsInto :
      (source : Source D)
      → Supplies source
      → ReadsInto B source total b d (read_dynamic B source total b d)
  unfolding read_dynamic
  read_dynamic-ReadsInto source g = elim (Outcome-cases (prepare total b)) [
    | inr (inr u) ↦ absurd (B.prepare_defined total b w room_left u)
    | inr (inl (c, x, u)) ↦ no_room x c u (rw (u, prepared) refl)
    | inl (c, room, u) ↦
        rw (u, prepared) (filled c room u (read-Fills source g (replicate total 0) d))
  ]
    where
      filled :
          (c : Buffer) (room : B.Room)
          → prepare total b ≡ done c room
          → {r : Ran D} → Fills source d (replicate total 0) r
          → ReadsInto B source total b d (committed B total c room r)
      filled c room u (all {bytes = xs} {e = e} v h) =
          let size : length xs ≡ total = h ∙ length-replicate {A = ℕ} total 0 in
          let (shown, good, same) =
            B.prepare_store_commit total xs b c room w p room_left (omega (arith, size)) u in
          all_read xs (B.commit total (B.store room xs c)) e v size refl
            (subst (λ n. bytes (B.commit n (B.store room xs c)) ≡ bytes b ++ xs) size shown)
      filled c room u (part {bytes = xs} {e = e} {f = f} x n v h q) =
          let rest : List ℕ = drop (length xs) (replicate total 0) in
          let fits : length (xs ++ rest) ≤ total = omega (
            arith,
            h,
            length-append xs rest,
            length-drop {A = ℕ} (length xs) (replicate total 0),
            length-replicate {A = ℕ} total 0,
          ) in
          read_lost x n xs (B.store room (xs ++ rest) c) e f v
            (omega (arith, h, length-replicate {A = ℕ} total 0)) q refl
            (B.bytes-prepare_store total (xs ++ rest) b c room w p room_left fits u)

  -- `async_read` of `total` bytes, at least one, into a well-formed dynamic buffer with room for them, from a device
  -- that delivers at least one byte and at most those asked for, or fails: the buffer shows what the device
  -- delivered behind what it showed, all of `total` without an error, and fewer with the device's
  -- error; or `prepare` throws.
  pub async_read_dynamic-AppendsRead :
      (source : AsyncSource D)
      → Supplies (waited source)
      → AppendsRead B source total b d (async_read_dynamic B source total b d)
  unfolding async_read_dynamic
  async_read_dynamic-AppendsRead source g = elim (Outcome-cases (prepare total b)) [
    | inr (inr u) ↦ absurd (B.prepare_defined total b w room_left u)
    | inr (inl (c, x, u)) ↦ not_prepared x c u (rw (u, prepared) refl)
    | inl (c, room, u) ↦
        rw (u, prepared)
          (elim (async_read-Counts source g (replicate total 0) d) [
            | all_counted {bytes = xs} {e = e} v h r ↦
                let size : length xs ≡ total = h ∙ length-replicate {A = ℕ} total 0 in
                let taken : take total xs ≡ xs = take-all total xs (omega (arith, size)) in
                let (shown, good, same) =
                  B.prepare_store_commit total xs b c room w p room_left (omega (arith, size)) u in
                all_appended xs (B.commit total (B.store room xs c)) e v size
                  (rw (r, length-replicate {A = ℕ} total 0, taken) refl)
                  (subst (λ n. bytes (B.commit n (B.store room xs c)) ≡ bytes b ++ xs) size shown)
            | part_counted {bytes = xs} {e = e} {f = f} x n rest v h o q r ↦
                let few : length xs < total =
                  ground (arith, h, o, length-append xs rest, length-replicate {A = ℕ} total 0) in
                let (shown, good, same) =
                  B.prepare_store_commit total xs b c room w p room_left (omega (arith, few)) u in
                part_appended x n xs (B.commit (length xs) (B.store room xs c)) e f v few q
                  (rw (r, take-append_exact (length xs) xs rest refl) refl) shown
          ])
  ]
