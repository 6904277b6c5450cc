-- ===== src/Transfer/Reading.antt =====
-- What `read` and `read_at` have read.
use coio.Base.{
  ℕ, zero, suc, ◌+◌, ◌-◌, ◌≤◌, ◌<◌, ◌≡◌, refl, sym, ◌⊎◌, inl, inr, List, [], ◌∷◌, ◌++◌, arith, ◌==◌,
  Bool-cases, length, drop, overwrite, length-append, take-append_exact, drop-all, drop-drop,
  drop-append_exact,
}
use coio.Transfer.{
  Source, got, failed, Ran, full, raised, Read, Supplies, read_loop, read, advance_read, read_at,
}
use mathlib.Core.List.{append_assoc, append-nil}

-- The device gives these bytes, in one or more calls.
pub data Delivers {D : Type 0} (source : Source D) (d : D) : List ℕ → D → Type 0 where
  nothing : Delivers source d [] d
  some_more :
      {xs : List ℕ} {e : D} {f : D} (n : ℕ) (ys : List ℕ)
      → Delivers source d xs e
      → source n e ≡ got ys f
      → Delivers source d (xs ++ ys) f

-- What a transfer into `buffer` promises: all of it is what the device delivers, or the device throws,
-- and the front of the buffer is what it had delivered.
pub data Fills {D : Type 0} (source : Source D) (d : D) (buffer : List ℕ) : Ran D → Type 0 where
  all :
      {bytes : List ℕ} {e : D}
      → Delivers source d bytes e
      → length bytes ≡ length buffer
      → Fills source d buffer (full bytes e)
  part :
      {bytes : List ℕ} {e f : D} (x n : ℕ)
      → Delivers source d bytes e
      → length bytes < length buffer
      → source n e ≡ failed x f
      → Fills source d buffer (raised x (bytes ++ drop (length bytes) buffer) f)

pub Read-cases :
    {D : Type 0} (r : Read D)
    → ((ys : List ℕ) × (e : D) × (r ≡ got ys e)) ⊎ ((x : ℕ) × (e : D) × (r ≡ failed x e))
Read-cases (got ys e) = inl (ys, e, refl)
Read-cases (failed x e) = inr (x, e, refl)

nil_of_length : (xs : List ℕ) → length xs ≡ 0 → xs ≡ []
nil_of_length [] h = refl
nil_of_length (x ∷ xs) h = absurd (omega arith)

overwrite-behind :
    (i : ℕ) (xs ys buffer : List ℕ)
    → length xs ≡ i
    → overwrite i ys (xs ++ drop i buffer) ≡ xs ++ ys ++ drop (length (xs ++ ys)) buffer
overwrite-behind i xs ys buffer h =
    rw
      (
        take-append_exact i xs (drop i buffer) h,
        sym (drop-drop i (length ys) (xs ++ drop i buffer)),
        drop-append_exact i xs (drop i buffer) h,
        drop-drop i (length ys) buffer,
        length-append xs ys,
        h,
      )
      (sym (append_assoc xs ys (drop (i + length ys) buffer)))

module _ {D : Type 0} (source : Source D) (g : Supplies source) (buffer : List ℕ) (d : D) where
  -- The loop behind the bytes of `xs`.
  read_loop-Fills :
      (fuel remain : ℕ) (xs : List ℕ) (e : D)
      → Delivers source d xs e
      → length xs + remain ≡ length buffer
      → 0 < remain
      → remain ≤ fuel
      → Fills source d buffer
          (read_loop source fuel (length buffer) remain (xs ++ drop (length xs) buffer) e)
  unfolding read_loop
  read_loop-Fills zero remain xs e v h p q = absurd (omega arith)
  read_loop-Fills (suc fuel) remain xs e v h p q = elim (Read-cases (source remain e)) [
    | inr (x, f, r) ↦ rw (r, read_loop) (part x remain v (omega arith) r)
    | inl (ys, f, r) ↦
        let few : length ys ≤ remain = g.fits remain e r in
        let some_bytes : 0 < length ys = g.progress remain e r p in
        let at_xs : length buffer - remain ≡ length xs = omega arith in
        let more : Delivers source d (xs ++ ys) f = some_more remain ys v r in
        let stored : overwrite (length buffer - remain) ys (xs ++ drop (length xs) buffer)
            ≡ xs ++ ys ++ drop (length (xs ++ ys)) buffer =
          rw at_xs (overwrite-behind (length xs) xs ys buffer refl) in
        let total : length (xs ++ ys) ≡ length xs + length ys = length-append xs ys in
        rw (r, read_loop, stored)
          (elim (Bool-cases (remain - length ys == 0)) [
            | inl z ↦
                let all_read : length (xs ++ ys) ≡ length buffer =
                  ground (arith, total, few, h, z) in
                rw (z, drop-all (length (xs ++ ys)) buffer (omega arith), append-nil (xs ++ ys))
                  (all more all_read)
            | inr z ↦
                let left : 0 < remain - length ys = ground arith in
                rw z (
                  read_loop-Fills fuel (remain - length ys) (xs ++ ys) f more (omega arith) left
                    (omega arith))
          ])
  ]

  -- `read` from a device that keeps its promises ends: it fills the buffer with what the device delivers, or the device throws, and then the
  -- front of the buffer holds what was delivered before and the rest is as it was.
  pub read-Fills : Fills source d buffer (read source buffer d)
  unfolding read
  read-Fills = elim (Bool-cases (length buffer == 0)) [
    | inl z ↦
        let none_left : 0 ≡ length buffer = ground arith in
        rw (z, read, nil_of_length buffer (sym none_left)) (all nothing refl)
    | inr z ↦
        let some_left : 0 < length buffer = ground arith in
        rw (z, read)
          (read_loop-Fills (length buffer) (length buffer) [] d nothing (omega arith) some_left
            (omega arith))
  ]

-- One read of `read_at`.
advance_read-got :
    {D : Type 0} (source : ℕ → Source D) (n o : ℕ) (d : D) (ys : List ℕ) (p : ℕ) (f : D)
    → advance_read source n (o, d) ≡ got ys (p, f)
    → (source o n d ≡ got ys f) × (p ≡ o + length ys)
advance_read-got source n o d ys p f e = elim (Read-cases (source o n d)) [
  | inl (zs, t, q) ↦ ground (arith, e, q)
  | inr (x, t, q) ↦ absurd (ground (arith, e, q))
]

pub Supplies-advance :
    {D : Type 0} (source : ℕ → Source D)
    → ((offset : ℕ) → Supplies (source offset))
    → Supplies (advance_read source)
Supplies-advance source g = record {
  fits = λ n d {ys} {e} r. (g d.0).fits n d.1 (advance_read-got source n d.0 d.1 ys e.0 e.1 r).0;
  progress = λ n d {ys} {e} r h.
      (g d.0).progress n d.1 (advance_read-got source n d.0 d.1 ys e.0 e.1 r).0 h;
}

-- Each read is at the offset where the bytes before it end.
pub Delivers-offset :
    {D : Type 0} (source : ℕ → Source D) (o : ℕ) (d : D) {bytes : List ℕ} {e : ℕ × D}
    → Delivers (advance_read source) (o, d) bytes e
    → e.0 ≡ o + length bytes
Delivers-offset source o d nothing = omega arith
Delivers-offset source o d (some_more {xs = xs} {e = (p, e)} {f = (q, f)} n ys v r) = omega (
  arith,
  Delivers-offset source o d v,
  (advance_read-got source n p e ys q f r).1,
  length-append xs ys,
)

-- `read_at` ends: it fills the buffer with what the device delivers from the offset on, each read at the
-- offset where the one before it ended, or the device throws, and then the front of the buffer holds what
-- was delivered before and the rest is as it was.
pub read_at-Fills :
    {D : Type 0} (source : ℕ → Source D)
    → ((offset : ℕ) → Supplies (source offset))
    → (offset : ℕ) (buffer : List ℕ) (d : D)
    → Fills (advance_read source) (offset, d) buffer (read_at source offset buffer d)
unfolding read_at
read_at-Fills source g offset buffer d =
    read-Fills (advance_read source) (Supplies-advance source g) buffer (offset, d)
