-- ===== src/ReadUntil/Loop.antt =====
-- What `read_until` promises.
use coio.Base.{
  ℕ, zero, suc, ◌+◌, ◌≤◌, ◌<◌, ◌≡◌, refl, sym, ap, ◌∙◌, subst, ◌⊎◌, inl, inr, Option, List, [], ◌∷◌,
  ◌++◌, arith, ◌==◌, Bool-cases, length, take, drop, slice, length-append, length-drop,
  drop-append_le, take-append_le,
}
use coio.Base.Outcome.{Fault, Outcome, done, throws, undefined}
use coio.DynamicBuffer.{DynamicBuffer}
use coio.Transfer.{Source, failed, Supplies}
use coio.Transfer.Reading.{Read-cases, Delivers, nothing, some_more}
use coio.ReadUntil.{
  Found, found, not_found, raised, threw, until_loop, read_until_char, read_until_string,
  search_char, search_string, bytes_to_read,
}
use coio.ReadUntil.Search.{
  Occurs, Searched, Finds, first, absent, search_char-Finds, search_string-Finds,
}
use mathlib.Core.List.{append-nil, append_assoc}

pub Outcome-cases :
    {S A : Type 0} (o : Outcome S A)
    → ((s : S) × (a : A) × (o ≡ done s a))
      ⊎ (((s : S) × (e : Fault) × (o ≡ throws s e)) ⊎ (o ≡ undefined))
Outcome-cases (done s a) = inl (s, a, refl)
Outcome-cases (throws s e) = inr (inl (s, e, refl))
Outcome-cases undefined = inr (inr refl)

-- What was searched stays searched when bytes come behind it.
Searched-append :
    (delim xs ys : List ℕ) → Searched delim xs (length xs) → Searched delim (xs ++ ys) (length xs)
Searched-append delim xs ys n i h o = n i h (sym (same) ∙ o)
  where
    same : slice (xs ++ ys) i (length delim) ≡ slice xs i (length delim)
    same =
        ap (take (length delim)) (drop-append_le i xs ys (omega arith))
        ∙ take-append_le (length delim) (drop i xs) ys (omega (arith, length-drop i xs))

module _ (B : DynamicBuffer) {D : Type 0} (source : Source D) where
  open B use {Buffer, bytes, capacity, max_size, prepare, store, commit, IsGood}

  -- The buffer holds what it held and, behind it, what the device delivered since.
  pub record Received (b : Buffer) (d : D) (c : Buffer) (e : D) : Type 0 where
    pub delivered : List ℕ
    pub delivers : Delivers source d delivered e
    pub appended : bytes c ≡ bytes b ++ delivered

  abbrev pub Absent : List ℕ → List ℕ → Type 0
  Absent delim xs = (i : ℕ) → Occurs delim xs i → ⊥

  -- Every way in which `read_until` ends.
  pub data Ends (delim : List ℕ) (b : Buffer) (d : D) (r : Found Buffer D) : Type 0 where
    at_delimiter :
        (i : ℕ) (c : Buffer) (e : D)
        → r ≡ found (i + length delim) c e
        → Received b d c e
        → Occurs delim (bytes c) i
        → ((j : ℕ) → j < i → Occurs delim (bytes c) j → ⊥)
        → Ends delim b d r
    when_full :
        (c : Buffer) (e : D)
        → r ≡ not_found c e
        → Received b d c e
        → Absent delim (bytes c)
        → length (bytes c) ≡ max_size c
        → Ends delim b d r
    when_device_fails :
        (x n : ℕ) (c : Buffer) (e f : D)
        → r ≡ raised x c f
        → Received b d c e
        → Absent delim (bytes c)
        → source n e ≡ failed x f
        → Ends delim b d r
    when_prepare_throws :
        (x : Fault) (n : ℕ) (c s : Buffer) (e : D)
        → r ≡ threw x s e
        → Received b d c e
        → Absent delim (bytes c)
        → prepare n c ≡ throws s x
        → Ends delim b d r

  module _ (g : Supplies source) (delim : List ℕ) (positive : 0 < length delim)
      (search : ℕ → List ℕ → Option ℕ)
      (finds : (pos : ℕ) (xs : List ℕ)
        → Searched delim xs pos
        → Finds delim xs (search pos xs)) where
    until_loop-Ends :
        (fuel pos : ℕ) (b c : Buffer) (d e : D)
        → IsGood c
        → Searched delim (bytes c) pos
        → max_size c + 1 ≤ fuel + length (bytes c)
        → Received b d c e
        → Ends delim b d (until_loop B source search fuel pos c e)
    unfolding until_loop
    until_loop-Ends zero pos b c d e w s h v = absurd (omega (arith, B.bytes_bounded c w))
    until_loop-Ends (suc fuel) pos b c d e w s h v = elim (finds pos (bytes c) s) [
      | first i q o n ↦ at_delimiter i c e (rw (q, until_loop) refl) v o n
      | absent q n ↦ elim (Bool-cases (length (bytes c) == max_size c)) [
        | inl z ↦ when_full c e (rw (q, z, until_loop) refl) v n (ground arith)
        | inr z ↦
            let k : ℕ = bytes_to_read B source c in
            let room_left : length (bytes c) < max_size c = ground (arith, B.bytes_bounded c w) in
            let some_room : 0 < k = omega arith in
            let fits : k + length (bytes c) ≤ max_size c = omega arith in
            elim (Outcome-cases (prepare k c)) [
              | inr (inr u) ↦ absurd (B.prepare_defined k c w fits u)
              | inr (inl (t, x, u)) ↦
                  when_prepare_throws x k c t e (rw (q, z, u, until_loop) refl) v n u
              | inl (t, room, u) ↦ elim (Read-cases (source k e)) [
                | inr (x, f, r) ↦
                    let kept : bytes t ≡ bytes c = B.bytes-prepare k c t room w fits u in
                    when_device_fails x k t e f (rw (q, z, u, r, until_loop) refl)
                      (record {
                        delivered = v.delivered;
                        delivers = v.delivers;
                        appended = kept ∙ v.appended;
                      })
                      (rw kept n) r
                | inl (ys, f, r) ↦
                    let few : length ys ≤ k = g.fits k e r in
                    let some_bytes : 0 < length ys = g.progress k e r some_room in
                    let (stored, good, same_max) =
                      B.prepare_store_commit k ys c t room w some_room fits few u in
                    let longer : length (bytes (commit (length ys) (store room ys t)))
                        ≡ length (bytes c) + length ys =
                      ap length stored ∙ length-append (bytes c) ys in
                    rw (q, z, u, r, until_loop)
                      (until_loop-Ends fuel (length (bytes c)) b
                        (commit (length ys) (store room ys t)) d f good
                        (subst (λ xs. Searched delim xs (length (bytes c))) (sym stored)
                          (Searched-append delim (bytes c) ys (λ i a o. n i o)))
                        (omega arith)
                        (record {
                          delivered = v.delivered ++ ys;
                          delivers = some_more k ys v.delivers r;
                          appended =
                              stored
                              ∙ ap (λ xs. xs ++ ys) v.appended
                              ∙ append_assoc (bytes b) v.delivered ys;
                        }))
              ]
            ]
      ]
    ]

    from_start :
        (b : Buffer) (d : D)
        → IsGood b
        → Ends delim b d (until_loop B source search (max_size b + 1) 0 b d)
    from_start b d w =
        until_loop-Ends (max_size b + 1) 0 b b d d w (λ i h o. absurd (omega arith)) (omega arith)
          (record { delivered = []; delivers = nothing; appended = sym (append-nil (bytes b)) })

  -- `read_until` of a byte ends: at the end of its first occurrence in what the buffer held and the
  -- device delivered, or when the buffer is full or the device or `prepare` throws, and no such byte was
  -- there.
  pub read_until_char-Ends :
      (delim : ℕ) (b : Buffer) (d : D)
      → Supplies source
      → IsGood b
      → Ends (delim ∷ []) b d (read_until_char B source delim b d)
  unfolding read_until_char
  read_until_char-Ends delim b d g w =
      from_start g (delim ∷ []) (omega arith) (search_char delim)
        (λ pos xs s. search_char-Finds delim pos xs s) b d w

  -- `read_until` of a string that is not empty, on a good buffer and a device that keeps its promises, ends:
  -- at the first occurrence in what the buffer held and the device delivered since, or when the buffer is
  -- full without one, or with what the device or `prepare` throws.
  pub read_until_string-Ends :
      (delim : List ℕ) (b : Buffer) (d : D)
      → Supplies source
      → IsGood b
      → 0 < length delim
      → Ends delim b d (read_until_string B source delim b d)
  unfolding read_until_string
  read_until_string-Ends [] b d g w p = absurd (omega arith)
  read_until_string-Ends (c ∷ []) b d g w p = read_until_char-Ends c b d g w
  read_until_string-Ends (c ∷ x ∷ xs) b d g w p =
      from_start g (c ∷ x ∷ xs) p (search_string (c ∷ x ∷ xs))
        (λ pos ys s. search_string-Finds (c ∷ x ∷ xs) pos ys p s) b d w
