-- ===== src/ReadUntil/Search.antt =====
-- The two searches of `read_until` against what they look for.
use coio.Base.{
  ℕ, zero, suc, ◌+◌, ◌-◌, ◌≤◌, ◌<◌, ◌≡◌, refl, sym, ap, ◌∙◌, subst, ◌≢◌, inl, inr, true, Option,
  none, some, List, [], ◌∷◌, arith, dec_lt, ℕ_discrete, ltb, leb, ◌==◌, Bool-cases, length, take,
  drop, slice, length-take, length-drop, drop-drop,
}
use coio.ReadUntil.{find_char, search_char, same_bytes, find_string, search_string}

-- The delimiter stands at this index.
abbrev pub Occurs : List ℕ → List ℕ → ℕ → Type 0
Occurs delim bytes i = slice bytes i (length delim) ≡ delim

-- No occurrence ends up to here.
abbrev pub Searched : List ℕ → List ℕ → ℕ → Type 0
Searched delim bytes n = (i : ℕ) → i + length delim ≤ n → Occurs delim bytes i → ⊥

-- The result of a search: the end of the first occurrence, or nothing, if there is none.
pub data Finds (delim bytes : List ℕ) (r : Option ℕ) : Type 0 where
  first :
      (i : ℕ)
      → r ≡ some (i + length delim)
      → Occurs delim bytes i
      → ((j : ℕ) → j < i → Occurs delim bytes j → ⊥)
      → Finds delim bytes r
  absent : r ≡ none → ((j : ℕ) → Occurs delim bytes j → ⊥) → Finds delim bytes r

-- The same, of a search from `start` on.
data Scans (delim bytes : List ℕ) (start : ℕ) (r : Option ℕ) : Type 0 where
  hit :
      (i : ℕ)
      → r ≡ some (i + length delim)
      → Occurs delim bytes i
      → start ≤ i
      → ((j : ℕ) → start ≤ j → j < i → Occurs delim bytes j → ⊥)
      → Scans delim bytes start r
  miss : r ≡ none → ((j : ℕ) → start ≤ j → Occurs delim bytes j → ⊥) → Scans delim bytes start r

pub Occurs-fits :
    (delim bytes : List ℕ) (i : ℕ)
    → 0 < length delim
    → Occurs delim bytes i
    → i + length delim ≤ length bytes
Occurs-fits delim bytes i p h =
    omega (arith, ap length h, length-take (length delim) (drop i bytes), length-drop i bytes)

module _ {delim bytes : List ℕ} where
  Scans-step :
      (i : ℕ) (r : Option ℕ)
      → (Occurs delim bytes i → ⊥)
      → Scans delim bytes (i + 1) r
      → Scans delim bytes i r
  Scans-step i r n (hit j e o h f) = hit j e o (omega arith) (λ m a b c. elim (ℕ_discrete i m) [
    | yes q ↦ n (subst (Occurs delim bytes) (sym q) c)
    | no q ↦ f m (omega arith) b c
  ])
  Scans-step i r n (miss e f) = miss e (λ m a c. elim (ℕ_discrete i m) [
    | yes q ↦ n (subst (Occurs delim bytes) (sym q) c)
    | no q ↦ f m (omega arith) c
  ])

  -- What was searched before holds no occurrence that begins before `start`.
  Scans-Finds :
      (start : ℕ) (r : Option ℕ)
      → ((i : ℕ) → i < start → Occurs delim bytes i → ⊥)
      → Scans delim bytes start r
      → Finds delim bytes r
  Scans-Finds start r n (hit i e o h f) =
      first i e o
        (λ j a c. elim (dec_lt j start) [ yes q ↦ n j q c | no q ↦ f j (omega arith) a c ])
  Scans-Finds start r n (miss e f) =
      absent e (λ j c. elim (dec_lt j start) [ yes q ↦ n j q c | no q ↦ f j (omega arith) c ])

find_char-Scans :
    (delim : ℕ) (bytes : List ℕ) (i : ℕ) (xs : List ℕ)
    → drop i bytes ≡ xs
    → Scans (delim ∷ []) bytes i (find_char delim i xs)
unfolding find_char
find_char-Scans delim bytes i [] e = miss refl (λ j h o. absurd (
    omega
      (arith, Occurs-fits (delim ∷ []) bytes j (omega arith) o, ap length e, length-drop i bytes)))
find_char-Scans delim bytes i (x ∷ xs) e = elim (Bool-cases (x == delim)) [
  | inl q ↦
      let same : x ≡ delim = ground arith in
      rw (q, find_char)
        (hit i refl (rw (e, same) refl) (omega arith) (λ j a b. absurd (omega arith)))
  | inr q ↦
      let other : x ≢ delim = ground arith in
      rw (q, find_char)
        (Scans-step i (find_char delim (i + 1) xs)
          (λ o.
            let same : x ∷ [] ≡ delim ∷ [] = subst (λ zs. take 1 zs ≡ delim ∷ []) e o in other (cc))
          (find_char-Scans delim bytes (i + 1) xs (sym (drop-drop i 1 bytes) ∙ ap (drop 1) e)))
]

-- The byte search from `search_pos` on finds the first occurrence, if there was none before.
pub search_char-Finds :
    (delim search_pos : ℕ) (bytes : List ℕ)
    → Searched (delim ∷ []) bytes search_pos
    → Finds (delim ∷ []) bytes (search_char delim search_pos bytes)
unfolding search_char
search_char-Finds delim search_pos bytes n =
    Scans-Finds search_pos (find_char delim search_pos (drop search_pos bytes))
      (λ i h o. n i (omega arith) o)
      (find_char-Scans delim bytes search_pos (drop search_pos bytes) refl)

same_bytes-eq : (xs ys : List ℕ) → same_bytes xs ys ≡ true → xs ≡ ys
unfolding same_bytes
same_bytes-eq [] [] h = refl
same_bytes-eq (x ∷ xs) (y ∷ ys) h = ground (arith, same_bytes-eq xs ys)
same_bytes-eq [] (y ∷ ys) h = cc
same_bytes-eq (x ∷ xs) [] h = cc

same_bytes_self : (xs : List ℕ) → same_bytes xs xs ≡ true
unfolding same_bytes
same_bytes_self [] = refl
same_bytes_self (x ∷ xs) = ground (arith, same_bytes_self xs)

find_string-Scans :
    (delim bytes : List ℕ) (rounds i : ℕ)
    → 0 < length delim
    → length bytes + 1 ≤ i + rounds + length delim
    → Scans delim bytes i (find_string delim bytes rounds i)
unfolding find_string
find_string-Scans delim bytes zero i p h =
    miss refl (λ j a o. absurd (omega (arith, Occurs-fits delim bytes j p o)))
find_string-Scans delim bytes (suc rounds) i p h =
    elim (Bool-cases (same_bytes (slice bytes i (length delim)) delim)) [
      | inl q ↦
          rw (q, find_string)
            (hit i refl (same_bytes-eq (slice bytes i (length delim)) delim q) (omega arith)
              (λ j a b. absurd (omega arith)))
      | inr q ↦
          rw (q, find_string)
            (Scans-step i (find_string delim bytes rounds (i + 1))
              (λ o. cc (sym q ∙ ap (λ zs. same_bytes zs delim) o ∙ same_bytes_self delim))
              (find_string-Scans delim bytes rounds (i + 1) p (omega arith)))
    ]

-- The search for a string that is not empty, which backs up from `search_pos`, finds the first
-- occurrence, or there is none, if none ended before.
pub search_string-Finds :
    (delim : List ℕ) (search_pos : ℕ) (bytes : List ℕ)
    → 0 < length delim
    → Searched delim bytes search_pos
    → Finds delim bytes (search_string delim search_pos bytes)
unfolding search_string
search_string-Finds delim search_pos bytes p n =
    elim (Bool-cases (leb (length delim) (length bytes))) [
      | inr short ↦
          rw (short, search_string)
            (absent refl (λ j o. absurd (ground (arith, Occurs-fits delim bytes j p o))))
      | inl long ↦
          let fits : length delim ≤ length bytes = ground arith in
          elim (Bool-cases (ltb (length delim - 1) search_pos)) [
            | inl q ↦
                let start : ℕ = search_pos - length delim + 1 in
                let far : length delim ≤ search_pos = ground arith in
                rw (long, q, search_string)
                  (Scans-Finds start
                    (find_string delim bytes (length bytes - length delim + 1 - start) start)
                    (λ i h o. n i (omega arith) o)
                    (find_string-Scans delim bytes (length bytes - length delim + 1 - start) start p
                      (omega arith)))
            | inr q ↦
                rw (long, q, search_string)
                  (Scans-Finds 0 (find_string delim bytes (length bytes - length delim + 1 - 0) 0)
                    (λ i h o. absurd (omega arith))
                    (find_string-Scans delim bytes (length bytes - length delim + 1 - 0) 0 p
                      (omega arith)))
          ]
    ]
