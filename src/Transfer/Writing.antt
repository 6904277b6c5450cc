-- ===== src/Transfer/Writing.antt =====
-- What `write` has written.
use coio.Base.{
  ℕ, zero, suc, ◌-◌, ◌≤◌, ◌<◌, ◌≡◌, refl, ap, ◌∙◌, subst, ◌⊎◌, inl, inr, false, List, [], ◌∷◌, ◌++◌,
  arith, ◌==◌, Bool-cases, length, take, drop, slice, length-append, length-drop, slice_cong,
  drop-append_exact, take-all, take-append-drop,
}
use coio.Transfer.{Sink, Wrote, took, refused, Accepts, Ran, full, raised, write_loop, write}
use mathlib.Core.List.{append_assoc}

-- The device takes these bytes, in one or more calls.
pub data Takes {D : Type 0} (sink : Sink D) (d : D) : List ℕ → D → Type 0 where
  nothing : Takes sink d [] d
  some_more :
      {xs : List ℕ} {e : D} {f : D} (n : ℕ) (rest : List ℕ)
      → Takes sink d xs e
      → n ≤ length rest
      → sink rest e ≡ took n f
      → Takes sink d (xs ++ take n rest) f

-- What `write` of `buffer` promises: the device takes it all, or takes some of it and throws at the
-- rest.
pub data Drains {D : Type 0} (sink : Sink D) (d : D) (buffer : List ℕ) : Ran D → Type 0 where
  all : {e : D} → Takes sink d buffer e → Drains sink d buffer (full buffer e)
  part :
      {e f : D} (x : ℕ) (bytes rest : List ℕ)
      → Takes sink d bytes e
      → bytes ++ rest ≡ buffer
      → 0 < length rest
      → sink rest e ≡ refused x f
      → Drains sink d buffer (raised x buffer f)

Wrote-cases :
    {D : Type 0} (r : Wrote D)
    → ((n : ℕ) × (e : D) × (r ≡ took n e)) ⊎ ((x : ℕ) × (e : D) × (r ≡ refused x e))
Wrote-cases (took n e) = inl (n, e, refl)
Wrote-cases (refused x e) = inr (x, e, refl)

module _ {D : Type 0} (sink : Sink D) (g : Accepts sink) (d : D) where
  -- The loop behind the bytes of `xs`, in front of `rest`.
  write_loop-Drains :
      (fuel : ℕ) (xs rest : List ℕ) (e : D)
      → Takes sink d xs e
      → 0 < length rest
      → length rest ≤ fuel
      → Drains sink d
          (xs ++ rest)
          (write_loop sink fuel (length (xs ++ rest)) (length rest) (xs ++ rest) e)
  unfolding write_loop
  write_loop-Drains zero xs rest e v p q = absurd (omega arith)
  write_loop-Drains (suc fuel) xs rest e v p q =
      let at_rest : slice (xs ++ rest) (length (xs ++ rest) - length rest) (length rest) ≡ rest =
        seen in
      elim (Wrote-cases (sink rest e)) [
        | inr (x, f, r) ↦ rw (at_rest, write_loop, r) (part x xs rest v refl p r)
        | inl (n, f, r) ↦
            let few : n ≤ length rest = g.fits rest e r in
            let some_bytes : 0 < n = g.progress rest e r p in
            let more : Takes sink d (xs ++ take n rest) f = some_more n rest v few r in
            let whole : (xs ++ take n rest) ++ drop n rest ≡ xs ++ rest =
              append_assoc xs (take n rest) (drop n rest)
              ∙ ap (λ zs. xs ++ zs) (take-append-drop n rest) in
            let left : length (drop n rest) ≡ length rest - n = length-drop n rest in
            rw (at_rest, write_loop, r)
              (elim (Bool-cases (length rest - n == 0)) [
                | inl z ↦
                    let done_all : length rest ≤ n = ground arith in
                    rw z (
                      all (subst (λ zs. Takes sink d (xs ++ zs) f) (take-all n rest done_all) more))
                | inr z ↦
                    let some_left : 0 < length (drop n rest) = ground (arith, left) in
                    rw z (
                      subst
                        (λ k.
                          Drains sink d (xs ++ rest)
                            (write_loop sink fuel (length (xs ++ rest)) k (xs ++ rest) f))
                        left
                        (subst
                          (λ zs.
                            Drains sink d zs
                              (write_loop sink fuel (length zs) (length (drop n rest)) zs f))
                          whole
                          (write_loop-Drains fuel (xs ++ take n rest) (drop n rest) f more some_left
                            (omega arith))))
              ])
      ]
    where
      seen : slice (xs ++ rest) (length (xs ++ rest) - length rest) (length rest) ≡ rest
      seen =
          slice_cong (xs ++ rest) {j = length xs} {n = length rest}
            (omega (arith, length-append xs rest)) refl
          ∙ ap (take (length rest)) (drop-append_exact (length xs) xs rest refl)
          ∙ take-all (length rest) rest (omega arith)

  -- `write` to a device that keeps its promises ends: the device has taken the whole buffer, or some of it, and throws at the rest.
  pub write-Drains : (buffer : List ℕ) → Drains sink d buffer (write sink buffer d)
  unfolding write
  write-Drains [] = all nothing
  write-Drains (x ∷ xs) =
      rw (not_empty, write)
        (write_loop-Drains (length (x ∷ xs)) [] (x ∷ xs) d nothing (omega arith) (omega arith))
    where
      not_empty : (length (x ∷ xs) == 0) ≡ false
      not_empty = ground arith
