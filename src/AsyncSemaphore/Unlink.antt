-- ===== src/AsyncSemaphore/Unlink.antt =====
-- What is left of a doubly linked chain when one node is taken out.
use coio.Base.{
  ℕ, ◌≡◌, refl, sym, ◌∙◌, subst, ◌≢◌, inl, inr, none, some, List, [], ◌∷◌, arith, if◌then◌else◌,
  ◌==◌,
}
use coio.Links.{Field, Pointer, Fresh, Distinct, In, In-Fresh}
use coio.AsyncSemaphore.Chain.{Doubly, Doubly-frame, Doubly-next, Doubly-prev}

-- The second list is the first one without `x`.
pub data Removed (x : ℕ) : List ℕ → List ℕ → Type 0 where
  here : {xs : List ℕ} → Removed x (x ∷ xs) xs
  there : {y : ℕ} {xs ys : List ℕ} → Removed x xs ys → Removed x (y ∷ xs) (y ∷ ys)

pub Removed-of-In : (x : ℕ) (xs : List ℕ) → In x xs → (ys : List ℕ) × Removed x xs ys
Removed-of-In x (y ∷ xs) (inl e) = (xs, subst (λ z. Removed x (z ∷ xs) xs) e here)
Removed-of-In x (y ∷ xs) (inr h) = let (ys, r) = Removed-of-In x xs h in (y ∷ ys, there r)
Removed-of-In x [] h = elim h [ ]

pub Removed-In : {x : ℕ} {xs ys : List ℕ} → Removed x xs ys → In x xs
Removed-In here = inl refl
Removed-In (there r) = inr (Removed-In r)

pub In-Removed : {x : ℕ} {xs ys : List ℕ} (j : ℕ) → Removed x xs ys → In j ys → In j xs
In-Removed j here h = inr h
In-Removed j (there r) (inl e) = inl e
In-Removed j (there r) (inr h) = inr (In-Removed j r h)

pub Fresh-Removed : {x : ℕ} {xs ys : List ℕ} (j : ℕ) → Removed x xs ys → Fresh j xs → Fresh j ys
Fresh-Removed j here f = f.1
Fresh-Removed j (there r) f = (f.0, Fresh-Removed j r f.1)

pub Distinct-Removed : {x : ℕ} {xs ys : List ℕ} → Removed x xs ys → Distinct xs → Distinct ys
Distinct-Removed here d = d.1
Distinct-Removed (there {y = y} r) d = (Fresh-Removed y r d.0, Distinct-Removed r d.1)

-- Whatever is outside of the rest is `x` or outside of the chain.
pub Fresh-of-Removed :
    {x : ℕ} {xs ys : List ℕ} (j : ℕ) → Removed x xs ys → x ≢ j → Fresh j ys → Fresh j xs
Fresh-of-Removed j here e f = ((λ q. e (sym q)), f)
Fresh-of-Removed j (there r) e f = (f.0, Fresh-of-Removed j r e f.1)

pub Removed-gone : {x : ℕ} {xs ys : List ℕ} → Removed x xs ys → Distinct xs → Fresh x ys
Removed-gone here d = d.0
Removed-gone {x} (there {y = y} {xs = xs} r) d =
    ((λ e. In-Fresh x xs (Removed-In r) (subst (λ z. Fresh z xs) (sym e) d.0)), Removed-gone r d.1)

pub Removed-first : {x y : ℕ} {xs ys : List ℕ} → Removed x (y ∷ xs) ys → Fresh x xs → ys ≡ xs
Removed-first here f = refl
Removed-first {x} (there {xs = xs} r) f = absurd (In-Fresh x xs (Removed-In r) f)

-- The fields and the last node after `x` was taken out: its neighbours point to each other, and every
-- other node is as before.
pub record Unlinked (prev next back links : Field) (x : ℕ) (last new_last : Pointer) : Type 0 where
  pub back_other : (j : ℕ) → x ≢ j → next x ≢ some j → back j ≡ prev j
  pub back_next : (n : ℕ) → x ≢ n → next x ≡ some n → back n ≡ prev x
  pub links_other : (j : ℕ) → x ≢ j → prev x ≢ some j → links j ≡ next j
  pub links_prev : (q : ℕ) → x ≢ q → prev x ≡ some q → links q ≡ next x
  pub last_other : (n : ℕ) → next x ≡ some n → new_last ≡ last
  pub last_x : next x ≡ none → new_last ≡ prev x

-- Where the chain without `x` starts.
abbrev pub skip : ℕ → Pointer → Pointer → Pointer
skip x p q = elim p [ none ↦ none | some y ↦ if y == x then q else some y ]

pub skip-same : (x : ℕ) (q : Pointer) → skip x (some x) q ≡ q
skip-same x q = ground arith

pub skip-other : (x : ℕ) (p q : Pointer) → p ≢ some x → skip x p q ≡ p
skip-other x none q e = refl
skip-other x (some y) q e = ground (arith, e)

pub Doubly-head :
    (prev next : Field) (before p : Pointer) (x : ℕ) (xs : List ℕ) (last : Pointer)
    → Doubly prev next before p xs last
    → p ≡ some x
    → prev x ≡ before
Doubly-head prev next before p x [] last d e = absurd (cc d.0)
Doubly-head prev next before p x (y ∷ ys) last d e = ground (arith, d.0, d.1)

module _ {prev next back links : Field} {x : ℕ} {last new_last : Pointer}
    (u : Unlinked prev next back links x last new_last) where
  unlink_here :
      (before : Pointer) (xs : List ℕ)
      → Distinct (x ∷ xs)
      → ((j : ℕ) → In j xs → before ≢ some j)
      → prev x ≡ before
      → Doubly prev next (some x) (next x) xs last
      → Doubly back links before (next x) xs new_last
  unlink_here before [] d f e k = (k.0, u.last_x k.0 ∙ e)
  unlink_here before (n ∷ ns) d f e k = (
    k.0,
    u.back_next n d.0.0 k.0 ∙ e,
    rw (same n (inl refl), u.last_other n k.0)
        (Doubly-frame prev next back links (some n) (next n) ns last
          (λ j h.
            u.back_other j (apart j (inr h))
              (λ q. In-Fresh j ns h (subst (λ z. Fresh z ns) (ground arith) d.1.0)))
          (λ j h. same j (inr h)) k.2),
  )
    where
      apart : (j : ℕ) → In j (n ∷ ns) → x ≢ j
      apart j h q = In-Fresh j (n ∷ ns) h (subst (λ z. Fresh z (n ∷ ns)) q d.0)

      same : (j : ℕ) → In j (n ∷ ns) → links j ≡ next j
      same j h = u.links_other j (apart j h) (λ q. f j h (sym e ∙ q))

  pub unlink_chain :
      {xs ys : List ℕ} (before p : Pointer)
      → Removed x xs ys
      → Distinct xs
      → ((j : ℕ) → In j xs → before ≢ some j)
      → Doubly prev next before p xs last
      → Doubly back links before (skip x p (next x)) ys new_last
  unlink_chain before p (here {xs = xs}) d f k =
      rw (k.0, skip-same x (next x)) (unlink_here before xs d (λ j h. f j (inr h)) k.1 k.2)
  unlink_chain before p (there {y = y} {xs = xs} r) d f k = (
    rw (k.0) (skip-other x (some y) (next x) (λ e. apart (ground arith))),
    u.back_other y apart (λ e.
          In-Fresh y xs (Doubly-next prev next (some y) (next y) x xs last k.2 (Removed-In r) y e)
            d.0)
        ∙ k.1,
    rw follows (
        unlink_chain (some y) (next y) r d.1
          (λ j h q. In-Fresh j xs h (subst (λ z. Fresh z xs) (ground arith) d.0)) k.2),
  )
    where
      apart : x ≢ y
      apart q = In-Fresh x xs (Removed-In r) (subst (λ z. Fresh z xs) (sym q) d.0)

      follows : links y ≡ skip x (next y) (next x)
      follows = elim (Doubly-prev prev next (some y) (next y) x xs last k.2 (Removed-In r)) [
        | inl h ↦ rw (h.0, skip-same x (next x)) (u.links_prev y apart h.1)
        | inr (q, e, h) ↦
            let far : prev x ≢ some y =
              λ s. In-Fresh q xs h (subst (λ z. Fresh z xs) (ground arith) d.0) in
            u.links_other y apart far
            ∙ sym (
                skip-other x (next y) (next x)
                  (λ s. far (Doubly-head prev next (some y) (next y) x xs last k.2 s)))
      ]
