-- ===== src/AsyncSemaphore/Chain.antt =====
-- Doubly linked chains of wait states.
use coio.Base.{ℕ, ◌≡◌, refl, ◌∙◌, ◌⊎◌, inl, inr, none, some, List, [], ◌∷◌, arith}
use coio.Links.{Field, Pointer, first, In}

-- From `p`, whose node comes behind `before`, the fields run through `xs` to `last`.
abbrev pub Doubly : Field → Field → Pointer → Pointer → List ℕ → Pointer → Type 0
Doubly prev next before p [] last = (p ≡ none) × (last ≡ before)
Doubly prev next before p (x ∷ xs) last =
    (p ≡ some x) × (prev x ≡ before) × Doubly prev next (some x) (next x) xs last

-- Fields that agree on the nodes hold the same chain.
pub Doubly-frame :
    (prev next back links : Field) (before p : Pointer) (xs : List ℕ) (last : Pointer)
    → ((j : ℕ) → In j xs → back j ≡ prev j)
    → ((j : ℕ) → In j xs → links j ≡ next j)
    → Doubly prev next before p xs last
    → Doubly back links before p xs last
Doubly-frame prev next back links before p [] last f g d = d
Doubly-frame prev next back links before p (x ∷ xs) last f g d = (
  d.0,
  f x (inl refl) ∙ d.1,
  rw (g x (inl refl)) (
      Doubly-frame prev next back links (some x) (next x) xs last (λ j h. f j (inr h))
        (λ j h. g j (inr h)) d.2),
)

pub Doubly-first :
    (prev next : Field) (before p : Pointer) (xs : List ℕ) (last : Pointer)
    → Doubly prev next before p xs last
    → p ≡ first xs
Doubly-first prev next before p [] last d = d.0
Doubly-first prev next before p (x ∷ xs) last d = d.0

-- The last node of a chain that has one is in it.
pub Doubly-last :
    (prev next : Field) (before p : Pointer) (x : ℕ) (xs : List ℕ) (last : Pointer)
    → Doubly prev next before p (x ∷ xs) last
    → (t : ℕ) × (last ≡ some t) × In t (x ∷ xs)
Doubly-last prev next before p x [] last d = (x, d.2.1, inl refl)
Doubly-last prev next before p x (y ∷ ys) last d =
    let (t, e, h) = Doubly-last prev next (some x) (next x) y ys last d.2 in (t, e, inr h)

-- What the fields of a node of the chain point to is null, the node before, or in the chain.
pub Doubly-next :
    (prev next : Field) (before p : Pointer) (x : ℕ) (xs : List ℕ) (last : Pointer)
    → Doubly prev next before p xs last
    → In x xs
    → (n : ℕ) → next x ≡ some n
    → In n xs
Doubly-next prev next before p x (y ∷ ys) last d (inl e) n h = inr (head_In ys d.2)
  where
    head_In : (zs : List ℕ) → Doubly prev next (some y) (next y) zs last → In n zs
    head_In [] k = absurd (ground (arith, k.0))
    head_In (z ∷ zs) k = inl (ground (arith, k.0))
Doubly-next prev next before p x (y ∷ ys) last d (inr i) n h =
    inr (Doubly-next prev next (some y) (next y) x ys last d.2 i n h)
Doubly-next prev next before p x [] last d i n h = elim i [ ]

pub Doubly-prev :
    (prev next : Field) (before p : Pointer) (x : ℕ) (xs : List ℕ) (last : Pointer)
    → Doubly prev next before p xs last
    → In x xs
    → (p ≡ some x) × (prev x ≡ before) ⊎ ((q : ℕ) × (prev x ≡ some q) × In q xs)
Doubly-prev prev next before p x (y ∷ ys) last d (inl e) = inl (rw e d.0, rw e d.1)
Doubly-prev prev next before p x (y ∷ ys) last d (inr i) =
    elim (Doubly-prev prev next (some y) (next y) x ys last d.2 i) [
      | inl h ↦ inr (y, h.1, inl refl)
      | inr (q, e, k) ↦ inr (q, e, inr k)
    ]
Doubly-prev prev next before p x [] last d i = elim i [ ]
