-- ===== src/Base/Outcome.antt =====
-- What a call of a method that may throw comes to, with the object that it leaves behind.
use mathlib.Core.Path.{◌≡◌}

-- The exceptions of the modelled headers.
pub data Fault : Type 0 where
  bad_alloc length_error out_of_range construction : Fault

-- `undefined` is undefined behaviour (a read or write outside an object), or a loop that does not
-- end within its fuel.
pub data Outcome {ℓ κ} (S : Type ℓ) (A : Type κ) : Type (ℓ ⊔ κ) where
  done : S → A → Outcome S A
  throws : S → Fault → Outcome S A
  undefined : Outcome S A

infixl 5 ◌>>=◌
abbrev pub ◌>>=◌ {ℓ κ μ} :
    {S : Type ℓ} {A : Type κ} {B : Type μ}
    → (S → Outcome S A)
    → (A → S → Outcome S B)
    → S
    → Outcome S B
◌>>=◌ m f s = elim (m s) [ done t a ↦ f a t | throws t e ↦ throws t e | undefined ↦ undefined ]

infixl 5 ◌>>◌
abbrev pub ◌>>◌ {ℓ κ μ} :
    {S : Type ℓ} {A : Type κ} {B : Type μ} → (S → Outcome S A) → (S → Outcome S B) → S → Outcome S B
◌>>◌ m k = m >>= λ _. k

abbrev pub pure {ℓ κ} : {S : Type ℓ} {A : Type κ} → A → S → Outcome S A
pure a s = done s a

-- A call whose first step is known.
module _ {ℓ κ μ} {S : Type ℓ} {A : Type κ} {B : Type μ} (m : S → Outcome S A) where
  pub >>=-done : (f : A → S → Outcome S B) {s t : S} {a : A} → m s ≡ done t a → (m >>= f) s ≡ f a t
  >>=-done f e = rw (e, ◌>>=◌)

  pub >>=-throws :
      (f : A → S → Outcome S B) {s t : S} {x : Fault} → m s ≡ throws t x → (m >>= f) s ≡ throws t x
  >>=-throws f e = rw (e, ◌>>=◌)

  pub >>=-undefined : (f : A → S → Outcome S B) {s : S} → m s ≡ undefined → (m >>= f) s ≡ undefined
  >>=-undefined f e = rw (e, ◌>>=◌)
