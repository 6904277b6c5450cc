-- ===== src/Links.antt =====
-- Intrusive chains: the nodes are numbers, a link is a field of each node, written as a function,
-- and a null pointer is `none`. `Chain next p xs` says that the links from `p` run through `xs`.
pub mod Reverse
use coio.Base.{
  ℕ, zero, suc, ◌+◌, ◌-◌, ◌*◌, ◌/◌, ◌%◌, ◌^◌, ◌≤◌, ◌<◌, min, max, ◌≡◌, refl, sym, ap, ◌∙◌, subst,
  ◌≢◌, ◌↔◌, ◌⊎◌, inl, inr, Bool, true, false, ◌&&◌, ◌||◌, not, Option, none, some, List, [], ◌∷◌,
  ◌++◌, map, reverse, arith, dec_lt, dec_le, ℕ_discrete, if◌then◌else◌, ltb, leb, ◌==◌, Bool-cases,
  Option-cases, length, get_elem?, set, take, drop, slice, overwrite, add_size, sub_size, mul_size,
  size_mod, length-append, length-take, length-drop,
}

abbrev pub Pointer : Type 0
Pointer = Option ℕ

abbrev pub Field : Type 0
Field = ℕ → Pointer

-- `node->field = p`.
abbrev pub store : Field → ℕ → Pointer → Field
store f x p y = if x == y then p else f y

abbrev pub first : List ℕ → Pointer
first [] = none
first (x ∷ xs) = some x

abbrev pub Chain : Field → Pointer → List ℕ → Type 0
Chain next p [] = p ≡ none
Chain next p (x ∷ xs) = (p ≡ some x) × Chain next (next x) xs

-- `x` is not in the list.
abbrev pub Fresh : ℕ → List ℕ → Type 0
Fresh x [] = Unit {0}
Fresh x (y ∷ ys) = (x ≢ y) × Fresh x ys

abbrev pub Distinct : List ℕ → Type 0
Distinct [] = Unit {0}
Distinct (x ∷ xs) = Fresh x xs × Distinct xs

-- No item of the first list is in the second.
abbrev pub Apart : List ℕ → List ℕ → Type 0
Apart [] ys = Unit {0}
Apart (x ∷ xs) ys = Fresh x ys × Apart xs ys

pub Chain-store :
    (next : Field) (x : ℕ) (q p : Pointer) (xs : List ℕ)
    → Fresh x xs
    → Chain next p xs
    → Chain (store next x q) p xs
Chain-store next x q p [] f c = c
Chain-store next x q p (y ∷ ys) f c =
    (c.0, ground (arith, Chain-store next x q (next y) ys f.1 c.1))

-- A chain is determined by where it starts.
pub Chain-first : (next : Field) (p : Pointer) (xs : List ℕ) → Chain next p xs → p ≡ first xs
Chain-first next p [] c = c
Chain-first next p (x ∷ xs) c = c.0

pub Fresh-append : (x : ℕ) (xs ys : List ℕ) → Fresh x xs → Fresh x ys → Fresh x (xs ++ ys)
Fresh-append x [] ys f g = g
Fresh-append x (y ∷ xs) ys f g = (f.0, Fresh-append x xs ys f.1 g)

pub Fresh-append_left : (x : ℕ) (xs ys : List ℕ) → Fresh x (xs ++ ys) → Fresh x xs
Fresh-append_left x [] ys f = tt
Fresh-append_left x (y ∷ xs) ys f = (f.0, Fresh-append_left x xs ys f.1)

pub Fresh-append_right : (x : ℕ) (xs ys : List ℕ) → Fresh x (xs ++ ys) → Fresh x ys
Fresh-append_right x [] ys f = f
Fresh-append_right x (y ∷ xs) ys f = Fresh-append_right x xs ys f.1

pub Distinct-append :
    (xs ys : List ℕ) → Distinct xs → Distinct ys → Apart xs ys → Distinct (xs ++ ys)
Distinct-append [] ys d e a = e
Distinct-append (x ∷ xs) ys d e a = (Fresh-append x xs ys d.0 a.0, Distinct-append xs ys d.1 e a.1)

pub Distinct-append_left : (xs ys : List ℕ) → Distinct (xs ++ ys) → Distinct xs
Distinct-append_left [] ys d = tt
Distinct-append_left (x ∷ xs) ys d = (Fresh-append_left x xs ys d.0, Distinct-append_left xs ys d.1)

pub Distinct-append_right : (xs ys : List ℕ) → Distinct (xs ++ ys) → Distinct ys
Distinct-append_right [] ys d = d
Distinct-append_right (x ∷ xs) ys d = Distinct-append_right xs ys d.1

pub Apart-append : (xs ys : List ℕ) → Distinct (xs ++ ys) → Apart xs ys
Apart-append [] ys d = tt
Apart-append (x ∷ xs) ys d = (Fresh-append_right x xs ys d.0, Apart-append xs ys d.1)

pub Apart-cons : (xs ys : List ℕ) (x : ℕ) → Fresh x xs → Apart xs ys → Apart xs (x ∷ ys)
Apart-cons [] ys x f a = tt
Apart-cons (z ∷ zs) ys x f a = ((λ e. f.0 (sym e), a.0), Apart-cons zs ys x f.1 a.1)

pub Apart-tail : (xs ys : List ℕ) (x : ℕ) → Apart xs (x ∷ ys) → Fresh x xs × Apart xs ys
Apart-tail [] ys x a = (tt, tt)
Apart-tail (z ∷ zs) ys x a =
    let (f, b) = Apart-tail zs ys x a.1 in ((λ e. a.0.0 (sym e), f), (a.0.1, b))

-- A chain that ends at `t`, and another one linked behind it.
pub Chain-link :
    (next : Field) (p q : Pointer) (xs ys : List ℕ) (t : ℕ)
    → Chain next p (xs ++ t ∷ [])
    → Fresh t xs
    → Chain next q ys
    → Fresh t ys
    → Chain (store next t q) p (xs ++ t ∷ ys)
Chain-link next p q [] ys t c f d g = (c.0, ground (arith, Chain-store next t q q ys g d))
Chain-link next p q (x ∷ xs) ys t c f d g =
    (c.0, ground (arith, Chain-link next (next x) q xs ys t c.1 f.1 d g))

-- A link that is followed from a node outside of the store is the old one.
pub store_ne : (next : Field) (x y : ℕ) (p : Pointer) → x ≢ y → store next x p y ≡ next y
store_ne next x y p h = ground arith

pub store_self : (next : Field) (x : ℕ) (p : Pointer) → store next x p x ≡ p
store_self next x p = ground arith

-- Links that agree outside of `zs` hold the same chains there.
pub Chain-frame :
    (next links : Field) (p : Pointer) (xs zs : List ℕ)
    → ((j : ℕ) → Fresh j zs → links j ≡ next j)
    → Apart xs zs
    → Chain next p xs
    → Chain links p xs
Chain-frame next links p [] zs f a c = c
Chain-frame next links p (x ∷ xs) zs f a c =
    (c.0, rw (f x a.0) (Chain-frame next links (next x) xs zs f a.1 c.1))

pub Apart-nil : (xs : List ℕ) → Apart xs []
Apart-nil [] = tt
Apart-nil (x ∷ xs) = (tt, Apart-nil xs)

pub Apart-symm : (xs ys : List ℕ) → Apart xs ys → Apart ys xs
Apart-symm xs [] a = tt
Apart-symm xs (y ∷ ys) a = let (f, b) = Apart-tail xs ys y a in (f, Apart-symm xs ys b)

abbrev pub In : ℕ → List ℕ → Type 0
In x [] = ⊥
In x (y ∷ ys) = (x ≡ y) ⊎ In x ys

pub Fresh-of-In : (x : ℕ) (xs : List ℕ) → (In x xs → ⊥) → Fresh x xs
Fresh-of-In x [] f = tt
Fresh-of-In x (y ∷ ys) f = ((λ e. f (inl e)), Fresh-of-In x ys (λ h. f (inr h)))

pub In-Fresh : (x : ℕ) (xs : List ℕ) → In x xs → Fresh x xs → ⊥
In-Fresh x (y ∷ ys) (inl e) f = f.0 e
In-Fresh x (y ∷ ys) (inr h) f = In-Fresh x ys h f.1
In-Fresh x [] h f = h

pub In-last : (x : ℕ) (xs : List ℕ) → In x (xs ++ x ∷ [])
In-last x [] = inl refl
In-last x (y ∷ ys) = inr (In-last x ys)

pub In-append_left : (x : ℕ) (xs ys : List ℕ) → In x xs → In x (xs ++ ys)
In-append_left x [] ys h = elim h [ ]
In-append_left x (z ∷ zs) ys (inl e) = inl e
In-append_left x (z ∷ zs) ys (inr h) = inr (In-append_left x zs ys h)

pub In-snoc : (x y : ℕ) (xs : List ℕ) → In x (xs ++ y ∷ []) → (x ≡ y) ⊎ In x xs
In-snoc x y [] (inl e) = inl e
In-snoc x y [] (inr h) = elim h [ ]
In-snoc x y (z ∷ zs) (inl e) = inr (inl e)
In-snoc x y (z ∷ zs) (inr h) = elim (In-snoc x y zs h) [ inl e ↦ inl e | inr k ↦ inr (inr k) ]
