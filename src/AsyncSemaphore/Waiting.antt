-- ===== src/AsyncSemaphore/Waiting.antt =====
-- The waiting list as the operations of `async_semaphore` see it.
use coio.Base.{ℕ, ◌≡◌, refl, sym, ◌∙◌, subst, ◌≢◌, none, some, List, [], ◌∷◌, ◌++◌, arith}
use coio.Links.{
  Field, Pointer, store, Fresh, Distinct, In, In-Fresh, Fresh-append_left, Fresh-append_right,
  Distinct-append, Apart-symm, store_ne,
}
use coio.AsyncSemaphore.{Semaphore, new_semaphore, append_waiter}
use coio.AsyncSemaphore.Chain.{Doubly, Doubly-last}

-- `xs` waits, first one first, and nobody waits while there are permits.
pub record Waits (s : Semaphore) (xs : List ℕ) : Type 0 where
  pub chain : Doubly s.prev s.next none s.head xs s.tail
  pub distinct : Distinct xs
  pub outside : (j : ℕ) → Fresh j xs → s.prev j ≡ none
  pub spent : xs ≢ [] → s.counter ≡ 0

pub new_semaphore-Waits : (permits : ℕ) → Waits (new_semaphore permits) []
new_semaphore-Waits permits = record {
  chain = (refl, refl);
  distinct = tt;
  outside = λ j f. refl;
  spent = λ e. absurd (e refl);
}

In-ne : (x j : ℕ) (xs : List ℕ) → In j xs → Fresh x xs → x ≢ j
In-ne x j xs h f e = In-Fresh j xs h (subst (λ y. Fresh y xs) e f)

-- A node `x` behind the last one.
Doubly-snoc :
    (prev next : Field) (before p : Pointer) (y : ℕ) (xs : List ℕ) (t x : ℕ)
    → Doubly prev next before p (y ∷ xs) (some t)
    → Distinct (y ∷ xs)
    → Fresh x (y ∷ xs)
    → Doubly
        (store prev x (some t))
        (store (store next x none) t (some x))
        before
        p
        (y ∷ xs ++ x ∷ [])
        (some x)
Doubly-snoc prev next before p y [] t x d e f = (
  d.0,
  ground (arith, d.1, f.0),
  (ground (arith, d.2.1), ground (arith, d.2.1), (ground (arith, d.2.1, f.0), refl)),
)
Doubly-snoc prev next before p y (z ∷ zs) t x d e f = (
  d.0,
  ground (arith, d.1, f.0),
  rw same (Doubly-snoc prev next (some y) (next y) z zs t x d.2 e.1 f.1),
)
  where
    apart : y ≢ t
    apart =
        let (u, q, h) = Doubly-last prev next (some y) (next y) z zs (some t) d.2 in
        λ r. In-ne y u (z ∷ zs) h e.0 (ground arith)

    same : store (store next x none) t (some x) y ≡ next y
    same = ground (arith, apart, f.0)

-- A state that is not in the list goes to its end.
pub append_waiter-Waits :
    (s : Semaphore) (xs : List ℕ) (x : ℕ)
    → Waits s xs
    → Fresh x xs
    → s.counter ≡ 0
    → Waits (append_waiter x s) (xs ++ x ∷ [])
unfolding append_waiter
append_waiter-Waits s [] x w f z =
    rw (w.chain.1, append_waiter)
      record {
        chain = (refl, ground arith, (ground arith, refl));
        distinct = (tt, tt);
        outside = λ j g. ground (arith, w.outside j tt, g.0);
        spent = λ e. z;
      }
append_waiter-Waits s (y ∷ ys) x w f z =
    let (t, e, h) = Doubly-last s.prev s.next none s.head y ys s.tail w.chain in
    rw (e, append_waiter)
      record {
        chain =
            Doubly-snoc s.prev s.next none s.head y ys t x
              (subst (Doubly s.prev s.next none s.head (y ∷ ys)) e w.chain) w.distinct f;
        distinct =
            Distinct-append (y ∷ ys) (x ∷ []) w.distinct (tt, tt)
              (Apart-symm (x ∷ []) (y ∷ ys) (f, tt));
        outside = λ j g.
            store_ne s.prev x j (some t) (λ q. (Fresh-append_right j (y ∷ ys) (x ∷ []) g).0 (sym q))
            ∙ w.outside j (Fresh-append_left j (y ∷ ys) (x ∷ []) g);
        spent = λ e. z;
      }
