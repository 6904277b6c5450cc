-- ===== src/AsyncSemaphore/Operations.antt =====
-- What each operation of `async_semaphore` does to the waiting list.
use coio.Base.{
  ℕ, ◌+◌, ◌≡◌, refl, sym, ap, ◌∙◌, subst, ◌≢◌, ◌⊎◌, inl, inr, true, false, none, some, List, [],
  ◌∷◌, ◌++◌, arith, ℕ_discrete, ◌==◌, Bool-cases, Option-cases,
}
use coio.Links.{Field, Pointer, store, Fresh, In, In-Fresh, store_ne, store_self}
use coio.AsyncSemaphore.{
  Semaphore, Started, completed, queued, Released, resumed, counted, terminated, try_acquire,
  append_waiter, start, detach, pop_head, release_at, release, relink, unregister, points_to,
}
use coio.AsyncSemaphore.Chain.{Doubly, Doubly-next, Doubly-prev}
use coio.AsyncSemaphore.Unlink.{
  Removed, here, Removed-In, Distinct-Removed, Fresh-of-Removed, Unlinked, skip, skip-other,
  skip-same, Doubly-head, unlink_chain,
}
use coio.AsyncSemaphore.Waiting.{Waits, append_waiter-Waits}

-- `relink` finishes the removal when the node before was relinked already.
relink-Unlinked :
    (next : Field) (s : Semaphore) (x : ℕ)
    → s.next x ≡ next x
    → ((j : ℕ) → x ≢ j → s.prev x ≢ some j → s.next j ≡ next j)
    → ((q : ℕ) → x ≢ q → s.prev x ≡ some q → s.next q ≡ next x)
    → Unlinked s.prev next (relink x s).prev (relink x s).next x s.tail (relink x s).tail
unfolding relink detach
relink-Unlinked next s x e f g = elim (Option-cases (s.next x)) [
  | inl h ↦
      rw (h, relink, detach)
        record {
          back_other = λ j a b. store_ne s.prev x j none a;
          back_next = λ n a b. absurd (cc h);
          links_other = λ j a b. store_ne s.next x j none a ∙ f j a b;
          links_prev = λ q a b. store_ne s.next x q none a ∙ g q a b;
          last_other = λ n a. absurd (cc h);
          last_x = λ a. refl;
        }
  | inr (n, h) ↦
      rw (h, relink, detach)
        record {
          back_other = λ j a b.
              store_ne (store s.prev n (s.prev x)) x j none a
              ∙ store_ne s.prev n j (s.prev x) (λ k. b (sym e ∙ h ∙ ap some k));
          back_next = λ m a b. ground (arith, h, e);
          links_other = λ j a b. store_ne s.next x j none a ∙ f j a b;
          links_prev = λ q a b. store_ne s.next x q none a ∙ g q a b;
          last_other = λ m a. refl;
          last_x = λ a. absurd (cc h);
        }
]

relink-kept :
    (s : Semaphore) (x : ℕ)
    → ((relink x s).head ≡ s.head)
      × ((relink x s).counter ≡ s.counter)
      × ((relink x s).prev x ≡ none)
unfolding relink detach
relink-kept s x = elim (Option-cases (s.next x)) [
  | inl h ↦ rw (h, relink, detach) (refl, refl, store_self s.prev x none)
  | inr (n, h) ↦ rw (h, relink, detach) (refl, refl, store_self (store s.prev n (s.prev x)) x none)
]

-- The list after `x` was unlinked.
Unlinked-Waits :
    (s t : Semaphore) (x : ℕ) (xs ys : List ℕ)
    → Waits s xs
    → Removed x xs ys
    → Unlinked s.prev s.next t.prev t.next x s.tail t.tail
    → t.head ≡ skip x s.head (s.next x)
    → t.prev x ≡ none
    → t.counter ≡ s.counter
    → Waits t ys
Unlinked-Waits s t x xs ys w r u h e c = record {
  chain = rw h (unlink_chain u none s.head r w.distinct (λ j k q. cc) w.chain);
  distinct = Distinct-Removed r w.distinct;
  outside = λ j f. elim (ℕ_discrete x j) [
    | yes q ↦ subst (λ y. t.prev y ≡ none) q e
    | no q ↦
        let g : Fresh j xs = Fresh-of-Removed j r q f in
        u.back_other j q (λ k.
          In-Fresh j xs
            (Doubly-next s.prev s.next none s.head x xs s.tail w.chain (Removed-In r) j k) g)
        ∙ w.outside j g
  ];
  spent = λ k. c ∙ w.spent (λ z. subst (In x) z (Removed-In r));
}

-- The head of the list is unlinked.
head-Waits :
    (s : Semaphore) (x : ℕ) (xs ys : List ℕ)
    → Waits s xs
    → Removed x xs ys
    → s.head ≡ some x
    → Waits (relink x (record s { head = s.next x })) ys
head-Waits s x xs ys w r h =
    let t : Semaphore = record s { head = s.next x } in
    let (a, b, c) = relink-kept t x in
    Unlinked-Waits s (relink x t) x xs ys w r
      (relink-Unlinked s.next t x refl (λ j p q. refl)
        (λ q p k. absurd (cc (Doubly-head s.prev s.next none s.head x xs s.tail w.chain h))))
      (a ∙ sym (rw h (skip-same x (s.next x)))) c b

-- `unregister_` of a state that waits says so, takes it out of the list and keeps the counter.
pub unregister-Waits :
    (s : Semaphore) (x : ℕ) (xs ys : List ℕ)
    → Waits s xs
    → Removed x xs ys
    → ((unregister x s).0 ≡ true)
      × Waits (unregister x s).1 ys
      × ((unregister x s).1.counter ≡ s.counter)
unfolding unregister
unregister-Waits s x xs ys w r = elim (Option-cases (s.prev x)) [
  | inl h ↦
      rw (h, unregister, at_head h, points_to-self)
        (refl, head-Waits s x xs ys w r (at_head h), kept (s.next x))
  | inr (p, h) ↦ rw (h, unregister) (refl, behind p h, linked p)
]
  where
    at_head : s.prev x ≡ none → s.head ≡ some x
    at_head h = elim (Doubly-prev s.prev s.next none s.head x xs s.tail w.chain (Removed-In r)) [
      | inl k ↦ k.0
      | inr (q, e, k) ↦ absurd (cc h)
    ]

    points_to-self : points_to (some x) x ≡ true
    points_to-self = ground arith

    kept : (p : Pointer) → (relink x (record s { head = p })).counter ≡ s.counter
    kept p = (relink-kept (record s { head = p }) x).1

    linked :
        (p : ℕ) → (relink x (record s { next = store s.next p (s.next x) })).counter ≡ s.counter
    linked p = (relink-kept (record s { next = store s.next p (s.next x) }) x).1

    behind :
        (p : ℕ)
        → s.prev x ≡ some p
        → Waits (relink x (record s { next = store s.next p (s.next x) })) ys
    behind p h =
        let t : Semaphore = record s { next = store s.next p (s.next x) } in
        let (a, b, c) = relink-kept t x in
        Unlinked-Waits s (relink x t) x xs ys w r
          (relink-Unlinked s.next t x (ground arith)
            (λ j q k. store_ne s.next p j (s.next x) (λ e. k (h ∙ ap some e)))
            (λ q e k. ground (arith, h)))
          (a
            ∙ sym (
                skip-other x s.head (s.next x)
                  (λ e. absurd (cc (Doubly-head s.prev s.next none s.head x xs s.tail w.chain e)))))
          c b

-- `unregister_` of a state that does not wait finds that out, and changes nothing.
pub unregister-outside :
    (s : Semaphore) (x : ℕ) (xs : List ℕ) → Waits s xs → Fresh x xs → unregister x s ≡ (false, s)
unfolding unregister
unregister-outside s x xs w f = rw (w.outside x f, unregister, head_else xs f w.chain) refl
  where
    head_else :
        (ys : List ℕ)
        → Fresh x ys
        → Doubly s.prev s.next none s.head ys s.tail
        → points_to s.head x ≡ false
    head_else [] g d = rw d.0 refl
    head_else (y ∷ ys) g d = rw d.0 (ground (arith, g.0))

-- What `release` does when `xs` wait: the first one is resumed, or the counter goes up, or it is at
-- its topimum.
abbrev pub Releases : ℕ → Semaphore → List ℕ → Released × Semaphore → Type 0
Releases top s [] r =
    ((s.counter ≡ top) × (r ≡ (terminated, s)))
    ⊎ ((s.counter ≢ top) × (r.0 ≡ counted) × (r.1.counter ≡ s.counter + 1) × Waits r.1 [])
Releases top s (x ∷ xs) r = (r.0 ≡ resumed x) × (r.1.counter ≡ s.counter) × Waits r.1 xs

-- `pop_head` is the removal of the first state.
pop_head-relink :
    (s : Semaphore) (x : ℕ)
    → s.prev x ≡ none
    → pop_head x s ≡ relink x (record s { head = s.next x })
unfolding pop_head relink detach
pop_head-relink s x e = elim (Option-cases (s.next x)) [
  | inl h ↦ simp (h, e, pop_head, relink, detach)
  | inr (n, h) ↦ simp (h, e, pop_head, relink, detach)
]

release_at-none : (top : ℕ) (s : Semaphore) → Waits s [] → Releases top s [] (release_at none top s)
unfolding release_at
release_at-none top s w = elim (Bool-cases (s.counter == top)) [
  | inl h ↦ let e : s.counter ≡ top = ground arith in rw (h, release_at) (inl (e, refl))
  | inr h ↦
      let e : s.counter ≢ top = ground arith in
      rw (h, release_at)
        (inr (
          e,
          refl,
          refl,
          record {
            chain = w.chain;
            distinct = tt;
            outside = w.outside;
            spent = λ n. absurd (n refl);
          },
        ))
]

release_at-some :
    (top : ℕ) (s : Semaphore) (x : ℕ) (xs : List ℕ)
    → Waits s (x ∷ xs)
    → Releases top s (x ∷ xs) (release_at (some x) top s)
unfolding release_at
release_at-some top s x xs w = rw (pop_head-relink s x w.chain.1) (
  refl,
  (relink-kept (record s { head = s.next x }) x).1,
  head-Waits s x (x ∷ xs) xs w here w.chain.0,
)

pub release-Releases :
    (top : ℕ) (s : Semaphore) (xs : List ℕ) → Waits s xs → Releases top s xs (release top s)
unfolding release
release-Releases top s [] w =
    subst (λ p. Releases top s [] (release_at p top s)) (sym w.chain.0) (release_at-none top s w)
release-Releases top s (x ∷ xs) w =
    subst (λ p. Releases top s (x ∷ xs) (release_at p top s)) (sym w.chain.0)
      (release_at-some top s x xs w)

-- Started with a permit, or queued.
abbrev pub Starts : ℕ → Semaphore → List ℕ → Started × Semaphore → Type 0
Starts x s xs r =
    ((r.0 ≡ completed) × (r.1.counter + 1 ≡ s.counter) × Waits r.1 xs)
    ⊎ ((r.0 ≡ queued) × (s.counter ≡ 0) × (r.1.counter ≡ 0) × Waits r.1 (xs ++ x ∷ []))

append_waiter-counter : (x : ℕ) (s : Semaphore) → (append_waiter x s).counter ≡ s.counter
unfolding append_waiter
append_waiter-counter x s = elim (Option-cases s.tail) [
  | inl h ↦ rw (h, append_waiter) refl
  | inr (t, h) ↦ rw (h, append_waiter) refl
]

-- `start` of a state that does not wait completes it with a permit, or puts it at the end of the list
-- when none is left.
pub start-Starts :
    (x : ℕ) (s : Semaphore) (xs : List ℕ)
    → Waits s xs
    → Fresh x xs
    → Starts x s xs (start false x s)
unfolding start try_acquire
start-Starts x s xs w f = elim (Bool-cases (s.counter == 0)) [
  | inl h ↦
      rw (h, start, try_acquire)
        (let z : s.counter ≡ 0 = ground arith in
          inr (refl, z, append_waiter-counter x s ∙ z, append_waiter-Waits s xs x w f z))
  | inr h ↦
      let z : s.counter ≢ 0 = ground arith in
      rw (h, start, try_acquire)
        (inl (
          refl,
          omega arith,
          record {
            chain = w.chain;
            distinct = w.distinct;
            outside = w.outside;
            spent = λ e. absurd (z (w.spent e));
          },
        ))
]
