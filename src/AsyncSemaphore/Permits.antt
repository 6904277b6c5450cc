-- ===== src/AsyncSemaphore/Permits.antt =====
-- The permits of `async_semaphore` along any sequence of its operations.
use coio.Base.{
  ℕ, ◌+◌, ◌≡◌, refl, sym, ap, subst, ◌≢◌, inl, inr, true, false, List, [], ◌∷◌, ◌++◌, arith, ◌==◌,
  Bool-cases,
}
use coio.Links.{Fresh}
use coio.AsyncSemaphore.{
  Semaphore, new_semaphore, Started, completed, queued, Released, resumed, counted, try_acquire,
  start, release, unregister,
}
use coio.AsyncSemaphore.Unlink.{Removed, Removed-In, Removed-first}
use coio.AsyncSemaphore.Waiting.{Waits, new_semaphore-Waits}
use coio.AsyncSemaphore.Operations.{
  unregister-Waits, release-Releases, Releases, Starts, start-Starts,
}

-- `waiting` are the states that were queued and neither resumed nor stopped since, `taken` counts the
-- permits that were handed out and `given` those that were given back. A state is started when it does
-- not wait.
pub data Reach (permits top : ℕ) : Semaphore → List ℕ → ℕ → ℕ → Type 0 where
  create : Reach permits top (new_semaphore permits) [] 0 0
  start_completes :
      {s : Semaphore} {xs : List ℕ} {taken given : ℕ} (x : ℕ)
      → Reach permits top s xs taken given
      → Fresh x xs
      → (start false x s).0 ≡ completed
      → Reach permits top (start false x s).1 xs (taken + 1) given
  start_queues :
      {s : Semaphore} {xs : List ℕ} {taken given : ℕ} (x : ℕ)
      → Reach permits top s xs taken given
      → Fresh x xs
      → (start false x s).0 ≡ queued
      → Reach permits top (start false x s).1 (xs ++ x ∷ []) taken given
  tries :
      {s : Semaphore} {xs : List ℕ} {taken given : ℕ}
      → Reach permits top s xs taken given
      → (try_acquire s).0 ≡ true
      → Reach permits top (try_acquire s).1 xs (taken + 1) given
  release_resumes :
      {s : Semaphore} {xs ys : List ℕ} {taken given : ℕ} (x : ℕ)
      → Reach permits top s xs taken given
      → (release top s).0 ≡ resumed x
      → Removed x xs ys
      → Reach permits top (release top s).1 ys (taken + 1) (given + 1)
  release_counts :
      {s : Semaphore} {xs : List ℕ} {taken given : ℕ}
      → Reach permits top s xs taken given
      → (release top s).0 ≡ counted
      → Reach permits top (release top s).1 xs taken (given + 1)
  stops :
      {s : Semaphore} {xs ys : List ℕ} {taken given : ℕ} (x : ℕ)
      → Reach permits top s xs taken given
      → (unregister x s).0 ≡ true
      → Removed x xs ys
      → Reach permits top (unregister x s).1 ys taken given

-- What every reachable state satisfies.
abbrev Good : ℕ → Semaphore → List ℕ → ℕ → ℕ → Type 0
Good permits s xs taken given = Waits s xs × (s.counter + taken ≡ permits + given)

try_acquire-Waits :
    (s : Semaphore) (xs : List ℕ)
    → Waits s xs
    → (try_acquire s).0 ≡ true
    → Waits (try_acquire s).1 xs × ((try_acquire s).1.counter + 1 ≡ s.counter)
unfolding try_acquire
try_acquire-Waits s xs w e = elim (Bool-cases (s.counter == 0)) [
  | inl h ↦ absurd (ground (arith, e, h))
  | inr h ↦
      let z : s.counter ≢ 0 = ground arith in
      rw (h, try_acquire)
        (
          record {
            chain = w.chain;
            distinct = w.distinct;
            outside = w.outside;
            spent = λ n. absurd (z (w.spent n));
          },
          omega arith,
        )
]

completes-Good :
    (permits x : ℕ) (s : Semaphore) (xs : List ℕ) (taken given : ℕ) (r : Started × Semaphore)
    → Good permits s xs taken given
    → r.0 ≡ completed
    → Starts x s xs r
    → Good permits r.1 xs (taken + 1) given
completes-Good permits x s xs taken given r g e (inl h) = (h.2, omega (arith, g.1, h.1))
completes-Good permits x s xs taken given r g e (inr h) = absurd (cc h.0)

queues-Good :
    (permits x : ℕ) (s : Semaphore) (xs : List ℕ) (taken given : ℕ) (r : Started × Semaphore)
    → Good permits s xs taken given
    → r.0 ≡ queued
    → Starts x s xs r
    → Good permits r.1 (xs ++ x ∷ []) taken given
queues-Good permits x s xs taken given r g e (inl h) = absurd (cc h.0)
queues-Good permits x s xs taken given r g e (inr h) = (h.3, omega (arith, g.1, h.1, h.2))

resumes-Good :
    (permits top : ℕ) (s : Semaphore) (xs : List ℕ) (taken given x : ℕ) (ys : List ℕ)
    (r : Released × Semaphore)
    → Good permits s xs taken given
    → r.0 ≡ resumed x
    → Removed x xs ys
    → Releases top s xs r
    → Good permits r.1 ys (taken + 1) (given + 1)
resumes-Good permits top s (y ∷ ys) taken given x zs r g e m h = (
  subst (Waits r.1)
      (sym (Removed-first m (subst (λ z. Fresh z ys) (ground (arith, e, h.0)) g.0.distinct.0))) h.2,
  omega (arith, g.1, h.1),
)
resumes-Good permits top s [] taken given x zs r g e m h = elim (Removed-In m) [ ]

counts-Good :
    (permits top : ℕ) (s : Semaphore) (xs : List ℕ) (taken given : ℕ) (r : Released × Semaphore)
    → Good permits s xs taken given
    → r.0 ≡ counted
    → Releases top s xs r
    → Good permits r.1 xs taken (given + 1)
counts-Good permits top s (y ∷ ys) taken given r g e h = absurd (cc h.0)
counts-Good permits top s [] taken given r g e (inl h) = absurd (cc (ap (λ p. p.0) h.1))
counts-Good permits top s [] taken given r g e (inr h) = (h.3, omega (arith, g.1, h.2))

stops-Good :
    (permits : ℕ) (s : Semaphore) (xs ys : List ℕ) (taken given x : ℕ)
    → Good permits s xs taken given
    → Removed x xs ys
    → Good permits (unregister x s).1 ys taken given
stops-Good permits s xs ys taken given x g m =
    let (a, b, c) = unregister-Waits s x xs ys g.0 m in (b, omega (arith, c, g.1))

tries-Good :
    (permits : ℕ) (s : Semaphore) (xs : List ℕ) (taken given : ℕ)
    → Good permits s xs taken given
    → (try_acquire s).0 ≡ true
    → Good permits (try_acquire s).1 xs (taken + 1) given
tries-Good permits s xs taken given g e =
    let (w, c) = try_acquire-Waits s xs g.0 e in (w, omega (arith, c, g.1))

Reach-Good :
    {permits top : ℕ} {s : Semaphore} {xs : List ℕ} {taken given : ℕ}
    → Reach permits top s xs taken given
    → Good permits s xs taken given
Reach-Good {permits} create = (new_semaphore-Waits permits, refl)
Reach-Good {permits} (start_completes {s = s} {xs = xs} {taken = a} {given = b} x r f e) =
    let g = Reach-Good r in
    completes-Good permits x s xs a b (start false x s) g e (start-Starts x s xs g.0 f)
Reach-Good {permits} (start_queues {s = s} {xs = xs} {taken = a} {given = b} x r f e) =
    let g = Reach-Good r in
    queues-Good permits x s xs a b (start false x s) g e (start-Starts x s xs g.0 f)
Reach-Good {permits} (tries {s = s} {xs = xs} {taken = a} {given = b} r e) =
    tries-Good permits s xs a b (Reach-Good r) e
Reach-Good {permits} {top}
      (release_resumes {s = s} {xs = xs} {ys = ys} {taken = a} {given = b} x r e m) =
    let g = Reach-Good r in
    resumes-Good permits top s xs a b x ys (release top s) g e m (release-Releases top s xs g.0)
Reach-Good {permits} {top} (release_counts {s = s} {xs = xs} {taken = a} {given = b} r e) =
    let g = Reach-Good r in
    counts-Good permits top s xs a b (release top s) g e (release-Releases top s xs g.0)
Reach-Good {permits} (stops {s = s} {xs = xs} {ys = ys} {taken = a} {given = b} x r e m) =
    stops-Good permits s xs ys a b x (Reach-Good r) m

-- Along any sequence of operations, the counter and the permits handed out are the initial permits and
-- those given back.
pub permits_conserved :
    {permits top : ℕ} {s : Semaphore} {xs : List ℕ} {taken given : ℕ}
    → Reach permits top s xs taken given
    → s.counter + taken ≡ permits + given
permits_conserved r = (Reach-Good r).1

-- Along any sequence of operations, a state waits only when every permit is handed out.
pub waits_for_none_left :
    {permits top : ℕ} {s : Semaphore} {xs : List ℕ} {taken given : ℕ}
    → Reach permits top s xs taken given
    → xs ≢ []
    → taken ≡ permits + given
waits_for_none_left r n = let (w, e) = Reach-Good r in omega (arith, e, w.spent n)

-- After any sequence of operations, `release` resumes the state that waits longest and leaves the
-- others; if none waits, it counts up, or terminates when the counter is at its maximum.
pub oldest_first :
    {permits top : ℕ} {s : Semaphore} {xs : List ℕ} {taken given : ℕ}
    → Reach permits top s xs taken given
    → Releases top s xs (release top s)
oldest_first {top = top} {s = s} {xs = xs} r = release-Releases top s xs (Reach-Good r).0

pub Reach-Waits :
    {permits top : ℕ} {s : Semaphore} {xs : List ℕ} {taken given : ℕ}
    → Reach permits top s xs taken given
    → Waits s xs
Reach-Waits r = (Reach-Good r).0
