-- ===== src/AsyncLatch/Invariant.antt =====
-- What holds in every reachable state of a latch.
use coio.Base.{
  ℕ, ◌-◌, ◌<◌, ◌≡◌, refl, sym, subst, ◌≢◌, ◌⊎◌, inl, inr, Bool, true, false, List, [], ◌∷◌, arith,
  ℕ_discrete, ◌==◌,
}
use coio.AtomicStack.Laws.{Stack, untouched, nodes, items}
use coio.Links.{In}
use coio.AsyncLatch.{
  Latch, Pc, notify, walk, returned, stopped, queued, resumed, update, behind, pushed, Move, last,
  arrive, pop, resume, leave, pass, push, Step, pick, init, Reach, start, later,
}

-- The program counters that are reached only when the counter is zero.
abbrev pub settled : Pc → Bool
settled (notify w) = true
settled (walk xs w) = true
settled (returned left) = left == 0
settled _ = false

-- Some thread is about to take the whole stack.
abbrev pub Notifier : Latch → Type 0
Notifier l = (j : ℕ) × (w : Bool) × (l.pc j ≡ notify w)

-- Waiter `i` is on the stack or in the hands of a thread that walks along what it took.
abbrev pub Located : Latch → ℕ → Type 0
Located l i =
    In i (items l.waiting) ⊎ ((j : ℕ) × (xs : List ℕ) × (w : Bool) × (l.pc j ≡ walk xs w) × In i xs)

pub record Inv (l : Latch) : Type 0 where
  pub awake : l.counter ≡ 0 → (l.waiting ≡ nodes []) ⊎ Notifier l
  pub zero_popped : l.waiting ≡ nodes [] → l.counter ≡ 0
  pub zero_pc : (j : ℕ) → settled (l.pc j) ≡ true → l.counter ≡ 0
  pub zero_waiter : (j : ℕ) → l.waiter j ≡ resumed → l.counter ≡ 0
  pub located : (j : ℕ) → l.waiter j ≡ queued → Located l j

init-Inv : (count : ℕ) (waits : ℕ → Bool) → 0 < count → Inv (init count waits)
init-Inv count waits h = record {
  awake = λ e. absurd (omega arith);
  zero_popped = λ e. cc;
  zero_pc = λ j e. cc;
  zero_waiter = λ j e. cc;
  located = λ j e. cc;
}

pushed-cases : (s : Stack) → (pushed s ≡ stopped) ⊎ (s ≡ nodes [])
pushed-cases untouched = inl refl
pushed-cases (nodes []) = inr refl
pushed-cases (nodes (x ∷ xs)) = inl refl

module _ {l : Latch} (v : Inv l) (i : ℕ) where
  -- Another thread that is about to notify stays so.
  awake-kept :
      (p : Pc)
      → ((w : Bool) → l.pc i ≢ notify w)
      → l.counter ≡ 0
      → (l.waiting ≡ nodes []) ⊎ ((j : ℕ) × (w : Bool) × (update l.pc i p j ≡ notify w))
  awake-kept p f z = elim (v.awake z) [
    | inl e ↦ inl e
    | inr (j, w, h) ↦ inr (j, w, ground (arith, f w))
  ]

  push-awake :
      (left : ℕ)
      → l.pc i ≡ returned left
      → l.counter ≡ 0
      → (j : ℕ) × (w : Bool) × (update l.pc i (pushed l.waiting) j ≡ notify w)
  push-awake left e z = elim (awake-kept (pushed l.waiting) (λ w h. cc) z) [
    | inl q ↦ (i, false, rw q (ground arith))
    | inr n ↦ n
  ]

  Move-awake :
      {p : Pc} {m : Latch}
      → Move l i p m
      → l.pc i ≡ p
      → m.counter ≡ 0
      → (m.waiting ≡ nodes []) ⊎ Notifier m
  Move-awake (last {w = w} n g) e z = inr (i, w, ground arith)
  Move-awake (arrive n g) e z = absurd (omega arith)
  Move-awake pop e z = inl refl
  Move-awake (resume {w = w} x {xs = xs}) e z = awake-kept (walk xs w) (λ u h. cc) z
  Move-awake (leave {w = w}) e z = awake-kept (behind w 0) (λ u h. cc) z
  Move-awake pass e z = awake-kept stopped (λ u h. cc) z
  Move-awake (push {left = left} g) e z = inr (push-awake left e z)

  push-zero_pc : (j : ℕ) → settled (update l.pc i (pushed l.waiting) j) ≡ true → l.counter ≡ 0
  push-zero_pc j s = elim (pushed-cases l.waiting) [
    | inl e ↦ ground (arith, v.zero_pc j, e)
    | inr e ↦ v.zero_popped e
  ]

  Move-zero_pc :
      {p : Pc} {m : Latch}
      → Move l i p m
      → l.pc i ≡ p
      → (j : ℕ) → settled (m.pc j) ≡ true
      → m.counter ≡ 0
  Move-zero_pc (last n g) e j s = refl
  Move-zero_pc (arrive {w = true} n g) e j s = ground (arith, v.zero_pc j)
  Move-zero_pc (arrive {w = false} n g) e j s = ground (arith, v.zero_pc j)
  Move-zero_pc pop e j s = ground (arith, v.zero_pc j, v.zero_pc i)
  Move-zero_pc (resume x) e j s = ground (arith, v.zero_pc j, v.zero_pc i)
  Move-zero_pc (leave {w = true}) e j s = ground (arith, v.zero_pc j, v.zero_pc i)
  Move-zero_pc (leave {w = false}) e j s = ground (arith, v.zero_pc j, v.zero_pc i)
  Move-zero_pc pass e j s = ground (arith, v.zero_pc j, v.zero_pc i)
  Move-zero_pc (push g) e j s = push-zero_pc j s

  Move-zero_waiter :
      {p : Pc} {m : Latch}
      → Move l i p m
      → l.pc i ≡ p
      → (j : ℕ) → m.waiter j ≡ resumed
      → m.counter ≡ 0
  Move-zero_waiter (last n g) e j s = refl
  Move-zero_waiter (arrive n g) e j s = ground (arith, v.zero_waiter j)
  Move-zero_waiter pop e j s = ground (arith, v.zero_waiter j)
  Move-zero_waiter (resume x) e j s = ground (arith, v.zero_waiter j, v.zero_pc i)
  Move-zero_waiter leave e j s = ground (arith, v.zero_waiter j)
  Move-zero_waiter pass e j s = ground (arith, v.zero_waiter j, v.zero_pc i)
  Move-zero_waiter (push g) e j s = ground (arith, v.zero_waiter j)

  Move-zero_popped :
      {p : Pc} {m : Latch} → Move l i p m → l.pc i ≡ p → m.waiting ≡ nodes [] → m.counter ≡ 0
  Move-zero_popped (last n g) e q = refl
  Move-zero_popped (arrive n g) e q = absurd (omega (arith, v.zero_popped q))
  Move-zero_popped pop e q = ground (arith, v.zero_pc i)
  Move-zero_popped (resume x) e q = v.zero_popped q
  Move-zero_popped leave e q = v.zero_popped q
  Move-zero_popped pass e q = v.zero_popped q
  Move-zero_popped (push g) e q = cc

  -- A waiter on the stack, or in the hands of a thread other than `i`, stays where it is.
  Located-kept :
      (p : Pc) (y : ℕ)
      → ((xs : List ℕ) (w : Bool) → l.pc i ≢ walk xs w)
      → Located l y
      → In y (items l.waiting)
        ⊎ ((j : ℕ) × (xs : List ℕ) × (w : Bool) × (update l.pc i p j ≡ walk xs w) × In y xs)
  Located-kept p y f (inl h) = inl h
  Located-kept p y f (inr (j, xs, w, h, k)) = inr (j, xs, w, ground (arith, f xs w), k)

  pop-Located :
      (u : Bool) (y : ℕ)
      → l.pc i ≡ notify u
      → Located l y
      → (j : ℕ) × (xs : List ℕ) × (w : Bool) × (update l.pc i (walk (items l.waiting) u) j
          ≡ walk xs w)
        × In y xs
  pop-Located u y e (inl h) = (i, items l.waiting, u, ground arith, h)
  pop-Located u y e (inr (j, xs, w, h, k)) = (j, xs, w, ground arith, k)

  -- Thread `i` completes `x` and goes on; every other waiter in its hands stays there.
  resume-Located :
      (x : ℕ) (rest : List ℕ) (u : Bool) (y : ℕ)
      → l.pc i ≡ walk (x ∷ rest) u
      → x ≢ y
      → Located l y
      → In y (items l.waiting)
        ⊎ ((j : ℕ) × (xs : List ℕ) × (w : Bool) × (update l.pc i (walk rest u) j ≡ walk xs w)
            × In y xs)
  resume-Located x rest u y e ne (inl h) = inl h
  resume-Located x rest u y e ne (inr (j, xs, w, h, k)) = elim (ℕ_discrete i j) [
    | yes q ↦ inr (i, rest, u, ground arith, In-rest (subst (In y) (same q) k))
    | no q ↦ inr (j, xs, w, ground arith, k)
  ]
    where
      same : i ≡ j → xs ≡ x ∷ rest
      same q = ground arith

      In-rest : In y (x ∷ rest) → In y rest
      In-rest (inl r) = absurd (ne (sym r))
      In-rest (inr r) = r

  leave-Located :
      (u : Bool) (p : Pc) (y : ℕ)
      → l.pc i ≡ walk [] u
      → Located l y
      → In y (items l.waiting)
        ⊎ ((j : ℕ) × (xs : List ℕ) × (w : Bool) × (update l.pc i p j ≡ walk xs w) × In y xs)
  leave-Located u p y e (inl h) = inl h
  leave-Located u p y e (inr (j, [], w, h, k)) = elim k [ ]
  leave-Located u p y e (inr (j, x ∷ xs, w, h, k)) = inr (j, x ∷ xs, w, ground arith, k)

  push-Located :
      (left y : ℕ)
      → l.pc i ≡ returned left
      → ((i ≢ y) → Located l y)
      → In y (i ∷ items l.waiting)
        ⊎ ((j : ℕ) × (xs : List ℕ) × (w : Bool) × (update l.pc i (pushed l.waiting) j ≡ walk xs w)
            × In y xs)
  push-Located left y e h = elim (ℕ_discrete i y) [
    | yes q ↦ inl (inl (sym q))
    | no q ↦ elim (Located-kept (pushed l.waiting) y (λ xs w r. cc) (h q)) [
      | inl k ↦ inl (inr k)
      | inr k ↦ inr k
    ]
  ]

  Move-Located :
      {p : Pc} {m : Latch} → Move l i p m → l.pc i ≡ p → (y : ℕ) → m.waiter y ≡ queued → Located m y
  Move-Located (last {w = w} n g) e y q = Located-kept (notify w) y (λ xs u r. cc) (v.located y q)
  Move-Located (arrive {w = w} n g) e y q =
      Located-kept (behind w (l.counter - n)) y (λ xs u r. cc) (v.located y q)
  Move-Located (pop {w = w}) e y q = inr (pop-Located w y e (v.located y q))
  Move-Located (resume {w = w} x {xs = xs}) e y q =
      resume-Located x xs w y e (λ r. ground arith) (v.located y (ground arith))
  Move-Located (leave {w = w}) e y q = leave-Located w (behind w 0) y e (v.located y q)
  Move-Located pass e y q = Located-kept stopped y (λ xs u r. cc) (v.located y (ground arith))
  Move-Located (push {left = left} g) e y q =
      push-Located left y e (λ r. v.located y (ground arith))

  Move-Inv : {m : Latch} → Move l i (l.pc i) m → Inv m
  Move-Inv mv = record {
    awake = Move-awake mv refl;
    zero_popped = Move-zero_popped mv refl;
    zero_pc = Move-zero_pc mv refl;
    zero_waiter = Move-zero_waiter mv refl;
    located = Move-Located mv refl;
  }

pub Step-Inv : {l m : Latch} → Step l m → Inv l → Inv m
Step-Inv (pick i mv) v = Move-Inv v i mv

pub Reach-Inv : {count : ℕ} {waits : ℕ → Bool} {l : Latch} → 0 < count → Reach count waits l → Inv l
Reach-Inv {count} {waits} h start = init-Inv count waits h
Reach-Inv h (later r st) = Step-Inv st (Reach-Inv h r)
