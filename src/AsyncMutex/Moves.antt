-- ===== src/AsyncMutex/Moves.antt =====
-- Every step of `async_mutex` keeps what is known of the holder and of the waiters.
use coio.Base.{
  ℕ, ◌≡◌, refl, sym, ap, ◌∙◌, subst, ◌≢◌, inl, inr, true, false, List, [], ◌∷◌, ◌++◌, reverse,
  arith, ℕ_discrete, Bool-cases,
}
use coio.Links.{
  Pointer, first, Fresh, Distinct-append, Apart-symm, In, Fresh-of-In, In-Fresh, In-last,
  In-append_left, In-snoc,
}
use coio.AsyncMutex.{
  Mutex, free, locked, Pc, idle, starting, linked, waiting, trying, owner, releasing, exchanging,
  handing, completing, update, goto, Move, begin, begin_try, lock, link, enqueue, retry, try_ok,
  try_busy, load_some, load_none, unlock, unlock_fails, exchange, store_head, complete, pick,
  new_mutex, Reach, start, later,
}
use coio.AsyncMutex.Invariant.{
  holds, pending, line, Fits, Held, Inv, unheld, held, Held-mover, Held-bystander,
}
use mathlib.Core.List.{append-nil, reverse-cons, append_assoc, reverse-reverse}

-- A step that leaves the lock alone.
Inv-bystander :
    {l : Mutex} (i : ℕ) (p r : Pc)
    → Inv l
    → l.pc i ≡ p
    → holds p ≡ false
    → p ≢ waiting
    → holds r ≡ false
    → r ≢ waiting
    → Inv (goto l i r)
Inv-bystander i p r (unheld w e f g) k a b c d =
    unheld w e (λ j. ground (arith, f j)) (λ j s. ground (arith, g j))
Inv-bystander i p r (held h q stack v) k a b c d = held h q stack (Held-bystander i p r v k a b c d)

-- A lock that was free is taken.
Inv-take :
    {l : Mutex} (i : ℕ) → Inv l → l.word ≡ free → Inv (goto (record l { word = locked [] }) i owner)
Inv-take {l} i (unheld w e f g) k = held i owner [] record {
  word = refl;
  here = ground arith;
  holder = refl;
  unique = λ j s. ground (arith, f j);
  fits = tt;
  distinct = rw e tt;
  members = λ j s. elim (subst (λ hs. In j (hs ++ [])) e s) [ ];
  waits = λ j s. ground (arith, g j);
}
Inv-take i (held h q stack v) k = absurd cc

-- The holder goes on, and the line stays the same.
Held-advance :
    {l : Mutex} {p : Pc} {stack : List ℕ} (m : Mutex) (i : ℕ) (r : Pc) (rest : List ℕ)
    → Held l i p stack
    → m.word ≡ locked rest
    → m.pc ≡ update l.pc i r
    → holds r ≡ true
    → r ≢ waiting
    → p ≢ waiting
    → Fits r m.head rest
    → line r m.head rest ≡ line p l.head stack
    → Held m i r rest
Held-advance {l} {p} {stack} m i r rest v w e a b c f q = record {
  word = w;
  here = rw e (ground arith);
  holder = a;
  unique = λ j s. unique_after j (subst (λ k. holds (k j) ≡ true) e s);
  fits = f;
  distinct = rw q v.distinct;
  members = λ j s. rw e (stays j (v.members j (subst (In j) q s)));
  waits = λ j s. rw q (v.waits j (was j (subst (λ k. k j ≡ waiting) e s)));
}
  where
    unique_after : (j : ℕ) → holds (update l.pc i r j) ≡ true → j ≡ i
    unique_after j s = ground (arith, v.unique j)

    stays : (j : ℕ) → l.pc j ≡ waiting → update l.pc i r j ≡ waiting
    stays j s = ground (arith, v.here)

    was : (j : ℕ) → update l.pc i r j ≡ waiting → l.pc j ≡ waiting
    was j s = ground arith

-- A waiter goes to the end of the line.
pub line-push :
    (q : Pc) (head stack : List ℕ) (i : ℕ) → line q head (i ∷ stack) ≡ line q head stack ++ i ∷ []
line-push q head stack i =
    rw (reverse-cons i stack) (sym (append_assoc (pending q head) (reverse stack) (i ∷ [])))

Fits-push : (q : Pc) (head stack : List ℕ) (i : ℕ) → Fits q head stack → Fits q head (i ∷ stack)
Fits-push releasing head stack i f = f
Fits-push exchanging head stack i f = (f.0, λ e. cc)
Fits-push (handing chain) head stack i f = f
Fits-push idle head stack i f = f
Fits-push starting head stack i f = f
Fits-push (linked old) head stack i f = f
Fits-push waiting head stack i f = f
Fits-push trying head stack i f = f
Fits-push owner head stack i f = f
Fits-push (completing x) head stack i f = f

Held-enqueue :
    {l : Mutex} {h : ℕ} {q : Pc} {stack : List ℕ} (i : ℕ) (old : Pointer)
    → Held l h q stack
    → l.pc i ≡ linked old
    → Held (goto (record l { word = locked (i ∷ stack) }) i waiting) h q (i ∷ stack)
Held-enqueue {l} {h} {q} {stack} i old v e = record {
  word = refl;
  here = ground (arith, v.here, v.holder);
  holder = v.holder;
  unique = λ j k. ground (arith, v.unique j);
  fits = Fits-push q l.head stack i v.fits;
  distinct = rw (line-push q l.head stack i) (
      Distinct-append before (i ∷ []) v.distinct (tt, tt)
        (Apart-symm (i ∷ []) before (outside, tt)));
  members = λ j k. elim (In-snoc j i before (subst (In j) (line-push q l.head stack i) k)) [
    | inl s ↦ ground arith
    | inr s ↦ ground (arith, v.members j s)
  ];
  waits = λ j k. rw (line-push q l.head stack i) (elim (ℕ_discrete i j) [
    | yes s ↦ subst (λ y. In y (before ++ i ∷ [])) s (In-last i before)
    | no s ↦ In-append_left j before (i ∷ []) (v.waits j (ground arith))
  ]);
}
  where
    before : List ℕ
    before = line q l.head stack

    outside : Fresh i before
    outside = Fresh-of-In i before (λ k. absurd (cc (v.members i k)))

Inv-enqueue :
    {l : Mutex} (i : ℕ) (old : Pointer) (xs : List ℕ)
    → Inv l
    → l.pc i ≡ linked old
    → l.word ≡ locked xs
    → Inv (goto (record l { word = locked (i ∷ xs) }) i waiting)
Inv-enqueue i old xs (unheld w e f g) k u = absurd cc
Inv-enqueue {l} i old xs (held h q stack v) k u =
    held h q (i ∷ xs) (Held-enqueue i old (subst (λ s. Held l h q s) same v) k)
  where
    same : stack ≡ xs
    same = ground (arith, v.word)

-- The thread that moves holds the lock, whatever waits on the word.
pub Inv-holder :
    {l : Mutex} (i : ℕ) (p : Pc)
    → Inv l
    → l.pc i ≡ p
    → holds p ≡ true
    → (stack : List ℕ) × Held l i p stack
Inv-holder i p (unheld w e f g) k a = absurd (ground (arith, f i))
Inv-holder i p (held h q stack v) k a = (stack, Held-mover i p v k a)

Inv-release :
    {l : Mutex} (i : ℕ)
    → Inv l
    → l.pc i ≡ releasing
    → l.word ≡ locked []
    → Inv (goto (record l { word = free }) i idle)
Inv-release {l} i v e w =
    let (stack, u) = Inv-holder i releasing v e refl in
    unheld refl u.fits
      (λ j. elim (Bool-cases (holds (l.pc j))) [
        | inl s ↦ ground (arith, u.unique j)
        | inr s ↦ ground arith
      ])
      (λ j s. elim (subst (In j) (empty stack u) (u.waits j (ground arith))) [ ])
  where
    none_waits : (stack : List ℕ) → Held l i releasing stack → stack ≡ []
    none_waits stack u = ground (arith, u.word)

    empty : (stack : List ℕ) → Held l i releasing stack → line releasing l.head stack ≡ []
    empty stack u = rw (u.fits, none_waits stack u) refl

Inv-exchange :
    {l : Mutex} (i : ℕ) (xs : List ℕ)
    → Inv l
    → l.pc i ≡ exchanging
    → l.word ≡ locked xs
    → Inv (goto (record l { word = locked [] }) i (handing (reverse xs)))
Inv-exchange {l} i xs v e w =
    let (stack, u) = Inv-holder i exchanging v e refl in
    let same : stack ≡ xs = ground (arith, u.word) in
    held i (handing (reverse xs)) [] (
      Held-advance (goto (record l { word = locked [] }) i (handing (reverse xs))) i
        (handing (reverse xs)) [] u refl refl refl (λ s. cc) (λ s. cc)
        (λ s. u.fits.1 (same ∙ reverse-nil xs s))
        (append-nil (reverse xs)
          ∙ ap reverse (sym same)
          ∙ ap (λ hs. hs ++ reverse stack) (sym u.fits.0)))
  where
    reverse-nil : (ys : List ℕ) → reverse ys ≡ [] → ys ≡ []
    reverse-nil ys s = sym (reverse-reverse ys) ∙ ap reverse s

-- The same program counters hold the lock, and the word is what it was.
Inv-advance :
    {l : Mutex} (i : ℕ) (p r : Pc) (head : List ℕ)
    → Inv l
    → l.pc i ≡ p
    → holds p ≡ true
    → holds r ≡ true
    → ((stack : List ℕ) → l.word ≡ locked stack → Fits p l.head stack → Fits r head stack)
    → pending r head ≡ pending p l.head
    → Inv (goto (record l { head = head }) i r)
Inv-advance {l} i p r head v e a b f q =
    let (stack, u) = Inv-holder i p v e a in
    held i r stack (
      Held-advance (goto (record l { head = head }) i r) i r stack u u.word refl b (λ s. cc)
        (λ s. cc) (f stack u.word u.fits) (ap (λ hs. hs ++ reverse stack) q))

-- The first in line takes over the lock.
Held-complete :
    {l : Mutex} {stack : List ℕ} (i x : ℕ)
    → Held l i (completing x) stack
    → Held (goto (goto l i idle) x owner) x owner stack
Held-complete {l} {stack} i x v = record {
  word = v.word;
  here = ground arith;
  holder = refl;
  unique = λ j s. ground (arith, v.unique j);
  fits = tt;
  distinct = v.distinct.1;
  members = λ j s.
      member j s (v.members j (inr s))
        (λ k. In-Fresh j after s (subst (λ y. Fresh y after) k v.distinct.0));
  waits = λ j s. rest j (λ k. ground arith) (v.waits j (ground (arith, v.here)));
}
  where
    after : List ℕ
    after = l.head ++ reverse stack

    member :
        (j : ℕ)
        → In j after
        → l.pc j ≡ waiting
        → (x ≢ j)
        → (goto (goto l i idle) x owner).pc j ≡ waiting
    member j s w k = ground (arith, v.here)

    rest : (j : ℕ) → (x ≢ j) → In j (x ∷ after) → In j after
    rest j k (inl s) = absurd (k (sym s))
    rest j k (inr s) = s

Inv-complete :
    {l : Mutex} (i x : ℕ) → Inv l → l.pc i ≡ completing x → Inv (goto (goto l i idle) x owner)
Inv-complete i x v e =
    let (stack, u) = Inv-holder i (completing x) v e refl in
    held x owner stack (Held-complete i x u)

Move-Inv : {l : Mutex} (i : ℕ) {p : Pc} {m : Mutex} → Move l i p m → l.pc i ≡ p → Inv l → Inv m
Move-Inv i begin e v = Inv-bystander i idle starting v e refl (λ s. cc) refl (λ s. cc)
Move-Inv i begin_try e v = Inv-bystander i idle trying v e refl (λ s. cc) refl (λ s. cc)
Move-Inv i (lock g) e v = Inv-take i v g
Move-Inv i (link {xs = xs} g) e v =
    Inv-bystander i starting (linked (first xs)) v e refl (λ s. cc) refl (λ s. cc)
Move-Inv i (enqueue {old = old} {xs = xs} g f) e v = Inv-enqueue i old xs v e g
Move-Inv i (retry {old = old}) e v =
    Inv-bystander i (linked old) starting v e refl (λ s. cc) refl (λ s. cc)
Move-Inv i (try_ok g) e v = Inv-take i v g
Move-Inv i (try_busy g) e v = Inv-bystander i trying idle v e refl (λ s. cc) refl (λ s. cc)
Move-Inv {l} i (load_some g) e v =
    Inv-advance i owner (handing l.head) l.head v e refl refl (λ s w f k. cc) refl
Move-Inv {l} i (load_none g) e v =
    Inv-advance i owner releasing l.head v e refl refl (λ s w f. g) refl
Move-Inv i (unlock g) e v = Inv-release i v e g
Move-Inv {l} i (unlock_fails g) e v =
    Inv-advance i releasing exchanging l.head v e refl refl (λ s w f. (f, (λ k. cc))) refl
Move-Inv i (exchange {xs = xs} g) e v = Inv-exchange i xs v e g
Move-Inv i (store_head {x = x} {xs = xs}) e v =
    Inv-advance i (handing (x ∷ xs)) (completing x) xs v e refl refl (λ s w f. tt) refl
Move-Inv i (complete {x = x}) e v = Inv-complete i x v e

new_mutex-Inv : Inv new_mutex
new_mutex-Inv = unheld refl refl (λ j. refl) (λ j s. cc)

pub Reach-Inv : {l : Mutex} → Reach l → Inv l
Reach-Inv start = new_mutex-Inv
Reach-Inv (later {l = l} r (pick i mv)) = Move-Inv i mv refl (Reach-Inv r)
