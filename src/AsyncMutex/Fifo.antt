-- ===== src/AsyncMutex/Fifo.antt =====
-- The order in which `async_mutex` serves its waiters.
use coio.Base.{
  ℕ, ◌≡◌, refl, sym, ap, ◌∙◌, subst, true, false, Option, List, [], ◌∷◌, ◌++◌, reverse, arith,
}
use coio.Links.{first}
use coio.AsyncMutex.{
  Mutex, free, locked, Pc, idle, starting, linked, trying, waiting, owner, releasing, exchanging,
  handing, completing, update, goto, Move, begin, begin_try, lock, link, enqueue, retry, try_ok,
  try_busy, load_some, load_none, unlock, unlock_fails, exchange, store_head, complete, Step, pick,
  Reach, later,
}
use coio.AsyncMutex.Invariant.{holds, pending, line, Held, Inv, unheld, held}
use coio.AsyncMutex.Moves.{Reach-Inv, Inv-holder, line-push}
use mathlib.Core.List.{append-nil}

-- `xs` waits for the lock, first in line first.
pub data Queue (l : Mutex) (xs : List ℕ) : Type 0 where
  nobody : l.word ≡ free → xs ≡ [] → Queue l xs
  behind :
      (h : ℕ) (q : Pc) (stack : List ℕ)
      → l.word ≡ locked stack
      → l.pc h ≡ q
      → holds q ≡ true
      → xs ≡ line q l.head stack
      → Queue l xs

-- What a step does to the line: nothing, one more at its end, or the first one gets the lock.
pub data Served (l m : Mutex) (xs ys : List ℕ) : Type 0 where
  kept : ys ≡ xs → Served l m xs ys
  joined : (i : ℕ) → ys ≡ xs ++ i ∷ [] → m.pc i ≡ waiting → Served l m xs ys
  served : (x : ℕ) → xs ≡ x ∷ ys → m.pc x ≡ owner → Served l m xs ys

abbrev After : Mutex → Mutex → List ℕ → Type 0
After l m xs = (ys : List ℕ) × Queue m ys × Served l m xs ys

Queue-bystander :
    {l : Mutex} {xs : List ℕ} (i : ℕ) (p r : Pc)
    → Queue l xs
    → l.pc i ≡ p
    → holds p ≡ false
    → After l (goto l i r) xs
Queue-bystander {l} {xs} i p r (nobody w e) k a = (xs, nobody w e, kept refl)
Queue-bystander {l} {xs} i p r (behind h q stack w e b f) k a =
    (xs, behind h q stack w (ground arith) b f, kept refl)

Queue-take :
    {l : Mutex} {xs : List ℕ} (i : ℕ)
    → Inv l
    → Queue l xs
    → l.word ≡ free
    → After l (goto (record l { word = locked [] }) i owner) xs
Queue-take {l} {xs} i (unheld w e f g) (nobody u k) c =
    (xs, behind i owner [] refl (ground arith) refl (k ∙ sym (rw e refl)), kept refl)
Queue-take i v (behind h q stack w e b f) c = absurd cc
Queue-take i (held h q stack v) k c = absurd (cc v.word)

Queue-enqueue :
    {l : Mutex} {xs : List ℕ} (i : ℕ) (old : Option ℕ) (ys : List ℕ)
    → Queue l xs
    → l.pc i ≡ linked old
    → l.word ≡ locked ys
    → After l (goto (record l { word = locked (i ∷ ys) }) i waiting) xs
Queue-enqueue i old ys (nobody w e) k c = absurd cc
Queue-enqueue {l} {xs} i old ys (behind h q stack w e b f) k c = (
  xs ++ i ∷ [],
  behind h q (i ∷ ys) refl (ground arith) b
      (rw (line-push q l.head ys i) (ap (λ zs. zs ++ i ∷ []) (f ∙ ap (line q l.head) same))),
  joined i refl (ground arith),
)
  where
    same : stack ≡ ys
    same = ground arith

-- The line as the thread that moves knows it.
Queue-holder :
    {l : Mutex} {xs : List ℕ} (i : ℕ) (p : Pc)
    → Inv l
    → Queue l xs
    → l.pc i ≡ p
    → holds p ≡ true
    → (stack : List ℕ) × Held l i p stack × (xs ≡ line p l.head stack)
Queue-holder i p v (nobody w e) k a = let (stack, u) = Inv-holder i p v k a in absurd (cc u.word)
Queue-holder {l} {xs} i p v (behind h q stack w e b f) k a =
    let (rest, u) = Inv-holder i p v k a in
    (rest, u, f ∙ ap (λ r. line r l.head stack) (same u) ∙ ap (line p l.head) (tail u))
  where
    same : {rest : List ℕ} → Held l i p rest → q ≡ p
    same u = sym e ∙ ap l.pc (u.unique h (rw e b)) ∙ k

    tail : {rest : List ℕ} → Held l i p rest → stack ≡ rest
    tail u = ground (arith, u.word)

-- The holder goes on, and the line stays the same.
Queue-advance :
    {l : Mutex} {xs : List ℕ} (m : Mutex) (i : ℕ) (p r : Pc)
    → Inv l
    → Queue l xs
    → l.pc i ≡ p
    → holds p ≡ true
    → holds r ≡ true
    → m.pc ≡ update l.pc i r
    → m.word ≡ l.word
    → pending r m.head ≡ pending p l.head
    → After l m xs
Queue-advance {l} {xs} m i p r v k e a b f w t =
    let (stack, u, s) = Queue-holder i p v k e a in
    (
      xs,
      behind i r stack (w ∙ u.word) (rw f (ground arith)) b
          (s ∙ ap (λ hs. hs ++ reverse stack) (sym t)),
      kept refl,
    )

Queue-exchange :
    {l : Mutex} {xs : List ℕ} (i : ℕ) (ys : List ℕ)
    → Inv l
    → Queue l xs
    → l.pc i ≡ exchanging
    → l.word ≡ locked ys
    → After l (goto (record l { word = locked [] }) i (handing (reverse ys))) xs
Queue-exchange {l} {xs} i ys v k e w =
    let (stack, u, s) = Queue-holder i exchanging v k e refl in
    let same : stack ≡ ys = ground (arith, u.word) in
    (
      xs,
      behind i (handing (reverse ys)) [] refl (ground arith) refl (
          s
          ∙ ap (λ hs. hs ++ reverse stack) u.fits.0
          ∙ ap reverse same
          ∙ sym (append-nil (reverse ys))),
      kept refl,
    )

Queue-release :
    {l : Mutex} {xs : List ℕ} (i : ℕ)
    → Inv l
    → Queue l xs
    → l.pc i ≡ releasing
    → l.word ≡ locked []
    → After l (goto (record l { word = free }) i idle) xs
Queue-release {l} {xs} i v k e w =
    let (stack, u, s) = Queue-holder i releasing v k e refl in
    let same : stack ≡ [] = ground (arith, u.word) in
    ([], nobody refl refl, kept (sym (s ∙ ap (λ hs. hs ++ reverse stack) u.fits ∙ ap reverse same)))

Queue-complete :
    {l : Mutex} {xs : List ℕ} (i x : ℕ)
    → Inv l
    → Queue l xs
    → l.pc i ≡ completing x
    → After l (goto (goto l i idle) x owner) xs
Queue-complete {l} i x v k e =
    let (stack, u, s) = Queue-holder i (completing x) v k e refl in
    (
      l.head ++ reverse stack,
      behind x owner stack u.word (ground arith) refl refl,
      served x s (ground arith),
    )

Move-Queue :
    {l : Mutex} {xs : List ℕ} (i : ℕ) {p : Pc} {m : Mutex}
    → Move l i p m
    → l.pc i ≡ p
    → Inv l
    → Queue l xs
    → After l m xs
Move-Queue i begin e v k = Queue-bystander i idle starting k e refl
Move-Queue i begin_try e v k = Queue-bystander i idle trying k e refl
Move-Queue i (lock g) e v k = Queue-take i v k g
Move-Queue i (link {xs = ys} g) e v k = Queue-bystander i starting (linked (first ys)) k e refl
Move-Queue i (enqueue {old = old} {xs = ys} g f) e v k = Queue-enqueue i old ys k e g
Move-Queue i (retry {old = old}) e v k = Queue-bystander i (linked old) starting k e refl
Move-Queue i (try_ok g) e v k = Queue-take i v k g
Move-Queue i (try_busy g) e v k = Queue-bystander i trying idle k e refl
Move-Queue {l} i (load_some g) e v k =
    Queue-advance (goto l i (handing l.head)) i owner (handing l.head) v k e refl refl refl refl
      refl
Move-Queue {l} i (load_none g) e v k =
    Queue-advance (goto l i releasing) i owner releasing v k e refl refl refl refl refl
Move-Queue i (unlock g) e v k = Queue-release i v k e g
Move-Queue {l} i (unlock_fails g) e v k =
    Queue-advance (goto l i exchanging) i releasing exchanging v k e refl refl refl refl refl
Move-Queue i (exchange {xs = ys} g) e v k = Queue-exchange i ys v k e g
Move-Queue {l} i (store_head {x = x} {xs = ys}) e v k =
    Queue-advance (goto (record l { head = ys }) i (completing x)) i (handing (x ∷ ys))
      (completing x) v k e refl refl refl refl refl
Move-Queue i (complete {x = x}) e v k = Queue-complete i x v k e

-- A reachable state has one line.
Queue-unique : {l : Mutex} {xs ys : List ℕ} → Inv l → Queue l xs → Queue l ys → xs ≡ ys
Queue-unique v (nobody w e) (nobody u f) = e ∙ sym f
Queue-unique v (nobody w e) (behind h q stack u f b g) = absurd cc
Queue-unique v (behind h q stack u f b g) (nobody w e) = absurd cc
Queue-unique {l} v (behind h q stack u f b g) k =
    let (rest, a, s) = Queue-holder h q v (behind h q stack u f b g) f b in
    let (tail, c, t) = Queue-holder h q v k f b in s ∙ ap (line q l.head) (same a c) ∙ sym t
  where
    same : {rest tail : List ℕ} → Held l h q rest → Held l h q tail → rest ≡ tail
    same a c = ground (arith, a.word, c.word)

-- Every reachable state has a line.
pub Reach-Queue : {l : Mutex} → Reach l → (xs : List ℕ) × Queue l xs
Reach-Queue {l} r = elim (Reach-Inv r) [
  | unheld w e f g ↦ ([], nobody w refl)
  | held h q stack v ↦ (line q l.head stack, behind h q stack v.word v.here v.holder refl)
]

-- First in, first out: a step from a reachable state keeps the line, appends a thread that now waits,
-- or takes the first of it away, which now owns the lock.
pub serves_in_order :
    {l m : Mutex} {xs ys : List ℕ} → Reach l → Step l m → Queue l xs → Queue m ys → Served l m xs ys
serves_in_order {l} {m} {xs} {ys} r (pick i mv) k n =
    let (zs, q, s) = Move-Queue i mv refl (Reach-Inv r) k in
    subst (Served l m xs) (Queue-unique (Reach-Inv (later r (pick i mv))) q n) s
