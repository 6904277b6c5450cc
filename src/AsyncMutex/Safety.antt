-- ===== src/AsyncMutex/Safety.antt =====
-- What the mutex promises: one holder, no lost waiter, and the order of arrival.
use coio.Base.{ℕ, ◌≡◌, refl, sym, ◌∙◌, subst, true, List, [], ◌∷◌, reverse, arith}
use coio.Links.{In}
use coio.AsyncMutex.{
  Mutex, free, locked, Pc, idle, starting, linked, trying, waiting, owner, releasing, exchanging,
  handing, completing, goto, Move, load_some, load_none, unlock, unlock_fails, exchange, store_head,
  complete, Reach,
}
use coio.AsyncMutex.Invariant.{holds, line, Held, unheld, held}
use coio.AsyncMutex.Moves.{Reach-Inv, Inv-holder}

-- Mutual exclusion: in every reachable state, at most one thread is between the success of its lock
-- and the end of its `unlock`.
pub mutual_exclusion :
    {l : Mutex} → Reach l → (i j : ℕ) → holds (l.pc i) ≡ true → holds (l.pc j) ≡ true → i ≡ j
mutual_exclusion r i j a b = elim (Reach-Inv r) [
  | unheld w e f g ↦ absurd (ground (arith, f i))
  | held h q stack v ↦ v.unique i a ∙ sym (v.unique j b)
]

-- Everybody who waits, as the thread `h` that holds the lock would serve them.
abbrev pub queue : Mutex → ℕ → List ℕ → List ℕ
queue l h stack = line (l.pc h) l.head stack

-- No waiter is forgotten: in every reachable state, whoever waits does so while another thread holds
-- the lock, and is in the line of that thread.
pub none_forgotten :
    {l : Mutex}
    → Reach l
    → (i : ℕ) → l.pc i ≡ waiting
    → (h : ℕ) × (stack : List ℕ) × (holds (l.pc h) ≡ true)
      × (l.word ≡ locked stack)
      × In i (queue l h stack)
none_forgotten {l} r i e = elim (Reach-Inv r) [
  | unheld w n f g ↦ absurd (g i e)
  | held h q stack v ↦ (
    h,
    stack,
    rw v.here v.holder,
    v.word,
    subst (λ p. In i (line p l.head stack)) (sym v.here) (v.waits i e),
  )
]

Held-moves :
    {l : Mutex} {stack : List ℕ} (h : ℕ) (q : Pc) → Held l h q stack → (m : Mutex) × Move l h q m
Held-moves {l} h owner v = at_head l.head refl
  where
    at_head : (xs : List ℕ) → l.head ≡ xs → (m : Mutex) × Move l h owner m
    at_head [] e = (goto l h releasing, load_none e)
    at_head (x ∷ xs) e = (goto l h (handing l.head), load_some e)
Held-moves {l} {stack = []} h releasing v = (goto (record l { word = free }) h idle, unlock v.word)
Held-moves {l} {stack = x ∷ xs} h releasing v = (goto l h exchanging, unlock_fails v.word)
Held-moves {l} {stack} h exchanging v =
    (goto (record l { word = locked [] }) h (handing (reverse stack)), exchange v.word)
Held-moves h (handing []) v = absurd (v.fits refl)
Held-moves {l} h (handing (x ∷ xs)) v = (goto (record l { head = xs }) h (completing x), store_head)
Held-moves {l} h (completing x) v = (goto (goto l h idle) x owner, complete)
Held-moves h idle v = absurd (cc v.holder)
Held-moves h starting v = absurd (cc v.holder)
Held-moves h (linked old) v = absurd (cc v.holder)
Held-moves h waiting v = absurd (cc v.holder)
Held-moves h trying v = absurd (cc v.holder)

-- `unlock` is never stuck: in every reachable state, the thread that holds the lock has a step; the
-- chain it reads the next waiter from, in particular, is not null.
pub holder_moves :
    {l : Mutex} → Reach l → (h : ℕ) → holds (l.pc h) ≡ true → (m : Mutex) × Move l h (l.pc h) m
holder_moves {l} r h a =
    let (stack, v) = Inv-holder h (l.pc h) (Reach-Inv r) refl a in Held-moves h (l.pc h) v
