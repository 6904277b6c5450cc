-- ===== src/AsyncMutex/Invariant.antt =====
-- Who holds the lock, and who waits for it in which order.
use coio.Base.{
  ℕ, ◌≡◌, sym, ap, ◌∙◌, subst, ◌≢◌, Bool, true, false, List, [], ◌∷◌, ◌++◌, reverse, arith,
}
use coio.Links.{In, Distinct}
use coio.AsyncMutex.{
  Mutex, free, locked, Pc, waiting, owner, releasing, exchanging, handing, completing, goto,
}

-- From the success of `lock` until the lock is free or the next owner was called.
abbrev pub holds : Pc → Bool
holds owner = true
holds releasing = true
holds exchanging = true
holds (handing chain) = true
holds (completing x) = true
holds _ = false

-- The waiters before those on the word's stack, first in line first.
abbrev pub pending : Pc → List ℕ → List ℕ
pending (handing chain) head = chain
pending (completing x) head = x ∷ head
pending _ head = head

-- Everybody who waits, first in line first.
abbrev pub line : Pc → List ℕ → List ℕ → List ℕ
line p head stack = pending p head ++ reverse stack

-- What the code of `unlock` knows where it stands.
abbrev pub Fits : Pc → List ℕ → List ℕ → Type 0
Fits releasing head stack = head ≡ []
Fits exchanging head stack = (head ≡ []) × (stack ≢ [])
Fits (handing chain) head stack = chain ≢ []
Fits _ head stack = Unit {0}

-- Thread `h` at `q` holds the lock, and `stack` waits on the word.
pub record Held (l : Mutex) (h : ℕ) (q : Pc) (stack : List ℕ) : Type 0 where
  pub word : l.word ≡ locked stack
  pub here : l.pc h ≡ q
  pub holder : holds q ≡ true
  pub unique : (j : ℕ) → holds (l.pc j) ≡ true → j ≡ h
  pub fits : Fits q l.head stack
  pub distinct : Distinct (line q l.head stack)
  pub members : (j : ℕ) → In j (line q l.head stack) → l.pc j ≡ waiting
  pub waits : (j : ℕ) → l.pc j ≡ waiting → In j (line q l.head stack)

pub data Inv (l : Mutex) : Type 0 where
  unheld :
      l.word ≡ free
      → l.head ≡ []
      → ((j : ℕ) → holds (l.pc j) ≡ false)
      → ((j : ℕ) → l.pc j ≢ waiting)
      → Inv l
  held : (h : ℕ) (q : Pc) (stack : List ℕ) → Held l h q stack → Inv l

-- The thread that moves, if its program counter holds the lock, is the holder.
pub Held-mover :
    {l : Mutex} {h : ℕ} {q : Pc} {stack : List ℕ} (i : ℕ) (p : Pc)
    → Held l h q stack
    → l.pc i ≡ p
    → holds p ≡ true
    → Held l i p stack
Held-mover {l} {h} {q} {stack} i p v e b =
    subst (λ k. Held l k p stack) (sym same)
      (subst (λ r. Held l h r stack) (sym v.here ∙ ap l.pc (sym same) ∙ e) v)
  where
    same : i ≡ h
    same = v.unique i (rw e b)

-- A step of a thread that neither holds the lock nor waits, to such a place.
pub Held-bystander :
    {l : Mutex} {h : ℕ} {q : Pc} {stack : List ℕ} (i : ℕ) (p r : Pc)
    → Held l h q stack
    → l.pc i ≡ p
    → holds p ≡ false
    → p ≢ waiting
    → holds r ≡ false
    → r ≢ waiting
    → Held (goto l i r) h q stack
Held-bystander {l} {h} {q} {stack} i p r v e a b c d = record {
  word = v.word;
  here = ground (arith, v.here, v.holder);
  holder = v.holder;
  unique = λ j k. ground (arith, v.unique j);
  fits = v.fits;
  distinct = v.distinct;
  members = λ j k. ground (arith, v.members j k);
  waits = λ j k. v.waits j (ground arith);
}
