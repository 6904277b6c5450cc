-- ===== src/Atomutex/Safety.antt =====
-- What `atomutex` promises: one owner, and no sleeper that nobody will wake.
use coio.Base.{ℕ, ◌≡◌, refl, ◌≢◌, ◌⊎◌, inl, inr, Bool, true, false, arith, Bool-cases}
use coio.Atomutex.{
  Lock, Pc, idle, testing, watching, sleeping, owner, notifying, goto, Move, begin, acquire, busy,
  block, spurious, changed, try_ok, try_busy, clear, notify_one, notify_none, pick, Reach, start,
  later,
}

-- The thread is about to look at the flag or to wake a sleeper.
abbrev pub alert : Pc → Bool
alert testing = true
alert watching = true
alert notifying = true
alert _ = false

record Inv (l : Lock) : Type 0 where
  owner_flag : (j : ℕ) → l.pc j ≡ owner → l.flag ≡ true
  flag_owner : l.flag ≡ true → (j : ℕ) × (l.pc j ≡ owner)
  unique : (i j : ℕ) → l.pc i ≡ owner → l.pc j ≡ owner → i ≡ j
  awake : (j : ℕ) → l.pc j ≡ sleeping → l.flag ≡ false → (k : ℕ) × (alert (l.pc k) ≡ true)

-- The steps of thread `i`, by what they do to the flag and to the sleepers.
module _ {l : Lock} (v : Inv l) (i : ℕ) where
  moves :
      (q p : Pc)
      → l.pc i ≡ q
      → q ≢ owner
      → p ≢ owner
      → (l.flag ≡ true) ⊎ ((alert p ≡ true) ⊎ ((alert q ≡ false) × (p ≢ sleeping)))
      → Inv (record l { pc = goto l.pc i p })
  moves q p e a b c = record {
    owner_flag = λ j s. ground (arith, v.owner_flag j);
    flag_owner = λ s. let (j, o) = v.flag_owner s in (j, ground (arith));
    unique = λ x y s t. ground (arith, v.unique x y);
    awake = λ j s f. elim c [
      | inl t ↦ absurd cc
      | inr (inl t) ↦ (i, ground arith)
      | inr (inr t) ↦ let (k, o) = v.awake j (ground arith) f in (k, ground arith)
    ];
  }

  takes :
      (q : Pc) → l.pc i ≡ q → l.flag ≡ false → Inv (record { flag = true; pc = goto l.pc i owner })
  takes q e f = record {
    owner_flag = λ j s. refl;
    flag_owner = λ s. (i, ground arith);
    unique = λ x y s t. ground (arith, v.owner_flag x, v.owner_flag y);
    awake = λ j s g. absurd cc;
  }

  clears : l.pc i ≡ owner → Inv (record { flag = false; pc = goto l.pc i notifying })
  clears e = record {
    owner_flag = λ j s. ground (arith, v.unique i j);
    flag_owner = λ s. absurd cc;
    unique = λ x y s t. ground (arith, v.unique x y);
    awake = λ j s g. (i, ground arith);
  }

  wakes :
      (x : ℕ)
      → l.pc i ≡ notifying
      → l.pc x ≡ sleeping
      → Inv (record l { pc = goto (goto l.pc i idle) x watching })
  wakes x e w = record {
    owner_flag = λ j s. ground (arith, v.owner_flag j);
    flag_owner = λ s. let (j, o) = v.flag_owner s in (j, ground arith);
    unique = λ y z s t. ground (arith, v.unique y z);
    awake = λ j s g. (x, ground arith);
  }

  sleeps_none :
      ((x : ℕ) → l.pc x ≢ sleeping) → l.pc i ≡ notifying → Inv (record l { pc = goto l.pc i idle })
  sleeps_none n e = record {
    owner_flag = λ j s. ground (arith, v.owner_flag j);
    flag_owner = λ s. let (j, o) = v.flag_owner s in (j, ground arith);
    unique = λ y z s t. ground (arith, v.unique y z);
    awake = λ j s g. absurd (ground (arith, n j));
  }

  Move-Inv : {p : Pc} {m : Lock} → Move l i p m → l.pc i ≡ p → Inv m
  Move-Inv begin e = moves idle testing e (λ s. cc) (λ s. cc) (inr (inl refl))
  Move-Inv (acquire f) e = takes testing e f
  Move-Inv (busy f) e = moves testing watching e (λ s. cc) (λ s. cc) (inl f)
  Move-Inv (block f) e = moves watching sleeping e (λ s. cc) (λ s. cc) (inl f)
  Move-Inv spurious e = moves sleeping watching e (λ s. cc) (λ s. cc) (inr (inl refl))
  Move-Inv (changed f) e = moves watching testing e (λ s. cc) (λ s. cc) (inr (inl refl))
  Move-Inv (try_ok f) e = takes idle e f
  Move-Inv (try_busy f) e = v
  Move-Inv clear e = clears e
  Move-Inv (notify_one x w) e = wakes x e w
  Move-Inv (notify_none n) e = sleeps_none n e

Reach-Inv : {l : Lock} → Reach l → Inv l
Reach-Inv start = record {
  owner_flag = λ j s. absurd cc;
  flag_owner = λ s. absurd cc;
  unique = λ i j s t. absurd cc;
  awake = λ j s f. absurd cc;
}
Reach-Inv (later {l = l} r (pick i mv)) = Move-Inv (Reach-Inv r) i mv refl

-- In every reachable state, at most one thread owns the lock.
pub owns_alone : {l : Lock} → Reach l → (i j : ℕ) → l.pc i ≡ owner → l.pc j ≡ owner → i ≡ j
owns_alone r i j a b = (Reach-Inv r).unique i j a b

-- No wakeup is lost: in every reachable state, while a thread sleeps, some thread owns the lock, is
-- about to look at the flag, or is about to wake a sleeper.
pub sleeps_in_care :
    {l : Lock}
    → Reach l
    → (i : ℕ) → l.pc i ≡ sleeping
    → (k : ℕ) × ((l.pc k ≡ owner) ⊎ (alert (l.pc k) ≡ true))
sleeps_in_care {l} r i e = elim (Bool-cases l.flag) [
  | inl f ↦ let (j, o) = (Reach-Inv r).flag_owner f in (j, inl o)
  | inr f ↦ let (k, o) = (Reach-Inv r).awake i e f in (k, inr o)
]
