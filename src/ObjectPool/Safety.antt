-- ===== src/ObjectPool/Safety.antt =====
-- An object is handed out to one client at a time.

use coio.Base.{ℕ, ◌≡◌, refl, sym, subst, Bool, true, false, List, [], ◌∷◌, arith}
use coio.ObjectPool.{Pool, acquire, release, mark, Reach, start, acquires, releases}
use coio.Links.{store, Chain, Fresh, Distinct, Chain-store}

-- Nobody holds an object of the list.

abbrev Unheld : (ℕ → Bool) → List ℕ → Type 0
Unheld held [] = Unit {0}
Unheld held (x ∷ xs) = (held x ≡ false) × Unheld held xs

record Inv (p : Pool) (held : ℕ → Bool) : Type 0 where
  free : List ℕ
  chain : Chain p.next p.free_list free
  distinct : Distinct free
  unheld : Unheld held free

Unheld-mark :
    (held : ℕ → Bool) (x : ℕ) (b : Bool) (xs : List ℕ)
    → Fresh x xs
    → Unheld held xs
    → Unheld (mark held x b) xs
Unheld-mark held x b [] f u = tt
Unheld-mark held x b (y ∷ xs) f u = (ground (arith, f.0, u.0), Unheld-mark held x b xs f.1 u.1)

held-Fresh : (held : ℕ → Bool) (x : ℕ) (xs : List ℕ) → held x ≡ true → Unheld held xs → Fresh x xs
held-Fresh held x [] h u = tt
held-Fresh held x (y ∷ xs) h u = (λ e. absurd (cc (e, h, u.0)), held-Fresh held x xs h u.1)

acquire-Inv :
    (new_object : ℕ) (p : Pool) (held : ℕ → Bool) (free : List ℕ)
    → Chain p.next p.free_list free
    → Distinct free
    → Unheld held free
    → held new_object ≡ false
    → Inv (acquire new_object p).1 (mark held (acquire new_object p).0 true)
      × (held (acquire new_object p).0 ≡ false)
unfolding acquire
acquire-Inv new_object p held [] c d u h =
    rw (c, acquire) (record { free = []; chain = c; distinct = tt; unheld = tt }, h)
acquire-Inv new_object p held (x ∷ xs) c d u h =
    rw (c.0, acquire)
      (
        record {
          free = xs;
          chain = c.1;
          distinct = d.1;
          unheld = Unheld-mark held x true xs d.0 u.1;
        },
        u.0,
      )

release-Inv :
    (obj : ℕ) (p : Pool) (held : ℕ → Bool)
    → Inv p held
    → held obj ≡ true
    → Inv (release obj p) (mark held obj false)
unfolding release
release-Inv obj p held v h =
    let new : Fresh obj v.free = held-Fresh held obj v.free h v.unheld in
    let linked : store p.next obj p.free_list obj ≡ p.free_list = ground arith in
    record {
      free = obj ∷ v.free;
      chain = (
        refl,
        subst (λ q. Chain (store p.next obj p.free_list) q v.free) (sym linked)
            (Chain-store p.next obj p.free_list p.free_list v.free new v.chain),
      );
      distinct = (new, v.distinct);
      unheld = (ground arith, Unheld-mark held obj false v.free new v.unheld);
    }

acquired :
    (new_object : ℕ) (p : Pool) (held : ℕ → Bool)
    → Inv p held
    → held new_object ≡ false
    → Inv (acquire new_object p).1 (mark held (acquire new_object p).0 true)
      × (held (acquire new_object p).0 ≡ false)
acquired n p held v h = acquire-Inv n p held v.free v.chain v.distinct v.unheld h

Reach-Inv : {p : Pool} {held : ℕ → Bool} → Reach p held → Inv p held
Reach-Inv start = record { free = []; chain = refl; distinct = tt; unheld = tt }
Reach-Inv (acquires {p} {held} n r h) = (acquired n p held (Reach-Inv r) h).0
Reach-Inv (releases {p} {held} x r h) = release-Inv x p held (Reach-Inv r) h

-- In every reachable state, what `acquire` returns is an object that no client holds, if a new object is
-- not one that a client holds.
pub acquire_unheld :
    {p : Pool} {held : ℕ → Bool} (new_object : ℕ)
    → Reach p held
    → held new_object ≡ false
    → held (acquire new_object p).0 ≡ false
acquire_unheld {p} {held} n r h = (acquired n p held (Reach-Inv r) h).1
