-- ===== src/FlatBuffer/Growth.antt =====
-- The doubling loop of `prepare`: it ends within its fuel, and covers what is needed.
use native.Mathlib.Nat.{pow-suc, pow-zero}
use coio.Base.{
  ℕ, zero, suc, ◌*◌, ◌^◌, ◌≤◌, ◌<◌, ◌≡◌, Option, some, arith, Bool-cases, inl, inr, ltb, leb,
  mul_size, size_mod, ◌&&◌, ap,
}
use coio.FlatBuffer.{grow, grow_fuel}

-- A capacity that the loop may return.
abbrev pub Grows : ℕ → ℕ → ℕ → Option ℕ → Type 0
Grows start need most r = (c : ℕ) × (r ≡ some c) × (need ≤ c) × (c ≤ most) × (start ≤ c)

-- From a capacity within the limit, the loop ends when `2 ^ fuel` doublings pass the need.
grow_total :
    (fuel start need most : ℕ)
    → need ≤ most
    → start ≤ most
    → most < size_mod
    → 0 < start
    → need ≤ start * 2 ^ fuel
    → Grows start need most (grow (suc fuel) start need most)
unfolding grow
grow_total zero start need most fits small word pos enough =
    (start, ground (arith, pow-zero 2), ground (arith, pow-zero 2), small, omega arith)
grow_total (suc fuel) start need most fits small word pos enough =
    elim (Bool-cases (ltb start need)) [
      | inr done ↦ (start, rw done, ground arith, small, omega arith)
      | inl more ↦ elim (Bool-cases (ltb start (mul_size start 2) && leb (mul_size start 2) most)) [
        | inl double ↦
            let twice : mul_size start 2 ≡ start * 2 = ground arith in
            let (c, e, covers, within, keeps) =
              grow_total fuel (mul_size start 2) need most fits (ground arith) word (omega arith)
                (rw twice (omega (arith, ap (λ (t : ℕ). start * t) (pow-suc 2 fuel)))) in
            (c, rw (more, double) e, covers, within, omega arith)
        | inr stop ↦
            (need, rw (more, stop) (ap some (omega arith)), omega arith, fits, ground arith)
      ]
    ]

-- `prepare` starts the loop at 512 bytes at least, so its fuel is enough.
pub grow_fuel_total :
    (start need most : ℕ)
    → need ≤ most
    → start ≤ most
    → most < size_mod
    → 512 ≤ start
    → Grows start need most (grow grow_fuel start need most)
grow_fuel_total start need most fits small word big =
    grow_total 63 start need most fits small word (omega arith) (omega arith)
