-- ===== src/StreamBuffer/Tests.antt =====
-- A stream buffer at work.

use coio.Base.{ℕ, ◌^◌, ◌≤◌, max, ◌≡◌, refl, some, [], ◌∷◌, ◌++◌, arith, slice}
use coio.StreamBuffer.Writing.{
  ShowsRoom, prepare-ShowsRoom, prepare-too_long, Overflows, overflow-Overflows,
  contents-commit-store,
}
use coio.StreamBuffer.Positions.{IsValid}
use coio.Base.Outcome.{throws, length_error}
use coio.StreamBuffer.{
  Vector, StreamBuffer, contents, bump, reserve, prepare, commit, consume, overflow, store,
}

exact-enough : (capacity n : ℕ) {c : ℕ} → some (max capacity n) ≡ some c → n ≤ c
exact-enough capacity n e = ground (arith, e)

-- A vector that grows to what is asked for.
abbrev exact : Vector
exact = record {
  max_size = 1000;
  resize = λ capacity n. some (max capacity n);
  enough = λ capacity n {c} e. exact-enough capacity n e;
}

-- Three readable bytes behind two that were consumed, and room for one.
abbrev three : StreamBuffer
three = record {
  max_size = 6;
  buffer = 1 ∷ 2 ∷ 3 ∷ 4 ∷ 5 ∷ 6 ∷ [];
  capacity = 6;
  gptr = 2;
  egptr = 5;
  pptr = 5;
  epptr = 6;
}

three-IsValid : IsValid three
three-IsValid = omega arith

shows_three : contents three ≡ 3 ∷ 4 ∷ 5 ∷ []
shows_three = refl

-- The `prepare` that throws has changed what is shown.
throws_and_changes :
    (c : StreamBuffer) × (prepare exact 4 three ≡ throws c length_error)
    × (contents c ≡ 5 ∷ 4 ∷ 5 ∷ [])
unfolding prepare reserve
throws_and_changes = (record three { buffer = 3 ∷ 4 ∷ 5 ∷ 4 ∷ 5 ∷ 6 ∷ [] }, refl, refl)

consumed : contents (consume 1 three) ≡ 4 ∷ 5 ∷ []
unfolding consume
consumed = refl

-- 2 ^ 31 committed bytes move the end of the put area backwards.
narrowed : bump (2 ^ 31) (2 ^ 31) ≡ 0
narrowed = refl

prepare-ShowsRoom_example : ShowsRoom exact three 3 (prepare exact 3 three)
prepare-ShowsRoom_example = prepare-ShowsRoom exact 3 three-IsValid (omega arith)

contents-commit-store_example : contents (commit 1 (store 5 (9 ∷ []) three)) ≡ 3 ∷ 4 ∷ 5 ∷ 9 ∷ []
contents-commit-store_example =
    contents-commit-store three-IsValid (9 ∷ []) (omega arith) (omega arith)

overflow-Overflows_test : Overflows exact three 7 (overflow exact (some 7) three)
overflow-Overflows_test = overflow-Overflows exact 7 three-IsValid

prepare-too_long_example :
    (c : StreamBuffer) × (prepare exact 4 three ≡ throws c length_error)
    × (contents c ≡ slice ((3 ∷ 4 ∷ 5 ∷ []) ++ (4 ∷ 5 ∷ 6 ∷ [])) 2 3)
prepare-too_long_example =
    prepare-too_long exact 4 three-IsValid (omega arith) (omega arith) (omega arith)
