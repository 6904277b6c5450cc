-- ===== src/FlatBuffer/Tests.antt =====
-- Runs of the buffer on small inputs, and the theorems at inputs that meet their hypotheses.
use coio.Base.{
  none, ℕ, ◌≡◌, refl, sym, ap, ◌∙◌, true, false, some, List, [], ◌∷◌, arith, length, max, add_size,
  ◌+◌, ◌≤◌, ◌<◌, none,
}
use coio.Base.{replicate, length-replicate}
use coio.Base.Outcome.{done, throws, undefined, length_error}
use coio.FlatBuffer.{
  bytes_of, Allocator, Buffer, Span, limit, contents, prepare, commit, consume, reserve,
  shrink_to_fit, grow, grow_fuel, span_at, compact, slide, size, copy_bytes,
}
use coio.FlatBuffer.Growth.{Grows, grow_fuel_total}
use coio.FlatBuffer.Contents.{IsValid, contents-consume}
use coio.FlatBuffer.Prepare.{Prepares, prepare-Prepares, IsBounded}
use coio.FlatBuffer.RoundTrip.{fill, contents-prepare-fill-commit}
use coio.FlatBuffer.Capacity.{Reserves, reserve-Reserves, Shrinks, shrink_to_fit-Shrinks}
use coio.FlatBuffer.Overflow.{prepare-undefined}
use coio.FlatBuffer.Assign.{copy_construct, copy_assign, move_assign}
use coio.FlatBuffer.Assign.Copy.{Copies, copy_construct-Copies, copy_assign-Copies}
use coio.FlatBuffer.Assign.Move.{Moves, move_assign-Moves}

abbrev heap : Allocator
heap = record {
  allocate = λ a n. some (replicate n 0);
  length-allocate = λ a n {bytes} e. allocated n e;
}
  where
    allocated : (n : ℕ) {bytes : List ℕ} → some (replicate n 0) ≡ some bytes → length bytes ≡ n
    allocated n e = sym (ap (λ o. length (bytes_of o)) e) ∙ length-replicate n 0

-- Two readable bytes in a block of six.
abbrev held : Buffer
held = record {
  alloc = 0;
  max_size = 1024;
  block = some (9 ∷ 1 ∷ 2 ∷ 0 ∷ 0 ∷ 0 ∷ []);
  in_ = 1;
  out_ = 3;
  last_ = 3;
  end_ = 6;
}

abbrev behind : Span
behind = record { offset = 3; count = 2 }

-- More readable bytes than the limit allows.
abbrev overfull : Buffer
overfull = record held { max_size = 1 }

held-IsValid : IsValid held
held-IsValid = omega arith

overfull-IsValid : IsValid overfull
overfull-IsValid = omega arith

held-IsBounded : IsBounded held
held-IsBounded = omega arith

written :
    contents (commit 2 (fill behind (7 ∷ 8 ∷ []) (record held { last_ = 5 }))) ≡ 1 ∷ 2 ∷ 7 ∷ 8 ∷ []
unfolding commit fill
written = refl

compacted :
    prepare heap 4 held
    ≡ done
        (record held { block = some (1 ∷ 2 ∷ 2 ∷ 0 ∷ 0 ∷ 0 ∷ []); in_ = 0; out_ = 2; last_ = 6 })
        (record { offset = 2; count = 4 })
unfolding prepare compact slide span_at
compacted = refl

refused : prepare heap 1023 held ≡ throws held length_error
unfolding prepare
refused = refl

doubled : grow grow_fuel 512 1500 4096 ≡ some 2048
unfolding grow
doubled = refl

grow_fuel_total_test : Grows 512 1500 4096 (grow grow_fuel 512 1500 4096)
grow_fuel_total_test =
    grow_fuel_total 512 1500 4096 (omega arith) (omega arith) (omega arith) (omega arith)

prepare-Prepares_example : Prepares held 4 (prepare heap 4 held)
prepare-Prepares_example = prepare-Prepares heap 4 held-IsValid held-IsBounded (omega arith)

contents-prepare-fill-commit_example :
    contents (commit 2 (fill behind (7 ∷ 8 ∷ []) (record held { last_ = 5 }))) ≡ 1 ∷ 2 ∷ 7 ∷ 8 ∷ []
unfolding prepare span_at
contents-prepare-fill-commit_example =
    contents-prepare-fill-commit heap 2 (7 ∷ 8 ∷ []) held-IsValid held-IsBounded (omega arith)
      (omega arith) (omega arith) refl

contents-consume_example : contents (consume 1 held) ≡ 2 ∷ []
contents-consume_example = contents-consume 1 held-IsValid

reserve-Reserves_test : Reserves held 9 (reserve heap 9 held)
reserve-Reserves_test = reserve-Reserves heap 9 held-IsValid

shrink_to_fit-Shrinks_test : Shrinks held (shrink_to_fit heap held)
shrink_to_fit-Shrinks_test = shrink_to_fit-Shrinks heap held-IsValid

copy_construct-Copies_example : Copies held (limit 1024) (copy_construct heap (λ a. a) held)
copy_construct-Copies_example = copy_construct-Copies heap (λ a. a) held-IsValid

copy_assign-Copies_test : Copies held overfull (copy_assign heap true false held overfull)
copy_assign-Copies_test = copy_assign-Copies heap true held-IsValid overfull-IsValid

move_assign-Moves_test : Moves held overfull (move_assign heap false false held overfull)
move_assign-Moves_test = move_assign-Moves heap false held-IsValid overfull-IsValid

prepare-undefined_example :
    (grow grow_fuel (max overfull.end_ 512) (add_size (size overfull) 600) overfull.max_size
      ≡ some overfull.max_size)
    × (overfull.in_ + size overfull ≤ length (bytes_of overfull.block))
    × (length (replicate {A = ℕ} overfull.max_size 0) < size overfull)
    × (copy_bytes
          (replicate {A = ℕ} overfull.max_size 0)
          overfull.block
          overfull.in_
          (size overfull)
        ≡ none)
    × (prepare heap 600 overfull ≡ undefined)
prepare-undefined_example =
    prepare-undefined heap 600 overfull-IsValid (omega arith) (omega arith) (omega arith)
      (omega arith) refl

abbrev first : Buffer
first = record (limit 10) { block = some (replicate 512 0); out_ = 0; last_ = 3; end_ = 512 }
