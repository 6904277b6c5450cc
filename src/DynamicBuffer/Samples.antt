-- ===== src/DynamicBuffer/Samples.antt =====
-- An allocator that never fails, and two flat buffers, for the tests.

use coio.Base.{
  ℕ, ◌≡◌, sym, ap, ◌∙◌, some, List, [], ◌∷◌, arith, length, replicate, length-replicate,
}
use coio.FlatBuffer.Prepare.{IsBounded}
use coio.FlatBuffer.Contents.{IsValid}
use coio.FlatBuffer.{Buffer, Allocator, limit, bytes_of}

abbrev pub heap : Allocator
heap = record {
  allocate = λ a n. some (replicate n 0);
  length-allocate = λ a n {bytes} e. allocated n e;
}
  where
    allocated : (n : ℕ) {bytes : List ℕ} → some (replicate n 0) ≡ some bytes → length bytes ≡ n
    allocated n e = sym (ap (λ o. length (bytes_of o)) e) ∙ length-replicate n 0

abbrev pub fresh : Buffer
fresh = limit 600

pub fresh-Good : IsValid fresh × IsBounded fresh
fresh-Good = (omega arith, omega arith)

-- Two readable bytes in a block of six.
abbrev pub held : Buffer
held = record {
  alloc = 0;
  max_size = 1024;
  block = some (9 ∷ 1 ∷ 2 ∷ 0 ∷ 0 ∷ 0 ∷ []);
  in_ = 1;
  out_ = 3;
  last_ = 3;
  end_ = 6;
}

pub held-Good : IsValid held × IsBounded held
held-Good = (omega arith, omega arith)
