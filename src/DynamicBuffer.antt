-- ===== src/DynamicBuffer.antt =====
-- include/coio/asyncio/io.h: the concept `dynamic_buffer`, as an interface: what the algorithms call,
-- and what they rely on. DynamicBuffer.Flat shows that `flat_buffer` has it.
pub mod Flat
pub mod Samples
use coio.Base.{
  ℕ, zero, suc, ◌+◌, ◌-◌, ◌*◌, ◌/◌, ◌%◌, ◌^◌, ◌≤◌, ◌<◌, min, max, ◌≡◌, refl, sym, ap, ◌∙◌, subst,
  ◌≢◌, ◌↔◌, ◌⊎◌, inl, inr, Bool, true, false, ◌&&◌, ◌||◌, not, Option, none, some, List, [], ◌∷◌,
  ◌++◌, map, reverse, arith, dec_lt, dec_le, ℕ_discrete, if◌then◌else◌, ltb, leb, ◌==◌, Bool-cases,
  Option-cases, length, get_elem?, set, take, drop, slice, overwrite, add_size, sub_size, mul_size,
  size_mod, length-append, length-take, length-drop,
}
use coio.Base.Outcome.{Outcome, done, undefined}

pub record DynamicBuffer : Type 1 where
  pub Buffer : Type 0
  pub Room : Type 0  -- the span that `prepare` returns
  pub bytes : Buffer → List ℕ  -- `data()`, of length `size()`
  pub capacity : Buffer → ℕ
  pub max_size : Buffer → ℕ
  pub prepare : ℕ → Buffer → Outcome Buffer Room
  pub store : Room → List ℕ → Buffer → Buffer  -- writes to the front of the span
  pub commit : ℕ → Buffer → Buffer
  pub consume : ℕ → Buffer → Buffer
  -- A well formed buffer, and what is promised of it.
  pub IsGood : Buffer → Type 0
  pub bytes_bounded : (b : Buffer) → IsGood b → length (bytes b) ≤ max_size b
  pub bytes_held : (b : Buffer) → IsGood b → length (bytes b) ≤ capacity b
  pub bytes-prepare :
      (n : ℕ) (b c : Buffer) (r : Room)
      → IsGood b
      → n + length (bytes b) ≤ max_size b
      → prepare n b ≡ done c r
      → bytes c ≡ bytes b
  -- `prepare` returns a span or throws; what is stored in the span and committed comes behind what
  -- was readable.
  pub prepare_defined :
      (n : ℕ) (b : Buffer) → IsGood b → n + length (bytes b) ≤ max_size b → prepare n b ≢ undefined
  pub prepare_store_commit :
      (n : ℕ) (ys : List ℕ) (b c : Buffer) (r : Room)
      → IsGood b
      → 0 < n
      → n + length (bytes b) ≤ max_size b
      → length ys ≤ n
      → prepare n b ≡ done c r
      → (bytes (commit (length ys) (store r ys c)) ≡ bytes b ++ ys)
        × IsGood (commit (length ys) (store r ys c))
        × (max_size (commit (length ys) (store r ys c)) ≡ max_size b)
  pub bytes-prepare_store :
      (n : ℕ) (ys : List ℕ) (b c : Buffer) (r : Room)
      → IsGood b
      → 0 < n
      → n + length (bytes b) ≤ max_size b
      → length ys ≤ n
      → prepare n b ≡ done c r
      → bytes (store r ys c) ≡ bytes b
  pub bytes-consume : (n : ℕ) (b : Buffer) → IsGood b → bytes (consume n b) ≡ drop n (bytes b)
