-- ===== src/ReadUntil.antt =====
-- include/coio/asyncio/io.h: `read_until` and `async_read_until`, on a device (Transfer) and a dynamic
-- buffer (DynamicBuffer).
pub mod Search
pub mod Loop
pub mod Async
mod Tests
use coio.Base.{
  ℕ, zero, suc, ◌+◌, ◌-◌, ◌*◌, ◌/◌, ◌%◌, ◌^◌, ◌≤◌, ◌<◌, min, max, ◌≡◌, refl, sym, ap, ◌∙◌, subst,
  ◌≢◌, ◌↔◌, ◌⊎◌, inl, inr, Bool, true, false, ◌&&◌, ◌||◌, not, Option, none, some, List, [], ◌∷◌,
  ◌++◌, map, reverse, arith, dec_lt, dec_le, ℕ_discrete, if◌then◌else◌, ltb, leb, ◌==◌, Bool-cases,
  Option-cases, length, get_elem?, set, take, drop, slice, overwrite, add_size, sub_size, mul_size,
  size_mod, length-append, length-take, length-drop,
}
use coio.Base.Outcome.{Fault, Outcome, done, throws, undefined}
use coio.DynamicBuffer.{DynamicBuffer}
use coio.Transfer.{Source, Read, got, failed}

-- `for (it = begin + search_pos; it != end; ++it) if (*it == delim) return it - begin + 1;`, with the
-- index of the first byte.
unfoldable pub find_char : ℕ → ℕ → List ℕ → Option ℕ
find_char delim i [] = none
find_char delim i (x ∷ xs) = if x == delim then some (i + 1) else find_char delim (i + 1) xs

unfoldable pub search_char : ℕ → ℕ → List ℕ → Option ℕ
search_char delim search_pos bytes = find_char delim search_pos (drop search_pos bytes)

-- `memcmp(a, b, n) == 0`, on lists of the same length.
unfoldable pub same_bytes : List ℕ → List ℕ → Bool
same_bytes [] [] = true
same_bytes (x ∷ xs) (y ∷ ys) = (x == y) && same_bytes xs ys
same_bytes [] (y ∷ ys) = false
same_bytes (x ∷ xs) [] = false

-- `for (i = start; i <= size - delim.size(); ++i)`, with the rounds that are left.
unfoldable pub find_string : List ℕ → List ℕ → ℕ → ℕ → Option ℕ
find_string delim bytes zero i = none
find_string delim bytes (suc rounds) i =
    let rest = find_string delim bytes rounds (i + 1) in
    if same_bytes (slice bytes i (length delim)) delim then some (i + length delim) else rest

-- Backs up for a match that began before `search_pos`.
unfoldable pub search_string : List ℕ → ℕ → List ℕ → Option ℕ
search_string delim search_pos bytes =
    let n = length delim in
    let start = if ltb (n - 1) search_pos then search_pos - n + 1 else 0 in
    if leb n (length bytes)
    then find_string delim bytes (length bytes - n + 1 - start) start
    else none

-- What `read_until` comes to.
pub data Found (B D : Type 0) : Type 0 where
  found : ℕ → B → D → Found B D
  not_found : B → D → Found B D
  raised : ℕ → B → D → Found B D
  threw : Fault → B → D → Found B D
  undefined_behaviour : Found B D
  exhausted : Found B D

module _ (B : DynamicBuffer) {D : Type 0} (source : Source D) where
  open B use {Buffer, bytes, capacity, max_size, prepare, store, commit}

  -- `bytes_to_read`.
  abbrev pub bytes_to_read : Buffer → ℕ
  bytes_to_read b =
      let size = length (bytes b) in
      min (max 512 (capacity b - size)) (min 65536 (max_size b - size))

  -- The loop of `read_until`, with its search.
  unfoldable pub until_loop : (ℕ → List ℕ → Option ℕ) → ℕ → ℕ → Buffer → D → Found Buffer D
  until_loop search zero search_pos b d = exhausted
  until_loop search (suc fuel) search_pos b d = elim (search search_pos (bytes b)) [
    | some k ↦ found k b d
    | none ↦
        if length (bytes b) == max_size b
        then not_found b d
        else elim (prepare (bytes_to_read b) b) [
          | throws c e ↦ threw e c d
          | undefined ↦ undefined_behaviour
          | done c room ↦ elim (source (bytes_to_read b) d) [
            | failed x e ↦ raised x c e
            | got ys e ↦
                until_loop search fuel (length (bytes b)) (commit (length ys) (store room ys c)) e
          ]
        ]
  ]

  -- Every round reads a byte at least, and the buffer is full after `max_size`.
  unfoldable pub read_until_char : ℕ → Buffer → D → Found Buffer D
  read_until_char delim b d = until_loop (search_char delim) (max_size b + 1) 0 b d

  unfoldable pub read_until_string : List ℕ → Buffer → D → Found Buffer D
  read_until_string [] b d = found 0 b d
  read_until_string (c ∷ []) b d = read_until_char c b d
  read_until_string (c ∷ x ∷ xs) b d =
      until_loop (search_string (c ∷ x ∷ xs)) (max_size b + 1) 0 b d
