-- ===== src/ReadUntil/Tests.antt =====
-- A device that gives one byte a call, and a `flat_buffer`.
use coio.Base.{ℕ, zero, suc, ◌≤◌, ◌<◌, ◌≡◌, refl, none, some, List, [], ◌∷◌, arith, length}
use coio.DynamicBuffer.Flat.{flat_buffer}
use coio.DynamicBuffer.Samples.{heap, fresh, fresh-Good}
use coio.Transfer.{got, Supplies}
use coio.Transfer.Async.{AsyncSource, value, error, waited}
use coio.ReadUntil.{
  read_until_char, read_until_string, search_char, search_string, find_char, find_string,
  same_bytes,
}
use coio.ReadUntil.Search.{Finds, Searched, search_string-Finds}
use coio.ReadUntil.Loop.{Ends, read_until_char-Ends, read_until_string-Ends}
use coio.ReadUntil.Async.{
  async_read_until, char, text, done_of, async_read_until_char-eq, async_read_until_string-eq,
}

abbrev one_byte : AsyncSource (List ℕ)
one_byte zero d = value [] d
one_byte (suc n) [] = error 1 []
one_byte (suc n) (x ∷ xs) = value (x ∷ []) xs

one_byte-fits :
    (n : ℕ) (d : List ℕ) {ys e : List ℕ} → waited one_byte n d ≡ got ys e → length ys ≤ n
one_byte-fits zero d h = ground (arith, h)
one_byte-fits (suc n) [] h = absurd (cc h)
one_byte-fits (suc n) (x ∷ xs) h = ground (arith, h)

one_byte-progress :
    (n : ℕ) (d : List ℕ) {ys e : List ℕ} → waited one_byte n d ≡ got ys e → 0 < n → 0 < length ys
one_byte-progress zero d h p = absurd (omega arith)
one_byte-progress (suc n) [] h p = absurd (cc h)
one_byte-progress (suc n) (x ∷ xs) h p = ground (arith, h)

one_byte-Supplies : Supplies (waited one_byte)
one_byte-Supplies = record {
  fits = λ n d {ys} {e} h. one_byte-fits n d h;
  progress = λ n d {ys} {e} h p. one_byte-progress n d h p;
}

-- "ab" is found across the boundary of what was searched before.
search_runs :
    (search_string (1 ∷ 2 ∷ []) 3 (0 ∷ 0 ∷ 1 ∷ 2 ∷ []) ≡ some 4)
    × (search_char 9 0 (1 ∷ 2 ∷ []) ≡ none)
unfolding search_string find_string same_bytes search_char find_char
search_runs = (refl, refl)

nothing_before : Searched (1 ∷ 2 ∷ []) (0 ∷ 0 ∷ 1 ∷ 2 ∷ []) 0
nothing_before i h o = absurd (omega arith)

search_string-Finds_test :
    Finds (1 ∷ 2 ∷ []) (0 ∷ 0 ∷ 1 ∷ 2 ∷ []) (search_string (1 ∷ 2 ∷ []) 0 (0 ∷ 0 ∷ 1 ∷ 2 ∷ []))
search_string-Finds_test =
    search_string-Finds (1 ∷ 2 ∷ []) 0 (0 ∷ 0 ∷ 1 ∷ 2 ∷ []) (omega arith) nothing_before

read_until_char-Ends_example :
    Ends
      (flat_buffer heap)
      (waited one_byte)
      (7 ∷ [])
      fresh
      (5 ∷ 7 ∷ [])
      (read_until_char (flat_buffer heap) (waited one_byte) 7 fresh (5 ∷ 7 ∷ []))
read_until_char-Ends_example =
    read_until_char-Ends (flat_buffer heap) (waited one_byte) 7 fresh (5 ∷ 7 ∷ []) one_byte-Supplies
      fresh-Good

read_until_string-Ends_example :
    Ends
      (flat_buffer heap)
      (waited one_byte)
      (5 ∷ 7 ∷ [])
      fresh
      (5 ∷ 7 ∷ [])
      (read_until_string (flat_buffer heap) (waited one_byte) (5 ∷ 7 ∷ []) fresh (5 ∷ 7 ∷ []))
read_until_string-Ends_example =
    read_until_string-Ends (flat_buffer heap) (waited one_byte) (5 ∷ 7 ∷ []) fresh (5 ∷ 7 ∷ [])
      one_byte-Supplies fresh-Good (omega arith)

async_read_until_char-eq_test :
    async_read_until (flat_buffer heap) one_byte (char 7) fresh (5 ∷ 7 ∷ [])
    ≡ done_of
        (flat_buffer heap)
        one_byte
        (read_until_char (flat_buffer heap) (waited one_byte) 7 fresh (5 ∷ 7 ∷ []))
async_read_until_char-eq_test =
    async_read_until_char-eq (flat_buffer heap) one_byte one_byte-Supplies 7 fresh (5 ∷ 7 ∷ [])
      fresh-Good

async_read_until_string-eq_example :
    async_read_until (flat_buffer heap) one_byte (text (5 ∷ 7 ∷ [])) fresh (5 ∷ 7 ∷ [])
    ≡ done_of
        (flat_buffer heap)
        one_byte
        (read_until_string (flat_buffer heap) (waited one_byte) (5 ∷ 7 ∷ []) fresh (5 ∷ 7 ∷ []))
async_read_until_string-eq_example =
    async_read_until_string-eq (flat_buffer heap) one_byte one_byte-Supplies (5 ∷ 7 ∷ []) fresh
      (5 ∷ 7 ∷ []) fresh-Good (λ e. omega arith)
