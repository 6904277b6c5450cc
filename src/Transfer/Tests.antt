-- ===== src/Transfer/Tests.antt =====
-- A device that moves one byte a call.
use coio.Base.{
  ℕ, zero, suc, ◌≤◌, ◌<◌, ◌≡◌, refl, sym, ◌∙◌, some, List, [], ◌∷◌, ◌++◌, arith, length,
}
use coio.DynamicBuffer.Samples.{heap, held, held-Good}
use coio.DynamicBuffer.Flat.{flat_buffer}
use coio.Transfer.AsyncAt.{async_read_at, async_read_at-eq-read_at}
use coio.Transfer.AsyncWrite.{
  AsyncSink, written, async_write, waited_out, CountsOut, async_write-CountsOut,
}
use coio.Transfer.Dynamic.Writes.{
  WritesOut, SendsOut, write_dynamic-WritesOut, async_write_dynamic-SendsOut,
}
use coio.Transfer.Dynamic.Reads.{
  ReadsInto, AppendsRead, read_dynamic-ReadsInto, async_read_dynamic-AppendsRead,
}
use coio.Transfer.Dynamic.{read_dynamic, write_dynamic, async_read_dynamic, async_write_dynamic}
use coio.Transfer.Async.{
  AsyncSource, value, error, waited, async_read, ran_of, completed, async_read-eq-read, transfer,
}
use coio.Transfer.{
  Source, Sink, took, Accepts, full, raised, got, failed, Supplies, read_loop, read, write, read_at,
}
use coio.Transfer.Counting.{Counts, async_read-Counts}
use coio.Transfer.Reading.{Fills, read-Fills}
use coio.Transfer.Writing.{Drains, write-Drains}

-- The bytes that are left; at their end, the error 1.
abbrev one_byte : Source (List ℕ)
one_byte zero d = got [] d
one_byte (suc n) [] = failed 1 []
one_byte (suc n) (x ∷ xs) = got (x ∷ []) xs

one_byte-fits : (n : ℕ) (d : List ℕ) {ys e : List ℕ} → one_byte n d ≡ got ys e → length ys ≤ n
one_byte-fits zero d h = ground (arith, h)
one_byte-fits (suc n) [] h = absurd (cc h)
one_byte-fits (suc n) (x ∷ xs) h = ground (arith, h)

one_byte-progress :
    (n : ℕ) (d : List ℕ) {ys e : List ℕ} → one_byte n d ≡ got ys e → 0 < n → 0 < length ys
one_byte-progress zero d h p = absurd (omega arith)
one_byte-progress (suc n) [] h p = absurd (cc h)
one_byte-progress (suc n) (x ∷ xs) h p = ground (arith, h)

one_byte-Supplies : Supplies one_byte
one_byte-Supplies = record {
  fits = λ n d {ys} {e} h. one_byte-fits n d h;
  progress = λ n d {ys} {e} h p. one_byte-progress n d h p;
}

read_all : read one_byte (0 ∷ 0 ∷ 0 ∷ []) (5 ∷ 6 ∷ 7 ∷ 8 ∷ []) ≡ full (5 ∷ 6 ∷ 7 ∷ []) (8 ∷ [])
unfolding read read_loop
read_all = refl

read_short : read one_byte (0 ∷ 0 ∷ 0 ∷ []) (5 ∷ 6 ∷ []) ≡ raised 1 (5 ∷ 6 ∷ 0 ∷ []) []
unfolding read read_loop
read_short = refl

read-Fills_example :
    Fills one_byte (5 ∷ 6 ∷ []) (0 ∷ 0 ∷ 0 ∷ []) (read one_byte (0 ∷ 0 ∷ 0 ∷ []) (5 ∷ 6 ∷ []))
read-Fills_example = read-Fills one_byte one_byte-Supplies (0 ∷ 0 ∷ 0 ∷ []) (5 ∷ 6 ∷ [])

-- A device that keeps what it takes.
abbrev keep_byte : Sink (List ℕ)
keep_byte [] d = took 0 d
keep_byte (x ∷ xs) d = took 1 (d ++ x ∷ [])

keep_byte-fits : (xs d : List ℕ) {n : ℕ} {e : List ℕ} → keep_byte xs d ≡ took n e → n ≤ length xs
keep_byte-fits [] d h = ground (arith, h)
keep_byte-fits (x ∷ xs) d h = ground (arith, h)

keep_byte-progress :
    (xs d : List ℕ) {n : ℕ} {e : List ℕ} → keep_byte xs d ≡ took n e → 0 < length xs → 0 < n
keep_byte-progress [] d h p = absurd (omega arith)
keep_byte-progress (x ∷ xs) d h p = ground (arith, h)

keep_byte-Accepts : Accepts keep_byte
keep_byte-Accepts = record {
  fits = λ xs d {n} {e} h. keep_byte-fits xs d h;
  progress = λ xs d {n} {e} h p. keep_byte-progress xs d h p;
}

write-Drains_example : Drains keep_byte [] (4 ∷ 5 ∷ []) (write keep_byte (4 ∷ 5 ∷ []) [])
write-Drains_example = write-Drains keep_byte keep_byte-Accepts [] (4 ∷ 5 ∷ [])

-- The same device, asynchronously.
abbrev async_byte : AsyncSource (List ℕ)
async_byte zero d = value [] d
async_byte (suc n) [] = error 1 []
async_byte (suc n) (x ∷ xs) = value (x ∷ []) xs

waited-byte : (n : ℕ) (d : List ℕ) → waited async_byte n d ≡ one_byte n d
waited-byte zero d = refl
waited-byte (suc n) [] = refl
waited-byte (suc n) (x ∷ xs) = refl

async_byte-Supplies : Supplies (waited async_byte)
async_byte-Supplies = record {
  fits = λ n d {ys} {e} h. one_byte-fits n d (sym (waited-byte n d) ∙ h);
  progress = λ n d {ys} {e} h p. one_byte-progress n d (sym (waited-byte n d) ∙ h) p;
}

async_read-eq-read_example :
    ran_of (async_read async_byte (0 ∷ 0 ∷ []) (5 ∷ []))
    ≡ read (waited async_byte) (0 ∷ 0 ∷ []) (5 ∷ [])
async_read-eq-read_example =
    async_read-eq-read async_byte async_byte-Supplies (0 ∷ 0 ∷ []) (5 ∷ []) (omega arith)

async_read-Counts_test : Counts async_byte (5 ∷ []) 2 (async_read async_byte (0 ∷ 0 ∷ []) (5 ∷ []))
async_read-Counts_test = async_read-Counts async_byte async_byte-Supplies (0 ∷ 0 ∷ []) (5 ∷ [])

-- An empty buffer: the call reads nothing, the operation reads, and fails where the device does.
abbrev broken : AsyncSource (List ℕ)
broken n d = error 5 d

empty_differs :
    (async_read broken [] [] ≡ completed (some 5) 0 [] [])
    × (read (waited broken) [] [] ≡ full [] [])
unfolding async_read read transfer
empty_differs = (refl, refl)

-- On a `flat_buffer`.
read_dynamic-ReadsInto_test :
    ReadsInto
      (flat_buffer heap)
      one_byte
      2
      held
      (5 ∷ [])
      (read_dynamic (flat_buffer heap) one_byte 2 held (5 ∷ []))
read_dynamic-ReadsInto_test =
    read_dynamic-ReadsInto (flat_buffer heap) 2 held (5 ∷ []) held-Good (omega arith) (omega arith)
      one_byte one_byte-Supplies

async_read_dynamic-AppendsRead_example :
    AppendsRead
      (flat_buffer heap)
      async_byte
      2
      held
      (5 ∷ [])
      (async_read_dynamic (flat_buffer heap) async_byte 2 held (5 ∷ []))
async_read_dynamic-AppendsRead_example =
    async_read_dynamic-AppendsRead (flat_buffer heap) 2 held (5 ∷ []) held-Good (omega arith)
      (omega arith) async_byte async_byte-Supplies

async_read_at-eq-read_at_test :
    ran_of (async_read_at (λ o. async_byte) 3 (0 ∷ 0 ∷ []) (5 ∷ []))
    ≡ read_at (λ o. waited async_byte) 3 (0 ∷ 0 ∷ []) (5 ∷ [])
async_read_at-eq-read_at_test =
    async_read_at-eq-read_at (λ o. async_byte) (λ o. async_byte-Supplies) 3 (0 ∷ 0 ∷ []) (5 ∷ [])
      (omega arith)

-- A device that takes one byte a call and keeps it.
abbrev async_keep : AsyncSink (List ℕ)
async_keep [] d = written 0 d
async_keep (x ∷ xs) d = written 1 (d ++ x ∷ [])

waited_out-keep : (xs d : List ℕ) → waited_out async_keep xs d ≡ keep_byte xs d
waited_out-keep [] d = refl
waited_out-keep (x ∷ xs) d = refl

async_keep-Accepts : Accepts (waited_out async_keep)
async_keep-Accepts = record {
  fits = λ xs d {n} {e} h. keep_byte-fits xs d (sym (waited_out-keep xs d) ∙ h);
  progress = λ xs d {n} {e} h p. keep_byte-progress xs d (sym (waited_out-keep xs d) ∙ h) p;
}

async_write-CountsOut_test :
    CountsOut async_keep [] (4 ∷ 5 ∷ []) (async_write async_keep (4 ∷ 5 ∷ []) [])
async_write-CountsOut_test = async_write-CountsOut async_keep async_keep-Accepts (4 ∷ 5 ∷ []) []

write_dynamic-WritesOut_test :
    WritesOut
      (flat_buffer heap)
      keep_byte
      held
      []
      (write_dynamic (flat_buffer heap) keep_byte held [])
write_dynamic-WritesOut_test =
    write_dynamic-WritesOut (flat_buffer heap) held [] held-Good keep_byte keep_byte-Accepts

async_write_dynamic-SendsOut_test :
    SendsOut
      (flat_buffer heap)
      async_keep
      held
      []
      (async_write_dynamic (flat_buffer heap) async_keep held [])
async_write_dynamic-SendsOut_test =
    async_write_dynamic-SendsOut (flat_buffer heap) held [] held-Good async_keep async_keep-Accepts
