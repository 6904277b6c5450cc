-- ===== src/ReadUntil/Async.antt =====
-- include/coio/asyncio/io.h: `async_read_until`, on `read_until_state`, and that it does what `read_until`
-- does.
use coio.Base.{
  ℕ, zero, suc, ◌+◌, ◌-◌, ◌≤◌, ◌<◌, ◌≡◌, refl, sym, ap, subst, ◌≢◌, inl, inr, true, false, Option,
  none, some, List, [], ◌∷◌, arith, if◌then◌else◌, ltb, leb, ◌==◌, Bool-cases, Option-cases, length,
  drop,
}
use coio.Base.Outcome.{done, throws, undefined}
use coio.DynamicBuffer.{DynamicBuffer}
use coio.Transfer.{got, Supplies}
use coio.Transfer.Async.{
  AsyncSource, value, error, stopped, waited, operation_canceled, Completion-cases,
}
use coio.ReadUntil.{
  Found, found, not_found, raised, threw, undefined_behaviour, exhausted, until_loop,
  read_until_char, read_until_string, search_char, search_string, bytes_to_read, find_char,
  find_string,
}
use coio.ReadUntil.Loop.{Outcome-cases}

-- `error::not_found`.
abbrev pub not_found_code : ℕ
not_found_code = 3

pub data Delim : Type 0 where
  char : ℕ → Delim
  text : List ℕ → Delim

abbrev pub search_of : Delim → ℕ → List ℕ → Option ℕ
search_of (char c) = search_char c
search_of (text t) = search_string t

-- `search()`: what it returns, 0 for nothing, and `search_pos`.
unfoldable pub search_state : Delim → ℕ → List ℕ → ℕ × ℕ
search_state delim search_pos bytes = elim (search_of delim search_pos bytes) [
  | some k ↦ (k, search_pos)
  | none ↦ (0, length bytes)
]

-- How the operation completes: `set_value(ec, n)`, with `none` for no error. It is terminated when
-- `prepare` throws, since the functions around are `noexcept`.
pub data Done (B D : Type 0) : Type 0 where
  completed : Option ℕ → ℕ → B → D → Done B D
  terminated : Done B D
  broken : Done B D
  out_of_fuel : Done B D

module _ (B : DynamicBuffer) {D : Type 0} (source : AsyncSource D) where
  open B use {Buffer, bytes, max_size, prepare, store, commit, IsGood}

  -- From one `search_and_read` on: `do_read`, the receiver, and `on_read_impl`, which comes back.
  unfoldable pub search_and_read : Delim → ℕ → ℕ → Buffer → D → Done Buffer D
  search_and_read delim zero search_pos b d = out_of_fuel
  search_and_read delim (suc fuel) search_pos b d =
      let (pos, next_pos) = search_state delim search_pos (bytes b) in
      let go_on : Done Buffer D = elim (prepare (bytes_to_read B (waited source) b) b) [
        | throws c e ↦ terminated
        | undefined ↦ broken
        | done c room ↦ elim (source (bytes_to_read B (waited source) b) d) [
          | error x e ↦ completed (some x) 0 c e
          | stopped e ↦ completed (some operation_canceled) 0 c e
          | value ys e ↦
              let rest =
                search_and_read delim fuel next_pos (commit (length ys) (store room ys c)) e in
              if length ys == 0 then completed none 0 c e else rest
        ]
      ] in
      if ltb 0 pos
      then completed none pos b d
      else if length (bytes b) == max_size b
      then completed (some not_found_code) 0 b d
      else go_on

  -- `start`.
  unfoldable pub async_read_until : Delim → Buffer → D → Done Buffer D
  async_read_until (char c) b d = search_and_read (char c) (max_size b + 1) 0 b d
  async_read_until (text []) b d = completed none 0 b d
  async_read_until (text (c ∷ t)) b d = search_and_read (text (c ∷ t)) (max_size b + 1) 0 b d

  -- What a call returns or throws, as a completion.
  abbrev pub done_of : Found Buffer D → Done Buffer D
  done_of (found k b d) = completed none k b d
  done_of (not_found b d) = completed (some not_found_code) 0 b d
  done_of (raised x b d) = completed (some x) 0 b d
  done_of (threw x b d) = terminated
  done_of undefined_behaviour = broken
  done_of exhausted = out_of_fuel

find_char-pos : (delim i : ℕ) (xs : List ℕ) (k : ℕ) → find_char delim i xs ≡ some k → 0 < k
unfolding find_char
find_char-pos delim i [] k h = cc
find_char-pos delim i (x ∷ xs) k h = ground (arith, find_char-pos delim (i + 1) xs k)

find_string-pos :
    (delim bytes : List ℕ) (rounds i k : ℕ)
    → 0 < length delim
    → find_string delim bytes rounds i ≡ some k
    → 0 < k
unfolding find_string
find_string-pos delim bytes zero i k p h = cc
find_string-pos delim bytes (suc rounds) i k p h =
    ground (arith, find_string-pos delim bytes rounds (i + 1) k)

abbrev IsText : Delim → Type 0
IsText (char c) = Unit {0}
IsText (text t) = 0 < length t

search_of-pos :
    (delim : Delim) (pos : ℕ) (xs : List ℕ) (k : ℕ)
    → IsText delim
    → search_of delim pos xs ≡ some k
    → 0 < k
unfolding search_char search_string
search_of-pos (char c) pos xs k p h = find_char-pos c pos (drop pos xs) k h
search_of-pos (text t) pos xs k p h = elim (Bool-cases (leb (length t) (length xs))) [
  | inl q ↦
      let start : ℕ = if ltb (length t - 1) pos then pos - length t + 1 else 0 in
      find_string-pos t xs (length xs - length t + 1 - start) start k p (rw q at h)
  | inr q ↦ cc (rw q at h)
]

search_state-none :
    (delim : Delim) (pos : ℕ) (xs : List ℕ)
    → search_of delim pos xs ≡ none
    → search_state delim pos xs ≡ (0, length xs)
unfolding search_state
search_state-none delim pos xs q = rw (q, search_state) refl

search_state-some :
    (delim : Delim) (pos : ℕ) (xs : List ℕ) (k : ℕ)
    → search_of delim pos xs ≡ some k
    → search_state delim pos xs ≡ (k, pos)
unfolding search_state
search_state-some delim pos xs k q = rw (q, search_state) refl

module _ (B : DynamicBuffer) {D : Type 0} (source : AsyncSource D)
    (g : Supplies (waited source)) where
  open B use {Buffer, bytes, max_size, prepare, store, commit, IsGood}

  search_and_read-until_loop :
      (delim : Delim) (fuel pos : ℕ) (b : Buffer) (d : D)
      → IsText delim
      → IsGood b
      → search_and_read B source delim fuel pos b d
        ≡ done_of B source (until_loop B (waited source) (search_of delim) fuel pos b d)
  unfolding search_and_read until_loop
  search_and_read-until_loop delim zero pos b d p w = refl
  search_and_read-until_loop delim (suc fuel) pos b d p w =
      elim (Option-cases (search_of delim pos (bytes b))) [
        | inr (k, q) ↦
            let positive : ltb 0 k ≡ true =
              ground (arith, search_of-pos delim pos (bytes b) k p q) in
            rw (search_state-some delim pos (bytes b) k q, q, search_and_read, until_loop, positive)
              refl
        | inl q ↦ elim (Bool-cases (length (bytes b) == max_size b)) [
          | inl z ↦
              rw (search_state-none delim pos (bytes b) q, q, search_and_read, until_loop, z) refl
          | inr z ↦
              let k : ℕ = bytes_to_read B (waited source) b in
              let room_left : length (bytes b) < max_size b = ground (arith, B.bytes_bounded b w) in
              let some_room : 0 < k = omega arith in
              let fits : k + length (bytes b) ≤ max_size b = omega arith in
              elim (Outcome-cases (prepare k b)) [
                | inr (inr u) ↦
                    rw
                      (
                        search_state-none delim pos (bytes b) q,
                        q,
                        search_and_read,
                        until_loop,
                        z,
                        u,
                      )
                      refl
                | inr (inl (t, x, u)) ↦
                    rw
                      (
                        search_state-none delim pos (bytes b) q,
                        q,
                        search_and_read,
                        until_loop,
                        z,
                        u,
                      )
                      refl
                | inl (t, room, u) ↦ elim (Completion-cases (source k d)) [
                  | inr (inl (x, e, r)) ↦
                      rw
                        (
                          search_state-none delim pos (bytes b) q,
                          q,
                          search_and_read,
                          until_loop,
                          z,
                          u,
                          r,
                        )
                        refl
                  | inr (inr (e, r)) ↦
                      rw
                        (
                          search_state-none delim pos (bytes b) q,
                          q,
                          search_and_read,
                          until_loop,
                          z,
                          u,
                          r,
                        )
                        refl
                  | inl (ys, e, r) ↦
                      let got_ys : waited source k d ≡ got ys e = rw (r, waited) refl in
                      let few : length ys ≤ k = g.fits k d got_ys in
                      let some_bytes : 0 < length ys = g.progress k d got_ys some_room in
                      let some_read : (length ys == 0) ≡ false = ground arith in
                      let (stored, good, same_max) =
                        B.prepare_store_commit k ys b t room w some_room fits few u in
                      rw
                        (
                          search_state-none delim pos (bytes b) q,
                          q,
                          search_and_read,
                          until_loop,
                          z,
                          u,
                          r,
                          some_read,
                        )
                        (subst
                          (λ n.
                            search_and_read B source delim fuel n
                              (commit (length ys) (store room ys t)) e
                            ≡ done_of B source (
                                until_loop B (waited source) (search_of delim) fuel
                                  (length (bytes b)) (commit (length ys) (store room ys t)) e))
                          (sym (ap (λ p. p.1) (search_state-none delim pos (bytes b) q)))
                          (search_and_read-until_loop delim fuel (length (bytes b))
                            (commit (length ys) (store room ys t)) e p good))
                ]
              ]
        ]
      ]

  -- `async_read_until` of a byte does what `read_until` does; it completes with the error that the call
  -- throws, with 0 bytes, and is terminated where `prepare` throws.
  pub async_read_until_char-eq :
      (c : ℕ) (b : Buffer) (d : D)
      → IsGood b
      → async_read_until B source (char c) b d
        ≡ done_of B source (read_until_char B (waited source) c b d)
  unfolding async_read_until read_until_char
  async_read_until_char-eq c b d w = search_and_read-until_loop (char c) (max_size b + 1) 0 b d tt w

  -- `async_read_until` of a string that is not of one byte, on a good buffer and a device that keeps its
  -- promises, which delivers at least one byte and at most those asked for or fails, does what `read_until` does; it completes with the error that the call throws and 0 bytes,
  -- and is terminated where `prepare` throws.
  pub async_read_until_string-eq :
      (t : List ℕ) (b : Buffer) (d : D)
      → IsGood b
      → length t ≢ 1
      → async_read_until B source (text t) b d
        ≡ done_of B source (read_until_string B (waited source) t b d)
  unfolding async_read_until read_until_string
  async_read_until_string-eq [] b d w n = refl
  async_read_until_string-eq (c ∷ []) b d w n = absurd (n refl)
  async_read_until_string-eq (c ∷ x ∷ t) b d w n =
      search_and_read-until_loop (text (c ∷ x ∷ t)) (max_size b + 1) 0 b d (omega arith) w
