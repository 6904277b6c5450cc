-- ===== src/Transfer/Dynamic/Writes.antt =====
-- What is written from a dynamic buffer.

use coio.Base.{
  ℕ, ◌≡◌, refl, sym, ap, ◌∙◌, none, some, List, [], ◌++◌, length, drop, drop-append_exact,
}
use coio.Transfer.Writing.{Takes, Drains, all, part, write-Drains}
use coio.Transfer.Dynamic.{
  Moved, returned, device_threw, completes, consumed, write_dynamic, async_write_dynamic,
}
use coio.DynamicBuffer.{DynamicBuffer}
use coio.Transfer.AsyncWrite.{
  AsyncSink, waited_out, all_counted, part_counted, async_write-CountsOut,
}
use coio.Transfer.{Sink, refused, Accepts, Ran}
use mathlib.Core.List.{append-nil}

module _ (B : DynamicBuffer) {D : Type 0} where
  open B use {Buffer, bytes}

  -- What `write` promises: the device takes what the buffer shows, which shows nothing then; or the device
  -- throws, and the buffer still shows all, also what the device took before.
  pub data WritesOut (sink : Sink D) (b : Buffer) (d : D) (r : Moved Buffer D) : Type 0 where
    all_written :
        (c : Buffer) (e : D)
        → Takes sink d (bytes b) e
        → r ≡ returned (length (bytes b)) c e
        → bytes c ≡ []
        → WritesOut sink b d r
    write_failed :
        (x : ℕ) (xs rest : List ℕ) (e f : D)
        → Takes sink d xs e
        → xs ++ rest ≡ bytes b
        → sink rest e ≡ refused x f
        → r ≡ device_threw x b f
        → WritesOut sink b d r

  -- What `async_write` promises: what the device took and what the buffer still shows are what it
  -- showed, in either case; without an error, it shows nothing.
  pub data SendsOut (sink : AsyncSink D) (b : Buffer) (d : D) (r : Moved Buffer D) : Type 0 where
    all_sent :
        (xs : List ℕ) (c : Buffer) (e : D)
        → Takes (waited_out sink) d xs e
        → r ≡ completes none (length xs) c e
        → xs ≡ bytes b
        → bytes c ≡ []
        → SendsOut sink b d r
    part_sent :
        (x : ℕ) (xs : List ℕ) (c : Buffer) (e f : D)
        → Takes (waited_out sink) d xs e
        → waited_out sink (bytes c) e ≡ refused x f
        → r ≡ completes (some x) (length xs) c f
        → xs ++ bytes c ≡ bytes b
        → SendsOut sink b d r

module _ (B : DynamicBuffer) {D : Type 0} (b : B.Buffer) (d : D) (w : B.IsGood b) where
  open B use {Buffer, bytes, consume}

  rest-shown : (xs rest : List ℕ) → xs ++ rest ≡ bytes b → bytes (consume (length xs) b) ≡ rest
  rest-shown xs rest h =
      B.bytes-consume (length xs) b w
      ∙ ap (drop (length xs)) (sym h)
      ∙ drop-append_exact (length xs) xs rest refl

  none-shown : bytes (consume (length (bytes b)) b) ≡ []
  none-shown = rest-shown (bytes b) [] (append-nil (bytes b))

  -- `write` of a good buffer to a device that keeps its promises: the device takes all that is shown, and
  -- nothing is shown then; or it throws, and all is shown, also what it took before.
  pub write_dynamic-WritesOut :
      (sink : Sink D) → Accepts sink → WritesOut B sink b d (write_dynamic B sink b d)
  unfolding write_dynamic
  write_dynamic-WritesOut sink g = drained (write-Drains sink g d (bytes b))
    where
      drained : {r : Ran D} → Drains sink d (bytes b) r → WritesOut B sink b d (consumed B b r)
      drained (all {e = e} v) = all_written (consume (length (bytes b)) b) e v refl none-shown
      drained (part {e = e} {f = f} x xs rest v h p q) = write_failed x xs rest e f v h q refl

  -- `async_write` of a good buffer to a device that keeps its promises: what the device took and what is
  -- still shown are what was shown; without an error, nothing is shown.
  pub async_write_dynamic-SendsOut :
      (sink : AsyncSink D)
      → Accepts (waited_out sink)
      → SendsOut B sink b d (async_write_dynamic B sink b d)
  unfolding async_write_dynamic
  async_write_dynamic-SendsOut sink g = elim (async_write-CountsOut sink g (bytes b) d) [
    | all_counted {e = e} v r ↦
        all_sent (bytes b) (consume (length (bytes b)) b) e v (rw r refl) refl none-shown
    | part_counted {e = e} {f = f} x xs rest v h o q r ↦
        let shown : bytes (consume (length xs) b) ≡ rest = rest-shown xs rest h in
        part_sent x xs (consume (length xs) b) e f v (ap (λ zs. waited_out sink zs e) shown ∙ q)
          (rw r refl) (ap (λ zs. xs ++ zs) shown ∙ h)
  ]
