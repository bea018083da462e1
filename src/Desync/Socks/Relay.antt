-- ===== src/Desync/Socks/Relay.antt =====
-- What goes upstream once the tunnel stands.
use sc_desktop_beautiful.Prelude.{
  All, Bool, List, [], ap, append-nil, append_assoc, arith, concat, false, leb, length,
  length-append, ltb, not, refl, suc, sym, true, ℕ, ◌++◌, ◌+◌, ◌<◌, ◌==◌, ◌∙◌, ◌∷◌, ◌≡◌, ◌≢◌, ◌≤◌,
}
use sc_desktop_beautiful.Prelude.Outcome.{
  Outcome, Returns, bind-Returns, if-Returns, index, index-Returns, ok, panic,
}
use sc_desktop_beautiful.Desync.Hello.{u16_at}
use sc_desktop_beautiful.Desync.Hello.Scan.{u16_at-Returns}
use sc_desktop_beautiful.Desync.Strategy.{State, Strategy, effective, tls_rec, tls_rec_split}
use sc_desktop_beautiful.Desync.Tamper.{apply, write_seg}
use sc_desktop_beautiful.Desync.Tamper.Cuts.{
  Carries, and_then-Carries, apply-Carries_buf, write_seg-Carries,
}
use sc_desktop_beautiful.Desync.Socks.{
  Flight, Read, aborted, bytes, copy, crashed, eof, failed, first_flight, first_flight_max,
  gathered, is_enough, keep_reading, quiet, record_complete, relay, send_flight,
}

-- The bytes that the client sends before it closes or its socket fails.
unfoldable pub client_bytes : List Read → List ℕ
client_bytes [] = []
client_bytes (eof ∷ reads) = []
client_bytes (failed ∷ reads) = []
client_bytes (quiet ∷ reads) = client_bytes reads
client_bytes (bytes b bs ∷ reads) = (b ∷ bs) ++ client_bytes reads

record_complete-Returns : (b : List ℕ) → Returns (λ _. Unit {0}) (record_complete b)
unfolding record_complete
record_complete-Returns b =
    if-Returns _ (ltb (length b) 5) _ _ (λ _. tt)
      λ h. bind-Returns _ _ (index b 0) _ (index-Returns b 0 (ground arith)) λ kind _ _.
        if-Returns _ (not (kind == 0x16)) _ _ (λ _. tt)
          λ _. bind-Returns _ _ (u16_at b 3) _ (u16_at-Returns b 3 (ground arith)) λ l _ _. tt

is_enough-Returns : (b : List ℕ) → Returns (λ _. Unit {0}) (is_enough b)
unfolding is_enough
is_enough-Returns b =
    if-Returns _ (leb first_flight_max (length b)) _ _ (λ _. tt) (λ _. record_complete-Returns b)

-- What is gathered and what is left to read are `whole` together.
abbrev Gathers : List ℕ → Flight → Type 0
Gathers whole (gathered g left) = g ++ client_bytes left ≡ whole
Gathers whole aborted = Unit
Gathers whole crashed = ⊥

keep_reading-Gathers :
    (whole : List ℕ) (m : Outcome Bool) (first : List ℕ) (reads : List Read) (rest : Flight)
    → Returns (λ _. Unit {0}) m
    → first ++ client_bytes reads ≡ whole
    → Gathers whole rest
    → Gathers whole (keep_reading m first reads rest)
unfolding keep_reading
keep_reading-Gathers whole (ok true) first reads rest r e h = e
keep_reading-Gathers whole (ok false) first reads rest r e h = h
keep_reading-Gathers whole panic first reads rest r e h = r

first_flight-Gathers :
    (whole first : List ℕ) (reads : List Read)
    → first ++ client_bytes reads ≡ whole
    → Gathers whole (first_flight first reads)
unfolding first_flight client_bytes
first_flight-Gathers whole first [] e = e
first_flight-Gathers whole first (eof ∷ reads) e = e
first_flight-Gathers whole first (quiet ∷ reads) e = e
first_flight-Gathers whole first (failed ∷ reads) e = tt
first_flight-Gathers whole first (bytes b bs ∷ reads) e =
    let e' : (first ++ b ∷ bs) ++ client_bytes reads ≡ whole =
      append_assoc first (b ∷ bs) (client_bytes reads) ∙ e in
    keep_reading-Gathers whole _ (first ++ b ∷ bs) reads _ (is_enough-Returns (first ++ b ∷ bs)) e'
      (first_flight-Gathers whole (first ++ b ∷ bs) reads e')

-- A read fills at most the 4096 bytes of `tmp`.
unfoldable pub FitsTmp : Read → Type 0
FitsTmp (bytes b bs) = suc (length bs) ≤ 4096
FitsTmp _ = Unit

unfoldable pub Below : ℕ → Flight → Type 0
Below n (gathered g left) = length g < n
Below n aborted = Unit
Below n crashed = ⊥

keep_reading-Below :
    (n : ℕ) (m : Outcome Bool) (first : List ℕ) (reads : List Read) (rest : Flight)
    → Returns (λ _. Unit {0}) m
    → length first < n
    → (m ≡ ok false → Below n rest)
    → Below n (keep_reading m first reads rest)
unfolding keep_reading Below
keep_reading-Below n (ok true) first reads rest r e h = e
keep_reading-Below n (ok false) first reads rest r e h = h refl
keep_reading-Below n panic first reads rest r e h = r

is_enough_bound : (b : List ℕ) → is_enough b ≡ ok false → length b < first_flight_max
unfolding is_enough
is_enough_bound b e = ground arith

-- The buffer of the first flight stays below 16 KiB and one read, whatever the client does: the loop
-- stops as soon as it holds `FIRST_FLIGHT_MAX` bytes.
first_flight-Below :
    (first : List ℕ) (reads : List Read)
    → length first < first_flight_max
    → All FitsTmp reads
    → Below (first_flight_max + 4096) (first_flight first reads)
unfolding first_flight FitsTmp Below
first_flight-Below first [] h a = omega arith
first_flight-Below first (eof ∷ reads) h a = omega arith
first_flight-Below first (quiet ∷ reads) h a = omega arith
first_flight-Below first (failed ∷ reads) h a = tt
first_flight-Below first (bytes b bs ∷ reads) h a =
    keep_reading-Below _ _ (first ++ b ∷ bs) reads _ (is_enough-Returns (first ++ b ∷ bs))
      (omega (arith, length-append first (b ∷ bs), a.0))
      λ e. first_flight-Below (first ++ b ∷ bs) reads (is_enough_bound _ e) a.1

module _ (up : ℕ → Bool) where
  copy-Carries :
      (whole : List ℕ) (reads : List Read) (segs : List (List ℕ))
      → concat segs ++ client_bytes reads ≡ whole
      → Carries (λ out. out ≡ whole) (copy up reads segs)
  unfolding copy client_bytes
  copy-Carries whole [] segs e = sym (append-nil (concat segs)) ∙ e
  copy-Carries whole (eof ∷ reads) segs e = sym (append-nil (concat segs)) ∙ e
  copy-Carries whole (quiet ∷ reads) segs e = copy-Carries whole reads segs e
  copy-Carries whole (failed ∷ reads) segs e = ([], e)
  copy-Carries whole (bytes b bs ∷ reads) segs e =
      and_then-Carries (λ out. out ≡ whole) (λ out. out ++ client_bytes reads ≡ whole)
        (write_seg up (b ∷ bs) segs) (copy up reads)
        (write_seg-Carries up (λ out. out ≡ whole) (b ∷ bs) segs (client_bytes reads) e)
        (λ segs' q. copy-Carries whole reads segs' q) (λ out q. (client_bytes reads, q))

  send_flight-Carries :
      (whole : List ℕ) (s : Strategy) (flight : Flight)
      → s ≢ tls_rec
      → s ≢ tls_rec_split
      → Gathers whole flight
      → Carries (λ out. out ≡ whole) (send_flight up s flight)
  unfolding send_flight
  send_flight-Carries whole s (gathered [] reads) p q e = copy-Carries whole reads [] e
  send_flight-Carries whole s (gathered (b ∷ bs) reads) p q e =
      and_then-Carries (λ out. out ≡ whole) (λ out. out ≡ b ∷ bs) (apply up (b ∷ bs) s)
        (copy up reads) (apply-Carries_buf up (b ∷ bs) s (omega arith) p q)
        (λ segs h. copy-Carries whole reads segs (ap (λ xs. xs ++ client_bytes reads) h ∙ e))
        (λ out h. (client_bytes reads, ap (λ xs. xs ++ client_bytes reads) h ∙ e))
  send_flight-Carries whole s aborted p q e = (whole, refl)
  send_flight-Carries whole s crashed p q e = absurd e

  -- The tunnel is transparent: unless the strategy writes records, what goes upstream is what the
  -- client sends, byte for byte and in order, however its bytes fall into reads; after an error on
  -- either socket it is a part from the front.
  pub relay-Carries :
      (st : State) (reads : List Read)
      → effective st ≢ tls_rec
      → effective st ≢ tls_rec_split
      → Carries (λ out. out ≡ client_bytes reads) (relay up st reads)
  unfolding relay
  relay-Carries st reads p q = go (effective st) p q
    where
      go :
          (s : Strategy)
          → s ≢ tls_rec
          → s ≢ tls_rec_split
          → Carries
              (λ out. out ≡ client_bytes reads)
              (elim s [
                | Strategy.none ↦ copy up reads []
                | s' ↦ send_flight up s' (first_flight [] reads)
              ])
      go Strategy.none p q = copy-Carries (client_bytes reads) reads [] refl
      go s p q =
          send_flight-Carries (client_bytes reads) s (first_flight [] reads) p q
            (first_flight-Gathers (client_bytes reads) [] reads refl)
