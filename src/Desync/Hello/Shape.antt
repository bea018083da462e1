-- ===== src/Desync/Hello/Shape.antt =====
-- What the parser answers for any buffer at all: it returns, and a ClientHello that it accepts lies
-- in the buffer as the record header says.
use sc_desktop_beautiful.Prelude.{
  ℕ, ◌+◌, ◌-◌, ◌≤◌, ◌≡◌, refl, List, Option, none, some, ltb, ◌==◌, min, not, length, arith, take,
  drop, get_elem?, subst,
}
use sc_desktop_beautiful.Prelude.Outcome.{
  ok, index, slice, Returns, bind-Returns, if-Returns, index-Returns, slice-Returns, Returns-mono,
}
use sc_desktop_beautiful.Desync.Hello.{Tls, u16_at, ext_loop, scan_hello, parse_tls_clienthello}
use sc_desktop_beautiful.Desync.Hello.Scan.{u16_at-Returns, ext_loop-Returns, FoundFrom}

-- `off` and `len` of a name lie inside the payload, behind the fixed fields of the hello.
abbrev pub SniWithin : ℕ → Option (ℕ × ℕ) → Type 0
SniWithin size none = Unit
SniWithin size (some (off, len)) = (57 ≤ off) × (off + len ≤ 5 + size)

abbrev pub Scanned : List ℕ → Option Tls → Type 0
Scanned p none = Unit
Scanned p (some t) = (t.payload ≡ p) × (43 ≤ length p) × SniWithin (length p) t.sni

FoundFrom-SniWithin :
    (p : List ℕ) (i : ℕ) (r : Option (ℕ × ℕ)) → 43 ≤ i → FoundFrom p i r → SniWithin (length p) r
FoundFrom-SniWithin p i none h f = tt
FoundFrom-SniWithin p i (some (off, len)) h f = omega arith

scan_hello-Scanned : (p : List ℕ) → Returns (Scanned p) (scan_hello p)
unfolding scan_hello
scan_hello-Scanned p =
    if-Returns _ (ltb (length p) (38 + 1)) _ _ (λ _. tt)
      λ h0. bind-Returns _ _ (index p 38) _ (index-Returns p 38 (ground arith)) λ session_len _ _.
        if-Returns _ (ltb (length p) (38 + (1 + session_len) + 2)) _ _ (λ _. tt)
          λ h1.
            bind-Returns _ _ (u16_at p (38 + (1 + session_len))) _
              (u16_at-Returns p _ (ground arith))
              λ suites_len _ _.
                if-Returns _ (ltb (length p) (38 + (1 + session_len) + (2 + suites_len) + 1)) _ _
                  (λ _. tt)
                  λ h2.
                    bind-Returns _ _ (index p (38 + (1 + session_len) + (2 + suites_len))) _
                      (index-Returns p _ (ground arith))
                      λ methods_len _ _.
                        if-Returns _
                          (ltb (length p)
                            (38 + (1 + session_len) + (2 + suites_len) + (1 + methods_len) + 2))
                          _ _ (λ _. tt)
                          λ h3.
                            bind-Returns _ _
                              (u16_at p
                                (38 + (1 + session_len) + (2 + suites_len) + (1 + methods_len)))
                              _ (u16_at-Returns p _ (ground arith))
                              λ ext_total _ _.
                                bind-Returns _ _
                                  (ext_loop (length p + 1) p
                                    (38
                                      + (1 + session_len)
                                      + (2 + suites_len)
                                      + (1 + methods_len)
                                      + 2)
                                    (min
                                      (38
                                        + (1 + session_len)
                                        + (2 + suites_len)
                                        + (1 + methods_len)
                                        + 2
                                        + ext_total)
                                      (length p)))
                                  _
                                  (ext_loop-Returns (length p + 1) p _ _ (omega arith) (omega arith)
                                    (omega arith))
                                  λ sni _ f. (
                                    refl,
                                    ground arith,
                                    FoundFrom-SniWithin p _ sni (omega arith) f,
                                  )

-- What holds of an accepted buffer: the record header, the payload behind it, and the name.
abbrev pub IsHello : List ℕ → Option Tls → Type 0
IsHello buf none = Unit
IsHello buf (some t) =
    (get_elem? buf 0 ≡ some 0x16)
    × (5 + length t.payload ≤ length buf)
    × (t.payload ≡ take (length t.payload) (drop 5 buf))
    × (u16_at buf 3 ≡ ok (length t.payload))
    × (43 ≤ length t.payload)
    × SniWithin (length t.payload) t.sni

Scanned-IsHello :
    (buf p : List ℕ) (rec_len : ℕ)
    → get_elem? buf 0 ≡ some 0x16
    → 5 + rec_len ≤ length buf
    → u16_at buf 3 ≡ ok rec_len
    → (p ≡ take (5 + rec_len - 5) (drop 5 buf)) × (length p ≡ 5 + rec_len - 5)
    → (r : Option Tls) → scan_hello p ≡ ok r
    → Scanned p r
    → IsHello buf r
Scanned-IsHello buf p rec_len at0 fits at3 at5 none e s = tt
Scanned-IsHello buf p rec_len at0 fits at3 (at5, size) (some t) e (same, long, sni) =
    let n : 5 + rec_len - 5 ≡ length p = omega arith in
    let m : rec_len ≡ length p = omega arith in
    rw same (
      at0,
      omega arith,
      subst (λ k. p ≡ take k (drop 5 buf)) n at5,
      subst (λ k. u16_at buf 3 ≡ ok k) m at3,
      long,
      sni,
    )

-- The parser returns on every buffer: no index or slice is out of range and the loop over the
-- extensions ends. What it accepts is a handshake record, of which the buffer holds all that the
-- header announces; the payload is those bytes, and a name that is found lies inside them.
pub parse_tls_clienthello-IsHello :
    (buf : List ℕ) → Returns (IsHello buf) (parse_tls_clienthello buf)
unfolding parse_tls_clienthello
parse_tls_clienthello-IsHello buf =
    if-Returns _ (ltb (length buf) 5) _ _ (λ _. tt)
      λ h0. bind-Returns _ _ (index buf 0) _ (index-Returns buf 0 (ground arith)) λ kind _ at0.
        if-Returns _ (not (kind == 0x16)) _ _ (λ _. tt)
          λ h1. bind-Returns _ _ (index buf 1) _ (index-Returns buf 1 (ground arith)) λ major _ _.
            if-Returns _ (not (major == 0x03)) _ _ (λ _. tt)
              λ h2.
                bind-Returns _ _ (u16_at buf 3) _ (u16_at-Returns buf 3 (ground arith))
                  λ rec_len e _.
                    if-Returns _ (ltb (length buf) (5 + rec_len)) _ _ (λ _. tt)
                      λ h3.
                        bind-Returns _ _ (slice buf 5 (5 + rec_len)) _
                          (slice-Returns buf 5 _ (omega arith) (ground arith))
                          λ p _ at5.
                            if-Returns _ (length p == 0) _ _ (λ _. tt)
                              λ h4.
                                bind-Returns _ _ (index p 0) _ (index-Returns p 0 (ground arith))
                                  λ handshake _ _.
                                    if-Returns _ (not (handshake == 0x01)) _ _ (λ _. tt)
                                      λ h5. Returns-mono _ _ (scan_hello p) (scan_hello-Scanned p) (
                                        Scanned-IsHello buf p rec_len (rw at0 (ground arith))
                                          (ground arith) e at5)
