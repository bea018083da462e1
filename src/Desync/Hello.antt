-- ===== src/Desync/Hello.antt =====
-- The ClientHello parser of utils/dpi-desync/src/tamper.rs. A byte is a number; an index or a slice
-- out of range is `panic`.
pub mod Scan
pub mod Shape
use sc_desktop_beautiful.Prelude.{
  ℕ, zero, suc, ◌+◌, ◌*◌, ◌&&◌, List, Option, none, some, ltb, leb, ◌==◌, not, min, length,
  if◌then◌else◌,
}
use sc_desktop_beautiful.Prelude.Outcome.{Outcome, ok, panic, ◌>>=◌, index, slice}

pub record Tls : Type 0 where
  pub payload : List ℕ
  pub sni : Option (ℕ × ℕ)

-- `u16::from_be_bytes([p[i], p[i + 1]])`
unfoldable pub u16_at : List ℕ → ℕ → Outcome ℕ
u16_at p i = do hi ← index p i; lo ← index p (i + 1); ok (hi * 256 + lo)

-- What one turn of the loop over the extensions does: it leaves, returns the name, or goes on.
pub data Turn : Type 0 where
  leave : Turn
  found : ℕ → ℕ → Turn
  next : ℕ → Turn

-- The body of the test for a `server_name` extension with room for a name.
unfoldable pub read_name : List ℕ → ℕ → ℕ → Outcome Turn
read_name p body elen = do
  name_len ← u16_at p (body + 3)
  let host_start = body + 5
  ok (
      if leb (host_start + name_len) (length p)
      then found (5 + host_start) name_len
      else next (body + elen))

unfoldable pub ext_turn : List ℕ → ℕ → ℕ → Outcome Turn
ext_turn p i ext_end =
    if leb (i + 4) ext_end
    then (do
      etype ← u16_at p i
      elen ← u16_at p (i + 2)
      let body = i + 4
      if etype == 0 && leb (body + 5) (length p)
          then read_name p body elen
          else ok (next (body + elen)))
    else ok leave

-- What follows a turn, with the rest of the loop from a later position.
unfoldable pub resume : (ℕ → Outcome (Option (ℕ × ℕ))) → Turn → Outcome (Option (ℕ × ℕ))
resume rest leave = ok none
resume rest (found off len) = ok (some (off, len))
resume rest (next j) = rest j

-- The `while` loop. A loop that runs out of turns counts as a panic, so a proof that there is no
-- panic is also one that the loop ends.
unfoldable pub ext_loop : ℕ → List ℕ → ℕ → ℕ → Outcome (Option (ℕ × ℕ))
ext_loop zero p i ext_end = panic
ext_loop (suc turns) p i ext_end = do
  t ← ext_turn p i ext_end
  resume (λ j. ext_loop turns p j ext_end) t

-- From the `i += 1 + p[i]` over the session id to the end of the function.
unfoldable pub scan_hello : List ℕ → Outcome (Option Tls)
scan_hello p = if ltb (length p) (38 + 1) then ok none else (do
  session_len ← index p 38
  let i = 38 + (1 + session_len)
  if ltb (length p) (i + 2) then ok none else (do
    suites_len ← u16_at p i
    let j = i + (2 + suites_len)
    if ltb (length p) (j + 1) then ok none else (do
      methods_len ← index p j
      let k = j + (1 + methods_len)
      if ltb (length p) (k + 2) then ok none else (do
        ext_total ← u16_at p k
        let start = k + 2
        sni ← ext_loop (length p + 1) p start (min (start + ext_total) (length p))
        ok (some (record { payload = p; sni = sni }))))))

unfoldable pub parse_tls_clienthello : List ℕ → Outcome (Option Tls)
parse_tls_clienthello buf = if ltb (length buf) 5 then ok none else (do
  kind ← index buf 0
  if not (kind == 0x16) then ok none else (do
    major ← index buf 1
    if not (major == 0x03) then ok none else (do
      rec_len ← u16_at buf 3
      let rec_end = 5 + rec_len
      if ltb (length buf) rec_end then ok none else (do
        p ← slice buf 5 rec_end
        if length p == 0 then ok none else (do
          handshake ← index p 0
          if not (handshake == 0x01) then ok none else scan_hello p)))))
