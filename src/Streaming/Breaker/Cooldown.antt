-- ===== src/Streaming/Breaker/Cooldown.antt =====
-- The breaker of streaming/src/stream/storage.rs over time, with its requests and uploads in any order.
use sc_desktop_beautiful.Prelude.{List, Option, arith, none, true, ℕ, ◌+◌, ◌<◌, ◌≡◌, ◌≤◌}
use sc_desktop_beautiful.Streaming.Breaker.{
  Breaker, Storage, StorageClient, failed_once, is_temporarily_unavailable, mark_available,
  mark_unavailable, try_serve, unavailable_cooldown, unavailable_threshold, upload_failed,
  upload_in_background,
}

-- What the requests and the uploads do to the breaker, one at a time, at times that do not go back. The
-- count of failures does not overflow.
pub data Marks (start : ℕ) (b : Breaker) : ℕ → Breaker → Type 0 where
  unmarked : Marks start b start b
  passes : {t : ℕ} {c : Breaker} (now : ℕ) → t ≤ now → Marks start b t c → Marks start b now c
  answers : {t : ℕ} {c : Breaker} → Marks start b t c → Marks start b t (mark_available c)
  fails :
      {t : ℕ} {c : Breaker}
      → c.consecutive_unavailable + 1 < 4294967296
      → Marks start b t c
      → Marks start b t (mark_unavailable t c)
  loses :
      {t : ℕ} {c : Breaker}
      → c.consecutive_unavailable + 1 < 4294967296
      → Marks start b t c
      → Marks start b t (upload_failed t c)

-- The storage is left alone only after three failures in a row, and for a minute at most.
pub record IsPatient (now : ℕ) (b : Breaker) : Type 0 where
  pub earned : 0 < b.unavailable_until → unavailable_threshold ≤ b.consecutive_unavailable
  pub again : b.unavailable_until ≤ now + unavailable_cooldown

counted :
    (b : Breaker)
    → b.consecutive_unavailable + 1 < 4294967296
    → (failed_once b).consecutive_unavailable ≡ b.consecutive_unavailable + 1
unfolding failed_once
counted b h = omega arith

-- While the storage is left alone nothing is sent to it and nothing is written.
try_serve_waits :
    (c : StorageClient) (now : ℕ) (cached : Option (List ℕ)) (head : Option ℕ) (urn bytes : List ℕ)
    (s : Storage)
    → is_temporarily_unavailable now s.breaker ≡ true
    → (try_serve c now cached head urn s ≡ (none, s)) × (upload_in_background c now urn bytes s ≡ s)
unfolding try_serve upload_in_background
try_serve_waits c now cached head urn bytes s h = (grind arith, grind arith)
