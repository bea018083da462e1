-- ===== src/Streaming/Breaker.antt =====
-- The storage as the streaming service sees it, streaming/src/stream/storage.rs: tracks that it may
-- hold, uploads to it, and the breaker that leaves it alone for a minute after three failures. The
-- times are in milliseconds.
pub mod Cooldown
use sc_desktop_beautiful.Prelude.{
  Bool, List, Option, [], false, if◌then◌else◌, leb, ltb, none, some, true, ℕ, ◌%◌, ◌&&◌, ◌++◌, ◌+◌,
  ◌||◌, ◌∷◌, not,
}
use sc_desktop_beautiful.Prelude.Text.{codes}

abbrev pub unavailable_threshold : ℕ
unavailable_threshold = 3

abbrev pub unavailable_cooldown : ℕ
unavailable_cooldown = 60000

pub record Breaker : Type 0 where
  pub consecutive_unavailable : ℕ
  pub unavailable_until : ℕ

unfoldable pub is_temporarily_unavailable : ℕ → Breaker → Bool
is_temporarily_unavailable now b = ltb 0 b.unavailable_until && ltb now b.unavailable_until

unfoldable pub mark_available : Breaker → Breaker
mark_available b = record { consecutive_unavailable = 0; unavailable_until = 0 }

-- `fetch_add` on an AtomicU32
unfoldable pub failed_once : Breaker → Breaker
failed_once b = record b { consecutive_unavailable = (b.consecutive_unavailable + 1) % 4294967296 }

unfoldable pub mark_unavailable : ℕ → Breaker → Breaker
mark_unavailable now b =
    if leb unavailable_threshold (b.consecutive_unavailable + 1)
      && not (is_temporarily_unavailable now (failed_once b))
    then record (failed_once b) { unavailable_until = now + unavailable_cooldown }
    else failed_once b

-- The end of an upload that failed.
unfoldable pub upload_failed : ℕ → Breaker → Breaker
upload_failed now b =
    if leb unavailable_threshold (b.consecutive_unavailable + 1) && leb b.unavailable_until now
    then record (failed_once b) { unavailable_until = now + unavailable_cooldown }
    else failed_once b

pub data VerifyResult : Type 0 where
  verified : VerifyResult
  missing : VerifyResult
  unavailable : VerifyResult

-- What is written about a cached track: that it was used, or its status.
pub data Write : Type 0 where
  update_last_accessed : List ℕ → Write
  update_cdn_track_status : List ℕ → List ℕ → Write

-- The requests that were sent to the storage, the writes to the table, and the uploads that were begun.
pub record Storage : Type 0 where
  pub breaker : Breaker
  pub heads : List (List ℕ)
  pub writes : List Write
  pub uploads : List (List ℕ × List ℕ)

pub record StorageClient : Type 0 where
  pub base_url : List ℕ
  pub public_url : List ℕ
  pub auth_token : List ℕ

unfoldable pub is_empty : List ℕ → Bool
is_empty [] = true
is_empty (c ∷ cs) = false

unfoldable pub enabled : StorageClient → Bool
enabled c = not (is_empty c.base_url) && not (is_empty c.auth_token)

-- `track_urn.replace(':', "_")`
unfoldable pub track_filename : List ℕ → List ℕ
track_filename [] = []
track_filename (c ∷ cs) = (if leb c 58 && leb 58 c then 95 else c) ∷ track_filename cs

unfoldable pub track_path : List ℕ → List ℕ
track_path urn = track_filename urn ++ codes ".m4a"

unfoldable pub internal_url : StorageClient → List ℕ → List ℕ
internal_url c urn = c.base_url ++ codes "/" ++ track_path urn

unfoldable pub public_track_url : StorageClient → List ℕ → List ℕ
public_track_url c urn = c.public_url ++ codes "/" ++ track_path urn

-- What follows from the status of the answer, or from its failure.
unfoldable pub judged : ℕ → Option ℕ → Breaker → VerifyResult × Breaker
judged now none b = (unavailable, mark_unavailable now b)
judged now (some status) b =
    if leb 200 status && ltb status 300
    then (verified, mark_available b)
    else if (leb status 404 && leb 404 status) || (leb status 410 && leb 410 status)
    then (missing, mark_available b)
    else (unavailable, mark_unavailable now b)

unfoldable pub verify_url : ℕ → Option ℕ → List ℕ → Storage → VerifyResult × Storage
verify_url now head url s =
    if is_temporarily_unavailable now s.breaker
    then (unavailable, s)
    else let out = judged now head s.breaker in
      (out.0, record s { breaker = out.1; heads = url ∷ s.heads })

unfoldable pub served :
    StorageClient → List ℕ → List ℕ → VerifyResult × Storage → Option (List ℕ) × Storage
served c urn id (verified, s) =
    (some (public_track_url c urn), record s { writes = update_last_accessed id ∷ s.writes })
served c urn id (missing, s) =
    (none, record s { writes = update_cdn_track_status id (codes "error") ∷ s.writes })
served c urn id (unavailable, s) = (none, s)

-- `cached` is the row of the track, if there is one and the table answers, and `head` the status.
unfoldable pub try_serve :
    StorageClient → ℕ → Option (List ℕ) → Option ℕ → List ℕ → Storage → Option (List ℕ) × Storage
try_serve c now cached head urn s =
    if not (enabled c) || is_temporarily_unavailable now s.breaker then (none, s) else elim cached [
      | none ↦ (none, s)
      | some id ↦ served c urn id (verify_url now head (internal_url c urn) s)
    ]

unfoldable pub upload_in_background : StorageClient → ℕ → List ℕ → List ℕ → Storage → Storage
upload_in_background c now urn bytes s =
    if not (enabled c) || is_temporarily_unavailable now s.breaker
    then s
    else record s { uploads = (urn, bytes) ∷ s.uploads }

-- What the task of an upload does after it: the status of the row, unless the row could not be made.
unfoldable pub upload_ended : ℕ → Option (List ℕ) → Bool → Storage → Storage
upload_ended now none fine s = s
upload_ended now (some id) true s = record s {
  breaker = mark_available s.breaker;
  writes = update_cdn_track_status id (codes "ok") ∷ s.writes;
}
upload_ended now (some id) false s = record s {
  breaker = upload_failed now s.breaker;
  writes = update_cdn_track_status id (codes "error") ∷ s.writes;
}
