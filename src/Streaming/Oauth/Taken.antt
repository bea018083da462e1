-- ===== src/Streaming/Oauth/Taken.antt =====
-- Which stream is taken, streaming/src/stream/oauth.rs.
use sc_desktop_beautiful.Prelude.{
  All, Bool, List, Option, [], false, if◌then◌else◌, ltb, none, some, true, ℕ, ◌&&◌, ◌∷◌, ◌≡◌, ◌⊎◌,
}
use sc_desktop_beautiful.Prelude.Text.{codes, contains}
use sc_desktop_beautiful.Streaming.Oauth.{
  Candidate, Download, Requests, ScStreams, aac, candidates, direct_with, fetched, mpeg, not_found,
  retryable,
}

-- The tokens that are tried directly, one after the other.
abbrev pub tokens_of : Requests → List ℕ → List (List ℕ)
tokens_of r access_token =
    if r.proxy_fallback && r.has_proxy
    then access_token
      ∷ (if ltb 0 r.count then elim r.sessions [ none ↦ [] | some tokens ↦ tokens ] else [])
    else []

-- The first token whose answer is final decides; a track that is not found is given up. If no answer
-- is final, the proxy decides.
abbrev pub Decides : Requests → List (List ℕ) → Option ScStreams → Type 0
Decides r [] out = out ≡ r.by_proxy
Decides r (token ∷ tokens) (some s) =
    (direct_with r token ≡ fetched s)
    ⊎ ((direct_with r token ≡ retryable) × Decides r tokens (some s))
Decides r (token ∷ tokens) none =
    (direct_with r token ≡ not_found) ⊎ ((direct_with r token ≡ retryable) × Decides r tokens none)

-- A stream of the track in the quality that is asked for.
pub data Offers (hq_only : Bool) (s : ScStreams) : Candidate → Type 0 where
  aac_list : (url : List ℕ) → s.hls_aac_160_url ≡ some url → Offers hq_only s (url, true, aac)
  mpeg_file :
      (url : List ℕ)
      → hq_only ≡ false
      → s.http_mp3_128_url ≡ some url
      → Offers hq_only s (url, false, mpeg)
  mpeg_list :
      (url : List ℕ)
      → hq_only ≡ false
      → s.hls_mp3_128_url ≡ some url
      → Offers hq_only s (url, true, mpeg)

abbrev pub IsWhole : Bool → ScStreams → Candidate → Type 0
IsWhole hq_only s c = Offers hq_only s c × (contains c.0 (codes "preview") ≡ false)

-- What comes of the candidates: the download of one of them, or none can be downloaded.
abbrev pub Comes :
    (Candidate → Type 0) → Download → List Candidate → Option (List ℕ × List ℕ) → Type 0
Comes P download cs (some got) =
    (c : Candidate) × P c × ((direct : Bool) × (download c direct ≡ some got))
Comes P download cs none = All (λ c. download c false ≡ none) cs

-- One candidate: its download, or it cannot be downloaded by the proxy.
abbrev Tried : Download → Candidate → Option (List ℕ × List ℕ) → Type 0
Tried download c (some got) = (direct : Bool) × (download c direct ≡ some got)
Tried download c none = download c false ≡ none

-- What comes of the streams, if there are any.
abbrev pub Downloads : Download → Bool → Option ScStreams → Option (List ℕ × List ℕ) → Type 0
Downloads download hq_only none out = out ≡ none
Downloads download hq_only (some s) out =
    Comes (IsWhole hq_only s) download (candidates hq_only s) out
