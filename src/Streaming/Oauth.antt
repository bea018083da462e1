-- ===== src/Streaming/Oauth.antt =====
-- The streams of a track by the token of a session, streaming/src/stream/oauth.rs. What a request and a
-- download come to are parameters.
pub mod Taken
use sc_desktop_beautiful.Prelude.{
  Bool, List, Option, [], false, if◌then◌else◌, leb, ltb, none, some, true, ℕ, ◌&&◌, ◌==◌, ◌∷◌,
}
use sc_desktop_beautiful.Prelude.Text.{codes, contains}

pub record ScStreams : Type 0 where
  pub hls_aac_160_url : Option (List ℕ)
  pub http_mp3_128_url : Option (List ℕ)
  pub hls_mp3_128_url : Option (List ℕ)

pub data FetchOutcome : Type 0 where
  fetched : ScStreams → FetchOutcome
  retryable : FetchOutcome
  not_found : FetchOutcome

-- The status and the streams in the body, if they can be read, or there is no answer in time.
pub data Got : Type 0 where
  no_answer : Got
  answered : ℕ → Option ScStreams → Got

unfoldable pub fetch_streams_direct_once : Got → FetchOutcome
fetch_streams_direct_once no_answer = retryable
fetch_streams_direct_once (answered status body) =
    if leb 200 status && ltb status 300
    then elim body [ none ↦ retryable | some s ↦ fetched s ]
    else if status == 404
    then not_found
    else retryable

-- What the requests come to: with a token directly, and by the proxy. `sessions` are the tokens of
-- other sessions, unless the table fails, and `count` how many are asked for.
pub record Requests : Type 0 where
  pub proxy_fallback : Bool
  pub has_proxy : Bool
  pub count : ℕ
  pub get : List ℕ → Got
  pub sessions : Option (List (List ℕ))
  pub by_proxy : Option ScStreams

abbrev pub direct_with : Requests → List ℕ → FetchOutcome
direct_with r token = fetch_streams_direct_once (r.get token)

-- `falls` is what is done when all tokens were tried.
unfoldable pub by_tokens :
    (List ℕ → FetchOutcome) → Option ScStreams → List (List ℕ) → Option ScStreams
by_tokens direct falls [] = falls
by_tokens direct falls (token ∷ tokens) =
    let rest = by_tokens direct falls tokens in
    elim (direct token) [ fetched s ↦ some s | not_found ↦ none | retryable ↦ rest ]

unfoldable pub by_sessions : Requests → Option ScStreams
by_sessions r =
    if ltb 0 r.count
    then elim r.sessions [
      | none ↦ r.by_proxy
      | some tokens ↦ by_tokens (direct_with r) r.by_proxy tokens
    ]
    else r.by_proxy

unfoldable pub get_streams : Requests → List ℕ → Option ScStreams
get_streams r access_token =
    if r.proxy_fallback && r.has_proxy
    then elim (direct_with r access_token) [
      | fetched s ↦ some s
      | not_found ↦ none
      | retryable ↦ by_sessions r
    ]
    else r.by_proxy

-- An address, whether it is a playlist, and the type.
abbrev pub Candidate : Type 0
Candidate = List ℕ × Bool × List ℕ

-- The two filters.
unfoldable pub offered : Option (List ℕ) → Bool → List ℕ → List Candidate → List Candidate
offered none hls mime more = more
offered (some url) hls mime more =
    if contains url (codes "preview") then more else (url, hls, mime) ∷ more

abbrev pub aac : List ℕ
aac = codes "audio/mp4; codecs=\"mp4a.40.2\""

abbrev pub mpeg : List ℕ
mpeg = codes "audio/mpeg"

unfoldable pub candidates : Bool → ScStreams → List Candidate
candidates true s = offered s.hls_aac_160_url true aac []
candidates false s =
    offered s.hls_aac_160_url true aac
      (offered s.http_mp3_128_url false mpeg (offered s.hls_mp3_128_url true mpeg []))

-- What a download comes to, directly or not: the bytes and their type.
abbrev pub Download : Type 0
Download = Candidate → Bool → Option (List ℕ × List ℕ)

unfoldable pub try_format : Bool → Download → Candidate → Option (List ℕ × List ℕ)
try_format proxy_fallback download c =
    if proxy_fallback
    then elim (download c true) [ some r ↦ some r | none ↦ download c false ]
    else download c false

unfoldable pub try_formats : Bool → Download → List Candidate → Option (List ℕ × List ℕ)
try_formats proxy_fallback download [] = none
try_formats proxy_fallback download (c ∷ cs) =
    let rest = try_formats proxy_fallback download cs in
    elim (try_format proxy_fallback download c) [ some r ↦ some r | none ↦ rest ]

unfoldable pub try_oauth_stream : Requests → Download → List ℕ → Bool → Option (List ℕ × List ℕ)
try_oauth_stream r download access_token hq_only = elim (get_streams r access_token) [
  | none ↦ none
  | some s ↦ try_formats r.proxy_fallback download (candidates hq_only s)
]
