-- ===== src/Streaming/Handler.antt =====
-- The request for a track, streaming/src/stream/handler.rs: who may have what, and the sources that are
-- asked for it, one after the other. The sources are parameters; `Oauth` and `CookiesPool` are about
-- what is behind two of them.
pub mod Answers
pub mod Free
pub mod Gate
use sc_desktop_beautiful.Prelude.{
  Bool, List, Option, [], false, if◌then◌else◌, length, ltb, none, some, true, ℕ, ◌&&◌, ◌++◌, ◌∷◌,
  not,
}
use sc_desktop_beautiful.Prelude.Text.{codes, contains, text_eq}
use sc_desktop_beautiful.Streaming.Breaker.{Storage, StorageClient, try_serve, upload_in_background}

pub data AppError : Type 0 where
  not_found : AppError
  unauthorized : AppError
  forbidden : AppError
  no_stream : AppError
  internal : List ℕ → AppError

-- A body is sent whole, or in chunks; a chunk may be an error, and the body ends there.
pub data Response : Type 0 where
  redirect : List ℕ → Response
  whole : List ℕ → List ℕ → Response
  streamed : List ℕ → List (Option (List ℕ)) → Response

-- `Result<Response, AppError>`
pub data Reply : Type 0 where
  good : Response → Reply
  refused : AppError → Reply

pub record SessionInfo : Type 0 where
  pub access_token : List ℕ
  pub soundcloud_user_id : Option (List ℕ)

-- The header has a value that can be read, or not.
pub data Header : Type 0 where
  absent : Header
  unreadable : Header
  value : List ℕ → Header

pub record StreamQuery : Type 0 where
  pub hq : Option (List ℕ)
  pub session_id : Option (List ℕ)

-- What a client says: `Result<Option<A>, BoxErr>`
pub data Said (A : Type 0) : Type 0 where
  found : A → Said A
  nothing : Said A
  failed : Said A

-- The bytes and their type.
abbrev pub Found : Type 0
Found = List ℕ × List ℕ

-- A manifest with its token, and the type.
abbrev pub RestrictedSource : Type 0
RestrictedSource = List ℕ × List ℕ

-- The clients of the service. Two of them may not be set up, and so may the decryption.
pub record Clients : Type 0 where
  pub oauth : List ℕ → Bool → Option Found
  pub anon : Said Found
  pub anon_restricted : Bool → Said RestrictedSource
  pub cookies : Option (Bool → Said Found)
  pub cookies_restricted : Bool → Said RestrictedSource
  pub process_stream : Option (List ℕ → Option (List (Option (List ℕ))))

-- The table of sessions and of premium users.
pub record Pg : Type 0 where
  pub get_session : List ℕ → Said SessionInfo
  pub is_premium : List ℕ → Option Bool

pub data Source : Type 0 where
  oauth : Bool → Source
  cookies : Bool → Source
  anon : Source
  restricted : Bool → Source

-- The sources that were asked, and the storage.
pub record World : Type 0 where
  pub asked : List Source
  pub storage : Storage

unfoldable pub extract_session_id : Header → StreamQuery → Option (List ℕ)
extract_session_id (value id) query = some id
extract_session_id unreadable query = none
extract_session_id absent query = query.session_id

unfoldable pub user_urn : List ℕ → List ℕ
user_urn user = if contains user (codes ":") then user else codes "soundcloud:users:" ++ user

unfoldable pub unwrap_or_false : Option Bool → Bool
unwrap_or_false none = false
unwrap_or_false (some b) = b

unfoldable pub check_is_premium : Pg → SessionInfo → Bool
check_is_premium pg session = elim session.soundcloud_user_id [
  | none ↦ false
  | some user ↦ unwrap_or_false (pg.is_premium (user_urn user))
]

unfoldable pub ask : Source → World → World
ask source w = record w { asked = w.asked ++ (source ∷ []) }

unfoldable pub said : {A : Type 0} → Said A → Option A
said (found a) = some a
said nothing = none
said failed = none

unfoldable pub try_oauth : Clients → List ℕ → Bool → World → Option Found × World
try_oauth c access hq_only w = (c.oauth access hq_only, ask (oauth hq_only) w)

-- A client that is not set up is not asked.
unfoldable pub try_cookies : Clients → Bool → World → Option Found × World
try_cookies c hq_only w = elim c.cookies [
  | none ↦ (none, w)
  | some get_stream ↦ (said (get_stream hq_only), ask (cookies hq_only) w)
]

unfoldable pub try_anon : Clients → World → Option Found × World
try_anon c w = (said c.anon, ask anon w)

unfoldable pub restricted_source : Clients → Bool → Option RestrictedSource
restricted_source c hq_first = elim (said (c.anon_restricted hq_first)) [
  | some v ↦ some v
  | none ↦ elim c.cookies [ none ↦ none | some client ↦ said (c.cookies_restricted hq_first) ]
]

-- The chunks up to the first error, and whether the body came to its end.
unfoldable pub received : List (Option (List ℕ)) → List ℕ × Bool
received [] = ([], true)
received (none ∷ chunks) = ([], false)
received (some bytes ∷ chunks) = let rest = received chunks in (bytes ++ rest.0, rest.1)

-- Where the service is: the client of the storage, the time of the answer, and the track.
pub record Site : Type 0 where
  pub client : StorageClient
  pub now : ℕ
  pub track_urn : List ℕ

unfoldable pub kept : Site → List ℕ → World → World
kept site bytes w =
    if ltb 8192 (length bytes)
    then record w {
      storage = upload_in_background site.client site.now site.track_urn bytes w.storage;
    }
    else w

-- What follows the last chunk.
unfoldable pub teed : Site → List (Option (List ℕ)) → World → World
teed site chunks w = let out = received chunks in if out.1 then kept site out.0 w else w

unfoldable pub decoded :
    Site → List ℕ → Option (List (Option (List ℕ))) → World → Option Response × World
decoded site content_type none w = (none, w)
decoded site content_type (some chunks) w =
    (some (streamed content_type chunks), teed site chunks w)

unfoldable pub try_restricted : Site → Clients → Bool → World → Option Response × World
try_restricted site c hq_first w = elim c.process_stream [
  | none ↦ (none, w)
  | some process ↦ elim (restricted_source c hq_first) [
    | none ↦ (none, ask (restricted hq_first) w)
    | some (manifest, content_type) ↦
        decoded site content_type (process manifest) (ask (restricted hq_first) w)
  ]
]

unfoldable pub respond_with_data : Site → Found → World → Reply × World
respond_with_data site (bytes, content_type) w =
    (good (whole content_type bytes), kept site bytes w)

-- `if let Some(r) = … { return respond_with_data(…) }`, and what follows it.
unfoldable pub or_data : Site → Option Found × World → (World → Reply × World) → Reply × World
or_data site (some r, w) next = respond_with_data site r w
or_data site (none, w) next = next w

-- `if let Some(r) = … { return Ok(r) }`, and what follows it.
unfoldable pub or_response : Option Response × World → (World → Reply × World) → Reply × World
or_response (some r, w) next = (good r, w)
or_response (none, w) next = next w

module _ (site : Site) (c : Clients) (access : List ℕ) where
  unfoldable pub last_source : World → Reply × World
  last_source w = or_response (try_restricted site c false w) λ w. (refused no_stream, w)

  unfoldable pub hq_sources : World → Reply × World
  hq_sources w = or_data site (try_oauth c access true w) λ w.
      or_data site (try_cookies c true w) λ w. or_response (try_restricted site c true w) λ w.
        or_data site (try_oauth c access false w)
          λ w. or_data site (try_anon c w) λ w. or_data site (try_cookies c false w) last_source

  unfoldable pub sq_sources : Bool → World → Reply × World
  sq_sources is_premium w = or_data site (try_oauth c access false w) λ w.
      or_data site (try_anon c w)
        λ w. if is_premium then or_data site (try_cookies c false w) last_source else last_source w

  -- After the storage was asked.
  unfoldable pub chosen : Bool → Bool → Option (List ℕ) × Storage → World → Reply × World
  chosen hq is_premium (some cdn_url, s) w = (good (redirect cdn_url), record w { storage = s })
  chosen hq is_premium (none, s) w =
      if hq
      then hq_sources (record w { storage = s })
      else sq_sources is_premium (record w { storage = s })

unfoldable pub is_hq : Option (List ℕ) → Bool
is_hq none = false
is_hq (some v) = text_eq v (codes "true")

-- The row of the track in the table, if there is one, and the status of its request, at `asked_at`.
pub record Lookup : Type 0 where
  pub asked_at : ℕ
  pub cached : Option (List ℕ)
  pub head : Option ℕ

module _ (premium_only : Bool) (site : Site) (c : Clients) (pg : Pg) (l : Lookup) where
  unfoldable pub admitted : Bool → SessionInfo → World → Reply × World
  admitted hq session w =
      let is_premium = check_is_premium pg session in
      if premium_only && not is_premium
      then (refused forbidden, w)
      else if hq && not is_premium
      then (refused forbidden, w)
      else chosen site c session.access_token hq is_premium
          (try_serve site.client l.asked_at l.cached l.head site.track_urn w.storage) w

  unfoldable pub stream_inner : Header → StreamQuery → World → Reply × World
  stream_inner header query w = elim (extract_session_id header query) [
    | none ↦ (refused unauthorized, w)
    | some id ↦ elim (pg.get_session id) [
      | failed ↦ (refused (internal (codes "pg")), w)
      | nothing ↦ (refused unauthorized, w)
      | found session ↦ admitted (is_hq query.hq) session w
    ]
  ]
