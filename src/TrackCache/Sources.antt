-- ===== src/TrackCache/Sources.antt =====
-- Where a track is taken from: the download with its sources, in
-- desktop/src-tauri/src/track_cache/state.rs. An `Answer` is what the network gives to a request.
-- A task of a race runs as one step when it finishes; one that is dropped leaves nothing.
pub mod Safe
pub mod Retries
use sc_desktop_beautiful.Prelude.{
  Bool, List, Option, [], false, if◌then◌else◌, leb, length, map, none, not, some, suc, true, zero,
  ℕ, ◌&&◌, ◌++◌, ◌+◌, ◌-◌, ◌==◌, ◌||◌, ◌∷◌,
}
use sc_desktop_beautiful.Prelude.Outcome.{Reply, fault, got}
use sc_desktop_beautiful.Prelude.Text.{codes, starts_with, text_eq}
use sc_desktop_beautiful.TrackCache.Names.{PlaybackQuality, hq, sq}
use sc_desktop_beautiful.TrackCache.Disk.{File}
use sc_desktop_beautiful.TrackCache.Write.{
  Chunk, DownloadError, DownloadSource, Fate, Written, anon, api, direct, failed, fatal, retryable,
  storage, stored, write_bytes_to_cache, write_response_to_cache,
}

abbrev pub storage_cooldown_secs : ℕ
storage_cooldown_secs = 60

-- `RETRY_DELAYS_MS.len()`
abbrev pub retries : ℕ
retries = 3

-- A success with its body, any other status with the text of its error, or a request that fails.
pub data Answer : Type 0 where
  success : List Chunk → Answer
  refusal : ℕ → List ℕ → Answer
  unreachable : List ℕ → Answer

pub data AnonAnswer : Type 0 where
  audio : List ℕ → AnonAnswer
  no_transcoding : AnonAnswer
  anon_failed : List ℕ → AnonAnswer

-- What a parser of urls tells of one, and what the calls of the system answer while it is fetched.
pub record Site : Type 0 where
  pub url : List ℕ
  pub host : Option (List ℕ)
  pub path : Option (List ℕ)
  pub query : Option (List (List ℕ × List ℕ))
  pub nonce : List ℕ
  pub fate : Fate

-- The map of hosts to the times of their last failure.
abbrev pub Cooldowns : Type 0
Cooldowns = List (List ℕ × ℕ)

unfoldable pub failed_at : List ℕ → Cooldowns → Option ℕ
failed_at host [] = none
failed_at host ((h, t) ∷ rest) = if text_eq h host then some t else failed_at host rest

unfoldable pub mark_storage_host_ok : List ℕ → Cooldowns → Cooldowns
mark_storage_host_ok host [] = []
mark_storage_host_ok host ((h, t) ∷ rest) =
    let others = mark_storage_host_ok host rest in
    if text_eq h host then others else (h, t) ∷ others

unfoldable pub mark_storage_host_failed : ℕ → List ℕ → Cooldowns → Cooldowns
mark_storage_host_failed now host map = (host, now) ∷ mark_storage_host_ok host map

unfoldable pub storage_host_available : ℕ → List ℕ → Cooldowns → Bool
storage_host_available now host map = elim (failed_at host map) [
  | none ↦ true
  | some t ↦ leb storage_cooldown_secs (now - t)
]

-- `trim_start_matches('/')`
unfoldable pub trim_slashes : List ℕ → List ℕ
trim_slashes [] = []
trim_slashes (c ∷ cs) = if c == 47 then trim_slashes cs else c ∷ cs

-- The path that is asked for a redirect, if there is one.
unfoldable pub make_redirect_path : Site → Option (List ℕ)
make_redirect_path site = elim site.path [
  | none ↦ none
  | some path ↦
      let rest = trim_slashes path in
      if leb (length rest) 0 || starts_with rest (codes "redirect/")
      then none
      else some (codes "redirect/" ++ rest)
]

unfoldable pub any_hq : List (List ℕ × List ℕ) → Bool
any_hq [] = false
any_hq ((key, value) ∷ rest) =
    text_eq key (codes "hq") && text_eq value (codes "true") || any_hq rest

unfoldable pub quality_from_url : Site → PlaybackQuality
quality_from_url site = elim site.query [ none ↦ sq | some pairs ↦ if any_hq pairs then hq else sq ]

-- `sort_by_key`, which is stable: the hosts that are available come first.
unfoldable pub is_healthy : ℕ → Cooldowns → Site → Bool
is_healthy now cooldowns site = elim site.host [
  | none ↦ true
  | some h ↦ storage_host_available now h cooldowns
]

unfoldable pub keep_sites : (Site → Bool) → List Site → List Site
keep_sites p [] = []
keep_sites p (s ∷ ss) = let rest = keep_sites p ss in if p s then s ∷ rest else rest

unfoldable pub sort_sites : ℕ → Cooldowns → List Site → List Site
sort_sites now cooldowns sites =
    keep_sites (is_healthy now cooldowns) sites
    ++ keep_sites (λ s. not (is_healthy now cooldowns s)) sites

unfoldable pub error_text : DownloadError → List ℕ
error_text (fatal e) = e
error_text (retryable e) = e

unfoldable pub is_gone : ℕ → Bool
is_gone status = status == 404 || status == 410

-- What the network gives during one download, and which task of the race finishes first.
pub record Net : Type 0 where
  pub redirects : Site → List ℕ → Answer
  pub streams : Site → Answer
  pub anonymous : AnonAnswer
  pub anon_nonce : List ℕ
  pub anon_fate : Fate
  pub direct_found : Option (List ℕ × PlaybackQuality)
  pub direct_nonce : List ℕ
  pub direct_fate : Fate
  pub apis : Site → ℕ → Answer
  pub direct_first : Bool

unfoldable pub is_empty : List Site → Bool
is_empty [] = true
is_empty (s ∷ ss) = false

module _ (to_json : PlaybackQuality → DownloadSource → List ℕ) (urn : List ℕ) where
  -- What follows a write: the track is there, or the next source is tried.
  unfoldable pub or_else :
      {A : Type 0}
      → List File × Written
      → (List File → List ℕ → A)
      → (List File → DownloadError → A)
      → A
  or_else (fs, stored path) done next = done fs path
  or_else (fs, failed err) done next = next fs err

  -- The first loop: the storage hosts are asked for a redirect.
  unfoldable pub redirect_loop :
      (Site → List ℕ → Answer) → List Site → List File → List File × Option (List ℕ)
  redirect_loop get [] fs = (fs, none)
  redirect_loop get (site ∷ sites) fs = elim site.host [
    | none ↦ redirect_loop get sites fs
    | some host ↦ elim (make_redirect_path site) [
      | none ↦ redirect_loop get sites fs
      | some path ↦ elim (get site path) [
        | success stream ↦
            or_else (write_response_to_cache to_json site.fate site.nonce urn hq storage stream fs)
              (λ fs' path. (fs', some path)) (λ fs' err. redirect_loop get sites fs')
        | refusal status text ↦ redirect_loop get sites fs
        | unreachable text ↦ redirect_loop get sites fs
      ]
    ]
  ]

  unfoldable pub try_anon :
      AnonAnswer → List ℕ → Fate → List File → List ℕ → (List File × Option (List ℕ)) × List ℕ
  try_anon (audio bytes) nonce fate fs last_err =
      or_else (write_bytes_to_cache to_json fate nonce urn sq anon bytes fs)
        (λ fs' path. ((fs', some path), last_err)) (λ fs' err. ((fs', none), last_err))
  try_anon no_transcoding nonce fate fs last_err = ((fs, none), last_err)
  try_anon (anon_failed e) nonce fate fs last_err = ((fs, none), codes "anon: " ++ e)

  -- The second loop: the hosts that are not on a cooldown are asked for the track itself.
  unfoldable pub storage_loop :
      (Site → Answer)
      → ℕ
      → List Site
      → List File
      → Cooldowns
      → (List File × Option (List ℕ)) × Cooldowns
  storage_loop get now [] fs cooldowns = ((fs, none), cooldowns)
  storage_loop get now (site ∷ sites) fs cooldowns = elim site.host [
    | none ↦ storage_loop get now sites fs cooldowns
    | some host ↦
        if not (storage_host_available now host cooldowns)
        then storage_loop get now sites fs cooldowns
        else elim (get site) [
          | success stream ↦
              let cooldowns' = mark_storage_host_ok host cooldowns in
              or_else
                (write_response_to_cache to_json site.fate site.nonce urn hq storage stream fs)
                (λ fs' path. ((fs', some path), cooldowns'))
                (λ fs' err. storage_loop get now sites fs' cooldowns')
          | refusal status text ↦
              if is_gone status
              then storage_loop get now sites fs cooldowns
              else storage_loop get now sites fs (mark_storage_host_failed now host cooldowns)
          | unreachable text ↦
              storage_loop get now sites fs (mark_storage_host_failed now host cooldowns)
        ]
  ]

  -- `found` is what `try_download` brings from one of the urls.
  unfoldable pub try_direct :
      List Site
      → Option (List ℕ × PlaybackQuality)
      → List ℕ
      → Fate
      → List File
      → List File × Reply (List ℕ)
  try_direct [] found nonce fate fs = (fs, fault (codes "no download_urls"))
  try_direct (site ∷ sites) none nonce fate fs =
      (fs, fault (codes "direct: no candidate succeeded"))
  try_direct (site ∷ sites) (some (bytes, quality)) nonce fate fs =
      or_else (write_bytes_to_cache to_json fate nonce urn quality direct bytes fs)
        (λ fs' path. (fs', got path)) (λ fs' err. (fs', fault (error_text err)))

  unfoldable pub download_api : Answer → Site → List File → List File × Written
  download_api (success stream) site fs =
      write_response_to_cache to_json site.fate site.nonce urn (quality_from_url site) api stream fs
  download_api (refusal status text) site fs = (fs, failed (retryable text))
  download_api (unreachable text) site fs = (fs, failed (retryable (codes "request: " ++ text)))

  -- The `for` loop over the attempts, with `left` of them to go.
  unfoldable pub retry_loop :
      (ℕ → Answer) → Site → ℕ → ℕ → List ℕ → List File → List File × Reply (List ℕ)
  retry_loop get site zero attempt last_err fs = (fs, fault last_err)
  retry_loop get site (suc left) attempt last_err fs =
      or_else (download_api (get attempt) site fs) (λ fs' path. (fs', got path))
        (λ fs' err. elim err [
          | fatal e ↦ (fs', fault e)
          | retryable e ↦ retry_loop get site left (attempt + 1) e fs'
        ])

  unfoldable pub download_api_with_retries :
      (ℕ → Answer) → Site → List File → List File × Reply (List ℕ)
  download_api_with_retries get site fs = retry_loop get site (retries + 1) 0 [] fs

  -- The urls in the order in which their tasks finish.
  unfoldable pub api_loop :
      (Site → ℕ → Answer) → List Site → List ℕ → List File → List File × Reply (List ℕ)
  api_loop get [] last_err fs = (fs, fault last_err)
  api_loop get (site ∷ sites) last_err fs =
      let (fs', reply) = download_api_with_retries (get site) site fs in
      elim reply [ got path ↦ (fs', got path) | fault err ↦ api_loop get sites err fs' ]

  unfoldable pub try_api : (Site → ℕ → Answer) → List Site → List File → List File × Reply (List ℕ)
  try_api get [] fs = (fs, fault (codes "no /stream URLs"))
  try_api get (site ∷ sites) fs = api_loop get (site ∷ sites) (codes "api: all URLs failed") fs

  -- What follows the first error of a race, with how the two errors are joined.
  unfoldable pub second :
      List File × Reply (List ℕ)
      → (List File → List File × Reply (List ℕ))
      → (List ℕ → List ℕ → List ℕ)
      → List File × Reply (List ℕ)
  second (fs, got path) other join = (fs, got path)
  second (fs, fault e) other join =
      let (fs', reply) = other fs in
      elim reply [ got path ↦ (fs', got path) | fault e' ↦ (fs', fault (join e e')) ]

  unfoldable pub both_errors : List ℕ → List ℕ → List ℕ
  both_errors direct_err api_err =
      (codes "direct: " ++ direct_err) ++ (codes "; " ++ (codes "api: " ++ api_err))

  -- `direct_first` tells which of the two finishes first.
  unfoldable pub race_direct_and_api :
      Bool
      → (List File → List File × Reply (List ℕ))
      → (List File → List File × Reply (List ℕ))
      → List File
      → List File × Reply (List ℕ)
  race_direct_and_api true try_d try_a fs = second (try_d fs) try_a both_errors
  race_direct_and_api false try_d try_a fs = second (try_a fs) try_d (λ a d. both_errors d a)

  -- What follows a source: its track, or the next source.
  unfoldable pub unless_found :
      List File × Option (List ℕ)
      → Cooldowns
      → (List File → (List File × Cooldowns) × Reply (List ℕ))
      → (List File × Cooldowns) × Reply (List ℕ)
  unless_found (fs, some path) cooldowns next = ((fs, cooldowns), got path)
  unless_found (fs, none) cooldowns next = next fs

  -- The last source, where there are urls for it.
  unfoldable pub last_source :
      Net
      → List Site
      → List Site
      → List ℕ
      → Cooldowns
      → List File
      → (List File × Cooldowns) × Reply (List ℕ)
  last_source net urls download_urls last_err cooldowns fs =
      if not (is_empty download_urls) || not (is_empty urls)
      then (let (fs', reply) =
            race_direct_and_api net.direct_first
              (try_direct download_urls net.direct_found net.direct_nonce net.direct_fate)
              (try_api net.apis urls) fs in
          ((fs', cooldowns), reply))
      else ((fs, cooldowns), fault last_err)

  unfoldable pub download_with_fallback :
      Net
      → ℕ
      → List Site
      → List Site
      → List Site
      → Cooldowns
      → List File
      → (List File × Cooldowns) × Reply (List ℕ)
  download_with_fallback net now urls download_urls storage_urls cooldowns fs =
      let sorted = sort_sites now cooldowns storage_urls in
      unless_found (redirect_loop net.redirects sorted fs) cooldowns λ fs1.
        let (found, last_err) =
          try_anon net.anonymous net.anon_nonce net.anon_fate fs1
            (codes "no stream URLs provided") in
        unless_found found cooldowns λ fs2.
          let (found', cooldowns') = storage_loop net.streams now sorted fs2 cooldowns in
          unless_found found' cooldowns' (last_source net urls download_urls last_err cooldowns')
