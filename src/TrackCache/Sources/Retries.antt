-- ===== src/TrackCache/Sources/Retries.antt =====
-- The attempts at one url of the API.
use sc_desktop_beautiful.Prelude.{
  List, [], ap, arith, if-cases, if-false, length, not, refl, subst, suc, sym, take, true, zero, ℕ,
  ◌++◌, ◌+◌, ◌<◌, ◌∙◌, ◌≡◌, ◌≤◌,
}
use sc_desktop_beautiful.Prelude.Outcome.{Reply, got}
use sc_desktop_beautiful.Prelude.Text.{codes}
use mathlib.Core.Bool.{true≢false}
use sc_desktop_beautiful.TrackCache.Names.{PlaybackQuality, cache_filename}
use sc_desktop_beautiful.TrackCache.Audio.{audio_sniff_len, is_valid_audio}
use sc_desktop_beautiful.TrackCache.Disk.{File, has_audio}
use sc_desktop_beautiful.TrackCache.Write.{
  Chunk, DownloadError, DownloadSource, Fate, Written, api, commit, failed, retryable, stored,
  write_response_to_cache,
}
use sc_desktop_beautiful.TrackCache.Write.Writers.{IsComplete, body_of_stream, streamed_lem}
use sc_desktop_beautiful.TrackCache.Sources.{
  Answer, Site, download_api, download_api_with_retries, or_else, quality_from_url, refusal,
  retries, retry_loop, success, unreachable,
}

-- An answer after which the next attempt is made.
abbrev pub IsRefused : Answer → Type 0
IsRefused (success stream) = ⊥
IsRefused (refusal status text) = Unit
IsRefused (unreachable text) = Unit

-- A body that ends and is audio, and a file system that takes it.
pub record IsTaken (stream : List Chunk) (fate : Fate) : Type 0 where
  pub complete : IsComplete stream
  pub valid :
      is_valid_audio (take audio_sniff_len (body_of_stream stream)) (length (body_of_stream stream))
      ≡ true
  pub created : fate.created ≡ true
  pub flushed : fate.flushed ≡ true
  pub renamed : fate.renamed ≡ true

module _ (to_json : PlaybackQuality → DownloadSource → List ℕ) (urn : List ℕ) where
  commit-stored :
      (fate : Fate) (name temp : List ℕ) (quality : PlaybackQuality) (source : DownloadSource)
      (fs : List File)
      → fate.renamed ≡ true
      → (commit to_json fate name temp quality source fs).1 ≡ stored name
  unfolding commit
  commit-stored fate name temp quality source fs r =
      let P = λ (out : List File × Written). out.1 ≡ stored name in
      if-cases P (has_audio name fs) _ _ (λ _. refl)
        λ _. if-cases P fate.renamed _ _ (λ _. refl) λ e. absurd (true≢false (sym r ∙ e))

  write_response-stored :
      (site : Site) (quality : PlaybackQuality) (stream : List Chunk) (fs : List File)
      → IsTaken stream site.fate
      → (write_response_to_cache to_json site.fate site.nonce urn quality api stream fs).1
        ≡ stored (cache_filename urn quality)
  write_response-stored site quality stream fs t =
      ap (λ (out : List File × Written). out.1)
        (streamed_lem to_json site.fate site.nonce urn quality api stream fs t.complete t.created
            t.flushed
          ∙ if-false _ _ _ (ap not t.valid))
      ∙ commit-stored site.fate (cache_filename urn quality) _ quality api _ t.renamed

  or_else-stored :
      {A : Type 0} (out : List File × Written) (path : List ℕ) (done : List File → List ℕ → A)
      (next : List File → DownloadError → A)
      → out.1 ≡ stored path
      → or_else to_json urn out done next ≡ done out.0 path
  unfolding or_else
  or_else-stored (fs, stored p) path done next e =
      ap (done fs) (ap (λ w. elim w [ stored q ↦ q | failed err ↦ path ]) e)
  or_else-stored (fs, failed err) path done next e = cc

  refused_lem :
      (a : Answer) (site : Site) (fs : List File)
      → IsRefused a
      → (e : List ℕ) × (download_api to_json urn a site fs ≡ (fs, failed (retryable e)))
  unfolding download_api
  refused_lem (success stream) site fs h = absurd h
  refused_lem (refusal status text) site fs h = (text, refl)
  refused_lem (unreachable text) site fs h = (codes "request: " ++ text, refl)

  retry_loop-refused :
      (get : ℕ → Answer) (site : Site) (left attempt : ℕ) (last_err e : List ℕ) (fs : List File)
      → download_api to_json urn (get attempt) site fs ≡ (fs, failed (retryable e))
      → retry_loop to_json urn get site (suc left) attempt last_err fs
        ≡ retry_loop to_json urn get site left (attempt + 1) e fs
  unfolding retry_loop or_else
  retry_loop-refused get site left attempt last_err e fs eq = rw eq refl

  retry_loop-got :
      (get : ℕ → Answer) (site : Site) (stream : List Chunk)
      → IsTaken stream site.fate
      → (k left attempt : ℕ) (last_err : List ℕ) (fs : List File) → k < left
      → ((j : ℕ) → j < k → IsRefused (get (attempt + j)))
      → get (attempt + k) ≡ success stream
      → (retry_loop to_json urn get site left attempt last_err fs).1
        ≡ got (cache_filename urn (quality_from_url site))
  unfolding retry_loop
  retry_loop-got get site stream t k zero attempt last_err fs h before now = absurd (omega arith)
  retry_loop-got get site stream t zero (suc left) attempt last_err fs h before now =
      let here : get attempt ≡ success stream = ap get (omega arith) ∙ now in
      ap (λ (out : List File × Reply (List ℕ)). out.1)
        (or_else-stored (download_api to_json urn (get attempt) site fs)
          (cache_filename urn (quality_from_url site)) _ _
          (ap (λ a. (download_api to_json urn a site fs).1) here
            ∙ (unfold download_api in
                write_response-stored site (quality_from_url site) stream fs t)))
  retry_loop-got get site stream t (suc k) (suc left) attempt last_err fs h before now =
      let here : IsRefused (get attempt) =
        subst (λ n. IsRefused (get n)) (omega arith) (before 0 (omega arith)) in
      let (e, eq) = refused_lem (get attempt) site fs here in
      ap (λ (out : List File × Reply (List ℕ)). out.1)
        (retry_loop-refused get site left attempt last_err e fs eq)
      ∙ retry_loop-got get site stream t k left (attempt + 1) e fs (omega arith)
          (λ j less. subst (λ n. IsRefused (get n)) (omega arith) (before (suc j) (omega arith)))
          (ap get (omega arith) ∙ now)

  -- When one of the four attempts brings a body that ends, is audio and can be stored, and those
  -- before it are refused or fail, the track is stored under its name.
  download_api_with_retries-got :
      (get : ℕ → Answer) (site : Site) (stream : List Chunk) (k : ℕ) (fs : List File)
      → IsTaken stream site.fate
      → k ≤ retries
      → ((j : ℕ) → j < k → IsRefused (get j))
      → get k ≡ success stream
      → (download_api_with_retries to_json urn get site fs).1
        ≡ got (cache_filename urn (quality_from_url site))
  unfolding download_api_with_retries
  download_api_with_retries-got get site stream k fs t h before now =
      retry_loop-got get site stream t k (retries + 1) 0 [] fs (omega arith)
        (λ j less. subst (λ n. IsRefused (get n)) (omega arith) (before j less))
        (ap get (omega arith) ∙ now)
