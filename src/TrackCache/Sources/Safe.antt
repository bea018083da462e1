-- ===== src/TrackCache/Sources/Safe.antt =====
-- A download through all its sources.
use sc_desktop_beautiful.Prelude.{List, Option, none, some, true, ℕ, ◌≡◌, ◌≢◌}
use sc_desktop_beautiful.Prelude.Outcome.{Reply, fault, got}
use sc_desktop_beautiful.TrackCache.Names.{
  PlaybackQuality, cache_filename, cache_metadata_path, temp_file_path,
}
use sc_desktop_beautiful.TrackCache.Disk.{File, find_file, has_audio}
use sc_desktop_beautiful.TrackCache.Write.{DownloadSource, metadata_temp_path}
use sc_desktop_beautiful.TrackCache.Sources.{Cooldowns}

abbrev pub path_of : Reply (List ℕ) → Option (List ℕ)
path_of (got path) = some path
path_of (fault e) = none

module _ (to_json : PlaybackQuality → DownloadSource → List ℕ) (urn : List ℕ) where
  -- A name that no writer uses for a temporary file or for metadata of this track.
  abbrev pub Apart : List ℕ → Type 0
  Apart other =
      (quality : PlaybackQuality) (nonce : List ℕ)
      → (temp_file_path nonce urn quality ≢ other)
        × ((cache_metadata_path (cache_filename urn quality) ≢ other)
            × (metadata_temp_path (cache_filename urn quality) ≢ other))

  -- Every cached track under such a name is as it was.
  abbrev pub Kept : List File → List File → Type 0
  Kept fs gs =
      (other : List ℕ)
      → Apart other
      → has_audio other fs ≡ true
      → find_file other gs ≡ find_file other fs

  -- The path names this track in one of the two qualities, and the file is there.
  abbrev pub IsTrack : List File → List ℕ → Type 0
  IsTrack fs path =
      (quality : PlaybackQuality) × (path ≡ cache_filename urn quality) × (has_audio path fs ≡ true)

  abbrev pub Found : List File → List File × Option (List ℕ) → Type 0
  Found fs (gs, none) = Kept fs gs
  Found fs (gs, some path) = Kept fs gs × IsTrack gs path

  abbrev pub Replied : List File → List File × Reply (List ℕ) → Type 0
  Replied fs out = Found fs (out.0, path_of out.1)

  -- The directory and the answer of a whole download.
  abbrev pub Delivered : List File → (List File × Cooldowns) × Reply (List ℕ) → Type 0
  Delivered fs out = Found fs (out.0.0, path_of out.1)
