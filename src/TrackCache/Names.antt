-- ===== src/TrackCache/Names.antt =====
-- The names of cached files, desktop/src-tauri/src/track_cache/state.rs. A name is the list of its
-- characters.
pub mod Urns
use sc_desktop_beautiful.Prelude.{List, Option, [], if◌then◌else◌, none, some, ℕ, ◌++◌, ◌==◌, ◌∷◌}
use sc_desktop_beautiful.Prelude.Text.{codes, text_eq}

pub data PlaybackQuality : Type 0 where
  hq sq : PlaybackQuality

-- `s.replace(from, to)` for single characters.
unfoldable pub replace : ℕ → ℕ → List ℕ → List ℕ
replace from to [] = []
replace from to (c ∷ cs) = (if c == from then to else c) ∷ replace from to cs

-- `s.strip_suffix(suffix)`
unfoldable pub strip_suffix : List ℕ → List ℕ → Option (List ℕ)
strip_suffix [] suffix = if text_eq [] suffix then some [] else none
strip_suffix (c ∷ cs) suffix =
    let rest = strip_suffix cs suffix in
    if text_eq (c ∷ cs) suffix
    then some []
    else elim rest [ none ↦ none | some front ↦ some (c ∷ front) ]

unfoldable pub urn_to_filename : List ℕ → List ℕ
urn_to_filename urn = replace 58 95 urn ++ codes ".audio"

unfoldable pub urn_to_hq_filename : List ℕ → List ℕ
urn_to_hq_filename urn = replace 58 95 urn ++ codes ".hq.audio"

unfoldable pub filename_to_urn : List ℕ → Option (List ℕ)
filename_to_urn filename = elim (strip_suffix filename (codes ".hq.audio")) [
  | some base ↦ some (replace 95 58 base)
  | none ↦ elim (strip_suffix filename (codes ".audio")) [
    | some base ↦ some (replace 95 58 base)
    | none ↦ none
  ]
]

unfoldable pub cache_filename : List ℕ → PlaybackQuality → List ℕ
cache_filename urn hq = urn_to_hq_filename urn
cache_filename urn sq = urn_to_filename urn

unfoldable pub cache_metadata_path : List ℕ → List ℕ
cache_metadata_path path = path ++ codes ".meta.json"

-- `nonce` is the time in nanoseconds, in digits.
unfoldable pub temp_file_path : List ℕ → List ℕ → PlaybackQuality → List ℕ
temp_file_path nonce urn quality =
    cache_filename urn quality ++ (codes "." ++ (nonce ++ codes ".part"))
