-- ===== src/TrackCache/Evict.antt =====
-- The limit on the size of the cache, `enforce_limit` of desktop/src-tauri/src/track_cache/state.rs,
-- on the directory of tracks that are not liked. The limit in bytes is taken to fit into 64 bits.
pub mod Sizes
pub mod Limit
use sc_desktop_beautiful.Prelude.{
  Bool, List, [], false, if◌then◌else◌, leb, length, none, not, some, ℕ, ◌*◌, ◌+◌, ◌==◌, ◌∷◌,
}
use sc_desktop_beautiful.Prelude.Outcome.{Outcome, ok, sub, ◌>>=◌}
use sc_desktop_beautiful.Prelude.Text.{codes}
use sc_desktop_beautiful.TrackCache.Names.{cache_metadata_path, strip_suffix}
use sc_desktop_beautiful.TrackCache.Disk.{File, remove_file}

-- `path.extension() == Some("audio")`, for the name of a file.
unfoldable pub is_audio_cache_file : List ℕ → Bool
is_audio_cache_file name = elim (strip_suffix name (codes ".audio")) [
  | none ↦ false
  | some stem ↦ not (leb (length stem) 0)
]

unfoldable pub dir_size : List File → ℕ
dir_size [] = 0
dir_size (f ∷ fs) =
    if is_audio_cache_file f.name then length f.content + dir_size fs else dir_size fs

unfoldable pub audio_files : List File → List File
audio_files [] = []
audio_files (f ∷ fs) =
    let rest = audio_files fs in if is_audio_cache_file f.name then f ∷ rest else rest

-- `accessed` is when a file was last read.
module _ (accessed : List ℕ → ℕ) where
  -- `sort_by`, which is stable: the oldest first.
  unfoldable pub insert_file : File → List File → List File
  insert_file f [] = f ∷ []
  insert_file f (g ∷ gs) =
      let rest = insert_file f gs in
      if leb (accessed f.name) (accessed g.name) then f ∷ g ∷ gs else g ∷ rest

  unfoldable pub sort_files : List File → List File
  sort_files [] = []
  sort_files (f ∷ fs) = insert_file f (sort_files fs)

-- `works` tells which files can be removed.
module _ (accessed : List ℕ → ℕ) (works : List ℕ → Bool) where
  unfoldable pub evict : ℕ → List File → ℕ → List File → Outcome (List File × ℕ)
  evict limit_bytes [] total dir = ok (dir, total)
  evict limit_bytes (f ∷ fs) total dir =
      if leb total limit_bytes
      then ok (dir, total)
      else if works f.name
      then (do
        total' ← sub total (length f.content)
        evict limit_bytes fs total'
            (remove_file (cache_metadata_path f.name) (remove_file f.name dir)))
      else evict limit_bytes fs total dir

  unfoldable pub enforce_limit : ℕ → List File → Outcome (List File × ℕ)
  enforce_limit limit_mb dir =
      if limit_mb == 0
      then ok (dir, dir_size dir)
      else if leb (dir_size dir) (limit_mb * 1024 * 1024)
      then ok (dir, dir_size dir)
      else evict (limit_mb * 1024 * 1024) (sort_files accessed (audio_files dir)) (dir_size dir) dir
