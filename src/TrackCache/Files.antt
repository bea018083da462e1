-- ===== src/TrackCache/Files.antt =====
-- The two directories of the cache and what looks tracks up, moves and removes them, in
-- desktop/src-tauri/src/track_cache/state.rs.
pub mod Lookup
use sc_desktop_beautiful.Prelude.{
  Bool, List, Option, [], false, if◌then◌else◌, none, not, some, true, ℕ, ◌&&◌, ◌||◌, ◌∷◌,
}
use sc_desktop_beautiful.TrackCache.Names.{cache_metadata_path, urn_to_filename, urn_to_hq_filename}
use sc_desktop_beautiful.TrackCache.Disk.{File, find_file, has_audio, remove_file, write_file}

pub record Cache : Type 0 where
  pub audio_dir : List File
  pub liked_dir : List File

pub data Place : Type 0 where
  in_audio in_liked : Place

unfoldable pub files_in : Place → Cache → List File
files_in in_audio c = c.audio_dir
files_in in_liked c = c.liked_dir

unfoldable pub put_files : Place → List File → Cache → Cache
put_files in_audio fs c = record c { audio_dir = fs }
put_files in_liked fs c = record c { liked_dir = fs }

-- The four paths of a track, in the order in which they are looked up.
unfoldable pub candidates : List ℕ → List (Place × List ℕ)
candidates urn =
    (in_liked, urn_to_hq_filename urn)
    ∷ (in_liked, urn_to_filename urn)
    ∷ (in_audio, urn_to_hq_filename urn)
    ∷ (in_audio, urn_to_filename urn)
    ∷ []

unfoldable pub first_audio : Cache → List (Place × List ℕ) → Option (Place × List ℕ)
first_audio c [] = none
first_audio c ((place, name) ∷ rest) =
    if has_audio name (files_in place c) then some (place, name) else first_audio c rest

unfoldable pub resolve_path : Cache → List ℕ → Option (Place × List ℕ)
resolve_path c urn = first_audio c (candidates urn)

unfoldable pub is_cached : Cache → List ℕ → Bool
is_cached c urn = elim (resolve_path c urn) [ none ↦ false | some p ↦ true ]

unfoldable pub is_file : List ℕ → List File → Bool
is_file name fs = elim (find_file name fs) [ none ↦ false | some f ↦ true ]

-- The loop of `remove_cached`; `works` tells which files can be removed.
unfoldable pub remove_paths :
    (Place → List ℕ → Bool) → List (Place × List ℕ) → Cache → Bool → Cache × Bool
remove_paths works [] c removed = (c, removed)
remove_paths works ((place, name) ∷ rest) c removed =
    let drop_if = λ (n : List ℕ) (fs : List File). if works place n then remove_file n fs else fs in
    let fs = drop_if (cache_metadata_path name) (drop_if name (files_in place c)) in
    if is_file name (files_in place c)
    then remove_paths works rest (put_files place fs c) (removed || works place name)
    else remove_paths works rest c removed

unfoldable pub remove_cached : (Place → List ℕ → Bool) → List ℕ → Cache → Cache × Bool
remove_cached works urn c = remove_paths works (candidates urn) c false

-- What the calls of the file system answer to a promotion.
pub record Move : Type 0 where
  pub renamed : Bool
  pub meta_renamed : Bool
  pub read : Bool
  pub written : Bool
  pub meta_read : Bool
  pub meta_written : Bool
  pub meta_removed : Bool
  pub removed : Bool
  pub left : List ℕ

-- A copy of one file to the other directory, if it is there.
unfoldable pub copy_file : List ℕ → List File → List File → List File
copy_file name from to = elim (find_file name from) [
  | none ↦ to
  | some f ↦ write_file name f.content to
]

unfoldable pub liked_has_file : List ℕ → Cache → Bool
liked_has_file urn c = has_audio (urn_to_filename urn) c.liked_dir

-- `rename` from one directory to the other.
unfoldable pub move_file : List ℕ → Cache → Cache
move_file name c = record {
  audio_dir = remove_file name c.audio_dir;
  liked_dir = copy_file name c.audio_dir c.liked_dir;
}

-- The way over a copy, when the rename does not work.
unfoldable pub copy_to_liked : Move → List ℕ → Cache → Cache × Bool
copy_to_liked m name c =
    let meta = cache_metadata_path name in
    if not m.read
    then (c, false)
    else if not m.written
    then (record c { liked_dir = write_file name m.left c.liked_dir }, false)
    else let copied : Cache = record c { liked_dir = copy_file name c.audio_dir c.liked_dir } in
      let with_meta : Cache =
        if m.meta_read && is_file meta c.audio_dir
        then record {
          audio_dir = if m.meta_removed then remove_file meta c.audio_dir else c.audio_dir;
          liked_dir =
              if m.meta_written
              then copy_file meta c.audio_dir copied.liked_dir
              else write_file meta m.left copied.liked_dir;
        }
        else copied in
      (
        record with_meta {
          audio_dir =
              if m.removed then remove_file name with_meta.audio_dir else with_meta.audio_dir;
        },
        true,
      )

unfoldable pub promote_to_liked : Move → List ℕ → Cache → Cache × Bool
promote_to_liked m urn c =
    let name = urn_to_filename urn in
    if liked_has_file urn c
    then (c, true)
    else if not (has_audio name c.audio_dir)
    then (c, false)
    else if m.renamed
    then (
      (let moved = move_file name c in
          if m.meta_renamed then move_file (cache_metadata_path name) moved else moved),
      true,
    )
    else copy_to_liked m name c
