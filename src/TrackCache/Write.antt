-- ===== src/TrackCache/Write.antt =====
-- How a download comes into the cache: the two writers of
-- desktop/src-tauri/src/track_cache/state.rs, in one directory. What the calls of the file system
-- answer is a `Fate`; no other task touches the directory meanwhile.
pub mod Stored
pub mod Writers
use sc_desktop_beautiful.Prelude.{
  Bool, List, [], false, if◌then◌else◌, length, min, not, take, true, ℕ, ◌++◌, ◌+◌, ◌∷◌,
}
use sc_desktop_beautiful.Prelude.Text.{codes}
use sc_desktop_beautiful.TrackCache.Names.{
  PlaybackQuality, cache_filename, cache_metadata_path, temp_file_path,
}
use sc_desktop_beautiful.TrackCache.Audio.{audio_sniff_len, is_valid_audio, sniff_more}
use sc_desktop_beautiful.TrackCache.Disk.{File, has_audio, remove_file, rename_file, write_file}

pub data DownloadSource : Type 0 where
  storage anon direct api : DownloadSource

pub data DownloadError : Type 0 where
  fatal : List ℕ → DownloadError
  retryable : List ℕ → DownloadError

-- The name of the file that holds the track, or an error.
pub data Written : Type 0 where
  stored : List ℕ → Written
  failed : DownloadError → Written

-- Which calls succeed, what a failed write has left in its file, and the texts of errors.
pub record Fate : Type 0 where
  pub created : Bool
  pub written : Bool
  pub flushed : Bool
  pub cleaned : Bool
  pub renamed : Bool
  pub removed : Bool
  pub renamed_again : Bool
  pub meta_written : Bool
  pub meta_renamed : Bool
  pub left : List ℕ
  pub text : List ℕ
  pub text_again : List ℕ

-- What the stream of a response yields next: a chunk, with whether it is written to the file, or an
-- error.
pub data Chunk : Type 0 where
  piece : List ℕ → Bool → Chunk
  broken : List ℕ → Chunk

-- The body that the file holds after the loop, with the front of it and its length; or an error.
pub data Pulled : Type 0 where
  whole : List ℕ → List ℕ → ℕ → Pulled
  stopped : DownloadError → Pulled

unfoldable pub metadata_temp_path : List ℕ → List ℕ
metadata_temp_path name = cache_metadata_path name ++ codes ".tmp"

-- `to_json` stands for the serializer of the metadata.
module _ (to_json : PlaybackQuality → DownloadSource → List ℕ) (fate : Fate) where
  unfoldable pub cleanup_temp_file : List ℕ → List File → List File
  cleanup_temp_file path fs = if fate.cleaned then remove_file path fs else fs

  unfoldable pub write_cache_metadata :
      List ℕ → PlaybackQuality → DownloadSource → List File → List File
  write_cache_metadata name quality source fs =
      let temp = metadata_temp_path name in
      let wrote = write_file temp (to_json quality source) fs in
      if fate.meta_written
      then if fate.meta_renamed
        then rename_file temp (cache_metadata_path name) wrote
        else cleanup_temp_file temp wrote
      else cleanup_temp_file temp (write_file temp fate.left fs)

  -- From the test of the final path to the end, the same in both writers.
  unfoldable pub commit :
      List ℕ → List ℕ → PlaybackQuality → DownloadSource → List File → List File × Written
  commit name temp quality source fs =
      if has_audio name fs
      then (cleanup_temp_file temp fs, stored name)
      else if fate.renamed
      then (write_cache_metadata name quality source (rename_file temp name fs), stored name)
      else if has_audio name fs
      then (cleanup_temp_file temp fs, stored name)
      else let cleared = if fate.removed then remove_file name fs else fs in
        if fate.renamed_again
        then (write_cache_metadata name quality source (rename_file temp name cleared), stored name)
        else (
          cleanup_temp_file temp cleared,
          failed (
              fatal
                (codes "Cache rename failed: " ++ (fate.text ++ (codes "; " ++ fate.text_again)))),
        )

  module _ (nonce urn : List ℕ) (quality : PlaybackQuality) (source : DownloadSource) where
    unfoldable pub write_bytes_to_cache : List ℕ → List File → List File × Written
    write_bytes_to_cache bytes fs =
        let temp = temp_file_path nonce urn quality in
        if not (is_valid_audio (take (min audio_sniff_len (length bytes)) bytes) (length bytes))
        then (fs, failed (fatal (codes "Invalid audio data")))
        else if not fate.created
        then (fs, failed (fatal (codes "Cache create failed: " ++ fate.text)))
        else if not fate.written
        then (
          cleanup_temp_file temp (write_file temp fate.left fs),
          failed (fatal (codes "Cache write failed: " ++ fate.text)),
        )
        else if not fate.flushed
        then (
          cleanup_temp_file temp (write_file temp fate.left fs),
          failed (fatal (codes "Cache flush failed: " ++ fate.text)),
        )
        else commit (cache_filename urn quality) temp quality source (write_file temp bytes fs)

    -- The `while` loop over the stream.
    unfoldable pub pull : List Chunk → List ℕ → List ℕ → ℕ → Pulled
    pull [] content sniff total_size = whole content sniff total_size
    pull (broken text ∷ cs) content sniff total_size =
        stopped (retryable (codes "body read: " ++ text))
    pull (piece chunk true ∷ cs) content sniff total_size =
        pull cs (content ++ chunk) (sniff_more sniff chunk) (total_size + length chunk)
    pull (piece chunk false ∷ cs) content sniff total_size =
        stopped (fatal (codes "Cache write failed: " ++ fate.text))

    unfoldable pub finish_response : List File → Pulled → List File × Written
    finish_response fs (stopped err) =
        let temp = temp_file_path nonce urn quality in
        (cleanup_temp_file temp (write_file temp fate.left fs), failed err)
    finish_response fs (whole content sniff total_size) =
        let temp = temp_file_path nonce urn quality in
        if not fate.flushed
        then (
          cleanup_temp_file temp (write_file temp fate.left fs),
          failed (fatal (codes "Cache flush failed: " ++ fate.text)),
        )
        else if not (is_valid_audio sniff total_size)
        then (
          cleanup_temp_file temp (write_file temp content fs),
          failed (fatal (codes "Invalid audio data")),
        )
        else commit (cache_filename urn quality) temp quality source (write_file temp content fs)

    unfoldable pub write_response_to_cache : List Chunk → List File → List File × Written
    write_response_to_cache stream fs =
        if not fate.created
        then (fs, failed (fatal (codes "Cache create failed: " ++ fate.text)))
        else finish_response fs (pull stream [] [] 0)
