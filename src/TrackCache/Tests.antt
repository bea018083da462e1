-- ===== src/TrackCache/Tests.antt =====
-- Downloads into a small cache.

use sc_desktop_beautiful.TrackCache.Evict.{
  audio_files, dir_size, enforce_limit, evict, insert_file, is_audio_cache_file, sort_files,
}
use sc_desktop_beautiful.TrackCache.Evict.Sizes.{Distinct}
use sc_desktop_beautiful.TrackCache.Evict.Limit.{enforce_limit-Returns}
use sc_desktop_beautiful.TrackCache.Coalesce.{
  waiters_notified, looking, waiting, answered, Flight, started, wake, Step, join, register,
  write_slot, notify_waiters, read_slot, Reached, at_start, and_step,
}
use sc_desktop_beautiful.TrackCache.Coalesce.Answers.{Sound, Reached-Sound, wait_for_ever}
use sc_desktop_beautiful.Prelude.{
  List, [], arith, false, none, refl, some, suc, true, zero, ℕ, ◌<◌, ◌∷◌, ◌≡◌, ◌⊎◌, All,
  if◌then◌else◌, ◌≤◌, ◌*◌,
}
use sc_desktop_beautiful.Prelude.Outcome.{fault, got, Returns, sub, ok}
use sc_desktop_beautiful.Prelude.Text.{codes, starts_with, text_eq}
use sc_desktop_beautiful.TrackCache.Names.{
  PlaybackQuality, cache_filename, hq, replace, strip_suffix, urn_to_filename, urn_to_hq_filename,
  cache_metadata_path,
}
use sc_desktop_beautiful.TrackCache.Audio.{byte_is, is_valid_audio}
use sc_desktop_beautiful.Prelude.Text.{text_differs}
use sc_desktop_beautiful.TrackCache.Disk.{find_file, has_audio, File, remove_file}
use sc_desktop_beautiful.TrackCache.Write.{
  Chunk, DownloadSource, Fate, failed, fatal, piece, storage, write_bytes_to_cache,
  write_response_to_cache,
}
use sc_desktop_beautiful.TrackCache.Write.Writers.{body_of_stream, write_response-write_bytes}
use sc_desktop_beautiful.TrackCache.Sources.{
  Answer, Net, Site, download_with_fallback, failed_at, is_empty, is_healthy, keep_sites,
  last_source, make_redirect_path, mark_storage_host_failed, mark_storage_host_ok, no_transcoding,
  redirect_loop, refusal, sort_sites, storage_host_available, storage_loop, success, trim_slashes,
  try_anon, unless_found, unreachable,
}
use sc_desktop_beautiful.TrackCache.Sources.Retries.{IsRefused, IsTaken}
use sc_desktop_beautiful.TrackCache.Files.{Cache, Move, liked_has_file, promote_to_liked}
use sc_desktop_beautiful.TrackCache.Files.Lookup.{Promoted, promote_to_liked-Promoted}

abbrev urn : List ℕ
urn = codes "soundcloud:tracks:7"

names_run : cache_filename urn hq ≡ codes "soundcloud_tracks_7.hq.audio"
unfolding cache_filename urn_to_hq_filename replace
names_run = refl

abbrev replicate : ℕ → ℕ → List ℕ
replicate zero b = []
replicate (suc n) b = b ∷ replicate n b

-- An MP3 with an ID3 header.
abbrev song : List ℕ
song = 0x49 ∷ 0x44 ∷ 0x33 ∷ replicate 8200 0

abbrev no_json : PlaybackQuality → DownloadSource → List ℕ
no_json quality source = codes "{}"

-- Every call succeeds.
abbrev all_well : Fate
all_well = record {
  created = true;
  written = true;
  flushed = true;
  cleaned = true;
  renamed = true;
  removed = true;
  renamed_again = true;
  meta_written = true;
  meta_renamed = true;
  left = [];
  text = [];
  text_again = [];
}

abbrev stream : List Chunk
stream = piece (0x49 ∷ 0x44 ∷ []) true ∷ piece (0x33 ∷ replicate 8200 0) true ∷ []

write_response-write_bytes_example :
    let streamed = write_response_to_cache no_json all_well (codes "1") urn hq storage stream [] in
    let at_once =
      write_bytes_to_cache no_json all_well (codes "1") urn hq storage (body_of_stream stream) [] in
    (streamed ≡ at_once)
    ⊎ ((streamed.1 ≡ failed (fatal (codes "Invalid audio data")))
        × (at_once.1 ≡ failed (fatal (codes "Invalid audio data"))))
write_response-write_bytes_example =
    write_response-write_bytes no_json all_well (codes "1") urn hq storage stream []
      (refl, (refl, tt)) refl refl refl

abbrev here_site : Site
here_site = record {
  url = codes "https://s/1";
  host = some (codes "s");
  path = some (codes "/1");
  query = none;
  nonce = codes "1";
  fate = all_well;
}

-- Storage and the anonymous client fail, and the API answers at the second attempt.
abbrev late : ℕ → Answer
late zero = refusal 503 (codes "HTTP 503")
late (suc n) = success stream

abbrev slow_net : Net
slow_net = record {
  redirects = λ site path. refusal 404 [];
  streams = λ site. unreachable (codes "timeout");
  anonymous = no_transcoding;
  anon_nonce = codes "1";
  anon_fate = all_well;
  direct_found = none;
  direct_nonce = codes "1";
  direct_fate = all_well;
  apis = λ site. late;
  direct_first = true;
}

-- Without urls a host that fails is put on its cooldown, and the next download passes it over.
unreachable_runs :
    download_with_fallback no_json urn slow_net 100 [] [] (here_site ∷ []) [] []
    ≡ (([], (codes "s", 100) ∷ []), fault (codes "no stream URLs provided"))
unfolding download_with_fallback unless_found redirect_loop try_anon storage_loop last_source
    sort_sites keep_sites is_healthy make_redirect_path trim_slashes starts_with
    storage_host_available failed_at mark_storage_host_failed mark_storage_host_ok is_empty
unreachable_runs = refl

cooldown_runs :
    storage_loop no_json urn
      (λ site. success stream)
      159
      (here_site ∷ [])
      []
      ((codes "s", 100) ∷ [])
    ≡ (([], none), (codes "s", 100) ∷ [])
unfolding storage_loop storage_host_available failed_at text_eq
cooldown_runs = refl

stream-IsTaken : IsTaken stream all_well
unfolding is_valid_audio byte_is
stream-IsTaken = record {
  complete = (refl, (refl, tt));
  valid = refl;
  created = refl;
  flushed = refl;
  renamed = refl;
}

late-before : (j : ℕ) → j < 1 → IsRefused (late j)
late-before zero h = tt
late-before (suc j) h = absurd (omega arith)

-- The rename works, the one of the metadata does not.
abbrev moving : Move
moving = record {
  renamed = true;
  meta_renamed = false;
  read = true;
  written = true;
  meta_read = true;
  meta_written = true;
  meta_removed = true;
  removed = true;
  left = [];
}

abbrev one_song : Cache
one_song = record {
  audio_dir = record { name = codes "soundcloud_tracks_7.audio"; content = song } ∷ [];
  liked_dir = [];
}

abbrev one_hq_song : Cache
one_hq_song = record {
  audio_dir = record { name = codes "soundcloud_tracks_7.hq.audio"; content = song } ∷ [];
  liked_dir = [];
}

promote_runs : (promote_to_liked moving urn one_song).1 ≡ true
unfolding promote_to_liked liked_has_file has_audio find_file urn_to_filename replace text_eq
promote_runs = refl

promote_to_liked-Promoted_example : Promoted urn (promote_to_liked moving urn one_song)
promote_to_liked-Promoted_example = promote_to_liked-Promoted moving urn one_song

-- Two requests join, one of them in time to be woken.
abbrev two_waiters : Flight
two_waiters = record {
  listed = true;
  owner = waiters_notified;
  slot = some (got (codes "p"));
  waiters = looking ∷ answered (some (got (codes "p"))) ∷ [];
}

two_waiters-Reached : Reached started two_waiters
unfolding started wake
two_waiters-Reached =
    and_step
      (and_step
        (and_step
          (and_step (and_step (and_step at_start (join _ refl)) (register _ 0 refl)) (join _ refl))
          (write_slot _ (got (codes "p")) refl))
        (notify_waiters _ refl))
      (read_slot _ 1 refl)

Reached-Sound_example : All (Sound two_waiters.slot) two_waiters.waiters
Reached-Sound_example = Reached-Sound two_waiters two_waiters-Reached

wait_for_ever_example :
    (f : Flight) × Reached started f
    × (f.waiters ≡ waiting ∷ [])
    × (f.slot ≡ some (fault []))
    × ((g : Flight) → ¬ Step f g)
wait_for_ever_example = wait_for_ever (fault [])

-- Two tracks, one of them with metadata.
abbrev songs : List File
songs =
    record { name = codes "a.audio"; content = 1 ∷ 2 ∷ [] }
    ∷ record { name = codes "b.audio"; content = 3 ∷ [] }
    ∷ record { name = codes "b.audio.meta.json"; content = 4 ∷ [] }
    ∷ []

abbrev last_read : List ℕ → ℕ
last_read name = if text_eq name (codes "a.audio") then 9 else 5

-- The track that was read longest ago goes first, with its metadata.
evict_runs :
    evict last_read (λ name. true) 2 (sort_files last_read (audio_files songs)) 3 songs
    ≡ ok (record { name = codes "a.audio"; content = 1 ∷ 2 ∷ [] } ∷ [], 2)
unfolding evict sort_files insert_file audio_files is_audio_cache_file strip_suffix text_eq
    remove_file sub cache_metadata_path
evict_runs = refl

songs-Distinct : Distinct songs
unfolding text_eq
songs-Distinct =
    ((text_differs _ _ refl, (text_differs _ _ refl, tt)), ((text_differs _ _ refl, tt), (tt, tt)))

enforce_limit-Returns_example :
    Returns
      (λ out. (dir_size out.0 ≤ 1 * 1024 * 1024) × (out.1 ≡ dir_size out.0))
      (enforce_limit last_read (λ name. true) 1 songs)
enforce_limit-Returns_example = enforce_limit-Returns last_read 1 songs (omega arith) songs-Distinct
