-- ===== src/TrackCache/Write/Stored.antt =====
-- What a download leaves in the cache.
use mathlib.Core.Bool.{true≢false}
use sc_desktop_beautiful.Prelude.{
  Bool-cases, List, ap, append_assoc, arith, if◌then◌else◌, inl, inr, length, length-append, refl,
  some, sym, true, ℕ, ◌++◌, ◌∙◌, ◌∷◌, ◌≡◌, ◌≢◌, ◌≤◌, if-cases,
}
use sc_desktop_beautiful.Prelude.Text.{codes}
use sc_desktop_beautiful.TrackCache.Names.{
  PlaybackQuality, cache_filename, cache_metadata_path, temp_file_path,
}
use sc_desktop_beautiful.TrackCache.Audio.{min_audio_size}
use sc_desktop_beautiful.TrackCache.Disk.{
  File, find-remove_ne, find-rename_ne, find-rename_to, find-write_ne, find_file, has_audio,
  has_audio-found, has_audio-same, remove_file, rename_file, write_file,
}
use sc_desktop_beautiful.TrackCache.Write.{
  DownloadSource, Fate, Written, cleanup_temp_file, commit, failed, metadata_temp_path, stored,
  write_cache_metadata,
}

append_longer : (s t : List ℕ) (c : ℕ) → s ++ c ∷ t ≢ s
append_longer s t c e =
    let same : length (s ++ c ∷ t) ≡ length s = ap length e in
    omega (arith, length-append s (c ∷ t))

pub temp-ne :
    (nonce urn : List ℕ) (quality : PlaybackQuality)
    → temp_file_path nonce urn quality ≢ cache_filename urn quality
unfolding temp_file_path
temp-ne nonce urn quality = append_longer (cache_filename urn quality) (nonce ++ codes ".part") 46

pub meta-ne : (name : List ℕ) → cache_metadata_path name ≢ name
unfolding cache_metadata_path
meta-ne name = append_longer name (codes "meta.json") 46

meta_temp-ne : (name : List ℕ) → metadata_temp_path name ≢ name
unfolding metadata_temp_path cache_metadata_path
meta_temp-ne name e =
    append_longer name (codes "meta.json.tmp") 46 (sym (append_assoc name _ _) ∙ e)

module _ (to_json : PlaybackQuality → DownloadSource → List ℕ) (fate : Fate) where
  pub cleanup-find :
      (path other : List ℕ) (fs : List File)
      → path ≢ other
      → find_file other (cleanup_temp_file to_json fate path fs) ≡ find_file other fs
  unfolding cleanup_temp_file
  cleanup-find path other fs ne = elim (Bool-cases fate.cleaned) [
    | inl e ↦ rw e (find-remove_ne path other fs ne)
    | inr e ↦ rw e refl
  ]

  -- The two names that the metadata is written under.
  abbrev NotMeta : List ℕ → List ℕ → Type 0
  NotMeta name other = (cache_metadata_path name ≢ other) × (metadata_temp_path name ≢ other)

  metadata-find :
      (name other : List ℕ) (quality : PlaybackQuality) (source : DownloadSource) (fs : List File)
      → NotMeta name other
      → find_file other (write_cache_metadata to_json fate name quality source fs)
        ≡ find_file other fs
  unfolding write_cache_metadata
  metadata-find name other quality source fs ne =
      let temp = metadata_temp_path name in
      let json = to_json quality source in
      let Same = λ (gs : List File). find_file other gs ≡ find_file other fs in
      let wrote = find-write_ne temp other json fs ne.1 in
      if-cases Same fate.meta_written _ _
        (λ _.
          if-cases Same fate.meta_renamed _ _
            (λ _.
              find-rename_ne temp (cache_metadata_path name) other (write_file temp json fs) ne.1
                ne.0
              ∙ wrote)
            λ _. cleanup-find temp other (write_file temp json fs) ne.1 ∙ wrote)
        λ _.
          cleanup-find temp other (write_file temp fate.left fs) ne.1
          ∙ find-write_ne temp other fate.left fs ne.1

  -- A track that is reported as stored is under its name, and large enough to be found again.
  abbrev pub Holds : List ℕ → List File × Written → Type 0
  Holds name (fs, stored n) = (n ≡ name) × (has_audio n fs ≡ true)
  Holds name (fs, failed err) = Unit

  renamed-Holds :
      (name temp : List ℕ) (quality : PlaybackQuality) (source : DownloadSource) (fs : List File)
      (f : File)
      → find_file temp fs ≡ some f
      → min_audio_size ≤ length f.content
      → has_audio name
          (write_cache_metadata to_json fate name quality source (rename_file temp name fs))
        ≡ true
  renamed-Holds name temp quality source fs f e h =
      has_audio-found name _ _
        (metadata-find name name quality source (rename_file temp name fs)
            (meta-ne name, meta_temp-ne name)
          ∙ find-rename_to temp name fs f e)
        h

  pub commit-Holds :
      (name temp : List ℕ) (quality : PlaybackQuality) (source : DownloadSource) (fs : List File)
      (f : File)
      → temp ≢ name
      → find_file temp fs ≡ some f
      → min_audio_size ≤ length f.content
      → Holds name (commit to_json fate name temp quality source fs)
  unfolding commit
  commit-Holds name temp quality source fs f ne e h =
      if-cases (Holds name) (has_audio name fs) _ _
        (λ there. (refl, has_audio-same name _ fs (cleanup-find temp name fs ne) ∙ there))
        λ missing.
          if-cases (Holds name) fate.renamed _ _
            (λ _. (refl, renamed-Holds name temp quality source fs f e h))
            λ _.
              if-cases (Holds name) (has_audio name fs) _ _
                (λ there. absurd (true≢false (sym there ∙ missing)))
                λ _.
                  if-cases (Holds name) fate.renamed_again _ _
                    (λ _. (
                      refl,
                      renamed-Holds name temp quality source
                          (if fate.removed then remove_file name fs else fs) f
                          (if-cases (λ (gs : List File). find_file temp gs ≡ some f) fate.removed _
                            _ (λ _. find-remove_ne name temp fs (λ same. ne (sym same)) ∙ e) λ _. e)
                          h,
                    ))
                    λ _. tt

  -- A file that is not one of those that the writer works with.
  abbrev pub Away : List ℕ → List ℕ → List ℕ → Type 0
  Away name temp other = (temp ≢ other) × NotMeta name other

  -- A track that is in the cache is left alone.
  abbrev pub Spares : List ℕ → List File → List File × Written → Type 0
  Spares other fs out = has_audio other fs ≡ true → find_file other out.0 ≡ find_file other fs

  pub commit-Spares :
      (name temp other : List ℕ) (quality : PlaybackQuality) (source : DownloadSource)
      (fs : List File)
      → temp ≢ name
      → Away name temp other
      → Spares other fs (commit to_json fate name temp quality source fs)
  unfolding commit
  commit-Spares name temp other quality source fs ne away here =
      if-cases Kept (has_audio name fs) _ _ (λ _. cleanup-find temp other fs away.0)
        λ missing.
          let differ : name ≢ other =
            λ same. true≢false (sym here ∙ ap (λ n. has_audio n fs) (sym same) ∙ missing) in
          if-cases Kept fate.renamed _ _ (λ _. moved differ fs refl)
            λ _.
              if-cases Kept (has_audio name fs) _ _ (λ _. cleanup-find temp other fs away.0)
                λ _.
                  let cleared = if fate.removed then remove_file name fs else fs in
                  let same : find_file other cleared ≡ find_file other fs =
                    if-cases (λ (gs : List File). find_file other gs ≡ find_file other fs)
                      fate.removed _ _ (λ _. find-remove_ne name other fs differ) λ _. refl in
                  if-cases Kept fate.renamed_again _ _ (λ _. moved differ cleared same)
                    λ _. cleanup-find temp other cleared away.0 ∙ same
    where
      Kept : List File × Written → Type 0
      Kept out = find_file other out.0 ≡ find_file other fs

      moved :
          name ≢ other
          → (gs : List File) → find_file other gs ≡ find_file other fs
          → find_file other
              (write_cache_metadata to_json fate name quality source (rename_file temp name gs))
            ≡ find_file other fs
      moved differ gs same =
          metadata-find name other quality source (rename_file temp name gs) away.1
          ∙ find-rename_ne temp name other gs away.0 differ
          ∙ same
