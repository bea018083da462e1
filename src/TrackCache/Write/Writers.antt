-- ===== src/TrackCache/Write/Writers.antt =====
-- The two writers, from the bytes or the stream that they are given.
use sc_desktop_beautiful.Prelude.{
  Bool-cases, List, [], ap, append-nil, append_assoc, arith, false, if-cases, if◌then◌else◌, inl,
  inr, length, length-append, min, not, refl, sym, take, true, ℕ, ◌++◌, ◌∙◌, ◌∷◌, ◌≡◌, ◌≤◌, ◌⊎◌,
  if-false, if-true,
}
use sc_desktop_beautiful.Prelude.Text.{codes}
use sc_desktop_beautiful.TrackCache.Names.{PlaybackQuality, cache_filename, temp_file_path}
use sc_desktop_beautiful.TrackCache.Audio.{
  audio_sniff_len, is_valid_audio, is_valid_audio-size, min_audio_size, sniff_more, sniff_more-take,
  take-min,
}
use sc_desktop_beautiful.TrackCache.Disk.{
  File, find-write_ne, find-write_self, has_audio-same, write_file,
}
use sc_desktop_beautiful.TrackCache.Write.{
  Chunk, DownloadError, DownloadSource, Fate, Pulled, Written, broken, cleanup_temp_file, commit,
  failed, fatal, finish_response, piece, pull, stopped, whole, write_bytes_to_cache,
  write_response_to_cache,
}
use sc_desktop_beautiful.TrackCache.Write.Stored.{
  Away, Holds, Spares, cleanup-find, commit-Holds, commit-Spares, temp-ne,
}

abbrev chunk_bytes : Chunk → List ℕ
chunk_bytes (piece b w) = b
chunk_bytes (broken text) = []

abbrev pub body_of_stream : List Chunk → List ℕ
body_of_stream [] = []
body_of_stream (c ∷ cs) = chunk_bytes c ++ body_of_stream cs

-- A stream that ends, every chunk of which is written.
abbrev pub IsComplete : List Chunk → Type 0
IsComplete [] = Unit
IsComplete (piece b w ∷ cs) = (w ≡ true) × IsComplete cs
IsComplete (broken text ∷ cs) = ⊥

-- The front and the length that are kept are those of the body in the file.
abbrev Matches : Pulled → Type 0
Matches (whole content sniff total) =
    (sniff ≡ take audio_sniff_len content) × (total ≡ length content)
Matches (stopped err) = Unit

module _ (to_json : PlaybackQuality → DownloadSource → List ℕ) (fate : Fate) where
  module _ (nonce urn : List ℕ) (quality : PlaybackQuality) (source : DownloadSource) where
    pull-IsComplete :
        (stream : List Chunk) (content : List ℕ)
        → IsComplete stream
        → (s : List ℕ) → s ≡ take audio_sniff_len content
        → pull to_json fate nonce urn quality source stream content s (length content)
          ≡ whole
              (content ++ body_of_stream stream)
              (take audio_sniff_len (content ++ body_of_stream stream))
              (length (content ++ body_of_stream stream))
    unfolding pull
    pull-IsComplete [] content h s e =
        ap (λ front. whole content front (length content)) e
        ∙ ap (λ w. whole w (take audio_sniff_len w) (length w)) (sym (append-nil content))
    pull-IsComplete (broken text ∷ cs) content h s e = absurd h
    pull-IsComplete (piece b true ∷ cs) content h s e =
        ap (pull to_json fate nonce urn quality source cs (content ++ b) (sniff_more s b))
          (sym (length-append content b))
        ∙ pull-IsComplete cs (content ++ b) h.1 (sniff_more s b)
            (ap (λ front. sniff_more front b) e ∙ sniff_more-take content b)
        ∙ ap (λ w. whole w (take audio_sniff_len w) (length w))
            (append_assoc content b (body_of_stream cs))
    pull-IsComplete (piece b false ∷ cs) content h s e = cc

    -- What a writer may do: a track that it reports is in the cache under the name for this urn and
    -- quality, and every track that was there, except under the names the writer works with, is as it
    -- was. The name of the track itself is no exception.
    abbrev pub Settles : List File → List File × Written → Type 0
    Settles fs out =
        Holds to_json fate (cache_filename urn quality) out
        × ((other : List ℕ)
            → Away to_json fate (cache_filename urn quality) (temp_file_path nonce urn quality)
                other
            → Spares to_json fate other fs out)

    discarded-Settles :
        (content : List ℕ) (fs : List File) (err : DownloadError)
        → Settles fs (
          cleanup_temp_file to_json fate
              (temp_file_path nonce urn quality)
              (write_file (temp_file_path nonce urn quality) content fs),
          failed err,
        )
    discarded-Settles content fs err = (
      tt,
      λ other away _.
          let temp = temp_file_path nonce urn quality in
          cleanup-find to_json fate temp other (write_file temp content fs) away.0
          ∙ find-write_ne temp other content fs away.0,
    )

    committed-Settles :
        (content : List ℕ) (fs : List File)
        → min_audio_size ≤ length content
        → Settles fs (
            commit to_json fate
              (cache_filename urn quality)
              (temp_file_path nonce urn quality)
              quality
              source
              (write_file (temp_file_path nonce urn quality) content fs))
    committed-Settles content fs h =
        let temp = temp_file_path nonce urn quality in
        let name = cache_filename urn quality in
        let wrote = write_file temp content fs in
        (
          commit-Holds to_json fate name temp quality source wrote _ (temp-ne nonce urn quality)
              (find-write_self temp content fs) h,
          λ other away here.
              let same = find-write_ne temp other content fs away.0 in
              commit-Spares to_json fate name temp other quality source wrote
                (temp-ne nonce urn quality) away (has_audio-same other wrote fs same ∙ here)
              ∙ same,
        )

    -- The writer of bytes, whatever the file system answers: a track that it reports is in the cache,
    -- large enough to be found again, and every track that was there stays as it was, except under
    -- the temporary name and those of the metadata.
    pub write_bytes_to_cache-Settles :
        (bytes : List ℕ) (fs : List File)
        → Settles fs (write_bytes_to_cache to_json fate nonce urn quality source bytes fs)
    unfolding write_bytes_to_cache
    write_bytes_to_cache-Settles bytes fs =
        let front = take (min audio_sniff_len (length bytes)) bytes in
        if-cases (Settles fs) (not (is_valid_audio front (length bytes))) _ _
          (λ _. (tt, λ o a h. refl))
          λ valid.
            if-cases (Settles fs) (not fate.created) _ _ (λ _. (tt, λ o a h. refl))
              λ _.
                if-cases (Settles fs) (not fate.written) _ _
                  (λ _.
                    discarded-Settles fate.left fs
                      (fatal (codes "Cache write failed: " ++ fate.text)))
                  λ _.
                    if-cases (Settles fs) (not fate.flushed) _ _
                      (λ _.
                        discarded-Settles fate.left fs
                          (fatal (codes "Cache flush failed: " ++ fate.text)))
                      λ _.
                        committed-Settles bytes fs
                          (is_valid_audio-size front (length bytes) (ground arith))

    abbrev pub judged : List ℕ → List File × Written → List File → List File × Written
    judged body refused fs =
        if not (is_valid_audio (take audio_sniff_len body) (length body))
        then refused
        else commit to_json fate (cache_filename urn quality) (temp_file_path nonce urn quality)
            quality source (write_file (temp_file_path nonce urn quality) body fs)

    pub streamed_lem :
        (stream : List Chunk) (fs : List File)
        → IsComplete stream
        → fate.created ≡ true
        → fate.flushed ≡ true
        → let body = body_of_stream stream in
          let temp = temp_file_path nonce urn quality in
          write_response_to_cache to_json fate nonce urn quality source stream fs
          ≡ judged body
              (
                cleanup_temp_file to_json fate temp (write_file temp body fs),
                failed (fatal (codes "Invalid audio data")),
              )
              fs
    unfolding write_response_to_cache finish_response
    streamed_lem stream fs h c f =
        if-false _ _ _ (ap not c)
        ∙ ap (finish_response to_json fate nonce urn quality source fs)
            (pull-IsComplete stream [] h [] refl)
        ∙ if-false _ _ _ (ap not f)

    at_once_lem :
        (body : List ℕ) (fs : List File)
        → fate.created ≡ true
        → fate.written ≡ true
        → fate.flushed ≡ true
        → write_bytes_to_cache to_json fate nonce urn quality source body fs
          ≡ judged body (fs, failed (fatal (codes "Invalid audio data"))) fs
    unfolding write_bytes_to_cache
    at_once_lem body fs c w f =
        let refused : List File × Written = (fs, failed (fatal (codes "Invalid audio data"))) in
        let front = take (min audio_sniff_len (length body)) body in
        ap (λ rest. if not (is_valid_audio front (length body)) then refused else rest)
          (if-false _ _ _ (ap not c) ∙ if-false _ _ _ (ap not w) ∙ if-false _ _ _ (ap not f))
        ∙ ap
            (λ start.
              if not (is_valid_audio start (length body))
              then refused
              else commit to_json fate (cache_filename urn quality)
                  (temp_file_path nonce urn quality) quality source
                  (write_file (temp_file_path nonce urn quality) body fs))
            (take-min audio_sniff_len body)

    -- A stream that ends, and whose chunks are all written, gives what the bytes give that it is made
    -- of, when the file is created, written and flushed: the same answer and the same directory, or
    -- in both cases the answer that the audio is invalid.
    pub write_response-write_bytes :
        (stream : List Chunk) (fs : List File)
        → IsComplete stream
        → fate.created ≡ true
        → fate.written ≡ true
        → fate.flushed ≡ true
        → let streamed = write_response_to_cache to_json fate nonce urn quality source stream fs in
          let at_once =
            write_bytes_to_cache to_json fate nonce urn quality source (body_of_stream stream) fs in
          (streamed ≡ at_once)
          ⊎ ((streamed.1 ≡ failed (fatal (codes "Invalid audio data")))
              × (at_once.1 ≡ failed (fatal (codes "Invalid audio data"))))
    write_response-write_bytes stream fs h c w f =
        let body = body_of_stream stream in
        let bad = not (is_valid_audio (take audio_sniff_len body) (length body)) in
        let one = streamed_lem stream fs h c f in
        let two = at_once_lem body fs c w f in
        elim (Bool-cases bad) [
          | inl e ↦ inr (
            ap (λ (out : List File × Written). out.1) (one ∙ if-true bad _ _ e),
            ap (λ (out : List File × Written). out.1) (two ∙ if-true bad _ _ e),
          )
          | inr e ↦ inl (one ∙ if-false bad _ _ e ∙ sym (two ∙ if-false bad _ _ e))
        ]
