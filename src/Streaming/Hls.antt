-- ===== src/Streaming/Hls.antt =====
-- The download of a segmented stream, streaming/src/stream/hls.rs. What `fetch_validated` returns for
-- a url at a turn of the loop, and the order in which the answers of a batch arrive, are parameters.
pub mod Segments
pub mod Batch
pub mod Finish
use sc_desktop_beautiful.Prelude.{
  List, Option, [], if◌then◌else◌, leb, length, none, not, set, some, suc, zero, ℕ, ◌++◌, ◌+◌, ◌==◌,
  ◌∷◌,
}
use sc_desktop_beautiful.Prelude.Outcome.{Outcome, Reply, fault, got, index, ok, panic, ◌>>=◌}
use sc_desktop_beautiful.Prelude.Text.{codes, contains}

abbrev pub max_m3u8_refresh : ℕ
max_m3u8_refresh = 2

-- The indices of the segments that are missing, from `i`.
unfoldable pub pending : ℕ → List (Option (List ℕ)) → List ℕ
pending i [] = []
pending i (none ∷ rs) = i ∷ pending (i + 1) rs
pending i (some chunk ∷ rs) = pending (i + 1) rs

-- `results.into_iter().flatten()`, joined.
unfoldable pub joined : List (Option (List ℕ)) → List ℕ
joined [] = []
joined (none ∷ rs) = joined rs
joined (some chunk ∷ rs) = chunk ++ joined rs

unfoldable pub unfetched : List (List ℕ) → List (Option (List ℕ))
unfetched [] = []
unfetched (url ∷ urls) = none ∷ unfetched urls

-- A source of segments: the url of the first part, if there is one, and those of the segments.
abbrev pub SegmentSource : Type 0
SegmentSource = Option (List ℕ) × List (List ℕ)

module _ (fetch : ℕ → List ℕ → Reply (List ℕ)) (arrive : ℕ → List ℕ → List ℕ) where
  unfoldable pub fetch_segment_batch :
      ℕ
      → List (List ℕ)
      → List ℕ
      → List (Option (List ℕ))
      → List ℕ
      → Outcome (List (Option (List ℕ)) × List ℕ)
  fetch_segment_batch turn urls [] results failed = ok (results, failed)
  fetch_segment_batch turn urls (idx ∷ indices) results failed = do
    url ← index urls idx
    elim (fetch turn url) [
      | got bytes ↦ (do
        old ← index results idx
        fetch_segment_batch turn urls indices (set results idx (some bytes)) failed)
      | fault e ↦ fetch_segment_batch turn urls indices results (failed ++ idx ∷ [])
    ]

  module _ (refresher : Option (ℕ → Reply SegmentSource)) where
    -- What is done about the failed segments, with the rest of the loop. The text of the first error
    -- also tells how many failed.
    unfoldable pub recover :
        (ℕ → List (List ℕ) → Outcome (Reply (List (Option (List ℕ)))))
        → ℕ
        → List (List ℕ)
        → List ℕ
        → Outcome (Reply (List (Option (List ℕ))))
    recover rest used urls [] = rest used urls
    recover rest used urls (f ∷ fs) = elim refresher [
      | none ↦ ok (fault (codes "hls: segment(s) unrecoverable"))
      | some refresh ↦
          if leb max_m3u8_refresh used
          then ok (fault (codes "hls: segments still failing after m3u8 refresh"))
          else elim (refresh used) [
            | fault e ↦ ok (fault e)
            | got (init, fresh) ↦
                if not (length fresh == length urls)
                then ok (fault (codes "hls: refreshed playlist has a different segment count"))
                else rest (used + 1) fresh
          ]
    ]

    -- The `loop`, on as many turns as are given. One that runs out of turns counts as a panic.
    unfoldable pub segment_loop :
        ℕ
        → ℕ
        → ℕ
        → List (List ℕ)
        → List (Option (List ℕ))
        → Outcome (Reply (List (Option (List ℕ))))
    segment_loop zero turn used urls results = panic
    segment_loop (suc left) turn used urls results = elim (pending 0 results) [
      | [] ↦ ok (got results)
      | i ∷ is ↦ (do
        out ← fetch_segment_batch turn urls (arrive turn (i ∷ is)) results []
        recover (λ used' urls'. segment_loop left (turn + 1) used' urls' out.0) used urls out.1)
    ]

    -- From the segments' urls to the joined body, behind what the first part brought.
    unfoldable pub download_segments : List ℕ → List (List ℕ) → Outcome (Reply (List ℕ))
    download_segments buf urls = do
      reply ← segment_loop 4 0 0 urls (unfetched urls)
      ok (elim reply [ got results ↦ got (buf ++ joined results) | fault e ↦ fault e ])

    -- `fetch_init` is `fetch_validated` on the url of the first part, and `source` what
    -- `fetch_m3u8_source` returned.
    unfoldable pub download_hls :
        (List ℕ → Reply (List ℕ)) → Reply SegmentSource → Outcome (Reply (List ℕ))
    download_hls fetch_init (fault e) = ok (fault e)
    download_hls fetch_init (got (none, urls)) = download_segments [] urls
    download_hls fetch_init (got (some init, urls)) = elim (fetch_init init) [
      | fault e ↦ ok (fault e)
      | got bytes ↦
          if contains bytes (codes "enca")
          then ok (fault (codes "unsupported stream"))
          else download_segments bytes urls
    ]
