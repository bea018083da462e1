-- ===== src/Streaming/Hls/Finish.antt =====
-- The loop of streaming/src/stream/hls.rs ends within four turns.
use sc_desktop_beautiful.Prelude.{
  List, Option, [], arith, length, none, some, suc, zero, ℕ, ◌+◌, ◌<◌, ◌∷◌, ◌≡◌, ◌≤◌, ◌⊎◌, inl, inr,
  refl, sym, ◌∙◌, ap, subst, if◌then◌else◌, ◌++◌, get_elem?, false,
}
use native.Mathlib.Nat.{zero-add}
use mathlib.Core.Option.{some-injective}
use sc_desktop_beautiful.Prelude.Outcome.{
  Reply, Returns, Returns-mono, bind-Returns, fault, got, if-Returns, ok, ◌>>=◌,
}
use sc_desktop_beautiful.Prelude.Text.{codes, contains}
use sc_desktop_beautiful.Streaming.Hls.{
  SegmentSource, fetch_segment_batch, pending, recover, segment_loop, unfetched, joined,
  download_segments, download_hls,
}
use sc_desktop_beautiful.Streaming.Hls.Batch.{
  BatchDone, Complete, Fair, Honest, Listed, fetch_segment_batch-BatchDone, recover-Complete,
}
use sc_desktop_beautiful.Streaming.Hls.Segments.{
  Filled, In, get_elem?_known, pending-Filled, pending-In, pending-bound, pending-nil,
}

module _ (fetch : ℕ → List ℕ → Reply (List ℕ)) (arrive : ℕ → List ℕ → List ℕ)
    (refresher : Option (ℕ → Reply SegmentSource)) (first : List (List ℕ)) (n : ℕ)
    (covers : (turn : ℕ) (xs : List ℕ) (j : ℕ) → In j xs → In j (arrive turn xs))
    (only : (turn : ℕ) (xs : List ℕ) (j : ℕ) → In j (arrive turn xs) → In j xs) where
  abbrev Finishes : ℕ → Type 0
  Finishes left =
      (turn used : ℕ) (urls : List (List ℕ)) (results : List (Option (List ℕ)))
      → length results ≡ n
      → length urls ≡ n
      → Listed refresher first urls
      → Fair fetch arrive refresher first results
      → used ≤ 2
      → (4 ≤ left + used) ⊎ ((pending 0 results ≡ []) × (0 < left))
      → Returns (Complete fetch arrive refresher first n)
          (segment_loop fetch arrive refresher left turn used urls results)

  turn-Finishes :
      (left : ℕ)
      → Finishes left
      → (turn used : ℕ) (urls : List (List ℕ)) (results : List (Option (List ℕ)))
      → length results ≡ n
      → length urls ≡ n
      → Listed refresher first urls
      → Fair fetch arrive refresher first results
      → used ≤ 2
      → (4 ≤ suc left + used) ⊎ (pending 0 results ≡ [])
      → (p : List ℕ) → pending 0 results ≡ p
      → Returns (Complete fetch arrive refresher first n) (elim p [
        | [] ↦ ok (got results)
        | i ∷ is ↦ (do
          out ← fetch_segment_batch fetch arrive turn urls (arrive turn (i ∷ is)) results []
          recover fetch arrive refresher
              (λ used' urls'. segment_loop fetch arrive refresher left (turn + 1) used' urls' out.0)
              used
              urls
              out.1)
      ])
  turn-Finishes left ih turn used urls results size total l fair few room [] e =
      (size, fair, λ j less. pending-Filled results e j (omega arith))
  turn-Finishes left ih turn used urls results size total l fair few (inr none_left) (i ∷ is) e =
      absurd (no_both (sym none_left ∙ e))
    where
      no_both : [] ≡ i ∷ is → ⊥
      no_both k = cc
  turn-Finishes left ih turn used urls results size total l fair few (inl room) (i ∷ is) e =
      bind-Returns {A = List (Option (List ℕ)) × List ℕ}
        (BatchDone (Fair fetch arrive refresher first) results (arrive turn (i ∷ is)) []) _ _ _
        (fetch_segment_batch-BatchDone fetch arrive refresher first turn urls (arrive turn (i ∷ is))
          results [] l (omega arith)
          (λ j m.
            omega (
              arith,
              (pending-bound results 0 j (subst (In j) (sym e) (only turn (i ∷ is) j m))).1,
            ))
          fair)
        λ out _ d.
          recover-Complete fetch arrive refresher first n used urls out.1 _ total
            (λ nil. ih (turn + 1) used urls out.0 (d.size ∙ size) total l d.fair few (
              inr (
                pending-nil out.0 0 λ j less.
                    elim (get_elem?_known results j (omega (arith, d.size))) [
                      | inl missing ↦ (d.all nil).1 j (
                          covers turn (i ∷ is) j (
                            subst (λ k. In k (i ∷ is)) (zero-add j)
                              (subst (In (0 + j)) e (pending-In results 0 j missing))))
                      | inr f ↦ d.kept j f
                    ],
                omega arith,
              )))
            λ fresh less same listed.
              ih (turn + 1) (used + 1) fresh out.0 (d.size ∙ size) same listed d.fair (omega arith)
                (inl (omega arith))

  segment_loop-Finishes : (left : ℕ) → Finishes left
  unfolding segment_loop
  segment_loop-Finishes zero turn used urls results size total l fair few room = elim room [
    | inl more ↦ absurd (omega arith)
    | inr (e, less) ↦ absurd (omega arith)
  ]
  segment_loop-Finishes (suc left) turn used urls results size total l fair few room =
      turn-Finishes left (segment_loop-Finishes left) turn used urls results size total l fair few
        (elim room [ inl more ↦ inl more | inr r ↦ inr (r.0) ]) (pending 0 results) refl

length-unfetched : (urls : List (List ℕ)) → length (unfetched urls) ≡ length urls
unfolding unfetched
length-unfetched [] = refl
length-unfetched (url ∷ urls) = ap suc (length-unfetched urls)

unfetched-none :
    (urls : List (List ℕ)) (i : ℕ) (chunk : List ℕ)
    → get_elem? (unfetched urls) i ≡ some (some chunk)
    → ⊥
unfolding unfetched
unfetched-none [] i chunk e = cc
unfetched-none (url ∷ urls) zero chunk e = no_both (some-injective _ _ e)
  where
    no_both : none ≡ some chunk → ⊥
    no_both k = cc
unfetched-none (url ∷ urls) (suc i) chunk e = unfetched-none urls i chunk e

-- What the first part brought, with no sign of an encrypted stream in it.
abbrev pub First : (List ℕ → Reply (List ℕ)) → Option (List ℕ) → List ℕ → Type 0
First fetch_init none buf = buf ≡ []
First fetch_init (some url) buf = (fetch_init url ≡ got buf) × (contains buf (codes "enca") ≡ false)

module _ (fetch : ℕ → List ℕ → Reply (List ℕ)) (arrive : ℕ → List ℕ → List ℕ)
    (refresher : Option (ℕ → Reply SegmentSource)) where
  -- A body made of the first part and of one chunk for every segment, in the order of the playlist.
  abbrev pub Whole : List ℕ → List (List ℕ) → Reply (List ℕ) → Type 0
  Whole buf urls (fault e) = Unit
  Whole buf urls (got bytes) =
      (rs : List (Option (List ℕ))) × (bytes ≡ buf ++ joined rs)
      × (length rs ≡ length urls)
      × Honest refresher urls fetch rs
      × ((j : ℕ) → j < length urls → Filled rs j)

  abbrev pub Downloaded : (List ℕ → Reply (List ℕ)) → Reply SegmentSource → Reply (List ℕ) → Type 0
  Downloaded fetch_init source (fault e) = Unit
  Downloaded fetch_init source (got bytes) =
      (init : Option (List ℕ)) × (urls : List (List ℕ)) × (buf : List ℕ) × (source
        ≡ got (init, urls))
      × First fetch_init init buf
      × Whole buf urls (got bytes)

  module _ (covers : (turn : ℕ) (xs : List ℕ) (j : ℕ) → In j xs → In j (arrive turn xs))
      (only : (turn : ℕ) (xs : List ℕ) (j : ℕ) → In j (arrive turn xs) → In j xs) where
    download_segments-Whole :
        (buf : List ℕ) (urls : List (List ℕ))
        → Returns (Whole buf urls) (download_segments fetch arrive refresher buf urls)
    unfolding download_segments
    download_segments-Whole buf urls =
        bind-Returns _ _ _ _
          (segment_loop-Finishes fetch arrive refresher urls (length urls) covers only 4 0 0 urls
            (unfetched urls) (length-unfetched urls) refl (inl refl)
            (λ i chunk e. absurd (unfetched-none urls i chunk e)) (omega arith) (inl (omega arith)))
          λ reply _ c. finished reply c
      where
        finished :
            (reply : Reply (List (Option (List ℕ))))
            → Complete fetch arrive refresher urls (length urls) reply
            → Whole buf urls
                (elim reply [ got results ↦ got (buf ++ joined results) | fault e ↦ fault e ])
        finished (got results) c = (results, refl, c.0, c.1, c.2)
        finished (fault e) c = tt

    Whole-Downloaded :
        (fetch_init : List ℕ → Reply (List ℕ)) (init : Option (List ℕ)) (urls : List (List ℕ))
        (buf : List ℕ)
        → First fetch_init init buf
        → (reply : Reply (List ℕ)) → Whole buf urls reply
        → Downloaded fetch_init (got (init, urls)) reply
    Whole-Downloaded fetch_init init urls buf f (got bytes) w = (init, urls, buf, refl, f, w)
    Whole-Downloaded fetch_init init urls buf f (fault e) w = tt

    -- The batches may come back in any order, with all that was asked and nothing else. Then the
    -- download of a segmented stream comes to an end without a panic, four turns of the loop being
    -- enough for any playlist, any answers and any refreshes. A body it returns is the first part,
    -- if the playlist names one, followed by exactly one chunk for every segment in the order of
    -- the playlist, each of which was fetched from the url that the playlist, or a refreshed one,
    -- lists at that place.
    pub download_hls-Downloaded :
        (fetch_init : List ℕ → Reply (List ℕ)) (source : Reply SegmentSource)
        → Returns
            (Downloaded fetch_init source)
            (download_hls fetch arrive refresher fetch_init source)
    unfolding download_hls
    download_hls-Downloaded fetch_init (fault e) = tt
    download_hls-Downloaded fetch_init (got (none, urls)) =
        Returns-mono _ _ _ (download_segments-Whole [] urls)
          λ reply _ w. Whole-Downloaded fetch_init none urls [] refl reply w
    download_hls-Downloaded fetch_init (got (some init, urls)) = started (fetch_init init) refl
      where
        started :
            (r : Reply (List ℕ))
            → fetch_init init ≡ r
            → Returns (Downloaded fetch_init (got (some init, urls))) (elim r [
              | fault e ↦ ok (fault e)
              | got bytes ↦
                  if contains bytes (codes "enca")
                  then ok (fault (codes "unsupported stream"))
                  else download_segments fetch arrive refresher bytes urls
            ])
        started (fault msg) e = tt
        started (got bytes) e =
            if-Returns _ (contains bytes (codes "enca")) _ _ (λ _. tt)
              λ clear.
                Returns-mono _ _ _ (download_segments-Whole bytes urls)
                  λ reply _ w. Whole-Downloaded fetch_init (some init) urls bytes (e, clear) reply w
