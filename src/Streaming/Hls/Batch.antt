-- ===== src/Streaming/Hls/Batch.antt =====
-- What a batch leaves and what is done about its failures, in streaming/src/stream/hls.rs.
use sc_desktop_beautiful.Prelude.{
  Bool-cases, List, Option, [], ap, arith, get_elem?, get_elem?-set_ne, get_elem?-set_self,
  get_elem?_bound, if◌then◌else◌, inl, inr, leb, length, length-set, none, not, refl, set, some,
  subst, sym, ℕ, ◌++◌, ◌+◌, ◌<◌, ◌==◌, ◌∙◌, ◌∷◌, ◌≡◌, ◌≢◌, ◌⊎◌,
}
use sc_desktop_beautiful.Prelude.Outcome.{
  Outcome, Reply, Returns, Returns-mono, bind-Returns, fault, got, if-Returns, index, index-Returns,
  ok, ◌>>=◌,
}
use sc_desktop_beautiful.Prelude.Text.{codes}
use sc_desktop_beautiful.Streaming.Hls.{
  SegmentSource, fetch_segment_batch, max_m3u8_refresh, recover,
}
use sc_desktop_beautiful.Streaming.Hls.Segments.{Filled, In, set-Filled}
use mathlib.Core.Option.{some-injective}

-- A list of segments that the loop works with: the first one or a refreshed one.
module _ (refresher : Option (ℕ → Reply SegmentSource)) (first : List (List ℕ)) where
  abbrev pub Listed : List (List ℕ) → Type 0
  Listed urls =
      (urls ≡ first)
      ⊎ ((refresh : ℕ → Reply SegmentSource) × (k : ℕ) × (init : Option (List ℕ)) × (refresher
            ≡ some refresh)
          × (refresh k ≡ got (init, urls)))

  -- Every chunk is what came for the url at its index in such a list.
  abbrev pub Honest : (ℕ → List ℕ → Reply (List ℕ)) → List (Option (List ℕ)) → Type 0
  Honest fetch rs =
      (i : ℕ) (chunk : List ℕ)
      → get_elem? rs i ≡ some (some chunk)
      → (turn : ℕ) × (urls : List (List ℕ)) × (url : List ℕ) × Listed urls
        × (get_elem? urls i ≡ some url)
        × (fetch turn url ≡ got chunk)

-- What a batch leaves, from what it found.
pub record BatchDone (Fair : List (Option (List ℕ)) → Type 0) (rs : List (Option (List ℕ)))
    (indices failed : List ℕ) (out : List (Option (List ℕ)) × List ℕ) : Type 0 where
  pub size : length out.0 ≡ length rs
  pub fair : Fair out.0
  pub kept : (j : ℕ) → Filled rs j → Filled out.0 j
  pub all : out.1 ≡ [] → (failed ≡ []) × ((j : ℕ) → In j indices → Filled out.0 j)

snoc-nil : (xs : List ℕ) (x : ℕ) → xs ++ x ∷ [] ≡ [] → ⊥
snoc-nil [] x e = cc
snoc-nil (y ∷ ys) x e = cc

module _ (fetch : ℕ → List ℕ → Reply (List ℕ)) (arrive : ℕ → List ℕ → List ℕ) where
  module _ (refresher : Option (ℕ → Reply SegmentSource)) (first : List (List ℕ)) where
    abbrev pub Fair : List (Option (List ℕ)) → Type 0
    Fair = Honest refresher first fetch

    set-Fair :
        (turn : ℕ) (urls : List (List ℕ)) (rs : List (Option (List ℕ))) (idx : ℕ)
        (url chunk : List ℕ)
        → Listed refresher first urls
        → get_elem? urls idx ≡ some url
        → fetch turn url ≡ got chunk
        → Fair rs
        → Fair (set rs idx (some chunk))
    set-Fair turn urls rs idx url chunk l at came fair i c e = elim (Bool-cases (idx == i)) [
      | inl same ↦
          let eq : idx ≡ i = ground arith in
          let less : idx < length rs =
            omega (arith, get_elem?_bound _ i (some c) e, length-set rs idx (some chunk)) in
          let there : get_elem? (set rs idx (some chunk)) idx ≡ some (some c) =
            ap (get_elem? (set rs idx (some chunk))) eq ∙ e in
          let value : chunk ≡ c =
            some-injective _ _
              (some-injective _ _ (sym (get_elem?-set_self rs idx (some chunk) less) ∙ there)) in
          (turn, urls, url, l, ap (get_elem? urls) (sym eq) ∙ at, came ∙ ap got value)
      | inr other ↦
          let ne : idx ≢ i = λ eq. ground arith in
          fair i c (sym (get_elem?-set_ne rs (some chunk) ne) ∙ e)
    ]

    pub fetch_segment_batch-BatchDone :
        (turn : ℕ) (urls : List (List ℕ)) (indices : List ℕ) (rs : List (Option (List ℕ)))
        (failed : List ℕ)
        → Listed refresher first urls
        → length rs ≡ length urls
        → ((j : ℕ) → In j indices → j < length rs)
        → Fair rs
        → Returns
            (BatchDone Fair rs indices failed)
            (fetch_segment_batch fetch arrive turn urls indices rs failed)
    unfolding fetch_segment_batch
    fetch_segment_batch-BatchDone turn urls [] rs failed l size bound fair = record {
      size = refl;
      fair = fair;
      kept = λ j f. f;
      all = λ e. (e, λ j m. absurd m);
    }
    fetch_segment_batch-BatchDone turn urls (idx ∷ indices) rs failed l size bound fair =
        let less : idx < length rs = bound idx (inl refl) in
        bind-Returns _ _ (index urls idx) _ (index-Returns urls idx (omega arith)) λ url _ at.
          answered url at (fetch turn url) refl
            (λ chunk came.
              fetch_segment_batch-BatchDone turn urls indices (set rs idx (some chunk)) failed l
                (length-set rs idx (some chunk) ∙ size)
                (λ j m. omega (arith, bound j (inr m), length-set rs idx (some chunk)))
                (set-Fair turn urls rs idx url chunk l at came fair))
            (fetch_segment_batch-BatchDone turn urls indices rs (failed ++ idx ∷ []) l size
              (λ j m. bound j (inr m)) fair)
      where
        P : List (Option (List ℕ)) × List ℕ → Type 0
        P = BatchDone Fair rs (idx ∷ indices) failed

        answered :
            (url : List ℕ)
            → get_elem? urls idx ≡ some url
            → (r : Reply (List ℕ)) → fetch turn url ≡ r
            → ((chunk : List ℕ)
                → fetch turn url ≡ got chunk
                → Returns (BatchDone Fair (set rs idx (some chunk)) indices failed) (
                    fetch_segment_batch fetch arrive turn urls indices
                      (set rs idx (some chunk))
                      failed))
            → Returns
                (BatchDone Fair rs indices (failed ++ idx ∷ []))
                (fetch_segment_batch fetch arrive turn urls indices rs (failed ++ idx ∷ []))
            → Returns P (elim r [
              | got bytes ↦ (do
                old ← index rs idx
                fetch_segment_batch fetch arrive turn urls indices (set rs idx (some bytes)) failed)
              | fault e ↦ fetch_segment_batch fetch arrive turn urls indices rs (failed ++ idx ∷ [])
            ])
        answered url at (got chunk) came h k =
            bind-Returns _ P _ _ (index-Returns rs idx (bound idx (inl refl))) λ old _ _.
              Returns-mono (BatchDone Fair (set rs idx (some chunk)) indices failed) P _
                (h chunk came)
                λ out _ d. record {
                  size = d.size ∙ length-set rs idx (some chunk);
                  fair = d.fair;
                  kept = λ j f. d.kept j (set-Filled rs idx j chunk (bound idx (inl refl)) f);
                  all = λ e. (
                    (d.all e).0,
                    λ j m. elim m [
                      | inl same ↦ subst (Filled out.0) same (
                          d.kept idx
                            (chunk, get_elem?-set_self rs idx (some chunk) (bound idx (inl refl))))
                      | inr later ↦ (d.all e).1 j later
                    ],
                  );
                }
        answered url at (fault msg) came h k = Returns-mono _ P _ k λ out _ d. record {
          size = d.size;
          fair = d.fair;
          kept = d.kept;
          all = λ e. absurd (snoc-nil failed idx (d.all e).0);
        }

    -- All segments are there, and each chunk is honest.
    abbrev pub Complete : ℕ → Reply (List (Option (List ℕ))) → Type 0
    Complete n (got rs) = (length rs ≡ n) × Fair rs × ((j : ℕ) → j < n → Filled rs j)
    Complete n (fault e) = Unit

    pub recover-Complete :
        (n used : ℕ) (urls : List (List ℕ)) (failed : List ℕ)
        (rest : ℕ → List (List ℕ) → Outcome (Reply (List (Option (List ℕ)))))
        → length urls ≡ n
        → (failed ≡ [] → Returns (Complete n) (rest used urls))
        → ((fresh : List (List ℕ))
            → used < 2
            → length fresh ≡ n
            → Listed refresher first fresh
            → Returns (Complete n) (rest (used + 1) fresh))
        → Returns (Complete n) (recover fetch arrive refresher rest used urls failed)
    unfolding recover
    recover-Complete n used urls [] rest size h k = h refl
    recover-Complete n used urls (f ∷ fs) rest size h k = outer refresher refl
      where
        unrecoverable : Outcome (Reply (List (Option (List ℕ))))
        unrecoverable = ok (fault (codes "hls: segment(s) unrecoverable"))

        inner :
            (refresh : ℕ → Reply SegmentSource)
            → refresher ≡ some refresh
            → used < 2
            → (r : Reply SegmentSource) → refresh used ≡ r
            → Returns (Complete n) (elim r [
              | fault e ↦ ok (fault e)
              | got (init, fresh) ↦
                  if not (length fresh == length urls)
                  then ok (fault (codes "hls: refreshed playlist has a different segment count"))
                  else rest (used + 1) fresh
            ])
        inner refresh e less (fault msg) came = tt
        inner refresh e less (got (init, fresh)) came =
            if-Returns _ (not (length fresh == length urls)) _ _ (λ _. tt)
              λ same. k fresh less (ground arith) (inr (refresh, used, init, e, came))

        outer :
            (o : Option (ℕ → Reply SegmentSource))
            → refresher ≡ o
            → Returns (Complete n) (elim o [
              | none ↦ unrecoverable
              | some refresh ↦
                  if leb max_m3u8_refresh used
                  then ok (fault (codes "hls: segments still failing after m3u8 refresh"))
                  else elim (refresh used) [
                    | fault e ↦ ok (fault e)
                    | got (init, fresh) ↦
                        if not (length fresh == length urls)
                        then ok
                            (fault (codes "hls: refreshed playlist has a different segment count"))
                        else rest (used + 1) fresh
                  ]
            ])
        outer none e = tt
        outer (some refresh) e =
            if-Returns _ (leb max_m3u8_refresh used) _ _ (λ _. tt)
              λ less. inner refresh e (ground arith) (refresh used) refl
