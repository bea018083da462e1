-- ===== src/Storage/Local/Commit.antt =====
-- What a commit of storage/src/backend/local.rs does to the files.
use sc_desktop_beautiful.Prelude.{
  List, Option, ap, arith, false, if-cases, subst, if◌then◌else◌, inl, inr, none, not, refl, some,
  sym, true, ℕ, ◌∙◌, ◌≡◌, ◌≢◌, ◌⊎◌,
}
use mathlib.Core.Option.{some-injective}
use sc_desktop_beautiful.Storage.Files.{
  Files, remove, remove_ne, remove_self, write, write_ne, write_self,
}
use sc_desktop_beautiful.Storage.Local.{
  BackendError, Committed, Renamed, Syscalls, commit_transcode, cross_device, done, failed, fine,
  io, is_long_enough, is_some, move_file, move_or_copy_file, moved, probe, refused, replace_file,
  replaced, should_keep_existing,
}

module _ (sys : Syscalls) (e : List ℕ) (lasts : ℕ → Option ℕ) (dst stage src : List ℕ)
    (files : Files) where
  -- The old track was lost: it was removed to make room, and then the new one could not be moved in.
  abbrev pub Lost : Files → Type 0
  Lost files' =
      (sys.replaces ≡ false)
      × (sys.removes_old ≡ true)
      × (sys.replaces_again ≡ false)
      × (files' dst ≡ none)

  -- After a success the source and the staged file are gone, and the key holds the old track, which is
  -- long enough, or the new one. After a failure the staged file is gone, and the key holds the old
  -- track unless that was lost.
  abbrev pub Settled : Committed × Files → Type 0
  Settled (fine, files') =
      (files' src ≡ none)
      × (files' stage ≡ none)
      × (((files' dst ≡ files dst)
            × (is_long_enough (probe lasts (files dst)) (probe lasts (files src)) ≡ true))
          ⊎ ((files' dst ≡ files src) × (is_some (files src) ≡ true)))
  Settled (failed err, files') = (files' stage ≡ none) × ((files' dst ≡ files dst) ⊎ Lost files')

  abbrev Loose : Committed × Files → Type 0
  Loose (fine, files') =
      (files' src ≡ none)
      × ((files' stage ≡ none) ⊎ (files' stage ≡ files stage))
      × (((files' dst ≡ files dst)
            × (is_long_enough (probe lasts (files dst)) (probe lasts (files src)) ≡ true))
          ⊎ ((files' dst ≡ files src) × (is_some (files src) ≡ true)))
  Loose (failed err, files') =
      ((files' stage ≡ none) ⊎ (files' stage ≡ files stage))
      × ((files' dst ≡ files dst) ⊎ Lost files')

  module _ (sd : src ≢ dst) (st : src ≢ stage) (td : stage ≢ dst) where
    gone_by : (out : Committed × Files) → Loose out → out.0 ≡ fine → out.1 src ≡ none
    gone_by (fine, f) l h = l.0
    gone_by (failed err, f) l h = cc

    -- A failure that is tidied up leaves the key as the step before it did.
    tidied :
        (err : BackendError) (f : Files)
        → (f dst ≡ files dst) ⊎ Lost f
        → Loose (failed err, remove stage f)
    tidied err f h =
        let away : remove stage f dst ≡ f dst = remove_ne stage dst f td in
        (
          inl (remove_self stage f),
          elim h [
            | inl same ↦ inl (away ∙ same)
            | inr (a, b, c, gone) ↦ inr (a, b, c, away ∙ gone)
          ],
        )

    replaced-Loose :
        (f : Files) (c : ℕ)
        → f stage ≡ some c
        → f src ≡ none
        → f dst ≡ files dst
        → files src ≡ some c
        → Loose (replaced sys e stage (replace_file sys e stage dst f))
    unfolding is_some replace_file replaced
    replaced-Loose f c at gone same old = go (f stage) at
      where
        there : is_some (files src) ≡ true
        there = ap is_some old

        stored : (g : Files) → g src ≡ none → g stage ≡ none → Loose (fine, write dst c g)
        stored g a b = (
          write_ne dst src c g (λ z. sd (sym z)) ∙ a,
          inl (write_ne dst stage c g (λ z. td (sym z)) ∙ b),
          inr (write_self dst c g ∙ sym old, there),
        )

        go :
            (o : Option ℕ)
            → o ≡ some c
            → Loose (
                replaced sys e stage (elim o [
                  | none ↦ (failed (io e), f)
                  | some content ↦
                      if sys.replaces
                      then (fine, write dst content (remove stage f))
                      else if not (is_some (f dst))
                      then (failed (io e), f)
                      else if not sys.removes_old
                      then (failed (io e), f)
                      else if not sys.replaces_again
                      then (failed (io e), remove dst f)
                      else (fine, write dst content (remove stage (remove dst f)))
                ]))
        go none z = cc
        go (some content) z =
            let P : Committed × Files → Type 0 = λ o. Loose (replaced sys e stage o) in
            let eq : content ≡ c = some-injective _ _ z in
            if-cases P sys.replaces _ _
              (λ _.
                subst (λ k. Loose (fine, write dst k (remove stage f))) (sym eq)
                  (stored (remove stage f) (remove_ne stage src f (λ z. st (sym z)) ∙ gone)
                    (remove_self stage f)))
              λ first.
                if-cases P (not (is_some (f dst))) _ _ (λ _. tidied (io e) f (inl same))
                  λ _.
                    if-cases P (not sys.removes_old) _ _ (λ _. tidied (io e) f (inl same))
                      λ removed.
                        if-cases P (not sys.replaces_again) _ _
                          (λ again.
                            tidied (io e) (remove dst f)
                              (inr (first, ground arith, ground arith, remove_self dst f)))
                          λ _.
                            subst (λ k. Loose (fine, write dst k (remove stage (remove dst f))))
                              (sym eq)
                              (stored (remove stage (remove dst f))
                                (remove_ne stage src (remove dst f) (λ z. st (sym z))
                                  ∙ remove_ne dst src f (λ z. sd (sym z))
                                  ∙ gone)
                                (remove_self stage (remove dst f)))

    moved-Loose :
        (c : ℕ)
        → files src ≡ some c
        → (r : Renamed) → Loose (moved sys e stage dst (move_file sys e r src stage c files))
    unfolding moved move_file
    moved-Loose c old done =
        replaced-Loose (write stage c (remove src files)) c (write_self stage c (remove src files))
          (write_ne stage src c (remove src files) (λ z. st (sym z)) ∙ remove_self src files)
          (write_ne stage dst c (remove src files) td ∙ remove_ne src dst files sd) old
    moved-Loose c old (refused r) = tidied (io r) files (inl refl)
    moved-Loose c old cross_device =
        let P : Committed × Files → Type 0 = λ o. Loose (moved sys e stage dst o) in
        if-cases P (not sys.copies) _ _ (λ _. tidied (io e) files (inl refl))
          λ _.
            if-cases P (not sys.removes_source) _ _
              (λ _. tidied (io e) (write stage c files) (inl (write_ne stage dst c files td)))
              λ _.
                replaced-Loose (remove src (write stage c files)) c
                  (remove_ne src stage (write stage c files) st ∙ write_self stage c files)
                  (remove_self src (write stage c files))
                  (remove_ne src dst (write stage c files) sd ∙ write_ne stage dst c files td) old

    commit_transcode-Loose : Loose (commit_transcode sys e lasts dst stage src files)
    unfolding commit_transcode move_or_copy_file moved should_keep_existing
    commit_transcode-Loose =
        if-cases Loose (should_keep_existing lasts dst src files) _ _
          (λ keep. (
            remove_self src files,
            inr (remove_ne src stage files st),
            inl (remove_ne src dst files sd, kept keep),
          ))
          λ _.
            if-cases Loose (not sys.makes_dir) _ _ (λ _. (inr refl, inl refl))
              λ _. go (files src) refl
      where
        kept :
            should_keep_existing lasts dst src files ≡ true
            → is_long_enough (probe lasts (files dst)) (probe lasts (files src)) ≡ true
        kept h = ground arith

        go :
            (o : Option ℕ)
            → files src ≡ o
            → Loose (
                moved sys e stage dst (elim o [
                  | none ↦ (failed (io e), files)
                  | some content ↦ move_file sys e sys.moves src stage content files
                ]))
        go none z = tidied (io e) files (inl refl)
        go (some c) z = moved-Loose c z sys.moves

    -- A success takes the source away, also where the staged path was not clear.
    pub commit_transcode-gone :
        (commit_transcode sys e lasts dst stage src files).0 ≡ fine
        → (commit_transcode sys e lasts dst stage src files).1 src ≡ none
    commit_transcode-gone = gone_by _ commit_transcode-Loose
