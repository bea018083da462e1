-- ===== src/Storage/Pipeline/Each.antt =====
-- What the loops of the pipeline do to all jobs of a batch, storage/src/pipeline.rs.
use sc_desktop_beautiful.Prelude.{
  List, Option, [], arith, if◌then◌else◌, inl, inr, none, refl, subst, sym, ℕ, ◌+◌, ◌==◌, ◌∙◌, ◌∷◌,
  ◌≡◌, ◌≢◌, ◌⊎◌,
}
use sc_desktop_beautiful.Prelude.Outcome.{Outcome, Returns, Returns-mono, bind-Returns}
use sc_desktop_beautiful.Storage.Files.{Files}
use sc_desktop_beautiful.Storage.Pipeline.{Accepted, Setup, World, for_each}
use sc_desktop_beautiful.Storage.Pipeline.Batch.{Handled, Handles, answers_to}

module _ (s : Setup) where
  -- The path is the source or the staged output of a job.
  abbrev pub Among : List ℕ → List (Accepted s) → Type 0
  Among p [] = ⊥
  Among p (a ∷ more) = (a.0.source ≡ p) ⊎ ((a.2 ≡ p) ⊎ Among p more)

  -- The staged paths are as `P` says.
  abbrev pub AllStaged : (Option ℕ → Type 0) → Files → List (Accepted s) → Type 0
  AllStaged P files [] = Unit
  AllStaged P files (a ∷ more) = P (files a.2) × AllStaged P files more

  -- How many answers a channel is to get.
  abbrev pub owed : ℕ → List (Accepted s) → ℕ
  owed i [] = 0
  owed i (a ∷ more) = (if a.0.id == i then 1 else 0) + owed i more

module _ (s : Setup) (Temp : List ℕ → Type 0) where
  -- The jobs have temporary paths, and no two of these are the same.
  abbrev pub Separate : List (Accepted s) → Type 0
  Separate [] = Unit
  Separate (a ∷ more) =
      Temp a.0.source
      × Temp a.2
      × (a.0.source ≢ a.2)
      × ¬ Among s a.0.source more
      × ¬ Among s a.2 more
      × Separate more

  -- Every job is done with: the files are gone, no other temporary file is touched, and every channel
  -- got as many answers more as it has jobs.
  pub record AllHandled (jobs : List (Accepted s)) (w w' : World) : Type 0 where
    pub gone : (p : List ℕ) → Among s p jobs → w'.files p ≡ none
    pub apart : (p : List ℕ) → Temp p → ¬ Among s p jobs → w'.files p ≡ w.files p
    pub counted : (i : ℕ) → answers_to i w'.answers ≡ answers_to i w.answers + owed s i jobs

  -- A path of the others is neither of the first job's.
  pub Separate-source :
      (a : Accepted s) (more : List (Accepted s)) (p : List ℕ)
      → Separate (a ∷ more)
      → Among s p more
      → a.0.source ≢ p
  Separate-source a more p sep m e = sep.3 (subst (λ q. Among s q more) (sym e) m)

  pub Separate-staged :
      (a : Accepted s) (more : List (Accepted s)) (p : List ℕ)
      → Separate (a ∷ more)
      → Among s p more
      → a.2 ≢ p
  Separate-staged a more p sep m e = sep.4 (subst (λ q. Among s q more) (sym e) m)

  pub Separate-Temp :
      (jobs : List (Accepted s)) (p : List ℕ) → Separate jobs → Among s p jobs → Temp p
  Separate-Temp [] p sep m = absurd m
  Separate-Temp (a ∷ more) p sep (inl e) = subst Temp e sep.0
  Separate-Temp (a ∷ more) p sep (inr (inl e)) = subst Temp e sep.1
  Separate-Temp (a ∷ more) p sep (inr (inr m)) = Separate-Temp more p sep.5 m

  pub AllHandled-nil : (w : World) → AllHandled [] w w
  AllHandled-nil w = record {
    gone = λ p m. absurd m;
    apart = λ p t n. refl;
    counted = λ i. omega arith;
  }

  pub AllHandled-cons :
      (a : Accepted s) (more : List (Accepted s)) (w v u : World)
      → Separate (a ∷ more)
      → Handled s Temp a w v
      → AllHandled more v u
      → AllHandled (a ∷ more) w u
  AllHandled-cons a more w v u sep h rest = record {
    gone = gone;
    apart = λ p t n.
        rest.apart p t (λ m. n (inr (inr m))) ∙ h.apart p t (λ e. n (inl e)) (λ e. n (inr (inl e)));
    counted = λ i. omega (arith, h.counted i, rest.counted i);
  }
    where
      gone : (p : List ℕ) → Among s p (a ∷ more) → u.files p ≡ none
      gone p (inl e) = rw (sym e) (rest.apart a.0.source sep.0 sep.3 ∙ h.source_gone)
      gone p (inr (inl e)) = rw (sym e) (rest.apart a.2 sep.1 sep.4 ∙ h.staged_gone)
      gone p (inr (inr m)) = rest.gone p m

  -- What is staged for the others is the same after a step.
  pub AllStaged-same :
      (P : Option ℕ → Type 0) (jobs : List (Accepted s)) (f g : Files)
      → ((p : List ℕ) → Temp p → Among s p jobs → g p ≡ f p)
      → Separate jobs
      → AllStaged s P f jobs
      → AllStaged s P g jobs
  AllStaged-same P [] f g same sep h = tt
  AllStaged-same P (a ∷ more) f g same sep h = (
    subst P (sym (same a.2 sep.1 (inr (inl refl)))) h.0,
    AllStaged-same P more f g (λ p t m. same p t (inr (inr m))) sep.5 h.1,
  )

  pub for_each-AllHandled :
      (P : Option ℕ → Type 0) (step : Accepted s → World → Outcome World)
      → Handles s Temp P step
      → (jobs : List (Accepted s)) (w : World) → Separate jobs
      → AllStaged s P w.files jobs
      → Returns (AllHandled jobs w) (for_each s step jobs w)
  unfolding for_each
  for_each-AllHandled P step handles [] w sep h = AllHandled-nil w
  for_each-AllHandled P step handles (a ∷ more) w sep h =
      bind-Returns (Handled s Temp a w) (AllHandled (a ∷ more) w) (step a w) _
        (handles a w sep.0 sep.1 sep.2 h.0)
        λ v _ x.
          Returns-mono (AllHandled more v) (AllHandled (a ∷ more) w) _
            (for_each-AllHandled P step handles more v sep.5
              (AllStaged-same P more w.files v.files (others v x) sep.5 h.1))
            λ u _ y. AllHandled-cons a more w v u sep x y
    where
      others :
          (v : World)
          → Handled s Temp a w v
          → (p : List ℕ) → Temp p
          → Among s p more
          → v.files p ≡ w.files p
      others v x p t m =
          x.apart p t (Separate-source a more p sep m) (Separate-staged a more p sep m)

  -- The files of the jobs may change before the loop.
  pub AllHandled-from :
      (jobs : List (Accepted s)) (w w' : World) (f : Files)
      → ((p : List ℕ) → ¬ Among s p jobs → f p ≡ w.files p)
      → AllHandled jobs (record w { files = f }) w'
      → AllHandled jobs w w'
  AllHandled-from jobs w w' f same h = record {
    gone = h.gone;
    apart = λ p t n. h.apart p t n ∙ same p n;
    counted = h.counted;
  }
