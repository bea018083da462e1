-- ===== src/Storage/Pipeline/Accept.antt =====
-- Which jobs of a batch are accepted, `run_batch` of storage/src/pipeline.rs.
use sc_desktop_beautiful.Prelude.{
  List, [], arith, if-cases, inl, inr, none, refl, subst, ℕ, ◌+◌, ◌∙◌, ◌∷◌, ◌≡◌, ◌≢◌, ◌⊎◌,
}
use sc_desktop_beautiful.Storage.Files.{remove, remove_ne, remove_self}
use sc_desktop_beautiful.Storage.Pipeline.{
  Accepted, PipelineJob, Setup, World, accept, error, is_too_short, min_upload_duration,
  stage_output, track_too_short,
}
use sc_desktop_beautiful.Storage.Pipeline.Batch.{Handled, answers_to}
use sc_desktop_beautiful.Storage.Pipeline.Each.{
  AllHandled, AllStaged, AllStaged-same, Among, Separate, Separate-source, Separate-staged, owed,
}

module _ (s : Setup) where
  -- The jobs as they would be accepted.
  abbrev pub planned : List (PipelineJob × ℕ) → List (Accepted s)
  planned [] = []
  planned ((job, secs) ∷ jobs) = (job, secs, stage_output s.result_path job) ∷ planned jobs

-- What is accepted of the jobs, and what of them is done with.
module _ (s : Setup) (Temp : List ℕ → Type 0) where
  pub record Chosen (jobs : List (Accepted s)) (w : World) (out : List (Accepted s) × World)
      : Type 0 where
    pub chosen : (p : List ℕ) → Among s p out.0 → Among s p jobs
    pub separate : Separate s Temp out.0
    pub staged : AllStaged s (λ v. v ≡ none) out.1.files out.0
    pub done :
        (p : List ℕ)
        → Among s p jobs
        → Among s p out.0 ⊎ (¬ Among s p out.0 × (out.1.files p ≡ none))
    pub apart : (p : List ℕ) → Temp p → ¬ Among s p jobs → out.1.files p ≡ w.files p
    pub counted :
        (i : ℕ)
        → answers_to i out.1.answers + owed s i out.0 ≡ answers_to i w.answers + owed s i jobs

  pub Chosen-AllHandled :
      (jobs : List (Accepted s)) (w : World) (out : List (Accepted s) × World) (u : World)
      → ((p : List ℕ) → Among s p jobs → Temp p)
      → Chosen jobs w out
      → AllHandled s Temp out.0 out.1 u
      → AllHandled s Temp jobs w u
  Chosen-AllHandled jobs w out u temp c h = record {
    gone = λ p m. gone p (temp p m) (c.done p m);
    apart = λ p t n. h.apart p t (λ m. n (c.chosen p m)) ∙ c.apart p t n;
    counted = λ i. omega (arith, h.counted i, c.counted i);
  }
    where
      gone :
          (p : List ℕ)
          → Temp p
          → Among s p out.0 ⊎ (¬ Among s p out.0 × (out.1.files p ≡ none))
          → u.files p ≡ none
      gone p t (inl m) = h.gone p m
      gone p t (inr (n, e)) = h.apart p t n ∙ e

  Chosen-cons :
      (job : PipelineJob) (secs : ℕ) (jobs : List (Accepted s)) (w : World)
      (out : List (Accepted s) × World)
      → let a : Accepted s = (job, secs, stage_output s.result_path job) in
        Separate s Temp (a ∷ jobs)
        → w.files a.2 ≡ none
        → Chosen jobs w out
        → Chosen (a ∷ jobs) w (a ∷ out.0, out.1)
  Chosen-cons job secs jobs w out sep h c = record {
    chosen = chosen;
    separate = (
      sep.0,
      sep.1,
      sep.2,
      λ m. sep.3 (c.chosen job.source m),
      λ m. sep.4 (c.chosen staged_at m),
      c.separate,
    );
    staged = (c.apart staged_at sep.1 sep.4 ∙ h, c.staged);
    done = done;
    apart = λ p t n. c.apart p t λ m. n (inr (inr m));
    counted = λ i. omega (arith, c.counted i);
  }
    where
      staged_at : List ℕ
      staged_at = stage_output s.result_path job

      chosen :
          (p : List ℕ)
          → Among s p ((job, secs, staged_at) ∷ out.0)
          → Among s p ((job, secs, staged_at) ∷ jobs)
      chosen p (inl e) = inl e
      chosen p (inr (inl e)) = inr (inl e)
      chosen p (inr (inr m)) = inr (inr (c.chosen p m))

      skipped :
          (p : List ℕ)
          → Among s p jobs
          → Among s p out.0 ⊎ (¬ Among s p out.0 × (out.1.files p ≡ none))
          → Among s p ((job, secs, staged_at) ∷ out.0)
            ⊎ (¬ Among s p ((job, secs, staged_at) ∷ out.0) × (out.1.files p ≡ none))
      skipped p m (inl a) = inl (inr (inr a))
      skipped p m (inr (n, e)) = inr (
        λ x. elim x [
          | inl y ↦ Separate-source s Temp (job, secs, staged_at) jobs p sep m y
          | inr (inl y) ↦ Separate-staged s Temp (job, secs, staged_at) jobs p sep m y
          | inr (inr y) ↦ n y
        ],
        e,
      )

      done :
          (p : List ℕ)
          → Among s p ((job, secs, staged_at) ∷ jobs)
          → Among s p ((job, secs, staged_at) ∷ out.0)
            ⊎ (¬ Among s p ((job, secs, staged_at) ∷ out.0) × (out.1.files p ≡ none))
      done p (inl e) = inl (inl e)
      done p (inr (inl e)) = inl (inr (inl e))
      done p (inr (inr m)) = skipped p m (c.done p m)

  Chosen-skip :
      (a : Accepted s) (jobs : List (Accepted s)) (w v : World) (out : List (Accepted s) × World)
      → Separate s Temp (a ∷ jobs)
      → Handled s Temp a w v
      → Chosen jobs v out
      → Chosen (a ∷ jobs) w out
  Chosen-skip a jobs w v out sep h c = record {
    chosen = λ p m. inr (inr (c.chosen p m));
    separate = c.separate;
    staged = c.staged;
    done = done;
    apart = λ p t n.
        c.apart p t (λ m. n (inr (inr m))) ∙ h.apart p t (λ e. n (inl e)) (λ e. n (inr (inl e)));
    counted = λ i. omega (arith, c.counted i, h.counted i);
  }
    where
      away :
          (p : List ℕ)
          → Temp p
          → ¬ Among s p jobs
          → v.files p ≡ none
          → ¬ Among s p out.0 × (out.1.files p ≡ none)
      away p t n e = (λ m. n (c.chosen p m), c.apart p t n ∙ e)

      done :
          (p : List ℕ)
          → Among s p (a ∷ jobs)
          → Among s p out.0 ⊎ (¬ Among s p out.0 × (out.1.files p ≡ none))
      done p (inl e) = inr (
          subst (λ q. ¬ Among s q out.0 × (out.1.files q ≡ none)) e
            (away a.0.source sep.0 sep.3 h.source_gone))
      done p (inr (inl e)) = inr (
          subst (λ q. ¬ Among s q out.0 × (out.1.files q ≡ none)) e
            (away a.2 sep.1 sep.4 h.staged_gone))
      done p (inr (inr m)) = c.done p m

  -- A job that is too short is done with at once.
  turned_away-Handled :
      (a : Accepted s) (w : World)
      → a.0.source ≢ a.2
      → w.files a.2 ≡ none
      → Handled s Temp a w (record w {
        files = remove a.0.source w.files;
        answers =
            record { id = a.0.id; result = error (track_too_short a.1 min_upload_duration) }
            ∷ w.answers;
      })
  turned_away-Handled a w ne h = record {
    source_gone = remove_self a.0.source w.files;
    staged_gone = remove_ne a.0.source a.2 w.files ne ∙ h;
    apart = λ p t x y. remove_ne a.0.source p w.files x;
    counted = λ i. omega arith;
  }

  pub accept-Chosen :
      (jobs : List (PipelineJob × ℕ)) (w : World)
      → Separate s Temp (planned s jobs)
      → AllStaged s (λ v. v ≡ none) w.files (planned s jobs)
      → Chosen (planned s jobs) w (accept s jobs w)
  unfolding accept
  accept-Chosen [] w sep h = record {
    chosen = λ p m. m;
    separate = tt;
    staged = tt;
    done = λ p m. absurd m;
    apart = λ p t n. refl;
    counted = λ i. refl;
  }
  accept-Chosen ((job, secs) ∷ jobs) w sep h =
      let a : Accepted s = (job, secs, stage_output s.result_path job) in
      let v : World = record w {
        files = remove job.source w.files;
        answers =
            record { id = job.id; result = error (track_too_short secs min_upload_duration) }
            ∷ w.answers;
      } in
      if-cases (Chosen (a ∷ planned s jobs) w) (is_too_short s secs) _ _
        (λ _. Chosen-skip a (planned s jobs) w v _ sep (turned_away-Handled a w sep.2 h.0) (
          accept-Chosen jobs v sep.5 (
            AllStaged-same s Temp (λ x. x ≡ none) (planned s jobs) w.files v.files
              (λ p t m.
                remove_ne job.source p w.files (Separate-source s Temp a (planned s jobs) p sep m))
              sep.5 h.1)))
        (λ _. Chosen-cons job secs (planned s jobs) w _ sep h.0 (accept-Chosen jobs w sep.5 h.1))
