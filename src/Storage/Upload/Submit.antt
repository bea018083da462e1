-- ===== src/Storage/Upload/Submit.antt =====
-- The request and the pipeline together, `Pipeline::submit` of storage/src/pipeline.rs.
use sc_desktop_beautiful.Prelude.{
  List, [], Bool, false, true, inl, inr, none, refl, subst, sym, ℕ, ◌∙◌, ◌∷◌, ◌≡◌, ◌≢◌,
}
use sc_desktop_beautiful.Prelude.Outcome.{Outcome, Returns, ok, panic}
use sc_desktop_beautiful.Prelude.Text.{codes, text_differs, text_eq, text_eq_sound}
use sc_desktop_beautiful.Storage.Files.{Files}
use sc_desktop_beautiful.Storage.Pipeline.{
  Answer, PipelineJob, Result, Setup, World, error, internal, probed, run_batch, stage_output,
}
use sc_desktop_beautiful.Storage.Pipeline.Accept.{planned}
use sc_desktop_beautiful.Storage.Pipeline.Answers.{run_batch-AllHandled}
use sc_desktop_beautiful.Storage.Pipeline.Batch.{Lawful}
use sc_desktop_beautiful.Storage.Pipeline.Each.{AllHandled}
use sc_desktop_beautiful.Storage.Upload.{Config, Submit, tmp_path}
use sc_desktop_beautiful.Storage.Upload.Clean.{But}

-- What came on the channel of the job.
unfoldable pub answer_of : List Answer → Result
answer_of [] = error (internal (codes "dispatcher dropped reply"))
answer_of (a ∷ more) = a.result

unfoldable pub submitted : Files → Outcome World → Result × Files
submitted files panic = (error (internal (codes "dispatcher dropped reply")), files)
submitted files (ok w) = (answer_of w.answers, w.files)

-- `Pipeline::submit` of a job that is a batch of its own; `staged` is the fresh name of its output.
unfoldable pub submit : Setup → List ℕ → Submit
submit s staged tmp name files = submitted files (
    run_batch s (record { id = 0; source = tmp; filename = name; staged = staged } ∷ [])
      (record { files = files; answers = []; published = [] }))

module _ (s : Setup) (Temp : List ℕ → Type 0) (law : Lawful s Temp) (files : Files) (cfg : Config)
    (staged : List ℕ) (inputs : (id : List ℕ) → Temp (tmp_path cfg.source_path id))
    (outputs : (job : PipelineJob) → Temp (stage_output s.result_path job))
    (other : (id : List ℕ) (job : PipelineJob)
      → tmp_path cfg.source_path id ≢ stage_output s.result_path job)
    (clear : (job : PipelineJob) → files (stage_output s.result_path job) ≡ none) where
  job_of : List ℕ → List ℕ → PipelineJob
  job_of tmp name = record { id = 0; source = tmp; filename = name; staged = staged }

  Handled-one :
      (tmp name : List ℕ) (f : Files) (out : Outcome World)
      → f (stage_output s.result_path (job_of tmp name)) ≡ none
      → Returns
          (AllHandled s Temp
            (planned s (probed s f (job_of tmp name ∷ [])))
            (record { files = f; answers = []; published = [] }))
          out
      → ((submitted f out).1 tmp ≡ none)
        × ((p : List ℕ) → Temp p → tmp ≢ p → (submitted f out).1 p ≡ f p)
  unfolding submitted job_of
  Handled-one tmp name f panic h r = absurd r
  Handled-one tmp name f (ok w) h r = (
    r.gone tmp (inl refl),
    λ p t ne. go p t ne (text_eq (stage_output s.result_path (job_of tmp name)) p) refl,
  )
    where
      go :
          (p : List ℕ)
          → Temp p
          → tmp ≢ p
          → (b : Bool) → text_eq (stage_output s.result_path (job_of tmp name)) p ≡ b
          → w.files p ≡ f p
      go p t ne true e =
          let same = text_eq_sound (stage_output s.result_path (job_of tmp name)) p e in
          subst (λ q. w.files q ≡ f q) same (r.gone _ (inr (inl refl)) ∙ sym h)
      go p t ne false e =
          r.apart p t
            λ m. elim m [ inl a ↦ ne a | inr (inl a) ↦ text_differs _ p e a | inr (inr a) ↦ a ]

  pub submit-Submits :
      (tmp name : List ℕ) (f : Files)
      → But files cfg tmp f
      → ((submit s staged tmp name f).1 tmp ≡ none)
        × ((p : List ℕ) → Temp p → tmp ≢ p → (submit s staged tmp name f).1 p ≡ f p)
  unfolding submit job_of
  submit-Submits tmp name f h =
      let job = job_of tmp name in
      let stage = stage_output s.result_path job in
      let ne : tmp ≢ stage = λ z. other h.0.0 job (sym h.0.1 ∙ z) in
      let none_staged : f stage ≡ none = h.2 stage ne ∙ clear job in
      Handled-one tmp name f _ none_staged (
        run_batch-AllHandled s Temp law (job ∷ [])
          (record { files = f; answers = []; published = [] })
          (subst Temp (sym h.0.1) (inputs h.0.0), outputs job, ne, λ m. m, λ m. m, tt)
          (none_staged, tt))
