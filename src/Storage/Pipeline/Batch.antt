-- ===== src/Storage/Pipeline/Batch.antt =====
-- What the steps of the pipeline do to one job, storage/src/pipeline.rs.
use sc_desktop_beautiful.Prelude.{
  List, Option, [], arith, false, if-cases, if◌then◌else◌, leb, none, refl, some, suc, zero, ℕ, ◌+◌,
  ◌<◌, ◌==◌, ◌∙◌, ◌∷◌, ◌≡◌, ◌≢◌,
}
use sc_desktop_beautiful.Prelude.Outcome.{Outcome, Returns, Returns-mono, bind-Returns}
use sc_desktop_beautiful.Storage.Files.{Files, remove, remove_ne, remove_self, write, write_ne}
use sc_desktop_beautiful.Storage.Local.{Committed, failed, fine, io, not_found, other}
use sc_desktop_beautiful.Storage.Pipeline.{
  Accepted, Answer, PipelineError, Ran, Setup, World, answered, attempted, commit_single, encoded,
  exited, give_up, key_for, not_started, process_writer_job, remove_outputs, retried, retry_single,
  run_ffmpeg_batch, spawn_commit, swept, write_outputs,
}

-- How many answers a channel got.
abbrev pub answers_to : ℕ → List Answer → ℕ
answers_to i [] = 0
answers_to i (a ∷ more) = (if a.id == i then 1 else 0) + answers_to i more

-- What the pipeline relies on: a commit that succeeds takes its source away, and no commit touches
-- another temporary path.
pub record Lawful (s : Setup) (Temp : List ℕ → Type 0) : Type 0 where
  pub gone :
      (n : ℕ) (src filename : List ℕ) (files : Files)
      → Temp src
      → (s.commit_transcode n (key_for filename) src filename files).0 ≡ fine
      → (s.commit_transcode n (key_for filename) src filename files).1 src ≡ none
  pub apart :
      (n : ℕ) (src filename : List ℕ) (files : Files) (p : List ℕ)
      → Temp p
      → src ≢ p
      → (s.commit_transcode n (key_for filename) src filename files).1 p ≡ files p

module _ (s : Setup) (Temp : List ℕ → Type 0) where
  -- One job is done with: its two files are gone, it has one answer more, and no other job has.
  pub record Handled (a : Accepted s) (w w' : World) : Type 0 where
    pub source_gone : w'.files a.0.source ≡ none
    pub staged_gone : w'.files a.2 ≡ none
    pub apart : (p : List ℕ) → Temp p → a.0.source ≢ p → a.2 ≢ p → w'.files p ≡ w.files p
    pub counted :
        (i : ℕ) → answers_to i w'.answers ≡ answers_to i w.answers + (if a.0.id == i then 1 else 0)

  -- A step that is done with a job whose staged path is as `P` says.
  abbrev pub Handles : (Option ℕ → Type 0) → (Accepted s → World → Outcome World) → Type 0
  Handles P step =
      (a : Accepted s) (w : World)
      → Temp a.0.source
      → Temp a.2
      → a.0.source ≢ a.2
      → P (w.files a.2)
      → Returns (Handled a w) (step a w)

module _ (s : Setup) (Temp : List ℕ → Type 0) (law : Lawful s Temp) where
  abbrev Apart : List ℕ → Files → Files → Type 0
  Apart src files f = (p : List ℕ) → Temp p → src ≢ p → f p ≡ files p

  abbrev Written : List ℕ → Files → Option PipelineError × Files → Type 0
  Written src files (none, f) = (f src ≡ none) × Apart src files f
  Written src files (some e, f) = Apart src files f

  attempted-Written :
      (attempt : ℕ) (src : List ℕ) (files : Files) (out : Committed × Files)
      (rest : Outcome (Option PipelineError × Files))
      → (out.0 ≡ fine → out.1 src ≡ none)
      → Apart src files out.1
      → (leb (s.upload_retries + 1) (attempt + 1) ≡ false → Returns (Written src files) rest)
      → Returns (Written src files) (attempted s attempt src rest out)
  unfolding attempted
  attempted-Written attempt src files (fine, f) rest gone apart later = (gone refl, apart)
  attempted-Written attempt src files (failed not_found, f) rest gone apart later = apart
  attempted-Written attempt src files (failed (io m), f) rest gone apart later =
      if-cases (Returns (Written src files)) (leb (s.upload_retries + 1) (attempt + 1)) _ _
        (λ _ p t ne. remove_ne src p f ne ∙ apart p t ne) later
  attempted-Written attempt src files (failed (other m), f) rest gone apart later =
      if-cases (Returns (Written src files)) (leb (s.upload_retries + 1) (attempt + 1)) _ _
        (λ _ p t ne. remove_ne src p f ne ∙ apart p t ne) later

  -- The attempts come to an end.
  process_writer_job-Written :
      (left attempt : ℕ) (src filename : List ℕ) (files : Files)
      → Temp src
      → 0 < left
      → attempt + left ≡ s.upload_retries + 1
      → Returns
          (Written src files)
          (process_writer_job s left attempt (key_for filename) src filename files)
  unfolding process_writer_job
  process_writer_job-Written zero attempt src filename files t h e = absurd (omega arith)
  process_writer_job-Written (suc left) attempt src filename files t h e =
      let out = s.commit_transcode attempt (key_for filename) src filename files in
      attempted-Written attempt src files out _ (law.gone attempt src filename files t)
        (law.apart attempt src filename files)
        λ more.
          Returns-mono (Written src out.1) (Written src files) _
            (process_writer_job-Written left (attempt + 1) src filename out.1 t (ground arith)
              (omega arith))
            λ o _ w. later out.1 o (law.apart attempt src filename files) w
    where
      later :
          (f : Files) (o : Option PipelineError × Files)
          → Apart src files f
          → Written src f o
          → Written src files o
      later f (none, g) a (gone, b) = (gone, λ p t ne. b p t ne ∙ a p t ne)
      later f (some x, g) a b = λ p t ne. b p t ne ∙ a p t ne

  commit_single-Swept :
      (filename tmp : List ℕ) (files : Files)
      → Temp tmp
      → Returns (λ o. (o.1 tmp ≡ none) × Apart tmp files o.1) (commit_single s filename tmp files)
  unfolding commit_single swept
  commit_single-Swept filename tmp files t =
      bind-Returns (Written tmp files) _ _ _
        (process_writer_job-Written (s.upload_retries + 1) 0 tmp filename files t (omega arith)
          (omega arith))
        λ o _ w. clean o w
    where
      clean :
          (o : Option PipelineError × Files)
          → Written tmp files o
          → ((swept s tmp o).1 tmp ≡ none) × Apart tmp files (swept s tmp o).1
      clean (none, f) w = w
      clean (some e, f) w = (remove_self tmp f, λ p t ne. remove_ne tmp p f ne ∙ w p t ne)

  pub spawn_commit-Handles : Handles s Temp (λ v. Unit {0}) (spawn_commit s)
  unfolding answered spawn_commit
  spawn_commit-Handles a w t u ne h =
      bind-Returns (λ o. (o.1 a.2 ≡ none) × Apart a.2 w.files o.1) (Handled s Temp a w) _ _
        (commit_single-Swept a.0.filename a.2 w.files u) λ o _ c. done o c
    where
      done :
          (o : Option PipelineError × Files)
          → (o.1 a.2 ≡ none) × Apart a.2 w.files o.1
          → Handled s Temp a w (answered s a w o)
      done (none, f) (gone, apart) = record {
        source_gone = remove_self a.0.source f;
        staged_gone = remove_ne a.0.source a.2 f ne ∙ gone;
        apart = λ p t x y. remove_ne a.0.source p f x ∙ apart p t y;
        counted = λ i. omega arith;
      }
      done (some e, f) (gone, apart) = record {
        source_gone = remove_self a.0.source f;
        staged_gone = remove_ne a.0.source a.2 f ne ∙ gone;
        apart = λ p t x y. remove_ne a.0.source p f x ∙ apart p t y;
        counted = λ i. omega arith;
      }

  pub give_up-Handles : (m : List ℕ) → Handles s Temp (λ v. v ≡ none) (give_up s m)
  unfolding give_up
  give_up-Handles m a w t u ne h = record {
    source_gone = remove_self a.0.source w.files;
    staged_gone = remove_ne a.0.source a.2 w.files ne ∙ h;
    apart = λ p t x y. remove_ne a.0.source p w.files x;
    counted = λ i. omega arith;
  }

  -- The files of a job may change before a step is done with it.
  pub Handled-from :
      (a : Accepted s) (w w' : World) (f : Files)
      → ((p : List ℕ) → a.2 ≢ p → f p ≡ w.files p)
      → Handled s Temp a (record w { files = f }) w'
      → Handled s Temp a w w'
  Handled-from a w w' f same h = record {
    source_gone = h.source_gone;
    staged_gone = h.staged_gone;
    apart = λ p t x y. h.apart p t x y ∙ same p y;
    counted = h.counted;
  }

  pub retry_single-Handles : Handles s Temp (λ v. v ≡ none) (retry_single s)
  unfolding retried retry_single run_ffmpeg_batch write_outputs remove_outputs
  retry_single-Handles a w t u ne h = retry (s.run (a.0.source ∷ []))
    where
      moved_to :
          (f : Files) (out : Outcome World)
          → ((p : List ℕ) → a.2 ≢ p → f p ≡ w.files p)
          → Returns (Handled s Temp a (record w { files = f })) out
          → Returns (Handled s Temp a w) out
      moved_to f out same r =
          Returns-mono (Handled s Temp a (record w { files = f })) (Handled s Temp a w) out r
            λ w' _ x. Handled-from a w w' f same x

      retry :
          (r : Ran)
          → Returns
              (Handled s Temp a w)
              (retried s a w (run_ffmpeg_batch s.encode r ((a.0.source, a.2) ∷ []) w.files))
      retry encoded =
          let f = write a.2 (s.encode (w.files a.0.source)) w.files in
          moved_to f _ (λ p x. write_ne a.2 p _ w.files x)
            (spawn_commit-Handles a (record w { files = f }) t u ne tt)
      retry (exited m) =
          let f = remove a.2 w.files in
          moved_to f _ (λ p x. remove_ne a.2 p w.files x)
            (give_up-Handles m a (record w { files = f }) t u ne (remove_self a.2 w.files))
      retry (not_started m) = give_up-Handles m a w t u ne h
