-- ===== src/Storage/Pipeline/Answers.antt =====
-- Every job of a batch is answered, `run_batch` of storage/src/pipeline.rs.
use sc_desktop_beautiful.Prelude.{List, [], if-cases, inl, inr, none, refl, some, ℕ, ◌∙◌, ◌∷◌, ◌≡◌}
use sc_desktop_beautiful.Prelude.Outcome.{Returns, Returns-mono}
use sc_desktop_beautiful.Storage.Files.{Files, remove, remove_ne, write_ne}
use sc_desktop_beautiful.Storage.Pipeline.{
  Accepted, PipelineJob, Ran, Setup, World, accept, batch_ran, encoded, exited, for_each, give_up,
  not_started, paths, probed, remove_outputs, retry_single, run_accepted, run_batch,
  run_ffmpeg_batch, spawn_commit, write_outputs,
}
use sc_desktop_beautiful.Storage.Pipeline.Accept.{Chosen-AllHandled, accept-Chosen, planned}
use sc_desktop_beautiful.Storage.Pipeline.Batch.{
  Lawful, give_up-Handles, retry_single-Handles, spawn_commit-Handles,
}
use sc_desktop_beautiful.Storage.Pipeline.Each.{
  AllHandled, AllHandled-cons, AllHandled-nil, AllStaged, AllHandled-from, Among, Separate,
  Separate-Temp, for_each-AllHandled,
}

-- What ffmpeg leaves of the files.
module _ (s : Setup) where
  write_outputs-apart :
      (jobs : List (Accepted s)) (files : Files) (p : List ℕ)
      → ¬ Among s p jobs
      → write_outputs s.encode (paths s jobs) files p ≡ files p
  unfolding write_outputs
  write_outputs-apart [] files p n = refl
  write_outputs-apart (a ∷ more) files p n =
      write_outputs-apart more _ p (λ m. n (inr (inr m)))
      ∙ write_ne a.2 p _ files (λ e. n (inr (inl e)))

  remove_outputs-apart :
      (jobs : List (Accepted s)) (files : Files) (p : List ℕ)
      → ¬ Among s p jobs
      → remove_outputs (paths s jobs) files p ≡ files p
  unfolding remove_outputs
  remove_outputs-apart [] files p n = refl
  remove_outputs-apart (a ∷ more) files p n =
      remove_outputs-apart more _ p (λ m. n (inr (inr m)))
      ∙ remove_ne a.2 p files (λ e. n (inr (inl e)))

  remove_outputs-none :
      (jobs : List (Accepted s)) (files : Files) (p : List ℕ)
      → files p ≡ none
      → remove_outputs (paths s jobs) files p ≡ none
  unfolding remove_outputs remove
  remove_outputs-none [] files p h = h
  remove_outputs-none (a ∷ more) files p h =
      remove_outputs-none more (remove a.2 files) p
        (if-cases (λ v. v ≡ none) _ _ _ (λ _. refl) (λ _. h))

  remove_outputs-AllStaged :
      (jobs later : List (Accepted s)) (files : Files)
      → AllStaged s (λ v. v ≡ none) files jobs
      → AllStaged s (λ v. v ≡ none) (remove_outputs (paths s later) files) jobs
  remove_outputs-AllStaged [] later files h = tt
  remove_outputs-AllStaged (a ∷ more) later files h =
      (remove_outputs-none later files a.2 h.0, remove_outputs-AllStaged more later files h.1)

module _ (s : Setup) (Temp : List ℕ → Type 0) (law : Lawful s Temp) where
  all_ready : (files : Files) (jobs : List (Accepted s)) → AllStaged s (λ _. Unit {0}) files jobs
  all_ready files [] = tt
  all_ready files (a ∷ more) = (tt, all_ready files more)

  spawned :
      (jobs : List (Accepted s)) (w : World) (f : Files)
      → Separate s Temp jobs
      → ((p : List ℕ) → ¬ Among s p jobs → f p ≡ w.files p)
      → Returns
          (AllHandled s Temp jobs w)
          (for_each s (spawn_commit s) jobs (record w { files = f }))
  spawned jobs w f sep same =
      Returns-mono (AllHandled s Temp jobs (record w { files = f })) (AllHandled s Temp jobs w) _
        (for_each-AllHandled s Temp (λ v. Unit {0}) (spawn_commit s)
          (spawn_commit-Handles s Temp law) jobs (record w { files = f }) sep (all_ready f jobs))
        λ u _ x. AllHandled-from s Temp jobs w u f same x

  -- The batch failed, and nothing is staged.
  failed_batch :
      (a : Accepted s) (more : List (Accepted s)) (w : World) (m : List ℕ) (f : Files)
      → Separate s Temp (a ∷ more)
      → AllStaged s (λ v. v ≡ none) f (a ∷ more)
      → ((p : List ℕ) → ¬ Among s p (a ∷ more) → f p ≡ w.files p)
      → Returns (AllHandled s Temp (a ∷ more) w) (batch_ran s (a ∷ more) w (some m, f))
  unfolding batch_ran give_up
  failed_batch a [] w m f sep h same = AllHandled-from s Temp (a ∷ []) w _ f same (
      AllHandled-cons s Temp a [] (record w { files = f }) _ _ sep
        (give_up-Handles s Temp law m a (record w { files = f }) sep.0 sep.1 sep.2 h.0)
        (AllHandled-nil s Temp _))
  failed_batch a (b ∷ more) w m f sep h same =
      Returns-mono (AllHandled s Temp (a ∷ b ∷ more) (record w { files = f }))
        (AllHandled s Temp (a ∷ b ∷ more) w) _
        (for_each-AllHandled s Temp (λ v. v ≡ none) (retry_single s)
          (retry_single-Handles s Temp law) (a ∷ b ∷ more) (record w { files = f }) sep h)
        λ u _ x. AllHandled-from s Temp (a ∷ b ∷ more) w u f same x

  batch_ran-AllHandled :
      (a : Accepted s) (more : List (Accepted s)) (w : World)
      → Separate s Temp (a ∷ more)
      → AllStaged s (λ v. v ≡ none) w.files (a ∷ more)
      → (r : Ran)
      → Returns
          (AllHandled s Temp (a ∷ more) w)
          (batch_ran s (a ∷ more) w (run_ffmpeg_batch s.encode r (paths s (a ∷ more)) w.files))
  unfolding run_ffmpeg_batch batch_ran
  batch_ran-AllHandled a more w sep h encoded =
      spawned (a ∷ more) w (write_outputs s.encode (paths s (a ∷ more)) w.files) sep
        (write_outputs-apart s (a ∷ more) w.files)
  batch_ran-AllHandled a more w sep h (exited m) =
      failed_batch a more w m (remove_outputs (paths s (a ∷ more)) w.files) sep
        (remove_outputs-AllStaged s (a ∷ more) (a ∷ more) w.files h)
        (remove_outputs-apart s (a ∷ more) w.files)
  batch_ran-AllHandled a more w sep h (not_started m) =
      failed_batch a more w m w.files sep h (λ p n. refl)

  run_accepted-AllHandled :
      (out : List (Accepted s) × World)
      → Separate s Temp out.0
      → AllStaged s (λ v. v ≡ none) out.1.files out.0
      → Returns (AllHandled s Temp out.0 out.1) (run_accepted s out)
  unfolding run_accepted
  run_accepted-AllHandled ([], w) sep h = AllHandled-nil s Temp w
  run_accepted-AllHandled (a ∷ more, w) sep h = batch_ran-AllHandled a more w sep h _

  pub run_batch-AllHandled :
      (jobs : List PipelineJob) (w : World)
      → Separate s Temp (planned s (probed s w.files jobs))
      → AllStaged s (λ v. v ≡ none) w.files (planned s (probed s w.files jobs))
      → Returns (AllHandled s Temp (planned s (probed s w.files jobs)) w) (run_batch s jobs w)
  unfolding run_batch
  run_batch-AllHandled jobs w sep h =
      let chosen = accept-Chosen s Temp (probed s w.files jobs) w sep h in
      Returns-mono (AllHandled s Temp _ _) (AllHandled s Temp _ w) _
        (run_accepted-AllHandled (accept s (probed s w.files jobs) w) chosen.separate chosen.staged)
        λ u _ x. Chosen-AllHandled s Temp _ w _ u (λ p m. Separate-Temp s Temp _ p sep m) chosen x
