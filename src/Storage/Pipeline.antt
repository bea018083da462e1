-- ===== src/Storage/Pipeline.antt =====
-- The pipeline of the uploads, storage/src/pipeline.rs and storage/src/transcode.rs: a batch of files is
-- encoded, and each is committed and answered. The tasks of a batch run one after the other here; they
-- share no path. The backend, ffmpeg and the contents of files are parameters.
pub mod Accept
pub mod Batch
pub mod Each
pub mod Answers
use sc_desktop_beautiful.Prelude.{
  Bool, List, Option, [], false, if◌then◌else◌, leb, ltb, none, some, suc, true, zero, ℕ, ◌&&◌,
  ◌||◌, ◌++◌, ◌+◌, ◌∷◌, not,
}
use sc_desktop_beautiful.Prelude.Outcome.{Outcome, ok, panic, ◌>>=◌}
use sc_desktop_beautiful.Prelude.Text.{codes, split}
use sc_desktop_beautiful.Storage.Files.{Files, remove, write}
use sc_desktop_beautiful.Storage.Local.{BackendError, Committed, failed, fine, not_found, probe}

-- In milliseconds.
abbrev pub min_upload_duration : ℕ
min_upload_duration = 30000

pub data PipelineError : Type 0 where
  track_too_short : ℕ → ℕ → PipelineError
  ffmpeg : List ℕ → PipelineError
  backend : List ℕ → PipelineError
  internal : List ℕ → PipelineError

-- `Result<PipelineOutput, PipelineError>`
pub data Result : Type 0 where
  output : ℕ → Result
  error : PipelineError → Result

-- A job is answered on a channel of its own, `id`, and `staged` is the fresh name of its output.
pub record PipelineJob : Type 0 where
  pub id : ℕ
  pub source : List ℕ
  pub filename : List ℕ
  pub staged : List ℕ

pub record Answer : Type 0 where
  pub id : ℕ
  pub result : Result

pub record World : Type 0 where
  pub files : Files
  pub answers : List Answer
  pub published : List (List ℕ × List ℕ)

-- How a run of ffmpeg ends.
pub data Ran : Type 0 where
  encoded : Ran
  exited : List ℕ → Ran
  not_started : List ℕ → Ran

unfoldable pub stage_output : List ℕ → PipelineJob → List ℕ
stage_output dir job =
    dir ++ codes "/." ++ job.filename ++ codes "." ++ job.staged ++ codes ".tmp.m4a"

-- `backend::key_for`
unfoldable pub key_for : List ℕ → List ℕ
key_for filename = filename ++ codes ".m4a"

unfoldable pub write_outputs : (Option ℕ → ℕ) → List (List ℕ × List ℕ) → Files → Files
write_outputs encode [] files = files
write_outputs encode ((input, out) ∷ rest) files =
    write_outputs encode rest (write out (encode (files input)) files)

unfoldable pub remove_outputs : List (List ℕ × List ℕ) → Files → Files
remove_outputs [] files = files
remove_outputs ((input, out) ∷ rest) files = remove_outputs rest (remove out files)

-- The error, if there is one, and the files.
unfoldable pub run_ffmpeg_batch :
    (Option ℕ → ℕ) → Ran → List (List ℕ × List ℕ) → Files → Option (List ℕ) × Files
run_ffmpeg_batch encode encoded paths files = (none, write_outputs encode paths files)
run_ffmpeg_batch encode (exited m) paths files = (some m, remove_outputs paths files)
run_ffmpeg_batch encode (not_started m) paths files = (some m, files)

-- `bus::sc_track_id_from_filename`
unfoldable pub all_digits : List ℕ → Bool
all_digits [] = true
all_digits (c ∷ cs) = leb 48 c && leb c 57 && all_digits cs

unfoldable pub last_part : List ℕ → List (List ℕ) → List ℕ
last_part part [] = part
last_part part (p ∷ ps) = last_part p ps

unfoldable pub is_empty_text : List ℕ → Bool
is_empty_text [] = true
is_empty_text (c ∷ cs) = false

unfoldable pub sc_track_id_from_filename : List ℕ → Option (List ℕ)
sc_track_id_from_filename filename =
    let (part, parts) = split 95 filename in
    let last = last_part part parts in
    if not (is_empty_text last) && all_digits last then some last else none

-- What the pipeline is set up with: the backend by the number of the attempt, ffmpeg by its inputs,
-- what it makes of a content, how long a content lasts, how an error reads, how often a commit is
-- tried again, whether there is a bus for what is uploaded, and the address of the service.
pub record Setup : Type 0 where
  pub commit_transcode : ℕ → List ℕ → List ℕ → List ℕ → Files → Committed × Files
  pub run : List (List ℕ) → Ran
  pub encode : Option ℕ → ℕ
  pub lasts : ℕ → Option ℕ
  pub error_text : BackendError → List ℕ
  pub upload_retries : ℕ
  pub bus_enabled : Bool
  pub event_base_url : List ℕ
  pub result_path : List ℕ

module _ (s : Setup) where
  -- What is done about an attempt, `rest` being the next one.
  unfoldable pub attempted :
      ℕ
      → List ℕ
      → Outcome (Option PipelineError × Files)
      → Committed × Files
      → Outcome (Option PipelineError × Files)
  attempted attempt src rest (fine, files) = ok (none, files)
  attempted attempt src rest (failed not_found, files) =
      ok (some (backend (codes "source disappeared")), files)
  attempted attempt src rest (failed e, files) =
      if leb (s.upload_retries + 1) (attempt + 1)
      then ok (some (backend (s.error_text e)), remove src files)
      else rest

  -- The loop, on as many attempts as are given. One that runs out of them counts as a panic.
  unfoldable pub process_writer_job :
      ℕ → ℕ → List ℕ → List ℕ → List ℕ → Files → Outcome (Option PipelineError × Files)
  process_writer_job zero attempt key src filename files = panic
  process_writer_job (suc left) attempt key src filename files =
      let out = s.commit_transcode attempt key src filename files in
      let rest = process_writer_job left (attempt + 1) key src filename out.1 in
      attempted attempt src rest out

  -- `commit_single`: the staged output of a commit that failed goes.
  unfoldable pub swept : List ℕ → Option PipelineError × Files → Option PipelineError × Files
  swept tmp (none, files) = (none, files)
  swept tmp (some e, files) = (some e, remove tmp files)

  unfoldable pub commit_single : List ℕ → List ℕ → Files → Outcome (Option PipelineError × Files)
  commit_single filename tmp files = do
    out ← process_writer_job (s.upload_retries + 1) 0 (key_for filename) tmp filename files
    ok (swept tmp out)

  -- The id of the track and the address of the file.
  unfoldable pub publish_uploaded : List ℕ → List (List ℕ × List ℕ) → List (List ℕ × List ℕ)
  publish_uploaded filename published =
      if not s.bus_enabled || is_empty_text s.event_base_url
      then published
      else elim (sc_track_id_from_filename filename) [
        | none ↦ published
        | some id ↦
            (id, s.event_base_url ++ codes "/redirect/" ++ filename ++ codes ".m4a") ∷ published
      ]

  -- The job, its duration and its staged output.
  abbrev pub Accepted : Type 0
  Accepted = PipelineJob × ℕ × List ℕ

  unfoldable pub answered : Accepted → World → Option PipelineError × Files → World
  answered (job, secs, out) w (none, files) = record {
    files = remove job.source files;
    answers = record { id = job.id; result = output secs } ∷ w.answers;
    published = publish_uploaded job.filename w.published;
  }
  answered (job, secs, out) w (some e, files) = record {
    files = remove job.source files;
    answers = record { id = job.id; result = error e } ∷ w.answers;
    published = w.published;
  }

  -- The task of `spawn_commit`
  unfoldable pub spawn_commit : Accepted → World → Outcome World
  spawn_commit a w = do out ← commit_single a.0.filename a.2 w.files; ok (answered a w out)

  -- `for (job, secs, out) in accepted`
  unfoldable pub for_each :
      (Accepted → World → Outcome World) → List Accepted → World → Outcome World
  for_each step [] w = ok w
  for_each step (a ∷ more) w = do w' ← step a w; for_each step more w'

  unfoldable pub give_up : List ℕ → Accepted → World → Outcome World
  give_up m (job, secs, out) w = ok (record w {
    files = remove job.source w.files;
    answers = record { id = job.id; result = error (ffmpeg m) } ∷ w.answers;
  })

  -- A file that is encoded alone, after the batch failed.
  unfoldable pub retried : Accepted → World → Option (List ℕ) × Files → Outcome World
  retried a w (none, files) = spawn_commit a (record w { files = files })
  retried a w (some m, files) = give_up m a (record w { files = files })

  unfoldable pub retry_single : Accepted → World → Outcome World
  retry_single a w =
      retried a w
        (run_ffmpeg_batch s.encode (s.run (a.0.source ∷ [])) ((a.0.source, a.2) ∷ []) w.files)

  unfoldable pub is_too_short : ℕ → Bool
  is_too_short secs = ltb 0 secs && leb secs min_upload_duration

  unfoldable pub unwrap_or_zero : Option ℕ → ℕ
  unwrap_or_zero none = 0
  unwrap_or_zero (some secs) = secs

  -- Which jobs are accepted, and what is done about the others. All durations are probed first.
  unfoldable pub accept : List (PipelineJob × ℕ) → World → List Accepted × World
  accept [] w = ([], w)
  accept ((job, secs) ∷ jobs) w =
      let turned_away = accept jobs (record w {
        files = remove job.source w.files;
        answers =
            record { id = job.id; result = error (track_too_short secs min_upload_duration) }
            ∷ w.answers;
      }) in
      let others = accept jobs w in
      if is_too_short secs
      then turned_away
      else ((job, secs, stage_output s.result_path job) ∷ others.0, others.1)

  abbrev pub paths : List Accepted → List (List ℕ × List ℕ)
  paths [] = []
  paths ((job, secs, out) ∷ more) = (job.source, out) ∷ paths more

  abbrev pub sources : List Accepted → List (List ℕ)
  sources [] = []
  sources ((job, secs, out) ∷ more) = job.source ∷ sources more

  unfoldable pub batch_ran : List Accepted → World → Option (List ℕ) × Files → Outcome World
  batch_ran more w (none, files) = for_each spawn_commit more (record w { files = files })
  batch_ran (a ∷ []) w (some m, files) = give_up m a (record w { files = files })
  batch_ran more w (some m, files) = for_each retry_single more (record w { files = files })

  unfoldable pub run_accepted : List Accepted × World → Outcome World
  run_accepted ([], w) = ok w
  run_accepted (a ∷ more, w) =
      batch_ran (a ∷ more) w
        (run_ffmpeg_batch s.encode (s.run (sources (a ∷ more))) (paths (a ∷ more)) w.files)

  abbrev pub probed : Files → List PipelineJob → List (PipelineJob × ℕ)
  probed files [] = []
  probed files (job ∷ jobs) =
      (job, unwrap_or_zero (probe s.lasts (files job.source))) ∷ probed files jobs

  unfoldable pub run_batch : List PipelineJob → World → Outcome World
  run_batch jobs w = run_accepted (accept (probed w.files jobs) w)
