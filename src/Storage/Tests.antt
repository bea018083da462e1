-- ===== src/Storage/Tests.antt =====
-- Two uploads that are encoded and kept, and a directory that lets a track go.
use sc_desktop_beautiful.Prelude.{
  List, Option, [], false, if◌then◌else◌, inl, inr, none, refl, some, true, ℕ, ◌*◌, ◌&&◌, leb,
  arith, Bool, ◌∷◌, ◌≡◌, ◌≢◌, ◌⊎◌,
}
use sc_desktop_beautiful.Prelude.Outcome.{Returns}
use sc_desktop_beautiful.Prelude.Text.{codes, text_differs, text_eq}
use sc_desktop_beautiful.Storage.Files.{Files}
use sc_desktop_beautiful.Storage.Local.{
  Syscalls, commit_transcode, done, failed, fine, io, is_long_enough, is_some, probe,
  should_keep_existing,
}
use sc_desktop_beautiful.Storage.Local.Loss.{replace_loses_both}
use sc_desktop_beautiful.Storage.Local.Paths.{Outside, over_local, path_for, over_local-Lawful}
use sc_desktop_beautiful.Storage.Pipeline.{
  PipelineJob, Setup, World, encoded, probed, run_batch, stage_output,
}
use sc_desktop_beautiful.Storage.Quota.{fetch_add, reserve, saturating_add}
use sc_desktop_beautiful.Storage.Quota.Steps.{
  Counter, IsBalanced, Steps-IsBalanced, adds, none_yet, opens, then_step, trying,
}
use sc_desktop_beautiful.Storage.Upload.{
  Config, Field, chunk, file_field, filename_field, other_field, sanitize_filename, tmp_path,
  upload,
}
use sc_desktop_beautiful.Storage.Upload.Submit.{submit, submit-Submits}
use sc_desktop_beautiful.Storage.Upload.Clean.{upload-SameTemp}
use sc_desktop_beautiful.Storage.Upload.Name.{IsPlain, sanitize_filename-IsPlain}
use sc_desktop_beautiful.Storage.Pipeline.Accept.{planned}
use sc_desktop_beautiful.Storage.Pipeline.Answers.{run_batch-AllHandled}
use sc_desktop_beautiful.Storage.Pipeline.Each.{AllHandled}

-- A content lasts as many seconds as its number.
abbrev seconds : ℕ → Option ℕ
seconds c = some (c * 1000)

abbrev kept_at : List ℕ
kept_at = codes "/r/x_7.m4a"

abbrev beside : List ℕ
beside = codes "/r/.x_7.1.tmp"

abbrev sent : List ℕ
sent = codes "/t/u"

-- The track that is kept lasts 100 s, and the one that is uploaded 200 s.
abbrev two_files : Files
two_files path =
    if text_eq path (codes "/r/x_7.m4a")
    then some 100
    else if text_eq path (codes "/t/u")
    then some 200
    else none

abbrev all_well : Syscalls
all_well = record {
  makes_dir = true;
  moves = done;
  copies = true;
  removes_source = true;
  replaces = true;
  removes_old = true;
  replaces_again = true;
}

abbrev no_replace : Syscalls
no_replace = record all_well { replaces = false; replaces_again = false }

replace_loses_both_example :
    let (r, files') = commit_transcode no_replace [] seconds kept_at beside sent two_files in
    (r ≡ failed (io [])) × (files' kept_at ≡ none) × (files' beside ≡ none) × (files' sent ≡ none)
unfolding text_eq should_keep_existing is_some is_long_enough probe
replace_loses_both_example =
    replace_loses_both no_replace [] seconds kept_at beside sent two_files 100 200
      (text_differs _ _ refl) (text_differs _ _ refl) (text_differs _ _ refl) refl refl refl refl
      refl refl refl refl

abbrev long_job : PipelineJob
long_job = record { id = 1; source = sent; filename = codes "x_7"; staged = codes "s" }

-- Its file is not there, and its duration counts as 0.
abbrev missing_job : PipelineJob
missing_job = record { id = 2; source = codes "/t/v"; filename = codes "y_8"; staged = codes "t" }

abbrev plain : Setup
plain = record {
  commit_transcode = λ n key src filename files. (fine, files);
  run = λ inputs. encoded;
  encode = λ c. 200;
  lasts = seconds;
  error_text = λ e. [];
  upload_retries = 1;
  bus_enabled = true;
  event_base_url = codes "http://s";
  result_path = codes "/o";
}

abbrev local_plain : Setup
local_plain = over_local (λ n. all_well) [] (λ n. n ∷ []) (codes "/r") plain

abbrev quiet : World
quiet = record { files = two_files; answers = []; published = [] }

abbrev both_jobs : List PipelineJob
both_jobs = long_job ∷ missing_job ∷ []

neither : (p q r : List ℕ) → q ≢ p → r ≢ p → ¬ ((q ≡ p) ⊎ ((r ≡ p) ⊎ ⊥))
neither p q r a b (inl e) = a e
neither p q r a b (inr (inl e)) = b e
neither p q r a b (inr (inr m)) = m

run_batch-AllHandled_example :
    Returns
      (AllHandled local_plain
        (Outside (codes "/r"))
        (planned local_plain (probed local_plain two_files both_jobs))
        quiet)
      (run_batch local_plain both_jobs quiet)
unfolding over_local path_for stage_output text_eq
run_batch-AllHandled_example =
    run_batch-AllHandled local_plain (Outside (codes "/r"))
      (over_local-Lawful (λ n. all_well) [] (λ n. n ∷ []) (codes "/r") plain) both_jobs quiet
      (
        λ name. text_differs _ _ refl,
        λ name. text_differs _ _ refl,
        text_differs _ _ refl,
        neither _ _ _ (text_differs _ _ refl) (text_differs _ _ refl),
        neither _ _ _ (text_differs _ _ refl) (text_differs _ _ refl),
        (
          λ name. text_differs _ _ refl,
          λ name. text_differs _ _ refl,
          text_differs _ _ refl,
          λ m. m,
          λ m. m,
          tt,
        ),
      )
      (refl, (refl, tt))

-- An upload begins, finds room for 60 of 100 bytes, and then none for 60 more.
abbrev crowded : Counter
crowded = record { used = 120; uploads = trying 60 60 ∷ [] }

Steps-IsBalanced_example : IsBalanced 100 0 crowded
unfolding reserve fetch_add saturating_add
Steps-IsBalanced_example = Steps-IsBalanced 100 0 (omega arith) (
    then_step (then_step (then_step none_yet (opens 0 [])) (adds 0 60 0 [] [] (omega arith)))
      (adds 60 60 60 [] [] (omega arith)))

abbrev is_letter : ℕ → Bool
is_letter c = leb 97 c && leb c 122

sanitize_filename-IsPlain_example :
    IsPlain is_letter (sanitize_filename is_letter (codes "../a b.c."))
sanitize_filename-IsPlain_example = sanitize_filename-IsPlain is_letter (codes "../a b.c.") refl

abbrev settings : Config
settings = record {
  disable_upload = false;
  admin_token = codes "k";
  tmp_max_bytes = some 100;
  source_path = codes "/t";
}

abbrev one_file : List Field
one_file =
    filename_field (some (codes "a.b"))
    ∷ file_field (codes "9") true (chunk 60 0 0 true ∷ chunk 60 60 60 true ∷ []) true
    ∷ other_field
    ∷ []

upload-SameTemp_example :
    (upload is_letter
        (submit local_plain (codes "s"))
        settings
        (some (codes "k"))
        one_file
        two_files).1
      (codes "/t/9.input")
    ≡ two_files (codes "/t/9.input")
unfolding tmp_path path_for stage_output text_eq over_local
upload-SameTemp_example =
    upload-SameTemp two_files settings (Outside (codes "/r")) is_letter
      (submit local_plain (codes "s"))
      (submit-Submits local_plain (Outside (codes "/r"))
        (over_local-Lawful (λ n. all_well) [] (λ n. n ∷ []) (codes "/r") plain) two_files settings
        (codes "s") (λ id name. text_differs _ _ refl) (λ job name. text_differs _ _ refl)
        (λ id job. text_differs _ _ refl) (λ job. refl))
      (some (codes "k")) one_file (refl, refl, (refl, (refl, tt)), tt) (refl, tt)
      (codes "/t/9.input") (λ name. text_differs _ _ refl)
