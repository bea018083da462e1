-- ===== src/Storage/Upload.antt =====
-- The request that brings an upload, storage/src/routes/upload.rs. What comes in a request, the ends of
-- the calls of the system, and the values of the counter that each chunk finds, are its fields; the
-- pipeline is a parameter.
pub mod Name
pub mod Submit
pub mod Clean
use sc_desktop_beautiful.Prelude.{
  Bool, List, Option, [], if◌then◌else◌, none, some, ℕ, ◌&&◌, ◌++◌, ◌+◌, ◌==◌, ◌||◌, ◌∷◌, not,
}
use sc_desktop_beautiful.Prelude.Text.{codes, split, text_eq}
use sc_desktop_beautiful.Storage.Files.{Files, remove, write}
use sc_desktop_beautiful.Storage.Pipeline.{
  Result, backend, error, ffmpeg, internal, is_empty_text, last_part, output, track_too_short,
}
use sc_desktop_beautiful.Storage.Quota.{try_add}

-- A chunk has a size, finds the counter at `found`, and at `found_again` after a scan.
pub data Chunk : Type 0 where
  chunk : ℕ → ℕ → ℕ → Bool → Chunk
  bad_chunk : Chunk

-- A file has the fresh name of its temporary file, whether that can be made, its chunks, and whether
-- the flush succeeds.
pub data Field : Type 0 where
  filename_field : Option (List ℕ) → Field
  file_field : List ℕ → Bool → List Chunk → Bool → Field
  other_field : Field
  multipart_error : Field

pub record Config : Type 0 where
  pub disable_upload : Bool
  pub admin_token : List ℕ
  pub tmp_max_bytes : Option ℕ
  pub source_path : List ℕ

pub data Reply : Type 0 where
  uploaded : List ℕ → ℕ → Reply
  refused : ℕ → List ℕ → Reply

-- `sanitize_filename`
unfoldable pub is_kept : (ℕ → Bool) → ℕ → Bool
is_kept is_alphanumeric c = is_alphanumeric c || c == 95 || c == 45 || c == 46

unfoldable pub kept : (ℕ → Bool) → List ℕ → List ℕ
kept is_alphanumeric [] = []
kept is_alphanumeric (c ∷ cs) =
    let rest = kept is_alphanumeric cs in if is_kept is_alphanumeric c then c ∷ rest else rest

unfoldable pub trim_start : List ℕ → List ℕ
trim_start [] = []
trim_start (c ∷ cs) = let rest = trim_start cs in if c == 46 then rest else c ∷ cs

unfoldable pub trim_end : List ℕ → List ℕ
trim_end [] = []
trim_end (c ∷ cs) = let rest = trim_end cs in if c == 46 && is_empty_text rest then [] else c ∷ rest

unfoldable pub sanitize_filename : (ℕ → Bool) → List ℕ → List ℕ
sanitize_filename is_alphanumeric s = trim_end (trim_start (kept is_alphanumeric s))

-- What is known in the loop over the fields.
pub record Progress : Type 0 where
  pub filename : Option (List ℕ)
  pub tmp_file_path : Option (List ℕ)
  pub reserved : ℕ
  pub files : Files

-- The loops go on with a value, or the request ends.
pub data Stage (A : Type 0) : Type 0 where
  goes_on : A → Stage A
  ends : ℕ → List ℕ → Files → Stage A

unfoldable pub tmp_path : List ℕ → List ℕ → List ℕ
tmp_path dir id = dir ++ codes "/" ++ id ++ codes ".input"

-- The first try, or the one after the scan.
unfoldable pub add_chunk : Option ℕ → ℕ → ℕ → ℕ → ℕ → Bool × ℕ × ℕ
add_chunk limit n found found_again reserved =
    let first = try_add limit n found reserved in
    if first.0 then first else try_add limit n found_again reserved

-- The loop over the chunks: the bytes that came and those that are reserved, and the files. What was
-- received of a file is known by its length.
unfoldable pub receive : Option ℕ → List ℕ → List Chunk → ℕ → ℕ → Files → Stage (ℕ × ℕ × Files)
receive limit tmp [] total reserved files = goes_on (total, reserved, files)
receive limit tmp (bad_chunk ∷ more) total reserved files =
    ends 400 (codes "read chunk") (remove tmp files)
receive limit tmp (chunk n found found_again writes ∷ more) total reserved files =
    let added = add_chunk limit n found found_again reserved in
    let rest = receive limit tmp more (total + n) added.2 (write tmp (total + n) files) in
    if not added.0
    then ends 507 (codes "tmp quota exceeded") (remove tmp files)
    else if not writes
    then ends 500 (codes "write tmp") files
    else rest

-- What follows the loop.
unfoldable pub flushed : List ℕ → Bool → Progress → Stage (ℕ × ℕ × Files) → Stage Progress
flushed tmp flushes p (ends status m files) = ends status m files
flushed tmp flushes p (goes_on (total, reserved, files)) =
    if not flushes
    then ends 500 (codes "flush") files
    else if total == 0
    then ends 400 (codes "empty file") (remove tmp files)
    else goes_on (record p { tmp_file_path = some tmp; reserved = reserved; files = files })

unfoldable pub read_field : Config → Field → Progress → Stage Progress
read_field cfg multipart_error p = ends 400 (codes "multipart error") p.files
read_field cfg other_field p = goes_on p
read_field cfg (filename_field none) p = ends 400 (codes "read filename") p.files
read_field cfg (filename_field (some name)) p = goes_on (record p { filename = some name })
read_field cfg (file_field id creates chunks flushes) p =
    let tmp = tmp_path cfg.source_path id in
    if not creates
    then ends 500 (codes "create tmp") p.files
    else flushed tmp flushes p
        (receive cfg.tmp_max_bytes tmp chunks 0 p.reserved (write tmp 0 p.files))

unfoldable pub and_then : {A B : Type 0} → Stage A → (A → Stage B) → Stage B
and_then (goes_on a) f = f a
and_then (ends status m files) f = ends status m files

unfoldable pub read_fields : Config → List Field → Progress → Stage Progress
read_fields cfg [] p = goes_on p
read_fields cfg (f ∷ fs) p = and_then (read_field cfg f p) (read_fields cfg fs)

unfoldable pub reply_of : List ℕ → Result → Reply
reply_of name (output secs) = uploaded name secs
reply_of name (error (track_too_short secs least)) =
    refused 409 (codes "transcode skipped: short track")
reply_of name (error (ffmpeg m)) = refused 500 (codes "transcode: " ++ m)
reply_of name (error (backend m)) = refused 500 (codes "backend: " ++ m)
reply_of name (error (internal m)) = refused 500 (codes "internal: " ++ m)

unfoldable pub unwrap_or_else : Option (List ℕ) → List ℕ → List ℕ
unwrap_or_else none other = other
unwrap_or_else (some name) other = name

-- `Path::file_stem`: the last part of a path, without what follows its last dot.
unfoldable pub before_last_dot : List ℕ → Option (List ℕ)
before_last_dot [] = none
before_last_dot (c ∷ cs) = elim (before_last_dot cs) [
  | some stem ↦ some (c ∷ stem)
  | none ↦ if c == 46 then some [] else none
]

unfoldable pub file_stem : List ℕ → List ℕ
file_stem path =
    let (part, parts) = split 47 path in
    let name = last_part part parts in
    elim (before_last_dot name) [
      | none ↦ name
      | some stem ↦ if is_empty_text stem then name else stem
    ]

-- What is handed to the pipeline: the temporary file and the name.
abbrev pub Submit : Type 0
Submit = List ℕ → List ℕ → Files → Result × Files

unfoldable pub finished : (ℕ → Bool) → Submit → Stage Progress → Reply × Files
finished is_alphanumeric submit (ends status m files) = (refused status m, files)
finished is_alphanumeric submit (goes_on p) = elim p.tmp_file_path [
  | none ↦ (refused 400 (codes "missing file field"), p.files)
  | some tmp ↦
      let name = sanitize_filename is_alphanumeric (unwrap_or_else p.filename (file_stem tmp)) in
      if is_empty_text name
      then (refused 400 (codes "invalid filename"), remove tmp p.files)
      else let out = submit tmp name p.files in (reply_of name out.0, out.1)
]

abbrev pub nothing_yet : Files → Progress
nothing_yet files = record { filename = none; tmp_file_path = none; reserved = 0; files = files }

-- `bearer` is what follows "Bearer " in the header of the request.
unfoldable pub upload :
    (ℕ → Bool) → Submit → Config → Option (List ℕ) → List Field → Files → Reply × Files
upload is_alphanumeric submit cfg bearer fields files =
    if cfg.disable_upload
    then (refused 503 (codes "upload disabled on this host"), files)
    else elim bearer [
      | none ↦ (refused 401 (codes "missing token"), files)
      | some token ↦
          if not (text_eq token cfg.admin_token)
          then (refused 403 (codes "invalid token"), files)
          else finished is_alphanumeric submit (read_fields cfg fields (nothing_yet files))
    ]
