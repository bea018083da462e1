-- ===== src/Storage/Local.antt =====
-- A directory that keeps the tracks, storage/src/backend/local.rs. How the calls of the system end,
-- and how long ffprobe finds a content to be, in milliseconds, are parameters.
pub mod Loss
pub mod Commit
pub mod Frame
pub mod Paths
use sc_desktop_beautiful.Prelude.{
  Bool, List, Option, false, if◌then◌else◌, leb, none, some, true, ℕ, ◌+◌, not,
}
use sc_desktop_beautiful.Storage.Files.{Files, remove, write}

pub data BackendError : Type 0 where
  not_found : BackendError
  io : List ℕ → BackendError
  other : List ℕ → BackendError

-- `Result<(), BackendError>`
pub data Committed : Type 0 where
  fine : Committed
  failed : BackendError → Committed

abbrev pub duration_epsilon : ℕ
duration_epsilon = 2000

-- How a rename ends: error 18 is that the two paths are on different devices.
pub data Renamed : Type 0 where
  done : Renamed
  cross_device : Renamed
  refused : List ℕ → Renamed

-- How the calls of one commit end, in their order.
pub record Syscalls : Type 0 where
  pub makes_dir : Bool
  pub moves : Renamed
  pub copies : Bool
  pub removes_source : Bool
  pub replaces : Bool
  pub removes_old : Bool
  pub replaces_again : Bool

-- `probe_duration` on a path
unfoldable pub probe : (ℕ → Option ℕ) → Option ℕ → Option ℕ
probe lasts none = none
probe lasts (some content) = lasts content

unfoldable pub is_some : Option ℕ → Bool
is_some none = false
is_some (some content) = true

-- The comparison of the two durations.
unfoldable pub is_long_enough : Option ℕ → Option ℕ → Bool
is_long_enough none candidate = false
is_long_enough (some existing) none = false
is_long_enough (some existing) (some candidate) = leb candidate (existing + duration_epsilon)

unfoldable pub should_keep_existing : (ℕ → Option ℕ) → List ℕ → List ℕ → Files → Bool
should_keep_existing lasts dst src files =
    if not (is_some (files dst))
    then false
    else is_long_enough (probe lasts (files dst)) (probe lasts (files src))

module _ (sys : Syscalls) (e : List ℕ) where
  -- A file that is not there cannot be moved or copied.
  unfoldable pub move_file : Renamed → List ℕ → List ℕ → ℕ → Files → Committed × Files
  move_file done src dst content files = (fine, write dst content (remove src files))
  move_file (refused r) src dst content files = (failed (io r), files)
  move_file cross_device src dst content files =
      if not sys.copies
      then (failed (io e), files)
      else if not sys.removes_source
      then (failed (io e), write dst content files)
      else (fine, remove src (write dst content files))

  unfoldable pub move_or_copy_file : List ℕ → List ℕ → Files → Committed × Files
  move_or_copy_file src dst files = elim (files src) [
    | none ↦ (failed (io e), files)
    | some content ↦ move_file sys.moves src dst content files
  ]

  unfoldable pub replace_file : List ℕ → List ℕ → Files → Committed × Files
  replace_file src dst files = elim (files src) [
    | none ↦ (failed (io e), files)
    | some content ↦
        if sys.replaces
        then (fine, write dst content (remove src files))
        else if not (is_some (files dst))
        then (failed (io e), files)
        else if not sys.removes_old
        then (failed (io e), files)
        else if not sys.replaces_again
        then (failed (io e), remove dst files)
        else (fine, write dst content (remove src (remove dst files)))
  ]

  -- What is done about a step that failed: the staged file goes.
  unfoldable pub replaced : List ℕ → Committed × Files → Committed × Files
  replaced stage (fine, files) = (fine, files)
  replaced stage (failed err, files) = (failed err, remove stage files)

  unfoldable pub moved : List ℕ → List ℕ → Committed × Files → Committed × Files
  moved stage dst (failed err, files) = (failed err, remove stage files)
  moved stage dst (fine, files) = replaced stage (replace_file stage dst files)

  -- `dst` is the path of the key, and `stage` the one beside it.
  unfoldable pub commit_transcode :
      (ℕ → Option ℕ) → List ℕ → List ℕ → List ℕ → Files → Committed × Files
  commit_transcode lasts dst stage src files =
      if should_keep_existing lasts dst src files
      then (fine, remove src files)
      else if not sys.makes_dir
      then (failed (io e), files)
      else moved stage dst (move_or_copy_file src stage files)
