-- ===== src/SyncQueue/Mirror.antt =====
-- The local copy of what the user wants, backend/src/modules/sync_queue/mirror.rs, and the requests
-- of backend/src/modules/likes/service.rs and me/service.rs, which write it before they queue the
-- action. A cell is the row of one user and one key, `none` where the table has no such row.
use sc_desktop_beautiful.Prelude.{
  Bool, Option, String, arith, false, if◌then◌else◌, none, not, refl, some, true, ℕ, ◌≡◌,
}
use sc_desktop_beautiful.SyncQueue.Actions.{inverse, like_playlist, unlike_playlist}
use sc_desktop_beautiful.SyncQueue.Table.{Db}
use sc_desktop_beautiful.SyncQueue.Service.{enqueue}
use sc_desktop_beautiful.SyncQueue.Service.Requests.{Absent, enqueue_undo}

pub record Wanted : Type 0 where
  pub wanted_state : Bool
  pub progress : Bool

abbrev pub Cell : Type 0
Cell = Option Wanted

unfoldable pub set_wanted : Cell → Cell
set_wanted none = some (record { wanted_state = true; progress = true })
set_wanted (some w) =
    some
      (record { wanted_state = true; progress = if not w.wanted_state then false else w.progress })

unfoldable pub clear_wanted : Cell → Cell
clear_wanted none = none
clear_wanted (some w) =
    if not w.wanted_state
    then some w
    else if w.progress
    then none
    else some (record { wanted_state = false; progress = true })

-- The statement at the end of `like_playlist::execute`, and of the two others of its kind.
unfoldable pub confirm_wanted : Cell → Cell
confirm_wanted none = none
confirm_wanted (some w) = if w.wanted_state then some (record w { progress = false }) else some w

-- The statement at the end of `unlike_playlist::execute`.
unfoldable pub drop_unwanted : Cell → Cell
drop_unwanted none = none
drop_unwanted (some w) = if not w.wanted_state then none else some w

unfoldable pub like_playlist_request : Cell × Db → ℕ → String → String → Cell × Db
like_playlist_request (cell, db) now user urn =
    (set_wanted cell, enqueue db now user like_playlist urn none)

unfoldable pub unlike_playlist_request : Cell × Db → ℕ → String → String → Cell × Db
unlike_playlist_request (cell, db) now user urn =
    (clear_wanted cell, enqueue db now user unlike_playlist urn none)

abbrev pub synced : Cell
synced = some (record { wanted_state = true; progress = false })

abbrev pub unwanted : Cell
unwanted = some (record { wanted_state = false; progress = true })

-- Nothing is queued for this playlist.
abbrev pub Quiet : String → String → Db → Type 0
Quiet user urn db = Absent user like_playlist urn db × Absent user unlike_playlist urn db

like-inverse : inverse like_playlist ≡ some unlike_playlist
unfolding inverse
like-inverse = refl

unlike-inverse : inverse unlike_playlist ≡ some like_playlist
unfolding inverse
unlike-inverse = refl

-- With nothing queued, a like of what is not liked, and an unlike of what is, leave both the copy
-- and the queue as they were once the opposite request follows.
change_of_mind :
    (db : Db) (now later : ℕ) (user urn : String)
    → Quiet user urn db
    → let liked = like_playlist_request (none, db) now user urn in
      let unliked = unlike_playlist_request (synced, db) now user urn in
      ((unlike_playlist_request liked later user urn).0 ≡ none)
      × ((unlike_playlist_request liked later user urn).1.rows ≡ db.rows)
      × ((like_playlist_request unliked later user urn).0 ≡ synced)
      × ((like_playlist_request unliked later user urn).1.rows ≡ db.rows)
unfolding like_playlist_request unlike_playlist_request set_wanted clear_wanted
change_of_mind db now later user urn q = (
  refl,
  enqueue_undo db now later user like_playlist urn unlike_playlist none none like-inverse q.0 q.1,
  refl,
  enqueue_undo db now later user unlike_playlist urn like_playlist none none unlike-inverse q.1 q.0,
)

-- With nothing queued, a second like of what is liked already, and then an unlike: the unlike cancels the queued like, so
-- nothing at all is queued, while the copy waits for an unlike that nobody will send.
pub unlike_is_stranded :
    (db : Db) (now later : ℕ) (user urn : String)
    → Quiet user urn db
    → let after =
        unlike_playlist_request (like_playlist_request (synced, db) now user urn) later user urn in
      (after.0 ≡ unwanted) × (after.1.rows ≡ db.rows)
unfolding like_playlist_request unlike_playlist_request set_wanted clear_wanted
unlike_is_stranded db now later user urn q = (
  refl,
  enqueue_undo db now later user like_playlist urn unlike_playlist none none like-inverse q.0 q.1,
)

-- After a request and the execution of its action the copy holds what the user asked for, with
-- nothing outstanding, whatever it held before.
settled_copy :
    (cell : Cell)
    → (confirm_wanted (set_wanted cell) ≡ synced) × (drop_unwanted (clear_wanted cell) ≡ none)
unfolding set_wanted clear_wanted confirm_wanted drop_unwanted
settled_copy cell = ground arith
