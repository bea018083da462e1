-- ===== src/SyncQueue/Service/Requests.antt =====
-- What a request of the user leaves in the table.
use sc_desktop_beautiful.Prelude.{
  Bool, List, Option, String, [], ap, arith, false, refl, some, true, ℕ, ◌++◌, ◌+◌, ◌∷◌, ◌≡◌,
}
use sc_desktop_beautiful.SyncQueue.Table.{Db, Row, any_where, delete_where, has_key, is_unlocked}
use sc_desktop_beautiful.SyncQueue.Actions.{inverse, inverse-inverse}
use sc_desktop_beautiful.SyncQueue.Service.{cancels, enqueue, new_row, upsert}
use sc_desktop_beautiful.SyncQueue.Service.Unique.{has_key_lem}

-- The table holds no request with this key.
abbrev pub Absent : String → String → String → Db → Type 0
Absent user action target db = any_where (has_key user action target) db.rows ≡ false

cancels-false : (u a t : String) (r : Row) → has_key u a t r ≡ false → cancels u a t r ≡ false
unfolding cancels
cancels-false u a t r e = rw (e, cancels) refl

any_cancels-false :
    (u a t : String) (rows : List Row)
    → any_where (has_key u a t) rows ≡ false
    → any_where (cancels u a t) rows ≡ false
unfolding any_where
any_cancels-false u a t [] e = refl
any_cancels-false u a t (r ∷ rs) e =
    ground (arith, cancels-false u a t r, any_cancels-false u a t rs)

any_where-snoc :
    (p : Row → Bool) (rows : List Row) (r : Row) → p r ≡ true → any_where p (rows ++ r ∷ []) ≡ true
unfolding any_where
any_where-snoc p [] r e = rw e refl
any_where-snoc p (s ∷ ss) r e = ground (arith, any_where-snoc p ss r e)

delete_where-snoc :
    (u a t : String) (rows : List Row) (new : Row)
    → any_where (has_key u a t) rows ≡ false
    → cancels u a t new ≡ true
    → delete_where (cancels u a t) (rows ++ new ∷ []) ≡ rows
unfolding any_where delete_where
delete_where-snoc u a t [] new e c = rw c refl
delete_where-snoc u a t (r ∷ rs) new e c =
    let no_key : has_key u a t r ≡ false = ground arith in
    rw (cancels-false u a t r no_key)
      (ap (λ xs. r ∷ xs) (delete_where-snoc u a t rs new (ground arith) c))

new_row-cancels :
    (db : Db) (now : ℕ) (u a t : String) (payload : Option String)
    → cancels u a t (new_row db now u a t payload) ≡ true
unfolding cancels is_unlocked new_row
new_row-cancels db now u a t payload =
    rw (has_key_lem u a t (new_row db now u a t payload) refl refl refl) refl

enqueue_new :
    (db : Db) (now : ℕ) (u a t b : String) (payload : Option String)
    → inverse a ≡ some b
    → Absent u a t db
    → Absent u b t db
    → enqueue db now u a t payload
      ≡ record { rows = db.rows ++ new_row db now u a t payload ∷ []; next_id = db.next_id + 1 }
unfolding enqueue upsert
enqueue_new db now u a t b payload inv no_a no_b =
    rw (inv, enqueue) (rw (any_cancels-false u b t db.rows no_b) (rw no_a refl))

enqueue_cancel :
    (db : Db) (now : ℕ) (u a t b : String) (payload : Option String)
    → inverse b ≡ some a
    → any_where (cancels u a t) db.rows ≡ true
    → enqueue db now u b t payload ≡ record db { rows = delete_where (cancels u a t) db.rows }
unfolding enqueue
enqueue_cancel db now u a t b payload inv there = rw (inv, enqueue) (rw there refl)

-- A request and then its inverse, when neither is in the table before and the worker has not claimed
-- the first, leave the rows as they were: nothing is sent to SoundCloud for a like that is taken back.
pub enqueue_undo :
    (db : Db) (now later : ℕ) (user action target undo : String) (payload payload' : Option String)
    → inverse action ≡ some undo
    → Absent user action target db
    → Absent user undo target db
    → (enqueue (enqueue db now user action target payload) later user undo target payload').rows
      ≡ db.rows
enqueue_undo db now later u a t b payload payload' inv no_a no_b =
    let new : Row = new_row db now u a t payload in
    let opened = new_row-cancels db now u a t payload in
    rw (enqueue_new db now u a t b payload inv no_a no_b) (
      rw
        (enqueue_cancel (record { rows = db.rows ++ new ∷ []; next_id = db.next_id + 1 }) later u a
          t b payload' (inverse-inverse a b inv)
          (any_where-snoc (cancels u a t) db.rows new opened))
        (delete_where-snoc u a t db.rows new no_a opened))

abbrev SameKey : Row → Row → Type 0
SameKey r s =
    (r.user_id ≡ s.user_id) × (r.action_type ≡ s.action_type) × (r.target_urn ≡ s.target_urn)

-- No queued request would be cancelled by this action.
abbrev pub NoInverse : Db → Row → Type 0
NoInverse db row =
    (inv : String) → inverse row.action_type ≡ some inv → Absent row.user_id inv row.target_urn db
