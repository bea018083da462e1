-- ===== src/SyncQueue/Service/Flush.antt =====
-- One run of the worker: every claimed row is answered for.
use sc_desktop_beautiful.Prelude.{
  All, All-mono, All-zip, Bool, Bool-cases, List, Option, Option-cases, [], arith, inl, inr, length,
  none, refl, some, sym, ℕ, ◌+◌, ◌∙◌, ◌∷◌, ◌≡◌, ◌≢◌, ◌≤◌,
}
use sc_desktop_beautiful.Prelude.Outcome.{Outcome, Returns, Returns-mono, ok}
use sc_desktop_beautiful.SyncQueue.Table.{Db, Row, has_id, select_where}
use sc_desktop_beautiful.SyncQueue.Failure.{AppError, Cause, truncate, utf8_length}
use sc_desktop_beautiful.SyncQueue.Service.{
  batch_size, claim_batch, finish, flush, flush_rows, lock_row, postponed, record_failure, retried,
  settle,
}
use sc_desktop_beautiful.SyncQueue.Service.Keys.{
  All-trivial, claim_batch-IsWf, delete-IsWf, settle-IsWf,
}
use sc_desktop_beautiful.SyncQueue.Service.Unique.{
  Differs, Distinct, IsWf, delete_where-All, update_where-Distinct,
}
use sc_desktop_beautiful.SyncQueue.Service.Backoff.{delete_where_gone, has_id-false, settle-All}
use sc_desktop_beautiful.SyncQueue.Service.Claims.{All-of-In, Distinct-In, claim-locked}

-- No row of this id is locked.
abbrev pub Free : ℕ → Db → Type 0
Free k db = All (λ r. r.id ≡ k → r.locked_at ≡ none) db.rows

-- The claimed copy of a row has counted every try.
abbrev pub Counts : Db → Row → Type 0
Counts db row = All (λ r. r.id ≡ row.id → r.retry_count ≤ row.retry_count) db.rows

-- A message that `truncate` leaves alone.
abbrev pub IsShort : AppError → Type 0
IsShort err = utf8_length err.message ≤ 500

truncate_short : (msg : List ℕ) → utf8_length msg ≤ 500 → truncate 500 msg ≡ ok msg
unfolding truncate
truncate_short msg h = ground arith

finish-Free_self : (db : Db) (row : Row) → Free row.id (finish db row)
unfolding finish
finish-Free_self db row =
    All-mono _ _ _ (delete_where_gone (has_id row.id) db.rows)
      λ r there here. absurd (has_id-false row.id r there here)

-- What one row of the loop does to the table, whether it succeeds or fails.
record Answered (row : Row) (db db' : Db) : Type 0 where
  wf : IsWf db'
  free : Free row.id db'
  others_free : (k : ℕ) → Free k db → Free k db'
  others_count :
      (other_row : Row) → row.id ≢ other_row.id → Counts db other_row → Counts db' other_row

finish-Answered : (db : Db) (row : Row) → IsWf db → Answered row db (finish db row)
unfolding finish
finish-Answered db row v = record {
  wf = delete-IsWf (has_id row.id) db v;
  free = finish-Free_self db row;
  others_free = λ k h. delete_where-All _ (has_id row.id) db.rows h;
  others_count = λ o ne h. delete_where-All _ (has_id row.id) db.rows h;
}

select_where-All :
    (P : Row → Type 0) (p : Row → Bool) (rows : List Row) → All P rows → All P (select_where p rows)
unfolding select_where
select_where-All P p [] h = tt
select_where-All P p (r ∷ rs) h = elim (Bool-cases (p r)) [
  | inl e ↦ rw (e, select_where) (h.0, select_where-All P p rs h.1)
  | inr e ↦ rw (e, select_where) (select_where-All P p rs h.1)
]

select_where-Distinct :
    (p : Row → Bool) (rows : List Row) → Distinct rows → Distinct (select_where p rows)
unfolding select_where
select_where-Distinct p [] h = tt
select_where-Distinct p (r ∷ rs) h = elim (Bool-cases (p r)) [
  | inl e ↦
      rw (e, select_where) (select_where-All (Differs r) p rs h.0, select_where-Distinct p rs h.1)
  | inr e ↦ rw (e, select_where) (select_where-Distinct p rs h.1)
]

claimed-Distinct : (db : Db) (now : ℕ) → IsWf db → Distinct (claim_batch db now batch_size).1
unfolding claim_batch
claimed-Distinct db now v = select_where-Distinct _ _ (
    update_where-Distinct _ (lock_row now) (unfold lock_row in λ r. (refl, refl, refl, refl))
      db.rows v.distinct)

module _ (lower : List ℕ → List ℕ) where
  settle-Answered :
      (now : ℕ) (db : Db) (row : Row) (cause : Cause) (msg : List ℕ)
      → IsWf db
      → Counts db row
      → Answered row db (settle lower now db row cause msg)
  settle-Answered now db row cause msg v same = record {
    wf = settle-IsWf lower now db row cause msg same v;
    free =
        settle-All lower (λ _. Unit {0}) (λ r. r.id ≡ row.id → r.locked_at ≡ none) now row msg db
          cause (unfold postponed in λ secs r b here _ _. refl)
          (unfold retried in λ r more here _ _. refl) (λ r there _ here. absurd (there here))
          (All-trivial db.rows);
    others_free = λ k h.
        settle-All lower (λ r. r.id ≡ k → r.locked_at ≡ none) (λ r. r.id ≡ k → r.locked_at ≡ none)
          now row msg db cause (unfold postponed in λ secs r b here _ _. refl)
          (unfold retried in λ r more here _ _. refl) (λ r there p. p) h;
    others_count = λ o ne h.
        settle-All lower (λ r. r.id ≡ o.id → r.retry_count ≤ o.retry_count)
          (λ r. r.id ≡ o.id → r.retry_count ≤ o.retry_count) now row msg db cause
          (unfold postponed in λ secs r b here p. p)
          (unfold retried in λ r more here p e. absurd (ne (sym here ∙ e))) (λ r there p. p) h;
  }

  module _ (attempt : Row → Option AppError) (clock : Row → ℕ) where
    -- What the loop over claimed rows has done when it ends.
    abbrev Done : Db → List Row → ℕ → Db × (ℕ × ℕ) → Type 0
    Done db rows count (db', (synced, failed)) =
        IsWf db'
        × (synced + failed ≡ count)
        × All (λ row. Free row.id db') rows
        × ((k : ℕ) → Free k db → Free k db')

    Done-cons :
        (db db1 : Db) (row : Row) (rows : List Row) (count : ℕ) (out : Db × (ℕ × ℕ))
        → Answered row db db1
        → Done db1 rows count out
        → Done db (row ∷ rows) count out
    Done-cons db db1 row rows count out a d =
        (d.0, d.1, (d.3 row.id a.free, d.2), (λ k h. d.3 k (a.others_free k h)))

    Counts-rest :
        (db db1 : Db) (row : Row) (rows : List Row)
        → Answered row db db1
        → All (Differs row) rows
        → All (Counts db) rows
        → All (Counts db1) rows
    Counts-rest db db1 row rows a d h =
        All-mono _ _ rows (All-zip _ _ rows d h) λ o x. a.others_count o x.0.0 x.1

    Done-Returns :
        (db db1 : Db) (row : Row) (rows : List Row) (count : ℕ) (m : Outcome (Db × (ℕ × ℕ)))
        → Answered row db db1
        → Returns (Done db1 rows count) m
        → Returns (Done db (row ∷ rows) count) m
    Done-Returns db db1 row rows count m a h =
        Returns-mono (Done db1 rows count) (Done db (row ∷ rows) count) m h
          λ out _ o. Done-cons db db1 row rows count out a o

    flush_rows-Done :
        ((row : Row) (err : AppError) → attempt row ≡ some err → IsShort err)
        → (db : Db) (rows : List Row) (synced failed count : ℕ)
        → synced + failed + length rows ≡ count
        → IsWf db
        → Distinct rows
        → All (Counts db) rows
        → Returns (Done db rows count) (flush_rows lower attempt clock db rows synced failed)
    unfolding flush_rows record_failure
    flush_rows-Done short db [] synced failed count n v d h = (v, omega arith, tt, (λ k f. f))
    flush_rows-Done short db (row ∷ rows) synced failed count n v d h =
        elim (Option-cases (attempt row)) [
          | inl e ↦
              let a = finish-Answered db row v in
              rw (e, flush_rows)
                (Done-Returns db (finish db row) row rows count _ a (
                  flush_rows-Done short (finish db row) rows (synced + 1) failed count (omega arith)
                    a.wf d.1 (Counts-rest db (finish db row) row rows a d.0 h.1)))
          | inr (err, e) ↦
              let after : Db = settle lower (clock row) db row err.cause err.message in
              let a = settle-Answered (clock row) db row err.cause err.message v h.0 in
              rw (e, flush_rows)
                (rw (truncate_short err.message (short row err e)) (
                  Done-Returns db after row rows count _ a (
                    flush_rows-Done short after rows synced (failed + 1) count (omega arith) a.wf
                      d.1 (Counts-rest db after row rows a d.0 h.1))))
        ]

    claimed-Counts :
        (db : Db) (now : ℕ)
        → IsWf db
        → All (Counts (claim_batch db now batch_size).0) (claim_batch db now batch_size).1
    claimed-Counts db now v = All-of-In _ _ λ row m. All-of-In _ _ λ r n e.
        let same : r ≡ row =
          Distinct-In r row _ (claim_batch-IsWf db now batch_size v).distinct n
            (claim-locked db now batch_size row m).0 e in
        rw same (omega arith)

    -- A run of the worker over a well-formed table, with errors whose messages are at most 500 bytes
    -- long, ends without a panic; every claimed row is counted once as synced or as failed, none of
    -- them is left locked, and the table is well formed again.
    pub flush-Returns :
        (db : Db) (now : ℕ)
        → IsWf db
        → ((row : Row) (err : AppError) → attempt row ≡ some err → IsShort err)
        → Returns
            (λ out.
              IsWf out.0
              × (out.1.0 + out.1.1 ≡ length (claim_batch db now batch_size).1)
              × All (λ row. Free row.id out.0) (claim_batch db now batch_size).1)
            (flush lower attempt clock db now)
    unfolding flush
    flush-Returns db now v short =
        let first = claim_batch db now batch_size in
        Returns-mono (Done first.0 first.1 (length first.1)) _
          (flush_rows lower attempt clock first.0 first.1 0 0)
          (flush_rows-Done short first.0 first.1 0 0 (length first.1) (omega arith)
            (claim_batch-IsWf db now batch_size v) (claimed-Distinct db now v)
            (claimed-Counts db now v))
          λ out _ o. (o.0, o.1, o.2)
