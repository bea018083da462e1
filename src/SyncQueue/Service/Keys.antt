-- ===== src/SyncQueue/Service/Keys.antt =====
-- The table keeps its ids and its keys apart, and no row outlives its retries.
use sc_desktop_beautiful.Prelude.{
  All, All-append, All-mono, All-zip, Bool, Bool-cases, List, Option, String, [], arith, inl, inr,
  leb, none, refl, some, true, ℕ, ◌+◌, ◌<◌, ◌∷◌, ◌≡◌, ◌≤◌,
}
use sc_desktop_beautiful.SyncQueue.Actions.{inverse}
use sc_desktop_beautiful.SyncQueue.Table.{
  Db, Row, any_where, delete_where, has_id, has_key, update_where,
}
use sc_desktop_beautiful.SyncQueue.Failure.{Cause, is_ban_error, is_rate_limited}
use sc_desktop_beautiful.SyncQueue.Service.{
  backoff_ban_sec, backoff_rate_limit_sec, cancels, claim_batch, enqueue, lock_row, max_retries,
  new_row, postponed, renewed, retried, retry_delay, settle, upsert,
}
use sc_desktop_beautiful.SyncQueue.Service.Unique.{
  IsWf, delete_where-All, update_where-All, delete_where-Distinct, Names, update_where-Distinct,
  Distinct-snoc, absent-Differs,
}

-- An update under which the invariant survives; `P` is what the new retry count may rest on.
update-IsWf :
    (P : Row → Type 0) (p : Row → Bool) (f : Row → Row) (db : Db)
    → ((r : Row) → Names (f r) r)
    → ((r : Row)
        → p r ≡ true
        → (r.retry_count < max_retries) × P r
        → (f r).retry_count < max_retries)
    → All P db.rows
    → IsWf db
    → IsWf (record db { rows = update_where p f db.rows })
update-IsWf P p f db keep low also v = record {
  fresh =
      update_where-All (λ r. r.id < db.next_id) _ p f (λ r _ h. rw ((keep r).0) h) (λ r _ h. h)
        db.rows v.fresh;
  distinct = update_where-Distinct p f keep db.rows v.distinct;
  tries =
      update_where-All (λ r. (r.retry_count < max_retries) × P r) _ p f low (λ r _ h. h.0) db.rows
        (All-zip _ _ db.rows v.tries also);
}

pub All-trivial : (rows : List Row) → All (λ _. Unit {0}) rows
All-trivial [] = tt
All-trivial (r ∷ rs) = (tt, All-trivial rs)

-- An update that takes no retry away.
plain-IsWf :
    (p : Row → Bool) (f : Row → Row) (db : Db)
    → ((r : Row) → Names (f r) r)
    → ((r : Row) → r.retry_count < max_retries → (f r).retry_count < max_retries)
    → IsWf db
    → IsWf (record db { rows = update_where p f db.rows })
plain-IsWf p f db keep low v =
    update-IsWf (λ _. Unit {0}) p f db keep (λ r _ h. low r h.0) (All-trivial db.rows) v

pub delete-IsWf :
    (p : Row → Bool) (db : Db) → IsWf db → IsWf (record db { rows = delete_where p db.rows })
delete-IsWf p db v = record {
  fresh = delete_where-All _ p db.rows v.fresh;
  distinct = delete_where-Distinct p db.rows v.distinct;
  tries = delete_where-All _ p db.rows v.tries;
}

upsert-IsWf :
    (db : Db) (now : ℕ) (user action target : String) (payload : Option String)
    → IsWf db
    → IsWf (upsert db now user action target payload)
unfolding upsert
upsert-IsWf db now user action target payload v =
    elim (Bool-cases (any_where (has_key user action target) db.rows)) [
      | inl e ↦
          rw (e, upsert)
            (plain-IsWf _ (renewed now payload) db (unfold renewed in λ r. (refl, refl, refl, refl))
              (unfold renewed in λ r _. omega arith) v)
      | inr e ↦
          rw (e, upsert)
            (record {
              fresh =
                  All-append _ db.rows _ (All-mono _ _ db.rows v.fresh (λ r h. omega arith))
                    (unfold new_row in (omega arith, tt));
              distinct =
                  Distinct-snoc db.rows (new_row db now user action target payload)
                    (unfold new_row in
                      absent-Differs user action target (new_row db now user action target payload)
                        db.next_id db.rows refl refl refl refl v.fresh e)
                    v.distinct;
              tries = All-append _ db.rows _ v.tries (unfold new_row in (omega arith, tt));
            })
    ]

-- A request keeps the table well formed: ids below the next one and unique, one row for each user,
-- action and target, and retry counts below the limit.
pub enqueue-IsWf :
    (db : Db) (now : ℕ) (user action target : String) (payload : Option String)
    → IsWf db
    → IsWf (enqueue db now user action target payload)
unfolding enqueue
enqueue-IsWf db now user action target payload v = go (inverse action) refl
  where
    go :
        (inv : Option String)
        → inverse action ≡ inv
        → IsWf (enqueue db now user action target payload)
    go none e = rw (e, enqueue) (upsert-IsWf db now user action target payload v)
    go (some inv) e = elim (Bool-cases (any_where (cancels user inv target) db.rows)) [
      | inl t ↦ rw (e, enqueue) (rw t (delete-IsWf (cancels user inv target) db v))
      | inr t ↦ rw (e, enqueue) (rw t (upsert-IsWf db now user action target payload v))
    ]

pub claim_batch-IsWf : (db : Db) (now limit : ℕ) → IsWf db → IsWf (claim_batch db now limit).0
unfolding claim_batch
claim_batch-IsWf db now limit v =
    plain-IsWf _ (lock_row now) db (unfold lock_row in λ r. (refl, refl, refl, refl))
      (unfold lock_row in λ r h. h) v

module _ (lower : List ℕ → List ℕ) where
  pub settle-IsWf :
      (now : ℕ) (db : Db) (row : Row) (cause : Cause) (msg : List ℕ)
      → All (λ r. r.id ≡ row.id → r.retry_count ≤ row.retry_count) db.rows
      → IsWf db
      → IsWf (settle lower now db row cause msg)
  unfolding settle
  settle-IsWf now db row cause msg same v = elim (Bool-cases (is_ban_error lower cause)) [
    | inl e ↦
        rw (e, settle)
          (plain-IsWf _ (postponed now msg backoff_ban_sec) db
            (unfold postponed in λ r. (refl, refl, refl, refl)) (unfold postponed in λ r h. h) v)
    | inr e ↦
        rw (e, settle)
          (elim (Bool-cases (is_rate_limited lower cause)) [
            | inl e' ↦ rw e' (
                plain-IsWf _ (postponed now msg backoff_rate_limit_sec) db
                  (unfold postponed in λ r. (refl, refl, refl, refl)) (unfold postponed in λ r h. h)
                  v)
            | inr e' ↦ rw e' (elim (Bool-cases (leb max_retries (row.retry_count + 1))) [
              | inl t ↦ rw t (delete-IsWf (has_id row.id) db v)
              | inr t ↦ rw t (
                  update-IsWf (λ r. r.id ≡ row.id → r.retry_count ≤ row.retry_count) (has_id row.id)
                    (retried now msg (retry_delay (row.retry_count + 1))) db
                    (unfold retried in λ r. (refl, refl, refl, refl))
                    (unfold retried has_id in λ r here h. ground (arith, h.1)) same v)
            ])
          ])
  ]
