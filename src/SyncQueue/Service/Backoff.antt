-- ===== src/SyncQueue/Service/Backoff.antt =====
-- When a failed action runs again.
use sc_desktop_beautiful.Prelude.{
  All, All-zip, Bool, Bool-cases, List, [], arith, false, inl, inr, leb, none, refl, some, suc,
  true, zero, ℕ, ◌*◌, ◌+◌, ◌<◌, ◌^◌, ◌∷◌, ◌≡◌, ◌≢◌, ◌≤◌, ◌⊎◌, All-mono,
}
use sc_desktop_beautiful.Prelude.Outcome.{Returns, ok}
use sc_desktop_beautiful.SyncQueue.Failure.{
  AppError, Cause, is_ban_error, is_rate_limited, truncate,
}
use sc_desktop_beautiful.Prelude.Outcome.{Returns, ok}
use sc_desktop_beautiful.SyncQueue.Service.Keys.{settle-IsWf}
use sc_desktop_beautiful.SyncQueue.Service.Unique.{IsWf, update_where-All}
use sc_desktop_beautiful.SyncQueue.Table.{Db, Row, delete_where, has_id, update_where}
use sc_desktop_beautiful.SyncQueue.Service.{
  backoff_ban_sec, backoff_rate_limit_sec, max_retries, postponed, record_failure, retried,
  retry_delay, settle,
}
use sc_desktop_beautiful.SyncQueue.Service.Keys.{settle-IsWf}
use sc_desktop_beautiful.SyncQueue.Service.Unique.{IsWf, update_where-All}

-- The cap of an hour is never met: with five tries at most the longest wait is 16 minutes.
retry_delay_bounds :
    (tries : ℕ)
    → 0 < tries
    → tries < max_retries
    → (120 ≤ retry_delay tries) × (retry_delay tries ≤ 960) × (retry_delay tries ≡ 60 * 2 ^ tries)
unfolding retry_delay
retry_delay_bounds zero h k = elim h [ ]
retry_delay_bounds (suc zero) h k = omega arith
retry_delay_bounds (suc (suc zero)) h k = omega arith
retry_delay_bounds (suc (suc (suc zero))) h k = omega arith
retry_delay_bounds (suc (suc (suc (suc zero)))) h k = omega arith
retry_delay_bounds (suc (suc (suc (suc (suc n))))) h k = absurd (omega arith)

-- The two waits that cost no try.
unfoldable pub IsBlock : ℕ → Type 0
IsBlock secs = (secs ≡ backoff_ban_sec) ⊎ (secs ≡ backoff_rate_limit_sec)

has_id-true : (i : ℕ) (r : Row) → has_id i r ≡ true → r.id ≡ i
unfolding has_id
has_id-true i r h = ground arith

pub has_id-false : (i : ℕ) (r : Row) → has_id i r ≡ false → r.id ≢ i
unfolding has_id
has_id-false i r h = ground arith

pub delete_where-rest :
    (P Q : Row → Type 0) (p : Row → Bool)
    → ((r : Row) → p r ≡ false → P r → Q r)
    → (rows : List Row) → All P rows
    → All Q (delete_where p rows)
unfolding delete_where
delete_where-rest P Q p k [] h = tt
delete_where-rest P Q p k (r ∷ rs) h = elim (Bool-cases (p r)) [
  | inl e ↦ rw (e, delete_where) (delete_where-rest P Q p k rs h.1)
  | inr e ↦ rw (e, delete_where) (k r e h.0, delete_where-rest P Q p k rs h.1)
]

-- What `settle` does to a row, branch by branch.
module _ (lower : List ℕ → List ℕ) (P Q : Row → Type 0) (now : ℕ) (row : Row) (msg : List ℕ) where
  pub settle-All :
      (db : Db) (cause : Cause)
      → ((secs : ℕ) (r : Row) → IsBlock secs → r.id ≡ row.id → P r → Q (postponed now msg secs r))
      → ((r : Row)
          → row.retry_count + 1 < max_retries
          → r.id ≡ row.id
          → P r
          → Q (retried now msg (retry_delay (row.retry_count + 1)) r))
      → ((r : Row) → r.id ≢ row.id → P r → Q r)
      → All P db.rows
      → All Q (settle lower now db row cause msg).rows
  unfolding settle
  settle-All db cause blocked again others h = elim (Bool-cases (is_ban_error lower cause)) [
    | inl e ↦ rw (e, settle) (block backoff_ban_sec (unfold IsBlock in inl refl))
    | inr e ↦
        rw (e, settle)
          (elim (Bool-cases (is_rate_limited lower cause)) [
            | inl e' ↦ rw e' (block backoff_rate_limit_sec (unfold IsBlock in inr refl))
            | inr e' ↦ rw e' (elim (Bool-cases (leb max_retries (row.retry_count + 1))) [
              | inl t ↦ rw t (
                  delete_where-rest P Q (has_id row.id)
                    (λ r there. others r (has_id-false row.id r there)) db.rows h)
              | inr t ↦ rw t (
                  update_where-All P Q (has_id row.id)
                    (retried now msg (retry_delay (row.retry_count + 1)))
                    (λ r here. again r (ground arith) (has_id-true row.id r here))
                    (λ r there. others r (has_id-false row.id r there)) db.rows h)
            ])
          ])
  ]
    where
      block :
          (secs : ℕ)
          → IsBlock secs
          → All Q (update_where (has_id row.id) (postponed now msg secs) db.rows)
      block secs b =
          update_where-All P Q (has_id row.id) (postponed now msg secs)
            (λ r here. blocked secs r b (has_id-true row.id r here))
            (λ r there. others r (has_id-false row.id r there)) db.rows h

-- A row that waits for another try: unlocked, with the error noted and a time between two and thirty
-- minutes ahead.
abbrev pub Waits : ℕ → List ℕ → Row → Type 0
Waits now msg r =
    (r.locked_at ≡ none)
    × (r.last_error ≡ some msg)
    × (now + 120 ≤ r.next_run_at)
    × (r.next_run_at ≤ now + 1800)
    × (r.retry_count < max_retries)

pub delete_where_gone :
    (p : Row → Bool) (rows : List Row) → All (λ r. p r ≡ false) (delete_where p rows)
unfolding delete_where
delete_where_gone p [] = tt
delete_where_gone p (r ∷ rs) = elim (Bool-cases (p r)) [
  | inl e ↦ rw (e, delete_where) (delete_where_gone p rs)
  | inr e ↦ rw (e, delete_where) (e, delete_where_gone p rs)
]

settle_gives_up :
    (lower : List ℕ → List ℕ) (now : ℕ) (db : Db) (row : Row) (cause : Cause) (msg : List ℕ)
    → is_ban_error lower cause ≡ false
    → is_rate_limited lower cause ≡ false
    → max_retries ≤ row.retry_count + 1
    → All (λ r. r.id ≢ row.id) (settle lower now db row cause msg).rows
unfolding settle
settle_gives_up lower now db row cause msg b l h =
    let last : leb max_retries (row.retry_count + 1) ≡ true = ground arith in
    rw (b, settle)
      (rw l (
        rw last (All-mono _ _ _ (delete_where_gone (has_id row.id) db.rows) (has_id-false row.id))))

-- After a failure with a message that can be cut at 500 bytes, in a well-formed table that counts no
-- more tries for the row than the worker saw, each row of that id that is left
-- waits, unlocked, for between two and thirty minutes and has tries left; after the fifth try with
-- an error that is neither a ban nor a rate limit none is left. The table stays well formed.
pub record_failure-Waits :
    (lower : List ℕ → List ℕ) (now : ℕ) (db : Db) (row : Row) (err : AppError) (msg : List ℕ)
    → IsWf db
    → All (λ r. r.id ≡ row.id → r.retry_count ≤ row.retry_count) db.rows
    → truncate 500 err.message ≡ ok msg
    → Returns
        (λ db'.
          IsWf db'
          × All (λ r. r.id ≡ row.id → Waits now msg r) db'.rows
          × (is_ban_error lower err.cause ≡ false
              → is_rate_limited lower err.cause ≡ false
              → max_retries ≤ row.retry_count + 1
              → All (λ r. r.id ≢ row.id) db'.rows))
        (record_failure lower now db row err)
unfolding record_failure
record_failure-Waits lower now db row err msg v same cut =
    rw (cut, record_failure)
      (
        settle-IsWf lower now db row err.cause msg same v,
        settle-All lower
            (λ r. (r.retry_count < max_retries) × (r.id ≡ row.id → r.retry_count ≤ row.retry_count))
            (λ r. r.id ≡ row.id → Waits now msg r) now row msg db err.cause
            (unfold postponed IsBlock in
              λ secs r b here h _. (refl, refl, omega arith, omega arith, h.0))
            (unfold retried in
              λ r more here h _.
                let d = retry_delay_bounds (row.retry_count + 1) (omega arith) more in
                (refl, refl, omega (arith, d.0), omega (arith, d.1), omega (arith, h.1 here)))
            (λ r there h here. absurd (there here)) (All-zip _ _ db.rows v.tries same),
        settle_gives_up lower now db row err.cause msg,
      )
