-- ===== src/SyncQueue/Service.antt =====
-- backend/src/modules/sync_queue/service.rs over the table. The statements succeed and run one at a
-- time; what SoundCloud answers to an action is a parameter of `flush`.
pub mod Unique
pub mod Keys
pub mod Backoff
pub mod Claims
pub mod Flush
pub mod Requests
use sc_desktop_beautiful.Prelude.{
  Bool, List, Option, String, [], if◌then◌else◌, leb, ltb, min, none, some, take, true, ℕ, ◌&&◌,
  ◌*◌, ◌++◌, ◌+◌, ◌==◌, ◌^◌, ◌||◌, ◌∷◌,
}
use sc_desktop_beautiful.SyncQueue.Failure.{
  AppError, Cause, is_ban_error, is_rate_limited, truncate,
}
use sc_desktop_beautiful.Prelude.Outcome.{Outcome, ok, ◌>>=◌}
use sc_desktop_beautiful.SyncQueue.Actions.{inverse}
use sc_desktop_beautiful.SyncQueue.Table.{
  Db, Row, any_where, delete_where, has_id, has_key, is_unlocked, select_where, update_where,
}

abbrev pub batch_size : ℕ
batch_size = 50

abbrev pub lock_timeout : ℕ
lock_timeout = 5 * 60

abbrev pub max_retries : ℕ
max_retries = 5

abbrev pub backoff_ban_sec : ℕ
backoff_ban_sec = 30 * 60

abbrev pub backoff_rate_limit_sec : ℕ
backoff_rate_limit_sec = 5 * 60

abbrev pub backoff_cap_sec : ℕ
backoff_cap_sec = 60 * 60

-- `DO UPDATE SET …`
unfoldable pub renewed : ℕ → Option String → Row → Row
renewed now payload r = record r {
  payload = elim payload [ none ↦ r.payload | some v ↦ some v ];
  locked_at = none;
  retry_count = 0;
  last_error = none;
  next_run_at = now;
}

unfoldable pub new_row : Db → ℕ → String → String → String → Option String → Row
new_row db now user action target payload = record {
  id = db.next_id;
  user_id = user;
  action_type = action;
  target_urn = target;
  payload = payload;
  locked_at = none;
  retry_count = 0;
  last_error = none;
  next_run_at = now;
  created_at = now;
}

-- The `INSERT … ON CONFLICT … DO UPDATE`.
unfoldable pub upsert : Db → ℕ → String → String → String → Option String → Db
upsert db now user action target payload =
    if any_where (has_key user action target) db.rows
    then record db {
      rows = update_where (has_key user action target) (renewed now payload) db.rows;
    }
    else record {
      rows = db.rows ++ new_row db now user action target payload ∷ [];
      next_id = db.next_id + 1;
    }

unfoldable pub cancels : String → String → String → Row → Bool
cancels user inv target r = has_key user inv target r && is_unlocked r

unfoldable pub enqueue : Db → ℕ → String → String → String → Option String → Db
enqueue db now user action target payload = elim (inverse action) [
  | some inv ↦
      if any_where (cancels user inv target) db.rows
      then record db { rows = delete_where (cancels user inv target) db.rows }
      else upsert db now user action target payload
  | none ↦ upsert db now user action target payload
]

-- `(locked_at IS NULL OR locked_at < now - timeout) AND next_run_at <= now`
unfoldable pub is_due : ℕ → Row → Bool
is_due now r =
    elim r.locked_at [ none ↦ true | some t ↦ ltb (t + lock_timeout) now ] && leb r.next_run_at now

-- `ORDER BY next_run_at ASC, created_at ASC`
unfoldable pub is_before : Row → Row → Bool
is_before r s =
    ltb r.next_run_at s.next_run_at
    || (r.next_run_at == s.next_run_at && leb r.created_at s.created_at)

unfoldable pub insert_row : Row → List Row → List Row
insert_row r [] = r ∷ []
insert_row r (s ∷ ss) = if is_before r s then r ∷ s ∷ ss else s ∷ insert_row r ss

unfoldable pub order_rows : List Row → List Row
order_rows [] = []
order_rows (r ∷ rs) = insert_row r (order_rows rs)

-- `id IN (…)`
unfoldable pub is_picked : List Row → Row → Bool
is_picked picked r = any_where (has_id r.id) picked

unfoldable pub lock_row : ℕ → Row → Row
lock_row now r = record r { locked_at = some now }

unfoldable pub picks : Db → ℕ → ℕ → List Row
picks db now limit = take limit (order_rows (select_where (is_due now) db.rows))

-- The rows come back in the order of the table, which the statement leaves open.
unfoldable pub claim_batch : Db → ℕ → ℕ → Db × List Row
claim_batch db now limit =
    let picked = picks db now limit in
    let rows = update_where (is_picked picked) (lock_row now) db.rows in
    (record db { rows = rows }, select_where (is_picked picked) rows)

-- `SET locked_at = NULL, last_error = …, next_run_at = now() + …`
unfoldable pub postponed : ℕ → List ℕ → ℕ → Row → Row
postponed now msg secs r = record r {
  locked_at = none;
  last_error = some msg;
  next_run_at = now + secs;
}

unfoldable pub retried : ℕ → List ℕ → ℕ → Row → Row
retried now msg secs r = record r {
  locked_at = none;
  retry_count = r.retry_count + 1;
  last_error = some msg;
  next_run_at = now + secs;
}

unfoldable pub retry_delay : ℕ → ℕ
retry_delay tries = min (60 * 2 ^ tries) backoff_cap_sec

unfoldable pub finish : Db → Row → Db
finish db row = record db { rows = delete_where (has_id row.id) db.rows }

-- `lower` stands for `to_lowercase`.
module _ (lower : List ℕ → List ℕ) where
  unfoldable pub settle : ℕ → Db → Row → Cause → List ℕ → Db
  settle now db row cause msg =
      if is_ban_error lower cause
      then record db {
        rows = update_where (has_id row.id) (postponed now msg backoff_ban_sec) db.rows;
      }
      else if is_rate_limited lower cause
      then record db {
        rows = update_where (has_id row.id) (postponed now msg backoff_rate_limit_sec) db.rows;
      }
      else if leb max_retries (row.retry_count + 1)
      then record db { rows = delete_where (has_id row.id) db.rows }
      else record db {
        rows =
            update_where (has_id row.id) (retried now msg (retry_delay (row.retry_count + 1)))
              db.rows;
      }

  unfoldable pub record_failure : ℕ → Db → Row → AppError → Outcome Db
  record_failure now db row err = do
    msg ← truncate 500 err.message
    ok (settle now db row err.cause msg)

  -- The loop of `flush` over the claimed rows. `attempt` is what `execute_one` returns for a row, and
  -- `clock` the time when its failure is recorded.
  module _ (attempt : Row → Option AppError) (clock : Row → ℕ) where
    unfoldable pub flush_rows : Db → List Row → ℕ → ℕ → Outcome (Db × (ℕ × ℕ))
    flush_rows db [] synced failed = ok (db, (synced, failed))
    flush_rows db (row ∷ rows) synced failed = elim (attempt row) [
      | none ↦ flush_rows (finish db row) rows (synced + 1) failed
      | some err ↦ (do
        db' ← record_failure (clock row) db row err
        flush_rows db' rows synced (failed + 1))
    ]

    unfoldable pub flush : Db → ℕ → Outcome (Db × (ℕ × ℕ))
    flush db now = let (db', claimed) = claim_batch db now batch_size in flush_rows db' claimed 0 0
