-- ===== src/SyncQueue/Tests.antt =====
-- Runs of the queue on small tables, and its theorems at them.
use sc_desktop_beautiful.Prelude.{
  All, List, [], arith, false, length, none, refl, some, subst, ℕ, ◌+◌, ◌∷◌, ◌≡◌, ◌≢◌, ◌≤◌,
}
use sc_desktop_beautiful.Prelude.Text.{codes}
use sc_desktop_beautiful.Prelude.Outcome.{Returns, ok}
use sc_desktop_beautiful.SyncQueue.Table.{Db, Row, any_where, has_id, select_where, update_where}
use sc_desktop_beautiful.SyncQueue.Failure.{
  AppError, is_ban_error, is_rate_limited, len_utf8, other, truncate, utf8_length,
}
use sc_desktop_beautiful.SyncQueue.Service.{
  batch_size, claim_batch, enqueue, flush, insert_row, is_due, is_picked, lock_row, max_retries,
  order_rows, picks, record_failure, retried, retry_delay, settle,
}
use sc_desktop_beautiful.SyncQueue.Service.Keys.{enqueue-IsWf}
use sc_desktop_beautiful.SyncQueue.Service.Unique.{IsWf}
use sc_desktop_beautiful.SyncQueue.Service.Backoff.{Waits, record_failure-Waits}
use sc_desktop_beautiful.SyncQueue.Service.Claims.{claims_are_disjoint}
use sc_desktop_beautiful.SyncQueue.Service.Flush.{Free, IsShort, flush-Returns}
use mathlib.Core.Option.{some-injective}
use sc_desktop_beautiful.SyncQueue.Mirror.{
  like_playlist_request, synced, unlike_is_stranded, unlike_playlist_request, unwanted,
}

abbrev update : Row
update = record {
  id = 0;
  user_id = "u";
  action_type = "playlist_update";
  target_urn = "p";
  payload = some "old";
  locked_at = none;
  retry_count = 1;
  last_error = none;
  next_run_at = 10;
  created_at = 5;
}

abbrev queue : Db
queue = record { rows = update ∷ []; next_id = 1 }

abbrev nobody : Db
nobody = record { rows = []; next_id = 0 }

queue-IsWf : IsWf queue
queue-IsWf = record { fresh = omega arith; distinct = (tt, tt); tries = omega arith }

nobody-IsWf : IsWf nobody
nobody-IsWf = record { fresh = tt; distinct = tt; tries = tt }

abbrev fold_case : List ℕ → List ℕ
fold_case s = s

abbrev refused : AppError
refused = record { cause = other; message = codes "no" }

-- The first try after one failure waits four minutes.
retry_runs :
    record_failure fold_case 100 queue update refused
    ≡ ok (record queue {
      rows =
          record update { retry_count = 2; last_error = some (codes "no"); next_run_at = 340 } ∷ [];
    })
unfolding record_failure settle is_ban_error is_rate_limited retried retry_delay update_where has_id
    truncate utf8_length len_utf8
retry_runs = refl

claim_runs : (claim_batch queue 100 batch_size).1 ≡ record update { locked_at = some 100 } ∷ []
unfolding claim_batch picks order_rows insert_row select_where is_due update_where is_picked
    any_where has_id lock_row
claim_runs = refl

enqueue-IsWf_example : IsWf (enqueue queue 7 "u" "comment" "t" (some "hi"))
enqueue-IsWf_example = enqueue-IsWf queue 7 "u" "comment" "t" (some "hi") queue-IsWf

record_failure-Waits_example :
    Returns
      (λ db'.
        IsWf db'
        × All (λ r. r.id ≡ 0 → Waits 100 (codes "no") r) db'.rows
        × (is_ban_error fold_case other ≡ false
            → is_rate_limited fold_case other ≡ false
            → max_retries ≤ 1 + 1
            → All (λ r. r.id ≢ 0) db'.rows))
      (record_failure fold_case 100 queue update refused)
unfolding truncate utf8_length len_utf8
record_failure-Waits_example =
    record_failure-Waits fold_case 100 queue update refused (codes "no") queue-IsWf
      ((λ _. omega arith), tt) refl

claims_are_disjoint_example :
    let first = claim_batch queue 100 batch_size in
    All (λ r. All (λ s. r.id ≢ s.id) (claim_batch first.0 200 batch_size).1) first.1
claims_are_disjoint_example =
    claims_are_disjoint queue 100 200 batch_size batch_size queue-IsWf (omega arith)

flush-Returns_example :
    Returns
      (λ out.
        IsWf out.0
        × (out.1.0 + out.1.1 ≡ length (claim_batch queue 100 batch_size).1)
        × All (λ row. Free row.id out.0) (claim_batch queue 100 batch_size).1)
      (flush fold_case (λ _. some refused) (λ _. 101) queue 100)
unfolding utf8_length len_utf8
flush-Returns_example =
    flush-Returns fold_case (λ _. some refused) (λ _. 101) queue 100 queue-IsWf
      λ row err e. subst IsShort (some-injective _ _ e) (omega arith)

unlike_is_stranded_example :
    let after =
      unlike_playlist_request (like_playlist_request (synced, nobody) 1 "u" "p") 2 "u" "p" in
    (after.0 ≡ unwanted) × (after.1.rows ≡ [])
unfolding any_where
unlike_is_stranded_example = unlike_is_stranded nobody 1 2 "u" "p" (refl, refl)
