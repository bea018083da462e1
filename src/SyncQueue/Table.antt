-- ===== src/SyncQueue/Table.antt =====
-- The table `sync_queue` and the statements on it that backend/src/modules/sync_queue/service.rs
-- sends. Times are seconds, a payload is its JSON text, and a new id is a number never used before.
use sc_desktop_beautiful.Prelude.{
  Bool, List, Option, String, [], false, if◌then◌else◌, none, some, str_eq, true, ℕ, ◌&&◌, ◌==◌,
  ◌||◌, ◌∷◌,
}

pub record Row : Type 0 where
  pub id : ℕ
  pub user_id : String
  pub action_type : String
  pub target_urn : String
  pub payload : Option String
  pub locked_at : Option ℕ
  pub retry_count : ℕ
  pub last_error : Option (List ℕ)
  pub next_run_at : ℕ
  pub created_at : ℕ

pub record Db : Type 0 where
  pub rows : List Row
  pub next_id : ℕ

-- `DELETE FROM sync_queue WHERE …`
unfoldable pub delete_where : (Row → Bool) → List Row → List Row
delete_where p [] = []
delete_where p (r ∷ rs) = if p r then delete_where p rs else r ∷ delete_where p rs

-- `UPDATE sync_queue SET … WHERE …`
unfoldable pub update_where : (Row → Bool) → (Row → Row) → List Row → List Row
update_where p f [] = []
update_where p f (r ∷ rs) = (if p r then f r else r) ∷ update_where p f rs

unfoldable pub any_where : (Row → Bool) → List Row → Bool
any_where p [] = false
any_where p (r ∷ rs) = p r || any_where p rs

unfoldable pub select_where : (Row → Bool) → List Row → List Row
select_where p [] = []
select_where p (r ∷ rs) = if p r then r ∷ select_where p rs else select_where p rs

unfoldable pub has_key : String → String → String → Row → Bool
has_key user action target r =
    str_eq r.user_id user && (str_eq r.action_type action && str_eq r.target_urn target)

unfoldable pub is_unlocked : Row → Bool
is_unlocked r = elim r.locked_at [ none ↦ true | some _ ↦ false ]

unfoldable pub has_id : ℕ → Row → Bool
has_id i r = r.id == i
