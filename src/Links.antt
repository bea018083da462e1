-- ===== src/Links.antt =====
-- Link requests, backend/src/modules/auth/link_service.rs: a session is passed from one device to
-- another by a token. The two tables are lists of rows, and an `UPDATE` changes every row with the id.
-- What the service of sessions answers, the fresh ids and the random tokens are parameters.
pub mod Spent
pub mod Updates
pub mod Once
mod Tests
use sc_desktop_beautiful.Prelude.{
  Bool, List, Option, [], false, if◌then◌else◌, ltb, none, not, some, true, ℕ, ◌&&◌, ◌+◌, ◌==◌, ◌∷◌,
}
use sc_desktop_beautiful.Prelude.Text.{codes, text_eq}
use sc_desktop_beautiful.Errors.{
  AppError, AppResult, bad_request, err, good, not_found, unauthorized,
}

abbrev pub link_request_ttl_secs : ℕ
link_request_ttl_secs = 300

-- The two modes and the three states that the column holds.
pub data Mode : Type 0 where
  pull push : Mode

pub data Status : Type 0 where
  pending claimed failed : Status

pub record LinkRequest : Type 0 where
  pub id : ℕ
  pub claim_token : List ℕ
  pub mode : Mode
  pub source_session_id : Option ℕ
  pub target_session_id : Option ℕ
  pub status : Status
  pub error : Option (List ℕ)
  pub expires_at : ℕ

pub record Session : Type 0 where
  pub id : ℕ
  pub access_token : List ℕ
  pub refresh_token : List ℕ
  pub expires_at : ℕ
  pub scope : List ℕ
  pub soundcloud_user_id : Option (List ℕ)
  pub username : Option (List ℕ)
  pub oauth_app_id : Option (List ℕ)

pub record Tables : Type 0 where
  pub links : List LinkRequest
  pub sessions : List Session

pub record CreateLinkResult : Type 0 where
  pub link_request_id : ℕ
  pub claim_token : List ℕ
  pub expires_at : ℕ

pub record ClaimResult : Type 0 where
  pub session_id : ℕ
  pub mode : Mode

pub record LinkStatusResult : Type 0 where
  pub status : List ℕ
  pub mode : Mode
  pub session_id : Option ℕ
  pub error : Option (List ℕ)

unfoldable pub parse_mode : List ℕ → Option Mode
parse_mode mode =
    if text_eq mode (codes "pull")
    then some pull
    else if text_eq mode (codes "push")
    then some push
    else none

-- The checks of `create` on the mode and the source.
unfoldable pub check_source : List ℕ → Option ℕ → AppResult Mode
check_source mode source = elim (parse_mode mode) [
  | none ↦ err (bad_request (codes "mode must be 'pull' or 'push'"))
  | some push ↦ elim source [
    | none ↦ err (bad_request (codes "push mode requires source session"))
    | some s ↦ good push
  ]
  | some pull ↦ elim source [
    | none ↦ good pull
    | some s ↦ err (bad_request (codes "pull mode must not have source session at creation"))
  ]
]

unfoldable pub check_exists : (ℕ → AppResult Bool) → Option ℕ → AppResult (Unit {0})
check_exists get_session none = good tt
check_exists get_session (some s) = elim (get_session s) [
  | err e ↦ err e
  | good true ↦ good tt
  | good false ↦ err (unauthorized (codes "Source session not found"))
]

unfoldable pub new_link : ℕ → List ℕ → Mode → Option ℕ → ℕ → LinkRequest
new_link id token mode source now = record {
  id = id;
  claim_token = token;
  mode = mode;
  source_session_id = source;
  target_session_id = none;
  status = pending;
  error = none;
  expires_at = now + link_request_ttl_secs;
}

-- `get_session` tells whether the session is there.
unfoldable pub create :
    (ℕ → AppResult Bool)
    → ℕ
    → List ℕ
    → List ℕ
    → Option ℕ
    → ℕ
    → Tables
    → AppResult CreateLinkResult × Tables
create get_session id token mode source now db = elim (check_source mode source) [
  | err e ↦ (err e, db)
  | good m ↦ elim (check_exists get_session source) [
    | err e ↦ (err e, db)
    | good u ↦ (
      good (record {
        link_request_id = id;
        claim_token = token;
        expires_at = now + link_request_ttl_secs;
      }),
      record db { links = new_link id token m source now ∷ db.links },
    )
  ]
]

-- `SELECT * FROM link_requests WHERE claim_token = $1`
unfoldable pub find_token : List ℕ → List LinkRequest → Option LinkRequest
find_token token [] = none
find_token token (l ∷ ls) = if text_eq l.claim_token token then some l else find_token token ls

unfoldable pub find_id : ℕ → List LinkRequest → Option LinkRequest
find_id id [] = none
find_id id (l ∷ ls) = if l.id == id then some l else find_id id ls

-- `UPDATE link_requests SET … WHERE id = $1`
unfoldable pub update_link : ℕ → (LinkRequest → LinkRequest) → List LinkRequest → List LinkRequest
update_link id f [] = []
update_link id f (l ∷ ls) = (if l.id == id then f l else l) ∷ update_link id f ls

abbrev pub fail_expired : LinkRequest → LinkRequest
fail_expired l = record l { status = failed; error = some (codes "Expired") }

abbrev pub set_claimed : ℕ → ℕ → LinkRequest → LinkRequest
set_claimed source target l = record l {
  source_session_id = some source;
  target_session_id = some target;
  status = claimed;
}

-- Where a claim stands when it has read the row and refreshed the source.
pub data Ready : Type 0 where
  refused : AppError → Ready
  expired : LinkRequest → Ready
  ready : LinkRequest → ℕ → Session → Ready

unfoldable pub source_of : LinkRequest → Option ℕ → AppResult ℕ
source_of l caller = elim l.mode [
  | pull ↦ elim caller [
    | none ↦ err (unauthorized (codes "pull claim requires source session"))
    | some s ↦ good s
  ]
  | push ↦ elim l.source_session_id [
    | none ↦ err (bad_request (codes "push link has no source session"))
    | some s ↦ good s
  ]
]

unfoldable pub is_pending : Status → Bool
is_pending pending = true
is_pending claimed = false
is_pending failed = false

-- The second half of `claim`: what it writes, with the id of the new session.
unfoldable pub claim_write : ℕ → Ready → Tables → AppResult ClaimResult × Tables
claim_write new_id (refused e) db = (err e, db)
claim_write new_id (expired l) db = (
  err (bad_request (codes "Link token expired")),
  record db { links = update_link l.id fail_expired db.links },
)
claim_write new_id (ready l source s) db = (
  good (record { session_id = new_id; mode = l.mode }),
  record db {
    links = update_link l.id (set_claimed source new_id) db.links;
    sessions = record s { id = new_id } ∷ db.sessions;
  },
)

module _ (get_valid_session : ℕ → AppResult Session) where
  unfoldable pub refreshed : LinkRequest → AppResult ℕ → Ready
  refreshed l (err e) = refused e
  refreshed l (good source) = elim (get_valid_session source) [
    | err e ↦ refused (
        unauthorized
          (codes "Source session is not valid. The originating device must re-authenticate."))
    | good s ↦ ready l source s
  ]

  unfoldable pub examined : LinkRequest → Option ℕ → ℕ → Ready
  examined l caller now =
      if not (is_pending l.status)
      then refused (bad_request (codes "Link token is already used or expired"))
      else if ltb l.expires_at now
      then expired l
      else refreshed l (source_of l caller)

  -- The first half of `claim`: what it reads.
  unfoldable pub claim_read : List ℕ → Option ℕ → ℕ → Tables → Ready
  claim_read token caller now db = elim (find_token token db.links) [
    | none ↦ refused (not_found (codes "Invalid or already used link token"))
    | some l ↦ examined l caller now
  ]

  unfoldable pub claim : ℕ → List ℕ → Option ℕ → ℕ → Tables → AppResult ClaimResult × Tables
  claim new_id token caller now db = claim_write new_id (claim_read token caller now db) db

unfoldable pub status_text : Status → List ℕ
status_text pending = codes "pending"
status_text claimed = codes "claimed"
status_text failed = codes "failed"

unfoldable pub shown_session : Mode → Status → Option ℕ → Option ℕ
shown_session pull claimed target = target
shown_session pull pending target = none
shown_session pull failed target = none
shown_session push status target = none

unfoldable pub get_status : ℕ → ℕ → Tables → LinkStatusResult
get_status id now db = elim (find_id id db.links) [
  | none ↦ record {
    status = codes "expired";
    mode = pull;
    session_id = none;
    error = some (codes "Unknown link request");
  }
  | some l ↦
      if is_pending l.status && ltb l.expires_at now
      then record {
        status = codes "expired";
        mode = l.mode;
        session_id = none;
        error = some (codes "Expired");
      }
      else record {
        status = status_text l.status;
        mode = l.mode;
        session_id = shown_session l.mode l.status l.target_session_id;
        error = l.error;
      }
]
