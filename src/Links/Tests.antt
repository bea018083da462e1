-- ===== src/Links/Tests.antt =====
-- One request of a device that waits for a session, and the claims of it.
use sc_desktop_beautiful.Prelude.{Bool, [], arith, none, refl, some, true, ℕ, ◌∷◌, ◌≡◌}
use sc_desktop_beautiful.Prelude.Text.{codes, text_eq}
use sc_desktop_beautiful.Errors.{AppResult, bad_request, err, good}
use sc_desktop_beautiful.Links.{
  ClaimResult, Tables, LinkRequest, Session, check_exists, check_source, claim, claim_read,
  claim_write, create, examined, find_id, find_token, get_status, is_pending, new_link, parse_mode,
  pending, pull, ready, refreshed, set_claimed, source_of, update_link,
}
use sc_desktop_beautiful.Links.Spent.{claim-claim, told}
use sc_desktop_beautiful.Links.Once.{Calls-IsFair, claims_overlap}
use sc_desktop_beautiful.Links.Updates.{IsFair, claims, creates, none_yet, then_call}

abbrev old_session : Session
old_session = record {
  id = 7;
  access_token = codes "a";
  refresh_token = codes "r";
  expires_at = 1000;
  scope = [];
  soundcloud_user_id = some (codes "9");
  username = none;
  oauth_app_id = none;
}

abbrev always : ℕ → AppResult Session
always id = good old_session

abbrev there : ℕ → AppResult Bool
there id = good true

abbrev waiting_link : LinkRequest
waiting_link = record {
  id = 1;
  claim_token = codes "t";
  mode = pull;
  source_session_id = none;
  target_session_id = none;
  status = pending;
  error = none;
  expires_at = 310;
}

abbrev empty_db : Tables
empty_db = record { links = []; sessions = old_session ∷ [] }

abbrev waiting_db : Tables
waiting_db = record { links = waiting_link ∷ []; sessions = old_session ∷ [] }

abbrev claimed_db : Tables
claimed_db = record {
  links = set_claimed 7 8 waiting_link ∷ [];
  sessions = record old_session { id = 8 } ∷ old_session ∷ [];
}

create_pull : (create there 1 (codes "t") (codes "pull") none 10 empty_db).1 ≡ waiting_db
unfolding check_exists check_source create new_link parse_mode text_eq
create_pull = refl

claim-pull :
    claim always 8 (codes "t") (some 7) 20 waiting_db
    ≡ (good (record { session_id = 8; mode = pull }), claimed_db)
unfolding claim claim_read claim_write examined find_token is_pending refreshed source_of text_eq
    update_link
claim-pull = refl

waiting_link_found : find_token (codes "t") waiting_db.links ≡ some waiting_link
unfolding find_token text_eq
waiting_link_found = refl

waiting_link_key : find_id 1 waiting_db.links ≡ some waiting_link
unfolding find_id
waiting_link_key = refl

abbrev first_claim : ClaimResult
first_claim = record { session_id = 8; mode = pull }

claim-claim_example :
    (first_claim ≡ record { session_id = 8; mode = pull })
    × (claim always 9 (codes "t") (some 7) 30 claimed_db
        ≡ (err (bad_request (codes "Link token is already used or expired")), claimed_db))
    × (get_status 1 30 claimed_db ≡ told waiting_link 8)
claim-claim_example =
    claim-claim always always 8 9 (codes "t") (some 7) (some 7) 20 30 waiting_db claimed_db
      waiting_link first_claim waiting_link_found waiting_link_key claim-pull

empty_db-IsFair : IsFair 1 empty_db
empty_db-IsFair = record { keys = tt; balance = omega arith; named = tt }

abbrev created_db : Tables
created_db = (create there 1 (codes "t") (codes "pull") none 10 empty_db).1

Calls-IsFair_example : IsFair 1 (claim always 8 (codes "t") (some 7) 20 created_db).1
Calls-IsFair_example = Calls-IsFair empty_db-IsFair (
    then_call (then_call none_yet (creates there 1 (codes "t") (codes "pull") none 10 tt))
      (claims always 8 (codes "t") (some 7) 20))

waiting_link_ready :
    claim_read always (codes "t") (some 7) 20 waiting_db ≡ ready waiting_link 7 old_session
unfolding claim_read examined find_token is_pending refreshed source_of text_eq
waiting_link_ready = refl

claims_overlap_example :
    let (answer, db') =
      claim_write 8 (claim_read always (codes "t") (some 7) 20 waiting_db) waiting_db in
    let (answer', db'') =
      claim_write 9 (claim_read always (codes "t") (some 7) 20 waiting_db) db' in
    (answer ≡ good (record { session_id = 8; mode = pull }))
    × (answer' ≡ good (record { session_id = 9; mode = pull }))
    × (db''.sessions
        ≡ record old_session { id = 9 } ∷ record old_session { id = 8 } ∷ old_session ∷ [])
    × (find_token (codes "t") db''.links ≡ some (set_claimed 7 9 (set_claimed 7 8 waiting_link)))
claims_overlap_example =
    claims_overlap always always 8 9 (codes "t") (some 7) (some 7) 20 20 waiting_db waiting_link
      waiting_link 7 7 old_session old_session waiting_link_ready waiting_link_ready
