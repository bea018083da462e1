-- ===== src/Links/Spent.antt =====
-- A link token that was claimed is spent, as long as the claims do not overlap.
use sc_desktop_beautiful.Prelude.{
  List, Option, [], ap, arith, false, ltb, none, refl, some, sym, ℕ, ◌∙◌, ◌∷◌, ◌≡◌,
}
use sc_desktop_beautiful.Prelude.Text.{codes}
use mathlib.Core.Option.{some-injective}
use sc_desktop_beautiful.Errors.{AppResult, bad_request, err, good, good-injective}
use sc_desktop_beautiful.Links.{
  ClaimResult, Tables, LinkRequest, LinkStatusResult, Ready, Session, claim, claim_read,
  claim_write, claimed, examined, expired, find_id, find_token, get_status, is_pending, pending,
  pull, push, ready, refreshed, refused, set_claimed, shown_session, source_of, status_text,
  update_link,
}

-- What a claim has read when it goes on to write.
pub record IsReady (get_valid_session : ℕ → AppResult Session) (token : List ℕ) (caller : Option ℕ)
    (now : ℕ) (db : Tables) (l : LinkRequest) (source : ℕ) (s : Session) : Type 0 where
  pub found : find_token token db.links ≡ some l
  pub waiting : l.status ≡ pending
  pub in_time : ltb l.expires_at now ≡ false
  pub from : source_of l caller ≡ good source
  pub valid : get_valid_session source ≡ good s

module _ (get_valid_session : ℕ → AppResult Session) (token : List ℕ) (caller : Option ℕ) (now : ℕ)
    (db : Tables) where
  pub claim_read-IsReady :
      (l : LinkRequest) (source : ℕ) (s : Session)
      → claim_read get_valid_session token caller now db ≡ ready l source s
      → IsReady get_valid_session token caller now db l source s
  unfolding claim_read examined refreshed is_pending
  claim_read-IsReady l source s e = ground arith

-- A claim that succeeds wrote what a row that was ready asks for.
claim_write-good :
    (new_id : ℕ) (r : Ready) (db db' : Tables) (c : ClaimResult)
    → claim_write new_id r db ≡ (good c, db')
    → (l : LinkRequest) × (source : ℕ) × (s : Session) × (r ≡ ready l source s)
      × (c ≡ record { session_id = new_id; mode = l.mode })
      × (db' ≡ record db {
        links = update_link l.id (set_claimed source new_id) db.links;
        sessions = record s { id = new_id } ∷ db.sessions;
      })
unfolding claim_write
claim_write-good new_id (refused e) db db' c h = absurd (no_both (ap (λ p. p.0) h))
  where
    no_both : err e ≡ good c → ⊥
    no_both z = cc
claim_write-good new_id (expired l) db db' c h = absurd (no_both (ap (λ p. p.0) h))
  where
    no_both : err (bad_request (codes "Link token expired")) ≡ good c → ⊥
    no_both z = cc
claim_write-good new_id (ready l source s) db db' c h =
    (l, source, s, refl, good-injective (ap (λ p. p.0) (sym h)), ap (λ p. p.1) (sym h))

module _ (id : ℕ) (f : LinkRequest → LinkRequest) where
  -- The row that a token finds is still found by it when it is updated.
  pub find_token-update_link :
      (token : List ℕ) (ls : List LinkRequest) (l : LinkRequest)
      → ((l : LinkRequest) → (f l).claim_token ≡ l.claim_token)
      → l.id ≡ id
      → find_token token ls ≡ some l
      → find_token token (update_link id f ls) ≡ some (f l)
  unfolding find_token update_link
  find_token-update_link token [] l keep same e = cc
  find_token-update_link token (m ∷ ls) l keep same e =
      ground (arith, keep m, keep l, find_token-update_link token ls l keep same)

  pub find_id-update_link :
      (ls : List LinkRequest) (l : LinkRequest)
      → ((l : LinkRequest) → (f l).id ≡ l.id)
      → find_id id ls ≡ some l
      → find_id id (update_link id f ls) ≡ some (f l)
  unfolding find_id update_link
  find_id-update_link [] l keep e = cc
  find_id-update_link (m ∷ ls) l keep e =
      ground (arith, keep m, keep l, find_id-update_link ls l keep)

-- What a link request tells once it was claimed: only a device that pulls learns of the session.
abbrev pub told : LinkRequest → ℕ → LinkStatusResult
told l new_id = record {
  status = codes "claimed";
  mode = l.mode;
  session_id = elim l.mode [ pull ↦ some new_id | push ↦ none ];
  error = l.error;
}

claimed_not_pending : is_pending claimed ≡ false
unfolding is_pending
claimed_not_pending = refl

-- A row that is not pending refuses every claim, and nothing changes.
claim_refused :
    (get_valid_session : ℕ → AppResult Session) (new_id : ℕ) (token : List ℕ) (caller : Option ℕ)
    (now : ℕ) (db : Tables) (l : LinkRequest)
    → find_token token db.links ≡ some l
    → is_pending l.status ≡ false
    → claim get_valid_session new_id token caller now db
      ≡ (err (bad_request (codes "Link token is already used or expired")), db)
unfolding claim claim_read claim_write examined
claim_refused gvs new_id token caller now db l e p = ground arith

get_status-told :
    (id now new_id source : ℕ) (db : Tables) (l : LinkRequest)
    → find_id id db.links ≡ some (set_claimed source new_id l)
    → get_status id now db ≡ told l new_id
unfolding get_status is_pending shown_session status_text
get_status-told id now new_id source db l e = ground arith

-- When the claim of a token succeeded, every later claim of it is refused, by whomever and whenever,
-- and changes nothing; and the status of the request tells of the new session if a device pulls it,
-- and of no session if a device pushed it. The id of the request is its own.
pub claim-claim :
    (get_valid_session get_valid_session' : ℕ → AppResult Session) (new_id new_id' : ℕ)
    (token : List ℕ) (caller caller' : Option ℕ) (now now' : ℕ) (db db' : Tables) (l : LinkRequest)
    (c : ClaimResult)
    → find_token token db.links ≡ some l
    → find_id l.id db.links ≡ some l
    → claim get_valid_session new_id token caller now db ≡ (good c, db')
    → (c ≡ record { session_id = new_id; mode = l.mode })
      × (claim get_valid_session' new_id' token caller' now' db'
          ≡ (err (bad_request (codes "Link token is already used or expired")), db'))
      × (get_status l.id now' db' ≡ told l new_id)
unfolding claim
claim-claim gvs gvs' new_id new_id' token caller caller' now now' db db' l c at key h =
    let (m, source, s, r, same, after) =
      claim_write-good new_id (claim_read gvs token caller now db) db db' c h in
    let q : IsReady gvs token caller now db m source s =
      claim_read-IsReady gvs token caller now db m source s r in
    let eq : m ≡ l = some-injective _ _ (sym q.found ∙ at) in
    let links : db'.links ≡ update_link l.id (set_claimed source new_id) db.links =
      ap (λ d. d.links) after
      ∙ ap (λ k. update_link k.id (set_claimed source new_id) db.links) eq in
    (
      same ∙ ap (λ k. record { session_id = new_id; mode = k.mode }) eq,
      claim_refused gvs' new_id' token caller' now' db' (set_claimed source new_id l)
          (ap (find_token token) links
            ∙ find_token-update_link l.id (set_claimed source new_id) token db.links l (λ k. refl)
                refl at)
          claimed_not_pending,
      get_status-told l.id now' new_id source db' l (
          ap (find_id l.id) links
          ∙ find_id-update_link l.id (set_claimed source new_id) db.links l (λ k. refl) key),
    )
