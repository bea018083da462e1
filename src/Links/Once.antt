-- ===== src/Links/Once.antt =====
-- How many sessions the link requests give: one for each request, if no two claims of it overlap.
use sc_desktop_beautiful.Prelude.{
  All, All-mono, Bool, List, Option, ap, arith, refl, some, sym, subst, ℕ, ◌+◌, ◌∙◌, ◌∷◌, ◌≡◌, ◌≢◌,
  inl, inr,
}
use mathlib.Core.Option.{some-injective}
use sc_desktop_beautiful.Errors.{AppResult, err, good}
use sc_desktop_beautiful.Links.{
  CreateLinkResult, Tables, LinkRequest, Ready, Session, Status, check_exists, check_source, claim,
  claim_read, claim_write, claimed, create, examined, refreshed, is_pending, link_request_ttl_secs,
  expired, fail_expired, failed, find_token, new_link, pending, ready, refused, set_claimed,
  update_link, Mode,
}
use sc_desktop_beautiful.Links.Spent.{claim_read-IsReady, find_token-update_link}
use sc_desktop_beautiful.Links.Updates.{
  weight, Named, IsFair, creates, claims, Calls, none_yet, then_call, update_link-Distinct,
  find_token-All, find_token-Found, update_link-count, update_link-All,
}

create-IsFair :
    (before : ℕ) (db : Tables) (get_session : ℕ → AppResult Bool) (id : ℕ) (token mode : List ℕ)
    (source : Option ℕ) (now : ℕ)
    → All (λ m. m.id ≢ id) db.links
    → IsFair before db
    → IsFair before (create get_session id token mode source now db).1
unfolding create new_link
create-IsFair before db gs id token mode source now new fair =
    checked (check_source mode source) (check_exists gs source)
  where
    stored : AppResult CreateLinkResult × Tables → Type 0
    stored p = IsFair before p.1

    checked :
        (m : AppResult Mode) (u : AppResult (Unit {0}))
        → stored (elim m [
          | err e ↦ (err e, db)
          | good m ↦ elim u [
            | err e ↦ (err e, db)
            | good u ↦ (
              good (record {
                link_request_id = id;
                claim_token = token;
                expires_at = now + link_request_ttl_secs;
              }),
              record db { links = new_link id token m source now ∷ db.links },
            )
          ]
        ])
    checked (err e) u = fair
    checked (good m) (err e) = fair
    checked (good m) (good u) = record {
      keys = (new, fair.keys);
      balance = omega (arith, fair.balance);
      named = (refl, fair.named);
    }

claim_read-expired :
    (gvs : ℕ → AppResult Session) (token : List ℕ) (caller : Option ℕ) (now : ℕ) (db : Tables)
    (l : LinkRequest)
    → claim_read gvs token caller now db ≡ expired l
    → (find_token token db.links ≡ some l) × (l.status ≡ pending)
unfolding claim_read examined refreshed is_pending
claim_read-expired gvs token caller now db l e = (ground arith, ground arith)

Named-more :
    (s : Session) (ss : List Session) (status : Status) (target : Option ℕ)
    → Named ss status target
    → Named (s ∷ ss) status target
Named-more s ss pending target n = n
Named-more s ss failed target n = n
Named-more s ss claimed target (t, e, h) = (t, e, inr h)

-- Reading and writing in one go keeps the balance.
claim_write-IsFair :
    (before new_id : ℕ) (gvs : ℕ → AppResult Session) (token : List ℕ) (caller : Option ℕ) (now : ℕ)
    (db : Tables) (r : Ready)
    → claim_read gvs token caller now db ≡ r
    → IsFair before db
    → IsFair before (claim_write new_id r db).1
unfolding claim_write
claim_write-IsFair before new_id gvs token caller now db (refused e) h fair = fair
claim_write-IsFair before new_id gvs token caller now db (expired l) h fair =
    let (found, waiting) = claim_read-expired gvs token caller now db l h in
    let at = find_token-Found fail_expired (λ k. refl) token l db.links fair.keys found in
    record {
      keys = update_link-Distinct l.id fail_expired (λ k. refl) db.links fair.keys;
      balance = omega (
        arith,
        fair.balance,
        update_link-count fail_expired (λ k. refl) token l at,
        ap weight waiting,
      );
      named =
          update_link-All fail_expired (λ k. refl) token l
            (λ k. Named db.sessions k.status k.target_session_id) at
            (subst (λ st. Named db.sessions st l.target_session_id) waiting
              (find_token-All (λ k. Named db.sessions k.status k.target_session_id) token db.links l
                fair.named found))
            fair.named;
    }
claim_write-IsFair before new_id gvs token caller now db (ready l source s) h fair =
    let q = claim_read-IsReady gvs token caller now db l source s h in
    let at =
      find_token-Found (set_claimed source new_id) (λ k. refl) token l db.links fair.keys q.found in
    record {
      keys = update_link-Distinct l.id (set_claimed source new_id) (λ k. refl) db.links fair.keys;
      balance = omega (
        arith,
        fair.balance,
        update_link-count (set_claimed source new_id) (λ k. refl) token l at,
        ap weight q.waiting,
      );
      named =
          update_link-All (set_claimed source new_id) (λ k. refl) token l
            (λ k. Named (record s { id = new_id } ∷ db.sessions) k.status k.target_session_id) at
            (new_id, refl, inl refl)
            (All-mono _ _ db.links fair.named λ k n.
              Named-more (record s { id = new_id }) db.sessions k.status k.target_session_id n);
    }

-- Whatever calls come, at whatever times and from whomever, if each claim reads and writes before
-- the next begins: the service has given out exactly one session for each request that was claimed,
-- a claimed request names a session that is there, and no other request names one.
pub Calls-IsFair :
    {before : ℕ} {db db' : Tables} → IsFair before db → Calls db db' → IsFair before db'
unfolding claim
Calls-IsFair fair none_yet = fair
Calls-IsFair {before} fair (then_call {t} cs (creates gs id token mode source now new)) =
    create-IsFair before t gs id token mode source now new (Calls-IsFair fair cs)
Calls-IsFair {before} fair (then_call {t} cs (claims gvs new_id token caller now)) =
    claim_write-IsFair before new_id gvs token caller now t (claim_read gvs token caller now t) refl
      (Calls-IsFair fair cs)

-- Two claims of one token that both read before either has written both succeed: there are two new
-- sessions, and the request names only the second.
pub claims_overlap :
    (gvs gvs' : ℕ → AppResult Session) (first second : ℕ) (token : List ℕ)
    (caller caller' : Option ℕ) (now now' : ℕ) (db : Tables) (l l' : LinkRequest)
    (source source' : ℕ) (s s' : Session)
    → claim_read gvs token caller now db ≡ ready l source s
    → claim_read gvs' token caller' now' db ≡ ready l' source' s'
    → let (answer, db') = claim_write first (claim_read gvs token caller now db) db in
      let (answer', db'') = claim_write second (claim_read gvs' token caller' now' db) db' in
      (answer ≡ good (record { session_id = first; mode = l.mode }))
      × (answer' ≡ good (record { session_id = second; mode = l.mode }))
      × (db''.sessions ≡ record s' { id = second } ∷ record s { id = first } ∷ db.sessions)
      × (find_token token db''.links
          ≡ some (set_claimed source' second (set_claimed source first l)))
unfolding claim_write
claims_overlap gvs gvs' first second token caller caller' now now' db l l' source source' s s' h
      h' =
    let q = claim_read-IsReady gvs token caller now db l source s h in
    let q' = claim_read-IsReady gvs' token caller' now' db l' source' s' h' in
    let eq : l' ≡ l = some-injective _ _ (sym q'.found ∙ q.found) in
    rw (h, h')
      (
        refl,
        ap (λ k. good (record { session_id = second; mode = k.mode })) eq,
        refl,
        ap
              (λ k. find_token token (
                update_link k.id (set_claimed source' second)
                  (update_link l.id (set_claimed source first) db.links)))
              eq
            ∙ find_token-update_link l.id (set_claimed source' second) token _
                (set_claimed source first l) (λ k. refl) refl
                (find_token-update_link l.id (set_claimed source first) token db.links l (λ k. refl)
                  refl q.found),
      )
