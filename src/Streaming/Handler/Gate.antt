-- ===== src/Streaming/Handler/Gate.antt =====
-- Who gets what of a request, streaming/src/stream/handler.rs.
use sc_desktop_beautiful.Prelude.{Bool, List, Option, false, none, some, true, ℕ, ◌≡◌, ◌⊎◌}
use sc_desktop_beautiful.Prelude.Text.{codes}
use sc_desktop_beautiful.Streaming.Breaker.{Storage, try_serve}
use sc_desktop_beautiful.Streaming.Handler.{
  Clients, Header, Lookup, Pg, Reply, SessionInfo, Site, StreamQuery, World, check_is_premium,
  extract_session_id, failed, forbidden, found, good, internal, is_hq, nothing, redirect, refused,
  unauthorized,
}
use sc_desktop_beautiful.Streaming.Handler.Answers.{Serves, plan}

module _ (premium_only : Bool) (site : Site) (c : Clients) (pg : Pg) (l : Lookup) where
  abbrev pub stored : World → Option (List ℕ) × Storage
  stored w = try_serve site.client l.asked_at l.cached l.head site.track_urn w.storage

  -- The user may have the track, or has to be premium for it.
  abbrev pub NeedsMore : Bool → SessionInfo → Type 0
  NeedsMore hq session =
      (check_is_premium pg session ≡ false) × ((premium_only ≡ true) ⊎ (hq ≡ true))

  abbrev pub MayHave : Bool → SessionInfo → Type 0
  MayHave hq session =
      (check_is_premium pg session ≡ true) ⊎ ((premium_only ≡ false) × (hq ≡ false))

  -- The ends of a request that has a session.
  pub data Admits (hq : Bool) (session : SessionInfo) (w : World) : Reply × World → Type 0 where
    not_allowed : NeedsMore hq session → Admits hq session w (refused forbidden, w)
    from_storage :
        (url : List ℕ) (s : Storage)
        → MayHave hq session
        → stored w ≡ (some url, s)
        → Admits hq session w (good (redirect url), record w { storage = s })
    from_sources :
        {out : Reply × World} (s : Storage)
        → MayHave hq session
        → stored w ≡ (none, s)
        → Serves site c session.access_token
            (plan hq (check_is_premium pg session))
            (record w { storage = s })
            out
        → Admits hq session w out

  -- The ends of a request.
  pub data Ends (header : Header) (query : StreamQuery) (w : World) : Reply × World → Type 0 where
    no_id : extract_session_id header query ≡ none → Ends header query w (refused unauthorized, w)
    pg_fails :
        (id : List ℕ)
        → extract_session_id header query ≡ some id
        → pg.get_session id ≡ failed
        → Ends header query w (refused (internal (codes "pg")), w)
    no_session :
        (id : List ℕ)
        → extract_session_id header query ≡ some id
        → pg.get_session id ≡ nothing
        → Ends header query w (refused unauthorized, w)
    has_session :
        {out : Reply × World} (id : List ℕ) (session : SessionInfo)
        → extract_session_id header query ≡ some id
        → pg.get_session id ≡ found session
        → Admits (is_hq query.hq) session w out
        → Ends header query w out
