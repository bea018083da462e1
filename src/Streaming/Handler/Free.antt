-- ===== src/Streaming/Handler/Free.antt =====
-- What a user without premium gets, streaming/src/stream/handler.rs.
use sc_desktop_beautiful.Prelude.{All, List, false, true, ℕ}
use sc_desktop_beautiful.Streaming.Handler.{
  Clients, Site, Source, World, anon, cookies, oauth, restricted,
}

-- The sources that need no premium.
abbrev pub IsFree : Source → Type 0
IsFree (oauth true) = ⊥
IsFree (oauth false) = Unit
IsFree (cookies hq) = ⊥
IsFree anon = Unit
IsFree (restricted true) = ⊥
IsFree (restricted false) = Unit

module _ (site : Site) (c : Clients) (access : List ℕ) (P : Source → Type 0) where
  abbrev Asked : World → Type 0
  Asked w = All P w.asked
