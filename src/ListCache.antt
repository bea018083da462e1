-- ===== src/ListCache.antt =====
-- The cache of lists, backend/src/cache/list_cache_service.rs: lists of SoundCloud that come in chunks
-- with cursors are kept in Redis as far as they were fetched, and handed out in pages. Redis and the
-- fetcher are parameters.
pub mod Upstream
pub mod Pages
mod Tests
use sc_desktop_beautiful.Prelude.{
  Bool, List, Option, [], false, if◌then◌else◌, leb, length, ltb, min, none, not, some, suc, true,
  zero, ℕ, ◌&&◌, ◌*◌, ◌++◌, ◌+◌, ◌||◌,
}
use sc_desktop_beautiful.Prelude.Outcome.{Outcome, ok, slice, ◌>>=◌}
use sc_desktop_beautiful.Errors.{AppResult, err, good}

abbrev pub max_chunks_per_request : ℕ
max_chunks_per_request = 8

abbrev pub default_chunk_size : ℕ
default_chunk_size = 200

unfoldable pub is_none : Option (List ℕ) → Bool
is_none none = true
is_none (some c) = false

-- `unwrap_or`
unfoldable pub unwrap_or : Option ℕ → ℕ → ℕ
unwrap_or none d = d
unwrap_or (some n) d = n

module _ (A : Type 0) where
  pub record ListPageResult : Type 0 where
    pub collection : List A
    pub page : ℕ
    pub page_size : ℕ
    pub has_more : Bool

  pub record FetchChunkResult : Type 0 where
    pub items : List A
    pub next_cursor : Option (List ℕ)

  pub record ListState : Type 0 where
    pub items : List A
    pub next_cursor : Option (List ℕ)
    pub exhausted : Bool

  -- What Redis holds under a key: nothing, a text that is no list, or a list.
  pub data Slot : Type 0 where
    absent : Slot
    broken : Slot
    held : ListState → Slot

-- Which commands of one connection to Redis succeed.
pub record Redis : Type 0 where
  pub connects : Bool
  pub reads : Bool
  pub deletes : Bool
  pub writes : Bool

module _ {A : Type 0} where
  -- `ListState::default()`
  abbrev pub fresh : ListState A
  fresh = record { items = []; next_cursor = none; exhausted = false }

  -- The state that is read, and what the key holds then.
  unfoldable pub load : Redis → Slot A → ListState A × Slot A
  load r absent = (fresh, absent)
  load r broken = (fresh, if r.connects && r.reads && r.deletes then absent else broken)
  load r (held state) = (if r.connects && r.reads then state else fresh, held state)

  unfoldable pub save : Redis → ListState A → Slot A → Slot A
  save r state cell = if r.connects && r.writes then held state else cell

  unfoldable pub slice_page : ListState A → ℕ → ℕ → Outcome (ListPageResult A)
  slice_page state page limit = do
    let start = page * limit
    let end = start + limit
    let total = length state.items
    collection ← if leb total start then ok [] else slice state.items start (min end total)
    ok (record {
      collection = collection;
      page = page;
      page_size = limit;
      has_more = not state.exhausted || ltb end total;
    })

  -- What the loop makes of a chunk.
  unfoldable pub extended : ListState A → FetchChunkResult A → ListState A
  extended state fetched = record {
    items = state.items ++ fetched.items;
    next_cursor = fetched.next_cursor;
    exhausted = is_none fetched.next_cursor;
  }

  -- `chunks += 1`
  unfoldable pub counted : AppResult (ListState A × ℕ) → AppResult (ListState A × ℕ)
  counted (err e) = err e
  counted (good (state, chunks)) = good (state, suc chunks)

  module _ (fetch : Option (List ℕ) → ℕ → AppResult (FetchChunkResult A)) where
    -- The loop, on as many chunks as are left to the request. It returns the state and how many
    -- chunks were fetched.
    unfoldable pub fetch_chunks : ℕ → ℕ → ℕ → ListState A → AppResult (ListState A × ℕ)
    fetch_chunks zero chunk_size need state = good (state, 0)
    fetch_chunks (suc left) chunk_size need state =
        if ltb (length state.items) need && not state.exhausted
        then elim (fetch state.next_cursor chunk_size) [
          | err e ↦ err e
          | good fetched ↦ counted (fetch_chunks left chunk_size need (extended state fetched))
        ]
        else good (state, 0)

    -- What is done with the lock of the key held.
    unfoldable pub under_lock :
        Redis → ListState A × Slot A → ℕ → ℕ → ℕ → Outcome (AppResult (ListPageResult A) × Slot A)
    under_lock r (state, cell) chunk_size page limit =
        elim (fetch_chunks max_chunks_per_request chunk_size ((page + 1) * limit) state) [
          | err e ↦ ok (err e, cell)
          | good (state', chunks) ↦ (do
            p ← slice_page state' page limit
            ok (good p, if ltb 0 chunks then save r state' cell else cell))
        ]

    -- The key holds `cell` when the request comes and `cell'` when it has the lock of the key.
    unfoldable pub get_page :
        Redis
        → Redis
        → Redis
        → Slot A
        → Slot A
        → Option ℕ
        → ℕ
        → ℕ
        → Outcome (AppResult (ListPageResult A) × Slot A)
    get_page first second third cell cell' chunk_size page limit =
        let need = (page + 1) * limit in
        let (state, kept) = load first cell in
        if leb need (length state.items) || state.exhausted
        then (do p ← slice_page state page limit; ok (good p, kept))
        else under_lock third (load second cell') (unwrap_or chunk_size default_chunk_size) page
            limit
