-- ===== src/ListCache/Tests.antt =====
-- A list of five items that comes in two chunks.
use sc_desktop_beautiful.Prelude.{
  List, Option, [], ap, arith, false, length, none, refl, some, subst, sym, true, ℕ, ◌∷◌, ◌≡◌, ◌≢◌,
  ◌≤◌,
}
use sc_desktop_beautiful.Prelude.Outcome.{Returns, ok, slice}
use sc_desktop_beautiful.Errors.{AppResult, good, good-injective}
use sc_desktop_beautiful.ListCache.{
  FetchChunkResult, ListState, Redis, absent, counted, default_chunk_size, extended, fetch_chunks,
  get_page, held, is_none, load, save, slice_page, under_lock, unwrap_or,
}
use sc_desktop_beautiful.ListCache.Upstream.{IsWhole, Leads, step}
use sc_desktop_beautiful.ListCache.Pages.{Answers, get_page-Answers}

abbrev first_chunk : FetchChunkResult ℕ
first_chunk = record { items = 1 ∷ 2 ∷ 3 ∷ []; next_cursor = some (7 ∷ []) }

abbrev last_chunk : FetchChunkResult ℕ
last_chunk = record { items = 4 ∷ 5 ∷ []; next_cursor = none }

abbrev two_chunks : Option (List ℕ) → ℕ → AppResult (FetchChunkResult ℕ)
two_chunks none size = good first_chunk
two_chunks (some cursor) size = good last_chunk

abbrev whole_list : ListState ℕ
whole_list = record { items = 1 ∷ 2 ∷ 3 ∷ 4 ∷ 5 ∷ []; next_cursor = none; exhausted = true }

abbrev half_list : ListState ℕ
half_list = record { items = 1 ∷ 2 ∷ 3 ∷ []; next_cursor = some (7 ∷ []); exhausted = false }

abbrev up : Redis
up = record { connects = true; reads = true; deletes = true; writes = true }

two_chunks-IsWhole : IsWhole two_chunks 3 whole_list
unfolding extended is_none step
two_chunks-IsWhole = record { ended = refl; chunks = 2; reached = refl }

two_chunks_filled :
    (c : Option (List ℕ)) (r : FetchChunkResult ℕ)
    → two_chunks c 3 ≡ good r
    → r.next_cursor ≢ none
    → 2 ≤ length r.items
two_chunks_filled none r e h =
    subst (λ xs. 2 ≤ length xs) (ap (λ c. c.items) (good-injective e)) (omega arith)
two_chunks_filled (some cursor) r e h =
    absurd (h (sym (ap (λ c. c.next_cursor) (good-injective e))))

second_page :
    get_page two_chunks up up up absent (held half_list) (some 3) 1 2
    ≡ ok (
      good (record { collection = 3 ∷ 4 ∷ []; page = 1; page_size = 2; has_more = true }),
      held whole_list,
    )
unfolding counted extended fetch_chunks get_page is_none load save slice slice_page under_lock
    unwrap_or
second_page = refl

some_three : unwrap_or (some 3) default_chunk_size ≡ 3
unfolding unwrap_or
some_three = refl

half_list-Leads : Leads two_chunks 3 whole_list half_list
unfolding extended is_none step
half_list-Leads = (1, refl)

get_page-Answers_example :
    Returns
      (Answers two_chunks 3 whole_list 1 2)
      (get_page two_chunks up up up absent (held half_list) (some 3) 1 2)
get_page-Answers_example =
    get_page-Answers two_chunks 3 whole_list two_chunks-IsWhole 2 two_chunks_filled up up up absent
      (held half_list) (some 3) 1 2 some_three (omega arith) tt half_list-Leads
