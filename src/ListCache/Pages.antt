-- ===== src/ListCache/Pages.antt =====
-- A page of the cache of lists is the page of the whole list.
use sc_desktop_beautiful.Prelude.{
  Bool-cases, List, Option, [], ap, arith, drop, drop-eq-nil, false, if-cases, if-true, if-false,
  if◌then◌else◌, inl, inr, leb, length, length-drop, ltb, min, none, not, refl, subst, suc, sym,
  take, take-drop-append, take_of_length-le, true, zero, ℕ, ◌&&◌, ◌*◌, ◌+◌, ◌-◌, ◌<◌, ◌∙◌, ◌≡◌, ◌≢◌,
  ◌≤◌, ◌⊎◌, ◌||◌,
}
use sc_desktop_beautiful.Prelude.Outcome.{
  Returns, Returns-mono, bind-Returns, if-Returns, ok, slice, slice-Returns, ◌>>=◌,
}
use sc_desktop_beautiful.Errors.{AppError, AppResult, err, err-injective, good}
use sc_desktop_beautiful.ListCache.{
  Slot, FetchChunkResult, ListPageResult, ListState, Redis, absent, broken, default_chunk_size,
  counted, extended, fetch_chunks, fresh, get_page, held, load, save, slice_page, under_lock,
  unwrap_or,
}
use sc_desktop_beautiful.ListCache.Upstream.{
  Fetched, IsWhole, Leads, Leads-append, Leads-eq, fetch_chunks-Fetched,
}

add_mul : (page limit : ℕ) → (page + 1) * limit ≡ page * limit + limit
add_mul page limit = grind arith

module _ {A : Type 0} where
  -- The page of the list `xs`, and whether more follows.
  pub record IsPage (xs : List A) (page limit : ℕ) (p : ListPageResult A) : Type 0 where
    pub collection : p.collection ≡ take limit (drop (page * limit) xs)
    pub number : p.page ≡ page
    pub size : p.page_size ≡ limit
    pub more : page * limit + limit < length xs → p.has_more ≡ true
    pub last : p.has_more ≡ false → length xs ≤ page * limit + limit

  -- What a slice that is cut at the end of the list holds.
  take_clipped :
      (start limit : ℕ) (xs : List A)
      → start < length xs
      → take (min (start + limit) (length xs) - start) (drop start xs) ≡ take limit (drop start xs)
  take_clipped start limit xs h = elim (Bool-cases (leb (start + limit) (length xs))) [
    | inl le ↦
        let e : min (start + limit) (length xs) - start ≡ limit = ground arith in
        ap (λ n. take n (drop start xs)) e
    | inr gt ↦
        let n : length (drop start xs) ≡ length xs - start = length-drop start xs in
        take_of_length-le _ _ (ground (arith, n))
        ∙ sym (take_of_length-le limit _ (ground (arith, n)))
  ]

  slice_clipped :
      (start limit : ℕ) (xs : List A)
      → start < length xs
      → Returns
          (λ c. c ≡ take limit (drop start xs))
          (slice xs start (min (start + limit) (length xs)))
  slice_clipped start limit xs h =
      let end : ℕ = min (start + limit) (length xs) in
      Returns-mono (λ ys. (ys ≡ take (end - start) (drop start xs)) × (length ys ≡ end - start)) _ _
        (slice-Returns xs start end (omega arith) (omega arith))
        λ c _ e. e.0 ∙ take_clipped start limit xs h

  take-drop_past :
      (start limit : ℕ) (xs : List A) → length xs ≤ start → [] ≡ take limit (drop start xs)
  take-drop_past start zero xs h = refl
  take-drop_past start (suc limit) xs h = sym (ap (take (suc limit)) (drop-eq-nil start xs h))

  -- The items of a page are there if the list goes on to the end of the page or is the whole one.
  abbrev pub Reaches : ListState A → ℕ → ℕ → Type 0
  Reaches s page limit = (page * limit + limit ≤ length s.items) ⊎ (s.exhausted ≡ true)

  module _ (fetch : Option (List ℕ) → ℕ → AppResult (FetchChunkResult A)) (size : ℕ) where
    piece_of_whole :
        (w s : ListState A) (page limit : ℕ)
        → Leads fetch size w s
        → Reaches s page limit
        → take limit (drop (page * limit) s.items) ≡ take limit (drop (page * limit) w.items)
    piece_of_whole w s page limit l (inl enough) =
        let (rest, e) = Leads-append fetch size w s l in
        sym (take-drop-append (page * limit) limit s.items rest enough)
        ∙ ap (λ xs. take limit (drop (page * limit) xs)) (sym e)
    piece_of_whole w s page limit l (inr x) =
        ap (λ r. take limit (drop (page * limit) r.items)) (Leads-eq fetch size w s l x)

    slice_page-IsPage :
        (w s : ListState A) (page limit : ℕ)
        → w.exhausted ≡ true
        → Leads fetch size w s
        → Reaches s page limit
        → Returns (IsPage w.items page limit) (slice_page s page limit)
    unfolding slice_page
    slice_page-IsPage w s page limit ended l reach =
        bind-Returns (λ c. c ≡ take limit (drop (page * limit) s.items)) (IsPage w.items page limit)
          _ _
          (if-Returns _ (leb (length s.items) (page * limit)) _ _
            (λ past. take-drop_past (page * limit) limit s.items (ground arith))
            λ before. slice_clipped (page * limit) limit s.items (ground arith))
          λ c _ e. record {
            collection = e ∙ piece_of_whole w s page limit l reach;
            number = refl;
            size = refl;
            more = λ less. elim (Bool-cases s.exhausted) [
              | inl x ↦
                  let same : length s.items ≡ length w.items =
                    ap (λ r. length r.items) (Leads-eq fetch size w s l x) in
                  ground arith
              | inr open_end ↦ ground arith
            ];
            last = λ none_left.
                let x : s.exhausted ≡ true = ground arith in
                let same : length s.items ≡ length w.items =
                  ap (λ r. length r.items) (Leads-eq fetch size w s l x) in
                ground arith;
          }

    -- What a key may hold of the list: nothing, no list, or a list that leads to the whole one.
    abbrev pub Coherent : ListState A → Slot A → Type 0
    Coherent w absent = Unit
    Coherent w broken = Unit
    Coherent w (held s) = Leads fetch size w s

    load-Coherent :
        (w : ListState A) (r : Redis) (cell : Slot A)
        → IsWhole fetch size w
        → Coherent w cell
        → Leads fetch size w (load r cell).0 × Coherent w (load r cell).1
    unfolding load
    load-Coherent w r absent whole h = ((whole.chunks, whole.reached), tt)
    load-Coherent w r broken whole h = (
      (whole.chunks, whole.reached),
      if-cases (Coherent w) (r.connects && r.reads && r.deletes) absent broken (λ _. tt) (λ _. tt),
    )
    load-Coherent w r (held s) whole h = (
      if-cases (Leads fetch size w) (r.connects && r.reads) s fresh (λ _. h)
          (λ _. (whole.chunks, whole.reached)),
      h,
    )

    -- An answer: the page, or an error of the fetcher.
    abbrev pub Answers : ListState A → ℕ → ℕ → AppResult (ListPageResult A) × Slot A → Type 0
    Answers w page limit (good p, cell) = IsPage w.items page limit p × Coherent w cell
    Answers w page limit (err e, cell) =
        ((c : Option (List ℕ)) × (fetch c size ≡ err e)) × Coherent w cell

    fetch_chunks-err :
        (left need : ℕ) (s : ListState A) (e : AppError)
        → fetch_chunks fetch left size need s ≡ err e
        → (c : Option (List ℕ)) × (fetch c size ≡ err e)
    unfolding counted fetch_chunks
    fetch_chunks-err zero need s e h = absurd (no_both h)
      where
        no_both : {o : ListState A × ℕ} → good o ≡ err e → ⊥
        no_both z = cc
    fetch_chunks-err (suc left) need s e h =
        elim (Bool-cases (ltb (length s.items) need && not s.exhausted)) [
          | inl more ↦
              failed (fetch s.next_cursor size) refl
                (λ c. fetch_chunks-err left need (extended s c) e) (sym (if-true _ _ _ more) ∙ h)
          | inr stop ↦ absurd (no_both (sym (if-false _ _ _ stop) ∙ h))
        ]
      where
        no_both : {o : ListState A × ℕ} → good o ≡ err e → ⊥
        no_both z = cc

        later : (r : AppResult (ListState A × ℕ)) → counted r ≡ err e → r ≡ err e
        later (good o) z = absurd (no_both z)
        later (err x) z = z

        failed :
            (r : AppResult (FetchChunkResult A))
            → fetch s.next_cursor size ≡ r
            → ((c : FetchChunkResult A)
                → fetch_chunks fetch left size need (extended s c) ≡ err e
                → (c : Option (List ℕ)) × (fetch c size ≡ err e))
            → (elim r [
              | err x ↦ err x
              | good fetched ↦ counted (fetch_chunks fetch left size need (extended s fetched))
            ])
              ≡ err e
            → (c : Option (List ℕ)) × (fetch c size ≡ err e)
        failed (good c) f ih z = ih c (later (fetch_chunks fetch left size need (extended s c)) z)
        failed (err x) f ih z = (s.next_cursor, f ∙ ap err (err-injective _ z))

    module _ (w : ListState A) (whole : IsWhole fetch size w) (k : ℕ)
        (filled : (c : Option (List ℕ)) (r : FetchChunkResult A)
          → fetch c size ≡ good r
          → r.next_cursor ≢ none
          → k ≤ length r.items) where
      under_lock-Answers :
          (r : Redis) (s : ListState A) (cell : Slot A) (page limit : ℕ)
          → (page + 1) * limit ≤ 8 * k
          → Leads fetch size w s
          → Coherent w cell
          → Returns (Answers w page limit) (under_lock fetch r (s, cell) size page limit)
      unfolding under_lock save
      under_lock-Answers r s cell page limit room l h =
          finished (fetch_chunks fetch 8 size ((page + 1) * limit) s) refl
        where
          finished :
              (o : AppResult (ListState A × ℕ))
              → fetch_chunks fetch 8 size ((page + 1) * limit) s ≡ o
              → Returns (Answers w page limit) (elim o [
                | err e ↦ ok (err e, cell)
                | good (t, chunks) ↦ (do
                  p ← slice_page t page limit
                  ok (good p, if ltb 0 chunks then save r t cell else cell))
              ])
          finished (err e) f = (fetch_chunks-err 8 ((page + 1) * limit) s e f, h)
          finished (good (t, chunks)) f =
              let d : Fetched fetch size w s 8 ((page + 1) * limit) k (t, chunks) =
                fetch_chunks-Fetched fetch size w whole k filled 8 ((page + 1) * limit) s
                  (t, chunks) l f in
              let reach : Reaches t page limit = elim d.enough [
                | inl met ↦ inl (omega (arith, add_mul page limit))
                | inr (inl x) ↦ inr x
                | inr (inr more) ↦ inl (omega (arith, add_mul page limit))
              ] in
              bind-Returns (IsPage w.items page limit) (Answers w page limit) _ _
                (slice_page-IsPage w t page limit whole.ended d.leads reach)
                λ p _ q. (
                  q,
                  if-cases (Coherent w) (ltb 0 chunks) (save r t cell) cell
                      (λ _.
                        if-cases (Coherent w) (r.connects && r.writes) (held t) cell (λ _. d.leads)
                          (λ _. h))
                      (λ _. h),
                )

      -- The fetcher's list comes to an end after some chunks, each of which has `k` items at least
      -- but the last, and the page ends within `8 * k` items. What the key holds when the request
      -- comes, and again when it has the lock, is nothing, no list, or as much of the list as was
      -- fetched, and any command to Redis may fail. Then the request does not panic. It answers
      -- with exactly the items of the page out of the whole list, with `has_more` true if items
      -- follow the page and false only if none do, or else with an error of the fetcher; and the
      -- key holds again nothing, no list, or as much of the list as was fetched.
      pub get_page-Answers :
          (first second third : Redis) (cell cell' : Slot A) (chunk_size : Option ℕ)
          (page limit : ℕ)
          → unwrap_or chunk_size default_chunk_size ≡ size
          → (page + 1) * limit ≤ 8 * k
          → Coherent w cell
          → Coherent w cell'
          → Returns
              (Answers w page limit)
              (get_page fetch first second third cell cell' chunk_size page limit)
      unfolding get_page
      get_page-Answers first second third cell cell' chunk_size page limit same room h h' =
          let l = load-Coherent w first cell whole h in
          let l' = load-Coherent w second cell' whole h' in
          if-Returns (Answers w page limit)
            (leb ((page + 1) * limit) (length (load first cell).0.items)
              || (load first cell).0.exhausted)
            _ _
            (λ there.
              bind-Returns (IsPage w.items page limit) (Answers w page limit) _ _
                (slice_page-IsPage w (load first cell).0 page limit whole.ended l.0
                  (reaches (load first cell).0 there))
                λ p _ q. (q, l.1))
            (λ _.
              subst
                (λ n.
                  Returns (Answers w page limit)
                    (under_lock fetch third (load second cell') n page limit))
                (sym same)
                (under_lock-Answers third (load second cell').0 (load second cell').1 page limit
                  room l'.0 l'.1))
        where
          reaches :
              (s : ListState A)
              → (leb ((page + 1) * limit) (length s.items) || s.exhausted) ≡ true
              → Reaches s page limit
          reaches s there = elim (Bool-cases s.exhausted) [
            | inl x ↦ inr x
            | inr more ↦ inl (ground (arith, add_mul page limit))
          ]
