-- ===== src/Streaming/Handler/Answers.antt =====
-- Which source answers a request, streaming/src/stream/handler.rs.
use sc_desktop_beautiful.Prelude.{
  Bool, List, Option, [], ap, false, if◌then◌else◌, none, refl, some, true, ℕ, ◌∙◌, ◌∷◌, ◌≡◌,
}
use sc_desktop_beautiful.Streaming.Handler.{
  Clients, Found, Reply, RestrictedSource, Said, Site, Source, World, anon, ask, cookies, decoded,
  good, hq_sources, kept, last_source, no_stream, oauth, or_data, or_response, refused,
  respond_with_data, restricted, restricted_source, said, sq_sources, streamed, teed, try_anon,
  try_cookies, try_oauth, try_restricted, whole,
}

-- The order of the sources.
abbrev pub plan : Bool → Bool → List Source
plan true is_premium =
    oauth true
    ∷ cookies true
    ∷ restricted true
    ∷ oauth false
    ∷ anon
    ∷ cookies false
    ∷ restricted false
    ∷ []
plan false true = oauth false ∷ anon ∷ cookies false ∷ restricted false ∷ []
plan false false = oauth false ∷ anon ∷ restricted false ∷ []

-- The chunks and their type, if there are any.
abbrev pub typed :
    List ℕ → Option (List (Option (List ℕ))) → Option (List ℕ × List (Option (List ℕ)))
typed content_type none = none
typed content_type (some chunks) = some (content_type, chunks)

abbrev pub chunks_made :
    Option (List ℕ → Option (List (Option (List ℕ))))
    → Option RestrictedSource
    → Option (List ℕ × List (Option (List ℕ)))
chunks_made none source = none
chunks_made (some process) none = none
chunks_made (some process) (some (manifest, content_type)) = typed content_type (process manifest)

module _ (site : Site) (c : Clients) (access : List ℕ) where
  -- What a source has, whole or in chunks.
  abbrev pub data_of : Source → Option Found
  data_of (oauth hq) = c.oauth access hq
  data_of (cookies hq) = elim c.cookies [ none ↦ none | some get_stream ↦ said (get_stream hq) ]
  data_of anon = said c.anon
  data_of (restricted hq) = none

  abbrev pub chunks_of : Source → Option (List ℕ × List (Option (List ℕ)))
  chunks_of (oauth hq) = none
  chunks_of (cookies hq) = none
  chunks_of anon = none
  chunks_of (restricted hq) = chunks_made c.process_stream (restricted_source c hq)

  abbrev pub is_set_up : Source → Bool
  is_set_up (oauth hq) = true
  is_set_up (cookies hq) = elim c.cookies [ none ↦ false | some get_stream ↦ true ]
  is_set_up anon = true
  is_set_up (restricted hq) = elim c.process_stream [ none ↦ false | some process ↦ true ]

  -- The first source of a list that has the track answers, and no later one is asked.
  pub data Serves : List Source → World → Reply × World → Type 0 where
    whole_of :
        {s : Source} {more : List Source} {w : World} (r : Found)
        → data_of s ≡ some r
        → Serves (s ∷ more) w (good (whole r.1 r.0), kept site r.0 (ask s w))
    chunks_from :
        {s : Source} {more : List Source} {w : World} (r : List ℕ × List (Option (List ℕ)))
        → chunks_of s ≡ some r
        → Serves (s ∷ more) w (good (streamed r.0 r.1), teed site r.1 (ask s w))
    has_none :
        {s : Source} {more : List Source} {w : World} {out : Reply × World}
        → data_of s ≡ none
        → chunks_of s ≡ none
        → Serves more (ask s w) out
        → Serves (s ∷ more) w out
    not_set_up :
        {s : Source} {more : List Source} {w : World} {out : Reply × World}
        → is_set_up s ≡ false
        → Serves more w out
        → Serves (s ∷ more) w out
    nobody : {w : World} → Serves [] w (refused no_stream, w)

  abbrev Goes : List Source → (World → Reply × World) → Type 0
  Goes more next = (w : World) → Serves more w (next w)

  or_data-Goes :
      (s : Source) (more : List Source) (next : World → Reply × World) (w : World)
      (o : Option Found)
      → data_of s ≡ o
      → chunks_of s ≡ none
      → Goes more next
      → Serves (s ∷ more) w (or_data site (o, ask s w) next)
  unfolding or_data respond_with_data
  or_data-Goes s more next w (some r) e n h = whole_of r e
  or_data-Goes s more next w none e n h = has_none e n (h (ask s w))

  try_oauth-Goes :
      (hq : Bool) (more : List Source) (next : World → Reply × World)
      → Goes more next
      → Goes (oauth hq ∷ more) (λ w. or_data site (try_oauth c access hq w) next)
  unfolding try_oauth
  try_oauth-Goes hq more next h w = or_data-Goes (oauth hq) more next w _ refl refl h

  try_anon-Goes :
      (more : List Source) (next : World → Reply × World)
      → Goes more next
      → Goes (anon ∷ more) (λ w. or_data site (try_anon c w) next)
  unfolding try_anon
  try_anon-Goes more next h w = or_data-Goes anon more next w _ refl refl h

  try_cookies-Goes :
      (hq : Bool) (more : List Source) (next : World → Reply × World)
      → Goes more next
      → Goes (cookies hq ∷ more) (λ w. or_data site (try_cookies c hq w) next)
  unfolding try_cookies or_data
  try_cookies-Goes hq more next h w = go c.cookies refl
    where
      go :
          (o : Option (Bool → Said Found))
          → c.cookies ≡ o
          → Serves (cookies hq ∷ more) w (
              or_data site
                (elim o [
                  | none ↦ (none, w)
                  | some get_stream ↦ (said (get_stream hq), ask (cookies hq) w)
                ])
                next)
      go none e = not_set_up (rw e refl) (h w)
      go (some get_stream) e = or_data-Goes (cookies hq) more next w _ (rw e refl) refl h

  try_restricted-Goes :
      (hq : Bool) (more : List Source) (next : World → Reply × World)
      → Goes more next
      → Goes (restricted hq ∷ more) (λ w. or_response (try_restricted site c hq w) next)
  unfolding try_restricted or_response decoded
  try_restricted-Goes hq more next h w = go c.process_stream refl
    where
      made :
          (process : List ℕ → Option (List (Option (List ℕ)))) (o : Option RestrictedSource)
          → c.process_stream ≡ some process
          → restricted_source c hq ≡ o
          → chunks_of (restricted hq) ≡ chunks_made (some process) o
      made process o e k =
          ap (λ q. chunks_made q (restricted_source c hq)) e ∙ ap (chunks_made (some process)) k

      chunks :
          (process : List ℕ → Option (List (Option (List ℕ))))
          → c.process_stream ≡ some process
          → (v : RestrictedSource) → restricted_source c hq ≡ some v
          → (o : Option (List (Option (List ℕ)))) → process v.0 ≡ o
          → Serves
              (restricted hq ∷ more)
              w
              (or_response (decoded site v.1 o (ask (restricted hq) w)) next)
      chunks process e v k none z =
          has_none refl (made process (some v) e k ∙ ap (typed v.1) z) (h (ask (restricted hq) w))
      chunks process e v k (some got) z =
          chunks_from (v.1, got) (made process (some v) e k ∙ ap (typed v.1) z)

      sourced :
          (process : List ℕ → Option (List (Option (List ℕ))))
          → c.process_stream ≡ some process
          → (o : Option RestrictedSource) → restricted_source c hq ≡ o
          → Serves (restricted hq ∷ more) w (
              or_response
                (elim o [
                  | none ↦ (none, ask (restricted hq) w)
                  | some (manifest, content_type) ↦
                      decoded site content_type (process manifest) (ask (restricted hq) w)
                ])
                next)
      sourced process e none k = has_none refl (made process none e k) (h (ask (restricted hq) w))
      sourced process e (some v) k = chunks process e v k (process v.0) refl

      go :
          (o : Option (List ℕ → Option (List (Option (List ℕ)))))
          → c.process_stream ≡ o
          → Serves (restricted hq ∷ more) w (
              or_response
                (elim o [
                  | none ↦ (none, w)
                  | some process ↦ elim (restricted_source c hq) [
                    | none ↦ (none, ask (restricted hq) w)
                    | some (manifest, content_type) ↦
                        decoded site content_type (process manifest) (ask (restricted hq) w)
                  ]
                ])
                next)
      go none e = not_set_up (rw e refl) (h w)
      go (some process) e = sourced process e (restricted_source c hq) refl

  last_source-Goes : Goes (restricted false ∷ []) (last_source site c access)
  unfolding last_source
  last_source-Goes = try_restricted-Goes false [] (λ w. (refused no_stream, w)) (λ w. nobody)

  pub sources-Goes :
      (hq is_premium : Bool)
      → Goes
          (plan hq is_premium)
          (λ w. if hq then hq_sources site c access w else sq_sources site c access is_premium w)
  unfolding hq_sources sq_sources
  sources-Goes true is_premium = try_oauth-Goes true _ _ (
      try_cookies-Goes true _ _ (
        try_restricted-Goes true _ _ (
          try_oauth-Goes false _ _
            (try_anon-Goes _ _ (try_cookies-Goes false _ _ last_source-Goes)))))
  sources-Goes false true =
      try_oauth-Goes false _ _ (try_anon-Goes _ _ (try_cookies-Goes false _ _ last_source-Goes))
  sources-Goes false false = try_oauth-Goes false _ _ (try_anon-Goes _ _ last_source-Goes)
