-- ===== src/TrackCache/Names/Urns.antt =====
-- From the name of a cached file back to the urn of its track.
use sc_desktop_beautiful.Prelude.{
  All, Bool, Bool-cases, List, Option, [], ap, arith, false, if◌then◌else◌, inl, inr, length,
  length-append, none, refl, some, suc, sym, true, ℕ, ◌++◌, ◌<◌, ◌∙◌, ◌∷◌, ◌≡◌, ◌≢◌,
}
use sc_desktop_beautiful.Prelude.Text.{codes, text_eq}
use sc_desktop_beautiful.TrackCache.Names.{
  PlaybackQuality, cache_filename, filename_to_urn, hq, replace, sq, strip_suffix, urn_to_filename,
  urn_to_hq_filename,
}

text_eq_refl : (s : List ℕ) → text_eq s s ≡ true
unfolding text_eq
text_eq_refl [] = refl
text_eq_refl (c ∷ cs) = ground (arith, text_eq_refl cs)

-- Texts of different length differ.
text_eq-length : (s t : List ℕ) → text_eq s t ≡ true → length s ≡ length t
unfolding text_eq
text_eq-length [] [] e = refl
text_eq-length [] (d ∷ ds) e = cc
text_eq-length (c ∷ cs) [] e = cc
text_eq-length (c ∷ cs) (d ∷ ds) e = ap suc (text_eq-length cs ds (ground arith))

text_eq_differ : (s t : List ℕ) → length s ≢ length t → text_eq s t ≡ false
text_eq_differ s t h = elim (Bool-cases (text_eq s t)) [
  | inl e ↦ absurd (h (text_eq-length s t e))
  | inr e ↦ e
]

text_eq-append : (s t b : List ℕ) → text_eq (s ++ b) (t ++ b) ≡ text_eq s t
unfolding text_eq
text_eq-append [] [] b = text_eq_refl b
text_eq-append [] (d ∷ ds) b =
    text_eq_differ b (d ∷ (ds ++ b)) (λ e. omega (arith, length-append ds b))
text_eq-append (c ∷ cs) [] b =
    text_eq_differ (c ∷ (cs ++ b)) b (λ e. omega (arith, length-append cs b))
text_eq-append (c ∷ cs) (d ∷ ds) b = rw (text_eq-append cs ds b) refl

-- What the first part of a test leaves to the rest.
abbrev onto : ℕ → Option (List ℕ) → Option (List ℕ)
onto c o = elim o [ none ↦ none | some front ↦ some (c ∷ front) ]

strip_suffix-longer : (s suffix : List ℕ) → length s < length suffix → strip_suffix s suffix ≡ none
unfolding strip_suffix
strip_suffix-longer [] suffix h = rw (text_eq_differ [] suffix (λ e. omega arith)) refl
strip_suffix-longer (c ∷ cs) suffix h =
    rw (text_eq_differ (c ∷ cs) suffix (λ e. omega arith))
      (ap (onto c) (strip_suffix-longer cs suffix (omega arith)))

strip_suffix-append : (s suffix : List ℕ) → strip_suffix (s ++ suffix) suffix ≡ some s
unfolding strip_suffix
strip_suffix-append [] [] = rw (text_eq_refl []) refl
strip_suffix-append [] (c ∷ cs) = rw (text_eq_refl (c ∷ cs)) refl
strip_suffix-append (c ∷ cs) suffix =
    rw (text_eq_differ (c ∷ (cs ++ suffix)) suffix (λ e. omega (arith, length-append cs suffix)))
      (ap (onto c) (strip_suffix-append cs suffix))

neither :
    (c : ℕ) (t : Bool) (o : Option (List ℕ))
    → (if t then some [] else onto c o) ≡ none
    → (t ≡ false) × (o ≡ none)
neither c true o e = cc
neither c false none e = (refl, refl)
neither c false (some s) e = cc

-- A common end of the two texts does not matter.
strip_suffix-common :
    (s a b : List ℕ) → strip_suffix s a ≡ none → strip_suffix (s ++ b) (a ++ b) ≡ none
unfolding strip_suffix
strip_suffix-common [] [] b h =
    let e : none ≡ some [] = sym h ∙ ap (λ t. if t then some [] else none) (text_eq_refl []) in cc
strip_suffix-common [] (d ∷ ds) b h =
    strip_suffix-longer b (d ∷ (ds ++ b)) (omega (arith, length-append ds b))
strip_suffix-common (c ∷ cs) a b h =
    let (other, rest) = neither c (text_eq (c ∷ cs) a) (strip_suffix cs a) h in
    rw (text_eq-append (c ∷ cs) a b ∙ other) (ap (onto c) (strip_suffix-common cs a b rest))

-- A text that `replace` writes none of, and a test that sees none of what it changes.
text_eq-replace :
    (from to : ℕ) (s t : List ℕ)
    → All (λ d. (d ≢ from) × (d ≢ to)) t
    → text_eq s t ≡ false
    → text_eq (replace from to s) t ≡ false
unfolding replace text_eq
text_eq-replace from to [] [] h e = e
text_eq-replace from to [] (d ∷ ds) h e = refl
text_eq-replace from to (c ∷ cs) [] h e = refl
text_eq-replace from to (c ∷ cs) (d ∷ ds) h e = ground (arith, text_eq-replace from to cs ds h.1)

replace-replace :
    (from to : ℕ) (s : List ℕ) → All (λ c. c ≢ to) s → replace to from (replace from to s) ≡ s
unfolding replace
replace-replace from to [] h = refl
replace-replace from to (c ∷ cs) h = ground (arith, replace-replace from to cs h.1)

-- What `replace` does leaves no end `suffix` where there was none.
strip_suffix-replace :
    (from to : ℕ) (s suffix : List ℕ)
    → All (λ d. (d ≢ from) × (d ≢ to)) suffix
    → strip_suffix s suffix ≡ none
    → strip_suffix (replace from to s) suffix ≡ none
unfolding strip_suffix replace
strip_suffix-replace from to [] suffix h e = e
strip_suffix-replace from to (c ∷ cs) suffix h e =
    let (other, rest) = neither c (text_eq (c ∷ cs) suffix) (strip_suffix cs suffix) e in
    rw (text_eq-replace from to (c ∷ cs) suffix h other)
      (ap (onto _) (strip_suffix-replace from to cs suffix h rest))

-- The urn of a track has no `_` and does not end in `.hq`.
unfoldable pub IsPlain : List ℕ → Type 0
IsPlain urn = All (λ c. c ≢ 95) urn × (strip_suffix urn (codes ".hq") ≡ none)

hq_name :
    (filename base : List ℕ)
    → strip_suffix filename (codes ".hq.audio") ≡ some base
    → filename_to_urn filename ≡ some (replace 95 58 base)
unfolding filename_to_urn
hq_name filename base e = rw (e, filename_to_urn) refl

sq_name :
    (filename base : List ℕ)
    → strip_suffix filename (codes ".hq.audio") ≡ none
    → strip_suffix filename (codes ".audio") ≡ some base
    → filename_to_urn filename ≡ some (replace 95 58 base)
unfolding filename_to_urn
sq_name filename base e k = rw (e, filename_to_urn) (rw k refl)

-- The name of a cached file of either quality tells the urn, when the urn has no `_` and does not end
-- in `.hq`.
filename_to_urn-cache_filename :
    (urn : List ℕ) (quality : PlaybackQuality)
    → IsPlain urn
    → filename_to_urn (cache_filename urn quality) ≡ some urn
unfolding cache_filename urn_to_hq_filename urn_to_filename IsPlain
filename_to_urn-cache_filename urn hq h =
    hq_name _ _ (strip_suffix-append (replace 58 95 urn) (codes ".hq.audio"))
    ∙ ap some (replace-replace 58 95 urn h.0)
filename_to_urn-cache_filename urn sq h =
    sq_name _ _
      (strip_suffix-common (replace 58 95 urn) (codes ".hq") (codes ".audio") (
        strip_suffix-replace 58 95 urn (codes ".hq")
          (
            (omega arith, omega arith),
            ((omega arith, omega arith), ((omega arith, omega arith), tt)),
          )
          h.1))
      (strip_suffix-append (replace 58 95 urn) (codes ".audio"))
    ∙ ap some (replace-replace 58 95 urn h.0)
