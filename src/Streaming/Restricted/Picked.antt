-- ===== src/Streaming/Restricted/Picked.antt =====
-- Which transcoding is picked, streaming/src/stream/restricted.rs.
use sc_desktop_beautiful.Prelude.{
  All, Bool, List, Option, [], arith, false, if-cases, inl, inr, none, refl, some, true, ◌∷◌, ◌≡◌,
  ◌⊎◌, not,
}
use sc_desktop_beautiful.Streaming.Restricted.{
  Transcoding, find, is_encrypted, is_wanted, or_else, pick_encrypted,
}

abbrev pub IsIn : Transcoding → List Transcoding → Type 0
IsIn t [] = ⊥
IsIn t (u ∷ us) = (u ≡ t) ⊎ IsIn t us

-- The first one that passes the test, or none passes.
abbrev Finds : (Transcoding → Bool) → List Transcoding → Option Transcoding → Type 0
Finds test ts none = All (λ t. test t ≡ false) ts
Finds test ts (some t) = IsIn t ts × (test t ≡ true)

later :
    (test : Transcoding → Bool) (t : Transcoding) (ts : List Transcoding) (o : Option Transcoding)
    → test t ≡ false
    → Finds test ts o
    → Finds test (t ∷ ts) o
later test t ts none e h = (e, h)
later test t ts (some u) e h = (inr h.0, h.1)

find-Finds : (test : Transcoding → Bool) (ts : List Transcoding) → Finds test ts (find test ts)
unfolding find
find-Finds test [] = tt
find-Finds test (t ∷ ts) =
    if-cases (Finds test (t ∷ ts)) (test t) _ _ (λ e. (inl refl, e))
      λ e. later test t ts (find test ts) e (find-Finds test ts)

-- The one that is picked is encrypted. It has the quality that is wanted if an encrypted one has, or
-- else the other quality if one has that; if none is picked, none is encrypted.
abbrev pub Picks : List Transcoding → Bool → Option Transcoding → Type 0
Picks ts hq none = All (λ t. is_encrypted t ≡ false) ts
Picks ts hq (some t) =
    IsIn t ts
    × (is_encrypted t ≡ true)
    × ((is_wanted hq t ≡ true)
        ⊎ (All (λ u. is_wanted hq u ≡ false) ts
            × ((is_wanted (not hq) t ≡ true) ⊎ All (λ u. is_wanted (not hq) u ≡ false) ts)))

wanted_is_encrypted : (hq : Bool) (t : Transcoding) → is_wanted hq t ≡ true → is_encrypted t ≡ true
unfolding is_wanted
wanted_is_encrypted hq t e = ground arith

pub pick_encrypted-Picks : (ts : List Transcoding) (hq : Bool) → Picks ts hq (pick_encrypted ts hq)
unfolding pick_encrypted or_else
pick_encrypted-Picks ts hq =
    go (find (is_wanted hq) ts) (find (is_wanted (not hq)) ts) (find is_encrypted ts)
      (find-Finds (is_wanted hq) ts) (find-Finds (is_wanted (not hq)) ts)
      (find-Finds is_encrypted ts)
  where
    go :
        (a b c : Option Transcoding)
        → Finds (is_wanted hq) ts a
        → Finds (is_wanted (not hq)) ts b
        → Finds is_encrypted ts c
        → Picks ts hq (or_else (or_else a b) c)
    go (some t) b c h k m = (h.0, wanted_is_encrypted hq t h.1, inl h.1)
    go none (some t) c h k m = (k.0, wanted_is_encrypted (not hq) t k.1, inr (h, inl k.1))
    go none none (some t) h k m = (m.0, m.1, inr (h, inr k))
    go none none none h k m = m
