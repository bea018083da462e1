-- ===== src/SyncQueue/Actions.antt =====
-- The kinds of action of backend/src/modules/sync_queue/actions, and which one undoes which.
use sc_desktop_beautiful.Prelude.{
  Option, String, arith, false, if◌then◌else◌, inl, inr, none, refl, some, str_eq, str_eq_iff, sym,
  ◌∙◌, ◌≡◌, ◌≢◌, ◌⊎◌,
}

-- The `KIND` constants.
abbrev pub like_track : String
like_track = "like_track"

abbrev pub unlike_track : String
unlike_track = "unlike_track"

abbrev pub like_playlist : String
like_playlist = "like_playlist"

abbrev pub unlike_playlist : String
unlike_playlist = "unlike_playlist"

abbrev pub follow_user : String
follow_user = "follow_user"

abbrev pub unfollow_user : String
unfollow_user = "unfollow_user"

unfoldable pub inverse : String → Option String
inverse action_type =
    if str_eq action_type like_track
    then some unlike_track
    else if str_eq action_type unlike_track
    then some like_track
    else if str_eq action_type like_playlist
    then some unlike_playlist
    else if str_eq action_type unlike_playlist
    then some like_playlist
    else if str_eq action_type follow_user
    then some unfollow_user
    else if str_eq action_type unfollow_user
    then some follow_user
    else none

abbrev Pairs : String → String → Type 0
Pairs a b =
    ((a ≡ like_track) × (b ≡ unlike_track))
    ⊎ (((a ≡ unlike_track) × (b ≡ like_track))
        ⊎ (((a ≡ like_playlist) × (b ≡ unlike_playlist))
            ⊎ (((a ≡ unlike_playlist) × (b ≡ like_playlist))
                ⊎ (((a ≡ follow_user) × (b ≡ unfollow_user))
                    ⊎ ((a ≡ unfollow_user) × (b ≡ follow_user))))))

inverse-Pairs : (a b : String) → inverse a ≡ some b → Pairs a b
unfolding inverse
inverse-Pairs a b e = ground (
  arith,
  str_eq_iff a like_track,
  str_eq_iff a unlike_track,
  str_eq_iff a like_playlist,
  str_eq_iff a unlike_playlist,
  str_eq_iff a follow_user,
  str_eq_iff a unfollow_user,
)

-- An action is undone by the one that it undoes.
pub inverse-inverse : (a b : String) → inverse a ≡ some b → inverse b ≡ some a
inverse-inverse a b e = go (inverse-Pairs a b e)
  where
    go : Pairs a b → inverse b ≡ some a
    go (inl (p, q)) = rw (p, q) (unfold inverse in refl)
    go (inr (inl (p, q))) = rw (p, q) (unfold inverse in refl)
    go (inr (inr (inl (p, q)))) = rw (p, q) (unfold inverse in refl)
    go (inr (inr (inr (inl (p, q))))) = rw (p, q) (unfold inverse in refl)
    go (inr (inr (inr (inr (inl (p, q)))))) = rw (p, q) (unfold inverse in refl)
    go (inr (inr (inr (inr (inr (p, q)))))) = rw (p, q) (unfold inverse in refl)

inverse-ne : (a b : String) → inverse a ≡ some b → a ≢ b
inverse-ne a b e same = go (inverse-Pairs a b e)
  where
    differ : (s t : String) → str_eq s t ≡ false → a ≡ s → b ≡ t → ⊥
    differ s t h p q = cc ((str_eq_iff s t).1 (sym p ∙ same ∙ q))

    go : Pairs a b → ⊥
    go (inl (p, q)) = differ _ _ refl p q
    go (inr (inl (p, q))) = differ _ _ refl p q
    go (inr (inr (inl (p, q)))) = differ _ _ refl p q
    go (inr (inr (inr (inl (p, q))))) = differ _ _ refl p q
    go (inr (inr (inr (inr (inl (p, q)))))) = differ _ _ refl p q
    go (inr (inr (inr (inr (inr (p, q)))))) = differ _ _ refl p q
