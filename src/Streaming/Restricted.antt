-- ===== src/Streaming/Restricted.antt =====
-- The choice of an encrypted transcoding, streaming/src/stream/restricted.rs.
pub mod Picked
use sc_desktop_beautiful.Prelude.{
  Bool, List, Option, [], false, if◌then◌else◌, none, some, ℕ, ◌&&◌, ◌++◌, ◌∷◌, not,
}
use sc_desktop_beautiful.Prelude.Text.{codes, contains, split, text_eq, trim}

pub record TranscodingFormat : Type 0 where
  pub protocol : Option (List ℕ)
  pub mime_type : Option (List ℕ)

pub record Transcoding : Type 0 where
  pub url : List ℕ
  pub quality : Option (List ℕ)
  pub format : Option TranscodingFormat

-- `o == Some(text)`
unfoldable pub is_text : List ℕ → Option (List ℕ) → Bool
is_text text none = false
is_text text (some t) = text_eq t text

unfoldable pub is_encrypted : Transcoding → Bool
is_encrypted t = elim t.format [
  | none ↦ false
  | some f ↦ is_text (codes "ctr-encrypted-hls") f.protocol
]

-- `Iterator::find`
unfoldable pub find : (Transcoding → Bool) → List Transcoding → Option Transcoding
find test [] = none
find test (t ∷ ts) = let rest = find test ts in if test t then some t else rest

unfoldable pub is_wanted : Bool → Transcoding → Bool
is_wanted hq t = is_encrypted t && is_text (if hq then codes "hq" else codes "sq") t.quality

unfoldable pub or_else : Option Transcoding → Option Transcoding → Option Transcoding
or_else none other = other
or_else (some t) other = some t

unfoldable pub pick_encrypted : List Transcoding → Bool → Option Transcoding
pick_encrypted transcodings hq_first =
    or_else
      (or_else (find (is_wanted hq_first) transcodings)
        (find (is_wanted (not hq_first)) transcodings))
      (find is_encrypted transcodings)

unfoldable pub content_type_from_mime : Option (List ℕ) → List ℕ
content_type_from_mime none = codes "audio/mp4"
content_type_from_mime (some m) =
    let kind = trim (split 59 m).0 in
    if text_eq kind (codes "audio/mpeg")
    then codes "audio/mpeg"
    else if text_eq kind (codes "audio/ogg")
    then codes "audio/ogg"
    else codes "audio/mp4"

unfoldable pub authorized : List ℕ → Option (List ℕ) → List ℕ
authorized target none = target
authorized target (some []) = target
authorized target (some (c ∷ cs)) = target ++ codes "&track_authorization=" ++ (c ∷ cs)

unfoldable pub build_transcoding_target : List ℕ → List ℕ → Option (List ℕ) → List ℕ
build_transcoding_target url client_id track_authorization =
    let sep = if contains url (codes "?") then codes "&" else codes "?" in
    authorized (url ++ sep ++ codes "client_id=" ++ client_id) track_authorization

-- What the two requests come to: the address and the token, and the manifest; an error ends with none.
pub record Resolved : Type 0 where
  pub url : List ℕ
  pub auth_token : Option (List ℕ)

pub data Said (A : Type 0) : Type 0 where
  fault : Said A
  nothing : Said A
  source : A → Said A

unfoldable pub mime_of : Transcoding → Option (List ℕ)
mime_of t = elim t.format [ none ↦ none | some f ↦ f.mime_type ]

-- The manifest, the token and the type.
unfoldable pub resolve :
    (List ℕ → Option Resolved)
    → (List ℕ → Option (List ℕ))
    → List Transcoding
    → List ℕ
    → Option (List ℕ)
    → Bool
    → Said (List ℕ × List ℕ × List ℕ)
resolve fetch_json fetch_text transcodings client_id track_auth hq_first =
    elim (pick_encrypted transcodings hq_first) [
      | none ↦ nothing
      | some t ↦ elim (fetch_json (build_transcoding_target t.url client_id track_auth)) [
        | none ↦ fault
        | some r ↦ elim r.auth_token [
          | none ↦ nothing
          | some token ↦ elim (fetch_text r.url) [
            | none ↦ fault
            | some manifest ↦ source (manifest, token, content_type_from_mime (mime_of t))
          ]
        ]
      ]
    ]
