-- ===== src/Streaming/Playlist/Shown.antt =====
-- Playlists as they are written, and that `parse_m3u8` of streaming/src/stream/hls.rs reads them.
use sc_desktop_beautiful.Prelude.{
  All, Bool, List, Option, [], ap, append-nil, append_assoc, arith, false, none, some, true, ℕ,
  ◌++◌, ◌==◌, ◌||◌, ◌∷◌, ◌≡◌, ◌≢◌, ◌∙◌, sym, refl, if-true, if-false, Bool-cases, inl, inr,
}
use sc_desktop_beautiful.Prelude.Text.{contains, split_once, starts_with, trim}
use sc_desktop_beautiful.Streaming.Hls.{SegmentSource}
use sc_desktop_beautiful.Streaming.Playlist.{
  behind, first_of, is_empty, lines, map_tag, named_part, plain_line, read_tag, parse_m3u8,
  read_line, read_lines, resolve_url,
}

-- A comment or another tag, the url of a segment, and the tag that names the first part.
pub data Entry : Type 0 where
  remark : List ℕ → Entry
  segment : List ℕ → Entry
  first_part : List ℕ → List ℕ → Entry

abbrev pub shown : Entry → List ℕ
shown (remark text) = 35 ∷ text
shown (segment url) = url
shown (first_part uri tail) = map_tag ++ uri ++ 34 ∷ tail

-- An entry ends with "\r\n" or "\n".
abbrev pub ending : Bool → List ℕ
ending true = 13 ∷ 10 ∷ []
ending false = 10 ∷ []

abbrev pub written : List (Entry × Bool) → List ℕ
written [] = []
written ((e, crlf) ∷ es) = shown e ++ ending crlf ++ written es

abbrev pub Printable : Entry → Type 0
Printable (remark text) = contains (35 ∷ text) map_tag ≡ false
Printable (segment url) =
    (contains url map_tag ≡ false) × (starts_with url (35 ∷ []) ≡ false) × (url ≢ [])
Printable (first_part uri tail) = All (λ c. c ≢ 34) uri

-- An entry that stands on one line, with no space around it.
abbrev pub OnLine : Entry × Bool → Type 0
OnLine (e, crlf) =
    Printable e × (trim (shown e) ≡ shown e) × All (λ c. (c ≢ 10) × (c ≢ 13)) (shown e)

lines-shown :
    (line rest : List ℕ) (crlf : Bool)
    → All (λ c. (c ≢ 10) × (c ≢ 13)) line
    → lines (line ++ ending crlf ++ rest) ≡ line ∷ lines rest
unfolding lines first_of starts_with
lines-shown [] rest true h = refl
lines-shown [] rest false h = refl
lines-shown (c ∷ cs) rest crlf (h, hs) =
    let ten : (c == 10) ≡ false = ground arith in
    let cr : (c == 13) ≡ false = ground arith in rw (ten, cr, lines-shown cs rest crlf hs)

behind-none : (s t : List ℕ) → contains s t ≡ false → behind s t ≡ none
unfolding behind contains
behind-none [] t h = refl
behind-none (c ∷ cs) t h = elim (Bool-cases (starts_with (c ∷ cs) t)) [
  | inl found ↦ absurd (wrong (sym h ∙ ap (λ b. b || contains cs t) found))
  | inr other ↦
      if-false _ _ _ other ∙ behind-none cs t (sym (ap (λ b. b || contains cs t) other) ∙ h)
]
  where
    wrong : false ≡ true → ⊥
    wrong k = cc

split_once-quote :
    (uri tail : List ℕ)
    → All (λ c. c ≢ 34) uri
    → split_once 34 (uri ++ 34 ∷ tail) ≡ some (uri, tail)
unfolding split_once
split_once-quote [] tail h = refl
split_once-quote (c ∷ cs) tail (h, hs) =
    let other : (c == 34) ≡ false = ground arith in rw (other, split_once-quote cs tail hs)

is_empty-false : (s : List ℕ) → s ≢ [] → is_empty s ≡ false
unfolding is_empty
is_empty-false [] h = absurd (h refl)
is_empty-false (c ∷ cs) h = refl

behind-map_tag : (s : List ℕ) → behind (map_tag ++ s) map_tag ≡ some s
unfolding behind starts_with
behind-map_tag s = refl

starts_with-hash : (text : List ℕ) → starts_with (35 ∷ text) (35 ∷ []) ≡ true
unfolding starts_with
starts_with-hash [] = refl
starts_with-hash (c ∷ cs) = refl

module _ (join : List ℕ → Option (List ℕ)) where
  -- The url of the first part is the last that is named.
  abbrev pub last_part : Option (List ℕ) → List (Entry × Bool) → Option (List ℕ)
  last_part init [] = init
  last_part init ((remark text, crlf) ∷ es) = last_part init es
  last_part init ((segment url, crlf) ∷ es) = last_part init es
  last_part init ((first_part uri tail, crlf) ∷ es) = last_part (some (resolve_url join uri)) es

  abbrev pub segments_of : List (Entry × Bool) → List (List ℕ)
  segments_of [] = []
  segments_of ((remark text, crlf) ∷ es) = segments_of es
  segments_of ((segment url, crlf) ∷ es) = resolve_url join url ∷ segments_of es
  segments_of ((first_part uri tail, crlf) ∷ es) = segments_of es

  read_lines-shown :
      (line rest : List ℕ) (crlf : Bool) (source : SegmentSource)
      → trim line ≡ line
      → All (λ c. (c ≢ 10) × (c ≢ 13)) line
      → read_lines join (lines (line ++ ending crlf ++ rest)) source
        ≡ read_lines join (lines rest) (read_line join line source)
  unfolding read_lines
  read_lines-shown line rest crlf source t c =
      ap (λ ls. read_lines join ls source) (lines-shown line rest crlf c)
      ∙ ap (λ l. read_lines join (lines rest) (read_line join l source)) t

  read_line-remark :
      (text : List ℕ) (source : SegmentSource)
      → contains (35 ∷ text) map_tag ≡ false
      → read_line join (35 ∷ text) source ≡ source
  unfolding plain_line read_line read_tag
  read_line-remark text source p =
      ap (λ o. read_tag join o (35 ∷ text) source) (behind-none (35 ∷ text) map_tag p)
      ∙ if-true _ _ _ (ap (λ b. b || is_empty (35 ∷ text)) (starts_with-hash text))

  read_line-segment :
      (url : List ℕ) (init : Option (List ℕ)) (urls : List (List ℕ))
      → Printable (segment url)
      → read_line join url (init, urls) ≡ (init, urls ++ resolve_url join url ∷ [])
  unfolding plain_line read_line read_tag
  read_line-segment url init urls (p, hash, more) =
      ap (λ o. read_tag join o url (init, urls)) (behind-none url map_tag p)
      ∙ if-false _ _ _ (ap (λ b. b || is_empty url) hash ∙ is_empty-false url more)

  read_line-first_part :
      (uri tail : List ℕ) (init : Option (List ℕ)) (urls : List (List ℕ))
      → Printable (first_part uri tail)
      → read_line join (map_tag ++ uri ++ 34 ∷ tail) (init, urls)
        ≡ (some (resolve_url join uri), urls)
  unfolding named_part read_line read_tag
  read_line-first_part uri tail init urls p =
      let line : List ℕ = map_tag ++ uri ++ 34 ∷ tail in
      ap (λ o. read_tag join o line (init, urls)) (behind-map_tag (uri ++ 34 ∷ tail))
      ∙ ap (λ o. named_part join o (init, urls)) (split_once-quote uri tail p)

  read_lines-written :
      (es : List (Entry × Bool)) (init : Option (List ℕ)) (urls : List (List ℕ))
      → All OnLine es
      → read_lines join (lines (written es)) (init, urls)
        ≡ (last_part init es, urls ++ segments_of es)
  unfolding read_lines lines
  read_lines-written [] init urls h = rw (append-nil urls)
  read_lines-written ((remark text, crlf) ∷ es) init urls ((p, t, c), hs) =
      read_lines-shown (35 ∷ text) (written es) crlf (init, urls) t c
      ∙ ap (read_lines join (lines (written es))) (read_line-remark text (init, urls) p)
      ∙ read_lines-written es init urls hs
  read_lines-written ((segment url, crlf) ∷ es) init urls ((p, t, c), hs) =
      read_lines-shown url (written es) crlf (init, urls) t c
      ∙ ap (read_lines join (lines (written es))) (read_line-segment url init urls p)
      ∙ read_lines-written es init (urls ++ resolve_url join url ∷ []) hs
      ∙ ap (λ xs. (last_part init es, xs))
          (append_assoc urls (resolve_url join url ∷ []) (segments_of es))
  read_lines-written ((first_part uri tail, crlf) ∷ es) init urls ((p, t, c), hs) =
      read_lines-shown (map_tag ++ uri ++ 34 ∷ tail) (written es) crlf (init, urls) t c
      ∙ ap (read_lines join (lines (written es))) (read_line-first_part uri tail init urls p)
      ∙ read_lines-written es (some (resolve_url join uri)) urls hs

  -- A playlist of comments, urls of segments and tags for the first part, each trimmed and on a line
  -- of its own that ends with a line feed or with a carriage return and a line feed, gives back the
  -- urls of the segments in their order and the url of the last first part that is named, all of
  -- them resolved. Only a tag for the first part holds that tag's text, a segment's url is not empty
  -- and does not begin with `#`, and a first part's url holds no quote.
  pub parse_m3u8-written :
      (es : List (Entry × Bool))
      → All OnLine es
      → parse_m3u8 join (written es) ≡ (last_part none es, segments_of es)
  unfolding parse_m3u8
  parse_m3u8-written es h = read_lines-written es none [] h
