-- ===== src/Streaming/Playlist.antt =====
-- The reader of a playlist, `parse_m3u8` of streaming/src/stream/hls.rs. What `Url::join` gives for the
-- base is a parameter.
pub mod Shown
use sc_desktop_beautiful.Prelude.{
  Bool, List, Option, [], drop, false, if◌then◌else◌, length, none, some, true, ℕ, ◌&&◌, ◌++◌, ◌==◌,
  ◌||◌, ◌∷◌,
}
use sc_desktop_beautiful.Prelude.Text.{codes, split_once, starts_with, trim}
use sc_desktop_beautiful.Streaming.Hls.{SegmentSource}

-- `str::lines`: a line ends at "\n" or "\r\n", and the last one need not end.
unfoldable pub first_of : ℕ → List (List ℕ) → List (List ℕ)
first_of c [] = (c ∷ []) ∷ []
first_of c (line ∷ rest) = (c ∷ line) ∷ rest

unfoldable pub lines : List ℕ → List (List ℕ)
lines [] = []
lines (c ∷ cs) =
    let rest = lines cs in
    if c == 10
    then [] ∷ rest
    else if c == 13 && starts_with cs (10 ∷ [])
    then rest
    else first_of c rest

-- What stands behind the first place where `t` is, `t` not being empty.
unfoldable pub behind : List ℕ → List ℕ → Option (List ℕ)
behind [] t = none
behind (c ∷ cs) t = if starts_with (c ∷ cs) t then some (drop (length t) (c ∷ cs)) else behind cs t

unfoldable pub is_empty : List ℕ → Bool
is_empty [] = true
is_empty (c ∷ cs) = false

abbrev pub map_tag : List ℕ
map_tag = codes "#EXT-X-MAP:URI=\""

module _ (join : List ℕ → Option (List ℕ)) where
  unfoldable pub resolve_url : List ℕ → List ℕ
  resolve_url url =
      if starts_with url (codes "http://") || starts_with url (codes "https://")
      then url
      else elim (join url) [ some u ↦ u | none ↦ url ]

  -- A line with the tag, cut at the quote that ends the url.
  unfoldable pub named_part : Option (List ℕ × List ℕ) → SegmentSource → SegmentSource
  named_part none source = source
  named_part (some (uri, tail)) (init, urls) = (some (resolve_url uri), urls)

  -- A line without it.
  unfoldable pub plain_line : List ℕ → SegmentSource → SegmentSource
  plain_line line (init, urls) =
      if starts_with line (35 ∷ []) || is_empty line
      then (init, urls)
      else (init, urls ++ resolve_url line ∷ [])

  unfoldable pub read_tag : Option (List ℕ) → List ℕ → SegmentSource → SegmentSource
  read_tag (some rest) line source = named_part (split_once 34 rest) source
  read_tag none line source = plain_line line source

  -- One turn of the loop, on the trimmed line.
  unfoldable pub read_line : List ℕ → SegmentSource → SegmentSource
  read_line line source = read_tag (behind line map_tag) line source

  unfoldable pub read_lines : List (List ℕ) → SegmentSource → SegmentSource
  read_lines [] source = source
  read_lines (line ∷ rest) source = read_lines rest (read_line (trim line) source)

  unfoldable pub parse_m3u8 : List ℕ → SegmentSource
  parse_m3u8 content = read_lines (lines content) (none, [])
