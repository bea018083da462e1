-- ===== src/Streaming/Tests.antt =====
-- A pool of two accounts, the first of which is cooling down, an encoded value, and two playlists: one
-- whose second segment only a refresh brings, and one that is written out and read.
use sc_desktop_beautiful.Prelude.{
  not, ◌==◌, Bool-cases, inl, inr, sym, ap, ◌∙◌, Option, true, false, All, ◌≢◌, ◌++◌, Bool, List,
  if◌then◌else◌, [], arith, leb, length, none, refl, some, ℕ, ◌&&◌, ◌∷◌, ◌≡◌,
}
use sc_desktop_beautiful.Prelude.Outcome.{Reply, Returns, fault, got, index, ok}
use sc_desktop_beautiful.Prelude.Text.{
  codes, contains, is_whitespace, split, split_once, starts_with, text_eq, trim, trim_end,
  trim_start,
}
use sc_desktop_beautiful.Streaming.Cookie.{
  bytes_of, cookie_in, decode_bytes, digit_or_zero, first_cookie, hex_digit, parse_cookie_value,
  urlencoding_decode, utf8_bytes,
}
use sc_desktop_beautiful.Streaming.CookiesPool.{
  CookiesClient, CookiesPool, answered, ascii_lower, exhausted, is_cooling, is_rate_limited, rotate,
  set_until, try_rotate,
}
use sc_desktop_beautiful.Streaming.Hls.{
  SegmentSource, download_hls, download_segments, fetch_segment_batch, joined, pending, recover,
  segment_loop, unfetched,
}
use sc_desktop_beautiful.Streaming.Hls.Finish.{Downloaded, download_hls-Downloaded}
use sc_desktop_beautiful.Streaming.Playlist.{
  behind, first_of, is_empty, lines, named_part, plain_line, read_tag, parse_m3u8, read_line,
  read_lines, resolve_url,
}
use sc_desktop_beautiful.Streaming.Playlist.Shown.{
  Entry, OnLine, first_part, last_part, parse_m3u8-written, remark, segment, segments_of, shown,
  written,
}
use sc_desktop_beautiful.Streaming.CookiesPool.Rotation.{Settled, try_rotate-Settled}

abbrev first_client : CookiesClient
first_client = record { cookies = codes "a=1"; token = codes "1" }

abbrev second_client : CookiesClient
second_client = record { cookies = codes "b=2"; token = codes "2" }

abbrev two_accounts : CookiesPool
two_accounts = record {
  entries =
      record { client = first_client; rate_limited_until = some 50 }
      ∷ record { client = second_client; rate_limited_until = none }
      ∷ [];
  cursor = 2;
}

abbrev busy : CookiesClient → Reply ℕ
busy c = fault (codes "status 429")

abbrev serving : CookiesClient → Reply ℕ
serving c = got (length c.token)

cookie_runs :
    parse_cookie_value (codes "x=1; oauth_token = 2%2d3 ") (codes "oauth_token")
    ≡ some (codes "2-3")
unfolding parse_cookie_value first_cookie cookie_in split split_once trim trim_start trim_end
    is_whitespace text_eq urlencoding_decode decode_bytes bytes_of utf8_bytes digit_or_zero
    hex_digit
cookie_runs = refl

-- The account that is cooling down is passed over.
serving_runs : try_rotate serving two_accounts 20 ≡ ok (record two_accounts { cursor = 1 }, got 1)
unfolding try_rotate rotate answered index is_cooling set_until
serving_runs = refl

busy_runs :
    try_rotate busy two_accounts 20
    ≡ ok (
      record two_accounts {
        entries =
            record { client = first_client; rate_limited_until = some 50 }
            ∷ record { client = second_client; rate_limited_until = some 50 }
            ∷ [];
      },
      fault (codes "status 429"),
    )
unfolding try_rotate rotate answered index is_cooling set_until is_rate_limited contains starts_with
    exhausted ascii_lower
busy_runs = refl

try_rotate-Settled_example :
    Returns (Settled busy 20 two_accounts.entries) (try_rotate busy two_accounts 20)
try_rotate-Settled_example = try_rotate-Settled busy two_accounts 20 (omega arith)

-- Only letters are kept.
abbrev letter : ℕ → Bool
letter b = leb 97 b && leb b 122

-- The second url of the first playlist is stale.
abbrev fetch_but_b : ℕ → List ℕ → Reply (List ℕ)
fetch_but_b turn url = if text_eq url (codes "b") then fault (codes "gone") else got url

abbrev as_asked : ℕ → List ℕ → List ℕ
as_asked turn indices = indices

abbrev fresh_playlist : ℕ → Reply SegmentSource
fresh_playlist used = got (none, codes "c" ∷ codes "d" ∷ [])

abbrev stale_playlist : Reply SegmentSource
stale_playlist = got (some (codes "i"), codes "a" ∷ codes "b" ∷ [])

second_segment_refreshed :
    download_hls fetch_but_b as_asked (some fresh_playlist) got stale_playlist
    ≡ ok (got (codes "iad"))
unfolding contains download_hls download_segments fetch_segment_batch index joined pending recover
    segment_loop starts_with text_eq unfetched
second_segment_refreshed = refl

download_hls-Downloaded_example :
    Returns
      (Downloaded fetch_but_b as_asked (some fresh_playlist) got stale_playlist)
      (download_hls fetch_but_b as_asked (some fresh_playlist) got stale_playlist)
download_hls-Downloaded_example =
    download_hls-Downloaded fetch_but_b as_asked (some fresh_playlist) (λ turn xs j m. m)
      (λ turn xs j m. m) got stale_playlist

abbrev joined_to_base : List ℕ → Option (List ℕ)
joined_to_base url = some (codes "https://h/" ++ url)

abbrev entries : List (Entry × Bool)
entries =
    (remark (codes "X"), false)
    ∷ (first_part (codes "i") [], true)
    ∷ (segment (codes "a"), true)
    ∷ (segment (codes "http://b"), false)
    ∷ []

abbrev has_no_end : List ℕ → Bool
has_no_end [] = true
has_no_end (c ∷ cs) = not (c == 10) && (not (c == 13) && has_no_end cs)

on_one_line : (s : List ℕ) → has_no_end s ≡ true → All (λ c. (c ≢ 10) × (c ≢ 13)) s
on_one_line [] h = tt
on_one_line (c ∷ cs) h = elim (Bool-cases (c == 10)) [
  | inl ten ↦ absurd (wrong (sym h ∙ ap (λ b. not b && (not (c == 13) && has_no_end cs)) ten))
  | inr other ↦
      let h' : (not (c == 13) && has_no_end cs) ≡ true =
        sym (ap (λ b. not b && (not (c == 13) && has_no_end cs)) other) ∙ h in
      elim (Bool-cases (c == 13)) [
        | inl cr ↦ absurd (wrong (sym h' ∙ ap (λ b. not b && has_no_end cs) cr))
        | inr third ↦ (
          ((λ e. ground arith), (λ e. ground arith)),
          on_one_line cs (sym (ap (λ b. not b && has_no_end cs) third) ∙ h'),
        )
      ]
]
  where
    wrong : true ≡ false → ⊥
    wrong k = cc

entries-OnLine : All OnLine entries
unfolding contains is_whitespace starts_with trim trim_end trim_start
entries-OnLine = (
  (refl, refl, on_one_line (shown (remark (codes "X"))) refl),
  (
    (((λ e. omega arith), tt), refl, on_one_line (shown (first_part (codes "i") [])) refl),
    (
      ((refl, refl, λ e. cc), refl, on_one_line (shown (segment (codes "a"))) refl),
      (((refl, refl, λ e. cc), refl, on_one_line (shown (segment (codes "http://b"))) refl), tt),
    ),
  ),
)

parse_m3u8-written_example :
    parse_m3u8 joined_to_base (written entries)
    ≡ (last_part joined_to_base none entries, segments_of joined_to_base entries)
parse_m3u8-written_example = parse_m3u8-written joined_to_base entries entries-OnLine

playlist_read :
    parse_m3u8 joined_to_base (written entries)
    ≡ (some (codes "https://h/i"), codes "https://h/a" ∷ codes "http://b" ∷ [])
unfolding behind first_of is_empty is_whitespace lines named_part parse_m3u8 plain_line read_line
    read_tag read_lines resolve_url split_once starts_with trim trim_end trim_start
playlist_read = refl
