-- ===== src/Streaming/Cookie.antt =====
-- Cookies, streaming/src/config.rs. A text is the list of its characters.
pub mod Encoding
use sc_desktop_beautiful.Prelude.{
  List, Option, [], if◌then◌else◌, leb, ltb, none, some, ℕ, ◌%◌, ◌&&◌, ◌*◌, ◌++◌, ◌+◌, ◌-◌, ◌/◌,
  ◌==◌, ◌∷◌,
}
use sc_desktop_beautiful.Prelude.Text.{split, split_once, text_eq, trim}

-- The bytes of a character in UTF-8.
unfoldable pub utf8_bytes : ℕ → List ℕ
utf8_bytes c =
    if ltb c 128
    then c ∷ []
    else if ltb c 2048
    then (192 + c / 64) ∷ (128 + c % 64) ∷ []
    else if ltb c 65536
    then (224 + c / 4096) ∷ (128 + c / 64 % 64) ∷ (128 + c % 64) ∷ []
    else (240 + c / 262144) ∷ (128 + c / 4096 % 64) ∷ (128 + c / 64 % 64) ∷ (128 + c % 64) ∷ []

unfoldable pub bytes_of : List ℕ → List ℕ
bytes_of [] = []
bytes_of (c ∷ cs) = utf8_bytes c ++ bytes_of cs

unfoldable pub hex_digit : ℕ → Option ℕ
hex_digit b =
    if leb 48 b && leb b 57
    then some (b - 48)
    else if leb 97 b && leb b 102
    then some (b - 97 + 10)
    else if leb 65 b && leb b 70
    then some (b - 65 + 10)
    else none

-- `hex_digit(b).unwrap_or(0)`
unfoldable pub digit_or_zero : ℕ → ℕ
digit_or_zero b = elim (hex_digit b) [ none ↦ 0 | some d ↦ d ]

-- The `while` loop over the bytes.
unfoldable pub decode_bytes : List ℕ → List ℕ
decode_bytes [] = []
decode_bytes (b ∷ []) = if b == 37 then 0 ∷ [] else b ∷ []
decode_bytes (b ∷ hi ∷ []) =
    if b == 37 then (digit_or_zero hi * 16) ∷ [] else b ∷ decode_bytes (hi ∷ [])
decode_bytes (b ∷ hi ∷ lo ∷ bs) =
    let short = decode_bytes bs in
    let long = decode_bytes (hi ∷ lo ∷ bs) in
    if b == 37 then (digit_or_zero hi * 16 + digit_or_zero lo) ∷ short else b ∷ long

unfoldable pub urlencoding_decode : List ℕ → List ℕ
urlencoding_decode s = decode_bytes (bytes_of s)

-- One turn of the loop over the parts, and the loop.
unfoldable pub cookie_in : List ℕ → List ℕ → Option (List ℕ)
cookie_in name part = elim (split_once 61 (trim part)) [
  | none ↦ none
  | some (key, val) ↦ if text_eq (trim key) name then some (urlencoding_decode (trim val)) else none
]

unfoldable pub first_cookie : List ℕ → List (List ℕ) → Option (List ℕ)
first_cookie name [] = none
first_cookie name (part ∷ parts) = elim (cookie_in name part) [
  | none ↦ first_cookie name parts
  | some v ↦ some v
]

unfoldable pub parse_cookie_value : List ℕ → List ℕ → Option (List ℕ)
parse_cookie_value cookies name =
    let (part, parts) = split 59 cookies in first_cookie name (part ∷ parts)
