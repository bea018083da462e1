-- ===== src/SyncQueue/Failure.antt =====
-- What the queue makes of an error: backend/src/sc/errors.rs, the error of backend/src/error.rs, and
-- the `String` functions that they use.
use sc_desktop_beautiful.Prelude.Text.{codes, contains}
use sc_desktop_beautiful.Prelude.{
  Bool, List, [], false, if◌then◌else◌, leb, ltb, not, true, ℕ, ◌+◌, ◌-◌, ◌==◌, ◌||◌, ◌∷◌,
}
use sc_desktop_beautiful.Prelude.Outcome.{Outcome, ok, panic, ◌>>=◌}

-- crate::error::AppError, as far as it is told apart here: an answer of the API with its status and
-- its body as text, or anything else. `message` is its `to_string()`, in characters.
pub data Cause : Type 0 where
  sc_api : ℕ → List ℕ → Cause
  other : Cause

pub record AppError : Type 0 where
  pub cause : Cause
  pub message : List ℕ

-- The bytes of a character in UTF-8.
unfoldable pub len_utf8 : ℕ → ℕ
len_utf8 c = if ltb c 0x80 then 1 else if ltb c 0x800 then 2 else if ltb c 0x10000 then 3 else 4

unfoldable pub utf8_length : List ℕ → ℕ
utf8_length [] = 0
utf8_length (c ∷ cs) = len_utf8 c + utf8_length cs

-- `String::truncate`: nothing if the text is short enough, a panic if the cut is inside a character.
unfoldable pub cut_at : ℕ → List ℕ → Outcome (List ℕ)
cut_at n [] = ok []
cut_at n (c ∷ cs) =
    if n == 0
    then ok []
    else if ltb n (len_utf8 c)
    then panic
    else (do rest ← cut_at (n - len_utf8 c) cs; ok (c ∷ rest))

unfoldable pub truncate : ℕ → List ℕ → Outcome (List ℕ)
truncate n s = if leb (utf8_length s) n then ok s else cut_at n s

-- `to_lowercase` of Unicode text is not modelled: `lower` stands for it.
module _ (lower : List ℕ → List ℕ) where
  unfoldable pub is_ban_error : Cause → Bool
  is_ban_error other = false
  is_ban_error (sc_api status body) =
      if not (status == 403)
      then false
      else contains (lower body) (codes "request blocked")
        || (contains (lower body) (codes "the request could not be satisfied")
            || contains (lower body) (codes "generated by cloudfront"))

  unfoldable pub is_rate_limited : Cause → Bool
  is_rate_limited other = false
  is_rate_limited (sc_api status body) =
      if status == 429
      then true
      else contains (lower body) (codes "rate limit")
        || contains (lower body) (codes "too many requests")
