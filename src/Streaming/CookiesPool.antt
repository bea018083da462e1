-- ===== src/Streaming/CookiesPool.antt =====
-- The pool of accounts, streaming/src/stream/cookies_pool.rs. What an account answers to a call is a
-- parameter, and one call of `try_rotate` runs at a time. A time is a number of seconds.
pub mod Rotation
use sc_desktop_beautiful.Prelude.{
  Bool, List, Option, [], false, if◌then◌else◌, leb, length, ltb, map, none, set, some, suc, zero,
  ℕ, ◌%◌, ◌&&◌, ◌+◌, ◌==◌, ◌||◌, ◌∷◌,
}
use sc_desktop_beautiful.Prelude.Outcome.{Outcome, Reply, fault, got, index, ok, ◌>>=◌}
use sc_desktop_beautiful.Streaming.Cookie.{parse_cookie_value}
use sc_desktop_beautiful.Prelude.Text.{codes, contains}

pub record CookiesClient : Type 0 where
  pub cookies : List ℕ
  pub token : List ℕ

pub record PoolEntry : Type 0 where
  pub client : CookiesClient
  pub rate_limited_until : Option ℕ

pub record CookiesPool : Type 0 where
  pub entries : List PoolEntry
  pub cursor : ℕ

abbrev pub rate_limit_cooldown : ℕ
rate_limit_cooldown = 30

-- The cookies without an `oauth_token` are left out.
unfoldable pub entries_of : List (List ℕ) → List PoolEntry
entries_of [] = []
entries_of (raw ∷ raws) = elim (parse_cookie_value raw (codes "oauth_token")) [
  | none ↦ entries_of raws
  | some token ↦
      record { client = record { cookies = raw; token = token }; rate_limited_until = none }
      ∷ entries_of raws
]

unfoldable pub new_pool : List (List ℕ) → CookiesPool
new_pool cookies_list = record { entries = entries_of cookies_list; cursor = 0 }

-- `to_ascii_lowercase` of a character.
unfoldable pub ascii_lower : ℕ → ℕ
ascii_lower c = if leb 65 c && leb c 90 then c + 32 else c

unfoldable pub is_rate_limited : List ℕ → Bool
is_rate_limited msg =
    contains msg (codes "429") || contains (map ascii_lower msg) (codes "too many requests")

-- `until > now`
unfoldable pub is_cooling : ℕ → PoolEntry → Bool
is_cooling now e = elim e.rate_limited_until [ none ↦ false | some t ↦ ltb now t ]

unfoldable pub set_until : CookiesPool → ℕ → PoolEntry → Option ℕ → CookiesPool
set_until pool idx e at = record pool {
  entries = set pool.entries idx (record e { rate_limited_until = at });
}

-- `last_err.unwrap_or_else(…)`
unfoldable pub exhausted : {T : Type 0} → Option (List ℕ) → Reply T
exhausted none = fault (codes "all cookies clients rate-limited")
exhausted (some e) = fault e

module _ {T : Type 0} (op : CookiesClient → Reply T) where
  -- What the loop does with the answer of a client: it returns, or goes on with an error.
  unfoldable pub answered :
      (CookiesPool → Option (List ℕ) → Outcome (CookiesPool × Reply T))
      → CookiesPool
      → ℕ
      → ℕ
      → PoolEntry
      → Reply T
      → Outcome (CookiesPool × Reply T)
  answered rest pool now idx e (got v) =
      ok (set_until (record pool { cursor = idx }) idx e none, got v)
  answered rest pool now idx e (fault msg) =
      if is_rate_limited msg
      then rest (set_until pool idx e (some (now + rate_limit_cooldown))) (some msg)
      else ok (pool, fault msg)

  -- The `for` loop, with `left` turns to go from `off`.
  unfoldable pub rotate :
      ℕ → ℕ → ℕ → ℕ → CookiesPool → Option (List ℕ) → Outcome (CookiesPool × Reply T)
  rotate zero now start off pool last_err = ok (pool, exhausted last_err)
  rotate (suc left) now start off pool last_err = do
    let idx = (start + off) % length pool.entries
    e ← index pool.entries idx
    if is_cooling now e
        then rotate left now start (off + 1) pool last_err
        else answered (rotate left now start (off + 1)) pool now idx e (op e.client)

  unfoldable pub try_rotate : CookiesPool → ℕ → Outcome (CookiesPool × Reply T)
  try_rotate pool now =
      if length pool.entries == 0
      then ok (pool, fault (codes "cookies pool empty"))
      else rotate (length pool.entries) now (pool.cursor % length pool.entries) 0 pool none
