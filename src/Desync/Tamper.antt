-- ===== src/Desync/Tamper.antt =====
-- The cuts of utils/dpi-desync/src/tamper.rs. `up k` says whether the socket takes the segment
-- number k; `?` after a write that fails leaves at once.
pub mod Cuts
pub mod Frames
pub mod Records
pub mod Names
use sc_desktop_beautiful.Prelude.{
  ℕ, ◌+◌, ◌-◌, ◌/◌, ◌%◌, Bool, true, false, ◌&&◌, List, [], ◌∷◌, ◌++◌, Option, none, some, ltb, leb,
  ◌==◌, min, max, length, if◌then◌else◌,
}
use sc_desktop_beautiful.Prelude.Outcome.{Outcome, ok, panic, ◌>>=◌, index, slice, sub, clamp}
use sc_desktop_beautiful.Desync.Hello.{Tls, parse_tls_clienthello}
use sc_desktop_beautiful.Desync.Strategy.{Strategy, tls_rec, split, tls_rec_split, multi_split}

-- `v.sort_unstable()`
unfoldable pub insert : ℕ → List ℕ → List ℕ
insert x [] = x ∷ []
insert x (y ∷ ys) = if leb x y then x ∷ y ∷ ys else y ∷ insert x ys

unfoldable pub sort : List ℕ → List ℕ
sort [] = []
sort (x ∷ xs) = insert x (sort xs)

-- `v.dedup()`
unfoldable pub dedup : List ℕ → List ℕ
dedup [] = []
dedup (x ∷ []) = x ∷ []
dedup (x ∷ y ∷ ys) = let rest = dedup (y ∷ ys) in if x == y then rest else x ∷ rest

unfoldable pub dedup_sorted : List ℕ → List ℕ
dedup_sorted v = dedup (sort v)

-- `.filter(|&p| p > 0 && p < buf.len())`
unfoldable pub inside : ℕ → List ℕ → List ℕ
inside size [] = []
inside size (p ∷ ps) = if ltb 0 p && ltb p size then p ∷ inside size ps else inside size ps

-- The middle of the host name, or of the payload if there is no name.
unfoldable pub middle : Tls → ℕ
middle t = elim t.sni [ some (off, len) ↦ off + len / 2 | none ↦ 5 + length t.payload / 2 ]

unfoldable pub hello_points : List ℕ → Option Tls → Outcome (ℕ × List ℕ)
hello_points buf (some t) = do
  mid ← clamp (middle t) 6 (max (length buf - 1) 6)
  rest ← sub (length buf) mid
  ok (mid, dedup_sorted (inside (length buf) (1 ∷ (5 + 1) ∷ mid ∷ (mid + rest / 2) ∷ [])))
hello_points buf none =
    let mid = min (max (length buf / 2) 1) (max (length buf - 1) 1) in ok (mid, mid ∷ [])

unfoldable pub split_points : List ℕ → Outcome (ℕ × List ℕ)
split_points buf = do parsed ← parse_tls_clienthello buf; hello_points buf parsed

-- What happened at the socket, with the segments that it took, oldest first.
pub data Io : Type 0 where
  sent : List (List ℕ) → Io
  broken : List (List ℕ) → Io
  panicked : Io

-- The rest of a function behind a write and its `?`.
unfoldable pub and_then : Io → (List (List ℕ) → Io) → Io
and_then (sent segs) rest = rest segs
and_then (broken segs) rest = broken segs
and_then panicked rest = panicked

-- The rest of a function behind code that may panic.
unfoldable pub with_value : {A : Type 0} → Outcome A → (A → Io) → Io
with_value (ok a) rest = rest a
with_value panic rest = panicked

-- The closure `mk`: one record around `s`, with the version of the first.
unfoldable pub mk : List ℕ → List ℕ → Outcome (List ℕ)
mk buf s = do
  major ← index buf 1
  minor ← index buf 2
  ok (0x16 ∷ major ∷ minor ∷ (length s % 65536 / 256) ∷ (length s % 256) ∷ s)

-- Where the payload is cut.
unfoldable pub record_cut : Tls → Outcome ℕ
record_cut t = elim t.sni [
  | some (off, len) ↦ (do
    start ← sub off 5
    last ← sub (length t.payload) 1
    clamp (start + len / 2) 1 last)
  | none ↦ ok (length t.payload / 2)
]

module _ (up : ℕ → Bool) where
  unfoldable pub write_seg : List ℕ → List (List ℕ) → Io
  write_seg b segs = if up (length segs) then sent (segs ++ b ∷ []) else broken segs

  unfoldable pub write_pair : Bool → List ℕ → List ℕ → List (List ℕ) → Io
  write_pair true r1 r2 segs = and_then (write_seg r1 segs) (write_seg r2)
  write_pair false r1 r2 segs = write_seg (r1 ++ r2) segs

  unfoldable pub write_tail : List ℕ → List (List ℕ) → Io
  write_tail [] segs = sent segs
  write_tail (b ∷ bs) segs = write_seg (b ∷ bs) segs

  unfoldable pub write_records : List ℕ → Tls → Bool → Io
  write_records buf t flush_between = with_value (record_cut t) λ a.
      with_value (do front ← slice t.payload 0 a; mk buf front)
        λ r1.
          with_value (do back ← slice t.payload a (length t.payload); mk buf back)
            λ r2.
              with_value (slice buf (5 + length t.payload) (length buf))
                λ tail. and_then (write_pair flush_between r1 r2 []) (write_tail tail)

  unfoldable pub write_hello : List ℕ → Bool → Option Tls → Io
  write_hello buf flush_between none = write_seg buf []
  write_hello buf flush_between (some t) =
      if ltb 16 (length t.payload) then write_records buf t flush_between else write_seg buf []

  unfoldable pub write_tlsrec : List ℕ → Bool → Io
  write_tlsrec buf flush_between =
      with_value (parse_tls_clienthello buf) (write_hello buf flush_between)

  -- The loop over the points, and the rest of the buffer behind the last of them.
  unfoldable pub write_pieces : List ℕ → List ℕ → ℕ → List (List ℕ) → Io
  write_pieces buf [] prev segs =
      if ltb prev (length buf)
      then with_value (slice buf prev (length buf)) (λ b. write_seg b segs)
      else sent segs
  write_pieces buf (p ∷ ps) prev segs = elim (ltb prev p) [
    | true ↦
        with_value (slice buf prev p) (λ b. and_then (write_seg b segs) (write_pieces buf ps p))
    | false ↦ write_pieces buf ps prev segs
  ]

  unfoldable pub write_halves : List ℕ → ℕ → Io
  write_halves buf pos = with_value (slice buf 0 pos) λ front.
      and_then (write_seg front [])
        λ segs. with_value (slice buf pos (length buf)) λ back. write_seg back segs

  unfoldable pub apply : List ℕ → Strategy → Io
  apply buf Strategy.none = write_seg buf []
  apply buf tls_rec = write_tlsrec buf false
  apply buf tls_rec_split = write_tlsrec buf true
  apply buf split = with_value (split_points buf) λ points. write_halves buf points.0
  apply buf multi_split = with_value (split_points buf) λ points. write_pieces buf points.1 0 []
