-- ===== src/Desync/Tamper/Frames.antt =====
-- A reader of the record layer of TLS, and one record in front of a stream.
use sc_desktop_beautiful.Prelude.{
  List, Option, [], ap, append-nil, arith, drop, drop-drop, drop-length-append, if◌then◌else◌, leb,
  length, length-append, ltb, none, refl, some, suc, sym, take, take-length-append, zero, ℕ, ◌%◌,
  ◌&&◌, ◌*◌, ◌++◌, ◌+◌, ◌/◌, ◌<◌, ◌==◌, ◌∷◌, ◌≡◌, ◌≤◌,
}
use sc_desktop_beautiful.Prelude.Outcome.{index}
use sc_desktop_beautiful.Desync.Hello.{Tls, u16_at}
use sc_desktop_beautiful.Desync.Hello.Shape.{IsHello}
use sc_desktop_beautiful.Desync.Strategy.{none}

-- One handshake record at the front of a stream: its fragment, and what follows it.
pub take_record : List ℕ → Option (List ℕ × List ℕ)
take_record (kind ∷ major ∷ minor ∷ hi ∷ lo ∷ rest) =
    if kind == 0x16 && (ltb 0 (hi * 256 + lo) && leb (hi * 256 + lo) (length rest))
    then some (take (hi * 256 + lo) rest, drop (hi * 256 + lo) rest)
    else none
take_record _ = none

abbrev join : List ℕ → Option (List ℕ × List ℕ) → Option (List ℕ × List ℕ)
join front none = none
join front (some (back, rest)) = some (front ++ back, rest)

-- The handshake bytes in the first `n` records of a stream, and what follows them.
unfoldable pub unframe : ℕ → List ℕ → Option (List ℕ × List ℕ)
unframe zero stream = some ([], stream)
unframe (suc n) stream = elim (take_record stream) [
  | none ↦ none
  | some (fragment, rest) ↦ join fragment (unframe n rest)
]

unfoldable pub frame : ℕ → ℕ → List ℕ → List ℕ
frame major minor s = 0x16 ∷ major ∷ minor ∷ (length s % 65536 / 256) ∷ (length s % 256) ∷ s

-- The two length bytes read back as the length.
size_bytes : (n : ℕ) → n < 65536 → n % 65536 / 256 * 256 + n % 256 ≡ n
size_bytes n h = omega arith

take_record-frame :
    (major minor : ℕ) (s rest : List ℕ)
    → 0 < length s
    → length s < 65536
    → take_record (frame major minor s ++ rest) ≡ some (s, rest)
unfolding take_record frame
take_record-frame major minor s rest h k = rw (size_bytes (length s) k) (
    rw (take-length-append s rest, drop-length-append s rest)
      (ground (arith, length-append s rest)))

pub unframe-frame :
    (n major minor : ℕ) (s rest : List ℕ)
    → 0 < length s
    → length s < 65536
    → unframe (suc n) (frame major minor s ++ rest) ≡ join s (unframe n rest)
unfolding unframe
unframe-frame n major minor s rest h k = rw (take_record-frame major minor s rest h k, unframe) refl

take_record-some :
    (kind major minor hi lo n : ℕ) (rest : List ℕ)
    → kind ≡ 0x16
    → hi * 256 + lo ≡ n
    → 0 < n
    → n ≤ length rest
    → take_record (kind ∷ major ∷ minor ∷ hi ∷ lo ∷ rest) ≡ some (take n rest, drop n rest)
unfolding take_record
take_record-some kind major minor hi lo n rest k e h fits = rw e (ground arith)

-- A buffer that the parser accepts is one record, and then the tail.
pub unframe-hello :
    (buf : List ℕ) (t : Tls)
    → IsHello buf (some t)
    → unframe 1 buf ≡ some (t.payload, drop (5 + length t.payload) buf)
unfolding unframe u16_at index
unframe-hello (b0 ∷ b1 ∷ b2 ∷ b3 ∷ b4 ∷ rest) t h =
    let n : ℕ = length t.payload in
    let size : b3 * 256 + b4 ≡ length t.payload = cc (h.3) in
    let kind : b0 ≡ 0x16 = cc (h.0) in
    rw (take_record-some b0 b1 b2 b3 b4 n rest kind size (omega arith) (omega arith), unframe)
      (rw (append-nil (take n rest), ← drop-drop 5 n (b0 ∷ b1 ∷ b2 ∷ b3 ∷ b4 ∷ rest))
        (ap (λ xs. some (xs, drop n rest)) (sym h.2)))
unframe-hello [] t h = absurd (omega arith)
unframe-hello (_ ∷ []) t h = absurd (omega arith)
unframe-hello (_ ∷ _ ∷ []) t h = absurd (omega arith)
unframe-hello (_ ∷ _ ∷ _ ∷ []) t h = absurd (omega arith)
unframe-hello (_ ∷ _ ∷ _ ∷ _ ∷ []) t h = absurd (omega arith)
