-- ===== src/Desync/Socks.antt =====
-- One session of the proxy, utils/dpi-desync/src/socks.rs. What the client sends comes as bytes and,
-- once the tunnel stands, as the list of what each read returns; the replies to the client are
-- taken to be written. `dial` is what name lookup and the connection attempt answered.
pub mod Request
pub mod Relay
use sc_desktop_beautiful.Prelude.{
  Bool, List, Option, [], drop, false, if◌then◌else◌, leb, length, ltb, none, not, some, suc, take,
  true, zero, ℕ, ◌*◌, ◌++◌, ◌+◌, ◌==◌, ◌∷◌,
}
use sc_desktop_beautiful.Prelude.Outcome.{Outcome, index, ok, panic, ◌>>=◌}
use sc_desktop_beautiful.Desync.Hello.{u16_at}
use sc_desktop_beautiful.Desync.Tamper.{Io, and_then, apply, broken, panicked, sent, write_seg}
use sc_desktop_beautiful.Desync.Strategy.{State, Strategy, effective, none}

-- The three forms of an address; the text of a numeric address is not modelled.
pub data Host : Type 0 where
  ipv4 domain ipv6 : List ℕ → Host

-- `stop`: the session is over, with the replies written so far.
pub data Asked : Type 0 where
  stop : List (List ℕ) → Asked
  asked : List (List ℕ) → Host → ℕ → List ℕ → Asked

-- `read_exact` into a buffer of `n` bytes.
unfoldable pub read_exact : ℕ → List ℕ → Option (List ℕ × List ℕ)
read_exact n input = if leb n (length input) then some (take n input, drop n input) else none

-- What follows a `read_exact` and its `?`.
unfoldable pub with_bytes :
    List (List ℕ) → Option (List ℕ × List ℕ) → (List ℕ → List ℕ → Asked) → Asked
with_bytes replies none rest = stop replies
with_bytes replies (some (got, input)) rest = rest got input

-- `b[i]` of a buffer that `read_exact` has filled.
unfoldable pub byte : ℕ → List ℕ → ℕ
byte i [] = 0
byte zero (b ∷ bs) = b
byte (suc i) (b ∷ bs) = byte i bs

unfoldable pub reply : ℕ → List ℕ
reply code = 0x05 ∷ code ∷ 0x00 ∷ 0x01 ∷ 0 ∷ 0 ∷ 0 ∷ 0 ∷ 0 ∷ 0 ∷ []

unfoldable pub with_port : List (List ℕ) → Host → List ℕ → Asked
with_port replies host input =
    with_bytes replies (read_exact 2 input)
      λ p rest. asked replies host (byte 0 p * 256 + byte 1 p) rest

unfoldable pub read_host : List (List ℕ) → ℕ → List ℕ → Asked
read_host replies atyp input =
    if atyp == 0x01
    then with_bytes replies (read_exact 4 input) (λ a rest. with_port replies (ipv4 a) rest)
    else if atyp == 0x03
    then with_bytes replies (read_exact 1 input) (λ l rest.
      with_bytes replies (read_exact (byte 0 l) rest) (λ s more. with_port replies (domain s) more))
    else if atyp == 0x04
    then with_bytes replies (read_exact 16 input) (λ a rest. with_port replies (ipv6 a) rest)
    else stop replies

unfoldable pub read_request : List (List ℕ) → List ℕ → Asked
read_request replies input = with_bytes replies (read_exact 4 input) λ req rest.
    if not (byte 1 req == 0x01)
    then stop (replies ++ reply 0x07 ∷ [])
    else read_host replies (byte 3 req) rest

-- From the first read of `handle` up to the port.
unfoldable pub negotiate : List ℕ → Asked
negotiate input = with_bytes [] (read_exact 2 input) λ hdr rest.
    if not (byte 0 hdr == 0x05)
    then stop []
    else (with_bytes [] (read_exact (byte 1 hdr) rest)
        λ methods more. read_request ((0x05 ∷ 0x00 ∷ []) ∷ []) more)

pub data Dial : Type 0 where
  unresolved refused connected : Dial

unfoldable pub dial_reply : Dial → List ℕ
dial_reply unresolved = reply 0x04
dial_reply refused = reply 0x05
dial_reply connected = reply 0x00

-- What a read of the client's socket returns: a byte and more, or the end, an error, or (in the first
-- flight) the timeout.
pub data Read : Type 0 where
  bytes : ℕ → List ℕ → Read
  eof failed quiet : Read

abbrev pub first_flight_max : ℕ
first_flight_max = 16 * 1024

unfoldable pub record_complete : List ℕ → Outcome Bool
record_complete b = if ltb (length b) 5 then ok false else (do
  kind ← index b 0
  if not (kind == 0x16) then ok false else (do l ← u16_at b 3; ok (leb (5 + l) (length b))))

-- The loop that gathers the first flight: the bytes, and the reads that are left. The end of the
-- input stays at the front of these, since a later read meets it again.
pub data Flight : Type 0 where
  gathered : List ℕ → List Read → Flight
  aborted : Flight
  crashed : Flight

unfoldable pub is_enough : List ℕ → Outcome Bool
is_enough first = if leb first_flight_max (length first) then ok true else record_complete first

unfoldable pub keep_reading : Outcome Bool → List ℕ → List Read → Flight → Flight
keep_reading (ok true) first reads rest = gathered first reads
keep_reading (ok false) first reads rest = rest
keep_reading panic first reads rest = crashed

unfoldable pub first_flight : List ℕ → List Read → Flight
first_flight first [] = gathered first []
first_flight first (eof ∷ reads) = gathered first (eof ∷ reads)
first_flight first (quiet ∷ reads) = gathered first reads
first_flight first (failed ∷ reads) = aborted
first_flight first (bytes b bs ∷ reads) =
    keep_reading (is_enough (first ++ b ∷ bs)) (first ++ b ∷ bs) reads
      (first_flight (first ++ b ∷ bs) reads)

module _ (up : ℕ → Bool) where
  -- The client's half of `copy_bidirectional`.
  unfoldable pub copy : List Read → List (List ℕ) → Io
  copy [] segs = sent segs
  copy (eof ∷ reads) segs = sent segs
  copy (quiet ∷ reads) segs = copy reads segs
  copy (failed ∷ reads) segs = broken segs
  copy (bytes b bs ∷ reads) segs = and_then (write_seg up (b ∷ bs) segs) (copy reads)

  unfoldable pub send_flight : Strategy → Flight → Io
  send_flight s (gathered [] reads) = copy reads []
  send_flight s (gathered (b ∷ bs) reads) = and_then (apply up (b ∷ bs) s) (copy reads)
  send_flight s aborted = broken []
  send_flight s crashed = panicked

  -- From the choice of the strategy to the end of `handle`.
  unfoldable pub relay : State → List Read → Io
  relay st reads = elim (effective st) [
    | Strategy.none ↦ copy reads []
    | s ↦ send_flight s (first_flight [] reads)
  ]

  -- `handle`: the replies to the client, and what goes upstream if a connection stands.
  unfoldable pub handle : State → List ℕ → Dial → (List ℕ → List Read) → List (List ℕ) × Io
  handle st input dial later = elim (negotiate input) [
    | stop replies ↦ (replies, sent [])
    | asked replies host port rest ↦ (
      replies ++ dial_reply dial ∷ [],
      elim dial [ connected ↦ relay st (later rest) | _ ↦ sent [] ],
    )
  ]
