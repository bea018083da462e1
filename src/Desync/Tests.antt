-- ===== src/Desync/Tests.antt =====
-- Runs of the proxy's code on a small ClientHello for the host `a.bc`, and the theorems at it.
use sc_desktop_beautiful.Prelude.{
  Bool, List, [], arith, inr, refl, some, suc, true, zero, ℕ, ◌++◌, ◌+◌, ◌∷◌, ◌≡◌,
}
use sc_desktop_beautiful.Prelude.Outcome.{Returns, clamp, index, ok, slice, sub}
use sc_desktop_beautiful.Desync.Hello.{
  Tls, ext_loop, ext_turn, parse_tls_clienthello, read_name, resume, scan_hello, u16_at,
}
use sc_desktop_beautiful.Desync.Hello.Shape.{IsHello, parse_tls_clienthello-IsHello}
use sc_desktop_beautiful.Desync.Strategy.{
  State, effective, is_enabled, multi_split, strategy, tls_rec_split,
}
use sc_desktop_beautiful.Desync.Tamper.{
  apply, dedup, dedup_sorted, hello_points, insert, inside, middle, record_cut, sort, split_points,
}
use sc_desktop_beautiful.Desync.Tamper.Cuts.{Carries, apply-Carries_buf}
use sc_desktop_beautiful.Desync.Tamper.Names.{Cut, CutBoth, split_points-CutBoth}
use sc_desktop_beautiful.Desync.Tamper.Records.{AreBytes, Recut, apply-Recut}
use sc_desktop_beautiful.Desync.Socks.{Read, bytes, eof, quiet, relay}
use sc_desktop_beautiful.Desync.Socks.Relay.{client_bytes, relay-Carries}

abbrev replicate : ℕ → ℕ → List ℕ
replicate zero b = []
replicate (suc n) b = b ∷ replicate n b

abbrev payload : List ℕ
payload =
    0x01
    ∷ 0
    ∷ 0
    ∷ 56
    ∷ 0x03
    ∷ 0x03
    ∷ (replicate 32 7
        ++ 0 ∷ 0 ∷ 2 ∷ 0x13 ∷ 0x01 ∷ 1 ∷ 0 ∷ 0 ∷ 13 ∷ 0 ∷ 0 ∷ 0 ∷ 9 ∷ 0 ∷ 7 ∷ 0 ∷ 0 ∷ 4 ∷ b'a'
          ∷ b'.' ∷ b'b' ∷ b'c' ∷ [])

-- The record, and one byte of the next.
abbrev hello : List ℕ
hello = 0x16 ∷ 0x03 ∷ 0x01 ∷ 0 ∷ 60 ∷ (payload ++ 0x16 ∷ [])

abbrev parsed : Tls
parsed = record { payload = payload; sni = some (61, 4) }

abbrev all_up : ℕ → Bool
all_up k = true

hello-parses : parse_tls_clienthello hello ≡ ok (some parsed)
unfolding parse_tls_clienthello scan_hello ext_loop ext_turn read_name resume u16_at index slice
hello-parses = refl

split_hello : split_points hello ≡ ok (63, 1 ∷ 6 ∷ 63 ∷ 64 ∷ [])
unfolding split_points hello_points middle clamp sub dedup_sorted dedup sort insert inside
    parse_tls_clienthello scan_hello ext_loop ext_turn read_name resume u16_at index slice
split_hello = refl

parse_tls_clienthello-IsHello_example : Returns (IsHello hello) (parse_tls_clienthello hello)
parse_tls_clienthello-IsHello_example = parse_tls_clienthello-IsHello hello

hello-AreBytes : AreBytes hello
hello-AreBytes = omega arith

apply-Carries_buf_example : Carries (λ out. out ≡ hello) (apply all_up hello multi_split)
apply-Carries_buf_example =
    apply-Carries_buf all_up hello multi_split (omega arith) (λ e. cc) (λ e. cc)

apply-Recut_example : Carries (Recut hello (some parsed)) (apply all_up hello tls_rec_split)
apply-Recut_example =
    apply-Recut all_up hello tls_rec_split (some parsed) hello-AreBytes (inr refl) hello-parses

split_points-CutBoth_example :
    Returns (CutBoth 61 4) (split_points hello)
    × Returns (λ a. Cut 61 4 (5 + a)) (record_cut parsed)
split_points-CutBoth_example =
    split_points-CutBoth hello parsed 61 4 hello-parses refl (omega arith)

abbrev splitting : State
splitting = record { enabled = true; strategy = 2 }

abbrev reads : List Read
reads = bytes 1 (2 ∷ []) ∷ quiet ∷ bytes 3 [] ∷ eof ∷ []

relay-Carries_example : Carries (λ out. out ≡ client_bytes reads) (relay all_up splitting reads)
relay-Carries_example =
    relay-Carries all_up splitting reads (unfold effective is_enabled strategy in λ e. cc)
      (unfold effective is_enabled strategy in λ e. cc)
