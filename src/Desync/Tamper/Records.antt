-- ===== src/Desync/Tamper/Records.antt =====
-- The strategies that put the handshake into two TLS records, against a reader of the record layer.
use sc_desktop_beautiful.Prelude.{
  All, All-get_elem?, Bool, List, Option, [], ap, append-nil, append_assoc, arith, concat,
  cut-append, cut-rest, drop, false, inl, inr, length, length-drop, length-take, ltb, none, refl,
  some, subst, sym, take, true, ℕ, ◌++◌, ◌+◌, ◌-◌, ◌/◌, ◌<◌, ◌∙◌, ◌∷◌, ◌≡◌, ◌≤◌, ◌⊎◌,
}
use sc_desktop_beautiful.Prelude.Outcome.{
  Returns, Returns-mono, Returns-of-ok, bind-Returns, clamp, clamp-Returns, index, index-Returns,
  ok, slice, slice-Returns, sub, sub-Returns, ◌>>=◌,
}
use sc_desktop_beautiful.Desync.Hello.{Tls, parse_tls_clienthello, u16_at}
use sc_desktop_beautiful.Desync.Hello.Shape.{IsHello, SniWithin, parse_tls_clienthello-IsHello}
use sc_desktop_beautiful.Desync.Tamper.{
  apply, mk, record_cut, with_value, write_hello, write_pair, write_records, write_seg, write_tail,
  write_tlsrec,
}
use sc_desktop_beautiful.Desync.Strategy.{Strategy, none, tls_rec, tls_rec_split}
use sc_desktop_beautiful.Desync.Tamper.Cuts.{
  Carries, and_then-Carries, with_value-Carries, write_seg-Carries, write_seg-Carries_last,
}
use sc_desktop_beautiful.Desync.Tamper.Frames.{unframe, frame, unframe-frame, unframe-hello}

abbrev IsFrame : List ℕ → List ℕ → Type 0
IsFrame s r = (major : ℕ) × (minor : ℕ) × (r ≡ frame major minor s)

mk-IsFrame : (buf s : List ℕ) → 2 < length buf → Returns (IsFrame s) (mk buf s)
unfolding mk frame
mk-IsFrame buf s h =
    bind-Returns _ _ (index buf 1) _ (index-Returns buf 1 (omega arith)) λ major _ _.
      bind-Returns _ _ (index buf 2) _ (index-Returns buf 2 h) λ minor _ _. (major, minor, refl)

framed_slice-IsFrame :
    (buf payload : List ℕ) (from to : ℕ)
    → 2 < length buf
    → from ≤ to
    → to ≤ length payload
    → Returns
        (IsFrame (take (to - from) (drop from payload)))
        (do front ← slice payload from to; mk buf front)
framed_slice-IsFrame buf payload from to h p q =
    bind-Returns _ _ (slice payload from to) _ (slice-Returns payload from to p q)
      λ front _ e. subst (λ xs. Returns (IsFrame xs) (mk buf front)) e.0 (mk-IsFrame buf front h)

-- The payload is cut with bytes on both sides.
record_cut-Inside :
    (buf : List ℕ) (t : Tls)
    → IsHello buf (some t)
    → Returns (λ a. (0 < a) × (a < length t.payload)) (record_cut t)
unfolding record_cut
record_cut-Inside buf t h = go t.sni refl h.5
  where
    go :
        (r : Option (ℕ × ℕ))
        → t.sni ≡ r
        → SniWithin (length t.payload) r
        → Returns (λ a. (0 < a) × (a < length t.payload)) (record_cut t)
    go none e w = rw (e, record_cut) (omega arith, omega arith)
    go (some (off, len)) e w =
        rw (e, record_cut)
          (bind-Returns _ _ (sub off 5) _ (sub-Returns off 5 (omega arith)) λ start _ s.
            bind-Returns _ _ (sub (length t.payload) 1) _
              (sub-Returns (length t.payload) 1 (omega arith))
              λ last _ l.
                Returns-mono _ _ (clamp (start + len / 2) 1 last)
                  (clamp-Returns _ _ _ (omega arith)) λ a _ c. (omega arith, omega arith))

-- What a reader of the record layer sees: the same handshake bytes and the same bytes behind them,
-- in two records where there was one. A buffer that is no hello is unchanged.
pub Recut : List ℕ → Option Tls → List ℕ → Type 0
Recut buf none out = out ≡ buf
Recut buf (some t) out =
    (tail : List ℕ) × (unframe 1 buf ≡ some (t.payload, tail))
    × (unframe 2 out ≡ some (t.payload, tail))

module _ (up : ℕ → Bool) (R : List ℕ → Type 0) where
  write_tail-Carries :
      (tail : List ℕ) (segs : List (List ℕ))
      → R (concat segs ++ tail)
      → Carries R (write_tail up tail segs)
  unfolding write_tail
  write_tail-Carries [] segs h = subst R (append-nil (concat segs)) h
  write_tail-Carries (b ∷ bs) segs h = write_seg-Carries_last up R (b ∷ bs) segs h

  write_pair-Carries :
      (flush : Bool) (r1 r2 tail : List ℕ)
      → R (r1 ++ (r2 ++ tail))
      → Carries (λ out. R (out ++ tail)) (write_pair up flush r1 r2 [])
  unfolding write_pair
  write_pair-Carries false r1 r2 tail h =
      write_seg-Carries up R (r1 ++ r2) [] tail (subst R (sym (append_assoc r1 r2 tail)) h)
  write_pair-Carries true r1 r2 tail h =
      and_then-Carries (λ out. R (out ++ tail)) (λ out. R (out ++ (r2 ++ tail)))
        (write_seg up r1 []) (write_seg up r2) (write_seg-Carries up R r1 [] (r2 ++ tail) h)
        (λ segs q. write_seg-Carries up R r2 segs tail q)
        (λ out q. (r2, subst R (sym (append_assoc out r2 tail)) q))

-- u8
abbrev pub AreBytes : List ℕ → Type 0
AreBytes = All (λ b. b < 256)

u16_at-lt :
    (buf : List ℕ) (i : ℕ)
    → AreBytes buf
    → i + 1 < length buf
    → Returns (λ v. v < 65536) (u16_at buf i)
unfolding u16_at
u16_at-lt buf i bytes h =
    bind-Returns _ _ (index buf i) _ (index-Returns buf i (omega arith)) λ hi _ e.
      bind-Returns _ _ (index buf (i + 1)) _ (index-Returns buf (i + 1) h) λ lo _ e'. omega (
        arith,
        All-get_elem? (λ b. b < 256) buf i bytes e,
        All-get_elem? (λ b. b < 256) buf (i + 1) bytes e',
      )

payload-lt :
    (buf : List ℕ) (t : Tls) → AreBytes buf → IsHello buf (some t) → length t.payload < 65536
payload-lt buf t bytes h =
    Returns-of-ok (λ v. v < 65536) (u16_at buf 3) h.3 (u16_at-lt buf 3 bytes (omega arith))

-- Two records around two parts read back as the whole.
unframe-frames :
    (m1 n1 m2 n2 : ℕ) (s1 s2 tail : List ℕ)
    → 0 < length s1
    → length s1 < 65536
    → 0 < length s2
    → length s2 < 65536
    → unframe 2 (frame m1 n1 s1 ++ (frame m2 n2 s2 ++ tail)) ≡ some (s1 ++ s2, tail)
unframe-frames m1 n1 m2 n2 s1 s2 tail p1 q1 p2 q2 =
    rw (unframe-frame 1 m1 n1 s1 _ p1 q1, unframe-frame 0 m2 n2 s2 tail p2 q2)
      (unfold unframe in rw append-nil)

frames-Recut :
    (buf : List ℕ) (t : Tls) (a : ℕ) (r1 r2 tail : List ℕ)
    → IsHello buf (some t)
    → length t.payload < 65536
    → (0 < a) × (a < length t.payload)
    → IsFrame (take (a - 0) (drop 0 t.payload)) r1
    → IsFrame (take (length t.payload - a) (drop a t.payload)) r2
    → tail ≡ take (length buf - (5 + length t.payload)) (drop (5 + length t.payload) buf)
    → Recut buf (some t) (r1 ++ (r2 ++ tail))
unfolding Recut
frames-Recut buf t a r1 r2 tail h small inner (m1, n1, e1) (m2, n2, e2) e = (
  tail,
  unframe-hello buf t h
      ∙ ap (λ (xs : List ℕ). some (t.payload, xs))
          (sym (e ∙ cut-rest (5 + length t.payload) buf h.1)),
  rw (e1, e2)
      (unframe-frames m1 n1 m2 n2 front back tail (omega (arith, sizes)) (omega (arith, sizes))
          (omega (arith, sizes)) (omega (arith, sizes))
        ∙ ap (λ (xs : List ℕ). some (xs, tail)) whole),
)
  where
    front : List ℕ
    front = take (a - 0) (drop 0 t.payload)

    back : List ℕ
    back = take (length t.payload - a) (drop a t.payload)

    sizes : (length front ≡ a) × (length back ≡ length t.payload - a)
    sizes = (
      omega (arith, length-take (a - 0) (drop 0 t.payload)),
      omega (arith, length-take (length t.payload - a) (drop a t.payload), length-drop a t.payload),
    )

    whole : front ++ back ≡ t.payload
    whole = rw (cut-rest a t.payload (omega arith)) (cut-append 0 a t.payload (omega arith))

module _ (up : ℕ → Bool) (buf : List ℕ) (t : Tls) (bytes : AreBytes buf)
    (h : IsHello buf (some t)) where
  write_records-Recut : (flush : Bool) → Carries (Recut buf (some t)) (write_records up buf t flush)
  unfolding write_records
  write_records-Recut flush =
      with_value-Carries R _ (record_cut t) _ (record_cut-Inside buf t h) λ a _ inside_payload.
        with_value-Carries R _ _ _
          (framed_slice-IsFrame buf t.payload 0 a (omega arith) (omega arith) (omega arith))
          λ r1 _ f1.
            with_value-Carries R _ _ _
              (framed_slice-IsFrame buf t.payload a (length t.payload) (omega arith) (omega arith)
                (omega arith))
              λ r2 _ f2.
                with_value-Carries R _ _ _
                  (slice-Returns buf (5 + length t.payload) (length buf) h.1 (omega arith))
                  λ tail _ e.
                    and_then-Carries R (λ out. R (out ++ tail)) (write_pair up flush r1 r2 [])
                      (write_tail up tail)
                      (write_pair-Carries up R flush r1 r2 tail (
                        frames-Recut buf t a r1 r2 tail h (payload-lt buf t bytes h) inside_payload
                          f1 f2 e.0))
                      (λ segs q. write_tail-Carries up R tail segs q) (λ out q. (tail, q))
    where
      R : List ℕ → Type 0
      R = Recut buf (some t)

write_hello-Recut :
    (up : ℕ → Bool) (buf : List ℕ) (flush : Bool) (r : Option Tls)
    → AreBytes buf
    → IsHello buf r
    → Carries (Recut buf r) (write_hello up buf flush r)
unfolding write_hello Recut
write_hello-Recut up buf flush none bytes h =
    write_seg-Carries_last up (λ out. out ≡ buf) buf [] refl
write_hello-Recut up buf flush (some t) bytes h =
    let long : ltb 16 (length t.payload) ≡ true = ground arith in
    rw (long, write_hello) (write_records-Recut up buf t bytes h flush)

write_tlsrec-Recut :
    (up : ℕ → Bool) (buf : List ℕ) (flush : Bool) (r : Option Tls)
    → AreBytes buf
    → parse_tls_clienthello buf ≡ ok r
    → Carries (Recut buf r) (write_tlsrec up buf flush)
unfolding write_tlsrec with_value
write_tlsrec-Recut up buf flush r bytes p =
    rw (p, write_tlsrec, with_value)
      (write_hello-Recut up buf flush r bytes (
        Returns-of-ok (IsHello buf) (parse_tls_clienthello buf) p
          (parse_tls_clienthello-IsHello buf)))

-- `tls_rec` and `tls_rec_split` keep the handshake: of a buffer of bytes that parses as a hello, a
-- reader of TLS records gets from two records what it got from one, and the same bytes behind them;
-- any other buffer goes out as it is. After a write that fails the socket has a front part of that.
pub apply-Recut :
    (up : ℕ → Bool) (buf : List ℕ) (s : Strategy) (r : Option Tls)
    → AreBytes buf
    → (s ≡ tls_rec) ⊎ (s ≡ tls_rec_split)
    → parse_tls_clienthello buf ≡ ok r
    → Carries (Recut buf r) (apply up buf s)
unfolding apply
apply-Recut up buf s r bytes (inl e) p = rw e (write_tlsrec-Recut up buf false r bytes p)
apply-Recut up buf s r bytes (inr e) p = rw e (write_tlsrec-Recut up buf true r bytes p)
