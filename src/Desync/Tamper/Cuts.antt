-- ===== src/Desync/Tamper/Cuts.antt =====
-- The strategies that cut without changing a byte.
use sc_desktop_beautiful.Prelude.{
  All, All-mono, Bool, Bool-cases, List, Option, [], append-nil, append_assoc, arith, concat,
  concat-snoc, cut-append, drop, drop-length, inl, inr, leb, length, ltb, max, none, refl, some,
  subst, take, ℕ, ◌&&◌, ◌++◌, ◌-◌, ◌<◌, ◌==◌, ◌∷◌, ◌≡◌, ◌≢◌, ◌≤◌, drop-eq-nil,
}
use sc_desktop_beautiful.Prelude.Outcome.{
  Outcome, Returns, bind-Returns, clamp, clamp-Returns, ok, panic, slice, slice-Returns, sub,
  sub-Returns,
}
use sc_desktop_beautiful.Desync.Tamper.{
  Io, and_then, apply, broken, dedup, dedup_sorted, hello_points, insert, inside, middle, panicked,
  sent, sort, split_points, with_value, write_halves, write_pieces, write_seg,
}
use sc_desktop_beautiful.Desync.Strategy.{
  Strategy, multi_split, none, split, tls_rec, tls_rec_split,
}
use sc_desktop_beautiful.Desync.Hello.{Tls, parse_tls_clienthello}
use sc_desktop_beautiful.Desync.Hello.Shape.{IsHello, parse_tls_clienthello-IsHello}

insert-All : (P : ℕ → Type 0) (x : ℕ) (xs : List ℕ) → P x → All P xs → All P (insert x xs)
unfolding insert
insert-All P x [] p h = (p, tt)
insert-All P x (y ∷ ys) p h = elim (Bool-cases (leb x y)) [
  | inl e ↦ rw (e, insert) (p, h)
  | inr e ↦ rw (e, insert) (h.0, insert-All P x ys p h.1)
]

sort-All : (P : ℕ → Type 0) (xs : List ℕ) → All P xs → All P (sort xs)
unfolding sort
sort-All P [] h = tt
sort-All P (x ∷ xs) h = insert-All P x (sort xs) h.0 (sort-All P xs h.1)

dedup-All : (P : ℕ → Type 0) (xs : List ℕ) → All P xs → All P (dedup xs)
unfolding dedup
dedup-All P [] h = tt
dedup-All P (x ∷ []) h = h
dedup-All P (x ∷ y ∷ ys) h = elim (Bool-cases (x == y)) [
  | inl e ↦ rw (e, dedup) (dedup-All P (y ∷ ys) h.1)
  | inr e ↦ rw (e, dedup) (h.0, dedup-All P (y ∷ ys) h.1)
]

inside-All : (size : ℕ) (ps : List ℕ) → All (λ p. p < size) (inside size ps)
unfolding inside
inside-All size [] = tt
inside-All size (p ∷ ps) = elim (Bool-cases (ltb 0 p && ltb p size)) [
  | inl e ↦ rw (e, inside) (ground arith, inside-All size ps)
  | inr e ↦ rw (e, inside) (inside-All size ps)
]

-- A cut that leaves bytes on both sides, wherever there are two bytes.
abbrev pub Points : ℕ → ℕ × List ℕ → Type 0
Points size (mid, points) =
    (0 < mid) × (mid ≤ size) × (1 < size → mid < size) × All (λ p. p ≤ size) points

hello_points-Points :
    (buf : List ℕ) (r : Option Tls)
    → 0 < length buf
    → IsHello buf r
    → Returns (Points (length buf)) (hello_points buf r)
unfolding hello_points dedup_sorted
hello_points-Points buf none h s = (omega arith, omega arith, (λ k. omega arith), (omega arith, tt))
hello_points-Points buf (some t) h s =
    bind-Returns _ _ (clamp (middle t) 6 (max (length buf - 1) 6)) _
      (clamp-Returns (middle t) 6 _ (omega arith))
      λ mid _ m.
        bind-Returns _ _ (sub (length buf) mid) _ (sub-Returns (length buf) mid (omega arith))
          λ rest _ _. (
            omega arith,
            omega arith,
            (λ k. omega arith),
            dedup-All _ _
                (sort-All _ _ (All-mono _ _ _ (inside-All (length buf) _) λ x p. omega arith)),
          )

split_points-Points :
    (buf : List ℕ) → 0 < length buf → Returns (Points (length buf)) (split_points buf)
unfolding split_points
split_points-Points buf h =
    bind-Returns _ _ (parse_tls_clienthello buf) _ (parse_tls_clienthello-IsHello buf)
      λ r _ s. hello_points-Points buf r h s

-- What reached the socket, all of it or up to the write that failed.
abbrev pub Carries : (List ℕ → Type 0) → Io → Type 0
Carries R (sent segs) = R (concat segs)
Carries R (broken segs) = (rest : List ℕ) × R (concat segs ++ rest)
Carries R panicked = ⊥

module _ (R : List ℕ → Type 0) where
  pub and_then-Carries :
      (Q : List ℕ → Type 0) (io : Io) (rest : List (List ℕ) → Io)
      → Carries Q io
      → ((segs : List (List ℕ)) → Q (concat segs) → Carries R (rest segs))
      → ((out : List ℕ) → Q out → (more : List ℕ) × R (out ++ more))
      → Carries R (and_then io rest)
  unfolding and_then
  and_then-Carries Q (sent segs) rest h k l = k segs h
  and_then-Carries Q (broken segs) rest h k l =
      let (r, q) = h in
      let (more, out) = l (concat segs ++ r) q in
      (r ++ more, rw (← append_assoc (concat segs) r more) out)
  and_then-Carries Q panicked rest h k l = absurd h

  pub with_value-Carries :
      {A : Type 0} (P : A → Type 0) (m : Outcome A) (rest : A → Io)
      → Returns P m
      → ((a : A) → m ≡ ok a → P a → Carries R (rest a))
      → Carries R (with_value m rest)
  unfolding with_value
  with_value-Carries P (ok a) rest h k = k a refl h
  with_value-Carries P panic rest h k = absurd h

module _ (up : ℕ → Bool) where
  -- One segment: it arrives whole or the rest of the output begins with it.
  pub write_seg-Carries :
      (R : List ℕ → Type 0) (b : List ℕ) (segs : List (List ℕ)) (more : List ℕ)
      → R (concat segs ++ (b ++ more))
      → Carries (λ out. R (out ++ more)) (write_seg up b segs)
  unfolding write_seg
  write_seg-Carries R b segs more h = elim (Bool-cases (up (length segs))) [
    | inl e ↦ rw (e, write_seg) (rw (concat-snoc segs b, append_assoc) h)
    | inr e ↦ rw (e, write_seg) (b, rw append_assoc h)
  ]

  -- The last segment.
  pub write_seg-Carries_last :
      (R : List ℕ → Type 0) (b : List ℕ) (segs : List (List ℕ))
      → R (concat segs ++ b)
      → Carries R (write_seg up b segs)
  unfolding write_seg
  write_seg-Carries_last R b segs h = elim (Bool-cases (up (length segs))) [
    | inl e ↦ rw (e, write_seg) (rw (concat-snoc segs b) h)
    | inr e ↦ rw (e, write_seg) (b, h)
  ]

  -- The segment up to `to`, and then a loop that sends the rest.
  write_cut-Carries :
      (buf : List ℕ) (from to : ℕ) (segs : List (List ℕ)) (rest : List (List ℕ) → Io)
      → from ≤ to
      → to ≤ length buf
      → concat segs ++ drop from buf ≡ buf
      → ((segs' : List (List ℕ))
          → concat segs' ++ drop to buf ≡ buf
          → Carries (λ out. out ≡ buf) (rest segs'))
      → Carries
          (λ out. out ≡ buf)
          (with_value (slice buf from to) (λ b. and_then (write_seg up b segs) rest))
  write_cut-Carries buf from to segs rest p q e k =
      with_value-Carries (λ out. out ≡ buf) _ (slice buf from to) _ (slice-Returns buf from to p q)
        λ b _ at.
          and_then-Carries (λ out. out ≡ buf) (λ out. out ++ drop to buf ≡ buf)
            (write_seg up b segs) rest
            (write_seg-Carries (λ out. out ≡ buf) b segs (drop to buf)
              (rw (at.0, cut-append from to buf p) e))
            k (λ out h. (drop to buf, h))

  write_rest-Carries :
      (buf : List ℕ) (from : ℕ) (segs : List (List ℕ))
      → from ≤ length buf
      → concat segs ++ drop from buf ≡ buf
      → Carries
          (λ out. out ≡ buf)
          (with_value (slice buf from (length buf)) (λ b. write_seg up b segs))
  write_rest-Carries buf from segs p e =
      with_value-Carries (λ out. out ≡ buf) _ (slice buf from (length buf)) _
        (slice-Returns buf from (length buf) p (omega arith))
        λ b _ at.
          write_seg-Carries_last (λ out. out ≡ buf) b segs
            (rw
              (
                at.0,
                ← append-nil (take (length buf - from) (drop from buf)),
                ← drop-length buf,
                cut-append from (length buf) buf p,
              )
              e)

  -- `prev` bytes are on the wire; what the loop adds is the rest of the buffer.
  write_pieces-Carries :
      (buf ps : List ℕ) (prev : ℕ) (segs : List (List ℕ))
      → prev ≤ length buf
      → All (λ p. p ≤ length buf) ps
      → concat segs ++ drop prev buf ≡ buf
      → Carries (λ out. out ≡ buf) (write_pieces up buf ps prev segs)
  unfolding write_pieces
  write_pieces-Carries buf [] prev segs h a e = elim (Bool-cases (ltb prev (length buf))) [
    | inl t ↦ rw (t, write_pieces) (write_rest-Carries buf prev segs h e)
    | inr t ↦
        rw (t, write_pieces)
          (subst (λ (xs : List ℕ). xs ≡ buf) (append-nil (concat segs))
            (subst (λ k. concat segs ++ k ≡ buf) (drop-eq-nil prev buf (ground arith)) e))
  ]
  write_pieces-Carries buf (p ∷ ps) prev segs h a e = elim (Bool-cases (ltb prev p)) [
    | inl t ↦
        rw (t, write_pieces)
          (write_cut-Carries buf prev p segs _ (ground arith) a.0 e
            λ segs' e'. write_pieces-Carries buf ps p segs' a.0 a.1 e')
    | inr t ↦ rw (t, write_pieces) (write_pieces-Carries buf ps prev segs h a.1 e)
  ]

  -- `none`, `split` and `multi_split` change no byte of a buffer that holds any: what the socket
  -- takes is the buffer, in order, and after a write that fails it has taken a part from the front.
  pub apply-Carries_buf :
      (buf : List ℕ) (s : Strategy)
      → 0 < length buf
      → s ≢ tls_rec
      → s ≢ tls_rec_split
      → Carries (λ out. out ≡ buf) (apply up buf s)
  unfolding apply write_halves
  apply-Carries_buf buf Strategy.none h p q = write_seg-Carries_last (λ out. out ≡ buf) buf [] refl
  apply-Carries_buf buf tls_rec h p q = absurd (p refl)
  apply-Carries_buf buf tls_rec_split h p q = absurd (q refl)
  apply-Carries_buf buf split h p q =
      with_value-Carries (λ out. out ≡ buf) _ (split_points buf) _ (split_points-Points buf h)
        λ points _ at.
          write_cut-Carries buf 0 points.0 [] _ (omega arith) (at.1) refl
            λ segs e. write_rest-Carries buf points.0 segs at.1 e
  apply-Carries_buf buf multi_split h p q =
      with_value-Carries (λ out. out ≡ buf) _ (split_points buf) _ (split_points-Points buf h)
        λ points _ at. write_pieces-Carries buf points.1 0 [] (omega arith) at.3 refl
