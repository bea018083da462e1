-- ===== src/Desync/Tamper/Names.antt =====
-- Where the cuts fall when the parser has found a host name.
use sc_desktop_beautiful.Prelude.{
  ==_iff, Bool-cases, List, [], arith, inl, inr, leb, length, ltb, max, refl, some, subst, true, ℕ,
  ◌&&◌, ◌+◌, ◌-◌, ◌/◌, ◌<◌, ◌==◌, ◌∷◌, ◌≡◌, ◌≤◌, ◌⊎◌,
}
use sc_desktop_beautiful.Prelude.Outcome.{
  Returns, Returns-mono, Returns-of-ok, bind-Returns, clamp, clamp-Returns, ok, sub, sub-Returns,
}
use sc_desktop_beautiful.Desync.Hello.{Tls, parse_tls_clienthello}
use sc_desktop_beautiful.Desync.Hello.Shape.{IsHello, SniWithin, parse_tls_clienthello-IsHello}
use sc_desktop_beautiful.Desync.Tamper.{
  dedup, dedup_sorted, hello_points, insert, inside, middle, record_cut, sort, split_points,
}

-- The cut `at` has bytes of the name on both sides.
unfoldable pub Cut : ℕ → ℕ → ℕ → Type 0
Cut off len at = (off < at) × (at < off + len)

middle-eq : (t : Tls) (off len : ℕ) → t.sni ≡ some (off, len) → middle t ≡ off + len / 2
unfolding middle
middle-eq t off len e = rw (e, middle) refl

Among : ℕ → List ℕ → Type 0
Among x [] = ⊥
Among x (y ∷ ys) = (x ≡ y) ⊎ Among x ys

insert_self : (x : ℕ) (xs : List ℕ) → Among x (insert x xs)
unfolding insert Among
insert_self x [] = inl refl
insert_self x (y ∷ ys) = elim (Bool-cases (leb x y)) [
  | inl e ↦ rw (e, insert) (inl refl)
  | inr e ↦ rw (e, insert) (inr (insert_self x ys))
]

insert-Among : (x y : ℕ) (xs : List ℕ) → Among x xs → Among x (insert y xs)
unfolding insert Among
insert-Among x y [] m = inr m
insert-Among x y (z ∷ zs) m = elim (Bool-cases (leb y z)) [
  | inl e ↦ rw (e, insert) (inr m)
  | inr e ↦
      rw (e, insert) (elim m [ inl here ↦ inl here | inr later ↦ inr (insert-Among x y zs later) ])
]

sort-Among : (x : ℕ) (xs : List ℕ) → Among x xs → Among x (sort xs)
unfolding sort Among
sort-Among x [] m = m
sort-Among x (y ∷ ys) (inl here) = rw here (insert_self y (sort ys))
sort-Among x (y ∷ ys) (inr later) = insert-Among x y (sort ys) (sort-Among x ys later)

dedup-Among : (x : ℕ) (xs : List ℕ) → Among x xs → Among x (dedup xs)
unfolding dedup Among
dedup-Among x [] m = m
dedup-Among x (y ∷ []) m = m
dedup-Among x (y ∷ z ∷ zs) (inl here) = elim (Bool-cases (y == z)) [
  | inl e ↦ rw (e, dedup) (dedup-Among x (z ∷ zs) (inl (omega (arith, here, (==_iff y z).0 e))))
  | inr e ↦ rw (e, dedup) (inl here)
]
dedup-Among x (y ∷ z ∷ zs) (inr later) = elim (Bool-cases (y == z)) [
  | inl e ↦ rw (e, dedup) (dedup-Among x (z ∷ zs) later)
  | inr e ↦ rw (e, dedup) (inr (dedup-Among x (z ∷ zs) later))
]

inside-Among : (size x : ℕ) (xs : List ℕ) → 0 < x → x < size → Among x xs → Among x (inside size xs)
unfolding inside Among
inside-Among size x [] p q m = m
inside-Among size x (y ∷ ys) p q (inl here) =
    let keep : (ltb 0 y && ltb y size) ≡ true = ground arith in rw (keep, inside) (inl here)
inside-Among size x (y ∷ ys) p q (inr later) = elim (Bool-cases (ltb 0 y && ltb y size)) [
  | inl e ↦ rw (e, inside) (inr (inside-Among size x ys p q later))
  | inr e ↦ rw (e, inside) (inside-Among size x ys p q later)
]

dedup_sorted-Among :
    (size x : ℕ) (xs : List ℕ)
    → 0 < x
    → x < size
    → Among x xs
    → Among x (dedup_sorted (inside size xs))
unfolding dedup_sorted
dedup_sorted-Among size x xs p q m = dedup-Among x _ (sort-Among x _ (inside-Among size x xs p q m))

-- The single point cuts the name, and it is one of the points of `multi_split`.
unfoldable pub CutBoth : ℕ → ℕ → ℕ × List ℕ → Type 0
unfolding Cut Among
CutBoth off len points = Cut off len points.0 × Among points.0 points.1

-- `buf.len() - mid` and `clamp` are safe here, and `clamp` leaves the middle of the name alone.
hello_points-Cut :
    (buf : List ℕ) (t : Tls) (off len : ℕ)
    → IsHello buf (some t)
    → t.sni ≡ some (off, len)
    → 2 ≤ len
    → Returns (CutBoth off len) (hello_points buf (some t))
unfolding hello_points CutBoth
hello_points-Cut buf t off len h e long =
    let w : SniWithin (length t.payload) (some (off, len)) =
      subst (SniWithin (length t.payload)) e h.5 in
    bind-Returns _ _ (clamp (middle t) 6 (max (length buf - 1) 6)) _
      (clamp-Returns (middle t) 6 _ (omega arith))
      λ mid _ m.
        bind-Returns _ _ (sub (length buf) mid) _ (sub-Returns (length buf) mid (omega arith))
          λ rest _ _.
            let q : middle t ≡ off + len / 2 = middle-eq t off len e in
            let k : mid ≡ middle t = m.2 (omega arith) (omega arith) in
            (
              (omega arith, omega arith),
              dedup_sorted-Among (length buf) mid _ (omega arith) (omega arith)
                  (inr (inr (inl refl))),
            )

record_cut-Cut :
    (buf : List ℕ) (t : Tls) (off len : ℕ)
    → IsHello buf (some t)
    → t.sni ≡ some (off, len)
    → 2 ≤ len
    → Returns (λ a. Cut off len (5 + a)) (record_cut t)
unfolding record_cut Cut
record_cut-Cut buf t off len h e long =
    let w : SniWithin (length t.payload) (some (off, len)) =
      subst (SniWithin (length t.payload)) e h.5 in
    rw (e, record_cut)
      (bind-Returns _ _ (sub off 5) _ (sub-Returns off 5 (omega arith)) λ start _ s.
        bind-Returns _ _ (sub (length t.payload) 1) _
          (sub-Returns (length t.payload) 1 (omega arith))
          λ last _ l.
            Returns-mono _ _ (clamp (start + len / 2) 1 last) (clamp-Returns _ _ _ (omega arith))
              λ a _ c.
                let k : a ≡ start + len / 2 = c.2 (omega arith) (omega arith) in
                (omega arith, omega arith))

-- A host name of two bytes or more is never whole on one side of a cut: the point of `split`, which
-- is one of the points of `multi_split`, and the place between the two records both have bytes of
-- the name before and after them.
pub split_points-CutBoth :
    (buf : List ℕ) (t : Tls) (off len : ℕ)
    → parse_tls_clienthello buf ≡ ok (some t)
    → t.sni ≡ some (off, len)
    → 2 ≤ len
    → Returns (CutBoth off len) (split_points buf)
      × Returns (λ a. Cut off len (5 + a)) (record_cut t)
unfolding split_points
split_points-CutBoth buf t off len e s long =
    let h : IsHello buf (some t) =
      Returns-of-ok (IsHello buf) (parse_tls_clienthello buf) e
        (parse_tls_clienthello-IsHello buf) in
    (
      rw (e, split_points) (hello_points-Cut buf t off len h s long),
      record_cut-Cut buf t off len h s long,
    )
