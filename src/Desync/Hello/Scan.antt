-- ===== src/Desync/Hello/Scan.antt =====
-- The loop over the extensions ends, reads no byte out of range, and reports names inside the
-- payload only.
use sc_desktop_beautiful.Prelude.{
  ℕ, zero, suc, ◌+◌, ◌≤◌, ◌<◌, ◌&&◌, List, Option, none, some, leb, ◌==◌, length, arith,
}
use sc_desktop_beautiful.Prelude.Outcome.{
  Outcome, index, Returns, bind-Returns, if-Returns, index-Returns, Returns-mono,
}
use sc_desktop_beautiful.Desync.Hello.{
  Turn, leave, found, next, u16_at, read_name, ext_turn, ext_loop, resume,
}

pub u16_at-Returns : (p : List ℕ) (i : ℕ) → i + 1 < length p → Returns (λ _. Unit {0}) (u16_at p i)
unfolding u16_at
u16_at-Returns p i h =
    bind-Returns _ _ (index p i) _ (index-Returns p i (omega arith))
      λ hi _ _. bind-Returns _ _ (index p (i + 1)) _ (index-Returns p (i + 1) h) λ lo _ _. tt

-- What a turn may answer: it goes forward by four at least, and a name lies inside the payload.
abbrev pub Answers : List ℕ → ℕ → ℕ → Turn → Type 0
Answers p i ext_end leave = ext_end < i + 4
Answers p i ext_end (found off len) =
    (i + 4 ≤ ext_end) × (i + 14 ≤ off) × (off + len ≤ 5 + length p)
Answers p i ext_end (next j) = (i + 4 ≤ ext_end) × (i + 4 ≤ j)

read_name-Answers :
    (p : List ℕ) (i ext_end elen : ℕ)
    → i + 4 ≤ ext_end
    → i + 9 ≤ length p
    → Returns (Answers p i ext_end) (read_name p (i + 4) elen)
unfolding read_name
read_name-Answers p i ext_end elen h room =
    bind-Returns _ _ (u16_at p (i + 4 + 3)) _ (u16_at-Returns p (i + 4 + 3) (omega arith))
      λ v _ _. ground arith

ext_turn-Answers :
    (p : List ℕ) (i ext_end : ℕ)
    → ext_end ≤ length p
    → Returns (Answers p i ext_end) (ext_turn p i ext_end)
unfolding ext_turn
ext_turn-Answers p i ext_end h =
    if-Returns _ (leb (i + 4) ext_end) _ _
      (λ room. bind-Returns _ _ (u16_at p i) _ (u16_at-Returns p i (ground arith)) λ etype _ _.
        bind-Returns _ _ (u16_at p (i + 2)) _ (u16_at-Returns p (i + 2) (ground arith)) λ elen _ _.
          if-Returns _ (etype == 0 && leb (i + 4 + 5) (length p)) _ _
            (λ t. read_name-Answers p i ext_end elen (ground arith) (ground arith))
            (λ _. ground arith))
      (λ full. ground arith)

-- A name that the loop finds from `i` on.
abbrev pub FoundFrom : List ℕ → ℕ → Option (ℕ × ℕ) → Type 0
FoundFrom p i none = Unit
FoundFrom p i (some (off, len)) = (i + 14 ≤ off) × (off + len ≤ 5 + length p)

FoundFrom-mono :
    (p : List ℕ) (i j : ℕ) (r : Option (ℕ × ℕ)) → i ≤ j → FoundFrom p j r → FoundFrom p i r
FoundFrom-mono p i j none h f = tt
FoundFrom-mono p i j (some (off, len)) h f = omega arith

resume-Returns :
    (p : List ℕ) (i ext_end : ℕ) (rest : ℕ → Outcome (Option (ℕ × ℕ))) (t : Turn)
    → Answers p i ext_end t
    → ((j : ℕ) → i + 4 ≤ ext_end → i + 4 ≤ j → Returns (FoundFrom p j) (rest j))
    → Returns (FoundFrom p i) (resume rest t)
unfolding resume
resume-Returns p i ext_end rest leave a k = tt
resume-Returns p i ext_end rest (found off len) a k = omega arith
resume-Returns p i ext_end rest (next j) a k =
    Returns-mono _ _ (rest j) (k j a.0 a.1) λ r _ f. FoundFrom-mono p i j r (omega arith) f

-- With more turns than bytes left the loop ends.
pub ext_loop-Returns :
    (turns : ℕ) (p : List ℕ) (i ext_end : ℕ)
    → ext_end ≤ length p
    → 0 < turns
    → ext_end < i + turns
    → Returns (FoundFrom p i) (ext_loop turns p i ext_end)
unfolding ext_loop
ext_loop-Returns zero p i ext_end h some_left enough = elim some_left [ ]
ext_loop-Returns (suc turns) p i ext_end h some_left enough =
    bind-Returns _ _ (ext_turn p i ext_end) _ (ext_turn-Answers p i ext_end h) λ t _ a.
      resume-Returns p i ext_end _ t a
        λ j p1 p2. ext_loop-Returns turns p j ext_end h (omega arith) (omega arith)
