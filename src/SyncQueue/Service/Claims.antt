-- ===== src/SyncQueue/Service/Claims.antt =====
-- Which rows a worker gets, and that two workers do not get the same ones.
use sc_desktop_beautiful.Prelude.{
  All, Bool, Bool-cases, List, [], ap, arith, false, if◌then◌else◌, inl, inr, refl, some, subst,
  suc, sym, take, true, zero, ℕ, ◌+◌, ◌∙◌, ◌∷◌, ◌≡◌, ◌≢◌, ◌≤◌, ◌⊎◌,
}
use sc_desktop_beautiful.SyncQueue.Table.{Db, Row, any_where, has_id, select_where, update_where}
use sc_desktop_beautiful.SyncQueue.Service.{
  claim_batch, insert_row, is_before, is_due, is_picked, lock_row, lock_timeout, order_rows, picks,
}
use sc_desktop_beautiful.SyncQueue.Service.Keys.{claim_batch-IsWf}
use sc_desktop_beautiful.SyncQueue.Service.Unique.{Differs, Distinct, IsWf}

abbrev pub In : Row → List Row → Type 0
In r [] = ⊥
In r (s ∷ ss) = (r ≡ s) ⊎ In r ss

pub All-of-In : (P : Row → Type 0) (rows : List Row) → ((r : Row) → In r rows → P r) → All P rows
All-of-In P [] k = tt
All-of-In P (r ∷ rs) k = (k r (inl refl), All-of-In P rs (λ s m. k s (inr m)))

pub In-All : (P : Row → Type 0) (r : Row) (rows : List Row) → All P rows → In r rows → P r
In-All P r [] h m = absurd m
In-All P r (s ∷ ss) h (inl e) = rw e h.0
In-All P r (s ∷ ss) h (inr m) = In-All P r ss h.1 m

pub Distinct-In :
    (r s : Row) (rows : List Row) → Distinct rows → In r rows → In s rows → r.id ≡ s.id → r ≡ s
Distinct-In r s [] d m n e = absurd m
Distinct-In r s (t ∷ ts) d (inl p) (inl q) e = p ∙ sym q
Distinct-In r s (t ∷ ts) d (inl p) (inr n) e =
    absurd ((In-All (Differs t) s ts d.0 n).0 (ap (λ (x : Row). x.id) (sym p) ∙ e))
Distinct-In r s (t ∷ ts) d (inr m) (inl q) e =
    absurd ((In-All (Differs t) r ts d.0 m).0 (ap (λ (x : Row). x.id) (sym q) ∙ sym e))
Distinct-In r s (t ∷ ts) d (inr m) (inr n) e = Distinct-In r s ts d.1 m n e

module _ (p : Row → Bool) (r s : Row) (ss rest : List Row) where
  select_cons-In :
      (b : Bool)
      → p s ≡ b
      → In r (if b then s ∷ rest else rest)
      → (In r rest → In r ss × (p r ≡ true))
      → In r (s ∷ ss) × (p r ≡ true)
  select_cons-In true e (inl q) k = (inl q, rw q e)
  select_cons-In true e (inr m) k = let (n, t) = k m in (inr n, t)
  select_cons-In false e m k = let (n, t) = k m in (inr n, t)

select_where-In :
    (p : Row → Bool) (r : Row) (rows : List Row)
    → In r (select_where p rows)
    → In r rows × (p r ≡ true)
unfolding select_where
select_where-In p r [] m = absurd m
select_where-In p r (s ∷ ss) m =
    select_cons-In p r s ss (select_where p ss) (p s) refl m (select_where-In p r ss)

any_where-In :
    (p : Row → Bool) (rows : List Row)
    → any_where p rows ≡ true
    → (s : Row) × In s rows × (p s ≡ true)
unfolding any_where
any_where-In p [] e = cc
any_where-In p (r ∷ rs) e = elim (Bool-cases (p r)) [
  | inl t ↦ (r, inl refl, t)
  | inr t ↦ let (s, m, q) = any_where-In p rs (ground arith) in (s, inr m, q)
]

module _ (r s t : Row) (ts rest : List Row) where
  insert_cons-In :
      (b : Bool)
      → In r (if b then s ∷ t ∷ ts else t ∷ rest)
      → (In r rest → (r ≡ s) ⊎ In r ts)
      → (r ≡ s) ⊎ In r (t ∷ ts)
  insert_cons-In true m k = m
  insert_cons-In false (inl q) k = inr (inl q)
  insert_cons-In false (inr m) k = elim (k m) [ inl e ↦ inl e | inr n ↦ inr (inr n) ]

insert_row-In : (r s : Row) (rows : List Row) → In r (insert_row s rows) → (r ≡ s) ⊎ In r rows
unfolding insert_row
insert_row-In r s [] m = m
insert_row-In r s (t ∷ ts) m =
    insert_cons-In r s t ts (insert_row s ts) (is_before s t) m (insert_row-In r s ts)

order_rows-In : (r : Row) (rows : List Row) → In r (order_rows rows) → In r rows
unfolding order_rows
order_rows-In r [] m = m
order_rows-In r (s ∷ ss) m = elim (insert_row-In r s (order_rows ss) m) [
  | inl e ↦ inl e
  | inr n ↦ inr (order_rows-In r ss n)
]

take-In : (n : ℕ) (r : Row) (rows : List Row) → In r (take n rows) → In r rows
take-In zero r rows m = absurd m
take-In (suc n) r [] m = m
take-In (suc n) r (s ∷ ss) (inl e) = inl e
take-In (suc n) r (s ∷ ss) (inr m) = inr (take-In n r ss m)

-- A row after an update is the row before it, changed or not.
update_where-In :
    (p : Row → Bool) (f : Row → Row) (r : Row) (rows : List Row)
    → In r (update_where p f rows)
    → (s : Row) × In s rows × (r ≡ (if p s then f s else s))
unfolding update_where
update_where-In p f r [] m = absurd m
update_where-In p f r (s ∷ ss) (inl e) = (s, inl refl, e)
update_where-In p f r (s ∷ ss) (inr m) = let (t, n, e) = update_where-In p f r ss m in (t, inr n, e)

-- The id is what `is_picked` looks at.
is_picked-id :
    (picked : List Row) (r s : Row) → r.id ≡ s.id → is_picked picked r ≡ is_picked picked s
unfolding is_picked
is_picked-id picked r s e = ap (λ i. any_where (has_id i) picked) e

if-id : (b : Bool) (now : ℕ) (s : Row) → (if b then lock_row now s else s).id ≡ s.id
unfolding lock_row
if-id true now s = refl
if-id false now s = refl

if-locked :
    (b : Bool) (now : ℕ) (s : Row)
    → b ≡ true
    → (if b then lock_row now s else s).locked_at ≡ some now
unfolding lock_row
if-locked true now s e = refl
if-locked false now s e = cc

module _ (db : Db) (now limit : ℕ) where
  -- What a claim hands out is in the new table, and locked now.
  pub claim-locked :
      (r : Row)
      → In r (claim_batch db now limit).1
      → In r (claim_batch db now limit).0.rows × (r.locked_at ≡ some now)
  unfolding claim_batch
  claim-locked r m =
      let (n, picked) = select_where-In (is_picked (picks db now limit)) r _ m in
      let (s, k, e) = update_where-In (is_picked (picks db now limit)) (lock_row now) r db.rows n in
      let same : r.id ≡ s.id =
        ap (λ (x : Row). x.id) e ∙ if-id (is_picked (picks db now limit) s) now s in
      (
        n,
        ap (λ (x : Row). x.locked_at) e
            ∙ if-locked (is_picked (picks db now limit) s) now s
                (sym (is_picked-id (picks db now limit) r s same) ∙ picked),
      )

  -- It stands for a row of the old table that was due.
  claim-due :
      (r : Row)
      → In r (claim_batch db now limit).1
      → (s : Row) × In s db.rows × (s.id ≡ r.id) × (is_due now s ≡ true)
  unfolding claim_batch is_picked picks has_id
  claim-due r m =
      let (n, picked) = select_where-In (is_picked (picks db now limit)) r _ m in
      let (s, k, e) = any_where-In (has_id r.id) (picks db now limit) picked in
      let (k', due) =
        select_where-In (is_due now) s db.rows (order_rows-In s _ (take-In limit s _ k)) in
      (s, k', ground arith, due)

locked_not_due :
    (r : Row) (at now : ℕ) → r.locked_at ≡ some at → now ≤ at + lock_timeout → is_due now r ≡ false
unfolding is_due
locked_not_due r at now e h = rw e (ground arith)

-- In a well-formed table, until the lock timeout is over, a second claim gets none of the rows of the
-- first, whatever the limits of the two.
pub claims_are_disjoint :
    (db : Db) (now later limit limit' : ℕ)
    → IsWf db
    → later ≤ now + lock_timeout
    → let first = claim_batch db now limit in
      All (λ r. All (λ s. r.id ≢ s.id) (claim_batch first.0 later limit').1) first.1
claims_are_disjoint db now later limit limit' v h = All-of-In _ _ λ r m. All-of-In _ _ λ s n e.
    let (here, locked) = claim-locked db now limit r m in
    let (t, there, same, due) = claim-due (claim_batch db now limit).0 later limit' s n in
    let one : r ≡ t =
      Distinct-In r t _ (claim_batch-IsWf db now limit v).distinct here there (e ∙ sym same) in
    let no_due : is_due later t ≡ false =
      subst (λ (x : Row). is_due later x ≡ false) one (locked_not_due r now later locked h) in
    cc
