-- ===== src/SyncQueue/Service/Unique.antt =====
-- Ids and keys of a table that stay apart under its statements.
use sc_desktop_beautiful.Prelude.{
  All, All-append, Bool, Bool-cases, List, String, [], arith, false, if◌then◌else◌, inl, inr, refl,
  str_eq_iff, sym, true, ℕ, ◌++◌, ◌<◌, ◌∙◌, ◌∷◌, ◌≡◌, ◌≢◌,
}
use sc_desktop_beautiful.SyncQueue.Table.{Db, Row, any_where, delete_where, has_key, update_where}
use sc_desktop_beautiful.SyncQueue.Service.{max_retries}

-- The unique index `sync_queue_target_uq`, and the primary key.
abbrev pub Differs : Row → Row → Type 0
Differs r s =
    (r.id ≢ s.id)
    × (r.user_id ≡ s.user_id → r.action_type ≡ s.action_type → r.target_urn ≡ s.target_urn → ⊥)

abbrev pub Distinct : List Row → Type 0
Distinct [] = Unit
Distinct (r ∷ rs) = All (Differs r) rs × Distinct rs

pub record IsWf (db : Db) : Type 0 where
  pub fresh : All (λ r. r.id < db.next_id) db.rows
  pub distinct : Distinct db.rows
  pub tries : All (λ r. r.retry_count < max_retries) db.rows

module _ (P : Row → Type 0) (p : Row → Bool) where
  pub delete_where-All : (rows : List Row) → All P rows → All P (delete_where p rows)
  unfolding delete_where
  delete_where-All [] h = tt
  delete_where-All (r ∷ rs) h = elim (Bool-cases (p r)) [
    | inl e ↦ rw (e, delete_where) (delete_where-All rs h.1)
    | inr e ↦ rw (e, delete_where) (h.0, delete_where-All rs h.1)
  ]

module _ (P Q : Row → Type 0) (p : Row → Bool) (f : Row → Row) where
  pub update_where-All :
      ((r : Row) → p r ≡ true → P r → Q (f r))
      → ((r : Row) → p r ≡ false → P r → Q r)
      → (rows : List Row) → All P rows
      → All Q (update_where p f rows)
  unfolding update_where
  update_where-All k l [] h = tt
  update_where-All k l (r ∷ rs) h = (
    elim (Bool-cases (p r)) [ inl e ↦ rw e (k r e h.0) | inr e ↦ rw e (l r e h.0) ],
    update_where-All k l rs h.1,
  )

module _ (p : Row → Bool) where
  pub delete_where-Distinct : (rows : List Row) → Distinct rows → Distinct (delete_where p rows)
  unfolding delete_where
  delete_where-Distinct [] h = tt
  delete_where-Distinct (r ∷ rs) h = elim (Bool-cases (p r)) [
    | inl e ↦ rw (e, delete_where) (delete_where-Distinct rs h.1)
    | inr e ↦
        rw (e, delete_where) (delete_where-All (Differs r) p rs h.0, delete_where-Distinct rs h.1)
  ]

-- An update that leaves the id and the key alone.
abbrev pub Names : Row → Row → Type 0
Names r s =
    (r.id ≡ s.id)
    × (r.user_id ≡ s.user_id)
    × (r.action_type ≡ s.action_type)
    × (r.target_urn ≡ s.target_urn)

Differs-Names : (r s r' s' : Row) → Names r' r → Names s' s → Differs r s → Differs r' s'
Differs-Names r s r' s' n m d = (
  (λ e. d.0 (sym n.0 ∙ e ∙ m.0)),
  (λ u a t. d.1 (sym n.1 ∙ u ∙ m.1) (sym n.2 ∙ a ∙ m.2) (sym n.3 ∙ t ∙ m.3)),
)

module _ (p : Row → Bool) (f : Row → Row) (keep : (r : Row) → Names (f r) r) where
  either : (r : Row) → Names (if p r then f r else r) r
  either r = elim (Bool-cases (p r)) [
    | inl e ↦ rw e (keep r)
    | inr e ↦ rw e (refl, refl, refl, refl)
  ]

  update_where-Differs :
      (r r' : Row) (rows : List Row)
      → Names r' r
      → All (Differs r) rows
      → All (Differs r') (update_where p f rows)
  unfolding update_where
  update_where-Differs r r' [] n h = tt
  update_where-Differs r r' (s ∷ rs) n h = (
    Differs-Names r s r' (if p s then f s else s) n (either s) h.0,
    update_where-Differs r r' rs n h.1,
  )

  pub update_where-Distinct : (rows : List Row) → Distinct rows → Distinct (update_where p f rows)
  unfolding update_where
  update_where-Distinct [] h = tt
  update_where-Distinct (r ∷ rs) h = (
    update_where-Differs r (if p r then f r else r) rs (either r) h.0,
    update_where-Distinct rs h.1,
  )

pub Distinct-snoc :
    (rows : List Row) (new : Row)
    → All (λ r. Differs r new) rows
    → Distinct rows
    → Distinct (rows ++ new ∷ [])
Distinct-snoc [] new h d = (tt, tt)
Distinct-snoc (r ∷ rs) new h d =
    (All-append (Differs r) rs (new ∷ []) d.0 (h.0, tt), Distinct-snoc rs new h.1 d.1)

pub has_key_lem :
    (u a t : String) (r : Row)
    → r.user_id ≡ u
    → r.action_type ≡ a
    → r.target_urn ≡ t
    → has_key u a t r ≡ true
unfolding has_key
has_key_lem u a t r e1 e2 e3 =
    ground (arith, str_eq_iff r.user_id u, str_eq_iff r.action_type a, str_eq_iff r.target_urn t)

-- No row has the key, and the new id is above all others.
pub absent-Differs :
    (u a t : String) (new : Row) (next : ℕ) (rows : List Row)
    → new.user_id ≡ u
    → new.action_type ≡ a
    → new.target_urn ≡ t
    → new.id ≡ next
    → All (λ r. r.id < next) rows
    → any_where (has_key u a t) rows ≡ false
    → All (λ r. Differs r new) rows
unfolding any_where
absent-Differs u a t new next [] eu ea et ei h none_has = tt
absent-Differs u a t new next (r ∷ rs) eu ea et ei h none_has = (
  (
    (λ e. omega (arith, h.0, e, ei)),
    (λ e1 e2 e3. ground (arith, has_key_lem u a t r (e1 ∙ eu) (e2 ∙ ea) (e3 ∙ et))),
  ),
  absent-Differs u a t new next rs eu ea et ei h.1 (ground arith),
)
