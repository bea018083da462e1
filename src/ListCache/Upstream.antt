-- ===== src/ListCache/Upstream.antt =====
-- What the cache of lists promises: it stands for the list that the fetcher gives chunk by chunk.
use sc_desktop_beautiful.Prelude.{
  Bool-cases, List, Option, [], append-nil, append_assoc, ap, arith, false, if◌then◌else◌, inl, inr,
  length, length-append, ltb, none, not, refl, some, subst, suc, sym, true, zero, ℕ, ◌&&◌, ◌*◌,
  ◌++◌, ◌+◌, ◌∙◌, ◌≡◌, ◌≢◌, ◌≤◌, ◌⊎◌, if-true, if-false, Option-cases,
}
use native.Mathlib.Nat.{suc-mul}
use sc_desktop_beautiful.Errors.{AppResult, err, good, good-injective, >>=-eq-good, ◌>>=◌}
use sc_desktop_beautiful.ListCache.{
  FetchChunkResult, ListState, counted, extended, fetch_chunks, fresh, is_none,
}

module _ {A : Type 0} (fetch : Option (List ℕ) → ℕ → AppResult (FetchChunkResult A))
    (size : ℕ) where
  -- One more chunk, if there is one.
  unfoldable pub step : ListState A → AppResult (ListState A)
  step s = if s.exhausted then good s else (do c ← fetch s.next_cursor size; good (extended s c))

  abbrev pub steps : ℕ → ListState A → AppResult (ListState A)
  steps zero s = good s
  steps (suc n) s = step s >>= steps n

  -- The fetcher ends after some chunks, and the whole list is that of `w`.
  pub record IsWhole (w : ListState A) : Type 0 where
    pub ended : w.exhausted ≡ true
    pub chunks : ℕ
    pub reached : steps chunks fresh ≡ good w

  -- The state, with what is still to come, is the whole list.
  abbrev pub Leads : ListState A → ListState A → Type 0
  Leads w s = (n : ℕ) × (steps n s ≡ good w)

  step_exhausted : (s : ListState A) → s.exhausted ≡ true → step s ≡ good s
  unfolding step
  step_exhausted s e = rw e

  steps_exhausted : (n : ℕ) (s : ListState A) → s.exhausted ≡ true → steps n s ≡ good s
  steps_exhausted zero s e = refl
  steps_exhausted (suc n) s e = rw (step_exhausted s e) (steps_exhausted n s e)

  -- A list that has come to its end is the whole one.
  pub Leads-eq : (w s : ListState A) → Leads w s → s.exhausted ≡ true → s ≡ w
  Leads-eq w s (n, e) x = good-injective (sym (steps_exhausted n s x) ∙ e)

  Leads-step :
      (w s s' : ListState A) → w.exhausted ≡ true → Leads w s → step s ≡ good s' → Leads w s'
  Leads-step w s s' x (zero, e) f =
      let same : s ≡ w = good-injective e in
      (
        zero,
        ap good (good-injective (sym f ∙ step_exhausted s (ap (λ r. r.exhausted) same ∙ x))) ∙ e,
      )
  Leads-step w s s' x (suc n, e) f = (n, sym (ap (λ r. r >>= steps n) f) ∙ e)

  -- One chunk only adds to the items.
  step-append :
      (s s' : ListState A) → step s ≡ good s' → (rest : List A) × (s'.items ≡ s.items ++ rest)
  unfolding extended step
  step-append s s' e = elim (Bool-cases s.exhausted) [
    | inl x ↦ (
      [],
      ap (λ r. r.items) (good-injective (sym e ∙ if-true _ _ _ x)) ∙ sym (append-nil s.items),
    )
    | inr more ↦
        let (c, _, f) =
          >>=-eq-good (fetch s.next_cursor size) (λ c. good (extended s c))
            (sym (if-false _ _ _ more) ∙ e) in
        (c.items, ap (λ r. r.items) (sym (good-injective f)))
  ]

  pub Leads-append : (w s : ListState A) → Leads w s → (rest : List A) × (w.items ≡ s.items ++ rest)
  Leads-append w s (zero, e) =
      ([], ap (λ r. r.items) (sym (good-injective e)) ∙ sym (append-nil s.items))
  Leads-append w s (suc n, e) =
      let (t, f, g) = >>=-eq-good (step s) (steps n) e in
      let (rest, p) = step-append s t f in
      let (rest', q) = Leads-append w t (n, g) in
      (rest ++ rest', q ∙ ap (λ xs. xs ++ rest') p ∙ append_assoc s.items rest rest')

  -- A chunk that is fetched before the end is a step.
  step-extended :
      (s : ListState A) (c : FetchChunkResult A)
      → s.exhausted ≡ false
      → fetch s.next_cursor size ≡ good c
      → step s ≡ good (extended s c)
  unfolding step
  step-extended s c more f = if-false _ _ _ more ∙ ap (λ r. r >>= λ c. good (extended s c)) f

  -- What the loop leaves: more of the same list, until the need is met, the list has ended, or all
  -- the chunks that were left have come, none of which has fewer than `k` items but the last.
  pub record Fetched (w s : ListState A) (left need k : ℕ) (out : ListState A × ℕ) : Type 0 where
    pub leads : Leads w out.0
    pub enough :
        (need ≤ length out.0.items)
        ⊎ ((out.0.exhausted ≡ true) ⊎ (left * k + length s.items ≤ length out.0.items))
    pub idle : out.1 ≡ 0 → out.0 ≡ s

  module _ (w : ListState A) (whole : IsWhole w) (k : ℕ)
      (filled : (c : Option (List ℕ)) (r : FetchChunkResult A)
        → fetch c size ≡ good r
        → r.next_cursor ≢ none
        → k ≤ length r.items) where
    fetch_chunks_exhausted :
        (left need : ℕ) (s : ListState A)
        → s.exhausted ≡ true
        → fetch_chunks fetch left size need s ≡ good (s, 0)
    unfolding counted fetch_chunks
    fetch_chunks_exhausted zero need s x = refl
    fetch_chunks_exhausted (suc left) need s x =
        if-false (ltb (length s.items) need && not s.exhausted) _ _ (ground arith)

    -- What one chunk adds to what the loop leaves behind it.
    Fetched-extended :
        (left need : ℕ) (s : ListState A) (c : FetchChunkResult A) (t : ListState A) (n : ℕ)
        → fetch s.next_cursor size ≡ good c
        → fetch_chunks fetch left size need (extended s c) ≡ good (t, n)
        → Fetched w (extended s c) left need k (t, n)
        → Fetched w s (suc left) need k (t, suc n)
    unfolding extended is_none
    Fetched-extended left need s c t n f g d = record {
      leads = d.leads;
      enough = elim d.enough [
        | inl met ↦ inl met
        | inr (inl x) ↦ inr (inl x)
        | inr (inr more) ↦ elim (Option-cases c.next_cursor) [
          | inl last ↦
              let x : (extended s c).exhausted ≡ true = ap is_none last in
              let same : extended s c ≡ t =
                ap (λ o. o.0) (good-injective (sym (fetch_chunks_exhausted left need _ x) ∙ g)) in
              inr (inl (ap (λ r. r.exhausted) (sym same) ∙ x))
          | inr (cursor, e) ↦
              let many : k ≤ length c.items =
                filled s.next_cursor c f (λ z. absurd (no_both cursor (sym z ∙ e))) in
              inr (inr (omega (arith, length-append s.items c.items, more, many, suc-mul left k)))
        ]
      ];
      idle = λ z. absurd (omega arith);
    }
      where
        no_both : (cursor : List ℕ) → none ≡ some cursor → ⊥
        no_both cursor k = cc

    pub fetch_chunks-Fetched :
        (left need : ℕ) (s : ListState A) (out : ListState A × ℕ)
        → Leads w s
        → fetch_chunks fetch left size need s ≡ good out
        → Fetched w s left need k out
    unfolding counted fetch_chunks
    fetch_chunks-Fetched zero need s out l e =
        subst (Fetched w s zero need k) (good-injective e)
          (record { leads = l; enough = inr (inr (omega arith)); idle = λ _. refl })
    fetch_chunks-Fetched (suc left) need s out l e =
        elim (Bool-cases (ltb (length s.items) need && not s.exhausted)) [
          | inl more ↦
              after (exhausted_not more) (fetch s.next_cursor size) refl
                (λ c. fetch_chunks-Fetched left need (extended s c)) (sym (if-true _ _ _ more) ∙ e)
          | inr stop ↦
              subst (Fetched w s (suc left) need k) (good-injective (sym (if-false _ _ _ stop) ∙ e))
                (record { leads = l; enough = stopped stop; idle = λ _. refl })
        ]
      where
        exhausted_not : (ltb (length s.items) need && not s.exhausted) ≡ true → s.exhausted ≡ false
        exhausted_not h = ground arith

        stopped :
            (ltb (length s.items) need && not s.exhausted) ≡ false
            → (need ≤ length s.items)
              ⊎ ((s.exhausted ≡ true) ⊎ (suc left * k + length s.items ≤ length s.items))
        stopped h = elim (Bool-cases (ltb (length s.items) need)) [
          | inl less ↦ inr (inl (ground arith))
          | inr met ↦ inl (ground arith)
        ]

        joined :
            (c : FetchChunkResult A)
            → fetch s.next_cursor size ≡ good c
            → (r : AppResult (ListState A × ℕ))
            → fetch_chunks fetch left size need (extended s c) ≡ r
            → ((out : ListState A × ℕ) → r ≡ good out → Fetched w (extended s c) left need k out)
            → counted r ≡ good out
            → Fetched w s (suc left) need k out
        joined c f (good (t, n)) g ih e =
            subst (Fetched w s (suc left) need k) (good-injective e)
              (Fetched-extended left need s c t n f g (ih (t, n) refl))
        joined c f (err x) g ih e = absurd (no_both e)
          where
            no_both : err x ≡ good out → ⊥
            no_both z = cc

        after :
            s.exhausted ≡ false
            → (r : AppResult (FetchChunkResult A)) → fetch s.next_cursor size ≡ r
            → ((c : FetchChunkResult A) (out : ListState A × ℕ)
                → Leads w (extended s c)
                → fetch_chunks fetch left size need (extended s c) ≡ good out
                → Fetched w (extended s c) left need k out)
            → (elim r [
              | err e ↦ err e
              | good fetched ↦ counted (fetch_chunks fetch left size need (extended s fetched))
            ])
              ≡ good out
            → Fetched w s (suc left) need k out
        after more (good c) f ih e =
            joined c f (fetch_chunks fetch left size need (extended s c)) refl
              (λ out g.
                ih c out (Leads-step w s (extended s c) whole.ended l (step-extended s c more f)) g)
              e
        after more (err x) f ih e = absurd (no_both e)
          where
            no_both : err x ≡ good out → ⊥
            no_both z = cc
