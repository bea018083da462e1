-- ===== src/Streaming/Hls/Segments.antt =====
-- Which segments are missing and which are there, of the results in streaming/src/stream/hls.rs.
use sc_desktop_beautiful.Prelude.{
  Bool-cases, List, Option, [], arith, get_elem?, get_elem?-set_ne, get_elem?-set_self, inl, inr,
  length, none, refl, set, some, subst, suc, zero, ℕ, ◌+◌, ◌<◌, ◌==◌, ◌∙◌, ◌∷◌, ◌≡◌, ◌≤◌, ◌⊎◌,
}
use sc_desktop_beautiful.Streaming.Hls.{pending}
use mathlib.Core.Option.{some-injective}

abbrev pub In : ℕ → List ℕ → Type 0
In i [] = ⊥
In i (j ∷ js) = (j ≡ i) ⊎ In i js

-- The segment at an index is there.
abbrev pub Filled : List (Option (List ℕ)) → ℕ → Type 0
Filled rs i = (chunk : List ℕ) × (get_elem? rs i ≡ some (some chunk))

pub pending-In :
    (rs : List (Option (List ℕ))) (i j : ℕ) → get_elem? rs j ≡ some none → In (i + j) (pending i rs)
unfolding pending
pending-In [] i j e = cc
pending-In (none ∷ rs) i zero e = inl (omega arith)
pending-In (none ∷ rs) i (suc j) e =
    inr (subst (λ n. In n (pending (i + 1) rs)) (omega arith) (pending-In rs (i + 1) j e))
pending-In (some chunk ∷ rs) i zero e = absurd (no_both (some-injective _ _ e))
  where
    no_both : some chunk ≡ none → ⊥
    no_both k = cc
pending-In (some chunk ∷ rs) i (suc j) e =
    subst (λ n. In n (pending (i + 1) rs)) (omega arith) (pending-In rs (i + 1) j e)

pub pending-bound :
    (rs : List (Option (List ℕ))) (i n : ℕ) → In n (pending i rs) → (i ≤ n) × (n < i + length rs)
unfolding pending
pending-bound [] i n m = absurd m
pending-bound (none ∷ rs) i n (inl e) = (omega arith, omega arith)
pending-bound (none ∷ rs) i n (inr m) =
    let b = pending-bound rs (i + 1) n m in (omega (arith, b.0), omega (arith, b.1))
pending-bound (some chunk ∷ rs) i n m =
    let b = pending-bound rs (i + 1) n m in (omega (arith, b.0), omega (arith, b.1))

pub pending-nil :
    (rs : List (Option (List ℕ))) (i : ℕ)
    → ((j : ℕ) → j < length rs → Filled rs j)
    → pending i rs ≡ []
unfolding pending
pending-nil [] i h = refl
pending-nil (none ∷ rs) i h =
    let (chunk, e) = h 0 (omega arith) in absurd (no_both (some-injective _ _ e))
  where
    no_both : {c : List ℕ} → none ≡ some c → ⊥
    no_both k = cc
pending-nil (some chunk ∷ rs) i h = pending-nil rs (i + 1) λ j less. h (suc j) (omega arith)

-- A segment of the list is missing or there.
pub get_elem?_known :
    (rs : List (Option (List ℕ))) (j : ℕ)
    → j < length rs
    → (get_elem? rs j ≡ some none) ⊎ Filled rs j
get_elem?_known [] j h = absurd (omega arith)
get_elem?_known (none ∷ rs) zero h = inl refl
get_elem?_known (some chunk ∷ rs) zero h = inr (chunk, refl)
get_elem?_known (r ∷ rs) (suc j) h = get_elem?_known rs j (omega arith)

pub set-Filled :
    (rs : List (Option (List ℕ))) (i j : ℕ) (chunk : List ℕ)
    → i < length rs
    → Filled rs j
    → Filled (set rs i (some chunk)) j
set-Filled rs i j chunk h (c, e) = elim (Bool-cases (i == j)) [
  | inl same ↦
      let eq : i ≡ j = ground arith in
      (
        chunk,
        subst (λ n. get_elem? (set rs i (some chunk)) n ≡ some (some chunk)) eq
            (get_elem?-set_self rs i (some chunk) h),
      )
  | inr ne ↦ (c, get_elem?-set_ne rs (some chunk) (λ eq. ground arith) ∙ e)
]

pub pending-Filled :
    (rs : List (Option (List ℕ))) → pending 0 rs ≡ [] → (j : ℕ) → j < length rs → Filled rs j
pending-Filled rs e j less = elim (get_elem?_known rs j less) [
  | inl missing ↦ absurd (subst (In (0 + j)) e (pending-In rs 0 j missing))
  | inr f ↦ f
]
