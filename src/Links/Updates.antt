-- ===== src/Links/Updates.antt =====
-- The update of one request among the requests, backend/src/modules/auth/link_service.rs.
use sc_desktop_beautiful.Prelude.{
  All, Bool, List, Option, [], ap, arith, if◌then◌else◌, length, none, if-cases, if-true, if-false,
  Bool-cases, refl, some, sym, subst, ℕ, ◌+◌, ◌==◌, ◌∙◌, ◌∷◌, ◌≡◌, ◌≢◌, ◌⊎◌, inl, inr,
}
use mathlib.Core.Option.{some-injective}
use sc_desktop_beautiful.Prelude.Text.{text_eq}
use sc_desktop_beautiful.Errors.{AppResult}
use sc_desktop_beautiful.Links.{
  Tables, LinkRequest, Session, Status, claim, claimed, create, failed, find_token, pending,
  update_link,
}

abbrev pub weight : Status → ℕ
weight pending = 0
weight claimed = 1
weight failed = 0

abbrev pub claimed_count : List LinkRequest → ℕ
claimed_count [] = 0
claimed_count (l ∷ ls) = weight l.status + claimed_count ls

abbrev pub HasSession : ℕ → List Session → Type 0
HasSession t [] = ⊥
HasSession t (s ∷ ss) = (s.id ≡ t) ⊎ HasSession t ss

-- A claimed request names a session that is there, and no other request names one.
abbrev pub Named : List Session → Status → Option ℕ → Type 0
Named ss claimed target = (t : ℕ) × (target ≡ some t) × HasSession t ss
Named ss pending target = target ≡ none
Named ss failed target = target ≡ none

abbrev pub Distinct : List LinkRequest → Type 0
Distinct [] = Unit
Distinct (l ∷ ls) = All (λ m. m.id ≢ l.id) ls × Distinct ls

pub record IsFair (before : ℕ) (db : Tables) : Type 0 where
  pub keys : Distinct db.links
  pub balance : length db.sessions ≡ before + claimed_count db.links
  pub named : All (λ l. Named db.sessions l.status l.target_session_id) db.links

-- One call of the service. A new request has an id of its own.
pub data Call : Tables → Tables → Type 0 where
  creates :
      {db : Tables} (get_session : ℕ → AppResult Bool) (id : ℕ) (token mode : List ℕ)
      (source : Option ℕ) (now : ℕ)
      → All (λ m. m.id ≢ id) db.links
      → Call db (create get_session id token mode source now db).1
  claims :
      {db : Tables} (get_valid_session : ℕ → AppResult Session) (new_id : ℕ) (token : List ℕ)
      (caller : Option ℕ) (now : ℕ)
      → Call db (claim get_valid_session new_id token caller now db).1

pub data Calls (db : Tables) : Tables → Type 0 where
  none_yet : Calls db db
  then_call : {t u : Tables} → Calls db t → Call t u → Calls db u

module _ (id : ℕ) (f : LinkRequest → LinkRequest) (same : (l : LinkRequest) → (f l).id ≡ l.id) where
  update_link-absent : (ls : List LinkRequest) → All (λ m. m.id ≢ id) ls → update_link id f ls ≡ ls
  unfolding update_link
  update_link-absent [] h = refl
  update_link-absent (l ∷ ls) h = ground (arith, update_link-absent ls h.1)

  update_link-ids :
      (x : ℕ) (ls : List LinkRequest)
      → All (λ m. m.id ≢ x) ls
      → All (λ m. m.id ≢ x) (update_link id f ls)
  unfolding update_link
  update_link-ids x [] h = tt
  update_link-ids x (l ∷ ls) h = ((λ e. ground (arith, same l)), update_link-ids x ls h.1)

  pub update_link-Distinct : (ls : List LinkRequest) → Distinct ls → Distinct (update_link id f ls)
  unfolding update_link
  update_link-Distinct [] h = tt
  update_link-Distinct (l ∷ ls) h =
      let e : l.id ≡ (if l.id == id then f l else l).id = ground (arith, same l) in
      (
        subst (λ x. All (λ m. m.id ≢ x) (update_link id f ls)) e (update_link-ids l.id ls h.0),
        update_link-Distinct ls h.1,
      )

pub find_token-All :
    (P : LinkRequest → Type 0) (token : List ℕ) (ls : List LinkRequest) (l : LinkRequest)
    → All P ls
    → find_token token ls ≡ some l
    → P l
unfolding find_token
find_token-All P token [] l h e = cc
find_token-All P token (m ∷ ls) l h e = elim (Bool-cases (text_eq m.claim_token token)) [
  | inl here ↦ subst P (some-injective _ _ (sym (if-true _ _ _ here) ∙ e)) h.0
  | inr later ↦ find_token-All P token ls l h.1 (sym (if-false _ _ _ later) ∙ e)
]

-- The update of the row that a token finds, and of no other.
module _ (f : LinkRequest → LinkRequest) (same : (l : LinkRequest) → (f l).id ≡ l.id)
    (token : List ℕ) (l : LinkRequest) where
  pub data Found : List LinkRequest → Type 0 where
    at_head : (ls : List LinkRequest) → All (λ m. m.id ≢ l.id) ls → Found (l ∷ ls)
    behind : (m : LinkRequest) (ls : List LinkRequest) → m.id ≢ l.id → Found ls → Found (m ∷ ls)

  pub find_token-Found :
      (ls : List LinkRequest) → Distinct ls → find_token token ls ≡ some l → Found ls
  unfolding find_token
  find_token-Found [] d e = cc
  find_token-Found (m ∷ ls) d e = elim (Bool-cases (text_eq m.claim_token token)) [
    | inl here ↦
        let eq : m ≡ l = some-injective _ _ (sym (if-true _ _ _ here) ∙ e) in
        subst (λ k. Found (k ∷ ls)) (sym eq)
          (at_head ls (subst (λ k. All (λ m. m.id ≢ k.id) ls) eq d.0))
    | inr later ↦
        let e' : find_token token ls ≡ some l = sym (if-false _ _ _ later) ∙ e in
        behind m ls (λ z. find_token-All (λ k. k.id ≢ m.id) token ls l d.0 e' (sym z))
          (find_token-Found ls d.1 e')
  ]

  pub update_link-count :
      {ls : List LinkRequest}
      → Found ls
      → claimed_count (update_link l.id f ls) + weight l.status
        ≡ claimed_count ls + weight (f l).status
  unfolding update_link
  update_link-count (at_head ls h) = omega (
    arith,
    ap (λ k. weight k.status) (if-true (l.id == l.id) (f l) l (ground arith)),
    ap claimed_count (update_link-absent l.id f same ls h),
  )
  update_link-count (behind m ls ne h) = omega (
    arith,
    ap (λ k. weight k.status) (if-false (m.id == l.id) (f m) m (ground arith)),
    update_link-count h,
  )

  pub update_link-All :
      (P : LinkRequest → Type 0) {ls : List LinkRequest}
      → Found ls
      → P (f l)
      → All P ls
      → All P (update_link l.id f ls)
  unfolding update_link
  update_link-All P (at_head ls h) p a = (
    if-cases P (l.id == l.id) (f l) l (λ _. p) (λ _. a.0),
    subst (All P) (sym (update_link-absent l.id f same ls h)) a.1,
  )
  update_link-All P (behind m ls ne h) p a = (
    if-cases P (m.id == l.id) (f m) m (λ e. absurd (ne (ground arith))) (λ _. a.0),
    update_link-All P h p a.1,
  )
