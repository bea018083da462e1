-- ===== src/Prelude/Outcome.antt =====
-- What a piece of Rust code does when it runs: it returns, or it panics (an index or a slice out of
-- range, a subtraction below 0, a `clamp` with its bounds crossed).
use sc_desktop_beautiful.Prelude.Tests.{ltb, leb, if◌then◌else◌}
use sc_desktop_beautiful.Prelude.Lists.{
  length, get_elem?, take, drop, get_elem?_total, length-take, length-drop,
}
use Prim.Native.Nat.{ℕ, ◌-◌, ◌≤◌, ◌<◌}
use mathlib.Core.Path.{◌≡◌, refl, subst}
use mathlib.Core.Bool.{Bool, true, false}
use mathlib.Core.List.{List}
use mathlib.Core.Option.{none, some}
use native.Mathlib.Omega.{arith}

pub data Outcome (A : Type 0) : Type 0 where
  ok : A → Outcome A
  panic : Outcome A

-- `Result<A, BoxErr>`: the error is known by its text.
pub data Reply (A : Type 0) : Type 0 where
  got : A → Reply A
  fault : List ℕ → Reply A

infixl 5 ◌>>=◌
abbrev pub ◌>>=◌ : {A B : Type 0} → Outcome A → (A → Outcome B) → Outcome B
ok a >>= f = f a
panic >>= f = panic

-- `xs[i]`
unfoldable pub index : {A : Type 0} → List A → ℕ → Outcome A
index xs i = elim (get_elem? xs i) [ none ↦ panic | some a ↦ ok a ]

-- `&xs[from..to]`
unfoldable pub slice : {A : Type 0} → List A → ℕ → ℕ → Outcome (List A)
slice xs from to =
    if leb from to
    then if leb to (length xs) then ok (take (to - from) (drop from xs)) else panic
    else panic

-- `a - b` on `usize`
unfoldable pub sub : ℕ → ℕ → Outcome ℕ
sub a b = if leb b a then ok (a - b) else panic

-- `x.clamp(lo, hi)`
unfoldable pub clamp : ℕ → ℕ → ℕ → Outcome ℕ
clamp x lo hi =
    if leb lo hi then ok (if ltb x lo then lo else if ltb hi x then hi else x) else panic

pub index_lem :
    {A : Type 0} (xs : List A) (i : ℕ)
    → i < length xs
    → (a : A) × (get_elem? xs i ≡ some a) × (index xs i ≡ ok a)
unfolding index
index_lem xs i h = let (a, e) = get_elem?_total xs i h in (a, e, rw (e, index) refl)

pub slice_lem :
    {A : Type 0} (xs : List A) (from to : ℕ)
    → from ≤ to
    → to ≤ length xs
    → slice xs from to ≡ ok (take (to - from) (drop from xs))
unfolding slice
slice_lem xs from to p q = ground arith

pub sub_lem : (a b : ℕ) → b ≤ a → sub a b ≡ ok (a - b)
unfolding sub
sub_lem a b h = ground arith

-- The code returns, and `P` holds of what it returns.
abbrev pub Returns : {A : Type 0} → (A → Type 0) → Outcome A → Type 0
Returns P (ok a) = P a
Returns P panic = ⊥

pub bind-Returns :
    {A B : Type 0} (P : A → Type 0) (Q : B → Type 0) (m : Outcome A) (f : A → Outcome B)
    → Returns P m
    → ((a : A) → m ≡ ok a → P a → Returns Q (f a))
    → Returns Q (m >>= f)
bind-Returns P Q (ok a) f h k = k a refl h
bind-Returns P Q panic f h k = absurd h

pub if-Returns :
    {A : Type 0} (Q : A → Type 0) (b : Bool) (m n : Outcome A)
    → (b ≡ true → Returns Q m)
    → (b ≡ false → Returns Q n)
    → Returns Q (if b then m else n)
if-Returns Q true m n p q = p refl
if-Returns Q false m n p q = q refl

pub Returns-mono :
    {A : Type 0} (P Q : A → Type 0) (m : Outcome A)
    → Returns P m
    → ((a : A) → m ≡ ok a → P a → Q a)
    → Returns Q m
Returns-mono P Q (ok a) h k = k a refl h
Returns-mono P Q panic h k = absurd h

-- The value that comes back, with its equation.
pub Returns-value :
    {A : Type 0} (P : A → Type 0) (m : Outcome A) → Returns P m → (a : A) × (m ≡ ok a) × P a
Returns-value P (ok a) h = (a, refl, h)
Returns-value P panic h = absurd h

pub Returns-of-ok :
    {A : Type 0} (P : A → Type 0) (m : Outcome A) {a : A} → m ≡ ok a → Returns P m → P a
Returns-of-ok P (ok b) e h = subst P (cc) h
Returns-of-ok P panic e h = absurd h

-- An index, a slice and a subtraction in range return.
pub index-Returns :
    {A : Type 0} (xs : List A) (i : ℕ)
    → i < length xs
    → Returns (λ a. get_elem? xs i ≡ some a) (index xs i)
unfolding index
index-Returns xs i h = let (a, e) = get_elem?_total xs i h in rw (e, index) refl

pub slice-Returns :
    {A : Type 0} (xs : List A) (from to : ℕ)
    → from ≤ to
    → to ≤ length xs
    → Returns
        (λ ys. (ys ≡ take (to - from) (drop from xs)) × (length ys ≡ to - from))
        (slice xs from to)
slice-Returns xs from to p q =
    rw (slice_lem xs from to p q)
      (refl, omega (arith, length-take (to - from) (drop from xs), length-drop from xs))

pub sub-Returns : (a b : ℕ) → b ≤ a → Returns (λ c. c ≡ a - b) (sub a b)
sub-Returns a b h = rw (sub_lem a b h) refl

pub clamp-Returns :
    (x lo hi : ℕ)
    → lo ≤ hi
    → Returns (λ c. (lo ≤ c) × (c ≤ hi) × (lo ≤ x → x ≤ hi → c ≡ x)) (clamp x lo hi)
unfolding clamp
clamp-Returns x lo hi h = ground arith
