-- ===== src/Errors.antt =====
-- The errors of the backend, backend/src/error.rs. The errors that wrap those of a library are known by
-- their texts.
use sc_desktop_beautiful.Prelude.{List, refl, ℕ, ◌≡◌}

pub data AppError : Type 0 where
  bad_request : List ℕ → AppError
  unauthorized : List ℕ → AppError
  not_found : List ℕ → AppError
  sc_api : ℕ → List ℕ → AppError
  sc_unreachable : List ℕ → AppError
  db : List ℕ → AppError
  redis : List ℕ → AppError
  redis_pool : List ℕ → AppError
  http : List ℕ → AppError
  internal : List ℕ → AppError

-- `AppResult<A>`
pub data AppResult (A : Type 0) : Type 0 where
  good : A → AppResult A
  err : AppError → AppResult A

-- The `?` operator.
infixl 5 ◌>>=◌
abbrev pub ◌>>=◌ : {A B : Type 0} → AppResult A → (A → AppResult B) → AppResult B
good a >>= f = f a
err e >>= f = err e

pub good-injective : {A : Type 0} {a b : A} → good a ≡ good b → a ≡ b
good-injective e = cc

-- What a chain that succeeds went through.
pub >>=-eq-good :
    {A B : Type 0} (m : AppResult A) (f : A → AppResult B) {b : B}
    → (m >>= f) ≡ good b
    → (a : A) × (m ≡ good a) × (f a ≡ good b)
>>=-eq-good (good a) f h = (a, refl, h)
>>=-eq-good (err e) f h = cc

pub err-injective : (A : Type 0) {e f : AppError} → ◌≡◌ {A = AppResult A} (err e) (err f) → e ≡ f
err-injective A z = cc
