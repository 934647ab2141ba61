-- ===== src/Http.antt =====
-- What a request handler does: it runs on the database and returns a response body, or raises the
-- `HTTPException` that FastAPI turns into an error response. What was committed before the raise
-- stays, what was not is rolled back; so a handler writes the state once for each of its commits.
use seans.Prelude.{ℕ, String, Bool, true, false, Option, none, some}

pub record HttpException : Type 0 where
  pub status_code : ℕ
  pub detail : String

-- `HTTPException(status_code=…, detail=…)`
abbrev pub http : ℕ → String → HttpException
http status_code detail = record { status_code = status_code; detail = detail }

-- An exception that no handler catches, such as SQLAlchemy's `IntegrityError`.
abbrev pub internal_server_error : HttpException
internal_server_error = http 500 "Internal Server Error"

pub data Result {ℓ} (A : Type ℓ) : Type ℓ where
  ok : A → Result A
  raise : HttpException → Result A

-- A handler over the state `S`.
abbrev pub Action {ℓ κ} : Type ℓ → Type κ → Type (ℓ ⊔ κ)
Action S A = S → Result A × S

module _ {ℓ κ} {S : Type ℓ} {A : Type κ} where
  abbrev pub pure : A → Action S A
  pure a s = (ok a, s)

  abbrev pub fail : HttpException → Action S A
  fail e s = (raise e, s)

  -- The row that a query found, or the exception.
  abbrev pub or_raise : Option A → HttpException → Action S A
  or_raise none e s = (raise e, s)
  or_raise (some a) e s = (ok a, s)

  abbrev pub gets : (S → A) → Action S A
  gets f s = (ok (f s), s)

module _ {ℓ} {S : Type ℓ} where
  -- `if test: raise HTTPException(…)`
  abbrev pub raise_if : Bool → HttpException → Action S (Unit {0})
  raise_if true e s = (raise e, s)
  raise_if false e s = (ok tt, s)

  -- The writes of one transaction, and its `db.commit()`.
  abbrev pub commit : (S → S) → Action S (Unit {0})
  commit f s = (ok tt, f s)

-- The rest of a handler, after a step that returned or raised.
abbrev pub resume {ℓ κ μ} :
    {S : Type ℓ} {A : Type κ} {B : Type μ} → (A → Action S B) → Result A × S → Result B × S
resume f (ok a, s) = f a s
resume f (raise e, s) = (raise e, s)

infixl 5 ◌>>=◌ ◌>>◌
abbrev pub ◌>>=◌ {ℓ κ μ} :
    {S : Type ℓ} {A : Type κ} {B : Type μ} → Action S A → (A → Action S B) → Action S B
◌>>=◌ m f s = resume f (m s)

abbrev pub ◌>>◌ {ℓ κ} : {S : Type ℓ} {B : Type κ} → Action S (Unit {0}) → Action S B → Action S B
m >> k = m >>= λ _. k
