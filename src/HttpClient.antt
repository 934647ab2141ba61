-- ===== src/HttpClient.antt =====
-- What the services use of `httpx`: the answer to a request is a parameter of each of them, and its
-- JSON body is read as a record of the fields that the code looks up.
use Prim.Native.Char.{code}
use seans.Prelude.{
  ℕ, String, Bool, Option, none, List, ◌&&◌, chars, text_of, rstrip_chars, leb, ◌==◌, if◌then◌else◌,
}

pub data Reply {ℓ} (A : Type ℓ) : Type ℓ where
  -- `httpx.HTTPError`: no connection, a time-out, and the like.
  failed : Reply A
  -- A status, and the body as JSON, unless it is none.
  replied : ℕ → Option A → Reply A

pub record Request : Type 0 where
  pub url : String
  pub headers : List (String × String)
  pub params : List (String × String)

-- `resp.is_success`: `resp.raise_for_status()` raises `httpx.HTTPError` if it is false.
abbrev pub is_success : ℕ → Bool
is_success status_code = leb 200 status_code && leb status_code 299

-- `client.get`, `resp.raise_for_status()` and `resp.json()`, one after the other: the body, or `none`
-- if one of them raises.
unfoldable pub received {ℓ} : {A : Type ℓ} → Reply A → Option A
received failed = none
received (replied status_code data_) = if is_success status_code then data_ else none

-- `url.rstrip("/")`
unfoldable pub rstrip_slash : String → String
rstrip_slash url = text_of (rstrip_chars (λ c. code c == b'/') (chars url))
