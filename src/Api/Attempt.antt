-- ===== src/Api/Attempt.antt =====
-- A handler of api/handlers.go that may answer early, before it has changed the state.
pub mod Laws
use bicycle.Prelude.{
  ◌≡◌, refl, ℕ, Bool, true, false, Option, none, some, String, Result, ok, err, Error,
}
use bicycle.Api.Types.{Body, Response}
use bicycle.Api.Middleware.{respond, write_http_error, write_http_error_of}

pub data Attempt {ℓ} (A : Type ℓ) : Type ℓ where
  -- `writeHttpError` and `return`
  stop : Response → Attempt A
  -- a panic, or the end of the process
  panic : Error → Attempt A
  go : A → Attempt A

module _ {ℓ κ} {X : Type ℓ} {Y : Type κ} where
  infixl 5 ◌>>=◌
  abbrev pub ◌>>=◌ : Attempt X → (X → Attempt Y) → Attempt Y
  stop r >>= rest = stop r
  panic e >>= rest = panic e
  go x >>= rest = rest x

-- `if err != nil { writeHttpError(resp, status, text + err); return }`
abbrev pub or_stop {ℓ} : {A : Type ℓ} → ℕ → String → Result A → Attempt A
or_stop status text (ok a) = go a
or_stop status text (err e) = stop (write_http_error_of status text e)

-- A call that panics on an error.
abbrev pub must {ℓ} : {A : Type ℓ} → Result A → Attempt A
must (ok a) = go a
must (err e) = panic e

-- `if !b { writeHttpError(resp, status, text); return }`
abbrev pub require : Bool → ℕ → String → Attempt (Unit {0})
require true status text = go tt
require false status text = stop (write_http_error status text)

module _ {S : Type 0} where
  -- The state and the response at the end.
  abbrev pub answer : S → Attempt (S × Response) → S × Result Response
  answer s (stop r) = (s, ok r)
  answer s (panic e) = (s, err e)
  answer s (go (s', r)) = (s', ok r)

  -- The response to a call that changes the state.
  abbrev pub respond_saved {ℓ} :
      {A : Type ℓ} → String → (A → Body) → S × Result A → Attempt (S × Response)
  respond_saved text body (s', ok a) = go (s', respond 200 (body a))
  respond_saved text body (s', err e) = go (s', write_http_error_of 500 text e)

  -- The response of a handler that only reads.
  unfoldable pub report : S → Attempt Body → S × Result Response
  report s (stop r) = (s, ok r)
  report s (panic e) = (s, err e)
  report s (go body) = (s, ok (respond 200 body))

  pub report-keeps : (s : S) (m : Attempt Body) → (report s m).0 ≡ s
  unfolding report
  report-keeps s (stop r) = refl
  report-keeps s (panic e) = refl
  report-keeps s (go body) = refl
