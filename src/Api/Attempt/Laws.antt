-- ===== src/Api/Attempt/Laws.antt =====
-- What holds of an answer is shown step by step along the handler.
use bicycle.Prelude.{ℕ, ◌≡◌, refl, Bool, true, false, String, Result, ok, err, Error}
use bicycle.Api.Types.{Response}
use bicycle.Api.Middleware.{write_http_error, write_http_error_of}
use bicycle.Api.Attempt.{Attempt, ◌>>=◌, or_stop, must, require, answer}

module _ {ℓ κ} {S : Type 0} {A : Type ℓ} (P : S × Result Response → Type κ) (s : S) where
  pub answer-or_stop :
      (status : ℕ) (text : String) (m : Result A) (rest : A → Attempt (S × Response))
      → ((e : Error) → m ≡ err e → P (s, ok (write_http_error_of status text e)))
      → ((a : A) → m ≡ ok a → P (answer s (rest a)))
      → P (answer s (or_stop status text m >>= rest))
  answer-or_stop status text (ok a) rest bad good = good a refl
  answer-or_stop status text (err e) rest bad good = bad e refl

  pub answer-must :
      (m : Result A) (rest : A → Attempt (S × Response))
      → ((e : Error) → m ≡ err e → P (s, err e))
      → ((a : A) → m ≡ ok a → P (answer s (rest a)))
      → P (answer s (must m >>= rest))
  answer-must (ok a) rest bad good = good a refl
  answer-must (err e) rest bad good = bad e refl

module _ {κ} {S : Type 0} (P : S × Result Response → Type κ) (s : S) where
  pub answer-require :
      (b : Bool) (status : ℕ) (text : String) (rest : Unit {0} → Attempt (S × Response))
      → (b ≡ false → P (s, ok (write_http_error status text)))
      → (b ≡ true → P (answer s (rest tt)))
      → P (answer s (require b status text >>= rest))
  answer-require true status text rest bad good = good refl
  answer-require false status text rest bad good = bad refl
