-- ===== src/Prelude/Results.antt =====
-- Go's `(value, error)` results. An error ends the function that returns it; `log.Fatalf` and a
-- panic end the process, and are errors here that no caller can handle otherwise.
use Prim.Native.Nat.{ℕ}
use Prim.Native.String.{String}
use mathlib.Core.Path.{◌≡◌, refl}
use mathlib.Core.Logic.{◌⊎◌, inl, inr}
use mathlib.Core.Bool.{Bool, true, false}
use bicycle.Prelude.Tests.{if◌then◌else◌}
use mathlib.Core.Option.{Option, none, some}

pub data Error : Type 0 where
  -- returned by a called library or the network, with its own number
  external : ℕ → Error
  nil_address not_std_address invalid_address_len : Error
  nil_msg empty_payload nil_body : Error
  -- `panic` on a nil pointer, and `log.Fatalf`
  nil_dereference fatal : Error
  -- "anomalous behavior of ..."
  anomalous : Error
  not_valid_message invalid_withdrawal_address invalid_transfer no_internal_payload : Error
  no_owner no_user_id : Error
  -- database: a constraint, no rows, a memo that is no uuid, the two checks of the expiration
  unique_violation no_rows bad_memo not_found bad_scan : Error
  invalid_expiration invalid_event_order bad_status : Error
  -- the withdrawal processor
  invalid_service_address : Error
  -- `fmt.Errorf` of a text, and of a text that ends with the text of another error
  error_text : String → Error
  wrapped : String → Error → Error
  -- the network: a context that has ended, nothing found, an unexpected answer
  timeout_exceeded subwallet_not_found mismatch_head no_trusted_block : Error

-- An error, or a value.
pub data Result {ℓ} (A : Type ℓ) : Type ℓ where
  err : Error → Result A
  ok : A → Result A

-- `v, err := m; if err != nil { return err }`, and what goes on with `v`.
module _ {ℓ κ} {X : Type ℓ} {Y : Type κ} where
  infixl 5 ◌>>=◌
  abbrev pub ◌>>=◌ : Result X → (X → Result Y) → Result Y
  err e >>= rest = err e
  ok v >>= rest = rest v

  -- The value with which a chain that succeeds went on.
  pub >>=-eq-ok :
      (m : Result X) (rest : X → Result Y) {y : Y}
      → (m >>= rest) ≡ ok y
      → (v : X) × (m ≡ ok v) × (rest v ≡ ok y)
  >>=-eq-ok (err e) rest h = cc
  >>=-eq-ok (ok v) rest h = (v, refl, h)

-- A value that is not there is an error.
abbrev pub or_error {ℓ} : {A : Type ℓ} → Option A → Error → Result A
or_error (some a) e = ok a
or_error none e = err e

pub Result-cases {ℓ} :
    {A : Type ℓ} (m : Result A) → ((a : A) × (m ≡ ok a)) ⊎ ((e : Error) × (m ≡ err e))
Result-cases (ok a) = inl (a, refl)
Result-cases (err e) = inr (e, refl)

pub ok-injective {ℓ} : {A : Type ℓ} {a b : A} → ok a ≡ ok b → a ≡ b
ok-injective h = cc

-- `if b { return err }`, and what goes on.
pub if_err-eq-ok {ℓ} :
    {A : Type ℓ} (b : Bool) (x : Error) (rest : Result A) {a : A}
    → (if b then err x else rest) ≡ ok a
    → (b ≡ false) × (rest ≡ ok a)
if_err-eq-ok true x rest h = cc
if_err-eq-ok false x rest h = (refl, h)
