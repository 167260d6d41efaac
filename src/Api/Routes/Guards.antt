-- ===== src/Api/Routes/Guards.antt =====
-- What stands before the handlers keeps requests without the token and with another method from the state.
use bicycle.Prelude.{
  ◌≡◌, refl, ◌⊎◌, inl, inr, true, false, List, String, str_eq, [], ◌∷◌, All, Result, ok, Bool-cases,
}
use bicycle.Api.Types.{Response, HttpRequest, no_body}
use bicycle.Api.Middleware.{
  Handler, respond, check_token, recover_middleware, auth_middleware, get, post, write_http_error,
}
use bicycle.Api.Attempt.{report-keeps}
use bicycle.Api.Context.{Storage, Blockchain, Library, ApiConfig}
use bicycle.Api.Addresses.{get_new_address, get_addresses}
use bicycle.Api.Withdrawals.{
  send_withdrawal, service_ton_withdrawal, service_jetton_withdrawal, get_sync,
  get_withdrawal_status,
}
use bicycle.Api.Incomes.{
  get_income, get_income_history, get_income_by_tx, get_balance, get_resolve, get_metrics,
}
use bicycle.Api.Routes.{handler_of, page_not_found, routes, serve}

infixr 5 ◌also◌
abbrev pub ◌also◌ {ℓ κ} : {A : Type ℓ} {B : Type κ} → A → B → A × B
a also b = (a, b)

module _ {ℓ} {S : Type 0} (P : Handler S → Type ℓ) (path : String) where
  -- A property of every handler that is registered for the path is one of the handler that answers.
  pub handler_of-holds :
      (rs : List (String × Handler S))
      → All (λ x. str_eq path x.0 ≡ true → P x.1) rs
      → P page_not_found
      → P (handler_of path rs)
  handler_of-holds [] h d = d
  handler_of-holds ((k, f) ∷ rs) (now, later) d = elim (Bool-cases (str_eq path k)) [
    | inl e ↦ rw e (now e)
    | inr e ↦ rw e (handler_of-holds rs later d)
  ]

module _ {S : Type 0} where
  -- The answers to a request without the token.
  abbrev pub IsTurnedAway : S → S × Result Response → Type 0
  IsTurnedAway s r = (r ≡ (s, ok (respond 401 no_body))) ⊎ (r ≡ (s, ok (respond 404 no_body)))

  auth_middleware-refuses :
      (token : String) (next : Handler S) (req : HttpRequest) (s : S)
      → check_token req token ≡ false
      → recover_middleware (auth_middleware token next) req s ≡ (s, ok (respond 401 no_body))
  unfolding recover_middleware auth_middleware
  auth_middleware-refuses token next req s h = rw h refl

  get-refuses :
      (next : Handler S) (req : HttpRequest) (s : S)
      → str_eq req.method "GET" ≡ false
      → get next req s ≡ (s, ok (write_http_error 400 "only GET method is supported"))
  unfolding get
  get-refuses next req s h = rw h refl

-- The handlers that only report.
module _ (lib : Library) (config : ApiConfig) {S : Type 0} (storage : Storage S) (bc : Blockchain)
    (req : HttpRequest) (s : S) where
  pub get_addresses-keeps : (get_addresses lib config storage bc req s).0 ≡ s
  unfolding get_addresses
  get_addresses-keeps = report-keeps s _

  pub get_withdrawal_status-keeps : (get_withdrawal_status lib config storage req s).0 ≡ s
  unfolding get_withdrawal_status
  get_withdrawal_status-keeps = report-keeps s _

  pub get_sync-keeps : (get_sync lib config storage req s).0 ≡ s
  unfolding get_sync
  get_sync-keeps = report-keeps s _

  pub get_income-keeps : (get_income lib config storage req s).0 ≡ s
  unfolding get_income
  get_income-keeps = report-keeps s _

  pub get_income_history-keeps : (get_income_history lib config storage req s).0 ≡ s
  unfolding get_income_history
  get_income_history-keeps = report-keeps s _

  pub get_income_by_tx-keeps : (get_income_by_tx lib config storage req s).0 ≡ s
  unfolding get_income_by_tx
  get_income_by_tx-keeps = report-keeps s _

  pub get_balance-keeps : (get_balance lib config storage bc req s).0 ≡ s
  unfolding get_balance
  get_balance-keeps = report-keeps s _

  pub get_resolve-keeps : (get_resolve lib config storage bc req s).0 ≡ s
  unfolding get_resolve
  get_resolve-keeps = report-keeps s _

pub get_metrics-keeps :
    {S : Type 0} (metrics : List (Result String)) (req : HttpRequest) (s : S)
    → (get_metrics metrics req s).0 ≡ s
unfolding get_metrics
get_metrics-keeps metrics req s = report-keeps s _

-- A request without the API token, to any path but those of the synchronisation state and the metrics, is
-- answered with 401, or with 404 where the path is not registered, and leaves the state as it was.
pub unauthorized_refused :
    (lib : Library) (config : ApiConfig) {S : Type 0} (storage : Storage S) (bc : Blockchain)
    (metrics : List (Result String)) (req : HttpRequest) (s : S)
    → check_token req config.api_token ≡ false
    → str_eq req.path "/v1/system/sync" ≡ false
    → str_eq req.path "/metrics" ≡ false
    → IsTurnedAway s (serve lib config storage bc metrics req s)
unfolding serve routes
unauthorized_refused lib config {S} storage bc metrics req s h sync metric =
    handler_of-holds (λ f. IsTurnedAway s (f req s)) req.path (routes lib config storage bc metrics)
      ((λ _. refused (post (get_new_address lib config storage bc)))
        also (λ _. refused (get (get_addresses lib config storage bc)))
        also (λ _. refused (post (send_withdrawal lib config storage)))
        also (λ _. refused (post (service_ton_withdrawal lib config storage)))
        also (λ _. refused (post (service_jetton_withdrawal lib config storage)))
        also (λ _. refused (get (get_withdrawal_status lib config storage)))
        also (λ e. cc)
        also (λ _. refused (get (get_income lib config storage)))
        also (λ _. refused (get (get_income_history lib config storage)))
        also (λ _. refused (get (get_income_by_tx lib config storage)))
        also (λ _. refused (get (get_balance lib config storage bc)))
        also (λ _. refused (get (get_resolve lib config storage bc)))
        also (λ e. cc)
        also tt)
      (inr refl)
  where
    refused :
        (next : Handler S)
        → IsTurnedAway s (recover_middleware (auth_middleware config.api_token next) req s)
    refused next = inl (auth_middleware-refuses config.api_token next req s h)

-- A request of another method than POST leaves the state as it was, whatever its path is and whoever sends it.
pub only_post_writes :
    (lib : Library) (config : ApiConfig) {S : Type 0} (storage : Storage S) (bc : Blockchain)
    (metrics : List (Result String)) (req : HttpRequest) (s : S)
    → str_eq req.method "POST" ≡ false
    → (serve lib config storage bc metrics req s).0 ≡ s
unfolding serve routes
only_post_writes lib config {S} storage bc metrics req s h =
    handler_of-holds Keeps req.path (routes lib config storage bc metrics)
      ((λ _. posted (get_new_address lib config storage bc))
        also (λ _.
            reported (get_addresses lib config storage bc)
              (get_addresses-keeps lib config storage bc req s))
        also (λ _. posted (send_withdrawal lib config storage))
        also (λ _. posted (service_ton_withdrawal lib config storage))
        also (λ _. posted (service_jetton_withdrawal lib config storage))
        also (λ _.
            reported (get_withdrawal_status lib config storage)
              (get_withdrawal_status-keeps lib config storage bc req s))
        also (λ _. shown (get_sync lib config storage) (get_sync-keeps lib config storage bc req s))
        also (λ _.
            reported (get_income lib config storage) (get_income-keeps lib config storage bc req s))
        also (λ _.
            reported (get_income_history lib config storage)
              (get_income_history-keeps lib config storage bc req s))
        also (λ _.
            reported (get_income_by_tx lib config storage)
              (get_income_by_tx-keeps lib config storage bc req s))
        also (λ _.
            reported (get_balance lib config storage bc)
              (get_balance-keeps lib config storage bc req s))
        also (λ _.
            reported (get_resolve lib config storage bc)
              (get_resolve-keeps lib config storage bc req s))
        also (λ _. shown (get_metrics metrics) (get_metrics-keeps metrics req s))
        also tt)
      refl
  where
    Keeps : Handler S → Type 0
    Keeps f = (f req s).0 ≡ s

    shown : (next : Handler S) → Keeps next → Keeps (recover_middleware (get next))
    shown next k =
        unfold recover_middleware get in
        elim (Bool-cases (str_eq req.method "GET")) [ inl e ↦ rw e k | inr e ↦ rw e refl ]

    reported :
        (next : Handler S)
        → Keeps next
        → Keeps (recover_middleware (auth_middleware config.api_token (get next)))
    reported next k =
        unfold recover_middleware auth_middleware get in
        elim (Bool-cases (check_token req config.api_token)) [
          | inl t ↦ elim (Bool-cases (str_eq req.method "GET")) [
            | inl e ↦ rw (t, e) k
            | inr e ↦ rw (t, e) refl
          ]
          | inr t ↦ rw t refl
        ]

    posted :
        (next : Handler S)
        → Keeps (recover_middleware (auth_middleware config.api_token (post next)))
    posted next =
        unfold recover_middleware auth_middleware post in
        elim (Bool-cases (check_token req config.api_token)) [
          | inl t ↦ rw (t, h) refl
          | inr t ↦ rw t refl
        ]
