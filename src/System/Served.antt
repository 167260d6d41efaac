-- ===== src/System/Served.antt =====
-- Every request that the API serves is a history of statements.
use text.Mathlib.TextEquality.{eq_iff}
use bicycle.Prelude.{
  ℕ, ◌≡◌, refl, sym, subst, inl, inr, true, false, List, String, str_eq, Result, Bool-cases,
}
use bicycle.Db.Schema.{Database}
use bicycle.Db.External.History.{Reach}
use bicycle.Api.Types.{HttpRequest}
use bicycle.Api.Middleware.{Handler, check_token, recover_middleware, auth_middleware, post, get}
use bicycle.Api.Context.{Blockchain, Library, ApiConfig}
use bicycle.Api.Postgres.{Store, postgres}
use bicycle.Api.Addresses.{get_new_address, get_addresses}
use bicycle.Api.Withdrawals.{
  send_withdrawal, service_ton_withdrawal, service_jetton_withdrawal, get_withdrawal_status,
  get_sync,
}
use bicycle.Api.Incomes.{
  get_income, get_income_history, get_income_by_tx, get_balance, get_resolve, get_metrics,
}
use bicycle.Api.Routes.{routes, serve}
use bicycle.Api.Routes.Guards.{handler_of-holds, only_post_writes, ◌also◌}
use bicycle.System.Api.{
  Reached, send_withdrawal-Reached, service_ton_withdrawal-Reached,
  service_jetton_withdrawal-Reached, get_new_address-Reached,
}

get-on-post : (method : String) → str_eq method "POST" ≡ true → str_eq method "GET" ≡ false
get-on-post method e = subst (λ m. str_eq m "GET" ≡ false) (sym ((eq_iff _ _).0 e)) refl

module _ (token : String) (req : HttpRequest) (s : Store) (reach : Reach s.0) where
  -- A handler of POST behind the token.
  posted-Reached :
      (next : Handler Store)
      → Reached (next req s)
      → Reached (recover_middleware (auth_middleware token (post next)) req s)
  unfolding recover_middleware auth_middleware post
  posted-Reached next h = elim (Bool-cases (check_token req token)) [
    | inl t ↦ elim (Bool-cases (str_eq req.method "POST")) [
      | inl p ↦ rw (t, p) h
      | inr p ↦ rw (t, p) reach
    ]
    | inr t ↦ rw t reach
  ]

  module _ (is_post : str_eq req.method "POST" ≡ true) where
    -- The other handlers refuse the method.
    shown-Reached : (next : Handler Store) → Reached (recover_middleware (get next) req s)
    unfolding recover_middleware get
    shown-Reached next = rw (get-on-post req.method is_post) reach

    reported-Reached :
        (next : Handler Store)
        → Reached (recover_middleware (auth_middleware token (get next)) req s)
    unfolding recover_middleware auth_middleware get
    reported-Reached next = elim (Bool-cases (check_token req token)) [
      | inl t ↦ rw (t, get-on-post req.method is_post) reach
      | inr t ↦ rw t reach
    ]

-- Whatever request the API serves, a database that a history of statements reaches stays one.
pub serve-Reach :
    (lib : Library) (config : ApiConfig) (default_subwallet : ℕ) (new_memo : Database → ℕ) (now : ℕ)
    (bc : Blockchain) (metrics : List (Result String)) (req : HttpRequest) (s : Store)
    → Reach s.0
    → Reach (serve lib config (postgres default_subwallet new_memo now) bc metrics req s).0.0
unfolding serve routes
serve-Reach lib config sub memo now bc metrics req s reach =
    elim (Bool-cases (str_eq req.method "POST")) [
      | inr other ↦
          subst (λ (x : Store). Reach x.0)
            (sym (only_post_writes lib config (postgres sub memo now) bc metrics req s other)) reach
      | inl is_post ↦
          handler_of-holds (λ f. Reached (f req s)) req.path
            (routes lib config (postgres sub memo now) bc metrics)
            ((λ _.
                posted (get_new_address lib config (postgres sub memo now) bc)
                  (get_new_address-Reached lib config sub memo now bc req s reach))
              also (λ _. reported is_post (get_addresses lib config (postgres sub memo now) bc))
              also (λ _.
                  posted (send_withdrawal lib config (postgres sub memo now))
                    (send_withdrawal-Reached lib config sub memo now bc req s reach))
              also (λ _.
                  posted (service_ton_withdrawal lib config (postgres sub memo now))
                    (service_ton_withdrawal-Reached lib config sub memo now bc req s reach))
              also (λ _.
                  posted (service_jetton_withdrawal lib config (postgres sub memo now))
                    (service_jetton_withdrawal-Reached lib config sub memo now bc req s reach))
              also (λ _.
                  reported is_post (get_withdrawal_status lib config (postgres sub memo now)))
              also (λ _.
                  shown-Reached config.api_token req s reach is_post
                    (get_sync lib config (postgres sub memo now)))
              also (λ _. reported is_post (get_income lib config (postgres sub memo now)))
              also (λ _. reported is_post (get_income_history lib config (postgres sub memo now)))
              also (λ _. reported is_post (get_income_by_tx lib config (postgres sub memo now)))
              also (λ _. reported is_post (get_balance lib config (postgres sub memo now) bc))
              also (λ _. reported is_post (get_resolve lib config (postgres sub memo now) bc))
              also (λ _. shown-Reached config.api_token req s reach is_post (get_metrics metrics))
              also tt)
            reach
    ]
  where
    posted :
        (next : Handler Store)
        → Reached (next req s)
        → Reached (recover_middleware (auth_middleware config.api_token (post next)) req s)
    posted = posted-Reached config.api_token req s reach

    reported :
        str_eq req.method "POST" ≡ true
        → (next : Handler Store)
        → Reached (recover_middleware (auth_middleware config.api_token (get next)) req s)
    reported = reported-Reached config.api_token req s reach
