-- ===== src/Api/Routes.antt =====
-- api/handlers.go: `RegisterHandlers`, the paths of the service with what stands before each handler.
pub mod Guards
use bicycle.Prelude.{
  Bool, true, false, List, [], ◌∷◌, String, str_eq, if◌then◌else◌, Result, ok, Error,
}
use bicycle.Api.Types.{Response, no_body, HttpRequest}
use bicycle.Api.Middleware.{Handler, recover_middleware, auth_middleware, get, post, respond}
use bicycle.Api.Context.{Storage, Blockchain, Library, ApiConfig}
use bicycle.Api.Addresses.{get_new_address, get_addresses}
use bicycle.Api.Withdrawals.{
  send_withdrawal, get_sync, get_withdrawal_status, service_ton_withdrawal,
  service_jetton_withdrawal,
}
use bicycle.Api.Incomes.{
  get_income, get_income_history, get_income_by_tx, get_balance, get_resolve, get_metrics,
}

-- The answer of `http.ServeMux` to a path that is not registered.
abbrev pub page_not_found : {S : Type 0} → Handler S
page_not_found req s = (s, ok (respond 404 no_body))

-- The handler that is registered for a path.
abbrev pub handler_of : {S : Type 0} → String → List (String × Handler S) → Handler S
handler_of path [] = page_not_found
handler_of path ((k, h) ∷ rs) = let rest = handler_of path rs in if str_eq path k then h else rest

module _ (lib : Library) (config : ApiConfig) {S : Type 0} (storage : Storage S) (bc : Blockchain)
    (metrics : List (Result String)) where
  abbrev authorized : Handler S → Handler S
  authorized next = recover_middleware (auth_middleware config.api_token next)

  -- `RegisterHandlers`
  unfoldable pub routes : List (String × Handler S)
  unfolding recover_middleware auth_middleware get post
  routes =
      ("/v1/address/new", authorized (post (get_new_address lib config storage bc)))
      ∷ ("/v1/address/all", authorized (get (get_addresses lib config storage bc)))
      ∷ ("/v1/withdrawal/send", authorized (post (send_withdrawal lib config storage)))
      ∷ (
        "/v1/withdrawal/service/ton",
        authorized (post (service_ton_withdrawal lib config storage)),
      )
      ∷ (
        "/v1/withdrawal/service/jetton",
        authorized (post (service_jetton_withdrawal lib config storage)),
      )
      ∷ ("/v1/withdrawal/status", authorized (get (get_withdrawal_status lib config storage)))
      ∷ ("/v1/system/sync", recover_middleware (get (get_sync lib config storage)))
      ∷ ("/v1/income", authorized (get (get_income lib config storage)))
      ∷ ("/v1/deposit/history", authorized (get (get_income_history lib config storage)))
      ∷ ("/v1/deposit/income", authorized (get (get_income_by_tx lib config storage)))
      ∷ ("/v1/balance", authorized (get (get_balance lib config storage bc)))
      ∷ ("/v1/resolve", authorized (get (get_resolve lib config storage bc)))
      ∷ ("/metrics", recover_middleware (get (get_metrics metrics)))
      ∷ []

  -- The answer of the multiplexer of net/http, for paths without a slash at their end.
  unfoldable pub serve : Handler S
  unfolding routes
  serve req s = handler_of req.path routes req s
