-- ===== src/Api/Incomes.antt =====
-- api/handlers.go: the handlers that report incomes and balances.
use Prim.Native.String
use bicycle.Prelude.{
  Bool, true, false, not, ◌&&◌, List, [], ◌∷◌, some, String, str_eq, ◌==◌, if◌then◌else◌, length,
  Result, ok, err, not_found,
}
use bicycle.Prelude.Int.{ℤ}
use bicycle.Models.{Address, Coins, address_from_tonutils, to_tonutils_std, ton_symbol}
use bicycle.Api.Types.{
  income_body, history_body, income_by_tx_body, balance_body, address_body, metrics_body,
}
use bicycle.Api.Middleware.{Handler, write_http_error, write_http_error_of}
use bicycle.Api.Attempt.{Attempt, stop, go, ◌>>=◌, or_stop, must, require, report}
use bicycle.Api.Context.{Storage, Blockchain, Library, ApiConfig, master_of, is_valid_currency}
use bicycle.Api.Convert.{validate_address, convert_income, convert_history, convert_one_income}

-- The answer where the error `ErrNotFound` is told apart.
abbrev or_404 {ℓ} : {A : Type ℓ} → String → String → Result A → Attempt A
or_404 missing text (ok a) = go a
or_404 missing text (err not_found) = stop (write_http_error 404 missing)
or_404 missing text (err e) = stop (write_http_error_of 500 text e)

-- `sort_order`: whether the order is ascending.
abbrev pub sort_order : String → Attempt Bool
sort_order sort =
    if str_eq sort "asc"
    then go true
    else if not (str_eq sort "") && not (str_eq sort "desc")
    then stop (write_http_error 400 "invalid sort order")
    else go false

module _ (lib : Library) (config : ApiConfig) {S : Type 0} (storage : Storage S) where
  -- `getIncome`
  unfoldable pub get_income : Handler S
  unfolding report convert_income
  get_income req s = report s do
    let id = req.query "user_id"
    _ ← require (not (str_eq id "")) 400 "need to provide user ID"
    total_incomes ← or_stop 500 "get income err: " (storage.get_income id config.is_deposit_side s)
    r ← must (convert_income lib config storage s total_incomes)
    go (income_body r)

  -- `getIncomeHistory`
  unfoldable pub get_income_history : Handler S
  unfolding report convert_history is_valid_currency
  get_income_history req s = report s do
    let id = req.query "user_id"
    _ ← require (not (str_eq id "")) 400 "need to provide user ID"
    let currency = req.query "currency"
    _ ← require (not (str_eq currency "")) 400 "need to provide currency"
    _ ← require (is_valid_currency config currency) 400 "invalid currency type"
    limit ← or_400 "invalid limit parameter" (lib.parse_int (req.query "limit"))
    offset ← or_400 "invalid offset parameter" (lib.parse_int (req.query "offset"))
    asc_order ← sort_order (lib.to_lower (req.query "sort_order"))
    history ←
        or_stop 500 "get history err: "
          (storage.get_income_history id currency limit offset asc_order s)
    r ← must (convert_history lib config storage s currency history)
    go (history_body r)
    where
      or_400 : String → Result ℤ → Attempt ℤ
      or_400 text (ok n) = go n
      or_400 text (err e) = stop (write_http_error 400 text)

  -- `getIncomeByTx`
  unfoldable pub get_income_by_tx : Handler S
  unfolding report convert_one_income
  get_income_by_tx req s = report s do
    hash ← or_stop 400 "get tx hash err: " (lib.decode_hex (lib.to_lower (req.query "tx_hash")))
    _ ← require (length hash == 32) 400 "invalid hash len"
    (one_income, currency) ←
        or_404 "transaction not found" "get income by tx err: " (storage.get_income_by_tx hash s)
    r ← must (convert_one_income lib config storage s currency one_income)
    go (income_by_tx_body currency r)

  module _ (bc : Blockchain) where
    -- The address that `getBalance` asks the balance of, with the pending and the processing amounts,
    -- which are shown for the hot wallet only.
    unfoldable pub balance_target : String → String → S → Attempt (Address × String × String)
    unfolding validate_address
    balance_target addr currency s =
        if str_eq addr ""
        then (must (address_from_tonutils (some config.hot_wallet)) >>= λ hot.
            or_stop 500 "get total withdrawal amounts err: "
              (storage.get_total_withdrawal_amounts currency s)
            >>= λ amounts.
                go (hot, lib.coins_text amounts.pending, lib.coins_text amounts.processing))
        else (or_stop 400 "invalid address: " (validate_address lib config addr) >>= λ (a, _).
            go (a, "", ""))

    -- The balance, and the status of the account where the currency is TON.
    unfoldable pub balance_of_target : String → Address → Attempt (Coins × String)
    balance_of_target currency a =
        if str_eq currency ton_symbol
        then (or_stop 500 "get TON balance err: " (bc.get_account_current_state (to_tonutils_std a))
            >>= λ (balance, status). go (balance, lib.to_lower status))
        else (or_stop 500 "get jetton balance err: " (
              bc.get_jetton_balance_by_owner (to_tonutils_std a)
                (master_of currency config.jettons))
            >>= λ balance. go (balance, ""))

    -- `getBalance`
    unfoldable pub get_balance : Handler S
    unfolding report balance_target balance_of_target is_valid_currency
    get_balance req s = report s do
      let currency = req.query "currency"
      _ ← require (not (str_eq currency "")) 400 "need to provide currency"
      _ ← require (is_valid_currency config currency) 400 "invalid currency type"
      (target, pending, processing) ← balance_target (req.query "address") currency s
      (balance, status) ← balance_of_target currency target
      go (
          balance_body (record {
            balance = lib.coins_text balance;
            status = status;
            processing_amount = processing;
            pending_amount = pending;
          }))

    -- `getResolve`
    unfoldable pub get_resolve : Handler S
    unfolding report
    get_resolve req s = report s do
      let domain = req.query "domain"
      _ ← require (not (str_eq domain "")) 400 "invalid domain"
      addr ←
          or_404 "smart contract DNS record not found" "get DNS record err: "
            (bc.dns_resolve_smc domain)
      go (address_body (lib.print_address addr config.testnet true))

-- The loop of `getMetrics`: each metric prints itself or fails.
unfoldable pub print_metrics : List (Result String) → String → Attempt String
print_metrics [] buf = go buf
print_metrics (m ∷ ms) buf =
    or_stop 500 "get metrics err: " m >>= λ text. print_metrics ms (String.◌++◌ buf text)

-- `getMetrics`
unfoldable pub get_metrics : {S : Type 0} → List (Result String) → Handler S
unfolding report print_metrics
get_metrics metrics req s = report s do text ← print_metrics metrics ""; go (metrics_body text)
