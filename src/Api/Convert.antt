-- ===== src/Api/Convert.antt =====
-- api/handlers.go: the checks and conversions between the bodies of requests and the service's data.
use Prim.Native.String.{len}
use bicycle.Prelude.{
  ℕ, Bool, true, false, not, ◌&&◌, ◌||◌, List, [], ◌∷◌, Option, none, some, String, str_eq, ltb,
  ◌==◌, ◌%◌, ◌-◌, if◌then◌else◌, length, Result, ok, err, ◌>>=◌, or_error, error_text, wrapped,
  fatal,
}
use bicycle.Prelude.Int.{ℤ, pos, ltb_ℤ}
use bicycle.Models.{
  ServiceWithdrawalRequest, TotalIncome, Address, address_from_tonutils, to_tonutils_std,
  WalletType, ton_deposit_wallet, jetton_owner, WithdrawalRequest, ExternalIncome, ton_symbol,
}
use bicycle.Api.Types.{
  ApiWithdrawalRequest, ServiceTonWithdrawalRequest, ServiceJettonWithdrawalRequest,
  TotalIncomeEntry, IncomeEntry, GetIncomeResponse,
}
use bicycle.Api.Context.{Storage, Library, ApiConfig, is_valid_currency}

-- `config.MaxCommentLength`
abbrev pub max_comment_length : ℕ
max_comment_length = 1000

-- `isValidCommentLen`; `len` counts bytes.
unfoldable pub is_valid_comment_len : String → Bool
is_valid_comment_len comment = ltb (len comment) max_comment_length

-- `%v` of the error of a call, behind a text.
abbrev pub wrap {ℓ} : {A : Type ℓ} → String → Result A → Result A
wrap text (ok a) = ok a
wrap text (err e) = err (wrapped text e)

abbrev is_zero_workchain : ℤ → Bool
is_zero_workchain (pos n) = n == 0
is_zero_workchain (ℤ.negsuc n) = false

-- `byte(w)`
abbrev byte_of : ℤ → ℕ
byte_of (pos n) = n % 256
byte_of (ℤ.negsuc n) = 255 - n % 256

abbrev is_owner : WalletType → Bool
is_owner jetton_owner = true
is_owner _ = false

abbrev is_ton_deposit : WalletType → Bool
is_ton_deposit ton_deposit_wallet = true
is_ton_deposit _ = false

module _ (lib : Library) (config : ApiConfig) where
  -- `validateAddress`
  unfoldable pub validate_address : String → Result (Address × Bool)
  validate_address addr =
      if str_eq addr ""
      then err (error_text "empty address")
      else (wrap "invalid address: " (lib.parse_addr addr) >>= λ a.
          if a.testnet_only && not config.testnet
          then err (error_text "address for testnet only")
          else if not (is_zero_workchain a.addr.workchain)
          then err (error_text "address must be in 0 workchain")
          else (address_from_tonutils (some a.addr) >>= λ res. ok (res, a.bounceable)))

  -- The request that `convertWithdrawal` makes of a body that passes the checks.
  abbrev pub converted : ApiWithdrawalRequest → Address × Bool → WithdrawalRequest
  converted w (addr, bounceable) = record {
    query_id = w.query_id;
    user_id = w.user_id;
    currency = w.currency;
    amount = w.amount;
    bounceable = bounceable;
    is_internal = false;
    destination = addr;
    comment = w.comment;
    binary_comment = w.binary_comment;
  }

  -- `convertWithdrawal`
  unfoldable pub convert_withdrawal : ApiWithdrawalRequest → Result WithdrawalRequest
  unfolding is_valid_currency validate_address is_valid_comment_len
  convert_withdrawal w =
      if not (is_valid_currency config w.currency)
      then err (error_text "invalid currency")
      else (wrap "invalid destination address: " (validate_address w.destination) >>= λ a.
          if not (ltb_ℤ (pos 0) w.amount)
          then err (error_text "amount must be > 0")
          else if not (str_eq w.comment "") && not (str_eq w.binary_comment "")
          then err
              (error_text "only one type of comment can be specified (comment OR binary comment)")
          else if not (is_valid_comment_len w.comment)
              || not (is_valid_comment_len w.binary_comment)
          then err (error_text "too long comment, max length allowed: 1000")
          else if str_eq w.binary_comment ""
          then ok (converted w a)
          else (wrap "decode binary comment error: " (lib.bit_string_from_fift_hex w.binary_comment)
              >>= λ _. ok (converted w a)))

  -- `a.ToUserFormat()`
  abbrev pub to_user_format : Address → String
  to_user_format a = lib.print_address (to_tonutils_std a) config.testnet false

  module _ {S : Type 0} (storage : Storage S) (s : S) where
    -- `convertTonServiceWithdrawal`
    unfoldable pub convert_ton_service_withdrawal :
        ServiceTonWithdrawalRequest → Result ServiceWithdrawalRequest
    unfolding validate_address
    convert_ton_service_withdrawal w = do
      (from, _) ← wrap "invalid from address: " (validate_address w.from)
      t ← or_error (storage.get_wallet_type from s) (error_text "unknown deposit address")
      (if not (is_owner t)
          then err (error_text "service withdrawal allowed only for Jetton deposit owner")
          else ok (record { from = from; jetton_master = none }))

    -- `convertJettonServiceWithdrawal`
    unfoldable pub convert_jetton_service_withdrawal :
        ServiceJettonWithdrawalRequest → Result ServiceWithdrawalRequest
    unfolding validate_address
    convert_jetton_service_withdrawal w = do
      (from, _) ← wrap "invalid from address: " (validate_address w.owner)
      t ← or_error (storage.get_wallet_type from s) (error_text "unknown deposit address")
      (if not (is_owner t) && not (is_ton_deposit t)
          then err
              (error_text "service withdrawal allowed only for Jetton deposit owner or TON deposit")
          else (wrap "invalid jetton master address: " (validate_address w.jetton_master)
              >>= λ (jetton, _). ok (record { from = from; jetton_master = some jetton })))

    -- The address that is shown for a deposit: of a jetton deposit that of its owner. `log.Fatalf` ends
    -- the process where there is none.
    unfoldable pub shown_deposit : String → Address → Result String
    shown_deposit currency deposit =
        if str_eq currency ton_symbol
        then ok (to_user_format deposit)
        else (storage.get_owner deposit s >>= λ o.
            or_error o fatal >>= λ owner. ok (to_user_format owner))

    -- The loop of `convertIncome`.
    unfoldable pub convert_total_incomes : List TotalIncome → Result (List TotalIncomeEntry)
    unfolding shown_deposit
    convert_total_incomes [] = ok []
    convert_total_incomes (b ∷ bs) = shown_deposit b.currency b.deposit >>= λ address.
        convert_total_incomes bs >>= λ rest. ok (
          record { address = address; amount = lib.coins_text b.amount; currency = b.currency }
          ∷ rest)

    -- `convertIncome`
    unfoldable pub convert_income : List TotalIncome → Result GetIncomeResponse
    unfolding convert_total_incomes
    convert_income incomes = do
      entries ← convert_total_incomes incomes
      ok (record {
        side = if config.is_deposit_side then "deposit" else "hot_wallet";
        total_incomes = entries;
      })

    -- `inc.SourceAddress`: only std addresses are shown; the workchain is cut to a byte.
    abbrev source_address : ExternalIncome → Option ℤ → String
    source_address inc none = ""
    source_address inc (some workchain) =
        if length inc.from == 32
        then (let a = lib.new_address (byte_of workchain) inc.from in
            lib.print_address a.addr config.testnet a.bounceable)
        else ""

    -- `convertOneIncome`
    unfoldable pub convert_one_income : String → ExternalIncome → Result IncomeEntry
    unfolding shown_deposit
    convert_one_income currency inc = do
      deposit ← shown_deposit currency inc.to
      ok (record {
        deposit_address = deposit;
        time = inc.utime;
        source_address = source_address inc inc.from_workchain;
        amount = lib.coins_text inc.amount;
        comment = inc.comment;
        tx_hash = lib.print_hex inc.tx_hash;
      })

    -- `convertHistory`
    unfoldable pub convert_history : String → List ExternalIncome → Result (List IncomeEntry)
    unfolding convert_one_income
    convert_history currency [] = ok []
    convert_history currency (i ∷ is) = convert_one_income currency i >>= λ inc.
        convert_history currency is >>= λ rest. ok (inc ∷ rest)
