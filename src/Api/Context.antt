-- ===== src/Api/Context.antt =====
-- api/handlers.go: what the handlers use: the interfaces `storage` and `blockchain` with their methods,
-- the configuration, and the functions of called packages.
use bicycle.Prelude.{
  ℕ, Bool, ◌||◌, List, [], ◌∷◌, Option, none, some, String, str_eq, if◌then◌else◌, is_some, Result,
}
use bicycle.Prelude.Int.{ℤ}
use bicycle.Models.{
  ServiceWithdrawalRequest, OwnerWallet, TotalIncome, TotalWithdrawalsAmount, Address, Coins,
  TonAddress, WalletType, WalletData, WithdrawalRequest, WithdrawalData, ExternalIncome, ton_symbol,
}
use bicycle.Api.Types.{
  ApiWithdrawalRequest, ServiceTonWithdrawalRequest, ServiceJettonWithdrawalRequest,
  NewAddressRequest,
}

-- `storage`: a method that writes takes the state to the new one.
pub record Storage (S : Type 0) : Type 0 where
  pub get_last_subwallet_id : S → Result ℕ
  pub save_ton_wallet : WalletData → S → S × Result (Unit {0})
  pub save_jetton_wallet : Address → WalletData → Bool → S → S × Result (Unit {0})
  pub get_ton_wallets_addresses : String → List WalletType → S → Result (List Address)
  pub get_jetton_owners_addresses : String → List WalletType → S → Result (List OwnerWallet)
  pub save_withdrawal_request : WithdrawalRequest → S → S × Result ℕ
  pub is_withdrawal_request_unique : WithdrawalRequest → S → Result Bool
  pub is_actual_block_data : S → Result (Bool × ℕ)
  pub get_external_withdrawal_status : ℤ → S → Result WithdrawalData
  pub get_wallet_type : Address → S → Option WalletType
  pub get_income : String → Bool → S → Result (List TotalIncome)
  pub save_service_withdrawal_request : ServiceWithdrawalRequest → S → S × Result ℕ
  pub get_income_history : String → String → ℤ → ℤ → Bool → S → Result (List ExternalIncome)
  pub get_owner : Address → S → Result (Option Address)
  pub get_income_by_tx : List ℕ → S → Result (ExternalIncome × String)
  pub get_total_withdrawal_amounts : String → S → Result TotalWithdrawalsAmount

-- `blockchain`: a wallet is its address, a proxy its subwallet and its address.
pub record Blockchain : Type 0 where
  pub generate_sub_wallet : ℕ → ℕ → Result (Option TonAddress × ℕ)
  pub generate_deposit_jetton_wallet_for_proxy :
      ℕ → TonAddress → TonAddress → ℕ → Result (Option TonAddress × ℕ × Option TonAddress)
  pub get_account_current_state : TonAddress → Result (Coins × String)
  pub get_jetton_balance_by_owner : TonAddress → Option TonAddress → Result Coins
  pub dns_resolve_smc : String → Result TonAddress

-- A tonutils address with its flags.
pub record ParsedAddress : Type 0 where
  pub addr : TonAddress
  pub testnet_only : Bool
  pub bounceable : Bool

-- The packages encoding/json, encoding/hex, strconv, strings, decimal, tonutils and tongo.
pub record Library : Type 0 where
  pub decode_withdrawal : String → Result ApiWithdrawalRequest
  pub decode_service_ton : String → Result ServiceTonWithdrawalRequest
  pub decode_service_jetton : String → Result ServiceJettonWithdrawalRequest
  pub decode_new_address : String → Result NewAddressRequest
  pub parse_addr : String → Result ParsedAddress
  -- `address.NewAddress` of no flags, a workchain's byte and data
  pub new_address : ℕ → List ℕ → ParsedAddress
  -- `addr.String()`, with the flags for test networks and bouncing
  pub print_address : TonAddress → Bool → Bool → String
  pub bit_string_from_fift_hex : String → Result (Unit {0})
  pub coins_text : Coins → String
  pub parse_int : String → Result ℤ
  pub decode_hex : String → Result (List ℕ)
  pub print_hex : List ℕ → String
  pub to_lower : String → String

-- `config.Config`: of a jetton the address of its master.
pub record ApiConfig : Type 0 where
  pub testnet : Bool
  pub api_token : String
  pub is_deposit_side : Bool
  pub jettons : List (String × TonAddress)
  -- the handler's own fields
  pub shard : ℕ
  pub hot_wallet : TonAddress

-- `config.Config.Jettons[c]`
abbrev pub master_of : String → List (String × TonAddress) → Option TonAddress
master_of c [] = none
master_of c ((k, m) ∷ ms) = let rest = master_of c ms in if str_eq c k then some m else rest

-- `isValidCurrency`
unfoldable pub is_valid_currency : ApiConfig → String → Bool
is_valid_currency config cur = is_some (master_of cur config.jettons) || str_eq cur ton_symbol
