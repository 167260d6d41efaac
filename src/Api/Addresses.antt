-- ===== src/Api/Addresses.antt =====
-- api/handlers.go: the handlers that make and list the deposit addresses of a user.
pub mod Fresh
use bicycle.Prelude.{
  ℕ, suc, ◌^◌, ◌%◌, not, List, [], ◌∷◌, ◌++◌, map, Option, none, some, String, str_eq,
  if◌then◌else◌, Result, ok, err, or_error, error_text, true, false, nil_dereference,
}
use bicycle.Models.{
  OwnerWallet, Address, TonAddress, address_from_tonutils, to_tonutils_std, ton_symbol, WalletData,
  WalletType, ton_deposit_wallet, jetton_deposit_wallet,
}
use bicycle.Api.Types.{WalletAddress, address_body, addresses_body, Response}
use bicycle.Api.Middleware.{Handler, respond, write_http_error_of}
use bicycle.Api.Attempt.{Attempt, stop, go, ◌>>=◌, or_stop, must, require, answer, report}
use bicycle.Api.Context.{Storage, Blockchain, Library, ApiConfig, master_of, is_valid_currency}
use bicycle.Api.Convert.{to_user_format}

-- `generate address err: %v`
abbrev pub or_500 {ℓ} : {A : Type ℓ} → Result A → Attempt A
or_500 r = or_stop 500 "generate address err: " r

-- `subwalletID+1` on a uint32.
abbrev pub next_id : ℕ → ℕ
next_id id = suc id % 2 ^ 32

module _ (lib : Library) (config : ApiConfig) {S : Type 0} (storage : Storage S)
    (bc : Blockchain) where
  -- The response to the wallet that was saved, or to the error.
  abbrev pub respond_address : Address → S × Result (Unit {0}) → Attempt (S × Response)
  respond_address a (s', ok _) = go (s', respond 200 (address_body (to_user_format lib config a)))
  respond_address a (s', err e) = go (s', write_http_error_of 500 "generate address err: " e)

  abbrev pub ton_wallet_data : String → ℕ → Address → WalletData
  ton_wallet_data user_id id a = record {
    subwallet_id = id;
    user_id = user_id;
    currency = ton_symbol;
    wallet_type = ton_deposit_wallet;
    address = a;
  }

  abbrev pub jetton_wallet_data : String → String → ℕ → Address → WalletData
  jetton_wallet_data user_id currency id a = record {
    subwallet_id = id;
    user_id = user_id;
    currency = currency;
    wallet_type = jetton_deposit_wallet;
    address = a;
  }

  -- `generateAddress`, the branch of TON.
  unfoldable pub generate_ton_address : String → ℕ → S → Attempt (S × Response)
  generate_ton_address user_id start s = do
    (w, id) ← or_500 (bc.generate_sub_wallet config.shard start)
    a ← or_500 (address_from_tonutils w)
    respond_address a (storage.save_ton_wallet (ton_wallet_data user_id id a) s)

  -- `generateAddress`, the branch of jettons.
  unfoldable pub generate_jetton_address : String → String → ℕ → S → Attempt (S × Response)
  generate_jetton_address user_id currency start s = do
    master ←
        or_500
          (or_error (master_of currency config.jettons) (error_text "jetton address not found"))
    (proxy, id, addr) ←
        or_500
          (bc.generate_deposit_jetton_wallet_for_proxy config.shard config.hot_wallet master start)
    jetton_wallet ← or_500 (address_from_tonutils addr)
    owner ← or_500 (address_from_tonutils proxy)
    respond_address owner (
        storage.save_jetton_wallet owner (jetton_wallet_data user_id currency id jetton_wallet)
          false s)

  -- `generateAddress` with the response of `getNewAddress`.
  unfoldable pub generate_address : String → String → S → Attempt (S × Response)
  unfolding generate_ton_address generate_jetton_address
  generate_address user_id currency s = do
    subwallet_id ← or_500 (storage.get_last_subwallet_id s)
    (if str_eq currency ton_symbol
        then generate_ton_address user_id (next_id subwallet_id) s
        else generate_jetton_address user_id currency (next_id subwallet_id) s)

  -- `getNewAddress`; the mutex makes the calls one after the other.
  unfoldable pub get_new_address : Handler S
  unfolding generate_address is_valid_currency
  get_new_address req s = answer s do
    payload ← or_stop 400 "decode payload data err: " (lib.decode_new_address req.body)
    _ ← require (is_valid_currency config payload.currency) 400 "invalid currency type"
    generate_address payload.user_id payload.currency s

  abbrev ton_entry : Address → WalletAddress
  ton_entry a = record { address = to_user_format lib config a; currency = ton_symbol }

  abbrev owner_entry : OwnerWallet → WalletAddress
  owner_entry w = record { address = to_user_format lib config w.address; currency = w.currency }

  -- `getAddresses`, the handler with the function of its name.
  unfoldable pub get_addresses : Handler S
  unfolding report
  get_addresses req s = report s do
    _ ← require (not (str_eq (req.query "user_id") "")) 400 "need to provide user ID"
    ton_addr ←
        or_stop 500 "get addresses err: "
          (storage.get_ton_wallets_addresses (req.query "user_id") (ton_deposit_wallet ∷ []) s)
    jetton_addr ←
        or_stop 500 "get addresses err: "
          (storage.get_jetton_owners_addresses (req.query "user_id") (jetton_deposit_wallet ∷ []) s)
    go (addresses_body (map ton_entry ton_addr ++ map owner_entry jetton_addr))
