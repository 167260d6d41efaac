-- ===== src/Db/Wallets.antt =====
-- db/db.go: the queries of the tables of wallets. `default_subwallet` is the constant `DefaultSubwallet` of
-- the wallet package.
use bicycle.Prelude.{
  ℕ, Bool, true, false, ◌&&◌, ◌||◌, List, [], ◌∷◌, Option, none, some, String, str_eq, ltb,
  if◌then◌else◌, find, filter_by, map, Result, ok, err, ◌>>=◌, ◌==◌, not_found, bad_scan,
}
use bicycle.Models.{
  OwnerWallet, WalletData, Address, WalletType, ton_hot_wallet, jetton_hot_wallet,
  ton_deposit_wallet, jetton_deposit_wallet, jetton_owner,
}
use bicycle.Db.Schema.{Database, TonWalletRow, JettonWalletRow}
use bicycle.Db.AddressBook.{with_subwallet}

abbrev pub same_type : WalletType → WalletType → Bool
same_type ton_hot_wallet ton_hot_wallet = true
same_type jetton_hot_wallet jetton_hot_wallet = true
same_type ton_deposit_wallet ton_deposit_wallet = true
same_type jetton_deposit_wallet jetton_deposit_wallet = true
same_type jetton_owner jetton_owner = true
same_type _ _ = false

-- `type = ANY($2)`
abbrev pub any_type : List WalletType → WalletType → Bool
any_type [] t = false
any_type (x ∷ xs) t = same_type x t || any_type xs t

abbrev pub larger : ℕ → Option ℕ → Option ℕ
larger a none = some a
larger a (some b) = some (if ltb a b then b else a)

-- `MAX(subwallet_id)`
unfoldable pub max_subwallet : List TonWalletRow → Option ℕ
max_subwallet [] = none
max_subwallet (r ∷ rs) = larger r.subwallet_id (max_subwallet rs)

-- `COALESCE`
abbrev pub coalesce {ℓ} : {A : Type ℓ} → Option A → A → A
coalesce none a = a
coalesce (some b) a = b

-- `GetLastSubwalletID`
unfoldable pub get_last_subwallet_id : ℕ → Database → ℕ
unfolding max_subwallet
get_last_subwallet_id default_subwallet db =
    coalesce (max_subwallet db.ton_wallets) default_subwallet

-- `GetTonHotWalletAddress`; of several rows the first is read.
unfoldable pub get_ton_hot_wallet_address : Database → Result Address
get_ton_hot_wallet_address db =
    elim (find (λ r. same_type r.wallet_type ton_hot_wallet) db.ton_wallets) [
      | none ↦ err not_found
      | some r ↦ ok r.address
    ]

abbrev wallet_data : JettonWalletRow → WalletData
wallet_data r = record {
  subwallet_id = r.subwallet_id;
  user_id = r.user_id;
  currency = r.currency;
  wallet_type = r.wallet_type;
  address = r.address;
}

-- `GetJettonWallet`; `none` is the flag `false`.
unfoldable pub get_jetton_wallet : Database → Address → Option WalletData
get_jetton_wallet db address = elim (find (λ r. address == r.address) db.jetton_wallets) [
  | none ↦ none
  | some r ↦ some (wallet_data r)
]

-- `GetTonWalletsAddresses`
unfoldable pub get_ton_wallets_addresses : Database → String → List WalletType → List Address
get_ton_wallets_addresses db user_id types =
    map (λ (r : TonWalletRow). r.address)
      (filter_by (λ r. str_eq r.user_id user_id && any_type types r.wallet_type) db.ton_wallets)

-- The rows of the join: an owner that is NULL cannot be scanned.
unfoldable pub join_owners : List TonWalletRow → List JettonWalletRow → Result (List OwnerWallet)
join_owners ts [] = ok []
join_owners ts (r ∷ rs) = owner_row r (find (with_subwallet r.subwallet_id) ts) >>= λ w.
    join_owners ts rs >>= λ ws. ok (w ∷ ws)
  where
    owner_row : JettonWalletRow → Option TonWalletRow → Result OwnerWallet
    owner_row r none = err bad_scan
    owner_row r (some t) = ok (record { address = t.address; currency = r.currency })

-- `GetJettonOwnersAddresses`
unfoldable pub get_jetton_owners_addresses :
    Database → String → List WalletType → Result (List OwnerWallet)
unfolding join_owners
get_jetton_owners_addresses db user_id types =
    join_owners db.ton_wallets
      (filter_by (λ r. str_eq r.user_id user_id && any_type types r.wallet_type) db.jetton_wallets)
