-- ===== src/Processor/Start.antt =====
-- core/wallets.go: the hot wallets at the start of the service.
pub mod Again
use bicycle.Prelude.{
  ℕ, ◌≡◌, refl, sym, Bool, true, false, not, List, [], ◌∷◌, Option, none, some, String, str_eq,
  ◌==◌, if◌then◌else◌, find, Result, ok, err, ◌>>=◌, Error, Result-cases, >>=-eq-ok, if_err-eq-ok,
  ok-injective, is_some, ap, ◌∙◌, subst, ==_refl, ◌⊎◌, inl, inr, Bool-cases, not_found, error_text,
  arith,
}
use bicycle.Prelude.Int.{ℤ, ltb_ℤ}
use bicycle.Models.{
  Address, TonAddress, address_from_tonutils, Coins, WalletData, ton_symbol, ton_hot_wallet,
  jetton_hot_wallet,
}
use bicycle.Db.Schema.{Database, TonWalletRow}
use bicycle.Db.AddressBook.{
  AddressBook, ton_row, insert_ton_wallet, save_ton_wallet, save_jetton_wallet,
}
use bicycle.Db.AddressBook.Loading.{find-append-new}
use bicycle.Db.AddressBook.Restart.{with_ton, insert_ton_wallet-eq-ok}
use bicycle.Db.Wallets.{same_type, get_ton_hot_wallet_address, get_jetton_wallet}
use bicycle.Blockchain.Queries.{AccountStatus, active, same_status}

-- What the start is given: `GenerateDefaultWallet` (the address, the shard and the subwallet),
-- `GetAccountCurrentState`, `DeployTonWallet` and `GetJettonWalletAddress` of a master; the cold wallet with
-- the flag of its bounces, the basic wallet, and the masters in the order in which Go reads the map.
pub record Start : Type 0 where
  pub generated : Result (TonAddress × ℕ × ℕ)
  pub state : TonAddress → Result (Coins × AccountStatus)
  pub deploy : Result (Unit {0})
  pub hot_wallet_min : Coins
  pub default_subwallet : ℕ
  pub cold_wallet : Option (TonAddress × Bool)
  pub basic : Result TonAddress
  pub jettons : List (String × TonAddress)
  pub wallet_address : TonAddress → TonAddress → Result TonAddress

-- `errors.Is(err, ErrNotFound)`
abbrev is_not_found : Error → Bool
is_not_found not_found = true
is_not_found _ = false

-- `alreadySaved`
abbrev pub already_saved : Address → Result Address → Result Bool
already_saved addr (ok a) =
    if addr == a
    then ok true
    else err
        (error_text "saved hot wallet not equal generated hot wallet. Maybe seed was being changed")
already_saved addr (err e) = if is_not_found e then ok false else err e

abbrev pub hot_wallet : ℕ → Address → WalletData
hot_wallet default_subwallet addr = record {
  subwallet_id = default_subwallet;
  user_id = "";
  currency = ton_symbol;
  wallet_type = ton_hot_wallet;
  address = addr;
}

-- `Wallets`
pub record Wallets : Type 0 where
  pub shard : ℕ
  pub ton_hot_wallet_address : TonAddress
  pub ton_basic_wallet : TonAddress
  pub jetton_hot_wallets : List (String × (TonAddress × String))

module _ (start : Start) where
  abbrev pub deployed : AccountStatus → Result (Unit {0})
  deployed status = if not (same_status status active) then start.deploy else ok tt

  abbrev pub saved : Bool → Address → Database → AddressBook → Result (Database × AddressBook)
  saved true addr db b = ok (db, b)
  saved false addr db b = save_ton_wallet db b (hot_wallet start.default_subwallet addr)

  -- `initTonHotWallet`
  unfoldable pub init_ton_hot_wallet :
      Database → AddressBook → Result ((TonAddress × ℕ × ℕ) × (Database × AddressBook))
  unfolding get_ton_hot_wallet_address save_ton_wallet
  init_ton_hot_wallet db b = do
    w ← start.generated
    addr ← address_from_tonutils (some w.0)
    is_saved ← already_saved addr (get_ton_hot_wallet_address db)
    (balance, status) ← start.state w.0
    (if ltb_ℤ balance start.hot_wallet_min
        then err (error_text "hot wallet balance must be at least the minimum")
        else deployed status >>= λ _. saved is_saved addr db b >>= λ s. ok (w, s))

  abbrev jetton_hot_data : ℕ → String → Address → WalletData
  jetton_hot_data subwallet_id currency addr = record {
    subwallet_id = subwallet_id;
    user_id = "";
    currency = currency;
    wallet_type = jetton_hot_wallet;
    address = addr;
  }

  -- What is saved for a jetton, given what the database has for the address.
  abbrev saved_jetton :
      Option WalletData
      → Address
      → WalletData
      → Database
      → AddressBook
      → Result (Database × AddressBook)
  saved_jetton none owner w db b = save_jetton_wallet db b owner w true
  saved_jetton (some d) owner w db b =
      if str_eq d.currency w.currency
      then ok (db, b)
      else err (error_text "jetton hot wallet address duplication")

  -- `initJettonHotWallet`: the wallet's address and its currency.
  unfoldable pub init_jetton_hot_wallet :
      TonAddress
      → TonAddress
      → String
      → ℕ
      → Database
      → AddressBook
      → Result ((TonAddress × String) × (Database × AddressBook))
  unfolding get_jetton_wallet save_jetton_wallet
  init_jetton_hot_wallet hot master currency subwallet_id db b = do
    a ← start.wallet_address hot master
    owner ← address_from_tonutils (some hot)
    addr ← address_from_tonutils (some a)
    s ←
        saved_jetton (get_jetton_wallet db addr) owner (jetton_hot_data subwallet_id currency addr)
          db b
    ok ((a, currency), s)

  -- The test of the cold wallet.
  abbrev check_cold : Option (TonAddress × Bool) → Result (Unit {0})
  check_cold none = ok tt
  check_cold (some (a, false)) = ok tt
  check_cold (some (a, true)) = do
    (balance, status) ← start.state a
    (if not (same_status status active)
        then err (error_text "cold wallet address must be non-bounceable for not active wallet")
        else ok tt)

  -- The loop over the jettons: an error leaves what was saved before.
  unfoldable pub init_jettons :
      TonAddress
      → ℕ
      → List (String × TonAddress)
      → Database × AddressBook
      → (Database × AddressBook) × Result (List (String × (TonAddress × String)))
  unfolding init_jetton_hot_wallet
  init_jettons hot subwallet_id [] s = (s, ok [])
  init_jettons hot subwallet_id ((currency, master) ∷ js) s =
      elim (init_jetton_hot_wallet hot master currency subwallet_id s.0 s.1) [
        | err e ↦ (s, err e)
        | ok (w, s') ↦
            let (s'', ws) = init_jettons hot subwallet_id js s' in
            (s'', ws >>= λ rest. ok ((currency, w) ∷ rest))
      ]

  -- `InitWallets`
  unfoldable pub init_wallets : Database × AddressBook → (Database × AddressBook) × Result Wallets
  unfolding init_ton_hot_wallet init_jettons
  init_wallets s = elim (check_cold start.cold_wallet >>= λ _. init_ton_hot_wallet s.0 s.1) [
    | err e ↦ (s, err e)
    | ok ((hot, shard, subwallet_id), s1) ↦ elim start.basic [
      | err e ↦ (s1, err e)
      | ok basic ↦
          let (s2, ws) = init_jettons hot subwallet_id start.jettons s1 in
          (
            s2,
            ws >>= λ jetton_hot_wallets. ok (record {
              shard = shard;
              ton_hot_wallet_address = hot;
              ton_basic_wallet = basic;
              jetton_hot_wallets = jetton_hot_wallets;
            }),
          )
    ]
  ]
