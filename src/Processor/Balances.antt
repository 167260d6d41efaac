-- ===== src/Processor/Balances.antt =====
-- The balances of the hot wallet in the batch of one round, by currency.
use bicycle.Prelude.{
  Bool, true, false, List, [], ◌∷◌, Option, none, some, String, str_eq, if◌then◌else◌, Result, ok,
  ◌>>=◌, or_error, nil_dereference,
}
use bicycle.Prelude.Int.{◌-ℤ◌, ltb_ℤ}
use bicycle.Models.{Coins, ton_symbol, TonAddress}
use bicycle.Processor.Messages.{jetton_transfer_ton_amount}

-- `map[string]*big.Int`: the newest entry of a currency counts.
abbrev pub Balances : Type 0
Balances = List (String × Coins)

abbrev pub lookup : String → Balances → Option Coins
lookup c [] = none
lookup c ((k, b) ∷ bs) = let rest = lookup c bs in if str_eq c k then some b else rest

-- `balances[c]`, whose methods panic on a currency that is not there.
abbrev pub balance_of : String → Balances → Result Coins
balance_of c bs = or_error (lookup c bs) nil_dereference

-- `decreaseBalances`: true where the balance is not enough.
unfoldable pub decrease_balances : Balances → String → Coins → Result (Bool × Balances)
decrease_balances bs currency amount =
    if str_eq currency ton_symbol
    then (balance_of ton_symbol bs >>= λ b.
        ok (if ltb_ℤ b amount then (true, bs) else (false, (ton_symbol, b -ℤ amount) ∷ bs)))
    else (balance_of currency bs >>= λ b.
        if ltb_ℤ b amount
        then ok (true, bs)
        else (balance_of ton_symbol bs >>= λ t. ok (
            if ltb_ℤ t jetton_transfer_ton_amount then (true, bs) else (
              false,
              (ton_symbol, t -ℤ jetton_transfer_ton_amount) ∷ (currency, b -ℤ amount) ∷ bs,
            ))))

module _ (get_account_current_state : TonAddress → Result (Coins × Bool))
    (get_last_jetton_balance : TonAddress → Result Coins) where
  -- The loop of `getHotWalletBalances` over the jetton wallets, in some order.
  abbrev jetton_balances : List (String × TonAddress) → Balances → Result Balances
  jetton_balances [] bs = ok bs
  jetton_balances ((cur, w) ∷ ws) bs =
      get_last_jetton_balance w >>= λ b. jetton_balances ws ((cur, b) ∷ bs)

  -- `getHotWalletBalances`
  unfoldable pub get_hot_wallet_balances : TonAddress → List (String × TonAddress) → Result Balances
  get_hot_wallet_balances ton_hot_wallet jetton_hot_wallets = do
    (balance, _) ← get_account_current_state ton_hot_wallet
    jetton_balances jetton_hot_wallets ((ton_symbol, balance) ∷ [])
