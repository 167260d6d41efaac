-- ===== src/Processor/Cold.antt =====
-- core/withdrawal_processor.go: the withdrawals to the cold wallet, saved as requests of the service itself.
pub mod Amounts
use bicycle.Prelude.{
  ℕ, Bool, true, false, ◌&&◌, ◌||◌, not, List, [], ◌∷◌, ◌++◌, Option, none, some, String, str_eq,
  ◌==◌, if◌then◌else◌, is_some, find, ◌≡◌, ◌⊎◌, inl, inr, subst, sym, refl, ap, All, Result, ok,
  err, ◌>>=◌, or_error, nil_dereference, >>=-eq-ok, ok-injective, Bool-cases, arith,
}
use bicycle.Prelude.Int.{ℤ, pos, ◌-ℤ◌, ◌≤ℤ◌, ltb_ℤ, int_laws}
use bicycle.Models.{
  Address, Coins, ton_symbol, TonAddress, address_from_tonutils, WithdrawalRequest,
}
use bicycle.Db.Schema.{Database, RequestRow}
use bicycle.Db.External.{save_withdrawal_request}
use bicycle.Processor.Messages.{jetton_transfer_ton_amount}
use bicycle.Processor.Build.{Network, Setup}

-- `HotWalletMaxCutoff` (of TON `HotWalletMax`) and `HotWalletResidual` of a currency.
pub record Cutoffs : Type 0 where
  pub hot_wallet_max : Coins
  pub hot_wallet_residual : Coins

abbrev pub cutoffs_of : String → List (String × Cutoffs) → Option Cutoffs
cutoffs_of c [] = none
cutoffs_of c ((k, x) ∷ xs) = let rest = cutoffs_of c xs in if str_eq c k then some x else rest

-- `IsInProgressInternalWithdrawalRequest`
unfoldable pub is_in_progress : Database → Address → String → Bool
is_in_progress db dest currency = is_some (
    find
      (λ r.
        (dest == r.dest_address) && str_eq currency r.currency && r.is_internal && not r.processed)
      db.withdrawal_requests)

-- The request that is saved; no user and no comment are set.
abbrev pub cold_request : String → Coins → Bool → Address → String → WithdrawalRequest
cold_request currency amount bounceable dest query = record {
  query_id = query;
  user_id = "";
  currency = currency;
  amount = amount;
  bounceable = bounceable;
  is_internal = true;
  destination = dest;
  comment = "";
  binary_comment = "";
}

-- `new_query c` is the text of the uuid made for the currency `c`.
module _ (net : Network) (setup : Setup) (new_query : String → Result String)
    (jettons : List (String × Cutoffs)) (ton : Cutoffs) where
  -- The loop over the jetton wallets: the rest of the TON balance, what is saved, and the database.
  unfoldable pub cold_jettons :
      Address
      → List (String × TonAddress)
      → Coins
      → Database
      → Result (Coins × List WithdrawalRequest × Database)
  unfolding is_in_progress save_withdrawal_request
  cold_jettons dest [] ton_balance db = ok (ton_balance, [], db)
  cold_jettons dest ((cur, jw) ∷ ws) ton_balance db =
      if is_in_progress db dest cur
      then cold_jettons dest ws ton_balance db
      else (net.get_last_jetton_balance jw >>= λ jetton_balance.
          or_error (cutoffs_of cur jettons) nil_dereference >>= λ cutoffs.
          if ltb_ℤ cutoffs.hot_wallet_max jetton_balance
          then (new_query cur >>= λ u.
              let req =
                cold_request cur (jetton_balance -ℤ cutoffs.hot_wallet_residual) true dest u in
              save_withdrawal_request db req >>= λ (_, db').
              cold_jettons dest ws (ton_balance -ℤ jetton_transfer_ton_amount) db'
              >>= λ (left, saved, db''). ok (left, req ∷ saved, db''))
          else cold_jettons dest ws ton_balance db)

  -- `makeColdWalletWithdrawals`, with the cold wallet's flag `IsBounceable`: what is saved, and the database.
  unfoldable pub make_cold_wallet_withdrawals :
      Option (TonAddress × Bool) → Database → Result (List WithdrawalRequest × Database)
  unfolding cold_jettons is_in_progress save_withdrawal_request
  make_cold_wallet_withdrawals none db = ok ([], db)
  make_cold_wallet_withdrawals (some (cold_wallet, bounceable)) db =
      net.get_account_current_state setup.ton_hot_wallet >>= λ (ton_balance, _).
      address_from_tonutils (some cold_wallet) >>= λ dest.
      cold_jettons dest setup.jetton_hot_wallets ton_balance db >>= λ (left, saved, db').
      if is_in_progress db' dest ton_symbol || not (ltb_ℤ ton.hot_wallet_max left)
      then ok (saved, db')
      else (new_query ton_symbol >>= λ u.
          let req = cold_request ton_symbol (left -ℤ ton.hot_wallet_residual) bounceable dest u in
          save_withdrawal_request db' req >>= λ (_, db''). ok (saved ++ req ∷ [], db''))
