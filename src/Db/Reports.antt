-- ===== src/Db/Reports.antt =====
-- db/db.go: the queries for the reports of the API. Rows that SQL leaves in no order are in the order of
-- their table.
pub mod Totals
pub mod History
use bicycle.Prelude.{
  ℕ, zero, suc, ◌+◌, ◌-◌, Bool, true, false, not, ◌&&◌, ◌||◌, List, [], ◌∷◌, ◌++◌, Option, none,
  some, String, str_eq, ◌==◌, ltb, if◌then◌else◌, find, filter_by, map, take, Result, ok, err,
  ◌>>=◌, or_error, error_text, not_found,
}
use bicycle.Prelude.Int.{ℤ, pos, ◌+ℤ◌, ltb_ℤ}
use bicycle.Models.{
  TotalIncome, TotalWithdrawalsAmount, Address, Coins, WalletType, ton_deposit_wallet,
  jetton_deposit_wallet, jetton_owner, ton_symbol, ExternalIncome,
}
use bicycle.Db.Schema.{
  Database, TonWalletRow, JettonWalletRow, ExternalIncomeRow, InternalIncomeRow, RequestRow,
  BlockRow,
}
use bicycle.Db.External.{allowable_blockchain_lagging}
use bicycle.Db.Blocks.{last_block}
use bicycle.Db.Wallets.{same_type, any_type}

-- `IsActualBlockData` at the time `now`: whether the last block is recent, and its time.
unfoldable pub is_actual_block_data : ℕ → Database → Bool × ℕ
unfolding last_block
is_actual_block_data now db = elim (last_block db.block_data) [
  | none ↦ (false, 0)
  | some b ↦ (ltb now (b.gen_utime + allowable_blockchain_lagging), b.gen_utime)
]

-- `SUM(amount)` of the requests that pass a test.
unfoldable pub sum_requests : (RequestRow → Bool) → List RequestRow → Coins
sum_requests p [] = pos 0
sum_requests p (r ∷ rs) = let rest = sum_requests p rs in if p r then r.amount +ℤ rest else rest

abbrev pub is_processing_of : String → RequestRow → Bool
is_processing_of c r = str_eq r.currency c && not r.processed && r.processing

abbrev pub is_pending_of : String → RequestRow → Bool
is_pending_of c r = str_eq r.currency c && not r.processed && not r.processing

-- `GetTotalWithdrawalAmounts`
unfoldable pub get_total_withdrawal_amounts : Database → String → TotalWithdrawalsAmount
unfolding sum_requests
get_total_withdrawal_amounts db currency = record {
  pending = sum_requests (is_pending_of currency) db.withdrawal_requests;
  processing = sum_requests (is_processing_of currency) db.withdrawal_requests;
}

abbrev pub income_of : ExternalIncomeRow → ExternalIncome
income_of r = record {
  utime = r.utime;
  lt = r.lt;
  from = r.payer_address;
  from_workchain = r.payer_workchain;
  to = r.deposit_address;
  amount = r.amount;
  comment = r.comment;
  tx_hash = r.tx_hash;
}

abbrev bytes_eq : List ℕ → List ℕ → Bool
bytes_eq [] [] = true
bytes_eq (x ∷ xs) (y ∷ ys) = let rest = bytes_eq xs ys in if x == y then rest else false
bytes_eq _ _ = false

-- The join with the wallet of the deposit: an income for each row of `wallets` with its address.
abbrev pub joined {ℓ} :
    {W : Type ℓ} → (W → Address) → List W → List ExternalIncomeRow → List (ExternalIncomeRow × W)
joined address_of wallets [] = []
joined {W} address_of wallets (i ∷ is) =
    map (λ (w : W). (i, w)) (filter_by (λ w. i.deposit_address == address_of w) wallets)
    ++ joined address_of wallets is

-- `ORDER BY lt`, `asc` for the ascending order.
unfoldable pub insert_income :
    Bool → ExternalIncomeRow → List ExternalIncomeRow → List ExternalIncomeRow
insert_income asc i [] = i ∷ []
insert_income asc i (x ∷ xs) =
    let rest = insert_income asc i xs in
    if (if asc then ltb x.lt i.lt else ltb i.lt x.lt) then x ∷ rest else i ∷ x ∷ xs

unfoldable pub order_by_lt : Bool → List ExternalIncomeRow → List ExternalIncomeRow
unfolding insert_income
order_by_lt asc [] = []
order_by_lt asc (i ∷ is) = insert_income asc i (order_by_lt asc is)

abbrev pub drop {ℓ} : {A : Type ℓ} → ℕ → List A → List A
drop zero xs = xs
drop (suc n) [] = []
drop (suc n) (x ∷ xs) = drop n xs

-- `LIMIT $4 OFFSET $5`: the database refuses a negative number.
unfoldable pub page {ℓ} : {A : Type ℓ} → ℤ → ℤ → List A → Result (List A)
page (pos limit) (pos offset) xs = ok (take limit (drop offset xs))
page (pos limit) (ℤ.negsuc _) xs = err (error_text "OFFSET must not be negative")
page (ℤ.negsuc _) _ xs = err (error_text "LIMIT must not be negative")

-- The rows of `GetIncomeHistory` before they are ordered.
unfoldable pub history_rows : Database → String → String → List ExternalIncomeRow
history_rows db user_id currency =
    if str_eq currency ton_symbol
    then map (λ (x : ExternalIncomeRow × TonWalletRow). x.0)
        (filter_by
          (λ (x : ExternalIncomeRow × TonWalletRow).
            same_type ton_deposit_wallet x.1.wallet_type && str_eq x.1.user_id user_id)
          (joined (λ (w : TonWalletRow). w.address) db.ton_wallets db.external_incomes))
    else map (λ (x : ExternalIncomeRow × JettonWalletRow). x.0)
        (filter_by
          (λ (x : ExternalIncomeRow × JettonWalletRow).
            same_type jetton_deposit_wallet x.1.wallet_type
            && str_eq x.1.user_id user_id
            && str_eq x.1.currency currency)
          (joined (λ (w : JettonWalletRow). w.address) db.jetton_wallets db.external_incomes))

-- `GetIncomeHistory`
unfoldable pub get_income_history :
    Database → String → String → ℤ → ℤ → Bool → Result (List ExternalIncome)
unfolding history_rows order_by_lt page
get_income_history db user_id currency limit offset asc_order =
    page limit offset (order_by_lt asc_order (history_rows db user_id currency)) >>= λ rows.
    ok (map income_of rows)

-- `GetIncomeByTx`
unfoldable pub get_income_by_tx : Database → List ℕ → Result (ExternalIncome × String)
get_income_by_tx db tx_hash =
    elim (find
      (λ (x : ExternalIncomeRow × TonWalletRow).
        same_type ton_deposit_wallet x.1.wallet_type && bytes_eq x.0.tx_hash tx_hash)
      (joined (λ (w : TonWalletRow). w.address) db.ton_wallets db.external_incomes)) [
        | some (i, w) ↦ ok (income_of i, ton_symbol)
        | none ↦
            or_error
              (find
                (λ (x : ExternalIncomeRow × JettonWalletRow).
                  same_type jetton_deposit_wallet x.1.wallet_type
                  && bytes_eq x.0.tx_hash tx_hash
                  && ltb_ℤ (pos 0) x.0.amount)
                (joined (λ (w : JettonWalletRow). w.address) db.jetton_wallets db.external_incomes))
              not_found
            >>= λ (i, w). ok (income_of i, w.currency)
      ]

-- `SUM(i.amount)` of the incomes of a deposit, over one of the two tables.
unfoldable pub sum_external : Address → List ExternalIncomeRow → Coins
sum_external a [] = pos 0
sum_external a (i ∷ is) =
    let rest = sum_external a is in if a == i.deposit_address then i.amount +ℤ rest else rest

unfoldable pub sum_internal : Address → List InternalIncomeRow → Coins
sum_internal a [] = pos 0
sum_internal a (i ∷ is) =
    let rest = sum_internal a is in if a == i.deposit_address then i.amount +ℤ rest else rest

unfoldable pub income_sum : Database → Bool → Address → Coins
unfolding sum_external sum_internal
income_sum db is_deposit_side a =
    if is_deposit_side
    then sum_external a db.external_incomes
    else sum_internal a db.internal_incomes

-- The rows for one TON wallet: for each jetton wallet of its subwallet, or for itself without any. Each is
-- a group of its own, since a deposit stands in one row of its table.
abbrev total_rows : Database → Bool → TonWalletRow → List JettonWalletRow → List TotalIncome
total_rows db side t [] =
    record { deposit = t.address; amount = income_sum db side t.address; currency = ton_symbol }
    ∷ []
total_rows db side t js =
    map
      (λ (j : JettonWalletRow). record {
        deposit = j.address;
        amount = income_sum db side j.address;
        currency = j.currency;
      })
      js

abbrev total_incomes : Database → Bool → List TonWalletRow → List TotalIncome
total_incomes db side [] = []
total_incomes db side (t ∷ ts) =
    total_rows db side t (filter_by (λ j. j.subwallet_id == t.subwallet_id) db.jetton_wallets)
    ++ total_incomes db side ts

-- `GetIncome`
unfoldable pub get_income : Database → String → Bool → List TotalIncome
unfolding income_sum
get_income db user_id is_deposit_side = total_incomes db is_deposit_side (
    filter_by
      (λ t.
        str_eq t.user_id user_id && any_type (ton_deposit_wallet ∷ jetton_owner ∷ []) t.wallet_type)
      db.ton_wallets)
