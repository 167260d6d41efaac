-- ===== src/Db/ServiceRequests.antt =====
-- db/db.go: the requests of the service itself. `memo` is the uuid that the database generates.
use bicycle.Prelude.{
  ℕ, false, not, ◌&&◌, List, [], ◌∷◌, ◌++◌, Option, none, some, ◌==◌, ltb, if◌then◌else◌, is_some,
  find, take, Result, ok, err, unique_violation,
}
use bicycle.Prelude.Int.{pos}
use bicycle.Models.{
  Address, Coins, WalletType, ton_deposit_wallet, jetton_owner, ServiceWithdrawalRequest,
  ServiceWithdrawalTask,
}
use bicycle.Db.Schema.{Database, ServiceRequestRow, TonWalletRow}
use bicycle.Db.Wallets.{any_type}

-- `SaveServiceWithdrawalRequest`; the memo is unique.
unfoldable pub save_service_withdrawal_request :
    ℕ → Database → ServiceWithdrawalRequest → Result (ℕ × Database)
save_service_withdrawal_request memo db w =
    if is_some (find (λ r. memo == r.memo) db.service_requests)
    then err unique_violation
    else ok (memo, record db { service_requests = db.service_requests ++ row ∷ [] })
  where
    row : ServiceRequestRow
    row = record {
      memo = memo;
      expired_at = none;
      filled = false;
      processed = false;
      ton_amount = pos 0;
      jetton_amount = pos 0;
      from_address = w.from;
      jetton_master = w.jetton_master;
    }

-- `DISTINCT ON (from_address)` and `ORDER BY from_address`: of each address the first row.
unfoldable pub insert_service_task :
    ServiceWithdrawalTask → List ServiceWithdrawalTask → List ServiceWithdrawalTask
insert_service_task t [] = t ∷ []
insert_service_task t (x ∷ xs) =
    let rest = insert_service_task t xs in
    if t.from == x.from then t ∷ xs else if ltb t.from x.from then t ∷ x ∷ xs else x ∷ rest

-- The first wallet that the join finds of one of the types.
abbrev wallet_of : List WalletType → Address → List TonWalletRow → Option TonWalletRow
wallet_of types a ts = find (λ t. a == t.address && any_type types t.wallet_type) ts

abbrev add_service_row :
    Coins
    → ServiceRequestRow
    → Option TonWalletRow
    → List ServiceWithdrawalTask
    → List ServiceWithdrawalTask
add_service_row amount r none rest = rest
add_service_row amount r (some t) rest =
    insert_service_task
      (record {
        from = r.from_address;
        jetton_master = r.jetton_master;
        jetton_amount = amount;
        memo = r.memo;
        subwallet_id = t.subwallet_id;
      })
      rest

-- The amount is not read by this query.
unfoldable pub hot_tasks : List TonWalletRow → List ServiceRequestRow → List ServiceWithdrawalTask
unfolding insert_service_task
hot_tasks ts [] = []
hot_tasks ts (r ∷ rs) =
    let rest = hot_tasks ts rs in
    if not r.processed && not r.filled
    then add_service_row (pos 0) r
        (wallet_of (jetton_owner ∷ ton_deposit_wallet ∷ []) r.from_address ts) rest
    else rest

-- `GetServiceHotWithdrawalTasks`
unfoldable pub get_service_hot_withdrawal_tasks : Database → ℕ → List ServiceWithdrawalTask
unfolding hot_tasks
get_service_hot_withdrawal_tasks db limit =
    take limit (hot_tasks db.ton_wallets db.service_requests)

unfoldable pub deposit_tasks :
    List TonWalletRow → List ServiceRequestRow → List ServiceWithdrawalTask
unfolding insert_service_task
deposit_tasks ts [] = []
deposit_tasks ts (r ∷ rs) =
    let rest = deposit_tasks ts rs in
    if not r.processed && r.filled
    then add_service_row r.jetton_amount r (wallet_of (ton_deposit_wallet ∷ []) r.from_address ts)
        rest
    else rest

-- `GetServiceDepositWithdrawalTasks`
unfoldable pub get_service_deposit_withdrawal_tasks : Database → ℕ → List ServiceWithdrawalTask
unfolding deposit_tasks
get_service_deposit_withdrawal_tasks db limit =
    take limit (deposit_tasks db.ton_wallets db.service_requests)
