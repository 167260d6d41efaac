-- ===== src/Api/Postgres.antt =====
-- db/db.go as the `storage` of the API: the database and the address book of the process. `now` is the
-- clock, `new_memo` the uuid that the database generates.
use bicycle.Prelude.{ℕ, Result, ok, err, not_found}
use bicycle.Prelude.Int.{ℤ, pos, negsuc}
use bicycle.Models.{WithdrawalData}
use bicycle.Db.Schema.{Database}
use bicycle.Db.AddressBook.{
  AddressBook, get_wallet_type, get_owner, save_ton_wallet, save_jetton_wallet,
}
use bicycle.Db.External.{
  save_withdrawal_request, is_withdrawal_request_unique, get_external_withdrawal_status,
}
use bicycle.Db.Wallets.{
  get_last_subwallet_id, get_ton_wallets_addresses, get_jetton_owners_addresses,
}
use bicycle.Db.ServiceRequests.{save_service_withdrawal_request}
use bicycle.Db.Reports.{
  is_actual_block_data, get_income, get_income_history, get_income_by_tx,
  get_total_withdrawal_amounts,
}
use bicycle.Api.Context.{Storage}

abbrev pub Store : Type 0
Store = Database × AddressBook

-- A statement that fails leaves the store as it was.
abbrev pub stored : Store → Result Store → Store × Result (Unit {0})
stored s (ok s') = (s', ok tt)
stored s (err e) = (s, err e)

abbrev pub stored_id : Store → Result (ℕ × Database) → Store × Result ℕ
stored_id s (ok (id, db)) = ((db, s.1), ok id)
stored_id s (err e) = (s, err e)

-- The id of a request is an int64; none is negative.
abbrev status_of_id : Database → ℤ → Result WithdrawalData
status_of_id db (pos id) = get_external_withdrawal_status db id
status_of_id db (negsuc _) = err not_found

abbrev pub postgres : ℕ → (Database → ℕ) → ℕ → Storage Store
postgres default_subwallet new_memo now = record {
  get_last_subwallet_id = λ s. ok (get_last_subwallet_id default_subwallet s.0);
  save_ton_wallet = λ w s. stored s (save_ton_wallet s.0 s.1 w);
  save_jetton_wallet =
      λ owner w not_save_owner s. stored s (save_jetton_wallet s.0 s.1 owner w not_save_owner);
  get_ton_wallets_addresses = λ user types s. ok (get_ton_wallets_addresses s.0 user types);
  get_jetton_owners_addresses = λ user types s. get_jetton_owners_addresses s.0 user types;
  save_withdrawal_request = λ w s. stored_id s (save_withdrawal_request s.0 w);
  is_withdrawal_request_unique = λ w s. ok (is_withdrawal_request_unique s.0 w);
  is_actual_block_data = λ s. ok (is_actual_block_data now s.0);
  get_external_withdrawal_status = λ id s. status_of_id s.0 id;
  get_wallet_type = λ a s. get_wallet_type s.1 a;
  get_income = λ user side s. ok (get_income s.0 user side);
  save_service_withdrawal_request =
      λ w s. stored_id s (save_service_withdrawal_request (new_memo s.0) s.0 w);
  get_income_history =
      λ user currency limit offset asc s. get_income_history s.0 user currency limit offset asc;
  get_owner = λ a s. get_owner s.1 a;
  get_income_by_tx = λ tx_hash s. get_income_by_tx s.0 tx_hash;
  get_total_withdrawal_amounts = λ currency s. ok (get_total_withdrawal_amounts s.0 currency);
}
