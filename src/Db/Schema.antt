-- ===== src/Db/Schema.antt =====
-- deploy/db/01_init.up.sql: a record for a row of each table, and the database as its tables. An
-- SQL NULL is `none`; times are seconds. Columns that no statement of db/db.go reads or writes
-- (`created_at`, `saved_at`) are left out.
use bicycle.Prelude.{ℕ, Bool, List, [], Option, String}
use bicycle.Prelude.Int.{ℤ}
use bicycle.Models.{Address, WalletType, Coins}

pub record TonWalletRow : Type 0 where
  pub subwallet_id : ℕ
  pub user_id : String
  pub wallet_type : WalletType
  pub address : Address

pub record JettonWalletRow : Type 0 where
  pub subwallet_id : ℕ
  pub user_id : String
  pub currency : String
  pub wallet_type : WalletType
  pub address : Address

pub record InternalIncomeRow : Type 0 where
  pub lt : ℕ
  pub utime : ℕ
  pub deposit_address : Address
  pub amount : Coins
  pub memo : ℕ

pub record ExternalWithdrawalRow : Type 0 where
  pub msg_uuid : ℕ
  pub query_id : ℕ
  pub expired_at : Option ℕ
  pub processed_at : Option ℕ
  pub processed_lt : Option ℕ
  pub confirmed : Bool
  pub failed : Bool
  pub address : Address
  pub tx_hash : Option (List ℕ)

pub record RequestRow : Type 0 where
  pub query_id : ℕ
  pub bounceable : Bool
  pub processing : Bool
  pub processed : Bool
  pub is_internal : Bool
  pub amount : Coins
  pub user_id : String
  pub user_query_id : String
  pub currency : String
  pub dest_address : Address
  pub comment : String
  pub binary_comment : String

pub record ExternalIncomeRow : Type 0 where
  pub lt : ℕ
  pub utime : ℕ
  pub payer_workchain : Option ℤ
  pub deposit_address : Address
  pub payer_address : List ℕ
  pub amount : Coins
  pub comment : String
  pub tx_hash : List ℕ

pub record BlockRow : Type 0 where
  pub shard : ℕ
  pub seqno : ℕ
  pub gen_utime : ℕ
  pub root_hash : List ℕ
  pub file_hash : List ℕ

pub record InternalWithdrawalRow : Type 0 where
  pub failed : Bool
  pub since_lt : ℕ
  pub sending_lt : Option ℕ
  pub finish_lt : Option ℕ
  pub finished_at : Option ℕ
  pub expired_at : Option ℕ
  pub amount : Coins
  pub from_address : Address
  pub memo : ℕ

pub record ServiceRequestRow : Type 0 where
  pub memo : ℕ
  pub expired_at : Option ℕ
  pub filled : Bool
  pub processed : Bool
  pub ton_amount : Coins
  pub jetton_amount : Coins
  pub from_address : Address
  pub jetton_master : Option Address

-- `next_query_id` is the sequence of the `bigserial` column.
pub record Database : Type 0 where
  pub ton_wallets : List TonWalletRow
  pub jetton_wallets : List JettonWalletRow
  pub internal_incomes : List InternalIncomeRow
  pub external_incomes : List ExternalIncomeRow
  pub internal_withdrawals : List InternalWithdrawalRow
  pub external_withdrawals : List ExternalWithdrawalRow
  pub withdrawal_requests : List RequestRow
  pub service_requests : List ServiceRequestRow
  pub block_data : List BlockRow
  pub next_query_id : ℕ

abbrev pub empty_database : Database
empty_database = record {
  ton_wallets = [];
  jetton_wallets = [];
  internal_incomes = [];
  external_incomes = [];
  internal_withdrawals = [];
  external_withdrawals = [];
  withdrawal_requests = [];
  service_requests = [];
  block_data = [];
  next_query_id = 1;
}
