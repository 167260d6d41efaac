-- ===== src/Models/Records.antt =====
-- core/models.go: the wallets, the tasks of the withdrawal processor, and the events that the block
-- scanner finds in a block and the database applies. `Coins` are whole nano units; hashes are bytes; a
-- uuid is a number.
use bicycle.Prelude.{ℕ, Bool, List, [], ◌++◌, Option, String}
use bicycle.Prelude.Int.{ℤ}
use bicycle.Models.Conversions.{Address}

abbrev pub ton_symbol : String
ton_symbol = "TON"

pub data WalletType : Type 0 where
  ton_hot_wallet jetton_hot_wallet ton_deposit_wallet jetton_deposit_wallet jetton_owner :
      WalletType

pub data WithdrawalStatus : Type 0 where
  pending processing processed failed : WithdrawalStatus

-- `decimal.Decimal` with exponent 0, the only ones that `NewCoins` makes.
abbrev pub Coins : Type 0
Coins = ℤ

pub record AddressInfo : Type 0 where
  pub wallet_type : WalletType
  pub owner : Option Address
  pub user_id : String

pub record WalletData : Type 0 where
  pub subwallet_id : ℕ
  pub user_id : String
  pub currency : String
  pub wallet_type : WalletType
  pub address : Address

pub record WithdrawalRequest : Type 0 where
  pub query_id : String
  pub user_id : String
  pub currency : String
  pub amount : Coins
  pub bounceable : Bool
  pub is_internal : Bool
  pub destination : Address
  pub comment : String
  pub binary_comment : String

pub record WithdrawalData : Type 0 where
  pub query_id : String
  pub user_id : String
  pub status : WithdrawalStatus
  pub tx_hash : Option (List ℕ)

pub record ServiceWithdrawalRequest : Type 0 where
  pub from : Address
  pub jetton_master : Option Address

pub record OwnerWallet : Type 0 where
  pub address : Address
  pub currency : String

pub record TotalIncome : Type 0 where
  pub deposit : Address
  pub amount : Coins
  pub currency : String

pub record TotalWithdrawalsAmount : Type 0 where
  pub pending : Coins
  pub processing : Coins

-- `ServiceWithdrawalTask` with the `ServiceWithdrawalRequest` that it embeds.
pub record ServiceWithdrawalTask : Type 0 where
  pub from : Address
  pub jetton_master : Option Address
  pub jetton_amount : Coins
  pub memo : ℕ
  pub subwallet_id : ℕ

pub record ExternalWithdrawalTask : Type 0 where
  pub query_id : ℕ
  pub currency : String
  pub amount : Coins
  pub destination : Address
  pub bounceable : Bool
  pub comment : String
  pub binary_comment : String

pub record InternalWithdrawalTask : Type 0 where
  pub from : Address
  pub subwallet_id : ℕ
  pub lt : ℕ
  pub currency : String

pub record InternalWithdrawal : Type 0 where
  pub utime : ℕ
  pub lt : ℕ
  pub from : Address
  pub amount : Coins
  pub memo : String
  pub is_failed : Bool

pub record SendingConfirmation : Type 0 where
  pub lt : ℕ
  pub from : Address
  pub memo : String

pub record ExternalWithdrawal : Type 0 where
  pub ext_msg_uuid : ℕ
  pub utime : ℕ
  pub lt : ℕ
  pub to : Address
  pub amount : Coins
  pub comment : String
  pub is_failed : Bool
  pub tx_hash : List ℕ

pub record JettonWithdrawalConfirmation : Type 0 where
  pub query_id : ℤ

pub record InternalIncome : Type 0 where
  pub utime : ℕ
  pub lt : ℕ
  pub from : Address
  pub to : Address
  pub amount : Coins
  pub memo : String
  pub is_failed : Bool
  pub tx_hash : List ℕ

pub record ExternalIncome : Type 0 where
  pub utime : ℕ
  pub lt : ℕ
  pub from : List ℕ
  pub from_workchain : Option ℤ
  pub to : Address
  pub amount : Coins
  pub comment : String
  pub tx_hash : List ℕ

pub record Events : Type 0 where
  pub external_incomes : List ExternalIncome
  pub internal_incomes : List InternalIncome
  pub sending_confirmations : List SendingConfirmation
  pub internal_withdrawals : List InternalWithdrawal
  pub external_withdrawals : List ExternalWithdrawal
  pub withdrawal_confirmations : List JettonWithdrawalConfirmation

-- `Events{}`
abbrev pub no_events : Events
no_events = record {
  external_incomes = [];
  internal_incomes = [];
  sending_confirmations = [];
  internal_withdrawals = [];
  external_withdrawals = [];
  withdrawal_confirmations = [];
}

-- `e.Append(ae)`
unfoldable pub append_events : Events → Events → Events
append_events e ae = record {
  external_incomes = e.external_incomes ++ ae.external_incomes;
  internal_incomes = e.internal_incomes ++ ae.internal_incomes;
  sending_confirmations = e.sending_confirmations ++ ae.sending_confirmations;
  internal_withdrawals = e.internal_withdrawals ++ ae.internal_withdrawals;
  external_withdrawals = e.external_withdrawals ++ ae.external_withdrawals;
  withdrawal_confirmations = e.withdrawal_confirmations ++ ae.withdrawal_confirmations;
}

-- `ton.BlockIDExt`
pub record BlockId : Type 0 where
  pub workchain : ℤ
  pub shard : ℕ
  pub seqno : ℕ
  pub root_hash : List ℕ
  pub file_hash : List ℕ

-- `ShardBlockHeader`; `block` is the embedded `BlockIDExt`.
pub record ShardBlockHeader : Type 0 where
  pub block : BlockId
  pub not_master : Bool
  pub gen_utime : ℕ
  pub start_lt : ℕ
  pub end_lt : ℕ
  pub parent : BlockId

pub record BlockEvents : Type 0 where
  pub events : Events
  pub block : ShardBlockHeader
