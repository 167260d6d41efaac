-- ===== src/Api/Types.antt =====
-- api/handlers.go: the bodies of requests and responses. A response is its status code and the value
-- that is encoded as its JSON body.
use bicycle.Prelude.{ℕ, Bool, List, String, Error}
use bicycle.Models.{Coins, WithdrawalStatus}

-- `WithdrawalRequest` of the package api; an amount with a fraction has no counterpart here.
pub record ApiWithdrawalRequest : Type 0 where
  pub user_id : String
  pub query_id : String
  pub currency : String
  pub amount : Coins
  pub destination : String
  pub comment : String
  pub binary_comment : String

pub record ServiceTonWithdrawalRequest : Type 0 where
  pub from : String

pub record ServiceJettonWithdrawalRequest : Type 0 where
  pub owner : String
  pub jetton_master : String

-- The payload of `getNewAddress`.
pub record NewAddressRequest : Type 0 where
  pub user_id : String
  pub currency : String

pub record WalletAddress : Type 0 where
  pub address : String
  pub currency : String

pub record GetBalanceResponse : Type 0 where
  pub balance : String
  pub status : String
  pub processing_amount : String
  pub pending_amount : String

pub record WithdrawalStatusResponse : Type 0 where
  pub user_id : String
  pub query_id : String
  pub status : WithdrawalStatus
  pub tx_hash : String

-- `totalIncome`
pub record TotalIncomeEntry : Type 0 where
  pub address : String
  pub amount : String
  pub currency : String

-- `income`
pub record IncomeEntry : Type 0 where
  pub deposit_address : String
  pub time : ℕ
  pub source_address : String
  pub amount : String
  pub comment : String
  pub tx_hash : String

pub record GetIncomeResponse : Type 0 where
  pub side : String
  pub total_incomes : List TotalIncomeEntry

pub data Body : Type 0 where
  no_body : Body
  -- `writeHttpError`: a text, or a text that ends with an error
  error_body : String → Body
  wrapped_body : String → Error → Body
  address_body : String → Body
  addresses_body : List WalletAddress → Body
  id_body : ℕ → Body
  sync_body : Bool → ℕ → Body
  status_body : WithdrawalStatusResponse → Body
  income_body : GetIncomeResponse → Body
  history_body : List IncomeEntry → Body
  memo_body : ℕ → Body
  metrics_body : String → Body
  income_by_tx_body : String → IncomeEntry → Body
  balance_body : GetBalanceResponse → Body

pub record Response : Type 0 where
  pub status : ℕ
  pub body : Body

pub record HttpRequest : Type 0 where
  pub method : String
  pub path : String
  pub authorization : String
  -- `req.URL.Query().Get`, "" for a name that is not given
  pub query : String → String
  pub body : String
