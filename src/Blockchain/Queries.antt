-- ===== src/Blockchain/Queries.antt =====
-- blockchain/blockchain.go: balances, account states and the clock of the node. A poll that ends with the deadline of
-- its context is the list of the answers until then.
pub mod Clock
use bicycle.Prelude.{
  ℕ, zero, suc, ◌+◌, ◌-◌, ◌*◌, ◌/◌, ◌≤◌, Bool, true, false, not, ◌&&◌, ◌||◌, List, [], ◌∷◌, Option,
  none, some, String, str_eq, ◌==◌, ltb, if◌then◌else◌, Result, ok, err, ◌>>=◌, Error, error_text,
  wrapped, timeout_exceeded,
}
use bicycle.Prelude.Int.{ℤ, pos, negsuc, ◌-ℤ◌, ltb_ℤ}
use bicycle.Models.{Address, Coins, TonAddress, address_from_tonutils, to_tonutils_std}
use bicycle.Blockchain.Retry.{retry}

-- The first entry of the result of `get_wallet_data`.
pub data StackValue : Type 0 where
  big_int : ℤ → StackValue
  other_value : StackValue

abbrev balance_value : List StackValue → Result Coins
balance_value (big_int n ∷ a ∷ b ∷ c ∷ []) = ok n
balance_value (other_value ∷ a ∷ b ∷ c ∷ []) = err (error_text "invalid balance type")
balance_value _ = err (error_text "invalid stack size")

-- `GetJettonBalance`: `is_not_initialized` is the test of the error's text.
unfoldable pub get_jetton_balance :
    (Error → Bool) → (TonAddress → Result (List StackValue)) → Address → Result Coins
get_jetton_balance is_not_initialized run_get_method address =
    elim (run_get_method (to_tonutils_std address)) [
      | ok stack ↦ balance_value stack
      | err e ↦
          if is_not_initialized e then ok (pos 0) else err (wrapped "get wallet data error: " e)
    ]

-- `GetLastJettonBalance`, with the last block of the masterchain.
unfoldable pub get_last_jetton_balance {ℓ} :
    {Block : Type ℓ}
    → Result Block
    → (Error → Bool)
    → (Block → TonAddress → Result (List StackValue))
    → Option TonAddress
    → Result Coins
unfolding get_jetton_balance
get_last_jetton_balance masterchain_info is_not_initialized run_get_method address = do
  master_id ← masterchain_info
  addr ← address_from_tonutils address
  get_jetton_balance is_not_initialized (run_get_method master_id) addr

pub data AccountStatus : Type 0 where
  active uninit frozen non_exist : AccountStatus

abbrev pub same_status : AccountStatus → AccountStatus → Bool
same_status active active = true
same_status uninit uninit = true
same_status frozen frozen = true
same_status non_exist non_exist = true
same_status _ _ = false

pub record Account : Type 0 where
  pub is_active : Bool
  pub balance : Coins
  pub status : AccountStatus

abbrev state_of : Account → Coins × AccountStatus
state_of a = if not a.is_active then (pos 0, non_exist) else (a.balance, a.status)

-- The loop of `GetAccountCurrentState` over the answers of `GetAccount`.
unfoldable pub poll_account :
    (Error → Bool) → List (Result Account) → Result (Coins × AccountStatus)
poll_account is_not_ready [] = err timeout_exceeded
poll_account is_not_ready (ok a ∷ answers) = ok (state_of a)
poll_account is_not_ready (err e ∷ answers) =
    let rest = poll_account is_not_ready answers in if is_not_ready e then rest else err e

-- `GetAccountCurrentState`
unfoldable pub get_account_current_state {ℓ} :
    {Block : Type ℓ}
    → Result Block
    → (Error → Bool)
    → (Block → List (Result Account))
    → Result (Coins × AccountStatus)
unfolding poll_account
get_account_current_state masterchain_info is_not_ready answers =
    masterchain_info >>= λ master_id. poll_account is_not_ready (answers master_id)

-- `WaitStatus` over the answers of `GetAccountCurrentState`.
unfoldable pub wait_status :
    AccountStatus → List (Result (Coins × AccountStatus)) → Result (Unit {0})
wait_status status [] = err timeout_exceeded
wait_status status (err e ∷ answers) = err e
wait_status status (ok (balance, st) ∷ answers) =
    let rest = wait_status status answers in if same_status st status then ok tt else rest

abbrev is_zero : Coins → Bool
is_zero (pos n) = n == 0
is_zero (negsuc n) = false

-- `DeployTonWallet`: `transfer` is the message of a wallet to itself.
unfoldable pub deploy_ton_wallet :
    Result (Coins × AccountStatus)
    → Result (Unit {0})
    → List (Result (Coins × AccountStatus))
    → Result (Unit {0})
unfolding wait_status
deploy_ton_wallet state transfer answers = do
  (balance, status) ← state
  (if is_zero balance
      then err (error_text "empty balance")
      else if not (same_status status active)
      then (transfer >>= λ _. wait_status active answers)
      else ok tt)

-- Nanoseconds of a time in seconds: `time.Unix`.
abbrev pub unix : ℕ → ℕ
unix t = t * 1000000000

-- The middle of the request, for a clock that does not go back.
abbrev pub mid_time : ℕ → ℕ → ℕ
mid_time prev_time next_time = prev_time + (next_time - prev_time) / 2

-- `CheckTime`: the times before and after the request and the cutoff are nanoseconds, the answers to the calls of
-- `GetTime` seconds.
unfoldable pub check_time : (ℕ → Result ℕ) → ℤ → ℕ → ℕ → ℕ → Result Bool
unfolding retry
check_time get_time max_retries prev_time next_time cutoff = retry get_time 0 max_retries >>= λ t.
    ok (
      not (
        ltb_ℤ (pos cutoff) (pos (mid_time prev_time next_time) -ℤ pos (unix t))
        || ltb_ℤ (pos (mid_time prev_time next_time) -ℤ pos (unix t)) (pos 0 -ℤ pos cutoff)))
