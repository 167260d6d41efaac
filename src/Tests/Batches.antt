-- ===== src/Tests/Batches.antt =====
-- Batches of the hot wallet: one that is found in a block, and one that is built.
use bicycle.Prelude.{
  ℕ, subst, Bool-cases, inl, inr, ◌≡◌, ◌≤◌, refl, true, false, not, List, [], ◌∷◌, Option, none,
  some, String, str_eq, length, All, Result, ok, err, no_rows, arith,
}
use bicycle.Prelude.Int.{pos, ◌≤ℤ◌, ◌-ℤ◌}
use bicycle.Models.{
  Address, to_tonutils_std, to_bytes, be_bytes, be_value, address_from_bytes, address_from_tonutils,
  Events, no_events, ServiceWithdrawalTask, InternalWithdrawalTask, ExternalWithdrawalTask,
  WithdrawalRequest,
}
use bicycle.Db.Schema.{Database, empty_database}
use bicycle.Db.AddressBook.{get_wallet_type, get_wallet_type_by_tonutils}
use bicycle.Db.External.{save_withdrawal_request}
use bicycle.Scanner.Tlb.{InternalMessage, internal, Transaction}
use bicycle.Scanner.HotWallet.{Batch, batch_out, out_by_type, process_batch}
use bicycle.Scanner.HotWallet.Carried.{is_success, is_carried}
use bicycle.Scanner.HotWallet.Outcomes.{is_reported, is_failure, batch_outcomes}
use bicycle.Processor.Messages.{
  payload_of, make_jetton_transfer_message, build_ton_withdrawal_message,
  build_jetton_withdrawal_message, build_jetton_proxy_withdrawal_message,
}
use bicycle.Processor.Balances.{Balances, decrease_balances, get_hot_wallet_balances}
use bicycle.Processor.Build.{
  Network, Setup, Batch as Built, build_service_withdrawal_message, build_service_ton_withdrawal,
  build_jetton_internal_withdrawal_message, build_external_withdrawal_message, add_service_tasks,
  add_internal_tasks, add_external_tasks, build_withdrawal_messages,
}
use bicycle.Processor.Charges.{spent}
use bicycle.Processor.Solvency.{batch_solvent}
use bicycle.Processor.Bounds.{IsOutside, batch_bounds}
use bicycle.Processor.Cold.{
  Cutoffs, cutoffs_of, is_in_progress, cold_jettons, make_cold_wallet_withdrawals,
}
use bicycle.Processor.Cold.Amounts.{IsColdRequest, cold_requests_positive}
use bicycle.Tests.Blocks.{codec, book}

-- A message to 7, which is in the batch with 8.
abbrev out_message : InternalMessage
out_message = record {
  src_addr = some (to_tonutils_std 1);
  dst_addr = some (to_tonutils_std 7);
  amount = 5;
  created_at = 1000;
  created_lt = 50;
  body = none;
}

abbrev batch_transaction : Transaction
batch_transaction = record {
  hash = 9 ∷ [];
  lt = 49;
  now = 1000;
  in_msg = none;
  out_msg_count = 1;
  out_list = ok (internal out_message ∷ []);
  description = 0;
}

abbrev found : Batch
found = record {
  events = record no_events {
    external_withdrawals =
        record {
          ext_msg_uuid = 40;
          utime = 1000;
          lt = 50;
          to = 7;
          amount = pos 5;
          comment = "";
          is_failed = false;
          tx_hash = 9 ∷ [];
        }
        ∷ [];
  };
  sent = 7 ∷ [];
}

batch_found :
    batch_out codec book 40 batch_transaction
      (internal out_message ∷ [])
      (record { events = no_events; sent = [] })
    ≡ ok found
unfolding batch_out out_by_type get_wallet_type_by_tonutils get_wallet_type address_from_tonutils
    to_tonutils_std to_bytes be_bytes be_value address_from_bytes
batch_found = refl

outside : get_wallet_type book 8 ≡ none
unfolding get_wallet_type
outside = refl

batch_outcomes_example :
    (e : Events) × (process_batch codec book batch_transaction (some (40, 7 ∷ 8 ∷ [])) ≡ ok e)
    × (is_reported 40 8 e.external_withdrawals ≡ true)
    × (is_success 8 e.external_withdrawals ≡ is_carried codec book 8 (internal out_message ∷ []))
    × (is_failure 8 e.external_withdrawals
        ≡ not (is_carried codec book 8 (internal out_message ∷ [])))
batch_outcomes_example =
    batch_outcomes codec book 40 batch_transaction (7 ∷ 8 ∷ []) 8 refl batch_found refl outside

-- The hot wallet 1 has 1 TON, its jetton wallet 2 has 50 jettons; each proxy and deposit has some too.
abbrev net : Network
net = record {
  get_account_current_state = λ a. ok (pos 1000000000, false);
  get_last_jetton_balance = λ a. ok (pos 50);
  get_jetton_wallet_address = λ a m. ok (to_tonutils_std 3);
  new_jetton_proxy = λ s. ok (to_tonutils_std 60);
  new_uuid = λ a. ok a;
  uuid_text = λ u. "memo";
  random_query = λ a. a;
  decode_binary_comment = λ s. err no_rows;
}

abbrev setup : Setup
setup = record {
  ton_hot_wallet = to_tonutils_std 1;
  jetton_hot_wallets = ("JET", to_tonutils_std 2) ∷ [];
  withdrawal_cutoffs = ("JET", pos 10) ∷ [];
  jetton_forward_amount = pos 20000000;
}

abbrev withdraw : ℕ → String → ℕ → Address → ExternalWithdrawalTask
withdraw q c n a = record {
  query_id = q;
  currency = c;
  amount = pos n;
  destination = a;
  bounceable = true;
  comment = "";
  binary_comment = "";
}

-- A withdrawal of TON, two of jettons of which the second is too much, and one to an own address.
abbrev external_tasks : List ExternalWithdrawalTask
external_tasks =
    withdraw 1 "TON" 5 7 ∷ withdraw 2 "JET" 40 8 ∷ withdraw 3 "JET" 20 9 ∷ withdraw 4 "TON" 5 6 ∷ []

abbrev service_tasks : List ServiceWithdrawalTask
service_tasks =
    record { from = 6; jetton_master = none; jetton_amount = pos 0; memo = 1; subwallet_id = 4 }
    ∷ []

abbrev internal_tasks : List Address → List InternalWithdrawalTask
internal_tasks used = record { from = 5; subwallet_id = 4; lt = 1; currency = "JET" } ∷ []

abbrev balances : Balances
balances = ("JET", pos 50) ∷ ("TON", pos 1000000000) ∷ []

abbrev built_of : Result (Built × Database) → Built × Database
built_of (ok p) = p
built_of (err e) = (
  record {
    balances = [];
    used_addresses = [];
    messages = [];
    external = [];
    internal = [];
    service = [];
  },
  empty_database,
)

abbrev built : Built × Database
built = built_of (
    build_withdrawal_messages net setup book 1000 service_tasks internal_tasks external_tasks
      empty_database)

known_balances :
    get_hot_wallet_balances net.get_account_current_state net.get_last_jetton_balance
      setup.ton_hot_wallet setup.jetton_hot_wallets
    ≡ ok balances
unfolding get_hot_wallet_balances
known_balances = refl

is_built :
    build_withdrawal_messages net setup book 1000 service_tasks internal_tasks external_tasks
      empty_database
    ≡ ok (built.0, built.1)
unfolding build_withdrawal_messages get_hot_wallet_balances add_service_tasks add_internal_tasks
    add_external_tasks decrease_balances build_service_withdrawal_message
    build_service_ton_withdrawal build_jetton_internal_withdrawal_message
    build_external_withdrawal_message build_ton_withdrawal_message build_jetton_withdrawal_message
    build_jetton_proxy_withdrawal_message make_jetton_transfer_message payload_of get_wallet_type
    ◌-ℤ◌
is_built = refl

batch_solvent_example : spent "JET" built.0 ≤ℤ pos 50
batch_solvent_example =
    batch_solvent net setup book 1000 service_tasks internal_tasks external_tasks empty_database
      built.1 balances built.0 "JET" (pos 50) known_balances refl (omega arith) is_built

batch_bounds_example :
    (length built.0.messages ≤ 251) × All (IsOutside net setup book) built.0.external
batch_bounds_example =
    batch_bounds net setup book 1000 service_tasks internal_tasks external_tasks empty_database
      built.1 built.0 (omega arith) is_built

abbrev jetton_cutoffs : List (String × Cutoffs)
jetton_cutoffs = ("JET", record { hot_wallet_max = pos 30; hot_wallet_residual = pos 20 }) ∷ []

abbrev ton_cutoffs : Cutoffs
ton_cutoffs = record { hot_wallet_max = pos 500000000; hot_wallet_residual = pos 400000000 }

abbrev AtMost : Option Cutoffs → Type 0
AtMost none = Unit
AtMost (some x) = x.hot_wallet_residual ≤ℤ x.hot_wallet_max

abbrev saved_of : Result (List WithdrawalRequest × Database) → List WithdrawalRequest × Database
saved_of (ok p) = p
saved_of (err e) = ([], empty_database)

residual_below :
    (c : String) (x : Cutoffs)
    → cutoffs_of c jetton_cutoffs ≡ some x
    → x.hot_wallet_residual ≤ℤ x.hot_wallet_max
residual_below c x e = elim (Bool-cases (str_eq c "JET")) [
  | inl same ↦ subst (λ o. AtMost o) (rw same at e) (omega arith)
  | inr other ↦ cc (rw other at e)
]

abbrev uuid_of : String → Result String
uuid_of c = ok c

-- 30 jettons and then TON, both above their cutoffs.
abbrev cold_run : List WithdrawalRequest × Database
cold_run = saved_of (
    make_cold_wallet_withdrawals net setup uuid_of jetton_cutoffs ton_cutoffs
      (some (to_tonutils_std 90, true)) empty_database)

cold_is :
    make_cold_wallet_withdrawals net setup uuid_of jetton_cutoffs ton_cutoffs
      (some (to_tonutils_std 90, true))
      empty_database
    ≡ ok (cold_run.0, cold_run.1)
unfolding make_cold_wallet_withdrawals cold_jettons is_in_progress save_withdrawal_request
    address_from_tonutils to_tonutils_std to_bytes be_bytes be_value address_from_bytes ◌-ℤ◌
cold_is = refl

cold_address : address_from_tonutils (some (to_tonutils_std 90)) ≡ ok 90
unfolding address_from_tonutils to_tonutils_std to_bytes be_bytes be_value address_from_bytes
cold_address = refl

cold_requests_positive_example : All (IsColdRequest 90) cold_run.0
cold_requests_positive_example =
    cold_requests_positive net setup uuid_of jetton_cutoffs ton_cutoffs residual_below
      (to_tonutils_std 90) true 90 empty_database cold_run.1 cold_run.0 (omega arith) cold_address
      cold_is
