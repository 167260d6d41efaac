-- ===== src/Tests/Requests.antt =====
-- A withdrawal and a deposit address over the API, and the service that serves them.
use bicycle.Prelude.{
  ℕ, suc, ◌≤◌, ◌+◌, ◌≡◌, ◌⊎◌, refl, true, false, [], some, String, Result, ok, err, not_found,
  arith,
}
use bicycle.Prelude.Int.{pos}
use bicycle.Models.{
  to_tonutils_std, to_bytes, be_bytes, be_value, address_from_bytes, address_from_tonutils,
  ton_deposit_wallet, WithdrawalStatus,
}
use bicycle.Db.Schema.{Database, empty_database}
use bicycle.Db.AddressBook.{get_wallet_type}
use bicycle.Db.External.{save_withdrawal_request, is_withdrawal_request_unique}
use bicycle.Db.External.Counts.{count, is_awaiting, is_settled}
use bicycle.Db.External.History.{Reach, start, Reach-Inv}
use bicycle.Db.External.Safety.{is_paid}
use bicycle.Db.Wallets.{max_subwallet, get_last_subwallet_id}
use bicycle.Api.Types.{
  ApiWithdrawalRequest, HttpRequest, Response, id_body, status_body, address_body,
}
use bicycle.Api.Middleware.{respond, check_token, split_spaces, split_from}
use bicycle.Api.Context.{Library, ApiConfig, Blockchain, is_valid_currency}
use bicycle.Api.Convert.{convert_withdrawal, validate_address, is_valid_comment_len, to_user_format}
use bicycle.Api.Postgres.{Store, postgres}
use bicycle.Api.Withdrawals.{send_withdrawal, get_withdrawal_status}
use bicycle.Api.Withdrawals.Accepted.{IsAccepted, IsRefused, send_withdrawal_total}
use bicycle.Api.Withdrawals.Repeated.{sent_is_pending, not_accepted_twice}
use bicycle.Api.Addresses.{get_new_address}
use bicycle.Api.Addresses.Fresh.{new_ton_address_saved}
use bicycle.Api.Routes.{serve}
use bicycle.Api.Routes.Guards.{IsTurnedAway, unauthorized_refused, only_post_writes}
use bicycle.Processor.Round.{expiration_round}
use bicycle.System.Runs.{Runs, request, expiration, begin, act, Runs-Reach, service_pays_once}

abbrev body : ApiWithdrawalRequest
body = record {
  user_id = "alice";
  query_id = "q1";
  currency = "TON";
  amount = pos 5;
  destination = "EQ7";
  comment = "";
  binary_comment = "";
}

-- One body and one address, whatever the texts are.
abbrev lib : Library
lib = record {
  decode_withdrawal = λ s. ok body;
  decode_service_ton = λ s. err not_found;
  decode_service_jetton = λ s. err not_found;
  decode_new_address = λ s. ok (record { user_id = "alice"; currency = "TON" });
  parse_addr =
      λ s. ok (record { addr = to_tonutils_std 7; testnet_only = false; bounceable = true });
  new_address =
      λ w bytes. record { addr = to_tonutils_std 7; testnet_only = false; bounceable = true };
  print_address = λ a testnet bounce. "EQ7";
  bit_string_from_fift_hex = λ s. ok tt;
  coins_text = λ c. "5";
  parse_int = λ s. ok (pos 1);
  decode_hex = λ s. ok [];
  print_hex = λ s. "";
  to_lower = λ s. s;
}

abbrev config : ApiConfig
config = record {
  testnet = false;
  api_token = "secret";
  is_deposit_side = true;
  jettons = [];
  shard = 0;
  hot_wallet = to_tonutils_std 5;
}

abbrev bc : Blockchain
bc = record {
  generate_sub_wallet = λ shard start_id. ok (some (to_tonutils_std 9), suc start_id);
  generate_deposit_jetton_wallet_for_proxy = λ shard hot master start_id. err not_found;
  get_account_current_state = λ a. ok (pos 0, "active");
  get_jetton_balance_by_owner = λ a m. ok (pos 0);
  dns_resolve_smc = λ domain. err not_found;
}

abbrev memo_of : Database → ℕ
memo_of db = 70

abbrev http : String → String → String → HttpRequest
http method path authorization = record {
  method = method;
  path = path;
  authorization = authorization;
  query = λ name. "1";
  body = "{}";
}

abbrev post_withdrawal : HttpRequest
post_withdrawal = http "POST" "/v1/withdrawal/send" "Bearer secret"

abbrev no_data : Store
no_data = (empty_database, [])

abbrev sent : Store × Result Response
sent = send_withdrawal lib config (postgres 698 memo_of 1000) post_withdrawal no_data

sent_is_saved : sent ≡ (sent.0, ok (respond 200 (id_body 1)))
unfolding send_withdrawal convert_withdrawal is_valid_currency validate_address is_valid_comment_len
    address_from_tonutils to_tonutils_std to_bytes be_bytes be_value address_from_bytes
    is_withdrawal_request_unique get_wallet_type save_withdrawal_request
sent_is_saved = refl

send_withdrawal_total_example :
    IsAccepted lib config post_withdrawal no_data sent ⊎ IsRefused no_data sent
send_withdrawal_total_example =
    send_withdrawal_total lib config 698 memo_of 1000 post_withdrawal no_data

sent_is_pending_example :
    (b : ApiWithdrawalRequest) × (lib.decode_withdrawal "{}" ≡ ok b)
    × (get_withdrawal_status lib config
          (postgres 698 memo_of 1010)
          (http "GET" "/v1/withdrawal/status" "Bearer secret")
          sent.0
        ≡ (
          sent.0,
          ok (
              respond 200 (
                status_body (record {
                  user_id = b.user_id;
                  query_id = b.query_id;
                  status = WithdrawalStatus.pending;
                  tx_hash = "";
                }))),
        ))
sent_is_pending_example =
    sent_is_pending lib config 698 memo_of 1000 1010 post_withdrawal
      (http "GET" "/v1/withdrawal/status" "Bearer secret") no_data (Reach-Inv start) sent_is_saved
      refl refl

not_accepted_twice_example :
    IsRefused sent.0 (send_withdrawal lib config (postgres 698 memo_of 1020) post_withdrawal sent.0)
not_accepted_twice_example =
    not_accepted_twice lib config 698 memo_of 1000 1020 post_withdrawal post_withdrawal no_data body
      body sent_is_saved refl refl refl refl

abbrev no_token : HttpRequest
no_token = http "POST" "/v1/withdrawal/send" "Bearer guess"

is_no_token : check_token no_token "secret" ≡ false
unfolding check_token split_spaces split_from
is_no_token = refl

unauthorized_refused_example :
    IsTurnedAway no_data (serve lib config (postgres 698 memo_of 1000) bc [] no_token no_data)
unauthorized_refused_example =
    unauthorized_refused lib config (postgres 698 memo_of 1000) bc [] no_token no_data is_no_token
      refl refl

only_post_writes_example :
    (serve lib config
      (postgres 698 memo_of 1000)
      bc
      []
      (http "PUT" "/v1/withdrawal/send" "Bearer secret")
      no_data).0
    ≡ no_data
only_post_writes_example =
    only_post_writes lib config (postgres 698 memo_of 1000) bc []
      (http "PUT" "/v1/withdrawal/send" "Bearer secret") no_data refl

last_is_default : get_last_subwallet_id 698 empty_database ≡ 698
unfolding get_last_subwallet_id max_subwallet
last_is_default = refl

abbrev new_address : HttpRequest
new_address = http "POST" "/v1/address/new" "Bearer secret"

nine_is_std : address_from_tonutils (some (to_tonutils_std 9)) ≡ ok 9
unfolding address_from_tonutils to_tonutils_std to_bytes be_bytes be_value address_from_bytes
nine_is_std = refl

new_ton_address_saved_example :
    (s' : Store) × (get_new_address lib config (postgres 698 memo_of 1000) bc new_address no_data
      ≡ (s', ok (respond 200 (address_body (to_user_format lib config 9)))))
    × (get_wallet_type s'.1 9 ≡ some ton_deposit_wallet)
    × (get_last_subwallet_id 698 s'.0 ≡ 700)
unfolding get_last_subwallet_id max_subwallet
new_ton_address_saved_example =
    new_ton_address_saved lib config 698 memo_of 1000 bc new_address no_data
      (record { user_id = "alice"; currency = "TON" }) (some (to_tonutils_std 9)) 700 9 refl refl
      (omega arith) refl (omega arith) nine_is_std

-- A withdrawal is requested, and messages expire.
abbrev served : Store
served = (serve lib config (postgres 698 memo_of 1000) bc [] post_withdrawal no_data).0

abbrev expired : Store
expired = (expiration_round 1100 served.0, served.1)

expired_run : Runs expired
expired_run =
    act (act (begin []) (request lib config 698 memo_of 1000 bc [] post_withdrawal refl))
      (expiration 1100 refl)

Runs-Reach_example : Reach expired.0
Runs-Reach_example = Runs-Reach expired_run

service_pays_once_example :
    (count is_paid 1 expired.0.external_withdrawals ≤ 1)
    × (count is_awaiting 1 expired.0.external_withdrawals
          + count is_settled 1 expired.0.external_withdrawals
        ≤ 1)
service_pays_once_example = service_pays_once 1 expired_run
