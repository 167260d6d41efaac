-- ===== src/Api/Withdrawals.antt =====
-- api/handlers.go: the handlers of withdrawals and of the synchronisation state.
pub mod Accepted
pub mod Repeated
use bicycle.Prelude.{
  ℕ, List, Bool, true, false, not, Option, none, some, String, str_eq, is_some, Result, ok, err,
  Error, not_found,
}
use bicycle.Models.{WithdrawalData}
use bicycle.Api.Types.{
  id_body, memo_body, sync_body, status_body, WithdrawalStatusResponse, HttpRequest, Response,
}
use bicycle.Api.Middleware.{Handler, write_http_error, write_http_error_of}
use bicycle.Api.Attempt.{Attempt, stop, go, ◌>>=◌, or_stop, require, answer, respond_saved, report}
use bicycle.Api.Context.{Storage, Library, ApiConfig}
use bicycle.Api.Convert.{
  convert_withdrawal, convert_ton_service_withdrawal, convert_jetton_service_withdrawal,
}

-- The answer to a request for a status that is not found, or not read.
abbrev or_not_found : Result WithdrawalData → Attempt WithdrawalData
or_not_found (ok d) = go d
or_not_found (err not_found) = stop (write_http_error 400 "request ID not found")
or_not_found (err e) = stop (write_http_error_of 500 "get external withdrawal status err: " e)

module _ (lib : Library) (config : ApiConfig) {S : Type 0} (storage : Storage S) where
  -- `sendWithdrawal`
  unfoldable pub send_withdrawal : Handler S
  unfolding convert_withdrawal
  send_withdrawal req s = answer s do
    body ← or_stop 400 "decode payload err: " (lib.decode_withdrawal req.body)
    w ← or_stop 400 "convert withdrawal err: " (convert_withdrawal lib config body)
    unique ←
        or_stop 500 "check withdrawal uniquess err: " (storage.is_withdrawal_request_unique w s)
    _ ← require unique 400 "(user_id,query_id) not unique"
    _ ←
        require (not (is_some (storage.get_wallet_type w.destination s))) 400
          "withdrawal to service internal addresses not supported"
    respond_saved "save withdrawal request err: " id_body (storage.save_withdrawal_request w s)

  -- `getSync`
  unfoldable pub get_sync : Handler S
  unfolding report
  get_sync req s = report s do
    (is_synced, utime) ← or_stop 500 "get sync from db err: " (storage.is_actual_block_data s)
    go (sync_body is_synced utime)

  -- `res.TxHash`
  abbrev shown_hash : Option (List ℕ) → String
  shown_hash none = ""
  shown_hash (some tx_hash) = lib.print_hex tx_hash

  abbrev pub status_response : WithdrawalData → WithdrawalStatusResponse
  status_response d = record {
    user_id = d.user_id;
    query_id = d.query_id;
    status = d.status;
    tx_hash = shown_hash d.tx_hash;
  }

  -- `getWithdrawalStatus`
  unfoldable pub get_withdrawal_status : Handler S
  unfolding report
  get_withdrawal_status req s = report s do
    _ ← require (not (str_eq (req.query "id") "")) 400 "need to provide request ID"
    id ← or_stop 400 "convert request ID err: " (lib.parse_int (req.query "id"))
    d ← or_not_found (storage.get_external_withdrawal_status id s)
    go (status_body (status_response d))

  -- `serviceTonWithdrawal`
  unfoldable pub service_ton_withdrawal : Handler S
  unfolding convert_ton_service_withdrawal
  service_ton_withdrawal req s = answer s do
    body ← or_stop 400 "decode payload err: " (lib.decode_service_ton req.body)
    w ←
        or_stop 400 "convert service withdrawal err: "
          (convert_ton_service_withdrawal lib config storage s body)
    respond_saved "save service withdrawal request err: " memo_body
        (storage.save_service_withdrawal_request w s)

  -- `serviceJettonWithdrawal`
  unfoldable pub service_jetton_withdrawal : Handler S
  unfolding convert_jetton_service_withdrawal
  service_jetton_withdrawal req s = answer s do
    body ← or_stop 400 "decode payload err: " (lib.decode_service_jetton req.body)
    w ←
        or_stop 400 "convert service withdrawal err: "
          (convert_jetton_service_withdrawal lib config storage s body)
    respond_saved "save service withdrawal request err: " memo_body
        (storage.save_service_withdrawal_request w s)
