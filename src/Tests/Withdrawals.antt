-- ===== src/Tests/Withdrawals.antt =====
-- A withdrawal from its request to its outcome, and one that is lost.
use bicycle.Prelude.{ℕ, ◌≡◌, ◌≢◌, ◌≤◌, ◌+◌, refl, true, false, [], ◌∷◌, some, Result, ok, err, find}
use bicycle.Prelude.Int.{pos}
use bicycle.Models.{WithdrawalRequest, WithdrawalData, ExternalWithdrawalTask, ExternalWithdrawal}
use bicycle.Db.Schema.{Database, RequestRow, empty_database}
use bicycle.Db.External.{
  is_request, is_lost, new_request, save_withdrawal_request, create_external_withdrawals,
  create_external_withdrawal, update_external_withdrawal, update_found, set_expired_external,
  get_external_withdrawal_status,
}
use bicycle.Db.External.Counts.{count, is_awaiting, is_settled}
use bicycle.Db.External.Invariant.{IsPending}
use bicycle.Db.External.History.{save, create, update, expiration, Reach, start, next}
use bicycle.Db.External.Safety.{
  is_paid, is_processed, here, after, paid_once, processed_forever, lost_waits_again,
}
use bicycle.Db.External.Status.{StatusAgrees, status_total}
use bicycle.Db.External.History.{ArePending}
use bicycle.Db.Tasks.{insert_task, first_tasks, get_external_withdrawal_tasks}
use bicycle.Db.Tasks.Pending.{get_external_withdrawal_tasks-ArePending}

abbrev request : WithdrawalRequest
request = record {
  query_id = "q1";
  user_id = "alice";
  currency = "TON";
  amount = pos 5;
  bounceable = true;
  is_internal = false;
  destination = 7;
  comment = "";
  binary_comment = "";
}

abbrev task : ExternalWithdrawalTask
task = record {
  query_id = 1;
  currency = "TON";
  amount = pos 5;
  destination = 7;
  bounceable = true;
  comment = "";
  binary_comment = "";
}

abbrev sent : ExternalWithdrawal
sent = record {
  ext_msg_uuid = 40;
  utime = 1010;
  lt = 900;
  to = 7;
  amount = pos 5;
  comment = "";
  is_failed = false;
  tx_hash = 1 ∷ [];
}

abbrev saved_of : Result (ℕ × Database) → Database
saved_of (ok (q, db)) = db
saved_of (err e) = empty_database

abbrev done_of : Result Database → Database
done_of (ok db) = db
done_of (err e) = empty_database

abbrev saved : Database
saved = saved_of (save_withdrawal_request empty_database request)

abbrev created : Database
created = done_of (create_external_withdrawals saved (task ∷ []) 40 1060)

abbrev paid : Database
paid = done_of (update_external_withdrawal created sent)

saved_reached : Reach saved
unfolding save_withdrawal_request
saved_reached = next start (save request 1 refl)

created_reached : Reach created
unfolding save_withdrawal_request create_external_withdrawals create_external_withdrawal
created_reached =
    next saved_reached
      (create (task ∷ []) 40 1060 ((new_request empty_database request, refl, refl), refl, tt) refl)

paid_reached : Reach paid
unfolding save_withdrawal_request create_external_withdrawals create_external_withdrawal
    update_external_withdrawal update_found
paid_reached = next created_reached (update sent refl)

paid_once_example :
    (count is_paid 1 paid.external_withdrawals ≤ 1)
    × (count is_awaiting 1 paid.external_withdrawals + count is_settled 1 paid.external_withdrawals
        ≤ 1)
paid_once_example = paid_once 1 paid_reached

-- The row of the request once it is paid.
abbrev paid_row : RequestRow
paid_row = record (new_request empty_database request) { processing = true; processed = true }

paid_found : find (is_request 1) paid.withdrawal_requests ≡ some paid_row
unfolding save_withdrawal_request create_external_withdrawals create_external_withdrawal
    update_external_withdrawal update_found
paid_found = refl

paid_processed : is_processed (find (is_request 1) paid.withdrawal_requests) ≡ true
unfolding save_withdrawal_request create_external_withdrawals create_external_withdrawal
    update_external_withdrawal update_found
paid_processed = refl

one_lost : count (is_lost 5000) 1 created.external_withdrawals ≢ 0
unfolding save_withdrawal_request create_external_withdrawals create_external_withdrawal
    update_external_withdrawal update_found
one_lost e = cc

status_total_example :
    (d : WithdrawalData) × (get_external_withdrawal_status paid 1 ≡ ok d)
    × StatusAgrees d.status 1 paid.external_withdrawals
status_total_example = status_total 1 {r = paid_row} paid_reached paid_found refl

processed_forever_example :
    (is_processed (find (is_request 1) (set_expired_external paid 5000).withdrawal_requests) ≡ true)
    × (count is_awaiting 1 (set_expired_external paid 5000).external_withdrawals ≡ 0)
processed_forever_example =
    processed_forever 1 paid_reached (after here (expiration 5000 refl)) paid_processed

lost_waits_again_example :
    IsPending (set_expired_external created 5000) 1
    × (count is_awaiting 1 (set_expired_external created 5000).external_withdrawals ≡ 0)
    × (count is_settled 1 (set_expired_external created 5000).external_withdrawals ≡ 0)
lost_waits_again_example = lost_waits_again 5000 1 created_reached one_lost

get_external_withdrawal_tasks-ArePending_example :
    ArePending saved (get_external_withdrawal_tasks saved 250)
get_external_withdrawal_tasks-ArePending_example =
    get_external_withdrawal_tasks-ArePending 250 saved_reached

-- The task of the request that was saved.
one_task : get_external_withdrawal_tasks saved 250 ≡ task ∷ []
unfolding get_external_withdrawal_tasks first_tasks insert_task save_withdrawal_request
one_task = refl
