-- ===== src/Db/Internal.antt =====
-- db/db.go: the withdrawals from deposits to the hot wallet. `uuid.FromString` of a memo is a
-- parameter: the number of the uuid, if the text is one.
use bicycle.Prelude.{
  ℕ, Bool, true, false, not, ◌&&◌, ◌∷◌, Option, none, some, String, ◌==◌, if◌then◌else◌, is_some,
  find, update_where, Result, ok, err, ◌>>=◌, or_error, bad_memo, no_rows, unique_violation,
  invalid_expiration, invalid_event_order,
}
use bicycle.Prelude.Int.{ℤ, ◌+ℤ◌}
use bicycle.Models.{InternalWithdrawal, InternalWithdrawalTask, SendingConfirmation}
use bicycle.Db.Schema.{Database, InternalWithdrawalRow}
use bicycle.Db.External.{is_before}

-- `WHERE memo = $1`
abbrev pub has_memo : ℕ → InternalWithdrawalRow → Bool
has_memo m r = m == r.memo

-- `SaveInternalWithdrawalTask`; the memo is unique.
unfoldable pub save_internal_withdrawal_task :
    Database → InternalWithdrawalTask → ℕ → ℕ → Result Database
save_internal_withdrawal_task db task expired_at memo =
    if is_some (find (has_memo memo) db.internal_withdrawals)
    then err unique_violation
    else ok (record db { internal_withdrawals = row ∷ db.internal_withdrawals })
  where
    row : InternalWithdrawalRow
    row = record {
      failed = false;
      since_lt = task.lt;
      sending_lt = none;
      finish_lt = none;
      finished_at = none;
      expired_at = some expired_at;
      amount = ℤ.pos 0;
      from_address = task.from;
      memo = memo;
    }

abbrev set_sending : ℕ → InternalWithdrawalRow → InternalWithdrawalRow
set_sending lt r = record r { sending_lt = some lt }

-- `applySendingConfirmations` behind the parsed memo: the row must be there and must not have failed;
-- an error rolls the update back.
unfoldable pub confirm_sending : Database → ℕ → ℕ → Option InternalWithdrawalRow → Result Database
confirm_sending db lt m none = err no_rows
confirm_sending db lt m (some r) =
    if r.failed
    then err invalid_expiration
    else ok (record db {
      internal_withdrawals = update_where (has_memo m) (set_sending lt) db.internal_withdrawals;
    })

abbrev set_internal_failed : InternalWithdrawalRow → InternalWithdrawalRow
set_internal_failed r = record r { failed = true }

abbrev set_finished : InternalWithdrawal → InternalWithdrawalRow → InternalWithdrawalRow
set_finished w r = record r {
  finish_lt = some w.lt;
  finished_at = some w.utime;
  amount = r.amount +ℤ w.amount;
}

-- `updateInternalWithdrawal` behind the parsed memo and the first query. Without a row `sendingLt`
-- stays nil.
unfoldable pub finish_found :
    Database → InternalWithdrawal → ℕ → Option InternalWithdrawalRow → Result Database
finish_found db w m none = err invalid_event_order
finish_found db w m (some r) =
    if r.failed
    then err invalid_expiration
    else if not (is_some r.sending_lt)
    then err invalid_event_order
    else ok (record db {
      internal_withdrawals =
          update_where (has_memo m) (if w.is_failed then set_internal_failed else set_finished w)
            db.internal_withdrawals;
    })

-- `expired_at < $1 AND sending_lt IS NULL AND failed = false`
abbrev pub is_lost_internal : ℕ → InternalWithdrawalRow → Bool
is_lost_internal now r = is_before now r.expired_at && not (is_some r.sending_lt) && not r.failed

-- `SetExpired`, its first statement.
unfoldable pub set_expired_internal : Database → ℕ → Database
set_expired_internal db now = record db {
  internal_withdrawals =
      update_where (is_lost_internal now) set_internal_failed db.internal_withdrawals;
}

module _ (uuid_from_string : String → Option ℕ) where
  -- `applySendingConfirmations`
  unfoldable pub apply_sending_confirmation : Database → SendingConfirmation → Result Database
  unfolding confirm_sending
  apply_sending_confirmation db c = do
    m ← or_error (uuid_from_string c.memo) bad_memo
    confirm_sending db c.lt m (find (has_memo m) db.internal_withdrawals)

  -- `updateInternalWithdrawal`
  unfoldable pub update_internal_withdrawal : Database → InternalWithdrawal → Result Database
  unfolding finish_found
  update_internal_withdrawal db w = do
    m ← or_error (uuid_from_string w.memo) bad_memo
    finish_found db w m (find (has_memo m) db.internal_withdrawals)
