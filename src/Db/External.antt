-- ===== src/Db/External.antt =====
-- db/db.go: the withdrawals from the hot wallet to addresses outside: requests and the messages sent
-- for them. Each function is the statements of the Go function of its name, in their order.
pub mod Counts
pub mod Invariant
pub mod History
pub mod Safety
pub mod Status
use bicycle.Prelude.{
  ℕ, zero, suc, ◌+◌, Bool, true, false, not, ◌&&◌, ◌||◌, List, [], ◌∷◌, ◌++◌, map, Option, none,
  some, String, ltb, ◌==◌, str_eq, if◌then◌else◌, is_some, find, filter_by, update_where, take,
  Result, ok, err, ◌>>=◌, or_error, unique_violation, no_rows, invalid_expiration, anomalous,
  bad_status, not_found,
}
use bicycle.Prelude.Int.{ℤ}
use bicycle.Models.{
  Address, WithdrawalRequest, WithdrawalData, WithdrawalStatus, ExternalWithdrawalTask,
  ExternalWithdrawal, JettonWithdrawalConfirmation,
}
use bicycle.Db.Schema.{Database, RequestRow, ExternalWithdrawalRow}

-- `config.AllowableBlockchainLagging`, in seconds.
abbrev pub allowable_blockchain_lagging : ℕ
allowable_blockchain_lagging = 40

-- `WHERE query_id = $1`
abbrev pub is_request : ℕ → RequestRow → Bool
is_request q r = q == r.query_id

-- `WHERE msg_uuid = $1 AND address = $2`
abbrev pub is_message : ℕ → Address → ExternalWithdrawalRow → Bool
is_message u a r = u == r.msg_uuid && a == r.address

-- `unique (user_id, user_query_id, is_internal)`
abbrev pub same_user_query : WithdrawalRequest → RequestRow → Bool
same_user_query w r =
    str_eq w.user_id r.user_id
    && str_eq w.query_id r.user_query_id
    && (if w.is_internal then r.is_internal else not r.is_internal)

-- The row that `SaveWithdrawalRequest` inserts: the flags have their defaults.
abbrev pub new_request : Database → WithdrawalRequest → RequestRow
new_request db w = record {
  query_id = db.next_query_id;
  bounceable = w.bounceable;
  processing = false;
  processed = false;
  is_internal = w.is_internal;
  amount = w.amount;
  user_id = w.user_id;
  user_query_id = w.query_id;
  currency = w.currency;
  dest_address = w.destination;
  comment = w.comment;
  binary_comment = w.binary_comment;
}

-- `SaveWithdrawalRequest`: the database assigns the query id.
unfoldable pub save_withdrawal_request : Database → WithdrawalRequest → Result (ℕ × Database)
save_withdrawal_request db w =
    if is_some (find (same_user_query w) db.withdrawal_requests)
    then err unique_violation
    else ok (
      db.next_query_id,
      record db {
        withdrawal_requests = db.withdrawal_requests ++ new_request db w ∷ [];
        next_query_id = suc db.next_query_id;
      },
    )

-- `IsWithdrawalRequestUnique`
unfoldable pub is_withdrawal_request_unique : Database → WithdrawalRequest → Bool
is_withdrawal_request_unique db w = not (
    is_some (
      find
        (λ r. str_eq w.user_id r.user_id && str_eq w.query_id r.user_query_id && not r.is_internal)
        db.withdrawal_requests))

abbrev pub set_processing : Bool → RequestRow → RequestRow
set_processing b r = record r { processing = b }

abbrev pub set_processed : RequestRow → RequestRow
set_processed r = record r { processed = true }

-- One round of the loop of `CreateExternalWithdrawals`.
unfoldable pub create_external_withdrawal :
    Database → ExternalWithdrawalTask → ℕ → ℕ → Result Database
create_external_withdrawal db t ext_msg_uuid expired_at =
    if is_some (find (is_message ext_msg_uuid t.destination) db.external_withdrawals)
    then err unique_violation
    else ok (record db {
      external_withdrawals = row ∷ db.external_withdrawals;
      withdrawal_requests =
          update_where (is_request t.query_id) (set_processing true) db.withdrawal_requests;
    })
  where
    row : ExternalWithdrawalRow
    row = record {
      msg_uuid = ext_msg_uuid;
      query_id = t.query_id;
      expired_at = some expired_at;
      processed_at = none;
      processed_lt = none;
      confirmed = false;
      failed = false;
      address = t.destination;
      tx_hash = none;
    }

-- `CreateExternalWithdrawals`: one transaction, so an error leaves the caller's database as it was.
unfoldable pub create_external_withdrawals :
    Database → List ExternalWithdrawalTask → ℕ → ℕ → Result Database
unfolding create_external_withdrawal
create_external_withdrawals db [] ext_msg_uuid expired_at = ok db
create_external_withdrawals db (t ∷ tasks) ext_msg_uuid expired_at =
    create_external_withdrawal db t ext_msg_uuid expired_at >>= λ db'.
    create_external_withdrawals db' tasks ext_msg_uuid expired_at

abbrev set_failed : List ℕ → ExternalWithdrawalRow → ExternalWithdrawalRow
set_failed tx_hash r = record r { failed = true; tx_hash = some tx_hash }

abbrev set_settled : ExternalWithdrawal → ExternalWithdrawalRow → ExternalWithdrawalRow
set_settled w r = record r {
  processed_lt = some w.lt;
  processed_at = some w.utime;
  tx_hash = some w.tx_hash;
}

-- What `updateExternalWithdrawal` sets in the rows of the message.
abbrev settle : ExternalWithdrawal → ExternalWithdrawalRow → ExternalWithdrawalRow
settle w r = if w.is_failed then set_failed w.tx_hash r else set_settled w r

-- `updateExternalWithdrawal`, given the row that its first query finds. The error of a missing row is
-- that of the `UPDATE ... RETURNING` behind it.
unfoldable pub update_found :
    Database → ExternalWithdrawal → Option ExternalWithdrawalRow → Result Database
update_found db w none = if w.is_failed then err no_rows else err anomalous
update_found db w (some r) =
    if r.failed
    then err invalid_expiration
    else ok (record db {
      external_withdrawals =
          update_where (is_message w.ext_msg_uuid w.to) (settle w) db.external_withdrawals;
      withdrawal_requests =
          update_where (is_request r.query_id) set_processed db.withdrawal_requests;
    })

-- `updateExternalWithdrawal`
unfoldable pub update_external_withdrawal : Database → ExternalWithdrawal → Result Database
unfolding update_found
update_external_withdrawal db w =
    update_found db w (find (is_message w.ext_msg_uuid w.to) db.external_withdrawals)

abbrev confirm : ExternalWithdrawalRow → ExternalWithdrawalRow
confirm r = record r { confirmed = true }

-- `WHERE query_id = $1 AND processed_lt IS NOT NULL`; the id is an int64.
abbrev is_confirmable : ℤ → ExternalWithdrawalRow → Bool
is_confirmable (ℤ.pos q) r = q == r.query_id && is_some r.processed_lt
is_confirmable (ℤ.negsuc _) r = false

-- `applyJettonWithdrawalConfirmation`
unfoldable pub apply_jetton_withdrawal_confirmation :
    Database → JettonWithdrawalConfirmation → Database
apply_jetton_withdrawal_confirmation db c = record db {
  external_withdrawals = update_where (is_confirmable c.query_id) confirm db.external_withdrawals;
}

-- `expired_at < $1` with `$1` the time `now` less the allowed lag; a NULL is never smaller.
abbrev pub is_before : ℕ → Option ℕ → Bool
is_before now none = false
is_before now (some t) = ltb (t + allowable_blockchain_lagging) now

-- `expired_at < $1 AND processed_lt IS NULL AND failed = false`
abbrev pub is_lost : ℕ → ExternalWithdrawalRow → Bool
is_lost now r = is_before now r.expired_at && not (is_some r.processed_lt) && not r.failed

abbrev expire : ExternalWithdrawalRow → ExternalWithdrawalRow
expire r = record r { failed = true }

abbrev pub query_ids : List ExternalWithdrawalRow → List ℕ
query_ids [] = []
query_ids (r ∷ rs) = r.query_id ∷ query_ids rs

-- The loop over the returned ids.
unfoldable pub release_requests : List ℕ → List RequestRow → List RequestRow
release_requests [] rs = rs
release_requests (q ∷ qs) rs =
    release_requests qs (update_where (is_request q) (set_processing false) rs)

-- `SetExpired`, its transaction over the external withdrawals.
unfoldable pub set_expired_external : Database → ℕ → Database
unfolding release_requests
set_expired_external db now = record db {
  external_withdrawals = update_where (is_lost now) expire db.external_withdrawals;
  withdrawal_requests =
      release_requests (query_ids (filter_by (is_lost now) db.external_withdrawals))
        db.withdrawal_requests;
}

-- The second query of `GetExternalWithdrawalStatus`.
abbrev pub has_outcome : ℕ → ExternalWithdrawalRow → Bool
has_outcome q r = q == r.query_id && (is_some r.tx_hash || is_some r.processed_lt)

abbrev status_of : RequestRow → WithdrawalStatus → Option (List ℕ) → WithdrawalData
status_of r s tx_hash = record {
  query_id = r.user_query_id;
  user_id = r.user_id;
  status = s;
  tx_hash = tx_hash;
}

-- The status of a request whose flags are both set, from the row of its message.
unfoldable pub settled_status : RequestRow → Option ExternalWithdrawalRow → Result WithdrawalData
settled_status r none = err no_rows
settled_status r (some e) = ok (
    status_of r (if e.failed then WithdrawalStatus.failed else WithdrawalStatus.processed)
      e.tx_hash)

-- The tests of `GetExternalWithdrawalStatus`, in the order of the source.
unfoldable pub request_status : Database → RequestRow → Result WithdrawalData
unfolding settled_status
request_status db r =
    if r.processing && r.processed
    then settled_status r (find (has_outcome r.query_id) db.external_withdrawals)
    else if r.processing && not r.processed
    then ok (status_of r WithdrawalStatus.processing none)
    else if not r.processing && not r.processed
    then ok (status_of r WithdrawalStatus.pending none)
    else err bad_status

-- `GetExternalWithdrawalStatus`; internal withdrawals are not shown.
unfoldable pub get_external_withdrawal_status : Database → ℕ → Result WithdrawalData
unfolding request_status
get_external_withdrawal_status db id =
    or_error (find (λ r. id == r.query_id && not r.is_internal) db.withdrawal_requests) not_found
    >>= request_status db
