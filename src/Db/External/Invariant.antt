-- ===== src/Db/External/Invariant.antt =====
-- The flags of a withdrawal request say exactly what the messages sent for it have come to, and every
-- statement keeps this so.
use bicycle.Prelude.{
  ℕ, ◌≤◌, ◌≡◌, refl, Bool, true, false, Option, none, some, find, filter_by, arith, ok,
  Option-cases, inl, inr,
}
use bicycle.Models.{
  WithdrawalRequest, ExternalWithdrawalTask, ExternalWithdrawal, JettonWithdrawalConfirmation,
}
use bicycle.Db.Schema.{Database, RequestRow, ExternalWithdrawalRow}
use bicycle.Db.External.{
  new_request, is_request, is_message, is_lost, is_confirmable, set_processing, set_processed,
  expire, confirm, settle, query_ids, save_withdrawal_request, create_external_withdrawal,
  update_found, update_external_withdrawal, apply_jetton_withdrawal_confirmation,
  set_expired_external,
}
use bicycle.Db.External.Counts.{
  is_awaiting, is_settled, count, key_count, find-update_where, find-release_requests,
  find-append_one, key_count_of_none, key_count-update_where, count-update_where, awaiting-expire,
  contains-query_ids, counts-settle,
}

-- The flags `processing` and `processed`, with the rows that are awaited and those that are settled.
abbrev pub Agrees : Bool → Bool → ℕ → ℕ → Type 0
Agrees false false awaiting settled = (awaiting ≡ 0) × (settled ≡ 0)
Agrees true false awaiting settled = (awaiting ≡ 1) × (settled ≡ 0)
Agrees true true awaiting settled = (awaiting ≡ 0) × (settled ≡ 1)
Agrees false true awaiting settled = ⊥

abbrev pub IsConsistent : Option RequestRow → ℕ → ℕ → Type 0
IsConsistent none awaiting settled = (awaiting ≡ 0) × (settled ≡ 0)
IsConsistent (some r) awaiting settled = Agrees r.processing r.processed awaiting settled

pub record Inv (db : Database) : Type 0 where
  pub consistent :
      (q : ℕ)
      → IsConsistent
          (find (is_request q) db.withdrawal_requests)
          (count is_awaiting q db.external_withdrawals)
          (count is_settled q db.external_withdrawals)
  pub unique : (u a : ℕ) → key_count u a db.external_withdrawals ≤ 1
  pub fresh : (q : ℕ) → db.next_query_id ≤ q → find (is_request q) db.withdrawal_requests ≡ none

pub save_withdrawal_request-Inv :
    (db : Database) (w : WithdrawalRequest) {q : ℕ} {db' : Database}
    → save_withdrawal_request db w ≡ ok (q, db')
    → Inv db
    → Inv db'
unfolding save_withdrawal_request
save_withdrawal_request-Inv db w e v = record {
  consistent = λ k. ground (
    arith,
    v.consistent k,
    v.fresh k,
    find-append_one k db.withdrawal_requests (new_request db w),
  );
  unique = λ u a. ground (arith, v.unique u a);
  fresh =
      λ k h. ground (arith, v.fresh k, find-append_one k db.withdrawal_requests (new_request db w));
}

-- The request of the task waits to be sent.
abbrev pub IsPending : Database → ℕ → Type 0
IsPending db q =
    (r : RequestRow) × (find (is_request q) db.withdrawal_requests ≡ some r)
    × (r.processing ≡ false)

pub create_external_withdrawal-Inv :
    (db : Database) (t : ExternalWithdrawalTask) (u e : ℕ) {db' : Database}
    → create_external_withdrawal db t u e ≡ ok db'
    → IsPending db t.query_id
    → Inv db
    → Inv db'
unfolding create_external_withdrawal
create_external_withdrawal-Inv db t u e {db'} h p v = record {
  consistent = λ k. ground (
    arith,
    v.consistent k,
    find-update_where (set_processing true) (λ r. refl) k t.query_id db.withdrawal_requests,
  );
  unique = λ u' a. ground (arith, v.unique u' a, key_count_of_none u' a db.external_withdrawals);
  fresh = λ k g. ground (
    arith,
    v.fresh k,
    find-update_where (set_processing true) (λ r. refl) k t.query_id db.withdrawal_requests,
  );
}

update_found-Inv :
    (db : Database) (w : ExternalWithdrawal) (o : Option ExternalWithdrawalRow) {db' : Database}
    → find (is_message w.ext_msg_uuid w.to) db.external_withdrawals ≡ o
    → update_found db w o ≡ ok db'
    → Inv db
    → Inv db'
unfolding update_found
update_found-Inv db w none e h v = ground arith
update_found-Inv db w (some r) e h v = record {
  consistent = λ k. ground (
    arith,
    v.consistent k,
    v.unique w.ext_msg_uuid w.to,
    counts-settle w k r db.external_withdrawals,
    find-update_where set_processed (λ x. refl) k r.query_id db.withdrawal_requests,
  );
  unique = λ u a. ground (
    arith,
    v.unique u a,
    key_count-update_where (is_message w.ext_msg_uuid w.to) (settle w) (λ x. ground arith) u a
        db.external_withdrawals,
  );
  fresh = λ k g. ground (
    arith,
    v.fresh k,
    find-update_where set_processed (λ x. refl) k r.query_id db.withdrawal_requests,
  );
}

pub update_external_withdrawal-Inv :
    (db : Database) (w : ExternalWithdrawal) {db' : Database}
    → update_external_withdrawal db w ≡ ok db'
    → Inv db
    → Inv db'
unfolding update_external_withdrawal
update_external_withdrawal-Inv db w h v =
    elim (Option-cases (find (is_message w.ext_msg_uuid w.to) db.external_withdrawals)) [
      | inl e ↦ update_found-Inv db w none e (rw e at h) v
      | inr (r, e) ↦ update_found-Inv db w (some r) e (rw e at h) v
    ]

pub apply_jetton_withdrawal_confirmation-Inv :
    (db : Database) (c : JettonWithdrawalConfirmation)
    → Inv db
    → Inv (apply_jetton_withdrawal_confirmation db c)
unfolding apply_jetton_withdrawal_confirmation
apply_jetton_withdrawal_confirmation-Inv db c v = record {
  consistent = λ k. ground (
    arith,
    v.consistent k,
    count-update_where (is_confirmable c.query_id) confirm is_awaiting (λ r. (refl, refl)) k
        db.external_withdrawals,
    count-update_where (is_confirmable c.query_id) confirm is_settled (λ r. (refl, refl)) k
        db.external_withdrawals,
  );
  unique = λ u a. ground (
    arith,
    v.unique u a,
    key_count-update_where (is_confirmable c.query_id) confirm (λ r. (refl, refl)) u a
        db.external_withdrawals,
  );
  fresh = λ k g. v.fresh k g;
}

pub set_expired_external-Inv :
    (db : Database) (now : ℕ) → Inv db → Inv (set_expired_external db now)
unfolding set_expired_external
set_expired_external-Inv db now v = record {
  consistent = λ k. ground (
    arith,
    v.consistent k,
    awaiting-expire now k db.external_withdrawals,
    count-update_where (is_lost now) expire is_settled (λ r. (refl, refl)) k
        db.external_withdrawals,
    contains-query_ids now k db.external_withdrawals,
    find-release_requests k (query_ids (filter_by (is_lost now) db.external_withdrawals))
        db.withdrawal_requests,
  );
  unique = λ u a. ground (
    arith,
    v.unique u a,
    key_count-update_where (is_lost now) expire (λ r. (refl, refl)) u a db.external_withdrawals,
  );
  fresh = λ k g. ground (
    arith,
    v.fresh k g,
    find-release_requests k (query_ids (filter_by (is_lost now) db.external_withdrawals))
        db.withdrawal_requests,
  );
}
