-- ===== src/Db/External/Safety.antt =====
-- What holds of external withdrawals in every reachable database.
use bicycle.Prelude.{
  ℕ, ◌+◌, ◌≤◌, ◌≢◌, ◌≡◌, refl, contains, Bool, true, false, not, List, [], ◌∷◌, Option, none, some,
  ◌==◌, if◌then◌else◌, find, filter_by, is_some, arith, ok, Option-cases, inl, inr, ok-injective,
  >>=-eq-ok,
}
use bicycle.Models.{ExternalWithdrawalTask, ExternalWithdrawal}
use bicycle.Db.Schema.{Database, RequestRow, ExternalWithdrawalRow}
use bicycle.Db.External.{
  is_request, is_message, is_lost, set_processing, set_processed, expire, query_ids, new_request,
  save_withdrawal_request, create_external_withdrawal, create_external_withdrawals, update_found,
  update_external_withdrawal, apply_jetton_withdrawal_confirmation, set_expired_external,
}
use bicycle.Db.External.Counts.{
  count, is_awaiting, is_settled, find-update_where, find-release_requests, find-append_one,
  contains-query_ids, awaiting-expire, map_option, count-update_where,
}
use bicycle.Db.External.Invariant.{Inv, IsPending}
use bicycle.Db.External.History.{
  Step, save, create, update, confirmation, expiration, other, Reach, next, Reach-Inv,
}

-- Confirmed by a transaction that carried the message out.
abbrev pub is_paid : ExternalWithdrawalRow → Bool
is_paid r = is_some r.processed_lt

count_paid-le :
    (q : ℕ) (rs : List ExternalWithdrawalRow) → count is_paid q rs ≤ count is_settled q rs
count_paid-le q [] = omega arith
count_paid-le q (r ∷ rs) = ground (arith, count_paid-le q rs)

-- In every database that a history reaches (saves of requests, batches of distinct requests that
-- wait, settlements, confirmations and expirations, in any order) a withdrawal request is recorded as
-- paid at most once; and while a message for it is awaited, none has been settled and no second one
-- is awaited.
pub paid_once :
    {db : Database} (q : ℕ)
    → Reach db
    → (count is_paid q db.external_withdrawals ≤ 1)
      × (count is_awaiting q db.external_withdrawals + count is_settled q db.external_withdrawals
          ≤ 1)
paid_once {db} q reach =
    ground (arith, (Reach-Inv reach).consistent q, count_paid-le q db.external_withdrawals)

-- The flag of a request that is found.
abbrev pub is_processed : Option RequestRow → Bool
is_processed none = false
is_processed (some r) = r.processed

create_external_withdrawals-processed :
    (db : Database) (ts : List ExternalWithdrawalTask) (u e q : ℕ) {db' : Database}
    → create_external_withdrawals db ts u e ≡ ok db'
    → is_processed (find (is_request q) db.withdrawal_requests) ≡ true
    → is_processed (find (is_request q) db'.withdrawal_requests) ≡ true
unfolding create_external_withdrawals
create_external_withdrawals-processed db [] u e q h p = rw (ok-injective h) at p
create_external_withdrawals-processed db (t ∷ ts) u e q h p =
    let (mid, first, rest) = >>=-eq-ok (create_external_withdrawal db t u e) _ h in
    create_external_withdrawals-processed mid ts u e q rest (
      unfold create_external_withdrawal in
      ground (
        arith,
        find-update_where (set_processing true) (λ x. refl) q t.query_id db.withdrawal_requests,
      ))

update_found-processed :
    (db : Database) (w : ExternalWithdrawal) (o : Option ExternalWithdrawalRow) (q : ℕ)
    {db' : Database}
    → update_found db w o ≡ ok db'
    → is_processed (find (is_request q) db.withdrawal_requests) ≡ true
    → is_processed (find (is_request q) db'.withdrawal_requests) ≡ true
unfolding update_found
update_found-processed db w none q h p = ground arith
update_found-processed db w (some r) q h p =
    ground (arith, find-update_where set_processed (λ x. refl) q r.query_id db.withdrawal_requests)

set_expired-processed :
    (db : Database) (now q : ℕ)
    → Inv db
    → is_processed (find (is_request q) db.withdrawal_requests) ≡ true
    → is_processed (find (is_request q) (set_expired_external db now).withdrawal_requests) ≡ true
unfolding set_expired_external
set_expired-processed db now q v p = ground (
  arith,
  v.consistent q,
  awaiting-expire now q db.external_withdrawals,
  contains-query_ids now q db.external_withdrawals,
  find-release_requests q (query_ids (filter_by (is_lost now) db.external_withdrawals))
      db.withdrawal_requests,
)

Step-processed :
    {s t : Database} (q : ℕ)
    → Step s t
    → Inv s
    → is_processed (find (is_request q) s.withdrawal_requests) ≡ true
    → is_processed (find (is_request q) t.withdrawal_requests) ≡ true
unfolding save_withdrawal_request update_external_withdrawal apply_jetton_withdrawal_confirmation
Step-processed {s} q (save w k e) v p =
    ground (arith, find-append_one q s.withdrawal_requests (new_request s w))
Step-processed {s} q (create ts u e pend h) v p =
    create_external_withdrawals-processed s ts u e q h p
Step-processed {s} q (update w h) v p =
    update_found-processed s w (find (is_message w.ext_msg_uuid w.to) s.external_withdrawals) q h p
Step-processed {s} q (confirmation c h) v p = ground arith
Step-processed {s} q (expiration now h) v p = rw h at (set_expired-processed s now q v p)
Step-processed q (other (ext, reqs, fresh)) v p = rw reqs p

-- Later states.
pub data Later (s : Database) : Database → Type 0 where
  here : Later s s
  after : {t u : Database} → Later s t → Step t u → Later s u

Later-Reach : {s t : Database} → Reach s → Later s t → Reach t
Later-Reach r here = r
Later-Reach r (after l st) = next (Later-Reach r l) st

Later-processed :
    {s t : Database} (q : ℕ)
    → Reach s
    → Later s t
    → is_processed (find (is_request q) s.withdrawal_requests) ≡ true
    → is_processed (find (is_request q) t.withdrawal_requests) ≡ true
Later-processed q r here p = p
Later-processed q r (after l st) p =
    Step-processed q st (Reach-Inv (Later-Reach r l)) (Later-processed q r l p)

-- Once a request of a reachable database is processed it stays so whatever steps follow, and no message for it is awaited
-- ever again: neither the expiration nor a later batch sends it a second time.
pub processed_forever :
    {s t : Database} (q : ℕ)
    → Reach s
    → Later s t
    → is_processed (find (is_request q) s.withdrawal_requests) ≡ true
    → (is_processed (find (is_request q) t.withdrawal_requests) ≡ true)
      × (count is_awaiting q t.external_withdrawals ≡ 0)
processed_forever {t} q r l p =
    ground (arith, Later-processed q r l p, (Reach-Inv (Later-Reach r l)).consistent q)

-- In a reachable database a request with a lost message waits again after the expiration, with no
-- message awaited or settled; so the next batch may send it.
pub lost_waits_again :
    {db : Database} (now q : ℕ)
    → Reach db
    → count (is_lost now) q db.external_withdrawals ≢ 0
    → let db' = set_expired_external db now in
      IsPending db' q
      × (count is_awaiting q db'.external_withdrawals ≡ 0)
      × (count is_settled q db'.external_withdrawals ≡ 0)
unfolding set_expired_external
lost_waits_again {db} now q reach lost =
    elim (Option-cases (find (is_request q) db.withdrawal_requests)) [
      | inl e ↦
          absurd (ground (arith, v.consistent q, awaiting-expire now q db.external_withdrawals))
      | inr (r, e) ↦ (
        (set_processing false r, ground (arith, released, listed), refl),
        ground (arith, v.consistent q, awaiting-expire now q db.external_withdrawals),
        ground (
          arith,
          v.consistent q,
          awaiting-expire now q db.external_withdrawals,
          count-update_where (is_lost now) expire is_settled (λ x. (refl, refl)) q
              db.external_withdrawals,
        ),
      )
    ]
  where
    v : Inv db
    v = Reach-Inv reach

    listed :
        contains q (query_ids (filter_by (is_lost now) db.external_withdrawals))
        ≡ not (count (is_lost now) q db.external_withdrawals == 0)
    listed = contains-query_ids now q db.external_withdrawals

    released : find (is_request q) (set_expired_external db now).withdrawal_requests ≡ (
        if contains q (query_ids (filter_by (is_lost now) db.external_withdrawals))
        then map_option (set_processing false) (find (is_request q) db.withdrawal_requests)
        else find (is_request q) db.withdrawal_requests)
    released =
        find-release_requests q (query_ids (filter_by (is_lost now) db.external_withdrawals))
          db.withdrawal_requests
