-- ===== src/Db/External/History.antt =====
-- The external withdrawals over any history of the statements that change them: the API that saves
-- requests, the withdrawal processor, the block scanner and the expiration processor, interleaved.
use bicycle.Prelude.{
  ℕ, ◌≢◌, ◌≡◌, refl, true, false, List, [], ◌∷◌, contains, arith, ok, >>=-eq-ok, ok-injective,
}
use bicycle.Models.{
  WithdrawalRequest, ExternalWithdrawalTask, ExternalWithdrawal, JettonWithdrawalConfirmation,
}
use bicycle.Db.Schema.{Database, empty_database}
use bicycle.Db.External.{
  set_processing, save_withdrawal_request, create_external_withdrawal, create_external_withdrawals,
  update_external_withdrawal, apply_jetton_withdrawal_confirmation, set_expired_external,
}
use bicycle.Db.External.Counts.{find-update_where}
use bicycle.Db.External.Invariant.{
  Inv, IsPending, save_withdrawal_request-Inv, create_external_withdrawal-Inv,
  update_external_withdrawal-Inv, apply_jetton_withdrawal_confirmation-Inv,
  set_expired_external-Inv,
}

abbrev pub task_ids : List ExternalWithdrawalTask → List ℕ
task_ids [] = []
task_ids (t ∷ ts) = t.query_id ∷ task_ids ts

-- Every task is of a request that waits, and no two are of the same.
abbrev pub ArePending : Database → List ExternalWithdrawalTask → Type 0
ArePending db [] = Unit
ArePending db (t ∷ ts) =
    IsPending db t.query_id × (contains t.query_id (task_ids ts) ≡ false) × ArePending db ts

create_external_withdrawal-IsPending :
    (db : Database) (t : ExternalWithdrawalTask) (u e q : ℕ) {db' : Database}
    → create_external_withdrawal db t u e ≡ ok db'
    → q ≢ t.query_id
    → IsPending db q
    → IsPending db' q
unfolding create_external_withdrawal
create_external_withdrawal-IsPending db t u e q h ne (r, found, waits) = (
  r,
  ground (
    arith,
    find-update_where (set_processing true) (λ x. refl) q t.query_id db.withdrawal_requests,
  ),
  waits,
)

create_external_withdrawal-ArePending :
    (db : Database) (t : ExternalWithdrawalTask) (u e : ℕ) (ts : List ExternalWithdrawalTask)
    {db' : Database}
    → create_external_withdrawal db t u e ≡ ok db'
    → contains t.query_id (task_ids ts) ≡ false
    → ArePending db ts
    → ArePending db' ts
create_external_withdrawal-ArePending db t u e [] h c p = tt
create_external_withdrawal-ArePending db t u e (s ∷ ts) h c (p, d, ps) = (
  create_external_withdrawal-IsPending db t u e s.query_id h (λ q. ground arith) p,
  d,
  create_external_withdrawal-ArePending db t u e ts h (ground arith) ps,
)

pub create_external_withdrawals-Inv :
    (db : Database) (ts : List ExternalWithdrawalTask) (u e : ℕ) {db' : Database}
    → create_external_withdrawals db ts u e ≡ ok db'
    → ArePending db ts
    → Inv db
    → Inv db'
unfolding create_external_withdrawals
create_external_withdrawals-Inv db [] u e h p v = rw (ok-injective h) at v
create_external_withdrawals-Inv db (t ∷ ts) u e h (p, c, ps) v =
    let (mid, first, rest) = >>=-eq-ok (create_external_withdrawal db t u e) _ h in
    create_external_withdrawals-Inv mid ts u e rest
      (create_external_withdrawal-ArePending db t u e ts first c ps)
      (create_external_withdrawal-Inv db t u e first p v)

-- The tables of external withdrawals are as before.
abbrev pub Unrelated : Database → Database → Type 0
Unrelated s t =
    (t.external_withdrawals ≡ s.external_withdrawals)
    × (t.withdrawal_requests ≡ s.withdrawal_requests)
    × (t.next_query_id ≡ s.next_query_id)

-- One committed statement or transaction.
pub data Step (s t : Database) : Type 0 where
  save : (w : WithdrawalRequest) (q : ℕ) → save_withdrawal_request s w ≡ ok (q, t) → Step s t
  create :
      (ts : List ExternalWithdrawalTask) (u e : ℕ)
      → ArePending s ts
      → create_external_withdrawals s ts u e ≡ ok t
      → Step s t
  update : (w : ExternalWithdrawal) → update_external_withdrawal s w ≡ ok t → Step s t
  confirmation :
      (c : JettonWithdrawalConfirmation) → apply_jetton_withdrawal_confirmation s c ≡ t → Step s t
  expiration : (now : ℕ) → set_expired_external s now ≡ t → Step s t
  -- any statement on other tables
  other : Unrelated s t → Step s t

pub data Reach : Database → Type 0 where
  start : Reach empty_database
  next : {s t : Database} → Reach s → Step s t → Reach t

Inv-empty : Inv empty_database
Inv-empty = record {
  consistent = λ q. ground arith;
  unique = λ u a. ground arith;
  fresh = λ q h. refl;
}

pub Unrelated-Inv : (s t : Database) → Unrelated s t → Inv s → Inv t
Unrelated-Inv s t (ext, reqs, fresh) v = record {
  consistent = λ q. rw (ext, reqs) (v.consistent q);
  unique = λ u a. rw ext (v.unique u a);
  fresh = λ q h. rw reqs (v.fresh q (rw fresh at h));
}

pub Step-Inv : {s t : Database} → Step s t → Inv s → Inv t
Step-Inv {s} (save w q e) v = save_withdrawal_request-Inv s w e v
Step-Inv {s} (create ts u e p h) v = create_external_withdrawals-Inv s ts u e h p v
Step-Inv {s} (update w h) v = update_external_withdrawal-Inv s w h v
Step-Inv {s} (confirmation c h) v = rw h at (apply_jetton_withdrawal_confirmation-Inv s c v)
Step-Inv {s} (expiration now h) v = rw h at (set_expired_external-Inv s now v)
Step-Inv {s} {t} (other u) v = Unrelated-Inv s t u v

pub Reach-Inv : {s : Database} → Reach s → Inv s
Reach-Inv start = Inv-empty
Reach-Inv (next r st) = Step-Inv st (Reach-Inv r)
