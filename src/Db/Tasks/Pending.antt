-- ===== src/Db/Tasks/Pending.antt =====
-- No two requests of a history have one id, so a batch is of distinct requests that wait.
use bicycle.Prelude.{
  ℕ, ◌≡◌, ◌≢◌, refl, sym, ap, ◌∙◌, subst, is_some, filter_by, Bool, true, false, List, [], ◌∷◌,
  ◌++◌, Option, none, some, contains, find, update_where, Bool-cases, inl, inr, arith, ok,
  >>=-eq-ok, ok-injective,
}
use bicycle.Models.{ExternalWithdrawalTask, ExternalWithdrawal}
use bicycle.Db.Schema.{Database, RequestRow, ExternalWithdrawalRow}
use bicycle.Db.External.{
  same_user_query, is_request, is_message, is_lost, query_ids, new_request, set_processing,
  set_processed, release_requests, save_withdrawal_request, create_external_withdrawals,
  create_external_withdrawal, update_external_withdrawal, update_found,
  apply_jetton_withdrawal_confirmation, set_expired_external,
}
use bicycle.Db.External.Invariant.{Inv}
use bicycle.Db.External.History.{
  ArePending, Step, save, create, update, confirmation, expiration, other, Reach, start, next,
  Reach-Inv,
}
use bicycle.Db.Tasks.{first_tasks, get_external_withdrawal_tasks}
use bicycle.Db.Tasks.Waiting.{
  row_ids, AreDistinct, first_tasks-AreDistinct, first_tasks-AreWaiting, take-ArePending,
}

-- No update touches the ids.
row_ids-update_where :
    (p : RequestRow → Bool) (f : RequestRow → RequestRow)
    (keeps : (r : RequestRow) → (f r).query_id ≡ r.query_id) (rs : List RequestRow)
    → row_ids (update_where p f rs) ≡ row_ids rs
row_ids-update_where p f keeps [] = refl
row_ids-update_where p f keeps (r ∷ rs) = elim (Bool-cases (p r)) [
  | inl y ↦ rw (y, keeps r, row_ids-update_where p f keeps rs) refl
  | inr n ↦ rw (n, row_ids-update_where p f keeps rs) refl
]

row_ids-release_requests :
    (qs : List ℕ) (rs : List RequestRow) → row_ids (release_requests qs rs) ≡ row_ids rs
unfolding release_requests
row_ids-release_requests [] rs = refl
row_ids-release_requests (q ∷ qs) rs =
    row_ids-release_requests qs (update_where (is_request q) (set_processing false) rs)
    ∙ row_ids-update_where (is_request q) (set_processing false) (λ r. refl) rs

row_ids-create_external_withdrawals :
    (db : Database) (ts : List ExternalWithdrawalTask) (u e : ℕ) {db' : Database}
    → create_external_withdrawals db ts u e ≡ ok db'
    → row_ids db'.withdrawal_requests ≡ row_ids db.withdrawal_requests
unfolding create_external_withdrawals create_external_withdrawal
row_ids-create_external_withdrawals db [] u e h =
    ap (λ d. row_ids d.withdrawal_requests) (sym (ok-injective h))
row_ids-create_external_withdrawals db (t ∷ ts) u e h =
    let (mid, first, rest) = >>=-eq-ok (create_external_withdrawal db t u e) _ h in
    row_ids-create_external_withdrawals mid ts u e rest ∙ one mid first
  where
    one :
        (mid : Database)
        → create_external_withdrawal db t u e ≡ ok mid
        → row_ids mid.withdrawal_requests ≡ row_ids db.withdrawal_requests
    one mid k =
        elim (Bool-cases (is_some (find (is_message u t.destination) db.external_withdrawals))) [
          | inl y ↦ cc (rw y at k)
          | inr n ↦
              ap (λ d. row_ids d.withdrawal_requests) (sym (ok-injective (rw n at k)))
              ∙ row_ids-update_where (is_request t.query_id) (set_processing true) (λ r. refl)
                  db.withdrawal_requests
        ]

row_ids-update_found :
    (db : Database) (w : ExternalWithdrawal) (o : Option ExternalWithdrawalRow) {db' : Database}
    → update_found db w o ≡ ok db'
    → row_ids db'.withdrawal_requests ≡ row_ids db.withdrawal_requests
unfolding update_found
row_ids-update_found db w none h = elim (Bool-cases w.is_failed) [
  | inl y ↦ cc (rw y at h)
  | inr n ↦ cc (rw n at h)
]
row_ids-update_found db w (some r) h = elim (Bool-cases r.failed) [
  | inl y ↦ cc (rw y at h)
  | inr n ↦
      ap (λ d. row_ids d.withdrawal_requests) (sym (ok-injective (rw n at h)))
      ∙ row_ids-update_where (is_request r.query_id) set_processed (λ x. refl)
          db.withdrawal_requests
]

contains-append_one :
    (q : ℕ) (r : RequestRow) (xs : List RequestRow)
    → q ≢ r.query_id
    → contains q (row_ids xs) ≡ false
    → contains q (row_ids (xs ++ r ∷ [])) ≡ false
contains-append_one q r [] n h = ground arith
contains-append_one q r (y ∷ ys) n h =
    ground (arith, λ (k : contains q (row_ids ys) ≡ false). contains-append_one q r ys n k)

head_differs :
    (x r : RequestRow) (xs : List RequestRow)
    → find (is_request r.query_id) (x ∷ xs) ≡ none
    → r.query_id ≢ x.query_id
head_differs x r xs h e = ground arith

append-AreDistinct :
    (rs : List RequestRow) (r : RequestRow)
    → find (is_request r.query_id) rs ≡ none
    → AreDistinct (row_ids rs)
    → AreDistinct (row_ids (rs ++ r ∷ []))
append-AreDistinct [] r h d = (refl, tt)
append-AreDistinct (x ∷ xs) r h (n, d) = (
  contains-append_one x.query_id r xs (λ e. head_differs x r xs h (sym e)) n,
  append-AreDistinct xs r (ground arith) d,
)

Step-AreDistinct :
    {s t : Database}
    → Step s t
    → Inv s
    → AreDistinct (row_ids s.withdrawal_requests)
    → AreDistinct (row_ids t.withdrawal_requests)
unfolding save_withdrawal_request update_external_withdrawal apply_jetton_withdrawal_confirmation
    set_expired_external
Step-AreDistinct {s} (save w q e) v d =
    elim (Bool-cases (is_some (find (same_user_query w) s.withdrawal_requests))) [
      | inl y ↦ cc (rw y at e)
      | inr n ↦
          subst (λ (x : ℕ × Database). AreDistinct (row_ids x.1.withdrawal_requests))
            (ok-injective (rw n at e))
            (append-AreDistinct s.withdrawal_requests (new_request s w)
              (v.fresh s.next_query_id (omega arith)) d)
    ]
Step-AreDistinct {s} (create ts u e p h) v d =
    subst AreDistinct (sym (row_ids-create_external_withdrawals s ts u e h)) d
Step-AreDistinct {s} (update w h) v d =
    subst AreDistinct
      (sym
        (row_ids-update_found s w (find (is_message w.ext_msg_uuid w.to) s.external_withdrawals) h))
      d
Step-AreDistinct {s} (confirmation c h) v d =
    subst (λ x. AreDistinct (row_ids x.withdrawal_requests)) h d
Step-AreDistinct {s} (expiration now h) v d =
    subst (λ x. AreDistinct (row_ids x.withdrawal_requests)) h
      (subst AreDistinct
        (sym (
          row_ids-release_requests (query_ids (filter_by (is_lost now) s.external_withdrawals))
            s.withdrawal_requests))
        d)
Step-AreDistinct (other (ext, reqs, fresh)) v d = rw reqs d

Reach-AreDistinct : {s : Database} → Reach s → AreDistinct (row_ids s.withdrawal_requests)
Reach-AreDistinct start = tt
Reach-AreDistinct (next r st) = Step-AreDistinct st (Reach-Inv r) (Reach-AreDistinct r)

-- In every database that a history reaches, the tasks that `GetExternalWithdrawalTasks` returns are of
-- distinct requests, each of which waits: what the histories ask of a batch.
pub get_external_withdrawal_tasks-ArePending :
    {db : Database} (limit : ℕ) → Reach db → ArePending db (get_external_withdrawal_tasks db limit)
unfolding get_external_withdrawal_tasks
get_external_withdrawal_tasks-ArePending {db} limit reach =
    let d = Reach-AreDistinct reach in
    take-ArePending db limit (first_tasks db.withdrawal_requests)
      (first_tasks-AreDistinct db.withdrawal_requests d)
      (first_tasks-AreWaiting db.withdrawal_requests d)
