-- ===== src/Processor/Round/History.antt =====
-- A round of each processor is a history of the statements on external withdrawals.
use bicycle.Prelude.{
  ℕ, ◌≡◌, refl, subst, inl, inr, Bool, true, ◌||◌, not, List, [], ◌∷◌, Option, none, some, String,
  length-take, is_some, Result, ok, or_error, nil_dereference, >>=-eq-ok, ok-injective, Bool-cases,
  find,
}
use bicycle.Prelude.Int.{ltb_ℤ, ◌-ℤ◌}
use bicycle.Models.{
  Address, Coins, TonAddress, ton_symbol, WithdrawalRequest, ServiceWithdrawalTask,
  InternalWithdrawalTask, address_from_tonutils, to_tonutils_std,
}
use bicycle.Db.Schema.{Database}
use bicycle.Db.External.{save_withdrawal_request, create_external_withdrawals}
use bicycle.Db.External.History.{
  ArePending, save, create, expiration, other, Unrelated, Reach, next,
}
use bicycle.Db.Internal.{has_memo, save_internal_withdrawal_task, set_expired_internal}
use bicycle.Db.Tasks.{get_external_withdrawal_tasks}
use bicycle.Db.Tasks.Pending.{get_external_withdrawal_tasks-ArePending}
use bicycle.Db.ServiceRequests.{
  get_service_hot_withdrawal_tasks, get_service_deposit_withdrawal_tasks, hot_tasks,
}
use bicycle.Db.InternalTasks.{get_ton_internal_withdrawal_tasks}
use bicycle.Processor.Build.{
  Network, Setup, Batch, ServiceWithdrawal, InternalMessage, update_service_withdrawal_request,
}
use bicycle.Processor.Messages.{jetton_transfer_ton_amount}
use bicycle.Processor.Cold.{
  Cutoffs, cutoffs_of, is_in_progress, cold_request, cold_jettons, make_cold_wallet_withdrawals,
}
use bicycle.Processor.Round.{
  Hot, Deposits, update_services, save_internals, build_from_queries, save_batch, has_messages,
  withdrawals_round, withdraw_tons_from_deposit, service_withdraw_jettons, for_tasks,
  internal_round, expiration_round,
}
use bicycle.Processor.Round.Parts.{
  ArePending-Part, ArePending-Unrelated, build_withdrawal_messages-Part,
}

module _ (net : Network) (setup : Setup) (new_query : String → Result String)
    (jettons : List (String × Cutoffs)) (ton : Cutoffs) where
  cold_jettons-Reach :
      (dest : Address) (ws : List (String × TonAddress)) (ton_balance : Coins) (db : Database)
      {r : Coins × List WithdrawalRequest × Database}
      → cold_jettons net setup new_query jettons ton dest ws ton_balance db ≡ ok r
      → Reach db
      → Reach r.2
  unfolding cold_jettons
  cold_jettons-Reach dest [] ton_balance db e reach =
      subst (λ (x : Coins × List WithdrawalRequest × Database). Reach x.2) (ok-injective e) reach
  cold_jettons-Reach dest ((cur, jw) ∷ ws) ton_balance db e reach =
      elim (Bool-cases (is_in_progress db dest cur)) [
        | inl waits ↦ cold_jettons-Reach dest ws ton_balance db (rw waits at e) reach
        | inr free ↦
            let (balance, _, e1) = >>=-eq-ok (net.get_last_jetton_balance jw) _ (rw free at e) in
            let (cutoffs, ec, e2) =
              >>=-eq-ok (or_error (cutoffs_of cur jettons) nil_dereference) _ e1 in
            elim (Bool-cases (ltb_ℤ cutoffs.hot_wallet_max balance)) [
              | inl more ↦
                  let (u, _, e3) = >>=-eq-ok (new_query cur) _ (rw more at e2) in
                  let w = cold_request cur (balance -ℤ cutoffs.hot_wallet_residual) true dest u in
                  let ((q, db1), saved, e4) = >>=-eq-ok (save_withdrawal_request db w) _ e3 in
                  let (rest, er, e5) =
                    >>=-eq-ok
                      (cold_jettons net setup new_query jettons ton dest ws
                        (ton_balance -ℤ jetton_transfer_ton_amount) db1)
                      _ e4 in
                  subst (λ (x : Coins × List WithdrawalRequest × Database). Reach x.2)
                    (ok-injective e5)
                    (cold_jettons-Reach dest ws (ton_balance -ℤ jetton_transfer_ton_amount) db1 er
                      (next reach (save w q saved)))
              | inr less ↦ cold_jettons-Reach dest ws ton_balance db (rw less at e2) reach
            ]
      ]

  make_cold_wallet_withdrawals-Reach :
      (cold : Option (TonAddress × Bool)) (db : Database) {r : List WithdrawalRequest × Database}
      → make_cold_wallet_withdrawals net setup new_query jettons ton cold db ≡ ok r
      → Reach db
      → Reach r.1
  unfolding make_cold_wallet_withdrawals
  make_cold_wallet_withdrawals-Reach none db e reach =
      subst (λ (x : List WithdrawalRequest × Database). Reach x.1) (ok-injective e) reach
  make_cold_wallet_withdrawals-Reach (some (cold_wallet, bounceable)) db e reach =
      let ((ton_balance, _), _, e1) =
        >>=-eq-ok (net.get_account_current_state setup.ton_hot_wallet) _ e in
      let (dest, _, e2) = >>=-eq-ok (address_from_tonutils (some cold_wallet)) _ e1 in
      let ((left, saved, db1), ej, e3) =
        >>=-eq-ok
          (cold_jettons net setup new_query jettons ton dest setup.jetton_hot_wallets ton_balance
            db)
          _ e2 in
      let reached = cold_jettons-Reach dest setup.jetton_hot_wallets ton_balance db ej reach in
      elim (Bool-cases
        (is_in_progress db1 dest ton_symbol || not (ltb_ℤ ton.hot_wallet_max left))) [
          | inl done ↦
              subst (λ (x : List WithdrawalRequest × Database). Reach x.1)
                (ok-injective (rw done at e3)) reached
          | inr more ↦
              let (u, _, e4) = >>=-eq-ok (new_query ton_symbol) _ (rw more at e3) in
              let w = cold_request ton_symbol (left -ℤ ton.hot_wallet_residual) bounceable dest u in
              let ((q, db2), es, e5) = >>=-eq-ok (save_withdrawal_request db1 w) _ e4 in
              subst (λ (x : List WithdrawalRequest × Database). Reach x.1) (ok-injective e5)
                (next reached (save w q es))
        ]

update_services-Unrelated :
    (ttl : ℕ) (ws : List ServiceWithdrawal) (db : Database)
    → Unrelated db (update_services ttl ws db)
unfolding update_services update_service_withdrawal_request
update_services-Unrelated ttl [] db = (refl, refl, refl)
update_services-Unrelated ttl (w ∷ ws) db =
    update_services-Unrelated ttl ws
      (update_service_withdrawal_request db w.task w.ton_amount ttl w.filled)

save_internal_withdrawal_task-Unrelated :
    (db : Database) (t : InternalWithdrawalTask) (e m : ℕ) {db' : Database}
    → save_internal_withdrawal_task db t e m ≡ ok db'
    → Unrelated db db'
unfolding save_internal_withdrawal_task
save_internal_withdrawal_task-Unrelated db t e m h =
    elim (Bool-cases (is_some (find (has_memo m) db.internal_withdrawals))) [
      | inl old ↦ cc (rw old at h)
      | inr new ↦ subst (Unrelated db) (ok-injective (rw new at h)) (refl, refl, refl)
    ]

save_internals-Reach :
    (ttl : ℕ) (ws : List InternalMessage) (db : Database) {db' : Database}
    → save_internals ttl ws db ≡ ok db'
    → Reach db
    → Reach db'
unfolding save_internals
save_internals-Reach ttl [] db e reach = subst Reach (ok-injective e) reach
save_internals-Reach ttl (w ∷ ws) db e reach =
    let (mid, one, rest) = >>=-eq-ok (save_internal_withdrawal_task db w.task ttl w.memo) _ e in
    save_internals-Reach ttl ws mid rest
      (next reach (other (save_internal_withdrawal_task-Unrelated db w.task ttl w.memo one)))

module _ (hot : Hot) where
  save_batch-Reach :
      (b : Batch) (db : Database) {db' : Database}
      → save_batch hot b db ≡ ok db'
      → ArePending db b.external
      → Reach db
      → Reach db'
  unfolding save_batch
  save_batch-Reach b db e pending reach =
      let ((uuid, ttl), _, e1) = >>=-eq-ok (hot.message_info b.messages) _ e in
      let (db1, made, e2) = >>=-eq-ok (create_external_withdrawals db b.external uuid ttl) _ e1 in
      save_internals-Reach ttl b.internal (update_services ttl b.service db1) e2 (
        next (next reach (create b.external uuid ttl pending made))
          (other (update_services-Unrelated ttl b.service db1)))

  build_from_queries-pending :
      (db db' : Database) (b : Batch)
      → build_from_queries hot db ≡ ok (b, db')
      → Reach db
      → ArePending db' b.external × Reach db'
  unfolding build_from_queries get_service_hot_withdrawal_tasks
  build_from_queries-pending db db' b e reach =
      let (part, quiet) =
        build_withdrawal_messages-Part hot.net hot.setup hot.book hot.now _ _
          (get_external_withdrawal_tasks db 250) db db' b
          (length-take 250 (hot_tasks db.ton_wallets db.service_requests)) e in
      (
        ArePending-Unrelated db db' b.external quiet
            (ArePending-Part db part (get_external_withdrawal_tasks-ArePending 250 reach)),
        next reach (other quiet),
      )

-- A round of `startWithdrawalsProcessor` that does not end the process takes a database that a history of statements
-- reaches to one that such a history reaches: the tasks that it sends all wait and are of distinct requests, which is
-- what a history asks of a batch.
pub withdrawals_round-Reach :
    (hot : Hot) (db : Database) {db' : Database}
    → withdrawals_round hot db ≡ ok db'
    → Reach db
    → Reach db'
unfolding withdrawals_round
withdrawals_round-Reach hot db e reach =
    let ((cold, db1), made, e1) =
      >>=-eq-ok
        (make_cold_wallet_withdrawals hot.net hot.setup hot.new_query hot.jetton_cutoffs
          hot.ton_cutoffs hot.cold_wallet db)
        _ e in
    let ((b, db2), built, e2) = >>=-eq-ok (build_from_queries hot db1) _ e1 in
    let reached =
      make_cold_wallet_withdrawals-Reach hot.net hot.setup hot.new_query hot.jetton_cutoffs
        hot.ton_cutoffs hot.cold_wallet db made reach in
    let (pending, reached') = build_from_queries-pending hot db1 db2 b built reached in
    elim (Bool-cases (has_messages hot b)) [
      | inl y ↦ save_batch-Reach hot b db2 (rw y at e2) pending reached'
      | inr n ↦ subst Reach (ok-injective (rw n at e2)) reached'
    ]

module _ (d : Deposits) where
  for_tasks-Reach {ℓ} :
      {T : Type ℓ} (f : T → Database → Result Database)
      → ((t : T) (db db' : Database) → f t db ≡ ok db' → Unrelated db db')
      → (ts : List T) (db : Database) {db' : Database} → for_tasks d f ts db ≡ ok db'
      → Reach db
      → Reach db'
  unfolding for_tasks
  for_tasks-Reach f quiet [] db e reach = subst Reach (ok-injective e) reach
  for_tasks-Reach f quiet (t ∷ ts) db e reach =
      let (mid, one, rest) = >>=-eq-ok (f t db) _ e in
      for_tasks-Reach f quiet ts mid rest (next reach (other (quiet t db mid one)))

  withdraw_tons_from_deposit-Unrelated :
      (t : InternalWithdrawalTask) (db db' : Database)
      → withdraw_tons_from_deposit d t db ≡ ok db'
      → Unrelated db db'
  unfolding withdraw_tons_from_deposit
  withdraw_tons_from_deposit-Unrelated t db db' e =
      let (w, _, e1) = >>=-eq-ok (d.get_subwallet t.subwallet_id) _ e in
      let ((balance, missing), _, e2) = >>=-eq-ok (d.net.get_account_current_state w) _ e1 in
      elim (Bool-cases missing) [
        | inl y ↦ subst (Unrelated db) (ok-injective (rw y at e2)) (refl, refl, refl)
        | inr n ↦ elim (Bool-cases (ltb_ℤ d.withdrawal_cutoff balance)) [
          | inl more ↦
              let (memo, _, e3) = >>=-eq-ok (d.new_memo t.from) _ (rw (n, more) at e2) in
              save_internal_withdrawal_task-Unrelated db t d.expired_at memo e3
          | inr less ↦ subst (Unrelated db) (ok-injective (rw (n, less) at e2)) (refl, refl, refl)
        ]
      ]

  service_withdraw_jettons-Unrelated :
      (t : ServiceWithdrawalTask) (db db' : Database)
      → service_withdraw_jettons d t db ≡ ok db'
      → Unrelated db db'
  unfolding service_withdraw_jettons update_service_withdrawal_request
  service_withdraw_jettons-Unrelated t db db' e =
      let (w, _, e1) = >>=-eq-ok (d.get_subwallet t.subwallet_id) _ e in
      let ((balance, missing), _, e2) = >>=-eq-ok (d.net.get_account_current_state w) _ e1 in
      elim (Bool-cases missing) [
        | inl y ↦ subst (Unrelated db) (ok-injective (rw y at e2)) (refl, refl, refl)
        | inr n ↦
            let (m, _, e3) = >>=-eq-ok (or_error t.jetton_master nil_dereference) _ (rw n at e2) in
            let (jw, _, e4) =
              >>=-eq-ok (d.net.get_jetton_wallet_address w (to_tonutils_std m)) _ e3 in
            subst (Unrelated db) (ok-injective e4) (refl, refl, refl)
      ]

  pub internal_round-Reach :
      (db : Database) {db' : Database} → internal_round d db ≡ ok db' → Reach db → Reach db'
  unfolding internal_round
  internal_round-Reach db e reach =
      let (mid, first, second) =
        >>=-eq-ok
          (for_tasks d (service_withdraw_jettons d) (get_service_deposit_withdrawal_tasks db 5) db)
          _ e in
      for_tasks-Reach (withdraw_tons_from_deposit d) withdraw_tons_from_deposit-Unrelated
        (get_ton_internal_withdrawal_tasks mid 40) mid second
        (for_tasks-Reach (service_withdraw_jettons d) service_withdraw_jettons-Unrelated
          (get_service_deposit_withdrawal_tasks db 5) db first reach)

pub expiration_round-Reach : (now : ℕ) (db : Database) → Reach db → Reach (expiration_round now db)
unfolding expiration_round set_expired_internal
expiration_round-Reach now db reach =
    next (next reach (other (refl, refl, refl))) (expiration now refl)
