-- ===== src/Processor/Round.antt =====
-- core/withdrawal_processor.go: one round of each of the three processors. A round whose errors all end the process
-- (`log.Fatalf`) is the value `err`.
pub mod Parts
pub mod History
use bicycle.Prelude.{
  ℕ, Bool, true, false, List, [], ◌∷◌, Option, none, some, String, if◌then◌else◌, Result, ok, err,
  ◌>>=◌, or_error, nil_dereference,
}
use bicycle.Prelude.Int.{ℤ, pos, ltb_ℤ}
use bicycle.Models.{
  Address, Coins, TonAddress, to_tonutils_std, WithdrawalRequest, ServiceWithdrawalTask,
  InternalWithdrawalTask,
}
use bicycle.Db.Schema.{Database}
use bicycle.Db.AddressBook.{AddressBook}
use bicycle.Db.External.{create_external_withdrawals, set_expired_external}
use bicycle.Db.Internal.{save_internal_withdrawal_task, set_expired_internal}
use bicycle.Db.Tasks.{get_external_withdrawal_tasks}
use bicycle.Db.ServiceRequests.{
  get_service_hot_withdrawal_tasks, get_service_deposit_withdrawal_tasks,
}
use bicycle.Db.InternalTasks.{
  get_ton_internal_withdrawal_tasks, get_jetton_internal_withdrawal_tasks,
}
use bicycle.Db.Reports.{is_actual_block_data}
use bicycle.Processor.Messages.{Message}
use bicycle.Processor.Build.{
  Network, Setup, Batch, ServiceWithdrawal, InternalMessage, build_withdrawal_messages,
  update_service_withdrawal_request,
}
use bicycle.Processor.Cold.{Cutoffs, make_cold_wallet_withdrawals}

-- What a round is given: the network and the wallets, the cold wallet with the flag of its bounces, the uuids, the
-- clock, and the uuid and the expiration that the messages get (`BuildExternalMessageForMany` and
-- `getHighLoadWalletExtMsgInfo`).
pub record Hot : Type 0 where
  pub net : Network
  pub setup : Setup
  pub book : AddressBook
  pub cold_wallet : Option (TonAddress × Bool)
  pub new_query : String → Result String
  pub jetton_cutoffs : List (String × Cutoffs)
  pub ton_cutoffs : Cutoffs
  pub now : ℕ
  pub message_info : List Message → Result (ℕ × ℕ)

-- The loop over `w.Service`.
unfoldable pub update_services : ℕ → List ServiceWithdrawal → Database → Database
unfolding update_service_withdrawal_request
update_services ttl [] db = db
update_services ttl (w ∷ ws) db =
    update_services ttl ws (update_service_withdrawal_request db w.task w.ton_amount ttl w.filled)

-- The loop over `w.Internal`.
unfoldable pub save_internals : ℕ → List InternalMessage → Database → Result Database
unfolding save_internal_withdrawal_task
save_internals ttl [] db = ok db
save_internals ttl (w ∷ ws) db =
    save_internal_withdrawal_task db w.task ttl w.memo >>= λ db'. save_internals ttl ws db'

module _ (hot : Hot) where
  -- `buildWithdrawalMessages` on the results of its three queries.
  unfoldable pub build_from_queries : Database → Result (Batch × Database)
  unfolding build_withdrawal_messages get_service_hot_withdrawal_tasks
      get_jetton_internal_withdrawal_tasks get_external_withdrawal_tasks
  build_from_queries db =
      build_withdrawal_messages hot.net hot.setup hot.book hot.now
        (get_service_hot_withdrawal_tasks db 250)
        (λ used. get_jetton_internal_withdrawal_tasks db used 250)
        (get_external_withdrawal_tasks db 250) db

  -- What is saved of a batch that has messages, before they are sent.
  unfoldable pub save_batch : Batch → Database → Result Database
  unfolding create_external_withdrawals update_services save_internals
  save_batch b db = do
    (uuid, ttl) ← hot.message_info b.messages
    db' ← create_external_withdrawals db b.external uuid ttl
    save_internals ttl b.internal (update_services ttl b.service db')

  abbrev has_messages : Batch → Bool
  has_messages b = elim b.messages [ [] ↦ false | _ ∷ _ ↦ true ]

  -- A round of `startWithdrawalsProcessor`: an error of the sending is only logged.
  unfoldable pub withdrawals_round : Database → Result Database
  unfolding make_cold_wallet_withdrawals build_from_queries save_batch
  withdrawals_round db = do
    (_, db1) ←
        make_cold_wallet_withdrawals hot.net hot.setup hot.new_query hot.jetton_cutoffs
          hot.ton_cutoffs hot.cold_wallet db
    (b, db2) ← build_from_queries db1
    (if has_messages b then save_batch b db2 else ok db2)

-- What the rounds over deposits are given: the subwallets, and what is sent; an error of the sending is only logged.
pub record Deposits : Type 0 where
  pub net : Network
  pub get_subwallet : ℕ → Result TonAddress
  pub withdrawal_cutoff : Coins
  pub new_memo : Address → Result ℕ
  pub expired_at : ℕ

module _ (d : Deposits) where
  -- `withdrawTONsFromDeposit`
  unfoldable pub withdraw_tons_from_deposit : InternalWithdrawalTask → Database → Result Database
  unfolding save_internal_withdrawal_task
  withdraw_tons_from_deposit task db = do
    subwallet ← d.get_subwallet task.subwallet_id
    (balance, missing) ← d.net.get_account_current_state subwallet
    (if missing
        then ok db
        else if ltb_ℤ d.withdrawal_cutoff balance
        then (d.new_memo task.from >>= λ memo.
            save_internal_withdrawal_task db task d.expired_at memo)
        else ok db)

  -- `serviceWithdrawJettons`
  unfoldable pub service_withdraw_jettons : ServiceWithdrawalTask → Database → Result Database
  unfolding update_service_withdrawal_request
  service_withdraw_jettons task db = do
    subwallet ← d.get_subwallet task.subwallet_id
    (_, missing) ← d.net.get_account_current_state subwallet
    (if missing
        then ok db
        else (or_error task.jetton_master nil_dereference >>= λ master.
            d.net.get_jetton_wallet_address subwallet (to_tonutils_std master) >>= λ _.
            ok (update_service_withdrawal_request db task (pos 0) d.expired_at false)))

  -- A loop over tasks, ended by the first error.
  unfoldable pub for_tasks {ℓ} :
      {T : Type ℓ} → (T → Database → Result Database) → List T → Database → Result Database
  for_tasks f [] db = ok db
  for_tasks f (t ∷ ts) db = f t db >>= λ db'. for_tasks f ts db'

  -- A round of `startInternalTonWithdrawalsProcessor`.
  unfoldable pub internal_round : Database → Result Database
  unfolding for_tasks withdraw_tons_from_deposit service_withdraw_jettons
      get_service_deposit_withdrawal_tasks get_ton_internal_withdrawal_tasks
  internal_round db = do
    db' ← for_tasks service_withdraw_jettons (get_service_deposit_withdrawal_tasks db 5) db
    for_tasks withdraw_tons_from_deposit (get_ton_internal_withdrawal_tasks db' 40) db'

-- A round of `startExpirationProcessor`: the two transactions of `SetExpired`.
unfoldable pub expiration_round : ℕ → Database → Database
unfolding set_expired_internal set_expired_external
expiration_round now db = set_expired_external (set_expired_internal db now) now

-- `waitSync` on the answers of `IsActualBlockData` until the shutdown: whether it ends in time.
unfoldable pub wait_sync : List (Database × ℕ) → Bool
unfolding is_actual_block_data
wait_sync [] = false
wait_sync ((db, now) ∷ polls) =
    let rest = wait_sync polls in if (is_actual_block_data now db).0 then true else rest
