-- ===== src/Processor/Build.antt =====
-- core/withdrawal_processor.go: `buildWithdrawalMessages`, the batch of one round. The answers of the
-- network are a `Network`, the task lists those of the three queries, `now` the clock.
use bicycle.Prelude.{
  ℕ, Bool, true, false, List, [], ◌∷◌, ◌++◌, Option, none, some, String, str_eq, ltb, if◌then◌else◌,
  length, update_where, is_some, ◌==◌, Result, ok, err, ◌>>=◌, or_error, nil_dereference,
  invalid_service_address,
}
use bicycle.Prelude.Int.{ℤ, pos, ltb_ℤ}
use bicycle.Models.{
  Address, Coins, ton_symbol, TonAddress, to_tonutils_std, ton_deposit_wallet, jetton_owner,
  ServiceWithdrawalTask, ExternalWithdrawalTask, InternalWithdrawalTask,
}
use bicycle.Db.Schema.{Database, ServiceRequestRow}
use bicycle.Db.AddressBook.{AddressBook, get_wallet_type, get_wallet_type_by_tonutils}
use bicycle.Processor.Messages.{
  Message, jetton_transfer_ton_amount, jetton_internal_forward_amount, build_ton_withdrawal_message,
  build_jetton_withdrawal_message, build_jetton_proxy_withdrawal_message,
  build_jetton_proxy_service_ton_withdrawal_message, build_ton_fill_message,
}
use bicycle.Processor.Balances.{Balances, lookup, decrease_balances, get_hot_wallet_balances}

-- The network, the random numbers and the libraries. An account's state is its balance and whether it
-- does not exist.
pub record Network : Type 0 where
  pub get_account_current_state : TonAddress → Result (Coins × Bool)
  pub get_last_jetton_balance : TonAddress → Result Coins
  pub get_jetton_wallet_address : TonAddress → TonAddress → Result TonAddress
  pub new_jetton_proxy : ℕ → Result TonAddress
  pub new_uuid : Address → Result ℕ
  pub uuid_text : ℕ → String
  pub random_query : Address → ℕ
  pub decode_binary_comment : String → Result (List ℕ)

-- The wallets and the configuration: the cutoffs are `config.Config.Jettons[c].WithdrawalCutoff`.
pub record Setup : Type 0 where
  pub ton_hot_wallet : TonAddress
  pub jetton_hot_wallets : List (String × TonAddress)
  pub withdrawal_cutoffs : List (String × Coins)
  pub jetton_forward_amount : Coins

-- `serviceWithdrawal`
pub record ServiceWithdrawal : Type 0 where
  pub ton_amount : Coins
  pub filled : Bool
  pub task : ServiceWithdrawalTask

-- `internalWithdrawal`
pub record InternalMessage : Type 0 where
  pub memo : ℕ
  pub task : InternalWithdrawalTask

-- `withdrawals`, with the balances and the used addresses of the batch.
pub record Batch : Type 0 where
  pub balances : Balances
  pub used_addresses : List Address
  pub messages : List Message
  pub external : List ExternalWithdrawalTask
  pub internal : List InternalMessage
  pub service : List ServiceWithdrawal

-- `UpdateServiceWithdrawalRequest`
unfoldable pub update_service_withdrawal_request :
    Database → ServiceWithdrawalTask → Coins → ℕ → Bool → Database
update_service_withdrawal_request db t ton_amount expired_at filled = record db {
  service_requests = update_where (λ r. t.memo == r.memo) set db.service_requests;
}
  where
    set : ServiceRequestRow → ServiceRequestRow
    set r = record r {
      ton_amount = ton_amount;
      jetton_amount = t.jetton_amount;
      processed = if filled then false else true;
      expired_at = some expired_at;
      filled = filled;
    }

-- `a.Cmp(big.NewInt(0)) == 0`
abbrev pub is_zero : Coins → Bool
is_zero (pos n) = n == 0
is_zero (ℤ.negsuc n) = false

abbrev pub jetton_wallet_lookup : String → List (String × TonAddress) → Option TonAddress
jetton_wallet_lookup c [] = none
jetton_wallet_lookup c ((k, w) ∷ ws) =
    let rest = jetton_wallet_lookup c ws in if str_eq c k then some w else rest

module _ (net : Network) (setup : Setup) (book : AddressBook) where
  -- `buildServiceFilling`: the message and what is saved; no message for a balance of 0.
  unfoldable pub build_service_filling :
      ServiceWithdrawalTask → Result (List Message × ServiceWithdrawal)
  unfolding build_ton_fill_message
  build_service_filling task = do
    master ← or_error task.jetton_master nil_dereference
    jetton_wallet ←
        net.get_jetton_wallet_address (to_tonutils_std task.from) (to_tonutils_std master)
    jetton_balance ← net.get_last_jetton_balance jetton_wallet
    ok (
        if is_zero jetton_balance
        then ([], record { ton_amount = pos 0; filled = false; task = task })
        else (
          build_ton_fill_message (to_tonutils_std task.from) jetton_transfer_ton_amount
                (net.uuid_text task.memo)
              ∷ [],
          record {
            ton_amount = pos 0;
            filled = true;
            task = record task { jetton_amount = jetton_balance };
          },
        ))

  -- `buildServiceTonWithdrawal`
  unfoldable pub build_service_ton_withdrawal :
      ServiceWithdrawalTask → Result (List Message × ServiceWithdrawal)
  unfolding build_jetton_proxy_service_ton_withdrawal_message
  build_service_ton_withdrawal task = do
    proxy ← net.new_jetton_proxy task.subwallet_id
    (ton_balance, _) ← net.get_account_current_state proxy
    ok (
      if is_zero ton_balance
          then []
          else build_jetton_proxy_service_ton_withdrawal_message net.decode_binary_comment
              task.subwallet_id proxy setup.ton_hot_wallet (net.uuid_text task.memo)
            ∷ [],
      record { ton_amount = ton_balance; filled = false; task = task },
    )

  -- `buildServiceJettonWithdrawal`: not from a known wallet, nor from an empty one.
  unfoldable pub build_service_jetton_withdrawal :
      ServiceWithdrawalTask → Address → Result (List Message × ServiceWithdrawal)
  unfolding build_jetton_proxy_withdrawal_message get_wallet_type_by_tonutils
  build_service_jetton_withdrawal task master = do
    proxy ← net.new_jetton_proxy task.subwallet_id
    jetton_wallet ← net.get_jetton_wallet_address proxy (to_tonutils_std master)
    (if is_some (get_wallet_type_by_tonutils book (some jetton_wallet))
        then ok ([], record { ton_amount = pos 0; filled = false; task = task })
        else (net.get_last_jetton_balance jetton_wallet >>= λ jetton_balance.
            if is_zero jetton_balance
            then ok ([], record { ton_amount = pos 0; filled = false; task = task })
            else (build_jetton_proxy_withdrawal_message net.decode_binary_comment task.subwallet_id
                  proxy jetton_wallet setup.ton_hot_wallet (pos 0) jetton_balance
                  (net.random_query task.from) (net.uuid_text task.memo)
                >>= λ m. ok (
                  m ∷ [],
                  record {
                    ton_amount = pos 0;
                    filled = false;
                    task = record task { jetton_amount = jetton_balance };
                  },
                ))))

  -- `buildServiceWithdrawalMessage`
  unfoldable pub build_service_withdrawal_message :
      ServiceWithdrawalTask → Result (List Message × ServiceWithdrawal)
  unfolding build_service_filling build_service_ton_withdrawal build_service_jetton_withdrawal
      get_wallet_type
  build_service_withdrawal_message task = elim (get_wallet_type book task.from) [
    | some ton_deposit_wallet ↦ build_service_filling task
    | some jetton_owner ↦ elim task.jetton_master [
      | none ↦ build_service_ton_withdrawal task
      | some master ↦ build_service_jetton_withdrawal task master
    ]
    | _ ↦ err invalid_service_address
  ]

  -- `buildJettonInternalWithdrawalMessage`: no message for a balance up to the cutoff.
  unfoldable pub build_jetton_internal_withdrawal_message :
      InternalWithdrawalTask → Result (Option (Message × ℕ))
  unfolding build_jetton_proxy_withdrawal_message
  build_jetton_internal_withdrawal_message task = do
    proxy ← net.new_jetton_proxy task.subwallet_id
    balance ← net.get_last_jetton_balance (to_tonutils_std task.from)
    cutoff ← or_error (lookup task.currency setup.withdrawal_cutoffs) nil_dereference
    (if ltb_ℤ cutoff balance
        then (net.new_uuid task.from >>= λ memo.
            build_jetton_proxy_withdrawal_message net.decode_binary_comment task.subwallet_id proxy
              (to_tonutils_std task.from) setup.ton_hot_wallet jetton_internal_forward_amount
              balance (net.random_query task.from) (net.uuid_text memo)
            >>= λ m. ok (some (m, memo)))
        else ok none)

  -- `buildExternalWithdrawalMessage`
  unfoldable pub build_external_withdrawal_message : ExternalWithdrawalTask → Result Message
  unfolding build_ton_withdrawal_message build_jetton_withdrawal_message
  build_external_withdrawal_message w =
      if str_eq w.currency ton_symbol
      then build_ton_withdrawal_message net.decode_binary_comment w
      else (or_error (jetton_wallet_lookup w.currency setup.jetton_hot_wallets) nil_dereference
          >>= λ jw.
              build_jetton_withdrawal_message net.decode_binary_comment setup.jetton_forward_amount
                w setup.ton_hot_wallet jw)

  -- What a service task adds to the batch, or what is saved where there is no message.
  abbrev pub add_service :
      Batch → Database → ℕ → Address → List Message × ServiceWithdrawal → Batch × Database
  add_service b db now from ([], w) =
      (b, update_service_withdrawal_request db w.task w.ton_amount now w.filled)
  add_service b db now from (m ∷ ms, w) = (
    record b {
      used_addresses = b.used_addresses ++ from ∷ [];
      messages = b.messages ++ m ∷ ms;
      service = b.service ++ w ∷ [];
    },
    db,
  )

  -- The loop over the service tasks.
  unfoldable pub add_service_tasks :
      ℕ → List ServiceWithdrawalTask → Batch → Database → Result (Batch × Database)
  unfolding decrease_balances build_service_withdrawal_message update_service_withdrawal_request
  add_service_tasks now [] b db = ok (b, db)
  add_service_tasks now (t ∷ ts) b db =
      decrease_balances b.balances ton_symbol jetton_transfer_ton_amount >>= λ (low, balances).
      if low
      then add_service_tasks now ts b db
      else (build_service_withdrawal_message t >>= λ built.
          let added = add_service (record b { balances = balances }) db now t.from built in
          add_service_tasks now ts added.0 added.1)

  abbrev pub add_internal : Batch → InternalWithdrawalTask → Option (Message × ℕ) → Batch
  add_internal b t none = b
  add_internal b t (some (m, memo)) = record b {
    messages = b.messages ++ m ∷ [];
    internal = b.internal ++ record { memo = memo; task = t } ∷ [];
  }

  -- The loop over the internal tasks.
  unfoldable pub add_internal_tasks : List InternalWithdrawalTask → Batch → Result Batch
  unfolding decrease_balances build_jetton_internal_withdrawal_message
  add_internal_tasks [] b = ok b
  add_internal_tasks (t ∷ ts) b =
      if ltb 250 (length b.messages)
      then ok b
      else (decrease_balances b.balances ton_symbol jetton_transfer_ton_amount
          >>= λ (low, balances).
              if low
              then add_internal_tasks ts b
              else (build_jetton_internal_withdrawal_message t >>= λ built.
                  add_internal_tasks ts (add_internal (record b { balances = balances }) t built)))

  -- The loop over the external tasks: not to a wallet of the service.
  unfoldable pub add_external_tasks : List ExternalWithdrawalTask → Batch → Result Batch
  unfolding decrease_balances build_external_withdrawal_message get_wallet_type
  add_external_tasks [] b = ok b
  add_external_tasks (w ∷ ws) b =
      if ltb 250 (length b.messages)
      then ok b
      else if is_some (get_wallet_type book w.destination)
      then add_external_tasks ws b
      else (decrease_balances b.balances w.currency w.amount >>= λ (low, balances).
          if low
          then add_external_tasks ws b
          else (build_external_withdrawal_message w >>= λ m. add_external_tasks ws (record b {
            balances = balances;
            messages = b.messages ++ m ∷ [];
            external = b.external ++ w ∷ [];
          })))

  abbrev pub empty_batch : Balances → Batch
  empty_batch balances = record {
    balances = balances;
    used_addresses = [];
    messages = [];
    external = [];
    internal = [];
    service = [];
  }

  -- `buildWithdrawalMessages`; the second query is told the addresses in use.
  unfoldable pub build_withdrawal_messages :
      ℕ
      → List ServiceWithdrawalTask
      → (List Address → List InternalWithdrawalTask)
      → List ExternalWithdrawalTask
      → Database
      → Result (Batch × Database)
  unfolding get_hot_wallet_balances add_service_tasks add_internal_tasks add_external_tasks
  build_withdrawal_messages now service_tasks internal_tasks external_tasks db = do
    balances ←
        get_hot_wallet_balances net.get_account_current_state net.get_last_jetton_balance
          setup.ton_hot_wallet setup.jetton_hot_wallets
    (b, db') ← add_service_tasks now service_tasks (empty_batch balances) db
    b' ← add_internal_tasks (internal_tasks b.used_addresses) b
    b'' ← add_external_tasks external_tasks b'
    ok (b'', db')
