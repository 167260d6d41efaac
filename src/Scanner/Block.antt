-- ===== src/Scanner/Block.antt =====
-- core/block_scanner.go: a block from its transaction ids to the saved events and the notifications.
-- The lite server's answers, the order in which Go reads a map, and the notificators are parameters.
pub mod Order
use bicycle.Prelude.{
  ℕ, suc, ◌+◌, ◌%◌, ◌-◌, ◌≡◌, Bool, true, false, not, ◌&&◌, List, [], ◌∷◌, ◌++◌, map, Option, none,
  some, String, ◌==◌, if◌then◌else◌, length, Result, ok, err, ◌>>=◌, or_error, no_user_id,
}
use bicycle.Prelude.Int.{ℤ, pos, negsuc}
use bicycle.Models.{
  Address, Coins, WalletType, ton_hot_wallet, jetton_hot_wallet, ton_deposit_wallet,
  jetton_deposit_wallet, jetton_owner, Events, no_events, append_events, ExternalIncome,
  InternalIncome, BlockId, ShardBlockHeader, BlockEvents, address_from_bytes,
}
use bicycle.Db.Schema.{Database}
use bicycle.Db.AddressBook.{AddressBook, get_wallet_type, get_owner, get_user_id}
use bicycle.Db.Blocks.{save_parsed_block_data}
use bicycle.Scanner.Tlb.{Transaction, Codec}
use bicycle.Scanner.JettonDeposit.{is_known, process_jetton_deposit_wallet_txs}
use bicycle.Scanner.TonDeposit.{process_ton_deposit_wallet_txs}
use bicycle.Scanner.HotWallet.{process_ton_hot_wallet_txs}

-- `ton.TransactionShortInfo`
pub record ShortInfo : Type 0 where
  pub account : List ℕ
  pub lt : ℕ
  pub hash : List ℕ

-- `transactions`; no wallet type is the empty one.
pub record WalletTransactions : Type 0 where
  pub address : Address
  pub wallet_type : Option WalletType
  pub transactions : List Transaction

-- `map[Address][]*tlb.Transaction`
abbrev pub TxMap : Type 0
TxMap = List (Address × List Transaction)

-- `txMap[a] = append(txMap[a], tx)`
unfoldable pub add_tx : Address → Transaction → TxMap → TxMap
add_tx a tx [] = (a, tx ∷ []) ∷ []
add_tx a tx ((k, txs) ∷ m) = if a == k then (k, txs ++ tx ∷ []) ∷ m else (k, txs) ∷ add_tx a tx m

module _ (book : AddressBook) (get_transaction_from_block : ShortInfo → Result Transaction) where
  -- The first loop of `filterTXs`.
  unfoldable pub collect_txs : List ShortInfo → TxMap → Result TxMap
  unfolding add_tx
  collect_txs [] m = ok m
  collect_txs (id ∷ ids) m = do
    a ← address_from_bytes id.account
    m' ←
        (if is_known (get_wallet_type book a)
          then (get_transaction_from_block id >>= λ tx. ok (add_tx a tx m))
          else ok m)
    collect_txs ids m'

  -- The second loop.
  abbrev with_types : TxMap → List WalletTransactions
  with_types [] = []
  with_types ((a, txs) ∷ m) =
      record { address = a; wallet_type = get_wallet_type book a; transactions = txs }
      ∷ with_types m

  -- `filterTXs`; `range` is the order in which the map is read.
  unfoldable pub filter_txs : (TxMap → TxMap) → List ShortInfo → Result (List WalletTransactions)
  unfolding collect_txs
  filter_txs range ids = do m ← collect_txs ids []; ok (with_types (range m))

module _ (codec : Codec) (book : AddressBook)
    (get_jetton_balance : Address → BlockId → Result ℤ) where
  -- The `switch` of `processTXs`.
  unfoldable pub process_wallet :
      ShardBlockHeader → WalletTransactions → Option WalletType → Result Events
  process_wallet h t none = ok no_events
  process_wallet h t (some ton_hot_wallet) = process_ton_hot_wallet_txs codec book t.transactions
  process_wallet h t (some ton_deposit_wallet) =
      process_ton_deposit_wallet_txs codec book t.transactions
  process_wallet h t (some jetton_deposit_wallet) =
      process_jetton_deposit_wallet_txs get_jetton_balance codec book t.address t.transactions
        h.block h.parent
  process_wallet h t (some jetton_hot_wallet) = ok no_events
  process_wallet h t (some jetton_owner) = ok no_events

  unfoldable pub process_wallets :
      ShardBlockHeader → List WalletTransactions → Events → Result Events
  unfolding process_wallet
  process_wallets h [] events = ok events
  process_wallets h (t ∷ ts) events = do
    e ← process_wallet h t t.wallet_type
    process_wallets h ts (append_events events e)

  -- `processTXs`
  unfoldable pub process_txs : List WalletTransactions → ShardBlockHeader → Result BlockEvents
  unfolding process_wallets
  process_txs txs h = do e ← process_wallets h txs no_events; ok (record { events = e; block = h })

-- `incomeNotification`. The amount and the hash are the values that are printed; `source` is the
-- workchain byte and the account of the payer.
pub record IncomeNotification : Type 0 where
  pub deposit : String
  pub timestamp : ℕ
  pub amount : Coins
  pub source : Option (ℕ × List ℕ)
  pub comment : String
  pub user_id : String
  pub tx_hash : List ℕ

-- `byte(x)` of an int32.
abbrev pub to_byte : ℤ → ℕ
to_byte (pos n) = n % 256
to_byte (negsuc n) = 255 - n % 256

-- `len(from) == 32 && fromWorkchain != nil`
abbrev payer_source : List ℕ → Option ℤ → Option (ℕ × List ℕ)
payer_source from none = none
payer_source from (some w) = if length from == 32 then some (to_byte w, from) else none

-- What was published, by whom, and how the push ended.
abbrev pub Pushed : Type 0
Pushed = List (ℕ × IncomeNotification) × Result (Unit {0})

abbrev pub Notificator : Type 0
Notificator = IncomeNotification → Result (Unit {0})

-- The loop over the notificators; the first error ends it.
unfoldable pub publish_all :
    List Notificator → ℕ → IncomeNotification → List (ℕ × IncomeNotification) → Pushed
publish_all [] i n sent = (sent, ok tt)
publish_all (p ∷ ps) i n sent = elim (p n) [
  | ok _ ↦ publish_all ps (suc i) n (sent ++ (i, n) ∷ [])
  | err e ↦ (sent, err e)
]

-- What `pushNotification` is given.
pub record Income : Type 0 where
  pub to : Address
  pub amount : Coins
  pub timestamp : ℕ
  pub from : List ℕ
  pub from_workchain : Option ℤ
  pub comment : String
  pub tx_hash : List ℕ

abbrev pub external_notice : ExternalIncome → Income
external_notice i = record {
  to = i.to;
  amount = i.amount;
  timestamp = i.utime;
  from = i.from;
  from_workchain = i.from_workchain;
  comment = i.comment;
  tx_hash = i.tx_hash;
}

abbrev pub internal_notice : InternalIncome → Income
internal_notice i = record {
  to = i.from;
  amount = i.amount;
  timestamp = i.utime;
  from = [];
  from_workchain = none;
  comment = "";
  tx_hash = i.tx_hash;
}

module _ (book : AddressBook) (to_user_format : Address → String)
    (notificators : List Notificator) where
  abbrev or_self : Address → Option Address → Address
  or_self a none = a
  or_self a (some owner) = owner

  -- The notification of an income: the owner of a jetton deposit stands for it.
  unfoldable pub notification_of : Income → Result IncomeNotification
  notification_of i = do
    owner ← get_owner book i.to
    user ← or_error (get_user_id book (or_self i.to owner)) no_user_id
    ok (record {
      deposit = to_user_format (or_self i.to owner);
      timestamp = i.timestamp;
      amount = i.amount;
      source = payer_source i.from i.from_workchain;
      comment = i.comment;
      user_id = user;
      tx_hash = i.tx_hash;
    })

  -- `pushNotification`
  unfoldable pub push_notification : Income → List (ℕ × IncomeNotification) → Pushed
  unfolding notification_of publish_all
  push_notification i sent = elim (notification_of i) [
    | err e ↦ (sent, err e)
    | ok n ↦ publish_all notificators 0 n sent
  ]

  unfoldable pub push_incomes : List Income → List (ℕ × IncomeNotification) → Pushed
  unfolding push_notification
  push_incomes [] sent = (sent, ok tt)
  push_incomes (i ∷ is) sent =
      let (sent', r) = push_notification i sent in
      elim r [ ok _ ↦ push_incomes is sent' | err e ↦ (sent', err e) ]

  abbrev notices : Bool → Events → List Income
  notices true e = map external_notice e.external_incomes
  notices false e = map internal_notice e.internal_incomes

  abbrev no_notificators : List Notificator → Bool
  no_notificators [] = true
  no_notificators (p ∷ ps) = false

  -- `pushNotifications`, by `config.Config.IsDepositSideCalculation`.
  unfoldable pub push_notifications : Bool → Events → Pushed
  unfolding push_incomes
  push_notifications deposit_side e =
      if no_notificators notificators then ([], ok tt) else push_incomes (notices deposit_side e) []

-- What a run of `processBlock` meets: the ids of the block, the answers for them, the order in which
-- a map is read, the outcome of the commit, and the notificators.
pub record Env : Type 0 where
  pub codec : Codec
  pub transaction_ids : BlockId → Result (List ShortInfo)
  pub transaction : BlockId → ShortInfo → Result Transaction
  pub jetton_balance : Address → BlockId → Result ℤ
  pub range : TxMap → TxMap
  pub uuid_from_string : String → Option ℕ
  pub strip_invalid_utf8 : String → String
  pub commit : Result (Unit {0})
  pub to_user_format : Address → String
  pub notificators : List Notificator
  pub deposit_side : Bool

unfoldable pub block_events : Env → AddressBook → ShardBlockHeader → Result BlockEvents
unfolding filter_txs process_txs
block_events env book h = do
  ids ← env.transaction_ids h.block
  txs ← filter_txs book (env.transaction h.block) env.range ids
  process_txs env.codec book env.jetton_balance txs h

-- The notifications of a block whose events were saved.
unfoldable pub after_save :
    Env
    → AddressBook
    → Events
    → Database × Result (Unit {0})
    → Database × List (ℕ × IncomeNotification) × Result (Unit {0})
unfolding push_notifications
after_save env book e (db, err x) = (db, [], err x)
after_save env book e (db, ok _) =
    let (sent, r) =
      push_notifications book env.to_user_format env.notificators env.deposit_side e in
    (db, sent, r)

abbrev save_and_push :
    Env
    → AddressBook
    → Database
    → Result BlockEvents
    → Database × List (ℕ × IncomeNotification) × Result (Unit {0})
save_and_push env book db (err x) = (db, [], err x)
save_and_push env book db (ok be) =
    after_save env book be.events
      (save_parsed_block_data env.uuid_from_string env.strip_invalid_utf8 book env.commit be db)

-- `processBlock`: the database afterwards, what was published, and the error that ends the process.
unfoldable pub process_block :
    Env
    → AddressBook
    → Database
    → ShardBlockHeader
    → Database × List (ℕ × IncomeNotification) × Result (Unit {0})
unfolding block_events after_save
process_block env book db h = save_and_push env book db (block_events env book h)
