-- ===== src/Scanner/JettonDeposit.antt =====
-- core/block_scanner.go: the transactions of a jetton deposit wallet. Jettons come in by transfer
-- notifications, which name the payer, or by messages that the scanner does not know, whose sum is
-- found from the balance of the wallet before and after the block.
pub mod Readings
pub mod Gathering
pub mod Accounting
use bicycle.Prelude.{
  ℕ, ◌≡◌, refl, Bool, true, false, not, ◌&&◌, ◌||◌, List, [], ◌∷◌, ◌++◌, Option, none, some, String,
  ◌==◌, ltb, if◌then◌else◌, Result, ok, err, ◌>>=◌, no_owner, anomalous,
}
use bicycle.Prelude.Int.{ℤ, pos, ◌+ℤ◌, ◌-ℤ◌, ltb_ℤ}
use bicycle.Models.{
  Address, TonAddress, is_std, is_var, WalletType, ton_hot_wallet, Events, no_events, append_events,
  ExternalIncome, InternalWithdrawal, BlockId, address_from_tonutils,
}
use bicycle.Db.AddressBook.{AddressBook, get_owner, get_wallet_type_by_tonutils}
use bicycle.Scanner.Tlb.{
  InternalMessage, Message, internal, external_in, external_out, Transaction, Codec,
}
use bicycle.Scanner.Decode.{
  TransferNotification, JettonTransfer, check_tx_for_success, decode_transfer_notification,
  decode_jetton_transfer,
}

-- `if tx.OutMsgCount > 0 { outList, err = tx.IO.Out.ToSlice() }`
abbrev pub out_messages : Transaction → Result (List Message)
out_messages tx = if ltb 0 tx.out_msg_count then tx.out_list else ok []

abbrev pub is_hot : Option WalletType → Bool
is_hot none = false
is_hot (some ton_hot_wallet) = true
is_hot (some _) = false

abbrev pub is_known : Option WalletType → Bool
is_known none = false
is_known (some _) = true

-- What a scan of messages has found: events, a sum of jettons, and whether a message was unknown.
pub record Scan : Type 0 where
  pub events : Events
  pub total : ℤ
  pub unknown : Bool

abbrev pub no_scan : Scan
no_scan = record { events = no_events; total = pos 0; unknown = false }

-- `unknownMsgFound = true; continue`
abbrev pub mark_unknown : Scan → Scan
mark_unknown s = record s { unknown = true }

-- The payer that an income names: a std or a var address.
abbrev payer : Option TonAddress → List ℕ × Option ℤ
payer none = ([], none)
payer (some a) =
    if is_std a.addr_type || is_var a.addr_type
    then (a.data_bytes, some a.workchain)
    else ([], none)

abbrev pub add_income : Scan → ExternalIncome → Scan
add_income s i = record s {
  events = record (s.events) { external_incomes = s.events.external_incomes ++ i ∷ [] };
  total = s.total +ℤ i.amount;
}

-- What the loop of `processJettonDepositWalletTXs` has gathered.
pub record Gathered : Type 0 where
  pub events : Events
  pub known_income : ℤ
  pub withdrawals : ℤ
  pub unknown_txs : List Transaction

abbrev pub nothing_gathered : Gathered
nothing_gathered = record {
  events = no_events;
  known_income = pos 0;
  withdrawals = pos 0;
  unknown_txs = [];
}

abbrev pub gather : Gathered → Transaction → Scan → Scan → Gathered
gather g tx out in_scan = record {
  events = append_events (append_events g.events out.events) in_scan.events;
  known_income = g.known_income +ℤ out.total;
  withdrawals = g.withdrawals +ℤ in_scan.total;
  unknown_txs = if out.unknown || in_scan.unknown then g.unknown_txs ++ tx ∷ [] else g.unknown_txs;
}

module _ (codec : Codec) (book : AddressBook) where
  abbrev income_of : Transaction → InternalMessage → Address → TransferNotification → ExternalIncome
  income_of tx m src n = record {
    utime = m.created_at;
    lt = m.created_lt;
    from = (payer n.sender).0;
    from_workchain = (payer n.sender).1;
    to = src;
    amount = n.amount;
    comment = n.comment;
    tx_hash = tx.hash;
  }

  -- The end of a round of `processJettonDepositOutMsgs`, on the owner of the source: a notification
  -- that does not go to the owner is an unknown message.
  abbrev to_owner : Scan → ExternalIncome → Address → Option Address → Result Scan
  to_owner s i dst none = err no_owner
  to_owner s i dst (some owner) = if dst == owner then ok (add_income s i) else ok (mark_unknown s)

  -- A notification from a wallet of the service is no income; any other needs the owner.
  abbrev from_sender :
      Scan → Transaction → InternalMessage → Address → TransferNotification → Result Scan
  from_sender s tx m src n =
      if is_known (get_wallet_type_by_tonutils book n.sender) then ok s else do
        dst ← address_from_tonutils m.dst_addr
        owner ← get_owner book src
        to_owner s (income_of tx m src n) dst owner

  -- One round of the loop of `processJettonDepositOutMsgs`.
  unfoldable pub scan_out_msg : Transaction → Scan → Message → Result Scan
  scan_out_msg tx s (internal m) = do
    src ← address_from_tonutils m.src_addr
    elim (decode_transfer_notification codec (some m)) [
      | err _ ↦ ok (mark_unknown s)
      | ok n ↦ from_sender s tx m src n
    ]
  scan_out_msg tx s (external_in _) = ok (mark_unknown s)
  scan_out_msg tx s external_out = ok (mark_unknown s)

  unfoldable pub scan_out_msgs : Transaction → Scan → List Message → Result Scan
  unfolding scan_out_msg
  scan_out_msgs tx s [] = ok s
  scan_out_msgs tx s (m ∷ ms) = scan_out_msg tx s m >>= λ s'. scan_out_msgs tx s' ms

  -- `processJettonDepositOutMsgs`
  unfoldable pub process_jetton_deposit_out_msgs : Transaction → Result Scan
  unfolding scan_out_msgs
  process_jetton_deposit_out_msgs tx = do out ← out_messages tx; scan_out_msgs tx no_scan out

  abbrev withdrawal_of : InternalMessage → Address → JettonTransfer → Bool → InternalWithdrawal
  withdrawal_of m dst t failed = record {
    utime = m.created_at;
    lt = m.created_lt;
    from = dst;
    amount = t.amount;
    memo = t.comment;
    is_failed = failed;
  }

  -- The end of `processJettonDepositInMsg`, on a decoded transfer.
  unfoldable pub process_transfer :
      Transaction → InternalMessage → Address → Bool → JettonTransfer → Result Scan
  process_transfer tx m dst success t =
      if not success
      then ok (record no_scan {
        events = record no_events { internal_withdrawals = withdrawal_of m dst t true ∷ [] };
      })
      else if ltb tx.out_msg_count 1
      then err anomalous
      else if not (is_hot (get_wallet_type_by_tonutils book t.destination))
      then ok (record no_scan { total = t.amount })
      else ok (record no_scan {
        events = record no_events { internal_withdrawals = withdrawal_of m dst t false ∷ [] };
        total = t.amount;
      })

  abbrev process_internal_in_msg : Transaction → InternalMessage → Result Scan
  process_internal_in_msg tx m = do
    success ← check_tx_for_success codec tx
    dst ← address_from_tonutils m.dst_addr
    elim (decode_jetton_transfer codec (some m)) [
      | err _ ↦ ok (mark_unknown no_scan)
      | ok t ↦ process_transfer tx m dst success t
    ]

  -- The cases of `processJettonDepositInMsg` on the incoming message.
  abbrev process_in : Transaction → Option Message → Result Scan
  process_in tx (some (internal m)) = process_internal_in_msg tx m
  process_in tx none = ok (mark_unknown no_scan)
  process_in tx (some (external_in _)) = ok (mark_unknown no_scan)
  process_in tx (some external_out) = ok (mark_unknown no_scan)

  -- `processJettonDepositInMsg`
  unfoldable pub process_jetton_deposit_in_msg : Transaction → Result Scan
  unfolding process_transfer
  process_jetton_deposit_in_msg tx = process_in tx tx.in_msg

  unfoldable pub gather_txs : List Transaction → Gathered → Result Gathered
  unfolding process_jetton_deposit_out_msgs process_jetton_deposit_in_msg
  gather_txs [] g = ok g
  gather_txs (tx ∷ txs) g = do
    out ← process_jetton_deposit_out_msgs tx
    in_scan ← process_jetton_deposit_in_msg tx
    gather_txs txs (gather g tx out in_scan)

abbrev unknown_income : Address → ℤ → Transaction → ExternalIncome
unknown_income addr amount tx = record {
  utime = tx.now;
  lt = tx.lt;
  from = [];
  from_workchain = none;
  to = addr;
  amount = amount;
  comment = "";
  tx_hash = tx.hash;
}

abbrev zero_incomes : Address → List Transaction → List ExternalIncome
zero_incomes addr [] = []
zero_incomes addr (tx ∷ txs) = unknown_income addr (pos 0) tx ∷ zero_incomes addr txs

-- `convertUnknownJettonTxs`: an income of nothing for each transaction, and the whole amount with the
-- first.
unfoldable pub convert_unknown_jetton_txs : List Transaction → Address → ℤ → List ExternalIncome
convert_unknown_jetton_txs [] addr amount = []
convert_unknown_jetton_txs (tx ∷ txs) addr amount =
    zero_incomes addr (tx ∷ txs) ++ unknown_income addr amount tx ∷ []

-- The end of `processJettonDepositWalletTXs`: an unknown amount above zero is an income.
unfoldable pub with_unknown : Gathered → Address → ℤ → Events
with_unknown g addr unknown =
    if ltb_ℤ (pos 0) unknown
    then record (g.events) {
      external_incomes =
          g.events.external_incomes ++ convert_unknown_jetton_txs g.unknown_txs addr unknown;
    }
    else g.events

module _ (get_jetton_balance : Address → BlockId → Result ℤ) where
  -- `calculateJettonAmounts`; the balance of a wallet at a block is a parameter.
  unfoldable pub calculate_jetton_amounts : Address → BlockId → BlockId → ℤ → ℤ → Result ℤ
  calculate_jetton_amounts addr prev_block block known_income withdrawals = do
    prev_balance ← get_jetton_balance addr prev_block
    current_balance ← get_jetton_balance addr block
    ok (current_balance -ℤ prev_balance +ℤ withdrawals -ℤ known_income)

  -- `processJettonDepositWalletTXs`
  unfoldable pub process_jetton_deposit_wallet_txs :
      Codec → AddressBook → Address → List Transaction → BlockId → BlockId → Result Events
  unfolding gather_txs calculate_jetton_amounts with_unknown convert_unknown_jetton_txs
  process_jetton_deposit_wallet_txs codec book addr txs block prev_block = do
    g ← gather_txs codec book txs nothing_gathered
    unknown ← calculate_jetton_amounts addr prev_block block g.known_income g.withdrawals
    ok (with_unknown g addr unknown)
