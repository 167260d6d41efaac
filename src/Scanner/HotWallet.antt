-- ===== src/Scanner/HotWallet.antt =====
-- core/block_scanner.go: the transactions of the TON hot wallet. An external message is a batch of
-- withdrawals, each told by its recipient; an internal one brings jettons or TONs from deposits, or
-- confirms a jetton withdrawal.
pub mod Carried
pub mod Outcomes
use bicycle.Prelude.{
  ℕ, ◌≡◌, Bool, true, false, not, ◌&&◌, List, [], ◌∷◌, ◌++◌, Option, none, some, String, ◌==◌,
  if◌then◌else◌, contains, Result, Error, or_error, ok, err, ◌>>=◌, anomalous, not_valid_message,
  invalid_withdrawal_address, invalid_transfer, no_internal_payload, nil_dereference,
}
use bicycle.Prelude.Int.{ℤ, pos}
use bicycle.Models.{
  Address, TonAddress, WalletType, ton_deposit_wallet, jetton_hot_wallet, jetton_deposit_wallet,
  jetton_owner, Events, no_events, append_events, InternalIncome, ExternalWithdrawal,
  SendingConfirmation, JettonWithdrawalConfirmation, address_from_tonutils,
}
use bicycle.Db.AddressBook.{AddressBook, get_wallet_type, get_wallet_type_by_tonutils}
use bicycle.Scanner.Tlb.{
  Cell, InternalMessage, ExternalMessage, Message, internal, external_in, external_out, Transaction,
  Codec,
}
use bicycle.Scanner.Decode.{
  JettonTransfer, TransferNotification, check_tx_for_success, decode_transfer_notification,
  decode_jetton_transfer, decode_jetton_excesses, parse_external_message,
}
use bicycle.Scanner.JettonDeposit.{out_messages, is_known}

abbrev is_jetton_deposit_type : Option WalletType → Bool
is_jetton_deposit_type none = false
is_jetton_deposit_type (some jetton_deposit_wallet) = true
is_jetton_deposit_type (some _) = false

abbrev is_owner_type : Option WalletType → Bool
is_owner_type none = false
is_owner_type (some jetton_owner) = true
is_owner_type (some _) = false

-- `if err != nil { return Events{}, e }`
abbrev instead {ℓ} : {A : Type ℓ} → Result A → Error → Result A
instead (ok a) e = ok a
instead (err _) e = err e

-- The events of a batch so far, and `addrMapOut`.
pub record Batch : Type 0 where
  pub events : Events
  pub sent : List Address

abbrev pub add_withdrawal : ExternalWithdrawal → Batch → Batch
add_withdrawal w b = record b {
  events = record (b.events) { external_withdrawals = b.events.external_withdrawals ++ w ∷ [] };
}

abbrev pub mark_sent : Address → Batch → Batch
mark_sent a b = record b { sent = a ∷ b.sent }

-- A failed withdrawal; what is not set has Go's zero value.
abbrev pub failed_withdrawal : ℕ → List ℕ → Address → ExternalWithdrawal
failed_withdrawal u tx_hash a = record {
  ext_msg_uuid = u;
  utime = 0;
  lt = 0;
  to = a;
  amount = pos 0;
  comment = "";
  is_failed = true;
  tx_hash = tx_hash;
}

module _ (codec : Codec) (book : AddressBook) where
  open codec use {message_comment, begin_parse, load_ref, load_internal_message}

  -- `failedWithdrawals`: of the recipients that are no wallets of the service, those without an
  -- outgoing message. The map is read in the order of the list.
  unfoldable pub failed_withdrawals :
      List Address → List Address → ℕ → List ℕ → List ExternalWithdrawal
  failed_withdrawals [] sent u tx_hash = []
  failed_withdrawals (a ∷ rest) sent u tx_hash =
      let others = failed_withdrawals rest sent u tx_hash in
      if not (contains a sent) && not (is_known (get_wallet_type book a))
      then failed_withdrawal u tx_hash a ∷ others
      else others

  abbrev confirm_transfer : InternalMessage → InternalMessage → Result Events
  confirm_transfer msg inner = do
    t ← instead (decode_jetton_transfer codec (some inner)) invalid_transfer
    a ← instead (address_from_tonutils t.destination) invalid_withdrawal_address
    ok (record no_events {
      sending_confirmations = record { lt = msg.created_lt; from = a; memo = t.comment } ∷ [];
    })

  abbrev proxy_confirmation : InternalMessage → InternalMessage → Result Events
  proxy_confirmation msg inner =
      if is_jetton_deposit_type (get_wallet_type_by_tonutils book inner.dst_addr)
      then confirm_transfer msg inner
      else ok no_events

  -- `processTonHotWalletProxyMsg`: the message that the proxy is to send confirms the sending of a
  -- jetton withdrawal. A nil body is a panic.
  unfoldable pub process_proxy_msg : InternalMessage → Result Events
  process_proxy_msg msg = do
    body ← or_error msg.body nil_dereference
    slice ← begin_parse body
    payload ← instead (load_ref slice) no_internal_payload
    inner ← load_internal_message payload
    proxy_confirmation msg inner

  abbrev jetton_withdrawal :
      ℕ → Transaction → InternalMessage → JettonTransfer → Address → ExternalWithdrawal
  jetton_withdrawal u tx msg t a = record {
    ext_msg_uuid = u;
    utime = msg.created_at;
    lt = msg.created_lt;
    to = a;
    amount = t.amount;
    comment = t.comment;
    is_failed = false;
    tx_hash = tx.hash;
  }

  abbrev ton_withdrawal : ℕ → Transaction → InternalMessage → Address → ExternalWithdrawal
  ton_withdrawal u tx msg a = record {
    ext_msg_uuid = u;
    utime = msg.created_at;
    lt = msg.created_lt;
    to = a;
    amount = pos msg.amount;
    comment = message_comment msg;
    is_failed = false;
    tx_hash = tx.hash;
  }

  abbrev to_jetton_wallet : ℕ → Transaction → InternalMessage → Batch → Result Batch
  to_jetton_wallet u tx msg b = do
    t ← instead (decode_jetton_transfer codec (some msg)) invalid_transfer
    a ← instead (address_from_tonutils t.destination) invalid_withdrawal_address
    ok (mark_sent a (add_withdrawal (jetton_withdrawal u tx msg t a) b))

  abbrev to_proxy : InternalMessage → Address → Batch → Result Batch
  to_proxy msg addr b = do
    e ← process_proxy_msg msg
    ok (mark_sent addr (record b { events = append_events b.events e }))

  -- What the loop of `processTonHotWalletExternalInMsg` does with a message to `addr`, by the wallet
  -- that the book has there.
  unfoldable pub out_by_type :
      ℕ → Transaction → InternalMessage → Address → Batch → Option WalletType → Result Batch
  unfolding process_proxy_msg
  out_by_type u tx msg addr b none =
      ok (mark_sent addr (add_withdrawal (ton_withdrawal u tx msg addr) b))
  out_by_type u tx msg addr b (some jetton_hot_wallet) = to_jetton_wallet u tx msg b
  out_by_type u tx msg addr b (some jetton_owner) = to_proxy msg addr b
  out_by_type u tx msg addr b (some _) = ok (mark_sent addr b)

  unfoldable pub batch_out : ℕ → Transaction → List Message → Batch → Result Batch
  unfolding out_by_type
  batch_out u tx [] b = ok b
  batch_out u tx (internal msg ∷ ms) b = do
    addr ← instead (address_from_tonutils msg.dst_addr) invalid_withdrawal_address
    b' ← out_by_type u tx msg addr b (get_wallet_type_by_tonutils book msg.dst_addr)
    batch_out u tx ms b'
  batch_out u tx (external_in _ ∷ ms) b = err anomalous
  batch_out u tx (external_out ∷ ms) b = err anomalous

  abbrev batch_events : ℕ → Transaction → List Address → Batch → Events
  batch_events u tx recipients b = record (b.events) {
    external_withdrawals =
        b.events.external_withdrawals ++ failed_withdrawals recipients b.sent u tx.hash;
  }

  -- The part of `processTonHotWalletExternalInMsg` behind `parseExternalMessage`.
  unfoldable pub process_batch : Transaction → Option (ℕ × List Address) → Result Events
  unfolding batch_out failed_withdrawals
  process_batch tx none = err not_valid_message
  process_batch tx (some (u, recipients)) = do
    out ← out_messages tx
    b ← batch_out u tx out (record { events = no_events; sent = [] })
    ok (batch_events u tx recipients b)

  -- `processTonHotWalletExternalInMsg`
  unfoldable pub process_hot_external_in : Transaction → ExternalMessage → Result Events
  unfolding process_batch
  process_hot_external_in tx msg = parse_external_message codec msg >>= process_batch tx

  -- An excess message from outside confirms a jetton withdrawal.
  abbrev excesses : InternalMessage → Events
  excesses msg = elim (decode_jetton_excesses codec (some msg)) [
    | err _ ↦ no_events
    | ok q ↦ record no_events { withdrawal_confirmations = record { query_id = q } ∷ [] }
  ]

  abbrev deposit_income : Transaction → InternalMessage → Address → Address → Result Events
  deposit_income tx msg src dst = do
    success ← check_tx_for_success codec tx
    ok (record no_events {
      internal_incomes =
          record {
            utime = msg.created_at;
            lt = msg.created_lt;
            from = src;
            to = dst;
            amount = pos msg.amount;
            memo = message_comment msg;
            is_failed = not success;
            tx_hash = tx.hash;
          }
          ∷ [];
    })

  abbrev jetton_income :
      Transaction → InternalMessage → Address → TransferNotification → Result Events
  jetton_income tx msg src n = do
    sender ← address_from_tonutils n.sender
    ok (
        if is_owner_type (get_wallet_type book sender)
        then record no_events {
          internal_incomes =
              record {
                utime = msg.created_at;
                lt = msg.created_lt;
                from = sender;
                to = src;
                amount = n.amount;
                memo = n.comment;
                is_failed = false;
                tx_hash = tx.hash;
              }
              ∷ [];
        }
        else no_events)

  abbrev notified : Transaction → InternalMessage → Address → Result Events
  notified tx msg src = elim (decode_transfer_notification codec (some msg)) [
    | err _ ↦ ok no_events
    | ok n ↦ jetton_income tx msg src n
  ]

  -- `processTonHotWalletInternalInMsg` by the wallet of the sender.
  unfoldable pub in_by_type :
      Transaction → InternalMessage → Address → Address → Option WalletType → Result Events
  in_by_type tx msg src dst none = ok (excesses msg)
  in_by_type tx msg src dst (some ton_deposit_wallet) = deposit_income tx msg src dst
  in_by_type tx msg src dst (some jetton_hot_wallet) = notified tx msg src
  in_by_type tx msg src dst (some _) = ok no_events

  -- `processTonHotWalletInternalInMsg`
  unfoldable pub process_hot_internal_in : Transaction → InternalMessage → Result Events
  unfolding in_by_type
  process_hot_internal_in tx msg = do
    src ← address_from_tonutils msg.src_addr
    dst ← address_from_tonutils msg.dst_addr
    in_by_type tx msg src dst (get_wallet_type book src)

  abbrev hot_tx : Transaction → Option Message → Result Events
  hot_tx tx none = err anomalous
  hot_tx tx (some (external_in msg)) = process_hot_external_in tx msg
  hot_tx tx (some (internal msg)) = process_hot_internal_in tx msg
  hot_tx tx (some external_out) = err anomalous

  unfoldable pub hot_wallet_loop : List Transaction → Events → Result Events
  unfolding process_hot_external_in process_hot_internal_in
  hot_wallet_loop [] events = ok events
  hot_wallet_loop (tx ∷ txs) events = do
    e ← hot_tx tx tx.in_msg
    hot_wallet_loop txs (append_events events e)

  -- `processTonHotWalletTXs`
  unfoldable pub process_ton_hot_wallet_txs : List Transaction → Result Events
  unfolding hot_wallet_loop
  process_ton_hot_wallet_txs txs = hot_wallet_loop txs no_events
