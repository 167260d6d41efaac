-- ===== src/Scanner/TonDeposit.antt =====
-- core/block_scanner.go: the transactions of a TON deposit wallet. An external message is a withdrawal
-- to the hot wallet; an internal one with no answer is a payment, unless a wallet of the service sent
-- it.
use bicycle.Prelude.{
  Bool, false, List, [], ◌∷◌, ◌++◌, Option, none, some, ◌==◌, if◌then◌else◌, Result, ok, err, ◌>>=◌,
  anomalous, nil_dereference,
}
use bicycle.Prelude.Int.{ℤ, pos}
use bicycle.Models.{
  Address, TonAddress, is_std, Events, no_events, append_events, ExternalIncome,
  address_from_tonutils, to_bytes,
}
use bicycle.Db.AddressBook.{AddressBook, get_wallet_type, get_wallet_type_by_tonutils}
use bicycle.Scanner.Tlb.{
  InternalMessage, ExternalMessage, Message, internal, external_in, external_out, Transaction,
  Codec,
}
use bicycle.Scanner.Decode.{check_tx_for_success}
use bicycle.Scanner.JettonDeposit.{out_messages, is_hot, is_known}

module _ (codec : Codec) (book : AddressBook) where
  open codec use {message_comment}

  -- A message to the hot wallet confirms the sending and the withdrawal of its amount.
  abbrev withdrawn : Address → InternalMessage → Events → Events
  withdrawn deposit m e = record e {
    sending_confirmations =
        e.sending_confirmations
        ++ record { lt = m.created_lt; from = deposit; memo = message_comment m } ∷ [];
    internal_withdrawals =
        e.internal_withdrawals
        ++ record {
          utime = m.created_at;
          lt = m.created_lt;
          from = deposit;
          amount = pos m.amount;
          memo = message_comment m;
          is_failed = false;
        }
          ∷ [];
  }

  -- The loop of `processTonDepositWalletExternalInMsg` over the outgoing messages.
  unfoldable pub withdrawals_out : Address → List Message → Events → Result Events
  withdrawals_out deposit [] e = ok e
  withdrawals_out deposit (internal m ∷ ms) e =
      withdrawals_out deposit ms
        (if is_hot (get_wallet_type_by_tonutils book m.dst_addr) then withdrawn deposit m e else e)
  withdrawals_out deposit (external_in _ ∷ ms) e = err anomalous
  withdrawals_out deposit (external_out ∷ ms) e = err anomalous

  -- `processTonDepositWalletExternalInMsg`
  unfoldable pub process_ton_deposit_external_in : Transaction → ExternalMessage → Result Events
  unfolding withdrawals_out
  process_ton_deposit_external_in tx m = do
    dst ← address_from_tonutils m.dst_addr
    out ← out_messages tx
    withdrawals_out dst out no_events

  -- The sender of a payment: address, workchain, and whether it is a wallet of the service. Only a
  -- std address is read, and any other leaves the zero address; a nil address is a panic.
  abbrev sender : Option TonAddress → Result (Address × Option ℤ × Bool)
  sender none = err nil_dereference
  sender (some a) =
      if is_std a.addr_type
      then (address_from_tonutils (some a) >>= λ from.
          ok (from, some a.workchain, is_known (get_wallet_type book from)))
      else ok (0, none, false)

  abbrev payment :
      Transaction → InternalMessage → Address → Address × Option ℤ × Bool → ExternalIncome
  payment tx m dst (from, workchain, _) = record {
    utime = tx.now;
    lt = tx.lt;
    from = to_bytes from;
    from_workchain = workchain;
    to = dst;
    amount = pos m.amount;
    comment = message_comment m;
    tx_hash = tx.hash;
  }

  -- `processTonDepositWalletInternalInMsg`
  unfoldable pub process_ton_deposit_internal_in : Transaction → InternalMessage → Result Events
  process_ton_deposit_internal_in tx m = do
    dst ← address_from_tonutils m.dst_addr
    s ← sender m.src_addr
    ok (if s.2 then no_events else record no_events { external_incomes = payment tx m dst s ∷ [] })

  -- One round of the loop of `processTonDepositWalletTXs`; `continue` adds nothing.
  abbrev deposit_tx : Transaction → Option Message → Result Events
  deposit_tx tx none = err anomalous
  deposit_tx tx (some (external_in m)) = do
    success ← check_tx_for_success codec tx
    if success then process_ton_deposit_external_in tx m else ok no_events
  deposit_tx tx (some (internal m)) =
      if tx.out_msg_count == 0 then process_ton_deposit_internal_in tx m else ok no_events
  deposit_tx tx (some external_out) = err anomalous

  unfoldable pub process_ton_deposit_tx : Transaction → Result Events
  unfolding process_ton_deposit_external_in process_ton_deposit_internal_in
  process_ton_deposit_tx tx = deposit_tx tx tx.in_msg

  unfoldable pub ton_deposit_loop : List Transaction → Events → Result Events
  unfolding process_ton_deposit_tx
  ton_deposit_loop [] events = ok events
  ton_deposit_loop (tx ∷ txs) events = do
    e ← process_ton_deposit_tx tx
    ton_deposit_loop txs (append_events events e)

  -- `processTonDepositWalletTXs`
  unfoldable pub process_ton_deposit_wallet_txs : List Transaction → Result Events
  unfolding ton_deposit_loop
  process_ton_deposit_wallet_txs txs = ton_deposit_loop txs no_events
