-- ===== src/Tests/Blocks.antt =====
-- A block with one transaction of a jetton deposit, from its ids to the notification, and a second run.
use bicycle.Prelude.{
  ℕ, zero, suc, ◌<◌, All, ◌≡◌, ◌≢◌, ◌^◌, refl, true, ◌&&◌, List, [], ◌∷◌, Option, none, some,
  String, Result, Error, ok, err, no_rows, ◌==◌, if◌then◌else◌, arith,
}
use bicycle.Prelude.Int.{ℤ, pos, ltb_ℤ, ◌+ℤ◌, ◌-ℤ◌}
use bicycle.Models.{
  Address, to_tonutils_std, to_bytes, be_bytes, be_value, address_from_bytes, address_from_tonutils,
  jetton_deposit_wallet, jetton_owner, Events, no_events, ExternalIncome, BlockId, ShardBlockHeader,
  BlockEvents, append_events, to_tonutils_std-address_from_tonutils, TonAddress, std_address,
}
use bicycle.Db.Schema.{Database, empty_database}
use bicycle.Db.AddressBook.{
  AddressBook, get_wallet_type, get_owner, get_user_id, get_wallet_type_by_tonutils,
}
use bicycle.Db.External.Invariant.{Inv}
use bicycle.Db.External.History.{start, Reach-Inv}
use bicycle.Db.Incomes.{save_external_income}
use bicycle.Db.Blocks.{
  for_each, save_block, apply_events, finish_transaction, save_parsed_block_data,
}
use bicycle.Db.Blocks.Once.{save_parsed_block_data-Inv, block_applied_once}
use bicycle.Scanner.Tlb.{InternalMessage, internal, Transaction, Codec}
use bicycle.Scanner.Decode.{
  load_comment, decode_transfer_notification, decode_jetton_transfer, check_tx_for_success,
}
use bicycle.Scanner.JettonDeposit.{
  Gathered, nothing_gathered, scan_out_msg, scan_out_msgs, process_jetton_deposit_out_msgs,
  process_transfer, process_jetton_deposit_in_msg, gather_txs, with_unknown,
  convert_unknown_jetton_txs, calculate_jetton_amounts, process_jetton_deposit_wallet_txs,
}
use bicycle.Scanner.JettonDeposit.Readings.{notified, withdrawn, has_unknown}
use bicycle.Scanner.JettonDeposit.Accounting.{sum_amounts, jetton_incomes_total}
use bicycle.Scanner.Block.{
  Env, ShortInfo, IncomeNotification, Notificator, add_tx, collect_txs, filter_txs, process_wallet,
  process_wallets, process_txs, publish_all, notification_of, push_notification, push_incomes,
  push_notifications, block_events, after_save, process_block,
}
use bicycle.Scanner.Block.Order.{published_after_save, notified_once}

-- Decoders under which the cell 100 is a notification of 5 jettons, the cell 101 a transfer of 3, and no cell is anything
-- else.
abbrev pub codec : Codec
codec = record {
  begin_parse = ok;
  load_notification = λ c.
      if c == 100
      then ok (record {
        query_id = 1;
        amount = 5;
        sender = some (to_tonutils_std 77);
        forward_payload = none;
      })
      else err no_rows;
  load_transfer = λ c.
      if c == 101
      then ok (record {
        query_id = 2;
        amount = 3;
        destination = some (to_tonutils_std 78);
        forward_payload = none;
      })
      else err no_rows;
  load_excesses = λ c. err no_rows;
  load_internal_message = λ c. err no_rows;
  load_ref = ok;
  load_ext_info = λ c. err no_rows;
  load_all = λ c. ok [];
  load_uint32 = λ c. err no_rows;
  load_string_snake = λ c. ok "";
  message_comment = λ m. "";
  cell_hash = λ c. c ∷ [];
  uuid_from_bytes = λ bs. ok 40;
  description_to_cell = ok;
  deserialize_boc = ok;
  unmarshal_description = ok;
  is_success = λ c. true;
}

-- The jetton wallet 5 of the deposit 6.
abbrev pub book : AddressBook
book =
    (5, record { wallet_type = jetton_deposit_wallet; owner = some 6; user_id = "alice" })
    ∷ (6, record { wallet_type = jetton_owner; owner = none; user_id = "alice" })
    ∷ []

abbrev notice : InternalMessage
notice = record {
  src_addr = some (to_tonutils_std 5);
  dst_addr = some (to_tonutils_std 6);
  amount = 1;
  created_at = 1000;
  created_lt = 50;
  body = some 100;
}

abbrev transaction : Transaction
transaction = record {
  hash = 9 ∷ [];
  lt = 49;
  now = 1000;
  in_msg = none;
  out_msg_count = 1;
  out_list = ok (internal notice ∷ []);
  description = 0;
}

abbrev pub block : ℕ → BlockId
block n = record {
  workchain = pos 0;
  shard = 2 ^ 63;
  seqno = n;
  root_hash = n ∷ [];
  file_hash = n ∷ [];
}

abbrev pub header : ℕ → ShardBlockHeader
header n = record {
  block = block (ℕ.suc n);
  not_master = true;
  gen_utime = 1000;
  start_lt = 40;
  end_lt = 60;
  parent = block n;
}

-- The balance grows from 10 to 20.
abbrev balance : Address → BlockId → Result ℤ
balance a b = if b.seqno == 1 then ok (pos 10) else ok (pos 20)

-- A transfer out of the wallet.
abbrev transfer : Transaction
transfer = record transaction {
  in_msg = some (internal (record notice { dst_addr = some (to_tonutils_std 5); body = some 101 }));
  out_list = ok (internal notice ∷ []);
}

-- What is gathered; the first transaction has no known incoming message, so it counts as unknown.
abbrev notified_income : ExternalIncome
notified_income = record {
  utime = 1000;
  lt = 50;
  from = to_bytes 77;
  from_workchain = some (pos 0);
  to = 5;
  amount = pos 5;
  comment = "";
  tx_hash = 9 ∷ [];
}

abbrev deposit_events : Events
deposit_events = record no_events { external_incomes = notified_income ∷ notified_income ∷ [] }

abbrev gathered : Gathered
gathered = record {
  events = deposit_events;
  known_income = pos 10;
  withdrawals = pos 3;
  unknown_txs = transaction ∷ [];
}

gathered_all : gather_txs codec book (transaction ∷ transfer ∷ []) nothing_gathered ≡ ok gathered
unfolding gather_txs process_jetton_deposit_out_msgs process_jetton_deposit_in_msg scan_out_msgs
    scan_out_msg process_transfer decode_transfer_notification decode_jetton_transfer load_comment
    address_from_tonutils to_tonutils_std to_bytes be_bytes be_value address_from_bytes
    get_wallet_type get_owner get_wallet_type_by_tonutils append_events ◌+ℤ◌ check_tx_for_success
gathered_all = refl

jetton_incomes_total_example :
    let txs = transaction ∷ transfer ∷ [] in
    (e : Events) × (process_jetton_deposit_wallet_txs balance codec book 5 txs (block 2) (block 1)
      ≡ ok e)
    × (sum_amounts e.external_incomes ≡ (
        if ltb_ℤ (notified codec book txs) (pos 20 -ℤ pos 10 +ℤ withdrawn codec book txs)
          && has_unknown codec book txs
        then pos 20 -ℤ pos 10 +ℤ withdrawn codec book txs
        else notified codec book txs))
jetton_incomes_total_example =
    jetton_incomes_total balance codec book 5 (transaction ∷ transfer ∷ []) (block 2) (block 1)
      gathered_all refl refl

-- The transfer is told from its messages.
three_withdrawn : withdrawn codec book (transaction ∷ transfer ∷ []) ≡ pos 3
unfolding decode_jetton_transfer load_comment ◌+ℤ◌ check_tx_for_success
three_withdrawn = refl

-- Zeros before a last byte.
abbrev padded : ℕ → List ℕ
padded zero = 5 ∷ []
padded (suc n) = 0 ∷ padded n

padded_low : (n : ℕ) → All (λ b. b < 256) (padded n)
padded_low zero = (omega arith, tt)
padded_low (suc n) = (omega arith, padded_low n)

abbrev masterchain_address : TonAddress
masterchain_address = record {
  addr_type = std_address;
  workchain = ℤ.negsuc 0;
  data_bytes = padded 31;
}

five_read : address_from_tonutils (some masterchain_address) ≡ ok 5
unfolding address_from_tonutils address_from_bytes be_value
five_read = refl

to_tonutils_std-address_from_tonutils_example :
    (masterchain_address.addr_type ≡ std_address)
    × (to_tonutils_std 5 ≡ record masterchain_address { workchain = pos 0 })
    × (address_from_tonutils (some (to_tonutils_std 5)) ≡ ok 5)
    × (address_from_tonutils (some (record masterchain_address { workchain = pos 3 })) ≡ ok 5)
to_tonutils_std-address_from_tonutils_example =
    to_tonutils_std-address_from_tonutils masterchain_address (pos 3) (padded_low 31) five_read

abbrev parsed : BlockEvents
parsed = record {
  events = record no_events { external_incomes = notified_income ∷ [] };
  block = header 1;
}

abbrev no_uuid : String → Option ℕ
no_uuid s = none

abbrev same_text : String → String
same_text s = s

abbrev recorded : Database
recorded = (save_parsed_block_data no_uuid same_text book (ok tt) parsed empty_database).0

empty_Inv : Inv empty_database
empty_Inv = Reach-Inv start

save_parsed_block_data-Inv_example : Inv recorded
save_parsed_block_data-Inv_example =
    save_parsed_block_data-Inv no_uuid same_text book (ok tt) parsed empty_database empty_Inv

recorded_ok :
    save_parsed_block_data no_uuid same_text book (ok tt) parsed empty_database ≡ (recorded, ok tt)
unfolding save_parsed_block_data finish_transaction apply_events for_each save_block
    save_external_income
recorded_ok = refl

block_applied_once_example :
    (x : Error) × (save_parsed_block_data no_uuid same_text [] (ok tt) parsed recorded
      ≡ (recorded, err x))
block_applied_once_example =
    block_applied_once no_uuid no_uuid same_text same_text book [] (ok tt) (ok tt) parsed parsed
      empty_database empty_Inv recorded_ok refl refl

abbrev accepts : Notificator
accepts n = ok tt

abbrev ids : List ShortInfo
ids = record { account = to_bytes 5; lt = 49; hash = 9 ∷ [] } ∷ []

abbrev env : Env
env = record {
  codec = codec;
  transaction_ids = λ b. ok ids;
  transaction = λ b s. ok transaction;
  jetton_balance = balance;
  range = λ m. m;
  uuid_from_string = no_uuid;
  strip_invalid_utf8 = same_text;
  commit = ok tt;
  to_user_format = λ a. "EQ";
  notificators = accepts ∷ [];
  deposit_side = true;
}

abbrev run : Database × List (ℕ × IncomeNotification) × Result (Unit {0})
run = process_block env book empty_database (header 1)

pushed : run.1 ≢ []
unfolding process_block block_events after_save filter_txs collect_txs add_tx process_txs
    process_wallets process_wallet push_notifications push_incomes push_notification notification_of
    publish_all process_jetton_deposit_wallet_txs with_unknown convert_unknown_jetton_txs
    calculate_jetton_amounts gather_txs process_jetton_deposit_out_msgs
    process_jetton_deposit_in_msg scan_out_msgs scan_out_msg process_transfer
    decode_transfer_notification load_comment address_from_tonutils to_tonutils_std to_bytes
    be_bytes be_value address_from_bytes get_wallet_type get_owner get_user_id
    get_wallet_type_by_tonutils append_events ◌+ℤ◌ ◌-ℤ◌ save_parsed_block_data finish_transaction
    apply_events for_each save_block save_external_income
pushed e = cc

published_after_save_example :
    (be : BlockEvents) × (block_events env book (header 1) ≡ ok be)
    × (save_parsed_block_data no_uuid same_text book (ok tt) be empty_database ≡ (run.0, ok tt))
published_after_save_example = published_after_save env book empty_database (header 1) refl pushed

notified_once_example : (x : Error) × (process_block env [] run.0 (header 1) ≡ (run.0, [], err x))
notified_once_example =
    notified_once env env book [] empty_database (header 1) empty_Inv refl pushed
