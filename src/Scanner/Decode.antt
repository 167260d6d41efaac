-- ===== src/Scanner/Decode.antt =====
-- core/block_scanner.go and core/wallets.go: the decoders of messages, and the check that a batch of
-- the hot wallet has one message for each recipient.
use bicycle.Prelude.{
  ℕ, ◌-◌, ltb, ◌/◌, ◌%◌, ◌^◌, Bool, List, [], ◌∷◌, Option, none, some, String, ◌==◌, if◌then◌else◌,
  contains, take, Result, ok, err, ◌>>=◌, or_error, nil_msg, empty_payload, nil_body,
}
use bicycle.Prelude.Int.{ℤ, pos, negsuc}
use bicycle.Models.{Address, TonAddress, Coins, address_from_tonutils}
use bicycle.Scanner.Tlb.{Cell, InternalMessage, ExternalMessage, Transaction, Codec}

-- `jettonTransferNotificationMsg`
pub record TransferNotification : Type 0 where
  pub amount : Coins
  pub sender : Option TonAddress
  pub comment : String

-- `JettonTransferMsg`
pub record JettonTransfer : Type 0 where
  pub amount : Coins
  pub destination : Option TonAddress
  pub comment : String

-- `HighLoadWalletExtMsgInfo`
pub record ExtMsgInfo : Type 0 where
  pub uuid : ℕ
  pub ttl : ℕ
  pub messages : Cell

-- `int64(x)` of a uint64.
unfoldable pub int64 : ℕ → ℤ
int64 x = if ltb x (2 ^ 63) then pos x else negsuc (2 ^ 64 - 1 - x)

module _ (codec : Codec) where
  open codec use {
    begin_parse, load_notification, load_transfer, load_excesses, load_internal_message, load_ref,
    load_ext_info, load_all, load_uint32, load_string_snake, cell_hash, uuid_from_bytes,
    description_to_cell, deserialize_boc, unmarshal_description, is_success,
  }

  -- A comment is a snake string behind 32 zero bits.
  abbrev snake_comment : Result (ℕ × Cell) → String
  snake_comment (err _) = ""
  snake_comment (ok (val, rest)) =
      if val == 0 then elim (load_string_snake rest) [ ok s ↦ s | err _ ↦ "" ] else ""

  -- `LoadComment`
  unfoldable pub load_comment : Option Cell → String
  load_comment none = ""
  load_comment (some c) = elim (begin_parse c) [ err _ ↦ "" | ok l ↦ snake_comment (load_uint32 l) ]

  -- `checkTxForSuccess`
  unfoldable pub check_tx_for_success : Transaction → Result Bool
  check_tx_for_success tx = do
    cell1 ← description_to_cell tx.description
    c ← deserialize_boc cell1
    desc ← unmarshal_description c
    ok (is_success desc)

  -- The start of each decoder: the slice of the payload of a message.
  abbrev payload_slice : Option InternalMessage → Result Cell
  payload_slice none = err nil_msg
  payload_slice (some msg) = do payload ← or_error msg.body empty_payload; begin_parse payload

  -- `decodeJettonTransferNotification`
  unfoldable pub decode_transfer_notification : Option InternalMessage → Result TransferNotification
  unfolding load_comment
  decode_transfer_notification msg = do
    slice ← payload_slice msg
    n ← load_notification slice
    ok (record {
      sender = n.sender;
      amount = pos n.amount;
      comment = load_comment n.forward_payload;
    })

  -- `DecodeJettonTransfer`
  unfoldable pub decode_jetton_transfer : Option InternalMessage → Result JettonTransfer
  unfolding load_comment
  decode_jetton_transfer msg = do
    slice ← payload_slice msg
    t ← load_transfer slice
    ok (record {
      amount = pos t.amount;
      destination = t.destination;
      comment = load_comment t.forward_payload;
    })

  -- `decodeJettonExcesses`
  unfoldable pub decode_jetton_excesses : Option InternalMessage → Result ℤ
  unfolding int64
  decode_jetton_excesses msg = do
    slice ← payload_slice msg
    query_id ← load_excesses slice
    ok (int64 query_id)

  -- `getHighLoadWalletExtMsgInfo`: the uuid is the first 16 bytes of the body's hash, the time of
  -- expiration the upper half of the bounded id.
  unfoldable pub get_ext_msg_info : ExternalMessage → Result ExtMsgInfo
  get_ext_msg_info msg = do
    body ← or_error msg.body nil_body
    u ← uuid_from_bytes (take 16 (cell_hash body))
    slice ← begin_parse body
    d ← load_ext_info slice
    ok (record { uuid = u; ttl = d.bounded_id / 2 ^ 32 % 2 ^ 32; messages = d.messages })

  -- The recipient of a message of the batch: of the jettons, or of the message itself.
  abbrev recipient : InternalMessage → Result Address
  recipient m = elim (decode_jetton_transfer (some m)) [
    | ok t ↦ address_from_tonutils t.destination
    | err _ ↦ address_from_tonutils m.dst_addr
  ]

  -- One round of the loop of `parseExternalMessage`, on the message and the addresses before it;
  -- `none` is the answer "not valid".
  abbrev add_recipient : List Address → Result Address → Option (List Address)
  add_recipient seen (err _) = none
  add_recipient seen (ok a) = if contains a seen then none else some (a ∷ seen)

  -- The loop. `m.Value.LoadRef()` and the decoding of the message may fail.
  unfoldable pub collect_recipients : List Cell → List Address → Result (Option (List Address))
  unfolding decode_jetton_transfer
  collect_recipients [] seen = ok (some seen)
  collect_recipients (c ∷ cs) seen = do
    msg_cell ← load_ref c
    m ← load_internal_message msg_cell
    elim (add_recipient seen (recipient m)) [
      | none ↦ ok none
      | some seen' ↦ collect_recipients cs seen'
    ]

  -- `parseExternalMessage`: the uuid and the set of recipients, or `none` for a batch that is not
  -- valid.
  unfoldable pub parse_external_message : ExternalMessage → Result (Option (ℕ × List Address))
  unfolding get_ext_msg_info collect_recipients
  parse_external_message msg = do
    info ← get_ext_msg_info msg
    messages ← load_all info.messages
    r ← collect_recipients messages []
    ok (elim r [ none ↦ none | some addrs ↦ some (info.uuid, addrs) ])
