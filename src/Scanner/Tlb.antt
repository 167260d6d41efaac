-- ===== src/Scanner/Tlb.antt =====
-- What core/block_scanner.go reads of a transaction, and the decoders of tonutils, tongo and
-- gofrs/uuid that it calls. The decoders are parameters, the fields of `Codec`: a cell stands for
-- itself as a number, and what it holds is what they say.
use bicycle.Prelude.{ℕ, Bool, List, Option, String, Result}
use bicycle.Models.{TonAddress}

abbrev pub Cell : Type 0
Cell = ℕ

-- `tlb.InternalMessage`; `body` is `Payload()`, and amounts are nano units.
pub record InternalMessage : Type 0 where
  pub src_addr : Option TonAddress
  pub dst_addr : Option TonAddress
  pub amount : ℕ
  pub created_at : ℕ
  pub created_lt : ℕ
  pub body : Option Cell

-- `tlb.ExternalMessage`
pub record ExternalMessage : Type 0 where
  pub dst_addr : Option TonAddress
  pub body : Option Cell

-- `tlb.Message` by its `MsgType`.
pub data Message : Type 0 where
  internal : InternalMessage → Message
  external_in : ExternalMessage → Message
  external_out : Message

-- `tlb.Transaction`; `out_list` is what `tx.IO.Out.ToSlice()` returns.
pub record Transaction : Type 0 where
  pub hash : List ℕ
  pub lt : ℕ
  pub now : ℕ
  pub in_msg : Option Message
  pub out_msg_count : ℕ
  pub out_list : Result (List Message)
  pub description : Cell

-- The bodies of the jetton messages, as their struct tags lay them out. A forward payload that is
-- absent is `none`.
pub record RawNotification : Type 0 where
  pub query_id : ℕ
  pub amount : ℕ
  pub sender : Option TonAddress
  pub forward_payload : Option Cell

pub record RawTransfer : Type 0 where
  pub query_id : ℕ
  pub amount : ℕ
  pub destination : Option TonAddress
  pub forward_payload : Option Cell

-- The signed body of a highload wallet's external message.
pub record RawExtInfo : Type 0 where
  pub subwallet_id : ℕ
  pub bounded_id : ℕ
  pub messages : Cell

pub record Codec : Type 0 where
  pub begin_parse : Cell → Result Cell
  pub load_notification : Cell → Result RawNotification
  pub load_transfer : Cell → Result RawTransfer
  pub load_excesses : Cell → Result ℕ
  pub load_internal_message : Cell → Result InternalMessage
  pub load_ref : Cell → Result Cell
  pub load_ext_info : Cell → Result RawExtInfo
  -- the entries of a dictionary
  pub load_all : Cell → Result (List Cell)
  -- the first 32 bits of a slice, and the slice behind them
  pub load_uint32 : Cell → Result (ℕ × Cell)
  pub load_string_snake : Cell → Result String
  -- `msg.Comment()`
  pub message_comment : InternalMessage → String
  pub cell_hash : Cell → List ℕ
  pub uuid_from_bytes : List ℕ → Result ℕ
  -- the way of `checkTxForSuccess` through tongo
  pub description_to_cell : Cell → Result Cell
  pub deserialize_boc : Cell → Result Cell
  pub unmarshal_description : Cell → Result Cell
  pub is_success : Cell → Bool
