-- ===== src/Scanner/JettonDeposit/Readings.antt =====
-- What the messages of a jetton deposit say of its incomes and withdrawals, message by message.
use bicycle.Prelude.{
  Bool, true, false, ◌||◌, ◌==◌, List, [], ◌∷◌, Option, none, some, Result, ok, err, ◌>>=◌,
}
use bicycle.Prelude.Int.{ℤ, pos, ◌+ℤ◌}
use bicycle.Models.{Address, address_from_tonutils}
use bicycle.Db.AddressBook.{AddressBook, get_owner, get_wallet_type_by_tonutils}
use bicycle.Scanner.Tlb.{Message, internal, external_in, external_out, Transaction, Codec}
use bicycle.Scanner.Decode.{
  JettonTransfer, check_tx_for_success, decode_transfer_notification, decode_jetton_transfer,
}
use bicycle.Scanner.JettonDeposit.{out_messages, is_known}

-- What an outgoing message says: an income, a notification that is none, or nothing that is known.
pub data Reading : Type 0 where
  income : ℤ → Reading
  from_service unknown : Reading

abbrev pub amount_of : Reading → ℤ
amount_of (income a) = a
amount_of from_service = pos 0
amount_of unknown = pos 0

abbrev pub is_unknown : Reading → Bool
is_unknown (income a) = false
is_unknown from_service = false
is_unknown unknown = true

abbrev pub is_same : Address → Result Address → Bool
is_same o (ok d) = d == o
is_same o (err _) = false

abbrev pub is_owned : Result (Option Address) → Result Address → Bool
is_owned (ok (some o)) dst = is_same o dst
is_owned (ok none) dst = false
is_owned (err _) dst = false

-- A notification by its sender and its recipient.
abbrev pub notification : (is_service to_owner : Bool) → ℤ → Reading
notification true o amount = from_service
notification false true amount = income amount
notification false false amount = unknown

abbrev pub is_nil {ℓ} : {A : Type ℓ} → List A → Bool
is_nil [] = true
is_nil (x ∷ xs) = false

abbrev pub all_of : Result (List Message) → List Message
all_of (ok ms) = ms
all_of (err _) = []

abbrev pub transferred : Result Bool → Result JettonTransfer → ℤ
transferred (ok true) (ok t) = t.amount
transferred _ _ = pos 0

module _ (codec : Codec) (book : AddressBook) where
  -- A transfer notification of someone outside the service to the owner of the wallet is an income.
  abbrev pub reading : Message → Reading
  reading (internal m) = elim (decode_transfer_notification codec (some m)) [
    | err _ ↦ unknown
    | ok n ↦
        notification (is_known (get_wallet_type_by_tonutils book n.sender))
          (is_owned (address_from_tonutils m.src_addr >>= get_owner book)
            (address_from_tonutils m.dst_addr))
          n.amount
  ]
  reading (external_in _) = unknown
  reading external_out = unknown

  abbrev pub notified_by : List Message → ℤ
  notified_by [] = pos 0
  notified_by (m ∷ ms) = amount_of (reading m) +ℤ notified_by ms

  abbrev pub any_unknown : List Message → Bool
  any_unknown [] = false
  any_unknown (m ∷ ms) = is_unknown (reading m) || any_unknown ms

  -- What the incoming message takes out of the wallet: the amount of a transfer that succeeded.
  abbrev pub withdrawn_by : Transaction → Option Message → ℤ
  withdrawn_by tx (some (internal m)) =
      transferred (check_tx_for_success codec tx) (decode_jetton_transfer codec (some m))
  withdrawn_by tx (some (external_in _)) = pos 0
  withdrawn_by tx (some external_out) = pos 0
  withdrawn_by tx none = pos 0

  abbrev pub is_unknown_in : Option Message → Bool
  is_unknown_in (some (internal m)) = elim (decode_jetton_transfer codec (some m)) [
    | ok _ ↦ false
    | err _ ↦ true
  ]
  is_unknown_in (some (external_in _)) = true
  is_unknown_in (some external_out) = true
  is_unknown_in none = true

  -- All the notified incomes of a block, all that was withdrawn, and whether any message is unknown.
  abbrev pub notified : List Transaction → ℤ
  notified [] = pos 0
  notified (tx ∷ txs) = notified_by (all_of (out_messages tx)) +ℤ notified txs

  abbrev pub withdrawn : List Transaction → ℤ
  withdrawn [] = pos 0
  withdrawn (tx ∷ txs) = withdrawn_by tx tx.in_msg +ℤ withdrawn txs

  abbrev pub has_unknown : List Transaction → Bool
  has_unknown [] = false
  has_unknown (tx ∷ txs) =
      any_unknown (all_of (out_messages tx)) || is_unknown_in tx.in_msg || has_unknown txs
