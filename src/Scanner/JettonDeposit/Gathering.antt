-- ===== src/Scanner/JettonDeposit/Gathering.antt =====
-- The loop over the transactions of a jetton deposit gathers what their messages say.
use bicycle.Prelude.{
  ◌≡◌, refl, Bool, true, false, not, ◌&&◌, ◌||◌, ◌==◌, List, [], ◌∷◌, ◌++◌, Option, none, some,
  if◌then◌else◌, arith, ltb, Result, ok, err, ◌>>=◌, >>=-eq-ok, ok-injective, ◌∙◌, Bool-cases, inl,
  inr,
}
use bicycle.Prelude.Int.{ℤ, pos, ◌+ℤ◌, int_laws}
use bicycle.Models.{Address, ExternalIncome, address_from_tonutils}
use bicycle.Db.AddressBook.{AddressBook, get_owner, get_wallet_type_by_tonutils}
use bicycle.Scanner.Tlb.{
  InternalMessage, Message, internal, external_in, external_out, Transaction, Codec,
}
use bicycle.Scanner.Decode.{
  TransferNotification, JettonTransfer, check_tx_for_success, decode_transfer_notification,
  decode_jetton_transfer,
}
use bicycle.Scanner.JettonDeposit.{
  out_messages, is_known, is_hot, Scan, no_scan, mark_unknown, income_of, to_owner, from_sender,
  scan_out_msg, scan_out_msgs, process_jetton_deposit_out_msgs, process_transfer, process_in,
  process_jetton_deposit_in_msg, Gathered, gather, gather_txs,
}
use bicycle.Scanner.JettonDeposit.Readings.{
  Reading, from_service, unknown, amount_of, is_unknown, is_owned, notification, is_nil, all_of,
  transferred, reading, notified_by, any_unknown, withdrawn_by, is_unknown_in, notified, withdrawn,
  has_unknown,
}

add_assoc : (a b c : ℤ) → (a +ℤ b) +ℤ c ≡ a +ℤ (b +ℤ c)
add_assoc a b c = omega int_laws

add_zero_left : (a : ℤ) → pos 0 +ℤ a ≡ a
add_zero_left a = omega int_laws

module _ (codec : Codec) (book : AddressBook) where
  -- A scan that has read one more message.
  record IsRead (r : Reading) (s s' : Scan) : Type 0 where
    total : s'.total ≡ s.total +ℤ amount_of r
    unknown : s'.unknown ≡ (s.unknown || is_unknown r)

  marked : (s : Scan) → IsRead unknown s (mark_unknown s)
  marked s = record { total = omega int_laws; unknown = ground arith }

  kept : (s : Scan) → IsRead from_service s s
  kept s = record { total = omega int_laws; unknown = ground arith }

  to_owner-IsRead :
      (s : Scan) (i : ExternalIncome) (dst : Address) (o : Option Address) {s' : Scan}
      → to_owner codec book s i dst o ≡ ok s'
      → IsRead (notification false (is_owned (ok o) (ok dst)) i.amount) s s'
  to_owner-IsRead s i dst none e = cc
  to_owner-IsRead s i dst (some a) e = elim (Bool-cases (dst == a)) [
    | inl same ↦
        rw (same, ← ok-injective (rw same at e)) (record { total = refl; unknown = ground arith })
    | inr other ↦ rw (other, ← ok-injective (rw other at e)) (marked s)
  ]

  scan_out_msg-IsRead :
      (tx : Transaction) (s : Scan) (m : Message) {s' : Scan}
      → scan_out_msg codec book tx s m ≡ ok s'
      → IsRead (reading codec book m) s s'
  unfolding scan_out_msg
  scan_out_msg-IsRead tx s (internal m) {s'} e =
      let (src, es, e1) = >>=-eq-ok (address_from_tonutils m.src_addr) _ e in
      decoded src es (decode_transfer_notification codec (some m)) e1
    where
      from :
          (src : Address) (n : TransferNotification)
          → address_from_tonutils m.src_addr ≡ ok src
          → from_sender codec book s tx m src n ≡ ok s'
          → IsRead
              (notification
                (is_known (get_wallet_type_by_tonutils book n.sender))
                (is_owned
                  (address_from_tonutils m.src_addr >>= get_owner book)
                  (address_from_tonutils m.dst_addr))
                n.amount)
              s
              s'
      from src n es h = elim (Bool-cases (is_known (get_wallet_type_by_tonutils book n.sender))) [
        | inl known ↦ rw (known, ← ok-injective (rw known at h)) (kept s)
        | inr payer ↦
            let (dst, ed, h1) = >>=-eq-ok (address_from_tonutils m.dst_addr) _ (rw payer at h) in
            let (o, eo, h2) = >>=-eq-ok (get_owner book src) _ h1 in
            rw (payer, es, ed, eo) (to_owner-IsRead s (income_of codec book tx m src n) dst o h2)
      ]

      decoded :
          (src : Address)
          → address_from_tonutils m.src_addr ≡ ok src
          → (r : Result TransferNotification)
          → (elim r [ err _ ↦ ok (mark_unknown s) | ok n ↦ from_sender codec book s tx m src n ])
            ≡ ok s'
          → IsRead
              (elim r [
                | err _ ↦ unknown
                | ok n ↦
                    notification
                      (is_known (get_wallet_type_by_tonutils book n.sender))
                      (is_owned
                        (address_from_tonutils m.src_addr >>= get_owner book)
                        (address_from_tonutils m.dst_addr))
                      n.amount
              ])
              s
              s'
      decoded src es (err x) h = rw (← ok-injective h) (marked s)
      decoded src es (ok n) h = from src n es h
  scan_out_msg-IsRead tx s (external_in m) e = rw (← ok-injective e) (marked s)
  scan_out_msg-IsRead tx s external_out e = rw (← ok-injective e) (marked s)

  scan_out_msgs-read :
      (tx : Transaction) (s : Scan) (ms : List Message) {s' : Scan}
      → scan_out_msgs codec book tx s ms ≡ ok s'
      → (s'.total ≡ s.total +ℤ notified_by codec book ms)
        × (s'.unknown ≡ (s.unknown || any_unknown codec book ms))
  unfolding scan_out_msgs
  scan_out_msgs-read tx s [] e = rw (← ok-injective e) (omega int_laws, ground arith)
  scan_out_msgs-read tx s (m ∷ ms) e =
      let (mid, first, rest) = >>=-eq-ok (scan_out_msg codec book tx s m) _ e in
      let one = scan_out_msg-IsRead tx s m first in
      let (total, unk) = scan_out_msgs-read tx mid ms rest in
      (
        total
            ∙ rw one.total
                (add_assoc s.total (amount_of (reading codec book m)) (notified_by codec book ms)),
        ground (arith, unk, one.unknown),
      )

  process_out-read :
      (tx : Transaction) {s : Scan}
      → process_jetton_deposit_out_msgs codec book tx ≡ ok s
      → (s.total ≡ notified_by codec book (all_of (out_messages tx)))
        × (s.unknown ≡ any_unknown codec book (all_of (out_messages tx)))
  unfolding process_jetton_deposit_out_msgs
  process_out-read tx e =
      let (ms, read, rest) = >>=-eq-ok (out_messages tx) _ e in
      let (total, unk) = scan_out_msgs-read tx no_scan ms rest in
      rw read (total ∙ add_zero_left (notified_by codec book ms), unk)

  process_transfer-read :
      (tx : Transaction) (m : InternalMessage) (dst : Address) (success : Bool) (t : JettonTransfer)
      {s : Scan}
      → process_transfer codec book tx m dst success t ≡ ok s
      → (s.total ≡ transferred (ok success) (ok t)) × (s.unknown ≡ false)
  unfolding process_transfer
  process_transfer-read tx m dst false t e = rw (← ok-injective e) (refl, refl)
  process_transfer-read tx m dst true t e = elim (Bool-cases (ltb tx.out_msg_count 1)) [
    | inl none_out ↦ cc
    | inr out ↦ elim (Bool-cases (is_hot (get_wallet_type_by_tonutils book t.destination))) [
      | inl hot ↦ rw (← ok-injective (rw (out, hot) at e)) (refl, refl)
      | inr other ↦ rw (← ok-injective (rw (out, other) at e)) (refl, refl)
    ]
  ]

  process_in-read :
      (tx : Transaction) (o : Option Message) {s : Scan}
      → process_in codec book tx o ≡ ok s
      → (s.total ≡ withdrawn_by codec book tx o) × (s.unknown ≡ is_unknown_in codec book o)
  process_in-read tx none e = rw (← ok-injective e) (refl, refl)
  process_in-read tx (some (external_in m)) e = rw (← ok-injective e) (refl, refl)
  process_in-read tx (some external_out) e = rw (← ok-injective e) (refl, refl)
  process_in-read tx (some (internal m)) {s} e =
      let (success, es, e1) = >>=-eq-ok (check_tx_for_success codec tx) _ e in
      let (dst, ed, e2) = >>=-eq-ok (address_from_tonutils m.dst_addr) _ e1 in
      rw es (decoded success dst (decode_jetton_transfer codec (some m)) e2)
    where
      decoded :
          (success : Bool) (dst : Address) (r : Result JettonTransfer)
          → (elim r [
            | err _ ↦ ok (mark_unknown no_scan)
            | ok t ↦ process_transfer codec book tx m dst success t
          ])
            ≡ ok s
          → (s.total ≡ transferred (ok success) r)
            × (s.unknown ≡ (elim r [ ok _ ↦ false | err _ ↦ true ]))
      decoded true dst (err x) h = rw (← ok-injective h) (refl, refl)
      decoded false dst (err x) h = rw (← ok-injective h) (refl, refl)
      decoded success dst (ok t) h = process_transfer-read tx m dst success t h

  -- What is gathered of a block is what its messages say, on top of what was there.
  pub gather_txs-read :
      (txs : List Transaction) (g : Gathered) {g' : Gathered}
      → gather_txs codec book txs g ≡ ok g'
      → (g'.known_income ≡ g.known_income +ℤ notified codec book txs)
        × (g'.withdrawals ≡ g.withdrawals +ℤ withdrawn codec book txs)
        × (is_nil g'.unknown_txs ≡ (is_nil g.unknown_txs && not (has_unknown codec book txs)))
  unfolding gather_txs process_jetton_deposit_in_msg
  gather_txs-read [] g e = rw (← ok-injective e) (omega int_laws, omega int_laws, ground arith)
  gather_txs-read (tx ∷ txs) g e =
      let (out, e1, k) = >>=-eq-ok (process_jetton_deposit_out_msgs codec book tx) _ e in
      let (in_scan, e2, rest) = >>=-eq-ok (process_jetton_deposit_in_msg codec book tx) _ k in
      let (notified_here, marked_out) = process_out-read tx e1 in
      let (taken, marked_in) = process_in-read tx tx.in_msg e2 in
      let (known, withdrawals, nil) = gather_txs-read txs (gather g tx out in_scan) rest in
      (
        known ∙ rw notified_here (add_assoc g.known_income _ (notified codec book txs)),
        withdrawals ∙ rw taken (add_assoc g.withdrawals _ (withdrawn codec book txs)),
        nil
            ∙ rw (marked_out, marked_in)
                (nil_step g.unknown_txs tx (any_unknown codec book (all_of (out_messages tx)))
                  (is_unknown_in codec book tx.in_msg) (has_unknown codec book txs)),
      )
    where
      nil_step :
          (us : List Transaction) (tx : Transaction) (a b c : Bool)
          → (is_nil (if a || b then us ++ tx ∷ [] else us) && not c)
            ≡ (is_nil us && not (a || b || c))
      nil_step [] tx true b c = refl
      nil_step [] tx false true c = refl
      nil_step [] tx false false c = refl
      nil_step (u ∷ us) tx true b c = refl
      nil_step (u ∷ us) tx false true c = refl
      nil_step (u ∷ us) tx false false c = refl
