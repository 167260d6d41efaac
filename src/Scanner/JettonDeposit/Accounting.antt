-- ===== src/Scanner/JettonDeposit/Accounting.antt =====
-- The jettons that a block's incomes of a deposit add up to.
use bicycle.Prelude.{
  ◌≡◌, refl, ◌∙◌, Bool, true, false, not, ◌&&◌, ◌==◌, List, [], ◌∷◌, ◌++◌, Option, none, some,
  if◌then◌else◌, arith, Result, ok, err, >>=-eq-ok, ok-injective, Bool-cases, inl, inr,
}
use mathlib.Core.List.{append-nil}
use bicycle.Prelude.Int.{ℤ, pos, ◌+ℤ◌, ◌-ℤ◌, ltb_ℤ, int_laws, -ℤ_parts}
use bicycle.Models.{Address, Events, append_events, ExternalIncome, BlockId, address_from_tonutils}
use bicycle.Db.AddressBook.{AddressBook, get_owner, get_wallet_type_by_tonutils}
use bicycle.Scanner.Tlb.{
  InternalMessage, Message, internal, external_in, external_out, Transaction, Codec,
}
use bicycle.Scanner.Decode.{TransferNotification, decode_transfer_notification}
use bicycle.Scanner.JettonDeposit.{
  out_messages, is_known, Scan, no_scan, mark_unknown, add_income, income_of, to_owner, from_sender,
  scan_out_msg, scan_out_msgs, process_jetton_deposit_out_msgs, process_jetton_deposit_in_msg,
  Gathered, nothing_gathered, gather, gather_txs, unknown_income, zero_incomes,
  convert_unknown_jetton_txs, calculate_jetton_amounts, with_unknown,
  process_jetton_deposit_wallet_txs,
}
use bicycle.Scanner.JettonDeposit.Readings.{is_nil, notified, withdrawn, has_unknown}
use bicycle.Scanner.JettonDeposit.Gathering.{gather_txs-read}

-- The sum of the amounts.
abbrev pub sum_amounts : List ExternalIncome → ℤ
sum_amounts [] = pos 0
sum_amounts (i ∷ is) = i.amount +ℤ sum_amounts is

sum_amounts-append :
    (xs ys : List ExternalIncome) → sum_amounts (xs ++ ys) ≡ sum_amounts xs +ℤ sum_amounts ys
sum_amounts-append [] ys = omega int_laws
sum_amounts-append (x ∷ xs) ys = rw (sum_amounts-append xs ys) (omega int_laws)

-- The total of a scan is the sum of its incomes.
abbrev IsBalanced : Scan → Type 0
IsBalanced s = sum_amounts s.events.external_incomes ≡ s.total

add_income-IsBalanced : (s : Scan) (i : ExternalIncome) → IsBalanced s → IsBalanced (add_income s i)
add_income-IsBalanced s i h =
    rw (sum_amounts-append s.events.external_incomes (i ∷ [])) (rw h (omega int_laws))

module _ (codec : Codec) (book : AddressBook) where
  to_owner-IsBalanced :
      (s : Scan) (i : ExternalIncome) (dst : Address) (o : Option Address) {s' : Scan}
      → to_owner codec book s i dst o ≡ ok s'
      → IsBalanced s
      → IsBalanced s'
  to_owner-IsBalanced s i dst none e h = cc
  to_owner-IsBalanced s i dst (some a) e h = elim (Bool-cases (dst == a)) [
    | inl same ↦ rw (← ok-injective (rw same at e)) (add_income-IsBalanced s i h)
    | inr other ↦ rw (← ok-injective (rw other at e)) h
  ]

  from_sender-IsBalanced :
      (s : Scan) (tx : Transaction) (m : InternalMessage) (src : Address) (n : TransferNotification)
      {s' : Scan}
      → from_sender codec book s tx m src n ≡ ok s'
      → IsBalanced s
      → IsBalanced s'
  from_sender-IsBalanced s tx m src n e h =
      elim (Bool-cases (is_known (get_wallet_type_by_tonutils book n.sender))) [
        | inl known ↦ rw (← ok-injective (rw known at e)) h
        | inr payer ↦
            let (dst, _, e1) = >>=-eq-ok (address_from_tonutils m.dst_addr) _ (rw payer at e) in
            let (o, _, e2) = >>=-eq-ok (get_owner book src) _ e1 in
            to_owner-IsBalanced s (income_of codec book tx m src n) dst o e2 h
      ]

  decoded-IsBalanced :
      (s : Scan) (tx : Transaction) (m : InternalMessage) (src : Address)
      (r : Result TransferNotification) {s' : Scan}
      → (elim r [ err _ ↦ ok (mark_unknown s) | ok n ↦ from_sender codec book s tx m src n ])
        ≡ ok s'
      → IsBalanced s
      → IsBalanced s'
  decoded-IsBalanced s tx m src (err x) e h = rw (← ok-injective e) h
  decoded-IsBalanced s tx m src (ok n) e h = from_sender-IsBalanced s tx m src n e h

  scan_out_msg-IsBalanced :
      (tx : Transaction) (s : Scan) (m : Message) {s' : Scan}
      → scan_out_msg codec book tx s m ≡ ok s'
      → IsBalanced s
      → IsBalanced s'
  unfolding scan_out_msg
  scan_out_msg-IsBalanced tx s (internal m) e h =
      let (src, _, e1) = >>=-eq-ok (address_from_tonutils m.src_addr) _ e in
      decoded-IsBalanced s tx m src (decode_transfer_notification codec (some m)) e1 h
  scan_out_msg-IsBalanced tx s (external_in m) e h = rw (← ok-injective e) h
  scan_out_msg-IsBalanced tx s external_out e h = rw (← ok-injective e) h

  scan_out_msgs-IsBalanced :
      (tx : Transaction) (s : Scan) (ms : List Message) {s' : Scan}
      → scan_out_msgs codec book tx s ms ≡ ok s'
      → IsBalanced s
      → IsBalanced s'
  unfolding scan_out_msgs
  scan_out_msgs-IsBalanced tx s [] e h = rw (← ok-injective e) h
  scan_out_msgs-IsBalanced tx s (m ∷ ms) e h =
      let (mid, first, rest) = >>=-eq-ok (scan_out_msg codec book tx s m) _ e in
      scan_out_msgs-IsBalanced tx mid ms rest (scan_out_msg-IsBalanced tx s m first h)

  process_out-IsBalanced :
      (tx : Transaction) {s : Scan}
      → process_jetton_deposit_out_msgs codec book tx ≡ ok s
      → IsBalanced s
  unfolding process_jetton_deposit_out_msgs
  process_out-IsBalanced tx e =
      let (ms, first, rest) = >>=-eq-ok (out_messages tx) _ e in
      scan_out_msgs-IsBalanced tx no_scan ms rest refl

  process_in_no_income :
      (tx : Transaction) {s : Scan}
      → process_jetton_deposit_in_msg codec book tx ≡ ok s
      → s.events.external_incomes ≡ []
  unfolding process_jetton_deposit_in_msg
  process_in_no_income tx e = ground arith

  abbrev HasKnown : Gathered → Type 0
  HasKnown g = sum_amounts g.events.external_incomes ≡ g.known_income

  gather-HasKnown :
      (g : Gathered) (tx : Transaction) (out in_scan : Scan)
      → IsBalanced out
      → in_scan.events.external_incomes ≡ []
      → HasKnown g
      → HasKnown (gather g tx out in_scan)
  unfolding append_events
  gather-HasKnown g tx out in_scan b none_in h = rw (none_in) (
      rw append-nil
        (rw (sum_amounts-append g.events.external_incomes out.events.external_incomes) (rw (b, h))))

  gather_txs-HasKnown :
      (txs : List Transaction) (g : Gathered) {g' : Gathered}
      → gather_txs codec book txs g ≡ ok g'
      → HasKnown g
      → HasKnown g'
  unfolding gather_txs
  gather_txs-HasKnown [] g e h = rw (← ok-injective e) h
  gather_txs-HasKnown (tx ∷ txs) g e h =
      let (out, e1, k) = >>=-eq-ok (process_jetton_deposit_out_msgs codec book tx) _ e in
      let (in_scan, e2, rest) = >>=-eq-ok (process_jetton_deposit_in_msg codec book tx) _ k in
      gather_txs-HasKnown txs (gather g tx out in_scan) rest (
        gather-HasKnown g tx out in_scan (process_out-IsBalanced tx e1) (process_in_no_income tx e2)
          h)

sum_amounts-zero_incomes :
    (addr : Address) (txs : List Transaction) → sum_amounts (zero_incomes addr txs) ≡ pos 0
sum_amounts-zero_incomes addr [] = refl
sum_amounts-zero_incomes addr (tx ∷ txs) = rw (sum_amounts-zero_incomes addr txs) (omega int_laws)

sum_amounts-convert :
    (txs : List Transaction) (addr : Address) (amount : ℤ)
    → sum_amounts (convert_unknown_jetton_txs txs addr amount)
      ≡ (if is_nil txs then pos 0 else amount)
unfolding convert_unknown_jetton_txs
sum_amounts-convert [] addr amount = refl
sum_amounts-convert (tx ∷ txs) addr amount =
    rw (sum_amounts-append (zero_incomes addr (tx ∷ txs)) (unknown_income addr amount tx ∷ []))
      (rw (sum_amounts-zero_incomes addr (tx ∷ txs)) (omega int_laws))

ltb-sub : (k x : ℤ) → ltb_ℤ (pos 0) (x -ℤ k) ≡ ltb_ℤ k x
ltb-sub k x = ground (arith, -ℤ_parts x k)

sum_amounts-with_unknown :
    (g : Gathered) (addr : Address) (total : ℤ)
    → sum_amounts g.events.external_incomes ≡ g.known_income
    → sum_amounts (with_unknown g addr (total -ℤ g.known_income)).external_incomes
      ≡ (if ltb_ℤ g.known_income total && not (is_nil g.unknown_txs) then total else g.known_income)
unfolding with_unknown
sum_amounts-with_unknown g addr total h =
    rw (ltb-sub g.known_income total) (elim (Bool-cases (ltb_ℤ g.known_income total)) [
      | inl more ↦
          rw
            (
              more,
              sum_amounts-append g.events.external_incomes _,
              h,
              sum_amounts-convert g.unknown_txs addr _,
            )
            (added (is_nil g.unknown_txs) g.known_income total)
      | inr less ↦ rw less h
    ])
  where
    added : (b : Bool) (k x : ℤ) → k +ℤ (if b then pos 0 else x -ℤ k) ≡ (if not b then x else k)
    added true k x = omega int_laws
    added false k x = omega int_laws

zero_plus : (a : ℤ) → pos 0 +ℤ a ≡ a
zero_plus a = omega int_laws

-- Once the transactions of a jetton deposit have been read and both balances are known, its incomes are found. They add
-- up to the change of the balance plus what the incoming transfers that succeeded take out, if that is more than the
-- notifications to the owner from outside the service bring and a message of the block is unknown; else to what the
-- notifications bring. All of that is read from the messages.
pub jetton_incomes_total :
    (get_jetton_balance : Address → BlockId → Result ℤ) (codec : Codec) (book : AddressBook)
    (addr : Address) (txs : List Transaction) (block prev_block : BlockId) {g : Gathered}
    {before after : ℤ}
    → gather_txs codec book txs nothing_gathered ≡ ok g
    → get_jetton_balance addr prev_block ≡ ok before
    → get_jetton_balance addr block ≡ ok after
    → (e : Events) × (process_jetton_deposit_wallet_txs get_jetton_balance codec book addr txs block
          prev_block
        ≡ ok e)
      × (sum_amounts e.external_incomes ≡ (
          if ltb_ℤ (notified codec book txs) (after -ℤ before +ℤ withdrawn codec book txs)
            && has_unknown codec book txs
          then after -ℤ before +ℤ withdrawn codec book txs
          else notified codec book txs))
unfolding process_jetton_deposit_wallet_txs
jetton_incomes_total balance codec book addr txs block prev_block {g} {before} {after} eg eb ea =
    let (known, taken, nil) = gather_txs-read codec book txs nothing_gathered eg in
    (
      with_unknown g addr (after -ℤ before +ℤ g.withdrawals -ℤ g.known_income),
      rw eg (unfold calculate_jetton_amounts in rw (eb, ea)),
      rw
          (
            ← (known ∙ zero_plus (notified codec book txs)),
            ← (taken ∙ zero_plus (withdrawn codec book txs)),
            unknown_left nil,
          )
          (sum_amounts-with_unknown g addr (after -ℤ before +ℤ g.withdrawals)
            (gather_txs-HasKnown codec book txs nothing_gathered eg refl)),
    )
  where
    unknown_left : {x y : Bool} → x ≡ not y → y ≡ not x
    unknown_left h = ground arith
