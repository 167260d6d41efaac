-- ===== src/Processor/Fees.antt =====
-- The TON that the messages of a task carry, and how many there are.
use bicycle.Prelude.{
  length, ◌≤◌, arith, ℕ, ◌≡◌, sym, ap, subst, inl, inr, Bool, false, List, [], ◌∷◌, Option, none,
  some, str_eq, is_some, Result, nil_dereference, invalid_service_address, or_error, ok, err,
  >>=-eq-ok, ok-injective, Bool-cases,
}
use bicycle.Prelude.Int.{◌≤ℤ◌, ltb_ℤ, int_laws}
use bicycle.Models.{
  Address, to_tonutils_std, Coins, ton_symbol, ServiceWithdrawalTask, ExternalWithdrawalTask,
  InternalWithdrawalTask, WalletType, ton_deposit_wallet, jetton_owner,
}
use bicycle.Db.AddressBook.{AddressBook, get_wallet_type, get_wallet_type_by_tonutils}
use bicycle.Processor.Messages.{
  Message, jetton_transfer_ton_amount, build_ton_fill_message,
  build_jetton_proxy_service_ton_withdrawal_message, build_jetton_proxy_withdrawal_message,
  make_jetton_transfer_message, payload_of, build_ton_withdrawal_message,
  build_jetton_withdrawal_message,
}
use bicycle.Processor.Balances.{Balances, lookup}
use bicycle.Processor.Build.{
  Network, Setup, ServiceWithdrawal, build_service_filling, build_service_ton_withdrawal,
  build_service_jetton_withdrawal, is_zero, jetton_wallet_lookup, build_service_withdrawal_message,
  build_jetton_internal_withdrawal_message, build_external_withdrawal_message,
}
use bicycle.Processor.Charges.{carried, charge}

-- At most one message, with at most the fee.
abbrev pub IsFee : List Message × ServiceWithdrawal → Type 0
IsFee p = (carried p.0 ≤ℤ jetton_transfer_ton_amount) × (length p.0 ≤ 1)

abbrev pub IsInternalFee : Option (Message × ℕ) → Type 0
IsInternalFee none = Unit
IsInternalFee (some (m, memo)) = carried (m ∷ []) ≤ℤ jetton_transfer_ton_amount

pub accepted :
    {low : Bool} {bs : Balances} {r : Result (Bool × Balances)}
    → low ≡ false
    → r ≡ ok (low, bs)
    → r ≡ ok (false, bs)
accepted {low} {bs} {r} l d = subst (λ x. r ≡ ok (x, bs)) l d

module _ (net : Network) (setup : Setup) (book : AddressBook) where
  pub filling-IsFee :
      (t : ServiceWithdrawalTask) {p : List Message × ServiceWithdrawal}
      → build_service_filling net setup book t ≡ ok p
      → IsFee p
  unfolding build_service_filling build_ton_fill_message
  filling-IsFee t e =
      let (master, _, e1) = >>=-eq-ok (or_error t.jetton_master nil_dereference) _ e in
      let (wallet, _, e2) =
        >>=-eq-ok (net.get_jetton_wallet_address (to_tonutils_std t.from) (to_tonutils_std master))
          _ e1 in
      let (balance, _, e3) = >>=-eq-ok (net.get_last_jetton_balance wallet) _ e2 in
      elim (Bool-cases (is_zero balance)) [
        | inl z ↦ subst IsFee (ok-injective (rw z at e3)) (omega int_laws, omega arith)
        | inr z ↦ subst IsFee (ok-injective (rw z at e3)) (omega int_laws, omega arith)
      ]

  pub ton-IsFee :
      (t : ServiceWithdrawalTask) {p : List Message × ServiceWithdrawal}
      → build_service_ton_withdrawal net setup book t ≡ ok p
      → IsFee p
  unfolding build_service_ton_withdrawal build_jetton_proxy_service_ton_withdrawal_message
  ton-IsFee t e =
      let (proxy, _, e1) = >>=-eq-ok (net.new_jetton_proxy t.subwallet_id) _ e in
      let (state, _, e2) = >>=-eq-ok (net.get_account_current_state proxy) _ e1 in
      elim (Bool-cases (is_zero state.0)) [
        | inl z ↦ subst IsFee (ok-injective (rw z at e2)) (omega int_laws, omega arith)
        | inr z ↦ subst IsFee (ok-injective (rw z at e2)) (omega int_laws, omega arith)
      ]

  pub jetton-IsFee :
      (t : ServiceWithdrawalTask) (master : Address) {p : List Message × ServiceWithdrawal}
      → build_service_jetton_withdrawal net setup book t master ≡ ok p
      → IsFee p
  unfolding build_service_jetton_withdrawal build_jetton_proxy_withdrawal_message
  jetton-IsFee t master e =
      let (proxy, _, e1) = >>=-eq-ok (net.new_jetton_proxy t.subwallet_id) _ e in
      let (wallet, _, e2) =
        >>=-eq-ok (net.get_jetton_wallet_address proxy (to_tonutils_std master)) _ e1 in
      elim (Bool-cases (is_some (get_wallet_type_by_tonutils book (some wallet)))) [
        | inl known ↦ subst IsFee (ok-injective (rw known at e2)) (omega int_laws, omega arith)
        | inr unknown ↦
            let (balance, _, e3) =
              >>=-eq-ok (net.get_last_jetton_balance wallet) _ (rw unknown at e2) in
            elim (Bool-cases (is_zero balance)) [
              | inl z ↦ subst IsFee (ok-injective (rw z at e3)) (omega int_laws, omega arith)
              | inr z ↦ subst IsFee (ok-injective (rw z at e3)) (omega int_laws, omega arith)
            ]
      ]

  pub service_carried :
      (t : ServiceWithdrawalTask) {p : List Message × ServiceWithdrawal}
      → build_service_withdrawal_message net setup book t ≡ ok p
      → IsFee p
  unfolding build_service_withdrawal_message
  service_carried t e = by_type (get_wallet_type book t.from) t.jetton_master e
    where
      by_type :
          (o : Option WalletType) (m : Option Address) {p : List Message × ServiceWithdrawal}
          → (elim o as (λ _. Result (List Message × ServiceWithdrawal)) [
            | some ton_deposit_wallet ↦ build_service_filling net setup book t
            | some jetton_owner ↦ elim m as (λ _. Result (List Message × ServiceWithdrawal)) [
              | none ↦ build_service_ton_withdrawal net setup book t
              | some master ↦ build_service_jetton_withdrawal net setup book t master
            ]
            | _ ↦ err invalid_service_address
          ])
            ≡ ok p
          → IsFee p
      by_type (some ton_deposit_wallet) m k = filling-IsFee t k
      by_type (some jetton_owner) none k = ton-IsFee t k
      by_type (some jetton_owner) (some master) k = jetton-IsFee t master k
      by_type _ m k = cc

  pub internal_carried :
      (t : InternalWithdrawalTask) {o : Option (Message × ℕ)}
      → build_jetton_internal_withdrawal_message net setup book t ≡ ok o
      → IsInternalFee o
  unfolding build_jetton_internal_withdrawal_message build_jetton_proxy_withdrawal_message
  internal_carried t e =
      let (proxy, _, e1) = >>=-eq-ok (net.new_jetton_proxy t.subwallet_id) _ e in
      let (balance, _, e2) =
        >>=-eq-ok (net.get_last_jetton_balance (to_tonutils_std t.from)) _ e1 in
      let (cutoff, _, e3) =
        >>=-eq-ok (or_error (lookup t.currency setup.withdrawal_cutoffs) nil_dereference) _ e2 in
      elim (Bool-cases (ltb_ℤ cutoff balance)) [
        | inl above ↦
            let (u, _, e4) = >>=-eq-ok (net.new_uuid t.from) _ (rw above at e3) in
            subst IsInternalFee (ok-injective e4) (omega int_laws)
        | inr below ↦ subst IsInternalFee (ok-injective (rw below at e3)) tt
      ]

  pub external_carried :
      (w : ExternalWithdrawalTask) {m : Message}
      → build_external_withdrawal_message net setup book w ≡ ok m
      → m.amount ≡ charge ton_symbol w.currency w.amount
  unfolding build_external_withdrawal_message build_ton_withdrawal_message
      build_jetton_withdrawal_message
  external_carried w e = elim (Bool-cases (str_eq w.currency ton_symbol)) [
    | inl ton ↦
        let (p, _, k) =
          >>=-eq-ok (payload_of net.decode_binary_comment w.binary_comment w.comment) _
            (rw ton at e) in
        rw ton (sym (ap {B = Coins} (λ (m : Message). m.amount) (ok-injective k)))
    | inr jetton ↦
        let (jw, _, k) =
          >>=-eq-ok
            (or_error (jetton_wallet_lookup w.currency setup.jetton_hot_wallets) nil_dereference) _
            (rw jetton at e) in
        let (b, _, l) =
          >>=-eq-ok
            (make_jetton_transfer_message net.decode_binary_comment (to_tonutils_std w.destination)
              setup.ton_hot_wallet w.amount setup.jetton_forward_amount w.query_id w.comment
              w.binary_comment)
            _ k in
        rw jetton (sym (ap {B = Coins} (λ (m : Message). m.amount) (ok-injective l)))
  ]
