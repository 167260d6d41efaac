-- ===== src/Processor/Solvency.antt =====
-- A batch never spends more than the hot wallet holds.
use mathlib.Core.List.{append-nil}
use bicycle.Prelude.{
  ℕ, ◌≡◌, refl, sym, ap, subst, ◌∙◌, inl, inr, false, List, [], ◌∷◌, ◌++◌, Option, none, some,
  String, str_eq, ltb, length, is_some, ok, >>=-eq-ok, ok-injective, Bool-cases,
}
use bicycle.Prelude.Int.{pos, ◌+ℤ◌, ◌≤ℤ◌, int_laws}
use bicycle.Models.{
  Address, Coins, ton_symbol, ServiceWithdrawalTask, ExternalWithdrawalTask, InternalWithdrawalTask,
}
use bicycle.Db.Schema.{Database}
use bicycle.Db.AddressBook.{AddressBook, get_wallet_type}
use bicycle.Processor.Messages.{Message, jetton_transfer_ton_amount}
use bicycle.Processor.Balances.{Balances, lookup, decrease_balances, get_hot_wallet_balances}
use bicycle.Processor.Build.{
  Network, Setup, Batch, ServiceWithdrawal, build_service_withdrawal_message,
  build_jetton_internal_withdrawal_message, build_external_withdrawal_message, add_service,
  add_service_tasks, add_internal, add_internal_tasks, add_external_tasks, empty_batch,
  build_withdrawal_messages,
}
use bicycle.Processor.Charges.{
  Covered, carried-append, charge, IsCovered-less, decrease_balances-Covered, fee-Covered, spent,
  withdrawn-append,
}
use bicycle.Processor.Fees.{
  IsFee, IsInternalFee, accepted, external_carried, internal_carried, service_carried,
}

module _ (net : Network) (setup : Setup) (book : AddressBook) where
  add_service-Covered :
      (c : String) (start : Coins) (b : Batch) (db : Database) (now : ℕ) (from : Address)
      (bs : Balances) (p : List Message × ServiceWithdrawal)
      → decrease_balances b.balances ton_symbol jetton_transfer_ton_amount ≡ ok (false, bs)
      → Covered c start b
      → IsFee p
      → Covered c start (add_service net setup book (record b { balances = bs }) db now from p).0
  add_service-Covered c start b db now from bs ([], w) d h k =
      fee-Covered c start b (record b { balances = bs }) [] bs d h k.0 refl
        (sym (append-nil b.messages)) refl
  add_service-Covered c start b db now from bs (m ∷ ms, w) d h k =
      fee-Covered c start b
        (add_service net setup book (record b { balances = bs }) db now from (m ∷ ms, w)).0 (m ∷ ms)
        bs d h k.0 refl refl refl

  add_internal-Covered :
      (c : String) (start : Coins) (b : Batch) (t : InternalWithdrawalTask) (bs : Balances)
      (o : Option (Message × ℕ))
      → decrease_balances b.balances ton_symbol jetton_transfer_ton_amount ≡ ok (false, bs)
      → Covered c start b
      → IsInternalFee o
      → Covered c start (add_internal net setup book (record b { balances = bs }) t o)
  add_internal-Covered c start b t bs none d h k =
      fee-Covered c start b (record b { balances = bs }) [] bs d h (omega int_laws) refl
        (sym (append-nil b.messages)) refl
  add_internal-Covered c start b t bs (some (m, memo)) d h k =
      fee-Covered c start b
        (add_internal net setup book (record b { balances = bs }) t (some (m, memo))) (m ∷ []) bs d
        h k refl refl refl

  add_service_tasks-Covered :
      (c : String) (start : Coins) (now : ℕ) (ts : List ServiceWithdrawalTask) (b : Batch)
      (db : Database) {r : Batch × Database}
      → add_service_tasks net setup book now ts b db ≡ ok r
      → Covered c start b
      → Covered c start r.0
  unfolding add_service_tasks
  add_service_tasks-Covered c start now [] b db e h =
      subst (λ x. Covered c start x.0) (ok-injective e) h
  add_service_tasks-Covered c start now (t ∷ ts) b db e h =
      let ((low, bs), d, e1) =
        >>=-eq-ok (decrease_balances b.balances ton_symbol jetton_transfer_ton_amount) _ e in
      elim (Bool-cases low) [
        | inl l ↦ add_service_tasks-Covered c start now ts b db (rw l at e1) h
        | inr l ↦
            let (p, eb, e2) =
              >>=-eq-ok (build_service_withdrawal_message net setup book t) _ (rw l at e1) in
            add_service_tasks-Covered c start now ts _ _ e2 (
              add_service-Covered c start b db now t.from bs p (accepted l d) h
                (service_carried net setup book t eb))
      ]

  add_internal_tasks-Covered :
      (c : String) (start : Coins) (ts : List InternalWithdrawalTask) (b : Batch) {b' : Batch}
      → add_internal_tasks net setup book ts b ≡ ok b'
      → Covered c start b
      → Covered c start b'
  unfolding add_internal_tasks
  add_internal_tasks-Covered c start [] b e h = subst (Covered c start) (ok-injective e) h
  add_internal_tasks-Covered c start (t ∷ ts) b e h =
      elim (Bool-cases (ltb 250 (length b.messages))) [
        | inl full ↦ subst (Covered c start) (ok-injective (rw full at e)) h
        | inr room ↦
            let ((low, bs), d, e1) =
              >>=-eq-ok (decrease_balances b.balances ton_symbol jetton_transfer_ton_amount) _
                (rw room at e) in
            elim (Bool-cases low) [
              | inl l ↦ add_internal_tasks-Covered c start ts b (rw l at e1) h
              | inr l ↦
                  let (o, eb, e2) =
                    >>=-eq-ok (build_jetton_internal_withdrawal_message net setup book t) _
                      (rw l at e1) in
                  add_internal_tasks-Covered c start ts _ e2 (
                    add_internal-Covered c start b t bs o (accepted l d) h
                      (internal_carried net setup book t eb))
            ]
      ]

  external_spent :
      (c : String) (b b' : Batch) (w : ExternalWithdrawalTask) (m : Message)
      → m.amount ≡ charge ton_symbol w.currency w.amount
      → b'.messages ≡ b.messages ++ m ∷ []
      → b'.external ≡ b.external ++ w ∷ []
      → spent c b' ≤ℤ spent c b +ℤ charge c w.currency w.amount
  external_spent c b b' w m h em ee = elim (Bool-cases (str_eq c ton_symbol)) [
    | inl same ↦ rw (same, em, carried-append b.messages (m ∷ []), h) (omega int_laws)
    | inr other ↦ rw (other, ee, withdrawn-append c b.external w) (omega int_laws)
  ]

  add_external_tasks-Covered :
      (c : String) (start : Coins) (ws : List ExternalWithdrawalTask) (b : Batch) {b' : Batch}
      → add_external_tasks net setup book ws b ≡ ok b'
      → Covered c start b
      → Covered c start b'
  unfolding add_external_tasks
  add_external_tasks-Covered c start [] b e h = subst (Covered c start) (ok-injective e) h
  add_external_tasks-Covered c start (w ∷ ws) b e h =
      elim (Bool-cases (ltb 250 (length b.messages))) [
        | inl full ↦ subst (Covered c start) (ok-injective (rw full at e)) h
        | inr room ↦ elim (Bool-cases (is_some (get_wallet_type book w.destination))) [
          | inl own ↦ add_external_tasks-Covered c start ws b (rw (room, own) at e) h
          | inr outside ↦
              let ((low, bs), d, e1) =
                >>=-eq-ok (decrease_balances b.balances w.currency w.amount) _
                  (rw (room, outside) at e) in
              elim (Bool-cases low) [
                | inl l ↦ add_external_tasks-Covered c start ws b (rw l at e1) h
                | inr l ↦
                    let (m, em, e2) =
                      >>=-eq-ok (build_external_withdrawal_message net setup book w) _
                        (rw l at e1) in
                    add_external_tasks-Covered c start ws _ e2 (
                      IsCovered-less c start _ _ bs
                        (external_spent c b
                          (record b {
                            balances = bs;
                            messages = b.messages ++ m ∷ [];
                            external = b.external ++ w ∷ [];
                          })
                          w m (external_carried net setup book w em) refl refl)
                        (decrease_balances-Covered c w.currency w.amount start (spent c b)
                          b.balances (accepted l d) h))
              ]
        ]
      ]

  start-Covered :
      (c : String) (start : Coins) (bs : Balances)
      → lookup c bs ≡ some start
      → pos 0 ≤ℤ start
      → Covered c start (empty_batch net setup book bs)
  start-Covered c start bs l h = elim (Bool-cases (str_eq c ton_symbol)) [
    | inl same ↦ (start, l, h, rw same (omega int_laws))
    | inr other ↦ (start, l, h, rw other (omega int_laws))
  ]

  covered_spent : (c : String) (start : Coins) (b : Batch) → Covered c start b → spent c b ≤ℤ start
  covered_spent c start b (r, l, p, q) = omega int_laws

  -- Of each currency of which the hot wallet's balance is known and not negative, TON included, a batch
  -- that `buildWithdrawalMessages` builds spends at most that balance: of TON with the messages' own
  -- amounts, of a jetton with the withdrawals in it. All three kinds of tasks count.
  pub batch_solvent :
      (now : ℕ) (service_tasks : List ServiceWithdrawalTask)
      (internal_tasks : List Address → List InternalWithdrawalTask)
      (external_tasks : List ExternalWithdrawalTask) (db db' : Database) (balances : Balances)
      (b : Batch) (c : String) (start : Coins)
      → get_hot_wallet_balances net.get_account_current_state net.get_last_jetton_balance
          setup.ton_hot_wallet setup.jetton_hot_wallets
        ≡ ok balances
      → lookup c balances ≡ some start
      → pos 0 ≤ℤ start
      → build_withdrawal_messages net setup book now service_tasks internal_tasks external_tasks db
        ≡ ok (b, db')
      → spent c b ≤ℤ start
  unfolding build_withdrawal_messages
  batch_solvent now service_tasks internal_tasks external_tasks db db' balances b c start eb l h e =
      let (bs, e0, e1) =
        >>=-eq-ok
          (get_hot_wallet_balances net.get_account_current_state net.get_last_jetton_balance
            setup.ton_hot_wallet setup.jetton_hot_wallets)
          _ e in
      let same : bs ≡ balances = ok-injective (sym e0 ∙ eb) in
      let begin : Covered c start (empty_batch net setup book bs) =
        start-Covered c start bs (subst (λ x. lookup c x ≡ some start) (sym same) l) h in
      let ((b1, db1), s, e2) =
        >>=-eq-ok
          (add_service_tasks net setup book now service_tasks (empty_batch net setup book bs) db) _
          e1 in
      let (b2, i, e3) =
        >>=-eq-ok (add_internal_tasks net setup book (internal_tasks b1.used_addresses) b1) _ e2 in
      let (b3, x, e4) = >>=-eq-ok (add_external_tasks net setup book external_tasks b2) _ e3 in
      let end : Covered c start b3 = add_external_tasks-Covered c start external_tasks b2 x (
        add_internal_tasks-Covered c start (internal_tasks b1.used_addresses) b1 i
          (add_service_tasks-Covered c start now service_tasks _ db s begin)) in
      let last : b3 ≡ b = ap {B = Batch} (λ (z : Batch × Database). z.0) (ok-injective e4) in
      subst (λ z. spent c z ≤ℤ start) last (covered_spent c start b3 end)
