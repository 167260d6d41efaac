-- ===== src/Processor/Bounds.antt =====
-- The number of messages in a batch, and where its withdrawals go.
use bicycle.Prelude.{
  ◌≤◌, ℕ, ◌≡◌, refl, sym, ap, subst, ◌∙◌, inl, inr, false, List, [], ◌∷◌, Option, none, some, ltb,
  length, All, All-append, arith, length-append, suc, ◌+◌, is_some, ok, >>=-eq-ok, ok-injective,
  Bool-cases,
}
use bicycle.Models.{
  WalletType, Address, ton_symbol, ServiceWithdrawalTask, ExternalWithdrawalTask,
  InternalWithdrawalTask,
}
use bicycle.Db.Schema.{Database}
use bicycle.Db.AddressBook.{AddressBook, get_wallet_type}
use bicycle.Processor.Messages.{Message, jetton_transfer_ton_amount}
use bicycle.Processor.Balances.{decrease_balances, get_hot_wallet_balances}
use bicycle.Processor.Build.{
  Network, Setup, Batch, ServiceWithdrawal, build_service_withdrawal_message,
  build_jetton_internal_withdrawal_message, build_external_withdrawal_message, add_service,
  add_service_tasks, add_internal, add_internal_tasks, add_external_tasks, empty_batch,
  build_withdrawal_messages,
}
use bicycle.Processor.Fees.{IsFee, service_carried}

module _ (net : Network) (setup : Setup) (book : AddressBook) where
  length-add_service :
      (b : Batch) (db : Database) (now : ℕ) (from : Address) (p : List Message × ServiceWithdrawal)
      → IsFee p
      → length (add_service net setup book b db now from p).0.messages ≤ suc (length b.messages)
  length-add_service b db now from ([], w) k = omega arith
  length-add_service b db now from (m ∷ ms, w) k =
      omega (arith, k.1, length-append b.messages (m ∷ ms))

  add_service_external :
      (b : Batch) (db : Database) (now : ℕ) (from : Address) (p : List Message × ServiceWithdrawal)
      → (add_service net setup book b db now from p).0.external ≡ b.external
  add_service_external b db now from ([], w) = refl
  add_service_external b db now from (m ∷ ms, w) = refl

  -- One message at most for a service task.
  pub add_service_tasks-length :
      (now : ℕ) (ts : List ServiceWithdrawalTask) (b : Batch) (db : Database) {r : Batch × Database}
      → add_service_tasks net setup book now ts b db ≡ ok r
      → (length r.0.messages ≤ length b.messages + length ts) × (r.0.external ≡ b.external)
  unfolding add_service_tasks
  add_service_tasks-length now [] b db {r} e =
      let same : b ≡ r.0 = ap {B = Batch} (λ (x : Batch × Database). x.0) (ok-injective e) in
      (
        subst (λ x. length x.messages ≤ length b.messages + 0) same (omega arith),
        ap (λ x. x.external) (sym same),
      )
  add_service_tasks-length now (t ∷ ts) b db e =
      let ((low, bs), d, e1) =
        >>=-eq-ok (decrease_balances b.balances ton_symbol jetton_transfer_ton_amount) _ e in
      elim (Bool-cases low) [
        | inl l ↦
            let (n, x) = add_service_tasks-length now ts b db (rw l at e1) in (omega (arith, n), x)
        | inr l ↦
            let (p, eb, e2) =
              >>=-eq-ok (build_service_withdrawal_message net setup book t) _ (rw l at e1) in
            let b1 = record b { balances = bs } in
            let (n, x) = add_service_tasks-length now ts _ _ e2 in
            (
              omega (
                arith,
                n,
                length-add_service b1 db now t.from p (service_carried net setup book t eb),
              ),
              x ∙ add_service_external b1 db now t.from p,
            )
      ]

  add_internal-length :
      (b : Batch) (t : InternalWithdrawalTask) (o : Option (Message × ℕ))
      → (length (add_internal net setup book b t o).messages ≤ suc (length b.messages))
        × ((add_internal net setup book b t o).external ≡ b.external)
  add_internal-length b t none = (omega arith, refl)
  add_internal-length b t (some (m, memo)) =
      (omega (arith, length-append b.messages (m ∷ [])), refl)

  pub add_internal_tasks-length :
      (ts : List InternalWithdrawalTask) (b : Batch) {b' : Batch}
      → length b.messages ≤ 251
      → add_internal_tasks net setup book ts b ≡ ok b'
      → (length b'.messages ≤ 251) × (b'.external ≡ b.external)
  unfolding add_internal_tasks
  add_internal_tasks-length [] b h e =
      subst (λ x. (length x.messages ≤ 251) × (x.external ≡ b.external)) (ok-injective e) (h, refl)
  add_internal_tasks-length (t ∷ ts) b h e = elim (Bool-cases (ltb 250 (length b.messages))) [
    | inl full ↦
        subst (λ x. (length x.messages ≤ 251) × (x.external ≡ b.external))
          (ok-injective (rw full at e)) (h, refl)
    | inr room ↦
        let ((low, bs), d, e1) =
          >>=-eq-ok (decrease_balances b.balances ton_symbol jetton_transfer_ton_amount) _
            (rw room at e) in
        elim (Bool-cases low) [
          | inl l ↦ add_internal_tasks-length ts b h (rw l at e1)
          | inr l ↦
              let (o, eb, e2) =
                >>=-eq-ok (build_jetton_internal_withdrawal_message net setup book t) _
                  (rw l at e1) in
              let (n, x) = add_internal-length (record b { balances = bs }) t o in
              let few : length b.messages ≤ 250 = ground arith in
              let (n', x') = add_internal_tasks-length ts _ (omega (arith, n, few)) e2 in
              (n', x' ∙ x)
        ]
  ]

  -- A withdrawal to an address that the service does not know.
  abbrev pub IsOutside : ExternalWithdrawalTask → Type 0
  IsOutside w = get_wallet_type book w.destination ≡ none

  no_type : (o : Option WalletType) → is_some o ≡ false → o ≡ none
  no_type none h = refl
  no_type (some t) h = cc

  abbrev IsInBounds : Batch → Type 0
  IsInBounds b = (length b.messages ≤ 251) × All IsOutside b.external

  add_external_tasks-IsInBounds :
      (ws : List ExternalWithdrawalTask) (b : Batch) {b' : Batch}
      → IsInBounds b
      → add_external_tasks net setup book ws b ≡ ok b'
      → IsInBounds b'
  unfolding add_external_tasks
  add_external_tasks-IsInBounds [] b h e = subst IsInBounds (ok-injective e) h
  add_external_tasks-IsInBounds (w ∷ ws) b h e = elim (Bool-cases (ltb 250 (length b.messages))) [
    | inl full ↦ subst IsInBounds (ok-injective (rw full at e)) h
    | inr room ↦ elim (Bool-cases (is_some (get_wallet_type book w.destination))) [
      | inl own ↦ add_external_tasks-IsInBounds ws b h (rw (room, own) at e)
      | inr outside ↦
          let ((low, bs), d, e1) =
            >>=-eq-ok (decrease_balances b.balances w.currency w.amount) _
              (rw (room, outside) at e) in
          elim (Bool-cases low) [
            | inl l ↦ add_external_tasks-IsInBounds ws b h (rw l at e1)
            | inr l ↦
                let (m, em, e2) =
                  >>=-eq-ok (build_external_withdrawal_message net setup book w) _ (rw l at e1) in
                let few : length b.messages ≤ 250 = ground arith in
                add_external_tasks-IsInBounds ws _
                  (
                    omega (arith, few, length-append b.messages (m ∷ [])),
                    All-append IsOutside b.external (w ∷ []) h.1 (no_type _ outside, tt),
                  )
                  e2
          ]
    ]
  ]

  -- A batch built of at most 250 service tasks (the limit of their query) has at most 251 messages, whatever
  -- the other tasks are, and none of its external withdrawals goes to a wallet in the address book.
  pub batch_bounds :
      (now : ℕ) (service_tasks : List ServiceWithdrawalTask)
      (internal_tasks : List Address → List InternalWithdrawalTask)
      (external_tasks : List ExternalWithdrawalTask) (db db' : Database) (b : Batch)
      → length service_tasks ≤ 250
      → build_withdrawal_messages net setup book now service_tasks internal_tasks external_tasks db
        ≡ ok (b, db')
      → (length b.messages ≤ 251) × All IsOutside b.external
  unfolding build_withdrawal_messages
  batch_bounds now service_tasks internal_tasks external_tasks db db' b few e =
      let (bs, e0, e1) =
        >>=-eq-ok
          (get_hot_wallet_balances net.get_account_current_state net.get_last_jetton_balance
            setup.ton_hot_wallet setup.jetton_hot_wallets)
          _ e in
      let ((b1, db1), s, e2) =
        >>=-eq-ok
          (add_service_tasks net setup book now service_tasks (empty_batch net setup book bs) db) _
          e1 in
      let (b2, i, e3) =
        >>=-eq-ok (add_internal_tasks net setup book (internal_tasks b1.used_addresses) b1) _ e2 in
      let (b3, x, e4) = >>=-eq-ok (add_external_tasks net setup book external_tasks b2) _ e3 in
      let (n1, x1) =
        add_service_tasks-length now service_tasks (empty_batch net setup book bs) db s in
      let (n2, x2) =
        add_internal_tasks-length (internal_tasks b1.used_addresses) b1 (omega (arith, n1, few))
          i in
      let none_yet : [] ≡ b2.external = sym (x2 ∙ x1) in
      let end : IsInBounds b3 =
        add_external_tasks-IsInBounds external_tasks b2 (n2, subst (All IsOutside) none_yet tt) x in
      subst IsInBounds (ap {B = Batch} (λ (z : Batch × Database). z.0) (ok-injective e4)) end
