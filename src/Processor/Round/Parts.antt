-- ===== src/Processor/Round/Parts.antt =====
-- What a batch takes of the tasks, and what building it leaves as it was.
use mathlib.Core.List.{append-nil, append_assoc}
use bicycle.Prelude.{
  ℕ, ◌≡◌, refl, sym, ap, subst, ◌∙◌, inl, inr, false, List, [], ◌∷◌, ◌++◌, contains, ltb, ◌≤◌,
  length, is_some, ok, >>=-eq-ok, ok-injective, Bool-cases, arith,
}
use bicycle.Models.{
  Address, ton_symbol, ExternalWithdrawalTask, ServiceWithdrawalTask, InternalWithdrawalTask,
}
use bicycle.Db.Schema.{Database}
use bicycle.Db.External.History.{task_ids, ArePending, Unrelated}
use bicycle.Db.AddressBook.{AddressBook, get_wallet_type}
use bicycle.Processor.Build.{
  Network, Setup, Batch, ServiceWithdrawal, add_service, add_service_tasks, add_internal_tasks,
  add_external_tasks, empty_batch, build_external_withdrawal_message,
  build_service_withdrawal_message, build_withdrawal_messages, update_service_withdrawal_request,
}
use bicycle.Processor.Bounds.{add_service_tasks-length, add_internal_tasks-length}
use bicycle.Processor.Messages.{Message, jetton_transfer_ton_amount}
use bicycle.Processor.Balances.{decrease_balances, get_hot_wallet_balances}

-- The first list is the second without some entries.
pub data Part {ℓ} {A : Type ℓ} : List A → List A → Type ℓ where
  none_left : {xs : List A} → Part [] xs
  keep : {x : A} {xs ys : List A} → Part xs ys → Part (x ∷ xs) (x ∷ ys)
  skip : {x : A} {xs ys : List A} → Part xs ys → Part xs (x ∷ ys)

contains-Part :
    (q : ℕ) {ts us : List ExternalWithdrawalTask}
    → Part ts us
    → contains q (task_ids us) ≡ false
    → contains q (task_ids ts) ≡ false
contains-Part q none_left h = refl
contains-Part q (keep p) h = ground (arith, contains-Part q p)
contains-Part q (skip p) h = contains-Part q p (ground arith)

pub ArePending-Part :
    (db : Database) {ts us : List ExternalWithdrawalTask}
    → Part ts us
    → ArePending db us
    → ArePending db ts
ArePending-Part db none_left h = tt
ArePending-Part db (keep p) (w, d, h) = (w, contains-Part _ p d, ArePending-Part db p h)
ArePending-Part db (skip p) (w, d, h) = ArePending-Part db p h

-- What a step that does not touch the requests leaves to a batch.
pub ArePending-Unrelated :
    (s t : Database) (ts : List ExternalWithdrawalTask)
    → Unrelated s t
    → ArePending s ts
    → ArePending t ts
ArePending-Unrelated s t [] u h = tt
ArePending-Unrelated s t (x ∷ ts) u ((r, found, waits), d, h) =
    ((r, rw u.1 found, waits), d, ArePending-Unrelated s t ts u h)

Unrelated-after : (s t u : Database) → Unrelated s t → Unrelated t u → Unrelated s u
Unrelated-after s t u (a, b, c) (a', b', c') = (a' ∙ a, b' ∙ b, c' ∙ c)

module _ (net : Network) (setup : Setup) (book : AddressBook) where
  nothing :
      (b : Batch) (ws : List ExternalWithdrawalTask) {b' : Batch}
      → ok b ≡ ok b'
      → (added : List ExternalWithdrawalTask) × (b'.external ≡ b.external ++ added) × Part added ws
  nothing b ws e = (
    [],
    ap (λ (x : Batch). x.external) (sym (ok-injective e)) ∙ sym (append-nil b.external),
    none_left,
  )

  -- The loop adds a part of its tasks.
  add_external_tasks-Part :
      (ws : List ExternalWithdrawalTask) (b : Batch) {b' : Batch}
      → add_external_tasks net setup book ws b ≡ ok b'
      → (added : List ExternalWithdrawalTask) × (b'.external ≡ b.external ++ added) × Part added ws
  unfolding add_external_tasks
  add_external_tasks-Part [] b e = nothing b [] e
  add_external_tasks-Part (w ∷ ws) b e = elim (Bool-cases (ltb 250 (length b.messages))) [
    | inl full ↦ nothing b (w ∷ ws) (rw full at e)
    | inr room ↦ elim (Bool-cases (is_some (get_wallet_type book w.destination))) [
      | inl own ↦
          let (added, same, part) = add_external_tasks-Part ws b (rw (room, own) at e) in
          (added, same, skip part)
      | inr outside ↦
          let ((low, bs), d, e1) =
            >>=-eq-ok (decrease_balances b.balances w.currency w.amount) _
              (rw (room, outside) at e) in
          elim (Bool-cases low) [
            | inl l ↦
                let (added, same, part) = add_external_tasks-Part ws b (rw l at e1) in
                (added, same, skip part)
            | inr l ↦
                let (m, em, e2) =
                  >>=-eq-ok (build_external_withdrawal_message net setup book w) _ (rw l at e1) in
                let (added, same, part) = add_external_tasks-Part ws _ e2 in
                (w ∷ added, same ∙ append_assoc b.external (w ∷ []) added, keep part)
          ]
    ]
  ]

  add_service-Unrelated :
      (b : Batch) (db : Database) (now : ℕ) (from : Address) (p : List Message × ServiceWithdrawal)
      → Unrelated db (add_service net setup book b db now from p).1
  add_service-Unrelated b db now from ([], w) =
      unfold update_service_withdrawal_request in (refl, refl, refl)
  add_service-Unrelated b db now from (m ∷ ms, w) = (refl, refl, refl)

  add_service_tasks-Unrelated :
      (now : ℕ) (ts : List ServiceWithdrawalTask) (b : Batch) (db : Database) {r : Batch × Database}
      → add_service_tasks net setup book now ts b db ≡ ok r
      → Unrelated db r.1
  unfolding add_service_tasks
  add_service_tasks-Unrelated now [] b db e =
      subst (λ (r : Batch × Database). Unrelated db r.1) (ok-injective e) (refl, refl, refl)
  add_service_tasks-Unrelated now (t ∷ ts) b db {r} e =
      let ((low, bs), d, e1) =
        >>=-eq-ok (decrease_balances b.balances ton_symbol jetton_transfer_ton_amount) _ e in
      elim (Bool-cases low) [
        | inl l ↦ add_service_tasks-Unrelated now ts b db (rw l at e1)
        | inr l ↦
            let (p, eb, e2) =
              >>=-eq-ok (build_service_withdrawal_message net setup book t) _ (rw l at e1) in
            let b1 : Batch = record b { balances = bs } in
            let next = add_service net setup book b1 db now t.from p in
            Unrelated-after db next.1 r.1 (add_service-Unrelated b1 db now t.from p)
              (add_service_tasks-Unrelated now ts next.0 next.1 e2)
      ]

  -- The batch sends a part of the external tasks, and building it touches no table of external withdrawals.
  pub build_withdrawal_messages-Part :
      (now : ℕ) (service_tasks : List ServiceWithdrawalTask)
      (internal_tasks : List Address → List InternalWithdrawalTask)
      (external_tasks : List ExternalWithdrawalTask) (db db' : Database) (b : Batch)
      → length service_tasks ≤ 250
      → build_withdrawal_messages net setup book now service_tasks internal_tasks external_tasks db
        ≡ ok (b, db')
      → Part b.external external_tasks × Unrelated db db'
  unfolding build_withdrawal_messages
  build_withdrawal_messages-Part now service_tasks internal_tasks external_tasks db db' b few e =
      let (bs, e0, e1) =
        >>=-eq-ok
          (get_hot_wallet_balances net.get_account_current_state net.get_last_jetton_balance
            setup.ton_hot_wallet setup.jetton_hot_wallets)
          _ e in
      let ((b1, db1), s, e2) =
        >>=-eq-ok
          (add_service_tasks net setup book now service_tasks (empty_batch net setup book bs) db) _
          e1 in
      let (b2, i, e3) =
        >>=-eq-ok (add_internal_tasks net setup book (internal_tasks b1.used_addresses) b1) _ e2 in
      let (b3, x, e4) = >>=-eq-ok (add_external_tasks net setup book external_tasks b2) _ e3 in
      let (n1, x1) =
        add_service_tasks-length net setup book now service_tasks (empty_batch net setup book bs) db
          s in
      let (n2, x2) =
        add_internal_tasks-length net setup book (internal_tasks b1.used_addresses) b1
          (omega (arith, n1, few)) i in
      let (added, same, part) = add_external_tasks-Part external_tasks b2 x in
      let end = ok-injective e4 in
      let all : added ≡ b.external =
        sym (same ∙ ap (λ l. l ++ added) (x2 ∙ x1))
        ∙ ap {B = List ExternalWithdrawalTask} (λ (z : Batch × Database). z.0.external) end in
      let quiet : Unrelated db db' =
        subst (Unrelated db) (ap {B = Database} (λ (z : Batch × Database). z.1) end)
          (add_service_tasks-Unrelated now service_tasks (empty_batch net setup book bs) db s) in
      (subst (λ l. Part l external_tasks) all part, quiet)
