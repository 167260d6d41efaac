-- ===== src/Db/Blocks/Once.antt =====
-- What the transaction of a block keeps: the invariant of external withdrawals, and that no block is
-- applied twice.
use bicycle.Prelude.{
  ℕ, ◌≡◌, ◌∙◌, refl, subst, true, List, [], ◌∷◌, Option, none, some, String, find, is_some, arith,
  Error, Result, ok, err, >>=-eq-ok, ok-injective, inl, inr, Bool-cases, or_error, bad_memo,
}
use bicycle.Models.{
  Events, BlockEvents, ShardBlockHeader, ExternalIncome, InternalIncome, SendingConfirmation,
  InternalWithdrawal, ExternalWithdrawal, JettonWithdrawalConfirmation,
}
use bicycle.Db.Schema.{Database, BlockRow, InternalWithdrawalRow, ExternalWithdrawalRow}
use bicycle.Db.AddressBook.{AddressBook}
use bicycle.Db.External.{
  update_found, update_external_withdrawal, apply_jetton_withdrawal_confirmation,
}
use bicycle.Db.External.Invariant.{
  Inv, update_external_withdrawal-Inv, apply_jetton_withdrawal_confirmation-Inv,
}
use bicycle.Db.Internal.{
  has_memo, confirm_sending, finish_found, apply_sending_confirmation, update_internal_withdrawal,
}
use bicycle.Db.Incomes.{save_external_income, save_internal_income, income_deposit}
use bicycle.Db.Blocks.{
  for_each, finish_transaction, same_block, save_block, apply_events, save_parsed_block_data,
}

-- A property that every statement of a loop keeps is kept by the loop.
for_each_inv {ℓ κ} :
    {A : Type ℓ} (P : Database → Type κ) (f : Database → A → Result Database)
    → ((d : Database) (x : A) (d' : Database) → f d x ≡ ok d' → P d → P d')
    → (xs : List A) (d : Database) {d' : Database} → for_each f xs d ≡ ok d'
    → P d
    → P d'
unfolding for_each
for_each_inv P f keep [] d e p = subst P (ok-injective e) p
for_each_inv P f keep (x ∷ xs) d e p =
    let (mid, first, rest) = >>=-eq-ok (f d x) _ e in
    for_each_inv P f keep xs mid rest (keep d x mid first p)

-- The tables that the invariant and the check of blocks read are the same.
abbrev pub Same : Database → Database → Type 0
Same d d' =
    (d'.block_data ≡ d.block_data)
    × (d'.external_withdrawals ≡ d.external_withdrawals)
    × (d'.withdrawal_requests ≡ d.withdrawal_requests)
    × (d'.next_query_id ≡ d.next_query_id)

-- The invariant of external withdrawals, and the blocks that are recorded.
abbrev Kept : List BlockRow → Database → Type 0
Kept b d = Inv d × (d.block_data ≡ b)

Kept-of_Same : (b : List BlockRow) (d d' : Database) → Same d d' → Kept b d → Kept b d'
Kept-of_Same b d d' (blocks, ext, reqs, fresh) (v, e) = (
  record {
    consistent = λ q. rw (ext, reqs) (v.consistent q);
    unique = λ u a. rw ext (v.unique u a);
    fresh = λ q h. rw reqs (v.fresh q (rw fresh at h));
  },
  ground arith,
)

confirm_sending-Same :
    (d : Database) (lt m : ℕ) (o : Option InternalWithdrawalRow) {d' : Database}
    → confirm_sending d lt m o ≡ ok d'
    → Same d d'
unfolding confirm_sending
confirm_sending-Same d lt m none e = cc
confirm_sending-Same d lt m (some r) e = ground arith

finish_found-Same :
    (d : Database) (w : InternalWithdrawal) (m : ℕ) (o : Option InternalWithdrawalRow)
    {d' : Database}
    → finish_found d w m o ≡ ok d'
    → Same d d'
unfolding finish_found
finish_found-Same d w m none e = cc
finish_found-Same d w m (some r) e = ground arith

update_found-blocks :
    (d : Database) (w : ExternalWithdrawal) (o : Option ExternalWithdrawalRow) {d' : Database}
    → update_found d w o ≡ ok d'
    → d'.block_data ≡ d.block_data
unfolding update_found
update_found-blocks d w none e = ground arith
update_found-blocks d w (some r) e = ground arith

module _ (uuid_from_string : String → Option ℕ) (strip_invalid_utf8 : String → String)
    (book : AddressBook) where
  save_internal_income-Same :
      (d : Database) (x : InternalIncome) {d' : Database}
      → save_internal_income uuid_from_string book d x ≡ ok d'
      → Same d d'
  unfolding save_internal_income
  save_internal_income-Same d x e =
      let (m, _, k) = >>=-eq-ok (or_error (uuid_from_string x.memo) bad_memo) _ e in
      let (a, _, h) = >>=-eq-ok (income_deposit book d x.from) _ k in ground arith

  save_external_income-Same :
      (d : Database) (x : ExternalIncome) {d' : Database}
      → ok (save_external_income strip_invalid_utf8 d x) ≡ ok d'
      → Same d d'
  unfolding save_external_income
  save_external_income-Same d x e = ground arith

  confirmation-Kept :
      (b : List BlockRow) (d : Database) (c : JettonWithdrawalConfirmation) {d' : Database}
      → ok (apply_jetton_withdrawal_confirmation d c) ≡ ok d'
      → Kept b d
      → Kept b d'
  confirmation-Kept b d c e (v, h) = subst (Kept b) (ok-injective e) (
    apply_jetton_withdrawal_confirmation-Inv d c v,
    unfold apply_jetton_withdrawal_confirmation in h,
  )

  apply_sending_confirmation-Same :
      (d : Database) (x : SendingConfirmation) {d' : Database}
      → apply_sending_confirmation uuid_from_string d x ≡ ok d'
      → Same d d'
  unfolding apply_sending_confirmation
  apply_sending_confirmation-Same d x e =
      let (m, _, k) = >>=-eq-ok (or_error (uuid_from_string x.memo) bad_memo) _ e in
      confirm_sending-Same d x.lt m (find (has_memo m) d.internal_withdrawals) k

  update_internal_withdrawal-Same :
      (d : Database) (x : InternalWithdrawal) {d' : Database}
      → update_internal_withdrawal uuid_from_string d x ≡ ok d'
      → Same d d'
  unfolding update_internal_withdrawal
  update_internal_withdrawal-Same d x e =
      let (m, _, k) = >>=-eq-ok (or_error (uuid_from_string x.memo) bad_memo) _ e in
      finish_found-Same d x m (find (has_memo m) d.internal_withdrawals) k

  update_external_withdrawal-Kept :
      (b : List BlockRow) (d : Database) (w : ExternalWithdrawal) {d' : Database}
      → update_external_withdrawal d w ≡ ok d'
      → Kept b d
      → Kept b d'
  update_external_withdrawal-Kept b d w e (v, h) = (
    update_external_withdrawal-Inv d w e v,
    unfold update_external_withdrawal in update_found-blocks d w _ e ∙ h,
  )

  -- A property of databases that the single statements keep is kept by the statements for the events; the last
  -- statement adds the block.
  pub apply_events_inv {ℓ} :
      (P : Database → Type ℓ)
      → ((d d' : Database) → Same d d' → P d → P d')
      → ((d : Database) (w : ExternalWithdrawal) (d' : Database)
          → update_external_withdrawal d w ≡ ok d'
          → P d
          → P d')
      → ((d : Database) (c : JettonWithdrawalConfirmation) (d' : Database)
          → ok (apply_jetton_withdrawal_confirmation d c) ≡ ok d'
          → P d
          → P d')
      → (e : Events) (h : ShardBlockHeader) (d : Database) {d' : Database}
      → apply_events uuid_from_string strip_invalid_utf8 book e h d ≡ ok d'
      → P d
      → (mid : Database) × P mid × (save_block mid h ≡ ok d')
  unfolding apply_events
  apply_events_inv P same update confirm e h d eq p0 =
      let (d1, e1, k1) =
        >>=-eq-ok
          (for_each (λ d x. ok (save_external_income strip_invalid_utf8 d x)) e.external_incomes d)
          _ eq in
      let (d2, e2, k2) =
        >>=-eq-ok
          (for_each (λ d x. save_internal_income uuid_from_string book d x) e.internal_incomes d1) _
          k1 in
      let (d3, e3, k3) =
        >>=-eq-ok
          (for_each (apply_sending_confirmation uuid_from_string) e.sending_confirmations d2) _
          k2 in
      let (d4, e4, k4) =
        >>=-eq-ok (for_each (update_internal_withdrawal uuid_from_string) e.internal_withdrawals d3)
          _ k3 in
      let (d5, e5, k5) =
        >>=-eq-ok (for_each update_external_withdrawal e.external_withdrawals d4) _ k4 in
      let (d6, e6, k6) =
        >>=-eq-ok
          (for_each (λ d x. ok (apply_jetton_withdrawal_confirmation d x))
            e.withdrawal_confirmations d5)
          _ k5 in
      let p1 =
        for_each_inv P _ (λ x y z q. same x z (save_external_income-Same x y q)) e.external_incomes
          d e1 p0 in
      let p2 =
        for_each_inv P _ (λ x y z q. same x z (save_internal_income-Same x y q)) e.internal_incomes
          d1 e2 p1 in
      let p3 =
        for_each_inv P _ (λ x y z q. same x z (apply_sending_confirmation-Same x y q))
          e.sending_confirmations d2 e3 p2 in
      let p4 =
        for_each_inv P _ (λ x y z q. same x z (update_internal_withdrawal-Same x y q))
          e.internal_withdrawals d3 e4 p3 in
      let p5 = for_each_inv P _ update e.external_withdrawals d4 e5 p4 in
      (d6, for_each_inv P _ confirm e.withdrawal_confirmations d5 e6 p5, k6)

  apply_events-Kept :
      (e : Events) (h : ShardBlockHeader) (d : Database) {d' : Database}
      → apply_events uuid_from_string strip_invalid_utf8 book e h d ≡ ok d'
      → Inv d
      → (mid : Database) × Kept d.block_data mid × (save_block mid h ≡ ok d')
  apply_events-Kept e h d eq v =
      let b = d.block_data in
      apply_events_inv (Kept b) (Kept-of_Same b)
        (λ x y z q. update_external_withdrawal-Kept b x y q) (λ x y z q. confirmation-Kept b x y q)
        e h d eq (v, refl)

save_block-Inv :
    (d : Database) (h : ShardBlockHeader) {d' : Database} → save_block d h ≡ ok d' → Inv d → Inv d'
unfolding save_block
save_block-Inv d h e v = elim (Bool-cases (is_some (find (same_block h.block) d.block_data))) [
  | inl old ↦ cc (rw old at e)
  | inr fresh ↦
      subst Inv (ok-injective (rw fresh at e))
        (record { consistent = v.consistent; unique = v.unique; fresh = v.fresh })
]

-- A block that was saved is found, and one that is found is not saved.
save_block-found :
    (d : Database) (h h' : ShardBlockHeader) {d' : Database}
    → save_block d h ≡ ok d'
    → h'.block.shard ≡ h.block.shard
    → h'.block.seqno ≡ h.block.seqno
    → is_some (find (same_block h'.block) d'.block_data) ≡ true
unfolding save_block
save_block-found d h h' e es en = ground arith

save_block_refuses :
    (d : Database) (h : ShardBlockHeader) {d' : Database}
    → is_some (find (same_block h.block) d.block_data) ≡ true
    → save_block d h ≡ ok d'
    → ⊥
unfolding save_block
save_block_refuses d h f e = ground arith

finish_transaction-ok :
    (d : Database) (r : Result Database) (c : Result (Unit {0})) {d' : Database}
    → finish_transaction d r c ≡ (d', ok tt)
    → r ≡ ok d'
unfolding finish_transaction
finish_transaction-ok d (err x) c e = cc
finish_transaction-ok d (ok y) (err x) e = cc
finish_transaction-ok d (ok y) (ok _) e = cc

-- Saving a block keeps the invariant of external withdrawals, whatever the events are and however the
-- transaction ends.
pub save_parsed_block_data-Inv :
    (uuid_from_string : String → Option ℕ) (strip_invalid_utf8 : String → String)
    (book : AddressBook) (commit : Result (Unit {0})) (be : BlockEvents) (db : Database)
    → Inv db
    → Inv (save_parsed_block_data uuid_from_string strip_invalid_utf8 book commit be db).0
unfolding save_parsed_block_data finish_transaction
save_parsed_block_data-Inv uuid strip book commit be db v =
    finish_transaction-Inv (apply_events uuid strip book be.events be.block db) commit refl
  where
    finish_transaction-Inv :
        (r : Result Database) (c : Result (Unit {0}))
        → apply_events uuid strip book be.events be.block db ≡ r
        → Inv (finish_transaction db r c).0
    finish_transaction-Inv (err x) c e = v
    finish_transaction-Inv (ok d) (err x) e = v
    finish_transaction-Inv (ok d) (ok _) e =
        let (mid, kept, saved) = apply_events-Kept uuid strip book be.events be.block db e v in
        save_block-Inv mid be.block saved kept.0

-- Where external withdrawals are consistent (`Inv`), a block that has been saved is not applied again: a second call for a block of the same shard and
-- number, with whatever events, returns an error and changes nothing.
pub block_applied_once :
    (uuid_from_string uuid_from_string' : String → Option ℕ)
    (strip_invalid_utf8 strip_invalid_utf8' : String → String) (book book' : AddressBook)
    (commit commit' : Result (Unit {0})) (be again : BlockEvents) (db : Database) {db' : Database}
    → Inv db
    → save_parsed_block_data uuid_from_string strip_invalid_utf8 book commit be db ≡ (db', ok tt)
    → again.block.block.shard ≡ be.block.block.shard
    → again.block.block.seqno ≡ be.block.block.seqno
    → (x : Error) × (save_parsed_block_data uuid_from_string' strip_invalid_utf8' book' commit'
          again db'
        ≡ (db', err x))
unfolding save_parsed_block_data finish_transaction
block_applied_once uuid uuid' strip strip' book book' commit commit' be again db {db'} v e es en =
    refused (apply_events uuid' strip' book' again.events again.block db') refl
  where
    first : apply_events uuid strip book be.events be.block db ≡ ok db'
    first = finish_transaction-ok db _ commit e

    second_Inv : Inv db'
    second_Inv = subst (λ x. Inv x.0) e (save_parsed_block_data-Inv uuid strip book commit be db v)

    recorded : is_some (find (same_block again.block.block) db'.block_data) ≡ true
    recorded =
        let (mid, kept, saved) = apply_events-Kept uuid strip book be.events be.block db first v in
        save_block-found mid be.block again.block saved es en

    refused :
        (r : Result Database)
        → apply_events uuid' strip' book' again.events again.block db' ≡ r
        → (x : Error) × (finish_transaction db' r commit' ≡ (db', err x))
    refused (err x) eq = (x, refl)
    refused (ok d) eq =
        let (mid, kept, saved) =
          apply_events-Kept uuid' strip' book' again.events again.block db' eq second_Inv in
        absurd (save_block_refuses mid again.block (rw kept.1 recorded) saved)
