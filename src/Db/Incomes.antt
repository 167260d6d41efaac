-- ===== src/Db/Incomes.antt =====
-- db/db.go: the incomes of deposits, as a block's transaction saves them. `stripInvalidUTF8` is a
-- parameter, since it walks bytes by the rules of the package unicode/utf8.
use bicycle.Prelude.{
  ℕ, Bool, true, false, ◌&&◌, List, ◌∷◌, Option, none, some, String, ◌==◌, if◌then◌else◌, is_some,
  find, Result, ok, err, ◌>>=◌, or_error, bad_memo, no_rows, bad_scan, unique_violation,
}
use bicycle.Models.{Address, WalletType, jetton_owner, ExternalIncome, InternalIncome}
use bicycle.Db.Schema.{
  Database, ExternalIncomeRow, InternalIncomeRow, TonWalletRow, JettonWalletRow,
}
use bicycle.Db.AddressBook.{AddressBook, get_wallet_type}

abbrev is_owner : Option WalletType → Bool
is_owner none = false
is_owner (some jetton_owner) = true
is_owner (some _) = false

-- The jetton wallet that the join finds; NULL cannot be scanned into an address.
abbrev wallet_of_owner : List JettonWalletRow → Option TonWalletRow → Result Address
wallet_of_owner js none = err no_rows
wallet_of_owner js (some t) = elim (find (λ j. t.subwallet_id == j.subwallet_id) js) [
  | none ↦ err bad_scan
  | some j ↦ ok j.address
]

-- The deposit of an internal income: the owner of a jetton wallet stands for that wallet.
unfoldable pub income_deposit : AddressBook → Database → Address → Result Address
income_deposit b db from =
    if is_owner (get_wallet_type b from)
    then wallet_of_owner db.jetton_wallets (find (λ t. from == t.address) db.ton_wallets)
    else ok from

module _ (strip_invalid_utf8 : String → String) where
  -- `saveExternalIncome`
  unfoldable pub save_external_income : Database → ExternalIncome → Database
  save_external_income db inc = record db { external_incomes = row ∷ db.external_incomes }
    where
      row : ExternalIncomeRow
      row = record {
        lt = inc.lt;
        utime = inc.utime;
        payer_workchain = inc.from_workchain;
        deposit_address = inc.to;
        payer_address = inc.from;
        amount = inc.amount;
        comment = strip_invalid_utf8 inc.comment;
        tx_hash = inc.tx_hash;
      }

-- `INSERT INTO payments.internal_incomes`, with `unique (memo, lt)`.
unfoldable pub insert_internal_income : Database → InternalIncomeRow → Result Database
insert_internal_income db row =
    if is_some (find (λ r. row.memo == r.memo && row.lt == r.lt) db.internal_incomes)
    then err unique_violation
    else ok (record db { internal_incomes = row ∷ db.internal_incomes })

module _ (uuid_from_string : String → Option ℕ) where
  -- `saveInternalIncome`
  unfoldable pub save_internal_income : AddressBook → Database → InternalIncome → Result Database
  unfolding income_deposit insert_internal_income
  save_internal_income b db inc = do
    memo ← or_error (uuid_from_string inc.memo) bad_memo
    from ← income_deposit b db inc.from
    insert_internal_income db (record {
      lt = inc.lt;
      utime = inc.utime;
      deposit_address = from;
      amount = inc.amount;
      memo = memo;
    })
