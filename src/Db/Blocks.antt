-- ===== src/Db/Blocks.antt =====
-- db/db.go: the transaction that applies the events of a block and marks the block as parsed.
pub mod Once
use bicycle.Prelude.{
  ℕ, ◌≡◌, refl, Bool, true, false, ◌&&◌, List, [], ◌∷◌, Option, none, some, String, ◌==◌, ltb, ◌+◌,
  if◌then◌else◌, is_some, find, Result, ok, err, Error, ◌>>=◌, unique_violation,
}
use bicycle.Models.{
  ExternalIncome, InternalIncome, SendingConfirmation, InternalWithdrawal, ExternalWithdrawal,
  JettonWithdrawalConfirmation, Events, BlockEvents, BlockId, ShardBlockHeader,
}
use bicycle.Db.Schema.{Database, BlockRow}
use bicycle.Db.AddressBook.{AddressBook}
use bicycle.Db.External.{
  update_external_withdrawal, apply_jetton_withdrawal_confirmation, set_expired_external,
  allowable_blockchain_lagging,
}
use bicycle.Db.Internal.{
  apply_sending_confirmation, update_internal_withdrawal, set_expired_internal,
}
use bicycle.Db.Incomes.{save_external_income, save_internal_income}

-- A loop of statements, ended by the first error.
unfoldable pub for_each {ℓ} :
    {A : Type ℓ} → (Database → A → Result Database) → List A → Database → Result Database
for_each f [] db = ok db
for_each f (x ∷ xs) db = f db x >>= λ db'. for_each f xs db'

abbrev pub same_block : BlockId → BlockRow → Bool
same_block b r = b.shard == r.shard && b.seqno == r.seqno

-- `saveBlock`, with `unique (shard, seqno)`.
unfoldable pub save_block : Database → ShardBlockHeader → Result Database
save_block db h =
    if is_some (find (same_block h.block) db.block_data)
    then err unique_violation
    else ok (record db { block_data = row ∷ db.block_data })
  where
    row : BlockRow
    row = record {
      shard = h.block.shard;
      seqno = h.block.seqno;
      gen_utime = h.gen_utime;
      root_hash = h.block.root_hash;
      file_hash = h.block.file_hash;
    }

-- The end of a transaction: an error, of a statement or of the commit, rolls it back.
unfoldable pub finish_transaction :
    Database → Result Database → Result (Unit {0}) → Database × Result (Unit {0})
finish_transaction db (err e) commit = (db, err e)
finish_transaction db (ok db') (ok _) = (db', ok tt)
finish_transaction db (ok db') (err e) = (db, err e)

module _ (uuid_from_string : String → Option ℕ) (strip_invalid_utf8 : String → String)
    (book : AddressBook) where
  -- The statements of `SaveParsedBlockData`, in their order.
  unfoldable pub apply_events : Events → ShardBlockHeader → Database → Result Database
  unfolding for_each save_block
  apply_events e h db = do
    db ← for_each (λ d x. ok (save_external_income strip_invalid_utf8 d x)) e.external_incomes db
    db ← for_each (λ d x. save_internal_income uuid_from_string book d x) e.internal_incomes db
    db ← for_each (apply_sending_confirmation uuid_from_string) e.sending_confirmations db
    db ← for_each (update_internal_withdrawal uuid_from_string) e.internal_withdrawals db
    db ← for_each update_external_withdrawal e.external_withdrawals db
    db ←
        for_each (λ d x. ok (apply_jetton_withdrawal_confirmation d x)) e.withdrawal_confirmations
          db
    save_block db h

  -- `SaveParsedBlockData`: what the database holds after the call, and what the call returns; `commit`
  -- is the outcome of the commit.
  unfoldable pub save_parsed_block_data :
      Result (Unit {0}) → BlockEvents → Database → Database × Result (Unit {0})
  unfolding apply_events finish_transaction
  save_parsed_block_data commit be db =
      finish_transaction db (apply_events be.events be.block db) commit

-- The row that `ORDER BY seqno DESC LIMIT 1` returns.
unfoldable pub last_block : List BlockRow → Option BlockRow
last_block [] = none
last_block (r ∷ rs) = newer r (last_block rs)
  where
    newer : BlockRow → Option BlockRow → Option BlockRow
    newer r none = some r
    newer r (some s) = if ltb r.seqno s.seqno then some s else some r
