-- ===== src/System/Blocks.antt =====
-- The transaction of a block as a history of statements.
use bicycle.Prelude.{
  ℕ, ◌≡◌, refl, subst, inl, inr, Option, String, is_some, find, Result, ok, err, ok-injective,
  Bool-cases,
}
use bicycle.Models.{BlockEvents, ShardBlockHeader}
use bicycle.Db.Schema.{Database}
use bicycle.Db.AddressBook.{AddressBook}
use bicycle.Db.External.History.{update, confirmation, other, Unrelated, Reach, next}
use bicycle.Db.Blocks.{
  same_block, save_block, apply_events, finish_transaction, save_parsed_block_data,
}
use bicycle.Db.Blocks.Once.{apply_events_inv}

save_block-Unrelated :
    (d : Database) (h : ShardBlockHeader) {d' : Database} → save_block d h ≡ ok d' → Unrelated d d'
unfolding save_block
save_block-Unrelated d h e = elim (Bool-cases (is_some (find (same_block h.block) d.block_data))) [
  | inl old ↦ cc (rw old at e)
  | inr new ↦ subst (Unrelated d) (ok-injective (rw new at e)) (refl, refl, refl)
]

-- Saving a block takes a database that a history reaches to one that a history reaches, however the transaction ends.
pub save_parsed_block_data-Reach :
    (uuid_from_string : String → Option ℕ) (strip_invalid_utf8 : String → String)
    (book : AddressBook) (commit : Result (Unit {0})) (be : BlockEvents) (db : Database)
    → Reach db
    → Reach (save_parsed_block_data uuid_from_string strip_invalid_utf8 book commit be db).0
unfolding save_parsed_block_data finish_transaction
save_parsed_block_data-Reach uuid strip book commit be db reach =
    finished (apply_events uuid strip book be.events be.block db) commit refl
  where
    finished :
        (r : Result Database) (c : Result (Unit {0}))
        → apply_events uuid strip book be.events be.block db ≡ r
        → Reach (finish_transaction db r c).0
    finished (err x) c e = reach
    finished (ok d) (err x) e = reach
    finished (ok d) (ok _) e =
        let (mid, reached, saved) =
          apply_events_inv uuid strip book Reach
            (λ d d' (blocks, ext, reqs, fresh) r. next r (other (ext, reqs, fresh)))
            (λ d w d' eq r. next r (update w eq))
            (λ d c d' eq r. next r (confirmation c (ok-injective eq))) be.events be.block db e
            reach in
        next reached (other (save_block-Unrelated mid be.block saved))
