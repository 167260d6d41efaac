-- ===== src/Scanner/Block/Order.antt =====
-- Notifications come after the save, so a restart does not repeat them.
use bicycle.Prelude.{
  ℕ, ◌≡◌, ◌∙◌, ◌≢◌, refl, sym, ap, List, [], Error, Result, ok, err, >>=-eq-ok, ok-injective,
}
use bicycle.Models.{Events, no_events, ShardBlockHeader, BlockEvents}
use bicycle.Db.Schema.{Database}
use bicycle.Db.AddressBook.{AddressBook}
use bicycle.Db.External.Invariant.{Inv}
use bicycle.Db.Blocks.{save_parsed_block_data}
use bicycle.Db.Blocks.Once.{block_applied_once}
use bicycle.Scanner.Block.{
  IncomeNotification, Env, filter_txs, process_wallets, process_txs, block_events, after_save,
  save_and_push, process_block,
}

block_events-header :
    (env : Env) (book : AddressBook) (h : ShardBlockHeader) {be : BlockEvents}
    → block_events env book h ≡ ok be
    → be.block ≡ h
unfolding block_events process_txs
block_events-header env book h e =
    let (ids, _, k) = >>=-eq-ok (env.transaction_ids h.block) _ e in
    let (txs, _, l) = >>=-eq-ok (filter_txs book (env.transaction h.block) env.range ids) _ k in
    let (ev, _, m) =
      >>=-eq-ok (process_wallets env.codec book env.jetton_balance h txs no_events) _ l in
    sym (ap (λ b. b.block) (ok-injective m))

after_save-saved :
    (env : Env) (book : AddressBook) (e : Events) (p : Database × Result (Unit {0}))
    {db' : Database} {sent : List (ℕ × IncomeNotification)} {r : Result (Unit {0})}
    → after_save env book e p ≡ (db', sent, r)
    → sent ≢ []
    → p ≡ (db', ok tt)
unfolding after_save
after_save-saved env book e (db, err x) h ne = absurd (ne (sym (ap (λ p. p.1) h)))
after_save-saved env book e (db, ok tt) h ne = ap (λ d. (d, ok tt)) (ap (λ p. p.0) h)

-- If a block brought notifications, its events had been saved by then.
pub published_after_save :
    (env : Env) (book : AddressBook) (db : Database) (h : ShardBlockHeader) {db' : Database}
    {sent : List (ℕ × IncomeNotification)} {r : Result (Unit {0})}
    → process_block env book db h ≡ (db', sent, r)
    → sent ≢ []
    → (be : BlockEvents) × (block_events env book h ≡ ok be)
      × (save_parsed_block_data env.uuid_from_string env.strip_invalid_utf8 book env.commit be db
          ≡ (db', ok tt))
unfolding process_block
published_after_save env book db h {db'} {sent} {r} e ne =
    by_events (block_events env book h) refl e
  where
    by_events :
        (o : Result BlockEvents)
        → block_events env book h ≡ o
        → save_and_push env book db o ≡ (db', sent, r)
        → (be : BlockEvents) × (block_events env book h ≡ ok be)
          × (save_parsed_block_data env.uuid_from_string env.strip_invalid_utf8 book env.commit be
                db
              ≡ (db', ok tt))
    by_events (err x) eq k = absurd (ne (sym (ap (λ p. p.1) k)))
    by_events (ok be) eq k = (be, eq, after_save-saved env book be.events _ k ne)

-- The notifications of a block are pushed once: where external withdrawals are consistent (`Inv`), after a run that pushed any, also one that an error
-- of a notificator ended, another run on the same block, whatever it meets, pushes nothing, returns an
-- error and leaves the database as it is.
pub notified_once :
    (env env' : Env) (book book' : AddressBook) (db : Database) (h : ShardBlockHeader)
    {db' : Database} {sent : List (ℕ × IncomeNotification)} {r : Result (Unit {0})}
    → Inv db
    → process_block env book db h ≡ (db', sent, r)
    → sent ≢ []
    → (x : Error) × (process_block env' book' db' h ≡ (db', [], err x))
unfolding process_block after_save
notified_once env env' book book' db h {db'} v e ne = again (block_events env' book' h) refl
  where
    again :
        (o : Result BlockEvents)
        → block_events env' book' h ≡ o
        → (x : Error) × (save_and_push env' book' db' o ≡ (db', [], err x))
    again (err x) eq = (x, refl)
    again (ok be') eq =
        let (be, found, saved) = published_after_save env book db h e ne in
        let same : be'.block ≡ be.block =
          block_events-header env' book' h eq ∙ sym (block_events-header env book h found) in
        let (x, refused) =
          block_applied_once env.uuid_from_string env'.uuid_from_string env.strip_invalid_utf8
            env'.strip_invalid_utf8 book book' env.commit env'.commit be be' db v saved
            (ap (λ b. b.block.shard) same) (ap (λ b. b.block.seqno) same) in
        (x, ap (after_save env' book' be'.events) refused)
