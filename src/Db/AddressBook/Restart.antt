-- ===== src/Db/AddressBook/Restart.antt =====
-- db/db.go: a restart: the book that `LoadAddressBook` makes of the tables answers as the one it replaces.
use bicycle.Prelude.{
  ◌≡◌, refl, ap, ◌∙◌, true, false, [], ◌∷◌, ◌++◌, none, some, ◌==◌, ==_refl, is_some, find, ok,
  >>=-eq-ok, ok-injective, if_err-eq-ok, subst,
}
use bicycle.Models.{Address, jetton_deposit_wallet, WalletData}
use bicycle.Db.Schema.{empty_database, Database, TonWalletRow, JettonWalletRow}
use bicycle.Db.AddressBook.{
  AddressBook, get, put, get_wallet_type, with_subwallet, insert_ton_wallet, insert_jetton_wallet,
  save_ton_wallet, save_jetton_wallet, load_ton_wallets, load_jetton_wallets, load_address_book,
  is_jetton_deposit, ton_row, owner_row, jetton_row, put_jetton_wallet,
}
use bicycle.Db.AddressBook.Loading.{
  ton_info, jetton_info, get_wallet_type-none, put-same, find-append-new, load-append_ton,
  load_jetton_wallets-append,
}

-- After a restart the address book has the same entry for every address.
abbrev pub IsRestored : Database → AddressBook → Type 0
IsRestored db b =
    (c : AddressBook) × (load_address_book db ≡ ok c) × ((a : Address) → get a c ≡ get a b)

abbrev pub with_ton : Database → TonWalletRow → Database
with_ton db t = record db { ton_wallets = db.ton_wallets ++ t ∷ [] }

abbrev pub with_jetton : Database → JettonWalletRow → Database
with_jetton db r = record db { jetton_wallets = db.jetton_wallets ++ r ∷ [] }

pub insert_ton_wallet-eq-ok :
    (db : Database) (t : TonWalletRow) {d : Database}
    → insert_ton_wallet db t ≡ ok d
    → (is_some (find (with_subwallet t.subwallet_id) db.ton_wallets) ≡ false) × (with_ton db t ≡ d)
unfolding insert_ton_wallet
insert_ton_wallet-eq-ok db t h =
    let (absent, stored) =
      if_err-eq-ok (is_some (find (with_subwallet t.subwallet_id) db.ton_wallets)) _
        (ok (with_ton db t)) h in
    (absent, ok-injective stored)

insert_jetton_wallet-eq-ok :
    (db : Database) (r : JettonWalletRow) {d : Database}
    → insert_jetton_wallet db r ≡ ok d
    → with_jetton db r ≡ d
unfolding insert_jetton_wallet
insert_jetton_wallet-eq-ok db r h =
    ok-injective
      (if_err-eq-ok
        (is_some (find (λ (x : JettonWalletRow). r.address == x.address) db.jetton_wallets)) _
        (ok (with_jetton db r)) h).1

-- Another TON wallet whose address is new to the book.
save_ton_wallet-IsRestored :
    (db : Database) (b : AddressBook) (w : WalletData) {db' : Database} {b' : AddressBook}
    → IsRestored db b
    → get_wallet_type b w.address ≡ none
    → save_ton_wallet db b w ≡ ok (db', b')
    → IsRestored db' b'
unfolding save_ton_wallet load_address_book
save_ton_wallet-IsRestored db b w {db'} {b'} (c, loaded, same) new e =
    let (d, inserted, saved) = >>=-eq-ok (insert_ton_wallet db (ton_row w)) _ e in
    let (_, stored) = insert_ton_wallet-eq-ok db (ton_row w) inserted in
    subst (λ (x : Database × AddressBook). IsRestored x.0 x.1)
      (ap (λ x. (x, put w.address (ton_info (ton_row w)) b)) stored ∙ ok-injective saved)
      (load-append_ton db.ton_wallets db.jetton_wallets (ton_row w) b loaded same
        (get_wallet_type-none b w.address new))

-- Another jetton deposit with its owner, whose address is new to the book.
save_jetton_wallet-IsRestored :
    (db : Database) (b : AddressBook) (owner : Address) (w : WalletData) {db' : Database}
    {b' : AddressBook}
    → IsRestored db b
    → get_wallet_type b owner ≡ none
    → w.wallet_type ≡ jetton_deposit_wallet
    → save_jetton_wallet db b owner w false ≡ ok (db', b')
    → IsRestored db' b'
unfolding save_jetton_wallet load_address_book
save_jetton_wallet-IsRestored db b owner w {db'} {b'} (c, loaded, same) new deposit e =
    let t = owner_row owner w in
    let r = jetton_row w in
    let (d, inserted, e1) = >>=-eq-ok (insert_ton_wallet db t) _ e in
    let (absent, stored) = insert_ton_wallet-eq-ok db t inserted in
    let (d1, inserted1, saved) = >>=-eq-ok (insert_jetton_wallet d r) _ e1 in
    let stored1 = insert_jetton_wallet-eq-ok d r inserted1 in
    let (tons, found, agree) =
      load-append_ton db.ton_wallets db.jetton_wallets t b loaded same
        (get_wallet_type-none b owner new) in
    subst (λ (x : Database × AddressBook). IsRestored x.0 x.1)
      (ap (λ x. (x, put_jetton_wallet owner w b)) (ap (λ x. with_jetton x r) stored ∙ stored1)
        ∙ ok-injective saved)
      (
        put r.address (jetton_info r t) tons,
        load_jetton_wallets-append (db.ton_wallets ++ t ∷ []) db.jetton_wallets r t _ found
            (find-append-new (with_subwallet r.subwallet_id) db.ton_wallets t absent (==_refl _)),
        λ a. rw deposit (put-same a w.address _ tons (put owner (ton_info t) b) (agree a)),
      )

-- Another jetton wallet of an owner that is saved already, as the jetton hot wallets are.
save_jetton_wallet-IsRestored_hot :
    (db : Database) (b : AddressBook) (t : TonWalletRow) (w : WalletData) {db' : Database}
    {b' : AddressBook}
    → IsRestored db b
    → find (with_subwallet w.subwallet_id) db.ton_wallets ≡ some t
    → is_jetton_deposit w.wallet_type ≡ false
    → save_jetton_wallet db b t.address w true ≡ ok (db', b')
    → IsRestored db' b'
unfolding save_jetton_wallet load_address_book
save_jetton_wallet-IsRestored_hot db b t w {db'} {b'} (c, loaded, same) found hot e =
    let r = jetton_row w in
    let (d, inserted, saved) = >>=-eq-ok (insert_jetton_wallet db r) _ e in
    subst (λ (x : Database × AddressBook). IsRestored x.0 x.1)
      (ap (λ x. (x, put_jetton_wallet t.address w b)) (insert_jetton_wallet-eq-ok db r inserted)
        ∙ ok-injective saved)
      (
        put r.address (jetton_info r t) c,
        load_jetton_wallets-append db.ton_wallets db.jetton_wallets r t _ loaded found,
        λ a. rw hot (put-same a w.address _ c b (same a)),
      )

-- The wallets that the process saves, one after the other: a TON wallet or a jetton deposit with its owner, whose address
-- is new to the book, or a jetton wallet of an owner that is saved already.
pub data Saves : Database → AddressBook → Type 0 where
  no_wallets : Saves empty_database []
  ton_wallet :
      {db db' : Database} {b b' : AddressBook} (w : WalletData)
      → Saves db b
      → get_wallet_type b w.address ≡ none
      → save_ton_wallet db b w ≡ ok (db', b')
      → Saves db' b'
  jetton_deposit :
      {db db' : Database} {b b' : AddressBook} (owner : Address) (w : WalletData)
      → Saves db b
      → get_wallet_type b owner ≡ none
      → w.wallet_type ≡ jetton_deposit_wallet
      → save_jetton_wallet db b owner w false ≡ ok (db', b')
      → Saves db' b'
  jetton_wallet :
      {db db' : Database} {b b' : AddressBook} (t : TonWalletRow) (w : WalletData)
      → Saves db b
      → find (with_subwallet w.subwallet_id) db.ton_wallets ≡ some t
      → is_jetton_deposit w.wallet_type ≡ false
      → save_jetton_wallet db b t.address w true ≡ ok (db', b')
      → Saves db' b'

-- After any number of wallets were saved (`Saves`), loading the address book from the tables succeeds and gives
-- every address the entry that it has in the book of the running process.
pub Saves-IsRestored : {db : Database} {b : AddressBook} → Saves db b → IsRestored db b
unfolding load_address_book load_ton_wallets load_jetton_wallets
Saves-IsRestored no_wallets = ([], refl, λ a. refl)
Saves-IsRestored (ton_wallet w s new e) =
    save_ton_wallet-IsRestored _ _ w (Saves-IsRestored s) new e
Saves-IsRestored (jetton_deposit owner w s new deposit e) =
    save_jetton_wallet-IsRestored _ _ owner w (Saves-IsRestored s) new deposit e
Saves-IsRestored (jetton_wallet t w s found hot e) =
    save_jetton_wallet-IsRestored_hot _ _ t w (Saves-IsRestored s) found hot e
