-- ===== src/Processor/Start/Again.antt =====
-- The TON hot wallet when the service starts again.
use bicycle.Prelude.{
  ℕ, ◌≡◌, refl, Bool, true, false, some, find, Result, ok, err, Error, >>=-eq-ok, if_err-eq-ok,
  ok-injective, is_some, ap, ◌∙◌, subst, ==_refl, ◌⊎◌, inl, inr, arith,
}
use bicycle.Prelude.Int.{ltb_ℤ}
use bicycle.Models.{Address, TonAddress, address_from_tonutils, ton_hot_wallet}
use bicycle.Db.Schema.{Database, TonWalletRow}
use bicycle.Db.AddressBook.{AddressBook, ton_row, insert_ton_wallet, save_ton_wallet}
use bicycle.Db.AddressBook.Loading.{find-append-new}
use bicycle.Db.AddressBook.Restart.{with_ton, insert_ton_wallet-eq-ok}
use bicycle.Db.Wallets.{same_type, get_ton_hot_wallet_address}
use bicycle.Processor.Start.{Start, already_saved, hot_wallet, deployed, saved, init_ton_hot_wallet}

already_saved-eq-ok :
    (addr : Address) (r : Result Address) {v : Bool}
    → already_saved addr r ≡ ok v
    → (v ≡ true) ⊎ ((e : Error) × (v ≡ false) × (r ≡ err e))
already_saved-eq-ok addr (ok a) h = inl (ground arith)
already_saved-eq-ok addr (err e) h = inr (e, ground arith, refl)

get_ton_hot_wallet_address-none :
    (db : Database) {e : Error}
    → get_ton_hot_wallet_address db ≡ err e
    → is_some (find (λ r. same_type r.wallet_type ton_hot_wallet) db.ton_wallets) ≡ false
unfolding get_ton_hot_wallet_address
get_ton_hot_wallet_address-none db h = ground arith

get_ton_hot_wallet_address-found :
    (db : Database) (r : TonWalletRow)
    → find (λ x. same_type x.wallet_type ton_hot_wallet) db.ton_wallets ≡ some r
    → get_ton_hot_wallet_address db ≡ ok r.address
unfolding get_ton_hot_wallet_address
get_ton_hot_wallet_address-found db r h = ground arith

get_ton_hot_wallet_address-saved :
    (db : Database) (b : AddressBook) (n : ℕ) (addr : Address) {db' : Database} {b' : AddressBook}
    {e : Error}
    → get_ton_hot_wallet_address db ≡ err e
    → save_ton_wallet db b (hot_wallet n addr) ≡ ok (db', b')
    → get_ton_hot_wallet_address db' ≡ ok addr
unfolding save_ton_wallet
get_ton_hot_wallet_address-saved db b n addr {db'} none_yet h =
    let row = ton_row (hot_wallet n addr) in
    let (d, inserted, kept) = >>=-eq-ok (insert_ton_wallet db row) _ h in
    let (_, stored) = insert_ton_wallet-eq-ok db row inserted in
    subst (λ x. get_ton_hot_wallet_address x ≡ ok addr)
      (stored ∙ ap (λ (x : Database × AddressBook). x.0) (ok-injective kept))
      (get_ton_hot_wallet_address-found (with_ton db row) row (
        find-append-new (λ r. same_type r.wallet_type ton_hot_wallet) db.ton_wallets row
          (get_ton_hot_wallet_address-none db none_yet) refl))

already_saved-same : (addr : Address) → already_saved addr (ok addr) ≡ ok true
already_saved-same addr = rw (==_refl addr) refl

-- What was saved is found saved the next time.
already_saved-next :
    (start : Start) (addr : Address) (db : Database) (b : AddressBook) (is_saved : Bool)
    {db' : Database} {b' : AddressBook}
    → already_saved addr (get_ton_hot_wallet_address db) ≡ ok is_saved
    → saved start is_saved addr db b ≡ ok (db', b')
    → already_saved addr (get_ton_hot_wallet_address db') ≡ ok true
already_saved-next start addr db b true tested kept =
    subst (λ x. already_saved addr (get_ton_hot_wallet_address x) ≡ ok true)
      (ap (λ (x : Database × AddressBook). x.0) (ok-injective kept)) tested
already_saved-next start addr db b false tested kept =
    elim (already_saved-eq-ok addr (get_ton_hot_wallet_address db) tested) [
      | inl h ↦ cc
      | inr (e, _, none_yet) ↦
          rw (get_ton_hot_wallet_address-saved db b start.default_subwallet addr none_yet kept)
            (already_saved-same addr)
    ]

-- A start that has initialised the TON hot wallet may be repeated: on the database that it left, the same answers of the
-- network lead to the same wallet, and nothing more is saved.
pub init_ton_hot_wallet_again :
    (start : Start) (db : Database) (b : AddressBook) {w : TonAddress × ℕ × ℕ} {db' : Database}
    {b' : AddressBook}
    → init_ton_hot_wallet start db b ≡ ok (w, (db', b'))
    → init_ton_hot_wallet start db' b' ≡ ok (w, (db', b'))
unfolding init_ton_hot_wallet
init_ton_hot_wallet_again start db b {w} {db'} {b'} e =
    let (v, generated, e1) = >>=-eq-ok start.generated _ e in
    let (addr, converted, e2) = >>=-eq-ok (address_from_tonutils (some v.0)) _ e1 in
    let (is_saved, tested, e3) =
      >>=-eq-ok (already_saved addr (get_ton_hot_wallet_address db)) _ e2 in
    let (st, state, e4) = >>=-eq-ok (start.state v.0) _ e3 in
    let (enough, e5) = if_err-eq-ok (ltb_ℤ st.0 start.hot_wallet_min) _ _ e4 in
    let (_, deployed, e6) = >>=-eq-ok (deployed start st.1) _ e5 in
    let (s, kept, e7) = >>=-eq-ok (saved start is_saved addr db b) _ e6 in
    let result = ok-injective e7 in
    let stored =
      kept ∙ ap (λ (x : (TonAddress × ℕ × ℕ) × (Database × AddressBook)). ok x.1) result in
    rw
      (
        generated,
        converted,
        already_saved-next start addr db b is_saved tested stored,
        state,
        enough,
        deployed,
      )
      (ap (λ (x : (TonAddress × ℕ × ℕ) × (Database × AddressBook)). ok (x.0, (db', b'))) result)
