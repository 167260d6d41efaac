-- ===== src/Db/AddressBook.antt =====
-- db/db.go: the wallets, in their tables and in the address book of the process.
pub mod Loading
pub mod Restart
use bicycle.Prelude.{
  ℕ, Bool, true, false, List, [], ◌∷◌, ◌++◌, Option, none, some, String, ◌==◌, if◌then◌else◌,
  is_some, find, Result, ok, err, ◌>>=◌, fatal, unique_violation, bad_scan,
}
use bicycle.Models.{
  Address, TonAddress, WalletType, jetton_deposit_wallet, jetton_owner, AddressInfo, WalletData,
  address_from_tonutils,
}
use bicycle.Db.Schema.{Database, TonWalletRow, JettonWalletRow}

-- `addressBook.addresses`: the newest entry of a key counts.
abbrev pub AddressBook : Type 0
AddressBook = List (Address × AddressInfo)

-- `addressBook.get`
abbrev pub get : Address → AddressBook → Option AddressInfo
get a [] = none
get a ((k, info) ∷ b) = let rest = get a b in if a == k then some info else rest

-- `addressBook.put`
abbrev pub put : Address → AddressInfo → AddressBook → AddressBook
put a info b = (a, info) ∷ b

-- `GetWalletType`; `none` is the flag `false`.
unfoldable pub get_wallet_type : AddressBook → Address → Option WalletType
get_wallet_type b a = elim (get a b) [ none ↦ none | some info ↦ some info.wallet_type ]

-- `GetUserID`
unfoldable pub get_user_id : AddressBook → Address → Option String
get_user_id b a = elim (get a b) [ none ↦ none | some info ↦ some info.user_id ]

abbrev pub is_jetton_deposit : WalletType → Bool
is_jetton_deposit jetton_deposit_wallet = true
is_jetton_deposit _ = false

-- The owner of an entry: `log.Fatalf` ends the process for a jetton deposit without one.
abbrev owner_of : AddressInfo → Option Address → Result (Option Address)
owner_of info none = if is_jetton_deposit info.wallet_type then err fatal else ok none
owner_of info (some o) = ok (some o)

-- `GetOwner`
unfoldable pub get_owner : AddressBook → Address → Result (Option Address)
get_owner b a = elim (get a b) [ none ↦ ok none | some info ↦ owner_of info info.owner ]

-- `GetWalletTypeByTonutilsAddress`
unfoldable pub get_wallet_type_by_tonutils : AddressBook → Option TonAddress → Option WalletType
unfolding get_wallet_type
get_wallet_type_by_tonutils b addr = elim (address_from_tonutils addr) [
  | ok a ↦ get_wallet_type b a
  | err _ ↦ none
]

abbrev pub ton_row : WalletData → TonWalletRow
ton_row w = record {
  subwallet_id = w.subwallet_id;
  user_id = w.user_id;
  wallet_type = w.wallet_type;
  address = w.address;
}

abbrev pub owner_row : Address → WalletData → TonWalletRow
owner_row owner w = record {
  subwallet_id = w.subwallet_id;
  user_id = w.user_id;
  wallet_type = jetton_owner;
  address = owner;
}

abbrev pub jetton_row : WalletData → JettonWalletRow
jetton_row w = record {
  subwallet_id = w.subwallet_id;
  user_id = w.user_id;
  currency = w.currency;
  wallet_type = w.wallet_type;
  address = w.address;
}

abbrev pub with_subwallet : ℕ → TonWalletRow → Bool
with_subwallet s r = s == r.subwallet_id

-- `INSERT INTO payments.ton_wallets`, whose `subwallet_id` is unique.
unfoldable pub insert_ton_wallet : Database → TonWalletRow → Result Database
insert_ton_wallet db row =
    if is_some (find (with_subwallet row.subwallet_id) db.ton_wallets)
    then err unique_violation
    else ok (record db { ton_wallets = db.ton_wallets ++ row ∷ [] })

-- `INSERT INTO payments.jetton_wallets`, whose `address` is unique.
unfoldable pub insert_jetton_wallet : Database → JettonWalletRow → Result Database
insert_jetton_wallet db row =
    if is_some (find (λ r. row.address == r.address) db.jetton_wallets)
    then err unique_violation
    else ok (record db { jetton_wallets = db.jetton_wallets ++ row ∷ [] })

-- `SaveTonWallet`
unfoldable pub save_ton_wallet :
    Database → AddressBook → WalletData → Result (Database × AddressBook)
unfolding insert_ton_wallet
save_ton_wallet db b w = do
  db' ← insert_ton_wallet db (ton_row w)
  ok (
    db',
    put w.address (record { wallet_type = w.wallet_type; owner = none; user_id = w.user_id }) b,
  )

-- The entries that `SaveJettonWallet` adds after the commit.
abbrev pub put_jetton_wallet : Address → WalletData → AddressBook → AddressBook
put_jetton_wallet owner w b =
    put w.address (record { wallet_type = w.wallet_type; owner = some owner; user_id = w.user_id })
      (if is_jetton_deposit w.wallet_type
        then put owner (record { wallet_type = jetton_owner; owner = none; user_id = w.user_id }) b
        else b)

-- `SaveJettonWallet`: one transaction for both tables.
unfoldable pub save_jetton_wallet :
    Database → AddressBook → Address → WalletData → Bool → Result (Database × AddressBook)
unfolding insert_ton_wallet insert_jetton_wallet
save_jetton_wallet db b owner w not_save_owner = do
  db' ← if not_save_owner then ok db else insert_ton_wallet db (owner_row owner w)
  db'' ← insert_jetton_wallet db' (jetton_row w)
  ok (db'', put_jetton_wallet owner w b)

-- The two loops of `LoadAddressBook`. The join leaves a NULL owner where no TON wallet has the
-- subwallet, which cannot be scanned into an address.
unfoldable pub load_ton_wallets : List TonWalletRow → AddressBook → AddressBook
load_ton_wallets [] b = b
load_ton_wallets (r ∷ rs) b =
    load_ton_wallets rs
      (put r.address (record { wallet_type = r.wallet_type; owner = none; user_id = r.user_id }) b)

abbrev pub joined : JettonWalletRow → Option TonWalletRow → AddressBook → Result AddressBook
joined r none b = err bad_scan
joined r (some t) b = ok (
    put r.address
      (record { wallet_type = r.wallet_type; owner = some t.address; user_id = r.user_id }) b)

unfoldable pub load_jetton_wallets :
    List TonWalletRow → List JettonWalletRow → AddressBook → Result AddressBook
load_jetton_wallets ts [] b = ok b
load_jetton_wallets ts (r ∷ rs) b =
    joined r (find (with_subwallet r.subwallet_id) ts) b >>= λ b'. load_jetton_wallets ts rs b'

-- `LoadAddressBook`, which replaces the book at the start of the process.
unfoldable pub load_address_book : Database → Result AddressBook
unfolding load_ton_wallets load_jetton_wallets
load_address_book db =
    load_jetton_wallets db.ton_wallets db.jetton_wallets (load_ton_wallets db.ton_wallets [])
