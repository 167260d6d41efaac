-- ===== src/Api/Addresses/Fresh.antt =====
-- A new deposit address never meets the unique constraint of the subwallets.
use bicycle.Prelude.{
  ℕ, suc, ◌≤◌, ◌<◌, ◌^◌, ◌||◌, ◌≡◌, refl, Bool, true, false, List, [], ◌∷◌, ◌++◌, Option, none,
  some, str_eq, ==_refl, is_some, find, ok, arith,
}
use bicycle.Models.{
  Address, TonAddress, address_from_tonutils, WalletData, ton_deposit_wallet, ton_symbol,
}
use bicycle.Db.Schema.{Database, TonWalletRow}
use bicycle.Db.AddressBook.{
  put, get_wallet_type, with_subwallet, insert_ton_wallet, save_ton_wallet,
}
use bicycle.Db.Wallets.{larger, max_subwallet, coalesce, get_last_subwallet_id}
use bicycle.Api.Types.{NewAddressRequest, HttpRequest, address_body}
use bicycle.Api.Middleware.{respond}
use bicycle.Api.Context.{Blockchain, Library, ApiConfig, master_of, is_valid_currency}
use bicycle.Api.Convert.{to_user_format}
use bicycle.Api.Postgres.{Store, postgres}
use bicycle.Api.Addresses.{
  next_id, ton_wallet_data, generate_ton_address, generate_address, get_new_address,
}

-- A number is above all there are.
abbrev IsAbove : ℕ → Option ℕ → Type 0
IsAbove id none = Unit
IsAbove id (some m) = m < id

larger-IsAbove : (id a : ℕ) (o : Option ℕ) → IsAbove id (larger a o) → (a < id) × IsAbove id o
larger-IsAbove id a none h = (h, tt)
larger-IsAbove id a (some b) h = (ground arith, ground arith)

find-above :
    (id : ℕ) (rs : List TonWalletRow)
    → IsAbove id (max_subwallet rs)
    → find (with_subwallet id) rs ≡ none
unfolding max_subwallet
find-above id [] h = refl
find-above id (r ∷ rs) h =
    let (lt, rest) = larger-IsAbove id r.subwallet_id (max_subwallet rs) h in
    let none_later = find-above id rs rest in ground arith

max_subwallet-append :
    (rs : List TonWalletRow) (row : TonWalletRow)
    → IsAbove row.subwallet_id (max_subwallet rs)
    → max_subwallet (rs ++ row ∷ []) ≡ some row.subwallet_id
unfolding max_subwallet
max_subwallet-append [] row h = refl
max_subwallet-append (r ∷ rs) row h =
    let (lt, rest) = larger-IsAbove row.subwallet_id r.subwallet_id (max_subwallet rs) h in
    rw (max_subwallet-append rs row rest) (ground arith)

last-IsAbove : (default id : ℕ) (o : Option ℕ) → coalesce o default < id → IsAbove id o
last-IsAbove default id none h = tt
last-IsAbove default id (some m) h = h

next_id-small : (n : ℕ) → suc n < 2 ^ 32 → next_id n ≡ suc n
next_id-small n h = omega arith

or-true : (b : Bool) → (b || true) ≡ true
or-true true = refl
or-true false = refl

abbrev wallet_row : WalletData → TonWalletRow
wallet_row w = record {
  subwallet_id = w.subwallet_id;
  user_id = w.user_id;
  wallet_type = w.wallet_type;
  address = w.address;
}

-- The store behind its insertion.
abbrev with_wallet : Store → WalletData → Store
with_wallet s w = (
  record s.0 { ton_wallets = s.0.ton_wallets ++ wallet_row w ∷ [] },
  put w.address (record { wallet_type = w.wallet_type; owner = none; user_id = w.user_id }) s.1,
)

save_ton_wallet-new :
    (s : Store) (w : WalletData)
    → find (with_subwallet w.subwallet_id) s.0.ton_wallets ≡ none
    → save_ton_wallet s.0 s.1 w ≡ ok (with_wallet s w)
unfolding save_ton_wallet insert_ton_wallet
save_ton_wallet-new s w h = rw h refl

-- Where the ids have not reached the largest uint32 and the wallet for the next id has an id from it on and an std
-- address, a request for a TON deposit is answered with the address; the wallet is known as a TON deposit from then
-- on, and its id is the last one in use.
pub new_ton_address_saved :
    (lib : Library) (config : ApiConfig) (default_subwallet : ℕ) (new_memo : Database → ℕ) (now : ℕ)
    (bc : Blockchain) (req : HttpRequest) (s : Store) (body : NewAddressRequest)
    (w : Option TonAddress) (id : ℕ) (a : Address)
    → lib.decode_new_address req.body ≡ ok body
    → str_eq body.currency ton_symbol ≡ true
    → suc (get_last_subwallet_id default_subwallet s.0) < 2 ^ 32
    → bc.generate_sub_wallet config.shard (suc (get_last_subwallet_id default_subwallet s.0))
      ≡ ok (w, id)
    → suc (get_last_subwallet_id default_subwallet s.0) ≤ id
    → address_from_tonutils w ≡ ok a
    → (s' : Store) × (get_new_address lib config (postgres default_subwallet new_memo now) bc req s
        ≡ (s', ok (respond 200 (address_body (to_user_format lib config a)))))
      × (get_wallet_type s'.1 a ≡ some ton_deposit_wallet)
      × (get_last_subwallet_id default_subwallet s'.0 ≡ id)
unfolding get_new_address generate_address generate_ton_address is_valid_currency get_wallet_type
    get_last_subwallet_id
new_ton_address_saved lib config sub memo now bc req s body w id a decoded ton small made after
      addr =
    let last = get_last_subwallet_id sub s.0 in
    let above : IsAbove id (max_subwallet s.0.ton_wallets) =
      last-IsAbove sub id (max_subwallet s.0.ton_wallets) (omega arith) in
    let d = ton_wallet_data lib config (postgres sub memo now) bc body.user_id id a in
    (
      with_wallet s d,
      rw
          (
            decoded,
            ton,
            or-true (is_some (master_of body.currency config.jettons)),
            next_id-small last small,
            made,
            addr,
            save_ton_wallet-new s d (find-above id s.0.ton_wallets above),
          )
          refl,
      rw (get_wallet_type, ==_refl a) refl,
      rw (get_last_subwallet_id, max_subwallet-append s.0.ton_wallets (wallet_row d) above) refl,
    )
