-- ===== src/Tests/Restarts.antt =====
-- The hot wallets and a jetton deposit are saved, and the process starts again.
use bicycle.Prelude.{none, ◌≡◌, ok, ℕ, refl, [], String}
use bicycle.Models.{
  to_tonutils_std, to_bytes, be_bytes, be_value, address_from_bytes, address_from_tonutils, Address,
  WalletData, WalletType, ton_hot_wallet, jetton_hot_wallet, jetton_deposit_wallet,
}
use bicycle.Prelude.Int.{pos}
use bicycle.Blockchain.Queries.{active}
use bicycle.Processor.Start.{Start, init_ton_hot_wallet}
use bicycle.Processor.Start.Again.{init_ton_hot_wallet_again}
use bicycle.Db.Wallets.{get_ton_hot_wallet_address}
use bicycle.Db.Schema.{Database, empty_database}
use bicycle.Db.AddressBook.{
  AddressBook, get_wallet_type, insert_ton_wallet, insert_jetton_wallet, save_ton_wallet,
  save_jetton_wallet, owner_row, ton_row, jetton_row, put, put_jetton_wallet,
}
use bicycle.Db.AddressBook.Loading.{ton_info}
use bicycle.Db.AddressBook.Restart.{
  Saves, no_wallets, ton_wallet, jetton_deposit, jetton_wallet, IsRestored, with_ton, with_jetton,
  Saves-IsRestored,
}

abbrev wallet : ℕ → String → String → WalletType → Address → WalletData
wallet subwallet_id user_id currency wallet_type address = record {
  subwallet_id = subwallet_id;
  user_id = user_id;
  currency = currency;
  wallet_type = wallet_type;
  address = address;
}

abbrev ton_hot : WalletData
ton_hot = wallet 698 "" "TON" ton_hot_wallet 7

abbrev jetton_hot : WalletData
jetton_hot = wallet 698 "" "USDT" jetton_hot_wallet 8

abbrev deposit : WalletData
deposit = wallet 699 "alice" "USDT" jetton_deposit_wallet 9

abbrev with_hot : Database
with_hot = with_jetton (with_ton empty_database (ton_row ton_hot)) (jetton_row jetton_hot)

abbrev with_deposit : Database
with_deposit = with_jetton (with_ton with_hot (owner_row 10 deposit)) (jetton_row deposit)

abbrev hot_book : AddressBook
hot_book = put_jetton_wallet 7 jetton_hot (put 7 (ton_info (ton_row ton_hot)) [])

deposit-Saves : Saves with_deposit (put_jetton_wallet 10 deposit hot_book)
unfolding save_ton_wallet save_jetton_wallet insert_ton_wallet insert_jetton_wallet get_wallet_type
deposit-Saves =
    jetton_deposit {db = with_hot} {b = hot_book} 10 deposit
      (jetton_wallet (ton_row ton_hot) jetton_hot (ton_wallet ton_hot no_wallets refl refl) refl
        refl refl)
      refl refl refl

Saves-IsRestored_example : IsRestored with_deposit (put_jetton_wallet 10 deposit hot_book)
Saves-IsRestored_example = Saves-IsRestored deposit-Saves

abbrev first_start : Start
first_start = record {
  generated = ok (to_tonutils_std 7, 0, 698);
  state = λ a. ok (pos 5000, active);
  deploy = ok tt;
  hot_wallet_min = pos 1000;
  default_subwallet = 698;
  wallet_address = λ hot master. ok master;
  cold_wallet = none;
  basic = ok (to_tonutils_std 6);
  jettons = [];
}

abbrev started : Database
started = with_ton empty_database (ton_row ton_hot)

abbrev started_book : AddressBook
started_book = put 7 (ton_info (ton_row ton_hot)) []

first_run :
    init_ton_hot_wallet first_start empty_database []
    ≡ ok ((to_tonutils_std 7, 0, 698), (started, started_book))
unfolding init_ton_hot_wallet get_ton_hot_wallet_address save_ton_wallet insert_ton_wallet
    address_from_tonutils to_tonutils_std to_bytes be_bytes be_value address_from_bytes
first_run = refl

init_ton_hot_wallet_again_example :
    init_ton_hot_wallet first_start started started_book
    ≡ ok ((to_tonutils_std 7, 0, 698), (started, started_book))
init_ton_hot_wallet_again_example =
    init_ton_hot_wallet_again first_start empty_database [] first_run
