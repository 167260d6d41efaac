-- ===== src/Tests/Network.antt =====
-- Calls of the network on concrete answers.
use bicycle.Prelude.{
  ℕ, zero, suc, ◌≤◌, ◌<◌, ◌+◌, ◌*◌, ◌==◌, not_found, ◌≡◌, ◌↔◌, refl, Bool, true, false, List, [],
  ◌∷◌, Option, none, some, length, ltb, if◌then◌else◌, Result, ok, err, external, arith,
}
use bicycle.Prelude.Int.{pos}
use bicycle.Models.{
  Address, TonAddress, ExternalIncome, ton_deposit_wallet, to_tonutils_std, to_bytes, be_bytes,
  be_value, address_from_bytes, address_from_tonutils,
}
use bicycle.Db.Schema.{Database, RequestRow, ExternalIncomeRow, empty_database}
use bicycle.Db.Reports.{get_income_history}
use bicycle.Db.Reports.History.{count_if, count_incomes, IsOrdered, history_complete}
use bicycle.Blockchain.Retry.{FirstOf, retry, retry_from, retry_first}
use bicycle.Blockchain.Wallets.{in_shard, max_uint32, search, try_sub_wallet, generate_sub_wallet}
use bicycle.Blockchain.Wallets.Least.{
  IsDerived, generate_sub_wallet_least, generate_sub_wallet_finds,
}
use bicycle.Blockchain.Transactions.{
  ShortInfo, TransactionId3, Serves, all_left, some_left, IsOrderedFrom, count_where,
  get_transaction_ids_from_block, transaction_ids_complete,
}
use bicycle.Blockchain.Trust.{
  get_trust_block_from_different_sources, check_sources, IsConfirmed, require, trusted-IsConfirmed,
}
use bicycle.Blockchain.Queries.{check_time}
use bicycle.Blockchain.Queries.Clock.{check_time_iff}

-- The first two calls fail.
abbrev third_succeeds : ℕ → Result ℕ
third_succeeds n = if ltb n 2 then err (external 7) else ok 50

retry_first_example : FirstOf third_succeeds 0 4 (retry third_succeeds 0 (pos 5))
retry_first_example = retry_first third_succeeds 0 4

-- The addresses of even ids are in shard 1.
abbrev address_of : ℕ → Address
address_of zero = 452312848583266388373324160190187140051835877600158453279131187530910662656
address_of (suc zero) = 9
address_of (suc (suc n)) = address_of n

abbrev subwallet : ℕ → Result TonAddress
subwallet id = ok (to_tonutils_std (address_of id))

generated : generate_sub_wallet (ok tt) subwallet 1 7 ≡ ok (to_tonutils_std (address_of 8), 8)
unfolding generate_sub_wallet search try_sub_wallet in_shard address_from_tonutils to_tonutils_std
    to_bytes be_bytes be_value address_from_bytes
generated = refl

generate_sub_wallet_least_example :
    (7 ≤ 8)
    × (8 < max_uint32)
    × ((a : Address) × IsDerived subwallet 8 (to_tonutils_std (address_of 8)) a
        × (in_shard a 1 ≡ true))
    × ((j : ℕ)
        → 7 ≤ j
        → j < 8
        → (v : TonAddress) × (a : Address) × IsDerived subwallet j v a × (in_shard a 1 ≡ false))
generate_sub_wallet_least_example =
    generate_sub_wallet_least (ok tt) subwallet 1 7 8 (to_tonutils_std (address_of 8)) generated

-- One account and one address.
abbrev constant_subwallet : ℕ → Result TonAddress
constant_subwallet id = ok (to_tonutils_std 9)

nine_is_std : address_from_tonutils (some (to_tonutils_std 9)) ≡ ok 9
unfolding address_from_tonutils to_tonutils_std to_bytes be_bytes be_value address_from_bytes
nine_is_std = refl

nine_in_zero : in_shard 9 0 ≡ true
unfolding in_shard
nine_in_zero = refl

all-IsDerived :
    (j : ℕ) → 7 ≤ j → j ≤ 8 → (v : TonAddress) × (a : Address) × IsDerived constant_subwallet j v a
all-IsDerived j low high = (to_tonutils_std 9, 9, (refl, nine_is_std))

generate_sub_wallet_finds_example :
    (r : TonAddress × ℕ) × (generate_sub_wallet (ok tt) constant_subwallet 0 7 ≡ ok r) × (r.1 ≤ 8)
generate_sub_wallet_finds_example =
    generate_sub_wallet_finds constant_subwallet 0 7 8 (omega arith) (omega arith) all-IsDerived
      (to_tonutils_std 9) 9 (refl, nine_is_std) nine_in_zero

abbrev tx : ℕ → ShortInfo
tx n = record { account = 3 ∷ []; lt = n; hash = [] }

-- Two pages, not in the order of time.
abbrev page_of : Option TransactionId3 → ℕ → Result (List ShortInfo × Bool)
page_of none i = ok (tx 20 ∷ tx 10 ∷ [], true)
page_of (some (account, lt)) i = if lt == 10 then ok (tx 15 ∷ [], false) else err not_found

all_served : Serves page_of [] (tx 20 ∷ tx 10 ∷ tx 15 ∷ [])
all_served = some_left (tx 20) (tx 10 ∷ []) (λ i. refl) (all_left (λ i. refl))

transaction_ids_complete_example :
    (sorted : List ShortInfo) × (get_transaction_ids_from_block page_of (pos 2) 4 ≡ ok sorted)
    × IsOrderedFrom 0 sorted
    × ((p : ShortInfo → Bool) → count_where p sorted ≡ count_where p (tx 20 ∷ tx 10 ∷ tx 15 ∷ []))
transaction_ids_complete_example =
    transaction_ids_complete page_of 2 4 (tx 20 ∷ tx 10 ∷ tx 15 ∷ []) all_served (omega arith)

-- Of three sources the second fails.
abbrev sources : List (Result (Unit {0}))
sources = ok tt ∷ err (external 5) ∷ ok tt ∷ []

abbrev node_block : Result ℕ
node_block = ok 77

trusted : get_trust_block_from_different_sources node_block sources ≡ ok 77
unfolding get_trust_block_from_different_sources check_sources
trusted = refl

trusted-IsConfirmed_example :
    (node_block ≡ ok 77)
    × IsConfirmed (require (length sources)) sources
    × (1 ≤ require (length sources))
    × (length sources ≤ suc (require (length sources)))
trusted-IsConfirmed_example = trusted-IsConfirmed node_block sources trusted

abbrev clock : ℕ → Result ℕ
clock i = ok 100

clock_answers : retry clock 0 (pos 3) ≡ ok 100
unfolding retry retry_from
clock_answers = refl

check_time_iff_example :
    (check_time clock (pos 3) 99000000000 101000000000 2000000000 ≡ ok true) ↔ (
      (99000000000 + 101000000000 ≤ 2 * (100 * 1000000000 + 2000000000) + 1)
      × (2 * (100 * 1000000000) ≤ 99000000000 + 101000000000 + 2 * 2000000000))
check_time_iff_example =
    check_time_iff clock (pos 3) 99000000000 101000000000 2000000000 100 (omega arith) clock_answers

abbrev waiting : RequestRow
waiting = record {
  query_id = 1;
  bounceable = true;
  processing = false;
  processed = false;
  is_internal = false;
  amount = pos 5;
  user_id = "alice";
  user_query_id = "q1";
  currency = "TON";
  dest_address = 7;
  comment = "";
  binary_comment = "";
}

abbrev income : ℕ → ExternalIncomeRow
income lt = record {
  lt = lt;
  utime = 1000;
  payer_workchain = none;
  deposit_address = 30;
  payer_address = [];
  amount = pos 4;
  comment = "";
  tx_hash = [];
}

abbrev reported : Database
reported = record empty_database {
  withdrawal_requests = waiting ∷ record waiting { processing = true } ∷ [];
  ton_wallets =
      record { subwallet_id = 1; user_id = "alice"; wallet_type = ton_deposit_wallet; address = 30 }
      ∷ [];
  external_incomes = income 20 ∷ income 30 ∷ income 10 ∷ [];
}

history_complete_example :
    (xs : List ExternalIncome) × (get_income_history reported "alice" "TON" (pos 3) (pos 0) true
      ≡ ok xs)
    × IsOrdered true xs
    × ((p : ExternalIncome → Bool) → count_if p xs ≡ count_incomes reported "alice" "TON" p)
history_complete_example = history_complete reported "alice" "TON" true 3 (omega arith)
