-- ===== src/Db/InternalTasks.antt =====
-- db/db.go: the deposits that have incomes to collect, as the two queries find them.
use bicycle.Prelude.{
  ℕ, Bool, true, false, not, ◌&&◌, ◌||◌, List, [], ◌∷◌, Option, none, some, String, str_eq, ◌==◌,
  ltb, if◌then◌else◌, find, filter_by, map, take, contains,
}
use bicycle.Prelude.Int.{ltb_ℤ}
use bicycle.Models.{
  Address, Coins, ton_symbol, ton_deposit_wallet, jetton_deposit_wallet, InternalWithdrawalTask,
}
use bicycle.Db.Schema.{
  Database, ExternalIncomeRow, InternalWithdrawalRow, TonWalletRow, JettonWalletRow,
}
use bicycle.Db.AddressBook.{with_subwallet}
use bicycle.Db.Wallets.{same_type}

-- `failed = false` of an address, and `MAX(since_lt)` of those.
unfoldable pub max_since_lt : Address → List InternalWithdrawalRow → ℕ
max_since_lt a [] = 0
max_since_lt a (r ∷ rs) =
    let rest = max_since_lt a rs in
    if not r.failed && a == r.from_address
    then (if ltb rest r.since_lt then r.since_lt else rest)
    else rest

-- `iw3` of an address: the last withdrawals from it that have not failed.
unfoldable pub last_withdrawals : Address → List InternalWithdrawalRow → List InternalWithdrawalRow
unfolding max_since_lt
last_withdrawals a rs =
    filter_by (λ r. not r.failed && a == r.from_address && r.since_lt == max_since_lt a rs) rs

-- A group of incomes: `MAX(lt)` and `MAX(amount)` of a deposit.
pub record Group : Type 0 where
  pub deposit : Address
  pub last_lt : ℕ
  pub max_amount : Coins
  pub subwallet_id : ℕ
  pub currency : String

abbrev same_group : Group → Group → Bool
same_group g h =
    g.deposit == h.deposit && g.subwallet_id == h.subwallet_id && str_eq g.currency h.currency

abbrev merge : Group → Group → Group
merge g h = record h {
  last_lt = if ltb h.last_lt g.last_lt then g.last_lt else h.last_lt;
  max_amount = if ltb_ℤ h.max_amount g.max_amount then g.max_amount else h.max_amount;
}

-- `GROUP BY`
unfoldable pub add_group : Group → List Group → List Group
add_group g [] = g ∷ []
add_group g (h ∷ hs) =
    let rest = add_group g hs in if same_group g h then merge g h ∷ hs else h ∷ rest

unfoldable pub add_groups : List Group → List Group → List Group
unfolding add_group
add_groups [] hs = hs
add_groups (g ∷ gs) hs = add_group g (add_groups gs hs)

-- `ORDER BY MAX(di.amount) DESC`
unfoldable pub insert_group : Group → List Group → List Group
insert_group g [] = g ∷ []
insert_group g (h ∷ hs) =
    let rest = insert_group g hs in if ltb_ℤ g.max_amount h.max_amount then h ∷ rest else g ∷ h ∷ hs

unfoldable pub order_groups : List Group → List Group
unfolding insert_group
order_groups [] = []
order_groups (g ∷ gs) = insert_group g (order_groups gs)

abbrev task_of_group : Group → InternalWithdrawalTask
task_of_group g = record {
  from = g.deposit;
  subwallet_id = g.subwallet_id;
  lt = g.last_lt;
  currency = g.currency;
}

abbrev any_row : (InternalWithdrawalRow → Bool) → List InternalWithdrawalRow → Bool
any_row p [] = false
any_row p (r ∷ rs) = p r || any_row p rs

-- No withdrawal, or one that passes the test: the `WHERE` over the left join.
abbrev none_or_any : (InternalWithdrawalRow → Bool) → List InternalWithdrawalRow → Bool
none_or_any p [] = true
none_or_any p (r ∷ rs) = any_row p (r ∷ rs)

-- `finish_lt IS NOT NULL AND lt > finish_lt`
abbrev pub is_after_finish : ℕ → InternalWithdrawalRow → Bool
is_after_finish lt r = elim r.finish_lt [ none ↦ false | some f ↦ ltb f lt ]

-- `lt > since_lt AND finish_lt IS NOT NULL`
abbrev pub is_after_since : ℕ → InternalWithdrawalRow → Bool
is_after_since lt r = elim r.finish_lt [ none ↦ false | some _ ↦ ltb r.since_lt lt ]

abbrev group_of : ExternalIncomeRow → ℕ → String → Group
group_of i subwallet currency = record {
  deposit = i.deposit_address;
  last_lt = i.lt;
  max_amount = i.amount;
  subwallet_id = subwallet;
  currency = currency;
}

-- The groups of the incomes with something to collect in TON.
unfoldable pub ton_groups : Database → List ExternalIncomeRow → List Group
unfolding last_withdrawals add_groups
ton_groups db [] = []
ton_groups db (i ∷ is) =
    let rest = ton_groups db is in
    if none_or_any (is_after_finish i.lt)
      (last_withdrawals i.deposit_address db.internal_withdrawals)
    then add_groups
        (map (λ (t : TonWalletRow). group_of i t.subwallet_id ton_symbol)
          (filter_by
            (λ t. i.deposit_address == t.address && same_type ton_deposit_wallet t.wallet_type)
            db.ton_wallets))
        rest
    else rest

-- `GetTonInternalWithdrawalTasks`
unfoldable pub get_ton_internal_withdrawal_tasks : Database → ℕ → List InternalWithdrawalTask
unfolding ton_groups order_groups
get_ton_internal_withdrawal_tasks db limit =
    map task_of_group (take limit (order_groups (ton_groups db db.external_incomes)))

abbrev is_empty : List Address → Bool
is_empty [] = true
is_empty (_ ∷ _) = false

-- `NOT tw.address = ANY($2)`; the comparison with a NULL is false only for no address at all.
abbrev is_allowed : List Address → Option TonWalletRow → Bool
is_allowed forbidden none = is_empty forbidden
is_allowed forbidden (some t) = not (contains t.address forbidden)

unfoldable pub jetton_groups : Database → List Address → List ExternalIncomeRow → List Group
unfolding last_withdrawals add_groups
jetton_groups db forbidden [] = []
jetton_groups db forbidden (i ∷ is) =
    let rest = jetton_groups db forbidden is in
    if none_or_any (is_after_since i.lt)
      (last_withdrawals i.deposit_address db.internal_withdrawals)
    then add_groups
        (map (λ (j : JettonWalletRow). group_of i j.subwallet_id j.currency)
          (filter_by
            (λ j.
              i.deposit_address == j.address
              && same_type jetton_deposit_wallet j.wallet_type
              && is_allowed forbidden (find (with_subwallet j.subwallet_id) db.ton_wallets))
            db.jetton_wallets))
        rest
    else rest

-- `GetJettonInternalWithdrawalTasks`
unfoldable pub get_jetton_internal_withdrawal_tasks :
    Database → List Address → ℕ → List InternalWithdrawalTask
unfolding jetton_groups order_groups
get_jetton_internal_withdrawal_tasks db forbidden limit =
    map task_of_group (take limit (order_groups (jetton_groups db forbidden db.external_incomes)))
