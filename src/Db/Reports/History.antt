-- ===== src/Db/Reports/History.antt =====
-- The history of incomes holds the incomes of the user's deposits, each once for its wallet, in the order that was asked
-- for. Nothing is said of the order of incomes with the same logical time, which SQL leaves open.
use bicycle.Prelude.{
  ℕ, zero, suc, ◌+◌, ◌≤◌, ◌≡◌, refl, ◌∙◌, Bool, true, false, ◌&&◌, List, [], ◌∷◌, ◌++◌, map, take,
  length, filter_by, String, str_eq, ◌==◌, ltb, if◌then◌else◌, ok, Bool-cases, inl, inr, arith,
}
use bicycle.Prelude.Int.{pos}
use bicycle.Models.{Address, ExternalIncome, ton_deposit_wallet, jetton_deposit_wallet, ton_symbol}
use bicycle.Db.Schema.{Database, TonWalletRow, JettonWalletRow, ExternalIncomeRow}
use bicycle.Db.Wallets.{same_type}
use bicycle.Db.Reports.{
  page, get_income_history, history_rows, insert_income, order_by_lt, income_of, joined,
}

abbrev pub count_if {ℓ} : {A : Type ℓ} → (A → Bool) → List A → ℕ
count_if p [] = 0
count_if p (x ∷ xs) = let rest = count_if p xs in if p x then suc rest else rest

-- The deposits of a user and a currency at an address: one if it is a deposit of theirs, else none.
abbrev deposits_at : Database → String → String → Address → ℕ
deposits_at db user_id currency a =
    if str_eq currency ton_symbol
    then count_if
        (λ (w : TonWalletRow).
          a == w.address
          && (same_type ton_deposit_wallet w.wallet_type && str_eq w.user_id user_id))
        db.ton_wallets
    else count_if
        (λ (w : JettonWalletRow).
          a == w.address
          && (same_type jetton_deposit_wallet w.wallet_type
              && str_eq w.user_id user_id
              && str_eq w.currency currency))
        db.jetton_wallets

abbrev sum_if : (ExternalIncomeRow → ℕ) → (ExternalIncomeRow → Bool) → List ExternalIncomeRow → ℕ
sum_if c p [] = 0
sum_if c p (i ∷ is) = (if p i then c i else 0) + sum_if c p is

-- How many of the incomes of the user's deposits pass a test.
abbrev pub count_incomes : Database → String → String → (ExternalIncome → Bool) → ℕ
count_incomes db user_id currency p =
    sum_if (λ i. deposits_at db user_id currency i.deposit_address) (λ i. p (income_of i))
      db.external_incomes

-- No income is before the one that it follows, or none is after it.
abbrev Precedes : Bool → ℕ → ℕ → Type 0
Precedes true m n = m ≤ n
Precedes false m n = n ≤ m

abbrev Follows : Bool → ℕ → List ExternalIncome → Type 0
Follows asc n [] = Unit
Follows asc n (i ∷ is) = Precedes asc n i.lt

abbrev pub IsOrdered : Bool → List ExternalIncome → Type 0
IsOrdered asc [] = Unit
IsOrdered asc (i ∷ is) = Follows asc i.lt is × IsOrdered asc is

module _ {ℓ} {A : Type ℓ} where
  count_if-append :
      (p : A → Bool) (xs ys : List A) → count_if p (xs ++ ys) ≡ count_if p xs + count_if p ys
  count_if-append p [] ys = omega arith
  count_if-append p (x ∷ xs) ys = ground (arith, count_if-append p xs ys)

  count_if-filter_by :
      (p q : A → Bool) (xs : List A) → count_if p (filter_by q xs) ≡ count_if (λ x. q x && p x) xs
  count_if-filter_by p q [] = refl
  count_if-filter_by p q (x ∷ xs) = ground (arith, count_if-filter_by p q xs)

  take_all : (n : ℕ) (xs : List A) → length xs ≤ n → take n xs ≡ xs
  take_all zero [] h = refl
  take_all zero (x ∷ xs) h = absurd (omega arith)
  take_all (suc n) [] h = refl
  take_all (suc n) (x ∷ xs) h = rw (take_all n xs (omega arith)) refl

count_if-map {ℓ κ} :
    {A : Type ℓ} {B : Type κ} (p : B → Bool) (f : A → B) (xs : List A)
    → count_if p (map f xs) ≡ count_if (λ x. p (f x)) xs
count_if-map p f [] = refl
count_if-map p f (x ∷ xs) = ground (arith, count_if-map p f xs)

insert_income-count :
    (asc : Bool) (p : ExternalIncomeRow → Bool) (i : ExternalIncomeRow)
    (is : List ExternalIncomeRow)
    → count_if p (insert_income asc i is) ≡ count_if p (i ∷ is)
unfolding insert_income
insert_income-count asc p i [] = refl
insert_income-count asc p i (x ∷ xs) = ground (arith, insert_income-count asc p i xs)

order_by_lt-count :
    (asc : Bool) (p : ExternalIncomeRow → Bool) (is : List ExternalIncomeRow)
    → count_if p (order_by_lt asc is) ≡ count_if p is
unfolding order_by_lt
order_by_lt-count asc p [] = refl
order_by_lt-count asc p (i ∷ is) =
    ground (arith, insert_income-count asc p i (order_by_lt asc is), order_by_lt-count asc p is)

-- One income joined with the wallets at its address.
count_if-pair {ℓ} :
    {W : Type ℓ} (i : ExternalIncomeRow) (p : ExternalIncomeRow → Bool) (q at : W → Bool)
    (ws : List W)
    → count_if (λ (x : ExternalIncomeRow × W). q x.1 && p x.0) (map (λ w. (i, w)) (filter_by at ws))
      ≡ (if p i then count_if (λ w. at w && q w) ws else 0)
count_if-pair i p q at [] = ground arith
count_if-pair i p q at (w ∷ ws) = ground (arith, count_if-pair i p q at ws)

joined-count {ℓ} :
    {W : Type ℓ} (address_of : W → Address) (ws : List W) (p : ExternalIncomeRow → Bool)
    (q : W → Bool) (is : List ExternalIncomeRow)
    → count_if (λ (x : ExternalIncomeRow × W). q x.1 && p x.0) (joined address_of ws is)
      ≡ sum_if (λ i. count_if (λ w. i.deposit_address == address_of w && q w) ws) p is
joined-count address_of ws p q [] = refl
joined-count {W} address_of ws p q (i ∷ is) =
    count_if-append _ (map (λ w. (i, w)) (filter_by (λ w. i.deposit_address == address_of w) ws))
      (joined address_of ws is)
    ∙ rw
        (
          count_if-pair i p q (λ w. i.deposit_address == address_of w) ws,
          joined-count address_of ws p q is,
        )
        refl

-- The incomes whose deposit passes a test.
matched-count {ℓ} :
    {W : Type ℓ} (address_of : W → Address) (ws : List W) (p : ExternalIncomeRow → Bool)
    (q : W → Bool) (is : List ExternalIncomeRow)
    → count_if p (
        map
          (λ (x : ExternalIncomeRow × W). x.0)
          (filter_by (λ (x : ExternalIncomeRow × W). q x.1) (joined address_of ws is)))
      ≡ sum_if (λ i. count_if (λ w. i.deposit_address == address_of w && q w) ws) p is
matched-count {W} address_of ws p q is =
    let here : ExternalIncomeRow × W → Bool = λ x. q x.1 in
    count_if-map p (λ (x : ExternalIncomeRow × W). x.0) (filter_by here (joined address_of ws is))
    ∙ count_if-filter_by (λ (x : ExternalIncomeRow × W). p x.0) here (joined address_of ws is)
    ∙ joined-count address_of ws p q is

history_rows-count :
    (db : Database) (user_id currency : String) (p : ExternalIncomeRow → Bool)
    → count_if p (history_rows db user_id currency)
      ≡ sum_if (λ i. deposits_at db user_id currency i.deposit_address) p db.external_incomes
unfolding history_rows
history_rows-count db user_id currency p = elim (Bool-cases (str_eq currency ton_symbol)) [
  | inl ton ↦ rw ton (
      matched-count (λ (w : TonWalletRow). w.address) db.ton_wallets p
        (λ w. same_type ton_deposit_wallet w.wallet_type && str_eq w.user_id user_id)
        db.external_incomes)
  | inr jetton ↦ rw jetton (
      matched-count (λ (w : JettonWalletRow). w.address) db.jetton_wallets p
        (λ w.
          same_type jetton_deposit_wallet w.wallet_type
          && str_eq w.user_id user_id
          && str_eq w.currency currency)
        db.external_incomes)
]

length-count {ℓ} : {A : Type ℓ} (xs : List A) → length xs ≡ count_if (λ x. true) xs
length-count [] = refl
length-count (x ∷ xs) = rw (length-count xs) refl

Precedes-of_test :
    (asc : Bool) (m n : ℕ) → (if asc then ltb m n else ltb n m) ≡ true → Precedes asc m n
Precedes-of_test true m n h = ground arith
Precedes-of_test false m n h = ground arith

Precedes-of_not :
    (asc : Bool) (m n : ℕ) → (if asc then ltb m n else ltb n m) ≡ false → Precedes asc n m
Precedes-of_not true m n h = ground arith
Precedes-of_not false m n h = ground arith

insert_income-Follows :
    (asc : Bool) (n : ℕ) (i : ExternalIncomeRow) (is : List ExternalIncomeRow)
    → Precedes asc n i.lt
    → Follows asc n (map income_of is)
    → Follows asc n (map income_of (insert_income asc i is))
unfolding insert_income
insert_income-Follows asc n i [] le h = le
insert_income-Follows asc n i (x ∷ xs) le h =
    elim (Bool-cases (if asc then ltb x.lt i.lt else ltb i.lt x.lt)) [
      | inl later ↦ rw later h
      | inr here ↦ rw here le
    ]

insert_income-IsOrdered :
    (asc : Bool) (i : ExternalIncomeRow) (is : List ExternalIncomeRow)
    → IsOrdered asc (map income_of is)
    → IsOrdered asc (map income_of (insert_income asc i is))
unfolding insert_income
insert_income-IsOrdered asc i [] h = (tt, tt)
insert_income-IsOrdered asc i (x ∷ xs) (first, others) =
    elim (Bool-cases (if asc then ltb x.lt i.lt else ltb i.lt x.lt)) [
      | inl later ↦ rw later (
        insert_income-Follows asc x.lt i xs (Precedes-of_test asc x.lt i.lt later) first,
        insert_income-IsOrdered asc i xs others,
      )
      | inr here ↦ rw here (Precedes-of_not asc x.lt i.lt here, (first, others))
    ]

order_by_lt-IsOrdered :
    (asc : Bool) (is : List ExternalIncomeRow) → IsOrdered asc (map income_of (order_by_lt asc is))
unfolding order_by_lt
order_by_lt-IsOrdered asc [] = tt
order_by_lt-IsOrdered asc (i ∷ is) =
    insert_income-IsOrdered asc i (order_by_lt asc is) (order_by_lt-IsOrdered asc is)

-- A first page with room for all of them holds exactly the incomes of the user's deposits of the currency (for every test
-- as many pass it as in the table), in the ascending or descending order of their logical times.
pub history_complete :
    (db : Database) (user_id currency : String) (asc_order : Bool) (limit : ℕ)
    → count_incomes db user_id currency (λ i. true) ≤ limit
    → (xs : List ExternalIncome) × (get_income_history db user_id currency
          (pos limit)
          (pos 0)
          asc_order
        ≡ ok xs)
      × IsOrdered asc_order xs
      × ((p : ExternalIncome → Bool) → count_if p xs ≡ count_incomes db user_id currency p)
unfolding get_income_history page
history_complete db user_id currency asc_order limit room =
    let rows = history_rows db user_id currency in
    let sorted = order_by_lt asc_order rows in
    let fits : length sorted ≤ limit = omega (
      arith,
      length-count sorted,
      order_by_lt-count asc_order (λ i. true) rows,
      history_rows-count db user_id currency (λ i. true),
    ) in
    (
      map income_of sorted,
      rw (take_all limit sorted fits) refl,
      order_by_lt-IsOrdered asc_order rows,
      λ p.
          count_if-map p income_of sorted
          ∙ order_by_lt-count asc_order (λ i. p (income_of i)) rows
          ∙ history_rows-count db user_id currency (λ i. p (income_of i)),
    )
