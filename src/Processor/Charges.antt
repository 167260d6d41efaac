-- ===== src/Processor/Charges.antt =====
-- What a withdrawal takes from the balances, and that what is left and what is spent stay within them.
use text.Mathlib.TextEquality.{eq_iff}
use bicycle.Prelude.{
  ◌≡◌, refl, sym, ap, subst, ◌∙◌, ◌⊎◌, inl, inr, Bool, true, false, List, [], ◌∷◌, ◌++◌, some,
  String, str_eq, if◌then◌else◌, ok, >>=-eq-ok, ok-injective, Bool-cases, Option-cases, arith,
}
use bicycle.Prelude.Int.{pos, ◌+ℤ◌, ◌-ℤ◌, ◌≤ℤ◌, ltb_ℤ, int_laws}
use bicycle.Models.{Coins, ton_symbol, ExternalWithdrawalTask}
use bicycle.Processor.Messages.{Message, jetton_transfer_ton_amount}
use bicycle.Processor.Balances.{Balances, lookup, balance_of, decrease_balances}
use bicycle.Processor.Build.{Batch}

-- The TON that messages carry.
abbrev pub carried : List Message → Coins
carried [] = pos 0
carried (m ∷ ms) = m.amount +ℤ carried ms

-- The amounts of the withdrawals in the currency `c`.
abbrev pub withdrawn : String → List ExternalWithdrawalTask → Coins
withdrawn c [] = pos 0
withdrawn c (w ∷ ws) =
    let rest = withdrawn c ws in if str_eq c w.currency then w.amount +ℤ rest else rest

-- What a batch spends of a currency: of TON what its messages carry, of a jetton what it withdraws.
abbrev pub spent : String → Batch → Coins
spent c b = if str_eq c ton_symbol then carried b.messages else withdrawn c b.external

-- What a withdrawal of `amount` of the currency `cur` takes of `c`.
abbrev pub charge : String → String → Coins → Coins
charge c cur amount =
    if str_eq c ton_symbol
    then (if str_eq cur ton_symbol then amount else jetton_transfer_ton_amount)
    else if str_eq c cur
    then amount
    else pos 0

-- A currency has some balance left, which with what is spent is at most the balance at the start.
abbrev pub IsCovered : String → Coins → Balances → Coins → Type 0
IsCovered c start bs out = (r : Coins) × (lookup c bs ≡ some r) × (pos 0 ≤ℤ r) × (r +ℤ out ≤ℤ start)

pub carried-append : (ms ns : List Message) → carried (ms ++ ns) ≡ carried ms +ℤ carried ns
carried-append [] ns = omega int_laws
carried-append (m ∷ ms) ns = rw (carried-append ms ns) (omega int_laws)

pub withdrawn-append :
    (c : String) (xs : List ExternalWithdrawalTask) (w : ExternalWithdrawalTask)
    → withdrawn c (xs ++ w ∷ [])
      ≡ withdrawn c xs +ℤ (if str_eq c w.currency then w.amount else pos 0)
withdrawn-append c [] w = elim (Bool-cases (str_eq c w.currency)) [
  | inl e ↦ rw e (omega int_laws)
  | inr e ↦ rw e (omega int_laws)
]
withdrawn-append c (x ∷ xs) w =
    rw (withdrawn-append c xs w) (elim (Bool-cases (str_eq c x.currency)) [
      | inl e ↦ rw e (omega int_laws)
      | inr e ↦ rw e refl
    ])

-- The two ways to an accepted withdrawal.
abbrev pub OfTon : Balances → String → Coins → Balances → Type 0
OfTon bs cur amount bs' =
    (str_eq cur ton_symbol ≡ true)
    × (b : Coins) × (lookup ton_symbol bs ≡ some b)
    × (amount ≤ℤ b)
    × (bs' ≡ (ton_symbol, b -ℤ amount) ∷ bs)

abbrev pub OfJetton : Balances → String → Coins → Balances → Type 0
OfJetton bs cur amount bs' =
    (str_eq cur ton_symbol ≡ false)
    × (b t : Coins) × (lookup cur bs ≡ some b)
    × (amount ≤ℤ b)
    × (lookup ton_symbol bs ≡ some t)
    × (jetton_transfer_ton_amount ≤ℤ t)
    × (bs' ≡ (ton_symbol, t -ℤ jetton_transfer_ton_amount) ∷ (cur, b -ℤ amount) ∷ bs)

pub balance_of-lookup :
    (c : String) (bs : Balances) {b : Coins} → balance_of c bs ≡ ok b → lookup c bs ≡ some b
balance_of-lookup c bs e = elim (Option-cases (lookup c bs)) [
  | inl n ↦ cc (rw n at e)
  | inr (a, s) ↦ s ∙ ap some (ok-injective (rw s at e))
]

pub pair_injective :
    {a b : Bool} {x y : Balances} → ◌≡◌ {A = Bool × Balances} (a, x) (b, y) → (a ≡ b) × (x ≡ y)
pair_injective e = (ap (λ q. q.0) e, ap (λ q. q.1) e)

pub decrease_balances-cases :
    (bs : Balances) (cur : String) (amount : Coins) {bs' : Balances}
    → decrease_balances bs cur amount ≡ ok (false, bs')
    → OfTon bs cur amount bs' ⊎ OfJetton bs cur amount bs'
unfolding decrease_balances
decrease_balances-cases bs cur amount e = elim (Bool-cases (str_eq cur ton_symbol)) [
  | inl ton ↦
      let (b, l, k) = >>=-eq-ok (balance_of ton_symbol bs) _ (rw ton at e) in
      elim (Bool-cases (ltb_ℤ b amount)) [
        | inl low ↦ cc (rw low at k)
        | inr enough ↦ inl (
          ton,
          b,
          balance_of-lookup ton_symbol bs l,
          ground arith,
          sym (pair_injective (ok-injective (rw enough at k))).1,
        )
      ]
  | inr jetton ↦
      let (b, l, k) = >>=-eq-ok (balance_of cur bs) _ (rw jetton at e) in
      elim (Bool-cases (ltb_ℤ b amount)) [
        | inl low ↦ cc (rw low at k)
        | inr enough ↦
            let (t, l2, k2) = >>=-eq-ok (balance_of ton_symbol bs) _ (rw enough at k) in
            elim (Bool-cases (ltb_ℤ t jetton_transfer_ton_amount)) [
              | inl low ↦ cc (rw low at k2)
              | inr left ↦ inr (
                jetton,
                b,
                t,
                balance_of-lookup cur bs l,
                ground arith,
                balance_of-lookup ton_symbol bs l2,
                ground arith,
                sym (pair_injective (ok-injective (rw left at k2))).1,
              )
            ]
      ]
]

pub IsCovered-after :
    (c : String) (start out : Coins) (bs bs' : Balances) (b cost : Coins)
    → IsCovered c start bs out
    → lookup c bs ≡ some b
    → cost ≤ℤ b
    → lookup c bs' ≡ some (b -ℤ cost)
    → IsCovered c start bs' (out +ℤ cost)
IsCovered-after c start out bs bs' b cost (r, l, p, q) lb enough left =
    let same : r ≡ b = cc in
    let q' : b +ℤ out ≤ℤ start = subst (λ x. x +ℤ out ≤ℤ start) same q in
    (b -ℤ cost, left, omega int_laws, omega int_laws)

pub IsCovered-same :
    (c : String) (start out : Coins) (bs bs' : Balances)
    → IsCovered c start bs out
    → lookup c bs' ≡ lookup c bs
    → IsCovered c start bs' (out +ℤ pos 0)
IsCovered-same c start out bs bs' (r, l, p, q) k = (r, k ∙ l, p, omega int_laws)

-- An accepted withdrawal takes its charge, and the balance was enough.
pub decrease_balances-Covered :
    (c cur : String) (amount start out : Coins) (bs : Balances) {bs' : Balances}
    → decrease_balances bs cur amount ≡ ok (false, bs')
    → IsCovered c start bs out
    → IsCovered c start bs' (out +ℤ charge c cur amount)
decrease_balances-Covered c cur amount start out bs {bs'} e h =
    elim (decrease_balances-cases bs cur amount e) [
      | inl (ton, b, lb, enough, eq) ↦ elim (Bool-cases (str_eq c ton_symbol)) [
        | inl same ↦
            rw (same, ton)
              (IsCovered-after c start out bs bs' b amount h
                (ap (λ k. lookup k bs) ((eq_iff c ton_symbol).0 same) ∙ lb) enough
                (rw (eq, same) refl))
        | inr other ↦
            let apart : str_eq c cur ≡ false =
              subst (λ k. str_eq c k ≡ false) (sym ((eq_iff cur ton_symbol).0 ton)) other in
            rw (other, apart) (IsCovered-same c start out bs bs' h (rw (eq, other) refl))
      ]
      | inr (jetton, b, t, lb, enough, lt, left, eq) ↦ elim (Bool-cases (str_eq c ton_symbol)) [
        | inl same ↦
            rw (same, jetton)
              (IsCovered-after c start out bs bs' t jetton_transfer_ton_amount h
                (ap (λ k. lookup k bs) ((eq_iff c ton_symbol).0 same) ∙ lt) left
                (rw (eq, same) refl))
        | inr other ↦ elim (Bool-cases (str_eq c cur)) [
          | inl this ↦
              rw (other, this)
                (IsCovered-after c start out bs bs' b amount h
                  (ap (λ k. lookup k bs) ((eq_iff c cur).0 this) ∙ lb) enough
                  (rw (eq, other, this) refl))
          | inr apart ↦
              rw (other, apart) (IsCovered-same c start out bs bs' h (rw (eq, other, apart) refl))
        ]
      ]
    ]

abbrev pub Covered : String → Coins → Batch → Type 0
Covered c start b = IsCovered c start b.balances (spent c b)

pub IsCovered-less :
    (c : String) (start out less : Coins) (bs : Balances)
    → less ≤ℤ out
    → IsCovered c start bs out
    → IsCovered c start bs less
IsCovered-less c start out less bs h (r, l, p, q) = (r, l, p, omega int_laws)

-- Messages for which the fee was taken, and no withdrawal outside.
pub fee_spent :
    (c : String) (b b' : Batch) (ms : List Message)
    → carried ms ≤ℤ jetton_transfer_ton_amount
    → b'.messages ≡ b.messages ++ ms
    → b'.external ≡ b.external
    → spent c b' ≤ℤ spent c b +ℤ charge c ton_symbol jetton_transfer_ton_amount
fee_spent c b b' ms h em ee = elim (Bool-cases (str_eq c ton_symbol)) [
  | inl same ↦ rw (same, em, carried-append b.messages ms) (omega int_laws)
  | inr other ↦ rw (other, ee) (omega int_laws)
]

-- A batch that the fee was taken for.
pub fee-Covered :
    (c : String) (start : Coins) (b b' : Batch) (ms : List Message) (bs : Balances)
    → decrease_balances b.balances ton_symbol jetton_transfer_ton_amount ≡ ok (false, bs)
    → Covered c start b
    → carried ms ≤ℤ jetton_transfer_ton_amount
    → b'.balances ≡ bs
    → b'.messages ≡ b.messages ++ ms
    → b'.external ≡ b.external
    → Covered c start b'
fee-Covered c start b b' ms bs e h k eb em ee = rw eb (
    IsCovered-less c start _ _ bs (fee_spent c b b' ms k em ee) (
      decrease_balances-Covered c ton_symbol jetton_transfer_ton_amount start (spent c b) b.balances
        e h))
