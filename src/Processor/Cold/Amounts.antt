-- ===== src/Processor/Cold/Amounts.antt =====
-- The amounts of the withdrawals to the cold wallet.
use bicycle.Prelude.{
  Bool, true, false, ◌||◌, not, List, [], ◌∷◌, Option, none, some, String, All-append, ◌≡◌, inl,
  inr, subst, ◌∙◌, sym, refl, All, Result, ok, or_error, nil_dereference, >>=-eq-ok, ok-injective,
  Bool-cases, ltb→lt, ◌<◌, ◌+◌,
}
use bicycle.Prelude.Int.{pos, ◌-ℤ◌, ◌≤ℤ◌, ltb_ℤ, pos_part, neg_part, int_laws}
use bicycle.Models.{
  Address, Coins, ton_symbol, TonAddress, address_from_tonutils, WithdrawalRequest,
}
use bicycle.Db.Schema.{Database}
use bicycle.Db.External.{save_withdrawal_request}
use bicycle.Processor.Messages.{jetton_transfer_ton_amount}
use bicycle.Processor.Build.{Network, Setup}
use bicycle.Processor.Cold.{
  Cutoffs, cutoffs_of, is_in_progress, cold_request, cold_jettons, make_cold_wallet_withdrawals,
}

-- A request of the service itself to `dest`, for more than 0.
abbrev pub IsColdRequest : Address → WithdrawalRequest → Type 0
IsColdRequest dest r = (pos 1 ≤ℤ r.amount) × (r.is_internal ≡ true) × (r.destination ≡ dest)

above_residual :
    (b max residual : Coins) → ltb_ℤ max b ≡ true → residual ≤ℤ max → pos 1 ≤ℤ b -ℤ residual
above_residual b max residual h k =
    let above : pos_part max + neg_part b < pos_part b + neg_part max = ltb→lt _ _ h in
    omega int_laws

or_not : (a b : Bool) → (a || not b) ≡ false → b ≡ true
or_not true true h = cc
or_not true false h = cc
or_not false true h = refl
or_not false false h = cc

module _ (net : Network) (setup : Setup) (new_query : String → Result String)
    (jettons : List (String × Cutoffs)) (ton : Cutoffs)
    (below : (c : String) (x : Cutoffs)
      → cutoffs_of c jettons ≡ some x
      → x.hot_wallet_residual ≤ℤ x.hot_wallet_max) where
  some_of : {x : Cutoffs} (o : Option Cutoffs) → or_error o nil_dereference ≡ ok x → o ≡ some x
  some_of none e = cc
  some_of (some a) e = cc

  cold_jettons_positive :
      (dest : Address) (ws : List (String × TonAddress)) (ton_balance : Coins) (db : Database)
      {r : Coins × List WithdrawalRequest × Database}
      → cold_jettons net setup new_query jettons ton dest ws ton_balance db ≡ ok r
      → All (IsColdRequest dest) r.1
  unfolding cold_jettons
  cold_jettons_positive dest [] ton_balance db e =
      subst (λ (x : Coins × List WithdrawalRequest × Database). All (IsColdRequest dest) x.1)
        (ok-injective e) tt
  cold_jettons_positive dest ((cur, jw) ∷ ws) ton_balance db e =
      elim (Bool-cases (is_in_progress db dest cur)) [
        | inl waits ↦ cold_jettons_positive dest ws ton_balance db (rw waits at e)
        | inr free ↦
            let (balance, _, e1) = >>=-eq-ok (net.get_last_jetton_balance jw) _ (rw free at e) in
            let (cutoffs, ec, e2) =
              >>=-eq-ok (or_error (cutoffs_of cur jettons) nil_dereference) _ e1 in
            elim (Bool-cases (ltb_ℤ cutoffs.hot_wallet_max balance)) [
              | inl more ↦
                  let (u, _, e3) = >>=-eq-ok (new_query cur) _ (rw more at e2) in
                  let ((q, db1), _, e4) =
                    >>=-eq-ok
                      (save_withdrawal_request db
                        (cold_request cur (balance -ℤ cutoffs.hot_wallet_residual) true dest u))
                      _ e3 in
                  let (rest, er, e5) =
                    >>=-eq-ok
                      (cold_jettons net setup new_query jettons ton dest ws
                        (ton_balance -ℤ jetton_transfer_ton_amount) db1)
                      _ e4 in
                  subst
                    (λ (x : Coins × List WithdrawalRequest × Database).
                      All (IsColdRequest dest) x.1)
                    (ok-injective e5)
                    (
                      (
                        above_residual balance cutoffs.hot_wallet_max cutoffs.hot_wallet_residual
                            more (below cur cutoffs (some_of _ ec)),
                        refl,
                        refl,
                      ),
                      cold_jettons_positive dest ws (ton_balance -ℤ jetton_transfer_ton_amount) db1
                          er,
                    )
              | inr less ↦ cold_jettons_positive dest ws ton_balance db (rw less at e2)
            ]
      ]

  -- Where each configured residual is at most its cutoff, every request that `makeColdWalletWithdrawals`
  -- saves is of the service itself, goes to the cold wallet's address and asks for more than 0.
  pub cold_requests_positive :
      (cold_wallet : TonAddress) (bounceable : Bool) (dest : Address) (db db' : Database)
      (saved : List WithdrawalRequest)
      → ton.hot_wallet_residual ≤ℤ ton.hot_wallet_max
      → address_from_tonutils (some cold_wallet) ≡ ok dest
      → make_cold_wallet_withdrawals net setup new_query jettons ton
          (some (cold_wallet, bounceable))
          db
        ≡ ok (saved, db')
      → All (IsColdRequest dest) saved
  unfolding make_cold_wallet_withdrawals
  cold_requests_positive cold_wallet bounceable dest db db' saved h ed e =
      let (state, _, e1) = >>=-eq-ok (net.get_account_current_state setup.ton_hot_wallet) _ e in
      let (d, ed', e2) = >>=-eq-ok (address_from_tonutils (some cold_wallet)) _ e1 in
      let ((left, done, db1), ej, e3) =
        >>=-eq-ok
          (cold_jettons net setup new_query jettons ton d setup.jetton_hot_wallets state.0 db) _
          e2 in
      let same : d ≡ dest = ok-injective (sym ed' ∙ ed) in
      let before : All (IsColdRequest dest) done =
        subst (λ x. All (IsColdRequest x) done) same
          (cold_jettons_positive d setup.jetton_hot_wallets state.0 db ej) in
      elim (Bool-cases (is_in_progress db1 d ton_symbol || not (ltb_ℤ ton.hot_wallet_max left))) [
        | inl stays ↦
            subst (λ (x : List WithdrawalRequest × Database). All (IsColdRequest dest) x.0)
              (ok-injective (rw stays at e3)) before
        | inr goes ↦
            let (u, _, e4) = >>=-eq-ok (new_query ton_symbol) _ (rw goes at e3) in
            let ((q, db2), _, e5) =
              >>=-eq-ok
                (save_withdrawal_request db1
                  (cold_request ton_symbol (left -ℤ ton.hot_wallet_residual) bounceable d u))
                _ e4 in
            let more : ltb_ℤ ton.hot_wallet_max left ≡ true =
              or_not (is_in_progress db1 d ton_symbol) _ goes in
            subst (λ (x : List WithdrawalRequest × Database). All (IsColdRequest dest) x.0)
              (ok-injective e5)
              (All-append (IsColdRequest dest) done _ before (
                (above_residual left ton.hot_wallet_max ton.hot_wallet_residual more h, refl, same),
                tt,
              ))
      ]
