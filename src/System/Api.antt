-- ===== src/System/Api.antt =====
-- A request to the API as a history of statements.
use bicycle.Prelude.{
  ℕ, ◌≡◌, refl, sym, subst, ◌∙◌, inl, inr, false, String, str_eq, is_some, find, ◌==◌, if_err-eq-ok,
  Result, ok, err, >>=-eq-ok, ok-injective, Bool-cases, or_error, error_text,
}
use bicycle.Models.{
  Address, WalletData, ServiceWithdrawalRequest, ton_symbol, address_from_tonutils,
}
use bicycle.Db.Schema.{Database, TonWalletRow, JettonWalletRow}
use bicycle.Db.AddressBook.{
  AddressBook, with_subwallet, insert_ton_wallet, insert_jetton_wallet, save_ton_wallet,
  save_jetton_wallet,
}
use bicycle.Db.External.History.{save, other, Unrelated, Reach, next}
use bicycle.Db.ServiceRequests.{save_service_withdrawal_request}
use bicycle.Api.Types.{HttpRequest, Response, Body, memo_body}
use bicycle.Api.Attempt.{answer, respond_saved}
use bicycle.Api.Attempt.Laws.{answer-or_stop, answer-require}
use bicycle.Api.Context.{Blockchain, Library, ApiConfig, master_of, is_valid_currency}
use bicycle.Api.Convert.{convert_ton_service_withdrawal, convert_jetton_service_withdrawal}
use bicycle.Api.Postgres.{Store, stored, stored_id, postgres}
use bicycle.Api.Addresses.{
  respond_address, generate_ton_address, generate_jetton_address, generate_address, get_new_address,
}
use bicycle.Api.Withdrawals.{send_withdrawal, service_ton_withdrawal, service_jetton_withdrawal}
use bicycle.Api.Withdrawals.Accepted.{send_withdrawal_total, save_withdrawal_request-new}

insert_ton_wallet-Unrelated :
    (db : Database) (row : TonWalletRow) {db' : Database}
    → insert_ton_wallet db row ≡ ok db'
    → Unrelated db db'
unfolding insert_ton_wallet
insert_ton_wallet-Unrelated db row e =
    let (_, done) =
      if_err-eq-ok (is_some (find (with_subwallet row.subwallet_id) db.ton_wallets)) _ _ e in
    subst (Unrelated db) (ok-injective done) (refl, refl, refl)

insert_jetton_wallet-Unrelated :
    (db : Database) (row : JettonWalletRow) {db' : Database}
    → insert_jetton_wallet db row ≡ ok db'
    → Unrelated db db'
unfolding insert_jetton_wallet
insert_jetton_wallet-Unrelated db row e =
    let (_, done) =
      if_err-eq-ok (is_some (find (λ r. row.address == r.address) db.jetton_wallets)) _ _ e in
    subst (Unrelated db) (ok-injective done) (refl, refl, refl)

save_ton_wallet-Unrelated :
    (db : Database) (b : AddressBook) (w : WalletData) {s : Store}
    → save_ton_wallet db b w ≡ ok s
    → Unrelated db s.0
unfolding save_ton_wallet
save_ton_wallet-Unrelated db b w e =
    let (db', inserted, done) = >>=-eq-ok (insert_ton_wallet db _) _ e in
    subst (λ (s : Store). Unrelated db s.0) (ok-injective done)
      (insert_ton_wallet-Unrelated db _ inserted)

save_jetton_wallet-Unrelated :
    (db : Database) (b : AddressBook) (owner : Address) (w : WalletData) {s : Store}
    → save_jetton_wallet db b owner w false ≡ ok s
    → Unrelated db s.0
unfolding save_jetton_wallet
save_jetton_wallet-Unrelated db b owner w e =
    let (db1, first, e1) = >>=-eq-ok (insert_ton_wallet db _) _ e in
    let (db2, second, done) = >>=-eq-ok (insert_jetton_wallet db1 _) _ e1 in
    let (x, y, z) = insert_ton_wallet-Unrelated db _ first in
    let (x', y', z') = insert_jetton_wallet-Unrelated db1 _ second in
    subst (λ (s : Store). Unrelated db s.0) (ok-injective done) (x' ∙ x, y' ∙ y, z' ∙ z)

save_service_withdrawal_request-Unrelated :
    (memo : ℕ) (db : Database) (w : ServiceWithdrawalRequest) {r : ℕ × Database}
    → save_service_withdrawal_request memo db w ≡ ok r
    → Unrelated db r.1
unfolding save_service_withdrawal_request
save_service_withdrawal_request-Unrelated memo db w e =
    let (_, done) = if_err-eq-ok (is_some (find (λ r. memo == r.memo) db.service_requests)) _ _ e in
    subst (λ (r : ℕ × Database). Unrelated db r.1) (ok-injective done) (refl, refl, refl)

-- The state behind a response.
abbrev pub Reached : Store × Result Response → Type 0
Reached r = Reach r.0.0

respond_saved-Reached :
    (s : Store) (text : String) (body : ℕ → Body) (m : Result (ℕ × Database))
    → ((r : ℕ × Database) → m ≡ ok r → Unrelated s.0 r.1)
    → Reach s.0
    → Reached (answer s (respond_saved text body (stored_id s m)))
respond_saved-Reached s text body (ok (id, db)) h reach = next reach (other (h (id, db) refl))
respond_saved-Reached s text body (err e) h reach = reach

module _ (lib : Library) (config : ApiConfig) (default_subwallet : ℕ) (new_memo : Database → ℕ)
    (now : ℕ) (bc : Blockchain) (req : HttpRequest) (s : Store) (reach : Reach s.0) where
  respond_address-Reached :
      (a : Address) (m : Result Store)
      → ((s' : Store) → m ≡ ok s' → Unrelated s.0 s'.0)
      → Reached (
          answer s (
            respond_address lib config (postgres default_subwallet new_memo now) bc a (stored s m)))
  respond_address-Reached a (ok s') h = next reach (other (h s' refl))
  respond_address-Reached a (err e) h = reach

  pub send_withdrawal-Reached :
      Reached (send_withdrawal lib config (postgres default_subwallet new_memo now) req s)
  send_withdrawal-Reached =
      elim (send_withdrawal_total lib config default_subwallet new_memo now req s) [
        | inl a ↦ subst Reached (sym a.saved) (
            next reach (
              save a.withdrawal s.0.next_query_id
                (save_withdrawal_request-new lib config s.0 a.withdrawal (rw a.unique refl))))
        | inr (x, same, _) ↦ subst Reached (sym same) reach
      ]

  pub service_ton_withdrawal-Reached :
      Reached (service_ton_withdrawal lib config (postgres default_subwallet new_memo now) req s)
  unfolding service_ton_withdrawal
  service_ton_withdrawal-Reached =
      answer-or_stop Reached s 400 _ (lib.decode_service_ton req.body) _ (λ e h. reach)
        (λ body _.
          answer-or_stop Reached s 400 _
            (convert_ton_service_withdrawal lib config (postgres default_subwallet new_memo now) s
              body)
            _ (λ e h. reach)
            (λ w _.
              respond_saved-Reached s _ memo_body
                (save_service_withdrawal_request (new_memo s.0) s.0 w)
                (λ r e. save_service_withdrawal_request-Unrelated (new_memo s.0) s.0 w e) reach))

  pub service_jetton_withdrawal-Reached :
      Reached (service_jetton_withdrawal lib config (postgres default_subwallet new_memo now) req s)
  unfolding service_jetton_withdrawal
  service_jetton_withdrawal-Reached =
      answer-or_stop Reached s 400 _ (lib.decode_service_jetton req.body) _ (λ e h. reach)
        (λ body _.
          answer-or_stop Reached s 400 _
            (convert_jetton_service_withdrawal lib config (postgres default_subwallet new_memo now)
              s body)
            _ (λ e h. reach)
            (λ w _.
              respond_saved-Reached s _ memo_body
                (save_service_withdrawal_request (new_memo s.0) s.0 w)
                (λ r e. save_service_withdrawal_request-Unrelated (new_memo s.0) s.0 w e) reach))

  generate_ton_address-Reached :
      (user : String) (start : ℕ)
      → Reached (
          answer s (
            generate_ton_address lib config
              (postgres default_subwallet new_memo now)
              bc
              user
              start
              s))
  unfolding generate_ton_address
  generate_ton_address-Reached user start =
      answer-or_stop Reached s 500 _ (bc.generate_sub_wallet config.shard start) _ (λ e h. reach)
        (λ x _.
          answer-or_stop Reached s 500 _ (address_from_tonutils x.0) _ (λ e h. reach)
            (λ a _.
              respond_address-Reached a (save_ton_wallet s.0 s.1 _)
                (λ s' e. save_ton_wallet-Unrelated s.0 s.1 _ e)))

  generate_jetton_address-Reached :
      (user currency : String) (start : ℕ)
      → Reached (
          answer s (
            generate_jetton_address lib config
              (postgres default_subwallet new_memo now)
              bc
              user
              currency
              start
              s))
  unfolding generate_jetton_address
  generate_jetton_address-Reached user currency start =
      answer-or_stop Reached s 500 _
        (or_error (master_of currency config.jettons) (error_text "jetton address not found")) _
        (λ e h. reach)
        (λ master _.
          answer-or_stop Reached s 500 _
            (bc.generate_deposit_jetton_wallet_for_proxy config.shard config.hot_wallet master
              start)
            _ (λ e h. reach)
            (λ x _.
              answer-or_stop Reached s 500 _ (address_from_tonutils x.2) _ (λ e h. reach)
                (λ wallet _.
                  answer-or_stop Reached s 500 _ (address_from_tonutils x.0) _ (λ e h. reach)
                    (λ owner _.
                      respond_address-Reached owner (save_jetton_wallet s.0 s.1 owner _ false)
                        (λ s' e. save_jetton_wallet-Unrelated s.0 s.1 owner _ e)))))

  pub get_new_address-Reached :
      Reached (get_new_address lib config (postgres default_subwallet new_memo now) bc req s)
  unfolding get_new_address generate_address
  get_new_address-Reached =
      answer-or_stop Reached s 400 _ (lib.decode_new_address req.body) _ (λ e h. reach)
        (λ body _.
          answer-require Reached s (is_valid_currency config body.currency) 400 _ _ (λ h. reach)
            (λ _. elim (Bool-cases (str_eq body.currency ton_symbol)) [
              | inl ton ↦ rw ton (generate_ton_address-Reached body.user_id _)
              | inr jetton ↦
                  rw jetton (generate_jetton_address-Reached body.user_id body.currency _)
            ]))
