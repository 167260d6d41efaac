-- ===== src/Api/Withdrawals/Accepted.antt =====
-- What an answer to `sendWithdrawal` says of the database.
use text.Mathlib.TextEquality.{eq_iff}
use bicycle.Prelude.{
  ℕ, suc, ◌≤◌, ◌≡◌, refl, subst, ◌⊎◌, inl, inr, Bool, true, false, not, ◌&&◌, ◌||◌, List, [], ◌∷◌,
  ◌++◌, Option, none, some, String, str_eq, if◌then◌else◌, is_some, find, Result, ok, err, ◌>>=◌,
  ok-injective, if_err-eq-ok, Bool-cases, arith, >>=-eq-ok,
}
use bicycle.Prelude.Int.{pos, ltb_ℤ}
use bicycle.Models.{Address, WithdrawalRequest}
use bicycle.Db.Schema.{Database, RequestRow}
use bicycle.Db.AddressBook.{get_wallet_type}
use bicycle.Db.External.{
  new_request, same_user_query, save_withdrawal_request, is_withdrawal_request_unique,
}
use bicycle.Api.Types.{ApiWithdrawalRequest, Body, id_body, Response, HttpRequest}
use bicycle.Api.Middleware.{respond}
use bicycle.Api.Attempt.{answer, respond_saved}
use bicycle.Api.Attempt.Laws.{answer-or_stop, answer-require}
use bicycle.Api.Context.{Library, ApiConfig, is_valid_currency}
use bicycle.Api.Convert.{
  convert_withdrawal, converted, validate_address, is_valid_comment_len, wrap,
}
use bicycle.Api.Postgres.{Store, stored_id, postgres}
use bicycle.Api.Withdrawals.{send_withdrawal}

-- The database with the row of one more request.
abbrev pub with_request : Database → WithdrawalRequest → Database
with_request db w = record db {
  withdrawal_requests = db.withdrawal_requests ++ new_request db w ∷ [];
  next_query_id = suc db.next_query_id;
}

-- The checks that a converted request has passed.
pub record IsValid (config : ApiConfig) (w : WithdrawalRequest) : Type 0 where
  pub currency : is_valid_currency config w.currency ≡ true
  pub positive : ltb_ℤ (pos 0) w.amount ≡ true
  pub external : w.is_internal ≡ false
  pub one_comment : (w.comment ≡ "") ⊎ (w.binary_comment ≡ "")
  pub short :
      (is_valid_comment_len w.comment ≡ true) × (is_valid_comment_len w.binary_comment ≡ true)

module _ (lib : Library) (config : ApiConfig) where
  -- The end of `convertWithdrawal`.
  decoded_comment-eq-ok :
      (b : Bool) (w : WithdrawalRequest) (m : Result (Unit {0})) {w' : WithdrawalRequest}
      → (if b then ok w else (m >>= λ _. ok w)) ≡ ok w'
      → w ≡ w'
  decoded_comment-eq-ok true w m e = ok-injective e
  decoded_comment-eq-ok false w (ok _) e = ok-injective e
  decoded_comment-eq-ok false w (err x) e = cc

  one_of : (b c : String) → (not (str_eq b "") && not (str_eq c "")) ≡ false → (b ≡ "") ⊎ (c ≡ "")
  one_of b c h = elim (Bool-cases (str_eq b "")) [
    | inl e ↦ inl ((eq_iff _ _).0 e)
    | inr e ↦ inr ((eq_iff _ _).0 (ground arith))
  ]

  wrap-eq-ok :
      (text : String) (m : Result (Address × Bool)) {a : Address × Bool}
      → wrap text m ≡ ok a
      → m ≡ ok a
  wrap-eq-ok text (ok a) e = e
  wrap-eq-ok text (err x) e = cc

  -- The request that is made of a body, with the address that was parsed.
  abbrev pub IsConverted : ApiWithdrawalRequest → WithdrawalRequest → Type 0
  IsConverted body w =
      (a : Address × Bool) × (validate_address lib config body.destination ≡ ok a)
      × (converted lib config body a ≡ w)

  convert_withdrawal-IsValid :
      (body : ApiWithdrawalRequest) {w : WithdrawalRequest}
      → convert_withdrawal lib config body ≡ ok w
      → IsConverted body w × IsValid config w
  unfolding convert_withdrawal
  convert_withdrawal-IsValid body {w} e =
      let (c, e1) = if_err-eq-ok (not (is_valid_currency config body.currency)) _ _ e in
      let (a, va, e2) =
        >>=-eq-ok
          (wrap "invalid destination address: " (validate_address lib config body.destination)) _
          e1 in
      let (p, e3) = if_err-eq-ok (not (ltb_ℤ (pos 0) body.amount)) _ _ e2 in
      let (o, e4) =
        if_err-eq-ok (not (str_eq body.comment "") && not (str_eq body.binary_comment "")) _ _ e3 in
      let (l, e5) =
        if_err-eq-ok
          (not (is_valid_comment_len body.comment)
            || not (is_valid_comment_len body.binary_comment))
          _ _ e4 in
      let valid : IsValid config (converted lib config body a) = record {
        currency = ground arith;
        positive = ground arith;
        external = refl;
        one_comment = one_of body.comment body.binary_comment o;
        short = ground arith;
      } in
      let same =
        decoded_comment-eq-ok (str_eq body.binary_comment "") (converted lib config body a) _ e5 in
      ((a, wrap-eq-ok _ _ va, same), subst (IsValid config) same valid)

-- A request that is accepted: the body is decoded and converted, the request passes the checks, goes to
-- no wallet of the service, and no request of the user has its id; it is saved under the next id.
pub record IsAccepted (lib : Library) (config : ApiConfig) (req : HttpRequest) (s : Store)
    (r : Store × Result Response) : Type 0 where
  pub request : ApiWithdrawalRequest
  pub withdrawal : WithdrawalRequest
  pub decoded : lib.decode_withdrawal req.body ≡ ok request
  pub converts : IsConverted lib config request withdrawal
  pub valid : IsValid config withdrawal
  pub not_internal : get_wallet_type s.1 withdrawal.destination ≡ none
  pub unique : find (same_user_query withdrawal) s.0.withdrawal_requests ≡ none
  pub saved : r ≡ ((with_request s.0 withdrawal, s.1), ok (respond 200 (id_body s.0.next_query_id)))

-- A refusal: a status from 400 on, and the store as it was.
abbrev pub IsRefused : Store → Store × Result Response → Type 0
IsRefused s r = (x : Response) × (r ≡ (s, ok x)) × (400 ≤ x.status)

not-eq-true : (b : Bool) → not b ≡ true → b ≡ false
not-eq-true true h = cc
not-eq-true false h = refl

none_of_is_some {ℓ} : {A : Type ℓ} (o : Option A) → is_some o ≡ false → o ≡ none
none_of_is_some none h = refl
none_of_is_some (some a) h = cc

module _ (lib : Library) (config : ApiConfig) where
  pub save_withdrawal_request-new :
      (db : Database) (w : WithdrawalRequest)
      → is_some (find (same_user_query w) db.withdrawal_requests) ≡ false
      → save_withdrawal_request db w ≡ ok (db.next_query_id, with_request db w)
  unfolding save_withdrawal_request
  save_withdrawal_request-new db w h = rw h refl

  -- The two tests of uniqueness are the same for a request that is no internal one.
  is_unique-same_user_query :
      (w : WithdrawalRequest) (rs : List RequestRow)
      → w.is_internal ≡ false
      → find
          (λ r.
            str_eq w.user_id r.user_id && str_eq w.query_id r.user_query_id && not r.is_internal)
          rs
        ≡ find (same_user_query w) rs
  is_unique-same_user_query w rs e = rw e refl

  -- The last step, behind the checks.
  accept :
      (req : HttpRequest) (s : Store) (body : ApiWithdrawalRequest) (w : WithdrawalRequest)
      → lib.decode_withdrawal req.body ≡ ok body
      → convert_withdrawal lib config body ≡ ok w
      → is_withdrawal_request_unique s.0 w ≡ true
      → not (is_some (get_wallet_type s.1 w.destination)) ≡ true
      → IsAccepted lib config req s (
          answer s (
            respond_saved "save withdrawal request err: " id_body
              (stored_id s (save_withdrawal_request s.0 w))))
  unfolding is_withdrawal_request_unique
  accept req s body w decoded conv unique outside =
      let (made, valid) = convert_withdrawal-IsValid lib config body conv in
      let none_found : is_some (find (same_user_query w) s.0.withdrawal_requests) ≡ false =
        rw (is_unique-same_user_query w s.0.withdrawal_requests valid.external) at
          (not-eq-true _ unique) in
      record {
        request = body;
        withdrawal = w;
        decoded = decoded;
        converts = made;
        valid = valid;
        not_internal = none_of_is_some _ (not-eq-true _ outside);
        unique = none_of_is_some _ none_found;
        saved = rw (save_withdrawal_request-new s.0 w none_found) refl;
      }

-- Every call of `sendWithdrawal` either accepts the request, which is then saved, or answers with a status from 400
-- on and leaves database and address book as they were. It never panics.
pub send_withdrawal_total :
    (lib : Library) (config : ApiConfig) (default_subwallet : ℕ) (new_memo : Database → ℕ) (now : ℕ)
    (req : HttpRequest) (s : Store)
    → let r = send_withdrawal lib config (postgres default_subwallet new_memo now) req s in
      IsAccepted lib config req s r ⊎ IsRefused s r
unfolding send_withdrawal
send_withdrawal_total lib config sub memo now req s =
    answer-or_stop P s 400 _ (lib.decode_withdrawal req.body) _ (λ e h. refused 400 (omega arith))
      (λ body decoded.
        answer-or_stop P s 400 _ (convert_withdrawal lib config body) _
          (λ e h. refused 400 (omega arith))
          (λ w conv.
            answer-require P s (is_withdrawal_request_unique s.0 w) 400 _ _
              (λ h. refused 400 (omega arith))
              (λ unique.
                answer-require P s (not (is_some (get_wallet_type s.1 w.destination))) 400 _ _
                  (λ h. refused 400 (omega arith))
                  (λ outside. inl (accept lib config req s body w decoded conv unique outside)))))
  where
    P : Store × Result Response → Type 0
    P r = IsAccepted lib config req s r ⊎ IsRefused s r

    refused : (status : ℕ) → 400 ≤ status → {b : Body} → P (s, ok (respond status b))
    refused status le {b} = inr (respond status b, refl, le)
