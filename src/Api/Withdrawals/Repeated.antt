-- ===== src/Api/Withdrawals/Repeated.antt =====
-- Two calls of the API one after the other: a request that was accepted is seen as pending, and is not
-- accepted again.
use text.Mathlib.TextPositions.{eq_refl}
use bicycle.Prelude.{
  ℕ, ◌≤◌, ◌≡◌, refl, sym, ap, subst, ◌∙◌, inl, inr, Bool, true, false, not, ◌&&◌, List, [], ◌∷◌,
  ◌++◌, none, some, str_eq, ◌==◌, find, ok-injective, Result, ok, err, arith,
}
use bicycle.Prelude.Int.{pos}
use bicycle.Models.{WithdrawalRequest, WithdrawalData, WithdrawalStatus}
use bicycle.Db.Schema.{Database, RequestRow}
use bicycle.Db.External.{
  is_request, new_request, same_user_query, request_status, get_external_withdrawal_status,
}
use bicycle.Db.External.Invariant.{Inv}
use bicycle.Api.Types.{ApiWithdrawalRequest, Body, id_body, status_body, Response, HttpRequest}
use bicycle.Api.Middleware.{respond}
use bicycle.Api.Attempt.{report}
use bicycle.Api.Context.{Library, ApiConfig}
use bicycle.Api.Postgres.{Store, postgres}
use bicycle.Api.Withdrawals.{send_withdrawal, get_withdrawal_status, status_response}
use bicycle.Api.Withdrawals.Accepted.{IsAccepted, IsRefused, with_request, send_withdrawal_total}

-- Behind rows of other ids a new row is the one that is found.
find-new :
    (q : ℕ) (p : RequestRow → Bool) (rs : List RequestRow) (row : RequestRow)
    → find (is_request q) rs ≡ none
    → (q == row.query_id) ≡ true
    → p row ≡ true
    → find (λ r. q == r.query_id && p r) (rs ++ row ∷ []) ≡ some row
find-new q p [] row absent e shown = rw (e, shown) refl
find-new q p (r ∷ rs) row absent e shown =
    ground (arith, λ (k : find (is_request q) rs ≡ none). find-new q p rs row k e shown)

new_request-pending :
    (db : Database) (w : WithdrawalRequest)
    → Inv db
    → w.is_internal ≡ false
    → get_external_withdrawal_status (with_request db w) db.next_query_id
      ≡ ok (record {
        query_id = w.query_id;
        user_id = w.user_id;
        status = WithdrawalStatus.pending;
        tx_hash = none;
      })
unfolding get_external_withdrawal_status request_status
new_request-pending db w v e =
    rw
      (find-new db.next_query_id (λ r. not r.is_internal) db.withdrawal_requests (new_request db w)
        (v.fresh db.next_query_id (omega arith)) (ground arith) (rw e))
      refl

find-append-none :
    (p : RequestRow → Bool) (rs : List RequestRow) (row : RequestRow)
    → p row ≡ true
    → find p (rs ++ row ∷ []) ≡ none
    → ⊥
find-append-none p [] row h e = ground arith
find-append-none p (r ∷ rs) row h e = ground (arith, find-append-none p rs row h)

-- The row of a request is found by any request of the same user and id.
same_user_query-new_request :
    (w w' : WithdrawalRequest) (db : Database)
    → w'.user_id ≡ w.user_id
    → w'.query_id ≡ w.query_id
    → w.is_internal ≡ false
    → w'.is_internal ≡ false
    → same_user_query w' (new_request db w) ≡ true
same_user_query-new_request w w' db u q i i' =
    rw (u, q, i, i', eq_refl w.user_id, eq_refl w.query_id) refl

-- The id in a response.
abbrev id_of : Body → ℕ
id_of (id_body n) = n
id_of _ = 0

abbrev response_id : Store × Result Response → ℕ
response_id (s, ok r) = id_of r.body
response_id (s, err e) = 0

module _ (lib : Library) (config : ApiConfig) (default_subwallet : ℕ) (new_memo : Database → ℕ)
    (now : ℕ) where
  -- The answer 200 is that to an accepted request.
  IsAccepted-of_200 :
      (req : HttpRequest) (s s' : Store) (id : ℕ)
      → send_withdrawal lib config (postgres default_subwallet new_memo now) req s
        ≡ (s', ok (respond 200 (id_body id)))
      → IsAccepted lib config req s (s', ok (respond 200 (id_body id)))
  IsAccepted-of_200 req s s' id e =
      elim (send_withdrawal_total lib config default_subwallet new_memo now req s) [
        | inl a ↦ subst (IsAccepted lib config req s) e a
        | inr (x, same, le) ↦ absurd (not_200 (sym same ∙ e) le)
      ]
    where
      status_of : Store × Result Response → ℕ
      status_of (s, ok r) = r.status
      status_of (s, err e) = 0

      not_200 :
          {x : Response}
          → ◌≡◌ {A = Store × Result Response} (s, ok x) (s', ok (respond 200 (id_body id)))
          → 400 ≤ x.status
          → ⊥
      not_200 h le = let k = ap status_of h in omega arith

  status_answer :
      (req : HttpRequest) (s : Store) (id now' : ℕ) {d : WithdrawalData}
      → str_eq (req.query "id") "" ≡ false
      → lib.parse_int (req.query "id") ≡ ok (pos id)
      → get_external_withdrawal_status s.0 id ≡ ok d
      → get_withdrawal_status lib config (postgres default_subwallet new_memo now') req s ≡ (
        s,
        ok (
            respond 200 (
              status_body
                (status_response lib config (postgres default_subwallet new_memo now') d))),
      )
  unfolding get_withdrawal_status report
  status_answer req s id now' given parsed e = rw (given, parsed, e) refl

  -- What an accepted request leaves behind.
  accepted-store :
      (req : HttpRequest) (s s' : Store) (id : ℕ)
      → (a : IsAccepted lib config req s (s', ok (respond 200 (id_body id))))
      → (s' ≡ (with_request s.0 a.withdrawal, s.1))
        × (id ≡ s.0.next_query_id)
        × (a.withdrawal.user_id ≡ a.request.user_id)
        × (a.withdrawal.query_id ≡ a.request.query_id)
  accepted-store req s s' id a = (
    ap (λ (x : Store × Result Response). x.0) a.saved,
    ap response_id a.saved,
    sym (ap (λ (w : WithdrawalRequest). w.user_id) a.converts.2),
    sym (ap (λ (w : WithdrawalRequest). w.query_id) a.converts.2),
  )

-- Where external withdrawals are consistent (`Inv`), a request that `sendWithdrawal` has answered with an id is
-- found by `getWithdrawalStatus` under that id, with the user and the query id of the request's body and the status
-- pending.
pub sent_is_pending :
    (lib : Library) (config : ApiConfig) (default_subwallet : ℕ) (new_memo : Database → ℕ)
    (now now' : ℕ) (req req' : HttpRequest) (s : Store) {s' : Store} {id : ℕ}
    → Inv s.0
    → send_withdrawal lib config (postgres default_subwallet new_memo now) req s
      ≡ (s', ok (respond 200 (id_body id)))
    → str_eq (req'.query "id") "" ≡ false
    → lib.parse_int (req'.query "id") ≡ ok (pos id)
    → (body : ApiWithdrawalRequest) × (lib.decode_withdrawal req.body ≡ ok body)
      × (get_withdrawal_status lib config (postgres default_subwallet new_memo now') req' s' ≡ (
        s',
        ok (
            respond 200 (
              status_body (record {
                user_id = body.user_id;
                query_id = body.query_id;
                status = WithdrawalStatus.pending;
                tx_hash = "";
              }))),
      ))
sent_is_pending lib config sub memo now now' req req' s {s'} {id} v e given parsed =
    let a = IsAccepted-of_200 lib config sub memo now req s s' id e in
    let (store, same, user, query) = accepted-store lib config sub memo now req s s' id a in
    let found : get_external_withdrawal_status s'.0 id
        ≡ ok (record {
          query_id = a.request.query_id;
          user_id = a.request.user_id;
          status = WithdrawalStatus.pending;
          tx_hash = none;
        }) =
      rw (store, same, ← user, ← query) (new_request-pending s.0 a.withdrawal v a.valid.external) in
    (a.request, a.decoded, status_answer lib config sub memo now req' s' id now' given parsed found)

-- A request that was accepted is not accepted again: on the database that it left, `sendWithdrawal` refuses every
-- request whose body names the same user and query id, and changes nothing.
pub not_accepted_twice :
    (lib : Library) (config : ApiConfig) (default_subwallet : ℕ) (new_memo : Database → ℕ)
    (now now' : ℕ) (req again : HttpRequest) (s : Store) {s' : Store} {id : ℕ}
    (body body' : ApiWithdrawalRequest)
    → send_withdrawal lib config (postgres default_subwallet new_memo now) req s
      ≡ (s', ok (respond 200 (id_body id)))
    → lib.decode_withdrawal req.body ≡ ok body
    → lib.decode_withdrawal again.body ≡ ok body'
    → body'.user_id ≡ body.user_id
    → body'.query_id ≡ body.query_id
    → IsRefused s' (send_withdrawal lib config (postgres default_subwallet new_memo now') again s')
not_accepted_twice lib config sub memo now now' req again s {s'} {id} body body' e d d' u q =
    elim (send_withdrawal_total lib config sub memo now' again s') [
      | inr refused ↦ refused
      | inl b ↦ absurd (clash b)
    ]
  where
    clash :
        IsAccepted lib config again s'
          (send_withdrawal lib config (postgres sub memo now') again s')
        → ⊥
    clash b =
        let a = IsAccepted-of_200 lib config sub memo now req s s' id e in
        let (store, _, user, query) = accepted-store lib config sub memo now req s s' id a in
        let first : a.request ≡ body = ok-injective (sym a.decoded ∙ d) in
        let second : b.request ≡ body' = ok-injective (sym b.decoded ∙ d') in
        let same_user : b.withdrawal.user_id ≡ a.withdrawal.user_id =
          sym (ap (λ (w : WithdrawalRequest). w.user_id) b.converts.2)
          ∙ ap (λ (w : ApiWithdrawalRequest). w.user_id) second
          ∙ u
          ∙ sym (ap (λ (w : ApiWithdrawalRequest). w.user_id) first)
          ∙ sym user in
        let same_query : b.withdrawal.query_id ≡ a.withdrawal.query_id =
          sym (ap (λ (w : WithdrawalRequest). w.query_id) b.converts.2)
          ∙ ap (λ (w : ApiWithdrawalRequest). w.query_id) second
          ∙ q
          ∙ sym (ap (λ (w : ApiWithdrawalRequest). w.query_id) first)
          ∙ sym query in
        find-append-none (same_user_query b.withdrawal) s.0.withdrawal_requests
          (new_request s.0 a.withdrawal)
          (same_user_query-new_request a.withdrawal b.withdrawal s.0 same_user same_query
            a.valid.external b.valid.external)
          (rw store at b.unique)
