-- ===== src/Db/External/Status.antt =====
-- The status of a request that the API shows, against the messages for it.
use bicycle.Prelude.{
  ℕ, ◌≤◌, ◌≢◌, ◌≡◌, refl, sym, subst, Bool, true, false, not, ◌&&◌, List, [], ◌∷◌, Option, none,
  some, find, arith, ok, Bool-cases, inl, inr,
}
use bicycle.Models.{WithdrawalStatus, WithdrawalData}
use bicycle.Db.Schema.{Database, RequestRow, ExternalWithdrawalRow}
use bicycle.Db.External.{
  is_request, has_outcome, status_of, settled_status, request_status,
  get_external_withdrawal_status,
}
use bicycle.Db.External.Counts.{count, is_awaiting, is_settled, one_if}
use bicycle.Db.External.Invariant.{Agrees}
use bicycle.Db.External.History.{Reach, Reach-Inv}

-- Settled with a failure.
abbrev pub is_refused : ExternalWithdrawalRow → Bool
is_refused r = r.failed && is_settled r

-- What the status of a request says of the messages for it: `processed` is a settled one that did not fail, `failed` one
-- that did.
abbrev pub StatusAgrees : WithdrawalStatus → ℕ → List ExternalWithdrawalRow → Type 0
StatusAgrees WithdrawalStatus.pending q rs =
    (count is_awaiting q rs ≡ 0) × (count is_settled q rs ≡ 0)
StatusAgrees WithdrawalStatus.processing q rs =
    (count is_awaiting q rs ≡ 1) × (count is_settled q rs ≡ 0)
StatusAgrees WithdrawalStatus.processed q rs =
    (count is_awaiting q rs ≡ 0) × (count is_settled q rs ≡ 1) × (count is_refused q rs ≡ 0)
StatusAgrees WithdrawalStatus.failed q rs =
    (count is_awaiting q rs ≡ 0) × (count is_settled q rs ≡ 1) × (count is_refused q rs ≡ 1)

count_refused-le :
    (q : ℕ) (rs : List ExternalWithdrawalRow) → count is_refused q rs ≤ count is_settled q rs
count_refused-le q [] = omega arith
count_refused-le q (r ∷ rs) = ground (arith, count_refused-le q rs)

-- The only settled row of a request is the one whose outcome is shown.
count_refused-find :
    (q : ℕ) (rs : List ExternalWithdrawalRow) {e : ExternalWithdrawalRow}
    → find (has_outcome q) rs ≡ some e
    → count is_settled q rs ≡ 1
    → count is_refused q rs ≡ one_if e.failed
count_refused-find q [] h c = cc
count_refused-find q (r ∷ rs) {e} h c = elim (Bool-cases (has_outcome q r)) [
  | inl here ↦ let same : some r ≡ some e = rw here at h in ground (arith, count_refused-le q rs)
  | inr later ↦ ground (arith, count_refused-find q rs (rw later at h) (ground arith))
]

find_and :
    (p e : RequestRow → Bool) (rs : List RequestRow) {r : RequestRow}
    → find p rs ≡ some r
    → e r ≡ true
    → find (λ x. p x && e x) rs ≡ some r
find_and p e [] h g = cc
find_and p e (x ∷ rs) {r} h g = ground (arith, λ (k : find p rs ≡ some r). find_and p e rs k g)

find-has_outcome :
    (q : ℕ) (rs : List ExternalWithdrawalRow)
    → count is_settled q rs ≢ 0
    → (e : ExternalWithdrawalRow) × (find (has_outcome q) rs ≡ some e)
find-has_outcome q [] h = absurd (h refl)
find-has_outcome q (r ∷ rs) h = elim (Bool-cases (has_outcome q r)) [
  | inl here ↦ (r, rw here)
  | inr later ↦ let (e, found) = find-has_outcome q rs (rw later at h) in (e, rw later found)
]

find-is_request :
    (q : ℕ) (rs : List RequestRow) {r : RequestRow}
    → find (is_request q) rs ≡ some r
    → r.query_id ≡ q
find-is_request q [] h = cc
find-is_request q (x ∷ rs) {r} h =
    ground (arith, λ (k : find (is_request q) rs ≡ some r). find-is_request q rs k)

settled_status_lem :
    (r : RequestRow) (q : ℕ) (rs : List ExternalWithdrawalRow) (o : Option ExternalWithdrawalRow)
    {e : ExternalWithdrawalRow}
    → find (has_outcome q) rs ≡ o
    → o ≡ some e
    → (count is_awaiting q rs ≡ 0) × (count is_settled q rs ≡ 1)
    → (d : WithdrawalData) × (settled_status r o ≡ ok d) × StatusAgrees d.status q rs
unfolding settled_status
settled_status_lem r q rs none found s h = cc
settled_status_lem r q rs (some e) found s (awaiting, settled) =
    let refused = count_refused-find q rs found settled in
    elim (Bool-cases e.failed) [
      | inl f ↦
          (status_of r WithdrawalStatus.failed e.tx_hash, rw f, (awaiting, settled, ground arith))
      | inr f ↦ (
        status_of r WithdrawalStatus.processed e.tx_hash,
        rw f,
        (awaiting, settled, ground arith),
      )
    ]

-- The tests on the flags, by clauses.
by_flags :
    (db : Database) (r : RequestRow) (p d : Bool)
    → r.processing ≡ p
    → r.processed ≡ d
    → Agrees p d
        (count is_awaiting r.query_id db.external_withdrawals)
        (count is_settled r.query_id db.external_withdrawals)
    → (x : WithdrawalData) × (request_status db r ≡ ok x)
      × StatusAgrees x.status r.query_id db.external_withdrawals
unfolding request_status
by_flags db r false false e f h = (status_of r WithdrawalStatus.pending none, rw (e, f), h)
by_flags db r true false e f h = (status_of r WithdrawalStatus.processing none, rw (e, f), h)
by_flags db r false true e f h = absurd h
by_flags db r true true e f h =
    rw (e, f)
      (settled_status_lem r r.query_id db.external_withdrawals
        (find (has_outcome r.query_id) db.external_withdrawals) refl
        (find-has_outcome r.query_id db.external_withdrawals (λ z. omega arith)).1 h)

-- In every reachable database the status of a request that is no internal one is found, never with
-- an error. Pending and processing mean that no message for it is settled and that none or one is awaited; processed and
-- failed, that none is awaited and one is settled, without or with a failure.
pub status_total :
    {db : Database} (id : ℕ) {r : RequestRow}
    → Reach db
    → find (is_request id) db.withdrawal_requests ≡ some r
    → r.is_internal ≡ false
    → (d : WithdrawalData) × (get_external_withdrawal_status db id ≡ ok d)
      × StatusAgrees d.status id db.external_withdrawals
unfolding get_external_withdrawal_status
status_total {db} id {r} reach found shown =
    rw (find_and (is_request id) (λ x. not x.is_internal) db.withdrawal_requests found (rw shown)) (
      subst
        (λ k.
          (d : WithdrawalData) × (request_status db r ≡ ok d)
          × StatusAgrees d.status k db.external_withdrawals)
        same (by_flags db r r.processing r.processed refl refl agrees))
  where
    same : r.query_id ≡ id
    same = find-is_request id db.withdrawal_requests found

    agrees :
        Agrees r.processing r.processed
          (count is_awaiting r.query_id db.external_withdrawals)
          (count is_settled r.query_id db.external_withdrawals)
    agrees =
        subst
          (λ k.
            Agrees r.processing r.processed (count is_awaiting k db.external_withdrawals)
              (count is_settled k db.external_withdrawals))
          (sym same) (rw found at ((Reach-Inv reach).consistent id))
