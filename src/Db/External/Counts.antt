-- ===== src/Db/External/Counts.antt =====
-- How the statements of db/db.go on the tables of external withdrawals change what is found and
-- counted there.
use bicycle.Prelude.{
  ℕ, suc, ◌+◌, ◌≤◌, ◌≡◌, refl, Bool, true, false, not, ◌&&◌, ◌||◌, List, [], ◌∷◌, ◌++◌, Option,
  none, some, ◌==◌, if◌then◌else◌, is_some, find, filter_by, update_where, contains, arith,
}
use bicycle.Models.{ExternalWithdrawal}
use bicycle.Db.Schema.{RequestRow, ExternalWithdrawalRow}
use bicycle.Db.External.{
  is_request, is_message, is_lost, set_processing, expire, settle, query_ids, release_requests,
}

-- Sent, and neither confirmed nor failed.
abbrev pub is_awaiting : ExternalWithdrawalRow → Bool
is_awaiting r = not r.failed && not (is_some r.processed_lt)

-- Linked to a transaction of the hot wallet, which paid or failed.
abbrev pub is_settled : ExternalWithdrawalRow → Bool
is_settled r = is_some r.tx_hash || is_some r.processed_lt

-- The rows of a request that pass a test.
abbrev pub count : (ExternalWithdrawalRow → Bool) → ℕ → List ExternalWithdrawalRow → ℕ
count p q [] = 0
count p q (r ∷ rs) = let rest = count p q rs in if q == r.query_id && p r then suc rest else rest

-- The rows of a message and an address.
abbrev pub key_count : ℕ → ℕ → List ExternalWithdrawalRow → ℕ
key_count u a [] = 0
key_count u a (r ∷ rs) = let rest = key_count u a rs in if is_message u a r then suc rest else rest

abbrev pub map_option {ℓ} : {A : Type ℓ} → (A → A) → Option A → Option A
map_option f none = none
map_option f (some a) = some (f a)

module _ (f : RequestRow → RequestRow)
    (keeps : (r : RequestRow) → (f r).query_id ≡ r.query_id) where
  pub find-update_where :
      (q k : ℕ) (rs : List RequestRow)
      → find (is_request q) (update_where (is_request k) f rs)
        ≡ (if q == k then map_option f (find (is_request q) rs) else find (is_request q) rs)
  find-update_where q k [] = ground arith
  find-update_where q k (r ∷ rs) = ground (arith, keeps r, find-update_where q k rs)

pub find-release_requests :
    (q : ℕ) (qs : List ℕ) (rs : List RequestRow)
    → find (is_request q) (release_requests qs rs) ≡ (
        if contains q qs
        then map_option (set_processing false) (find (is_request q) rs)
        else find (is_request q) rs)
unfolding release_requests
find-release_requests q [] rs = refl
find-release_requests q (k ∷ qs) rs = ground (
  arith,
  find-release_requests q qs (update_where (is_request k) (set_processing false) rs),
  find-update_where (set_processing false) (λ r. refl) q k rs,
)

pub find-append_one :
    (q : ℕ) (rs : List RequestRow) (row : RequestRow)
    → find (is_request q) (rs ++ row ∷ []) ≡ (
        if is_some (find (is_request q) rs)
        then find (is_request q) rs
        else if q == row.query_id
        then some row
        else none)
find-append_one q [] row = ground arith
find-append_one q (r ∷ rs) row = ground (arith, find-append_one q rs row)

pub key_count_of_none :
    (u a : ℕ) (rs : List ExternalWithdrawalRow)
    → find (is_message u a) rs ≡ none
    → key_count u a rs ≡ 0
key_count_of_none u a [] h = refl
key_count_of_none u a (r ∷ rs) h = ground (arith, key_count_of_none u a rs)

module _ (c : ExternalWithdrawalRow → Bool)
    (f : ExternalWithdrawalRow → ExternalWithdrawalRow) where
  pub key_count-update_where :
      ((r : ExternalWithdrawalRow) → ((f r).msg_uuid ≡ r.msg_uuid) × ((f r).address ≡ r.address))
      → (u a : ℕ) (rs : List ExternalWithdrawalRow)
      → key_count u a (update_where c f rs) ≡ key_count u a rs
  key_count-update_where keeps u a [] = refl
  key_count-update_where keeps u a (r ∷ rs) =
      ground (arith, keeps r, key_count-update_where keeps u a rs)

  pub count-update_where :
      (p : ExternalWithdrawalRow → Bool)
      → ((r : ExternalWithdrawalRow) → ((f r).query_id ≡ r.query_id) × (p (f r) ≡ p r))
      → (q : ℕ) (rs : List ExternalWithdrawalRow) → count p q (update_where c f rs) ≡ count p q rs
  count-update_where p keeps q [] = refl
  count-update_where p keeps q (r ∷ rs) = ground (arith, keeps r, count-update_where p keeps q rs)

-- An expired row is no longer awaited.
pub awaiting-expire :
    (now q : ℕ) (rs : List ExternalWithdrawalRow)
    → count is_awaiting q (update_where (is_lost now) expire rs) + count (is_lost now) q rs
      ≡ count is_awaiting q rs
awaiting-expire now q [] = refl
awaiting-expire now q (r ∷ rs) = ground (arith, awaiting-expire now q rs)

-- The requests that `SetExpired` releases are those with a lost row.
pub contains-query_ids :
    (now q : ℕ) (rs : List ExternalWithdrawalRow)
    → contains q (query_ids (filter_by (is_lost now) rs)) ≡ not (count (is_lost now) q rs == 0)
contains-query_ids now q [] = refl
contains-query_ids now q (r ∷ rs) = ground (arith, contains-query_ids now q rs)

pub update_where_of_absent :
    (u a : ℕ) (f : ExternalWithdrawalRow → ExternalWithdrawalRow) (rs : List ExternalWithdrawalRow)
    → key_count u a rs ≡ 0
    → update_where (is_message u a) f rs ≡ rs
update_where_of_absent u a f [] h = refl
update_where_of_absent u a f (r ∷ rs) h = ground (arith, update_where_of_absent u a f rs)

abbrev pub one_if : Bool → ℕ
one_if true = 1
one_if false = 0

-- What a settled message changes in the counts of every request: its row is not awaited any more and
-- is settled.
pub counts-settle :
    (w : ExternalWithdrawal) (q : ℕ) (r : ExternalWithdrawalRow) (rs : List ExternalWithdrawalRow)
    → find (is_message w.ext_msg_uuid w.to) rs ≡ some r
    → key_count w.ext_msg_uuid w.to rs ≤ 1
    → r.failed ≡ false
    → let rs' = update_where (is_message w.ext_msg_uuid w.to) (settle w) rs in
      (count is_awaiting q rs' + one_if (q == r.query_id && is_awaiting r) ≡ count is_awaiting q rs)
      × (count is_settled q rs' + one_if (q == r.query_id && is_settled r)
          ≡ count is_settled q rs + one_if (q == r.query_id))
      × (one_if (q == r.query_id && is_settled r) ≤ count is_settled q rs)
counts-settle w q r [] e u f = cc
counts-settle w q r (x ∷ rs) e u f =
    ground (arith, counts-settle w q r rs, update_where_of_absent w.ext_msg_uuid w.to (settle w) rs)
