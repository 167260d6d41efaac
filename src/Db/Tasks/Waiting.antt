-- ===== src/Db/Tasks/Waiting.antt =====
-- The tasks taken from rows with distinct ids: distinct, and each of a row that waits.
use bicycle.Prelude.{
  ℕ, zero, suc, ◌≡◌, ◌≢◌, refl, sym, Bool, true, false, List, [], ◌∷◌, some, ◌==◌, ltb,
  if◌then◌else◌, All, contains, find, take, Bool-cases, inl, inr, arith,
}
use bicycle.Models.{ExternalWithdrawalTask}
use bicycle.Db.Schema.{Database, RequestRow}
use bicycle.Db.External.{is_request}
use bicycle.Db.External.History.{task_ids, ArePending}
use bicycle.Db.Tasks.{task_of, insert_task, first_tasks}

abbrev pub row_ids : List RequestRow → List ℕ
row_ids [] = []
row_ids (r ∷ rs) = r.query_id ∷ row_ids rs

abbrev pub AreDistinct : List ℕ → Type 0
AreDistinct [] = Unit
AreDistinct (q ∷ qs) = (contains q qs ≡ false) × AreDistinct qs

-- The request waits among these rows.
abbrev pub IsWaiting : List RequestRow → ℕ → Type 0
IsWaiting rs q = (r : RequestRow) × (find (is_request q) rs ≡ some r) × (r.processing ≡ false)

not_contains :
    (q x : ℕ) (xs : List ℕ) → contains q (x ∷ xs) ≡ false → (q ≢ x) × (contains q xs ≡ false)
not_contains q x xs h = (λ e. ground arith, ground arith)

contains-insert_task :
    (q : ℕ) (t : ExternalWithdrawalTask) (ts : List ExternalWithdrawalTask)
    → contains q (task_ids ts) ≡ false
    → q ≢ t.query_id
    → contains q (task_ids (insert_task t ts)) ≡ false
unfolding insert_task
contains-insert_task q t [] h n = ground arith
contains-insert_task q t (x ∷ xs) h n =
    ground (arith, λ (k : contains q (task_ids xs) ≡ false). contains-insert_task q t xs k n)

insert_task-AreDistinct :
    (t : ExternalWithdrawalTask) (ts : List ExternalWithdrawalTask)
    → contains t.query_id (task_ids ts) ≡ false
    → AreDistinct (task_ids ts)
    → AreDistinct (task_ids (insert_task t ts))
unfolding insert_task
insert_task-AreDistinct t [] h d = (refl, tt)
insert_task-AreDistinct t (x ∷ xs) h (n, d) =
    let away : t.query_id ≢ x.query_id =
      λ e. (not_contains t.query_id x.query_id (task_ids xs) h).0 e in
    let free : contains t.query_id (task_ids xs) ≡ false =
      (not_contains t.query_id x.query_id (task_ids xs) h).1 in
    elim (Bool-cases (t.destination == x.destination)) [
      | inl same ↦ elim (Bool-cases (ltb t.query_id x.query_id)) [
        | inl less ↦ rw (same, less) (free, d)
        | inr more ↦ rw (same, more) (n, d)
      ]
      | inr other ↦ elim (Bool-cases (ltb t.destination x.destination)) [
        | inl before ↦ rw (other, before) (h, (n, d))
        | inr behind ↦
            rw (other, behind)
              (
                contains-insert_task x.query_id t xs n (λ e. away (sym e)),
                insert_task-AreDistinct t xs free d,
              )
      ]
    ]

contains-first_tasks :
    (q : ℕ) (rs : List RequestRow)
    → contains q (row_ids rs) ≡ false
    → contains q (task_ids (first_tasks rs)) ≡ false
unfolding first_tasks
contains-first_tasks q [] h = refl
contains-first_tasks q (r ∷ rs) h = ground (
  arith,
  λ (k : contains q (row_ids rs) ≡ false). contains-first_tasks q rs k,
  λ (k : contains q (task_ids (first_tasks rs)) ≡ false) (n : q ≢ r.query_id).
      contains-insert_task q (task_of r) (first_tasks rs) k n,
)

pub first_tasks-AreDistinct :
    (rs : List RequestRow) → AreDistinct (row_ids rs) → AreDistinct (task_ids (first_tasks rs))
unfolding first_tasks
first_tasks-AreDistinct [] d = tt
first_tasks-AreDistinct (r ∷ rs) (n, d) = elim (Bool-cases r.processing) [
  | inl p ↦ rw p (first_tasks-AreDistinct rs d)
  | inr p ↦ rw p (
      insert_task-AreDistinct (task_of r) (first_tasks rs) (contains-first_tasks r.query_id rs n)
        (first_tasks-AreDistinct rs d))
]

-- Every task is of a request that waits among these rows.
abbrev pub AreWaiting : List RequestRow → List ExternalWithdrawalTask → Type 0
AreWaiting rs ts = All (λ t. IsWaiting rs t.query_id) ts

AreWaiting-cons :
    (r : RequestRow) (rs : List RequestRow) (ts : List ExternalWithdrawalTask)
    → contains r.query_id (task_ids ts) ≡ false
    → AreWaiting rs ts
    → AreWaiting (r ∷ rs) ts
AreWaiting-cons r rs [] h w = tt
AreWaiting-cons r rs (t ∷ ts) h ((x, found, waits), w) =
    let (away, free) = not_contains r.query_id t.query_id (task_ids ts) h in
    ((x, ground arith, waits), AreWaiting-cons r rs ts free w)

insert_task-AreWaiting :
    (rs : List RequestRow) (t : ExternalWithdrawalTask) (ts : List ExternalWithdrawalTask)
    → IsWaiting rs t.query_id
    → AreWaiting rs ts
    → AreWaiting rs (insert_task t ts)
unfolding insert_task
insert_task-AreWaiting rs t [] w ws = (w, tt)
insert_task-AreWaiting rs t (x ∷ xs) w (v, ws) =
    elim (Bool-cases (t.destination == x.destination)) [
      | inl same ↦ elim (Bool-cases (ltb t.query_id x.query_id)) [
        | inl less ↦ rw (same, less) (w, ws)
        | inr more ↦ rw (same, more) (v, ws)
      ]
      | inr other ↦ elim (Bool-cases (ltb t.destination x.destination)) [
        | inl before ↦ rw (other, before) (w, (v, ws))
        | inr behind ↦ rw (other, behind) (v, insert_task-AreWaiting rs t xs w ws)
      ]
    ]

either-AreWaiting :
    (rs : List RequestRow) (b : Bool) (xs ys : List ExternalWithdrawalTask)
    → AreWaiting rs xs
    → (b ≡ false → AreWaiting rs ys)
    → AreWaiting rs (if b then xs else ys)
either-AreWaiting rs true xs ys w v = w
either-AreWaiting rs false xs ys w v = v refl

pub first_tasks-AreWaiting :
    (rs : List RequestRow) → AreDistinct (row_ids rs) → AreWaiting rs (first_tasks rs)
unfolding first_tasks
first_tasks-AreWaiting [] d = tt
first_tasks-AreWaiting (r ∷ rs) (n, d) =
    let later =
      AreWaiting-cons r rs (first_tasks rs) (contains-first_tasks r.query_id rs n)
        (first_tasks-AreWaiting rs d) in
    either-AreWaiting (r ∷ rs) r.processing (first_tasks rs)
      (insert_task (task_of r) (first_tasks rs)) later
      (λ p. insert_task-AreWaiting (r ∷ rs) (task_of r) (first_tasks rs) (r, ground arith, p) later)

contains-take :
    (q n : ℕ) (ts : List ExternalWithdrawalTask)
    → contains q (task_ids ts) ≡ false
    → contains q (task_ids (take n ts)) ≡ false
contains-take q zero ts h = refl
contains-take q (suc n) [] h = refl
contains-take q (suc n) (t ∷ ts) h =
    ground (arith, λ (k : contains q (task_ids ts) ≡ false). contains-take q n ts k)

pub take-ArePending :
    (db : Database) (n : ℕ) (ts : List ExternalWithdrawalTask)
    → AreDistinct (task_ids ts)
    → AreWaiting db.withdrawal_requests ts
    → ArePending db (take n ts)
take-ArePending db zero ts d w = tt
take-ArePending db (suc n) [] d w = tt
take-ArePending db (suc n) (t ∷ ts) (a, d) (v, w) =
    (v, contains-take t.query_id n ts a, take-ArePending db n ts d w)
