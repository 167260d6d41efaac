-- ===== src/Db/Tasks.antt =====
-- db/db.go: the requests that a batch is made of.
pub mod Waiting
pub mod Pending
use bicycle.Prelude.{ℕ, Bool, List, [], ◌∷◌, ◌==◌, ltb, if◌then◌else◌, take}
use bicycle.Models.{ExternalWithdrawalTask}
use bicycle.Db.Schema.{Database, RequestRow}

abbrev pub task_of : RequestRow → ExternalWithdrawalTask
task_of r = record {
  query_id = r.query_id;
  currency = r.currency;
  amount = r.amount;
  destination = r.dest_address;
  bounceable = r.bounceable;
  comment = r.comment;
  binary_comment = r.binary_comment;
}

-- `ORDER BY dest_address, query_id` and `DISTINCT ON (dest_address)`: of each address the least id.
unfoldable pub insert_task :
    ExternalWithdrawalTask → List ExternalWithdrawalTask → List ExternalWithdrawalTask
insert_task t [] = t ∷ []
insert_task t (x ∷ xs) =
    let rest = insert_task t xs in
    if t.destination == x.destination
    then (if ltb t.query_id x.query_id then t else x) ∷ xs
    else if ltb t.destination x.destination
    then t ∷ x ∷ xs
    else x ∷ rest

-- `WHERE processing = false`
unfoldable pub first_tasks : List RequestRow → List ExternalWithdrawalTask
unfolding insert_task
first_tasks [] = []
first_tasks (r ∷ rs) =
    let rest = first_tasks rs in if r.processing then rest else insert_task (task_of r) rest

-- `GetExternalWithdrawalTasks`
unfoldable pub get_external_withdrawal_tasks : Database → ℕ → List ExternalWithdrawalTask
unfolding first_tasks
get_external_withdrawal_tasks db limit = take limit (first_tasks db.withdrawal_requests)
