-- ===== src/Db/Reports/Totals.antt =====
-- The withdrawal amounts that are reported, against the statuses that the API shows.
use bicycle.Prelude.{
  Bool, true, false, ◌&&◌, List, [], ◌∷◌, String, str_eq, if◌then◌else◌, Result, ok, err,
}
use bicycle.Prelude.Int.{ℤ, pos, ◌+ℤ◌}
use bicycle.Models.{WithdrawalStatus, WithdrawalData}
use bicycle.Db.Schema.{Database, RequestRow}
use bicycle.Db.External.{request_status}

abbrev same_status : WithdrawalStatus → WithdrawalStatus → Bool
same_status WithdrawalStatus.pending WithdrawalStatus.pending = true
same_status WithdrawalStatus.processing WithdrawalStatus.processing = true
same_status WithdrawalStatus.processed WithdrawalStatus.processed = true
same_status WithdrawalStatus.failed WithdrawalStatus.failed = true
same_status _ _ = false

abbrev is_shown_as : WithdrawalStatus → Result WithdrawalData → Bool
is_shown_as s (ok d) = same_status s d.status
is_shown_as s (err _) = false

-- The amounts of the requests of a currency that are shown with a status, added up.
abbrev pub sum_shown : Database → WithdrawalStatus → String → List RequestRow → ℤ
sum_shown db s currency [] = pos 0
sum_shown db s currency (r ∷ rs) =
    (if str_eq r.currency currency && is_shown_as s (request_status db r) then r.amount else pos 0)
    +ℤ sum_shown db s currency rs
