-- ===== src/System/Runs.antt =====
-- All histories of the service: its components act on one database, interleaved in any order.
use bicycle.Prelude.{ℕ, ◌+◌, ◌≤◌, ◌≡◌, subst, List, Option, String, Result, ok}
use bicycle.Models.{BlockEvents}
use bicycle.Db.Schema.{Database, empty_database}
use bicycle.Db.AddressBook.{AddressBook}
use bicycle.Db.Blocks.{save_parsed_block_data}
use bicycle.Db.External.Counts.{count, is_awaiting, is_settled}
use bicycle.Db.External.History.{Reach}
use bicycle.Db.External.Safety.{is_paid, paid_once}
use bicycle.Api.Types.{HttpRequest}
use bicycle.Api.Context.{Blockchain, Library, ApiConfig}
use bicycle.Api.Postgres.{Store, postgres}
use bicycle.Api.Routes.{serve}
use bicycle.Processor.Round.{Hot, Deposits, withdrawals_round, internal_round, expiration_round}
use bicycle.Processor.Round.History.{
  withdrawals_round-Reach, internal_round-Reach, expiration_round-Reach,
}
use bicycle.System.Blocks.{save_parsed_block_data-Reach}
use bicycle.System.Served.{serve-Reach}

-- One action of a component. A round is one action, and with it everything that its statements do.
pub data Action (s t : Store) : Type 0 where
  -- the API serves a request
  request :
      (lib : Library) (config : ApiConfig) (default_subwallet : ℕ) (new_memo : Database → ℕ)
      (now : ℕ) (bc : Blockchain) (metrics : List (Result String)) (req : HttpRequest)
      → (serve lib config (postgres default_subwallet new_memo now) bc metrics req s).0 ≡ t
      → Action s t
  -- the block scanner saves a block
  block :
      (uuid_from_string : String → Option ℕ) (strip_invalid_utf8 : String → String)
      (commit : Result (Unit {0})) (be : BlockEvents)
      → (save_parsed_block_data uuid_from_string strip_invalid_utf8 s.1 commit be s.0).0 ≡ t.0
      → Action s t
  -- a round of each processor
  withdrawals : (hot : Hot) → withdrawals_round hot s.0 ≡ ok t.0 → Action s t
  deposits : (d : Deposits) → internal_round d s.0 ≡ ok t.0 → Action s t
  expiration : (now : ℕ) → expiration_round now s.0 ≡ t.0 → Action s t

-- The states that the service can come to from an empty database.
pub data Runs : Store → Type 0 where
  begin : (book : AddressBook) → Runs (empty_database, book)
  act : {s t : Store} → Runs s → Action s t → Runs t

Action-Reach : {s t : Store} → Action s t → Reach s.0 → Reach t.0
Action-Reach {s} (request lib config sub memo now bc metrics req e) r =
    subst (λ (x : Store). Reach x.0) e (serve-Reach lib config sub memo now bc metrics req s r)
Action-Reach {s} (block uuid strip commit be e) r =
    subst Reach e (save_parsed_block_data-Reach uuid strip s.1 commit be s.0 r)
Action-Reach {s} (withdrawals hot e) r = withdrawals_round-Reach hot s.0 e r
Action-Reach {s} (deposits d e) r = internal_round-Reach d s.0 e r
Action-Reach {s} (expiration now e) r = subst Reach e (expiration_round-Reach now s.0 r)

-- Every state that the service comes to, whatever requests, blocks and rounds there are and in whatever order, has a
-- database that a history of single statements reaches (`Reach`).
pub Runs-Reach : {s : Store} → Runs s → Reach s.0
Runs-Reach (begin book) = Reach.start
Runs-Reach (act r a) = Action-Reach a (Runs-Reach r)

-- In every state that the service comes to, a withdrawal request is recorded as paid at most once, and while a message
-- for it is awaited none has been settled and no second one is awaited.
pub service_pays_once :
    {s : Store} (q : ℕ)
    → Runs s
    → (count is_paid q s.0.external_withdrawals ≤ 1)
      × (count is_awaiting q s.0.external_withdrawals + count is_settled q s.0.external_withdrawals
          ≤ 1)
service_pays_once q r = paid_once q (Runs-Reach r)
