-- ===== src/App/Backstop.antt =====
-- internal/app/scheduler.go: the supervisor that runs when the runner of an attempt has returned or
-- panicked.
pub mod Ends
use autophage.Base.{
  ℕ, String, ◌<>◌, Bool, true, false, ◌||◌, not, Option, none, some, List, [], ◌∷◌, any_if, Result,
  ok, err, if◌then◌else◌, str_eq, known,
}
use autophage.Resolution.Enums.{failure_infra}
use autophage.Resolution.Facts.{Time, Attempt, Outcome, outcome_failed}
use autophage.Resolution.Case.State.{Case, load_case}
use autophage.Resolution.Case.Commands.{open_attempt, record_outcome}
use autophage.Resolution.Case.Reload.{snapshot_of}
use autophage.Store.Database.{
  Failure, not_found, outage, domain, Reply, done, fails, Database, Server, Access, key_of, ticked,
}
use autophage.Store.Cases.{update_case}
use autophage.App.Recovery.{no_usage}

-- `select case_id from attempts where id = $1`.
unfoldable pub find_by_attempt : String → List Case → Option Case
find_by_attempt id [] = none
find_by_attempt id (c ∷ cs) =
    if any_if (λ (a : Attempt). str_eq a.id id) c.attempts then some c else find_by_attempt id cs

abbrev loaded_reply : Result Case → Reply Case
loaded_reply (ok c) = done c
loaded_reply (err e) = fails (domain e)

abbrev case_or_missing : Option Case → Reply Case
case_or_missing none = fails not_found
case_or_missing (some s) = loaded_reply (load_case (snapshot_of s))

-- GetCaseByAttempt.
unfoldable pub get_case_by_attempt : Server → String → Access Case
unfolding find_by_attempt load_case
get_case_by_attempt server id db = (
  ticked db,
  if server.down db.tick then fails outage else case_or_missing (find_by_attempt id db.cases),
)

-- What is said of a runner that left no outcome: the panic's value, if there was one.
abbrev pub message_of : Option String → String
message_of none = "runner returned without recording an outcome"
message_of (some v) = "runner panicked: " <> v

abbrev pub record_failure : Server → String → Case → Result Outcome → Database → Database
record_failure server id c (err e) db = db
record_failure server id c (ok o) db = (update_case server (key_of c) (record_outcome id o) db).0

-- `if a := c.OpenAttempt(); a == nil || a.ID != attemptID { return }`.
abbrev pub end_open : Server → String → Result Outcome → Case → Option Attempt → Database → Database
end_open server id o c none db = db
end_open server id o c (some a) db =
    if not (str_eq a.id id) then db else record_failure server id c o db

abbrev pub end_found : Server → String → Result Outcome → Reply Case → Database → Database
end_found server id o (fails e) db = db
end_found server id o (done c) db = end_open server id o c (open_attempt c.attempts) db

-- backstop; `going_down` is the daemon's context being done.
unfoldable pub backstop : Server → (ℕ → Time) → Bool → Option String → String → Database → Database
unfolding get_case_by_attempt update_case outcome_failed open_attempt record_outcome
backstop server now going_down panicked id db =
    if going_down
    then db
    else let r = get_case_by_attempt server id db in
      end_found server id
        (outcome_failed (known failure_infra) (message_of panicked) no_usage (now r.0.tick)) r.1 r.0
