-- ===== src/App/Recovery.antt =====
-- internal/app/recovery.go: on boot, the attempts that the previous daemon left open are ended.
pub mod Ends
pub mod Listed
pub mod Total
use autophage.Base.{
  ℕ, String, Bool, true, false, List, [], ◌∷◌, Result, ok, err, Method, if◌then◌else◌, known, pos,
}
use autophage.Resolution.Enums.{AbortReason, abort_daemon_restart, abort_issue_closed}
use autophage.Resolution.Budget.{Usage}
use autophage.Resolution.Facts.{Time, Outcome, outcome_aborted}
use autophage.Resolution.Case.State.{Case, is_closed}
use autophage.Resolution.Case.Commands.{record_outcome}
use autophage.Store.Database.{Failure, Reply, done, fails, CaseKey, Database, Server, Access}
use autophage.Store.Cases.{update_case}
use autophage.Store.Queries.{OpenAttempt, open_attempts}
use autophage.App.Calls.{◌>>=◌}

-- `resolution.Usage{}`.
abbrev pub no_usage : Usage
no_usage = record {
  turns = pos 0;
  input_tokens = pos 0;
  output_tokens = pos 0;
  wall_clock = pos 0;
  diff_lines = pos 0;
}

abbrev pub reason_for : Case → AbortReason
reason_for c = if is_closed c.state then abort_issue_closed else abort_daemon_restart

abbrev pub summary_for : Case → String
summary_for c =
    if is_closed c.state
    then "The issue was closed while the attempt was running."
    else "The daemon restarted during the attempt."

abbrev pub record_built : String → Result Outcome → Method Case (Unit {0})
record_built id (err e) c = (c, err e)
record_built id (ok o) c = record_outcome id o c

-- The method that UpdateCase calls: the reason follows the case.
unfoldable pub end_attempt : String → Time → Method Case (Unit {0})
unfolding outcome_aborted record_outcome
end_attempt id at c =
    record_built id (outcome_aborted (known (reason_for c)) (summary_for c) no_usage at) c

-- one.
abbrev pub one : Server → (ℕ → Time) → OpenAttempt → Access Case
one server now a db = update_case server a.key (end_attempt a.attempt_id (now db.tick)) db

-- The loop of Run: an error is logged, and the rest still get ended.
unfoldable pub end_all : Server → (ℕ → Time) → List OpenAttempt → Database → Database
unfolding update_case end_attempt
end_all server now [] db = db
end_all server now (a ∷ rest) db = end_all server now rest (one server now a db).0

abbrev pub end_listed : Server → (ℕ → Time) → Reply (List OpenAttempt) → Access (Unit {0})
end_listed server now (fails e) db = (db, fails e)
end_listed server now (done listed) db = (end_all server now listed db, done tt)

-- Run.
unfoldable pub run : Server → (ℕ → Time) → Access (Unit {0})
unfolding open_attempts end_all
run server now db = let r = open_attempts server db in end_listed server now r.1 r.0
