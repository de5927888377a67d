-- ===== src/App/Tests.antt =====
-- The theorems on the store and the services, applied to a concrete database.
use autophage.Base.{
  ◌/◌, ◌*◌, blank, ◌≡◌, refl, pos, true, false, known, none, some, All, is_blank, str_eq,
}
use autophage.Resolution.Enums.{abort_daemon_restart, aborted, auto}
use autophage.Resolution.Facts.{Outcome, Time}
use autophage.Resolution.Case.State.{Case, assign_id, clear_changes}
use autophage.Resolution.Case.Commands.{record_triage, start_attempt, move, open_attempt}
use autophage.Resolution.Case.Trace.{ends, call, run_calls}
use autophage.Store.Database.{find_case}
use autophage.Store.Cases.{update_case}
use autophage.Store.Cases.Updates.{row_after, IsStored}
use autophage.Store.Cases.Refines.{update_case-IsStored}
use autophage.Base.{is_sha}
use autophage.Resolution.Facts.{outcome_pull_request}
use autophage.Resolution.Enums.{pull_request_opened}
use autophage.Resolution.Case.Outcomes.{Built, opened}
use autophage.Store.Outcomes.{load_outcome, insert_outcome, load_outcome-insert_outcome}
use autophage.Resolution.Facts.{Attempt}
use autophage.Resolution.Case.Commands.{fresh_attempt, next_attempt_kind}
use autophage.Resolution.Enums.{failed_outcome, failure_infra}
use autophage.Base.{◌<>◌}
use autophage.Store.Database.{done, find_repository, key_of}
use autophage.App.Scheduler.{start}
use autophage.App.Scheduler.Ready.{IsReady, HasStarted, start_ready}
use autophage.App.Backstop.{find_by_attempt, backstop}
use autophage.App.Backstop.Ends.{backstop-closes}
use autophage.App.Scheduler.{run as schedule}
use autophage.App.Scheduler.Bound.{IsBounded, run-IsBounded}
use autophage.App.Recovery.{run as recover, no_usage}
use autophage.App.Recovery.Total.{recovered_fully}
use autophage.App.Examples.{
  budget, start_it, queued_case, running_case, queued_case-IsStored, running_case-IsStored, key,
  server, repo, database, open_issue, daemon,
}

update_case-IsStored_example :
    All IsStored (update_case server key (call start_it) (database queued_case)).0.cases
update_case-IsStored_example =
    update_case-IsStored server key start_it (database queued_case) (queued_case-IsStored, tt) tt

run-IsBounded_example :
    IsBounded daemon (database queued_case) (schedule daemon (database queued_case)).0
run-IsBounded_example = run-IsBounded daemon (database queued_case) (queued_case-IsStored, tt)

abbrev restart_abort : Outcome
restart_abort = record {
  kind = known aborted;
  ended_at = 1;
  usage = no_usage;
  summary = "The daemon restarted during the attempt.";
  pr_number = pos 0;
  head_sha = "";
  limit = blank;
  class = blank;
  message = "";
  reason = known abort_daemon_restart;
}

abbrev recovered_case : Case
recovered_case = row_after server running_case (ends "" restart_abort)

found_recovered :
    find_case key (recover server (λ n. n) (database running_case)).0.cases ≡ some recovered_case
unfolding recover call run_calls assign_id record_triage start_attempt move clear_changes is_blank
    str_eq
found_recovered = refl

recovered_fully_example : open_attempt recovered_case.attempts ≡ none
recovered_fully_example =
    recovered_fully server (λ n. n) (database running_case) key recovered_case (λ n. refl)
      (running_case-IsStored, tt) found_recovered

abbrev opened_pull_request : Outcome
opened_pull_request = record {
  kind = known pull_request_opened;
  ended_at = 8765;
  usage = record no_usage { wall_clock = pos 1234567 };
  summary = "Fixed.";
  pr_number = pos 12;
  head_sha = "89abcdef0123456789abcdef0123456789abcdef";
  limit = blank;
  class = blank;
  message = "";
  reason = blank;
}

opened_pull_request-Built : Built opened_pull_request
unfolding outcome_pull_request is_blank str_eq is_sha
opened_pull_request-Built =
    opened (pos 12) opened_pull_request.head_sha "Fixed." opened_pull_request.usage 8765
      opened_pull_request refl

abbrev whole_microseconds : Time → Time
whole_microseconds t = t / 1000 * 1000

load_outcome-insert_outcome_example :
    load_outcome (insert_outcome whole_microseconds opened_pull_request)
    ≡ record opened_pull_request {
      ended_at = 8000;
      usage = record no_usage { wall_clock = pos 1234000 };
    }
load_outcome-insert_outcome_example =
    load_outcome-insert_outcome whole_microseconds opened_pull_request opened_pull_request-Built

ready : IsReady daemon key (database queued_case) queued_case repo open_issue "brief"
unfolding find_repository find_case run_calls call assign_id record_triage move clear_changes
    next_attempt_kind is_blank str_eq
ready = record {
  up = λ n. refl;
  recorded = refl;
  read = refl;
  live = refl;
  found = refl;
  waiting = refl;
  built = refl;
  briefed = refl;
  budgeted = refl;
}

start_ready_example :
    ((start daemon key (database queued_case)).1 ≡ done true)
    × HasStarted daemon key
        (database queued_case)
        queued_case
        repo
        open_issue
        "brief"
        (start daemon key (database queued_case)).0
start_ready_example =
    start_ready daemon key (database queued_case) queued_case repo open_issue "brief"
      (queued_case-IsStored, tt) ready

-- The attempt of the running case, and what the backstop leaves of the case.
abbrev left_attempt : Attempt
left_attempt = fresh_attempt 0 (known auto) budget "brief" 3

abbrev backstop_failure : Outcome
backstop_failure = record restart_abort {
  kind = known failed_outcome;
  summary = "runner panicked: nil map";
  class = known failure_infra;
  message = "runner panicked: nil map";
  reason = blank;
}

abbrev failed_case : Case
failed_case = row_after server running_case (ends "" backstop_failure)

found_running : find_case (key_of running_case) (database running_case).cases ≡ some running_case
unfolding find_case run_calls call assign_id record_triage start_attempt move clear_changes is_blank
    str_eq
found_running = refl

named_running : find_by_attempt "" (database running_case).cases ≡ some running_case
unfolding find_by_attempt run_calls call assign_id record_triage start_attempt move clear_changes
    is_blank str_eq
named_running = refl

open_running : open_attempt running_case.attempts ≡ some left_attempt
unfolding run_calls call assign_id record_triage start_attempt move clear_changes is_blank str_eq
open_running = refl

found_failed :
    find_case
      (key_of running_case)
      (backstop server (λ n. n) false (some "nil map") "" (database running_case)).cases
    ≡ some failed_case
unfolding backstop ◌<>◌ find_case run_calls call assign_id record_triage start_attempt move
    clear_changes is_blank str_eq
found_failed = refl

backstop-closes_example : open_attempt failed_case.attempts ≡ none
backstop-closes_example =
    backstop-closes server (λ n. n) (some "nil map") (database running_case) running_case
      left_attempt (λ n. refl) (running_case-IsStored, tt) named_running found_running open_running
      failed_case found_failed
