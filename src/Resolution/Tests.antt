-- ===== src/Resolution/Tests.antt =====
-- Concrete cases, and the theorems on cases applied to them.
use autophage.Base.{
  ◌≡◌, refl, ◌<ℤ◌, arith, ◌⊎◌, err, refused, pos, String, true, false, List, [], ◌∷◌, length, ◌+◌,
  ◌≤◌, invalid, known, blank, is_blank, str_eq, is_sha, none, ok,
}
use autophage.Resolution.Enums.{
  association_owner, association_none, trusted, untrusted, small, source_operator, auto,
  pull_request_opened, aborted, abort_daemon_restart, received, gated, done,
}
use autophage.Resolution.Budget.{Budget, Usage, new_budget, warn_at}
use autophage.Resolution.Budget.Warning.{warning_first}
use autophage.Resolution.Requester.{Requester}
use autophage.Resolution.Facts.{Triage, Approval, Run, Outcome, outcome_cause, outcome_pull_request}
use autophage.Resolution.Case.State.{
  Case, no_changes, is_queued, new_case, load_case, clear_changes,
}
use autophage.Resolution.Case.Commands.{
  record_triage, record_approval, start_attempt, record_run, record_outcome, open_attempt,
  update_open, target, restarted_before, move,
}
use autophage.Resolution.Case.Trace.{
  Command, triages, approves, starts, runs, ends, call, left_by, run_calls,
}
use autophage.Resolution.Case.Outcomes.{Built, opened, record_outcome-Built}
use autophage.Resolution.Case.Errors.{case_error_unchanged}
use autophage.Resolution.Case.Invariant.{IsValid, new_case-IsValid, reachable_case-IsValid}
use autophage.Resolution.Case.Graph.{Leads, case_log-Leads}
use autophage.Resolution.Case.Gate.{needs_approval, no_attempt_before_approval}
use autophage.Resolution.Case.Bound.{allowance, one_if, attempts_bounded}
use autophage.Resolution.Case.Persist.{replay, replay_lem}
use autophage.Resolution.Facts.{Attempt}
use autophage.Resolution.Case.Reload.{snapshot_of, kept_case, load_case-run_calls}

abbrev owner : Requester
owner = record { login = "ada"; association = association_owner; trust = trusted }

abbrev stranger : Requester
stranger = record { login = "bob"; association = association_none; trust = untrusted }

abbrev base_sha : String
base_sha = "0123456789abcdef0123456789abcdef01234567"

abbrev head_sha : String
head_sha = "89abcdef0123456789abcdef0123456789abcdef"

-- What NewCase returns for each of the two requesters.
abbrev owners_case : Case
owners_case = record {
  id = "";
  repository = "o/r";
  number = pos 7;
  requester = owner;
  state = received;
  received_at = 1;
  triage = none;
  approvals = [];
  attempts = [];
  transitions = [];
  closure = none;
  changes = no_changes received;
}

abbrev strangers_case : Case
strangers_case = record owners_case {
  requester = stranger;
  state = gated;
  changes = no_changes gated;
}

abbrev budget : Budget
budget = record { max_turns = pos 40; max_wall_clock = pos 600; max_diff_lines = pos 300 }

abbrev usage : Usage
usage = record {
  turns = pos 3;
  input_tokens = pos 100;
  output_tokens = pos 50;
  wall_clock = pos 60;
  diff_lines = pos 10;
}

abbrev sized_small : Triage
sized_small = record { size = known small; rationale = "one line"; model = "m"; triaged_at = 2 }

abbrev by_operator : Approval
by_operator = record {
  id = "";
  approver = owner;
  source = known source_operator;
  approved_at = 2;
  delivery_id = "";
}

abbrev begun : Run
begun = record { run_id = "run-1"; model = "m"; base_sha = base_sha; began_at = 4 }

abbrev restart_abort : Outcome
restart_abort = record {
  kind = known aborted;
  ended_at = 5;
  usage = usage;
  summary = "the daemon restarted";
  pr_number = pos 0;
  head_sha = "";
  limit = blank;
  class = blank;
  message = "";
  reason = known abort_daemon_restart;
}

abbrev opened_pull_request : Outcome
opened_pull_request = record restart_abort {
  kind = known pull_request_opened;
  ended_at = 8;
  pr_number = pos 12;
  head_sha = head_sha;
  reason = blank;
}

-- Two attempts: the first ends with a daemon restart, which queues the case again, and the second
-- opens a pull request. Triage of the second kind is refused on the way.
abbrev life : List Command
life =
    triages sized_small
    ∷ starts (known auto) budget "brief" 3
    ∷ runs "" begun
    ∷ triages sized_small
    ∷ ends "" restart_abort
    ∷ starts (known auto) budget "brief" 6
    ∷ ends "" opened_pull_request
    ∷ []

-- A case that nobody approved refuses triage and an attempt.
abbrev unapproved : List Command
unapproved = triages sized_small ∷ starts (known auto) budget "brief" 3 ∷ []

owners_case_made : new_case "o/r" (pos 7) owner 1 ≡ ok owners_case
unfolding new_case is_blank str_eq
owners_case_made = refl

strangers_case_made : new_case "o/r" (pos 7) stranger 1 ≡ ok strangers_case
unfolding new_case is_blank str_eq
strangers_case_made = refl

-- The life of the case, computed: it ends in `done`, with two attempts.
life_ends : (run_calls owners_case life).state ≡ done
unfolding run_calls call record_triage start_attempt record_run record_outcome open_attempt
    update_open target restarted_before outcome_cause move is_blank str_eq is_sha
life_ends = refl

life_attempts : length (run_calls owners_case life).attempts ≡ 2
unfolding run_calls call record_triage start_attempt record_run record_outcome open_attempt
    update_open target restarted_before outcome_cause move is_blank str_eq is_sha
life_attempts = refl

reachable_case-IsValid_example : IsValid (run_calls owners_case life)
reachable_case-IsValid_example = reachable_case-IsValid "o/r" (pos 7) owner 1 life owners_case_made

case_log-Leads_example :
    Leads received (run_calls owners_case life).transitions (run_calls owners_case life).state
case_log-Leads_example = case_log-Leads "o/r" (pos 7) owner 1 life owners_case_made

abbrev stored_attempt : Attempt → Attempt
stored_attempt a = record a { id = "a1" }

load_case-run_calls_example :
    let stored =
      kept_case (λ l. l) stored_attempt (λ a. refl) (λ a. refl) (run_calls owners_case life) in
    load_case (snapshot_of stored) ≡ ok (clear_changes stored).0
load_case-run_calls_example =
    load_case-run_calls (λ l. l) stored_attempt (λ a. refl) (λ a. refl) "o/r" (pos 7) owner 1 life
      owners_case_made

no_attempt_before_approval_example :
    ((run_calls strangers_case unapproved).attempts ≡ [])
    × (is_queued (run_calls strangers_case unapproved).state ≡ false)
unfolding run_calls call record_triage start_attempt is_blank str_eq
no_attempt_before_approval_example =
    no_attempt_before_approval "o/r" (pos 7) stranger 1 unapproved strangers_case_made refl refl

attempts_bounded_example :
    let d = run_calls owners_case life in
    let made = length d.attempts + one_if (is_queued d.state) in
    (made ≤ allowance d)
    × (made ≤ length d.approvals + 2)
    × (needs_approval d ≡ true → made ≤ length d.approvals + 1)
attempts_bounded_example = attempts_bounded "o/r" (pos 7) owner 1 life owners_case_made

replay_lem_example :
    replay owners_case (run_calls owners_case life).changes
    ≡ (clear_changes (run_calls owners_case life)).0
replay_lem_example =
    replay_lem owners_case life (new_case-IsValid "o/r" (pos 7) owner 1 owners_case_made) refl
      (tt, (tt, (tt, (tt, (tt, (tt, (tt, tt)))))))

-- A second approval by nobody: ErrInvalid.
abbrev by_nobody : Command
by_nobody = approves (record by_operator { approver = record owner { login = "" } })

case_error_unchanged_example : left_by strangers_case by_nobody ≡ strangers_case
unfolding call record_approval is_blank str_eq
case_error_unchanged_example = case_error_unchanged strangers_case by_nobody {e = invalid} refl

warning_first_example :
    ((warn_at budget).0 <ℤ budget.max_turns) × ((warn_at budget).1 <ℤ budget.max_wall_clock)
unfolding new_budget
warning_first_example =
    warning_first (pos 40) (pos 600) (pos 300) {b = budget} refl (omega arith) (omega arith)

-- A case with its first attempt open.
abbrev attempting_case : Case
attempting_case =
    run_calls owners_case (triages sized_small ∷ starts (known auto) budget "brief" 3 ∷ [])

opened_pull_request-Built : Built opened_pull_request
unfolding outcome_pull_request is_blank str_eq is_sha
opened_pull_request-Built =
    opened (pos 12) head_sha "the daemon restarted" usage 8 opened_pull_request refl

record_outcome-Built_example :
    ((record_outcome "" opened_pull_request attempting_case).1 ≡ ok tt)
    ⊎ ((record_outcome "" opened_pull_request attempting_case).1 ≡ err refused)
record_outcome-Built_example =
    record_outcome-Built attempting_case "" opened_pull_request opened_pull_request-Built
