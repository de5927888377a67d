-- ===== src/App/Examples.antt =====
-- A concrete database and daemon, for the tests.
use autophage.Base.{◌≡◌, refl, pos, true, false, known, none, some, ok, [], ◌∷◌, is_blank, str_eq}
use autophage.Resolution.Enums.{association_owner, trusted, small, auto, received}
use autophage.Resolution.Budget.{Budget}
use autophage.Resolution.Requester.{Requester}
use autophage.Resolution.Repository.{Repository}
use autophage.Resolution.Facts.{Triage}
use autophage.Resolution.Case.State.{Case, no_changes, new_case, assign_id, clear_changes}
use autophage.Resolution.Case.Commands.{record_triage, start_attempt, move}
use autophage.Resolution.Case.Trace.{Command, triages, starts, assigns, persists, call, run_calls}
use autophage.Resolution.Case.Invariant.{reachable_case-IsValid}
use autophage.Store.Database.{CaseKey, Database, Server, find_case}
use autophage.Store.Cases.Updates.{IsStored}
use autophage.App.Scheduler.{IssueDetail}
use autophage.App.Scheduler.{Daemon}

abbrev pub owner : Requester
owner = record { login = "ada"; association = association_owner; trust = trusted }

abbrev pub fresh_case : Case
fresh_case = record {
  id = "";
  repository = "o/r";
  number = pos 7;
  requester = owner;
  state = received;
  received_at = 1;
  triage = none;
  approvals = [];
  attempts = [];
  transitions = [];
  closure = none;
  changes = no_changes received;
}

fresh_case_made : new_case "o/r" (pos 7) owner 1 ≡ ok fresh_case
unfolding new_case is_blank str_eq
fresh_case_made = refl

abbrev pub sized_small : Triage
sized_small = record { size = known small; rationale = "one line"; model = "m"; triaged_at = 2 }

abbrev pub budget : Budget
budget = record { max_turns = pos 40; max_wall_clock = pos 600; max_diff_lines = pos 300 }

abbrev pub start_it : Command
start_it = starts (known auto) budget "brief" 3

-- A queued case, and one with an attempt that a restart left open.
abbrev pub queued_case : Case
queued_case = run_calls fresh_case (assigns "c1" ∷ triages sized_small ∷ persists ∷ [])

abbrev pub running_case : Case
running_case = run_calls fresh_case (assigns "c1" ∷ triages sized_small ∷ start_it ∷ persists ∷ [])

pub queued_case-IsStored : IsStored queued_case
unfolding run_calls call assign_id record_triage move clear_changes is_blank str_eq
queued_case-IsStored = record {
  valid =
      reachable_case-IsValid "o/r" (pos 7) owner 1
        (assigns "c1" ∷ triages sized_small ∷ persists ∷ []) fresh_case_made;
  clean = refl;
}

pub running_case-IsStored : IsStored running_case
unfolding run_calls call assign_id record_triage start_attempt move clear_changes is_blank str_eq
running_case-IsStored = record {
  valid =
      reachable_case-IsValid "o/r" (pos 7) owner 1
        (assigns "c1" ∷ triages sized_small ∷ start_it ∷ persists ∷ []) fresh_case_made;
  clean = refl;
}

abbrev pub key : CaseKey
key = record { repository = "o/r"; number = pos 7 }

abbrev pub other_key : CaseKey
other_key = record { repository = "o/r"; number = pos 8 }

abbrev pub server : Server
server = record {
  down = λ n. false;
  case_id = λ n. "c2";
  attempt_id = λ id n. "a1";
  approval_id = λ id n. "p1";
}

abbrev pub repo : Repository
repo = record {
  full_name = "o/r";
  installation_id = pos 5;
  default_branch = "main";
  enrolled_at = 1;
  removed = none;
}

abbrev pub database : Case → Database
database c = record { cases = c ∷ []; bumps = []; repositories = repo ∷ []; tick = 0 }

abbrev pub open_issue : IssueDetail
open_issue = record { title = "t"; body = "b"; is_open = true }

abbrev pub daemon : Daemon
daemon = record {
  server = server;
  concurrency = 2;
  budgets = record { auto = budget; approved = budget; repair = budget };
  issue = λ n k. some open_issue;
  now = λ n. n;
  build_brief = λ i. ok "brief";
}

pub found_queued : find_case key (database queued_case).cases ≡ some queued_case
unfolding find_case run_calls call assign_id record_triage move clear_changes is_blank str_eq
found_queued = refl
