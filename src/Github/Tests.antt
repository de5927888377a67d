-- ===== src/Github/Tests.antt =====
-- A listing of GitHub's, and the theorems on the check rollup applied to it.
use autophage.Base.{
  if◌then◌else◌, eqb_ℤ, ◌≡◌, refl, ℤ, pos, true, Option, some, [], ◌∷◌, is_blank, str_eq, known,
  arith,
}
use autophage.Upkeep.Enums.{check_success, check_failure}
use autophage.Github.Rollup.{
  Rollup, Status, CheckRun, Page, Api, leaves, read_status, read_run, scan_entries, scan_pages,
  conclude, check_rollup,
}
use autophage.Github.Rollup.Summary.{Listing, last, more, readings, summary, check_rollup-summary}
use autophage.Github.Rollup.Success.{IsGreen, rollup_success}
use autophage.Github.Rollup.Failures.{NamesFailures, rollup-NamesFailures}

abbrev passed : Status
passed = record { state = "success"; context = "ci/build"; target_url = "u1" }

abbrev skipped : CheckRun
skipped = record { status = "completed"; conclusion = "skipped"; name = "lint"; html_url = "u2" }

abbrev unnamed_failure : CheckRun
unnamed_failure = record {
  status = "completed";
  conclusion = "timed_out";
  name = "";
  html_url = "u3";
}

abbrev first_statuses : Page Status
first_statuses = record { total = pos 2; entries = passed ∷ []; next = pos 2 }

abbrev second_statuses : Page Status
second_statuses = record { total = pos 2; entries = passed ∷ []; next = pos 0 }

abbrev status_pages : ℤ → Option (Page Status)
status_pages page = if eqb_ℤ page (pos 0) then some first_statuses else some second_statuses

abbrev skipped_runs : Page CheckRun
skipped_runs = record { total = pos 1; entries = skipped ∷ []; next = pos 0 }

abbrev failed_runs : Page CheckRun
failed_runs = record { total = pos 2; entries = skipped ∷ unnamed_failure ∷ []; next = pos 0 }

-- Two pages of statuses and one of check runs; in the second, one run fails and has no name.
abbrev passing_api : Api
passing_api = record {
  get_combined_status = status_pages;
  list_check_runs = λ _. some skipped_runs;
}

abbrev failing_api : Api
failing_api = record { get_combined_status = status_pages; list_check_runs = λ _. some failed_runs }

abbrev passing_rollup : Rollup
passing_rollup = record {
  conclusive = true;
  conclusion = known check_success;
  failing_contexts = [];
  details_url = "";
}

abbrev failing_rollup : Rollup
failing_rollup = record {
  conclusive = true;
  conclusion = known check_failure;
  failing_contexts = "(unnamed check)" ∷ [];
  details_url = "u3";
}

status-Listing : Listing status_pages (pos 0) (first_statuses ∷ second_statuses ∷ [])
status-Listing =
    more (pos 0) first_statuses (second_statuses ∷ []) refl refl
      (last (pos 2) second_statuses refl refl)

passing_runs : check_rollup 2 (some passing_api) ≡ leaves passing_rollup
unfolding check_rollup scan_pages scan_entries read_status read_run conclude is_blank str_eq
passing_runs = refl

failing_runs : check_rollup 2 (some failing_api) ≡ leaves failing_rollup
unfolding check_rollup scan_pages scan_entries read_status read_run conclude is_blank str_eq
failing_runs = refl

check_rollup-summary_example :
    check_rollup 2 (some failing_api)
    ≡ leaves (
        summary
          (pos 2)
          (readings read_status (first_statuses ∷ second_statuses ∷ []))
          (pos 2)
          (readings read_run (failed_runs ∷ [])))
check_rollup-summary_example =
    check_rollup-summary failing_api 2 (first_statuses ∷ second_statuses ∷ []) (failed_runs ∷ [])
      status-Listing (last (pos 0) failed_runs refl refl) (omega arith) (omega arith)

rollup_success_example : IsGreen (first_statuses ∷ second_statuses ∷ []) (skipped_runs ∷ [])
rollup_success_example =
    rollup_success passing_api 2 (first_statuses ∷ second_statuses ∷ []) (skipped_runs ∷ [])
      status-Listing (last (pos 0) skipped_runs refl refl) (omega arith) (omega arith) passing_runs
      refl

rollup-NamesFailures_example : NamesFailures failing_rollup
rollup-NamesFailures_example = rollup-NamesFailures (some failing_api) 2 failing_runs
