-- ===== src/Upkeep/Tests.antt =====
-- Concrete bumps, and the theorems on bumps applied to them.
use autophage.Base.{
  ◌≡◌, refl, pos, String, true, List, [], ◌∷◌, length, refused, known, blank, is_blank, str_eq,
  is_sha, none, ok,
}
use autophage.Resolution.Enums.{failure_infra}
use autophage.Resolution.Budget.{Budget, Usage}
use autophage.Upkeep.Enums.{
  awaiting_checks, green, check_success, check_failure, pushed, repair_failed, abandoned,
}
use autophage.Upkeep.Facts.{CheckVerdict, RepairOutcome, RepairAttempt}
use autophage.Upkeep.Bump.State.{
  Bump, no_changes, new_bump, load_bump, clear_changes, current_verdict, verdict_on,
}
use autophage.Upkeep.Bump.Commands.{
  record_verdict, advance_head, start_repair, record_outcome, retry, open_repair, update_open,
  target, restarted_before, move, set_abandonment, fresh_repair,
}
use autophage.Upkeep.Bump.Trace.{
  Command, judges, advances, repairs, ends, retries, call, left_by, run_calls,
}
use autophage.Upkeep.Bump.Errors.{bump_error_unchanged}
use autophage.Upkeep.Bump.Invariant.{IsValid, reachable_bump-IsValid}
use autophage.Upkeep.Bump.Cap.{IsCapped, rounds-IsCapped}
use autophage.Upkeep.Bump.Head.{NoLatePush, fits, state_fits_verdict}
use autophage.Upkeep.Bump.Reload.{snapshot_of, kept_bump, load_bump-run_calls}
use autophage.Upkeep.Bump.LatePush.{late_push_green}

abbrev first_sha : String
first_sha = "0123456789abcdef0123456789abcdef01234567"

abbrev second_sha : String
second_sha = "89abcdef0123456789abcdef0123456789abcdef"

abbrev third_sha : String
third_sha = "fedcba9876543210fedcba9876543210fedcba98"

-- What NewBump returns.
abbrev fresh_bump : Bump
fresh_bump = record {
  id = "";
  repository = "o/r";
  number = pos 9;
  branch = "dependabot/x";
  base_branch = "main";
  head_sha = first_sha;
  state = awaiting_checks;
  opened_at = 1;
  verdicts = [];
  attempts = [];
  transitions = [];
  abandonment = none;
  closure = none;
  changes = no_changes awaiting_checks first_sha;
}

fresh_bump_made : new_bump "o/r" (pos 9) "dependabot/x" "main" first_sha 1 ≡ ok fresh_bump
unfolding new_bump is_blank str_eq is_sha
fresh_bump_made = refl

abbrev budget : Budget
budget = record { max_turns = pos 40; max_wall_clock = pos 600; max_diff_lines = pos 300 }

abbrev usage : Usage
usage = record {
  turns = pos 3;
  input_tokens = pos 100;
  output_tokens = pos 50;
  wall_clock = pos 60;
  diff_lines = pos 10;
}

abbrev failing : String → CheckVerdict
failing sha = record {
  id = "";
  head_sha = sha;
  conclusion = known check_failure;
  failing_contexts = "build";
  details_url = "";
  concluded_at = 2;
}

abbrev passing : String → CheckVerdict
passing sha = record (failing sha) { conclusion = known check_success; failing_contexts = "" }

abbrev pushed_second : RepairOutcome
pushed_second = record {
  kind = known pushed;
  ended_at = 4;
  usage = usage;
  summary = "fixed the build";
  head_sha = second_sha;
  limit = blank;
  class = blank;
  message = "";
  reason = blank;
}

abbrev infra_failure : RepairOutcome
infra_failure = record pushed_second {
  kind = known repair_failed;
  head_sha = "";
  class = known failure_infra;
  message = "no container";
}

-- A failure, a round that pushes, a failure on what it pushed, which reaches the cap of one round,
-- an operator's retry, and a second round, whose failure reaches the cap again.
abbrev life : List Command
life =
    judges (failing first_sha)
    ∷ repairs budget "brief" 3
    ∷ ends "" pushed_second
    ∷ judges (failing second_sha)
    ∷ retries 5
    ∷ repairs budget "brief" 6
    ∷ ends "" infra_failure
    ∷ []

-- The life of the bump, computed: both rounds are spent, and it is abandoned.
life_ends : (run_calls (pos 1) fresh_bump life).state ≡ abandoned
unfolding run_calls call record_verdict start_repair record_outcome retry open_repair update_open
    target restarted_before move set_abandonment verdict_on is_blank str_eq is_sha
life_ends = refl

life_rounds : length (run_calls (pos 1) fresh_bump life).attempts ≡ 2
unfolding run_calls call record_verdict start_repair record_outcome retry open_repair update_open
    target restarted_before move set_abandonment verdict_on is_blank str_eq is_sha
life_rounds = refl

rounds-IsCapped_example : IsCapped 1 (run_calls (pos 1) fresh_bump life)
rounds-IsCapped_example =
    rounds-IsCapped "o/r" (pos 9) "dependabot/x" "main" first_sha 1 1 life fresh_bump_made

reachable_bump-IsValid_example : IsValid (run_calls (pos 1) fresh_bump life)
reachable_bump-IsValid_example =
    reachable_bump-IsValid "o/r" (pos 9) "dependabot/x" "main" first_sha 1 (pos 1) life
      fresh_bump_made

abbrev stored_verdict : CheckVerdict → CheckVerdict
stored_verdict v = record v { id = "v1" }

abbrev stored_round : RepairAttempt → RepairAttempt
stored_round a = record a { id = "r1" }

load_bump-run_calls_example :
    let stored =
      kept_bump stored_verdict stored_round
        (λ v. refl)
        (λ a. refl)
        (λ a. refl)
        (run_calls (pos 1) fresh_bump life) in
    load_bump (snapshot_of stored) ≡ ok (clear_changes stored).0
load_bump-run_calls_example =
    load_bump-run_calls stored_verdict stored_round (λ v. refl) (λ a. refl) (λ a. refl) "o/r"
      (pos 9) "dependabot/x" "main" first_sha 1 (pos 1) life fresh_bump_made

-- None of these calls is a push that comes late.
life_in_time : NoLatePush (pos 1) fresh_bump life
unfolding call record_verdict start_repair record_outcome retry open_repair update_open target
    restarted_before move set_abandonment verdict_on is_blank str_eq is_sha
life_in_time = (refl, (refl, (refl, (refl, (refl, (refl, (refl, tt)))))))

state_fits_verdict_example :
    fits
      (run_calls (pos 1) fresh_bump life).state
      (current_verdict (run_calls (pos 1) fresh_bump life))
    ≡ true
state_fits_verdict_example =
    state_fits_verdict "o/r" (pos 9) "dependabot/x" "main" first_sha 1 (pos 1) life fresh_bump_made
      life_in_time

-- A round on a bump that is not queued: ErrRefused.
abbrev too_early : Command
too_early = repairs budget "brief" 3

bump_error_unchanged_example : left_by (pos 1) fresh_bump too_early ≡ fresh_bump
unfolding call start_repair is_blank str_eq
bump_error_unchanged_example = bump_error_unchanged (pos 1) fresh_bump too_early {e = refused} refl

-- While a round runs, somebody else pushes, and the checks succeed on that push.
abbrev overtaken : List Command
overtaken =
    judges (failing first_sha)
    ∷ repairs budget "brief" 3
    ∷ advances third_sha 4
    ∷ judges (passing third_sha)
    ∷ []

abbrev overtaken_bump : Bump
overtaken_bump = run_calls (pos 1) fresh_bump overtaken

-- The round that is still open there.
abbrev overtaken_round : RepairAttempt
overtaken_round = fresh_repair 0 first_sha budget "brief" 3

late_push_green_example :
    let b' = (record_outcome "" pushed_second (pos 1) overtaken_bump).0 in
    ((record_outcome "" pushed_second (pos 1) overtaken_bump).1 ≡ ok tt)
    × (b'.state ≡ green)
    × (b'.head_sha ≡ second_sha)
    × (current_verdict b' ≡ none)
    × ((record_verdict (failing second_sha) (pos 1) b').0 ≡ b')
    × ((advance_head second_sha 6 b').0 ≡ b')
unfolding run_calls call record_verdict start_repair advance_head open_repair move verdict_on
    is_blank str_eq is_sha
late_push_green_example =
    late_push_green overtaken_bump pushed_second (pos 1) overtaken_round (failing second_sha) 6 refl
      refl refl refl refl refl refl
