-- ===== src/Upkeep/Enums.antt =====
-- internal/upkeep/enums.go: the vocabularies of the dependency-update side, each with its texts,
-- the list of its constants and its parser.
use autophage.Base.{String, List, [], ◌∷◌, Bool, true, false, Result, parse_enum}

pub data BumpState : Type 0 where
  awaiting_checks queued repairing green abandoned closed : BumpState

unfoldable pub bump_state_text : BumpState → String
bump_state_text awaiting_checks = "awaiting_checks"
bump_state_text queued = "queued"
bump_state_text repairing = "repairing"
bump_state_text green = "green"
bump_state_text abandoned = "abandoned"
bump_state_text closed = "closed"

abbrev pub all_bump_states : List BumpState
all_bump_states = awaiting_checks ∷ queued ∷ repairing ∷ green ∷ abandoned ∷ closed ∷ []

unfoldable pub parse_bump_state : String → Result BumpState
parse_bump_state = parse_enum bump_state_text all_bump_states

pub data CheckConclusion : Type 0 where
  check_success check_failure : CheckConclusion

unfoldable pub check_conclusion_text : CheckConclusion → String
check_conclusion_text check_success = "success"
check_conclusion_text check_failure = "failure"

abbrev pub all_check_conclusions : List CheckConclusion
all_check_conclusions = check_success ∷ check_failure ∷ []

unfoldable pub parse_check_conclusion : String → Result CheckConclusion
parse_check_conclusion = parse_enum check_conclusion_text all_check_conclusions

pub data RepairOutcomeKind : Type 0 where
  pushed no_change budget_exhausted repair_failed repair_aborted : RepairOutcomeKind

unfoldable pub repair_outcome_kind_text : RepairOutcomeKind → String
repair_outcome_kind_text pushed = "pushed"
repair_outcome_kind_text no_change = "no_change"
repair_outcome_kind_text budget_exhausted = "budget_exhausted"
repair_outcome_kind_text repair_failed = "failed"
repair_outcome_kind_text repair_aborted = "aborted"

abbrev pub all_repair_outcome_kinds : List RepairOutcomeKind
all_repair_outcome_kinds =
    pushed ∷ no_change ∷ budget_exhausted ∷ repair_failed ∷ repair_aborted ∷ []

unfoldable pub parse_repair_outcome_kind : String → Result RepairOutcomeKind
parse_repair_outcome_kind = parse_enum repair_outcome_kind_text all_repair_outcome_kinds

pub data RepairAbortReason : Type 0 where
  abort_operator_stop abort_daemon_restart abort_pull_request_closed : RepairAbortReason

unfoldable pub repair_abort_reason_text : RepairAbortReason → String
repair_abort_reason_text abort_operator_stop = "operator_stop"
repair_abort_reason_text abort_daemon_restart = "daemon_restart"
repair_abort_reason_text abort_pull_request_closed = "pull_request_closed"

abbrev pub all_repair_abort_reasons : List RepairAbortReason
all_repair_abort_reasons =
    abort_operator_stop ∷ abort_daemon_restart ∷ abort_pull_request_closed ∷ []

unfoldable pub parse_repair_abort_reason : String → Result RepairAbortReason
parse_repair_abort_reason = parse_enum repair_abort_reason_text all_repair_abort_reasons

pub data AbandonReason : Type 0 where
  abandon_rounds_exhausted abandon_budget_exhausted abandon_repair_failed abandon_no_change
        abandon_checks_never_concluded abandon_operator_stop abandon_restart_failed :
      AbandonReason

unfoldable pub abandon_reason_text : AbandonReason → String
abandon_reason_text abandon_rounds_exhausted = "rounds_exhausted"
abandon_reason_text abandon_budget_exhausted = "budget_exhausted"
abandon_reason_text abandon_repair_failed = "repair_failed"
abandon_reason_text abandon_no_change = "no_change"
abandon_reason_text abandon_checks_never_concluded = "checks_never_concluded"
abandon_reason_text abandon_operator_stop = "operator_stop"
abandon_reason_text abandon_restart_failed = "restart_failed"

abbrev pub all_abandon_reasons : List AbandonReason
all_abandon_reasons =
    abandon_rounds_exhausted ∷ abandon_budget_exhausted ∷ abandon_repair_failed ∷ abandon_no_change
    ∷ abandon_checks_never_concluded ∷ abandon_operator_stop ∷ abandon_restart_failed ∷ []

unfoldable pub parse_abandon_reason : String → Result AbandonReason
parse_abandon_reason = parse_enum abandon_reason_text all_abandon_reasons

pub data ClosureKind : Type 0 where
  merged discarded : ClosureKind

unfoldable pub closure_kind_text : ClosureKind → String
closure_kind_text merged = "merged"
closure_kind_text discarded = "discarded"

abbrev pub all_closure_kinds : List ClosureKind
all_closure_kinds = merged ∷ discarded ∷ []

unfoldable pub parse_closure_kind : String → Result ClosureKind
parse_closure_kind = parse_enum closure_kind_text all_closure_kinds

pub data BumpTransitionCause : Type 0 where
  cause_verdict_success cause_verdict_failure cause_verdict_failure_cap_reached
        cause_checks_never_concluded cause_repair_started cause_repair_pushed cause_repair_no_change
        cause_repair_budget_exhausted cause_repair_failed_infra_requeued cause_repair_requeue_capped
        cause_repair_failed_abandoned cause_repair_aborted_operator_stop
        cause_repair_aborted_restart_requeue cause_repair_aborted_restart_abandon
        cause_head_advanced cause_operator_retry cause_bump_closed :
      BumpTransitionCause

unfoldable pub bump_transition_cause_text : BumpTransitionCause → String
bump_transition_cause_text cause_verdict_success = "verdict_success"
bump_transition_cause_text cause_verdict_failure = "verdict_failure"
bump_transition_cause_text cause_verdict_failure_cap_reached = "verdict_failure_cap_reached"
bump_transition_cause_text cause_checks_never_concluded = "checks_never_concluded"
bump_transition_cause_text cause_repair_started = "repair_started"
bump_transition_cause_text cause_repair_pushed = "repair_pushed"
bump_transition_cause_text cause_repair_no_change = "repair_no_change"
bump_transition_cause_text cause_repair_budget_exhausted = "repair_budget_exhausted"
bump_transition_cause_text cause_repair_failed_infra_requeued = "repair_failed_infra_requeued"
bump_transition_cause_text cause_repair_requeue_capped = "repair_requeue_capped"
bump_transition_cause_text cause_repair_failed_abandoned = "repair_failed_abandoned"
bump_transition_cause_text cause_repair_aborted_operator_stop = "repair_aborted_operator_stop"
bump_transition_cause_text cause_repair_aborted_restart_requeue = "repair_aborted_restart_requeued"
bump_transition_cause_text cause_repair_aborted_restart_abandon = "repair_aborted_restart_abandoned"
bump_transition_cause_text cause_head_advanced = "head_advanced"
bump_transition_cause_text cause_operator_retry = "operator_retry"
bump_transition_cause_text cause_bump_closed = "closed"

abbrev pub all_bump_transition_causes : List BumpTransitionCause
all_bump_transition_causes =
    cause_verdict_success ∷ cause_verdict_failure ∷ cause_verdict_failure_cap_reached
    ∷ cause_checks_never_concluded ∷ cause_repair_started ∷ cause_repair_pushed
    ∷ cause_repair_no_change ∷ cause_repair_budget_exhausted ∷ cause_repair_failed_infra_requeued
    ∷ cause_repair_requeue_capped ∷ cause_repair_failed_abandoned
    ∷ cause_repair_aborted_operator_stop ∷ cause_repair_aborted_restart_requeue
    ∷ cause_repair_aborted_restart_abandon ∷ cause_head_advanced ∷ cause_operator_retry
    ∷ cause_bump_closed ∷ []

unfoldable pub parse_bump_transition_cause : String → Result BumpTransitionCause
parse_bump_transition_cause = parse_enum bump_transition_cause_text all_bump_transition_causes

-- Terminal reports whether no transition leaves the state: only `closed` is.
abbrev pub terminal : BumpState → Bool
terminal closed = true
terminal _ = false
