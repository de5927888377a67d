-- ===== src/Upkeep/Vocabularies.antt =====
-- The vocabularies of internal/upkeep/enums.go, against their parsers.
use autophage.Base.{◌≡◌, refl, str_eq, parse_enum, IsVocabulary, vocabulary, ok}
use autophage.Upkeep.Enums.{
  BumpState, bump_state_text, all_bump_states, CheckConclusion, check_conclusion_text,
  all_check_conclusions, RepairOutcomeKind, repair_outcome_kind_text, all_repair_outcome_kinds,
  RepairAbortReason, repair_abort_reason_text, all_repair_abort_reasons, AbandonReason,
  abandon_reason_text, all_abandon_reasons, ClosureKind, closure_kind_text, all_closure_kinds,
  BumpTransitionCause, bump_transition_cause_text, all_bump_transition_causes,
}

bump_state_parses :
    (a : BumpState) → parse_enum bump_state_text all_bump_states (bump_state_text a) ≡ ok a
unfolding parse_enum bump_state_text str_eq
bump_state_parses BumpState.awaiting_checks = refl
bump_state_parses BumpState.queued = refl
bump_state_parses BumpState.repairing = refl
bump_state_parses BumpState.green = refl
bump_state_parses BumpState.abandoned = refl
bump_state_parses BumpState.closed = refl

check_conclusion_parses :
    (a : CheckConclusion)
    → parse_enum check_conclusion_text all_check_conclusions (check_conclusion_text a) ≡ ok a
unfolding parse_enum check_conclusion_text str_eq
check_conclusion_parses CheckConclusion.check_success = refl
check_conclusion_parses CheckConclusion.check_failure = refl

repair_outcome_kind_parses :
    (a : RepairOutcomeKind)
    → parse_enum repair_outcome_kind_text all_repair_outcome_kinds (repair_outcome_kind_text a)
      ≡ ok a
unfolding parse_enum repair_outcome_kind_text str_eq
repair_outcome_kind_parses RepairOutcomeKind.pushed = refl
repair_outcome_kind_parses RepairOutcomeKind.no_change = refl
repair_outcome_kind_parses RepairOutcomeKind.budget_exhausted = refl
repair_outcome_kind_parses RepairOutcomeKind.repair_failed = refl
repair_outcome_kind_parses RepairOutcomeKind.repair_aborted = refl

repair_abort_reason_parses :
    (a : RepairAbortReason)
    → parse_enum repair_abort_reason_text all_repair_abort_reasons (repair_abort_reason_text a)
      ≡ ok a
unfolding parse_enum repair_abort_reason_text str_eq
repair_abort_reason_parses RepairAbortReason.abort_operator_stop = refl
repair_abort_reason_parses RepairAbortReason.abort_daemon_restart = refl
repair_abort_reason_parses RepairAbortReason.abort_pull_request_closed = refl

abandon_reason_parses :
    (a : AbandonReason)
    → parse_enum abandon_reason_text all_abandon_reasons (abandon_reason_text a) ≡ ok a
unfolding parse_enum abandon_reason_text str_eq
abandon_reason_parses AbandonReason.abandon_rounds_exhausted = refl
abandon_reason_parses AbandonReason.abandon_budget_exhausted = refl
abandon_reason_parses AbandonReason.abandon_repair_failed = refl
abandon_reason_parses AbandonReason.abandon_no_change = refl
abandon_reason_parses AbandonReason.abandon_checks_never_concluded = refl
abandon_reason_parses AbandonReason.abandon_operator_stop = refl
abandon_reason_parses AbandonReason.abandon_restart_failed = refl

closure_kind_parses :
    (a : ClosureKind) → parse_enum closure_kind_text all_closure_kinds (closure_kind_text a) ≡ ok a
unfolding parse_enum closure_kind_text str_eq
closure_kind_parses ClosureKind.merged = refl
closure_kind_parses ClosureKind.discarded = refl

bump_transition_cause_parses :
    (a : BumpTransitionCause)
    → parse_enum bump_transition_cause_text all_bump_transition_causes
        (bump_transition_cause_text a)
      ≡ ok a
unfolding parse_enum bump_transition_cause_text str_eq
bump_transition_cause_parses BumpTransitionCause.cause_verdict_success = refl
bump_transition_cause_parses BumpTransitionCause.cause_verdict_failure = refl
bump_transition_cause_parses BumpTransitionCause.cause_verdict_failure_cap_reached = refl
bump_transition_cause_parses BumpTransitionCause.cause_checks_never_concluded = refl
bump_transition_cause_parses BumpTransitionCause.cause_repair_started = refl
bump_transition_cause_parses BumpTransitionCause.cause_repair_pushed = refl
bump_transition_cause_parses BumpTransitionCause.cause_repair_no_change = refl
bump_transition_cause_parses BumpTransitionCause.cause_repair_budget_exhausted = refl
bump_transition_cause_parses BumpTransitionCause.cause_repair_failed_infra_requeued = refl
bump_transition_cause_parses BumpTransitionCause.cause_repair_requeue_capped = refl
bump_transition_cause_parses BumpTransitionCause.cause_repair_failed_abandoned = refl
bump_transition_cause_parses BumpTransitionCause.cause_repair_aborted_operator_stop = refl
bump_transition_cause_parses BumpTransitionCause.cause_repair_aborted_restart_requeue = refl
bump_transition_cause_parses BumpTransitionCause.cause_repair_aborted_restart_abandon = refl
bump_transition_cause_parses BumpTransitionCause.cause_head_advanced = refl
bump_transition_cause_parses BumpTransitionCause.cause_operator_retry = refl
bump_transition_cause_parses BumpTransitionCause.cause_bump_closed = refl

-- Each of the 7 vocabularies parses: every constant from its own text, and from no other text.
pub upkeep_vocabularies :
    IsVocabulary bump_state_text all_bump_states
    × IsVocabulary check_conclusion_text all_check_conclusions
    × IsVocabulary repair_outcome_kind_text all_repair_outcome_kinds
    × IsVocabulary repair_abort_reason_text all_repair_abort_reasons
    × IsVocabulary abandon_reason_text all_abandon_reasons
    × IsVocabulary closure_kind_text all_closure_kinds
    × IsVocabulary bump_transition_cause_text all_bump_transition_causes
upkeep_vocabularies = (
  vocabulary bump_state_text all_bump_states bump_state_parses,
  vocabulary check_conclusion_text all_check_conclusions check_conclusion_parses,
  vocabulary repair_outcome_kind_text all_repair_outcome_kinds repair_outcome_kind_parses,
  vocabulary repair_abort_reason_text all_repair_abort_reasons repair_abort_reason_parses,
  vocabulary abandon_reason_text all_abandon_reasons abandon_reason_parses,
  vocabulary closure_kind_text all_closure_kinds closure_kind_parses,
  vocabulary bump_transition_cause_text all_bump_transition_causes bump_transition_cause_parses,
)
