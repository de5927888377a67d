-- ===== src/Resolution/Enums.antt =====
-- internal/resolution/enums.go: the vocabularies of the issue side, each with its texts, the list
-- of its constants and its parser.
use autophage.Base.{String, List, [], ◌∷◌, Bool, true, false, Result, parse_enum}

pub data CaseState : Type 0 where
  received gated queued attempting awaiting_approval failed done closed : CaseState

unfoldable pub case_state_text : CaseState → String
case_state_text received = "received"
case_state_text gated = "gated"
case_state_text queued = "queued"
case_state_text attempting = "attempting"
case_state_text awaiting_approval = "awaiting_approval"
case_state_text failed = "failed"
case_state_text done = "done"
case_state_text closed = "closed"

abbrev pub all_case_states : List CaseState
all_case_states =
    received ∷ gated ∷ queued ∷ attempting ∷ awaiting_approval ∷ failed ∷ done ∷ closed ∷ []

unfoldable pub parse_case_state : String → Result CaseState
parse_case_state = parse_enum case_state_text all_case_states

pub data Trust : Type 0 where
  trusted untrusted : Trust

unfoldable pub trust_text : Trust → String
trust_text trusted = "trusted"
trust_text untrusted = "untrusted"

abbrev pub all_trusts : List Trust
all_trusts = trusted ∷ untrusted ∷ []

unfoldable pub parse_trust : String → Result Trust
parse_trust = parse_enum trust_text all_trusts

pub data Association : Type 0 where
  association_owner association_member association_collaborator association_contributor
        association_first_time_contributor association_first_timer association_mannequin
        association_none :
      Association

unfoldable pub association_text : Association → String
association_text association_owner = "owner"
association_text association_member = "member"
association_text association_collaborator = "collaborator"
association_text association_contributor = "contributor"
association_text association_first_time_contributor = "first_time_contributor"
association_text association_first_timer = "first_timer"
association_text association_mannequin = "mannequin"
association_text association_none = "none"

abbrev pub all_associations : List Association
all_associations =
    association_owner ∷ association_member ∷ association_collaborator ∷ association_contributor
    ∷ association_first_time_contributor ∷ association_first_timer ∷ association_mannequin
    ∷ association_none ∷ []

-- ParseAssociation accepts GitHub's upper-case spelling too: `lower` is Go's strings.ToLower.
unfoldable pub parse_association : (String → String) → String → Result Association
parse_association lower v = parse_enum association_text all_associations (lower v)

pub data Size : Type 0 where
  small large : Size

unfoldable pub size_text : Size → String
size_text small = "small"
size_text large = "large"

abbrev pub all_sizes : List Size
all_sizes = small ∷ large ∷ []

unfoldable pub parse_size : String → Result Size
parse_size = parse_enum size_text all_sizes

pub data AttemptKind : Type 0 where
  auto approved : AttemptKind

unfoldable pub attempt_kind_text : AttemptKind → String
attempt_kind_text auto = "auto"
attempt_kind_text approved = "approved"

abbrev pub all_attempt_kinds : List AttemptKind
all_attempt_kinds = auto ∷ approved ∷ []

unfoldable pub parse_attempt_kind : String → Result AttemptKind
parse_attempt_kind = parse_enum attempt_kind_text all_attempt_kinds

pub data OutcomeKind : Type 0 where
  pull_request_opened budget_exhausted failed_outcome aborted : OutcomeKind

unfoldable pub outcome_kind_text : OutcomeKind → String
outcome_kind_text pull_request_opened = "pull_request_opened"
outcome_kind_text budget_exhausted = "budget_exhausted"
outcome_kind_text failed_outcome = "failed"
outcome_kind_text aborted = "aborted"

abbrev pub all_outcome_kinds : List OutcomeKind
all_outcome_kinds = pull_request_opened ∷ budget_exhausted ∷ failed_outcome ∷ aborted ∷ []

unfoldable pub parse_outcome_kind : String → Result OutcomeKind
parse_outcome_kind = parse_enum outcome_kind_text all_outcome_kinds

pub data Limit : Type 0 where
  limit_turns limit_wall_clock limit_diff_lines : Limit

unfoldable pub limit_text : Limit → String
limit_text limit_turns = "turns"
limit_text limit_wall_clock = "wall_clock"
limit_text limit_diff_lines = "diff_lines"

abbrev pub all_limits : List Limit
all_limits = limit_turns ∷ limit_wall_clock ∷ limit_diff_lines ∷ []

unfoldable pub parse_limit : String → Result Limit
parse_limit = parse_enum limit_text all_limits

pub data FailureClass : Type 0 where
  failure_infra failure_model failure_agent : FailureClass

unfoldable pub failure_class_text : FailureClass → String
failure_class_text failure_infra = "infra"
failure_class_text failure_model = "model"
failure_class_text failure_agent = "agent"

abbrev pub all_failure_classes : List FailureClass
all_failure_classes = failure_infra ∷ failure_model ∷ failure_agent ∷ []

unfoldable pub parse_failure_class : String → Result FailureClass
parse_failure_class = parse_enum failure_class_text all_failure_classes

pub data AbortReason : Type 0 where
  abort_issue_closed abort_operator_stop abort_daemon_restart : AbortReason

unfoldable pub abort_reason_text : AbortReason → String
abort_reason_text abort_issue_closed = "issue_closed"
abort_reason_text abort_operator_stop = "operator_stop"
abort_reason_text abort_daemon_restart = "daemon_restart"

abbrev pub all_abort_reasons : List AbortReason
all_abort_reasons = abort_issue_closed ∷ abort_operator_stop ∷ abort_daemon_restart ∷ []

unfoldable pub parse_abort_reason : String → Result AbortReason
parse_abort_reason = parse_enum abort_reason_text all_abort_reasons

pub data ApprovalSource : Type 0 where
  source_label source_operator : ApprovalSource

unfoldable pub approval_source_text : ApprovalSource → String
approval_source_text source_label = "label"
approval_source_text source_operator = "operator"

abbrev pub all_approval_sources : List ApprovalSource
all_approval_sources = source_label ∷ source_operator ∷ []

unfoldable pub parse_approval_source : String → Result ApprovalSource
parse_approval_source = parse_enum approval_source_text all_approval_sources

pub data TransitionCause : Type 0 where
  cause_triage_small cause_triage_large cause_approval cause_attempt_started
        cause_outcome_pull_request_opened cause_outcome_budget_exhausted cause_outcome_failed
        cause_outcome_aborted_operator_stop cause_outcome_aborted_restart_requeue
        cause_outcome_aborted_restart_failed cause_closed :
      TransitionCause

unfoldable pub transition_cause_text : TransitionCause → String
transition_cause_text cause_triage_small = "triage_small"
transition_cause_text cause_triage_large = "triage_large"
transition_cause_text cause_approval = "approval"
transition_cause_text cause_attempt_started = "attempt_started"
transition_cause_text cause_outcome_pull_request_opened = "outcome_pull_request_opened"
transition_cause_text cause_outcome_budget_exhausted = "outcome_budget_exhausted"
transition_cause_text cause_outcome_failed = "outcome_failed"
transition_cause_text cause_outcome_aborted_operator_stop = "outcome_aborted_operator_stop"
transition_cause_text cause_outcome_aborted_restart_requeue =
    "outcome_aborted_daemon_restart_requeued"
transition_cause_text cause_outcome_aborted_restart_failed = "outcome_aborted_daemon_restart_failed"
transition_cause_text cause_closed = "closed"

abbrev pub all_transition_causes : List TransitionCause
all_transition_causes =
    cause_triage_small ∷ cause_triage_large ∷ cause_approval ∷ cause_attempt_started
    ∷ cause_outcome_pull_request_opened ∷ cause_outcome_budget_exhausted ∷ cause_outcome_failed
    ∷ cause_outcome_aborted_operator_stop ∷ cause_outcome_aborted_restart_requeue
    ∷ cause_outcome_aborted_restart_failed ∷ cause_closed ∷ []

unfoldable pub parse_transition_cause : String → Result TransitionCause
parse_transition_cause = parse_enum transition_cause_text all_transition_causes

-- Terminal reports whether no transition leaves the state.
abbrev pub terminal : CaseState → Bool
terminal done = true
terminal closed = true
terminal _ = false

pub CaseState-discrete : Discrete CaseState
CaseState-discrete = hlevel
