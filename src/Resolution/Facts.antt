-- ===== src/Resolution/Facts.antt =====
-- internal/resolution/facts.go: the facts that a case owns, and the constructors of an outcome.
use autophage.Base.{
  ℕ, ℤ, pos, ltb_ℤ, String, Bool, not, Option, Result, ok, err, invalid, if◌then◌else◌, is_blank,
  is_none, is_sha, Spelling, known, blank, parse,
}
use autophage.Resolution.Enums.{
  CaseState, TransitionCause, cause_outcome_pull_request_opened, cause_outcome_budget_exhausted,
  cause_outcome_failed, cause_outcome_aborted_operator_stop, cause_outcome_aborted_restart_requeue,
  cause_outcome_aborted_restart_failed, cause_closed, Size, ApprovalSource, AttemptKind,
  OutcomeKind, pull_request_opened, budget_exhausted, failed_outcome, aborted, Limit, FailureClass,
  AbortReason, abort_operator_stop, abort_daemon_restart,
}
use autophage.Resolution.Budget.{Budget, Usage}
use autophage.Resolution.Requester.{Requester}

-- An instant, in ticks of one clock: time.Time is only compared and copied.
abbrev pub Time : Type 0
Time = ℕ

pub record Triage : Type 0 where
  pub size : Spelling Size
  pub rationale : String
  pub model : String
  pub triaged_at : Time

pub record Approval : Type 0 where
  pub id : String
  pub approver : Requester
  pub source : Spelling ApprovalSource
  pub approved_at : Time
  pub delivery_id : String

pub record Closure : Type 0 where
  pub delivery_id : String
  pub closed_at : Time

pub record Transition : Type 0 where
  pub from : CaseState
  pub to : CaseState
  pub cause : TransitionCause
  pub occurred_at : Time

pub record Run : Type 0 where
  pub run_id : String
  pub model : String
  pub base_sha : String
  pub began_at : Time

-- A sum in the source's way: `kind` says which of the other fields mean something.
pub record Outcome : Type 0 where
  pub kind : Spelling OutcomeKind
  pub ended_at : Time
  pub usage : Usage
  pub summary : String
  pub pr_number : ℤ
  pub head_sha : String
  pub limit : Spelling Limit
  pub class : Spelling FailureClass
  pub message : String
  pub reason : Spelling AbortReason

pub record Attempt : Type 0 where
  pub id : String
  pub ordinal : ℕ
  pub kind : Spelling AttemptKind
  pub budget : Budget
  pub brief : String
  pub started_at : Time
  pub run : Option Run
  pub outcome : Option Outcome

-- Open reports whether the attempt has no outcome yet.
abbrev pub is_open : Attempt → Bool
is_open a = is_none a.outcome

-- An outcome with its common fields set, and every variant field at its zero value.
abbrev plain : OutcomeKind → String → Usage → Time → Outcome
plain kind summary u at = record {
  kind = known kind;
  ended_at = at;
  usage = u;
  summary = summary;
  pr_number = pos 0;
  head_sha = "";
  limit = blank;
  class = blank;
  message = "";
  reason = blank;
}

unfoldable pub outcome_pull_request : ℤ → String → String → Usage → Time → Result Outcome
outcome_pull_request pr_number head_sha summary u at =
    if ltb_ℤ pr_number (pos 1)
    then err invalid
    else if not (is_sha head_sha)
    then err invalid
    else if is_blank summary
    then err invalid
    else let o = plain pull_request_opened summary u at in
      ok (record o { pr_number = pr_number; head_sha = head_sha })

unfoldable pub outcome_exhausted : Spelling Limit → String → Usage → Time → Result Outcome
outcome_exhausted limit summary u at = elim (parse limit) [
  | err e ↦ err e
  | ok _ ↦
      if is_blank summary
      then err invalid
      else let o = plain budget_exhausted summary u at in ok (record o { limit = limit })
]

-- An exhaustion whose stop left committed work, which was opened as a pull request.
unfoldable pub outcome_exhausted_with_pull_request :
    Spelling Limit → ℤ → String → String → Usage → Time → Result Outcome
outcome_exhausted_with_pull_request limit pr_number head_sha summary u at = elim (parse limit) [
  | err e ↦ err e
  | ok _ ↦
      if ltb_ℤ pr_number (pos 1)
      then err invalid
      else if not (is_sha head_sha)
      then err invalid
      else if is_blank summary
      then err invalid
      else let o = plain budget_exhausted summary u at in
        ok (record o { limit = limit; pr_number = pr_number; head_sha = head_sha })
]

unfoldable pub outcome_failed : Spelling FailureClass → String → Usage → Time → Result Outcome
outcome_failed class message u at = elim (parse class) [
  | err e ↦ err e
  | ok _ ↦
      if is_blank message
      then err invalid
      else let o = plain failed_outcome message u at in
        ok (record o { class = class; message = message })
]

unfoldable pub outcome_aborted : Spelling AbortReason → String → Usage → Time → Result Outcome
outcome_aborted reason summary u at = elim (parse reason) [
  | err e ↦ err e
  | ok _ ↦
      if is_blank summary
      then err invalid
      else let o = plain aborted summary u at in ok (record o { reason = reason })
]

-- The second switch of `cause`, on the abort reason.
abbrev abort_cause : Bool → Spelling AbortReason → TransitionCause
abort_cause requeued (known abort_operator_stop) = cause_outcome_aborted_operator_stop
abort_cause requeued (known abort_daemon_restart) =
    if requeued then cause_outcome_aborted_restart_requeue else cause_outcome_aborted_restart_failed
abort_cause requeued _ = cause_closed

-- The transition cause that an outcome produces; `requeued` says whether a daemon-restart abort
-- queues the case again (the first time) or fails it (the second).
abbrev cause_by : Spelling OutcomeKind → Bool → Spelling AbortReason → TransitionCause
cause_by (known pull_request_opened) requeued reason = cause_outcome_pull_request_opened
cause_by (known budget_exhausted) requeued reason = cause_outcome_budget_exhausted
cause_by (known failed_outcome) requeued reason = cause_outcome_failed
cause_by _ requeued reason = abort_cause requeued reason

unfoldable pub outcome_cause : Outcome → Bool → TransitionCause
outcome_cause o requeued = cause_by o.kind requeued o.reason
