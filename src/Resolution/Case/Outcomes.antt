-- ===== src/Resolution/Case/Outcomes.antt =====
-- The outcomes that the constructors of internal/resolution/facts.go build, against RecordOutcome.
use autophage.Base.{ℤ, ◌≡◌, ◌⊎◌, String, is_blank, false, known, ok, err, refused, Spelling, arith}
use autophage.Resolution.Enums.{OutcomeKind, Limit, FailureClass, AbortReason}
use autophage.Resolution.Budget.{Usage}
use autophage.Resolution.Facts.{
  Time, Outcome, outcome_pull_request, outcome_exhausted, outcome_exhausted_with_pull_request,
  outcome_failed, outcome_aborted,
}
use autophage.Resolution.Case.State.{Case}
use autophage.Resolution.Case.Commands.{record_outcome, target}

-- One of the five constructors returned this outcome.
pub data Built : Outcome → Type 0 where
  opened :
      (pr_number : ℤ) (head_sha summary : String) (u : Usage) (at : Time) (o : Outcome)
      → outcome_pull_request pr_number head_sha summary u at ≡ ok o
      → Built o
  spent :
      (limit : Spelling Limit) (summary : String) (u : Usage) (at : Time) (o : Outcome)
      → outcome_exhausted limit summary u at ≡ ok o
      → Built o
  spent_opened :
      (limit : Spelling Limit) (pr_number : ℤ) (head_sha summary : String) (u : Usage) (at : Time)
      (o : Outcome)
      → outcome_exhausted_with_pull_request limit pr_number head_sha summary u at ≡ ok o
      → Built o
  broken :
      (class : Spelling FailureClass) (message : String) (u : Usage) (at : Time) (o : Outcome)
      → outcome_failed class message u at ≡ ok o
      → Built o
  stopped :
      (reason : Spelling AbortReason) (summary : String) (u : Usage) (at : Time) (o : Outcome)
      → outcome_aborted reason summary u at ≡ ok o
      → Built o

-- What RecordOutcome asks of every outcome, whatever the case: a known kind and a summary.
record IsComplete (o : Outcome) : Type 0 where
  kind : OutcomeKind
  is_kind : o.kind ≡ known kind
  summarised : is_blank o.summary ≡ false

Built-IsComplete : (o : Outcome) → Built o → IsComplete o
unfolding outcome_pull_request outcome_exhausted outcome_exhausted_with_pull_request outcome_failed
    outcome_aborted
Built-IsComplete _ (opened pr_number head_sha summary u at o h) = record {
  kind = OutcomeKind.pull_request_opened;
  is_kind = ground (arith, h);
  summarised = ground (arith, h);
}
Built-IsComplete _ (spent limit summary u at o h) = record {
  kind = OutcomeKind.budget_exhausted;
  is_kind = ground (arith, h);
  summarised = ground (arith, h);
}
Built-IsComplete _ (spent_opened limit pr_number head_sha summary u at o h) = record {
  kind = OutcomeKind.budget_exhausted;
  is_kind = ground (arith, h);
  summarised = ground (arith, h);
}
Built-IsComplete _ (broken class message u at o h) = record {
  kind = OutcomeKind.failed_outcome;
  is_kind = ground (arith, h);
  summarised = ground (arith, h);
}
Built-IsComplete _ (stopped reason summary u at o h) = record {
  kind = OutcomeKind.aborted;
  is_kind = ground (arith, h);
  summarised = ground (arith, h);
}

-- Whatever the case: RecordOutcome takes an outcome that a constructor built, or refuses it for the
-- state that the case is in. It never finds the outcome invalid.
pub record_outcome-Built :
    (c : Case) (id : String) (o : Outcome)
    → Built o
    → ((record_outcome id o c).1 ≡ ok tt) ⊎ ((record_outcome id o c).1 ≡ err refused)
unfolding record_outcome target
record_outcome-Built c id o b =
    let w = Built-IsComplete o b in ground (arith, w.is_kind, w.summarised)
