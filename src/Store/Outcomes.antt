-- ===== src/Store/Outcomes.antt =====
-- internal/store/cases.go and cases_load.go: the rows of an outcome, one for its common fields and
-- one for its variant, and the outcome that is read back. A text column gives back the `Spelling`
-- that was written.
use autophage.Base.{
  ◌≡◌, ℤ, pos, eqb_ℤ, quot_ℕ, mul_ℕ, String, Option, none, some, if◌then◌else◌, Spelling, known,
  other, blank, arith,
}
use autophage.Resolution.Enums.{
  OutcomeKind, pull_request_opened, budget_exhausted, failed_outcome, aborted, Limit, FailureClass,
  AbortReason,
}
use autophage.Resolution.Budget.{Usage}
use autophage.Resolution.Facts.{
  Time, Outcome, outcome_pull_request, outcome_exhausted, outcome_exhausted_with_pull_request,
  outcome_failed, outcome_aborted,
}
use autophage.Resolution.Case.Outcomes.{Built, opened, spent, spent_opened, broken, stopped}

-- toInterval: whole microseconds of a duration in nanoseconds; the division truncates.
abbrev pub to_interval : ℤ → ℤ
to_interval d = quot_ℕ d 1000

-- fromInterval, of an interval without days.
abbrev pub from_interval : ℤ → ℤ
from_interval us = mul_ℕ us 1000

abbrev pub stored_usage : Usage → Usage
stored_usage u = record u { wall_clock = from_interval (to_interval u.wall_clock) }

-- The columns of an optional pull request, both null or neither.
abbrev pub PullRequestColumns : Type 0
PullRequestColumns = Option (ℤ × String)

-- attempt_outcomes, and the four tables of variants.
pub record OutcomeRows : Type 0 where
  pub kind : Spelling OutcomeKind
  pub ended_at : Time
  pub usage : Usage
  pub wall_clock : ℤ
  pub summary : String
  pub pull_request : PullRequestColumns
  pub exhaustion : Option (Spelling Limit × PullRequestColumns)
  pub failure : Option (Spelling FailureClass × String)
  pub abort : Option (Spelling AbortReason)

-- nullablePR.
abbrev pub nullable_pr : Outcome → PullRequestColumns
nullable_pr o = if eqb_ℤ o.pr_number (pos 0) then none else some (o.pr_number, o.head_sha)

abbrev common_row : (Time → Time) → Outcome → OutcomeRows
common_row timestamptz o = record {
  kind = o.kind;
  ended_at = timestamptz o.ended_at;
  usage = o.usage;
  wall_clock = to_interval o.usage.wall_clock;
  summary = o.summary;
  pull_request = none;
  exhaustion = none;
  failure = none;
  abort = none;
}

-- The switch on the kind.
abbrev variant_row : (Time → Time) → Spelling OutcomeKind → Outcome → OutcomeRows
variant_row timestamptz (known pull_request_opened) o = record (common_row timestamptz o) {
  pull_request = some (o.pr_number, o.head_sha);
}
variant_row timestamptz (known budget_exhausted) o = record (common_row timestamptz o) {
  exhaustion = some (o.limit, nullable_pr o);
}
variant_row timestamptz (known failed_outcome) o = record (common_row timestamptz o) {
  failure = some (o.class, o.message);
}
variant_row timestamptz (known aborted) o = record (common_row timestamptz o) {
  abort = some o.reason;
}
variant_row timestamptz (other v) o = common_row timestamptz o

-- insertOutcome. `timestamptz` is what such a column of PostgreSQL keeps of a time.
unfoldable pub insert_outcome : (Time → Time) → Outcome → OutcomeRows
insert_outcome timestamptz o = variant_row timestamptz o.kind o

-- `if prNumber != nil { … } else if ePR != nil { … }`.
abbrev pub pr_columns :
    PullRequestColumns → Option (Spelling Limit × PullRequestColumns) → PullRequestColumns
pr_columns (some p) e = some p
pr_columns none (some (limit, p)) = p
pr_columns none none = none

abbrev number_of : PullRequestColumns → ℤ
number_of (some (n, sha)) = n
number_of none = pos 0

abbrev head_of : PullRequestColumns → String
head_of (some (n, sha)) = sha
head_of none = ""

abbrev limit_in : Option (Spelling Limit × PullRequestColumns) → Spelling Limit
limit_in (some (limit, p)) = limit
limit_in none = blank

abbrev class_in : Option (Spelling FailureClass × String) → Spelling FailureClass
class_in (some (class, message)) = class
class_in none = blank

abbrev message_in : Option (Spelling FailureClass × String) → String
message_in (some (class, message)) = message
message_in none = ""

abbrev reason_in : Option (Spelling AbortReason) → Spelling AbortReason
reason_in (some reason) = reason
reason_in none = blank

-- loadAttempts, of the columns that the left joins give for an outcome.
unfoldable pub load_outcome : OutcomeRows → Outcome
load_outcome r =
    let p = pr_columns r.pull_request r.exhaustion in
    record {
      kind = r.kind;
      ended_at = r.ended_at;
      usage = record (r.usage) { wall_clock = from_interval r.wall_clock };
      summary = r.summary;
      pr_number = number_of p;
      head_sha = head_of p;
      limit = limit_in r.exhaustion;
      class = class_in r.failure;
      message = message_in r.failure;
      reason = reason_in r.abort;
    }

-- Every outcome that a constructor of the domain built is read back as it was written, but for the
-- wall clock, which is cut to whole microseconds, and the time of its end, which is what the column
-- keeps of it.
pub load_outcome-insert_outcome :
    (timestamptz : Time → Time) (o : Outcome)
    → Built o
    → load_outcome (insert_outcome timestamptz o)
      ≡ record o { ended_at = timestamptz o.ended_at; usage = stored_usage o.usage }
unfolding load_outcome insert_outcome outcome_pull_request outcome_exhausted
    outcome_exhausted_with_pull_request outcome_failed outcome_aborted
load_outcome-insert_outcome timestamptz o (opened n head summary u at _ h) = ground (arith, h)
load_outcome-insert_outcome timestamptz o (spent limit summary u at _ h) = ground (arith, h)
load_outcome-insert_outcome timestamptz o (spent_opened limit n head summary u at _ h) =
    ground (arith, h)
load_outcome-insert_outcome timestamptz o (broken class message u at _ h) = ground (arith, h)
load_outcome-insert_outcome timestamptz o (stopped reason summary u at _ h) = ground (arith, h)
