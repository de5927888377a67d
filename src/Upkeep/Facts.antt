-- ===== src/Upkeep/Facts.antt =====
-- internal/upkeep/facts.go: the facts that a bump owns, and the watch that authorises it.
use autophage.Base.{
  ℕ, String, Bool, Option, Result, ok, err, invalid, if◌then◌else◌, is_blank, is_none, Spelling,
}
use autophage.Resolution.Enums.{Limit, FailureClass}
use autophage.Resolution.Budget.{Budget, Usage}
use autophage.Resolution.Facts.{Time, Run}
use autophage.Upkeep.Enums.{
  BumpState, BumpTransitionCause, CheckConclusion, RepairOutcomeKind, RepairAbortReason,
  AbandonReason, ClosureKind,
}

-- The conclusive result of the checks on one head.
pub record CheckVerdict : Type 0 where
  pub id : String
  pub head_sha : String
  pub conclusion : Spelling CheckConclusion
  pub failing_contexts : String
  pub details_url : String
  pub concluded_at : Time

-- A sum in the source's way: `kind` says which of the other fields mean something.
pub record RepairOutcome : Type 0 where
  pub kind : Spelling RepairOutcomeKind
  pub ended_at : Time
  pub usage : Usage
  pub summary : String
  pub head_sha : String
  pub limit : Spelling Limit
  pub class : Spelling FailureClass
  pub message : String
  pub reason : Spelling RepairAbortReason

-- One budgeted round.
pub record RepairAttempt : Type 0 where
  pub id : String
  pub round : ℕ
  pub base_sha : String
  pub budget : Budget
  pub brief : String
  pub started_at : Time
  pub run : Option Run
  pub outcome : Option RepairOutcome

-- Open reports whether the round has no outcome yet.
abbrev pub is_open : RepairAttempt → Bool
is_open a = is_none a.outcome

pub record BumpAbandonment : Type 0 where
  pub reason : Spelling AbandonReason
  pub detail : String
  pub abandoned_at : Time

pub record BumpClosure : Type 0 where
  pub kind : Spelling ClosureKind
  pub delivery_id : String
  pub closed_at : Time

pub record BumpTransition : Type 0 where
  pub from : BumpState
  pub to : BumpState
  pub cause : BumpTransitionCause
  pub occurred_at : Time

pub record Watch : Type 0 where
  pub repository : String
  pub watched_at : Time

-- NewWatch is the only way to build one.
unfoldable pub new_watch : String → Time → Result Watch
new_watch repository at =
    if is_blank repository
    then err invalid
    else ok (record { repository = repository; watched_at = at })
