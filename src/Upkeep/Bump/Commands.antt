-- ===== src/Upkeep/Bump/Commands.antt =====
-- internal/upkeep/bump.go: the commands of a bump, each with its guards in the order of the code.
use autophage.Base.{
  ℕ, ◌+◌, ℤ, pos, ltb_ℤ, leb_ℤ, eqb_ℤ, ltb, String, Bool, true, false, ◌&&◌, ◌||◌, not, Option,
  none, some, List, [], ◌∷◌, ◌++◌, any_if, Result, ok, err, invalid, refused, Method, ◌>>=◌, ◌>>◌,
  get, give, try, modify, reject_if, if◌then◌else◌, is_blank, str_eq, is_some, is_sha, Spelling,
  known, is, parse, check, put,
}
use autophage.Resolution.Enums.{FailureClass, failure_infra}
use autophage.Resolution.Budget.{Budget}
use autophage.Resolution.Facts.{Time, Run}
use autophage.Upkeep.Enums.{
  BumpState, awaiting_checks, queued, repairing, green, abandoned, closed, terminal,
  CheckConclusion, check_success, check_failure, RepairOutcomeKind, pushed, no_change,
  budget_exhausted, repair_failed, repair_aborted, RepairAbortReason, abort_operator_stop,
  abort_daemon_restart, abort_pull_request_closed, AbandonReason, abandon_reason_text,
  abandon_rounds_exhausted, abandon_budget_exhausted, abandon_repair_failed, abandon_no_change,
  abandon_checks_never_concluded, abandon_operator_stop, abandon_restart_failed,
  BumpTransitionCause, cause_verdict_success, cause_verdict_failure,
  cause_verdict_failure_cap_reached, cause_checks_never_concluded, cause_repair_started,
  cause_repair_pushed, cause_repair_no_change, cause_repair_budget_exhausted,
  cause_repair_failed_infra_requeued, cause_repair_requeue_capped, cause_repair_failed_abandoned,
  cause_repair_aborted_operator_stop, cause_repair_aborted_restart_requeue,
  cause_repair_aborted_restart_abandon, cause_head_advanced, cause_operator_retry,
  cause_bump_closed,
}
use autophage.Upkeep.Facts.{
  CheckVerdict, RepairAttempt, RepairOutcome, BumpAbandonment, BumpClosure, BumpTransition, is_open,
}
use autophage.Upkeep.Bump.State.{
  Bump, is_awaiting, is_queued, is_repairing, is_green, is_abandoned, is_closed, rounds, cap_of,
  verdict_on, current_verdict,
}

-- The first round without an outcome; Go hands out a pointer to it, and `update_open` is a write
-- through that pointer.
unfoldable pub open_repair : List RepairAttempt → Option RepairAttempt
open_repair [] = none
open_repair (a ∷ rest) = if is_open a then some a else open_repair rest

unfoldable pub update_open :
    (RepairAttempt → RepairAttempt) → List RepairAttempt → List RepairAttempt
update_open f [] = []
update_open f (a ∷ rest) = if is_open a then f a ∷ rest else a ∷ update_open f rest

-- Every state change goes through here, and is recorded.
unfoldable pub move : BumpState → BumpTransitionCause → Time → Method Bump (Unit {0})
move to cause at = modify λ b.
    let tr : BumpTransition = record { from = b.state; to = to; cause = cause; occurred_at = at } in
    record b {
      state = to;
      transitions = b.transitions ++ tr ∷ [];
      changes = record (b.changes) { transitions = b.changes.transitions ++ tr ∷ []; state = to };
    }

-- setAbandonment records why autophage stopped; an empty detail becomes the reason's text.
unfoldable pub set_abandonment : AbandonReason → String → Time → Method Bump (Unit {0})
set_abandonment reason detail at = modify λ b.
    let a : BumpAbandonment = record {
      reason = known reason;
      detail = if is_blank detail then abandon_reason_text reason else detail;
      abandoned_at = at;
    } in
    record b {
      abandonment = some a;
      changes = record (b.changes) { abandonment = some a; drop_abandon = false };
    }

abbrev pub is_success : CheckConclusion → Bool
is_success check_success = true
is_success check_failure = false

abbrev differ : Bool → Bool → Bool
differ true b = not b
differ false b = b

-- RecordVerdict records a conclusive result of the checks on the current head, and moves the bump
-- by its conclusion.
unfoldable pub record_verdict : CheckVerdict → ℤ → Method Bump (Unit {0})
unfolding move set_abandonment
record_verdict v max_rounds = do
  try (check v.conclusion)
  reject_if (not (is_sha v.head_sha)) invalid
  reject_if (differ (is is_success v.conclusion) (is_blank v.failing_contexts)) invalid
  b ← get
  reject_if (not (is_awaiting b.state)) refused
  reject_if (not (str_eq v.head_sha b.head_sha)) refused
  reject_if (any_if (λ seen. str_eq seen.head_sha v.head_sha) b.verdicts) refused
  modify (λ b. record b {
    verdicts = b.verdicts ++ v ∷ [];
    changes = record (b.changes) { verdicts = b.changes.verdicts ++ v ∷ [] };
  })
  if is is_success v.conclusion
      then move green cause_verdict_success v.concluded_at
      else if ltb_ℤ (pos (rounds b)) (cap_of b max_rounds)
      then move queued cause_verdict_failure v.concluded_at
      else (set_abandonment abandon_rounds_exhausted v.failing_contexts v.concluded_at
          >> move abandoned cause_verdict_failure_cap_reached v.concluded_at)

-- AdvanceHead records the branch tip moving, whoever moved it.
unfoldable pub advance_head : String → Time → Method Bump (Unit {0})
unfolding move
advance_head sha at = do
  reject_if (not (is_sha sha)) invalid
  b ← get
  reject_if (is_closed b.state || is_abandoned b.state) refused
  reject_if (str_eq sha b.head_sha) refused
  modify (λ b. record b { head_sha = sha; changes = record (b.changes) { head_sha = sha } })
  if is_awaiting b.state then give tt else move awaiting_checks cause_head_advanced at

-- The round that StartRepair appends to `n` others, from the head `base`.
abbrev pub fresh_repair : ℕ → String → Budget → String → Time → RepairAttempt
fresh_repair n base budget brief at = record {
  id = "";
  round = n + 1;
  base_sha = base;
  budget = budget;
  brief = brief;
  started_at = at;
  run = none;
  outcome = none;
}

-- StartRepair opens the next round on a queued bump, from its head.
unfoldable pub start_repair : Budget → String → Time → ℤ → Method Bump RepairAttempt
unfolding move open_repair
start_repair budget brief at max_rounds = do
  reject_if (eqb_ℤ budget.max_turns (pos 0)) invalid
  reject_if (is_blank brief) invalid
  b ← get
  reject_if (not (is_queued b.state)) refused
  reject_if (is_some (open_repair b.attempts)) refused
  reject_if (leb_ℤ (cap_of b max_rounds) (pos (rounds b))) refused
  let a = fresh_repair (rounds b) b.head_sha budget brief at
  modify (λ b. record b {
    attempts = b.attempts ++ a ∷ [];
    changes = record (b.changes) { attempts = b.changes.attempts ++ a ∷ [] };
  })
  move repairing cause_repair_started at
  give a

-- target is the open round, checked against `attempt_id` when both are known.
unfoldable pub target : String → Method Bump RepairAttempt
unfolding open_repair
target attempt_id b = elim (open_repair b.attempts) [
  | none ↦ (b, err refused)
  | some a ↦
      if not (is_blank attempt_id) && not (is_blank a.id) && not (str_eq a.id attempt_id)
      then (b, err refused)
      else (b, ok a)
]

-- RecordRun marks the open round as having reached the agent, once.
unfoldable pub record_run : String → Run → Method Bump (Unit {0})
unfolding target update_open
record_run attempt_id r = do
  reject_if (is_blank r.run_id || is_blank r.model || not (is_sha r.base_sha)) invalid
  a ← target attempt_id
  reject_if (is_some a.run) refused
  modify (λ b. record b {
    attempts = update_open (λ x. record x { run = some r }) b.attempts;
    changes = record (b.changes) { runs = put a.round r b.changes.runs };
  })

-- What validateOutcome asks of the fields that a kind makes meaningful.
abbrev variant_fields : RepairOutcomeKind → RepairOutcome → Result (Unit {0})
variant_fields pushed o = if not (is_sha o.head_sha) then err invalid else ok tt
variant_fields no_change o = ok tt
variant_fields budget_exhausted o = check o.limit
variant_fields repair_failed o = elim (check o.class) [
  | err e ↦ err e
  | ok _ ↦ if is_blank o.message then err invalid else ok tt
]
variant_fields repair_aborted o = check o.reason

-- validateOutcome; the kind is handed on, since the callers go on to switch on it.
abbrev pub validate_outcome : RepairOutcome → Result RepairOutcomeKind
validate_outcome o = elim (parse o.kind) [
  | err e ↦ err e
  | ok kind ↦
      if is_blank o.summary
      then err invalid
      else elim (variant_fields kind o) [ err e ↦ err e | ok _ ↦ ok kind ]
]

abbrev pub is_restart_reason : RepairAbortReason → Bool
is_restart_reason abort_daemon_restart = true
is_restart_reason _ = false

abbrev pub is_closed_reason : RepairAbortReason → Bool
is_closed_reason abort_pull_request_closed = true
is_closed_reason _ = false

abbrev pub is_aborted : RepairOutcomeKind → Bool
is_aborted repair_aborted = true
is_aborted _ = false

abbrev pub is_pushed : RepairOutcomeKind → Bool
is_pushed pushed = true
is_pushed _ = false

-- The round ended with a daemon-restart abort.
abbrev pub ended_by_restart : Option RepairOutcome → Bool
ended_by_restart none = false
ended_by_restart (some o) = is is_aborted o.kind && is is_restart_reason o.reason

-- restartedBefore: did a round before this one end with a daemon-restart abort.
unfoldable pub restarted_before : ℕ → List RepairAttempt → Bool
restarted_before round = any_if (λ a. ltb a.round round && ended_by_restart a.outcome)

-- Where a bump goes, what the log says, and what abandonment is recorded.
pub record Plan : Type 0 where
  pub to : BumpState
  pub cause : BumpTransitionCause
  pub reason : Option AbandonReason

-- The closure `requeue` in outcomeMove; `room` says that a further round lies within the cap.
abbrev requeue : Bool → BumpTransitionCause → Plan
requeue room cause = if room then record { to = queued; cause = cause; reason = none } else record {
  to = abandoned;
  cause = cause_repair_requeue_capped;
  reason = some abandon_rounds_exhausted;
}

abbrev is_infra : FailureClass → Bool
is_infra failure_infra = true
is_infra _ = false

-- The switch on the abort reason in outcomeMove.
abbrev abort_plan : Spelling RepairAbortReason → Bool → Bool → Plan
abort_plan (known abort_operator_stop) restarted room = record {
  to = abandoned;
  cause = cause_repair_aborted_operator_stop;
  reason = some abandon_operator_stop;
}
abort_plan (known abort_daemon_restart) restarted room =
    if restarted
    then record {
      to = abandoned;
      cause = cause_repair_aborted_restart_abandon;
      reason = some abandon_restart_failed;
    }
    else requeue room cause_repair_aborted_restart_requeue
abort_plan _ restarted room = record { to = closed; cause = cause_bump_closed; reason = none }

-- outcomeMove, the transition table for a round ending on a repairing bump.
abbrev pub outcome_move : RepairOutcomeKind → RepairOutcome → Bool → Bool → Plan
outcome_move pushed o restarted room = record {
  to = awaiting_checks;
  cause = cause_repair_pushed;
  reason = none;
}
outcome_move no_change o restarted room = record {
  to = abandoned;
  cause = cause_repair_no_change;
  reason = some abandon_no_change;
}
outcome_move budget_exhausted o restarted room = record {
  to = abandoned;
  cause = cause_repair_budget_exhausted;
  reason = some abandon_budget_exhausted;
}
outcome_move repair_failed o restarted room =
    if is is_infra o.class then requeue room cause_repair_failed_infra_requeued else record {
      to = abandoned;
      cause = cause_repair_failed_abandoned;
      reason = some abandon_repair_failed;
    }
outcome_move repair_aborted o restarted room = abort_plan o.reason restarted room

abbrev abandon_if : Option AbandonReason → String → Time → Method Bump (Unit {0})
abandon_if none detail at = give tt
abandon_if (some reason) detail at = set_abandonment reason detail at

-- RecordOutcome ends the open round, and moves the bump by the outcome's kind if it is repairing.
unfoldable pub record_outcome : String → RepairOutcome → ℤ → Method Bump (Unit {0})
unfolding move set_abandonment target update_open restarted_before
record_outcome attempt_id o max_rounds = do
  kind ← try (validate_outcome o)
  a ← target attempt_id
  reject_if (is_pushed kind && str_eq o.head_sha a.base_sha) invalid
  b ← get
  reject_if (is_aborted kind && is is_closed_reason o.reason && not (is_closed b.state)) refused
  let moves = is_repairing b.state
  let room = ltb_ℤ (pos (rounds b)) (cap_of b max_rounds)
  let plan = outcome_move kind o (restarted_before a.round b.attempts) room
  modify (λ b. record b {
    attempts = update_open (λ x. record x { outcome = some o }) b.attempts;
    changes = record (b.changes) { outcomes = put a.round o b.changes.outcomes };
  })
  if is_pushed kind
      then modify (λ b. record b {
        head_sha = o.head_sha;
        changes = record (b.changes) { head_sha = o.head_sha };
      })
      else give tt
  if moves
      then (abandon_if plan.reason o.summary o.ended_at >> move plan.to plan.cause o.ended_at)
      else give tt

abbrev is_never_concluded : AbandonReason → Bool
is_never_concluded abandon_checks_never_concluded = true
is_never_concluded _ = false

-- Abandon records a reason that no round produced: only that the checks never concluded.
unfoldable pub abandon : BumpAbandonment → Method Bump (Unit {0})
unfolding move set_abandonment
abandon a = do
  reason ← try (parse a.reason)
  reject_if (is_blank a.detail) invalid
  reject_if (not (is_never_concluded reason)) refused
  b ← get
  reject_if (is_closed b.state || is_abandoned b.state) refused
  set_abandonment reason a.detail a.abandoned_at
  move abandoned cause_checks_never_concluded a.abandoned_at

-- What Retry reads off the verdict on the current head: where to go, or a refusal.
abbrev retry_to : Option CheckVerdict → Result BumpState
retry_to none = ok awaiting_checks
retry_to (some v) = if is is_success v.conclusion then err refused else ok queued

-- Retry undoes an abandonment, and grants one further round.
unfoldable pub retry : Time → Method Bump (Unit {0})
unfolding move verdict_on
retry at = do
  b ← get
  reject_if (not (is_abandoned b.state) && not (is_green b.state)) refused
  to ← try (retry_to (current_verdict b))
  if is_some b.abandonment
      then modify (λ b. record b {
        abandonment = none;
        changes = record (b.changes) { abandonment = none; drop_abandon = true };
      })
      else give tt
  move to cause_operator_retry at

-- Close records the pull request closing, from any state that is not terminal.
unfoldable pub close : BumpClosure → Method Bump (Unit {0})
unfolding move
close cl = do
  try (check cl.kind)
  reject_if (is_blank cl.delivery_id) invalid
  b ← get
  reject_if (terminal b.state) refused
  modify (λ b. record b { closure = some cl; changes = record (b.changes) { closure = some cl } })
  move closed cause_bump_closed cl.closed_at
